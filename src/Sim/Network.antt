-- ===== src/Sim/Network.antt =====
-- cassette/sim/network.py: the message bus, with loss, duplication, latency and partitions. The
-- scheduler and the random source that it shares are passed along with its state, and what it
-- notes with the observer comes back as a list. `M` is the type of the payloads.
pub mod Delivery
pub mod Reach
use cassette.Base.{
  ℕ, zero, suc, ◌+◌, ◌-◌, ◌*◌, ◌≤◌, ◌<◌, ◌≡◌, refl, sym, ap, subst, ◌∙◌, ◌≢◌, ◌↔◌, ◌⊎◌, inl, inr,
  ite, dite, if_pos, if_neg, Bool, true, false, not, ◌&&◌, ◌||◌, Option, none, some, List, [], ◌∷◌,
  ◌++◌, map, arith, ltb, leb, ◌==◌, if◌then◌else◌, holds, is_some, Bool-cases, Option-cases,
  if-elim, holds→, ltb→lt, length, get_elem?, set, take, drop, any, all, keep, length-append,
  length-keep-le, length-map, All, All-append, In, In-keep, In_of_keep, keep-ext, all-ext,
  all_of_In, In_of_all, not_of_any, any_of_none, length-keep_mono, length-keep-lt, In-map,
  In_of_map, ℕ_discrete, ℤ, pos, negsuc, ℤ_discrete, pos_part, neg_part, sub_ℕ, ◌+ℤ◌, ◌-ℤ◌, ◌≤ℤ◌,
  ◌<ℤ◌, ltb_ℤ, leb_ℤ, max_ℤ, +ℤ_parts, -ℤ_parts, eq_of_parts, int_laws, range_from, range, Dict,
  lookup, insert, remove, lookup-insert, lookup-remove, length-insert, member, add, discard,
  member-add, member-discard, HasDistinctKeys, insert-HasDistinctKeys, remove-HasDistinctKeys,
  IsDistinct, add-IsDistinct, length-discard-le, length-discard, length-le_of_subset, Text, text,
  text_discrete, leb_text, show_ℕ, show_ℤ, read_ℤ, read_ℤ-show_ℤ, after_colon,
}
use cassette.Kv.Version.{NodeId}
use cassette.Sim.Events.{deliver_message}
use cassette.Sim.Faults.{FaultConfig}
use cassette.Sim.Rng.{Source, chance, randint}
use cassette.Sim.Scheduler.{Scheduler, schedule}

abbrev pub PartitionGroups : Type 0
PartitionGroups = List (List NodeId)

-- What the observer is told.
pub data Note (M : Type 0) : Type 0 where
  lost_note : ℕ → NodeId → NodeId → M → Note M
  send_note : ℕ → NodeId → NodeId → M → ℕ → Note M
  drop_note : ℕ → NodeId → NodeId → Text → Note M
  partition_start_note : PartitionGroups → Note M
  partition_end_note : Note M

pub record Network : Type 0 where
  pub partition : Option PartitionGroups
  pub next_msg_id : ℕ

abbrev pub init : Network
init = record { partition = none; next_msg_id = 0 }

-- The bus, the random source and the queue together.
pub record World (R : Source) (M : Type 0) : Type 0 where
  pub network : Network
  pub rng : R.State
  pub queue : Scheduler M

abbrev pub copies : Bool → ℕ
copies doubled = if doubled then 2 else 1

module _ (R : Source) {M : Type 0} (config : FaultConfig R.Float) where
  -- One copy, at a delay of its own. `none` is a `ValueError` of the draw or of the queue.
  unfoldable pub send_copy : NodeId → NodeId → M → ℕ → World R M → Option (World R M)
  send_copy sender recipient msg msg_id w =
      elim (randint R config.latency_ms.0 config.latency_ms.1 w.rng) [
        | none ↦ none
        | some (delay_ms, g) ↦
            elim (schedule delay_ms recipient (deliver_message sender msg msg_id) w.queue) [
              | none ↦ none
              | some (seq, q) ↦ some (record w { rng = g; queue = q })
            ]
      ]

  -- The loop over the copies.
  unfoldable pub send_copies : ℕ → NodeId → NodeId → M → ℕ → World R M → Option (World R M)
  send_copies zero sender recipient msg msg_id w = some w
  send_copies (suc n) sender recipient msg msg_id w =
      elim (send_copy sender recipient msg msg_id w) [
        | none ↦ none
        | some w' ↦ send_copies n sender recipient msg msg_id w'
      ]

  unfoldable pub send : NodeId → NodeId → M → World R M → Option (ℕ × World R M × List (Note M))
  send sender recipient msg w =
      let msg_id = w.network.next_msg_id in
      let network = record w.network { next_msg_id = suc msg_id } in
      let (lost, g) = chance R config.drop_rate w.rng in
      let (doubled, g') = chance R config.dup_rate g in
      let w' : World R M = record { network = network; rng = g'; queue = w.queue } in
      if lost
      then some (msg_id, w', lost_note msg_id sender recipient msg ∷ [])
      else elim (send_copies (copies doubled) sender recipient msg msg_id w') [
        | none ↦ none
        | some later ↦
            some (msg_id, later, send_note msg_id sender recipient msg (copies doubled) ∷ [])
      ]

unfoldable pub report_drop : {M : Type 0} → NodeId → NodeId → ℕ → Text → List (Note M)
report_drop sender recipient msg_id reason = drop_note msg_id sender recipient reason ∷ []

-- `none` is the `ValueError` of fewer than two groups. The note holds the groups as they are; the
-- source sorts each for the trace.
unfoldable pub partition_into :
    {M : Type 0} → PartitionGroups → Network → Option (Network × List (Note M))
partition_into groups n =
    if ltb (length groups) 2
    then none
    else some (record n { partition = some groups }, partition_start_note groups ∷ [])

abbrev heal_from : {M : Type 0} → Option PartitionGroups → Network → Network × List (Note M)
heal_from none n = (n, [])
heal_from (some groups) n = (record n { partition = none }, partition_end_note ∷ [])

unfoldable pub heal : {M : Type 0} → Network → Network × List (Note M)
heal n = heal_from n.partition n

-- `_group_of`, from the group with number `index` on.
pub group_from : NodeId → ℕ → PartitionGroups → Option ℕ
group_from node index [] = none
group_from node index (group ∷ groups) =
    let rest = group_from node (suc index) groups in
    if member ℤ_discrete node group then some index else rest

abbrev same_group : Option ℕ → Option ℕ → Bool
same_group none recipient = true
same_group (some a) none = true
same_group (some a) (some b) = holds (ℕ_discrete a b)

abbrev reach_in : Option PartitionGroups → NodeId → NodeId → Bool
reach_in none sender recipient = true
reach_in (some groups) sender recipient =
    same_group (group_from sender 0 groups) (group_from recipient 0 groups)

unfoldable pub can_reach : Network → NodeId → NodeId → Bool
unfolding group_from
can_reach n sender recipient = reach_in n.partition sender recipient

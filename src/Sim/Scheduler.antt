-- ===== src/Sim/Scheduler.antt =====
-- cassette/sim/scheduler.py: the event queue. The heap is the list of its entries in their order,
-- so `heappop` takes the head; the clock that the scheduler moves is a part of its state.
pub mod Order
pub mod Pop
pub mod Peek
use cassette.Base.{
  ℕ, zero, suc, ◌+◌, ◌-◌, ◌*◌, ◌≤◌, ◌<◌, ◌≡◌, refl, sym, ap, subst, ◌∙◌, ◌≢◌, ◌↔◌, ◌⊎◌, inl, inr,
  ite, dite, if_pos, if_neg, Bool, true, false, not, ◌&&◌, ◌||◌, Option, none, some, List, [], ◌∷◌,
  ◌++◌, map, arith, ltb, leb, ◌==◌, if◌then◌else◌, holds, is_some, Bool-cases, Option-cases,
  if-elim, holds→, ltb→lt, length, get_elem?, set, take, drop, any, all, keep, length-append,
  length-keep-le, length-map, All, All-append, In, In-keep, In_of_keep, keep-ext, all-ext,
  all_of_In, In_of_all, not_of_any, any_of_none, length-keep_mono, length-keep-lt, In-map,
  In_of_map, ℕ_discrete, ℤ, pos, negsuc, ℤ_discrete, pos_part, neg_part, sub_ℕ, ◌+ℤ◌, ◌-ℤ◌, ◌≤ℤ◌,
  ◌<ℤ◌, ltb_ℤ, leb_ℤ, max_ℤ, +ℤ_parts, -ℤ_parts, eq_of_parts, int_laws, range_from, range, Dict,
  lookup, insert, remove, lookup-insert, lookup-remove, length-insert, member, add, discard,
  member-add, member-discard, HasDistinctKeys, insert-HasDistinctKeys, remove-HasDistinctKeys,
  IsDistinct, add-IsDistinct, length-discard-le, length-discard, length-le_of_subset, Text, text,
  text_discrete, leb_text, show_ℕ, show_ℤ, read_ℤ, read_ℤ-show_ℤ, after_colon,
}
use cassette.Kv.Version.{NodeId}
use cassette.Sim.Clock.{VirtualClock, advance_to}
use cassette.Sim.Events.{Action, Event, comes_first}

pub record Scheduler (M : Type 0) : Type 0 where
  pub clock : VirtualClock
  pub heap : List (Event M)
  pub cancelled : List ℕ
  pub next_seq : ℕ

abbrev pub init : {M : Type 0} → VirtualClock → Scheduler M
init c = record { clock = c; heap = []; cancelled = []; next_seq = 0 }

-- `heappush`
pub push : {M : Type 0} → Event M → List (Event M) → List (Event M)
push e [] = e ∷ []
push e (f ∷ h) = let rest = push e h in if comes_first f e then f ∷ rest else e ∷ f ∷ h

-- `none` is the `ValueError` of an event in the past.
unfoldable pub schedule_at :
    {M : Type 0} → ℤ → NodeId → Action M → Scheduler M → Option (ℕ × Scheduler M)
unfolding push
schedule_at time_ms node action s =
    if ltb_ℤ time_ms s.clock.now
    then none
    else some (
      s.next_seq,
      record s {
        next_seq = suc s.next_seq;
        heap =
            push (record { time_ms = time_ms; seq = s.next_seq; node = node; action = action })
              s.heap;
      },
    )

unfoldable pub schedule :
    {M : Type 0} → ℤ → NodeId → Action M → Scheduler M → Option (ℕ × Scheduler M)
unfolding schedule_at
schedule delay_ms node action s =
    if ltb_ℤ delay_ms (pos 0) then none else schedule_at (s.clock.now +ℤ delay_ms) node action s

unfoldable pub cancel : {M : Type 0} → ℕ → Scheduler M → Scheduler M
cancel seq s = record s { cancelled = add ℕ_discrete seq s.cancelled }

-- The loop of `pop`, over the heap. `none` is the `ValueError` of the clock.
unfoldable pub pop_from :
    {M : Type 0} → List (Event M) → List ℕ → Scheduler M → Option (Option (Event M) × Scheduler M)
pop_from [] cancelled s = some (none, record s { heap = []; cancelled = cancelled })
pop_from (e ∷ h) cancelled s =
    let rest = pop_from h (discard ℕ_discrete e.seq cancelled) s in
    if member ℕ_discrete e.seq cancelled then rest else elim (advance_to e.time_ms s.clock) [
      | none ↦ none
      | some c ↦ some (some e, record s { clock = c; heap = h; cancelled = cancelled })
    ]

unfoldable pub pop : {M : Type 0} → Scheduler M → Option (Option (Event M) × Scheduler M)
unfolding pop_from
pop s = pop_from s.heap s.cancelled s

-- The loop of `peek_time`.
unfoldable pub peek_from :
    {M : Type 0} → List (Event M) → List ℕ → Scheduler M → Option ℤ × Scheduler M
peek_from [] cancelled s = (none, record s { heap = []; cancelled = cancelled })
peek_from (e ∷ h) cancelled s =
    let rest = peek_from h (discard ℕ_discrete e.seq cancelled) s in
    if member ℕ_discrete e.seq cancelled
    then rest
    else (some e.time_ms, record s { heap = e ∷ h; cancelled = cancelled })

unfoldable pub peek_time : {M : Type 0} → Scheduler M → Option ℤ × Scheduler M
unfolding peek_from
peek_time s = peek_from s.heap s.cancelled s

abbrev pub pending : {M : Type 0} → Scheduler M → ℕ
pending s = length s.heap

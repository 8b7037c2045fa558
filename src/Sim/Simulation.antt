-- ===== src/Sim/Simulation.antt =====
-- cassette/sim/simulation.py: the engine. Its state holds the bus with the random source and the
-- queue, the nodes, their timers, and who is down or paused; `events` is what the observer was
-- told, with the times, as the recorder keeps it. `none` is an exception.
pub mod Steps
pub mod Valid
pub mod Queueing
pub mod Popping
pub mod Timers
pub mod Calls
pub mod Laws
pub mod Stopping
pub mod Downtime
pub mod Arrivals
pub mod Progress
pub mod Running
pub mod Injury
pub mod Starting
use cassette.Base.{
  ℕ, zero, suc, ◌+◌, ◌-◌, ◌*◌, ◌≤◌, ◌<◌, ◌≡◌, refl, sym, ap, subst, ◌∙◌, ◌≢◌, ◌↔◌, ◌⊎◌, inl, inr,
  ite, dite, if_pos, if_neg, Bool, true, false, not, ◌&&◌, ◌||◌, Option, none, some, List, [], ◌∷◌,
  ◌++◌, map, arith, ltb, leb, ◌==◌, if◌then◌else◌, holds, is_some, Bool-cases, Option-cases,
  if-elim, holds→, ltb→lt, length, get_elem?, set, take, drop, any, all, keep, length-append,
  length-keep-le, length-map, All, All-append, In, In-keep, In_of_keep, keep-ext, all-ext,
  all_of_In, In_of_all, not_of_any, any_of_none, length-keep_mono, length-keep-lt, In-map,
  In_of_map, ℕ_discrete, ℤ, pos, negsuc, ℤ_discrete, pos_part, neg_part, sub_ℕ, ◌+ℤ◌, ◌-ℤ◌, ◌≤ℤ◌,
  ◌<ℤ◌, ltb_ℤ, leb_ℤ, max_ℤ, +ℤ_parts, -ℤ_parts, eq_of_parts, int_laws, range_from, range, Dict,
  lookup, insert, remove, lookup-insert, lookup-remove, length-insert, member, add, discard,
  member-add, member-discard, HasDistinctKeys, insert-HasDistinctKeys, remove-HasDistinctKeys,
  IsDistinct, add-IsDistinct, length-discard-le, length-discard, length-le_of_subset, Text, text,
  text_discrete, leb_text, show_ℕ, show_ℤ, read_ℤ, read_ℤ-show_ℤ, after_colon,
}
use cassette.Kv.Version.{NodeId}
use cassette.Sim.Env.{Effect, send, set_timer, cancel_timer, Nodes}
use cassette.Sim.Events.{
  Action, Event, control, deliver_message, fire_timer, crash_node, restart_node, pause_node,
  resume_node, fault_tick, start_partition, heal_partition,
}
use cassette.Sim.Faults.{FaultConfig}
use cassette.Sim.Network
use cassette.Sim.Network.{World, PartitionGroups, partition_into, heal, can_reach, report_drop}
use cassette.Sim.Rng.{Source, randint}
use cassette.Sim.Scheduler
use cassette.Sim.Scheduler.{Scheduler, schedule_at, schedule, pop, peek_time}

unfoldable pub key_discrete : Discrete (NodeId × Text)
unfolding ℤ_discrete text_discrete
key_discrete = hlevel (ℤ_discrete, text_discrete)

-- What the observer is told.
pub data Note (M : Type 0) : Type 0 where
  bus_note : Network.Note M → Note M
  deliver_note : ℕ → NodeId → NodeId → M → Note M
  pause_note : NodeId → ℤ → Note M
  resume_note : NodeId → Note M
  crash_note : NodeId → Note M
  restart_note : NodeId → Note M

-- `A` is the state behind `on_fault_tick`.
pub record Simulation (R : Source) {M : Type 0} (N : Nodes M) (A : Type 0) : Type 0 where
  pub world : World R M
  pub nodes : N.State
  pub node_ids : List NodeId
  pub timers : Dict (NodeId × Text) ℕ
  pub down : List NodeId
  pub paused_until : Dict NodeId ℤ
  pub skew : Dict NodeId ℤ
  pub adversary : A
  pub events : List (ℤ × Note M)

-- The tags of a node's timers, in order.
unfoldable pub insert_tag : Text → List Text → List Text
insert_tag tag [] = tag ∷ []
insert_tag tag (t ∷ ts) =
    let rest = insert_tag tag ts in if leb_text tag t then tag ∷ t ∷ ts else t ∷ rest

unfoldable pub tags_of : NodeId → Dict (NodeId × Text) ℕ → List Text
unfolding insert_tag
tags_of node_id [] = []
tags_of node_id (((n, tag), seq) ∷ d) =
    let rest = tags_of node_id d in
    if holds (ℤ_discrete n node_id) then insert_tag tag rest else rest

module _ {R : Source} {M : Type 0} {N : Nodes M} {A : Type 0} where
  -- `self.clock.now`
  abbrev pub clock_now : Simulation R N A → ℤ
  clock_now s = s.world.queue.clock.now

  abbrev pub with_queue : Scheduler M → Simulation R N A → Simulation R N A
  with_queue q s = record s { world = record s.world { queue = q } }

  -- `self.observer.record(...)`
  abbrev pub note : Note M → Simulation R N A → Simulation R N A
  note n s = record s { events = s.events ++ (clock_now s, n) ∷ [] }

  unfoldable pub note_all : List (Network.Note M) → Simulation R N A → Simulation R N A
  note_all [] s = s
  note_all (n ∷ ns) s = note_all ns (note (bus_note n) s)

  abbrev pub init : N.State → A → R.State → Scheduler M → Simulation R N A
  init nodes adversary rng queue = record {
    world = record { network = Network.init; rng = rng; queue = queue };
    nodes = nodes;
    node_ids = [];
    timers = [];
    down = [];
    paused_until = [];
    skew = [];
    adversary = adversary;
    events = [];
  }

  unfoldable pub skew_of : Simulation R N A → NodeId → ℤ
  skew_of s node_id = elim (lookup ℤ_discrete node_id s.skew) [ none ↦ pos 0 | some k ↦ k ]

  unfoldable pub now_for : Simulation R N A → NodeId → ℤ
  now_for s node_id = max_ℤ (pos 0) (clock_now s +ℤ skew_of s node_id)

  abbrev pub is_down : Simulation R N A → NodeId → Bool
  is_down s node_id = member ℤ_discrete node_id s.down

  abbrev pub is_paused : Simulation R N A → NodeId → Bool
  is_paused s node_id = is_some (lookup ℤ_discrete node_id s.paused_until)

  abbrev pub is_node : Simulation R N A → NodeId → Bool
  is_node s node_id = member ℤ_discrete node_id s.node_ids

  unfoldable pub drop_timer : NodeId → Text → Simulation R N A → Simulation R N A
  drop_timer node_id tag s = elim (lookup key_discrete (node_id, tag) s.timers) [
    | none ↦ s
    | some pending ↦
        with_queue (Scheduler.cancel pending s.world.queue)
          (record s { timers = remove key_discrete (node_id, tag) s.timers })
  ]

  -- `self._timers[node_id, tag] = seq`, with the queue that gave the number.
  abbrev pub file_timer : NodeId → Text → ℕ → Scheduler M → Simulation R N A → Simulation R N A
  file_timer node_id tag seq q s =
      with_queue q (record s { timers = insert key_discrete (node_id, tag) seq s.timers })

  unfoldable pub arm_timer : NodeId → ℤ → Text → Simulation R N A → Option (Simulation R N A)
  arm_timer node_id delay_ms tag s =
      let s' = drop_timer node_id tag s in
      elim (schedule delay_ms node_id (fire_timer tag) s'.world.queue) [
        | none ↦ none
        | some (seq, q) ↦ some (file_timer node_id tag seq q s')
      ]

  -- Two events of one fault, its start and its end.
  unfoldable pub schedule_both :
      ℤ → NodeId → Action M → ℤ → Action M → Simulation R N A → Option (Simulation R N A)
  schedule_both from node_id first to second s =
      elim (schedule_at from node_id first s.world.queue) [
        | none ↦ none
        | some (n, q) ↦ elim (schedule_at to node_id second q) [
          | none ↦ none
          | some (m, q') ↦ some (with_queue q' s)
        ]
      ]

  abbrev pub start_of : Option ℤ → Simulation R N A → ℤ
  start_of none s = clock_now s
  start_of (some at_ms) s = at_ms

  unfoldable pub schedule_partition :
      PartitionGroups → ℤ → Option ℤ → Simulation R N A → Option (Simulation R N A)
  unfolding schedule_both
  schedule_partition groups duration_ms at_ms s =
      let start = start_of at_ms s in
      schedule_both start control (start_partition groups) (start +ℤ duration_ms) heal_partition s

  unfoldable pub schedule_crash :
      NodeId → ℤ → Option ℤ → Simulation R N A → Option (Simulation R N A)
  unfolding schedule_both
  schedule_crash node_id downtime_ms at_ms s =
      let start = start_of at_ms s in
      schedule_both start node_id crash_node (start +ℤ downtime_ms) restart_node s

  unfoldable pub schedule_pause :
      NodeId → ℤ → Option ℤ → Simulation R N A → Option (Simulation R N A)
  unfolding schedule_both
  schedule_pause node_id duration_ms at_ms s =
      let start = start_of at_ms s in
      schedule_both start node_id (pause_node (start +ℤ duration_ms)) (start +ℤ duration_ms)
        resume_node s

  abbrev pub deadline : Simulation R N A → NodeId → ℤ
  deadline s node_id = elim (lookup ℤ_discrete node_id s.paused_until) [ none ↦ pos 0 | some d ↦ d ]

  unfoldable pub pause : NodeId → ℤ → Simulation R N A → Simulation R N A
  pause node_id until_ms s =
      if not (is_node s node_id) || is_down s node_id
      then s
      else note (pause_note node_id until_ms) (record s {
        paused_until =
            insert ℤ_discrete node_id (max_ℤ (deadline s node_id) until_ms) s.paused_until;
      })

  unfoldable pub resume : NodeId → Simulation R N A → Simulation R N A
  resume node_id s = elim (lookup ℤ_discrete node_id s.paused_until) [
    | none ↦ s
    | some deadline ↦
        if ltb_ℤ (clock_now s) deadline
        then s
        else note (resume_note node_id)
            (record s { paused_until = remove ℤ_discrete node_id s.paused_until })
  ]

  -- The loop of `_crash`.
  unfoldable pub drop_timers : NodeId → List Text → Simulation R N A → Simulation R N A
  drop_timers node_id [] s = s
  drop_timers node_id (tag ∷ tags) s = drop_timers node_id tags (drop_timer node_id tag s)

  -- `_crash` past its guard.
  unfoldable pub fell : NodeId → Simulation R N A → Simulation R N A
  unfolding tags_of drop_timers
  fell node_id s =
      let s' : Simulation R N A = record s {
        down = add ℤ_discrete node_id s.down;
        paused_until = remove ℤ_discrete node_id s.paused_until;
      } in
      let stopped = drop_timers node_id (tags_of node_id s'.timers) s' in
      note (crash_note node_id) (record stopped { nodes = N.on_crash node_id stopped.nodes })

  unfoldable pub crash : NodeId → Simulation R N A → Simulation R N A
  crash node_id s = if not (is_node s node_id) || is_down s node_id then s else fell node_id s

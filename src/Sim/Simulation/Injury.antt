-- ===== src/Sim/Simulation/Injury.antt =====
-- Scheduling a fault on a well-formed engine.
use cassette.Base.{
  ◌≤◌, ◌≡◌, refl, sym, subst, ◌∙◌, inl, inr, true, Option, none, some, arith, length, ℤ, pos, ◌+ℤ◌,
  ◌≤ℤ◌, +ℤ_parts,
}
use cassette.Kv.Version.{NodeId}
use cassette.Sim.Env.{Nodes}
use cassette.Sim.Events.{
  Action, Event, comes_first, control, crash_node, restart_node, pause_node, resume_node,
  start_partition, heal_partition,
}
use cassette.Sim.Network.{PartitionGroups}
use cassette.Sim.Rng.{Source}
use cassette.Sim.Scheduler.Order.{In-push_new}
use cassette.Sim.Simulation.{
  Simulation, clock_now, with_queue, schedule_partition, schedule_crash, schedule_pause,
  schedule_both,
}
use cassette.Sim.Simulation.Laws.{IsTicked}
use cassette.Sim.Simulation.Queueing.{
  grown-IsWell, new_event, queued, queued_both, queued_both-HasGrown, schedule_at-queued,
}
use cassette.Sim.Simulation.Valid.{Backed, Nothing, IsValid}

module _ {R : Source} {M : Type 0} {N : Nodes M} {A : Type 0} (Ready : A → Type 0) where
  -- What scheduling a fault comes to.
  abbrev pub IsScheduled : Simulation R N A → Option (Simulation R N A) → Type 0
  IsScheduled s out =
      (later : Simulation R N A) × (out ≡ some later)
      × IsTicked Ready s later
      × (later.adversary ≡ s.adversary)
      × (later.world.network ≡ s.world.network)

  queued_both-IsTicked :
      (node : NodeId) (first : Action M) (to : ℤ) (second : Action M) (s : Simulation R N A)
      → let q = s.world.queue in
        let q' = queued_both (clock_now s) node first to second q in
        clock_now s ≤ℤ to
        → Backed s.timers q' (new_event (clock_now s) node first q) first
        → Backed s.timers q' (new_event to node second (queued (clock_now s) node first q)) second
        → IsValid s
        → Ready s.adversary
        → IsTicked Ready s (with_queue q' s)
  queued_both-IsTicked node first to second s later one two v ready =
      let q = s.world.queue in
      let q' = queued_both (clock_now s) node first to second q in
      record {
        valid =
            grown-IsWell _ Nothing s q'
              (queued_both-HasGrown (clock_now s) node first to second q (omega arith) later
                v.sound.queue)
              (λ e new. elim new [
                | inl p ↦ subst (λ (x : Event M). Backed s.timers q' x x.action) (sym p) one
                | inr p ↦ subst (λ (x : Event M). Backed s.timers q' x x.action) (sym p) two
              ])
              v;
        after = record { clock = refl; node_ids = refl };
        nodes = refl;
        timers = refl;
        ready = ready;
      }

  schedule_both-queued :
      (node : NodeId) (first : Action M) (to : ℤ) (second : Action M) (s : Simulation R N A)
      → clock_now s ≤ℤ to
      → schedule_both (clock_now s) node first to second s
        ≡ some (with_queue (queued_both (clock_now s) node first to second s.world.queue) s)
  unfolding schedule_both
  schedule_both-queued node first to second s later =
      let q = s.world.queue in
      let mid = queued (clock_now s) node first q in
      rw (schedule_at-queued (clock_now s) node first q (omega arith), schedule_both)
        (rw (schedule_at-queued to node second mid later) refl)

  -- The end of a fault is behind its start.
  end_behind :
      (node : NodeId) (first : Action M) (to : ℤ) (second : Action M) (s : Simulation R N A)
      → clock_now s ≤ℤ to
      → let q = s.world.queue in
        let mid = queued (clock_now s) node first q in
        comes_first (new_event (clock_now s) node first q) (new_event to node second mid) ≡ true
  unfolding comes_first
  end_behind node first to second s later = ground arith

  ends_later : (s : Simulation R N A) (d : ℤ) → pos 0 ≤ℤ d → clock_now s ≤ℤ clock_now s +ℤ d
  ends_later s d h = omega (arith, +ℤ_parts (clock_now s) d, h)

  pub schedule_crash_lem :
      (node : NodeId) (d : ℤ) (s : Simulation R N A)
      → pos 0 ≤ℤ d
      → IsValid s
      → Ready s.adversary
      → IsScheduled s (schedule_crash node d none s)
  unfolding schedule_crash
  schedule_crash_lem node d s h v ready =
      let q = s.world.queue in
      let to = clock_now s +ℤ d in
      let mid = queued (clock_now s) node crash_node q in
      let later = ends_later s d h in
      (
        with_queue (queued_both (clock_now s) node crash_node to restart_node q) s,
        schedule_both-queued node crash_node to restart_node s later,
        queued_both-IsTicked node crash_node to restart_node s later
            (
              new_event to node restart_node mid,
              (
                In-push_new (new_event to node restart_node mid) mid.heap,
                refl,
                refl,
                end_behind node crash_node to restart_node s later,
              ),
            )
            tt v ready,
        refl,
        refl,
      )

  pub schedule_pause_lem :
      (node : NodeId) (d : ℤ) (s : Simulation R N A)
      → pos 0 ≤ℤ d
      → IsValid s
      → Ready s.adversary
      → IsScheduled s (schedule_pause node d none s)
  unfolding schedule_pause
  schedule_pause_lem node d s h v ready =
      let q = s.world.queue in
      let to = clock_now s +ℤ d in
      let mid = queued (clock_now s) node (pause_node to) q in
      let later = ends_later s d h in
      (
        with_queue (queued_both (clock_now s) node (pause_node to) to resume_node q) s,
        schedule_both-queued node (pause_node to) to resume_node s later,
        queued_both-IsTicked node (pause_node to) to resume_node s later
            (
              new_event to node resume_node mid,
              refl,
              (
                In-push_new (new_event to node resume_node mid) mid.heap,
                refl,
                refl,
                end_behind node (pause_node to) to resume_node s later,
              ),
            )
            tt v ready,
        refl,
        refl,
      )

  pub schedule_partition_lem :
      (groups : PartitionGroups) (d : ℤ) (s : Simulation R N A)
      → 2 ≤ length groups
      → pos 0 ≤ℤ d
      → IsValid s
      → Ready s.adversary
      → IsScheduled s (schedule_partition groups d none s)
  unfolding schedule_partition
  schedule_partition_lem groups d s enough h v ready =
      let q = s.world.queue in
      let to = clock_now s +ℤ d in
      let mid = queued (clock_now s) control (start_partition groups) q in
      let later = ends_later s d h in
      (
        with_queue (queued_both (clock_now s) control (start_partition groups) to heal_partition q)
            s,
        schedule_both-queued control (start_partition groups) to heal_partition s later,
        queued_both-IsTicked control (start_partition groups) to heal_partition s later enough tt v
            ready,
        refl,
        refl,
      )

  pub IsTicked-trans :
      (s mid later : Simulation R N A)
      → IsTicked Ready s mid
      → IsTicked Ready mid later
      → IsTicked Ready s later
  IsTicked-trans s mid later p q = record {
    valid = q.valid;
    after = record {
      clock = q.after.clock ∙ p.after.clock;
      node_ids = q.after.node_ids ∙ p.after.node_ids;
    };
    nodes = q.nodes ∙ p.nodes;
    timers = q.timers ∙ p.timers;
    ready = q.ready;
  }

  pub IsTicked-refl : (s : Simulation R N A) → IsValid s → Ready s.adversary → IsTicked Ready s s
  IsTicked-refl s v ready = record {
    valid = v;
    after = record { clock = refl; node_ids = refl };
    nodes = refl;
    timers = refl;
    ready = ready;
  }

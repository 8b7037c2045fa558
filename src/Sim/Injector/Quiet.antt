-- ===== src/Sim/Injector/Quiet.antt =====
-- The budget without faults of cassette/sim/faults.py, under the bus and under the adversary.
use cassette.Base.{◌≡◌, refl, Bool, false, none, some, List, arith, ◌+ℤ◌}
use cassette.Kv.Version.{NodeId}
use cassette.Sim.Env.{Nodes}
use cassette.Sim.Faults.{
  FaultConfig, post_init, without_faults, latency_of_accepted, ranges_of_accepted,
}
use cassette.Sim.Injector.{
  FaultInjector, with_rng, arm_tick, roll_partition, roll_crash, roll_pause, tick,
}
use cassette.Sim.Network.{World, Note, send}
use cassette.Sim.Network.Delivery.{HasQueued, sent, thrown, send_lem}
use cassette.Sim.Rng.{Source, chance}
use cassette.Sim.Rng.Draws.{IsUnit}
use cassette.Sim.Scheduler.Order
use cassette.Sim.Simulation.{Simulation, clock_now, with_queue}
use cassette.Sim.Simulation.Queueing.{queued}
use cassette.Sim.Events.{control, fault_tick}
use cassette.Sim.Scheduler.Order.{schedule_lem}

-- A tick that does nothing but draw and queue the next tick.
pub record IsQuiet {R : Source} {M : Type 0} {N : Nodes M} (c : FaultConfig R.Float)
    (s later : Simulation R N (FaultInjector R)) : Type 0 where
  pub decisions : later.adversary.decisions ≡ s.adversary.decisions
  pub nodes : later.nodes ≡ s.nodes
  pub timers : later.timers ≡ s.timers
  pub network : later.world.network ≡ s.world.network
  pub down : later.down ≡ s.down
  pub paused : later.paused_until ≡ s.paused_until
  pub clock : clock_now later ≡ clock_now s
  pub queue : later.world.queue ≡ queued (clock_now s +ℤ c.tick_ms) control fault_tick s.world.queue

-- `nought` is 0.0: no draw is less.
module _ {R : Source} (is_rate : R.Float → Bool) (nought : R.Float)
    (never : (g : R.State) → R.less (R.random g).0 nought ≡ false) (c : FaultConfig R.Float)
    (accepted : post_init is_rate c ≡ none) where
  sent-without_faults : {M : Type 0} (w : World R M) → sent R (without_faults nought c) w ≡ 1
  unfolding without_faults
  sent-without_faults w = rw (never w.rng) (rw (never (R.random w.rng).1) refl)

  -- Under the budget without faults of an accepted budget, where no draw is less than 0.0 and the
  -- draws lie in [0, 1), the bus loses and doubles nothing: `send` on a valid queue does not raise
  -- and queues just one copy, for the recipient, within the latency window of the budget.
  pub send-without_faults :
      {M : Type 0}
      → IsUnit R
      → (sender recipient : NodeId) (msg : M) (w : World R M) → Order.IsValid w.queue
      → (later : World R M) × (notes : List (Note M)) × (send R
            (without_faults nought c)
            sender
            recipient
            msg
            w
          ≡ some (w.network.next_msg_id, later, notes))
        × HasQueued R c sender recipient msg w.network.next_msg_id 1 (thrown R w) later
  unfolding without_faults
  send-without_faults unit sender recipient msg w v =
      let (later, notes, e, q) =
        send_lem R unit (without_faults nought c) (latency_of_accepted is_rate c accepted) sender
          recipient msg w v in
      let one = sent-without_faults w in
      (
        later,
        notes,
        e,
        record {
          valid = q.valid;
          clock = q.clock;
          cancelled = q.cancelled;
          network = q.network;
          drawn = rw one at q.drawn;
          grown = omega (arith, q.grown, one);
          numbering = q.numbering;
          stays = q.stays;
          added = q.added;
        },
      )

  -- No die hits.
  module _ {M : Type 0} {N : Nodes M} (replicas : List NodeId)
      (s : Simulation R N (FaultInjector R)) where
    no_partition :
        roll_partition {R = R} (without_faults nought c) replicas s
        ≡ some (with_rng {R = R} (R.random s.adversary.rng).1 s)
    unfolding roll_partition chance without_faults
    no_partition = rw (never s.adversary.rng) refl

    no_crash :
        roll_crash {R = R} (without_faults nought c) replicas s
        ≡ some (with_rng {R = R} (R.random s.adversary.rng).1 s)
    unfolding roll_crash chance without_faults
    no_crash = rw (never s.adversary.rng) refl

    no_pause :
        roll_pause {R = R} (without_faults nought c) replicas s
        ≡ some (with_rng {R = R} (R.random s.adversary.rng).1 s)
    unfolding roll_pause chance without_faults
    no_pause = rw (never s.adversary.rng) refl

  arm_quiet :
      {M : Type 0} {N : Nodes M} (s : Simulation R N (FaultInjector R))
      → arm_tick {R = R} (without_faults nought c) s
        ≡ some (with_queue (queued (clock_now s +ℤ c.tick_ms) control fault_tick s.world.queue) s)
  unfolding arm_tick without_faults
  arm_quiet s =
      let (partitions, crashes, pauses, skew, ticking) = ranges_of_accepted is_rate c accepted in
      rw
        (schedule_lem c.tick_ms control fault_tick s.world.queue (omega (arith, ticking)), arm_tick)
        refl

  -- Under the budget without faults of an accepted budget, where no draw is less than 0.0, a tick
  -- of the dice does not raise and injects nothing: it decides nothing, the nodes, the timers, the
  -- network and who is down or paused stay, and all that is queued is the next tick.
  pub tick-without_faults :
      {M : Type 0} {N : Nodes M} (replicas : List NodeId) (s : Simulation R N (FaultInjector R))
      → (later : Simulation R N (FaultInjector R)) × (tick {R = R}
            (without_faults nought c)
            replicas
            s
          ≡ some later)
        × IsQuiet {R = R} c s later
  unfolding tick
  tick-without_faults replicas s =
      let s₁ = with_rng {R = R} (R.random s.adversary.rng).1 s in
      let s₂ = with_rng {R = R} (R.random s₁.adversary.rng).1 s₁ in
      let s₃ = with_rng {R = R} (R.random s₂.adversary.rng).1 s₂ in
      (
        with_queue (queued (clock_now s +ℤ c.tick_ms) control fault_tick s.world.queue) s₃,
        rw (no_partition replicas s, tick)
            (rw (no_crash replicas s₁) (rw (no_pause replicas s₂) (arm_quiet s₃))),
        record {
          decisions = refl;
          nodes = refl;
          timers = refl;
          network = refl;
          down = refl;
          paused = refl;
          clock = refl;
          queue = refl;
        },
      )

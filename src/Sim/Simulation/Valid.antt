-- ===== src/Sim/Simulation/Valid.antt =====
-- The well-formedness of the engine's state: the queue, and what it owes to the timers, to the
-- nodes that are down and to those that are paused.
use cassette.Base.{
  ℕ, ◌≤◌, ◌<◌, ◌≡◌, ◌⊎◌, Bool, true, false, none, some, length, In, ℕ_discrete, ℤ, pos, ℤ_discrete,
  ◌≤ℤ◌, Dict, lookup, member, Text,
}
use cassette.Kv.Version.{NodeId}
use cassette.Sim.Env.{Nodes}
use cassette.Sim.Events.{
  Action, Event, comes_first, deliver_message, fire_timer, crash_node, restart_node, pause_node,
  resume_node, fault_tick, start_partition, heal_partition,
}
use cassette.Sim.Rng.{Source}
use cassette.Sim.Scheduler.{Scheduler}
use cassette.Sim.Scheduler.Order
use cassette.Sim.Scheduler.Order.{IsOrdered}
use cassette.Sim.Simulation.{key_discrete, Simulation}

abbrev pub is_timer : {M : Type 0} → Action M → Bool
is_timer (deliver_message sender msg msg_id) = false
is_timer (fire_timer tag) = true
is_timer crash_node = false
is_timer restart_node = false
is_timer (pause_node until_ms) = false
is_timer resume_node = false
is_timer fault_tick = false
is_timer (start_partition groups) = false
is_timer heal_partition = false

module _ {M : Type 0} where
  abbrev pub IsCancelled : Scheduler M → ℕ → Type 0
  IsCancelled q seq = member ℕ_discrete seq q.cancelled ≡ true

  abbrev pub IsLive : Scheduler M → ℕ → Type 0
  IsLive q seq = member ℕ_discrete seq q.cancelled ≡ false

  -- An event of this action for the node of `e`, behind `e`.
  abbrev pub Follows : Scheduler M → Event M → Action M → Event M → Type 0
  Follows q e action f =
      In f q.heap × (f.node ≡ e.node) × (f.action ≡ action) × (comes_first e f ≡ true)

  -- What an event of the queue stands on: a live timer is filed, a fault has its end behind it,
  -- and a partition has its groups.
  abbrev pub Backed : Dict (NodeId × Text) ℕ → Scheduler M → Event M → Action M → Type 0
  Backed timers q e (deliver_message sender msg msg_id) = Unit
  Backed timers q e (fire_timer tag) =
      IsLive q e.seq → lookup key_discrete (e.node, tag) timers ≡ some e.seq
  Backed timers q e crash_node = (f : Event M) × Follows q e restart_node f
  Backed timers q e restart_node = Unit
  Backed timers q e (pause_node until_ms) =
      (f : Event M) × (f.time_ms ≡ until_ms) × Follows q e resume_node f
  Backed timers q e resume_node = Unit
  Backed timers q e fault_tick = Unit
  Backed timers q e (start_partition groups) = 2 ≤ length groups
  Backed timers q e heal_partition = Unit

  pub record IsSound (timers : Dict (NodeId × Text) ℕ) (q : Scheduler M) : Type 0 where
    pub queue : Order.IsValid q
    pub started : pos 0 ≤ℤ q.clock.now
    pub counted : (seq : ℕ) → IsCancelled q seq → seq < q.next_seq
    pub spent : (e : Event M) → In e q.heap → IsCancelled q e.seq → is_timer e.action ≡ true
    pub backed : (e : Event M) → In e q.heap → Backed timers q e e.action

  -- An event of the queue, or the one in hand.
  abbrev pub There : (Event M → Type 0) → Scheduler M → NodeId → Action M → Event M → Type 0
  There held q node action f = ((In f q.heap) ⊎ held f) × (f.node ≡ node) × (f.action ≡ action)

  abbrev pub Nothing : Event M → Type 0
  Nothing f = ⊥

module _ {R : Source} {M : Type 0} {N : Nodes M} {A : Type 0} where
  -- Every filed timer is live in the queue, and is one of a node that is up; a node that is down
  -- is not paused, and has a restart ahead; a paused node has its resumption ahead at the deadline.
  pub record IsWell (held : Event M → Type 0) (s : Simulation R N A) : Type 0 where
    pub sound : IsSound s.timers s.world.queue
    pub pending :
        (node : NodeId) (tag : Text) (seq : ℕ)
        → lookup key_discrete (node, tag) s.timers ≡ some seq
        → IsLive s.world.queue seq
          × ((f : Event M) × (f.seq ≡ seq) × There held s.world.queue node (fire_timer tag) f)
    pub manned :
        (node : NodeId) (tag : Text) (seq : ℕ)
        → lookup key_discrete (node, tag) s.timers ≡ some seq
        → (member ℤ_discrete node s.node_ids ≡ true) × (member ℤ_discrete node s.down ≡ false)
    pub fallen :
        (node : NodeId)
        → member ℤ_discrete node s.down ≡ true
        → (member ℤ_discrete node s.node_ids ≡ true)
          × (lookup ℤ_discrete node s.paused_until ≡ none)
          × ((f : Event M) × There held s.world.queue node restart_node f)
    pub frozen :
        (node : NodeId) (until_ms : ℤ)
        → lookup ℤ_discrete node s.paused_until ≡ some until_ms
        → (member ℤ_discrete node s.node_ids ≡ true)
          × ((f : Event M) × (f.time_ms ≡ until_ms) × There held s.world.queue node resume_node f)

  abbrev pub IsValid : Simulation R N A → Type 0
  IsValid s = IsWell Nothing s

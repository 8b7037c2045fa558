-- ===== src/Sim/Events.antt =====
-- cassette/sim/events.py: what the scheduler can deliver. The payload of a message is the type
-- `M`, for the simulator knows nothing of the store on top of it.
use cassette.Base.{ℕ, Bool, true, false, List, ltb, if◌then◌else◌, ℤ, negsuc, ltb_ℤ, Text}
use cassette.Kv.Version.{NodeId}

pub data Action (M : Type 0) : Type 0 where
  deliver_message : NodeId → M → ℕ → Action M
  fire_timer : Text → Action M
  crash_node : Action M
  restart_node : Action M
  pause_node : ℤ → Action M
  resume_node : Action M
  fault_tick : Action M
  start_partition : List (List NodeId) → Action M
  heal_partition : Action M

-- `CONTROL`, the node that owns the fault events.
abbrev pub control : NodeId
control = negsuc 0

pub record Event (M : Type 0) : Type 0 where
  pub time_ms : ℤ
  pub seq : ℕ
  pub node : NodeId
  pub action : Action M

-- The order of the queue's entries `(time_ms, seq, event)`, whose sequence numbers differ.
unfoldable pub comes_first : {M : Type 0} → Event M → Event M → Bool
comes_first a b =
    if ltb_ℤ a.time_ms b.time_ms
    then true
    else if ltb_ℤ b.time_ms a.time_ms
    then false
    else ltb a.seq b.seq

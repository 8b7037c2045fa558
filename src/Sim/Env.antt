-- ===== src/Sim/Env.antt =====
-- cassette/sim/env.py: what a node may ask of its environment, and what the simulator expects of
-- the nodes. A handler returns the nodes' new state and its calls in order, for no handler reads
-- anything back from them; `none` is an exception that it raises.
use cassette.Base.{Option, List, ℤ, Text}
use cassette.Kv.Version.{NodeId}

-- The calls of `Env` that change something.
pub data Effect (M : Type 0) : Type 0 where
  send : NodeId → M → Effect M
  set_timer : ℤ → Text → Effect M
  cancel_timer : Text → Effect M

-- `Node`, for all registered nodes at once: they may share state, as the clients do. The first
-- argument is the node, the second the time that it reads.
pub record Nodes (M : Type 0) : Type 1 where
  pub State : Type 0
  pub on_message : NodeId → ℤ → NodeId → M → State → Option (State × List (Effect M))
  pub on_timer : NodeId → ℤ → Text → State → Option (State × List (Effect M))
  pub on_crash : NodeId → State → State
  pub on_restart : NodeId → ℤ → State → Option (State × List (Effect M))

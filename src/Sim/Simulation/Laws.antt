-- ===== src/Sim/Simulation/Laws.antt =====
-- What the engine asks of the nodes and of what drives it: an invariant of their state, which
-- knows the armed timers, with handlers that never raise.
use cassette.Base.{
  ◌≡◌, sym, subst, ite, Bool, true, false, Option, none, some, List, All, ℤ, pos, ℤ_discrete, ◌≤ℤ◌,
  member, Text,
}
use cassette.Kv.Version.{NodeId}
use cassette.Sim.Env.{Effect, Nodes}
use cassette.Sim.Faults.{FaultConfig}
use cassette.Sim.Rng.{Source}
use cassette.Sim.Rng.Draws.{IsUnit}
use cassette.Sim.Simulation.{Note, Simulation, clock_now}
use cassette.Sim.Simulation.Calls.{after_calls, IsPatient, rest-IsWell, perform_all_lem}
use cassette.Sim.Simulation.Steps.{handle}
use cassette.Sim.Simulation.Timers.{armed, disarm}
use cassette.Sim.Simulation.Valid.{Nothing, IsValid}

abbrev pub Armed : Type 0
Armed = NodeId → Text → Bool

-- The armed timers when all of a node are gone.
abbrev pub silence : NodeId → Armed → Armed
silence node on n t = ite (ℤ_discrete node n) false (on n t)

-- A handler returns, sets no timer for the past, and keeps the invariant.
abbrev pub Handles :
    {M S : Type 0} → (Armed → S → Type 0) → NodeId → Armed → Option (S × List (Effect M)) → Type 0
Handles {M = M} {S = S} Inv node on out =
    (later : S) × (calls : List (Effect M)) × (out ≡ some (later, calls))
    × All IsPatient calls
    × Inv (after_calls node calls on) later

pub record Laws {M : Type 0} (N : Nodes M) (Inv : Armed → N.State → Type 0) : Type 0 where
  pub messages :
      (on : Armed) (node sender : NodeId) (now : ℤ) (msg : M) (s : N.State)
      → Inv on s
      → Handles Inv node on (N.on_message node now sender msg s)
  pub timers :
      (on : Armed) (node : NodeId) (now : ℤ) (tag : Text) (s : N.State)
      → on node tag ≡ true
      → Inv on s
      → Handles Inv node (disarm node tag on) (N.on_timer node now tag s)
  pub crashes :
      (on : Armed) (node : NodeId) (s : N.State)
      → Inv on s
      → Inv (silence node on) (N.on_crash node s)
  pub restarts :
      (on : Armed) (node : NodeId) (now : ℤ) (s : N.State)
      → Inv on s
      → Handles Inv node on (N.on_restart node now s)

module _ {R : Source} {M : Type 0} {N : Nodes M} {A : Type 0} where
  -- A well-formed engine under nodes and a driver that keep their invariants.
  pub record IsRunning (Inv : Armed → N.State → Type 0) (Ready : A → Type 0) (s : Simulation R N A)
      : Type 0 where
    pub valid : IsValid s
    pub inv : Inv (armed s) s.nodes
    pub ready : Ready s.adversary

  -- What a step leaves alone.
  pub record IsAfter (s later : Simulation R N A) : Type 0 where
    pub clock : clock_now later ≡ clock_now s
    pub node_ids : later.node_ids ≡ s.node_ids

  -- The driver returns, touches neither the nodes nor their timers, and keeps its invariant.
  pub record IsTicked (Ready : A → Type 0) (s later : Simulation R N A) : Type 0 where
    pub valid : IsValid later
    pub after : IsAfter s later
    pub nodes : later.nodes ≡ s.nodes
    pub timers : armed later ≡ armed s
    pub ready : Ready later.adversary

  abbrev pub Ticks : (A → Type 0) → Option (Simulation R N A → Option (Simulation R N A)) → Type 0
  Ticks Ready none = Unit
  Ticks Ready (some tick) =
      (s : Simulation R N A)
      → IsValid s
      → Ready s.adversary
      → (later : Simulation R N A) × (tick s ≡ some later) × IsTicked Ready s later

  -- What an operation comes to: it returns, and the engine goes on.
  abbrev pub GoesOn :
      (Armed → N.State → Type 0)
      → (A → Type 0)
      → Simulation R N A
      → Option (Simulation R N A)
      → Type 0
  GoesOn Inv Ready s out =
      (later : Simulation R N A) × (out ≡ some later) × IsRunning Inv Ready later × IsAfter s later

  module _ (Inv : Armed → N.State → Type 0) (Ready : A → Type 0) where
    -- The engine with other notes.
    pub noted-IsRunning :
        (s : Simulation R N A) (events : List (ℤ × Note M))
        → IsRunning Inv Ready s
        → IsRunning Inv Ready (record s { events = events })
    noted-IsRunning s events r = record {
      valid = rest-IsWell Nothing s s.world s.nodes s.skew s.adversary events r.valid;
      inv = r.inv;
      ready = r.ready;
    }

    pub handle_lem :
        IsUnit R
        → (config : FaultConfig R.Float)
        → (pos 0 ≤ℤ config.latency_ms.0) × (config.latency_ms.0 ≤ℤ config.latency_ms.1)
        → (node : NodeId) (out : Option (N.State × List (Effect M))) (s : Simulation R N A)
        → member ℤ_discrete node s.node_ids ≡ true
        → member ℤ_discrete node s.down ≡ false
        → IsValid s
        → Ready s.adversary
        → Handles Inv node (armed s) out
        → GoesOn Inv Ready s (handle config node out s)
    unfolding handle
    handle_lem unit config window node out s known up v ready h =
        let (nodes, calls, e, patient, inv) = h in
        let s' : Simulation R N A = record s { nodes = nodes } in
        let (later, f, d) =
          perform_all_lem unit config window node calls s' patient known up
            (rest-IsWell Nothing s s.world nodes s.skew s.adversary s.events v) in
        (
          later,
          rw (e, handle) f,
          record {
            valid = d.valid;
            inv = subst (λ on. Inv on later.nodes) (sym d.timers) (rw d.kept.nodes inv);
            ready = rw d.kept.adversary ready;
          },
          record { clock = d.kept.clock; node_ids = d.kept.node_ids },
        )

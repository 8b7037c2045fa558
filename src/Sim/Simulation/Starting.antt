-- ===== src/Sim/Simulation/Starting.antt =====
-- The empty engine, and the registration of nodes.
use cassette.Base.{
  ◌≡◌, refl, ◌≢◌, Bool, true, false, ◌||◌, some, List, [], ◌∷◌, ◌++◌, arith, if◌then◌else◌, holds,
  pos, ℤ_discrete, ◌-ℤ◌, ◌≤ℤ◌, -ℤ_parts, lookup, insert, member,
}
use cassette.Kv.Version.{NodeId}
use cassette.Sim.Env.{Nodes}
use cassette.Sim.Events.{control}
use cassette.Sim.Faults.{FaultConfig}
use cassette.Sim.Rng.{Source}
use cassette.Sim.Rng.Draws.{IsUnit, randint_bounds, draws}
use cassette.Sim.Scheduler
use cassette.Sim.Simulation
use cassette.Sim.Simulation.{key_discrete, Simulation, clock_now, is_node}
use cassette.Sim.Simulation.Laws.{Armed, IsRunning}
use cassette.Sim.Simulation.Steps.{add_node}
use cassette.Sim.Simulation.Timers.{armed}

pub member-append :
    (n : NodeId) (xs ys : List NodeId)
    → member ℤ_discrete n (xs ++ ys) ≡ member ℤ_discrete n xs || member ℤ_discrete n ys
unfolding member
member-append n [] ys = refl
member-append n (x ∷ xs) ys = ground (arith, member-append n xs ys)

module _ {R : Source} {M : Type 0} {N : Nodes M} {A : Type 0} (Inv : Armed → N.State → Type 0)
    (Ready : A → Type 0) where
  pub init-IsRunning :
      (nodes : N.State) (adversary : A) (rng : R.State)
      → Inv (λ n t. false) nodes
      → Ready adversary
      → let s : Simulation R N A =
          Simulation.init nodes adversary rng (Scheduler.init (record { now = pos 0 })) in
        IsRunning Inv Ready s
  unfolding lookup member
  init-IsRunning nodes adversary rng inv ready = record {
    valid = record {
      sound = record {
        queue = record { ordered = tt; ahead = λ f i. absurd i; numbered = λ f i. absurd i };
        started = omega arith;
        counted = λ seq c. absurd (ground arith);
        spent = λ e i c. absurd i;
        backed = λ e i. absurd i;
      };
      pending = λ n t seq p. absurd (ground arith);
      manned = λ n t seq p. absurd (ground arith);
      fallen = λ n p. absurd (ground arith);
      frozen = λ n u p. absurd (ground arith);
    };
    inv = inv;
    ready = ready;
  }

  -- What the registration of nodes comes to.
  pub record IsJoined (ids : List NodeId) (s later : Simulation R N A) : Type 0 where
    pub running : IsRunning Inv Ready later
    pub node_ids : later.node_ids ≡ s.node_ids ++ ids
    pub clock : clock_now later ≡ clock_now s
    pub nodes : later.nodes ≡ s.nodes
    pub timers : armed later ≡ armed s
    pub down : later.down ≡ s.down

  -- A new id, which is not the one of the fault events, is registered without an exception.
  pub add_node_lem :
      IsUnit R
      → (config : FaultConfig R.Float) → pos 0 ≤ℤ config.clock_skew_ms
      → (n : NodeId) (skewed : Bool) (s : Simulation R N A) → n ≢ control
      → is_node s n ≡ false
      → IsRunning Inv Ready s
      → (later : Simulation R N A) × (add_node config n skewed s ≡ some later)
        × IsJoined (n ∷ []) s later
  unfolding add_node
  add_node_lem unit config skew n skewed s usual new r =
      let (drawn, e, from, to) =
        randint_bounds R unit (pos 0 -ℤ config.clock_skew_ms) config.clock_skew_ms s.world.rng
          (omega (arith, -ℤ_parts (pos 0) config.clock_skew_ms, skew)) in
      let no_control : holds (ℤ_discrete n control) ≡ false = ground arith in
      let known : (m : NodeId)
          → member ℤ_discrete m s.node_ids ≡ true
          → member ℤ_discrete m (s.node_ids ++ n ∷ []) ≡ true =
        λ m p. ground (arith, member-append m s.node_ids (n ∷ [])) in
      (
        record s {
          world = record s.world { rng = draws R 1 s.world.rng };
          node_ids = s.node_ids ++ n ∷ [];
          skew = insert ℤ_discrete n (if skewed then drawn else pos 0) s.skew;
        },
        rw (no_control, new, add_node) (rw e refl),
        record {
          running = record {
            valid = record {
              sound = r.valid.sound;
              pending = r.valid.pending;
              manned = λ m t seq p. let (a, b) = r.valid.manned m t seq p in (known m a, b);
              fallen = λ m p. let (a, b, c) = r.valid.fallen m p in (known m a, b, c);
              frozen = λ m u p. let (a, b) = r.valid.frozen m u p in (known m a, b);
            };
            inv = r.inv;
            ready = r.ready;
          };
          node_ids = refl;
          clock = refl;
          nodes = refl;
          timers = refl;
          down = refl;
        },
      )

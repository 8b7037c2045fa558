-- ===== src/Runner/Executed.antt =====
-- The run of a scenario, from the wiring to the verdict.
use cassette.Base.{
  ℕ, zero, suc, ◌≤◌, ◌<◌, ◌≡◌, refl, sym, ap, subst, ◌∙◌, inl, inr, Bool, true, false, Option, none,
  some, [], ◌∷◌, ◌++◌, arith, if◌then◌else◌, Bool-cases, Option-cases, length, All, ℤ, pos,
  ℤ_discrete, pos_part, ◌+ℤ◌, ◌≤ℤ◌, ◌<ℤ◌, ltb_ℤ, +ℤ_parts, eq_of_parts, range_from, Dict, member,
}
use cassette.Kv.Version.{NodeId}
use cassette.Kv.Config.{StoreConfig, replica_ids, post_init}
use cassette.Kv.Client.{Client}
use cassette.Runner.{
  Cluster, cluster, add_all, start_all, launch, conduct, clients_of, replicas_of, all_finished,
}
use cassette.Runner.Conducted.{IsBelow, CanStart, add_all_lem, start_all_lem}
use cassette.Runner.Invariant.{IsCluster, cluster-Laws}
use cassette.Runner.Wiring.{
  IsPlan, IsWired, All-fresh, clients_of_lem, wired-IsCluster, no_replica_above,
}
use cassette.Scenario.{Scenario, client_ids}
use cassette.Sim.Events.{control, fault_tick}
use cassette.Sim.Faults.{FaultConfig}
use cassette.Sim.Injector.{arm_tick}
use cassette.Sim.Injector.Ticking.{arm_tick_lem}
use cassette.Sim.Rng.{Source}
use cassette.Sim.Rng.Draws.{IsUnit}
use cassette.Sim.Scheduler
use cassette.Sim.Scheduler.{schedule}
use cassette.Sim.Simulation
use cassette.Sim.Simulation.{Simulation, clock_now, with_queue}
use cassette.Sim.Simulation.Laws.{IsRunning, Ticks}
use cassette.Sim.Simulation.Running.{HasReason, run_lem}
use cassette.Sim.Simulation.Starting.{init-IsRunning, member-append}
use cassette.Sim.Simulation.Steps.{run}
use cassette.Sim.Simulation.Timers.{armed}

-- A budget as the engine needs it.
pub record IsBudget {F : Type 0} (c : FaultConfig F) : Type 0 where
  pub window : (pos 0 ≤ℤ c.latency_ms.0) × (c.latency_ms.0 ≤ℤ c.latency_ms.1)
  pub skew : pos 0 ≤ℤ c.clock_skew_ms
  pub tick : pos 0 <ℤ c.tick_ms

member_of_range :
    (a : ℤ) (k : ℕ) (n : NodeId)
    → a ≤ℤ n
    → n <ℤ a +ℤ pos k
    → member ℤ_discrete n (range_from a k) ≡ true
unfolding member
member_of_range a zero n from to = absurd (omega (arith, from, to, +ℤ_parts a (pos 0)))
member_of_range a (suc k) n from to = elim (ℤ_discrete a n) [
  | yes same ↦ ground arith
  | no differ ↦
      let one = +ℤ_parts a (pos 1) in
      let less : a +ℤ pos 1 ≤ℤ n = elim (Bool-cases (ltb_ℤ n (a +ℤ pos 1))) [
        | inl t ↦ absurd (differ (eq_of_parts a n (ground (arith, t, from, one))))
        | inr f ↦ ground (arith, f)
      ] in
      let rest =
        member_of_range (a +ℤ pos 1) k n less
          (omega (arith, to, one, +ℤ_parts (a +ℤ pos 1) (pos k), +ℤ_parts a (pos (suc k)))) in
      ground arith
]

replicas_of_accepted :
    (c : StoreConfig)
    → post_init c ≡ none
    → (pos 1 ≤ℤ c.replicas) × (c.replicas ≡ pos (pos_part c.replicas))
unfolding post_init
replicas_of_accepted c h =
    let some_there : pos 1 ≤ℤ c.replicas = ground arith in
    (some_there, eq_of_parts c.replicas (pos (pos_part c.replicas)) (ground (arith, some_there)))

at_zero : (k : ℕ) → pos 0 +ℤ pos k ≡ pos k
at_zero k = eq_of_parts (pos 0 +ℤ pos k) (pos k) (omega (arith, +ℤ_parts (pos 0) (pos k)))

module _ {R : Source} (config : FaultConfig R.Float) {A : Type 0} where
  arm_tick-down :
      (s : Simulation R cluster A) {later : Simulation R cluster A}
      → arm_tick config s ≡ some later
      → later.down ≡ s.down
  unfolding arm_tick
  arm_tick-down s {later} e =
      elim (Option-cases (schedule config.tick_ms control fault_tick s.world.queue)) [
        | inl failed ↦
            let none_there : arm_tick config s ≡ none = rw (failed, arm_tick) refl in
            absurd (ground arith)
        | inr ((seq, q), p) ↦
            let run : arm_tick config s ≡ some (with_queue q s) = rw (p, arm_tick) refl in
            let both : some (with_queue q s) ≡ some later = sym run ∙ e in
            let same : with_queue q s ≡ later = cc in ap (λ x. x.down) (sym same)
      ]

  pub launch_lem :
      (Ready : A → Type 0) (on : Bool) (s : Simulation R cluster A)
      → pos 0 <ℤ config.tick_ms
      → IsRunning IsCluster Ready s
      → (later : Simulation R cluster A) × (launch config on s ≡ some later)
        × IsRunning IsCluster Ready later
        × (clock_now later ≡ clock_now s)
        × (later.node_ids ≡ s.node_ids)
        × (later.nodes ≡ s.nodes)
        × (later.down ≡ s.down)
  unfolding launch
  launch_lem Ready false s h r = (s, refl, r, refl, refl, refl, refl)
  launch_lem Ready true s h r =
      let (later, e, t, same) = arm_tick_lem config Ready s h r.valid r.ready in
      (
        later,
        e,
        record {
          valid = t.valid;
          inv = subst (λ on. IsCluster on later.nodes) (sym t.timers) (rw t.nodes r.inv);
          ready = t.ready;
        },
        t.after.clock,
        t.after.node_ids,
        t.nodes,
        arm_tick-down s {later = later} e,
      )

  -- The tick of an adversary that may not be armed.
  abbrev pub tick_of :
      Bool
      → (Simulation R cluster A → Option (Simulation R cluster A))
      → Option (Simulation R cluster A → Option (Simulation R cluster A))
  tick_of on tick = if on then some tick else none

  ticks_of :
      (Ready : A → Type 0) (on : Bool)
      (tick : Simulation R cluster A → Option (Simulation R cluster A))
      → Ticks {N = cluster} Ready (some tick)
      → Ticks {N = cluster} Ready (tick_of on tick)
  ticks_of Ready true tick t = t
  ticks_of Ready false tick t = tt

  -- What is left when the loop ends: the nodes keep their invariant, and the loop has a reason to
  -- end unless it has used up its fuel.
  pub record IsConducted (Ready : A → Type 0) (fuel : ℕ) (horizon_ms : ℤ)
      (tick : Option (Simulation R cluster A → Option (Simulation R cluster A))) (delivered : ℕ)
      (later : Simulation R cluster A) : Type 0 where
    pub inv : IsCluster (armed later) later.nodes
    pub ready : Ready later.adversary
    pub within : pos 0 ≤ℤ horizon_ms → clock_now later ≤ℤ horizon_ms
    pub bounded : delivered ≤ fuel
    pub reason :
        delivered < fuel
        → HasReason config tick (some horizon_ms) (λ x. all_finished x.nodes.clients) later

  -- The clients can start when all nodes are registered.
  can_start :
      (store : StoreConfig) (patience_ms : ℤ) (k n : ℕ) (d : Dict NodeId Client)
      (s : Simulation R cluster A) (ds : Dict NodeId Client)
      → s.node_ids ≡ range_from (pos 0) k ++ range_from (pos k) n
      → s.nodes
        ≡ record { replicas = replicas_of store (range_from (pos 0) k); clients = d; history = [] }
      → All (IsWired patience_ms (pos k) n d) ds
      → All (CanStart s) ds
  can_start store patience_ms k n d s [] ids nodes w = tt
  can_start store patience_ms k n d s (e ∷ ds) ids nodes w = (
    (
      rw ids (
          ground (
            arith,
            member-append e.0 (range_from (pos 0) k) (range_from (pos k) n),
            member_of_range (pos k) n e.0 w.0.from w.0.below,
          )),
      rw nodes (
          no_replica_above store (pos 0) k e.0 (omega (arith, +ℤ_parts (pos 0) (pos k), w.0.from))),
      rw nodes w.0.filed,
      w.0.fresh.idle,
    ),
    can_start store patience_ms k n d s ds ids nodes w.1,
  )

  -- The steps of the wiring, one behind the other.
  conduct-step :
      (fuel : ℕ) (patience_ms : ℤ) (tick : Simulation R cluster A → Option (Simulation R cluster A))
      (on : Bool) (adversary : A) (rng : R.State) (scenario : Scenario R.Float)
      (clients : Dict NodeId Client) (s₁ s₂ s₃ s₄ : Simulation R cluster A)
      {out : Option (ℕ × Simulation R cluster A)}
      → clients_of patience_ms (client_ids scenario) scenario.plans ≡ some clients
      → add_all config (replica_ids scenario.store) true (
          Simulation.init
            (record {
              replicas = replicas_of scenario.store (replica_ids scenario.store);
              clients = clients;
              history = [];
            })
            adversary
            rng
            (Scheduler.init (record { now = pos 0 })))
        ≡ some s₁
      → add_all config (client_ids scenario) false s₁ ≡ some s₂
      → launch config on s₂ ≡ some s₃
      → start_all config clients s₃ ≡ some s₄
      → run config
          (tick_of on tick)
          fuel
          (some scenario.horizon_ms)
          (λ x. all_finished x.nodes.clients)
          s₄
        ≡ out
      → conduct config fuel patience_ms tick on adversary rng scenario ≡ out
  unfolding conduct
  conduct-step fuel patience_ms tick on adversary rng scenario clients s₁ s₂ s₃ s₄ e₀ e₁ e₂ e₃ e₄
        e₅ =
      rw (e₀, conduct) (rw e₁ (rw e₂ (rw e₃ (rw e₄ e₅))))

  module _ (unit : IsUnit R) (budget : IsBudget config) (Ready : A → Type 0)
      (tick : Simulation R cluster A → Option (Simulation R cluster A))
      (ticks : Ticks {N = cluster} Ready (some tick)) where
    -- From the wiring to the end of the loop nothing raises when the store, the budget and the
    -- plans are accepted and the adversary keeps its invariant: the nodes are well-formed at the
    -- end, the time is within the horizon if it is not negative, and a run with fewer events than
    -- the bound has ended since all clients have finished, the horizon is reached or nothing is
    -- left.
    pub conduct_lem :
        (fuel : ℕ) (patience_ms : ℤ) (on : Bool) (adversary : A) (rng : R.State)
        (scenario : Scenario R.Float)
        → post_init scenario.store ≡ none
        → All IsPlan scenario.plans
        → pos 0 ≤ℤ patience_ms
        → Ready adversary
        → (delivered : ℕ) × (later : Simulation R cluster A) × (conduct config fuel patience_ms tick
              on adversary rng scenario
            ≡ some (delivered, later))
          × IsConducted Ready fuel scenario.horizon_ms (tick_of on tick) delivered later
    unfolding client_ids replica_ids
    conduct_lem fuel patience_ms on adversary rng scenario h plans patient ready =
        let store = scenario.store in
        let k = pos_part store.replicas in
        let n = length scenario.plans in
        let (enough, whole) = replicas_of_accepted store h in
        let (clients, e₀, wired) = clients_of_lem patience_ms (pos k) scenario.plans plans in
        let nodes : Cluster = record {
          replicas = replicas_of store (range_from (pos 0) k);
          clients = clients;
          history = [];
        } in
        let s₀ : Simulation R cluster A =
          Simulation.init nodes adversary rng (Scheduler.init (record { now = pos 0 })) in
        let r₀ =
          init-IsRunning {R = R} IsCluster Ready nodes adversary rng
            (wired-IsCluster store patience_ms k clients h patient
              (All-fresh patience_ms (pos k) n clients clients wired))
            ready in
        let (s₁, e₁, j₁, b₁) =
          add_all_lem unit config Ready budget.skew (pos 0) k true s₀ (omega arith) tt r₀ in
        let (s₂, e₂, j₂, b₂) =
          add_all_lem unit config Ready budget.skew (pos k) n false s₁ (omega arith)
            (subst (λ a. IsBelow a s₁.node_ids) (at_zero k) b₁) j₁.running in
        let (s₃, e₃, r₃, clock₃, ids₃, nodes₃, down₃) =
          launch_lem Ready on s₂ budget.tick j₂.running in
        let (s₄, e₄, r₄, clock₄) =
          start_all_lem unit config Ready budget.window clients s₃
            (can_start store patience_ms k n clients s₃ clients
              (ids₃ ∙ (j₂.node_ids ∙ ap (λ ids. ids ++ range_from (pos k) n) j₁.node_ids))
              (nodes₃ ∙ (j₂.nodes ∙ j₁.nodes)) wired)
            (down₃ ∙ (j₂.down ∙ j₁.down)) r₃ in
        let (delivered, later, e₅, ran) =
          run_lem config (tick_of on tick) IsCluster Ready unit budget.window cluster-Laws
            (ticks_of Ready on tick ticks) fuel (some scenario.horizon_ms)
            (λ x. all_finished x.nodes.clients) s₄ r₄ in
        (
          delivered,
          later,
          conduct-step fuel patience_ms tick on adversary rng scenario clients s₁ s₂ s₃ s₄
              {out = some (delivered, later)}
              (subst (λ a. clients_of patience_ms (range_from a n) scenario.plans ≡ some clients)
                (sym whole) e₀)
              e₁ (subst (λ a. add_all config (range_from a n) false s₁ ≡ some s₂) (sym whole) e₂) e₃
              e₄ e₅,
          record {
            inv = ran.inv;
            ready = ran.ready;
            within = λ p. ran.within (rw (clock₄, clock₃, j₂.clock, j₁.clock) p);
            bounded = ran.bounded;
            reason = ran.reason;
          },
        )

-- ===== src/Sim/Injector/Ticking.antt =====
-- A tick of the adversary on a well-formed engine.
use cassette.Base.{
  ◌≤◌, ◌≡◌, refl, sym, subst, inl, inr, true, not, ◌&&◌, Option, none, some, List, [], ◌∷◌, arith,
  is_some, if-elim, length, All, All-append, In, ℤ, pos, ℤ_discrete, ◌+ℤ◌, ◌≤ℤ◌, ◌<ℤ◌, +ℤ_parts,
  member, IsDistinct, Text,
}
use cassette.Kv.Version.{NodeId}
use cassette.Sim.Env.{Nodes}
use cassette.Sim.Events.{Event, control, fault_tick}
use cassette.Sim.Faults.{FaultConfig, InjectedFault, MillisecondRange, IsWindow}
use cassette.Sim.Injector.{
  partition_kind, crash_kind, pause_kind, sorted, FaultInjector, arm_tick, with_rng, decide, cut,
  roll_partition, strike, roll_crash, roll_pause, tick,
}
use cassette.Sim.Injector.Splits.{has, has-sorted, length-sorted, split-IsCut}
use cassette.Sim.Rng.{Source, chance}
use cassette.Sim.Rng.Draws.{IsUnit, draws, randint_bounds}
use cassette.Sim.Rng.Choices.{choice-In}
use cassette.Sim.Scheduler.Order.{schedule_lem}
use cassette.Sim.Simulation.{Simulation, clock_now, with_queue, schedule_crash, schedule_pause}
use cassette.Sim.Simulation.Calls.{rest-IsWell}
use cassette.Sim.Simulation.Injury.{
  IsScheduled, schedule_crash_lem, schedule_pause_lem, schedule_partition_lem, IsTicked-trans,
}
use cassette.Sim.Simulation.Laws.{IsTicked, Ticks}
use cassette.Sim.Simulation.Queueing.{grown-IsWell, queued, queued-HasGrown}
use cassette.Sim.Simulation.Valid.{Backed, Nothing, IsValid}

-- A fault that can be replayed: it lasts, and it is aimed at replicas, at one at least.
pub record IsDecision (replicas : List NodeId) (d : InjectedFault) : Type 0 where
  pub lasting : pos 0 ≤ℤ d.duration_ms
  pub aimed : 1 ≤ length d.targets
  pub known : (n : NodeId) → has d.targets n ≡ true → has replicas n ≡ true

abbrev pub AreDecisions : (R : Source) → List NodeId → FaultInjector R → Type 0
AreDecisions R replicas a = All (IsDecision replicas) a.decisions

member_of_In : (n : NodeId) (ns : List NodeId) → In n ns → has ns n ≡ true
unfolding member
member_of_In n [] i = absurd i
member_of_In n (m ∷ ms) (inl e) = rw e (ground arith)
member_of_In n (m ∷ ms) (inr i) = ground (arith, member_of_In n ms i)

known_of_In :
    (victim : NodeId) (replicas : List NodeId)
    → In victim replicas
    → (n : NodeId) → has (victim ∷ []) n ≡ true
    → has replicas n ≡ true
unfolding member
known_of_In victim replicas i n h = elim (ℤ_discrete victim n) [
  | yes same ↦ subst (λ k. has replicas k ≡ true) same (member_of_In victim replicas i)
  | no differ ↦ absurd (ground arith)
]

-- The next tick is queued.
module _ {R : Source} {M : Type 0} (config : FaultConfig R.Float) {N : Nodes M} {A : Type 0}
    (Ready : A → Type 0) where
  pub arm_tick_lem :
      (s : Simulation R N A)
      → pos 0 <ℤ config.tick_ms
      → IsValid s
      → Ready s.adversary
      → (later : Simulation R N A) × (arm_tick config s ≡ some later)
        × IsTicked Ready s later
        × (later.adversary ≡ s.adversary)
  unfolding arm_tick
  arm_tick_lem s h v ready =
      let q = s.world.queue in
      let at = clock_now s +ℤ config.tick_ms in
      (
        with_queue (queued at control fault_tick q) s,
        rw (schedule_lem config.tick_ms control fault_tick q (omega (arith, h)), arm_tick) refl,
        record {
          valid =
              grown-IsWell _ Nothing s (queued at control fault_tick q)
                (queued-HasGrown at control fault_tick q
                  (omega (arith, +ℤ_parts (clock_now s) config.tick_ms, h)) v.sound.queue)
                (λ e new.
                  subst
                    (λ (x : Event M). Backed s.timers (queued at control fault_tick q) x x.action)
                    (sym new) tt)
                v;
          after = record { clock = refl; node_ids = refl };
          nodes = refl;
          timers = refl;
          ready = ready;
        },
        refl,
      )

module _ {R : Source} {M : Type 0} (unit : IsUnit R) (config : FaultConfig R.Float)
    (replicas : List NodeId) {N : Nodes M} where
  -- The engine with the source of the adversary moved on.
  rolled :
      (g : R.State) (s : Simulation R N (FaultInjector R))
      → IsValid s
      → AreDecisions R replicas s.adversary
      → IsTicked (AreDecisions R replicas) s (with_rng g s)
  rolled g s v ready = record {
    valid =
        rest-IsWell Nothing s s.world s.nodes s.skew (record s.adversary { rng = g }) s.events v;
    after = record { clock = refl; node_ids = refl };
    nodes = refl;
    timers = refl;
    ready = ready;
  }

  -- A decision is written down.
  decided :
      (kind : Text) (d : ℤ) (targets : List NodeId) (s : Simulation R N (FaultInjector R))
      → pos 0 ≤ℤ d
      → 1 ≤ length targets
      → ((n : NodeId) → has targets n ≡ true → has replicas n ≡ true)
      → IsValid s
      → AreDecisions R replicas s.adversary
      → IsTicked (AreDecisions R replicas) s (decide kind d targets s)
  decided kind d targets s lasting aimed known v ready = record {
    valid =
        rest-IsWell Nothing s s.world s.nodes s.skew (decide kind d targets s).adversary s.events v;
    after = record { clock = refl; node_ids = refl };
    nodes = refl;
    timers = refl;
    ready =
        All-append (IsDecision replicas) s.adversary.decisions _ ready
          (record { lasting = lasting; aimed = aimed; known = known }, tt);
  }

  -- Scheduling a fault and writing it down, with the source moved on before.
  written :
      (g : R.State) (kind : Text) (d : ℤ) (targets : List NodeId)
      (s later : Simulation R N (FaultInjector R))
      → pos 0 ≤ℤ d
      → 1 ≤ length targets
      → ((n : NodeId) → has targets n ≡ true → has replicas n ≡ true)
      → IsTicked (AreDecisions R replicas) s (with_rng g s)
      → IsTicked (AreDecisions R replicas) (with_rng g s) later
      → IsTicked (AreDecisions R replicas) s (decide kind d targets later)
  written g kind d targets s later lasting aimed known r t =
      IsTicked-trans (AreDecisions R replicas) s (with_rng g s) (decide kind d targets later) r (
        IsTicked-trans (AreDecisions R replicas) (with_rng g s) later (decide kind d targets later)
          t (decided kind d targets later lasting aimed known t.valid t.ready))

  abbrev Ticked :
      Simulation R N (FaultInjector R) → Option (Simulation R N (FaultInjector R)) → Type 0
  Ticked s out =
      (later : Simulation R N (FaultInjector R)) × (out ≡ some later)
      × IsTicked (AreDecisions R replicas) s later

  cut_lem :
      (g : R.State) (s : Simulation R N (FaultInjector R))
      → IsDistinct ℤ_discrete replicas
      → 2 ≤ length replicas
      → IsWindow config.partition_duration_ms
      → IsValid s
      → AreDecisions R replicas s.adversary
      → Ticked s (cut config replicas g s)
  unfolding cut
  cut_lem g s distinct enough window v ready =
      let (side, other, g', e, c) = split-IsCut R unit replicas g distinct enough in
      let (d, drawn, from, to) =
        randint_bounds R unit config.partition_duration_ms.0 config.partition_duration_ms.1 g'
          window.1 in
      let lasting : pos 0 ≤ℤ d = omega (arith, window.0, from) in
      let r = rolled (draws R 1 g') s v ready in
      let (later, f, t, same, net) =
        schedule_partition_lem (AreDecisions R replicas) (side ∷ other ∷ []) d
          (with_rng (draws R 1 g') s) (omega arith) lasting r.valid r.ready in
      (
        decide partition_kind d (sorted side) later,
        rw (e, cut) (rw drawn (rw f refl)),
        written (draws R 1 g') partition_kind d (sorted side) s later lasting
            (omega (arith, length-sorted side, c.some_here))
            (λ n h. ground (arith, c.whole n, has-sorted n side)) r t,
      )

  -- A replica is struck.
  strike_lem :
      (kind : Text) (range_ms : MillisecondRange)
      (injure : NodeId
        → ℤ
        → Option ℤ
        → Simulation R N (FaultInjector R)
        → Option (Simulation R N (FaultInjector R)))
      → ((node : NodeId) (d : ℤ) (s : Simulation R N (FaultInjector R))
          → pos 0 ≤ℤ d
          → IsValid s
          → AreDecisions R replicas s.adversary
          → IsScheduled (AreDecisions R replicas) s (injure node d none s))
      → (g : R.State) (s : Simulation R N (FaultInjector R)) → 1 ≤ length replicas
      → IsWindow range_ms
      → IsValid s
      → AreDecisions R replicas s.adversary
      → Ticked s (strike config replicas kind range_ms injure g s)
  unfolding strike
  strike_lem kind range_ms injure injures g s some_there window v ready =
      let (victim, e, inside) = choice-In R unit replicas g some_there in
      let (d, drawn, from, to) =
        randint_bounds R unit range_ms.0 range_ms.1 (draws R 1 g) window.1 in
      let lasting : pos 0 ≤ℤ d = omega (arith, window.0, from) in
      let g' = draws R 1 (draws R 1 g) in
      let r = rolled g' s v ready in
      let (later, f, t, same, net) = injures victim d (with_rng g' s) lasting r.valid r.ready in
      (
        decide kind d (victim ∷ []) later,
        rw (e, strike) (rw drawn (rw f refl)),
        written g' kind d (victim ∷ []) s later lasting (omega arith)
            (known_of_In victim replicas inside) r t,
      )

  module _ (distinct : IsDistinct ℤ_discrete replicas) (enough : 2 ≤ length replicas)
      (partitions : IsWindow config.partition_duration_ms)
      (crashes : IsWindow config.crash_duration_ms) (pauses : IsWindow config.pause_duration_ms)
      (ticks : pos 0 <ℤ config.tick_ms) where
    roll_partition_lem :
        (s : Simulation R N (FaultInjector R))
        → IsValid s
        → AreDecisions R replicas s.adversary
        → Ticked s (roll_partition config replicas s)
    unfolding roll_partition
    roll_partition_lem s v ready =
        let g = (chance R config.partition_rate s.adversary.rng).1 in
        if-elim (Ticked s)
          ((chance R config.partition_rate s.adversary.rng).0
            && not (is_some s.world.network.partition))
          (cut config replicas g s) (some (with_rng g s))
          (λ _. cut_lem g s distinct enough partitions v ready)
          (λ _. (with_rng g s, refl, rolled g s v ready))

    roll_crash_lem :
        (s : Simulation R N (FaultInjector R))
        → IsValid s
        → AreDecisions R replicas s.adversary
        → Ticked s (roll_crash config replicas s)
    unfolding roll_crash
    roll_crash_lem s v ready =
        let g = (chance R config.crash_rate s.adversary.rng).1 in
        if-elim (Ticked s) (chance R config.crash_rate s.adversary.rng).0
          (strike config replicas crash_kind config.crash_duration_ms schedule_crash g s)
          (some (with_rng g s))
          (λ _.
            strike_lem crash_kind config.crash_duration_ms schedule_crash
              (schedule_crash_lem (AreDecisions R replicas)) g s (omega (arith, enough)) crashes v
              ready)
          (λ _. (with_rng g s, refl, rolled g s v ready))

    roll_pause_lem :
        (s : Simulation R N (FaultInjector R))
        → IsValid s
        → AreDecisions R replicas s.adversary
        → Ticked s (roll_pause config replicas s)
    unfolding roll_pause
    roll_pause_lem s v ready =
        let g = (chance R config.pause_rate s.adversary.rng).1 in
        if-elim (Ticked s) (chance R config.pause_rate s.adversary.rng).0
          (strike config replicas pause_kind config.pause_duration_ms schedule_pause g s)
          (some (with_rng g s))
          (λ _.
            strike_lem pause_kind config.pause_duration_ms schedule_pause
              (schedule_pause_lem (AreDecisions R replicas)) g s (omega (arith, enough)) pauses v
              ready)
          (λ _. (with_rng g s, refl, rolled g s v ready))

    -- On two distinct replicas or more, with windows that are not negative or empty, a tick of the
    -- dice on a well-formed engine does not raise, keeps the engine well-formed, leaves the nodes
    -- and their timers alone, and what it has decided lasts and is aimed at replicas, at one at
    -- least.
    pub tick-IsTicked : Ticks {N = N} (AreDecisions R replicas) (some (tick config replicas))
    unfolding tick
    tick-IsTicked s v ready =
        let (s₁, e₁, t₁) = roll_partition_lem s v ready in
        let (s₂, e₂, t₂) = roll_crash_lem s₁ t₁.valid t₁.ready in
        let (s₃, e₃, t₃) = roll_pause_lem s₂ t₂.valid t₂.ready in
        let (later, e, t, same) =
          arm_tick_lem config (AreDecisions R replicas) s₃ ticks t₃.valid t₃.ready in
        (
          later,
          rw (e₁, tick) (rw e₂ (rw e₃ e)),
          IsTicked-trans (AreDecisions R replicas) s s₁ later t₁ (
              IsTicked-trans (AreDecisions R replicas) s₁ s₂ later t₂
                (IsTicked-trans (AreDecisions R replicas) s₂ s₃ later t₃ t)),
        )

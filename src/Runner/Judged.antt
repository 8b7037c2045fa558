-- ===== src/Runner/Judged.antt =====
-- What an execution comes to: the run, and the verdict on its history.
use cassette.Base.{
  ℕ, zero, suc, ◌≤◌, ◌≡◌, refl, sym, ap, subst, ◌∙◌, ◌≢◌, ◌⊎◌, inl, inr, Bool, true, false, not,
  ◌||◌, Option, none, some, List, [], ◌∷◌, arith, ltb, if◌then◌else◌, Bool-cases, Option-cases,
  if-elim, length, keep, All, ℤ, pos, ℤ_discrete, pos_part, neg_part, ◌+ℤ◌, ◌≤ℤ◌, ◌<ℤ◌, +ℤ_parts,
  range_from, Dict, member, IsDistinct, Text,
}
use cassette.Checker.History.Indexed.{IsIndexed}
use cassette.Checker.History.Keys.{on_key}
use cassette.Checker.Linear.{Verdict, violated, check}
use cassette.Checker.Linear.Verdicts.{check_sound, check_complete}
use cassette.Checker.Linearizable.{Linearizable}
use cassette.Kv.Version.{NodeId}
use cassette.Kv.Config
use cassette.Kv.Config.{StoreConfig, replica_ids}
use cassette.Kv.Messages.{Message}
use cassette.Runner.{cluster, Run, conduct, conclude, execute, is_empty, pinned}
use cassette.Runner.Executed.{IsBudget, IsConducted, conduct_lem}
use cassette.Runner.Wiring.{IsPlan}
use cassette.Scenario.{Scenario}
use cassette.Sim.Faults
use cassette.Sim.Faults.{
  FaultConfig, InjectedFault, injects_anything, latency_of_accepted, ranges_of_accepted,
}
use cassette.Sim.Injector.{FaultInjector, tick, by_tick, replay_tick}
use cassette.Sim.Injector.Ticking.{IsDecision, AreDecisions, tick-IsTicked}
use cassette.Sim.Injector.Replaying.{Lasts, AllLast, by_tick-lookup, replay_tick-IsTicked}
use cassette.Sim.Rng.{Source}
use cassette.Sim.Rng.Draws.{IsUnit}
use cassette.Sim.Simulation.{Simulation, clock_now}

apart : (a b : ℤ) (k : ℕ) → a <ℤ b → member ℤ_discrete a (range_from b k) ≡ false
unfolding member
apart a b zero h = refl
apart a b (suc k) h =
    let differ : b ≢ a = λ q. omega (arith, h, ap pos_part q, ap neg_part q) in
    let rest = apart a (b +ℤ pos 1) k (omega (arith, h, +ℤ_parts b (pos 1))) in
    ground (arith, differ, rest)

range_from-IsDistinct : (a : ℤ) (k : ℕ) → IsDistinct ℤ_discrete (range_from a k)
range_from-IsDistinct a zero = tt
range_from-IsDistinct a (suc k) = (
  apart a (a +ℤ pos 1) k (omega (arith, +ℤ_parts a (pos 1))),
  range_from-IsDistinct (a +ℤ pos 1) k,
)

pub replica_ids-IsDistinct : (c : StoreConfig) → IsDistinct ℤ_discrete (replica_ids c)
unfolding replica_ids
replica_ids-IsDistinct c = range_from-IsDistinct (pos 0) (pos_part c.replicas)

All-keep : {A : Type 0} (P : A → Type 0) (f : A → Bool) (xs : List A) → All P xs → All P (keep f xs)
All-keep P f [] h = tt
All-keep P f (x ∷ xs) h =
    if-elim (All P) (f x) _ _ (λ _. (h.0, All-keep P f xs h.1)) (λ _. All-keep P f xs h.1)

all_last : (schedule : List InjectedFault) → All Lasts schedule → AllLast (by_tick schedule)
all_last schedule h t =
    subst (All Lasts) (sym (by_tick-lookup t schedule)) (All-keep Lasts _ schedule h)

IsBudget-of_accepted :
    {F : Type 0} (is_rate : F → Bool) (c : FaultConfig F)
    → Faults.post_init is_rate c ≡ none
    → IsBudget c
IsBudget-of_accepted is_rate c h =
    let (partitions, crashes, pauses, skew, tick) = ranges_of_accepted is_rate c h in
    record { window = latency_of_accepted is_rate c h; skew = skew; tick = tick }

-- What drives the adversary: its dice, on two replicas at least, or a schedule of faults that
-- last.
abbrev pub IsDriven : List NodeId → Option (List InjectedFault) → Type 0
IsDriven replicas none = 2 ≤ length replicas
IsDriven replicas (some schedule) = All Lasts schedule

-- A scenario that the constructors of its parts accept, with plans that wait for no negative time.
pub record IsExecutable {F : Type 0} (is_rate : F → Bool) (scenario : Scenario F) : Type 0 where
  pub store : Config.post_init scenario.store ≡ none
  pub faults : Faults.post_init is_rate scenario.faults ≡ none
  pub plans : All IsPlan scenario.plans
  pub horizon : pos 0 ≤ℤ scenario.horizon_ms
  pub driven : IsDriven (replica_ids scenario.store) scenario.schedule

-- The end of an execution is what the checker makes of the history of a run.
abbrev pub judged : Bool → ℕ → Run Message → Option (Run Message)
judged judge budget run =
    if judge
    then elim (check run.history budget) [
      | none ↦ none
      | some v ↦ some (record run { verdict = some v })
    ]
    else some run

-- A schedule that is given is the one that is recorded.
abbrev pub Follows : Option (List InjectedFault) → List InjectedFault → Type 0
Follows none recorded = Unit
Follows (some schedule) recorded = recorded ≡ schedule

pub record IsRun {F : Type 0} (fuel : ℕ) (scenario : Scenario F) (run : Run Message) : Type 0 where
  pub indexed : IsIndexed 0 run.history
  pub bounded : run.delivered ≤ fuel
  pub within : run.elapsed_ms ≤ℤ scenario.horizon_ms
  pub unjudged : run.verdict ≡ none
  pub lasting : All Lasts run.schedule
  pub scripted : Follows scenario.schedule run.schedule

conclude_lem :
    {R : Source} {A : Type 0} (record_it judge : Bool) (budget : ℕ)
    (schedule : A → List InjectedFault) (done : ℕ × Simulation R cluster A)
    → (run : Run Message) × (conclude {R = R} record_it judge budget schedule done
        ≡ judged judge budget run)
      × (run.history ≡ done.1.nodes.history)
      × (run.delivered ≡ done.0)
      × (run.elapsed_ms ≡ clock_now done.1)
      × (run.verdict ≡ none)
      × (run.schedule ≡ schedule done.1.adversary)
unfolding conclude
conclude_lem record_it judge budget schedule (delivered, s) = (
  record {
    history = s.nodes.history;
    events = if record_it then s.events else [];
    delivered = delivered;
    elapsed_ms = clock_now s;
    verdict = none;
    schedule = schedule s.adversary;
  },
  refl,
  refl,
  refl,
  refl,
  refl,
  refl,
)

lasting_of :
    (replicas : List NodeId) (faults : List InjectedFault)
    → All (IsDecision replicas) faults
    → All Lasts faults
lasting_of replicas [] h = tt
lasting_of replicas (f ∷ fs) h = (h.0.lasting, lasting_of replicas fs h.1)

module _ (R : Source) (is_zero : R.Float → Bool) (seeded : ℤ → R.State) (salted : ℤ → ℤ)
    (unit : IsUnit R) (is_rate : R.Float → Bool) where
  abbrev HasEnded : Bool → Bool → ℕ → ℤ → ℕ → Scenario R.Float → Type 0
  HasEnded record_it judge budget patience_ms fuel scenario =
      (run : Run Message) × (execute R is_zero seeded salted record_it judge budget patience_ms fuel
          scenario
        ≡ judged judge budget run)
      × IsRun fuel scenario run

  -- What `conclude` makes of a run.
  concluded :
      {A : Type 0} (record_it judge : Bool) (budget : ℕ) (patience_ms : ℤ) (fuel : ℕ)
      (scenario : Scenario R.Float) (Ready : A → Type 0)
      (driver : Option (Simulation R cluster A → Option (Simulation R cluster A)))
      (schedule : A → List InjectedFault) (delivered : ℕ) (later : Simulation R cluster A)
      → pos 0 ≤ℤ scenario.horizon_ms
      → ((a : A) → Ready a → All Lasts (schedule a))
      → ((a : A) → Follows scenario.schedule (schedule a))
      → IsConducted {R = R} scenario.faults Ready fuel scenario.horizon_ms driver delivered later
      → execute R is_zero seeded salted record_it judge budget patience_ms fuel scenario
        ≡ conclude {R = R} record_it judge budget schedule (delivered, later)
      → HasEnded record_it judge budget patience_ms fuel scenario
  concluded record_it judge budget patience_ms fuel scenario Ready driver schedule delivered later
        horizon lasts follows c e =
      let (run, f, history, count, elapsed, unjudged, faults) =
        conclude_lem {R = R} record_it judge budget schedule (delivered, later) in
      (
        run,
        e ∙ f,
        record {
          indexed = rw history c.inv.indexed;
          bounded = rw count c.bounded;
          within = rw elapsed (c.within horizon);
          unjudged = unjudged;
          lasting = rw faults (lasts later.adversary c.ready);
          scripted = subst (Follows scenario.schedule) (sym faults) (follows later.adversary);
        },
      )

  -- The two adversaries.
  diced :
      (record_it judge : Bool) (budget : ℕ) (patience_ms : ℤ) (fuel : ℕ)
      (scenario : Scenario R.Float) {out : ℕ × Simulation R cluster (FaultInjector R)}
      → scenario.schedule ≡ none
      → ltb (length (replica_ids scenario.store)) 2 ≡ false
      → conduct {R = R} scenario.faults fuel patience_ms
          (tick scenario.faults (replica_ids scenario.store))
          (injects_anything is_zero scenario.faults)
          (record { rng = seeded (salted scenario.seed); decisions = [] })
          (seeded scenario.seed)
          scenario
        ≡ some out
      → execute R is_zero seeded salted record_it judge budget patience_ms fuel scenario
        ≡ conclude {R = R} record_it judge budget (λ (a : FaultInjector R). a.decisions) out
  unfolding execute
  diced record_it judge budget patience_ms fuel scenario e few f =
      rw (e, execute) (rw few (rw f refl))

  replayed :
      (record_it judge : Bool) (budget : ℕ) (patience_ms : ℤ) (fuel : ℕ)
      (scenario : Scenario R.Float) (schedule : List InjectedFault)
      {out : ℕ × Simulation R cluster (Dict ℤ (List InjectedFault))}
      → scenario.schedule ≡ some schedule
      → conduct {R = R} scenario.faults fuel patience_ms
          (replay_tick scenario.faults (replica_ids scenario.store))
          (injects_anything is_zero scenario.faults || not (is_empty schedule))
          (by_tick schedule)
          (seeded scenario.seed)
          scenario
        ≡ some out
      → execute R is_zero seeded salted record_it judge budget patience_ms fuel scenario
        ≡ conclude {R = R} record_it judge budget (λ _. schedule) out
  unfolding execute
  replayed record_it judge budget patience_ms fuel scenario schedule e f =
      rw (e, execute) (rw f refl)

  pub execute_lem :
      (record_it judge : Bool) (budget : ℕ) (patience_ms : ℤ) (fuel : ℕ)
      (scenario : Scenario R.Float)
      → IsExecutable is_rate scenario
      → pos 0 ≤ℤ patience_ms
      → (run : Run Message) × (execute R is_zero seeded salted record_it judge budget patience_ms
            fuel scenario
          ≡ judged judge budget run)
        × IsRun fuel scenario run
  execute_lem record_it judge budget patience_ms fuel scenario x patient =
      elim (Option-cases scenario.schedule) [
        | inl none_there ↦ dice none_there
        | inr (schedule, there) ↦ script schedule there
      ]
    where
      ids : List NodeId
      ids = replica_ids scenario.store

      limits : IsBudget scenario.faults
      limits = IsBudget-of_accepted is_rate scenario.faults x.faults

      dice : scenario.schedule ≡ none → HasEnded record_it judge budget patience_ms fuel scenario
      dice e =
          let enough : 2 ≤ length ids = subst (IsDriven (replica_ids scenario.store)) e x.driven in
          let (partitions, crashes, pauses, skew, ticking) =
            ranges_of_accepted is_rate scenario.faults x.faults in
          let (delivered, later, f, c) =
            conduct_lem {R = R} scenario.faults unit limits (AreDecisions R ids)
              (tick scenario.faults ids)
              (tick-IsTicked unit scenario.faults ids (replica_ids-IsDistinct scenario.store) enough
                partitions crashes pauses ticking)
              fuel patience_ms (injects_anything is_zero scenario.faults)
              (record { rng = seeded (salted scenario.seed); decisions = [] })
              (seeded scenario.seed) scenario x.store x.plans patient tt in
          concluded record_it judge budget patience_ms fuel scenario (AreDecisions R ids) _
            (λ a. a.decisions) delivered later x.horizon (λ a h. lasting_of ids a.decisions h)
            (λ a. subst (λ o. Follows o a.decisions) (sym e) tt) c
            (diced record_it judge budget patience_ms fuel scenario e (ground (arith, enough)) f)

      script :
          (schedule : List InjectedFault)
          → scenario.schedule ≡ some schedule
          → HasEnded record_it judge budget patience_ms fuel scenario
      script schedule e =
          let lasting : All Lasts schedule =
            subst (IsDriven (replica_ids scenario.store)) e x.driven in
          let (delivered, later, f, c) =
            conduct_lem {R = R} scenario.faults unit limits AllLast
              (replay_tick scenario.faults ids)
              (replay_tick-IsTicked scenario.faults ids limits.tick) fuel patience_ms
              (injects_anything is_zero scenario.faults || not (is_empty schedule))
              (by_tick schedule) (seeded scenario.seed) scenario x.store x.plans patient
              (all_last schedule lasting) in
          concluded record_it judge budget patience_ms fuel scenario AllLast _ (λ _. schedule)
            delivered later x.horizon (λ a h. lasting)
            (λ a. subst (λ o. Follows o schedule) (sym e) refl) c
            (replayed record_it judge budget patience_ms fuel scenario schedule e f)

  -- The verdict that comes with a run is about its history, whose operations are numbered.
  verdict_of :
      (budget : ℕ) (r run : Run Message) {v : Verdict}
      → judged true budget r ≡ some run
      → run.verdict ≡ some v
      → (run.history ≡ r.history) × (check r.history budget ≡ some v)
  verdict_of budget r run {v} e f = elim (Option-cases (check r.history budget)) [
    | inl failed ↦ absurd (ground arith)
    | inr (w, answer) ↦
        let both : some (record r { verdict = some w }) ≡ some run = ground arith in
        let same : record r { verdict = some w } ≡ run = cc in
        (
          ap (λ (x : Run Message). x.history) (sym same),
          answer ∙ (ap (λ (x : Run Message). x.verdict) same ∙ f),
        )
  ]

  module _ (record_it : Bool) (budget : ℕ) (patience_ms : ℤ) (fuel : ℕ)
      (scenario : Scenario R.Float) (x : IsExecutable is_rate scenario)
      (patient : pos 0 ≤ℤ patience_ms) {run : Run Message} {v : Verdict}
      (e : execute R is_zero seeded salted record_it true budget patience_ms fuel scenario
        ≡ some run)
      (f : run.verdict ≡ some v) where
    checked : IsIndexed 0 run.history × (check run.history budget ≡ some v)
    checked =
        let (r, same, is_run) =
          execute_lem record_it true budget patience_ms fuel scenario x patient in
        let (history, answer) = verdict_of budget r run (sym same ∙ e) f in
        (
          subst (IsIndexed 0) (sym history) is_run.indexed,
          subst (λ h. check h budget ≡ some v) (sym history) answer,
        )

    -- When a scenario that its constructors accept is executed and judged, a verdict that calls
    -- the history linearizable comes with a linearization of every key; any other says that the
    -- budget ran out, or names a key that has no linearization. The draws lie in [0, 1); on the
    -- dice there are two replicas at least, and a recorded schedule has no fault of negative
    -- duration.
    pub execute_verdict :
        ((v.linearizable ≡ true) × ((key : Text) → Linearizable (on_key key run.history)))
        ⊎ ((v.linearizable ≡ false) × (v.exhausted ≡ true))
        ⊎ ((v.linearizable ≡ false)
            × (v.exhausted ≡ false)
            × ((key : Text) × (v.key ≡ some key) × (¬ Linearizable (on_key key run.history))))
    unfolding violated
    execute_verdict =
        let (indexed, answer) = checked in
        elim (Bool-cases v.linearizable) [
          | inl good ↦ inl (good, check_sound run.history budget indexed answer good)
          | inr bad ↦ elim (Bool-cases v.exhausted) [
            | inl spent ↦ inr (inl (bad, spent))
            | inr sure ↦ inr (
                inr (
                  bad,
                  sure,
                  check_complete run.history budget indexed answer (rw (bad, sure) refl),
                ))
          ]
        ]

  -- The checker leaves the schedule of a run alone.
  schedule_of :
      (judge : Bool) (budget : ℕ) (r run : Run Message)
      → judged judge budget r ≡ some run
      → run.schedule ≡ r.schedule
  schedule_of false budget r run e =
      let same : r ≡ run = ground arith in ap (λ (x : Run Message). x.schedule) (sym same)
  schedule_of true budget r run e = elim (Option-cases (check r.history budget)) [
    | inl failed ↦ absurd (ground arith)
    | inr (w, answer) ↦
        let both : some (record r { verdict = some w }) ≡ some run = ground arith in
        let same : record r { verdict = some w } ≡ run = cc in
        ap (λ (x : Run Message). x.schedule) (sym same)
  ]

  -- When the execution of an accepted scenario gives a run, judged or not, the scenario with that
  -- run's schedule pinned can be executed as well: nothing raises on the way to the verdict, and
  -- the new run records the very schedule of the first.
  pub execute-pinned :
      (record_it judge : Bool) (budget : ℕ) (patience_ms : ℤ) (fuel : ℕ)
      (scenario : Scenario R.Float)
      → IsExecutable is_rate scenario
      → pos 0 ≤ℤ patience_ms
      → {run : Run Message}
      → execute R is_zero seeded salted record_it judge budget patience_ms fuel scenario ≡ some run
      → (again : Run Message) × (execute R is_zero seeded salted record_it judge budget patience_ms
            fuel
            (pinned scenario run)
          ≡ judged judge budget again)
        × IsRun fuel (pinned scenario run) again
        × (again.schedule ≡ run.schedule)
  execute-pinned record_it judge budget patience_ms fuel scenario x patient {run} e =
      let (r, same, is_run) =
        execute_lem record_it judge budget patience_ms fuel scenario x patient in
      let kept : run.schedule ≡ r.schedule = schedule_of judge budget r run (sym same ∙ e) in
      let x' : IsExecutable is_rate (pinned scenario run) = record {
        store = x.store;
        faults = x.faults;
        plans = x.plans;
        horizon = x.horizon;
        driven = subst (All Lasts) (sym kept) is_run.lasting;
      } in
      let (again, f, is_again) =
        execute_lem record_it judge budget patience_ms fuel (pinned scenario run) x' patient in
      (again, f, is_again, is_again.scripted)

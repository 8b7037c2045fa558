-- ===== src/Scenario/Generated.antt =====
-- The shape of a generated scenario.
use cassette.Base.{
  ℕ, zero, suc, ◌*◌, ◌≡◌, refl, ap, subst, ◌∙◌, inl, inr, Option, none, some, List, [], ◌∷◌, arith,
  Option-cases, length, All, ℤ, negsuc, pos_part,
}
use native.Mathlib.Nat.{suc-mul}
use cassette.Kv.Config.{StoreConfig}
use cassette.Kv.Client.{PlannedOp}
use cassette.Sim.Faults.{FaultConfig}
use cassette.Sim.Rng.{Source}
use cassette.Scenario.{
  WorkloadSpec, Scenario, total, plan_one, repeat, generate, operation_count, fault_count,
}

module _ (R : Source) (plus : R.Float → R.Float → R.Float) where
  length-repeat :
      {A : Type 0} (n : ℕ) (draw : R.State → Option (A × R.State)) (g : R.State) {xs : List A}
      {later : R.State}
      → repeat R plus n draw g ≡ some (xs, later)
      → length xs ≡ n
  length-repeat zero draw g e = ground arith
  length-repeat (suc n) draw g {xs} {later} e = elim (Option-cases (draw g)) [
    | inl failed ↦ absurd (ground arith)
    | inr (a, drawn) ↦ elim (Option-cases (repeat R plus n draw a.1)) [
      | inl failed ↦ absurd (ground arith)
      | inr (rest, more) ↦
          ground (arith, length-repeat n draw a.1 {xs = rest.0} {later = rest.1} more)
    ]
  ]

  All-repeat :
      {A : Type 0} (P : A → Type 0) (n : ℕ) (draw : R.State → Option (A × R.State)) (g : R.State)
      {xs : List A} {later : R.State}
      → ((h : R.State) (a : A) (h' : R.State) → draw h ≡ some (a, h') → P a)
      → repeat R plus n draw g ≡ some (xs, later)
      → All P xs
  All-repeat {A} P zero draw g {xs} {later} each e =
      let p : [] ≡ xs = ground arith in subst (All P) p tt
  All-repeat {A} P (suc n) draw g {xs} {later} each e = elim (Option-cases (draw g)) [
    | inl failed ↦ absurd (ground arith)
    | inr (a, drawn) ↦ elim (Option-cases (repeat R plus n draw a.1)) [
      | inl failed ↦ absurd (ground arith)
      | inr (rest, more) ↦
          let p : a.0 ∷ rest.0 ≡ xs = ground arith in
          subst (All P) p
            (each g a.0 a.1 drawn, All-repeat P n draw a.1 {xs = rest.0} {later = rest.1} each more)
    ]
  ]

  total_of_All :
      (n : ℕ) (plans : List (List PlannedOp))
      → All (λ plan. length plan ≡ n) plans
      → total plans ≡ length plans * n
  total_of_All n [] h = ground arith
  total_of_All n (plan ∷ plans) h =
      omega (arith, h.0, total_of_All n plans h.1, suc-mul (length plans) n)

  -- A scenario that is generated has as many clients as were asked for, as many operations in all
  -- as clients times operations, and no fault schedule yet.
  pub generate_shape :
      (seed : ℤ) (g : R.State) (store : StoreConfig) (faults : FaultConfig R.Float)
      (w : WorkloadSpec R.Float) (horizon_ms : ℤ) {s : Scenario R.Float}
      → generate R plus seed g store faults w horizon_ms ≡ some s
      → (length s.plans ≡ pos_part w.clients)
        × (operation_count s ≡ pos_part w.clients * pos_part w.operations)
        × (fault_count s ≡ negsuc 0)
  unfolding generate fault_count
  generate_shape seed g store faults w horizon_ms {s} e =
      let n = pos_part w.operations in
      let each = repeat R plus n (plan_one R plus w store) in
      elim (Option-cases (repeat R plus (pos_part w.clients) each g)) [
        | inl failed ↦ absurd (ground arith)
        | inr ((plans, later), made) ↦
            let many : length plans ≡ pos_part w.clients =
              length-repeat (pos_part w.clients) each g {xs = plans} {later = later} made in
            let all_n : All (λ plan. length plan ≡ n) plans =
              All-repeat (λ plan. length plan ≡ n) (pos_part w.clients) each g {xs = plans}
                {later = later}
                (λ h plan h' d.
                  length-repeat n (plan_one R plus w store) h {xs = plan} {later = h'} d)
                made in
            let same : s.plans ≡ plans = ground arith in
            let implicit : s.schedule ≡ none = ground arith in
            (
              ap length same ∙ many,
              ap total same ∙ total_of_All n plans all_n ∙ ap (λ k. k * n) many,
              rw implicit refl,
            )
      ]

-- ===== src/Shrink/Accepted.antt =====
-- What the reducer may end with.
use cassette.Base.{
  ℕ, zero, suc, ◌+◌, ◌≤◌, ◌<◌, ◌≡◌, refl, sym, ap, ◌∙◌, inl, inr, Bool, true, false, ◌||◌, Option,
  List, [], ◌∷◌, arith, ltb, leb, if◌then◌else◌, Bool-cases, ◌≤ℤ◌, leb_ℤ, Text,
}
use cassette.Checker.Linear.{Verdict}
use cassette.Scenario.{Scenario}
use cassette.Shrink.{
  Run, Search, Move, weight, size_of, fails_the_same_way, accept, try_all, try_moves, delete, pin,
  pinned, rebuild, shrink_from,
}

module _ {F : Type 0} (execute : Scenario F → Run F) (target : Verdict) (budget : ℕ) where
  -- The run of the best scenario is kept with it, and fails the way that is looked for.
  abbrev pub IsReal : Search F → Type 0
  IsReal st = (execute st.best ≡ st.best_run) × (fails_the_same_way st.best_run target ≡ true)

  pub record IsProgress (changed : Bool) (st later : Search F) : Type 0 where
    pub spends : st.spent ≤ later.spent
    pub spends_more : changed ≡ true → st.spent < later.spent
    pub within : st.spent ≤ budget → later.spent ≤ budget
    pub smaller : weight later.best_size ≤ℤ weight st.best_size
    pub real : IsReal st → IsReal later

  same-IsProgress : (st : Search F) → IsProgress false st st
  same-IsProgress st = record {
    spends = omega arith;
    spends_more = λ e. ground arith;
    within = λ h. h;
    smaller = omega arith;
    real = λ h. h;
  }

  IsProgress-trans :
      (a b : Bool) (x y z : Search F)
      → IsProgress a x y
      → IsProgress b y z
      → IsProgress (a || b) x z
  IsProgress-trans a b x y z p q = record {
    spends = omega (arith, p.spends, q.spends);
    spends_more = λ e. ground (arith, p.spends, q.spends, p.spends_more, q.spends_more);
    within = λ h. q.within (p.within h);
    smaller = omega (arith, p.smaller, q.smaller);
    real = λ h. q.real (p.real h);
  }

  tried-IsProgress :
      (st : Search F)
      → leb budget st.spent ≡ false
      → IsProgress false st (record st { spent = suc st.spent })
  tried-IsProgress st left = record {
    spends = omega arith;
    spends_more = λ e. ground arith;
    within = λ h. ground arith;
    smaller = omega arith;
    real = λ h. h;
  }

  accept-IsProgress :
      (c : Scenario F) (st : Search F)
      → IsProgress (accept execute target budget c st).0 st (accept execute target budget c st).1
  unfolding accept
  accept-IsProgress c st = elim (Bool-cases (leb budget st.spent)) [
    | inl spent ↦ rw spent (same-IsProgress st)
    | inr left ↦ elim (Bool-cases (fails_the_same_way (execute c) target)) [
      | inr passes ↦ rw left (rw passes (tried-IsProgress st left))
      | inl fails ↦ elim (Bool-cases (leb_ℤ (weight st.best_size) (weight (size_of (execute c))))) [
        | inl heavy ↦ rw left (rw fails (rw heavy (tried-IsProgress st left)))
        | inr light ↦ rw left (
            rw fails (
              rw light (record {
                spends = omega arith;
                spends_more = λ e. omega arith;
                within = λ h. ground arith;
                smaller = ground arith;
                real = λ h. (refl, fails);
              })))
      ]
    ]
  ]

  or_next :
      (next : Bool × Search F) (st : Search F) (a : Bool × Search F)
      → IsProgress a.0 st a.1
      → IsProgress next.0 a.1 next.1
      → let taken : Bool × Search F = elim a.0 [ true ↦ (true, a.1) | false ↦ next ] in
        IsProgress taken.0 st taken.1
  or_next next st (true, st') p q = p
  or_next next st (false, st') p q = IsProgress-trans false next.0 st st' next.1 p q

  try_all-IsProgress :
      (cs : List (Scenario F)) (st : Search F)
      → IsProgress
          (try_all execute target budget cs st).0
          st
          (try_all execute target budget cs st).1
  unfolding try_all
  try_all-IsProgress [] st = same-IsProgress st
  try_all-IsProgress (c ∷ cs) st =
      let a = accept execute target budget c st in
      or_next (try_all execute target budget cs a.1) st a (accept-IsProgress c st)
        (try_all-IsProgress cs a.1)

  try_moves-IsProgress :
      (moves : List (Move F)) (st : Search F)
      → IsProgress
          (try_moves execute target budget moves st).0
          st
          (try_moves execute target budget moves st).1
  unfolding try_moves
  try_moves-IsProgress [] st = same-IsProgress st
  try_moves-IsProgress (move ∷ moves) st =
      let a = try_all execute target budget (move st.best target.key) st in
      IsProgress-trans a.0 (try_moves execute target budget moves a.1).0 st a.1
        (try_moves execute target budget moves a.1).1
        (try_all-IsProgress (move st.best target.key) st) (try_moves-IsProgress moves a.1)

  -- Whatever the moves, `delete` ends with a scenario
  pub delete-IsReal :
      (fuel : ℕ) (moves : List (Move F)) (st : Search F)
      → IsReal st
      → st.spent ≤ budget
      → let later = delete execute target budget fuel moves st in
        IsReal later × (weight later.best_size ≤ℤ weight st.best_size) × (later.spent ≤ budget)
  unfolding delete
  delete-IsReal zero moves st r h = (r, omega arith, h)
  delete-IsReal (suc fuel) moves st r h =
      let a = try_moves execute target budget moves st in
      let p = try_moves-IsProgress moves st in
      let rest = delete-IsReal fuel moves a.1 (p.real r) (p.within h) in
      elim (Bool-cases (ltb st.spent budget)) [
        | inr over ↦ rw over (r, omega arith, h)
        | inl under ↦ rw under (elim (Bool-cases a.0) [
          | inl changed ↦ rw changed (rest.0, omega (arith, rest.1, p.smaller), rest.2)
          | inr stuck ↦ rw stuck (p.real r, p.smaller, p.within h)
        ])
      ]

  delete-step :
      (fuel : ℕ) (moves : List (Move F)) (st : Search F)
      → let a = try_moves execute target budget moves st in
        delete execute target budget (suc fuel) moves st ≡ (
          if ltb st.spent budget
          then (if a.0 then delete execute target budget fuel moves a.1 else a.1)
          else st)
  unfolding delete
  delete-step fuel moves st = refl

  in_branch :
      {x y : Search F} (d e : Search F) (a b : Bool)
      → (a ≡ true → b ≡ true → x ≡ y)
      → (if a then (if b then x else d) else e) ≡ (if a then (if b then y else d) else e)
  in_branch d e true true h = h refl refl
  in_branch d e true false h = refl
  in_branch d e false b h = refl

  -- Once the fuel and what is spent exceed the budget, more fuel changes nothing: the loop of the
  -- deletion phase has ended.
  pub delete_enough :
      (fuel : ℕ) (moves : List (Move F)) (st : Search F)
      → budget < st.spent + fuel
      → delete execute target budget (suc fuel) moves st
        ≡ delete execute target budget fuel moves st
  unfolding delete
  delete_enough zero moves st h = delete-step 0 moves st ∙ (rw (not_of_le (omega arith)) refl)
    where
      not_of_le : budget ≤ st.spent → ltb st.spent budget ≡ false
      not_of_le k = ground arith
  delete_enough (suc fuel) moves st h =
      let a = try_moves execute target budget moves st in
      delete-step (suc fuel) moves st
      ∙ (in_branch a.1 st (ltb st.spent budget) a.0 (λ _ changed.
            delete_enough fuel moves a.1
              (omega (arith, (try_moves-IsProgress moves st).spends_more changed)))
          ∙ sym (delete-step fuel moves st))

  pin-IsReal : (st : Search F) → IsReal st → IsReal (pin execute target st)
  pin-IsReal st r = ground arith

  pin-size : (st : Search F) → (pin execute target st).best_size ≡ st.best_size
  pin-size st = ground arith

  pin-spent : (st : Search F) → (pin execute target st).spent ≡ st.spent
  pin-spent st = ground arith

  -- When the pinned original reproduces the failure, so does the scenario that the reducer ends
  -- with, whatever the moves and the shapes, with the verdict of its own run; the reported size
  -- weighs no more than the pinned original, and no more candidates are tried than the budget
  -- allows.
  pub shrink_from_fails :
      (shapes : Option Text → Scenario F → List (Scenario F)) (moves : List (Move F))
      (scenario : Scenario F) (original : Run F)
      → fails_the_same_way (execute (pinned original)) target ≡ true
      → let reduction = shrink_from execute shapes moves scenario budget original target in
        (fails_the_same_way (execute reduction.reduced) target ≡ true)
        × (reduction.verdict ≡ (execute reduction.reduced).verdict)
        × (weight reduction.reduced_size ≤ℤ weight (size_of (execute (pinned original))))
        × (reduction.candidates ≤ budget)
  shrink_from_fails shapes moves scenario original h =
      let first = execute (pinned original) in
      let started : Search F = record {
        best = pinned original;
        best_run = first;
        best_size = size_of first;
        spent = 0;
      } in
      let deleted = delete execute target budget (suc budget) moves started in
      let (real, lighter, within) =
        delete-IsReal (suc budget) moves started (refl, h) (omega arith) in
      let p = try_all-IsProgress (shapes target.key scenario) deleted in
      let found = rebuild execute target budget (shapes target.key scenario) deleted in
      let (run, fails) = pin-IsReal found.1 (p.real real) in
      (
        ap (λ (r : Run F). fails_the_same_way r target) run ∙ fails,
        ap (λ (r : Run F). r.verdict) (sym run),
        rw (pin-size found.1) (omega (arith, p.smaller, lighter)),
        rw (pin-spent found.1) (p.within within),
      )

-- ===== src/Sim/Rng/Choices.antt =====
-- What `choice` picks.
use cassette.Base.{
  ℕ, zero, suc, ◌≤◌, ◌≡◌, refl, inl, inr, true, some, List, [], ◌∷◌, arith, ltb, length, get_elem?,
  In, ℤ, pos, negsuc, ◌-ℤ◌, ◌≤ℤ◌, ◌<ℤ◌, -ℤ_parts,
}
use cassette.Sim.Rng.{Source, place, at, choice}
use cassette.Sim.Rng.Draws.{IsUnit, draws, randint_bounds, get_elem?_of_lt}

In_of_get_elem? : {A : Type 0} (xs : List A) (i : ℕ) (a : A) → get_elem? xs i ≡ some a → In a xs
In_of_get_elem? [] i a h = absurd (ground arith)
In_of_get_elem? (x ∷ xs) zero a h = inl (let p : some x ≡ some a = h in cc)
In_of_get_elem? (x ∷ xs) (suc i) a h = inr (In_of_get_elem? xs i a h)

at_place :
    {A : Type 0} (xs : List A) (i : ℤ)
    → pos 0 ≤ℤ i
    → i <ℤ pos (length xs)
    → (a : A) × (at xs i ≡ some a) × In a xs
unfolding at place
at_place xs (pos i) from to =
    let (a, there) = get_elem?_of_lt xs i (omega (arith, to)) in
    let inside : ltb i (length xs) ≡ true = ground arith in
    (a, rw (inside, at, place) there, In_of_get_elem? xs i a there)
at_place xs (negsuc i) from to = absurd (omega (arith, from))

module _ (R : Source) (unit : IsUnit R) where
  -- Of a list that is not empty, `choice` gives an element on one draw.
  pub choice-In :
      {A : Type 0} (xs : List A) (g : R.State)
      → 1 ≤ length xs
      → (a : A) × (choice R xs g ≡ some (a, draws R 1 g)) × In a xs
  unfolding choice
  choice-In xs g h =
      let (i, e, from, to) =
        randint_bounds R unit (pos 0) (pos (length xs) -ℤ pos 1) g
          (ground (arith, -ℤ_parts (pos (length xs)) (pos 1))) in
      let (a, there, inside) =
        at_place xs i from (omega (arith, to, -ℤ_parts (pos (length xs)) (pos 1), h)) in
      (a, rw (e, choice) (rw there refl), inside)

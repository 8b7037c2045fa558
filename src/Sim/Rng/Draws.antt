-- ===== src/Sim/Rng/Draws.antt =====
-- What is drawn: a number of the range, an order of the list, a part of the population.
use cassette.Base.{
  ℕ, zero, suc, ◌+◌, ◌-◌, ◌≤◌, ◌<◌, ◌≡◌, refl, ap, ◌∙◌, ◌⊎◌, inl, Bool, some, List, [], ◌∷◌, arith,
  length, get_elem?, set, take, keep, ℤ, pos, negsuc, ◌+ℤ◌, ◌-ℤ◌, ◌≤ℤ◌, ◌<ℤ◌, +ℤ_parts, -ℤ_parts,
}
use cassette.Sim.Rng.{Source, place, swap, randint, shuffle_from, shuffle, sample_from, sample}

-- `random()` lies in [0, 1), so `int(random() * n)` is one of 0, …, n - 1.
abbrev pub IsUnit : Source → Type 0
IsUnit R =
    (g : R.State) (n : ℤ)
    → pos 0 <ℤ n
    → (pos 0 ≤ℤ R.scaled (R.random g).0 n) × (R.scaled (R.random g).0 n <ℤ n)

-- How many elements pass a test.
abbrev pub count {ℓ} : {A : Type ℓ} → (A → Bool) → List A → ℕ
count p xs = length (keep p xs)

module _ {ℓ} {A : Type ℓ} where
  pub get_elem?_of_lt : (xs : List A) (i : ℕ) → i < length xs → (a : A) × (get_elem? xs i ≡ some a)
  get_elem?_of_lt [] i h = absurd (omega arith)
  get_elem?_of_lt (x ∷ xs) zero h = (x, refl)
  get_elem?_of_lt (x ∷ xs) (suc i) h = get_elem?_of_lt xs i (omega arith)

  get_elem?-set :
      (xs : List A) (i j : ℕ) (b : A) → get_elem? xs j ≡ some b → get_elem? (set xs i b) j ≡ some b
  get_elem?-set [] i j b h = h
  get_elem?-set (x ∷ xs) zero zero b h = refl
  get_elem?-set (x ∷ xs) zero (suc j) b h = h
  get_elem?-set (x ∷ xs) (suc i) zero b h = h
  get_elem?-set (x ∷ xs) (suc i) (suc j) b h = get_elem?-set xs i j b h

  length-set : (xs : List A) (i : ℕ) (b : A) → length (set xs i b) ≡ length xs
  length-set [] i b = refl
  length-set (x ∷ xs) zero b = refl
  length-set (x ∷ xs) (suc i) b = ap suc (length-set xs i b)

  count-set :
      (p : A → Bool) (xs : List A) (i : ℕ) (a b : A)
      → get_elem? xs i ≡ some a
      → count p (set xs i b) + count p (a ∷ []) ≡ count p xs + count p (b ∷ [])
  count-set p [] i a b h = absurd (ground arith)
  count-set p (x ∷ xs) zero a b h = ground arith
  count-set p (x ∷ xs) (suc i) a b h = ground (arith, count-set p xs i a b h)

  -- The same elements, each as often, in some order.
  pub record IsReordering (xs ys : List A) : Type ℓ where
    pub same_length : length ys ≡ length xs
    pub same_count : (p : A → Bool) → count p ys ≡ count p xs

  swap-some :
      (xs : List A) (i j : ℕ) (a b : A)
      → get_elem? xs i ≡ some a
      → get_elem? xs j ≡ some b
      → swap xs i j ≡ some (set (set xs i b) j a)
  unfolding swap
  swap-some xs i j a b p q = ground arith

  swap-IsReordering :
      (xs : List A) (i j : ℕ)
      → i < length xs
      → j < length xs
      → (ys : List A) × (swap xs i j ≡ some ys) × IsReordering xs ys
  swap-IsReordering xs i j h k =
      let (a, p) = get_elem?_of_lt xs i h in
      let (b, q) = get_elem?_of_lt xs j k in
      (
        set (set xs i b) j a,
        swap-some xs i j a b p q,
        record {
          same_length = length-set (set xs i b) j a ∙ length-set xs i b;
          same_count = λ t. omega (
            arith,
            count-set t xs i a b p,
            count-set t (set xs i b) j b a (get_elem?-set xs i j b q),
          );
        },
      )

-- `n` draws.
abbrev pub draws : (R : Source) → ℕ → R.State → R.State
draws R zero g = g
draws R (suc n) g = draws R n (R.random g).1

module _ (R : Source) (unit : IsUnit R) where
  -- With a source of floats in [0, 1), `randint` on a range that is not empty gives, on one draw,
  -- a number of the range.
  pub randint_bounds :
      (low high : ℤ) (g : R.State)
      → low ≤ℤ high
      → (n : ℤ) × (randint R low high g ≡ some (n, draws R 1 g)) × (low ≤ℤ n) × (n ≤ℤ high)
  unfolding randint
  randint_bounds low high g h =
      let width = high -ℤ low +ℤ pos 1 in
      let x = R.scaled (R.random g).0 width in
      let diff = -ℤ_parts high low in
      let wide = +ℤ_parts (high -ℤ low) (pos 1) in
      let sum = +ℤ_parts low x in
      let (from, below) = unit g width (ground (arith, diff, wide)) in
      (low +ℤ x, ground arith, ground (arith, sum, from), ground (arith, sum, wide, diff, below))

  place_in :
      (low n : ℕ) (j : ℤ)
      → pos low ≤ℤ j
      → j <ℤ pos n
      → (k : ℕ) × (place n j ≡ some k) × (low ≤ k) × (k < n)
  unfolding place
  place_in low n (pos k) h l = (k, ground arith, omega arith, omega arith)
  place_in low n (negsuc k) h l = absurd (omega arith)

  -- A drawn number of a range within a list is a place of it.
  drawn_place :
      (low n : ℕ) (high : ℤ) (g : R.State)
      → pos low ≤ℤ high
      → high <ℤ pos n
      → (k : ℕ) × (j : ℤ) × (randint R (pos low) high g ≡ some (j, draws R 1 g))
        × (place n j ≡ some k)
        × (low ≤ k)
        × (k < n)
  drawn_place low n high g h l =
      let (j, drawn, from, to) = randint_bounds (pos low) high g h in
      let (k, there, k_from, k_to) = place_in low n j from (omega arith) in
      (k, j, drawn, there, k_from, k_to)

module _ {ℓ} (R : Source) (unit : IsUnit R) {A : Type ℓ} where
  shuffle_from-step :
      (i : ℕ) (xs : List A) (g : R.State) {j : ℤ} {later : R.State} {k : ℕ} {zs : List A}
      → randint R (pos 0) (pos (suc i)) g ≡ some (j, later)
      → place (length xs) j ≡ some k
      → swap xs (suc i) k ≡ some zs
      → shuffle_from R (suc i) xs g ≡ shuffle_from R i zs later
  unfolding shuffle_from
  shuffle_from-step i xs g drawn there swapped = rw (drawn, there, swapped, shuffle_from) refl

  sample_from-step :
      (n i : ℕ) (xs : List A) (g : R.State) {j : ℤ} {later : R.State} {k : ℕ} {zs : List A}
      → randint R (pos i) (pos (length xs) -ℤ pos 1) g ≡ some (j, later)
      → place (length xs) j ≡ some k
      → swap xs i k ≡ some zs
      → sample_from R (suc n) i xs g ≡ sample_from R n (suc i) zs later
  unfolding sample_from
  sample_from-step n i xs g drawn there swapped = rw (drawn, there, swapped, sample_from) refl

  shuffle_from-IsReordering :
      (i : ℕ) (xs : List A) (g : R.State)
      → i < length xs ⊎ (i ≡ 0)
      → (ys : List A) × (shuffle_from R i xs g ≡ some (ys, draws R i g)) × IsReordering xs ys
  unfolding shuffle_from
  shuffle_from-IsReordering zero xs g h =
      (xs, refl, record { same_length = refl; same_count = λ p. refl })
  shuffle_from-IsReordering (suc i) xs g h =
      let in_list : suc i < length xs = ground arith in
      let (k, j, drawn, there, k_from, k_to) =
        drawn_place R unit 0 (length xs) (pos (suc i)) g (omega arith) (omega arith) in
      let (zs, swapped, r) = swap-IsReordering xs (suc i) k in_list k_to in
      let (ys, rest, t) =
        shuffle_from-IsReordering i zs (R.random g).1 (inl (omega (arith, r.same_length))) in
      (
        ys,
        shuffle_from-step i xs g drawn there swapped ∙ rest,
        record {
          same_length = t.same_length ∙ r.same_length;
          same_count = λ p. t.same_count p ∙ r.same_count p;
        },
      )

  -- With a source of floats in [0, 1), `shuffle` does not fail, takes one draw for each element
  -- but the first, and keeps every element as often as it was.
  pub shuffle-IsReordering :
      (xs : List A) (g : R.State)
      → (ys : List A) × (shuffle R xs g ≡ some (ys, draws R (length xs - 1) g)) × IsReordering xs ys
  unfolding shuffle
  shuffle-IsReordering xs g = shuffle_from-IsReordering (length xs - 1) xs g (ground arith)

  sample_from-IsReordering :
      (n i : ℕ) (xs : List A) (g : R.State)
      → i + n ≤ length xs
      → (ys : List A) × (sample_from R n i xs g ≡ some (ys, draws R n g)) × IsReordering xs ys
  unfolding sample_from
  sample_from-IsReordering zero i xs g h =
      (xs, refl, record { same_length = refl; same_count = λ p. refl })
  sample_from-IsReordering (suc n) i xs g h =
      let last = -ℤ_parts (pos (length xs)) (pos 1) in
      let (k, j, drawn, there, k_from, k_to) =
        drawn_place R unit i (length xs) (pos (length xs) -ℤ pos 1) g (omega (arith, last))
          (omega (arith, last)) in
      let (zs, swapped, r) = swap-IsReordering xs i k (omega arith) k_to in
      let (ys, rest, t) =
        sample_from-IsReordering n (suc i) zs (R.random g).1 (omega (arith, r.same_length)) in
      (
        ys,
        sample_from-step n i xs g drawn there swapped ∙ rest,
        record {
          same_length = t.same_length ∙ r.same_length;
          same_count = λ p. t.same_count p ∙ r.same_count p;
        },
      )

  length-take : (n : ℕ) (xs : List A) → n ≤ length xs → length (take n xs) ≡ n
  length-take zero xs h = refl
  length-take (suc n) [] h = absurd (omega arith)
  length-take (suc n) (x ∷ xs) h = ap suc (length-take n xs (omega arith))

  count-take : (p : A → Bool) (n : ℕ) (xs : List A) → count p (take n xs) ≤ count p xs
  count-take p zero xs = omega arith
  count-take p (suc n) [] = omega arith
  count-take p (suc n) (x ∷ xs) = ground (arith, count-take p n xs)

  -- With a source of floats in [0, 1), `sample` of no more elements than there are does not fail,
  -- takes one draw for each, gives as many as asked, and draws no element more often than the
  -- population has it.
  pub sample_distinct :
      (n : ℕ) (xs : List A) (g : R.State)
      → n ≤ length xs
      → (ys : List A) × (sample R xs (pos n) g ≡ some (ys, draws R n g))
        × (length ys ≡ n)
        × ((p : A → Bool) → count p ys ≤ count p xs)
  unfolding sample
  sample_distinct n xs g h =
      let (zs, run, r) = sample_from-IsReordering n 0 xs g (omega arith) in
      (
        take n zs,
        rw run (ground arith),
        length-take n zs (omega (arith, r.same_length)),
        λ p. omega (arith, count-take p n zs, r.same_count p),
      )

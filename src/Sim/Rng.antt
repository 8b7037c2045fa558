-- ===== src/Sim/Rng.antt =====
-- cassette/sim/rng.py: the random source of a run. `none` is a `ValueError` or an `IndexError`.
pub mod Draws
pub mod Choices
use cassette.Base.{
  ℕ, zero, suc, ◌+◌, ◌-◌, ◌*◌, ◌≤◌, ◌<◌, ◌≡◌, refl, sym, ap, subst, ◌∙◌, ◌≢◌, ◌↔◌, ◌⊎◌, inl, inr,
  ite, dite, if_pos, if_neg, Bool, true, false, not, ◌&&◌, ◌||◌, Option, none, some, List, [], ◌∷◌,
  ◌++◌, map, arith, ltb, leb, ◌==◌, if◌then◌else◌, holds, is_some, Bool-cases, Option-cases,
  if-elim, holds→, ltb→lt, length, get_elem?, set, take, drop, any, all, keep, length-append,
  length-keep-le, length-map, All, All-append, In, In-keep, In_of_keep, keep-ext, all-ext,
  all_of_In, In_of_all, not_of_any, any_of_none, length-keep_mono, length-keep-lt, In-map,
  In_of_map, ℕ_discrete, ℤ, pos, negsuc, ℤ_discrete, pos_part, neg_part, sub_ℕ, ◌+ℤ◌, ◌-ℤ◌, ◌≤ℤ◌,
  ◌<ℤ◌, ltb_ℤ, leb_ℤ, max_ℤ, +ℤ_parts, -ℤ_parts, eq_of_parts, int_laws, range_from, range, Dict,
  lookup, insert, remove, lookup-insert, lookup-remove, length-insert, member, add, discard,
  member-add, member-discard, HasDistinctKeys, insert-HasDistinctKeys, remove-HasDistinctKeys,
  IsDistinct, add-IsDistinct, length-discard-le, length-discard, length-le_of_subset, Text, text,
  text_discrete, leb_text, show_ℕ, show_ℤ, read_ℤ, read_ℤ-show_ℤ, after_colon,
}

-- `random.Random` and the float operations on what it draws, which are not the repository's code:
-- its state, `random()`, `x < y` and `int(x * n)`.
pub record Source : Type 1 where
  pub State : Type 0
  pub Float : Type 0
  pub random : State → Float × State
  pub less : Float → Float → Bool
  pub scaled : Float → ℤ → ℤ

-- The place that an index names: a negative one counts from the end.
unfoldable pub place : ℕ → ℤ → Option ℕ
place n (pos i) = if ltb i n then some i else none
place n (negsuc i) = if ltb i n then some (n - suc i) else none

-- `xs[i]`
unfoldable pub at {ℓ} : {A : Type ℓ} → List A → ℤ → Option A
at xs i = elim (place (length xs) i) [ none ↦ none | some k ↦ get_elem? xs k ]

-- `xs[i], xs[j] = xs[j], xs[i]`
unfoldable pub swap {ℓ} : {A : Type ℓ} → List A → ℕ → ℕ → Option (List A)
swap xs i j = elim (get_elem? xs j) [
  | none ↦ none
  | some b ↦ elim (get_elem? xs i) [ none ↦ none | some a ↦ some (set (set xs i b) j a) ]
]

module _ (R : Source) where
  unfoldable pub chance : R.Float → R.State → Bool × R.State
  chance probability g = (R.less (R.random g).0 probability, (R.random g).1)

  unfoldable pub randint : ℤ → ℤ → R.State → Option (ℤ × R.State)
  randint low high g =
      if ltb_ℤ high low
      then none
      else some (low +ℤ R.scaled (R.random g).0 (high -ℤ low +ℤ pos 1), (R.random g).1)

  unfoldable pub choice {ℓ} : {A : Type ℓ} → List A → R.State → Option (A × R.State)
  choice population g = elim (randint (pos 0) (pos (length population) -ℤ pos 1) g) [
    | none ↦ none
    | some (i, g') ↦ elim (at population i) [ none ↦ none | some a ↦ some (a, g') ]
  ]

  -- The loop of `shuffle`, down from `i`.
  pub shuffle_from {ℓ} : {A : Type ℓ} → ℕ → List A → R.State → Option (List A × R.State)
  shuffle_from zero items g = some (items, g)
  shuffle_from (suc i) items g = elim (randint (pos 0) (pos (suc i)) g) [
    | none ↦ none
    | some (j, g') ↦ elim (place (length items) j) [
      | none ↦ none
      | some k ↦ elim (swap items (suc i) k) [
        | none ↦ none
        | some items' ↦ shuffle_from i items' g'
      ]
    ]
  ]

  unfoldable pub shuffle {ℓ} : {A : Type ℓ} → List A → R.State → Option (List A × R.State)
  shuffle items g = shuffle_from (length items - 1) items g

  -- The loop of `sample`, up from `i`, with `n` elements still to draw.
  unfoldable pub sample_from {ℓ} :
      {A : Type ℓ} → ℕ → ℕ → List A → R.State → Option (List A × R.State)
  sample_from zero i pool g = some (pool, g)
  sample_from (suc n) i pool g = elim (randint (pos i) (pos (length pool) -ℤ pos 1) g) [
    | none ↦ none
    | some (j, g') ↦ elim (place (length pool) j) [
      | none ↦ none
      | some k ↦ elim (swap pool i k) [ none ↦ none | some pool' ↦ sample_from n (suc i) pool' g' ]
    ]
  ]

  unfoldable pub sample {ℓ} : {A : Type ℓ} → List A → ℤ → R.State → Option (List A × R.State)
  sample population (negsuc size) g = none
  sample population (pos size) g =
      if ltb (length population) size then none else elim (sample_from size 0 population g) [
        | none ↦ none
        | some (pool, g') ↦ some (take size pool, g')
      ]

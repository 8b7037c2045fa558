-- ===== src/Base/Dicts.antt =====
-- Python's `dict` and `set` over keys with a decidable equality, in insertion order.
use Prim.Native.Nat.{suc, ◌≤◌, ◌<◌}
use mathlib.Core.Path.{◌≡◌, refl}
use mathlib.Core.Logic.{ite}
use mathlib.Core.Bool.{Bool, true, false}
use mathlib.Core.Option.{Option, none, some}
use mathlib.Core.List.{List, [], ◌∷◌}
use native.Mathlib.Omega.{arith}
use cassette.Base.Tests.{if◌then◌else◌, is_some}
use cassette.Base.Lists.{length}

abbrev pub Dict {ℓ} : Type ℓ → Type ℓ → Type ℓ
Dict K V = List (K × V)

module _ {ℓ} {K V : Type ℓ} (dec : Discrete K) where
  -- `d.get(k)`
  unfoldable pub lookup : K → Dict K V → Option V
  lookup k [] = none
  lookup k ((j, v) ∷ d) = ite (dec j k) (some v) (lookup k d)

  -- `d[k] = v`: a key that is there keeps its place.
  unfoldable pub insert : K → V → Dict K V → Dict K V
  insert k v [] = (k, v) ∷ []
  insert k v ((j, w) ∷ d) = ite (dec j k) ((j, v) ∷ d) ((j, w) ∷ insert k v d)

  -- `del d[k]`, `d.pop(k, None)`
  unfoldable pub remove : K → Dict K V → Dict K V
  remove k [] = []
  remove k ((j, w) ∷ d) = let rest = remove k d in ite (dec j k) rest ((j, w) ∷ rest)

  pub lookup-insert :
      (k j : K) (v : V) (d : Dict K V)
      → lookup j (insert k v d) ≡ ite (dec k j) (some v) (lookup j d)
  unfolding lookup insert
  lookup-insert k j v [] = refl
  lookup-insert k j v (e ∷ d) = ground (arith, lookup-insert k j v d)

  pub lookup-remove :
      (k j : K) (d : Dict K V) → lookup j (remove k d) ≡ ite (dec k j) none (lookup j d)
  unfolding lookup remove
  lookup-remove k j [] = ground arith
  lookup-remove k j (e ∷ d) = ground (arith, lookup-remove k j d)

  pub length-insert :
      (k : K) (v : V) (d : Dict K V)
      → length (insert k v d) ≡ (if is_some (lookup k d) then length d else suc (length d))
  unfolding lookup insert
  length-insert k v [] = refl
  length-insert k v (e ∷ d) = ground (arith, length-insert k v d)

module _ {K : Type 0} (dec : Discrete K) where
  -- `k in s`
  unfoldable pub member : K → List K → Bool
  member k [] = false
  member k (x ∷ s) = ite (dec x k) true (member k s)

  -- `s.add(k)`
  unfoldable pub add : K → List K → List K
  add k s = if member k s then s else k ∷ s

  -- `s.discard(k)`
  unfoldable pub discard : K → List K → List K
  discard k [] = []
  discard k (x ∷ s) = let rest = discard k s in ite (dec x k) rest (x ∷ rest)

  pub member-add : (k j : K) (s : List K) → member j (add k s) ≡ ite (dec k j) true (member j s)
  unfolding member add
  member-add k j s = ground arith

  pub member-discard :
      (k j : K) (s : List K) → member j (discard k s) ≡ ite (dec k j) false (member j s)
  unfolding member discard
  member-discard k j [] = ground arith
  member-discard k j (x ∷ s) = ground (arith, member-discard k j s)

-- The keys of a dict are distinct, and so are the elements of a set.
module _ {ℓ} {K V : Type ℓ} (dec : Discrete K) where
  abbrev pub HasDistinctKeys : Dict K V → Type ℓ
  HasDistinctKeys [] = Unit
  HasDistinctKeys ((k, v) ∷ d) = (lookup dec k d ≡ none) × HasDistinctKeys d

  pub insert-HasDistinctKeys :
      (k : K) (v : V) (d : Dict K V) → HasDistinctKeys d → HasDistinctKeys (insert dec k v d)
  unfolding insert lookup
  insert-HasDistinctKeys k v [] h = (refl, tt)
  insert-HasDistinctKeys k v (e ∷ d) h =
      ground (arith, insert-HasDistinctKeys k v d h.1, lookup-insert dec k e.0 v d)

  pub remove-HasDistinctKeys :
      (k : K) (d : Dict K V) → HasDistinctKeys d → HasDistinctKeys (remove dec k d)
  unfolding remove lookup
  remove-HasDistinctKeys k [] h = tt
  remove-HasDistinctKeys k (e ∷ d) h =
      ground (arith, remove-HasDistinctKeys k d h.1, lookup-remove dec k e.0 d)

module _ {K : Type 0} (dec : Discrete K) where
  abbrev pub IsDistinct : List K → Type 0
  IsDistinct [] = Unit
  IsDistinct (x ∷ s) = (member dec x s ≡ false) × IsDistinct s

  pub add-IsDistinct : (k : K) (s : List K) → IsDistinct s → IsDistinct (add dec k s)
  unfolding add
  add-IsDistinct k s h = ground arith

  pub length-discard-le : (k : K) (s : List K) → length (discard dec k s) ≤ length s
  unfolding discard
  length-discard-le k [] = omega arith
  length-discard-le k (x ∷ s) = ground (arith, length-discard-le k s)

  pub length-discard :
      (k : K) (s : List K) → member dec k s ≡ true → length (discard dec k s) < length s
  unfolding discard member
  length-discard k [] h = cc
  length-discard k (x ∷ s) h = ground (arith, length-discard k s, length-discard-le k s)

  -- A set without repetitions is at most as long as a list that holds its elements.
  pub length-le_of_subset :
      (xs zs : List K)
      → IsDistinct xs
      → ((k : K) → member dec k xs ≡ true → member dec k zs ≡ true)
      → length xs ≤ length zs
  unfolding member
  length-le_of_subset [] zs d h = omega arith
  length-le_of_subset (x ∷ xs) zs d h = omega (
    arith,
    length-discard x zs (h x (ground arith)),
    length-le_of_subset xs (discard dec x zs) d.1 λ k m. rw member-discard (ground (arith, h k)),
  )

-- ===== src/Checker/Search/Correct.antt =====
-- What the answer of a search means for its history.
use cassette.Base.{
  ℕ, suc, ◌≡◌, refl, sym, ◌∙◌, ◌≢◌, ◌⊎◌, inl, inr, not, List, [], ◌∷◌, arith, length,
  length-keep-le, In,
}
use cassette.Checker.History.{Operation}
use cassette.Checker.Model.{absent}
use cassette.Checker.Linearizable.{Linearizable, HasOwnIndices}
use cassette.Checker.Search.{
  is_placed, covered, Answer, found, failed, exhausted, raised, unfinished, Memory, pending, table,
  required, walk, search_for, search,
}
use cassette.Checker.Search.Table.{In-table}
use cassette.Checker.Search.Paths.{walk-IsSound}
use cassette.Checker.Search.Complete.{walk-IsComplete}
use cassette.Checker.Search.Finishes.{walk-ne, IsOdd, IsKnown, apply-ne-none}
use cassette.Checker.Search.Lined.{IsLinearization-of_path}
use cassette.Checker.Search.Orders.{path_of_linearization}

-- The walk that a search with something to place starts.
abbrev start : Memory
start = record { seen = []; spent = 0 }

abbrev whole_walk : List Operation → ℕ → Answer × Memory
whole_walk ops budget =
    walk (table ops) (required ops) budget (suc (length (table ops))) [] absent start

-- The early return for a history with nothing to place is what the walk would answer.
search_for-walk :
    (needed : List ℕ) (ops : List Operation) (budget : ℕ)
    → search_for needed ops budget
      ≡ (walk (table ops) needed budget (suc (length (table ops))) [] absent start).0
unfolding search_for walk covered
search_for-walk [] ops budget = refl
search_for-walk (i ∷ is) ops budget = refl

search-walk : (ops : List Operation) (budget : ℕ) → search ops budget ≡ (whole_walk ops budget).0
unfolding search
search-walk ops budget = search_for-walk (required ops) ops budget

-- When `_search` answers `True` for operations with indices of their own, they have a
-- linearization.
pub search_sound :
    (ops : List Operation) (budget : ℕ)
    → HasOwnIndices ops
    → search ops budget ≡ found
    → Linearizable ops
search_sound ops budget own h =
    let (seq, p) =
      walk-IsSound (table ops) (required ops) budget (suc (length (table ops))) [] absent start
        (sym (search-walk ops budget) ∙ h) in
    (seq, IsLinearization-of_path ops seq own p)

-- When `_search` answers `False` for operations with indices of their own, they have no
-- linearization.
pub search_complete :
    (ops : List Operation) (budget : ℕ)
    → HasOwnIndices ops
    → search ops budget ≡ failed
    → ¬ Linearizable ops
search_complete ops budget own h (seq, l) =
    (walk-IsComplete (table ops) (required ops) budget (suc (length (table ops))) [] [] absent start
        (λ e i. absurd i) (λ e i. absurd i) (sym (search-walk ops budget) ∙ h)).0
      seq (path_of_linearization ops seq own l)

-- On operations of the known kinds a search comes to one of its three verdicts, for every budget:
-- it neither raises nor runs out of the model's fuel.
pub search-answers :
    (ops : List Operation) (budget : ℕ)
    → ((op : Operation) → In op ops → IsKnown op)
    → (search ops budget ≡ found) ⊎ (search ops budget ≡ failed) ⊎ (search ops budget ≡ exhausted)
search-answers ops budget known =
    verdict (search ops budget)
      (rw (search-walk ops budget) (ends unfinished ((λ e. cc), (λ e. cc), (λ e. cc))))
      (rw (search-walk ops budget) (ends raised ((λ e. cc), (λ e. cc), (λ e. cc))))
  where
    verdict :
        (a : Answer) → a ≢ unfinished → a ≢ raised → (a ≡ found) ⊎ (a ≡ failed) ⊎ (a ≡ exhausted)
    verdict found u r = inl refl
    verdict failed u r = inr (inl refl)
    verdict exhausted u r = inr (inr refl)
    verdict raised u r = absurd (r refl)
    verdict unfinished u r = absurd (u refl)

    ends : (bad : Answer) → IsOdd bad → (whole_walk ops budget).0 ≢ bad
    ends bad odd =
        walk-ne bad odd (table ops) (required ops) budget (suc (length (table ops))) [] absent start
          (λ op i v e. absurd (apply-ne-none op v (known op (In-table op ops i)) e))
          (unfold pending in
            omega
              (arith, length-keep-le (λ (q : Operation). not (is_placed [] q.index)) (table ops)))

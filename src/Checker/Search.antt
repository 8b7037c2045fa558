-- ===== src/Checker/Search.antt =====
-- `_search` of cassette/checker/linear.py: a depth-first search for a legal order, with the visited
-- (placed, state) pairs and the count of states threaded through it.
mod Paths
mod Complete
mod Sets
mod Table
mod Orders
mod Lined
pub mod Correct
pub mod Finishes
use cassette.Base.{
  ℕ, zero, suc, ◌+◌, ◌-◌, ◌*◌, ◌≤◌, ◌<◌, ◌≡◌, refl, sym, ap, subst, ◌∙◌, ◌≢◌, ◌↔◌, ◌⊎◌, inl, inr,
  ite, dite, if_pos, if_neg, Bool, true, false, not, ◌&&◌, ◌||◌, Option, none, some, List, [], ◌∷◌,
  ◌++◌, map, arith, ltb, leb, ◌==◌, if◌then◌else◌, holds, is_some, Bool-cases, Option-cases,
  if-elim, holds→, ltb→lt, length, get_elem?, set, take, drop, any, all, keep, length-append,
  length-keep-le, length-map, All, All-append, In, In-keep, In_of_keep, keep-ext, all-ext,
  all_of_In, In_of_all, not_of_any, any_of_none, length-keep_mono, length-keep-lt, In-map,
  In_of_map, ℕ_discrete, ℤ, pos, negsuc, ℤ_discrete, pos_part, neg_part, sub_ℕ, ◌+ℤ◌, ◌-ℤ◌, ◌≤ℤ◌,
  ◌<ℤ◌, ltb_ℤ, leb_ℤ, max_ℤ, +ℤ_parts, -ℤ_parts, eq_of_parts, int_laws, range_from, range, Dict,
  lookup, insert, remove, lookup-insert, lookup-remove, length-insert, member, add, discard,
  member-add, member-discard, HasDistinctKeys, insert-HasDistinctKeys, remove-HasDistinctKeys,
  IsDistinct, add-IsDistinct, length-discard-le, length-discard, length-le_of_subset, Text, text,
  text_discrete, leb_text, show_ℕ, show_ℤ, read_ℤ, read_ℤ-show_ℤ, after_colon,
}
use cassette.Kv.Version.{Value, Value-discrete}
use cassette.Checker.History.{Operation, completed, precedes}
use cassette.Checker.Model.{apply, matches, absent}

-- What a walk comes back with: `True`, `False`, `_EXHAUSTED`, the `ValueError` of `apply`, or that
-- the fuel of the model ran out.
pub data Answer : Type 0 where
  found failed exhausted raised unfinished : Answer

-- The variables that the walks share.
pub record Memory : Type 0 where
  pub seen : List (List ℕ × Value)
  pub spent : ℕ

-- `by_index` in the order of `sorted(by_index)`: of two operations with one index the later stays.
pub place : Operation → List Operation → List Operation
place op [] = op ∷ []
place op (q ∷ qs) =
    let rest = place op qs in
    if ltb op.index q.index then op ∷ q ∷ qs else if op.index == q.index then op ∷ qs else q ∷ rest

pub table_from : List Operation → List Operation → List Operation
table_from t [] = t
table_from t (op ∷ ops) = table_from (place op t) ops

unfoldable pub table : List Operation → List Operation
unfolding place table_from
table ops = table_from [] ops

-- The indices of the completed operations.
unfoldable pub required : List Operation → List ℕ
required ops = map (λ (op : Operation). op.index) (keep completed ops)

abbrev pub is_placed : List ℕ → ℕ → Bool
is_placed placed i = member ℕ_discrete i placed

-- `required <= placed`
unfoldable pub covered : List ℕ → List ℕ → Bool
covered needed placed = all (is_placed placed) needed

unfoldable pub pending : List Operation → List ℕ → List Operation
pending t placed = keep (λ (op : Operation). not (is_placed placed op.index)) t

-- Whether another pending operation provably finished before `op` started.
abbrev pub blocked : List Operation → Operation → Bool
blocked others op = any (λ (q : Operation). not (q.index == op.index) && precedes q op) others

unfoldable pub candidates : List Operation → List ℕ → List Operation
candidates t placed = keep (λ op. not (blocked (pending t placed) op)) (pending t placed)

-- Equality of two sets, and membership in `seen`.
unfoldable pub same_set : List ℕ → List ℕ → Bool
same_set a b = all (is_placed b) a && all (is_placed a) b

unfoldable pub visited : List ℕ → Value → List (List ℕ × Value) → Bool
visited placed state [] = false
visited placed state ((p, v) ∷ seen) =
    same_set p placed && holds (Value-discrete v state) || visited placed state seen

abbrev pub Walk : Type 0
Walk = List ℕ → Value → Memory → Answer × Memory

-- The loop goes on after a branch that failed, and returns any other answer.
abbrev pub otherwise : Answer × Memory → (Memory → Answer × Memory) → Answer × Memory
otherwise (failed, m) next = next m
otherwise (found, m) next = (found, m)
otherwise (exhausted, m) next = (exhausted, m)
otherwise (raised, m) next = (raised, m)
otherwise (unfinished, m) next = (unfinished, m)

-- The loop over the candidates, given the recursive call.
pub try_each : Walk → List ℕ → Value → List Operation → Memory → Answer × Memory
try_each go placed state [] m = (failed, m)
try_each go placed state (op ∷ ops) m = elim (apply state op) [
  | none ↦ (raised, m)
  | some (next, produced) ↦ elim (matches op produced) [
    | false ↦ try_each go placed state ops m
    | true ↦
        otherwise (go (add ℕ_discrete op.index placed) next m)
          (λ m'. try_each go placed state ops m')
  ]
]

module _ (t : List Operation) (needed : List ℕ) (budget : ℕ) where
  pub walk : ℕ → Walk
  walk zero placed state m = (unfinished, m)
  walk (suc fuel) placed state m =
      if covered needed placed
      then (found, m)
      else if ltb budget (m.spent + 1)
      then (exhausted, record m { spent = m.spent + 1 })
      else if visited placed state m.seen
      then (failed, record m { spent = m.spent + 1 })
      else try_each (walk fuel) placed state (candidates t placed)
          (record { seen = (placed, state) ∷ m.seen; spent = m.spent + 1 })

-- A walk places one more operation at each level, so the fuel is one more than their number.
pub search_for : List ℕ → List Operation → ℕ → Answer
unfolding walk try_each
search_for [] ops budget = found
search_for (i ∷ is) ops budget =
    (walk (table ops) (i ∷ is) budget (suc (length (table ops))) [] absent
      (record { seen = []; spent = 0 })).0

unfoldable pub search : List Operation → ℕ → Answer
unfolding search_for
search ops budget = search_for (required ops) ops budget

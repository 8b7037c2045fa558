-- ===== src/Checker/Linear.antt =====
-- cassette/checker/linear.py: the verdict on a history, key by key, and the operation to blame.
-- `none` is the `ValueError` of `apply` on an unknown kind.
pub mod Verdicts
pub mod Blamed
use cassette.Base.{
  ℕ, Bool, true, false, not, ◌&&◌, Option, none, some, List, [], ◌∷◌, leb, if◌then◌else◌, length,
  keep, ℤ, ltb_ℤ, leb_ℤ, Dict, Text,
}
use cassette.Checker.History.{Operation, unknown, completed, History, by_key}
use cassette.Checker.Search.{Answer, found, failed, exhausted, raised, unfinished, search}

-- Which text an explanation is: of the budget, of a key, or of the operation that is described.
pub data Explanation : Type 0 where
  budget_exhausted : Explanation
  no_legal_order : Text → Explanation
  cannot_be_placed : Operation → Explanation

pub record Verdict : Type 0 where
  pub linearizable : Bool
  pub key : Option Text
  pub operation : Option ℕ
  pub explanation : Option Explanation
  pub checked_operations : ℕ
  pub exhausted : Bool

unfoldable pub violated : Verdict → Bool
violated v = not v.linearizable && not v.exhausted

-- `_cut_at`: the history as it stood at `at_ms`.
unfoldable pub cut_at : List Operation → ℤ → List Operation
cut_at [] at_ms = []
cut_at (op ∷ ops) at_ms =
    let rest = cut_at ops at_ms in
    if ltb_ℤ at_ms op.invoked_ms
    then rest
    else if completed op && leb_ℤ op.returned_ms at_ms
    then op ∷ rest
    else (record op { outcome = unknown }) ∷ rest

-- `sorted` by `(op.returned_ms, op.index)`
abbrev comes_before : Operation → Operation → Bool
comes_before a b =
    if ltb_ℤ a.returned_ms b.returned_ms
    then true
    else if ltb_ℤ b.returned_ms a.returned_ms
    then false
    else leb a.index b.index

pub insert_completion : Operation → List Operation → List Operation
insert_completion op [] = op ∷ []
insert_completion op (q ∷ qs) =
    let rest = insert_completion op qs in if comes_before op q then op ∷ q ∷ qs else q ∷ rest

pub sort_completions : List Operation → List Operation
unfolding insert_completion
sort_completions [] = []
sort_completions (op ∷ ops) = insert_completion op (sort_completions ops)

-- The loop of `_blame`. An exhausted search counts as a failed one, for `not` sees it as false.
pub blame_from : List Operation → List Operation → ℕ → Option (Option Operation)
blame_from [] operations budget = some none
blame_from (op ∷ ops) operations budget =
    let rest = blame_from ops operations budget in
    elim (search (cut_at operations op.returned_ms) budget) [
      | found ↦ rest
      | failed ↦ some (some op)
      | exhausted ↦ some (some op)
      | raised ↦ none
      | unfinished ↦ none
    ]

unfoldable pub blame : List Operation → ℕ → Option (Option Operation)
unfolding blame_from sort_completions
blame operations budget =
    blame_from (sort_completions (keep completed operations)) operations budget

-- `_explain`
unfoldable pub explain : Text → Option Operation → Explanation
explain key none = no_legal_order key
explain key (some op) = cannot_be_placed op

abbrev index_of : Option Operation → Option ℕ
index_of none = none
index_of (some op) = some op.index

abbrev not_linearizable : Text → ℕ → Option (Option Operation) → Option Verdict
not_linearizable key count none = none
not_linearizable key count (some culprit) = some (record {
  linearizable = false;
  key = some key;
  operation = index_of culprit;
  explanation = some (explain key culprit);
  checked_operations = count;
  exhausted = false;
})

pub judge : Text → List Operation → ℕ → Answer → Option Verdict
judge key operations budget exhausted = some (record {
  linearizable = false;
  key = some key;
  operation = none;
  explanation = some budget_exhausted;
  checked_operations = 0;
  exhausted = true;
})
judge key operations budget found = some (record {
  linearizable = true;
  key = some key;
  operation = none;
  explanation = none;
  checked_operations = length operations;
  exhausted = false;
})
judge key operations budget failed =
    not_linearizable key (length operations) (blame operations budget)
judge key operations budget raised = none
judge key operations budget unfinished = none

unfoldable pub check_key : Text → List Operation → ℕ → Option Verdict
unfolding judge
check_key key operations budget = judge key operations budget (search operations budget)

-- The loop of `check`, over the keys in order.
abbrev report : Text → ℕ → Option Verdict → Option Verdict → Option Verdict
report key total none rest = none
report key total (some v) rest =
    if not v.linearizable
    then some (record {
      linearizable = false;
      key = some key;
      operation = v.operation;
      explanation = v.explanation;
      checked_operations = total;
      exhausted = v.exhausted;
    })
    else rest

pub check_keys : ℕ → Dict Text (List Operation) → ℕ → Option Verdict
check_keys total [] budget = some (record {
  linearizable = true;
  key = none;
  operation = none;
  explanation = none;
  checked_operations = total;
  exhausted = false;
})
check_keys total ((key, operations) ∷ rest) budget =
    let next = check_keys total rest budget in
    report key total (check_key key operations budget) next

unfoldable pub check : History → ℕ → Option Verdict
unfolding check_keys
check history budget = check_keys (length history) (by_key history) budget

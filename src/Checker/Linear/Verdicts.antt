-- ===== src/Checker/Linear/Verdicts.antt =====
-- What a verdict on a history means, key by key.
use cassette.Base.{
  ℕ, ◌≡◌, refl, sym, ap, subst, ◌∙◌, ◌≢◌, inl, inr, true, Option, none, some, List, [], ◌∷◌, arith,
  holds, Bool-cases, Option-cases, length, In_of_keep, Dict, lookup, HasDistinctKeys, Text,
  text_discrete,
}
use cassette.Checker.History.{Operation, History, by_key}
use cassette.Checker.History.Indexed.{IsIndexed, IsIndexed-HasOwnIndices}
use cassette.Checker.History.Keys.{on_key, or_none, lookup-by_key, by_key-HasDistinctKeys}
use cassette.Checker.Linearizable.{Linearizable, HasOwnIndices}
use cassette.Checker.Search.{Answer, found, failed, exhausted, raised, unfinished, search}
use cassette.Checker.Search.Correct.{search_sound, search_complete}
use cassette.Checker.Linear.{
  Verdict, violated, not_linearizable, judge, blame, check_key, check_keys, check,
}

judge_sound :
    (key : Text) (ops : List Operation) (budget : ℕ) (a : Answer) {v : Verdict}
    → judge key ops budget a ≡ some v
    → v.linearizable ≡ true
    → a ≡ found
unfolding judge
judge_sound key ops budget found e l = refl
judge_sound key ops budget failed {v} e l = absurd (go (blame ops budget) e)
  where
    go : (o : Option (Option Operation)) → not_linearizable key (length ops) o ≢ some v
    go none e = ground arith
    go (some c) e = ground arith
judge_sound key ops budget exhausted e l = ground arith
judge_sound key ops budget raised e l = ground arith
judge_sound key ops budget unfinished e l = ground arith

judge_complete :
    (key : Text) (ops : List Operation) (budget : ℕ) (a : Answer) {v : Verdict}
    → judge key ops budget a ≡ some v
    → violated v ≡ true
    → a ≡ failed
unfolding judge violated
judge_complete key ops budget found e l = ground arith
judge_complete key ops budget failed e l = refl
judge_complete key ops budget exhausted e l = ground arith
judge_complete key ops budget raised e l = ground arith
judge_complete key ops budget unfinished e l = ground arith

check_key_sound :
    (key : Text) (ops : List Operation) (budget : ℕ) {v : Verdict}
    → HasOwnIndices ops
    → check_key key ops budget ≡ some v
    → v.linearizable ≡ true
    → Linearizable ops
unfolding check_key
check_key_sound key ops budget own e l =
    search_sound ops budget own (judge_sound key ops budget (search ops budget) e l)

check_key_complete :
    (key : Text) (ops : List Operation) (budget : ℕ) {v : Verdict}
    → HasOwnIndices ops
    → check_key key ops budget ≡ some v
    → violated v ≡ true
    → ¬ Linearizable ops
unfolding check_key
check_key_complete key ops budget own e l =
    search_complete ops budget own (judge_complete key ops budget (search ops budget) e l)

check_keys_sound :
    (total : ℕ) (d : Dict Text (List Operation)) (budget : ℕ) {v : Verdict}
    → check_keys total d budget ≡ some v
    → v.linearizable ≡ true
    → (key : Text) (ops : List Operation) → lookup text_discrete key d ≡ some ops
    → HasOwnIndices ops
    → Linearizable ops
unfolding check_keys lookup
check_keys_sound total [] budget e l key ops there own = absurd (ground arith)
check_keys_sound total ((j, js) ∷ d) budget {v} e l key ops there own =
    elim (Option-cases (check_key j js budget)) [
      | inl raised_it ↦ absurd (ground arith)
      | inr (w, answer) ↦ elim (Bool-cases w.linearizable) [
        | inl good ↦ elim (text_discrete j key) [
          | yes same ↦
              let p : some js ≡ some ops = ground arith in
              let q : js ≡ ops = cc in
              subst (λ o. HasOwnIndices o → Linearizable o) q
                (λ mine. check_key_sound j js budget mine answer good) own
          | no other ↦
              check_keys_sound total d budget {v = v} (ground arith) l key ops (ground arith) own
        ]
        | inr bad ↦ absurd (ground arith)
      ]
    ]

-- A later key is not the key that stands before it.
lookup-later :
    (j : Text) (js : List Operation) (d : Dict Text (List Operation)) (k : Text)
    {ops : List Operation}
    → lookup text_discrete j d ≡ none
    → lookup text_discrete k d ≡ some ops
    → lookup text_discrete k ((j, js) ∷ d) ≡ some ops
unfolding lookup
lookup-later j js d k fresh there =
    ground (arith, λ (p : j ≡ k). ap (λ i. lookup text_discrete i d) p)

check_keys_complete :
    (total : ℕ) (d : Dict Text (List Operation)) (budget : ℕ) {v : Verdict}
    → HasDistinctKeys text_discrete d
    → ((key : Text) (ops : List Operation)
        → lookup text_discrete key d ≡ some ops
        → HasOwnIndices ops)
    → check_keys total d budget ≡ some v
    → violated v ≡ true
    → (key : Text) × (ops : List Operation) × (v.key ≡ some key)
      × (lookup text_discrete key d ≡ some ops)
      × (¬ Linearizable ops)
unfolding check_keys lookup violated
check_keys_complete total [] budget distinct own e l = absurd (ground arith)
check_keys_complete total ((j, js) ∷ d) budget {v} distinct own e l =
    elim (Option-cases (check_key j js budget)) [
      | inl raised_it ↦ absurd (ground arith)
      | inr (w, answer) ↦ elim (Bool-cases w.linearizable) [
        | inl good ↦
            let (key, ops, named, there, bad) =
              check_keys_complete total d budget {v = v} distinct.1
                (λ k os at. own k os (lookup-later j js d k distinct.0 at)) (ground arith) l in
            (key, ops, named, lookup-later j js d key distinct.0 there, bad)
        | inr bad ↦
            let head : lookup text_discrete j ((j, js) ∷ d) ≡ some js = ground arith in
            (
              j,
              js,
              ground arith,
              head,
              check_key_complete j js budget (own j js head) answer (ground arith),
            )
      ]
    ]

on_key-HasOwnIndices : (key : Text) (h : History) → IsIndexed 0 h → HasOwnIndices (on_key key h)
on_key-HasOwnIndices key h x a b i j =
    IsIndexed-HasOwnIndices 0 h x a b
      (In_of_keep (λ (op : Operation). holds (text_discrete op.key key)) a h i).0
      (In_of_keep (λ (op : Operation). holds (text_discrete op.key key)) b h j).0

entry-on_key :
    (h : History) (key : Text) {ops : List Operation}
    → lookup text_discrete key (by_key h) ≡ some ops
    → ops ≡ on_key key h
entry-on_key h key there = sym (ap or_none there) ∙ lookup-by_key key h

entry-HasOwnIndices :
    (h : History)
    → IsIndexed 0 h
    → (key : Text) (ops : List Operation) → lookup text_discrete key (by_key h) ≡ some ops
    → HasOwnIndices ops
entry-HasOwnIndices h x key ops there =
    subst HasOwnIndices (sym (entry-on_key h key there)) (on_key-HasOwnIndices key h x)

-- When `check` calls a history linearizable, and the history's operations are numbered by their
-- places, then for every key the operations on that key have a linearization: an order of all the
-- completed and some of the unknown ones that respects real time and that a register explains.
pub check_sound :
    (h : History) (budget : ℕ) {v : Verdict}
    → IsIndexed 0 h
    → check h budget ≡ some v
    → v.linearizable ≡ true
    → (key : Text) → Linearizable (on_key key h)
unfolding check
check_sound h budget x e l key = elim (Option-cases (lookup text_discrete key (by_key h))) [
  | inl nowhere ↦ subst Linearizable (sym (ap or_none nowhere) ∙ lookup-by_key key h) (
    [],
    record { drawn = λ op i. i; distinct = tt; whole = λ op i c. i; in_order = tt; legal = tt },
  )
  | inr (ops, there) ↦ subst Linearizable (entry-on_key h key there) (
      check_keys_sound (length h) (by_key h) budget e l key ops there
        (entry-HasOwnIndices h x key ops there))
]

-- When `check` calls a history violated, and the history's operations are numbered by their
-- places, the key that the verdict names is one whose operations have no linearization.
pub check_complete :
    (h : History) (budget : ℕ) {v : Verdict}
    → IsIndexed 0 h
    → check h budget ≡ some v
    → violated v ≡ true
    → (key : Text) × (v.key ≡ some key) × (¬ Linearizable (on_key key h))
unfolding check
check_complete h budget x e l =
    let (key, ops, named, there, bad) =
      check_keys_complete (length h) (by_key h) budget (by_key-HasDistinctKeys h)
        (entry-HasOwnIndices h x) e l in
    (key, named, subst (λ o. ¬ Linearizable o) (entry-on_key h key there) bad)

-- ===== src/Checker/Linear/Blamed.antt =====
-- `_blame` of cassette/checker/linear.py: the operation that it names.
use cassette.Base.{
  ℤ, ◌<ℤ◌, ◌≤ℤ◌, ltb_ℤ, leb_ℤ, Bool, false, ◌&&◌, ◌∙◌, ap, if◌then◌else◌, ◌<◌, In-keep, ℕ, ◌≡◌,
  refl, sym, subst, ◌⊎◌, inl, inr, true, none, some, List, [], ◌∷◌, arith, if-elim, keep, In,
  In_of_keep,
}
use cassette.Checker.History.{Operation, completed, unknown}
use cassette.Checker.Linearizable.{Linearizable, HasOwnIndices}
use cassette.Checker.Search.Correct.{search_sound, search_complete}
use cassette.Checker.Search.{Answer, found, failed, exhausted, raised, unfinished, search}
use cassette.Checker.Linear.{
  cut_at, comes_before, insert_completion, sort_completions, blame_from, blame,
}

ltb_false : (a b : ℤ) → ltb_ℤ a b ≡ false → b ≤ℤ a
ltb_false a b f = ground arith

both_true : (p : Bool) (a b : ℤ) → (p && leb_ℤ a b) ≡ true → (p ≡ true) × (a ≤ℤ b)
both_true p a b t = ground arith

one_false : (p : Bool) (a b : ℤ) → (p && leb_ℤ a b) ≡ false → (p ≡ false) ⊎ (b <ℤ a)
one_false true a b t = inr (ground arith)
one_false false a b t = inl refl

-- An operation as it is seen at an instant.
abbrev seen : ℤ → Operation → Operation
seen at_ms op =
    if completed op && leb_ℤ op.returned_ms at_ms then op else record op { outcome = unknown }

In_of_insert_completion :
    (x op : Operation) (qs : List Operation) → In x (insert_completion op qs) → (x ≡ op) ⊎ In x qs
unfolding insert_completion
In_of_insert_completion x op [] i = i
In_of_insert_completion x op (q ∷ qs) i =
    if-elim (λ l. In x l → (x ≡ op) ⊎ In x (q ∷ qs)) (comes_before op q) (op ∷ q ∷ qs)
      (q ∷ insert_completion op qs) (λ _ j. j)
      (λ _ j. elim j [
        | inl p ↦ inr (inl p)
        | inr k ↦ elim (In_of_insert_completion x op qs k) [ inl p ↦ inl p | inr m ↦ inr (inr m) ]
      ])
      i

In_of_sort_completions :
    (x : Operation) (qs : List Operation) → In x (sort_completions qs) → In x qs
unfolding sort_completions
In_of_sort_completions x [] i = i
In_of_sort_completions x (q ∷ qs) i = elim (In_of_insert_completion x q (sort_completions qs) i) [
  | inl p ↦ inl p
  | inr j ↦ inr (In_of_sort_completions x qs j)
]

-- The history as it stood at an instant, in words that do not mention how it is computed: an
-- operation that had not started is not in it, one that had returned is as it is, and of any other
-- the outcome is unknown.
pub data IsPast (at_ms : ℤ) : List Operation → List Operation → Type 0 where
  over : IsPast at_ms [] []
  not_started :
      {op : Operation} {ops cut : List Operation}
      → at_ms <ℤ op.invoked_ms
      → IsPast at_ms ops cut
      → IsPast at_ms (op ∷ ops) cut
  returned :
      {op : Operation} {ops cut : List Operation}
      → op.invoked_ms ≤ℤ at_ms
      → completed op ≡ true
      → op.returned_ms ≤ℤ at_ms
      → IsPast at_ms ops cut
      → IsPast at_ms (op ∷ ops) (op ∷ cut)
  pending :
      {op : Operation} {ops cut : List Operation}
      → op.invoked_ms ≤ℤ at_ms
      → (completed op ≡ false) ⊎ (at_ms <ℤ op.returned_ms)
      → IsPast at_ms ops cut
      → IsPast at_ms (op ∷ ops) (record op { outcome = unknown } ∷ cut)

cut_at-IsPast : (at_ms : ℤ) (ops : List Operation) → IsPast at_ms ops (cut_at ops at_ms)
unfolding cut_at
cut_at-IsPast at_ms [] = over
cut_at-IsPast at_ms (op ∷ ops) =
    let rest = cut_at-IsPast at_ms ops in
    if-elim (IsPast at_ms (op ∷ ops)) (ltb_ℤ at_ms op.invoked_ms) _ _
      (λ t. not_started (ground (arith, t)) rest)
      (λ f.
        let began : op.invoked_ms ≤ℤ at_ms = ltb_false at_ms op.invoked_ms f in
        if-elim (IsPast at_ms (op ∷ ops)) (completed op && leb_ℤ op.returned_ms at_ms) _ _
          (λ t.
            let (done, in_time) = both_true (completed op) op.returned_ms at_ms t in
            returned began done in_time rest)
          (λ t. pending began (one_false (completed op) op.returned_ms at_ms t) rest))

-- What is in the history as it stood is an operation of it, as it was seen then.
of_past :
    (at_ms : ℤ) {ops cut : List Operation} (a : Operation)
    → IsPast at_ms ops cut
    → In a cut
    → (op : Operation) × In op ops × (a ≡ seen at_ms op)
of_past at_ms a over i = absurd i
of_past at_ms a (not_started late p) i =
    let (op, there, e) = of_past at_ms a p i in (op, inr there, e)
of_past at_ms a (returned {op = q} began done in_time p) (inl e) = (q, inl refl, e ∙ ground arith)
of_past at_ms a (returned began done in_time p) (inr i) =
    let (op, there, e) = of_past at_ms a p i in (op, inr there, e)
of_past at_ms a (pending {op = q} began open_still p) (inl e) = (q, inl refl, e ∙ ground arith)
of_past at_ms a (pending began open_still p) (inr i) =
    let (op, there, e) = of_past at_ms a p i in (op, inr there, e)

-- What is seen of an operation keeps its index, so an index still names one operation.
seen-index : (at_ms : ℤ) (op : Operation) → (seen at_ms op).index ≡ op.index
seen-index at_ms op =
    if-elim (λ (x : Operation). x.index ≡ op.index) (completed op && leb_ℤ op.returned_ms at_ms) _ _
      (λ _. refl) (λ _. refl)

past-HasOwnIndices :
    (at_ms : ℤ) (ops cut : List Operation)
    → IsPast at_ms ops cut
    → HasOwnIndices ops
    → HasOwnIndices cut
past-HasOwnIndices at_ms ops cut p own a b i j e =
    let (x, in_x, ex) = of_past at_ms a p i in
    let (y, in_y, ey) = of_past at_ms b p j in
    let same_index : x.index ≡ y.index =
      sym (seen-index at_ms x)
      ∙ (ap (λ (o : Operation). o.index) (sym ex)
          ∙ (e ∙ (ap (λ (o : Operation). o.index) ey ∙ seen-index at_ms y))) in
    ex ∙ (ap (seen at_ms) (own x y in_x in_y same_index) ∙ sym ey)

-- The order of the completions, by time and index.
abbrev pub IsBefore : Operation → Operation → Type 0
IsBefore a b =
    (a.returned_ms <ℤ b.returned_ms) ⊎ ((a.returned_ms ≡ b.returned_ms) × (a.index < b.index))

not_after : (a b : Operation) → comes_before a b ≡ true → ¬ IsBefore b a
not_after a b t (inl less) = ground arith
not_after a b t (inr (same, less)) = ground arith

comes_before_trans :
    (a b c : Operation)
    → comes_before a b ≡ true
    → comes_before b c ≡ true
    → comes_before a c ≡ true
comes_before_trans a b c p q = ground arith

comes_before_total : (a b : Operation) → comes_before a b ≡ false → comes_before b a ≡ true
comes_before_total a b f = ground arith

abbrev AllBehind : Operation → List Operation → Type 0
AllBehind q qs = (x : Operation) → In x qs → comes_before q x ≡ true

abbrev AreOrdered : List Operation → Type 0
AreOrdered [] = Unit
AreOrdered (q ∷ qs) = AllBehind q qs × AreOrdered qs

insert_completion-AreOrdered :
    (op : Operation) (qs : List Operation) → AreOrdered qs → AreOrdered (insert_completion op qs)
unfolding insert_completion
insert_completion-AreOrdered op [] o = ((λ x i. absurd i), tt)
insert_completion-AreOrdered op (q ∷ qs) o =
    if-elim AreOrdered (comes_before op q) (op ∷ q ∷ qs) (q ∷ insert_completion op qs)
      (λ t. ((λ x i. elim i [ inl e ↦ rw e t | inr j ↦ comes_before_trans op q x t (o.0 x j) ]), o))
      (λ f. (
        (λ x i. elim (In_of_insert_completion x op qs i) [
          | inl e ↦ rw e (comes_before_total op q f)
          | inr j ↦ o.0 x j
        ]),
        insert_completion-AreOrdered op qs o.1,
      ))

sort_completions-AreOrdered : (qs : List Operation) → AreOrdered (sort_completions qs)
unfolding sort_completions
sort_completions-AreOrdered [] = tt
sort_completions-AreOrdered (q ∷ qs) =
    insert_completion-AreOrdered q (sort_completions qs) (sort_completions-AreOrdered qs)

In-insert_completion :
    (x op : Operation) (qs : List Operation) → (x ≡ op) ⊎ In x qs → In x (insert_completion op qs)
unfolding insert_completion
In-insert_completion x op [] i = i
In-insert_completion x op (q ∷ qs) i =
    if-elim (In x) (comes_before op q) (op ∷ q ∷ qs) (q ∷ insert_completion op qs) (λ _. i)
      (λ _. elim i [
        | inl e ↦ inr (In-insert_completion x op qs (inl e))
        | inr (inl e) ↦ inl e
        | inr (inr j) ↦ inr (In-insert_completion x op qs (inr j))
      ])

In-sort_completions : (x : Operation) (qs : List Operation) → In x qs → In x (sort_completions qs)
unfolding sort_completions
In-sort_completions x [] i = i
In-sort_completions x (q ∷ qs) (inl e) = In-insert_completion x q (sort_completions qs) (inl e)
In-sort_completions x (q ∷ qs) (inr i) =
    In-insert_completion x q (sort_completions qs) (inr (In-sort_completions x qs i))

-- What the search says of the history as it stood when an operation returned.
abbrev answer_at : List Operation → ℕ → Operation → Answer
answer_at ops budget op = search (cut_at ops op.returned_ms) budget

record IsNamed (qs ops : List Operation) (budget : ℕ) (culprit : Operation) : Type 0 where
  among : In culprit qs
  unexplained : (answer_at ops budget culprit ≡ failed) ⊎ (answer_at ops budget culprit ≡ exhausted)
  earlier : (op : Operation) → In op qs → IsBefore op culprit → answer_at ops budget op ≡ found

blame_from_lem :
    (qs ops : List Operation) (budget : ℕ) {culprit : Operation}
    → AreOrdered qs
    → blame_from qs ops budget ≡ some (some culprit)
    → IsNamed qs ops budget culprit
unfolding blame_from
blame_from_lem [] ops budget o e = absurd (ground arith)
blame_from_lem (q ∷ qs) ops budget {culprit} o e =
    go (answer_at ops budget q) refl (blame_from_lem qs ops budget {culprit = culprit} o.1) e
  where
    first :
        (culprit ≡ q)
        → (answer_at ops budget q ≡ failed) ⊎ (answer_at ops budget q ≡ exhausted)
        → IsNamed (q ∷ qs) ops budget culprit
    first p bad = record {
      among = inl p;
      unexplained =
          subst (λ x. (answer_at ops budget x ≡ failed) ⊎ (answer_at ops budget x ≡ exhausted))
            (sym p) bad;
      earlier = λ op i before. elim i [
        | inl same ↦ absurd (
            not_after culprit op
              (subst (λ x. comes_before culprit x ≡ true) (p ∙ sym same) (ground arith)) before)
        | inr j ↦
            absurd (
              not_after culprit op (subst (λ x. comes_before x op ≡ true) (sym p) (o.0 op j))
                before)
      ];
    }

    go :
        (a : Answer)
        → answer_at ops budget q ≡ a
        → (blame_from qs ops budget ≡ some (some culprit) → IsNamed qs ops budget culprit)
        → (elim a [
          | found ↦ blame_from qs ops budget
          | failed ↦ some (some q)
          | exhausted ↦ some (some q)
          | raised ↦ none
          | unfinished ↦ none
        ])
          ≡ some (some culprit)
        → IsNamed (q ∷ qs) ops budget culprit
    go found s later h =
        let n = later h in
        record {
          among = inr n.among;
          unexplained = n.unexplained;
          earlier = λ op i before. elim i [
            | inl same ↦ subst (λ x. answer_at ops budget x ≡ found) (sym same) s
            | inr j ↦ n.earlier op j before
          ];
        }
    go failed s later h = let p : q ≡ culprit = ground arith in first (sym p) (inl s)
    go exhausted s later h = let p : q ≡ culprit = ground arith in first (sym p) (inr s)
    go raised s later h = absurd (ground arith)
    go unfinished s later h = absurd (ground arith)

-- The operation that is blamed: there is no order when it returns, as far as the budget shows, and
-- there was one whenever an earlier one returned.
pub record IsBlamed (ops : List Operation) (budget : ℕ) (culprit : Operation) : Type 0 where
  pub among : In culprit ops
  pub done : completed culprit ≡ true
  pub unexplained :
      (cut : List Operation) × IsPast culprit.returned_ms ops cut
      × ((¬ Linearizable cut) ⊎ (search cut budget ≡ exhausted))
  pub first :
      (op : Operation)
      → In op ops
      → completed op ≡ true
      → IsBefore op culprit
      → (cut : List Operation) × IsPast op.returned_ms ops cut × Linearizable cut

-- When `_blame` names an operation, of operations with indices of their own, it is a completed one
-- of them. The history as it stood when that operation returned has no linearization, or the
-- search on it ran out of budget; and as it stood when any completed operation before it returned,
-- in the order of times and indices, it had one.
pub blame-IsBlamed :
    (ops : List Operation) (budget : ℕ) {culprit : Operation}
    → HasOwnIndices ops
    → blame ops budget ≡ some (some culprit)
    → IsBlamed ops budget culprit
unfolding blame
blame-IsBlamed ops budget {culprit} own e =
    let qs = sort_completions (keep completed ops) in
    let n =
      blame_from_lem qs ops budget {culprit = culprit}
        (sort_completions-AreOrdered (keep completed ops)) e in
    let (there, done) =
      In_of_keep completed culprit ops
        (In_of_sort_completions culprit (keep completed ops) n.among) in
    let past : (at_ms : ℤ) → IsPast at_ms ops (cut_at ops at_ms) =
      λ at_ms. cut_at-IsPast at_ms ops in
    let own_at : (at_ms : ℤ) → HasOwnIndices (cut_at ops at_ms) =
      λ at_ms. past-HasOwnIndices at_ms ops (cut_at ops at_ms) (past at_ms) own in
    record {
      among = there;
      done = done;
      unexplained = (
        cut_at ops culprit.returned_ms,
        past culprit.returned_ms,
        elim n.unexplained [
          | inl bad ↦ inl (
              search_complete (cut_at ops culprit.returned_ms) budget (own_at culprit.returned_ms)
                bad)
          | inr spent ↦ inr spent
        ],
      );
      first = λ op i c before. (
        cut_at ops op.returned_ms,
        past op.returned_ms,
        search_sound (cut_at ops op.returned_ms) budget (own_at op.returned_ms) (
            n.earlier op
              (In-sort_completions op (keep completed ops) (In-keep completed op ops i c)) before),
      );
    }

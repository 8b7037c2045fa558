-- ===== src/Checker/Search/Table.antt =====
-- The table of a search, and the indices that it requires.
use cassette.Base.{
  ℕ, ◌≡◌, refl, ap, ◌∙◌, ◌⊎◌, inl, inr, true, List, [], ◌∷◌, arith, ltb, ◌==◌, if-elim, keep, In,
  In-keep, In_of_keep, In-map, In_of_map, ℕ_discrete, member,
}
use cassette.Checker.History.{Operation, completed}
use cassette.Checker.Linearizable.{HasOwnIndices, indices}
use cassette.Checker.Search.{place, table_from, table, required}

In-place : (x op : Operation) (t : List Operation) → In x (place op t) → (x ≡ op) ⊎ In x t
unfolding place
In-place x op [] (inl e) = inl e
In-place x op [] (inr i) = absurd i
In-place x op (q ∷ qs) h =
    if-elim (λ l. In x l → (x ≡ op) ⊎ In x (q ∷ qs)) (ltb op.index q.index) (op ∷ q ∷ qs) _
      (λ _ i. i)
      (λ _.
        if-elim (λ l. In x l → (x ≡ op) ⊎ In x (q ∷ qs)) (op.index == q.index) (op ∷ qs)
          (q ∷ place op qs) (λ _ i. elim i [ inl e ↦ inl e | inr j ↦ inr (inr j) ])
          (λ _ i. elim i [
            | inl e ↦ inr (inl e)
            | inr j ↦ elim (In-place x op qs j) [ inl e ↦ inl e | inr k ↦ inr (inr k) ]
          ]))
      h

In_of_place :
    (x op : Operation) (t : List Operation)
    → ((q : Operation) → In q t → q.index ≡ op.index → q ≡ op)
    → (x ≡ op) ⊎ In x t
    → In x (place op t)
unfolding place
In_of_place x op [] own h = h
In_of_place x op (q ∷ qs) own h =
    if-elim (In x) (ltb op.index q.index) (op ∷ q ∷ qs) _ (λ _. h)
      (λ _.
        if-elim (In x) (op.index == q.index) (op ∷ qs) (q ∷ place op qs)
          (λ e. elim h [
            | inl i ↦ inl i
            | inr (inl i) ↦ inl (i ∙ own q (inl refl) (ground arith))
            | inr (inr i) ↦ inr i
          ])
          (λ _.
            let below = In_of_place x op qs (λ p i. own p (inr i)) in
            elim h [
              | inl i ↦ inr (below (inl i))
              | inr (inl i) ↦ inl i
              | inr (inr i) ↦ inr (below (inr i))
            ]))

-- What the table ends up with, from any start, when the indices are the operations' own.
In-table_from :
    (x : Operation) (t ops : List Operation) → In x (table_from t ops) → In x t ⊎ In x ops
unfolding table_from
In-table_from x t [] i = inl i
In-table_from x t (op ∷ ops) i = elim (In-table_from x (place op t) ops i) [
  | inl j ↦ elim (In-place x op t j) [ inl e ↦ inr (inl e) | inr k ↦ inl k ]
  | inr j ↦ inr (inr j)
]

In_of_table_from :
    (x : Operation) (t ops : List Operation)
    → ((a b : Operation) → (In a t ⊎ In a ops) → In b ops → a.index ≡ b.index → a ≡ b)
    → In x t ⊎ In x ops
    → In x (table_from t ops)
unfolding table_from
In_of_table_from x t [] own (inl i) = i
In_of_table_from x t [] own (inr i) = absurd i
In_of_table_from x t (op ∷ ops) own h =
    In_of_table_from x (place op t) ops (λ a b i j. own a b (grown a i) (inr j))
      (elim h [
        | inl i ↦ inl (placed (inr i))
        | inr (inl e) ↦ inl (placed (inl e))
        | inr (inr i) ↦ inr i
      ])
  where
    grown : (a : Operation) → In a (place op t) ⊎ In a ops → In a t ⊎ In a (op ∷ ops)
    grown a (inl i) = elim (In-place a op t i) [ inl e ↦ inr (inl e) | inr k ↦ inl k ]
    grown a (inr i) = inr (inr i)

    placed : (x ≡ op) ⊎ In x t → In x (place op t)
    placed = In_of_place x op t (λ q i e. own q op (inl i) (inl refl) e)

pub In-table : (x : Operation) (ops : List Operation) → In x (table ops) → In x ops
unfolding table
In-table x ops i = elim (In-table_from x [] ops i) [ inl j ↦ absurd j | inr j ↦ j ]

pub In_of_table :
    (x : Operation) (ops : List Operation) → HasOwnIndices ops → In x ops → In x (table ops)
unfolding table
In_of_table x ops own i =
    In_of_table_from x [] ops (λ a b h j e. elim h [ inl k ↦ absurd k | inr k ↦ own a b k j e ])
      (inr i)

pub member_of_In :
    (op : Operation) (ops : List Operation)
    → In op ops
    → member ℕ_discrete op.index (indices ops) ≡ true
unfolding member
member_of_In op [] i = absurd i
member_of_In op (q ∷ ops) (inl e) = ground (arith, ap (λ (x : Operation). x.index) e)
member_of_In op (q ∷ ops) (inr i) = ground (arith, member_of_In op ops i)

pub In_of_member :
    (n : ℕ) (ops : List Operation)
    → member ℕ_discrete n (indices ops) ≡ true
    → (op : Operation) × In op ops × (op.index ≡ n)
unfolding member
In_of_member n [] h = cc
In_of_member n (q ∷ ops) h = elim (ℕ_discrete q.index n) [
  | yes e ↦ (q, inl refl, e)
  | no ne ↦ let (op, i, e) = In_of_member n ops (ground arith) in (op, inr i, e)
]

pub In-required :
    (n : ℕ) (ops : List Operation)
    → In n (required ops)
    → (op : Operation) × In op ops × (completed op ≡ true) × (op.index ≡ n)
unfolding required
In-required n ops i =
    let (op, j, e) = In-map (λ (op : Operation). op.index) n (keep completed ops) i in
    let (k, c) = In_of_keep completed op ops j in (op, k, c, e)

pub In_of_required :
    (op : Operation) (ops : List Operation)
    → In op ops
    → completed op ≡ true
    → In op.index (required ops)
unfolding required
In_of_required op ops i c =
    In_of_map (λ (op : Operation). op.index) op (keep completed ops) (In-keep completed op ops i c)

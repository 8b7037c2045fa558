-- ===== src/Checker/Search/Orders.antt =====
-- From a linearization to a path of the search.
use cassette.Base.{
  ℕ, ◌≡◌, refl, ap, subst, ◌⊎◌, inl, inr, true, false, List, [], ◌∷◌, arith, Bool-cases, In,
  all_of_In, ℕ_discrete, member, add, member-add, IsDistinct,
}
use cassette.Kv.Version.{Value}
use cassette.Checker.History.{Operation, completed, precedes}
use cassette.Checker.Model.{absent}
use cassette.Checker.Linearizable.{InRealTime, Runs, indices, IsLinearization, HasOwnIndices}
use cassette.Checker.Search.{is_placed, covered, table, required}
use cassette.Checker.Search.Table.{In-table, In_of_table, member_of_In, In-required}
use cassette.Checker.Search.Paths.{PathFrom}
use cassette.Checker.Search.Lined.{IsReady, candidate_of_IsReady}

precedes-completed : (q op : Operation) → precedes q op ≡ true → completed q ≡ true
unfolding precedes
precedes-completed q op h = ground arith

-- The rest of a linearization, from what its first part placed.
record IsRest (t : List Operation) (placed : List ℕ) (seq : List Operation) : Type 0 where
  drawn : (op : Operation) → In op seq → In op t
  unplaced : (op : Operation) → In op seq → is_placed placed op.index ≡ false
  distinct : IsDistinct ℕ_discrete (indices seq)
  whole :
      (op : Operation)
      → In op t
      → completed op ≡ true
      → (is_placed placed op.index ≡ true) ⊎ In op seq
  in_order : InRealTime seq

module _ (t : List Operation) (needed : List ℕ)
    (complete : (i : ℕ)
      → In i needed
      → (op : Operation) × In op t × (completed op ≡ true) × (op.index ≡ i)) where
  rest-IsReady :
      (placed : List ℕ) (op : Operation) (seq : List Operation)
      → IsRest t placed (op ∷ seq)
      → IsReady t placed op
  rest-IsReady placed op seq r = record {
    known = IsRest.drawn r op (inl refl);
    unplaced = IsRest.unplaced r op (inl refl);
    first = λ q i free ne. elim (Bool-cases (precedes q op)) [
      | inr no_edge ↦ no_edge
      | inl edge ↦ elim (IsRest.whole r q i (precedes-completed q op edge)) [
        | inl there ↦ absurd (ground arith)
        | inr (inl same) ↦ absurd (ne (ap (λ (x : Operation). x.index) same))
        | inr (inr later) ↦ (IsRest.in_order r).0 q later
      ]
    ];
  }

  IsRest-next :
      (placed : List ℕ) (op : Operation) (seq : List Operation)
      → IsRest t placed (op ∷ seq)
      → IsRest t (add ℕ_discrete op.index placed) seq
  IsRest-next placed op seq r = record {
    drawn = λ q i. IsRest.drawn r q (inr i);
    unplaced = λ q i. ground (
      arith,
      member-add ℕ_discrete op.index q.index placed,
      IsRest.unplaced r q (inr i),
      member_of_In q seq i,
      (IsRest.distinct r).0,
    );
    distinct = (IsRest.distinct r).1;
    whole = λ q i c. elim (IsRest.whole r q i c) [
      | inl there ↦ inl (ground (arith, member-add ℕ_discrete op.index q.index placed))
      | inr (inl same) ↦ inl (
          ground (
            arith,
            member-add ℕ_discrete op.index q.index placed,
            ap (λ (x : Operation). x.index) same,
          ))
      | inr (inr later) ↦ inr later
    ];
    in_order = (IsRest.in_order r).1;
  }

  path_of_rest :
      (placed : List ℕ) (state : Value) (seq : List Operation)
      → IsRest t placed seq
      → Runs state seq
      → PathFrom t needed placed state seq
  path_of_rest placed state [] r run =
      unfold covered in
      all_of_In (is_placed placed) needed λ i m.
        let (op, j, c, same) = complete i m in
        elim (IsRest.whole r op j c) [
          | inl there ↦ subst (λ k. is_placed placed k ≡ true) same there
          | inr nowhere ↦ absurd nowhere
        ]
  path_of_rest placed state (op ∷ seq) r (n, e, y, run) = (
    candidate_of_IsReady t placed op (rest-IsReady placed op seq r),
    n,
    e,
    y,
    path_of_rest (add ℕ_discrete op.index placed) n.0 seq (IsRest-next placed op seq r) run,
  )

pub path_of_linearization :
    (ops seq : List Operation)
    → HasOwnIndices ops
    → IsLinearization ops seq
    → PathFrom (table ops) (required ops) [] absent seq
path_of_linearization ops seq own l =
    path_of_rest (table ops) (required ops)
      (λ i m. let (op, j, c, same) = In-required i ops m in (op, In_of_table op ops own j, c, same))
      [] absent seq
      (record {
        drawn = λ op i. In_of_table op ops own (l.drawn op i);
        unplaced = λ op i. unfold member in refl;
        distinct = l.distinct;
        whole = λ op i c. inr (l.whole op (In-table op ops i) c);
        in_order = l.in_order;
      })
      l.legal

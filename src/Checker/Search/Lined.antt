-- ===== src/Checker/Search/Lined.antt =====
-- From a path of the search to a linearization.
use cassette.Base.{
  ℕ, ◌≡◌, refl, sym, ap, subst, ◌≢◌, ◌⊎◌, inl, inr, true, false, not, ◌&&◌, List, [], ◌∷◌, arith,
  ◌==◌, Bool-cases, keep, In, In-keep, In_of_keep, In_of_all, not_of_any, any_of_none, ℕ_discrete,
  member, add, member-add, IsDistinct,
}
use cassette.Kv.Version.{Value}
use cassette.Checker.History.{Operation, precedes}
use cassette.Checker.Model.{absent}
use cassette.Checker.Linearizable.{InRealTime, Runs, indices, IsLinearization, HasOwnIndices}
use cassette.Checker.Search.{is_placed, covered, pending, blocked, candidates, table, required}
use cassette.Checker.Search.Table.{In-table, In_of_member, In_of_required}
use cassette.Checker.Search.Paths.{PathFrom}

-- A candidate is in the table, is not placed, and no other pending operation precedes it.
pub record IsReady (t : List Operation) (placed : List ℕ) (op : Operation) : Type 0 where
  pub known : In op t
  pub unplaced : is_placed placed op.index ≡ false
  pub first :
      (q : Operation)
      → In q t
      → is_placed placed q.index ≡ false
      → q.index ≢ op.index
      → precedes q op ≡ false

candidate-IsReady :
    (t : List Operation) (placed : List ℕ) (op : Operation)
    → In op (candidates t placed)
    → IsReady t placed op
unfolding candidates pending
candidate-IsReady t placed op i =
    let unplaced_test = λ (q : Operation). not (is_placed placed q.index) in
    let others = keep unplaced_test t in
    let (p, free) = In_of_keep (λ q. not (blocked others q)) op others i in
    let (known, u) = In_of_keep unplaced_test op t p in
    record {
      known = known;
      unplaced = ground arith;
      first = λ q j f ne.
          let w : (not (q.index == op.index) && precedes q op) ≡ false =
            not_of_any (λ (x : Operation). not (x.index == op.index) && precedes x op) others q
              (ground arith) (In-keep unplaced_test q t j (ground arith)) in
          ground arith;
    }

pub candidate_of_IsReady :
    (t : List Operation) (placed : List ℕ) (op : Operation)
    → IsReady t placed op
    → In op (candidates t placed)
unfolding candidates pending
candidate_of_IsReady t placed op r =
    let unplaced_test = λ (q : Operation). not (is_placed placed q.index) in
    let others = keep unplaced_test t in
    In-keep (λ q. not (blocked others q)) op others
      (In-keep unplaced_test op t r.known (rw r.unplaced refl))
      (ap not (
        any_of_none (λ (x : Operation). not (x.index == op.index) && precedes x op) others
          (λ q j.
            let (k, u) = In_of_keep unplaced_test q t j in
            let f : is_placed placed q.index ≡ false = ground arith in
            elim (ℕ_discrete q.index op.index) [
              | yes e ↦ ground arith
              | no ne ↦ rw (r.first q k f ne) (ground arith)
            ])))

add_placed :
    (i n : ℕ) (placed : List ℕ)
    → is_placed (add ℕ_discrete i placed) n ≡ false
    → (i ≢ n) × (is_placed placed n ≡ false)
add_placed i n placed h = (
  (λ e. ground (arith, member-add ℕ_discrete i n placed)),
  ground (arith, member-add ℕ_discrete i n placed),
)

module _ (t : List Operation) (needed : List ℕ) where
  path_unplaced :
      (placed : List ℕ) (state : Value) (seq : List Operation)
      → PathFrom t needed placed state seq
      → (op : Operation) → In op seq
      → is_placed placed op.index ≡ false
  path_unplaced placed state [] p op i = absurd i
  path_unplaced placed state (q ∷ seq) (c, n, e, y, p) op (inl same) =
      rw same (IsReady.unplaced (candidate-IsReady t placed q c))
  path_unplaced placed state (q ∷ seq) (c, n, e, y, p) op (inr i) =
      (add_placed q.index op.index placed
        (path_unplaced (add ℕ_discrete q.index placed) n.0 seq p op i)).1

  path_drawn :
      (placed : List ℕ) (state : Value) (seq : List Operation)
      → PathFrom t needed placed state seq
      → (op : Operation) → In op seq
      → In op t
  path_drawn placed state [] p op i = absurd i
  path_drawn placed state (q ∷ seq) (c, n, e, y, p) op (inl same) =
      rw same (IsReady.known (candidate-IsReady t placed q c))
  path_drawn placed state (q ∷ seq) (c, n, e, y, p) op (inr i) =
      path_drawn (add ℕ_discrete q.index placed) n.0 seq p op i

  path-IsDistinct :
      (placed : List ℕ) (state : Value) (seq : List Operation)
      → PathFrom t needed placed state seq
      → IsDistinct ℕ_discrete (indices seq)
  path-IsDistinct placed state [] p = tt
  path-IsDistinct placed state (q ∷ seq) (c, n, e, y, p) = (
    elim (Bool-cases (member ℕ_discrete q.index (indices seq))) [
      | inl there ↦
          let (op, i, same) = In_of_member q.index seq there in
          absurd (
            (add_placed q.index op.index placed
                (path_unplaced (add ℕ_discrete q.index placed) n.0 seq p op i)).0
              (sym same))
      | inr gone ↦ gone
    ],
    path-IsDistinct (add ℕ_discrete q.index placed) n.0 seq p,
  )

  path_in_order :
      (placed : List ℕ) (state : Value) (seq : List Operation)
      → PathFrom t needed placed state seq
      → InRealTime seq
  path_in_order placed state [] p = tt
  path_in_order placed state (a ∷ seq) (c, n, e, y, p) =
      let next = add ℕ_discrete a.index placed in
      (
        (λ b i.
            let (ne, free) = add_placed a.index b.index placed (path_unplaced next n.0 seq p b i) in
            IsReady.first (candidate-IsReady t placed a c) b (path_drawn next n.0 seq p b i) free
              (λ x. ne (sym x))),
        path_in_order next n.0 seq p,
      )

  path-Runs :
      (placed : List ℕ) (state : Value) (seq : List Operation)
      → PathFrom t needed placed state seq
      → Runs state seq
  path-Runs placed state [] p = tt
  path-Runs placed state (op ∷ seq) (c, n, e, y, p) =
      (n, e, y, path-Runs (add ℕ_discrete op.index placed) n.0 seq p)

  path_covers :
      (placed : List ℕ) (state : Value) (seq : List Operation)
      → PathFrom t needed placed state seq
      → (i : ℕ) → In i needed
      → (is_placed placed i ≡ true) ⊎ ((op : Operation) × In op seq × (op.index ≡ i))
  unfolding covered
  path_covers placed state [] p i m = inl (In_of_all (is_placed placed) needed i p m)
  path_covers placed state (q ∷ seq) (c, n, e, y, p) i m =
      elim (path_covers (add ℕ_discrete q.index placed) n.0 seq p i m) [
        | inl h ↦ elim (ℕ_discrete q.index i) [
          | yes same ↦ inr (q, inl refl, same)
          | no ne ↦ inl (ground (arith, member-add ℕ_discrete q.index i placed))
        ]
        | inr (op, j, same) ↦ inr (op, inr j, same)
      ]

pub IsLinearization-of_path :
    (ops seq : List Operation)
    → HasOwnIndices ops
    → PathFrom (table ops) (required ops) [] absent seq
    → IsLinearization ops seq
IsLinearization-of_path ops seq own p =
    let t = table ops in
    let needed = required ops in
    let drawn = λ (op : Operation) (i : In op seq).
      In-table op ops (path_drawn t needed [] absent seq p op i) in
    record {
      drawn = drawn;
      distinct = path-IsDistinct t needed [] absent seq p;
      whole = λ op i c.
          elim (path_covers t needed [] absent seq p op.index (In_of_required op ops i c)) [
            | inl h ↦ unfold member in cc
            | inr (q, j, same) ↦ subst (λ x. In x seq) (own q op (drawn q j) i same) j
          ];
      in_order = path_in_order t needed [] absent seq p;
      legal = path-Runs t needed [] absent seq p;
    }

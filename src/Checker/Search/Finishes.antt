-- ===== src/Checker/Search/Finishes.antt =====
-- Which answers a walk may end with: the fuel of the model, and the operations that `apply` rejects.
use cassette.Base.{
  ℕ, zero, suc, ◌+◌, ◌<◌, ◌≡◌, refl, sym, ◌≢◌, ◌⊎◌, inl, inr, false, not, none, List, [], ◌∷◌,
  arith, Bool-cases, Option-cases, length, In, In_of_keep, length-keep-lt, ℕ_discrete, add,
  member-add,
}
use cassette.Kv.Version.{Value}
use cassette.Checker.History.{Operation, read_kind, write_kind, cas_kind}
use cassette.Checker.Model.{apply, matches}
use cassette.Checker.Search.{
  Answer, found, failed, exhausted, raised, unfinished, Memory, is_placed, pending, blocked,
  candidates, Walk, otherwise, try_each, walk,
}
use cassette.Checker.Search.Paths.{walk-elim, try_each_raises, try_each_skips, try_each_descends}

candidate_pending :
    (t : List Operation) (placed : List ℕ) (op : Operation)
    → In op (candidates t placed)
    → In op (pending t placed)
unfolding candidates
candidate_pending t placed op i = (In_of_keep (λ q. not (blocked (pending t placed) q)) op _ i).0

pending_In :
    (t : List Operation) (placed : List ℕ) (op : Operation)
    → In op (pending t placed)
    → In op t × (is_placed placed op.index ≡ false)
unfolding pending
pending_In t placed op i =
    let (j, e) = In_of_keep (λ (q : Operation). not (is_placed placed q.index)) op t i in
    (j, ground arith)

-- Placing a pending operation leaves fewer pending.
length-pending-add :
    (t : List Operation) (placed : List ℕ) (op : Operation)
    → In op (pending t placed)
    → length (pending t (add ℕ_discrete op.index placed)) < length (pending t placed)
length-pending-add t placed op i =
    let (j, f) = pending_In t placed op i in
    unfold pending in
    length-keep-lt (λ (q : Operation). not (is_placed placed q.index))
      (λ (q : Operation). not (is_placed (add ℕ_discrete op.index placed) q.index)) op t
      (λ q e. ground (arith, member-add ℕ_discrete op.index q.index placed)) j (ground arith)
      (ground (arith, member-add ℕ_discrete op.index op.index placed))

-- An answer that a walk comes to only by way of what is excluded below.
abbrev pub IsOdd : Answer → Type 0
IsOdd a = (a ≢ found) × (a ≢ failed) × (a ≢ exhausted)

otherwise-ne :
    (bad : Answer) (r : Answer × Memory) (next : Memory → Answer × Memory)
    → r.0 ≢ bad
    → ((m : Memory) → (next m).0 ≢ bad)
    → (otherwise r next).0 ≢ bad
otherwise-ne bad (failed, m) next h k = k m
otherwise-ne bad (found, m) next h k = h
otherwise-ne bad (exhausted, m) next h k = h
otherwise-ne bad (raised, m) next h k = h
otherwise-ne bad (unfinished, m) next h k = h

module _ (bad : Answer) (odd : IsOdd bad) where
  try_each-ne :
      (go : Walk) (placed : List ℕ) (state : Value) (ops : List Operation)
      → ((op : Operation) → In op ops → (v : Value) → apply v op ≡ none → bad ≢ raised)
      → ((op : Operation)
          → In op ops
          → (v : Value) (m : Memory) → (go (add ℕ_discrete op.index placed) v m).0 ≢ bad)
      → (m : Memory) → (try_each go placed state ops m).0 ≢ bad
  try_each-ne go placed state [] known ih m = unfold try_each in λ e. odd.1 (sym e)
  try_each-ne go placed state (op ∷ ops) known ih m = elim (Option-cases (apply state op)) [
    | inl e ↦
        rw (try_each_raises go placed state op ops m e) (λ x. known op (inl refl) state e (sym x))
    | inr (n, e) ↦
        let rest = try_each-ne go placed state ops (λ q i. known q (inr i)) (λ q i. ih q (inr i)) in
        elim (Bool-cases (matches op n.1)) [
          | inl y ↦ rw (try_each_descends go placed state op ops m n e y) (
              otherwise-ne bad (go (add ℕ_discrete op.index placed) n.0 m)
                (λ m'. try_each go placed state ops m') (ih op (inl refl) n.0 m) rest)
          | inr f ↦ rw (try_each_skips go placed state op ops m n e f) (rest m)
        ]
  ]

  pub walk-ne :
      (t : List Operation) (needed : List ℕ) (budget fuel : ℕ) (placed : List ℕ) (state : Value)
      (m : Memory)
      → ((op : Operation) → In op t → (v : Value) → apply v op ≡ none → bad ≢ raised)
      → length (pending t placed) < fuel
      → (walk t needed budget fuel placed state m).0 ≢ bad
  walk-ne t needed budget zero placed state m known enough = absurd (omega arith)
  walk-ne t needed budget (suc fuel) placed state m known enough =
      walk-elim t needed budget fuel placed state m (λ r. r.0 ≢ bad) (λ _ e. odd.0 (sym e))
        (λ _ e. odd.2 (sym e)) (λ _ e. odd.1 (sym e))
        (λ _.
          try_each-ne (walk t needed budget fuel) placed state (candidates t placed)
            (λ op i. known op (pending_In t placed op (candidate_pending t placed op i)).0)
            (λ op i v m'.
              walk-ne t needed budget fuel (add ℕ_discrete op.index placed) v m' known
                (omega (arith, length-pending-add t placed op (candidate_pending t placed op i))))
            (record { seen = (placed, state) ∷ m.seen; spent = m.spent + 1 }))

-- The kinds that the model knows.
abbrev pub IsKnown : Operation → Type 0
IsKnown op = (op.kind ≡ read_kind) ⊎ (op.kind ≡ write_kind) ⊎ (op.kind ≡ cas_kind)

pub apply-ne-none : (op : Operation) (v : Value) → IsKnown op → apply v op ≢ none
unfolding apply
apply-ne-none op v (inl k) e = ground arith
apply-ne-none op v (inr (inl k)) e = ground arith
apply-ne-none op v (inr (inr k)) e = ground arith

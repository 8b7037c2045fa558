-- ===== src/Checker/Search/Sets.antt =====
-- Sets of placed operations that have the same elements, and dead ends of the search.
use cassette.Base.{
  ℕ, ◌≡◌, sym, ap, subst, ◌∙◌, ◌⊎◌, inl, inr, true, false, not, List, [], ◌∷◌, arith, Bool-cases,
  keep, In, keep-ext, all-ext, In_of_all, ℕ_discrete, member, add, member-add,
}
use cassette.Kv.Version.{Value}
use cassette.Checker.History.{Operation}
use cassette.Checker.Search.{
  failed, Memory, is_placed, covered, pending, blocked, candidates, same_set, Walk,
}
use cassette.Checker.Search.Paths.{PathFrom}

abbrev pub SameSet : List ℕ → List ℕ → Type 0
SameSet p q = (n : ℕ) → member ℕ_discrete n p ≡ member ℕ_discrete n q

member-In : (n : ℕ) (s : List ℕ) → member ℕ_discrete n s ≡ true → In n s
unfolding member
member-In n [] h = cc
member-In n (x ∷ s) h = elim (ℕ_discrete x n) [
  | yes e ↦ inl (sym e)
  | no ne ↦ inr (member-In n s (ground arith))
]

pub same_set-SameSet : (p q : List ℕ) → same_set p q ≡ true → SameSet p q
unfolding same_set
same_set-SameSet p q h n = elim (Bool-cases (member ℕ_discrete n p)) [
  | inl y ↦ y ∙ sym (In_of_all (is_placed q) p n (ground arith) (member-In n p y))
  | inr f ↦ elim (Bool-cases (member ℕ_discrete n q)) [
    | inl y ↦
        let w : is_placed p n ≡ true =
          In_of_all (is_placed p) q n (ground arith) (member-In n q y) in
        cc
    | inr g ↦ f ∙ sym g
  ]
]

covered-ext : (needed p q : List ℕ) → SameSet p q → covered needed p ≡ covered needed q
unfolding covered
covered-ext needed p q h = all-ext (is_placed p) (is_placed q) needed h

candidates-ext : (t : List Operation) (p q : List ℕ) → SameSet p q → candidates t p ≡ candidates t q
unfolding candidates pending
candidates-ext t p q h =
    ap (λ (l : List Operation). keep (λ op. not (blocked l op)) l)
      (keep-ext (λ (op : Operation). not (is_placed p op.index))
        (λ (op : Operation). not (is_placed q op.index)) t (λ op. ap not (h op.index)))

SameSet-add :
    (i : ℕ) (p q : List ℕ) → SameSet p q → SameSet (add ℕ_discrete i p) (add ℕ_discrete i q)
SameSet-add i p q h n = rw (member-add, member-add, h n)

module _ (t : List Operation) (needed : List ℕ) where
  pub PathFrom-ext :
      (p q : List ℕ) (state : Value) (seq : List Operation)
      → SameSet p q
      → PathFrom t needed p state seq
      → PathFrom t needed q state seq
  PathFrom-ext p q state [] h path = sym (covered-ext needed p q h) ∙ path
  PathFrom-ext p q state (op ∷ seq) h (i, n, e, y, path) = (
    subst (λ (l : List Operation). In op l) (candidates-ext t p q h) i,
    n,
    e,
    y,
    PathFrom-ext (add ℕ_discrete op.index p) (add ℕ_discrete op.index q) n.0 seq
        (SameSet-add op.index p q h) path,
  )

  abbrev pub Dead : List ℕ → Value → Type 0
  Dead placed state = (seq : List Operation) → ¬ PathFrom t needed placed state seq

  -- What is placed holds an operation that no pair on the way down had placed.
  abbrev pub IsBehind : List (List ℕ × Value) → List ℕ → Type 0
  IsBehind trail placed =
      (e : List ℕ × Value)
      → In e trail
      → (n : ℕ) × (is_placed placed n ≡ true) × (is_placed e.0 n ≡ false)

  abbrev pub AreDead : List (List ℕ × Value) → List (List ℕ × Value) → Type 0
  AreDead trail seen = (e : List ℕ × Value) → In e seen → Dead e.0 e.1 ⊎ In e trail

  abbrev pub IsComplete : Walk → Type 0
  IsComplete go =
      (trail : List (List ℕ × Value)) (placed : List ℕ) (state : Value) (m : Memory)
      → IsBehind trail placed
      → AreDead trail m.seen
      → (go placed state m).0 ≡ failed
      → Dead placed state × AreDead trail (go placed state m).1.seen

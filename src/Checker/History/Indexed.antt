-- ===== src/Checker/History/Indexed.antt =====
-- The indices of the operations of a history, which are their places.
use cassette.Base.{
  ℕ, zero, suc, ◌+◌, ◌≤◌, ◌≡◌, refl, sym, ap, subst, ◌∙◌, inl, inr, some, List, [], ◌∷◌, ◌++◌,
  arith, Option-cases, length, get_elem?, set, In, ℤ, Text,
}
use cassette.Kv.Version.{NodeId, Value}
use cassette.Checker.History.{Operation, History, invoke, update, complete, give_up}
use cassette.Checker.Linearizable.{HasOwnIndices}

-- From position `n` on.
abbrev pub IsIndexed : ℕ → List Operation → Type 0
IsIndexed n [] = Unit
IsIndexed n (op ∷ ops) = (op.index ≡ n) × IsIndexed (suc n) ops

append-IsIndexed :
    (n : ℕ) (h : List Operation) (op : Operation)
    → IsIndexed n h
    → op.index ≡ n + length h
    → IsIndexed n (h ++ op ∷ [])
append-IsIndexed n [] op i e = (omega arith, tt)
append-IsIndexed n (q ∷ h) op i e = (i.0, append-IsIndexed (suc n) h op i.1 (omega arith))

set-IsIndexed :
    (n i : ℕ) (h : List Operation) (f : Operation → Operation) (op : Operation)
    → ((q : Operation) → (f q).index ≡ q.index)
    → get_elem? h i ≡ some op
    → IsIndexed n h
    → IsIndexed n (set h i (f op))
set-IsIndexed n i [] f op same e x = x
set-IsIndexed n zero (q ∷ h) f op same e x = (ground (arith, same op), x.1)
set-IsIndexed n (suc i) (q ∷ h) f op same e x = (x.0, set-IsIndexed (suc n) i h f op same e x.1)

pub invoke-IsIndexed :
    (client : NodeId) (kind key : Text) (at_ms : ℤ) (argument expected : Value) (h : History)
    → IsIndexed 0 h
    → IsIndexed 0 (invoke client kind key at_ms argument expected h).0
unfolding invoke
invoke-IsIndexed client kind key at_ms argument expected h x =
    append-IsIndexed 0 h _ x (omega arith)

update-IsIndexed :
    (i : ℕ) (f : Operation → Operation) (h : History) {later : History}
    → ((q : Operation) → (f q).index ≡ q.index)
    → update i f h ≡ some later
    → IsIndexed 0 h
    → IsIndexed 0 later
unfolding update
update-IsIndexed i f h {later} same e x = elim (Option-cases (get_elem? h i)) [
  | inl none_there ↦ absurd (ground arith)
  | inr (op, there) ↦
      let p : some (set h i (f op)) ≡ some later = ground arith in
      let q : set h i (f op) ≡ later = cc in
      subst (IsIndexed 0) q (set-IsIndexed 0 i h f op same there x)
]

pub complete-IsIndexed :
    (i : ℕ) (at_ms : ℤ) (result : Value) (h : History) {later : History}
    → complete i at_ms result h ≡ some later
    → IsIndexed 0 h
    → IsIndexed 0 later
unfolding complete
complete-IsIndexed i at_ms result h e x = update-IsIndexed i _ h (λ q. refl) e x

pub give_up-IsIndexed :
    (i : ℕ) (h : History) {later : History}
    → give_up i h ≡ some later
    → IsIndexed 0 h
    → IsIndexed 0 later
unfolding give_up
give_up-IsIndexed i h e x = update-IsIndexed i _ h (λ q. refl) e x

index_bound : (n : ℕ) (h : List Operation) (op : Operation) → IsIndexed n h → In op h → n ≤ op.index
index_bound n [] op x i = absurd i
index_bound n (q ∷ h) op x (inl e) = rw e (omega arith)
index_bound n (q ∷ h) op x (inr i) = omega (arith, index_bound (suc n) h op x.1 i)

pub IsIndexed-HasOwnIndices : (n : ℕ) (h : List Operation) → IsIndexed n h → HasOwnIndices h
IsIndexed-HasOwnIndices n [] x a b i j e = absurd i
IsIndexed-HasOwnIndices n (q ∷ h) x a b (inl i) (inl j) e = i ∙ sym j
IsIndexed-HasOwnIndices n (q ∷ h) x a b (inl i) (inr j) e =
    absurd (omega (arith, ap (λ (o : Operation). o.index) i, index_bound (suc n) h b x.1 j))
IsIndexed-HasOwnIndices n (q ∷ h) x a b (inr i) (inl j) e =
    absurd (omega (arith, ap (λ (o : Operation). o.index) j, index_bound (suc n) h a x.1 i))
IsIndexed-HasOwnIndices n (q ∷ h) x a b (inr i) (inr j) e =
    IsIndexed-HasOwnIndices (suc n) h x.1 a b i j e

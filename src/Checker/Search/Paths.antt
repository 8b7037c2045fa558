-- ===== src/Checker/Search/Paths.antt =====
-- What a walk looks for: a sequence of candidates that leads from what is placed to a point where
-- every completed operation is.
use cassette.Base.{
  ℕ, zero, suc, ◌+◌, ◌≡◌, refl, ◌⊎◌, inl, inr, true, false, none, some, List, [], ◌∷◌, arith, ltb,
  Bool-cases, Option-cases, if-elim, In, ℕ_discrete, add,
}
use cassette.Kv.Version.{Value}
use cassette.Checker.History.{Operation}
use cassette.Checker.Model.{apply, matches}
use cassette.Checker.Search.{
  Answer, found, failed, exhausted, raised, unfinished, Memory, covered, candidates, visited, Walk,
  otherwise, try_each, walk,
}

module _ (t : List Operation) (needed : List ℕ) where
  abbrev pub PathFrom : List ℕ → Value → List Operation → Type 0
  PathFrom placed state [] = covered needed placed ≡ true
  PathFrom placed state (op ∷ seq) =
      In op (candidates t placed)
      × (n : Value × Value) × (apply state op ≡ some n)
      × (matches op n.1 ≡ true)
      × PathFrom (add ℕ_discrete op.index placed) n.0 seq

  -- A way on that starts with a given operation, and with one of some operations.
  abbrev pub Leads : List ℕ → Value → Operation → Type 0
  Leads placed state op =
      (n : Value × Value) × (apply state op ≡ some n)
      × (matches op n.1 ≡ true)
      × (seq : List Operation) × PathFrom (add ℕ_discrete op.index placed) n.0 seq

  abbrev pub StartWith : List Operation → List ℕ → Value → Type 0
  StartWith ops placed state = (op : Operation) × In op ops × Leads placed state op

  abbrev pub IsSound : Walk → Type 0
  IsSound go =
      (placed : List ℕ) (state : Value) (m : Memory)
      → (go placed state m).0 ≡ found
      → (seq : List Operation) × PathFrom placed state seq

-- What the loop does with its first candidate.
module _ (go : Walk) (placed : List ℕ) (state : Value) (op : Operation) (ops : List Operation)
    (m : Memory) where
  pub try_each_raises : apply state op ≡ none → try_each go placed state (op ∷ ops) m ≡ (raised, m)
  unfolding try_each
  try_each_raises e = ground arith

  pub try_each_skips :
      (n : Value × Value)
      → apply state op ≡ some n
      → matches op n.1 ≡ false
      → try_each go placed state (op ∷ ops) m ≡ try_each go placed state ops m
  unfolding try_each
  try_each_skips n e f = ground arith

  pub try_each_descends :
      (n : Value × Value)
      → apply state op ≡ some n
      → matches op n.1 ≡ true
      → try_each go placed state (op ∷ ops) m
        ≡ otherwise
            (go (add ℕ_discrete op.index placed) n.0 m)
            (λ m'. try_each go placed state ops m')
  unfolding try_each
  try_each_descends n e y = rw (e, try_each, y)

otherwise-found :
    (r : Answer × Memory) (next : Memory → Answer × Memory)
    → (otherwise r next).0 ≡ found
    → (r.0 ≡ found) ⊎ ((next r.1).0 ≡ found)
otherwise-found (found, m) next h = inl refl
otherwise-found (failed, m) next h = inr h
otherwise-found (exhausted, m) next h = cc
otherwise-found (raised, m) next h = cc
otherwise-found (unfinished, m) next h = cc

module _ (t : List Operation) (needed : List ℕ) where
  later_start :
      (op : Operation) (ops : List Operation) (placed : List ℕ) (state : Value)
      → StartWith t needed ops placed state
      → StartWith t needed (op ∷ ops) placed state
  later_start op ops placed state (q, i, l) = (q, inr i, l)

  try_each_sound :
      (go : Walk) (placed : List ℕ) (state : Value) (ops : List Operation) (m : Memory)
      → IsSound t needed go
      → (try_each go placed state ops m).0 ≡ found
      → StartWith t needed ops placed state
  try_each_sound go placed state [] m s h = unfold try_each in cc
  try_each_sound go placed state (op ∷ ops) m s h = elim (Option-cases (apply state op)) [
    | inl e ↦ absurd (ground (arith, try_each_raises go placed state op ops m e))
    | inr (n, e) ↦ elim (Bool-cases (matches op n.1)) [
      | inl y ↦
          elim (otherwise-found (go (add ℕ_discrete op.index placed) n.0 m)
            (λ m'. try_each go placed state ops m')
            (rw (try_each_descends go placed state op ops m n e y) at h)) [
              | inl here ↦
                  let (seq, p) = s (add ℕ_discrete op.index placed) n.0 m here in
                  (op, inl refl, (n, e, y, seq, p))
              | inr later ↦ later_start op ops placed state (
                  try_each_sound go placed state ops (go (add ℕ_discrete op.index placed) n.0 m).1 s
                    later)
            ]
      | inr f ↦ later_start op ops placed state (
          try_each_sound go placed state ops m s
            (rw (try_each_skips go placed state op ops m n e f) at h))
    ]
  ]

-- A property of each way in which a walk goes on is one of its result.
pub walk-elim {κ} :
    (t : List Operation) (needed : List ℕ) (budget fuel : ℕ) (placed : List ℕ) (state : Value)
    (m : Memory) (P : Answer × Memory → Type κ)
    → (covered needed placed ≡ true → P (found, m))
    → (ltb budget (m.spent + 1) ≡ true → P (exhausted, record m { spent = m.spent + 1 }))
    → (visited placed state m.seen ≡ true → P (failed, record m { spent = m.spent + 1 }))
    → (covered needed placed ≡ false
        → P (
            try_each
              (walk t needed budget fuel)
              placed
              state
              (candidates t placed)
              (record { seen = (placed, state) ∷ m.seen; spent = m.spent + 1 })))
    → P (walk t needed budget (suc fuel) placed state m)
unfolding walk
walk-elim t needed budget fuel placed state m P done out memo on =
    if-elim P (covered needed placed) (found, m) _ done
      (λ c.
        if-elim P (ltb budget (m.spent + 1)) (exhausted, record m { spent = m.spent + 1 }) _ out
          (λ _.
            if-elim P (visited placed state m.seen) (failed, record m { spent = m.spent + 1 })
              (try_each (walk t needed budget fuel) placed state (candidates t placed)
                (record { seen = (placed, state) ∷ m.seen; spent = m.spent + 1 }))
              memo (λ _. on c)))

module _ (t : List Operation) (needed : List ℕ) where
  pub walk-IsSound : (budget fuel : ℕ) → IsSound t needed (walk t needed budget fuel)
  walk-IsSound budget zero placed state m h = unfold walk in cc
  walk-IsSound budget (suc fuel) placed state m h =
      walk-elim t needed budget fuel placed state m
        (λ r. r.0 ≡ found → (seq : List Operation) × PathFrom t needed placed state seq)
        (λ c h. ([], c)) (λ _ h. cc) (λ _ h. cc)
        (λ _ h.
          let (op, i, (n, e, y, seq, p)) =
            try_each_sound t needed (walk t needed budget fuel) placed state (candidates t placed)
              (record { seen = (placed, state) ∷ m.seen; spent = m.spent + 1 })
              (walk-IsSound budget fuel) h in
          (op ∷ seq, (i, n, e, y, p)))
        h

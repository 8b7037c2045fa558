-- ===== src/Checker/Search/Complete.antt =====
-- What a search that answers `False` has tried.
use cassette.Base.{
  ℕ, zero, suc, ◌+◌, ◌≡◌, refl, sym, subst, ◌∙◌, inl, inr, true, false, not, ◌&&◌, some, List, [],
  ◌∷◌, arith, holds, Bool-cases, Option-cases, holds→, keep, In, In_of_keep, ℕ_discrete, add,
  member-add,
}
use cassette.Kv.Version.{Value, Value-discrete}
use cassette.Checker.History.{Operation}
use cassette.Checker.Model.{apply, matches}
use cassette.Checker.Search.{
  Answer, found, failed, exhausted, raised, unfinished, Memory, is_placed, covered, pending,
  blocked, candidates, same_set, visited, Walk, otherwise, try_each, walk,
}
use cassette.Checker.Search.Paths.{
  PathFrom, Leads, StartWith, walk-elim, try_each_raises, try_each_skips, try_each_descends,
}
use cassette.Checker.Search.Sets.{
  AreDead, Dead, IsBehind, IsComplete, PathFrom-ext, SameSet, same_set-SameSet,
}

visited-In :
    (placed : List ℕ) (state : Value) (seen : List (List ℕ × Value))
    → visited placed state seen ≡ true
    → (e : List ℕ × Value) × In e seen × SameSet e.0 placed × (e.1 ≡ state)
unfolding visited
visited-In placed state [] h = cc
visited-In placed state ((p, v) ∷ seen) h =
    elim (Bool-cases (same_set p placed && holds (Value-discrete v state))) [
      | inl y ↦ (
        (p, v),
        inl refl,
        same_set-SameSet p placed (ground arith),
        holds→ (Value-discrete v state) (ground arith),
      )
      | inr f ↦ let (e, i, s, q) = visited-In placed state seen (ground arith) in (e, inr i, s, q)
    ]

otherwise-failed :
    (r : Answer × Memory) (next : Memory → Answer × Memory)
    → (otherwise r next).0 ≡ failed
    → (r.0 ≡ failed) × (otherwise r next ≡ next r.1)
otherwise-failed (failed, m) next h = (refl, refl)
otherwise-failed (found, m) next h = cc
otherwise-failed (exhausted, m) next h = cc
otherwise-failed (raised, m) next h = cc
otherwise-failed (unfinished, m) next h = cc

module _ (t : List Operation) (needed : List ℕ) where
  -- A pair that was visited leads nowhere: it is not on the way down, where less was placed.
  visited-Dead :
      (trail : List (List ℕ × Value)) (placed : List ℕ) (state : Value)
      (seen : List (List ℕ × Value))
      → IsBehind t needed trail placed
      → AreDead t needed trail seen
      → visited placed state seen ≡ true
      → Dead t needed placed state
  visited-Dead trail placed state seen behind dead h =
      let (e, i, same, q) = visited-In placed state seen h in
      elim (dead e i) [
        | inl d ↦ λ seq path. d seq (
            subst (λ v. PathFrom t needed e.0 v seq) (sym q)
              (PathFrom-ext t needed placed e.0 state seq (λ n. sym (same n)) path))
        | inr j ↦ let (n, y, f) = behind e j in λ seq path. absurd (ground (arith, same n))
      ]

  no_start :
      (op : Operation) (ops : List Operation) (placed : List ℕ) (state : Value)
      → ¬ Leads t needed placed state op
      → ¬ StartWith t needed ops placed state
      → ¬ StartWith t needed (op ∷ ops) placed state
  no_start op ops placed state h k (q, inl e, l) = h (subst (Leads t needed placed state) e l)
  no_start op ops placed state h k (q, inr i, l) = k (q, i, l)

  no_lead_unmatched :
      (op : Operation) (placed : List ℕ) (state : Value) (n : Value × Value)
      → apply state op ≡ some n
      → matches op n.1 ≡ false
      → ¬ Leads t needed placed state op
  no_lead_unmatched op placed state n e f (n', e', y, seq, path) =
      let p : some n ≡ some n' = sym e ∙ e' in
      let q : n ≡ n' = cc in
      let w : matches op n'.1 ≡ false = subst (λ (x : Value × Value). matches op x.1 ≡ false) q f in
      cc

  no_lead-Dead :
      (op : Operation) (placed : List ℕ) (state : Value) (n : Value × Value)
      → apply state op ≡ some n
      → Dead t needed (add ℕ_discrete op.index placed) n.0
      → ¬ Leads t needed placed state op
  no_lead-Dead op placed state n e d (n', e', y, seq, path) =
      let p : some n ≡ some n' = sym e ∙ e' in
      let q : n ≡ n' = cc in
      d seq (
        subst (λ (x : Value × Value). PathFrom t needed (add ℕ_discrete op.index placed) x.0 seq)
          (sym q) path)

  module _ (go : Walk) (complete : IsComplete t needed go) (trail : List (List ℕ × Value))
      (placed : List ℕ) (state : Value) where
    try_each_complete :
        (ops : List Operation) (m : Memory)
        → ((op : Operation) → In op ops → IsBehind t needed trail (add ℕ_discrete op.index placed))
        → AreDead t needed trail m.seen
        → (try_each go placed state ops m).0 ≡ failed
        → (¬ StartWith t needed ops placed state)
          × AreDead t needed trail (try_each go placed state ops m).1.seen
    try_each_complete [] m behind dead h = unfold try_each in ((λ s. s.1), dead)
    try_each_complete (op ∷ ops) m behind dead h = elim (Option-cases (apply state op)) [
      | inl e ↦ absurd (ground (arith, try_each_raises go placed state op ops m e))
      | inr (n, e) ↦ elim (Bool-cases (matches op n.1)) [
        | inl y ↦
            let i = add ℕ_discrete op.index placed in
            let m' = (go i n.0 m).1 in
            let descends = try_each_descends go placed state op ops m n e y in
            let (down, same) =
              otherwise-failed (go i n.0 m) (λ m'. try_each go placed state ops m')
                (rw descends at h) in
            let (d, dead') = complete trail i n.0 m (behind op (inl refl)) dead down in
            let (none_left, dead'') =
              try_each_complete ops m' (λ q j. behind q (inr j)) dead'
                (rw (descends ∙ same) at h) in
            (
              no_start op ops placed state (no_lead-Dead op placed state n e d) none_left,
              rw (descends ∙ same) dead'',
            )
        | inr f ↦
            let skips = try_each_skips go placed state op ops m n e f in
            let (none_left, dead') =
              try_each_complete ops m (λ q j. behind q (inr j)) dead (rw skips at h) in
            (
              no_start op ops placed state (no_lead_unmatched op placed state n e f) none_left,
              rw skips dead',
            )
      ]
    ]

candidate_unplaced :
    (t : List Operation) (placed : List ℕ) (op : Operation)
    → In op (candidates t placed)
    → is_placed placed op.index ≡ false
unfolding candidates pending
candidate_unplaced t placed op i =
    let (p, _) =
      In_of_keep (λ q. not (blocked (keep (λ (x : Operation). not (is_placed placed x.index)) t) q))
        op _ i in
    let (_, e) = In_of_keep (λ (x : Operation). not (is_placed placed x.index)) op t p in
    ground arith

module _ (t : List Operation) (needed : List ℕ) where
  IsBehind-add :
      (trail : List (List ℕ × Value)) (placed : List ℕ) (state : Value) (op : Operation)
      → IsBehind t needed trail placed
      → is_placed placed op.index ≡ false
      → IsBehind t needed ((placed, state) ∷ trail) (add ℕ_discrete op.index placed)
  IsBehind-add trail placed state op behind f e (inl q) =
      (op.index, ground (arith, member-add ℕ_discrete op.index op.index placed), rw q f)
  IsBehind-add trail placed state op behind f e (inr i) =
      let (n, y, g) = behind e i in (n, ground (arith, member-add ℕ_discrete op.index n placed), g)

  Dead-of_starts :
      (placed : List ℕ) (state : Value)
      → covered needed placed ≡ false
      → ¬ StartWith t needed (candidates t placed) placed state
      → Dead t needed placed state
  Dead-of_starts placed state c h [] path = cc
  Dead-of_starts placed state c h (op ∷ seq) (i, n, e, y, path) = h (op, i, (n, e, y, seq, path))

  AreDead-pop :
      (trail seen : List (List ℕ × Value)) (placed : List ℕ) (state : Value)
      → Dead t needed placed state
      → AreDead t needed ((placed, state) ∷ trail) seen
      → AreDead t needed trail seen
  AreDead-pop trail seen placed state d dead e i = elim (dead e i) [
    | inl d' ↦ inl d'
    | inr (inl q) ↦ inl (subst (λ (x : List ℕ × Value). Dead t needed x.0 x.1) (sym q) d)
    | inr (inr j) ↦ inr j
  ]

  AreDead-push :
      (trail seen : List (List ℕ × Value)) (placed : List ℕ) (state : Value)
      → AreDead t needed trail seen
      → AreDead t needed ((placed, state) ∷ trail) ((placed, state) ∷ seen)
  AreDead-push trail seen placed state dead e (inl q) = inr (inl q)
  AreDead-push trail seen placed state dead e (inr i) = elim (dead e i) [
    | inl d ↦ inl d
    | inr j ↦ inr (inr j)
  ]

  pub walk-IsComplete : (budget fuel : ℕ) → IsComplete t needed (walk t needed budget fuel)
  walk-IsComplete budget zero trail placed state m behind dead h = unfold walk in cc
  walk-IsComplete budget (suc fuel) trail placed state m behind dead h =
      walk-elim t needed budget fuel placed state m
        (λ r. r.0 ≡ failed → Dead t needed placed state × AreDead t needed trail r.1.seen)
        (λ _ h. cc) (λ _ h. cc)
        (λ v _. (visited-Dead t needed trail placed state m.seen behind dead v, dead))
        (λ c h.
          let (none_left, dead') =
            try_each_complete t needed (walk t needed budget fuel) (walk-IsComplete budget fuel)
              ((placed, state) ∷ trail) placed state (candidates t placed)
              (record { seen = (placed, state) ∷ m.seen; spent = m.spent + 1 })
              (λ op i. IsBehind-add trail placed state op behind (candidate_unplaced t placed op i))
              (AreDead-push trail m.seen placed state dead) h in
          let d = Dead-of_starts placed state c none_left in
          (d, AreDead-pop trail _ placed state d dead'))
        h

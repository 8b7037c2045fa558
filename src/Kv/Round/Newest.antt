-- ===== src/Kv/Round/Newest.antt =====
-- `Round.newest` and the replies that it is taken from.
use cassette.Base.{
  suc, ◌<◌, ◌≡◌, refl, sym, ap, ◌∙◌, ◌≢◌, ◌⊎◌, inl, inr, false, some, [], ◌∷◌, arith, if◌then◌else◌,
  Bool-cases, length, ℤ_discrete, Dict, lookup, HasDistinctKeys,
}
use cassette.Kv.Version.{NodeId, Stored, lt}
use cassette.Kv.Version.Order.{lt_irrefl, lt_asymm, le_trans}
use cassette.Kv.Round.{Round, insert_by_node, sort_by_node, max_from, max_held, newest}
use cassette.Kv.Round.Sorted.{IsSorted, lookup-Above, lookup-sort_by_node, sort_by_node-IsSorted}

max_from-le-best :
    (best : Stored) (d : Dict NodeId Stored) → lt (max_from best d).version best.version ≡ false
unfolding max_from
max_from-le-best best [] = lt_irrefl best.version
max_from-le-best best (e ∷ d) = ground (
  arith,
  max_from-le-best best d,
  max_from-le-best e.1 d,
  lt_asymm best.version e.1.version,
  le_trans best.version e.1.version (max_from e.1 d).version,
)

max_from-le :
    (best : Stored) (d : Dict NodeId Stored) (n : NodeId) (held : Stored)
    → lookup ℤ_discrete n d ≡ some held
    → lt (max_from best d).version held.version ≡ false
unfolding max_from lookup
max_from-le best [] n held h = cc
max_from-le best (e ∷ d) n held h = ground (
  arith,
  max_from-le-best best d,
  max_from-le-best e.1 d,
  max_from-le best d n held,
  max_from-le e.1 d n held,
  le_trans e.1.version best.version (max_from best d).version,
)

max_held-le :
    (d : Dict NodeId Stored) (n : NodeId) (held : Stored)
    → lookup ℤ_discrete n d ≡ some held
    → lt (max_held d).version held.version ≡ false
unfolding lookup
max_held-le [] n held h = cc
max_held-le (e ∷ d) n held h = ground (arith, max_from-le-best e.1 d, max_from-le e.1 d n held)

max_from-mem :
    (best : Stored) (d : Dict NodeId Stored)
    → IsSorted d
    → (max_from best d ≡ best) ⊎ ((n : NodeId) × (lookup ℤ_discrete n d ≡ some (max_from best d)))
unfolding max_from lookup
max_from-mem best [] s = inl refl
max_from-mem best (e ∷ d) s =
    elim (max_from-mem (if lt best.version e.1.version then e.1 else best) d s.1) [
      | inl p ↦ elim (Bool-cases (lt best.version e.1.version)) [
        | inl q ↦ inr (e.0, ground arith)
        | inr q ↦ inl (ground arith)
      ]
      | inr (n, p) ↦ inr (n, ground (arith, lookup-Above e.0 d s.0))
    ]

max_held-mem :
    (d : Dict NodeId Stored)
    → IsSorted d
    → d ≢ []
    → (n : NodeId) × (lookup ℤ_discrete n d ≡ some (max_held d))
unfolding lookup
max_held-mem [] s h = absurd (h refl)
max_held-mem (e ∷ d) s h = elim (max_from-mem e.1 d s.1) [
  | inl p ↦ (e.0, ground arith)
  | inr (n, p) ↦ (n, ground (arith, lookup-Above e.0 d s.0))
]

length-insert_by_node :
    (e : NodeId × Stored) (d : Dict NodeId Stored) → length (insert_by_node e d) ≡ suc (length d)
unfolding insert_by_node
length-insert_by_node e [] = refl
length-insert_by_node e (f ∷ d) = ground (arith, length-insert_by_node e d)

length-sort_by_node : (d : Dict NodeId Stored) → length (sort_by_node d) ≡ length d
unfolding sort_by_node
length-sort_by_node [] = refl
length-sort_by_node (e ∷ d) =
    length-insert_by_node e (sort_by_node d) ∙ ap suc (length-sort_by_node d)

-- No reply of a round, with one reply for each replica, has a stamp newer than that of `newest`.
newest-le :
    (r : Round) (n : NodeId) (held : Stored)
    → HasDistinctKeys ℤ_discrete r.replies
    → lookup ℤ_discrete n r.replies ≡ some held
    → lt (newest r).version held.version ≡ false
unfolding newest
newest-le r n held p h =
    max_held-le (sort_by_node r.replies) n held (lookup-sort_by_node n r.replies p ∙ h)

-- In a round with some replies, one for each replica, `newest` is the reply of one of the
-- replicas.
newest-mem :
    (r : Round)
    → HasDistinctKeys ℤ_discrete r.replies
    → 0 < length r.replies
    → (n : NodeId) × (lookup ℤ_discrete n r.replies ≡ some (newest r))
unfolding newest
newest-mem r p h =
    let (n, found) =
      max_held-mem (sort_by_node r.replies) (sort_by_node-IsSorted r.replies p)
        (λ e. absurd (omega (arith, length-sort_by_node r.replies, ap length e))) in
    (n, sym (lookup-sort_by_node n r.replies p) ∙ found)

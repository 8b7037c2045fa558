-- ===== src/Kv/Round/Sorted.antt =====
-- The replies of a round sorted by node, as `Round.newest` goes through them.
use cassette.Base.{
  ◌≡◌, refl, sym, ap, ◌∙◌, ite, none, some, [], ◌∷◌, arith, ℤ_discrete, ◌<ℤ◌, eq_of_parts, Dict,
  lookup, HasDistinctKeys,
}
use cassette.Kv.Version.{NodeId, Stored}
use cassette.Kv.Round.{Round, insert_by_node, sort_by_node, max_held, newest}

-- Every key of the dict is above the node.
abbrev Above : NodeId → Dict NodeId Stored → Type 0
Above n [] = Unit
Above n ((m, held) ∷ d) = (n <ℤ m) × Above n d

-- Keys in increasing order.
abbrev pub IsSorted : Dict NodeId Stored → Type 0
IsSorted [] = Unit
IsSorted ((n, held) ∷ d) = Above n d × IsSorted d

Above-trans : (n m : NodeId) (d : Dict NodeId Stored) → n <ℤ m → Above m d → Above n d
Above-trans n m [] h a = tt
Above-trans n m (e ∷ d) h a = (omega arith, Above-trans n m d h a.1)

Above-insert :
    (n : NodeId) (e : NodeId × Stored) (d : Dict NodeId Stored)
    → n <ℤ e.0
    → Above n d
    → Above n (insert_by_node e d)
unfolding insert_by_node
Above-insert n e [] h a = (h, tt)
Above-insert n e (f ∷ d) h a = ground (arith, Above-insert n e d h a.1)

pub lookup-Above : (n : NodeId) (d : Dict NodeId Stored) → Above n d → lookup ℤ_discrete n d ≡ none
unfolding lookup
lookup-Above n [] a = refl
lookup-Above n (e ∷ d) a = ground (arith, lookup-Above n d a.1)

insert_by_node-IsSorted :
    (e : NodeId × Stored) (d : Dict NodeId Stored)
    → lookup ℤ_discrete e.0 d ≡ none
    → IsSorted d
    → IsSorted (insert_by_node e d)
unfolding insert_by_node lookup
insert_by_node-IsSorted e [] h s = (tt, tt)
insert_by_node-IsSorted e (f ∷ d) h s = ground (
  arith,
  insert_by_node-IsSorted e d,
  Above-insert f.0 e d,
  Above-trans e.0 f.0 d,
  eq_of_parts e.0 f.0,
)

lookup-insert_by_node :
    (e : NodeId × Stored) (j : NodeId) (d : Dict NodeId Stored)
    → lookup ℤ_discrete e.0 d ≡ none
    → lookup ℤ_discrete j (insert_by_node e d)
      ≡ ite (ℤ_discrete e.0 j) (some e.1) (lookup ℤ_discrete j d)
unfolding insert_by_node lookup
lookup-insert_by_node e j [] h = refl
lookup-insert_by_node e j (f ∷ d) h = ground (arith, lookup-insert_by_node e j d)

pub lookup-sort_by_node :
    (j : NodeId) (d : Dict NodeId Stored)
    → HasDistinctKeys ℤ_discrete d
    → lookup ℤ_discrete j (sort_by_node d) ≡ lookup ℤ_discrete j d
unfolding sort_by_node lookup
lookup-sort_by_node j [] h = refl
lookup-sort_by_node j (e ∷ d) h =
    lookup-insert_by_node e j (sort_by_node d) (lookup-sort_by_node e.0 d h.1 ∙ h.0)
    ∙ (rw (lookup-sort_by_node j d h.1))

pub sort_by_node-IsSorted :
    (d : Dict NodeId Stored) → HasDistinctKeys ℤ_discrete d → IsSorted (sort_by_node d)
unfolding sort_by_node
sort_by_node-IsSorted [] h = tt
sort_by_node-IsSorted (e ∷ d) h =
    insert_by_node-IsSorted e (sort_by_node d) (lookup-sort_by_node e.0 d h.1 ∙ h.0)
      (sort_by_node-IsSorted d h.1)

-- The keys in the tails of two sorted dicts that agree and start alike.
tails_agree :
    (e f : NodeId × Stored) (c d : Dict NodeId Stored) (j : NodeId)
    → e.0 ≡ f.0
    → Above e.0 c
    → Above f.0 d
    → lookup ℤ_discrete j (e ∷ c) ≡ lookup ℤ_discrete j (f ∷ d)
    → lookup ℤ_discrete j c ≡ lookup ℤ_discrete j d
unfolding lookup
tails_agree e f c d j p a b h = ground (arith, lookup-Above e.0 c a, lookup-Above f.0 d b)

heads_agree :
    (e f : NodeId × Stored) (c d : Dict NodeId Stored)
    → Above e.0 c
    → Above f.0 d
    → lookup ℤ_discrete e.0 (e ∷ c) ≡ lookup ℤ_discrete e.0 (f ∷ d)
    → lookup ℤ_discrete f.0 (e ∷ c) ≡ lookup ℤ_discrete f.0 (f ∷ d)
    → e ≡ f
unfolding lookup
heads_agree e f c d a b h k = ground (
  arith,
  eq_of_parts e.0 f.0,
  lookup-Above e.0 d,
  lookup-Above f.0 c,
  Above-trans e.0 f.0 d,
  Above-trans f.0 e.0 c,
)

-- Two sorted dicts with the same contents are the same list.
eq_of_lookup :
    (c d : Dict NodeId Stored)
    → IsSorted c
    → IsSorted d
    → ((j : NodeId) → lookup ℤ_discrete j c ≡ lookup ℤ_discrete j d)
    → c ≡ d
unfolding lookup
eq_of_lookup [] [] s t h = refl
eq_of_lookup [] (f ∷ d) s t h = ground (arith, h f.0)
eq_of_lookup (e ∷ c) [] s t h = ground (arith, h e.0)
eq_of_lookup (e ∷ c) (f ∷ d) s t h =
    let p = heads_agree e f c d s.0 t.0 (h e.0) (h f.0) in
    let q =
      eq_of_lookup c d s.1 t.1
        (λ j. tails_agree e f c d j (ap (λ (x : NodeId × Stored). x.0) p) s.0 t.0 (h j)) in
    cc (p, q)

-- `newest` depends on who replied with what, not on the order in which the replies, one for each
-- replica, arrived.
pub newest_unordered :
    (r s : Round)
    → HasDistinctKeys ℤ_discrete r.replies
    → HasDistinctKeys ℤ_discrete s.replies
    → ((n : NodeId) → lookup ℤ_discrete n r.replies ≡ lookup ℤ_discrete n s.replies)
    → newest r ≡ newest s
unfolding newest
newest_unordered r s p q h = ap max_held (
    eq_of_lookup _ _ (sort_by_node-IsSorted r.replies p) (sort_by_node-IsSorted s.replies q)
      λ j. lookup-sort_by_node j r.replies p ∙ h j ∙ sym (lookup-sort_by_node j s.replies q))

-- ===== src/Kv/Quorum.antt =====
-- The quorum rule of cassette/kv/config.py, as a statement on sets of replicas.
use cassette.Base.{
  ℕ, zero, suc, ◌≤◌, ◌≡◌, refl, ap, ◌⊎◌, inl, inr, true, false, ◌||◌, none, List, [], ◌∷◌, ◌++◌,
  arith, Bool-cases, length, length-append, All, ℤ, pos, ℤ_discrete, pos_part, ◌+ℤ◌, ◌≤ℤ◌, +ℤ_parts,
  range_from, member, IsDistinct, length-le_of_subset,
}
use cassette.Kv.Version.{NodeId}
use cassette.Kv.Config.{StoreConfig, post_init, quorums_overlap, replica_ids}

-- A set of replicas of the cluster.
pub record IsReplicaSet (c : StoreConfig) (nodes : List NodeId) : Type 0 where
  pub distinct : IsDistinct ℤ_discrete nodes
  pub among :
      (n : NodeId) → member ℤ_discrete n nodes ≡ true → member ℤ_discrete n (replica_ids c) ≡ true

length-range_from : (a : ℤ) (n : ℕ) → length (range_from a n) ≡ n
length-range_from a zero = refl
length-range_from a (suc n) = ap suc (length-range_from (a +ℤ pos 1) n)

-- Either two lists have an element in common, or all of the first is missing from the second.
abbrev IsMissing : List NodeId → List NodeId → Type 0
IsMissing xs ys = All (λ n. member ℤ_discrete n ys ≡ false) xs

common :
    (xs ys : List NodeId)
    → ((n : NodeId) × (member ℤ_discrete n xs ≡ true) × (member ℤ_discrete n ys ≡ true))
      ⊎ IsMissing xs ys
unfolding member
common [] ys = inr tt
common (x ∷ xs) ys = elim (Bool-cases (member ℤ_discrete x ys)) [
  | inl here ↦ inl (x, ground arith, here)
  | inr gone ↦ elim (common xs ys) [
    | inl (n, p, q) ↦ inl (n, ground arith, q)
    | inr rest ↦ inr (gone, rest)
  ]
]

member-append :
    (n : NodeId) (xs ys : List NodeId)
    → member ℤ_discrete n (xs ++ ys) ≡ (member ℤ_discrete n xs || member ℤ_discrete n ys)
unfolding member
member-append n [] ys = refl
member-append n (x ∷ xs) ys = ground (arith, member-append n xs ys)

append-IsDistinct :
    (xs ys : List NodeId)
    → IsDistinct ℤ_discrete xs
    → IsDistinct ℤ_discrete ys
    → IsMissing xs ys
    → IsDistinct ℤ_discrete (xs ++ ys)
append-IsDistinct [] ys d e m = e
append-IsDistinct (x ∷ xs) ys d e m =
    (rw (member-append x xs ys, d.0, m.0) refl, append-IsDistinct xs ys d.1 e m.1)

-- In an accepted configuration whose quorums overlap, any two sets of replicas of the sizes of a
-- read and of a write quorum have a replica in common.
pub quorums_meet :
    (c : StoreConfig) (reads writes : List NodeId)
    → post_init c ≡ none
    → quorums_overlap c ≡ true
    → IsReplicaSet c reads
    → IsReplicaSet c writes
    → c.read_quorum ≤ℤ pos (length reads)
    → c.write_quorum ≤ℤ pos (length writes)
    → (n : NodeId) × (member ℤ_discrete n reads ≡ true) × (member ℤ_discrete n writes ≡ true)
unfolding post_init quorums_overlap replica_ids
quorums_meet c reads writes accepted overlap r w many_r many_w = elim (common reads writes) [
  | inl found ↦ found
  | inr apart ↦
      let bound : length (reads ++ writes) ≤ length (replica_ids c) =
        length-le_of_subset ℤ_discrete (reads ++ writes) (replica_ids c)
          (append-IsDistinct reads writes r.distinct w.distinct apart)
          (λ n h. among n (rw (member-append n reads writes) at h)) in
      absurd (
        ground (
          arith,
          bound,
          length-append reads writes,
          length-range_from (pos 0) (pos_part c.replicas),
          +ℤ_parts c.read_quorum c.write_quorum,
        ))
]
  where
    among :
        (n : NodeId)
        → (member ℤ_discrete n reads || member ℤ_discrete n writes) ≡ true
        → member ℤ_discrete n (replica_ids c) ≡ true
    among n h = ground (arith, r.among n, w.among n)

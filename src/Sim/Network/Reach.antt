-- ===== src/Sim/Network/Reach.antt =====
-- Which links a partition leaves.
use cassette.Base.{
  ℕ, zero, suc, ◌+◌, ◌≡◌, refl, ap, ◌∙◌, inl, inr, true, false, Option, none, some, List, [], ◌∷◌,
  arith, holds, Bool-cases, Option-cases, get_elem?, In, ℕ_discrete, ℤ_discrete, member,
}
use cassette.Kv.Version.{NodeId}
use cassette.Sim.Network.{
  Network, Note, PartitionGroups, same_group, group_from, can_reach, partition_into, heal,
}

-- A link works both ways, whatever the partition.
can_reach_symm : (n : Network) (a b : NodeId) → can_reach n a b ≡ can_reach n b a
unfolding can_reach
can_reach_symm n a b = elim (Option-cases n.partition) [
  | inl whole ↦ rw whole refl
  | inr (groups, split) ↦ rw split (same_group_symm (group_from a 0 groups) (group_from b 0 groups))
]
  where
    same_group_symm : (x y : Option ℕ) → same_group x y ≡ same_group y x
    same_group_symm none none = refl
    same_group_symm none (some y) = refl
    same_group_symm (some x) none = refl
    same_group_symm (some x) (some y) = ground arith

-- No node is in two groups.
abbrev pub AreDisjoint : PartitionGroups → Type 0
AreDisjoint groups =
    (node : NodeId) (i j : ℕ) (g h : List NodeId)
    → get_elem? groups i ≡ some g
    → get_elem? groups j ≡ some h
    → member ℤ_discrete node g ≡ true
    → member ℤ_discrete node h ≡ true
    → i ≡ j

group_from_lem :
    (node : NodeId) (index i : ℕ) (g : List NodeId) (groups : PartitionGroups)
    → get_elem? groups i ≡ some g
    → member ℤ_discrete node g ≡ true
    → ((j : ℕ) (h : List NodeId)
        → get_elem? groups j ≡ some h
        → member ℤ_discrete node h ≡ true
        → i ≡ j)
    → group_from node index groups ≡ some (index + i)
unfolding group_from
group_from_lem node index i g [] there inside only = absurd (ground arith)
group_from_lem node index zero g (h ∷ groups) there inside only = ground arith
group_from_lem node index (suc i) g (h ∷ groups) there inside only =
    elim (Bool-cases (member ℤ_discrete node h)) [
      | inl earlier ↦ absurd (omega (arith, only 0 h refl earlier))
      | inr not_yet ↦ rw not_yet (
          group_from_lem node (suc index) i g groups there inside
            (λ j k at in_k. omega (arith, only (suc j) k at in_k))
          ∙ ap some (omega arith))
    ]

-- After a cut into disjoint groups, two members of groups reach each other just when they are in
-- the same group.
pub can_reach-partition_into :
    {M : Type 0} (groups : PartitionGroups) (n : Network) {later : Network} {notes : List (Note M)}
    (a b : NodeId) (i j : ℕ) (g h : List NodeId)
    → partition_into groups n ≡ some (later, notes)
    → AreDisjoint groups
    → get_elem? groups i ≡ some g
    → get_elem? groups j ≡ some h
    → member ℤ_discrete a g ≡ true
    → member ℤ_discrete b h ≡ true
    → can_reach later a b ≡ holds (ℕ_discrete i j)
unfolding can_reach partition_into
can_reach-partition_into groups n {later} a b i j g h cut apart at_i at_j in_g in_h =
    let split : later.partition ≡ some groups = ground arith in
    rw
      (
        split,
        group_from_lem a 0 i g groups at_i in_g
            (λ k l at inside. apart a i k g l at_i at in_g inside),
        group_from_lem b 0 j h groups at_j in_h
            (λ k l at inside. apart b j k h l at_j at in_h inside),
      )
      (ground arith)

group_from_outside :
    (a : NodeId) (index : ℕ) (gs : PartitionGroups)
    → ((g : List NodeId) → In g gs → member ℤ_discrete a g ≡ false)
    → group_from a index gs ≡ none
unfolding group_from
group_from_outside a index [] h = refl
group_from_outside a index (g ∷ gs) h =
    rw (h g (inl refl)) (group_from_outside a (suc index) gs (λ k i. h k (inr i)))

-- After a cut, a node that is in none of the groups reaches every node.
can_reach_outside :
    {M : Type 0} (groups : PartitionGroups) (n : Network) {later : Network} {notes : List (Note M)}
    (a b : NodeId)
    → partition_into groups n ≡ some (later, notes)
    → ((g : List NodeId) → In g groups → member ℤ_discrete a g ≡ false)
    → can_reach later a b ≡ true
unfolding can_reach partition_into
can_reach_outside groups n {later} a b cut out =
    let split : later.partition ≡ some groups = ground arith in
    rw (split, group_from_outside a 0 groups out) refl

-- After `heal` everyone reaches everyone.
pub can_reach-heal :
    (M : Type 0) (n : Network) (a b : NodeId) → can_reach (heal {M = M} n).0 a b ≡ true
unfolding can_reach heal
can_reach-heal M n a b = elim (Option-cases n.partition) [
  | inl whole ↦ ground arith
  | inr (groups, split) ↦ ground arith
]

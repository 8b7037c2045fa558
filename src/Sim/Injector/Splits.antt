-- ===== src/Sim/Injector/Splits.antt =====
-- The two groups of a partition.
use cassette.Base.{
  ℕ, suc, ◌≤◌, ◌≡◌, refl, sym, ap, subst, ◌∙◌, inl, inr, Bool, true, false, not, ◌&&◌, ◌||◌, some,
  List, [], ◌∷◌, arith, ltb, holds, Bool-cases, length, ℤ, pos, ℤ_discrete, pos_part, ◌-ℤ◌,
  -ℤ_parts, eq_of_parts, member, IsDistinct, length-le_of_subset,
}
use cassette.Kv.Version.{NodeId}
use cassette.Sim.Rng.{Source, randint, sample}
use cassette.Sim.Rng.Draws.{IsUnit, draws, count, randint_bounds, sample_distinct}
use cassette.Sim.Injector.{without, split, insert_id, sorted}

-- Where a node is.
abbrev pub has : List NodeId → NodeId → Bool
has ns n = member ℤ_discrete n ns

count_of_member :
    (n : NodeId) (ns : List NodeId) → has ns n ≡ true → 1 ≤ count (λ m. holds (ℤ_discrete m n)) ns
unfolding member
count_of_member n [] p = cc
count_of_member n (m ∷ ms) p = ground (arith, count_of_member n ms)

member_of_count :
    (n : NodeId) (ns : List NodeId) → 1 ≤ count (λ m. holds (ℤ_discrete m n)) ns → has ns n ≡ true
unfolding member
member_of_count n [] p = absurd (omega (arith, p))
member_of_count n (m ∷ ms) p = ground (arith, member_of_count n ms)

has-without :
    (n : NodeId) (side ns : List NodeId) → has (without side ns) n ≡ has ns n && not (has side n)
unfolding member
has-without n side [] = refl
has-without n side (m ∷ ms) = elim (ℤ_discrete m n) [
  | yes same ↦
      subst (λ k. has (without side (k ∷ ms)) n ≡ has (k ∷ ms) n && not (has side n)) (sym same)
        (ground (arith, has-without n side ms))
  | no differ ↦ ground (arith, has-without n side ms)
]

has-insert_id : (n k : NodeId) (ns : List NodeId) → has (insert_id k ns) n ≡ has (k ∷ ns) n
unfolding insert_id member
has-insert_id n k [] = refl
has-insert_id n k (m ∷ ms) = ground (arith, has-insert_id n k ms)

pub has-sorted : (n : NodeId) (ns : List NodeId) → has (sorted ns) n ≡ has ns n
unfolding sorted member
has-sorted n [] = refl
has-sorted n (m ∷ ms) = has-insert_id n m (sorted ms) ∙ ground (arith, has-sorted n ms)

length-insert_id : (k : NodeId) (ns : List NodeId) → length (insert_id k ns) ≡ suc (length ns)
unfolding insert_id
length-insert_id k [] = refl
length-insert_id k (m ∷ ms) = ground (arith, length-insert_id k ms)

pub length-sorted : (ns : List NodeId) → length (sorted ns) ≡ length ns
unfolding sorted
length-sorted [] = refl
length-sorted (m ∷ ms) = length-insert_id m (sorted ms) ∙ ap suc (length-sorted ms)

not_empty : (ns : List NodeId) (n : NodeId) → has ns n ≡ true → 1 ≤ length ns
unfolding member
not_empty [] n h = cc
not_empty (m ∷ ms) n h = omega arith

-- What is longer than a group leaves a node outside.
left_over :
    (side replicas : List NodeId)
    → IsDistinct ℤ_discrete replicas
    → suc (length side) ≤ length replicas
    → 1 ≤ length (without side replicas)
left_over side replicas distinct more = elim (Bool-cases (ltb (length (without side replicas)) 1)) [
  | inr some_left ↦ ground arith
  | inl none_left ↦ absurd (
      omega (
        arith,
        more,
        length-le_of_subset ℤ_discrete replicas side distinct λ n h.
            elim (Bool-cases (has side n)) [
              | inl there ↦ there
              | inr out ↦
                  let there : has (without side replicas) n ≡ true =
                    ground (arith, has-without n side replicas) in
                  absurd (ground (arith, not_empty (without side replicas) n there))
            ],
      ))
]

-- Two groups with a node each, which between them have every replica, and nothing else, once.
pub record IsCut (replicas side other : List NodeId) : Type 0 where
  pub some_here : 1 ≤ length side
  pub some_there : 1 ≤ length other
  pub apart : (n : NodeId) → has side n ≡ true → has other n ≡ false
  pub whole : (n : NodeId) → has replicas n ≡ has side n || has other n

module _ (R : Source) (unit : IsUnit R) where
  split-step :
      (replicas side : List NodeId) (g g₁ g₂ : R.State) (size : ℤ) (k : ℕ)
      → randint R (pos 1) (pos (length replicas) -ℤ pos 1) g ≡ some (size, g₁)
      → size ≡ pos k
      → sample R replicas (pos k) g₁ ≡ some (side, g₂)
      → split R replicas g ≡ some ((side, without side replicas), g₂)
  unfolding split
  split-step replicas side g g₁ g₂ size k e same drawn =
      let run : sample R replicas size g₁ ≡ some (side, g₂) = rw same drawn in
      rw (e, split) (rw run refl)

  -- Where draws lie in [0, 1), a split of two distinct replicas or more gives two groups that are
  -- not empty, have no node in common, and together are the replicas.
  pub split-IsCut :
      (replicas : List NodeId) (g : R.State)
      → IsDistinct ℤ_discrete replicas
      → 2 ≤ length replicas
      → (side other : List NodeId) × (g' : R.State) × (split R replicas g
          ≡ some ((side, other), g'))
        × IsCut replicas side other
  split-IsCut replicas g distinct enough =
      let (size, e, from, to) =
        randint_bounds R unit (pos 1) (pos (length replicas) -ℤ pos 1) g
          (ground (arith, -ℤ_parts (pos (length replicas)) (pos 1))) in
      let k = pos_part size in
      let whole_size : size ≡ pos k = eq_of_parts size (pos k) (ground (arith, from)) in
      let most = -ℤ_parts (pos (length replicas)) (pos 1) in
      let small : suc k ≤ length replicas = ground (arith, to, most, from) in
      let (side, drawn, sized, counts) =
        sample_distinct R unit k replicas (draws R 1 g) (omega (arith, small)) in
      let inside : (n : NodeId) → has side n ≡ true → has replicas n ≡ true = λ n h.
        member_of_count n replicas
          (omega (arith, counts (λ m. holds (ℤ_discrete m n)), count_of_member n side h)) in
      (
        side,
        without side replicas,
        draws R k (draws R 1 g),
        split-step replicas side g (draws R 1 g) (draws R k (draws R 1 g)) size k e whole_size
            drawn,
        record {
          some_here = ground (arith, sized, from);
          some_there = left_over side replicas distinct (omega (arith, sized, small));
          apart = λ n h. ground (arith, has-without n side replicas);
          whole = λ n. ground (arith, has-without n side replicas, inside n);
        },
      )

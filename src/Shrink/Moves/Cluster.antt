-- ===== src/Shrink/Moves/Cluster.antt =====
-- A smaller cluster.
use cassette.Base.{
  ℕ, zero, suc, ◌+◌, ◌-◌, ◌≤◌, ◌<◌, ◌≡◌, refl, sym, subst, ◌⊎◌, inl, inr, true, Option, none, List,
  map, arith, In, In-map, ℤ, pos, negsuc, pos_part, ◌≤ℤ◌, ◌<ℤ◌, +ℤ_parts, Text,
}
use Prim.Native.Nat.{◌/◌}
use native.Mathlib.Nat.{mod-lt}
use cassette.Kv.Config.{StoreConfig, post_init, quorums_overlap, faithful}
use cassette.Kv.Client.{PlannedOp}
use cassette.Scenario.{Scenario}
use cassette.Shrink.Moves.{modulo, rehome, shrunk, shrunk_from, smaller_cluster}

modulo_range : (a : ℤ) (n : ℕ) → 0 < n → (pos 0 ≤ℤ modulo a n) × (modulo a n <ℤ pos n)
unfolding modulo
modulo_range (pos a) n h = (omega arith, omega (arith, mod-lt a h))
modulo_range (negsuc a) n h = (omega arith, omega (arith, mod-lt a h))

timeout : (c : StoreConfig) → post_init c ≡ none → pos 0 <ℤ c.request_timeout_ms
unfolding post_init
timeout c h = ground arith

positive :
    (c : StoreConfig)
    → post_init c ≡ none
    → 3 ≤ pos_part c.replicas
    → pos (3 + (pos_part c.replicas - 3)) ≤ℤ c.replicas
unfolding post_init
positive c h k = ground arith

-- What holds of a candidate.
pub record IsSound {F : Type 0} (s : Scenario F) (c : Scenario F) : Type 0 where
  pub accepted : post_init c.store ≡ none
  pub overlap : quorums_overlap c.store ≡ true
  pub plain : faithful c.store ≡ true
  pub fewer : c.store.replicas <ℤ s.store.replicas
  pub coordinated :
      (plan : List PlannedOp)
      → In plan c.plans
      → (op : PlannedOp) → In op plan
      → (pos 0 ≤ℤ op.coordinator) × (op.coordinator <ℤ c.store.replicas)

shrunk-IsSound :
    {F : Type 0} (s : Scenario F) (size : ℕ)
    → pos 0 <ℤ s.store.request_timeout_ms
    → 0 < size
    → pos size <ℤ s.store.replicas
    → IsSound s (shrunk s size)
unfolding post_init quorums_overlap faithful
shrunk-IsSound s size t h l = record {
  accepted = ground arith;
  overlap = ground (arith, +ℤ_parts (pos (size / 2 + 1)) (pos (size / 2 + 1)));
  plain = refl;
  fewer = l;
  coordinated = λ plan i op j.
      let (old, there, same) = In-map (λ p. map (rehome size) p) plan s.plans i in
      let (was, from, now) = In-map (rehome size) op old (subst (λ p. In op p) (sym same) j) in
      subst (λ (o : PlannedOp). (pos 0 ≤ℤ o.coordinator) × (o.coordinator <ℤ pos size)) now
        (modulo_range was.coordinator size h);
}

shrunk_from-IsSound :
    {F : Type 0} (s c : Scenario F) (n size : ℕ)
    → pos 0 <ℤ s.store.request_timeout_ms
    → 0 < size
    → pos (size + n) ≤ℤ s.store.replicas
    → In c (shrunk_from s n size)
    → IsSound s c
shrunk_from-IsSound s c zero size t h l i = absurd i
shrunk_from-IsSound s c (suc n) size t h l (inl e) =
    subst (IsSound s) (sym e) (shrunk-IsSound s size t h (omega arith))
shrunk_from-IsSound s c (suc n) size t h l (inr i) =
    shrunk_from-IsSound s c n (suc size) t (omega arith) (omega arith) i

-- Of an accepted store, every smaller cluster that the reducer proposes is accepted, has
-- overlapping quorums and fewer replicas, has each operation coordinated by a replica that it has,
-- and is faithful, whether or not the store was.
pub smaller_cluster-IsSound :
    {F : Type 0} (s c : Scenario F) (key : Option Text)
    → post_init s.store ≡ none
    → In c (smaller_cluster s key)
    → IsSound s c
unfolding smaller_cluster
smaller_cluster-IsSound s c key accepted i = elim (many_or_none (pos_part s.store.replicas)) [
  | inl few ↦ absurd (none_shrunk s c (pos_part s.store.replicas - 3) few i)
  | inr many ↦
      shrunk_from-IsSound s c (pos_part s.store.replicas - 3) 3 (timeout s.store accepted)
        (omega arith) (positive s.store accepted many) i
]
  where
    many_or_none : (n : ℕ) → (n - 3 ≡ 0) ⊎ (3 ≤ n)
    many_or_none n = ground arith

    none_shrunk : {G : Type 0} (s c : Scenario G) (n : ℕ) → n ≡ 0 → ¬ In c (shrunk_from s n 3)
    none_shrunk s c n e j = rw e at j

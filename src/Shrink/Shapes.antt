-- ===== src/Shrink/Shapes.antt =====
-- `_small_shapes` of cassette/shrink/reduce.py: scenarios built from scratch, smallest first.
use cassette.Base.{
  ℕ, Option, none, some, List, [], ◌∷◌, ◌++◌, map, if◌then◌else◌, ℤ, pos, ℤ_discrete, range, member,
  Text,
}
use cassette.Kv.Config.{StoreConfig}
use cassette.Sim.Faults.{FaultConfig, without_faults}
use cassette.Scenario.{WorkloadSpec, Scenario}

-- `SEARCH_SEEDS`
abbrev search_seeds : ℕ
search_seeds = 150

abbrev pair_discrete : Discrete (ℤ × ℤ)
pair_discrete = hlevel ℤ_discrete

-- `_unique`, with what is `seen` in order.
unfoldable pub unique_from : List (ℤ × ℤ) → List (ℤ × ℤ) → List (ℤ × ℤ)
unique_from seen [] = seen
unique_from seen (p ∷ ps) =
    unique_from (if member pair_discrete p seen then seen else seen ++ p ∷ []) ps

-- `replace(like.store, replicas=3, read_quorum=2, write_quorum=2)`
abbrev pub small_store : StoreConfig → StoreConfig
small_store store = record store { replicas = pos 3; read_quorum = pos 2; write_quorum = pos 2 }

-- A list for each element, in order.
abbrev for_each {ℓ κ} : {A : Type ℓ} {B : Type κ} → List A → (A → List B) → List B
for_each [] f = []
for_each (x ∷ xs) f = f x ++ for_each xs f

-- The floats `0.0` and `0.5`, and `generate`, are given.
module _ {F : Type 0} (nought half : F)
    (generate : ℤ → StoreConfig → FaultConfig F → WorkloadSpec F → ℤ → Scenario F) where
  abbrev workload : Text → ℤ → ℤ → WorkloadSpec F
  workload key clients operations = record {
    clients = clients;
    operations = operations;
    keys = key ∷ [];
    value_range = (pos 1, pos 3);
    read_ratio = half;
    cas_ratio = nought;
    think_ms = (pos 0, pos 20);
  }

  abbrev pub shapes_of : Text → Scenario F → List (Scenario F)
  shapes_of key like =
      let quiet = without_faults nought like.faults in
      for_each (pos 2 ∷ pos 3 ∷ pos 4 ∷ []) (λ operations. for_each (pos 2 ∷ pos 3 ∷ []) (λ clients.
        for_each (unique_from [] (quiet.latency_ms ∷ (pos 1, pos 20) ∷ (pos 1, pos 40) ∷ []))
          (λ latency.
            map
              (λ seed.
                generate seed (small_store like.store) (record quiet { latency_ms = latency })
                  (workload key clients operations) like.horizon_ms)
              (range (pos search_seeds)))))

  unfoldable pub small_shapes : Option Text → Scenario F → List (Scenario F)
  small_shapes none like = []
  small_shapes (some key) like = shapes_of key like

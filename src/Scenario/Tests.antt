-- ===== src/Scenario/Tests.antt =====
-- Two clients with one operation each.
use cassette.Base.{
  ℕ, suc, ◌+◌, ◌*◌, ◌≡◌, refl, none, some, [], ◌∷◌, ltb, length, pos, negsuc, pos_part, ◌+ℤ◌, ◌-ℤ◌,
  text,
}
use cassette.Kv.Config.{default_config, replica_ids}
use cassette.Sim.Rng.{Source, choice, randint, at, place}
use cassette.Sim.Faults.{default_faults}
use cassette.Scenario.{WorkloadSpec, Scenario, generate, plan_one, operation_count, fault_count}
use cassette.Scenario.Generated.{generate_shape}
use cassette.Kv.Client.{PlannedOp}
use cassette.Checker.History.{read_kind}

abbrev counting : Source
counting = record {
  State = ℕ;
  Float = ℕ;
  random = λ g. (g, suc g);
  less = λ x p. ltb x p;
  scaled = λ x n. pos 0;
}

abbrev spec : WorkloadSpec ℕ
spec = record {
  clients = pos 2;
  operations = pos 1;
  keys = text "x" ∷ [];
  value_range = (pos 1, pos 9);
  read_ratio = 50;
  cas_ratio = 0;
  think_ms = (pos 0, pos 60);
}

abbrev one_read : PlannedOp
one_read = record {
  kind = read_kind;
  key = text "x";
  argument = none;
  expected = none;
  coordinator = pos 0;
  delay_ms = pos 0;
}

abbrev generated : Scenario ℕ
generated = record {
  seed = pos 3;
  store = default_config;
  faults = default_faults 0;
  plans = (one_read ∷ []) ∷ (one_read ∷ []) ∷ [];
  horizon_ms = pos 1000;
  schedule = none;
}

generate-spec :
    generate counting (λ a b. a + b) (pos 3) 0 default_config (default_faults 0) spec (pos 1000)
    ≡ some generated
unfolding generate plan_one choice randint at place replica_ids ◌+ℤ◌ ◌-ℤ◌
generate-spec = refl

generate_shape_example :
    (length generated.plans ≡ pos_part spec.clients)
    × (operation_count generated ≡ pos_part spec.clients * pos_part spec.operations)
    × (fault_count generated ≡ negsuc 0)
generate_shape_example =
    generate_shape counting (λ a b. a + b) (pos 3) 0 default_config (default_faults 0) spec
      (pos 1000) {s = generated} generate-spec

-- ===== src/Shrink/Tests.antt =====
-- A scenario that always fails, and the clusters that it is tried on.
use cassette.Base.{
  ℕ, ◌≤◌, ◌≡◌, refl, inl, true, false, none, some, [], ◌∷◌, arith, In, pos, ◌≤ℤ◌, text,
  text_discrete,
}
use cassette.Kv.Config.{default_config, post_init}
use cassette.Checker.Linear.{Verdict, violated}
use cassette.Sim.Faults.{default_faults}
use cassette.Scenario.{Scenario}
use cassette.Shrink.{
  Run, Search, Reduction, weight, size_of, pinned, all_moves, fails_the_same_way, delete,
  shrink_from,
}
use cassette.Shrink.Moves.{smaller_cluster, shrunk}
use cassette.Shrink.Moves.Cluster.{IsSound, smaller_cluster-IsSound}
use cassette.Shrink.Accepted.{shrink_from_fails, delete_enough}

abbrev large : Scenario ℕ
large = record {
  seed = pos 3;
  store = default_config;
  faults = default_faults 0;
  plans = [] ∷ [] ∷ [];
  horizon_ms = pos 1000;
  schedule = none;
}

abbrev bad : Verdict
bad = record {
  linearizable = false;
  key = some (text "x");
  operation = none;
  explanation = none;
  checked_operations = 4;
  exhausted = false;
}

abbrev always_fails : Scenario ℕ → Run ℕ
always_fails s = record { scenario = s; delivered = 9; verdict = some bad; schedule = [] }

fails : fails_the_same_way (always_fails (pinned (always_fails large))) bad ≡ true
unfolding fails_the_same_way violated text_discrete
fails = refl

abbrev reduction : Reduction ℕ
reduction = shrink_from always_fails (λ key s. []) all_moves large 20 (always_fails large) bad

shrink_from_fails_example :
    (fails_the_same_way (always_fails reduction.reduced) bad ≡ true)
    × (reduction.verdict ≡ (always_fails reduction.reduced).verdict)
    × (weight reduction.reduced_size
        ≤ℤ weight (size_of (always_fails (pinned (always_fails large)))))
    × (reduction.candidates ≤ 20)
shrink_from_fails_example =
    shrink_from_fails always_fails bad 20 (λ key s. []) all_moves large (always_fails large) fails

abbrev started : Search ℕ
started = record {
  best = large;
  best_run = always_fails large;
  best_size = size_of (always_fails large);
  spent = 0;
}

delete_enough_example :
    delete always_fails bad 4 6 all_moves started ≡ delete always_fails bad 4 5 all_moves started
delete_enough_example = delete_enough always_fails bad 4 5 all_moves started (omega arith)

accepted : post_init large.store ≡ none
unfolding post_init
accepted = refl

three_proposed : In (shrunk large 3) (smaller_cluster large none)
unfolding smaller_cluster
three_proposed = inl refl

smaller_cluster-IsSound_example : IsSound large (shrunk large 3)
smaller_cluster-IsSound_example =
    smaller_cluster-IsSound large (shrunk large 3) none accepted three_proposed

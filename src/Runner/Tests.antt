-- ===== src/Runner/Tests.antt =====
-- A cluster of five replicas with one client that reads once, under an adversary that partitions.
use cassette.Base.{
  ℕ, suc, ◌≤◌, ◌≡◌, refl, ◌⊎◌, Bool, true, false, Option, none, some, List, [], ◌∷◌, arith, ltb,
  leb, holds, length, keep, ℤ, pos, ℤ_discrete, pos_part, ◌+ℤ◌, ◌-ℤ◌, max_ℤ, range_from, lookup,
  insert, remove, member, add, Text, text, show_ℤ,
}
use cassette.Checker.History.{read_kind, never, unknown, ok}
use cassette.Checker.History.Keys.{on_key}
use cassette.Checker.Linear.{Verdict, violated}
use cassette.Checker.Linearizable.{Linearizable}
use cassette.Kv.Config
use cassette.Kv.Config.{default_config, replica_ids}
use cassette.Kv.Client.{PlannedOp}
use cassette.Kv.Messages.{Message}
use cassette.Runner.{Cluster, cluster, Run, conduct, execute, pinned, replicas_of, all_finished}
use cassette.Runner.Executed.{IsBudget, IsConducted, conduct_lem, launch_lem, tick_of}
use cassette.Runner.Invariant.{IsCluster, cluster-Laws}
use cassette.Runner.Judged.{
  IsExecutable, IsRun, judged, replica_ids-IsDistinct, execute_verdict, execute-pinned,
}
use cassette.Runner.Wiring.{wired-IsCluster}
use cassette.Scenario.{Scenario}
use cassette.Sim.Faults
use cassette.Sim.Faults.{FaultConfig, InjectedFault, default_faults, without_faults}
use cassette.Sim.Injector.{FaultInjector, split, tick, by_tick, or_nothing}
use cassette.Sim.Injector.Quiet.{IsQuiet, tick-without_faults}
use cassette.Sim.Injector.Splits.{IsCut, split-IsCut}
use cassette.Sim.Injector.Ticking.{AreDecisions, tick-IsTicked}
use cassette.Sim.Injector.Replaying.{by_tick-lookup}
use cassette.Sim.Rng.{Source}
use cassette.Sim.Rng.Draws.{IsUnit}
use cassette.Sim.Scheduler
use cassette.Sim.Simulation
use cassette.Sim.Simulation.{Simulation, clock_now}
use cassette.Sim.Simulation.Laws.{IsRunning, Ticks}
use cassette.Sim.Simulation.Progress.{HasStepped, step_lem}
use cassette.Sim.Simulation.Running.{HasRun, run_lem}
use cassette.Sim.Simulation.Starting.{init-IsRunning}
use cassette.Sim.Simulation.Steps.{step, run}

abbrev counting : Source
counting = record {
  State = ℕ;
  Float = ℕ;
  random = λ g. (g, suc g);
  less = λ x p. ltb x p;
  scaled = λ x n. pos 0;
}

counting-IsUnit : IsUnit counting
counting-IsUnit g n h = (omega arith, h)

abbrev is_rate : ℕ → Bool
is_rate x = leb x 10

abbrev is_zero : ℕ → Bool
is_zero x = leb x 0

abbrev hostile : FaultConfig ℕ
hostile = record (default_faults 0) { partition_rate = 9; crash_rate = 1 }

abbrev one_read : PlannedOp
one_read = record {
  kind = read_kind;
  key = text "x";
  argument = none;
  expected = none;
  coordinator = pos 0;
  delay_ms = pos 0;
}

abbrev scenario : Scenario ℕ
scenario = record {
  seed = pos 3;
  store = default_config;
  faults = hostile;
  plans = (one_read ∷ []) ∷ [];
  horizon_ms = pos 1000;
  schedule = none;
}

store_accepted : Config.post_init default_config ≡ none
unfolding Config.post_init
store_accepted = refl

faults_accepted : Faults.post_init is_rate hostile ≡ none
unfolding Faults.post_init
faults_accepted = refl

five : 2 ≤ length (replica_ids default_config)
unfolding replica_ids
five = omega arith

scenario-IsExecutable : IsExecutable is_rate scenario
scenario-IsExecutable = record {
  store = store_accepted;
  faults = faults_accepted;
  plans = ((omega arith, tt), tt);
  horizon = omega arith;
  driven = five;
}

abbrev seeded : ℤ → ℕ
seeded seed = pos_part seed

abbrev salted : ℤ → ℤ
salted seed = seed +ℤ pos 1

abbrev ids : List ℤ
ids = replica_ids default_config

limits : IsBudget hostile
limits = record { window = (omega arith, omega arith); skew = omega arith; tick = omega arith }

abbrev Dice : FaultInjector counting → Type 0
Dice = AreDecisions counting ids

abbrev dice :
    Simulation counting cluster (FaultInjector counting)
    → Option (Simulation counting cluster (FaultInjector counting))
dice = tick hostile ids

tick-IsTicked_example : Ticks {R = counting} {N = cluster} Dice (some dice)
tick-IsTicked_example =
    tick-IsTicked {R = counting} counting-IsUnit hostile ids {N = cluster}
      (replica_ids-IsDistinct default_config) five (omega arith, omega arith)
      (omega arith, omega arith) (omega arith, omega arith) (omega arith)

dice-Ticks : Ticks {R = counting} {N = cluster} Dice (some dice)
dice-Ticks =
    tick-IsTicked {R = counting} counting-IsUnit hostile ids {N = cluster}
      (replica_ids-IsDistinct default_config) five (omega arith, omega arith)
      (omega arith, omega arith) (omega arith, omega arith) (omega arith)

abbrev fresh : FaultInjector counting
fresh = record { rng = 7; decisions = [] }

conduct_lem_example :
    (delivered : ℕ) × (later : Simulation counting cluster (FaultInjector counting)) × (conduct
        {R = counting} hostile 50
        (pos 400)
        dice
        true
        fresh
        3
        scenario
      ≡ some (delivered, later))
    × IsConducted {R = counting} hostile Dice 50
        (pos 1000)
        (tick_of {R = counting} hostile true dice)
        delivered
        later
conduct_lem_example =
    conduct_lem {R = counting} hostile counting-IsUnit limits Dice dice dice-Ticks 50 (pos 400) true
      fresh 3 scenario store_accepted ((omega arith, tt), tt) (omega arith) tt

abbrev cluster_of_five : Cluster
cluster_of_five = record {
  replicas = replicas_of default_config (range_from (pos 0) 5);
  clients = [];
  history = [];
}

abbrev idle : Simulation counting cluster (FaultInjector counting)
idle = Simulation.init cluster_of_five fresh 3 (Scheduler.init (record { now = pos 0 }))

five-IsCluster : IsCluster (λ n t. false) cluster_of_five
five-IsCluster = wired-IsCluster default_config (pos 400) 5 [] store_accepted (omega arith) tt

idle-IsRunning : IsRunning {R = counting} IsCluster Dice idle
idle-IsRunning =
    init-IsRunning {R = counting} IsCluster Dice cluster_of_five fresh 3 five-IsCluster tt

-- The engine with the first tick of the adversary queued.
abbrev alert : Simulation counting cluster (FaultInjector counting)
alert = (launch_lem {R = counting} hostile Dice true idle (omega arith) idle-IsRunning).0

alert-IsRunning : IsRunning {R = counting} IsCluster Dice alert
alert-IsRunning = (launch_lem {R = counting} hostile Dice true idle (omega arith) idle-IsRunning).2

step_lem_example :
    (more : Bool) × (later : Simulation counting cluster (FaultInjector counting)) × (step
        {R = counting} hostile
        (some dice)
        alert
      ≡ some (more, later))
    × HasStepped {R = counting} IsCluster Dice counting-IsUnit hostile
        (omega arith, omega arith)
        cluster-Laws
        (some dice)
        dice-Ticks
        alert
        more
        later
step_lem_example =
    step_lem {R = counting} IsCluster Dice counting-IsUnit hostile (omega arith, omega arith)
      cluster-Laws (some dice) dice-Ticks alert alert-IsRunning

run_lem_example :
    (delivered : ℕ) × (later : Simulation counting cluster (FaultInjector counting)) × (run
        {R = counting} hostile
        (some dice)
        50
        (some (pos 1000))
        (λ x. all_finished x.nodes.clients)
        alert
      ≡ some (delivered, later))
    × HasRun {R = counting} hostile
        (some dice)
        IsCluster
        Dice
        50
        (some (pos 1000))
        (λ x. all_finished x.nodes.clients)
        alert
        delivered
        later
run_lem_example =
    run_lem {R = counting} hostile (some dice) IsCluster Dice counting-IsUnit
      (omega arith, omega arith) cluster-Laws dice-Ticks 50 (some (pos 1000))
      (λ x. all_finished x.nodes.clients) alert alert-IsRunning

split-IsCut_example :
    (side other : List ℤ) × (g : ℕ) × (split counting ids 3 ≡ some ((side, other), g))
    × IsCut ids side other
split-IsCut_example =
    split-IsCut counting counting-IsUnit ids 3 (replica_ids-IsDistinct default_config) five

abbrev crash_at : ℕ → ℕ → InjectedFault
crash_at time victim = record {
  at_ms = pos time;
  kind = text "crash";
  duration_ms = pos 100;
  targets = pos victim ∷ [];
}

abbrev three_crashes : List InjectedFault
three_crashes = crash_at 100 0 ∷ crash_at 200 1 ∷ crash_at 100 2 ∷ []

by_tick-lookup_example :
    or_nothing (lookup ℤ_discrete (pos 100) (by_tick three_crashes))
    ≡ keep (λ fault. holds (ℤ_discrete fault.at_ms (pos 100))) three_crashes
by_tick-lookup_example = by_tick-lookup (pos 100) three_crashes

scheduled-IsExecutable : IsExecutable is_rate (record scenario { schedule = some three_crashes })
scheduled-IsExecutable = record {
  store = store_accepted;
  faults = faults_accepted;
  plans = ((omega arith, tt), tt);
  horizon = omega arith;
  driven = (omega arith, (omega arith, (omega arith, tt)));
}

abbrev good : Verdict
good = record {
  linearizable = true;
  key = none;
  operation = none;
  explanation = none;
  checked_operations = 1;
  exhausted = false;
}

abbrev one_run : Run Message
one_run = record {
  history =
      record {
        index = 0;
        client = pos 5;
        kind = read_kind;
        key = text "x";
        argument = none;
        expected = none;
        invoked_ms = pos 0;
        returned_ms = pos 4;
        outcome = ok;
        result = none;
      }
      ∷ [];
  events = [];
  delivered = 13;
  elapsed_ms = pos 4;
  verdict = some good;
  schedule = [];
}

-- A client that reads behind the first partition, and is cut off.
abbrev late : Scenario ℕ
late = record scenario { plans = (record one_read { delay_ms = pos 150 } ∷ []) ∷ [] }

late-IsExecutable : IsExecutable is_rate late
late-IsExecutable = record {
  store = store_accepted;
  faults = faults_accepted;
  plans = ((omega arith, tt), tt);
  horizon = omega arith;
  driven = five;
}

abbrev late_run : Run Message
late_run = record {
  history =
      record {
        index = 0;
        client = pos 5;
        kind = read_kind;
        key = text "x";
        argument = none;
        expected = none;
        invoked_ms = pos 150;
        returned_ms = never;
        outcome = unknown;
        result = none;
      }
      ∷ [];
  events = [];
  delivered = 16;
  elapsed_ms = pos 550;
  verdict = none;
  schedule =
      record {
        at_ms = pos 100;
        kind = text "partition";
        duration_ms = pos 200;
        targets = pos 0 ∷ [];
      }
      ∷ [];
}

execute-late :
    execute counting is_zero seeded salted false false 100 (pos 400) 60 late ≡ some late_run
unfolding lookup insert remove member ◌+ℤ◌ ◌-ℤ◌ max_ℤ cassette.Checker.History.invoke
    cassette.Checker.History.give_up cassette.Kv.Client.finished cassette.Kv.Client.arm
    cassette.Kv.Client.issue cassette.Kv.Client.settle cassette.Kv.Client.on_timer
    cassette.Kv.Config.replica_ids cassette.Kv.Replica.on_message cassette.Runner.turn
    cassette.Runner.replicas_of cassette.Runner.clients_of cassette.Runner.conduct
    cassette.Runner.conclude cassette.Runner.execute cassette.Scenario.client_ids
    cassette.Sim.Clock.advance_to cassette.Sim.Events.comes_first
    cassette.Sim.Faults.injects_anything cassette.Sim.Injector.sorted cassette.Sim.Injector.arm_tick
    cassette.Sim.Injector.split cassette.Sim.Injector.cut cassette.Sim.Injector.roll_partition
    cassette.Sim.Injector.roll_crash cassette.Sim.Injector.roll_pause cassette.Sim.Injector.tick
    cassette.Sim.Network.send_copy cassette.Sim.Network.send_copies cassette.Sim.Network.send
    cassette.Sim.Network.report_drop cassette.Sim.Network.partition_into cassette.Sim.Network.heal
    cassette.Sim.Network.can_reach cassette.Sim.Rng.place cassette.Sim.Rng.swap
    cassette.Sim.Rng.chance cassette.Sim.Rng.randint cassette.Sim.Rng.sample_from
    cassette.Sim.Rng.sample cassette.Sim.Scheduler.schedule cassette.Sim.Scheduler.pop
    cassette.Sim.Scheduler.peek_time cassette.Sim.Simulation.key_discrete
    cassette.Sim.Simulation.skew_of cassette.Sim.Simulation.now_for
    cassette.Sim.Simulation.drop_timer cassette.Sim.Simulation.arm_timer
    cassette.Sim.Simulation.schedule_partition cassette.Sim.Simulation.Steps.add_node
    cassette.Sim.Simulation.Steps.route cassette.Sim.Simulation.Steps.perform
    cassette.Sim.Simulation.Steps.handle cassette.Sim.Simulation.Steps.deliver
    cassette.Sim.Simulation.Steps.fire cassette.Sim.Simulation.Steps.act
    cassette.Sim.Simulation.Steps.step cassette.Sim.Simulation.Steps.past_horizon
    cassette.Sim.Simulation.Steps.run
execute-late = refl

execute-pinned_example :
    (again : Run Message) × (execute counting is_zero seeded salted false false 100
        (pos 400)
        60
        (pinned late late_run)
      ≡ judged false 100 again)
    × IsRun 60 (pinned late late_run) again
    × (again.schedule ≡ late_run.schedule)
execute-pinned_example =
    execute-pinned counting is_zero seeded salted counting-IsUnit is_rate false false 100 (pos 400)
      60 late late-IsExecutable (omega arith) {run = late_run} execute-late

execute-scenario :
    execute counting is_zero seeded salted false true 100 (pos 400) 60 scenario ≡ some one_run
unfolding lookup insert remove member add ◌+ℤ◌ ◌-ℤ◌ max_ℤ show_ℤ cassette.Checker.History.invoke
    cassette.Checker.History.complete cassette.Checker.History.by_key
    cassette.Checker.Linear.check_key cassette.Checker.Linear.check cassette.Checker.Model.apply
    cassette.Checker.Model.matches cassette.Checker.Search.table cassette.Checker.Search.required
    cassette.Checker.Search.covered cassette.Checker.Search.pending
    cassette.Checker.Search.candidates cassette.Checker.Search.visited
    cassette.Checker.Search.search cassette.Kv.Client.finished cassette.Kv.Client.arm
    cassette.Kv.Client.issue cassette.Kv.Client.result cassette.Kv.Client.settle
    cassette.Kv.Client.on_message cassette.Kv.Client.on_timer cassette.Kv.Config.replica_ids
    cassette.Kv.Replica.on_read_quorum cassette.Kv.Replica.on_message cassette.Kv.Round.timer_tag
    cassette.Kv.Round.newest cassette.Kv.Version.Version-discrete cassette.Kv.Version.Value-discrete
    cassette.Runner.turn cassette.Runner.replicas_of cassette.Runner.clients_of
    cassette.Runner.conduct cassette.Runner.conclude cassette.Runner.execute
    cassette.Scenario.client_ids cassette.Sim.Clock.advance_to cassette.Sim.Events.comes_first
    cassette.Sim.Faults.injects_anything cassette.Sim.Injector.arm_tick
    cassette.Sim.Network.send_copy cassette.Sim.Network.send_copies cassette.Sim.Network.send
    cassette.Sim.Network.can_reach cassette.Sim.Rng.chance cassette.Sim.Rng.randint
    cassette.Sim.Scheduler.schedule cassette.Sim.Scheduler.cancel cassette.Sim.Scheduler.pop
    cassette.Sim.Scheduler.peek_time cassette.Sim.Simulation.key_discrete
    cassette.Sim.Simulation.skew_of cassette.Sim.Simulation.now_for
    cassette.Sim.Simulation.drop_timer cassette.Sim.Simulation.arm_timer
    cassette.Sim.Simulation.Steps.add_node cassette.Sim.Simulation.Steps.route
    cassette.Sim.Simulation.Steps.perform cassette.Sim.Simulation.Steps.handle
    cassette.Checker.History.give_up cassette.Sim.Injector.sorted cassette.Sim.Injector.split
    cassette.Sim.Injector.cut cassette.Sim.Injector.roll_partition cassette.Sim.Injector.roll_crash
    cassette.Sim.Injector.roll_pause cassette.Sim.Injector.tick cassette.Sim.Network.report_drop
    cassette.Sim.Network.partition_into cassette.Sim.Network.heal cassette.Sim.Rng.place
    cassette.Sim.Rng.swap cassette.Sim.Rng.sample_from cassette.Sim.Rng.sample
    cassette.Sim.Simulation.schedule_partition cassette.Sim.Simulation.Steps.deliver
    cassette.Sim.Simulation.Steps.fire cassette.Sim.Simulation.Steps.act
    cassette.Sim.Simulation.Steps.step cassette.Sim.Simulation.Steps.past_horizon
    cassette.Sim.Simulation.Steps.run
execute-scenario = refl

execute_verdict_example :
    ((good.linearizable ≡ true) × ((key : Text) → Linearizable (on_key key one_run.history)))
    ⊎ ((good.linearizable ≡ false) × (good.exhausted ≡ true))
    ⊎ ((good.linearizable ≡ false)
        × (good.exhausted ≡ false)
        × ((key : Text) × (good.key ≡ some key) × (¬ Linearizable (on_key key one_run.history))))
execute_verdict_example =
    execute_verdict counting is_zero seeded salted counting-IsUnit is_rate false 100 (pos 400) 60
      scenario scenario-IsExecutable (omega arith) {run = one_run} {v = good} execute-scenario refl

zero_never : (g : ℕ) → ltb g 0 ≡ false
zero_never g = ground arith

tick-without_faults_example :
    (later : Simulation counting cluster (FaultInjector counting)) × (tick {R = counting}
        (without_faults 0 hostile)
        ids
        alert
      ≡ some later)
    × IsQuiet {R = counting} {N = cluster} hostile alert later
tick-without_faults_example =
    tick-without_faults {R = counting} is_rate 0 zero_never hostile faults_accepted {N = cluster}
      ids alert

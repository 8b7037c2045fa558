-- ===== src/Runner.antt =====
-- cassette/runner.py: the replicas and the clients as the nodes of the engine, and the execution
-- of a scenario. The nodes are in two dicts by their ids, and the clients share the history.
pub mod Calls
pub mod Invariant
pub mod Wiring
pub mod Conducted
pub mod Executed
pub mod Judged
mod Tests
use cassette.Base.{
  ℕ, ◌*◌, Bool, true, false, not, ◌||◌, Option, none, some, List, [], ◌∷◌, map, ltb, if◌then◌else◌,
  length, all, ℤ, pos, ℤ_discrete, pos_part, neg_part, sub_ℕ, Dict, lookup, insert,
}
use cassette.Kv.Version.{NodeId}
use cassette.Kv.Messages.{Message}
use cassette.Kv.Config.{StoreConfig, replica_ids}
use cassette.Kv.Replica
use cassette.Kv.Replica.{Replica}
use cassette.Kv.Client
use cassette.Kv.Client.{Client, PlannedOp, Outcome, finished}
use cassette.Checker.History.{History}
use cassette.Checker.Linear.{Verdict, check, violated}
use cassette.Scenario.{Scenario, client_ids}
use cassette.Sim.Env.{Effect, send, set_timer, cancel_timer, Nodes}
use cassette.Sim.Faults.{FaultConfig, InjectedFault, injects_anything}
use cassette.Sim.Injector.{FaultInjector, arm_tick, tick, by_tick, replay_tick}
use cassette.Sim.Rng.{Source}
use cassette.Sim.Scheduler
use cassette.Sim.Simulation
use cassette.Sim.Simulation.{Note, Simulation, clock_now}
use cassette.Sim.Simulation.Steps.{add_node, perform_all, run}

pub record Cluster : Type 0 where
  pub replicas : Dict NodeId Replica
  pub clients : Dict NodeId Client
  pub history : History

-- A call of a node, for the engine.
abbrev pub call : Replica.Effect → Effect Message
call (Replica.Effect.send to m) = send to m
call (Replica.Effect.set_timer delay_ms tag) = set_timer delay_ms tag
call (Replica.Effect.cancel_timer tag) = cancel_timer tag

abbrev pub Reaction : Type 0
Reaction = Option (Cluster × List (Effect Message))

-- What a handler of a replica, or of a client, comes to.
abbrev pub replica_turn : NodeId → Cluster → Option Replica.Step → Reaction
replica_turn node c none = none
replica_turn node c (some (r, calls)) =
    some (record c { replicas = insert ℤ_discrete node r c.replicas }, map call calls)

abbrev pub client_turn : NodeId → Cluster → Option Outcome → Reaction
client_turn node c none = none
client_turn node c (some (client, history, calls)) = some (
  record c { clients = insert ℤ_discrete node client c.clients; history = history },
  map call calls,
)

-- The handlers of a node that is a replica or a client; no other is registered.
unfoldable pub turn :
    NodeId
    → Cluster
    → (Replica → Option Replica.Step)
    → (Client → History → Option Outcome)
    → Reaction
turn node c of_replica of_client = elim (lookup ℤ_discrete node c.replicas) [
  | some r ↦ replica_turn node c (of_replica r)
  | none ↦ elim (lookup ℤ_discrete node c.clients) [
    | some client ↦ client_turn node c (of_client client c.history)
    | none ↦ some (c, [])
  ]
]

-- A client does nothing when it crashes or comes back.
unfoldable pub crash : NodeId → Cluster → Cluster
crash node c = elim (lookup ℤ_discrete node c.replicas) [
  | some r ↦ record c { replicas = insert ℤ_discrete node (Replica.on_crash r) c.replicas }
  | none ↦ c
]

abbrev pub cluster : Nodes Message
cluster = record {
  State = Cluster;
  on_message = λ node now sender m c.
      turn node c (λ r. some (Replica.on_message r sender m)) (Client.on_message now sender m);
  on_timer = λ node now tag c. turn node c (λ r. Replica.on_timer r tag) (Client.on_timer now tag);
  on_crash = crash;
  on_restart = λ node now c.
      turn node c (λ r. some (Replica.on_restart r)) (λ client h. some (client, h, []));
}

-- The replicas of a store, and the clients of the plans, by their ids.
unfoldable pub replicas_of : StoreConfig → List NodeId → Dict NodeId Replica
replicas_of store [] = []
replicas_of store (n ∷ ns) = (n, Replica.init n store) ∷ replicas_of store ns

-- `node_id * 1_000_000`
abbrev pub first_req : NodeId → ℤ
first_req n = sub_ℕ (pos_part n * 1000000) (neg_part n * 1000000)

-- `zip(..., strict=True)`: `none` is its `ValueError`.
unfoldable pub clients_of : ℤ → List NodeId → List (List PlannedOp) → Option (Dict NodeId Client)
clients_of patience_ms [] [] = some []
clients_of patience_ms [] (plan ∷ plans) = none
clients_of patience_ms (n ∷ ns) [] = none
clients_of patience_ms (n ∷ ns) (plan ∷ plans) = elim (clients_of patience_ms ns plans) [
  | none ↦ none
  | some rest ↦ some ((n, Client.init n (first_req n) plan patience_ms) ∷ rest)
]

-- What a run gives back, but for the scenario that it was given.
pub record Run (M : Type 0) : Type 0 where
  pub history : History
  pub events : List (ℤ × Note M)
  pub delivered : ℕ
  pub elapsed_ms : ℤ
  pub verdict : Option Verdict
  pub schedule : List InjectedFault

-- `Run.violated`
unfoldable pub run_violated : {M : Type 0} → Run M → Bool
run_violated r = elim r.verdict [ none ↦ false | some v ↦ violated v ]

-- `Run.pinned`
abbrev pub pinned : {F M : Type 0} → Scenario F → Run M → Scenario F
pinned scenario r = record scenario { schedule = some r.schedule }

-- `all(client.finished for client in clients)`
abbrev pub all_finished : Dict NodeId Client → Bool
all_finished clients = all (λ (e : NodeId × Client). finished e.1) clients

module _ {R : Source} (config : FaultConfig R.Float) {A : Type 0} where
  unfoldable pub add_all :
      List NodeId → Bool → Simulation R cluster A → Option (Simulation R cluster A)
  add_all [] skewed s = some s
  add_all (n ∷ ns) skewed s = elim (add_node config n skewed s) [
    | none ↦ none
    | some s' ↦ add_all ns skewed s'
  ]

  -- The loop that starts the clients.
  unfoldable pub start_all :
      Dict NodeId Client → Simulation R cluster A → Option (Simulation R cluster A)
  start_all [] s = some s
  start_all ((n, c) ∷ rest) s = elim (perform_all config n (map call (Client.start c)) s) [
    | none ↦ none
    | some s' ↦ start_all rest s'
  ]

  -- The adversary's `start`, when it has something to inject.
  unfoldable pub launch : Bool → Simulation R cluster A → Option (Simulation R cluster A)
  launch armed s = if armed then arm_tick config s else some s

  -- `execute` from the wiring to the end of the run, with the initial state of the adversary, its
  -- tick and whether it arms it. The loop of the run is bounded by `fuel` events.
  unfoldable pub conduct :
      ℕ
      → ℤ
      → (Simulation R cluster A → Option (Simulation R cluster A))
      → Bool
      → A
      → R.State
      → Scenario R.Float
      → Option (ℕ × Simulation R cluster A)
  unfolding add_all start_all launch
  conduct fuel patience_ms tick armed adversary rng scenario =
      elim (clients_of patience_ms (client_ids scenario) scenario.plans) [
        | none ↦ none
        | some clients ↦
            let ids = replica_ids scenario.store in
            let nodes : Cluster = record {
              replicas = replicas_of scenario.store ids;
              clients = clients;
              history = [];
            } in
            let s : Simulation R cluster A =
              Simulation.init nodes adversary rng (Scheduler.init (record { now = pos 0 })) in
            elim (add_all ids true s) [
              | none ↦ none
              | some s₁ ↦ elim (add_all (client_ids scenario) false s₁) [
                | none ↦ none
                | some s₂ ↦ elim (launch armed s₂) [
                  | none ↦ none
                  | some s₃ ↦ elim (start_all clients s₃) [
                    | none ↦ none
                    | some s₄ ↦
                        run config (if armed then some tick else none) fuel
                          (some scenario.horizon_ms) (λ x. all_finished x.nodes.clients) s₄
                  ]
                ]
              ]
            ]
      ]

-- The end of `execute`.
unfoldable pub conclude :
    {R : Source} {A : Type 0}
    → Bool
    → Bool
    → ℕ
    → (A → List InjectedFault)
    → ℕ × Simulation R cluster A
    → Option (Run Message)
conclude record_it judge budget schedule (delivered, s) =
    let result : Option Verdict → Run Message = λ verdict. record {
      history = s.nodes.history;
      events = if record_it then s.events else [];
      delivered = delivered;
      elapsed_ms = clock_now s;
      verdict = verdict;
      schedule = schedule s.adversary;
    } in
    if judge
    then elim (check s.nodes.history budget) [ none ↦ none | some v ↦ some (result (some v)) ]
    else some (result none)

abbrev pub is_empty : List InjectedFault → Bool
is_empty [] = true
is_empty (f ∷ fs) = false

-- `seeded` is the source of a seed, `salted` the seed of the adversary.
module _ (R : Source) (is_zero : R.Float → Bool) (seeded : ℤ → R.State) (salted : ℤ → ℤ) where
  -- `execute`, with the two adversaries; `none` is an exception.
  unfoldable pub execute : Bool → Bool → ℕ → ℤ → ℕ → Scenario R.Float → Option (Run Message)
  execute record_it judge budget patience_ms fuel scenario =
      let ids = replica_ids scenario.store in
      let rng = seeded scenario.seed in
      let active = injects_anything is_zero scenario.faults in
      elim scenario.schedule [
        | none ↦
            if ltb (length ids) 2
            then none
            else elim (conduct {R = R} scenario.faults fuel patience_ms (tick scenario.faults ids)
                active (record { rng = seeded (salted scenario.seed); decisions = [] }) rng
                scenario) [
                  | none ↦ none
                  | some done ↦
                      conclude {R = R} record_it judge budget (λ (a : FaultInjector R). a.decisions)
                        done
                ]
        | some schedule ↦
            elim (conduct {R = R} scenario.faults fuel patience_ms (replay_tick scenario.faults ids)
              (active || not (is_empty schedule)) (by_tick schedule) rng scenario) [
                | none ↦ none
                | some done ↦ conclude {R = R} record_it judge budget (λ _. schedule) done
              ]
      ]

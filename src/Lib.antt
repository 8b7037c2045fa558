-- ===== src/Lib.antt =====
-- Cassette: a replicated key-value store under a deterministic simulator, with a linearizability
-- checker that judges what the store told its clients.
--
-- The parts, and the files that model them:
--
-- - `Base`: lists, dicts, sets, integers and texts of Python over the native numbers. An integer of
--   Python is a `ℤ`, so nothing wraps around; a dict is an association list in insertion order and
--   a set is a list without repetitions; a text is a list of character codes.
-- - `Kv`: the store, `cassette/kv/`. `Kv.Version` is `version.py`, `Kv.Config` is `config.py`,
--   `Kv.Messages` is `messages.py`, `Kv.Round` and `Kv.Replica` are `replica.py`. A handler of
--   `Replica` becomes a function from a replica to a replica and the list of calls that it makes of
--   its environment (`send`, `set_timer`, `cancel_timer`), which it never reads from. A round, in
--   the source one object that a dict and a handler share, is written back after every change.
--   `Kv.Quorum` is about the sizes of quorums; the children of `Kv.Replica` are the invariant of
--   the open rounds (`Valid`, `Handlers`), what clients are told (`Replies`, `Answers`), the
--   stamps (`Minting`), what is on disk (`Durable`) and the timers of the rounds (`Timely`, `Timed`).
-- - `Checker`: the oracle, `cassette/checker/`. `Checker.History` is `history.py`, `Checker.Model` is
--   `model.py`, `Checker.Search` is `_search` of `linear.py` and `Checker.Linear` the rest of that file.
--   `Checker.Linearizable` is the definition that the search is compared with, which knows of no
--   search. The search recurses on fuel, one more than the number of operations: each level of the
--   walk places one more of them.
-- - `Sim`: the simulator, `cassette/sim/`. `Sim.Clock`, `Sim.Events`, `Sim.Scheduler`, `Sim.Rng`,
--   `Sim.Faults` and `Sim.Network` are the files of those names. The heap of the scheduler is the list of
--   its entries in their order. `random.Random` and the float operations on its draws are the
--   parameter `Source`; the theorems about drawing take as a hypothesis that a draw lies in [0, 1).
-- - `Sim.Env` is `env.py`: the calls of a node, and the handlers of all nodes over one state that they may
--   share. `Sim.Simulation` and `Sim.Simulation.Steps` are `simulation.py`: the engine as a record with the
--   scheduler, the network and the timers, and an operation for each method; `set_timer` is
--   `arm_timer`, `cancel_timer` is `drop_timer`, `send` is `route`, and `NodeEnv` is `perform`. A
--   handler's calls are made behind its return, in their order. The children of `Sim.Simulation` are
--   the invariant of the engine (`Valid`), what an operation does to it, the laws that the engine
--   asks of its nodes and its adversary (`Laws`), and the step and the loop (`Progress`, `Running`).
--   `run` recurses on the bound `max_events`, which the runner leaves open: there it is a parameter,
--   and every run within a horizon of less than the bound's events ends for a reason of the loop.
-- - `Sim.Injector` is `injector.py`: the dice and the replay, each as a tick on the engine that holds its
--   state; `Sim.Injector.Quiet` is about a budget without faults.
-- - `Runner` is `cassette/runner.py`: replicas and clients as the nodes of the engine (`cluster`), the wiring
--   and the loop (`conduct`), and the verdict (`execute`). `Runner.Invariant` fills the laws of the
--   engine, `Runner.Judged` says what an execution comes to.
-- - `Kv.Client` is `cassette/kv/client.py`: a client and the history that it shares go in and come out,
--   with the calls that it makes; `Kv.Client.Settling` is about one operation from its issue to its end,
--   `Kv.Client.Steady` about what holds between handlers. `Scenario` is `cassette/scenario.py`, the generator included.
-- - `Shrink` is `cassette/shrink/reduce.py`: the loop over an abstract `execute`, with the record `Run` of
--   `cassette/runner.py`; `Shrink.Moves` are the moves and `Shrink.Shapes` the
--   second phase. The deletion phase recurses on fuel, one more
--   than the budget: a pass that changes something spends at least one attempt.
--
-- Errors are values: an operation that raises returns `none`, or a value that names the error.
--
-- Not modelled: traces and their digests, the corpus, the fuzzer and the command line, which are glue,
-- files and printing or wait for a later extension; the JSON and text forms of verdicts, operations
-- and scenarios. `Env.random` is not among the calls, since no node of the repository draws.
pub mod Base
pub mod Kv
pub mod Checker
pub mod Sim
pub mod Runner
pub mod Scenario
pub mod Shrink

-- ===== src/Sim/Simulation/Steps.antt =====
-- cassette/sim/simulation.py: the registration of nodes, their calls, the dispatch of an event and
-- the loop.
use cassette.Base.{
  ℕ, zero, suc, Bool, true, false, not, ◌||◌, Option, none, some, List, [], ◌∷◌, ◌++◌,
  if◌then◌else◌, holds, ℕ_discrete, ℤ, pos, ℤ_discrete, ◌-ℤ◌, ltb_ℤ, lookup, insert, remove,
  discard, Text, text,
}
use cassette.Kv.Version.{NodeId}
use cassette.Sim.Env.{Effect, send, set_timer, cancel_timer, Nodes}
use cassette.Sim.Events.{
  Action, Event, control, deliver_message, fire_timer, crash_node, restart_node, pause_node,
  resume_node, fault_tick, start_partition, heal_partition,
}
use cassette.Sim.Faults.{FaultConfig}
use cassette.Sim.Network
use cassette.Sim.Network.{World, PartitionGroups, partition_into, heal, can_reach, report_drop}
use cassette.Sim.Rng.{Source, randint}
use cassette.Sim.Scheduler.{schedule_at, pop, peek_time}
use cassette.Sim.Simulation.{
  key_discrete, Simulation, with_queue, note, note_all, now_for, is_down, is_node, drop_timer,
  file_timer, arm_timer, pause, resume, crash, deliver_note, restart_note,
}

module _ {R : Source} {M : Type 0} {N : Nodes M} {A : Type 0} where
  -- A change of the bus alone, with what it notes.
  abbrev pub rewired : Network.Network × List (Network.Note M) → Simulation R N A → Simulation R N A
  rewired (network, notes) s =
      note_all notes (record s { world = record s.world { network = network } })

module _ {R : Source} {M : Type 0} (config : FaultConfig R.Float) {N : Nodes M} {A : Type 0} where
  -- `add_node`; the second `none` is that of the draw.
  unfoldable pub add_node : NodeId → Bool → Simulation R N A → Option (Simulation R N A)
  add_node node_id skewed s =
      if holds (ℤ_discrete node_id control) || is_node s node_id
      then none
      else elim (randint R (pos 0 -ℤ config.clock_skew_ms) config.clock_skew_ms s.world.rng) [
        | none ↦ none
        | some (drawn, g) ↦ some (record s {
          world = record s.world { rng = g };
          node_ids = s.node_ids ++ node_id ∷ [];
          skew = insert ℤ_discrete node_id (if skewed then drawn else pos 0) s.skew;
        })
      ]

  unfoldable pub route : NodeId → NodeId → M → Simulation R N A → Option (Simulation R N A)
  unfolding note_all
  route sender recipient msg s = elim (Network.send R config sender recipient msg s.world) [
    | none ↦ none
    | some (msg_id, w, notes) ↦ some (note_all notes (record s { world = w }))
  ]

  -- `NodeEnv`: a call, with the node that makes it.
  unfoldable pub perform : NodeId → Effect M → Simulation R N A → Option (Simulation R N A)
  perform node_id (send to msg) s = route node_id to msg s
  perform node_id (set_timer delay_ms tag) s = arm_timer node_id delay_ms tag s
  perform node_id (cancel_timer tag) s = some (drop_timer node_id tag s)

  unfoldable pub perform_all :
      NodeId → List (Effect M) → Simulation R N A → Option (Simulation R N A)
  perform_all node_id [] s = some s
  perform_all node_id (call ∷ calls) s = elim (perform node_id call s) [
    | none ↦ none
    | some s' ↦ perform_all node_id calls s'
  ]

  -- What a handler comes to.
  unfoldable pub handle :
      NodeId → Option (N.State × List (Effect M)) → Simulation R N A → Option (Simulation R N A)
  unfolding perform_all
  handle node_id out s = elim out [
    | none ↦ none
    | some (nodes, calls) ↦ perform_all node_id calls (record s { nodes = nodes })
  ]

  unfoldable pub restart : NodeId → Simulation R N A → Option (Simulation R N A)
  restart node_id s =
      if not (is_node s node_id) || not (is_down s node_id)
      then some s
      else elim (handle node_id (N.on_restart node_id (now_for s node_id) s.nodes)
          (record s { down = discard ℤ_discrete node_id s.down })) [
            | none ↦ none
            | some s' ↦ some (note (restart_note node_id) s')
          ]

  unfoldable pub deliver : NodeId → NodeId → M → ℕ → Simulation R N A → Option (Simulation R N A)
  deliver recipient sender msg msg_id s =
      if not (is_node s recipient)
      then some s
      else if not (can_reach s.world.network sender recipient)
      then some (note_all (report_drop sender recipient msg_id (text "partition")) s)
      else if is_down s recipient
      then some (note_all (report_drop sender recipient msg_id (text "crashed")) s)
      else elim (lookup ℤ_discrete recipient s.paused_until) [
        | none ↦
            handle recipient (N.on_message recipient (now_for s recipient) sender msg s.nodes)
              (note (deliver_note msg_id sender recipient msg) s)
        | some resume_at ↦
            elim (schedule_at resume_at recipient (deliver_message sender msg msg_id)
              s.world.queue) [ none ↦ none | some (seq, q) ↦ some (with_queue q s) ]
      ]

  -- `_fire_timer` for the node and the number of its event.
  unfoldable pub fire : NodeId → ℕ → Text → Simulation R N A → Option (Simulation R N A)
  fire node_id seq tag s =
      let forgotten : Simulation R N A = record s {
        timers = remove key_discrete (node_id, tag) s.timers;
      } in
      if not (is_node s node_id)
        || not (elim (lookup key_discrete (node_id, tag) s.timers) [
          | none ↦ false
          | some pending ↦ holds (ℕ_discrete pending seq)
        ])
      then some s
      else if is_down s node_id
      then some forgotten
      else elim (lookup ℤ_discrete node_id s.paused_until) [
        | none ↦ handle node_id (N.on_timer node_id (now_for s node_id) tag s.nodes) forgotten
        | some resume_at ↦ elim (schedule_at resume_at node_id (fire_timer tag) s.world.queue) [
          | none ↦ none
          | some (next, q) ↦ some (file_timer node_id tag next q s)
        ]
      ]

  module _ (on_fault_tick : Option (Simulation R N A → Option (Simulation R N A))) where
    unfoldable pub act : NodeId → ℕ → Action M → Simulation R N A → Option (Simulation R N A)
    act node seq (deliver_message sender msg msg_id) s = deliver node sender msg msg_id s
    act node seq (fire_timer tag) s = fire node seq tag s
    act node seq (start_partition groups) s = elim (partition_into {M = M} groups s.world.network) [
      | none ↦ none
      | some change ↦ some (rewired change s)
    ]
    act node seq heal_partition s = some (rewired (heal s.world.network) s)
    act node seq crash_node s = some (crash node s)
    act node seq restart_node s = restart node s
    act node seq (pause_node until_ms) s = some (pause node until_ms s)
    act node seq resume_node s = some (resume node s)
    act node seq fault_tick s = elim on_fault_tick [ none ↦ some s | some tick ↦ tick s ]

    abbrev pub dispatch : Event M → Simulation R N A → Option (Simulation R N A)
    dispatch e s = act e.node e.seq e.action s

    unfoldable pub step : Simulation R N A → Option (Bool × Simulation R N A)
    step s = elim (pop s.world.queue) [
      | none ↦ none
      | some (none, q) ↦ some (false, with_queue q s)
      | some (some e, q) ↦ elim (dispatch e (with_queue q s)) [
        | none ↦ none
        | some s' ↦ some (true, s')
      ]
    ]

    -- Whether the horizon stops the loop, and what the look at the queue leaves.
    unfoldable pub past_horizon : Option ℤ → Simulation R N A → Bool × Simulation R N A
    past_horizon none s = (false, s)
    past_horizon (some until_ms) s = (
      elim (peek_time s.world.queue).0 [ none ↦ true | some t ↦ ltb_ℤ until_ms t ],
      with_queue (peek_time s.world.queue).1 s,
    )

    -- The loop of `run`, for at most `n` events: the number delivered, and the state.
    unfoldable pub run :
        ℕ → Option ℤ → (Simulation R N A → Bool) → Simulation R N A → Option (ℕ × Simulation R N A)
    run zero until_ms stop_when s = some (0, s)
    run (suc n) until_ms stop_when s =
        let (stop, looked) = past_horizon until_ms s in
        if stop then some (0, looked) else elim (step looked) [
          | none ↦ none
          | some (false, s') ↦ some (0, s')
          | some (true, s') ↦
              if stop_when s' then some (1, s') else elim (run n until_ms stop_when s') [
                | none ↦ none
                | some (delivered, s'') ↦ some (suc delivered, s'')
              ]
        ]

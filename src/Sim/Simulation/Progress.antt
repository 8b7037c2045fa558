-- ===== src/Sim/Simulation/Progress.antt =====
-- A step and a run of a well-formed engine.
use cassette.Base.{
  ℕ, ◌≤◌, ◌≡◌, refl, sym, ap, subst, ◌∙◌, ◌≢◌, ◌⊎◌, inl, inr, Bool, true, false, Option, none, some,
  List, [], ◌∷◌, arith, ltb, Bool-cases, Option-cases, length, In, ℕ_discrete, ℤ, pos, ℤ_discrete,
  ◌≤ℤ◌, ltb_ℤ, Dict, lookup, remove, lookup-remove, member, Text,
}
use cassette.Kv.Version.{NodeId}
use cassette.Sim.Env.{Nodes}
use cassette.Sim.Events.{
  Action, Event, deliver_message, fire_timer, crash_node, restart_node, pause_node, resume_node,
  fault_tick, start_partition, heal_partition,
}
use cassette.Sim.Faults.{FaultConfig}
use cassette.Sim.Network
use cassette.Sim.Network.{
  partition_start_note, Network, World, PartitionGroups, partition_into, heal,
}
use cassette.Sim.Rng.{Source}
use cassette.Sim.Rng.Draws.{IsUnit}
use cassette.Sim.Scheduler.{Scheduler, peek_time, peek_from}
use cassette.Sim.Scheduler.Pop.{Drains, Delivers, drained, delivered, pop-Popped}
use cassette.Sim.Scheduler.Peek.{peek_time-pop}
use cassette.Sim.Simulation.{
  key_discrete, Note, Simulation, clock_now, with_queue, note, resume, resume_note,
}
use cassette.Sim.Simulation.Arrivals.{noted_on, deliver_lem, fire_lem}
use cassette.Sim.Simulation.Calls.{rest-IsWell}
use cassette.Sim.Simulation.Downtime.{crash_lem, pause_lem, restart_lem}
use cassette.Sim.Simulation.Laws.{Armed, Laws, IsRunning, IsAfter, Ticks, GoesOn}
use cassette.Sim.Simulation.Popping.{popped-IsWell, popped-Backed, let_go-IsValid}
use cassette.Sim.Simulation.Steps.{act, rewired, step}
use cassette.Sim.Simulation.Timers.{armed}
use cassette.Sim.Simulation.Valid.{is_timer, IsLive, Backed, IsSound, IsWell, Nothing}

partition_into_lem :
    {M : Type 0} (groups : PartitionGroups) (n : Network)
    → 2 ≤ length groups
    → partition_into {M = M} groups n
      ≡ some (record n { partition = some groups }, partition_start_note groups ∷ [])
unfolding partition_into
partition_into_lem groups n h =
    let enough : ltb (length groups) 2 ≡ false = ground arith in rw enough refl

-- A drained queue stands on nothing.
drained-IsSound :
    {M : Type 0} (timers : Dict (NodeId × Text) ℕ) (s q : Scheduler M)
    → Drains s q
    → IsSound timers s
    → IsSound timers q
drained-IsSound timers s q d v = record {
  queue = record {
    ordered = rw d.empty tt;
    ahead = λ f i. absurd (rw d.empty at i);
    numbered = λ f i. absurd (rw d.empty at i);
  };
  started = rw d.clock v.started;
  counted = λ seq c. elim (Bool-cases (member ℕ_discrete seq s.cancelled)) [
    | inl old ↦ rw d.numbering (v.counted seq old)
    | inr live ↦ absurd (ground (arith, d.forgets seq live))
  ];
  spent = λ f i c. absurd (rw d.empty at i);
  backed = λ f i. absurd (rw d.empty at i);
}

module _ {R : Source} {M : Type 0} {N : Nodes M} {A : Type 0} (Inv : Armed → N.State → Type 0)
    (Ready : A → Type 0) where
  -- The engine with a popped event in hand.
  record HasTaken (e : Event M) (s : Simulation R N A) : Type 0 where
    pub well : IsWell (λ f. f ≡ e) s
    pub backed : Backed s.timers s.world.queue e e.action
    pub live : IsLive s.world.queue e.seq
    pub gone : (f : Event M) → In f s.world.queue.heap → f.seq ≢ e.seq
    pub on_time : clock_now s ≡ e.time_ms
    pub inv : Inv (armed s) s.nodes
    pub ready : Ready s.adversary

  -- An event that is no timer is filed nowhere.
  no_timer :
      (e : Event M) (s : Simulation R N A)
      → HasTaken e s
      → is_timer e.action ≡ false
      → (node : NodeId) (tag : Text) → lookup key_discrete (node, tag) s.timers ≢ some e.seq
  no_timer e s t other node tag p =
      let (live, (f, same, (there, n, a))) = t.well.pending node tag e.seq p in
      elim there [
        | inl i ↦ t.gone f i same
        | inr own ↦
            absurd (ground (arith, ap is_timer a, ap (λ (x : Event M). is_timer x.action) own))
      ]

  -- When the event is no timer, restart or resumption, the engine is well-formed without it.
  let_go :
      (e : Event M) (s : Simulation R N A)
      → HasTaken e s
      → is_timer e.action ≡ false
      → e.action ≢ restart_node
      → e.action ≢ resume_node
      → IsRunning Inv Ready s
  let_go e s t other no_restart no_resume = record {
    valid =
        let_go-IsValid s e t.well (no_timer e s t other) (λ p. absurd (no_restart p))
          (λ p. absurd (no_resume p));
    inv = t.inv;
    ready = t.ready;
  }

  resumed-IsWell :
      (held : Event M → Type 0) (node : NodeId) (s : Simulation R N A) (events : List (ℤ × Note M))
      → IsWell held s
      → IsWell held
          (record s { paused_until = remove ℤ_discrete node s.paused_until; events = events })
  resumed-IsWell held node s events v = record {
    sound = v.sound;
    pending = v.pending;
    manned = v.manned;
    fallen = λ n p.
        let (known, up, ahead) = v.fallen n p in
        (known, ground (arith, lookup-remove ℤ_discrete node n s.paused_until), ahead);
    frozen = λ n u p. v.frozen n u (ground (arith, lookup-remove ℤ_discrete node n s.paused_until));
  }

  -- A resumption in hand ends the pause whose deadline it is.
  resume_lem :
      (e : Event M) (s : Simulation R N A)
      → HasTaken e s
      → e.action ≡ resume_node
      → IsRunning Inv Ready (resume e.node s) × IsAfter s (resume e.node s)
  unfolding resume
  resume_lem e s t act =
      let other : is_timer e.action ≡ false = ap is_timer act in
      let no_restart : (e.action ≡ restart_node → member ℤ_discrete e.node s.down ≡ false) =
        λ p. absurd (ground arith) in
      let same : (lookup ℤ_discrete e.node s.paused_until ≢ some e.time_ms)
          → IsRunning Inv Ready s × IsAfter s s =
        λ free. (
          record {
            valid = let_go-IsValid s e t.well (no_timer e s t other) no_restart (λ _. free);
            inv = t.inv;
            ready = t.ready;
          },
          record { clock = refl; node_ids = refl },
        ) in
      elim (Option-cases (lookup ℤ_discrete e.node s.paused_until)) [
        | inl awake ↦
            subst (λ later. IsRunning Inv Ready later × IsAfter s later)
              (sym (rw (awake, resume) refl)) (same (ground arith))
        | inr (d, asleep) ↦ elim (Bool-cases (ltb_ℤ (clock_now s) d)) [
          | inl early ↦
              subst (λ later. IsRunning Inv Ready later × IsAfter s later)
                (sym (rw (asleep, early, resume) refl))
                (same (λ p.
                  let at : d ≡ e.time_ms = cc in absurd (ground (arith, t.on_time, at, early))))
          | inr over ↦
              let woken =
                note (resume_note e.node)
                  (record s { paused_until = remove ℤ_discrete e.node s.paused_until }) in
              subst (λ later. IsRunning Inv Ready later × IsAfter s later)
                (sym (rw (asleep, over, resume) refl))
                (
                  record {
                    valid =
                        let_go-IsValid woken e
                          (resumed-IsWell (λ f. f ≡ e) e.node s woken.events t.well)
                          (no_timer e s t other) no_restart
                          (λ _.
                            ground (arith, lookup-remove ℤ_discrete e.node e.node s.paused_until));
                    inv = t.inv;
                    ready = t.ready;
                  },
                  record { clock = refl; node_ids = refl },
                )
        ]
      ]

  rewired_lem :
      (change : Network × List (Network.Note M)) (s : Simulation R N A)
      → IsRunning Inv Ready s
      → GoesOn Inv Ready s (some (rewired change s))
  rewired_lem change s r =
      let s' : Simulation R N A = record s { world = record s.world { network = change.0 } } in
      let r' : IsRunning Inv Ready s' = record {
        valid = rest-IsWell Nothing s s'.world s.nodes s.skew s.adversary s.events r.valid;
        inv = r.inv;
        ready = r.ready;
      } in
      let (later, e, l, k) = noted_on Inv Ready change.1 s' r' in
      (later, e, l, record { clock = k.clock; node_ids = k.node_ids })

  tick_lem :
      (tick : Option (Simulation R N A → Option (Simulation R N A)))
      → Ticks Ready tick
      → (s : Simulation R N A) → IsRunning Inv Ready s
      → GoesOn Inv Ready s (elim tick [ none ↦ some s | some f ↦ f s ])
  tick_lem none ticks s r = (s, refl, r, record { clock = refl; node_ids = refl })
  tick_lem (some tick) ticks s r =
      let (later, e, t) = ticks s r.valid r.ready in
      (
        later,
        e,
        record {
          valid = t.valid;
          inv = subst (λ on. Inv on later.nodes) (sym t.timers) (rw t.nodes r.inv);
          ready = t.ready;
        },
        t.after,
      )

  module _ (unit : IsUnit R) (config : FaultConfig R.Float)
      (window : (pos 0 ≤ℤ config.latency_ms.0) × (config.latency_ms.0 ≤ℤ config.latency_ms.1))
      (laws : Laws N Inv) (tick : Option (Simulation R N A → Option (Simulation R N A)))
      (ticks : Ticks Ready tick) where
    -- Whatever the event in hand does, it does not raise, and the engine goes on.
    act_lem :
        (e : Event M) (action : Action M) (s : Simulation R N A)
        → e.action ≡ action
        → HasTaken e s
        → Backed s.timers s.world.queue e action
        → GoesOn Inv Ready s (act config tick e.node e.seq action s)
    unfolding act
    act_lem e (deliver_message sender msg msg_id) s p t b =
        deliver_lem Inv Ready unit config window laws e.node sender msg msg_id s
          (let_go e s t (ap is_timer p) (λ q. ground arith) (λ q. ground arith))
    act_lem e (fire_timer tag) s p t b =
        fire_lem Inv Ready unit config window laws e tag s p (b t.live) t.gone t.well t.inv t.ready
    act_lem e crash_node s p t b =
        let (f, (i, n, a, c)) = b in
        let r = let_go e s t (ap is_timer p) (λ q. ground arith) (λ q. ground arith) in
        let (later, k) = crash_lem Inv Ready e.node f s laws (inl i, n, a) r in (_, refl, later, k)
    act_lem e restart_node s p t b =
        restart_lem Inv Ready unit config window laws e s p t.well (no_timer e s t (ap is_timer p))
          t.inv t.ready
    act_lem e (pause_node until_ms) s p t b =
        let (f, at, (i, n, a, c)) = b in
        let r = let_go e s t (ap is_timer p) (λ q. ground arith) (λ q. ground arith) in
        let (later, k) = pause_lem Inv Ready e.node until_ms f s at i n a r in (_, refl, later, k)
    act_lem e resume_node s p t b = let (later, k) = resume_lem e s t p in (_, refl, later, k)
    act_lem e fault_tick s p t b =
        let r = let_go e s t (ap is_timer p) (λ q. ground arith) (λ q. ground arith) in
        tick_lem tick ticks s r
    act_lem e (start_partition groups) s p t b =
        let r = let_go e s t (ap is_timer p) (λ q. ground arith) (λ q. ground arith) in
        let (later, f, l, k) =
          rewired_lem
            (record s.world.network { partition = some groups }, partition_start_note groups ∷ []) s
            r in
        (later, rw (partition_into_lem groups s.world.network b, act) f, l, k)
    act_lem e heal_partition s p t b =
        rewired_lem _ s (let_go e s t (ap is_timer p) (λ q. ground arith) (λ q. ground arith))

    taken :
        (e : Event M) (q : Scheduler M) (s : Simulation R N A)
        → Delivers s.world.queue e q
        → IsRunning Inv Ready s
        → HasTaken e (with_queue q s)
    taken e q s d r = record {
      well = popped-IsWell s q e d r.valid;
      backed = popped-Backed s.timers s.world.queue q e d r.valid.sound;
      live = d.forgets e.seq d.live;
      gone = d.gone;
      on_time = d.on_time;
      inv = r.inv;
      ready = r.ready;
    }

    -- A drained queue owes nothing.
    drained-IsRunning :
        (q : Scheduler M) (s : Simulation R N A)
        → Drains s.world.queue q
        → IsRunning Inv Ready s
        → IsRunning Inv Ready (with_queue q s)
    drained-IsRunning q s d r =
        let v = r.valid in
        let owed : (f : Event M) → (In f s.world.queue.heap) ⊎ ⊥ → is_timer f.action ≡ false → ⊥ =
          λ f i t. elim i [
            | inl there ↦ ground (arith, v.sound.spent f there (d.over f there))
            | inr none_held ↦ none_held
          ] in
        record {
          valid = record {
            sound = drained-IsSound s.timers s.world.queue q d v.sound;
            pending = λ n tag seq p.
                let (live, (f, same, (there, o, a))) = v.pending n tag seq p in
                absurd (elim there [
                  | inl i ↦ ground (arith, d.over f i, same)
                  | inr none_held ↦ none_held
                ]);
            manned = v.manned;
            fallen = λ n p.
                let (known, up, (f, (there, o, a))) = v.fallen n p in
                absurd (owed f there (ap is_timer a));
            frozen = λ n u p.
                let (known, (f, at, (there, o, a))) = v.frozen n u p in
                absurd (owed f there (ap is_timer a));
          };
          inv = r.inv;
          ready = r.ready;
        }

    -- What a step comes to: it returns, the engine goes on, and time does not go back. It says
    -- false when the queue is drained, with no timer, no node down and none paused; otherwise it
    -- stands at the time of the event that it delivered.
    pub record HasStepped (s : Simulation R N A) (more : Bool) (later : Simulation R N A)
        : Type 0 where
      pub running : IsRunning Inv Ready later
      pub forward : clock_now s ≤ℤ clock_now later
      pub node_ids : later.node_ids ≡ s.node_ids
      pub dry :
          more ≡ false → ((peek_time later.world.queue).0 ≡ none) × (clock_now later ≡ clock_now s)
      pub timely : more ≡ true → (peek_time s.world.queue).0 ≡ some (clock_now later)

    -- Under nodes that keep their invariant and an adversary that keeps its own, `step` on a well-
    -- formed engine does not raise, leaves the engine well-formed and the time not earlier. When
    -- it says that nothing was left, the queue has no live event and the time stands; else the
    -- clock is at the time that `peek_time` showed.
    pub step_lem :
        (s : Simulation R N A)
        → IsRunning Inv Ready s
        → (more : Bool) × (later : Simulation R N A) × (step config tick s ≡ some (more, later))
          × HasStepped s more later
    unfolding step peek_time peek_from
    step_lem s r = elim (pop-Popped s.world.queue r.valid.sound.queue) [
      | drained q p d ↦ (
        false,
        with_queue q s,
        rw (p, step) refl,
        record {
          running = drained-IsRunning q s d r;
          forward = rw d.clock (omega arith);
          node_ids = refl;
          dry = λ _. (rw (d.empty, peek_time) refl, ap (λ c. c.now) d.clock);
          timely = λ f. absurd (ground arith);
        },
      )
      | delivered e q p d ↦
          let t = taken e q s d r in
          let (later, f, l, k) = act_lem e e.action (with_queue q s) refl t t.backed in
          (
            true,
            later,
            rw (p, step) (rw f refl),
            record {
              running = l;
              forward = rw k.clock (rw d.on_time (r.valid.sound.queue.ahead e d.queued));
              node_ids = k.node_ids;
              dry = λ f. absurd (ground arith);
              timely = λ _. peek_time-pop s.world.queue p ∙ ap some (sym d.on_time ∙ sym k.clock);
            },
          )
    ]

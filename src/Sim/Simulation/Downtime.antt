-- ===== src/Sim/Simulation/Downtime.antt =====
-- Crashes, restarts, pauses and resumptions on a well-formed engine.
use cassette.Base.{
  ℕ, ◌≡◌, refl, sym, ap, subst, ◌∙◌, ◌≢◌, inl, inr, true, false, not, ◌||◌, none, some, List, [],
  ◌∷◌, ◌++◌, arith, Bool-cases, Option-cases, if-elim, In, ℤ, pos, ℤ_discrete, ◌≤ℤ◌, ltb_ℤ, max_ℤ,
  eq_of_parts, lookup, insert, remove, lookup-insert, lookup-remove, member, add, discard,
  member-add, member-discard, Text,
}
use cassette.Kv.Version.{NodeId}
use cassette.Sim.Env.{Nodes}
use cassette.Sim.Events.{Action, Event, restart_node, resume_node}
use cassette.Sim.Faults.{FaultConfig}
use cassette.Sim.Rng.{Source}
use cassette.Sim.Rng.Draws.{IsUnit}
use cassette.Sim.Simulation.{
  key_discrete, Note, Simulation, clock_now, note, crash_note, restart_note, pause_note, is_node,
  is_down, now_for, tags_of, drop_timers, deadline, pause, fell, crash,
}
use cassette.Sim.Simulation.Laws.{
  Armed, silence, Laws, IsRunning, IsAfter, GoesOn, noted-IsRunning, handle_lem,
}
use cassette.Sim.Simulation.Popping.{let_go-IsValid}
use cassette.Sim.Simulation.Steps.{restart}
use cassette.Sim.Simulation.Stopping.{drop_timers-heap, drop_timers-away, silenced}
use cassette.Sim.Simulation.Timers.{armed, IsKept}
use cassette.Sim.Simulation.Valid.{IsWell, There, Nothing, IsValid}

module _ {R : Source} {M : Type 0} {N : Nodes M} {A : Type 0} where
  -- The state of a crashed node's engine: `d` is it with the timers dropped.
  abbrev crashed :
      NodeId → Simulation R N A → Simulation R N A → List (ℤ × Note M) → Simulation R N A
  crashed node s d events = record d {
    down = add ℤ_discrete node s.down;
    paused_until = remove ℤ_discrete node s.paused_until;
    nodes = N.on_crash node d.nodes;
    events = events;
  }

  silent_timer :
      (node n : NodeId) (tag : Text) (seq : ℕ) (s d : Simulation R N A)
      → armed d ≡ silence node (armed s)
      → lookup key_discrete (n, tag) d.timers ≡ some seq
      → node ≢ n
  silent_timer node n tag seq s d off p same =
      let q : armed d n tag ≡ silence node (armed s) n tag = ap (λ (f : Armed). f n tag) off in
      ground arith

  crashed-IsValid :
      (node : NodeId) (s d : Simulation R N A) (events : List (ℤ × Note M)) (f : Event M)
      → member ℤ_discrete node s.node_ids ≡ true
      → IsValid s
      → There Nothing s.world.queue node restart_node f
      → IsValid d
      → IsKept s d
      → d.world.queue.heap ≡ s.world.queue.heap
      → armed d ≡ silence node (armed s)
      → IsValid (crashed node s d events)
  crashed-IsValid node s d events f known v back w kept heap off = record {
    sound = w.sound;
    pending = w.pending;
    manned = λ n tag seq p.
        let (there, up) = w.manned n tag seq p in
        (
          there,
          ground (
            arith,
            silent_timer node n tag seq s d off p,
            member-add ℤ_discrete node n s.down,
            ap (member ℤ_discrete n) kept.down,
          ),
        );
    fallen = λ n p. elim (ℤ_discrete node n) [
      | yes same ↦
          subst
            (λ m.
              (member ℤ_discrete m d.node_ids ≡ true)
              × (lookup ℤ_discrete m (remove ℤ_discrete node s.paused_until) ≡ none)
              × ((g : Event M) × There Nothing d.world.queue m restart_node g))
            same
            (
              rw kept.node_ids known,
              ground (arith, lookup-remove ℤ_discrete node node s.paused_until),
              (f, moved f back),
            )
      | no differ ↦
          let (there, up, (g, ahead)) =
            v.fallen n (ground (arith, member-add ℤ_discrete node n s.down)) in
          (
            rw kept.node_ids there,
            ground (arith, lookup-remove ℤ_discrete node n s.paused_until),
            (g, moved g ahead),
          )
    ];
    frozen = λ n until_ms p.
        let (there, (g, at, ahead)) =
          v.frozen n until_ms (ground (arith, lookup-remove ℤ_discrete node n s.paused_until)) in
        (rw kept.node_ids there, (g, at, moved g ahead));
  }
    where
      moved :
          {n : NodeId} {action : Action M} (g : Event M)
          → There Nothing s.world.queue n action g
          → There Nothing d.world.queue n action g
      moved g (i, o, a) = (rw heap i, o, a)

  fell-crashed :
      (node : NodeId) (s : Simulation R N A)
      → let d = drop_timers node (tags_of node s.timers) s in
        (events : List (ℤ × Note M)) × (fell node s ≡ crashed node s d events)
  unfolding fell
  fell-crashed node s =
      let d = drop_timers node (tags_of node s.timers) s in
      let finish : Simulation R N A → Simulation R N A =
        λ x. note (crash_note node) (record x { nodes = N.on_crash node x.nodes }) in
      (
        d.events ++ (clock_now d, crash_note node) ∷ [],
        ap finish (
            drop_timers-away node (tags_of node s.timers) s (add ℤ_discrete node s.down)
              (remove ℤ_discrete node s.paused_until)),
      )

  not_paused :
      (node n : NodeId) (d : ℤ) (s : Simulation R N A)
      → member ℤ_discrete n s.down ≡ true
      → lookup ℤ_discrete n s.paused_until ≡ none
      → is_down s node ≡ false
      → lookup ℤ_discrete n (insert ℤ_discrete node d s.paused_until) ≡ none
  not_paused node n d s p up other = elim (ℤ_discrete node n) [
    | yes same ↦ absurd (ground (arith, ap (λ k. member ℤ_discrete k s.down) same))
    | no differ ↦ ground (arith, lookup-insert ℤ_discrete node n d s.paused_until)
  ]

  -- The end of a pause that meets another is at the later deadline.
  paused_end :
      (node : NodeId) (until_ms : ℤ) (f : Event M) (s : Simulation R N A)
      → f.time_ms ≡ until_ms
      → There Nothing s.world.queue node resume_node f
      → IsValid s
      → (g : Event M) × (g.time_ms ≡ max_ℤ (deadline s node) until_ms)
        × There Nothing s.world.queue node resume_node g
  unfolding max_ℤ
  paused_end node until_ms f s at ahead v =
      let due : clock_now s ≤ℤ f.time_ms = elim ahead.0 [
        | inl i ↦ v.sound.queue.ahead f i
        | inr none_held ↦ absurd none_held
      ] in
      let from : pos 0 ≤ℤ until_ms = rw (sym at) (omega (arith, due, v.sound.started)) in
      elim (Option-cases (lookup ℤ_discrete node s.paused_until)) [
        | inl awake ↦
            let e : deadline s node ≡ pos 0 = rw (awake, deadline) refl in
            (f, eq_of_parts f.time_ms _ (rw e (ground (arith, at, from))), ahead)
        | inr (d, asleep) ↦
            let e : deadline s node ≡ d = rw (asleep, deadline) refl in
            elim (Bool-cases (ltb_ℤ d until_ms)) [
              | inl longer ↦ (f, rw e (rw longer at), ahead)
              | inr shorter ↦
                  let (known, (g, when, there)) = v.frozen node d asleep in
                  (g, rw e (rw shorter when), there)
            ]
      ]

  module _ (Inv : Armed → N.State → Type 0) (Ready : A → Type 0) where
    crashed-IsRunning :
        (node : NodeId) (s d : Simulation R N A) (events : List (ℤ × Note M))
        → Laws N Inv
        → IsRunning Inv Ready s
        → IsKept s d
        → armed d ≡ silence node (armed s)
        → IsValid (crashed node s d events)
        → IsRunning Inv Ready (crashed node s d events)
    crashed-IsRunning node s d events laws r kept off valid = record {
      valid = valid;
      inv =
          subst (λ nodes. Inv (armed d) (N.on_crash node nodes)) (sym kept.nodes)
            (subst (λ on. Inv on (N.on_crash node s.nodes)) (sym off)
              (laws.crashes (armed s) node s.nodes r.inv));
      ready = rw kept.adversary r.ready;
    }

    -- A crash with a restart ahead.
    pub crash_lem :
        (node : NodeId) (f : Event M) (s : Simulation R N A)
        → Laws N Inv
        → There Nothing s.world.queue node restart_node f
        → IsRunning Inv Ready s
        → IsRunning Inv Ready (crash node s) × IsAfter s (crash node s)
    unfolding crash
    crash_lem node f s laws ahead r =
        if-elim (λ later. IsRunning Inv Ready later × IsAfter s later)
          (not (is_node s node) || is_down s node) s (fell node s)
          (λ _. (r, record { clock = refl; node_ids = refl }))
          (λ t.
            let d = drop_timers node (tags_of node s.timers) s in
            let (w, kept, off) = silenced node s r.valid in
            let (events, e) = fell-crashed node s in
            let valid =
              crashed-IsValid node s d events f (ground arith) r.valid ahead w kept
                (drop_timers-heap node (tags_of node s.timers) s) off in
            subst (λ later. IsRunning Inv Ready later × IsAfter s later) (sym e)
              (
                crashed-IsRunning node s d events laws r kept off valid,
                record { clock = kept.clock; node_ids = kept.node_ids },
              ))

    -- A pause with the resumption ahead.
    pub pause_lem :
        (node : NodeId) (until_ms : ℤ) (f : Event M) (s : Simulation R N A)
        → f.time_ms ≡ until_ms
        → In f s.world.queue.heap
        → f.node ≡ node
        → f.action ≡ resume_node
        → IsRunning Inv Ready s
        → IsRunning Inv Ready (pause node until_ms s) × IsAfter s (pause node until_ms s)
    unfolding pause
    pause_lem node until_ms f s at i o a r =
        if-elim (λ later. IsRunning Inv Ready later × IsAfter s later)
          (not (is_node s node) || is_down s node) s
          (note (pause_note node until_ms) (record s {
            paused_until = insert ℤ_discrete node (max_ℤ (deadline s node) until_ms) s.paused_until;
          }))
          (λ _. (r, record { clock = refl; node_ids = refl }))
          (λ t. (
            record {
              valid = record {
                sound = r.valid.sound;
                pending = r.valid.pending;
                manned = r.valid.manned;
                fallen = λ n p.
                    let (there, up, ahead) = r.valid.fallen n p in
                    (there, not_paused node n _ s p up (ground arith), ahead);
                frozen = λ n u p. elim (ℤ_discrete node n) [
                  | no differ ↦ r.valid.frozen n u (
                      ground (
                        arith,
                        lookup-insert ℤ_discrete node n (max_ℤ (deadline s node) until_ms)
                            s.paused_until,
                      ))
                  | yes same ↦
                      let (g, when, ahead) =
                        paused_end node until_ms f s at (inl i, o, a) r.valid in
                      subst
                        (λ m.
                          (member ℤ_discrete m s.node_ids ≡ true)
                          × ((g : Event M) × (g.time_ms ≡ u)
                              × There Nothing s.world.queue m resume_node g))
                        same
                        (
                          ground arith,
                          (
                            g,
                            when
                                ∙ ground (
                                  arith,
                                  lookup-insert ℤ_discrete node n (max_ℤ (deadline s node) until_ms)
                                      s.paused_until,
                                ),
                            ahead,
                          ),
                        )
                ];
              };
              inv = r.inv;
              ready = r.ready;
            },
            record { clock = refl; node_ids = refl },
          ))

    -- A restart in hand, for a node that may be down.
    module _ (unit : IsUnit R) (config : FaultConfig R.Float)
        (window : (pos 0 ≤ℤ config.latency_ms.0) × (config.latency_ms.0 ≤ℤ config.latency_ms.1))
        (laws : Laws N Inv) where
      pub restart_lem :
          (e : Event M) (s : Simulation R N A)
          → e.action ≡ restart_node
          → IsWell (λ f. f ≡ e) s
          → ((node : NodeId) (tag : Text) → lookup key_discrete (node, tag) s.timers ≢ some e.seq)
          → Inv (armed s) s.nodes
          → Ready s.adversary
          → GoesOn Inv Ready s (restart config e.node s)
      unfolding restart
      restart_lem e s act v no_timer inv ready =
          let no_resume : (e.action ≡ resume_node
              → lookup ℤ_discrete e.node s.paused_until ≢ some e.time_ms) =
            λ p. absurd (ground arith) in
          elim (Bool-cases (is_down s e.node)) [
            | inr up ↦ (
              s,
              if-elim (λ out. out ≡ some s) (not (is_node s e.node) || not (is_down s e.node))
                  (some s) _ (λ _. refl) (λ t. absurd (ground arith)),
              record {
                valid = let_go-IsValid s e v no_timer (λ _. up) no_resume;
                inv = inv;
                ready = ready;
              },
              record { clock = refl; node_ids = refl },
            )
            | inl down ↦
                let s' : Simulation R N A = record s { down = discard ℤ_discrete e.node s.down } in
                let known = (v.fallen e.node down).0 in
                let up : member ℤ_discrete e.node s'.down ≡ false =
                  ground (arith, member-discard ℤ_discrete e.node e.node s.down) in
                let v' : IsWell (λ f. f ≡ e) s' = record {
                  sound = v.sound;
                  pending = v.pending;
                  manned = λ n tag seq p.
                      let (there, u) = v.manned n tag seq p in
                      (there, ground (arith, member-discard ℤ_discrete e.node n s.down));
                  fallen =
                      λ n p. v.fallen n (ground (arith, member-discard ℤ_discrete e.node n s.down));
                  frozen = v.frozen;
                } in
                let valid = let_go-IsValid s' e v' no_timer (λ _. up) no_resume in
                let (later, f, r, k) =
                  handle_lem Inv Ready unit config window e.node
                    (N.on_restart e.node (now_for s e.node) s.nodes) s' known up valid ready
                    (laws.restarts (armed s) e.node (now_for s e.node) s.nodes inv) in
                (
                  note (restart_note e.node) later,
                  rw (known, down, restart) (rw f refl),
                  noted-IsRunning Inv Ready later _ r,
                  record { clock = k.clock; node_ids = k.node_ids },
                )
          ]

-- ===== src/Sim/Simulation/Arrivals.antt =====
-- The delivery of a message and the firing of a timer on a well-formed engine.
use cassette.Base.{
  ℕ, ◌≡◌, refl, sym, ap, subst, ◌∙◌, ◌≢◌, ◌⊎◌, inl, inr, true, false, not, none, some, List, arith,
  holds, is_some, Option-cases, if-elim, In, ℕ_discrete, ℤ, pos, ℤ_discrete, ◌≤ℤ◌, lookup, insert,
  remove, lookup-insert, lookup-remove, member, Text, text,
}
use mathlib.Core.Path.{fun_ext}
use cassette.Kv.Version.{NodeId}
use cassette.Sim.Env.{Nodes}
use cassette.Sim.Events.{Event, deliver_message, fire_timer, resume_node}
use cassette.Sim.Faults.{FaultConfig}
use cassette.Sim.Network
use cassette.Sim.Network.{can_reach, report_drop}
use cassette.Sim.Rng.{Source}
use cassette.Sim.Rng.Draws.{IsUnit}
use cassette.Sim.Scheduler.{schedule_at}
use cassette.Sim.Simulation.{
  key_discrete, Simulation, clock_now, with_queue, note, note_all, deliver_note, is_node, is_down,
  now_for,
}
use cassette.Sim.Simulation.Calls.{note_all_lem}
use cassette.Sim.Simulation.Laws.{
  Armed, Laws, Handles, IsRunning, GoesOn, noted-IsRunning, handle_lem,
}
use cassette.Sim.Simulation.Queueing.{
  grown-IsWell, retimed-IsSound, queued, queued-HasGrown, schedule_at-queued,
}
use cassette.Sim.Simulation.Steps.{handle, deliver, fire}
use cassette.Sim.Simulation.Timers.{
  key, removed, armed, disarm, disarm-remove, with_timer, with_timer-IsValid,
}
use cassette.Sim.Simulation.Valid.{is_timer, Backed, IsWell, Nothing, IsValid}

module _ {R : Source} {M : Type 0} {N : Nodes M} {A : Type 0} (Inv : Armed → N.State → Type 0)
    (Ready : A → Type 0) where
  stays_on : (s : Simulation R N A) → IsRunning Inv Ready s → GoesOn Inv Ready s (some s)
  stays_on s r = (s, refl, r, record { clock = refl; node_ids = refl })

  pub noted_on :
      (notes : List (Network.Note M)) (s : Simulation R N A)
      → IsRunning Inv Ready s
      → GoesOn Inv Ready s (some (note_all notes s))
  noted_on notes s r =
      let (events, e) = note_all_lem notes s in
      (
        record s { events = events },
        ap some e,
        noted-IsRunning Inv Ready s events r,
        record { clock = refl; node_ids = refl },
      )

  -- The time at which a paused node goes on is not in the past.
  pub due :
      (held : Event M → Type 0) (s : Simulation R N A) (node : NodeId) (until_ms : ℤ)
      → IsWell held s
      → ((f : Event M) → held f → f.action ≢ resume_node)
      → lookup ℤ_discrete node s.paused_until ≡ some until_ms
      → clock_now s ≤ℤ until_ms
  due held s node until_ms v other p =
      let (known, (f, at, (there, n, a))) = v.frozen node until_ms p in
      elim there [ inl i ↦ rw (sym at) (v.sound.queue.ahead f i) | inr h ↦ absurd (other f h a) ]

  module _ (unit : IsUnit R) (config : FaultConfig R.Float)
      (window : (pos 0 ≤ℤ config.latency_ms.0) × (config.latency_ms.0 ≤ℤ config.latency_ms.1))
      (laws : Laws N Inv) where
    -- A message in front of a paused node goes back to the queue; another reaches its node.
    arrives :
        (recipient sender : NodeId) (msg : M) (msg_id : ℕ) (s : Simulation R N A)
        → member ℤ_discrete recipient s.node_ids ≡ true
        → member ℤ_discrete recipient s.down ≡ false
        → IsRunning Inv Ready s
        → GoesOn Inv Ready s (elim (lookup ℤ_discrete recipient s.paused_until) [
          | none ↦
              handle config recipient
                (N.on_message recipient (now_for s recipient) sender msg s.nodes)
                (note (deliver_note msg_id sender recipient msg) s)
          | some resume_at ↦
              elim (schedule_at resume_at recipient
                (deliver_message sender msg msg_id)
                s.world.queue) [ none ↦ none | some (seq, q) ↦ some (with_queue q s) ]
        ])
    arrives recipient sender msg msg_id s known up r =
        elim (Option-cases (lookup ℤ_discrete recipient s.paused_until)) [
          | inl awake ↦
              let s' = note (deliver_note msg_id sender recipient msg) s in
              let r' = noted-IsRunning Inv Ready s s'.events r in
              let (later, e, l, k) =
                handle_lem Inv Ready unit config window recipient
                  (N.on_message recipient (now_for s recipient) sender msg s.nodes) s' known up
                  r'.valid r'.ready
                  (laws.messages (armed s) recipient sender (now_for s recipient) msg s.nodes
                    r.inv) in
              (later, rw awake e, l, record { clock = k.clock; node_ids = k.node_ids })
          | inr (resume_at, asleep) ↦
              let q = s.world.queue in
              let action = deliver_message sender msg msg_id in
              let ahead =
                due Nothing s recipient resume_at r.valid (λ f none_held. absurd none_held)
                  asleep in
              let later = with_queue (queued resume_at recipient action q) s in
              (
                later,
                rw asleep (rw (schedule_at-queued resume_at recipient action q ahead) refl),
                record {
                  valid =
                      grown-IsWell _ Nothing s (queued resume_at recipient action q)
                        (queued-HasGrown resume_at recipient action q ahead r.valid.sound.queue)
                        (λ f new.
                          subst (λ (x : Event M). Backed s.timers later.world.queue x x.action)
                            (sym new) tt)
                        r.valid;
                  inv = r.inv;
                  ready = r.ready;
                },
                record { clock = refl; node_ids = refl },
              )
        ]

    pub deliver_lem :
        (recipient sender : NodeId) (msg : M) (msg_id : ℕ) (s : Simulation R N A)
        → IsRunning Inv Ready s
        → GoesOn Inv Ready s (deliver config recipient sender msg msg_id s)
    unfolding deliver
    deliver_lem recipient sender msg msg_id s r =
        if-elim (GoesOn Inv Ready s) (not (is_node s recipient)) (some s) _ (λ _. stays_on s r)
          (λ known.
            if-elim (GoesOn Inv Ready s) (not (can_reach s.world.network sender recipient))
              (some (note_all (report_drop sender recipient msg_id (text "partition")) s)) _
              (λ _. noted_on _ s r)
              (λ _.
                if-elim (GoesOn Inv Ready s) (is_down s recipient)
                  (some (note_all (report_drop sender recipient msg_id (text "crashed")) s)) _
                  (λ _. noted_on _ s r)
                  (λ up. arrives recipient sender msg msg_id s (ground arith) up r)))

module _ {R : Source} {M : Type 0} {N : Nodes M} {A : Type 0} where
  -- With the timer in hand forgotten.
  forgotten-IsValid :
      (e : Event M) (tag : Text) (s : Simulation R N A)
      → e.action ≡ fire_timer tag
      → lookup key_discrete (key e.node tag) s.timers ≡ some e.seq
      → ((f : Event M) → In f s.world.queue.heap → f.seq ≢ e.seq)
      → IsWell (λ f. f ≡ e) s
      → IsValid (record s { timers = remove key_discrete (key e.node tag) s.timers })
  forgotten-IsValid e tag s act filed gone v = record {
    sound =
        retimed-IsSound s.timers (remove key_discrete (key e.node tag) s.timers) s.world.queue
          (λ f i t p. elim (key_discrete (key e.node tag) (key f.node t)) [
            | yes same ↦
                let q = ap (λ k. lookup key_discrete k s.timers) same in
                absurd (gone f i (ground arith))
            | no differ ↦
                ground (arith, lookup-remove key_discrete (key e.node tag) (key f.node t) s.timers)
          ])
          v.sound;
    pending = λ n t seq p.
        let (before, differ) = removed e.node n tag t s.timers seq p in
        let (live, (f, same, (there, o, a))) = v.pending n t seq before in
        (
          live,
          (
            f,
            same,
            (
              elim there [
                | inl i ↦ inl i
                | inr own ↦
                    let on : e.node ≡ n = ap (λ (x : Event M). x.node) (sym own) ∙ o in
                    let acts : fire_timer tag ≡ fire_timer t =
                      sym act ∙ (ap (λ (x : Event M). x.action) (sym own) ∙ a) in
                    let called : tag ≡ t = cc in absurd (differ (rw (on, called) refl))
              ],
              o,
              a,
            ),
          ),
        );
    manned = λ n t seq p. v.manned n t seq (removed e.node n tag t s.timers seq p).0;
    fallen = λ n d.
        let (known, up, (f, (there, o, a))) = v.fallen n d in
        (known, up, (f, (kept f there (ap is_timer a), o, a)));
    frozen = λ n u p.
        let (known, (f, at, (there, o, a))) = v.frozen n u p in
        (known, (f, at, (kept f there (ap is_timer a), o, a)));
  }
    where
      kept :
          (f : Event M)
          → (In f s.world.queue.heap) ⊎ (f ≡ e)
          → is_timer f.action ≡ false
          → (In f s.world.queue.heap) ⊎ ⊥
      kept f (inl i) t = inl i
      kept f (inr own) t =
          absurd (ground (arith, ap (λ (x : Event M). is_timer x.action) own, ap is_timer act))

  disarmed :
      (node : NodeId) (tag : Text) (s : Simulation R N A)
      → (λ n t.
          is_some (lookup key_discrete (key n t) (remove key_discrete (key node tag) s.timers)))
        ≡ disarm node tag (armed s)
  disarmed node tag s = fun_ext λ n. fun_ext λ t. disarm-remove node n tag t s.timers

  -- A timer that is filed again stays armed.
  refiled :
      (node : NodeId) (tag : Text) (new : ℕ) (s : Simulation R N A) {seq : ℕ}
      → lookup key_discrete (key node tag) s.timers ≡ some seq
      → (λ n t.
          is_some (lookup key_discrete (key n t) (insert key_discrete (key node tag) new s.timers)))
        ≡ armed s
  refiled node tag new s p = fun_ext λ n. fun_ext λ t.
      elim (key_discrete (key node tag) (key n t)) [
        | yes same ↦ ground (
          arith,
          lookup-insert key_discrete (key node tag) (key n t) new s.timers,
          ap (λ k. lookup key_discrete k s.timers) same,
        )
        | no differ ↦
            ground (arith, lookup-insert key_discrete (key node tag) (key n t) new s.timers)
      ]

  module _ (Inv : Armed → N.State → Type 0) (Ready : A → Type 0) (unit : IsUnit R)
      (config : FaultConfig R.Float)
      (window : (pos 0 ≤ℤ config.latency_ms.0) × (config.latency_ms.0 ≤ℤ config.latency_ms.1))
      (laws : Laws N Inv) where
    pub fire_lem :
        (e : Event M) (tag : Text) (s : Simulation R N A)
        → e.action ≡ fire_timer tag
        → lookup key_discrete (key e.node tag) s.timers ≡ some e.seq
        → ((f : Event M) → In f s.world.queue.heap → f.seq ≢ e.seq)
        → IsWell (λ f. f ≡ e) s
        → Inv (armed s) s.nodes
        → Ready s.adversary
        → GoesOn Inv Ready s (fire config e.node e.seq tag s)
    unfolding fire
    fire_lem e tag s act filed gone v inv ready =
        let (known, up) = v.manned e.node tag e.seq filed in
        let mine : holds (ℕ_discrete e.seq e.seq) ≡ true = ground arith in
        elim (Option-cases (lookup ℤ_discrete e.node s.paused_until)) [
          | inl awake ↦
              let forgotten : Simulation R N A = record s {
                timers = remove key_discrete (key e.node tag) s.timers;
              } in
              let valid = forgotten-IsValid e tag s act filed gone v in
              let (later, f, l, k) =
                handle_lem Inv Ready unit config window e.node
                  (N.on_timer e.node (now_for s e.node) tag s.nodes) forgotten known up valid ready
                  (subst
                    (λ on. Handles Inv e.node on (N.on_timer e.node (now_for s e.node) tag s.nodes))
                    (sym (disarmed e.node tag s))
                    (laws.timers (armed s) e.node (now_for s e.node) tag s.nodes (rw filed refl)
                      inv)) in
              (
                later,
                rw (known, filed, mine, up, awake, fire) f,
                l,
                record { clock = k.clock; node_ids = k.node_ids },
              )
          | inr (resume_at, asleep) ↦
              let q = s.world.queue in
              let ahead =
                due Inv Ready (λ f. f ≡ e) s e.node resume_at v
                  (λ f own a. absurd (
                    ground (
                      arith,
                      ap is_timer a,
                      ap is_timer act,
                      ap (λ (x : Event M). is_timer x.action) own,
                    )))
                  asleep in
              let only : (f : Event M) → f ≡ e → (f.node ≡ e.node) × (f.action ≡ fire_timer tag) =
                λ f own.
                  (ap (λ (x : Event M). x.node) own, ap (λ (x : Event M). x.action) own ∙ act) in
              let free : (f : Event M)
                  → In f q.heap
                  → lookup key_discrete (e.node, tag) s.timers ≢ some f.seq =
                λ f i p. gone f i (ground arith) in
              (
                with_timer (λ f. f ≡ e) e.node tag resume_at s only free,
                rw (known, filed, mine, up, asleep, fire)
                    (rw (schedule_at-queued resume_at e.node (fire_timer tag) q ahead) refl),
                record {
                  valid =
                      with_timer-IsValid (λ f. f ≡ e) e.node tag resume_at s only free ahead known
                        up v;
                  inv =
                      subst (λ on. Inv on s.nodes) (sym (refiled e.node tag q.next_seq s filed))
                        inv;
                  ready = ready;
                },
                record { clock = refl; node_ids = refl },
              )
        ]

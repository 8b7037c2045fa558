-- ===== src/Sim/Simulation/Calls.antt =====
-- The calls of a node on a well-formed engine.
use cassette.Base.{
  ℕ, ◌≡◌, refl, sym, ap, subst, ◌∙◌, ◌≢◌, inl, inr, Bool, true, false, none, some, List, [], ◌∷◌,
  arith, All, In, ℤ, pos, ℤ_discrete, ◌+ℤ◌, ◌≤ℤ◌, +ℤ_parts, Dict, lookup, member, Text,
}
use mathlib.Core.Path.{fun_ext}
use cassette.Kv.Version.{NodeId}
use cassette.Sim.Env.{Effect, send, set_timer, cancel_timer, Nodes}
use cassette.Sim.Events.{Event, deliver_message, fire_timer}
use cassette.Sim.Faults.{FaultConfig}
use cassette.Sim.Network
use cassette.Sim.Network.{World}
use cassette.Sim.Network.Delivery.{HasQueued, send_lem, thrown}
use cassette.Sim.Rng.{Source}
use cassette.Sim.Rng.Draws.{IsUnit}
use cassette.Sim.Scheduler.Order.{schedule_lem}
use cassette.Sim.Simulation.{
  key_discrete, Note, Simulation, clock_now, with_queue, note, note_all, drop_timer, arm_timer,
}
use cassette.Sim.Simulation.Queueing.{grown-IsWell}
use cassette.Sim.Simulation.Steps.{route, perform, perform_all}
use cassette.Sim.Simulation.Timers.{
  key, armed, disarm, rearm, IsKept, IsKept-refl, IsKept-trans, drop_timer_lem, with_timer,
  with_timer-IsValid, rearm-insert,
}
use cassette.Sim.Simulation.Valid.{Backed, IsWell, Nothing, IsValid}

module _ {M : Type 0} where
  -- The armed timers after a call, and after calls in order.
  abbrev pub after_call : NodeId → Effect M → (NodeId → Text → Bool) → NodeId → Text → Bool
  after_call node (send to msg) on = on
  after_call node (set_timer delay_ms tag) on = rearm node tag on
  after_call node (cancel_timer tag) on = disarm node tag on

  abbrev pub after_calls : NodeId → List (Effect M) → (NodeId → Text → Bool) → NodeId → Text → Bool
  after_calls node [] on = on
  after_calls node (call ∷ calls) on = after_calls node calls (after_call node call on)

  -- No timer is set for the past.
  abbrev pub IsPatient : Effect M → Type 0
  IsPatient (send to msg) = Unit
  IsPatient (set_timer delay_ms tag) = pos 0 ≤ℤ delay_ms
  IsPatient (cancel_timer tag) = Unit

rearmed :
    (node : NodeId) (tag : Text) (on : NodeId → Text → Bool)
    → rearm node tag (disarm node tag on) ≡ rearm node tag on
rearmed node tag on = fun_ext λ n. fun_ext λ t. ground arith

module _ {R : Source} {M : Type 0} {N : Nodes M} {A : Type 0} where
  -- The parts that the invariant does not speak of.
  pub rest-IsWell :
      (held : Event M → Type 0) (s : Simulation R N A) (w : World R M) (nodes : N.State)
      (skew : Dict NodeId ℤ) (adversary : A) (events : List (ℤ × Note M))
      → IsWell held (with_queue w.queue s)
      → IsWell held (record s {
        world = w;
        nodes = nodes;
        skew = skew;
        adversary = adversary;
        events = events;
      })
  rest-IsWell held s w nodes skew adversary events v = record {
    sound = v.sound;
    pending = v.pending;
    manned = v.manned;
    fallen = v.fallen;
    frozen = v.frozen;
  }

  -- Notes are added to the events.
  pub note_all_lem :
      (notes : List (Network.Note M)) (s : Simulation R N A)
      → (events : List (ℤ × Note M)) × (note_all notes s ≡ record s { events = events })
  unfolding note_all
  note_all_lem [] s = (s.events, refl)
  note_all_lem (n ∷ notes) s =
      let (events, e) = note_all_lem notes (note (Note.bus_note n) s) in (events, e)

  -- What calls come to: the engine is well-formed, with the timers that they leave.
  pub record IsDone (on : NodeId → Text → Bool) (s later : Simulation R N A) : Type 0 where
    pub valid : IsValid later
    pub kept : IsKept s later
    pub timers : armed later ≡ on

  sent_grown :
      (config : FaultConfig R.Float) (sender recipient : NodeId) (msg : M) (s : Simulation R N A)
      (w : World R M) {msg_id n : ℕ}
      → HasQueued R config sender recipient msg msg_id n (thrown R s.world) w
      → IsValid s
      → IsValid (with_queue w.queue s)
  sent_grown config sender recipient msg s w {msg_id} q v =
      grown-IsWell (λ e. e.action ≡ deliver_message sender msg msg_id) Nothing s w.queue
        (record {
          queue = q.valid;
          clock = q.clock;
          cancelled = q.cancelled;
          numbering = q.numbering;
          stays = q.stays;
          added = λ e i. elim (q.added e i) [ inl old ↦ inl old | inr new ↦ inr (new.0, new.2) ];
        })
        (λ e a. subst (Backed s.timers w.queue e) (sym a) tt) v

  not_armed :
      (node : NodeId) (tag : Text) (s later : Simulation R N A)
      → armed later ≡ disarm node tag (armed s)
      → lookup key_discrete (key node tag) later.timers ≡ none
  not_armed node tag s later p =
      let q : armed later node tag ≡ disarm node tag (armed s) node tag =
        ap (λ (f : NodeId → Text → Bool). f node tag) p in
      ground arith

  pub arm_timer_lem :
      (node : NodeId) (delay_ms : ℤ) (tag : Text) (s : Simulation R N A)
      → pos 0 ≤ℤ delay_ms
      → member ℤ_discrete node s.node_ids ≡ true
      → member ℤ_discrete node s.down ≡ false
      → IsValid s
      → (later : Simulation R N A) × (arm_timer node delay_ms tag s ≡ some later)
        × IsDone (rearm node tag (armed s)) s later
  unfolding arm_timer
  arm_timer_lem node delay_ms tag s h known up v =
      let cleared = drop_timer node tag s in
      let (v', kept, off) = drop_timer_lem node tag s v in
      let gone = not_armed node tag s cleared off in
      let time_ms = clock_now cleared +ℤ delay_ms in
      let q = cleared.world.queue in
      let ahead : clock_now cleared ≤ℤ time_ms =
        omega (arith, +ℤ_parts (clock_now cleared) delay_ms, h) in
      let only : (f : Event M) → ⊥ → (f.node ≡ node) × (f.action ≡ fire_timer tag) =
        λ f none_held. absurd none_held in
      let free : (f : Event M)
          → In f q.heap
          → lookup key_discrete (node, tag) cleared.timers ≢ some f.seq =
        λ f i p. absurd (ground arith) in
      (
        with_timer Nothing node tag time_ms cleared only free,
        rw (schedule_lem delay_ms node (fire_timer tag) q h, arm_timer) refl,
        record {
          valid =
              with_timer-IsValid Nothing node tag time_ms cleared only free ahead
                (rw kept.node_ids known) (rw kept.down up) v';
          kept = record {
            nodes = kept.nodes;
            node_ids = kept.node_ids;
            down = kept.down;
            paused_until = kept.paused_until;
            skew = kept.skew;
            clock = kept.clock;
            adversary = kept.adversary;
            network = kept.network;
          };
          timers =
              (fun_ext λ n. fun_ext λ t. rearm-insert node n tag t q.next_seq cleared.timers)
              ∙ (ap (rearm node tag) off ∙ rearmed node tag (armed s));
        },
      )

  module _ (unit : IsUnit R) (config : FaultConfig R.Float)
      (window : (pos 0 ≤ℤ config.latency_ms.0) × (config.latency_ms.0 ≤ℤ config.latency_ms.1)) where
    pub route_lem :
        (sender recipient : NodeId) (msg : M) (s : Simulation R N A)
        → IsValid s
        → (later : Simulation R N A) × (route config sender recipient msg s ≡ some later)
          × IsDone (armed s) s later
    unfolding route
    route_lem sender recipient msg s v =
        let (w, notes, e, q) =
          send_lem R unit config window sender recipient msg s.world v.sound.queue in
        let (events, noted) = note_all_lem notes (record s { world = w }) in
        (
          record s { world = w; events = events },
          rw (e, route) (ap some noted),
          record {
            valid =
                rest-IsWell Nothing s w s.nodes s.skew s.adversary events
                  (sent_grown config sender recipient msg s w q v);
            kept = record {
              nodes = refl;
              node_ids = refl;
              down = refl;
              paused_until = refl;
              skew = refl;
              clock = ap (λ c. c.now) q.clock;
              adversary = refl;
              network = ap (λ n. n.partition) q.network;
            };
            timers = refl;
          },
        )

    -- Calls that set no timer for the past, of a node that is up, never raise.
    pub perform_lem :
        (node : NodeId) (call : Effect M) (s : Simulation R N A)
        → IsPatient call
        → member ℤ_discrete node s.node_ids ≡ true
        → member ℤ_discrete node s.down ≡ false
        → IsValid s
        → (later : Simulation R N A) × (perform config node call s ≡ some later)
          × IsDone (after_call node call (armed s)) s later
    unfolding perform
    perform_lem node (send to msg) s p known up v = route_lem node to msg s v
    perform_lem node (set_timer delay_ms tag) s p known up v =
        arm_timer_lem node delay_ms tag s p known up v
    perform_lem node (cancel_timer tag) s p known up v =
        let (valid, kept, timers) = drop_timer_lem node tag s v in
        (drop_timer node tag s, refl, record { valid = valid; kept = kept; timers = timers })

    pub perform_all_lem :
        (node : NodeId) (calls : List (Effect M)) (s : Simulation R N A)
        → All IsPatient calls
        → member ℤ_discrete node s.node_ids ≡ true
        → member ℤ_discrete node s.down ≡ false
        → IsValid s
        → (later : Simulation R N A) × (perform_all config node calls s ≡ some later)
          × IsDone (after_calls node calls (armed s)) s later
    unfolding perform_all
    perform_all_lem node [] s p known up v =
        (s, refl, record { valid = v; kept = IsKept-refl s; timers = refl })
    perform_all_lem node (call ∷ calls) s p known up v =
        let (mid, e, d) = perform_lem node call s p.0 known up v in
        let (later, f, d') =
          perform_all_lem node calls mid p.1 (rw d.kept.node_ids known) (rw d.kept.down up)
            d.valid in
        (
          later,
          rw (e, perform_all) f,
          record {
            valid = d'.valid;
            kept = IsKept-trans s mid later d.kept d'.kept;
            timers = d'.timers ∙ ap (after_calls node calls) d.timers;
          },
        )

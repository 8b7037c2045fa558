-- ===== src/Sim/Simulation/Queueing.antt =====
-- What queueing, cancelling and popping keep.
use cassette.Base.{
  ℕ, suc, ◌≤◌, ◌≡◌, refl, sym, ap, ◌∙◌, ◌⊎◌, inl, inr, false, some, List, [], ◌∷◌, arith, In,
  ℕ_discrete, ℤ, ◌≤ℤ◌, ltb_ℤ, Dict, lookup, member, Text,
}
use cassette.Kv.Version.{NodeId}
use cassette.Sim.Env.{Nodes}
use cassette.Sim.Events.{
  Action, Event, deliver_message, fire_timer, crash_node, restart_node, pause_node, resume_node,
  fault_tick, start_partition, heal_partition,
}
use cassette.Sim.Rng.{Source}
use cassette.Sim.Scheduler.{Scheduler, push, schedule_at}
use cassette.Sim.Scheduler.Order
use cassette.Sim.Scheduler.Order.{IsOrdered, In_of_push, In-push, In-push_new, push-IsValid}
use cassette.Sim.Simulation.{key_discrete, Simulation, with_queue}
use cassette.Sim.Simulation.Valid.{IsCancelled, Backed, IsSound, IsWell}

module _ {M : Type 0} where
  -- The queue has grown by events of a kind, with numbers of their own.
  pub record HasGrown (New : Event M → Type 0) (q q' : Scheduler M) : Type 0 where
    pub queue : Order.IsValid q'
    pub clock : q'.clock ≡ q.clock
    pub cancelled : q'.cancelled ≡ q.cancelled
    pub numbering : q.next_seq ≤ q'.next_seq
    pub stays : (e : Event M) → In e q.heap → In e q'.heap
    pub added : (e : Event M) → In e q'.heap → In e q.heap ⊎ (q.next_seq ≤ e.seq) × New e

  -- What is behind an event stays behind it.
  Backed-grown :
      (timers : Dict (NodeId × Text) ℕ) (q q' : Scheduler M) (e : Event M) (action : Action M)
      → q'.cancelled ≡ q.cancelled
      → ((f : Event M) → In f q.heap → In f q'.heap)
      → Backed timers q e action
      → Backed timers q' e action
  Backed-grown timers q q' e (deliver_message sender msg msg_id) same stays b = tt
  Backed-grown timers q q' e (fire_timer tag) same stays b =
      λ live. b (ap (member ℕ_discrete e.seq) (sym same) ∙ live)
  Backed-grown timers q q' e crash_node same stays b =
      let (f, (i, n, a, c)) = b in (f, (stays f i, n, a, c))
  Backed-grown timers q q' e restart_node same stays b = tt
  Backed-grown timers q q' e (pause_node until_ms) same stays b =
      let (f, at, (i, n, a, c)) = b in (f, at, (stays f i, n, a, c))
  Backed-grown timers q q' e resume_node same stays b = tt
  Backed-grown timers q q' e fault_tick same stays b = tt
  Backed-grown timers q q' e (start_partition groups) same stays b = b
  Backed-grown timers q q' e heal_partition same stays b = tt

  pub grown-IsSound :
      (New : Event M → Type 0) (timers : Dict (NodeId × Text) ℕ) (q q' : Scheduler M)
      → HasGrown New q q'
      → ((e : Event M) → New e → Backed timers q' e e.action)
      → IsSound timers q
      → IsSound timers q'
  grown-IsSound New timers q q' g fine v = record {
    queue = g.queue;
    started = rw g.clock v.started;
    counted = λ seq c.
        let p = v.counted seq (ap (member ℕ_discrete seq) (sym g.cancelled) ∙ c) in
        omega (arith, g.numbering, p);
    spent = λ e i c.
        let c' : IsCancelled q e.seq = ap (member ℕ_discrete e.seq) (sym g.cancelled) ∙ c in
        elim (g.added e i) [
          | inl old ↦ v.spent e old c'
          | inr new ↦ absurd (omega (arith, v.counted e.seq c', new.0))
        ];
    backed = λ e i. elim (g.added e i) [
      | inl old ↦ Backed-grown timers q q' e e.action g.cancelled g.stays (v.backed e old)
      | inr new ↦ fine e new.1
    ];
  }

  Backed-retimed :
      (timers timers' : Dict (NodeId × Text) ℕ) (q : Scheduler M) (e : Event M) (action : Action M)
      → ((tag : Text)
          → lookup key_discrete (e.node, tag) timers ≡ some e.seq
          → lookup key_discrete (e.node, tag) timers' ≡ some e.seq)
      → Backed timers q e action
      → Backed timers' q e action
  Backed-retimed timers timers' q e (deliver_message sender msg msg_id) kept b = tt
  Backed-retimed timers timers' q e (fire_timer tag) kept b = λ live. kept tag (b live)
  Backed-retimed timers timers' q e crash_node kept b = b
  Backed-retimed timers timers' q e restart_node kept b = tt
  Backed-retimed timers timers' q e (pause_node until_ms) kept b = b
  Backed-retimed timers timers' q e resume_node kept b = tt
  Backed-retimed timers timers' q e fault_tick kept b = tt
  Backed-retimed timers timers' q e (start_partition groups) kept b = b
  Backed-retimed timers timers' q e heal_partition kept b = tt

  -- The files of the timers may change where no event of the queue is filed.
  pub retimed-IsSound :
      (timers timers' : Dict (NodeId × Text) ℕ) (q : Scheduler M)
      → ((e : Event M)
          → In e q.heap
          → (tag : Text) → lookup key_discrete (e.node, tag) timers ≡ some e.seq
          → lookup key_discrete (e.node, tag) timers' ≡ some e.seq)
      → IsSound timers q
      → IsSound timers' q
  retimed-IsSound timers timers' q kept v = record {
    queue = v.queue;
    started = v.started;
    counted = v.counted;
    spent = v.spent;
    backed = λ e i. Backed-retimed timers timers' q e e.action (kept e i) (v.backed e i);
  }

module _ {R : Source} {M : Type 0} {N : Nodes M} {A : Type 0} where
  -- A queue that grows by events that stand on something keeps the engine well-formed.
  pub grown-IsWell :
      (New held : Event M → Type 0) (s : Simulation R N A) (q : Scheduler M)
      → HasGrown New s.world.queue q
      → ((e : Event M) → New e → Backed s.timers q e e.action)
      → IsWell held s
      → IsWell held (with_queue q s)
  grown-IsWell New held s q g fine v = record {
    sound = grown-IsSound New s.timers s.world.queue q g fine v.sound;
    pending = λ node tag seq p.
        let (live, (f, same, (there, n, a))) = v.pending node tag seq p in
        (ap (member ℕ_discrete seq) g.cancelled ∙ live, (f, same, (still f there, n, a)));
    manned = v.manned;
    fallen = λ node d.
        let (known, up, (f, (there, n, a))) = v.fallen node d in
        (known, up, (f, (still f there, n, a)));
    frozen = λ node until_ms p.
        let (known, (f, at, (there, n, a))) = v.frozen node until_ms p in
        (known, (f, at, (still f there, n, a)));
  }
    where
      still : (f : Event M) → (In f s.world.queue.heap) ⊎ held f → (In f q.heap) ⊎ held f
      still f (inl i) = inl (g.stays f i)
      still f (inr h) = inr h

module _ {M : Type 0} where
  HasGrown-trans :
      (New New' : Event M → Type 0) (q q' q'' : Scheduler M)
      → HasGrown New q q'
      → HasGrown New' q' q''
      → HasGrown (λ e. New e ⊎ New' e) q q''
  HasGrown-trans New New' q q' q'' g h = record {
    queue = h.queue;
    clock = h.clock ∙ g.clock;
    cancelled = h.cancelled ∙ g.cancelled;
    numbering = omega (arith, g.numbering, h.numbering);
    stays = λ e i. h.stays e (g.stays e i);
    added = λ e i. elim (h.added e i) [
      | inl before ↦ elim (g.added e before) [ inl old ↦ inl old | inr (n, new) ↦ inr (n, inl new) ]
      | inr (n, new) ↦ inr (omega (arith, n, g.numbering), inr new)
    ];
  }

  abbrev pub new_event : ℤ → NodeId → Action M → Scheduler M → Event M
  new_event time_ms node action q = record {
    time_ms = time_ms;
    seq = q.next_seq;
    node = node;
    action = action;
  }

  -- The queue with one event more.
  abbrev pub queued : ℤ → NodeId → Action M → Scheduler M → Scheduler M
  queued time_ms node action q = record q {
    next_seq = suc q.next_seq;
    heap = push (new_event time_ms node action q) q.heap;
  }

  pub queued-HasGrown :
      (time_ms : ℤ) (node : NodeId) (action : Action M) (q : Scheduler M)
      → q.clock.now ≤ℤ time_ms
      → Order.IsValid q
      → HasGrown (λ e. e ≡ new_event time_ms node action q) q (queued time_ms node action q)
  queued-HasGrown time_ms node action q later v =
      let new = new_event time_ms node action q in
      record {
        queue = push-IsValid new q refl later v;
        clock = refl;
        cancelled = refl;
        numbering = omega arith;
        stays = λ e i. In-push new e q.heap i;
        added = λ e i. elim (In_of_push new e q.heap i) [
          | inl same ↦ inr (rw same (omega arith), same)
          | inr old ↦ inl old
        ];
      }

  pub schedule_at-queued :
      (time_ms : ℤ) (node : NodeId) (action : Action M) (q : Scheduler M)
      → q.clock.now ≤ℤ time_ms
      → schedule_at time_ms node action q ≡ some (q.next_seq, queued time_ms node action q)
  unfolding schedule_at
  schedule_at-queued time_ms node action q later =
      let ahead : ltb_ℤ time_ms q.clock.now ≡ false = ground arith in rw ahead refl

  -- The queue with both events of a fault.
  abbrev pub queued_both : ℤ → NodeId → Action M → ℤ → Action M → Scheduler M → Scheduler M
  queued_both from node first to second q = queued to node second (queued from node first q)

  pub queued_both-HasGrown :
      (from : ℤ) (node : NodeId) (first : Action M) (to : ℤ) (second : Action M) (q : Scheduler M)
      → q.clock.now ≤ℤ from
      → q.clock.now ≤ℤ to
      → Order.IsValid q
      → HasGrown
          (λ e.
            (e ≡ new_event from node first q)
            ⊎ (e ≡ new_event to node second (queued from node first q)))
          q
          (queued_both from node first to second q)
  queued_both-HasGrown from node first to second q f t v =
      let g = queued-HasGrown from node first q f v in
      HasGrown-trans _ _ q (queued from node first q) (queued_both from node first to second q) g
        (queued-HasGrown to node second (queued from node first q) t g.queue)

  -- A number is that of one event.
  pub same_of_seq :
      (h : List (Event M)) (e f : Event M) → IsOrdered h → In e h → In f h → e.seq ≡ f.seq → e ≡ f
  same_of_seq [] e f o i j p = absurd i
  same_of_seq (g ∷ h) e f o (inl a) (inl b) p = a ∙ sym b
  same_of_seq (g ∷ h) e f o (inl a) (inr j) p =
      absurd ((o.0 f j).1 (ap (λ (x : Event M). x.seq) (sym a) ∙ p))
  same_of_seq (g ∷ h) e f o (inr i) (inl b) p =
      absurd ((o.0 e i).1 (ap (λ (x : Event M). x.seq) (sym b) ∙ sym p))
  same_of_seq (g ∷ h) e f o (inr i) (inr j) p = same_of_seq h e f o.1 i j p

-- ===== src/Sim/Simulation/Timers.antt =====
-- Dropping, setting and refiling a timer.
use cassette.Base.{
  ℕ, ◌≡◌, refl, sym, ap, subst, ◌∙◌, ◌≢◌, ◌⊎◌, inl, inr, ite, Bool, true, false, none, some, arith,
  is_some, Bool-cases, Option-cases, In, ℕ_discrete, ℤ, ℤ_discrete, ◌≤ℤ◌, Dict, lookup, insert,
  remove, lookup-insert, lookup-remove, member, member-add, Text,
}
use mathlib.Core.Path.{fun_ext}
use cassette.Kv.Version.{NodeId}
use cassette.Sim.Env.{Nodes}
use cassette.Sim.Events.{
  Action, Event, deliver_message, fire_timer, crash_node, restart_node, pause_node, resume_node,
  fault_tick, start_partition, heal_partition,
}
use cassette.Sim.Rng.{Source}
use cassette.Sim.Scheduler
use cassette.Sim.Scheduler.{Scheduler, schedule}
use cassette.Sim.Scheduler.Order.{In-push_new}
use cassette.Sim.Simulation.{
  key_discrete, Simulation, clock_now, with_queue, drop_timer, file_timer,
}
use cassette.Sim.Simulation.Queueing.{
  grown-IsSound, retimed-IsSound, new_event, queued, queued-HasGrown, same_of_seq,
}
use cassette.Sim.Simulation.Valid.{is_timer, IsLive, Backed, IsSound, IsWell, IsValid}

abbrev pub key : NodeId → Text → NodeId × Text
key node tag = (node, tag)

-- The removal of one key leaves the others.
pub removed :
    (node n : NodeId) (tag t : Text) (timers : Dict (NodeId × Text) ℕ) (seq : ℕ)
    → lookup key_discrete (key n t) (remove key_discrete (key node tag) timers) ≡ some seq
    → (lookup key_discrete (key n t) timers ≡ some seq) × (key node tag ≢ key n t)
removed node n tag t timers seq p =
    ground (arith, lookup-remove key_discrete (key node tag) (key n t) timers)

-- The armed timers without one, and with one.
abbrev pub disarm : NodeId → Text → (NodeId → Text → Bool) → NodeId → Text → Bool
disarm node tag on n t = ite (key_discrete (key node tag) (key n t)) false (on n t)

abbrev pub rearm : NodeId → Text → (NodeId → Text → Bool) → NodeId → Text → Bool
rearm node tag on n t = ite (key_discrete (key node tag) (key n t)) true (on n t)

disarm-none :
    (node n : NodeId) (tag t : Text) (timers : Dict (NodeId × Text) ℕ)
    → lookup key_discrete (key node tag) timers ≡ none
    → is_some (lookup key_discrete (key n t) timers)
      ≡ disarm node tag (λ n t. is_some (lookup key_discrete (key n t) timers)) n t
disarm-none node n tag t timers gone = elim (key_discrete (key node tag) (key n t)) [
  | yes same ↦ ground (arith, ap (λ k. lookup key_discrete k timers) same)
  | no differ ↦ ground arith
]

pub disarm-remove :
    (node n : NodeId) (tag t : Text) (timers : Dict (NodeId × Text) ℕ)
    → is_some (lookup key_discrete (key n t) (remove key_discrete (key node tag) timers))
      ≡ disarm node tag (λ n t. is_some (lookup key_discrete (key n t) timers)) n t
disarm-remove node n tag t timers =
    ground (arith, lookup-remove key_discrete (key node tag) (key n t) timers)

pub rearm-insert :
    (node n : NodeId) (tag t : Text) (seq : ℕ) (timers : Dict (NodeId × Text) ℕ)
    → is_some (lookup key_discrete (key n t) (insert key_discrete (key node tag) seq timers))
      ≡ rearm node tag (λ n t. is_some (lookup key_discrete (key n t) timers)) n t
rearm-insert node n tag t seq timers =
    ground (arith, lookup-insert key_discrete (key node tag) (key n t) seq timers)

lookup-insert_self :
    (k : NodeId × Text) (seq : ℕ) (timers : Dict (NodeId × Text) ℕ)
    → lookup key_discrete k (insert key_discrete k seq timers) ≡ some seq
lookup-insert_self k seq timers = ground (arith, lookup-insert key_discrete k k seq timers)

lookup-insert_other :
    (k j : NodeId × Text) (seq : ℕ) (timers : Dict (NodeId × Text) ℕ)
    → k ≢ j
    → lookup key_discrete j (insert key_discrete k seq timers) ≡ lookup key_discrete j timers
lookup-insert_other k j seq timers differ =
    ground (arith, lookup-insert key_discrete k j seq timers)

-- What is filed under a key: the new number under the one key, the old one elsewhere.
filed_under :
    (k j : NodeId × Text) (new seq : ℕ) (timers : Dict (NodeId × Text) ℕ)
    → lookup key_discrete j (insert key_discrete k new timers) ≡ some seq
    → (k ≡ j) × (seq ≡ new) ⊎ (k ≢ j) × (lookup key_discrete j timers ≡ some seq)
filed_under k j new seq timers p =
    let here = lookup-insert key_discrete k j new timers in
    elim (key_discrete k j) [
      | yes same ↦ inl (same, ground arith)
      | no differ ↦ inr (differ, ground arith)
    ]

module _ {R : Source} {M : Type 0} {N : Nodes M} {A : Type 0} where
  -- Whether a node has a timer of this tag.
  abbrev pub armed : Simulation R N A → NodeId → Text → Bool
  armed s node tag = is_some (lookup key_discrete (node, tag) s.timers)

  -- What a call of a node leaves alone.
  pub record IsKept (s later : Simulation R N A) : Type 0 where
    pub nodes : later.nodes ≡ s.nodes
    pub node_ids : later.node_ids ≡ s.node_ids
    pub down : later.down ≡ s.down
    pub paused_until : later.paused_until ≡ s.paused_until
    pub skew : later.skew ≡ s.skew
    pub clock : clock_now later ≡ clock_now s
    pub adversary : later.adversary ≡ s.adversary
    pub network : later.world.network.partition ≡ s.world.network.partition

  pub IsKept-refl : (s : Simulation R N A) → IsKept s s
  IsKept-refl s = record {
    nodes = refl;
    node_ids = refl;
    down = refl;
    paused_until = refl;
    skew = refl;
    clock = refl;
    adversary = refl;
    network = refl;
  }

  pub IsKept-trans :
      (s mid later : Simulation R N A) → IsKept s mid → IsKept mid later → IsKept s later
  IsKept-trans s mid later p q = record {
    nodes = q.nodes ∙ p.nodes;
    node_ids = q.node_ids ∙ p.node_ids;
    down = q.down ∙ p.down;
    paused_until = q.paused_until ∙ p.paused_until;
    skew = q.skew ∙ p.skew;
    clock = q.clock ∙ p.clock;
    adversary = q.adversary ∙ p.adversary;
    network = q.network ∙ p.network;
  }

  -- The state with a timer dropped that was filed under `seq`.
  abbrev dropped : NodeId → Text → ℕ → Simulation R N A → Simulation R N A
  dropped node tag seq s =
      with_queue (Scheduler.cancel seq s.world.queue)
        (record s { timers = remove key_discrete (node, tag) s.timers })

  -- Two filed timers with one number are one.
  same_key :
      (s : Simulation R N A) (node n : NodeId) (tag t : Text) (seq : ℕ)
      → IsValid s
      → lookup key_discrete (node, tag) s.timers ≡ some seq
      → lookup key_discrete (n, t) s.timers ≡ some seq
      → key node tag ≡ key n t
  same_key s node n tag t seq v p q =
      let (live, (e, own, (i, ne, ae))) = v.pending node tag seq p in
      let (live', (f, own', (j, nf, af))) = v.pending n t seq q in
      elim i [
        | inr none_held ↦ absurd none_held
        | inl i' ↦ elim j [
          | inr none_held ↦ absurd none_held
          | inl j' ↦
              let same : e ≡ f =
                same_of_seq s.world.queue.heap e f v.sound.queue.ordered i' j' (own ∙ sym own') in
              let on : node ≡ n = sym ne ∙ (ap (λ (x : Event M). x.node) same ∙ nf) in
              let acts : fire_timer tag ≡ fire_timer t =
                sym ae ∙ (ap (λ (x : Event M). x.action) same ∙ af) in
              let called : tag ≡ t = cc in rw (on, called) refl
        ]
      ]

  -- The event of a filed timer.
  filed :
      (s : Simulation R N A) (node : NodeId) (tag : Text) (seq : ℕ)
      → IsValid s
      → lookup key_discrete (node, tag) s.timers ≡ some seq
      → (f : Event M) × In f s.world.queue.heap × (f.seq ≡ seq) × (is_timer f.action ≡ true)
  filed s node tag seq v p =
      let (live, (f, own, (i, n, a))) = v.pending node tag seq p in
      elim i [ inl i' ↦ (f, i', own, ap is_timer a) | inr none_held ↦ absurd none_held ]

  Backed-dropped :
      (node : NodeId) (tag : Text) (seq : ℕ) (s : Simulation R N A) (e : Event M)
      (action : Action M)
      → lookup key_discrete (key node tag) s.timers ≡ some seq
      → Backed s.timers s.world.queue e action
      → Backed (dropped node tag seq s).timers (dropped node tag seq s).world.queue e action
  unfolding Scheduler.cancel
  Backed-dropped node tag seq s e (deliver_message sender msg msg_id) p b = tt
  Backed-dropped node tag seq s e (fire_timer t) p b = λ live.
      let marked = member-add ℕ_discrete seq e.seq s.world.queue.cancelled in
      let other : seq ≢ e.seq = ground arith in
      let still : IsLive s.world.queue e.seq = ground arith in
      let here = lookup-remove key_discrete (key node tag) (key e.node t) s.timers in
      elim (key_discrete (key node tag) (key e.node t)) [
        | yes same ↦
            absurd (other (ground (arith, b still, ap (λ k. lookup key_discrete k s.timers) same)))
        | no differ ↦ let kept = b still in ground arith
      ]
  Backed-dropped node tag seq s e crash_node p b = b
  Backed-dropped node tag seq s e restart_node p b = tt
  Backed-dropped node tag seq s e (pause_node until_ms) p b = b
  Backed-dropped node tag seq s e resume_node p b = tt
  Backed-dropped node tag seq s e fault_tick p b = tt
  Backed-dropped node tag seq s e (start_partition groups) p b = b
  Backed-dropped node tag seq s e heal_partition p b = tt

  dropped-IsSound :
      (node : NodeId) (tag : Text) (seq : ℕ) (s : Simulation R N A)
      → IsValid s
      → lookup key_discrete (node, tag) s.timers ≡ some seq
      → IsSound (dropped node tag seq s).timers (dropped node tag seq s).world.queue
  unfolding Scheduler.cancel
  dropped-IsSound node tag seq s v p = record {
    queue = record {
      ordered = v.sound.queue.ordered;
      ahead = v.sound.queue.ahead;
      numbered = v.sound.queue.numbered;
    };
    started = v.sound.started;
    counted = λ n c.
        let (f, i, own, t) = filed s node tag seq v p in
        ground (
          arith,
          member-add ℕ_discrete seq n s.world.queue.cancelled,
          v.sound.counted n,
          v.sound.queue.numbered f i,
        );
    spent = λ e i c.
        let (f, j, own, t) = filed s node tag seq v p in
        let marked = member-add ℕ_discrete seq e.seq s.world.queue.cancelled in
        elim (ℕ_discrete seq e.seq) [
          | yes same ↦
              rw (same_of_seq s.world.queue.heap e f v.sound.queue.ordered i j (sym same ∙ sym own))
                t
          | no differ ↦ v.sound.spent e i (ground arith)
        ];
    backed = λ e i. Backed-dropped node tag seq s e e.action p (v.sound.backed e i);
  }

  dropped-IsValid :
      (node : NodeId) (tag : Text) (seq : ℕ) (s : Simulation R N A)
      → IsValid s
      → lookup key_discrete (node, tag) s.timers ≡ some seq
      → IsValid (dropped node tag seq s)
  unfolding Scheduler.cancel
  dropped-IsValid node tag seq s v p = record {
    sound = dropped-IsSound node tag seq s v p;
    pending = λ n t k q.
        let (before, differ) = removed node n tag t s.timers k q in
        let (live, there) = v.pending n t k before in
        let other : seq ≢ k = λ e. differ (same_key s node n tag t k v (p ∙ ap some e) before) in
        (ground (arith, member-add ℕ_discrete seq k s.world.queue.cancelled), there);
    manned = λ n t k q. v.manned n t k (removed node n tag t s.timers k q).0;
    fallen = v.fallen;
    frozen = v.frozen;
  }

  abbrev pub IsDropped : NodeId → Text → Simulation R N A → Simulation R N A → Type 0
  IsDropped node tag s later =
      IsValid later × IsKept s later × (armed later ≡ disarm node tag (armed s))

  -- Dropping a timer keeps the engine well-formed, and changes nothing else.
  pub drop_timer_lem :
      (node : NodeId) (tag : Text) (s : Simulation R N A)
      → IsValid s
      → IsDropped node tag s (drop_timer node tag s)
  unfolding Scheduler.cancel drop_timer
  drop_timer_lem node tag s v = elim (Option-cases (lookup key_discrete (key node tag) s.timers)) [
    | inl gone ↦
        subst (IsDropped node tag s) (sym (rw (gone, drop_timer) refl))
          (v, IsKept-refl s, fun_ext λ n. fun_ext λ t. disarm-none node n tag t s.timers gone)
    | inr (seq, there) ↦ subst (IsDropped node tag s) (sym (rw (there, drop_timer) refl)) (
      dropped-IsValid node tag seq s v there,
      record {
        nodes = refl;
        node_ids = refl;
        down = refl;
        paused_until = refl;
        skew = refl;
        clock = refl;
        adversary = refl;
        network = refl;
      },
      fun_ext λ n. fun_ext λ t. disarm-remove node n tag t s.timers,
    )
  ]

  -- A new timer of `node`, which replaces what was filed for the tag and is no more in the queue.
  -- What is in hand can only be the event of the old one.
  module _ (held : Event M → Type 0) (node : NodeId) (tag : Text) (time_ms : ℤ)
      (s : Simulation R N A)
      (only : (f : Event M) → held f → (f.node ≡ node) × (f.action ≡ fire_timer tag))
      (free : (f : Event M)
        → In f s.world.queue.heap
        → lookup key_discrete (node, tag) s.timers ≢ some f.seq) where
    abbrev new_queue : Scheduler M
    new_queue = queued time_ms node (fire_timer tag) s.world.queue

    abbrev pub with_timer : Simulation R N A
    with_timer = file_timer node tag s.world.queue.next_seq new_queue s

    abbrev new_timers : Dict (NodeId × Text) ℕ
    new_timers = insert key_discrete (key node tag) s.world.queue.next_seq s.timers

    unnumbered : (k : ℕ) → k ≡ s.world.queue.next_seq → IsWell held s → IsLive new_queue k
    unnumbered k own v = elim (Bool-cases (member ℕ_discrete k s.world.queue.cancelled)) [
      | inl c ↦ absurd (omega (arith, v.sound.counted k c))
      | inr l ↦ l
    ]

    one_key :
        (f : Event M) (n : NodeId) (t : Text)
        → (f.node ≡ node) × (f.action ≡ fire_timer tag)
        → f.node ≡ n
        → f.action ≡ fire_timer t
        → key node tag ≡ key n t
    one_key f n t h o a =
        let on : node ≡ n = sym h.0 ∙ o in
        let acts : fire_timer tag ≡ fire_timer t = sym h.1 ∙ a in
        let called : tag ≡ t = cc in rw (on, called) refl

    pub with_timer-IsValid :
        s.world.queue.clock.now ≤ℤ time_ms
        → member ℤ_discrete node s.node_ids ≡ true
        → member ℤ_discrete node s.down ≡ false
        → IsWell held s
        → IsValid with_timer
    with_timer-IsValid later known up v =
        let q = s.world.queue in
        let g = queued-HasGrown time_ms node (fire_timer tag) q later v.sound.queue in
        let kept : (f : Event M)
            → (In f q.heap) ⊎ held f
            → is_timer f.action ≡ false
            → In f new_queue.heap =
          λ f i t. elim i [
            | inl there ↦ g.stays f there
            | inr h ↦ absurd (ground (arith, ap is_timer (only f h).1))
          ] in
        record {
          sound =
              grown-IsSound _ new_timers q new_queue g
                (λ e new.
                  subst (λ (x : Event M). Backed new_timers new_queue x x.action) (sym new)
                    (λ _. lookup-insert_self (key node tag) q.next_seq s.timers))
                (retimed-IsSound s.timers new_timers q
                  (λ e i t p.
                    lookup-insert_other (key node tag) (key e.node t) q.next_seq s.timers
                      (λ same. free e i (ap (λ k. lookup key_discrete k s.timers) same ∙ p))
                    ∙ p)
                  v.sound);
          pending = λ n t k p.
              elim (filed_under (key node tag) (key n t) s.world.queue.next_seq k s.timers p) [
                | inl (same, own) ↦ (
                  unnumbered k own v,
                  (
                    new_event time_ms node (fire_timer tag) q,
                    sym own,
                    (
                      inl (In-push_new (new_event time_ms node (fire_timer tag) q) q.heap),
                      ap (λ (x : NodeId × Text). x.0) same,
                      ap (λ (x : NodeId × Text). fire_timer x.1) same,
                    ),
                  ),
                )
                | inr (differ, old) ↦
                    let (live, (f, seq, (there, o, a))) = v.pending n t k old in
                    (
                      live,
                      (
                        f,
                        seq,
                        (
                          inl (elim there [
                            | inl i ↦ g.stays f i
                            | inr h ↦ absurd (differ (one_key f n t (only f h) o a))
                          ]),
                          o,
                          a,
                        ),
                      ),
                    )
              ];
          manned = λ n t k p.
              elim (filed_under (key node tag) (key n t) s.world.queue.next_seq k s.timers p) [
                | inl (same, own) ↦ rw (ap (λ (x : NodeId × Text). x.0) (sym same)) (known, up)
                | inr (differ, old) ↦ v.manned n t k old
              ];
          fallen = λ n d.
              let (known, up, (f, (there, o, a))) = v.fallen n d in
              (known, up, (f, (inl (kept f there (ap is_timer a)), o, a)));
          frozen = λ n until_ms p.
              let (known, (f, at, (there, o, a))) = v.frozen n until_ms p in
              (known, (f, at, (inl (kept f there (ap is_timer a)), o, a)));
        }

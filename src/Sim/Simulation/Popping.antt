-- ===== src/Sim/Simulation/Popping.antt =====
-- What is left to do when an event has been popped.
use cassette.Base.{
  ℕ, ◌≡◌, refl, sym, ap, ◌∙◌, ◌≢◌, ◌⊎◌, inl, inr, true, false, some, arith, Bool-cases, In,
  ℕ_discrete, ℤ_discrete, Dict, lookup, member, Text,
}
use cassette.Kv.Version.{NodeId}
use cassette.Sim.Env.{Nodes}
use cassette.Sim.Events.{
  Action, Event, comes_first, deliver_message, fire_timer, crash_node, restart_node, pause_node,
  resume_node, fault_tick, start_partition, heal_partition,
}
use cassette.Sim.Rng.{Source}
use cassette.Sim.Scheduler.{Scheduler}
use cassette.Sim.Scheduler.Pop.{Delivers}
use cassette.Sim.Simulation.{key_discrete, Simulation, with_queue}
use cassette.Sim.Simulation.Valid.{is_timer, IsLive, Backed, IsSound, IsWell, IsValid}

module _ {M : Type 0} where
  not_both : (e f : Event M) → comes_first e f ≡ true → comes_first f e ≡ true → ⊥
  unfolding comes_first
  not_both e f h k = ground arith

  -- An event that is no timer is live.
  live_of_action :
      (timers : Dict (NodeId × Text) ℕ) (q : Scheduler M) (f : Event M)
      → IsSound timers q
      → In f q.heap
      → is_timer f.action ≡ false
      → IsLive q f.seq
  live_of_action timers q f v i n = elim (Bool-cases (member ℕ_discrete f.seq q.cancelled)) [
    | inl c ↦ absurd (ground (arith, v.spent f i c))
    | inr l ↦ l
  ]

  -- Where the events behind a popped or a queued event are.
  module _ (timers : Dict (NodeId × Text) ℕ) (q q' : Scheduler M) (e : Event M)
      (d : Delivers q e q') (v : IsSound timers q) where
    pub left : (f : Event M) → In f q.heap → is_timer f.action ≡ false → (In f q'.heap) ⊎ (f ≡ e)
    left f i n = elim (d.first f i (live_of_action timers q f v i n)) [
      | inl same ↦ inr same
      | inr (there, first) ↦ inl there
    ]

    irreflexive : (f g : Event M) → f ≡ e → g ≡ e → comes_first g f ≡ true → ⊥
    irreflexive f g same own b =
        let b' : comes_first g g ≡ true = ap (comes_first g) (own ∙ sym same) ∙ b in
        not_both g g b' b'

    -- What comes behind the popped event, or behind one that is still queued, is still queued.
    left_behind :
        (f g : Event M)
        → (g ≡ e) ⊎ In g q'.heap
        → is_timer g.action ≡ false
        → In f q.heap
        → is_timer f.action ≡ false
        → comes_first g f ≡ true
        → In f q'.heap
    left_behind f g j m i n b = elim (left f i n) [
      | inl there ↦ there
      | inr same ↦ absurd (elim j [
        | inl own ↦ irreflexive f g same own b
        | inr kept ↦
            elim (d.first g (d.kept g kept) (live_of_action timers q g v (d.kept g kept) m)) [
              | inl own ↦ irreflexive f g same own b
              | inr (there, first) ↦ not_both e g first (ap (comes_first g) (sym same) ∙ b)
            ]
      ])
    ]

    left_Backed :
        (g : Event M) (action : Action M)
        → g.action ≡ action
        → (g ≡ e) ⊎ In g q'.heap
        → (IsLive q' g.seq → IsLive q g.seq)
        → Backed timers q g action
        → Backed timers q' g action
    left_Backed g (deliver_message sender msg msg_id) p j l b = tt
    left_Backed g (fire_timer tag) p j l b = λ live. b (l live)
    left_Backed g crash_node p j l b =
        let (f, (i, n, a, c)) = b in
        (f, (left_behind f g j (ap is_timer p) i (ap is_timer a) c, n, a, c))
    left_Backed g restart_node p j l b = tt
    left_Backed g (pause_node until_ms) p j l b =
        let (f, at, (i, n, a, c)) = b in
        (f, at, (left_behind f g j (ap is_timer p) i (ap is_timer a) c, n, a, c))
    left_Backed g resume_node p j l b = tt
    left_Backed g fault_tick p j l b = tt
    left_Backed g (start_partition groups) p j l b = b
    left_Backed g heal_partition p j l b = tt

    popped-IsSound : IsSound timers q'
    popped-IsSound = record {
      queue = d.valid;
      started = rw d.on_time (omega (arith, v.started, v.queue.ahead e d.queued));
      counted = λ seq c. elim (Bool-cases (member ℕ_discrete seq q.cancelled)) [
        | inl old ↦ rw d.numbering (v.counted seq old)
        | inr live ↦ absurd (ground (arith, d.forgets seq live))
      ];
      spent = λ f i c. v.spent f (d.kept f i) (sym (d.marked f i) ∙ c);
      backed = λ f i.
          left_Backed f f.action refl (inr i) (λ l. sym (d.marked f i) ∙ l)
            (v.backed f (d.kept f i));
    }

    -- The popped event still stands on what it stood on.
    pub popped-Backed : Backed timers q' e e.action
    popped-Backed = left_Backed e e.action refl (inl refl) (λ _. d.live) (v.backed e d.queued)

module _ {R : Source} {M : Type 0} {N : Nodes M} {A : Type 0} where
  -- With the popped event in hand, the engine is well-formed.
  pub popped-IsWell :
      (s : Simulation R N A) (q : Scheduler M) (e : Event M)
      → Delivers s.world.queue e q
      → IsValid s
      → IsWell (λ f. f ≡ e) (with_queue q s)
  popped-IsWell s q e d v = record {
    sound = popped-IsSound s.timers s.world.queue q e d v.sound;
    pending = λ node tag seq p.
        let (live, (f, same, (there, n, a))) = v.pending node tag seq p in
        (
          d.forgets seq live,
          (
            f,
            same,
            (
              elim there [
                | inl i ↦
                    elim (d.first f i
                      (ap (λ k. member ℕ_discrete k s.world.queue.cancelled) same ∙ live)) [
                        | inl own ↦ inr own
                        | inr (kept, first) ↦ inl kept
                      ]
                | inr none_held ↦ absurd none_held
              ],
              n,
              a,
            ),
          ),
        );
    manned = v.manned;
    fallen = λ node down.
        let (known, up, (f, (there, n, a))) = v.fallen node down in
        (known, up, (f, (remains f (ap is_timer a) there, n, a)));
    frozen = λ node until_ms p.
        let (known, (f, at, (there, n, a))) = v.frozen node until_ms p in
        (known, (f, at, (remains f (ap is_timer a) there, n, a)));
  }
    where
      remains :
          (f : Event M)
          → is_timer f.action ≡ false
          → (In f s.world.queue.heap) ⊎ ⊥
          → (In f q.heap) ⊎ (f ≡ e)
      remains f t (inl i) = left s.timers s.world.queue q e d v.sound f i t
      remains f t (inr h) = absurd h

  -- When the event in hand is no pending timer, no restart of a node that is down and no
  -- resumption at a deadline, nothing is owed to it.
  pub let_go-IsValid :
      (s : Simulation R N A) (e : Event M)
      → IsWell (λ f. f ≡ e) s
      → ((node : NodeId) (tag : Text) → lookup key_discrete (node, tag) s.timers ≢ some e.seq)
      → (e.action ≡ restart_node → member ℤ_discrete e.node s.down ≡ false)
      → (e.action ≡ resume_node → lookup ℤ_discrete e.node s.paused_until ≢ some e.time_ms)
      → IsValid s
  let_go-IsValid s e v no_timer no_restart no_resume = record {
    sound = v.sound;
    pending = λ node tag seq p.
        let (live, (f, same, (there, n, a))) = v.pending node tag seq p in
        (
          live,
          (
            f,
            same,
            (
              elim there [
                | inl i ↦ inl i
                | inr own ↦
                    absurd
                      (no_timer node tag (p ∙ ap some (sym same ∙ ap (λ (x : Event M). x.seq) own)))
              ],
              n,
              a,
            ),
          ),
        );
    manned = v.manned;
    fallen = λ node down.
        let (known, up, (f, (there, n, a))) = v.fallen node down in
        (
          known,
          up,
          (
            f,
            (
              elim there [
                | inl i ↦ inl i
                | inr own ↦
                    let up' = no_restart (ap (λ (x : Event M). x.action) (sym own) ∙ a) in
                    let whose : e.node ≡ node = ap (λ (x : Event M). x.node) (sym own) ∙ n in
                    absurd (ground (arith, ap (λ k. member ℤ_discrete k s.down) whose))
              ],
              n,
              a,
            ),
          ),
        );
    frozen = λ node until_ms p.
        let (known, (f, at, (there, n, a))) = v.frozen node until_ms p in
        (
          known,
          (
            f,
            at,
            (
              elim there [
                | inl i ↦ inl i
                | inr own ↦
                    let whose : e.node ≡ node = ap (λ (x : Event M). x.node) (sym own) ∙ n in
                    let when : until_ms ≡ e.time_ms =
                      sym at ∙ ap (λ (x : Event M). x.time_ms) own in
                    absurd (
                      no_resume (ap (λ (x : Event M). x.action) (sym own) ∙ a)
                        (ap (λ k. lookup ℤ_discrete k s.paused_until) whose ∙ (p ∙ ap some when)))
              ],
              n,
              a,
            ),
          ),
        );
  }

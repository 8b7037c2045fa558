-- ===== src/Sim/Simulation/Stopping.antt =====
-- A crash drops all timers of its node.
use cassette.Base.{
  ℕ, ◌≡◌, refl, sym, ap, subst, ◌∙◌, ◌≢◌, ◌⊎◌, inl, inr, true, false, List, [], ◌∷◌, arith, holds,
  is_some, Bool-cases, Option-cases, if-elim, In, ℤ, ℤ_discrete, Dict, lookup, Text, leb_text,
}
use mathlib.Core.Path.{fun_ext}
use cassette.Kv.Version.{NodeId}
use cassette.Sim.Env.{Nodes}
use cassette.Sim.Rng.{Source}
use cassette.Sim.Scheduler
use cassette.Sim.Simulation.{key_discrete, Simulation, insert_tag, tags_of, drop_timer, drop_timers}
use cassette.Sim.Simulation.Laws.{Armed, silence}
use cassette.Sim.Simulation.Timers.{
  key, armed, disarm, IsKept, IsKept-refl, IsKept-trans, drop_timer_lem,
}
use cassette.Sim.Simulation.Valid.{IsValid}

In-insert_tag_new : (tag : Text) (tags : List Text) → In tag (insert_tag tag tags)
unfolding insert_tag
In-insert_tag_new tag [] = inl refl
In-insert_tag_new tag (t ∷ ts) =
    if-elim (In tag) (leb_text tag t) (tag ∷ t ∷ ts) (t ∷ insert_tag tag ts) (λ _. inl refl)
      (λ _. inr (In-insert_tag_new tag ts))

In-insert_tag : (tag t : Text) (tags : List Text) → In t tags → In t (insert_tag tag tags)
unfolding insert_tag
In-insert_tag tag t [] i = absurd i
In-insert_tag tag t (u ∷ us) i =
    if-elim (In t) (leb_text tag u) (tag ∷ u ∷ us) (u ∷ insert_tag tag us) (λ _. inr i)
      (λ _. elim i [ inl p ↦ inl p | inr j ↦ inr (In-insert_tag tag t us j) ])

-- Every timer of the node is listed.
In-tags_of :
    (node : NodeId) (tag : Text) (timers : Dict (NodeId × Text) ℕ)
    → is_some (lookup key_discrete (key node tag) timers) ≡ true
    → In tag (tags_of node timers)
unfolding tags_of lookup
In-tags_of node tag [] p = absurd (ground arith)
In-tags_of node tag (((n, t), seq) ∷ d) p =
    let rest = In-tags_of node tag d in
    if-elim (In tag) (holds (ℤ_discrete n node)) (insert_tag t (tags_of node d)) (tags_of node d)
      (λ mine. elim (key_discrete (key n t) (key node tag)) [
        | yes same ↦
            subst (λ u. In tag (insert_tag u (tags_of node d)))
              (ap (λ (x : NodeId × Text). x.1) (sym same)) (In-insert_tag_new tag (tags_of node d))
        | no differ ↦ In-insert_tag t tag (tags_of node d) (rest (ground arith))
      ])
      (λ other. elim (key_discrete (key n t) (key node tag)) [
        | yes same ↦ absurd (ground (arith, ap (λ (x : NodeId × Text). x.0) same))
        | no differ ↦ rest (ground arith)
      ])

-- The armed timers when some tags of a node are dropped.
abbrev after_drops : NodeId → List Text → Armed → Armed
after_drops node [] on = on
after_drops node (tag ∷ tags) on = after_drops node tags (disarm node tag on)

after_drops_other :
    (node n : NodeId) (t : Text) (tags : List Text) (on : Armed)
    → node ≢ n
    → after_drops node tags on n t ≡ on n t
after_drops_other node n t [] on other = refl
after_drops_other node n t (tag ∷ tags) on other =
    after_drops_other node n t tags (disarm node tag on) other
    ∙ (elim (key_discrete (key node tag) (key n t)) [
      | yes same ↦ absurd (other (ap (λ (x : NodeId × Text). x.0) same))
      | no differ ↦ ground arith
    ])

after_drops_mine :
    (node : NodeId) (t : Text) (tags : List Text) (on : Armed)
    → (on node t ≡ false) ⊎ In t tags
    → after_drops node tags on node t ≡ false
after_drops_mine node t [] on (inl off) = off
after_drops_mine node t [] on (inr i) = absurd i
after_drops_mine node t (tag ∷ tags) on (inl off) =
    after_drops_mine node t tags (disarm node tag on) (inl (ground arith))
after_drops_mine node t (tag ∷ tags) on (inr (inl p)) =
    after_drops_mine node t tags (disarm node tag on) (
      inl (elim (key_discrete (key node tag) (key node t)) [
        | yes same ↦ ground arith
        | no differ ↦ absurd (differ (ap (key node) (sym p)))
      ]))
after_drops_mine node t (tag ∷ tags) on (inr (inr i)) =
    after_drops_mine node t tags (disarm node tag on) (inr i)

module _ {R : Source} {M : Type 0} {N : Nodes M} {A : Type 0} where
  drop_timers_lem :
      (node : NodeId) (tags : List Text) (s : Simulation R N A)
      → IsValid s
      → IsValid (drop_timers node tags s)
        × IsKept s (drop_timers node tags s)
        × (armed (drop_timers node tags s) ≡ after_drops node tags (armed s))
  unfolding drop_timers
  drop_timers_lem node [] s v = (v, IsKept-refl s, refl)
  drop_timers_lem node (tag ∷ tags) s v =
      let (v', kept, off) = drop_timer_lem node tag s v in
      let (v'', kept', off') = drop_timers_lem node tags (drop_timer node tag s) v' in
      (v'', IsKept-trans _ _ _ kept kept', off' ∙ ap (after_drops node tags) off)

  drop_timer-heap :
      (node : NodeId) (tag : Text) (s : Simulation R N A)
      → (drop_timer node tag s).world.queue.heap ≡ s.world.queue.heap
  unfolding drop_timer Scheduler.cancel
  drop_timer-heap node tag s = elim (Option-cases (lookup key_discrete (key node tag) s.timers)) [
    | inl gone ↦ rw (gone, drop_timer) refl
    | inr (seq, there) ↦ rw (there, drop_timer) refl
  ]

  pub drop_timers-heap :
      (node : NodeId) (tags : List Text) (s : Simulation R N A)
      → (drop_timers node tags s).world.queue.heap ≡ s.world.queue.heap
  unfolding drop_timers
  drop_timers-heap node [] s = refl
  drop_timers-heap node (tag ∷ tags) s =
      drop_timers-heap node tags (drop_timer node tag s) ∙ drop_timer-heap node tag s

  -- Who is down or paused does not matter to the timers.
  drop_timer-away :
      (node : NodeId) (tag : Text) (s : Simulation R N A) (down : List NodeId)
      (paused_until : Dict NodeId ℤ)
      → drop_timer node tag (record s { down = down; paused_until = paused_until })
        ≡ record (drop_timer node tag s) { down = down; paused_until = paused_until }
  unfolding drop_timer
  drop_timer-away node tag s down paused_until =
      elim (Option-cases (lookup key_discrete (key node tag) s.timers)) [
        | inl gone ↦ rw (gone, drop_timer) refl
        | inr (seq, there) ↦ rw (there, drop_timer) refl
      ]

  pub drop_timers-away :
      (node : NodeId) (tags : List Text) (s : Simulation R N A) (down : List NodeId)
      (paused_until : Dict NodeId ℤ)
      → drop_timers node tags (record s { down = down; paused_until = paused_until })
        ≡ record (drop_timers node tags s) { down = down; paused_until = paused_until }
  unfolding drop_timers
  drop_timers-away node [] s down paused_until = refl
  drop_timers-away node (tag ∷ tags) s down paused_until =
      ap (drop_timers node tags) (drop_timer-away node tag s down paused_until)
      ∙ drop_timers-away node tags (drop_timer node tag s) down paused_until

  -- When all tags of a node are dropped, it has no timer, and the others have theirs.
  pub silenced :
      (node : NodeId) (s : Simulation R N A)
      → IsValid s
      → let later = drop_timers node (tags_of node s.timers) s in
        IsValid later × IsKept s later × (armed later ≡ silence node (armed s))
  silenced node s v =
      let tags = tags_of node s.timers in
      let (v', kept, off) = drop_timers_lem node tags s v in
      (
        v',
        kept,
        off
            ∙ fun_ext λ n. fun_ext λ t. elim (ℤ_discrete node n) [
              | yes same ↦
                  subst (λ m. after_drops node tags (armed s) m t ≡ silence node (armed s) m t) same
                    (after_drops_mine node t tags (armed s) (elim (Bool-cases (armed s node t)) [
                      | inl on ↦ inr (In-tags_of node t s.timers on)
                      | inr off ↦ inl off
                    ])
                      ∙ ground arith)
              | no differ ↦ after_drops_other node n t tags (armed s) differ ∙ ground arith
            ],
      )

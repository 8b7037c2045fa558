-- ===== src/Sim/Injector/Replaying.antt =====
-- A tick of the replay on a well-formed engine.
use cassette.Base.{
  ◌≡◌, refl, sym, ap, ◌∙◌, Bool, true, false, Option, none, some, List, [], ◌∷◌, ◌++◌, arith, holds,
  if-elim, keep, All, ℤ, pos, ℤ_discrete, ◌≤ℤ◌, ◌<ℤ◌, Dict, lookup, insert, lookup-insert, member,
  text_discrete,
}
use cassette.Kv.Version.{NodeId}
use cassette.Sim.Env.{Nodes}
use cassette.Sim.Faults.{FaultConfig, InjectedFault}
use cassette.Sim.Injector.{
  partition_kind, crash_kind, pause_kind, without, by_tick_from, by_tick, or_nothing, appended,
  apply_to, apply, apply_all, replay_tick,
}
use cassette.Sim.Injector.Ticking.{arm_tick_lem}
use cassette.Sim.Rng.{Source}
use cassette.Sim.Simulation.{Simulation, clock_now, schedule_partition}
use cassette.Sim.Simulation.Injury.{
  IsScheduled, schedule_crash_lem, schedule_pause_lem, schedule_partition_lem, IsTicked-trans,
  IsTicked-refl,
}
use cassette.Sim.Simulation.Laws.{IsTicked, Ticks}
use cassette.Sim.Simulation.Valid.{IsValid}

abbrev at_time : ℤ → InjectedFault → Bool
at_time t fault = holds (ℤ_discrete fault.at_ms t)

append_assoc : {A : Type 0} (xs ys zs : List A) → (xs ++ ys) ++ zs ≡ xs ++ (ys ++ zs)
append_assoc [] ys zs = refl
append_assoc (x ∷ xs) ys zs = ap (◌∷◌ x) (append_assoc xs ys zs)

append_nil : {A : Type 0} (xs : List A) → xs ++ [] ≡ xs
append_nil [] = refl
append_nil (x ∷ xs) = ap (◌∷◌ x) (append_nil xs)

or_nothing-appended :
    (fault : InjectedFault) (o : Option (List InjectedFault))
    → appended fault o ≡ or_nothing o ++ fault ∷ []
or_nothing-appended fault none = refl
or_nothing-appended fault (some faults) = refl

by_tick_from-lookup :
    (t : ℤ) (d : Dict ℤ (List InjectedFault)) (faults : List InjectedFault)
    → or_nothing (lookup ℤ_discrete t (by_tick_from d faults))
      ≡ or_nothing (lookup ℤ_discrete t d) ++ keep (at_time t) faults
unfolding by_tick_from
by_tick_from-lookup t d [] = sym (append_nil (or_nothing (lookup ℤ_discrete t d)))
by_tick_from-lookup t d (fault ∷ faults) =
    let here = appended fault (lookup ℤ_discrete fault.at_ms d) in
    by_tick_from-lookup t (insert ℤ_discrete fault.at_ms here d) faults
    ∙ (elim (ℤ_discrete fault.at_ms t) [
      | yes same ↦
          let p : lookup ℤ_discrete t (insert ℤ_discrete fault.at_ms here d) ≡ some here =
            ground (arith, lookup-insert ℤ_discrete fault.at_ms t here d) in
          let q : at_time t fault ≡ true = ground arith in
          let before = or_nothing (lookup ℤ_discrete t d) in
          let added : here ≡ before ++ fault ∷ [] =
            or_nothing-appended fault (lookup ℤ_discrete fault.at_ms d)
            ∙ ap (λ k. or_nothing (lookup ℤ_discrete k d) ++ fault ∷ []) same in
          rw (p, q)
            (ap (λ xs. xs ++ keep (at_time t) faults) added
              ∙ append_assoc before (fault ∷ []) (keep (at_time t) faults))
      | no differ ↦
          let p : lookup ℤ_discrete t (insert ℤ_discrete fault.at_ms here d)
              ≡ lookup ℤ_discrete t d =
            ground (arith, lookup-insert ℤ_discrete fault.at_ms t here d) in
          let q : at_time t fault ≡ false = ground arith in rw (p, q) refl
    ])

-- The replay finds for each instant just the faults of the schedule that were decided then, in
-- their order.
pub by_tick-lookup :
    (t : ℤ) (schedule : List InjectedFault)
    → or_nothing (lookup ℤ_discrete t (by_tick schedule))
      ≡ keep (λ fault. holds (ℤ_discrete fault.at_ms t)) schedule
unfolding by_tick lookup
by_tick-lookup t schedule = by_tick_from-lookup t [] schedule

-- What is recorded lasts.
abbrev pub Lasts : InjectedFault → Type 0
Lasts fault = pos 0 ≤ℤ fault.duration_ms

abbrev pub AllLast : Dict ℤ (List InjectedFault) → Type 0
AllLast d = (t : ℤ) → All Lasts (or_nothing (lookup ℤ_discrete t d))

module _ {R : Source} {M : Type 0} {N : Nodes M} {A : Type 0} (Ready : A → Type 0)
    (replicas : List NodeId) where
  abbrev Ticked : Simulation R N A → Option (Simulation R N A) → Type 0
  Ticked s out =
      (later : Simulation R N A) × (out ≡ some later)
      × IsTicked Ready s later
      × (later.adversary ≡ s.adversary)

  forget_network :
      (s : Simulation R N A) (out : Option (Simulation R N A))
      → IsScheduled Ready s out
      → Ticked s out
  forget_network s out (later, e, t, same, net) = (later, e, t, same)

  untouched : (s : Simulation R N A) → IsValid s → Ready s.adversary → Ticked s (some s)
  untouched s v ready = (s, refl, IsTicked-refl Ready s v ready, refl)

  apply_to_lem :
      (fault : InjectedFault) (target : NodeId) (targets : List NodeId) (s : Simulation R N A)
      → Lasts fault
      → IsValid s
      → Ready s.adversary
      → Ticked s (apply_to replicas fault target targets s)
  unfolding apply_to
  apply_to_lem fault target targets s h v ready =
      if-elim (Ticked s) (holds (text_discrete fault.kind partition_kind)) _ _
        (λ _. cut_off (without targets replicas))
        (λ _.
          if-elim (Ticked s) (holds (text_discrete fault.kind crash_kind)) _ _
            (λ _.
              forget_network s _ (schedule_crash_lem Ready target fault.duration_ms s h v ready))
            (λ _.
              if-elim (Ticked s) (holds (text_discrete fault.kind pause_kind)) _ _
                (λ _.
                  forget_network s _
                    (schedule_pause_lem Ready target fault.duration_ms s h v ready))
                (λ _. untouched s v ready)))
    where
      cut_off :
          (other : List NodeId)
          → Ticked s (elim other [
            | [] ↦ some s
            | n ∷ ns ↦ schedule_partition (targets ∷ (n ∷ ns) ∷ []) fault.duration_ms none s
          ])
      cut_off [] = untouched s v ready
      cut_off (n ∷ ns) = forget_network s _ (
          schedule_partition_lem Ready (targets ∷ (n ∷ ns) ∷ []) fault.duration_ms s (omega arith) h
            v ready)

  apply_lem :
      (fault : InjectedFault) (s : Simulation R N A)
      → Lasts fault
      → IsValid s
      → Ready s.adversary
      → Ticked s (apply replicas fault s)
  unfolding apply
  apply_lem fault s h v ready = aimed (keep (λ n. member ℤ_discrete n replicas) fault.targets)
    where
      aimed :
          (targets : List NodeId)
          → Ticked s (elim targets [ [] ↦ some s | n ∷ ns ↦ apply_to replicas fault n (n ∷ ns) s ])
      aimed [] = untouched s v ready
      aimed (n ∷ ns) = apply_to_lem fault n (n ∷ ns) s h v ready

  apply_all_lem :
      (faults : List InjectedFault) (s : Simulation R N A)
      → All Lasts faults
      → IsValid s
      → Ready s.adversary
      → Ticked s (apply_all replicas faults s)
  unfolding apply_all
  apply_all_lem [] s h v ready = untouched s v ready
  apply_all_lem (fault ∷ faults) s h v ready =
      let (mid, e, t, same) = apply_lem fault s h.0 v ready in
      let (later, f, u, same') = apply_all_lem faults mid h.1 t.valid t.ready in
      (later, rw (e, apply_all) f, IsTicked-trans Ready s mid later t u, same' ∙ same)

-- A tick of the replay of faults that last does not raise: the engine stays well-formed, and the
-- nodes and their timers are left alone.
pub replay_tick-IsTicked :
    {R : Source} {M : Type 0} (config : FaultConfig R.Float) {N : Nodes M} (replicas : List NodeId)
    → pos 0 <ℤ config.tick_ms
    → Ticks {R = R} {N = N} AllLast (some (replay_tick config replicas))
unfolding replay_tick
replay_tick-IsTicked config replicas h s v ready =
    let (mid, e, t, same) =
      apply_all_lem AllLast replicas (or_nothing (lookup ℤ_discrete (clock_now s) s.adversary)) s
        (ready (clock_now s)) v ready in
    let (later, f, u, same') = arm_tick_lem config AllLast mid h t.valid t.ready in
    (later, rw (e, replay_tick) f, IsTicked-trans AllLast s mid later t u)

-- ===== src/Sim/Simulation/Running.antt =====
-- The loop of `run`: why it ends, and what holds then.
use cassette.Base.{
  ℕ, zero, suc, ◌≤◌, ◌<◌, ◌≡◌, refl, sym, ap, subst, ◌∙◌, ◌⊎◌, inl, inr, Bool, true, false, Option,
  none, some, arith, Bool-cases, ℤ, pos, ◌≤ℤ◌,
}
use cassette.Sim.Env.{Nodes}
use cassette.Sim.Faults.{FaultConfig}
use cassette.Sim.Rng.{Source}
use cassette.Sim.Rng.Draws.{IsUnit}
use cassette.Sim.Scheduler.{peek_time}
use cassette.Sim.Scheduler.Pop.{pop-peek_time}
use cassette.Sim.Scheduler.Peek.{peek_time-peek_time, peek_time-clock}
use cassette.Sim.Simulation.{Simulation, clock_now}
use cassette.Sim.Simulation.Laws.{Armed, Laws, IsRunning, Ticks}
use cassette.Sim.Simulation.Progress.{step_lem}
use cassette.Sim.Simulation.Steps.{step, past_horizon, run}
use cassette.Sim.Simulation.Timers.{armed}

-- The horizon is not passed.
abbrev pub IsWithin : Option ℤ → ℤ → Type 0
IsWithin none now = Unit
IsWithin (some until_ms) now = now ≤ℤ until_ms

module _ {R : Source} {M : Type 0} {N : Nodes M} {A : Type 0} (config : FaultConfig R.Float)
    (tick : Option (Simulation R N A → Option (Simulation R N A))) where
  -- The look at the queue changes nothing that a step does.
  step-past_horizon :
      (until_ms : Option ℤ) (s : Simulation R N A)
      → step config tick (past_horizon config tick until_ms s).1 ≡ step config tick s
  unfolding step past_horizon
  step-past_horizon none s = refl
  step-past_horizon (some until_ms) s = rw (pop-peek_time s.world.queue, step) refl

  -- The loop ends because it is told to, because the next event is past the horizon, or because
  -- there is none.
  abbrev pub HasReason : Option ℤ → (Simulation R N A → Bool) → Simulation R N A → Type 0
  HasReason until_ms stop_when later =
      (stop_when later ≡ true)
      ⊎ ((past_horizon config tick until_ms later).0 ≡ true)
      ⊎ ((peek_time later.world.queue).0 ≡ none)

  module _ (Inv : Armed → N.State → Type 0) (Ready : A → Type 0) where
    pub record HasRun (n : ℕ) (until_ms : Option ℤ) (stop_when : Simulation R N A → Bool)
        (s : Simulation R N A) (delivered : ℕ) (later : Simulation R N A) : Type 0 where
      pub inv : Inv (armed later) later.nodes
      pub ready : Ready later.adversary
      pub node_ids : later.node_ids ≡ s.node_ids
      pub forward : clock_now s ≤ℤ clock_now later
      pub within : IsWithin until_ms (clock_now s) → IsWithin until_ms (clock_now later)
      pub bounded : delivered ≤ n
      pub reason : delivered < n → HasReason until_ms stop_when later

    looked_lem :
        (until_ms : Option ℤ) (s : Simulation R N A)
        → let looked = (past_horizon config tick until_ms s).1 in
          (looked.nodes ≡ s.nodes)
          × (armed looked ≡ armed s)
          × (looked.node_ids ≡ s.node_ids)
          × (looked.adversary ≡ s.adversary)
          × (clock_now looked ≡ clock_now s)
          × ((past_horizon config tick until_ms looked).0 ≡ (past_horizon config tick until_ms s).0)
    unfolding past_horizon
    looked_lem none s = (refl, refl, refl, refl, refl, refl)
    looked_lem (some until_ms) s = (
      refl,
      refl,
      refl,
      refl,
      ap (λ c. c.now) (peek_time-clock s.world.queue),
      rw (peek_time-peek_time s.world.queue, past_horizon) refl,
    )

    on_horizon :
        (until_ms : Option ℤ) (s : Simulation R N A) (now : ℤ)
        → (past_horizon config tick until_ms s).0 ≡ false
        → (peek_time s.world.queue).0 ≡ some now
        → IsWithin until_ms now
    unfolding past_horizon
    on_horizon none s now p q = tt
    on_horizon (some until_ms) s now p q = let h = rw (q, past_horizon) at p in ground arith

    module _ (unit : IsUnit R)
        (window : (pos 0 ≤ℤ config.latency_ms.0) × (config.latency_ms.0 ≤ℤ config.latency_ms.1))
        (laws : Laws N Inv) (ticks : Ticks Ready tick) where
      -- Under the same laws `run` on a well-formed engine returns within its bound on events, with
      -- the invariants kept, the time not earlier, and not past the horizon if it was not before.
      -- When it delivered less than the bound it had a reason: the condition to stop held, the
      -- next event is past the horizon, or nothing was left.
      pub run_lem :
          (n : ℕ) (until_ms : Option ℤ) (stop_when : Simulation R N A → Bool) (s : Simulation R N A)
          → IsRunning Inv Ready s
          → (delivered : ℕ) × (later : Simulation R N A) × (run config tick n until_ms stop_when s
              ≡ some (delivered, later))
            × HasRun n until_ms stop_when s delivered later
      unfolding run
      run_lem zero until_ms stop_when s r = (
        0,
        s,
        refl,
        record {
          inv = r.inv;
          ready = r.ready;
          node_ids = refl;
          forward = omega arith;
          within = λ h. h;
          bounded = omega arith;
          reason = λ h. absurd (omega arith);
        },
      )
      run_lem (suc n) until_ms stop_when s r =
          let looked = (past_horizon config tick until_ms s).1 in
          let (nodes, timers, ids, adversary, clock, again) = looked_lem until_ms s in
          elim (Bool-cases (past_horizon config tick until_ms s).0) [
            | inl stop ↦ (
              0,
              looked,
              rw (stop, run) refl,
              record {
                inv = subst (λ on. Inv on looked.nodes) (sym timers) (rw nodes r.inv);
                ready = rw adversary r.ready;
                node_ids = ids;
                forward = rw clock (omega arith);
                within = λ h. rw clock h;
                bounded = omega arith;
                reason = λ _. inr (inl (again ∙ stop));
              },
            )
            | inr go ↦
                let (more, next, e, d) =
                  step_lem Inv Ready unit config window laws tick ticks s r in
                let e' : step config tick looked ≡ some (more, next) =
                  step-past_horizon until_ms s ∙ e in
                elim (Bool-cases more) [
                  | inr dry ↦ (
                    0,
                    next,
                    rw (go, e', dry, run) refl,
                    record {
                      inv = d.running.inv;
                      ready = d.running.ready;
                      node_ids = d.node_ids;
                      forward = d.forward;
                      within = λ h. rw (d.dry dry).1 h;
                      bounded = omega arith;
                      reason = λ _. inr (inr (d.dry dry).0);
                    },
                  )
                  | inl on ↦ elim (Bool-cases (stop_when next)) [
                    | inl told ↦ (
                      1,
                      next,
                      rw (go, e', on, told, run) refl,
                      record {
                        inv = d.running.inv;
                        ready = d.running.ready;
                        node_ids = d.node_ids;
                        forward = d.forward;
                        within = λ _. on_horizon until_ms s (clock_now next) go (d.timely on);
                        bounded = omega arith;
                        reason = λ _. inl told;
                      },
                    )
                    | inr further ↦
                        let (delivered, later, f, h) =
                          run_lem n until_ms stop_when next d.running in
                        (
                          suc delivered,
                          later,
                          rw (go, e', on, further, run) (rw f refl),
                          record {
                            inv = h.inv;
                            ready = h.ready;
                            node_ids = h.node_ids ∙ d.node_ids;
                            forward = omega (arith, d.forward, h.forward);
                            within = λ _.
                                h.within (on_horizon until_ms s (clock_now next) go (d.timely on));
                            bounded = omega (arith, h.bounded);
                            reason = λ less. h.reason (omega (arith, less));
                          },
                        )
                  ]
                ]
          ]

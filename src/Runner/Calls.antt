-- ===== src/Runner/Calls.antt =====
-- What calls do to the timers that are armed.
use cassette.Base.{
  ◌≡◌, refl, sym, ap, ◌∙◌, ◌≢◌, ◌⊎◌, inl, inr, ite, true, false, List, [], ◌∷◌, map, arith, All, ℤ,
  pos, ◌≤ℤ◌, Text, text_discrete,
}
use cassette.Kv.Version.{NodeId}
use cassette.Kv.Messages.{Message}
use cassette.Kv.Round.{timer_tag}
use cassette.Kv.Client.{next_timer}
use cassette.Kv.Client.Steady.{next_armed, IsPatientCall}
use cassette.Kv.Replica
use cassette.Kv.Replica.Timely.{IsTimely}
use cassette.Kv.Replica.{Replica}
use cassette.Kv.Replica.Timed.{is_open, IsArmed, IsTimed, keeps, closes}
use cassette.Runner.{call}
use cassette.Sim.Simulation.{key_discrete}
use cassette.Sim.Env.{Effect, send, set_timer, cancel_timer}
use cassette.Sim.Simulation.Calls.{after_call, after_calls, IsPatient}
use cassette.Sim.Simulation.Laws.{Armed}
use cassette.Sim.Simulation.Timers.{key, disarm, rearm}

key_other : (n m : NodeId) (tag t : Text) → n ≢ m → key n tag ≢ key m t
key_other n m tag t other same = other (ap (λ (x : NodeId × Text). x.0) same)

after_call-other :
    (n m : NodeId) (e : Effect Message) (on : Armed) (t : Text)
    → n ≢ m
    → after_call n e on m t ≡ on m t
after_call-other n m (send to msg) on t other = refl
after_call-other n m (set_timer delay_ms tag) on t other =
    let differ = key_other n m tag t other in ground arith
after_call-other n m (cancel_timer tag) on t other =
    let differ = key_other n m tag t other in ground arith

-- The calls of a node leave the timers of the others.
pub after_calls-other :
    (n m : NodeId) (es : List (Effect Message)) (on : Armed) (t : Text)
    → n ≢ m
    → after_calls n es on m t ≡ on m t
after_calls-other n m [] on t other = refl
after_calls-other n m (e ∷ es) on t other =
    after_calls-other n m es (after_call n e on) t other ∙ after_call-other n m e on t other

-- A timer that is armed behind the calls of a replica was armed before, or is one of an open round.
after_calls-armed :
    (r : Replica) (n : NodeId) (es : List Replica.Effect) (on : Armed) (t : Text)
    → All (IsArmed r) es
    → after_calls n (map call es) on n t ≡ true
    → (on n t ≡ true) ⊎ ((req : ℤ) × (t ≡ timer_tag req) × (is_open r req ≡ true))
after_calls-armed r n [] on t h p = inl p
after_calls-armed r n (e ∷ es) on t h p =
    elim (after_calls-armed r n es (after_call n (call e) on) t h.1 p) [
      | inr new ↦ inr new
      | inl before ↦ one e h.0 before
    ]
  where
    one :
        (e : Replica.Effect)
        → IsArmed r e
        → after_call n (call e) on n t ≡ true
        → (on n t ≡ true) ⊎ ((req : ℤ) × (t ≡ timer_tag req) × (is_open r req ≡ true))
    one (Replica.Effect.send to m) k q = inl q
    one (Replica.Effect.set_timer delay_ms tag) (req, same_tag, opened) q =
        elim (key_discrete (key n tag) (key n t)) [
          | yes same ↦ inr (req, ap (λ (x : NodeId × Text). x.1) (sym same) ∙ same_tag, opened)
          | no differ ↦ inl (ground arith)
        ]
    one (Replica.Effect.cancel_timer tag) k q = inl (ground arith)

-- Behind a step of a replica whose timers are those of open rounds, they still are.
pub after_calls-timed :
    (r : Replica) (s : Replica.Step) (n : NodeId) (on : Armed)
    → IsTimed r s
    → ((t : Text) → on n t ≡ true → (req : ℤ) × (t ≡ timer_tag req) × (is_open r req ≡ true))
    → (t : Text) → after_calls n (map call s.1) on n t ≡ true
    → (req : ℤ) × (t ≡ timer_tag req) × (is_open s.0 req ≡ true)
after_calls-timed r s n on (keeps kept armed) before t p =
    elim (after_calls-armed s.0 n s.1 on t armed p) [
      | inr new ↦ new
      | inl old ↦ let (req, same, opened) = before t old in (req, same, kept req opened)
    ]
after_calls-timed r s n on (closes closed to m calls others) before t p =
    let p' : disarm n (timer_tag closed) on n t ≡ true =
      sym (ap (λ es. after_calls n (map call es) on n t) calls) ∙ p in
    elim (key_discrete (key n (timer_tag closed)) (key n t)) [
      | yes same ↦ absurd (ground arith)
      | no differ ↦
          let old : on n t ≡ true = ground arith in
          let (req, same, opened) = before t old in
          (
            req,
            same,
            others req (λ e. differ (ap (key n) (ap timer_tag (sym e) ∙ sym same))) opened,
          )
    ]

-- A replica sets no timer for the past.
pub IsPatient-of_timely :
    (timeout : ℤ) (es : List Replica.Effect)
    → pos 0 ≤ℤ timeout
    → All (IsTimely timeout) es
    → All IsPatient (map call es)
IsPatient-of_timely timeout [] h k = tt
IsPatient-of_timely timeout (e ∷ es) h k = (one e k.0, IsPatient-of_timely timeout es h k.1)
  where
    one : (e : Replica.Effect) → IsTimely timeout e → IsPatient (call e)
    one (Replica.Effect.send to m) k = tt
    one (Replica.Effect.set_timer delay_ms tag) k = rw k.0 h
    one (Replica.Effect.cancel_timer tag) k = tt

-- One node's timers are told apart by their tags.
same_node :
    {A : Type 0} (n : NodeId) (tag t : Text) (a b : A)
    → ite (key_discrete (key n tag) (key n t)) a b ≡ ite (text_discrete tag t) a b
same_node n tag t a b = elim (text_discrete tag t) [
  | yes same ↦ let p : key n tag ≡ key n t = ap (key n) same in ground arith
  | no differ ↦
      let p : key n tag ≢ key n t = λ q. differ (ap (λ (x : NodeId × Text). x.1) q) in ground arith
]

-- Whether the timer of a client's next operation is armed, by the engine's book and by its own.
pub disarm-next :
    (n : NodeId) (tag : Text) (on : Armed)
    → disarm n tag on n next_timer ≡ ite (text_discrete tag next_timer) false (on n next_timer)
disarm-next n tag on = same_node n tag next_timer false (on n next_timer)

pub after_calls-next :
    (n : NodeId) (es : List Replica.Effect) (on : Armed)
    → after_calls n (map call es) on n next_timer ≡ next_armed (on n next_timer) es
after_calls-next n [] on = refl
after_calls-next n (Replica.Effect.send to m ∷ es) on = after_calls-next n es on
after_calls-next n (Replica.Effect.set_timer delay_ms tag ∷ es) on =
    after_calls-next n es (rearm n tag on)
    ∙ ap (λ b. next_armed b es) (same_node n tag next_timer true (on n next_timer))
after_calls-next n (Replica.Effect.cancel_timer tag ∷ es) on =
    after_calls-next n es (disarm n tag on) ∙ ap (λ b. next_armed b es) (disarm-next n tag on)

pub IsPatient-of_client :
    (es : List Replica.Effect) → All IsPatientCall es → All IsPatient (map call es)
IsPatient-of_client [] k = tt
IsPatient-of_client (Replica.Effect.send to m ∷ es) k = (tt, IsPatient-of_client es k.1)
IsPatient-of_client (Replica.Effect.set_timer delay_ms tag ∷ es) k =
    (k.0, IsPatient-of_client es k.1)
IsPatient-of_client (Replica.Effect.cancel_timer tag ∷ es) k = (tt, IsPatient-of_client es k.1)

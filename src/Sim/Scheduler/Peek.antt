-- ===== src/Sim/Scheduler/Peek.antt =====
-- What `peek_time` shows.
use cassette.Base.{
  ℕ, ◌≡◌, refl, inl, inr, some, List, [], ◌∷◌, arith, Bool-cases, Option-cases, ℕ_discrete, member,
  discard,
}
use cassette.Sim.Clock.{advance_to}
use cassette.Sim.Events.{Event}
use cassette.Sim.Scheduler.{Scheduler, pop_from, pop, peek_from, peek_time}

module _ {M : Type 0} where
  peek_from-time :
      (h : List (Event M)) (c : List ℕ) (s : Scheduler M) {e : Event M} {later : Scheduler M}
      → pop_from h c s ≡ some (some e, later)
      → (peek_from h c s).0 ≡ some e.time_ms
  unfolding peek_from pop_from
  peek_from-time [] c s p = absurd (ground arith)
  peek_from-time (d ∷ h) c s {e} {later} p = elim (Bool-cases (member ℕ_discrete d.seq c)) [
    | inl gone ↦
        rw gone
          (peek_from-time h (discard ℕ_discrete d.seq c) s {e = e} {later = later} (ground arith))
    | inr live ↦ elim (Option-cases (advance_to d.time_ms s.clock)) [
      | inl past ↦ absurd (ground arith)
      | inr (now, moved) ↦ ground arith
    ]
  ]

  -- When `pop` delivers an event, `peek_time` shows its time.
  pub peek_time-pop :
      (s : Scheduler M) {e : Event M} {later : Scheduler M}
      → pop s ≡ some (some e, later)
      → (peek_time s).0 ≡ some e.time_ms
  unfolding peek_time pop
  peek_time-pop s p = peek_from-time s.heap s.cancelled s p

  peek_time-peek_from :
      (h : List (Event M)) (c : List ℕ) (s : Scheduler M)
      → (peek_time (peek_from h c s).1).0 ≡ (peek_from h c s).0
  unfolding peek_from peek_time
  peek_time-peek_from [] c s = refl
  peek_time-peek_from (e ∷ h) c s = elim (Bool-cases (member ℕ_discrete e.seq c)) [
    | inl gone ↦ rw gone (peek_time-peek_from h (discard ℕ_discrete e.seq c) s)
    | inr live ↦ rw live (rw live refl)
  ]

  -- A second look shows the same.
  pub peek_time-peek_time : (s : Scheduler M) → (peek_time (peek_time s).1).0 ≡ (peek_time s).0
  unfolding peek_time
  peek_time-peek_time s = peek_time-peek_from s.heap s.cancelled s

  peek_from-clock :
      (h : List (Event M)) (c : List ℕ) (s : Scheduler M) → (peek_from h c s).1.clock ≡ s.clock
  unfolding peek_from
  peek_from-clock [] c s = refl
  peek_from-clock (e ∷ h) c s = ground (arith, peek_from-clock h (discard ℕ_discrete e.seq c) s)

  -- A look leaves the clock.
  pub peek_time-clock : (s : Scheduler M) → (peek_time s).1.clock ≡ s.clock
  unfolding peek_time
  peek_time-clock s = peek_from-clock s.heap s.cancelled s

-- ===== src/Sim/Scheduler/Order.antt =====
-- The order of the queue, and the invariant that scheduling and cancelling keep.
use cassette.Base.{
  ℕ, suc, ◌<◌, ◌≡◌, refl, sym, subst, ◌≢◌, ◌⊎◌, inl, inr, true, false, Option, some, List, [], ◌∷◌,
  arith, Bool-cases, if-elim, length, In, ℤ, pos, ◌+ℤ◌, ◌≤ℤ◌, ltb_ℤ, +ℤ_parts,
}
use cassette.Kv.Version.{NodeId}
use cassette.Sim.Events.{Action, Event, comes_first}
use cassette.Sim.Scheduler.{Scheduler, push, schedule_at, schedule, cancel}

module _ {M : Type 0} where
  comes_first_trans :
      (a b c : Event M) → comes_first a b ≡ true → comes_first b c ≡ true → comes_first a c ≡ true
  unfolding comes_first
  comes_first_trans a b c h k = ground arith

  comes_first_total :
      (a b : Event M) → a.seq ≢ b.seq → comes_first a b ≡ false → comes_first b a ≡ true
  unfolding comes_first
  comes_first_total a b h k = ground arith

  -- Each entry comes before all that follow it, and has a sequence number of its own.
  abbrev pub IsOrdered : List (Event M) → Type 0
  IsOrdered [] = Unit
  IsOrdered (e ∷ h) =
      ((f : Event M) → In f h → (comes_first e f ≡ true) × (e.seq ≢ f.seq)) × IsOrdered h

  pub record IsValid (s : Scheduler M) : Type 0 where
    pub ordered : IsOrdered s.heap
    pub ahead : (f : Event M) → In f s.heap → s.clock.now ≤ℤ f.time_ms
    pub numbered : (f : Event M) → In f s.heap → f.seq < s.next_seq

  pub In_of_push : (e f : Event M) (h : List (Event M)) → In f (push e h) → (f ≡ e) ⊎ In f h
  unfolding push
  In_of_push e f [] i = i
  In_of_push e f (g ∷ h) i =
      if-elim (λ l. In f l → (f ≡ e) ⊎ In f (g ∷ h)) (comes_first g e) (g ∷ push e h) (e ∷ g ∷ h)
        (λ _ j. elim j [
          | inl p ↦ inr (inl p)
          | inr k ↦ elim (In_of_push e f h k) [ inl p ↦ inl p | inr m ↦ inr (inr m) ]
        ])
        (λ _ j. j) i

  pub In-push : (e f : Event M) (h : List (Event M)) → In f h → In f (push e h)
  unfolding push
  In-push e f [] i = absurd i
  In-push e f (g ∷ h) i =
      if-elim (In f) (comes_first g e) (g ∷ push e h) (e ∷ g ∷ h)
        (λ _. elim i [ inl p ↦ inl p | inr j ↦ inr (In-push e f h j) ]) (λ _. inr i)

  pub In-push_new : (e : Event M) (h : List (Event M)) → In e (push e h)
  unfolding push
  In-push_new e [] = inl refl
  In-push_new e (g ∷ h) =
      if-elim (In e) (comes_first g e) (g ∷ push e h) (e ∷ g ∷ h) (λ _. inr (In-push_new e h))
        (λ _. inl refl)

  push-IsOrdered :
      (e : Event M) (h : List (Event M))
      → ((f : Event M) → In f h → e.seq ≢ f.seq)
      → IsOrdered h
      → IsOrdered (push e h)
  unfolding push
  push-IsOrdered e [] n o = ((λ f i. absurd i), tt)
  push-IsOrdered e (g ∷ h) n o =
      if-elim IsOrdered (comes_first g e) (g ∷ push e h) (e ∷ g ∷ h)
        (λ t. (
          (λ f i. elim (In_of_push e f h i) [
            | inl p ↦ rw p (t, λ q. n g (inl refl) (sym q))
            | inr j ↦ o.0 f j
          ]),
          push-IsOrdered e h (λ f i. n f (inr i)) o.1,
        ))
        (λ t.
          let before = comes_first_total g e (λ q. n g (inl refl) (sym q)) t in
          (
            (λ f i. elim i [
              | inl p ↦ rw p (before, n g (inl refl))
              | inr j ↦ (comes_first_trans e g f before (o.0 f j).0, n f (inr j))
            ]),
            o,
          ))

  pub push-IsValid :
      (e : Event M) (s : Scheduler M)
      → e.seq ≡ s.next_seq
      → s.clock.now ≤ℤ e.time_ms
      → IsValid s
      → IsValid (record s { next_seq = suc s.next_seq; heap = push e s.heap })
  push-IsValid e s fresh later v = record {
    ordered = push-IsOrdered e s.heap (λ f i p. absurd (omega (arith, v.numbered f i))) v.ordered;
    ahead = λ f i. elim (In_of_push e f s.heap i) [ inl p ↦ rw p later | inr j ↦ v.ahead f j ];
    numbered = λ f i. elim (In_of_push e f s.heap i) [
      | inl p ↦ rw p (omega arith)
      | inr j ↦ omega (arith, v.numbered f j)
    ];
  }

  -- When `schedule_at` accepts an event, the scheduler stays valid: in order, with distinct
  -- sequence numbers below the counter, and with nothing in the past.
  schedule_at-IsValid :
      (time_ms : ℤ) (node : NodeId) (action : Action M) (s : Scheduler M) {n : ℕ}
      {later : Scheduler M}
      → schedule_at time_ms node action s ≡ some (n, later)
      → IsValid s
      → IsValid later
  unfolding schedule_at
  schedule_at-IsValid time_ms node action s {n} {later} e v =
      elim (Bool-cases (ltb_ℤ time_ms s.clock.now)) [
        | inl past ↦ absurd (ground arith)
        | inr ahead ↦
            let new : Event M = record {
              time_ms = time_ms;
              seq = s.next_seq;
              node = node;
              action = action;
            } in
            let s' : Scheduler M = record s { next_seq = suc s.next_seq; heap = push new s.heap } in
            let out : Option (ℕ × Scheduler M) = some (s.next_seq, s') in
            let p : out ≡ some (n, later) = ground arith in
            let q : s' ≡ later = cc in subst IsValid q (push-IsValid new s refl (ground arith) v)
      ]

  pub length-push : (e : Event M) (h : List (Event M)) → length (push e h) ≡ suc (length h)
  unfolding push
  length-push e [] = refl
  length-push e (f ∷ h) = ground (arith, length-push e h)

  -- A delay that is not negative is accepted, and the event is queued for that time.
  pub schedule_lem :
      (delay_ms : ℤ) (node : NodeId) (action : Action M) (s : Scheduler M)
      → pos 0 ≤ℤ delay_ms
      → let e : Event M = record {
        time_ms = s.clock.now +ℤ delay_ms;
        seq = s.next_seq;
        node = node;
        action = action;
      } in
        schedule delay_ms node action s
        ≡ some (s.next_seq, record s { next_seq = suc s.next_seq; heap = push e s.heap })
  unfolding schedule schedule_at
  schedule_lem delay_ms node action s h =
      let early : ltb_ℤ delay_ms (pos 0) ≡ false = ground arith in
      let late : ltb_ℤ (s.clock.now +ℤ delay_ms) s.clock.now ≡ false =
        ground (arith, +ℤ_parts s.clock.now delay_ms) in
      rw (early, late) refl

  pub cancel-IsValid : (n : ℕ) (s : Scheduler M) → IsValid s → IsValid (cancel n s)
  unfolding cancel
  cancel-IsValid n s v = record { ordered = v.ordered; ahead = v.ahead; numbered = v.numbered }

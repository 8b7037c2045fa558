-- ===== src/Sim/Scheduler/Pop.antt =====
-- What `pop` delivers, and what `peek_time` shows.
use cassette.Base.{
  ℕ, ◌≡◌, refl, sym, ap, ◌∙◌, ◌≢◌, ◌⊎◌, inl, inr, true, false, Option, none, some, List, [], ◌∷◌,
  arith, Bool-cases, In, ℕ_discrete, ◌≤ℤ◌, ltb_ℤ, member, discard, member-discard,
}
use cassette.Sim.Clock.{advance_to}
use cassette.Sim.Events.{Event, comes_first}
use cassette.Sim.Scheduler.{Scheduler, pop_from, pop, peek_from, peek_time}
use cassette.Sim.Scheduler.Order.{IsValid}

module _ {M : Type 0} where
  -- `e` is delivered from a heap with some entries cancelled: it is live, it comes before every
  -- other live entry, and those are all still there, on a clock that shows its time.
  pub record Delivers (s : Scheduler M) (e : Event M) (later : Scheduler M) : Type 0 where
    pub queued : In e s.heap
    pub live : member ℕ_discrete e.seq s.cancelled ≡ false
    pub on_time : later.clock.now ≡ e.time_ms
    pub first :
        (f : Event M)
        → In f s.heap
        → member ℕ_discrete f.seq s.cancelled ≡ false
        → (f ≡ e) ⊎ (In f later.heap) × (comes_first e f ≡ true)
    pub kept : (f : Event M) → In f later.heap → In f s.heap
    pub gone : (f : Event M) → In f later.heap → f.seq ≢ e.seq
    pub marked :
        (f : Event M)
        → In f later.heap
        → member ℕ_discrete f.seq later.cancelled ≡ member ℕ_discrete f.seq s.cancelled
    pub forgets :
        (n : ℕ)
        → member ℕ_discrete n s.cancelled ≡ false
        → member ℕ_discrete n later.cancelled ≡ false
    pub numbering : later.next_seq ≡ s.next_seq
    pub valid : IsValid later

  -- Nothing but cancelled entries was left, and the clock stands.
  pub record Drains (s later : Scheduler M) : Type 0 where
    pub empty : later.heap ≡ []
    pub over : (f : Event M) → In f s.heap → member ℕ_discrete f.seq s.cancelled ≡ true
    pub clock : later.clock ≡ s.clock
    pub forgets :
        (n : ℕ)
        → member ℕ_discrete n s.cancelled ≡ false
        → member ℕ_discrete n later.cancelled ≡ false
    pub numbering : later.next_seq ≡ s.next_seq

  -- What `pop` comes to: it is drained, with nothing but cancelled entries left, or it delivers.
  pub data Popped (s : Scheduler M) : Type 0 where
    drained : (later : Scheduler M) → pop s ≡ some (none, later) → Drains s later → Popped s
    delivered :
        (e : Event M) (later : Scheduler M)
        → pop s ≡ some (some e, later)
        → Delivers s e later
        → Popped s

  abbrev over : Scheduler M → List (Event M) → List ℕ → Scheduler M
  over s h c = record s { heap = h; cancelled = c }

  pop_from-over :
      (h k : List (Event M)) (c d : List ℕ) (s : Scheduler M)
      → pop_from h c (over s k d) ≡ pop_from h c s
  unfolding pop_from
  pop_from-over [] k c d s = refl
  pop_from-over (e ∷ h) k c d s = elim (Bool-cases (member ℕ_discrete e.seq c)) [
    | inl gone ↦ rw gone (pop_from-over h k (discard ℕ_discrete e.seq c) d s)
    | inr live ↦ rw live refl
  ]

  pop_from-move :
      (h k : List (Event M)) (c d : List ℕ) (s : Scheduler M)
      {o : Option (Option (Event M) × Scheduler M)}
      → pop_from h c (over s h c) ≡ o
      → pop_from h c (over s k d) ≡ o
  pop_from-move h k c d s p = pop_from-over h k c d s ∙ (sym (pop_from-over h h c c s) ∙ p)

  skipped :
      (e f : Event M) (c : List ℕ)
      → e.seq ≢ f.seq
      → member ℕ_discrete f.seq (discard ℕ_discrete e.seq c) ≡ member ℕ_discrete f.seq c
  skipped e f c n = ground (arith, member-discard ℕ_discrete e.seq f.seq c)

  forgotten :
      (e : Event M) (n : ℕ) (c : List ℕ)
      → member ℕ_discrete n c ≡ false
      → member ℕ_discrete n (discard ℕ_discrete e.seq c) ≡ false
  forgotten e n c l = ground (arith, member-discard ℕ_discrete e.seq n c)

  later_of_first : (e f : Event M) → comes_first e f ≡ true → e.time_ms ≤ℤ f.time_ms
  unfolding comes_first
  later_of_first e f h = ground arith

  pop_from-Popped :
      (h : List (Event M)) (c : List ℕ) (s : Scheduler M)
      → IsValid (over s h c)
      → Popped (over s h c)
  unfolding pop pop_from
  pop_from-Popped [] c s v = drained _ refl (record {
    empty = refl;
    over = λ f i. absurd i;
    clock = refl;
    forgets = λ n l. l;
    numbering = refl;
  })
  pop_from-Popped (e ∷ h) c s v = elim (Bool-cases (member ℕ_discrete e.seq c)) [
    | inl gone ↦
        let step : (f : Event M)
            → In f h
            → member ℕ_discrete f.seq (discard ℕ_discrete e.seq c) ≡ member ℕ_discrete f.seq c =
          λ f i. skipped e f c (v.ordered.0 f i).1 in
        elim (pop_from-Popped h (discard ℕ_discrete e.seq c) s (record {
          ordered = v.ordered.1;
          ahead = λ f i. v.ahead f (inr i);
          numbered = λ f i. v.numbered f (inr i);
        })) [
          | drained later p d ↦
              drained later (rw gone (pop_from-move h (e ∷ h) (discard ℕ_discrete e.seq c) c s p))
                (record {
                  empty = d.empty;
                  over = λ f i. elim i [
                    | inl same ↦ rw same gone
                    | inr j ↦ sym (step f j) ∙ d.over f j
                  ];
                  clock = d.clock;
                  forgets = λ n l. d.forgets n (forgotten e n c l);
                  numbering = d.numbering;
                })
          | delivered d later p del ↦
              delivered d later
                (rw gone (pop_from-move h (e ∷ h) (discard ℕ_discrete e.seq c) c s p))
                (record {
                  queued = inr del.queued;
                  live = sym (step d del.queued) ∙ del.live;
                  on_time = del.on_time;
                  first = λ f i l. elim i [
                    | inl same ↦
                        absurd
                          (ground (arith, ap (λ (x : Event M). member ℕ_discrete x.seq c) same))
                    | inr j ↦ del.first f j (step f j ∙ l)
                  ];
                  kept = λ f i. inr (del.kept f i);
                  gone = del.gone;
                  marked = λ f i. del.marked f i ∙ step f (del.kept f i);
                  forgets = λ n l. del.forgets n (forgotten e n c l);
                  numbering = del.numbering;
                  valid = del.valid;
                })
        ]
    | inr live ↦
        delivered e (record s { clock = record { now = e.time_ms }; heap = h; cancelled = c })
          (let t : ltb_ℤ e.time_ms s.clock.now ≡ false = ground (arith, v.ahead e (inl refl)) in
            unfold advance_to in rw (live, t) refl)
          (record {
            queued = inl refl;
            live = live;
            on_time = refl;
            first = λ f i l. elim i [ inl same ↦ inl same | inr j ↦ inr (j, (v.ordered.0 f j).0) ];
            kept = λ f i. inr i;
            gone = λ f i p. (v.ordered.0 f i).1 (sym p);
            marked = λ f i. refl;
            forgets = λ n l. l;
            numbering = refl;
            valid = record {
              ordered = v.ordered.1;
              ahead = λ f i. later_of_first e f (v.ordered.0 f i).0;
              numbered = λ f i. v.numbered f (inr i);
            };
          })
  ]

  -- On a valid scheduler `pop` never raises. Either nothing but cancelled entries was left, and
  -- the queue is empty; or it delivers a live entry that comes before every other live one in
  -- `(time_ms, seq)`, with the clock at its time, every other live entry still queued, and the
  -- scheduler valid.
  pub pop-Popped : (s : Scheduler M) → IsValid s → Popped s
  pop-Popped s v = pop_from-Popped s.heap s.cancelled s v

  pop-peek_from :
      (h : List (Event M)) (c : List ℕ) (s : Scheduler M) → pop (peek_from h c s).1 ≡ pop_from h c s
  unfolding peek_from pop pop_from
  pop-peek_from [] c s = refl
  pop-peek_from (e ∷ h) c s = elim (Bool-cases (member ℕ_discrete e.seq c)) [
    | inl gone ↦ rw gone (pop-peek_from h (discard ℕ_discrete e.seq c) s)
    | inr live ↦ rw live (rw live refl)
  ]

  -- What `peek_time` discards does not change what `pop` then does.
  pub pop-peek_time : (s : Scheduler M) → pop (peek_time s).1 ≡ pop s
  unfolding peek_time pop
  pop-peek_time s = pop-peek_from s.heap s.cancelled s

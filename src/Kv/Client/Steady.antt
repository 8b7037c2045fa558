-- ===== src/Kv/Client/Steady.antt =====
-- What holds of a client between its handlers, and that no handler of it raises.
use cassette.Base.{
  ◌++◌, ◌≢◌, ℕ, zero, suc, ◌<◌, ◌≡◌, refl, sym, ap, subst, ◌∙◌, inl, inr, ite, Bool, true, false,
  Option, none, some, List, [], ◌∷◌, arith, holds, Bool-cases, Option-cases, if-elim, length,
  get_elem?, set, All, ℤ, pos, ◌+ℤ◌, ◌≤ℤ◌, Text, text_discrete,
}
use cassette.Kv.Version.{NodeId}
use cassette.Kv.Messages.{
  Message, ClientReply, client_request, client_reply, read_request, read_reply, write_request,
  write_ack,
}
use cassette.Kv.Replica.{Effect, send, set_timer, cancel_timer}
use cassette.Checker.History.{Operation, never, History, unknown, ok, invoke, complete, give_up}
use cassette.Checker.History.Indexed.{
  IsIndexed, invoke-IsIndexed, complete-IsIndexed, give_up-IsIndexed,
}
use cassette.Kv.Client.{
  PlannedOp, Client, next_timer, patience_timer, arm, sent, issue, result, settle_from,
  settle_entry, settled, settle, enter, awaits, on_message, on_timer, Outcome,
}
use cassette.Sim.Rng.Draws.{get_elem?_of_lt}

-- Whether the timer is armed behind calls: the last that names it tells.
abbrev pub next_armed : Bool → List Effect → Bool
next_armed on [] = on
next_armed on (send to m ∷ calls) = next_armed on calls
next_armed on (set_timer delay_ms tag ∷ calls) =
    next_armed (ite (text_discrete tag next_timer) true on) calls
next_armed on (cancel_timer tag ∷ calls) =
    next_armed (ite (text_discrete tag next_timer) false on) calls

abbrev pub IsPatientCall : Effect → Type 0
IsPatientCall (send to m) = Unit
IsPatientCall (set_timer delay_ms tag) = pos 0 ≤ℤ delay_ms
IsPatientCall (cancel_timer tag) = Unit

lt_of_get_elem? :
    {A : Type 0} (xs : List A) (i : ℕ) {a : A} → get_elem? xs i ≡ some a → i < length xs
lt_of_get_elem? [] i p = absurd (ground arith)
lt_of_get_elem? (x ∷ xs) zero p = omega arith
lt_of_get_elem? (x ∷ xs) (suc i) {a = a} p = omega (arith, lt_of_get_elem? xs i {a = a} p)

planned_delay :
    (plan : List PlannedOp) (i : ℕ) (p : PlannedOp)
    → All (λ (p : PlannedOp). pos 0 ≤ℤ p.delay_ms) plan
    → get_elem? plan i ≡ some p
    → pos 0 ≤ℤ p.delay_ms
planned_delay [] i p h e = absurd (ground arith)
planned_delay (q ∷ plan) zero p h e = let same : q ≡ p = cc in rw (sym same) h.0
planned_delay (q ∷ plan) (suc i) p h e = planned_delay plan i p h.1 e

-- Every entry but one is as it was.
abbrev KeepsBut : ℕ → History → History → Type 0
KeepsBut entry h h' =
    (i : ℕ) (x : Operation) → get_elem? h i ≡ some x → i ≢ entry → get_elem? h' i ≡ some x

get_elem?-set :
    {A : Type 0} (xs : List A) (k i : ℕ) (a x : A)
    → get_elem? xs i ≡ some x
    → i ≢ k
    → get_elem? (set xs k a) i ≡ some x
get_elem?-set [] k i a x p q = absurd (ground arith)
get_elem?-set (y ∷ ys) zero zero a x p q = absurd (q refl)
get_elem?-set (y ∷ ys) zero (suc i) a x p q = p
get_elem?-set (y ∷ ys) (suc k) zero a x p q = p
get_elem?-set (y ∷ ys) (suc k) (suc i) a x p q = get_elem?-set ys k i a x p (λ e. q (ap suc e))

set-KeepsBut : (h : History) (entry : ℕ) (op : Operation) → KeepsBut entry h (set h entry op)
set-KeepsBut h entry op i x p q = get_elem?-set h entry i op x p q

get_elem?-append :
    {A : Type 0} (xs ys : List A) (i : ℕ) (x : A)
    → get_elem? xs i ≡ some x
    → get_elem? (xs ++ ys) i ≡ some x
get_elem?-append [] ys i x p = absurd (ground arith)
get_elem?-append (y ∷ xs) ys zero x p = p
get_elem?-append (y ∷ xs) ys (suc i) x p = get_elem?-append xs ys i x p

get_elem?-last : {A : Type 0} (xs : List A) (a : A) → get_elem? (xs ++ a ∷ []) (length xs) ≡ some a
get_elem?-last [] a = refl
get_elem?-last (x ∷ xs) a = get_elem?-last xs a

-- What is entered when an operation is settled.
enter_lem :
    (now : ℤ) (entry : ℕ) (planned : PlannedOp) (reply : Option ClientReply) (h : History)
    (op : Operation)
    → get_elem? h entry ≡ some op
    → IsIndexed 0 h
    → (h' : History) × (enter now entry planned reply h ≡ some h')
      × IsIndexed 0 h'
      × KeepsBut entry h h'
unfolding complete give_up
enter_lem now entry planned none h op there x =
    let h' = set h entry (record op { outcome = unknown }) in
    let e : give_up entry h ≡ some h' = ground (arith, there) in
    (h', e, give_up-IsIndexed entry h {later = h'} e x, set-KeepsBut h entry _)
enter_lem now entry planned (some reply) h op there x =
    let given = set h entry (record op { outcome = unknown }) in
    let done =
      set h entry (record op { returned_ms = now; outcome = ok; result = result planned reply }) in
    let e : give_up entry h ≡ some given = ground (arith, there) in
    let f : complete entry now (result planned reply) h ≡ some done = ground (arith, there) in
    if-elim (λ out. (h' : History) × (out ≡ some h') × IsIndexed 0 h' × KeepsBut entry h h')
      reply.done (complete entry now (result planned reply) h) (give_up entry h)
      (λ _. (
        done,
        f,
        complete-IsIndexed entry now (result planned reply) h {later = done} f x,
        set-KeepsBut h entry _,
      ))
      (λ _. (given, e, give_up-IsIndexed entry h {later = given} e x, set-KeepsBut h entry _))

settle-free :
    (now : ℤ) (reply : Option ClientReply) (c : Client) (h : History)
    → c.outstanding ≡ none
    → settle now reply c h ≡ some (c, h, [])
unfolding settle
settle-free now reply c h free = ground (arith, free)

settle_entry-step :
    (now : ℤ) (entry : ℕ) (reply : Option ClientReply) (c : Client) (h h' : History)
    (planned : PlannedOp)
    → get_elem? c.plan c.index ≡ some planned
    → enter now entry planned reply h ≡ some h'
    → settle_entry now entry reply c h
      ≡ some (settled c, h', cancel_timer patience_timer ∷ arm (settled c))
settle_entry-step now entry reply c h h' planned there e = rw (there, settle_entry) (rw e refl)

settle-step :
    (now : ℤ) (reply : Option ClientReply) (c : Client) (h h' : History) (req : ℤ) (entry : ℕ)
    (planned : PlannedOp)
    → c.outstanding ≡ some (req, entry)
    → get_elem? c.plan c.index ≡ some planned
    → enter now entry planned reply h ≡ some h'
    → settle now reply c h ≡ some (settled c, h', cancel_timer patience_timer ∷ arm (settled c))
unfolding settle
settle-step now reply c h h' req entry planned waiting there e =
    subst
      (λ o.
        settle_from o now reply c h
        ≡ some (settled c, h', cancel_timer patience_timer ∷ arm (settled c)))
      (sym waiting) (settle_entry-step now entry reply c h h' planned there e)

module _ (n : NodeId) where
  -- The client of node `n`. `on` tells whether the timer of the next operation is armed. Then the
  -- client waits for nothing and its plan has an operation; while it waits, the operation is in its
  -- plan, and in the history there is an entry of its own, of which nothing is known.
  pub record IsSteady (on : Bool) (c : Client) (h : History) : Type 0 where
    pub own : c.node_id ≡ n
    pub patient : pos 0 ≤ℤ c.patience_ms
    pub unhurried : All (λ (p : PlannedOp). pos 0 ≤ℤ p.delay_ms) c.plan
    pub next : on ≡ true → (c.outstanding ≡ none) × (c.index < length c.plan)
    pub waits :
        (req : ℤ) (entry : ℕ)
        → c.outstanding ≡ some (req, entry)
        → (c.index < length c.plan)
          × (op : Operation) × (get_elem? h entry ≡ some op)
          × (op.client ≡ n)
          × (op.outcome ≡ unknown)

  -- A handler returns, leaves a client and a history that are as they should be, and touches no
  -- entry of another client.
  pub record IsTurn (on : Bool) (h : History) (c' : Client) (h' : History) (calls : List Effect)
      : Type 0 where
    pub steady : IsSteady (next_armed on calls) c' h'
    pub indexed : IsIndexed 0 h'
    pub others :
        (i : ℕ) (op : Operation)
        → get_elem? h i ≡ some op
        → op.client ≢ n
        → get_elem? h' i ≡ some op
    pub patient : All IsPatientCall calls

  abbrev pub Turns : Bool → History → Option Outcome → Type 0
  Turns on h out =
      (c' : Client) × (h' : History) × (calls : List Effect) × (out ≡ some (c', h', calls))
      × IsTurn on h c' h' calls

  -- Nothing happens.
  pub rests :
      (on : Bool) (c : Client) (h : History)
      → IsSteady on c h
      → IsIndexed 0 h
      → Turns on h (some (c, h, []))
  rests on c h s x =
      (c, h, [], refl, record { steady = s; indexed = x; others = λ i op p q. p; patient = tt })

  -- The client behind an operation.
  settled_lem :
      (on : Bool) (c : Client) (h h' : History)
      → IsSteady on c h
      → on ≡ false
      → c.index < length c.plan
      → IsIndexed 0 h'
      → ((i : ℕ) (op : Operation)
          → get_elem? h i ≡ some op
          → op.client ≢ n
          → get_elem? h' i ≡ some op)
      → IsTurn on h (settled c) h' (cancel_timer patience_timer ∷ arm (settled c))
  unfolding arm text_discrete
  settled_lem on c h h' s off inside x same = elim (Option-cases (get_elem? c.plan (suc c.index))) [
    | inl over ↦
        let e : arm (settled c) ≡ [] = rw (over, arm) refl in
        subst (λ calls. IsTurn on h (settled c) h' (cancel_timer patience_timer ∷ calls)) (sym e)
          (record {
            steady = record {
              own = s.own;
              patient = s.patient;
              unhurried = s.unhurried;
              next = λ p. absurd (ground arith);
              waits = λ req entry p. absurd (ground arith);
            };
            indexed = x;
            others = same;
            patient = (tt, tt);
          })
    | inr (planned, there) ↦
        let e : arm (settled c) ≡ set_timer planned.delay_ms next_timer ∷ [] =
          rw (there, arm) refl in
        subst (λ calls. IsTurn on h (settled c) h' (cancel_timer patience_timer ∷ calls)) (sym e)
          (record {
            steady = record {
              own = s.own;
              patient = s.patient;
              unhurried = s.unhurried;
              next = λ p. (refl, lt_of_get_elem? c.plan (suc c.index) {a = planned} there);
              waits = λ req entry p. absurd (ground arith);
            };
            indexed = x;
            others = same;
            patient = (tt, (planned_delay c.plan (suc c.index) planned s.unhurried there, tt));
          })
  ]

  -- The entry of one client is not another's.
  another_entry :
      (op y : Operation) (i entry : ℕ) (h : History)
      → get_elem? h entry ≡ some op
      → get_elem? h i ≡ some y
      → i ≡ entry
      → op.client ≡ n
      → y.client ≡ n
  another_entry op y i entry h p q e mine =
      let both : some y ≡ some op = sym q ∙ (ap (get_elem? h) e ∙ p) in
      let same : y ≡ op = cc in ap (λ (o : Operation). o.client) same ∙ mine

  settle_lem :
      (on : Bool) (now : ℤ) (reply : Option ClientReply) (c : Client) (h : History)
      → IsSteady on c h
      → IsIndexed 0 h
      → Turns on h (settle now reply c h)
  unfolding settle
  settle_lem on now reply c h s x = elim (Option-cases c.outstanding) [
    | inl free ↦ subst (Turns on h) (sym (settle-free now reply c h free)) (rests on c h s x)
    | inr ((req, entry), waiting) ↦
        let (inside, op, entered, mine, open_still) = s.waits req entry waiting in
        let off : on ≡ false = elim (Bool-cases on) [
          | inl armed ↦ absurd (ground (arith, s.next armed))
          | inr off ↦ off
        ] in
        let (planned, there) = get_elem?_of_lt c.plan c.index inside in
        let (h', e, x', kept) = enter_lem now entry planned reply h op entered x in
        let same : (i : ℕ) (y : Operation)
            → get_elem? h i ≡ some y
            → y.client ≢ n
            → get_elem? h' i ≡ some y =
          λ i y p q. kept i y p (λ at. q (another_entry op y i entry h entered p at mine)) in
        (
          settled c,
          h',
          cancel_timer patience_timer ∷ arm (settled c),
          settle-step now reply c h h' req entry planned waiting there e,
          settled_lem on c h h' s off inside x' same,
        )
  ]

  pub on_message_lem :
      (on : Bool) (now : ℤ) (sender : NodeId) (m : Message) (c : Client) (h : History)
      → IsSteady on c h
      → IsIndexed 0 h
      → Turns on h (on_message now sender m c h)
  unfolding on_message
  on_message_lem on now sender (client_reply m) c h s x =
      if-elim (Turns on h) (awaits c.outstanding m.req) (settle now (some m) c h) (some (c, h, []))
        (λ _. settle_lem on now (some m) c h s x) (λ _. rests on c h s x)
  on_message_lem on now sender (client_request m) c h s x = rests on c h s x
  on_message_lem on now sender (read_request m) c h s x = rests on c h s x
  on_message_lem on now sender (read_reply m) c h s x = rests on c h s x
  on_message_lem on now sender (write_request m) c h s x = rests on c h s x
  on_message_lem on now sender (write_ack m) c h s x = rests on c h s x

  issue_lem :
      (now : ℤ) (c : Client) (h : History)
      → IsSteady true c h
      → IsIndexed 0 h
      → Turns false h (issue now c h)
  unfolding issue invoke text_discrete
  issue_lem now c h s x =
      let (free, inside) = s.next refl in
      let (planned, there) = get_elem?_of_lt c.plan c.index inside in
      let h' =
        (invoke c.node_id planned.kind planned.key now planned.argument planned.expected h).0 in
      let op : Operation = record {
        index = length h;
        client = c.node_id;
        kind = planned.kind;
        key = planned.key;
        argument = planned.argument;
        expected = planned.expected;
        invoked_ms = now;
        returned_ms = never;
        outcome = unknown;
        result = none;
      } in
      (
        sent c (length h),
        h',
        send planned.coordinator (
              client_request (record {
                req = c.req +ℤ pos 1;
                op = planned.kind;
                key = planned.key;
                value = planned.argument;
                expected = planned.expected;
              }))
            ∷ set_timer c.patience_ms patience_timer
            ∷ [],
        rw (there, issue) refl,
        record {
          steady = record {
            own = s.own;
            patient = s.patient;
            unhurried = s.unhurried;
            next = λ p. absurd (ground arith);
            waits = λ req entry p.
                let place : length h ≡ entry = ground arith in
                (
                  inside,
                  op,
                  subst (λ k. get_elem? (h ++ op ∷ []) k ≡ some op) place (get_elem?-last h op),
                  s.own,
                  refl,
                );
          };
          indexed =
              invoke-IsIndexed c.node_id planned.kind planned.key now planned.argument
                planned.expected h x;
          others = λ i x p q. get_elem?-append h (op ∷ []) i x p;
          patient = (tt, (s.patient, tt));
        },
      )

  pub on_timer_lem :
      (on : Bool) (now : ℤ) (tag : Text) (c : Client) (h : History)
      → (tag ≡ next_timer → on ≡ true)
      → IsSteady on c h
      → IsIndexed 0 h
      → Turns (ite (text_discrete tag next_timer) false on) h (on_timer now tag c h)
  unfolding on_timer
  on_timer_lem on now tag c h armed s x = elim (text_discrete tag next_timer) [
    | yes is_next ↦
        let on_true = armed is_next in
        let t : holds (text_discrete tag next_timer) ≡ true = ground arith in
        let f : ite (text_discrete tag next_timer) false on ≡ false = ground arith in
        subst (λ b. Turns b h (on_timer now tag c h)) (sym f)
          (rw (t, on_timer) (issue_lem now c h (subst (λ b. IsSteady b c h) on_true s) x))
    | no other ↦
        let t : holds (text_discrete tag next_timer) ≡ false = ground arith in
        let f : ite (text_discrete tag next_timer) false on ≡ on = ground arith in
        subst (λ b. Turns b h (on_timer now tag c h)) (sym f)
          (rw (t, on_timer)
            (if-elim (Turns on h) (holds (text_discrete tag patience_timer)) (settle now none c h)
              (some (c, h, [])) (λ _. settle_lem on now none c h s x) (λ _. rests on c h s x)))
  ]

  -- A client that waits for nothing may arm the timer of its next operation.
  pub arm_lem :
      (on : Bool) (c : Client) (h : History)
      → IsSteady on c h
      → c.outstanding ≡ none
      → IsSteady (next_armed on (arm c)) c h × All IsPatientCall (arm c)
  unfolding arm text_discrete
  arm_lem on c h s idle = elim (Option-cases (get_elem? c.plan c.index)) [
    | inl over ↦
        let e : arm c ≡ [] = rw (over, arm) refl in
        subst (λ calls. IsSteady (next_armed on calls) c h × All IsPatientCall calls) (sym e)
          (s, tt)
    | inr (planned, there) ↦
        let e : arm c ≡ set_timer planned.delay_ms next_timer ∷ [] = rw (there, arm) refl in
        subst (λ calls. IsSteady (next_armed on calls) c h × All IsPatientCall calls) (sym e)
          (
            record {
              own = s.own;
              patient = s.patient;
              unhurried = s.unhurried;
              next = λ p. (idle, lt_of_get_elem? c.plan c.index {a = planned} there);
              waits = s.waits;
            },
            (planned_delay c.plan c.index planned s.unhurried there, tt),
          )
  ]

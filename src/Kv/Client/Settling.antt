-- ===== src/Kv/Client/Settling.antt =====
-- What a client writes in the history.
use cassette.Base.{
  +ℤ_parts, pos_part, neg_part, Option-cases, Option, Text, inl, inr, subst, ◌∙◌, ◌≢◌, ℕ, suc, ◌≡◌,
  refl, sym, ap, true, false, none, some, List, [], ◌∷◌, ◌++◌, arith, length-append, length,
  get_elem?, set, ℤ, pos, ◌+ℤ◌, text_discrete,
}
use cassette.Kv.Version.{NodeId, Value}
use cassette.Kv.Messages.{ClientReply, client_request, client_reply}
use cassette.Kv.Replica.{Effect, send, set_timer, cancel_timer}
use cassette.Checker.History.{
  Operation, History, ok, unknown, never, read_kind, cas_kind, invoke, complete, give_up,
}
use cassette.Kv.Client.{
  PlannedOp, Client, next_timer, patience_timer, arm, sent, issue, result, settled, settle,
  on_message, on_timer,
}

-- The operation of a plan as it is entered when it is issued.
abbrev pub pending_op : Client → PlannedOp → ℤ → ℕ → Operation
pending_op c planned at_ms place = record {
  index = place;
  client = c.node_id;
  kind = planned.kind;
  key = planned.key;
  argument = planned.argument;
  expected = planned.expected;
  invoked_ms = at_ms;
  returned_ms = never;
  outcome = unknown;
  result = none;
}

-- What a client learns from a success: a read and a compare-and-swap bring a value, a write none.
abbrev pub learnt : Text → Value → Value
learnt kind value = elim (text_discrete kind read_kind) [
  | yes is_read ↦ value
  | no other ↦ elim (text_discrete kind cas_kind) [ yes is_cas ↦ value | no is_write ↦ none ]
]

abbrev pub done_op : Client → PlannedOp → ℤ → ℕ → ℤ → Value → Operation
done_op c planned at_ms place returned_ms value = record (pending_op c planned at_ms place) {
  returned_ms = returned_ms;
  outcome = ok;
  result = learnt planned.kind value;
}

-- The timer that a client sets for the operation at a place of its plan.
abbrev pub next_calls : Option PlannedOp → List Effect
next_calls none = []
next_calls (some planned) = set_timer planned.delay_ms next_timer ∷ []

-- The client has put the planned operation into the history and sent it, and waits for just that.
pub record IsIssued (c : Client) (h : History) (planned : PlannedOp) (at_ms : ℤ) (c' : Client)
    (h' : History) (calls : List Effect) : Type 0 where
  pub entered : h' ≡ h ++ pending_op c planned at_ms (length h) ∷ []
  pub waits : c'.outstanding ≡ some (c.req +ℤ pos 1, length h)
  pub latest : c'.req ≡ c.req +ℤ pos 1
  pub place : c'.index ≡ c.index
  pub plan : c'.plan ≡ c.plan
  pub node_id : c'.node_id ≡ c.node_id
  pub patience : c'.patience_ms ≡ c.patience_ms
  pub asked :
      calls
      ≡ send planned.coordinator (
          client_request (record {
            req = c.req +ℤ pos 1;
            op = planned.kind;
            key = planned.key;
            value = planned.argument;
            expected = planned.expected;
          }))
        ∷ set_timer c.patience_ms patience_timer
        ∷ []

-- The client is through with the operation, stops waiting and sets out for the next of its plan.
pub record IsThrough (c c' : Client) (calls : List Effect) : Type 0 where
  pub free : c'.outstanding ≡ none
  pub onward : c'.index ≡ suc c.index
  pub plan : c'.plan ≡ c.plan
  pub node_id : c'.node_id ≡ c.node_id
  pub req : c'.req ≡ c.req
  pub armed : calls ≡ cancel_timer patience_timer ∷ next_calls (get_elem? c.plan (suc c.index))

get_elem?-middle :
    {A : Type 0} (xs ys : List A) (a : A) → get_elem? (xs ++ a ∷ ys) (length xs) ≡ some a
get_elem?-middle [] ys a = refl
get_elem?-middle (x ∷ xs) ys a = get_elem?-middle xs ys a

set-middle :
    {A : Type 0} (xs ys : List A) (a b : A) → set (xs ++ a ∷ ys) (length xs) b ≡ xs ++ b ∷ ys
set-middle [] ys a b = refl
set-middle (x ∷ xs) ys a b = ap (◌∷◌ x) (set-middle xs ys a b)

arm-next : (c : Client) → arm c ≡ next_calls (get_elem? c.plan c.index)
unfolding arm
arm-next c = elim (Option-cases (get_elem? c.plan c.index)) [
  | inl over ↦ rw (over, arm) refl
  | inr (planned, there) ↦ rw (there, arm) refl
]

result-learnt :
    (planned : PlannedOp) (m : ClientReply) → result planned m ≡ learnt planned.kind m.value
unfolding result
result-learnt planned m = elim (text_discrete planned.kind read_kind) [
  | yes is_read ↦ ground arith
  | no other ↦ elim (text_discrete planned.kind cas_kind) [
    | yes is_cas ↦ ground arith
    | no is_write ↦ ground arith
  ]
]

module _ (now : ℤ) (c : Client) (h : History) (planned : PlannedOp)
    (there : get_elem? c.plan c.index ≡ some planned) where
  issue_step :
      (calls : List Effect) × (on_timer now next_timer c h
        ≡ some (sent c (length h), h ++ pending_op c planned now (length h) ∷ [], calls))
      × IsIssued c h planned now
          (sent c (length h))
          (h ++ pending_op c planned now (length h) ∷ [])
          calls
  unfolding on_timer issue invoke text_discrete
  issue_step = (
    _,
    ground (arith, there),
    record {
      entered = refl;
      waits = refl;
      latest = refl;
      place = refl;
      plan = refl;
      node_id = refl;
      patience = refl;
      asked = refl;
    },
  )

-- A client that waits for the operation entered at `place`.
record IsWaiting (c : Client) (planned : PlannedOp) (req : ℤ) (place : ℕ) : Type 0 where
  planned_there : get_elem? c.plan c.index ≡ some planned
  outstanding : c.outstanding ≡ some (req, place)

IsIssued-IsWaiting :
    (c c' : Client) (h h' : History) (planned : PlannedOp) (now : ℤ) (calls : List Effect)
    → get_elem? c.plan c.index ≡ some planned
    → IsIssued c h planned now c' h' calls
    → IsWaiting c' planned (c.req +ℤ pos 1) (length h)
IsIssued-IsWaiting c c' h h' planned now calls there i = record {
  planned_there = rw (i.plan, i.place) there;
  outstanding = i.waits;
}

settled-IsThrough :
    (c : Client) → IsThrough c (settled c) (cancel_timer patience_timer ∷ arm (settled c))
settled-IsThrough c = record {
  free = refl;
  onward = refl;
  plan = refl;
  node_id = refl;
  req = refl;
  armed = ap (◌∷◌ (cancel_timer patience_timer)) (arm-next (settled c));
}

module _ (c : Client) (planned : PlannedOp) (op : Operation) (before rest : History) {req : ℤ}
    (w : IsWaiting c planned req (length before)) where
  done_lem :
      (now : ℤ) (sender : NodeId) (m : ClientReply)
      → m.req ≡ req
      → m.done ≡ true
      → on_message now sender (client_reply m) c (before ++ op ∷ rest)
        ≡ some (
          settled c,
          before
              ++ record op { returned_ms = now; outcome = ok; result = learnt planned.kind m.value }
                ∷ rest,
          cancel_timer patience_timer ∷ arm (settled c),
        )
  unfolding on_message settle complete
  done_lem now sender m same e =
      let there = get_elem?-middle before rest op in
      let written =
        set-middle before rest op
          (record op { returned_ms = now; outcome = ok; result = result planned m }) in
      rw (sym (result-learnt planned m))
        (ground (arith, w.planned_there, w.outstanding, there, same, written))

  unknown_lem :
      (now : ℤ) (sender : NodeId) (m : ClientReply)
      → op.outcome ≡ unknown
      → m.req ≡ req
      → m.done ≡ false
      → (on_message now sender (client_reply m) c (before ++ op ∷ rest)
          ≡ some (settled c, before ++ op ∷ rest, cancel_timer patience_timer ∷ arm (settled c)))
        × (on_timer now patience_timer c (before ++ op ∷ rest)
            ≡ some (settled c, before ++ op ∷ rest, cancel_timer patience_timer ∷ arm (settled c)))
  unfolding on_message on_timer settle give_up text_discrete
  unknown_lem now sender m unsettled same e =
      let there = get_elem?-middle before rest op in
      let kept : record op { outcome = unknown } ≡ op =
        ap (λ o. record op { outcome = o }) (sym unsettled) in
      let written : set (before ++ op ∷ rest) (length before) (record op { outcome = unknown })
          ≡ before ++ op ∷ rest =
        rw kept (set-middle before rest op op) in
      (
        ground (arith, w.planned_there, w.outstanding, there, same, written, e),
        ground (arith, w.planned_there, w.outstanding, there, written),
      )

module _ (c : Client) (h : History) (planned : PlannedOp) (now : ℤ)
    (there : get_elem? c.plan c.index ≡ some planned) where
  -- When the timer of the next operation fires, the client adds that operation to the history,
  -- sends it under a new id with a timer that bounds the wait, and waits for just that. A later
  -- success for that id completes this entry with the time and with the value that a read or a
  -- compare-and-swap brings, leaves all others alone, whatever they have become, and the client
  -- goes on to the next operation of its plan, which it arms.
  pub operation_done :
      (later : ℤ) (sender : NodeId) (m : ClientReply) (before rest : History)
      → m.req ≡ c.req +ℤ pos 1
      → m.done ≡ true
      → length before ≡ length h
      → (c₁ : Client) × (h₁ : History) × (calls : List Effect) × (on_timer now next_timer c h
          ≡ some (c₁, h₁, calls))
        × IsIssued c h planned now c₁ h₁ calls
        × (c₂ : Client) × (calls' : List Effect) × (on_message later sender
              (client_reply m)
              c₁
              (before ++ pending_op c planned now (length h) ∷ rest)
            ≡ some (c₂, before ++ done_op c planned now (length h) later m.value ∷ rest, calls'))
        × IsThrough c₁ c₂ calls'
  operation_done later sender m before rest same e sized =
      let c₁ = sent c (length h) in
      let h₁ = h ++ pending_op c planned now (length h) ∷ [] in
      let (calls, f, i) = issue_step now c h planned there in
      let w =
        subst (IsWaiting c₁ planned (c.req +ℤ pos 1)) (sym sized)
          (IsIssued-IsWaiting c c₁ h h₁ planned now calls there i) in
      (
        c₁,
        h₁,
        calls,
        f,
        i,
        settled c₁,
        cancel_timer patience_timer ∷ arm (settled c₁),
        done_lem c₁ planned (pending_op c planned now (length h)) before rest w later sender m same
            e,
        settled-IsThrough c₁,
      )

  -- After an operation is issued, a failure that is told for its id and the end of the client's
  -- patience come to the same: the history stays, with the outcome of the entry unknown, and the
  -- client goes on to the next operation of its plan, which it arms.
  pub operation_unknown :
      (later : ℤ) (sender : NodeId) (m : ClientReply) (before rest : History)
      → m.req ≡ c.req +ℤ pos 1
      → m.done ≡ false
      → length before ≡ length h
      → (c₁ : Client) × (h₁ : History) × (calls : List Effect) × (on_timer now next_timer c h
          ≡ some (c₁, h₁, calls))
        × IsIssued c h planned now c₁ h₁ calls
        × (c₂ : Client) × (calls' : List Effect) × (on_message later sender
              (client_reply m)
              c₁
              (before ++ pending_op c planned now (length h) ∷ rest)
            ≡ some (c₂, before ++ pending_op c planned now (length h) ∷ rest, calls'))
        × (on_timer later patience_timer c₁ (before ++ pending_op c planned now (length h) ∷ rest)
            ≡ some (c₂, before ++ pending_op c planned now (length h) ∷ rest, calls'))
        × IsThrough c₁ c₂ calls'
  operation_unknown later sender m before rest same e sized =
      let c₁ = sent c (length h) in
      let h₁ = h ++ pending_op c planned now (length h) ∷ [] in
      let (calls, f, i) = issue_step now c h planned there in
      let w =
        subst (IsWaiting c₁ planned (c.req +ℤ pos 1)) (sym sized)
          (IsIssued-IsWaiting c c₁ h h₁ planned now calls there i) in
      let (told, impatient) =
        unknown_lem c₁ planned (pending_op c planned now (length h)) before rest w later sender m
          refl same e in
      (
        c₁,
        h₁,
        calls,
        f,
        i,
        settled c₁,
        cancel_timer patience_timer ∷ arm (settled c₁),
        told,
        impatient,
        settled-IsThrough c₁,
      )

-- A reply that is not awaited changes nothing.
ignored_free :
    (now : ℤ) (sender : NodeId) (m : ClientReply) (c : Client) (h : History)
    → c.outstanding ≡ none
    → on_message now sender (client_reply m) c h ≡ some (c, h, [])
unfolding on_message
ignored_free now sender m c h free = ground (arith, free)

ignored_other :
    (now : ℤ) (sender : NodeId) (m : ClientReply) (c : Client) (h : History) (req : ℤ) (place : ℕ)
    → c.outstanding ≡ some (req, place)
    → m.req ≢ req
    → on_message now sender (client_reply m) c h ≡ some (c, h, [])
unfolding on_message
ignored_other now sender m c h req place waiting differ = ground (arith, waiting, differ)

next_id_differs : (n : ℤ) → n ≢ n +ℤ pos 1
next_id_differs n e = omega (arith, +ℤ_parts n (pos 1), ap pos_part e, ap neg_part e)

module _ (c : Client) (h : History) (first second : PlannedOp) (t₁ t₂ t₃ t₄ : ℤ) where
  -- When the client's patience with an operation runs out and it issues the next one of its plan,
  -- both are in the history with an unknown outcome, and a late reply to the first, before or
  -- after the second is issued, changes nothing, whatever it says and whatever the history is.
  pub late_reply :
      (sender : NodeId) (m : ClientReply)
      → get_elem? c.plan c.index ≡ some first
      → get_elem? c.plan (suc c.index) ≡ some second
      → m.req ≡ c.req +ℤ pos 1
      → (c₁ c₂ c₃ : Client) × (calls₁ calls₂ calls₃ : List Effect) × (on_timer t₁ next_timer c h
          ≡ some (c₁, h ++ pending_op c first t₁ (length h) ∷ [], calls₁))
        × (on_timer t₂ patience_timer c₁ (h ++ pending_op c first t₁ (length h) ∷ [])
            ≡ some (c₂, h ++ pending_op c first t₁ (length h) ∷ [], calls₂))
        × ((g : History) → on_message t₃ sender (client_reply m) c₂ g ≡ some (c₂, g, []))
        × (on_timer t₃ next_timer c₂ (h ++ pending_op c first t₁ (length h) ∷ [])
            ≡ some (
              c₃,
              (h ++ pending_op c first t₁ (length h) ∷ [])
                  ++ pending_op c second t₃ (suc (length h)) ∷ [],
              calls₃,
            ))
        × ((g : History) → on_message t₄ sender (client_reply m) c₃ g ≡ some (c₃, g, []))
  late_reply sender m there there' same =
      let op = pending_op c first t₁ (length h) in
      let c₁ = sent c (length h) in
      let h₁ = h ++ op ∷ [] in
      let (calls₁, f₁, i₁) = issue_step t₁ c h first there in
      let w = IsIssued-IsWaiting c c₁ h h₁ first t₁ calls₁ there i₁ in
      let failure : ClientReply = record { req = m.req; done = false; value = none } in
      let (told, f₂) = unknown_lem c₁ first op h [] w t₂ sender failure refl same refl in
      let c₂ = settled c₁ in
      let (calls₃, f₃, i₃) = issue_step t₃ c₂ h₁ second there' in
      let longer : length h₁ ≡ suc (length h) = length-append h (op ∷ []) ∙ omega arith in
      let differ : m.req ≢ c.req +ℤ pos 1 +ℤ pos 1 =
        λ e. next_id_differs (c.req +ℤ pos 1) (sym same ∙ e) in
      (
        c₁,
        c₂,
        sent c₂ (length h₁),
        calls₁,
        cancel_timer patience_timer ∷ arm c₂,
        calls₃,
        f₁,
        f₂,
        λ g. ignored_free t₃ sender m c₂ g refl,
        subst
            (λ n.
              on_timer t₃ next_timer c₂ h₁
              ≡ some (sent c₂ (length h₁), h₁ ++ pending_op c second t₃ n ∷ [], calls₃))
            longer f₃,
        λ g.
            ignored_other t₄ sender m (sent c₂ (length h₁)) g (c.req +ℤ pos 1 +ℤ pos 1) (length h₁)
              refl differ,
      )

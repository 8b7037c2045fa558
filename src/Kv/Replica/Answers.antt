-- ===== src/Kv/Replica/Answers.antt =====
-- What the handlers of cassette/kv/replica.py tell a client.
use cassette.Base.{
  ℕ, ◌≤ℤ◌, Bool, ◌||◌, ◌≡◌, refl, ◌≢◌, inl, inr, true, false, not, ◌&&◌, Option, none, some, [],
  ◌∷◌, ◌++◌, arith, if◌then◌else◌, holds, is_some, if-elim, holds→, length, ℤ, pos, ℤ_discrete,
  ltb_ℤ, lookup, lookup-remove, insert-HasDistinctKeys, add-IsDistinct, Text, text_discrete, read_ℤ,
  read_ℤ-show_ℤ, after_colon,
}
use cassette.Kv.Version.{Value-discrete, Version-discrete, Version, NodeId, Value}
use cassette.Kv.Messages.{
  Message, ReadReply, WriteAck, client_request, client_reply, read_request, read_reply,
  write_request, write_ack,
}
use cassette.Kv.Round.{
  Round, Phase, is_reading, read_phase, read_op, cas_op, not_swapped, write_phase, newest,
  timer_tag,
}
use cassette.Kv.Replica.{
  Replica, Step, with_reply, with_ack, put_round, on_message, arm, on_read_quorum, answer_read,
  answer_write, start_writing, gather, collect, mint, finish, answer, on_timer, broadcast,
  fresh_round,
}
use cassette.Kv.Replica.Handlers.{still_reading, still_writing}
use cassette.Kv.Replica.Valid.{IsValid}
use cassette.Kv.Replica.Replies.{
  Closes, IsReadAnswer, IsWriteAnswer, client_replies, IsAnswer, silent, from_reads, from_acks,
  client_replies-broadcast, start_writing-silent,
}

finish-Closes :
    (r : Replica) (round : Round) (value : Value)
    → is_some (lookup ℤ_discrete round.req r.rounds) ≡ true
    → Closes r (finish (put_round r round) round true value) round true value
unfolding finish
finish-Closes r round value h = record {
  opened = h;
  closed = ground (arith, lookup-remove ℤ_discrete round.req round.req (put_round r round).rounds);
  replied = refl;
}

-- What a first phase that has its quorum comes to: no reply, or the answer that it has found.
data IsFirst (r : Replica) (round : Round) (s : Step) : Type 0 where
  goes_on : client_replies s.1 ≡ [] → IsFirst r round s
  answers :
      (value : Value) → Closes r s round true value → IsReadAnswer round value → IsFirst r round s

answer_read-IsFirst :
    (r : Replica) (round : Round)
    → is_some (lookup ℤ_discrete round.req r.rounds) ≡ true
    → round.op ≡ read_op
    → IsFirst r round (answer_read (put_round r round) round (newest round))
unfolding answer_read
answer_read-IsFirst r round o p =
    let best = newest round in
    let round' : Round = record round {
      phase = write_phase;
      result = best.value;
      version = best.version;
    } in
    if-elim (IsFirst r round) _ (finish (put_round r round) round true best.value)
      (start_writing (put_round r round) round' best.value)
      (λ _. answers best.value (finish-Closes r round best.value o) (inl (p, refl)))
      (λ _. goes_on (start_writing-silent (put_round r round) round' best.value))

unequal :
    (op : Text) (a b : Value)
    → (holds (text_discrete op cas_op) && not (holds (Value-discrete a b))) ≡ true
    → (op ≡ cas_op) × (a ≢ b)
unequal op a b h = (ground arith, λ e. ground arith)

answer_write-IsFirst :
    (r : Replica) (round : Round)
    → is_some (lookup ℤ_discrete round.req r.rounds) ≡ true
    → IsFirst r round (answer_write (put_round r round) round (newest round))
unfolding answer_write
answer_write-IsFirst r round o =
    let best = newest round in
    let minted = mint (put_round r round) round.key best.version in
    let round' : Round = record round { phase = write_phase; version = minted.0 } in
    if-elim (IsFirst r round) _ (finish (put_round r round) round true not_swapped)
      (start_writing minted.1 round' round.value)
      (λ t.
        let (p, ne) = unequal round.op best.value round.expected t in
        answers not_swapped (finish-Closes r round not_swapped o) (inr (p, ne, refl)))
      (λ _. goes_on (start_writing-silent minted.1 round' round.value))

on_read_quorum-IsFirst :
    (r : Replica) (round : Round)
    → is_some (lookup ℤ_discrete round.req r.rounds) ≡ true
    → IsFirst r round (on_read_quorum (put_round r round) round)
unfolding on_read_quorum
on_read_quorum-IsFirst r round o =
    if-elim (IsFirst r round) _ (answer_read (put_round r round) round (newest round))
      (answer_write (put_round r round) round (newest round))
      (λ t. answer_read-IsFirst r round o (holds→ _ t)) (λ _. answer_write-IsFirst r round o)

answer-IsWriteAnswer : (round : Round) → IsWriteAnswer round (answer round)
unfolding answer
answer-IsWriteAnswer round = elim (text_discrete round.op read_op) [
  | yes p ↦ inl (p, ground arith)
  | no p ↦ elim (text_discrete round.op cas_op) [
    | yes q ↦ inr (inl (q, ground arith))
    | no q ↦ inr (inr (p, q, ground arith))
  ]
]

same_key :
    (phase_open : Bool) (a b : Text)
    → (not phase_open || not (holds (text_discrete a b))) ≡ false
    → a ≡ b
same_key phase_open a b t = ground arith

same_version :
    (phase_open : Bool) (a b : Version)
    → (phase_open || not (holds (Version-discrete a b))) ≡ false
    → a ≡ b
same_version phase_open a b t = ground arith

reading_phase :
    (phase : Phase) (b : Bool) → (not (is_reading phase) || b) ≡ false → phase ≡ read_phase
reading_phase read_phase b t = refl
reading_phase write_phase b t = absurd (ground arith)

not_below : (quorum : ℤ) (n : ℕ) → ltb_ℤ (pos n) quorum ≡ false → quorum ≤ℤ pos n
not_below quorum n h = ground arith

gather-IsAnswer :
    (r : Replica) (sender : NodeId) (m : ReadReply) (o : Option Round)
    → lookup ℤ_discrete m.req r.rounds ≡ o
    → IsValid r
    → IsAnswer r sender (read_reply m) (gather r sender m o)
unfolding gather
gather-IsAnswer r sender m none e v = silent refl
gather-IsAnswer r sender m (some round) e v =
    let o = v.open_rounds m.req round e in
    let round' = with_reply round sender m in
    let r' = put_round r round' in
    if-elim (IsAnswer r sender (read_reply m)) _ (r, [])
      (if ltb_ℤ (pos (length round'.replies)) r.config.read_quorum
        then (r', [])
        else on_read_quorum r' round')
      (λ _. silent refl)
      (λ t.
        if-elim (IsAnswer r sender (read_reply m)) _ (r', []) (on_read_quorum r' round')
          (λ _. silent refl)
          (λ enough. elim (on_read_quorum-IsFirst r round' (rw (o.own_id, e) refl)) [
            | goes_on quiet ↦ silent quiet
            | answers value closes says ↦
                from_reads m round value refl e (reading_phase round.phase _ t)
                  (same_key (is_reading round.phase) round.key m.key t) closes
                  (record {
                    distinct_replies =
                        insert-HasDistinctKeys ℤ_discrete sender
                          (record { value = m.value; version = m.version }) round.replies
                          o.distinct_replies;
                    gathered = not_below r.config.read_quorum (length round'.replies) enough;
                    no_acks = (o.reading (still_reading round _ t)).1;
                  })
                  says
          ]))

collect-IsAnswer :
    (r : Replica) (sender : NodeId) (m : WriteAck) (o : Option Round)
    → lookup ℤ_discrete m.req r.rounds ≡ o
    → IsValid r
    → IsAnswer r sender (write_ack m) (collect r sender m o)
unfolding collect
collect-IsAnswer r sender m none e v = silent refl
collect-IsAnswer r sender m (some round) e v =
    let o = v.open_rounds m.req round e in
    let round' = with_ack round sender in
    let r' = put_round r round' in
    if-elim (IsAnswer r sender (write_ack m)) _ (r, [])
      (if ltb_ℤ (pos (length round'.acks)) r.config.write_quorum
        then (r', [])
        else finish r' round' true (answer round'))
      (λ _. silent refl)
      (λ t.
        if-elim (IsAnswer r sender (write_ack m)) _ (r', []) (finish r' round' true (answer round'))
          (λ _. silent refl)
          (λ enough.
            from_acks m round (answer round') refl e (still_writing round _ t)
              (same_version (is_reading round.phase) round.version m.version t)
              (finish-Closes r round' (answer round') (rw (o.own_id, e) refl))
              (add-IsDistinct ℤ_discrete sender round.acks o.distinct_acks) (ground arith)
              (answer-IsWriteAnswer round')))

-- What a handler tells clients, from a replica that satisfies its invariant: nothing; or, on a
-- read reply, one success for the round filed under its id, which is in its first phase, on its
-- key, and is now closed, with a read quorum of distinct replies, this one included, behind the
-- newest value or a compare-and-swap that did not match; or, on an acknowledgement, one success
-- for the filed round in its second phase with that stamp, with a write quorum of distinct
-- acknowledgements.
pub on_message-IsAnswer :
    (r : Replica) (sender : NodeId) (m : Message)
    → IsValid r
    → IsAnswer r sender m (on_message r sender m)
unfolding on_message
on_message-IsAnswer r sender (client_request m) v =
    if-elim (IsAnswer r sender (client_request m)) (is_some (lookup ℤ_discrete m.req r.rounds))
      (r, [])
      (
        put_round r (fresh_round sender m),
        broadcast r (read_request (record { req = m.req; key = m.key })) ++ arm r m.req ∷ [],
      )
      (λ _. silent refl)
      (λ _. silent (
        client_replies-broadcast r (read_request (record { req = m.req; key = m.key })) m.req
          (λ to. refl)))
on_message-IsAnswer r sender (client_reply m) v = silent refl
on_message-IsAnswer r sender (read_request m) v = silent refl
on_message-IsAnswer r sender (read_reply m) v =
    gather-IsAnswer r sender m (lookup ℤ_discrete m.req r.rounds) refl v
on_message-IsAnswer r sender (write_request m) v = silent refl
on_message-IsAnswer r sender (write_ack m) v =
    collect-IsAnswer r sender m (lookup ℤ_discrete m.req r.rounds) refl v

pub read_ℤ-timer_tag : (req : ℤ) → read_ℤ (after_colon (timer_tag req)) ≡ some req
unfolding timer_tag after_colon
read_ℤ-timer_tag req = read_ℤ-show_ℤ req

-- When the timer of an open round fires at a replica that satisfies its invariant, the client is
-- told once that the request failed, and the round is closed.
pub on_timer_expires :
    (r : Replica) (req : ℤ) (round : Round)
    → IsValid r
    → lookup ℤ_discrete req r.rounds ≡ some round
    → (s : Step) × (on_timer r (timer_tag req) ≡ some s) × Closes r s round false none
unfolding on_timer
on_timer_expires r req round v e = (
  finish r round false none,
  ground (arith, read_ℤ-timer_tag req),
  record {
    opened = rw ((v.open_rounds req round e).own_id, e) refl;
    closed = ground (arith, lookup-remove ℤ_discrete round.req round.req r.rounds);
    replied = refl;
  },
)

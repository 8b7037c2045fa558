-- ===== src/Kv/Replica/Handlers.antt =====
-- The handlers of a replica, and the invariant of its open rounds.
use cassette.Base.{
  ◌≡◌, refl, Bool, true, false, not, ◌||◌, Option, none, some, [], arith, if◌then◌else◌, if-elim,
  ltb→lt, length, pos, ℤ_discrete, ltb_ℤ, lookup, insert-HasDistinctKeys, add-IsDistinct,
}
use cassette.Kv.Version.{Version, NodeId, Value, lt}
use cassette.Kv.Version.Order.{lt_irrefl, lt_asymm}
use cassette.Kv.Config.{StoreConfig, post_init}
use cassette.Kv.Messages.{
  Message, ClientRequest, ReadReply, WriteRequest, WriteAck, client_request, client_reply,
  read_request, read_reply, write_request, write_ack,
}
use cassette.Kv.Round.{Round, read_phase, write_phase, newest, is_reading}
use cassette.Kv.Replica.{
  Replica, Step, with_reply, with_ack, put_round, stored, on_message, on_client_request,
  on_read_request, on_write_request, on_read_reply, on_write_ack, on_read_quorum, answer_read,
  answer_write, start_writing, gather, collect, mint, finish, answer, on_crash, fresh_round,
}
use cassette.Kv.Replica.Minting.{mint_above_observed, config-mint}
use cassette.Kv.Replica.Valid.{
  HasQuorum, IsOpen, IsValid, IsValidBut, IsValidBut-of_IsValid, put_round-IsValidBut,
  quorums_positive, put_round-IsValid, finish-IsValid, mint-IsValidBut,
}

-- The second phase of a round, with the stamp that it writes.
abbrev writing : Round → Value → Version → Round
writing round result version = record round {
  phase = write_phase;
  result = result;
  version = version;
}

newest-writing :
    (round : Round) (result : Value) (version : Version)
    → newest (writing round result version) ≡ newest round
unfolding newest
newest-writing round result version = refl

writing-IsOpen :
    (c : StoreConfig) (round : Round) (result : Value) (version : Version)
    → post_init c ≡ none
    → HasQuorum c round
    → lt version (newest round).version ≡ false
    → IsOpen c round.req (writing round result version)
writing-IsOpen c round result version accepted q h = record {
  own_id = refl;
  distinct_replies = q.distinct_replies;
  distinct_acks = rw q.no_acks tt;
  reading = λ e. cc;
  writing = λ e. (
    rw q.no_acks (quorums_positive c accepted).1,
    q.gathered,
    rw (newest-writing round result version) h,
  );
}

answer_read-IsValid :
    (r : Replica) (round : Round)
    → IsValidBut round.req r
    → HasQuorum r.config round
    → IsValid (answer_read r round (newest round)).0
unfolding answer_read
answer_read-IsValid r round v q =
    let best = newest round in
    let round' = writing round best.value best.version in
    if-elim (λ (s : Step). IsValid s.0) _ (finish r round true best.value)
      (start_writing r round' best.value) (λ _. finish-IsValid r round true best.value v)
      (λ _. put_round-IsValid r round' v (
        writing-IsOpen r.config round best.value best.version v.accepted q
          (lt_irrefl best.version)))

answer_write-IsValid :
    (r : Replica) (round : Round)
    → IsValidBut round.req r
    → HasQuorum r.config round
    → IsValid (answer_write r round (newest round)).0
unfolding answer_write
answer_write-IsValid r round v q =
    let best = newest round in
    let minted = mint r round.key best.version in
    let round' = writing round round.result minted.0 in
    if-elim (λ (s : Step). IsValid s.0) _ (finish r round true (some (pos 0)))
      (start_writing minted.1 round' round.value)
      (λ _. finish-IsValid r round true (some (pos 0)) v)
      (λ _.
        put_round-IsValid minted.1 round' (mint-IsValidBut r round.key best.version round.req v) (
          rw (config-mint r round.key best.version) (
            writing-IsOpen r.config round round.result minted.0 v.accepted q
              (lt_asymm best.version minted.0 (mint_above_observed r round.key best.version)))))

on_read_quorum-IsValid :
    (r : Replica) (round : Round)
    → IsValidBut round.req r
    → HasQuorum r.config round
    → IsValid (on_read_quorum r round).0
unfolding on_read_quorum
on_read_quorum-IsValid r round v q =
    let best = newest round in
    if-elim (λ (s : Step). IsValid s.0) _ (answer_read r round best) (answer_write r round best)
      (λ _. answer_read-IsValid r round v q) (λ _. answer_write-IsValid r round v q)

pub still_reading :
    (round : Round) (b : Bool)
    → (not (is_reading round.phase) || b) ≡ false
    → round.phase ≡ read_phase
still_reading round b h = ground arith

gather-IsValid :
    (r : Replica) (sender : NodeId) (m : ReadReply) (o : Option Round)
    → lookup ℤ_discrete m.req r.rounds ≡ o
    → IsValid r
    → IsValid (gather r sender m o).0
unfolding gather
gather-IsValid r sender m none e v = v
gather-IsValid r sender m (some round) e v =
    let o = v.open_rounds m.req round e in
    let round' = with_reply round sender m in
    let r' = put_round r round' in
    let but = IsValidBut-of_IsValid round'.req r v in
    let distinct =
      insert-HasDistinctKeys ℤ_discrete sender (record { value = m.value; version = m.version })
        round.replies o.distinct_replies in
    if-elim (λ (s : Step). IsValid s.0) _ (r, [])
      (if ltb_ℤ (pos (length round'.replies)) r.config.read_quorum
        then (r', [])
        else on_read_quorum r' round')
      (λ _. v)
      (λ t.
        let reads = still_reading round _ t in
        if-elim (λ (s : Step). IsValid s.0) _ (r', []) (on_read_quorum r' round')
          (λ few. put_round-IsValid r round' but (record {
            own_id = refl;
            distinct_replies = distinct;
            distinct_acks = o.distinct_acks;
            reading = λ _. (ltb→lt _ _ few, (o.reading reads).1);
            writing = λ w. cc;
          }))
          (λ enough. on_read_quorum-IsValid r' round' (put_round-IsValidBut r round' but) (record {
            distinct_replies = distinct;
            gathered = ground arith;
            no_acks = (o.reading reads).1;
          })))

pub still_writing :
    (round : Round) (b : Bool) → (is_reading round.phase || b) ≡ false → round.phase ≡ write_phase
still_writing round b h = ground arith

newest-with_ack : (round : Round) (sender : NodeId) → newest (with_ack round sender) ≡ newest round
unfolding newest
newest-with_ack round sender = refl

collect-IsValid :
    (r : Replica) (sender : NodeId) (m : WriteAck) (o : Option Round)
    → lookup ℤ_discrete m.req r.rounds ≡ o
    → IsValid r
    → IsValid (collect r sender m o).0
unfolding collect
collect-IsValid r sender m none e v = v
collect-IsValid r sender m (some round) e v =
    let o = v.open_rounds m.req round e in
    let round' = with_ack round sender in
    let r' = put_round r round' in
    let but = IsValidBut-of_IsValid round'.req r v in
    if-elim (λ (s : Step). IsValid s.0) _ (r, [])
      (if ltb_ℤ (pos (length round'.acks)) r.config.write_quorum
        then (r', [])
        else finish r' round' true (answer round'))
      (λ _. v)
      (λ t.
        let writes = still_writing round _ t in
        if-elim (λ (s : Step). IsValid s.0) _ (r', []) (finish r' round' true (answer round'))
          (λ few. put_round-IsValid r round' but (record {
            own_id = refl;
            distinct_replies = o.distinct_replies;
            distinct_acks = add-IsDistinct ℤ_discrete sender round.acks o.distinct_acks;
            reading = λ w. cc;
            writing = λ _. (
              ltb→lt _ _ few,
              (o.writing writes).1,
              rw (newest-with_ack round sender) (o.writing writes).2,
            );
          }))
          (λ enough.
            finish-IsValid r' round' true (answer round') (put_round-IsValidBut r round' but)))

on_client_request-IsValid :
    (r : Replica) (client : NodeId) (m : ClientRequest)
    → IsValid r
    → IsValid (on_client_request r client m).0
unfolding on_client_request
on_client_request-IsValid r client m v =
    let round = fresh_round client m in
    if-elim (λ (s : Step). IsValid s.0) _ (r, []) (put_round r round, _) (λ _. v)
      (λ _. put_round-IsValid r round (IsValidBut-of_IsValid m.req r v) (record {
        own_id = refl;
        distinct_replies = tt;
        distinct_acks = tt;
        reading = λ _. ((quorums_positive r.config v.accepted).0, refl);
        writing = λ w. cc;
      }))

on_write_request-IsValid :
    (r : Replica) (sender : NodeId) (m : WriteRequest)
    → IsValid r
    → IsValid (on_write_request r sender m).0
unfolding on_write_request
on_write_request-IsValid r sender m v =
    if-elim IsValid (lt (stored r m.key).version m.version) _ r
      (λ _. record { accepted = v.accepted; open_rounds = v.open_rounds }) (λ _. v)

-- Every message, from whomever, keeps the invariant of a replica: each open round is filed under
-- its own id, counts each replica once, still waits for the quorum of its phase, and writes a
-- stamp no older than any that its first quorum showed.
pub on_message-IsValid :
    (r : Replica) (sender : NodeId) (m : Message) → IsValid r → IsValid (on_message r sender m).0
unfolding on_message
on_message-IsValid r sender (client_request m) v = on_client_request-IsValid r sender m v
on_message-IsValid r sender (client_reply m) v = v
on_message-IsValid r sender (read_request m) v = unfold on_read_request in v
on_message-IsValid r sender (read_reply m) v =
    unfold on_read_reply in gather-IsValid r sender m (lookup ℤ_discrete m.req r.rounds) refl v
on_message-IsValid r sender (write_request m) v = on_write_request-IsValid r sender m v
on_message-IsValid r sender (write_ack m) v =
    unfold on_write_ack in collect-IsValid r sender m (lookup ℤ_discrete m.req r.rounds) refl v

pub on_crash-IsValid : (r : Replica) → IsValid r → IsValid (on_crash r)
unfolding on_crash lookup
on_crash-IsValid r v = record { accepted = v.accepted; open_rounds = λ k round e. cc }

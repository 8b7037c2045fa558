-- ===== src/Kv/Replica/Timed.antt =====
-- The timers of a replica's rounds: what a handler arms is for a round that is open, and a round
-- that it closes has its timer cancelled.
use cassette.Base.{
  ◌≡◌, refl, ◌≢◌, Bool, true, false, not, ◌&&◌, ◌||◌, Option, none, some, List, [], ◌∷◌, ◌++◌, map,
  arith, if◌then◌else◌, holds, is_some, if-elim, length, All, All-append, ℤ, pos, ℤ_discrete, ltb_ℤ,
  Dict, lookup, lookup-insert, lookup-remove, Text, text_discrete,
}
use cassette.Kv.Version.{Version-discrete, Value-discrete, NodeId, Value, Stored, zero_version}
use cassette.Kv.Config.{replica_ids}
use cassette.Kv.Messages.{
  Message, client_request, client_reply, read_request, read_reply, write_request, write_ack,
  ReadReply, WriteAck,
}
use cassette.Kv.Round.{Round, timer_tag, newest, read_op, cas_op, not_swapped, is_reading}
use cassette.Kv.Replica.{
  Effect, send, set_timer, cancel_timer, Replica, Step, broadcast, arm, finish, answer_read,
  answer_write, on_read_quorum, gather, collect, give_up, with_reply, with_ack, put_round, answer,
  on_message, on_client_request, mint, on_read_request, on_write_request, on_read_reply,
  on_write_ack, start_writing, fresh_round,
}
use cassette.Kv.Replica.Minting.{rounds-mint}

abbrev pub is_open : Replica → ℤ → Bool
is_open r req = is_some (lookup ℤ_discrete req r.rounds)

-- A timer is set for an open round.
abbrev pub IsArmed : Replica → Effect → Type 0
IsArmed r (send to m) = Unit
IsArmed r (set_timer delay_ms tag) = (req : ℤ) × (tag ≡ timer_tag req) × (is_open r req ≡ true)
IsArmed r (cancel_timer tag) = Unit

-- A step closes no round, and arms timers of open ones; or it closes one and cancels its timer.
pub data IsTimed (r : Replica) (s : Step) : Type 0 where
  keeps :
      ((req : ℤ) → is_open r req ≡ true → is_open s.0 req ≡ true)
      → All (IsArmed s.0) s.1
      → IsTimed r s
  closes :
      (req : ℤ) (to : NodeId) (m : Message)
      → s.1 ≡ cancel_timer (timer_tag req) ∷ send to m ∷ []
      → ((other : ℤ) → other ≢ req → is_open r other ≡ true → is_open s.0 other ≡ true)
      → IsTimed r s

is_open-put_round :
    (r : Replica) (round : Round) (req : ℤ)
    → is_open r req ≡ true
    → is_open (put_round r round) req ≡ true
is_open-put_round r round req h =
    ground (arith, lookup-insert ℤ_discrete round.req req round r.rounds)

put_round-opens : (r : Replica) (round : Round) → is_open (put_round r round) round.req ≡ true
put_round-opens r round =
    ground (arith, lookup-insert ℤ_discrete round.req round.req round r.rounds)

sends-IsArmed :
    (r : Replica) (ids : List NodeId) (m : Message)
    → All (IsArmed r) (map (λ peer. send peer m) ids)
sends-IsArmed r [] m = tt
sends-IsArmed r (n ∷ ns) m = (tt, sends-IsArmed r ns m)

asks-IsArmed :
    (r q : Replica) (m : Message) (req : ℤ)
    → is_open q req ≡ true
    → All (IsArmed q) (broadcast r m ++ arm r req ∷ [])
unfolding broadcast
asks-IsArmed r q m req h =
    All-append (IsArmed q) (broadcast r m) _ (sends-IsArmed q (replica_ids r.config) m)
      ((req, refl, h), tt)

-- A round is finished, from a replica where no round of `r` was closed.
finish-IsTimed :
    (r q : Replica) (round : Round) (done : Bool) (value : Value)
    → ((req : ℤ) → is_open r req ≡ true → is_open q req ≡ true)
    → IsTimed r (finish q round done value)
unfolding finish
finish-IsTimed r q round done value kept =
    closes round.req round.client
      (client_reply (record { req = round.req; done = done; value = value })) refl
      (λ other differ h.
        let still = kept other h in
        ground (arith, lookup-remove ℤ_discrete round.req other q.rounds))

start_writing-IsTimed :
    (r q : Replica) (round : Round) (value : Value)
    → ((req : ℤ) → is_open r req ≡ true → is_open q req ≡ true)
    → IsTimed r (start_writing q round value)
start_writing-IsTimed r q round value kept =
    keeps (λ req h. is_open-put_round q round req (kept req h))
      (asks-IsArmed q (put_round q round) _ round.req (put_round-opens q round))

module _ (r q : Replica) (kept : (req : ℤ) → is_open r req ≡ true → is_open q req ≡ true) where
  answer_read-IsTimed : (round : Round) (best : Stored) → IsTimed r (answer_read q round best)
  unfolding answer_read
  answer_read-IsTimed round best =
      if-elim (IsTimed r)
        (not q.config.read_repair || holds (Version-discrete best.version zero_version)) _ _
        (λ _. finish-IsTimed r q round true best.value kept)
        (λ _. start_writing-IsTimed r q _ best.value kept)

  answer_write-IsTimed : (round : Round) (best : Stored) → IsTimed r (answer_write q round best)
  unfolding answer_write
  answer_write-IsTimed round best =
      if-elim (IsTimed r)
        (holds (text_discrete round.op cas_op)
          && not (holds (Value-discrete best.value round.expected)))
        _ _ (λ _. finish-IsTimed r q round true not_swapped kept)
        (λ _.
          start_writing-IsTimed r (mint q round.key best.version).1 _ round.value
            (λ req h. rw (rounds-mint q round.key best.version) (kept req h)))

  on_read_quorum-IsTimed : (round : Round) → IsTimed r (on_read_quorum q round)
  unfolding on_read_quorum
  on_read_quorum-IsTimed round =
      if-elim (IsTimed r) (holds (text_discrete round.op read_op)) _ _
        (λ _. answer_read-IsTimed round (newest round))
        (λ _. answer_write-IsTimed round (newest round))

rests-IsTimed : (r : Replica) → IsTimed r (r, [])
rests-IsTimed r = keeps (λ req h. h) tt

gather-IsTimed :
    (r : Replica) (sender : NodeId) (m : ReadReply) (o : Option Round)
    → IsTimed r (gather r sender m o)
unfolding gather
gather-IsTimed r sender m none = rests-IsTimed r
gather-IsTimed r sender m (some round) =
    if-elim (IsTimed r)
      (not (is_reading round.phase) || not (holds (text_discrete round.key m.key))) (r, []) _
      (λ _. rests-IsTimed r)
      (λ _.
        let round' = with_reply round sender m in
        if-elim (IsTimed r) (ltb_ℤ (pos (length round'.replies)) r.config.read_quorum)
          (put_round r round', []) _ (λ _. keeps (is_open-put_round r round') tt)
          (λ _. on_read_quorum-IsTimed r (put_round r round') (is_open-put_round r round') round'))

collect-IsTimed :
    (r : Replica) (sender : NodeId) (m : WriteAck) (o : Option Round)
    → IsTimed r (collect r sender m o)
unfolding collect
collect-IsTimed r sender m none = rests-IsTimed r
collect-IsTimed r sender m (some round) =
    if-elim (IsTimed r)
      (is_reading round.phase || not (holds (Version-discrete round.version m.version))) (r, []) _
      (λ _. rests-IsTimed r)
      (λ _.
        let round' = with_ack round sender in
        if-elim (IsTimed r) (ltb_ℤ (pos (length round'.acks)) r.config.write_quorum)
          (put_round r round', []) _ (λ _. keeps (is_open-put_round r round') tt)
          (λ _.
            finish-IsTimed r (put_round r round') round' true (answer round')
              (is_open-put_round r round')))

on_write_request-open :
    (r : Replica) (stored_it : Bool) (p q : Dict Text Stored) (req : ℤ)
    → is_open r req ≡ true
    → is_open (if stored_it then record r { store = p } else r) req ≡ true
on_write_request-open r true p q req h = h
on_write_request-open r false p q req h = h

pub on_message-IsTimed :
    (r : Replica) (sender : NodeId) (m : Message) → IsTimed r (on_message r sender m)
unfolding on_message on_client_request on_read_request on_write_request on_read_reply on_write_ack
on_message-IsTimed r sender (client_request m) =
    if-elim (IsTimed r) (is_some (lookup ℤ_discrete m.req r.rounds)) (r, []) _
      (λ _. rests-IsTimed r)
      (λ _.
        let round = fresh_round sender m in
        keeps (is_open-put_round r round)
          (asks-IsArmed r (put_round r round) _ m.req (put_round-opens r round)))
on_message-IsTimed r sender (client_reply m) = rests-IsTimed r
on_message-IsTimed r sender (read_request m) = keeps (λ req h. h) (tt, tt)
on_message-IsTimed r sender (read_reply m) =
    gather-IsTimed r sender m (lookup ℤ_discrete m.req r.rounds)
on_message-IsTimed r sender (write_request m) =
    keeps (λ req h. on_write_request-open r _ _ r.store req h) (tt, tt)
on_message-IsTimed r sender (write_ack m) =
    collect-IsTimed r sender m (lookup ℤ_discrete m.req r.rounds)

pub give_up-IsTimed : (r : Replica) (o : Option Round) → IsTimed r (give_up r o)
give_up-IsTimed r none = rests-IsTimed r
give_up-IsTimed r (some round) = finish-IsTimed r r round false none (λ req h. h)

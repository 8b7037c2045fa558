-- ===== src/Kv/Replica/Replies.antt =====
-- The replies to clients among the calls of a handler, and what an answer has to satisfy.
use cassette.Base.{
  ◌≡◌, refl, ap, ◌∙◌, ◌≢◌, ◌⊎◌, Bool, true, none, List, [], ◌∷◌, ◌++◌, map, is_some, length, ℤ, pos,
  ℤ_discrete, ◌≤ℤ◌, lookup, insert, add, some, IsDistinct,
}
use cassette.Kv.Version.{NodeId, Value}
use cassette.Kv.Messages.{
  Message, ClientReply, ReadReply, WriteAck, client_request, client_reply, read_request, read_reply,
  write_request, write_ack,
}
use cassette.Kv.Round.{
  Round, read_op, cas_op, swapped, not_swapped, read_phase, write_phase, newest,
}
use cassette.Kv.Replica.{
  Replica, Step, Effect, send, set_timer, cancel_timer, arm, start_writing, broadcast,
}
use cassette.Kv.Replica.Valid.{HasQuorum}

-- The replies to clients among the calls of a handler.
abbrev pub client_replies : List Effect → List (NodeId × ClientReply)
client_replies [] = []
client_replies (send to (client_reply m) ∷ es) = (to, m) ∷ client_replies es
client_replies (send to (client_request m) ∷ es) = client_replies es
client_replies (send to (read_request m) ∷ es) = client_replies es
client_replies (send to (read_reply m) ∷ es) = client_replies es
client_replies (send to (write_request m) ∷ es) = client_replies es
client_replies (send to (write_ack m) ∷ es) = client_replies es
client_replies (set_timer d t ∷ es) = client_replies es
client_replies (cancel_timer t ∷ es) = client_replies es

-- The step answers the round, which was open, and closes it.
pub record Closes (r : Replica) (s : Step) (round : Round) (done : Bool) (value : Value)
    : Type 0 where
  pub opened : is_some (lookup ℤ_discrete round.req r.rounds) ≡ true
  pub closed : lookup ℤ_discrete round.req s.0.rounds ≡ none
  pub replied :
      client_replies s.1
      ≡ (round.client, record { req = round.req; done = done; value = value }) ∷ []

-- What a reply out of the first phase may say: a read's newest value, or that a compare-and-swap
-- did not find the value that it expects.
abbrev pub IsReadAnswer : Round → Value → Type 0
IsReadAnswer round value =
    ((round.op ≡ read_op) × (value ≡ (newest round).value))
    ⊎ ((round.op ≡ cas_op) × ((newest round).value ≢ round.expected) × (value ≡ not_swapped))

-- What a reply behind a quorum of acknowledgements says.
abbrev pub IsWriteAnswer : Round → Value → Type 0
IsWriteAnswer round value =
    ((round.op ≡ read_op) × (value ≡ round.result))
    ⊎ ((round.op ≡ cas_op) × (value ≡ swapped))
    ⊎ ((round.op ≢ read_op) × (round.op ≢ cas_op) × (value ≡ none))

-- The round of the message as the replica had filed it, with the reply or the acknowledgement of
-- the sender added.
abbrev pub replied_by : NodeId → ReadReply → Round → Round
replied_by sender m before = record before {
  replies =
      insert ℤ_discrete sender (record { value = m.value; version = m.version }) before.replies;
}

abbrev pub acknowledged_by : NodeId → Round → Round
acknowledged_by sender before = record before { acks = add ℤ_discrete sender before.acks }

pub data IsAnswer (r : Replica) (sender : NodeId) (msg : Message) (s : Step) : Type 0 where
  silent : client_replies s.1 ≡ [] → IsAnswer r sender msg s
  from_reads :
      (m : ReadReply) (before : Round) (value : Value)
      → msg ≡ read_reply m
      → lookup ℤ_discrete m.req r.rounds ≡ some before
      → before.phase ≡ read_phase
      → before.key ≡ m.key
      → Closes r s (replied_by sender m before) true value
      → HasQuorum r.config (replied_by sender m before)
      → IsReadAnswer (replied_by sender m before) value
      → IsAnswer r sender msg s
  from_acks :
      (m : WriteAck) (before : Round) (value : Value)
      → msg ≡ write_ack m
      → lookup ℤ_discrete m.req r.rounds ≡ some before
      → before.phase ≡ write_phase
      → before.version ≡ m.version
      → Closes r s (acknowledged_by sender before) true value
      → IsDistinct ℤ_discrete (acknowledged_by sender before).acks
      → r.config.write_quorum ≤ℤ pos (length (acknowledged_by sender before).acks)
      → IsWriteAnswer before value
      → IsAnswer r sender msg s

client_replies-append :
    (es fs : List Effect) → client_replies (es ++ fs) ≡ client_replies es ++ client_replies fs
client_replies-append [] fs = refl
client_replies-append (send to (client_reply m) ∷ es) fs =
    ap (◌∷◌ (to, m)) (client_replies-append es fs)
client_replies-append (send to (client_request m) ∷ es) fs = client_replies-append es fs
client_replies-append (send to (read_request m) ∷ es) fs = client_replies-append es fs
client_replies-append (send to (read_reply m) ∷ es) fs = client_replies-append es fs
client_replies-append (send to (write_request m) ∷ es) fs = client_replies-append es fs
client_replies-append (send to (write_ack m) ∷ es) fs = client_replies-append es fs
client_replies-append (set_timer d t ∷ es) fs = client_replies-append es fs
client_replies-append (cancel_timer t ∷ es) fs = client_replies-append es fs

abbrev pub IsPeerMessage : Message → Type 0
IsPeerMessage m = (to : NodeId) → client_replies (send to m ∷ []) ≡ []

client_replies-sends :
    (m : Message) (ids : List NodeId)
    → IsPeerMessage m
    → client_replies (map (λ peer. send peer m) ids) ≡ []
client_replies-sends m [] h = refl
client_replies-sends m (n ∷ ids) h =
    client_replies-append (send n m ∷ []) (map (λ peer. send peer m) ids)
    ∙ (rw (h n, client_replies-sends m ids h))

pub client_replies-broadcast :
    (r : Replica) (m : Message) (req : ℤ)
    → IsPeerMessage m
    → client_replies (broadcast r m ++ arm r req ∷ []) ≡ []
unfolding broadcast
client_replies-broadcast r m req h =
    client_replies-append (broadcast r m) (arm r req ∷ []) ∙ (rw (client_replies-sends m _ h))

pub start_writing-silent :
    (r : Replica) (round : Round) (value : Value)
    → client_replies (start_writing r round value).1 ≡ []
start_writing-silent r round value =
    client_replies-broadcast r
      (write_request
        (record { req = round.req; key = round.key; value = value; version = round.version }))
      round.req (λ to. refl)

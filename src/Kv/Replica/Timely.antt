-- ===== src/Kv/Replica/Timely.antt =====
-- The timers that a replica sets.
use cassette.Base.{
  ◌≡◌, refl, ap, ◌∙◌, Bool, true, false, not, ◌&&◌, ◌||◌, Option, none, some, List, [], ◌∷◌, ◌++◌,
  map, holds, is_some, if-elim, length, All, All-append, ℤ, pos, ℤ_discrete, ltb_ℤ, lookup, Text,
  text_discrete, read_ℤ, after_colon,
}
use cassette.Kv.Version.{NodeId, Value, Stored, Version-discrete, Value-discrete, zero_version}
use cassette.Kv.Config.{StoreConfig, replica_ids}
use cassette.Kv.Messages.{
  Message, client_request, client_reply, read_request, read_reply, write_request, write_ack,
  ReadReply, WriteAck,
}
use cassette.Kv.Round.{Round, timer_tag, newest, read_op, cas_op, not_swapped, is_reading}
use cassette.Kv.Replica.{
  Effect, send, set_timer, cancel_timer, Replica, Step, broadcast, arm, finish, answer_read,
  answer_write, on_read_quorum, gather, collect, give_up, with_reply, with_ack, put_round, answer,
  on_message, on_timer, on_client_request, mint, on_read_request, on_write_request, on_read_reply,
  on_write_ack,
}
use cassette.Kv.Replica.Answers.{read_ℤ-timer_tag}
use cassette.Kv.Replica.Minting.{config-mint}
use cassette.Kv.Replica.Valid.{IsValid, finish-IsValid, IsValidBut-of_IsValid}

-- A timer of a replica is set for its timeout, under the tag of a request.
abbrev pub IsTimely : ℤ → Effect → Type 0
IsTimely timeout (send to m) = Unit
IsTimely timeout (set_timer delay_ms tag) =
    (delay_ms ≡ timeout) × ((req : ℤ) × (tag ≡ timer_tag req))
IsTimely timeout (cancel_timer tag) = Unit

broadcast-IsTimely :
    (timeout : ℤ) (ids : List NodeId) (m : Message)
    → All (IsTimely timeout) (map (λ peer. send peer m) ids)
broadcast-IsTimely timeout [] m = tt
broadcast-IsTimely timeout (n ∷ ns) m = (tt, broadcast-IsTimely timeout ns m)

-- A broadcast and the timer of its round.
asks-IsTimely :
    (timeout : ℤ) (r : Replica) (m : Message) (req : ℤ)
    → r.config.request_timeout_ms ≡ timeout
    → All (IsTimely timeout) (broadcast r m ++ arm r req ∷ [])
unfolding broadcast
asks-IsTimely timeout r m req same =
    All-append (IsTimely timeout) (broadcast r m) _
      (broadcast-IsTimely timeout (replica_ids r.config) m) ((same, (req, refl)), tt)

module _ (timeout : ℤ) where
  abbrev Timely : Step → Type 0
  Timely s = All (IsTimely timeout) s.1

  finish-Timely :
      (r : Replica) (round : Round) (done : Bool) (value : Value)
      → Timely (finish r round done value)
  unfolding finish
  finish-Timely r round done value = (tt, (tt, tt))

  answer_read-Timely :
      (r : Replica) (round : Round) (best : Stored)
      → r.config.request_timeout_ms ≡ timeout
      → Timely (answer_read r round best)
  unfolding answer_read
  answer_read-Timely r round best e =
      if-elim Timely
        (not r.config.read_repair || holds (Version-discrete best.version zero_version)) _ _
        (λ _. finish-Timely r round true best.value) (λ _. asks-IsTimely timeout r _ round.req e)

  answer_write-Timely :
      (r : Replica) (round : Round) (best : Stored)
      → r.config.request_timeout_ms ≡ timeout
      → Timely (answer_write r round best)
  unfolding answer_write
  answer_write-Timely r round best e =
      if-elim Timely
        (holds (text_discrete round.op cas_op)
          && not (holds (Value-discrete best.value round.expected)))
        _ _ (λ _. finish-Timely r round true not_swapped)
        (λ _. asks-IsTimely timeout (mint r round.key best.version).1 _ round.req (
          ap (λ (c : StoreConfig). c.request_timeout_ms) (config-mint r round.key best.version)
          ∙ e))

  on_read_quorum-Timely :
      (r : Replica) (round : Round)
      → r.config.request_timeout_ms ≡ timeout
      → Timely (on_read_quorum r round)
  unfolding on_read_quorum
  on_read_quorum-Timely r round e =
      if-elim Timely (holds (text_discrete round.op read_op)) _ _
        (λ _. answer_read-Timely r round (newest round) e)
        (λ _. answer_write-Timely r round (newest round) e)

  gather-Timely :
      (r : Replica) (sender : NodeId) (m : ReadReply) (o : Option Round)
      → r.config.request_timeout_ms ≡ timeout
      → Timely (gather r sender m o)
  unfolding gather
  gather-Timely r sender m none e = tt
  gather-Timely r sender m (some round) e =
      if-elim Timely (not (is_reading round.phase) || not (holds (text_discrete round.key m.key)))
        (r, []) _ (λ _. tt)
        (λ _.
          let round' = with_reply round sender m in
          if-elim Timely (ltb_ℤ (pos (length round'.replies)) r.config.read_quorum)
            (put_round r round', []) _ (λ _. tt)
            (λ _. on_read_quorum-Timely (put_round r round') round' e))

  collect-Timely :
      (r : Replica) (sender : NodeId) (m : WriteAck) (o : Option Round)
      → Timely (collect r sender m o)
  unfolding collect
  collect-Timely r sender m none = tt
  collect-Timely r sender m (some round) =
      if-elim Timely
        (is_reading round.phase || not (holds (Version-discrete round.version m.version))) (r, []) _
        (λ _. tt)
        (λ _.
          let round' = with_ack round sender in
          if-elim Timely (ltb_ℤ (pos (length round'.acks)) r.config.write_quorum)
            (put_round r round', []) _ (λ _. tt)
            (λ _. finish-Timely (put_round r round') round' true (answer round')))

  pub on_message-Timely :
      (r : Replica) (sender : NodeId) (m : Message)
      → r.config.request_timeout_ms ≡ timeout
      → Timely (on_message r sender m)
  unfolding on_message on_client_request on_read_request on_write_request on_read_reply on_write_ack
  on_message-Timely r sender (client_request m) e =
      if-elim Timely (is_some (lookup ℤ_discrete m.req r.rounds)) (r, []) _ (λ _. tt)
        (λ _. asks-IsTimely timeout r _ m.req e)
  on_message-Timely r sender (client_reply m) e = tt
  on_message-Timely r sender (read_request m) e = (tt, tt)
  on_message-Timely r sender (read_reply m) e =
      gather-Timely r sender m (lookup ℤ_discrete m.req r.rounds) e
  on_message-Timely r sender (write_request m) e = (tt, tt)
  on_message-Timely r sender (write_ack m) e =
      collect-Timely r sender m (lookup ℤ_discrete m.req r.rounds)

  pub give_up-Timely : (r : Replica) (o : Option Round) → Timely (give_up r o)
  give_up-Timely r none = tt
  give_up-Timely r (some round) = finish-Timely r round false none

-- The timer of a request ends its round, if it is still open.
pub on_timer-give_up :
    (r : Replica) (tag : Text) (req : ℤ)
    → tag ≡ timer_tag req
    → on_timer r tag ≡ some (give_up r (lookup ℤ_discrete req r.rounds))
unfolding on_timer
on_timer-give_up r tag req same =
    let read : read_ℤ (after_colon tag) ≡ some req = rw same (read_ℤ-timer_tag req) in
    rw (read, on_timer) refl

pub give_up-IsValid : (r : Replica) (o : Option Round) → IsValid r → IsValid (give_up r o).0
give_up-IsValid r none v = v
give_up-IsValid r (some round) v =
    finish-IsValid r round false none (IsValidBut-of_IsValid round.req r v)

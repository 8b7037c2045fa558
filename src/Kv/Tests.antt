-- ===== src/Kv/Tests.antt =====
-- A cluster of five with quorums of three, and a coordinator in the midst of its rounds.
use cassette.Base.{
  ℕ, ◌≡◌, refl, ◌≢◌, true, false, ◌&&◌, none, some, List, [], ◌∷◌, arith, if◌then◌else◌, holds, pos,
  ℤ_discrete, ◌+ℤ◌, lookup, insert, member, HasDistinctKeys, text, text_discrete,
}
use cassette.Kv.Version.{Version, NodeId, Stored, lt, zero_version}
use cassette.Kv.Version.Order.{lt_irrefl}
use cassette.Kv.Config.{default_config, post_init, quorums_overlap, replica_ids}
use cassette.Kv.Quorum.{IsReplicaSet, quorums_meet}
use cassette.Kv.Messages.{Message, WriteRequest, client_request, read_reply, write_request}
use cassette.Kv.Round.{Round, read_op, read_phase, timer_tag, newest}
use cassette.Kv.Round.Sorted.{newest_unordered}
use cassette.Kv.Replica.{
  Replica, Step, init, stored, issued_at, mint, on_message, on_write_request, on_timer,
  on_client_request,
}
use cassette.Kv.Replica.Valid.{IsValid, init-IsValid}
use cassette.Kv.Replica.Handlers.{on_message-IsValid}
use cassette.Kv.Replica.Replies.{IsAnswer, Closes}
use cassette.Kv.Replica.Answers.{on_message-IsAnswer, on_timer_expires}
use cassette.Kv.Replica.Minting.{mint_fresh, IsMinted, mint-IsMinted}
use cassette.Kv.Replica.Durable.{IsForward, on_message-IsForward, stored-on_write_request}

accepted : post_init default_config ≡ none
unfolding post_init
accepted = refl

overlap : quorums_overlap default_config ≡ true
unfolding quorums_overlap ◌+ℤ◌
overlap = refl

abbrev low_three : List NodeId
low_three = pos 0 ∷ pos 1 ∷ pos 2 ∷ []

abbrev high_three : List NodeId
high_three = pos 2 ∷ pos 3 ∷ pos 4 ∷ []

low_three-among :
    (n : NodeId)
    → member ℤ_discrete n low_three ≡ true
    → member ℤ_discrete n (replica_ids default_config) ≡ true
unfolding member replica_ids ◌+ℤ◌
low_three-among n h = ground arith

low_three-IsReplicaSet : IsReplicaSet default_config low_three
unfolding member ℤ_discrete
low_three-IsReplicaSet = record { distinct = (refl, (refl, (refl, tt))); among = low_three-among }

high_three-among :
    (n : NodeId)
    → member ℤ_discrete n high_three ≡ true
    → member ℤ_discrete n (replica_ids default_config) ≡ true
unfolding member replica_ids ◌+ℤ◌
high_three-among n h = ground arith

high_three-IsReplicaSet : IsReplicaSet default_config high_three
unfolding member ℤ_discrete
high_three-IsReplicaSet = record { distinct = (refl, (refl, (refl, tt))); among = high_three-among }

quorums_meet_example :
    (n : NodeId) × (member ℤ_discrete n low_three ≡ true) × (member ℤ_discrete n high_three ≡ true)
quorums_meet_example =
    quorums_meet default_config low_three high_three accepted overlap low_three-IsReplicaSet
      high_three-IsReplicaSet (omega arith) (omega arith)

abbrev stamp : ℕ → ℕ → Version
stamp c n = record { counter = pos c; node = pos n }

abbrev coordinator : Replica
coordinator = init (pos 0) default_config

coordinator-IsValid : IsValid coordinator
coordinator-IsValid = init-IsValid (pos 0) default_config accepted

abbrev read_x : Message
read_x =
    client_request
      (record { req = pos 7; op = read_op; key = text "x"; value = none; expected = none })

-- The coordinator with the round of a read of `x` open, and then with a reply from each of two.
abbrev reading : Replica
reading = (on_message coordinator (pos 5) read_x).0

abbrev reply : ℕ → Message
reply n =
    read_reply (record { req = pos 7; key = text "x"; value = some (pos n); version = stamp n 1 })

abbrev two_replies : Replica
two_replies = (on_message (on_message reading (pos 1) (reply 1)).0 (pos 2) (reply 2)).0

two_replies-IsValid : IsValid two_replies
two_replies-IsValid =
    on_message-IsValid (on_message reading (pos 1) (reply 1)).0 (pos 2) (reply 2) (
      on_message-IsValid reading (pos 1) (reply 1)
        (on_message-IsValid coordinator (pos 5) read_x coordinator-IsValid))

-- The third reply makes the quorum.
on_message-IsValid_example : IsValid (on_message two_replies (pos 3) (reply 3)).0
on_message-IsValid_example = on_message-IsValid two_replies (pos 3) (reply 3) two_replies-IsValid

on_message-IsAnswer_example :
    IsAnswer two_replies (pos 3) (reply 3) (on_message two_replies (pos 3) (reply 3))
on_message-IsAnswer_example = on_message-IsAnswer two_replies (pos 3) (reply 3) two_replies-IsValid

abbrev write_x : WriteRequest
write_x = record { req = pos 8; key = text "x"; value = some (pos 4); version = stamp 4 1 }

on_message-IsForward_example :
    IsForward coordinator (on_message coordinator (pos 1) (write_request write_x)).0
on_message-IsForward_example = on_message-IsForward coordinator (pos 1) (write_request write_x)

stored-on_write_request_example :
    stored (on_write_request coordinator (pos 1) write_x).0 (text "x") ≡ (
      if holds (text_discrete write_x.key (text "x"))
        && lt (stored coordinator write_x.key).version write_x.version
      then record { value = write_x.value; version = write_x.version }
      else stored coordinator (text "x"))
stored-on_write_request_example = stored-on_write_request coordinator (pos 1) write_x (text "x")

abbrev read_round : Round
read_round = record {
  req = pos 7;
  client = pos 5;
  op = read_op;
  key = text "x";
  value = none;
  expected = none;
  phase = read_phase;
  version = zero_version;
  result = none;
  replies = [];
  acks = [];
}

round_open : lookup ℤ_discrete (pos 7) reading.rounds ≡ some read_round
unfolding on_message on_client_request lookup insert ℤ_discrete
round_open = refl

on_timer_expires_example :
    (s : Step) × (on_timer reading (timer_tag (pos 7)) ≡ some s)
    × Closes reading s read_round false none
on_timer_expires_example =
    on_timer_expires reading (pos 7) read_round
      (on_message-IsValid coordinator (pos 5) read_x coordinator-IsValid) round_open

abbrev once_minted : Replica
once_minted = (mint coordinator (text "x") (stamp 3 1)).1

not_back : lt (issued_at once_minted (text "x")) (issued_at once_minted (text "x")) ≡ false
not_back = lt_irrefl (issued_at once_minted (text "x"))

mint_fresh_example :
    (mint coordinator (text "x") (stamp 3 1)).0 ≢ (mint once_minted (text "x") (stamp 3 1)).0
unfolding mint
mint_fresh_example =
    mint_fresh coordinator once_minted (text "x") (stamp 3 1) (stamp 3 1) refl refl not_back

abbrev forgetful : Replica
forgetful = init (pos 0) (record default_config { stable_versions = false })

mint-IsMinted_example :
    IsMinted forgetful
      (text "x")
      (stamp 3 1)
      (mint forgetful (text "x") (stamp 3 1)).0
      (mint forgetful (text "x") (stamp 3 1)).1
mint-IsMinted_example = mint-IsMinted forgetful (text "x") (stamp 3 1)

abbrev held : ℕ → Stored
held n = record { value = some (pos n); version = stamp n 1 }

abbrev gathered : Round
gathered = record read_round { replies = (pos 1, held 1) ∷ (pos 2, held 2) ∷ [] }

abbrev gathered_late : Round
gathered_late = record read_round { replies = (pos 2, held 2) ∷ (pos 1, held 1) ∷ [] }

gathered-HasDistinctKeys : HasDistinctKeys ℤ_discrete gathered.replies
unfolding lookup ℤ_discrete
gathered-HasDistinctKeys = (refl, (refl, tt))

gathered_late-HasDistinctKeys : HasDistinctKeys ℤ_discrete gathered_late.replies
unfolding lookup ℤ_discrete
gathered_late-HasDistinctKeys = (refl, (refl, tt))

same_replies :
    (n : NodeId) → lookup ℤ_discrete n gathered.replies ≡ lookup ℤ_discrete n gathered_late.replies
unfolding lookup
same_replies n = ground arith

newest_unordered_example : newest gathered ≡ newest gathered_late
newest_unordered_example =
    newest_unordered gathered gathered_late gathered-HasDistinctKeys gathered_late-HasDistinctKeys
      same_replies

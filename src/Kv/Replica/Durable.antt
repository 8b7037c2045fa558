-- ===== src/Kv/Replica/Durable.antt =====
-- What a replica has on disk, `_store` and `_issued`, under every handler.
use cassette.Base.{
  ◌≡◌, refl, false, ◌&&◌, Option, none, some, arith, if◌then◌else◌, holds, ℤ_discrete, lookup,
  lookup-insert, Text, text_discrete,
}
use cassette.Kv.Version.{NodeId, lt}
use cassette.Kv.Version.Order.{lt_irrefl, lt_asymm}
use cassette.Kv.Messages.{
  Message, ReadReply, WriteRequest, WriteAck, client_request, client_reply, read_request,
  read_reply, write_request, write_ack,
}
use cassette.Kv.Round.{Round, newest}
use cassette.Kv.Replica.Minting.{store-mint, issued-mint-le}
use cassette.Kv.Replica.{
  Replica, with_reply, put_round, stored, issued_at, on_message, on_client_request,
  on_write_request, on_read_quorum, gather, collect, on_crash,
}

-- Only a write request touches the table.
store-on_read_quorum : (r : Replica) (round : Round) → (on_read_quorum r round).0.store ≡ r.store
unfolding on_read_quorum
store-on_read_quorum r round = ground (arith, store-mint r round.key (newest round).version)

store-gather :
    (r : Replica) (sender : NodeId) (m : ReadReply) (o : Option Round)
    → (gather r sender m o).0.store ≡ r.store
unfolding gather
store-gather r sender m none = refl
store-gather r sender m (some round) =
    let round' = with_reply round sender m in
    ground (arith, store-on_read_quorum (put_round r round') round')

store-collect :
    (r : Replica) (sender : NodeId) (m : WriteAck) (o : Option Round)
    → (collect r sender m o).0.store ≡ r.store
unfolding collect
store-collect r sender m none = refl
store-collect r sender m (some round) = ground arith

-- After a write request the key holds what the request carries when its stamp is newer, and what
-- it held otherwise; no other key changes.
pub stored-on_write_request :
    (r : Replica) (sender : NodeId) (m : WriteRequest) (key : Text)
    → stored (on_write_request r sender m).0 key ≡ (
        if holds (text_discrete m.key key) && lt (stored r m.key).version m.version
        then record { value = m.value; version = m.version }
        else stored r key)
unfolding on_write_request
stored-on_write_request r sender m key = ground (
  arith,
  lookup-insert text_discrete m.key key (record { value = m.value; version = m.version }) r.store,
)

-- Only the start of a write mints.
issued-on_read_quorum :
    (r : Replica) (round : Round) (k : Text)
    → lt (issued_at (on_read_quorum r round).0 k) (issued_at r k) ≡ false
unfolding on_read_quorum
issued-on_read_quorum r round k =
    ground (arith, issued-mint-le r round.key (newest round).version k, lt_irrefl (issued_at r k))

issued-gather :
    (r : Replica) (sender : NodeId) (m : ReadReply) (o : Option Round) (k : Text)
    → lt (issued_at (gather r sender m o).0 k) (issued_at r k) ≡ false
unfolding gather
issued-gather r sender m none k = lt_irrefl (issued_at r k)
issued-gather r sender m (some round) k =
    let round' = with_reply round sender m in
    ground (arith, issued-on_read_quorum (put_round r round') round' k, lt_irrefl (issued_at r k))

issued-collect :
    (r : Replica) (sender : NodeId) (m : WriteAck) (o : Option Round)
    → (collect r sender m o).0.issued ≡ r.issued
unfolding collect
issued-collect r sender m none = refl
issued-collect r sender m (some round) = ground arith

-- The durable state of `later` is that of `r` or newer, key by key.
pub record IsForward (r later : Replica) : Type 0 where
  pub stored_le : (k : Text) → lt (stored later k).version (stored r k).version ≡ false
  pub issued_le : (k : Text) → lt (issued_at later k) (issued_at r k) ≡ false

IsForward-same :
    (r later : Replica) → later.store ≡ r.store → later.issued ≡ r.issued → IsForward r later
IsForward-same r later p q = record {
  stored_le = λ k. rw p (lt_irrefl (stored r k).version);
  issued_le = λ k. rw q (lt_irrefl (issued_at r k));
}

stored-le-on_write_request :
    (r : Replica) (sender : NodeId) (m : WriteRequest) (k : Text)
    → lt (stored (on_write_request r sender m).0 k).version (stored r k).version ≡ false
stored-le-on_write_request r sender m k = ground (
  arith,
  stored-on_write_request r sender m k,
  lt_asymm (stored r k).version m.version,
  lt_irrefl (stored r k).version,
)

-- No message moves a replica back: for every key, neither the stored stamp nor the record of
-- issued stamps becomes smaller.
pub on_message-IsForward :
    (r : Replica) (sender : NodeId) (m : Message) → IsForward r (on_message r sender m).0
unfolding on_message
on_message-IsForward r sender (client_request m) =
    IsForward-same r _ (unfold on_client_request in ground arith)
      (unfold on_client_request in ground arith)
on_message-IsForward r sender (client_reply m) = IsForward-same r r refl refl
on_message-IsForward r sender (read_request m) = IsForward-same r r refl refl
on_message-IsForward r sender (read_reply m) =
    let o = lookup ℤ_discrete m.req r.rounds in
    record {
      stored_le = λ k. rw (store-gather r sender m o) (lt_irrefl (stored r k).version);
      issued_le = λ k. issued-gather r sender m o k;
    }
on_message-IsForward r sender (write_request m) = record {
  stored_le = stored-le-on_write_request r sender m;
  issued_le = λ k. unfold on_write_request in ground (arith, lt_irrefl (issued_at r k));
}
on_message-IsForward r sender (write_ack m) =
    let o = lookup ℤ_discrete m.req r.rounds in
    IsForward-same r _ (store-collect r sender m o) (issued-collect r sender m o)

pub on_crash-IsForward : (r : Replica) → IsForward r (on_crash r)
unfolding on_crash
on_crash-IsForward r = IsForward-same r _ refl refl

-- ===== src/Kv/Replica.antt =====
-- cassette/kv/replica.py: a replica, as a store and as a coordinator. A handler returns the new
-- replica and, in order, the calls that it makes of its environment: no handler reads anything
-- back from `env`.
pub mod Valid
pub mod Handlers
pub mod Replies
pub mod Answers
pub mod Minting
pub mod Durable
pub mod Timely
pub mod Timed
use cassette.Base.{
  ℕ, zero, suc, ◌+◌, ◌-◌, ◌*◌, ◌≤◌, ◌<◌, ◌≡◌, refl, sym, ap, subst, ◌∙◌, ◌≢◌, ◌↔◌, ◌⊎◌, inl, inr,
  ite, dite, if_pos, if_neg, Bool, true, false, not, ◌&&◌, ◌||◌, Option, none, some, List, [], ◌∷◌,
  ◌++◌, map, arith, ltb, leb, ◌==◌, if◌then◌else◌, holds, is_some, Bool-cases, Option-cases,
  if-elim, holds→, length, get_elem?, set, take, drop, any, all, keep, length-append,
  length-keep-le, length-map, All, All-append, ℤ, pos, negsuc, ℤ_discrete, pos_part, neg_part,
  sub_ℕ, ◌+ℤ◌, ◌-ℤ◌, ◌≤ℤ◌, ◌<ℤ◌, ltb_ℤ, leb_ℤ, max_ℤ, +ℤ_parts, -ℤ_parts, eq_of_parts, int_laws,
  range_from, range, Dict, lookup, insert, remove, lookup-insert, lookup-remove, length-insert,
  member, add, discard, member-add, member-discard, HasDistinctKeys, insert-HasDistinctKeys,
  remove-HasDistinctKeys, IsDistinct, add-IsDistinct, length-discard-le, length-discard,
  length-le_of_subset, Text, text, text_discrete, leb_text, show_ℕ, show_ℤ, read_ℤ, read_ℤ-show_ℤ,
  after_colon,
}
use cassette.Kv.Version.{
  Version, NodeId, Value, Stored, zero_version, absent, lt, newer, next_from, Version-discrete,
  Value-discrete,
}
use cassette.Kv.Round.{
  Round, read_phase, write_phase, read_op, cas_op, swapped, not_swapped, timer_tag, newest,
  is_reading,
}
use cassette.Kv.Config.{StoreConfig, replica_ids}
use cassette.Kv.Messages.{
  Message, ClientRequest, ReadRequest, ReadReply, WriteRequest, WriteAck, client_request,
  client_reply, read_request, read_reply, write_request, write_ack,
}

-- The calls of `Env` that change something.
pub data Effect : Type 0 where
  send : NodeId → Message → Effect
  set_timer : ℤ → Text → Effect
  cancel_timer : Text → Effect

pub record Replica : Type 0 where
  pub node_id : NodeId
  pub config : StoreConfig
  pub store : Dict Text Stored
  pub issued : Dict Text Version
  pub rounds : Dict ℤ Round

-- `__init__`
abbrev pub init : NodeId → StoreConfig → Replica
init n c = record { node_id = n; config = c; store = []; issued = []; rounds = [] }

abbrev pub get_or {ℓ} : {A : Type ℓ} → Option A → A → A
get_or none d = d
get_or (some a) d = a

abbrev pub stored : Replica → Text → Stored
stored r key = get_or (lookup text_discrete key r.store) absent

abbrev pub issued_at : Replica → Text → Version
issued_at r key = get_or (lookup text_discrete key r.issued) zero_version

abbrev pub Step : Type 0
Step = Replica × List Effect

-- A round is one object, shared by the dict and the handler: a change is written back.
abbrev pub put_round : Replica → Round → Replica
put_round r round = record r { rounds = insert ℤ_discrete round.req round r.rounds }

unfoldable pub on_read_request : Replica → NodeId → ReadRequest → Step
on_read_request r sender m =
    let held = stored r m.key in
    (
      r,
      send sender (
            read_reply
              (record { req = m.req; key = m.key; value = held.value; version = held.version }))
          ∷ [],
    )

unfoldable pub on_write_request : Replica → NodeId → WriteRequest → Step
on_write_request r sender m = (
  (if lt (stored r m.key).version m.version
      then record r {
        store =
            insert text_discrete m.key (record { value = m.value; version = m.version }) r.store;
      }
      else r),
  send sender (write_ack (record { req = m.req; key = m.key; version = m.version })) ∷ [],
)

unfoldable pub broadcast : Replica → Message → List Effect
broadcast r m = map (λ peer. send peer m) (replica_ids r.config)

abbrev pub fresh_round : NodeId → ClientRequest → Round
fresh_round client m = record {
  req = m.req;
  client = client;
  op = m.op;
  key = m.key;
  value = m.value;
  expected = m.expected;
  phase = read_phase;
  version = zero_version;
  result = none;
  replies = [];
  acks = [];
}

abbrev pub arm : Replica → ℤ → Effect
arm r req = set_timer r.config.request_timeout_ms (timer_tag req)

unfoldable pub on_client_request : Replica → NodeId → ClientRequest → Step
unfolding broadcast
on_client_request r client m = if is_some (lookup ℤ_discrete m.req r.rounds) then (r, []) else (
  put_round r (fresh_round client m),
  broadcast r (read_request (record { req = m.req; key = m.key })) ++ arm r m.req ∷ [],
)

-- `del` finds its key: a round is filed under its own id.
unfoldable pub finish : Replica → Round → Bool → Value → Step
finish r round done value = (
  record r { rounds = remove ℤ_discrete round.req r.rounds },
  cancel_timer (timer_tag round.req)
      ∷ send round.client (client_reply (record { req = round.req; done = done; value = value }))
      ∷ [],
)

unfoldable pub mint : Replica → Text → Version → Version × Replica
mint r key observed =
    if not r.config.stable_versions
    then (next_from observed r.node_id, r)
    else let minted = next_from (newer observed (issued_at r key)) r.node_id in
      (minted, record r { issued = insert text_discrete key minted r.issued })

-- The second phase of a round: it is written back, and its write goes to every replica.
abbrev pub start_writing : Replica → Round → Value → Step
start_writing r round value = (
  put_round r round,
  broadcast r (
        write_request
          (record { req = round.req; key = round.key; value = value; version = round.version }))
      ++ arm r round.req ∷ [],
)

-- The two ways on from the first quorum, for a read and for the other operations.
pub answer_read : Replica → Round → Stored → Step
unfolding finish
answer_read r round best =
    if not r.config.read_repair || holds (Version-discrete best.version zero_version)
    then finish r round true best.value
    else start_writing r
        (record round { phase = write_phase; result = best.value; version = best.version })
        best.value

pub answer_write : Replica → Round → Stored → Step
unfolding finish
answer_write r round best =
    if holds (text_discrete round.op cas_op)
      && not (holds (Value-discrete best.value round.expected))
    then finish r round true not_swapped
    else let (minted, r') = mint r round.key best.version in
      start_writing r' (record round { phase = write_phase; version = minted }) round.value

unfoldable pub on_read_quorum : Replica → Round → Step
unfolding answer_read answer_write
on_read_quorum r round =
    if holds (text_discrete round.op read_op)
    then answer_read r round (newest round)
    else answer_write r round (newest round)

abbrev pub with_reply : Round → NodeId → ReadReply → Round
with_reply round sender m = record round {
  replies =
      insert ℤ_discrete sender (record { value = m.value; version = m.version }) round.replies;
}

abbrev pub with_ack : Round → NodeId → Round
with_ack round sender = record round { acks = add ℤ_discrete sender round.acks }

pub gather : Replica → NodeId → ReadReply → Option Round → Step
gather r sender m none = (r, [])
gather r sender m (some round) =
    if not (is_reading round.phase) || not (holds (text_discrete round.key m.key))
    then (r, [])
    else let round' = with_reply round sender m in
      let r' = put_round r round' in
      if ltb_ℤ (pos (length round'.replies)) r.config.read_quorum
      then (r', [])
      else on_read_quorum r' round'

unfoldable pub on_read_reply : Replica → NodeId → ReadReply → Step
unfolding gather
on_read_reply r sender m = gather r sender m (lookup ℤ_discrete m.req r.rounds)

unfoldable pub answer : Round → Value
answer round =
    ite (text_discrete round.op read_op) round.result
      (ite (text_discrete round.op cas_op) swapped none)

pub collect : Replica → NodeId → WriteAck → Option Round → Step
unfolding finish
collect r sender m none = (r, [])
collect r sender m (some round) =
    if is_reading round.phase || not (holds (Version-discrete round.version m.version))
    then (r, [])
    else let round' = with_ack round sender in
      let r' = put_round r round' in
      if ltb_ℤ (pos (length round'.acks)) r.config.write_quorum
      then (r', [])
      else finish r' round' true (answer round')

unfoldable pub on_write_ack : Replica → NodeId → WriteAck → Step
unfolding collect
on_write_ack r sender m = collect r sender m (lookup ℤ_discrete m.req r.rounds)

unfoldable pub on_message : Replica → NodeId → Message → Step
unfolding on_client_request on_read_request on_write_request on_read_reply on_write_ack
on_message r sender (client_request m) = on_client_request r sender m
on_message r sender (read_request m) = on_read_request r sender m
on_message r sender (write_request m) = on_write_request r sender m
on_message r sender (read_reply m) = on_read_reply r sender m
on_message r sender (write_ack m) = on_write_ack r sender m
on_message r sender (client_reply m) = (r, [])

abbrev pub give_up : Replica → Option Round → Step
give_up r none = (r, [])
give_up r (some round) = finish r round false none

-- `none` is the `ValueError` of `int(raw)`.
unfoldable pub on_timer : Replica → Text → Option Step
unfolding finish
on_timer r tag = elim (read_ℤ (after_colon tag)) [
  | none ↦ none
  | some req ↦ some (give_up r (lookup ℤ_discrete req r.rounds))
]

unfoldable pub on_crash : Replica → Replica
on_crash r = record r { rounds = [] }

unfoldable pub on_restart : Replica → Step
on_restart r = (r, [])

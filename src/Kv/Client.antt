-- ===== src/Kv/Client.antt =====
-- cassette/kv/client.py: a client that works off a plan, one operation at a time, and records
-- each in the history, which it shares with the others. `none` is an `IndexError`.
pub mod Settling
pub mod Steady
mod Tests
use cassette.Base.{
  ℕ, zero, suc, ◌+◌, ◌-◌, ◌*◌, ◌≤◌, ◌<◌, ◌≡◌, refl, sym, ap, subst, ◌∙◌, ◌≢◌, ◌↔◌, ◌⊎◌, inl, inr,
  ite, dite, if_pos, if_neg, Bool, true, false, not, ◌&&◌, ◌||◌, Option, none, some, List, [], ◌∷◌,
  ◌++◌, map, arith, ltb, leb, ◌==◌, if◌then◌else◌, holds, is_some, Bool-cases, Option-cases,
  if-elim, holds→, ltb→lt, length, get_elem?, set, take, drop, any, all, keep, length-append,
  length-keep-le, length-map, All, All-append, In, In-keep, In_of_keep, keep-ext, all-ext,
  all_of_In, In_of_all, not_of_any, any_of_none, length-keep_mono, length-keep-lt, In-map,
  In_of_map, ℕ_discrete, ℤ, pos, negsuc, ℤ_discrete, pos_part, neg_part, sub_ℕ, ◌+ℤ◌, ◌-ℤ◌, ◌≤ℤ◌,
  ◌<ℤ◌, ltb_ℤ, leb_ℤ, max_ℤ, +ℤ_parts, -ℤ_parts, eq_of_parts, int_laws, range_from, range, Dict,
  lookup, insert, remove, lookup-insert, lookup-remove, length-insert, member, add, discard,
  member-add, member-discard, HasDistinctKeys, insert-HasDistinctKeys, remove-HasDistinctKeys,
  IsDistinct, add-IsDistinct, length-discard-le, length-discard, length-le_of_subset, Text, text,
  text_discrete, leb_text, show_ℕ, show_ℤ, read_ℤ, read_ℤ-show_ℤ, after_colon,
}
use cassette.Kv.Version.{NodeId, Value}
use cassette.Kv.Messages.{
  Message, ClientReply, client_request, client_reply, read_request, read_reply, write_request,
  write_ack,
}
use cassette.Kv.Replica.{Effect, send, set_timer, cancel_timer}
use cassette.Checker.History.{History, invoke, complete, give_up, read_kind, cas_kind}

abbrev pub next_timer : Text
next_timer = text "next"

abbrev pub patience_timer : Text
patience_timer = text "patience"

pub record PlannedOp : Type 0 where
  pub kind : Text
  pub key : Text
  pub argument : Value
  pub expected : Value
  pub coordinator : NodeId
  pub delay_ms : ℤ

pub record Client : Type 0 where
  pub node_id : NodeId
  pub plan : List PlannedOp
  pub patience_ms : ℤ
  pub index : ℕ
  pub req : ℤ
  pub outstanding : Option (ℤ × ℕ)

-- `__init__`, with `node_id * 1_000_000` given.
abbrev pub init : NodeId → ℤ → List PlannedOp → ℤ → Client
init node_id first_req plan patience_ms = record {
  node_id = node_id;
  plan = plan;
  patience_ms = patience_ms;
  index = 0;
  req = first_req;
  outstanding = none;
}

unfoldable pub finished : Client → Bool
finished c = leb (length c.plan) c.index && not (is_some c.outstanding)

unfoldable pub arm : Client → List Effect
arm c = elim (get_elem? c.plan c.index) [
  | none ↦ []
  | some planned ↦ set_timer planned.delay_ms next_timer ∷ []
]

abbrev pub start : Client → List Effect
start c = arm c

-- A client, the history and the calls that it makes.
abbrev pub Outcome : Type 0
Outcome = Client × History × List Effect

-- The client after it has sent the planned operation with the next id, entered as `entry`.
abbrev pub sent : Client → ℕ → Client
sent c entry = record c { req = c.req +ℤ pos 1; outstanding = some (c.req +ℤ pos 1, entry) }

unfoldable pub issue : ℤ → Client → History → Option Outcome
issue now c h = elim (get_elem? c.plan c.index) [
  | none ↦ none
  | some planned ↦
      let (later, entry) =
        invoke c.node_id planned.kind planned.key now planned.argument planned.expected h in
      some (
        sent c entry,
        later,
        send planned.coordinator (
              client_request (record {
                req = c.req +ℤ pos 1;
                op = planned.kind;
                key = planned.key;
                value = planned.argument;
                expected = planned.expected;
              }))
            ∷ set_timer c.patience_ms patience_timer
            ∷ [],
      )
]

-- `_result`
unfoldable pub result : PlannedOp → ClientReply → Value
result planned reply =
    if holds (text_discrete planned.kind cas_kind) || holds (text_discrete planned.kind read_kind)
    then reply.value
    else none

-- What is written in the history: only a reply that says so completes the operation.
abbrev pub enter : ℤ → ℕ → PlannedOp → Option ClientReply → History → Option History
enter now entry planned none h = give_up entry h
enter now entry planned (some reply) h =
    if reply.done then complete entry now (result planned reply) h else give_up entry h

-- The client without its operation, at the next of its plan.
abbrev pub settled : Client → Client
settled c = record c { index = suc c.index; outstanding = none }

abbrev pub settle_entry : ℤ → ℕ → Option ClientReply → Client → History → Option Outcome
settle_entry now entry reply c h = elim (get_elem? c.plan c.index) [
  | none ↦ none
  | some planned ↦ elim (enter now entry planned reply h) [
    | none ↦ none
    | some later ↦ some (settled c, later, cancel_timer patience_timer ∷ arm (settled c))
  ]
]

abbrev pub settle_from : Option (ℤ × ℕ) → ℤ → Option ClientReply → Client → History → Option Outcome
settle_from none now reply c h = some (c, h, [])
settle_from (some (req, entry)) now reply c h = settle_entry now entry reply c h

unfoldable pub settle : ℤ → Option ClientReply → Client → History → Option Outcome
settle now reply c h = settle_from c.outstanding now reply c h

-- Whether the reply is to the operation that the client waits for.
abbrev pub awaits : Option (ℤ × ℕ) → ℤ → Bool
awaits none req = false
awaits (some (mine, entry)) req = holds (ℤ_discrete req mine)

unfoldable pub on_message : ℤ → NodeId → Message → Client → History → Option Outcome
on_message now sender (client_reply m) c h =
    if awaits c.outstanding m.req then settle now (some m) c h else some (c, h, [])
on_message now sender (client_request m) c h = some (c, h, [])
on_message now sender (read_request m) c h = some (c, h, [])
on_message now sender (read_reply m) c h = some (c, h, [])
on_message now sender (write_request m) c h = some (c, h, [])
on_message now sender (write_ack m) c h = some (c, h, [])

unfoldable pub on_timer : ℤ → Text → Client → History → Option Outcome
on_timer now tag c h =
    if holds (text_discrete tag next_timer)
    then issue now c h
    else if holds (text_discrete tag patience_timer)
    then settle now none c h
    else some (c, h, [])

-- ===== src/Kv/Messages.antt =====
-- cassette/kv/messages.py: the payloads on the wire, and their trace form.
use cassette.Base.{Bool, none, some, List, [], ◌∷◌, ℤ, Text, text}
use cassette.Kv.Version
use cassette.Kv.Version.{Version, Value}

pub record ClientRequest : Type 0 where
  pub req : ℤ
  pub op : Text
  pub key : Text
  pub value : Value
  pub expected : Value

pub record ClientReply : Type 0 where
  pub req : ℤ
  pub done : Bool
  pub value : Value

pub record ReadRequest : Type 0 where
  pub req : ℤ
  pub key : Text

pub record ReadReply : Type 0 where
  pub req : ℤ
  pub key : Text
  pub value : Value
  pub version : Version

pub record WriteRequest : Type 0 where
  pub req : ℤ
  pub key : Text
  pub value : Value
  pub version : Version

pub record WriteAck : Type 0 where
  pub req : ℤ
  pub key : Text
  pub version : Version

pub data Message : Type 0 where
  client_request : ClientRequest → Message
  client_reply : ClientReply → Message
  read_request : ReadRequest → Message
  read_reply : ReadReply → Message
  write_request : WriteRequest → Message
  write_ack : WriteAck → Message

-- `KIND` of each class.
unfoldable pub kind : Message → Text
kind (client_request m) = text "client_request"
kind (client_reply m) = text "client_reply"
kind (read_request m) = text "read_request"
kind (read_reply m) = text "read_reply"
kind (write_request m) = text "write_request"
kind (write_ack m) = text "write_ack"

-- What a field of a message is rendered as: the values that `_jsonify` lets through, and the list
-- form of a version.
pub data Field : Type 0 where
  null : Field
  int : ℤ → Field
  bool : Bool → Field
  str : Text → Field
  ints : List ℤ → Field

abbrev of_value : Value → Field
of_value none = null
of_value (some n) = int n

abbrev of_version : Version → Field
of_version v = ints (Version.to_json v)

-- `to_json`: every field under its name, in the order of declaration, the inherited class first.
unfoldable pub to_json : Message → List (Text × Field)
unfolding Version.to_json
to_json (client_request m) =
    (text "req", int m.req)
    ∷ (text "op", str m.op)
    ∷ (text "key", str m.key)
    ∷ (text "value", of_value m.value)
    ∷ (text "expected", of_value m.expected)
    ∷ []
to_json (client_reply m) =
    (text "req", int m.req) ∷ (text "ok", bool m.done) ∷ (text "value", of_value m.value) ∷ []
to_json (read_request m) = (text "req", int m.req) ∷ (text "key", str m.key) ∷ []
to_json (read_reply m) =
    (text "req", int m.req)
    ∷ (text "key", str m.key)
    ∷ (text "value", of_value m.value)
    ∷ (text "version", of_version m.version)
    ∷ []
to_json (write_request m) =
    (text "req", int m.req)
    ∷ (text "key", str m.key)
    ∷ (text "value", of_value m.value)
    ∷ (text "version", of_version m.version)
    ∷ []
to_json (write_ack m) =
    (text "req", int m.req) ∷ (text "key", str m.key) ∷ (text "version", of_version m.version) ∷ []

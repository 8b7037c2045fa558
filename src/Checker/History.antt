-- ===== src/Checker/History.antt =====
-- cassette/checker/history.py: operations with the times at which they were invoked and came back.
pub mod Indexed
pub mod Keys
use cassette.Base.{
  ℕ, Bool, true, false, not, ◌&&◌, Option, none, some, List, [], ◌∷◌, ◌++◌, if◌then◌else◌, holds,
  length, get_elem?, set, keep, ℤ, negsuc, ℤ_discrete, ltb_ℤ, Dict, lookup, insert, Text, text,
  text_discrete, leb_text,
}
use cassette.Kv.Version.{NodeId, Value}

abbrev pub read_kind : Text
read_kind = text "read"

abbrev pub write_kind : Text
write_kind = text "write"

abbrev pub cas_kind : Text
cas_kind = text "cas"

-- `OK` and `UNKNOWN`.
pub data Outcome : Type 0 where
  ok unknown : Outcome

-- `NEVER`, the return stamp of an operation that never came back.
abbrev pub never : ℤ
never = negsuc 0

pub record Operation : Type 0 where
  pub index : ℕ
  pub client : NodeId
  pub kind : Text
  pub key : Text
  pub argument : Value
  pub expected : Value
  pub invoked_ms : ℤ
  pub returned_ms : ℤ
  pub outcome : Outcome
  pub result : Value

abbrev is_ok : Outcome → Bool
is_ok ok = true
is_ok unknown = false

abbrev pub completed : Operation → Bool
completed op = is_ok op.outcome

unfoldable pub bounded : Operation → Bool
bounded op = completed op && not (holds (ℤ_discrete op.returned_ms never))

unfoldable pub precedes : Operation → Operation → Bool
unfolding bounded
precedes op other = bounded op && ltb_ℤ op.returned_ms other.invoked_ms

-- `History`: its operations, in invocation order.
abbrev pub History : Type 0
History = List Operation

-- The history with the new operation, and its index.
unfoldable pub invoke : NodeId → Text → Text → ℤ → Value → Value → History → History × ℕ
invoke client kind key at_ms argument expected h = (
  h
      ++ record {
        index = length h;
        client = client;
        kind = kind;
        key = key;
        argument = argument;
        expected = expected;
        invoked_ms = at_ms;
        returned_ms = never;
        outcome = unknown;
        result = none;
      }
        ∷ [],
  length h,
)

-- `none` is the `IndexError` of `self._operations[index]`.
update : ℕ → (Operation → Operation) → History → Option History
update i f h = elim (get_elem? h i) [ none ↦ none | some op ↦ some (set h i (f op)) ]

unfoldable pub complete : ℕ → ℤ → Value → History → Option History
unfolding update
complete i at_ms result =
    update i (λ op. record op { returned_ms = at_ms; outcome = ok; result = result })

unfoldable pub give_up : ℕ → History → Option History
unfolding update
give_up i = update i (λ op. record op { outcome = unknown })

unfoldable pub completed_operations : History → List Operation
completed_operations = keep completed

-- `grouped.setdefault(op.key, []).append(op)`
abbrev append_to : Option (List Operation) → Operation → List Operation
append_to none op = op ∷ []
append_to (some ops) op = ops ++ op ∷ []

pub group : Dict Text (List Operation) → List Operation → Dict Text (List Operation)
group d [] = d
group d (op ∷ ops) =
    group (insert text_discrete op.key (append_to (lookup text_discrete op.key d) op) d) ops

-- `{key: grouped[key] for key in sorted(grouped)}`; the keys of a dict are distinct.
pub insert_by_key : Text × List Operation → Dict Text (List Operation) → Dict Text (List Operation)
insert_by_key e [] = e ∷ []
insert_by_key e (f ∷ d) =
    let rest = insert_by_key e d in if leb_text e.0 f.0 then e ∷ f ∷ d else f ∷ rest

pub sort_by_key : Dict Text (List Operation) → Dict Text (List Operation)
unfolding insert_by_key
sort_by_key [] = []
sort_by_key (e ∷ d) = insert_by_key e (sort_by_key d)

unfoldable pub by_key : History → Dict Text (List Operation)
unfolding group sort_by_key
by_key h = sort_by_key (group [] h)

-- ===== src/Checker/Model.antt =====
-- cassette/checker/model.py: one key is one register.
use cassette.Base.{Bool, not, ◌||◌, Option, none, some, if◌then◌else◌, holds, pos, text_discrete}
use cassette.Kv.Version.{Value, Value-discrete}
use cassette.Checker.History.{Operation, completed, read_kind, write_kind, cas_kind}

abbrev pub swapped : Value
swapped = some (pos 1)

abbrev pub not_swapped : Value
not_swapped = some (pos 0)

-- What a register holds before anybody writes to it.
abbrev pub absent : Value
absent = none

-- The new state, and what the operation should have returned; `none` is the `ValueError` of an
-- unknown kind.
unfoldable pub apply : Value → Operation → Option (Value × Value)
apply state op =
    if holds (text_discrete op.kind read_kind)
    then some (state, state)
    else if holds (text_discrete op.kind write_kind)
    then some (op.argument, none)
    else if holds (text_discrete op.kind cas_kind)
    then (if holds (Value-discrete state op.expected)
        then some (op.argument, swapped)
        else some (state, not_swapped))
    else none

unfoldable pub matches : Operation → Value → Bool
matches op produced =
    not (completed op)
    || holds (text_discrete op.kind write_kind)
    || holds (Value-discrete produced op.result)

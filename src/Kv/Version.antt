-- ===== src/Kv/Version.antt =====
-- cassette/kv/version.py: version stamps, their order, and what a replica keeps for one key.
pub mod Order
use cassette.Base.{
  ℕ, ◌+◌, ◌≤◌, ◌<◌, ◌≡◌, ◌≢◌, refl, ◌⊎◌, inl, inr, Bool, true, false, Option, none, some, List, [],
  ◌∷◌, arith, ℤ, pos, negsuc, ℤ_discrete, ◌+ℤ◌, ◌≤ℤ◌, ◌<ℤ◌, ltb_ℤ, int_laws, eq_of_parts,
  if◌then◌else◌, pos_part, neg_part,
}

abbrev pub NodeId : Type 0
NodeId = ℤ

abbrev pub Value : Type 0
Value = Option ℤ

pub record Version : Type 0 where
  pub counter : ℤ
  pub node : NodeId

-- `ZERO`, the defaults of the class.
abbrev pub zero_version : Version
zero_version = record { counter = pos 0; node = negsuc 0 }

unfoldable pub Version-discrete : Discrete Version
unfolding ℤ_discrete
Version-discrete = hlevel ℤ_discrete

unfoldable pub Value-discrete : Discrete Value
unfolding ℤ_discrete
Value-discrete = hlevel ℤ_discrete

-- `a < b`, which `order=True` compares as the tuples `(counter, node)`.
unfoldable pub lt : Version → Version → Bool
lt a b =
    if ltb_ℤ a.counter b.counter
    then true
    else if ltb_ℤ b.counter a.counter
    then false
    else ltb_ℤ a.node b.node

unfoldable pub next_from : Version → NodeId → Version
next_from v n = record { counter = v.counter +ℤ pos 1; node = n }

-- `max(a, b)`: the first of two that are equal.
unfoldable pub newer : Version → Version → Version
newer a b = if lt a b then b else a

unfoldable pub to_json : Version → List ℤ
to_json v = v.counter ∷ v.node ∷ []

-- The unpacking raises `ValueError`, here `none`, unless there are two elements.
unfoldable pub from_json : List ℤ → Option Version
from_json (c ∷ n ∷ []) = some (record { counter = c; node = n })
from_json _ = none

pub record Stored : Type 0 where
  pub value : Value
  pub version : Version

-- `ABSENT`, the defaults of the class.
abbrev pub absent : Stored
absent = record { value = none; version = zero_version }

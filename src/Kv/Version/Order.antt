-- ===== src/Kv/Version/Order.antt =====
-- The order of the stamps of cassette/kv/version.py.
use cassette.Base.{◌≡◌, refl, true, false, some, arith, pos, +ℤ_parts, eq_of_parts}
use cassette.Kv.Version.{Version, NodeId, lt, next_from, newer, to_json, from_json}

pub lt_irrefl : (a : Version) → lt a a ≡ false
unfolding lt
lt_irrefl a = ground arith

-- The order of the stamps is transitive.
pub lt_trans : (a b c : Version) → lt a b ≡ true → lt b c ≡ true → lt a c ≡ true
unfolding lt
lt_trans a b c h k = ground arith

pub lt_asymm : (a b : Version) → lt a b ≡ true → lt b a ≡ false
unfolding lt
lt_asymm a b h = ground arith

-- Of two stamps of which neither is smaller, both are the same stamp.
lt_total : (a b : Version) → lt a b ≡ false → lt b a ≡ false → a ≡ b
unfolding lt
lt_total a b h k = ground (arith, eq_of_parts a.counter b.counter, eq_of_parts a.node b.node)

pub lt-next_from : (v : Version) (n : NodeId) → lt v (next_from v n) ≡ true
unfolding lt next_from
lt-next_from v n = ground (arith, +ℤ_parts v.counter (pos 1))

-- Not smaller, transitively.
pub le_trans : (a b c : Version) → lt b a ≡ false → lt c b ≡ false → lt c a ≡ false
unfolding lt
le_trans a b c h k = ground arith

pub le-lt_trans : (a b c : Version) → lt b a ≡ false → lt b c ≡ true → lt a c ≡ true
unfolding lt
le-lt_trans a b c h k = ground arith

pub lt-newer : (a b : Version) → (lt (newer a b) a ≡ false) × (lt (newer a b) b ≡ false)
unfolding newer lt
lt-newer a b = ground arith

-- The trace form reads back.
pub from_json-to_json : (v : Version) → from_json (to_json v) ≡ some v
unfolding from_json to_json
from_json-to_json v = refl

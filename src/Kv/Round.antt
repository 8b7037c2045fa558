-- ===== src/Kv/Round.antt =====
-- cassette/kv/replica.py: `Round`, the state of one client request under coordination, and the
-- constants of the protocol.
pub mod Newest
pub mod Sorted
use cassette.Base.{
  Bool, true, false, some, List, [], ◌∷◌, ◌++◌, if◌then◌else◌, ℤ, pos, ltb_ℤ, Dict, Text, text,
  show_ℤ,
}
use cassette.Kv.Version.{Version, NodeId, Value, Stored, absent, lt}

abbrev pub read_op : Text
read_op = text "read"

abbrev pub cas_op : Text
cas_op = text "cas"

abbrev pub swapped : Value
swapped = some (pos 1)

abbrev pub not_swapped : Value
not_swapped = some (pos 0)

pub data Phase : Type 0 where
  read_phase write_phase : Phase

unfoldable pub timer_tag : ℤ → Text
timer_tag req = text "round:" ++ show_ℤ req

abbrev pub is_reading : Phase → Bool
is_reading read_phase = true
is_reading write_phase = false

pub record Round : Type 0 where
  pub req : ℤ
  pub client : NodeId
  pub op : Text
  pub key : Text
  pub value : Value
  pub expected : Value
  pub phase : Phase
  pub version : Version
  pub result : Value
  pub replies : Dict NodeId Stored
  pub acks : List NodeId

-- `sorted(self.replies.items())`: the node ids are distinct, so the pairs go by them.
pub insert_by_node : NodeId × Stored → Dict NodeId Stored → Dict NodeId Stored
insert_by_node e [] = e ∷ []
insert_by_node e (f ∷ d) =
    let rest = insert_by_node e d in if ltb_ℤ f.0 e.0 then f ∷ rest else e ∷ f ∷ d

unfoldable pub sort_by_node : Dict NodeId Stored → Dict NodeId Stored
unfolding insert_by_node
sort_by_node [] = []
sort_by_node (e ∷ d) = insert_by_node e (sort_by_node d)

-- `max` by version goes on with the first of equals.
pub max_from : Stored → Dict NodeId Stored → Stored
max_from best [] = best
max_from best ((n, held) ∷ d) = max_from (if lt best.version held.version then held else best) d

abbrev pub max_held : Dict NodeId Stored → Stored
max_held [] = absent
max_held ((n, held) ∷ d) = max_from held d

unfoldable pub newest : Round → Stored
unfolding sort_by_node max_from lt
newest r = max_held (sort_by_node r.replies)

-- ===== src/Kv/Config.antt =====
-- cassette/kv/config.py: the shape of the cluster and its quorum rule.
use cassette.Base.{
  Bool, true, not, ◌&&◌, Option, none, some, List, if◌then◌else◌, ℤ, pos, ◌+ℤ◌, ltb_ℤ, leb_ℤ, range,
  Text, text,
}

pub record StoreConfig : Type 0 where
  pub replicas : ℤ
  pub read_quorum : ℤ
  pub write_quorum : ℤ
  pub request_timeout_ms : ℤ
  pub stable_versions : Bool
  pub read_repair : Bool

abbrev pub default_config : StoreConfig
default_config = record {
  replicas = pos 5;
  read_quorum = pos 3;
  write_quorum = pos 3;
  request_timeout_ms = pos 400;
  stable_versions = true;
  read_repair = true;
}

-- The `ValueError`s of the constructor.
pub data ConfigError : Type 0 where
  no_replicas : ℤ → ConfigError
  impossible_quorum : Text → ℤ → ℤ → ConfigError
  bad_timeout : ℤ → ConfigError

-- `not 1 <= size <= self.replicas`
abbrev out_of_range : ℤ → ℤ → Bool
out_of_range size replicas = not (leb_ℤ (pos 1) size && leb_ℤ size replicas)

-- `__post_init__`; `none` is a configuration that is accepted.
unfoldable pub post_init : StoreConfig → Option ConfigError
post_init c =
    if ltb_ℤ c.replicas (pos 1)
    then some (no_replicas c.replicas)
    else if out_of_range c.read_quorum c.replicas
    then some (impossible_quorum (text "read_quorum") c.read_quorum c.replicas)
    else if out_of_range c.write_quorum c.replicas
    then some (impossible_quorum (text "write_quorum") c.write_quorum c.replicas)
    else if leb_ℤ c.request_timeout_ms (pos 0)
    then some (bad_timeout c.request_timeout_ms)
    else none

unfoldable pub quorums_overlap : StoreConfig → Bool
quorums_overlap c = ltb_ℤ c.replicas (c.read_quorum +ℤ c.write_quorum)

unfoldable pub replica_ids : StoreConfig → List ℤ
replica_ids c = range c.replicas

unfoldable pub faithful : StoreConfig → Bool
faithful c = c.stable_versions && c.read_repair

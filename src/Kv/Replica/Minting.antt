-- ===== src/Kv/Replica/Minting.antt =====
-- `_mint` of cassette/kv/replica.py: the stamps that it gives, and what it remembers of them.
use cassette.Base.{
  ◌≡◌, ◌≢◌, ◌⊎◌, inl, inr, true, false, arith, if◌then◌else◌, holds, Bool-cases, lookup-insert,
  Text, text_discrete,
}
use cassette.Kv.Version.{Version, lt, newer, next_from}
use cassette.Kv.Version.Order.{lt_asymm, lt_irrefl, lt-newer, lt-next_from, le-lt_trans}
use cassette.Kv.Replica.{Replica, issued_at, mint}

module _ (r : Replica) (key : Text) (observed : Version) where
  pub mint_above_observed : lt observed (mint r key observed).0 ≡ true
  unfolding mint
  mint_above_observed = ground (
    arith,
    lt-next_from observed r.node_id,
    le-lt_trans observed (newer observed (issued_at r key))
        (next_from (newer observed (issued_at r key)) r.node_id),
    lt-newer observed (issued_at r key),
    lt-next_from (newer observed (issued_at r key)) r.node_id,
  )

  pub mint_above_issued :
      r.config.stable_versions ≡ true → lt (issued_at r key) (mint r key observed).0 ≡ true
  unfolding mint
  mint_above_issued h = ground (
    arith,
    le-lt_trans (issued_at r key) (newer observed (issued_at r key))
        (next_from (newer observed (issued_at r key)) r.node_id),
    lt-newer observed (issued_at r key),
    lt-next_from (newer observed (issued_at r key)) r.node_id,
  )

  pub node-mint : (mint r key observed).0.node ≡ r.node_id
  unfolding mint next_from
  node-mint = ground arith

  pub config-mint : (mint r key observed).1.config ≡ r.config
  unfolding mint
  config-mint = ground arith

  pub node_id-mint : (mint r key observed).1.node_id ≡ r.node_id
  unfolding mint
  node_id-mint = ground arith

  pub store-mint : (mint r key observed).1.store ≡ r.store
  unfolding mint
  store-mint = ground arith

  pub rounds-mint : (mint r key observed).1.rounds ≡ r.rounds
  unfolding mint
  rounds-mint = ground arith

  pub issued-mint :
      (k : Text)
      → r.config.stable_versions ≡ true
      → issued_at (mint r key observed).1 k
        ≡ (if holds (text_discrete key k) then (mint r key observed).0 else issued_at r k)
  unfolding mint
  issued-mint k h = ground (
    arith,
    lookup-insert text_discrete key k (next_from (newer observed (issued_at r key)) r.node_id)
        r.issued,
  )

-- The record of issued stamps never moves back, whether a stamp is remembered or not.
pub issued-mint-le :
    (r : Replica) (key : Text) (observed : Version) (k : Text)
    → lt (issued_at (mint r key observed).1 k) (issued_at r k) ≡ false
issued-mint-le r key observed k = elim (Bool-cases r.config.stable_versions) [
  | inl stable ↦ ground (
    arith,
    issued-mint r key observed k stable,
    mint_above_issued r key observed stable,
    lt_asymm (issued_at r key) (mint r key observed).0,
    lt_irrefl (issued_at r k),
  )
  | inr unstable ↦ unfold mint in rw unstable (lt_irrefl (issued_at r k))
]

-- With `stable_versions`, a stamp that was minted for a key is not minted for it again, as long as
-- the record of issued stamps for the key has not moved back since, whatever the two quorums had
-- observed.
pub mint_fresh :
    (r later : Replica) (key : Text) (a b : Version)
    → r.config.stable_versions ≡ true
    → later.config.stable_versions ≡ true
    → lt (issued_at later key) (issued_at (mint r key a).1 key) ≡ false
    → (mint r key a).0 ≢ (mint later key b).0
mint_fresh r later key a b h k forward = λ e. ground (
  arith,
  issued-mint r key a key h,
  mint_above_issued later key b k,
  le-lt_trans (issued_at (mint r key a).1 key) (issued_at later key) (mint later key b).0,
  lt_irrefl (mint r key a).0,
)

-- What minting comes to, with or without `stable_versions`.
pub record IsMinted (r : Replica) (key : Text) (observed minted : Version) (later : Replica)
    : Type 0 where
  pub newer_than_observed : lt observed minted ≡ true
  pub own : minted.node ≡ r.node_id
  pub remembered :
      (r.config.stable_versions ≡ false)
      ⊎ ((issued_at later key ≡ minted) × (lt (issued_at r key) minted ≡ true))
  pub forward : (k : Text) → lt (issued_at later k) (issued_at r k) ≡ false
  pub store : later.store ≡ r.store
  pub rounds : later.rounds ≡ r.rounds

-- With and without `stable_versions`, a minted stamp is newer than what the quorum observed and
-- carries the replica's own id; no record of an issued stamp moves back, and the store and the
-- rounds stay. With `stable_versions` the stamp is newer than what had been issued for the key,
-- and is what is now recorded for it.
pub mint-IsMinted :
    (r : Replica) (key : Text) (observed : Version)
    → IsMinted r key observed (mint r key observed).0 (mint r key observed).1
mint-IsMinted r key observed = record {
  newer_than_observed = mint_above_observed r key observed;
  own = node-mint r key observed;
  remembered = elim (Bool-cases r.config.stable_versions) [
    | inl stable ↦ inr (
      ground (arith, issued-mint r key observed key stable),
      mint_above_issued r key observed stable,
    )
    | inr unstable ↦ inl unstable
  ];
  forward = issued-mint-le r key observed;
  store = store-mint r key observed;
  rounds = rounds-mint r key observed;
}

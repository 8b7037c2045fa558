-- ===== src/Kv/Replica/Valid.antt =====
-- The invariant of a replica's open rounds, and the updates that keep it.
use cassette.Base.{
  ◌≡◌, subst, ◌≢◌, Bool, false, none, some, [], arith, length, ℤ, pos, ℤ_discrete, ◌≤ℤ◌, ◌<ℤ◌,
  lookup, lookup-insert, lookup-remove, HasDistinctKeys, IsDistinct, Text,
}
use cassette.Kv.Version.{Version, NodeId, Value, lt}
use cassette.Kv.Config.{StoreConfig, post_init}
use cassette.Kv.Round.{Round, read_phase, write_phase, newest}
use cassette.Kv.Replica.{Replica, put_round, mint, finish, init}
use cassette.Kv.Replica.Minting.{config-mint, rounds-mint}

-- A round that has its first quorum, and is about to answer or to write.
pub record HasQuorum (c : StoreConfig) (round : Round) : Type 0 where
  pub distinct_replies : HasDistinctKeys ℤ_discrete round.replies
  pub gathered : c.read_quorum ≤ℤ pos (length round.replies)
  pub no_acks : round.acks ≡ []

-- A round filed under `k`: it has its own id, counts each replica once, waits for its first quorum
-- or for its second, and writes a stamp that is no older than any reply of the first.
pub record IsOpen (c : StoreConfig) (k : ℤ) (round : Round) : Type 0 where
  pub own_id : round.req ≡ k
  pub distinct_replies : HasDistinctKeys ℤ_discrete round.replies
  pub distinct_acks : IsDistinct ℤ_discrete round.acks
  pub reading :
      round.phase ≡ read_phase → (pos (length round.replies) <ℤ c.read_quorum) × (round.acks ≡ [])
  pub writing :
      round.phase ≡ write_phase
      → (pos (length round.acks) <ℤ c.write_quorum)
        × (c.read_quorum ≤ℤ pos (length round.replies))
        × (lt round.version (newest round).version ≡ false)

pub record IsValid (r : Replica) : Type 0 where
  pub accepted : post_init r.config ≡ none
  pub open_rounds :
      (k : ℤ) (round : Round) → lookup ℤ_discrete k r.rounds ≡ some round → IsOpen r.config k round

-- The same, but for what is filed under one id, which a handler is about to change.
pub record IsValidBut (k : ℤ) (r : Replica) : Type 0 where
  pub accepted : post_init r.config ≡ none
  pub open_rounds :
      (j : ℤ) (round : Round)
      → k ≢ j
      → lookup ℤ_discrete j r.rounds ≡ some round
      → IsOpen r.config j round

pub IsValidBut-of_IsValid : (k : ℤ) (r : Replica) → IsValid r → IsValidBut k r
IsValidBut-of_IsValid k r v = record {
  accepted = v.accepted;
  open_rounds = λ j round _ e. v.open_rounds j round e;
}

pub put_round-IsValidBut :
    (r : Replica) (round : Round)
    → IsValidBut round.req r
    → IsValidBut round.req (put_round r round)
put_round-IsValidBut r round v = record {
  accepted = v.accepted;
  open_rounds = λ j s ne e.
      v.open_rounds j s ne (ground (arith, lookup-insert ℤ_discrete round.req j round r.rounds));
}

pub quorums_positive :
    (c : StoreConfig) → post_init c ≡ none → (pos 0 <ℤ c.read_quorum) × (pos 0 <ℤ c.write_quorum)
unfolding post_init
quorums_positive c h = ground arith

pub init-IsValid : (n : NodeId) (c : StoreConfig) → post_init c ≡ none → IsValid (init n c)
unfolding lookup
init-IsValid n c h = record { accepted = h; open_rounds = λ k round e. cc }

pub put_round-IsValid :
    (r : Replica) (round : Round)
    → IsValidBut round.req r
    → IsOpen r.config round.req round
    → IsValid (put_round r round)
put_round-IsValid r round v o = record {
  accepted = v.accepted;
  open_rounds = λ k s e. elim (ℤ_discrete round.req k) [
    | yes p ↦
        let q : some round ≡ some s =
          ground (arith, lookup-insert ℤ_discrete round.req k round r.rounds) in
        let q' : round ≡ s = cc in
        subst (λ x. IsOpen r.config k x) q' (subst (λ x. IsOpen r.config x round) p o)
    | no p ↦
        v.open_rounds k s p (ground (arith, lookup-insert ℤ_discrete round.req k round r.rounds))
  ];
}

pub finish-IsValid :
    (r : Replica) (round : Round) (done : Bool) (value : Value)
    → IsValidBut round.req r
    → IsValid (finish r round done value).0
unfolding finish
finish-IsValid r round done value v = record {
  accepted = v.accepted;
  open_rounds = λ k s e. elim (ℤ_discrete round.req k) [
    | yes p ↦ absurd (ground (arith, lookup-remove ℤ_discrete round.req k r.rounds))
    | no p ↦ v.open_rounds k s p (ground (arith, lookup-remove ℤ_discrete round.req k r.rounds))
  ];
}

pub mint-IsValidBut :
    (r : Replica) (key : Text) (observed : Version) (k : ℤ)
    → IsValidBut k r
    → IsValidBut k (mint r key observed).1
mint-IsValidBut r key observed k v = record {
  accepted = rw (config-mint r key observed) v.accepted;
  open_rounds = rw (config-mint r key observed, rounds-mint r key observed) v.open_rounds;
}

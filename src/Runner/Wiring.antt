-- ===== src/Runner/Wiring.antt =====
-- The nodes of a scenario: the replicas and the clients by their ids.
use cassette.Base.{
  ℕ, zero, suc, ◌≡◌, refl, ap, subst, ◌≢◌, false, none, some, List, [], ◌∷◌, arith, length, All, ℤ,
  pos, ℤ_discrete, pos_part, neg_part, ◌+ℤ◌, ◌≤ℤ◌, ◌<ℤ◌, +ℤ_parts, range_from, Dict, lookup,
}
use cassette.Kv.Version.{NodeId}
use cassette.Kv.Config.{StoreConfig, post_init}
use cassette.Kv.Client
use cassette.Kv.Client.{Client, PlannedOp}
use cassette.Kv.Replica
use cassette.Kv.Replica.{Replica}
use cassette.Kv.Replica.Valid
use cassette.Kv.Replica.Valid.{init-IsValid}
use cassette.Runner.{first_req, replicas_of, clients_of}
use cassette.Runner.Invariant.{IsCluster}

-- A plan asks for no delay that is negative.
abbrev pub IsPlan : List PlannedOp → Type 0
IsPlan plan = All (λ (p : PlannedOp). pos 0 ≤ℤ p.delay_ms) plan

-- A client before it starts.
pub record IsFresh (patience_ms : ℤ) (n : NodeId) (c : Client) : Type 0 where
  pub own : c.node_id ≡ n
  pub patience : c.patience_ms ≡ patience_ms
  pub unhurried : IsPlan c.plan
  pub idle : c.outstanding ≡ none

replica_of_store :
    (store : StoreConfig) (a : ℤ) (k : ℕ) (n : NodeId) (r : Replica)
    → post_init store ≡ none
    → lookup ℤ_discrete n (replicas_of store (range_from a k)) ≡ some r
    → Valid.IsValid r
unfolding replicas_of lookup
replica_of_store store a zero n r h p = absurd (ground arith)
replica_of_store store a (suc k) n r h p = elim (ℤ_discrete a n) [
  | yes same ↦
      let q : some (Replica.init a store) ≡ some r = ground arith in
      let q' : Replica.init a store ≡ r = cc in subst Valid.IsValid q' (init-IsValid a store h)
  | no differ ↦ replica_of_store store (a +ℤ pos 1) k n r h (ground arith)
]

-- No replica has an id behind the range of the ids.
pub no_replica_above :
    (store : StoreConfig) (a : ℤ) (k : ℕ) (n : NodeId)
    → a +ℤ pos k ≤ℤ n
    → lookup ℤ_discrete n (replicas_of store (range_from a k)) ≡ none
unfolding replicas_of lookup
no_replica_above store a zero n h = refl
no_replica_above store a (suc k) n h =
    let s = +ℤ_parts a (pos (suc k)) in
    let one = +ℤ_parts a (pos 1) in
    let t = +ℤ_parts (a +ℤ pos 1) (pos k) in
    let differ : a ≢ n = λ e. omega (arith, h, s, ap pos_part e, ap neg_part e) in
    let rest = no_replica_above store (a +ℤ pos 1) k n (omega (arith, h, s, one, t)) in ground arith

All-weaken :
    {A : Type 0} (P Q : A → Type 0) (xs : List A) → ((x : A) → P x → Q x) → All P xs → All Q xs
All-weaken P Q [] f h = tt
All-weaken P Q (x ∷ xs) f h = (f x h.0, All-weaken P Q xs f h.1)

-- An entry of the clients: it is fresh, has an id of the range, and is the one under its id.
pub record IsWired (patience_ms a : ℤ) (k : ℕ) (d : Dict NodeId Client) (e : NodeId × Client)
    : Type 0 where
  pub fresh : IsFresh patience_ms e.0 e.1
  pub from : a ≤ℤ e.0
  pub below : e.0 <ℤ a +ℤ pos k
  pub filed : lookup ℤ_discrete e.0 d ≡ some e.1

pub All-fresh :
    (patience_ms a : ℤ) (k : ℕ) (d ds : Dict NodeId Client)
    → All (IsWired patience_ms a k d) ds
    → All (λ (e : NodeId × Client). IsFresh patience_ms e.0 e.1) ds
All-fresh patience_ms a k d ds = All-weaken _ _ ds (λ e w. w.fresh)

IsWired-behind :
    (patience_ms a : ℤ) (k : ℕ) (c : Client) (d : Dict NodeId Client) (e : NodeId × Client)
    → IsWired patience_ms (a +ℤ pos 1) k d e
    → IsWired patience_ms a (suc k) ((a, c) ∷ d) e
unfolding lookup
IsWired-behind patience_ms a k c d e w =
    let one = +ℤ_parts a (pos 1) in
    let differ : a ≢ e.0 = λ q. omega (arith, w.from, one, ap pos_part q, ap neg_part q) in
    let known = w.filed in
    record {
      fresh = w.fresh;
      from = omega (arith, w.from, one);
      below = omega (arith, w.below, one, +ℤ_parts (a +ℤ pos 1) (pos k), +ℤ_parts a (pos (suc k)));
      filed = ground arith;
    }

pub clients_of_lem :
    (patience_ms a : ℤ) (plans : List (List PlannedOp))
    → All IsPlan plans
    → (d : Dict NodeId Client) × (clients_of patience_ms (range_from a (length plans)) plans
        ≡ some d)
      × All (IsWired patience_ms a (length plans) d) d
unfolding clients_of lookup
clients_of_lem patience_ms a [] h = ([], refl, tt)
clients_of_lem patience_ms a (plan ∷ plans) h =
    let (d, e, w) = clients_of_lem patience_ms (a +ℤ pos 1) plans h.1 in
    let c = Client.init a (first_req a) plan patience_ms in
    let k = length plans in
    (
      (a, c) ∷ d,
      rw (e, clients_of) refl,
      (
        record {
          fresh = record { own = refl; patience = refl; unhurried = h.0; idle = refl };
          from = omega arith;
          below = omega (arith, +ℤ_parts a (pos (suc k)));
          filed = ground arith;
        },
        All-weaken _ _ d (IsWired-behind patience_ms a k c d) w,
      ),
    )

-- Whoever is found among fresh clients is fresh.
pub found_fresh :
    (patience_ms : ℤ) (d : Dict NodeId Client) (n : NodeId) (c : Client)
    → All (λ (e : NodeId × Client). IsFresh patience_ms e.0 e.1) d
    → lookup ℤ_discrete n d ≡ some c
    → IsFresh patience_ms n c
unfolding lookup
found_fresh patience_ms [] n c h p = absurd (ground arith)
found_fresh patience_ms ((m, b) ∷ d) n c h p = elim (ℤ_discrete m n) [
  | yes same ↦
      let q : some b ≡ some c = ground arith in
      let q' : b ≡ c = cc in
      subst (IsFresh patience_ms n) q' (subst (λ k. IsFresh patience_ms k b) same h.0)
  | no differ ↦ found_fresh patience_ms d n c h.1 (ground arith)
]

-- Before a node has started, the invariant holds.
pub wired-IsCluster :
    (store : StoreConfig) (patience_ms : ℤ) (k : ℕ) (clients : Dict NodeId Client)
    → post_init store ≡ none
    → pos 0 ≤ℤ patience_ms
    → All (λ (e : NodeId × Client). IsFresh patience_ms e.0 e.1) clients
    → IsCluster
        (λ n t. false)
        (record {
          replicas = replicas_of store (range_from (pos 0) k);
          clients = clients;
          history = [];
        })
wired-IsCluster store patience_ms k clients h patient fresh = record {
  replicas = λ n r p. replica_of_store store (pos 0) k n r h p;
  tags = λ n r tag p q. absurd (ground arith);
  clients = λ n c p q.
      let f = found_fresh patience_ms clients n c fresh q in
      record {
        own = f.own;
        patient = rw f.patience patient;
        unhurried = f.unhurried;
        next = λ on. absurd (ground arith);
        waits = λ req entry w. absurd (ground (arith, f.idle));
      };
  indexed = tt;
}

-- ===== src/Runner/Invariant.antt =====
-- The invariant of the store's nodes and of the history that their clients share, as the engine
-- asks for it.
use cassette.Base.{
  ℕ, get_elem?, ◌≡◌, refl, sym, ap, subst, ◌∙◌, ◌≢◌, ◌⊎◌, inl, inr, Bool, true, Option, none, some,
  List, [], map, arith, Option-cases, All, ℤ, pos, ℤ_discrete, ◌≤ℤ◌, Dict, lookup, insert,
  lookup-insert, Text,
}
use cassette.Checker.History.{Operation, History}
use cassette.Checker.History.Indexed.{IsIndexed}
use cassette.Kv.Version.{NodeId}
use cassette.Kv.Config.{StoreConfig, post_init}
use cassette.Kv.Client
use cassette.Kv.Client.{Client, Outcome, next_timer}
use cassette.Kv.Client.Steady
use cassette.Kv.Client.Steady.{IsSteady, IsTurn, Turns, next_armed}
use cassette.Kv.Replica
use cassette.Kv.Replica.{Replica, Step}
use cassette.Kv.Replica.Handlers.{on_message-IsValid, on_crash-IsValid}
use cassette.Kv.Replica.Timely.{
  IsTimely, on_message-Timely, give_up-Timely, on_timer-give_up, give_up-IsValid,
}
use cassette.Kv.Replica.Timed.{is_open, IsTimed, keeps, on_message-IsTimed, give_up-IsTimed}
use cassette.Kv.Replica.Valid
use cassette.Kv.Round.{timer_tag}
use cassette.Runner.{Cluster, call, replica_turn, client_turn, turn, crash, cluster}
use cassette.Runner.Calls.{
  after_calls-other, after_calls-timed, IsPatient-of_timely, disarm-next, after_calls-next,
  IsPatient-of_client,
}
use cassette.Sim.Simulation.Calls.{after_calls}
use cassette.Sim.Simulation.Laws.{Armed, silence, Handles, Laws}
use cassette.Sim.Simulation.Timers.{disarm}

-- Every replica is valid and has no timer but those of its open rounds; every client is steady; the
-- entries of the history are numbered by their places.
pub record IsCluster (on : Armed) (c : Cluster) : Type 0 where
  pub replicas :
      (n : NodeId) (r : Replica) → lookup ℤ_discrete n c.replicas ≡ some r → Valid.IsValid r
  pub tags :
      (n : NodeId) (r : Replica) (tag : Text)
      → lookup ℤ_discrete n c.replicas ≡ some r
      → on n tag ≡ true
      → (req : ℤ) × (tag ≡ timer_tag req) × (is_open r req ≡ true)
  pub clients :
      (n : NodeId) (client : Client)
      → lookup ℤ_discrete n c.replicas ≡ none
      → lookup ℤ_discrete n c.clients ≡ some client
      → IsSteady n (on n next_timer) client c.history
  pub indexed : IsIndexed 0 c.history

IsSteady-of_less :
    (n : NodeId) (on on' : Bool) (c : Client) (h h' : History)
    → (on' ≡ true → on ≡ true)
    → ((i : ℕ) (op : Operation)
        → get_elem? h i ≡ some op
        → op.client ≡ n
        → get_elem? h' i ≡ some op)
    → IsSteady n on c h
    → IsSteady n on' c h'
IsSteady-of_less n on on' c h h' less kept s = record {
  own = s.own;
  patient = s.patient;
  unhurried = s.unhurried;
  next = λ p. s.next (less p);
  waits = λ req entry p.
      let (inside, op, entered, mine, nothing_known) = s.waits req entry p in
      (inside, op, kept entry op entered mine, mine, nothing_known);
}

-- With fewer timers armed, as before.
cluster_of_less :
    (on on' : Armed) (c : Cluster)
    → ((n : NodeId) (tag : Text) → on' n tag ≡ true → on n tag ≡ true)
    → IsCluster on c
    → IsCluster on' c
cluster_of_less on on' c less i = record {
  replicas = i.replicas;
  tags = λ n r tag e p. i.tags n r tag e (less n tag p);
  clients = λ n client e f.
      IsSteady-of_less n (on n next_timer) (on' n next_timer) client c.history c.history
        (less n next_timer) (λ i op p q. p) (i.clients n client e f);
  indexed = i.indexed;
}

disarm-less :
    (node : NodeId) (tag : Text) (on : Armed) (n : NodeId) (t : Text)
    → disarm node tag on n t ≡ true
    → on n t ≡ true
disarm-less node tag on n t p = ground arith

silence-less :
    (node : NodeId) (on : Armed) (n : NodeId) (t : Text)
    → silence node on n t ≡ true
    → on n t ≡ true
silence-less node on n t p = ground arith

pub timeout_of_accepted : (c : StoreConfig) → post_init c ≡ none → pos 0 ≤ℤ c.request_timeout_ms
unfolding post_init
timeout_of_accepted c h = ground arith

timeout_positive : (r : Replica) → Valid.IsValid r → pos 0 ≤ℤ r.config.request_timeout_ms
timeout_positive r v = timeout_of_accepted r.config v.accepted

-- What is looked up behind a change of one entry.
changed :
    {V : Type 0} (n m : NodeId) (v w : V) (d : Dict NodeId V)
    → lookup ℤ_discrete m (insert ℤ_discrete n v d) ≡ some w
    → ((n ≡ m) × (v ≡ w)) ⊎ ((n ≢ m) × (lookup ℤ_discrete m d ≡ some w))
changed n m v w d p =
    let here = lookup-insert ℤ_discrete n m v d in
    elim (ℤ_discrete n m) [
      | yes same ↦ inl (same, let q : some v ≡ some w = ground arith in cc)
      | no differ ↦ inr (differ, ground arith)
    ]

not_changed :
    {V : Type 0} (n m : NodeId) (v : V) (d : Dict NodeId V)
    → lookup ℤ_discrete m (insert ℤ_discrete n v d) ≡ none
    → (n ≢ m) × (lookup ℤ_discrete m d ≡ none)
not_changed n m v d p = ground (arith, lookup-insert ℤ_discrete n m v d)

-- A turn of a replica.
replica_turn_lem :
    (on : Armed) (c : Cluster) (n : NodeId) (r r' : Replica) (calls : List Replica.Effect)
    → IsCluster on c
    → lookup ℤ_discrete n c.replicas ≡ some r
    → Valid.IsValid r'
    → All (IsTimely r.config.request_timeout_ms) calls
    → IsTimed r (r', calls)
    → Handles IsCluster n on (replica_turn n c (some (r', calls)))
replica_turn_lem on c n r r' calls i e v t timed = (
  record c { replicas = insert ℤ_discrete n r' c.replicas },
  map call calls,
  refl,
  IsPatient-of_timely r.config.request_timeout_ms calls (timeout_positive r (i.replicas n r e)) t,
  record {
    replicas = λ m q f. elim (changed n m r' q c.replicas f) [
      | inl (same, own) ↦ subst Valid.IsValid own v
      | inr (differ, before) ↦ i.replicas m q before
    ];
    tags = λ m q tag f p. elim (changed n m r' q c.replicas f) [
      | inl (same, own) ↦
          subst (λ x. (req : ℤ) × (tag ≡ timer_tag req) × (is_open x req ≡ true)) own
            (after_calls-timed r (r', calls) n on timed (λ t. i.tags n r t e) tag
              (ap (λ k. after_calls n (map call calls) on k tag) same ∙ p))
      | inr (differ, before) ↦
          i.tags m q tag before (sym (after_calls-other n m (map call calls) on tag differ) ∙ p)
    ];
    clients = λ m client f g.
        let (differ, before) = not_changed n m r' c.replicas f in
        IsSteady-of_less m (on m next_timer) _ client c.history c.history
          (λ p. sym (after_calls-other n m (map call calls) on next_timer differ) ∙ p)
          (λ i op p q. p) (i.clients m client before g);
    indexed = i.indexed;
  },
)

-- A turn of a client.
client_turn_lem :
    (on : Armed) (c : Cluster) (n : NodeId) (client : Client) (out : Option Outcome)
    → IsCluster on c
    → lookup ℤ_discrete n c.replicas ≡ none
    → Turns n (on n next_timer) c.history out
    → Handles IsCluster n on (client_turn n c out)
client_turn_lem on c n client out i e (client', h', calls, f, t) = (
  record c { clients = insert ℤ_discrete n client' c.clients; history = h' },
  map call calls,
  rw f refl,
  IsPatient-of_client calls t.patient,
  record {
    replicas = i.replicas;
    tags = λ m q tag g p. elim (ℤ_discrete n m) [
      | yes same ↦ absurd (ground (arith, ap (λ k. lookup ℤ_discrete k c.replicas) same))
      | no differ ↦
          i.tags m q tag g (sym (after_calls-other n m (map call calls) on tag differ) ∙ p)
    ];
    clients = λ m q g k. elim (changed n m client' q c.clients k) [
      | inl (same, own) ↦
          subst (λ b. IsSteady m b q h')
            (sym (after_calls-next n calls on)
              ∙ ap (λ j. after_calls n (map call calls) on j next_timer) same)
            (subst (λ j. IsSteady j (next_armed (on n next_timer) calls) q h') same
              (subst (λ x. IsSteady n (next_armed (on n next_timer) calls) x h') own t.steady))
      | inr (differ, before) ↦
          IsSteady-of_less m (on m next_timer) _ q c.history h'
            (λ p. sym (after_calls-other n m (map call calls) on next_timer differ) ∙ p)
            (λ i op p k. t.others i op p (λ e. differ (sym e ∙ k))) (i.clients m q g before)
    ];
    indexed = t.indexed;
  },
)

-- A turn of whichever node it is.
turn_lem :
    (on : Armed) (c : Cluster) (n : NodeId) (of_replica : Replica → Option Step)
    (of_client : Client → History → Option Outcome)
    → IsCluster on c
    → ((r : Replica)
        → lookup ℤ_discrete n c.replicas ≡ some r
        → (r' : Replica) × (calls : List Replica.Effect) × (of_replica r ≡ some (r', calls))
          × Valid.IsValid r'
          × All (IsTimely r.config.request_timeout_ms) calls
          × IsTimed r (r', calls))
    → ((client : Client)
        → lookup ℤ_discrete n c.replicas ≡ none
        → lookup ℤ_discrete n c.clients ≡ some client
        → Turns n (on n next_timer) c.history (of_client client c.history))
    → Handles IsCluster n on (turn n c of_replica of_client)
unfolding turn
turn_lem on c n of_replica of_client i hr hc =
    elim (Option-cases (lookup ℤ_discrete n c.replicas)) [
      | inr (r, there) ↦
          let (r', calls, e, v, t, timed) = hr r there in
          subst (Handles IsCluster n on) (sym (rw (there, turn) (rw e refl)))
            (replica_turn_lem on c n r r' calls i there v t timed)
      | inl none_there ↦ elim (Option-cases (lookup ℤ_discrete n c.clients)) [
        | inr (client, known) ↦
            subst (Handles IsCluster n on) (sym (rw (none_there, turn) (rw known refl))) (
              client_turn_lem on c n client (of_client client c.history) i none_there
                (hc client none_there known))
        | inl stranger ↦
            subst (Handles IsCluster n on) (sym (rw (none_there, turn) (rw stranger refl)))
              (c, [], refl, tt, i)
      ]
    ]

crash-IsCluster :
    (on : Armed) (n : NodeId) (c : Cluster) → IsCluster on c → IsCluster (silence n on) (crash n c)
unfolding crash
crash-IsCluster on n c i =
    let less = cluster_of_less on (silence n on) c (silence-less n on) i in
    elim (Option-cases (lookup ℤ_discrete n c.replicas)) [
      | inl other ↦ subst (IsCluster (silence n on)) (sym (rw (other, crash) refl)) less
      | inr (r, there) ↦ subst (IsCluster (silence n on)) (sym (rw (there, crash) refl)) (record {
        replicas = λ m q f. elim (changed n m (Replica.on_crash r) q c.replicas f) [
          | inl (same, own) ↦ subst Valid.IsValid own (on_crash-IsValid r (i.replicas n r there))
          | inr (differ, before) ↦ i.replicas m q before
        ];
        tags = λ m q tag f p. elim (changed n m (Replica.on_crash r) q c.replicas f) [
          | inl (same, own) ↦ absurd (ground arith)
          | inr (differ, before) ↦ less.tags m q tag before p
        ];
        clients = λ m client f g.
            less.clients m client (not_changed n m (Replica.on_crash r) c.replicas f).1 g;
        indexed = i.indexed;
      })
    ]

-- Replicas and clients over their shared history obey what the engine asks of nodes: no handler
-- raises, no timer is set for the past, and each message, timer, crash and restart keeps an
-- invariant: replicas are well-formed; a timer armed for a replica is that of an open round of it;
-- a client that waits has an operation left in its plan, and an entry of its own in the history,
-- with an unknown outcome; one whose next operation is armed waits for none; and the history is
-- numbered by its places.
pub cluster-Laws : Laws cluster IsCluster
unfolding Replica.on_restart
cluster-Laws = record {
  messages = λ on n sender now m c i.
      turn_lem on c n (λ r. some (Replica.on_message r sender m)) (Client.on_message now sender m) i
        (λ r there. (
          (Replica.on_message r sender m).0,
          (Replica.on_message r sender m).1,
          refl,
          on_message-IsValid r sender m (i.replicas n r there),
          on_message-Timely r.config.request_timeout_ms r sender m refl,
          on_message-IsTimed r sender m,
        ))
        (λ client e f.
          Steady.on_message_lem n (on n next_timer) now sender m client c.history
            (i.clients n client e f) i.indexed);
  timers = λ on n now tag c armed i.
      let less = cluster_of_less on (disarm n tag on) c (disarm-less n tag on) i in
      turn_lem (disarm n tag on) c n (λ r. Replica.on_timer r tag) (Client.on_timer now tag) less
        (λ r there.
          let (req, same, opened) = i.tags n r tag there armed in
          let o = lookup ℤ_discrete req r.rounds in
          (
            (Replica.give_up r o).0,
            (Replica.give_up r o).1,
            on_timer-give_up r tag req same,
            give_up-IsValid r o (i.replicas n r there),
            give_up-Timely r.config.request_timeout_ms r o,
            give_up-IsTimed r o,
          ))
        (λ client e f.
          subst (λ b. Turns n b c.history (Client.on_timer now tag client c.history))
            (sym (disarm-next n tag on))
            (Steady.on_timer_lem n (on n next_timer) now tag client c.history
              (λ same. subst (λ t. on n t ≡ true) same armed) (i.clients n client e f) i.indexed));
  crashes = λ on n c i. crash-IsCluster on n c i;
  restarts = λ on n now c i.
      turn_lem on c n (λ r. some (Replica.on_restart r)) (λ client h. some (client, h, [])) i
        (λ r there. (r, [], refl, i.replicas n r there, tt, keeps (λ req h. h) tt))
        (λ client e f.
          Steady.rests n (on n next_timer) client c.history (i.clients n client e f) i.indexed);
}

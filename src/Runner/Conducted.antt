-- ===== src/Runner/Conducted.antt =====
-- The wiring of a scenario and the run, from its parts.
use cassette.Base.{
  ℕ, zero, suc, ◌≡◌, refl, sym, ap, subst, ◌∙◌, ◌≢◌, Bool, true, false, none, some, List, [], ◌∷◌,
  ◌++◌, map, arith, All, ℤ, pos, ℤ_discrete, pos_part, neg_part, ◌+ℤ◌, ◌≤ℤ◌, ◌<ℤ◌, +ℤ_parts,
  range_from, Dict, lookup, member, text_discrete,
}
use cassette.Kv.Version.{NodeId}
use cassette.Kv.Client.{Client, next_timer, arm}
use cassette.Kv.Client.Steady.{IsSteady, next_armed, arm_lem}
use cassette.Runner.{Cluster, call, cluster, add_all, start_all}
use cassette.Runner.Calls.{after_calls-other, after_calls-next, IsPatient-of_client}
use cassette.Runner.Invariant.{IsCluster}
use cassette.Sim.Events.{control}
use cassette.Sim.Faults.{FaultConfig}
use cassette.Sim.Rng.{Source}
use cassette.Sim.Rng.Draws.{IsUnit}
use cassette.Sim.Simulation.{Simulation, clock_now}
use cassette.Sim.Simulation.Calls.{after_calls, perform_all_lem}
use cassette.Sim.Simulation.Laws.{Armed, IsRunning}
use cassette.Sim.Simulation.Starting.{IsJoined, add_node_lem}
use cassette.Sim.Simulation.Timers.{armed}

append_assoc : {A : Type 0} (xs ys zs : List A) → (xs ++ ys) ++ zs ≡ xs ++ (ys ++ zs)
append_assoc [] ys zs = refl
append_assoc (x ∷ xs) ys zs = ap (◌∷◌ x) (append_assoc xs ys zs)

append_nil : {A : Type 0} (xs : List A) → xs ++ [] ≡ xs
append_nil [] = refl
append_nil (x ∷ xs) = ap (◌∷◌ x) (append_nil xs)

-- Every id is below a bound.
abbrev pub IsBelow : ℤ → List NodeId → Type 0
IsBelow a ids = All (λ n. n <ℤ a) ids

IsBelow-append :
    (a b : ℤ) (ids : List NodeId) (n : NodeId)
    → IsBelow a ids
    → a ≤ℤ b
    → n <ℤ b
    → IsBelow b (ids ++ n ∷ [])
IsBelow-append a b [] n h le lt = (lt, tt)
IsBelow-append a b (m ∷ ms) n h le lt = (omega (arith, h.0, le), IsBelow-append a b ms n h.1 le lt)

IsBelow-weaken : (a b : ℤ) (ids : List NodeId) → IsBelow a ids → a ≤ℤ b → IsBelow b ids
IsBelow-weaken a b [] h le = tt
IsBelow-weaken a b (m ∷ ms) h le = (omega (arith, h.0, le), IsBelow-weaken a b ms h.1 le)

none_member : (n : NodeId) → member ℤ_discrete n [] ≡ false
unfolding member
none_member n = refl

not_below : (a : ℤ) (ids : List NodeId) → IsBelow a ids → member ℤ_discrete a ids ≡ false
unfolding member
not_below a [] h = refl
not_below a (m ∷ ms) h =
    let differ : m ≢ a = λ q. omega (arith, h.0, ap pos_part q, ap neg_part q) in
    let rest = not_below a ms h.1 in ground arith

-- The clients' timers are armed one by one.
started-IsCluster :
    (on : Armed) (c : Cluster) (n : NodeId) (client : Client)
    → IsCluster on c
    → lookup ℤ_discrete n c.replicas ≡ none
    → lookup ℤ_discrete n c.clients ≡ some client
    → client.outstanding ≡ none
    → IsCluster (after_calls n (map call (arm client)) on) c
unfolding arm text_discrete
started-IsCluster on c n client i e f idle = record {
  replicas = i.replicas;
  tags = λ m q tag g p. elim (ℤ_discrete n m) [
    | yes same ↦ absurd (ground (arith, ap (λ k. lookup ℤ_discrete k c.replicas) same))
    | no differ ↦
        i.tags m q tag g (sym (after_calls-other n m (map call (arm client)) on tag differ) ∙ p)
  ];
  clients = λ m q g k. elim (ℤ_discrete n m) [
    | yes same ↦
        let both : some client ≡ some q =
          sym f ∙ (ap (λ j. lookup ℤ_discrete j c.clients) same ∙ k) in
        let own : client ≡ q = cc in
        subst (λ b. IsSteady m b q c.history)
          (sym (after_calls-next n (arm client) on)
            ∙ ap (λ j. after_calls n (map call (arm client)) on j next_timer) same)
          (subst (λ j. IsSteady j (next_armed (on n next_timer) (arm client)) q c.history) same
            (subst (λ x. IsSteady n (next_armed (on n next_timer) (arm client)) x c.history) own
              (arm_lem n (on n next_timer) client c.history (i.clients n client e f) idle).0))
    | no differ ↦
        let s = i.clients m q g k in
        record {
          own = s.own;
          patient = s.patient;
          unhurried = s.unhurried;
          next = λ p.
              s.next (sym (after_calls-other n m (map call (arm client)) on next_timer differ) ∙ p);
          waits = s.waits;
        }
  ];
  indexed = i.indexed;
}

module _ {R : Source} {A : Type 0} where
  -- A registered client that is fresh.
  abbrev pub CanStart : Simulation R cluster A → NodeId × Client → Type 0
  CanStart s e =
      (member ℤ_discrete e.0 s.node_ids ≡ true)
      × (lookup ℤ_discrete e.0 s.nodes.replicas ≡ none)
      × (lookup ℤ_discrete e.0 s.nodes.clients ≡ some e.1)
      × (e.1.outstanding ≡ none)

module _ {R : Source} (unit : IsUnit R) (config : FaultConfig R.Float) {A : Type 0}
    (Ready : A → Type 0) where
  -- The ids of a range are registered, behind smaller ones.
  pub add_all_lem :
      pos 0 ≤ℤ config.clock_skew_ms
      → (a : ℤ) (k : ℕ) (skewed : Bool) (s : Simulation R cluster A) → pos 0 ≤ℤ a
      → IsBelow a s.node_ids
      → IsRunning IsCluster Ready s
      → (later : Simulation R cluster A) × (add_all config (range_from a k) skewed s ≡ some later)
        × IsJoined IsCluster Ready (range_from a k) s later
        × IsBelow (a +ℤ pos k) later.node_ids
  unfolding add_all
  add_all_lem skew a zero skewed s from below r = (
    s,
    refl,
    record {
      running = r;
      node_ids = sym (append_nil s.node_ids);
      clock = refl;
      nodes = refl;
      timers = refl;
      down = refl;
    },
    IsBelow-weaken a (a +ℤ pos 0) s.node_ids below (omega (arith, +ℤ_parts a (pos 0))),
  )
  add_all_lem skew a (suc k) skewed s from below r =
      let one = +ℤ_parts a (pos 1) in
      let usual : a ≢ control = λ q. omega (arith, from, ap pos_part q, ap neg_part q) in
      let (mid, e, j) =
        add_node_lem IsCluster Ready unit config skew a skewed s usual
          (not_below a s.node_ids below) r in
      let (later, f, l, b) =
        add_all_lem skew (a +ℤ pos 1) k skewed mid (omega (arith, from, one))
          (subst (IsBelow (a +ℤ pos 1)) (sym j.node_ids) (
            IsBelow-append a (a +ℤ pos 1) s.node_ids a below (omega (arith, one))
              (omega (arith, one))))
          j.running in
      (
        later,
        rw (e, add_all) f,
        record {
          running = l.running;
          node_ids =
              l.node_ids
              ∙ (ap (λ ids. ids ++ range_from (a +ℤ pos 1) k) j.node_ids
                  ∙ append_assoc s.node_ids (a ∷ []) (range_from (a +ℤ pos 1) k));
          clock = l.clock ∙ j.clock;
          nodes = l.nodes ∙ j.nodes;
          timers = l.timers ∙ j.timers;
          down = l.down ∙ j.down;
        },
        IsBelow-weaken _ _ later.node_ids b
            (omega (arith, one, +ℤ_parts (a +ℤ pos 1) (pos k), +ℤ_parts a (pos (suc k)))),
      )

  CanStart-later :
      (s later : Simulation R cluster A) (clients : Dict NodeId Client)
      → later.node_ids ≡ s.node_ids
      → later.nodes ≡ s.nodes
      → All (CanStart s) clients
      → All (CanStart later) clients
  CanStart-later s later [] ids nodes can = tt
  CanStart-later s later (e ∷ rest) ids nodes can = (
    (rw ids can.0.0, rw nodes can.0.1, rw nodes can.0.2, can.0.3),
    CanStart-later s later rest ids nodes can.1,
  )

  pub start_all_lem :
      (pos 0 ≤ℤ config.latency_ms.0) × (config.latency_ms.0 ≤ℤ config.latency_ms.1)
      → (clients : Dict NodeId Client) (s : Simulation R cluster A) → All (CanStart s) clients
      → s.down ≡ []
      → IsRunning IsCluster Ready s
      → (later : Simulation R cluster A) × (start_all config clients s ≡ some later)
        × IsRunning IsCluster Ready later
        × (clock_now later ≡ clock_now s)
  unfolding start_all
  start_all_lem window [] s can up r = (s, refl, r, refl)
  start_all_lem window ((n, c) ∷ rest) s ((known, other, there, idle), can) up r =
      let calls = map call (arm c) in
      let steady = r.inv.clients n c other there in
      let no_one_down : member ℤ_discrete n s.down ≡ false = rw up (none_member n) in
      let (mid, e, d) =
        perform_all_lem unit config window n calls s
          (IsPatient-of_client (arm c)
            (arm_lem n (armed s n next_timer) c s.nodes.history steady idle).1)
          known no_one_down r.valid in
      let running : IsRunning IsCluster Ready mid = record {
        valid = d.valid;
        inv =
            subst (λ on. IsCluster on mid.nodes) (sym d.timers)
              (rw d.kept.nodes (started-IsCluster (armed s) s.nodes n c r.inv other there idle));
        ready = rw d.kept.adversary r.ready;
      } in
      let (later, f, l, clock) =
        start_all_lem window rest mid (CanStart-later s mid rest d.kept.node_ids d.kept.nodes can)
          (d.kept.down ∙ up) running in
      (later, rw (e, start_all) f, l, clock ∙ d.kept.clock)

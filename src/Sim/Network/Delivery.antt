-- ===== src/Sim/Network/Delivery.antt =====
-- What `send` puts in the queue, and how many draws it takes.
use cassette.Base.{
  ℕ, zero, suc, ◌+◌, ◌≤◌, ◌≡◌, refl, ap, ◌∙◌, ◌⊎◌, inl, inr, Bool, some, List, [], ◌∷◌, arith,
  if◌then◌else◌, Bool-cases, length, In, ℤ, pos, ◌+ℤ◌, ◌≤ℤ◌, +ℤ_parts,
}
use cassette.Kv.Version.{NodeId}
use cassette.Sim.Events.{Event, deliver_message}
use cassette.Sim.Faults.{FaultConfig}
use cassette.Sim.Rng.{Source, chance, randint}
use cassette.Sim.Rng.Draws.{IsUnit, draws, randint_bounds}
use cassette.Sim.Scheduler.{Scheduler, schedule, push}
use cassette.Sim.Scheduler.Order.{
  IsValid, In_of_push, In-push, length-push, schedule_lem, push-IsValid,
}
use cassette.Sim.Network.{Note, lost_note, send_note, World, copies, send_copy, send_copies, send}

module _ (R : Source) {M : Type 0} where
  -- Copies of the message are in the queue, each at a time in the latency window, and nothing else
  -- has changed but the random source.
  pub record HasQueued (config : FaultConfig R.Float) (sender recipient : NodeId) (msg : M)
      (msg_id n : ℕ) (w later : World R M) : Type 0 where
    pub valid : IsValid later.queue
    pub clock : later.queue.clock ≡ w.queue.clock
    pub cancelled : later.queue.cancelled ≡ w.queue.cancelled
    pub network : later.network ≡ w.network
    pub drawn : later.rng ≡ draws R n w.rng
    pub grown : length later.queue.heap ≡ n + length w.queue.heap
    pub numbering : w.queue.next_seq ≤ later.queue.next_seq
    pub stays : (e : Event M) → In e w.queue.heap → In e later.queue.heap
    pub added :
        (e : Event M)
        → In e later.queue.heap
        → In e w.queue.heap
          ⊎ (w.queue.next_seq ≤ e.seq)
            × (e.node ≡ recipient)
            × (e.action ≡ deliver_message sender msg msg_id)
            × (w.queue.clock.now +ℤ config.latency_ms.0 ≤ℤ e.time_ms)
            × (e.time_ms ≤ℤ w.queue.clock.now +ℤ config.latency_ms.1)

  send_copy-step :
      (config : FaultConfig R.Float) (sender recipient : NodeId) (msg : M) (msg_id : ℕ)
      (w : World R M) {delay : ℤ} {g : R.State} {seq : ℕ} {q : Scheduler M}
      → randint R config.latency_ms.0 config.latency_ms.1 w.rng ≡ some (delay, g)
      → schedule delay recipient (deliver_message sender msg msg_id) w.queue ≡ some (seq, q)
      → send_copy R config sender recipient msg msg_id w ≡ some (record w { rng = g; queue = q })
  unfolding send_copy
  send_copy-step config sender recipient msg msg_id w drawn queued =
      rw (drawn, queued, send_copy) refl

  HasQueued-none :
      (config : FaultConfig R.Float) (sender recipient : NodeId) (msg : M) (msg_id : ℕ)
      (w : World R M)
      → IsValid w.queue
      → HasQueued config sender recipient msg msg_id 0 w w
  HasQueued-none config sender recipient msg msg_id w v = record {
    valid = v;
    clock = refl;
    cancelled = refl;
    network = refl;
    drawn = refl;
    grown = omega arith;
    numbering = omega arith;
    stays = λ e i. i;
    added = λ e i. inl i;
  }

  -- Whether the message is lost, and how many copies of it go out.
  abbrev pub lost : FaultConfig R.Float → World R M → Bool
  lost config w = R.less (R.random w.rng).0 config.drop_rate

  abbrev pub sent : FaultConfig R.Float → World R M → ℕ
  sent config w =
      if lost config w then 0 else copies (R.less (R.random (R.random w.rng).1).0 config.dup_rate)

  -- The message has its number and the two dice are thrown.
  abbrev pub thrown : World R M → World R M
  thrown w = record w {
    network = record w.network { next_msg_id = suc w.network.next_msg_id };
    rng = draws R 2 w.rng;
  }

  module _ (unit : IsUnit R) (config : FaultConfig R.Float)
      (window : (pos 0 ≤ℤ config.latency_ms.0) × (config.latency_ms.0 ≤ℤ config.latency_ms.1)) where
    send_copy_lem :
        (sender recipient : NodeId) (msg : M) (msg_id : ℕ) (w : World R M)
        → IsValid w.queue
        → (later : World R M) × (send_copy R config sender recipient msg msg_id w ≡ some later)
          × HasQueued config sender recipient msg msg_id 1 w later
    send_copy_lem sender recipient msg msg_id w v =
        let (delay, drawn, from, to) =
          randint_bounds R unit config.latency_ms.0 config.latency_ms.1 w.rng window.1 in
        let now = w.queue.clock.now in
        let at = +ℤ_parts now delay in
        let early = +ℤ_parts now config.latency_ms.0 in
        let late = +ℤ_parts now config.latency_ms.1 in
        let e : Event M = record {
          time_ms = now +ℤ delay;
          seq = w.queue.next_seq;
          node = recipient;
          action = deliver_message sender msg msg_id;
        } in
        (
          record w {
            rng = (R.random w.rng).1;
            queue = record w.queue { next_seq = suc w.queue.next_seq; heap = push e w.queue.heap };
          },
          send_copy-step config sender recipient msg msg_id w drawn (
              schedule_lem delay recipient (deliver_message sender msg msg_id) w.queue
                (omega (arith, window.0, from))),
          record {
            valid = push-IsValid e w.queue refl (omega (arith, at, from, window.0)) v;
            clock = refl;
            cancelled = refl;
            network = refl;
            drawn = refl;
            grown = omega (arith, length-push e w.queue.heap);
            numbering = omega arith;
            stays = λ f i. In-push e f w.queue.heap i;
            added = λ f i. elim (In_of_push e f w.queue.heap i) [
              | inl same ↦ inr (
                  rw same (
                    omega arith,
                    refl,
                    refl,
                    omega (arith, at, early, from),
                    omega (arith, at, late, to),
                  ))
              | inr before ↦ inl before
            ];
          },
        )

    send_copies_lem :
        (n : ℕ) (sender recipient : NodeId) (msg : M) (msg_id : ℕ) (w : World R M)
        → IsValid w.queue
        → (later : World R M) × (send_copies R config n sender recipient msg msg_id w ≡ some later)
          × HasQueued config sender recipient msg msg_id n w later
    unfolding send_copies
    send_copies_lem zero sender recipient msg msg_id w v =
        (w, refl, HasQueued-none config sender recipient msg msg_id w v)
    send_copies_lem (suc n) sender recipient msg msg_id w v =
        let (mid, one, p) = send_copy_lem sender recipient msg msg_id w v in
        let (later, more, q) = send_copies_lem n sender recipient msg msg_id mid p.valid in
        (
          later,
          rw (one, send_copies) more,
          record {
            valid = q.valid;
            clock = q.clock ∙ p.clock;
            cancelled = q.cancelled ∙ p.cancelled;
            network = q.network ∙ p.network;
            drawn = q.drawn ∙ ap (draws R n) p.drawn;
            grown = omega (arith, q.grown, p.grown);
            numbering = omega (arith, q.numbering, p.numbering);
            stays = λ e i. q.stays e (p.stays e i);
            added = λ e i. elim (q.added e i) [
              | inl before ↦ p.added e before
              | inr new ↦ inr (
                omega (arith, p.numbering, new.0),
                new.1,
                new.2,
                rw p.clock at new.3,
                rw p.clock at new.4,
              )
            ];
          },
        )

    pub send_lem :
        (sender recipient : NodeId) (msg : M) (w : World R M)
        → IsValid w.queue
        → (later : World R M) × (notes : List (Note M)) × (send R config sender recipient msg w
            ≡ some (w.network.next_msg_id, later, notes))
          × HasQueued config sender recipient msg w.network.next_msg_id
              (sent config w)
              (thrown w)
              later
    unfolding send chance
    send_lem sender recipient msg w v = elim (Bool-cases (lost config w)) [
      | inl gone ↦ rw gone (
        thrown w,
        lost_note w.network.next_msg_id sender recipient msg ∷ [],
        refl,
        HasQueued-none config sender recipient msg w.network.next_msg_id (thrown w) v,
      )
      | inr through ↦
          let doubled = R.less (R.random (R.random w.rng).1).0 config.dup_rate in
          let (later, run, q) =
            send_copies_lem (copies doubled) sender recipient msg w.network.next_msg_id (thrown w)
              v in
          rw through (
            later,
            send_note w.network.next_msg_id sender recipient msg (copies doubled) ∷ [],
            rw run refl,
            q,
          )
    ]

-- ===== src/Sim/Injector.antt =====
-- cassette/sim/injector.py: the adversary, which throws its dice on every tick, and the one that
-- replays what it decided. Each is the state behind the engine's `on_fault_tick`. Sets are lists.
pub mod Splits
pub mod Ticking
pub mod Replaying
pub mod Quiet
use cassette.Base.{
  not, ◌&&◌, Option, none, some, List, [], ◌∷◌, ◌++◌, if◌then◌else◌, holds, is_some, length, keep,
  ℤ, pos, ℤ_discrete, ◌-ℤ◌, leb_ℤ, Dict, lookup, insert, member, Text, text, text_discrete,
}
use cassette.Kv.Version.{NodeId}
use cassette.Sim.Env.{Nodes}
use cassette.Sim.Events.{control, fault_tick}
use cassette.Sim.Faults.{FaultConfig, InjectedFault, MillisecondRange}
use cassette.Sim.Rng.{Source, chance, choice, randint, sample}
use cassette.Sim.Scheduler.{schedule}
use cassette.Sim.Simulation.{
  Simulation, clock_now, with_queue, schedule_partition, schedule_crash, schedule_pause,
}

abbrev pub partition_kind : Text
partition_kind = text "partition"

abbrev pub crash_kind : Text
crash_kind = text "crash"

abbrev pub pause_kind : Text
pause_kind = text "pause"

-- `sorted` on node ids.
unfoldable pub insert_id : NodeId → List NodeId → List NodeId
insert_id n [] = n ∷ []
insert_id n (m ∷ ms) = let rest = insert_id n ms in if leb_ℤ n m then n ∷ m ∷ ms else m ∷ rest

unfoldable pub sorted : List NodeId → List NodeId
unfolding insert_id
sorted [] = []
sorted (n ∷ ns) = insert_id n (sorted ns)

pub record FaultInjector (R : Source) : Type 0 where
  pub rng : R.State
  pub decisions : List InjectedFault

-- Arms the next tick.
unfoldable pub arm_tick :
    {R : Source} {M : Type 0} (config : FaultConfig R.Float) {N : Nodes M} {A : Type 0}
    → Simulation R N A
    → Option (Simulation R N A)
arm_tick config s = elim (schedule config.tick_ms control fault_tick s.world.queue) [
  | none ↦ none
  | some (seq, q) ↦ some (with_queue q s)
]

-- `frozenset(replicas) - side`
abbrev pub without : List NodeId → List NodeId → List NodeId
without side = keep (λ n. not (member ℤ_discrete n side))

-- `_split`, with its two groups.
unfoldable pub split :
    (R : Source) → List NodeId → R.State → Option ((List NodeId × List NodeId) × R.State)
split R replicas g = elim (randint R (pos 1) (pos (length replicas) -ℤ pos 1) g) [
  | none ↦ none
  | some (size, g') ↦ elim (sample R replicas size g') [
    | none ↦ none
    | some (chosen, g'') ↦ some ((chosen, without chosen replicas), g'')
  ]
]

module _ {R : Source} {M : Type 0} {N : Nodes M} where
  abbrev pub with_rng :
      R.State → Simulation R N (FaultInjector R) → Simulation R N (FaultInjector R)
  with_rng g s = record s { adversary = record s.adversary { rng = g } }

  -- `_record`, at the time of the tick.
  abbrev pub decide :
      Text → ℤ → List NodeId → Simulation R N (FaultInjector R) → Simulation R N (FaultInjector R)
  decide kind duration_ms targets s = record s {
    adversary = record s.adversary {
      decisions =
          s.adversary.decisions
          ++ record {
            at_ms = clock_now s;
            kind = kind;
            duration_ms = duration_ms;
            targets = targets;
          }
            ∷ [];
    };
  }

  module _ (config : FaultConfig R.Float) (replicas : List NodeId) where
    -- Opens a partition, with the source at `g`.
    unfoldable pub cut :
        R.State → Simulation R N (FaultInjector R) → Option (Simulation R N (FaultInjector R))
    cut g s = elim (split R replicas g) [
      | none ↦ none
      | some ((side, other), g') ↦
          elim (randint R config.partition_duration_ms.0 config.partition_duration_ms.1 g') [
            | none ↦ none
            | some (duration, g'') ↦
                elim (schedule_partition (side ∷ other ∷ []) duration none (with_rng g'' s)) [
                  | none ↦ none
                  | some later ↦ some (decide partition_kind duration (sorted side) later)
                ]
          ]
    ]

    unfoldable pub roll_partition :
        Simulation R N (FaultInjector R) → Option (Simulation R N (FaultInjector R))
    roll_partition s =
        let (hit, g) = chance R config.partition_rate s.adversary.rng in
        if hit && not (is_some s.world.network.partition) then cut g s else some (with_rng g s)

    -- Injures one replica, by the operation `injure` of the engine.
    unfoldable pub strike :
        Text
        → MillisecondRange
        → (NodeId
            → ℤ
            → Option ℤ
            → Simulation R N (FaultInjector R)
            → Option (Simulation R N (FaultInjector R)))
        → R.State
        → Simulation R N (FaultInjector R)
        → Option (Simulation R N (FaultInjector R))
    strike kind duration_ms injure g s = elim (choice R replicas g) [
      | none ↦ none
      | some (victim, g') ↦ elim (randint R duration_ms.0 duration_ms.1 g') [
        | none ↦ none
        | some (duration, g'') ↦ elim (injure victim duration none (with_rng g'' s)) [
          | none ↦ none
          | some later ↦ some (decide kind duration (victim ∷ []) later)
        ]
      ]
    ]

    unfoldable pub roll_crash :
        Simulation R N (FaultInjector R) → Option (Simulation R N (FaultInjector R))
    roll_crash s =
        let (hit, g) = chance R config.crash_rate s.adversary.rng in
        if hit
        then strike crash_kind config.crash_duration_ms schedule_crash g s
        else some (with_rng g s)

    unfoldable pub roll_pause :
        Simulation R N (FaultInjector R) → Option (Simulation R N (FaultInjector R))
    roll_pause s =
        let (hit, g) = chance R config.pause_rate s.adversary.rng in
        if hit
        then strike pause_kind config.pause_duration_ms schedule_pause g s
        else some (with_rng g s)

    unfoldable pub tick :
        Simulation R N (FaultInjector R) → Option (Simulation R N (FaultInjector R))
    tick s = elim (roll_partition s) [
      | none ↦ none
      | some s₁ ↦ elim (roll_crash s₁) [
        | none ↦ none
        | some s₂ ↦ elim (roll_pause s₂) [ none ↦ none | some s₃ ↦ arm_tick config s₃ ]
      ]
    ]

-- `ScriptedInjector.__init__`: the faults by the tick at which they were decided.
abbrev pub appended : InjectedFault → Option (List InjectedFault) → List InjectedFault
appended fault none = fault ∷ []
appended fault (some faults) = faults ++ fault ∷ []

unfoldable pub by_tick_from :
    Dict ℤ (List InjectedFault) → List InjectedFault → Dict ℤ (List InjectedFault)
by_tick_from d [] = d
by_tick_from d (fault ∷ faults) =
    by_tick_from
      (insert ℤ_discrete fault.at_ms (appended fault (lookup ℤ_discrete fault.at_ms d)) d) faults

unfoldable pub by_tick : List InjectedFault → Dict ℤ (List InjectedFault)
unfolding by_tick_from
by_tick = by_tick_from []

module _ {R : Source} {M : Type 0} {N : Nodes M} {A : Type 0} (replicas : List NodeId) where
  -- `_apply` past its guard, to the first target and to all of them.
  unfoldable pub apply_to :
      InjectedFault → NodeId → List NodeId → Simulation R N A → Option (Simulation R N A)
  apply_to fault target targets s =
      if holds (text_discrete fault.kind partition_kind)
      then elim (without targets replicas) [
        | [] ↦ some s
        | n ∷ ns ↦ schedule_partition (targets ∷ (n ∷ ns) ∷ []) fault.duration_ms none s
      ]
      else if holds (text_discrete fault.kind crash_kind)
      then schedule_crash target fault.duration_ms none s
      else if holds (text_discrete fault.kind pause_kind)
      then schedule_pause target fault.duration_ms none s
      else some s

  unfoldable pub apply : InjectedFault → Simulation R N A → Option (Simulation R N A)
  apply fault s = elim (keep (λ n. member ℤ_discrete n replicas) fault.targets) [
    | [] ↦ some s
    | n ∷ ns ↦ apply_to fault n (n ∷ ns) s
  ]

  unfoldable pub apply_all : List InjectedFault → Simulation R N A → Option (Simulation R N A)
  apply_all [] s = some s
  apply_all (fault ∷ faults) s = elim (apply fault s) [
    | none ↦ none
    | some s' ↦ apply_all faults s'
  ]

-- `get(now, ())`
abbrev pub or_nothing : Option (List InjectedFault) → List InjectedFault
or_nothing none = []
or_nothing (some faults) = faults

-- `ScriptedInjector.tick`; its state does not change.
unfoldable pub replay_tick :
    {R : Source} {M : Type 0} (config : FaultConfig R.Float) {N : Nodes M}
    → List NodeId
    → Simulation R N (Dict ℤ (List InjectedFault))
    → Option (Simulation R N (Dict ℤ (List InjectedFault)))
unfolding apply_all
replay_tick config replicas s =
    elim (apply_all replicas (or_nothing (lookup ℤ_discrete (clock_now s) s.adversary)) s) [
      | none ↦ none
      | some s' ↦ arm_tick config s'
    ]

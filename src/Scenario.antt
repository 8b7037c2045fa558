-- ===== src/Scenario.antt =====
-- cassette/scenario.py: everything that a run is made of, and the generator of it from a seed.
-- `none` is a `ValueError` or an `IndexError`.
pub mod Generated
mod Tests
use cassette.Base.{
  ℕ, zero, suc, ◌+◌, ◌-◌, ◌*◌, ◌≤◌, ◌<◌, ◌≡◌, refl, sym, ap, subst, ◌∙◌, ◌≢◌, ◌↔◌, ◌⊎◌, inl, inr,
  ite, dite, if_pos, if_neg, Bool, true, false, not, ◌&&◌, ◌||◌, Option, none, some, List, [], ◌∷◌,
  ◌++◌, map, arith, ltb, leb, ◌==◌, if◌then◌else◌, holds, is_some, Bool-cases, Option-cases,
  if-elim, holds→, ltb→lt, length, get_elem?, set, take, drop, any, all, keep, length-append,
  length-keep-le, length-map, All, All-append, In, In-keep, In_of_keep, keep-ext, all-ext,
  all_of_In, In_of_all, not_of_any, any_of_none, length-keep_mono, length-keep-lt, In-map,
  In_of_map, ℕ_discrete, ℤ, pos, negsuc, ℤ_discrete, pos_part, neg_part, sub_ℕ, ◌+ℤ◌, ◌-ℤ◌, ◌≤ℤ◌,
  ◌<ℤ◌, ltb_ℤ, leb_ℤ, max_ℤ, +ℤ_parts, -ℤ_parts, eq_of_parts, int_laws, range_from, range, Dict,
  lookup, insert, remove, lookup-insert, lookup-remove, length-insert, member, add, discard,
  member-add, member-discard, HasDistinctKeys, insert-HasDistinctKeys, remove-HasDistinctKeys,
  IsDistinct, add-IsDistinct, length-discard-le, length-discard, length-le_of_subset, Text, text,
  text_discrete, leb_text, show_ℕ, show_ℤ, read_ℤ, read_ℤ-show_ℤ, after_colon,
}
use cassette.Kv.Version.{NodeId, Value}
use cassette.Kv.Config.{StoreConfig, replica_ids}
use cassette.Kv.Client.{PlannedOp}
use cassette.Checker.History.{read_kind, write_kind, cas_kind}
use cassette.Sim.Faults.{FaultConfig, InjectedFault}
use cassette.Sim.Rng.{Source, choice, randint}

pub record WorkloadSpec (F : Type 0) : Type 0 where
  pub clients : ℤ
  pub operations : ℤ
  pub keys : List Text
  pub value_range : ℤ × ℤ
  pub read_ratio : F
  pub cas_ratio : F
  pub think_ms : ℤ × ℤ

-- The `ValueError`s of the constructor.
pub data WorkloadError : Type 0 where
  no_clients no_operations no_keys bad_ratio : WorkloadError

abbrev is_empty {ℓ} : {A : Type ℓ} → List A → Bool
is_empty [] = true
is_empty (x ∷ xs) = false

-- `__post_init__`; `is_rate` is `0.0 <= x <= 1.0` and `plus` the sum of two floats.
unfoldable pub post_init :
    {F : Type 0} → (F → Bool) → (F → F → F) → WorkloadSpec F → Option WorkloadError
post_init is_rate plus w =
    if ltb_ℤ w.clients (pos 1)
    then some no_clients
    else if ltb_ℤ w.operations (pos 1)
    then some no_operations
    else if is_empty w.keys
    then some no_keys
    else if not (is_rate (plus w.read_ratio w.cas_ratio))
    then some bad_ratio
    else none

pub record Scenario (F : Type 0) : Type 0 where
  pub seed : ℤ
  pub store : StoreConfig
  pub faults : FaultConfig F
  pub plans : List (List PlannedOp)
  pub horizon_ms : ℤ
  pub schedule : Option (List InjectedFault)

unfoldable pub client_ids : {F : Type 0} → Scenario F → List NodeId
client_ids s = range_from s.store.replicas (length s.plans)

abbrev pub total : List (List PlannedOp) → ℕ
total [] = 0
total (plan ∷ plans) = length plan + total plans

abbrev pub operation_count : {F : Type 0} → Scenario F → ℕ
operation_count s = total s.plans

unfoldable pub fault_count : {F : Type 0} → Scenario F → ℤ
fault_count s = elim s.schedule [ none ↦ negsuc 0 | some faults ↦ pos (length faults) ]

module _ (R : Source) (plus : R.Float → R.Float → R.Float) where
  -- The operation that the dice come to.
  abbrev pub planned : WorkloadSpec R.Float → R.Float → Text → ℤ → ℤ → NodeId → ℤ → PlannedOp
  planned w roll key value expected coordinator delay_ms =
      if R.less roll w.read_ratio
      then record {
        kind = read_kind;
        key = key;
        argument = none;
        expected = none;
        coordinator = coordinator;
        delay_ms = delay_ms;
      }
      else if R.less roll (plus w.read_ratio w.cas_ratio)
      then record {
        kind = cas_kind;
        key = key;
        argument = some value;
        expected = some expected;
        coordinator = coordinator;
        delay_ms = delay_ms;
      }
      else record {
        kind = write_kind;
        key = key;
        argument = some value;
        expected = none;
        coordinator = coordinator;
        delay_ms = delay_ms;
      }

  -- `_plan_one`
  unfoldable pub plan_one :
      WorkloadSpec R.Float → StoreConfig → R.State → Option (PlannedOp × R.State)
  plan_one w store g =
      let (roll, g₀) = R.random g in
      elim (choice R w.keys g₀) [
        | none ↦ none
        | some (key, g₁) ↦ elim (randint R w.value_range.0 w.value_range.1 g₁) [
          | none ↦ none
          | some (value, g₂) ↦ elim (randint R w.value_range.0 w.value_range.1 g₂) [
            | none ↦ none
            | some (expected, g₃) ↦ elim (choice R (replica_ids store) g₃) [
              | none ↦ none
              | some (coordinator, g₄) ↦ elim (randint R w.think_ms.0 w.think_ms.1 g₄) [
                | none ↦ none
                | some (delay_ms, g₅) ↦
                    some (planned w roll key value expected coordinator delay_ms, g₅)
              ]
            ]
          ]
        ]
      ]

  -- `n` results of a draw, in order.
  abbrev pub repeat :
      {A : Type 0} → ℕ → (R.State → Option (A × R.State)) → R.State → Option (List A × R.State)
  repeat zero draw g = some ([], g)
  repeat (suc n) draw g = elim (draw g) [
    | none ↦ none
    | some (a, g') ↦ elim (repeat n draw g') [
      | none ↦ none
      | some (rest, g'') ↦ some (a ∷ rest, g'')
    ]
  ]

  -- `g` is the state of `Rng(seed)`.
  unfoldable pub generate :
      ℤ
      → R.State
      → StoreConfig
      → FaultConfig R.Float
      → WorkloadSpec R.Float
      → ℤ
      → Option (Scenario R.Float)
  generate seed g store faults w horizon_ms =
      elim (repeat (pos_part w.clients) (repeat (pos_part w.operations) (plan_one w store)) g) [
        | none ↦ none
        | some (plans, g') ↦ some (record {
          seed = seed;
          store = store;
          faults = faults;
          plans = plans;
          horizon_ms = horizon_ms;
          schedule = none;
        })
      ]

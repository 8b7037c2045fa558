-- ===== src/Shrink/Moves.antt =====
-- The moves of cassette/shrink/reduce.py: the smaller scenarios that each one proposes.
pub mod Cluster
use cassette.Base.{
  ℕ, zero, suc, ◌+◌, ◌-◌, ◌*◌, ◌≤◌, ◌<◌, ◌≡◌, refl, sym, ap, subst, ◌∙◌, ◌≢◌, ◌↔◌, ◌⊎◌, inl, inr,
  ite, dite, if_pos, if_neg, Bool, true, false, not, ◌&&◌, ◌||◌, Option, none, some, List, [], ◌∷◌,
  ◌++◌, map, arith, ltb, leb, ◌==◌, if◌then◌else◌, holds, is_some, Bool-cases, Option-cases,
  if-elim, holds→, ltb→lt, length, get_elem?, set, take, drop, any, all, keep, length-append,
  length-keep-le, length-map, All, All-append, In, In-keep, In_of_keep, keep-ext, all-ext,
  all_of_In, In_of_all, not_of_any, any_of_none, length-keep_mono, length-keep-lt, In-map,
  In_of_map, ℕ_discrete, ℤ, pos, negsuc, ℤ_discrete, pos_part, neg_part, sub_ℕ, ◌+ℤ◌, ◌-ℤ◌, ◌≤ℤ◌,
  ◌<ℤ◌, ltb_ℤ, leb_ℤ, max_ℤ, +ℤ_parts, -ℤ_parts, eq_of_parts, int_laws, range_from, range, Dict,
  lookup, insert, remove, lookup-insert, lookup-remove, length-insert, member, add, discard,
  member-add, member-discard, HasDistinctKeys, insert-HasDistinctKeys, remove-HasDistinctKeys,
  IsDistinct, add-IsDistinct, length-discard-le, length-discard, length-le_of_subset, Text, text,
  text_discrete, leb_text, show_ℕ, show_ℤ, read_ℤ, read_ℤ-show_ℤ, after_colon,
}
use Prim.Native.Nat.{◌/◌, ◌%◌}
use cassette.Kv.Version.{NodeId, Value}
use cassette.Kv.Config.{StoreConfig}
use cassette.Kv.Client.{PlannedOp}
use cassette.Sim.Faults.{InjectedFault}
use cassette.Scenario.{Scenario}

abbrev op_discrete : Discrete PlannedOp
op_discrete = hlevel (text_discrete, ℤ_discrete)

-- `plans == scenario.plans`
abbrev plans_discrete : Discrete (List (List PlannedOp))
plans_discrete = hlevel (text_discrete, ℤ_discrete)

abbrev with_plans : {F : Type 0} → Scenario F → List (List PlannedOp) → Scenario F
with_plans s plans = record s { plans = plans }

-- The scenario with new plans, unless they are the old ones.
abbrev if_new : {F : Type 0} → Scenario F → List (List PlannedOp) → List (Scenario F)
if_new s plans = if holds (plans_discrete plans s.plans) then [] else with_plans s plans ∷ []

-- `_only_the_failing_key`
unfoldable pub only_the_failing_key : {F : Type 0} → Scenario F → Option Text → List (Scenario F)
only_the_failing_key s none = []
only_the_failing_key s (some key) =
    if_new s
      (map (λ plan. keep (λ (op : PlannedOp). holds (text_discrete op.key key)) plan) s.plans)

-- `_no_thinking`
unfoldable pub no_thinking : {F : Type 0} → Scenario F → Option Text → List (Scenario F)
no_thinking s key =
    if_new s (map (λ plan. map (λ (op : PlannedOp). record op { delay_ms = pos 0 }) plan) s.plans)

-- `xs[:i] + xs[i + 1:]`
abbrev pub without {ℓ} : {A : Type ℓ} → List A → ℕ → List A
without xs i = take i xs ++ drop (suc i) xs

-- One list for each place, from `i` on, with the element there left out.
abbrev each_without {ℓ} : {A : Type ℓ} → ℕ → ℕ → List A → List (List A)
each_without zero i xs = []
each_without (suc n) i xs = without xs i ∷ each_without n (suc i) xs

-- The two halves, of three elements or more.
abbrev halves {ℓ} : {A : Type ℓ} → List A → List (List A)
halves xs = if ltb 2 (length xs) then take (length xs / 2) xs ∷ drop (length xs / 2) xs ∷ [] else []

abbrev with_schedule : {F : Type 0} → Scenario F → List InjectedFault → Scenario F
with_schedule s faults = record s { schedule = some faults }

-- `_fewer_faults`, of a schedule that is there and not empty.
abbrev faults_of : Option (List InjectedFault) → List InjectedFault
faults_of none = []
faults_of (some faults) = faults

abbrev fewer_of : {F : Type 0} → Scenario F → List InjectedFault → List (Scenario F)
fewer_of s [] = []
fewer_of s (f ∷ fs) =
    with_schedule s []
    ∷ map (with_schedule s) (halves (f ∷ fs) ++ each_without (length (f ∷ fs)) 0 (f ∷ fs))

unfoldable pub fewer_faults : {F : Type 0} → Scenario F → Option Text → List (Scenario F)
fewer_faults s key = fewer_of s (faults_of s.schedule)

-- `_fewer_operations`, from client number `client` on.
abbrev fewer_operations_from :
    {F : Type 0} → Scenario F → ℕ → List (List PlannedOp) → List (Scenario F)
fewer_operations_from s client [] = []
fewer_operations_from s client (plan ∷ plans) =
    map (λ p. with_plans s (set s.plans client p))
      (halves plan ++ each_without (length plan) 0 plan)
    ++ fewer_operations_from s (suc client) plans

unfoldable pub fewer_operations : {F : Type 0} → Scenario F → Option Text → List (Scenario F)
fewer_operations s key = fewer_operations_from s 0 s.plans

abbrev is_empty : List PlannedOp → Bool
is_empty [] = true
is_empty (op ∷ plan) = false

-- `_fewer_clients`
unfoldable pub fewer_clients : {F : Type 0} → Scenario F → Option Text → List (Scenario F)
fewer_clients s key =
    if leb (length s.plans) 1
    then []
    else if_new s (keep (λ plan. not (is_empty plan)) s.plans)
      ++ map (with_plans s) (each_without (length s.plans) 0 s.plans)

-- `a % n` for a positive `n`
unfoldable pub modulo : ℤ → ℕ → ℤ
modulo (pos a) n = pos (a % n)
modulo (negsuc a) n = pos (n - 1 - a % n)

-- `_rehome`
abbrev pub rehome : ℕ → PlannedOp → PlannedOp
rehome replicas op = record op { coordinator = modulo op.coordinator replicas }

-- The loop of `_confine`.
unfoldable pub confine_faults : ℕ → List InjectedFault → List InjectedFault
confine_faults replicas [] = []
confine_faults replicas (f ∷ fs) =
    let rest = confine_faults replicas fs in
    let targets = keep (λ node. ltb_ℤ node (pos replicas)) f.targets in
    elim targets [ [] ↦ rest | t ∷ ts ↦ record f { targets = t ∷ ts } ∷ rest ]

abbrev pub confine : ℕ → Option (List InjectedFault) → Option (List InjectedFault)
confine replicas none = none
confine replicas (some faults) = some (confine_faults replicas faults)

-- `StoreConfig(...)` of the smaller cluster: the last two fields are the defaults of the class.
abbrev pub smaller_store : StoreConfig → ℕ → StoreConfig
smaller_store store size = record {
  replicas = pos size;
  read_quorum = pos (size / 2 + 1);
  write_quorum = pos (size / 2 + 1);
  request_timeout_ms = store.request_timeout_ms;
  stable_versions = true;
  read_repair = true;
}

abbrev pub shrunk : {F : Type 0} → Scenario F → ℕ → Scenario F
shrunk s size = record s {
  store = smaller_store s.store size;
  plans = map (λ plan. map (rehome size) plan) s.plans;
  schedule = confine size s.schedule;
}

-- The sizes from `size` on, `n` of them.
abbrev pub shrunk_from : {F : Type 0} → Scenario F → ℕ → ℕ → List (Scenario F)
shrunk_from s zero size = []
shrunk_from s (suc n) size = shrunk s size ∷ shrunk_from s n (suc size)

-- `_smaller_cluster`
unfoldable pub smaller_cluster : {F : Type 0} → Scenario F → Option Text → List (Scenario F)
smaller_cluster s key = shrunk_from s (pos_part s.store.replicas - 3) 3

-- `seen` of `_plainer_values`: the number that each written value becomes.
abbrev note_value : Dict ℤ ℕ → Value → Dict ℤ ℕ
note_value seen none = seen
note_value seen (some v) =
    if is_some (lookup ℤ_discrete v seen) then seen else insert ℤ_discrete v (length seen + 1) seen

abbrev note_plan : Dict ℤ ℕ → List PlannedOp → Dict ℤ ℕ
note_plan seen [] = seen
note_plan seen (op ∷ plan) = note_plan (note_value seen op.argument) plan

abbrev pub note_plans : Dict ℤ ℕ → List (List PlannedOp) → Dict ℤ ℕ
note_plans seen [] = seen
note_plans seen (plan ∷ plans) = note_plans (note_plan seen plan) plans

-- `seen[op.argument]` finds every value that is written.
abbrev renumbered : Dict ℤ ℕ → Value → Value
renumbered seen none = none
renumbered seen (some v) = elim (lookup ℤ_discrete v seen) [ none ↦ some v | some n ↦ some (pos n) ]

abbrev is_plain : Dict ℤ ℕ → Bool
is_plain seen = all (λ (e : ℤ × ℕ). holds (ℤ_discrete e.0 (pos e.1))) seen

-- `_plainer_values`; with nothing written every entry is plain, too.
unfoldable pub plainer_values : {F : Type 0} → Scenario F → Option Text → List (Scenario F)
plainer_values s key =
    let seen = note_plans [] s.plans in
    if is_plain seen
    then []
    else with_plans s (
        map
          (λ plan.
            map (λ (op : PlannedOp). record op { argument = renumbered seen op.argument }) plan)
          s.plans)
      ∷ []

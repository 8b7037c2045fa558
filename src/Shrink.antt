-- ===== src/Shrink.antt =====
-- cassette/shrink/reduce.py: the loop that tries smaller scenarios, over an abstract run.
pub mod Moves
pub mod Shapes
pub mod Accepted
mod Tests
use cassette.Base.{
  ℕ, zero, suc, ◌+◌, ◌-◌, ◌*◌, ◌≤◌, ◌<◌, ◌≡◌, refl, sym, ap, subst, ◌∙◌, ◌≢◌, ◌↔◌, ◌⊎◌, inl, inr,
  ite, dite, if_pos, if_neg, Bool, true, false, not, ◌&&◌, ◌||◌, Option, none, some, List, [], ◌∷◌,
  ◌++◌, map, arith, ltb, leb, ◌==◌, if◌then◌else◌, holds, is_some, Bool-cases, Option-cases,
  if-elim, holds→, ltb→lt, length, get_elem?, set, take, drop, any, all, keep, length-append,
  length-keep-le, length-map, All, All-append, In, In-keep, In_of_keep, keep-ext, all-ext,
  all_of_In, In_of_all, not_of_any, any_of_none, length-keep_mono, length-keep-lt, In-map,
  In_of_map, ℕ_discrete, ℤ, pos, negsuc, ℤ_discrete, pos_part, neg_part, sub_ℕ, ◌+ℤ◌, ◌-ℤ◌, ◌≤ℤ◌,
  ◌<ℤ◌, ltb_ℤ, leb_ℤ, max_ℤ, +ℤ_parts, -ℤ_parts, eq_of_parts, int_laws, range_from, range, Dict,
  lookup, insert, remove, lookup-insert, lookup-remove, length-insert, member, add, discard,
  member-add, member-discard, HasDistinctKeys, insert-HasDistinctKeys, remove-HasDistinctKeys,
  IsDistinct, add-IsDistinct, length-discard-le, length-discard, length-le_of_subset, Text, text,
  text_discrete, leb_text, show_ℕ, show_ℤ, read_ℤ, read_ℤ-show_ℤ, after_colon,
}
use Prim.Native.Nat.{◌/◌, ◌%◌}
use cassette.Kv.Config.{StoreConfig, default_config}
use cassette.Kv.Client.{PlannedOp}
use cassette.Checker.Linear.{Verdict, violated}
use cassette.Sim.Faults.{InjectedFault}
use cassette.Shrink.Moves.{
  only_the_failing_key, fewer_faults, fewer_operations, fewer_clients, smaller_cluster, no_thinking,
  plainer_values,
}
use cassette.Scenario.{Scenario, operation_count}

pub record Size : Type 0 where
  pub replicas : ℤ
  pub clients : ℕ
  pub operations : ℕ
  pub faults : ℕ
  pub events : ℕ

-- `n * 10`
abbrev ten_times : ℤ → ℤ
ten_times (pos n) = pos (n * 10)
ten_times (negsuc n) = negsuc (n * 10 + 9)

unfoldable pub weight : Size → ℤ
weight z =
    pos (z.operations * 100 + z.faults * 50 + z.clients * 20)
    +ℤ ten_times z.replicas
    +ℤ pos z.events

-- What `execute` gives back of a run, as far as the reducer reads it.
pub record Run (F : Type 0) : Type 0 where
  pub scenario : Scenario F
  pub delivered : ℕ
  pub verdict : Option Verdict
  pub schedule : List InjectedFault

abbrev pub pinned : {F : Type 0} → Run F → Scenario F
pinned run = record run.scenario { schedule = some run.schedule }

abbrev pub size_of : {F : Type 0} → Run F → Size
size_of run = record {
  replicas = run.scenario.store.replicas;
  clients = length run.scenario.plans;
  operations = operation_count run.scenario;
  faults = length run.schedule;
  events = run.delivered;
}

abbrev key_discrete : Discrete (Option Text)
key_discrete = hlevel text_discrete

abbrev reproduces : Option Verdict → Verdict → Bool
reproduces none like = false
reproduces (some v) like = violated v && holds (key_discrete v.key like.key)

unfoldable pub fails_the_same_way : {F : Type 0} → Run F → Verdict → Bool
fails_the_same_way run like = reproduces run.verdict like

-- The variables that `accept` changes.
pub record Search (F : Type 0) : Type 0 where
  pub best : Scenario F
  pub best_run : Run F
  pub best_size : Size
  pub spent : ℕ

abbrev pub Move : Type 0 → Type 0
Move F = Scenario F → Option Text → List (Scenario F)

-- `execute` and the shapes of the second phase, `_small_shapes`, are given.
module _ {F : Type 0} (execute : Scenario F → Run F) (target : Verdict) (budget : ℕ) where
  unfoldable pub accept : Scenario F → Search F → Bool × Search F
  accept candidate st =
      let run = execute candidate in
      let tried = record st { spent = suc st.spent } in
      if leb budget st.spent
      then (false, st)
      else if not (fails_the_same_way run target)
      then (false, tried)
      else if leb_ℤ (weight st.best_size) (weight (size_of run))
      then (false, tried)
      else (
        true,
        record { best = candidate; best_run = run; best_size = size_of run; spent = suc st.spent },
      )

  -- The candidates of one move, up to the first that is accepted.
  pub try_all : List (Scenario F) → Search F → Bool × Search F
  try_all [] st = (false, st)
  try_all (c ∷ cs) st = elim (accept c st).0 [
    | true ↦ (true, (accept c st).1)
    | false ↦ try_all cs (accept c st).1
  ]

  -- The moves in turn, each on the best scenario so far.
  pub try_moves : List (Move F) → Search F → Bool × Search F
  try_moves [] st = (false, st)
  try_moves (move ∷ moves) st =
      let (changed, st') = try_all (move st.best target.key) st in
      let (more, st'') = try_moves moves st' in (changed || more, st'')

  -- `while changed and spent < budget`, on fuel: every pass that changes something spends.
  pub delete : ℕ → List (Move F) → Search F → Search F
  delete zero moves st = st
  delete (suc fuel) moves st =
      let (changed, st') = try_moves moves st in
      let rest = delete fuel moves st' in
      if ltb st.spent budget then (if changed then rest else st') else st

  -- The shapes, until one is accepted or the budget is spent.
  abbrev pub rebuild : List (Scenario F) → Search F → Bool × Search F
  rebuild shapes st = try_all shapes st

-- What survived is pinned, if it still fails the same way.
abbrev pub pin : {F : Type 0} → (Scenario F → Run F) → Verdict → Search F → Search F
pin execute target st =
    let pinned_run = execute (pinned st.best_run) in
    if fails_the_same_way pinned_run target
    then record st { best = pinned st.best_run; best_run = pinned_run }
    else st

-- The moves of `shrink`, in its order.
abbrev pub all_moves : {F : Type 0} → List (Move F)
all_moves =
    only_the_failing_key ∷ fewer_faults ∷ fewer_operations ∷ fewer_clients ∷ smaller_cluster
    ∷ no_thinking ∷ plainer_values ∷ []

pub record Reduction (F : Type 0) : Type 0 where
  pub original : Scenario F
  pub original_size : Size
  pub deleted_size : Size
  pub reduced : Scenario F
  pub reduced_size : Size
  pub verdict : Option Verdict
  pub candidates : ℕ
  pub rebuilt : Bool

-- The body of `shrink` for a run that failed with the verdict `target`.
abbrev pub shrink_from :
    {F : Type 0}
    → (Scenario F → Run F)
    → (Option Text → Scenario F → List (Scenario F))
    → List (Move F)
    → Scenario F
    → ℕ
    → Run F
    → Verdict
    → Reduction F
shrink_from execute shapes moves scenario budget original target =
    let first = execute (pinned original) in
    let started : Search _ = record {
      best = pinned original;
      best_run = first;
      best_size = size_of first;
      spent = 0;
    } in
    let deleted = delete execute target budget (suc budget) moves started in
    let (rebuilt, found) = rebuild execute target budget (shapes target.key scenario) deleted in
    let final = pin execute target found in
    record {
      original = scenario;
      original_size = size_of original;
      deleted_size = deleted.best_size;
      reduced = final.best;
      reduced_size = final.best_size;
      verdict = final.best_run.verdict;
      candidates = final.spent;
      rebuilt = rebuilt;
    }

abbrev shrink_verdict :
    {F : Type 0}
    → (Scenario F → Run F)
    → (Option Text → Scenario F → List (Scenario F))
    → Scenario F
    → ℕ
    → Run F
    → Option Verdict
    → Option (Reduction F)
shrink_verdict execute shapes scenario budget original none = none
shrink_verdict execute shapes scenario budget original (some v) =
    if violated v
    then some (shrink_from execute shapes all_moves scenario budget original v)
    else none

-- `none` is the `ValueError` of a scenario that does not fail.
unfoldable pub shrink :
    {F : Type 0}
    → (Scenario F → Run F)
    → (Option Text → Scenario F → List (Scenario F))
    → Scenario F
    → ℕ
    → Option (Reduction F)
shrink execute shapes scenario budget =
    let original = execute scenario in
    shrink_verdict execute shapes scenario budget original original.verdict

-- ===== src/Sim/Faults.antt =====
-- cassette/sim/faults.py: the adversary's budget, and the decisions that it wrote down. The rates
-- are floats of a type `F`, of which only the test `0.0 <= value <= 1.0` is used.
use cassette.Base.{
  ◌≡◌, refl, Bool, true, false, not, ◌||◌, Option, none, some, List, [], ◌∷◌, arith, if◌then◌else◌,
  All, ℤ, pos, ◌≤ℤ◌, ◌<ℤ◌, ltb_ℤ, leb_ℤ, Text, text,
}

abbrev pub MillisecondRange : Type 0
MillisecondRange = ℤ × ℤ

pub record FaultConfig (F : Type 0) : Type 0 where
  pub latency_ms : MillisecondRange
  pub drop_rate : F
  pub dup_rate : F
  pub partition_rate : F
  pub partition_duration_ms : MillisecondRange
  pub crash_rate : F
  pub crash_duration_ms : MillisecondRange
  pub pause_rate : F
  pub pause_duration_ms : MillisecondRange
  pub clock_skew_ms : ℤ
  pub tick_ms : ℤ

-- The defaults of the class, with `nought` for `0.0`.
abbrev pub default_faults : {F : Type 0} → F → FaultConfig F
default_faults nought = record {
  latency_ms = (pos 1, pos 20);
  drop_rate = nought;
  dup_rate = nought;
  partition_rate = nought;
  partition_duration_ms = (pos 200, pos 2000);
  crash_rate = nought;
  crash_duration_ms = (pos 100, pos 1000);
  pause_rate = nought;
  pause_duration_ms = (pos 50, pos 500);
  clock_skew_ms = pos 0;
  tick_ms = pos 100;
}

-- The `ValueError`s of the constructor.
pub data FaultError (F : Type 0) : Type 0 where
  not_a_probability : Text → F → FaultError F
  negative_range : Text → MillisecondRange → FaultError F
  inverted_range : Text → MillisecondRange → FaultError F
  negative_skew : ℤ → FaultError F
  bad_tick : ℤ → FaultError F

abbrev check_rate : {F : Type 0} → (F → Bool) → Text → F → Option (FaultError F)
check_rate is_rate name value =
    if not (is_rate value) then some (not_a_probability name value) else none

abbrev check_range : {F : Type 0} → Text → MillisecondRange → Option (FaultError F)
check_range name value =
    if ltb_ℤ value.0 (pos 0)
    then some (negative_range name value)
    else if ltb_ℤ value.1 value.0
    then some (inverted_range name value)
    else none

-- The first check that raises.
abbrev first_error : {F : Type 0} → List (Option (FaultError F)) → Option (FaultError F)
first_error [] = none
first_error (none ∷ checks) = first_error checks
first_error (some e ∷ checks) = some e

-- The checks of `__post_init__`, in order.
abbrev checks : {F : Type 0} → (F → Bool) → FaultConfig F → List (Option (FaultError F))
checks is_rate c =
    check_range (text "latency_ms") c.latency_ms
    ∷ check_range (text "partition_duration_ms") c.partition_duration_ms
    ∷ check_range (text "crash_duration_ms") c.crash_duration_ms
    ∷ check_range (text "pause_duration_ms") c.pause_duration_ms
    ∷ check_rate is_rate (text "drop_rate") c.drop_rate
    ∷ check_rate is_rate (text "dup_rate") c.dup_rate
    ∷ check_rate is_rate (text "partition_rate") c.partition_rate
    ∷ check_rate is_rate (text "crash_rate") c.crash_rate
    ∷ check_rate is_rate (text "pause_rate") c.pause_rate
    ∷ (if ltb_ℤ c.clock_skew_ms (pos 0) then some (negative_skew c.clock_skew_ms) else none)
    ∷ (if leb_ℤ c.tick_ms (pos 0) then some (bad_tick c.tick_ms) else none)
    ∷ []

-- `__post_init__`; `none` is a configuration that is accepted.
unfoldable pub post_init : {F : Type 0} → (F → Bool) → FaultConfig F → Option (FaultError F)
post_init is_rate c = first_error (checks is_rate c)

-- `is_zero` is the falsity of a float.
unfoldable pub injects_anything : {F : Type 0} → (F → Bool) → FaultConfig F → Bool
injects_anything is_zero c =
    not (is_zero c.partition_rate) || (not (is_zero c.crash_rate) || not (is_zero c.pause_rate))

unfoldable pub without_faults : {F : Type 0} → F → FaultConfig F → FaultConfig F
without_faults nought c = record (default_faults nought) {
  latency_ms = c.latency_ms;
  tick_ms = c.tick_ms;
}

pub record InjectedFault : Type 0 where
  pub at_ms : ℤ
  pub kind : Text
  pub duration_ms : ℤ
  pub targets : List ℤ

-- Where 0.0 is a rate and is false, the fault budget without faults is accepted whenever the
-- budget is, and gives the injector nothing to do.
without_faults-accepted :
    {F : Type 0} (is_rate is_zero : F → Bool) (nought : F) (c : FaultConfig F)
    → is_rate nought ≡ true
    → is_zero nought ≡ true
    → post_init is_rate c ≡ none
    → (post_init is_rate (without_faults nought c) ≡ none)
      × (injects_anything is_zero (without_faults nought c) ≡ false)
unfolding post_init without_faults injects_anything
without_faults-accepted is_rate is_zero nought c r z h = ground arith

pub latency_of_accepted :
    {F : Type 0} (is_rate : F → Bool) (c : FaultConfig F)
    → post_init is_rate c ≡ none
    → (pos 0 ≤ℤ c.latency_ms.0) × (c.latency_ms.0 ≤ℤ c.latency_ms.1)
unfolding post_init
latency_of_accepted is_rate c h = ground arith

-- A window of milliseconds that is not negative and not inverted.
abbrev pub IsWindow : MillisecondRange → Type 0
IsWindow r = (pos 0 ≤ℤ r.0) × (r.0 ≤ℤ r.1)

-- When no check raises, none of them does.
none_raised :
    {F : Type 0} (cs : List (Option (FaultError F)))
    → first_error cs ≡ none
    → All (λ c. c ≡ none) cs
none_raised [] h = tt
none_raised (none ∷ cs) h = (refl, none_raised cs h)
none_raised (some e ∷ cs) h = absurd (ground arith)

IsWindow-of_check :
    {F : Type 0} (name : Text) (r : MillisecondRange)
    → check_range {F = F} name r ≡ none
    → IsWindow r
IsWindow-of_check name r h = ground arith

skew_of_check :
    {F : Type 0} (skew : ℤ)
    → ◌≡◌ {A = Option (FaultError F)}
        (if ltb_ℤ skew (pos 0) then some (negative_skew skew) else none)
        none
    → pos 0 ≤ℤ skew
skew_of_check skew e = ground arith

tick_of_check :
    {F : Type 0} (tick : ℤ)
    → ◌≡◌ {A = Option (FaultError F)}
        (if leb_ℤ tick (pos 0) then some (bad_tick tick) else none)
        none
    → pos 0 <ℤ tick
tick_of_check tick e = ground arith

-- The ranges, the skew and the tick of an accepted budget.
pub ranges_of_accepted :
    {F : Type 0} (is_rate : F → Bool) (c : FaultConfig F)
    → post_init is_rate c ≡ none
    → IsWindow c.partition_duration_ms
      × IsWindow c.crash_duration_ms
      × IsWindow c.pause_duration_ms
      × (pos 0 ≤ℤ c.clock_skew_ms)
      × (pos 0 <ℤ c.tick_ms)
unfolding post_init
ranges_of_accepted {F = F} is_rate c h =
    let h' = none_raised (checks is_rate c) h in
    (
      IsWindow-of_check {F = F} (text "partition_duration_ms") c.partition_duration_ms h'.1.0,
      IsWindow-of_check {F = F} (text "crash_duration_ms") c.crash_duration_ms h'.1.1.0,
      IsWindow-of_check {F = F} (text "pause_duration_ms") c.pause_duration_ms h'.1.1.1.0,
      skew_of_check {F = F} c.clock_skew_ms h'.1.1.1.1.1.1.1.1.1.0,
      tick_of_check {F = F} c.tick_ms h'.1.1.1.1.1.1.1.1.1.1.0,
    )

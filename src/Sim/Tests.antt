-- ===== src/Sim/Tests.antt =====
-- A queue of three events, a random source that counts, and a cluster cut in two.
use cassette.Base.{
  ℕ, zero, suc, ◌-◌, ◌≤◌, ◌≡◌, refl, Bool, true, false, none, some, List, [], ◌∷◌, arith, ltb, leb,
  holds, length, ℕ_discrete, pos, ℤ_discrete, member, discard, Text, text,
}
use cassette.Sim.Clock.{advance_to}
use cassette.Sim.Events.{Event, fault_tick, control, comes_first}
use cassette.Sim.Scheduler.{Scheduler, schedule_at, pop}
use cassette.Sim.Scheduler.Order.{IsValid}
use cassette.Sim.Scheduler.Pop.{Popped, pop-Popped}
use cassette.Sim.Rng.{Source, shuffle, sample}
use cassette.Sim.Rng.Draws.{
  IsUnit, IsReordering, count, draws, shuffle-IsReordering, sample_distinct,
}
use cassette.Sim.Faults.{FaultConfig, default_faults, post_init, without_faults}
use cassette.Sim.Network.{
  Network, World, Note, partition_start_note, PartitionGroups, can_reach, partition_into, send,
}
use cassette.Sim.Network.Reach.{AreDisjoint, can_reach-partition_into}
use cassette.Sim.Injector.Quiet.{send-without_faults}
use cassette.Sim.Network.Delivery.{HasQueued, thrown}

-- Two events at 5, the first of them cancelled, and one at 9.
abbrev event_at : ℕ → ℕ → Event Text
event_at time n = record { time_ms = pos time; seq = n; node = control; action = fault_tick }

abbrev three_events : Scheduler Text
three_events = record {
  clock = record { now = pos 2 };
  heap = event_at 5 1 ∷ event_at 5 2 ∷ event_at 9 0 ∷ [];
  cancelled = 1 ∷ [];
  next_seq = 3;
}

three_events-IsValid : IsValid three_events
unfolding comes_first
three_events-IsValid = record {
  ordered = ((λ f i. ground arith), ((λ f i. ground arith), ((λ f i. absurd i), tt)));
  ahead = λ f i. ground arith;
  numbered = λ f i. ground arith;
}

pop-Popped_example : Popped three_events
pop-Popped_example = pop-Popped three_events three_events-IsValid

abbrev after_pop : Scheduler Text
after_pop = record three_events {
  clock = record { now = pos 5 };
  heap = event_at 9 0 ∷ [];
  cancelled = [];
}

pop-three_events : pop three_events ≡ some (some (event_at 5 2), after_pop)
unfolding pop member ℕ_discrete discard advance_to
pop-three_events = refl

abbrev four_events : Scheduler Text
four_events = record three_events {
  next_seq = 4;
  heap = event_at 5 1 ∷ event_at 5 2 ∷ event_at 7 3 ∷ event_at 9 0 ∷ [];
}

schedule_three_events : schedule_at (pos 7) control fault_tick three_events ≡ some (3, four_events)
unfolding schedule_at comes_first
schedule_three_events = refl

-- A source whose floats are places and whose places are at the start of every range.
abbrev counting : Source
counting = record {
  State = ℕ;
  Float = ℕ;
  random = λ g. (g, suc g);
  less = λ x p. ltb x p;
  scaled = λ x n. pos 0;
}

counting-IsUnit : IsUnit counting
counting-IsUnit g n h = (omega arith, h)

abbrev letters : List ℕ
letters = 4 ∷ 5 ∷ 5 ∷ 6 ∷ []

shuffle-IsReordering_example :
    (ys : List ℕ) × (shuffle counting letters 0 ≡ some (ys, draws counting (length letters - 1) 0))
    × IsReordering letters ys
shuffle-IsReordering_example = shuffle-IsReordering counting counting-IsUnit letters 0

sample_distinct_example :
    (ys : List ℕ) × (sample counting letters (pos 2) 0 ≡ some (ys, draws counting 2 0))
    × (length ys ≡ 2)
    × ((p : ℕ → Bool) → count p ys ≤ count p letters)
sample_distinct_example = sample_distinct counting counting-IsUnit 2 letters 0 (omega arith)

abbrev lossy : FaultConfig ℕ
lossy = record (default_faults 0) { drop_rate = 1; dup_rate = 9 }

abbrev is_rate : ℕ → Bool
is_rate x = leb x 10

lossy_accepted : post_init is_rate lossy ≡ none
unfolding post_init
lossy_accepted = refl

abbrev world : World counting Text
world = record {
  network = record { partition = none; next_msg_id = 0 };
  rng = 3;
  queue = three_events;
}

zero_never : (g : ℕ) → ltb g 0 ≡ false
zero_never g = ground arith

send-without_faults_example :
    (later : World counting Text) × (notes : List (Note Text)) × (send counting
        (without_faults 0 lossy)
        (pos 0)
        (pos 1)
        (text "hello")
        world
      ≡ some (0, later, notes))
    × HasQueued counting lossy (pos 0) (pos 1) (text "hello") 0 1 (thrown counting world) later
send-without_faults_example =
    send-without_faults {R = counting} is_rate 0 zero_never lossy lossy_accepted counting-IsUnit
      (pos 0) (pos 1) (text "hello") world three_events-IsValid

abbrev whole : Network
whole = record { partition = none; next_msg_id = 4 }

abbrev halves : PartitionGroups
halves = (pos 0 ∷ pos 1 ∷ []) ∷ (pos 2 ∷ pos 3 ∷ []) ∷ []

abbrev cut : Network
cut = record { partition = some halves; next_msg_id = 4 }

cut_whole : partition_into {M = Text} halves whole ≡ some (cut, partition_start_note halves ∷ [])
unfolding partition_into
cut_whole = refl

halves-AreDisjoint : AreDisjoint halves
unfolding member ℤ_discrete
halves-AreDisjoint node zero zero g h p q in_g in_h = refl
halves-AreDisjoint node zero (suc zero) g h p q in_g in_h = absurd (ground arith)
halves-AreDisjoint node (suc zero) zero g h p q in_g in_h = absurd (ground arith)
halves-AreDisjoint node (suc zero) (suc zero) g h p q in_g in_h = refl
halves-AreDisjoint node zero (suc (suc j)) g h p q in_g in_h = absurd (ground arith)
halves-AreDisjoint node (suc zero) (suc (suc j)) g h p q in_g in_h = absurd (ground arith)
halves-AreDisjoint node (suc (suc i)) j g h p q in_g in_h = absurd (ground arith)

zero_in_first : member ℤ_discrete (pos 0) (pos 0 ∷ pos 1 ∷ []) ≡ true
unfolding member ℤ_discrete
zero_in_first = refl

two_in_second : member ℤ_discrete (pos 2) (pos 2 ∷ pos 3 ∷ []) ≡ true
unfolding member ℤ_discrete
two_in_second = refl

can_reach-partition_into_example : can_reach cut (pos 0) (pos 2) ≡ holds (ℕ_discrete 0 1)
can_reach-partition_into_example =
    can_reach-partition_into {M = Text} halves whole {later = cut}
      {notes = partition_start_note halves ∷ []} (pos 0) (pos 2) 0 1 (pos 0 ∷ pos 1 ∷ [])
      (pos 2 ∷ pos 3 ∷ []) cut_whole halves-AreDisjoint refl refl zero_in_first two_in_second

-- ===== src/Checker/Tests.antt =====
-- A history with a write and two reads of one key: linearizable, and not when a read goes back.
use cassette.Base.{
  ℕ, ◌≡◌, refl, ◌⊎◌, inl, inr, true, false, none, some, [], ◌∷◌, In, ℕ_discrete, ℤ, pos, ℤ_discrete,
  lookup, insert, member, add, Text, text, text_discrete,
}
use cassette.Checker.History.{Operation, History, by_key, precedes, bounded, ok}
use cassette.Checker.Linearizable.{Linearizable}
use cassette.Kv.Version.{Value-discrete}
use cassette.Checker.Model.{apply, matches}
use cassette.Checker.Search.{
  search, found, failed, exhausted, required, covered, visited, candidates, pending, table,
  same_set,
}
use cassette.Checker.Search.Correct.{search_sound, search_complete, search-answers}
use cassette.Checker.Search.Finishes.{IsKnown}
use cassette.Checker.History.Indexed.{IsIndexed, IsIndexed-HasOwnIndices}
use cassette.Checker.History.Keys.{on_key, or_none, lookup-by_key}
use cassette.Checker.Linear.Blamed.{IsBlamed, blame-IsBlamed}
use cassette.Checker.Linear.Verdicts.{check_sound, check_complete}
use cassette.Checker.Linear.{
  Verdict, violated, check, check_key, blame, explain, cut_at, cannot_be_placed,
}

abbrev write_of : ℕ → ℤ → ℤ → ℤ → Operation
write_of i n from to = record {
  index = i;
  client = pos 5;
  kind = text "write";
  key = text "x";
  argument = some n;
  expected = none;
  invoked_ms = from;
  returned_ms = to;
  outcome = ok;
  result = none;
}

abbrev read_of : ℕ → ℤ → ℤ → ℤ → Operation
read_of i n from to = record {
  index = i;
  client = pos 6;
  kind = text "read";
  key = text "x";
  argument = none;
  expected = none;
  invoked_ms = from;
  returned_ms = to;
  outcome = ok;
  result = some n;
}

abbrev forward : History
forward =
    write_of 0 (pos 1) (pos 0) (pos 10)
    ∷ write_of 1 (pos 2) (pos 5) (pos 30)
    ∷ read_of 2 (pos 1) (pos 12) (pos 15)
    ∷ read_of 3 (pos 2) (pos 16) (pos 20)
    ∷ []

abbrev backward : History
backward =
    write_of 0 (pos 1) (pos 0) (pos 10)
    ∷ write_of 1 (pos 2) (pos 11) (pos 30)
    ∷ read_of 2 (pos 2) (pos 12) (pos 15)
    ∷ read_of 3 (pos 1) (pos 16) (pos 20)
    ∷ []

search-forward : search forward 100 ≡ found
unfolding search required covered member visited candidates pending table precedes bounded
    ℤ_discrete apply text_discrete matches add same_set Value-discrete ℕ_discrete
search-forward = refl

search-backward : search backward 100 ≡ failed
unfolding search required covered member visited candidates pending table precedes bounded
    ℤ_discrete apply text_discrete matches add same_set Value-discrete ℕ_discrete
search-backward = refl

abbrev fine : Verdict
fine = record {
  linearizable = true;
  key = none;
  operation = none;
  explanation = none;
  checked_operations = 4;
  exhausted = false;
}

check-forward : check forward 100 ≡ some fine
unfolding check check_key by_key insert lookup search required covered member visited candidates
    pending table precedes bounded ℤ_discrete apply text_discrete matches add same_set
    Value-discrete ℕ_discrete
check-forward = refl

abbrev broken : Verdict
broken = record {
  linearizable = false;
  key = some (text "x");
  operation = some 3;
  explanation = some (cannot_be_placed (read_of 3 (pos 1) (pos 16) (pos 20)));
  checked_operations = 4;
  exhausted = false;
}

check-backward : check backward 100 ≡ some broken
unfolding check check_key by_key insert lookup blame explain cut_at search required covered member
    visited candidates pending table precedes bounded ℤ_discrete apply text_discrete matches add
    same_set Value-discrete ℕ_discrete
check-backward = refl

forward-IsIndexed : IsIndexed 0 forward
forward-IsIndexed = (refl, (refl, (refl, (refl, tt))))

backward-IsIndexed : IsIndexed 0 backward
backward-IsIndexed = (refl, (refl, (refl, (refl, tt))))

search_sound_example : Linearizable forward
search_sound_example =
    search_sound forward 100 (IsIndexed-HasOwnIndices 0 forward forward-IsIndexed) search-forward

search_complete_example : ¬ Linearizable backward
search_complete_example =
    search_complete backward 100 (IsIndexed-HasOwnIndices 0 backward backward-IsIndexed)
      search-backward

backward-IsKnown : (op : Operation) → In op backward → IsKnown op
backward-IsKnown op (inl e) = rw e (inr (inl refl))
backward-IsKnown op (inr (inl e)) = rw e (inr (inl refl))
backward-IsKnown op (inr (inr (inl e))) = rw e (inl refl)
backward-IsKnown op (inr (inr (inr (inl e)))) = rw e (inl refl)
backward-IsKnown op (inr (inr (inr (inr i)))) = absurd i

search-answers_example :
    (search backward 100 ≡ found)
    ⊎ (search backward 100 ≡ failed)
    ⊎ (search backward 100 ≡ exhausted)
search-answers_example = search-answers backward 100 backward-IsKnown

check_sound_example : Linearizable (on_key (text "x") forward)
check_sound_example =
    check_sound forward 100 {v = fine} forward-IsIndexed check-forward refl (text "x")

broken-violated : violated broken ≡ true
unfolding violated
broken-violated = refl

check_complete_example :
    (key : Text) × (broken.key ≡ some key) × (¬ Linearizable (on_key key backward))
check_complete_example =
    check_complete backward 100 {v = broken} backward-IsIndexed check-backward broken-violated

lookup-by_key_example :
    or_none (lookup text_discrete (text "x") (by_key backward)) ≡ on_key (text "x") backward
lookup-by_key_example = lookup-by_key (text "x") backward

abbrev late_read : Operation
late_read = read_of 3 (pos 1) (pos 16) (pos 20)

blame-backward : blame backward 100 ≡ some (some late_read)
unfolding blame cut_at search required covered member visited candidates pending table precedes
    bounded ℤ_discrete apply text_discrete matches add same_set Value-discrete ℕ_discrete
blame-backward = refl

blame-IsBlamed_example : IsBlamed backward 100 late_read
blame-IsBlamed_example =
    blame-IsBlamed backward 100 {culprit = late_read}
      (IsIndexed-HasOwnIndices 0 backward backward-IsIndexed) blame-backward

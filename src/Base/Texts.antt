-- ===== src/Base/Texts.antt =====
-- Python's `str` as the list of its code points: comparison, decimal rendering and `int(...)`.
-- Of what `int` accepts, an optional minus sign and ASCII digits are modelled; the program hands
-- it nothing else.
use Prim.Native.Nat.{ℕ, zero, suc, ◌+◌, ◌-◌, ◌*◌, ◌/◌, ◌%◌, ◌<◌}
use Prim.Native.Char.{code}
use Prim.Native.String.{String}
use mathlib.Core.Path.{◌≡◌, refl, ap, ◌∙◌}
use mathlib.Core.Bool.{Bool, true, false, ◌&&◌}
use mathlib.Core.Option
use mathlib.Core.Option.{Option, none, some}
use mathlib.Core.List.{List, [], ◌∷◌, ◌++◌}
use native.Mathlib.Omega.{arith}
use native.Mathlib.Decide.{ℕ_discrete}
use mathlib.Core.Logic.{inl, inr}
use cassette.Base.Tests.{ltb, leb, ◌==◌, if◌then◌else◌, Bool-cases}
use cassette.Base.Int.{ℤ, pos, negsuc}

abbrev pub Text : Type 0
Text = List ℕ

abbrev pub text : String → Text
text String.[] = []
text (String.◌∷◌ c s) = code c ∷ text s

unfoldable pub text_discrete : Discrete Text
unfolding ℕ_discrete
text_discrete = hlevel ℕ_discrete

-- `a <= b` on strings: lexicographic by code point.
abbrev pub leb_text : Text → Text → Bool
leb_text [] b = true
leb_text (x ∷ a) [] = false
leb_text (x ∷ a) (y ∷ b) =
    let rest = leb_text a b in if ltb x y then true else if ltb y x then false else rest

show_digits : ℕ → ℕ → Text
show_digits zero n = []
show_digits (suc f) n =
    let high = show_digits f (n / 10) in
    if ltb n 10 then (48 + n) ∷ [] else high ++ (48 + n % 10) ∷ []

-- `str(n)`; there are at most as many digits as the fuel `n + 1`.
unfoldable pub show_ℕ : ℕ → Text
unfolding show_digits
show_ℕ n = show_digits (suc n) n

unfoldable pub show_ℤ : ℤ → Text
unfolding show_ℕ
show_ℤ (pos n) = show_ℕ n
show_ℤ (negsuc n) = b'-' ∷ show_ℕ (suc n)

abbrev is_digit : ℕ → Bool
is_digit c = leb 48 c && leb c 57

read_digits : ℕ → Text → Option ℕ
read_digits acc [] = some acc
read_digits acc (c ∷ cs) =
    let rest = read_digits (acc * 10 + (c - 48)) cs in if is_digit c then rest else none

abbrev minus : ℕ → ℤ
minus zero = pos 0
minus (suc n) = negsuc n

-- `int(raw)`; `none` is the `ValueError`.
unfoldable pub read_ℤ : Text → Option ℤ
unfolding read_digits
read_ℤ [] = none
read_ℤ (c ∷ []) = Option.map pos (read_digits 0 (c ∷ []))
read_ℤ (c ∷ d ∷ cs) =
    if c == b'-'
    then Option.map minus (read_digits 0 (d ∷ cs))
    else Option.map pos (read_digits 0 (c ∷ d ∷ cs))

read_digits-append :
    (acc m d : ℕ) (xs : Text)
    → read_digits acc xs ≡ some m
    → d < 10
    → read_digits acc (xs ++ (48 + d) ∷ []) ≡ some (m * 10 + d)
unfolding read_digits
read_digits-append acc m d [] h k = ground arith
read_digits-append acc m d (c ∷ cs) h k =
    ground (arith, read_digits-append (acc * 10 + (c - 48)) m d cs)

read_digits-show : (f n : ℕ) → n < f → read_digits 0 (show_digits f n) ≡ some n
unfolding show_digits read_digits
read_digits-show zero n h = absurd (omega arith)
read_digits-show (suc f) n h = ground (
  arith,
  read_digits-show f (n / 10),
  read_digits-append 0 (n / 10) (n % 10) (show_digits f (n / 10)),
)

-- What is printed starts with a digit.
abbrev StartsDigit : Text → Type 0
StartsDigit [] = ⊥
StartsDigit (c ∷ cs) = is_digit c ≡ true

StartsDigit-append : (a b : Text) → StartsDigit a → StartsDigit (a ++ b)
StartsDigit-append [] b h = absurd h
StartsDigit-append (c ∷ cs) b h = h

StartsDigit-show : (f n : ℕ) → n < f → StartsDigit (show_digits f n)
unfolding show_digits
StartsDigit-show zero n h = absurd (omega arith)
StartsDigit-show (suc f) n h = elim (Bool-cases (ltb n 10)) [
  | inl e ↦ rw e (ground arith)
  | inr e ↦
      rw e
        (StartsDigit-append (show_digits f (n / 10)) _ (StartsDigit-show f (n / 10) (ground arith)))
]

read_ℤ-digits : (a : Text) → StartsDigit a → read_ℤ a ≡ Option.map pos (read_digits 0 a)
unfolding read_ℤ
read_ℤ-digits [] h = absurd h
read_ℤ-digits (c ∷ []) h = refl
read_ℤ-digits (c ∷ d ∷ cs) h = ground arith

read_ℤ-minus : (a : Text) → StartsDigit a → read_ℤ (b'-' ∷ a) ≡ Option.map minus (read_digits 0 a)
unfolding read_ℤ
read_ℤ-minus [] h = absurd h
read_ℤ-minus (c ∷ cs) h = refl

-- `int(str(n))` is `n`.
pub read_ℤ-show_ℤ : (n : ℤ) → read_ℤ (show_ℤ n) ≡ some n
unfolding show_ℤ show_ℕ
read_ℤ-show_ℤ (pos n) =
    read_ℤ-digits _ (StartsDigit-show (suc n) n (omega arith))
    ∙ ap (Option.map pos) (read_digits-show (suc n) n (omega arith))
read_ℤ-show_ℤ (negsuc n) =
    read_ℤ-minus _ (StartsDigit-show (suc (suc n)) (suc n) (omega arith))
    ∙ ap (Option.map minus) (read_digits-show (suc (suc n)) (suc n) (omega arith))

-- The part of `tag.partition(":")` behind the colon.
unfoldable pub after_colon : Text → Text
after_colon [] = []
after_colon (c ∷ cs) = let rest = after_colon cs in if c == b':' then cs else rest

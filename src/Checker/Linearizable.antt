-- ===== src/Checker/Linearizable.antt =====
-- The definition that the search is judged against, in words that do not mention a search: an
-- order of the operations that respects real time and explains every answer.
use cassette.Base.{ℕ, ◌≡◌, true, false, some, List, [], ◌∷◌, map, In, ℕ_discrete, IsDistinct}
use cassette.Kv.Version.{Value}
use cassette.Checker.History.{Operation, completed, precedes}
use cassette.Checker.Model.{apply, matches, absent}

-- No later element of the sequence finished before an earlier one started.
abbrev pub InRealTime : List Operation → Type 0
InRealTime [] = Unit
InRealTime (a ∷ rest) = ((b : Operation) → In b rest → precedes b a ≡ false) × InRealTime rest

-- From a register that holds the value, each operation is answered as the client saw it.
abbrev pub Runs : Value → List Operation → Type 0
Runs state [] = Unit
Runs state (op ∷ rest) =
    (n : Value × Value) × (apply state op ≡ some n) × (matches op n.1 ≡ true) × Runs n.0 rest

abbrev pub indices : List Operation → List ℕ
indices seq = map (λ (op : Operation). op.index) seq

-- An operation whose outcome is unknown may be placed or left out; a completed one is placed.
pub record IsLinearization (ops seq : List Operation) : Type 0 where
  pub drawn : (op : Operation) → In op seq → In op ops
  pub distinct : IsDistinct ℕ_discrete (indices seq)
  pub whole : (op : Operation) → In op ops → completed op ≡ true → In op seq
  pub in_order : InRealTime seq
  pub legal : Runs absent seq

abbrev pub Linearizable : List Operation → Type 0
Linearizable ops = (seq : List Operation) × IsLinearization ops seq

-- An index names one operation.
abbrev pub HasOwnIndices : List Operation → Type 0
HasOwnIndices ops = (a b : Operation) → In a ops → In b ops → a.index ≡ b.index → a ≡ b

-- ===== src/Kv/Client/Tests.antt =====
-- A client with a write and a read to do.
use cassette.Base.{Bool, false, List, ◌≡◌, refl, true, none, some, [], ◌∷◌, pos, ◌+ℤ◌, text}
use cassette.Kv.Messages.{ClientReply, client_reply}
use cassette.Kv.Replica.{Effect}
use cassette.Checker.History.{Operation, History, write_kind, read_kind}
use cassette.Kv.Client.{PlannedOp, Client, next_timer, patience_timer, on_message, on_timer}
use cassette.Kv.Client.Settling.{
  pending_op, done_op, IsIssued, IsThrough, operation_done, operation_unknown, late_reply,
}

abbrev a_write : PlannedOp
a_write = record {
  kind = write_kind;
  key = text "x";
  argument = some (pos 4);
  expected = none;
  coordinator = pos 1;
  delay_ms = pos 10;
}

abbrev a_read : PlannedOp
a_read = record a_write { kind = read_kind; argument = none }

abbrev idle : Client
idle = record {
  node_id = pos 5;
  plan = a_write ∷ a_read ∷ [];
  patience_ms = pos 5000;
  index = 0;
  req = pos 5000000;
  outstanding = none;
}

abbrev reply : Bool → ClientReply
reply done = record { req = pos 5000001; done = done; value = none }

abbrev other_entry : Operation
other_entry = record (pending_op idle a_read (pos 3) 0) { client = pos 6 }

-- Another client has entered an operation since.
operation_done_example :
    (c₁ : Client) × (h₁ : History) × (calls : List Effect) × (on_timer (pos 10) next_timer idle []
      ≡ some (c₁, h₁, calls))
    × IsIssued idle [] a_write (pos 10) c₁ h₁ calls
    × (c₂ : Client) × (calls' : List Effect) × (on_message
          (pos 40)
          (pos 1)
          (client_reply (reply true))
          c₁
          (pending_op idle a_write (pos 10) 0 ∷ other_entry ∷ [])
        ≡ some (c₂, done_op idle a_write (pos 10) 0 (pos 40) none ∷ other_entry ∷ [], calls'))
    × IsThrough c₁ c₂ calls'
unfolding ◌+ℤ◌
operation_done_example =
    operation_done idle [] a_write (pos 10) refl (pos 40) (pos 1) (reply true) [] (other_entry ∷ [])
      refl refl refl

operation_unknown_example :
    (c₁ : Client) × (h₁ : History) × (calls : List Effect) × (on_timer (pos 10) next_timer idle []
      ≡ some (c₁, h₁, calls))
    × IsIssued idle [] a_write (pos 10) c₁ h₁ calls
    × (c₂ : Client) × (calls' : List Effect) × (on_message
          (pos 40)
          (pos 1)
          (client_reply (reply false))
          c₁
          (pending_op idle a_write (pos 10) 0 ∷ other_entry ∷ [])
        ≡ some (c₂, pending_op idle a_write (pos 10) 0 ∷ other_entry ∷ [], calls'))
    × (on_timer (pos 40) patience_timer c₁ (pending_op idle a_write (pos 10) 0 ∷ other_entry ∷ [])
        ≡ some (c₂, pending_op idle a_write (pos 10) 0 ∷ other_entry ∷ [], calls'))
    × IsThrough c₁ c₂ calls'
unfolding ◌+ℤ◌
operation_unknown_example =
    operation_unknown idle [] a_write (pos 10) refl (pos 40) (pos 1) (reply false) []
      (other_entry ∷ []) refl refl refl

late_reply_example :
    (c₁ c₂ c₃ : Client) × (calls₁ calls₂ calls₃ : List Effect) × (on_timer
        (pos 10)
        next_timer
        idle
        []
      ≡ some (c₁, pending_op idle a_write (pos 10) 0 ∷ [], calls₁))
    × (on_timer (pos 5010) patience_timer c₁ (pending_op idle a_write (pos 10) 0 ∷ [])
        ≡ some (c₂, pending_op idle a_write (pos 10) 0 ∷ [], calls₂))
    × ((g : History)
        → on_message (pos 5020) (pos 1) (client_reply (reply true)) c₂ g ≡ some (c₂, g, []))
    × (on_timer (pos 5020) next_timer c₂ (pending_op idle a_write (pos 10) 0 ∷ [])
        ≡ some (
          c₃,
          pending_op idle a_write (pos 10) 0 ∷ pending_op idle a_read (pos 5020) 1 ∷ [],
          calls₃,
        ))
    × ((g : History)
        → on_message (pos 5030) (pos 1) (client_reply (reply true)) c₃ g ≡ some (c₃, g, []))
unfolding ◌+ℤ◌
late_reply_example =
    late_reply idle [] a_write a_read (pos 10) (pos 5010) (pos 5020) (pos 5030) (pos 1) (reply true)
      refl refl refl

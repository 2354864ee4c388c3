-- ===== src/Rollout/Sequence.antt =====
-- The event log: its rows are numbered 1, 2, 3, … in the order in which they were appended.

pub mod Lifecycle
pub mod History
use agent_gtd.Prelude.{ℕ, suc, ◌+◌, ◌≡◌, List, [], ◌∷◌, ◌++◌, arith, length}
use agent_gtd.Text.{Text}
use agent_gtd.Rollout.Types.{RolloutEventKind, RolloutEventActor}
use agent_gtd.Rollout.Db.{Db, RolloutEvent, Payload}
use agent_gtd.Rollout.Events.{max_seq, append_event}

abbrev pub NumberedFrom : ℕ → List RolloutEvent → Type 0
NumberedFrom n [] = Unit
NumberedFrom n (e ∷ es) = (e.seq ≡ n + 1) × NumberedFrom (n + 1) es

pub record IsNumbered (s : Db) : Type 0 where
  pub numbers : NumberedFrom 0 s.events

max_seq-NumberedFrom :
    (n : ℕ) (e : RolloutEvent) (es : List RolloutEvent)
    → NumberedFrom n (e ∷ es)
    → max_seq (e ∷ es) ≡ n + length (e ∷ es)
unfolding max_seq
max_seq-NumberedFrom n e [] h = ground arith
max_seq-NumberedFrom n e (x ∷ es) h = ground (arith, max_seq-NumberedFrom (n + 1) x es h.1)

next_number : (es : List RolloutEvent) → NumberedFrom 0 es → max_seq es ≡ length es
unfolding max_seq
next_number [] h = ground arith
next_number (e ∷ es) h = omega (arith, max_seq-NumberedFrom 0 e es h)

NumberedFrom-snoc :
    (n : ℕ) (es : List RolloutEvent) (e : RolloutEvent)
    → NumberedFrom n es
    → e.seq ≡ (n + length es) + 1
    → NumberedFrom n (es ++ e ∷ [])
NumberedFrom-snoc n [] e h q = (omega arith, tt)
NumberedFrom-snoc n (x ∷ es) e h q = (h.0, NumberedFrom-snoc (n + 1) es e h.1 (omega arith))

-- Appending an event keeps the numbering.
pub append_event-IsNumbered :
    (kind : RolloutEventKind) (actor : RolloutEventActor) (details : Payload) (rule : Text) (s : Db)
    → IsNumbered s
    → IsNumbered (append_event kind actor details rule s)
append_event-IsNumbered kind actor details rule s h = record {
  numbers =
      NumberedFrom-snoc 0 s.events _ h.numbers (omega (arith, next_number s.events h.numbers));
}

-- ===== src/Rollout/Events.antt =====
-- The event log of a rollout: `_next_event_seq` and `_append_rollout_event`. Publishing the event to
-- subscribers does not touch the tables of `Db`.
use agent_gtd.Prelude.{ℕ, ◌+◌, List, [], ◌∷◌, ◌++◌, if◌then◌else◌, ltb}
use agent_gtd.Text.{Text}
use agent_gtd.Rollout.Types.{RolloutEventKind, RolloutEventActor}
use agent_gtd.Rollout.Db.{Db, Call, RolloutEvent, Payload, execute}

-- COALESCE(MAX(seq), 0)
unfoldable pub max_seq : List RolloutEvent → ℕ
max_seq [] = 0
max_seq (e ∷ es) = let rest = max_seq es in if ltb rest e.seq then e.seq else rest

abbrev pub next_event_seq : Db → ℕ
next_event_seq s = max_seq s.events + 1

abbrev pub append_event : RolloutEventKind → RolloutEventActor → Payload → Text → Db → Db
append_event kind actor payload rule s = record s {
  events =
      s.events
      ++ record {
        seq = next_event_seq s;
        kind = kind;
        actor = actor;
        decision_rule = rule;
        payload = payload;
      }
        ∷ [];
}

unfoldable pub append_rollout_event :
    RolloutEventKind → RolloutEventActor → Payload → Text → Call (Unit {0})
append_rollout_event kind actor payload rule = execute (append_event kind actor payload rule)

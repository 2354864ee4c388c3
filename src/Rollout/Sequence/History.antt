-- ===== src/Rollout/Sequence/History.antt =====
-- The event log along a history.
use agent_gtd.Prelude.{
  ℕ, ◌≡◌, refl, Bool, true, false, List, [], arith, Bool-cases, inl, inr, if◌then◌else◌,
}
use agent_gtd.Text.{Text}
use agent_gtd.Rollout.Types.{RolloutItemOutcome, RolloutEventKind, RolloutEventActor}
use agent_gtd.Rollout.Db.{Db, Payload, execute}
use agent_gtd.Rollout.Access.{get_item}
use agent_gtd.Rollout.Items.{
  set_item_done, closable, complete_item, check_halted_rollout_completion,
}
use agent_gtd.Rollout.Graph.{Statuses, unblock_successors}
use agent_gtd.Rollout.Frame.{release_rollout_item-Frame}
use agent_gtd.Rollout.Keeps.{Keeps, Keeps-execute, Keeps-bind, keeps_rules}
use agent_gtd.Rollout.Complete.{
  close_rollout, emit_wave_completed, close_out, heal_close, append_merge_note,
}
use agent_gtd.Rollout.Complete.Keeps.{StepsKeep, complete_item_in_rollout-keeps}
use agent_gtd.Rollout.History.{
  Message, Request, start, update_state, link, reset, complete, halt, cancel, handle,
  handle_request, run, run-keeps,
}
use agent_gtd.Rollout.Sequence.{IsNumbered, append_event-IsNumbered}
use agent_gtd.Rollout.Sequence.Lifecycle.{
  append-Keeps, silent, start-Keeps, update-Keeps, reset-Keeps, cancel-Keeps, halt-Keeps,
  link-Keeps,
}

if-IsNumbered :
    (b : Bool) (s t : Db) → IsNumbered s → IsNumbered t → IsNumbered (if b then s else t)
if-IsNumbered true s t h k = h
if-IsNumbered false s t h k = k

check-IsNumbered :
    (now i : ℕ) (s : Db) → IsNumbered s → IsNumbered (check_halted_rollout_completion now i s)
unfolding check_halted_rollout_completion
check-IsNumbered now i s h = elim (Bool-cases (closable i s)) [
  | inl yes_ ↦ rw yes_ (
      append_event-IsNumbered RolloutEventKind.wave_completed RolloutEventActor.human
        (Payload.auto_closed i) [] (close_rollout now s) (record { numbers = h.numbers }))
  | inr no_ ↦ rw no_ h
]

get_item-reads : (user i : ℕ) (s : Db) → (get_item user i s).1 ≡ s
unfolding get_item
get_item-reads user i s = ground arith

get_item-Keeps : (user i : ℕ) → Keeps IsNumbered (get_item user i)
get_item-Keeps user i = record { at = λ s h. rw (get_item-reads user i s) h }

complete_item-Keeps : (now user i : ℕ) → Keeps IsNumbered (complete_item now user i)
unfolding complete_item
complete_item-Keeps now user i = Keeps-bind (get_item user i) _ (get_item-Keeps user i) λ _.
    Keeps-bind (execute (set_item_done now i)) _ (silent (set_item_done now i) (λ s. refl))
      λ _. Keeps-execute (check_halted_rollout_completion now i) (check-IsNumbered now i)

note-Keeps :
    (i : ℕ) (o : RolloutItemOutcome) (note : Text)
    → Keeps IsNumbered (execute (append_merge_note i o note))
unfolding append_merge_note
note-Keeps i o note =
    Keeps-execute _ (λ s h. if-IsNumbered _ s _ h (append_event-IsNumbered _ _ _ _ s h))

emits : (total : ℕ) → Keeps IsNumbered (execute (emit_wave_completed total))
emits total = Keeps-execute (emit_wave_completed total) (append_event-IsNumbered _ _ _ _)

close_out-Keeps :
    (now i : ℕ) (o : RolloutItemOutcome) (rule note : Text) (m : Statuses)
    → Keeps IsNumbered (close_out now i o rule note m)
unfolding close_out
close_out-Keeps now i o rule note m =
    search (keeps_rules, append-Keeps, silent, note-Keeps, emits) depth 12

-- `_close_rollout`, then `_emit_wave_completed`
close_emit :
    (now total : ℕ)
    → Keeps IsNumbered (execute (λ s. emit_wave_completed total (close_rollout now s)))
close_emit now total =
    Keeps-execute _ (λ s h.
      append_event-IsNumbered _ _ _ _ (close_rollout now s) (record { numbers = h.numbers }))

heal_close-Keeps :
    (now i : ℕ) (o : RolloutItemOutcome) (note : Text) (m : Statuses)
    → Keeps IsNumbered (heal_close now i o note m)
unfolding heal_close
heal_close-Keeps now i o note m = search (keeps_rules, note-Keeps, close_emit) depth 12

IsNumbered-steps : StepsKeep IsNumbered
unfolding unblock_successors
IsNumbered-steps = record {
  writes = λ now i o actor s h. record { numbers = h.numbers };
  releases = λ r i s h. record { numbers = rw (release_rollout_item-Frame r i s).events h.numbers };
  completes = λ now user i. (complete_item-Keeps now user i).at;
  unblocks = λ i m s h. record { numbers = h.numbers };
  closes = λ now i o rule note m. (close_out-Keeps now i o rule note m).at;
  heals = λ now i o note m. (heal_close-Keeps now i o note m).at;
}

handle-IsNumbered : (m : Message) (s : Db) → IsNumbered s → IsNumbered (handle m s)
unfolding handle
handle-IsNumbered m s h = go m.request
  where
    go : (r : Request) → IsNumbered (handle_request m.now m.user_id m.rollout_id r s)
    go (start actor details) = (start-Keeps m.now m.user_id m.rollout_id actor details).at s h
    go (update_state phase item step) =
        (update-Keeps m.now m.user_id m.rollout_id phase item step).at s h
    go (link run_id item) = (link-Keeps run_id item).at s h
    go (reset item) = (reset-Keeps m.user_id m.rollout_id item).at s h
    go (complete item outcome actor rule note) =
        complete_item_in_rollout-keeps IsNumbered-steps m.now m.user_id m.rollout_id item outcome
          actor rule note s h
    go (halt c d reason comment item) =
        (halt-Keeps m.now c d m.user_id m.rollout_id reason comment item).at s h
    go (cancel reason) = (cancel-Keeps m.now m.user_id m.rollout_id reason).at s h

-- Along every history of starts, state reports, dispatch links, resets, completions, halts and
-- cancellations the events of the rollout are numbered from 1 without a gap or a repetition, if
-- they are at the start.
pub run-IsNumbered : (ms : List Message) (s : Db) → IsNumbered s → IsNumbered (run ms s)
run-IsNumbered ms s h = run-keeps IsNumbered handle-IsNumbered ms s h

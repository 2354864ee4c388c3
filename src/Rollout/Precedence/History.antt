-- ===== src/Rollout/Precedence/History.antt =====
-- The order of the plan along a history of Rollout/History, which has no resumption in it: what
-- `_resume_halted_rollout` does instead, which takes a halted predecessor for a terminal one, is in
-- Rollout/Resume.
use agent_gtd.Prelude.{List}
use agent_gtd.Rollout.Db.{Db}
use agent_gtd.Rollout.History.{
  Message, Request, start, update_state, link, reset, complete, halt, cancel, handle,
  handle_request, run, run-keeps,
}
use agent_gtd.Rollout.Complete.Order.{complete_item_in_rollout-IsOrdered}
use agent_gtd.Rollout.Precedence.{IsOrdered, WritesRows-IsOrdered, unchanged-IsQuiet}
use agent_gtd.Rollout.Precedence.Lifecycle.{
  skip_unfinished-IsQuiet, halt_open-IsQuiet, reset-IsQuiet, link-IsQuiet, start_rollout-WritesRows,
  update_rollout_state-WritesRows, reset_rollout_item-WritesRows, cancel_rollout-WritesRows,
  halt_rollout-WritesRows, link_build_run-WritesRows,
}

handle-IsOrdered : (m : Message) (s : Db) → IsOrdered s → IsOrdered (handle m s)
unfolding handle
handle-IsOrdered m s h = go m.request
  where
    go : (r : Request) → IsOrdered (handle_request m.now m.user_id m.rollout_id r s)
    go (start actor details) =
        WritesRows-IsOrdered unchanged-IsQuiet s _
          (start_rollout-WritesRows m.now m.user_id m.rollout_id s actor details) h
    go (update_state phase item step) =
        WritesRows-IsOrdered unchanged-IsQuiet s _
          (update_rollout_state-WritesRows m.now m.user_id m.rollout_id s phase item step) h
    go (link run_id item) =
        WritesRows-IsOrdered (link-IsQuiet item run_id) s _
          (link_build_run-WritesRows run_id item s) h
    go (reset item) =
        WritesRows-IsOrdered (reset-IsQuiet item) s _
          (reset_rollout_item-WritesRows m.now m.user_id m.rollout_id s item) h
    go (complete item outcome actor rule note) =
        complete_item_in_rollout-IsOrdered m.now m.user_id m.rollout_id item outcome actor rule note
          s h
    go (halt c d reason comment item) =
        WritesRows-IsOrdered halt_open-IsQuiet s _
          (halt_rollout-WritesRows m.now m.user_id m.rollout_id s c d reason comment item) h
    go (cancel reason) =
        WritesRows-IsOrdered skip_unfinished-IsQuiet s _
          (cancel_rollout-WritesRows m.now m.user_id m.rollout_id s reason) h

-- Along every history of starts, state reports, dispatch links, resets, completions, halts and
-- cancellations an item is ready or dispatched only while all its predecessors in the plan are
-- terminal, if that holds at the start. A resumption is not among these requests.
pub run-IsOrdered : (ms : List Message) (s : Db) → IsOrdered s → IsOrdered (run ms s)
run-IsOrdered ms s h = run-keeps IsOrdered handle-IsOrdered ms s h

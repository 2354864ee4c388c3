-- ===== src/Rollout/History.antt =====
-- Sequences of requests on one rollout: each is one call of an operation, in the order in which
-- they reach the database. The resumption of a halted rollout and the calls of other services that
-- write these tables are not among them.
use agent_gtd.Prelude.{ℕ, Option, List, [], ◌∷◌}
use agent_gtd.Text.{Text}
use agent_gtd.Rollout.Types.{RolloutItemOutcome, MergeActor, ManagerPhase, RolloutEventActor}
use agent_gtd.Rollout.Db.{Db, Payload}
use agent_gtd.Rollout.Complete.{complete_item_in_rollout}
use agent_gtd.Rollout.Lifecycle.{
  start_rollout, update_rollout_state, reset_rollout_item, cancel_rollout, halt_rollout,
  link_build_run,
}

pub data Request : Type 0 where
  start : RolloutEventActor → Payload → Request
  update_state : ManagerPhase → Option ℕ → Option Text → Request
  link : (run_id item_id : ℕ) → Request
  reset : (item_id : ℕ) → Request
  complete : (item_id : ℕ) → RolloutItemOutcome → Option MergeActor → (rule note : Text) → Request
  halt : (comment_id item_comment_id : ℕ) → Text → Option Text → Option ℕ → Request
  cancel : Text → Request

-- The caller, the rollout that is named, the time, and what is asked.
pub record Message : Type 0 where
  pub user_id : ℕ
  pub rollout_id : ℕ
  pub now : ℕ
  pub request : Request

module _ (now user rid : ℕ) where
  unfoldable pub handle_request : Request → Db → Db
  handle_request (start actor details) s = (start_rollout now user rid actor details s).1
  handle_request (update_state phase item step) s =
      (update_rollout_state now user rid phase item step s).1
  handle_request (link run item) s = (link_build_run run item s).1
  handle_request (reset item) s = (reset_rollout_item user rid item s).1
  handle_request (complete item outcome actor rule note) s =
      (complete_item_in_rollout now user rid item outcome actor rule note s).1
  handle_request (halt c d reason comment item) s =
      (halt_rollout now c d user rid reason comment item s).1
  handle_request (cancel reason) s = (cancel_rollout now user rid reason s).1

unfoldable pub handle : Message → Db → Db
unfolding handle_request
handle m s = handle_request m.now m.user_id m.rollout_id m.request s

unfoldable pub run : List Message → Db → Db
run [] s = s
run (m ∷ ms) s = run ms (handle m s)

-- What each request keeps, every history keeps.
pub run-keeps :
    (P : Db → Type 0)
    → ((m : Message) (s : Db) → P s → P (handle m s))
    → (ms : List Message) (s : Db) → P s
    → P (run ms s)
unfolding run
run-keeps P step [] s h = h
run-keeps P step (m ∷ ms) s h = run-keeps P step ms (handle m s) (step m s h)

-- ===== src/Rollout/Complete/Keeps.antt =====
-- A property that every step of `complete_item_in_rollout` keeps is kept by the whole call, on
-- each branch, errors included.
use agent_gtd.Prelude.{ℕ, Bool, true, false, ◌&&◌, Option, none, some}
use agent_gtd.Text.{Text}
use agent_gtd.Rollout.Types.{RolloutItemOutcome, MergeActor, outcome_status}
use agent_gtd.Rollout.Db.{Db, Wave, RolloutItem, get_rollout-after, bind-after, when}
use agent_gtd.Rollout.Locks.{release_rollout_item}
use agent_gtd.Rollout.Items.{complete_item}
use agent_gtd.Rollout.Graph.{Statuses, load_item_statuses, set_status, unblock_successors}
use agent_gtd.Rollout.Complete.{
  Branch, repeat, override, proceed, refuse, is_completed_outcome, open_item, or_lead, branch_of,
  close_out, finish_completion, heal_close, heal_graph, heal_repeat_completion, record_outcome,
  write_row, write_outcome, take_branch, complete_found, find_row, complete_item_in_rollout,
}

pub record StepsKeep (P : Db → Type 0) : Type 0 where
  pub writes :
      (now i : ℕ) (o : RolloutItemOutcome) (actor : Option MergeActor) (s : Db)
      → P s
      → P (write_row i (write_outcome now o actor) s)
  pub releases : (r i : ℕ) (s : Db) → P s → P (release_rollout_item r i s)
  pub completes : (now user i : ℕ) (s : Db) → P s → P (complete_item now user i s).1
  pub unblocks : (i : ℕ) (m : Statuses) (s : Db) → P s → P (unblock_successors i m s).1
  pub closes :
      (now i : ℕ) (o : RolloutItemOutcome) (rule note : Text) (m : Statuses) (s : Db)
      → P s
      → P (close_out now i o rule note m s).1
  pub heals :
      (now i : ℕ) (o : RolloutItemOutcome) (note : Text) (m : Statuses) (s : Db)
      → P s
      → P (heal_close now i o note m s).1

module _ {P : Db → Type 0} (k : StepsKeep P) (now user rid i : ℕ) (o : RolloutItemOutcome)
    (actor : Option MergeActor) (rule note : Text) where
  when-keeps : (b : Bool) (s : Db) → P s → P (when b (complete_item now user i) s).1
  when-keeps true s h = k.completes now user i s h
  when-keeps false s h = h

  finish-keeps : (s : Db) → P s → P (finish_completion now i o rule note s).1
  unfolding finish_completion
  finish-keeps s h =
      let m = set_status (load_item_statuses s.rows) i (outcome_status o) in
      let open_ = k.unblocks i m s h in
      bind-after P (unblock_successors i m) _ s open_ λ x _.
        let closed = k.closes now i o rule note x.0 _ open_ in
        bind-after P (close_out now i o rule note x.0) _ _ closed (λ _ _. closed)

  heal_graph-keeps : (s : Db) → P s → P (heal_graph now i o note s).1
  unfolding heal_graph
  heal_graph-keeps s h =
      let open_ = k.unblocks i (load_item_statuses s.rows) s h in
      bind-after P (unblock_successors i (load_item_statuses s.rows)) _ s open_ λ x _.
        let closed = k.heals now i o note x.0 _ open_ in
        bind-after P (heal_close now i o note x.0) _ _ closed (λ _ _. closed)

  heal-keeps : (s : Db) → P s → P (heal_repeat_completion now user i o note s).1
  unfolding heal_repeat_completion
  heal-keeps s h =
      let b = is_completed_outcome o && open_item i s.items in
      let there = when-keeps b s h in
      bind-after P (when b (complete_item now user i)) (λ _. heal_graph now i o note) s there
        (λ _ _. heal_graph-keeps _ there)

  record_outcome-keeps :
      (by : Option MergeActor) (s : Db) → P s → P (record_outcome now user rid i o by rule note s).1
  unfolding record_outcome
  record_outcome-keeps by s h =
      let start = k.releases rid i _ (k.writes now i o by s h) in
      let there = when-keeps (is_completed_outcome o) _ start in
      bind-after P (when (is_completed_outcome o) (complete_item now user i))
        (λ _. finish_completion now i o rule note) _ there (λ _ _. finish-keeps _ there)

  take_branch-keeps :
      (b : Branch) (s : Db) → P s → P (take_branch now user rid i o actor rule note b s).1
  unfolding take_branch
  take_branch-keeps repeat s h = heal-keeps s h
  take_branch-keeps override s h = record_outcome-keeps (or_lead actor) s h
  take_branch-keeps proceed s h = record_outcome-keeps actor s h
  take_branch-keeps (refuse e) s h = h

  complete_found-keeps :
      (w : Wave) (found : Option RolloutItem) (s : Db)
      → P s
      → P (complete_found now user rid i o actor rule note w found s).1
  unfolding complete_found
  complete_found-keeps w none s h = h
  complete_found-keeps w (some row) s h = take_branch-keeps (branch_of w.status row.status o) s h

  pub complete_item_in_rollout-keeps :
      (s : Db) → P s → P (complete_item_in_rollout now user rid i o actor rule note s).1
  unfolding complete_item_in_rollout
  complete_item_in_rollout-keeps s h =
      get_rollout-after P user rid _ s h λ _. complete_found-keeps s.wave (find_row i s.rows) s h

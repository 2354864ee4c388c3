-- ===== src/Rollout/Complete/Order.antt =====
-- `complete_item_in_rollout` keeps the order of the plan, whether it returns or raises.
use agent_gtd.Prelude.{
  ℕ, ◌≡◌, refl, Bool, true, false, ◌&&◌, Option, none, some, List, arith, ◌==◌, if◌then◌else◌, inl,
  inr,
}
use agent_gtd.Text.{Text}
use agent_gtd.Rollout.Types.{RolloutItemStatus, RolloutItemOutcome, MergeActor, outcome_status}
use agent_gtd.Rollout.Db.{Db, RolloutItem, Wave, get_rollout-after, bind-after, when}
use agent_gtd.Rollout.Locks.{release_rollout_item}
use agent_gtd.Rollout.Access.{get_item}
use agent_gtd.Rollout.Events.{append_rollout_event}
use agent_gtd.Rollout.Items.{complete_item, check_halted_rollout_completion}
use agent_gtd.Rollout.Graph.{
  Statuses, get_status, set_status, load_item_statuses, unblock_successors,
}
use agent_gtd.Rollout.Graph.Views.{map?, get_status-map, get_status-set_status}
use agent_gtd.Rollout.Graph.Unblock.{Agrees}
use agent_gtd.Rollout.Graph.Progress.{view_of}
use agent_gtd.Rollout.Precedence.{
  IsOrdered, IsQuiet, WritesRows, WritesRows-IsOrdered, unchanged-IsQuiet, at_item,
}
use agent_gtd.Rollout.Precedence.Unblock.{unblock_successors-IsOrdered}
use agent_gtd.Rollout.Complete.{
  is_completed_outcome, open_item, Branch, repeat, override, proceed, refuse, branch_of,
  take_branch, complete_found, find_row, close_out, finish_completion, heal_close, heal_graph,
  heal_repeat_completion, record_outcome, write_row, write_outcome, complete_item_in_rollout,
  append_merge_note,
}

-- The call leaves the rows and the plan alone.
pub record Same (s t : Db) : Type 0 where
  pub rows : t.rows ≡ s.rows
  pub plan : t.plan ≡ s.plan

Same-IsOrdered : (s t : Db) → Same s t → IsOrdered s → IsOrdered t
Same-IsOrdered s t e =
    WritesRows-IsOrdered unchanged-IsQuiet s t (record { rows = inl e.rows; plan = e.plan })

pub close_out-Same :
    (now i : ℕ) (o : RolloutItemOutcome) (rule note : Text) (m : Statuses) (s : Db)
    → Same s (close_out now i o rule note m s).1
unfolding close_out append_rollout_event append_merge_note
close_out-Same now i o rule note m s = ground arith

heal_close-Same :
    (now i : ℕ) (o : RolloutItemOutcome) (note : Text) (m : Statuses) (s : Db)
    → Same s (heal_close now i o note m s).1
unfolding heal_close append_merge_note
heal_close-Same now i o note m s = ground arith

pub complete_item-Same : (now user i : ℕ) (s : Db) → Same s (complete_item now user i s).1
unfolding complete_item get_item check_halted_rollout_completion
complete_item-Same now user i s = ground arith

pub when-Same :
    (now user i : ℕ) (s : Db) (b : Bool) → Same s (when b (complete_item now user i) s).1
when-Same now user i s true = complete_item-Same now user i s
when-Same now user i s false = record { rows = refl; plan = refl }

Agrees-set_status :
    (m : Statuses) (rows : List RolloutItem) (i : ℕ) (t : RolloutItemStatus)
    → Agrees m rows
    → get_status m i ≡ map? (λ _. t) (get_status m i)
    → Agrees (set_status m i t) rows
Agrees-set_status m rows i t h e b = ground (arith, h b, get_status-set_status m i b t)

-- The row of `i` already says `t`, if it is there.
abbrev Recorded : ℕ → RolloutItemStatus → Db → Type 0
Recorded i t s = get_status (view_of s) i ≡ map? (λ _. t) (get_status (view_of s) i)

module _ (now i : ℕ) (o : RolloutItemOutcome) (rule note : Text) (s : Db) where
  finish_completion-IsOrdered :
      Recorded i (outcome_status o) s
      → IsOrdered s
      → IsOrdered (finish_completion now i o rule note s).1
  unfolding finish_completion
  finish_completion-IsOrdered r h =
      let m = set_status (load_item_statuses s.rows) i (outcome_status o) in
      let agrees = Agrees-set_status (view_of s) s.rows i (outcome_status o) (λ b. refl) r in
      let open_ = unblock_successors-IsOrdered i m s agrees h in
      bind-after IsOrdered (unblock_successors i m) _ s open_ λ x _.
        let t = (unblock_successors i m s).1 in
        let closed = Same-IsOrdered t _ (close_out-Same now i o rule note x.0 t) open_ in
        bind-after IsOrdered (close_out now i o rule note x.0) _ t closed (λ _ _. closed)

  heal_graph-IsOrdered : IsOrdered s → IsOrdered (heal_graph now i o note s).1
  unfolding heal_graph
  heal_graph-IsOrdered h =
      let open_ = unblock_successors-IsOrdered i (view_of s) s (λ b. refl) h in
      bind-after IsOrdered (unblock_successors i (view_of s)) _ s open_ λ x _.
        let t = (unblock_successors i (view_of s) s).1 in
        let closed = Same-IsOrdered t _ (heal_close-Same now i o note x.0 t) open_ in
        bind-after IsOrdered (heal_close now i o note x.0) _ t closed (λ _ _. closed)

write_outcome-IsQuiet :
    (now i : ℕ) (o : RolloutItemOutcome) (actor : Option MergeActor)
    → IsQuiet
        (at_item i (write_outcome now o actor))
        (λ a t. if a == i then outcome_status o else t)
write_outcome-IsQuiet now i o none = record {
  writes = λ r. ground arith;
  keeps = λ a t h. ground arith;
  releases = λ a t h. ground arith;
}
write_outcome-IsQuiet now i o (some actor) = record {
  writes = λ r. ground arith;
  keeps = λ a t h. ground arith;
  releases = λ a t h. ground arith;
}

module _ (now user rid i : ℕ) (o : RolloutItemOutcome) (actor : Option MergeActor)
    (rule note : Text) (s : Db) where
  abbrev written : Db
  written = release_rollout_item rid i (write_row i (write_outcome now o actor) s)

  written-WritesRows : WritesRows (at_item i (write_outcome now o actor)) s written
  unfolding release_rollout_item
  written-WritesRows = record { rows = inr refl; plan = refl }

  written-Recorded : Recorded i (outcome_status o) written
  unfolding release_rollout_item
  written-Recorded = ground (
    arith,
    get_status-map (at_item i (write_outcome now o actor)) _
        (write_outcome-IsQuiet now i o actor).writes s.rows i,
  )

  record_outcome-IsOrdered :
      IsOrdered s → IsOrdered (record_outcome now user rid i o actor rule note s).1
  unfolding record_outcome
  record_outcome-IsOrdered h =
      let m = when (is_completed_outcome o) (complete_item now user i) in
      let start =
        WritesRows-IsOrdered (write_outcome-IsQuiet now i o actor) s written written-WritesRows h in
      let same = when-Same now user i written (is_completed_outcome o) in
      let there = Same-IsOrdered written _ same start in
      bind-after IsOrdered m (λ _. finish_completion now i o rule note) written there
        λ _ _. finish_completion-IsOrdered now i o rule note _ (rw same.rows written-Recorded) there

  heal-IsOrdered : IsOrdered s → IsOrdered (heal_repeat_completion now user i o note s).1
  unfolding heal_repeat_completion
  heal-IsOrdered h =
      let m = when (is_completed_outcome o && open_item i s.items) (complete_item now user i) in
      let there =
        Same-IsOrdered s _ (when-Same now user i s (is_completed_outcome o && open_item i s.items))
          h in
      bind-after IsOrdered m (λ _. heal_graph now i o note) s there
        (λ _ _. heal_graph-IsOrdered now i o rule note _ there)

module _ (now user rid i : ℕ) (o : RolloutItemOutcome) (actor : Option MergeActor)
    (rule note : Text) where
  take_branch-IsOrdered :
      (b : Branch) (s : Db)
      → IsOrdered s
      → IsOrdered (take_branch now user rid i o actor rule note b s).1
  unfolding take_branch
  take_branch-IsOrdered repeat s h = heal-IsOrdered now user rid i o actor rule note s h
  take_branch-IsOrdered override s h = record_outcome-IsOrdered now user rid i o _ rule note s h
  take_branch-IsOrdered proceed s h = record_outcome-IsOrdered now user rid i o actor rule note s h
  take_branch-IsOrdered (refuse e) s h = h

  complete_found-IsOrdered :
      (w : Wave) (found : Option RolloutItem) (s : Db)
      → IsOrdered s
      → IsOrdered (complete_found now user rid i o actor rule note w found s).1
  unfolding complete_found
  complete_found-IsOrdered w none s h = h
  complete_found-IsOrdered w (some row) s h =
      take_branch-IsOrdered (branch_of w.status row.status o) s h

  -- `complete_item_in_rollout` keeps the order of the plan on every branch.
  pub complete_item_in_rollout-IsOrdered :
      (s : Db)
      → IsOrdered s
      → IsOrdered (complete_item_in_rollout now user rid i o actor rule note s).1
  unfolding complete_item_in_rollout
  complete_item_in_rollout-IsOrdered s h =
      get_rollout-after IsOrdered user rid _ s h
        λ _. complete_found-IsOrdered s.wave (find_row i s.rows) s h

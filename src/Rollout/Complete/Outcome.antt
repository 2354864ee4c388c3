-- ===== src/Rollout/Complete/Outcome.antt =====
-- What a completion that returns has done: the statuses, the answer, and the closing of the rollout.
use agent_gtd.Prelude.{
  ℕ, ◌≡◌, refl, ◌∙◌, ap, sym, Bool, true, false, ◌&&◌, Option, none, some, List, [], arith, ◌==◌,
  if◌then◌else◌, Bool-cases, inl, inr,
}
use agent_gtd.Prelude.Members.{mem, Nodup}
use agent_gtd.Text.{Text}
use agent_gtd.Exceptions.{Result, ok, err}
use agent_gtd.Graph.{Edge}
use agent_gtd.Rollout.Types.{
  RolloutStatus, RolloutItemStatus, RolloutItemOutcome, MergeActor, outcome_status,
}
use agent_gtd.Rollout.Db.{Db, Wave, RolloutItem, get_rollout, when, continue}
use agent_gtd.Rollout.Events.{append_rollout_event}
use agent_gtd.Rollout.Locks.{release_rollout_item}
use agent_gtd.Rollout.Items.{complete_item}
use agent_gtd.Rollout.Graph.{
  Statuses, load_item_statuses, get_status, set_status, unblock_each, unblock_successors,
  predecessors, successors, plan_edges,
}
use agent_gtd.Rollout.Graph.Unblock.{unblocked, unblock_each_newly, unblock_each_view}
use agent_gtd.Rollout.Graph.Progress.{keys, view_of}
use agent_gtd.Rollout.Complete.{
  Branch, repeat, override, proceed, refuse, Completion, all_finished, is_completed_outcome,
  append_merge_note, close_out, finish_completion, heal_graph, heal_repeat_completion,
  record_outcome, write_row, write_outcome, take_branch, complete_found, find_row,
  complete_item_in_rollout, or_lead, branch_of,
}
use agent_gtd.Rollout.Complete.Order.{close_out-Same, when-Same}
use agent_gtd.Rollout.Complete.Table.{
  set_status-write_outcome, set_status-again, keys-set_status, unblock_each-rows,
}

-- `a` waits behind `i` and, by the view `v`, behind nothing else that is open.
abbrev pub next_up : List Edge → Statuses → ℕ → ℕ → Bool
next_up es v i a = mem a (successors es i) && unblocked (predecessors es) v a

-- What the call leaves, when `v` is the view with the outcome recorded.
pub record Recorded (v : Statuses) (es : List Edge) (i : ℕ) (out : Completion) (t : Db)
    : Type 0 where
  pub statuses :
      (a : ℕ)
      → get_status (view_of t) a
        ≡ (if next_up es v i a then some RolloutItemStatus.ready else get_status v a)
  pub newly_ready : (a : ℕ) → mem a out.newly_ready ≡ next_up es v i a
  pub complete : out.graph_complete ≡ all_finished (view_of t)
  pub closed : out.graph_complete ≡ true → t.wave.status ≡ RolloutStatus.completed

close_out-returns :
    (now i : ℕ) (o : RolloutItemOutcome) (rule note : Text) (m : Statuses) (s : Db)
    → ((close_out now i o rule note m s).0 ≡ ok (all_finished m))
      × (all_finished m ≡ true
          → (close_out now i o rule note m s).1.wave.status ≡ RolloutStatus.completed)
unfolding close_out append_rollout_event append_merge_note
close_out-returns now i o rule note m s = ground arith

ok-inj : {A : Type 0} {a b : A} → ok a ≡ ok b → a ≡ b
ok-inj h = ground arith

module _ (now i : ℕ) (o : RolloutItemOutcome) (rule note : Text) (s : Db) (out : Completion)
    (distinct : Nodup (keys (view_of s)))
    (recorded : set_status (view_of s) i (outcome_status o) ≡ view_of s) where
  abbrev parts : List RolloutItem × Statuses × List ℕ
  parts =
      unblock_each (predecessors (plan_edges s)) (successors (plan_edges s) i) s.rows (view_of s) []

  finish_completion-closes :
      finish_completion now i o rule note s
      ≡ continue
          (close_out now i o rule note parts.1 (record s { rows = parts.0 })).0
          (λ complete t. (
            ok (record {
              newly_ready = parts.2;
              graph_complete = complete;
              already_recorded = false;
            }),
            t,
          ))
          (close_out now i o rule note parts.1 (record s { rows = parts.0 })).1
  unfolding finish_completion unblock_successors
  finish_completion-closes = rw recorded refl

  finish_completion-parts :
      (finish_completion now i o rule note s).0 ≡ ok out
      → let t = (finish_completion now i o rule note s).1 in
        (out.newly_ready ≡ parts.2)
        × (out.graph_complete ≡ all_finished parts.1)
        × (t.rows ≡ parts.0)
        × (all_finished parts.1 ≡ true → t.wave.status ≡ RolloutStatus.completed)
  finish_completion-parts h =
      let r = close_out-returns now i o rule note parts.1 (record s { rows = parts.0 }) in
      let q = close_out-Same now i o rule note parts.1 (record s { rows = parts.0 }) in
      let u = finish_completion-closes in ground (arith, r.0, r.1, q.rows, u)

  finish_completion-Recorded :
      (finish_completion now i o rule note s).0 ≡ ok out
      → Recorded (view_of s) (plan_edges s) i out (finish_completion now i o rule note s).1
  finish_completion-Recorded h =
      let (newly, complete, rows, closes) = finish_completion-parts h in
      let same =
        unblock_each-rows (predecessors (plan_edges s)) (successors (plan_edges s) i) s.rows
          (view_of s) [] refl distinct in
      let view = ap load_item_statuses rows ∙ sym same in
      record {
        statuses = λ a. rw view (
            unblock_each_view (predecessors (plan_edges s)) (successors (plan_edges s) i) s.rows
              (view_of s) [] a);
        newly_ready = λ a. rw newly (
            unblock_each_newly (predecessors (plan_edges s)) (successors (plan_edges s) i) s.rows
              (view_of s) [] a);
        complete = rw view complete;
        closed = λ c. closes (sym complete ∙ c);
      }

module _ (now user rid i : ℕ) (o : RolloutItemOutcome) (rule note : Text) (s : Db)
    (out : Completion) (distinct : Nodup (keys (view_of s))) where
  abbrev after_write : Statuses
  after_write = set_status (view_of s) i (outcome_status o)

  abbrev written : Option MergeActor → Db
  written actor = release_rollout_item rid i (write_row i (write_outcome now o actor) s)

  view-written : (actor : Option MergeActor) → view_of (written actor) ≡ after_write
  unfolding release_rollout_item
  view-written actor = set_status-write_outcome now i o actor s.rows

  finish-written :
      (actor : Option MergeActor) (t : Db)
      → t.rows ≡ (written actor).rows
      → t.plan ≡ s.plan
      → (finish_completion now i o rule note t).0 ≡ ok out
      → Recorded after_write (plan_edges s) i out (finish_completion now i o rule note t).1
  finish-written actor t rows plan h =
      let view = ap load_item_statuses rows ∙ view-written actor in
      rw (← view, ← plan)
        (finish_completion-Recorded now i o rule note t out
          (rw (view, keys-set_status (view_of s) i (outcome_status o)) distinct)
          (rw (view, set_status-again (view_of s) i (outcome_status o)) refl) h)

  continued :
      (actor : Option MergeActor) (r : Result Unit) (t : Db)
      → t.rows ≡ (written actor).rows
      → t.plan ≡ s.plan
      → (continue r (λ _. finish_completion now i o rule note) t).0 ≡ ok out
      → Recorded after_write
          (plan_edges s)
          i
          out
          (continue r (λ _. finish_completion now i o rule note) t).1
  continued actor (ok x) t rows plan h = finish-written actor t rows plan h
  continued actor (err e) t rows plan h = ground arith

  record_outcome-Recorded :
      (actor : Option MergeActor)
      → (record_outcome now user rid i o actor rule note s).0 ≡ ok out
      → Recorded after_write
          (plan_edges s)
          i
          out
          (record_outcome now user rid i o actor rule note s).1
  unfolding record_outcome release_rollout_item
  record_outcome-Recorded actor h =
      let same = when-Same now user i (written actor) (is_completed_outcome o) in
      continued actor (when (is_completed_outcome o) (complete_item now user i) (written actor)).0
        (when (is_completed_outcome o) (complete_item now user i) (written actor)).1 same.rows
        same.plan h

heal-already :
    (now user i : ℕ) (o : RolloutItemOutcome) (note : Text) (s : Db) (out : Completion)
    → (heal_repeat_completion now user i o note s).0 ≡ ok out
    → out.already_recorded ≡ true
unfolding heal_repeat_completion heal_graph unblock_successors
heal-already now user i o note s out h = ground arith

module _ (now user rid i : ℕ) (o : RolloutItemOutcome) (actor : Option MergeActor)
    (rule note : Text) (s : Db) (out : Completion) where
  take_branch-Recorded :
      (b : Branch)
      → Nodup (keys (view_of s))
      → (take_branch now user rid i o actor rule note b s).0 ≡ ok out
      → out.already_recorded ≡ false
      → Recorded
          (set_status (view_of s) i (outcome_status o))
          (plan_edges s)
          i
          out
          (take_branch now user rid i o actor rule note b s).1
  unfolding take_branch
  take_branch-Recorded repeat d h new = ground (arith, heal-already now user i o note s out h)
  take_branch-Recorded override d h new =
      record_outcome-Recorded now user rid i o rule note s out d (or_lead actor) h
  take_branch-Recorded proceed d h new =
      record_outcome-Recorded now user rid i o rule note s out d actor h
  take_branch-Recorded (refuse e) d h new = ground arith

  complete_found-Recorded :
      (w : Wave) (found : Option RolloutItem)
      → Nodup (keys (view_of s))
      → (complete_found now user rid i o actor rule note w found s).0 ≡ ok out
      → out.already_recorded ≡ false
      → Recorded
          (set_status (view_of s) i (outcome_status o))
          (plan_edges s)
          i
          out
          (complete_found now user rid i o actor rule note w found s).1
  unfolding complete_found
  complete_found-Recorded w none d h new = ground arith
  complete_found-Recorded w (some row) d h new =
      take_branch-Recorded (branch_of w.status row.status o) d h new

  -- A completion that returns and is not a repetition, on a rollout of distinct items: the item has
  -- the outcome for its status, exactly the pending items behind it with every predecessor terminal
  -- become ready and are named in the answer, every other status stays, the answer says whether
  -- every item is completed or skipped, and if so the rollout is completed.
  pub complete_item_in_rollout-Recorded :
      Nodup (keys (view_of s))
      → (complete_item_in_rollout now user rid i o actor rule note s).0 ≡ ok out
      → out.already_recorded ≡ false
      → Recorded
          (set_status (view_of s) i (outcome_status o))
          (plan_edges s)
          i
          out
          (complete_item_in_rollout now user rid i o actor rule note s).1
  unfolding complete_item_in_rollout get_rollout
  complete_item_in_rollout-Recorded d h new =
      elim (Bool-cases (rid == s.wave.id && s.wave.lead_user_id == user)) [
        | inl found ↦
            rw found (complete_found-Recorded s.wave (find_row i s.rows) d (rw found at h) new)
        | inr missing ↦ ground arith
      ]

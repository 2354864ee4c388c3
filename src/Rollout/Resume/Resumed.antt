-- ===== src/Rollout/Resume/Resumed.antt =====
-- What a resumption leaves behind.
use agent_gtd.Prelude.{
  ℕ, ◌≡◌, ◌∙◌, ap, refl, inl, inr, arith, Bool, not, ◌&&◌, Option, none, some, List, if◌then◌else◌,
}
use agent_gtd.Prelude.Members.{mem, Nodup}
use agent_gtd.Text.{Text}
use agent_gtd.Exceptions.{Result, ok}
use agent_gtd.Rollout.Types.{RolloutStatus, RolloutItemStatus, is_terminal, is_halted}
use agent_gtd.Graph.{Edge}
use agent_gtd.Rollout.Db.{Db, Run, RolloutItem}
use agent_gtd.Rollout.Events.{append_rollout_event}
use agent_gtd.Rollout.Access.{create_project_comment, verify_project_access, add_comment}
use agent_gtd.Rollout.Locks.{
  lock_of, lock_items_for_rollout, lock_items_for_rollout_all, item_exists,
}
use agent_gtd.Rollout.Graph.{get_status, all_done, predecessors, plan_edges}
use agent_gtd.Rollout.Graph.Progress.{keys, has, view_of}
use agent_gtd.Rollout.Resume.{
  restored_of, write_restored, set_each, non_terminal, is_kept, latest_build, post_resume_answer,
  resume_halted_rollout,
}
use agent_gtd.Rollout.Resume.Restore.{
  destination, mem-newly_dispatched, mem-newly_ready, mem-newly_pending, mem-non_terminal,
  overwrite, get_status-set_each,
}

-- The three loops write at most one status to an item.
settle :
    (g : Option RolloutItemStatus) (k d : Bool)
    → overwrite (has is_halted g && (not k && not d)) RolloutItemStatus.pending (
        overwrite
          (has is_halted g && (not k && d))
          RolloutItemStatus.ready
          (overwrite (has is_halted g && k) RolloutItemStatus.dispatched g))
      ≡ elim g [
        | none ↦ none
        | some t ↦ some (
            if is_halted t
            then if k
              then RolloutItemStatus.dispatched
              else if d
              then RolloutItemStatus.ready
              else RolloutItemStatus.pending
            else t)
      ]
settle none k d = refl
settle (some t) k d = ground arith

module _ (rid : ℕ) (s : Db) where
  abbrev kept : ℕ → Bool
  kept a = is_kept (latest_build rid a s.runs)

  abbrev before : ℕ → List ℕ
  before = predecessors (plan_edges s)

  -- Where the resumption takes an item with this status.
  abbrev pub resumed : ℕ → Option RolloutItemStatus → Option RolloutItemStatus
  resumed a g = elim g [
    | none ↦ none
    | some t ↦ some (if is_halted t then destination kept before (view_of s) a else t)
  ]

  status-write_restored :
      (a : ℕ)
      → Nodup (keys (view_of s))
      → get_status (view_of (write_restored (restored_of rid s) s)) a
        ≡ resumed a (get_status (view_of s) a)
  status-write_restored a d =
      let out = restored_of rid s in
      let view = view_of s in
      let first = set_each RolloutItemStatus.dispatched out.newly_dispatched s.rows in
      let second = set_each RolloutItemStatus.ready out.newly_ready first in
      get_status-set_each RolloutItemStatus.pending out.newly_pending second a
      ∙ rw
          (
            get_status-set_each RolloutItemStatus.ready out.newly_ready first a,
            get_status-set_each RolloutItemStatus.dispatched out.newly_dispatched s.rows a,
            mem-newly_pending kept before view view a d,
            mem-newly_ready kept before view view a d,
            mem-newly_dispatched kept before view view a d,
          )
          (settle (get_status view a) (kept a) (all_done view (before a)))

post_resume_answer-reads :
    (c project user : ℕ) (answer : Text) (s : Db)
    → let t = (post_resume_answer c project user answer s).1 in
      (t.rows ≡ s.rows) × (t.plan ≡ s.plan) × (t.runs ≡ s.runs) × (t.items ≡ s.items)
unfolding post_resume_answer create_project_comment verify_project_access add_comment
    append_rollout_event
post_resume_answer-reads c project user answer s = ground arith

lock-rows : (rid : ℕ) (ids : List ℕ) (s : Db) → (lock_items_for_rollout rid ids s).1.rows ≡ s.rows
unfolding lock_items_for_rollout
lock-rows rid ids s = ground arith

module _ (now c rid project user : ℕ) (answer : Text) (s : Db) where
  abbrev after : Db
  after = (resume_halted_rollout now c rid project user answer s).1

  abbrev answered : Db
  answered = (post_resume_answer c project user answer s).1

  abbrev locks : Result (Unit {0}) × Db
  locks =
      lock_items_for_rollout rid (non_terminal (view_of answered))
        (write_restored (restored_of rid answered) answered)

  resumes :
      (resume_halted_rollout now c rid project user answer s).0 ≡ ok tt
      → (locks.0 ≡ ok tt)
        × (after.rows ≡ locks.1.rows)
        × (after.items ≡ locks.1.items)
        × (after.wave.status ≡ RolloutStatus.running)
        × (after.wave.halt_reason ≡ none)
        × (after.wave.ended_at ≡ none)
  unfolding resume_halted_rollout append_rollout_event
  resumes h = ground arith

  abbrev rows_from : List RolloutItem → Option (List Edge) → List Run → List RolloutItem
  rows_from rows plan runs =
      let t = record s { rows = rows; plan = plan; runs = runs } in
      (write_restored (restored_of rid t) t).rows

  after-rows :
      (resume_halted_rollout now c rid project user answer s).0 ≡ ok tt
      → after.rows ≡ (write_restored (restored_of rid s) s).rows
  after-rows h =
      let (rows, plan, runs, items) = post_resume_answer-reads c project user answer s in
      let kept_rows = (resumes h).1 in
      kept_rows
      ∙ lock-rows rid (non_terminal (view_of answered))
          (write_restored (restored_of rid answered) answered)
      ∙ (ap (λ x. rows_from x answered.plan answered.runs) rows
          ∙ ap (λ x. rows_from (s.rows) x answered.runs) plan
          ∙ ap (λ x. rows_from (s.rows) (s.plan) x) runs)

  after-locks :
      (resume_halted_rollout now c rid project user answer s).0 ≡ ok tt
      → (a : ℕ)
      → lock_of a after.items ≡ (
          if mem a (non_terminal (view_of s)) && item_exists a s.items
          then some rid
          else lock_of a s.items)
  after-locks h a =
      let (rows, plan, runs, items) = post_resume_answer-reads c project user answer s in
      let (locked, kept_rows, new_items, status, reason, ended) = resumes h in
      elim (lock_items_for_rollout_all rid (non_terminal (view_of answered))
        (write_restored (restored_of rid answered) answered)) [
          | inl (refused, same) ↦ absurd (ground arith)
          | inr (done, all_locked) ↦ rw new_items (all_locked a ∙ rw (rows, items) refl)
        ]

  -- On a rollout whose items are distinct, a resumption that returns takes each halted item to
  -- dispatched if its latest build succeeded or is in flight, else to ready if all its
  -- predecessors were terminal, halted ones included, else to pending, and no other item; it locks
  -- exactly the existing items that were not terminal before, so none that it resumes; and the
  -- rollout runs.
  pub resume_halted_rollout_resumes :
      (resume_halted_rollout now c rid project user answer s).0 ≡ ok tt
      → Nodup (keys (view_of s))
      → ((a : ℕ) → get_status (view_of after) a ≡ resumed rid s a (get_status (view_of s) a))
        × ((a : ℕ)
            → lock_of a after.items ≡ (
                if has (λ t. not (is_terminal t)) (get_status (view_of s) a)
                  && item_exists a s.items
                then some rid
                else lock_of a s.items))
        × (after.wave.status ≡ RolloutStatus.running)
        × (after.wave.halt_reason ≡ none)
        × (after.wave.ended_at ≡ none)
  resume_halted_rollout_resumes h d =
      let (locked, kept_rows, new_items, status, reason, ended) = resumes h in
      (
        λ a. rw (after-rows h) (status-write_restored rid s a d),
        λ a. after-locks h a ∙ rw (mem-non_terminal (view_of s) a d) refl,
        status,
        reason,
        ended,
      )

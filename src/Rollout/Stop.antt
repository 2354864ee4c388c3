-- ===== src/Rollout/Stop.antt =====
-- What `halt_rollout` and `cancel_rollout` leave behind.
use agent_gtd.Prelude.{
  ℕ, ◌≡◌, refl, ap, Bool, true, false, ◌&&◌, ◌||◌, Option, none, some, List, [], ◌∷◌, arith, map,
  ◌==◌, if◌then◌else◌, filter, ◌++◌,
}
use agent_gtd.Prelude.Members.{mem}
use agent_gtd.Text.{Text, text}
use agent_gtd.Exceptions.{ok}
use agent_gtd.Rollout.Types.{
  RolloutStatus, RolloutItemStatus, LocalRunStatus, is_terminal, is_finished,
}
use agent_gtd.Rollout.Db.{Db, Run, Wave, get_rollout}
use agent_gtd.Rollout.Events.{append_rollout_event}
use agent_gtd.Rollout.Locks.{held_by, lock_of, release_rollout_locks, lock_of-release_rollout_locks}
use agent_gtd.Rollout.Access.{
  get_item, add_comment, verify_project_access, create_project_comment, create_item_comment,
}
use agent_gtd.Rollout.Graph.{get_status}
use agent_gtd.Rollout.Graph.Views.{map?, get_status-map}
use agent_gtd.Rollout.Graph.Progress.{view_of}
use agent_gtd.Rollout.Precedence.Lifecycle.{halt_open-IsQuiet, skip_unfinished-IsQuiet}
use agent_gtd.Rollout.Runs.{
  is_child_run, fetch_active_child_runs, cancel_one, cancel_child_runs, run_ids,
}
use agent_gtd.Rollout.Lifecycle.{
  cancel_rollout, halt_rollout, stop_rollout, Halted, is_unrouted, is_cancelled_wave, halt_open,
  skip_unfinished,
}

-- SELECT status FROM claude_runs WHERE id = $1
abbrev pub run_status : ℕ → List Run → Option LocalRunStatus
run_status a [] = none
run_status a (r ∷ rs) = let rest = run_status a rs in if r.id == a then some r.status else rest

-- Some run with this id has the property.
abbrev pub has_run : (Run → Bool) → ℕ → List Run → Bool
has_run p a [] = false
has_run p a (r ∷ rs) = (r.id == a && p r) || has_run p a rs

run_status-cancel_one :
    (now : ℕ) (reason : Text) (b a : ℕ) (rs : List Run)
    → run_status a (map (cancel_one now reason b) rs) ≡ (
        if b == a && has_run (λ r. true) a rs
        then some LocalRunStatus.cancelled
        else run_status a rs)
run_status-cancel_one now reason b a [] = ground arith
run_status-cancel_one now reason b a (r ∷ rs) =
    ground (arith, run_status-cancel_one now reason b a rs)

has_run-cancel_one :
    (now : ℕ) (reason : Text) (b a : ℕ) (rs : List Run)
    → has_run (λ r. true) a (map (cancel_one now reason b) rs) ≡ has_run (λ r. true) a rs
has_run-cancel_one now reason b a [] = refl
has_run-cancel_one now reason b a (r ∷ rs) = ground (arith, has_run-cancel_one now reason b a rs)

run_status-cancel_child_runs :
    (now : ℕ) (reason : Text) (cs : List Run) (a : ℕ) (rs : List Run)
    → run_status a (cancel_child_runs now reason cs rs) ≡ (
        if mem a (run_ids cs) && has_run (λ r. true) a rs
        then some LocalRunStatus.cancelled
        else run_status a rs)
unfolding cancel_child_runs
run_status-cancel_child_runs now reason [] a rs = ground arith
run_status-cancel_child_runs now reason (c ∷ cs) a rs = ground (
  arith,
  run_status-cancel_child_runs now reason cs a (map (cancel_one now reason c.id) rs),
  run_status-cancel_one now reason c.id a rs,
  has_run-cancel_one now reason c.id a rs,
)

has_run-any :
    (p : Run → Bool) (a : ℕ) (rs : List Run)
    → has_run p a rs ≡ true
    → has_run (λ r. true) a rs ≡ true
has_run-any p a [] h = ground arith
has_run-any p a (r ∷ rs) h = ground (arith, has_run-any p a rs)

mem-run_ids :
    (p : Run → Bool) (a : ℕ) (rs : List Run) → mem a (run_ids (filter p rs)) ≡ has_run p a rs
mem-run_ids p a [] = refl
mem-run_ids p a (r ∷ rs) = ground (arith, mem-run_ids p a rs)

-- Cancelling the runs that a query found cancels exactly those.
pub run_status-cancelled :
    (now : ℕ) (reason : Text) (p : Run → Bool) (a : ℕ) (rs : List Run)
    → run_status a (cancel_child_runs now reason (filter p rs) rs)
      ≡ (if has_run p a rs then some LocalRunStatus.cancelled else run_status a rs)
run_status-cancelled now reason p a rs = ground (
  arith,
  run_status-cancel_child_runs now reason (filter p rs) a rs,
  mem-run_ids p a rs,
  has_run-any p a rs,
)

has_run-filter :
    (p q : Run → Bool) (a : ℕ) (rs : List Run)
    → mem a (run_ids (filter q (filter p rs))) ≡ has_run (λ r. p r && q r) a rs
has_run-filter p q a [] = refl
has_run-filter p q a (r ∷ rs) = ground (arith, has_run-filter p q a rs)

module _ (now c d user rid : ℕ) (reason : Text) (comment : Option Text) (item : Option ℕ) (s : Db)
    (out : Halted) where
  abbrev after : Db
  after = (halt_rollout now c d user rid reason comment item s).1

  halts :
      (halt_rollout now c d user rid reason comment item s).0 ≡ ok out
      → let t = stop_rollout now rid reason s in
        (after.wave ≡ t.wave)
        × (after.rows ≡ t.rows)
        × (after.items ≡ t.items)
        × (after.runs ≡ t.runs)
  unfolding halt_rollout get_rollout append_rollout_event create_project_comment
      verify_project_access create_item_comment get_item add_comment stop_rollout
      release_rollout_locks
  halts h = ground arith

-- The runs after a halt or a cancellation, when the runs that `p` picks are cancelled.
abbrev pub RunsCancelled : (Run → Bool) → Db → Db → Type 0
RunsCancelled p s t =
    (a : ℕ)
    → run_status a t.runs
      ≡ (if has_run p a s.runs then some LocalRunStatus.cancelled else run_status a s.runs)

-- Every lock of the rollout is gone, and no other.
abbrev pub LocksReleased : ℕ → Db → Db → Type 0
LocksReleased rid s t =
    (b : ℕ)
    → lock_of b t.items ≡ (if held_by (lock_of b s.items) rid then none else lock_of b s.items)

-- Every item that `p` does not hold of is given the status `to`.
abbrev pub RowsMoved : (RolloutItemStatus → Bool) → RolloutItemStatus → Db → Db → Type 0
RowsMoved p to s t =
    (a : ℕ)
    → get_status (view_of t) a ≡ map? (λ u. if p u then u else to) (get_status (view_of s) a)

module _ (now rid : ℕ) (reason : Text) (s : Db) where
  stop_rollout-RunsCancelled :
      RunsCancelled (λ r. is_child_run rid r && is_unrouted r) s (stop_rollout now rid reason s)
  unfolding stop_rollout release_rollout_locks fetch_active_child_runs
  stop_rollout-RunsCancelled a = ground (
    arith,
    run_status-cancel_child_runs now (text "rollout halted: " ++ reason)
        (filter is_unrouted (filter (is_child_run rid) s.runs)) a s.runs,
    has_run-filter (is_child_run rid) is_unrouted a s.runs,
    has_run-any (λ r. is_child_run rid r && is_unrouted r) a s.runs,
  )

  stop_rollout-LocksReleased : LocksReleased rid s (stop_rollout now rid reason s)
  unfolding stop_rollout
  stop_rollout-LocksReleased b = lock_of-release_rollout_locks rid b _

  stop_rollout-RowsMoved :
      RowsMoved is_terminal RolloutItemStatus.halted s (stop_rollout now rid reason s)
  unfolding stop_rollout release_rollout_locks
  stop_rollout-RowsMoved a = get_status-map halt_open _ halt_open-IsQuiet.writes s.rows a

-- A halt that returns leaves the rollout halted, every item that was not terminal halted and the
-- others as they were, no lock of the rollout, and of its active child runs exactly those
-- cancelled that wait without a remote run.
pub halt_rollout_stops :
    (now c d user rid : ℕ) (reason : Text) (comment : Option Text) (item : Option ℕ) (s : Db)
    (out : Halted)
    → (halt_rollout now c d user rid reason comment item s).0 ≡ ok out
    → let t = (halt_rollout now c d user rid reason comment item s).1 in
      (t.wave.status ≡ RolloutStatus.halted)
      × RowsMoved is_terminal RolloutItemStatus.halted s t
      × LocksReleased rid s t
      × RunsCancelled (λ r. is_child_run rid r && is_unrouted r) s t
unfolding stop_rollout release_rollout_locks
halt_rollout_stops now c d user rid reason comment item s out h =
    let q = halts now c d user rid reason comment item s out h in
    (
      ap (λ w. w.status) q.0,
      (λ a. rw q.1 (stop_rollout-RowsMoved now rid reason s a)),
      (λ b. rw q.2 (stop_rollout-LocksReleased now rid reason s b)),
      (λ a. rw q.3 (stop_rollout-RunsCancelled now rid reason s a)),
    )

cancel_again :
    (now user rid : ℕ) (reason : Text) (s : Db)
    → s.wave.status ≡ RolloutStatus.cancelled
    → (rid == s.wave.id && s.wave.lead_user_id == user) ≡ true
    → cancel_rollout now user rid reason s ≡ (ok (s.wave, []), s)
unfolding cancel_rollout get_rollout
cancel_again now user rid reason s is found = ground (arith, is, found)

module _ (now user rid : ℕ) (reason : Text) (s : Db) (out : Wave × List ℕ)
    (returns : (cancel_rollout now user rid reason s).0 ≡ ok out)
    (fresh : is_cancelled_wave s.wave.status ≡ false) where
  abbrev left : Db
  left = (cancel_rollout now user rid reason s).1

  cancels :
      (left.wave.status ≡ RolloutStatus.cancelled)
      × (left.rows ≡ map skip_unfinished s.rows)
      × (left.items ≡ (release_rollout_locks rid s).items)
      × (left.runs
          ≡ cancel_child_runs now
              (text "rollout cancelled: " ++ reason)
              (fetch_active_child_runs rid s.runs)
              s.runs)
      × ((rid == s.wave.id && s.wave.lead_user_id == user) ≡ true)
      × (left.wave.id ≡ s.wave.id)
      × (left.wave.lead_user_id ≡ s.wave.lead_user_id)
  unfolding cancel_rollout get_rollout append_rollout_event release_rollout_locks
  cancels = ground arith

  cancelled-RunsCancelled : RunsCancelled (is_child_run rid) s left
  unfolding fetch_active_child_runs
  cancelled-RunsCancelled a =
      rw cancels.3 (
        run_status-cancelled now (text "rollout cancelled: " ++ reason) (is_child_run rid) a s.runs)

  cancelled_again :
      (later : ℕ) (why : Text) → cancel_rollout later user rid why left ≡ (ok (left.wave, []), left)
  cancelled_again later why =
      cancel_again later user rid why left cancels.0 (rw (cancels.5, cancels.6) cancels.4)

  -- A cancellation that returns, of a rollout not cancelled before, leaves it cancelled, every
  -- item that was not completed or skipped skipped and the others as they were, no lock of the
  -- rollout, and exactly its active child runs cancelled. Cancelling again, at any time and for
  -- any reason, returns the same row and changes nothing.
  pub cancel_rollout_stops :
      (left.wave.status ≡ RolloutStatus.cancelled)
      × RowsMoved is_finished RolloutItemStatus.skipped s left
      × LocksReleased rid s left
      × RunsCancelled (is_child_run rid) s left
      × ((later : ℕ) (why : Text)
          → cancel_rollout later user rid why left ≡ (ok (left.wave, []), left))
  cancel_rollout_stops =
      let q = cancels in
      (
        q.0,
        (λ a. rw q.1 (get_status-map skip_unfinished _ skip_unfinished-IsQuiet.writes s.rows a)),
        (λ b. rw q.2 (lock_of-release_rollout_locks rid b s)),
        cancelled-RunsCancelled,
        cancelled_again,
      )

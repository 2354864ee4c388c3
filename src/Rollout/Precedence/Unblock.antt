-- ===== src/Rollout/Precedence/Unblock.antt =====
-- `_unblock_successors` keeps the order of the plan: what it makes ready has every predecessor
-- terminal.
use agent_gtd.Prelude.{ℕ, ◌≡◌, Bool, ◌&&◌, some, List, [], arith, if◌then◌else◌}
use agent_gtd.Prelude.Members.{mem}
use agent_gtd.Rollout.Types.{RolloutItemStatus}
use agent_gtd.Rollout.Db.{Db}
use agent_gtd.Rollout.Graph.{
  Statuses, get_status, predecessors, successors, plan_edges, unblock_successors,
}
use agent_gtd.Rollout.Graph.Views.{StaysTerminal, all_done_mono, all_done_cong}
use agent_gtd.Rollout.Graph.Unblock.{Agrees, unblocked, unblock_each_view, unblock_each-Agrees}
use agent_gtd.Rollout.Graph.Progress.{view_of}
use agent_gtd.Rollout.Precedence.{IsOrdered}

module _ (item_id : ℕ) (view : Statuses) (s : Db) (agrees : Agrees view s.rows) where
  abbrev after : Db
  after = (unblock_successors item_id view s).1

  abbrev preds : ℕ → List ℕ
  preds = predecessors (plan_edges s)

  abbrev made_ready : ℕ → Bool
  made_ready b = mem b (successors (plan_edges s) item_id) && unblocked preds (view_of s) b

  unblocked-agrees : (b : ℕ) → unblocked preds view b ≡ unblocked preds (view_of s) b
  unblocked-agrees b = ground (arith, agrees b, all_done_cong view (view_of s) agrees (preds b))

  -- Exactly the waiting successors of the item whose predecessors are all terminal become ready,
  -- and every other status stays.
  pub status-unblock_successors :
      (b : ℕ)
      → get_status (view_of after) b
        ≡ (if made_ready b then some RolloutItemStatus.ready else get_status (view_of s) b)
  unfolding unblock_successors
  status-unblock_successors b = ground (
    arith,
    unblock_each-Agrees preds (successors (plan_edges s) item_id) s.rows view [] agrees b,
    unblock_each_view preds (successors (plan_edges s) item_id) s.rows view [] b,
    unblocked-agrees b,
    agrees b,
  )

  stays : StaysTerminal (view_of s) (view_of after)
  stays p h = ground (arith, status-unblock_successors p)

  pub unblock_successors-IsOrdered : IsOrdered s → IsOrdered after
  unfolding unblock_successors
  unblock_successors-IsOrdered o = record {
    order = λ a h.
        all_done_mono (view_of s) (view_of after) stays (preds a)
          (ground (arith, status-unblock_successors a, o.order a));
  }

-- ===== src/Rollout/Graph/Unblock.antt =====
-- Which items `_unblock_successors` makes ready, and that its view and the table agree.
use agent_gtd.Prelude.{
  ℕ, ◌≡◌, Bool, ◌&&◌, ◌||◌, some, List, [], ◌∷◌, ◌++◌, arith, map, if◌then◌else◌,
}
use agent_gtd.Prelude.Members.{mem, mem-append}
use agent_gtd.Rollout.Types.{RolloutItemStatus}
use agent_gtd.Rollout.Db.{RolloutItem}
use agent_gtd.Rollout.Graph.{
  Statuses, load_item_statuses, get_status, set_status, all_done, is_pending?, make_ready,
  unblock_each,
}
use agent_gtd.Rollout.Graph.Views.{get_status-set_status, get_status-make_ready, all_done-set_ready}

abbrev pub Agrees : Statuses → List RolloutItem → Type 0
Agrees view rows = (b : ℕ) → get_status view b ≡ get_status (load_item_statuses rows) b

-- `a` waits, and nothing that it waits for is left.
abbrev pub unblocked : (ℕ → List ℕ) → Statuses → ℕ → Bool
unblocked preds view a = is_pending? (get_status view a) && all_done view (preds a)

module _ (preds : ℕ → List ℕ) where
  pub unblock_each_newly :
      (as' : List ℕ) (rows : List RolloutItem) (view : Statuses) (newly : List ℕ) (b : ℕ)
      → mem b (unblock_each preds as' rows view newly).2
        ≡ (mem b newly || (mem b as' && unblocked preds view b))
  unfolding unblock_each
  unblock_each_newly [] rows view newly b = ground arith
  unblock_each_newly (a ∷ as') rows view newly b =
      let go = unblocked preds view a in
      ground (
        arith,
        unblock_each_newly as' (if go then map (make_ready a) rows else rows)
            (if go then set_status view a RolloutItemStatus.ready else view)
            (if go then newly ++ a ∷ [] else newly) b,
        mem-append b newly (a ∷ []),
        get_status-set_status view a b RolloutItemStatus.ready,
        all_done-set_ready view a (preds b),
      )

  pub unblock_each_view :
      (as' : List ℕ) (rows : List RolloutItem) (view : Statuses) (newly : List ℕ) (b : ℕ)
      → get_status (unblock_each preds as' rows view newly).1 b ≡ (
          if mem b as' && unblocked preds view b
          then some RolloutItemStatus.ready
          else get_status view b)
  unfolding unblock_each
  unblock_each_view [] rows view newly b = ground arith
  unblock_each_view (a ∷ as') rows view newly b =
      let go = unblocked preds view a in
      ground (
        arith,
        unblock_each_view as' (if go then map (make_ready a) rows else rows)
            (if go then set_status view a RolloutItemStatus.ready else view)
            (if go then newly ++ a ∷ [] else newly) b,
        get_status-set_status view a b RolloutItemStatus.ready,
        all_done-set_ready view a (preds b),
      )

  pub unblock_each-Agrees :
      (as' : List ℕ) (rows : List RolloutItem) (view : Statuses) (newly : List ℕ)
      → Agrees view rows
      → Agrees (unblock_each preds as' rows view newly).1 (unblock_each preds as' rows view newly).0
  unfolding unblock_each
  unblock_each-Agrees [] rows view newly h = h
  unblock_each-Agrees (a ∷ as') rows view newly h =
      let go = unblocked preds view a in
      unblock_each-Agrees as' (if go then map (make_ready a) rows else rows)
        (if go then set_status view a RolloutItemStatus.ready else view)
        (if go then newly ++ a ∷ [] else newly)
        λ b. ground (
          arith,
          h a,
          h b,
          get_status-set_status view a b RolloutItemStatus.ready,
          get_status-make_ready rows a b,
        )

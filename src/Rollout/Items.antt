-- ===== src/Rollout/Items.antt =====
-- `complete_item` of item_service.py, that is `update_item` with `status="done"`, and
-- `check_halted_rollout_completion` of rollout_service.py, which it calls.
use agent_gtd.Prelude.{
  ℕ, ◌+◌, Bool, true, false, not, ◌&&◌, some, List, [], ◌∷◌, ◌++◌, map, ◌==◌, if◌then◌else◌, all,
  any, filter,
}
use agent_gtd.Rollout.Types.{
  RolloutStatus, ItemStatus, RolloutEventKind, RolloutEventActor, is_closed_item, is_done,
}
use agent_gtd.Rollout.Db.{Db, Call, Item, RolloutItem, Payload, execute, ◌>>◌}
use agent_gtd.Rollout.Events.{append_event}
use agent_gtd.Rollout.Access.{get_item}

abbrev pub is_halted_wave : RolloutStatus → Bool
is_halted_wave RolloutStatus.halted = true
is_halted_wave _ = false

-- SELECT i.status FROM rollout_items ri JOIN items i ON i.id = ri.item_id
pub joined_items : List RolloutItem → List Item → List Item
joined_items [] items = []
joined_items (r ∷ rows) items = filter (λ i. i.id == r.item_id) items ++ joined_items rows items

-- The UPDATE and its event. Between them the code reads the status back, which nothing else has
-- changed: other requests are not modelled.
abbrev pub auto_close : ℕ → ℕ → Db → Db
auto_close now item_id s =
    append_event RolloutEventKind.wave_completed RolloutEventActor.human
      (Payload.auto_closed item_id) []
      (record s {
        wave = record (s.wave) {
          status = RolloutStatus.completed;
          ended_at = some now;
          updated_at = now;
        };
      })

abbrev is_empty_list : List Item → Bool
is_empty_list [] = true
is_empty_list (i ∷ is) = false

-- The rollout is halted, holds the item, and every item of it that exists is closed.
pub closable : ℕ → Db → Bool
unfolding joined_items
closable item_id s =
    let found = joined_items s.rows s.items in
    any (λ r. r.item_id == item_id) s.rows
    && is_halted_wave s.wave.status
    && (not (is_empty_list found) && all (λ i. is_closed_item i.status) found)

unfoldable pub check_halted_rollout_completion : ℕ → ℕ → Db → Db
check_halted_rollout_completion now item_id s =
    if closable item_id s then auto_close now item_id s else s

-- status, completed_at (only on the way to done), version
abbrev pub set_done : ℕ → Item → Item
set_done now i = record i {
  status = ItemStatus.done;
  completed_at = if is_done i.status then i.completed_at else some now;
  version = i.version + 1;
}

abbrev pub set_item_done : ℕ → ℕ → Db → Db
set_item_done now item_id s = record s {
  items = map (λ i. if i.id == item_id then set_done now i else i) s.items;
}

-- No guard of `update_item` but access can stop this call: it passes no engine, no version and no
-- project, and blockers matter only on the way to active.
unfoldable pub complete_item : ℕ → ℕ → ℕ → Call (Unit {0})
complete_item now user_id item_id = do
  get_item user_id item_id
  execute (set_item_done now item_id)
  execute (check_halted_rollout_completion now item_id)

-- ===== src/Rollout/Graph.antt =====
-- The graph helpers of the executor: `_build_predecessor_map`, `_build_successor_map`,
-- `_load_item_statuses`, `_unblock_successors` and `advance_rollout`.
pub mod Views
pub mod Unblock
pub mod Progress
use agent_gtd.Prelude.{
  ℕ, ◌+◌, Bool, true, false, not, ◌&&◌, ◌||◌, Option, none, some, List, [], ◌∷◌, ◌++◌, map, ◌==◌,
  if◌then◌else◌, all, length,
}
use agent_gtd.Exceptions.{ok, err, validation_error, not_running}
use agent_gtd.Graph.{Edge}
use agent_gtd.Rollout.Types.{
  RolloutStatus, RolloutItemStatus, is_terminal, is_finished, is_pending, is_ready, is_dispatched,
}
use agent_gtd.Rollout.Db.{
  Db, Call, RolloutItem, execute, fetch, get_rollout, ◌>>=◌, ◌>>◌, refuse_if, return,
}

-- `preds.get(v, [])` of the map that the loop builds.
unfoldable pub predecessors : List Edge → ℕ → List ℕ
predecessors [] v = []
predecessors (e ∷ es) v =
    let rest = predecessors es v in if e.to_item_id == v then e.from_item_id ∷ rest else rest

-- `succs.get(u, [])`
unfoldable pub successors : List Edge → ℕ → List ℕ
successors [] u = []
successors (e ∷ es) u =
    let rest = successors es u in if e.from_item_id == u then e.to_item_id ∷ rest else rest

-- `json.loads(plan["edges"]) if plan else []`
abbrev pub plan_edges : Db → List Edge
plan_edges s = elim s.plan [ none ↦ [] | some es ↦ es ]

-- `item_id → status`
abbrev pub Statuses : Type 0
Statuses = List (ℕ × RolloutItemStatus)

abbrev pub load_item_statuses : List RolloutItem → Statuses
load_item_statuses rows = map (λ r. (r.item_id, r.status)) rows

-- `statuses.get(a)`
abbrev pub get_status : Statuses → ℕ → Option RolloutItemStatus
get_status [] a = none
get_status ((b, t) ∷ m) a = let rest = get_status m a in if b == a then some t else rest

-- `statuses[a] = t` for a key that is there
abbrev pub set_status : Statuses → ℕ → RolloutItemStatus → Statuses
set_status [] a t = []
set_status ((b, u) ∷ m) a t = (if b == a then (b, t) else (b, u)) ∷ set_status m a t

abbrev pub terminal_or_missing : Option RolloutItemStatus → Bool
terminal_or_missing none = false
terminal_or_missing (some t) = is_terminal t

-- `all(statuses.get(p, "pending") in _TERMINAL_STATUSES for p in item_preds)`
abbrev pub all_done : Statuses → List ℕ → Bool
all_done m ps = all (λ p. terminal_or_missing (get_status m p)) ps

abbrev pub is_pending? : Option RolloutItemStatus → Bool
is_pending? none = false
is_pending? (some t) = is_pending t

abbrev pub set_row : (ℕ → Bool) → (RolloutItem → RolloutItem) → List RolloutItem → List RolloutItem
set_row here f rows = map (λ r. if here r.item_id then f r else r) rows

-- UPDATE rollout_items SET status = 'ready' WHERE item_id = $2 AND status = 'pending'
abbrev pub make_ready : ℕ → RolloutItem → RolloutItem
make_ready a r =
    if r.item_id == a && is_pending r.status
    then record r { status = RolloutItemStatus.ready }
    else r

-- The loop of `_unblock_successors`, over the rows, its view of their statuses, and the ids made
-- ready so far.
unfoldable pub unblock_each :
    (ℕ → List ℕ)
    → List ℕ
    → List RolloutItem
    → Statuses
    → List ℕ
    → List RolloutItem × Statuses × List ℕ
unblock_each preds [] rows view newly = (rows, view, newly)
unblock_each preds (a ∷ rest) rows view newly =
    let go = is_pending? (get_status view a) && all_done view (preds a) in
    unblock_each preds rest (if go then map (make_ready a) rows else rows)
      (if go then set_status view a RolloutItemStatus.ready else view)
      (if go then newly ++ a ∷ [] else newly)

-- Returns the view and the ids that became ready.
unfoldable pub unblock_successors : ℕ → Statuses → Call (Statuses × List ℕ)
unblock_successors item_id view s =
    let edges = plan_edges s in
    let (rows, view', newly) =
      unblock_each (predecessors edges) (successors edges item_id) s.rows view [] in
    (ok (view', newly), record s { rows = rows })

pub record Advance : Type 0 where
  pub next_ready : List ℕ
  pub in_progress : List ℕ
  pub blocked : List ℕ
  pub graph_complete : Bool

-- the body of the loop, for an item and its status
abbrev pub classify : (ℕ → List ℕ) → Statuses → ℕ → RolloutItemStatus → Advance → Advance
classify preds view a t acc =
    if is_dispatched t
    then record acc { in_progress = acc.in_progress ++ a ∷ [] }
    else if is_pending t || is_ready t
    then (if all_done view (preds a)
        then record acc { next_ready = acc.next_ready ++ a ∷ [] }
        else record acc { blocked = acc.blocked ++ a ∷ [] })
    else acc

unfoldable pub classify_all : (ℕ → List ℕ) → Statuses → Statuses → Advance → Advance
classify_all preds view [] acc = acc
classify_all preds view ((a, t) ∷ rest) acc =
    classify_all preds view rest (classify preds view a t acc)

abbrev pub is_running : RolloutStatus → Bool
is_running RolloutStatus.running = true
is_running _ = false

unfoldable pub advance_rollout : ℕ → ℕ → Call Advance
advance_rollout user_id rollout_id = do
  wave ← get_rollout user_id rollout_id
  refuse_if (not (is_running wave.status)) (validation_error not_running)
  fetch (λ s.
      let view = load_item_statuses s.rows in
      classify_all (predecessors (plan_edges s)) view view (record {
        next_ready = [];
        in_progress = [];
        blocked = [];
        graph_complete = all (λ (a, t). is_finished t) view;
      }))

-- ===== src/Rollout/Graph/Progress.antt =====
-- `advance_rollout` sorts the items by what can be done with them, and a running rollout with an
-- acyclic plan is never stuck.
use agent_gtd.Prelude.{
  ℕ, ◌≡◌, ◌≢◌, refl, Bool, true, false, not, ◌&&◌, ◌||◌, Option, none, some, List, [], ◌∷◌, arith,
  ◌==◌, all, filter, Bool-cases, inl, inr,
}
use agent_gtd.Prelude.Members.{mem, Nodup, mem-append, mem-filter}
use agent_gtd.Exceptions.{ok}
use agent_gtd.Graph.{Edge, has_edge, Acyclic}
use agent_gtd.Graph.Source.{pred-absurd}
use agent_gtd.Rollout.Types.{
  RolloutItemStatus, is_finished, is_pending, is_ready, is_dispatched, is_halted,
}
use agent_gtd.Rollout.Db.{Db, get_rollout}
use agent_gtd.Rollout.Graph.{
  Statuses, Advance, load_item_statuses, get_status, terminal_or_missing, all_done, predecessors,
  plan_edges, classify, classify_all, advance_rollout,
}

abbrev pub keys : Statuses → List ℕ
keys [] = []
keys ((a, t) ∷ m) = a ∷ keys m

abbrev pub has : (RolloutItemStatus → Bool) → Option RolloutItemStatus → Bool
has p none = false
has p (some t) = p t

-- `status in ("pending", "ready")`
abbrev pub is_waiting : RolloutItemStatus → Bool
is_waiting t = is_pending t || is_ready t

pub mem-predecessors : (es : List Edge) (u v : ℕ) → mem u (predecessors es v) ≡ has_edge u v es
unfolding predecessors
mem-predecessors [] u v = refl
mem-predecessors (e ∷ es) u v = ground (arith, mem-predecessors es u v)

pub get_status-absent : (m : Statuses) (a : ℕ) → mem a (keys m) ≡ false → get_status m a ≡ none
get_status-absent [] a h = refl
get_status-absent ((b, t) ∷ m) a h = ground (arith, get_status-absent m a)

get_status-present :
    (m : Statuses) (a : ℕ)
    → mem a (keys m) ≡ true
    → (t : RolloutItemStatus) × (get_status m a ≡ some t)
get_status-present [] a h = ground arith
get_status-present ((b, t) ∷ m) a h = elim (Bool-cases (b == a)) [
  | inl here ↦ (t, ground arith)
  | inr later ↦ let (u, e) = get_status-present m a (ground arith) in (u, ground arith)
]

abbrev Sorted : (ℕ → List ℕ) → Statuses → Statuses → Advance → Advance → ℕ → Type 0
Sorted preds view rest acc out a =
    (mem a out.next_ready
      ≡ (mem a acc.next_ready || (has is_waiting (get_status rest a) && all_done view (preds a))))
    × (mem a out.in_progress ≡ (mem a acc.in_progress || has is_dispatched (get_status rest a)))
    × (mem a out.blocked ≡ (
        mem a acc.blocked || (has is_waiting (get_status rest a) && not (all_done view (preds a)))))
    × (out.graph_complete ≡ acc.graph_complete)

module _ (preds : ℕ → List ℕ) (view : Statuses) where
  classify_lem :
      (b : ℕ) (t : RolloutItemStatus) (acc : Advance) (a : ℕ)
      → Sorted preds view ((b, t) ∷ []) acc (classify preds view b t acc) a
  classify_lem b t acc a = ground (
    arith,
    mem-append a acc.next_ready (b ∷ []),
    mem-append a acc.in_progress (b ∷ []),
    mem-append a acc.blocked (b ∷ []),
  )

  classify_all-Sorted :
      (rest : Statuses) (acc : Advance)
      → Nodup (keys rest)
      → (a : ℕ) → Sorted preds view rest acc (classify_all preds view rest acc) a
  unfolding classify_all
  classify_all-Sorted [] acc d a = ground arith
  classify_all-Sorted ((b, t) ∷ rest) acc d a =
      let now = classify_lem b t acc a in
      let later = classify_all-Sorted rest (classify preds view b t acc) d.1 a in
      ground (
        arith,
        now.0,
        now.1,
        now.2,
        now.3,
        later.0,
        later.1,
        later.2,
        later.3,
        get_status-absent rest a,
      )

abbrev pub view_of : Db → Statuses
view_of s = load_item_statuses s.rows

-- On a rollout whose items are distinct, the answer puts each waiting item in `next_ready` or in
-- `blocked` by whether all its predecessors are terminal, each dispatched item in `in_progress`,
-- no other item anywhere, and `graph_complete` says whether every item is completed or skipped.
pub advance_rollout_sound :
    (user_id rollout_id : ℕ) (s : Db) (out : Advance)
    → Nodup (keys (view_of s))
    → (advance_rollout user_id rollout_id s).0 ≡ ok out
    → ((a : ℕ)
        → (mem a out.next_ready ≡ (
            has is_waiting (get_status (view_of s) a)
            && all_done (view_of s) (predecessors (plan_edges s) a)))
          × (mem a out.blocked ≡ (
              has is_waiting (get_status (view_of s) a)
              && not (all_done (view_of s) (predecessors (plan_edges s) a))))
          × (mem a out.in_progress ≡ has is_dispatched (get_status (view_of s) a)))
      × (out.graph_complete ≡ all (λ (a, t). is_finished t) (view_of s))
unfolding advance_rollout get_rollout
advance_rollout_sound user_id rollout_id s out d h =
    let lem =
      classify_all-Sorted (predecessors (plan_edges s)) (view_of s) (view_of s)
        (record {
          next_ready = [];
          in_progress = [];
          blocked = [];
          graph_complete = all (λ (a, t). is_finished t) (view_of s);
        })
        d in
    (
      (λ a. let q = lem a in ground (arith, q.0, q.1, q.2, q.3)),
      let q = lem 0 in ground (arith, q.3),
    )

unfinished :
    (m : Statuses)
    → Nodup (keys m)
    → all (λ (a, t). is_finished t) m ≡ false
    → (a : ℕ) × (t : RolloutItemStatus) × (get_status m a ≡ some t) × (is_finished t ≡ false)
unfinished [] d h = ground arith
unfinished ((b, t) ∷ m) d h = elim (Bool-cases (is_finished t)) [
  | inl done ↦
      let (a, u, e, f) = unfinished m d.1 (ground arith) in
      (a, u, ground (arith, get_status-absent m b), f)
  | inr open_ ↦ (b, t, ground arith, open_)
]

not_done :
    (m : Statuses) (ps : List ℕ)
    → all_done m ps ≡ false
    → (p : ℕ) × (mem p ps ≡ true) × (terminal_or_missing (get_status m p) ≡ false)
not_done m [] h = ground arith
not_done m (p ∷ ps) h = elim (Bool-cases (terminal_or_missing (get_status m p))) [
  | inl done ↦ let (q, i, e) = not_done m ps (ground arith) in (q, ground arith, e)
  | inr open_ ↦ (p, ground arith, open_)
]

module _ (es : List Edge) (acyclic : Acyclic es) (m : Statuses)
    (within : (u v : ℕ) → has_edge u v es ≡ true → mem u (keys m) ≡ true)
    (idle : (a : ℕ) → has is_dispatched (get_status m a) ≡ false)
    (stuck : (a : ℕ)
      → (has is_waiting (get_status m a) && all_done m (predecessors es a)) ≡ false) where
  abbrev waiting : List ℕ
  waiting = filter (λ a. has is_waiting (get_status m a)) (keys m)

  mem-waiting : (a : ℕ) → mem a waiting ≡ (mem a (keys m) && has is_waiting (get_status m a))
  mem-waiting a = mem-filter (λ b. has is_waiting (get_status m b)) a (keys m)

  waiting-key : (a : ℕ) → has is_waiting (get_status m a) ≡ true → mem a waiting ≡ true
  waiting-key a h = ground (arith, mem-waiting a, get_status-absent m a)

  waiting_pred :
      (v : ℕ) → mem v waiting ≡ true → (u : ℕ) × (has_edge u v es ≡ true) × (mem u waiting ≡ true)
  waiting_pred v h =
      let (u, i, e) = not_done m (predecessors es v) (ground (arith, mem-waiting v, stuck v)) in
      let edge_u : has_edge u v es ≡ true = ground (arith, mem-predecessors es u v) in
      let (t, at) = get_status-present m u (within u v edge_u) in
      (u, edge_u, waiting-key u (ground (arith, idle u)))

  none_waiting : (a : ℕ) → has is_waiting (get_status m a) ≡ true → ⊥
  none_waiting a h = pred-absurd es acyclic waiting waiting_pred a (waiting-key a h)

-- A running rollout with an acyclic plan over its own items, none of which is dispatched or
-- halted, is complete or has an item to dispatch.
pub advance_rollout-progress :
    (user_id rollout_id : ℕ) (s : Db) (out : Advance)
    → Nodup (keys (view_of s))
    → Acyclic (plan_edges s)
    → ((u v : ℕ) → has_edge u v (plan_edges s) ≡ true → mem u (keys (view_of s)) ≡ true)
    → (advance_rollout user_id rollout_id s).0 ≡ ok out
    → out.in_progress ≡ []
    → ((a : ℕ) → has is_halted (get_status (view_of s) a) ≡ false)
    → out.graph_complete ≡ false
    → out.next_ready ≢ []
advance_rollout-progress user_id rollout_id s out d ac within ok_out idle calm incomplete
      none_ready =
    let (sorted, complete) = advance_rollout_sound user_id rollout_id s out d ok_out in
    let (a, t, at, unf) = unfinished (view_of s) d (ground arith) in
    none_waiting (plan_edges s) ac (view_of s) within (λ b. let q = sorted b in ground (arith, q.2))
      (λ b. let q = sorted b in ground (arith, q.0)) a
      (let q = sorted a in ground (arith, q.2, calm a))

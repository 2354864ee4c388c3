-- ===== src/EventBus.antt =====
-- src/agent_gtd/event_bus.py: subscriptions, the fan-out of an event to bounded queues, and the
-- shutdown; and the consumer side of a queue in src/agent_gtd/routes/event_routes.py.
pub mod Queues
pub mod Delivery
pub mod Promise
pub mod Latest
pub mod Replay
use agent_gtd.Prelude.{
  ℕ, zero, suc, ◌+◌, Bool, true, false, not, ◌&&◌, ◌||◌, Option, none, some, List, [], ◌∷◌, ◌++◌,
  map, ltb, ◌==◌, if◌then◌else◌, filter, find?, length, leb,
}
use agent_gtd.Prelude.Members.{mem}
use agent_gtd.Text.{Text}
use agent_gtd.Rollout.Db.{Project, Member}
use agent_gtd.Dag.Kahn.{update}

-- A row of `events`, and the dictionary that the subscribers get.
pub record Event : Type 0 where
  pub id : ℕ
  pub user_id : ℕ
  pub event_type : Text
  pub entity_type : Text
  pub entity_id : ℕ
  pub project_id : Option ℕ
  pub payload : Text
  pub created_at : ℕ

-- `dict[str, Any] | None`: an event, or the signal to disconnect.
abbrev pub Signal : Type 0
Signal = Option Event

-- `_QUEUE_MAXSIZE`
abbrev pub queue_maxsize : ℕ
queue_maxsize = 256

-- A user's entry in `_subscribers` for one queue. Queues are told apart by identity.
pub record Subscription : Type 0 where
  pub user_id : ℕ
  pub queue : ℕ

-- The dictionary `_subscribers` as the list of its pairs: a user whose list is empty has no key,
-- which is what the code keeps. `queues` is the store of the queues, also of those that were
-- unsubscribed, and `next` the identity of the next one.
pub record Bus : Type 0 where
  pub subscribers : List Subscription
  pub queues : ℕ → List Signal
  pub next : ℕ
  pub events : List Event

-- `self._subscribers.get(user_id, [])`
abbrev pub queues_of : ℕ → List Subscription → List ℕ
queues_of user_id subs = map (λ r. r.queue) (filter (λ r. r.user_id == user_id) subs)

unfoldable pub subscribe : ℕ → Bus → ℕ × Bus
subscribe user_id s = (
  s.next,
  record s {
    subscribers = s.subscribers ++ record { user_id = user_id; queue = s.next } ∷ [];
    queues = update s.queues s.next [];
    next = s.next + 1;
  },
)

-- `queues.remove(queue)`, of the first that is there.
abbrev pub remove : ℕ → ℕ → List Subscription → List Subscription
remove user_id queue [] = []
remove user_id queue (r ∷ rs) =
    let rest = remove user_id queue rs in
    if r.user_id == user_id && r.queue == queue then rs else r ∷ rest

unfoldable pub unsubscribe : ℕ → ℕ → Bus → Bus
unsubscribe user_id queue s = record s { subscribers = remove user_id queue s.subscribers }

-- `queue.put_nowait(x)`; `none` is `QueueFull`.
abbrev pub put_nowait : Signal → List Signal → Option (List Signal)
put_nowait x q = if ltb (length q) queue_maxsize then some (q ++ x ∷ []) else none

-- `with suppress(QueueFull): queue.put_nowait(x)`
abbrev pub try_put : Signal → List Signal → List Signal
try_put x q = elim (put_nowait x q) [ none ↦ q | some q' ↦ q' ]

-- `with suppress(QueueEmpty): queue.get_nowait()`
abbrev pub drop_oldest : List Signal → List Signal
drop_oldest [] = []
drop_oldest (x ∷ q) = q

-- The body of both fan-out loops.
unfoldable pub offer : Signal → List Signal → List Signal
offer x q = elim (put_nowait x q) [ none ↦ try_put x (drop_oldest q) | some q' ↦ q' ]

-- `for queue in ...`
unfoldable pub each_queue :
    (List Signal → List Signal) → List ℕ → (ℕ → List Signal) → ℕ → List Signal
each_queue f [] queues = queues
each_queue f (h ∷ hs) queues = each_queue f hs (update queues h (f (queues h)))

unfoldable pub fan_out : ℕ → Event → Bus → Bus
fan_out user_id event s = record s {
  queues = each_queue (offer (some event)) (queues_of user_id s.subscribers) s.queues;
}

-- A UNION has no duplicates.
abbrev pub insert_new : ℕ → List ℕ → List ℕ
insert_new u us = if mem u us then us else u ∷ us

abbrev pub union : List ℕ → List ℕ
union [] = []
union (u ∷ us) = let rest = union us in insert_new u rest

-- The SELECT of the members and the owner of a project.
abbrev pub member_rows : List Project → List Member → ℕ → List ℕ
member_rows projects members p = union (
    map (λ m. m.user_id) (filter (λ m. m.project_id == p) members)
    ++ map (λ r. r.user_id) (filter (λ r. r.id == p) projects))

-- `for row in member_rows`
unfoldable pub fan_out_each : List ℕ → Event → Bus → Bus
fan_out_each [] event s = s
fan_out_each (u ∷ us) event s =
    if u == event.user_id
    then fan_out_each us event s
    else fan_out_each us event (fan_out u event s)

unfoldable pub publish : List Project → List Member → Event → Bus → Bus
publish projects members event s =
    let stored = record s { events = s.events ++ event ∷ [] } in
    let own = fan_out event.user_id event stored in
    elim event.project_id [
      | none ↦ own
      | some p ↦ fan_out_each (member_rows projects members p) event own
    ]

-- `queue.get()` of a consumer whose queue is not empty.
unfoldable pub receive : ℕ → Bus → Bus
receive queue s = record s { queues = update s.queues queue (drop_oldest (s.queues queue)) }

unfoldable pub drain : Bus → Bus
drain s = record s {
  queues = each_queue (try_put none) (map (λ r. r.queue) s.subscribers) s.queues;
  subscribers = [];
}

-- The WHERE clause of a reader; `project_ids` may be empty.
abbrev pub may_read : ℕ → List ℕ → Event → Bool
may_read user_id project_ids e =
    e.user_id == user_id || elim e.project_id [ none ↦ false | some p ↦ mem p project_ids ]

abbrev pub insert_by_time : Event → List Event → List Event
insert_by_time e [] = e ∷ []
insert_by_time e (f ∷ fs) =
    let rest = insert_by_time e fs in if leb e.created_at f.created_at then e ∷ f ∷ fs else f ∷ rest

-- ORDER BY created_at ASC
abbrev pub by_time : List Event → List Event
by_time [] = []
by_time (e ∷ es) = insert_by_time e (by_time es)

unfoldable pub replay_since : ℕ → ℕ → List ℕ → List Event → List Event
replay_since user_id since_id project_ids events =
    elim (find? (λ e. e.id == since_id && may_read user_id project_ids e) events) [
      | none ↦ []
      | some since ↦
          by_time (
            filter (λ e. may_read user_id project_ids e && ltb since.created_at e.created_at)
              events)
    ]

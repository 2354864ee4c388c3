-- ===== src/EventBus/Promise.antt =====
-- What the bus promises: bounded queues, and the latest events that concern a user, in order.
use agent_gtd.Prelude.{
  ℕ, ◌≤◌, ◌<◌, ◌≡◌, ap, refl, inl, inr, arith, true, false, ◌&&◌, Option, none, some, List, [], ◌∷◌,
  ◌++◌, ◌==◌, length, Bool-cases,
}
use agent_gtd.Prelude.Members.{mem, Nodup, mem-append, Nodup-snoc}
use agent_gtd.Dag.Kahn.{update}
use agent_gtd.Rollout.Db.{Project, Member}
use agent_gtd.EventBus.{
  Signal, Event, Bus, Subscription, queue_maxsize, offer, try_put, drop_oldest, each_queue,
  queues_of, fan_out, fan_out_each, member_rows, publish, subscribe, unsubscribe, remove, receive,
  drain,
}
use agent_gtd.EventBus.Queues.{length-keep_last, length-snoc, offer-keep_last}
use agent_gtd.EventBus.Delivery.{handles, publish-subscribers}

abbrev WithinBound : (ℕ → List Signal) → Type 0
WithinBound queues = (h : ℕ) → length (queues h) ≤ queue_maxsize

-- Queues are within their bound, no queue is subscribed twice, and the next one is new.
pub record IsSound (s : Bus) : Type 0 where
  pub bounded : (h : ℕ) → length (s.queues h) ≤ queue_maxsize
  pub distinct : Nodup (handles s.subscribers)
  pub fresh : (h : ℕ) → mem h (handles s.subscribers) ≡ true → h < s.next

length-offer :
    (x : Signal) (q : List Signal) → length q ≤ queue_maxsize → length (offer x q) ≤ queue_maxsize
length-offer x q h = rw (offer-keep_last x q h) (length-keep_last queue_maxsize (q ++ x ∷ []))

length-try_put :
    (x : Signal) (q : List Signal) → length q ≤ queue_maxsize → length (try_put x q) ≤ queue_maxsize
length-try_put x q h = ground (arith, length-snoc q x)

each_queue-WithinBound :
    (f : List Signal → List Signal) (hs : List ℕ) (queues : ℕ → List Signal)
    → ((q : List Signal) → length q ≤ queue_maxsize → length (f q) ≤ queue_maxsize)
    → WithinBound queues
    → WithinBound (each_queue f hs queues)
unfolding each_queue
each_queue-WithinBound f [] queues k b = b
each_queue-WithinBound f (h ∷ hs) queues k b =
    each_queue-WithinBound f hs (update queues h (f (queues h))) k
      (λ g. ground (arith, b g, k (queues h) (b h)))

fan_out-WithinBound :
    (u : ℕ) (e : Event) (s : Bus) → WithinBound s.queues → WithinBound (fan_out u e s).queues
unfolding fan_out
fan_out-WithinBound u e s b =
    each_queue-WithinBound (offer (some e)) (queues_of u s.subscribers) s.queues
      (length-offer (some e)) b

fan_out_each-WithinBound :
    (us : List ℕ) (e : Event) (s : Bus)
    → WithinBound s.queues
    → WithinBound (fan_out_each us e s).queues
unfolding fan_out_each
fan_out_each-WithinBound [] e s b = b
fan_out_each-WithinBound (u ∷ us) e s b = elim (Bool-cases (u == e.user_id)) [
  | inl own ↦ rw own (fan_out_each-WithinBound us e s b)
  | inr other ↦
      rw other (fan_out_each-WithinBound us e (fan_out u e s) (fan_out-WithinBound u e s b))
]

publish-WithinBound :
    (projects : List Project) (members : List Member) (e : Event) (s : Bus)
    → WithinBound s.queues
    → WithinBound (publish projects members e s).queues
unfolding publish
publish-WithinBound projects members e s b = go e.project_id
  where
    stored : Bus
    stored = record s { events = s.events ++ e ∷ [] }

    go :
        (p : Option ℕ)
        → WithinBound
            (elim p as (λ x. Bus) [
              | none ↦ fan_out e.user_id e stored
              | some q ↦
                  fan_out_each (member_rows projects members q) e (fan_out e.user_id e stored)
            ]).queues
    go none = fan_out-WithinBound e.user_id e stored b
    go (some q) =
        fan_out_each-WithinBound (member_rows projects members q) e (fan_out e.user_id e stored)
          (fan_out-WithinBound e.user_id e stored b)

pub publish-IsSound :
    (projects : List Project) (members : List Member) (e : Event) (s : Bus)
    → IsSound s
    → IsSound (publish projects members e s)
publish-IsSound projects members e s i =
    let (subs, next) = publish-subscribers projects members e s in
    record {
      bounded = publish-WithinBound projects members e s i.bounded;
      distinct = rw subs i.distinct;
      fresh = rw (subs, next) i.fresh;
    }

handles-snoc :
    (subs : List Subscription) (r : Subscription)
    → handles (subs ++ r ∷ []) ≡ handles subs ++ r.queue ∷ []
handles-snoc [] r = refl
handles-snoc (x ∷ subs) r = ap (λ hs. x.queue ∷ hs) (handles-snoc subs r)

subscribe-IsSound : (u : ℕ) (s : Bus) → IsSound s → IsSound (subscribe u s).1
unfolding subscribe
subscribe-IsSound u s i =
    let new : Subscription = record { user_id = u; queue = s.next } in
    let unused : mem s.next (handles s.subscribers) ≡ false = ground (arith, i.fresh s.next) in
    record {
      bounded = λ h. ground (arith, i.bounded h);
      distinct =
          rw (handles-snoc s.subscribers new)
            (Nodup-snoc s.next (handles s.subscribers) i.distinct unused);
      fresh = λ h m. ground (
        arith,
        handles-snoc s.subscribers new,
        mem-append h (handles s.subscribers) (s.next ∷ []),
        i.fresh h,
      );
    }

mem-remove :
    (u k h : ℕ) (subs : List Subscription)
    → mem h (handles (remove u k subs)) ≡ true
    → mem h (handles subs) ≡ true
mem-remove u k h [] m = m
mem-remove u k h (r ∷ rs) m = ground (arith, mem-remove u k h rs)

Nodup-remove :
    (u k : ℕ) (subs : List Subscription) → Nodup (handles subs) → Nodup (handles (remove u k subs))
Nodup-remove u k [] d = tt
Nodup-remove u k (r ∷ rs) d = elim (Bool-cases (r.user_id == u && r.queue == k)) [
  | inl here ↦ rw here d.1
  | inr other ↦ rw other (ground (arith, mem-remove u k r.queue rs, d.0), Nodup-remove u k rs d.1)
]

unsubscribe-IsSound : (u k : ℕ) (s : Bus) → IsSound s → IsSound (unsubscribe u k s)
unfolding unsubscribe
unsubscribe-IsSound u k s i = record {
  bounded = i.bounded;
  distinct = Nodup-remove u k s.subscribers i.distinct;
  fresh = λ h m. i.fresh h (mem-remove u k h s.subscribers m);
}

length-drop_oldest : (q : List Signal) → length (drop_oldest q) ≤ length q
length-drop_oldest [] = omega arith
length-drop_oldest (x ∷ q) = omega arith

receive-IsSound : (k : ℕ) (s : Bus) → IsSound s → IsSound (receive k s)
unfolding receive
receive-IsSound k s i = record {
  bounded = λ h. ground (arith, i.bounded h, length-drop_oldest (s.queues k), i.bounded k);
  distinct = i.distinct;
  fresh = i.fresh;
}

drain-IsSound : (s : Bus) → IsSound s → IsSound (drain s)
unfolding drain
drain-IsSound s i = record {
  bounded =
      each_queue-WithinBound (try_put none) (handles s.subscribers) s.queues (length-try_put none)
        i.bounded;
  distinct = tt;
  fresh = λ h m. ground arith;
}

-- A call on the bus, or a consumer that takes the next signal of its queue.
pub data Action : Type 0 where
  subscribes : ℕ → Action
  unsubscribes : (user_id queue : ℕ) → Action
  publishes : List Project → List Member → Event → Action
  receives : ℕ → Action
  drains : Action

unfoldable pub act : Action → Bus → Bus
act (subscribes u) s = (subscribe u s).1
act (unsubscribes u k) s = unsubscribe u k s
act (publishes projects members e) s = publish projects members e s
act (receives k) s = receive k s
act drains s = drain s

unfoldable pub act_all : List Action → Bus → Bus
act_all [] s = s
act_all (a ∷ rest) s = act_all rest (act a s)

act-IsSound : (a : Action) (s : Bus) → IsSound s → IsSound (act a s)
unfolding act
act-IsSound (subscribes u) s i = subscribe-IsSound u s i
act-IsSound (unsubscribes u k) s i = unsubscribe-IsSound u k s i
act-IsSound (publishes projects members e) s i = publish-IsSound projects members e s i
act-IsSound (receives k) s i = receive-IsSound k s i
act-IsSound drains s i = drain-IsSound s i

-- From a bus that is sound on, whatever is called in whatever order, no queue holds more than 256
-- signals and no queue is subscribed twice.
pub act_all-IsSound : (actions : List Action) (s : Bus) → IsSound s → IsSound (act_all actions s)
unfolding act_all
act_all-IsSound [] s i = i
act_all-IsSound (a ∷ rest) s i = act_all-IsSound rest (act a s) (act-IsSound a s i)

-- ===== src/EventBus/Latest.antt =====
-- What a subscriber finds in its queue after a number of events, and after the shutdown.
use mathlib.Core.List.{append-nil, append_assoc}
use agent_gtd.Prelude.{
  ℕ, ◌≡◌, ◌∙◌, sym, ap, refl, inl, inr, arith, true, none, some, List, [], ◌∷◌, ◌++◌, map, ltb,
  if◌then◌else◌, filter, length, Bool-cases,
}
use agent_gtd.Prelude.Members.{mem}
use agent_gtd.Rollout.Db.{Project, Member}
use agent_gtd.EventBus.{Signal, Event, Bus, Subscription, queue_maxsize, try_put, publish, drain}
use agent_gtd.EventBus.Queues.{keep_last, keep_last_all, keep_last-append, offer-keep_last}
use agent_gtd.EventBus.Delivery.{
  handles, owner, concerns, publish_at, publish-subscribers, publish-events, each_queue_at,
}
use agent_gtd.EventBus.Promise.{IsSound, publish-IsSound}

module _ (projects : List Project) (members : List Member) where
  unfoldable pub publish_all : List Event → Bus → Bus
  publish_all [] s = s
  publish_all (e ∷ es) s = publish_all es (publish projects members e s)

  abbrev pub news : ℕ → List Event → List Signal
  news u es = map some (filter (concerns projects members u) es)

  published :
      (h u : ℕ) (e : Event) (s : Bus) (rest : List Event)
      → IsSound s
      → owner h s.subscribers ≡ some u
      → keep_last queue_maxsize ((publish projects members e s).queues h ++ news u rest)
        ≡ keep_last queue_maxsize (s.queues h ++ news u (e ∷ rest))
  published h u e s rest i o = elim (Bool-cases (concerns projects members u e)) [
    | inl told ↦
        rw
          (
            publish_at h u projects members e s i.distinct o,
            told,
            offer-keep_last (some e) (s.queues h) (i.bounded h),
          )
          (keep_last-append queue_maxsize (s.queues h ++ some e ∷ []) (news u rest)
            ∙ ap (keep_last queue_maxsize) (append_assoc (s.queues h) (some e ∷ []) (news u rest)))
    | inr untold ↦ rw (publish_at h u projects members e s i.distinct o, untold) refl
  ]

  -- A queue that is subscribed holds, after any number of events, the last 256 of what it held
  -- and of the events that concern its user, in the order of publication; and every event is
  -- stored, in that order.
  pub publish_all_refines :
      (h u : ℕ) (es : List Event) (s : Bus)
      → IsSound s
      → owner h s.subscribers ≡ some u
      → ((publish_all es s).queues h ≡ keep_last queue_maxsize (s.queues h ++ news u es))
        × ((publish_all es s).events ≡ s.events ++ es)
  unfolding publish_all
  publish_all_refines h u [] s i o = (
    rw (append-nil (s.queues h)) (sym (keep_last_all queue_maxsize (s.queues h) (i.bounded h))),
    sym (append-nil s.events),
  )
  publish_all_refines h u (e ∷ es) s i o =
      let next = publish projects members e s in
      let (subs, same) = publish-subscribers projects members e s in
      let (queue, log) =
        publish_all_refines h u es next (publish-IsSound projects members e s i) (rw subs o) in
      (
        queue ∙ published h u e s es i o,
        log
            ∙ ap (λ k. k ++ es) (publish-events projects members e s)
            ∙ append_assoc s.events (e ∷ []) es,
      )

mem-handles :
    (h u : ℕ) (subs : List Subscription) → owner h subs ≡ some u → mem h (handles subs) ≡ true
mem-handles h u [] o = ground arith
mem-handles h u (r ∷ rs) o = ground (arith, mem-handles h u rs)

-- The shutdown leaves no subscription, and puts the signal to disconnect at the end of each
-- queue that is subscribed and not full; a full queue stays as it is.
pub drain_signals :
    (h u : ℕ) (s : Bus)
    → IsSound s
    → owner h s.subscribers ≡ some u
    → ((drain s).subscribers ≡ [])
      × ((drain s).queues h ≡ (
          if ltb (length (s.queues h)) queue_maxsize then s.queues h ++ none ∷ [] else s.queues h))
unfolding drain
drain_signals h u s i o = (
  refl,
  each_queue_at (try_put none) (handles s.subscribers) s.queues h i.distinct
      ∙ rw (mem-handles h u s.subscribers o) (ground arith),
)

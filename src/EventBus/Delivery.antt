-- ===== src/EventBus/Delivery.antt =====
-- To whom an event goes, and what the bus always keeps.
use agent_gtd.Prelude.{
  ℕ, ◌≡◌, ◌∙◌, refl, inl, inr, arith, Bool, true, false, not, ◌&&◌, ◌||◌, Option, none, some, List,
  [], ◌∷◌, ◌++◌, map, ◌==◌, if◌then◌else◌, filter, any, Bool-cases, Option-cases,
}
use agent_gtd.Prelude.Members.{mem, Nodup, mem-append}
use agent_gtd.Dag.Kahn.{update}
use agent_gtd.Rollout.Db.{Project, Member}
use agent_gtd.EventBus.{
  Signal, Event, Bus, Subscription, offer, each_queue, queues_of, fan_out, fan_out_each,
  member_rows, union, publish,
}

abbrev pub handles : List Subscription → List ℕ
handles subs = map (λ r. r.queue) subs

-- The user of a queue.
abbrev pub owner : ℕ → List Subscription → Option ℕ
owner h [] = none
owner h (r ∷ rs) = let rest = owner h rs in if r.queue == h then some r.user_id else rest

mem-queues_of :
    (h u : ℕ) (subs : List Subscription)
    → mem h (queues_of u subs) ≡ true
    → mem h (handles subs) ≡ true
mem-queues_of h u [] m = m
mem-queues_of h u (r ∷ rs) m = ground (arith, mem-queues_of h u rs)

Nodup-queues_of :
    (u : ℕ) (subs : List Subscription) → Nodup (handles subs) → Nodup (queues_of u subs)
Nodup-queues_of u [] d = tt
Nodup-queues_of u (r ∷ rs) d = elim (Bool-cases (r.user_id == u)) [
  | inl mine ↦ rw mine (ground (arith, mem-queues_of r.queue u rs, d.0), Nodup-queues_of u rs d.1)
  | inr other ↦ rw other (Nodup-queues_of u rs d.1)
]

owned_by : ℕ → Option ℕ → Bool
owned_by u none = false
owned_by u (some v) = v == u

mem-queues_of-owner :
    (h u : ℕ) (subs : List Subscription)
    → Nodup (handles subs)
    → mem h (queues_of u subs) ≡ owned_by u (owner h subs)
unfolding owned_by
mem-queues_of-owner h u [] d = refl
mem-queues_of-owner h u (r ∷ rs) d =
    ground (arith, mem-queues_of-owner h u rs d.1, mem-queues_of h u rs, d.0)

pub each_queue_at :
    (f : List Signal → List Signal) (hs : List ℕ) (queues : ℕ → List Signal) (h : ℕ)
    → Nodup hs
    → each_queue f hs queues h ≡ (if mem h hs then f (queues h) else queues h)
unfolding each_queue
each_queue_at f [] queues h d = refl
each_queue_at f (k ∷ hs) queues h d =
    ground (arith, each_queue_at f hs (update queues k (f (queues k))) h d.1, d.0)

mem-union : (u : ℕ) (us : List ℕ) → mem u (union us) ≡ mem u us
mem-union u [] = refl
mem-union u (v ∷ us) = ground (arith, mem-union u us, mem-union v us)

Nodup-union : (us : List ℕ) → Nodup (union us)
Nodup-union [] = tt
Nodup-union (v ∷ us) = elim (Bool-cases (mem v (union us))) [
  | inl old ↦ rw old (Nodup-union us)
  | inr new ↦ rw new (new, Nodup-union us)
]

mem-members :
    (u p : ℕ) (members : List Member)
    → mem u (map (λ m. m.user_id) (filter (λ m. m.project_id == p) members))
      ≡ any (λ m. m.project_id == p && m.user_id == u) members
mem-members u p [] = refl
mem-members u p (m ∷ ms) = ground (arith, mem-members u p ms)

mem-owners :
    (u p : ℕ) (projects : List Project)
    → mem u (map (λ r. r.user_id) (filter (λ r. r.id == p) projects))
      ≡ any (λ r. r.id == p && r.user_id == u) projects
mem-owners u p [] = refl
mem-owners u p (r ∷ rs) = ground (arith, mem-owners u p rs)

module _ (projects : List Project) (members : List Member) where
  -- The user is a member of the project, or its owner.
  abbrev pub takes_part : ℕ → ℕ → Bool
  takes_part u p =
      any (λ m. m.project_id == p && m.user_id == u) members
      || any (λ r. r.id == p && r.user_id == u) projects

  -- The event is the user's own, or of a project that the user takes part in.
  abbrev pub concerns : ℕ → Event → Bool
  concerns u e = u == e.user_id || elim e.project_id [ none ↦ false | some p ↦ takes_part u p ]

  Nodup-member_rows : (p : ℕ) → Nodup (member_rows projects members p)
  Nodup-member_rows p = Nodup-union (
      map (λ m. m.user_id) (filter (λ m. m.project_id == p) members)
      ++ map (λ r. r.user_id) (filter (λ r. r.id == p) projects))

  mem-member_rows : (u p : ℕ) → mem u (member_rows projects members p) ≡ takes_part u p
  mem-member_rows u p =
      let theirs = map (λ m. m.user_id) (filter (λ m. m.project_id == p) members) in
      let own = map (λ r. r.user_id) (filter (λ r. r.id == p) projects) in
      mem-union u (theirs ++ own)
      ∙ ground (arith, mem-append u theirs own, mem-members u p members, mem-owners u p projects)

module _ (h u : ℕ) where
  fan_out_at :
      (v : ℕ) (e : Event) (s : Bus)
      → Nodup (handles s.subscribers)
      → owner h s.subscribers ≡ some u
      → (fan_out v e s).queues h ≡ (if u == v then offer (some e) (s.queues h) else s.queues h)
  unfolding fan_out owned_by
  fan_out_at v e s d o =
      each_queue_at (offer (some e)) (queues_of v s.subscribers) s.queues h
        (Nodup-queues_of v s.subscribers d)
      ∙ rw (mem-queues_of-owner h v s.subscribers d, o) refl

  fan_out_each_at :
      (us : List ℕ) (e : Event) (s : Bus)
      → Nodup us
      → Nodup (handles s.subscribers)
      → owner h s.subscribers ≡ some u
      → (fan_out_each us e s).queues h
        ≡ (if mem u us && not (u == e.user_id) then offer (some e) (s.queues h) else s.queues h)
  unfolding fan_out_each fan_out
  fan_out_each_at [] e s n d o = refl
  fan_out_each_at (v ∷ us) e s n d o = ground (
    arith,
    fan_out_each_at us e s n.1 d o,
    fan_out_each_at us e (fan_out v e s) n.1 d o,
    fan_out_at v e s d o,
    n.0,
  )

  pub publish_at :
      (projects : List Project) (members : List Member) (e : Event) (s : Bus)
      → Nodup (handles s.subscribers)
      → owner h s.subscribers ≡ some u
      → (publish projects members e s).queues h
        ≡ (if concerns projects members u e then offer (some e) (s.queues h) else s.queues h)
  unfolding publish fan_out
  publish_at projects members e s d o =
      let stored = record s { events = s.events ++ e ∷ [] } in
      elim (Option-cases e.project_id) [
        | inl inbox ↦ rw inbox (ground (arith, fan_out_at e.user_id e stored d o))
        | inr (p, there) ↦ rw there (
            ground (
              arith,
              fan_out_at e.user_id e stored d o,
              mem-member_rows projects members u p,
              fan_out_each_at (member_rows projects members p) e (fan_out e.user_id e stored)
                  (Nodup-member_rows projects members p) d o,
            ))
      ]

fan_out_each-subscribers :
    (us : List ℕ) (e : Event) (s : Bus) → (fan_out_each us e s).subscribers ≡ s.subscribers
unfolding fan_out_each fan_out
fan_out_each-subscribers [] e s = refl
fan_out_each-subscribers (u ∷ us) e s =
    ground (arith, fan_out_each-subscribers us e s, fan_out_each-subscribers us e (fan_out u e s))

fan_out_each-next : (us : List ℕ) (e : Event) (s : Bus) → (fan_out_each us e s).next ≡ s.next
unfolding fan_out_each fan_out
fan_out_each-next [] e s = refl
fan_out_each-next (u ∷ us) e s =
    ground (arith, fan_out_each-next us e s, fan_out_each-next us e (fan_out u e s))

fan_out_each-events : (us : List ℕ) (e : Event) (s : Bus) → (fan_out_each us e s).events ≡ s.events
unfolding fan_out_each fan_out
fan_out_each-events [] e s = refl
fan_out_each-events (u ∷ us) e s =
    ground (arith, fan_out_each-events us e s, fan_out_each-events us e (fan_out u e s))

pub publish-events :
    (projects : List Project) (members : List Member) (e : Event) (s : Bus)
    → (publish projects members e s).events ≡ s.events ++ e ∷ []
unfolding publish fan_out
publish-events projects members e s = elim (Option-cases e.project_id) [
  | inl inbox ↦ ground arith
  | inr (p, there) ↦
      let us = member_rows projects members p in
      let own = fan_out e.user_id e (record s { events = s.events ++ e ∷ [] }) in
      ground (arith, fan_out_each-events us e own)
]

-- Publishing neither subscribes nor unsubscribes anyone.
pub publish-subscribers :
    (projects : List Project) (members : List Member) (e : Event) (s : Bus)
    → ((publish projects members e s).subscribers ≡ s.subscribers)
      × ((publish projects members e s).next ≡ s.next)
unfolding publish fan_out
publish-subscribers projects members e s = elim (Option-cases e.project_id) [
  | inl inbox ↦ (ground arith, ground arith)
  | inr (p, there) ↦
      let us = member_rows projects members p in
      let own = fan_out e.user_id e (record s { events = s.events ++ e ∷ [] }) in
      (
        ground (arith, fan_out_each-subscribers us e own),
        ground (arith, fan_out_each-next us e own),
      )
]

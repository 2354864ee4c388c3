-- ===== src/EventBus/Replay.antt =====
-- What a client that reconnects is told.
use agent_gtd.Prelude.{
  ℕ, ◌≡◌, refl, inl, inr, arith, Bool, true, false, ◌&&◌, some, List, [], ◌∷◌, ◌++◌, ltb, ◌==◌,
  filter, any, all, find?, Bool-cases,
}
use agent_gtd.EventBus.{Event, may_read, insert_by_time, by_time, replay_since}

-- The times of the events go up.
abbrev pub IsClocked : List Event → Type 0
IsClocked [] = Unit
IsClocked (e ∷ es) = (all (λ f. ltb e.created_at f.created_at) es ≡ true) × IsClocked es

later-filter :
    (t : ℕ) (p : Event → Bool) (es : List Event)
    → all (λ f. ltb t f.created_at) es ≡ true
    → all (λ f. ltb t f.created_at) (filter p es) ≡ true
later-filter t p [] h = refl
later-filter t p (e ∷ es) h = ground (arith, later-filter t p es)

filter-IsClocked : (p : Event → Bool) (es : List Event) → IsClocked es → IsClocked (filter p es)
filter-IsClocked p [] c = c
filter-IsClocked p (e ∷ es) c = elim (Bool-cases (p e)) [
  | inl kept ↦ rw kept (later-filter e.created_at p es c.0, filter-IsClocked p es c.1)
  | inr left ↦ rw left (filter-IsClocked p es c.1)
]

insert_by_time_first :
    (e : Event) (es : List Event)
    → all (λ f. ltb e.created_at f.created_at) es ≡ true
    → insert_by_time e es ≡ e ∷ es
insert_by_time_first e [] h = refl
insert_by_time_first e (f ∷ es) h = ground arith

by_time_same : (es : List Event) → IsClocked es → by_time es ≡ es
by_time_same [] c = refl
by_time_same (e ∷ es) c = ground (arith, by_time_same es c.1, insert_by_time_first e es c.0)

filter-later :
    (p : Event → Bool) (t : ℕ) (es : List Event)
    → all (λ f. ltb t f.created_at) es ≡ true
    → filter (λ e. p e && ltb t e.created_at) es ≡ filter p es
filter-later p t [] h = refl
filter-later p t (e ∷ es) h = ground (arith, filter-later p t es)

filter_none_later :
    (p : Event → Bool) (since : Event) (before after : List Event)
    → IsClocked (before ++ since ∷ after)
    → filter (λ e. p e && ltb since.created_at e.created_at) (before ++ since ∷ after)
      ≡ filter (λ e. p e && ltb since.created_at e.created_at) after
filter_none_later p since [] after c = ground arith
filter_none_later p since (e ∷ before) after c =
    ground (arith, filter_none_later p since before after c.1, earlier before c.0)
  where
    earlier :
        (before : List Event)
        → all (λ f. ltb e.created_at f.created_at) (before ++ since ∷ after) ≡ true
        → ltb e.created_at since.created_at ≡ true
    earlier [] h = ground arith
    earlier (f ∷ before) h = ground (arith, earlier before)

IsClocked-after :
    (since : Event) (before after : List Event)
    → IsClocked (before ++ since ∷ after)
    → IsClocked (since ∷ after)
IsClocked-after since [] after c = c
IsClocked-after since (e ∷ before) after c = IsClocked-after since before after c.1

find_since :
    (p : Event → Bool) (since : Event) (before after : List Event)
    → any (λ e. e.id == since.id) before ≡ false
    → p since ≡ true
    → find? (λ e. e.id == since.id && p e) (before ++ since ∷ after) ≡ some since
find_since p since [] after n r = ground arith
find_since p since (e ∷ before) after n r = ground (arith, find_since p since before after)

-- Where the stored times go up and the named event is one that the user may read, the replay is
-- every event stored after it that the user may read, in the order of storage.
pub replay_since_lem :
    (user : ℕ) (ids : List ℕ) (since : Event) (before after : List Event)
    → IsClocked (before ++ since ∷ after)
    → any (λ e. e.id == since.id) before ≡ false
    → may_read user ids since ≡ true
    → replay_since user since.id ids (before ++ since ∷ after) ≡ filter (may_read user ids) after
unfolding replay_since
replay_since_lem user ids since before after c n r =
    let later = IsClocked-after since before after c in
    rw
      (
        find_since (may_read user ids) since before after n r,
        replay_since,
        filter_none_later (may_read user ids) since before after c,
        filter-later (may_read user ids) since.created_at after later.0,
      )
      (by_time_same (filter (may_read user ids) after)
        (filter-IsClocked (may_read user ids) after later.1))

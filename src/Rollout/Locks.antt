-- ===== src/Rollout/Locks.antt =====
-- src/agent_gtd/services/rollout_lock_service.py: the column `locked_by_rollout_id` of the items.
use agent_gtd.Prelude.{
  ℕ, ◌≡◌, refl, ◌⊎◌, Bool, true, false, not, ◌&&◌, ◌||◌, Option, none, some, List, [], ◌∷◌, arith,
  map, ◌==◌, if◌then◌else◌, any, Bool-cases, inl, inr,
}
use agent_gtd.Prelude.Members.{mem}
use agent_gtd.Exceptions.{ok, err, validation_error, already_locked}
use agent_gtd.Rollout.Db.{Db, Call, Item}

abbrev pub held_by : Option ℕ → ℕ → Bool
held_by none rollout_id = false
held_by (some r) rollout_id = r == rollout_id

-- `SELECT locked_by_rollout_id FROM items WHERE id = $1`; no row reads as no lock.
abbrev pub lock_of : ℕ → List Item → Option ℕ
lock_of a [] = none
lock_of a (i ∷ is) = let rest = lock_of a is in if i.id == a then i.locked_by_rollout_id else rest

-- Locked by another rollout.
abbrev pub foreign : Option ℕ → ℕ → Bool
foreign none rollout_id = false
foreign (some r) rollout_id = not (r == rollout_id)

abbrev pub lock_one : ℕ → ℕ → Item → Item
lock_one rollout_id item_id i =
    if i.id == item_id && not (foreign i.locked_by_rollout_id rollout_id)
    then record i { locked_by_rollout_id = some rollout_id }
    else i

-- the second loop
unfoldable pub lock_all : ℕ → List ℕ → List Item → List Item
lock_all rollout_id [] items = items
lock_all rollout_id (a ∷ ids) items = lock_all rollout_id ids (map (lock_one rollout_id a) items)

-- The first loop raises before the second writes anything.
unfoldable pub lock_items_for_rollout : ℕ → List ℕ → Call (Unit {0})
lock_items_for_rollout rollout_id item_ids s =
    if any (λ a. foreign (lock_of a s.items) rollout_id) item_ids
    then (err (validation_error already_locked), s)
    else (ok tt, record s { items = lock_all rollout_id item_ids s.items })

abbrev unlock_one : ℕ → ℕ → Item → Item
unlock_one rollout_id item_id i =
    if i.id == item_id && held_by i.locked_by_rollout_id rollout_id
    then record i { locked_by_rollout_id = none }
    else i

unfoldable pub release_rollout_item : ℕ → ℕ → Db → Db
release_rollout_item rollout_id item_id s = record s {
  items = map (unlock_one rollout_id item_id) s.items;
}

abbrev unlock_held : ℕ → Item → Item
unlock_held rollout_id i =
    if held_by i.locked_by_rollout_id rollout_id
    then record i { locked_by_rollout_id = none }
    else i

unfoldable pub release_rollout_locks : ℕ → Db → Db
release_rollout_locks rollout_id s = record s { items = map (unlock_held rollout_id) s.items }

lock_of-unlock_one :
    (r a b : ℕ) (is : List Item)
    → lock_of b (map (unlock_one r a) is)
      ≡ (if a == b && held_by (lock_of b is) r then none else lock_of b is)
lock_of-unlock_one r a b [] = ground arith
lock_of-unlock_one r a b (i ∷ is) = ground (arith, lock_of-unlock_one r a b is)

-- Releasing one item frees that item if this rollout holds it, and no other lock.
pub lock_of-release_rollout_item :
    (r a b : ℕ) (s : Db)
    → lock_of b (release_rollout_item r a s).items
      ≡ (if a == b && held_by (lock_of b s.items) r then none else lock_of b s.items)
unfolding release_rollout_item
lock_of-release_rollout_item r a b s = lock_of-unlock_one r a b s.items

lock_of-unlock_held :
    (r b : ℕ) (is : List Item)
    → lock_of b (map (unlock_held r) is) ≡ (if held_by (lock_of b is) r then none else lock_of b is)
lock_of-unlock_held r b [] = ground arith
lock_of-unlock_held r b (i ∷ is) = ground (arith, lock_of-unlock_held r b is)

-- Releasing all frees exactly the items that this rollout holds.
pub lock_of-release_rollout_locks :
    (r b : ℕ) (s : Db)
    → lock_of b (release_rollout_locks r s).items
      ≡ (if held_by (lock_of b s.items) r then none else lock_of b s.items)
unfolding release_rollout_locks
lock_of-release_rollout_locks r b s = lock_of-unlock_held r b s.items

-- `SELECT 1 FROM items WHERE id = $1`
abbrev pub item_exists : ℕ → List Item → Bool
item_exists a [] = false
item_exists a (i ∷ is) = i.id == a || item_exists a is

lock_of-lock_one :
    (r a b : ℕ) (is : List Item)
    → lock_of b (map (lock_one r a) is) ≡ (
        if a == b && (item_exists b is && not (foreign (lock_of b is) r))
        then some r
        else lock_of b is)
lock_of-lock_one r a b [] = ground arith
lock_of-lock_one r a b (i ∷ is) = ground (arith, lock_of-lock_one r a b is)

item_exists-lock_one :
    (r a b : ℕ) (is : List Item) → item_exists b (map (lock_one r a) is) ≡ item_exists b is
item_exists-lock_one r a b [] = refl
item_exists-lock_one r a b (i ∷ is) = ground (arith, item_exists-lock_one r a b is)

lock_of-lock_all :
    (r b : ℕ) (ids : List ℕ) (is : List Item)
    → lock_of b (lock_all r ids is) ≡ (
        if mem b ids && (item_exists b is && not (foreign (lock_of b is) r))
        then some r
        else lock_of b is)
unfolding lock_all
lock_of-lock_all r b [] is = ground arith
lock_of-lock_all r b (a ∷ ids) is = ground (
  arith,
  lock_of-lock_all r b ids (map (lock_one r a) is),
  lock_of-lock_one r a b is,
  item_exists-lock_one r a b is,
)

any-foreign :
    (r b : ℕ) (ids : List ℕ) (is : List Item)
    → any (λ a. foreign (lock_of a is) r) ids ≡ false
    → mem b ids ≡ true
    → foreign (lock_of b is) r ≡ false
any-foreign r b [] is h m = ground arith
any-foreign r b (a ∷ ids) is h m = ground (arith, any-foreign r b ids is)

-- A call that returns has locked every existing item it was given, and no other; one that raises
-- has changed nothing.
pub lock_items_for_rollout_all :
    (r : ℕ) (ids : List ℕ) (s : Db)
    → ((lock_items_for_rollout r ids s).0 ≡ err (validation_error already_locked)
        × ((lock_items_for_rollout r ids s).1 ≡ s))
      ⊎ (((lock_items_for_rollout r ids s).0 ≡ ok tt)
          × ((b : ℕ)
              → lock_of b (lock_items_for_rollout r ids s).1.items
                ≡ (if mem b ids && item_exists b s.items then some r else lock_of b s.items)))
unfolding lock_items_for_rollout
lock_items_for_rollout_all r ids s =
    elim (Bool-cases (any (λ a. foreign (lock_of a s.items) r) ids)) [
      | inl taken ↦ inl (ground arith)
      | inr free ↦ inr (
        ground arith,
        λ b. ground (arith, lock_of-lock_all r b ids s.items, any-foreign r b ids s.items),
      )
    ]

-- ===== src/Items/Rows.antt =====
-- The rows of the items, and what an update does to them.
use agent_gtd.Prelude.{
  ℕ, ◌≡◌, ◌⊎◌, ◌∙◌, ap, refl, inl, inr, arith, Bool, true, false, ◌&&◌, Option, none, some, List,
  [], ◌∷◌, map, ◌==◌, if◌then◌else◌, find?, Bool-cases,
}
use agent_gtd.Prelude.Members.{mem, Nodup}
use agent_gtd.Text.{Text}
use agent_gtd.Rollout.Types.{DispatchMode}
use agent_gtd.Rollout.Db.{Db, Item}
use agent_gtd.Rollout.Items.{check_halted_rollout_completion}
use agent_gtd.Items.{Changes, change, change_at, has_updates, commit_update, update_item}
use agent_gtd.Items.Guards.{permitted, update_item-returns}

abbrev pub item_ids : List Item → List ℕ
item_ids items = map (λ i. i.id) items

-- The row with this id.
abbrev pub row_of : ℕ → List Item → Option Item
row_of a [] = none
row_of a (i ∷ is) = let rest = row_of a is in if i.id == a then some i else rest

row_of-absent : (a : ℕ) (items : List Item) → mem a (item_ids items) ≡ false → row_of a items ≡ none
row_of-absent a [] h = refl
row_of-absent a (i ∷ is) h = ground (arith, row_of-absent a is)

find-absent :
    (a : ℕ) (p : Item → Bool) (items : List Item)
    → mem a (item_ids items) ≡ false
    → find? (λ i. i.id == a && p i) items ≡ none
find-absent a p [] h = refl
find-absent a p (i ∷ is) h = ground (arith, find-absent a p is)

pub row_of-found :
    (a : ℕ) (p : Item → Bool) (items : List Item) (r : Item)
    → Nodup (item_ids items)
    → find? (λ i. i.id == a && p i) items ≡ some r
    → row_of a items ≡ some r
row_of-found a p [] r d e = ground arith
row_of-found a p (i ∷ is) r d e = ground (arith, row_of-found a p is r d.1, find-absent a p is, d.0)

unfoldable pub changed : ℕ → Changes → Option Item → Option Item
changed now c none = none
changed now c (some i) = some (change now c i)

pub row_of-change_at :
    (now a : ℕ) (c : Changes) (items : List Item)
    → row_of a (change_at now a c items) ≡ changed now c (row_of a items)
unfolding changed
row_of-change_at now a c [] = refl
row_of-change_at now a c (i ∷ is) = ground (arith, row_of-change_at now a c is)

pub item_ids-change_at :
    (now a : ℕ) (c : Changes) (items : List Item)
    → item_ids (change_at now a c items) ≡ item_ids items
item_ids-change_at now a c [] = refl
item_ids-change_at now a c (i ∷ is) = ground (arith, item_ids-change_at now a c is)

pub commit_update-items :
    (now a : ℕ) (c : Changes) (s : Db)
    → has_updates c ≡ true
    → (commit_update now a c s).items ≡ change_at now a c s.items
unfolding commit_update check_halted_rollout_completion
commit_update-items now a c s h = ground arith

pub commit_update-unchanged :
    (now a : ℕ) (c : Changes) (s : Db)
    → has_updates c ≡ false
    → (commit_update now a c s).items ≡ s.items
unfolding commit_update check_halted_rollout_completion
commit_update-unchanged now a c s h = ground arith

pub wrote : {b : Bool} (s : Db) {t u : Db} → t ≡ (if b then u else s) → b ≡ true → t ≡ u
wrote s e h = rw h at e

pub kept : {b : Bool} (s u : Db) {t : Db} → t ≡ (if b then u else s) → b ≡ false → t ≡ s
kept s u e h = rw h at e

-- An update leaves the rows alone or applies its changes to one of them.
pub update_item-items :
    (engines : List Text) (now : ℕ) (mode : Option DispatchMode) (version : Option ℕ) (c : Changes)
    (user b : ℕ) (s : Db)
    → let rows = (update_item engines now mode version c user b s).1.items in
      (rows ≡ s.items) ⊎ (rows ≡ change_at now b c s.items)
update_item-items engines now mode version c user b s =
    let q = update_item-returns engines now mode version c user b s in
    elim (Bool-cases (permitted engines mode version c user b s)) [
      | inr refused ↦ inl (ap (λ t. t.items) (kept s _ q.1 refused))
      | inl allowed ↦
          let done = ap (λ t. t.items) (wrote s q.1 allowed) in
          elim (Bool-cases (has_updates c)) [
            | inl some_there ↦ inr (done ∙ commit_update-items now b c s some_there)
            | inr none_there ↦ inl (done ∙ commit_update-unchanged now b c s none_there)
          ]
    ]

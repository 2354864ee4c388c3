-- ===== src/Rollout/Access.antt =====
-- Who may see what: `get_item` of item_service.py and `verify_project_access` of project_service.py;
-- and `create_comment` of comment_service.py, which asks them.
use agent_gtd.Prelude.{
  ℕ, ◌≡◌, arith, Bool, ◌&&◌, ◌||◌, Option, none, some, [], ◌∷◌, ◌++◌, ◌==◌, if◌then◌else◌, any,
  find?,
}
use agent_gtd.Text.{Text}
use agent_gtd.Exceptions.{ok, err, not_found, EntityType}
use agent_gtd.Rollout.Db.{Db, Call, Item, execute, ◌>>◌}

-- `accessible_project_ids` holds `project_id`: owned, or shared with the user.
unfoldable pub project_accessible : Db → ℕ → ℕ → Bool
project_accessible s user_id project_id =
    any (λ p. p.id == project_id && p.user_id == user_id) s.projects
    || any (λ m. m.project_id == project_id && m.user_id == user_id) s.members

-- The WHERE clause of `get_item`.
unfoldable pub item_accessible : Db → ℕ → Item → Bool
item_accessible s user_id i = elim i.project_id [
  | none ↦ i.user_id == user_id
  | some project_id ↦ project_accessible s user_id project_id
]

unfoldable pub get_item : ℕ → ℕ → Call Item
unfolding item_accessible project_accessible
get_item user_id item_id s =
    elim (find? (λ i. i.id == item_id && item_accessible s user_id i) s.items) [
      | none ↦ (err (not_found EntityType.item item_id), s)
      | some i ↦ (ok i, s)
    ]

pub get_item-reads : (user a : ℕ) (s : Db) → (get_item user a s).1 ≡ s
unfolding get_item
get_item-reads user a s = ground arith

-- A project row with this id that the user owns or is a member of.
unfoldable pub verify_project_access : ℕ → ℕ → Call (Unit {0})
verify_project_access project_id user_id s =
    if any
      (λ p.
        p.id == project_id
        && (p.user_id == user_id
            || any (λ m. m.project_id == project_id && m.user_id == user_id) s.members))
      s.projects
    then (ok tt, s)
    else (err (not_found EntityType.project project_id), s)

unfoldable pub add_comment : ℕ → Option ℕ → Option ℕ → ℕ → Text → Db → Db
add_comment comment_id project_id item_id user_id content s = record s {
  comments =
      s.comments
      ++ record {
        id = comment_id;
        project_id = project_id;
        item_id = item_id;
        user_id = user_id;
        content_markdown = content;
      }
        ∷ [];
}

-- `create_comment` on a project, and on an item. `comment_id` is the new uuid.
unfoldable pub create_project_comment : ℕ → ℕ → ℕ → Text → Call (Unit {0})
create_project_comment comment_id user_id project_id content = do
  verify_project_access project_id user_id
  execute (add_comment comment_id (some project_id) none user_id content)

unfoldable pub create_item_comment : ℕ → ℕ → ℕ → Text → Call (Unit {0})
create_item_comment comment_id user_id item_id content = do
  get_item user_id item_id
  execute (add_comment comment_id none (some item_id) user_id content)

-- ===== src/Items/Stamps.antt =====
-- The completion time of items.
use agent_gtd.Prelude.{
  ℕ, ◌≡◌, refl, inl, inr, arith, Bool, true, false, not, Option, List, [], ◌∷◌, all, Bool-cases,
}
use agent_gtd.Text.{Text}
use agent_gtd.Rollout.Types.{DispatchMode, is_done}
use agent_gtd.Rollout.Db.{Db, Item}
use agent_gtd.Rollout.Items.{check_halted_rollout_completion}
use agent_gtd.Items.{Changes, change_at, commit_update, update_item, is_set}
use agent_gtd.Items.Guards.{permitted, update_item-returns}

-- A done item has a completion time, and no other item has.
abbrev pub same_bool : Bool → Bool → Bool
same_bool true b = b
same_bool false b = not b

abbrev pub stamped : List Item → Bool
stamped items = all (λ i. same_bool (is_done i.status) (is_set i.completed_at)) items

stamped-change_at :
    (now a : ℕ) (c : Changes) (items : List Item)
    → stamped items ≡ true
    → stamped (change_at now a c items) ≡ true
stamped-change_at now a c [] h = refl
stamped-change_at now a c (i ∷ is) h = ground (arith, stamped-change_at now a c is)

stamped-commit_update :
    (now a : ℕ) (c : Changes) (s : Db)
    → stamped s.items ≡ true
    → stamped (commit_update now a c s).items ≡ true
unfolding commit_update check_halted_rollout_completion
stamped-commit_update now a c s h = ground (arith, stamped-change_at now a c s.items)

module _ (engines : List Text) where
  -- Whatever an update is asked to change and whether or not it is refused, an item has a
  -- completion time exactly when it is done, where that was so before.
  pub stamped-update_item :
      (now : ℕ) (mode : Option DispatchMode) (version : Option ℕ) (c : Changes) (user a : ℕ)
      (s : Db)
      → stamped s.items ≡ true
      → stamped (update_item engines now mode version c user a s).1.items ≡ true
  stamped-update_item now mode version c user a s h =
      let q = update_item-returns engines now mode version c user a s in
      elim (Bool-cases (permitted engines mode version c user a s)) [
        | inl may ↦ ground (arith, q.1, stamped-commit_update now a c s h)
        | inr refused ↦ ground (arith, q.1)
      ]

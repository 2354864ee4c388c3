-- ===== src/Items/Guards.antt =====
-- When an update of an item is refused.
use agent_gtd.Prelude.{
  ℕ, ◌≡◌, ◌↔◌, refl, arith, Bool, true, false, not, ◌&&◌, Option, none, some, List, if◌then◌else◌,
}
use agent_gtd.Text.{Text}
use agent_gtd.Exceptions.{Result, ok, err}
use agent_gtd.Rollout.Types.{DispatchMode}
use agent_gtd.Rollout.Db.{Db, Call, Item, continue, execute, ◌>>◌}
use agent_gtd.Rollout.Access.{get_item, get_item-reads, verify_project_access}
use agent_gtd.Rollout.Plan.Legality.{get_unresolved_blockers, is_nothing}
use agent_gtd.Items.{
  Changes, refuses_engine, refuses_commit_type, overrides_engine, conflicts, activates, check_move,
  check_update, commit_update, update_item,
}

abbrev pub returns : {A : Type 0} → Result A → Bool
returns (ok a) = true
returns (err e) = false

-- The item may go where it is told to.
abbrev pub may_move : ℕ → Option ℕ → Option (Option ℕ) → Db → Bool
may_move user lock none s = true
may_move user (some r) (some target) s = false
may_move user none (some none) s = true
may_move user none (some (some p)) s = returns (verify_project_access p user s).0

-- A plan run leaves a chosen engine alone, the version is the one that was read, an item with open
-- blockers does not become active, and the item may move.
abbrev pub allows : ℕ → ℕ → Option DispatchMode → Option ℕ → Changes → Item → Db → Bool
allows user a mode version c i s =
    not (overrides_engine mode c.build_engine i.build_engine)
    && not (conflicts version i.version)
    && not (activates c.status i.status && not (is_nothing (get_unresolved_blockers s a)))
    && may_move user i.locked_by_rollout_id c.project_id s

check_move-returns :
    (user a : ℕ) (lock : Option ℕ) (target : Option (Option ℕ)) (s : Db)
    → (returns (check_move user a lock target s).0 ≡ may_move user lock target s)
      × ((check_move user a lock target s).1 ≡ s)
unfolding check_move verify_project_access
check_move-returns user a lock target s = ground arith

check_update-returns :
    (user a : ℕ) (mode : Option DispatchMode) (version : Option ℕ) (c : Changes) (i : Item) (s : Db)
    → (returns (check_update user a mode version c i s).0 ≡ allows user a mode version c i s)
      × ((check_update user a mode version c i s).1 ≡ s)
unfolding check_update
check_update-returns user a mode version c i s =
    ground (arith, check_move-returns user a i.locked_by_rollout_id c.project_id s)

returns_iff : (r : Result (Unit {0})) (b : Bool) → returns r ≡ b → (r ≡ ok tt) ↔ (b ≡ true)
returns_iff (ok x) b h = (λ k. ground arith, λ k. refl)
returns_iff (err e) b h = (λ k. ground arith, λ k. ground arith)

module _ (now user a : ℕ) (mode : Option DispatchMode) (version : Option ℕ) (c : Changes)
    (s : Db) where
  abbrev passes : Result Item → Bool
  passes r = elim r [ err e ↦ false | ok i ↦ allows user a mode version c i s ]

  abbrev checked : Item → Call (Unit {0})
  checked i = check_update user a mode version c i >> execute (commit_update now a c)

  checked-returns :
      (r : Result Item)
      → let m = continue r checked s in
        (returns m.0 ≡ passes r) × (m.1 ≡ (if passes r then commit_update now a c s else s))
  checked-returns (err e) = (refl, refl)
  checked-returns (ok i) = ground (arith, check_update-returns user a mode version c i s)

module _ (engines : List Text) where
  -- What `update_item` asks before it writes.
  abbrev pub permitted : Option DispatchMode → Option ℕ → Changes → ℕ → ℕ → Db → Bool
  permitted mode version c user a s =
      not (refuses_engine engines c.build_engine)
      && not (refuses_commit_type c.commit_type)
      && elim (get_item user a s).0 [ err e ↦ false | ok i ↦ allows user a mode version c i s ]

  -- An update returns exactly when it is permitted: the engine and the commit type are known, the
  -- user may see the item, and its row passes the checks. Then the update is committed, and
  -- else nothing is written.
  pub update_item-returns :
      (now : ℕ) (mode : Option DispatchMode) (version : Option ℕ) (c : Changes) (user a : ℕ)
      (s : Db)
      → (((update_item engines now mode version c user a s).0 ≡ ok tt)
          ↔ (permitted mode version c user a s ≡ true))
        × ((update_item engines now mode version c user a s).1
            ≡ (if permitted mode version c user a s then commit_update now a c s else s))
  unfolding update_item
  update_item-returns now mode version c user a s =
      let q = checked-returns now user a mode version c s (get_item user a s).0 in
      let e : returns (update_item engines now mode version c user a s).0
          ≡ permitted mode version c user a s =
        ground (arith, q.0, get_item-reads user a s) in
      (
        returns_iff (update_item engines now mode version c user a s).0
            (permitted mode version c user a s) e,
        ground (arith, q.1, get_item-reads user a s),
      )

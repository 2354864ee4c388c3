-- ===== src/Items/Asks.antt =====
-- What an update of an item asks before it writes, described apart from the code.
use agent_gtd.Prelude.{
  ℕ, ◌≡◌, refl, inl, inr, arith, Bool, true, false, not, ◌&&◌, ◌||◌, Option, none, some, List, [],
  ◌∷◌, ◌==◌, find?, filter, any, map, Option-cases,
}
use agent_gtd.Text.{Text, text, is_empty, same_text, mem_text}
use agent_gtd.Dag.{Dependency}
use agent_gtd.Rollout.Types.{DispatchMode, ItemStatus}
use agent_gtd.Rollout.Db.{Db, Item}
use agent_gtd.Rollout.Access.{get_item, item_accessible, project_accessible, verify_project_access}
use agent_gtd.Rollout.Plan.Legality.{get_unresolved_blockers, is_nothing, is_open}
use agent_gtd.Items.{
  Changes, refuses_engine, refuses_commit_type, overrides_engine, conflicts, activates,
}
use agent_gtd.Items.Guards.{may_move, permitted}

abbrev pub engine_known : List Text → Option (Option Text) → Bool
engine_known engines (some (some t)) = mem_text t engines
engine_known engines _ = true

abbrev pub commit_type_known : Option Text → Bool
commit_type_known none = true
commit_type_known (some t) =
    is_empty t
    || (same_text t (text "feat")
        || (same_text t (text "fix")
            || (same_text t (text "perf")
                || (same_text t (text "refactor")
                    || (same_text t (text "test")
                        || (same_text t (text "docs") || same_text t (text "chore")))))))

-- A plan run writes no other engine over a chosen one.
abbrev pub leaves_engine : Option DispatchMode → Option (Option Text) → Text → Bool
leaves_engine (some DispatchMode.plan) (some none) current = is_empty current
leaves_engine (some DispatchMode.plan) (some (some t)) current =
    is_empty current || same_text t current
leaves_engine _ _ current = true

abbrev pub is_current : Option ℕ → ℕ → Bool
is_current none n = true
is_current (some v) n = n == v

abbrev pub begins : Option ItemStatus → ItemStatus → Bool
begins (some ItemStatus.active) ItemStatus.active = false
begins (some ItemStatus.active) _ = true
begins _ _ = false

abbrev is_unclosed : ItemStatus → Bool
is_unclosed ItemStatus.done = false
is_unclosed ItemStatus.cancelled = false
is_unclosed _ = true

-- Some recorded blocker of the item is an item that is neither done nor cancelled.
abbrev pub is_blocked : ℕ → Db → Bool
is_blocked a s =
    any
      (λ d. d.item_id == a && any (λ i. i.id == d.blocker_item_id && is_unclosed i.status) s.items)
      s.dependencies

abbrev pub any? : {A : Type 0} → (A → Bool) → Option A → Bool
any? p none = false
any? p (some x) = p x

engine_known_lem :
    (engines : List Text) (e : Option (Option Text))
    → not (refuses_engine engines e) ≡ engine_known engines e
unfolding refuses_engine
engine_known_lem engines e = ground arith

commit_type_known_lem : (t : Option Text) → not (refuses_commit_type t) ≡ commit_type_known t
unfolding refuses_commit_type
commit_type_known_lem t = ground arith

leaves_engine_lem :
    (mode : Option DispatchMode) (e : Option (Option Text)) (current : Text)
    → not (overrides_engine mode e current) ≡ leaves_engine mode e current
unfolding overrides_engine
leaves_engine_lem mode e current = ground arith

is_current_lem : (v : Option ℕ) (n : ℕ) → not (conflicts v n) ≡ is_current v n
is_current_lem v n = ground arith

begins_lem : (new : Option ItemStatus) (old : ItemStatus) → activates new old ≡ begins new old
begins_lem new old = ground arith

is_unclosed_lem :
    (b : ℕ) (items : List Item)
    → is_open b items ≡ any (λ i. i.id == b && is_unclosed i.status) items
is_unclosed_lem b [] = refl
is_unclosed_lem b (i ∷ is) = ground (arith, is_unclosed_lem b is)

is_blocked_lem : (a : ℕ) (s : Db) → not (is_nothing (get_unresolved_blockers s a)) ≡ is_blocked a s
unfolding get_unresolved_blockers
is_blocked_lem a s = go s.dependencies
  where
    go :
        (ds : List Dependency)
        → not (
            is_nothing (
              filter
                (λ b. is_open b s.items)
                (map (λ d. d.blocker_item_id) (filter (λ d. d.item_id == a) ds))))
          ≡ any
              (λ d.
                d.item_id == a
                && any (λ i. i.id == d.blocker_item_id && is_unclosed i.status) s.items)
              ds
    go [] = refl
    go (d ∷ ds) = ground (arith, go ds, is_unclosed_lem d.blocker_item_id s.items)

-- The user owns the item, if it is in no project, or else its project, or is a member of that.
abbrev pub sees : ℕ → Option ℕ → ℕ → Db → Bool
sees user none owner s = owner == user
sees user (some p) owner s =
    any (λ q. q.id == p && q.user_id == user) s.projects
    || any (λ m. m.project_id == p && m.user_id == user) s.members

-- An unlocked item may leave its project, and may go to a project that there is and that the user
-- owns or is a member of.
abbrev pub may_go : ℕ → Option ℕ → Option (Option ℕ) → Db → Bool
may_go user lock none s = true
may_go user (some r) (some target) s = false
may_go user none (some none) s = true
may_go user none (some (some p)) s =
    any
      (λ q.
        q.id == p
        && (q.user_id == user || any (λ m. m.project_id == p && m.user_id == user) s.members))
      s.projects

sees_lem :
    (user : ℕ) (s : Db) (i : Item) → item_accessible s user i ≡ sees user i.project_id i.user_id s
unfolding item_accessible project_accessible
sees_lem user s i = ground arith

may_go_lem :
    (user : ℕ) (lock : Option ℕ) (target : Option (Option ℕ)) (s : Db)
    → may_move user lock target s ≡ may_go user lock target s
unfolding verify_project_access
may_go_lem user lock target s = ground arith

-- The row lets the update through.
abbrev pub lets : ℕ → ℕ → Option DispatchMode → Option ℕ → Changes → Db → Item → Bool
lets user a mode version c s i =
    leaves_engine mode c.build_engine i.build_engine
    && is_current version i.version
    && not (begins c.status i.status && is_blocked a s)
    && may_go user i.locked_by_rollout_id c.project_id s

abbrev pub may_update : List Text → Option DispatchMode → Option ℕ → Changes → ℕ → ℕ → Db → Bool
may_update engines mode version c user a s =
    engine_known engines c.build_engine
    && commit_type_known c.commit_type
    && any? (lets user a mode version c s)
        (find? (λ i. i.id == a && sees user i.project_id i.user_id s) s.items)

pub find-sees :
    (user a : ℕ) (s : Db)
    → find? (λ i. i.id == a && item_accessible s user i) s.items
      ≡ find? (λ i. i.id == a && sees user i.project_id i.user_id s) s.items
find-sees user a s = λ k. find? (λ i. i.id == a && sees_lem user s i k) s.items

pub permitted-may_update :
    (engines : List Text) (mode : Option DispatchMode) (version : Option ℕ) (c : Changes)
    (user a : ℕ) (s : Db)
    → permitted engines mode version c user a s ≡ may_update engines mode version c user a s
unfolding get_item
permitted-may_update engines mode version c user a s =
    rw
      (
        engine_known_lem engines c.build_engine,
        commit_type_known_lem c.commit_type,
        ← find-sees user a s,
      )
      (elim (Option-cases (find? (λ i. i.id == a && item_accessible s user i) s.items)) [
        | inl nobody ↦ rw nobody refl
        | inr (i, there) ↦
            rw
              (
                there,
                may_go_lem user i.locked_by_rollout_id c.project_id s,
                leaves_engine_lem mode c.build_engine i.build_engine,
                is_current_lem version i.version,
                begins_lem c.status i.status,
                is_blocked_lem a s,
              )
              refl
      ])

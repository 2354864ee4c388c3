-- ===== src/Items/Effect.antt =====
-- What an update of an item writes, described apart from the code.
use agent_gtd.Prelude.{
  ℕ, ◌+◌, ◌≡◌, ◌≢◌, ◌⊎◌, ◌∙◌, sym, ap, refl, inl, inr, arith, true, false, not, ◌&&◌, Option, none,
  some, List, [], ◌∷◌, ◌==◌, find?, filter, Bool-cases, Option-cases,
}
use agent_gtd.Prelude.Members.{Nodup}
use agent_gtd.Text.{Text}
use agent_gtd.Exceptions.{Result, AgentGtdError, ok, err}
use agent_gtd.Rollout.Types.{DispatchMode}
use agent_gtd.Rollout.Db.{Db, Item}
use agent_gtd.Rollout.Access.{item_accessible}
use agent_gtd.Items.{
  Changes, no_changes, has_updates, commit_update, or_old, or_null, change, change_at, update_item,
}
use agent_gtd.Items.Guards.{permitted, update_item-returns}
use agent_gtd.Items.Rows.{
  row_of, changed, row_of-found, row_of-change_at, item_ids, commit_update-items,
  commit_update-unchanged, wrote, kept,
}
use agent_gtd.Items.Asks.{may_update, find-sees, permitted-may_update}

-- The value asked for, or the old one where none is asked for.
abbrev pub Takes : {A : Type 0} → Option A → A → A → Type 0
Takes none old new = new ≡ old
Takes (some x) old new = new ≡ x

-- An engine that is taken away is empty in the row.
abbrev pub TakesEngine : Option (Option Text) → Text → Text → Type 0
TakesEngine none old new = new ≡ old
TakesEngine (some none) old new = new ≡ []
TakesEngine (some (some t)) old new = new ≡ t

-- The second row is the first with what the changes ask for, one version later; its completion
-- time is not in question here.
pub record IsAsked (c : Changes) (i j : Item) : Type 0 where
  pub id : j.id ≡ i.id
  pub user_id : j.user_id ≡ i.user_id
  pub lock : j.locked_by_rollout_id ≡ i.locked_by_rollout_id
  pub project : Takes c.project_id i.project_id j.project_id
  pub status : Takes c.status i.status j.status
  pub assigned_to : Takes c.assigned_to i.assigned_to j.assigned_to
  pub build_engine : TakesEngine c.build_engine i.build_engine j.build_engine
  pub commit_type : Takes c.commit_type i.commit_type j.commit_type
  pub acceptance_criteria : Takes c.acceptance_criteria i.acceptance_criteria j.acceptance_criteria
  pub files_to_modify : Takes c.files_to_modify i.files_to_modify j.files_to_modify
  pub version : j.version ≡ i.version + 1

takes : {A : Type 0} (o : Option A) (old : A) → Takes o old (or_old o old)
takes none old = refl
takes (some x) old = refl

takes_engine :
    (o : Option (Option Text)) (old : Text)
    → TakesEngine o old (elim o [ none ↦ old | some t ↦ or_null t ])
takes_engine none old = refl
takes_engine (some none) old = refl
takes_engine (some (some t)) old = refl

change-IsAsked : (now : ℕ) (c : Changes) (i : Item) → IsAsked c i (change now c i)
change-IsAsked now c i = record {
  id = refl;
  user_id = refl;
  lock = refl;
  project = takes c.project_id i.project_id;
  status = takes c.status i.status;
  assigned_to = takes c.assigned_to i.assigned_to;
  build_engine = takes_engine c.build_engine i.build_engine;
  commit_type = takes c.commit_type i.commit_type;
  acceptance_criteria = takes c.acceptance_criteria i.acceptance_criteria;
  files_to_modify = takes c.files_to_modify i.files_to_modify;
  version = refl;
}

-- The items before and after an update that returns: all but its own are as before, and its own
-- has what was asked for, if anything was.
pub record IsUpdated (c : Changes) (a : ℕ) (old new : List Item) : Type 0 where
  pub others : filter (λ i. not (i.id == a)) new ≡ filter (λ i. not (i.id == a)) old
  pub its :
      ((c ≡ no_changes) × (new ≡ old))
      ⊎ ((c ≢ no_changes)
          × (i j : Item) × (row_of a old ≡ some i)
          × (row_of a new ≡ some j)
          × IsAsked c i j)

others-change_at :
    (now a : ℕ) (c : Changes) (items : List Item)
    → filter (λ i. not (i.id == a)) (change_at now a c items) ≡ filter (λ i. not (i.id == a)) items
others-change_at now a c [] = refl
others-change_at now a c (i ∷ is) = ground (arith, others-change_at now a c is)

has_updates-no_changes : (c : Changes) → has_updates c ≡ false → c ≡ no_changes
has_updates-no_changes c h = ground arith

some-no_changes : (c : Changes) → has_updates c ≡ true → c ≢ no_changes
some-no_changes c h e = ground (arith, rw e at h)

result_cases : (r : Result (Unit {0})) → (r ≡ ok tt) ⊎ ((e : AgentGtdError) × (r ≡ err e))
result_cases (ok x) = inl refl
result_cases (err e) = inr (e, refl)

module _ (engines : List Text) (now : ℕ) (mode : Option DispatchMode) (version : Option ℕ)
    (c : Changes) (user a : ℕ) (s : Db) (distinct : Nodup (item_ids s.items)) where
  -- A row that the user may see is the row with its id.
  its_row :
      may_update engines mode version c user a s ≡ true → (i : Item) × (row_of a s.items ≡ some i)
  its_row h = elim (Option-cases (find? (λ i. i.id == a && item_accessible s user i) s.items)) [
    | inl nobody ↦ absurd (ground (arith, nobody, find-sees user a s))
    | inr (i, there) ↦ (i, row_of-found a (item_accessible s user) s.items i distinct there)
  ]

  written-IsUpdated :
      (t : Db)
      → t ≡ commit_update now a c s
      → may_update engines mode version c user a s ≡ true
      → IsUpdated c a s.items t.items
  unfolding changed
  written-IsUpdated t e h = elim (Bool-cases (has_updates c)) [
    | inr nothing ↦
        let same = ap (λ u. u.items) e ∙ commit_update-unchanged now a c s nothing in
        record { others = rw same refl; its = inl (has_updates-no_changes c nothing, same) }
    | inl some_there ↦
        let rows = ap (λ u. u.items) e ∙ commit_update-items now a c s some_there in
        let (i, here) = its_row h in
        record {
          others = rw rows (others-change_at now a c s.items);
          its = inr (
            some-no_changes c some_there,
            i,
            change now c i,
            here,
            rw rows (row_of-change_at now a c s.items ∙ rw here refl),
            change-IsAsked now c i,
          );
        }
  ]

  -- Where the ids of the items are distinct, an update either raises and changes nothing, or
  -- returns. It returns exactly when the engine asked for is one of the known ones or none, the
  -- commit type is one of the seven or empty, and there is an item with this id that the user may
  -- see and that lets the update through: a plan run leaves a chosen engine as it is, the version
  -- given is the current one, an item with an open blocker does not become active, and the item is
  -- moved only if it is unlocked, and into no project or one that the user owns or is a member of. An update that returns
  -- leaves all other items as they are; unless nothing was asked for, its item has each value that
  -- was asked for, else the old one, and the next version.
  pub update_item-outcome :
      let done = update_item engines now mode version c user a s in
      ((may_update engines mode version c user a s ≡ false)
        × (e : AgentGtdError) × (done ≡ (err e, s)))
      ⊎ ((may_update engines mode version c user a s ≡ true)
          × (done.0 ≡ ok tt)
          × IsUpdated c a s.items done.1.items)
  update_item-outcome =
      let done = update_item engines now mode version c user a s in
      let q = update_item-returns engines now mode version c user a s in
      let asked = permitted-may_update engines mode version c user a s in
      elim (Bool-cases (permitted engines mode version c user a s)) [
        | inl allowed ↦
            let may = sym asked ∙ allowed in
            inr (may, q.0.1 allowed, written-IsUpdated done.1 (wrote s q.1 allowed) may)
        | inr refused ↦ elim (result_cases done.0) [
          | inl returned ↦ absurd (ground (arith, q.0.0 returned, refused))
          | inr (e, raised) ↦ inl (sym asked ∙ refused, e, λ i. (raised i, kept s _ q.1 refused i))
        ]
      ]

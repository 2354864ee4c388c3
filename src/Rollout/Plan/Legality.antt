-- ===== src/Rollout/Plan/Legality.antt =====
-- `validate_legality_contract` of rollout_service.py, and `get_unresolved_blockers` of
-- item_service.py, which it asks.
use agent_gtd.Prelude.{
  ℕ, Bool, true, false, not, ◌&&◌, Option, none, some, List, [], ◌∷◌, ◌++◌, map, ◌==◌,
  if◌then◌else◌, filter, any, all,
}
use agent_gtd.Prelude.Members.{mem}
use agent_gtd.Text.{is_empty}
use agent_gtd.Exceptions.{
  ok, err, legality_contract_error, ContractFailure, FailureEntry, not_accessible, not_ready,
  no_acceptance_criteria, no_files, no_build_engine, no_commit_type, external_blockers,
  project_mismatch,
}
use agent_gtd.Rollout.Types.{ItemStatus, is_closed_item}
use agent_gtd.Rollout.Db.{Db, Call, Item}
use agent_gtd.Rollout.Access.{get_item}

abbrev pub is_ready_item : ItemStatus → Bool
is_ready_item ItemStatus.ready = true
is_ready_item _ = false

-- The item with this id, if it is still open.
abbrev pub is_open : ℕ → List Item → Bool
is_open a items = any (λ i. i.id == a && not (is_closed_item i.status)) items

-- The ids that the join with `items` leaves.
unfoldable pub get_unresolved_blockers : Db → ℕ → List ℕ
get_unresolved_blockers s a =
    filter (λ b. is_open b s.items)
      (map (λ d. d.blocker_item_id) (filter (λ d. d.item_id == a) s.dependencies))

abbrev pub is_nothing : {A : Type 0} → List A → Bool
is_nothing [] = true
is_nothing (x ∷ xs) = false

abbrev pub failed_if : Bool → ContractFailure → List ContractFailure
failed_if true f = f ∷ []
failed_if false f = []

abbrev pub external : Db → List ℕ → ℕ → List ℕ
external s item_ids a = filter (λ b. not (mem b item_ids)) (get_unresolved_blockers s a)

-- Rules 2 to 5, in the order of the code.
unfoldable pub item_failures : Db → List ℕ → ℕ → Item → List ContractFailure
item_failures s item_ids a i =
    failed_if (not (is_ready_item i.status)) not_ready
    ++ failed_if (is_nothing i.acceptance_criteria) no_acceptance_criteria
    ++ failed_if (is_nothing i.files_to_modify) no_files
    ++ failed_if (is_empty i.build_engine) no_build_engine
    ++ failed_if (is_empty i.commit_type) no_commit_type
    ++ failed_if (not (is_nothing (external s item_ids a)))
        (external_blockers (external s item_ids a))

abbrev pub entry : ℕ → List ContractFailure → FailureEntry
entry a failures = record { item_id = a; failures = failures }

abbrev pub entry_if_any : ℕ → List ContractFailure → List FailureEntry
entry_if_any a [] = []
entry_if_any a (f ∷ fs) = entry a (f ∷ fs) ∷ []

-- The loop over the ids: the failures, and the items that were found.
unfoldable pub check_each : ℕ → Db → List ℕ → List ℕ → List FailureEntry × List Item
check_each user_id s item_ids [] = ([], [])
check_each user_id s item_ids (a ∷ rest) =
    let (failures, found) = check_each user_id s item_ids rest in
    elim (get_item user_id a s).0 [
      | err e ↦ (entry a (not_accessible ∷ []) ∷ failures, found)
      | ok i ↦ (entry_if_any a (item_failures s item_ids a i) ++ failures, i ∷ found)
    ]

abbrev pub same_project : Option ℕ → Option ℕ → Bool
same_project none none = true
same_project (some p) (some q) = p == q
same_project _ _ = false

-- `len(project_ids) > 1`
abbrev pub has_several : List Item → Bool
has_several [] = false
has_several (i ∷ rest) = any (λ j. not (same_project i.project_id j.project_id)) rest

abbrev pub is_mismatch : Option ℕ → ContractFailure → Bool
is_mismatch p (project_mismatch q) = same_project p q
is_mismatch p _ = false

-- `existing_failures.append` at the first entry of the item, or a new entry at the end.
unfoldable pub add_mismatch : ℕ → Option ℕ → List FailureEntry → List FailureEntry
add_mismatch a p [] = entry a (project_mismatch p ∷ []) ∷ []
add_mismatch a p (f ∷ fs) =
    let rest = add_mismatch a p fs in
    if f.item_id == a
    then entry a (
        if any (is_mismatch p) f.failures
        then f.failures
        else f.failures ++ project_mismatch p ∷ [])
      ∷ fs
    else f ∷ rest

unfoldable pub cross_project : List Item → List FailureEntry → List FailureEntry
cross_project [] failures = failures
cross_project (i ∷ rest) failures = cross_project rest (add_mismatch i.id i.project_id failures)

-- `if failures: raise`
abbrev pub raise_any : List FailureEntry → Call (Unit {0})
raise_any [] s = (ok tt, s)
raise_any (f ∷ fs) s = (err (legality_contract_error (f ∷ fs)), s)

unfoldable pub validate_legality_contract : ℕ → List ℕ → Call (Unit {0})
validate_legality_contract user_id item_ids s =
    let (failures, found) = check_each user_id s item_ids item_ids in
    let all_failures = if has_several found then cross_project found failures else failures in
    raise_any all_failures s

-- What the contract asks of one item.
abbrev pub fulfils : Db → List ℕ → ℕ → Item → Bool
fulfils s item_ids a i =
    is_ready_item i.status
    && not (is_nothing i.acceptance_criteria)
    && not (is_nothing i.files_to_modify)
    && not (is_empty i.build_engine)
    && not (is_empty i.commit_type)
    && all (λ b. mem b item_ids) (get_unresolved_blockers s a)

abbrev pub legal : ℕ → Db → List ℕ → List ℕ → Bool
legal user_id s item_ids [] = true
legal user_id s item_ids (a ∷ rest) =
    let others = legal user_id s item_ids rest in
    elim (get_item user_id a s).0 [ err e ↦ false | ok i ↦ fulfils s item_ids a i && others ]

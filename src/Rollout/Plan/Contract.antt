-- ===== src/Rollout/Plan/Contract.antt =====
-- When the legality contract lets a rollout be planned.
use agent_gtd.Prelude.{
  ℕ, ◌≡◌, ◌↔◌, refl, arith, Bool, true, false, not, ◌&&◌, Option, List, [], ◌∷◌, ◌++◌,
  if◌then◌else◌, filter, all,
}
use agent_gtd.Prelude.Members.{mem}
use agent_gtd.Exceptions.{Result, ok, err, ContractFailure, FailureEntry}
use agent_gtd.Rollout.Db.{Db, Item}
use agent_gtd.Rollout.Access.{get_item}
use agent_gtd.Rollout.Plan.Legality.{
  is_nothing, item_failures, get_unresolved_blockers, check_each, cross_project, add_mismatch,
  has_several, fulfils, legal, entry_if_any, validate_legality_contract, raise_any,
}

is_nothing-filter :
    (p : ℕ → Bool) (xs : List ℕ) → is_nothing (filter (λ x. not (p x)) xs) ≡ all p xs
is_nothing-filter p [] = refl
is_nothing-filter p (x ∷ xs) = ground (arith, is_nothing-filter p xs)

item_failures-nothing :
    (s : Db) (ids : List ℕ) (a : ℕ) (i : Item)
    → is_nothing (item_failures s ids a i) ≡ fulfils s ids a i
unfolding item_failures
item_failures-nothing s ids a i =
    ground (arith, is_nothing-filter (λ b. mem b ids) (get_unresolved_blockers s a))

is_nothing-entry :
    (a : ℕ) (fs : List ContractFailure) (es : List FailureEntry)
    → is_nothing (entry_if_any a fs ++ es) ≡ (is_nothing fs && is_nothing es)
is_nothing-entry a [] es = refl
is_nothing-entry a (f ∷ fs) es = refl

check_each-legal :
    (user : ℕ) (s : Db) (ids rest : List ℕ)
    → is_nothing (check_each user s ids rest).0 ≡ legal user s ids rest
unfolding check_each
check_each-legal user s ids [] = refl
check_each-legal user s ids (a ∷ rest) =
    go (get_item user a s).0 refl (check_each-legal user s ids rest)
  where
    go :
        (r : Result Item)
        → (get_item user a s).0 ≡ r
        → is_nothing (check_each user s ids rest).0 ≡ legal user s ids rest
        → is_nothing (check_each user s ids (a ∷ rest)).0 ≡ legal user s ids (a ∷ rest)
    go (err e) k ih = ground arith
    go (ok i) k ih = ground (
      arith,
      ih,
      item_failures-nothing s ids a i,
      is_nothing-entry a (item_failures s ids a i) (check_each user s ids rest).0,
    )

add_mismatch-something :
    (a : ℕ) (p : Option ℕ) (fs : List FailureEntry) → is_nothing (add_mismatch a p fs) ≡ false
unfolding add_mismatch
add_mismatch-something a p [] = refl
add_mismatch-something a p (f ∷ fs) = ground arith

cross_project-something :
    (found : List Item) (fs : List FailureEntry)
    → is_nothing fs ≡ false
    → is_nothing (cross_project found fs) ≡ false
unfolding cross_project
cross_project-something [] fs h = h
cross_project-something (i ∷ found) fs h =
    cross_project-something found (add_mismatch i.id i.project_id fs)
      (add_mismatch-something i.id i.project_id fs)

several-something :
    (found : List Item) (fs : List FailureEntry)
    → has_several found ≡ true
    → is_nothing (cross_project found fs) ≡ false
unfolding cross_project
several-something [] fs h = ground arith
several-something (i ∷ found) fs h =
    cross_project-something found (add_mismatch i.id i.project_id fs)
      (add_mismatch-something i.id i.project_id fs)

-- The items of a wave that the user can see, in the order of the ids.
abbrev pub found_items : ℕ → Db → List ℕ → List Item
found_items user s [] = []
found_items user s (a ∷ rest) =
    let others = found_items user s rest in
    elim (get_item user a s).0 [ err e ↦ others | ok i ↦ i ∷ others ]

check_each-found :
    (user : ℕ) (s : Db) (ids rest : List ℕ)
    → (check_each user s ids rest).1 ≡ found_items user s rest
unfolding check_each
check_each-found user s ids [] = refl
check_each-found user s ids (a ∷ rest) = ground (arith, check_each-found user s ids rest)

raise_any-nothing :
    (fs : List FailureEntry) (s : Db)
    → (((raise_any fs s).0 ≡ ok tt) ↔ (is_nothing fs ≡ true)) × ((raise_any fs s).1 ≡ s)
raise_any-nothing [] s = ((λ h. refl, λ h. refl), refl)
raise_any-nothing (f ∷ fs) s = ((λ h. cc, λ h. cc), refl)

-- The contract is accepted exactly when the user can see every item, each is ready, groomed and
-- free of open blockers outside the wave, and no two are of different projects; and the check
-- writes nothing.
pub validate_legality_contract_iff :
    (user : ℕ) (ids : List ℕ) (s : Db)
    → (((validate_legality_contract user ids s).0 ≡ ok tt)
        ↔ ((legal user s ids ids ≡ true) × (has_several (found_items user s ids) ≡ false)))
      × ((validate_legality_contract user ids s).1 ≡ s)
unfolding validate_legality_contract
validate_legality_contract_iff user ids s =
    let fs = (check_each user s ids ids).0 in
    let found = (check_each user s ids ids).1 in
    let q = raise_any-nothing (if has_several found then cross_project found fs else fs) s in
    (
      (
        λ h. ground (
          arith,
          q.0.0 h,
          check_each-legal user s ids ids,
          check_each-found user s ids ids,
          several-something found fs,
        ),
        λ (h, k).
            q.0.1
              (ground (arith, check_each-legal user s ids ids, check_each-found user s ids ids)),
      ),
      q.1,
    )

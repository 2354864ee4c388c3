-- ===== src/Blockers/Calls.antt =====
-- `add_blocker` and `remove_blocker` on the graph of the blockers.
use agent_gtd.Prelude.{
  ℕ, ◌≡◌, ◌≢◌, ◌⊎◌, ◌↔◌, inl, inr, refl, arith, Bool, true, false, not, ◌&&◌, List, [], ◌∷◌, ◌==◌,
  Bool-cases,
}
use agent_gtd.Exceptions.{ok, err}
use agent_gtd.Graph.{Reaches, Acyclic}
use agent_gtd.Rollout.Db.{Db, bind-after}
use agent_gtd.Rollout.Access.{get_item, get_item-reads}
use agent_gtd.Rollout.Plan.Legality.{same_project}
use agent_gtd.Blockers.{
  would_create_cycle, found_cycle, has_dependency, insert_dependency, add_blocker, remove_blocker,
}
use agent_gtd.Blockers.Graph.{
  edges_of, has_edge-removed, Reaches-mono, Acyclic-added, found_cycle_iff,
}

pub record IsAcyclic (s : Db) : Type 0 where
  pub acyclic : Acyclic (edges_of s.dependencies)

insert_dependency-IsAcyclic :
    (i k : ℕ) (s : Db) → i ≢ k → IsAcyclic s → IsAcyclic (insert_dependency i k s).1
unfolding insert_dependency
insert_dependency-IsAcyclic i k s ne a = elim (Bool-cases (has_dependency i k s.dependencies)) [
  | inl old ↦ rw old a
  | inr new ↦ elim (Bool-cases (found_cycle (would_create_cycle s.dependencies i k))) [
    | inl cycle ↦ rw (new, cycle) a
    | inr free ↦
        let more =
          Acyclic-added s.dependencies i k a.acyclic
            (λ p. let yes = (found_cycle_iff s.dependencies i k).1 p in cc) ne in
        rw (new, free) (record { acyclic = more })
  ]
]

-- What must hold before the dependencies are looked at.
abbrev pub may_block : ℕ → ℕ → ℕ → Db → Bool
may_block user i k s = not (i == k) && elim (get_item user i s).0 [
  | err e ↦ false
  | ok a ↦ elim (get_item user k s).0 [
    | err e ↦ false
    | ok b ↦ same_project a.project_id b.project_id
  ]
]

add_blocker-inserts :
    (user i k : ℕ) (s : Db)
    → may_block user i k s ≡ true
    → add_blocker user i k s ≡ insert_dependency i k s
unfolding add_blocker
add_blocker-inserts user i k s h = ground (arith, get_item-reads user i s, get_item-reads user k s)

add_blocker-refuses :
    (user i k : ℕ) (s : Db)
    → may_block user i k s ≡ false
    → ((add_blocker user i k s).0 ≢ ok tt) × ((add_blocker user i k s).1 ≡ s)
unfolding add_blocker
add_blocker-refuses user i k s h = ground (arith, get_item-reads user i s, get_item-reads user k s)

may_block-differ : (user i k : ℕ) (s : Db) → may_block user i k s ≡ true → i ≢ k
may_block-differ user i k s h = ground arith

add_blocker-IsAcyclic : (user i k : ℕ) (s : Db) → IsAcyclic s → IsAcyclic (add_blocker user i k s).1
add_blocker-IsAcyclic user i k s a = elim (Bool-cases (may_block user i k s)) [
  | inl may ↦
      rw (add_blocker-inserts user i k s may)
        (insert_dependency-IsAcyclic i k s (may_block-differ user i k s may) a)
  | inr not_so ↦ rw ((add_blocker-refuses user i k s not_so).1) a
]

remove_blocker-IsAcyclic :
    (user i k : ℕ) (s : Db) → IsAcyclic s → IsAcyclic (remove_blocker user i k s).1
unfolding remove_blocker
remove_blocker-IsAcyclic user i k s a =
    bind-after IsAcyclic (get_item user i) _ s (rw (get_item-reads user i s) a) (λ row e. record {
      acyclic = λ v p. a.acyclic v (
          Reaches-mono _ _
            (has_edge-removed s.dependencies (λ r. not (r.item_id == i && r.blocker_item_id == k)))
            (rw (get_item-reads user i s) at p));
    })

insert_dependency-returns :
    (i k : ℕ) (s : Db)
    → ((insert_dependency i k s).0 ≡ ok tt)
      ↔ ((has_dependency i k s.dependencies ≡ true) ⊎ ¬ (Reaches (edges_of s.dependencies) i k))
unfolding insert_dependency
insert_dependency-returns i k s = elim (Bool-cases (has_dependency i k s.dependencies)) [
  | inl old ↦ rw old (λ h. inl refl, λ h. refl)
  | inr new ↦
      let q = found_cycle_iff s.dependencies i k in
      elim (Bool-cases (found_cycle (would_create_cycle s.dependencies i k))) [
        | inl cycle ↦
            rw (new, cycle)
              (λ h. cc, λ h. elim h [ inl e ↦ cc | inr apart ↦ absurd (apart (q.0 cycle)) ])
        | inr free ↦ rw (new, free) (λ h. inr (λ p. let yes = q.1 p in cc), λ h. refl)
      ]
]

-- A call of `add_blocker` returns exactly when the two items differ, the user may see both, they
-- are in the same project (or both in the inbox), and the blocker is recorded already or the item
-- does not come before it.
pub add_blocker-returns :
    (user i k : ℕ) (s : Db)
    → ((add_blocker user i k s).0 ≡ ok tt) ↔ (
        (may_block user i k s ≡ true)
        × ((has_dependency i k s.dependencies ≡ true) ⊎ ¬ (Reaches (edges_of s.dependencies) i k)))
add_blocker-returns user i k s = elim (Bool-cases (may_block user i k s)) [
  | inl may ↦
      let q = insert_dependency-returns i k s in
      rw (add_blocker-inserts user i k s may) (λ h. (may, q.0 h), λ h. q.1 h.1)
  | inr not_so ↦ (λ h. absurd ((add_blocker-refuses user i k s not_so).0 h), λ h. cc)
]

-- A request that changes the recorded blockers: the user, the item and the blocker.
pub data Change : Type 0 where
  add : ℕ → ℕ → ℕ → Change
  remove : ℕ → ℕ → ℕ → Change

unfoldable pub apply_changes : List Change → Db → Db
apply_changes [] s = s
apply_changes (add user i k ∷ cs) s = apply_changes cs (add_blocker user i k s).1
apply_changes (remove user i k ∷ cs) s = apply_changes cs (remove_blocker user i k s).1

-- Where no item blocks itself, through however many others, none does after any sequence of calls
-- of `add_blocker` and `remove_blocker`, by any users and with any outcomes.
pub apply_changes-IsAcyclic :
    (cs : List Change) (s : Db) → IsAcyclic s → IsAcyclic (apply_changes cs s)
unfolding apply_changes
apply_changes-IsAcyclic [] s a = a
apply_changes-IsAcyclic (add user i k ∷ cs) s a =
    apply_changes-IsAcyclic cs (add_blocker user i k s).1 (add_blocker-IsAcyclic user i k s a)
apply_changes-IsAcyclic (remove user i k ∷ cs) s a =
    apply_changes-IsAcyclic cs (remove_blocker user i k s).1 (remove_blocker-IsAcyclic user i k s a)

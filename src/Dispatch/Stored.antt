-- ===== src/Dispatch/Stored.antt =====
-- A run that is stored is the one active run of its item.
use agent_gtd.Prelude.{
  ◌≡◌, ◌∙◌, ℕ, sym, arith, Bool, true, false, Option, none, some, List, [], ◌∷◌, ◌++◌, filter, any,
  find?, ◌==◌, ==_refl, if◌then◌else◌,
}
use agent_gtd.Exceptions.{Result, ok, err, integrity_error}
use agent_gtd.Rollout.Db.{Db, Run, Call, fetch, refuse_if, return}
use agent_gtd.Rollout.Events.{append_rollout_event}
use agent_gtd.Rollout.Lifecycle.{link_build_run}
use agent_gtd.Rollout.Keeps.{Keeps-if, Keeps-return}
use agent_gtd.Rollout.Ensures.{
  Ensures, Ensures-bind, Ensures-execute, Ensures-fetch, Ensures-refuse_if, Ensures-return,
  Ensures-raise, Ensures-Keeps,
}
use agent_gtd.Dispatch.{insert_run, on_error, settle, set_up_run, found_run, is_active_on}
use agent_gtd.Dispatch.Silent.{OnRuns}
use agent_gtd.Dispatch.Stale.{NoActive}

filter-snoc :
    {A : Type 0} (p : A → Bool) (xs : List A) (a : A)
    → filter p xs ≡ []
    → p a ≡ true
    → filter p (xs ++ a ∷ []) ≡ a ∷ []
filter-snoc p [] a h k = ground arith
filter-snoc p (x ∷ xs) a h k = ground (arith, filter-snoc p xs a)

find-snoc :
    {A : Type 0} (p : A → Bool) (xs : List A) (a : A)
    → any p xs ≡ false
    → p a ≡ true
    → find? p (xs ++ a ∷ []) ≡ some a
find-snoc p [] a h k = ground arith
find-snoc p (x ∷ xs) a h k = ground (arith, find-snoc p xs a)

-- The run is the one active run of the item, and found by its id.
abbrev pub Alone : ℕ → Run → List Run → Type 0
Alone item_id n runs =
    (filter (is_active_on item_id) runs ≡ n ∷ []) × (find? (λ r. r.id == n.id) runs ≡ some n)

settle-ensures :
    {A : Type 0} (Q : A → Db → Type 0) (cleanup : Db → Db) (p : Result A × Db)
    → ((a : A) → p.0 ≡ ok a → Q a p.1)
    → (a : A) → (settle cleanup p).0 ≡ ok a
    → Q a (settle cleanup p).1
settle-ensures Q cleanup (ok a, s) k = k
settle-ensures Q cleanup (err e, s) k = λ a h. ground arith

pub Ensures-on_error :
    {A : Type 0} {P : Db → Type 0} (Q : A → Db → Type 0) (m : Call A) (cleanup : Db → Db)
    → Ensures P m Q
    → Ensures P (on_error m cleanup) Q
Ensures-on_error Q m cleanup k = record {
  after = λ s h. settle-ensures Q cleanup (m s) (k.after s h);
}

module _ (item_id : ℕ) (n : Run) (on : is_active_on item_id n ≡ true) where
  pub insert_run-Ensures :
      (now : ℕ)
      → Ensures (OnRuns (NoActive now item_id)) (insert_run n) (λ u. OnRuns (Alone item_id n))
  unfolding insert_run
  insert_run-Ensures now =
      let taken_in : Db → Bool = λ s. any (λ q. q.id == n.id) s.runs in
      let before = OnRuns (NoActive now item_id) in
      Ensures-bind (λ t s. (t ≡ taken_in s) × before s) _ (fetch taken_in) _
        (Ensures-fetch taken_in)
        λ t.
          Ensures-bind (λ u s. (t ≡ false) × ((t ≡ taken_in s) × before s)) _
            (refuse_if t integrity_error) _ (Ensures-refuse_if t integrity_error)
            λ u.
              Ensures-execute (λ s. record s { runs = s.runs ++ n ∷ [] }) _
                λ s (free, (same, nothing)). (
                  filter-snoc (is_active_on item_id) s.runs n nothing on,
                  find-snoc (λ r. r.id == n.id) s.runs n (sym same ∙ free) (==_refl n.id),
                )

  found_run-Ensures :
      (o : Option Run)
      → Ensures
          (λ s. (o ≡ find? (λ r. r.id == n.id) s.runs) × OnRuns (Alone item_id n) s)
          (found_run n.id o)
          (λ a s. (a ≡ n) × OnRuns (Alone item_id n) s)
  found_run-Ensures none = Ensures-raise _ _
  found_run-Ensures (some r) = Ensures-return r _ λ s (same, alone). (cc, alone)

  pub set_up_run-Ensures :
      (links : Bool)
      → Ensures
          (OnRuns (Alone item_id n))
          (set_up_run n.id item_id links)
          (λ a s. (a ≡ n) × OnRuns (Alone item_id n) s)
  unfolding set_up_run link_build_run append_rollout_event
  set_up_run-Ensures links =
      let look : Db → Option Run = λ s. find? (λ r. r.id == n.id) s.runs in
      Ensures-bind (λ u. OnRuns (Alone item_id n)) _
        (if links then link_build_run n.id item_id else return tt) _
        (Ensures-Keeps _ (
          Keeps-if links (link_build_run n.id item_id) (return tt) record { at = λ s h. h }
            (Keeps-return tt)))
        λ u.
          Ensures-bind (λ o s. (o ≡ look s) × OnRuns (Alone item_id n) s) _ (fetch look) _
            (Ensures-fetch look) found_run-Ensures

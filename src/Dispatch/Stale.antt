-- ===== src/Dispatch/Stale.antt =====
-- The runs of an item once those that went stale are failed.
use agent_gtd.Prelude.{
  ◌≡◌, ◌∙◌, ℕ, refl, ap, arith, Bool, true, false, not, ◌&&◌, ◌||◌, List, [], ◌∷◌, map, filter, all,
  ◌==◌, Bool-cases, inl, inr,
}
use agent_gtd.Prelude.Members.{mem}
use agent_gtd.Exceptions.{run_active}
use agent_gtd.Rollout.Types.{is_pending_run}
use agent_gtd.Rollout.Db.{Run, execute, fetch, refuse_if, ◌>>◌}
use agent_gtd.Rollout.Ensures.{
  Ensures, Ensures-bind, Ensures-execute, Ensures-fetch, Ensures-refuse_if, Ensures-return,
  Ensures-weaken,
}
use agent_gtd.Dispatch.{
  fail_stale, is_unsent, is_active_on, is_stale_pending_run, is_older, reap_stale, set_runs,
  has_failed, check_active_runs, refuse_active,
}

all-map :
    {A : Type 0} (p q : A → Bool) (f : A → A) (step : (x : A) → q x ≡ true → p (f x) ≡ true)
    (xs : List A)
    → all q xs ≡ true
    → all p (map f xs) ≡ true
all-map p q f step [] h = refl
all-map p q f step (x ∷ xs) h = ground (arith, step x, all-map p q f step xs)

none-filter :
    {A : Type 0} (p : A → Bool) (xs : List A) → filter (λ x. not (p x)) xs ≡ [] → all p xs ≡ true
none-filter p [] h = refl
none-filter p (x ∷ xs) h = ground (arith, none-filter p xs)

all_weaken :
    {A : Type 0} (p q : A → Bool) (step : (x : A) → p x ≡ true → q x ≡ true) (xs : List A)
    → all p xs ≡ true
    → all q xs ≡ true
all_weaken p q step [] h = refl
all_weaken p q step (x ∷ xs) h = ground (arith, step x, all_weaken p q step xs)

module _ {A : Type 0} (active ready : A → Bool) (id : A → ℕ) where
  -- An active row is ready, and its id is one of these.
  abbrev pub covered : List ℕ → A → Bool
  covered ids x = not (active x) || (ready x && mem (id x) ids)

  covered-cons : (a : ℕ) (ids : List ℕ) (x : A) → covered ids x ≡ true → covered (a ∷ ids) x ≡ true
  covered-cons a ids x h = ground arith

  covered-filter :
      (xs : List A)
      → all ready (filter active xs) ≡ true
      → all (covered (map id (filter active xs))) xs ≡ true
  covered-filter [] h = refl
  covered-filter (x ∷ xs) h = elim (Bool-cases (active x)) [
    | inl on ↦
        let rest = covered-filter xs (ground arith) in
        let wider =
          all_weaken (covered (map id (filter active xs)))
            (covered (id x ∷ map id (filter active xs)))
            (covered-cons (id x) (map id (filter active xs))) xs rest in
        ground arith
    | inr off ↦ ground (arith, covered-filter xs)
  ]

  covered-nil : (xs : List A) → all (covered []) xs ≡ true → filter active xs ≡ []
  covered-nil [] h = refl
  covered-nil (x ∷ xs) h = ground (arith, covered-nil xs)

abbrev is_open_run : Run → Bool
is_open_run r = is_pending_run r.status && is_unsent r

failed_covered : (b d : Bool) → (not (b && false) || d) ≡ true
failed_covered b d = ground arith

kept_covered :
    (a o e m : Bool)
    → (not a || (o && (e || m))) ≡ true
    → (e && o) ≡ false
    → (not a || (o && m)) ≡ true
kept_covered a o e m h k = ground arith

module _ (now item_id : ℕ) where
  fail_stale-covered :
      (x : ℕ) (ids : List ℕ) (q : Run)
      → covered (is_active_on item_id) is_open_run (λ r. r.id) (x ∷ ids) q ≡ true
      → covered (is_active_on item_id) is_open_run (λ r. r.id) ids (fail_stale now x q) ≡ true
  fail_stale-covered x ids q h = elim (Bool-cases (q.id == x && is_open_run q)) [
    | inl c ↦ rw (c, fail_stale) (failed_covered _ _)
    | inr c ↦ rw (c, fail_stale) (kept_covered _ _ (q.id == x) _ h c)
  ]

  abbrev pub reaped : List Run → List Run → List Run
  reaped [] runs = runs
  reaped (x ∷ xs) runs = reaped xs (map (fail_stale now x.id) runs)

  reaped-nil :
      (xs runs : List Run)
      → all (covered (is_active_on item_id) is_open_run (λ r. r.id) (map (λ r. r.id) xs)) runs
        ≡ true
      → filter (is_active_on item_id) (reaped xs runs) ≡ []
  reaped-nil [] runs h = covered-nil (is_active_on item_id) is_open_run (λ r. r.id) runs h
  reaped-nil (x ∷ xs) runs h =
      reaped-nil xs (map (fail_stale now x.id) runs)
        (all-map _ _ (fail_stale now x.id) (fail_stale-covered x.id (map (λ r. r.id) xs)) runs h)

  stale-is_open : (r : Run) → is_stale_pending_run now r ≡ true → is_open_run r ≡ true
  unfolding is_stale_pending_run
  stale-is_open r h = and_left (is_pending_run r.status) (is_unsent r) (is_older now r.created_at) h
    where
      and_left : (a b c : Bool) → (a && b && c) ≡ true → (a && b) ≡ true
      and_left a b c h = ground arith

  reap_stale-Ensures :
      (xs runs : List Run)
      → Ensures (λ s. s.runs ≡ runs) (reap_stale now item_id xs) (λ u s. s.runs ≡ reaped xs runs)
  unfolding reap_stale
  reap_stale-Ensures [] runs = Ensures-return tt _ λ s h. h
  reap_stale-Ensures (x ∷ xs) runs =
      let f = fail_stale now x.id in
      Ensures-bind (λ u s. s.runs ≡ map f runs) _ (execute (set_runs f)) _
        (Ensures-execute (set_runs f) (λ s. s.runs ≡ map f runs) λ s h. ap (map f) h)
        λ u.
          Ensures-bind (λ d s. s.runs ≡ map f runs) _ (fetch (has_failed x.id)) _
            (Ensures-weaken _ _ _ (Ensures-fetch (has_failed x.id)) λ d s h. h.1)
            λ done.
              Ensures-bind (λ d s. s.runs ≡ map f runs) _
                (refuse_if (not done) (run_active item_id x.id)) _
                (Ensures-weaken _ _ _ (Ensures-refuse_if (not done) (run_active item_id x.id))
                  λ d s h. h.1)
                λ v. reap_stale-Ensures xs (map f runs)

  abbrev pub NoActive : List Run → Type 0
  NoActive runs = filter (is_active_on item_id) runs ≡ []

  abbrev active_runs : List Run → List Run
  active_runs runs = filter (is_active_on item_id) runs

  all-covered :
      (runs : List Run)
      → filter (λ r. not (is_stale_pending_run now r)) (active_runs runs) ≡ []
      → all
          (covered
            (is_active_on item_id)
            is_open_run
            (λ r. r.id)
            (map (λ r. r.id) (active_runs runs)))
          runs
        ≡ true
  all-covered runs k =
      covered-filter (is_active_on item_id) is_open_run (λ r. r.id) runs
        (all_weaken (is_stale_pending_run now) is_open_run stale-is_open (active_runs runs)
          (none-filter (is_stale_pending_run now) (active_runs runs) k))

  check_from :
      (runs refusing : List Run)
      → filter (λ r. not (is_stale_pending_run now r)) (active_runs runs) ≡ refusing
      → Ensures
          (λ s. s.runs ≡ runs)
          (refuse_active item_id refusing >> reap_stale now item_id (active_runs runs))
          (λ u s. NoActive s.runs)
  check_from runs (r ∷ refusing) k = record { after = λ s h u e. ground arith }
  check_from runs [] k = record {
    after = λ s h u e.
        ap active_runs ((reap_stale-Ensures (active_runs runs) runs).after s h u e)
        ∙ reaped-nil (active_runs runs) runs (all-covered runs k);
  }

  -- If the check returns, no run of the item is active.
  pub check_active_runs-Ensures :
      Ensures (λ s. Unit) (check_active_runs now item_id) (λ u s. NoActive s.runs)
  unfolding check_active_runs
  check_active_runs-Ensures = record {
    after = λ s h u e. (check_from s.runs _ refl).after s refl u e;
  }

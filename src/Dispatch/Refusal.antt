-- ===== src/Dispatch/Refusal.antt =====
-- When a cancellation is refused, and what one that is not has done.
use agent_gtd.Prelude.{
  ℕ, ◌≡◌, ◌∙◌, refl, ap, arith, Bool, true, false, not, ◌&&◌, ◌||◌, Option, none, some, List, [],
  ◌∷◌, ◌==◌, if◌then◌else◌, find?, find-map, map, Bool-cases, inl, inr, ◌⊎◌, ==→≡, ==_refl,
}
use agent_gtd.Text.{text}
use agent_gtd.Exceptions.{Result, ok, err, validation_error, owned_by_rollout}
use agent_gtd.Rollout.Types.{RolloutStatus, LocalRunStatus, DispatchMode, is_active_run, is_manage}
use agent_gtd.Rollout.Db.{Db, Run, continue}
use agent_gtd.Dispatch.{set_runs, found_run}
use agent_gtd.Dispatch.Cancel.{
  get_run, cancel_run, cancel_found, cancel_and_forward, cancel_row, is_live,
}

find-both :
    {A : Type 0} (p q : A → Bool) (a : A) (xs : List A)
    → find? p xs ≡ some a
    → q a ≡ true
    → find? (λ x. p x && q x) xs ≡ some a
find-both p q a [] h k = ground arith
find-both p q a (x ∷ xs) h k = ground (arith, find-both p q a xs)

cancel_row-id :
    (now : ℕ) (force : Bool) (run_id : ℕ) (r : Run) → (cancel_row now force run_id r).id ≡ r.id
cancel_row-id now force run_id r = elim (Bool-cases (r.id == run_id)) [
  | inl its ↦ rw (its, cancel_row) refl
  | inr other ↦ rw (other, cancel_row) refl
]

-- `pending`, `cloning`, `running`
abbrev pub is_unended : LocalRunStatus → Bool
is_unended LocalRunStatus.pending = true
is_unended LocalRunStatus.cloning = true
is_unended LocalRunStatus.running = true
is_unended _ = false

abbrev pub drives : DispatchMode → Bool
drives DispatchMode.manage = true
drives _ = false

abbrev pub is_ongoing : Option RolloutStatus → Bool
is_ongoing (some RolloutStatus.pending) = true
is_ongoing (some RolloutStatus.planning) = true
is_ongoing (some RolloutStatus.running) = true
is_ongoing _ = false

-- The rollout with this id, be it the one that the database is seen from or another, is ongoing.
abbrev pub is_under_way : (ℕ → Option RolloutStatus) → Option ℕ → Db → Bool
is_under_way others none s = false
is_under_way others (some n) s =
    is_ongoing (if n == s.wave.id then some (s.wave.status) else others n)

abbrev pub cancelled_now : ℕ → Bool → Run → Run
cancelled_now now force r = record r {
  status = LocalRunStatus.cancelled;
  finished_at = some now;
  error_msg = if force then text "forced by operator" else r.error_msg;
}

-- The run is cancelled, in the answer and in the table, and all else is as it was.
pub record IsCancelled (now : ℕ) (force : Bool) (r : Run) (s : Db) (done : Result Run × Db)
    : Type 0 where
  pub answer : done.0 ≡ ok (cancelled_now now force r)
  pub stored :
      (n : ℕ)
      → find? (λ q. q.id == n) done.1.runs
        ≡ (if n == r.id then some (cancelled_now now force r) else find? (λ q. q.id == n) s.runs)
  pub only_runs : done.1 ≡ record s { runs = done.1.runs }

find-map_other :
    {A : Type 0} (p : A → Bool) (f : A → A)
    → ((x : A) → p (f x) ≡ p x)
    → ((x : A) → p x ≡ true → f x ≡ x)
    → (xs : List A) → find? p (map f xs) ≡ find? p xs
find-map_other p f same still [] = refl
find-map_other p f same still (x ∷ xs) =
    ground (arith, same x, still x, find-map_other p f same still xs)

cancel_row-cancelled :
    (now : ℕ) (force : Bool) (r : Run) → cancel_row now force r.id r ≡ cancelled_now now force r
cancel_row-cancelled now force r = rw (==_refl r.id, cancel_row) refl

cancel_row-other :
    (now : ℕ) (force : Bool) (a n : ℕ)
    → (n == a) ≡ false
    → (q : Run) → (q.id == n) ≡ true
    → cancel_row now force a q ≡ q
cancel_row-other now force a n other q its =
    let away : (q.id == a) ≡ false = ground (arith, its, other) in rw (away, cancel_row) refl

cancel_row-find :
    (now : ℕ) (force : Bool) (r : Run) (n : ℕ) (runs : List Run)
    → find? (λ q. q.id == r.id) runs ≡ some r
    → find? (λ q. q.id == n) (map (cancel_row now force r.id) runs)
      ≡ (if n == r.id then some (cancelled_now now force r) else find? (λ q. q.id == n) runs)
cancel_row-find now force r n runs found = elim (Bool-cases (n == r.id)) [
  | inl its ↦
      rw (its, ==→≡ n r.id its)
        (find-map (λ q. q.id == r.id) (cancel_row now force r.id)
            (λ q. ap (λ m. m == r.id) (cancel_row-id now force r.id q)) r runs found
          ∙ ap some (cancel_row-cancelled now force r))
  | inr other ↦ rw other (
      find-map_other (λ q. q.id == n) (cancel_row now force r.id)
        (λ q. ap (λ m. m == n) (cancel_row-id now force r.id q))
        (cancel_row-other now force r.id n other) runs)
]

is_active_run-is_unended : (status : LocalRunStatus) → is_active_run status ≡ is_unended status
is_active_run-is_unended status = ground arith

is_manage-drives : (mode : DispatchMode) → is_manage mode ≡ drives mode
is_manage-drives mode = ground arith

is_live-is_under_way :
    (others : ℕ → Option RolloutStatus) (rollout_id : Option ℕ) (s : Db)
    → is_live others rollout_id s ≡ is_under_way others rollout_id s
is_live-is_under_way others none s = refl
is_live-is_under_way others (some n) s = ground arith

-- The three branches of two nested tests.
one_of_three :
    {A : Type 0} (active own : Bool) (done x y z : A)
    → done ≡ (if active && own then x else if active then y else z)
    → (((active && own) ≡ true) × (done ≡ x))
      ⊎ ((active ≡ false) × (done ≡ z))
      ⊎ (((active && own) ≡ false) × (active ≡ true) × (done ≡ y))
one_of_three true true done x y z e = inl (refl, e)
one_of_three true false done x y z e = inr (inr (refl, refl, e))
one_of_three false own done x y z e = inr (inl (refl, e))

module _ (others : ℕ → Option RolloutStatus) (now user : ℕ) (force : Bool) (s : Db) (r : Run)
    (found : find? (λ q. q.id == r.id) s.runs ≡ some r) where
  get_run-found : (r.user_id == user) ≡ true → get_run user r.id s ≡ (ok r, s)
  unfolding get_run
  get_run-found mine =
      ap (λ o. found_run r.id o s)
        (find-both (λ q. q.id == r.id) (λ q. q.user_id == user) r s.runs found mine)

  cancel_and_forward-done :
      cancel_and_forward now force r s
      ≡ (ok (cancel_row now force r.id r), set_runs (cancel_row now force r.id) s)
  unfolding cancel_and_forward
  cancel_and_forward-done =
      let f = cancel_row now force r.id in
      ap (λ o. found_run r.id o (set_runs f s))
        (find-map (λ q. q.id == r.id) f (λ q. ap (λ n. n == r.id) (cancel_row-id now force r.id q))
          r s.runs found)

  cancel_found-outcome : cancel_found others now force r s ≡ (
      if is_active_run r.status
        && (not force && (is_manage r.mode || is_live others r.rollout_id s))
      then (err (validation_error owned_by_rollout), s)
      else if is_active_run r.status
      then (ok (cancel_row now force r.id r), set_runs (cancel_row now force r.id) s)
      else (ok r, s))
  unfolding cancel_found
  cancel_found-outcome = elim (Bool-cases (is_active_run r.status)) [
    | inr ended ↦ rw (ended, cancel_found) refl
    | inl active ↦
        elim (Bool-cases (not force && (is_manage r.mode || is_live others r.rollout_id s))) [
          | inl owned ↦ rw (active, owned, cancel_found) refl
          | inr free ↦ rw (active, free, cancel_found) cancel_and_forward-done
        ]
  ]

  cancel_run-found :
      (r.user_id == user) ≡ true
      → cancel_run others now user r.id force s ≡ cancel_found others now force r s
  unfolding cancel_run
  cancel_run-found mine =
      ap (λ a. continue a.0 (cancel_found others now force) a.1) (get_run-found mine)

  cancel_row-IsCancelled :
      IsCancelled now force r s
        (ok (cancel_row now force r.id r), set_runs (cancel_row now force r.id) s)
  cancel_row-IsCancelled = record {
    answer = ap ok (cancel_row-cancelled now force r);
    stored = λ n. cancel_row-find now force r n s.runs found;
    only_runs = refl;
  }

  -- Cancelling a run of the user that the table holds under its id does one of three things. It is
  -- refused, with nothing written, where the run is pending, cloning or running, nothing is forced,
  -- and the run drives a rollout or is of one that is pending, planning or running. It returns the
  -- run as it was, with nothing written, where the run had ended. In all other cases it returns the
  -- run cancelled, ended now and, if forced, with the message that it was; the table then holds
  -- this run under its id and any other run as before, and nothing but the runs has changed.
  pub cancel_run-outcome :
      (r.user_id == user) ≡ true
      → let refused =
          is_unended r.status
          && (not force && (drives r.mode || is_under_way others r.rollout_id s)) in
        let done = cancel_run others now user r.id force s in
        ((refused ≡ true) × (done ≡ (err (validation_error owned_by_rollout), s)))
        ⊎ ((is_unended r.status ≡ false) × (done ≡ (ok r, s)))
        ⊎ ((refused ≡ false) × (is_unended r.status ≡ true) × IsCancelled now force r s done)
  cancel_run-outcome mine =
      let done = cancel_run others now user r.id force s in
      let own = not force && (drives r.mode || is_under_way others r.rollout_id s) in
      let said : done ≡ (
          if is_unended r.status && own
          then (err (validation_error owned_by_rollout), s)
          else if is_unended r.status
          then (ok (cancel_row now force r.id r), set_runs (cancel_row now force r.id) s)
          else (ok r, s)) =
        rw
          (
            ← is_active_run-is_unended r.status,
            ← is_manage-drives r.mode,
            ← is_live-is_under_way others r.rollout_id s,
          )
          (cancel_run-found mine ∙ cancel_found-outcome) in
      elim (one_of_three (is_unended r.status) own done _ _ _ said) [
        | inl refused ↦ inl refused
        | inr (inl ended) ↦ inr (inl ended)
        | inr (inr (free, active, e)) ↦ inr (inr (free, active, rw e cancel_row-IsCancelled))
      ]

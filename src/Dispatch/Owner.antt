-- ===== src/Dispatch/Owner.antt =====
-- The host on which a rollout's loop is relaunched.
use agent_gtd.Prelude.{
  ℕ, ◌≡◌, refl, arith, Bool, true, false, not, ◌&&◌, Option, none, some, List, [], ◌∷◌, ◌==◌,
  filter, any, find?, find_passes, if◌then◌else◌, ap, sym, ◌∙◌,
}
use agent_gtd.Text.{Text, is_empty, same_text}
use agent_gtd.Exceptions.{ok, validation_error, host_draining, pending_loop}
use agent_gtd.Router.{is_drained}
use agent_gtd.Rollout.Types.{is_pending_run}
use agent_gtd.Rollout.Db.{Db, Run, Project, Wave, refuse_if}
use agent_gtd.Rollout.Ensures.{
  Ensures, Ensures-bind, Ensures-refuse_if, Ensures-return, Ensures-raise,
}
use agent_gtd.Settings.Types.{HostRow}
use agent_gtd.Dispatch.{get_project, list_hosts}
use agent_gtd.Dispatch.Loop.{
  LoopTarget, owning_host, check_target, resolve_from, resolve_loop_relaunch, is_loop_of, last_of,
}

-- The pin of the rollout names the host, or else its URL is the one that was used last.
abbrev pub owns : Option ℕ → Text → HostRow → Bool
owns (some pinned) url h = h.host.id == pinned
owns none url h = not (is_empty url) && same_text h.host.url url

owning_host-owns :
    (pin : Option ℕ) (url : Text) (hosts : List HostRow) (h : HostRow)
    → owning_host pin url hosts ≡ some h
    → owns pin url h ≡ true
owning_host-owns (some pinned) url hosts h e = find_passes (λ q. q.host.id == pinned) h hosts e
owning_host-owns none url hosts h e =
    go (is_empty url) (find_passes (λ q. same_text q.host.url url) h hosts) e
  where
    go :
        (b : Bool)
        → (find? (λ q. same_text q.host.url url) hosts ≡ some h → same_text h.host.url url ≡ true)
        → (if b then none else find? (λ q. same_text q.host.url url) hosts) ≡ some h
        → (not b && same_text h.host.url url) ≡ true
    go true k e = ground arith
    go false k e = k e

some-injective : {A : Type 0} (a b : A) → some a ≡ some b → a ≡ b
some-injective a b e = cc

-- What is known of the answer.
abbrev Answers : Option ℕ → Text → Option LoopTarget → Type 0
Answers pin url a =
    (t : LoopTarget) → a ≡ some t → (owns pin url t.host ≡ true) × (is_drained t.host.host ≡ false)

check_target-Ensures :
    (prior : ℕ) (project : Project) (pin : Option ℕ) (url : Text) (o : Option HostRow)
    → ((h : HostRow) → o ≡ some h → owns pin url h ≡ true)
    → Ensures (λ s. Unit) (check_target prior project o) (λ a s. Answers pin url a)
unfolding check_target
check_target-Ensures prior project pin url none k = Ensures-raise _ _
check_target-Ensures prior project pin url (some h) k =
    Ensures-bind (λ u s. (is_drained h.host ≡ false) × Unit) _
      (refuse_if (is_drained h.host) (validation_error host_draining)) _
      (Ensures-refuse_if (is_drained h.host) (validation_error host_draining))
      λ u. Ensures-return _ _ λ s (turning, x) t e.
        let same = ap (λ v. v.host) (sym (some-injective _ t e)) in
        (ap (λ g. owns pin url g) same ∙ k h refl, ap (λ g. is_drained g.host) same ∙ turning)

-- The answer over the manage runs of the rollout, oldest first.
abbrev pub IsAnswer : Wave → List Run → Option LoopTarget → Type 0
IsAnswer wave [] a = a ≡ none
IsAnswer wave (r ∷ rows) a =
    (any (λ q. is_pending_run q.status) (r ∷ rows) ≡ false)
    × Answers wave.dispatch_host_id (last_of r rows).dispatch_host_url a

module _ (now fresh user : ℕ) (wave : Wave) where
  resolve_from-Ensures :
      (rows : List Run)
      → Ensures (λ s. Unit) (resolve_from now fresh user wave rows) (λ a s. IsAnswer wave rows a)
  unfolding resolve_from
  resolve_from-Ensures [] = Ensures-return none _ λ s h. refl
  resolve_from-Ensures (r ∷ rows) =
      let waiting = any (λ q. is_pending_run q.status) (r ∷ rows) in
      let latest = last_of r rows in
      Ensures-bind (λ u s. (waiting ≡ false) × Unit) _
        (refuse_if waiting (validation_error pending_loop)) _
        (Ensures-refuse_if waiting (validation_error pending_loop))
        λ u.
          Ensures-bind (λ p s. waiting ≡ false) _ (get_project user wave.project_id) _
            record { after = λ s (idle, x) p e. idle }
            λ project.
              Ensures-bind (λ h s. waiting ≡ false) _ (list_hosts now fresh project.user_id) _
                record { after = λ s idle h e. idle }
                λ hosts. record {
                  after = λ s idle a e. (
                    idle,
                    (check_target-Ensures latest.id project wave.dispatch_host_id
                          latest.dispatch_host_url
                          (owning_host wave.dispatch_host_id latest.dispatch_host_url hosts)
                          (owning_host-owns wave.dispatch_host_id latest.dispatch_host_url
                            hosts)).after
                        s tt a e,
                  );
                }

  -- Where the preflight of a relaunch returns: with no manage run there is nothing to relaunch;
  -- else no manage run of the rollout is pending, and a host that is named is in rotation and owns
  -- the rollout: it is the pinned one, or, with no pin, the one whose URL the latest manage run has.
  pub resolve_loop_relaunch-IsAnswer :
      (s : Db) (a : Option LoopTarget)
      → (resolve_loop_relaunch now fresh user wave s).0 ≡ ok a
      → IsAnswer wave (filter (is_loop_of wave.id) s.runs) a
  unfolding resolve_loop_relaunch
  resolve_loop_relaunch-IsAnswer s a e =
      (resolve_from-Ensures (filter (is_loop_of wave.id) s.runs)).after s tt a e

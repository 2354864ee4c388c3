-- ===== src/Reaper/Fatal.antt =====
-- What is decided about a run whose host does not answer for it.
use agent_gtd.Prelude.{
  ◌≡◌, ℕ, refl, arith, Bool, true, false, Option, none, some, List, [], ◌∷◌, filter, any, ◌==◌,
  find?, Option-cases, Bool-cases, inl, inr,
}
use agent_gtd.Text.{Text, is_empty, same_text}
use agent_gtd.Router.{is_nil}
use agent_gtd.Rollout.Types.{LocalRunStatus, is_active_run}
use agent_gtd.Rollout.Db.{Db}
use agent_gtd.Settings.{get_dispatch_hosts, hosts_of}
use agent_gtd.Settings.Types.{Outcome, HostRow, Registry}
use agent_gtd.Settings.Types as Registered
use agent_gtd.Reaper.Types.{
  Poll, reported, http_status_error, other_error, Decision, no_record, unreachable_timeout,
}
use agent_gtd.Reaper.{new_status, resolve_remote, decide, decide_found, decide_polled, match_host}

-- The host is not reached, or knows nothing of the run, or its answer makes no sense.
abbrev pub fails : Poll → Bool
fails (reported remote) = false
fails other_error = false
fails _ = true

-- The user has a host.
abbrev pub has_host : ℕ → List HostRow → Bool
has_host user_id rows = any (λ h. h.user_id == user_id) rows

-- The decision writes a status with which the run has ended.
pub record IsFatal (o : Option Decision) : Type 0 where
  pub decision : Decision
  pub taken : o ≡ some decision
  pub status : LocalRunStatus
  pub written : new_status decision ≡ some status
  pub ended : is_active_run status ≡ false

timeout-IsFatal : IsFatal (some unreachable_timeout)
timeout-IsFatal = record {
  decision = unreachable_timeout;
  taken = refl;
  status = LocalRunStatus.timeout;
  written = refl;
  ended = refl;
}

no_record-IsFatal : IsFatal (some no_record)
no_record-IsFatal = record {
  decision = no_record;
  taken = refl;
  status = LocalRunStatus.failed;
  written = refl;
  ended = refl;
}

decide_polled-IsFatal : (p : Poll) → fails p ≡ true → IsFatal (decide_polled true p)
unfolding decide_polled
decide_polled-IsFatal (reported remote) h = ground arith
decide_polled-IsFatal (http_status_error code) h = elim (Bool-cases (code == 404)) [
  | inl gone ↦ rw (gone, decide_polled) no_record-IsFatal
  | inr down ↦ rw (down, decide_polled) timeout-IsFatal
]
decide_polled-IsFatal other_error h = ground arith
decide_polled-IsFatal _ h = timeout-IsFatal

module _ (poll : ℕ → Text → Text → Poll) (url : Text)
    (unanswered : (rid : ℕ) (key : Text) → fails (poll rid url key) ≡ true) where
  match_host-IsFatal :
      (rid : ℕ) (hosts : List HostRow)
      → IsFatal (decide_found true poll (some (match_host rid url hosts)))
  unfolding decide
  match_host-IsFatal rid hosts = elim (Option-cases (find? (λ h. same_text h.host.url url) hosts)) [
    | inl nobody ↦ rw (nobody, match_host) timeout-IsFatal
    | inr (h, found) ↦
        rw (found, match_host)
          (decide_polled-IsFatal (poll rid url h.api_key) (unanswered rid h.api_key))
  ]

  has_host-hosts_of :
      (owner : ℕ) (rows : List HostRow)
      → has_host owner rows ≡ true
      → is_nil (filter (λ h. h.user_id == owner) rows) ≡ false
  has_host-hosts_of owner [] h = ground arith
  has_host-hosts_of owner (q ∷ rows) h = ground (arith, has_host-hosts_of owner rows)

  get_dispatch_hosts-known :
      (now fresh owner : ℕ) (s : Registry)
      → has_host owner s.hosts ≡ true
      → get_dispatch_hosts now fresh owner s ≡ (Registered.ok (hosts_of owner s), s)
  unfolding get_dispatch_hosts
  get_dispatch_hosts-known now fresh owner s h =
      rw (has_host-hosts_of owner s.hosts h, get_dispatch_hosts) refl

  pub resolve_remote-IsFatal :
      (now fresh owner : ℕ) (remote : Option ℕ) (s : Db)
      → has_host owner s.registry.hosts ≡ true
      → IsFatal (decide_found true poll (resolve_remote now fresh owner url remote s).0)
  unfolding decide
  resolve_remote-IsFatal now fresh owner none s h = timeout-IsFatal
  resolve_remote-IsFatal now fresh owner (some rid) s h = elim (Bool-cases (is_empty url)) [
    | inl empty ↦ rw (empty, resolve_remote) timeout-IsFatal
    | inr given ↦
        rw (given, resolve_remote, get_dispatch_hosts-known now fresh owner s.registry h)
          (match_host-IsFatal rid (hosts_of owner s.registry))
  ]

-- ===== src/Settings/Rotation.antt =====
-- A drain in src/agent_gtd/services/settings_service.py, as the router sees it
-- (src/agent_gtd/services/dispatch_router.py).
use mathlib.Core.Path.{subst}
use agent_gtd.Prelude.{
  find_passes, ◌≡◌, ◌∙◌, ℕ, refl, sym, ap, arith, true, false, not, ◌&&◌, Option, none, some, List,
  [], ◌∷◌, find?, ◌==◌, if◌then◌else◌, Bool-cases, Option-cases, inl, inr, ==→≡,
}
use agent_gtd.Text.{Text}
use agent_gtd.Router.Types.{Host, Fetched, chosen, host_draining}
use agent_gtd.Router.{is_drained, pin_skip, pick_auto, pick_pinned, pick_found}
use agent_gtd.Router.Choice.{In}
use agent_gtd.Router.Auto.{pick_auto_sound}
use agent_gtd.Settings.Types.{HostRow, Registry, Outcome, ok, err, reason_required, ResolvedBy}
use agent_gtd.Settings.{is_given, reread}
use agent_gtd.Settings.Hosts.{
  is_host, find_host, set_host, with_drain, trim, is_null, drain_found, drain_dispatch_host,
  drain_resolved, set_dispatch_host_drain, resolve_dispatch_host, and_then,
}
use agent_gtd.Settings.Rows.{well_formed}
use agent_gtd.Settings.Lookup.{
  has, found-In, find-is_host, find-set_host, routed, find-routed, routed_unique,
}
use agent_gtd.Settings.Sound.{resolve_dispatch_host-Sound, drain_found-Sound}

-- What a drain that returns a row has done: the row is the user's, it is drained, and it is the
-- only one with its id.
record IsDrainedIn (user_id : ℕ) (s : Registry) (r : HostRow) : Type 0 where
  mine : find? (is_host user_id r.host.id) s.hosts ≡ some r
  drained : is_drained r.host ≡ true
  sound : well_formed s.hosts ≡ true

abbrev Drains : ℕ → Outcome (Option HostRow) × Registry → Type 0
Drains user_id p = (r : HostRow) → p.0 ≡ ok (some r) → IsDrainedIn user_id p.1 r

ok_some-injective : (q r : HostRow) → ok (some q) ≡ ok (some r) → q ≡ r
ok_some-injective q r e = cc

reread-found :
    (id : ℕ) (r : HostRow) (t : Registry)
    → find? (has id) t.hosts ≡ some r
    → reread id t ≡ ok (some r)
reread-found id r t f = rw (f, reread) refl

module _ (user_id : ℕ) where
  reread-Drains :
      (id : ℕ) (r : HostRow) (t : Registry)
      → well_formed t.hosts ≡ true
      → find? (is_host user_id id) t.hosts ≡ some r
      → is_drained r.host ≡ true
      → Drains user_id (reread id t, t)
  reread-Drains id r t w f d q e =
      let same =
        ok_some-injective r q
          (sym (reread-found id r t (find-is_host user_id id r t.hosts w f)) ∙ e) in
      let own : r.host.id ≡ id =
        ==→≡ r.host.id id (ground (arith, find_passes (is_host user_id id) r t.hosts f)) in
      subst (IsDrainedIn user_id t) same record {
        mine = subst (λ n. find? (is_host user_id n) t.hosts ≡ some r) (sym own) f;
        drained = d;
        sound = w;
      }

  drain_found-given :
      (now id : ℕ) (current trimmed : Option Text) (s : Registry)
      → is_given trimmed ≡ true
      → let t = set_host user_id id (with_drain now trimmed) s in
        drain_found now user_id id current trimmed s ≡ (reread id t, t)
  unfolding drain_found
  drain_found-given now id current trimmed s g = rw g refl

  drain_found-missing :
      (now id : ℕ) (current trimmed : Option Text) (s : Registry)
      → is_given trimmed ≡ false
      → drain_found now user_id id current trimmed s
        ≡ (if is_null current then (err reason_required, s) else (reread id s, s))
  unfolding drain_found
  drain_found-missing now id current trimmed s g = rw g refl

  given-is_drained :
      (now : ℕ) (r : HostRow) (trimmed : Option Text)
      → is_given trimmed ≡ true
      → is_drained (with_drain now trimmed r).host ≡ true
  given-is_drained now r none g = ground arith
  given-is_drained now r (some t) g = refl

  kept-Drains :
      (id : ℕ) (r : HostRow) (s : Registry)
      → well_formed s.hosts ≡ true
      → find_host user_id id s ≡ some r
      → Drains user_id
          (if is_null r.host.drain_reason then (err reason_required, s) else (reread id s, s))
  kept-Drains id r s w f = elim (Option-cases r.host.drain_reason) [
    | inl never ↦ rw never (λ q e. ground arith)
    | inr (reason, drained) ↦ rw drained (reread-Drains id r s w f (rw drained refl))
  ]

  drain_found-Drains :
      (now id : ℕ) (r : HostRow) (trimmed : Option Text) (s : Registry)
      → well_formed s.hosts ≡ true
      → find_host user_id id s ≡ some r
      → Drains user_id (drain_found now user_id id r.host.drain_reason trimmed s)
  drain_found-Drains now id r trimmed s w f =
      let current = r.host.drain_reason in
      let t = set_host user_id id (with_drain now trimmed) s in
      let kept = drain_found-Sound now user_id id current trimmed s w in
      elim (Bool-cases (is_given trimmed)) [
        | inl g ↦
            let same = drain_found-given now id current trimmed s g in
            subst (Drains user_id) (sym same) (
              reread-Drains id (with_drain now trimmed r) t
                (subst (λ p. well_formed p.1.hosts ≡ true) same kept)
                (find-set_host now user_id id trimmed r s.hosts f)
                (given-is_drained now r trimmed g))
        | inr g ↦
            subst (Drains user_id) (sym (drain_found-missing now id current trimmed s g))
              (kept-Drains id r s w f)
      ]

  drain_dispatch_host-Drains :
      (now id : ℕ) (reason : Option Text) (s : Registry)
      → well_formed s.hosts ≡ true
      → Drains user_id (drain_dispatch_host now user_id id reason s)
  unfolding drain_dispatch_host
  drain_dispatch_host-Drains now id reason s w = elim (Option-cases (find_host user_id id s)) [
    | inl nobody ↦ rw (nobody, drain_dispatch_host) (λ q e. ground arith)
    | inr (r, f) ↦ rw (f, drain_dispatch_host) (drain_found-Drains now id r (trim reason) s w f)
  ]

  drain_resolved-Drains :
      (now : ℕ) (reason : Option Text) (a : HostRow × ResolvedBy) (s : Registry)
      → well_formed s.hosts ≡ true
      → Drains user_id (drain_resolved now user_id reason a s)
  unfolding drain_resolved
  drain_resolved-Drains now reason (r, by) s w =
      elim (Bool-cases (is_null r.host.drain_reason && not (is_given (trim reason)))) [
        | inl refused ↦ rw (refused, drain_resolved) (λ q e. ground arith)
        | inr goes ↦ rw (goes, drain_resolved) (drain_dispatch_host-Drains now r.host.id reason s w)
      ]

  and_then-Drains :
      {A : Type 0} (m : Outcome A × Registry)
      (f : A → Registry → Outcome (Option HostRow) × Registry)
      → well_formed m.1.hosts ≡ true
      → ((a : A) (t : Registry) → well_formed t.hosts ≡ true → Drains user_id (f a t))
      → Drains user_id (and_then m f)
  and_then-Drains (ok a, s) f w k = k a s w
  and_then-Drains (err e, s) f w k = λ q h. ground arith

  set_dispatch_host_drain-Drains :
      (now id : ℕ) (uuid : ℕ → Text) (host_ref : Text) (reason : Option Text) (s : Registry)
      → well_formed s.hosts ≡ true
      → Drains user_id (set_dispatch_host_drain now id uuid user_id host_ref reason s)
  unfolding set_dispatch_host_drain
  set_dispatch_host_drain-Drains now id uuid host_ref reason s w =
      and_then-Drains (resolve_dispatch_host now id uuid user_id host_ref s)
        (drain_resolved now user_id reason)
        (resolve_dispatch_host-Sound now id uuid user_id host_ref s w)
        (drain_resolved-Drains now reason)

module _ (fetch_info : Text → Fetched) (engine : Text) (agent_name : Option Text)
    (required : List Text) (user_id : ℕ) (s : Registry) (r : HostRow) where
  not_automatic :
      (exclude_urls : List Text) (h : Host)
      → IsDrainedIn user_id s r
      → pick_auto fetch_info engine agent_name required exclude_urls (routed user_id s) ≡ chosen h
      → (h.id == r.host.id) ≡ false
  not_automatic exclude_urls h d e = elim (Bool-cases (h.id == r.host.id)) [
    | inr other ↦ other
    | inl same ↦
        let (i, listed, candidate, most) =
          pick_auto_sound fetch_info engine agent_name required exclude_urls (routed user_id s) h
            e in
        let row = find-is_host user_id r.host.id r s.hosts d.sound d.mine in
        let its = routed_unique user_id r.host.id r h s.hosts d.sound row listed same in
        let turning = candidate.in_rotation in
        let b = ap is_drained its in let c = d.drained in ground arith
  ]

  refused_by_id :
      IsDrainedIn user_id s r
      → pick_pinned fetch_info engine agent_name required r.host.id false (routed user_id s)
        ≡ host_draining (pin_skip r.host ∷ [])
  unfolding pick_pinned pick_found
  refused_by_id d = rw (find-routed user_id r.host.id r s.hosts d.mine, pick_pinned, d.drained) refl

-- A drain that returns, where the hosts are well-formed, returns a host of the user that the
-- router then leaves alone: no automatic choice among the user's hosts takes it, whatever the
-- hosts answer and the run asks for, and a run that names it is refused with the reason of the
-- drain, unless the caller allows a drained host.
pub set_dispatch_host_drain-routing :
    (now id : ℕ) (uuid : ℕ → Text) (user_id : ℕ) (host_ref : Text) (reason : Option Text)
    (s : Registry) (r : HostRow)
    → well_formed s.hosts ≡ true
    → (set_dispatch_host_drain now id uuid user_id host_ref reason s).0 ≡ ok (some r)
    → let t = (set_dispatch_host_drain now id uuid user_id host_ref reason s).1 in
      In r.host (routed user_id t)
      × ((fetch_info : Text → Fetched) (engine : Text) (agent : Option Text)
            (required exclude : List Text) (h : Host)
          → pick_auto fetch_info engine agent required exclude (routed user_id t) ≡ chosen h
          → (h.id == r.host.id) ≡ false)
      × ((fetch_info : Text → Fetched) (engine : Text) (agent : Option Text) (required : List Text)
          → pick_pinned fetch_info engine agent required r.host.id false (routed user_id t)
            ≡ host_draining (pin_skip r.host ∷ []))
set_dispatch_host_drain-routing now id uuid user_id host_ref reason s r w e =
    let t = (set_dispatch_host_drain now id uuid user_id host_ref reason s).1 in
    let d = set_dispatch_host_drain-Drains user_id now id uuid host_ref reason s w r e in
    (
      found-In _ r.host (routed user_id t) (find-routed user_id r.host.id r t.hosts d.mine),
      λ fetch_info engine agent required exclude h.
          not_automatic fetch_info engine agent required user_id t r exclude h d,
      λ fetch_info engine agent required.
          refused_by_id fetch_info engine agent required user_id t r d,
    )

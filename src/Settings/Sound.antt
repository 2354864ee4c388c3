-- ===== src/Settings/Sound.antt =====
-- What no sequence of calls on the settings breaks.
use agent_gtd.Prelude.{
  ◌≡◌, ℕ, refl, arith, Bool, true, not, Option, none, some, List, [], ◌∷◌, Bool-cases, Option-cases,
  inl, inr,
}
use agent_gtd.Text.{Text, text}
use agent_gtd.Settings.Types.{HostRow, Registry, Outcome, ok, err, ResolvedBy}
use agent_gtd.Settings.{
  set_setting, set_user_setting, get_user_setting, get_dispatch_hosts, migrate, given, is_given,
  migrated, add_dispatch_host, normalize_labels, new_host_row,
}
use agent_gtd.Settings.Hosts.{
  update_dispatch_host, drain_dispatch_host, drain_found, undrain_dispatch_host,
  resolve_dispatch_host, set_dispatch_host_drain, clear_dispatch_host_drain, remove_dispatch_host,
  drain_resolved, clear_resolved, and_then, with_labels, with_drain, is_host, find_host, set_host,
  trim, resolve_among,
}
use agent_gtd.Settings.Rows.{
  well_formed, well_formed-snoc, well_formed-filter, well_formed-map, IsUpdate, where_host,
  says_why,
}
use agent_gtd.Settings.Requests.{
  Request, handle, handle_all, set_app, set_own, get_hosts, add_host, set_labels, drain_host,
  undrain_host, set_drain, clear_drain, remove_host,
}

abbrev Sound : Registry → Type 0
Sound s = well_formed s.hosts ≡ true

module _ (now : ℕ) where
  with_labels-IsUpdate : (labels : List Text) → IsUpdate (with_labels now labels)
  with_labels-IsUpdate labels = record {
    same_id = λ r. refl;
    same_user = λ r. refl;
    same_url = λ r. refl;
    keeps_why = λ r h. h;
  }

  with_drain-IsUpdate :
      (reason : Option Text) → says_why reason ≡ true → IsUpdate (with_drain now reason)
  with_drain-IsUpdate reason why = record {
    same_id = λ r. refl;
    same_user = λ r. refl;
    same_url = λ r. refl;
    keeps_why = λ r h. why;
  }

  pub set_host-Sound :
      (user_id id : ℕ) (f : HostRow → HostRow) (s : Registry)
      → IsUpdate f
      → Sound s
      → Sound (set_host user_id id f s)
  set_host-Sound user_id id f s k w = well_formed-map _ (where_host user_id id f k) s.hosts w

  migrate-Sound :
      (id user_id : ℕ) (url api_key : Option Text) (s : Registry)
      → Sound s
      → Sound (migrate now id user_id url api_key s).1
  unfolding migrate
  migrate-Sound id user_id url api_key s w =
      let r = migrated now id user_id (given url) (given api_key) in
      ground (arith, well_formed-snoc s.hosts r w)

  pub get_dispatch_hosts-Sound :
      (id user_id : ℕ) (s : Registry) → Sound s → Sound (get_dispatch_hosts now id user_id s).1
  unfolding get_dispatch_hosts
  get_dispatch_hosts-Sound id user_id s w = ground (
    arith,
    migrate-Sound id user_id (get_user_setting user_id (text "dispatch.service_url") s)
        (get_user_setting user_id (text "dispatch.service_api_key") s) s w,
  )

  is_given-says_why : (t : Option Text) → is_given t ≡ true → says_why t ≡ true
  is_given-says_why none h = refl
  is_given-says_why (some t) h = h

  pub drain_found-Sound :
      (user_id id : ℕ) (current trimmed : Option Text) (s : Registry)
      → Sound s
      → Sound (drain_found now user_id id current trimmed s).1
  unfolding drain_found
  drain_found-Sound user_id id current trimmed s w = elim (Bool-cases (is_given trimmed)) [
    | inl known ↦ rw known (
        set_host-Sound user_id id (with_drain now trimmed) s
          (with_drain-IsUpdate trimmed (is_given-says_why trimmed known)) w)
    | inr missing ↦ ground arith
  ]

  drain_dispatch_host-Sound :
      (user_id id : ℕ) (reason : Option Text) (s : Registry)
      → Sound s
      → Sound (drain_dispatch_host now user_id id reason s).1
  unfolding drain_dispatch_host
  drain_dispatch_host-Sound user_id id reason s w = elim (Option-cases (find_host user_id id s)) [
    | inl nobody ↦ rw (nobody, drain_dispatch_host) w
    | inr (r, found) ↦
        rw (found, drain_dispatch_host)
          (drain_found-Sound user_id id r.host.drain_reason (trim reason) s w)
  ]

  undrain_dispatch_host-Sound :
      (user_id id : ℕ) (s : Registry) → Sound s → Sound (undrain_dispatch_host now user_id id s).1
  unfolding undrain_dispatch_host
  undrain_dispatch_host-Sound user_id id s w = elim (Option-cases (find_host user_id id s)) [
    | inl nobody ↦ rw (nobody, undrain_dispatch_host) w
    | inr (r, found) ↦
        rw (found, undrain_dispatch_host)
          (set_host-Sound user_id id (with_drain now none) s (with_drain-IsUpdate none refl) w)
  ]

  and_then-Sound :
      {A B : Type 0} (m : Outcome A × Registry) (f : A → Registry → Outcome B × Registry)
      → Sound m.1
      → ((a : A) (t : Registry) → Sound t → Sound (f a t).1)
      → Sound (and_then m f).1
  and_then-Sound (ok a, s) f w k = k a s w
  and_then-Sound (err e, s) f w k = w

  pub resolve_dispatch_host-Sound :
      (id : ℕ) (uuid : ℕ → Text) (user_id : ℕ) (host_ref : Text) (s : Registry)
      → Sound s
      → Sound (resolve_dispatch_host now id uuid user_id host_ref s).1
  unfolding resolve_dispatch_host
  resolve_dispatch_host-Sound id uuid user_id host_ref s w =
      and_then-Sound (get_dispatch_hosts now id user_id s)
        (λ hosts t. (resolve_among uuid host_ref hosts, t))
        (get_dispatch_hosts-Sound id user_id s w) λ hosts t v. v

  drain_resolved-Sound :
      (user_id : ℕ) (reason : Option Text) (a : HostRow × ResolvedBy) (s : Registry)
      → Sound s
      → Sound (drain_resolved now user_id reason a s).1
  unfolding drain_resolved
  drain_resolved-Sound user_id reason (r, by) s w =
      ground (arith, drain_dispatch_host-Sound user_id r.host.id reason s w)

  clear_resolved-Sound :
      (user_id : ℕ) (a : HostRow × ResolvedBy) (s : Registry)
      → Sound s
      → Sound (clear_resolved now user_id a s).1
  unfolding clear_resolved
  clear_resolved-Sound user_id (r, by) s w =
      ground (arith, undrain_dispatch_host-Sound user_id r.host.id s w)

  update_dispatch_host-Sound :
      (user_id id : ℕ) (labels : List Text) (s : Registry)
      → Sound s
      → Sound (update_dispatch_host now user_id id labels s).1
  unfolding update_dispatch_host
  update_dispatch_host-Sound user_id id labels s w =
      let labels = normalize_labels labels in
      elim (Option-cases (find_host user_id id s)) [
        | inl nobody ↦ rw (nobody, update_dispatch_host) w
        | inr (r, found) ↦
            rw (found, update_dispatch_host)
              (set_host-Sound user_id id (with_labels now labels) s (with_labels-IsUpdate labels) w)
      ]

  add_dispatch_host-Sound :
      (id user_id : ℕ) (label url api_key : Text) (labels : List Text) (drained : Bool)
      (s : Registry)
      → Sound s
      → Sound (add_dispatch_host now id user_id label url api_key labels drained s).1
  unfolding add_dispatch_host
  add_dispatch_host-Sound id user_id label url api_key labels drained s w =
      let r = new_host_row now id user_id label url api_key labels drained in
      ground (arith, well_formed-snoc s.hosts r w)

remove_dispatch_host-Sound :
    (user_id id : ℕ) (s : Registry) → Sound s → Sound (remove_dispatch_host user_id id s).1
unfolding remove_dispatch_host
remove_dispatch_host-Sound user_id id s w = elim (Option-cases (find_host user_id id s)) [
  | inl nobody ↦ rw (nobody, remove_dispatch_host) w
  | inr (r, found) ↦
      rw (found, remove_dispatch_host)
        (well_formed-filter (λ r. not (is_host user_id id r)) s.hosts w)
]

module _ (now : ℕ) (uuid : ℕ → Text) (user_id : ℕ) where
  handle-Sound : (r : Request) (s : Registry) → Sound s → Sound (handle now uuid user_id r s)
  unfolding handle set_setting set_user_setting set_dispatch_host_drain clear_dispatch_host_drain
  handle-Sound (set_app key value) s w = w
  handle-Sound (set_own key value) s w = w
  handle-Sound (get_hosts fresh) s w = get_dispatch_hosts-Sound now fresh user_id s w
  handle-Sound (add_host id label url api_key labels drained) s w =
      add_dispatch_host-Sound now id user_id label url api_key labels drained s w
  handle-Sound (set_labels id labels) s w = update_dispatch_host-Sound now user_id id labels s w
  handle-Sound (drain_host id reason) s w = drain_dispatch_host-Sound now user_id id reason s w
  handle-Sound (undrain_host id) s w = undrain_dispatch_host-Sound now user_id id s w
  handle-Sound (set_drain fresh host_ref reason) s w =
      and_then-Sound now (resolve_dispatch_host now fresh uuid user_id host_ref s)
        (drain_resolved now user_id reason)
        (resolve_dispatch_host-Sound now fresh uuid user_id host_ref s w)
        (drain_resolved-Sound now user_id reason)
  handle-Sound (clear_drain fresh host_ref) s w =
      and_then-Sound now (resolve_dispatch_host now fresh uuid user_id host_ref s)
        (clear_resolved now user_id)
        (resolve_dispatch_host-Sound now fresh uuid user_id host_ref s w)
        (clear_resolved-Sound now user_id)
  handle-Sound (remove_host id) s w = remove_dispatch_host-Sound user_id id s w

-- Where no two hosts have one id, no two hosts of a user have one URL, and every drained host has
-- a reason that is not empty, this holds after any sequence of calls, by any users and with any
-- outcomes.
pub handle_all-Sound :
    (uuid : ℕ → Text) (rs : List (ℕ × ℕ × Request)) (s : Registry)
    → well_formed s.hosts ≡ true
    → well_formed (handle_all uuid rs s).hosts ≡ true
unfolding handle_all
handle_all-Sound uuid [] s w = w
handle_all-Sound uuid ((now, user_id, r) ∷ rs) s w =
    handle_all-Sound uuid rs (handle now uuid user_id r s) (handle-Sound now uuid user_id r s w)

-- ===== src/Settings/Hosts.antt =====
-- The calls of src/agent_gtd/services/settings_service.py on a host that is registered, and the
-- configuration of a single host.
use agent_gtd.Prelude.{
  ℕ, Bool, true, false, not, ◌&&◌, ◌||◌, Option, none, some, List, [], ◌∷◌, map, ◌==◌,
  if◌then◌else◌, filter, find?,
}
use agent_gtd.Text.{Text, text, strip, is_empty, same_text, starts_with}
use agent_gtd.Settings.Types.{
  HostRow, Registry, Outcome, ok, err, reason_required, not_drained, unknown_host, ambiguous,
  ResolvedBy, by_id, by_label, by_url_substring, DispatchConfig,
}
use agent_gtd.Settings.{
  get_user_setting, get_dispatch_hosts, normalize_labels, is_given, given, reread,
}

-- `WHERE id = $1 AND user_id = $2`
abbrev pub is_host : ℕ → ℕ → HostRow → Bool
is_host user_id id r = r.host.id == id && r.user_id == user_id

abbrev pub find_host : ℕ → ℕ → Registry → Option HostRow
find_host user_id id s = find? (is_host user_id id) s.hosts

abbrev pub set_host : ℕ → ℕ → (HostRow → HostRow) → Registry → Registry
set_host user_id id f s = record s {
  hosts = map (λ r. if is_host user_id id r then f r else r) s.hosts;
}

abbrev pub with_labels : ℕ → List Text → HostRow → HostRow
with_labels now labels r = record r {
  updated_at = now;
  host = record r.host { capability_labels = labels };
}

abbrev pub with_drain : ℕ → Option Text → HostRow → HostRow
with_drain now reason r = record r {
  updated_at = now;
  host = record r.host { drain_reason = reason };
}

unfoldable pub update_dispatch_host :
    ℕ → ℕ → ℕ → List Text → Registry → Outcome (Option HostRow) × Registry
update_dispatch_host now user_id host_id capability_labels s =
    let t = set_host user_id host_id (with_labels now (normalize_labels capability_labels)) s in
    elim (find_host user_id host_id s) [ none ↦ (ok none, s) | some r ↦ (reread host_id t, t) ]

-- `reason.strip() if isinstance(reason, str) else None`
abbrev pub trim : Option Text → Option Text
trim none = none
trim (some reason) = some (strip reason)

abbrev pub is_null : Option Text → Bool
is_null none = true
is_null (some t) = false

-- From the row that was found on.
unfoldable pub drain_found :
    ℕ → ℕ → ℕ → Option Text → Option Text → Registry → Outcome (Option HostRow) × Registry
drain_found now user_id host_id current trimmed s =
    let t = set_host user_id host_id (with_drain now trimmed) s in
    if is_given trimmed
    then (reread host_id t, t)
    else if is_null current
    then (err reason_required, s)
    else (reread host_id s, s)

unfoldable pub drain_dispatch_host :
    ℕ → ℕ → ℕ → Option Text → Registry → Outcome (Option HostRow) × Registry
drain_dispatch_host now user_id host_id reason s = elim (find_host user_id host_id s) [
  | none ↦ (ok none, s)
  | some r ↦ drain_found now user_id host_id r.host.drain_reason (trim reason) s
]

unfoldable pub undrain_dispatch_host : ℕ → ℕ → ℕ → Registry → Outcome (Option HostRow) × Registry
undrain_dispatch_host now user_id host_id s =
    let t = set_host user_id host_id (with_drain now none) s in
    elim (find_host user_id host_id s) [ none ↦ (ok none, s) | some r ↦ (reread host_id t, t) ]

-- `ref in url`
abbrev pub contains : Text → Text → Bool
contains [] ref = is_empty ref
contains (c ∷ url) ref = starts_with (c ∷ url) ref || contains url ref

abbrev pub ids_of : List HostRow → List ℕ
ids_of rows = map (λ r. r.host.id) rows

-- The only match; else the error, or, with no match, the next step.
abbrev pub only :
    ResolvedBy → List HostRow → Outcome (HostRow × ResolvedBy) → Outcome (HostRow × ResolvedBy)
only by [] next = next
only by (r ∷ []) next = ok (r, by)
only by (r ∷ q ∷ rows) next = err (ambiguous (ids_of (r ∷ q ∷ rows)))

unfoldable pub resolve_among : (ℕ → Text) → Text → List HostRow → Outcome (HostRow × ResolvedBy)
resolve_among uuid host_ref hosts =
    let by_others = only by_label (filter (λ r. same_text r.host.label host_ref) hosts) (
      only by_url_substring (filter (λ r. contains r.host.url host_ref) hosts)
        (err unknown_host)) in
    elim (find? (λ r. same_text (uuid r.host.id) host_ref) hosts) [
      | some r ↦ ok (r, by_id)
      | none ↦ by_others
    ]

abbrev pub and_then :
    {A B : Type 0}
    → Outcome A × Registry
    → (A → Registry → Outcome B × Registry)
    → Outcome B × Registry
and_then (ok a, s) f = f a s
and_then (err e, s) f = (err e, s)

unfoldable pub resolve_dispatch_host :
    ℕ → ℕ → (ℕ → Text) → ℕ → Text → Registry → Outcome (HostRow × ResolvedBy) × Registry
resolve_dispatch_host now id uuid user_id host_ref s =
    and_then (get_dispatch_hosts now id user_id s) λ hosts t. (resolve_among uuid host_ref hosts, t)

-- From the host that the reference names on. The last read can migrate nothing, since the user
-- has a host.
unfoldable pub drain_resolved :
    ℕ → ℕ → Option Text → HostRow × ResolvedBy → Registry → Outcome (Option HostRow) × Registry
drain_resolved now user_id reason (r, by) s =
    if is_null r.host.drain_reason && not (is_given (trim reason))
    then (err not_drained, s)
    else drain_dispatch_host now user_id r.host.id reason s

unfoldable pub set_dispatch_host_drain :
    ℕ → ℕ → (ℕ → Text) → ℕ → Text → Option Text → Registry → Outcome (Option HostRow) × Registry
set_dispatch_host_drain now id uuid user_id host_ref reason s =
    and_then (resolve_dispatch_host now id uuid user_id host_ref s)
      (drain_resolved now user_id reason)

unfoldable pub clear_resolved :
    ℕ → ℕ → HostRow × ResolvedBy → Registry → Outcome (Option HostRow) × Registry
clear_resolved now user_id (r, by) s =
    if is_null r.host.drain_reason
    then (ok (some r), s)
    else undrain_dispatch_host now user_id r.host.id s

unfoldable pub clear_dispatch_host_drain :
    ℕ → ℕ → (ℕ → Text) → ℕ → Text → Registry → Outcome (Option HostRow) × Registry
clear_dispatch_host_drain now id uuid user_id host_ref s =
    and_then (resolve_dispatch_host now id uuid user_id host_ref s) (clear_resolved now user_id)

unfoldable pub remove_dispatch_host : ℕ → ℕ → Registry → Option Text × Registry
remove_dispatch_host user_id host_id s =
    let t = record s { hosts = filter (λ r. not (is_host user_id host_id r)) s.hosts } in
    elim (find_host user_id host_id s) [ none ↦ (none, s) | some r ↦ (some r.host.url, t) ]

-- `x or y` of a setting and an environment variable, which is empty where it is not set.
abbrev pub or_env : Option Text → Text → Text
or_env setting env = if is_given setting then given setting else env

abbrev pub config : Text → Text → Option DispatchConfig
config url api_key =
    if not (is_empty url) && not (is_empty api_key)
    then some (record { url = url; api_key = api_key })
    else none

-- `env_url` and `env_api_key` are the values of the environment variables.
unfoldable pub get_dispatch_config : ℕ → Text → Text → ℕ → Registry → Option DispatchConfig
get_dispatch_config local_user_id env_url env_api_key user_id s =
    let url = get_user_setting user_id (text "dispatch.service_url") s in
    let api_key = get_user_setting user_id (text "dispatch.service_api_key") s in
    if is_given url && is_given api_key
    then config (given url) (given api_key)
    else if user_id == local_user_id
    then config (or_env url env_url) (or_env api_key env_api_key)
    else none

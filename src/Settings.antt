-- ===== src/Settings.antt =====
-- src/agent_gtd/services/settings_service.py: the settings of the deployment and of a user, and
-- the dispatch hosts that a user has registered. A new id and the present time are arguments.
-- `uuid` is the text of an id, which a reference to a host is compared with. Labels are ASCII.
-- Logging is left out.
pub mod Types
pub mod Hosts
pub mod Rows
pub mod Requests
pub mod Sound
pub mod Lookup
pub mod Rotation
pub mod Store
use agent_gtd.Prelude.{
  ℕ, zero, suc, ◌+◌, ◌-◌, Bool, true, false, not, ◌&&◌, ◌||◌, Option, none, some, List, [], ◌∷◌,
  ◌++◌, map, ◌==◌, ltb, if◌then◌else◌, filter, find?, any, length,
}
use agent_gtd.Text.{Text, text, strip, lower, is_empty, mem_text, same_text, starts_with}
use agent_gtd.Router.Types.{Host}
use agent_gtd.Router.{is_nil}
use agent_gtd.Settings.Types.{
  AppSetting, UserSetting, HostRow, Registry, Outcome, ok, err, duplicate_url, reason_required,
  not_drained, unknown_host, integrity_error, missing_row, ambiguous, ResolvedBy, by_id, by_label,
  by_url_substring, DispatchConfig,
}

abbrev pub is_key : Text → AppSetting → Bool
is_key key r = same_text r.key key

abbrev pub is_user_key : ℕ → Text → UserSetting → Bool
is_user_key user_id key r = r.user_id == user_id && same_text r.key key

abbrev pub value_or : Option AppSetting → Option Text → Option Text
value_or none default = default
value_or (some r) default = some r.value

unfoldable pub get_setting : Text → Option Text → Registry → Option Text
get_setting key default s = value_or (find? (is_key key) s.app_settings) default

-- INSERT ... ON CONFLICT DO UPDATE: the row with the key is changed, or a new row is added.
abbrev pub upsert : {A : Type 0} → (A → Bool) → (A → A) → A → List A → List A
upsert is_it change new [] = new ∷ []
upsert is_it change new (r ∷ rs) =
    let rest = upsert is_it change new rs in if is_it r then change r ∷ rs else r ∷ rest

unfoldable pub set_setting : Text → Text → Registry → Registry
set_setting key value s = record s {
  app_settings =
      upsert (is_key key) (λ r. record r { value = value }) (record { key = key; value = value })
        s.app_settings;
}

abbrev pub value_of : Option UserSetting → Option Text
value_of none = none
value_of (some r) = some r.value

unfoldable pub get_user_setting : ℕ → Text → Registry → Option Text
get_user_setting user_id key s = value_of (find? (is_user_key user_id key) s.user_settings)

abbrev pub drop : ℕ → Text → Text
drop zero t = t
drop (suc n) [] = []
drop (suc n) (c ∷ cs) = drop n cs

-- SUBSTR(value, start), whose positions start at 1.
abbrev pub substr : Text → ℕ → Text
substr t start = drop (start - 1) t

abbrev pub last4 : Text → Text
last4 value = substr value (if ltb 4 (length value) then length value - 3 else 1)

abbrev pub last4_of : Option UserSetting → Text
last4_of none = []
last4_of (some r) = last4 r.value

unfoldable pub get_user_setting_last4 : ℕ → Text → Registry → Text
get_user_setting_last4 user_id key s = last4_of (find? (is_user_key user_id key) s.user_settings)

unfoldable pub set_user_setting : ℕ → Text → Text → Registry → Registry
set_user_setting user_id key value s = record s {
  user_settings =
      upsert (is_user_key user_id key) (λ r. record r { value = value })
        (record { user_id = user_id; key = key; value = value }) s.user_settings;
}

-- `x and y` of two settings, one of which may be unset or empty.
abbrev pub is_given : Option Text → Bool
is_given none = false
is_given (some t) = not (is_empty t)

abbrev pub given : Option Text → Text
given none = []
given (some t) = t

abbrev pub hosts_of : ℕ → Registry → List HostRow
hosts_of user_id s = filter (λ r. r.user_id == user_id) s.hosts

-- The constraints PRIMARY KEY (id) and UNIQUE (user_id, url).
abbrev pub has_id : ℕ → List HostRow → Bool
has_id id rows = any (λ r. r.host.id == id) rows

abbrev pub has_url : ℕ → Text → List HostRow → Bool
has_url user_id url rows = any (λ r. r.user_id == user_id && same_text r.host.url url) rows

abbrev pub insert_host : HostRow → Registry → Registry
insert_host r s = record s { hosts = s.hosts ++ r ∷ [] }

abbrev pub migrated : ℕ → ℕ → ℕ → Text → Text → HostRow
migrated now id user_id url api_key = record {
  user_id = user_id;
  api_key = api_key;
  updated_at = now;
  host = record {
    id = id;
    url = url;
    label = text "default";
    capability_labels = [];
    drain_reason = none;
  };
}

-- The lazy migration, where the user has no host.
unfoldable pub migrate :
    ℕ → ℕ → ℕ → Option Text → Option Text → Registry → Outcome (List HostRow) × Registry
migrate now id user_id url api_key s =
    let t = insert_host (migrated now id user_id (given url) (given api_key)) s in
    if not (is_given url && is_given api_key)
    then (ok [], s)
    else if has_url user_id (given url) s.hosts
    then (ok (hosts_of user_id s), s)
    else if has_id id s.hosts
    then (err integrity_error, s)
    else (ok (hosts_of user_id t), t)

unfoldable pub get_dispatch_hosts : ℕ → ℕ → ℕ → Registry → Outcome (List HostRow) × Registry
get_dispatch_hosts now id user_id s =
    if not (is_nil (hosts_of user_id s))
    then (ok (hosts_of user_id s), s)
    else migrate now id user_id (get_user_setting user_id (text "dispatch.service_url") s)
        (get_user_setting user_id (text "dispatch.service_api_key") s) s

abbrev pub new_host_drain_reason : Text
new_host_drain_reason = text "new host: awaiting smoke test"

-- The labels that are not yet in `seen`, each once and in the normal form.
unfoldable pub normalize_from : List Text → List Text → List Text
normalize_from seen [] = []
normalize_from seen (raw ∷ labels) =
    let norm = lower (strip raw) in
    let skipped = normalize_from seen labels in
    let kept = norm ∷ normalize_from (norm ∷ seen) labels in
    if is_empty norm || mem_text norm seen then skipped else kept

unfoldable pub normalize_labels : List Text → List Text
normalize_labels = normalize_from []

-- `SELECT * ... WHERE id = $1`, and the assertion that the row is there.
abbrev pub reread : ℕ → Registry → Outcome (Option HostRow)
reread id s = elim (find? (λ r. r.host.id == id) s.hosts) [
  | none ↦ err missing_row
  | some r ↦ ok (some r)
]

abbrev pub new_host_row : ℕ → ℕ → ℕ → Text → Text → Text → List Text → Bool → HostRow
new_host_row now id user_id label url api_key capability_labels start_drained = record {
  user_id = user_id;
  api_key = api_key;
  updated_at = now;
  host = record {
    id = id;
    url = url;
    label = label;
    capability_labels = normalize_labels capability_labels;
    drain_reason = if start_drained then some new_host_drain_reason else none;
  };
}

unfoldable pub add_dispatch_host :
    ℕ
    → ℕ
    → ℕ
    → Text
    → Text
    → Text
    → List Text
    → Bool
    → Registry
    → Outcome (Option HostRow) × Registry
add_dispatch_host now id user_id label url api_key capability_labels start_drained s =
    let new = new_host_row now id user_id label url api_key capability_labels start_drained in
    let t = insert_host new s in
    if has_id id s.hosts || has_url user_id url s.hosts
    then (err duplicate_url, s)
    else (reread id t, t)

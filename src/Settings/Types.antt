-- ===== src/Settings/Types.antt =====
-- The tables of the settings (src/agent_gtd/database.py), and how a call on them ends.
use agent_gtd.Prelude.{ℕ, List}
use agent_gtd.Text.{Text}
use agent_gtd.Router.Types.{Host}

-- app_settings
pub record AppSetting : Type 0 where
  pub key : Text
  pub value : Text

-- user_settings
pub record UserSetting : Type 0 where
  pub user_id : ℕ
  pub key : Text
  pub value : Text

-- dispatch_hosts; `host` has the columns that the router reads.
pub record HostRow : Type 0 where
  pub user_id : ℕ
  pub api_key : Text
  pub updated_at : ℕ
  pub host : Host

-- The hosts are in the order of `created_at`.
pub record Registry : Type 0 where
  pub app_settings : List AppSetting
  pub user_settings : List UserSetting
  pub hosts : List HostRow

-- What is raised. `integrity_error` is the database's own, `missing_row` a failed assertion.
pub data SettingsError : Type 0 where
  duplicate_url reason_required not_drained unknown_host integrity_error missing_row : SettingsError
  ambiguous : List ℕ → SettingsError

pub data Outcome (A : Type 0) : Type 0 where
  ok : A → Outcome A
  err : SettingsError → Outcome A

-- The second answer of `resolve_dispatch_host`.
pub data ResolvedBy : Type 0 where
  by_id by_label by_url_substring : ResolvedBy

-- `{"url": ..., "api_key": ...}`
pub record DispatchConfig : Type 0 where
  pub url : Text
  pub api_key : Text

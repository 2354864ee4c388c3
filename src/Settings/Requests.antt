-- ===== src/Settings/Requests.antt =====
-- Sequences of calls of src/agent_gtd/services/settings_service.py by any users, and what no such
-- sequence breaks.
use agent_gtd.Prelude.{ℕ, Bool, Option, List, [], ◌∷◌}
use agent_gtd.Text.{Text}
use agent_gtd.Settings.Types.{Registry}
use agent_gtd.Settings.{set_setting, set_user_setting, get_dispatch_hosts, add_dispatch_host}
use agent_gtd.Settings.Hosts.{
  update_dispatch_host, drain_dispatch_host, undrain_dispatch_host, set_dispatch_host_drain,
  clear_dispatch_host_drain, remove_dispatch_host,
}

-- A call, with the user it is for. `fresh` is the id that a migration would take.
pub data Request : Type 0 where
  set_app : (key value : Text) → Request
  set_own : (key value : Text) → Request
  get_hosts : ℕ → Request
  add_host :
      (id : ℕ) (label url api_key : Text) (labels : List Text) (start_drained : Bool) → Request
  set_labels : ℕ → List Text → Request
  drain_host : ℕ → Option Text → Request
  undrain_host : ℕ → Request
  set_drain : (fresh : ℕ) (host_ref : Text) (reason : Option Text) → Request
  clear_drain : (fresh : ℕ) (host_ref : Text) → Request
  remove_host : ℕ → Request

module _ (now : ℕ) (uuid : ℕ → Text) (user_id : ℕ) where
  unfoldable pub handle : Request → Registry → Registry
  handle (set_app key value) s = set_setting key value s
  handle (set_own key value) s = set_user_setting user_id key value s
  handle (get_hosts fresh) s = (get_dispatch_hosts now fresh user_id s).1
  handle (add_host id label url api_key labels drained) s =
      (add_dispatch_host now id user_id label url api_key labels drained s).1
  handle (set_labels id labels) s = (update_dispatch_host now user_id id labels s).1
  handle (drain_host id reason) s = (drain_dispatch_host now user_id id reason s).1
  handle (undrain_host id) s = (undrain_dispatch_host now user_id id s).1
  handle (set_drain fresh host_ref reason) s =
      (set_dispatch_host_drain now fresh uuid user_id host_ref reason s).1
  handle (clear_drain fresh host_ref) s =
      (clear_dispatch_host_drain now fresh uuid user_id host_ref s).1
  handle (remove_host id) s = (remove_dispatch_host user_id id s).1

-- Each request with the time and the user.
unfoldable pub handle_all : (ℕ → Text) → List (ℕ × ℕ × Request) → Registry → Registry
handle_all uuid [] s = s
handle_all uuid ((now, user_id, r) ∷ rs) s = handle_all uuid rs (handle now uuid user_id r s)

-- ===== src/Examples/Settings.antt =====
-- Runs of the theorems on two hosts, one of which gets drained.
use agent_gtd.Prelude.{◌≡◌, ℕ, refl, true, false, ◌&&◌, Option, some, List, [], ◌∷◌, ◌==◌}
use agent_gtd.Text.{Text, text, strip, lstrip, is_space, same_text}
use agent_gtd.Router.Types.{Host, Fetched, chosen, host_draining}
use agent_gtd.Router.{pick_auto, pick_pinned, pin_skip}
use agent_gtd.Router.Choice.{In}
use agent_gtd.Settings.Types.{HostRow, Registry, ok}
use agent_gtd.Examples.Data.{host_row, registry}
use agent_gtd.Settings.{
  get_user_setting, set_user_setting, get_user_setting_last4, get_dispatch_hosts,
}
use agent_gtd.Settings.Hosts.{
  set_dispatch_host_drain, resolve_dispatch_host, resolve_among, drain_resolved,
  drain_dispatch_host, drain_found, with_drain,
}
use agent_gtd.Settings.Store.{IsTail, set_user_setting-get}
use agent_gtd.Settings.Rows.{well_formed}
use agent_gtd.Settings.Requests.{
  Request, handle_all, set_own, get_hosts, add_host, set_drain, remove_host,
}
use agent_gtd.Settings.Sound.{handle_all-Sound}
use agent_gtd.Settings.Lookup.{routed}
use agent_gtd.Settings.Rotation.{set_dispatch_host_drain-routing}

abbrev uuid : ℕ → Text
uuid id = id ∷ []

abbrev drained_b : HostRow
drained_b = with_drain 9 (some (text "upgrade")) (host_row 2 (text "b"))

abbrev drained : Registry
drained = (set_dispatch_host_drain 9 30 uuid 5 (text "b") (some (text " upgrade ")) registry).1

drain_b :
    (set_dispatch_host_drain 9 30 uuid 5 (text "b") (some (text " upgrade ")) registry).0
    ≡ ok (some drained_b)
unfolding set_dispatch_host_drain resolve_dispatch_host get_dispatch_hosts resolve_among
    drain_resolved drain_dispatch_host drain_found strip lstrip is_space
drain_b = refl

set_dispatch_host_drain-routing_example :
    In drained_b.host (routed 5 drained)
    × ((fetch_info : Text → Fetched) (engine : Text) (agent : Option Text)
          (required exclude : List Text) (h : Host)
        → pick_auto fetch_info engine agent required exclude (routed 5 drained) ≡ chosen h
        → (h.id == drained_b.host.id) ≡ false)
    × ((fetch_info : Text → Fetched) (engine : Text) (agent : Option Text) (required : List Text)
        → pick_pinned fetch_info engine agent required drained_b.host.id false (routed 5 drained)
          ≡ host_draining (pin_skip drained_b.host ∷ []))
set_dispatch_host_drain-routing_example =
    set_dispatch_host_drain-routing 9 30 uuid 5 (text "b") (some (text " upgrade ")) registry
      drained_b refl drain_b

set_user_setting-get_example :
    let t = set_user_setting 5 (text "anthropic_key") (text "sk-secret") registry in
    (get_user_setting 5 (text "anthropic_key") t ≡ some (text "sk-secret"))
    × IsTail (get_user_setting_last4 5 (text "anthropic_key") t) (text "sk-secret")
    × ((v : ℕ) (l : Text)
        → (v == 5 && same_text l (text "anthropic_key")) ≡ false
        → get_user_setting v l t ≡ get_user_setting v l registry)
set_user_setting-get_example =
    set_user_setting-get 5 (text "anthropic_key") (text "sk-secret") registry

abbrev requests : List (ℕ × ℕ × Request)
requests =
    (2, 5, add_host 3 (text "c") (text "http://c") (text "key") (text " GPU" ∷ []) true)
    ∷ (3, 5, set_drain 30 (text "b") (some (text " upgrade ")))
    ∷ (4, 6, set_own (text "dispatch.service_url") (text "http://d"))
    ∷ (5, 6, get_hosts 4)
    ∷ (6, 5, remove_host 1)
    ∷ []

handle_all-Sound_example : well_formed (handle_all uuid requests registry).hosts ≡ true
handle_all-Sound_example = handle_all-Sound uuid requests registry refl

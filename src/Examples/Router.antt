-- ===== src/Examples/Router.antt =====
-- Runs of the theorems on three hosts: one drained, two that answer.
use agent_gtd.Prelude.{
  ℕ, ◌≡◌, ◌↔◌, refl, inl, true, false, not, ◌&&◌, ◌||◌, Option, none, some, List, [], ◌∷◌, any, all,
  find?, ◌==◌,
}
use agent_gtd.Text.{Text, text, same_text, strip, lstrip, is_space, lower}
use agent_gtd.Router.Types.{Host, Info, Fetched, answered, chosen}
use agent_gtd.Router.{pick_auto, pick_pinned, is_drained, qualified, is_nil, missing}
use agent_gtd.Router.Auto.{IsCandidate, pick_auto_complete}
use agent_gtd.Router.Refusals.{
  raises_draining, raises_unmet, available, waits_for_label, pick_auto_blames,
}
use agent_gtd.Router.Pinned.{can_run, pick_pinned_iff}

abbrev host : ℕ → Text → Option Text → Host
host id url drain = record {
  id = id;
  url = url;
  label = [];
  capability_labels = text "GPU" ∷ [];
  drain_reason = drain;
}

abbrev info : ℕ → Info
info active = record {
  engines = text "engine" ∷ [];
  agents = [];
  max_concurrent_runs = 4;
  active_runs = active;
  parked_rollout_loops = 0;
}

abbrev fetch_info : Text → Fetched
fetch_info url = elim (same_text url (text "a")) [
  | true ↦ answered (info 3)
  | false ↦ answered (info 1)
]

abbrev host_a : Host
host_a = host 1 (text "a") none

abbrev host_b : Host
host_b = host 2 (text "b") none

abbrev hosts : List Host
hosts = host_a ∷ host 3 (text "c") (some (text "upgrade")) ∷ host_b ∷ []

abbrev required : List Text
required = text "gpu" ∷ []

host_a-IsCandidate : IsCandidate fetch_info (text "engine") none required [] host_a (info 3)
unfolding missing strip lstrip is_space lower
host_a-IsCandidate = record { in_rotation = refl; labelled = refl; answers = refl; accepted = refl }

pick_auto_complete_example :
    (h : Host) × (pick_auto fetch_info (text "engine") none required [] hosts ≡ chosen h)
pick_auto_complete_example =
    pick_auto_complete fetch_info (text "engine") none required [] hosts host_a (info 3) (inl refl)
      host_a-IsCandidate

pick_auto_blames_example :
    let r = pick_auto fetch_info (text "engine") none required [] hosts in
    (raises_draining r ≡ (
      any is_drained hosts
      && not (available fetch_info (text "engine") none required [] hosts)
      && (all is_drained hosts
          || waits_for_label fetch_info (text "engine") none required [] hosts)))
    × (raises_unmet r ≡ (
        not (is_nil required)
        && not (available fetch_info (text "engine") none required [] hosts)
        && not (waits_for_label fetch_info (text "engine") none required [] hosts)
        && not (any is_drained hosts && all is_drained hosts)))
pick_auto_blames_example = pick_auto_blames fetch_info (text "engine") none required [] hosts

pick_pinned_iff_example :
    (pick_pinned fetch_info (text "engine") none required 2 false hosts ≡ chosen host_b) ↔ (
      (find? (λ g. g.id == 2) hosts ≡ some host_b)
      × ((not (is_drained host_b) || false) ≡ true)
      × (qualified required host_b ≡ true)
      × (can_run (text "engine") none (fetch_info host_b.url) ≡ true))
pick_pinned_iff_example =
    pick_pinned_iff fetch_info (text "engine") none required 2 false hosts host_b

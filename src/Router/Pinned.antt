-- ===== src/Router/Pinned.antt =====
-- A run that names its host.
use agent_gtd.Prelude.{
  ℕ, ◌≡◌, ◌↔◌, arith, Bool, true, false, not, ◌&&◌, ◌||◌, Option, some, List, ◌==◌, find?,
  Option-cases, inl, inr,
}
use agent_gtd.Text.{Text, mem_text}
use agent_gtd.Router.Types.{Host, Fetched, answered, failed, chosen}
use agent_gtd.Router.{
  is_drained, qualified, lacks_agent, is_full, check_pinned, pick_found, pick_pinned,
}

-- The host answers that it has the engine, the agent and room for a run.
abbrev pub can_run : Text → Option Text → Fetched → Bool
can_run engine agent_name (failed e) = false
can_run engine agent_name (answered i) =
    mem_text engine i.engines && (not (lacks_agent agent_name i) && not (is_full i))

module _ (fetch_info : Text → Fetched) (engine : Text) (agent_name : Option Text)
    (required : List Text) where
  check_pinned-chosen :
      (g h : Host) (f : Fetched)
      → (check_pinned fetch_info engine agent_name required g f ≡ chosen h)
        ↔ ((g ≡ h) × (can_run engine agent_name f ≡ true))
  unfolding check_pinned
  check_pinned-chosen g h (failed e) = (λ k. cc, λ (same, k). cc)
  check_pinned-chosen g h (answered i) = (λ k. ground arith, λ (same, k). ground arith)

  -- A run that names its host gets that host or none: it gets it exactly when the id is of that
  -- host, the host is in rotation or the caller allows a drained one, and it has every required
  -- label, the engine, the agent and room.
  pub pick_pinned_iff :
      (target_host_id : ℕ) (allow : Bool) (hosts : List Host) (h : Host)
      → (pick_pinned fetch_info engine agent_name required target_host_id allow hosts ≡ chosen h)
        ↔ ((find? (λ g. g.id == target_host_id) hosts ≡ some h)
            × ((not (is_drained h) || allow) ≡ true)
            × (qualified required h ≡ true)
            × (can_run engine agent_name (fetch_info h.url) ≡ true))
  unfolding pick_pinned pick_found
  pick_pinned_iff target_host_id allow hosts h =
      elim (Option-cases (find? (λ g. g.id == target_host_id) hosts)) [
        | inl nobody ↦ (λ k. ground arith, λ (found, turning, labelled, runs). ground arith)
        | inr (g, found) ↦ (
          λ k. let q = check_pinned-chosen g h (fetch_info g.url) in ground (arith, q.0),
          λ (same, turning, labelled, runs).
              let q = check_pinned-chosen g h (fetch_info g.url) in ground (arith, q.1),
        )
      ]

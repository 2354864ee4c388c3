-- ===== src/Router.antt =====
-- src/agent_gtd/services/dispatch_router.py: the choice of a host for a run. What the hosts
-- answer to GET /info is an argument. Labels are ASCII. The rationale that the code attaches to
-- the chosen host, and the texts of the messages, are left out. A set of labels is a list, in any
-- order and with any repetition.
pub mod Types
pub mod Refusals
pub mod Choice
pub mod Auto
pub mod Pinned
use agent_gtd.Prelude.{
  ℕ, ◌+◌, Bool, true, false, not, ◌&&◌, ◌||◌, Option, none, some, List, [], ◌∷◌, ◌++◌, map, ltb,
  leb, ◌==◌, if◌then◌else◌, filter, any, find?,
}
use agent_gtd.Text.{Text, strip, lower, is_empty, mem_text}
use agent_gtd.Router.Types.{
  Host, Info, Fetched, answered, failed, Failure, classify_info_failure, Reason, draining, verbatim,
  missing_labels, at_capacity, no_info, no_engine, no_agent, Skip, Routing, chosen, not_found,
  host_draining, unmet_capability, no_compatible_host, host_full,
}

-- `_norm_label`
abbrev pub norm_label : Text → Text
norm_label label = lower (strip label)

-- `_host_capability_labels`
abbrev pub host_capability_labels : Host → List Text
host_capability_labels h = map norm_label h.capability_labels

-- `_missing_labels`. The message sorts them.
unfoldable pub missing : List Text → Host → List Text
missing required h = filter (λ l. not (mem_text l (host_capability_labels h))) required

abbrev pub is_nil : {A : Type 0} → List A → Bool
is_nil [] = true
is_nil (x ∷ xs) = false

abbrev pub qualified : List Text → Host → Bool
qualified required h = is_nil (missing required h)

-- `host.get("label") or host.get("url")`
abbrev pub host_label : Host → Text
host_label h = if is_empty h.label then h.url else h.label

abbrev pub skip : Host → Reason → Skip
skip h reason = record { host = host_label h; reason = reason }

abbrev pub is_drained : Host → Bool
is_drained h = elim h.drain_reason [ none ↦ false | some reason ↦ true ]

-- `draining: <reason>`
abbrev pub drain_skip : Host → Skip
drain_skip h = skip h (elim h.drain_reason [ none ↦ draining [] | some reason ↦ draining reason ])

-- The entry of a drained host that was named.
abbrev pub pin_skip : Host → Skip
pin_skip h = skip h (elim h.drain_reason [ none ↦ verbatim [] | some reason ↦ verbatim reason ])

-- `max_concurrent_runs - active_runs - parked_rollout_loops` is `max_concurrent_runs - busy`, an
-- integer. Two such differences are compared with both `busy` moved to the other side.
abbrev pub busy : Info → ℕ
busy i = i.active_runs + i.parked_rollout_loops

abbrev pub is_full : Info → Bool
is_full i = leb i.max_concurrent_runs (busy i)

-- `i` has less available capacity than `j`.
abbrev pub has_less : Info → Info → Bool
has_less i j = ltb (i.max_concurrent_runs + busy j) (j.max_concurrent_runs + busy i)

-- `agent_name and agent_name not in agents`
abbrev pub lacks_agent : Option Text → Info → Bool
lacks_agent none i = false
lacks_agent (some a) i = not (is_empty a) && not (mem_text a i.agents)

module _ (fetch_info : Text → Fetched) (engine : Text) (agent_name : Option Text)
    (required : List Text) where
  -- What is left of a check once /info is there.
  unfoldable pub check_pinned : Host → Fetched → Routing
  check_pinned h (failed e) = no_compatible_host (skip h (no_info (classify_info_failure e)) ∷ [])
  check_pinned h (answered i) =
      if not (mem_text engine i.engines)
      then no_compatible_host (skip h (no_engine engine) ∷ [])
      else if lacks_agent agent_name i
      then no_compatible_host (skip h no_agent ∷ [])
      else if is_full i
      then host_full h
      else chosen h

  -- The targeted branch, from the host that was found on.
  unfoldable pub pick_found : Bool → Host → Routing
  pick_found allow_drained_host h =
      if is_drained h && not allow_drained_host
      then host_draining (pin_skip h ∷ [])
      else if not (qualified required h)
      then unmet_capability required (skip h (missing_labels (missing required h)) ∷ [])
      else check_pinned h (fetch_info h.url)

  unfoldable pub pick_pinned : ℕ → Bool → List Host → Routing
  pick_pinned target_host_id allow_drained_host hosts =
      elim (find? (λ h. h.id == target_host_id) hosts) [
        | none ↦ not_found target_host_id
        | some h ↦ pick_found allow_drained_host h
      ]

  abbrev pub Candidates : Type 0
  Candidates = List (Host × Info)

  -- Why a host with this answer is no candidate.
  unfoldable pub reason_for : List Text → Host → Fetched → Option Reason
  reason_for exclude_urls h f = if mem_text h.url exclude_urls then some at_capacity else elim f [
    | failed e ↦ some (no_info (classify_info_failure e))
    | answered i ↦
        if not (mem_text engine i.engines)
        then some (no_engine engine)
        else if lacks_agent agent_name i
        then some no_agent
        else none
  ]

  -- The loop over the hosts and their answers, with the candidates and the skips that it appends.
  unfoldable pub sieve : List Text → List Host → Candidates × List Skip
  sieve exclude_urls [] = ([], [])
  sieve exclude_urls (h ∷ hosts) =
      let (candidates, skipped) = sieve exclude_urls hosts in
      elim (reason_for exclude_urls h (fetch_info h.url)) [
        | some reason ↦ (candidates, skip h reason ∷ skipped)
        | none ↦ elim (fetch_info h.url) [
          | failed e ↦ (candidates, skipped)
          | answered i ↦ ((h, i) ∷ candidates, skipped)
        ]
      ]

  -- `max(candidates, key=…)`, the first of the largest, with the largest so far.
  unfoldable pub best_from : Host × Info → Candidates → Host × Info
  best_from (h, i) [] = (h, i)
  best_from (h, i) ((g, j) ∷ rest) = best_from (if has_less i j then (g, j) else (h, i)) rest

  unfoldable pub rank : List Skip → Candidates → Routing
  rank skipped [] = no_compatible_host skipped
  rank skipped (c ∷ rest) = chosen (best_from c rest).0

  -- When no host that is not drained has the labels.
  unfoldable pub no_label_match : List Host → List Host → Routing
  no_label_match drained remaining =
      let waiting = filter (qualified required) drained in
      let label_skipped = map (λ h. skip h (missing_labels (missing required h))) remaining in
      if is_nil waiting
      then unmet_capability required (map drain_skip drained ++ label_skipped)
      else host_draining (map drain_skip waiting)

  -- The label filter, and what follows it.
  unfoldable pub pick_among : List Text → List Host → List Host → Routing
  pick_among exclude_urls drained remaining =
      let hosts = filter (qualified required) remaining in
      let label_skipped =
        map (λ h. skip h (missing_labels (missing required h)))
          (filter (λ h. not (qualified required h)) remaining) in
      let (candidates, skipped) = sieve exclude_urls hosts in
      if not (is_nil required) && is_nil hosts
      then no_label_match drained remaining
      else rank ((map drain_skip drained ++ label_skipped) ++ skipped) candidates

  unfoldable pub pick_auto : List Text → List Host → Routing
  pick_auto exclude_urls hosts =
      let drained = filter is_drained hosts in
      let remaining = filter (λ h. not (is_drained h)) hosts in
      if not (is_nil drained) && is_nil remaining
      then host_draining (map drain_skip drained)
      else pick_among exclude_urls drained remaining

  unfoldable pub route : Option ℕ → List Text → Bool → List Host → Routing
  route target_host_id exclude_urls allow_drained_host hosts = elim target_host_id [
    | none ↦ pick_auto exclude_urls hosts
    | some id ↦ pick_pinned id allow_drained_host hosts
  ]

-- The labels are compared in their normal form.
unfoldable pub pick_dispatch_host :
    (Text → Fetched)
    → Text
    → Option Text
    → List Text
    → Option ℕ
    → List Text
    → Bool
    → List Host
    → Routing
pick_dispatch_host fetch_info engine agent_name required_labels =
    route fetch_info engine agent_name (map norm_label required_labels)

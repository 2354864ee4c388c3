-- ===== src/Router/Refusals.antt =====
-- Why automatic routing raises.
use agent_gtd.Prelude.{
  ◌≡◌, refl, arith, Bool, true, false, not, ◌&&◌, ◌||◌, Option, List, [], ◌∷◌, ◌++◌, map, filter,
  any, all,
}
use agent_gtd.Text.{Text}
use agent_gtd.Router.Types.{
  Host, Fetched, Info, Routing, host_draining, unmet_capability, Skip, missing_labels,
}
use agent_gtd.Router.{
  is_drained, qualified, sieve, rank, pick_among, pick_auto, no_label_match, is_nil, missing, skip,
  drain_skip,
}

abbrev pub raises_draining : Routing → Bool
raises_draining (host_draining checked) = true
raises_draining _ = false

abbrev pub raises_unmet : Routing → Bool
raises_unmet (unmet_capability labels checked) = true
raises_unmet _ = false

is_nil-filter : {A : Type 0} (p : A → Bool) (xs : List A) → is_nil (filter p xs) ≡ not (any p xs)
is_nil-filter p [] = refl
is_nil-filter p (x ∷ xs) = ground (arith, is_nil-filter p xs)

any-filter :
    {A : Type 0} (p q : A → Bool) (xs : List A) → any p (filter q xs) ≡ any (λ x. q x && p x) xs
any-filter p q [] = refl
any-filter p q (x ∷ xs) = ground (arith, any-filter p q xs)

any-not : {A : Type 0} (p : A → Bool) (xs : List A) → any (λ x. not (p x)) xs ≡ not (all p xs)
any-not p [] = refl
any-not p (x ∷ xs) = ground (arith, any-not p xs)

any_weaken :
    {A : Type 0} (p q : A → Bool) (xs : List A)
    → any (λ x. not (p x) && q x) xs ≡ true
    → all p xs ≡ false
any_weaken p q [] h = ground arith
any_weaken p q (x ∷ xs) h = ground (arith, any_weaken p q xs)

any_nil :
    (required : List Text) (hosts : List Host)
    → is_nil required ≡ true
    → any (λ h. not (is_drained h) && qualified required h) hosts ≡ not (all is_drained hosts)
unfolding missing
any_nil [] [] e = refl
any_nil [] (h ∷ hosts) e = ground (arith, any_nil [] hosts)
any_nil (r ∷ rs) hosts e = ground arith

module _ (fetch_info : Text → Fetched) (engine : Text) (agent_name : Option Text)
    (required exclude_urls : List Text) where
  rank-raises :
      (skipped : List Skip) (cs : List (Host × Info))
      → (raises_draining (rank fetch_info engine agent_name required skipped cs) ≡ false)
        × (raises_unmet (rank fetch_info engine agent_name required skipped cs) ≡ false)
  unfolding rank
  rank-raises skipped [] = (refl, refl)
  rank-raises skipped (c ∷ cs) = (refl, refl)

  abbrev pub available : List Host → Bool
  available hosts = any (λ h. not (is_drained h) && qualified required h) hosts

  abbrev pub waits_for_label : List Host → Bool
  waits_for_label hosts = any (λ h. is_drained h && qualified required h) hosts

  -- The drain is blamed exactly when some host is drained, no host in rotation has the labels,
  -- and either no host is in rotation or some drained host has them. A missing label is blamed
  -- exactly when labels are required, no host at all has them, and some host is in rotation or
  -- there are no hosts.
  pub pick_auto_blames :
      (hosts : List Host)
      → let r = pick_auto fetch_info engine agent_name required exclude_urls hosts in
        (raises_draining r ≡ (
          any is_drained hosts
          && not (available hosts)
          && (all is_drained hosts || waits_for_label hosts)))
        × (raises_unmet r ≡ (
            not (is_nil required)
            && not (available hosts)
            && not (waits_for_label hosts)
            && not (any is_drained hosts && all is_drained hosts)))
  unfolding pick_auto pick_among no_label_match
  pick_auto_blames hosts =
      let drained = filter is_drained hosts in
      let remaining = filter (λ h. not (is_drained h)) hosts in
      let swept =
        sieve fetch_info engine agent_name required exclude_urls
          (filter (qualified required) remaining) in
      ground (
        arith,
        rank-raises
            ((map drain_skip drained
                ++ map (λ h. skip h (missing_labels (missing required h)))
                    (filter (λ h. not (qualified required h)) remaining))
              ++ swept.1)
            swept.0,
        is_nil-filter is_drained hosts,
        is_nil-filter (λ h. not (is_drained h)) hosts,
        is_nil-filter (qualified required) remaining,
        is_nil-filter (qualified required) drained,
        any-filter (qualified required) (λ h. not (is_drained h)) hosts,
        any-filter (qualified required) is_drained hosts,
        any-not is_drained hosts,
        any_weaken is_drained (qualified required) hosts,
        any_nil required hosts,
      )

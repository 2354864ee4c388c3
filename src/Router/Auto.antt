-- ===== src/Router/Auto.antt =====
-- Automatic routing: whom it chooses, and when it chooses at all.
use mathlib.Core.Path.{subst}
use agent_gtd.Prelude.{
  ◌≡◌, ◌∙◌, sym, refl, arith, Bool, true, false, not, Option, List, [], ◌∷◌, ◌++◌, map, filter,
}
use agent_gtd.Text.{Text}
use agent_gtd.Router.Types.{Host, Info, Fetched, answered, Routing, chosen, Skip, missing_labels}
use agent_gtd.Router.{
  is_drained, qualified, missing, has_less, sieve, rank, pick_among, pick_auto, no_label_match,
  is_nil, drain_skip, skip,
}
use agent_gtd.Router.Choice.{In, accepts, sieve_sound, sieve_complete, rank_chosen, rank_some}

In-filter :
    {A : Type 0} (p : A → Bool) (a : A) (xs : List A) → In a (filter p xs) → In a xs × (p a ≡ true)
In-filter p a [] m = absurd m
In-filter p a (x ∷ xs) m = ground (arith, In-filter p a xs)

filter-In :
    {A : Type 0} (p : A → Bool) (a : A) (xs : List A) → In a xs → p a ≡ true → In a (filter p xs)
filter-In p a [] m h = m
filter-In p a (x ∷ xs) m h = ground (arith, filter-In p a xs)

qualified_nil :
    (required : List Text) (h : Host) → is_nil required ≡ true → qualified required h ≡ true
unfolding missing
qualified_nil [] h e = refl
qualified_nil (r ∷ rs) h e = ground arith

module _ (fetch_info : Text → Fetched) (engine : Text) (agent_name : Option Text)
    (required exclude_urls : List Text) where
  -- The host is in rotation, has every label, is not excluded, and its answer names the engine
  -- and the agent.
  pub record IsCandidate (h : Host) (i : Info) : Type 0 where
    pub in_rotation : is_drained h ≡ false
    pub labelled : qualified required h ≡ true
    pub answers : fetch_info h.url ≡ answered i
    pub accepted : accepts engine agent_name exclude_urls h i ≡ true

  abbrev pick : List Host → Routing
  pick = pick_auto fetch_info engine agent_name required exclude_urls

  abbrev among : List Host → List Host → Routing
  among = pick_among fetch_info engine agent_name required exclude_urls

  abbrev ranked : List Skip → List Host → Routing
  ranked skipped hosts =
      rank fetch_info engine agent_name required skipped
        (sieve fetch_info engine agent_name required exclude_urls hosts).0

  abbrev label_skips : List Host → List Skip
  label_skips remaining =
      map (λ h. skip h (missing_labels (missing required h)))
        (filter (λ h. not (qualified required h)) remaining)

  abbrev skips : List Host → List Host → List Skip
  skips drained remaining =
      (map drain_skip drained ++ label_skips remaining)
      ++ (sieve fetch_info engine agent_name required exclude_urls
          (filter (qualified required) remaining)).1

  among-ranked :
      (drained remaining : List Host) (h : Host)
      → among drained remaining ≡ chosen h
      → ranked (skips drained remaining) (filter (qualified required) remaining) ≡ chosen h
  unfolding pick_among no_label_match
  among-ranked drained remaining h e = ground arith

  pick-ranked :
      (hosts : List Host) (h : Host)
      → pick hosts ≡ chosen h
      → ranked
          (skips (filter is_drained hosts) (filter (λ g. not (is_drained g)) hosts))
          (filter (qualified required) (filter (λ g. not (is_drained g)) hosts))
        ≡ chosen h
  unfolding pick_auto
  pick-ranked hosts h e =
      let drained = filter is_drained hosts in
      let remaining = filter (λ g. not (is_drained g)) hosts in
      ground (arith, among-ranked drained remaining h)

  abbrev rotation : List Host → List Host
  rotation hosts = filter (λ g. not (is_drained g)) hosts

  cands : List Host → List (Host × Info)
  cands hosts =
      (sieve fetch_info engine agent_name required exclude_urls
        (filter (qualified required) (rotation hosts))).0

  cands-IsCandidate :
      (hosts : List Host) (h : Host) (i : Info)
      → In (h, i) (cands hosts)
      → In h hosts × IsCandidate h i
  unfolding cands
  cands-IsCandidate hosts h i m =
      let (there, answers, accepted) =
        sieve_sound fetch_info engine agent_name required exclude_urls
          (filter (qualified required) (rotation hosts)) h i m in
      let (rotating, labelled) = In-filter (qualified required) h (rotation hosts) there in
      let (listed, undrained) = In-filter (λ g. not (is_drained g)) h hosts rotating in
      (
        listed,
        record {
          in_rotation = ground arith;
          labelled = labelled;
          answers = answers;
          accepted = accepted;
        },
      )

  IsCandidate-cands :
      (hosts : List Host) (h : Host) (i : Info)
      → In h hosts
      → IsCandidate h i
      → In (h, i) (cands hosts)
  unfolding cands
  IsCandidate-cands hosts h i m c =
      sieve_complete fetch_info engine agent_name required exclude_urls
        (filter (qualified required) (rotation hosts)) h i
        (filter-In (qualified required) h (rotation hosts)
          (filter-In (λ g. not (is_drained g)) h hosts m (ground arith)) c.labelled)
        c.answers c.accepted

  pub pick_auto_sound :
      (hosts : List Host) (h : Host)
      → pick hosts ≡ chosen h
      → (i : Info) × In h hosts
        × IsCandidate h i
        × ((g : Host) (j : Info) → In g hosts → IsCandidate g j → has_less i j ≡ false)
  unfolding cands
  pick_auto_sound hosts h e =
      let (c, same, there, best) =
        rank_chosen fetch_info engine agent_name required exclude_urls (cands hosts)
          (skips (filter is_drained hosts) (rotation hosts)) h (pick-ranked hosts h e) in
      let (listed, candidate) = cands-IsCandidate hosts c.0 c.1 there in
      (
        c.1,
        rw same listed,
        subst (λ k. IsCandidate k c.1) (sym same) candidate,
        λ g j m k. best (g, j) (IsCandidate-cands hosts g j m k),
      )

  among_some :
      (drained remaining : List Host) (g : Host)
      → In g (filter (qualified required) remaining)
      → among drained remaining
        ≡ ranked (skips drained remaining) (filter (qualified required) remaining)
  unfolding pick_among
  among_some drained remaining g m = go (filter (qualified required) remaining) m refl
    where
      go :
          (hs : List Host)
          → In g hs
          → filter (qualified required) remaining ≡ hs
          → among drained remaining
            ≡ ranked (skips drained remaining) (filter (qualified required) remaining)
      go [] k e = absurd k
      go (x ∷ xs) k e = ground arith

  pick_some :
      (hosts : List Host) (g : Host)
      → In g (rotation hosts)
      → pick hosts ≡ among (filter is_drained hosts) (rotation hosts)
  unfolding pick_auto
  pick_some hosts g m = go (rotation hosts) m refl
    where
      go :
          (hs : List Host)
          → In g hs
          → rotation hosts ≡ hs
          → pick hosts ≡ among (filter is_drained hosts) (rotation hosts)
      go [] k e = absurd k
      go (x ∷ xs) k e = ground arith

  -- A host is chosen whenever some host is in rotation, has every label, is not excluded and
  -- answers that it has the engine and the agent.
  pub pick_auto_complete :
      (hosts : List Host) (g : Host) (j : Info)
      → In g hosts
      → IsCandidate g j
      → (h : Host) × (pick hosts ≡ chosen h)
  unfolding cands
  pick_auto_complete hosts g j m c =
      let turning = filter-In (λ k. not (is_drained k)) g hosts m (ground arith) in
      let labelled = filter-In (qualified required) g (rotation hosts) turning c.labelled in
      let (h, e) =
        rank_some fetch_info engine agent_name required exclude_urls (cands hosts)
          (skips (filter is_drained hosts) (rotation hosts)) (g, j)
          (IsCandidate-cands hosts g j m c) in
      (
        h,
        pick_some hosts g turning
            ∙ among_some (filter is_drained hosts) (rotation hosts) g labelled
            ∙ e,
      )

-- ===== src/Router/Choice.antt =====
-- The candidates of the router's loop, and the largest of them.
use agent_gtd.Prelude.{
  ◌≡◌, ◌⊎◌, inl, inr, refl, arith, Bool, true, false, not, ◌&&◌, Option, List, [], ◌∷◌,
  if◌then◌else◌, Bool-cases,
}
use agent_gtd.Text.{Text, mem_text}
use agent_gtd.Router.Types.{Host, Info, Fetched, answered, chosen, Skip}
use agent_gtd.Router.{lacks_agent, has_less, reason_for, sieve, best_from, rank}

abbrev pub In : {A : Type 0} → A → List A → Type 0
In a [] = ⊥
In a (x ∷ xs) = (a ≡ x) ⊎ In a xs

has_less_asym : (a b : Info) → has_less a b ≡ true → has_less b a ≡ false
has_less_asym a b h = ground arith

at_least_trans : (a b c : Info) → has_less a b ≡ false → has_less b c ≡ false → has_less a c ≡ false
at_least_trans a b c h k = ground arith

-- What the code checks of a host with an answer, when the labels have been checked.
abbrev pub accepts : Text → Option Text → List Text → Host → Info → Bool
accepts engine agent_name exclude_urls h i =
    not (mem_text h.url exclude_urls)
    && (mem_text engine i.engines && not (lacks_agent agent_name i))

module _ (fetch_info : Text → Fetched) (engine : Text) (agent_name : Option Text)
    (required exclude_urls : List Text) where
  abbrev candidates : List Host → List (Host × Info)
  candidates hosts = (sieve fetch_info engine agent_name required exclude_urls hosts).0

  pub sieve_sound :
      (hosts : List Host) (h : Host) (i : Info)
      → In (h, i) (candidates hosts)
      → In h hosts
        × (fetch_info h.url ≡ answered i)
        × (accepts engine agent_name exclude_urls h i ≡ true)
  unfolding sieve reason_for
  sieve_sound [] h i m = absurd m
  sieve_sound (g ∷ hosts) h i m = ground (arith, sieve_sound hosts h i)

  pub sieve_complete :
      (hosts : List Host) (h : Host) (i : Info)
      → In h hosts
      → fetch_info h.url ≡ answered i
      → accepts engine agent_name exclude_urls h i ≡ true
      → In (h, i) (candidates hosts)
  unfolding sieve reason_for
  sieve_complete [] h i m f a = m
  sieve_complete (g ∷ hosts) h i m f a = ground (arith, sieve_complete hosts h i)

  pub best_from-In :
      (c : Host × Info) (cs : List (Host × Info))
      → In (best_from fetch_info engine agent_name required c cs) (c ∷ cs)
  unfolding best_from
  best_from-In c [] = inl refl
  best_from-In c (d ∷ cs) = ground (arith, best_from-In (if has_less c.1 d.1 then d else c) cs)

  pub best_from-max :
      (c d : Host × Info) (cs : List (Host × Info))
      → In d (c ∷ cs)
      → has_less (best_from fetch_info engine agent_name required c cs).1 d.1 ≡ false
  unfolding best_from
  best_from-max c d [] m = ground arith
  best_from-max c d (e ∷ cs) m = elim (Bool-cases (has_less c.1 e.1)) [
    | inl below ↦ rw below (elim m [
      | inl same ↦
          at_least_trans (best_from fetch_info engine agent_name required e cs).1 e.1 d.1
            (best_from-max e e cs (inl refl)) (rw same (has_less_asym c.1 e.1 below))
      | inr later ↦ best_from-max e d cs later
    ])
    | inr above ↦ rw above (elim m [
      | inl same ↦ best_from-max c d cs (inl same)
      | inr (inl same) ↦
          at_least_trans (best_from fetch_info engine agent_name required c cs).1 c.1 d.1
            (best_from-max c c cs (inl refl)) (rw same above)
      | inr (inr later) ↦ best_from-max c d cs (inr later)
    ])
  ]

  -- The ranking chooses a candidate than which none has more capacity, if there is one.
  pub rank_chosen :
      (cs : List (Host × Info)) (skipped : List Skip) (h : Host)
      → rank fetch_info engine agent_name required skipped cs ≡ chosen h
      → (c : Host × Info) × (h ≡ c.0)
        × In c cs
        × ((d : Host × Info) → In d cs → has_less c.1 d.1 ≡ false)
  unfolding rank
  rank_chosen [] skipped h e = ground arith
  rank_chosen (c ∷ cs) skipped h e =
      let best = best_from fetch_info engine agent_name required c cs in
      (best, ground arith, best_from-In c cs, λ d m. best_from-max c d cs m)

  pub rank_some :
      (cs : List (Host × Info)) (skipped : List Skip) (d : Host × Info)
      → In d cs
      → (h : Host) × (rank fetch_info engine agent_name required skipped cs ≡ chosen h)
  unfolding rank
  rank_some [] skipped d m = absurd m
  rank_some (c ∷ cs) skipped d m = (_, refl)

  -- The skips change nothing of a choice.
  pub rank-skips :
      (cs : List (Host × Info)) (skipped others : List Skip) (h : Host)
      → rank fetch_info engine agent_name required skipped cs ≡ chosen h
      → rank fetch_info engine agent_name required others cs ≡ chosen h
  unfolding rank
  rank-skips [] skipped others h e = ground arith
  rank-skips (c ∷ cs) skipped others h e = e

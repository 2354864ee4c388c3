-- ===== src/Blockers/Search.antt =====
-- The whole search of `_would_create_cycle`: it ends, and finds the item exactly when the item
-- comes before the blocker already.
use agent_gtd.Prelude.{
  ℕ, zero, suc, ◌+◌, ◌≤◌, ◌≡◌, ◌≢◌, ◌⊎◌, ◌↔◌, inl, inr, refl, arith, Bool, true, false, none, some,
  List, [], ◌∷◌, map, ◌==◌, length, Option-cases, Bool-cases,
}
use agent_gtd.Prelude.Members.{mem}
use agent_gtd.Graph.{Edge, has_edge, Reaches, edge, via, Reaches-trans}
use agent_gtd.Dag.{Dependency, blocker_edge}
use agent_gtd.Blockers.{scan, Pass, found, more, blockers_of, search_from, would_create_cycle}
use agent_gtd.Blockers.Scan.{
  mem-blockers_of, scan_found, scan-Kept, unvisited, unvisited-le-length, is_blocker_of_mem,
  scan-potential,
}

Pass-cases :
    (p : Pass) → (p ≡ found) ⊎ ((visited : List ℕ) × (queue : List ℕ) × (p ≡ more visited queue))
Pass-cases found = inl refl
Pass-cases (more visited queue) = inr (visited, queue, refl)

module _ (rows : List Dependency) (t start : ℕ) where
  abbrev es : List Edge
  es = map blocker_edge rows

  search_total :
      (fuel : ℕ) (visited queue : List ℕ)
      → length queue + unvisited visited rows ≤ fuel
      → search_from fuel rows t visited queue ≢ none
  unfolding search_from
  search_total fuel visited [] h = λ e. cc
  search_total zero visited (c ∷ queue) h = absurd (omega arith)
  search_total (suc fuel) visited (c ∷ queue) h =
      elim (Pass-cases (scan t (blockers_of rows c) visited queue)) [
        | inl hit ↦ rw (hit, search_from) (λ e. cc)
        | inr (visited', queue', go) ↦
            let p =
              scan-potential t rows (blockers_of rows c) visited queue visited' queue'
                (is_blocker_of_mem rows c) go in
            rw (go, search_from) (search_total fuel visited' queue' (omega arith))
      ]

  -- `v` is the start or comes before it.
  abbrev Before : ℕ → Type 0
  Before v = (v ≡ start) ⊎ Reaches es v start

  record IsSound (visited queue : List ℕ) : Type 0 where
    pub before : (v : ℕ) → mem v visited ≡ true → Before v
    pub queued : (v : ℕ) → mem v queue ≡ true → mem v visited ≡ true

  step-Before : (b c : ℕ) → has_edge b c es ≡ true → Before c → Reaches es b start
  step-Before b c h (inl same) = edge (rw (← same) h)
  step-Before b c h (inr p) = Reaches-trans (edge h) p

  search_sound :
      (fuel : ℕ) (visited queue : List ℕ)
      → IsSound visited queue
      → search_from fuel rows t visited queue ≡ some true
      → Reaches es t start
  unfolding search_from
  search_sound fuel visited [] i h = ground arith
  search_sound zero visited (c ∷ queue) i h = ground arith
  search_sound (suc fuel) visited (c ∷ queue) i h =
      let at_c = i.before c (i.queued c (ground arith)) in
      elim (Pass-cases (scan t (blockers_of rows c) visited queue)) [
        | inl hit ↦
            step-Before t c
              (ground (
                arith,
                scan_found t (blockers_of rows c) visited queue hit,
                mem-blockers_of rows c t,
              ))
              at_c
        | inr (visited', queue', go) ↦
            let k =
              λ (v : ℕ). scan-Kept t v (blockers_of rows c) visited queue visited' queue' go in
            search_sound fuel visited' queue'
              (record {
                before = λ v m. elim (Bool-cases (mem v visited)) [
                  | inl old ↦ i.before v old
                  | inr new ↦ inr (
                      step-Before v c (ground (arith, (k v).reached, mem-blockers_of rows c v))
                        at_c)
                ];
                queued = λ v m. ground (arith, (k v).reached, (k v).queued, i.queued v);
              })
              (rw (go, search_from) at h)
      ]

  -- Whatever was visited and is no longer queued has been passed over.
  record IsClosed (visited queue : List ℕ) : Type 0 where
    pub closed :
        (v b : ℕ)
        → mem v visited ≡ true
        → mem v queue ≡ false
        → has_edge b v es ≡ true
        → (mem b visited ≡ true) × ((b == t) ≡ false)
    pub begun : mem start visited ≡ true
    pub inside : (v : ℕ) → mem v queue ≡ true → mem v visited ≡ true

  search-IsClosed :
      (fuel : ℕ) (visited queue : List ℕ)
      → IsClosed visited queue
      → search_from fuel rows t visited queue ≡ some false
      → (all_visited : List ℕ) × IsClosed all_visited []
  unfolding search_from
  search-IsClosed fuel visited [] i h = (visited, i)
  search-IsClosed zero visited (c ∷ queue) i h = ground arith
  search-IsClosed (suc fuel) visited (c ∷ queue) i h =
      elim (Pass-cases (scan t (blockers_of rows c) visited queue)) [
        | inl hit ↦ absurd (ground (arith, hit))
        | inr (visited', queue', go) ↦
            let k =
              λ (v : ℕ). scan-Kept t v (blockers_of rows c) visited queue visited' queue' go in
            search-IsClosed fuel visited' queue'
              (record {
                closed = λ v b m n e. ground (
                  arith,
                  (k v).reached,
                  (k v).queued,
                  (k b).reached,
                  (k b).other,
                  mem-blockers_of rows c b,
                  i.closed v b,
                );
                begun = ground (arith, (k start).reached, i.begun);
                inside = λ v m. ground (arith, (k v).reached, (k v).queued, i.inside v);
              })
              (rw (go, search_from) at h)
      ]

  none_before :
      (visited : List ℕ)
      → IsClosed visited []
      → {u w : ℕ} → Reaches es u w
      → mem w visited ≡ true
      → (mem u visited ≡ true) × ((u == t) ≡ false)
  none_before visited i (edge h) m = i.closed _ _ m refl h
  none_before visited i (via p h) m = none_before visited i p (i.closed _ _ m refl h).0

  -- The search always ends, and says yes exactly when the item comes before the start, in one
  -- step or more.
  pub would_create_cycle_iff :
      (b : Bool) × (would_create_cycle rows t start ≡ some b) × ((b ≡ true) ↔ Reaches es t start)
  unfolding would_create_cycle
  would_create_cycle_iff =
      let total =
        search_total (length rows + 1) (start ∷ []) (start ∷ [])
          (omega (arith, unvisited-le-length (start ∷ []) rows)) in
      elim (Option-cases (search_from (length rows + 1) rows t (start ∷ []) (start ∷ []))) [
        | inl stuck ↦ absurd (total stuck)
        | inr (b, e) ↦ (b, e, answer b e)
      ]
    where
      answer :
          (b : Bool)
          → search_from (length rows + 1) rows t (start ∷ []) (start ∷ []) ≡ some b
          → (b ≡ true) ↔ Reaches es t start
      answer true e = (
        λ h.
            search_sound (length rows + 1) (start ∷ []) (start ∷ [])
              (record { before = λ v m. inl (ground arith); queued = λ v m. m }) e,
        λ p. refl,
      )
      answer false e =
          let (visited, i) =
            search-IsClosed (length rows + 1) (start ∷ []) (start ∷ [])
              (record {
                closed = λ v b m n k. ground arith;
                begun = ground arith;
                inside = λ v m. m;
              })
              e in
          (λ h. cc, λ p. absurd (ground (arith, none_before visited i p i.begun)))

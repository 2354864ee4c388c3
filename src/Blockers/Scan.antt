-- ===== src/Blockers/Scan.antt =====
-- One pass of `_would_create_cycle` over the blockers of an item.
use agent_gtd.Prelude.{
  ℕ, suc, ◌+◌, ◌≤◌, ◌≡◌, refl, arith, Bool, true, false, not, ◌&&◌, ◌||◌, List, [], ◌∷◌, map, ◌==◌,
  if◌then◌else◌, length,
}
use agent_gtd.Prelude.Members.{mem}
use agent_gtd.Graph.{has_edge}
use agent_gtd.Dag.{Dependency, blocker_edge}
use agent_gtd.Blockers.{scan, found, more, blockers_of}

pub mem-blockers_of :
    (rows : List Dependency) (a b : ℕ)
    → mem b (blockers_of rows a) ≡ has_edge b a (map blocker_edge rows)
mem-blockers_of [] a b = refl
mem-blockers_of (r ∷ rows) a b = ground (arith, mem-blockers_of rows a b)

pub scan_found :
    (t : ℕ) (bs visited queue : List ℕ) → scan t bs visited queue ≡ found → mem t bs ≡ true
unfolding scan
scan_found t [] visited queue h = ground arith
scan_found t (b ∷ bs) visited queue h = ground (
  arith,
  scan_found t bs (if mem b visited then visited else b ∷ visited)
      (if mem b visited then queue else b ∷ queue),
)

-- What a pass that goes on says of an id `v`.
pub record Kept (t v : ℕ) (bs visited queue visited' queue' : List ℕ) : Type 0 where
  pub reached : mem v visited' ≡ (mem v visited || mem v bs)
  pub queued : mem v queue' ≡ (mem v queue || (not (mem v visited) && mem v bs))
  pub other : mem v bs ≡ true → (v == t) ≡ false

pub scan-Kept :
    (t v : ℕ) (bs visited queue visited' queue' : List ℕ)
    → scan t bs visited queue ≡ more visited' queue'
    → Kept t v bs visited queue visited' queue'
unfolding scan
scan-Kept t v [] visited queue visited' queue' h = record {
  reached = ground arith;
  queued = ground arith;
  other = λ m. ground arith;
}
scan-Kept t v (b ∷ bs) visited queue visited' queue' h =
    let q =
      scan-Kept t v bs (if mem b visited then visited else b ∷ visited)
        (if mem b visited then queue else b ∷ queue) visited' queue' (ground arith) in
    record {
      reached = ground (arith, q.reached);
      queued = ground (arith, q.queued);
      other = λ m. ground (arith, q.other);
    }

-- The rows whose blocker has not been visited.
abbrev pub unvisited : List ℕ → List Dependency → ℕ
unvisited visited [] = 0
unvisited visited (r ∷ rows) =
    (if mem r.blocker_item_id visited then 0 else 1) + unvisited visited rows

unvisited_mono :
    (b : ℕ) (visited : List ℕ) (rows : List Dependency)
    → unvisited (b ∷ visited) rows ≤ unvisited visited rows
unvisited_mono b visited [] = omega arith
unvisited_mono b visited (r ∷ rows) = ground (arith, unvisited_mono b visited rows)

abbrev pub is_blocker : ℕ → List Dependency → Bool
is_blocker b [] = false
is_blocker b (r ∷ rows) = b == r.blocker_item_id || is_blocker b rows

unvisited_step :
    (b : ℕ) (visited : List ℕ) (rows : List Dependency)
    → is_blocker b rows ≡ true
    → mem b visited ≡ false
    → suc (unvisited (b ∷ visited) rows) ≤ unvisited visited rows
unvisited_step b visited [] h n = ground arith
unvisited_step b visited (r ∷ rows) h n =
    ground (arith, unvisited_step b visited rows, unvisited_mono b visited rows)

pub unvisited-le-length :
    (visited : List ℕ) (rows : List Dependency) → unvisited visited rows ≤ length rows
unvisited-le-length visited [] = omega arith
unvisited-le-length visited (r ∷ rows) = ground (arith, unvisited-le-length visited rows)

pub is_blocker_of_mem :
    (rows : List Dependency) (a b : ℕ)
    → mem b (blockers_of rows a) ≡ true
    → is_blocker b rows ≡ true
is_blocker_of_mem [] a b h = ground arith
is_blocker_of_mem (r ∷ rows) a b h = ground (arith, is_blocker_of_mem rows a b)

-- A pass queues no more than it visits anew.
pub scan-potential :
    (t : ℕ) (rows : List Dependency) (bs visited queue visited' queue' : List ℕ)
    → ((b : ℕ) → mem b bs ≡ true → is_blocker b rows ≡ true)
    → scan t bs visited queue ≡ more visited' queue'
    → length queue' + unvisited visited' rows ≤ length queue + unvisited visited rows
unfolding scan
scan-potential t rows [] visited queue visited' queue' h e = ground arith
scan-potential t rows (b ∷ bs) visited queue visited' queue' h e =
    let q =
      scan-potential t rows bs (if mem b visited then visited else b ∷ visited)
        (if mem b visited then queue else b ∷ queue) visited' queue' (λ c m. h c (ground arith))
        (ground arith) in
    ground (arith, q, unvisited_step b visited rows, h b)

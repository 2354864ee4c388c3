-- ===== src/Dag/Kahn/Correct.antt =====
-- `assert_acyclic` decides whether the graph has a cycle.
use agent_gtd.Prelude.{
  ℕ, zero, suc, ◌+◌, ◌-◌, ◌≤◌, ◌≡◌, ◌↔◌, refl, inl, inr, true, false, not, ◌||◌, some, List, [],
  ◌∷◌, arith, ltb, ◌==◌, if◌then◌else◌, length, filter, Bool-cases, Option-cases,
}
use agent_gtd.Prelude.Members.{mem, Nodup, Subset, length-le_of_Subset, mem-filter, Nodup-filter}
use native.Mathlib.Numerals.{add-one}
use agent_gtd.Graph.{Edge, has_edge, Reaches, edge, via, Acyclic}
use agent_gtd.Graph.Topo.{Topo, Topo-no_cycle}
use agent_gtd.Graph.Source.{pred-absurd}
use agent_gtd.Dag.Kahn.{relax, drain, build_tables, verdict, assert_acyclic, acyclic, cyclic}
use agent_gtd.Dag.Kahn.Fuel.{assert_acyclic_total}
use agent_gtd.Dag.Kahn.Counts.{
  targets, pending, adjacency-build_tables, in_degree-build_tables, pending-cons,
  mem_of_pending-zero, pending-pos, count_of_has_edge,
}
use agent_gtd.Dag.Kahn.Relax.{relax-count, mem-relax, Nodup-relax}

-- Both ends of every edge are nodes.
abbrev pub Within : List ℕ → List Edge → Type 0
Within nodes es = (u v : ℕ) → has_edge u v es ≡ true → (mem u nodes ≡ true) × (mem v nodes ≡ true)

Nodup-of_Topo : (es : List Edge) (vs : List ℕ) → Topo es vs → Nodup vs
Nodup-of_Topo es [] t = tt
Nodup-of_Topo es (v ∷ vs) t = (t.0, Nodup-of_Topo es vs t.2)

module _ (nodes : List ℕ) (es : List Edge) where
  -- `past` are the processed nodes, the newest first.
  pub record Inv (past q : List ℕ) (d : ℕ → ℕ) : Type 0 where
    pub counts : (v : ℕ) → d v ≡ pending v past es
    pub settled : (v : ℕ) → (mem v past || mem v q) ≡ true → d v ≡ 0
    pub found : (v : ℕ) → mem v nodes ≡ true → d v ≡ 0 → (mem v past || mem v q) ≡ true
    pub distinct : Nodup q
    pub fresh : (v : ℕ) → mem v q ≡ true → mem v past ≡ false
    pub inside : (v : ℕ) → (mem v past || mem v q) ≡ true → mem v nodes ≡ true
    pub order : Topo es past

module _ (nodes : List ℕ) (es : List Edge) (within : Within nodes es) (adjacency : ℕ → List ℕ)
    (adj : (u : ℕ) → adjacency u ≡ targets u es) where
  step-Inv :
      (past q : List ℕ) (d : ℕ → ℕ) (n : ℕ)
      → Inv nodes es past (n ∷ q) d
      → Inv nodes es (n ∷ past) (relax d q (adjacency n)).1 (relax d q (adjacency n)).0
  step-Inv past q d n i = rw adj (record {
    counts = λ v. omega (
      arith,
      relax-count d q (targets n es) v,
      i.counts v,
      pending-cons v n past es (i.fresh n (ground arith)),
    );
    settled = λ v h.
        ground
          (arith, relax-count d q (targets n es) v, mem-relax d q (targets n es) v, i.settled v);
    found = λ v m z.
        ground (arith, relax-count d q (targets n es) v, mem-relax d q (targets n es) v, i.found v);
    distinct = Nodup-relax d q (targets n es) i.distinct.1 (λ v m. ground (arith, i.settled v));
    fresh =
        λ v m. ground (arith, mem-relax d q (targets n es) v, i.fresh v, i.settled v, i.distinct.0);
    inside = λ v m.
        ground
          (arith, mem-relax d q (targets n es) v, i.inside v, within n v, count_of_has_edge n v es);
    order = (
      i.fresh n (ground arith),
      (λ u h. mem_of_pending-zero u n past es (ground (arith, i.counts n, i.settled n)) h),
      i.order,
    );
  })

  abbrev Finished : ℕ → Type 0
  Finished k = (past : List ℕ) × (d : ℕ → ℕ) × (Inv nodes es past [] d) × (k ≡ length past)

  drain-Finished :
      (fuel : ℕ) (past q : List ℕ) (d : ℕ → ℕ) (k : ℕ)
      → Inv nodes es past q d
      → drain fuel adjacency d q (length past) ≡ some k
      → Finished k
  unfolding drain
  drain-Finished fuel past [] d k i h = (past, d, i, ground arith)
  drain-Finished zero past (n ∷ q) d k i h = ground arith
  drain-Finished (suc fuel) past (n ∷ q) d k i h =
      drain-Finished fuel (n ∷ past) _ _ k (step-Inv past q d n i)
        (rw (← (add-one (length past))) h)

  all_past :
      (past : List ℕ) (d : ℕ → ℕ)
      → Inv nodes es past [] d
      → length nodes ≤ length past
      → Subset nodes past
  all_past past d i h a m = elim (Bool-cases (mem a past)) [
    | inl inside ↦ inside
    | inr outside ↦ absurd (
        omega (
          arith,
          length-le_of_Subset (a ∷ past) nodes (outside, Nodup-of_Topo es past i.order)
              (λ b e. ground (arith, i.inside b)),
        ))
  ]

  -- What is left when the queue is empty has a predecessor that is left too.
  left_pred :
      (past : List ℕ) (d : ℕ → ℕ)
      → Inv nodes es past [] d
      → (v : ℕ) → mem v (filter (λ a. not (mem a past)) nodes) ≡ true
      → (u : ℕ) × (has_edge u v es ≡ true) × (mem u (filter (λ a. not (mem a past)) nodes) ≡ true)
  left_pred past d i v m =
      let left = mem-filter (λ a. not (mem a past)) v nodes in
      let (u, e, out) = pending-pos v past es (ground (arith, left, i.counts v, i.found v)) in
      (u, e, ground (arith, mem-filter (λ a. not (mem a past)) u nodes, within u v e))

  none_left : (past : List ℕ) (d : ℕ → ℕ) → Inv nodes es past [] d → Acyclic es → Subset nodes past
  none_left past d i ac a m = elim (Bool-cases (mem a past)) [
    | inl inside ↦ inside
    | inr outside ↦ absurd (
        pred-absurd es ac (filter (λ b. not (mem b past)) nodes) (left_pred past d i) a
          (ground (arith, mem-filter (λ b. not (mem b past)) a nodes)))
  ]

  Acyclic-of_all :
      (past : List ℕ) (d : ℕ → ℕ) → Inv nodes es past [] d → Subset nodes past → Acyclic es
  Acyclic-of_all past d i s v r = Topo-no_cycle es past v i.order (s v (target-within r)) r
    where
      target-within : {u w : ℕ} → Reaches es u w → mem w nodes ≡ true
      target-within (edge h) = (within _ _ h).1
      target-within (via p h) = (within _ _ h).1

module _ (nodes : List ℕ) (es : List Edge) (distinct : Nodup nodes) (within : Within nodes es) where
  abbrev queue : List ℕ
  queue = filter (λ node. (build_tables es).in_degree node == 0) nodes

  start-Inv : Inv nodes es [] queue (build_tables es).in_degree
  start-Inv =
      let q = λ (v : ℕ). mem-filter (λ node. (build_tables es).in_degree node == 0) v nodes in
      record {
        counts = in_degree-build_tables es;
        settled = λ v h. ground (arith, q v);
        found = λ v h z. ground (arith, q v);
        distinct = Nodup-filter _ nodes distinct;
        fresh = λ v h. refl;
        inside = λ v h. ground (arith, q v);
        order = tt;
      }

  pub runs :
      (k : ℕ) × (assert_acyclic nodes es
        ≡ (if ltb k (length nodes) then cyclic (length nodes - k) else acyclic))
      × Finished nodes es within (build_tables es).adjacency (adjacency-build_tables es) k
  unfolding assert_acyclic verdict
  runs =
      elim (Option-cases (
        drain (length nodes + length es) (build_tables es).adjacency (build_tables es).in_degree
          queue 0)) [
            | inl stuck ↦ absurd (assert_acyclic_total nodes es (rw stuck refl))
            | inr (k, e) ↦ (
              k,
              rw e refl,
              drain-Finished nodes es within (build_tables es).adjacency (adjacency-build_tables es)
                  (length nodes + length es) [] queue (build_tables es).in_degree k start-Inv e,
            )
          ]

  -- On distinct nodes that hold both ends of every edge, `assert_acyclic` accepts exactly the
  -- graphs with no cycle.
  pub assert_acyclic_iff : (assert_acyclic nodes es ≡ acyclic) ↔ Acyclic es
  assert_acyclic_iff =
      let (k, e, f) = runs in
      let (past, d, i, len) = f in
      (
        (λ h.
            Acyclic-of_all nodes es within _ (adjacency-build_tables es) past d i
              (all_past nodes es within _ (adjacency-build_tables es) past d i (ground arith))),
        (λ ac.
            let all = none_left nodes es within _ (adjacency-build_tables es) past d i ac in
            ground (arith, length-le_of_Subset nodes past distinct all)),
      )

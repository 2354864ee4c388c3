-- ===== src/Rollout/Plan/Sound.antt =====
-- `plan_rollout` from its guards to the plan.
use mathlib.Core.Path.{subst}
use agent_gtd.Prelude.{
  ℕ, ◌≡◌, sym, refl, inl, inr, arith, Bool, true, false, Option, none, some, List, [], ◌∷◌,
  Bool-cases,
}
use agent_gtd.Text.{Text}
use agent_gtd.Exceptions.{Result, ok, err, AgentGtdError}
use agent_gtd.Graph.{Edge, has_edge, Acyclic}
use agent_gtd.Dag.{derive_edges}
use agent_gtd.Dag.Edges.{Distinct}
use agent_gtd.Dag.Derive.{must_precede, derive_edges_sound}
use agent_gtd.Rollout.Db.{Db, Item, continue, bind-after}
use agent_gtd.Rollout.Access.{get_item, get_item-reads}
use agent_gtd.Rollout.Precedence.{IsOrdered}
use agent_gtd.Rollout.Precedence.History.{run-IsOrdered}
use agent_gtd.Rollout.Sequence.{IsNumbered}
use agent_gtd.Rollout.Sequence.History.{run-IsNumbered}
use agent_gtd.Rollout.History.{Message, run}
use agent_gtd.Rollout.Plan.Legality.{legal, is_nothing, has_several, validate_legality_contract}
use agent_gtd.Rollout.Plan.Contract.{found_items, validate_legality_contract_iff}
use agent_gtd.Rollout.Plan.Planned.{IsPlanned, store_plan-IsPlanned, IsPlanned-IsOrdered}
use agent_gtd.Rollout.Plan.{
  get_items, store_plan, store_or_fail, open_wave, create_plan, plan_rollout, paths_of,
  first_project, owner_of,
}

get_items-reads : (user : ℕ) (ids : List ℕ) (s : Db) → (get_items user ids s).1 ≡ s
unfolding get_items
get_items-reads user [] s = refl
get_items-reads user (a ∷ ids) s =
    let there = get_item-reads user a s in
    bind-after (λ t. t ≡ s) (get_item user a) _ s there
      λ i _.
        let again : (get_items user ids (get_item user a s).1).1 ≡ s =
          rw there (get_items-reads user ids s) in
        bind-after (λ t. t ≡ s) (get_items user ids) _ (get_item user a s).1 again
          (λ others _. again)

module _ (paths_overlap : Text → Text → Bool) (has_dispatch_config : ℕ → Bool)
    (describe : AgentGtdError → Text) (now user rid : ℕ) (ids : List ℕ) (s : Db)
    (es : List Edge) where
  -- What the plan was derived from, and what was derived.
  pub record Derived (items : List Item) : Type 0 where
    pub edges :
        (u v : ℕ)
        → has_edge u v es ≡ must_precede paths_overlap (paths_of items) s.dependencies ids u v
    pub acyclic : Acyclic es
    pub distinct : Distinct es

  stored :
      (project : ℕ) (items : List Item) (r : Result (List Edge))
      → derive_edges paths_overlap (paths_of items) s.dependencies ids ≡ r
      → (store_or_fail describe now ids r (open_wave now rid project user s)).0 ≡ ok es
      → IsPlanned ids es (store_or_fail describe now ids r (open_wave now rid project user s)).1
        × Derived items
  unfolding store_or_fail
  stored project items (ok edges) derived h =
      let (planned, same) =
        store_plan-IsPlanned now ids edges (open_wave now rid project user s) es refl refl h in
      let (e, a, d) =
        derive_edges_sound paths_overlap (paths_of items) s.dependencies ids edges planned.distinct
          derived in
      (
        subst (λ x. IsPlanned ids x (store_plan now ids edges (open_wave now rid project user s)).1)
            (sym same) planned,
        record {
          edges = λ u v. rw same (e u v);
          acyclic = subst Acyclic (sym same) a;
          distinct = subst Distinct (sym same) d;
        },
      )
  stored project items (err e) derived h = ground arith

  created :
      (items : List Item) (project owner : Option ℕ)
      → (create_plan paths_overlap has_dispatch_config describe now user rid ids items project owner
          s).0
        ≡ ok es
      → IsPlanned ids es
          (create_plan paths_overlap has_dispatch_config describe now user rid ids items project
            owner s).1
        × Derived items
  unfolding create_plan
  created items none owner h = ground arith
  created items (some p) none h = ground arith
  created items (some p) (some o) h = elim (Bool-cases (has_dispatch_config o)) [
    | inl configured ↦ rw configured (stored p items _ refl (rw configured at h))
    | inr missing ↦ ground arith
  ]

  -- The call from the SELECTs of the items on.
  abbrev gather : Result (List Item) → Db → Result (List Edge) × Db
  gather r t =
      continue r
        (λ items u.
          create_plan paths_overlap has_dispatch_config describe now user rid ids items
            (first_project items) (owner_of u (first_project items)) u)
        t

  abbrev Gathered : Result (List Edge) × Db → Type 0
  Gathered call =
      IsPlanned ids es call.1
      × ((items : List Item) × ((get_items user ids s).0 ≡ ok items) × Derived items)

  gathered :
      (r : Result (List Item)) (t : Db)
      → (get_items user ids s).0 ≡ r
      → t ≡ s
      → (gather r t).0 ≡ ok es
      → Gathered (gather r t)
  gathered (ok items) t got same h =
      let (planned, derived) =
        created items (first_project items) (owner_of s (first_project items)) (rw same at h) in
      (rw same planned, (items, got, derived))
  gathered (err e) t got same h = ground arith

  abbrev check : Result (Unit {0}) → Db → Result (List Edge) × Db
  check r t = continue r (λ x u. gather (get_items user ids u).0 (get_items user ids u).1) t

  checked :
      (r : Result (Unit {0})) (t : Db)
      → t ≡ s
      → (check r t).0 ≡ ok es
      → (r ≡ ok tt) × Gathered (check r t)
  checked (ok x) t same h = (
    refl,
    rw same (
        gathered (get_items user ids s).0 (get_items user ids s).1 refl (get_items-reads user ids s)
          (rw same at h)),
  )
  checked (err e) t same h = ground arith

  -- A call that returns has checked the contract, and leaves a pending rollout of exactly these
  -- items, which are distinct, with its events numbered and its items ready or pending by whether
  -- they have a predecessor; the plan holds exactly the edges that the blockers and files of the
  -- items ask for, each once, and has no cycle.
  pub plan_rollout_sound :
      (plan_rollout paths_overlap has_dispatch_config describe now user rid ids s).0 ≡ ok es
      → (legal user s ids ids ≡ true)
        × (has_several (found_items user s ids) ≡ false)
        × Gathered (plan_rollout paths_overlap has_dispatch_config describe now user rid ids s)
  unfolding plan_rollout
  plan_rollout_sound h = elim (Bool-cases (is_nothing ids)) [
    | inl none_there ↦ ground arith
    | inr some_there ↦
        let v = validate_legality_contract_iff user ids s in
        let (passed, rest) =
          checked (validate_legality_contract user ids s).0
            (validate_legality_contract user ids s).1 v.1 (rw some_there at h) in
        let (fulfilled, together) = v.0.0 passed in (fulfilled, together, rw some_there rest)
  ]

  -- From planning on, along every history of starts, state reports, dispatch links, resets,
  -- completions, halts and cancellations, no item is ready or dispatched before its predecessors
  -- are terminal, and the events stay numbered. A resumption is not among these requests.
  pub planned_history :
      (plan_rollout paths_overlap has_dispatch_config describe now user rid ids s).0 ≡ ok es
      → (ms : List Message)
      → let t =
          run ms (plan_rollout paths_overlap has_dispatch_config describe now user rid ids s).1 in
        IsOrdered t × IsNumbered t
  planned_history h ms =
      let planned = (plan_rollout_sound h).2.0 in
      (
        run-IsOrdered ms _ (IsPlanned-IsOrdered ids es _ planned),
        run-IsNumbered ms _ planned.numbered,
      )

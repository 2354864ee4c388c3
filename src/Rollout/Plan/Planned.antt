-- ===== src/Rollout/Plan/Planned.antt =====
-- What a planned rollout looks like.
use mathlib.Core.List.{append-nil, append_assoc}
use agent_gtd.Prelude.{
  ℕ, ◌+◌, ◌≡◌, ◌∙◌, ap, sym, refl, inl, inr, arith, Bool, true, false, ◌||◌, none, some, List, [],
  ◌∷◌, ◌++◌, map, ◌==◌, if◌then◌else◌, any, Bool-cases, length,
}
use agent_gtd.Prelude.Members.{mem, Nodup}
use agent_gtd.Exceptions.{Result, ok, err}
use agent_gtd.Graph.{Edge}
use agent_gtd.Dag.Kahn.{update}
use agent_gtd.Rollout.Types.{RolloutStatus, RolloutItemStatus, RolloutEventKind, RolloutEventActor}
use agent_gtd.Rollout.Db.{Db, RolloutItem, Payload, execute, return, continue, ◌>>◌}
use agent_gtd.Rollout.Events.{append_rollout_event}
use agent_gtd.Rollout.Graph.{predecessors, load_item_statuses, get_status}
use agent_gtd.Rollout.Graph.Progress.{keys, view_of}
use agent_gtd.Rollout.Precedence.{IsOrdered}
use agent_gtd.Rollout.Sequence.{IsNumbered, append_event-IsNumbered}
use agent_gtd.Rollout.Plan.{tally, new_row, insert_items, store_plan, set_status_of}

abbrev pub has_row : ℕ → List RolloutItem → Bool
has_row a rows = any (λ r. r.item_id == a) rows

has_row-snoc :
    (a : ℕ) (rows : List RolloutItem) (r : RolloutItem)
    → has_row a (rows ++ r ∷ []) ≡ (has_row a rows || r.item_id == a)
has_row-snoc a [] r = ground arith
has_row-snoc a (x ∷ rows) r = ground (arith, has_row-snoc a rows r)

record Inserted (d : ℕ → ℕ) (ids : List ℕ) (s t : Db) : Type 0 where
  pub rows : t.rows ≡ s.rows ++ map (new_row d) ids
  pub plan : t.plan ≡ s.plan
  pub events : t.events ≡ s.events
  pub wave : t.wave ≡ s.wave
  pub distinct : Nodup ids
  pub fresh : (a : ℕ) → mem a ids ≡ true → has_row a s.rows ≡ false

insert_items-Inserted :
    (d : ℕ → ℕ) (ids : List ℕ) (s : Db)
    → (insert_items d ids s).0 ≡ ok tt
    → Inserted d ids s (insert_items d ids s).1
unfolding insert_items
insert_items-Inserted d [] s h = record {
  rows = sym (append-nil s.rows);
  plan = refl;
  events = refl;
  wave = refl;
  distinct = tt;
  fresh = λ a m. ground arith;
}
insert_items-Inserted d (a ∷ ids) s h = elim (Bool-cases (has_row a s.rows)) [
  | inl taken ↦ ground arith
  | inr free ↦
      let q =
        insert_items-Inserted d ids (record s { rows = s.rows ++ new_row d a ∷ [] })
          (rw free at h) in
      rw free (record {
        rows = q.rows ∙ append_assoc s.rows (new_row d a ∷ []) (map (new_row d) ids);
        plan = q.plan;
        events = q.events;
        wave = q.wave;
        distinct = ground (arith, q.fresh a, has_row-snoc a s.rows (new_row d a), q.distinct);
        fresh = λ b m. ground (arith, q.fresh b, has_row-snoc b s.rows (new_row d a));
      })
]

-- An id counts as often as it has predecessors, if it is a node.
tally-predecessors :
    (nodes : List ℕ) (d : ℕ → ℕ) (es : List Edge) (v : ℕ)
    → mem v nodes ≡ true
    → tally nodes d es v ≡ d v + length (predecessors es v)
unfolding tally predecessors
tally-predecessors nodes d [] v m = omega arith
tally-predecessors nodes d (e ∷ es) v m = ground (
  arith,
  tally-predecessors nodes
      (if mem e.to_item_id nodes then update d e.to_item_id (d e.to_item_id + 1) else d) es v,
)

get_status-new_row :
    (d : ℕ → ℕ) (ids : List ℕ) (a : ℕ)
    → get_status (load_item_statuses (map (new_row d) ids)) a ≡ (
        if mem a ids
        then some (if d a == 0 then RolloutItemStatus.ready else RolloutItemStatus.pending)
        else none)
get_status-new_row d [] a = refl
get_status-new_row d (x ∷ ids) a = ground (arith, get_status-new_row d ids a)

keys-new_row : (d : ℕ → ℕ) (ids : List ℕ) → keys (load_item_statuses (map (new_row d) ids)) ≡ ids
keys-new_row d [] = refl
keys-new_row d (x ∷ ids) = ground (arith, keys-new_row d ids)

-- A rollout of these items as it stands when it has been planned.
pub record IsPlanned (ids : List ℕ) (es : List Edge) (t : Db) : Type 0 where
  pub status : t.wave.status ≡ RolloutStatus.pending
  pub plan : t.plan ≡ some es
  pub items : keys (view_of t) ≡ ids
  pub distinct : Nodup ids
  pub statuses :
      (a : ℕ)
      → get_status (view_of t) a ≡ (
          if mem a ids
          then some (
              if length (predecessors es a) == 0
              then RolloutItemStatus.ready
              else RolloutItemStatus.pending)
          else none)
  pub numbered : IsNumbered t

module _ (now : ℕ) (ids : List ℕ) (es : List Edge) (s : Db) where
  abbrev ready_count : ℕ → ℕ
  ready_count = tally ids (λ a. 0) es

  abbrev promote : Db → Result (List Edge) × Db
  promote = do
    execute (set_status_of RolloutStatus.pending now)
    append_rollout_event RolloutEventKind.wave_planned RolloutEventActor.manager
        (Payload.planned_of (length ids)) []
    return es

  record Promoted (out : List Edge) (u t : Db) : Type 0 where
    pub answer : out ≡ es
    pub status : t.wave.status ≡ RolloutStatus.pending
    pub plan : t.plan ≡ u.plan
    pub rows : t.rows ≡ u.rows
    pub numbered : IsNumbered u → IsNumbered t

  promote-Promoted :
      (out : List Edge) (r : Result Unit) (u : Db)
      → (continue r (λ _. promote) u).0 ≡ ok out
      → (r ≡ ok tt) × Promoted out u (continue r (λ _. promote) u).1
  unfolding append_rollout_event
  promote-Promoted out (ok x) u h = (
    refl,
    record {
      answer = ground arith;
      status = refl;
      plan = refl;
      rows = refl;
      numbered = λ n.
          append_event-IsNumbered _ _ _ _ (set_status_of RolloutStatus.pending now u)
            (record { numbers = n.numbers });
    },
  )
  promote-Promoted out (err e) u h = ground arith

  -- A plan that is stored is planned.
  pub store_plan-IsPlanned :
      (out : List Edge)
      → s.rows ≡ []
      → s.events ≡ []
      → (store_plan now ids es s).0 ≡ ok out
      → IsPlanned ids es (store_plan now ids es s).1 × (out ≡ es)
  unfolding store_plan
  store_plan-IsPlanned out no_rows no_events h =
      let start : Db = record s { plan = some es } in
      let u = (insert_items ready_count ids start).1 in
      let (inserts, p) = promote-Promoted out (insert_items ready_count ids start).0 u h in
      let q = insert_items-Inserted ready_count ids start inserts in
      let rows = p.rows ∙ q.rows ∙ ap (λ rs. rs ++ map (new_row ready_count) ids) no_rows in
      (
        record {
          status = p.status;
          plan = p.plan ∙ q.plan;
          items = ap (λ rs. keys (load_item_statuses rs)) rows ∙ keys-new_row ready_count ids;
          distinct = q.distinct;
          statuses = λ a.
              ap (λ rs. get_status (load_item_statuses rs) a) rows
              ∙ ground (
                arith,
                get_status-new_row ready_count ids a,
                tally-predecessors ids (λ b. 0) es a,
              );
          numbered = p.numbered (record { numbers = rw (q.events ∙ no_events) tt });
        },
        p.answer,
      )

length-zero : (ps : List ℕ) → (length ps == 0) ≡ true → ps ≡ []
length-zero [] h = refl
length-zero (p ∷ ps) h = ground arith

-- What has been planned is in the order of its plan.
pub IsPlanned-IsOrdered :
    (ids : List ℕ) (es : List Edge) (t : Db) → IsPlanned ids es t → IsOrdered t
IsPlanned-IsOrdered ids es t p = record {
  order = λ a h. ground (arith, p.statuses a, p.plan, length-zero (predecessors es a));
}

-- ===== src/Items/Claims.antt =====
-- Claims of an item by agents, one after the other.
use mathlib.Core.Option.{some-injective}
use agent_gtd.Prelude.{
  ℕ, ◌≡◌, ◌≢◌, ◌⊎◌, ◌∙◌, sym, ap, refl, inl, inr, arith, Bool, true, false, not, ◌&&◌, Option, none,
  some, List, [], ◌∷◌, ◌==◌, if◌then◌else◌, find?, ==→≡, all, Bool-cases, Option-cases,
}
use agent_gtd.Prelude.Members.{Nodup}
use agent_gtd.Text.{Text, is_empty, same_text, same_text→≡}
use agent_gtd.Exceptions.{ok}
use agent_gtd.Rollout.Types.{DispatchMode}
use agent_gtd.Rollout.Db.{Db, Item}
use agent_gtd.Rollout.Access.{get_item, item_accessible}
use agent_gtd.Items.{
  Changes, is_set, change, change_at, assign, update_item, claim_item, release_item,
}
use agent_gtd.Items.Guards.{update_item-returns}
use agent_gtd.Items.Rows.{
  row_of, row_of-found, changed, row_of-change_at, item_ids, item_ids-change_at,
  commit_update-items, wrote, update_item-items,
}
use agent_gtd.Items.Complete.{finish, complete_item-update_item}
use agent_gtd.Items.Calls.{
  ItemCall, updates, claims, releases, completes, call_item, call_items, call_items-keeps,
  claim_item-items,
}

module _ (engines : List Text) (now user a : ℕ) (agent : Text) (s : Db) where
  abbrev claimed : Db
  claimed = (claim_item engines now user a agent s).1

  -- The row that a claim that returns has seen.
  seen_row :
      Nodup (item_ids s.items)
      → (claim_item engines now user a agent s).0 ≡ ok tt
      → (r : Item) × (row_of a s.items ≡ some r)
        × ((not (is_empty r.assigned_to) && not (same_text r.assigned_to agent)) ≡ false)
        × (((claimed ≡ s) × (same_text r.assigned_to agent ≡ true))
            ⊎ (((update_item engines now none none (assign agent) user a s).0 ≡ ok tt)
                × (claimed ≡ (update_item engines now none none (assign agent) user a s).1)))
  unfolding claim_item get_item
  seen_row d h = elim (Option-cases (find? (λ i. i.id == a && item_accessible s user i) s.items)) [
    | inl nobody ↦ absurd (ground (arith, nobody))
    | inr (r, there) ↦ (
      r,
      row_of-found a (item_accessible s user) s.items r d there,
      ground (arith, there),
      elim (Bool-cases (same_text r.assigned_to agent)) [
        | inl mine ↦ inl (ground (arith, there), mine)
        | inr open_to_all ↦ inr (ground (arith, there), ground (arith, there))
      ],
    )
  ]

  -- A claim that returns leaves the item with the agent.
  claimed_row :
      Nodup (item_ids s.items)
      → (claim_item engines now user a agent s).0 ≡ ok tt
      → (r : Item) × (row_of a claimed.items ≡ some r) × (r.assigned_to ≡ agent)
  unfolding changed
  claimed_row d h =
      let (r, there, free, how) = seen_row d h in
      elim how [
        | inl (same, mine) ↦ (r, rw same there, same_text→≡ r.assigned_to agent mine)
        | inr (returned, wrote_it) ↦
            let q = update_item-returns engines now none none (assign agent) user a s in
            let items =
              ap (λ u. u.items) (wrote_it ∙ wrote s q.1 (q.0.0 returned))
              ∙ commit_update-items now a (assign agent) s refl in
            (
              change now (assign agent) r,
              rw items (row_of-change_at now a (assign agent) s.items ∙ rw there refl),
              refl,
            )
      ]

  claimed-Nodup :
      Nodup (item_ids s.items)
      → (claim_item engines now user a agent s).0 ≡ ok tt
      → Nodup (item_ids claimed.items)
  claimed-Nodup d h =
      let (r, there, free, how) = seen_row d h in
      elim how [
        | inl (same, mine) ↦ rw same d
        | inr (returned, wrote_it) ↦
            let q = update_item-returns engines now none none (assign agent) user a s in
            let items =
              ap (λ u. u.items) (wrote_it ∙ wrote s q.1 (q.0.0 returned))
              ∙ commit_update-items now a (assign agent) s refl in
            rw (items, item_ids-change_at now a (assign agent) s.items) d
      ]

-- Who has the item.
abbrev owner_of : ℕ → List Item → Option Text
owner_of a [] = none
owner_of a (i ∷ is) = let rest = owner_of a is in if i.id == a then some (i.assigned_to) else rest

owner_of-row_of :
    (a : ℕ) (items : List Item) (r : Item)
    → row_of a items ≡ some r
    → owner_of a items ≡ some (r.assigned_to)
owner_of-row_of a [] r h = ground arith
owner_of-row_of a (i ∷ is) r h = ground (arith, owner_of-row_of a is r)

owner_of-change_at :
    (now a b : ℕ) (c : Changes) (items : List Item)
    → (is_set c.assigned_to && b == a) ≡ false
    → owner_of a (change_at now b c items) ≡ owner_of a items
owner_of-change_at now a b c [] h = refl
owner_of-change_at now a b c (i ∷ is) h = ground (arith, owner_of-change_at now a b c is)

-- The call is no release of the item and no update of its assignee.
abbrev pub spares : ℕ → ItemCall → Bool
spares a (updates now mode version c user b) = not (is_set c.assigned_to && b == a)
spares a (claims now user b agent) = true
spares a (releases now user b) = not (b == a)
spares a (completes now user b) = true

record IsHeld (agent : Text) (a : ℕ) (items : List Item) : Type 0 where
  distinct : Nodup (item_ids items)
  held : owner_of a items ≡ some agent

change_at-IsHeld :
    (agent : Text) (a now b : ℕ) (c : Changes) (items : List Item)
    → (is_set c.assigned_to && b == a) ≡ false
    → IsHeld agent a items
    → IsHeld agent a (change_at now b c items)
change_at-IsHeld agent a now b c items spared h = record {
  distinct = rw (item_ids-change_at now b c items) h.distinct;
  held = owner_of-change_at now a b c items spared ∙ h.held;
}

module _ (engines : List Text) (agent : Text) (named : is_empty agent ≡ false) (a : ℕ) where
  update_item-IsHeld :
      (now : ℕ) (mode : Option DispatchMode) (version : Option ℕ) (c : Changes) (user b : ℕ)
      (s : Db)
      → (is_set c.assigned_to && b == a) ≡ false
      → IsHeld agent a s.items
      → IsHeld agent a (update_item engines now mode version c user b s).1.items
  update_item-IsHeld now mode version c user b s spared h =
      elim (update_item-items engines now mode version c user b s) [
        | inl same ↦ rw same h
        | inr written ↦ rw written (change_at-IsHeld agent a now b c s.items spared h)
      ]

  -- An item that nobody had is not the one that the agent holds.
  vacant_is_other :
      (user b : ℕ) (s : Db) (r : Item)
      → IsHeld agent a s.items
      → find? (λ i. i.id == b && item_accessible s user i) s.items ≡ some r
      → is_empty r.assigned_to ≡ true
      → (b == a) ≡ false
  vacant_is_other user b s r h there vacant = elim (Bool-cases (b == a)) [
    | inr other ↦ other
    | inl its ↦
        let here = row_of-found b (item_accessible s user) s.items r h.distinct there in
        let owner : owner_of a s.items ≡ some (r.assigned_to) =
          owner_of-row_of a s.items r (rw (==→≡ b a its) at here) in
        let mine = some-injective r.assigned_to agent (sym owner ∙ h.held) in
        absurd (ground (arith, rw mine at vacant, named))
  ]

  call_item-IsHeld :
      (k : ItemCall)
      → spares a k ≡ true
      → (s : Db) → IsHeld agent a s.items
      → IsHeld agent a (call_item engines k s).items
  unfolding call_item release_item
  call_item-IsHeld (updates now mode version c user b) spared s h =
      update_item-IsHeld now mode version c user b s (ground (arith, spared)) h
  call_item-IsHeld (claims now user b x) spared s h =
      elim (claim_item-items engines now user b x s) [
        | inl same ↦ rw same h
        | inr (r, there, vacant, written) ↦ rw written (
            change_at-IsHeld agent a now b (assign x) s.items
              (vacant_is_other user b s r h there vacant) h)
      ]
  call_item-IsHeld (releases now user b) spared s h =
      update_item-IsHeld now none none (assign []) user b s (ground (arith, spared)) h
  call_item-IsHeld (completes now user b) spared s h =
      rw (call_item, complete_item-update_item engines now user b s)
        (update_item-IsHeld now none none finish user b s refl h)

-- Where the ids of the items are distinct and calls come one after the other, an agent with a name
-- that has claimed an item keeps it from all others: whatever claims, completions, updates and
-- releases follow, as long as none of them releases that item or sets its assignee, a claim of the
-- item by an agent of another name, by whatever user, is refused. Calls that interleave between
-- their reading of the row and their writing of it are not covered.
pub claim_item-excludes :
    (engines : List Text) (now user a : ℕ) (agent : Text) (s : Db)
    → Nodup (item_ids s.items)
    → is_empty agent ≡ false
    → (claim_item engines now user a agent s).0 ≡ ok tt
    → (ks : List ItemCall) → all (spares a) ks ≡ true
    → (now' user' : ℕ) (rival : Text) → same_text agent rival ≡ false
    → (claim_item engines now' user' a rival
        (call_items engines ks (claim_item engines now user a agent s).1)).0
      ≢ ok tt
claim_item-excludes engines now user a agent s d named h ks spared now' user' rival differ again =
    let t = (claim_item engines now user a agent s).1 in
    let u = call_items engines ks t in
    let (r, there, mine) = claimed_row engines now user a agent s d h in
    let first : IsHeld agent a t.items = record {
      distinct = claimed-Nodup engines now user a agent s d h;
      held = owner_of-row_of a t.items r there ∙ ap some mine;
    } in
    let later : IsHeld agent a u.items =
      call_items-keeps engines (spares a) (λ x. IsHeld agent a x.items)
        (call_item-IsHeld engines agent named a) ks spared t first in
    let (r', there', free, how) = seen_row engines now' user' a rival u later.distinct again in
    let its =
      some-injective r'.assigned_to agent
        (sym (owner_of-row_of a u.items r' there') ∙ later.held) in
    ground (arith, rw its at free, named, differ)

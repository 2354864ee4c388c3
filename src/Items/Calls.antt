-- ===== src/Items/Calls.antt =====
-- Sequences of calls on items, one after the other, and what a call does to the rows.
use agent_gtd.Prelude.{
  ℕ, ◌≡◌, ◌⊎◌, ◌∙◌, ap, inl, inr, arith, Bool, true, ◌&&◌, Option, none, some, List, [], ◌∷◌, ◌==◌,
  find?, all, Bool-cases, Option-cases,
}
use agent_gtd.Text.{Text, is_empty, same_text}
use agent_gtd.Rollout.Types.{DispatchMode}
use agent_gtd.Rollout.Db.{Db, Item}
use agent_gtd.Rollout.Access.{get_item, item_accessible}
use agent_gtd.Rollout.Items.{complete_item}
use agent_gtd.Items.{Changes, change_at, assign, update_item, claim_item, release_item}
use agent_gtd.Items.Rows.{update_item-items}

-- A call by any user on any item, at any time.
pub data ItemCall : Type 0 where
  updates : ℕ → Option DispatchMode → Option ℕ → Changes → (user_id item_id : ℕ) → ItemCall
  claims : ℕ → (user_id item_id : ℕ) → Text → ItemCall
  releases : ℕ → (user_id item_id : ℕ) → ItemCall
  completes : ℕ → (user_id item_id : ℕ) → ItemCall

module _ (engines : List Text) where
  unfoldable pub call_item : ItemCall → Db → Db
  call_item (updates now mode version c user a) s =
      (update_item engines now mode version c user a s).1
  call_item (claims now user a agent) s = (claim_item engines now user a agent s).1
  call_item (releases now user a) s = (release_item engines now user a s).1
  call_item (completes now user a) s = (complete_item now user a s).1

  unfoldable pub call_items : List ItemCall → Db → Db
  call_items [] s = s
  call_items (k ∷ ks) s = call_items ks (call_item k s)

  -- What each call of a kind keeps, every sequence of such calls keeps.
  pub call_items-keeps :
      (p : ItemCall → Bool) (Q : Db → Type 0)
      → ((k : ItemCall) → p k ≡ true → (s : Db) → Q s → Q (call_item k s))
      → (ks : List ItemCall) → all p ks ≡ true
      → (s : Db) → Q s
      → Q (call_items ks s)
  unfolding call_items
  call_items-keeps p Q step [] kind s h = h
  call_items-keeps p Q step (k ∷ ks) kind s h =
      call_items-keeps p Q step ks (ground (arith, kind)) (call_item k s)
        (step k (ground (arith, kind)) s h)

  -- A claim leaves the rows alone, or it takes an item that nobody had.
  pub claim_item-items :
      (now user b : ℕ) (agent : Text) (s : Db)
      → let rows = (claim_item engines now user b agent s).1.items in
        (rows ≡ s.items)
        ⊎ ((r : Item) × (find? (λ i. i.id == b && item_accessible s user i) s.items ≡ some r)
            × (is_empty r.assigned_to ≡ true)
            × (rows ≡ change_at now b (assign agent) s.items))
  unfolding claim_item get_item
  claim_item-items now user b agent s =
      elim (Option-cases (find? (λ i. i.id == b && item_accessible s user i) s.items)) [
        | inl nobody ↦ inl (ground (arith, nobody))
        | inr (r, there) ↦ elim (Bool-cases (is_empty r.assigned_to)) [
          | inr taken ↦ inl (ground (arith, there, taken))
          | inl vacant ↦ elim (Bool-cases (same_text r.assigned_to agent)) [
            | inl mine ↦ inl (ground (arith, there, mine))
            | inr other ↦
                let is : claim_item engines now user b agent s
                    ≡ update_item engines now none none (assign agent) user b s =
                  ground (arith, there, vacant, other) in
                elim (update_item-items engines now none none (assign agent) user b s) [
                  | inl same ↦ inl (ap (λ q. q.1.items) is ∙ same)
                  | inr written ↦ inr (r, there, vacant, ap (λ q. q.1.items) is ∙ written)
                ]
          ]
        ]
      ]

-- ===== src/Items/Version.antt =====
-- Optimistic locking by the version of an item.
use agent_gtd.Prelude.{
  ℕ, ◌+◌, ◌≡◌, ◌≢◌, ◌∙◌, ap, refl, inl, inr, arith, Bool, true, false, ◌&&◌, Option, none, some,
  List, [], ◌∷◌, ltb, all, ◌==◌, if◌then◌else◌, find?, Bool-cases, Option-cases,
}
use agent_gtd.Prelude.Members.{mem, Nodup}
use agent_gtd.Text.{Text}
use agent_gtd.Exceptions.{ok}
use agent_gtd.Rollout.Types.{DispatchMode}
use agent_gtd.Rollout.Db.{Db, Item}
use agent_gtd.Rollout.Access.{get_item, item_accessible}
use agent_gtd.Items.{Changes, change_at, has_updates, assign, update_item, release_item}
use agent_gtd.Items.Guards.{permitted, update_item-returns}
use agent_gtd.Items.Rows.{
  item_ids, item_ids-change_at, commit_update-items, wrote, update_item-items,
}
use agent_gtd.Items.Complete.{finish, complete_item-update_item}
use agent_gtd.Items.Calls.{
  ItemCall, updates, claims, releases, completes, call_item, call_items, call_items-keeps,
  claim_item-items,
}

abbrev pub version_of : ℕ → List Item → Option ℕ
version_of a [] = none
version_of a (i ∷ is) = let rest = version_of a is in if i.id == a then some (i.version) else rest

version_of-absent :
    (a : ℕ) (items : List Item) → mem a (item_ids items) ≡ false → version_of a items ≡ none
version_of-absent a [] h = refl
version_of-absent a (i ∷ is) h = ground (arith, version_of-absent a is)

version_of-found :
    (a : ℕ) (p : Item → Bool) (items : List Item) (r : Item)
    → Nodup (item_ids items)
    → find? (λ i. i.id == a && p i) items ≡ some r
    → version_of a items ≡ some (r.version)
version_of-found a p [] r d e = ground arith
version_of-found a p (i ∷ is) r d e = elim (Bool-cases (i.id == a && p i)) [
  | inl here ↦ ground arith
  | inr other ↦ ground (arith, version_of-found a p is r d.1, version_of-absent a is)
]

abbrev next : Option ℕ → Option ℕ
next none = none
next (some v) = some (v + 1)

version_of-change_at :
    (now a : ℕ) (c : Changes) (items : List Item)
    → version_of a (change_at now a c items) ≡ next (version_of a items)
version_of-change_at now a c [] = refl
version_of-change_at now a c (i ∷ is) = ground (arith, version_of-change_at now a c is)

-- No version, or one above this.
abbrev is_past : ℕ → Option ℕ → Bool
is_past v none = true
is_past v (some n) = ltb v n

is_past-change_at :
    (v now a b : ℕ) (c : Changes) (items : List Item)
    → is_past v (version_of a items) ≡ true
    → is_past v (version_of a (change_at now b c items)) ≡ true
is_past-change_at v now a b c [] h = h
is_past-change_at v now a b c (i ∷ is) h = ground (arith, is_past-change_at v now a b c is)

-- The version is spent: the item, if it is there, has a later one.
record IsSpent (v a : ℕ) (items : List Item) : Type 0 where
  distinct : Nodup (item_ids items)
  past : is_past v (version_of a items) ≡ true

change_at-IsSpent :
    (v now a b : ℕ) (c : Changes) (items : List Item)
    → IsSpent v a items
    → IsSpent v a (change_at now b c items)
change_at-IsSpent v now a b c items h = record {
  distinct = rw (item_ids-change_at now b c items) h.distinct;
  past = is_past-change_at v now a b c items h.past;
}

all-true : {A : Type 0} (xs : List A) → all (λ x. true) xs ≡ true
all-true [] = refl
all-true (x ∷ xs) = all-true xs

module _ (engines : List Text) where
  permitted-version_of :
      (mode : Option DispatchMode) (v : ℕ) (c : Changes) (user a : ℕ) (s : Db)
      → Nodup (item_ids s.items)
      → permitted engines mode (some v) c user a s ≡ true
      → version_of a s.items ≡ some v
  unfolding get_item
  permitted-version_of mode v c user a s d h =
      elim (Option-cases (find? (λ i. i.id == a && item_accessible s user i) s.items)) [
        | inl nobody ↦ absurd (ground (arith, nobody))
        | inr (r, there) ↦
            let now_at = version_of-found a (item_accessible s user) s.items r d there in
            ground (arith, there, now_at)
      ]

  update_item-IsSpent :
      (v a now : ℕ) (mode : Option DispatchMode) (version : Option ℕ) (c : Changes) (user b : ℕ)
      (s : Db)
      → IsSpent v a s.items
      → IsSpent v a (update_item engines now mode version c user b s).1.items
  update_item-IsSpent v a now mode version c user b s h =
      elim (update_item-items engines now mode version c user b s) [
        | inl same ↦ rw same h
        | inr written ↦ rw written (change_at-IsSpent v now a b c s.items h)
      ]

  call_item-IsSpent :
      (v a : ℕ) (k : ItemCall) (s : Db)
      → IsSpent v a s.items
      → IsSpent v a (call_item engines k s).items
  unfolding call_item release_item
  call_item-IsSpent v a (updates now mode version c user b) s h =
      update_item-IsSpent v a now mode version c user b s h
  call_item-IsSpent v a (claims now user b agent) s h =
      elim (claim_item-items engines now user b agent s) [
        | inl same ↦ rw same h
        | inr (r, there, vacant, written) ↦
            rw written (change_at-IsSpent v now a b (assign agent) s.items h)
      ]
  call_item-IsSpent v a (releases now user b) s h =
      update_item-IsSpent v a now none none (assign []) user b s h
  call_item-IsSpent v a (completes now user b) s h =
      rw (call_item, complete_item-update_item engines now user b s)
        (update_item-IsSpent v a now none none finish user b s h)

  -- Where the ids of the items are distinct and calls come one after the other, an update that
  -- returns with the version that it was given, and that changes anything, uses the version up:
  -- whatever updates, claims, releases and completions follow, by any users and of any items, an
  -- update of that item with that version is refused, whoever asks. Calls that interleave between
  -- their reading of the row and their writing of it are not covered.
  pub update_item_once :
      (now : ℕ) (mode : Option DispatchMode) (v : ℕ) (c : Changes) (user a : ℕ) (s : Db)
      → Nodup (item_ids s.items)
      → has_updates c ≡ true
      → (update_item engines now mode (some v) c user a s).0 ≡ ok tt
      → (ks : List ItemCall) (now' : ℕ) (mode' : Option DispatchMode) (c' : Changes) (user' : ℕ)
      → (update_item engines now' mode'
          (some v)
          c'
          user'
          a
          (call_items engines ks (update_item engines now mode (some v) c user a s).1)).0
        ≢ ok tt
  update_item_once now mode v c user a s d changes h ks now' mode' c' user' again =
      let t = (update_item engines now mode (some v) c user a s).1 in
      let u = call_items engines ks t in
      let q = update_item-returns engines now mode (some v) c user a s in
      let first = q.0.0 h in
      let read = permitted-version_of mode v c user a s d first in
      let written : t.items ≡ change_at now a c s.items =
        ap (λ u. u.items) (wrote s q.1 first) ∙ commit_update-items now a c s changes in
      let spent : IsSpent v a t.items = record {
        distinct = rw (written, item_ids-change_at now a c s.items) d;
        past = rw (written, version_of-change_at now a c s.items, read) (ground arith);
      } in
      let later : IsSpent v a u.items =
        call_items-keeps engines (λ k. true) (λ x. IsSpent v a x.items)
          (λ k kind x i. call_item-IsSpent v a k x i) ks (all-true ks) t spent in
      let second = (update_item-returns engines now' mode' (some v) c' user' a u).0.0 again in
      let reread = permitted-version_of mode' v c' user' a u later.distinct second in
      ground (arith, rw reread at later.past)

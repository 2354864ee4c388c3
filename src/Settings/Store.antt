-- ===== src/Settings/Store.antt =====
-- What is read of a setting after one was written, and how much of a value is shown.
use agent_gtd.Prelude.{
  ◌≡◌, ◌≤◌, ◌+◌, ◌-◌, ℕ, zero, suc, refl, arith, true, false, ◌&&◌, Option, some, none, List, [],
  ◌∷◌, ◌++◌, ◌==◌, ltb, find?, length, ==→≡, ==_refl, Bool-cases, inl, inr, ap,
}
use agent_gtd.Text.{Text, same_text, same_text_refl, same_text→≡, same_text_sym}
use agent_gtd.Settings.Types.{UserSetting, Registry}
use agent_gtd.Settings.{
  get_user_setting, set_user_setting, get_user_setting_last4, upsert, is_user_key, value_of, given,
  last4, last4_of, drop,
}

module _ (user_id : ℕ) (key value : Text) where
  abbrev row : UserSetting
  row = record { user_id = user_id; key = key; value = value }

  abbrev written : List UserSetting → List UserSetting
  written = upsert (is_user_key user_id key) (λ r. record r { value = value }) row

  find-upsert :
      (rs : List UserSetting) → value_of (find? (is_user_key user_id key) (written rs)) ≡ some value
  find-upsert [] = rw (==_refl user_id, same_text_refl key) refl
  find-upsert (r ∷ rs) = ground (arith, find-upsert rs)

  other_key :
      (v : ℕ) (l : Text) (r : UserSetting)
      → is_user_key user_id key r ≡ true
      → (v == user_id && same_text l key) ≡ false
      → is_user_key v l r ≡ false
  other_key v l r same h =
      let k = same_text→≡ r.key key (ground arith) in
      let m = same_text_sym l key in
      let n = ap (λ t. same_text t l) k in
      let u = ==→≡ r.user_id user_id (ground arith) in ground arith

  -- The row of another user or of another key is not touched.
  find-upsert-other :
      (v : ℕ) (l : Text) (rs : List UserSetting)
      → (v == user_id && same_text l key) ≡ false
      → value_of (find? (is_user_key v l) (written rs)) ≡ value_of (find? (is_user_key v l) rs)
  find-upsert-other v l [] h = ground (arith, same_text_sym l key)
  find-upsert-other v l (r ∷ rs) h = elim (Bool-cases (is_user_key user_id key r)) [
    | inl same ↦ let o = other_key v l r same h in ground arith
    | inr other ↦ ground (arith, find-upsert-other v l rs)
  ]

drop-suffix : (n : ℕ) (t : Text) → (hidden : Text) × (t ≡ hidden ++ drop n t)
drop-suffix zero t = ([], refl)
drop-suffix (suc n) [] = ([], refl)
drop-suffix (suc n) (c ∷ t) =
    let (hidden, same) = drop-suffix n t in (c ∷ hidden, ap (λ u. c ∷ u) same)

length-drop : (n : ℕ) (t : Text) → length (drop n t) ≡ length t - n
length-drop zero t = omega arith
length-drop (suc n) [] = omega arith
length-drop (suc n) (c ∷ t) = omega (arith, length-drop n t)

-- What is shown of a value.
pub data IsTail (shown value : Text) : Type 0 where
  is_tail :
      (hidden : Text)
      → value ≡ hidden ++ shown
      → length shown ≤ 4
      → (4 ≤ length value → length shown ≡ 4)
      → (length value ≤ 4 → shown ≡ value)
      → IsTail shown value

drop-IsTail : (n : ℕ) (value : Text) → n + 4 ≡ length value → IsTail (drop n value) value
drop-IsTail n value h =
    let (hidden, same) = drop-suffix n value in
    is_tail hidden same (omega (arith, length-drop n value, h))
      (λ k. omega (arith, length-drop n value, h))
      λ k. let none_hidden : n ≡ 0 = omega (arith, h, k) in ap (λ m. drop m value) none_hidden

last4-IsTail : (value : Text) → IsTail (last4 value) value
last4-IsTail value = elim (Bool-cases (ltb 4 (length value))) [
  | inl long ↦ rw long (drop-IsTail (length value - 3 - 1) value (ground arith))
  | inr short ↦ rw short (is_tail [] refl (ground arith) (λ k. ground arith) (λ k. refl))
]

last4_of-value :
    (o : Option UserSetting) (value : Text) → value_of o ≡ some value → last4_of o ≡ last4 value
last4_of-value none value h = ground arith
last4_of-value (some r) value h = ap (λ t. last4 (given t)) h

-- A setting that a user writes is read back, and no other setting of any user changes. Of its
-- value the end is shown, at most four characters of it: exactly four where the value has as
-- many, and the whole of a shorter one.
pub set_user_setting-get :
    (user_id : ℕ) (key value : Text) (s : Registry)
    → let t = set_user_setting user_id key value s in
      (get_user_setting user_id key t ≡ some value)
      × IsTail (get_user_setting_last4 user_id key t) value
      × ((v : ℕ) (l : Text)
          → (v == user_id && same_text l key) ≡ false
          → get_user_setting v l t ≡ get_user_setting v l s)
unfolding set_user_setting get_user_setting get_user_setting_last4
set_user_setting-get user_id key value s =
    let found = find-upsert user_id key value s.user_settings in
    (
      found,
      rw (last4_of-value _ value found) (last4-IsTail value),
      λ v l. find-upsert-other user_id key value v l s.user_settings,
    )

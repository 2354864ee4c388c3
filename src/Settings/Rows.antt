-- ===== src/Settings/Rows.antt =====
-- What the table of hosts keeps: the constraints of the database, and a reason for every drain.
use agent_gtd.Prelude.{
  ◌≡◌, ℕ, refl, arith, Bool, true, false, not, ◌&&◌, ◌||◌, Option, none, some, List, [], ◌∷◌, ◌++◌,
  map, filter, ◌==◌, if◌then◌else◌,
}
use agent_gtd.Text.{Text, is_empty, same_text, same_text_sym}
use agent_gtd.Settings.Types.{HostRow}
use agent_gtd.Settings.{has_id, has_url}
use agent_gtd.Settings.Hosts.{is_host}

-- A host that is drained says why.
abbrev pub says_why : Option Text → Bool
says_why none = true
says_why (some reason) = not (is_empty reason)

-- No two rows have one id, no two of a user have one URL, and every drained host says why.
abbrev pub well_formed : List HostRow → Bool
well_formed [] = true
well_formed (r ∷ rows) =
    not (has_id r.host.id rows)
    && not (has_url r.user_id r.host.url rows)
    && says_why r.host.drain_reason
    && well_formed rows

has_id-snoc :
    (id : ℕ) (rows : List HostRow) (r : HostRow)
    → has_id id (rows ++ r ∷ []) ≡ (has_id id rows || r.host.id == id)
has_id-snoc id [] r = ground arith
has_id-snoc id (q ∷ rows) r = ground (arith, has_id-snoc id rows r)

has_url-snoc :
    (user_id : ℕ) (url : Text) (rows : List HostRow) (r : HostRow)
    → has_url user_id url (rows ++ r ∷ [])
      ≡ (has_url user_id url rows || (r.user_id == user_id && same_text r.host.url url))
has_url-snoc user_id url [] r = ground arith
has_url-snoc user_id url (q ∷ rows) r = ground (arith, has_url-snoc user_id url rows r)

pub well_formed-snoc :
    (rows : List HostRow) (r : HostRow)
    → well_formed rows ≡ true
    → (has_id r.host.id rows || has_url r.user_id r.host.url rows) ≡ false
    → says_why r.host.drain_reason ≡ true
    → well_formed (rows ++ r ∷ []) ≡ true
well_formed-snoc [] r w new why = ground arith
well_formed-snoc (q ∷ rows) r w new why =
    let rest = well_formed-snoc rows r (ground arith) (ground arith) why in
    let a = has_id-snoc q.host.id rows r in
    let b = has_url-snoc q.user_id q.host.url rows r in
    let c = same_text_sym q.host.url r.host.url in ground arith

module _ (p : HostRow → Bool) where
  has_id-filter :
      (id : ℕ) (rows : List HostRow) → has_id id rows ≡ false → has_id id (filter p rows) ≡ false
  has_id-filter id [] h = refl
  has_id-filter id (r ∷ rows) h = ground (arith, has_id-filter id rows)

  has_url-filter :
      (user_id : ℕ) (url : Text) (rows : List HostRow)
      → has_url user_id url rows ≡ false
      → has_url user_id url (filter p rows) ≡ false
  has_url-filter user_id url [] h = refl
  has_url-filter user_id url (r ∷ rows) h = ground (arith, has_url-filter user_id url rows)

  pub well_formed-filter :
      (rows : List HostRow) → well_formed rows ≡ true → well_formed (filter p rows) ≡ true
  well_formed-filter [] w = refl
  well_formed-filter (r ∷ rows) w =
      let a = has_id-filter r.host.id rows in
      let b = has_url-filter r.user_id r.host.url rows in ground (arith, well_formed-filter rows)

-- A change of the rows that keeps ids, users and URLs, and gives each drained host a reason.
pub record IsUpdate (f : HostRow → HostRow) : Type 0 where
  pub same_id : (r : HostRow) → (f r).host.id ≡ r.host.id
  pub same_user : (r : HostRow) → (f r).user_id ≡ r.user_id
  pub same_url : (r : HostRow) → (f r).host.url ≡ r.host.url
  pub keeps_why :
      (r : HostRow) → says_why r.host.drain_reason ≡ true → says_why (f r).host.drain_reason ≡ true

module _ (f : HostRow → HostRow) (k : IsUpdate f) where
  has_id-map : (id : ℕ) (rows : List HostRow) → has_id id (map f rows) ≡ has_id id rows
  has_id-map id [] = refl
  has_id-map id (r ∷ rows) = rw (k.same_id r, has_id-map id rows) refl

  has_url-map :
      (user_id : ℕ) (url : Text) (rows : List HostRow)
      → has_url user_id url (map f rows) ≡ has_url user_id url rows
  has_url-map user_id url [] = refl
  has_url-map user_id url (r ∷ rows) =
      rw (k.same_user r, k.same_url r, has_url-map user_id url rows) refl

  pub well_formed-map :
      (rows : List HostRow) → well_formed rows ≡ true → well_formed (map f rows) ≡ true
  well_formed-map [] w = refl
  well_formed-map (r ∷ rows) w =
      let why = k.keeps_why r (ground arith) in
      let rest = well_formed-map rows (ground arith) in
      rw
        (
          k.same_id r,
          k.same_user r,
          k.same_url r,
          has_id-map r.host.id rows,
          has_url-map r.user_id r.host.url rows,
        )
        (ground arith)

pub where_host :
    (user_id id : ℕ) (f : HostRow → HostRow)
    → IsUpdate f
    → IsUpdate (λ r. if is_host user_id id r then f r else r)
where_host user_id id f k = record {
  same_id = λ r. ground (arith, k.same_id r);
  same_user = λ r. ground (arith, k.same_user r);
  same_url = λ r. ground (arith, k.same_url r);
  keeps_why = λ r. ground (arith, k.keeps_why r);
}

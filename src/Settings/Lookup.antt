-- ===== src/Settings/Lookup.antt =====
-- Looking up a host by its id, in the table and in what the router gets.
use agent_gtd.Prelude.{
  ◌≡◌, ℕ, refl, arith, Bool, true, false, Option, none, some, List, [], ◌∷◌, map, filter, find?,
  ◌==◌, if◌then◌else◌,
}
use agent_gtd.Text.{Text}
use agent_gtd.Router.Types.{Host}
use agent_gtd.Router.Choice.{In}
use agent_gtd.Settings.Types.{HostRow, Registry}
use agent_gtd.Settings.{hosts_of, has_id}
use agent_gtd.Settings.Hosts.{is_host, with_drain}
use agent_gtd.Settings.Rows.{well_formed}

abbrev pub has : ℕ → HostRow → Bool
has id r = r.host.id == id

find-has_not :
    (user_id id : ℕ) (rows : List HostRow)
    → has_id id rows ≡ false
    → find? (is_host user_id id) rows ≡ none
find-has_not user_id id [] h = refl
find-has_not user_id id (q ∷ rows) h = ground (arith, find-has_not user_id id rows)

pub found-In : (p : Host → Bool) (h : Host) (hs : List Host) → find? p hs ≡ some h → In h hs
found-In p h [] e = ground arith
found-In p h (g ∷ hs) e = ground (arith, found-In p h hs)

-- The row that a user has with an id is the only one with that id.
pub find-is_host :
    (user_id id : ℕ) (r : HostRow) (rows : List HostRow)
    → well_formed rows ≡ true
    → find? (is_host user_id id) rows ≡ some r
    → find? (has id) rows ≡ some r
find-is_host user_id id r [] w h = ground arith
find-is_host user_id id r (q ∷ rows) w h =
    let a = find-has_not user_id id rows in ground (arith, find-is_host user_id id r rows)

pub find-set_host :
    (now user_id id : ℕ) (reason : Option Text) (r : HostRow) (rows : List HostRow)
    → find? (is_host user_id id) rows ≡ some r
    → find?
        (is_host user_id id)
        (map (λ q. if is_host user_id id q then with_drain now reason q else q) rows)
      ≡ some (with_drain now reason r)
find-set_host now user_id id reason r [] h = ground arith
find-set_host now user_id id reason r (q ∷ rows) h =
    ground (arith, find-set_host now user_id id reason r rows)

-- The hosts of a user, as the router gets them.
abbrev pub routed : ℕ → Registry → List Host
routed user_id s = map (λ r. r.host) (hosts_of user_id s)

pub find-routed :
    (user_id id : ℕ) (r : HostRow) (rows : List HostRow)
    → find? (is_host user_id id) rows ≡ some r
    → find? (λ h. h.id == id) (map (λ q. q.host) (filter (λ q. q.user_id == user_id) rows))
      ≡ some r.host
find-routed user_id id r [] h = ground arith
find-routed user_id id r (q ∷ rows) h = ground (arith, find-routed user_id id r rows)

routed-has_not :
    (user_id id : ℕ) (h : Host) (rows : List HostRow)
    → has_id id rows ≡ false
    → In h (map (λ q. q.host) (filter (λ q. q.user_id == user_id) rows))
    → (h.id == id) ≡ false
routed-has_not user_id id h [] n m = absurd m
routed-has_not user_id id h (q ∷ rows) n m = ground (arith, routed-has_not user_id id h rows)

pub routed_unique :
    (user_id id : ℕ) (r : HostRow) (h : Host) (rows : List HostRow)
    → well_formed rows ≡ true
    → find? (has id) rows ≡ some r
    → In h (map (λ q. q.host) (filter (λ q. q.user_id == user_id) rows))
    → (h.id == id) ≡ true
    → h ≡ r.host
routed_unique user_id id r h [] w f m e = absurd m
routed_unique user_id id r h (q ∷ rows) w f m e =
    let a = routed-has_not user_id id h rows in ground (arith, routed_unique user_id id r h rows)

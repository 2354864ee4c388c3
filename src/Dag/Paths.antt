-- ===== src/Dag/Paths.antt =====
-- The comparison of two literal paths in rollout_dag.py: `_is_directory_entry`
-- and `_literal_paths_overlap`. Braces, prose and globs are not here.
use agent_gtd.Prelude.{
  ℕ, ◌≡◌, refl, inl, inr, Bool, true, false, not, ◌&&◌, ◌||◌, [], ◌∷◌, ◌++◌, arith, ◌==◌,
  if◌then◌else◌, any, Bool-cases,
}
use agent_gtd.Text.{Text, starts_with, same_text, same_text→≡, same_text_sym, same_text_refl}

abbrev pub slash : ℕ
slash = 47

abbrev pub dot : ℕ
dot = 46

abbrev pub is_all_slashes : Text → Bool
is_all_slashes [] = true
is_all_slashes (c ∷ cs) = c == slash && is_all_slashes cs

-- `path.rstrip("/")`
abbrev pub rstrip_slash : Text → Text
rstrip_slash [] = []
rstrip_slash (c ∷ cs) =
    let rest = rstrip_slash cs in if is_all_slashes (c ∷ cs) then [] else c ∷ rest

abbrev pub has_slash : Text → Bool
has_slash t = any (λ c. c == slash) t

-- `path.endswith("/")`
abbrev pub ends_with_slash : Text → Bool
ends_with_slash [] = false
ends_with_slash (c ∷ []) = c == slash
ends_with_slash (c ∷ d ∷ cs) = ends_with_slash (d ∷ cs)

-- `path.rsplit("/", 1)[-1]`: what follows the last slash.
abbrev pub last_component : Text → Text
last_component [] = []
last_component (c ∷ cs) =
    let rest = last_component cs in if has_slash cs then rest else if c == slash then cs else c ∷ cs

abbrev pub is_directory_entry : Text → Bool
is_directory_entry path =
    ends_with_slash path || not (any (λ c. c == dot) (last_component (rstrip_slash path)))

pub literal_paths_overlap : Text → Text → Bool
literal_paths_overlap path_a path_b =
    let norm_a = rstrip_slash path_a in
    let norm_b = rstrip_slash path_b in
    if same_text norm_a norm_b
    then true
    else (is_directory_entry path_a && starts_with norm_b (norm_a ++ slash ∷ []))
      || (is_directory_entry path_b && starts_with norm_a (norm_b ++ slash ∷ []))

-- The entry names the file, or a directory above it.
abbrev pub touches : Text → Text → Bool
touches entry file =
    same_text (rstrip_slash entry) file
    || (is_directory_entry entry && starts_with file (rstrip_slash entry ++ slash ∷ []))

-- Of two prefixes of one text, one is a prefix of the other.
prefixes_nest :
    (t a b : Text)
    → starts_with t a ≡ true
    → starts_with t b ≡ true
    → (starts_with b a || starts_with a b) ≡ true
prefixes_nest t [] b h k = ground arith
prefixes_nest t (x ∷ a) [] h k = ground arith
prefixes_nest [] (x ∷ a) (y ∷ b) h k = ground arith
prefixes_nest (c ∷ t) (x ∷ a) (y ∷ b) h k = ground (arith, prefixes_nest t a b)

-- A directory above another, with the closing slashes, is the same one or above it without.
drop_slash :
    (a b : Text)
    → starts_with (b ++ slash ∷ []) (a ++ slash ∷ []) ≡ true
    → (same_text a b || starts_with b (a ++ slash ∷ [])) ≡ true
drop_slash [] [] h = refl
drop_slash [] (y ∷ b) h = ground arith
drop_slash (x ∷ []) [] h = ground arith
drop_slash (x ∷ y ∷ a) [] h = ground arith
drop_slash (x ∷ a) (y ∷ b) h = ground (arith, drop_slash a b)

same_text_trans :
    (a b t : Text) → same_text a t ≡ true → same_text b t ≡ true → same_text a b ≡ true
same_text_trans a b t h k = rw (same_text→≡ a t h, same_text→≡ b t k) (same_text_refl t)

starts_with_same :
    (a t p : Text) → same_text a t ≡ true → starts_with t p ≡ true → starts_with a p ≡ true
starts_with_same a t p h k = rw (same_text→≡ a t h) k

pub literal_paths_overlap_complete :
    (a b file : Text)
    → touches a file ≡ true
    → touches b file ≡ true
    → literal_paths_overlap a b ≡ true
unfolding literal_paths_overlap
literal_paths_overlap_complete a b file h k =
    let na = rstrip_slash a in
    let nb = rstrip_slash b in
    ground (
      arith,
      same_text_sym na nb,
      same_text_trans na nb file,
      starts_with_same na file (nb ++ slash ∷ []),
      starts_with_same nb file (na ++ slash ∷ []),
      prefixes_nest file (na ++ slash ∷ []) (nb ++ slash ∷ []),
      drop_slash na nb,
      drop_slash nb na,
    )

pub literal_paths_overlap_sound :
    (a b : Text)
    → literal_paths_overlap a b ≡ true
    → (file : Text) × (touches a file ≡ true) × (touches b file ≡ true)
unfolding literal_paths_overlap
literal_paths_overlap_sound a b h =
    let na = rstrip_slash a in
    let nb = rstrip_slash b in
    elim (Bool-cases (same_text na nb)) [
      | inl same ↦ (na, ground (arith, same_text_refl na), ground (arith, same_text_sym na nb))
      | inr other ↦ elim (Bool-cases (is_directory_entry a && starts_with nb (na ++ slash ∷ []))) [
        | inl above ↦ (nb, ground arith, ground (arith, same_text_refl nb))
        | inr below ↦ (na, ground (arith, same_text_refl na), ground arith)
      ]
    ]

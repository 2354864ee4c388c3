-- ===== src/Dag/Directory.antt =====
-- Which entry is taken for a directory and which file an entry names, described apart from the
-- code of Dag/Paths.
use agent_gtd.Prelude.{
  ℕ, zero, suc, ◌≡◌, ◌⊎◌, ◌∙◌, ap, refl, inl, inr, Bool, true, false, not, ◌&&◌, ◌||◌, [], ◌∷◌,
  ◌++◌, arith, ◌==◌, if◌then◌else◌, any, Bool-cases, ==→≡,
}
use agent_gtd.Text.{Text, is_empty}
use agent_gtd.Dag.Paths.{
  slash, dot, is_all_slashes, rstrip_slash, has_slash, ends_with_slash, last_component,
  is_directory_entry,
}

-- One pass over the characters: whether the last component so far has a dot, and whether the last
-- character was a slash.
abbrev pub scan : Bool → Bool → Text → Bool
scan dotted closed [] = closed || not dotted
scan dotted closed (c ∷ cs) =
    scan (if c == slash then dotted else if closed then c == dot else dotted || c == dot)
      (c == slash) cs

-- A directory has a slash at its end, or no dot in its last component.
abbrev pub names_directory : Text → Bool
names_directory entry = scan false false entry

abbrev slashes : ℕ → Text
slashes zero = []
slashes (suc n) = slash ∷ slashes n

-- The entry without the slashes at its end.
abbrev pub IsStem : Text → Text → Type 0
IsStem entry stem = (n : ℕ) × (entry ≡ stem ++ slashes n) × (ends_with_slash stem ≡ false)

abbrev has_dot : Text → Bool
has_dot t = any (λ c. c == dot) t

-- What is so of the rest of an entry.
abbrev rest_is : Bool → Bool → Text → Bool
rest_is dotted closed cs =
    ends_with_slash cs
    || (if has_slash cs
        then not (has_dot (last_component cs))
        else not ((not closed && dotted) || has_dot cs))

scan_rest :
    (dotted closed : Bool) (c : ℕ) (cs : Text)
    → scan dotted closed (c ∷ cs) ≡ rest_is dotted closed (c ∷ cs)
scan_rest dotted closed c [] = ground arith
scan_rest dotted closed c (d ∷ cs) =
    scan_rest (if c == slash then dotted else if closed then c == dot else dotted || c == dot)
      (c == slash) d cs
    ∙ ground arith

-- A text with no slash at its end is its own stem.
rstrip_still : (e : Text) → ends_with_slash e ≡ false → rstrip_slash e ≡ e
rstrip_still [] h = refl
rstrip_still (c ∷ []) h = ground arith
rstrip_still (c ∷ d ∷ cs) h = ground (arith, rstrip_still (d ∷ cs))

last_component_plain : (cs : Text) → has_slash cs ≡ false → last_component cs ≡ cs
last_component_plain [] h = refl
last_component_plain (c ∷ cs) h = ground arith

pub is_directory_entry-names_directory : (e : Text) → is_directory_entry e ≡ names_directory e
is_directory_entry-names_directory [] = refl
is_directory_entry-names_directory (c ∷ cs) =
    ground (arith, scan_rest false false c cs, rstrip_still (c ∷ cs), last_component_plain (c ∷ cs))

is_empty-rstrip_slash : (e : Text) → is_empty (rstrip_slash e) ≡ is_all_slashes e
is_empty-rstrip_slash [] = refl
is_empty-rstrip_slash (c ∷ cs) = ground arith

ends_cons :
    (c : ℕ) (t : Text)
    → ends_with_slash (c ∷ t) ≡ (if is_empty t then c == slash else ends_with_slash t)
ends_cons c [] = refl
ends_cons c (d ∷ t) = refl

ends_with_slash-rstrip_slash : (e : Text) → ends_with_slash (rstrip_slash e) ≡ false
ends_with_slash-rstrip_slash [] = refl
ends_with_slash-rstrip_slash (c ∷ cs) = ground (
  arith,
  ends_with_slash-rstrip_slash cs,
  ends_cons c (rstrip_slash cs),
  is_empty-rstrip_slash cs,
)

all_slashes : (e : Text) → is_all_slashes e ≡ true → (n : ℕ) × (e ≡ slashes n)
all_slashes [] h = (zero, refl)
all_slashes (c ∷ cs) h =
    let (n, e) = all_slashes cs (ground (arith, h)) in
    (suc n, ap (λ x. x ∷ cs) (==→≡ c slash (ground (arith, h))) ∙ ap (λ t. slash ∷ t) e)

rstrip_slash-slashes : (e : Text) → (n : ℕ) × (e ≡ rstrip_slash e ++ slashes n)
rstrip_slash-slashes [] = (zero, refl)
rstrip_slash-slashes (c ∷ cs) = elim (Bool-cases (is_all_slashes (c ∷ cs))) [
  | inl plain ↦ let (n, e) = all_slashes (c ∷ cs) plain in (n, rw plain e)
  | inr mixed ↦ let (n, e) = rstrip_slash-slashes cs in (n, rw mixed (ap (λ t. c ∷ t) e))
]

is_all_slashes-slashes : (n : ℕ) → is_all_slashes (slashes n) ≡ true
is_all_slashes-slashes zero = refl
is_all_slashes-slashes (suc n) = is_all_slashes-slashes n

rstrip_slash-all : (n : ℕ) → rstrip_slash (slashes n) ≡ []
rstrip_slash-all zero = refl
rstrip_slash-all (suc n) = rw (is_all_slashes-slashes n) refl

rstrip_slash-stem :
    (n : ℕ) (m : Text) → ends_with_slash m ≡ false → rstrip_slash (m ++ slashes n) ≡ m
rstrip_slash-stem n [] h = rstrip_slash-all n
rstrip_slash-stem n (c ∷ []) h = ground (arith, rstrip_slash-all n)
rstrip_slash-stem n (c ∷ d ∷ cs) h = ground (arith, rstrip_slash-stem n (d ∷ cs))

pub rstrip_slash-IsStem : (e : Text) → IsStem e (rstrip_slash e)
rstrip_slash-IsStem e =
    let (n, is) = rstrip_slash-slashes e in (n, is, ends_with_slash-rstrip_slash e)

-- An entry has one stem.
pub IsStem-rstrip_slash : (e m : Text) → IsStem e m → rstrip_slash e ≡ m
IsStem-rstrip_slash e m (n, is, open_end) = ap rstrip_slash is ∙ rstrip_slash-stem n m open_end

-- The entry names the file, or it is a directory and its stem with a slash begins the file's path.
abbrev pub Touches : Text → Text → Type 0
Touches entry file =
    (stem : Text) × IsStem entry stem
    × ((stem ≡ file)
        ⊎ ((names_directory entry ≡ true) × (rest : Text) × (file ≡ stem ++ slash ∷ rest)))

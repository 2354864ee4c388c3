-- ===== src/Dag/Overlap.antt =====
-- When two literal entries of Dag/Paths overlap.
use agent_gtd.Prelude.{◌≡◌, ◌↔◌, ◌∙◌, sym, refl, inl, inr, arith, true, [], ◌∷◌, ◌++◌, Bool-cases}
use agent_gtd.Text.{Text, starts_with, same_text, same_text→≡, same_text_refl}
use agent_gtd.Dag.Paths.{
  slash, rstrip_slash, literal_paths_overlap, touches, literal_paths_overlap_complete,
  literal_paths_overlap_sound,
}
use agent_gtd.Dag.Directory.{
  Touches, is_directory_entry-names_directory, rstrip_slash-IsStem, IsStem-rstrip_slash,
}

starts_with-rest :
    (file stem : Text)
    → starts_with file (stem ++ slash ∷ []) ≡ true
    → (rest : Text) × (file ≡ stem ++ slash ∷ rest)
starts_with-rest [] [] h = absurd (ground arith)
starts_with-rest [] (c ∷ stem) h = absurd (ground arith)
starts_with-rest (x ∷ file) [] h = (file, ground arith)
starts_with-rest (x ∷ file) (c ∷ stem) h =
    let (rest, is) = starts_with-rest file stem (ground (arith, h)) in (rest, ground (arith, h, is))

rest-starts_with :
    (stem rest : Text) → starts_with (stem ++ slash ∷ rest) (stem ++ slash ∷ []) ≡ true
rest-starts_with [] rest = refl
rest-starts_with (c ∷ stem) rest = ground (arith, rest-starts_with stem rest)

touches-Touches : (entry file : Text) → touches entry file ≡ true → Touches entry file
touches-Touches entry file h =
    let m = rstrip_slash entry in
    (
      m,
      rstrip_slash-IsStem entry,
      elim (Bool-cases (same_text m file)) [
        | inl same ↦ inl (same_text→≡ m file same)
        | inr other ↦
            let (rest, is) = starts_with-rest file m (ground (arith, h)) in
            inr (sym (is_directory_entry-names_directory entry) ∙ ground (arith, h), rest, is)
      ],
    )

Touches-touches : (entry file : Text) → Touches entry file → touches entry file ≡ true
Touches-touches entry file (m, is_stem, how) =
    let stem = IsStem-rstrip_slash entry m is_stem in
    elim how [
      | inl same ↦ rw (stem, same, same_text_refl file) refl
      | inr (directory, rest, below) ↦
          let dir = is_directory_entry-names_directory entry ∙ directory in
          let started : starts_with file (rstrip_slash entry ++ slash ∷ []) ≡ true =
            rw (stem, below) (rest-starts_with m rest) in
          ground (arith, dir, started)
    ]

-- Two literal entries overlap exactly when there is a file that each of them touches. An entry
-- touches the file that it names without the slashes at its end, and, if it has a slash at its end
-- or no dot in its last component, each path that continues this name after a slash.
pub literal_paths_overlap_iff :
    (a b : Text)
    → (literal_paths_overlap a b ≡ true) ↔ ((file : Text) × Touches a file × Touches b file)
literal_paths_overlap_iff a b = (
  λ h.
      let (file, x, y) = literal_paths_overlap_sound a b h in
      (file, touches-Touches a file x, touches-Touches b file y),
  λ (file, x, y).
      literal_paths_overlap_complete a b file (Touches-touches a file x) (Touches-touches b file y),
)

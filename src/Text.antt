-- ===== src/Text.antt =====
-- Python texts as lists of code points, with the two operations that the services use on them.
use agent_gtd.Prelude.{
  ◌≡◌, refl, arith, ◌+◌, ℕ, zero, suc, Bool, true, false, ◌&&◌, ◌||◌, List, [], ◌∷◌, ◌==◌, leb,
  if◌then◌else◌,
}
use Prim.Native.Char.{code}
use Prim.Native.String.{String}
use mathlib.Core.List.{reverse}

abbrev pub Text : Type 0
Text = List ℕ

-- `str.isspace` of one character.
unfoldable pub is_space : ℕ → Bool
is_space c =
    (leb 9 c && leb c 13)
    || (leb 28 c && leb c 32)
    || c == 0x85
    || c == 0xa0
    || c == 0x1680
    || (leb 0x2000 c && leb c 0x200a)
    || c == 0x2028
    || c == 0x2029
    || c == 0x202f
    || c == 0x205f
    || c == 0x3000

unfoldable pub lstrip : Text → Text
lstrip [] = []
lstrip (c ∷ cs) = let rest = lstrip cs in if is_space c then rest else c ∷ cs

-- `str.strip()`
unfoldable pub strip : Text → Text
strip t = reverse (lstrip (reverse (lstrip t)))

-- `t[:n]`
pub take : ℕ → Text → Text
take zero t = []
take (suc n) [] = []
take (suc n) (c ∷ cs) = c ∷ take n cs

-- `not t`
abbrev pub is_empty : Text → Bool
is_empty [] = true
is_empty (c ∷ cs) = false

-- A literal of the source.
abbrev pub text : String → Text
text String.[] = []
text (String.◌∷◌ c s) = code c ∷ text s

-- `str.startswith`, and equality.
abbrev pub starts_with : Text → Text → Bool
starts_with t [] = true
starts_with [] (c ∷ cs) = false
starts_with (x ∷ xs) (c ∷ cs) = x == c && starts_with xs cs

abbrev pub same_text : Text → Text → Bool
same_text [] [] = true
same_text [] (c ∷ cs) = false
same_text (x ∷ xs) [] = false
same_text (x ∷ xs) (c ∷ cs) = x == c && same_text xs cs

-- `a in xs`
abbrev pub mem_text : Text → List Text → Bool
mem_text a [] = false
mem_text a (x ∷ xs) = same_text a x || mem_text a xs

-- `str.lower` on ASCII letters.
unfoldable pub lower : Text → Text
lower [] = []
lower (c ∷ cs) = (if leb 65 c && leb c 90 then c + 32 else c) ∷ lower cs

pub same_text→≡ : (a b : Text) → same_text a b ≡ true → a ≡ b
same_text→≡ [] [] h = refl
same_text→≡ [] (y ∷ b) h = ground arith
same_text→≡ (x ∷ a) [] h = ground arith
same_text→≡ (x ∷ a) (y ∷ b) h = ground (arith, same_text→≡ a b)

pub same_text_sym : (a b : Text) → same_text a b ≡ same_text b a
same_text_sym [] [] = refl
same_text_sym [] (y ∷ b) = refl
same_text_sym (x ∷ a) [] = refl
same_text_sym (x ∷ a) (y ∷ b) = ground (arith, same_text_sym a b)

pub same_text_refl : (a : Text) → same_text a a ≡ true
same_text_refl [] = refl
same_text_refl (x ∷ a) = ground (arith, same_text_refl a)

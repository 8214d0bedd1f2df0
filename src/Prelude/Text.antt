-- ===== src/Prelude/Text.antt =====
-- Texts as code points, where the program looks at their characters. The classes are those of
-- ASCII.
use Prim.Native.Char.{code}
use bitcoiners_dca.Prelude.{
  ℕ, ◌+◌, String, Bool, true, false, ◌&&◌, ◌||◌, List, [], ◌∷◌, map, leb, ◌==◌, if◌then◌else◌,
}

abbrev pub Text : Type 0
Text = List ℕ

abbrev pub codes : String → Text
codes String.[] = []
codes (String.◌∷◌ c s) = code c ∷ codes s

abbrev pub is_empty : Text → Bool
is_empty [] = true
is_empty (c ∷ s) = false

-- Tab to carriage return, the separators, and the blank.
abbrev is_space : ℕ → Bool
is_space c = leb 9 c && leb c 13 || leb 28 c && leb c 32

-- `lstrip`
unfoldable pub strip_left : Text → Text
strip_left [] = []
strip_left (c ∷ s) = let rest = strip_left s in if is_space c then rest else c ∷ s

-- The rest of a text without what is blank at its end.
unfoldable pub strip_right : Text → Text
strip_right [] = []
strip_right (c ∷ s) =
    let rest = strip_right s in if is_empty rest && is_space c then [] else c ∷ rest

-- `strip`
unfoldable pub strip : Text → Text
unfolding strip_left strip_right
strip s = strip_right (strip_left s)

abbrev to_lower : ℕ → ℕ
to_lower c = if leb b'A' c && leb c b'Z' then c + 32 else c

-- `lower`
unfoldable pub lower : Text → Text
lower s = map to_lower s

-- `startswith`, with the prefix first
unfoldable pub starts_with : Text → Text → Bool
starts_with [] s = true
starts_with (p ∷ ps) [] = false
starts_with (p ∷ ps) (c ∷ s) = c == p && starts_with ps s

unfoldable pub same_text : Text → Text → Bool
same_text [] [] = true
same_text [] (d ∷ t) = false
same_text (c ∷ s) [] = false
same_text (c ∷ s) (d ∷ t) = c == d && same_text s t

-- `c in s`
unfoldable pub has_char : ℕ → Text → Bool
has_char c [] = false
has_char c (d ∷ s) = d == c || has_char c s

-- `s.split(c, 1)[0]`
unfoldable pub before_char : ℕ → Text → Text
before_char c [] = []
before_char c (d ∷ s) = let rest = before_char c s in if d == c then [] else d ∷ rest

-- `s.partition(c)[2]`
unfoldable pub after_char : ℕ → Text → Text
after_char c [] = []
after_char c (d ∷ s) = let rest = after_char c s in if d == c then s else rest

-- `s or t`
abbrev pub or_text : Text → Text → Text
or_text s t = if is_empty s then t else s

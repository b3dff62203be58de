-- ===== src/Go/Text.antt =====
-- Go strings as lists of code points, and the functions of package `strings` that the program calls.
-- `strings.ToLower` is modelled on ASCII letters: a name in the presentation format of a DNS
-- message is ASCII. Spaces are those of `unicode.IsSpace`.
pub mod Equality
pub mod Trim
pub mod Suffixes
pub mod Parts
use Prim.Native.Char.{code}
use mathlib.Core.List.{map}
use resolvit.Prelude.{
  ℕ, ◌+◌, ◌≡◌, refl, Bool, true, false, ◌&&◌, ◌||◌, Option, none, some, List, [], ◌∷◌, ◌++◌,
  reverse, String, leb, ◌==◌, if◌then◌else◌, is_some,
}

abbrev pub Text : Type 0
Text = List ℕ

-- The code points of a literal. `String` has its own `[]` and `∷`.
abbrev pub codes : String → Text
codes String.[] = []
codes (String.◌∷◌ c s) = code c ∷ codes s

abbrev pub is_empty : Text → Bool
is_empty [] = true
is_empty (c ∷ s) = false

unfoldable pub text_eq : Text → Text → Bool
text_eq [] [] = true
text_eq [] (d ∷ t) = false
text_eq (c ∷ s) [] = false
text_eq (c ∷ s) (d ∷ t) = c == d && text_eq s t

abbrev pub dot : ℕ
dot = b'.'

unfoldable pub lower : ℕ → ℕ
lower c = if leb b'A' c && leb c b'Z' then c + 32 else c

-- strings.ToLower
unfoldable pub to_lower : Text → Text
unfolding lower
to_lower [] = []
to_lower (c ∷ s) = lower c ∷ to_lower s

-- unicode.IsSpace
unfoldable pub is_space : ℕ → Bool
is_space c =
    (leb 9 c && leb c 13)
    || c == 32
    || c == 0x85
    || c == 0xa0
    || c == 0x1680
    || (leb 0x2000 c && leb c 0x200a)
    || c == 0x2028
    || c == 0x2029
    || c == 0x202f
    || c == 0x205f
    || c == 0x3000

unfoldable pub trim_left : Text → Text
trim_left [] = []
trim_left (c ∷ s) = let rest = trim_left s in if is_space c then rest else c ∷ s

-- Puts a character before a text whose right end is trimmed already.
unfoldable pub cons_trimmed : ℕ → Text → Text
cons_trimmed c [] = if is_space c then [] else c ∷ []
cons_trimmed c (d ∷ t) = c ∷ d ∷ t

unfoldable pub trim_right : Text → Text
unfolding cons_trimmed
trim_right [] = []
trim_right (c ∷ s) = cons_trimmed c (trim_right s)

-- strings.TrimSpace
unfoldable pub trim_space : Text → Text
unfolding trim_left trim_right
trim_space s = trim_right (trim_left s)

-- What follows the prefix `p`, if the text begins with it.
unfoldable pub after_prefix : Text → Text → Option Text
after_prefix [] s = some s
after_prefix (x ∷ p) [] = none
after_prefix (x ∷ p) (c ∷ s) = if x == c then after_prefix p s else none

abbrev keep_or : Text → Option Text → Text
keep_or s none = s
keep_or s (some rest) = rest

-- strings.HasPrefix, strings.TrimPrefix
unfoldable pub has_prefix : Text → Text → Bool
unfolding after_prefix
has_prefix s p = is_some (after_prefix p s)

unfoldable pub trim_prefix : Text → Text → Text
unfolding after_prefix
trim_prefix s p = keep_or s (after_prefix p s)

-- strings.Contains
unfoldable pub contains : Text → Text → Bool
unfolding has_prefix
contains [] sub = has_prefix [] sub
contains (c ∷ s) sub = has_prefix (c ∷ s) sub || contains s sub

-- The text without its last character, and whether that is a dot: strings.HasSuffix(s, ".") and
-- strings.TrimSuffix(s, ".").
unfoldable pub has_dot_suffix : Text → Bool
has_dot_suffix [] = false
has_dot_suffix (c ∷ []) = c == dot
has_dot_suffix (c ∷ d ∷ s) = has_dot_suffix (d ∷ s)

unfoldable pub trim_dot_suffix : Text → Text
trim_dot_suffix [] = []
trim_dot_suffix (c ∷ []) = if c == dot then [] else c ∷ []
trim_dot_suffix (c ∷ d ∷ s) = c ∷ trim_dot_suffix (d ∷ s)

unfoldable pub cons_part : ℕ → List Text → List Text
cons_part c [] = (c ∷ []) ∷ []
cons_part c (l ∷ ls) = (c ∷ l) ∷ ls

-- strings.Split at a separator of one character
unfoldable pub split : Text → ℕ → List Text
unfolding cons_part
split [] sep = [] ∷ []
split (c ∷ s) sep = let rest = split s sep in if c == sep then [] ∷ rest else cons_part c rest

-- strings.Join with a separator of one character
unfoldable pub join : List Text → ℕ → Text
join [] sep = []
join (l ∷ []) sep = l
join (l ∷ m ∷ ls) sep = l ++ sep ∷ join (m ∷ ls) sep

unfoldable pub emit_field : Text → List Text → List Text
emit_field [] fs = fs
emit_field (c ∷ cur) fs = (c ∷ cur) ∷ fs

unfoldable pub fields_from : Text → Text → List Text
unfolding emit_field
fields_from cur [] = emit_field cur []
fields_from cur (c ∷ s) = elim (is_space c) [
  | true ↦ emit_field cur (fields_from [] s)
  | false ↦ fields_from (cur ++ c ∷ []) s
]

-- strings.Fields
unfoldable pub fields : Text → List Text
unfolding fields_from
fields s = fields_from [] s

fields_runs : fields (codes "  a.b\tA  1.2 ") ≡ codes "a.b" ∷ codes "A" ∷ codes "1.2" ∷ []
unfolding fields is_space
fields_runs = refl

split_runs : split (codes "a..b.") dot ≡ codes "a" ∷ [] ∷ codes "b" ∷ [] ∷ []
unfolding split
split_runs = refl

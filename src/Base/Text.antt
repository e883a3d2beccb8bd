-- ===== src/Base/Text.antt =====
-- What the code uses of Go's package `strings`: trimming, cutting, splitting, joining and lower case,
-- on bytes. A white space rune beyond ASCII is matched by the bytes of its encoding.
pub mod Laws
use mathlib.Core.List.{reverse}
use wireguide.Base.{
  ℕ, zero, suc, ◌+◌, Bool, true, false, ◌&&◌, ◌||◌, not, List, [], ◌∷◌, ◌++◌, Option, none, some,
  if◌then◌else◌, ◌==◌, leb, ltb,
}
use wireguide.Base.Bytes.{Bytes}

abbrev pub is_ascii_space : ℕ → Bool
is_ascii_space c = (leb 9 c && leb c 13) || c == 32

-- U+0085 and U+00A0
abbrev pub is_latin_space : ℕ → ℕ → Bool
is_latin_space c d = c == 0xC2 && (d == 0x85 || d == 0xA0)

-- U+1680, U+2000 to U+200A, U+2028, U+2029, U+202F, U+205F and U+3000
abbrev pub is_wide_space : ℕ → ℕ → ℕ → Bool
is_wide_space c d e =
    (c == 0xE1 && (d == 0x9A && e == 0x80))
    || (c == 0xE2
        && ((d == 0x80 && ((leb 0x80 e && leb e 0x8A) || (e == 0xA8 || e == 0xA9) || e == 0xAF))
            || (d == 0x81 && e == 0x9F)))
    || (c == 0xE3 && (d == 0x80 && e == 0x80))

abbrev pub width : Bool → Bool → Bool → ℕ
width one two three = if one then 1 else if two then 2 else if three then 3 else 0

-- How many bytes the white space at the front has, and the same of reversed text.
unfoldable pub space_width : Bytes → ℕ
space_width [] = 0
space_width (c ∷ []) = width (is_ascii_space c) false false
space_width (c ∷ d ∷ []) = width (is_ascii_space c) (is_latin_space c d) false
space_width (c ∷ d ∷ e ∷ _) = width (is_ascii_space c) (is_latin_space c d) (is_wide_space c d e)

unfoldable pub space_width_back : Bytes → ℕ
space_width_back [] = 0
space_width_back (c ∷ []) = width (is_ascii_space c) false false
space_width_back (d ∷ c ∷ []) = width (is_ascii_space d) (is_latin_space c d) false
space_width_back (e ∷ d ∷ c ∷ _) =
    width (is_ascii_space e) (is_latin_space d e) (is_wide_space c d e)

-- Drop white space, behind the given number of bytes that belong to one already seen.
unfoldable pub strip : (Bytes → ℕ) → ℕ → Bytes → Bytes
strip wide skip [] = []
strip wide zero (c ∷ s) = elim (wide (c ∷ s)) [ zero ↦ c ∷ s | suc k ↦ strip wide k s ]
strip wide (suc skip) (c ∷ s) = strip wide skip s

unfoldable pub trim_left : Bytes → Bytes
unfolding strip space_width
trim_left = strip space_width 0

unfoldable pub trim_right : Bytes → Bytes
unfolding strip space_width_back
trim_right s = reverse (strip space_width_back 0 (reverse s))

-- strings.TrimSpace
unfoldable pub trim_space : Bytes → Bytes
unfolding trim_left trim_right
trim_space s = trim_right (trim_left s)

-- strings.Cut at a byte, which is strings.SplitN(s, sep, 2)
unfoldable pub cut : ℕ → Bytes → Option (Bytes × Bytes)
cut b [] = none
cut b (c ∷ s) =
    let rest = cut b s in
    if c == b
    then some ([], s)
    else elim rest [ none ↦ none | some (before, after) ↦ some (c ∷ before, after) ]

-- what is in front of the first `b`, or all
unfoldable pub before : ℕ → Bytes → Bytes
before b [] = []
before b (c ∷ s) = let rest = before b s in if c == b then [] else c ∷ rest

abbrev pub in_front : ℕ → List Bytes → List Bytes
in_front c [] = (c ∷ []) ∷ []
in_front c (x ∷ xs) = (c ∷ x) ∷ xs

-- strings.Split at a byte
unfoldable pub split : ℕ → Bytes → List Bytes
split b [] = [] ∷ []
split b (c ∷ s) = let rest = split b s in if c == b then [] ∷ rest else in_front c rest

-- strings.Join
unfoldable pub join : Bytes → List Bytes → Bytes
join sep [] = []
join sep (x ∷ []) = x
join sep (x ∷ y ∷ ys) = x ++ (sep ++ join sep (y ∷ ys))

-- strings.IndexByte(s, b) >= 0
unfoldable pub has_byte : ℕ → Bytes → Bool
has_byte b [] = false
has_byte b (c ∷ s) = c == b || has_byte b s

abbrev pub lower_byte : ℕ → ℕ
lower_byte c = if leb b'A' c && leb c b'Z' then c + 32 else c

-- strings.ToLower, for comparison with an ASCII word: beside A to Z, only U+212A (the Kelvin sign)
-- and U+0130 have a lower case letter in ASCII, k and i.
unfoldable pub to_lower : Bytes → Bytes
to_lower [] = []
to_lower (c ∷ []) = lower_byte c ∷ []
to_lower (c ∷ d ∷ []) =
    if c == 0xC4 && d == 0xB0 then b'i' ∷ [] else lower_byte c ∷ to_lower (d ∷ [])
to_lower (c ∷ d ∷ e ∷ s) =
    let after_one = to_lower (d ∷ e ∷ s) in
    let after_two = to_lower (e ∷ s) in
    let after_three = to_lower s in
    if c == 0xE2 && (d == 0x84 && e == 0xAA)
    then b'k' ∷ after_three
    else if c == 0xC4 && d == 0xB0
    then b'i' ∷ after_two
    else lower_byte c ∷ after_one

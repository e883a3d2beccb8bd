-- ===== src/Update/Version.antt =====
-- isNewerVersion of internal/update/checker.go: when a release is newer than the running version.
use wireguide.Base.{
  Bool, true, false, List, [], ◌∷◌, Option, none, some, if◌then◌else◌, ◌≡◌, refl, arith,
}
use wireguide.Base.Bytes.{Bytes}
use wireguide.Base.Decimal.{atoi}
use wireguide.Base.Int.{ℤ, ltb_ℤ}
use wireguide.Base.Text.{split}

-- the loop of parseParts; `none` is its nil, since a version has at least one part
unfoldable pub parse_each : List Bytes → Option (List ℤ)
unfolding atoi
parse_each [] = some []
parse_each (s ∷ ss) =
    let rest = parse_each ss in
    elim (atoi s) [ none ↦ none | some n ↦ elim rest [ none ↦ none | some ns ↦ some (n ∷ ns) ] ]

-- parseParts
unfoldable pub parse_parts : Bytes → Option (List ℤ)
unfolding parse_each split
parse_parts v = parse_each (split b'.' v)

-- the loop over both versions, and the comparison of their lengths behind it
unfoldable pub is_newer_parts : List ℤ → List ℤ → Bool
is_newer_parts [] cp = false
is_newer_parts (l ∷ lp) [] = true
is_newer_parts (l ∷ lp) (c ∷ cp) =
    let rest = is_newer_parts lp cp in if ltb_ℤ c l then true else if ltb_ℤ l c then false else rest

-- the nil checks
unfoldable pub is_newer_parsed : Option (List ℤ) → Option (List ℤ) → Bool
unfolding is_newer_parts
is_newer_parsed none cp = false
is_newer_parsed (some lp) none = false
is_newer_parsed (some lp) (some cp) = is_newer_parts lp cp

-- isNewerVersion
unfoldable pub is_newer_version : Bytes → Bytes → Bool
unfolding is_newer_parsed parse_parts
is_newer_version latest current = is_newer_parsed (parse_parts latest) (parse_parts current)

is_newer_parts_trans :
    (a b c : List ℤ)
    → is_newer_parts a b ≡ true
    → is_newer_parts b c ≡ true
    → is_newer_parts a c ≡ true
unfolding is_newer_parts
is_newer_parts_trans [] b c h k = cc
is_newer_parts_trans (x ∷ a) [] c h k = cc
is_newer_parts_trans (x ∷ a) (y ∷ b) [] h k = refl
is_newer_parts_trans (x ∷ a) (y ∷ b) (z ∷ c) h k = ground (arith, is_newer_parts_trans a b c)

is_newer_parts_asym : (a b : List ℤ) → is_newer_parts a b ≡ true → is_newer_parts b a ≡ false
unfolding is_newer_parts
is_newer_parts_asym [] b h = cc
is_newer_parts_asym (x ∷ a) [] h = refl
is_newer_parts_asym (x ∷ a) (y ∷ b) h = ground (arith, is_newer_parts_asym a b)

is_newer_parsed_trans :
    (a b c : Option (List ℤ))
    → is_newer_parsed a b ≡ true
    → is_newer_parsed b c ≡ true
    → (is_newer_parsed a c ≡ true) × (is_newer_parsed c a ≡ false)
unfolding is_newer_parsed
is_newer_parsed_trans none b c h k = cc
is_newer_parsed_trans (some x) none c h k = cc
is_newer_parsed_trans (some x) (some y) none h k = cc
is_newer_parsed_trans (some x) (some y) (some z) h k =
    let newer = is_newer_parts_trans x y z h k in (newer, is_newer_parts_asym x z newer)

-- A version that is newer than one that is newer than a third is newer than the third, and the third
-- is not newer than it.
pub is_newer_version_trans :
    (a b c : Bytes)
    → is_newer_version a b ≡ true
    → is_newer_version b c ≡ true
    → (is_newer_version a c ≡ true) × (is_newer_version c a ≡ false)
unfolding is_newer_version
is_newer_version_trans a b c h k =
    is_newer_parsed_trans (parse_parts a) (parse_parts b) (parse_parts c) h k

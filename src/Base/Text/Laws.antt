-- ===== src/Base/Text/Laws.antt =====
-- Laws of the text functions on text without the separator, and on text that is trimmed.
use mathlib.Core.List.{reverse, reverse-append, reverse-reverse}
use wireguide.Base.{
  ℕ, Bool, true, false, ◌&&◌, ◌||◌, not, List, [], ◌∷◌, ◌++◌, some, ◌==◌, ltb, ◌≡◌, refl, ap, ◌∙◌,
  arith, map, All,
}
use wireguide.Base.Bytes.{Bytes}
use wireguide.Base.Text.{
  is_ascii_space, space_width, space_width_back, strip, trim_left, trim_right, trim_space, cut,
  before, split, join, has_byte,
}

-- An ASCII byte that is no white space.
abbrev pub is_plain : ℕ → Bool
is_plain c = ltb c 128 && not (is_ascii_space c)

abbrev pub starts_plain : Bytes → Bool
starts_plain [] = false
starts_plain (c ∷ s) = is_plain c

space_width-plain : (s : Bytes) → starts_plain s ≡ true → space_width s ≡ 0
unfolding space_width
space_width-plain [] h = refl
space_width-plain (c ∷ []) h = ground arith
space_width-plain (c ∷ d ∷ []) h = ground arith
space_width-plain (c ∷ d ∷ e ∷ s) h = ground arith

space_width_back-plain : (s : Bytes) → starts_plain s ≡ true → space_width_back s ≡ 0
unfolding space_width_back
space_width_back-plain [] h = refl
space_width_back-plain (c ∷ []) h = ground arith
space_width_back-plain (d ∷ c ∷ []) h = ground arith
space_width_back-plain (e ∷ d ∷ c ∷ s) h = ground arith

strip-none : (wide : Bytes → ℕ) (s : Bytes) → wide s ≡ 0 → strip wide 0 s ≡ s
unfolding strip
strip-none wide [] h = refl
strip-none wide (c ∷ s) h = ground arith

pub trim_left-plain : (s : Bytes) → starts_plain s ≡ true → trim_left s ≡ s
unfolding trim_left
trim_left-plain s h = strip-none space_width s (space_width-plain s h)

pub trim_right-plain : (s : Bytes) → starts_plain (reverse s) ≡ true → trim_right s ≡ s
unfolding trim_right
trim_right-plain s h =
    ap reverse (strip-none space_width_back (reverse s) (space_width_back-plain (reverse s) h))
    ∙ reverse-reverse s

-- Text that starts and ends with a plain byte.
abbrev pub is_trimmed : Bytes → Bool
is_trimmed s = starts_plain s && starts_plain (reverse s)

pub trim_space-trimmed : (s : Bytes) → is_trimmed s ≡ true → trim_space s ≡ s
unfolding trim_space
trim_space-trimmed s h =
    ap trim_right (trim_left-plain s (ground arith)) ∙ trim_right-plain s (ground arith)

trim_left-blank : (s : Bytes) → trim_left (32 ∷ s) ≡ trim_left s
unfolding trim_left strip space_width
trim_left-blank [] = refl
trim_left-blank (c ∷ []) = refl
trim_left-blank (c ∷ d ∷ s) = refl

pub trim_space-blank : (s : Bytes) → is_trimmed s ≡ true → trim_space (32 ∷ s) ≡ s
unfolding trim_space
trim_space-blank s h = ap trim_right (trim_left-blank s) ∙ trim_space-trimmed s h

starts_plain-append : (s t : Bytes) → starts_plain s ≡ true → starts_plain (s ++ t) ≡ true
starts_plain-append [] t h = cc
starts_plain-append (c ∷ s) t h = h

starts_plain-reverse :
    (s t u : Bytes)
    → starts_plain (reverse u) ≡ true
    → starts_plain (reverse (s ++ (t ++ u))) ≡ true
starts_plain-reverse s t u h =
    rw (reverse-append s (t ++ u), reverse-append t u)
      (starts_plain-append (reverse u ++ reverse t) (reverse s)
        (starts_plain-append (reverse u) (reverse t) h))

strip-blank_back : (s : Bytes) → strip space_width_back 0 (32 ∷ s) ≡ strip space_width_back 0 s
unfolding strip space_width_back
strip-blank_back [] = refl
strip-blank_back (c ∷ []) = refl
strip-blank_back (c ∷ d ∷ s) = refl

trim_right-blank : (s : Bytes) → trim_right (s ++ (32 ∷ [])) ≡ trim_right s
unfolding trim_right
trim_right-blank s =
    ap (λ r. reverse (strip space_width_back 0 r)) (reverse-append s (32 ∷ []))
    ∙ ap reverse (strip-blank_back (reverse s))

pub trim_space-blank_after : (s : Bytes) → is_trimmed s ≡ true → trim_space (s ++ (32 ∷ [])) ≡ s
unfolding trim_space
trim_space-blank_after s h =
    ap trim_right
      (trim_left-plain (s ++ (32 ∷ [])) (starts_plain-append s (32 ∷ []) (ground arith)))
    ∙ trim_right-blank s
    ∙ trim_right-plain s (ground arith)

-- Trimmed text around anything is trimmed.
pub is_trimmed-append :
    (s t u : Bytes) → is_trimmed s ≡ true → is_trimmed u ≡ true → is_trimmed (s ++ (t ++ u)) ≡ true
is_trimmed-append s t u h k =
    ground (arith, starts_plain-append s (t ++ u), starts_plain-reverse s t u)

pub has_byte-append : (b : ℕ) (s t : Bytes) → has_byte b (s ++ t) ≡ (has_byte b s || has_byte b t)
unfolding has_byte
has_byte-append b [] t = refl
has_byte-append b (c ∷ s) t = ground (arith, has_byte-append b s t)

pub before-without : (b : ℕ) (s : Bytes) → has_byte b s ≡ false → before b s ≡ s
unfolding before has_byte
before-without b [] h = refl
before-without b (c ∷ s) h = ground (arith, before-without b s)

pub cut-append : (b : ℕ) (s t : Bytes) → has_byte b s ≡ false → cut b (s ++ (b ∷ t)) ≡ some (s, t)
unfolding cut has_byte
cut-append b [] t h = ground arith
cut-append b (c ∷ s) t h = ground (arith, cut-append b s t)

pub split-without : (b : ℕ) (s : Bytes) → has_byte b s ≡ false → split b s ≡ s ∷ []
unfolding split has_byte
split-without b [] h = refl
split-without b (c ∷ s) h = ground (arith, split-without b s)

pub split-append :
    (b : ℕ) (s t : Bytes) → has_byte b s ≡ false → split b (s ++ (b ∷ t)) ≡ s ∷ split b t
unfolding split has_byte
split-append b [] t h = ground arith
split-append b (c ∷ s) t h = ground (arith, split-append b s t)

abbrev pub Lacks : ℕ → Bytes → Type 0
Lacks b s = has_byte b s ≡ false

-- Splitting at a byte gives back what was joined by that byte.
pub split-join :
    (b : ℕ) (x : Bytes) (xs : List Bytes)
    → All (Lacks b) (x ∷ xs)
    → split b (join (b ∷ []) (x ∷ xs)) ≡ x ∷ xs
unfolding join
split-join b x [] h = split-without b x h.0
split-join b x (y ∷ xs) h =
    split-append b x (join (b ∷ []) (y ∷ xs)) h.0 ∙ ap (◌∷◌ x) (split-join b y xs h.1)

abbrev pub blank : Bytes → Bytes
blank s = 32 ∷ s

split-blank :
    (b : ℕ) (s z : Bytes) (zs : List Bytes)
    → (32 == b) ≡ false
    → split b s ≡ z ∷ zs
    → split b (blank s) ≡ blank z ∷ zs
unfolding split
split-blank b s z zs apart e = rw (apart, e) refl

-- The same where a space follows each separator.
pub split-join-blank :
    (b : ℕ) (x : Bytes) (xs : List Bytes)
    → (32 == b) ≡ false
    → All (Lacks b) (x ∷ xs)
    → split b (join (b ∷ 32 ∷ []) (x ∷ xs)) ≡ x ∷ map blank xs
unfolding join
split-join-blank b x [] apart h = split-without b x h.0
split-join-blank b x (y ∷ xs) apart h =
    split-append b x (blank (join (b ∷ 32 ∷ []) (y ∷ xs))) h.0
    ∙ ap (◌∷◌ x) (
        split-blank b (join (b ∷ 32 ∷ []) (y ∷ xs)) y (map blank xs) apart
          (split-join-blank b y xs apart h.1))

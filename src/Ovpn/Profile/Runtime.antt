-- ===== src/Ovpn/Profile/Runtime.antt =====
-- runtimeConfig of internal/ovpn/config.go: the profile without the directives that openvpn must not
-- see, with its lines at their numbers.
use mathlib.Core.List.{append-nil, append_assoc}
use wireguide.Base.{
  ℕ, suc, Bool, true, false, List, [], ◌∷◌, ◌++◌, if◌then◌else◌, ◌==◌, any, ◌≡◌, refl, sym, ap, ◌∙◌,
  arith, All, Bool-cases, ==_iff, inl, inr,
}
use wireguide.Base.Bytes.{Bytes}
use wireguide.Base.Text.{split, join, has_byte, in_front}
use wireguide.Base.Text.Laws.{Lacks, split-join}

-- strings.SplitAfter at a line feed
unfoldable pub split_after : Bytes → List Bytes
split_after [] = [] ∷ []
split_after (c ∷ s) =
    let rest = split_after s in if c == b'\n' then (c ∷ []) ∷ rest else in_front c rest

-- strings.HasSuffix(l, "\n")
abbrev ends_line : Bytes → Bool
ends_line [] = false
ends_line (c ∷ []) = c == b'\n'
ends_line (c ∷ d ∷ s) = ends_line (d ∷ s)

abbrev pub is_dropped : List ℕ → ℕ → Bool
is_dropped drop n = any (λ m. m == n) drop

-- the loop over the lines, from number `n` on
unfoldable pub keep_lines : List ℕ → ℕ → List Bytes → Bytes
keep_lines drop n [] = []
keep_lines drop n (l ∷ ls) =
    (if is_dropped drop n then (if ends_line l then b'\n' ∷ [] else []) else l)
    ++ keep_lines drop (suc n) ls

-- runtimeConfig
unfoldable pub runtime_config : List ℕ → Bytes → Bytes
unfolding split_after keep_lines
runtime_config [] s = s
runtime_config (n ∷ drop) s = keep_lines (n ∷ drop) 1 (split_after s)

-- The lines without those of the given numbers.
abbrev pub blank_lines : List ℕ → ℕ → List Bytes → List Bytes
blank_lines drop n [] = []
blank_lines drop n (l ∷ ls) = (if is_dropped drop n then [] else l) ∷ blank_lines drop (suc n) ls

abbrev with_ends : List Bytes → List Bytes
with_ends [] = []
with_ends (x ∷ []) = x ∷ []
with_ends (x ∷ y ∷ ys) = (x ++ b'\n' ∷ []) ∷ with_ends (y ∷ ys)

abbrev newline : Bytes
newline = b'\n' ∷ []

split-cons : (s : Bytes) → (x : Bytes) × (xs : List Bytes) × (split b'\n' s ≡ x ∷ xs)
unfolding split
split-cons [] = ([], [], refl)
split-cons (c ∷ s) = elim (Bool-cases (c == b'\n')) [
  | inl e ↦ ([], split b'\n' s, rw e refl)
  | inr e ↦ let (x, xs, h) = split-cons s in (c ∷ x, xs, rw (e, h) refl)
]

with_ends-in_front :
    (c : ℕ) (x : Bytes) (xs : List Bytes)
    → in_front c (with_ends (x ∷ xs)) ≡ with_ends ((c ∷ x) ∷ xs)
with_ends-in_front c x [] = refl
with_ends-in_front c x (y ∷ xs) = refl

split_after-split : (s : Bytes) → split_after s ≡ with_ends (split b'\n' s)
unfolding split_after split
split_after-split [] = refl
split_after-split (c ∷ s) =
    let (x, xs, h) = split-cons s in
    elim (Bool-cases (c == b'\n')) [
      | inl e ↦
          rw (e, split_after-split s, h)
            (ap (λ b. (b ∷ []) ∷ with_ends (x ∷ xs)) ((==_iff c b'\n').0 e))
      | inr e ↦ rw (e, split_after-split s, h) (with_ends-in_front c x xs)
    ]

in_front-Lacks :
    (c : ℕ) (xs : List Bytes)
    → (c == b'\n') ≡ false
    → All (Lacks b'\n') xs
    → All (Lacks b'\n') (in_front c xs)
unfolding has_byte
in_front-Lacks c [] h k = (ground arith, tt)
in_front-Lacks c (x ∷ xs) h k = (ground arith, k.1)

split-Lacks : (s : Bytes) → All (Lacks b'\n') (split b'\n' s)
unfolding split has_byte
split-Lacks [] = (refl, tt)
split-Lacks (c ∷ s) = elim (Bool-cases (c == b'\n')) [
  | inl e ↦ rw e (refl, split-Lacks s)
  | inr e ↦ rw e (in_front-Lacks c (split b'\n' s) e (split-Lacks s))
]

ends_line-Lacks : (l : Bytes) → Lacks b'\n' l → ends_line l ≡ false
unfolding has_byte
ends_line-Lacks [] h = refl
ends_line-Lacks (c ∷ []) h = ground arith
ends_line-Lacks (c ∷ d ∷ s) h = ends_line-Lacks (d ∷ s) (ground arith)

ends_line-append : (l : Bytes) → ends_line (l ++ newline) ≡ true
ends_line-append [] = refl
ends_line-append (c ∷ []) = refl
ends_line-append (c ∷ d ∷ s) = ends_line-append (d ∷ s)

keep_lines-blank_lines :
    (drop : List ℕ) (n : ℕ) (x : Bytes) (xs : List Bytes)
    → All (Lacks b'\n') (x ∷ xs)
    → keep_lines drop n (with_ends (x ∷ xs)) ≡ join newline (blank_lines drop n (x ∷ xs))
unfolding keep_lines join
keep_lines-blank_lines drop n x [] h = elim (Bool-cases (is_dropped drop n)) [
  | inl e ↦ rw (e, ends_line-Lacks x h.0) refl
  | inr e ↦ rw e (append-nil x)
]
keep_lines-blank_lines drop n x (y ∷ ys) h =
    let ih = keep_lines-blank_lines drop (suc n) y ys h.1 in
    elim (Bool-cases (is_dropped drop n)) [
      | inl e ↦ rw (e, ends_line-append x) (ap (λ r. newline ++ r) ih)
      | inr e ↦ rw e (append_assoc x newline _ ∙ ap (λ r. x ++ (newline ++ r)) ih)
    ]

blank_lines-Lacks :
    (drop : List ℕ) (n : ℕ) (xs : List Bytes)
    → All (Lacks b'\n') xs
    → All (Lacks b'\n') (blank_lines drop n xs)
unfolding has_byte
blank_lines-Lacks drop n [] h = tt
blank_lines-Lacks drop n (x ∷ xs) h = (ground arith, blank_lines-Lacks drop (suc n) xs h.1)

blank_lines-none : (n : ℕ) (xs : List Bytes) → blank_lines [] n xs ≡ xs
blank_lines-none n [] = refl
blank_lines-none n (x ∷ xs) = ap (◌∷◌ x) (blank_lines-none (suc n) xs)

split-keep_lines :
    (drop : List ℕ) (ls : List Bytes) (x : Bytes) (xs : List Bytes)
    → ls ≡ x ∷ xs
    → All (Lacks b'\n') ls
    → split b'\n' (keep_lines drop 1 (with_ends ls)) ≡ blank_lines drop 1 ls
split-keep_lines drop [] x xs e h = cc
split-keep_lines drop (l ∷ ls) x xs e h =
    ap (split b'\n') (keep_lines-blank_lines drop 1 l ls h)
    ∙ split-join b'\n' (if is_dropped drop 1 then [] else l) (blank_lines drop 2 ls)
        (blank_lines-Lacks drop 1 (l ∷ ls) h)

keep_lines-split :
    (drop : List ℕ) (s : Bytes)
    → split b'\n' (keep_lines drop 1 (split_after s)) ≡ blank_lines drop 1 (split b'\n' s)
keep_lines-split drop s =
    let (x, xs, h) = split-cons s in
    ap (λ ls. split b'\n' (keep_lines drop 1 ls)) (split_after-split s)
    ∙ split-keep_lines drop (split b'\n' s) x xs h (split-Lacks s)

-- The runtime profile has the lines of the profile, but that those with a dropped number are empty: no
-- line moves to another number.
pub runtime_config-lines :
    (drop : List ℕ) (s : Bytes)
    → split b'\n' (runtime_config drop s) ≡ blank_lines drop 1 (split b'\n' s)
unfolding runtime_config
runtime_config-lines [] s = sym (blank_lines-none 1 (split b'\n' s))
runtime_config-lines (n ∷ drop) s = keep_lines-split (n ∷ drop) s

-- ===== src/Base/Decimal/Itoa.antt =====
-- `strconv.Itoa` of a number that is not negative, and that Atoi reads it back.
use wireguide.Base.{
  ℕ, zero, suc, ◌+◌, ◌-◌, ◌*◌, ◌/◌, ◌%◌, ◌^◌, ◌<◌, Bool, true, false, [], ◌∷◌, ◌++◌, Option, none,
  some, if◌then◌else◌, ◌==◌, ltb, ◌≡◌, refl, ap, ◌∙◌, arith, all, Bool-cases, inl, inr,
}
use wireguide.Base.Bytes.{Bytes}
use wireguide.Base.Int.{pos}
use wireguide.Base.Decimal.{is_digit, digits_from, atoi}

abbrev pub digit : ℕ → ℕ
digit n = n + b'0'

-- the digits of a number below 10 ^ places
unfoldable pub digits : ℕ → ℕ → Bytes
digits zero n = []
digits (suc places) n =
    let rest = digits places (n / 10) in
    if ltb n 10 then digit n ∷ [] else rest ++ digit (n % 10) ∷ []

-- Itoa; a 64-bit `int` has at most 19 digits.
unfoldable pub itoa : ℕ → Bytes
unfolding digits
itoa = digits 19

abbrev pub power : ℕ → ℕ
power zero = 1
power (suc k) = 10 * power k

abbrev read_digit : Option ℕ → ℕ → Option ℕ
read_digit none d = none
read_digit (some n) d = some (n * 10 + d)

digits_from-snoc :
    (n d : ℕ) (s : Bytes)
    → d < 10
    → digits_from n (s ++ digit d ∷ []) ≡ read_digit (digits_from n s) d
unfolding digits_from
digits_from-snoc n d [] h = ground arith
digits_from-snoc n d (c ∷ s) h = ground (arith, digits_from-snoc (n * 10 + (c - b'0')) d s h)

digits_from-digits : (places n : ℕ) → n < power places → digits_from 0 (digits places n) ≡ some n
unfolding digits digits_from
digits_from-digits zero n h = ap some (omega arith)
digits_from-digits (suc places) n h = elim (Bool-cases (ltb n 10)) [
  | inl one ↦ rw one (ground arith)
  | inr more ↦ rw more (
      digits_from-snoc 0 (n % 10) (digits places (n / 10)) (omega arith)
      ∙ ap (λ o. read_digit o (n % 10)) (digits_from-digits places (n / 10) (omega arith))
      ∙ ap some (omega arith))
]

abbrev pub starts_digit : Bytes → Bool
starts_digit [] = false
starts_digit (c ∷ s) = is_digit c

starts_digit-append : (s t : Bytes) → starts_digit s ≡ true → starts_digit (s ++ t) ≡ true
starts_digit-append [] t h = cc
starts_digit-append (c ∷ s) t h = h

starts_digit-digits :
    (places n : ℕ) → n < power (suc places) → starts_digit (digits (suc places) n) ≡ true
unfolding digits
starts_digit-digits zero n h = ground arith
starts_digit-digits (suc places) n h = elim (Bool-cases (ltb n 10)) [
  | inl one ↦ rw one (ground arith)
  | inr more ↦ rw more (
      starts_digit-append (digits (suc places) (n / 10)) (digit (n % 10) ∷ [])
        (starts_digit-digits places (n / 10) (omega arith)))
]

atoi-unsigned :
    (s : Bytes) (n : ℕ)
    → starts_digit s ≡ true
    → digits_from 0 s ≡ some n
    → n < 2 ^ 63
    → atoi s ≡ some (pos n)
unfolding atoi
atoi-unsigned [] n h e small = cc
atoi-unsigned (c ∷ s) n h e small =
    let in_bounds : ltb n (2 ^ 63) ≡ true = ground arith in
    let no_minus : (c == b'-') ≡ false = ground arith in
    let no_plus : (c == b'+') ≡ false = ground arith in rw (no_minus, no_plus, e, in_bounds) refl

all_digits-append :
    (s t : Bytes) → all is_digit s ≡ true → all is_digit t ≡ true → all is_digit (s ++ t) ≡ true
all_digits-append [] t h k = k
all_digits-append (c ∷ s) t h k = ground (arith, all_digits-append s t)

all-digits-digits : (places n : ℕ) → all is_digit (digits places n) ≡ true
unfolding digits
all-digits-digits zero n = refl
all-digits-digits (suc places) n = elim (Bool-cases (ltb n 10)) [
  | inl one ↦ rw one (ground arith)
  | inr more ↦ rw more (
      all_digits-append (digits places (n / 10)) (digit (n % 10) ∷ [])
        (all-digits-digits places (n / 10)) (ground arith))
]

pub all_digits-itoa : (n : ℕ) → all is_digit (itoa n) ≡ true
unfolding itoa
all_digits-itoa n = all-digits-digits 19 n

-- Atoi reads back what Itoa writes.
pub atoi-itoa : (n : ℕ) → n < 2 ^ 63 → atoi (itoa n) ≡ some (pos n)
unfolding itoa
atoi-itoa n small =
    atoi-unsigned (digits 19 n) n (starts_digit-digits 18 n (omega arith))
      (digits_from-digits 19 n (omega arith)) small

-- ===== src/Base/Result.antt =====
-- A Go function that returns `(value, error)`: the value, or the error.
use mathlib.Core.Path.{◌≡◌, refl, subst}

pub data Result {ℓ κ} (E : Type ℓ) (A : Type κ) : Type (ℓ ⊔ κ) where
  ok : A → Result E A
  err : E → Result E A

module _ {ℓ} {E A B : Type ℓ} where
  infixl 5 ◌>>=◌
  -- `if err != nil { return err }`
  abbrev pub ◌>>=◌ : Result E A → (A → Result E B) → Result E B
  ok a >>= f = f a
  err e >>= f = err e

pub >>=-assoc {ℓ} :
    {E A B C : Type ℓ} (m : Result E A) (f : A → Result E B) (g : B → Result E C)
    → ((m >>= f) >>= g) ≡ (m >>= λ a. f a >>= g)
>>=-assoc (ok a) f g = refl
>>=-assoc (err e) f g = refl

-- One step of a loop of fallible steps.
pub >>=-step {ℓ} :
    {E A B C D : Type ℓ} (m : Result E A) (f : A → B) (g : B → Result E C) (k : A → Result E D)
    (h : D → Result E C)
    → ((a : A) → g (f a) ≡ (k a >>= h))
    → ((m >>= λ a. ok (f a)) >>= g) ≡ ((m >>= k) >>= h)
>>=-step (ok a) f g k h e = e a
>>=-step (err x) f g k h e = refl

-- What holds of the value, if there is no error.
abbrev pub OnOk {ℓ κ} : {E A : Type ℓ} → (A → Type κ) → Result E A → Type κ
OnOk P (ok a) = P a
OnOk P (err e) = Unit

pub OnOk-bind {ℓ κ} :
    {E A B : Type ℓ} (P : A → Type κ) (Q : B → Type κ) (m : Result E A) (f : A → Result E B)
    → OnOk P m
    → ((a : A) → P a → OnOk Q (f a))
    → OnOk Q (m >>= f)
OnOk-bind P Q (ok a) f h k = k a h
OnOk-bind P Q (err e) f h k = tt

ok-injective {ℓ} : (E : Type ℓ) {A : Type ℓ} (a b : A) → ◌≡◌ {A = Result E A} (ok a) (ok b) → a ≡ b
ok-injective E a b e = cc

pub OnOk-apply {ℓ κ} :
    {E A : Type ℓ} (P : A → Type κ) (m : Result E A) {a : A} → OnOk P m → m ≡ ok a → P a
OnOk-apply {E} P (ok b) h e = subst P (ok-injective E b _ e) h
OnOk-apply {E} P (err x) h e = cc

-- Both parts of a bind that gives a value gave one.
pub >>=-eq-ok {ℓ} :
    {E A B : Type ℓ} (m : Result E A) (f : A → Result E B) (b : B)
    → (m >>= f) ≡ ok b
    → (a : A) × (m ≡ ok a) × (f a ≡ ok b)
>>=-eq-ok (ok a) f b h = (a, refl, h)
>>=-eq-ok (err e) f b h = cc

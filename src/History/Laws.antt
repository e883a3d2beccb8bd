-- ===== src/History/Laws.antt =====
-- What internal/history/history.go keeps of the sessions, whatever operations come.
use mathlib.Core.List.{reverse, reverse-append}
use wireguide.Base.{
  ℕ, zero, suc, Bool, true, false, not, ◌&&◌, ◌≤◌, List, [], ◌∷◌, ◌++◌, ◌-◌, if◌then◌else◌, ◌≡◌,
  refl, ap, ◌∙◌, arith, length, drop, all, filter,
}
use wireguide.Base.Bytes.{Bytes}
use wireguide.Base.Int.{ℤ}
use wireguide.History.{
  Session, max_sessions, trim, record_connect, close_session, close_first, record_disconnect,
  close_all, close_open_sessions, is_phantom, get_all, clear,
}

-- One operation on the file, with what it is given.
pub data Operation : Type 0 where
  connects : (saves : Bool) (id : Bytes) (now : ℕ) (name : Bytes) → Operation
  disconnects : (saves : Bool) (id : Bytes) (now : ℕ) (rx tx : ℤ) (reason : Bytes) → Operation
  closes : (saves : Bool) (now : ℕ) (reason : Bytes) → Operation
  clears : (removes : Bool) → Operation

unfoldable pub run : Operation → List Session → List Session
unfolding record_connect record_disconnect close_open_sessions clear
run (connects saves id now name) s = record_connect saves id now name s
run (disconnects saves id now rx tx reason) s = record_disconnect saves id now rx tx reason s
run (closes saves now reason) s = close_open_sessions saves now reason s
run (clears removes) s = clear removes s

-- the file after the operations, the last one first
unfoldable pub after : List Operation → List Session
unfolding run
after [] = []
after (o ∷ ops) = run o (after ops)

abbrev is_real : Session → Bool
is_real s = not (is_phantom s)

abbrev IsGood : List Session → Type 0
IsGood s = (length s ≤ max_sessions) × (all is_real s ≡ true)

length-drop {ℓ} : {A : Type ℓ} (n : ℕ) (xs : List A) → length (drop n xs) ≡ length xs - n
length-drop zero xs = omega arith
length-drop (suc n) [] = omega arith
length-drop (suc n) (x ∷ xs) = omega (arith, length-drop n xs)

all-append {ℓ} :
    {A : Type ℓ} (p : A → Bool) (xs ys : List A) → all p (xs ++ ys) ≡ (all p xs && all p ys)
all-append p [] ys = refl
all-append p (x ∷ xs) ys = ground (arith, all-append p xs ys)

all-drop {ℓ} :
    {A : Type ℓ} (p : A → Bool) (n : ℕ) (xs : List A) → all p xs ≡ true → all p (drop n xs) ≡ true
all-drop p zero xs h = h
all-drop p (suc n) [] h = refl
all-drop p (suc n) (x ∷ xs) h = all-drop p n xs (ground arith)

all-reverse {ℓ} : {A : Type ℓ} (p : A → Bool) (xs : List A) → all p (reverse xs) ≡ all p xs
all-reverse p [] = refl
all-reverse p (x ∷ xs) =
    ap (all p) (reverse-append (x ∷ []) xs)
    ∙ all-append p (reverse xs) (x ∷ [])
    ∙ ground (arith, all-reverse p xs)

filter-all {ℓ} : {A : Type ℓ} (p : A → Bool) (xs : List A) → all p xs ≡ true → filter p xs ≡ xs
filter-all p [] h = refl
filter-all p (x ∷ xs) h = ground (arith, filter-all p xs)

trim-IsGood : (s : List Session) → all is_real s ≡ true → IsGood (trim s)
unfolding trim
trim-IsGood s h = (
  ground (arith, length-drop (length s - max_sessions) s),
  ground (arith, all-drop is_real (length s - max_sessions) s h),
)

close_session-real :
    (now : ℕ) (rx tx : ℤ) (reason : Bytes) (x : Session) (s : List Session)
    → all is_real s ≡ true
    → all is_real (close_session now rx tx reason x ++ s) ≡ true
unfolding close_session
close_session-real now rx tx reason x s h = ground arith

close_session-length :
    (now : ℕ) (rx tx : ℤ) (reason : Bytes) (x : Session) (s : List Session)
    → length (close_session now rx tx reason x ++ s) ≤ suc (length s)
unfolding close_session
close_session-length now rx tx reason x s = ground arith

close_first-length :
    (id : Bytes) (now : ℕ) (rx tx : ℤ) (reason : Bytes) (s : List Session)
    → (length (close_first id now rx tx reason s) ≤ length s)
unfolding close_first
close_first-length id now rx tx reason [] = omega arith
close_first-length id now rx tx reason (x ∷ s) =
    ground
      (arith, close_first-length id now rx tx reason s, close_session-length now rx tx reason x s)

close_first-real :
    (id : Bytes) (now : ℕ) (rx tx : ℤ) (reason : Bytes) (s : List Session)
    → all is_real s ≡ true
    → all is_real (close_first id now rx tx reason s) ≡ true
unfolding close_first
close_first-real id now rx tx reason [] h = refl
close_first-real id now rx tx reason (x ∷ s) h =
    ground (arith, close_first-real id now rx tx reason s, close_session-real now rx tx reason x s)

close_all-length :
    (now : ℕ) (reason : Bytes) (s : List Session) → length (close_all now reason s) ≤ length s
unfolding close_all
close_all-length now reason [] = omega arith
close_all-length now reason (x ∷ s) = ground (arith, close_all-length now reason s)

close_all-real :
    (now : ℕ) (reason : Bytes) (s : List Session)
    → all is_real s ≡ true
    → all is_real (close_all now reason s) ≡ true
unfolding close_all
close_all-real now reason [] h = refl
close_all-real now reason (x ∷ s) h = ground (arith, close_all-real now reason s)

saved-IsGood :
    (saves : Bool) (old new : List Session)
    → IsGood old
    → IsGood new
    → IsGood (if saves then new else old)
saved-IsGood true old new h k = k
saved-IsGood false old new h k = h

run-IsGood : (o : Operation) (s : List Session) → IsGood s → IsGood (run o s)
unfolding run record_connect record_disconnect close_open_sessions clear
run-IsGood (connects saves id now name) s h =
    saved-IsGood saves s _ h
      (trim-IsGood (s ++ _ ∷ []) (all-append is_real s (_ ∷ []) ∙ ground arith))
run-IsGood (disconnects saves [] now rx tx reason) s h = h
run-IsGood (disconnects saves (c ∷ id) now rx tx reason) s h = saved-IsGood saves s _ h (
  ground (arith, close_first-length (c ∷ id) now rx tx reason s),
  close_first-real (c ∷ id) now rx tx reason s h.1,
)
run-IsGood (closes saves now reason) s h =
    saved-IsGood saves s _ h
      (ground (arith, close_all-length now reason s), close_all-real now reason s h.1)
run-IsGood (clears removes) s h = saved-IsGood removes s [] h (omega arith, refl)

after-IsGood : (ops : List Operation) → IsGood (after ops)
unfolding after
after-IsGood [] = (omega arith, refl)
after-IsGood (o ∷ ops) = run-IsGood o (after ops) (after-IsGood ops)

-- After any operations on an empty history, there are at most 200 sessions, and GetAll lists all that
-- are stored, the newest first.
pub get_all-after :
    (ops : List Operation)
    → (length (after ops) ≤ max_sessions) × (get_all (after ops) ≡ reverse (after ops))
unfolding get_all
get_all-after ops =
    let good = after-IsGood ops in
    (good.0, filter-all is_real (reverse (after ops)) (all-reverse is_real (after ops) ∙ good.1))

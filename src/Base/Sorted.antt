-- ===== src/Base/Sorted.antt =====
-- `sort.Strings`: the names of a list in increasing order, by insertion.
use mathlib.Core.Path.{◌≡◌, refl}
use mathlib.Core.List.{List, [], ◌∷◌}
use native.Mathlib.Omega.{arith}
use wireguide.Base.Tests.{if◌then◌else◌}
use wireguide.Base.Bytes.{Bytes, contains, less}

unfoldable pub insert_sorted : Bytes → List Bytes → List Bytes
insert_sorted x [] = x ∷ []
insert_sorted x (y ∷ ys) = if less y x then y ∷ insert_sorted x ys else x ∷ y ∷ ys

unfoldable pub sort_strings : List Bytes → List Bytes
unfolding insert_sorted
sort_strings [] = []
sort_strings (x ∷ xs) = insert_sorted x (sort_strings xs)

contains-insert_sorted :
    (x v : Bytes) (ys : List Bytes) → contains (insert_sorted x ys) v ≡ contains (x ∷ ys) v
unfolding insert_sorted contains
contains-insert_sorted x v [] = refl
contains-insert_sorted x v (y ∷ ys) = ground (arith, contains-insert_sorted x v ys)

-- Sorting keeps the members.
pub contains-sort_strings :
    (v : Bytes) (xs : List Bytes) → contains (sort_strings xs) v ≡ contains xs v
unfolding sort_strings contains
contains-sort_strings v [] = refl
contains-sort_strings v (x ∷ xs) =
    ground (arith, contains-insert_sorted x v (sort_strings xs), contains-sort_strings v xs)

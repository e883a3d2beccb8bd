-- ===== src/Base/Dict.antt =====
-- A Go `map[string]V`: an association list with one entry for each key. Go iterates over a map in
-- no fixed order; where the code iterates, the model takes the order of the entries.
use mathlib.Core.Path.{◌≡◌, refl}
use mathlib.Core.Bool.{Bool, true, false}
use mathlib.Core.Option.{Option, none, some}
use mathlib.Core.List.{List, [], ◌∷◌}
use native.Mathlib.Omega.{arith}
use wireguide.Base.Tests.{if◌then◌else◌}
use wireguide.Base.Bytes.{Bytes, equal, equal_iff, contains}

abbrev pub Dict {ℓ} : Type ℓ → Type ℓ
Dict V = List (Bytes × V)

module _ {ℓ} {V : Type ℓ} where
  -- `m[k]` with its `ok`
  unfoldable pub get : Dict V → Bytes → Option V
  get [] k = none
  get ((j, v) ∷ m) k = if equal j k then some v else get m k

  -- `m[k] = v`
  unfoldable pub put : Dict V → Bytes → V → Dict V
  put [] k v = (k, v) ∷ []
  put ((j, w) ∷ m) k v = if equal j k then (j, v) ∷ m else (j, w) ∷ put m k v

  -- `delete(m, k)`
  unfoldable pub remove : Dict V → Bytes → Dict V
  remove [] k = []
  remove ((j, w) ∷ m) k = let rest = remove m k in if equal j k then rest else (j, w) ∷ rest

  -- `for k := range m`
  unfoldable pub keys : Dict V → List Bytes
  keys [] = []
  keys ((j, w) ∷ m) = j ∷ keys m

  pub get-put :
      (m : Dict V) (k j : Bytes) (v : V)
      → get (put m k v) j ≡ (if equal k j then some v else get m j)
  unfolding get put
  get-put [] k j v = refl
  get-put ((i, w) ∷ m) k j v =
      ground (arith, equal_iff k j, equal_iff i k, equal_iff i j, get-put m k j v)

  pub get-remove :
      (m : Dict V) (k j : Bytes) → get (remove m k) j ≡ (if equal k j then none else get m j)
  unfolding get remove
  get-remove [] k j = ground arith
  get-remove ((i, w) ∷ m) k j =
      ground (arith, equal_iff k j, equal_iff i k, equal_iff i j, get-remove m k j)

  -- `_, ok := m[k]`
  unfoldable pub has : Dict V → Bytes → Bool
  has m k = elim (get m k) [ none ↦ false | some _ ↦ true ]

  pub contains-keys : (m : Dict V) (k : Bytes) → contains (keys m) k ≡ has m k
  unfolding keys contains has get
  contains-keys [] k = refl
  contains-keys ((j, v) ∷ m) k = ground (arith, contains-keys m k)

pub ruleset dict_laws = (get-put, get-remove)

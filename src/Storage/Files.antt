-- ===== src/Storage/Files.antt =====
-- The directory that internal/storage works on. Two names are one file where `canon` gives the same:
-- it is the identity on a case-sensitive volume and folds case on another.
use wireguide.Base.{Bool, true, false, Option, none, some, if◌then◌else◌, ◌≡◌, refl, ap, arith}
use wireguide.Base.Bytes.{Bytes, equal, equal_iff}
use wireguide.Base.Dict.{Dict, get, put, remove, has, get-put, get-remove}

pub record File : Type 0 where
  pub name : Bytes
  pub content : Bytes

abbrev pub Files : Type 0
Files = Dict File

abbrev content_of : Option File → Option Bytes
content_of none = none
content_of (some f) = some f.content

found :
    (o : Option File)
    → (elim o [ none ↦ false | some _ ↦ true ]) ≡ true
    → (v : Bytes) × (content_of o ≡ some v)
found none h = cc
found (some f) h = (f.content, refl)

module _ (canon : Bytes → Bytes) where
  -- os.ReadFile
  unfoldable pub read_file : Files → Bytes → Option Bytes
  unfolding get
  read_file fs n = content_of (get fs (canon n))

  -- os.Stat with no error
  unfoldable pub is_file : Files → Bytes → Bool
  unfolding has
  is_file fs n = has fs (canon n)

  -- WriteFileAtomic, where it succeeds
  unfoldable pub write_file : Files → Bytes → Bytes → Files
  unfolding put
  write_file fs n v = put fs (canon n) (record { name = n; content = v })

  -- os.Remove; a missing file is left
  unfoldable pub remove_file : Files → Bytes → Files
  unfolding remove
  remove_file fs n = remove fs (canon n)

  abbrev renamed : Files → Bytes → Bytes → Option File → Files
  renamed fs old new none = fs
  renamed fs old new (some f) =
      put (remove fs (canon old)) (canon new) (record { name = new; content = f.content })

  -- os.Rename; a missing file is no file under the new name
  unfoldable pub rename_file : Files → Bytes → Bytes → Files
  unfolding get put remove
  rename_file fs old new = renamed fs old new (get fs (canon old))

  pub is_file-read_file :
      (fs : Files) (n : Bytes) (v : Bytes) → read_file fs n ≡ some v → is_file fs n ≡ true
  unfolding read_file is_file has
  is_file-read_file fs n v h = ground arith

  pub read_file-write_file :
      (fs : Files) (n m v : Bytes)
      → read_file (write_file fs n v) m
        ≡ (if equal (canon n) (canon m) then some v else read_file fs m)
  unfolding read_file write_file
  read_file-write_file fs n m v =
      ground (arith, get-put fs (canon n) (canon m) (record { name = n; content = v }))

  pub read_file-remove_file :
      (fs : Files) (n m : Bytes)
      → read_file (remove_file fs n) m
        ≡ (if equal (canon n) (canon m) then none else read_file fs m)
  unfolding read_file remove_file
  read_file-remove_file fs n m = ground (arith, get-remove fs (canon n) (canon m))

  -- A file that is renamed takes its content along.
  abbrev pub moved : Option Bytes → Bytes → Bytes → Bytes → Option Bytes → Option Bytes
  moved none old new m rest = rest
  moved (some v) old new m rest =
      if equal (canon new) (canon m)
      then some v
      else if equal (canon old) (canon m)
      then none
      else rest

  content_of-renamed :
      (fs : Files) (old new m : Bytes) (o : Option File)
      → content_of (get (renamed fs old new o) (canon m))
        ≡ moved (content_of o) old new m (content_of (get fs (canon m)))
  content_of-renamed fs old new m none = refl
  content_of-renamed fs old new m (some f) = ground (
    arith,
    get-put (remove fs (canon old)) (canon new) (canon m)
        (record { name = new; content = f.content }),
    get-remove fs (canon old) (canon m),
  )

  pub read_file-rename_file :
      (fs : Files) (old new m : Bytes)
      → read_file (rename_file fs old new) m ≡ moved (read_file fs old) old new m (read_file fs m)
  unfolding read_file rename_file
  read_file-rename_file fs old new m = content_of-renamed fs old new m (get fs (canon old))

  -- The file of another name stays, and two names of one file read the same.
  pub rename_file-keeps :
      (fs : Files) (old new m : Bytes)
      → equal (canon old) (canon m) ≡ false
      → equal (canon new) (canon m) ≡ false
      → read_file (rename_file fs old new) m ≡ read_file fs m
  rename_file-keeps fs old new m h k = ground (arith, read_file-rename_file fs old new m)

  pub read_file-same :
      (fs : Files) (n m : Bytes)
      → equal (canon n) (canon m) ≡ true
      → read_file fs n ≡ read_file fs m
  unfolding read_file
  read_file-same fs n m h = ap (λ k. content_of (get fs k)) ((equal_iff (canon n) (canon m)).0 h)

  pub read_file-is_file :
      (fs : Files) (n : Bytes) → is_file fs n ≡ true → (v : Bytes) × (read_file fs n ≡ some v)
  unfolding read_file is_file has
  read_file-is_file fs n h = found (get fs (canon n)) h

  pub is_file-none : (fs : Files) (n : Bytes) → is_file fs n ≡ false → read_file fs n ≡ none
  unfolding read_file is_file has
  is_file-none fs n h = ground arith

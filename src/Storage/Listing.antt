-- ===== src/Storage/Listing.antt =====
-- List of internal/storage/tunnels.go, over the names that os.ReadDir gives.
use mathlib.Core.List.{reverse, reverse-append, reverse-reverse}
use wireguide.Base.{
  Bool, true, false, ◌||◌, List, [], ◌∷◌, ◌++◌, Option, none, some, if◌then◌else◌, ◌≡◌, refl, ap,
  sym, ◌∙◌, arith, length, drop, drop-append, Bool-cases, ◌⊎◌, inl, inr,
}
use wireguide.Base.Bytes.{
  Bytes, codes, equal, equal_iff, equal_refl, has_prefix, has_prefix-split, has_suffix, contains,
  contains-append,
}
use wireguide.Storage.Tunnels.{conf_path, ovpn_path}

pub record DirEntry : Type 0 where
  pub name : Bytes
  pub is_dir : Bool

-- strings.TrimSuffix, of a suffix that is there
unfoldable pub trim_suffix : Bytes → Bytes → Bytes
trim_suffix s p = reverse (drop (length p) (reverse s))

-- the name of the tunnel that a file belongs to
unfoldable pub base_of : Bytes → Option Bytes
unfolding has_suffix trim_suffix
base_of name =
    if has_suffix name (codes ".conf")
    then some (trim_suffix name (codes ".conf"))
    else if has_suffix name (codes ".ovpn")
    then some (trim_suffix name (codes ".ovpn"))
    else none

abbrev add_name : List Bytes → Option Bytes → List Bytes
add_name names none = names
add_name names (some base) = if contains names base then names else names ++ base ∷ []

-- the loop; the keys of `seen` are the names
unfoldable pub list_from : List Bytes → List DirEntry → List Bytes
unfolding base_of contains
list_from names [] = names
list_from names (e ∷ es) =
    list_from (if e.is_dir then names else add_name names (base_of e.name)) es

-- List, where the directory can be read
unfoldable pub list : List DirEntry → List Bytes
unfolding list_from
list es = list_from [] es

trim_suffix-append : (s p : Bytes) → length p ≡ length (reverse p) → trim_suffix (s ++ p) p ≡ s
unfolding trim_suffix
trim_suffix-append s p e =
    rw (reverse-append s p, e)
      (ap reverse (drop-append (reverse p) (reverse s)) ∙ reverse-reverse s)

trim_suffix-has_suffix :
    (s p : Bytes) → length p ≡ length (reverse p) → has_suffix s p ≡ true → s ≡ trim_suffix s p ++ p
unfolding trim_suffix has_suffix
trim_suffix-has_suffix s p e h =
    let d = drop (length (reverse p)) (reverse s) in
    let back : s ≡ reverse d ++ p =
      sym (reverse-reverse s)
      ∙ ap reverse (has_prefix-split (reverse s) (reverse p) h)
      ∙ reverse-append (reverse p) d
      ∙ ap (λ x. reverse d ++ x) (reverse-reverse p) in
    rw e back

-- The tunnel of a file that ends in one of the two suffixes.
base_of-path : (b : Bytes) → (base_of (conf_path b) ≡ some b) × (base_of (ovpn_path b) ≡ some b)
unfolding base_of conf_path ovpn_path has_prefix has_suffix trim_suffix
base_of-path b = (
  rw (reverse-append b (codes ".conf")) (ap some (reverse-reverse b)),
  rw (reverse-append b (codes ".ovpn")) (ap some (reverse-reverse b)),
)

one_of_two :
    (a c : Bool) (x y b : Bytes)
    → (if a then some x else if c then some y else none) ≡ some b
    → ((a ≡ true) × (x ≡ b)) ⊎ ((c ≡ true) × (y ≡ b))
one_of_two true c x y b h = inl (refl, cc)
one_of_two false true x y b h = inr (refl, cc)
one_of_two false false x y b h = cc

path-base_of : (n b : Bytes) → base_of n ≡ some b → (n ≡ conf_path b) ⊎ (n ≡ ovpn_path b)
unfolding base_of conf_path ovpn_path
path-base_of n b h =
    elim (one_of_two (has_suffix n (codes ".conf")) (has_suffix n (codes ".ovpn"))
      (trim_suffix n (codes ".conf")) (trim_suffix n (codes ".ovpn")) b h) [
        | inl p ↦
            inl
              (trim_suffix-has_suffix n (codes ".conf") refl p.0 ∙ ap (λ x. x ++ codes ".conf") p.1)
        | inr p ↦
            inr
              (trim_suffix-has_suffix n (codes ".ovpn") refl p.0 ∙ ap (λ x. x ++ codes ".ovpn") p.1)
      ]

abbrev names_base : Option Bytes → Bytes → Bool
names_base none b = false
names_base (some x) b = equal x b

abbrev is_file_of : Bytes → Bytes → Bool
is_file_of b n = equal n (conf_path b) || equal n (ovpn_path b)

both_ways : (a b : Bool) → (a ≡ true → b ≡ true) → (b ≡ true → a ≡ true) → a ≡ b
both_ways true b f g = sym (f refl)
both_ways false true f g = g refl
both_ways false false f g = refl

names_base-some : (o : Option Bytes) (b : Bytes) → names_base o b ≡ true → o ≡ some b
names_base-some none b h = cc
names_base-some (some x) b h = ap some ((equal_iff x b).0 h)

is_file_of-path : (n b : Bytes) → (n ≡ conf_path b) ⊎ (n ≡ ovpn_path b) → is_file_of b n ≡ true
is_file_of-path n b (inl p) = rw ((equal_iff n (conf_path b)).1 p) refl
is_file_of-path n b (inr p) = ground (arith, equal_iff n (ovpn_path b), p)

base_of-is_file_of : (n b : Bytes) → is_file_of b n ≡ true → names_base (base_of n) b ≡ true
base_of-is_file_of n b h = elim (Bool-cases (equal n (conf_path b))) [
  | inl c ↦
      ap (λ x. names_base (base_of x) b) ((equal_iff n (conf_path b)).0 c)
      ∙ ap (λ o. names_base o b) (base_of-path b).0
      ∙ equal_refl b
  | inr c ↦
      ap (λ x. names_base (base_of x) b) ((equal_iff n (ovpn_path b)).0 (ground arith))
      ∙ ap (λ o. names_base o b) (base_of-path b).1
      ∙ equal_refl b
]

names_base-is_file_of : (n b : Bytes) → names_base (base_of n) b ≡ is_file_of b n
names_base-is_file_of n b =
    both_ways (names_base (base_of n) b) (is_file_of b n)
      (λ h. is_file_of-path n b (path-base_of n b (names_base-some (base_of n) b h)))
      (λ h. base_of-is_file_of n b h)

contains-add_name :
    (names : List Bytes) (o : Option Bytes) (b : Bytes)
    → contains (add_name names o) b ≡ (contains names b || names_base o b)
unfolding contains
contains-add_name names none b = ground arith
contains-add_name names (some x) b = ground (arith, contains-append names (x ∷ []) b, equal_iff x b)

-- the names of the files
abbrev pub files : List DirEntry → List Bytes
files [] = []
files (e ∷ es) = if e.is_dir then files es else e.name ∷ files es

contains-list_from :
    (names : List Bytes) (es : List DirEntry) (b : Bytes)
    → contains (list_from names es) b ≡ (
        contains names b
        || (contains (files es) (conf_path b) || contains (files es) (ovpn_path b)))
unfolding list_from contains
contains-list_from names [] b = ground arith
contains-list_from names (e ∷ es) b = ground (
  arith,
  contains-list_from names es b,
  contains-list_from (add_name names (base_of e.name)) es b,
  contains-add_name names (base_of e.name) b,
  names_base-is_file_of e.name b,
)

-- List names exactly the tunnels with a .conf or an .ovpn file among the directory's files.
pub contains-list :
    (es : List DirEntry) (b : Bytes)
    → contains (list es) b
      ≡ (contains (files es) (conf_path b) || contains (files es) (ovpn_path b))
unfolding list contains
contains-list es b = contains-list_from [] es b

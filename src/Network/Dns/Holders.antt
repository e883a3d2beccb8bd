-- ===== src/Network/Dns/Holders.antt =====
-- dnsHolderSet of internal/network/dns.go: who asks for which DNS entries, the newest first.
use wireguide.Base.{
  Bool, true, false, not, List, [], ◌∷◌, ◌++◌, Option, none, some, if◌then◌else◌, ◌≡◌, arith,
  filter,
}
use wireguide.Base.Bytes.{Bytes, equal, equal_iff, contains}
use wireguide.Base.Dict.{Dict, get, put, remove, has, get-put, get-remove}
use wireguide.Base.Text.{trim_space}
use wireguide.Domain.{is_empty}
use wireguide.Net.{Net}

pub record HolderSet : Type 0 where
  pub order : List Bytes
  pub entries : Dict (List Bytes)

-- get
unfoldable pub get_entries : HolderSet → Bytes → Option (List Bytes)
unfolding get
get_entries h holder = get h.entries holder

abbrev pub is_none {ℓ} : {A : Type ℓ} → Option A → Bool
is_none none = true
is_none (some _) = false

-- set
unfoldable pub set_entries : HolderSet → Bytes → List Bytes → HolderSet
unfolding put has
set_entries h holder es = record {
  order = if has h.entries holder then h.order else holder ∷ h.order;
  entries = put h.entries holder es;
}

-- remove, with what it reports left to get_entries
unfoldable pub remove_holder : HolderSet → Bytes → HolderSet
unfolding remove has equal
remove_holder h holder =
    if has h.entries holder
    then record {
      order = filter (λ o. not (equal o holder)) h.order;
      entries = remove h.entries holder;
    }
    else h

-- `if !slices.Contains(out, v) { out = append(out, v) }` for each v
unfoldable pub append_new : List Bytes → List Bytes → List Bytes
unfolding contains
append_new out [] = out
append_new out (v ∷ vs) = append_new (if contains out v then out else out ++ v ∷ []) vs

module _ (net : Net) where
  -- splitDNSEntries
  unfoldable pub split_dns_entries : List Bytes → List Bytes × List Bytes
  unfolding trim_space
  split_dns_entries [] = ([], [])
  split_dns_entries (e ∷ es) =
      let rest = split_dns_entries es in
      let t = trim_space e in
      if is_empty t
      then rest
      else if net.is_ip t
      then (t ∷ rest.0, rest.1)
      else (rest.0, t ∷ rest.1)

  abbrev entries_of : Option (List Bytes) → List Bytes
  entries_of none = []
  entries_of (some es) = es

  -- the loop of union over `order`
  unfoldable pub union_from :
      Dict (List Bytes) → List Bytes → List Bytes × List Bytes → List Bytes × List Bytes
  unfolding split_dns_entries append_new get
  union_from entries [] out = out
  union_from entries (h ∷ order) out =
      let parts = split_dns_entries (entries_of (get entries h)) in
      union_from entries order (append_new out.0 parts.0, append_new out.1 parts.1)

  -- union
  unfoldable pub union : HolderSet → List Bytes × List Bytes
  unfolding union_from
  union h = union_from h.entries h.order ([], [])

-- The order lists exactly the holders that have entries.
abbrev pub IsListed : HolderSet → Type 0
IsListed h = (name : Bytes) → contains h.order name ≡ has h.entries name

contains-filter_ne :
    (xs : List Bytes) (x v : Bytes)
    → contains (filter (λ o. not (equal o x)) xs) v ≡ (if equal x v then false else contains xs v)
unfolding contains
contains-filter_ne [] x v = ground arith
contains-filter_ne (y ∷ xs) x v =
    ground (arith, equal_iff y x, equal_iff y v, equal_iff x v, contains-filter_ne xs x v)

pub set_entries-IsListed :
    (h : HolderSet) (holder : Bytes) (es : List Bytes)
    → IsListed h
    → IsListed (set_entries h holder es)
unfolding set_entries has contains
set_entries-IsListed h holder es v name =
    ground (arith, v name, get-put h.entries holder name es, equal_iff holder name)

pub remove_holder-IsListed :
    (h : HolderSet) (holder : Bytes) → IsListed h → IsListed (remove_holder h holder)
unfolding remove_holder has
remove_holder-IsListed h holder v name =
    ground (arith, v name, get-remove h.entries holder name, contains-filter_ne h.order holder name)

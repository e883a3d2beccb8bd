-- ===== src/Ovpn/Profile/Accepted.antt =====
-- The directives of a profile that inspectProfile of internal/ovpn/config.go accepts.
use wireguide.Base.{
  ℕ, Bool, true, false, List, [], ◌∷◌, Option, none, some, if◌then◌else◌, ltb, length, All, ◌≡◌,
  refl, arith, Bool-cases, inl, inr,
}
use wireguide.Base.Bytes.{Bytes}
use wireguide.Base.Result.{Result, ok, err, >>=-eq-ok}
use wireguide.Net.{Net}
use wireguide.Ovpn.Allowlist.{CheckError, not_allowed, check_directive, strip_only}
use wireguide.Ovpn.Allowlist.Harmless.{
  applied, IsHarmless, KeepsPrivileges, behind, with_front, check_directive-IsHarmless,
  check_directive-KeepsPrivileges,
}
use wireguide.Ovpn.Source.{Directive, TopDirective, ConfigError, parse_config}
use wireguide.Ovpn.Profile.{
  ProfileError, refused, too_large, Profile, Inspection, inspection_start, max_ovpn_size, accept,
  unless_refused, visit, visit_children, visit_all, conclude, read_profile, inspect_profile,
}

-- Neither the directive nor what openvpn applies behind its "setenv opt" is dangerous, and nothing
-- behind its "setenv opt" drops the privileges of openvpn.
abbrev pub IsSafe : Directive → Type 0
IsSafe d =
    All IsHarmless (applied d.name d.inline d.args)
    × All KeepsPrivileges (behind (applied d.name d.inline d.args))

-- Nor does the directive itself.
abbrev pub KeepsRoot : Directive → Type 0
KeepsRoot d = All KeepsPrivileges (applied d.name d.inline d.args)

unless_refused_passed :
    {A : Type 0} (n : ℕ) (e : Option CheckError) (rest : Result ProfileError A) (a : A)
    → unless_refused n e rest ≡ ok a
    → (e ≡ none) × (rest ≡ ok a)
unless_refused_passed n none rest a h = (refl, h)
unless_refused_passed n (some e) rest a h = cc

visit-IsSafe :
    (net : Net) (top : Bool) (d : Directive) (i j : Inspection)
    → visit net top d i ≡ ok j
    → IsSafe d
unfolding visit
visit-IsSafe net top d i j h =
    let (passed, _) =
      unless_refused_passed d.line (check_directive d.name d.inline d.args) (accept net top d i) j
        h in
    (
      check_directive-IsHarmless d.name d.inline d.args passed,
      check_directive-KeepsPrivileges d.name d.inline d.args passed,
    )

accept_strips :
    (net : Net) (d : Directive) (i : Inspection)
    → strip_only d.name ≡ true
    → accept net false d i ≡ err (refused d.line not_allowed)
unfolding accept
accept_strips net d i h = rw h refl

no_error {ℓ} :
    {A : Type 0} {C : Type ℓ} (r : Result ProfileError A) (e : ProfileError) (a : A)
    → r ≡ err e
    → r ≡ ok a
    → C
no_error r e a h k = cc

visit-KeepsRoot :
    (net : Net) (d : Directive) (i j : Inspection) → visit net false d i ≡ ok j → KeepsRoot d
unfolding visit accept
visit-KeepsRoot net d i j h = elim (Bool-cases (strip_only d.name)) [
  | inl strips ↦
      let accepted =
        (unless_refused_passed d.line (check_directive d.name d.inline d.args)
          (accept net false d i) j h).1 in
      no_error (accept net false d i) (refused d.line not_allowed) j (accept_strips net d i strips)
        accepted
  | inr keeps ↦ with_front d.name d.inline d.args keeps (visit-IsSafe net false d i j h).1
]

abbrev IsInner : Directive → Type 0
IsInner d = IsSafe d × KeepsRoot d

visit_children-IsInner :
    (net : Net) (ds : List Directive) (i j : Inspection)
    → visit_children net ds i ≡ ok j
    → All IsInner ds
unfolding visit_children
visit_children-IsInner net [] i j h = tt
visit_children-IsInner net (d ∷ ds) i j h =
    let (k, first, rest) = >>=-eq-ok (visit net false d i) _ j h in
    (
      (visit-IsSafe net false d i k first, visit-KeepsRoot net d i k first),
      visit_children-IsInner net ds k j rest,
    )

-- What is known of a top-level directive with its block.
abbrev pub IsAccepted : TopDirective → Type 0
IsAccepted t = IsSafe t.directive × All (λ d. IsSafe d × KeepsRoot d) t.children

visit_all-IsAccepted :
    (net : Net) (ts : List TopDirective) (i j : Inspection)
    → visit_all net ts i ≡ ok j
    → All IsAccepted ts
unfolding visit_all
visit_all-IsAccepted net [] i j h = tt
visit_all-IsAccepted net (t ∷ ts) i j h =
    let (k, first, more) = >>=-eq-ok (visit net true t.directive i) _ j h in
    let (l, inner, rest) = >>=-eq-ok (visit_children net t.children k) _ j more in
    (
      (
        visit-IsSafe net true t.directive i k first,
        visit_children-IsInner net t.children k l inner,
      ),
      visit_all-IsAccepted net ts l j rest,
    )

read_profile_ok : {A : Type 0} (r : Result ConfigError A) (a : A) → read_profile r ≡ ok a → r ≡ ok a
read_profile_ok (ok b) a h = ground arith
read_profile_ok (err e) a h = cc

not_large :
    {A : Type 0} (large : Bool) (r : Result ProfileError A) (a : A)
    → (if large then err too_large else r) ≡ ok a
    → r ≡ ok a
not_large true r a h = cc
not_large false r a h = h

-- A profile that inspectProfile accepts has directives none of which, nor one behind its
-- "setenv opt", is dangerous or reads a file of its argument. Nothing behind a "setenv opt" drops
-- privileges, nor does a directive in a <connection> block.
pub inspect_profile-IsAccepted :
    (net : Net) (s : Bytes) (p : Profile)
    → inspect_profile net s ≡ ok p
    → (ds : List TopDirective) × (parse_config s ≡ ok ds) × All IsAccepted ds
unfolding inspect_profile
inspect_profile-IsAccepted net s p h =
    let inner = not_large (ltb max_ovpn_size (length s)) _ p h in
    let (ds, read, more) = >>=-eq-ok (read_profile (parse_config s)) _ p inner in
    let (i, seen, _) = >>=-eq-ok (visit_all net ds inspection_start) (conclude ds) p more in
    (
      ds,
      read_profile_ok (parse_config s) ds read,
      visit_all-IsAccepted net ds inspection_start i seen,
    )

-- ===== src/Ovpn/Allowlist/Harmless.antt =====
-- What a directive that passes the allowlist of internal/ovpn/allowlist.go cannot be.
use wireguide.Base.{
  Bool, true, false, ◌&&◌, List, [], ◌∷◌, Option, none, some, if◌then◌else◌, all, All, ◌≡◌, refl,
  ap, ◌∙◌, arith, Bool-cases, and_left, and_right, inl, inr,
}
use wireguide.Base.Bytes.{Bytes, codes, equal, equal_iff, contains, all-contains}
use wireguide.Ovpn.Allowlist.{
  CheckError, not_allowed, inline_never, inline_only, allowed_directive, apply_rule,
  check_directive, strip_only, setenv,
}

-- Options of OpenVPN that run a program, load a library, write or read a file of their argument, or
-- change what the process is.
unfoldable pub dangerous : List Bytes
dangerous =
    codes "up"
    ∷ codes "down"
    ∷ codes "route-up"
    ∷ codes "route-pre-down"
    ∷ codes "ipchange"
    ∷ codes "tls-verify"
    ∷ codes "auth-user-pass-verify"
    ∷ codes "client-connect"
    ∷ codes "client-disconnect"
    ∷ codes "learn-address"
    ∷ codes "tls-crypt-v2-verify"
    ∷ codes "plugin"
    ∷ codes "engine"
    ∷ codes "pkcs11-providers"
    ∷ codes "iproute"
    ∷ codes "log"
    ∷ codes "log-append"
    ∷ codes "status"
    ∷ codes "writepid"
    ∷ codes "replay-persist"
    ∷ codes "config"
    ∷ codes "capath"
    ∷ codes "askpass"
    ∷ codes "secret"
    ∷ codes "management"
    ∷ codes "client-config-dir"
    ∷ codes "tmp-dir"
    ∷ codes "cd"
    ∷ codes "chroot"
    ∷ codes "daemon"
    ∷ codes "setcon"
    ∷ codes "inetd"
    ∷ codes "dev-node"
    ∷ []

-- Options whose argument is a file that root would read.
unfoldable pub reads_file : List Bytes
reads_file =
    codes "ca"
    ∷ codes "cert"
    ∷ codes "key"
    ∷ codes "extra-certs"
    ∷ codes "pkcs12"
    ∷ codes "crl-verify"
    ∷ codes "dh"
    ∷ codes "tls-auth"
    ∷ codes "tls-crypt"
    ∷ codes "tls-crypt-v2"
    ∷ []

abbrev is_unlisted : Bytes → Bool
is_unlisted name = elim (allowed_directive name) [ none ↦ true | some _ ↦ false ]

abbrev is_inline_only : Bytes → Bool
is_inline_only name = elim (allowed_directive name) [
  | none ↦ false
  | some (inline_only, _) ↦ true
  | some (_, _) ↦ false
]

dangerous-unlisted : all is_unlisted dangerous ≡ true
unfolding allowed_directive dangerous
dangerous-unlisted = refl

reads_file-inline_only : all is_inline_only reads_file ≡ true
unfolding allowed_directive reads_file
reads_file-inline_only = refl

-- What openvpn applies: a directive, and where that is "setenv opt", the one behind it.
unfoldable pub applied : Bytes → Bool → List Bytes → List (Bytes × Bool)
unfolding equal
applied name inline (a ∷ n ∷ rest) =
    let more = applied n false rest in
    (name, inline) ∷ (if equal name (codes "setenv") && equal a (codes "opt") then more else [])
applied name inline args = (name, inline) ∷ []

-- It does none of what makes openvpn dangerous, and brings its own files.
abbrev pub IsHarmless : Bytes × Bool → Type 0
IsHarmless (name, inline) =
    (contains dangerous name ≡ false) × (contains reads_file name ≡ true → inline ≡ true)

apply_rule-listed :
    (name : Bytes) (inline : Bool) (args : List Bytes) (inner : Option CheckError)
    → apply_rule (allowed_directive name) inline args inner ≡ none
    → is_unlisted name ≡ false
unfolding apply_rule
apply_rule-listed name inline args inner h = ground arith

apply_rule-inline :
    (name : Bytes) (inline : Bool) (args : List Bytes) (inner : Option CheckError)
    → apply_rule (allowed_directive name) inline args inner ≡ none
    → is_inline_only name ≡ true
    → inline ≡ true
unfolding apply_rule
apply_rule-inline name inline args inner h k = ground arith

apply_rule-IsHarmless :
    (name : Bytes) (inline : Bool) (args : List Bytes) (inner : Option CheckError)
    → apply_rule (allowed_directive name) inline args inner ≡ none
    → IsHarmless (name, inline)
apply_rule-IsHarmless name inline args inner h = (
  ground (
    arith,
    apply_rule-listed name inline args inner h,
    all-contains is_unlisted dangerous name dangerous-unlisted,
  ),
  λ k.
      apply_rule-inline name inline args inner h
        (all-contains is_inline_only reads_file name reads_file-inline_only k),
)

setenv_rule : allowed_directive (codes "setenv") ≡ some (inline_never, setenv)
unfolding allowed_directive
setenv_rule = refl

-- "setenv opt" passes where the directive behind it does.
setenv_opt-inner :
    (name : Bytes) (inline : Bool) (a n : Bytes) (rest : List Bytes) (inner : Option CheckError)
    → equal name (codes "setenv") ≡ true
    → equal a (codes "opt") ≡ true
    → apply_rule (allowed_directive name) inline (a ∷ n ∷ rest) inner ≡ none
    → inner ≡ none
unfolding apply_rule
setenv_opt-inner name inline a n rest inner s o h =
    ground (arith, ap allowed_directive ((equal_iff name (codes "setenv")).0 s) ∙ setenv_rule)

not_stripped :
    (strips : Bool) (inner : Option CheckError)
    → (if strips then some not_allowed else inner) ≡ none
    → (strips ≡ false) × (inner ≡ none)
not_stripped true inner h = cc
not_stripped false inner h = (refl, h)

-- A directive that checkDirective lets pass, and every one behind its "setenv opt", is none of the
-- dangerous ones, and one that reads a file is inline.
pub check_directive-IsHarmless :
    (name : Bytes) (inline : Bool) (args : List Bytes)
    → check_directive name inline args ≡ none
    → All IsHarmless (applied name inline args)
unfolding check_directive applied
check_directive-IsHarmless name inline [] h = (apply_rule-IsHarmless name inline [] _ h, tt)
check_directive-IsHarmless name inline (a ∷ []) h =
    (apply_rule-IsHarmless name inline (a ∷ []) _ h, tt)
check_directive-IsHarmless name inline (a ∷ n ∷ rest) h =
    elim (Bool-cases (equal name (codes "setenv") && equal a (codes "opt"))) [
      | inl opt ↦
          let inner = check_directive n false rest in
          let passed =
            setenv_opt-inner name inline a n rest (if strip_only n then some not_allowed else inner)
              (and_left (equal name (codes "setenv")) (equal a (codes "opt")) opt)
              (and_right (equal name (codes "setenv")) (equal a (codes "opt")) opt) h in
          rw opt (
            apply_rule-IsHarmless name inline (a ∷ n ∷ rest) _ h,
            check_directive-IsHarmless n false rest (not_stripped (strip_only n) inner passed).1,
          )
      | inr other ↦ rw other (apply_rule-IsHarmless name inline (a ∷ n ∷ rest) _ h, tt)
    ]

-- What stands behind the "setenv opt" of a directive, if it has one.
abbrev pub behind : List (Bytes × Bool) → List (Bytes × Bool)
behind [] = []
behind (_ ∷ more) = more

-- It does not make openvpn drop its privileges, which it needs to remove its routes.
abbrev pub KeepsPrivileges : Bytes × Bool → Type 0
KeepsPrivileges (name, inline) = strip_only name ≡ false

pub with_front :
    (name : Bytes) (inline : Bool) (args : List Bytes)
    → strip_only name ≡ false
    → All KeepsPrivileges (behind (applied name inline args))
    → All KeepsPrivileges (applied name inline args)
unfolding applied
with_front name inline [] h k = (h, tt)
with_front name inline (a ∷ []) h k = (h, tt)
with_front name inline (a ∷ n ∷ rest) h k = (h, k)

-- Whether the directive in front strips or not, none behind its "setenv opt" does.
pub check_directive-KeepsPrivileges :
    (name : Bytes) (inline : Bool) (args : List Bytes)
    → check_directive name inline args ≡ none
    → All KeepsPrivileges (behind (applied name inline args))
unfolding check_directive applied
check_directive-KeepsPrivileges name inline [] h = tt
check_directive-KeepsPrivileges name inline (a ∷ []) h = tt
check_directive-KeepsPrivileges name inline (a ∷ n ∷ rest) h =
    elim (Bool-cases (equal name (codes "setenv") && equal a (codes "opt"))) [
      | inl opt ↦
          let inner = check_directive n false rest in
          let passed =
            setenv_opt-inner name inline a n rest (if strip_only n then some not_allowed else inner)
              (and_left (equal name (codes "setenv")) (equal a (codes "opt")) opt)
              (and_right (equal name (codes "setenv")) (equal a (codes "opt")) opt) h in
          let (keeps, fine) = not_stripped (strip_only n) inner passed in
          rw opt (with_front n false rest keeps (check_directive-KeepsPrivileges n false rest fine))
      | inr other ↦ rw other tt
    ]

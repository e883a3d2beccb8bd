-- ===== src/Ovpn/Management/Quote.antt =====
-- mgmtQuote of internal/ovpn/management.go against parseLine of internal/ovpn/parse.go.
use mathlib.Core.List.{append-nil, append_assoc}
use wireguide.Base.{
  ℕ, ◌+◌, ◌<◌, ◌≤◌, Bool, true, false, ◌||◌, List, [], ◌∷◌, ◌++◌, ◌≡◌, refl, sym, ap, ◌∙◌, arith,
  ◌==◌, ==_iff, if◌then◌else◌, length, length-append, leb, Bool-cases, inl, inr,
}
use wireguide.Base.Bytes.{Bytes, codes}
use wireguide.Base.Result.{Result, ok, err}
use wireguide.Base.Text.{has_byte, split}
use wireguide.Base.Text.Laws.{Lacks, split-append, has_byte-append}
use wireguide.Ovpn.Line.{
  LineError, quoted, Lexer, Outcome, stops, fails, next, max_parms, react, after_reaction, lex_step,
  lex, lex_end, parse_line,
}
use wireguide.Ovpn.Management.{
  double_backslash, escape_quote, mgmt_quote, auth_command, written_line, has_newline,
  send_credentials,
}

-- Inside the quotes of the third token.
abbrev inside : Bytes → Bytes → Lexer
inside word parm = record {
  state = quoted;
  backslash = false;
  parm = parm;
  ret = word ∷ codes "Auth" ∷ [];
}

abbrev Fits : Bytes → Type 0
Fits parm = length parm < 256

lex_step-plain :
    (word parm : Bytes) (c : ℕ)
    → (c == 0) ≡ false
    → (c == 92) ≡ false
    → (c == b'"') ≡ false
    → Fits parm
    → lex_step c (inside word parm) ≡ next (inside word (parm ++ c ∷ []))
unfolding lex_step react after_reaction
lex_step-plain word parm c z b q h = ground arith

-- behind a backslash
abbrev escaping : Bytes → Bytes → Lexer
escaping word parm = record (inside word parm) { backslash = true }

lex_step-escaped :
    (word parm : Bytes) (c : ℕ)
    → (c == 92 || c == b'"') ≡ true
    → Fits parm
    → lex_step c (escaping word parm) ≡ next (inside word (parm ++ c ∷ []))
unfolding lex_step react after_reaction
lex_step-escaped word parm c e h = ground arith

-- the loop behind one byte
abbrev behind : Lexer → Bytes → Outcome → Result LineError (List Bytes)
behind l s stops = lex_end l.state l.ret
behind l s (fails e) = err e
behind l s (next m) = if leb max_parms (length m.ret) then lex_end m.state m.ret else lex s m

lex-next :
    (l : Lexer) (m : Lexer) (c : ℕ) (s : Bytes)
    → lex_step c l ≡ next m
    → length m.ret ≡ 2
    → lex (c ∷ s) l ≡ lex s m
unfolding lex
lex-next l m c s h k = ap (behind l s) h ∙ rw k refl

lex-plain :
    (word parm s : Bytes) (c : ℕ)
    → (c == 0) ≡ false
    → (c == 92) ≡ false
    → (c == b'"') ≡ false
    → Fits parm
    → lex (c ∷ s) (inside word parm) ≡ lex s (inside word (parm ++ c ∷ []))
lex-plain word parm s c z b q h =
    lex-next (inside word parm) (inside word (parm ++ c ∷ [])) c s
      (lex_step-plain word parm c z b q h) refl

lex-escaped :
    (word parm s : Bytes) (c : ℕ)
    → (c == 92 || c == b'"') ≡ true
    → Fits parm
    → lex (92 ∷ c ∷ s) (inside word parm) ≡ lex s (inside word (parm ++ c ∷ []))
unfolding lex_step
lex-escaped word parm s c e h =
    lex-next (inside word parm) (escaping word parm) 92 (c ∷ s) refl refl
    ∙ lex-next (escaping word parm) (inside word (parm ++ c ∷ [])) c s
        (lex_step-escaped word parm c e h) refl

lex-close :
    (word parm : Bytes) → lex (b'"' ∷ []) (inside word parm) ≡ ok (word ∷ codes "Auth" ∷ parm ∷ [])
unfolding lex lex_step react after_reaction lex_end
lex-close word parm = refl

not_backslash : (c : ℕ) → (c == b'"') ≡ true → (c == 92) ≡ false
not_backslash c h = ground arith

-- The escaped text of a value is read as the value.
lex-mgmt_quote :
    (word parm s : Bytes)
    → has_byte 0 s ≡ false
    → length parm + length s ≤ 256
    → lex (escape_quote (double_backslash s) ++ b'"' ∷ []) (inside word parm)
      ≡ ok (word ∷ codes "Auth" ∷ (parm ++ s) ∷ [])
unfolding has_byte escape_quote double_backslash
lex-mgmt_quote word parm [] z h = rw (append-nil parm) (lex-close word parm)
lex-mgmt_quote word parm (c ∷ s) z h =
    let ih =
      lex-mgmt_quote word (parm ++ c ∷ []) s (ground arith)
        (omega (arith, length-append parm (c ∷ []))) in
    let assoc : ok (word ∷ codes "Auth" ∷ ((parm ++ c ∷ []) ++ s) ∷ [])
        ≡ ok (word ∷ codes "Auth" ∷ (parm ++ c ∷ s) ∷ []) =
      ap (λ x. ok (word ∷ codes "Auth" ∷ x ∷ [])) (append_assoc parm (c ∷ []) s) in
    let tail = escape_quote (double_backslash s) ++ b'"' ∷ [] in
    let escaped : (d : ℕ)
        → (c == d) ≡ true
        → (c == 92 || c == b'"') ≡ true
        → lex (92 ∷ d ∷ tail) (inside word parm) ≡ ok (word ∷ codes "Auth" ∷ (parm ++ c ∷ s) ∷ []) =
      λ d e o.
        ap (λ x. lex (92 ∷ x ∷ tail) (inside word parm)) (sym ((==_iff c d).0 e))
        ∙ lex-escaped word parm tail c o (ground arith)
        ∙ ih
        ∙ assoc in
    elim (Bool-cases (c == b'"')) [
      | inl q ↦ rw (not_backslash c q, q) (escaped b'"' q (ground arith))
      | inr q ↦ elim (Bool-cases (c == 92)) [
        | inl b ↦ rw b (escaped 92 b (ground arith))
        | inr b ↦
            rw (b, q) (lex-plain word parm tail c (ground arith) b q (ground arith) ∙ ih ∙ assoc)
      ]
    ]

-- parseLine, which reads a line as openvpn does, takes a quoted value whole, as the third token of its
-- command, if it has no NUL byte and no more than 256 bytes.
parse_line-auth_command :
    (s : Bytes)
    → has_byte 0 s ≡ false
    → length s ≤ 256
    → (parse_line (auth_command (codes "username") s)
        ≡ ok (codes "username" ∷ codes "Auth" ∷ s ∷ []))
      × (parse_line (auth_command (codes "password") s)
          ≡ ok (codes "password" ∷ codes "Auth" ∷ s ∷ []))
unfolding parse_line lex lex_step react after_reaction mgmt_quote
parse_line-auth_command s z h = (
  lex-mgmt_quote (codes "username") [] s z (omega arith),
  lex-mgmt_quote (codes "password") [] s z (omega arith),
)

escaped-Lacks : (s : Bytes) → Lacks b'\n' s → Lacks b'\n' (escape_quote (double_backslash s))
unfolding has_byte escape_quote double_backslash
escaped-Lacks [] h = refl
escaped-Lacks (c ∷ s) h = ground (arith, escaped-Lacks s)

auth_command-Lacks :
    (word s : Bytes) → Lacks b'\n' word → Lacks b'\n' s → Lacks b'\n' (auth_command word s)
unfolding has_byte mgmt_quote
auth_command-Lacks word s w h = ground (
  arith,
  escaped-Lacks s h,
  has_byte-append b'\n' word (codes " \"Auth\" " ++ mgmt_quote s),
  has_byte-append b'\n' (escape_quote (double_backslash s)) (b'"' ∷ []),
)

split-two :
    (a b : Bytes)
    → Lacks b'\n' a
    → Lacks b'\n' b
    → split b'\n' (written_line a ++ written_line b) ≡ a ∷ b ∷ [] ∷ []
unfolding split
split-two a b h k =
    ap (split b'\n') (append_assoc a (b'\n' ∷ []) (written_line b))
    ∙ split-append b'\n' a (written_line b) h
    ∙ ap (◌∷◌ a) (split-append b'\n' b [] k)

unless_refused :
    (refused : Bool) (x text : Bytes)
    → ◌≡◌ {A = Bool × Bytes} (if refused then (false, []) else (true, x)) (true, text)
    → (refused ≡ false) × (text ≡ x)
unless_refused true x text h = cc
unless_refused false x text h = (refl, cc)

neither : (a b c d : Bool) → ((a || b) || (c || d)) ≡ false → (a ≡ false) × (c ≡ false)
neither a b c d h = ground arith

sent :
    (u p text : Bytes)
    → send_credentials true true u p ≡ (true, text)
    → Lacks b'\n' u
      × Lacks b'\n' p
      × (text
          ≡ written_line (auth_command (codes "username") u)
            ++ written_line (auth_command (codes "password") p))
unfolding send_credentials
sent u p text h =
    let (n, e) =
      unless_refused (has_newline u || has_newline p)
        (written_line (auth_command (codes "username") u)
          ++ written_line (auth_command (codes "password") p))
        text h in
    let (nu, np) =
      neither (has_byte b'\n' u) (has_byte b'\r' u) (has_byte b'\n' p) (has_byte b'\r' p) n in
    (nu, np, e)

-- What sendCredentials writes is two lines and no more, and parseLine takes the user name and the
-- password out of them whole.
pub send_credentials-parse_line :
    (u p text : Bytes)
    → has_byte 0 u ≡ false
    → has_byte 0 p ≡ false
    → length u ≤ 256
    → length p ≤ 256
    → send_credentials true true u p ≡ (true, text)
    → (a : Bytes) × (b : Bytes) × (split b'\n' text ≡ a ∷ b ∷ [] ∷ [])
      × (parse_line a ≡ ok (codes "username" ∷ codes "Auth" ∷ u ∷ []))
      × (parse_line b ≡ ok (codes "password" ∷ codes "Auth" ∷ p ∷ []))
unfolding send_credentials
send_credentials-parse_line u p text zu zp lu lp h =
    let a = auth_command (codes "username") u in
    let b = auth_command (codes "password") p in
    let (nu, np, e) = sent u p text h in
    (
      a,
      b,
      ap (split b'\n') e
          ∙ split-two a b (auth_command-Lacks (codes "username") u refl nu)
              (auth_command-Lacks (codes "password") p refl np),
      (parse_line-auth_command u zu lu).0,
      (parse_line-auth_command p zp lp).1,
    )

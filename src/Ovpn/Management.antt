-- ===== src/Ovpn/Management.antt =====
-- internal/ovpn/management.go: the lines that the client writes to the management interface of
-- openvpn, and what it makes of the lines it reads. base64 is a parameter.
pub mod Quote
pub mod Reader
pub mod Answers
use mathlib.Core.List.{reverse}
use wireguide.Base.{
  ℕ, zero, suc, ◌+◌, ◌-◌, ◌*◌, ◌/◌, ◌%◌, ◌^◌, Bool, true, false, not, ◌&&◌, ◌||◌, List, [], ◌∷◌,
  ◌++◌, Option, none, some, if◌then◌else◌, ◌==◌, ltb, leb, length, drop,
}
use wireguide.Base.Bytes.{Bytes, codes, equal, has_prefix}
use wireguide.Base.Decimal.{is_digit, atoi}
use wireguide.Base.Int.{ℤ, pos, negsuc, ltb_ℤ}
use wireguide.Base.Text.{split, has_byte, trim_space}
use wireguide.Net.{Net}
use wireguide.Domain.{is_empty}

-- strings.ReplaceAll(s, "\\", "\\\\"), then that of the quote
unfoldable pub double_backslash : Bytes → Bytes
double_backslash [] = []
double_backslash (c ∷ s) =
    let rest = double_backslash s in if c == 92 then 92 ∷ 92 ∷ rest else c ∷ rest

unfoldable pub escape_quote : Bytes → Bytes
escape_quote [] = []
escape_quote (c ∷ s) = let rest = escape_quote s in if c == b'"' then 92 ∷ b'"' ∷ rest else c ∷ rest

-- mgmtQuote
unfoldable pub mgmt_quote : Bytes → Bytes
unfolding double_backslash escape_quote
mgmt_quote s = b'"' ∷ (escape_quote (double_backslash s) ++ b'"' ∷ [])

abbrev pub has_newline : Bytes → Bool
has_newline s = has_byte b'\n' s || has_byte b'\r' s

-- writeLocked: what goes to the socket
abbrev pub written_line : Bytes → Bytes
written_line cmd = cmd ++ b'\n' ∷ []

abbrev pub auth_command : Bytes → Bytes → Bytes
auth_command word value = word ++ (codes " \"Auth\" " ++ mgmt_quote value)

-- sendCredentials: whether it succeeds, and what is written; the arguments say which lines can be.
unfoldable pub send_credentials : Bool → Bool → Bytes → Bytes → Bool × Bytes
unfolding has_byte mgmt_quote
send_credentials first second username password =
    let one = written_line (auth_command (codes "username") username) in
    let two = written_line (auth_command (codes "password") password) in
    if has_newline username || has_newline password
    then (false, [])
    else if not first
    then (false, [])
    else if not second
    then (false, one)
    else (true, one ++ two)

pub data ChallengeKind : Type 0 where
  static dynamic : ChallengeKind

pub record AuthChallenge : Type 0 where
  pub kind : ChallengeKind
  pub text : Bytes
  pub echo : Bool
  pub state_id : Bytes
  pub concat : Bool
  pub username : Bytes

abbrev pub Base64 : Type 0
Base64 = Bytes → Option Bytes

abbrev decoded_name : Option Bytes → Bytes
decoded_name none = []
decoded_name (some u) = u

-- up to the last "']", where there is one
unfoldable pub before_end : Bytes → Option Bytes
unfolding has_prefix
before_end [] = none
before_end (c ∷ s) = elim (before_end s) [
  | some t ↦ some (c ∷ t)
  | none ↦ if has_prefix (c ∷ s) (codes "']") then some [] else none
]

-- up to the first colon, and what is behind it
unfoldable pub cut_colon : Bytes → Option (Bytes × Bytes)
cut_colon [] = none
cut_colon (c ∷ s) =
    let rest = cut_colon s in
    if c == b':' then some ([], s) else elim rest [ none ↦ none | some (a, b) ↦ some (c ∷ a, b) ]

abbrev behind_colon : {A : Type 0} → Bytes → (Bytes → Bytes → Option A) → Option A
behind_colon s rest = elim (cut_colon s) [ none ↦ none | some (a, b) ↦ rest a b ]

abbrev dynamic_challenge_of : Base64 → Bytes → Bytes → Bytes → Option Bytes → Option AuthChallenge
dynamic_challenge_of base64 flags id name none = none
dynamic_challenge_of base64 flags id name (some text) = some (record {
  kind = dynamic;
  text = text;
  echo = has_byte b'E' flags;
  state_id = id;
  concat = false;
  username = decoded_name (base64 name);
})

-- dynamicChallengeRe behind its "CRV1:"
unfoldable pub dynamic_groups : Base64 → Bytes → Option AuthChallenge
unfolding cut_colon before_end has_byte
dynamic_groups base64 s = behind_colon s (λ flags r. behind_colon r (λ id q.
    behind_colon q (λ name text. dynamic_challenge_of base64 flags id name (before_end text))))

-- parseDynamicChallenge: the first place where the expression matches
unfoldable pub parse_dynamic_challenge : Base64 → Bytes → Option AuthChallenge
unfolding has_prefix dynamic_groups
parse_dynamic_challenge base64 [] = none
parse_dynamic_challenge base64 (c ∷ s) =
    let later = parse_dynamic_challenge base64 s in
    let here = dynamic_groups base64 (drop 5 (c ∷ s)) in
    if has_prefix (c ∷ s) (codes "CRV1:")
    then elim here [ some ch ↦ some ch | none ↦ later ]
    else later

-- digits in front, and what is behind them
unfoldable pub span_digits : Bytes → Bytes × Bytes
span_digits [] = ([], [])
span_digits (c ∷ s) = let r = span_digits s in if is_digit c then (c ∷ r.0, r.1) else ([], c ∷ s)

-- the groups of staticChallengeRe behind "SC:"
abbrev static_groups : Bytes × Bytes → Option (Bytes × Bytes)
static_groups (d ∷ ds, c ∷ text) = if c == b',' then some (d ∷ ds, text) else none
static_groups _ = none

unfoldable pub find_static : Bytes → Option (Bytes × Bytes)
unfolding has_prefix span_digits
find_static [] = none
find_static (c ∷ s) =
    let later = find_static s in
    let here = static_groups (span_digits (drop 3 (c ∷ s))) in
    if has_prefix (c ∷ s) (codes "SC:") then elim here [ some g ↦ some g | none ↦ later ] else later

abbrev static_challenge_of : Bytes → Option ℤ → Option AuthChallenge
static_challenge_of text (some (pos flag)) = some (record {
  kind = static;
  text = text;
  echo = not (flag % 2 == 0);
  state_id = [];
  concat = not ((flag / 2) % 2 == 0);
  username = [];
})
static_challenge_of text _ = none

-- parseStaticChallenge; the digits have no sign
unfoldable pub parse_static_challenge : Bytes → Option AuthChallenge
unfolding find_static atoi
parse_static_challenge s = elim (find_static s) [
  | none ↦ none
  | some (flag, text) ↦ static_challenge_of text (atoi flag)
]

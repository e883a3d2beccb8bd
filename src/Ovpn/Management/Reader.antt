-- ===== src/Ovpn/Management/Reader.antt =====
-- readLoop of internal/ovpn/management.go: what the handler is told of each line, and how long the
-- next read may take. Durations are nanoseconds in an int64.
use mathlib.Core.List.{reverse}
use wireguide.Base.{
  ℕ, zero, suc, ◌+◌, ◌-◌, ◌*◌, ◌%◌, ◌^◌, Bool, true, false, not, ◌&&◌, ◌||◌, List, [], ◌∷◌, Option,
  none, some, if◌then◌else◌, ◌==◌, ltb, leb, length, drop,
}
use wireguide.Base.Bytes.{Bytes, codes, equal, has_prefix}
use wireguide.Base.Decimal.{is_digit}
use wireguide.Base.Int.{ℤ, pos, negsuc}
use wireguide.Base.Text.{split, has_byte, trim_space}
use wireguide.Net.{Net}
use wireguide.Domain.{is_empty}
use wireguide.Ovpn.Management.{
  AuthChallenge, Base64, parse_static_challenge, parse_dynamic_challenge,
}

-- The calls of mgmtHandler, and releaseHold with its wait.
pub data Event : Type 0 where
  state : Bytes → Bytes → Bytes → Event
  bytes : ℤ → ℤ → Event
  auth_prompt : Option AuthChallenge → Event
  dynamic_challenge : AuthChallenge → Event
  auth_failed : Bytes → Event
  failure : Bytes → Bool → Event
  release_hold : ℤ → Event

abbrev msg_web_auth : Bytes
msg_web_auth =
    codes "This server requires web/SSO authentication, which LockPlus doesn't support yet"

abbrev pub msg_private_key : Bytes
msg_private_key =
    codes "This profile's private key is password-protected, which LockPlus doesn't support yet"

abbrev pub msg_proxy_auth : Bytes
msg_proxy_auth =
    codes
      "The HTTP proxy requires credentials; embed them in the profile as an inline <http-proxy-user-pass> block"

abbrev pub msg_unknown_prompt : Bytes
msg_unknown_prompt = codes "OpenVPN asked for input LockPlus doesn't support"

-- An int64 from its residue, and back.
abbrev to_int64 : ℕ → ℤ
to_int64 w = if ltb w (2 ^ 63) then pos w else negsuc (2 ^ 64 - 1 - w)

abbrev residue : ℤ → ℕ
residue (pos n) = n % 2 ^ 64
residue (negsuc n) = 2 ^ 64 - 1 - n % 2 ^ 64

abbrev second : ℕ
second = 10 ^ 9

-- `time.Duration(n) * time.Second`, and the sum of two durations
abbrev seconds : ℤ → ℤ
seconds n = to_int64 ((residue n * second) % 2 ^ 64)

abbrev plus_int64 : ℤ → ℤ → ℤ
plus_int64 a b = to_int64 ((residue a + residue b) % 2 ^ 64)

abbrev pub pre_connect_deadline : ℤ
pre_connect_deadline = pos (150 * second)

abbrev pub connected_deadline : ℤ
connected_deadline = pos (30 * second)

-- The magnitude that ParseInt reads: 2^64 from the digit on that exceeds 64 bits, `none` at a byte that
-- is no digit before.
unfoldable pub magnitude_from : ℕ → Bytes → Option ℕ
magnitude_from n [] = some n
magnitude_from n (c ∷ s) =
    let m = n * 10 + (c - b'0') in
    let rest = magnitude_from m s in
    if not (is_digit c) then none else if leb (2 ^ 64) m then some (2 ^ 64) else rest

unfoldable pub magnitude : Bytes → Option ℕ
unfolding magnitude_from
magnitude [] = none
magnitude (c ∷ s) = magnitude_from 0 (c ∷ s)

abbrev clamp_pos : Option ℕ → ℤ
clamp_pos none = pos 0
clamp_pos (some n) = if ltb n (2 ^ 63) then pos n else pos (2 ^ 63 - 1)

abbrev clamp_neg : Option ℕ → ℤ
clamp_neg none = pos 0
clamp_neg (some zero) = pos 0
clamp_neg (some (suc n)) = if ltb n (2 ^ 63) then negsuc n else negsuc (2 ^ 63 - 1)

-- the value of strconv.ParseInt(s, 10, 64) and of Atoi, whose error is dropped
unfoldable pub parse_int : Bytes → ℤ
unfolding magnitude
parse_int [] = pos 0
parse_int (c ∷ s) =
    if c == b'-'
    then clamp_neg (magnitude s)
    else if c == b'+'
    then clamp_pos (magnitude s)
    else clamp_pos (magnitude (c ∷ s))

unfoldable pub drop_newlines : Bytes → Bytes
drop_newlines [] = []
drop_newlines (c ∷ s) =
    let rest = drop_newlines s in if c == b'\n' || c == b'\r' then rest else c ∷ s

-- strings.TrimRight(line, "\r\n")
unfoldable pub trim_newlines : Bytes → Bytes
unfolding drop_newlines
trim_newlines s = reverse (drop_newlines (reverse s))

-- What one line comes to: the calls, and the deadline where it is set.
pub record Heard : Type 0 where
  pub events : List Event
  pub deadline : Option ℤ

abbrev tell : List Event → Heard
tell es = record { events = es; deadline = none }

abbrev remote_addr : Net → List Bytes → Bytes
remote_addr net (ip ∷ port ∷ _) =
    if is_empty ip || is_empty port then [] else net.join_host_port ip port
remote_addr net _ = []

abbrev local_ip : List Bytes → Bytes
local_ip [] = []
local_ip (ip ∷ _) = ip

abbrev behind_first {ℓ} : {A : Type ℓ} → List A → List A
behind_first [] = []
behind_first (_ ∷ xs) = xs

abbrev on_state : Net → List Bytes → Heard
on_state net (_ ∷ s ∷ more) = record {
  events =
      state s (local_ip (behind_first more)) (remote_addr net (behind_first (behind_first more)))
      ∷ [];
  deadline =
      some (if equal s (codes "CONNECTED") then connected_deadline else pre_connect_deadline);
}
on_state net _ = tell []

abbrev on_bytecount : List Bytes → Heard
on_bytecount (rx ∷ tx ∷ _) =
    tell (bytes (parse_int (trim_space rx)) (parse_int (trim_space tx)) ∷ [])
on_bytecount _ = tell []

abbrev on_failed : Bytes → Option AuthChallenge → Event
on_failed payload (some ch) = dynamic_challenge ch
on_failed payload none =
    if has_prefix payload (codes "Verification Failed: 'Auth'")
    then auth_failed payload
    else failure payload false

-- the cases of ">PASSWORD:"
unfoldable pub on_password : Base64 → Bytes → List Event
unfolding has_prefix parse_static_challenge parse_dynamic_challenge
on_password base64 payload =
    if has_prefix payload (codes "Need 'Auth'")
    then auth_prompt (parse_static_challenge payload) ∷ []
    else if has_prefix payload (codes "Need 'Private Key'")
    then failure msg_private_key true ∷ []
    else if has_prefix payload (codes "Need 'HTTP Proxy'")
    then failure msg_proxy_auth true ∷ []
    else if has_prefix payload (codes "Need ")
    then failure msg_unknown_prompt true ∷ []
    else if has_prefix payload (codes "Verification Failed")
    then on_failed payload (parse_dynamic_challenge base64 payload) ∷ []
    else []

abbrev on_infomsg : Bytes → List Event
on_infomsg msg =
    if has_prefix msg (codes "WEB_AUTH:")
      || (has_prefix msg (codes "OPEN_URL:") || has_prefix msg (codes "CR_TEXT:"))
    then failure msg_web_auth true ∷ []
    else []

-- behind the last colon; a ">HOLD:" line has one
unfoldable pub behind_last_colon : Bytes → Bytes
unfolding has_byte
behind_last_colon [] = []
behind_last_colon (c ∷ s) =
    let rest = behind_last_colon s in if c == b':' && not (has_byte b':' s) then s else rest

abbrev on_hold : ℤ → Heard
on_hold n = record {
  events = release_hold (seconds n) ∷ [];
  deadline = some (plus_int64 pre_connect_deadline (seconds n));
}

abbrev trim_prefix : Bytes → Bytes → Bytes
trim_prefix p s = drop (length p) s

-- the switch of readLoop, behind TrimRight
unfoldable pub hear_line : Net → Base64 → Bytes → Heard
unfolding has_prefix split on_password parse_int behind_last_colon
hear_line net base64 l =
    if has_prefix l (codes ">STATE:")
    then on_state net (split b',' (trim_prefix (codes ">STATE:") l))
    else if has_prefix l (codes ">BYTECOUNT:")
    then on_bytecount (split b',' (trim_prefix (codes ">BYTECOUNT:") l))
    else if has_prefix l (codes ">PASSWORD:")
    then tell (on_password base64 (trim_prefix (codes ">PASSWORD:") l))
    else if has_prefix l (codes ">NEED-OK:") || has_prefix l (codes ">NEED-STR:")
    then tell (failure msg_unknown_prompt true ∷ [])
    else if has_prefix l (codes ">INFOMSG:")
    then tell (on_infomsg (trim_prefix (codes ">INFOMSG:") l))
    else if has_prefix l (codes ">FATAL:")
    then tell (failure (trim_prefix (codes ">FATAL:") l) false ∷ [])
    else if has_prefix l (codes ">HOLD:")
    then on_hold (parse_int (trim_space (behind_last_colon l)))
    else tell []

abbrev or_before : ℤ → Option ℤ → ℤ
or_before d none = d
or_before d (some e) = e

-- readLoop, over the lines that it reads before its deadline
unfoldable pub read_loop : Net → Base64 → ℤ → List Bytes → List (ℤ × List Event)
unfolding trim_newlines hear_line
read_loop net base64 deadline [] = []
read_loop net base64 deadline (l ∷ ls) =
    let heard = hear_line net base64 (trim_newlines l) in
    (deadline, heard.events) ∷ read_loop net base64 (or_before deadline heard.deadline) ls

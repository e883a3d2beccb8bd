-- ===== src/Ovpn/Allowlist.antt =====
-- internal/ovpn/allowlist.go: which directives of a profile may reach openvpn, which runs as root.
pub mod Harmless
use wireguide.Base.{
  ℕ, Bool, true, false, not, ◌&&◌, ◌||◌, List, [], ◌∷◌, ◌++◌, Option, none, some, if◌then◌else◌,
  ◌==◌, leb, ltb, length, all, drop,
}
use wireguide.Base.Bytes.{Bytes, codes, equal, contains, has_prefix}
use wireguide.Base.Decimal.{atoi, is_digit}
use wireguide.Base.Int.{ℤ, pos, negsuc}

-- What a refusal says.
pub data CheckError : Type 0 where
  not_allowed inline_refused path_refused bad_arguments : CheckError

pub data InlineMode : Type 0 where
  inline_never inline_only inline_optional : InlineMode

-- The functions in `validate`, and none.
pub data DirCheck : Type 0 where
  any_args auth_user_pass dev dev_type dns_updown http_proxy socks_proxy lport local providers :
      DirCheck
  setenv setenv_safe : DirCheck

-- the names given to `plain`
unfoldable pub plain_names : List Bytes
plain_names =
    codes "client"
    ∷ codes "tls-client"
    ∷ codes "pull"
    ∷ codes "proto"
    ∷ codes "proto-force"
    ∷ codes "remote"
    ∷ codes "remote-random"
    ∷ codes "remote-random-hostname"
    ∷ codes "resolv-retry"
    ∷ codes "nobind"
    ∷ codes "bind"
    ∷ codes "port"
    ∷ codes "rport"
    ∷ codes "float"
    ∷ codes "connect-retry"
    ∷ codes "connect-retry-max"
    ∷ codes "connect-timeout"
    ∷ codes "server-poll-timeout"
    ∷ codes "explicit-exit-notify"
    ∷ codes "sndbuf"
    ∷ codes "rcvbuf"
    ∷ codes "socket-flags"
    ∷ codes "fast-io"
    ∷ codes "http-proxy-option"
    ∷ codes "allow-pull-fqdn"
    ∷ codes "persist-key"
    ∷ codes "persist-tun"
    ∷ codes "persist-remote-ip"
    ∷ codes "persist-local-ip"
    ∷ codes "remote-cert-tls"
    ∷ codes "remote-cert-ku"
    ∷ codes "remote-cert-eku"
    ∷ codes "ns-cert-type"
    ∷ codes "verify-x509-name"
    ∷ codes "auth"
    ∷ codes "cipher"
    ∷ codes "data-ciphers"
    ∷ codes "data-ciphers-fallback"
    ∷ codes "ncp-ciphers"
    ∷ codes "tls-version-min"
    ∷ codes "tls-version-max"
    ∷ codes "tls-cipher"
    ∷ codes "tls-ciphersuites"
    ∷ codes "tls-groups"
    ∷ codes "ecdh-curve"
    ∷ codes "tls-cert-profile"
    ∷ codes "key-direction"
    ∷ codes "hand-window"
    ∷ codes "tran-window"
    ∷ codes "tls-timeout"
    ∷ codes "reneg-sec"
    ∷ codes "reneg-bytes"
    ∷ codes "reneg-pkts"
    ∷ codes "replay-window"
    ∷ codes "compat-mode"
    ∷ codes "comp-lzo"
    ∷ codes "compress"
    ∷ codes "allow-compression"
    ∷ codes "verb"
    ∷ codes "mute"
    ∷ codes "mute-replay-warnings"
    ∷ codes "auth-nocache"
    ∷ codes "auth-retry"
    ∷ codes "static-challenge"
    ∷ codes "push-peer-info"
    ∷ codes "pull-filter"
    ∷ codes "route"
    ∷ codes "route-ipv6"
    ∷ codes "route-nopull"
    ∷ codes "route-gateway"
    ∷ codes "route-ipv6-gateway"
    ∷ codes "route-metric"
    ∷ codes "route-delay"
    ∷ codes "redirect-gateway"
    ∷ codes "redirect-private"
    ∷ codes "block-ipv6"
    ∷ codes "allow-recursive-routing"
    ∷ codes "dhcp-option"
    ∷ codes "dns"
    ∷ codes "topology"
    ∷ codes "tun-mtu"
    ∷ codes "tun-mtu-extra"
    ∷ codes "tun-mtu-max"
    ∷ codes "mssfix"
    ∷ codes "fragment"
    ∷ codes "link-mtu"
    ∷ codes "mtu-disc"
    ∷ codes "keepalive"
    ∷ codes "ping"
    ∷ codes "ping-restart"
    ∷ codes "ping-exit"
    ∷ codes "ping-timer-rem"
    ∷ codes "inactive"
    ∷ codes "tun-ipv6"
    ∷ codes "disable-occ"
    ∷ codes "disable-dco"
    ∷ codes "ignore-unknown-option"
    ∷ codes "script-security"
    ∷ codes "route-method"
    ∷ codes "block-outside-dns"
    ∷ codes "register-dns"
    ∷ codes "ip-win32"
    ∷ codes "dhcp-renew"
    ∷ codes "dhcp-release"
    ∷ codes "dhcp-pre-release"
    ∷ codes "tap-sleep"
    ∷ codes "user"
    ∷ codes "group"
    ∷ []

-- the names with `inline: inlineOnly`
unfoldable pub inline_only_names : List Bytes
inline_only_names =
    codes "ca"
    ∷ codes "cert"
    ∷ codes "key"
    ∷ codes "extra-certs"
    ∷ codes "pkcs12"
    ∷ codes "crl-verify"
    ∷ codes "dh"
    ∷ codes "tls-auth"
    ∷ codes "tls-crypt"
    ∷ codes "tls-crypt-v2"
    ∷ codes "http-proxy-user-pass"
    ∷ codes "connection"
    ∷ []

-- the entries with a check, and the two that may be inline or not
unfoldable pub checked_names : List (Bytes × (InlineMode × DirCheck))
checked_names =
    (codes "peer-fingerprint", (inline_optional, any_args))
    ∷ (codes "verify-hash", (inline_optional, any_args))
    ∷ (codes "auth-user-pass", (inline_optional, auth_user_pass))
    ∷ (codes "dev", (inline_never, dev))
    ∷ (codes "dev-type", (inline_never, dev_type))
    ∷ (codes "dns-updown", (inline_never, dns_updown))
    ∷ (codes "http-proxy", (inline_never, http_proxy))
    ∷ (codes "socks-proxy", (inline_never, socks_proxy))
    ∷ (codes "lport", (inline_never, lport))
    ∷ (codes "local", (inline_never, local))
    ∷ (codes "providers", (inline_never, providers))
    ∷ (codes "setenv", (inline_never, setenv))
    ∷ (codes "setenv-safe", (inline_never, setenv_safe))
    ∷ []

-- `allowedDirectives[name]`, a map whose keys are all different
unfoldable pub lookup_rule :
    List (Bytes × (InlineMode × DirCheck)) → Bytes → Option (InlineMode × DirCheck)
unfolding equal
lookup_rule [] name = none
lookup_rule ((n, r) ∷ rules) name = if equal n name then some r else lookup_rule rules name

unfoldable pub allowed_directive : Bytes → Option (InlineMode × DirCheck)
unfolding plain_names inline_only_names checked_names lookup_rule contains
allowed_directive name =
    if contains plain_names name
    then some (inline_never, any_args)
    else if contains inline_only_names name
    then some (inline_only, any_args)
    else lookup_rule checked_names name

-- unprivilegedPort
unfoldable pub unprivileged_port : Bytes → Bool
unfolding atoi
unprivileged_port s = elim (atoi s) [
  | none ↦ false
  | some (pos n) ↦ n == 0 || (leb 1024 n && leb n 65535)
  | some (negsuc n) ↦ false
]

-- devNameRe
abbrev pub is_tun_number : Bytes → Bool
is_tun_number s = leb (length s) 3 && all is_digit s

abbrev is_tun_name : Bytes → Bool
is_tun_name s = has_prefix s (codes "tun") && is_tun_number (drop 3 s)

unfoldable pub is_dev_name : Bytes → Bool
unfolding has_prefix
is_dev_name s = is_tun_name s || (has_prefix s (codes "u") && is_tun_name (drop 1 s))

abbrev is_env_byte : ℕ → Bool
is_env_byte c =
    is_digit c || ((leb b'A' c && leb c b'Z') || ((leb b'a' c && leb c b'z') || c == b'_'))

-- envNameRe
unfoldable pub is_env_name : Bytes → Bool
is_env_name s = not (length s == 0) && (leb (length s) 64 && all is_env_byte s)

-- safeSetenvNames, and the prefixes
unfoldable pub is_safe_setenv : Bytes → Bool
unfolding contains has_prefix
is_safe_setenv name =
    contains
      (codes "FORWARD_COMPATIBLE"
        ∷ codes "PUSH_PEER_INFO"
        ∷ codes "REMOTE_RANDOM_HOSTNAME"
        ∷ codes "SERVER_POLL_TIMEOUT"
        ∷ codes "CLIENT_CERT"
        ∷ [])
      name
    || (has_prefix name (codes "UV_") || has_prefix name (codes "IV_"))

-- stripOnly
unfoldable pub strip_only : Bytes → Bool
unfolding contains
strip_only name = contains (codes "user" ∷ codes "group" ∷ []) name

abbrev one_of : List Bytes → List Bytes → Bool
one_of allowed (a ∷ []) = contains allowed a
one_of allowed _ = false

-- http-proxy: SERVER PORT [auto|auto-nct|stdin [AUTH-METHOD]]
abbrev is_http_proxy : List Bytes → Bool
is_http_proxy (_ ∷ _ ∷ c ∷ more) =
    if contains (codes "auto" ∷ codes "auto-nct" ∷ []) c
    then length more == 0
    else equal c (codes "stdin") && leb (length more) 1
is_http_proxy _ = true

-- socks-proxy: SERVER [PORT [stdin]]
abbrev is_socks_proxy : List Bytes → Bool
is_socks_proxy (_ ∷ _ ∷ c ∷ more) = equal c (codes "stdin") && length more == 0
is_socks_proxy _ = true

abbrev is_local : List Bytes → Bool
is_local (_ ∷ p ∷ _) = unprivileged_port p
is_local _ = true

abbrev is_lport : List Bytes → Bool
is_lport (p ∷ []) = unprivileged_port p
is_lport _ = false

abbrev is_dev : List Bytes → Bool
is_dev (d ∷ []) = is_dev_name d
is_dev _ = false

-- validateSetenv for a variable
abbrev is_variable : List Bytes → Bool
is_variable (n ∷ []) = is_env_name n && is_safe_setenv n
is_variable (n ∷ _ ∷ []) = is_env_name n && is_safe_setenv n
is_variable _ = false

abbrev is_safe_variable : List Bytes → Bool
is_safe_variable (n ∷ []) = is_env_name n
is_safe_variable (n ∷ _ ∷ []) = is_env_name n
is_safe_variable _ = false

abbrev pub is_opt : List Bytes → Bool
is_opt [] = false
is_opt (a ∷ _) = equal a (codes "opt")

-- What a check finds: nothing, or the refusal. `inner` is what checking the directive behind
-- "setenv opt" finds.
abbrev require : Bool → Option CheckError
require true = none
require false = some bad_arguments

unfoldable pub validate_directive :
    DirCheck → Bool → List Bytes → Option CheckError → Option CheckError
unfolding contains equal unprivileged_port is_dev_name is_env_name is_safe_setenv
validate_directive any_args inline args inner = none
validate_directive auth_user_pass inline args inner =
    if not inline && not (length args == 0) then some path_refused else none
validate_directive dev inline args inner = require (is_dev args)
validate_directive dev_type inline args inner = require (one_of (codes "tun" ∷ []) args)
validate_directive dns_updown inline args inner = require (one_of (codes "disable" ∷ []) args)
validate_directive http_proxy inline args inner = require (is_http_proxy args)
validate_directive socks_proxy inline args inner = require (is_socks_proxy args)
validate_directive lport inline args inner = require (is_lport args)
validate_directive local inline args inner = require (is_local args)
validate_directive providers inline args inner =
    require (all (contains (codes "legacy" ∷ codes "default" ∷ codes "base" ∷ [])) args)
validate_directive setenv inline args inner =
    if is_opt args then inner else require (is_variable args)
validate_directive setenv_safe inline args inner = require (is_safe_variable args)

abbrev refuses_inline : InlineMode → Bool → Option CheckError
refuses_inline inline_never true = some inline_refused
refuses_inline inline_only false = some path_refused
refuses_inline _ _ = none

-- checkDirective, with what the directive behind "setenv opt" comes to
unfoldable pub apply_rule :
    Option (InlineMode × DirCheck) → Bool → List Bytes → Option CheckError → Option CheckError
unfolding validate_directive
apply_rule none inline args inner = some not_allowed
apply_rule (some (mode, check)) inline args inner = elim (refuses_inline mode inline) [
  | some e ↦ some e
  | none ↦ validate_directive check inline args inner
]

-- checkDirective
unfoldable pub check_directive : Bytes → Bool → List Bytes → Option CheckError
unfolding allowed_directive apply_rule strip_only
check_directive name inline (a ∷ n ∷ rest) =
    let inner = check_directive n false rest in
    apply_rule (allowed_directive name) inline (a ∷ n ∷ rest)
      (if strip_only n then some not_allowed else inner)
check_directive name inline args =
    apply_rule (allowed_directive name) inline args (some bad_arguments)

-- ===== src/Ovpn/Profile.antt =====
-- inspectProfile of internal/ovpn/config.go: whether a profile may run, and what Connect needs of it.
pub mod Accepted
pub mod Runtime
use wireguide.Base.{
  ℕ, suc, ◌+◌, ◌-◌, Bool, true, false, not, ◌&&◌, ◌||◌, List, [], ◌∷◌, ◌++◌, Option, none, some,
  if◌then◌else◌, ◌==◌, leb, ltb, length, all, any, map,
}
use wireguide.Base.Bytes.{Bytes, codes, equal, contains}
use wireguide.Base.Decimal.{atoi, is_digit}
use wireguide.Base.Decimal.Itoa.{itoa}
use wireguide.Base.Int.{ℤ, pos, negsuc, ltb_ℤ}
use wireguide.Base.Result.{Result, ok, err, ◌>>=◌}
use wireguide.Base.Text.{split}
use wireguide.Domain.{is_empty}
use wireguide.Net.{Net}
use wireguide.Ovpn.Allowlist.{
  CheckError, not_allowed, check_directive, strip_only, unprivileged_port,
}
use wireguide.Ovpn.Dns.{DnsConfig, no_dns, add_option}
use wireguide.Ovpn.Push.{PullFilter}
use wireguide.Ovpn.Remotes.{OvpnConfig, summarize}
use wireguide.Ovpn.Source.{ConfigError, Directive, TopDirective, parse_config}

pub data ProfileError : Type 0 where
  too_large no_remote no_client : ProfileError
  not_read : ConfigError → ProfileError
  refused : ℕ → CheckError → ProfileError
  low_port : ℕ → ProfileError

pub record Profile : Type 0 where
  pub cfg : OvpnConfig
  pub has_keepalive : Bool
  pub has_mtu : Bool
  pub legacy_ciphers : Bytes
  pub verb : ℤ
  pub dns : DnsConfig
  pub pull_filters : List PullFilter
  pub strip_lines : List ℕ

-- The variables of inspectProfile, beside the profile's own fields.
pub record Inspection : Type 0 where
  pub has_remote : Bool
  pub has_client : Bool
  pub pull : Bool
  pub bind : Bool
  pub low_port : List ℕ
  pub cipher : Bytes
  pub explicit_ciphers : Bool
  pub persist_remote : List ℕ
  pub has_keepalive : Bool
  pub has_mtu : Bool
  pub verb : ℤ
  pub dns : DnsConfig
  pub pull_filters : List PullFilter
  pub strip_lines : List ℕ

abbrev pub inspection_start : Inspection
inspection_start = record {
  has_remote = false;
  has_client = false;
  pull = false;
  bind = false;
  low_port = [];
  cipher = [];
  explicit_ciphers = false;
  persist_remote = [];
  has_keepalive = false;
  has_mtu = false;
  verb = negsuc 0;
  dns = no_dns;
  pull_filters = [];
  strip_lines = [];
}

abbrev pub max_ovpn_size : ℕ
max_ovpn_size = 1048576

-- effective
unfoldable pub effective : Bytes → List Bytes → Bytes × List Bytes
unfolding equal
effective name (a ∷ n ∷ rest) =
    if equal name (codes "setenv") && equal a (codes "opt") then (n, rest) else (name, a ∷ n ∷ rest)
effective name args = (name, args)

abbrev low_port_of : ℕ → List Bytes → List ℕ
low_port_of n (p ∷ []) = if unprivileged_port p then [] else n ∷ []
low_port_of n _ = []

abbrev verb_of : ℤ → List Bytes → ℤ
verb_of v (a ∷ []) = elim (atoi a) [ none ↦ v | some n ↦ n ]
verb_of v _ = v

abbrev cipher_of : Bytes → List Bytes → Bytes
cipher_of c [] = c
cipher_of c (a ∷ _) = a

abbrev filter_of : List Bytes → List PullFilter
filter_of (a ∷ p ∷ []) = record { action = a; prefix = p } ∷ []
filter_of _ = []

abbrev is_short : List Bytes → Bool
is_short (_ ∷ _ ∷ _) = false
is_short _ = true

-- the switch on the effective name
unfoldable pub note_directive : Net → ℕ → Bytes → List Bytes → Inspection → Inspection
unfolding equal contains atoi unprivileged_port add_option
note_directive net n name args i =
    if equal name (codes "remote")
    then record i { has_remote = true }
    else if equal name (codes "client")
    then record i { has_client = true; pull = true }
    else if equal name (codes "tls-client")
    then record i { has_client = true }
    else if equal name (codes "pull")
    then record i { pull = true }
    else if equal name (codes "bind")
    then record i { bind = true }
    else if equal name (codes "local")
    then record i { bind = i.bind || is_short args }
    else if equal name (codes "port")
    then record i { low_port = i.low_port ++ low_port_of n args }
    else if contains (codes "ping" ∷ codes "ping-restart" ∷ codes "keepalive" ∷ []) name
    then record i { has_keepalive = true }
    else if contains (codes "mssfix" ∷ codes "fragment" ∷ codes "tun-mtu" ∷ codes "link-mtu" ∷ [])
        name
    then record i { has_mtu = true }
    else if contains (codes "data-ciphers" ∷ codes "ncp-ciphers" ∷ []) name
    then record i { explicit_ciphers = true }
    else if equal name (codes "cipher")
    then record i { cipher = cipher_of i.cipher args }
    else if equal name (codes "verb")
    then record i { verb = verb_of i.verb args }
    else if contains (codes "dns" ∷ codes "dhcp-option" ∷ []) name
    then record i { dns = add_option net name args i.dns }
    else if equal name (codes "pull-filter")
    then record i { pull_filters = i.pull_filters ++ filter_of args }
    else if equal name (codes "persist-remote-ip")
    then record i { persist_remote = i.persist_remote ++ n ∷ [] }
    else i

-- visit, behind the allowlist
unfoldable pub accept : Net → Bool → Directive → Inspection → Result ProfileError Inspection
unfolding strip_only effective note_directive
accept net top d i =
    if strip_only d.name
    then (if top
        then ok (record i { strip_lines = i.strip_lines ++ d.line ∷ [] })
        else err (refused d.line not_allowed))
    else if d.inline
    then ok i
    else ok (note_directive net d.line (effective d.name d.args).0 (effective d.name d.args).1 i)

abbrev pub unless_refused :
    {A : Type 0} → ℕ → Option CheckError → Result ProfileError A → Result ProfileError A
unless_refused n none rest = rest
unless_refused n (some e) rest = err (refused n e)

-- visit
unfoldable pub visit : Net → Bool → Directive → Inspection → Result ProfileError Inspection
unfolding check_directive accept
visit net top d i =
    unless_refused d.line (check_directive d.name d.inline d.args) (accept net top d i)

unfoldable pub visit_children : Net → List Directive → Inspection → Result ProfileError Inspection
unfolding visit
visit_children net [] i = ok i
visit_children net (d ∷ ds) i = do j ← visit net false d i; visit_children net ds j

-- the loops over the directives
unfoldable pub visit_all : Net → List TopDirective → Inspection → Result ProfileError Inspection
unfolding visit visit_children
visit_all net [] i = ok i
visit_all net (t ∷ ts) i = do
  j ← visit net true t.directive i
  k ← visit_children net t.children j
  visit_all net ts k

abbrev upper_byte : ℕ → ℕ
upper_byte c = if leb b'a' c && leb c b'z' then c - 32 else c

abbrev is_cipher_byte : ℕ → Bool
is_cipher_byte c =
    c == b'-' || (is_digit c || ((leb b'a' c && leb c b'z') || (leb b'A' c && leb c b'Z')))

-- isCipherName
unfoldable pub is_cipher_name : Bytes → Bool
is_cipher_name s = leb (length s) 64 && all is_cipher_byte s

abbrev default_data_ciphers : Bytes
default_data_ciphers = codes "AES-256-GCM:AES-128-GCM:CHACHA20-POLY1305"

-- legacyDataCiphers; strings.ToUpper of a cipher's name is that of its ASCII letters
unfoldable pub legacy_data_ciphers : Bytes → Bytes
unfolding is_cipher_name equal split contains
legacy_data_ciphers cipher =
    let upper = map upper_byte cipher in
    if is_empty cipher || not (is_cipher_name cipher)
    then []
    else if equal upper (codes "NONE") || equal upper (codes "BF-CBC")
    then []
    else if contains (split b':' default_data_ciphers) upper
    then []
    else default_data_ciphers ++ (b':' ∷ cipher)

abbrev is_several {ℓ} : {A : Type ℓ} → List A → Bool
is_several (_ ∷ _ ∷ _) = true
is_several _ = false

-- what is made of the directives, and the checks of the whole profile in front
unfoldable pub conclude : List TopDirective → Inspection → Result ProfileError Profile
unfolding summarize legacy_data_ciphers
conclude ds i =
    if not i.has_remote
    then err no_remote
    else if not i.has_client
    then err no_client
    else elim (if i.bind || not i.pull then i.low_port else []) [
      | n ∷ _ ↦ err (low_port n)
      | [] ↦
          let cfg = summarize ds in
          ok (record {
            cfg = cfg;
            has_keepalive = i.has_keepalive;
            has_mtu = i.has_mtu;
            legacy_ciphers = if i.explicit_ciphers then [] else legacy_data_ciphers i.cipher;
            verb = i.verb;
            dns = i.dns;
            pull_filters = i.pull_filters;
            strip_lines =
                i.strip_lines ++ (if is_several cfg.remotes then i.persist_remote else []);
          })
    ]

abbrev read_profile : {A : Type 0} → Result ConfigError A → Result ProfileError A
read_profile (ok a) = ok a
read_profile (err e) = err (not_read e)

-- inspectProfile
unfoldable pub inspect_profile : Net → Bytes → Result ProfileError Profile
unfolding parse_config visit_all conclude
inspect_profile net s = if ltb max_ovpn_size (length s) then err too_large else (do
  ds ← read_profile (parse_config s)
  i ← visit_all net ds inspection_start
  conclude ds i)

-- runtimeVerb
unfoldable pub runtime_verb : ℤ → Bytes
unfolding itoa
runtime_verb v =
    if ltb_ℤ v (pos 3)
    then itoa 3
    else if ltb_ℤ (pos 4) v
    then itoa 4
    else elim v [ pos n ↦ itoa n | negsuc n ↦ itoa 3 ]

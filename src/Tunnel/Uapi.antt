-- ===== src/Tunnel/Uapi.antt =====
-- internal/tunnel/engine.go: the configuration that wireguard-go is given. base64 and
-- net.ResolveUDPAddr are parameters.
use wireguide.Base.{
  ℕ, ◌+◌, ◌/◌, ◌%◌, Bool, true, false, not, ◌&&◌, ◌-◌, ◌≡◌, refl, arith, length-append, List, [],
  ◌∷◌, ◌++◌, Option, none, some, if◌then◌else◌, ◌==◌, ltb, length,
}
use wireguide.Base.Bytes.{Bytes, codes}
use wireguide.Base.Decimal.Itoa.{itoa}
use wireguide.Base.Int.{ℤ, pos, negsuc}
use wireguide.Base.Result.{Result, ok, err, ◌>>=◌}
use wireguide.Domain.{PeerConfig, WireGuardConfig}
use wireguide.Net.{Net}

-- base64.StdEncoding.DecodeString, and the text of the address that net.ResolveUDPAddr gives
pub record Resolver : Type 0 where
  pub decode : Bytes → Option Bytes
  pub resolve_udp : Bytes → Option Bytes

pub data UapiError : Type 0 where
  bad_private_key : UapiError
  bad_public_key bad_preshared_key bad_endpoint : ℕ → UapiError

abbrev hex_digit : ℕ → ℕ
hex_digit n = if ltb n 10 then b'0' + n else b'a' + n - 10

-- hex.EncodeToString
unfoldable pub hex : Bytes → Bytes
hex [] = []
hex (c ∷ s) = hex_digit (c / 16) ∷ hex_digit (c % 16) ∷ hex s

-- keyToHex
unfoldable pub key_to_hex : Resolver → Bytes → Option Bytes
unfolding hex
key_to_hex lib key = elim (lib.decode key) [
  | none ↦ none
  | some raw ↦ if length raw == 32 then some (hex raw) else none
]

abbrev or_fail : Option Bytes → UapiError → Result UapiError Bytes
or_fail none e = err e
or_fail (some s) e = ok s

-- `key=value` and a line feed
abbrev pub uapi_line : Bytes → Bytes → Bytes
uapi_line key value = key ++ (b'=' ∷ (value ++ b'\n' ∷ []))

abbrev positive_line : Bytes → ℤ → Bytes
positive_line key (pos n) = if n == 0 then [] else uapi_line key (itoa n)
positive_line key (negsuc n) = []

unfoldable pub allowed_ip_lines : List Bytes → Bytes
allowed_ip_lines [] = []
allowed_ip_lines (c ∷ cs) = uapi_line (codes "allowed_ip") c ++ allowed_ip_lines cs

abbrev optional_line : Bytes → Bytes → Result UapiError Bytes → Result UapiError Bytes
optional_line key [] value = ok []
optional_line key (c ∷ s) value = do v ← value; ok (uapi_line key v)

-- one peer of buildIpcConfig, the number `i`
unfoldable pub peer_text : Resolver → ℕ → PeerConfig → Result UapiError Bytes
unfolding key_to_hex allowed_ip_lines itoa
peer_text lib i p = do
  pk ← or_fail (key_to_hex lib p.public_key) (bad_public_key i)
  psk ←
      optional_line (codes "preshared_key") p.preshared_key
        (or_fail (key_to_hex lib p.preshared_key) (bad_preshared_key i))
  endpoint ←
      optional_line (codes "endpoint") p.endpoint
        (or_fail (lib.resolve_udp p.endpoint) (bad_endpoint i))
  ok (
      uapi_line (codes "public_key") pk
      ++ (psk
          ++ (endpoint
              ++ (uapi_line (codes "replace_allowed_ips") (codes "true")
                  ++ (allowed_ip_lines p.allowed_ips
                      ++ positive_line (codes "persistent_keepalive_interval")
                          p.persistent_keepalive)))))

unfoldable pub peers_text : Resolver → ℕ → List PeerConfig → Result UapiError Bytes
unfolding peer_text
peers_text lib i [] = ok []
peers_text lib i (p ∷ ps) = do
  one ← peer_text lib i p
  rest ← peers_text lib (i + 1) ps
  ok (one ++ rest)

-- buildIpcConfig
unfoldable pub build_ipc_config : Resolver → WireGuardConfig → Result UapiError Bytes
unfolding key_to_hex peers_text itoa
build_ipc_config lib cfg = do
  pk ← or_fail (key_to_hex lib cfg.interface.private_key) bad_private_key
  peers ← peers_text lib 0 cfg.peers
  ok (
      uapi_line (codes "private_key") pk
      ++ (positive_line (codes "listen_port") cfg.interface.listen_port
          ++ (uapi_line (codes "replace_peers") (codes "true") ++ peers)))

-- the two lists of orderIPsV4First
unfoldable pub ips_of : Net → Bool → List Bytes → List Bytes
ips_of net v6 [] = []
ips_of net v6 (s ∷ ips) =
    let rest = ips_of net v6 ips in
    let is_v6 = net.is_ip s && not (net.is_ip4 s) in
    if (if v6 then is_v6 else not is_v6) then s ∷ rest else rest

-- orderIPsV4First
unfoldable pub order_ips_v4_first : Net → List Bytes → List Bytes
unfolding ips_of
order_ips_v4_first net ips = ips_of net false ips ++ ips_of net true ips

-- The order keeps the addresses that it is given.
pub length-order_ips_v4_first :
    (net : Net) (ips : List Bytes) → length (order_ips_v4_first net ips) ≡ length ips
unfolding order_ips_v4_first ips_of
length-order_ips_v4_first net [] = refl
length-order_ips_v4_first net (s ∷ ips) = grind (
  arith,
  length-append (ips_of net false ips) (ips_of net true ips),
  length-append (ips_of net false ips) (s ∷ ips_of net true ips),
  length-order_ips_v4_first net ips,
)

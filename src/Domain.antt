-- ===== src/Domain.antt =====
-- internal/domain: the configuration records and the predicates on them. A Go map of extra keys is
-- a `Dict`; `nil` and the empty map are one.
use wireguide.Base.{
  ℕ, Bool, true, false, ◌||◌, ◌&&◌, not, List, [], ◌∷◌, Option, none, some, ◌==◌, any,
}
use wireguide.Base.Bytes.{Bytes}
use wireguide.Base.Dict.{Dict}
use wireguide.Base.Int.{ℤ}
use wireguide.Net.{Net}

pub record InterfaceConfig : Type 0 where
  pub private_key : Bytes
  pub address : List Bytes
  pub dns : List Bytes
  pub mtu : ℤ
  pub listen_port : ℤ
  pub table : Bytes
  pub fw_mark : Bytes
  pub pre_up : Bytes
  pub post_up : Bytes
  pub pre_down : Bytes
  pub post_down : Bytes
  pub extra_keys : Dict Bytes

pub record PeerConfig : Type 0 where
  pub public_key : Bytes
  pub preshared_key : Bytes
  pub endpoint : Bytes
  pub allowed_ips : List Bytes
  pub persistent_keepalive : ℤ
  pub extra_keys : Dict Bytes

pub record WireGuardConfig : Type 0 where
  pub name : Bytes
  pub interface : InterfaceConfig
  pub peers : List PeerConfig

pub data Protocol : Type 0 where
  empty wireguard openvpn : Protocol

-- NormalizeProtocol
unfoldable pub normalize_protocol : Protocol → Protocol
normalize_protocol empty = wireguard
normalize_protocol p = p

abbrev pub is_empty : Bytes → Bool
is_empty [] = true
is_empty (_ ∷ _) = false

-- HasScripts
unfoldable pub has_scripts : WireGuardConfig → Bool
has_scripts c =
    not (is_empty c.interface.pre_up)
    || not (is_empty c.interface.post_up)
    || not (is_empty c.interface.pre_down)
    || not (is_empty c.interface.post_down)

-- `ones == 0 && (bits == 32 || bits == 128)`, where the CIDR parses
abbrev pub is_default_route : Option (ℕ × ℕ) → Bool
is_default_route none = false
is_default_route (some (ones, bits)) = ones == 0 && (bits == 32 || bits == 128)

-- IsFullTunnel
unfoldable pub is_full_tunnel : Net → WireGuardConfig → Bool
is_full_tunnel net c =
    any (λ (p : PeerConfig). any (λ ip. is_default_route (net.mask_size ip)) p.allowed_ips) c.peers

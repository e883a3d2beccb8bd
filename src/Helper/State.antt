-- ===== src/Helper/State.antt =====
-- The part of the `Helper` struct (internal/helper/helper.go) that the firewall policy reads and
-- writes under `h.mu`, and the data of internal/helper/firewall.go.
use wireguide.Base.{ℕ, Bool, false, Option, none, some, List, [], ltb, ◌||◌}
use wireguide.Base.Bytes.{Bytes}
use wireguide.Base.Dict.{Dict, get, has}
use wireguide.Domain.{WireGuardConfig, Protocol}
use wireguide.Firewall.Rules.{KillSwitchTunnel}

-- fwPolicy
pub record Policy : Type 0 where
  pub kill_switch : Bool
  pub dns_protection : Bool

-- literalEndpoint
pub record LiteralEndpoint : Type 0 where
  pub ep : Bytes
  pub proto : Bytes

-- hostPort
pub record HostPort : Type 0 where
  pub host : Bytes
  pub port : Bytes
  pub proto : Bytes

-- cachedEndpoints
pub record CachedEndpoints : Type 0 where
  pub passes : List KillSwitchTunnel
  pub hostname : Bool
  pub resolved : List LiteralEndpoint

abbrev pub no_endpoints : CachedEndpoints
no_endpoints = record { passes = []; hostname = false; resolved = [] }

-- A set of names is a Go map to `true`; only the key counts.
abbrev pub Names : Type 0
Names = Dict (Unit {0})

pub record Helper : Type 0 where
  pub active_cfgs : Dict WireGuardConfig
  pub active_ovpn_cfgs : Dict Bytes
  pub auto_reconnect : Dict Bool
  pub policy : Policy
  pub held : Dict ℕ
  pub pending : Names
  pub blocked : Dict Protocol
  pub through : Names
  pub endpoints : Dict CachedEndpoints
  pub dns_lookups : Dict (List Bytes)
  pub dns_lookup_refs : Dict ℕ
  pub ovpn_dying : Names
  pub disconnect_epoch : Dict ℕ

-- `m[name]` of a map to numbers, which is 0 where the key is missing
abbrev pub or_zero : Option ℕ → ℕ
or_zero none = 0
or_zero (some n) = n

-- `m[name]` of a map to booleans
abbrev pub or_false : Option Bool → Bool
or_false none = false
or_false (some b) = b

abbrev pub holds : Helper → Bytes → ℕ
holds h name = or_zero (get h.held name)

-- isHeldLocked
unfoldable pub is_held : Helper → Bytes → Bool
unfolding has
is_held h name = ltb 0 (holds h name) || has h.pending name

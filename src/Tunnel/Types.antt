-- ===== src/Tunnel/Types.antt =====
-- The data of internal/tunnel: states, errors, engines and the entries of the manager. Messages of
-- errors are left out; a `TunnelError` is its kind.
use wireguide.Base.{ℕ, Bool, Option, List}
use wireguide.Base.Bytes.{Bytes}
use wireguide.Base.Dict.{Dict}
use wireguide.Domain.{WireGuardConfig}

-- domain.State with the manager's own `stateDisconnecting`
pub data State : Type 0 where
  disconnected connecting connected error disconnecting : State

-- ErrorKind
pub data ErrorKind : Type 0 where
  already_connected transition_in_progress not_connected engine_creation network : ErrorKind
  resolution config state_corrupt timeout full_tunnel_conflict : ErrorKind

-- An engine is a pointer in the code; `id` tells two engines apart.
pub record Engine : Type 0 where
  pub id : ℕ
  pub interface_name : Bytes
  pub endpoints : List Bytes
  pub endpoint_ips : List Bytes

-- The part of a tunnel's network.NetworkManager that the manager sets.
pub record NetworkManager : Type 0 where
  pub pin_interface : Bool

-- tunnelEntry
pub record Entry : Type 0 where
  pub state : State
  pub engine : Option Engine
  pub cfg : Option WireGuardConfig
  pub connected_at : ℕ
  pub net_mgr : Option NetworkManager

-- Manager, with what its mutex guards
pub record Manager : Type 0 where
  pub tunnels : Dict Entry
  pub pin_interface : Bool

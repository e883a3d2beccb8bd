-- ===== src/Tunnel/Phases.antt =====
-- internal/tunnel/connect_phases.go. What a call of the network layer answers is the environment's;
-- the world keeps the calls made, in order, and the recovery files.
pub mod Rollback
use wireguide.Base.{ℕ, Bool, true, false, List, [], ◌∷◌, ◌++◌, Option, none, some, if◌then◌else◌}
use wireguide.Base.Bytes.{Bytes}
use wireguide.Base.Int.{ℤ}
use wireguide.Base.Result.{Result, ok, err}
use wireguide.Domain.{WireGuardConfig, PeerConfig, is_full_tunnel}
use wireguide.Net.{Net}
use wireguide.Tunnel.Types.{ErrorKind, engine_creation, network, Engine}
use wireguide.Tunnel.Recovery.{ActiveTunnelState, StateFiles, save_active_state, clear_active_state}

-- The calls of network.NetworkManager and of the engine, with their arguments.
pub data Call : Type 0 where
  create_engine : ℕ → Call
  set_mtu : Bytes → ℤ → Call
  assign_address : Bytes → List Bytes → Call
  bring_up : Bytes → Call
  add_routes : Bytes → List Bytes → Bool → List Bytes → Bytes → Call
  set_dns : Bytes → List Bytes → Call
  cleanup : Bytes → Call
  close_engine : ℕ → Call

-- `can_remove` says whether a recovery file can be removed.
pub record World : Type 0 where
  pub log : List Call
  pub files : StateFiles
  pub can_remove : Bool

-- `engineFactory`, the answers of the network layer, and whether the recovery file can be written.
pub record Platform : Type 0 where
  pub new_engine : WireGuardConfig → Option Engine
  pub succeeds : Call → Bool
  pub can_write : Bool

abbrev pub note : Call → World → World
note call w = record w { log = w.log ++ call ∷ [] }

abbrev pub Outcome : Type 0
Outcome = Result ErrorKind Engine × World

-- the closure `rollback`
unfoldable pub rollback : Engine → WireGuardConfig → World → World
rollback e cfg w =
    let w' = note (close_engine e.id) (note (cleanup e.interface_name) w) in
    record w' { files = clear_active_state w'.can_remove cfg.name w'.files }

-- `if err := call; err != nil { return nil, rollback(…) }`, then the rest
unfoldable pub attempt :
    Platform → Engine → WireGuardConfig → Call → (World → Outcome) → World → Outcome
unfolding rollback
attempt pf e cfg call rest w =
    if pf.succeeds call then rest (note call w) else (err network, rollback e cfg (note call w))

unfoldable pub all_allowed_ips : List PeerConfig → List Bytes
all_allowed_ips [] = []
all_allowed_ips (p ∷ ps) = p.allowed_ips ++ all_allowed_ips ps

-- `if len(cfg.Interface.DNS) > 0`
unfoldable pub configure_dns : Platform → Engine → WireGuardConfig → List Bytes → World → Outcome
unfolding attempt
configure_dns pf e cfg [] w = (ok e, w)
configure_dns pf e cfg (d ∷ ds) w =
    attempt pf e cfg (set_dns e.interface_name (d ∷ ds)) (λ w'. (ok e, w')) w

abbrev pub routes_call : Net → WireGuardConfig → Engine → Call
routes_call net cfg e =
    add_routes e.interface_name (all_allowed_ips cfg.peers) (is_full_tunnel net cfg) e.endpoint_ips
      cfg.interface.table

-- The steps behind the creation of the engine, the last ones first.
unfoldable pub configure_routes : Net → Platform → Engine → WireGuardConfig → World → Outcome
unfolding attempt configure_dns
configure_routes net pf e cfg =
    attempt pf e cfg (routes_call net cfg e) (configure_dns pf e cfg cfg.interface.dns)

unfoldable pub start_interface : Net → Platform → Engine → WireGuardConfig → World → Outcome
unfolding attempt configure_routes
start_interface net pf e cfg =
    attempt pf e cfg (bring_up e.interface_name) (configure_routes net pf e cfg)

unfoldable pub configure_address : Net → Platform → Engine → WireGuardConfig → World → Outcome
unfolding attempt start_interface
configure_address net pf e cfg =
    attempt pf e cfg (assign_address e.interface_name cfg.interface.address)
      (start_interface net pf e cfg)

unfoldable pub set_up : Net → Platform → Engine → WireGuardConfig → World → Outcome
unfolding attempt configure_address
set_up net pf e cfg =
    attempt pf e cfg (set_mtu e.interface_name cfg.interface.mtu) (configure_address net pf e cfg)

-- the engine is recorded before routes or DNS are touched
unfoldable pub begin : Platform → WireGuardConfig → Engine → World → World
begin pf cfg e w =
    let st : ActiveTunnelState = record {
      tunnel_name = cfg.name;
      interface_name = e.interface_name;
    } in
    let w' = note (create_engine e.id) w in
    record w' { files = save_active_state pf.can_write st w'.files }

-- the rest of connectPhases, on what the engine factory returned
unfoldable pub with_engine : Net → Platform → WireGuardConfig → World → Option Engine → Outcome
unfolding set_up begin
with_engine net pf cfg w none = (err engine_creation, w)
with_engine net pf cfg w (some e) = set_up net pf e cfg (begin pf cfg e w)

-- connectPhases
unfoldable pub connect_phases : Net → Platform → WireGuardConfig → World → Outcome
unfolding with_engine
connect_phases net pf cfg w = with_engine net pf cfg w (pf.new_engine cfg)

-- `if netMgr != nil { netMgr.Cleanup(ifaceName) }`
abbrev pub cleanup_if : Bool → Engine → World → World
cleanup_if has_manager e w = if has_manager then note (cleanup e.interface_name) w else w

-- disconnectPhases
unfoldable pub disconnect_phases : Bool → WireGuardConfig → Engine → World → World
disconnect_phases has_manager cfg e w =
    let w' = note (close_engine e.id) (cleanup_if has_manager e w) in
    record w' { files = clear_active_state w'.can_remove cfg.name w'.files }

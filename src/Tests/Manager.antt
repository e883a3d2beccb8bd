-- ===== src/Tests/Manager.antt =====
-- Runs of the tunnel manager.
use wireguide.Base.{false, [], ◌∷◌, none, some, ◌≡◌, refl, if◌then◌else◌}
use wireguide.Base.Bytes.{codes, equal}
use wireguide.Base.Dict.{get, put}
use wireguide.Base.Result.{ok, err}
use wireguide.Domain.{WireGuardConfig, is_full_tunnel}
use wireguide.Tunnel.Types.{connected, network, full_tunnel_conflict, already_connected, Entry}
use wireguide.Tunnel.Recovery.{state_file_name}
use wireguide.Tunnel.Phases.{begin, connect_phases}
use wireguide.Tunnel.Phases.Rollback.{
  RunsOrRollsBack, bring_up_calls, connect_phases-RunsOrRollsBack, connect_phases_failed, left_file,
}
use wireguide.Tunnel.Manager.{claim_connect, commit_connect, claimed, is_full}
use wireguide.Tunnel.Interleaving.{connect_begins, connect_ends, Reach, here, next}
use wireguide.Tunnel.Interleaving.Ops.{connecting_op, System, initial}
use wireguide.Tunnel.Interleaving.Invariant.{Inv}
use wireguide.Tunnel.Interleaving.Safety.{Reach-Inv, connect-never-aborts}
use wireguide.Tunnel.Interleaving.FullTunnel.{
  SerialReach, start, more, OneFull, SerialReach-OneFull,
}
use wireguide.Tests.Data.{toy_net, office, engine, routeless, quiet_world}

abbrev home : WireGuardConfig
home = record office { name = codes "home" }

-- `office` while its connect is between its critical sections, and once it is up
abbrev claiming : System
claiming = record { manager = claimed initial.manager office; ops = connecting_op office ∷ [] }

abbrev up : System
up = record {
  manager = (commit_connect claiming.manager (codes "office") (ok engine) 100).manager;
  ops = [];
}

abbrev up_entry : Entry
up_entry = record {
  state = connected;
  engine = some engine;
  cfg = some office;
  connected_at = 100;
  net_mgr = some (record { pin_interface = false });
}

claiming-Reach : Reach toy_net initial claiming
unfolding claim_connect get is_full_tunnel equal
claiming-Reach = next here (connect_begins {s = initial} office refl)

up-Reach : Reach toy_net initial up
up-Reach = next claiming-Reach (connect_ends {s = claiming} office (ok engine) 100 [] [] refl)

up-SerialReach : SerialReach toy_net initial up
unfolding claim_connect get is_full_tunnel equal
up-SerialReach =
    more (more start (connect_begins {s = initial} office refl) refl)
      (connect_ends {s = claiming} office (ok engine) 100 [] [] refl) tt

up-office : get up.manager.tunnels (codes "office") ≡ some up_entry
unfolding commit_connect get put equal
up-office = refl

-- A second tunnel that routes all traffic is refused, and so is a second connect.
second_full : claim_connect toy_net up.manager home ≡ err full_tunnel_conflict
unfolding claim_connect commit_connect get put is_full_tunnel equal is_full
second_full = refl

again : claim_connect toy_net up.manager office ≡ err already_connected
unfolding claim_connect commit_connect get put is_full_tunnel equal
again = refl

Reach-Inv_example : Inv up
Reach-Inv_example = Reach-Inv toy_net up-Reach

connect-never-aborts_example :
    let c = commit_connect claiming.manager (codes "office") (ok engine) 100 in
    (c.aborted ≡ false) × (c.result ≡ ok tt)
connect-never-aborts_example =
    connect-never-aborts toy_net office engine 100 [] [] claiming-Reach refl

SerialReach-OneFull_example : OneFull toy_net up.manager.tunnels
SerialReach-OneFull_example = SerialReach-OneFull toy_net up-SerialReach

connect_phases-RunsOrRollsBack_example :
    RunsOrRollsBack routeless engine office
      (begin routeless office engine quiet_world)
      (bring_up_calls toy_net office engine)
      (connect_phases toy_net routeless office quiet_world)
connect_phases-RunsOrRollsBack_example =
    connect_phases-RunsOrRollsBack toy_net routeless office engine quiet_world refl

routes_fail : (connect_phases toy_net routeless office quiet_world).0 ≡ err network
unfolding connect_phases
routes_fail = refl

connect_phases_failed_example :
    get
      (connect_phases toy_net routeless office quiet_world).1.files
      (state_file_name (codes "office"))
    ≡ (if equal (state_file_name (codes "office")) (state_file_name (codes "office"))
        then left_file routeless office engine quiet_world
        else none)
unfolding get
connect_phases_failed_example =
    connect_phases_failed toy_net routeless office engine quiet_world
      (state_file_name (codes "office")) refl routes_fail

-- ===== src/Tests/Policy.antt =====
-- Runs of the helper's firewall policy.
use wireguide.Base.{
  true, false, not, ◌&&◌, ◌||◌, List, [], ◌∷◌, Option, none, some, if◌then◌else◌, ◌≡◌, refl, ◌<◌,
  arith,
}
use wireguide.Base.Bytes.{Bytes, codes, equal, contains}
use wireguide.Base.Dict.{get, put, has}
use wireguide.Base.Result.{err}
use wireguide.Domain.{wireguard}
use wireguide.Firewall.Rules.{Ruleset}
use wireguide.Helper.State.{Helper, HostPort, is_held}
use wireguide.Helper.Derive.{Answer, keeps, no_rules, derive, Session}
use wireguide.Helper.Derive.FailClosed.{derive_fail_closed}
use wireguide.Helper.Holds.{release, forget_or_hold, ovpn_gone, ovpn_dying_hook, lookups}
use wireguide.Helper.Holds.FailClosed.{
  is_protected, death_keeps_kill_switch, give_up_keeps_kill_switch, ovpn_death_window_closed,
}
use wireguide.Helper.Handlers.{clear_tunnel, connect_wireguard, protected_tunnels, set_kill_switch}
use wireguide.Helper.Handlers.Laws.{clear_tunnel-protected, protected_tunnels_lem}
use wireguide.Helper.Handlers.Failed.{is_lifted, connect_wireguard_fails}
use wireguide.Helper.Handlers.Rollback.{set_kill_switch_rolls_back}
use wireguide.Helper.Holds.DeathWindow.{no_openvpn, death_window_flushes}
use wireguide.Tunnel.Types.{network, connected, disconnecting, Entry, Manager}
use wireguide.Tunnel.Manager.{Teardown, claim_death}
use wireguide.Tunnel.Manager.Queries.{is_tunnel_connected}
use wireguide.Helper.Live.{live_tunnels}
use wireguide.Tests.Data.{engine, toy_net, office}

-- No OpenVPN profile parses.
abbrev no_remotes : Bytes → Option (List HostPort)
no_remotes content = none

abbrev name : Bytes
name = codes "office"

-- The kill switch is on, and the user wants `office` to reconnect.
abbrev guarded : Helper
guarded = record {
  active_cfgs = (name, office) ∷ [];
  active_ovpn_cfgs = (codes "vpn", codes "remote") ∷ [];
  auto_reconnect = (name, true) ∷ [];
  policy = record { kill_switch = true; dns_protection = true };
  held = (name, 2) ∷ [];
  pending = [];
  blocked = (codes "old", wireguard) ∷ [];
  through = [];
  endpoints = [];
  dns_lookups = [];
  dns_lookup_refs = (name, 1) ∷ [];
  ovpn_dying = [];
  disconnect_epoch = [];
}

held_office : (contains [] name || is_held guarded name || has guarded.blocked name) ≡ true
unfolding contains is_held has get equal
held_office = refl

derive_fail_closed_example : (derive toy_net no_remotes guarded [] []).1.kill_switch ≡ true
derive_fail_closed_example =
    derive_fail_closed toy_net no_remotes guarded [] [] name refl held_office

death_keeps_kill_switch_example :
    (derive toy_net no_remotes (forget_or_hold wireguard name guarded) [] []).1.kill_switch ≡ true
unfolding get equal
death_keeps_kill_switch_example =
    death_keeps_kill_switch toy_net no_remotes wireguard guarded [] [] name refl refl

give_up_keeps_kill_switch_example :
    (derive toy_net no_remotes (release false name guarded) [] []).1.kill_switch ≡ true
unfolding get equal
give_up_keeps_kill_switch_example =
    give_up_keeps_kill_switch toy_net no_remotes guarded [] [] name refl refl

ovpn_death_window_closed_example :
    (derive toy_net no_remotes
      (ovpn_gone (codes "vpn") (ovpn_dying_hook (codes "vpn") guarded)).1
      []
      []).1.kill_switch
    ≡ true
unfolding has get equal
ovpn_death_window_closed_example =
    ovpn_death_window_closed toy_net no_remotes guarded [] [] (codes "vpn") refl refl

one_open : 0 < lookups guarded name
unfolding get equal
one_open = ground arith

abbrev resolvers : List Bytes
resolvers = codes "192.0.2.1" ∷ []

clear_tunnel-protected_example :
    is_protected (clear_tunnel name guarded) (codes "old")
    ≡ (if equal name (codes "old") then false else is_protected guarded (codes "old"))
clear_tunnel-protected_example = clear_tunnel-protected guarded name (codes "old")

protected_tunnels_lem_example : contains (protected_tunnels [] guarded) name ≡ (
    not (contains [] name)
    && (has guarded.held name || has guarded.pending name || has guarded.blocked name))
protected_tunnels_lem_example = protected_tunnels_lem [] guarded name

abbrev session : Session
session = record { helper = guarded; loaded = no_rules; done = false }

abbrev stuck : Ruleset → Answer
stuck rs = keeps

-- A failed connect while `old` is blocked: its block is lifted before and back behind the failure.
abbrev failed : Session
failed =
    (connect_wireguard toy_net no_remotes stuck ([], []) ([], []) (err network) true [] office
      session).1

connect_wireguard_fails_example : has failed.helper.blocked (codes "old") ≡ (
    if is_lifted guarded name
    then has guarded.blocked (codes "old")
      && ((equal name (codes "old") || not (contains [] (codes "old")))
          && not (contains [] (codes "old")))
    else has guarded.blocked (codes "old"))
connect_wireguard_fails_example =
    connect_wireguard_fails toy_net no_remotes stuck [] [] [] [] network true [] office session
      (codes "old") refl refl

stuck_fails : (set_kill_switch toy_net no_remotes stuck ([], []) false session).0 ≡ false
unfolding set_kill_switch
stuck_fails = refl

set_kill_switch_rolls_back_example :
    let after = (set_kill_switch toy_net no_remotes stuck ([], []) false session).1.helper in
    (after.policy.kill_switch ≡ true)
    × (has after.blocked (codes "old")
        ≡ (has guarded.blocked (codes "old") && not (false && contains [] (codes "old"))))
set_kill_switch_rolls_back_example =
    set_kill_switch_rolls_back toy_net no_remotes stuck [] [] false session (codes "old")
      stuck_fails

-- The manager once `office` is connected, and once its dead engine is being torn down.
abbrev connected_office : Entry
connected_office = record {
  state = connected;
  engine = some engine;
  cfg = some office;
  connected_at = 100;
  net_mgr = some (record { pin_interface = false });
}

abbrev one_tunnel : Manager
one_tunnel = record { tunnels = (name, connected_office) ∷ []; pin_interface = false }

abbrev dying_tunnel : Manager
dying_tunnel = record one_tunnel {
  tunnels = (name, record connected_office { state = disconnecting }) ∷ [];
}

abbrev claim : Teardown
claim = record {
  name = name;
  engine = engine;
  cfg = some office;
  net_mgr = some (record { pin_interface = false });
}

claims :
    claim_death one_tunnel name engine (get one_tunnel.tunnels name) ≡ some (claim, dying_tunnel)
unfolding claim_death get put equal
claims = refl

alone : (k : Bytes) → equal name k ≡ false → is_tunnel_connected one_tunnel k ≡ false
unfolding is_tunnel_connected get equal
alone k other = rw other refl

death_window_flushes_example :
    let view = live_tunnels toy_net dying_tunnel no_openvpn in
    (derive toy_net no_remotes
      (record guarded { held = []; pending = []; blocked = [] })
      view.0
      view.1).1
    ≡ no_rules
death_window_flushes_example =
    death_window_flushes toy_net no_remotes guarded one_tunnel dying_tunnel name engine claim claims
      alone

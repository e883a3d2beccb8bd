-- ===== src/Tests/PacketFilter.antt =====
-- Runs of the firewall's rules and of its driver.
use wireguide.Base.{Bool, true, false, List, [], ◌∷◌, ◌≡◌, refl}
use wireguide.Base.Bytes.{codes, equal, contains, has_prefix}
use wireguide.Base.Decimal.{atoi}
use wireguide.Base.Result.{ok}
use wireguide.Firewall.Rules.{
  KillSwitchTunnel, Ruleset, Rule, header, scrub_in, scrub_out, pass_loopback, block_dns, pass_dns,
  pass_endpoint_port, pass_dhcp, pass_dhcpv6, pass_neighbour, block_out, block_in, pass_interface,
  build_lines, enforces_dns,
}
use wireguide.Firewall.Rules.Verdict.{Packet, udp, verdict}
use wireguide.Firewall.Rules.KillSwitch.{Allowed, kill_switch_sound}
use wireguide.Firewall.Rules.DnsProtection.{AllowedQuery, dns_protection_sound}
use wireguide.Firewall.Driver.{
  Calls, Operation, applies, run_operations, cleanup, recover_stale_state,
}
use wireguide.Firewall.Driver.Restore.{
  fresh, IsRestored, IsReliable, cleanup_restores, recover_restores,
}
use wireguide.Tests.Data.{toy_net}

abbrev office_entry : KillSwitchTunnel
office_entry = record {
  interface_name = codes "utun4";
  proto = codes "udp";
  endpoints = codes "192.0.2.1:51820" ∷ [];
}

abbrev strict : Ruleset
strict = record {
  kill_switch = true;
  tunnels = office_entry ∷ [];
  dns_protection = true;
  dns_servers = codes "10.0.0.1" ∷ [];
  dns_lookup_servers = [];
}

abbrev strict_lines : List Rule
strict_lines =
    header
    ∷ scrub_in
    ∷ scrub_out
    ∷ pass_loopback
    ∷ pass_dns (codes "utun4") (codes "10.0.0.1")
    ∷ block_dns
    ∷ pass_endpoint_port false (codes "192.0.2.1") (codes "51820")
    ∷ pass_dhcp
    ∷ pass_dhcpv6
    ∷ pass_neighbour
    ∷ pass_interface (codes "utun4")
    ∷ block_out
    ∷ block_in
    ∷ []

strict-build_lines : build_lines toy_net strict ≡ ok strict_lines
unfolding build_lines contains equal has_prefix
strict-build_lines = refl

-- a WireGuard packet to the server, and a query to the tunnel's DNS server
abbrev to_the_server : Packet
to_the_server = record {
  outbound = true;
  interface = codes "en0";
  transport = udp;
  destination = codes "192.0.2.1";
  source_port = 40000;
  port = 51820;
}

abbrev query : Packet
query = record {
  outbound = true;
  interface = codes "utun4";
  transport = udp;
  destination = codes "10.0.0.1";
  source_port = 40000;
  port = 53;
}

server_passes : verdict strict_lines to_the_server ≡ true
unfolding verdict equal atoi
server_passes = refl

query_passes : verdict strict_lines query ≡ true
unfolding verdict equal atoi
query_passes = refl

-- Anything else on the physical interface is dropped.
leak_blocked :
    verdict strict_lines (record to_the_server { destination = codes "198.51.100.9" }) ≡ false
unfolding verdict equal atoi
leak_blocked = refl

query_leak_blocked : verdict strict_lines (record query { interface = codes "en0" }) ≡ false
unfolding verdict equal atoi
query_leak_blocked = refl

kill_switch_sound_example : Allowed toy_net strict to_the_server
kill_switch_sound_example =
    kill_switch_sound toy_net strict to_the_server strict_lines refl strict-build_lines
      server_passes

strict-enforces_dns : enforces_dns strict ≡ true
unfolding enforces_dns
strict-enforces_dns = refl

dns_protection_sound_example : AllowedQuery toy_net strict query
dns_protection_sound_example =
    dns_protection_sound toy_net strict query strict_lines strict-enforces_dns strict-build_lines
      refl query_passes

-- Every call succeeds, and every call but the load of the rules.
abbrev working : Calls
working = record {
  query = true;
  load = true;
  enable = true;
  disable = true;
  flush = true;
  persist = true;
  read_state = true;
  remove_state = true;
}

abbrev load_fails : Calls
load_fails = record working { load = false }

abbrev history : List Operation
history = applies strict load_fails ∷ applies strict working ∷ applies strict working ∷ []

working-IsReliable : (was : Bool) → IsReliable was working
working-IsReliable was = record {
  query = refl;
  persist = refl;
  read_state = refl;
  remove_state = refl;
  flush = refl;
  disable = refl;
}

load_fails-IsReliable : (was : Bool) → IsReliable was load_fails
load_fails-IsReliable was = record {
  query = refl;
  persist = refl;
  read_state = refl;
  remove_state = refl;
  flush = refl;
  disable = refl;
}

cleanup_restores_example :
    IsRestored false (cleanup working (run_operations toy_net history (fresh false))).1
cleanup_restores_example =
    cleanup_restores false toy_net history working
      (load_fails-IsReliable false, (working-IsReliable false, (working-IsReliable false, tt)))
      (working-IsReliable false)

recover_restores_example :
    IsRestored true (recover_stale_state working (run_operations toy_net history (fresh true)).1)
recover_restores_example =
    recover_restores true toy_net history working
      (load_fails-IsReliable true, (working-IsReliable true, (working-IsReliable true, tt)))
      (working-IsReliable true)

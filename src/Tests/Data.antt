-- ===== src/Tests/Data.antt =====
-- A network library, a platform and configurations to run the definitions on.
use wireguide.Base.{Bool, true, false, [], ◌∷◌, ◌++◌, none, some, if◌then◌else◌}
use wireguide.Base.Bytes.{codes, equal, contains}
use wireguide.Base.Int.{pos}
use wireguide.Domain.{InterfaceConfig, PeerConfig, WireGuardConfig}
use wireguide.Net.{Net}
use wireguide.Tunnel.Types.{Engine}
use wireguide.Tunnel.Phases.{Call, add_routes, World, Platform}

-- A `Net` that knows three addresses, one default route and one endpoint.
abbrev pub toy_net : Net
toy_net = record {
  is_ip = contains (codes "192.0.2.1" ∷ codes "10.0.0.1" ∷ codes "198.51.100.9" ∷ []);
  is_ip4 = λ s. true;
  mask_size = λ s. if equal s (codes "0.0.0.0/0") then some (0, 32) else none;
  split_host_port = λ s.
      if equal s (codes "192.0.2.1:51820") then some (codes "192.0.2.1", codes "51820") else none;
  join_host_port = λ h p. h ++ (codes ":" ++ p);
}

abbrev pub server : PeerConfig
server = record {
  public_key = codes "key";
  preshared_key = [];
  endpoint = codes "192.0.2.1:51820";
  allowed_ips = codes "0.0.0.0/0" ∷ [];
  persistent_keepalive = pos 25;
  extra_keys = [];
}

abbrev pub interface_config : InterfaceConfig
interface_config = record {
  private_key = codes "secret";
  address = codes "10.0.0.2/24" ∷ [];
  dns = codes "10.0.0.1" ∷ [];
  mtu = pos 1420;
  listen_port = pos 0;
  table = [];
  fw_mark = [];
  pre_up = [];
  post_up = [];
  pre_down = [];
  post_down = [];
  extra_keys = [];
}

-- A tunnel that routes all traffic.
abbrev pub office : WireGuardConfig
office = record { name = codes "office"; interface = interface_config; peers = server ∷ [] }

abbrev pub engine : Engine
engine = record {
  id = 7;
  interface_name = codes "utun4";
  endpoints = codes "192.0.2.1:51820" ∷ [];
  endpoint_ips = codes "192.0.2.1" ∷ [];
}

-- A platform on which the routes cannot be added.
abbrev pub fails_on_routes : Call → Bool
fails_on_routes (add_routes _ _ _ _ _) = false
fails_on_routes _ = true

abbrev pub routeless : Platform
routeless = record { new_engine = λ cfg. some engine; succeeds = fails_on_routes; can_write = true }

abbrev pub quiet_world : World
quiet_world = record { log = []; files = []; can_remove = true }

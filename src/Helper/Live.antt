-- ===== src/Helper/Live.antt =====
-- liveTunnels of internal/helper/firewall.go: the tunnels that are up, as kill switch entries. What
-- the OpenVPN manager reports is an argument; a helper without one reports nothing.
use wireguide.Base.{Bool, not, ◌&&◌, ◌||◌, List, [], ◌∷◌, ◌++◌, Option, none, some, if◌then◌else◌}
use wireguide.Base.Bytes.{Bytes, codes, contains, less}
use wireguide.Base.Dict.{Dict, get, put}
use wireguide.Domain.{is_empty}
use wireguide.Firewall.Rules.{KillSwitchTunnel}
use wireguide.Net.{Net}
use wireguide.Tunnel.Types.{Manager}
use wireguide.Tunnel.Manager.Queries.{TunnelInfo, connected_tunnels}

-- The fields of domain.ConnectionStatus that are read.
pub record OvpnStatus : Type 0 where
  pub tunnel_name : Bytes
  pub connected : Bool
  pub interface_name : Bytes
  pub dns_servers : List Bytes

-- ovpn.RemoteEndpoint
pub record RemoteEndpoint : Type 0 where
  pub tunnel_name : Bytes
  pub interface_name : Bytes
  pub proto : Bytes
  pub addr : Bytes

-- AllStatuses and ActiveRemotes
pub record Backend : Type 0 where
  pub statuses : List OvpnStatus
  pub remotes : List RemoteEndpoint

abbrev pub Named : Type 0
Named = Bytes × KillSwitchTunnel

abbrev pub wireguard_entry : TunnelInfo → Named
wireguard_entry t = (
  t.name,
  record { interface_name = t.interface_name; proto = codes "udp"; endpoints = t.endpoints },
)

unfoldable pub wireguard_entries : List TunnelInfo → List Named
wireguard_entries [] = []
wireguard_entries (t ∷ ts) = wireguard_entry t ∷ wireguard_entries ts

unfoldable pub remote_entries : List RemoteEndpoint → List Named
remote_entries [] = []
remote_entries (r ∷ rs) =
    (
      r.tunnel_name,
      record { interface_name = r.interface_name; proto = r.proto; endpoints = r.addr ∷ [] },
    )
    ∷ remote_entries rs

-- the map `statuses`
unfoldable pub status_map : List OvpnStatus → Dict OvpnStatus → Dict OvpnStatus
status_map [] d = d
status_map (s ∷ ss) d = status_map ss (put d s.tunnel_name s)

-- the map `seen`, as the list of its keys
unfoldable pub seen_names : List RemoteEndpoint → List Bytes
seen_names [] = []
seen_names (r ∷ rs) = r.tunnel_name ∷ seen_names rs

abbrev pub is_unknown_remote : List Bytes → Bytes → OvpnStatus → Bool
is_unknown_remote seen name st =
    not (contains seen name || not st.connected || is_empty st.interface_name)

unfoldable pub unknown_remotes : List Bytes → Dict OvpnStatus → List Named
unknown_remotes seen [] = []
unknown_remotes seen ((name, st) ∷ d) =
    let rest = unknown_remotes seen d in
    if is_unknown_remote seen name st
    then (name, record { interface_name = st.interface_name; proto = []; endpoints = [] }) ∷ rest
    else rest

module _ (net : Net) where
  -- the closure `addDNS`, on `dns`
  unfoldable pub add_dns : List Bytes → List Bytes → List Bytes
  add_dns dns [] = dns
  add_dns dns (e ∷ es) =
      add_dns (if net.is_ip e && not (contains dns e) then dns ++ e ∷ [] else dns) es

  unfoldable pub wireguard_dns : List Bytes → List TunnelInfo → List Bytes
  unfolding add_dns
  wireguard_dns dns [] = dns
  wireguard_dns dns (t ∷ ts) = wireguard_dns (add_dns dns t.dns) ts

  abbrev servers_of : Option OvpnStatus → List Bytes
  servers_of none = []
  servers_of (some st) = st.dns_servers

  unfoldable pub remote_dns : Dict OvpnStatus → List Bytes → List RemoteEndpoint → List Bytes
  unfolding add_dns
  remote_dns d dns [] = dns
  remote_dns d dns (r ∷ rs) = remote_dns d (add_dns dns (servers_of (get d r.tunnel_name))) rs

  unfoldable pub unknown_dns : List Bytes → List Bytes → Dict OvpnStatus → List Bytes
  unfolding add_dns
  unknown_dns seen dns [] = dns
  unknown_dns seen dns ((name, st) ∷ d) =
      unknown_dns seen (if is_unknown_remote seen name st then add_dns dns st.dns_servers else dns)
        d

-- sort.Slice by name
unfoldable pub insert_named : Named → List Named → List Named
insert_named x [] = x ∷ []
insert_named x (y ∷ ys) = if less y.0 x.0 then y ∷ insert_named x ys else x ∷ y ∷ ys

unfoldable pub sort_named : List Named → List Named
unfolding insert_named
sort_named [] = []
sort_named (x ∷ xs) = insert_named x (sort_named xs)

-- liveTunnels: names with their tunnels, and the DNS servers
unfoldable pub live_tunnels : Net → Manager → Backend → List Named × List Bytes
unfolding connected_tunnels wireguard_entries remote_entries status_map seen_names unknown_remotes
    wireguard_dns remote_dns unknown_dns sort_named
live_tunnels net m b =
    let infos = connected_tunnels m in
    let statuses = status_map b.statuses [] in
    let seen = seen_names b.remotes in
    (
      sort_named
          (wireguard_entries infos ++ (remote_entries b.remotes ++ unknown_remotes seen statuses)),
      unknown_dns net seen (remote_dns net statuses (wireguard_dns net [] infos) b.remotes)
          statuses,
    )

-- ===== src/Helper/Endpoints.antt =====
-- internal/helper/firewall.go: the server endpoints that a tunnel may need, from its cache and its
-- configuration. What ParseOVPN finds in a profile is a parameter: its remotes, or its error.
use wireguide.Base.{
  Bool, false, not, List, [], ◌∷◌, ◌++◌, Option, none, some, if◌then◌else◌, length, ltb,
}
use wireguide.Base.Bytes.{Bytes, codes, equal, contains}
use wireguide.Base.Dict.{get}
use wireguide.Domain.{PeerConfig}
use wireguide.Firewall.Rules.{KillSwitchTunnel}
use wireguide.Net.{Net}
use wireguide.Helper.State.{LiteralEndpoint, HostPort, CachedEndpoints, no_endpoints, Helper}

abbrev pub endpoint_only : Bytes → List Bytes → KillSwitchTunnel
endpoint_only proto eps = record { interface_name = []; proto = proto; endpoints = eps }

-- addPass, on `c.passes`
unfoldable pub add_pass : Bytes → Bytes → List KillSwitchTunnel → List KillSwitchTunnel
add_pass proto ep [] = endpoint_only proto (ep ∷ []) ∷ []
add_pass proto ep (t ∷ ts) =
    let rest = add_pass proto ep ts in
    if equal t.proto proto
    then (if contains t.endpoints ep
        then t ∷ ts
        else record t { endpoints = t.endpoints ++ ep ∷ [] } ∷ ts)
    else t ∷ rest

unfoldable pub add_passes : Bytes → List Bytes → List KillSwitchTunnel → List KillSwitchTunnel
unfolding add_pass
add_passes proto [] out = out
add_passes proto (ep ∷ eps) out = add_passes proto eps (add_pass proto ep out)

unfoldable pub add_cached : List KillSwitchTunnel → List KillSwitchTunnel → List KillSwitchTunnel
unfolding add_passes
add_cached [] out = out
add_cached (t ∷ ts) out = add_cached ts (add_passes t.proto t.endpoints out)

unfoldable pub add_literals : List LiteralEndpoint → List KillSwitchTunnel → List KillSwitchTunnel
unfolding add_pass
add_literals [] out = out
add_literals (l ∷ ls) out = add_literals ls (add_pass l.proto l.ep out)

abbrev pub cached : Option CachedEndpoints → CachedEndpoints
cached none = no_endpoints
cached (some c) = c

-- the literal endpoints and the hosts of a configuration
abbrev pub Configured : Type 0
Configured = List LiteralEndpoint × List HostPort

module _ (net : Net) where
  -- the loop body over peers and remotes
  unfoldable pub classify : HostPort → Configured → Configured
  classify hp (literal, hosts) = if not (net.is_ip hp.host) then (literal, hosts ++ hp ∷ []) else (
    literal ++ (record { ep = net.join_host_port hp.host hp.port; proto = hp.proto } ∷ []),
    hosts,
  )

  unfoldable pub classify_peers : List PeerConfig → Configured → Configured
  unfolding classify
  classify_peers [] out = out
  classify_peers (p ∷ ps) out = classify_peers ps (elim (net.split_host_port p.endpoint) [
    | none ↦ out
    | some (host, port) ↦ classify (record { host = host; port = port; proto = codes "udp" }) out
  ])

  unfoldable pub classify_remotes : List HostPort → Configured → Configured
  unfolding classify
  classify_remotes [] out = out
  classify_remotes (r ∷ rs) out = classify_remotes rs (classify r out)

  module _ (parse_remotes : Bytes → Option (List HostPort)) where
    -- configuredEndpointsLocked
    unfoldable pub configured_endpoints : Helper → Bytes → Configured
    unfolding classify_peers classify_remotes
    configured_endpoints h name =
        let from_wireguard : Configured = elim (get h.active_cfgs name) [
          | none ↦ ([], [])
          | some cfg ↦ classify_peers cfg.peers ([], [])
        ] in
        elim (get h.active_ovpn_cfgs name) [
          | none ↦ from_wireguard
          | some content ↦ (elim (parse_remotes content) [
            | none ↦ from_wireguard
            | some remotes ↦ classify_remotes remotes from_wireguard
          ])
        ]

    -- endpointPassesLocked
    unfoldable pub endpoint_passes : Helper → Bytes → List KillSwitchTunnel
    unfolding add_cached add_literals configured_endpoints
    endpoint_passes h name =
        let c = cached (get h.endpoints name) in
        let (literal, hosts) = configured_endpoints h name in
        add_literals c.resolved (add_literals literal (add_cached c.passes []))

    -- isMultiRemoteOVPNLocked
    unfoldable pub is_multi_remote_ovpn : Helper → Bytes → Bool
    is_multi_remote_ovpn h name = elim (get h.active_ovpn_cfgs name) [
      | none ↦ false
      | some content ↦ (elim (parse_remotes content) [
        | none ↦ false
        | some remotes ↦ ltb 1 (length remotes)
      ])
    ]

-- ===== src/Ovpn/Command.antt =====
-- internal/ovpn/manager.go: the command line of openvpn, the server that the kill switch passes before
-- the process starts, and the answer to a challenge. Name lookups and base64 are parameters.
use wireguide.Base.{
  ℕ, suc, Bool, not, ◌&&◌, ◌||◌, List, [], ◌∷◌, ◌++◌, Option, none, some, if◌then◌else◌, ◌==◌, leb,
  length,
}
use wireguide.Base.Bytes.{Bytes, codes, has_prefix}
use wireguide.Net.{Net}
use wireguide.Domain.{is_empty}
use wireguide.Ovpn.Dns.{DnsConfig, merge}
use wireguide.Ovpn.Management.{AuthChallenge, ChallengeKind}
use wireguide.Ovpn.Profile.{Profile, runtime_verb}
use wireguide.Ovpn.Remotes.{OvpnConfig}

-- persistRemoteIP
unfoldable pub persist_remote_ip : Profile → Bool
persist_remote_ip p = length p.cfg.remotes == 1

-- args
unfoldable pub args : Bytes → Bytes → Profile → List Bytes
unfolding persist_remote_ip runtime_verb
args cfg_path sock_path p =
    (codes "--config"
      ∷ cfg_path
      ∷ codes "--management"
      ∷ sock_path
      ∷ codes "unix"
      ∷ codes "--management-hold"
      ∷ codes "--management-query-passwords"
      ∷ codes "--script-security"
      ∷ codes "1"
      ∷ codes "--dns-updown"
      ∷ codes "disable"
      ∷ codes "--auth-retry"
      ∷ codes "interact"
      ∷ codes "--persist-tun"
      ∷ codes "--verb"
      ∷ runtime_verb p.verb
      ∷ [])
    ++ ((if persist_remote_ip p then codes "--persist-remote-ip" ∷ [] else [])
        ++ ((if p.has_keepalive
              then []
              else codes "--ping" ∷ codes "10" ∷ codes "--ping-restart" ∷ codes "60" ∷ [])
            ++ ((if p.has_mtu then [] else codes "--mssfix" ∷ codes "1300" ∷ [])
                ++ (if is_empty p.legacy_ciphers
                    then []
                    else codes "--data-ciphers" ∷ p.legacy_ciphers ∷ []))))

unfoldable pub count_colons : Bytes → ℕ
count_colons [] = 0
count_colons (c ∷ s) = let n = count_colons s in if c == b':' then suc n else n

-- the host and the port to look up, where they are clear
unfoldable pub host_and_port : Net → Bytes → Option (Bytes × Bytes)
unfolding count_colons has_prefix
host_and_port net remote = elim (net.split_host_port remote) [
  | some (host, port) ↦ some (host, port)
  | none ↦
      if leb 2 (count_colons remote)
        && (not (has_prefix remote (codes "[")) && not (net.is_ip remote))
      then none
      else some (remote, codes "1194")
]

abbrev resolved : Net → Bytes → Bytes → Option (List Bytes) → Bytes × Bytes
resolved net proto port (some (ip ∷ _)) = (
  net.join_host_port ip port,
  if has_prefix proto (codes "tcp") then codes "tcp" else codes "udp",
)
resolved net proto port _ = ([], [])

-- resolveRemoteForKillSwitch; `lookup_host` gives nothing for an error
unfoldable pub resolve_remote_for_kill_switch :
    Net → (Bytes → Option (List Bytes)) → OvpnConfig → Bytes × Bytes
unfolding host_and_port has_prefix
resolve_remote_for_kill_switch net lookup_host cfg =
    if is_empty cfg.remote then ([], []) else elim (host_and_port net cfg.remote) [
      | none ↦ ([], [])
      | some (host, port) ↦ resolved net cfg.proto port (lookup_host host)
    ]

-- mergePtr
unfoldable pub merge_ptr : DnsConfig → DnsConfig → DnsConfig
unfolding merge
merge_ptr a b = record (merge a b) { touched = a.touched || b.touched }

-- combineStaticChallenge
unfoldable pub combine_static_challenge : (Bytes → Bytes) → AuthChallenge → Bytes → Bytes → Bytes
combine_static_challenge base64 ch password response =
    if ch.concat
    then password ++ response
    else codes "SCRV1:" ++ (base64 password ++ (b':' ∷ base64 response))

-- challengeKindOf
unfoldable pub challenge_kind_of : Option AuthChallenge → Option ChallengeKind
challenge_kind_of none = none
challenge_kind_of (some ch) = some ch.kind

-- ===== src/Lib.antt =====
-- A verification library for WireGuide (LockPlus), a macOS VPN client for WireGuard and OpenVPN.
--
-- The program has a privileged helper and a GUI that talks to it over a local socket. The helper
-- owns the tunnel manager, which brings tunnels up and down, and derives from the policy that the
-- user set and from the state of the tunnels the rules that the firewall driver loads into pf.
--
-- Which file models which part:
--   Base             what the components share: Go strings as lists of bytes, maps as association
--                    lists (`Dict`), errors as `Result`, Go's `int` as ℤ
--   Net              the functions of Go's package `net` that the code calls, as a parameter
--   Domain           internal/domain/config.go and tunnel.go: configurations, protocols
--   Config/Fields, Config/Parser, Config/Serializer
--                    internal/config/parser.go: Parse on the lines that bufio.Scanner finds, Serialize
--                    as a list of lines
--   Config/Validator internal/config/validator.go: Validate, its errors as the field and the check
--   Ovpn             internal/ovpn: parse.go (Line, Source), allowlist.go (Allowlist) and config.go
--                    (Remotes, Dns, Push, Profile); a source is the text that is left to read
--   Ovpn/Management  internal/ovpn/management.go: the lines that go to and come from the management
--                    interface; the timer of a hold is its wait
--   Ovpn/Command     internal/ovpn/manager.go: the command line of openvpn, the lookup of its server
--   Storage/Name     internal/storage/name.go: ValidateTunnelName
--   Storage/Files    the files of one directory, as a map from names; a parameter `canon` says which
--                    names the volume takes for the same
--   Storage/Tunnels, Storage/Listing
--                    internal/storage/tunnels.go: the store, with JSON as a parameter, and its List
--   Storage/Migration
--                    internal/storage/paths.go: migrateTunnels; which calls fail is a parameter
--   Tunnel/Types     the data of internal/tunnel/manager.go and errors.go
--   Tunnel/Recovery  internal/tunnel/recovery.go: the files that a crash leaves
--   Tunnel/Phases    internal/tunnel/connect_phases.go: each call of the network layer is an entry of
--                    a log, and a parameter says which calls succeed
--   Tunnel/Manager   internal/tunnel/manager.go: Connect, DisconnectTunnel, handleEngineDied and
--                    DisconnectAll, each as critical sections of the mutex (claim_connect,
--                    commit_connect, claim_teardown, claim_death) and the slow phases between them
--   Tunnel/Uapi      internal/tunnel/engine.go: buildIpcConfig and orderIPsV4First
--   Tunnel/Interleaving
--                    the manager under threads: a step is one critical section, so every
--                    interleaving of the operations is a sequence of steps
--   Firewall/Rules   internal/firewall/rules.go: BuildRules as a list of rules and their text. What pf
--                    does with a packet under them (Firewall/Rules/Verdict) is the specification
--   Firewall/Driver  internal/firewall/darwin.go: Apply, Cleanup, RecoverStaleState on a model of pf's
--                    enabled flag, the anchor and the saved state file
--   Helper/State, Helper/Endpoints
--                    the part of the Helper struct under `h.mu`, and the endpoints that a tunnel may
--                    need (internal/helper/firewall.go)
--   Helper/Live      liveTunnels; what the OpenVPN manager reports is an argument
--   Helper/Derive    applyFirewall: `derive` is the ruleset that it asks for
--   Helper/Holds     holdFirewall, releaseFirewall, forgetOrHold, onOVPNDying, onOVPNGone and the
--                    lookup windows (internal/helper/firewall.go and helper.go)
--   Helper/Handlers  internal/helper/handlers.go: the handlers that change the policy, connect or
--                    disconnect
--   Ipc/Framing      internal/ipc/framing.go: length-prefixed messages, on lists of bytes
--   Reconnect/Backoff
--                    reconnectWithBackoff of internal/reconnect/monitor.go, as recursion on the list of
--                    what its attempts meet
--   Wifi/Rules       internal/wifi/rules.go: which action a network asks for
--   Network/Dns      internal/network/dns.go and dns_journal.go: who holds DNS entries, the baseline and
--                    its journal; which networksetup calls succeed is a parameter
--   History          internal/history/history.go: the session log, as a list of sessions
--   Update/Version, Update/Download
--                    internal/update/checker.go: isNewerVersion and DownloadUpdate, with the HTTP client
--                    and Ed25519 as parameters
--   Tests            concrete runs, and each theorem at a concrete input
--
-- Time is a number that the caller gives. The loops of internal/ovpn/parse.go run on fuel, one more
-- than the text has bytes, which is enough since each turn reads one byte at least
-- (Ovpn/Source/Terminates); the client of DownloadUpdate follows redirects on a fuel of ten requests,
-- which is enough since CheckRedirect refuses the tenth. No other definition runs on fuel: the wait loop of DisconnectTunnel is
-- recursion on the list of the states that its polls see, the deadline behind the last. Messages of
-- errors and log lines are left out. Counts and durations are unbounded numbers: a delay stays below
-- twice the longest one, and the counts are of events.
--
-- Not modelled: the GUI, the frontend, installers and commands (glue and I/O), wireguard-go and
-- openvpn (external programs), the routes that internal/network sets through system tools,
-- SystemResolvers, the openvpn process manager, the settings files, the choice of an update's asset;
-- of the reconnect monitor, all but its retry loop; of the helper, the OpenVPN connect and
-- watchdog.
pub mod Base
pub mod Net
pub mod Domain
pub mod Storage
pub mod Tunnel
pub mod Firewall
pub mod Helper
pub mod Config
pub mod History
pub mod Network
pub mod Ovpn
pub mod Ipc
pub mod Reconnect
pub mod Wifi
pub mod Update
pub mod Tests

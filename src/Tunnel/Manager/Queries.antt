-- ===== src/Tunnel/Manager/Queries.antt =====
-- The queries of internal/tunnel/manager.go: Status, AllStatuses, ConnectedTunnels and the rest.
-- What wgctrl reports of an interface is a parameter; `none` is its error.
pub mod Laws
use wireguide.Base.{ℕ, Bool, true, false, ◌||◌, List, [], ◌∷◌, Option, none, some, if◌then◌else◌}
use wireguide.Base.Bytes.{Bytes}
use wireguide.Base.Dict.{Dict, get, keys}
use wireguide.Base.Sorted.{sort_strings}
use wireguide.Domain.{WireGuardConfig}
use wireguide.Tunnel.Types.{
  State, disconnected, connecting, connected, error, disconnecting, Engine, Entry, Manager,
}

-- The fields of domain.ConnectionStatus that the manager itself fills.
pub record Status : Type 0 where
  pub state : State
  pub tunnel_name : Bytes
  pub interface_name : Bytes
  pub active_tunnels : List Bytes

abbrev pub Query : Type 0
Query = Bytes → Bytes → ℕ → Option Status

abbrev pub plain : State → Bytes → Status
plain st name = record { state = st; tunnel_name = name; interface_name = []; active_tunnels = [] }

-- the name in `snapOf`
abbrev pub config_name : Entry → Bytes
config_name e = elim e.cfg [ none ↦ [] | some c ↦ c.name ]

-- entrySnap.status
unfoldable pub status_of : Query → Entry → Status
status_of query e = elim e.state [
  | connecting ↦ plain connecting (config_name e)
  | disconnecting ↦ plain connecting (config_name e)
  | connected ↦ (elim e.engine [
    | none ↦ plain disconnected (config_name e)
    | some engine ↦ (elim (query engine.interface_name (config_name e) e.connected_at) [
      | none ↦ plain error (config_name e)
      | some st ↦ st
    ])
  ])
  | error ↦ plain error (config_name e)
  | disconnected ↦ plain disconnected (config_name e)
]

abbrev pub is_active : State → Bool
is_active connected = true
is_active connecting = true
is_active disconnecting = true
is_active _ = false

abbrev pub active_entry : Option Entry → Bool
active_entry none = false
active_entry (some e) = is_active e.state

unfoldable pub names_where : (Option Entry → Bool) → Dict Entry → List Bytes → List Bytes
names_where p d [] = []
names_where p d (n ∷ ns) = let rest = names_where p d ns in if p (get d n) then n ∷ rest else rest

-- activeTunnelNamesLocked, ActiveTunnels
unfoldable pub active_tunnels : Manager → List Bytes
unfolding names_where
active_tunnels m = names_where active_entry m.tunnels (sort_strings (keys m.tunnels))

-- ActiveTunnel
abbrev first_or_empty : List Bytes → Bytes
first_or_empty [] = []
first_or_empty (n ∷ _) = n

unfoldable pub active_tunnel : Manager → Bytes
unfolding active_tunnels
active_tunnel m = first_or_empty (active_tunnels m)

-- the first name whose entry's state is wanted
unfoldable pub first_where : (State → Bool) → Dict Entry → List Bytes → Option Entry
first_where want d [] = none
first_where want d (n ∷ ns) =
    let rest = first_where want d ns in
    elim (get d n) [ none ↦ rest | some e ↦ if want e.state then some e else rest ]

abbrev pub want_connected : State → Bool
want_connected connected = true
want_connected _ = false

abbrev pub want_moving : State → Bool
want_moving connecting = true
want_moving disconnecting = true
want_moving _ = false

abbrev pub want_error : State → Bool
want_error error = true
want_error _ = false

abbrev or_else {ℓ} : {A : Type ℓ} → Option A → Option A → Option A
or_else none o = o
or_else (some a) o = some a

-- the loop of Status over the wanted states
unfoldable pub primary : Dict Entry → Option Entry
unfolding first_where
primary d =
    let names = sort_strings (keys d) in
    or_else (first_where want_connected d names)
      (or_else (first_where want_moving d names) (first_where want_error d names))

-- Status
unfoldable pub status : Query → Manager → Status
unfolding primary status_of active_tunnels
status query m = elim (primary m.tunnels) [
  | none ↦ record (plain disconnected []) { active_tunnels = active_tunnels m }
  | some e ↦ record (status_of query e) { active_tunnels = active_tunnels m }
]

unfoldable pub statuses_of : Query → Dict Entry → List Bytes → List Status
unfolding status_of
statuses_of query d [] = []
statuses_of query d (n ∷ ns) =
    let rest = statuses_of query d ns in
    elim (get d n) [ none ↦ rest | some e ↦ status_of query e ∷ rest ]

-- AllStatuses
unfoldable pub all_statuses : Query → Manager → List Status
unfolding statuses_of
all_statuses query m = statuses_of query m.tunnels (sort_strings (keys m.tunnels))

-- TunnelInfo
pub record TunnelInfo : Type 0 where
  pub name : Bytes
  pub interface_name : Bytes
  pub endpoints : List Bytes
  pub dns : List Bytes

unfoldable pub info_of : Bytes → Option Entry → Option TunnelInfo
info_of name none = none
info_of name (some e) = elim e.state [
  | connected ↦ (elim e.engine [
    | none ↦ none
    | some engine ↦ (elim e.cfg [
      | none ↦ none
      | some cfg ↦ some (record {
        name = name;
        interface_name = engine.interface_name;
        endpoints = engine.endpoints;
        dns = cfg.interface.dns;
      })
    ])
  ])
  | _ ↦ none
]

unfoldable pub infos_of : Dict Entry → List Bytes → List TunnelInfo
unfolding info_of
infos_of d [] = []
infos_of d (n ∷ ns) =
    let rest = infos_of d ns in elim (info_of n (get d n)) [ none ↦ rest | some i ↦ i ∷ rest ]

-- ConnectedTunnels
unfoldable pub connected_tunnels : Manager → List TunnelInfo
unfolding infos_of
connected_tunnels m = infos_of m.tunnels (sort_strings (keys m.tunnels))

-- IsConnected
unfoldable pub any_connected : Dict Entry → Bool
any_connected [] = false
any_connected ((n, e) ∷ d) = want_connected e.state || any_connected d

unfoldable pub is_connected : Manager → Bool
unfolding any_connected
is_connected m = any_connected m.tunnels

-- IsTunnelConnected
unfoldable pub is_tunnel_connected : Manager → Bytes → Bool
is_tunnel_connected m name = elim (get m.tunnels name) [
  | none ↦ false
  | some e ↦ want_connected e.state
]

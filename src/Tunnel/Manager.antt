-- ===== src/Tunnel/Manager.antt =====
-- internal/tunnel/manager.go: the operations of the manager. Each function here is one critical
-- section of the mutex, or their composition with the slow phases that run between them.
pub mod Queries
use wireguide.Base.{
  ℕ, Bool, true, false, not, ◌&&◌, ◌||◌, List, [], ◌∷◌, Option, none, some, if◌then◌else◌, ◌==◌,
  any, map,
}
use wireguide.Base.Bytes.{Bytes, equal}
use wireguide.Base.Dict.{Dict, get, put, remove}
use wireguide.Base.Result.{Result, ok, err}
use wireguide.Domain.{WireGuardConfig, is_full_tunnel}
use wireguide.Net.{Net}
use wireguide.Tunnel.Types.{
  State, disconnected, connecting, connected, error, disconnecting, ErrorKind, already_connected,
  transition_in_progress, not_connected, state_corrupt, timeout, full_tunnel_conflict, Engine,
  NetworkManager, Entry, Manager,
}
use wireguide.Tunnel.Phases.{
  World, Platform, note, cleanup, close_engine, connect_phases, disconnect_phases,
}
use wireguide.Tunnel.Recovery.{clear_active_state}

abbrev pub is_connected : State → Bool
is_connected connected = true
is_connected _ = false

abbrev pub is_connecting : State → Bool
is_connecting connecting = true
is_connecting _ = false

abbrev pub is_disconnecting : State → Bool
is_disconnecting disconnecting = true
is_disconnecting _ = false

abbrev pub fresh_entry : Entry
fresh_entry = record {
  state = disconnected;
  engine = none;
  cfg = none;
  connected_at = 0;
  net_mgr = none;
}

-- getOrCreateEntry: the entry that the map then holds
unfoldable pub entry_or_fresh : Option Entry → Entry
entry_or_fresh none = fresh_entry
entry_or_fresh (some e) = e

-- the switch on `existing.state`
unfoldable pub refusal : Option Entry → Option ErrorKind
refusal none = none
refusal (some e) = elim e.state [
  | connected ↦ some already_connected
  | connecting ↦ some transition_in_progress
  | disconnecting ↦ some transition_in_progress
  | _ ↦ none
]

-- `other.cfg != nil && other.cfg.IsFullTunnel()`
unfoldable pub is_full : Net → Option WireGuardConfig → Bool
is_full net none = false
is_full net (some c) = is_full_tunnel net c

-- whether another connected tunnel routes all traffic
unfoldable pub full_tunnel_elsewhere : Net → Bytes → Dict Entry → Bool
full_tunnel_elsewhere net name [] = false
full_tunnel_elsewhere net name ((n, e) ∷ m) =
    if not (equal n name) && is_connected e.state && is_full net e.cfg
    then true
    else full_tunnel_elsewhere net name m

-- the entry of a connect that is accepted
abbrev pub claimed_entry : Manager → WireGuardConfig → Entry
claimed_entry m cfg = record (entry_or_fresh (get m.tunnels cfg.name)) {
  cfg = some cfg;
  state = connecting;
  net_mgr = some (record { pin_interface = m.pin_interface });
}

abbrev pub claimed : Manager → WireGuardConfig → Manager
claimed m cfg = record m { tunnels = put m.tunnels cfg.name (claimed_entry m cfg) }

-- phase 1 of Connect
unfoldable pub claim_connect : Net → Manager → WireGuardConfig → Result ErrorKind Manager
unfolding refusal full_tunnel_elsewhere entry_or_fresh
claim_connect net m cfg = elim (refusal (get m.tunnels cfg.name)) [
  | some k ↦ err k
  | none ↦
      if is_full_tunnel net cfg && full_tunnel_elsewhere net cfg.name m.tunnels
      then err full_tunnel_conflict
      else ok (claimed m cfg)
]

abbrev pub removed : Manager → Bytes → Manager
removed m name = record m { tunnels = remove m.tunnels name }

-- What phase 3 of Connect decides: the manager, the result, and whether the engine that came up
-- has to be torn down again.
pub record Commit : Type 0 where
  pub manager : Manager
  pub result : Result ErrorKind (Unit {0})
  pub aborted : Bool

-- phase 3 of Connect; `now` is the time
unfoldable pub commit_connect : Manager → Bytes → Result ErrorKind Engine → ℕ → Commit
unfolding entry_or_fresh
commit_connect m name (err k) now = record {
  manager = removed m name;
  result = err k;
  aborted = false;
}
commit_connect m name (ok e) now =
    let entry = entry_or_fresh (get m.tunnels name) in
    if not (is_connecting entry.state)
    then record { manager = removed m name; result = err state_corrupt; aborted = true }
    else record {
      manager = record m {
        tunnels =
            put m.tunnels name
              (record entry { engine = some e; connected_at = now; state = connected });
      };
      result = ok tt;
      aborted = false;
    }

-- the slow cleanup of the safety net in phase 3
unfoldable pub abort : Bytes → Result ErrorKind Engine → World → World
abort name (err _) w = w
abort name (ok e) w =
    let w' = note (close_engine e.id) (note (cleanup e.interface_name) w) in
    record w' { files = clear_active_state w'.can_remove name w'.files }

-- Connect, with nothing between its critical sections
unfoldable pub connect :
    Net
    → Platform
    → ℕ
    → WireGuardConfig
    → Manager × World
    → Result ErrorKind (Unit {0}) × Manager × World
unfolding claim_connect commit_connect abort connect_phases
connect net pf now cfg (m, w) = elim (claim_connect net m cfg) [
  | err k ↦ (err k, m, w)
  | ok m' ↦
      let (r, w') = connect_phases net pf cfg w in
      let c = commit_connect m' cfg.name r now in
      (c.result, c.manager, if c.aborted then abort cfg.name r w' else w')
]

-- What the teardown takes with it out of the critical section.
pub record Teardown : Type 0 where
  pub name : Bytes
  pub engine : Engine
  pub cfg : Option WireGuardConfig
  pub net_mgr : Option NetworkManager

-- one round of the wait loop of DisconnectTunnel: an error, or whether the state is stable
unfoldable pub poll : Option Entry → Result ErrorKind Bool
poll none = err not_connected
poll (some e) = ok (not (is_connecting e.state) && not (is_disconnecting e.state))

-- behind the loop, with the mutex held
unfoldable pub claim_teardown : Manager → Bytes → Option Entry → Result ErrorKind Teardown × Manager
claim_teardown m name none = (err not_connected, m)
claim_teardown m name (some e) =
    if not (is_connected e.state) then (err not_connected, m) else elim e.engine [
      | none ↦ (err state_corrupt, removed m name)
      | some engine ↦ (
        ok (record { name = name; engine = engine; cfg = e.cfg; net_mgr = e.net_mgr }),
        record m { tunnels = put m.tunnels name (record e { state = disconnecting }) },
      )
    ]

abbrev on_poll :
    Result ErrorKind Bool
    → Result ErrorKind Teardown × Manager
    → Result ErrorKind Teardown × Manager
    → Manager
    → Result ErrorKind Teardown × Manager
on_poll (err k) settled waiting m = (err k, m)
on_poll (ok true) settled waiting m = settled
on_poll (ok false) settled waiting m = waiting

-- The wait loop over the managers that its polls see; the deadline passes behind the last one.
unfoldable pub claim_disconnect :
    Bytes → Manager → List Manager → Result ErrorKind Teardown × Manager
unfolding poll claim_teardown
claim_disconnect name m [] =
    on_poll (poll (get m.tunnels name)) (claim_teardown m name (get m.tunnels name))
      (err timeout, m) m
claim_disconnect name m (m' ∷ later) =
    let waiting = claim_disconnect name m' later in
    on_poll (poll (get m.tunnels name)) (claim_teardown m name (get m.tunnels name)) waiting m

-- the claim of handleEngineDied: nothing, where the watcher is stale
unfoldable pub claim_death : Manager → Bytes → Engine → Option Entry → Option (Teardown × Manager)
claim_death m name dead none = none
claim_death m name dead (some e) = elim e.engine [
  | none ↦ none
  | some engine ↦
      if not (engine.id == dead.id) || not (is_connected e.state)
      then none
      else some (
        record { name = name; engine = engine; cfg = e.cfg; net_mgr = e.net_mgr },
        record m { tunnels = put m.tunnels name (record e { state = disconnecting }) },
      )
]

abbrev pub is_some {ℓ} : {A : Type ℓ} → Option A → Bool
is_some none = false
is_some (some _) = true

-- the teardown outside the mutex; the code reads the name of `cfg`, which is never nil here
unfoldable pub tear_down : Teardown → World → World
tear_down t w = elim t.cfg [
  | none ↦ w
  | some cfg ↦ disconnect_phases (is_some t.net_mgr) cfg t.engine w
]

-- DisconnectTunnel, with nothing between its critical sections
unfoldable pub disconnect_tunnel :
    Bytes → Manager × World → Result ErrorKind (Unit {0}) × Manager × World
unfolding claim_disconnect tear_down
disconnect_tunnel name (m, w) =
    let (claim, m') = claim_disconnect name m [] in
    elim claim [ err k ↦ (err k, m', w) | ok t ↦ (ok tt, removed m' name, tear_down t w) ]

-- handleEngineDied, with nothing between its critical sections; the flag says whether `onDied` runs
unfoldable pub handle_engine_died : Bytes → Engine → Manager × World → Bool × Manager × World
unfolding claim_death tear_down
handle_engine_died name dead (m, w) = elim (claim_death m name dead (get m.tunnels name)) [
  | none ↦ (false, m, w)
  | some (t, m') ↦ (true, removed m' name, tear_down t w)
]

-- the names that DisconnectAll tears down
unfoldable pub disconnect_all_names : Dict Entry → List Bytes
disconnect_all_names [] = []
disconnect_all_names ((n, e) ∷ m) =
    let rest = disconnect_all_names m in
    if is_connected e.state || is_connecting e.state then n ∷ rest else rest

disconnect_each : List Bytes → Manager × World → Manager × World
disconnect_each [] s = s
disconnect_each (n ∷ ns) s = let (r, m, w) = disconnect_tunnel n s in disconnect_each ns (m, w)

-- DisconnectAll
unfoldable pub disconnect_all : Manager × World → Manager × World
unfolding disconnect_all_names disconnect_each disconnect_tunnel
disconnect_all (m, w) = disconnect_each (disconnect_all_names m.tunnels) (m, w)

abbrev pub pin_entry : Bool → Entry → Entry
pin_entry enabled e = elim e.net_mgr [
  | none ↦ e
  | some nm ↦ record e { net_mgr = some (record nm { pin_interface = enabled }) }
]

unfoldable pub pin_all : Bool → Dict Entry → Dict Entry
pin_all enabled [] = []
pin_all enabled ((n, e) ∷ m) = (n, pin_entry enabled e) ∷ pin_all enabled m

-- SetPinInterface
unfoldable pub set_pin_interface : Bool → Manager → Manager
unfolding pin_all
set_pin_interface enabled m = record m {
  pin_interface = enabled;
  tunnels = pin_all enabled m.tunnels;
}

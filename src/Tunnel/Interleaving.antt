-- ===== src/Tunnel/Interleaving.antt =====
-- The interleavings of internal/tunnel/manager.go. Connect, DisconnectTunnel and the engine watchers
-- run on threads of their own and release the mutex during the slow phases: a step is one critical
-- section, and the operations between two of theirs are the list `ops`.
pub mod Ops
pub mod Invariant
pub mod Ending
pub mod Safety
pub mod FullTunnel
use wireguide.Base.{ℕ, suc, Bool, List, [], ◌∷◌, ◌++◌, Option, some, none, ◌≡◌, ◌+◌, if◌then◌else◌}
use wireguide.Base.Bytes.{Bytes, equal}
use wireguide.Base.Dict.{get}
use wireguide.Base.Result.{Result, ok, err}
use wireguide.Domain.{WireGuardConfig}
use wireguide.Net.{Net}
use Ops.{Op, connecting_op, teardown_op, System, started}
use wireguide.Tunnel.Types.{ErrorKind, Engine, Manager}
use wireguide.Tunnel.Manager.{
  Teardown, claim_connect, commit_connect, claim_teardown, claim_death, removed, set_pin_interface,
}

module _ (net : Net) where
  pub data Step : System → System → Type 0 where
    connect_begins :
        {s : System} {m : Manager} (cfg : WireGuardConfig)
        → claim_connect net s.manager cfg ≡ ok m
        → Step s (record { manager = m; ops = connecting_op cfg ∷ s.ops })
    connect_ends :
        {s : System} (cfg : WireGuardConfig) (r : Result ErrorKind Engine) (now : ℕ)
        (before after : List Op)
        → s.ops ≡ before ++ (connecting_op cfg ∷ after)
        → Step s (record {
          manager = (commit_connect s.manager cfg.name r now).manager;
          ops = before ++ after;
        })
    teardown_begins :
        {s : System} (name : Bytes) (claim : Result ErrorKind Teardown) (m : Manager)
        → claim_teardown s.manager name (get s.manager.tunnels name) ≡ (claim, m)
        → Step s (record { manager = m; ops = started claim s.ops })
    engine_dies :
        {s : System} (name : Bytes) (dead : Engine) (t : Teardown) (m : Manager)
        → claim_death s.manager name dead (get s.manager.tunnels name) ≡ some (t, m)
        → Step s (record { manager = m; ops = teardown_op t ∷ s.ops })
    teardown_ends :
        {s : System} (t : Teardown) (before after : List Op)
        → s.ops ≡ before ++ (teardown_op t ∷ after)
        → Step s (record { manager = removed s.manager t.name; ops = before ++ after })
    pin_set :
        {s : System} (enabled : Bool)
        → Step s (record { manager = set_pin_interface enabled s.manager; ops = s.ops })

  pub data Reach (s : System) : System → Type 0 where
    here : Reach s s
    next : {t u : System} → Reach s t → Step t u → Reach s u

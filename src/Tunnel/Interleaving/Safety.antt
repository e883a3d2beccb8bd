-- ===== src/Tunnel/Interleaving/Safety.antt =====
-- Which branches of the manager no interleaving reaches.
use wireguide.Base.{ℕ, false, List, ◌∷◌, ◌++◌, ◌≡◌, ◌≢◌, refl, inl, inr}
use wireguide.Base.Bytes.{Bytes}
use wireguide.Base.Dict.{get}
use wireguide.Base.Result.{ok, err}
use wireguide.Domain.{WireGuardConfig}
use wireguide.Net.{Net}
use wireguide.Tunnel.Types.{state_corrupt, Engine}
use wireguide.Tunnel.Manager.{commit_connect, claim_teardown, entry_or_fresh}
use wireguide.Tunnel.Interleaving.Ops.{Op, connecting_op, System, initial}
use wireguide.Tunnel.Interleaving.{
  Step, connect_begins, connect_ends, teardown_begins, engine_dies, teardown_ends, pin_set, Reach,
  here, next,
}
use wireguide.Tunnel.Interleaving.Invariant.{
  Inv, connect_begins-Inv, connect_ends-Inv, connecting_entry,
}
use wireguide.Tunnel.Interleaving.Ending.{
  engine_dies-Inv, teardown_begins-Inv, teardown_ends-Inv, pin_set-Inv, claim_teardown-cases,
}

pub initial-Inv : Inv initial
unfolding get
initial-Inv = record {
  connecting_once = λ n. refl;
  disconnecting_once = λ n. refl;
  sound = λ n. tt;
}

module _ (net : Net) where
  pub Step-Inv : {s t : System} → Step net s t → Inv s → Inv t
  Step-Inv (connect_begins {s} {m} cfg h) v = connect_begins-Inv net s m cfg h v
  Step-Inv (connect_ends {s} cfg r now before after h) v =
      connect_ends-Inv s cfg r now before after h v
  Step-Inv (teardown_begins {s} name claim m h) v = teardown_begins-Inv s name claim m h v
  Step-Inv (engine_dies {s} name dead t m h) v = engine_dies-Inv s name dead t m h v
  Step-Inv (teardown_ends {s} t before after h) v = teardown_ends-Inv s t before after h v
  Step-Inv (pin_set {s} enabled) v = pin_set-Inv s enabled v

  -- In every system that the manager reaches from its start, by any interleaving of connects,
  -- disconnects, engine deaths and pin settings, a tunnel is connecting while exactly one connect of
  -- its name runs and disconnecting while exactly one teardown does, and each entry has its own
  -- config, a network manager and, if connected, an engine.
  pub Reach-Inv : {s : System} → Reach net initial s → Inv s
  Reach-Inv here = initial-Inv
  Reach-Inv (next r st) = Step-Inv st (Reach-Inv r)

  -- The safety net of Connect's third phase is never taken: whatever ran between the phases, a
  -- connect whose setup brought the engine up commits it and succeeds, without an abort.
  pub connect-never-aborts :
      {s : System} (cfg : WireGuardConfig) (e : Engine) (now : ℕ) (before after : List Op)
      → Reach net initial s
      → s.ops ≡ before ++ (connecting_op cfg ∷ after)
      → let c = commit_connect s.manager cfg.name (ok e) now in
        (c.aborted ≡ false) × (c.result ≡ ok tt)
  unfolding commit_connect
  connect-never-aborts {s} cfg e now before after r h =
      let (entry, found, busy) = connecting_entry s cfg before after (Reach-Inv r) h in
      (rw (found, entry_or_fresh, busy) refl, rw (found, entry_or_fresh, busy) refl)

  -- DisconnectTunnel never finds a connected tunnel without its engine: behind its wait loop it
  -- claims the tunnel, or reports that the tunnel is not connected.
  pub teardown-never-corrupt :
      {s : System} (name : Bytes)
      → Reach net initial s
      → (claim_teardown s.manager name (get s.manager.tunnels name)).0 ≢ err state_corrupt
  teardown-never-corrupt {s} name r h =
      elim (claim_teardown-cases s.manager _ name _ _ ((Reach-Inv r).sound name) refl) [
        | inl (refused, same) ↦ cc
        | inr (e, t, claims, found, up, named, m_is) ↦ cc
      ]

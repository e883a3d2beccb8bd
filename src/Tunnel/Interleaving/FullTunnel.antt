-- ===== src/Tunnel/Interleaving/FullTunnel.antt =====
-- Two tunnels that route all traffic are never up together, if connects run one at a time, as the
-- helper's `connectMu` makes them.
use wireguide.Base.{
  ℕ, Bool, true, false, ◌&&◌, ◌||◌, List, [], ◌∷◌, ◌++◌, ◌≡◌, ◌≢◌, refl, arith, Option, none, some,
  Option-cases, inl, inr, ◌⊎◌, ◌∙◌, sym,
}
use wireguide.Base.Bytes.{Bytes, equal, equal_iff}
use wireguide.Base.Dict.{Dict, get, put, remove, get-put, get-remove}
use wireguide.Base.Result.{Result, ok, err}
use wireguide.Domain.{WireGuardConfig, is_full_tunnel}
use wireguide.Net.{Net}
use wireguide.Tunnel.Types.{connected, ErrorKind, Engine, Entry, Manager}
use wireguide.Tunnel.Manager.{
  is_connected, is_connecting, is_full, full_tunnel_elsewhere, claim_connect, commit_connect,
  set_pin_interface, entry_or_fresh, claimed, claimed_entry, pin_all,
}
use wireguide.Tunnel.Interleaving.Ops.{Op, connecting_op, teardown_op, System, connects, initial}
use wireguide.Tunnel.Interleaving.{
  Step, connect_begins, connect_ends, teardown_begins, engine_dies, teardown_ends, pin_set,
}
use wireguide.Tunnel.Interleaving.Invariant.{Inv, connecting_entry, claim_connect-ok}
use wireguide.Tunnel.Interleaving.Ending.{
  claim_death-some, claim_teardown-cases, get-pin_all, torn_down,
}
use wireguide.Tunnel.Interleaving.Safety.{Step-Inv, initial-Inv}

-- The tunnel of an entry routes all traffic, or is about to.
abbrev pub full_up : Net → Option Entry → Bool
full_up net none = false
full_up net (some e) = (is_connected e.state || is_connecting e.state) && is_full net e.cfg

abbrev pub no_connect : List Op → Bool
no_connect [] = true
no_connect (connecting_op _ ∷ ops) = false
no_connect (teardown_op _ ∷ ops) = no_connect ops

no_connect-connects : (n : Bytes) (ops : List Op) → no_connect ops ≡ true → connects n ops ≡ 0
no_connect-connects n [] h = refl
no_connect-connects n (connecting_op c ∷ ops) h = cc
no_connect-connects n (teardown_op t ∷ ops) h = no_connect-connects n ops h

elsewhere-false :
    (net : Net) (name n : Bytes) (d : Dict Entry) (e : Entry)
    → full_tunnel_elsewhere net name d ≡ false
    → equal n name ≡ false
    → get d n ≡ some e
    → (is_connected e.state && is_full net e.cfg) ≡ false
unfolding full_tunnel_elsewhere get
elsewhere-false net name n [] e h ne found = cc
elsewhere-false net name n ((k, x) ∷ d) e h ne found =
    ground
      (arith, equal_iff k n, equal_iff k name, equal_iff n name, elsewhere-false net name n d e)

module _ (net : Net) where
  -- No step but the start of a connect may run beside a connect.
  abbrev pub IsSerial : {s t : System} → Step net s t → Type 0
  IsSerial (connect_begins {s} cfg h) = no_connect s.ops ≡ true
  IsSerial (connect_ends cfg r now before after h) = Unit {0}
  IsSerial (teardown_begins name claim m h) = Unit {0}
  IsSerial (engine_dies name dead t m h) = Unit {0}
  IsSerial (teardown_ends t before after h) = Unit {0}
  IsSerial (pin_set enabled) = Unit {0}

  pub data SerialReach (s : System) : System → Type 0 where
    start : SerialReach s s
    more : {t u : System} → SerialReach s t → (st : Step net t u) → IsSerial st → SerialReach s u

  abbrev pub OneFull : Dict Entry → Type 0
  OneFull d =
      (a b : Bytes) → a ≢ b → full_up net (get d a) ≡ true → full_up net (get d b) ≡ true → ⊥

  -- A change that makes no further tunnel full keeps the property.
  OneFull-mono :
      (d d' : Dict Entry)
      → ((n : Bytes) → full_up net (get d' n) ≡ true → full_up net (get d n) ≡ true)
      → OneFull d
      → OneFull d'
  OneFull-mono d d' sub one a b ne ha hb = one a b ne (sub a ha) (sub b hb)

  claim_connect-alone :
      (m m' : Manager) (cfg : WireGuardConfig)
      → claim_connect net m cfg ≡ ok m'
      → (is_full_tunnel net cfg && full_tunnel_elsewhere net cfg.name m.tunnels) ≡ false
  unfolding claim_connect
  claim_connect-alone m m' cfg h = ground arith

  -- Beside an accepted full tunnel, no other is up.
  others-down :
      (s : System) (m : Manager) (cfg : WireGuardConfig) (n : Bytes)
      → Inv s
      → no_connect s.ops ≡ true
      → claim_connect net s.manager cfg ≡ ok m
      → is_full_tunnel net cfg ≡ true
      → equal n cfg.name ≡ false
      → full_up net (get s.manager.tunnels n) ≡ true
      → ⊥
  others-down s m cfg n v quiet h full ne up = elim (Option-cases (get s.manager.tunnels n)) [
    | inl gone ↦ ground arith
    | inr (e, found) ↦ ground (
      arith,
      claim_connect-alone s.manager m cfg h,
      no_connect-connects n s.ops quiet,
      v.connecting_once n,
      elsewhere-false net cfg.name n s.manager.tunnels e,
    )
  ]

  claimed-full :
      (m : Manager) (cfg : WireGuardConfig) (n : Bytes)
      → full_up net (get (claimed m cfg).tunnels n) ≡ true
      → ((n ≡ cfg.name) × (is_full_tunnel net cfg ≡ true))
        ⊎ ((equal n cfg.name ≡ false) × (full_up net (get m.tunnels n) ≡ true))
  unfolding is_full
  claimed-full m cfg n h = ground (
    arith,
    get-put m.tunnels cfg.name n (claimed_entry m cfg),
    equal_iff cfg.name n,
    equal_iff n cfg.name,
  )

  connect_begins-OneFull :
      (s : System) (m : Manager) (cfg : WireGuardConfig)
      → Inv s
      → no_connect s.ops ≡ true
      → claim_connect net s.manager cfg ≡ ok m
      → OneFull s.manager.tunnels
      → OneFull m.tunnels
  connect_begins-OneFull s m cfg v quiet h one = rw (claim_connect-ok net s.manager m cfg h).0 both
    where
      both : OneFull (claimed s.manager cfg).tunnels
      both a b ne ha hb = elim (claimed-full s.manager cfg a ha) [
        | inl (a_is, full) ↦ elim (claimed-full s.manager cfg b hb) [
          | inl (b_is, _) ↦ ne (a_is ∙ sym b_is)
          | inr (b_ne, b_up) ↦ others-down s m cfg b v quiet h full b_ne b_up
        ]
        | inr (a_ne, a_up) ↦ elim (claimed-full s.manager cfg b hb) [
          | inl (b_is, full) ↦ others-down s m cfg a v quiet h full a_ne a_up
          | inr (b_ne, b_up) ↦ one a b ne a_up b_up
        ]
      ]

  removed-full :
      (d : Dict Entry) (k n : Bytes)
      → full_up net (get (remove d k) n) ≡ true
      → full_up net (get d n) ≡ true
  removed-full d k n h = ground (arith, get-remove d k n)

  torn_down-full :
      (d : Dict Entry) (k n : Bytes) (e : Entry)
      → full_up net (get (put d k (torn_down e)) n) ≡ true
      → full_up net (get d n) ≡ true
  torn_down-full d k n e h = ground (arith, get-put d k n (torn_down e))

  connect_ends-full :
      (s : System) (cfg : WireGuardConfig) (r : Result ErrorKind Engine) (now : ℕ)
      (before after : List Op) (n : Bytes)
      → Inv s
      → s.ops ≡ before ++ (connecting_op cfg ∷ after)
      → full_up net (get (commit_connect s.manager cfg.name r now).manager.tunnels n) ≡ true
      → full_up net (get s.manager.tunnels n) ≡ true
  unfolding commit_connect
  connect_ends-full s cfg (err k) now before after n v h up =
      removed-full s.manager.tunnels cfg.name n up
  connect_ends-full s cfg (ok engine) now before after n v h up =
      let (e, found, busy) = connecting_entry s cfg before after v h in
      let e' : Entry = record e { engine = some engine; connected_at = now; state = connected } in
      ground (
        arith,
        equal_iff cfg.name n,
        get-put s.manager.tunnels cfg.name n e',
        rw (found, entry_or_fresh, busy) at up,
      )

  pinned-full :
      (enabled : Bool) (d : Dict Entry) (n : Bytes)
      → full_up net (get (pin_all enabled d) n) ≡ true
      → full_up net (get d n) ≡ true
  pinned-full enabled d n h = ground (arith, get-pin_all enabled d n)

  Step-OneFull :
      {s t : System} (st : Step net s t)
      → IsSerial st
      → Inv s
      → OneFull s.manager.tunnels
      → OneFull t.manager.tunnels
  unfolding set_pin_interface
  Step-OneFull (connect_begins {s} {m} cfg h) quiet v one =
      connect_begins-OneFull s m cfg v quiet h one
  Step-OneFull (connect_ends {s} cfg r now before after h) _ v one =
      OneFull-mono _ _ (λ n. connect_ends-full s cfg r now before after n v h) one
  Step-OneFull (teardown_begins {s} name claim m h) _ v one =
      elim (claim_teardown-cases s.manager m name _ claim (v.sound name) h) [
        | inl (refused, same) ↦ rw same one
        | inr (e, t, claims, found, up, named, m_is) ↦
            rw m_is (OneFull-mono _ _ (λ n. torn_down-full s.manager.tunnels name n e) one)
      ]
  Step-OneFull (engine_dies {s} name dead t m h) _ v one =
      let (e, found, up, named, m_is) = claim_death-some s.manager m name dead _ t h in
      rw m_is (OneFull-mono _ _ (λ n. torn_down-full s.manager.tunnels name n e) one)
  Step-OneFull (teardown_ends {s} t before after h) _ v one =
      OneFull-mono _ _ (λ n. removed-full s.manager.tunnels t.name n) one
  Step-OneFull (pin_set {s} enabled) _ v one =
      OneFull-mono _ _ (λ n. pinned-full enabled s.manager.tunnels n) one

  serial_lem : {s : System} → SerialReach initial s → Inv s × OneFull s.manager.tunnels
  unfolding get
  serial_lem start = (initial-Inv, λ a b ne ha hb. cc)
  serial_lem (more r st quiet) =
      (Step-Inv net st (serial_lem r).0, Step-OneFull st quiet (serial_lem r).0 (serial_lem r).1)

  -- If no connect starts while another is between its phases, no reachable system has two tunnels
  -- of different names that both route all traffic and are connected or connecting; disconnects,
  -- engine deaths and pin settings may interleave freely.
  pub SerialReach-OneFull : {s : System} → SerialReach initial s → OneFull s.manager.tunnels
  SerialReach-OneFull r = (serial_lem r).1

-- ===== src/Tunnel/Interleaving/Ending.antt =====
-- The invariant across the steps that tear tunnels down, and across the pin setting.
use mathlib.Core.Option
use wireguide.Base.{
  Bool, List, [], ◌∷◌, ◌++◌, Option, some, none, ◌≡◌, refl, arith, Bool-cases, Option-cases, ◌⊎◌,
  inl, inr, ap,
}
use wireguide.Base.Bytes.{Bytes}
use wireguide.Base.Dict.{Dict, get, put, get-put, get-remove}
use wireguide.Base.Result.{Result, ok, err}
use wireguide.Tunnel.Types.{
  connected, disconnecting, ErrorKind, not_connected, Engine, Entry, Manager,
}
use wireguide.Tunnel.Manager.{
  is_connected, Teardown, claim_teardown, claim_death, removed, set_pin_interface, pin_all,
  pin_entry,
}
use wireguide.Tunnel.Interleaving.Ops.{Op, teardown_op, System, connects, teardowns, started}
use wireguide.Tunnel.Interleaving.Invariant.{
  Inv, IsSound, state_at, update-Inv, disconnecting_entry, teardowns-middle,
  connects-middle_teardown,
}

abbrev pub torn_down : Entry → Entry
torn_down e = record e { state = disconnecting }

-- The entry that a teardown claims was connected, and is disconnecting then.
begin_teardown-Inv :
    (s : System) (name : Bytes) (e : Entry) (t : Teardown)
    → get s.manager.tunnels name ≡ some e
    → e.state ≡ connected
    → t.name ≡ name
    → Inv s
    → Inv (record {
      manager = record s.manager { tunnels = put s.manager.tunnels name (torn_down e) };
      ops = teardown_op t ∷ s.ops;
    })
begin_teardown-Inv s name e t found up named v =
    let was = rw found at (v.sound name) in
    update-Inv s _ s.manager.pin_interface (teardown_op t ∷ s.ops) name _
      (λ n. get-put s.manager.tunnels name n _) v (λ n. ground arith) (λ n. ground arith)
      (λ p. cc, was.1, was.2, was.3, was.4)

pub claim_death-some :
    (m m' : Manager) (name : Bytes) (dead : Engine) (o : Option Entry) (t : Teardown)
    → claim_death m name dead o ≡ some (t, m')
    → (e : Entry) × (o ≡ some e)
      × (e.state ≡ connected)
      × (t.name ≡ name)
      × (m' ≡ record m { tunnels = put m.tunnels name (torn_down e) })
unfolding claim_death
claim_death-some m m' name dead none t h = cc
claim_death-some m m' name dead (some e) t h = (e, refl, ground arith, ground arith, ground arith)

pub engine_dies-Inv :
    (s : System) (name : Bytes) (dead : Engine) (t : Teardown) (m : Manager)
    → claim_death s.manager name dead (get s.manager.tunnels name) ≡ some (t, m)
    → Inv s
    → Inv (record { manager = m; ops = teardown_op t ∷ s.ops })
engine_dies-Inv s name dead t m h v =
    let (e, found, up, named, m_is) = claim_death-some s.manager m name dead _ t h in
    rw m_is (begin_teardown-Inv s name e t found up named v)

-- The claim of DisconnectTunnel: an entry that is connected, or an error that leaves the manager
-- as it was, if connected entries have engines.
pub claim_teardown-cases :
    (m m' : Manager) (name : Bytes) (o : Option Entry) (claim : Result ErrorKind Teardown)
    → IsSound name o
    → claim_teardown m name o ≡ (claim, m')
    → ((claim ≡ err not_connected) × (m' ≡ m))
      ⊎ ((e : Entry) × (t : Teardown) × (claim ≡ ok t)
          × (o ≡ some e)
          × (e.state ≡ connected)
          × (t.name ≡ name)
          × (m' ≡ record m { tunnels = put m.tunnels name (torn_down e) }))
unfolding claim_teardown
claim_teardown-cases m m' name none claim sound h = inl (ground arith, ground arith)
claim_teardown-cases m m' name (some e) claim sound h = elim (Bool-cases (is_connected e.state)) [
  | inl up ↦ elim (Option-cases e.engine) [
    | inl gone ↦ absurd (ground (arith, sound.0 up))
    | inr (engine, there) ↦ inr (
      e,
      record { name = name; engine = engine; cfg = e.cfg; net_mgr = e.net_mgr },
      ground arith,
      refl,
      ground arith,
      refl,
      ground arith,
    )
  ]
  | inr down ↦ inl (ground arith, ground arith)
]

pub teardown_begins-Inv :
    (s : System) (name : Bytes) (claim : Result ErrorKind Teardown) (m : Manager)
    → claim_teardown s.manager name (get s.manager.tunnels name) ≡ (claim, m)
    → Inv s
    → Inv (record { manager = m; ops = started claim s.ops })
teardown_begins-Inv s name claim m h v =
    elim (claim_teardown-cases s.manager m name _ claim (v.sound name) h) [
      | inl (refused, same) ↦ rw (refused, same) v
      | inr (e, t, claims, found, up, named, m_is) ↦
          rw (claims, m_is) (begin_teardown-Inv s name e t found up named v)
    ]

pub teardown_ends-Inv :
    (s : System) (t : Teardown) (before after : List Op)
    → s.ops ≡ before ++ (teardown_op t ∷ after)
    → Inv s
    → Inv (record { manager = removed s.manager t.name; ops = before ++ after })
teardown_ends-Inv s t before after h v =
    let (e, found, busy) = disconnecting_entry s t before after v h in
    update-Inv s _ s.manager.pin_interface (before ++ after) t.name none
      (λ n. get-remove s.manager.tunnels t.name n) v
      (λ n. ground (arith, ap (connects n) h, connects-middle_teardown n before after t))
      (λ n. ground (arith, ap (teardowns n) h, teardowns-middle n before after t)) tt

pub get-pin_all :
    (enabled : Bool) (d : Dict Entry) (n : Bytes)
    → get (pin_all enabled d) n ≡ Option.map (pin_entry enabled) (get d n)
unfolding get pin_all
get-pin_all enabled [] n = refl
get-pin_all enabled ((k, e) ∷ d) n = ground (arith, get-pin_all enabled d n)

pin_entry-IsSound :
    (enabled : Bool) (n : Bytes) (o : Option Entry)
    → IsSound n o
    → IsSound n (Option.map (pin_entry enabled) o)
pin_entry-IsSound enabled n none h = tt
pin_entry-IsSound enabled n (some e) h = (ground arith, ground arith, h.2, ground arith, h.4)

state_at-pin_entry :
    (enabled : Bool) (o : Option Entry) → state_at (Option.map (pin_entry enabled) o) ≡ state_at o
state_at-pin_entry enabled o = ground arith

pub pin_set-Inv :
    (s : System) (enabled : Bool)
    → Inv s
    → Inv (record { manager = set_pin_interface enabled s.manager; ops = s.ops })
unfolding set_pin_interface
pin_set-Inv s enabled v = record {
  connecting_once = λ n.
      rw
        (
          get-pin_all enabled s.manager.tunnels n,
          state_at-pin_entry enabled (get s.manager.tunnels n),
        )
        (v.connecting_once n);
  disconnecting_once = λ n.
      rw
        (
          get-pin_all enabled s.manager.tunnels n,
          state_at-pin_entry enabled (get s.manager.tunnels n),
        )
        (v.disconnecting_once n);
  sound = λ n.
      rw (get-pin_all enabled s.manager.tunnels n)
        (pin_entry-IsSound enabled n (get s.manager.tunnels n) (v.sound n));
}

-- ===== src/Helper/Holds/DeathWindow.antt =====
-- The time between the manager's claim of a dead WireGuard tunnel and onWireGuardEngineDied
-- (internal/tunnel/manager.go, handleEngineDied).
use mathlib.Core.Path.{subst}
use wireguide.Base.{
  false, List, [], ◌∷◌, Option, none, some, ◌≡◌, refl, sym, ap, ◌∙◌, arith, Bool-cases, inl, inr,
}
use wireguide.Base.Bytes.{Bytes, equal}
use wireguide.Base.Dict.{Dict, get, put, keys, get-put}
use wireguide.Base.Sorted.{sort_strings}
use wireguide.Net.{Net}
use wireguide.Tunnel.Types.{Engine, Entry, Manager}
use wireguide.Tunnel.Manager.{Teardown, claim_death}
use wireguide.Tunnel.Manager.Queries.{info_of, infos_of, connected_tunnels, is_tunnel_connected}
use wireguide.Tunnel.Interleaving.Ending.{torn_down, claim_death-some}
use wireguide.Helper.State.{Helper, HostPort}
use wireguide.Helper.Live.{Backend, live_tunnels}
use wireguide.Helper.Derive.{derive, no_rules}
use wireguide.Helper.Derive.FailClosed.{derive_flushes}

abbrev pub no_openvpn : Backend
no_openvpn = record { statuses = []; remotes = [] }

infos_of-none :
    (d : Dict Entry) (ns : List Bytes)
    → ((k : Bytes) → info_of k (get d k) ≡ none)
    → infos_of d ns ≡ []
unfolding infos_of
infos_of-none d [] h = refl
infos_of-none d (k ∷ ns) h = ground (arith, h k, infos_of-none d ns h)

info_of-torn_down :
    (d : Dict Entry) (name k : Bytes) (e : Entry)
    → (equal name k ≡ false → info_of k (get d k) ≡ none)
    → info_of k (get (put d name (torn_down e)) k) ≡ none
unfolding info_of
info_of-torn_down d name k e others = elim (Bool-cases (equal name k)) [
  | inl same ↦ rw (get-put d name k (torn_down e), same) refl
  | inr other ↦ rw (get-put d name k (torn_down e), other) (others other)
]

not_connected-none :
    (k : Bytes) (m : Manager) → is_tunnel_connected m k ≡ false → info_of k (get m.tunnels k) ≡ none
unfolding is_tunnel_connected info_of
not_connected-none k m h = ground arith

connected_tunnels-torn_down :
    (m m' : Manager) (name : Bytes) (dead : Engine) (t : Teardown)
    → claim_death m name dead (get m.tunnels name) ≡ some (t, m')
    → ((k : Bytes) → equal name k ≡ false → is_tunnel_connected m k ≡ false)
    → connected_tunnels m' ≡ []
unfolding connected_tunnels
connected_tunnels-torn_down m m' name dead t claims others =
    let (e, found, up, named, m_is) = claim_death-some m m' name dead _ t claims in
    ap (λ x. infos_of x.tunnels (sort_strings (keys x.tunnels))) m_is
    ∙ infos_of-none (put m.tunnels name (torn_down e)) _
        (λ k. info_of-torn_down m.tunnels name k e (λ ne. not_connected-none k m (others k ne)))

live_of-nothing :
    (net : Net) (m : Manager) → connected_tunnels m ≡ [] → live_tunnels net m no_openvpn ≡ ([], [])
unfolding live_tunnels
live_of-nothing net m h = rw h refl

-- From the moment the manager begins to tear down a WireGuard tunnel whose engine died until
-- onWireGuardEngineDied records a hold or a block, an applyFirewall that runs removes the rules, with
-- the kill switch on too, if no other tunnel is connected, held or blocked and there is no OpenVPN.
pub death_window_flushes :
    (net : Net) (parse_remotes : Bytes → Option (List HostPort)) (h : Helper) (m m' : Manager)
    (name : Bytes) (dead : Engine) (t : Teardown)
    → claim_death m name dead (get m.tunnels name) ≡ some (t, m')
    → ((k : Bytes) → equal name k ≡ false → is_tunnel_connected m k ≡ false)
    → (derive net parse_remotes
        (record h { held = []; pending = []; blocked = [] })
        (live_tunnels net m' no_openvpn).0
        (live_tunnels net m' no_openvpn).1).1
      ≡ no_rules
death_window_flushes net parse_remotes h m m' name dead t claims others =
    subst
      (λ view.
        (derive net parse_remotes (record h { held = []; pending = []; blocked = [] }) view.0
          view.1).1
        ≡ no_rules)
      (sym (live_of-nothing net m' (connected_tunnels-torn_down m m' name dead t claims others)))
      (derive_flushes net parse_remotes h [])

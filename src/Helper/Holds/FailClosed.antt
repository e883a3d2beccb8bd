-- ===== src/Helper/Holds/FailClosed.antt =====
-- The kill switch stays loaded while a tunnel that the user wants is down.
use wireguide.Base.{
  Bool, true, false, ◌||◌, List, Option, some, if◌then◌else◌, ◌≡◌, arith, ◌+◌, ◌-◌, ◌<◌, ap, ◌∙◌,
}
use wireguide.Base.Bytes.{Bytes, equal, equal_iff, equal_refl}
use wireguide.Base.Dict.{get, put, has, get-put, get-remove}
use wireguide.Domain.{Protocol}
use wireguide.Net.{Net}
use wireguide.Helper.State.{Helper, HostPort, holds, is_held, or_zero}
use wireguide.Helper.Live.{Named}
use wireguide.Helper.Derive.{derive}
use wireguide.Helper.Derive.FailClosed.{derive_fail_closed}
use wireguide.Helper.Holds.{
  release, protocol, wants_reconnect, is_wanted, forget_or_hold, ovpn_dying_hook, ovpn_gone,
  open_lookup_window, close_lookup_window, lookups,
}

-- A tunnel that is down but protected.
abbrev pub is_protected : Helper → Bytes → Bool
is_protected h n = is_held h n || has h.blocked n

-- A release ends one hold of its tunnel, and touches no other tunnel's.
pub holds-release :
    (live : Bool) (h : Helper) (n k : Bytes)
    → holds (release live n h) k ≡ (if equal n k then holds h n - 1 else holds h k)
unfolding release
holds-release live h n k =
    ground (arith, equal_iff n k, get-put h.held n k (holds h n - 1), get-remove h.held n k)

release-protected :
    (h : Helper) (n : Bytes)
    → h.policy.kill_switch ≡ true
    → wants_reconnect h n ≡ true
    → is_protected (release false n h) n ≡ true
unfolding release is_held has
release-protected h n on wants = ground (
  arith,
  equal_refl n,
  get-put h.held n n (holds h n - 1),
  get-remove h.held n n,
  get-put h.blocked n n (protocol h n),
)

forget_or_hold-protected :
    (p : Protocol) (h : Helper) (n : Bytes)
    → h.policy.kill_switch ≡ true
    → (wants_reconnect h n || is_wanted h n) ≡ true
    → is_protected (forget_or_hold p n h) n ≡ true
unfolding forget_or_hold is_held has
forget_or_hold-protected p h n on wants =
    ground (arith, equal_refl n, get-put h.pending n n tt, get-put h.blocked n n p)

forget_or_hold-policy :
    (p : Protocol) (h : Helper) (n : Bytes) → (forget_or_hold p n h).policy ≡ h.policy
unfolding forget_or_hold
forget_or_hold-policy p h n = ground arith

release-policy : (live : Bool) (h : Helper) (n : Bytes) → (release live n h).policy ≡ h.policy
unfolding release
release-policy live h n = ground arith

hook-pending :
    (h : Helper) (n : Bytes)
    → h.policy.kill_switch ≡ true
    → has h.active_ovpn_cfgs n ≡ true
    → is_held (ovpn_gone n (ovpn_dying_hook n h)).1 n ≡ true
unfolding ovpn_gone ovpn_dying_hook is_held has
hook-pending h n on wanted =
    ground (arith, equal_refl n, get-put h.pending n n tt, get-put h.ovpn_dying n n tt)

hook-policy : (h : Helper) (n : Bytes) → (ovpn_gone n (ovpn_dying_hook n h)).1.policy ≡ h.policy
unfolding ovpn_gone ovpn_dying_hook
hook-policy h n = ground arith

-- Two overlapping lookups of a name: the end of one leaves port 53 open for the other.
pub lookup_windows_overlap :
    (h : Helper) (n : Bytes) (rs : List Bytes)
    → 0 < lookups h n
    → (lookups (close_lookup_window n (open_lookup_window n rs h)) n ≡ lookups h n)
      × (get (close_lookup_window n (open_lookup_window n rs h)).dns_lookups n ≡ some rs)
unfolding open_lookup_window close_lookup_window
lookup_windows_overlap h n rs pending =
    let again = get-put h.dns_lookup_refs n n (lookups h n + 1) in
    let refs = put h.dns_lookup_refs n (lookups h n + 1) in
    (
      ground (arith, equal_refl n, again, get-put refs n n (or_zero (get refs n) - 1)),
      ground (arith, equal_refl n, again, get-put h.dns_lookups n n rs),
    )

module _ (net : Net) (parse_remotes : Bytes → Option (List HostPort)) where
  keeps_kill_switch :
      (h : Helper) (live : List Named) (dns : List Bytes) (n : Bytes)
      → h.policy.kill_switch ≡ true
      → is_protected h n ≡ true
      → (derive net parse_remotes h live dns).1.kill_switch ≡ true
  keeps_kill_switch h live dns n on safe =
      derive_fail_closed net parse_remotes h live dns n on (ground arith)

  -- Once forgetOrHold has recorded the death of a tunnel of either protocol that the user still wants
  -- or that reconnects by itself, the rules that applyFirewall asks for next have the kill switch, if it
  -- is on.
  pub death_keeps_kill_switch :
      (p : Protocol) (h : Helper) (live : List Named) (dns : List Bytes) (n : Bytes)
      → h.policy.kill_switch ≡ true
      → (wants_reconnect h n || is_wanted h n) ≡ true
      → (derive net parse_remotes (forget_or_hold p n h) live dns).1.kill_switch ≡ true
  death_keeps_kill_switch p h live dns n on wanted =
      keeps_kill_switch (forget_or_hold p n h) live dns n
        (ap (λ pol. pol.kill_switch) (forget_or_hold-policy p h n) ∙ on)
        (forget_or_hold-protected p h n on wanted)

  -- When the reconnect monitor gives up on a tunnel that is not up and reconnects by itself, the
  -- rules that applyFirewall asks for next have the kill switch, if it is on.
  pub give_up_keeps_kill_switch :
      (h : Helper) (live : List Named) (dns : List Bytes) (n : Bytes)
      → h.policy.kill_switch ≡ true
      → wants_reconnect h n ≡ true
      → (derive net parse_remotes (release false n h) live dns).1.kill_switch ≡ true
  give_up_keeps_kill_switch h live dns n on wants =
      keeps_kill_switch (release false n h) live dns n
        (ap (λ pol. pol.kill_switch) (release-policy false h n) ∙ on)
        (release-protected h n on wants)

  -- Between the OpenVPN manager's warning that an active tunnel dies and its report that the tunnel
  -- died, its final status included, the rules that applyFirewall asks for have the kill switch, if
  -- it is on and the user wants the tunnel.
  pub ovpn_death_window_closed :
      (h : Helper) (live : List Named) (dns : List Bytes) (n : Bytes)
      → h.policy.kill_switch ≡ true
      → has h.active_ovpn_cfgs n ≡ true
      → (derive net parse_remotes (ovpn_gone n (ovpn_dying_hook n h)).1 live dns).1.kill_switch
        ≡ true
  ovpn_death_window_closed h live dns n on wanted =
      derive_fail_closed net parse_remotes (ovpn_gone n (ovpn_dying_hook n h)).1 live dns n
        (ap (λ pol. pol.kill_switch) (hook-policy h n) ∙ on)
        (ground (arith, hook-pending h n on wanted))

-- ===== src/Helper/Holds.antt =====
-- The holds and blocks of internal/helper/firewall.go and helper.go: the parts under `h.mu`. Each
-- operation is followed by applyFirewall in the code.
pub mod FailClosed
pub mod DeathWindow
use wireguide.Base.{
  ℕ, Bool, true, false, not, ◌&&◌, ◌||◌, List, [], ◌∷◌, Option, none, some, if◌then◌else◌, ◌==◌,
  ltb, ◌+◌, ◌-◌,
}
use wireguide.Base.Bytes.{Bytes}
use wireguide.Base.Dict.{get, put, remove, has}
use wireguide.Domain.{Protocol, wireguard, openvpn}
use wireguide.Helper.State.{Helper, LiteralEndpoint, holds, or_false, or_zero}
use wireguide.Helper.Endpoints.{cached}
use wireguide.Helper.Derive.{is_empty_dict}

-- `h.dnsLookupRefs[name]`
abbrev pub lookups : Helper → Bytes → ℕ
lookups h name = or_zero (get h.dns_lookup_refs name)

-- holdFirewall
unfoldable pub hold : Bytes → Helper → Helper
hold name h = record h {
  held = put h.held name (holds h name + 1);
  pending = remove h.pending name;
  through = remove h.through name;
  blocked = remove h.blocked name;
}

-- protocolLocked
unfoldable pub protocol : Helper → Bytes → Protocol
unfolding has
protocol h name = if has h.active_ovpn_cfgs name then openvpn else wireguard

abbrev pub wants_reconnect : Helper → Bytes → Bool
wants_reconnect h name = or_false (get h.auto_reconnect name)

-- releaseFirewall; `live` is tunnelIsUp
unfoldable pub release : Bool → Bytes → Helper → Helper
unfolding protocol has
release live name h =
    if ltb 1 (holds h name)
    then record h { held = put h.held name (holds h name - 1) }
    else if not live && not (has h.pending name) && wants_reconnect h name && h.policy.kill_switch
    then record h { held = remove h.held name; blocked = put h.blocked name (protocol h name) }
    else record h { held = remove h.held name }

abbrev pub is_wanted : Helper → Bytes → Bool
is_wanted h name = has h.active_cfgs name || has h.active_ovpn_cfgs name

-- `forget` of either protocol
abbrev pub forget : Protocol → Bytes → Helper → Helper
forget openvpn name h = record h { active_ovpn_cfgs = remove h.active_ovpn_cfgs name }
forget _ name h = record h { active_cfgs = remove h.active_cfgs name }

abbrev cleared : Protocol → Bytes → Helper → Helper
cleared proto name h = record (forget proto name h) {
  auto_reconnect = remove h.auto_reconnect name;
  pending = remove h.pending name;
  through = remove h.through name;
}

-- forgetOrHold
unfoldable pub forget_or_hold : Protocol → Bytes → Helper → Helper
unfolding has
forget_or_hold proto name h =
    if wants_reconnect h name
    then record h { pending = put h.pending name tt; through = remove h.through name }
    else if not (is_wanted h name)
    then cleared proto name h
    else if h.policy.kill_switch
    then record (cleared proto name h) { blocked = put h.blocked name proto }
    else cleared proto name h

-- onOVPNDied
unfoldable pub ovpn_died : Bytes → Helper → Helper
unfolding forget_or_hold
ovpn_died name h = forget_or_hold openvpn name (record h { ovpn_dying = remove h.ovpn_dying name })

-- onOVPNDying
unfoldable pub ovpn_dying_hook : Bytes → Helper → Helper
unfolding has
ovpn_dying_hook name h =
    if not (has h.active_ovpn_cfgs name)
      || (not (wants_reconnect h name) && not h.policy.kill_switch)
    then h
    else record h { ovpn_dying = put h.ovpn_dying name tt; pending = put h.pending name tt }

abbrev pub is_pending_only : Helper → Bytes → Bool
is_pending_only h name = has h.pending name && holds h name == 0

-- onOVPNGone, behind its first guard: whether applyFirewall follows
unfoldable pub ovpn_gone : Bytes → Helper → Bool × Helper
unfolding has
ovpn_gone name h =
    if has h.ovpn_dying name
    then (false, h)
    else if not (is_pending_only h name)
    then (false, h)
    else (
      true,
      if h.policy.kill_switch && not (has h.through name)
          then record h {
            pending = remove h.pending name;
            through = remove h.through name;
            blocked = put h.blocked name openvpn;
          }
          else record h { pending = remove h.pending name; through = remove h.through name },
    )

abbrev resolved_or : List LiteralEndpoint → List LiteralEndpoint → List LiteralEndpoint
resolved_or [] old = old
resolved_or (a ∷ answers) old = a ∷ answers

-- storeResolvedLocked
unfoldable pub store_resolved : Bytes → List LiteralEndpoint → Helper → Helper
store_resolved name answers h =
    let c = cached (get h.endpoints name) in
    record h {
      endpoints =
          put h.endpoints name
            (record c { hostname = true; resolved = resolved_or answers c.resolved });
    }

-- openLookupWindow, on what SystemResolvers returns
unfoldable pub open_lookup_window : Bytes → List Bytes → Helper → Helper
open_lookup_window name resolvers h = record h {
  dns_lookup_refs = put h.dns_lookup_refs name (lookups h name + 1);
  dns_lookups = put h.dns_lookups name resolvers;
}

-- closeLookupWindowLocked
unfoldable pub close_lookup_window : Bytes → Helper → Helper
close_lookup_window name h =
    if ltb 1 (lookups h name)
    then record h { dns_lookup_refs = put h.dns_lookup_refs name (lookups h name - 1) }
    else record h {
      dns_lookup_refs = remove h.dns_lookup_refs name;
      dns_lookups = remove h.dns_lookups name;
    }

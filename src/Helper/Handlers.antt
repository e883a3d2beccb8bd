-- ===== src/Helper/Handlers.antt =====
-- internal/helper/handlers.go: the handlers that change the policy, connect or disconnect. What the
-- managers answer, and what liveTunnels finds at each applyFirewall, are arguments.
pub mod Laws
pub mod Rollback
pub mod Failed
use wireguide.Base.{
  Bool, true, false, not, ◌&&◌, ◌||◌, List, [], ◌∷◌, ◌++◌, Option, none, some, if◌then◌else◌, ◌+◌,
  filter,
}
use wireguide.Base.Bytes.{Bytes, contains}
use wireguide.Base.Dict.{Dict, get, put, remove, has, keys}
use wireguide.Base.Sorted.{sort_strings}
use wireguide.Base.Result.{Result, ok, err}
use wireguide.Domain.{WireGuardConfig, Protocol, wireguard}
use wireguide.Net.{Net}
use wireguide.Firewall.Rules.{Ruleset}
use wireguide.Tunnel.Types.{ErrorKind}
use wireguide.Helper.State.{Helper, HostPort, LiteralEndpoint, or_zero}
use wireguide.Helper.Live.{Named}
use wireguide.Helper.Derive.{Answer, Session, apply_firewall, is_empty_dict}
use wireguide.Helper.Holds.{store_resolved}

abbrev any_resolved : List LiteralEndpoint → Bool
any_resolved [] = false
any_resolved (_ ∷ _) = true

-- a connect through the block of another tunnel
abbrev pub is_through : Helper → Bytes → Bool
is_through h name =
    not (has h.blocked name) && h.policy.kill_switch && not (is_empty_dict h.blocked)

-- the part of liftBlockForConnect under `blocked || through`
unfoldable pub lift : Bytes → Helper → Helper
unfolding has
lift name h =
    if has h.blocked name
    then record h {
      blocked = remove h.blocked name;
      pending = put h.pending name tt;
      through = remove h.through name;
    }
    else if is_through h name
    then record h {
      blocked = remove h.blocked name;
      pending = put h.pending name tt;
      through = put h.through name tt;
    }
    else h

-- liftBlockForConnect up to applyFirewall: whether a hold was set
unfoldable pub lift_block : Bytes → List LiteralEndpoint → Helper → Bool × Helper
unfolding lift store_resolved
lift_block name resolved h = (
  has h.blocked name || is_through h name,
  if any_resolved resolved then store_resolved name resolved (lift name h) else lift name h,
)

-- restoreBlock up to applyFirewall
unfoldable pub restore_block : Bytes → Protocol → Helper → Helper
unfolding has
restore_block name proto h =
    if h.policy.kill_switch && not (has h.through name)
    then record h {
      pending = remove h.pending name;
      through = remove h.through name;
      blocked = put h.blocked name proto;
    }
    else record h { pending = remove h.pending name; through = remove h.through name }

-- what handleDisconnect deletes under `h.mu`
unfoldable pub clear_tunnel : Bytes → Helper → Helper
clear_tunnel name h = record h {
  disconnect_epoch = put h.disconnect_epoch name (or_zero (get h.disconnect_epoch name) + 1);
  active_cfgs = remove h.active_cfgs name;
  active_ovpn_cfgs = remove h.active_ovpn_cfgs name;
  auto_reconnect = remove h.auto_reconnect name;
  held = remove h.held name;
  pending = remove h.pending name;
  through = remove h.through name;
  blocked = remove h.blocked name;
}

abbrev put_back {ℓ} : {V : Type ℓ} → Dict V → Bytes → Option V → Dict V
put_back d name none = remove d name
put_back d name (some v) = put (remove d name) name v

-- the cached values of a connect, and the previous ones
unfoldable pub cache_connect : WireGuardConfig → Bool → Helper → Helper
cache_connect cfg auto h = record h {
  active_cfgs = put h.active_cfgs cfg.name cfg;
  auto_reconnect = put h.auto_reconnect cfg.name auto;
}

unfoldable pub restore_cache : Bytes → Option WireGuardConfig → Option Bool → Helper → Helper
restore_cache name cfg auto h = record h {
  active_cfgs = put_back h.active_cfgs name cfg;
  auto_reconnect = put_back h.auto_reconnect name auto;
}

-- `for name, proto := range unblocked`
unfoldable pub block_all : Dict Protocol → Dict Protocol → Dict Protocol
block_all [] d = d
block_all ((n, p) ∷ rest) d = block_all rest (put d n p)

-- the blocks that turning the kill switch off releases
abbrev pub unblocked : Bool → Helper → Dict Protocol
unblocked enabled h = if not enabled && not (is_empty_dict h.blocked) then h.blocked else []

unfoldable pub set_kill_switch_policy : Bool → Helper → Helper
set_kill_switch_policy enabled h = record h {
  policy = record h.policy { kill_switch = enabled };
  blocked = if not enabled && not (is_empty_dict h.blocked) then [] else h.blocked;
}

-- the closure `add` on a range of names
unfoldable pub add_names : List Bytes → List Bytes → List Bytes → List Bytes
add_names running out [] = out
add_names running out (n ∷ ns) =
    add_names running
      (if not (contains running n) && not (contains out n) then out ++ n ∷ [] else out) ns

-- protectedTunnels
unfoldable pub protected_tunnels : List Bytes → Helper → List Bytes
unfolding add_names
protected_tunnels running h =
    sort_strings (add_names running [] (keys h.held ++ (keys h.pending ++ keys h.blocked)))

module _ (net : Net) (parse_remotes : Bytes → Option (List HostPort))
    (answer : Ruleset → Answer) where
  abbrev pub View : Type 0
  View = List Named × List Bytes

  abbrev pub on_helper : (Helper → Helper) → Session → Session
  on_helper f s = record s { helper = f s.helper }

  -- handleSetKillSwitch
  unfoldable pub set_kill_switch : View → Bool → Session → Bool × Session
  unfolding apply_firewall set_kill_switch_policy block_all
  set_kill_switch view enabled s =
      let (fine, s') =
        apply_firewall net parse_remotes answer view
          (on_helper (set_kill_switch_policy enabled) s) in
      if fine then (true, s') else (
        false,
        on_helper
            (λ h. record h {
              policy = record h.policy { kill_switch = s.helper.policy.kill_switch };
              blocked = block_all (unblocked enabled s.helper) h.blocked;
            })
            s',
      )

  -- handleSetDNSProtection
  unfoldable pub set_dns_protection : View → Bool → Session → Bool × Session
  unfolding apply_firewall
  set_dns_protection view enabled s =
      let (fine, s') =
        apply_firewall net parse_remotes answer view
          (on_helper (λ h. record h { policy = record h.policy { dns_protection = enabled } }) s) in
      if fine then (true, s') else (
        false,
        on_helper
            (λ h. record h {
              policy = record h.policy { dns_protection = s.helper.policy.dns_protection };
            })
            s',
      )

  -- handleDisconnect under connectMu: `down` says that the manager's error counts
  unfoldable pub disconnect : View → Bool → Bytes → Session → Bool × Session
  unfolding apply_firewall clear_tunnel
  disconnect view fails name s =
      let (fine, s') =
        apply_firewall net parse_remotes answer view (on_helper (clear_tunnel name) s) in
      (not fails, s')

  -- handleConnect from the caching of the configuration on, for WireGuard
  unfoldable pub connect_wireguard :
      View
      → View
      → Result ErrorKind (Unit {0})
      → Bool
      → List LiteralEndpoint
      → WireGuardConfig
      → Session
      → Result ErrorKind (Unit {0}) × Session
  unfolding apply_firewall cache_connect restore_cache lift_block restore_block
  connect_wireguard before after result auto resolved cfg s =
      let (lifted, h) = lift_block cfg.name resolved (cache_connect cfg auto s.helper) in
      let s1 = record s { helper = h } in
      let (fine, s2) =
        if lifted then apply_firewall net parse_remotes answer before s1 else (true, s1) in
      elim result [
        | err k ↦
            let s3 =
              on_helper
                (restore_cache cfg.name (get s.helper.active_cfgs cfg.name)
                  (get s.helper.auto_reconnect cfg.name))
                s2 in
            let (fine', s4) =
              if lifted
              then apply_firewall net parse_remotes answer after
                  (on_helper (restore_block cfg.name wireguard) s3)
              else (true, s3) in
            (err k, s4)
        | ok done ↦
            let s3 =
              on_helper
                (λ x. record x {
                  pending = remove x.pending cfg.name;
                  through = remove x.through cfg.name;
                })
                s2 in
            let (fine', s4) = apply_firewall net parse_remotes answer after s3 in (ok tt, s4)
      ]

-- ===== src/Helper/Derive.antt =====
-- applyFirewall of internal/helper/firewall.go: the ruleset that the policy and the live tunnels ask
-- for. What firewall.Apply answers to a ruleset is an argument.
pub mod FailClosed
use wireguide.Base.{
  ℕ, Bool, true, false, not, ◌&&◌, ◌||◌, List, [], ◌∷◌, ◌++◌, Option, none, some, if◌then◌else◌,
  ◌==◌, map, filter,
}
use wireguide.Base.Bytes.{Bytes, equal, contains}
use wireguide.Base.Dict.{Dict, get, put, remove, keys, has}
use wireguide.Base.Sorted.{sort_strings}
use wireguide.Firewall.Rules.{KillSwitchTunnel, Ruleset}
use wireguide.Net.{Net}
use wireguide.Helper.State.{CachedEndpoints, HostPort, Helper, holds, is_held}
use wireguide.Helper.Endpoints.{
  endpoint_only, cached, configured_endpoints, endpoint_passes, is_multi_remote_ovpn,
}
use wireguide.Helper.Live.{Named}

abbrev pub no_rules : Ruleset
no_rules = record {
  kill_switch = false;
  tunnels = [];
  dns_protection = false;
  dns_servers = [];
  dns_lookup_servers = [];
}

abbrev pub names_of : List Named → List Bytes
names_of [] = []
names_of ((n, t) ∷ xs) = n ∷ names_of xs

abbrev pub tunnels_of : List Named → List KillSwitchTunnel
tunnels_of [] = []
tunnels_of ((n, t) ∷ xs) = t ∷ tunnels_of xs

abbrev pub no_hosts : List HostPort → Bool
no_hosts [] = true
no_hosts (_ ∷ _) = false

abbrev pub no_tunnels : List KillSwitchTunnel → Bool
no_tunnels [] = true
no_tunnels (_ ∷ _) = false

abbrev pub is_empty_dict {ℓ} : {V : Type ℓ} → Dict V → Bool
is_empty_dict [] = true
is_empty_dict (_ ∷ _) = false

-- `firewall.KillSwitchTunnel{Proto: p.Proto, Endpoints: p.Endpoints}`
abbrev pub pass_of : KillSwitchTunnel → KillSwitchTunnel
pass_of p = endpoint_only p.proto p.endpoints

abbrev pub is_previous : Option Bytes → Bytes → Bool
is_previous none n = false
is_previous (some p) n = equal p n

-- the names of both loops over holds
abbrev pub held_names : Helper → List Bytes
held_names h = sort_strings (keys h.held ++ filter (λ n. holds h n == 0) (keys h.pending))

abbrev pub or_blocked : List KillSwitchTunnel → List KillSwitchTunnel
or_blocked [] = endpoint_only [] [] ∷ []
or_blocked (p ∷ ps) = map pass_of (p ∷ ps)

unfoldable pub add_servers : List Bytes → List Bytes → List Bytes
add_servers out [] = out
add_servers out (s ∷ ss) = add_servers (if not (contains out s) then out ++ s ∷ [] else out) ss

unfoldable pub lookup_servers : Dict (List Bytes) → List Bytes → List Bytes → List Bytes
unfolding add_servers
lookup_servers d out [] = out
lookup_servers d out (n ∷ ns) =
    lookup_servers d (elim (get d n) [ none ↦ out | some ss ↦ add_servers out ss ]) ns

-- the loop that deletes from `fwEndpoints`
unfoldable pub keep_endpoints : Helper → List Bytes → Dict CachedEndpoints → Dict CachedEndpoints
unfolding is_held has
keep_endpoints h live [] = []
keep_endpoints h live ((n, c) ∷ d) =
    let rest = keep_endpoints h live d in
    if not (contains live n) && not (is_held h n) && not (has h.active_ovpn_cfgs n)
    then rest
    else (n, c) ∷ rest

module _ (net : Net) (parse_remotes : Bytes → Option (List HostPort)) where
  -- the loop body over live names
  unfoldable pub refresh : Named → Helper → Helper
  unfolding configured_endpoints
  refresh (n, t) h = record h {
    blocked = remove h.blocked n;
    endpoints = put h.endpoints n (record (cached (get h.endpoints n)) {
      passes = endpoint_only t.proto t.endpoints ∷ [];
      hostname = not (no_hosts (configured_endpoints net parse_remotes h n).1);
    });
  }

  unfoldable pub refresh_all : List Named → Helper → Helper
  unfolding refresh
  refresh_all [] h = h
  refresh_all (x ∷ xs) h = refresh_all xs (refresh x h)

  -- every remote of the live multi-remote tunnels
  unfoldable pub failover_passes : Helper → Option Bytes → List Named → List KillSwitchTunnel
  unfolding is_multi_remote_ovpn endpoint_passes
  failover_passes h previous [] = []
  failover_passes h previous ((n, t) ∷ xs) =
      let rest = failover_passes h (some n) xs in
      if is_previous previous n || not (is_multi_remote_ovpn net parse_remotes h n)
      then rest
      else map pass_of (endpoint_passes net parse_remotes h n) ++ rest

  -- the passes of the held tunnels that are not live
  unfoldable pub held_passes : Helper → List Bytes → List Bytes → List KillSwitchTunnel
  unfolding endpoint_passes
  held_passes h live [] = []
  held_passes h live (n ∷ ns) =
      let rest = held_passes h live ns in
      if contains live n then rest else or_blocked (endpoint_passes net parse_remotes h n) ++ rest

  -- applyFirewall up to the call of Apply, on what liveTunnels returned
  unfoldable pub derive : Helper → List Named → List Bytes → Helper × Ruleset
  unfolding refresh_all failover_passes held_passes lookup_servers keep_endpoints
  derive h live dns =
      let h' = refresh_all live h in
      let tunnels =
        tunnels_of live
        ++ (failover_passes h' none live ++ held_passes h' (names_of live) (held_names h')) in
      let blocked = h'.policy.kill_switch && not (is_empty_dict h'.blocked) in
      let rs : Ruleset = record {
        kill_switch = h'.policy.kill_switch;
        tunnels = tunnels;
        dns_protection = h'.policy.dns_protection;
        dns_servers = dns;
        dns_lookup_servers = lookup_servers h'.dns_lookups [] (sort_strings (keys h'.dns_lookups));
      } in
      (
        record h' { endpoints = keep_endpoints h' (names_of live) h'.endpoints },
        if no_tunnels tunnels && not blocked then no_rules else rs,
      )

-- What Apply answers: the rules are loaded; or an error, with the previous rules kept, or with the
-- new rules loaded where only enabling pf failed.
pub data Answer : Type 0 where
  loads keeps not_enabled : Answer

abbrev pub succeeds : Answer → Bool
succeeds loads = true
succeeds _ = false

-- The helper, the rules that are loaded, and whether cleanup has begun.
pub record Session : Type 0 where
  pub helper : Helper
  pub loaded : Ruleset
  pub done : Bool

abbrev pub after_answer : Answer → Ruleset → Ruleset → Ruleset
after_answer keeps rs old = old
after_answer _ rs old = rs

module _ (net : Net) (parse_remotes : Bytes → Option (List HostPort))
    (answer : Ruleset → Answer) where
  -- applyFirewall: whether it returns nil, and the session
  unfoldable pub apply_firewall : List Named × List Bytes → Session → Bool × Session
  unfolding derive
  apply_firewall (live, dns) s =
      let (h, rs) = derive net parse_remotes s.helper live dns in
      if s.done then (true, s) else (
        succeeds (answer rs),
        record s { helper = h; loaded = after_answer (answer rs) rs s.loaded },
      )

-- ===== src/Firewall/Rules/KillSwitch.antt =====
-- What the rules of BuildRules let through.
use mathlib.Core.Path.{subst}
use mathlib.Core.List.{Memᴰ, append_assoc}
use wireguide.Base.{
  Bool, true, false, ◌&&◌, ◌||◌, List, [], ◌∷◌, ◌++◌, ◌≡◌, refl, sym, ◌∙◌, arith, All, All-append,
  Bool-cases, inl, inr, map,
}
use wireguide.Base.Bytes.{Bytes, equal_iff}
use wireguide.Base.Result.{ok, OnOk, OnOk-bind, OnOk-apply}
use wireguide.Domain.{is_empty}
use wireguide.Net.{Net}
use wireguide.Firewall.Rules.{
  KillSwitchTunnel, Ruleset, Rule, block_dns, pass_dhcp, pass_dhcpv6, pass_neighbour, block_out,
  block_in, pass_interface, valid_port, enforces_dns, collect_ifaces, lookup_rules,
  dns_server_rules, dns_section, host_and_port, endpoint_rule, endpoint_rules, is_tcp, tunnel_rules,
  kill_switch_section, head_rules, build_sections, build_lines,
}
use wireguide.Firewall.Rules.Justified.{
  Justified, IsTunnelInterface, collect_ifaces-All, lookup_rules-All, dns_server_rules-All,
}
use wireguide.Firewall.Rules.Verdict.{
  Packet, is_query_to, is_loopback, reaches_host, has_port, is_dhcp, is_neighbour, decide, verdict,
  passed_by_rule,
}

module _ (net : Net) (rs : Ruleset) (p : Packet) where
  -- A packet to the server of an endpoint, over its tunnel's transport.
  abbrev pub reaches : KillSwitchTunnel → Bytes → Bool
  reaches t ep =
      reaches_host (is_tcp net t) (host_and_port net ep).0 p
      && (is_empty (host_and_port net ep).1 || has_port (host_and_port net ep).1 p.port)

  -- What the kill switch is meant to let through.
  pub data Allowed : Type 0 where
    loopback : is_loopback p ≡ true → Allowed
    housekeeping : (is_dhcp p || is_neighbour p) ≡ true → Allowed
    lookup : (s : Bytes) → Memᴰ s rs.dns_lookup_servers → is_query_to s p ≡ true → Allowed
    on_tunnel :
        (t : KillSwitchTunnel)
        → Memᴰ t rs.tunnels
        → is_empty t.interface_name ≡ false
        → p.interface ≡ t.interface_name
        → Allowed
    to_server :
        (t : KillSwitchTunnel) (ep : Bytes)
        → Memᴰ t rs.tunnels
        → Memᴰ ep t.endpoints
        → reaches t ep ≡ true
        → Allowed

  abbrev Fine : Rule → Type 0
  Fine = Justified net rs p Allowed

  dns_section-All :
      (b : Bool) (ifaces : List Bytes)
      → All (IsTunnelInterface net rs p Allowed) ifaces
      → OnOk (All Fine) (dns_section net b rs ifaces)
  unfolding dns_section decide
  dns_section-All false ifaces h = tt
  dns_section-All true ifaces h =
      OnOk-bind (All Fine) _ (dns_server_rules net ifaces rs.dns_servers) _
        (dns_server_rules-All net rs p Allowed ifaces rs.dns_servers h
          (λ s m ifc (t, in_rs, ne, named) at q. on_tunnel t in_rs ne (at ∙ sym named)))
        (λ rules k. All-append Fine rules (block_dns ∷ []) k (λ e. absurd (ground arith), tt))

  endpoint_rule-All :
      (over_tcp : Bool) (ip port : Bytes)
      → ((reaches_host over_tcp ip p && (is_empty port || has_port port p.port)) ≡ true → Allowed)
      → OnOk (All Fine) (endpoint_rule net over_tcp (ip, port))
  unfolding endpoint_rule decide
  endpoint_rule-All over_tcp [] port just = tt
  endpoint_rule-All over_tcp (c ∷ ip) [] just = elim (Bool-cases (net.is_ip (c ∷ ip))) [
    | inl valid ↦ rw valid (λ e. just (ground arith), tt)
    | inr invalid ↦ rw invalid tt
  ]
  endpoint_rule-All over_tcp (c ∷ ip) (d ∷ port) just = elim (Bool-cases (net.is_ip (c ∷ ip))) [
    | inl valid ↦ elim (Bool-cases (valid_port (d ∷ port))) [
      | inl in_range ↦ rw (valid, in_range) (λ e. just (ground arith), tt)
      | inr out ↦ rw (valid, out) tt
    ]
    | inr invalid ↦ rw invalid tt
  ]

  endpoint_rules-All :
      (t : KillSwitchTunnel) (eps : List Bytes)
      → Memᴰ t rs.tunnels
      → ((ep : Bytes) → Memᴰ ep eps → Memᴰ ep t.endpoints)
      → OnOk (All Fine) (endpoint_rules net (is_tcp net t) eps)
  unfolding endpoint_rules
  endpoint_rules-All t [] m sub = tt
  endpoint_rules-All t (ep ∷ eps) m sub =
      OnOk-bind (All Fine) _ (endpoint_rule net (is_tcp net t) (host_and_port net ep)) _
        (endpoint_rule-All (is_tcp net t) (host_and_port net ep).0 (host_and_port net ep).1
          (λ e. to_server t ep m (sub ep (Memᴰ.head refl)) e))
        (λ here h.
          OnOk-bind (All Fine) _ (endpoint_rules net (is_tcp net t) eps) _
            (endpoint_rules-All t eps m (λ x n. sub x (Memᴰ.tail n)))
            (λ rest k. All-append Fine here rest h k))

  tunnel_rules-All :
      (ts : List KillSwitchTunnel)
      → ((t : KillSwitchTunnel) → Memᴰ t ts → Memᴰ t rs.tunnels)
      → OnOk (All Fine) (tunnel_rules net ts)
  unfolding tunnel_rules
  tunnel_rules-All [] sub = tt
  tunnel_rules-All (t ∷ ts) sub =
      OnOk-bind (All Fine) _ (endpoint_rules net (is_tcp net t) t.endpoints) _
        (endpoint_rules-All t t.endpoints (sub t (Memᴰ.head refl)) (λ ep n. n))
        (λ here h.
          OnOk-bind (All Fine) _ (tunnel_rules net ts) _
            (tunnel_rules-All ts (λ x n. sub x (Memᴰ.tail n)))
            (λ rest k. All-append Fine here rest h k))

  pass_interface-All :
      (ifaces : List Bytes)
      → All (IsTunnelInterface net rs p Allowed) ifaces
      → All Fine (map pass_interface ifaces)
  unfolding decide
  pass_interface-All [] h = tt
  pass_interface-All (ifc ∷ ifaces) ((t, m, ne, named), h) = (
    λ e. on_tunnel t m ne (ground (arith, equal_iff p.interface ifc)),
    pass_interface-All ifaces h,
  )

  housekeeping-All : All Fine (pass_dhcp ∷ pass_dhcpv6 ∷ pass_neighbour ∷ [])
  unfolding decide
  housekeeping-All = (
    λ e. housekeeping (ground arith),
    (λ e. housekeeping (ground arith), (λ e. housekeeping (ground arith), tt)),
  )

  head_rules-All : (b : Bool) → All Fine (head_rules net b)
  unfolding decide
  head_rules-All true = (λ e. cc, (λ e. cc, (λ e. cc, (λ e. loopback (ground arith), tt))))
  head_rules-All false = (λ e. cc, (λ e. loopback (ground arith), tt))

  -- The rules under a kill switch: justified ones, and then the two blocks.
  abbrev EndsBlocked : List Rule → Type 0
  EndsBlocked rules =
      (passes : List Rule) × (rules ≡ passes ++ (block_out ∷ block_in ∷ [])) × All Fine passes

  kill_switch_section-EndsBlocked :
      (ifaces : List Bytes)
      → All (IsTunnelInterface net rs p Allowed) ifaces
      → OnOk EndsBlocked (kill_switch_section net true rs ifaces)
  unfolding kill_switch_section
  kill_switch_section-EndsBlocked ifaces h =
      OnOk-bind (All Fine) EndsBlocked (tunnel_rules net rs.tunnels) _
        (tunnel_rules-All rs.tunnels (λ t m. m))
        (λ rules k. (
          rules ++ (pass_dhcp ∷ pass_dhcpv6 ∷ pass_neighbour ∷ map pass_interface ifaces),
          sym (append_assoc rules _ _),
          All-append Fine rules _ k (
            housekeeping-All.0,
            (housekeeping-All.1.0, (housekeeping-All.1.1.0, pass_interface-All ifaces h)),
          ),
        ))

  regroup :
      (a b c d e : List Rule)
      → e ≡ d ++ (block_out ∷ block_in ∷ [])
      → a ++ (b ++ (c ++ e)) ≡ (a ++ (b ++ (c ++ d))) ++ (block_out ∷ block_in ∷ [])
  regroup a b c d e ends = rw ends (simp append_assoc)

  build_sections-EndsBlocked :
      (enforces : Bool) → OnOk EndsBlocked (build_sections net true enforces rs)
  unfolding build_sections
  build_sections-EndsBlocked enforces =
      OnOk-bind (All (IsTunnelInterface net rs p Allowed)) EndsBlocked (collect_ifaces rs.tunnels) _
        (collect_ifaces-All net rs p Allowed rs.tunnels (λ t m. m))
        (λ ifaces are.
          OnOk-bind (All Fine) EndsBlocked (lookup_rules net rs.dns_lookup_servers) _
            (lookup_rules-All net rs p Allowed rs.dns_lookup_servers lookup)
            (λ lookups h.
              OnOk-bind (All Fine) EndsBlocked (dns_section net enforces rs ifaces) _
                (dns_section-All enforces ifaces are)
                (λ dns k.
                  OnOk-bind EndsBlocked EndsBlocked (kill_switch_section net true rs ifaces) _
                    (kill_switch_section-EndsBlocked ifaces are)
                    (λ rest (passes, ends, fine). (
                      head_rules net true ++ (lookups ++ (dns ++ passes)),
                      regroup (head_rules net true) lookups dns passes rest ends,
                      All-append Fine (head_rules net true) _ (head_rules-All true)
                          (All-append Fine lookups _ h (All-append Fine dns passes k fine)),
                    )))))

  -- With the kill switch on, a packet that the rules of BuildRules let through is loopback traffic,
  -- DHCP or neighbour discovery, a DNS query to a lookup server of the ruleset, traffic on the
  -- interface of one of its tunnels, or traffic to an endpoint of one of its tunnels.
  pub kill_switch_sound :
      (rules : List Rule)
      → rs.kill_switch ≡ true
      → build_lines net rs ≡ ok rules
      → verdict rules p ≡ true
      → Allowed
  unfolding build_lines verdict
  kill_switch_sound rules on built passes =
      let (fine, ends, are) =
        OnOk-apply EndsBlocked (build_sections net true (enforces_dns rs) rs) {a = rules}
          (build_sections-EndsBlocked (enforces_dns rs)) (ground arith) in
      passed_by_rule Allowed fine p true are (subst (λ r. verdict r p ≡ true) ends passes)

-- ===== src/Firewall/Rules/Justified.antt =====
-- The rules of the sections of BuildRules, each with what it needs to be there.
use mathlib.Core.List.{Memᴰ}
use wireguide.Base.{
  true, false, List, [], ◌∷◌, some, ◌≡◌, refl, arith, All, All-append, Bool-cases, inl, inr, map,
}
use wireguide.Base.Bytes.{Bytes, equal_iff}
use wireguide.Base.Result.{OnOk, OnOk-bind}
use wireguide.Domain.{is_empty}
use wireguide.Net.{Net}
use wireguide.Firewall.Rules.{
  KillSwitchTunnel, Ruleset, Rule, pass_dns, valid_iface_name, reconnecting, collect_ifaces,
  lookup_rules, dns_server_rules,
}
use wireguide.Firewall.Rules.Verdict.{Packet, is_query_to, decide}

module _ (net : Net) (rs : Ruleset) (p : Packet) (Goal : Type 0) where
  -- A rule that passes the packet proves the goal.
  abbrev pub Justified : Rule → Type 0
  Justified r = decide r p ≡ some true → Goal

  -- An interface that the rules may name is that of a tunnel.
  abbrev pub IsTunnelInterface : Bytes → Type 0
  IsTunnelInterface ifc =
      (t : KillSwitchTunnel) × Memᴰ t rs.tunnels
      × (is_empty t.interface_name ≡ false)
      × (t.interface_name ≡ ifc)

  pub collect_ifaces-All :
      (ts : List KillSwitchTunnel)
      → ((t : KillSwitchTunnel) → Memᴰ t ts → Memᴰ t rs.tunnels)
      → OnOk (All IsTunnelInterface) (collect_ifaces ts)
  unfolding collect_ifaces
  collect_ifaces-All [] sub = tt
  collect_ifaces-All (t ∷ ts) sub = elim (Bool-cases (reconnecting t)) [
    | inl down ↦ rw down (collect_ifaces-All ts (λ x m. sub x (Memᴰ.tail m)))
    | inr up ↦ elim (Bool-cases (valid_iface_name t.interface_name)) [
      | inl valid ↦
          rw (up, valid)
            (OnOk-bind (All IsTunnelInterface) _ (collect_ifaces ts) _
              (collect_ifaces-All ts (λ x m. sub x (Memᴰ.tail m)))
              (λ ifaces h. ((t, sub t (Memᴰ.head refl), up, refl), h)))
      | inr invalid ↦ rw (up, invalid) tt
    ]
  ]

  pub lookup_rules-All :
      (ss : List Bytes)
      → ((s : Bytes) → Memᴰ s ss → is_query_to s p ≡ true → Goal)
      → OnOk (All Justified) (lookup_rules net ss)
  unfolding lookup_rules decide
  lookup_rules-All [] just = tt
  lookup_rules-All (s ∷ ss) just = elim (Bool-cases (net.is_ip s)) [
    | inl valid ↦ rw valid (
        OnOk-bind (All Justified) _ (lookup_rules net ss) _
          (lookup_rules-All ss (λ x m. just x (Memᴰ.tail m)))
          (λ rules h. (λ e. just s (Memᴰ.head refl) (ground arith), h)))
    | inr invalid ↦ rw invalid tt
  ]

  -- What a pass of queries to `s` through a tunnel's interface has to give.
  abbrev pub ForServer : Bytes → Type 0
  ForServer s =
      (ifc : Bytes) → IsTunnelInterface ifc → p.interface ≡ ifc → is_query_to s p ≡ true → Goal

  pass_dns-All :
      (ifaces : List Bytes) (s : Bytes)
      → All IsTunnelInterface ifaces
      → ForServer s
      → All Justified (map (λ ifc. pass_dns ifc s) ifaces)
  unfolding decide
  pass_dns-All [] s h just = tt
  pass_dns-All (ifc ∷ ifaces) s (is, h) just = (
    λ e. just ifc is (ground (arith, equal_iff p.interface ifc)) (ground arith),
    pass_dns-All ifaces s h just,
  )

  pub dns_server_rules-All :
      (ifaces ss : List Bytes)
      → All IsTunnelInterface ifaces
      → ((s : Bytes) → Memᴰ s ss → ForServer s)
      → OnOk (All Justified) (dns_server_rules net ifaces ss)
  unfolding dns_server_rules
  dns_server_rules-All ifaces [] h just = tt
  dns_server_rules-All ifaces (s ∷ ss) h just = elim (Bool-cases (net.is_ip s)) [
    | inl valid ↦ rw valid (
        OnOk-bind (All Justified) _ (dns_server_rules net ifaces ss) _
          (dns_server_rules-All ifaces ss h (λ x m. just x (Memᴰ.tail m)))
          (λ rules k.
            All-append Justified _ rules (pass_dns-All ifaces s h (just s (Memᴰ.head refl))) k))
    | inr invalid ↦ rw invalid tt
  ]

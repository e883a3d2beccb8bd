-- ===== src/Firewall/Rules/Verdict.antt =====
-- What pf does with a packet under the rules, as pf.conf(5) documents it: the first `quick` rule that
-- matches decides; else the last rule that matches; a packet that none matches passes.
use wireguide.Base.{
  ℕ, Bool, true, false, ◌&&◌, ◌||◌, List, [], ◌∷◌, ◌++◌, Option, none, some, if◌then◌else◌, ◌==◌,
  leb, ◌≡◌, arith, All, Bool-cases, Option-cases, ap, ◌∙◌, inl, inr,
}
use wireguide.Base.Bytes.{Bytes, codes, equal}
use wireguide.Base.Decimal.{atoi}
use wireguide.Base.Int.{pos, negsuc}
use wireguide.Firewall.Rules.{
  Rule, pass_loopback, block_dns, pass_lookup, pass_dns, pass_endpoint, pass_endpoint_port,
  pass_dhcp, pass_dhcpv6, pass_neighbour, block_out, block_in, pass_interface,
}

pub data Transport : Type 0 where
  tcp udp : Transport
  icmp6 : ℕ → Transport
  other : Transport

pub record Packet : Type 0 where
  pub outbound : Bool
  pub interface : Bytes
  pub transport : Transport
  pub destination : Bytes
  pub source_port : ℕ
  pub port : ℕ

abbrev pub is_tcp_packet : Packet → Bool
is_tcp_packet p = elim p.transport [ tcp ↦ true | _ ↦ false ]

abbrev pub is_udp_packet : Packet → Bool
is_udp_packet p = elim p.transport [ udp ↦ true | _ ↦ false ]

-- DNS over either transport, going out
abbrev pub is_dns_query : Packet → Bool
is_dns_query p = p.outbound && ((is_tcp_packet p || is_udp_packet p) && p.port == 53)

abbrev pub is_query_to : Bytes → Packet → Bool
is_query_to server p = is_dns_query p && equal p.destination server

abbrev pub is_loopback : Packet → Bool
is_loopback p = equal p.interface (codes "lo0")

abbrev pub reaches_host : Bool → Bytes → Packet → Bool
reaches_host over_tcp ip p =
    p.outbound
    && ((if over_tcp then is_tcp_packet p else is_udp_packet p) && equal p.destination ip)

abbrev pub has_port : Bytes → ℕ → Bool
has_port text n = elim (atoi text) [
  | none ↦ false
  | some z ↦ (elim z [ pos k ↦ k == n | negsuc _ ↦ false ])
]

-- DHCP and DHCPv6 requests
abbrev pub is_dhcp : Packet → Bool
is_dhcp p =
    p.outbound
    && (is_udp_packet p
        && ((p.source_port == 68 && p.port == 67) || (p.source_port == 546 && p.port == 547)))

-- router and neighbour solicitation and advertisement
abbrev pub is_neighbour : Packet → Bool
is_neighbour p = elim p.transport [ icmp6 k ↦ leb 133 k && leb k 136 | _ ↦ false ]

abbrev when : Bool → Bool → Option Bool
when b verdict = if b then some verdict else none

-- A `quick` rule: whether it decides, and how.
unfoldable pub decide : Rule → Packet → Option Bool
decide pass_loopback p = when (is_loopback p) true
decide (pass_lookup s) p = when (is_query_to s p) true
decide (pass_dns ifc s) p = when (equal p.interface ifc && is_query_to s p) true
decide block_dns p = when (is_dns_query p) false
decide (pass_endpoint over_tcp ip) p = when (reaches_host over_tcp ip p) true
decide (pass_endpoint_port over_tcp ip port) p =
    when (reaches_host over_tcp ip p && has_port port p.port) true
decide pass_dhcp p =
    when (p.outbound && (is_udp_packet p && (p.source_port == 68 && p.port == 67))) true
decide pass_dhcpv6 p =
    when (p.outbound && (is_udp_packet p && (p.source_port == 546 && p.port == 547))) true
decide pass_neighbour p = when (is_neighbour p) true
decide (pass_interface ifc) p = when (equal p.interface ifc) true
decide _ p = none

-- A rule that is not `quick` only changes what the last match says.
abbrev pub last_match : Bool → Rule → Packet → Bool
last_match so_far block_out p = if p.outbound then false else so_far
last_match so_far block_in p = if p.outbound then so_far else false
last_match so_far _ p = so_far

unfoldable pub verdict_from : Bool → List Rule → Packet → Bool
unfolding decide
verdict_from so_far [] p = so_far
verdict_from so_far (r ∷ rules) p =
    let rest = verdict_from (last_match so_far r p) rules p in
    elim (decide r p) [ some b ↦ b | none ↦ rest ]

-- Whether the packet passes.
unfoldable pub verdict : List Rule → Packet → Bool
unfolding verdict_from
verdict = verdict_from true

-- A packet that passes rules that end in the two blocks was passed by a rule before them.
pub passed_by_rule {ℓ} :
    (P : Type ℓ) (rules : List Rule) (p : Packet) (so_far : Bool)
    → All (λ r. decide r p ≡ some true → P) rules
    → verdict_from so_far (rules ++ (block_out ∷ block_in ∷ [])) p ≡ true
    → P
unfolding verdict_from
passed_by_rule P [] p so_far h passes = absurd (ground arith)
passed_by_rule P (r ∷ rules) p so_far h passes = elim (Option-cases (decide r p)) [
  | inl silent ↦ passed_by_rule P rules p (last_match so_far r p) h.1 (ground arith)
  | inr (b, decided) ↦ elim (Bool-cases b) [
    | inl pass ↦ h.0 (decided ∙ ap some pass)
    | inr block ↦ absurd (ground arith)
  ]
]

-- A packet that passes rules in which some rule blocks it was passed by a rule before that one.
pub passed_before_block {ℓ} :
    (P : Type ℓ) (rules rest : List Rule) (block : Rule) (p : Packet) (so_far : Bool)
    → All (λ r. decide r p ≡ some true → P) rules
    → decide block p ≡ some false
    → verdict_from so_far (rules ++ (block ∷ rest)) p ≡ true
    → P
unfolding verdict_from
passed_before_block P [] rest block p so_far h blocks passes = absurd (ground arith)
passed_before_block P (r ∷ rules) rest block p so_far h blocks passes =
    elim (Option-cases (decide r p)) [
      | inl silent ↦
          passed_before_block P rules rest block p (last_match so_far r p) h.1 blocks (ground arith)
      | inr (b, decided) ↦ elim (Bool-cases b) [
        | inl pass ↦ h.0 (decided ∙ ap some pass)
        | inr stop ↦ absurd (ground arith)
      ]
    ]

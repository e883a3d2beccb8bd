-- ===== src/Firewall/Rules/DnsProtection.antt =====
-- What the rules of BuildRules let through of DNS.
use mathlib.Core.Path.{subst}
use mathlib.Core.List.{Memᴰ, append_assoc}
use wireguide.Base.{
  Bool, true, false, List, [], ◌∷◌, ◌++◌, ◌≡◌, refl, sym, ◌∙◌, arith, All, All-append,
}
use wireguide.Base.Bytes.{Bytes}
use wireguide.Base.Result.{Result, ok, err, OnOk, OnOk-bind, OnOk-apply}
use wireguide.Domain.{is_empty}
use wireguide.Net.{Net}
use wireguide.Firewall.Rules.{
  KillSwitchTunnel, Ruleset, Rule, block_dns, enforces_dns, collect_ifaces, lookup_rules,
  dns_server_rules, dns_section, kill_switch_section, head_rules, build_sections, build_lines,
}
use wireguide.Firewall.Rules.Justified.{
  Justified, IsTunnelInterface, collect_ifaces-All, lookup_rules-All, dns_server_rules-All,
}
use wireguide.Firewall.Rules.Verdict.{
  Packet, is_query_to, is_dns_query, is_loopback, decide, verdict, passed_before_block,
}

anything {ℓ} : {E A : Type ℓ} (m : Result E A) → OnOk (λ _. Unit {0}) m
anything (ok a) = tt
anything (err e) = tt

module _ (net : Net) (rs : Ruleset) (p : Packet) where
  -- What DNS protection is meant to let through.
  pub data AllowedQuery : Type 0 where
    loopback : is_loopback p ≡ true → AllowedQuery
    lookup : (s : Bytes) → Memᴰ s rs.dns_lookup_servers → is_query_to s p ≡ true → AllowedQuery
    through_tunnel :
        (s : Bytes) (t : KillSwitchTunnel)
        → Memᴰ s rs.dns_servers
        → is_query_to s p ≡ true
        → Memᴰ t rs.tunnels
        → is_empty t.interface_name ≡ false
        → p.interface ≡ t.interface_name
        → AllowedQuery

  abbrev Fine : Rule → Type 0
  Fine = Justified net rs p AllowedQuery

  abbrev AreInterfaces : List Bytes → Type 0
  AreInterfaces = All (IsTunnelInterface net rs p AllowedQuery)

  -- Justified rules, and then the block of all DNS.
  abbrev BlocksDns : List Rule → Type 0
  BlocksDns rules =
      (passes : List Rule) × (rest : List Rule) × (rules ≡ passes ++ (block_dns ∷ rest))
      × All Fine passes

  dns_section-BlocksDns :
      (ifaces : List Bytes) → AreInterfaces ifaces → OnOk BlocksDns (dns_section net true rs ifaces)
  unfolding dns_section
  dns_section-BlocksDns ifaces are =
      OnOk-bind (All Fine) BlocksDns (dns_server_rules net ifaces rs.dns_servers) _
        (dns_server_rules-All net rs p AllowedQuery ifaces rs.dns_servers are
          (λ s m ifc (t, in_rs, ne, named) at q. through_tunnel s t m q in_rs ne (at ∙ sym named)))
        (λ rules k. (rules, [], refl, k))

  head_rules-All : (b : Bool) → All Fine (head_rules net b)
  unfolding decide
  head_rules-All true = (λ e. cc, (λ e. cc, (λ e. cc, (λ e. loopback (ground arith), tt))))
  head_rules-All false = (λ e. cc, (λ e. loopback (ground arith), tt))

  regroup :
      (a b c d e f : List Rule)
      → c ≡ d ++ (block_dns ∷ f)
      → a ++ (b ++ (c ++ e)) ≡ (a ++ (b ++ d)) ++ (block_dns ∷ (f ++ e))
  regroup a b c d e f split = rw split (simp append_assoc)

  build_sections-BlocksDns : (on : Bool) → OnOk BlocksDns (build_sections net on true rs)
  unfolding build_sections
  build_sections-BlocksDns on =
      OnOk-bind AreInterfaces BlocksDns (collect_ifaces rs.tunnels) _
        (collect_ifaces-All net rs p AllowedQuery rs.tunnels (λ t m. m))
        (λ ifaces are.
          OnOk-bind (All Fine) BlocksDns (lookup_rules net rs.dns_lookup_servers) _
            (lookup_rules-All net rs p AllowedQuery rs.dns_lookup_servers lookup)
            (λ lookups h.
              OnOk-bind BlocksDns BlocksDns (dns_section net true rs ifaces) _
                (dns_section-BlocksDns ifaces are)
                (λ dns (passes, more, split, fine).
                  OnOk-bind (λ _. Unit {0}) BlocksDns (kill_switch_section net on rs ifaces) _
                    (anything (kill_switch_section net on rs ifaces))
                    (λ rest _. (
                      head_rules net on ++ (lookups ++ passes),
                      more ++ rest,
                      regroup (head_rules net on) lookups dns passes rest more split,
                      All-append Fine (head_rules net on) _ (head_rules-All on)
                          (All-append Fine lookups passes h fine),
                    )))))

  -- Where the ruleset enforces DNS protection, an outgoing DNS query that the rules of BuildRules
  -- let through is on the loopback interface, goes to a lookup server of the ruleset, or goes to one
  -- of its DNS servers on the interface of one of its tunnels, with the kill switch on or off.
  pub dns_protection_sound :
      (rules : List Rule)
      → enforces_dns rs ≡ true
      → build_lines net rs ≡ ok rules
      → is_dns_query p ≡ true
      → verdict rules p ≡ true
      → AllowedQuery
  unfolding build_lines verdict decide
  dns_protection_sound rules enforced built query passes =
      let (fine, rest, split, are) =
        OnOk-apply BlocksDns (build_sections net rs.kill_switch true rs) {a = rules}
          (build_sections-BlocksDns rs.kill_switch) (ground arith) in
      passed_before_block AllowedQuery fine rest block_dns p true are (ground arith)
        (subst (λ r. verdict r p ≡ true) split passes)

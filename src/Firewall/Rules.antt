-- ===== src/Firewall/Rules.antt =====
-- internal/firewall/rules.go and interface.go. A line that BuildRules writes is a `Rule`; `render`
-- is its text. The errors keep which check failed.
pub mod Verdict
pub mod Justified
pub mod DnsProtection
pub mod KillSwitch
use wireguide.Base.{
  ℕ, zero, suc, Bool, true, false, not, ◌&&◌, ◌||◌, List, [], ◌∷◌, ◌++◌, Option, none, some,
  if◌then◌else◌, any, map, leb, ltb, ◌==◌, all,
}
use wireguide.Base.Bytes.{Bytes, codes, equal, has_prefix}
use wireguide.Base.Decimal.{atoi, is_digit}
use wireguide.Base.Int.{ℤ, pos, ltb_ℤ}
use wireguide.Base.Result.{Result, ok, err, ◌>>=◌}
use wireguide.Domain.{is_empty}
use wireguide.Net.{Net}

-- KillSwitchTunnel
pub record KillSwitchTunnel : Type 0 where
  pub interface_name : Bytes
  pub proto : Bytes
  pub endpoints : List Bytes

pub record Ruleset : Type 0 where
  pub kill_switch : Bool
  pub tunnels : List KillSwitchTunnel
  pub dns_protection : Bool
  pub dns_servers : List Bytes
  pub dns_lookup_servers : List Bytes

pub data RuleError : Type 0 where
  bad_interface bad_lookup_server bad_dns_server bad_endpoint bad_port : Bytes → RuleError

pub data Rule : Type 0 where
  header scrub_in scrub_out pass_loopback block_dns : Rule
  pass_lookup : Bytes → Rule
  pass_dns : Bytes → Bytes → Rule
  pass_endpoint : Bool → Bytes → Rule
  pass_endpoint_port : Bool → Bytes → Bytes → Rule
  pass_dhcp pass_dhcpv6 pass_neighbour block_out block_in : Rule
  pass_interface : Bytes → Rule

-- `proto` and `flags`, by whether the transport is TCP
abbrev pub proto_text : Bool → Bytes
proto_text true = codes "tcp"
proto_text false = codes "udp"

abbrev pub flags_text : Bool → Bytes
flags_text true = codes " flags any"
flags_text false = []

-- The text of a line.
unfoldable pub render : Rule → Bytes
render header = codes "# LockPlus\n"
render scrub_in = codes "scrub in all fragment reassemble\n"
render scrub_out = codes "scrub out all fragment reassemble\n"
render pass_loopback = codes "pass quick on lo0 all\n"
render (pass_lookup s) =
    codes "pass out quick proto {tcp, udp} to " ++ (s ++ codes " port 53 flags any\n")
render (pass_dns ifc s) =
    codes "pass out quick on "
    ++ (ifc ++ (codes " proto {tcp, udp} to " ++ (s ++ codes " port 53 flags any\n")))
render block_dns = codes "block drop out quick proto {tcp, udp} to any port 53\n"
render (pass_endpoint tcp ip) =
    codes "pass out quick proto "
    ++ (proto_text tcp ++ (codes " to " ++ (ip ++ (flags_text tcp ++ codes "\n"))))
render (pass_endpoint_port tcp ip port) =
    codes "pass out quick proto "
    ++ (proto_text tcp
        ++ (codes " to " ++ (ip ++ (codes " port " ++ (port ++ (flags_text tcp ++ codes "\n"))))))
render pass_dhcp = codes "pass out quick proto udp from any port 68 to any port 67\n"
render pass_dhcpv6 = codes "pass out quick proto udp from any port 546 to any port 547\n"
render pass_neighbour = codes "pass quick inet6 proto ipv6-icmp icmp6-type {133, 134, 135, 136}\n"
render (pass_interface ifc) = codes "pass quick on " ++ (ifc ++ codes " all\n")
render block_out = codes "block drop out all\n"
render block_in = codes "block drop in all\n"

unfoldable pub render_all : List Rule → Bytes
unfolding render
render_all [] = []
render_all (r ∷ rs) = render r ++ render_all rs

abbrev pub is_lower : ℕ → Bool
is_lower c = leb b'a' c && leb c b'z'

-- `^[a-z]+[0-9]+$`: past the first letter, and past the first digit behind the letters
unfoldable pub digits_to_end : Bytes → Bool
digits_to_end [] = true
digits_to_end (c ∷ s) = is_digit c && digits_to_end s

unfoldable pub letters_then_digits : Bytes → Bool
unfolding digits_to_end
letters_then_digits [] = false
letters_then_digits (c ∷ s) =
    let rest = letters_then_digits s in if is_lower c then rest else digits_to_end (c ∷ s)

-- validIfaceName.MatchString
unfoldable pub valid_iface_name : Bytes → Bool
unfolding letters_then_digits
valid_iface_name [] = false
valid_iface_name (c ∷ s) = is_lower c && letters_then_digits s

-- validatePort: whether it returns nil
unfoldable pub valid_port : Bytes → Bool
unfolding atoi
valid_port port = elim (atoi port) [
  | none ↦ false
  | some n ↦ not (ltb_ℤ n (pos 1)) && not (ltb_ℤ (pos 65535) n)
]

abbrev pub reconnecting : KillSwitchTunnel → Bool
reconnecting t = is_empty t.interface_name

abbrev pub no_strings : List Bytes → Bool
no_strings [] = true
no_strings (_ ∷ _) = false

-- enforcesDNS
unfoldable pub enforces_dns : Ruleset → Bool
enforces_dns rs =
    rs.dns_protection && (not (no_strings rs.dns_servers) || any reconnecting rs.tunnels)

-- the loop that collects `ifaces`
unfoldable pub collect_ifaces : List KillSwitchTunnel → Result RuleError (List Bytes)
unfolding valid_iface_name
collect_ifaces [] = ok []
collect_ifaces (t ∷ ts) =
    let rest = collect_ifaces ts in
    if reconnecting t
    then rest
    else if valid_iface_name t.interface_name
    then (do ifaces ← rest; ok (t.interface_name ∷ ifaces))
    else err (bad_interface t.interface_name)

module _ (net : Net) where
  unfoldable pub lookup_rules : List Bytes → Result RuleError (List Rule)
  lookup_rules [] = ok []
  lookup_rules (s ∷ ss) =
      let rest = lookup_rules ss in
      if net.is_ip s
      then (do rules ← rest; ok (pass_lookup s ∷ rules))
      else err (bad_lookup_server s)

  unfoldable pub dns_server_rules : List Bytes → List Bytes → Result RuleError (List Rule)
  dns_server_rules ifaces [] = ok []
  dns_server_rules ifaces (s ∷ ss) =
      let rest = dns_server_rules ifaces ss in
      if net.is_ip s
      then (do rules ← rest; ok (map (λ ifc. pass_dns ifc s) ifaces ++ rules))
      else err (bad_dns_server s)

  -- the section under `if dns`
  unfoldable pub dns_section : Bool → Ruleset → List Bytes → Result RuleError (List Rule)
  unfolding dns_server_rules
  dns_section false rs ifaces = ok []
  dns_section true rs ifaces = do
    rules ← dns_server_rules ifaces rs.dns_servers
    ok (rules ++ block_dns ∷ [])

  -- `ip, port, err := net.SplitHostPort(ep)`, with the bare IP on the error
  abbrev pub host_and_port : Bytes → Bytes × Bytes
  host_and_port ep = elim (net.split_host_port ep) [ none ↦ (ep, []) | some hp ↦ hp ]

  -- the body of the loop over endpoints: a rule, none for an empty host, or an error
  unfoldable pub endpoint_rule : Bool → Bytes × Bytes → Result RuleError (List Rule)
  unfolding valid_port
  endpoint_rule tcp (ip, port) =
      if is_empty ip
      then ok []
      else if not (net.is_ip ip)
      then err (bad_endpoint ip)
      else if is_empty port
      then ok (pass_endpoint tcp ip ∷ [])
      else if valid_port port
      then ok (pass_endpoint_port tcp ip port ∷ [])
      else err (bad_port port)

  unfoldable pub endpoint_rules : Bool → List Bytes → Result RuleError (List Rule)
  unfolding endpoint_rule
  endpoint_rules tcp [] = ok []
  endpoint_rules tcp (ep ∷ eps) = do
    here ← endpoint_rule tcp (host_and_port ep)
    rest ← endpoint_rules tcp eps
    ok (here ++ rest)

  -- `strings.HasPrefix(t.Proto, "tcp")`
  abbrev pub is_tcp : KillSwitchTunnel → Bool
  is_tcp t = has_prefix t.proto (codes "tcp")

  unfoldable pub tunnel_rules : List KillSwitchTunnel → Result RuleError (List Rule)
  unfolding endpoint_rules
  tunnel_rules [] = ok []
  tunnel_rules (t ∷ ts) = do
    here ← endpoint_rules (is_tcp t) t.endpoints
    rest ← tunnel_rules ts
    ok (here ++ rest)

  abbrev pub tail_rules : List Bytes → List Rule
  tail_rules ifaces =
      pass_dhcp
      ∷ pass_dhcpv6
      ∷ pass_neighbour
      ∷ (map pass_interface ifaces ++ (block_out ∷ block_in ∷ []))

  -- the section behind `if !rs.KillSwitch`
  unfoldable pub kill_switch_section : Bool → Ruleset → List Bytes → Result RuleError (List Rule)
  unfolding tunnel_rules
  kill_switch_section false rs ifaces = ok []
  kill_switch_section true rs ifaces = do
    rules ← tunnel_rules rs.tunnels
    ok (rules ++ tail_rules ifaces)

  abbrev pub head_rules : Bool → List Rule
  head_rules true = header ∷ scrub_in ∷ scrub_out ∷ pass_loopback ∷ []
  head_rules false = header ∷ pass_loopback ∷ []

  -- the body of BuildRules; the flags are `rs.KillSwitch` and `dns`
  unfoldable pub build_sections : Bool → Bool → Ruleset → Result RuleError (List Rule)
  unfolding collect_ifaces lookup_rules dns_section kill_switch_section
  build_sections kill_switch enforces rs = do
    ifaces ← collect_ifaces rs.tunnels
    lookups ← lookup_rules rs.dns_lookup_servers
    dns ← dns_section enforces rs ifaces
    rest ← kill_switch_section kill_switch rs ifaces
    ok (head_rules kill_switch ++ (lookups ++ (dns ++ rest)))

  -- the lines that BuildRules writes, in order
  unfoldable pub build_lines : Ruleset → Result RuleError (List Rule)
  unfolding enforces_dns build_sections
  build_lines rs =
      if not rs.kill_switch && not (enforces_dns rs)
      then ok []
      else build_sections rs.kill_switch (enforces_dns rs) rs

  -- BuildRules
  unfoldable pub build_rules : Ruleset → Result RuleError Bytes
  unfolding build_lines render_all
  build_rules rs = do rules ← build_lines rs; ok (render_all rules)

-- ===== src/Ovpn/Dns.antt =====
-- dnsConfig of internal/ovpn/config.go: the DNS options of a profile and of what the server pushes.
-- The map of servers is a list with one entry for each priority.
pub mod Entries
use wireguide.Base.{
  ℕ, Bool, true, false, not, ◌&&◌, ◌||◌, List, [], ◌∷◌, ◌++◌, Option, none, some, if◌then◌else◌,
}
use wireguide.Base.Bytes.{Bytes, codes, equal, contains}
use wireguide.Base.Decimal.{atoi}
use wireguide.Base.Int.{ℤ, ltb_ℤ}
use wireguide.Domain.{is_empty}
use wireguide.Net.{Net}

abbrev pub Servers : Type 0
Servers = List (ℤ × List Bytes)

pub record DnsConfig : Type 0 where
  pub servers : Servers
  pub search : List Bytes
  pub dhcp_servers : List Bytes
  pub dhcp_domains : List Bytes
  pub touched : Bool

abbrev pub no_dns : DnsConfig
no_dns = record { servers = []; search = []; dhcp_servers = []; dhcp_domains = []; touched = false }

abbrev eq_ℤ : ℤ → ℤ → Bool
eq_ℤ a b = not (ltb_ℤ a b || ltb_ℤ b a)

-- `c.servers[prio] = append(c.servers[prio], ip)`
unfoldable pub append_server : Servers → ℤ → Bytes → Servers
append_server [] prio ip = (prio, ip ∷ []) ∷ []
append_server ((k, ips) ∷ m) prio ip =
    let rest = append_server m prio ip in
    if eq_ℤ k prio then (k, ips ++ ip ∷ []) ∷ m else (k, ips) ∷ rest

-- `out.servers[k] = v`
unfoldable pub put_servers : Servers → ℤ → List Bytes → Servers
put_servers [] k v = (k, v) ∷ []
put_servers ((j, w) ∷ m) k v =
    let rest = put_servers m k v in if eq_ℤ j k then (j, v) ∷ m else (j, w) ∷ rest

unfoldable pub put_all : Servers → Servers → Servers
unfolding put_servers
put_all m [] = m
put_all m ((k, v) ∷ more) = put_all (put_servers m k v) more

module _ (net : Net) where
  abbrev host_or_nothing : Option (Bytes × Bytes) → Bytes
  host_or_nothing none = []
  host_or_nothing (some (host, _)) = if net.is_ip host then host else []

  -- stripDNSPort
  unfoldable pub strip_dns_port : Bytes → Bytes
  strip_dns_port s = if net.is_ip s then s else host_or_nothing (net.split_host_port s)

  unfoldable pub add_addresses : ℤ → List Bytes → Servers → Servers
  unfolding strip_dns_port append_server
  add_addresses prio [] m = m
  add_addresses prio (a ∷ addresses) m =
      let ip = strip_dns_port a in
      add_addresses prio addresses (if is_empty ip then m else append_server m prio ip)

  abbrev at_priority : Option ℤ → List Bytes → DnsConfig → DnsConfig
  at_priority none addresses c = c
  at_priority (some prio) addresses c = record c {
    servers = add_addresses prio addresses c.servers;
  }

  abbrev add_search : List Bytes → DnsConfig → DnsConfig
  add_search (a ∷ b ∷ domains) c =
      if equal a (codes "search-domains")
      then record c { search = c.search ++ (b ∷ domains) }
      else c
  add_search _ c = c

  -- the case "dns"
  unfoldable pub add_dns : List Bytes → DnsConfig → DnsConfig
  unfolding equal atoi add_addresses
  add_dns (a ∷ p ∷ b ∷ x ∷ addresses) c =
      if equal a (codes "server") && equal b (codes "address")
      then at_priority (atoi p) (x ∷ addresses) c
      else add_search (a ∷ p ∷ b ∷ x ∷ addresses) c
  add_dns args c = add_search args c

  -- the case "dhcp-option"
  unfoldable pub add_dhcp : List Bytes → DnsConfig → DnsConfig
  unfolding contains
  add_dhcp (a ∷ v ∷ _) c =
      if contains (codes "DNS" ∷ codes "DNS6" ∷ []) a
      then record c { dhcp_servers = c.dhcp_servers ++ v ∷ [] }
      else if contains (codes "DOMAIN" ∷ codes "DOMAIN-SEARCH" ∷ []) a
      then record c { dhcp_domains = c.dhcp_domains ++ v ∷ [] }
      else c
  add_dhcp _ c = c

  -- add
  unfoldable pub add_option : Bytes → List Bytes → DnsConfig → DnsConfig
  unfolding add_dns add_dhcp equal
  add_option name args c =
      let touched : DnsConfig = record c { touched = true } in
      if equal name (codes "dhcp-option")
      then add_dhcp args touched
      else if equal name (codes "dns")
      then add_dns args touched
      else touched

-- merge, with the receiver first
unfoldable pub merge : DnsConfig → DnsConfig → DnsConfig
unfolding put_all
merge c pushed = record {
  servers = put_all (put_all [] c.servers) pushed.servers;
  search = c.search ++ pushed.search;
  dhcp_servers = c.dhcp_servers ++ pushed.dhcp_servers;
  dhcp_domains = c.dhcp_domains ++ pushed.dhcp_domains;
  touched = false;
}

-- the closure `add`, where `seen` is what is listed
unfoldable pub add_unseen : List Bytes → List Bytes → List Bytes
unfolding contains
add_unseen out [] = out
add_unseen out (v ∷ vs) =
    add_unseen (if is_empty v || contains out v then out else out ++ v ∷ []) vs

-- sort.Ints of the priorities, with their servers
unfoldable pub insert_priority : ℤ × List Bytes → Servers → Servers
insert_priority p [] = p ∷ []
insert_priority (k, v) ((j, w) ∷ m) =
    let rest = insert_priority (k, v) m in if ltb_ℤ j k then (j, w) ∷ rest else (k, v) ∷ (j, w) ∷ m

unfoldable pub sort_priorities : Servers → Servers
unfolding insert_priority
sort_priorities [] = []
sort_priorities (p ∷ m) = insert_priority p (sort_priorities m)

unfoldable pub add_servers : List Bytes → Servers → List Bytes
unfolding add_unseen
add_servers out [] = out
add_servers out ((_, v) ∷ m) = add_servers (add_unseen out v) m

abbrev entries_by : Servers → DnsConfig → List Bytes
entries_by [] c = add_unseen (add_unseen [] c.dhcp_servers) c.dhcp_domains
entries_by (p ∷ m) c = add_unseen (add_servers [] (sort_priorities (p ∷ m))) c.search

-- entries
unfoldable pub entries : DnsConfig → List Bytes
unfolding add_unseen add_servers sort_priorities
entries c = entries_by c.servers c

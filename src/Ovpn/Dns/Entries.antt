-- ===== src/Ovpn/Dns/Entries.antt =====
-- What dnsConfig.entries of internal/ovpn/config.go hands to the network.
use wireguide.Base.{
  Bool, true, false, not, ◌&&◌, ◌||◌, List, [], ◌∷◌, ◌++◌, if◌then◌else◌, ◌≡◌, refl, arith,
}
use wireguide.Base.Bytes.{Bytes, contains, contains-append, equal_iff}
use wireguide.Domain.{is_empty}
use wireguide.Ovpn.Dns.{
  Servers, DnsConfig, add_unseen, add_servers, entries, entries_by, sort_priorities,
}

-- No entry is empty or stands twice.
abbrev pub is_clean : List Bytes → Bool
is_clean [] = true
is_clean (v ∷ vs) = not (is_empty v) && (not (contains vs v) && is_clean vs)

is_clean-snoc :
    (out : List Bytes) (v : Bytes)
    → is_clean out ≡ true
    → is_empty v ≡ false
    → contains out v ≡ false
    → is_clean (out ++ v ∷ []) ≡ true
unfolding contains
is_clean-snoc [] v h e k = ground arith
is_clean-snoc (x ∷ out) v h e k =
    ground
      (arith, is_clean-snoc out v, contains-append out (v ∷ []) x, equal_iff v x, equal_iff x v)

is_clean-add_unseen :
    (out vs : List Bytes) → is_clean out ≡ true → is_clean (add_unseen out vs) ≡ true
unfolding add_unseen
is_clean-add_unseen out [] h = h
is_clean-add_unseen out (v ∷ vs) h =
    is_clean-add_unseen (if is_empty v || contains out v then out else out ++ v ∷ []) vs
      (ground (arith, is_clean-snoc out v h))

is_clean-add_servers :
    (out : List Bytes) (m : Servers) → is_clean out ≡ true → is_clean (add_servers out m) ≡ true
unfolding add_servers
is_clean-add_servers out [] h = h
is_clean-add_servers out ((k, v) ∷ m) h =
    is_clean-add_servers (add_unseen out v) m (is_clean-add_unseen out v h)

is_clean-entries_by : (m : Servers) (c : DnsConfig) → is_clean (entries_by m c) ≡ true
is_clean-entries_by [] c =
    is_clean-add_unseen (add_unseen [] c.dhcp_servers) c.dhcp_domains
      (is_clean-add_unseen [] c.dhcp_servers refl)
is_clean-entries_by (p ∷ m) c =
    is_clean-add_unseen (add_servers [] (sort_priorities (p ∷ m))) c.search
      (is_clean-add_servers [] (sort_priorities (p ∷ m)) refl)

-- The DNS entries of a profile have no empty and no repeated entry.
pub is_clean-entries : (c : DnsConfig) → is_clean (entries c) ≡ true
unfolding entries
is_clean-entries c = is_clean-entries_by c.servers c

-- ===== src/Tests/Network.antt =====
-- Runs of the shared DNS settings: one Wi-Fi service, and a tunnel that sets its resolver.
use wireguide.Base.{true, List, [], ◌∷◌, some, ◌≡◌, refl, if◌then◌else◌}
use wireguide.Base.Bytes.{Bytes, codes, equal}
use wireguide.Network.Dns.Holders.{get_entries}
use wireguide.Network.Dns.{
  System, Platform, DnsState, not_verified, no_setting, set_dns, restore_dns, restore_from_journal,
  register,
}
use wireguide.Network.Dns.Steps.{start, Reach, begins, steps, sets, restores}
use wireguide.Network.Dns.Restored.{Works, released-restored, crashed-restored}
use wireguide.Network.Dns.Applied.{unverified-entries}
use wireguide.Tests.Data.{toy_net}

abbrev wifi : Bytes
wifi = codes "Wi-Fi"

unfoldable home : System
unfolding equal
home svc =
    if equal svc wifi
    then record { servers = codes "192.168.0.1" ∷ []; search = [] }
    else no_setting

abbrev mac : Platform
mac = record {
  reads = λ f svc. true;
  applies = λ f svc values. true;
  writes_journal = true;
  removes_journal = true;
}

abbrev tunnel_dns : List Bytes
tunnel_dns = codes "10.0.0.1" ∷ codes "corp.example" ∷ []

-- What getCurrentDNS reports where macOS took the change, and where it ignored it.
abbrev taken : List (Bytes → List Bytes)
taken = (λ svc. codes "10.0.0.1" ∷ []) ∷ (λ svc. codes "10.0.0.1" ∷ []) ∷ []

abbrev ignored : List (Bytes → List Bytes)
ignored = (λ svc. []) ∷ (λ svc. []) ∷ []

abbrev connected : DnsState
connected = (set_dns toy_net mac taken (wifi ∷ []) (codes "office") tunnel_dns (start home)).0

abbrev released : DnsState
released = restore_dns toy_net mac (wifi ∷ []) (codes "office") connected

connected_settings :
    connected.system wifi
    ≡ record { servers = codes "10.0.0.1" ∷ []; search = codes "corp.example" ∷ [] }
unfolding set_dns
connected_settings = refl

mac-Works : Works toy_net mac home
mac-Works = record { reads = λ f svc. refl; takes_back = λ svc. (refl, refl); journals = refl }

connected_reached : Reach toy_net mac home connected
connected_reached = steps begins (sets taken (wifi ∷ []) (codes "office") tunnel_dns (start home))

none_left : released.holders.order ≡ []
unfolding restore_dns set_dns
none_left = refl

released-restored_example : released.system wifi ≡ home wifi
released-restored_example =
    released-restored toy_net mac home mac-Works
      (steps connected_reached (restores (wifi ∷ []) (codes "office") connected)) none_left wifi

crashed-restored_example : (restore_from_journal toy_net mac true connected).system wifi ≡ home wifi
crashed-restored_example = crashed-restored toy_net mac home mac-Works connected_reached wifi

home_failed :
    (register toy_net mac ignored (wifi ∷ []) (codes "home") tunnel_dns connected).1
    ≡ some not_verified
unfolding register set_dns
home_failed = refl

unverified-entries_example :
    get_entries
      (register toy_net mac ignored (wifi ∷ []) (codes "home") tunnel_dns connected).0.holders
      (codes "office")
    ≡ get_entries connected.holders (codes "office")
unverified-entries_example =
    unverified-entries toy_net mac ignored (wifi ∷ []) (codes "home") tunnel_dns connected
      home_failed (codes "office")

-- ===== src/Network/Dns.antt =====
-- internal/network/dns.go and dns_journal.go: the system's DNS settings, shared by the tunnels. The
-- settings of one service do not touch another's, so the goroutines are taken in the order of the
-- list. `dnsSavedDNS` and `dnsSavedSearch`, which are written together, are one map.
pub mod Holders
pub mod Steps
pub mod Baseline
pub mod Restored
pub mod Applied
use wireguide.Base.{
  ℕ, Bool, true, false, not, ◌&&◌, ◌||◌, List, [], ◌∷◌, Option, none, some, if◌then◌else◌, any, all,
}
use wireguide.Base.Bytes.{Bytes, equal, contains}
use wireguide.Base.Dict.{Dict, get, put, has}
use wireguide.Net.{Net}
use wireguide.Network.Dns.Holders.{
  HolderSet, get_entries, set_entries, remove_holder, union, is_none,
}

-- What networksetup lists for one service.
pub record Setting : Type 0 where
  pub servers : List Bytes
  pub search : List Bytes

abbrev pub System : Type 0
System = Bytes → Setting

-- The flag of a networksetup call.
pub data Flag : Type 0 where
  servers_flag search_flag : Flag

-- Which networksetup calls and file operations succeed.
pub record Platform : Type 0 where
  pub reads : Flag → Bytes → Bool
  pub applies : Flag → Bytes → List Bytes → Bool
  pub writes_journal : Bool
  pub removes_journal : Bool

-- The package's variables, the journal file, and the system.
pub record DnsState : Type 0 where
  pub holders : HolderSet
  pub saved : Dict Setting
  pub journal : Option (Dict Setting)
  pub system : System

pub data DnsError : Type 0 where
  no_services not_verified : DnsError

abbrev pub no_setting : Setting
no_setting = record { servers = []; search = [] }

abbrev pub or_empty : Option Setting → Setting
or_empty none = no_setting
or_empty (some v) = v

abbrev pub or_nobody : Option (Dict Setting) → Dict Setting
or_nobody none = []
or_nobody (some m) = m

-- `sv`, or the baseline's where the union has none
abbrev pub or_else : List Bytes → List Bytes → List Bytes
or_else [] base = base
or_else (x ∷ xs) base = x ∷ xs

abbrev is_none_listed : List Bytes → Bool
is_none_listed [] = true
is_none_listed (_ ∷ _) = false

-- slices.Equal
unfoldable pub same_lists : List Bytes → List Bytes → Bool
unfolding equal
same_lists [] [] = true
same_lists [] (_ ∷ _) = false
same_lists (_ ∷ _) [] = false
same_lists (x ∷ xs) (y ∷ ys) = equal x y && same_lists xs ys

unfoldable pub update : System → Bytes → Setting → System
unfolding equal
update sys svc v t = if equal svc t then v else sys t

module _ (net : Net) (plat : Platform) where
  -- getCurrentDNS and getCurrentSearchDomains, with nothing for an error
  unfoldable pub read_setting : System → Bytes → Setting
  read_setting sys svc = record {
    servers = if plat.reads servers_flag svc then (sys svc).servers else [];
    search = if plat.reads search_flag svc then (sys svc).search else [];
  }

  -- the two calls of setServiceDNS for one service; a failed one changes nothing
  unfoldable pub set_service : Bytes → Setting → System → System
  unfolding update
  set_service svc v sys = update sys svc (record {
    servers = if plat.applies servers_flag svc v.servers then v.servers else (sys svc).servers;
    search = if plat.applies search_flag svc v.search then v.search else (sys svc).search;
  })

  unfoldable pub capture : List Bytes → System → Dict Setting → Dict Setting
  unfolding has read_setting
  capture [] sys saved = saved
  capture (svc ∷ services) sys saved =
      capture services sys (if has saved svc then saved else put saved svc (read_setting sys svc))

  -- captureBaselineLocked
  unfoldable pub capture_baseline : List Bytes → DnsState → DnsState
  unfolding capture has
  capture_baseline services d =
      let now = capture services d.system d.saved in
      if all (has d.saved) services
      then d
      else record d { saved = now; journal = if plat.writes_journal then some now else d.journal }

  -- the loop of applyDNSUnionLocked
  unfoldable pub override : List Bytes → Setting → Dict Setting → System → System
  unfolding set_service
  override [] u saved sys = sys
  override (svc ∷ services) u saved sys =
      let base = or_empty (get saved svc) in
      override services u saved (
        set_service svc
          (record {
            servers = or_else u.servers base.servers;
            search = or_else u.search base.search;
          })
          sys)

  abbrev pub union_setting : HolderSet → Setting
  union_setting h = record { servers = (union net h).0; search = (union net h).1 }

  -- applyDNSUnionLocked
  unfoldable pub apply_union : List Bytes → DnsState → DnsState
  unfolding capture_baseline override union
  apply_union services d =
      let c = capture_baseline services d in
      record c { system = override services (union_setting c.holders) c.saved c.system }

  -- restoreDNSBaseline; a map has each service once
  unfoldable pub restore_baseline : Dict Setting → System → System
  unfolding set_service
  restore_baseline [] sys = sys
  restore_baseline ((svc, v) ∷ saved) sys = set_service svc v (restore_baseline saved sys)

  abbrev pub remove_journal : Option (Dict Setting) → Option (Dict Setting)
  remove_journal j = if plat.removes_journal then none else j

  -- releaseOrReapplyLocked, by the holders that are left
  unfoldable pub release_to : List Bytes → List Bytes → DnsState → DnsState
  unfolding apply_union restore_baseline
  release_to [] services d = record d {
    saved = [];
    journal = remove_journal d.journal;
    system = restore_baseline d.saved d.system;
  }
  release_to (_ ∷ _) services d = apply_union services d

  unfoldable pub release_or_reapply : List Bytes → DnsState → DnsState
  unfolding release_to
  release_or_reapply services d = release_to d.holders.order services d

  -- verifyDNS, where `looks` is what getCurrentDNS reports on each of the attempts
  unfoldable pub verify_dns : List (Bytes → List Bytes) → List Bytes → Bytes → Bool
  unfolding contains
  verify_dns looks services expected =
      any (λ look. any (λ svc. contains (look svc) expected) services) looks

  -- `len(servers) > 0 && verifyErr != nil`
  abbrev pub is_unverified : List (Bytes → List Bytes) → List Bytes → List Bytes → Bool
  is_unverified looks services [] = false
  is_unverified looks services (s ∷ _) = not (verify_dns looks services s)

  abbrev pub with_holder : Bytes → List Bytes → DnsState → DnsState
  with_holder holder entries d = record d { holders = set_entries d.holders holder entries }

  -- the holders that a failed SetDNS puts back
  unfoldable pub put_back : Bytes → Option (List Bytes) → HolderSet → HolderSet
  unfolding set_entries remove_holder
  put_back holder (some prev) h = set_entries h holder prev
  put_back holder none h = remove_holder h holder

  -- SetDNS, behind the check of `entries` and with the services that getAllNetworkServices finds
  unfoldable pub register :
      List (Bytes → List Bytes)
      → List Bytes
      → Bytes
      → List Bytes
      → DnsState
      → DnsState × Option DnsError
  unfolding apply_union release_or_reapply put_back get_entries set_entries union verify_dns
  register looks services holder entries d =
      let prev = get_entries d.holders holder in
      let applied = apply_union services (with_holder holder entries d) in
      let servers = (union net applied.holders).0 in
      let undone = record applied { holders = put_back holder prev applied.holders } in
      if is_unverified looks services servers
      then (release_or_reapply services undone, some not_verified)
      else (applied, none)

  -- SetDNS; the start of the route monitor is left out
  unfoldable pub set_dns :
      List (Bytes → List Bytes)
      → List Bytes
      → Bytes
      → List Bytes
      → DnsState
      → DnsState × Option DnsError
  unfolding register
  set_dns looks services holder [] d = (d, none)
  set_dns looks [] holder (e ∷ entries) d = (d, some no_services)
  set_dns looks (svc ∷ services) holder (e ∷ entries) d =
      register looks (svc ∷ services) holder (e ∷ entries) d

  -- RestoreDNS
  unfoldable pub restore_dns : List Bytes → Bytes → DnsState → DnsState
  unfolding release_or_reapply remove_holder get_entries
  restore_dns services holder d =
      if is_none (get_entries d.holders holder)
      then d
      else release_or_reapply services (record d { holders = remove_holder d.holders holder })

  -- `drifted[i]`: `got` is what getCurrentDNS reports, or nothing for its error
  abbrev pub is_drifted : Dict Setting → List Bytes → Bytes → Option (List Bytes) → Bool
  is_drifted saved want svc none = true
  is_drifted saved want svc (some got) =
      not (has saved svc) || (not (is_none_listed want) && not (same_lists got want))

  -- reapplyDNSIfDrifted, by the holders
  unfoldable pub reapply_for :
      List Bytes → (Bytes → Option (List Bytes)) → List Bytes → DnsState → DnsState
  unfolding apply_union union has same_lists
  reapply_for [] look services d = d
  reapply_for (_ ∷ _) look services d =
      let want = (union net d.holders).0 in
      let next = apply_union services d in
      if any (λ svc. is_drifted d.saved want svc (look svc)) services then next else d

  unfoldable pub reapply_if_drifted :
      (Bytes → Option (List Bytes)) → List Bytes → DnsState → DnsState
  unfolding reapply_for
  reapply_if_drifted look services d = reapply_for d.holders.order look services d

  unfoldable pub replay : Option (Dict Setting) → DnsState → DnsState
  unfolding restore_baseline
  replay none d = d
  replay (some saved) d = record d {
    system = restore_baseline saved d.system;
    journal = remove_journal d.journal;
  }

  -- RestoreDNSFromJournal; the flag says whether loadDNSJournal can read and trusts the file that is
  -- there. One that it refuses is removed and never replayed.
  unfoldable pub restore_from_journal : Bool → DnsState → DnsState
  unfolding replay
  restore_from_journal trusts d =
      if trusts then replay d.journal d else record d { journal = remove_journal d.journal }

-- ===== src/Network/Dns/Steps.antt =====
-- The DNS operations of internal/network/dns.go in any order, with macOS rewriting the settings that
-- the tunnels manage in between, and a crash at any point.
use wireguide.Base.{
  true, false, List, [], Option, none, some, all, ◌≡◌, refl, ◌∙◌, arith, Bool-cases, inl, inr,
}
use wireguide.Base.Bytes.{Bytes, contains, all-contains}
use wireguide.Base.Dict.{Dict, get, has}
use wireguide.Net.{Net}
use wireguide.Network.Dns.Holders.{IsListed, is_none}
use wireguide.Network.Dns.{
  Setting, System, Platform, DnsState, or_nobody, capture_baseline, set_dns, restore_dns,
  reapply_if_drifted, with_holder,
}
use wireguide.Network.Dns.Baseline.{KeptAs, Kept, Reads, has-capture, capture-Kept}

abbrev pub start : System → DnsState
start was = record {
  holders = record { order = []; entries = [] };
  saved = [];
  journal = none;
  system = was;
}

is_none-has : (m : Dict Setting) (t : Bytes) → is_none (get m t) ≡ true → has m t ≡ false
unfolding has
is_none-has m t h = ground arith

-- What is known of a service with a baseline stays true when its settings change.
kept_changed :
    (o : Option Setting) (now now' was : Setting)
    → (is_none o ≡ true → now' ≡ now)
    → KeptAs o now was
    → KeptAs o now' was
kept_changed none now now' was e h = e refl ∙ h
kept_changed (some v) now now' was e h = h

pub kept_restored :
    (o : Option Setting) (now now' was : Setting)
    → now' ≡ was
    → KeptAs o now was
    → KeptAs o now' was
kept_restored none now now' was e h = e
kept_restored (some v) now now' was e h = h

module _ (net : Net) (plat : Platform) where
  -- `drifts` is macOS, which rewrites services that have a baseline. `interrupts` stops SetDNS behind
  -- the capture; with `drifts` behind it, a part of the services is overridden or restored.
  pub data Step : DnsState → DnsState → Type 0 where
    sets :
        (looks : List (Bytes → List Bytes)) (services : List Bytes) (holder : Bytes)
        (entries : List Bytes) (d : DnsState)
        → Step d (set_dns net plat looks services holder entries d).0
    restores :
        (services : List Bytes) (holder : Bytes) (d : DnsState)
        → Step d (restore_dns net plat services holder d)
    reapplies :
        (look : Bytes → Option (List Bytes)) (services : List Bytes) (d : DnsState)
        → Step d (reapply_if_drifted net plat look services d)
    interrupts :
        (services : List Bytes) (holder : Bytes) (entries : List Bytes) (d : DnsState)
        → Step d (capture_baseline net plat services (with_holder net plat holder entries d))
    drifts :
        (sys : System) (d : DnsState)
        → ((svc : Bytes) → has d.saved svc ≡ false → sys svc ≡ d.system svc)
        → Step d (record d { system = sys })

  pub data Reach (was : System) : DnsState → Type 0 where
    begins : Reach was (start was)
    steps : {d e : DnsState} → Reach was d → Step d e → Reach was e

  -- The baseline and the journal hold what the user had, and the journal covers the baseline.
  pub record Known (was : System) (saved : Dict Setting) (journal : Option (Dict Setting))
      (sys : System) : Type 0 where
    pub kept : Kept net plat was saved sys
    pub journaled : Kept net plat was (or_nobody journal) sys
    pub covered : (svc : Bytes) → has saved svc ≡ true → has (or_nobody journal) svc ≡ true

  pub record Inv (was : System) (d : DnsState) : Type 0 where
    pub known : Known was d.saved d.journal d.system
    pub listed : IsListed d.holders
    pub idle : d.holders.order ≡ [] → d.saved ≡ []

  module _ (was : System) where
    pub change-Known :
        (saved : Dict Setting) (journal : Option (Dict Setting)) (old new : System)
        → ((svc : Bytes) → has saved svc ≡ false → new svc ≡ old svc)
        → Known was saved journal old
        → Known was saved journal new
    change-Known saved journal old new e h = record {
      kept = λ t.
          kept_changed (get saved t) (old t) (new t) (was t)
            (λ none_saved. e t (is_none-has saved t none_saved)) (h.kept t);
      journaled = λ t.
          kept_changed (get (or_nobody journal) t) (old t) (new t) (was t)
            (λ none_saved.
              e t (ground (arith, is_none-has (or_nobody journal) t none_saved, h.covered t)))
            (h.journaled t);
      covered = h.covered;
    }

    pub capture-holders :
        (services : List Bytes) (d : DnsState)
        → (capture_baseline net plat services d).holders ≡ d.holders
    unfolding capture_baseline
    capture-holders services d = elim (Bool-cases (all (has d.saved) services)) [
      | inl e ↦ rw e refl
      | inr e ↦ rw e refl
    ]

    pub captured :
        (services : List Bytes) (d : DnsState) (t : Bytes)
        → contains services t ≡ true
        → has (capture_baseline net plat services d).saved t ≡ true
    unfolding capture_baseline
    captured services d t h = elim (Bool-cases (all (has d.saved) services)) [
      | inl e ↦ rw e (all-contains (has d.saved) services t e h)
      | inr e ↦ rw (e, has-capture net plat was services d.system d.saved t) (ground arith)
    ]

    abbrev pub IsKnown : DnsState → Type 0
    IsKnown d = Known was d.saved d.journal d.system

    pub capture-Known :
        Reads net plat was
        → plat.writes_journal ≡ true
        → (services : List Bytes) (d : DnsState) → IsKnown d
        → IsKnown (capture_baseline net plat services d)
    unfolding capture_baseline
    capture-Known reads writes services d h = elim (Bool-cases (all (has d.saved) services)) [
      | inl e ↦ rw e h
      | inr e ↦
          let now = capture-Kept net plat was reads services d.system d.saved h.kept in
          rw (e, writes) (record { kept = now; journaled = now; covered = λ t k. k })
    ]

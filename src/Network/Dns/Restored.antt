-- ===== src/Network/Dns/Restored.antt =====
-- The user's DNS settings in the states that internal/network/dns.go and dns_journal.go reach.
use wireguide.Base.{
  true, List, [], ◌∷◌, Option, none, some, ◌≡◌, refl, ap, ◌∙◌, arith, any, Bool-cases, inl, inr,
}
use wireguide.Base.Bytes.{Bytes, equal_refl, contains}
use wireguide.Base.Dict.{Dict, get, has, get-put}
use wireguide.Net.{Net}
use wireguide.Network.Dns.Holders.{
  HolderSet, union, IsListed, get_entries, set_entries, remove_holder, is_none,
  set_entries-IsListed, remove_holder-IsListed,
}
use wireguide.Network.Dns.{
  Setting, System, Platform, DnsState, or_nobody, capture_baseline, apply_union, restore_baseline,
  union_setting, put_back, release_or_reapply, release_to, reapply_for, register, set_dns,
  restore_dns, is_drifted, reapply_if_drifted, restore_from_journal, replay, with_holder,
  remove_journal, is_unverified,
}
use wireguide.Network.Dns.Baseline.{
  kept_of, Kept, Reads, TakesBack, restore_baseline-was, override-other,
}
use wireguide.Network.Dns.Steps.{
  start, Step, sets, restores, reapplies, interrupts, drifts, Reach, begins, steps, Known, Inv,
  IsKnown, change-Known, capture-holders, captured, capture-Known, kept_restored,
}

-- networksetup answers queries, takes the user's settings back, and the journal can be written.
pub record Works (net : Net) (plat : Platform) (was : System) : Type 0 where
  pub reads : Reads net plat was
  pub takes_back : TakesBack net plat was
  pub journals : plat.writes_journal ≡ true

nonempty :
    (order : List Bytes) (holder : Bytes)
    → contains order holder ≡ true
    → (x : Bytes) × (xs : List Bytes) × (order ≡ x ∷ xs)
unfolding contains
nonempty [] holder h = cc
nonempty (x ∷ xs) holder h = (x, xs, refl)

module _ (net : Net) (plat : Platform) (was : System) (works : Works net plat was) where
  abbrev Sound : DnsState → Type 0
  Sound d = Inv net plat was d

  pub apply-holders :
      (services : List Bytes) (d : DnsState) → (apply_union net plat services d).holders ≡ d.holders
  unfolding apply_union
  apply-holders services d = capture-holders net plat was services d

  apply-Known :
      (services : List Bytes) (d : DnsState)
      → IsKnown net plat was d
      → IsKnown net plat was (apply_union net plat services d)
  unfolding apply_union
  apply-Known services d h =
      let c = capture_baseline net plat services d in
      change-Known net plat was c.saved c.journal c.system _
        (λ t unsaved.
          override-other net plat was services (union_setting net plat c.holders) c.saved c.system t
            (ground (arith, captured net plat was services d t)))
        (capture-Known net plat was works.reads works.journals services d h)

  restored :
      (saved : Dict Setting) (journal : Option (Dict Setting)) (sys : System)
      → Known net plat was saved journal sys
      → (t : Bytes) → restore_baseline net plat saved sys t ≡ was t
  restored saved journal sys h t =
      restore_baseline-was net plat was works.takes_back saved sys t (h.kept t)

  remove-Kept :
      (journal : Option (Dict Setting)) (old new : System)
      → ((t : Bytes) → new t ≡ was t)
      → Kept net plat was (or_nobody journal) old
      → Kept net plat was (or_nobody (remove_journal net plat journal)) new
  unfolding get
  remove-Kept journal old new e h t = elim (Bool-cases plat.removes_journal) [
    | inl gone ↦ rw gone (e t)
    | inr stays ↦
        rw stays (kept_restored (get (or_nobody journal) t) (old t) (new t) (was t) (e t) (h t))
  ]

  apply-Sound :
      (x : Bytes) (xs services : List Bytes) (d : DnsState)
      → d.holders.order ≡ x ∷ xs
      → IsKnown net plat was d
      → IsListed d.holders
      → Sound (apply_union net plat services d)
  apply-Sound x xs services d e h listed =
      let same = apply-holders services d in
      let orders = ap (λ (hs : HolderSet). hs.order) same in
      record { known = apply-Known services d h; listed = rw same listed; idle = λ empty. cc }

  release_to-Sound :
      (order services : List Bytes) (d : DnsState)
      → d.holders.order ≡ order
      → IsKnown net plat was d
      → IsListed d.holders
      → Sound (release_to net plat order services d)
  unfolding release_to has get
  release_to-Sound [] services d e h listed =
      let back = restored d.saved d.journal d.system h in
      record {
        known = record {
          kept = back;
          journaled = remove-Kept d.journal d.system _ back h.journaled;
          covered = λ t k. cc;
        };
        listed = listed;
        idle = λ _. refl;
      }
  release_to-Sound (x ∷ xs) services d e h listed = apply-Sound x xs services d e h listed

  reapply_for-Sound :
      (order : List Bytes) (look : Bytes → Option (List Bytes)) (services : List Bytes)
      (d : DnsState)
      → d.holders.order ≡ order
      → Sound d
      → Sound (reapply_for net plat order look services d)
  unfolding reapply_for
  reapply_for-Sound [] look services d e h = h
  reapply_for-Sound (x ∷ xs) look services d e h =
      elim (Bool-cases (
        any (λ svc. is_drifted net plat d.saved (union net d.holders).0 svc (look svc)) services)) [
          | inl drifted ↦ rw drifted (apply-Sound x xs services d e h.known h.listed)
          | inr fine ↦ rw fine h
        ]

  -- a state in which some holder is listed has one in its order
  order_of :
      (d : DnsState) (holder : Bytes)
      → contains d.holders.order holder ≡ true
      → (x : Bytes) × (xs : List Bytes) × (d.holders.order ≡ x ∷ xs)
  unfolding contains
  order_of d holder h = nonempty d.holders.order holder h

  put_back-IsListed :
      (holder : Bytes) (prev : Option (List Bytes)) (hs : HolderSet)
      → IsListed hs
      → IsListed (put_back net plat holder prev hs)
  unfolding put_back
  put_back-IsListed holder none hs h = remove_holder-IsListed hs holder h
  put_back-IsListed holder (some prev) hs h = set_entries-IsListed hs holder prev h

  with_holder-IsListed :
      (holder : Bytes) (entries : List Bytes) (d : DnsState)
      → Sound d
      → IsListed (with_holder net plat holder entries d).holders
  with_holder-IsListed holder entries d h = set_entries-IsListed d.holders holder entries h.listed

  with_holder-order :
      (holder : Bytes) (entries : List Bytes) (d : DnsState)
      → Sound d
      → contains (with_holder net plat holder entries d).holders.order holder ≡ true
  unfolding set_entries has
  with_holder-order holder entries d h =
      with_holder-IsListed holder entries d h holder
      ∙ ground (arith, get-put d.holders.entries holder holder entries, equal_refl holder)

  register-Sound :
      (looks : List (Bytes → List Bytes)) (services : List Bytes) (holder : Bytes)
      (entries : List Bytes) (d : DnsState)
      → Sound d
      → Sound (register net plat looks services holder entries d).0
  unfolding register release_or_reapply
  register-Sound looks services holder entries d h =
      let w = with_holder net plat holder entries d in
      let applied = apply_union net plat services w in
      let hs = put_back net plat holder (get_entries d.holders holder) applied.holders in
      let ws = with_holder-IsListed holder entries d h in
      let some_order = order_of w holder (with_holder-order holder entries d h) in
      let good = apply-Sound some_order.0 some_order.1 services w some_order.2 h.known ws in
      elim (Bool-cases (is_unverified net plat looks services (union net applied.holders).0)) [
        | inl bad ↦ rw bad (
            release_to-Sound hs.order services (record applied { holders = hs }) refl good.known
              (put_back-IsListed holder (get_entries d.holders holder) applied.holders good.listed))
        | inr fine ↦ rw fine good
      ]

  set_dns-Sound :
      (looks : List (Bytes → List Bytes)) (services : List Bytes) (holder : Bytes)
      (entries : List Bytes) (d : DnsState)
      → Sound d
      → Sound (set_dns net plat looks services holder entries d).0
  unfolding set_dns
  set_dns-Sound looks services holder [] d h = h
  set_dns-Sound looks [] holder (e ∷ entries) d h = h
  set_dns-Sound looks (svc ∷ services) holder (e ∷ entries) d h =
      register-Sound looks (svc ∷ services) holder (e ∷ entries) d h

  restore_dns-Sound :
      (services : List Bytes) (holder : Bytes) (d : DnsState)
      → Sound d
      → Sound (restore_dns net plat services holder d)
  unfolding restore_dns release_or_reapply
  restore_dns-Sound services holder d h =
      let hs = remove_holder d.holders holder in
      elim (Bool-cases (is_none (get_entries d.holders holder))) [
        | inl absent ↦ rw absent h
        | inr present ↦ rw present (
            release_to-Sound hs.order services (record d { holders = hs }) refl h.known
              (remove_holder-IsListed d.holders holder h.listed))
      ]

  interrupt-Sound :
      (services : List Bytes) (holder : Bytes) (entries : List Bytes) (d : DnsState)
      → Sound d
      → Sound (capture_baseline net plat services (with_holder net plat holder entries d))
  interrupt-Sound services holder entries d h =
      let w = with_holder net plat holder entries d in
      let some_order = order_of w holder (with_holder-order holder entries d h) in
      let same = capture-holders net plat was services w in
      let orders = ap (λ (hs : HolderSet). hs.order) same ∙ some_order.2 in
      record {
        known = capture-Known net plat was works.reads works.journals services w h.known;
        listed = rw same (with_holder-IsListed holder entries d h);
        idle = λ empty. cc;
      }

  Step-Sound : {d e : DnsState} → Step net plat d e → Sound d → Sound e
  Step-Sound (sets looks services holder entries d) h =
      set_dns-Sound looks services holder entries d h
  Step-Sound (restores services holder d) h = restore_dns-Sound services holder d h
  Step-Sound (reapplies look services d) h =
      unfold reapply_if_drifted in reapply_for-Sound d.holders.order look services d refl h
  Step-Sound (interrupts services holder entries d) h = interrupt-Sound services holder entries d h
  Step-Sound (drifts sys d e) h = record {
    known = change-Known net plat was d.saved d.journal d.system sys e h.known;
    listed = h.listed;
    idle = h.idle;
  }

  start-Sound : Sound (start was)
  unfolding get has contains
  start-Sound = record {
    known = record { kept = λ t. refl; journaled = λ t. refl; covered = λ t h. h };
    listed = λ t. refl;
    idle = λ _. refl;
  }

  Reach-Sound : {d : DnsState} → Reach net plat was d → Sound d
  Reach-Sound begins = start-Sound
  Reach-Sound (steps r s) = Step-Sound s (Reach-Sound r)

  -- After any operations, with the settings that tunnels manage rewritten in between, every service
  -- has the user's settings when no tunnel holds DNS entries, if networksetup answers queries and
  -- takes those settings back, and the journal can be written.
  pub released-restored :
      {d : DnsState}
      → Reach net plat was d
      → d.holders.order ≡ []
      → (svc : Bytes) → d.system svc ≡ was svc
  unfolding get
  released-restored {d} r none_left svc =
      let h = Reach-Sound r in
      kept_of none (get d.saved svc) (d.system svc) (was svc)
        (ap (λ (m : Dict Setting). get m svc) (h.idle none_left)) (h.known.kept svc)

  replay-was :
      (journal : Option (Dict Setting)) (d : DnsState)
      → Kept net plat was (or_nobody journal) d.system
      → (svc : Bytes) → (replay net plat journal d).system svc ≡ was svc
  unfolding replay get
  replay-was none d h svc = h svc
  replay-was (some saved) d h svc =
      restore_baseline-was net plat was works.takes_back saved d.system svc (h svc)

  -- After any operations, with the settings that tunnels manage rewritten in between, and a crash at
  -- any point, RestoreDNSFromJournal gives every service the user's settings, if networksetup answers
  -- queries and takes those settings back, and the journal can be
  -- written and is one that loadDNSJournal trusts.
  pub crashed-restored :
      {d : DnsState}
      → Reach net plat was d
      → (svc : Bytes) → (restore_from_journal net plat true d).system svc ≡ was svc
  unfolding restore_from_journal
  crashed-restored {d} r svc = replay-was d.journal d (Reach-Sound r).known.journaled svc

-- ===== src/Network/Dns/Baseline.antt =====
-- The capture and the restore of the baseline of internal/network/dns.go, service by service.
use wireguide.Base.{
  true, false, ◌||◌, List, [], ◌∷◌, Option, none, some, if◌then◌else◌, ◌≡◌, refl, sym, ap, ◌∙◌,
  arith, Bool-cases, inl, inr,
}
use wireguide.Base.Bytes.{Bytes, equal, equal_iff, equal_refl, contains}
use wireguide.Base.Dict.{Dict, get, put, has, get-put}
use wireguide.Net.{Net}
use wireguide.Network.Dns.{
  Setting, System, Platform, Flag, servers_flag, search_flag, update, read_setting, set_service,
  capture, override, restore_baseline,
}

-- What is known of a service: without a baseline it is as it was, and a baseline is what was there.
abbrev pub KeptAs : Option Setting → Setting → Setting → Type 0
KeptAs none now was = now ≡ was
KeptAs (some v) now was = v ≡ was

pub kept_of :
    (o p : Option Setting) (now was : Setting) → p ≡ o → KeptAs p now was → KeptAs o now was
kept_of o p now was e h = rw (sym e) h

module _ (net : Net) (plat : Platform) (was : System) where
  abbrev pub Kept : Dict Setting → System → Type 0
  Kept saved sys = (svc : Bytes) → KeptAs (get saved svc) (sys svc) (was svc)

  abbrev pub Reads : Type 0
  Reads = (f : Flag) (svc : Bytes) → plat.reads f svc ≡ true

  -- networksetup takes the user's own settings back
  abbrev pub TakesBack : Type 0
  TakesBack =
      (svc : Bytes)
      → (plat.applies servers_flag svc (was svc).servers ≡ true)
        × (plat.applies search_flag svc (was svc).search ≡ true)

  read_setting_lem : Reads → (sys : System) (svc : Bytes) → read_setting net plat sys svc ≡ sys svc
  unfolding read_setting
  read_setting_lem reads sys svc = rw (reads servers_flag svc, reads search_flag svc) refl

  set_service-other :
      (svc : Bytes) (v : Setting) (sys : System) (t : Bytes)
      → equal svc t ≡ false
      → set_service net plat svc v sys t ≡ sys t
  unfolding set_service update
  set_service-other svc v sys t h = rw h refl

  pub override-other :
      (services : List Bytes) (u : Setting) (saved : Dict Setting) (sys : System) (t : Bytes)
      → contains services t ≡ false
      → override net plat services u saved sys t ≡ sys t
  unfolding override contains
  override-other [] u saved sys t h = refl
  override-other (svc ∷ services) u saved sys t h =
      override-other services u saved (set_service net plat svc _ sys) t (ground arith)
      ∙ set_service-other svc _ sys t (ground arith)

  set_service-same :
      (svc : Bytes) (v : Setting) (sys : System)
      → plat.applies servers_flag svc v.servers ≡ true
      → plat.applies search_flag svc v.search ≡ true
      → set_service net plat svc v sys svc ≡ v
  unfolding set_service update
  set_service-same svc v sys a b = rw (equal_refl svc, a, b) refl

  abbrev capture_one : Bytes → System → Dict Setting → Dict Setting
  capture_one svc sys saved =
      if has saved svc then saved else put saved svc (read_setting net plat sys svc)

  has-capture_one :
      (svc : Bytes) (sys : System) (saved : Dict Setting) (t : Bytes)
      → has (capture_one svc sys saved) t ≡ (has saved t || equal svc t)
  unfolding has
  has-capture_one svc sys saved t =
      ground (arith, equal_iff svc t, get-put saved svc t (read_setting net plat sys svc))

  pub has-capture :
      (services : List Bytes) (sys : System) (saved : Dict Setting) (t : Bytes)
      → has (capture net plat services sys saved) t ≡ (has saved t || contains services t)
  unfolding capture contains
  has-capture [] sys saved t = ground arith
  has-capture (svc ∷ services) sys saved t = ground (
    arith,
    has-capture services sys (capture_one svc sys saved) t,
    has-capture_one svc sys saved t,
  )

  unsaved : (saved : Dict Setting) (t : Bytes) → has saved t ≡ false → get saved t ≡ none
  unfolding has
  unsaved saved t h = ground arith

  capture_one-Kept :
      Reads
      → (svc : Bytes) (sys : System) (saved : Dict Setting) → Kept saved sys
      → Kept (capture_one svc sys saved) sys
  capture_one-Kept reads svc sys saved h t = elim (Bool-cases (has saved svc)) [
    | inl old ↦ rw old (h t)
    | inr new ↦ elim (Bool-cases (equal svc t)) [
      | inl same ↦
          rw (new, get-put saved svc t (read_setting net plat sys svc), same)
            (read_setting_lem reads sys svc
              ∙ kept_of none (get saved svc) (sys svc) (was svc) (unsaved saved svc new) (h svc)
              ∙ ap was ((equal_iff svc t).0 same))
      | inr other ↦ rw (new, get-put saved svc t (read_setting net plat sys svc), other) (h t)
    ]
  ]

  pub capture-Kept :
      Reads
      → (services : List Bytes) (sys : System) (saved : Dict Setting) → Kept saved sys
      → Kept (capture net plat services sys saved) sys
  unfolding capture
  capture-Kept reads [] sys saved h = h
  capture-Kept reads (svc ∷ services) sys saved h =
      capture-Kept reads services sys (capture_one svc sys saved)
        (capture_one-Kept reads svc sys saved h)

  pub restore_baseline-was :
      TakesBack
      → (saved : Dict Setting) (sys : System) (t : Bytes) → KeptAs (get saved t) (sys t) (was t)
      → restore_baseline net plat saved sys t ≡ was t
  unfolding restore_baseline get
  restore_baseline-was takes [] sys t h = h
  restore_baseline-was takes ((svc, v) ∷ saved) sys t h = elim (Bool-cases (equal svc t)) [
    | inl same ↦
        let e = (equal_iff svc t).0 same in
        let q : v ≡ was t =
          kept_of (some v) (get ((svc, v) ∷ saved) t) (sys t) (was t) (rw same refl) h in
        let q' : v ≡ was svc = q ∙ ap was (sym e) in
        ap (set_service net plat svc v (restore_baseline net plat saved sys)) (sym e)
        ∙ set_service-same svc v (restore_baseline net plat saved sys)
            (ap (λ (x : Setting). plat.applies servers_flag svc x.servers) q' ∙ (takes svc).0)
            (ap (λ (x : Setting). plat.applies search_flag svc x.search) q' ∙ (takes svc).1)
        ∙ q
    | inr other ↦
        set_service-other svc v (restore_baseline net plat saved sys) t other
        ∙ restore_baseline-was takes saved sys t
            (kept_of (get saved t) (get ((svc, v) ∷ saved) t) (sys t) (was t) (rw other refl) h)
  ]

-- ===== src/Network/Dns/Applied.antt =====
-- What SetDNS of internal/network/dns.go does to the services and, where it fails, to the holders.
use wireguide.Base.{
  List, [], ◌∷◌, Option, none, some, ◌≡◌, refl, sym, ap, ◌∙◌, arith, Bool-cases, inl, inr,
}
use wireguide.Base.Bytes.{Bytes, equal_refl, equal_iff}
use wireguide.Base.Dict.{get, put, has, get-put, get-remove}
use wireguide.Net.{Net}
use wireguide.Network.Dns.Holders.{HolderSet, union, get_entries, set_entries, remove_holder}
use wireguide.Network.Dns.{
  Platform, DnsState, not_verified, apply_union, put_back, release_or_reapply, release_to, register,
  with_holder, is_unverified,
}
use wireguide.Network.Dns.Steps.{capture-holders}

module _ (net : Net) (plat : Platform) where
  apply_union-holders :
      (services : List Bytes) (d : DnsState) → (apply_union net plat services d).holders ≡ d.holders
  unfolding apply_union
  apply_union-holders services d = capture-holders net plat d.system services d

  release_to-holders :
      (order services : List Bytes) (d : DnsState)
      → (release_to net plat order services d).holders ≡ d.holders
  unfolding release_to
  release_to-holders [] services d = refl
  release_to-holders (x ∷ order) services d = apply_union-holders services d

  put_back-entries :
      (hs : HolderSet) (holder : Bytes) (es : List Bytes) (prev : Option (List Bytes))
      (name : Bytes)
      → get hs.entries holder ≡ prev
      → get_entries (put_back net plat holder prev (set_entries hs holder es)) name
        ≡ get_entries hs name
  unfolding put_back get_entries set_entries remove_holder has
  put_back-entries hs holder es none name e = ground (
    arith,
    equal_iff holder name,
    get-put hs.entries holder holder es,
    equal_refl holder,
    get-put hs.entries holder name es,
    get-remove (put hs.entries holder es) holder name,
  )
  put_back-entries hs holder es (some prev) name e = ground (
    arith,
    equal_iff holder name,
    get-put hs.entries holder name es,
    get-put (put hs.entries holder es) holder name prev,
  )

  absurd_error {ℓ} : {A : Type ℓ} → some not_verified ≡ none → A
  absurd_error h = cc

  -- Where SetDNS does not find its server on any service, each holder has the entries it had before.
  pub unverified-entries :
      (looks : List (Bytes → List Bytes)) (services : List Bytes) (holder : Bytes)
      (entries : List Bytes) (d : DnsState)
      → (register net plat looks services holder entries d).1 ≡ some not_verified
      → (name : Bytes)
      → get_entries (register net plat looks services holder entries d).0.holders name
        ≡ get_entries d.holders name
  unfolding register release_or_reapply
  unverified-entries looks services holder entries d failed name =
      let applied = apply_union net plat services (with_holder net plat holder entries d) in
      let prev = get_entries d.holders holder in
      let hs = put_back net plat holder prev applied.holders in
      elim (Bool-cases (is_unverified net plat looks services (union net applied.holders).0)) [
        | inl bad ↦ rw bad (
            ap (λ (h : HolderSet). get_entries h name)
              (release_to-holders hs.order services (record applied { holders = hs })
                ∙ ap (put_back net plat holder prev)
                    (apply_union-holders services (with_holder net plat holder entries d)))
            ∙ put_back-entries d.holders holder entries prev name refl)
        | inr fine ↦
            let silent : (register net plat looks services holder entries d).1 ≡ none =
              rw fine refl in
            absurd_error (sym failed ∙ silent)
      ]

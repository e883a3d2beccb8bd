-- ===== src/Helper/Derive/FailClosed.antt =====
-- When applyFirewall keeps the kill switch loaded, and when it removes the rules.
use wireguide.Base.{
  Bool, true, false, ◌&&◌, ◌||◌, List, [], ◌∷◌, ◌++◌, Option, ◌==◌, ◌≡◌, refl, ap, ◌∙◌, arith,
  filter, Bool-cases, inl, inr,
}
use wireguide.Base.Bytes.{Bytes, equal_iff, contains, contains-append}
use wireguide.Base.Dict.{Dict, get, keys, has, contains-keys}
use wireguide.Base.Sorted.{sort_strings, contains-sort_strings}
use wireguide.Net.{Net}
use wireguide.Helper.State.{HostPort, Helper, holds, is_held}
use wireguide.Helper.Live.{Named}
use wireguide.Helper.Derive.{
  no_rules, names_of, no_tunnels, is_empty_dict, held_names, held_passes, derive, refresh,
  refresh_all, failover_passes,
}

contains-filter :
    (p : Bytes → Bool) (xs : List Bytes) (n : Bytes)
    → contains (filter p xs) n ≡ (contains xs n && p n)
unfolding contains
contains-filter p [] n = refl
contains-filter p (x ∷ xs) n = ground (arith, equal_iff x n, contains-filter p xs n)

-- A name with a hold is in the loop over held names.
pub contains-held_names :
    (h : Helper) (n : Bytes) → is_held h n ≡ true → contains (held_names h) n ≡ true
unfolding is_held has
contains-held_names h n held = ground (
  arith,
  contains-sort_strings n (keys h.held ++ filter (λ k. holds h k == 0) (keys h.pending)),
  contains-append (keys h.held) (filter (λ k. holds h k == 0) (keys h.pending)) n,
  contains-filter (λ k. holds h k == 0) (keys h.pending) n,
  contains-keys h.held n,
  contains-keys h.pending n,
)

has-nonempty {ℓ} : {V : Type ℓ} (d : Dict V) (n : Bytes) → has d n ≡ true → is_empty_dict d ≡ false
unfolding has get
has-nonempty [] n h = cc
has-nonempty (x ∷ d) n h = refl

module _ (net : Net) (parse_remotes : Bytes → Option (List HostPort)) where
  held_passes-nonempty :
      (h : Helper) (ns : List Bytes) (n : Bytes)
      → contains ns n ≡ true
      → no_tunnels (held_passes net parse_remotes h [] ns) ≡ false
  unfolding held_passes contains
  held_passes-nonempty h [] n c = cc
  held_passes-nonempty h (x ∷ ns) n c = ground arith

  refresh_all-policy :
      (live : List Named) (h : Helper) → (refresh_all net parse_remotes live h).policy ≡ h.policy
  unfolding refresh_all
  refresh_all-policy [] h = refl
  refresh_all-policy (x ∷ live) h = refresh_all-policy live (refresh net parse_remotes x h)

  -- While the kill switch is on, applyFirewall asks for a ruleset with the kill switch whenever some
  -- tunnel is live, held for reconnect, pending or blocked.
  pub derive_fail_closed :
      (h : Helper) (live : List Named) (dns : List Bytes) (n : Bytes)
      → h.policy.kill_switch ≡ true
      → (contains (names_of live) n || is_held h n || has h.blocked n) ≡ true
      → (derive net parse_remotes h live dns).1.kill_switch ≡ true
  unfolding derive refresh_all failover_passes contains
  derive_fail_closed h [] dns n on up = elim (Bool-cases (is_held h n)) [
    | inl held ↦
        ground (arith, held_passes-nonempty h (held_names h) n (contains-held_names h n held))
    | inr free ↦ ground (arith, has-nonempty h.blocked n)
  ]
  derive_fail_closed h (x ∷ live) dns n on up =
      ap (λ pol. pol.kill_switch) (refresh_all-policy (x ∷ live) h) ∙ on

  -- With no tunnel live, held, pending or blocked, applyFirewall removes the rules, whatever the
  -- policy.
  pub derive_flushes :
      (h : Helper) (dns : List Bytes)
      → (derive net parse_remotes (record h { held = []; pending = []; blocked = [] }) [] dns).1
        ≡ no_rules
  unfolding derive refresh_all failover_passes held_passes keys sort_strings
  derive_flushes h dns = ground arith

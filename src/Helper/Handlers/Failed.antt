-- ===== src/Helper/Handlers/Failed.antt =====
-- What a connect of internal/helper/handlers.go that fails leaves of the blocks.
use wireguide.Base.{
  Bool, true, false, not, ◌&&◌, ◌||◌, List, [], ◌∷◌, Option, if◌then◌else◌, ◌≡◌, refl, ap, ◌∙◌,
  arith, Bool-cases, inl, inr,
}
use wireguide.Base.Bytes.{Bytes, equal, equal_iff, equal_refl, contains}
use wireguide.Base.Dict.{get, has, get-put, get-remove}
use wireguide.Base.Result.{err}
use wireguide.Domain.{WireGuardConfig, Protocol, wireguard}
use wireguide.Net.{Net}
use wireguide.Firewall.Rules.{Ruleset}
use wireguide.Tunnel.Types.{ErrorKind}
use wireguide.Helper.State.{Helper, HostPort, LiteralEndpoint}
use wireguide.Helper.Live.{Named}
use wireguide.Helper.Derive.{
  Answer, Session, derive, apply_firewall, refresh, refresh_all, names_of,
}
use wireguide.Helper.Holds.{store_resolved}
use wireguide.Helper.Handlers.{
  is_through, lift, lift_block, restore_block, cache_connect, restore_cache, connect_wireguard,
}
use wireguide.Helper.Handlers.Rollback.{refresh_all-blocked}

-- Whether liftBlockForConnect has a block to lift, or goes through another tunnel's.
abbrev pub is_lifted : Helper → Bytes → Bool
is_lifted h name = has h.blocked name || is_through h name

record LiftedFrom (name n : Bytes) (h h' : Helper) : Type 0 where
  policy : h'.policy.kill_switch ≡ h.policy.kill_switch
  blocked : has h'.blocked n ≡ (has h.blocked n && not (equal name n))
  through : has h'.through name ≡ not (has h.blocked name)

lift-LiftedFrom :
    (name n : Bytes) (h : Helper) → is_lifted h name ≡ true → LiftedFrom name n h (lift name h)
unfolding lift has
lift-LiftedFrom name n h l = record {
  policy = ground arith;
  blocked = ground (arith, get-remove h.blocked name n);
  through =
      ground
        (arith, get-remove h.through name name, get-put h.through name name tt, equal_refl name);
}

lift_block-LiftedFrom :
    (name n : Bytes) (resolved : List LiteralEndpoint) (h : Helper)
    → is_lifted h name ≡ true
    → LiftedFrom name n h (lift_block name resolved h).1
unfolding lift_block store_resolved
lift_block-LiftedFrom name n [] h l = lift-LiftedFrom name n h l
lift_block-LiftedFrom name n (r ∷ rs) h l =
    let v = lift-LiftedFrom name n h l in
    record { policy = v.policy; blocked = v.blocked; through = v.through }

lift_block_none :
    (name n : Bytes) (resolved : List LiteralEndpoint) (h : Helper)
    → is_lifted h name ≡ false
    → has (lift_block name resolved h).1.blocked n ≡ has h.blocked n
unfolding lift_block lift store_resolved has
lift_block_none name n [] h l = ground arith
lift_block_none name n (r ∷ rs) h l = ground arith

blocks_left :
    (b2 b1 b own same through free : Bool)
    → b2 ≡ (b1 && free)
    → b1 ≡ (b && not same)
    → through ≡ not own
    → (same ≡ true → own ≡ b)
    → (b2 || (same && not through)) ≡ (b && (same || free))
blocks_left b2 b1 b own same through free p q r f = ground arith

and_assoc : (a b c : Bool) → ((a && b) && c) ≡ (a && (b && c))
and_assoc true b c = refl
and_assoc false b c = refl

module _ (net : Net) (parse_remotes : Bytes → Option (List HostPort)) where
  refresh_all-keeps :
      (live : List Named) (h : Helper)
      → ((refresh_all net parse_remotes live h).policy ≡ h.policy)
        × ((refresh_all net parse_remotes live h).through ≡ h.through)
  unfolding refresh_all refresh
  refresh_all-keeps [] h = (refl, refl)
  refresh_all-keeps (x ∷ live) h = refresh_all-keeps live (refresh net parse_remotes x h)

  module _ (answer : Ruleset → Answer) where
    -- What an applyFirewall changes of the blocks, before cleanup has begun.
    record AppliedTo (live : List Named) (n : Bytes) (s s' : Session) : Type 0 where
      going : s'.done ≡ false
      policy : s'.helper.policy ≡ s.helper.policy
      through : s'.helper.through ≡ s.helper.through
      blocked :
          has s'.helper.blocked n ≡ (has s.helper.blocked n && not (contains (names_of live) n))

    apply_firewall-AppliedTo :
        (live : List Named) (dns : List Bytes) (s : Session) (n : Bytes)
        → s.done ≡ false
        → AppliedTo live n s (apply_firewall net parse_remotes answer (live, dns) s).1
    unfolding apply_firewall derive
    apply_firewall-AppliedTo live dns s n d = record {
      going = ground arith;
      policy = rw d (refresh_all-keeps live s.helper).0;
      through = rw d (refresh_all-keeps live s.helper).1;
      blocked = rw d (refresh_all-blocked net parse_remotes live s.helper n);
    }

    restore_block-blocked :
        (name n : Bytes) (p : Protocol) (h : Helper)
        → h.policy.kill_switch ≡ true
        → has (restore_block name p h).blocked n
          ≡ (has h.blocked n || (equal name n && not (has h.through name)))
    unfolding restore_block has
    restore_block-blocked name n p h on = ground (arith, get-put h.blocked name n p)

    lifted_blocks :
        (before after : List Named) (dns dns' : List Bytes) (auto : Bool)
        (resolved : List LiteralEndpoint) (cfg : WireGuardConfig) (s : Session) (n : Bytes)
        → s.done ≡ false
        → s.helper.policy.kill_switch ≡ true
        → is_lifted s.helper cfg.name ≡ true
        → let s1 = record s {
          helper = (lift_block cfg.name resolved (cache_connect cfg auto s.helper)).1;
        } in
          let s2 = (apply_firewall net parse_remotes answer (before, dns) s1).1 in
          let cached =
            restore_cache cfg.name
              (get s.helper.active_cfgs cfg.name)
              (get s.helper.auto_reconnect cfg.name)
              s2.helper in
          let s3 = record s2 { helper = restore_block cfg.name wireguard cached } in
          has (apply_firewall net parse_remotes answer (after, dns') s3).1.helper.blocked n ≡ (
            has s.helper.blocked n
            && ((equal cfg.name n || not (contains (names_of before) n))
                && not (contains (names_of after) n)))
    unfolding cache_connect restore_cache
    lifted_blocks before after dns dns' auto resolved cfg s n d on l =
        let h1 = cache_connect cfg auto s.helper in
        let s1 = record s { helper = (lift_block cfg.name resolved h1).1 } in
        let s2 = (apply_firewall net parse_remotes answer (before, dns) s1).1 in
        let cached =
          restore_cache cfg.name (get s.helper.active_cfgs cfg.name)
            (get s.helper.auto_reconnect cfg.name) s2.helper in
        let s3 = record s2 { helper = restore_block cfg.name wireguard cached } in
        let v = lift_block-LiftedFrom cfg.name n resolved h1 l in
        let a1 = apply_firewall-AppliedTo before dns s1 n d in
        let kill = ap (λ pol. pol.kill_switch) a1.policy ∙ v.policy ∙ on in
        let b = restore_block-blocked cfg.name n wireguard cached kill in
        let a2 = apply_firewall-AppliedTo after dns' s3 n a1.going in
        let t = ap (λ m. has m cfg.name) a1.through ∙ v.through in
        a2.blocked
        ∙ ap (λ x. x && not (contains (names_of after) n))
            (b
              ∙ blocks_left (has s2.helper.blocked n) (has s1.helper.blocked n)
                  (has s.helper.blocked n) (has s.helper.blocked cfg.name) (equal cfg.name n)
                  (has s2.helper.through cfg.name) (not (contains (names_of before) n)) a1.blocked
                  v.blocked t (λ e. ap (has s.helper.blocked) ((equal_iff cfg.name n).0 e)))
        ∙ and_assoc (has s.helper.blocked n)
            (equal cfg.name n || not (contains (names_of before) n))
            (not (contains (names_of after) n))

    -- While the kill switch is on and cleanup has not begun, a WireGuard connect that fails leaves
    -- exactly the blocks that it found, its own tunnel's included, but for those of the tunnels that its
    -- applyFirewall calls, before the connect and behind its failure, find live. (The call in front
    -- cannot drop its own tunnel's. A connect that lifted nothing calls none.)
    pub connect_wireguard_fails :
        (before after : List Named) (dns dns' : List Bytes) (k : ErrorKind) (auto : Bool)
        (resolved : List LiteralEndpoint) (cfg : WireGuardConfig) (s : Session) (n : Bytes)
        → s.done ≡ false
        → s.helper.policy.kill_switch ≡ true
        → let s' =
            (connect_wireguard net parse_remotes answer
              (before, dns)
              (after, dns')
              (err k)
              auto
              resolved
              cfg
              s).1 in
          has s'.helper.blocked n ≡ (
            if is_lifted s.helper cfg.name
            then has s.helper.blocked n
              && ((equal cfg.name n || not (contains (names_of before) n))
                  && not (contains (names_of after) n))
            else has s.helper.blocked n)
    unfolding connect_wireguard cache_connect restore_cache lift_block
    connect_wireguard_fails before after dns dns' k auto resolved cfg s n d on =
        elim (Bool-cases (is_lifted s.helper cfg.name)) [
          | inl l ↦ rw l (lifted_blocks before after dns dns' auto resolved cfg s n d on l)
          | inr l ↦ rw l (lift_block_none cfg.name n resolved (cache_connect cfg auto s.helper) l)
        ]

-- ===== src/Helper/Handlers/Rollback.antt =====
-- What handleSetKillSwitch and a failed connect put back.
use wireguide.Base.{Bool, true, false, not, ◌&&◌, ◌||◌, List, [], ◌∷◌, Option, ◌≡◌, refl, arith}
use wireguide.Base.Bytes.{Bytes, contains}
use wireguide.Base.Dict.{Dict, get, put, has, get-put, get-remove}
use wireguide.Domain.{Protocol}
use wireguide.Net.{Net}
use wireguide.Firewall.Rules.{Ruleset}
use wireguide.Helper.State.{Helper, HostPort}
use wireguide.Helper.Live.{Named}
use wireguide.Helper.Derive.{
  Answer, Session, derive, apply_firewall, refresh, refresh_all, is_empty_dict, names_of,
}
use wireguide.Helper.Handlers.{block_all, set_kill_switch_policy, set_kill_switch}

has-block_all : (d e : Dict Protocol) (k : Bytes) → has (block_all d e) k ≡ (has d k || has e k)
unfolding block_all has get
has-block_all [] e k = refl
has-block_all ((n, p) ∷ d) e k = ground (arith, get-put e n k p, has-block_all d (put e n p) k)

has-empty {ℓ} : {V : Type ℓ} (d : Dict V) (k : Bytes) → is_empty_dict d ≡ true → has d k ≡ false
unfolding has get
has-empty [] k h = refl
has-empty (x ∷ d) k h = cc

abbrev no_blocks : Dict Protocol
no_blocks = []

has-none : (k : Bytes) → has no_blocks k ≡ false
has-none k = has-empty no_blocks k refl

module _ (net : Net) (parse_remotes : Bytes → Option (List HostPort)) where
  pub refresh_all-blocked :
      (live : List Named) (h : Helper) (k : Bytes)
      → has (refresh_all net parse_remotes live h).blocked k
        ≡ (has h.blocked k && not (contains (names_of live) k))
  unfolding refresh_all refresh has contains
  refresh_all-blocked [] h k = ground arith
  refresh_all-blocked ((n, t) ∷ live) h k = ground (
    arith,
    refresh_all-blocked live (refresh net parse_remotes (n, t) h) k,
    get-remove h.blocked n k,
  )

  module _ (answer : Ruleset → Answer) where
    -- Where the rules of a changed kill switch cannot be loaded, the handler puts the old setting
    -- back. Turning it off has then released no block, and turning it on only those of live tunnels.
    pub set_kill_switch_rolls_back :
        (live : List Named) (dns : List Bytes) (enabled : Bool) (s : Session) (k : Bytes)
        → (set_kill_switch net parse_remotes answer (live, dns) enabled s).0 ≡ false
        → let after = (set_kill_switch net parse_remotes answer (live, dns) enabled s).1.helper in
          (after.policy.kill_switch ≡ s.helper.policy.kill_switch)
          × (has after.blocked k
              ≡ (has s.helper.blocked k && not (enabled && contains (names_of live) k)))
    unfolding set_kill_switch apply_firewall derive set_kill_switch_policy
    set_kill_switch_rolls_back live dns enabled s k failed =
        let h = set_kill_switch_policy enabled s.helper in
        let now = (refresh_all net parse_remotes live h).blocked in
        (
          ground arith,
          ground (
            arith,
            refresh_all-blocked live h k,
            has-empty s.helper.blocked k,
            has-none k,
            has-block_all s.helper.blocked now k,
            has-block_all [] now k,
          ),
        )

-- ===== src/Firewall/Driver/Restore.antt =====
-- The driver gives pf back as it found it.
use wireguide.Base.{Bool, true, false, List, [], ◌∷◌, none, some, ◌≡◌, arith, All}
use wireguide.Base.Bytes.{Bytes}
use wireguide.Base.Result.{Result, ok, err}
use wireguide.Net.{Net}
use wireguide.Firewall.Rules.{RuleError, build_rules}
use wireguide.Firewall.Driver.{
  System, DarwinFirewall, Calls, State, teardown, apply_rules, apply, cleanup, recover_stale_state,
  Operation, applies, cleans_up, run_operations,
}

-- pf was enabled, or not, before the driver's first use.
module _ (original : Bool) where
  -- Between two operations: an idle driver has left pf as it was, an active one remembers how it
  -- was, in memory and on disk.
  pub record Remembers (st : State) : Type 0 where
    pub idle_enabled : st.0.active ≡ false → st.1.enabled ≡ original
    pub idle_anchor : st.0.active ≡ false → st.1.anchor ≡ []
    pub idle_file : st.0.active ≡ false → st.1.state_file ≡ none
    pub active_memory : st.0.active ≡ true → st.0.pf_was_enabled ≡ original
    pub kept_enabled : original ≡ true → st.1.enabled ≡ true
    pub active_file : st.0.active ≡ true → st.1.state_file ≡ some original

  -- The state file can be written, read and removed, and pfctl can query, flush and disable.
  pub record IsReliable (c : Calls) : Type 0 where
    pub query : c.query ≡ true
    pub persist : c.persist ≡ true
    pub read_state : c.read_state ≡ true
    pub remove_state : c.remove_state ≡ true
    pub flush : c.flush ≡ true
    pub disable : c.disable ≡ true

  abbrev pub IsReliableOperation : Operation → Type 0
  IsReliableOperation (applies rs c) = IsReliable c
  IsReliableOperation (cleans_up c) = IsReliable c

  teardown-Remembers :
      (c : Calls) (f : DarwinFirewall) (s : System)
      → IsReliable c
      → Remembers (f, s)
      → Remembers (teardown c (f, s))
  unfolding teardown
  teardown-Remembers c f s ready h = ground arith

  apply_rules-Remembers :
      (c : Calls) (r : Result RuleError Bytes) (f : DarwinFirewall) (s : System)
      → IsReliable c
      → Remembers (f, s)
      → Remembers (apply_rules c r (f, s)).1
  unfolding apply_rules
  apply_rules-Remembers c (err e) f s ready h = h
  apply_rules-Remembers c (ok []) f s ready h = teardown-Remembers c f s ready h
  apply_rules-Remembers c (ok (x ∷ rules)) f s ready h = ground arith

  run_operations-Remembers :
      (net : Net) (ops : List Operation) (f : DarwinFirewall) (s : System)
      → All IsReliableOperation ops
      → Remembers (f, s)
      → Remembers (run_operations net ops (f, s))
  unfolding run_operations apply
  run_operations-Remembers net [] f s ready h = h
  run_operations-Remembers net (applies rs c ∷ ops) f s ready h =
      let (r, st) = apply_rules c (build_rules net rs) (f, s) in
      run_operations-Remembers net ops st.0 st.1 ready.1
        (apply_rules-Remembers c (build_rules net rs) f s ready.0 h)
  run_operations-Remembers net (cleans_up c ∷ ops) f s ready h =
      run_operations-Remembers net ops (teardown c (f, s)).0 (teardown c (f, s)).1 ready.1
        (teardown-Remembers c f s ready.0 h)

  abbrev pub fresh : State
  fresh = (
    record { active = false; pf_was_enabled = false },
    record { enabled = original; anchor = []; state_file = none },
  )

  abbrev pub IsRestored : System → Type 0
  IsRestored s = (s.enabled ≡ original) × (s.anchor ≡ []) × (s.state_file ≡ none)

  fresh-Remembers : Remembers fresh
  fresh-Remembers = ground arith

  -- Whatever rulesets were applied before, with whichever loads and enables failing, Cleanup leaves
  -- pf enabled or disabled as it was before the driver's first use, its anchor empty and no state
  -- file, if the state file can be written, read and removed and pfctl can query, flush and disable.
  pub cleanup_restores :
      (net : Net) (ops : List Operation) (c : Calls)
      → All IsReliableOperation ops
      → IsReliable c
      → IsRestored (cleanup c (run_operations net ops fresh)).1
  unfolding cleanup teardown
  cleanup_restores net ops c ready reliable =
      ground (arith, run_operations-Remembers net ops fresh.0 fresh.1 ready fresh-Remembers)

  -- So does the next process, which has only the state file, if the helper dies between two
  -- operations.
  pub recover_restores :
      (net : Net) (ops : List Operation) (c : Calls)
      → All IsReliableOperation ops
      → IsReliable c
      → IsRestored (recover_stale_state c (run_operations net ops fresh).1)
  unfolding recover_stale_state
  recover_restores net ops c ready reliable =
      ground (arith, run_operations-Remembers net ops fresh.0 fresh.1 ready fresh-Remembers)

-- ===== src/Firewall/Driver.antt =====
-- internal/firewall/darwin.go: the state machine that loads rules into pf. What pfctl does when it
-- succeeds is what pfctl(8) documents; whether it succeeds is a parameter of each call.
pub mod Restore
use wireguide.Base.{Bool, true, false, not, ◌&&◌, List, [], ◌∷◌, Option, none, some, if◌then◌else◌}
use wireguide.Base.Bytes.{Bytes}
use wireguide.Base.Result.{Result, ok, err}
use wireguide.Domain.{is_empty}
use wireguide.Net.{Net}
use wireguide.Firewall.Rules.{Ruleset, RuleError, build_rules}

-- The system: whether pf is enabled, the rules in our anchor, and the saved state file, which
-- holds "1" or "0".
pub record System : Type 0 where
  pub enabled : Bool
  pub anchor : Bytes
  pub state_file : Option Bool

-- DarwinFirewall
pub record DarwinFirewall : Type 0 where
  pub active : Bool
  pub pf_was_enabled : Bool

-- Which of the system calls of one operation succeed.
pub record Calls : Type 0 where
  pub query : Bool
  pub load : Bool
  pub enable : Bool
  pub disable : Bool
  pub flush : Bool
  pub persist : Bool
  pub read_state : Bool
  pub remove_state : Bool

pub data ApplyError : Type 0 where
  bad_rules : RuleError → ApplyError
  load_failed enable_failed : ApplyError

abbrev pub State : Type 0
State = DarwinFirewall × System

-- flushAllAnchors; pfctl reports an error only where it leaves the anchor
unfoldable pub flush_all_anchors : Calls → System → System
flush_all_anchors c s = if c.flush then record s { anchor = [] } else s

unfoldable pub disable_pf : Calls → System → System
disable_pf c s = if c.disable then record s { enabled = false } else s

-- removePfStateFile, whose error is dropped
abbrev pub remove_state_file : Calls → System → System
remove_state_file c s = if c.remove_state then record s { state_file = none } else s

-- teardownLocked
unfoldable pub teardown : Calls → State → State
unfolding flush_all_anchors disable_pf
teardown c (f, s) = if not f.active then (f, s) else (
  record f { active = false },
  remove_state_file c (
      if not f.pf_was_enabled then disable_pf c (flush_all_anchors c s) else flush_all_anchors c s),
)

-- persistPfEnabledState
abbrev persist_state : Calls → Bool → System → System
persist_state c enabled s = if c.persist then record s { state_file = some enabled } else s

-- isPfEnabled, which is false where pfctl fails
abbrev pub is_pf_enabled : Calls → System → Bool
is_pf_enabled c s = c.query && s.enabled

-- the part under `if firstUse`
unfoldable pub take_over : Calls → State → State
take_over c (f, s) =
    if not f.active
    then (record f { pf_was_enabled = is_pf_enabled c s }, persist_state c (is_pf_enabled c s) s)
    else (f, s)

-- from loading the rules on; the flag is `firstUse`
unfoldable pub load_rules : Calls → Bool → Bytes → State → Result ApplyError (Unit {0}) × State
load_rules c first_use rules (f, s) =
    if not c.load
    then (err load_failed, (f, if first_use then remove_state_file c s else s))
    else if not c.enable
    then (err enable_failed, (record f { active = true }, record s { anchor = rules }))
    else (ok tt, (record f { active = true }, record s { anchor = rules; enabled = true }))

-- Apply behind BuildRules
unfoldable pub apply_rules :
    Calls → Result RuleError Bytes → State → Result ApplyError (Unit {0}) × State
unfolding teardown take_over load_rules
apply_rules c (err e) st = (err (bad_rules e), st)
apply_rules c (ok rules) (f, s) =
    if is_empty rules
    then (ok tt, teardown c (f, s))
    else load_rules c (not f.active) rules (take_over c (f, s))

-- Apply
unfoldable pub apply : Net → Calls → Ruleset → State → Result ApplyError (Unit {0}) × State
unfolding apply_rules build_rules
apply net c rs = apply_rules c (build_rules net rs)

-- Cleanup
unfoldable pub cleanup : Calls → State → State
unfolding teardown
cleanup = teardown

-- RecoverStaleState; a state file that is there and cannot be read is left
unfoldable pub recover_stale_state : Calls → System → System
unfolding flush_all_anchors disable_pf
recover_stale_state c s =
    let flushed = flush_all_anchors c s in
    elim s.state_file [
      | none ↦ flushed
      | some was_enabled ↦
          if c.read_state
          then remove_state_file c (if not was_enabled then disable_pf c flushed else flushed)
          else flushed
    ]

-- One call into the driver.
pub data Operation : Type 0 where
  applies : Ruleset → Calls → Operation
  cleans_up : Calls → Operation

unfoldable pub run_operation : Net → Operation → State → State
unfolding apply cleanup
run_operation net (applies rs c) st = let (r, st') = apply net c rs st in st'
run_operation net (cleans_up c) st = cleanup c st

unfoldable pub run_operations : Net → List Operation → State → State
unfolding run_operation
run_operations net [] st = st
run_operations net (op ∷ ops) st = run_operations net ops (run_operation net op st)

-- ===== src/Tunnel/Interleaving/Ops.antt =====
-- The operations that are between their critical sections, and how many of them a name has.
use wireguide.Base.{ℕ, Bool, List, [], ◌∷◌, ◌+◌, if◌then◌else◌}
use wireguide.Base.Bytes.{Bytes, equal}
use wireguide.Base.Result.{Result, ok, err}
use wireguide.Domain.{WireGuardConfig}
use wireguide.Tunnel.Types.{ErrorKind, Manager}
use wireguide.Tunnel.Manager.{Teardown}

-- An operation that is between its critical sections.
pub data Op : Type 0 where
  connecting_op : WireGuardConfig → Op
  teardown_op : Teardown → Op

pub record System : Type 0 where
  pub manager : Manager
  pub ops : List Op

abbrev pub started : Result ErrorKind Teardown → List Op → List Op
started (ok t) ops = teardown_op t ∷ ops
started (err _) ops = ops

-- NewManager, and no operation running
abbrev pub initial : System
initial = record { manager = record { tunnels = []; pin_interface = Bool.false }; ops = [] }

-- How many connects, and how many teardowns, of a name are between their critical sections.
abbrev pub connects : Bytes → List Op → ℕ
connects n [] = 0
connects n (connecting_op cfg ∷ ops) = (if equal cfg.name n then 1 else 0) + connects n ops
connects n (teardown_op t ∷ ops) = connects n ops

abbrev pub teardowns : Bytes → List Op → ℕ
teardowns n [] = 0
teardowns n (connecting_op cfg ∷ ops) = teardowns n ops
teardowns n (teardown_op t ∷ ops) = (if equal t.name n then 1 else 0) + teardowns n ops

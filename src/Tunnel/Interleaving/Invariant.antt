-- ===== src/Tunnel/Interleaving/Invariant.antt =====
-- What holds between any two critical sections, whatever the interleaving.
use mathlib.Core.Path.{subst}
use wireguide.Base.{
  ◌∙◌, ℕ, ◌+◌, Bool, true, false, List, [], ◌∷◌, ◌++◌, Option, some, none, ◌≡◌, refl, arith,
  if◌then◌else◌, Bool-cases, Option-cases, inl, inr, ap, sym,
}
use wireguide.Base.Bytes.{Bytes, equal, equal_iff, equal_refl}
use wireguide.Base.Dict.{Dict, get, get-put, get-remove}
use wireguide.Base.Result.{Result, ok, err}
use wireguide.Domain.{WireGuardConfig}
use wireguide.Net.{Net}
use wireguide.Tunnel.Types.{
  State, disconnected, connecting, disconnecting, ErrorKind, Engine, Entry, Manager,
}
use wireguide.Tunnel.Manager.{
  is_connected, is_connecting, is_disconnecting, is_some, Teardown, claim_connect, commit_connect,
  claimed, entry_or_fresh, refusal,
}
use wireguide.Tunnel.Interleaving.Ops.{Op, connecting_op, teardown_op, System, connects, teardowns}

abbrev pub state_at : Option Entry → State
state_at none = disconnected
state_at (some e) = e.state

abbrev pub bit : Bool → ℕ
bit true = 1
bit false = 0

-- the parts of an entry that go with its state
abbrev pub IsSound : Bytes → Option Entry → Type 0
IsSound n none = Unit {0}
IsSound n (some e) =
    (is_connected e.state ≡ true → is_some e.engine ≡ true)
    × (is_some e.net_mgr ≡ true)
    × (c : WireGuardConfig) × (e.cfg ≡ some c)
    × (c.name ≡ n)

-- A tunnel is connecting while exactly one connect of its name runs, and disconnecting while
-- exactly one teardown does; each entry has its config and, if connected, its engine.
pub record Inv (s : System) : Type 0 where
  pub connecting_once :
      (n : Bytes) → connects n s.ops ≡ bit (is_connecting (state_at (get s.manager.tunnels n)))
  pub disconnecting_once :
      (n : Bytes) → teardowns n s.ops ≡ bit (is_disconnecting (state_at (get s.manager.tunnels n)))
  pub sound : (n : Bytes) → IsSound n (get s.manager.tunnels n)

connects-middle :
    (n : Bytes) (before after : List Op) (cfg : WireGuardConfig)
    → connects n (before ++ (connecting_op cfg ∷ after))
      ≡ (if equal cfg.name n then 1 else 0) + connects n (before ++ after)
connects-middle n [] after cfg = refl
connects-middle n (connecting_op c ∷ before) after cfg =
    omega (arith, connects-middle n before after cfg)
connects-middle n (teardown_op t ∷ before) after cfg = connects-middle n before after cfg

teardowns-middle_connect :
    (n : Bytes) (before after : List Op) (cfg : WireGuardConfig)
    → teardowns n (before ++ (connecting_op cfg ∷ after)) ≡ teardowns n (before ++ after)
teardowns-middle_connect n [] after cfg = refl
teardowns-middle_connect n (connecting_op c ∷ before) after cfg =
    teardowns-middle_connect n before after cfg
teardowns-middle_connect n (teardown_op t ∷ before) after cfg =
    omega (arith, teardowns-middle_connect n before after cfg)

pub teardowns-middle :
    (n : Bytes) (before after : List Op) (t : Teardown)
    → teardowns n (before ++ (teardown_op t ∷ after))
      ≡ (if equal t.name n then 1 else 0) + teardowns n (before ++ after)
teardowns-middle n [] after t = refl
teardowns-middle n (connecting_op c ∷ before) after t = teardowns-middle n before after t
teardowns-middle n (teardown_op u ∷ before) after t =
    omega (arith, teardowns-middle n before after t)

pub connects-middle_teardown :
    (n : Bytes) (before after : List Op) (t : Teardown)
    → connects n (before ++ (teardown_op t ∷ after)) ≡ connects n (before ++ after)
connects-middle_teardown n [] after t = refl
connects-middle_teardown n (connecting_op c ∷ before) after t =
    omega (arith, connects-middle_teardown n before after t)
connects-middle_teardown n (teardown_op u ∷ before) after t =
    connects-middle_teardown n before after t

-- What a change of one key's entry and of the running operations asks for.
module _ (s : System) (d : Dict Entry) (pin : Bool) (ops : List Op) (k : Bytes) (o : Option Entry)
    (now_at : (n : Bytes) → get d n ≡ (if equal k n then o else get s.manager.tunnels n)) where
  abbrev pub Balanced : (Bytes → List Op → ℕ) → (State → Bool) → Bytes → Type 0
  Balanced count is n =
      count n ops + (if equal k n then bit (is (state_at (get s.manager.tunnels k))) else 0)
      ≡ count n s.ops + (if equal k n then bit (is (state_at o)) else 0)

  balanced_lem :
      (count : Bytes → List Op → ℕ) (is : State → Bool) (n : Bytes)
      → Balanced count is n
      → count n s.ops ≡ bit (is (state_at (get s.manager.tunnels n)))
      → count n ops ≡ bit (is (state_at (get d n)))
  balanced_lem count is n b h = ground (arith, now_at n, equal_iff k n)

  sound_lem : (n : Bytes) → IsSound k o → IsSound n (get s.manager.tunnels n) → IsSound n (get d n)
  sound_lem n at_k elsewhere = elim (Bool-cases (equal k n)) [
    | inl same ↦
        subst (λ x. IsSound n x)
          (sym (now_at n ∙ ap (λ b. if b then o else get s.manager.tunnels n) same))
          (subst (λ j. IsSound j o) ((equal_iff k n).0 same) at_k)
    | inr other ↦
        subst (λ x. IsSound n x)
          (sym (now_at n ∙ ap (λ b. if b then o else get s.manager.tunnels n) other)) elsewhere
  ]

  pub update-Inv :
      Inv s
      → ((n : Bytes) → Balanced connects is_connecting n)
      → ((n : Bytes) → Balanced teardowns is_disconnecting n)
      → IsSound k o
      → Inv (record { manager = record { tunnels = d; pin_interface = pin }; ops = ops })
  update-Inv v bc bt at_k = record {
    connecting_once = λ n. balanced_lem connects is_connecting n (bc n) (v.connecting_once n);
    disconnecting_once =
        λ n. balanced_lem teardowns is_disconnecting n (bt n) (v.disconnecting_once n);
    sound = λ n. sound_lem n at_k (v.sound n);
  }

abbrev IsIdle : State → Type 0
IsIdle st = (is_connecting st ≡ false) × (is_disconnecting st ≡ false) × (is_connected st ≡ false)

refusal-IsIdle : (o : Option Entry) → refusal o ≡ none → IsIdle (state_at o)
unfolding refusal
refusal-IsIdle o h = ground arith

pub claim_connect-ok :
    (net : Net) (m m' : Manager) (cfg : WireGuardConfig)
    → claim_connect net m cfg ≡ ok m'
    → (m' ≡ claimed m cfg) × (refusal (get m.tunnels cfg.name) ≡ none)
unfolding claim_connect
claim_connect-ok net m m' cfg h = ground arith

pub connect_begins-Inv :
    (net : Net) (s : System) (m : Manager) (cfg : WireGuardConfig)
    → claim_connect net s.manager cfg ≡ ok m
    → Inv s
    → Inv (record { manager = m; ops = connecting_op cfg ∷ s.ops })
connect_begins-Inv net s m cfg h v =
    let (m_is, free) = claim_connect-ok net s.manager m cfg h in
    let idle = refusal-IsIdle _ free in
    rw m_is (
      update-Inv s _ s.manager.pin_interface (connecting_op cfg ∷ s.ops) cfg.name _
        (λ n. get-put s.manager.tunnels cfg.name n _) v (λ n. ground arith) (λ n. ground arith)
        (λ e. cc, refl, cfg, refl, refl))

-- While a connect runs, its entry is there and connecting.
pub connecting_entry :
    (s : System) (cfg : WireGuardConfig) (before after : List Op)
    → Inv s
    → s.ops ≡ before ++ (connecting_op cfg ∷ after)
    → (e : Entry) × (get s.manager.tunnels cfg.name ≡ some e) × (e.state ≡ connecting)
connecting_entry s cfg before after v h = elim (Option-cases (get s.manager.tunnels cfg.name)) [
  | inl gone ↦ absurd (
      ground (
        arith,
        v.connecting_once cfg.name,
        equal_refl cfg.name,
        ap (connects cfg.name) h,
        connects-middle cfg.name before after cfg,
      ))
  | inr (e, found) ↦ (
    e,
    found,
    ground (
      arith,
      v.connecting_once cfg.name,
      equal_refl cfg.name,
      ap (connects cfg.name) h,
      connects-middle cfg.name before after cfg,
    ),
  )
]

-- While a teardown runs, its entry is there and disconnecting.
pub disconnecting_entry :
    (s : System) (t : Teardown) (before after : List Op)
    → Inv s
    → s.ops ≡ before ++ (teardown_op t ∷ after)
    → (e : Entry) × (get s.manager.tunnels t.name ≡ some e) × (e.state ≡ disconnecting)
disconnecting_entry s t before after v h = elim (Option-cases (get s.manager.tunnels t.name)) [
  | inl gone ↦ absurd (
      ground (
        arith,
        v.disconnecting_once t.name,
        equal_refl t.name,
        ap (teardowns t.name) h,
        teardowns-middle t.name before after t,
      ))
  | inr (e, found) ↦ (
    e,
    found,
    ground (
      arith,
      v.disconnecting_once t.name,
      equal_refl t.name,
      ap (teardowns t.name) h,
      teardowns-middle t.name before after t,
    ),
  )
]

pub connect_ends-Inv :
    (s : System) (cfg : WireGuardConfig) (r : Result ErrorKind Engine) (now : ℕ)
    (before after : List Op)
    → s.ops ≡ before ++ (connecting_op cfg ∷ after)
    → Inv s
    → Inv (record {
      manager = (commit_connect s.manager cfg.name r now).manager;
      ops = before ++ after;
    })
unfolding commit_connect entry_or_fresh
connect_ends-Inv s cfg (err k) now before after h v =
    let (e, found, busy) = connecting_entry s cfg before after v h in
    update-Inv s _ s.manager.pin_interface (before ++ after) cfg.name none
      (λ n. get-remove s.manager.tunnels cfg.name n) v
      (λ n. ground (arith, ap (connects n) h, connects-middle n before after cfg))
      (λ n. ground (arith, ap (teardowns n) h, teardowns-middle_connect n before after cfg)) tt
connect_ends-Inv s cfg (ok engine) now before after h v =
    let (e, found, busy) = connecting_entry s cfg before after v h in
    rw (found, entry_or_fresh, busy)
      (update-Inv s _ s.manager.pin_interface (before ++ after) cfg.name _
        (λ n. get-put s.manager.tunnels cfg.name n _) v
        (λ n. ground (arith, ap (connects n) h, connects-middle n before after cfg))
        (λ n. ground (arith, ap (teardowns n) h, teardowns-middle_connect n before after cfg))
        (
          λ _. refl,
          (rw found at (v.sound cfg.name)).1,
          (rw found at (v.sound cfg.name)).2,
          (rw found at (v.sound cfg.name)).3,
          (rw found at (v.sound cfg.name)).4,
        ))

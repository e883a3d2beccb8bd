-- ===== src/Tunnel/Phases/Rollback.antt =====
-- What connectPhases and disconnectPhases leave behind.
use mathlib.Core.List.{append-nil, append_assoc}
use mathlib.Core.Path.{subst}
use wireguide.Base.{
  true, false, All, List, [], ◌∷◌, ◌++◌, Option, none, some, if◌then◌else◌, ◌≡◌, refl, ap, arith,
  inl, inr, Bool-cases, sym, ◌∙◌,
}
use wireguide.Base.Bytes.{Bytes, equal, equal_iff}
use wireguide.Base.Dict.{get, get-put, get-remove}
use wireguide.Base.Result.{ok, err}
use wireguide.Domain.{WireGuardConfig}
use wireguide.Net.{Net}
use wireguide.Tunnel.Types.{ErrorKind, network, Engine}
use wireguide.Tunnel.Recovery.{
  ActiveTunnelState, state_file_name, save_active_state, clear_active_state,
}
use wireguide.Tunnel.Phases.{
  Call, set_mtu, assign_address, bring_up, set_dns, cleanup, close_engine, World, Platform, Outcome,
  note, attempt, configure_dns, routes_call, configure_routes, start_interface, configure_address,
  set_up, begin, with_engine, connect_phases,
}

-- The calls that bring a tunnel up, in order.
abbrev pub dns_calls : Engine → List Bytes → List Call
dns_calls e [] = []
dns_calls e (d ∷ ds) = set_dns e.interface_name (d ∷ ds) ∷ []

abbrev pub bring_up_calls : Net → WireGuardConfig → Engine → List Call
bring_up_calls net cfg e =
    set_mtu e.interface_name cfg.interface.mtu
    ∷ assign_address e.interface_name cfg.interface.address
    ∷ bring_up e.interface_name
    ∷ routes_call net cfg e
    ∷ dns_calls e cfg.interface.dns

abbrev pub AllSucceed : Platform → List Call → Type 0
AllSucceed pf = All (λ c. pf.succeeds c ≡ true)

-- A run from `w` that began with engine `e`: it made every call of `steps` and all succeeded, or one
-- failed behind those that succeeded, and it then cleaned up, closed the engine and cleared the
-- recovery file.
abbrev pub RunsOrRollsBack :
    Platform → Engine → WireGuardConfig → World → List Call → Outcome → Type 0
RunsOrRollsBack pf e cfg w steps (ok e', w') =
    AllSucceed pf steps × (e' ≡ e) × (w'.log ≡ w.log ++ steps) × (w'.files ≡ w.files)
RunsOrRollsBack pf e cfg w steps (err k, w') =
    (k ≡ network)
    × (made : List Call) × (failed : Call) × (rest : List Call) × (steps ≡ made ++ (failed ∷ rest))
    × AllSucceed pf made
    × (pf.succeeds failed ≡ false)
    × (w'.log ≡ w.log ++ (made ++ (failed ∷ cleanup e.interface_name ∷ close_engine e.id ∷ [])))
    × (w'.files ≡ clear_active_state w.can_remove cfg.name w.files)

-- One step in front of a run.
extend :
    (pf : Platform) (e : Engine) (cfg : WireGuardConfig) (call : Call) (steps : List Call)
    (w : World) (o : Outcome)
    → pf.succeeds call ≡ true
    → RunsOrRollsBack pf e cfg (note call w) steps o
    → RunsOrRollsBack pf e cfg w (call ∷ steps) o
extend pf e cfg call steps w (ok e', w') s (all_fine, same, log, files) =
    ((s, all_fine), same, log ∙ append_assoc w.log (call ∷ []) steps, files)
extend pf e cfg call steps w (err k, w') s
      (kind, made, failed, rest, split, fine, fails, log, files) =
    (
      kind,
      call ∷ made,
      failed,
      rest,
      ap (◌∷◌ call) split,
      (s, fine),
      fails,
      log ∙ append_assoc w.log (call ∷ []) _,
      files,
    )

attempt-RunsOrRollsBack :
    (pf : Platform) (e : Engine) (cfg : WireGuardConfig) (call : Call) (steps : List Call)
    (next : World → Outcome) (w : World)
    → ((w' : World) → RunsOrRollsBack pf e cfg w' steps (next w'))
    → RunsOrRollsBack pf e cfg w (call ∷ steps) (attempt pf e cfg call next w)
unfolding attempt
attempt-RunsOrRollsBack pf e cfg call steps next w h = elim (Bool-cases (pf.succeeds call)) [
  | inl fine ↦ rw fine (extend pf e cfg call steps w (next (note call w)) fine (h (note call w)))
  | inr fails ↦ rw fails (
    refl,
    [],
    call,
    steps,
    refl,
    tt,
    fails,
    append_assoc (w.log ++ call ∷ []) (cleanup e.interface_name ∷ []) (close_engine e.id ∷ [])
        ∙ append_assoc w.log (call ∷ []) _,
    refl,
  )
]

configure_dns-RunsOrRollsBack :
    (pf : Platform) (e : Engine) (cfg : WireGuardConfig) (ds : List Bytes) (w : World)
    → RunsOrRollsBack pf e cfg w (dns_calls e ds) (configure_dns pf e cfg ds w)
unfolding configure_dns
configure_dns-RunsOrRollsBack pf e cfg [] w = (tt, refl, sym (append-nil w.log), refl)
configure_dns-RunsOrRollsBack pf e cfg (d ∷ ds) w =
    attempt-RunsOrRollsBack pf e cfg (set_dns e.interface_name (d ∷ ds)) [] (λ w'. (ok e, w')) w
      (λ w'. (tt, refl, sym (append-nil w'.log), refl))

module _ (net : Net) (pf : Platform) (e : Engine) (cfg : WireGuardConfig) where
  configure_routes-RunsOrRollsBack :
      (w : World)
      → RunsOrRollsBack pf e cfg w
          (routes_call net cfg e ∷ dns_calls e cfg.interface.dns)
          (configure_routes net pf e cfg w)
  unfolding configure_routes
  configure_routes-RunsOrRollsBack w =
      attempt-RunsOrRollsBack pf e cfg (routes_call net cfg e) (dns_calls e cfg.interface.dns)
        (configure_dns pf e cfg cfg.interface.dns) w
        (configure_dns-RunsOrRollsBack pf e cfg cfg.interface.dns)

  start_interface-RunsOrRollsBack :
      (w : World)
      → RunsOrRollsBack pf e cfg w
          (bring_up e.interface_name ∷ routes_call net cfg e ∷ dns_calls e cfg.interface.dns)
          (start_interface net pf e cfg w)
  unfolding start_interface
  start_interface-RunsOrRollsBack w =
      attempt-RunsOrRollsBack pf e cfg (bring_up e.interface_name)
        (routes_call net cfg e ∷ dns_calls e cfg.interface.dns) (configure_routes net pf e cfg) w
        configure_routes-RunsOrRollsBack

  configure_address-RunsOrRollsBack :
      (w : World)
      → RunsOrRollsBack pf e cfg w
          (assign_address e.interface_name cfg.interface.address
            ∷ bring_up e.interface_name
            ∷ routes_call net cfg e
            ∷ dns_calls e cfg.interface.dns)
          (configure_address net pf e cfg w)
  unfolding configure_address
  configure_address-RunsOrRollsBack w =
      attempt-RunsOrRollsBack pf e cfg (assign_address e.interface_name cfg.interface.address)
        (bring_up e.interface_name ∷ routes_call net cfg e ∷ dns_calls e cfg.interface.dns)
        (start_interface net pf e cfg) w start_interface-RunsOrRollsBack

  set_up-RunsOrRollsBack :
      (w : World) → RunsOrRollsBack pf e cfg w (bring_up_calls net cfg e) (set_up net pf e cfg w)
  unfolding set_up
  set_up-RunsOrRollsBack w =
      attempt-RunsOrRollsBack pf e cfg (set_mtu e.interface_name cfg.interface.mtu)
        (assign_address e.interface_name cfg.interface.address
          ∷ bring_up e.interface_name
          ∷ routes_call net cfg e
          ∷ dns_calls e cfg.interface.dns)
        (configure_address net pf e cfg) w configure_address-RunsOrRollsBack

-- Where the engine is created, connectPhases behind the engine's creation and the recovery record
-- makes every call of `bring_up_calls` in order and all succeed, or one fails with those in front of
-- it made and successful; then it reports a network error, makes no other of them, cleans the
-- interface up, closes the engine and clears the recovery record.
pub connect_phases-RunsOrRollsBack :
    (net : Net) (pf : Platform) (cfg : WireGuardConfig) (e : Engine) (w : World)
    → pf.new_engine cfg ≡ some e
    → RunsOrRollsBack pf e cfg
        (begin pf cfg e w)
        (bring_up_calls net cfg e)
        (connect_phases net pf cfg w)
unfolding connect_phases
connect_phases-RunsOrRollsBack net pf cfg e w h =
    subst
      (λ found.
        RunsOrRollsBack pf e cfg (begin pf cfg e w) (bring_up_calls net cfg e)
          (with_engine net pf cfg w found))
      (sym h) (set_up-RunsOrRollsBack net pf e cfg (begin pf cfg e w))

-- The recovery file that a failed connect leaves: none, or, where it cannot be removed, what was
-- written or was there before.
abbrev pub left_file :
    Platform → WireGuardConfig → Engine → World → Option (Option ActiveTunnelState)
left_file pf cfg e w =
    if w.can_remove
    then none
    else if pf.can_write
    then some (some (record { tunnel_name = cfg.name; interface_name = e.interface_name }))
    else get w.files (state_file_name cfg.name)

cleared :
    (pf : Platform) (cfg : WireGuardConfig) (e : Engine) (w : World) (f : Bytes)
    → get (clear_active_state w.can_remove cfg.name (begin pf cfg e w).files) f
      ≡ (if equal (state_file_name cfg.name) f then left_file pf cfg e w else get w.files f)
unfolding begin clear_active_state save_active_state
cleared pf cfg e w f = ground (
  arith,
  get-remove (begin pf cfg e w).files (state_file_name cfg.name) f,
  get-remove w.files (state_file_name cfg.name) f,
  get-put w.files (state_file_name cfg.name) f
      (some (record { tunnel_name = cfg.name; interface_name = e.interface_name })),
  equal_iff (state_file_name cfg.name) f,
)

failed_files :
    (pf : Platform) (e : Engine) (cfg : WireGuardConfig) (w : World) (steps : List Call)
    (o : Outcome) {k : ErrorKind}
    → RunsOrRollsBack pf e cfg w steps o
    → o.0 ≡ err k
    → o.1.files ≡ clear_active_state w.can_remove cfg.name w.files
failed_files pf e cfg w steps (ok _, w') h p = cc
failed_files pf e cfg w steps (err _, w') h p = h.8

-- A connect that fails behind the engine's creation leaves no recovery file of its tunnel where the
-- file can be removed; where it cannot, the error is dropped and the file stays, with the record of
-- this attempt if that could be written. Every other recovery file is as it was.
pub connect_phases_failed :
    (net : Net) (pf : Platform) (cfg : WireGuardConfig) (e : Engine) (w : World) (f : Bytes)
    {k : ErrorKind}
    → pf.new_engine cfg ≡ some e
    → (connect_phases net pf cfg w).0 ≡ err k
    → get (connect_phases net pf cfg w).1.files f
      ≡ (if equal (state_file_name cfg.name) f then left_file pf cfg e w else get w.files f)
unfolding begin
connect_phases_failed net pf cfg e w f h failed =
    rw
      (failed_files pf e cfg (begin pf cfg e w) (bring_up_calls net cfg e)
        (connect_phases net pf cfg w) (connect_phases-RunsOrRollsBack net pf cfg e w h) failed)
      (cleared pf cfg e w f)

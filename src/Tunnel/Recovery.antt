-- ===== src/Tunnel/Recovery.antt =====
-- internal/tunnel/recovery.go: the files that record which tunnels are active. The directory is a
-- dictionary from file names to contents; a content that is no JSON is `none`.
use wireguide.Base.{
  Bool, true, false, List, [], ◌∷◌, ◌++◌, Option, none, some, if◌then◌else◌, ◌==◌, ◌||◌,
}
use wireguide.Base.Bytes.{Bytes, codes}
use wireguide.Base.Dict.{Dict, put, remove}
use wireguide.Domain.{is_empty}

-- ActiveTunnelState
pub record ActiveTunnelState : Type 0 where
  pub tunnel_name : Bytes
  pub interface_name : Bytes

abbrev pub StateFiles : Type 0
StateFiles = Dict (Option ActiveTunnelState)

-- strings.NewReplacer("/", "_", "\\", "_", "..", "_").Replace
unfoldable pub sanitize : Bytes → Bytes
sanitize [] = []
sanitize (c ∷ []) = (if c == b'/' || c == b'\\' then b'_' else c) ∷ []
sanitize (c ∷ d ∷ s) = elim (c == b'/' || c == b'\\') [
  | true ↦ b'_' ∷ sanitize (d ∷ s)
  | false ↦ elim (c == b'.') [
    | true ↦ elim (d == b'.') [ true ↦ b'_' ∷ sanitize s | false ↦ c ∷ sanitize (d ∷ s) ]
    | false ↦ c ∷ sanitize (d ∷ s)
  ]
]

-- stateFileName
unfoldable pub state_file_name : Bytes → Bytes
unfolding sanitize
state_file_name name = sanitize name ++ codes ".json"

-- SaveActiveState; the flag says whether the write succeeds.
unfoldable pub save_active_state : Bool → ActiveTunnelState → StateFiles → StateFiles
save_active_state written st files =
    if written then put files (state_file_name st.tunnel_name) (some st) else files

-- ClearActiveState; the flag says whether the file, where there is one, can be removed. Both callers
-- drop the error.
unfoldable pub clear_active_state : Bool → Bytes → StateFiles → StateFiles
clear_active_state removes name files =
    if removes then remove files (state_file_name name) else files

-- LoadActiveState: the states read, and the files after corrupt ones are removed.
unfoldable pub load_active_state : StateFiles → List ActiveTunnelState × StateFiles
load_active_state [] = ([], [])
load_active_state ((file, none) ∷ rest) = load_active_state rest
load_active_state ((file, some st) ∷ rest) =
    let (states, kept) = load_active_state rest in (st ∷ states, (file, some st) ∷ kept)

unfoldable pub tunnel_names : List ActiveTunnelState → List Bytes
tunnel_names [] = []
tunnel_names (st ∷ states) = st.tunnel_name ∷ tunnel_names states

unfoldable pub interfaces_to_clean : List ActiveTunnelState → List Bytes
interfaces_to_clean [] = []
interfaces_to_clean (st ∷ states) =
    let rest = interfaces_to_clean states in
    if is_empty st.interface_name then rest else st.interface_name ∷ rest

-- RecoverFromCrash: the names recovered, the interfaces cleaned up, and the files left.
recover_states : List ActiveTunnelState → StateFiles → List Bytes × List Bytes × StateFiles
unfolding tunnel_names interfaces_to_clean
recover_states [] kept = ([], [], kept)
recover_states (st ∷ states) kept =
    (tunnel_names (st ∷ states), interfaces_to_clean (st ∷ states), [])

unfoldable pub recover_from_crash : StateFiles → List Bytes × List Bytes × StateFiles
unfolding load_active_state recover_states
recover_from_crash files =
    let (states, kept) = load_active_state files in recover_states states kept

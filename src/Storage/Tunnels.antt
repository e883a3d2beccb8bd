-- ===== src/Storage/Tunnels.antt =====
-- internal/storage/tunnels.go: the tunnels as files of one directory. `writes` says whether a write
-- succeeds; a file that is there can be read, removed and renamed. JSON is a parameter.
pub mod Exact
pub mod Laws
use wireguide.Base.{
  ℕ, Bool, true, false, not, ◌&&◌, ◌||◌, List, [], ◌∷◌, ◌++◌, Option, none, some, if◌then◌else◌,
  ◌==◌,
}
use wireguide.Base.Bytes.{Bytes, codes, equal, contains}
use wireguide.Base.Dict.{Dict, get, put, remove, has}
use wireguide.Base.Result.{Result, ok, err, ◌>>=◌}
use wireguide.Base.Text.{has_byte, to_lower}
use wireguide.Domain.{WireGuardConfig, Protocol, openvpn, normalize_protocol, is_empty}
use wireguide.Net.{Net}
use wireguide.Config.Fields.{ParseError}
use wireguide.Config.Parser.{parse}
use wireguide.Config.Serializer.{serialize}
use wireguide.Config.Validator.{Decoders, Errors, validate, is_valid}
use wireguide.Storage.Name.{NameError, validate_tunnel_name}
use wireguide.Storage.Files.{File, Files, read_file, is_file, write_file, remove_file, rename_file}

pub data StoreError : Type 0 where
  bad_name : NameError → StoreError
  bad_config : ParseError → StoreError
  not_valid : Errors → StoreError
  not_written missing taken escapes : StoreError

-- TunnelMeta
pub record TunnelMeta : Type 0 where
  pub auto_reconnect : Bool
  pub notes : Bytes
  pub protocol : Protocol

-- encoding/json of the metadata: `decode` gives nothing for an error.
pub record MetaJson : Type 0 where
  pub encode : TunnelMeta → Bytes
  pub decode : Bytes → Option TunnelMeta

abbrev no_meta : TunnelMeta
no_meta = record { auto_reconnect = false; notes = []; protocol = Protocol.empty }

-- path, ovpnPath and metaPath
unfoldable pub conf_path : Bytes → Bytes
conf_path name = name ++ codes ".conf"

unfoldable pub ovpn_path : Bytes → Bytes
ovpn_path name = name ++ codes ".ovpn"

unfoldable pub meta_path : Bytes → Bytes
meta_path name = name ++ codes ".meta.json"

abbrev pub check_name : Bytes → Result StoreError (Unit {0})
check_name name = elim (validate_tunnel_name name) [ ok u ↦ ok tt | err e ↦ err (bad_name e) ]

abbrev pub or_missing : Option Bytes → Result StoreError Bytes
or_missing none = err missing
or_missing (some s) = ok s

-- A name with its letters folded to lower case: those of ASCII, and the two others that fold to ASCII,
-- the long s (bytes 0xC5 0xBF) and the Kelvin sign (bytes 0xE2 0x84 0xAA).
unfoldable pub fold_name : Bytes → Bytes
unfolding to_lower
fold_name (a ∷ b ∷ c ∷ s) = elim (a == 0xE2 && (b == 0x84 && c == 0xAA)) [
  | true ↦ b'k' ∷ fold_name s
  | false ↦ elim (a == 0xC5 && b == 0xBF) [
    | true ↦ b's' ∷ fold_name (c ∷ s)
    | false ↦ to_lower (a ∷ []) ++ fold_name (b ∷ c ∷ s)
  ]
]
fold_name (a ∷ b ∷ []) = if a == 0xC5 && b == 0xBF then b's' ∷ [] else to_lower (a ∷ b ∷ [])
fold_name s = to_lower s

-- strings.EqualFold, of two names one of which is ASCII
unfoldable pub equal_fold : Bytes → Bytes → Bool
unfolding equal fold_name
equal_fold a b = equal (fold_name a) (fold_name b)

abbrev as_config : Bytes → Result ParseError WireGuardConfig → Result StoreError WireGuardConfig
as_config name (ok cfg) = ok (record cfg { name = name })
as_config name (err e) = err (bad_config e)

-- a name that can leave the directory
unfoldable pub is_escaping : Bytes → Bool
unfolding contains has_byte
is_escaping name =
    contains ([] ∷ codes "." ∷ codes ".." ∷ []) name || (has_byte b'/' name || has_byte 0 name)

module _ (canon : Bytes → Bytes) where
  abbrev pub written : Bool → Files → Bytes → Bytes → Result StoreError Files
  written writes fs path content =
      if writes then ok (write_file canon fs path content) else err not_written

  -- Save
  unfoldable pub save : Bool → WireGuardConfig → Files → Result StoreError Files
  unfolding validate_tunnel_name conf_path serialize write_file
  save writes cfg fs = do
    u ← check_name cfg.name
    written writes fs (conf_path cfg.name) (serialize cfg)

  -- Load
  unfoldable pub load : Net → Bytes → Files → Result StoreError WireGuardConfig
  unfolding validate_tunnel_name conf_path parse read_file
  load net name fs = do
    u ← check_name name
    content ← or_missing (read_file canon fs (conf_path name))
    as_config name (parse net content)

  -- exists
  unfoldable pub exists_file : Bytes → Files → Bool
  unfolding is_file conf_path ovpn_path
  exists_file name fs = is_file canon fs (conf_path name) || is_file canon fs (ovpn_path name)

  -- Exists
  unfoldable pub exists : Bytes → Files → Bool
  unfolding exists_file validate_tunnel_name
  exists name fs = elim (check_name name) [ err e ↦ false | ok u ↦ exists_file name fs ]

  -- Delete: the metadata goes even where there is no tunnel
  unfoldable pub delete : Bytes → Files → Result StoreError (Unit {0}) × Files
  unfolding validate_tunnel_name is_file remove_file conf_path ovpn_path meta_path exists_file
  delete name fs = elim (check_name name) [
    | err e ↦ (err e, fs)
    | ok u ↦ (
      if exists_file name fs then ok tt else err missing,
      remove_file canon (remove_file canon (remove_file canon fs (conf_path name)) (ovpn_path name))
          (meta_path name),
    )
  ]

  abbrev is_same_file : Files → Bytes → Bytes → Bool
  is_same_file fs a b = is_file canon fs a && (is_file canon fs b && equal (canon a) (canon b))

  -- sameTunnel, of a second name that ValidateTunnelName accepts
  unfoldable pub same_tunnel : Bytes → Bytes → Files → Bool
  unfolding equal_fold equal is_file conf_path ovpn_path
  same_tunnel a b fs =
      equal_fold a b
      && (is_same_file fs (conf_path a) (conf_path b)
          || is_same_file fs (ovpn_path a) (ovpn_path b))

  -- the three renames; one of a missing file changes nothing
  unfoldable pub rename_files : Bytes → Bytes → Files → Files
  unfolding rename_file conf_path ovpn_path meta_path
  rename_files old new fs =
      rename_file canon
        (rename_file canon (rename_file canon fs (ovpn_path old) (ovpn_path new)) (conf_path old)
          (conf_path new))
        (meta_path old) (meta_path new)

  -- Rename
  unfoldable pub rename : Bytes → Bytes → Files → Result StoreError Files
  unfolding validate_tunnel_name equal is_escaping exists_file same_tunnel rename_files
  rename old new fs = do
    u ← check_name new
    (if equal old new
        then ok fs
        else if is_escaping old
        then err escapes
        else if not (exists_file old fs)
        then err missing
        else if exists_file new fs && not (same_tunnel old new fs)
        then err taken
        else ok (rename_files old new fs))

  -- SaveOVPN and LoadOVPN
  unfoldable pub save_ovpn : Bool → Bytes → Bytes → Files → Result StoreError Files
  unfolding validate_tunnel_name ovpn_path write_file
  save_ovpn writes name content fs = do
    u ← check_name name
    written writes fs (ovpn_path name) content

  unfoldable pub load_ovpn : Bytes → Files → Result StoreError Bytes
  unfolding validate_tunnel_name ovpn_path read_file
  load_ovpn name fs = do u ← check_name name; or_missing (read_file canon fs (ovpn_path name))

  -- IsOVPN
  unfoldable pub is_ovpn : Bytes → Files → Bool
  unfolding is_file ovpn_path
  is_ovpn name fs = is_file canon fs (ovpn_path name)

  abbrev decoded : MetaJson → Option Bytes → TunnelMeta
  decoded json none = no_meta
  decoded json (some s) = elim (json.decode s) [ none ↦ no_meta | some m ↦ m ]

  -- LoadMeta, where the file can be read or is missing
  unfoldable pub load_meta : MetaJson → Bytes → Files → TunnelMeta
  unfolding read_file meta_path is_ovpn normalize_protocol
  load_meta json name fs =
      let m = decoded json (read_file canon fs (meta_path name)) in
      record m { protocol = if is_ovpn name fs then openvpn else normalize_protocol m.protocol }

  -- SaveMeta
  unfoldable pub save_meta : Bool → MetaJson → Bytes → TunnelMeta → Files → Result StoreError Files
  unfolding validate_tunnel_name meta_path write_file
  save_meta writes json name m fs = do
    u ← check_name name
    written writes fs (meta_path name) (json.encode m)

  -- ImportFromContent
  unfoldable pub import_from_content :
      Net → Decoders → Bool → Bytes → Bytes → Files → Result StoreError (WireGuardConfig × Files)
  unfolding parse validate save
  import_from_content net lib writes name content fs = do
    cfg ← as_config name (parse net content)
    (if is_valid (validate net lib cfg)
        then (do fs' ← save writes cfg fs; ok (cfg, fs'))
        else err (not_valid (validate net lib cfg)))

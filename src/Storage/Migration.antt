-- ===== src/Storage/Migration.antt =====
-- migrateTunnels of internal/storage/paths.go: the tunnels of the former directory are copied into
-- the store. Which calls fail is an argument.
use wireguide.Base.{
  Bool, true, false, ◌&&◌, ◌||◌, not, List, [], ◌∷◌, Option, none, some, if◌then◌else◌, ◌≡◌,
}
use wireguide.Base.Bytes.{Bytes, codes, equal, has_prefix, has_suffix}
use wireguide.Storage.Files.{Files, read_file, is_file, write_file}

-- An entry of the former directory: whether it is a regular file, and its content where it can be
-- read.
pub record Entry : Type 0 where
  pub name : Bytes
  pub regular : Bool
  pub content : Option Bytes

-- Whether a new file can be created, and whether it can then be written; a file that cannot be
-- written is removed again.
pub record Disk : Type 0 where
  pub creates : Bytes → Bool
  pub writes : Bytes → Bool

abbrev pub migrated_marker : Bytes
migrated_marker = codes ".legacy-migrated"

-- `clean` and the store
pub record Pass : Type 0 where
  pub clean : Bool
  pub files : Files

unfoldable pub is_skipped : Entry → Bool
unfolding has_prefix has_suffix
is_skipped e = not e.regular || (has_suffix e.name (codes ".tmp") || has_prefix e.name (codes "."))

module _ (canon : Bytes → Bytes) (disk : Disk) where
  abbrev copy_file : Entry → Option Bytes → Pass → Pass
  copy_file e none p = record p { clean = false }
  copy_file e (some v) p =
      if not (disk.creates e.name) || not (disk.writes e.name)
      then record p { clean = false }
      else record p { files = write_file canon p.files e.name v }

  unfoldable pub migrate_entry : Entry → Pass → Pass
  unfolding is_skipped is_file write_file
  migrate_entry e p =
      if is_skipped e
      then p
      else if is_file canon p.files e.name
      then p
      else copy_file e e.content p

  unfoldable pub migrate_entries : List Entry → Pass → Pass
  unfolding migrate_entry
  migrate_entries [] p = p
  migrate_entries (e ∷ es) p = migrate_entries es (migrate_entry e p)

  -- migrateTunnels; there are no entries where the former directory cannot be read
  unfoldable pub migrate_tunnels : Option (List Entry) → Files → Files
  unfolding is_file migrate_entries write_file
  migrate_tunnels none fs = fs
  migrate_tunnels (some es) fs =
      if is_file canon fs migrated_marker
      then fs
      else let p = migrate_entries es (record { clean = true; files = fs }) in
        if p.clean && disk.writes migrated_marker
        then write_file canon p.files migrated_marker []
        else p.files

  -- No file of the first store is lost or changed.
  abbrev pub Keeps : Files → Files → Type 0
  Keeps fs fs' = (m v : Bytes) → read_file canon fs m ≡ some v → read_file canon fs' m ≡ some v

  abbrev pub or_else : Option Bytes → Option Bytes → Option Bytes
  or_else none o = o
  or_else (some v) o = some v

  -- What the former directory has for a name of the store: the content of the first entry that is to
  -- be copied and has that name.
  abbrev pub former : List Entry → Bytes → Option Bytes
  former [] m = none
  former (e ∷ es) m =
      if not (is_skipped e) && equal (canon e.name) (canon m) then e.content else former es m

  abbrev There : Pass → Bytes → Type 0
  There p m = (v : Bytes) × (read_file canon p.files m ≡ some v)

  abbrev pub pass_of : List Entry → Files → Pass
  pass_of es fs = migrate_entries es (record { clean = true; files = fs })

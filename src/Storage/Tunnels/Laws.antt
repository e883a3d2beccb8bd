-- ===== src/Storage/Tunnels/Laws.antt =====
-- The store of internal/storage/tunnels.go as a map from names to configurations.
use wireguide.Base.{
  Bool, true, false, ◌⊎◌, not, ◌&&◌, Option, none, if◌then◌else◌, ◌≡◌, refl, ◌∙◌, arith,
}
use wireguide.Base.Bytes.{Bytes, equal, equal_refl}
use wireguide.Base.Result.{Result, ok, err, >>=-eq-ok}
use wireguide.Domain.{WireGuardConfig}
use wireguide.Net.{Net}
use wireguide.Config.Parser.RoundTrip.{IsPrintable, parse-serialize}
use wireguide.Config.Serializer.{serialize}
use wireguide.Storage.Files.{
  Files, read_file, write_file, remove_file, rename_file, moved, read_file-write_file,
  read_file-remove_file, read_file-rename_file, rename_file-keeps, read_file-same, is_file-none,
}
use wireguide.Storage.Tunnels.{
  StoreError, missing, taken, escapes, conf_path, ovpn_path, meta_path, check_name, written, save,
  load, exists_file, delete, same_tunnel, is_escaping, rename_files, rename,
}

-- The volume tells the three files of a tunnel apart, and two tunnels' files by their names.
pub record IsNaming (canon : Bytes → Bytes) : Type 0 where
  pub conf :
      (a b : Bytes) → equal (canon (conf_path a)) (canon (conf_path b)) ≡ equal (canon a) (canon b)
  pub ovpn :
      (a b : Bytes) → equal (canon (ovpn_path a)) (canon (ovpn_path b)) ≡ equal (canon a) (canon b)
  pub conf_ovpn : (a b : Bytes) → equal (canon (conf_path a)) (canon (ovpn_path b)) ≡ false
  pub ovpn_conf : (a b : Bytes) → equal (canon (ovpn_path a)) (canon (conf_path b)) ≡ false
  pub meta_conf : (a b : Bytes) → equal (canon (meta_path a)) (canon (conf_path b)) ≡ false
  pub meta_ovpn : (a b : Bytes) → equal (canon (meta_path a)) (canon (ovpn_path b)) ≡ false

-- What the store holds under a name: its .conf and its .ovpn.
abbrev pub Stored : Type 0
Stored = Option Bytes × Option Bytes

abbrev pub nothing_stored : Stored
nothing_stored = (none, none)

unfoldable pub stored : (Bytes → Bytes) → Files → Bytes → Stored
unfolding read_file conf_path ovpn_path
stored canon fs name = (read_file canon fs (conf_path name), read_file canon fs (ovpn_path name))

module _ (canon : Bytes → Bytes) where
  written_file :
      (writes : Bool) (fs fs' : Files) (path content : Bytes)
      → written canon writes fs path content ≡ ok fs'
      → fs' ≡ write_file canon fs path content
  written_file true fs fs' path content h = cc
  written_file false fs fs' path content h = cc

  saved_file :
      (writes : Bool) (cfg : WireGuardConfig) (fs fs' : Files)
      → save canon writes cfg fs ≡ ok fs'
      → (check_name cfg.name ≡ ok tt)
        × (fs' ≡ write_file canon fs (conf_path cfg.name) (serialize cfg))
  unfolding save
  saved_file writes cfg fs fs' h =
      let q =
        >>=-eq-ok (check_name cfg.name)
          (λ u. written canon writes fs (conf_path cfg.name) (serialize cfg)) fs' h in
      (q.1, written_file writes fs fs' (conf_path cfg.name) (serialize cfg) q.2)

  -- A configuration that Serialize can write whole is loaded as it was saved, and no other file
  -- changes.
  pub save-load :
      (net : Net) (writes : Bool) (cfg : WireGuardConfig) (fs fs' : Files)
      → IsPrintable net cfg
      → save canon writes cfg fs ≡ ok fs'
      → (load canon net cfg.name fs' ≡ ok cfg)
        × ((m : Bytes)
            → equal (canon (conf_path cfg.name)) (canon m) ≡ false
            → read_file canon fs' m ≡ read_file canon fs m)
  unfolding load
  save-load net writes cfg fs fs' v h =
      let (u, w) = saved_file writes cfg fs fs' h in
      (
        rw u (
            rw w (
              rw
                (
                  read_file-write_file canon fs (conf_path cfg.name) (conf_path cfg.name)
                      (serialize cfg),
                  equal_refl (canon (conf_path cfg.name)),
                  parse-serialize net cfg v,
                )
                refl)),
        λ m d.
            rw w (read_file-write_file canon fs (conf_path cfg.name) m (serialize cfg) ∙ rw d refl),
      )

  -- The tunnel's two files and one more, after the three renames.
  read_file-rename_files :
      IsNaming canon
      → (old new : Bytes) (fs : Files) (m : Bytes)
      → stored canon (rename_files canon old new fs) m ≡ (
        moved canon
            (read_file canon fs (conf_path old))
            (conf_path old)
            (conf_path new)
            (conf_path m)
            (read_file canon fs (conf_path m)),
        moved canon
            (read_file canon fs (ovpn_path old))
            (ovpn_path old)
            (ovpn_path new)
            (ovpn_path m)
            (read_file canon fs (ovpn_path m)),
      )
  unfolding stored rename_files
  read_file-rename_files v old new fs m =
      let fs1 = rename_file canon fs (ovpn_path old) (ovpn_path new) in
      let fs2 = rename_file canon fs1 (conf_path old) (conf_path new) in
      let keep : (k : Bytes)
          → read_file canon fs1 (conf_path k) ≡ read_file canon fs (conf_path k) =
        λ k.
          rename_file-keeps canon fs (ovpn_path old) (ovpn_path new) (conf_path k)
            (v.ovpn_conf old k) (v.ovpn_conf new k) in
      λ i. (
        (rename_file-keeps canon fs2 (meta_path old) (meta_path new) (conf_path m)
                (v.meta_conf old m) (v.meta_conf new m)
              ∙ read_file-rename_file canon fs1 (conf_path old) (conf_path new) (conf_path m)
              ∙ λ j.
                  moved canon (keep old j) (conf_path old) (conf_path new) (conf_path m) (keep m j))
            i,
        (rename_file-keeps canon fs2 (meta_path old) (meta_path new) (ovpn_path m)
                (v.meta_ovpn old m) (v.meta_ovpn new m)
              ∙ rename_file-keeps canon fs1 (conf_path old) (conf_path new) (ovpn_path m)
                  (v.conf_ovpn old m) (v.conf_ovpn new m)
              ∙ read_file-rename_file canon fs (ovpn_path old) (ovpn_path new) (ovpn_path m))
            i,
      )

  -- The file that `path` gives a name, after it moved onto a name that is free or is the same file.
  moved_as :
      (path : Bytes → Bytes)
      → ((a b : Bytes) → equal (canon (path a)) (canon (path b)) ≡ equal (canon a) (canon b))
      → (old new : Bytes) (fs : Files) (m : Bytes)
      → (read_file canon fs (path new) ≡ none) ⊎ (equal (canon old) (canon new) ≡ true)
      → moved canon
          (read_file canon fs (path old))
          (path old)
          (path new)
          (path m)
          (read_file canon fs (path m))
        ≡ (if equal (canon new) (canon m)
            then read_file canon fs (path old)
            else if equal (canon old) (canon m)
            then none
            else read_file canon fs (path m))
  moved_as path same old new fs m free = ground (
    arith,
    same new m,
    same old m,
    same old new,
    read_file-same canon fs (path new) (path m),
    read_file-same canon fs (path old) (path m),
    read_file-same canon fs (path old) (path new),
  )

  if-pair :
      (b c : Bool) (x x' y y' : Option Bytes)
      → ◌≡◌ {A = Stored}
          ((if b then x else if c then none else x'), (if b then y else if c then none else y'))
          (if b then (x, y) else if c then nothing_stored else (x', y'))
  if-pair true c x x' y y' = refl
  if-pair false true x x' y y' = refl
  if-pair false false x x' y y' = refl

  if-none :
      (b : Bool) (x y : Option Bytes)
      → ◌≡◌ {A = Stored}
          ((if b then none else x), (if b then none else y))
          (if b then nothing_stored else (x, y))
  if-none true x y = refl
  if-none false x y = refl

  granted :
      (a b c d e : Bool) (r fs fs' : Files)
      → ◌≡◌ {A = Result StoreError Files}
          (if a
            then ok fs
            else if b
            then err escapes
            else if not c
            then err missing
            else if d && not e
            then err taken
            else ok r)
          (ok fs')
      → a ≡ false
      → (fs' ≡ r) × ((d ≡ false) ⊎ (e ≡ true))
  granted a b c d e r fs fs' h k = grind arith

  renamed_files :
      (old new : Bytes) (fs fs' : Files)
      → rename canon old new fs ≡ ok fs'
      → equal old new ≡ false
      → (fs' ≡ rename_files canon old new fs)
        × ((exists_file canon new fs ≡ false) ⊎ (same_tunnel canon old new fs ≡ true))
  unfolding rename
  renamed_files old new fs fs' h n =
      let q =
        >>=-eq-ok (check_name new)
          (λ u.
            if equal old new
            then ok fs
            else if is_escaping old
            then err escapes
            else if not (exists_file canon old fs)
            then err missing
            else if exists_file canon new fs && not (same_tunnel canon old new fs)
            then err taken
            else ok (rename_files canon old new fs))
          fs' h in
      granted (equal old new) (is_escaping old) (exists_file canon old fs)
        (exists_file canon new fs) (same_tunnel canon old new fs) (rename_files canon old new fs) fs
        fs' q.2 n

  -- Where a tunnel's name is free, or is its own in other letters.
  is_free :
      IsNaming canon
      → (old new : Bytes) (fs : Files)
      → (exists_file canon new fs ≡ false) ⊎ (same_tunnel canon old new fs ≡ true)
      → ((read_file canon fs (conf_path new) ≡ none) ⊎ (equal (canon old) (canon new) ≡ true))
        × ((read_file canon fs (ovpn_path new) ≡ none) ⊎ (equal (canon old) (canon new) ≡ true))
  unfolding exists_file same_tunnel
  is_free v old new fs h = ground (
    arith,
    v.conf old new,
    v.ovpn old new,
    is_file-none canon fs (conf_path new),
    is_file-none canon fs (ovpn_path new),
  )

  -- Rename moves a tunnel's configuration to the new name and leaves all other tunnels.
  pub rename-stored :
      IsNaming canon
      → (old new : Bytes) (fs fs' : Files) (m : Bytes) → equal old new ≡ false
      → rename canon old new fs ≡ ok fs'
      → stored canon fs' m ≡ (
          if equal (canon new) (canon m)
          then stored canon fs old
          else if equal (canon old) (canon m)
          then nothing_stored
          else stored canon fs m)
  unfolding stored
  rename-stored v old new fs fs' m n h =
      let (q, c) = renamed_files old new fs fs' h n in
      let (f, g) = is_free v old new fs c in
      rw q (
        read_file-rename_files v old new fs m
        ∙ (λ i. (
          moved_as conf_path v.conf old new fs m f i,
          moved_as ovpn_path v.ovpn old new fs m g i,
        ))
        ∙ if-pair (equal (canon new) (canon m)) (equal (canon old) (canon m))
            (read_file canon fs (conf_path old)) (read_file canon fs (conf_path m))
            (read_file canon fs (ovpn_path old)) (read_file canon fs (ovpn_path m)))

  removed_files :
      IsNaming canon
      → (name : Bytes) (fs : Files) (m : Bytes)
      → let fs1 = remove_file canon fs (conf_path name) in
        let fs2 = remove_file canon fs1 (ovpn_path name) in
        stored canon (remove_file canon fs2 (meta_path name)) m
        ≡ (if equal (canon name) (canon m) then nothing_stored else stored canon fs m)
  unfolding stored
  removed_files v name fs m =
      let fs1 = remove_file canon fs (conf_path name) in
      let fs2 = remove_file canon fs1 (ovpn_path name) in
      let p = conf_path m in
      let q = ovpn_path m in
      rw
        (
          read_file-remove_file canon fs2 (meta_path name) p,
          v.meta_conf name m,
          read_file-remove_file canon fs1 (ovpn_path name) p,
          v.ovpn_conf name m,
          read_file-remove_file canon fs (conf_path name) p,
          v.conf name m,
          read_file-remove_file canon fs2 (meta_path name) q,
          v.meta_ovpn name m,
          read_file-remove_file canon fs1 (ovpn_path name) q,
          v.ovpn name m,
          read_file-remove_file canon fs (conf_path name) q,
          v.conf_ovpn name m,
        )
        (if-none (equal (canon name) (canon m)) (read_file canon fs p) (read_file canon fs q))

  -- Delete forgets a tunnel and leaves all others.
  pub delete-stored :
      IsNaming canon
      → (name : Bytes) (fs : Files) (m : Bytes) → check_name name ≡ ok tt
      → stored canon (delete canon name fs).1 m
        ≡ (if equal (canon name) (canon m) then nothing_stored else stored canon fs m)
  unfolding delete
  delete-stored v name fs m h = rw (h, delete) (removed_files v name fs m)

-- ===== src/Tests/Storage.antt =====
-- Runs of the tunnel store and its migration.
use wireguide.Base.{true, false, List, [], ◌∷◌, none, some, if◌then◌else◌, ◌≡◌, refl, ◌||◌}
use wireguide.Base.Bytes.{Bytes, codes, equal, contains, has_suffix}
use wireguide.Base.Dict.{get, put, remove, has}
use wireguide.Base.Result.{ok}
use wireguide.Config.Serializer.{serialize}
use wireguide.Storage.Name.{validate_tunnel_name}
use wireguide.Storage.Files.{Files, read_file, write_file}
use wireguide.Storage.Listing.{DirEntry, trim_suffix, list, files, contains-list}
use wireguide.Storage.Tunnels.{conf_path, ovpn_path, check_name, save, load, rename, delete}
use wireguide.Storage.Tunnels.Laws.{nothing_stored, stored, save-load, rename-stored, delete-stored}
use wireguide.Storage.Tunnels.Exact.{exact-IsNaming}
use wireguide.Storage.Migration.{Entry, Disk}
use wireguide.Tests.Data.{toy_net, office}
use wireguide.Tests.Config.{office-IsPrintable}

abbrev exact : Bytes → Bytes
exact s = s

abbrev saved : Files
saved = write_file exact [] (conf_path office.name) (serialize office)

save_run : save exact true office [] ≡ ok saved
unfolding save validate_tunnel_name
save_run = refl

save-load_example :
    (load exact toy_net office.name saved ≡ ok office)
    × ((m : Bytes)
        → equal (exact (conf_path office.name)) (exact m) ≡ false
        → read_file exact saved m ≡ read_file exact [] m)
save-load_example = save-load exact toy_net true office [] saved office-IsPrintable save_run

-- Two tunnels, and the files after a rename of the first.
abbrev two_tunnels : Files
two_tunnels =
    write_file exact (write_file exact [] (codes "home.conf") (codes "h")) (codes "work.ovpn")
      (codes "w")

abbrev renamed : Files
renamed =
    write_file exact (write_file exact [] (codes "work.ovpn") (codes "w")) (codes "house.conf")
      (codes "h")

rename_run : rename exact (codes "home") (codes "house") two_tunnels ≡ ok renamed
unfolding rename validate_tunnel_name write_file put get remove has equal
rename_run = refl

rename-stored_example : stored exact renamed (codes "house") ≡ (
    if equal (exact (codes "house")) (exact (codes "house"))
    then stored exact two_tunnels (codes "home")
    else if equal (exact (codes "home")) (exact (codes "house"))
    then nothing_stored
    else stored exact two_tunnels (codes "house"))
unfolding equal
rename-stored_example =
    rename-stored exact exact-IsNaming (codes "home") (codes "house") two_tunnels renamed
      (codes "house") refl rename_run

home_ok : check_name (codes "home") ≡ ok tt
unfolding validate_tunnel_name
home_ok = refl

delete-stored_example : stored exact (delete exact (codes "home") two_tunnels).1 (codes "work") ≡ (
    if equal (exact (codes "home")) (exact (codes "work"))
    then nothing_stored
    else stored exact two_tunnels (codes "work"))
delete-stored_example =
    delete-stored exact exact-IsNaming (codes "home") two_tunnels (codes "work") home_ok

abbrev good_disk : Disk
good_disk = record { creates = λ s. true; writes = λ s. true }

abbrev old_entries : List Entry
old_entries =
    record { name = codes "home.conf"; regular = true; content = some (codes "old") }
    ∷ record { name = codes "lab.conf"; regular = true; content = some (codes "l") }
    ∷ record { name = codes "lab.conf.tmp"; regular = true; content = none }
    ∷ []

-- Both files of a tunnel, a folder and a file of another kind.
abbrev entries : List DirEntry
entries =
    record { name = codes "home.conf"; is_dir = false }
    ∷ record { name = codes "home.ovpn"; is_dir = false }
    ∷ record { name = codes "old.conf"; is_dir = true }
    ∷ record { name = codes "notes.txt"; is_dir = false }
    ∷ []

entries_run : list entries ≡ codes "home" ∷ []
unfolding list equal has_suffix trim_suffix
entries_run = refl

contains-list_example : contains (list entries) (codes "home") ≡ (
    contains (files entries) (conf_path (codes "home"))
    || contains (files entries) (ovpn_path (codes "home")))
contains-list_example = contains-list entries (codes "home")

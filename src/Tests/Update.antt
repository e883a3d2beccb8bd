-- ===== src/Tests/Update.antt =====
-- Runs of the version order and of a download.
use wireguide.Base.{ℕ, zero, suc, true, false, [], ◌∷◌, some, if◌then◌else◌, ◌≡◌, refl}
use wireguide.Base.Bytes.{Bytes, codes, equal}
use wireguide.Base.Int.{pos}
use wireguide.Base.Result.{ok}
use wireguide.Update.Download.{World, responds, redirects, UpdateInfo, Download, download_update}
use wireguide.Update.Download.Signed.{IsChecked, download_update-IsChecked}
use wireguide.Update.Version.{is_newer_version, is_newer_version_trans}

-- Not the order of text: 1.10 is newer than 1.9.
ten_nine : is_newer_version (codes "1.10.0") (codes "1.9.3") ≡ true
unfolding is_newer_version
ten_nine = refl

nine_eight : is_newer_version (codes "1.9.3") (codes "1.9") ≡ true
unfolding is_newer_version
nine_eight = refl

-- A tag that is no version is never offered.
beta_ignored : is_newer_version (codes "2.0-beta") (codes "1.9") ≡ false
unfolding is_newer_version
beta_ignored = refl

is_newer_version_trans_example :
    (is_newer_version (codes "1.10.0") (codes "1.9") ≡ true)
    × (is_newer_version (codes "1.9") (codes "1.10.0") ≡ false)
is_newer_version_trans_example =
    is_newer_version_trans (codes "1.10.0") (codes "1.9.3") (codes "1.9") ten_nine nine_eight

-- A release whose asset and signature are on GitHub.
abbrev asset_url : Bytes
asset_url = codes "https://github.com/a.zip"

abbrev objects_url : Bytes
objects_url = codes "https://objects.githubusercontent.com/a.zip"

abbrev repeat : ℕ → Bytes
repeat zero = []
repeat (suc n) = 7 ∷ repeat n

abbrev signature_file : Bytes
signature_file = repeat 64

abbrev github : World
github = record {
  parse_url = λ url. some (
    codes "https",
    if equal url objects_url then codes "objects.githubusercontent.com" else codes "github.com",
  );
  fetch = λ url.
      if equal url asset_url
      then redirects objects_url
      else responds (record {
        status = 200;
        content_length = pos 2000000;
        copy = λ limit. some (2000000, codes "c0ffee");
        read_all = λ limit. some signature_file;
      });
  public_key = some (codes "key");
  verify = λ key message signature. true;
  creates_temp_file = true;
  sets_quarantine = true;
}

abbrev release : UpdateInfo
release = record {
  version = codes "1.10.0";
  download_url = asset_url;
  asset_size = pos 2000000;
  expected_hash = codes "C0FFEE";
  hash_verified = false;
  signature_url = codes "https://github.com/a.zip.sig";
  signature_verified = false;
}

abbrev downloaded : Download
downloaded = record {
  size = 2000000;
  hash = codes "c0ffee";
  info = record release { hash_verified = true; signature_verified = true };
}

release_downloads : download_update true github release ≡ ok downloaded
unfolding download_update
release_downloads = refl

download_update-IsChecked_example : IsChecked github release downloaded
download_update-IsChecked_example =
    download_update-IsChecked github release downloaded release_downloads

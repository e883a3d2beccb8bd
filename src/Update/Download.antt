-- ===== src/Update/Download.antt =====
-- DownloadUpdate of internal/update/checker.go. The HTTP client, url.Parse and Ed25519 are parameters;
-- so is io.Copy with the hash behind it: how many of at most n bytes it wrote, and their SHA-256.
pub mod Signed
use mathlib.Core.List.{reverse}
use wireguide.Base.{
  ℕ, zero, suc, ◌+◌, ◌*◌, ◌/◌, ◌%◌, ◌^◌, ◌-◌, Bool, true, false, not, ◌&&◌, ◌||◌, List, [], ◌∷◌,
  ◌++◌, Option, none, some, if◌then◌else◌, ◌==◌, ltb, leb, length,
}
use wireguide.Base.Bytes.{Bytes, codes, equal, has_prefix, has_suffix}
use wireguide.Base.Int.{ℤ, pos, negsuc, ltb_ℤ}
use wireguide.Base.Result.{Result, ok, err}
use wireguide.Base.Text.{to_lower}
use wireguide.Domain.{is_empty}

pub data DownloadError : Type 0 where
  no_url untrusted_url untrusted_signature_url get_failed bad_status wrong_content_length :
      DownloadError
  no_temp_file copy_failed too_small wrong_size checksum_mismatch not_quarantined : DownloadError
  bad_key no_signature signature_not_fetched bad_signature_size signature_failed : DownloadError

-- The fields of UpdateInfo that DownloadUpdate uses.
pub record UpdateInfo : Type 0 where
  pub version : Bytes
  pub download_url : Bytes
  pub asset_size : ℤ
  pub expected_hash : Bytes
  pub hash_verified : Bool
  pub signature_url : Bytes
  pub signature_verified : Bool

pub record Response : Type 0 where
  pub status : ℕ
  pub content_length : ℤ
  -- io.Copy of at most so many bytes: the count and the hash in hex, or the error
  pub copy : ℕ → Option (ℕ × Bytes)
  -- io.ReadAll of at most so many bytes
  pub read_all : ℕ → Option Bytes

-- What one request for a URL gives.
pub data Fetched : Type 0 where
  fails : Fetched
  redirects : Bytes → Fetched
  responds : Response → Fetched

-- The libraries and the machine.
pub record World : Type 0 where
  pub parse_url : Bytes → Option (Bytes × Bytes)
  pub fetch : Bytes → Fetched
  pub public_key : Option Bytes
  pub verify : Bytes → Bytes → Bytes → Bool
  pub creates_temp_file : Bool
  pub sets_quarantine : Bool

-- What DownloadUpdate returns and leaves in `info`.
pub record Download : Type 0 where
  pub size : ℕ
  pub hash : Bytes
  pub info : UpdateInfo

abbrev pub min_asset_size : ℕ
min_asset_size = 1048576

abbrev pub max_signature_size : ℕ
max_signature_size = 1024

-- `if !b { return e }` in front of the rest
unfoldable pub check :
    {A : Type 0} → Bool → DownloadError → Result DownloadError A → Result DownloadError A
check true e rest = rest
check false e rest = err e

-- `x, err := o; if err != nil { return e }` in front of the rest
unfoldable pub try :
    {A B : Type 0}
    → Option A
    → DownloadError
    → (A → Result DownloadError B)
    → Result DownloadError B
try none e rest = err e
try (some x) e rest = rest x

abbrev is_github_host : Bytes → Bool
is_github_host host =
    equal host (codes "github.com")
    || (has_suffix host (codes ".github.com") || has_suffix host (codes ".githubusercontent.com"))

-- signedMessage
unfoldable pub signed_message : Bytes → Bytes → Bytes
signed_message version hash = version ++ (b'\n' ∷ hash)

-- An int64 by its residue, where it is at least 100 MB, or that many bytes.
abbrev at_least_cap : ℕ → ℕ
at_least_cap w = if leb (2 ^ 63) w || ltb w 104857600 then 104857600 else w

-- maxSize: the sum of two int64 wraps around
unfoldable pub max_size : ℤ → ℕ
max_size (pos n) = at_least_cap ((n + n / 10) % 2 ^ 64)
max_size (negsuc n) = at_least_cap (2 ^ 64 - 1 - (n + (n + 1) / 10) % 2 ^ 64)

abbrev pub is_positive : ℤ → Bool
is_positive n = ltb_ℤ (pos 0) n

abbrev pub differs : ℤ → ℤ → Bool
differs m n = ltb_ℤ m n || ltb_ℤ n m

-- the checksum check: where a hash is expected, it is the one of the download
unfoldable pub has_expected_hash : UpdateInfo → Bytes → Bool
unfolding equal to_lower
has_expected_hash info hash =
    is_empty info.expected_hash || equal (to_lower hash) (to_lower info.expected_hash)

module _ (require_signature : Bool) (w : World) where
  -- isTrustedAssetURL, where url.Parse gives the scheme and the host name
  unfoldable pub is_trusted_asset_url : Bytes → Bool
  unfolding equal to_lower has_suffix
  is_trusted_asset_url url = elim (w.parse_url url) [
    | none ↦ false
    | some (scheme, host) ↦ equal scheme (codes "https") && is_github_host (to_lower host)
  ]

  -- CheckRedirect
  abbrev pub admits : ℕ → Bytes → Bool
  admits via url = ltb via 10 && is_trusted_asset_url url

  -- client.Get, behind `via` requests: the URL that the response came from. CheckRedirect refuses the
  -- tenth redirect, so that the fuel of ten requests is enough.
  unfoldable pub follow : ℕ → ℕ → Bytes → Option (Bytes × Response)
  unfolding is_trusted_asset_url
  follow zero via url = none
  follow (suc fuel) via url = elim (w.fetch url) [
    | fails ↦ none
    | responds resp ↦ some (url, resp)
    | redirects next ↦ if admits (via + 1) next then follow fuel (via + 1) next else none
  ]

  unfoldable pub get : Bytes → Option (Bytes × Response)
  unfolding follow
  get url = follow 10 0 url

  -- fetchSignature
  unfoldable pub fetch_signature : Bytes → Option Bytes
  unfolding get
  fetch_signature url = elim (get url) [
    | none ↦ none
    | some (_, resp) ↦ if resp.status == 200 then resp.read_all max_signature_size else none
  ]

  -- behind fetching the signature
  unfoldable pub check_signature :
      Bytes → Bytes → UpdateInfo → Option Bytes → Result DownloadError UpdateInfo
  unfolding check signed_message
  check_signature key hash info none =
      if require_signature then err signature_not_fetched else ok info
  check_signature key hash info (some sig) = check (length sig == 64) bad_signature_size (
      check (w.verify key (signed_message info.version hash) sig) signature_failed
        (ok (record info { signature_verified = true })))

  -- verifySignature
  unfoldable pub verify_signature : Bytes → UpdateInfo → Result DownloadError UpdateInfo
  unfolding try check_signature fetch_signature
  verify_signature hash info = try w.public_key bad_key (λ key.
      if is_empty info.signature_url
      then (if require_signature then err no_signature else ok info)
      else check_signature key hash info (fetch_signature info.signature_url))

  -- from the signature on
  abbrev finished : ℕ → Bytes → Result DownloadError UpdateInfo → Result DownloadError Download
  finished size hash (err e) = err e
  finished size hash (ok info) =
      check w.sets_quarantine not_quarantined
        (ok (record { size = size; hash = hash; info = info }))

  -- DownloadUpdate from the copied file on
  unfoldable pub verify_download : UpdateInfo → ℕ → Bytes → Result DownloadError Download
  unfolding check verify_signature has_expected_hash
  verify_download info size hash = check (leb min_asset_size size) too_small (
      check (not (is_positive info.asset_size && differs (pos size) info.asset_size)) wrong_size (
        check (has_expected_hash info hash) checksum_mismatch (
          finished size hash (
            verify_signature hash (record info {
              hash_verified = info.hash_verified || not (is_empty info.expected_hash);
            })))))

  -- DownloadUpdate
  unfoldable pub download_update : UpdateInfo → Result DownloadError Download
  unfolding check try get is_trusted_asset_url max_size verify_download
  download_update info = check (not (is_empty info.download_url)) no_url (
      check (is_trusted_asset_url info.download_url) untrusted_url (
        check (is_empty info.signature_url || is_trusted_asset_url info.signature_url)
          untrusted_signature_url
          (try (get info.download_url) get_failed (λ source.
            let resp = source.1 in
            check (resp.status == 200) bad_status (
              check
                (not (
                  is_positive resp.content_length
                  && (is_positive info.asset_size && differs resp.content_length info.asset_size)))
                wrong_content_length
                (check w.creates_temp_file no_temp_file (
                  try (resp.copy (max_size info.asset_size)) copy_failed
                    (λ copied. verify_download info copied.0 copied.1))))))))

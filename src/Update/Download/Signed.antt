-- ===== src/Update/Download/Signed.antt =====
-- What DownloadUpdate of internal/update/checker.go has checked of a file that it returns.
use wireguide.Base.{
  ℕ, zero, suc, ◌+◌, Bool, true, false, not, ◌&&◌, ◌||◌, Option, none, some, if◌then◌else◌, ◌==◌,
  leb, length, ◌≡◌, refl, ap, sym, ◌∙◌, ltb, and_right,
}
use wireguide.Base.Bytes.{Bytes}
use wireguide.Base.Int.{pos}
use wireguide.Base.Result.{Result, ok, err}
use wireguide.Domain.{is_empty}
use wireguide.Update.Download.{
  DownloadError, no_signature, UpdateInfo, World, Download, min_asset_size, check, try,
  signed_message, Response, Fetched, responds, fails, redirects, follow, get, max_size, is_positive,
  differs, has_expected_hash, is_trusted_asset_url, admits, fetch_signature, check_signature,
  verify_signature, finished, verify_download, download_update,
}

-- A check that was passed held, and a call that was passed gave something.
check_passed :
    {A : Type 0} (b : Bool) (e : DownloadError) (rest : Result DownloadError A) (a : A)
    → check b e rest ≡ ok a
    → (b ≡ true) × (rest ≡ ok a)
unfolding check
check_passed true e rest a h = (refl, h)
check_passed false e rest a h = cc

try_passed :
    {A B : Type 0} (o : Option A) (e : DownloadError) (rest : A → Result DownloadError B) (b : B)
    → try o e rest ≡ ok b
    → (x : A) × ((o ≡ some x) × (rest x ≡ ok b))
unfolding try
try_passed none e rest b h = cc
try_passed (some x) e rest b h = (x, (refl, h))

-- The embedded key verifies, for the version and the hash of the file, the signature that is at the
-- signature's URL.
pub record IsSigned (w : World) (info : UpdateInfo) (hash : Bytes) : Type 0 where
  pub key : Bytes
  pub signature : Bytes
  pub embedded : w.public_key ≡ some key
  pub fetched : fetch_signature true w info.signature_url ≡ some signature
  pub verified : w.verify key (signed_message info.version hash) signature ≡ true

-- The response of a trusted URL that the file is a copy of.
pub record IsFromTrusted (w : World) (info : UpdateInfo) (size : ℕ) (hash : Bytes) : Type 0 where
  pub url : Bytes
  pub response : Response
  pub got : get true w info.download_url ≡ some (url, response)
  pub responded : w.fetch url ≡ responds response
  pub trusted : is_trusted_asset_url true w url ≡ true
  pub copied : response.copy (max_size info.asset_size) ≡ some (size, hash)

-- What is checked of a returned file, beside its signature.
pub record IsChecked (w : World) (info : UpdateInfo) (d : Download) : Type 0 where
  pub trusted : is_trusted_asset_url true w info.download_url ≡ true
  pub source : IsFromTrusted w info d.size d.hash
  pub large : leb min_asset_size d.size ≡ true
  pub sized : (is_positive info.asset_size && differs (pos d.size) info.asset_size) ≡ false
  pub hashed : has_expected_hash info d.hash ≡ true
  pub signed : IsSigned w info d.hash

negated : (b : Bool) → not b ≡ true → b ≡ false
negated true h = cc
negated false h = refl

if_some :
    (b : Bool) (o : Option (Bytes × Response)) (x : Bytes × Response)
    → (if b then o else none) ≡ some x
    → (b ≡ true) × (o ≡ some x)
if_some true o x h = (refl, h)
if_some false o x h = cc

module _ (w : World) where
  abbrev IsResponse : Bytes → Response → Type 0
  IsResponse last resp = (w.fetch last ≡ responds resp) × (is_trusted_asset_url true w last ≡ true)

  request-trusted :
      (via : ℕ) (url last : Bytes) (resp : Response) (rest : Bytes → Option (Bytes × Response))
      → is_trusted_asset_url true w url ≡ true
      → ((next : Bytes)
          → is_trusted_asset_url true w next ≡ true
          → rest next ≡ some (last, resp)
          → IsResponse last resp)
      → (r : Fetched) → w.fetch url ≡ r
      → ◌≡◌ {A = Option (Bytes × Response)}
          (elim r [
            | fails ↦ none
            | responds found ↦ some (url, found)
            | redirects next ↦ if admits true w (via + 1) next then rest next else none
          ])
          (some (last, resp))
      → IsResponse last resp
  request-trusted via url last resp rest t ih fails q h = cc
  request-trusted via url last resp rest t ih (responds found) q h =
      let e : url ≡ last = cc in
      let f : found ≡ resp = cc in
      (ap w.fetch (sym e) ∙ q ∙ ap responds f, ap (is_trusted_asset_url true w) (sym e) ∙ t)
  request-trusted via url last resp rest t ih (redirects next) q h =
      let (a, k) = if_some (admits true w (via + 1) next) (rest next) (last, resp) h in
      ih next (and_right (ltb (via + 1) 10) (is_trusted_asset_url true w next) a) k

  -- What client.Get returns was the response of a trusted URL, if the first one is trusted.
  follow-trusted :
      (fuel via : ℕ) (url last : Bytes) (resp : Response)
      → is_trusted_asset_url true w url ≡ true
      → follow true w fuel via url ≡ some (last, resp)
      → (w.fetch last ≡ responds resp) × (is_trusted_asset_url true w last ≡ true)
  unfolding follow
  follow-trusted zero via url last resp t h = cc
  follow-trusted (suc fuel) via url last resp t h =
      request-trusted via url last resp (follow true w fuel (via + 1)) t
        (λ next s k. follow-trusted fuel (via + 1) next last resp s k) (w.fetch url) refl h

  check_signature-IsSigned :
      (key hash : Bytes) (info info' : UpdateInfo) (sig : Option Bytes)
      → w.public_key ≡ some key
      → fetch_signature true w info.signature_url ≡ sig
      → check_signature true w key hash info sig ≡ ok info'
      → IsSigned w info hash
  unfolding check_signature
  check_signature-IsSigned key hash info info' none k f h = cc
  check_signature-IsSigned key hash info info' (some sig) k f h =
      let inner = (check_passed (length sig == 64) _ _ info' h).1 in
      record {
        key = key;
        signature = sig;
        embedded = k;
        fetched = f;
        verified =
            (check_passed (w.verify key (signed_message info.version hash) sig) _ _ info' inner).0;
      }

  signature_behind :
      (key hash : Bytes) (info info' : UpdateInfo) (unsigned : Bool)
      → w.public_key ≡ some key
      → (if unsigned
          then err no_signature
          else check_signature true w key hash info (fetch_signature true w info.signature_url))
        ≡ ok info'
      → IsSigned w info hash
  signature_behind key hash info info' true k h = cc
  signature_behind key hash info info' false k h =
      check_signature-IsSigned key hash info info' (fetch_signature true w info.signature_url) k
        refl h

  verify_signature-IsSigned :
      (hash : Bytes) (info info' : UpdateInfo)
      → verify_signature true w hash info ≡ ok info'
      → IsSigned w info hash
  unfolding verify_signature
  verify_signature-IsSigned hash info info' h =
      let (key, (k, rest)) = try_passed w.public_key _ _ info' h in
      signature_behind key hash info info' (is_empty info.signature_url) k rest

  finished_passed :
      (size : ℕ) (hash : Bytes) (r : Result DownloadError UpdateInfo) (d : Download)
      → finished true w size hash r ≡ ok d
      → (info : UpdateInfo) × ((r ≡ ok info)
          × (d ≡ record { size = size; hash = hash; info = info }))
  finished_passed size hash (err e) d h = cc
  finished_passed size hash (ok info) d h =
      let done = (check_passed w.sets_quarantine _ _ d h).1 in (info, (refl, cc))

  at_size :
      (info : UpdateInfo) (d d' : Download)
      → d ≡ d'
      → is_trusted_asset_url true w info.download_url ≡ true
      → IsFromTrusted w info d'.size d'.hash
      → leb min_asset_size d'.size ≡ true
      → (is_positive info.asset_size && differs (pos d'.size) info.asset_size) ≡ false
      → has_expected_hash info d'.hash ≡ true
      → IsSigned w info d'.hash
      → IsChecked w info d
  at_size info d d' e t f l s h signed =
      rw e (record { trusted = t; source = f; large = l; sized = s; hashed = h; signed = signed })

  verify_download-IsChecked :
      (info : UpdateInfo) (size : ℕ) (hash : Bytes) (d : Download)
      → is_trusted_asset_url true w info.download_url ≡ true
      → IsFromTrusted w info size hash
      → verify_download true w info size hash ≡ ok d
      → IsChecked w info d
  unfolding verify_download
  verify_download-IsChecked info size hash d trusted source h =
      let (large, h1) = check_passed (leb min_asset_size size) _ _ d h in
      let (sized, h2) =
        check_passed (not (is_positive info.asset_size && differs (pos size) info.asset_size)) _ _ d
          h1 in
      let (hashed, h3) = check_passed (has_expected_hash info hash) _ _ d h2 in
      let (info', (ok_info, same)) = finished_passed size hash _ d h3 in
      let marked : UpdateInfo = record info {
        hash_verified = info.hash_verified || not (is_empty info.expected_hash);
      } in
      let s = verify_signature-IsSigned hash marked info' ok_info in
      at_size info d (record { size = size; hash = hash; info = info' }) same trusted source large
        (negated (is_positive info.asset_size && differs (pos size) info.asset_size) sized) hashed
        (record {
          key = s.key;
          signature = s.signature;
          embedded = s.embedded;
          fetched = s.fetched;
          verified = s.verified;
        })

  -- A file that DownloadUpdate returns, while signatures are required, is the copy of a response that
  -- came, behind any redirects, from a trusted URL. It is no smaller than the minimum, has the size
  -- and the hash that the release states, where it states one, and the embedded key verifies its signature for the version and the hash of the file.
  pub download_update-IsChecked :
      (info : UpdateInfo) (d : Download) → download_update true w info ≡ ok d → IsChecked w info d
  unfolding download_update
  download_update-IsChecked info d h =
      let (_, h1) = check_passed (not (is_empty info.download_url)) _ _ d h in
      let (trusted, h2) = check_passed (is_trusted_asset_url true w info.download_url) _ _ d h1 in
      let (_, h3) =
        check_passed (is_empty info.signature_url || is_trusted_asset_url true w info.signature_url)
          _ _ d h2 in
      let (found, (got, h4)) = try_passed (get true w info.download_url) _ _ d h3 in
      let resp = found.1 in
      let (responded, from_trusted) =
        follow-trusted 10 0 info.download_url found.0 resp trusted got in
      let (_, h5) = check_passed (resp.status == 200) _ _ d h4 in
      let (_, h6) = check_passed _ _ _ d h5 in
      let (_, h7) = check_passed w.creates_temp_file _ _ d h6 in
      let (copied, (copy, h8)) = try_passed (resp.copy (max_size info.asset_size)) _ _ d h7 in
      verify_download-IsChecked info copied.0 copied.1 d trusted
        (record {
          url = found.0;
          response = resp;
          got = got;
          responded = responded;
          trusted = from_trusted;
          copied = copy;
        })
        h8

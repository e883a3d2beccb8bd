-- ===== src/Config/Validator/Endpoints.antt =====
-- The endpoints that validateEndpoint of internal/config/validator.go accepts, and line feeds.
use wireguide.Base.{
  ℕ, suc, Bool, true, false, not, ◌&&◌, ◌||◌, List, [], ◌∷◌, ◌++◌, ◌+◌, ◌*◌, ◌-◌, none, some, ◌==◌,
  ◌≡◌, refl, sym, ◌∙◌, arith, Option-cases, inl, inr, any, all, All,
}
use wireguide.Base.Bytes.{Bytes}
use wireguide.Base.Decimal.{atoi, digits_from, unsigned}
use wireguide.Base.Text.{split, has_byte, in_front}
use wireguide.Base.Text.Laws.{Lacks}
use wireguide.Domain.{PeerConfig, WireGuardConfig}
use wireguide.Net.{Net}
use wireguide.Config.Validator.{
  Decoders, Errors, FieldName, peer_endpoint, is_alphanumeric, is_label, is_hostname,
  validate_endpoint, check_endpoint, validate_peer, validate_peers, validate, is_valid,
}

any-in_front :
    (b c : ℕ) (xs : List Bytes) → any (has_byte b) (in_front c xs) ≡ (c == b || any (has_byte b) xs)
unfolding has_byte
any-in_front b c [] = ground arith
any-in_front b c (x ∷ xs) = ground arith

-- A byte is in some part of a text if it is in the text, but for the separator.
any-split : (b c : ℕ) (s : Bytes) → (c == b) ≡ false → any (has_byte b) (split c s) ≡ has_byte b s
unfolding split has_byte
any-split b c [] h = refl
any-split b c (d ∷ s) h = ground (arith, any-split b c s h, any-in_front b d (split c s))

all-lacks : (p : ℕ → Bool) (b : ℕ) (s : Bytes) → p b ≡ false → all p s ≡ true → has_byte b s ≡ false
unfolding has_byte
all-lacks p b [] h k = refl
all-lacks p b (c ∷ s) h k = ground (arith, all-lacks p b s h)

is_label-Lacks : (s : Bytes) → is_label s ≡ true → Lacks b'\n' s
unfolding is_label has_byte
is_label-Lacks [] h = refl
is_label-Lacks (c ∷ s) h =
    ground (arith, all-lacks (λ d. is_alphanumeric d || d == b'-') b'\n' s refl)

labels-lack : (xs : List Bytes) → all is_label xs ≡ true → any (has_byte b'\n') xs ≡ false
labels-lack [] h = refl
labels-lack (x ∷ xs) h = ground (arith, is_label-Lacks x, labels-lack xs)

is_hostname-Lacks : (s : Bytes) → is_hostname s ≡ true → Lacks b'\n' s
unfolding is_hostname
is_hostname-Lacks s h = sym (any-split b'\n' b'.' s refl) ∙ labels-lack (split b'.' s) h

digits_from-newline : (n : ℕ) (s : Bytes) → has_byte b'\n' s ≡ true → digits_from n s ≡ none
unfolding digits_from has_byte
digits_from-newline n [] h = cc
digits_from-newline n (c ∷ s) h = ground (arith, digits_from-newline (n * 10 + (c - b'0')) s)

unsigned-newline : (s : Bytes) → has_byte b'\n' s ≡ true → unsigned s ≡ none
unfolding unsigned has_byte
unsigned-newline [] h = refl
unsigned-newline (c ∷ s) h = digits_from-newline 0 (c ∷ s) h

atoi-newline : (s : Bytes) → has_byte b'\n' s ≡ true → atoi s ≡ none
unfolding atoi has_byte
atoi-newline [] h = refl
atoi-newline (c ∷ s) h = ground (arith, unsigned-newline (c ∷ s), unsigned-newline s)

append-nil_inv : (xs ys : Errors) → xs ++ ys ≡ [] → (xs ≡ []) × (ys ≡ [])
append-nil_inv [] ys h = (refl, h)
append-nil_inv (x ∷ xs) ys h = cc

valid_nil : (es : Errors) → is_valid es ≡ true → es ≡ []
valid_nil [] h = refl
valid_nil (x ∷ xs) h = cc

-- What net.SplitHostPort and net.ParseIP promise: an endpoint is its host and its port with
-- punctuation, and an IP's text has no line feed.
pub record KeepsLines (net : Net) : Type 0 where
  pub ips : (s : Bytes) → net.is_ip s ≡ true → Lacks b'\n' s
  pub parts :
      (s host port : Bytes)
      → net.split_host_port s ≡ some (host, port)
      → Lacks b'\n' host
      → Lacks b'\n' port
      → Lacks b'\n' s

-- The endpoint is one line.
abbrev pub EndpointLacks : PeerConfig → Type 0
EndpointLacks p = Lacks b'\n' p.endpoint

module _ (net : Net) (lib : Decoders) (keeps : KeepsLines net) where
  host-Lacks :
      (host : Bytes) → not (net.is_ip host) && not (is_hostname host) ≡ false → Lacks b'\n' host
  host-Lacks host h = ground (arith, keeps.ips host, is_hostname-Lacks host)

  validate_endpoint-Lacks : (s : Bytes) → validate_endpoint net lib s ≡ none → Lacks b'\n' s
  unfolding validate_endpoint
  validate_endpoint-Lacks s h = elim (Option-cases (net.split_host_port s)) [
    | inl gone ↦ ground arith
    | inr ((host, port), parts) ↦
        ground (arith, keeps.parts s host port parts, host-Lacks host, atoi-newline port)
  ]

  check_endpoint-Lacks :
      (f : FieldName) (s : Bytes) → check_endpoint net lib f s ≡ [] → Lacks b'\n' s
  unfolding check_endpoint has_byte
  check_endpoint-Lacks f [] h = refl
  check_endpoint-Lacks f (c ∷ s) h = ground (arith, validate_endpoint-Lacks (c ∷ s))

  validate_peer-Lacks : (i : ℕ) (p : PeerConfig) → validate_peer net lib i p ≡ [] → EndpointLacks p
  unfolding validate_peer
  validate_peer-Lacks i p h =
      check_endpoint-Lacks (peer_endpoint i) p.endpoint
        (append-nil_inv _ _ (append-nil_inv _ _ (append-nil_inv _ _ h).1).1).0

  validate_peers-Lacks :
      (i : ℕ) (ps : List PeerConfig) → validate_peers net lib i ps ≡ [] → All EndpointLacks ps
  unfolding validate_peers
  validate_peers-Lacks i [] h = tt
  validate_peers-Lacks i (p ∷ ps) h = (
    validate_peer-Lacks i p (append-nil_inv _ _ h).0,
    validate_peers-Lacks (suc i) ps (append-nil_inv _ _ h).1,
  )

  -- Where Validate finds nothing wrong, no peer's endpoint has a line feed in it.
  pub validate-EndpointLacks :
      (cfg : WireGuardConfig) → is_valid (validate net lib cfg) ≡ true → All EndpointLacks cfg.peers
  unfolding validate
  validate-EndpointLacks cfg h =
      validate_peers-Lacks 0 cfg.peers
        (append-nil_inv _ _ (append-nil_inv _ _ (valid_nil (validate net lib cfg) h)).1).1

-- ===== src/Config/Validator.antt =====
-- internal/config/validator.go. An error is the field with what is wrong with it, without the text of
-- its message. `decoded_size` is base64.StdEncoding.DecodeString: the number of bytes, or the error.
pub mod Endpoints
use wireguide.Base.{
  ℕ, suc, ◌+◌, Bool, true, false, not, ◌&&◌, ◌||◌, List, [], ◌∷◌, ◌++◌, Option, none, some,
  if◌then◌else◌, ◌==◌, leb, ltb, length, all,
}
use wireguide.Base.Bytes.{Bytes, codes, equal, has_prefix}
use wireguide.Base.Decimal.{atoi, is_digit, digits_from}
use wireguide.Base.Dict.{Dict}
use wireguide.Base.Int.{ℤ, pos, negsuc, ltb_ℤ, is_zero}
use wireguide.Base.Text.{split, has_byte, to_lower}
use wireguide.Domain.{InterfaceConfig, PeerConfig, WireGuardConfig, is_empty}
use wireguide.Net.{Net}

-- ValidationError: its field, and which check failed
pub data FieldName : Type 0 where
  private_key address dns mtu listen_port table fw_mark extra_keys peer : FieldName
  peer_public_key peer_preshared_key peer_endpoint peer_allowed_ips : ℕ → FieldName
  peer_keepalive peer_extra_keys : ℕ → FieldName

pub data Problem : Type 0 where
  required bad_key bad_cidr bad_dns bad_range bad_number newline : Problem
  bad_endpoint empty_host bad_host bad_port : Problem

abbrev pub Errors : Type 0
Errors = List (FieldName × Problem)

abbrev pub is_alphanumeric : ℕ → Bool
is_alphanumeric c =
    (leb b'a' c && leb c b'z') || (leb b'A' c && leb c b'Z') || (leb b'0' c && leb c b'9')

abbrev pub last_byte : ℕ → Bytes → ℕ
last_byte c [] = c
last_byte c (d ∷ s) = last_byte d s

-- one label of hostnameRegex: up to 63 letters, digits and hyphens, no hyphen first or last
unfoldable pub is_label : Bytes → Bool
is_label [] = false
is_label (c ∷ s) =
    is_alphanumeric c
    && (is_alphanumeric (last_byte c s)
        && (ltb (length s) 63 && all (λ d. is_alphanumeric d || d == b'-') s))

-- hostnameRegex.MatchString
unfoldable pub is_hostname : Bytes → Bool
unfolding is_label split
is_hostname s = all is_label (split b'.' s)

abbrev pub error_if : Bool → FieldName → Problem → Errors
error_if true f p = (f, p) ∷ []
error_if false f p = []

-- `_, err := parseDecimalOrHex(s); err != nil`, where `parse_int` is strconv.ParseInt to 64 bits in
-- a base: whether it returns no error
unfoldable pub is_decimal_or_hex : (ℕ → Bytes → Bool) → Bytes → Bool
is_decimal_or_hex parse_int (b ∷ c ∷ s) =
    if b == b'0' && (c == b'x' || c == b'X') then parse_int 16 s else parse_int 10 (b ∷ c ∷ s)
is_decimal_or_hex parse_int s = parse_int 10 s

abbrev pub out_of_range : ℕ → ℕ → ℤ → Bool
out_of_range low high n = ltb_ℤ n (pos low) || ltb_ℤ (pos high) n

abbrev is_none {ℓ} : {A : Type ℓ} → Option A → Bool
is_none none = true
is_none (some _) = false

-- strings.ContainsAny(v, "\r\n")
abbrev pub has_newline : Bytes → Bool
has_newline v = has_byte 13 v || has_byte b'\n' v

unfoldable pub check_extra : FieldName → Dict Bytes → Errors
unfolding has_byte
check_extra f [] = []
check_extra f ((k, v) ∷ m) = error_if (has_newline v) f newline ++ check_extra f m

-- What the code needs of the libraries beside `net`.
pub record Decoders : Type 0 where
  pub decoded_size : Bytes → Option ℕ
  pub parse_int : ℕ → Bytes → Bool

module _ (net : Net) (lib : Decoders) where
  -- isValidWireGuardKey
  unfoldable pub is_valid_key : Bytes → Bool
  is_valid_key key = elim (lib.decoded_size key) [ none ↦ false | some n ↦ n == 32 ]

  unfoldable pub check_key : Bool → FieldName → Bytes → Errors
  unfolding is_valid_key
  check_key needed f key =
      if is_empty key
      then error_if needed f required
      else error_if (not (is_valid_key key)) f bad_key

  abbrev pub is_cidr : Bytes → Bool
  is_cidr s = elim (net.mask_size s) [ none ↦ false | some _ ↦ true ]

  unfoldable pub check_cidrs : FieldName → List Bytes → Errors
  check_cidrs f [] = []
  check_cidrs f (s ∷ ss) = error_if (not (is_cidr s)) f bad_cidr ++ check_cidrs f ss

  unfoldable pub check_required : FieldName → List Bytes → Errors
  unfolding check_cidrs
  check_required f [] = (f, required) ∷ []
  check_required f (s ∷ ss) = check_cidrs f (s ∷ ss)

  unfoldable pub check_dns : List Bytes → Errors
  unfolding is_hostname
  check_dns [] = []
  check_dns (s ∷ ss) =
      error_if (not (net.is_ip s) && not (is_hostname s)) dns bad_dns ++ check_dns ss

  -- validateInterface
  unfoldable pub validate_interface : InterfaceConfig → Errors
  unfolding check_key check_required check_dns check_extra atoi to_lower equal is_decimal_or_hex
  validate_interface c =
      check_key true private_key c.private_key
      ++ (check_required address c.address
          ++ (check_dns c.dns
              ++ (error_if (not (is_zero c.mtu) && out_of_range 576 65535 c.mtu) mtu bad_range
                  ++ (error_if (not (is_zero c.listen_port) && out_of_range 1 65535 c.listen_port)
                        listen_port bad_range
                      ++ (error_if
                            (not (is_empty c.table)
                              && (not (equal (to_lower c.table) (codes "off"))
                                  && (not (equal (to_lower c.table) (codes "auto"))
                                      && is_none (atoi c.table))))
                            table bad_number
                          ++ (error_if
                                (not (is_empty c.fw_mark)
                                  && (not (equal (to_lower c.fw_mark) (codes "off"))
                                      && not (is_decimal_or_hex lib.parse_int c.fw_mark)))
                                fw_mark bad_number
                              ++ check_extra extra_keys c.extra_keys))))))

  -- validateEndpoint: nothing, or what is wrong
  unfoldable pub validate_endpoint : Bytes → Option Problem
  unfolding is_hostname atoi
  validate_endpoint ep = elim (net.split_host_port ep) [
    | none ↦ some bad_endpoint
    | some (host, port) ↦
        if is_empty host
        then some empty_host
        else if not (net.is_ip host) && not (is_hostname host)
        then some bad_host
        else elim (atoi port) [
          | none ↦ some bad_port
          | some n ↦ if out_of_range 1 65535 n then some bad_port else none
        ]
  ]

  unfoldable pub check_endpoint : FieldName → Bytes → Errors
  unfolding validate_endpoint
  check_endpoint f ep =
      if is_empty ep then [] else elim (validate_endpoint ep) [ none ↦ [] | some p ↦ (f, p) ∷ [] ]

  -- validatePeer
  unfoldable pub validate_peer : ℕ → PeerConfig → Errors
  unfolding check_key check_required check_endpoint check_extra
  validate_peer i p =
      check_key true (peer_public_key i) p.public_key
      ++ (check_key false (peer_preshared_key i) p.preshared_key
          ++ (check_endpoint (peer_endpoint i) p.endpoint
              ++ (check_required (peer_allowed_ips i) p.allowed_ips
                  ++ (error_if (out_of_range 0 65535 p.persistent_keepalive) (peer_keepalive i)
                        bad_range
                      ++ check_extra (peer_extra_keys i) p.extra_keys))))

  unfoldable pub validate_peers : ℕ → List PeerConfig → Errors
  unfolding validate_peer
  validate_peers i [] = []
  validate_peers i (p ∷ ps) = validate_peer i p ++ validate_peers (suc i) ps

  abbrev no_peers : List PeerConfig → Bool
  no_peers [] = true
  no_peers (_ ∷ _) = false

  -- Validate
  unfoldable pub validate : WireGuardConfig → Errors
  unfolding validate_interface validate_peers
  validate cfg =
      validate_interface cfg.interface
      ++ (error_if (no_peers cfg.peers) peer required ++ validate_peers 0 cfg.peers)

-- IsValid
abbrev pub is_valid : Errors → Bool
is_valid [] = true
is_valid (_ ∷ _) = false

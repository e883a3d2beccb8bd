-- ===== src/Config/Fields.antt =====
-- The keys of internal/config/parser.go: parseInterfaceKey, parsePeerKey and what they call. An error
-- keeps which check failed; a warning on an unknown key is left out.
use wireguide.Base.{
  ℕ, not, ◌||◌, List, [], ◌∷◌, ◌++◌, Option, none, some, if◌then◌else◌, map, filter,
}
use wireguide.Base.Bytes.{Bytes, codes, equal}
use wireguide.Base.Decimal.{atoi}
use wireguide.Base.Dict.{Dict, get, put}
use wireguide.Base.Int.{ℤ}
use wireguide.Base.Result.{Result, ok, err}
use wireguide.Base.Text.{trim_space, split, has_byte, to_lower}
use wireguide.Domain.{InterfaceConfig, PeerConfig, is_empty}
use wireguide.Net.{Net}

pub data ParseError : Type 0 where
  no_equals outside_section line_too_long no_private_key : ParseError
  bad_mtu bad_listen_port bad_keepalive : Bytes → ParseError

-- scriptSeparator
abbrev pub script_separator : ℕ
script_separator = 0

-- appendScriptLine
unfoldable pub append_script_line : Bytes → Bytes → Bytes
append_script_line existing value =
    if is_empty existing then value else existing ++ (script_separator ∷ value)

-- addExtraKey
unfoldable pub add_extra_key : Dict Bytes → Bytes → Bytes → Dict Bytes
add_extra_key m key value = elim (get m key) [
  | none ↦ put m key value
  | some old ↦ put m key (old ++ (script_separator ∷ value))
]

-- splitAndTrim
unfoldable pub split_and_trim : Bytes → List Bytes
unfolding split trim_space
split_and_trim s = filter (λ p. not (is_empty p)) (map trim_space (split b',' s))

-- The cases of the switches on `strings.ToLower(key)`.
pub data InterfaceKey : Type 0 where
  private_key address dns mtu listen_port table fw_mark : InterfaceKey
  pre_up post_up pre_down post_down other : InterfaceKey

pub data PeerKey : Type 0 where
  public_key preshared_key endpoint allowed_ips persistent_keepalive other : PeerKey

-- the first word that is equal, or the default
abbrev pub switch {ℓ} : {A : Type ℓ} → List (Bytes × A) → A → Bytes → A
switch [] d s = d
switch ((word, a) ∷ cases) d s = if equal s word then a else switch cases d s

unfoldable pub interface_key : Bytes → InterfaceKey
unfolding equal to_lower
interface_key key =
    switch
      ((codes "privatekey", private_key)
        ∷ (codes "address", address)
        ∷ (codes "dns", dns)
        ∷ (codes "mtu", mtu)
        ∷ (codes "listenport", listen_port)
        ∷ (codes "table", table)
        ∷ (codes "fwmark", fw_mark)
        ∷ (codes "preup", pre_up)
        ∷ (codes "postup", post_up)
        ∷ (codes "predown", pre_down)
        ∷ (codes "postdown", post_down)
        ∷ [])
      InterfaceKey.other (to_lower key)

unfoldable pub peer_key : Bytes → PeerKey
unfolding equal to_lower
peer_key key =
    switch
      ((codes "publickey", public_key)
        ∷ (codes "presharedkey", preshared_key)
        ∷ (codes "endpoint", endpoint)
        ∷ (codes "allowedips", allowed_ips)
        ∷ (codes "persistentkeepalive", persistent_keepalive)
        ∷ [])
      PeerKey.other (to_lower key)

-- an `int` field, with the error that names it
abbrev pub or_bad : {A : Type 0} → ParseError → Option ℤ → (ℤ → A) → Result ParseError A
or_bad e none set = err e
or_bad e (some n) set = ok (set n)

abbrev pub number : {A : Type 0} → (Bytes → ParseError) → Bytes → (ℤ → A) → Result ParseError A
number bad value set = or_bad (bad value) (atoi value) set

module _ (net : Net) where
  -- the loop body of splitPrefixes
  unfoldable pub with_prefix : Bytes → Bytes
  unfolding has_byte
  with_prefix v =
      if has_byte b'/' v || not (net.is_ip v)
      then v
      else if net.is_ip4 v
      then v ++ codes "/32"
      else v ++ codes "/128"

  -- splitPrefixes
  unfoldable pub split_prefixes : Bytes → List Bytes
  unfolding split_and_trim with_prefix
  split_prefixes s = map with_prefix (split_and_trim s)

  -- the body of parseInterfaceKey, on the case of its switch
  unfoldable pub set_interface :
      InterfaceKey → Bytes → Bytes → InterfaceConfig → Result ParseError InterfaceConfig
  unfolding split_prefixes split_and_trim append_script_line add_extra_key atoi
  set_interface private_key key value c = ok (record c { private_key = value })
  set_interface address key value c = ok (record c { address = c.address ++ split_prefixes value })
  set_interface dns key value c = ok (record c { dns = c.dns ++ split_and_trim value })
  set_interface mtu key value c = number bad_mtu value (λ n. record c { mtu = n })
  set_interface listen_port key value c =
      number bad_listen_port value (λ n. record c { listen_port = n })
  set_interface table key value c = ok (record c { table = value })
  set_interface fw_mark key value c = ok (record c { fw_mark = value })
  set_interface pre_up key value c = ok (record c { pre_up = append_script_line c.pre_up value })
  set_interface post_up key value c = ok (record c { post_up = append_script_line c.post_up value })
  set_interface pre_down key value c =
      ok (record c { pre_down = append_script_line c.pre_down value })
  set_interface post_down key value c =
      ok (record c { post_down = append_script_line c.post_down value })
  set_interface InterfaceKey.other key value c =
      ok (record c { extra_keys = add_extra_key c.extra_keys key value })

  -- parseInterfaceKey
  unfoldable pub parse_interface_key :
      Bytes → Bytes → InterfaceConfig → Result ParseError InterfaceConfig
  unfolding set_interface interface_key
  parse_interface_key key value c = set_interface (interface_key key) key value c

  -- the body of parsePeerKey
  unfoldable pub set_peer : PeerKey → Bytes → Bytes → PeerConfig → Result ParseError PeerConfig
  unfolding split_prefixes add_extra_key atoi
  set_peer public_key key value p = ok (record p { public_key = value })
  set_peer preshared_key key value p = ok (record p { preshared_key = value })
  set_peer endpoint key value p = ok (record p { endpoint = value })
  set_peer allowed_ips key value p =
      ok (record p { allowed_ips = p.allowed_ips ++ split_prefixes value })
  set_peer persistent_keepalive key value p =
      number bad_keepalive value (λ n. record p { persistent_keepalive = n })
  set_peer PeerKey.other key value p =
      ok (record p { extra_keys = add_extra_key p.extra_keys key value })

  -- parsePeerKey
  unfoldable pub parse_peer_key : Bytes → Bytes → PeerConfig → Result ParseError PeerConfig
  unfolding set_peer peer_key
  parse_peer_key key value p = set_peer (peer_key key) key value p

-- ===== src/Config/Serializer.antt =====
-- Serialize of internal/config/parser.go, line by line: a line is a key with a value, a section's
-- header, or empty.
use wireguide.Base.{zero, suc, List, [], ◌∷◌, ◌++◌, none, some, map}
use wireguide.Base.Bytes.{Bytes, codes}
use wireguide.Base.Decimal.Itoa.{itoa}
use wireguide.Base.Dict.{Dict, get, keys}
use wireguide.Base.Int.{ℤ, pos, negsuc}
use wireguide.Base.Sorted.{sort_strings}
use wireguide.Base.Text.{join, split}
use wireguide.Domain.{InterfaceConfig, PeerConfig, WireGuardConfig}
use wireguide.Config.Fields.{script_separator}

abbrev pub Field : Type 0
Field = Bytes × Bytes

abbrev pub field_line : Field → Bytes
field_line (key, value) = key ++ (codes " = " ++ value)

-- `if len(xs) > 0`
unfoldable pub list_field : Bytes → List Bytes → List Field
unfolding join
list_field key [] = []
list_field key (x ∷ xs) = (key, join (codes ", ") (x ∷ xs)) ∷ []

-- `if n > 0`
unfoldable pub number_field : Bytes → ℤ → List Field
unfolding itoa
number_field key (pos zero) = []
number_field key (pos (suc n)) = (key, itoa (suc n)) ∷ []
number_field key (negsuc n) = []

-- `if s != ""`
unfoldable pub text_field : Bytes → Bytes → List Field
text_field key [] = []
text_field key (c ∷ s) = (key, c ∷ s) ∷ []

abbrev pub with_key : Bytes → List Bytes → List Field
with_key key [] = []
with_key key (p ∷ ps) = (key, p) ∷ with_key key ps

-- writeScriptLines
unfoldable pub script_fields : Bytes → Bytes → List Field
unfolding split
script_fields key [] = []
script_fields key (c ∷ s) = with_key key (split script_separator (c ∷ s))

-- writeExtraKeys, over the sorted keys
unfoldable pub extra_fields : Dict Bytes → List Bytes → List Field
unfolding script_fields
extra_fields m [] = []
extra_fields m (k ∷ ks) =
    (elim (get m k) [ none ↦ [] | some v ↦ script_fields k v ]) ++ extra_fields m ks

unfoldable pub interface_fields : InterfaceConfig → List Field
unfolding list_field number_field text_field script_fields extra_fields
interface_fields c =
    (codes "PrivateKey", c.private_key)
    ∷ (list_field (codes "Address") c.address
        ++ (list_field (codes "DNS") c.dns
            ++ (number_field (codes "MTU") c.mtu
                ++ (number_field (codes "ListenPort") c.listen_port
                    ++ (text_field (codes "Table") c.table
                        ++ (text_field (codes "FwMark") c.fw_mark
                            ++ (script_fields (codes "PreUp") c.pre_up
                                ++ (script_fields (codes "PostUp") c.post_up
                                    ++ (script_fields (codes "PreDown") c.pre_down
                                        ++ (script_fields (codes "PostDown") c.post_down
                                            ++ extra_fields c.extra_keys
                                                (sort_strings (keys c.extra_keys))))))))))))

unfoldable pub peer_fields : PeerConfig → List Field
unfolding list_field number_field text_field extra_fields
peer_fields p =
    (codes "PublicKey", p.public_key)
    ∷ (text_field (codes "PresharedKey") p.preshared_key
        ++ (text_field (codes "Endpoint") p.endpoint
            ++ (list_field (codes "AllowedIPs") p.allowed_ips
                ++ (number_field (codes "PersistentKeepalive") p.persistent_keepalive
                    ++ extra_fields p.extra_keys (sort_strings (keys p.extra_keys))))))

unfoldable pub peer_lines : List PeerConfig → List Bytes
unfolding peer_fields
peer_lines [] = []
peer_lines (p ∷ ps) = [] ∷ codes "[Peer]" ∷ (map field_line (peer_fields p) ++ peer_lines ps)

unfoldable pub serialize_lines : WireGuardConfig → List Bytes
unfolding interface_fields peer_lines
serialize_lines cfg =
    codes "[Interface]" ∷ (map field_line (interface_fields cfg.interface) ++ peer_lines cfg.peers)

abbrev pub unlines : List Bytes → Bytes
unlines [] = []
unlines (l ∷ ls) = l ++ (b'\n' ∷ unlines ls)

-- Serialize
unfoldable pub serialize : WireGuardConfig → Bytes
unfolding serialize_lines
serialize cfg = unlines (serialize_lines cfg)

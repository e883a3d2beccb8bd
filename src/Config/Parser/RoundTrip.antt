-- ===== src/Config/Parser/RoundTrip.antt =====
-- Parse of internal/config/parser.go on what Serialize writes.
use mathlib.Core.List.{append-nil, append_assoc}
use wireguide.Base.{
  ℕ, ◌^◌, ◌<◌, true, false, List, [], ◌∷◌, ◌++◌, ◌≡◌, refl, sym, ap, ◌∙◌, arith, All, All-append,
  map,
}
use wireguide.Base.Bytes.{Bytes, codes}
use wireguide.Base.Decimal.Itoa.{itoa, atoi-itoa}
use wireguide.Base.Dict.{keys}
use wireguide.Base.Int.{pos}
use wireguide.Base.Result.{Result, ok, ◌>>=◌, >>=-assoc, >>=-step}
use wireguide.Base.Sorted.{sort_strings}
use wireguide.Base.Text.{split, has_byte}
use wireguide.Base.Text.Laws.{Lacks, split-append, has_byte-append}
use wireguide.Domain.{InterfaceConfig, PeerConfig, WireGuardConfig, is_empty}
use wireguide.Net.{Net}
use wireguide.Config.Fields.{
  ParseError, bad_mtu, bad_listen_port, bad_keepalive, or_bad, interface_key, peer_key,
  set_interface, set_peer, parse_interface_key, parse_peer_key,
}
use wireguide.Config.Parser.{
  in_interface, in_peer, ParseState, parse_start, empty_interface, empty_peer, clean_line,
  parse_key, parse_clean, parse_lines, update_last, finish, parse, drop_bom, scan_lines,
  drop_last_empty,
}
use wireguide.Config.Parser.Lines.{is_field, IsShort, parse_lines-field}
use wireguide.Config.Parser.Groups.{
  is_value-nonempty, IsEntry, IsPrefix, IsCount, IsScript, split_and_trim-join, split_prefixes-join,
  apply_fields, apply-list_field, apply-text_field, apply-number_field, apply-script_fields,
}
use wireguide.Config.Serializer.{
  Field, field_line, extra_fields, interface_fields, peer_fields, peer_lines, serialize_lines,
  serialize, unlines,
}

split-unlines : (ls : List Bytes) → All (Lacks b'\n') ls → split b'\n' (unlines ls) ≡ ls ++ [] ∷ []
split-unlines [] h = unfold split in refl
split-unlines (l ∷ ls) h = split-append b'\n' l (unlines ls) h.0 ∙ ap (◌∷◌ l) (split-unlines ls h.1)

drop_last_empty-snoc : (ls : List Bytes) → drop_last_empty (ls ++ [] ∷ []) ≡ ls
drop_last_empty-snoc [] = refl
drop_last_empty-snoc (l ∷ []) = refl
drop_last_empty-snoc (l ∷ m ∷ ls) = ap (◌∷◌ l) (drop_last_empty-snoc (m ∷ ls))

scan_lines-unlines : (ls : List Bytes) → All (Lacks b'\n') ls → scan_lines (unlines ls) ≡ ls
unfolding scan_lines
scan_lines-unlines ls h = ap drop_last_empty (split-unlines ls h) ∙ drop_last_empty-snoc ls

-- An interface and a peer whose fields Serialize can write so that Parse takes them whole; there are
-- no unknown keys.
pub record IsPrintableInterface (c : InterfaceConfig) : Type 0 where
  pub address : All IsPrefix c.address
  pub dns : All IsEntry c.dns
  pub mtu : IsCount c.mtu
  pub listen_port : IsCount c.listen_port
  pub pre_up : IsScript c.pre_up
  pub post_up : IsScript c.post_up
  pub pre_down : IsScript c.pre_down
  pub post_down : IsScript c.post_down
  pub no_extra : c.extra_keys ≡ []

pub record IsPrintablePeer (p : PeerConfig) : Type 0 where
  pub allowed_ips : All IsPrefix p.allowed_ips
  pub keepalive : IsCount p.persistent_keepalive
  pub no_extra : p.extra_keys ≡ []

module _ (net : Net) where
  interface_number :
      (c : InterfaceConfig) (n : ℕ)
      → n < 2 ^ 63
      → parse_interface_key net (codes "MTU") (itoa n) c ≡ ok (record c { mtu = pos n })
  unfolding parse_interface_key set_interface interface_key
  interface_number c n h =
      ap (λ o. or_bad (bad_mtu (itoa n)) o (λ k. record c { mtu = k })) (atoi-itoa n h)

  interface_port :
      (c : InterfaceConfig) (n : ℕ)
      → n < 2 ^ 63
      → parse_interface_key net (codes "ListenPort") (itoa n) c
        ≡ ok (record c { listen_port = pos n })
  unfolding parse_interface_key set_interface interface_key
  interface_port c n h =
      ap (λ o. or_bad (bad_listen_port (itoa n)) o (λ k. record c { listen_port = k }))
        (atoi-itoa n h)

  -- The fields of an interface, set one after the other, give it back.
  apply-interface_fields :
      (c : InterfaceConfig)
      → IsPrintableInterface c
      → apply_fields (parse_interface_key net) (interface_fields c) empty_interface ≡ ok c
  unfolding interface_fields parse_interface_key set_interface interface_key extra_fields keys
      sort_strings
  apply-interface_fields c v =
      let f = parse_interface_key net in
      let c1 : InterfaceConfig = record empty_interface { private_key = c.private_key } in
      let c2 : InterfaceConfig = record c1 { address = c.address } in
      let c3 : InterfaceConfig = record c2 { dns = c.dns } in
      let c4 : InterfaceConfig = record c3 { mtu = c.mtu } in
      let c5 : InterfaceConfig = record c4 { listen_port = c.listen_port } in
      let c6 : InterfaceConfig = record c5 { table = c.table } in
      let c7 : InterfaceConfig = record c6 { fw_mark = c.fw_mark } in
      let c8 : InterfaceConfig = record c7 { pre_up = c.pre_up } in
      let c9 : InterfaceConfig = record c8 { post_up = c.post_up } in
      let c10 : InterfaceConfig = record c9 { pre_down = c.pre_down } in
      let c11 : InterfaceConfig = record c10 { post_down = c.post_down } in
      apply-list_field f (codes "Address") _ (λ xs. record c1 { address = xs }) c.address
        (ap (λ xs. ok (record c1 { address = xs })) (split_prefixes-join net c.address v.address))
      ∙ apply-list_field f (codes "DNS") _ (λ xs. record c2 { dns = xs }) c.dns
          (ap (λ xs. ok (record c2 { dns = xs })) (split_and_trim-join c.dns v.dns))
      ∙ apply-number_field f (codes "MTU") _ (λ n. record c3 { mtu = n }) c.mtu v.mtu
          (λ n h. interface_number c3 n h)
      ∙ apply-number_field f (codes "ListenPort") _ (λ n. record c4 { listen_port = n })
          c.listen_port v.listen_port (λ n h. interface_port c4 n h)
      ∙ apply-text_field f (codes "Table") _ (λ s. record c5 { table = s }) c.table refl
      ∙ apply-text_field f (codes "FwMark") _ (λ s. record c6 { fw_mark = s }) c.fw_mark refl
      ∙ apply-script_fields f (codes "PreUp") _ (λ s. record c7 { pre_up = s }) c.pre_up v.pre_up
          (λ x y. refl)
      ∙ apply-script_fields f (codes "PostUp") _ (λ s. record c8 { post_up = s }) c.post_up
          v.post_up (λ x y. refl)
      ∙ apply-script_fields f (codes "PreDown") _ (λ s. record c9 { pre_down = s }) c.pre_down
          v.pre_down (λ x y. refl)
      ∙ apply-script_fields f (codes "PostDown") _ (λ s. record c10 { post_down = s }) c.post_down
          v.post_down (λ x y. refl)
      ∙ ap
          (λ m.
            apply_fields f (extra_fields m (sort_strings (keys m))) (record c { extra_keys = [] }))
          v.no_extra
      ∙ ap (λ m. ok (record c { extra_keys = m })) (sym v.no_extra)

  peer_number :
      (p : PeerConfig) (n : ℕ)
      → n < 2 ^ 63
      → parse_peer_key net (codes "PersistentKeepalive") (itoa n) p
        ≡ ok (record p { persistent_keepalive = pos n })
  unfolding parse_peer_key set_peer peer_key
  peer_number p n h =
      ap (λ o. or_bad (bad_keepalive (itoa n)) o (λ k. record p { persistent_keepalive = k }))
        (atoi-itoa n h)

  -- So do the fields of a peer.
  apply-peer_fields :
      (p : PeerConfig)
      → IsPrintablePeer p
      → apply_fields (parse_peer_key net) (peer_fields p) empty_peer ≡ ok p
  unfolding peer_fields parse_peer_key set_peer peer_key extra_fields keys sort_strings
  apply-peer_fields p v =
      let f = parse_peer_key net in
      let p1 : PeerConfig = record empty_peer { public_key = p.public_key } in
      let p2 : PeerConfig = record p1 { preshared_key = p.preshared_key } in
      let p3 : PeerConfig = record p2 { endpoint = p.endpoint } in
      let p4 : PeerConfig = record p3 { allowed_ips = p.allowed_ips } in
      apply-text_field f (codes "PresharedKey") _ (λ s. record p1 { preshared_key = s })
        p.preshared_key refl
      ∙ apply-text_field f (codes "Endpoint") _ (λ s. record p2 { endpoint = s }) p.endpoint refl
      ∙ apply-list_field f (codes "AllowedIPs") _ (λ xs. record p3 { allowed_ips = xs })
          p.allowed_ips
          (ap (λ xs. ok (record p3 { allowed_ips = xs }))
            (split_prefixes-join net p.allowed_ips v.allowed_ips))
      ∙ apply-number_field f (codes "PersistentKeepalive") _
          (λ n. record p4 { persistent_keepalive = n }) p.persistent_keepalive v.keepalive
          (λ n h. peer_number p4 n h)
      ∙ ap
          (λ m.
            apply_fields f (extra_fields m (sort_strings (keys m))) (record p { extra_keys = [] }))
          v.no_extra
      ∙ ap (λ m. ok (record p { extra_keys = m })) (sym v.no_extra)

  abbrev IsFieldLine : Field → Type 0
  IsFieldLine x = (is_field x ≡ true) × IsShort net (field_line x)

  abbrev at_interface : InterfaceConfig → ParseState
  at_interface c = record { section = in_interface; interface = c; peers = [] }

  abbrev at_peer : InterfaceConfig → List PeerConfig → PeerConfig → ParseState
  at_peer c ps p = record { section = in_peer; interface = c; peers = ps ++ p ∷ [] }

  update_last-snoc :
      (f : PeerConfig → Result ParseError PeerConfig) (ps : List PeerConfig) (p : PeerConfig)
      → update_last f (ps ++ p ∷ []) ≡ (f p >>= λ q. ok (ps ++ q ∷ []))
  unfolding update_last
  update_last-snoc f [] p = refl
  update_last-snoc f (q ∷ []) p = >>=-assoc (f p) (λ x. ok (x ∷ [])) (λ rest. ok (q ∷ rest))
  update_last-snoc f (q ∷ r ∷ ps) p =
      ap (λ x. x >>= λ rest. ok (q ∷ rest)) (update_last-snoc f (r ∷ ps) p)
      ∙ >>=-assoc (f p) (λ x. ok ((r ∷ ps) ++ x ∷ [])) (λ rest. ok (q ∷ rest))

  -- The lines of a section set its fields, one after the other.
  parse_lines-interface :
      (fs : List Field) (lines : List Bytes) (c : InterfaceConfig)
      → All IsFieldLine fs
      → parse_lines net (map field_line fs ++ lines) (at_interface c) ≡ (
          apply_fields (parse_interface_key net) fs c >>= λ c'.
          parse_lines net lines (at_interface c'))
  unfolding parse_key
  parse_lines-interface [] lines c h = refl
  parse_lines-interface ((k, v) ∷ fs) lines c h =
      parse_lines-field net k v (map field_line fs ++ lines) (at_interface c) h.0.0 h.0.1
      ∙ >>=-step (parse_interface_key net k v c) at_interface
          (parse_lines net (map field_line fs ++ lines)) (apply_fields (parse_interface_key net) fs)
          (λ c'. parse_lines net lines (at_interface c'))
          (λ c'. parse_lines-interface fs lines c' h.1)

  parse_lines-peer :
      (fs : List Field) (lines : List Bytes) (c : InterfaceConfig) (ps : List PeerConfig)
      (p : PeerConfig)
      → All IsFieldLine fs
      → parse_lines net (map field_line fs ++ lines) (at_peer c ps p)
        ≡ (apply_fields (parse_peer_key net) fs p >>= λ q. parse_lines net lines (at_peer c ps q))
  unfolding parse_key
  parse_lines-peer [] lines c ps p h = refl
  parse_lines-peer ((k, v) ∷ fs) lines c ps p h =
      parse_lines-field net k v (map field_line fs ++ lines) (at_peer c ps p) h.0.0 h.0.1
      ∙ ap
          (λ r. (r >>= λ qs. ok (record { section = in_peer; interface = c; peers = qs })) >>= λ s.
            parse_lines net (map field_line fs ++ lines) s)
          (update_last-snoc (parse_peer_key net k v) ps p)
      ∙ ap (λ r. r >>= λ s. parse_lines net (map field_line fs ++ lines) s)
          (>>=-assoc (parse_peer_key net k v p) (λ q. ok (ps ++ q ∷ []))
            (λ qs. ok (record { section = in_peer; interface = c; peers = qs })))
      ∙ >>=-step (parse_peer_key net k v p) (at_peer c ps)
          (parse_lines net (map field_line fs ++ lines)) (apply_fields (parse_peer_key net) fs)
          (λ q. parse_lines net lines (at_peer c ps q)) (λ q. parse_lines-peer fs lines c ps q h.1)

  abbrev IsPeer : PeerConfig → Type 0
  IsPeer p = IsPrintablePeer p × All IsFieldLine (peer_fields p)

  parse_lines-peers :
      (ps : List PeerConfig) (s : ParseState)
      → All IsPeer ps
      → (parse_lines net (peer_lines ps) s >>= finish) ≡ finish (record s { peers = s.peers ++ ps })
  unfolding peer_lines parse_lines finish parse_clean clean_line
  parse_lines-peers [] s h = ap (λ qs. finish (record s { peers = qs })) (sym (append-nil s.peers))
  parse_lines-peers (p ∷ ps) s h =
      ap (λ r. r >>= finish)
        (parse_lines-peer (peer_fields p) (peer_lines ps) s.interface s.peers empty_peer h.0.1)
      ∙ ap
          (λ r.
            (r >>= λ q. parse_lines net (peer_lines ps) (at_peer s.interface s.peers q)) >>= finish)
          (apply-peer_fields p h.0.0)
      ∙ parse_lines-peers ps (at_peer s.interface s.peers p) h.1
      ∙ ap (λ qs. finish (record s { peers = qs })) (append_assoc s.peers (p ∷ []) ps)

  field_line-Lacks : (x : Field) → is_field x ≡ true → Lacks b'\n' (field_line x)
  unfolding has_byte
  field_line-Lacks (k, v) h =
      ground
        (arith, has_byte-append b'\n' k (codes " = " ++ v), has_byte-append b'\n' (codes " = ") v)

  field_lines-Lacks : (fs : List Field) → All IsFieldLine fs → All (Lacks b'\n') (map field_line fs)
  field_lines-Lacks [] h = tt
  field_lines-Lacks (x ∷ fs) h = (field_line-Lacks x h.0.0, field_lines-Lacks fs h.1)

  peer_lines-Lacks : (ps : List PeerConfig) → All IsPeer ps → All (Lacks b'\n') (peer_lines ps)
  unfolding peer_lines has_byte
  peer_lines-Lacks [] h = tt
  peer_lines-Lacks (p ∷ ps) h = (
    refl,
    (
      refl,
      All-append (Lacks b'\n') (map field_line (peer_fields p)) (peer_lines ps)
          (field_lines-Lacks (peer_fields p) h.0.1) (peer_lines-Lacks ps h.1),
    ),
  )

  -- What Serialize can write so that Parse takes every field whole: no unknown keys, and each line's
  -- key and value are trimmed text without comment signs and line feeds, shorter than 64 KB.
  pub record IsPrintable (cfg : WireGuardConfig) : Type 0 where
    pub interface : IsPrintableInterface cfg.interface
    pub interface_lines : All IsFieldLine (interface_fields cfg.interface)
    pub peers : All IsPeer cfg.peers

  serialize_lines-Lacks :
      (cfg : WireGuardConfig) → IsPrintable cfg → All (Lacks b'\n') (serialize_lines cfg)
  unfolding serialize_lines has_byte
  serialize_lines-Lacks cfg v = (
    refl,
    All-append (Lacks b'\n') (map field_line (interface_fields cfg.interface))
        (peer_lines cfg.peers)
        (field_lines-Lacks (interface_fields cfg.interface) v.interface_lines)
        (peer_lines-Lacks cfg.peers v.peers),
  )

  key_nonempty :
      (c : InterfaceConfig) → All IsFieldLine (interface_fields c) → is_empty c.private_key ≡ false
  unfolding interface_fields
  key_nonempty c h = is_value-nonempty c.private_key (ground arith)

  parse_lines-serialize :
      (cfg : WireGuardConfig)
      → IsPrintable cfg
      → (parse_lines net (serialize_lines cfg) parse_start >>= finish)
        ≡ ok (record cfg { name = [] })
  unfolding serialize_lines parse_lines parse_clean clean_line finish
  parse_lines-serialize cfg v =
      ap (λ r. r >>= finish)
        (parse_lines-interface (interface_fields cfg.interface) (peer_lines cfg.peers)
          empty_interface v.interface_lines)
      ∙ ap (λ r. (r >>= λ c. parse_lines net (peer_lines cfg.peers) (at_interface c)) >>= finish)
          (apply-interface_fields cfg.interface v.interface)
      ∙ parse_lines-peers cfg.peers (at_interface cfg.interface) v.peers
      ∙ rw (key_nonempty cfg.interface v.interface_lines) refl

  -- Parse gives back every configuration that Serialize can write whole, without its name, which a
  -- file does not hold.
  pub parse-serialize :
      (cfg : WireGuardConfig)
      → IsPrintable cfg
      → parse net (serialize cfg) ≡ ok (record cfg { name = [] })
  unfolding parse serialize drop_bom
  parse-serialize cfg v =
      ap (λ ls. parse_lines net ls parse_start >>= finish)
        (scan_lines-unlines (serialize_lines cfg) (serialize_lines-Lacks cfg v))
      ∙ parse_lines-serialize cfg v

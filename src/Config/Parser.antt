-- ===== src/Config/Parser.antt =====
-- Parse of internal/config/parser.go, with the lines that bufio.Scanner gives it.
pub mod Lines
pub mod Groups
pub mod RoundTrip
use wireguide.Base.{
  ℕ, Bool, true, false, not, ◌&&◌, ◌||◌, List, [], ◌∷◌, ◌++◌, Option, none, some, if◌then◌else◌,
  length, ltb, ◌==◌, leb,
}
use wireguide.Base.Bytes.{Bytes, codes, equal, has_prefix}
use wireguide.Base.Int.{ℤ, pos}
use wireguide.Base.Result.{Result, ok, err, ◌>>=◌}
use wireguide.Base.Text.{trim_space, before, cut, split, to_lower}
use wireguide.Domain.{InterfaceConfig, PeerConfig, WireGuardConfig, is_empty}
use wireguide.Net.{Net}
use wireguide.Config.Fields.{
  ParseError, no_equals, outside_section, line_too_long, no_private_key, parse_interface_key,
  parse_peer_key,
}

abbrev pub empty_interface : InterfaceConfig
empty_interface = record {
  private_key = [];
  address = [];
  dns = [];
  mtu = pos 0;
  listen_port = pos 0;
  table = [];
  fw_mark = [];
  pre_up = [];
  post_up = [];
  pre_down = [];
  post_down = [];
  extra_keys = [];
}

abbrev pub empty_peer : PeerConfig
empty_peer = record {
  public_key = [];
  preshared_key = [];
  endpoint = [];
  allowed_ips = [];
  persistent_keepalive = pos 0;
  extra_keys = [];
}

-- Where a line stands. The last peer is `currentPeer`.
pub data Section : Type 0 where
  nowhere in_interface in_peer : Section

pub record ParseState : Type 0 where
  pub section : Section
  pub interface : InterfaceConfig
  pub peers : List PeerConfig

abbrev pub parse_start : ParseState
parse_start = record { section = nowhere; interface = empty_interface; peers = [] }

-- a change of the last peer; none is there outside a section
unfoldable pub update_last :
    (PeerConfig → Result ParseError PeerConfig)
    → List PeerConfig
    → Result ParseError (List PeerConfig)
update_last f [] = err outside_section
update_last f (p ∷ []) = do q ← f p; ok (q ∷ [])
update_last f (p ∷ q ∷ ps) = do rest ← update_last f (q ∷ ps); ok (p ∷ rest)

-- the line without its comment and outer white space
unfoldable pub clean_line : Bytes → Bytes
unfolding before trim_space
clean_line line = trim_space (before b'#' line)

abbrev pub is_skipped : Bytes → Bool
is_skipped line = is_empty line || has_prefix line (codes ";")

module _ (net : Net) where
  -- the switch on `currentSection`
  unfoldable pub parse_key : Section → Bytes → Bytes → ParseState → Result ParseError ParseState
  unfolding parse_interface_key parse_peer_key update_last
  parse_key nowhere key value s = err outside_section
  parse_key in_interface key value s = do
    c ← parse_interface_key net key value s.interface
    ok (record s { interface = c })
  parse_key in_peer key value s = do
    ps ← update_last (parse_peer_key net key value) s.peers
    ok (record s { peers = ps })

  -- the loop body behind the comment and white space
  unfoldable pub parse_clean : Bytes → ParseState → Result ParseError ParseState
  unfolding parse_key cut trim_space to_lower equal has_prefix
  parse_clean line s =
      if is_skipped line
      then ok s
      else if equal (to_lower line) (codes "[interface]")
      then ok (record s { section = in_interface })
      else if equal (to_lower line) (codes "[peer]")
      then ok (record s { section = in_peer; peers = s.peers ++ empty_peer ∷ [] })
      else elim (cut b'=' line) [
        | none ↦ err no_equals
        | some (key, value) ↦ parse_key s.section (trim_space key) (trim_space value) s
      ]

  -- The loop over the lines. Scanner ends with an error at a line of 64 KB or more.
  unfoldable pub parse_lines : List Bytes → ParseState → Result ParseError ParseState
  unfolding parse_clean clean_line
  parse_lines [] s = ok s
  parse_lines (line ∷ lines) s =
      if ltb (length line) 65536
      then (do s' ← parse_clean (clean_line line) s; parse_lines lines s')
      else err line_too_long

-- behind the loop
unfoldable pub finish : ParseState → Result ParseError WireGuardConfig
finish s =
    if is_empty s.interface.private_key
    then err no_private_key
    else ok (record { name = []; interface = s.interface; peers = s.peers })

-- The lines that bufio.ScanLines finds: the text between line feeds, and what is behind the last one
-- unless it is empty. The carriage return that it drops at a line's end is white space.
abbrev pub drop_last_empty : List Bytes → List Bytes
drop_last_empty [] = []
drop_last_empty (x ∷ []) = if is_empty x then [] else x ∷ []
drop_last_empty (x ∷ y ∷ ys) = x ∷ drop_last_empty (y ∷ ys)

unfoldable pub scan_lines : Bytes → List Bytes
unfolding split
scan_lines s = drop_last_empty (split b'\n' s)

-- strings.TrimPrefix of the byte order mark
unfoldable pub drop_bom : Bytes → Bytes
drop_bom (a ∷ b ∷ c ∷ s) = if a == 0xEF && (b == 0xBB && c == 0xBF) then s else a ∷ b ∷ c ∷ s
drop_bom s = s

-- Parse
unfoldable pub parse : Net → Bytes → Result ParseError WireGuardConfig
unfolding drop_bom scan_lines parse_lines finish
parse net content = do s ← parse_lines net (scan_lines (drop_bom content)) parse_start; finish s

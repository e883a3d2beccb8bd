-- ===== src/Ovpn/Push.antt =====
-- internal/ovpn/config.go: what openvpn logs of the options that a server pushes.
use wireguide.Base.{
  ℕ, Bool, true, false, not, ◌&&◌, ◌||◌, List, [], ◌∷◌, Option, none, some, if◌then◌else◌, ◌==◌,
  drop, length,
}
use wireguide.Base.Bytes.{Bytes, codes, equal, has_prefix}
use wireguide.Base.Result.{ok, err}
use wireguide.Base.Text.{split, has_byte}
use wireguide.Net.{Net}
use wireguide.Ovpn.Line.{parse_line}
use wireguide.Ovpn.Source.{trim_c_space}
use wireguide.Ovpn.Dns.{DnsConfig, no_dns, add_option}

pub record PullFilter : Type 0 where
  pub action : Bytes
  pub prefix : Bytes

-- `keep` and `ok` of filterPushed
pub data Filtered : Type 0 where
  kept ignored rejected : Filtered

abbrev by_action : Bytes → Filtered → Filtered
by_action a rest =
    if equal a (codes "accept")
    then kept
    else if equal a (codes "ignore")
    then ignored
    else if equal a (codes "reject")
    then rejected
    else rest

-- filterPushed
unfoldable pub filter_pushed : List PullFilter → Bytes → Filtered
unfolding has_prefix equal
filter_pushed [] opt = kept
filter_pushed (f ∷ filters) opt =
    let rest = filter_pushed filters opt in
    if has_prefix opt f.prefix then by_action f.action rest else rest

pub record PushMessage : Type 0 where
  pub update : Bool
  pub more : Bool
  pub dns : DnsConfig
  pub rejected : Bool

abbrev or_after : Option Bytes → Option Bytes → Option Bytes
or_after none o = o
or_after (some s) o = some s

-- `body`: what is behind the first marker
unfoldable pub behind_marker : Bytes → Bytes → Option Bytes
unfolding has_prefix
behind_marker marker [] = if has_prefix [] marker then some [] else none
behind_marker marker (c ∷ s) =
    let rest = behind_marker marker s in
    if has_prefix (c ∷ s) marker then some (drop (length marker) (c ∷ s)) else rest

-- `body[:j]` up to the last quote, or all
unfoldable pub before_last_quote : Bytes → Bytes
unfolding has_byte
before_last_quote [] = []
before_last_quote (c ∷ s) =
    let rest = before_last_quote s in if c == 39 && not (has_byte 39 s) then [] else c ∷ rest

abbrev drop_mark : Bool → ℕ → Bytes → Bool × Bytes
drop_mark true c (d ∷ s) = if d == c then (true, s) else (false, d ∷ s)
drop_mark _ c s = (false, s)

abbrev pushed_fields : Net → Bool → List Bytes → PushMessage → PushMessage
pushed_fields net removes [] m = m
pushed_fields net removes (name ∷ args) m =
    if equal name (codes "push-continuation")
    then record m { more = elim args [ [] ↦ false | a ∷ _ ↦ equal a (codes "2") ] }
    else if equal name (codes "dns") || equal name (codes "dhcp-option")
    then record m {
      dns = if removes then record m.dns { touched = true } else add_option net name args m.dns;
    }
    else m

-- one option that a filter keeps
unfoldable pub push_option : Net → Bool → Bytes → PushMessage → PushMessage
unfolding parse_line add_option equal
push_option net removes opt m = elim (parse_line opt) [
  | err e ↦ m
  | ok fields ↦ pushed_fields net removes fields m
]

-- The loop over the options. It ends at an option that a filter rejects.
unfoldable pub push_options : Net → List PullFilter → List Bytes → PushMessage → PushMessage
unfolding trim_c_space filter_pushed push_option
push_options net filters [] m = m
push_options net filters (o ∷ opts) m =
    let removes = drop_mark m.update b'-' (trim_c_space o) in
    let optional = drop_mark m.update b'?' removes.1 in
    let found = filter_pushed filters optional.1 in
    elim found [
      | kept ↦ push_options net filters opts (push_option net removes.0 optional.1 m)
      | ignored ↦ push_options net filters opts m
      | rejected ↦
          if optional.0 then push_options net filters opts m else record m { rejected = true }
    ]

abbrev push_kind : Bytes → Option Bool
push_kind word =
    if equal word (codes "PUSH_REPLY")
    then some false
    else if equal word (codes "PUSH_UPDATE")
    then some true
    else none

abbrev push_words : Net → List PullFilter → List Bytes → Option PushMessage
push_words net filters [] = none
push_words net filters (word ∷ opts) = elim (push_kind word) [
  | none ↦ none
  | some update ↦ some (
      push_options net filters opts
        (record { update = update; more = false; dns = no_dns; rejected = false }))
]

-- parsePushLine
unfoldable pub parse_push_line : Net → Bytes → List PullFilter → Option PushMessage
unfolding behind_marker before_last_quote split push_options equal
parse_push_line net l filters = elim (behind_marker (codes "Received control message: '") l) [
  | none ↦ none
  | some body ↦ push_words net filters (split b',' (before_last_quote body))
]

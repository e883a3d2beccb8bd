-- ===== src/Ovpn/Remotes.antt =====
-- internal/ovpn/config.go: which servers a profile names, for the kill switch and the display.
pub mod Listed
use mathlib.Core.List.{reverse}
use wireguide.Base.{
  ℕ, Bool, true, false, not, ◌&&◌, ◌||◌, List, [], ◌∷◌, ◌++◌, if◌then◌else◌, ◌==◌, map,
}
use wireguide.Base.Bytes.{Bytes, codes, equal, has_prefix}
use wireguide.Base.Text.{has_byte, to_lower}
use wireguide.Domain.{is_empty}
use wireguide.Ovpn.Source.{Directive, TopDirective}

pub record RemoteSpec : Type 0 where
  pub host : Bytes
  pub port : Bytes
  pub proto : Bytes

-- transportProto
unfoldable pub transport_proto : Bytes → Bytes
unfolding has_prefix to_lower
transport_proto p = if has_prefix (to_lower p) (codes "tcp") then codes "tcp" else codes "udp"

pub record RemoteDefaults : Type 0 where
  pub proto : Bytes
  pub port : Bytes

abbrev with_default : Bytes → Bytes → RemoteDefaults → RemoteDefaults
with_default name a rd =
    if equal name (codes "proto")
    then record rd { proto = a }
    else if equal name (codes "port") || equal name (codes "rport")
    then record rd { port = a }
    else rd

abbrev apply_args : Bool → Bytes → List Bytes → RemoteDefaults → RemoteDefaults
apply_args false name (a ∷ _) rd = with_default name a rd
apply_args _ _ _ rd = rd

-- apply
unfoldable pub apply_default : RemoteDefaults → Directive → RemoteDefaults
unfolding equal
apply_default rd d = apply_args d.inline d.name d.args rd

unfoldable pub apply_all : RemoteDefaults → List Directive → RemoteDefaults
unfolding apply_default
apply_all rd [] = rd
apply_all rd (d ∷ ds) = apply_all (apply_default rd d) ds

abbrev is_bracket : ℕ → Bool
is_bracket c = c == b'[' || c == b']'

unfoldable pub drop_brackets : Bytes → Bytes
drop_brackets [] = []
drop_brackets (c ∷ s) = let rest = drop_brackets s in if is_bracket c then rest else c ∷ s

-- strings.Trim(host, "[]")
unfoldable pub trim_brackets : Bytes → Bytes
unfolding drop_brackets
trim_brackets s = reverse (drop_brackets (reverse (drop_brackets s)))

abbrev or_default : Bytes → Bytes → Bytes
or_default [] d = d
or_default (c ∷ s) d = c ∷ s

abbrev port_of : List Bytes → Bytes → Bytes
port_of [] def = def
port_of (p ∷ _) def = or_default p def

abbrev proto_of : List Bytes → Bytes → Bytes
proto_of (_ ∷ [] ∷ _) def = transport_proto def
proto_of (_ ∷ p ∷ _) def = transport_proto p
proto_of _ def = transport_proto def

abbrev add_args : Bool → List Bytes → RemoteDefaults → List RemoteSpec
add_args false ((c ∷ h) ∷ more) def =
    record {
      host = trim_brackets (c ∷ h);
      port = port_of more def.port;
      proto = proto_of more def.proto;
    }
    ∷ []
add_args _ _ def = []

-- add
unfoldable pub add_remote : Directive → RemoteDefaults → List RemoteSpec
unfolding trim_brackets transport_proto
add_remote d def = add_args d.inline d.args def

abbrev pub is_remote : Directive → Bool
is_remote d = equal d.name (codes "remote")

-- the remotes of a list of directives, with its defaults
unfoldable pub remotes_in : RemoteDefaults → List Directive → List RemoteSpec
unfolding add_remote equal
remotes_in def [] = []
remotes_in def (d ∷ ds) = (if is_remote d then add_remote d def else []) ++ remotes_in def ds

abbrev pub directives : List TopDirective → List Directive
directives ds = map (λ (t : TopDirective). t.directive) ds

-- the second loop of collectRemotes
unfoldable pub remotes_below : RemoteDefaults → List TopDirective → List RemoteSpec
unfolding add_remote apply_all remotes_in equal
remotes_below global [] = []
remotes_below global (t ∷ ts) =
    (if is_remote t.directive then add_remote t.directive global else [])
    ++ (remotes_in (apply_all global t.children) t.children ++ remotes_below global ts)

-- collectRemotes
unfoldable pub collect_remotes : List TopDirective → List RemoteSpec
unfolding apply_all remotes_below
collect_remotes ds =
    remotes_below (apply_all (record { proto = codes "udp"; port = codes "1194" }) (directives ds))
      ds

-- walkDirectives, where no visit ends the walk
unfoldable pub walk : List TopDirective → List Directive
walk [] = []
walk (t ∷ ts) = t.directive ∷ (t.children ++ walk ts)

pub record OvpnConfig : Type 0 where
  pub remote : Bytes
  pub proto : Bytes
  pub auth_user_pass : Bool
  pub remotes : List RemoteSpec

-- `host[:port]`, with an IPv6 host in brackets where a port follows
abbrev display_host : List Bytes → Bytes
display_host [] = []
display_host (h ∷ []) = h
display_host (h ∷ p ∷ _) = (if has_byte b':' h then b'[' ∷ (h ++ b']' ∷ []) else h) ++ (b':' ∷ p)

abbrev with_proto : List Bytes → OvpnConfig → OvpnConfig
with_proto [] cfg = cfg
with_proto (a ∷ _) cfg = record cfg { proto = to_lower a }

-- the function that summarize walks with
unfoldable pub summarize_one : Directive → OvpnConfig → OvpnConfig
unfolding equal has_byte to_lower
summarize_one d cfg =
    if equal d.name (codes "remote")
    then (if is_empty cfg.remote then record cfg { remote = display_host d.args } else cfg)
    else if equal d.name (codes "proto")
    then with_proto d.args cfg
    else if equal d.name (codes "auth-user-pass") && not d.inline
    then record cfg { auth_user_pass = true }
    else cfg

unfoldable pub summarize_all : List Directive → OvpnConfig → OvpnConfig
unfolding summarize_one
summarize_all [] cfg = cfg
summarize_all (d ∷ ds) cfg = summarize_all ds (summarize_one d cfg)

-- summarize
unfoldable pub summarize : List TopDirective → OvpnConfig
unfolding summarize_all walk collect_remotes
summarize ds =
    summarize_all (walk ds)
      (record { remote = []; proto = []; auth_user_pass = false; remotes = collect_remotes ds })

-- ===== src/Wifi/Rules.antt =====
-- internal/wifi/rules.go.
use wireguide.Base.{
  Bool, true, false, not, ◌&&◌, ◌||◌, List, [], ◌∷◌, none, some, if◌then◌else◌, ◌≡◌, refl, arith,
}
use wireguide.Base.Bytes.{Bytes, contains}
use wireguide.Base.Dict.{Dict, get}
use wireguide.Domain.{is_empty}

pub record Rules : Type 0 where
  pub enabled : Bool
  pub default_tunnel : Bytes
  pub auto_connect_untrusted : Bool
  pub trusted_ssids : List Bytes
  pub ssid_tunnel_map : Dict Bytes

-- the pairs that Action returns
pub data Action : Type 0 where
  nothing disconnect : Action
  connect : Bytes → Action

-- Action
unfoldable pub action : Rules → Bytes → Action
unfolding contains get
action r ssid =
    if not r.enabled || is_empty ssid
    then nothing
    else if contains r.trusted_ssids ssid
    then disconnect
    else elim (get r.ssid_tunnel_map ssid) [
      | some tunnel ↦ connect tunnel
      | none ↦
          if r.auto_connect_untrusted && not (is_empty r.default_tunnel)
          then connect r.default_tunnel
          else nothing
    ]

abbrev pub none_listed {ℓ} : {A : Type ℓ} → List A → Bool
none_listed [] = true
none_listed (_ ∷ _) = false

-- HasActiveRules, on rules that are not nil
unfoldable pub has_active_rules : Rules → Bool
has_active_rules r =
    r.enabled
    && (not (none_listed r.trusted_ssids)
        || not (none_listed r.ssid_tunnel_map)
        || (r.auto_connect_untrusted && not (is_empty r.default_tunnel)))

contains-nothing : (xs : List Bytes) (s : Bytes) → none_listed xs ≡ true → contains xs s ≡ false
unfolding contains
contains-nothing [] s h = refl
contains-nothing (x ∷ xs) s h = cc

get-nothing : (d : Dict Bytes) (s : Bytes) → none_listed d ≡ true → get d s ≡ none
unfolding get
get-nothing [] s h = refl
get-nothing (x ∷ d) s h = cc

-- Where HasActiveRules reports that no rule could fire, Action does nothing on any network.
pub has_active_rules-action :
    (r : Rules) (ssid : Bytes) → has_active_rules r ≡ false → action r ssid ≡ nothing
unfolding has_active_rules action
has_active_rules-action r ssid h =
    ground (arith, contains-nothing r.trusted_ssids ssid, get-nothing r.ssid_tunnel_map ssid)

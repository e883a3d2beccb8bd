-- ===== src/Tests/Protocols.antt =====
-- Runs of the frames, the Wi-Fi rules and the retry loop.
use wireguide.Base.{ℕ, ◌<◌, ◌≤◌, true, false, [], ◌∷◌, ◌++◌, ◌≡◌, refl, arith, length}
use wireguide.Base.Bytes.{Bytes, codes, contains, equal}
use wireguide.Base.Result.{ok}
use wireguide.Ipc.Framing.{write_raw_frame, read_frame_raw, max_frame_size, uint32}
use wireguide.Ipc.Framing.RoundTrip.{write-read, read-bounds}
use wireguide.Wifi.Rules.{
  Rules, nothing, disconnect, action, has_active_rules, has_active_rules-action,
}
use wireguide.Reconnect.Backoff.{Config, Round, failed, reconnect_with_backoff}
use wireguide.Reconnect.Backoff.Laws.{release_count, hold_released_once}

abbrev ping : Bytes
ping = codes "ping"

abbrev ping_frame : Bytes
ping_frame = 0 ∷ 0 ∷ 0 ∷ 4 ∷ codes "ping"

ping-write : write_raw_frame [] ping ≡ ok ping_frame
unfolding write_raw_frame
ping-write = refl

write-read_example : read_frame_raw (ping_frame ++ codes "more") ≡ ok (ping, codes "more")
write-read_example = write-read ping (codes "more") ping_frame (ground arith) ping-write

ping-read : read_frame_raw ping_frame ≡ ok (ping, [])
unfolding read_frame_raw
ping-read = refl

read-bounds_example :
    (0 < length ping)
    × (length ping ≤ max_frame_size)
    × (a : ℕ) × (b : ℕ) × (c : ℕ) × (d : ℕ) × (uint32 a b c d ≡ length ping)
    × (ping_frame ≡ a ∷ b ∷ c ∷ d ∷ (ping ++ []))
read-bounds_example = read-bounds ping_frame ping [] ping-read

-- Rules that are enabled and list nothing.
abbrev idle : Rules
idle = record {
  enabled = true;
  default_tunnel = codes "office";
  auto_connect_untrusted = false;
  trusted_ssids = [];
  ssid_tunnel_map = [];
}

home_disconnects :
    action (record idle { trusted_ssids = codes "home" ∷ [] }) (codes "home") ≡ disconnect
unfolding action contains equal
home_disconnects = refl

idle_inactive : has_active_rules idle ≡ false
unfolding has_active_rules
idle_inactive = refl

has_active_rules-action_example : action idle (codes "cafe") ≡ nothing
has_active_rules-action_example = has_active_rules-action idle (codes "cafe") idle_inactive

abbrev two_tries : Config
two_tries = record { initial_delay = 5; max_delay = 8; max_attempts = 2 }

abbrev fails : Round
fails = record { running = true; waited = true; wanted = true; outcome = failed }

hold_released_once_example :
    release_count (reconnect_with_backoff two_tries (fails ∷ fails ∷ fails ∷ [])) ≡ 1
hold_released_once_example =
    hold_released_once two_tries (fails ∷ fails ∷ fails ∷ []) (ground arith) (ground arith)

-- ===== src/Tests/Ovpn.antt =====
-- Runs of the profile parser and the allowlist.
use wireguide.Base.{
  Bool, true, false, none, arith, List, [], ◌∷◌, ◌≡◌, ◌≢◌, refl, All, length, ◌==◌,
}
use wireguide.Base.Bytes.{Bytes, codes, has_prefix}
use wireguide.Base.Text.{split, has_byte, trim_space}
use wireguide.Ovpn.Line.{parse_line}
use wireguide.Base.Result.{Result, ok, err}
use wireguide.Ovpn.Source.{out_of_fuel, TopDirective, parse_config}
use wireguide.Ovpn.Source.Terminates.{parse_config_total}
use wireguide.Ovpn.Remotes.{collect_remotes, walk}
use wireguide.Ovpn.Remotes.Listed.{IsListed, collect_remotes-IsListed}
use wireguide.Ovpn.Profile.{Profile, ProfileError, inspect_profile}
use wireguide.Ovpn.Dns.{no_dns}
use wireguide.Base.Int.{pos, negsuc}
use wireguide.Ovpn.Profile.Accepted.{IsAccepted, inspect_profile-IsAccepted}
use wireguide.Ovpn.Profile.Runtime.{runtime_config, blank_lines, runtime_config-lines}
use wireguide.Ovpn.Management.{send_credentials}
use wireguide.Ovpn.Management.Quote.{send_credentials-parse_line}
use wireguide.Ovpn.Management.Reader.{hear_line, release_hold}
use wireguide.Ovpn.Management.Answers.{settles, hear_line-settles}
use wireguide.Tests.Data.{toy_net}

abbrev small_profile : Bytes
small_profile = codes "client\nuser nobody\nremote vpn.example.org 1194\n<ca>\nsecret\n</ca>\n"

-- The name "user" is taken out of the runtime profile; only "remote" is a server.
abbrev inspected : Profile
inspected = record {
  cfg = record {
    remote = codes "vpn.example.org:1194";
    proto = [];
    auth_user_pass = false;
    remotes =
        record { host = codes "vpn.example.org"; port = codes "1194"; proto = codes "udp" } ∷ [];
  };
  has_keepalive = false;
  has_mtu = false;
  legacy_ciphers = [];
  verb = negsuc 0;
  dns = no_dns;
  pull_filters = [];
  strip_lines = 2 ∷ [];
}

inspect_run : inspect_profile toy_net small_profile ≡ ok inspected
unfolding inspect_profile
inspect_run = refl

inspect_profile-IsAccepted_example :
    (ds : List TopDirective) × (parse_config small_profile ≡ ok ds) × All IsAccepted ds
inspect_profile-IsAccepted_example =
    inspect_profile-IsAccepted toy_net small_profile inspected inspect_run

parse_config_total_example : parse_config small_profile ≢ err out_of_fuel
parse_config_total_example = parse_config_total small_profile

abbrev remote_directive : TopDirective
remote_directive = record {
  directive = record {
    name = codes "remote";
    args = codes "[2001:db8::1]" ∷ [];
    line = 1;
    inline = false;
    body = [];
  };
  children = [];
}

collect_remotes-IsListed_example :
    All (IsListed (collect_remotes (remote_directive ∷ []))) (walk (remote_directive ∷ []))
collect_remotes-IsListed_example = collect_remotes-IsListed (remote_directive ∷ [])

runtime_config-lines_example :
    split b'\n' (runtime_config (2 ∷ []) small_profile)
    ≡ blank_lines (2 ∷ []) 1 (split b'\n' small_profile)
runtime_config-lines_example = runtime_config-lines (2 ∷ []) small_profile

-- A server behind "setenv opt" passes as a remote, and the profile has no remotes for the firewall.
abbrev hidden_remote : Bytes
hidden_remote = codes "client\nsetenv opt remote vpn.example.org 443\n"

abbrev hidden_remotes : Result ProfileError Profile → Bool
hidden_remotes (ok p) = length p.cfg.remotes == 0
hidden_remotes (err e) = false

hidden_run : hidden_remotes (inspect_profile toy_net hidden_remote) ≡ true
unfolding inspect_profile
hidden_run = refl

-- A password with a quote and a backslash.
abbrev odd_password : Bytes
odd_password = codes "a\"b\\c"

abbrev sent_text : Bytes
sent_text = codes "username \"Auth\" \"bob\"\npassword \"Auth\" \"a\\\"b\\\\c\"\n"

send_run : send_credentials true true (codes "bob") odd_password ≡ (true, sent_text)
unfolding send_credentials
send_run = refl

send_credentials-parse_line_example :
    (a : Bytes) × (b : Bytes) × (split b'\n' sent_text ≡ a ∷ b ∷ [] ∷ [])
    × (parse_line a ≡ ok (codes "username" ∷ codes "Auth" ∷ codes "bob" ∷ []))
    × (parse_line b ≡ ok (codes "password" ∷ codes "Auth" ∷ odd_password ∷ []))
unfolding has_byte
send_credentials-parse_line_example =
    send_credentials-parse_line (codes "bob") odd_password sent_text refl refl (omega arith)
      (omega arith) send_run

hear_line-settles_example :
    settles (hear_line toy_net (λ s. none) (codes ">PASSWORD:Need 'Private Key' password")).events
    ≡ true
unfolding has_prefix
hear_line-settles_example =
    hear_line-settles toy_net (λ s. none) (codes ">PASSWORD:Need 'Private Key' password") refl

-- The wait of a hold, in nanoseconds.
hold_run :
    (hear_line toy_net (λ s. none) (codes ">HOLD:Waiting for hold release:5")).events
    ≡ release_hold (pos 5000000000) ∷ []
unfolding hear_line trim_space
hold_run = refl

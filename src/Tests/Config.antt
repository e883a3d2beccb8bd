-- ===== src/Tests/Config.antt =====
-- Runs of the parser, the serializer and the validator of configuration files.
use wireguide.Base.{true, [], some, ◌≡◌, refl, arith, All}
use wireguide.Base.Bytes.{codes, equal, equal_iff, contains}
use wireguide.Base.Dict.{keys}
use wireguide.Base.Text.{has_byte}
use wireguide.Base.Sorted.{sort_strings}
use wireguide.Base.Result.{ok}
use wireguide.Net.{Net}
use wireguide.Config.Parser.{parse}
use wireguide.Config.Serializer.{serialize, interface_fields, peer_fields}
use wireguide.Config.Parser.RoundTrip.{IsPrintable, parse-serialize}
use wireguide.Config.Validator.{Decoders, validate, validate_interface, is_valid}
use wireguide.Config.Validator.Endpoints.{KeepsLines, EndpointLacks, validate-EndpointLacks}
use wireguide.Tests.Data.{toy_net, office}

office_text :
    serialize office
    ≡ codes
        "[Interface]\nPrivateKey = secret\nAddress = 10.0.0.2/24\nDNS = 10.0.0.1\nMTU = 1420\n\n[Peer]\nPublicKey = key\nEndpoint = 192.0.2.1:51820\nAllowedIPs = 0.0.0.0/0\nPersistentKeepalive = 25\n"
unfolding serialize sort_strings keys
office_text = refl

pub office-IsPrintable : IsPrintable toy_net office
unfolding has_byte interface_fields peer_fields sort_strings keys
office-IsPrintable = record {
  interface = record {
    address = (refl, tt);
    dns = (refl, tt);
    mtu = omega arith;
    listen_port = omega arith;
    pre_up = tt;
    post_up = tt;
    pre_down = tt;
    post_down = tt;
    no_extra = refl;
  };
  interface_lines = ((refl, refl), ((refl, refl), ((refl, refl), ((refl, refl), tt))));
  peers = (
    (
      record { allowed_ips = (refl, tt); keepalive = omega arith; no_extra = refl },
      ((refl, refl), ((refl, refl), ((refl, refl), ((refl, refl), tt)))),
    ),
    tt,
  );
}

parse-serialize_example : parse toy_net (serialize office) ≡ ok (record office { name = [] })
parse-serialize_example = parse-serialize toy_net office office-IsPrintable

-- A library that takes every key, and a network that knows the prefixes of `office`.
abbrev lenient : Decoders
lenient = record { decoded_size = λ s. some 32; parse_int = λ base s. true }

abbrev prefix_net : Net
prefix_net = record toy_net { mask_size = λ s. some (24, 32) }

prefix_net-KeepsLines : KeepsLines prefix_net
unfolding contains has_byte
prefix_net-KeepsLines = record {
  ips = λ s h. ground (
    arith,
    equal_iff (codes "192.0.2.1") s,
    equal_iff (codes "10.0.0.1") s,
    equal_iff (codes "198.51.100.9") s,
  );
  parts = λ s host port e h k. ground (arith, equal_iff s (codes "192.0.2.1:51820"));
}

office_valid : is_valid (validate prefix_net lenient office) ≡ true
unfolding validate validate_interface contains equal
office_valid = refl

validate-EndpointLacks_example : All EndpointLacks office.peers
validate-EndpointLacks_example =
    validate-EndpointLacks prefix_net lenient prefix_net-KeepsLines office office_valid

-- ===== src/Storage/Name.antt =====
-- internal/storage/name.go. The code ranges over runes; a byte above 127 belongs to a rune that no
-- test accepts, so the test of each byte is the test of each rune.
use wireguide.Base.{ℕ, Bool, ◌&&◌, ◌||◌, [], ◌∷◌, ◌==◌, ltb, leb, if◌then◌else◌, length, all}
use wireguide.Base.Bytes.{Bytes}
use wireguide.Base.Result.{Result, ok, err}

pub data NameError : Type 0 where
  name_empty too_long outer_space bad_character : NameError

abbrev pub is_letter_or_digit : ℕ → Bool
is_letter_or_digit c =
    (leb b'a' c && leb c b'z') || (leb b'A' c && leb c b'Z') || (leb b'0' c && leb c b'9')

unfoldable pub is_name_character : ℕ → Bool
is_name_character c = is_letter_or_digit c || c == b'-' || c == b'_' || c == b' '

abbrev pub last : ℕ → Bytes → ℕ
last c [] = c
last c (d ∷ s) = last d s

-- ValidateTunnelName
unfoldable pub validate_tunnel_name : Bytes → Result NameError (Unit {0})
unfolding is_name_character
validate_tunnel_name [] = err name_empty
validate_tunnel_name (c ∷ s) =
    if ltb 64 (length (c ∷ s))
    then err too_long
    else if c == b' ' || last c s == b' '
    then err outer_space
    else if all is_name_character (c ∷ s)
    then ok tt
    else err bad_character

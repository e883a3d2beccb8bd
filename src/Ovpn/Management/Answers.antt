-- ===== src/Ovpn/Management/Answers.antt =====
-- What readLoop of internal/ovpn/management.go makes of the lines behind which openvpn waits.
use wireguide.Base.{
  Bool, true, false, ◌||◌, List, [], ◌∷◌, ◌++◌, Option, ◌≡◌, refl, ap, ◌∙◌, Bool-cases, arith,
  length, drop, if◌then◌else◌, inl, inr,
}
use wireguide.Base.Bytes.{Bytes, codes, has_prefix, has_prefix-split}
use wireguide.Net.{Net}
use wireguide.Ovpn.Management.{Base64, AuthChallenge, parse_static_challenge}
use wireguide.Ovpn.Management.Reader.{
  Event, auth_prompt, failure, msg_private_key, msg_proxy_auth, msg_unknown_prompt, on_password,
  hear_line,
}

-- A line behind which openvpn waits for input.
abbrev pub is_question : Bytes → Bool
is_question l =
    has_prefix l (codes ">PASSWORD:Need ")
    || (has_prefix l (codes ">NEED-OK:") || has_prefix l (codes ">NEED-STR:"))

-- The user is asked, or the process is ended.
abbrev pub settles : List Event → Bool
settles (auth_prompt ch ∷ []) = true
settles (failure msg ends ∷ []) = ends
settles _ = false

last_one : (a b c : Bool) → (a || (b || c)) ≡ true → a ≡ false → b ≡ false → c ≡ true
last_one a b c h k m = ground arith

prompts_settle :
    (a b c : Bool) (ch : Option AuthChallenge) (x y z : Bytes)
    → settles (
        if a
        then auth_prompt ch ∷ []
        else if b
        then failure x true ∷ []
        else if c
        then failure y true ∷ []
        else failure z true ∷ [])
      ≡ true
prompts_settle true b c ch x y z = refl
prompts_settle false true c ch x y z = refl
prompts_settle false false true ch x y z = refl
prompts_settle false false false ch x y z = refl

module _ (net : Net) (base64 : Base64) where
  password_settles :
      (r : Bytes) → settles (hear_line net base64 (codes ">PASSWORD:Need " ++ r)).events ≡ true
  unfolding hear_line on_password has_prefix
  password_settles r =
      prompts_settle (has_prefix (codes "Need " ++ r) (codes "Need 'Auth'"))
        (has_prefix (codes "Need " ++ r) (codes "Need 'Private Key'"))
        (has_prefix (codes "Need " ++ r) (codes "Need 'HTTP Proxy'"))
        (parse_static_challenge (codes "Need " ++ r)) msg_private_key msg_proxy_auth
        msg_unknown_prompt

  need_ok_settles :
      (r : Bytes) → settles (hear_line net base64 (codes ">NEED-OK:" ++ r)).events ≡ true
  unfolding hear_line has_prefix
  need_ok_settles r = refl

  need_str_settles :
      (r : Bytes) → settles (hear_line net base64 (codes ">NEED-STR:" ++ r)).events ≡ true
  unfolding hear_line has_prefix
  need_str_settles r = refl

  settles_as :
      (p l : Bytes)
      → ((r : Bytes) → settles (hear_line net base64 (p ++ r)).events ≡ true)
      → has_prefix l p ≡ true
      → settles (hear_line net base64 l).events ≡ true
  settles_as p l f h =
      ap (λ x. settles (hear_line net base64 x).events) (has_prefix-split l p h)
      ∙ f (drop (length p) l)

  -- Behind every line at which openvpn waits for input, the user is asked or the process is ended.
  pub hear_line-settles :
      (l : Bytes) → is_question l ≡ true → settles (hear_line net base64 l).events ≡ true
  hear_line-settles l h = elim (Bool-cases (has_prefix l (codes ">PASSWORD:Need "))) [
    | inl p ↦ settles_as (codes ">PASSWORD:Need ") l password_settles p
    | inr p ↦ elim (Bool-cases (has_prefix l (codes ">NEED-OK:"))) [
      | inl k ↦ settles_as (codes ">NEED-OK:") l need_ok_settles k
      | inr k ↦ settles_as (codes ">NEED-STR:") l need_str_settles (last_one _ _ _ h p k)
    ]
  ]

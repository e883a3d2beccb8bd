-- ===== src/Storage/Tunnels/Exact.antt =====
-- The directory of internal/storage on a case-sensitive volume.
use mathlib.Core.List.{reverse, reverse-append}
use wireguide.Base.{
  ℕ, true, false, [], ◌∷◌, ◌++◌, ◌≡◌, ◌≢◌, refl, sym, ap, ◌∙◌, arith, length, length-append,
}
use wireguide.Base.Bytes.{Bytes, codes, equal, equal_iff, equal_ne, equal_refl}
use wireguide.Storage.Tunnels.{conf_path, ovpn_path, meta_path}
use wireguide.Storage.Tunnels.Laws.{IsNaming}

longer_ne : (y : ℕ) (b s : Bytes) → s ≢ y ∷ (b ++ s)
longer_ne y b s h = grind (arith, length-append b s, ap length h)

equal-append : (a b s : Bytes) → equal (a ++ s) (b ++ s) ≡ equal a b
unfolding equal
equal-append [] [] s = equal_refl s
equal-append [] (y ∷ b) s = equal_ne s (y ∷ (b ++ s)) (longer_ne y b s)
equal-append (x ∷ a) [] s = equal_ne (x ∷ (a ++ s)) s (λ h. longer_ne x a s (sym h))
equal-append (x ∷ a) (y ∷ b) s = ground (arith, equal-append a b s)

abbrev two : Bytes → Bytes
two (a ∷ b ∷ s) = a ∷ b ∷ []
two s = s

contrary : (x y : Bytes) → equal x y ≡ true → equal x y ≡ false → ⊥
contrary x y h k = ground arith

-- Names with different endings are different.
apart :
    (a b s t : Bytes)
    → equal (two (reverse s ++ reverse a)) (two (reverse t ++ reverse b)) ≡ false
    → equal (a ++ s) (b ++ t) ≡ false
apart a b s t n =
    let x = two (reverse s ++ reverse a) in
    let y = two (reverse t ++ reverse b) in
    equal_ne (a ++ s) (b ++ t) (λ h.
      let q : x ≡ y = ap two (sym (reverse-append a s) ∙ ap reverse h ∙ reverse-append b t) in
      contrary x y ((equal_iff x y).1 q) n)

pub exact-IsNaming : IsNaming (λ s. s)
unfolding equal conf_path ovpn_path meta_path
exact-IsNaming = record {
  conf = λ a b. equal-append a b (codes ".conf");
  ovpn = λ a b. equal-append a b (codes ".ovpn");
  conf_ovpn = λ a b. apart a b (codes ".conf") (codes ".ovpn") refl;
  ovpn_conf = λ a b. apart a b (codes ".ovpn") (codes ".conf") refl;
  meta_conf = λ a b. apart a b (codes ".meta.json") (codes ".conf") refl;
  meta_ovpn = λ a b. apart a b (codes ".meta.json") (codes ".ovpn") refl;
}

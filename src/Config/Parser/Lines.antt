-- ===== src/Config/Parser/Lines.antt =====
-- How Parse reads the lines that Serialize writes.
use mathlib.Core.List.{append_assoc}
use wireguide.Base.{
  Bool, true, false, not, ◌&&◌, List, [], ◌∷◌, ◌++◌, some, length, ltb, ◌==◌, ◌≡◌, refl, sym, ap,
  ◌∙◌, arith,
}
use wireguide.Base.Bytes.{Bytes, codes, equal, has_prefix}
use wireguide.Base.Result.{◌>>=◌}
use wireguide.Base.Text.{trim_space, cut, to_lower, has_byte}
use wireguide.Base.Text.Laws.{
  is_trimmed, trim_space-trimmed, trim_space-blank, trim_space-blank_after, is_trimmed-append,
  has_byte-append, before-without, cut-append,
}
use wireguide.Net.{Net}
use wireguide.Config.Parser.{
  ParseState, clean_line, is_skipped, parse_key, parse_clean, parse_lines,
}
use wireguide.Config.Serializer.{Field, field_line}

-- Text that Parse takes whole, as a value.
abbrev pub is_value : Bytes → Bool
is_value v = is_trimmed v && (not (has_byte b'#' v) && not (has_byte b'\n' v))

abbrev pub starts_line : Bytes → Bool
starts_line [] = false
starts_line (c ∷ s) = not (c == b';') && not (c == b'[')

-- Text that Parse takes whole, as a key.
abbrev pub is_key : Bytes → Bool
is_key k = is_value k && (not (has_byte b'=' k) && starts_line k)

abbrev pub is_field : Field → Bool
is_field (k, v) = is_key k && is_value v

cut-field :
    (k v : Bytes)
    → has_byte b'=' k ≡ false
    → cut b'=' (field_line (k, v)) ≡ some (k ++ (32 ∷ []), 32 ∷ v)
unfolding has_byte
cut-field k v h =
    ap (cut b'=') (sym (append_assoc k (32 ∷ []) (b'=' ∷ 32 ∷ v)))
    ∙ cut-append b'=' (k ++ (32 ∷ [])) (32 ∷ v) (ground (arith, has_byte-append b'=' k (32 ∷ [])))

not_header :
    (k rest word : Bytes)
    → starts_line k ≡ true
    → is_trimmed k ≡ true
    → equal (to_lower (k ++ rest)) (b'[' ∷ word) ≡ false
unfolding to_lower equal
not_header [] rest word h t = cc
not_header (c ∷ []) [] word h t = ground arith
not_header (c ∷ []) (d ∷ []) word h t = ground arith
not_header (c ∷ []) (d ∷ e ∷ s) word h t = ground arith
not_header (c ∷ d ∷ []) [] word h t = ground arith
not_header (c ∷ d ∷ []) (e ∷ s) word h t = ground arith
not_header (c ∷ d ∷ e ∷ s) rest word h t = ground arith

not_skipped : (k rest : Bytes) → starts_line k ≡ true → is_skipped (k ++ rest) ≡ false
unfolding has_prefix
not_skipped [] rest h = cc
not_skipped (c ∷ s) rest h = ground arith

-- A line of Serialize has no comment and no outer white space.
clean_line-field :
    (k v : Bytes) → is_field (k, v) ≡ true → clean_line (field_line (k, v)) ≡ field_line (k, v)
unfolding clean_line has_byte
clean_line-field k v h =
    ap trim_space (
      before-without b'#' (field_line (k, v)) (
        ground
          (arith, has_byte-append b'#' k (codes " = " ++ v), has_byte-append b'#' (codes " = ") v)))
    ∙ trim_space-trimmed (field_line (k, v))
        (is_trimmed-append k (codes " = ") v (ground arith) (ground arith))

module _ (net : Net) where
  -- A line of Serialize reaches the switch on the section with its key and its value.
  pub parse_clean-field :
      (k v : Bytes) (s : ParseState)
      → is_field (k, v) ≡ true
      → parse_clean net (field_line (k, v)) s ≡ parse_key net s.section k v s
  unfolding parse_clean
  parse_clean-field k v s h =
      let unskipped : is_skipped (field_line (k, v)) ≡ false =
        not_skipped k (codes " = " ++ v) (ground arith) in
      let no_interface =
        not_header k (codes " = " ++ v) (codes "interface]") (ground arith) (ground arith) in
      let no_peer = not_header k (codes " = " ++ v) (codes "peer]") (ground arith) (ground arith) in
      rw (unskipped, no_interface, no_peer, cut-field k v (ground arith))
        (ap (λ x. parse_key net s.section x (trim_space (32 ∷ v)) s)
            (trim_space-blank_after k (ground arith))
          ∙ ap (λ x. parse_key net s.section k x s) (trim_space-blank v (ground arith)))

  abbrev pub IsShort : Bytes → Type 0
  IsShort line = ltb (length line) 65536 ≡ true

  parse_lines-cons :
      (line : Bytes) (lines : List Bytes) (s : ParseState)
      → IsShort line
      → parse_lines net (line ∷ lines) s
        ≡ (parse_clean net (clean_line line) s >>= λ s'. parse_lines net lines s')
  unfolding parse_lines
  parse_lines-cons line lines s h = rw h refl

  pub parse_lines-field :
      (k v : Bytes) (lines : List Bytes) (s : ParseState)
      → is_field (k, v) ≡ true
      → IsShort (field_line (k, v))
      → parse_lines net (field_line (k, v) ∷ lines) s
        ≡ (parse_key net s.section k v s >>= λ s'. parse_lines net lines s')
  parse_lines-field k v lines s h short =
      parse_lines-cons (field_line (k, v)) lines s short
      ∙ ap (λ l. parse_clean net l s >>= λ s'. parse_lines net lines s') (clean_line-field k v h)
      ∙ ap (λ r. r >>= λ s'. parse_lines net lines s') (parse_clean-field k v s h)

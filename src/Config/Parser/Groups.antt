-- ===== src/Config/Parser/Groups.antt =====
-- Reading back each group of lines that Serialize writes for one field.
use mathlib.Core.List.{append_assoc}
use wireguide.Base.{
  ℕ, zero, suc, ◌^◌, ◌<◌, true, false, not, ◌&&◌, List, [], ◌∷◌, ◌++◌, ◌==◌, ◌≡◌, ◌≢◌, refl, ap,
  ◌∙◌, arith, All, map, Bool-cases, inl, inr, filter,
}
use wireguide.Base.Bytes.{Bytes, codes}
use wireguide.Base.Decimal.Itoa.{itoa}
use wireguide.Base.Int.{ℤ, pos, negsuc}
use wireguide.Base.Result.{Result, ok, ◌>>=◌}
use wireguide.Base.Text.{trim_space, split, join, has_byte, in_front}
use wireguide.Base.Text.Laws.{trim_space-trimmed, trim_space-blank, split-join-blank, Lacks, blank}
use wireguide.Domain.{is_empty}
use wireguide.Net.{Net}
use wireguide.Config.Fields.{
  ParseError, append_script_line, split_and_trim, split_prefixes, with_prefix,
}
use wireguide.Config.Parser.Lines.{is_value}
use wireguide.Config.Serializer.{
  Field, list_field, number_field, text_field, with_key, script_fields,
}

-- An entry of a list, and a prefix, as they stand between the commas.
abbrev pub IsEntry : Bytes → Type 0
IsEntry x = (is_value x && not (has_byte b',' x)) ≡ true

abbrev pub IsPrefix : Bytes → Type 0
IsPrefix x = (is_value x && not (has_byte b',' x) && has_byte b'/' x) ≡ true

-- An optional text, a number that Go's `int` holds, and the lines of a script.
abbrev pub IsOptional : Bytes → Type 0
IsOptional [] = Unit {0}
IsOptional (c ∷ s) = is_value (c ∷ s) ≡ true

abbrev pub IsCount : ℤ → Type 0
IsCount (pos n) = n < 2 ^ 63
IsCount (negsuc n) = ⊥

abbrev IsText : Bytes → Type 0
IsText v = is_value v ≡ true

abbrev pub IsScript : Bytes → Type 0
IsScript [] = Unit {0}
IsScript (c ∷ s) = All IsText (split 0 (c ∷ s))

pub is_value-nonempty : (x : Bytes) → is_value x ≡ true → is_empty x ≡ false
is_value-nonempty [] h = cc
is_value-nonempty (c ∷ s) h = refl

keep_trimmed : List Bytes → List Bytes
keep_trimmed ps = filter (λ p. not (is_empty p)) (map trim_space ps)

keep_trimmed-blank : (xs : List Bytes) → All IsEntry xs → keep_trimmed (map blank xs) ≡ xs
unfolding keep_trimmed
keep_trimmed-blank [] h = refl
keep_trimmed-blank (x ∷ xs) h =
    rw (trim_space-blank x (ground arith), is_value-nonempty x (ground arith))
      (ap (◌∷◌ x) (keep_trimmed-blank xs h.1))

All-Lacks : (xs : List Bytes) → All IsEntry xs → All (Lacks b',') xs
All-Lacks [] h = tt
All-Lacks (x ∷ xs) h = (ground arith, All-Lacks xs h.1)

-- splitAndTrim takes a written list apart again, and splitPrefixes one of prefixes.
pub split_and_trim-join :
    (xs : List Bytes) → All IsEntry xs → split_and_trim (join (codes ", ") xs) ≡ xs
unfolding split_and_trim keep_trimmed
split_and_trim-join [] h = unfold join split trim_space in refl
split_and_trim-join (x ∷ xs) h =
    ap keep_trimmed (split-join-blank b',' x xs refl (All-Lacks (x ∷ xs) h))
    ∙ rw (trim_space-trimmed x (ground arith), is_value-nonempty x (ground arith))
        (ap (◌∷◌ x) (keep_trimmed-blank xs h.1))

module _ (net : Net) where
  map-with_prefix : (xs : List Bytes) → All IsPrefix xs → map (with_prefix net) xs ≡ xs
  unfolding with_prefix
  map-with_prefix [] h = refl
  map-with_prefix (x ∷ xs) h = ground (arith, map-with_prefix xs h.1)

  IsPrefix-IsEntry : (xs : List Bytes) → All IsPrefix xs → All IsEntry xs
  IsPrefix-IsEntry [] h = tt
  IsPrefix-IsEntry (x ∷ xs) h = (ground arith, IsPrefix-IsEntry xs h.1)

  pub split_prefixes-join :
      (xs : List Bytes) → All IsPrefix xs → split_prefixes net (join (codes ", ") xs) ≡ xs
  unfolding split_prefixes
  split_prefixes-join xs h =
      ap (map (with_prefix net)) (split_and_trim-join xs (IsPrefix-IsEntry xs h))
      ∙ map-with_prefix xs h

-- A setter of one key after the other.
abbrev pub Setter : Type 0 → Type 0
Setter A = Bytes → Bytes → A → Result ParseError A

abbrev pub apply_fields : {A : Type 0} → Setter A → List Field → A → Result ParseError A
apply_fields f [] a = ok a
apply_fields f ((k, v) ∷ fs) a = f k v a >>= apply_fields f fs

nonempty-append : (s t : Bytes) → is_empty s ≡ false → is_empty (s ++ (0 ∷ t)) ≡ false
nonempty-append [] t h = cc
nonempty-append (c ∷ s) t h = refl

join-append :
    (s t : Bytes) (ps : List Bytes)
    → join (0 ∷ []) ((s ++ (0 ∷ t)) ∷ ps) ≡ join (0 ∷ []) (s ∷ t ∷ ps)
unfolding join
join-append s t [] = refl
join-append s t (p ∷ ps) = append_assoc s (0 ∷ t) (0 ∷ join (0 ∷ []) (p ∷ ps))

join-in_front :
    (b c : ℕ) (ps : List Bytes) → ps ≢ [] → join (b ∷ []) (in_front c ps) ≡ c ∷ join (b ∷ []) ps
unfolding join
join-in_front b c [] h = absurd (h refl)
join-in_front b c (p ∷ []) h = refl
join-in_front b c (p ∷ q ∷ ps) h = refl

split-nonempty : (b : ℕ) (s : Bytes) → split b s ≢ []
unfolding split
split-nonempty b [] e = cc
split-nonempty b (c ∷ s) e = ground arith

join-cons_nil : (b : ℕ) (ps : List Bytes) → ps ≢ [] → join (b ∷ []) ([] ∷ ps) ≡ b ∷ join (b ∷ []) ps
unfolding join
join-cons_nil b [] h = absurd (h refl)
join-cons_nil b (p ∷ ps) h = refl

join-split : (b : ℕ) (s : Bytes) → join (b ∷ []) (split b s) ≡ s
unfolding split
join-split b [] = unfold join in refl
join-split b (c ∷ s) = elim (Bool-cases (c == b)) [
  | inl same ↦ rw same (
      join-cons_nil b (split b s) (split-nonempty b s)
      ∙ ap (◌∷◌ b) (join-split b s)
      ∙ ap (λ x. x ∷ s) (ground arith))
  | inr apart ↦
      rw apart (join-in_front b c (split b s) (split-nonempty b s) ∙ ap (◌∷◌ c) (join-split b s))
]

module _ {A : Type 0} (f : Setter A) (key : Bytes) (fs : List Field) where
  pub apply-list_field :
      (set : List Bytes → A) (xs : List Bytes)
      → f key (join (codes ", ") xs) (set []) ≡ ok (set xs)
      → apply_fields f (list_field key xs ++ fs) (set []) ≡ apply_fields f fs (set xs)
  unfolding list_field
  apply-list_field set [] h = refl
  apply-list_field set (x ∷ xs) h = ap (λ r. r >>= apply_fields f fs) h

  pub apply-text_field :
      (set : Bytes → A) (v : Bytes)
      → f key v (set []) ≡ ok (set v)
      → apply_fields f (text_field key v ++ fs) (set []) ≡ apply_fields f fs (set v)
  unfolding text_field
  apply-text_field set [] h = refl
  apply-text_field set (c ∷ s) h = ap (λ r. r >>= apply_fields f fs) h

  pub apply-number_field :
      (set : ℤ → A) (z : ℤ)
      → IsCount z
      → ((n : ℕ) → n < 2 ^ 63 → f key (itoa n) (set (pos 0)) ≡ ok (set (pos n)))
      → apply_fields f (number_field key z ++ fs) (set (pos 0)) ≡ apply_fields f fs (set z)
  unfolding number_field
  apply-number_field set (pos zero) small h = refl
  apply-number_field set (pos (suc n)) small h = ap (λ r. r >>= apply_fields f fs) (h (suc n) small)
  apply-number_field set (negsuc n) small h = absurd small

  -- The parts of a script, one line each.
  apply-with_key :
      (set : Bytes → A) (ps : List Bytes) (acc : Bytes)
      → is_empty acc ≡ false
      → ((x v : Bytes) → f key v (set x) ≡ ok (set (append_script_line x v)))
      → apply_fields f (with_key key ps ++ fs) (set acc)
        ≡ apply_fields f fs (set (join (0 ∷ []) (acc ∷ ps)))
  unfolding join append_script_line
  apply-with_key set [] acc some_byte h = refl
  apply-with_key set (p ∷ ps) acc some_byte h =
      ap (λ r. r >>= apply_fields f (with_key key ps ++ fs)) (h acc p)
      ∙ rw some_byte (
          apply-with_key set ps (acc ++ (0 ∷ p)) (nonempty-append acc p some_byte) h
          ∙ ap (λ v. apply_fields f fs (set v)) (join-append acc p ps))

  apply_parts :
      (set : Bytes → A) (ps : List Bytes)
      → All IsText ps
      → ((x y : Bytes) → f key y (set x) ≡ ok (set (append_script_line x y)))
      → apply_fields f (with_key key ps ++ fs) (set []) ≡ apply_fields f fs (set (join (0 ∷ []) ps))
  unfolding join append_script_line
  apply_parts set [] scripts h = refl
  apply_parts set (p ∷ ps) scripts h =
      ap (λ r. r >>= apply_fields f (with_key key ps ++ fs)) (h [] p)
      ∙ apply-with_key set ps p (is_value-nonempty p scripts.0) h

  pub apply-script_fields :
      (set : Bytes → A) (v : Bytes)
      → IsScript v
      → ((x y : Bytes) → f key y (set x) ≡ ok (set (append_script_line x y)))
      → apply_fields f (script_fields key v ++ fs) (set []) ≡ apply_fields f fs (set v)
  unfolding script_fields
  apply-script_fields set [] scripts h = refl
  apply-script_fields set (c ∷ s) scripts h =
      apply_parts set (split 0 (c ∷ s)) scripts h
      ∙ ap (λ v. apply_fields f fs (set v)) (join-split 0 (c ∷ s))

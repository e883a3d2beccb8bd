-- ===== src/Ovpn/Source/Terminates.antt =====
-- The loops of internal/ovpn/parse.go end: every read that gives a line takes bytes from the source.
use wireguide.Base.{
  ℕ, zero, suc, ◌+◌, ◌≤◌, ◌<◌, Bool, true, false, List, [], ◌∷◌, ◌++◌, Option, none, some, ◌==◌,
  length, ◌≡◌, ◌≢◌, refl, arith, Bool-cases, inl, inr,
}
use wireguide.Base.Bytes.{Bytes, codes, equal, has_prefix}
use wireguide.Base.Result.{Result, ok, err, ◌>>=◌}
use wireguide.Base.Text.{has_byte}
use wireguide.Ovpn.Line.{LineError, parse_line, option_line_size}
use wireguide.Ovpn.Source.{
  ConfigError, out_of_fuel, no_end_tag, LineSource, Directive, TopDirective, fgets_loop, fgets,
  LineEnd, newline, at_end, truncated, buf_loop, Read, eof, line, buf_read, buf_parse, with_newline,
  as_read, on_read, on_line, get_line, trim_c_space, read_inline, inline_tag, close_tag_of,
  inner_block, inner_directives, parse_connection, children_of, top_block, top_directives, tokens,
  strip_dashes, check_length, config_loop, drop_bom, parse_config,
}

abbrev size : LineSource → ℕ
size src = length src.rest

abbrev is_fuel_error : ConfigError → Bool
is_fuel_error out_of_fuel = true
is_fuel_error _ = false

-- The loop did not run out of fuel, and what is left of the source is no longer than `n`.
abbrev Within : {A : Type 0} → (A → ℕ) → ℕ → Result ConfigError A → Type 0
Within left n (ok a) = left a ≤ n
Within left n (err e) = is_fuel_error e ≡ false

-- A line that was not cut leaves less than `n`.
abbrev Shrinks : ℕ → Read → Type 0
Shrinks n eof = Unit
Shrinks n (line l true rest) = Unit
Shrinks n (line l false rest) = size rest < n

fgets_loop-length : (n : ℕ) (s : Bytes) → length (fgets_loop n s).1 ≤ length s
unfolding fgets_loop
fgets_loop-length zero s = omega arith
fgets_loop-length (suc n) [] = omega arith
fgets_loop-length (suc n) (c ∷ s) = ground (arith, fgets_loop-length n s)

fgets_shrinks_at :
    (n : ℕ) (s : Bytes) (k : ℕ) (l : Bytes) (rest : LineSource)
    → fgets (suc n) (record { rest = s; line = k }) ≡ some (l, rest)
    → size rest < length s
unfolding fgets fgets_loop
fgets_shrinks_at n [] k l rest h = cc
fgets_shrinks_at n (c ∷ s) k l rest h = ground (arith, fgets_loop-length n s)

fgets_shrinks :
    (n : ℕ) (src : LineSource) (l : Bytes) (rest : LineSource)
    → fgets (suc n) src ≡ some (l, rest)
    → size rest < size src
fgets_shrinks n src l rest h = fgets_shrinks_at n src.rest src.line l rest h

buf_loop-length : (n : ℕ) (s : Bytes) → length (buf_loop n s).0 + length (buf_loop n s).1 ≤ length s
unfolding buf_loop
buf_loop-length n [] = omega arith
buf_loop-length zero (c ∷ s) = ground arith
buf_loop-length (suc n) (c ∷ s) = ground (arith, buf_loop-length n s)

buf_loop-newline :
    (n : ℕ) (s : Bytes) → (buf_loop n s).2 ≡ newline → length (buf_loop n s).1 < length s
unfolding buf_loop
buf_loop-newline n [] h = cc
buf_loop-newline zero (c ∷ s) h = ground arith
buf_loop-newline (suc n) (c ∷ s) h = ground (arith, buf_loop-newline n s)

buf_read-Shrinks :
    (n m : ℕ) (l rest : Bytes) (e : LineEnd)
    → length l + length rest ≤ m
    → (e ≡ newline → length rest < m)
    → Shrinks m (buf_read n l rest e)
buf_read-Shrinks n m l rest newline h k = k refl
buf_read-Shrinks n m [] rest at_end h k = tt
buf_read-Shrinks n m (c ∷ l) rest at_end h k = omega arith
buf_read-Shrinks n m l rest truncated h k = tt

buf_parse-Shrinks : (k : ℕ) (src : LineSource) → Shrinks (size src) (buf_parse k src)
unfolding buf_parse
buf_parse-Shrinks k src =
    let r = buf_loop k src.rest in
    buf_read-Shrinks src.line (size src) r.0 r.1 r.2 (buf_loop-length k src.rest)
      (buf_loop-newline k src.rest)

with_newline-Shrinks : (n : ℕ) (r : Read) → Shrinks n r → Shrinks n (with_newline r)
with_newline-Shrinks n eof h = tt
with_newline-Shrinks n (line l true rest) h = tt
with_newline-Shrinks n (line l false rest) h = h

on_line-Within :
    {A : Type 0} (left : A → ℕ) (n : ℕ) (finish : Result ConfigError A)
    (rest : Bytes → LineSource → Result ConfigError A) (r : Option (Bytes × LineSource))
    → Within left n finish
    → ((l : Bytes) (src : LineSource) → r ≡ some (l, src) → Within left n (rest l src))
    → Within left n (on_line r finish rest)
unfolding on_line
on_line-Within left n finish rest none h k = h
on_line-Within left n finish rest (some (l, src)) h k = k l src refl

on_read-Within :
    {A : Type 0} (left : A → ℕ) (n m k : ℕ) (finish : Result ConfigError A)
    (rest : Bytes → LineSource → Result ConfigError A) (r : Read)
    → Shrinks m r
    → Within left n finish
    → ((l : Bytes) (src : LineSource) → size src < m → Within left n (rest l src))
    → Within left n (on_read r finish k rest)
unfolding on_read
on_read-Within left n m k finish rest eof s h g = h
on_read-Within left n m k finish rest (line l true src) s h g = refl
on_read-Within left n m k finish rest (line l false src) s h g = g l src s

bind-Within :
    {A B : Type 0} (left : A → ℕ) (left' : B → ℕ) (n m : ℕ) (r : Result ConfigError A)
    (f : A → Result ConfigError B)
    → Within left n r
    → ((a : A) → left a ≤ n → Within left' m (f a))
    → Within left' m (r >>= f)
bind-Within left left' n m (ok a) f h k = k a h
bind-Within left left' n m (err e) f h k = h

Within-le :
    {A : Type 0} (left : A → ℕ) (n m : ℕ) (r : Result ConfigError A)
    → n ≤ m
    → Within left n r
    → Within left m r
Within-le left n m (ok a) h k = omega arith
Within-le left n m (err e) h k = k

as_read-Shrinks :
    (n : ℕ) (r : Option (Bytes × LineSource))
    → ((l : Bytes) (rest : LineSource) → r ≡ some (l, rest) → size rest < n)
    → Shrinks n (as_read r)
as_read-Shrinks n none h = tt
as_read-Shrinks n (some (l, rest)) h = h l rest refl

get_line-Shrinks : (buf : Bool) (src : LineSource) → Shrinks (size src) (get_line buf src)
unfolding get_line
get_line-Shrinks false src =
    as_read-Shrinks (size src) (fgets 255 src) (λ l rest e. fgets_shrinks 254 src l rest e)
get_line-Shrinks true src =
    with_newline-Shrinks (size src) (buf_parse 255 src) (buf_parse-Shrinks 255 src)

abbrev behind {ℓ} : {A : Type ℓ} → A × LineSource → ℕ
behind r = size r.1

read_inline-Within :
    (fuel : ℕ) (buf : Bool) (tag body : Bytes) (src : LineSource)
    → size src < fuel
    → Within behind (size src) (read_inline fuel buf tag body src)
unfolding read_inline
read_inline-Within zero buf tag body src h = elim h [ ]
read_inline-Within (suc fuel) buf tag body src h =
    on_read-Within behind (size src) (size src) src.line (err no_end_tag) _ (get_line buf src)
      (get_line-Shrinks buf src) refl
      (λ l rest less. elim (Bool-cases (has_prefix (trim_c_space l) tag)) [
        | inl e ↦ rw e (omega arith)
        | inr e ↦ rw e (
            Within-le behind (size rest) (size src) (read_inline fuel buf tag (body ++ l) rest)
              (omega arith) (read_inline-Within fuel buf tag (body ++ l) rest (omega arith)))
      ])

abbrev ended : {A : Type 0} → A → ℕ
ended a = 0

strip_dashes-Within :
    (n : ℕ) (r : Result LineError (List Bytes)) → Within ended 0 (strip_dashes n r)
unfolding strip_dashes
strip_dashes-Within n (err e) = refl
strip_dashes-Within n (ok []) = omega arith
strip_dashes-Within n (ok (p ∷ ps)) = omega arith

tokens-Within : (n : ℕ) (l : Bytes) → Within ended 0 (tokens n l)
unfolding tokens
tokens-Within n l = strip_dashes-Within n (parse_line l)

inner_block-Within :
    (fuel n : ℕ) (tag : Option Bytes) (name : Bytes) (args : List Bytes) (src : LineSource)
    → size src < fuel
    → Within behind (size src) (inner_block fuel n tag name args src)
unfolding inner_block
inner_block-Within fuel n none name args src h = omega arith
inner_block-Within fuel n (some tag) name args src h =
    bind-Within behind behind (size src) (size src)
      (read_inline fuel true (close_tag_of tag) [] src) _
      (read_inline-Within fuel true (close_tag_of tag) [] src h)
      (λ r less. elim (Bool-cases (equal tag (codes "connection"))) [
        | inl e ↦ rw e refl
        | inr e ↦ rw e less
      ])

inner_directives-Within :
    (fuel n : ℕ) (src : LineSource) (ts : List Bytes)
    → size src < fuel
    → Within behind (size src) (inner_directives fuel n src ts)
unfolding inner_directives
inner_directives-Within fuel n src [] h = omega arith
inner_directives-Within fuel n src (name ∷ args) h =
    inner_block-Within fuel n (inline_tag (name ∷ args)) name args src h

parse_connection-Within :
    (fuel : ℕ) (out : List Directive) (src : LineSource)
    → size src < fuel
    → Within ended 0 (parse_connection fuel out src)
unfolding parse_connection
parse_connection-Within zero out src h = elim h [ ]
parse_connection-Within (suc fuel) out src h =
    on_read-Within ended 0 (size src) src.line (ok out) _ (buf_parse 255 src)
      (buf_parse-Shrinks 255 src) (omega arith)
      (λ l rest less.
        bind-Within ended ended 0 0 (tokens src.line l) _ (tokens-Within src.line l) (λ ts _.
          bind-Within behind ended (size rest) 0 (inner_directives (suc fuel) src.line rest ts) _
            (inner_directives-Within (suc fuel) src.line rest ts (omega arith))
            (λ r left. parse_connection-Within fuel (out ++ r.0) r.1 (omega arith))))

children_of-Within : (tag : Bytes) (n : ℕ) (body : Bytes) → Within ended 0 (children_of tag n body)
unfolding children_of
children_of-Within tag n body = elim (Bool-cases (equal tag (codes "connection"))) [
  | inl e ↦ rw e (
      parse_connection-Within (suc (length body)) [] (record { rest = body; line = n })
        (omega arith))
  | inr e ↦ rw e (omega arith)
]

top_block-Within :
    (fuel n : ℕ) (tag : Option Bytes) (name : Bytes) (args : List Bytes) (src : LineSource)
    → size src < fuel
    → Within behind (size src) (top_block fuel n tag name args src)
unfolding top_block
top_block-Within fuel n none name args src h = omega arith
top_block-Within fuel n (some tag) name args src h =
    bind-Within behind behind (size src) (size src)
      (read_inline fuel false (close_tag_of tag) [] src) _
      (read_inline-Within fuel false (close_tag_of tag) [] src h)
      (λ r less.
        bind-Within ended behind 0 (size src) (children_of tag src.line r.0) _
          (children_of-Within tag src.line r.0) (λ children _. less))

top_directives-Within :
    (fuel n : ℕ) (src : LineSource) (ts : List Bytes)
    → size src < fuel
    → Within behind (size src) (top_directives fuel n src ts)
unfolding top_directives
top_directives-Within fuel n src [] h = omega arith
top_directives-Within fuel n src (name ∷ args) h =
    top_block-Within fuel n (inline_tag (name ∷ args)) name args src h

check_length-Within : (n : ℕ) (l : Bytes) → Within ended 0 (check_length n l)
unfolding check_length
check_length-Within n l = elim (Bool-cases (length l == option_line_size)) [
  | inl e ↦ rw e refl
  | inr e ↦ rw e (omega arith)
]

config_loop-Within :
    (fuel : ℕ) (first : Bool) (out : List TopDirective) (src : LineSource)
    → size src < fuel
    → Within ended 0 (config_loop fuel first out src)
unfolding config_loop
config_loop-Within zero first out src h = elim h [ ]
config_loop-Within (suc fuel) first out src h =
    on_line-Within ended 0 (ok out) _ (fgets option_line_size src) (omega arith) (λ l rest e.
      let less = fgets_shrinks 255 src l rest e in
      bind-Within ended ended 0 0 (check_length src.line l) _ (check_length-Within src.line l)
        (λ l' _.
          bind-Within ended ended 0 0 (tokens src.line (drop_bom first l')) _
            (tokens-Within src.line (drop_bom first l'))
            (λ ts _.
              bind-Within behind ended (size rest) 0 (top_directives (suc fuel) src.line rest ts) _
                (top_directives-Within (suc fuel) src.line rest ts (omega arith))
                (λ r left. config_loop-Within fuel false (out ++ r.0) r.1 (omega arith)))))

Within-fuel :
    {A : Type 0} (left : A → ℕ) (n : ℕ) (r : Result ConfigError A)
    → Within left n r
    → r ≢ err out_of_fuel
Within-fuel left n (ok a) h e = cc
Within-fuel left n (err x) h e = ground arith

-- Reading a profile ends, with its directives or an error of the profile: a loop bounded by the
-- length of the text never runs out of rounds.
pub parse_config_total : (s : Bytes) → parse_config s ≢ err out_of_fuel
unfolding parse_config
parse_config_total s = elim (Bool-cases (has_byte 0 s)) [
  | inl e ↦ rw e (λ h. cc)
  | inr e ↦ rw e (λ h.
      Within-fuel ended 0 (config_loop (suc (length s)) true [] (record { rest = s; line = 1 }))
        (config_loop-Within (suc (length s)) true [] (record { rest = s; line = 1 }) (omega arith))
        h)
]

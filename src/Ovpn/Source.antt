-- ===== src/Ovpn/Source.antt =====
-- The readers of internal/ovpn/parse.go: lineSource, readInline, parseConfig and parseConnection. A
-- source is the text that is left and the number of its first line. The body of a <connection> block
-- stands for the range of the file that it was read from.
pub mod Terminates
use wireguide.Base.{
  ℕ, zero, suc, ◌+◌, Bool, true, false, not, ◌&&◌, ◌||◌, List, [], ◌∷◌, ◌++◌, Option, none, some,
  if◌then◌else◌, ◌==◌, ltb, leb, length,
}
use wireguide.Base.Bytes.{Bytes, codes, equal, has_prefix}
use wireguide.Base.Result.{Result, ok, err, ◌>>=◌}
use wireguide.Base.Text.{has_byte}
use wireguide.Ovpn.Line.{LineError, option_line_size, c_is_space, parse_line, bypass_double_dash}

pub data ConfigError : Type 0 where
  nul_byte no_end_tag out_of_fuel : ConfigError
  too_long inner_too_long nested_connection : ℕ → ConfigError
  bad_line : ℕ → LineError → ConfigError

-- `directive` without its children
pub record Directive : Type 0 where
  pub name : Bytes
  pub args : List Bytes
  pub line : ℕ
  pub inline : Bool
  pub body : Bytes

-- A directive at the top level, with those of a <connection> block.
pub record TopDirective : Type 0 where
  pub directive : Directive
  pub children : List Directive

pub record LineSource : Type 0 where
  pub rest : Bytes
  pub line : ℕ

-- bytes.Count(…, "\n")
unfoldable pub count_lines : Bytes → ℕ
count_lines [] = 0
count_lines (c ∷ s) = let n = count_lines s in if c == b'\n' then suc n else n

-- up to so many bytes, and no further than a line feed
unfoldable pub fgets_loop : ℕ → Bytes → Bytes × Bytes
fgets_loop zero s = ([], s)
fgets_loop (suc n) [] = ([], [])
fgets_loop (suc n) (c ∷ s) =
    let r = fgets_loop n s in if c == b'\n' then (c ∷ [], s) else (c ∷ r.0, r.1)

-- fgets, with room for `n` bytes before C's terminator
unfoldable pub fgets : ℕ → LineSource → Option (Bytes × LineSource)
unfolding fgets_loop count_lines
fgets n src = elim src.rest [
  | [] ↦ none
  | c ∷ s ↦
      let r = fgets_loop n (c ∷ s) in
      some (r.0, record { rest = r.1; line = src.line + count_lines r.0 })
]

-- How bufParse ends a line.
pub data LineEnd : Type 0 where
  newline at_end truncated : LineEnd

unfoldable pub buf_loop : ℕ → Bytes → Bytes × Bytes × LineEnd
buf_loop n [] = ([], [], at_end)
buf_loop zero (c ∷ s) = if c == b'\n' then ([], s, newline) else ([], c ∷ s, truncated)
buf_loop (suc n) (c ∷ s) =
    let r = buf_loop n s in if c == b'\n' then ([], s, newline) else (c ∷ r.0, r.1, r.2)

-- What a read gives: nothing, or a line, whether it was cut, and what is left.
pub data Read : Type 0 where
  eof : Read
  line : Bytes → Bool → LineSource → Read

abbrev buf_read : ℕ → Bytes → Bytes → LineEnd → Read
buf_read n l rest newline = line l false (record { rest = rest; line = suc n })
buf_read n [] rest at_end = eof
buf_read n (c ∷ l) rest at_end = line (c ∷ l) false (record { rest = rest; line = n })
buf_read n l rest truncated = line l true (record { rest = rest; line = n })

-- bufParse
unfoldable pub buf_parse : ℕ → LineSource → Read
unfolding buf_loop
buf_parse size src = let r = buf_loop size src.rest in buf_read src.line r.0 r.1 r.2

abbrev with_newline : Read → Read
with_newline eof = eof
with_newline (line l cut src) =
    line (if ltb (length l + 1) option_line_size then l ++ b'\n' ∷ [] else l) cut src

abbrev pub as_read : Option (Bytes × LineSource) → Read
as_read none = eof
as_read (some (l, rest)) = line l false rest

-- get, where `buf` says whether the source is a block
unfoldable pub get_line : Bool → LineSource → Read
unfolding fgets buf_parse
get_line false src = as_read (fgets 255 src)
get_line true src = with_newline (buf_parse 255 src)

-- strings.TrimLeft(line, " \t\n\v\f\r")
unfoldable pub trim_c_space : Bytes → Bytes
trim_c_space [] = []
trim_c_space (c ∷ s) = let rest = trim_c_space s in if c_is_space c then rest else c ∷ s

-- The cases of a read: the end, a line that was cut, and a line.
unfoldable pub on_read :
    {A : Type 0}
    → Read
    → Result ConfigError A
    → ℕ
    → (Bytes → LineSource → Result ConfigError A)
    → Result ConfigError A
on_read eof ended n rest = ended
on_read (line l true src) ended n rest = err (inner_too_long n)
on_read (line l false src) ended n rest = rest l src

-- readInline, with fuel for its lines
unfoldable pub read_inline :
    ℕ → Bool → Bytes → Bytes → LineSource → Result ConfigError (Bytes × LineSource)
unfolding get_line trim_c_space has_prefix on_read
read_inline zero buf close_tag body src = err out_of_fuel
read_inline (suc fuel) buf close_tag body src =
    on_read (get_line buf src) (err no_end_tag) src.line (λ l rest.
      let more = read_inline fuel buf close_tag (body ++ l) rest in
      if has_prefix (trim_c_space l) close_tag then ok (body, rest) else more)

abbrev last_byte : ℕ → Bytes → ℕ
last_byte c [] = c
last_byte c (d ∷ s) = last_byte d s

abbrev without_last : Bytes → Bytes
without_last [] = []
without_last (c ∷ []) = []
without_last (c ∷ d ∷ s) = c ∷ without_last (d ∷ s)

-- inlineTag
unfoldable pub inline_tag : List Bytes → Option Bytes
inline_tag ((a ∷ b ∷ s) ∷ []) =
    if a == b'<' && last_byte b s == b'>' then some (without_last (b ∷ s)) else none
inline_tag _ = none

-- `"</" + tag + ">"`
unfoldable pub close_tag_of : Bytes → Bytes
close_tag_of tag = codes "</" ++ (tag ++ b'>' ∷ [])

abbrev pub plain_directive : ℕ → Bytes → List Bytes → Directive
plain_directive n name args = record {
  name = name;
  args = args;
  line = n;
  inline = false;
  body = [];
}

abbrev pub inline_directive : ℕ → Bytes → Bytes → Directive
inline_directive n tag body = record { name = tag; args = []; line = n; inline = true; body = body }

-- parseLine at a line, and its first token without its dashes
unfoldable pub strip_dashes : ℕ → Result LineError (List Bytes) → Result ConfigError (List Bytes)
unfolding bypass_double_dash
strip_dashes n (err e) = err (bad_line n e)
strip_dashes n (ok []) = ok []
strip_dashes n (ok (p ∷ ps)) = ok (bypass_double_dash p ∷ ps)

unfoldable pub tokens : ℕ → Bytes → Result ConfigError (List Bytes)
unfolding strip_dashes parse_line
tokens n l = strip_dashes n (parse_line l)

-- parseConnection: what the tokens of one line make, and what is behind it
unfoldable pub inner_block :
    ℕ
    → ℕ
    → Option Bytes
    → Bytes
    → List Bytes
    → LineSource
    → Result ConfigError (List Directive × LineSource)
unfolding read_inline close_tag_of equal
inner_block fuel n none name args src = ok (plain_directive n name args ∷ [], src)
inner_block fuel n (some tag) name args src = do
  r ← read_inline fuel true (close_tag_of tag) [] src
  (if equal tag (codes "connection")
      then err (nested_connection n)
      else ok (inline_directive n tag r.0 ∷ [], r.1))

unfoldable pub inner_directives :
    ℕ → ℕ → LineSource → List Bytes → Result ConfigError (List Directive × LineSource)
unfolding inline_tag inner_block
inner_directives fuel n src [] = ok ([], src)
inner_directives fuel n src (name ∷ args) =
    inner_block fuel n (inline_tag (name ∷ args)) name args src

-- parseConnection, with fuel for its lines
unfoldable pub parse_connection :
    ℕ → List Directive → LineSource → Result ConfigError (List Directive)
unfolding buf_parse tokens inner_directives on_read
parse_connection zero out src = err out_of_fuel
parse_connection (suc fuel) out src = on_read (buf_parse 255 src) (ok out) src.line (λ l rest. do
  ts ← tokens src.line l
  r ← inner_directives (suc fuel) src.line rest ts
  parse_connection fuel (out ++ r.0) r.1)

unfoldable pub children_of : Bytes → ℕ → Bytes → Result ConfigError (List Directive)
unfolding equal parse_connection
children_of tag n body =
    if equal tag (codes "connection")
    then parse_connection (suc (length body)) [] (record { rest = body; line = n })
    else ok []

-- parseConfig: what the tokens of one line make, and what is behind it
unfoldable pub top_block :
    ℕ
    → ℕ
    → Option Bytes
    → Bytes
    → List Bytes
    → LineSource
    → Result ConfigError (List TopDirective × LineSource)
unfolding read_inline close_tag_of children_of
top_block fuel n none name args src =
    ok (record { directive = plain_directive n name args; children = [] } ∷ [], src)
top_block fuel n (some tag) name args src = do
  r ← read_inline fuel false (close_tag_of tag) [] src
  children ← children_of tag src.line r.0
  ok (record { directive = inline_directive n tag r.0; children = children } ∷ [], r.1)

unfoldable pub top_directives :
    ℕ → ℕ → LineSource → List Bytes → Result ConfigError (List TopDirective × LineSource)
unfolding inline_tag top_block
top_directives fuel n src [] = ok ([], src)
top_directives fuel n src (name ∷ args) = top_block fuel n (inline_tag (name ∷ args)) name args src

-- the byte order mark of the first line
abbrev pub drop_bom : Bool → Bytes → Bytes
drop_bom true (a ∷ b ∷ c ∷ s) = if a == 0xEF && (b == 0xBB && c == 0xBF) then s else a ∷ b ∷ c ∷ s
drop_bom _ s = s

unfoldable pub on_line :
    {A : Type 0}
    → Option (Bytes × LineSource)
    → Result ConfigError A
    → (Bytes → LineSource → Result ConfigError A)
    → Result ConfigError A
on_line none ended rest = ended
on_line (some (l, src)) ended rest = rest l src

unfoldable pub check_length : ℕ → Bytes → Result ConfigError Bytes
check_length n l = if length l == option_line_size then err (too_long n) else ok l

-- the loop of parseConfig, with fuel for its lines
unfoldable pub config_loop :
    ℕ → Bool → List TopDirective → LineSource → Result ConfigError (List TopDirective)
unfolding fgets tokens top_directives on_line check_length
config_loop zero first out src = err out_of_fuel
config_loop (suc fuel) first out src = on_line (fgets option_line_size src) (ok out) (λ l rest. do
  l' ← check_length src.line l
  ts ← tokens src.line (drop_bom first l')
  r ← top_directives (suc fuel) src.line rest ts
  config_loop fuel false (out ++ r.0) r.1)

-- parseConfig
unfoldable pub parse_config : Bytes → Result ConfigError (List TopDirective)
unfolding has_byte config_loop
parse_config s =
    if has_byte 0 s
    then err nul_byte
    else config_loop (suc (length s)) true [] (record { rest = s; line = 1 })

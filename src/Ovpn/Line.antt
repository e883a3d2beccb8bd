-- ===== src/Ovpn/Line.antt =====
-- parseLine of internal/ovpn/parse.go: the tokens of one line, by the state machine of openvpn.
use wireguide.Base.{
  ℕ, Bool, true, false, not, ◌&&◌, ◌||◌, List, [], ◌∷◌, ◌++◌, if◌then◌else◌, ◌==◌, leb, length,
}
use wireguide.Base.Bytes.{Bytes}
use wireguide.Base.Result.{Result, ok, err}

pub data LexState : Type 0 where
  initial quoted unquoted done single_quoted : LexState

pub data LineError : Type 0 where
  bad_backslash parameter_too_long no_closing_quote no_closing_single_quote residual_state :
      LineError

abbrev pub option_line_size : ℕ
option_line_size = 256

abbrev pub option_parm_size : ℕ
option_parm_size = 256

abbrev pub max_parms : ℕ
max_parms = 16

-- cIsSpace
abbrev pub c_is_space : ℕ → Bool
c_is_space c = c == 32 || (leb 9 c && leb c 13)

-- The variables of the loop; `out` is 0 for no byte.
pub record Lexer : Type 0 where
  pub state : LexState
  pub backslash : Bool
  pub parm : Bytes
  pub ret : List Bytes

-- What the switch on `state` does: leave the loop at a comment, or set `state` and `out`.
pub data Reaction : Type 0 where
  comment : Reaction
  moves : LexState → ℕ → Reaction

unfoldable pub react : LexState → Bool → ℕ → Reaction
react initial backslash c =
    if c == 0 || c_is_space c
    then moves initial 0
    else if c == b';' || c == b'#'
    then comment
    else if not backslash && c == b'"'
    then moves quoted 0
    else if not backslash && c == 39
    then moves single_quoted 0
    else moves unquoted c
react unquoted backslash c =
    if not backslash && (c == 0 || c_is_space c) then moves done 0 else moves unquoted c
react quoted backslash c = if not backslash && c == b'"' then moves done 0 else moves quoted c
react single_quoted backslash c = if c == 39 then moves done 0 else moves single_quoted c
react done backslash c = moves done 0

abbrev pub is_escapable : ℕ → Bool
is_escapable c = c == 92 || (c == b'"' || c_is_space c)

abbrev pub is_single_quoted : LexState → Bool
is_single_quoted single_quoted = true
is_single_quoted _ = false

-- The end of the loop body: what becomes of one byte.
pub data Outcome : Type 0 where
  stops : Outcome
  fails : LineError → Outcome
  next : Lexer → Outcome

-- `if state == stDone { … }`
abbrev pub close_parm : LexState → Lexer → Lexer
close_parm done l = record {
  state = initial;
  backslash = false;
  parm = [];
  ret = l.ret ++ l.parm ∷ [];
}
close_parm s l = record l { state = s; backslash = false }

abbrev pub emit : ℕ → Lexer → Outcome
emit out l =
    if out == 0
    then next l
    else if leb option_parm_size (length l.parm)
    then fails parameter_too_long
    else next (record l { parm = l.parm ++ out ∷ [] })

unfoldable pub after_reaction : Lexer → Reaction → Outcome
after_reaction l comment = stops
after_reaction l (moves s out) =
    if l.backslash && (not (out == 0) && not (is_escapable out))
    then fails bad_backslash
    else emit out (close_parm s l)

-- the loop body up to the two breaks
unfoldable pub lex_step : ℕ → Lexer → Outcome
unfolding react after_reaction
lex_step c l =
    if not l.backslash && (c == 92 && not (is_single_quoted l.state))
    then next (record l { backslash = true })
    else after_reaction l (react l.state l.backslash c)

-- behind the label `end`
unfoldable pub lex_end : LexState → List Bytes → Result LineError (List Bytes)
lex_end quoted ret = err no_closing_quote
lex_end single_quoted ret = err no_closing_single_quote
lex_end initial ret = ok ret
lex_end _ ret = err residual_state

-- The loop; behind the last byte it reads C's terminator.
unfoldable pub lex : Bytes → Lexer → Result LineError (List Bytes)
unfolding lex_step lex_end
lex [] l = elim (lex_step 0 l) [
  | stops ↦ lex_end l.state l.ret
  | fails e ↦ err e
  | next m ↦ lex_end m.state m.ret
]
lex (c ∷ s) l = elim (lex_step c l) [
  | stops ↦ lex_end l.state l.ret
  | fails e ↦ err e
  | next m ↦ if leb max_parms (length m.ret) then lex_end m.state m.ret else lex s m
]

abbrev pub lex_start : Lexer
lex_start = record { state = initial; backslash = false; parm = []; ret = [] }

-- parseLine
unfoldable pub parse_line : Bytes → Result LineError (List Bytes)
unfolding lex
parse_line line = lex line lex_start

-- bypassDoubleDash
unfoldable pub bypass_double_dash : Bytes → Bytes
bypass_double_dash (a ∷ b ∷ c ∷ s) = if a == b'-' && b == b'-' then c ∷ s else a ∷ b ∷ c ∷ s
bypass_double_dash s = s

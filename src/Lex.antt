-- ===== src/Lex.antt =====
-- String literals in the lexer, `read_string` of luajit/lj_lex.c. The input that is left is a list of
-- bytes, its head the current one; at its end the current byte is END_OF_STREAM, which has no class.
pub mod Escapes
pub mod Quoted
pub mod Ends
use qyz_client_lua.Base.{
  ℕ, zero, suc, ◌+◌, ◌-◌, ◌*◌, ◌%◌, Bool, true, false, ◌&&◌, ◌||◌, not, Option, none, some, List,
  [], ◌∷◌, ◌++◌, leb, ◌==◌, if◌then◌else◌, length, take, drop,
}
use qyz_client_lua.Char.{has_class, is_digit, is_xdigit, is_space}

pub data LexError : Type 0 where
  -- LJ_ERR_XSTR, LJ_ERR_XESC, LJ_ERR_XLINES
  unfinished_string invalid_escape too_many_lines : LexError

pub data Lexed {ℓ} (A : Type ℓ) : Type ℓ where
  lexed : A → Lexed A
  lex_error : LexError → Lexed A
  no_rounds : Lexed A

module _ {A B : Type 0} where
  infixl 5 ◌>>=◌
  abbrev pub ◌>>=◌ : Lexed A → (A → Lexed B) → Lexed B
  lexed a >>= k = k a
  lex_error e >>= k = lex_error e
  no_rounds >>= k = no_rounds

pub record LexState : Type 0 where
  pub input : List ℕ
  pub sb : List ℕ
  pub linenumber : ℕ

abbrev pub current : List ℕ → ℕ
current [] = 0
current (c ∷ cs) = c

abbrev pub lj_max_line : ℕ
lj_max_line = 0x7fffff00

-- `save(ls, c)`, with `rest` to follow.
unfoldable pub save : LexState → ℕ → List ℕ → LexState
save ls c rest = record ls { input = rest; sb = ls.sb ++ c ∷ [] }

unfoldable pub is_newline : ℕ → Bool
is_newline c = c == b'\n' || c == b'\r'

-- `inclinenumber`, where the current byte is the newline `old`, and `rest` follows.
unfoldable pub inclinenumber : LexState → ℕ → List ℕ → Lexed LexState
inclinenumber ls old rest =
    let skipped : List ℕ =
      if is_newline (current rest) && not (current rest == old) then drop 1 rest else rest in
    if leb lj_max_line (ls.linenumber + 1)
    then lex_error too_many_lines
    else lexed (record ls { input = skipped; linenumber = ls.linenumber + 1 })

-- The escape `\xXX`, behind the `x`.
unfoldable pub hex_escape : LexState → List ℕ → Lexed LexState
hex_escape ls [] = lex_error invalid_escape
hex_escape ls (d ∷ []) = lex_error invalid_escape
hex_escape ls (d ∷ e ∷ rest) =
    let high : ℕ = d % 16 * 16 + (if has_class d is_digit then 0 else 144) in
    let low : ℕ = e % 16 + (if has_class e is_digit then 0 else 9) in
    if has_class d is_xdigit && has_class e is_xdigit
    then lexed (save ls (high + low) rest)
    else lex_error invalid_escape

-- The loop behind `\z`.
unfoldable pub skip_space : ℕ → LexState → Lexed LexState
skip_space zero ls = no_rounds
skip_space (suc rounds) ls = elim ls.input [
  | [] ↦ lexed ls
  | c ∷ rest ↦
      let again = skip_space rounds (record ls { input = rest }) in
      let again_line = inclinenumber ls c rest >>= λ ls'. skip_space rounds ls' in
      if not (has_class c is_space) then lexed ls else if is_newline c then again_line else again
]

-- The escape `\ddd`, from the second digit on, where `c` is the value of the first.
unfoldable pub decimal_escape : LexState → ℕ → List ℕ → Lexed LexState
decimal_escape ls c rest =
    let c2 : ℕ = c * 10 + (current rest - b'0') in
    let c3 : ℕ = c2 * 10 + (current (drop 1 rest) - b'0') in
    if not (has_class (current rest) is_digit)
    then lexed (save ls c rest)
    else if not (has_class (current (drop 1 rest)) is_digit)
    then lexed (save ls c2 (drop 1 rest))
    else if leb 256 c3
    then lex_error invalid_escape
    else lexed (save ls c3 (drop 2 rest))

-- The byte that a letter or a mark stands for behind a backslash.
unfoldable pub simple_escape : ℕ → Option ℕ
simple_escape c =
    if c == b'a'
    then some 7
    else if c == b'b'
    then some 8
    else if c == b'f'
    then some 12
    else if c == b'n'
    then some 10
    else if c == b'r'
    then some 13
    else if c == b't'
    then some 9
    else if c == b'v'
    then some 11
    else if c == b'\\' || c == b'"' || c == 39
    then some c
    else none

abbrev pub save_or : LexState → List ℕ → Lexed LexState → Option ℕ → Lexed LexState
save_or ls rest other none = other
save_or ls rest other (some c) = lexed (save ls c rest)

-- What follows a backslash.
unfoldable pub escape : LexState → List ℕ → Lexed LexState
escape ls [] = lexed (record ls { input = [] })
escape ls (c ∷ rest) =
    let other =
      if c == b'x'
      then hex_escape ls rest
      else if c == b'z'
      then skip_space (suc (length rest)) (record ls { input = rest })
      else if is_newline c
      then inclinenumber (save ls b'\n' rest) c rest
      else if has_class c is_digit
      then decimal_escape ls (c - b'0') rest
      else lex_error invalid_escape in
    save_or ls rest other (simple_escape c)

-- The loop; it ends in front of the delimiter.
unfoldable pub read_loop : ℕ → ℕ → LexState → Lexed LexState
read_loop zero delim ls = no_rounds
read_loop (suc rounds) delim ls = elim ls.input [
  | [] ↦ lex_error unfinished_string
  | c ∷ rest ↦
      let plain = read_loop rounds delim (save ls c rest) in
      let escaped = escape ls rest >>= λ ls'. read_loop rounds delim ls' in
      if c == delim
      then lexed ls
      else if is_newline c
      then lex_error unfinished_string
      else if c == b'\\'
      then escaped
      else plain
]

-- The string, and the state behind the literal.
unfoldable pub read_string : ℕ → LexState → Lexed (List ℕ × LexState)
read_string delim ls =
    let rest = drop 1 ls.input in
    read_loop (suc (length rest)) delim (save ls (current ls.input) rest) >>= λ ls'.
    let done = save ls' (current ls'.input) (drop 1 ls'.input) in
    lexed (take (length done.sb - 2) (drop 1 done.sb), done)

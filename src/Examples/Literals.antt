-- ===== src/Examples/Literals.antt =====
-- String literals, luajit/lj_lex.c and the format `%q` of luajit/lib_string.c, on concrete inputs.
use qyz_client_lua.Base.{ℕ, ◌+◌, ◌≤◌, ◌≡◌, refl, List, [], ◌∷◌, ◌++◌, length, arith}
use qyz_client_lua.Char.{has_class, lj_char_isa, lj_char_bits}
use qyz_client_lua.Lex.{
  lexed, lex_error, invalid_escape, read_string, read_loop, escape, save, is_newline, inclinenumber,
  decimal_escape, hex_escape, simple_escape, skip_space,
}
use qyz_client_lua.Lex.Escapes.{state}
use qyz_client_lua.Lex.Quoted.{newlines, read_string-addquoted}
use qyz_client_lua.Lex.Ends.{Ends, read_string-Ends}
use qyz_client_lua.Quote.{addquoted, quoted_bytes, control_digits, tens}

-- A quote, a newline, a zero byte in front of a digit, DEL and a tab.
abbrev odd_bytes : List ℕ
odd_bytes = b'"' ∷ b'\n' ∷ 0 ∷ b'1' ∷ 127 ∷ 9 ∷ []

read_string-addquoted_example :
    read_string b'"' (state (addquoted odd_bytes ++ b';' ∷ []) [] 1)
    ≡ lexed
        (odd_bytes, state (b';' ∷ []) (b'"' ∷ (odd_bytes ++ b'"' ∷ [])) (1 + newlines odd_bytes))
unfolding newlines
read_string-addquoted_example =
    read_string-addquoted odd_bytes (b';' ∷ []) 1
      (omega arith, (omega arith, (omega arith, (omega arith, (omega arith, (omega arith, tt))))))
      (omega arith)

quoted_test :
    addquoted odd_bytes
    ≡ b'"' ∷ b'\\' ∷ b'"' ∷ b'\\' ∷ b'\n' ∷ b'\\' ∷ b'0' ∷ b'0' ∷ b'0' ∷ b'1' ∷ b'\\' ∷ b'1' ∷ b'2'
      ∷ b'7' ∷ b'\\' ∷ b'9' ∷ b'"' ∷ []
unfolding addquoted quoted_bytes control_digits tens has_class lj_char_isa lj_char_bits
quoted_test = refl

-- `'\x4A\z  b\300'`
abbrev escapes : List ℕ
escapes =
    b'\\' ∷ b'x' ∷ b'4' ∷ b'A' ∷ b'\\' ∷ b'z' ∷ b' ' ∷ b' ' ∷ b'b' ∷ b'\\' ∷ b'3' ∷ b'0' ∷ b'0' ∷ 39
    ∷ []

too_large : read_string 39 (state (39 ∷ escapes) [] 1) ≡ lex_error invalid_escape
unfolding read_string read_loop escape save is_newline inclinenumber decimal_escape hex_escape
    simple_escape skip_space has_class lj_char_isa lj_char_bits
too_large = refl

read_string-Ends_example :
    Ends
      (λ (s, ls). length ls.input + 2 ≤ length (39 ∷ escapes))
      (read_string 39 (state (39 ∷ escapes) [] 1))
read_string-Ends_example = read_string-Ends 39 escapes [] 1

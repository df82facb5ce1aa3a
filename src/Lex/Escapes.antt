-- ===== src/Lex/Escapes.antt =====
-- The escapes that `%q` writes, as the lexer reads them.
use qyz_client_lua.Base.{
  ℕ, ◌+◌, ◌-◌, ◌*◌, ◌/◌, ◌<◌, ◌≡◌, refl, sym, ap, ◌∙◌, inl, inr, true, false, ◌||◌, none, some,
  List, [], ◌∷◌, ◌++◌, leb, ◌==◌, arith, Bool-cases,
}
use qyz_client_lua.Char.{has_class, is_digit, is_cntrl}
use qyz_client_lua.Char.Ascii.{ascii_classes, in_range}
use qyz_client_lua.Lex.{
  lexed, LexState, current, lj_max_line, save, is_newline, inclinenumber, decimal_escape,
  simple_escape, escape,
}
use qyz_client_lua.Quote.{tens, control_digits}

digit_of : (d : ℕ) → d < 10 → has_class (d + b'0') is_digit ≡ true
digit_of d h = rw ((ascii_classes (d + b'0') (omega arith)).digit) (ground arith)

tens_tenth : (c : ℕ) → c < 100 → c * 205 / 2048 ≡ c / 10
tens_tenth c h = omega arith

simple_escape_digit : (d : ℕ) → d < 10 → simple_escape (d + b'0') ≡ none
unfolding simple_escape
simple_escape_digit d h = ground arith

newline_digit : (d : ℕ) → d < 10 → is_newline (d + b'0') ≡ false
unfolding is_newline
newline_digit d h = ground arith

-- A digit behind the backslash begins a decimal escape.
escape_digit :
    (ls : LexState) (d : ℕ) (rest : List ℕ)
    → d < 10
    → escape ls ((d + b'0') ∷ rest) ≡ decimal_escape ls d rest
unfolding escape
escape_digit ls d rest h =
    let back : d + b'0' - b'0' ≡ d = omega arith in
    let x : (d + b'0' == b'x') ≡ false = ground arith in
    let z : (d + b'0' == b'z') ≡ false = ground arith in
    rw (simple_escape_digit d h, x, z, newline_digit d h, digit_of d h, back) refl

decimal_one :
    (ls : LexState) (d : ℕ) (rest : List ℕ)
    → has_class (current rest) is_digit ≡ false
    → decimal_escape ls d rest ≡ lexed (save ls d rest)
unfolding decimal_escape
decimal_one ls d rest h = rw h refl

decimal_two :
    (ls : LexState) (d u : ℕ) (rest : List ℕ)
    → u < 10
    → has_class (current rest) is_digit ≡ false
    → decimal_escape ls d ((u + b'0') ∷ rest) ≡ lexed (save ls (d * 10 + u) rest)
unfolding decimal_escape
decimal_two ls d u rest l h =
    let back : u + b'0' - b'0' ≡ u = omega arith in rw (digit_of u l, h, back) refl

decimal_three :
    (ls : LexState) (h d u : ℕ) (rest : List ℕ)
    → d < 10
    → u < 10
    → (h * 10 + d) * 10 + u < 256
    → decimal_escape ls h ((d + b'0') ∷ (u + b'0') ∷ rest)
      ≡ lexed (save ls ((h * 10 + d) * 10 + u) rest)
unfolding decimal_escape
decimal_three ls h d u rest l m n =
    let back : d + b'0' - b'0' ≡ d = omega arith in
    let back' : u + b'0' - b'0' ≡ u = omega arith in
    let small : leb 256 ((h * 10 + d) * 10 + u) ≡ false = ground arith in
    rw (digit_of d l, digit_of u m, back, back', small) refl

-- The byte that follows in the string.
abbrev pub next_of : List ℕ → ℕ
next_of [] = 0
next_of (d ∷ s) = d

-- A control character is read back, where a digit is not taken for one of its digits.
pub escape_control :
    (ls : LexState) (c next : ℕ) (rest : List ℕ)
    → c < 256
    → has_class c is_cntrl ≡ true
    → has_class (current rest) is_digit ≡ has_class next is_digit
    → escape ls (control_digits c next ++ rest) ≡ lexed (save ls c rest)
unfolding control_digits tens
escape_control ls c next rest h k e =
    let range : (leb c 31 || c == 127) ≡ true = sym ((ascii_classes c h).cntrl) ∙ k in
    elim (Bool-cases (leb 100 c)) [
      | inl three ↦
          let del : c ≡ 127 = ground arith in
          let whole : (1 * 10 + (c - 100) * 205 / 2048) * 10
                + (c - 100 - (c - 100) * 205 / 2048 * 10)
              ≡ c =
            omega arith in
          rw three (
            escape_digit ls 1 _ (omega arith)
            ∙ decimal_three ls 1 _ _ rest (omega arith) (omega arith) (omega arith)
            ∙ ap (λ (x : ℕ). lexed (save ls x rest)) whole)
      | inr less ↦
          let low : c < 32 = ground arith in
          let tenth = tens_tenth c (omega arith) in
          elim (Bool-cases (has_class next is_digit)) [
            | inl digit ↦
                let whole : (0 * 10 + c * 205 / 2048) * 10 + (c - c * 205 / 2048 * 10) ≡ c =
                  omega arith in
                rw (less, digit)
                  (escape_digit ls 0 _ (omega arith)
                    ∙ decimal_three ls 0 _ _ rest (omega arith) (omega arith) (omega arith)
                    ∙ ap (λ (x : ℕ). lexed (save ls x rest)) whole)
            | inr no_digit ↦ elim (Bool-cases (leb 10 c)) [
              | inl two ↦
                  let whole : c * 205 / 2048 * 10 + (c - c * 205 / 2048 * 10) ≡ c = omega arith in
                  rw (less, no_digit, two)
                    (escape_digit ls _ _ (omega arith)
                      ∙ decimal_two ls _ _ rest (omega arith) (e ∙ no_digit)
                      ∙ ap (λ (x : ℕ). lexed (save ls x rest)) whole)
              | inr one ↦
                  rw (less, no_digit, one)
                    (escape_digit ls c rest (ground arith) ∙ decimal_one ls c rest (e ∙ no_digit))
            ]
          ]
    ]

pub no_digit_of : (c : ℕ) → c < 256 → in_range b'0' b'9' c ≡ false → has_class c is_digit ≡ false
no_digit_of c h e = (ascii_classes c h).digit ∙ e

abbrev pub state : List ℕ → List ℕ → ℕ → LexState
state input sb line = record { input = input; sb = sb; linenumber = line }

simple_escape_mark : (c : ℕ) → (c == b'"' || c == b'\\') ≡ true → simple_escape c ≡ some c
unfolding simple_escape
simple_escape_mark c h = elim (Bool-cases (c == b'"')) [
  | inl quote ↦ let e : c ≡ b'"' = ground arith in rw e refl
  | inr other ↦ let e : c ≡ b'\\' = ground arith in rw e refl
]

pub escape_mark :
    (ls : LexState) (c : ℕ) (rest : List ℕ)
    → (c == b'"' || c == b'\\') ≡ true
    → escape ls (c ∷ rest) ≡ lexed (save ls c rest)
unfolding escape
escape_mark ls c rest h = rw (simple_escape_mark c h) refl

simple_escape_newline : simple_escape b'\n' ≡ none
unfolding simple_escape
simple_escape_newline = refl

is_newline_newline : is_newline b'\n' ≡ true
unfolding is_newline
is_newline_newline = refl

pub escape_newline :
    (input rest sb : List ℕ) (line : ℕ)
    → is_newline (current rest) ≡ false
    → line + 1 < lj_max_line
    → escape (state input sb line) (b'\n' ∷ rest) ≡ lexed (state rest (sb ++ b'\n' ∷ []) (line + 1))
unfolding escape inclinenumber save
escape_newline input rest sb line h l =
    let few : leb lj_max_line (line + 1) ≡ false = ground arith in
    rw (simple_escape_newline, is_newline_newline, h, few) refl

-- ===== src/Lex/Quoted.antt =====
-- What `%q` writes, read by the lexer.
use qyz_client_lua.Base.{
  ℕ, zero, suc, ◌+◌, ◌-◌, ◌<◌, ◌≤◌, ◌≡◌, refl, sym, ap, ◌∙◌, inl, inr, true, false, ◌||◌, List, [],
  ◌∷◌, ◌++◌, append_assoc, append-nil, leb, ◌==◌, if◌then◌else◌, length, length-append, take-append,
  All, arith, Bool-cases,
}
use qyz_client_lua.Char.{has_class, is_digit, is_cntrl}
use qyz_client_lua.Char.Ascii.{ascii_classes}
use qyz_client_lua.Lex.{
  lexed, LexState, current, lj_max_line, save, is_newline, escape, read_loop, read_string,
}
use qyz_client_lua.Lex.Escapes.{
  escape_control, no_digit_of, escape_mark, escape_newline, next_of, state,
}
use qyz_client_lua.Quote.{control_digits, quoted_bytes, addquoted}

-- The head of what is left is no newline, and a digit just where the string goes on with one.
quoted-current :
    (s tail : List ℕ)
    → All (λ c. c < 256) s
    → (is_newline (current (quoted_bytes s ++ b'"' ∷ tail)) ≡ false)
      × (has_class (current (quoted_bytes s ++ b'"' ∷ tail)) is_digit
          ≡ has_class (next_of s) is_digit)
unfolding quoted_bytes is_newline
quoted-current [] tail h =
    (refl, no_digit_of 34 (omega arith) refl ∙ sym (no_digit_of 0 (omega arith) refl))
quoted-current (c ∷ s) tail (h, hs) =
    let mark : has_class 92 is_digit ≡ false = no_digit_of 92 (omega arith) refl in
    elim (Bool-cases (c == b'"' || c == b'\\' || c == b'\n')) [
      | inl special ↦ rw special (refl, mark ∙ sym (no_digit_of c h (ground arith)))
      | inr other ↦ elim (Bool-cases (has_class c is_cntrl)) [
        | inl control ↦
            let range : (leb c 31 || c == 127) ≡ true = sym ((ascii_classes c h).cntrl) ∙ control in
            rw (other, control) (refl, mark ∙ sym (no_digit_of c h (ground arith)))
        | inr plain ↦
            let range : (leb c 31 || c == 127) ≡ false = sym ((ascii_classes c h).cntrl) ∙ plain in
            rw (other, plain) (ground arith, refl)
      ]
    ]

not_newline : (c : ℕ) → leb 14 c ≡ true → is_newline c ≡ false
unfolding is_newline
not_newline c h = ground arith

unfoldable pub newlines : List ℕ → ℕ
newlines [] = 0
newlines (c ∷ s) = (if c == b'\n' then 1 else 0) + newlines s

-- One round that takes an escape.
read_escape :
    (n : ℕ) (rest sb : List ℕ) (line : ℕ) (ls : LexState)
    → escape (state (b'\\' ∷ rest) sb line) rest ≡ lexed ls
    → read_loop (suc n) b'"' (state (b'\\' ∷ rest) sb line) ≡ read_loop n b'"' ls
unfolding read_loop is_newline
read_escape n rest sb line ls e = rw e refl

-- One round that takes a byte as it is.
read_plain :
    (n c : ℕ) (rest sb : List ℕ) (line : ℕ)
    → (c == b'"') ≡ false
    → (c == b'\\') ≡ false
    → is_newline c ≡ false
    → read_loop (suc n) b'"' (state (c ∷ rest) sb line)
      ≡ read_loop n b'"' (state rest (sb ++ c ∷ []) line)
unfolding read_loop save
read_plain n c rest sb line q b l = rw (q, b, l) refl

abbrev newline_count : ℕ → ℕ
newline_count c = if c == b'\n' then 1 else 0

-- A byte takes one round.
read_byte :
    (n c : ℕ) (s tail sb : List ℕ) (line : ℕ)
    → c < 256
    → All (λ c. c < 256) s
    → line + newline_count c < lj_max_line
    → read_loop (suc n) b'"' (state (quoted_bytes (c ∷ s) ++ b'"' ∷ tail) sb line)
      ≡ read_loop n b'"'
          (state (quoted_bytes s ++ b'"' ∷ tail) (sb ++ c ∷ []) (line + newline_count c))
unfolding quoted_bytes save
read_byte n c s tail sb line h hs m =
    let rest = quoted_bytes s ++ b'"' ∷ tail in
    let (no_newline, digit) = quoted-current s tail hs in
    elim (Bool-cases (c == b'"' || c == b'\\')) [
      | inl marked ↦
          let special : (c == b'"' || c == b'\\' || c == b'\n') ≡ true = ground arith in
          let none_here : newline_count c ≡ 0 = ground arith in
          let same : line + 0 ≡ line = omega arith in
          rw (special, none_here, same)
            (read_escape n (c ∷ rest) sb line _ (escape_mark _ c rest marked))
      | inr unmarked ↦ elim (Bool-cases (c == b'\n')) [
        | inl newline ↦
            let e : c ≡ b'\n' = ground arith in
            let l : line + 1 < lj_max_line = rw newline at m in
            rw e (
              read_escape n (b'\n' ∷ rest) sb line _
                (escape_newline (b'\\' ∷ b'\n' ∷ rest) rest sb line no_newline l))
        | inr other ↦
            let common : (c == b'"' || c == b'\\' || c == b'\n') ≡ false = ground arith in
            let same : line + 0 ≡ line = omega arith in
            elim (Bool-cases (has_class c is_cntrl)) [
              | inl control ↦
                  rw (common, control, other, same)
                    (ap (λ l. read_loop (suc n) b'"' (state (b'\\' ∷ l) sb line))
                        (append_assoc (control_digits c (next_of s)) (quoted_bytes s) (b'"' ∷ tail))
                      ∙ read_escape n _ sb line _
                          (escape_control _ c (next_of s) rest h control digit))
              | inr plain ↦
                  let range : (leb c 31 || c == 127) ≡ false =
                    sym ((ascii_classes c h).cntrl) ∙ plain in
                  rw (common, plain, other, same)
                    (read_plain n c rest sb line (ground arith) (ground arith)
                      (not_newline c (ground arith)))
            ]
      ]
    ]

-- The loop reads back the quoted bytes up to the quote, a round for each byte.
read_loop-quoted_bytes :
    (n : ℕ) (s tail sb : List ℕ) (line : ℕ)
    → All (λ c. c < 256) s
    → length s < n
    → line + newlines s < lj_max_line
    → read_loop n b'"' (state (quoted_bytes s ++ b'"' ∷ tail) sb line)
      ≡ lexed (state (b'"' ∷ tail) (sb ++ s) (line + newlines s))
unfolding newlines quoted_bytes read_loop
read_loop-quoted_bytes zero s tail sb line h l m = absurd (omega arith)
read_loop-quoted_bytes (suc n) [] tail sb line h l m =
    let same : line + 0 ≡ line = omega arith in rw (append-nil sb, same) refl
read_loop-quoted_bytes (suc n) (c ∷ s) tail sb line (h, hs) l m =
    let sum : line + newline_count c + newlines s ≡ line + (newline_count c + newlines s) =
      omega arith in
    read_byte n c s tail sb line h hs (omega arith)
    ∙ read_loop-quoted_bytes n s tail (sb ++ c ∷ []) (line + newline_count c) hs (omega arith)
        (omega arith)
    ∙ rw (sum, append_assoc sb (c ∷ []) s) refl

quoted_bytes-length : (s : List ℕ) → length s ≤ length (quoted_bytes s)
unfolding quoted_bytes
quoted_bytes-length [] = omega arith
quoted_bytes-length (c ∷ s) =
    let shorter = quoted_bytes-length s in
    elim (Bool-cases (c == b'"' || c == b'\\' || c == b'\n')) [
      | inl special ↦ rw special (omega arith)
      | inr other ↦ elim (Bool-cases (has_class c is_cntrl)) [
        | inl control ↦
            rw (other, control, length-append (control_digits c (next_of s)) (quoted_bytes s))
              (omega arith)
        | inr plain ↦ rw (other, plain) (omega arith)
      ]
    ]

-- What `%q` writes for a string of bytes is read back by the lexer as this string, up to its closing
-- quote, in a source that stays below LJ_MAX_LINE lines; the lexer counts its newlines.
pub read_string-addquoted :
    (s tail : List ℕ) (line : ℕ)
    → All (λ c. c < 256) s
    → line + newlines s < lj_max_line
    → read_string b'"' (state (addquoted s ++ tail) [] line)
      ≡ lexed (s, state tail (b'"' ∷ (s ++ b'"' ∷ [])) (line + newlines s))
unfolding read_string addquoted save
read_string-addquoted s tail line h l =
    let input : (quoted_bytes s ++ b'"' ∷ []) ++ tail ≡ quoted_bytes s ++ b'"' ∷ tail =
      append_assoc (quoted_bytes s) (b'"' ∷ []) tail in
    let rounds : length s < suc (length (quoted_bytes s ++ b'"' ∷ tail)) =
      rw (length-append (quoted_bytes s) (b'"' ∷ tail)) (omega (arith, quoted_bytes-length s)) in
    let total : suc (length (s ++ b'"' ∷ [])) - 2 ≡ length s =
      rw (length-append s (b'"' ∷ [])) (omega arith) in
    rw
      (
        input,
        read_loop-quoted_bytes (suc (length (quoted_bytes s ++ b'"' ∷ tail))) s tail (b'"' ∷ [])
            line h rounds l,
        total,
        take-append s (b'"' ∷ []),
      )
      refl

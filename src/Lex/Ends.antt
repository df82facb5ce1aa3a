-- ===== src/Lex/Ends.antt =====
-- The ways in which reading a string literal ends.
use qyz_client_lua.Base.{
  ℕ, zero, suc, ◌+◌, ◌-◌, ◌*◌, ◌<◌, ◌≤◌, ◌≡◌, inl, inr, ◌&&◌, not, Option, none, some, List, [],
  ◌∷◌, ◌++◌, leb, ◌==◌, length, drop, arith, Bool-cases,
}
use qyz_client_lua.Char.{has_class, is_digit, is_xdigit, is_space}
use qyz_client_lua.Lex.Escapes.{state}
use qyz_client_lua.Lex.{
  Lexed, lexed, lex_error, no_rounds, ◌>>=◌, LexState, current, lj_max_line, save, is_newline,
  inclinenumber, hex_escape, skip_space, decimal_escape, simple_escape, save_or, escape, read_loop,
  read_string,
}

-- An error, or a result with the property; not a lack of rounds.
abbrev pub Ends : {A : Type 0} → (A → Type 0) → Lexed A → Type 0
Ends P (lexed a) = P a
Ends P (lex_error e) = Unit {0}
Ends P no_rounds = ⊥

-- At most `n` bytes are left.
abbrev AtMost : ℕ → LexState → Type 0
AtMost n ls = length ls.input ≤ n

drop_one : (rest : List ℕ) → length (drop 1 rest) ≤ length rest
drop_one [] = omega arith
drop_one (c ∷ rest) = omega arith

drop_two : (rest : List ℕ) → length (drop 2 rest) ≤ length rest
drop_two [] = omega arith
drop_two (c ∷ []) = omega arith
drop_two (c ∷ d ∷ rest) = omega arith

inclinenumber-Ends :
    (ls : LexState) (old : ℕ) (rest : List ℕ)
    → Ends (AtMost (length rest)) (inclinenumber ls old rest)
unfolding inclinenumber
inclinenumber-Ends ls old rest = elim (Bool-cases (leb lj_max_line (ls.linenumber + 1))) [
  | inl many ↦ rw many tt
  | inr few ↦ elim (Bool-cases (is_newline (current rest) && not (current rest == old))) [
    | inl pair ↦ rw (few, pair) (drop_one rest)
    | inr one ↦ rw (few, one) (omega arith)
  ]
]

hex_escape-Ends : (ls : LexState) (rest : List ℕ) → Ends (AtMost (length rest)) (hex_escape ls rest)
unfolding hex_escape save
hex_escape-Ends ls [] = tt
hex_escape-Ends ls (d ∷ []) = tt
hex_escape-Ends ls (d ∷ e ∷ rest) =
    elim (Bool-cases (has_class d is_xdigit && has_class e is_xdigit)) [
      | inl good ↦ rw good (omega arith)
      | inr bad ↦ rw bad tt
    ]

decimal_escape-Ends :
    (ls : LexState) (c : ℕ) (rest : List ℕ) → Ends (AtMost (length rest)) (decimal_escape ls c rest)
unfolding decimal_escape save
decimal_escape-Ends ls c rest = elim (Bool-cases (has_class (current rest) is_digit)) [
  | inr one ↦ rw one (omega arith)
  | inl more ↦ elim (Bool-cases (has_class (current (drop 1 rest)) is_digit)) [
    | inr two ↦ rw (more, two) (drop_one rest)
    | inl three ↦
        elim (Bool-cases
          (leb 256 ((c * 10 + (current rest - b'0')) * 10 + (current (drop 1 rest) - b'0')))) [
            | inl large ↦ rw (more, three, large) tt
            | inr small ↦ rw (more, three, small) (drop_two rest)
          ]
  ]
]

-- What goes on from a result with less left.
bind-Ends :
    {A B : Type 0} (P : A → Type 0) (Q : B → Type 0) (r : Lexed A) (k : A → Lexed B)
    → Ends P r
    → ((a : A) → P a → Ends Q (k a))
    → Ends Q (r >>= k)
bind-Ends P Q (lexed a) k h g = g a h
bind-Ends P Q (lex_error e) k h g = tt
bind-Ends P Q no_rounds k h g = absurd h

weaken : (n m : ℕ) (r : Lexed LexState) → n ≤ m → Ends (AtMost n) r → Ends (AtMost m) r
weaken n m (lexed ls) l h = omega arith
weaken n m (lex_error e) l h = tt
weaken n m no_rounds l h = h

skip_space-Ends :
    (rounds : ℕ) (input sb : List ℕ) (line : ℕ)
    → length input < rounds
    → Ends (AtMost (length input)) (skip_space rounds (state input sb line))
unfolding skip_space
skip_space-Ends zero input sb line h = absurd (omega arith)
skip_space-Ends (suc rounds) [] sb line h = omega arith
skip_space-Ends (suc rounds) (c ∷ rest) sb line h = elim (Bool-cases (has_class c is_space)) [
  | inr other ↦ rw other (omega arith)
  | inl space ↦ elim (Bool-cases (is_newline c)) [
    | inr blank ↦
        rw (space, blank)
          (weaken (length rest) (suc (length rest)) (skip_space rounds (state rest sb line))
            (omega arith) (skip_space-Ends rounds rest sb line (omega arith)))
    | inl newline ↦
        rw (space, newline)
          (bind-Ends (AtMost (length rest)) (AtMost (suc (length rest)))
            (inclinenumber (state (c ∷ rest) sb line) c rest) (λ ls. skip_space rounds ls)
            (inclinenumber-Ends (state (c ∷ rest) sb line) c rest)
            (λ ls l.
              weaken (length ls.input) (suc (length rest)) (skip_space rounds ls) (omega arith)
                (skip_space-Ends rounds ls.input ls.sb ls.linenumber (omega arith))))
  ]
]

save_or-Ends :
    (ls : LexState) (rest : List ℕ) (other : Lexed LexState) (o : Option ℕ)
    → Ends (AtMost (suc (length rest))) other
    → Ends (AtMost (suc (length rest))) (save_or ls rest other o)
unfolding save
save_or-Ends ls rest other none h = h
save_or-Ends ls rest other (some d) h = omega arith

escape-Ends : (ls : LexState) (rest : List ℕ) → Ends (AtMost (length rest)) (escape ls rest)
unfolding escape
escape-Ends ls [] = omega arith
escape-Ends ls (c ∷ rest) =
    let more : length rest ≤ suc (length rest) = omega arith in
    save_or-Ends ls rest _ (simple_escape c) (elim (Bool-cases (c == b'x')) [
      | inl hex ↦ rw hex (weaken _ _ (hex_escape ls rest) more (hex_escape-Ends ls rest))
      | inr no_hex ↦ elim (Bool-cases (c == b'z')) [
        | inl skip ↦
            rw (no_hex, skip)
              (weaken _ _ (skip_space (suc (length rest)) (state rest ls.sb ls.linenumber)) more
                (skip_space-Ends (suc (length rest)) rest ls.sb ls.linenumber (omega arith)))
        | inr no_skip ↦ elim (Bool-cases (is_newline c)) [
          | inl newline ↦
              rw (no_hex, no_skip, newline)
                (weaken _ _ (inclinenumber (save ls b'\n' rest) c rest) more
                  (inclinenumber-Ends (save ls b'\n' rest) c rest))
          | inr no_newline ↦ elim (Bool-cases (has_class c is_digit)) [
            | inl digit ↦
                rw (no_hex, no_skip, no_newline, digit)
                  (weaken _ _ (decimal_escape ls (c - b'0') rest) more
                    (decimal_escape-Ends ls (c - b'0') rest))
            | inr wrong ↦ rw (no_hex, no_skip, no_newline, wrong) tt
          ]
        ]
      ]
    ])

-- In front of the delimiter.
abbrev Stops : ℕ → ℕ → LexState → Type 0
Stops n delim ls = (current ls.input ≡ delim) × (1 ≤ length ls.input) × (length ls.input ≤ n)

Stops-weaken :
    (n m delim : ℕ) (r : Lexed LexState) → n ≤ m → Ends (Stops n delim) r → Ends (Stops m delim) r
Stops-weaken n m delim (lexed ls) l (e, h, k) = (e, h, omega arith)
Stops-weaken n m delim (lex_error e) l h = tt
Stops-weaken n m delim no_rounds l h = h

read_loop-Ends :
    (rounds delim : ℕ) (input sb : List ℕ) (line : ℕ)
    → length input < rounds
    → Ends (Stops (length input) delim) (read_loop rounds delim (state input sb line))
unfolding read_loop save
read_loop-Ends zero delim input sb line h = absurd (omega arith)
read_loop-Ends (suc rounds) delim [] sb line h = tt
read_loop-Ends (suc rounds) delim (c ∷ rest) sb line h = elim (Bool-cases (c == delim)) [
  | inl stop ↦ rw stop (ground arith, omega arith, omega arith)
  | inr inside ↦ elim (Bool-cases (is_newline c)) [
    | inl newline ↦ rw (inside, newline) tt
    | inr same_line ↦ elim (Bool-cases (c == b'\\')) [
      | inl escaped ↦
          rw (inside, same_line, escaped)
            (bind-Ends (AtMost (length rest)) (Stops (suc (length rest)) delim)
              (escape (state (c ∷ rest) sb line) rest) (λ ls. read_loop rounds delim ls)
              (escape-Ends (state (c ∷ rest) sb line) rest)
              (λ ls l.
                Stops-weaken (length ls.input) (suc (length rest)) delim (read_loop rounds delim ls)
                  (omega arith)
                  (read_loop-Ends rounds delim ls.input ls.sb ls.linenumber (omega arith))))
      | inr plain ↦
          rw (inside, same_line, plain)
            (Stops-weaken (length rest) (suc (length rest)) delim
              (read_loop rounds delim (state rest (sb ++ c ∷ []) line)) (omega arith)
              (read_loop-Ends rounds delim rest (sb ++ c ∷ []) line (omega arith)))
    ]
  ]
]

-- On every input that starts with the delimiter, `read_string` ends: with an error, or with a string
-- and an input that is at least two bytes shorter.
pub read_string-Ends :
    (delim : ℕ) (rest sb : List ℕ) (line : ℕ)
    → Ends
        (λ (s, ls). length ls.input + 2 ≤ length (delim ∷ rest))
        (read_string delim (state (delim ∷ rest) sb line))
unfolding read_string save
read_string-Ends delim rest sb line =
    bind-Ends (Stops (length rest) delim) (λ (s, ls). length ls.input + 2 ≤ suc (length rest))
      (read_loop (suc (length rest)) delim (state rest (sb ++ delim ∷ []) line)) _
      (read_loop-Ends (suc (length rest)) delim rest (sb ++ delim ∷ []) line (omega arith))
      (λ ls (e, h, k). shorter ls.input h k)
  where
    shorter :
        (input : List ℕ)
        → 1 ≤ length input
        → length input ≤ length rest
        → length (drop 1 input) + 2 ≤ suc (length rest)
    shorter [] h k = absurd (omega arith)
    shorter (c ∷ input) h k = omega arith

-- ===== src/Pattern/Class.antt =====
-- Single-character classes: `classend`, `match_class`, `matchbracketclass` and `singlematch` of
-- luajit/lib_string.c. A pattern is the list of its bytes from a position on; behind its end, and
-- behind the subject's, stands a zero byte.
use qyz_client_lua.Base.{
  ℕ, zero, suc, ◌-◌, ◌/◌, ◌%◌, Bool, true, false, not, ◌&&◌, List, [], ◌∷◌, leb, ltb, ◌==◌,
  if◌then◌else◌, get_or, length,
}
use qyz_client_lua.Char.{
  lj_char_isa, is_cntrl, is_space, is_punct, is_digit, is_xdigit, is_upper, is_lower, is_alpha,
  is_alnum, is_graph,
}

-- `*p`, and the pattern from `p + 1` on.
abbrev pub at : List ℕ → ℕ
at [] = 0
at (c ∷ p) = c

abbrev pub next : List ℕ → List ℕ
next [] = []
next (c ∷ p) = p

pub data ErrMsg : Type 0 where
  capture_index pattern_capture pattern_escape pattern_bracket unbalanced too_many_captures
        too_complex missing_bracket unfinished_capture bad_replacement :
      ErrMsg

pub data Result {ℓ} (A : Type ℓ) : Type ℓ where
  ok : A → Result A
  err : ErrMsg → Result A
  out_of_fuel : Result A

module _ {A B : Type 0} where
  infixl 5 ◌>>=◌
  abbrev pub ◌>>=◌ : Result A → (A → Result B) → Result B
  ok a >>= k = k a
  err e >>= k = err e
  out_of_fuel >>= k = out_of_fuel

-- `do { if (*p == 0) error; if (*(p++) == '%' && *p != 0) p++; } while (*p != ']');`
unfoldable pub bracket_end : List ℕ → Result (List ℕ)
bracket_end [] = err pattern_bracket
bracket_end (c ∷ []) = err pattern_bracket
bracket_end (c ∷ d ∷ p) =
    let escape = (if at p == b']' then ok (next p) else bracket_end p) in
    let plain = (if d == b']' then ok p else bracket_end (d ∷ p)) in
    if c == 0 then err pattern_bracket else if c == b'%' && not (d == 0) then escape else plain

-- The pattern behind the class at its start.
unfoldable pub classend : List ℕ → Result (List ℕ)
unfolding bracket_end
classend [] = ok []
classend (c ∷ p) =
    if c == b'%'
    then (if at p == 0 then err pattern_escape else ok (next p))
    else if c == b'['
    then bracket_end (if at p == b'^' then next p else p)
    else ok p

unfoldable pub match_class_map : List ℕ
match_class_map =
    0 ∷ is_alpha ∷ 0 ∷ is_cntrl ∷ is_digit ∷ 0 ∷ 0 ∷ is_graph ∷ 0 ∷ 0 ∷ 0 ∷ 0 ∷ is_lower ∷ 0 ∷ 0 ∷ 0
    ∷ is_punct ∷ 0 ∷ 0 ∷ is_space ∷ 0 ∷ is_upper ∷ 0 ∷ is_alnum ∷ is_xdigit ∷ 0 ∷ 0 ∷ 0 ∷ 0 ∷ 0 ∷ 0
    ∷ 0 ∷ []

unfoldable pub match_class : ℕ → ℕ → Bool
unfolding match_class_map lj_char_isa
match_class c cl =
    let t : ℕ = get_or match_class_map (cl % 32) 0 in
    let member = not (lj_char_isa c t == 0) in
    if cl / 64 == 1
    then (if not (t == 0)
        then (if cl / 32 % 2 == 1 then member else not member)
        else if cl == b'z'
        then c == 0
        else if cl == b'Z'
        then not (c == 0)
        else cl == c)
    else cl == c

-- The loop `while (++p < ec)` of `matchbracketclass`, with `n` bytes from `p` to `ec`. Each round
-- takes a byte at least, so `n` rounds are enough.
unfoldable pub bracket_loop : ℕ → ℕ → Bool → ℕ → List ℕ → Bool
unfolding match_class
bracket_loop zero c sig n p = not sig
bracket_loop (suc rounds) c sig n p =
    let after_escape = bracket_loop rounds c sig (n - 2) (next (next p)) in
    let after_range = bracket_loop rounds c sig (n - 3) (next (next (next p))) in
    let after_byte = bracket_loop rounds c sig (n - 1) (next p) in
    if n == 0
    then not sig
    else if at p == b'%'
    then (if match_class c (at (next p)) then sig else after_escape)
    else if at (next p) == b'-' && ltb 2 n
    then (if leb (at p) c && leb c (at (next (next p))) then sig else after_range)
    else if at p == c
    then sig
    else after_byte

-- `p` stands at the `[`, `n` bytes ahead of the `]` at `ec`.
unfoldable pub matchbracketclass : ℕ → List ℕ → ℕ → Bool
unfolding bracket_loop
matchbracketclass c p n =
    if at (next p) == b'^'
    then bracket_loop n c false (n - 2) (next (next p))
    else bracket_loop n c true (n - 1) (next p)

-- `ep` is the end of the class at `p`.
unfoldable pub singlematch : ℕ → List ℕ → List ℕ → Bool
unfolding matchbracketclass match_class
singlematch c p ep =
    if at p == b'.'
    then true
    else if at p == b'%'
    then match_class c (at (next p))
    else if at p == b'['
    then matchbracketclass c p (length p - length ep - 1)
    else at p == c

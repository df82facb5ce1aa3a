-- ===== src/Pattern/Find.antt =====
-- `string.find` and `string.match` of luajit/lib_string.c, without the stack of the Lua state: the
-- results are a list. `capture` is what the uninitialised array of captures holds.
pub mod Answers
use qyz_client_lua.Base.{
  ℤ, pos, negsuc, ℕ, zero, suc, ◌+◌, ◌-◌, Bool, true, false, not, ◌&&◌, ◌||◌, List, [], ◌∷◌, Option,
  none, some, leb, ltb, ◌==◌, if◌then◌else◌, take, drop, length,
}
use qyz_client_lua.Pattern.Class.{
  at, next, Result, ok, err, ◌>>=◌, capture_index, unfinished_capture,
}
use qyz_client_lua.Pattern.Match.{
  CapLen, unfinished, position, Capture, MatchState, capture_at, match,
}
use qyz_client_lua.Pattern.Plain.{lmemfind}

pub data Value : Type 0 where
  nil : Value
  integer : ℕ → Value
  string : List ℕ → Value

-- The value of a capture that begins at `i`.
unfoldable pub push_len : MatchState → ℕ → CapLen → Result Value
push_len ms i unfinished = err unfinished_capture
push_len ms i position = ok (integer (i + 1))
push_len ms i (CapLen.len n) = ok (string (take n (drop i ms.src)))

-- `none` stands for the null pointers that `string.find` passes for the whole match.
unfoldable pub push_onecapture : MatchState → ℕ → Option (ℕ × ℕ) → Result Value
unfolding push_len
push_onecapture ms i whole =
    if leb ms.level i
    then (if i == 0
        then ok (string (elim whole [ none ↦ [] | some (s, e) ↦ take (e - s) (drop s ms.src) ]))
        else err capture_index)
    else push_len ms (capture_at ms i).init (capture_at ms i).len

-- The captures from `i` on, `left` of them.
unfoldable pub captures_from : MatchState → Option (ℕ × ℕ) → ℕ → ℕ → Result (List Value)
captures_from ms whole i zero = ok []
captures_from ms whole i (suc left) =
    push_onecapture ms i whole >>= λ v. captures_from ms whole (i + 1) left >>= λ vs. ok (v ∷ vs)

unfoldable pub push_captures : MatchState → Option (ℕ × ℕ) → Result (List Value)
push_captures ms none = captures_from ms none 0 ms.level
push_captures ms (some w) = captures_from ms (some w) 0 (if ms.level == 0 then 1 else ms.level)

unfoldable pub posrelat : ℤ → ℕ → ℕ
posrelat (pos n) len = n
posrelat (negsuc n) len = (len + 1) - (n + 1)

-- The first position, from 0.
unfoldable pub first_position : ℤ → ℕ → ℕ
unfolding posrelat
first_position init l1 = let i = posrelat init l1 - 1 in if ltb l1 i then l1 else i

-- The bytes of SPECIALS.
abbrev pub is_special : ℕ → Bool
is_special c =
    c == b'^'
    || c == b'$'
    || c == b'*'
    || c == b'+'
    || c == b'?'
    || c == b'.'
    || c == b'('
    || c == b'['
    || c == b'%'
    || c == b'-'

-- `strpbrk(p, SPECIALS) != NULL`, which stops at a zero byte.
unfoldable pub has_specials : List ℕ → Bool
has_specials [] = false
has_specials (c ∷ p) = if c == 0 then false else is_special c || has_specials p

unfoldable pub answer : Bool → ℕ → ℕ → MatchState → Result (List Value)
answer find s1 res ms =
    if find
    then push_captures ms none >>= (λ vs. ok (integer (s1 + 1) ∷ integer res ∷ vs))
    else push_captures ms (some (s1, res))

abbrev pub reset : MatchState → MatchState
reset ms = record ms { level = 0; depth = 0 }

-- The loop over the positions, `left` bytes ahead of the end of the subject.
unfoldable pub find_loop : Bool → Bool → List ℕ → MatchState → ℕ → ℕ → Result (List Value)
find_loop find anchor p ms s1 zero = match (suc (length p)) (reset ms) s1 p >>= λ (r, ms'). elim r [
  | none ↦ ok (nil ∷ [])
  | some res ↦ answer find s1 res ms'
]
find_loop find anchor p ms s1 (suc left) = match (suc (length p)) (reset ms) s1 p >>= λ (r, ms').
    elim r [
      | none ↦ if anchor then ok (nil ∷ []) else find_loop find anchor p ms' (s1 + 1) left
      | some res ↦ answer find s1 res ms'
    ]

unfoldable pub plain_answer : List ℕ → List ℕ → ℕ → List Value
plain_answer s p init = elim (lmemfind (drop init s) p) [
  | none ↦ nil ∷ []
  | some i ↦ integer (init + i + 1) ∷ integer (init + i + length p) ∷ []
]

-- `start` is the third argument of the Lua function, and `plain` the fourth.
unfoldable pub str_find_aux : List Capture → List ℕ → List ℕ → ℤ → Bool → Bool → Result (List Value)
str_find_aux capture s p start plain find =
    let init = first_position start (length s) in
    let ms : MatchState = record { src = s; level = 0; depth = 0; capture = capture } in
    let anchor = at p == b'^' in
    if find && (plain || not (has_specials p))
    then ok (plain_answer s p init)
    else find_loop find anchor (if anchor then next p else p) ms init (length s - init)

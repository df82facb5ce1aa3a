-- ===== src/Pattern/Replace.antt =====
-- `string.gsub` and the iterator of `string.gmatch`, luajit/lib_string.c. What a Lua function or
-- table answers is a function of the captures, and the text of a number is that of the C library.
pub mod Rules
pub mod Copies
pub mod Progress
use qyz_client_lua.Base.{
  ℕ, ℤ, pos, negsuc, zero, suc, ◌+◌, ◌-◌, Bool, true, false, not, List, [], ◌∷◌, ◌++◌, Option, none,
  some, leb, ltb, ◌==◌, if◌then◌else◌, take, drop, length,
}
use qyz_client_lua.Char.{lj_char_isa, is_digit}
use qyz_client_lua.Pattern.Class.{at, next, Result, ok, err, out_of_fuel, ◌>>=◌, bad_replacement}
use qyz_client_lua.Pattern.Match.{Capture, MatchState, byte, match}
use qyz_client_lua.Pattern.Find.{Value, nil, integer, string, push_onecapture, push_captures, reset}

-- nil or false, a string or number as its text, or another value.
pub data Reply : Type 0 where
  falsy other : Reply
  text : List ℕ → Reply

pub data Repl : Type 0 where
  news : List ℕ → Repl
  func : (List Value → Reply) → Repl
  table : (Value → Reply) → Repl

-- The text of a match.
abbrev pub matched : MatchState → ℕ → ℕ → List ℕ
matched ms s e = take (e - s) (drop s ms.src)

module _ (number : ℕ → List ℕ) where
  abbrev pub value_text : Value → List ℕ
  value_text nil = []
  value_text (integer n) = number n
  value_text (string t) = t

  -- Behind the last byte of the replacement stands a zero byte.
  unfoldable pub add_s : MatchState → ℕ → ℕ → List ℕ → Result (List ℕ)
  add_s ms s e [] = ok []
  add_s ms s e (c ∷ []) = ok ((if c == b'%' then 0 else c) ∷ [])
  add_s ms s e (c ∷ d ∷ cs) =
      let rest = add_s ms s e cs in
      let plain = add_s ms s e (d ∷ cs) >>= (λ t. ok (c ∷ t)) in
      let literal = rest >>= (λ t. ok (d ∷ t)) in
      let whole = rest >>= (λ t. ok (matched ms s e ++ t)) in
      let captured =
        push_onecapture ms (d - b'1') (some (s, e))
        >>= (λ v. rest >>= (λ t. ok (value_text v ++ t))) in
      if not (c == b'%')
      then plain
      else if lj_char_isa d is_digit == 0
      then literal
      else if d == b'0'
      then whole
      else captured

  unfoldable pub reply_text : MatchState → ℕ → ℕ → Reply → Result (List ℕ)
  reply_text ms s e falsy = ok (matched ms s e)
  reply_text ms s e other = err bad_replacement
  reply_text ms s e (text t) = ok t

  unfoldable pub add_value : MatchState → ℕ → ℕ → Repl → Result (List ℕ)
  unfolding add_s reply_text
  add_value ms s e (news t) = add_s ms s e t
  add_value ms s e (func f) = push_captures ms (some (s, e)) >>= (λ vs. reply_text ms s e (f vs))
  add_value ms s e (table f) = push_onecapture ms 0 (some (s, e)) >>= (λ v. reply_text ms s e (f v))

  -- The end of `string_gsub`: the rest of the subject.
  unfoldable pub finish : MatchState → ℕ → ℕ → List ℕ → Result (List ℕ × ℕ)
  finish ms src n t = ok (t ++ drop src ms.src, n)

  abbrev pub Again : Type 0
  Again = MatchState → ℕ → ℕ → Result (List ℕ × ℕ)

  -- `t` was added to the buffer.
  unfoldable pub go_on : Again → Bool → MatchState → ℕ → ℕ → List ℕ → Result (List ℕ × ℕ)
  unfolding finish
  go_on again anchor ms src n t =
      if anchor then finish ms src n t else again ms src n >>= (λ (u, m). ok (t ++ u, m))

  -- Behind a match up to `e`, or `e` is `src`.
  unfoldable pub advance : Again → Bool → MatchState → ℕ → ℕ → ℕ → List ℕ → Result (List ℕ × ℕ)
  unfolding go_on finish
  advance again anchor ms src e n t =
      if ltb src e
      then go_on again anchor ms e n t
      else if ltb src (length ms.src)
      then go_on again anchor ms (src + 1) n (t ++ byte ms src ∷ [])
      else finish ms src n t

  -- The loop `while (n < max_s)`. Each round that goes on takes a byte at least.
  unfoldable pub gsub_loop : ℕ → Repl → Bool → List ℕ → ℕ → Again
  gsub_loop zero repl anchor p max_s ms src n = out_of_fuel
  gsub_loop (suc rounds) repl anchor p max_s ms src n =
      if leb max_s n
      then finish ms src n []
      else match (suc (length p)) (reset ms) src p >>= λ (r, ms'). elim r [
        | none ↦
            advance (λ ms src n. gsub_loop rounds repl anchor p max_s ms src n) anchor ms' src src n
              []
        | some e ↦ add_value ms' src e repl >>= (λ t.
            advance (λ ms src n. gsub_loop rounds repl anchor p max_s ms src n) anchor ms' src e
              (n + 1) t)
      ]

  unfoldable pub max_count : Option ℤ → ℕ → ℕ
  max_count none srcl = srcl + 1
  max_count (some (pos n)) srcl = n
  max_count (some (negsuc n)) srcl = 0

  unfoldable pub string_gsub :
      List Capture → List ℕ → List ℕ → Repl → Option ℤ → Result (List ℕ × ℕ)
  unfolding max_count
  string_gsub capture s p repl limit =
      let anchor = at p == b'^' in
      let ms : MatchState = record { src = s; level = 0; depth = 0; capture = capture } in
      gsub_loop (length s + 2) repl anchor (if anchor then next p else p)
        (max_count limit (length s)) ms 0 0

-- `string_gmatch_aux` over the positions, `left` of them; the new position and the values.
unfoldable pub gmatch_loop : List ℕ → MatchState → ℕ → ℕ → Result (Option (ℕ × List Value))
gmatch_loop p ms src zero = ok none
gmatch_loop p ms src (suc left) = match (suc (length p)) (reset ms) src p >>= λ (r, ms'). elim r [
  | none ↦ gmatch_loop p ms' (src + 1) left
  | some e ↦
      push_captures ms' (some (src, e)) >>= (λ vs. ok (some (if e == src then e + 1 else e, vs)))
]

unfoldable pub string_gmatch_aux :
    List Capture → List ℕ → List ℕ → ℕ → Result (Option (ℕ × List Value))
string_gmatch_aux capture s p from =
    gmatch_loop p (record { src = s; level = 0; depth = 0; capture = capture }) from
      (length s + 1 - from)

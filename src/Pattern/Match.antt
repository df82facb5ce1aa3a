-- ===== src/Pattern/Match.antt =====
-- The matcher: `match` and its helpers of luajit/lib_string.c. Subject positions are indices;
-- `match` moves along the pattern with each round, and a round is one entry at its label `init`.
pub mod Bounds
pub mod Captures
pub mod Items
pub mod Total
use qyz_client_lua.Base.{
  ℕ, zero, suc, ◌+◌, ◌-◌, ◌*◌, ◌/◌, ◌%◌, Bool, true, false, not, ◌&&◌, ◌||◌, List, [], ◌∷◌, Option,
  none, some, leb, ltb, ◌==◌, if◌then◌else◌, get_or, set, drop, take, length,
}
use qyz_client_lua.Char.{lj_char_isa, is_digit}
use qyz_client_lua.Pattern.Class.{
  at, next, ErrMsg, Result, ok, err, out_of_fuel, ◌>>=◌, classend, matchbracketclass, singlematch,
  capture_index, pattern_capture, unbalanced, too_many_captures, too_complex, missing_bracket,
}

-- CAP_UNFINISHED, CAP_POSITION, or the length of a finished capture.
pub data CapLen : Type 0 where
  unfinished position : CapLen
  len : ℕ → CapLen

pub record Capture : Type 0 where
  pub init : ℕ
  pub len : CapLen

-- `src` holds the bytes from `src_init` to `src_end`.
pub record MatchState : Type 0 where
  pub src : List ℕ
  pub level : ℕ
  pub depth : ℕ
  pub capture : List Capture

abbrev pub lua_maxcaptures : ℕ
lua_maxcaptures = 32

abbrev pub lj_max_xlevel : ℕ
lj_max_xlevel = 200

-- The position behind the match, or none, and the state.
abbrev pub Found : Type 0
Found = Option ℕ × MatchState

-- A call of `match`, as the helpers make it.
abbrev pub Matcher : Type 0
Matcher = MatchState → ℕ → List ℕ → Result Found

abbrev pub byte : MatchState → ℕ → ℕ
byte ms s = get_or ms.src s 0

abbrev pub capture_at : MatchState → ℕ → Capture
capture_at ms l = get_or ms.capture l (record { init = 0; len = unfinished })

abbrev pub is_unfinished : CapLen → Bool
is_unfinished unfinished = true
is_unfinished _ = false

-- `l` is the digit.
unfoldable pub check_capture : MatchState → ℕ → Result ℕ
check_capture ms l =
    if ltb l b'1' || leb ms.level (l - b'1') || is_unfinished (capture_at ms (l - b'1')).len
    then err capture_index
    else ok (l - b'1')

unfoldable pub capture_to_close : MatchState → ℕ → Result ℕ
capture_to_close ms zero = err pattern_capture
capture_to_close ms (suc level) =
    if is_unfinished (capture_at ms level).len then ok level else capture_to_close ms level

-- The loop of `matchbalance` over the rest of the subject, from position `s`.
unfoldable pub balance_loop : ℕ → ℕ → ℕ → ℕ → List ℕ → Option ℕ
balance_loop b e cont s [] = none
balance_loop b e cont s (c ∷ cs) =
    let closed = balance_loop b e (cont - 1) (s + 1) cs in
    let opened = balance_loop b e (cont + 1) (s + 1) cs in
    let other = balance_loop b e cont (s + 1) cs in
    if c == e
    then (if cont == 1 then some (s + 1) else closed)
    else if c == b
    then opened
    else other

unfoldable pub matchbalance : MatchState → ℕ → List ℕ → Result (Option ℕ)
unfolding balance_loop
matchbalance ms s p =
    if at p == 0 || at (next p) == 0
    then err unbalanced
    else if not (byte ms s == at p)
    then ok none
    else ok (balance_loop (at p) (at (next p)) 1 (s + 1) (drop (s + 1) ms.src))

-- The number of bytes in a row that a class takes.
unfoldable pub run_length : List ℕ → List ℕ → List ℕ → ℕ
run_length [] p ep = 0
run_length (c ∷ cs) p ep =
    let more : ℕ = suc (run_length cs p ep) in if singlematch c p ep then more else 0

-- `while (i>=0) { res = match(ms, s+i, ep+1); if (res) return res; i--; }`
unfoldable pub try_down : Matcher → MatchState → ℕ → ℕ → List ℕ → Result Found
try_down again ms s zero p = again ms s p
try_down again ms s (suc i) p = again ms (s + suc i) p >>= λ (r, ms'). elim r [
  | none ↦ try_down again ms' s i p
  | some e ↦ ok (some e, ms')
]

unfoldable pub max_expand : Matcher → MatchState → ℕ → List ℕ → List ℕ → Result Found
unfolding try_down run_length
max_expand again ms s p ep = try_down again ms s (run_length (drop s ms.src) p ep) (next ep)

-- `left` counts the bytes of the subject from `s` on.
unfoldable pub min_loop : Matcher → MatchState → ℕ → ℕ → List ℕ → List ℕ → Result Found
min_loop again ms s zero p ep = again ms s (next ep)
min_loop again ms s (suc left) p ep = again ms s (next ep) >>= λ (r, ms'). elim r [
  | none ↦
      if singlematch (byte ms' s) p ep then min_loop again ms' (s + 1) left p ep else ok (none, ms')
  | some e ↦ ok (some e, ms')
]

unfoldable pub min_expand : Matcher → MatchState → ℕ → List ℕ → List ℕ → Result Found
unfolding min_loop
min_expand again ms s p ep = min_loop again ms s (length ms.src - s) p ep

unfoldable pub start_capture : Matcher → MatchState → ℕ → List ℕ → CapLen → Result Found
start_capture again ms s p what =
    if leb lua_maxcaptures ms.level
    then err too_many_captures
    else (again
          (record ms {
            level = ms.level + 1;
            capture = set ms.capture ms.level (record { init = s; len = what });
          })
          s p
        >>= λ (r, ms'). elim r [
          | none ↦ ok (none, record ms' { level = ms'.level - 1 })
          | some e ↦ ok (some e, ms')
        ])

unfoldable pub set_len : MatchState → ℕ → CapLen → MatchState
set_len ms l n = record ms {
  capture = set ms.capture l (record { init = (capture_at ms l).init; len = n });
}

unfoldable pub end_capture : Matcher → MatchState → ℕ → List ℕ → Result Found
unfolding capture_to_close set_len
end_capture again ms s p = capture_to_close ms ms.level >>= λ l.
    again (set_len ms l (CapLen.len (s - (capture_at ms l).init))) s p >>= λ (r, ms'). elim r [
      | none ↦ ok (none, set_len ms' l unfinished)
      | some e ↦ ok (some e, ms')
    ]

-- `memcmp(a, b, len) == 0`, both within the subject.
unfoldable pub same_bytes : ℕ → List ℕ → List ℕ → Bool
same_bytes zero a b = true
same_bytes (suc n) a b = at a == at b && same_bytes n (next a) (next b)

-- A position capture has the length -2, which as a `size_t` is more than any subject has.
unfoldable pub back_reference : MatchState → ℕ → Capture → Option ℕ
unfolding same_bytes
back_reference ms s c = elim c.len [
  | CapLen.len n ↦
      if leb n (length ms.src - s) && same_bytes n (drop c.init ms.src) (drop s ms.src)
      then some (s + n)
      else none
  | _ ↦ none
]

unfoldable pub match_capture : MatchState → ℕ → ℕ → Result (Option ℕ)
unfolding check_capture back_reference
match_capture ms s l = check_capture ms l >>= λ l'. ok (back_reference ms s (capture_at ms l'))

-- `++ms->depth` at the start of `match`, and `ms->depth--` at its end.
unfoldable pub enter : Matcher → Matcher
enter body ms s p =
    if ltb lj_max_xlevel (ms.depth + 1)
    then err too_complex
    else (body (record ms { depth = ms.depth + 1 }) s p >>= λ (r, ms').
        ok (r, record ms' { depth = ms'.depth - 1 }))

-- Going on behind an item that matched up to `r`, if it did.
abbrev pub go_on : Matcher → MatchState → List ℕ → Option ℕ → Result Found
go_on init ms p none = ok (none, ms)
go_on init ms p (some s) = init ms s p

-- `case 'f'`: `p` stands behind the `f`.
unfoldable pub frontier : Matcher → MatchState → ℕ → List ℕ → Result Found
frontier init ms s p =
    let previous : ℕ = if s == 0 then 0 else byte ms (s - 1) in
    if not (at p == b'[')
    then err missing_bracket
    else (classend p >>= λ ep.
        let n = length p - length ep - 1 in
        if matchbracketclass previous p n || not (matchbracketclass (byte ms s) p n)
        then ok (none, ms)
        else init ms s ep)

-- `default`: a single-character class at `p`, and what stands behind it at `ep`.
unfoldable pub item : Matcher → Matcher → MatchState → ℕ → List ℕ → List ℕ → Result Found
item init again ms s p ep =
    let m = ltb s (length ms.src) && singlematch (byte ms s) p ep in
    if at ep == b'?'
    then (if m
        then again ms (s + 1) (next ep)
          >>= (λ (r, ms'). elim r [ none ↦ init ms' s (next ep) | some e ↦ ok (some e, ms') ])
        else init ms s (next ep))
    else if at ep == b'*'
    then max_expand again ms s p ep
    else if at ep == b'+'
    then (if m then max_expand again ms (s + 1) p ep else ok (none, ms))
    else if at ep == b'-'
    then min_expand again ms s p ep
    else if m
    then init ms (s + 1) ep
    else ok (none, ms)

unfoldable pub default_item : Matcher → Matcher → MatchState → ℕ → List ℕ → Result Found
default_item init again ms s p = classend p >>= λ ep. item init again ms s p ep

-- `case L_ESC`: `c` is the byte behind the `%`.
unfoldable pub escape : Matcher → Matcher → MatchState → ℕ → List ℕ → ℕ → Result Found
escape init again ms s p c =
    if c == b'b'
    then matchbalance ms s (drop 2 p) >>= (λ r. go_on init ms (drop 4 p) r)
    else if c == b'f'
    then frontier init ms s (drop 2 p)
    else if not (lj_char_isa c is_digit == 0)
    then match_capture ms s c >>= (λ r. go_on init ms (drop 2 p) r)
    else default_item init again ms s p

-- The switch at `init`. `init` goes there again, and `again` calls `match`.
unfoldable pub dispatch : Matcher → Matcher → Matcher
dispatch init again ms s p =
    if at p == b'('
    then (if at (next p) == b')'
        then start_capture again ms s (drop 2 p) position
        else start_capture again ms s (next p) unfinished)
    else if at p == b')'
    then end_capture again ms s (next p)
    else if at p == b'%'
    then escape init again ms s p (at (next p))
    else if at p == 0
    then ok (some s, ms)
    else if at p == b'$' && at (next p) == 0
    then ok (if s == length ms.src then some s else none, ms)
    else default_item init again ms s p

-- The code at the label `init`, and `match`.
unfoldable pub match_init : ℕ → Matcher
match_init zero ms s p = out_of_fuel
match_init (suc rounds) ms s p =
    dispatch (λ ms s p. match_init rounds ms s p)
      (λ ms s p. enter (λ ms s p. match_init rounds ms s p) ms s p) ms s p

unfoldable pub match : ℕ → Matcher
match rounds = enter (match_init rounds)

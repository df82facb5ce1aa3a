-- ===== src/Pattern/Replace/Progress.antt =====
-- The calls of the iterator of `string.gmatch`.
use qyz_client_lua.Base.{
  ℕ, zero, suc, ◌+◌, ◌-◌, ◌<◌, ◌≤◌, ◌≡◌, refl, sym, ap, ◌∙◌, inl, inr, List, Option, none, some,
  ◌==◌, if◌then◌else◌, length, arith, Bool-cases,
}
use qyz_client_lua.Pattern.Class.{Result, ok, err, out_of_fuel, ◌>>=◌}
use qyz_client_lua.Pattern.Match.{Capture, MatchState, Found, lua_maxcaptures, match}
use qyz_client_lua.Pattern.Match.Bounds.{size, Undone, Good}
use qyz_client_lua.Pattern.Match.Captures.{Sure}
use qyz_client_lua.Pattern.Match.Total.{match-Good}
use qyz_client_lua.Pattern.Find.{Value, push_captures, reset}
use qyz_client_lua.Pattern.Find.Answers.{push_captures-Sure, reset-IsValid}
use qyz_client_lua.Pattern.Replace.{gmatch_loop, string_gmatch_aux}

-- No match, or the values of one and a later position, one behind the end of the subject at most.
abbrev pub MovesOn : ℕ → ℕ → Option (ℕ × List Value) → Type 0
MovesOn n src none = Unit {0}
MovesOn n src (some (src', vs)) = (src < src') × (src' ≤ n + 1)

round :
    (ms : MatchState) (n start src : ℕ) (r : Result Found)
    (k : MatchState → Result (Option (ℕ × List Value)))
    → n ≡ size ms
    → start ≤ src
    → Good (reset ms) src r
    → ((ms' : MatchState) → Undone (reset ms) ms' → Sure (MovesOn n start) (k ms'))
    → Sure (MovesOn n start) (
        r >>= λ (o, ms'). elim o [
          | none ↦ k ms'
          | some e ↦
              push_captures ms' (some (src, e))
              >>= (λ vs. ok (some (if e == src then e + 1 else e, vs)))
        ])
round ms n start src (ok (none, m)) k e h g f = f m g
round ms n start src (ok (some x, m)) k e h g f =
    values (push_captures m (some (src, x))) (push_captures-Sure m (some (src, x)))
  where
    inside : x ≤ n
    inside = omega (arith, g.valid.inside, ap length g.src)

    values :
        (q : Result (List Value))
        → Sure (λ vs. Unit {0}) q
        → Sure (MovesOn n start) (q >>= (λ vs. ok (some (if x == src then x + 1 else x, vs))))
    values (ok vs) u = elim (Bool-cases (x == src)) [
      | inl empty ↦ rw empty (ground arith, omega (arith, inside))
      | inr some_bytes ↦ rw some_bytes (ground (arith, g.forward), omega (arith, inside))
    ]
    values (err q) u = tt
    values out_of_fuel u = u
round ms n start src (err q) k e h g f = tt
round ms n start src out_of_fuel k e h g f = g

gmatch_loop-MovesOn :
    (p : List ℕ) (ms : MatchState) (n start src left : ℕ)
    → n ≡ size ms
    → length ms.capture ≡ lua_maxcaptures
    → start ≤ src
    → src + left ≤ n + 1
    → Sure (MovesOn n start) (gmatch_loop p ms src left)
unfolding gmatch_loop
gmatch_loop-MovesOn p ms n start src zero e c h l = tt
gmatch_loop-MovesOn p ms n start src (suc left) e c h l =
    let inside : src ≤ n = omega arith in
    round ms n start src (match (suc (length p)) (reset ms) src p)
      (λ ms'. gmatch_loop p ms' (src + 1) left) e h
      (match-Good (suc (length p)) (reset ms) src p (omega arith)
        (reset-IsValid ms src c (omega arith)))
      λ ms' u.
        gmatch_loop-MovesOn p ms' n start (src + 1) left (e ∙ sym (ap length u.src)) (u.slots ∙ c)
          (omega arith) (omega arith)

-- A call of the iterator ends, with an error, no match, or a match after which the next call starts
-- at a later position, one behind the end of the subject at most.
pub string_gmatch_aux-MovesOn :
    (capture : List Capture) (s p : List ℕ) (from : ℕ)
    → length capture ≡ lua_maxcaptures
    → from ≤ length s + 1
    → Sure (MovesOn (length s) from) (string_gmatch_aux capture s p from)
unfolding string_gmatch_aux
string_gmatch_aux-MovesOn capture s p from c h =
    gmatch_loop-MovesOn p (record { src = s; level = 0; depth = 0; capture = capture }) (length s)
      from from (length s + 1 - from) refl c (omega arith) (omega arith)

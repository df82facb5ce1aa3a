-- ===== src/Pattern/Match/Total.antt =====
-- `match` with more rounds than the pattern has bytes.
use qyz_client_lua.Base.{
  ℕ, zero, suc, ◌+◌, ◌-◌, ◌<◌, ◌≡◌, ◌≢◌, inl, inr, refl, Bool, true, false, not, ◌&&◌, List, none,
  some, ltb, ◌==◌, if◌then◌else◌, drop, length, arith, Bool-cases,
}
use qyz_client_lua.Char.{lj_char_isa, is_digit}
use qyz_client_lua.Pattern.Class.{at, next, Result, ok, classend, singlematch}
use qyz_client_lua.Pattern.Match.{
  unfinished, position, MatchState, Found, Matcher, byte, matchbalance, min_expand, match_capture,
  enter, item, default_item, escape, dispatch, match_init, match,
}
use qyz_client_lua.Pattern.Match.Bounds.{
  IsValid, Done, Good, GoodBelow, Undone-refl, IsValid-Undone, IsValid-later, Good-from, or_else,
  next-le, length-drop, max_expand-Good, min_loop-Good,
}
use qyz_client_lua.Pattern.Match.Captures.{bind-Good, start_capture-Good, end_capture-Good}
use qyz_client_lua.Pattern.Match.Items.{
  matchbalance-Sure, match_capture-Sure, classend-Sure, size-next, enter-Good, go_on-Good,
  frontier-Good,
}

branch :
    (ms : MatchState) (s : ℕ) (t : Bool) (a b : Result Found)
    → (t ≡ true → Good ms s a)
    → (t ≡ false → Good ms s b)
    → Good ms s (if t then a else b)
branch ms s true a b h k = h refl
branch ms s false a b h k = k refl

module _ (n : ℕ) (init : Matcher) (good : GoodBelow n init) where
  -- `again` from the next position.
  later : (ms : MatchState) (s : ℕ) (r : Result Found) → Good ms (s + 1) r → Good ms s r
  later ms s r g = Good-from ms ms s (s + 1) r (Undone-refl ms) (omega arith) g

  min_expand-Good :
      (ms : MatchState) (s : ℕ) (p ep : List ℕ)
      → length (next ep) < n
      → IsValid ms s
      → Good ms s (min_expand (enter init) ms s p ep)
  unfolding min_expand
  min_expand-Good ms s p ep h v =
      min_loop-Good (enter init) n (enter-Good n init good) ms s (length ms.src - s) p ep h
        (omega (arith, v.inside)) v

  item-Good :
      (ms : MatchState) (s : ℕ) (p ep : List ℕ)
      → length ep < n
      → IsValid ms s
      → Good ms s (item init (enter init) ms s p ep)
  unfolding item
  item-Good ms s p ep h v =
      branch ms s (at ep == b'?') _ _
        (λ _.
          branch ms s _ _ _
            (λ m.
              or_else ms s (s + 1) (enter init ms (s + 1) (next ep)) (λ ms'. init ms' s (next ep))
                (omega arith) (again ms (s + 1) (next ep) next_h (valid m))
                λ ms' u.
                  Good-from ms ms' s s (init ms' s (next ep)) u (omega arith)
                    (good ms' s (next ep) next_h (IsValid-Undone v u)))
            (λ _. good ms s (next ep) next_h v))
        λ _.
          branch ms s (at ep == b'*') _ _
            (λ _. max_expand-Good (enter init) n again ms s p ep next_h v)
            λ _.
              branch ms s (at ep == b'+') _ _
                (λ _.
                  branch ms s _ _ _
                    (λ m.
                      later ms s _
                        (max_expand-Good (enter init) n again ms (s + 1) p ep next_h (valid m)))
                    (λ _. Undone-refl ms))
                λ _.
                  branch ms s (at ep == b'-') _ _ (λ _. min_expand-Good ms s p ep next_h v)
                    λ _.
                      branch ms s _ _ _ (λ m. later ms s _ (good ms (s + 1) ep h (valid m)))
                        (λ _. Undone-refl ms)
    where
      again : GoodBelow n (enter init)
      again = enter-Good n init good

      next_h : length (next ep) < n
      next_h = omega (arith, next-le ep)

      valid : (ltb s (length ms.src) && singlematch (byte ms s) p ep) ≡ true → IsValid ms (s + 1)
      valid m = IsValid-later (s + 1) v (omega arith) (ground arith)

  default_item-Good :
      (ms : MatchState) (s : ℕ) (p : List ℕ)
      → at p ≢ 0
      → length p < suc n
      → IsValid ms s
      → Good ms s (default_item init (enter init) ms s p)
  unfolding default_item
  default_item-Good ms s p nz h v =
      bind-Good ms s (classend p) _ (classend-Sure p nz) λ ep l. item-Good ms s p ep (omega arith) v

  escape-Good :
      (ms : MatchState) (s : ℕ) (p : List ℕ)
      → at p ≢ 0
      → length p < suc n
      → IsValid ms s
      → Good ms s (escape init (enter init) ms s p (at (next p)))
  unfolding escape
  escape-Good ms s p nz h v = elim (Bool-cases (at (next p) == b'b')) [
    | inl balance ↦ rw balance (
        bind-Good ms s (matchbalance ms s (drop 2 p)) _ (matchbalance-Sure ms s (drop 2 p) v.inside)
          λ o a. go_on-Good n init good ms s (drop 4 p) o (shorter 3) v a)
    | inr nb ↦ elim (Bool-cases (at (next p) == b'f')) [
      | inl f ↦ rw (nb, f) (frontier-Good n init good ms s (drop 2 p) (omega (arith, shorter 1)) v)
      | inr nf ↦ elim (Bool-cases (not (lj_char_isa (at (next p)) is_digit == 0))) [
        | inl digit ↦
            rw (nb, nf, digit)
              (bind-Good ms s (match_capture ms s (at (next p))) _
                (match_capture-Sure ms s (at (next p)) v.inside)
                λ o a. go_on-Good n init good ms s (drop 2 p) o (shorter 1) v a)
        | inr other ↦ rw (nb, nf, other) (default_item-Good ms s p nz h v)
      ]
    ]
  ]
    where
      shorter : (k : ℕ) → length (drop (suc k) p) < n
      shorter k = omega (arith, length-drop (suc k) p, size-next p nz)

  dispatch-Good :
      (ms : MatchState) (s : ℕ) (p : List ℕ)
      → length p < suc n
      → IsValid ms s
      → Good ms s (dispatch init (enter init) ms s p)
  unfolding dispatch
  dispatch-Good ms s p h v =
      branch ms s (at p == b'(') _ _
        (λ paren.
          branch ms s (at (next p) == b')') _ _
            (λ _.
              start_capture-Good again n good' ms s (drop 2 p) position
                (shorter 1 (other b'(' (omega arith) paren)) tt v)
            (λ _.
              start_capture-Good again n good' ms s (next p) unfinished
                (next_h (other b'(' (omega arith) paren)) tt v))
        λ _.
          branch ms s (at p == b')') _ _
            (λ paren.
              end_capture-Good again n good' ms s (next p) (next_h (other b')' (omega arith) paren))
                v)
            λ _.
              branch ms s (at p == b'%') _ _
                (λ esc. escape-Good ms s p (other b'%' (omega arith) esc) h v)
                λ _.
                  branch ms s (at p == 0) _ _ (λ _. found v)
                    λ nz.
                      branch ms s (at p == b'$' && at (next p) == 0) _ _
                        (λ _. at_end (s == length ms.src))
                        λ _. default_item-Good ms s p (λ e. ground arith) h v
    where
      again : Matcher
      again = enter init

      good' : GoodBelow n again
      good' = enter-Good n init good

      other : (c : ℕ) → 0 < c → (at p == c) ≡ true → at p ≢ 0
      other c k e z = ground arith

      next_h : at p ≢ 0 → length (next p) < n
      next_h nz = omega (arith, size-next p nz)

      shorter : (k : ℕ) → at p ≢ 0 → length (drop (suc k) p) < n
      shorter k nz = omega (arith, length-drop (suc k) p, size-next p nz)

      found : IsValid ms s → Done ms s s ms
      found v = record { src = refl; depth = refl; forward = omega arith; valid = v }

      at_end : (t : Bool) → Good ms s (ok (if t then some s else none, ms))
      at_end true = found v
      at_end false = Undone-refl ms

match_init-Good : (rounds : ℕ) → GoodBelow rounds (match_init rounds)
unfolding match_init
match_init-Good zero ms s p h v = absurd (omega (arith, h))
match_init-Good (suc r) ms s p h v = dispatch-Good r (match_init r) (match_init-Good r) ms s p h v

-- On a valid state, with more rounds than the pattern has bytes, `match` ends: with a Lua error;
-- or without a match, in the state it began in, but for the captures that are not in use; or with
-- a match that ends in the subject, no earlier than it started, and a valid state for its end.
pub match-Good :
    (rounds : ℕ) (ms : MatchState) (s : ℕ) (p : List ℕ)
    → length p < rounds
    → IsValid ms s
    → Good ms s (match rounds ms s p)
unfolding match
match-Good rounds ms s p h v =
    enter-Good rounds (match_init rounds) (match_init-Good rounds) ms s p h v

-- ===== src/Pattern/Match/Items.antt =====
-- The parts of a round of `match`: `%b`, back references, class ends, `%f`, and the depth count.
use qyz_client_lua.Base.{
  ℕ, suc, ◌+◌, ◌-◌, ◌<◌, ◌≤◌, ◌≡◌, ◌≢◌, inl, inr, refl, Bool, true, false, not, ◌&&◌, ◌||◌, List,
  [], ◌∷◌, Option, none, some, leb, ltb, ◌==◌, if◌then◌else◌, drop, length, arith, Bool-cases,
}
use qyz_client_lua.Pattern.Class.{
  at, next, Result, ok, err, out_of_fuel, ◌>>=◌, bracket_end, classend,
}
use qyz_client_lua.Pattern.Match.{
  CapLen, unfinished, position, MatchState, lj_max_xlevel, Found, Matcher, byte, capture_at,
  check_capture, is_unfinished, same_bytes, balance_loop, matchbalance, back_reference,
  match_capture, enter, go_on, frontier,
}
use qyz_client_lua.Pattern.Match.Bounds.{
  size, IsValid, Good, GoodBelow, Undone-refl, IsValid-later, Good-from, classend-shorter,
  length-drop,
}
use qyz_client_lua.Pattern.Match.Captures.{Sure, bind-Good}

-- Where an item ends: within the subject, and not ahead of its start.
abbrev pub Ahead : MatchState → ℕ → Option ℕ → Type 0
Ahead ms s none = Unit {0}
Ahead ms s (some e) = (s ≤ e) × (e ≤ size ms)

balance_loop-Ahead :
    (b e c s n : ℕ) (cs : List ℕ) (ms : MatchState)
    → n ≤ s
    → length cs ≤ size ms - s
    → Ahead ms n (balance_loop b e c s cs)
unfolding balance_loop
balance_loop-Ahead b e c s n [] ms h k = tt
balance_loop-Ahead b e c s n (x ∷ cs) ms h k =
    let closed = balance_loop-Ahead b e (c - 1) (s + 1) n cs ms (omega arith) (omega arith) in
    let opened = balance_loop-Ahead b e (c + 1) (s + 1) n cs ms (omega arith) (omega arith) in
    let other = balance_loop-Ahead b e c (s + 1) n cs ms (omega arith) (omega arith) in
    elim (Bool-cases (x == e)) [
      | inl t ↦ elim (Bool-cases (c == 1)) [
        | inl u ↦ rw (t, u) (omega arith, omega arith)
        | inr u ↦ rw (t, u) closed
      ]
      | inr f ↦ elim (Bool-cases (x == b)) [ inl u ↦ rw (f, u) opened | inr u ↦ rw (f, u) other ]
    ]

pub matchbalance-Sure :
    (ms : MatchState) (s : ℕ) (p : List ℕ) → s ≤ size ms → Sure (Ahead ms s) (matchbalance ms s p)
unfolding matchbalance
matchbalance-Sure ms s p h = elim (Bool-cases (at p == 0 || at (next p) == 0)) [
  | inl short ↦ rw short tt
  | inr long ↦ elim (Bool-cases (not (byte ms s == at p))) [
    | inl other ↦ rw (long, other) tt
    | inr same ↦
        rw (long, same)
          (balance_loop-Ahead (at p) (at (next p)) 1 (s + 1) s (drop (s + 1) ms.src) ms
            (omega arith) (omega (arith, length-drop (s + 1) ms.src)))
  ]
]

back_reference-Ahead :
    (ms : MatchState) (s i : ℕ) (l : CapLen)
    → s ≤ size ms
    → Ahead ms s (back_reference ms s (record { init = i; len = l }))
unfolding back_reference
back_reference-Ahead ms s i unfinished h = tt
back_reference-Ahead ms s i position h = tt
back_reference-Ahead ms s i (CapLen.len n) h =
    elim (Bool-cases (leb n (length ms.src - s) && same_bytes n (drop i ms.src) (drop s ms.src))) [
      | inl same ↦ rw same (omega arith, ground arith)
      | inr other ↦ rw other tt
    ]

check_capture-ends : (ms : MatchState) (l : ℕ) → Sure (λ i. Unit {0}) (check_capture ms l)
unfolding check_capture
check_capture-ends ms l =
    elim (Bool-cases
      (ltb l b'1' || leb ms.level (l - b'1') || is_unfinished (capture_at ms (l - b'1')).len)) [
        | inl bad ↦ rw bad tt
        | inr fine ↦ rw fine tt
      ]

pub match_capture-Sure :
    (ms : MatchState) (s l : ℕ) → s ≤ size ms → Sure (Ahead ms s) (match_capture ms s l)
unfolding match_capture
match_capture-Sure ms s l h = go (check_capture ms l) (check_capture-ends ms l)
  where
    go :
        (r : Result ℕ)
        → Sure (λ i. Unit {0}) r
        → Sure (Ahead ms s) (r >>= λ l'. ok (back_reference ms s (capture_at ms l')))
    go (ok i) k = back_reference-Ahead ms s (capture_at ms i).init (capture_at ms i).len h
    go (err m) k = tt
    go out_of_fuel k = k

-- Of two results.
either :
    (t : Bool) (a b : Result (List ℕ))
    → a ≢ out_of_fuel
    → b ≢ out_of_fuel
    → (if t then a else b) ≢ out_of_fuel
either true a b h k = h
either false a b h k = k

bracket_end-ends : (p : List ℕ) → bracket_end p ≢ out_of_fuel
unfolding bracket_end
bracket_end-ends [] h = cc
bracket_end-ends (c ∷ []) h = cc
bracket_end-ends (c ∷ d ∷ p) h =
    either (c == 0) _ _ (λ e. cc)
      (either (c == b'%' && not (d == 0)) _ _
        (either (at p == b']') _ _ (λ e. cc) (bracket_end-ends p))
        (either (d == b']') _ _ (λ e. cc) (bracket_end-ends (d ∷ p))))
      h

classend-ends : (p : List ℕ) → classend p ≢ out_of_fuel
unfolding classend
classend-ends [] h = cc
classend-ends (c ∷ p) h =
    either (c == b'%') _ _ (either (at p == 0) _ _ (λ e. cc) (λ e. cc))
      (either (c == b'[') _ _ (bracket_end-ends (if at p == b'^' then next p else p)) (λ e. cc)) h

pub classend-Sure : (p : List ℕ) → at p ≢ 0 → Sure (λ ep. length ep < length p) (classend p)
classend-Sure p nz = go (classend p) refl
  where
    go : (r : Result (List ℕ)) → classend p ≡ r → Sure (λ ep. length ep < length p) r
    go (ok ep) e = classend-shorter p ep nz e
    go (err m) e = tt
    go out_of_fuel e = classend-ends p e

pub size-next : (p : List ℕ) → at p ≢ 0 → length (next p) < length p
size-next [] h = absurd (h refl)
size-next (c ∷ p) h = omega arith

module _ (n : ℕ) (init : Matcher) (good : GoodBelow n init) where
  pub enter-Good : GoodBelow n (enter init)
  unfolding enter
  enter-Good ms s p h v = elim (Bool-cases (ltb lj_max_xlevel (ms.depth + 1))) [
    | inl deep ↦ rw deep tt
    | inr shallow ↦ rw shallow (finish (init entered s p) (good entered s p h entered_valid))
  ]
    where
      entered : MatchState
      entered = record ms { depth = ms.depth + 1 }

      entered_valid : IsValid entered s
      entered_valid = record {
        inside = v.inside;
        slots = v.slots;
        level = v.level;
        starts = v.starts;
        fits = v.fits;
      }

      finish :
          (r : Result Found)
          → Good entered s r
          → Good ms s (r >>= λ (o, ms'). ok (o, record ms' { depth = ms'.depth - 1 }))
      finish (ok (none, m)) g = record {
        src = g.src;
        depth = omega (arith, g.depth);
        level = g.level;
        slots = g.slots;
        captures = g.captures;
      }
      finish (ok (some e, m)) g = record {
        src = g.src;
        depth = omega (arith, g.depth);
        forward = g.forward;
        valid = record {
          inside = g.valid.inside;
          slots = g.valid.slots;
          level = g.valid.level;
          starts = g.valid.starts;
          fits = g.valid.fits;
        };
      }
      finish (err m) g = tt
      finish out_of_fuel g = g

  pub go_on-Good :
      (ms : MatchState) (s : ℕ) (p : List ℕ) (o : Option ℕ)
      → length p < n
      → IsValid ms s
      → Ahead ms s o
      → Good ms s (go_on init ms p o)
  go_on-Good ms s p none h v a = Undone-refl ms
  go_on-Good ms s p (some e) h v (a, b) =
      Good-from ms ms s e (init ms e p) (Undone-refl ms) a (good ms e p h (IsValid-later e v a b))

  pub frontier-Good :
      (ms : MatchState) (s : ℕ) (p : List ℕ)
      → length p < suc n
      → IsValid ms s
      → Good ms s (frontier init ms s p)
  unfolding frontier
  frontier-Good ms s p h v = elim (Bool-cases (at p == b'[')) [
    | inl bracket ↦ rw bracket (
        bind-Good ms s (classend p) _ (classend-Sure p (ground arith))
          λ ep l. after ep _ (good ms s ep (omega arith) v))
    | inr other ↦ rw other tt
  ]
    where
      after :
          (ep : List ℕ) (t : Bool)
          → Good ms s (init ms s ep)
          → Good ms s (if t then ok (none, ms) else init ms s ep)
      after ep true g = Undone-refl ms
      after ep false g = g

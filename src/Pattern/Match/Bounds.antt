-- ===== src/Pattern/Match/Bounds.antt =====
-- Valid states of the matcher, and the states that a match or a failure leaves.
use qyz_client_lua.Base.{
  ℕ, zero, suc, ◌+◌, ◌-◌, ◌<◌, ◌≤◌, ◌≡◌, ◌≢◌, inl, inr, refl, sym, ◌∙◌, Bool, true, false, not,
  ◌&&◌, List, [], ◌∷◌, none, some, ◌==◌, if◌then◌else◌, drop, length, arith, Bool-cases,
}
use qyz_client_lua.Pattern.Class.{
  at, next, Result, ok, err, out_of_fuel, ◌>>=◌, bracket_end, classend, singlematch,
}
use qyz_client_lua.Pattern.Match.{
  CapLen, MatchState, lua_maxcaptures, Found, Matcher, byte, capture_at, run_length, try_down,
  max_expand, min_loop, escape,
}

abbrev pub size : MatchState → ℕ
size ms = length ms.src

abbrev pub Fits : ℕ → ℕ → CapLen → Type 0
Fits n i (CapLen.len k) = i + k ≤ n
Fits n i _ = Unit {0}

-- The captures lie within the subject, and start at `s` at the latest.
pub record IsValid (ms : MatchState) (s : ℕ) : Type 0 where
  pub inside : s ≤ size ms
  pub slots : length ms.capture ≡ lua_maxcaptures
  pub level : ms.level ≤ lua_maxcaptures
  pub starts : (i : ℕ) → i < ms.level → (capture_at ms i).init ≤ s
  pub fits : (i : ℕ) → i < ms.level → Fits (size ms) (capture_at ms i).init (capture_at ms i).len

-- A state that a failed match leaves: that from before, but for captures that are not in use.
pub record Undone (ms ms' : MatchState) : Type 0 where
  pub src : ms'.src ≡ ms.src
  pub depth : ms'.depth ≡ ms.depth
  pub level : ms'.level ≡ ms.level
  pub slots : length ms'.capture ≡ length ms.capture
  pub captures : (i : ℕ) → i < ms.level → capture_at ms' i ≡ capture_at ms i

-- A state that a match from `s` to `e` leaves.
pub record Done (ms : MatchState) (s e : ℕ) (ms' : MatchState) : Type 0 where
  pub src : ms'.src ≡ ms.src
  pub depth : ms'.depth ≡ ms.depth
  pub forward : s ≤ e
  pub valid : IsValid ms' e

-- Success, failure or a Lua error; the rounds were enough.
abbrev pub Good : MatchState → ℕ → Result Found → Type 0
Good ms s (ok (none, ms')) = Undone ms ms'
Good ms s (ok (some e, ms')) = Done ms s e ms'
Good ms s (err m) = Unit {0}
Good ms s out_of_fuel = ⊥

pub Undone-refl : (ms : MatchState) → Undone ms ms
Undone-refl ms = record {
  src = refl;
  depth = refl;
  level = refl;
  slots = refl;
  captures = λ i h. refl;
}

pub Undone-trans : {a b c : MatchState} → Undone a b → Undone b c → Undone a c
Undone-trans {a} p q = record {
  src = q.src ∙ p.src;
  depth = q.depth ∙ p.depth;
  level = q.level ∙ p.level;
  slots = q.slots ∙ p.slots;
  captures = λ i h. q.captures i (omega (arith, p.level)) ∙ p.captures i h;
}

pub IsValid-Undone : {ms ms' : MatchState} {s : ℕ} → IsValid ms s → Undone ms ms' → IsValid ms' s
IsValid-Undone v u = record {
  inside = rw u.src v.inside;
  slots = u.slots ∙ v.slots;
  level = rw u.level v.level;
  starts = λ i h. rw (u.captures i (omega (arith, u.level))) (v.starts i (omega (arith, u.level)));
  fits =
      λ i h. rw (u.src, u.captures i (omega (arith, u.level))) (v.fits i (omega (arith, u.level)));
}

pub IsValid-later :
    {ms : MatchState} {s : ℕ} (e : ℕ) → IsValid ms s → s ≤ e → e ≤ size ms → IsValid ms e
IsValid-later e v h k = record {
  inside = k;
  slots = v.slots;
  level = v.level;
  starts = λ i l. omega (arith, v.starts i l);
  fits = v.fits;
}

-- A result from a later position, in a state that a failed try left.
pub Good-from :
    (ms ms' : MatchState) (s s' : ℕ) (r : Result Found)
    → Undone ms ms'
    → s ≤ s'
    → Good ms' s' r
    → Good ms s r
Good-from ms ms' s s' (ok (none, m)) u h g = Undone-trans u g
Good-from ms ms' s s' (ok (some e, m)) u h g = record {
  src = g.src ∙ u.src;
  depth = g.depth ∙ u.depth;
  forward = omega (arith, g.forward);
  valid = g.valid;
}
Good-from ms ms' s s' (err m) u h g = tt
Good-from ms ms' s s' out_of_fuel u h g = g

-- A try, and what is done if it fails.
pub or_else :
    (ms : MatchState) (s s' : ℕ) (r : Result Found) (k : MatchState → Result Found)
    → s ≤ s'
    → Good ms s' r
    → ((ms' : MatchState) → Undone ms ms' → Good ms s (k ms'))
    → Good ms s (r >>= λ (o, ms'). elim o [ none ↦ k ms' | some e ↦ ok (some e, ms') ])
or_else ms s s' (ok (none, m)) k h g f = f m g
or_else ms s s' (ok (some e, m)) k h g f =
    Good-from ms ms s s' (ok (some e, m)) (Undone-refl ms) h g
or_else ms s s' (err m) k h g f = tt
or_else ms s s' out_of_fuel k h g f = g

-- Matchers that are good on patterns shorter than `n`.
abbrev pub GoodBelow : ℕ → Matcher → Type 0
GoodBelow n m =
    (ms : MatchState) (s : ℕ) (p : List ℕ) → length p < n → IsValid ms s → Good ms s (m ms s p)

pub next-le : (p : List ℕ) → length (next p) ≤ length p
next-le [] = omega arith
next-le (c ∷ p) = omega arith

ok_injective : {A : Type 0} {a b : A} → Result.ok a ≡ ok b → a ≡ b
ok_injective e = cc

-- One way out of the loop of `classend`, or a further round.
loop_exit :
    (t : Bool) (p q ep : List ℕ) (rest : Result (List ℕ)) (n : ℕ)
    → length p < n
    → (rest ≡ ok ep → length ep < n)
    → (if t then ok p else rest) ≡ ok ep
    → length ep < n
loop_exit true p q ep rest n h k e = rw (sym (ok_injective e)) h
loop_exit false p q ep rest n h k e = k e

bracket_end-shorter : (p ep : List ℕ) → bracket_end p ≡ ok ep → length ep < length p
unfolding bracket_end
bracket_end-shorter [] ep h = cc
bracket_end-shorter (c ∷ []) ep h = cc
bracket_end-shorter (c ∷ d ∷ p) ep h = elim (Bool-cases (c == 0)) [
  | inl z ↦ cc (rw z at h)
  | inr nz ↦ elim (Bool-cases (c == b'%' && not (d == 0))) [
    | inl escape ↦
        loop_exit (at p == b']') (next p) p ep (bracket_end p) (suc (suc (length p)))
          (omega (arith, next-le p)) (λ e. omega (arith, bracket_end-shorter p ep e))
          (rw (nz, escape) at h)
    | inr plain ↦
        loop_exit (d == b']') p p ep (bracket_end (d ∷ p)) (suc (suc (length p))) (omega arith)
          (λ e. omega (arith, bracket_end-shorter (d ∷ p) ep e)) (rw (nz, plain) at h)
  ]
]

pub classend-shorter : (p ep : List ℕ) → at p ≢ 0 → classend p ≡ ok ep → length ep < length p
unfolding classend
classend-shorter [] ep nz h = absurd (nz refl)
classend-shorter (c ∷ p) ep nz h = elim (Bool-cases (c == b'%')) [
  | inl esc ↦ elim (Bool-cases (at p == 0)) [
    | inl z ↦ cc (rw (esc, z) at h)
    | inr more ↦ rw (sym (ok_injective (rw (esc, more) at h))) (omega (arith, next-le p))
  ]
  | inr other ↦ elim (Bool-cases (c == b'[')) [
    | inl bracket ↦ elim (Bool-cases (at p == b'^')) [
      | inl inverted ↦
          omega
            (arith, bracket_end-shorter (next p) ep (rw (other, bracket, inverted) at h), next-le p)
      | inr plain ↦ omega (arith, bracket_end-shorter p ep (rw (other, bracket, plain) at h))
    ]
    | inr plain ↦ rw (sym (ok_injective (rw (other, plain) at h))) (omega arith)
  ]
]

run_length-le : (cs p ep : List ℕ) → run_length cs p ep ≤ length cs
unfolding run_length
run_length-le [] p ep = omega arith
run_length-le (c ∷ cs) p ep = ground (arith, run_length-le cs p ep)

pub length-drop : {A : Type 0} (n : ℕ) (xs : List A) → length (drop n xs) ≡ length xs - n
length-drop zero xs = omega arith
length-drop (suc n) [] = omega arith
length-drop (suc n) (x ∷ xs) = omega (arith, length-drop n xs)

module _ (again : Matcher) (n : ℕ) (good : GoodBelow n again) where
  try_down-Good :
      (ms : MatchState) (s i : ℕ) (p : List ℕ)
      → length p < n
      → s + i ≤ size ms
      → IsValid ms s
      → Good ms s (try_down again ms s i p)
  unfolding try_down
  try_down-Good ms s zero p h k v = good ms s p h v
  try_down-Good ms s (suc i) p h k v =
      or_else ms s (s + suc i) (again ms (s + suc i) p) (λ ms'. try_down again ms' s i p)
        (omega arith) (good ms (s + suc i) p h (IsValid-later (s + suc i) v (omega arith) k))
        λ ms' u.
          Good-from ms ms' s s (try_down again ms' s i p) u (omega arith)
            (try_down-Good ms' s i p h (rw u.src (omega arith)) (IsValid-Undone v u))

  pub max_expand-Good :
      (ms : MatchState) (s : ℕ) (p ep : List ℕ)
      → length (next ep) < n
      → IsValid ms s
      → Good ms s (max_expand again ms s p ep)
  unfolding max_expand
  max_expand-Good ms s p ep h v =
      try_down-Good ms s (run_length (drop s ms.src) p ep) (next ep) h
        (omega (arith, run_length-le (drop s ms.src) p ep, length-drop s ms.src, v.inside)) v

  pub min_loop-Good :
      (ms : MatchState) (s left : ℕ) (p ep : List ℕ)
      → length (next ep) < n
      → s + left ≤ size ms
      → IsValid ms s
      → Good ms s (min_loop again ms s left p ep)
  unfolding min_loop
  min_loop-Good ms s zero p ep h k v = good ms s (next ep) h v
  min_loop-Good ms s (suc left) p ep h k v =
      or_else ms s s (again ms s (next ep))
        (λ ms'.
          if singlematch (byte ms' s) p ep
          then min_loop again ms' (s + 1) left p ep
          else ok (none, ms'))
        (omega arith) (good ms s (next ep) h v)
        λ ms' u. elim (Bool-cases (singlematch (byte ms' s) p ep)) [
          | inl more ↦ rw more (
              Good-from ms ms' s (s + 1) (min_loop again ms' (s + 1) left p ep) u (omega arith) (
                min_loop-Good ms' (s + 1) left p ep h (rw u.src (omega arith)) (
                  IsValid-later (s + 1) (IsValid-Undone v u) (omega arith)
                    (rw u.src (omega arith)))))
          | inr stop ↦ rw stop u
        ]

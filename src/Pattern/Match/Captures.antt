-- ===== src/Pattern/Match/Captures.antt =====
-- Opening and closing captures in valid states.
use qyz_client_lua.Base.{
  ℕ, zero, suc, ◌+◌, ◌-◌, ◌<◌, ◌≤◌, ◌≡◌, ◌≢◌, inl, inr, refl, sym, ap, ◌∙◌, true, List, none, some,
  leb, set, length, length-set, arith, Bool-cases, get_or-set_self, get_or-set_ne, ℕ_discrete,
}
use qyz_client_lua.Pattern.Class.{Result, ok, err, out_of_fuel, ◌>>=◌}
use qyz_client_lua.Pattern.Match.{
  CapLen, unfinished, position, Capture, MatchState, lua_maxcaptures, Found, Matcher, capture_at,
  is_unfinished, capture_to_close, start_capture, set_len, end_capture,
}
use qyz_client_lua.Pattern.Match.Bounds.{size, Fits, IsValid, Good, GoodBelow}

-- A result that is a value with a property, or a Lua error.
abbrev pub Sure : {A : Type 0} → (A → Type 0) → Result A → Type 0
Sure P (ok a) = P a
Sure P (err m) = Unit {0}
Sure P out_of_fuel = ⊥

pub bind-Good :
    {A : Type 0} {P : A → Type 0} (ms : MatchState) (s : ℕ) (r : Result A) (k : A → Result Found)
    → Sure P r
    → ((a : A) → P a → Good ms s (k a))
    → Good ms s (r >>= k)
bind-Good ms s (ok a) k h f = f a h
bind-Good ms s (err m) k h f = tt
bind-Good ms s out_of_fuel k h f = h

capture_to_close-Sure :
    (ms : MatchState) (n : ℕ)
    → Sure (λ l. (l < n) × ((capture_at ms l).len ≡ unfinished)) (capture_to_close ms n)
unfolding capture_to_close
capture_to_close-Sure ms zero = tt
capture_to_close-Sure ms (suc n) = elim (Bool-cases (is_unfinished (capture_at ms n).len)) [
  | inl opened ↦ rw opened (omega arith, is_unfinished_lem (capture_at ms n).len opened)
  | inr closed ↦ rw closed (weaken (capture_to_close ms n) (capture_to_close-Sure ms n))
]
  where
    is_unfinished_lem : (c : CapLen) → is_unfinished c ≡ true → c ≡ unfinished
    is_unfinished_lem unfinished h = refl
    is_unfinished_lem position h = cc
    is_unfinished_lem (CapLen.len k) h = cc

    weaken :
        (r : Result ℕ)
        → Sure (λ l. (l < n) × ((capture_at ms l).len ≡ unfinished)) r
        → Sure (λ l. (l < suc n) × ((capture_at ms l).len ≡ unfinished)) r
    weaken (ok l) (b, c) = (omega arith, c)
    weaken (err m) h = tt
    weaken out_of_fuel h = h

module _ (again : Matcher) (n : ℕ) (good : GoodBelow n again) where
  pub start_capture-Good :
      (ms : MatchState) (s : ℕ) (p : List ℕ) (what : CapLen)
      → length p < n
      → Fits (size ms) s what
      → IsValid ms s
      → Good ms s (start_capture again ms s p what)
  unfolding start_capture
  start_capture-Good ms s p what h f v = elim (Bool-cases (leb lua_maxcaptures ms.level)) [
    | inl full ↦ rw full tt
    | inr room ↦
        rw room (finish (again opened s p) (good opened s p h (opened_valid (ground arith))))
  ]
    where
      opened : MatchState
      opened = record ms {
        level = ms.level + 1;
        capture = set ms.capture ms.level (record { init = s; len = what });
      }

      other : (i : ℕ) → i ≢ ms.level → capture_at opened i ≡ capture_at ms i
      other i ne =
          get_or-set_ne ms.capture ms.level i (record { init = s; len = what })
            (record { init = 0; len = unfinished }) (λ e. ne (sym e))

      own :
          ms.level < lua_maxcaptures → capture_at opened ms.level ≡ record { init = s; len = what }
      own room = get_or-set_self ms.capture ms.level _ _ (omega (arith, v.slots))

      starts :
          ms.level < lua_maxcaptures → (i : ℕ) → i < ms.level + 1 → (capture_at opened i).init ≤ s
      starts room i l = elim (ℕ_discrete i ms.level) [
        | yes e ↦ rw (e, own room) (omega arith)
        | no ne ↦ rw (other i ne) (v.starts i (omega arith))
      ]

      fits :
          ms.level < lua_maxcaptures
          → (i : ℕ) → i < ms.level + 1
          → Fits (size ms) (capture_at opened i).init (capture_at opened i).len
      fits room i l = elim (ℕ_discrete i ms.level) [
        | yes e ↦ rw (e, own room) f
        | no ne ↦ rw (other i ne) (v.fits i (omega arith))
      ]

      opened_valid : ms.level < lua_maxcaptures → IsValid opened s
      opened_valid room = record {
        inside = v.inside;
        slots = length-set ms.capture ms.level _ ∙ v.slots;
        level = omega arith;
        starts = starts room;
        fits = fits room;
      }

      finish :
          (r : Result Found)
          → Good opened s r
          → Good ms s (
              r >>= λ (o, ms'). elim o [
                | none ↦ ok (none, record ms' { level = ms'.level - 1 })
                | some e ↦ ok (some e, ms')
              ])
      finish (ok (none, m)) g = record {
        src = g.src;
        depth = g.depth;
        level = omega (arith, g.level);
        slots = g.slots ∙ length-set ms.capture ms.level _;
        captures = λ i l. g.captures i (omega arith) ∙ other i (λ e. omega arith);
      }
      finish (ok (some e, m)) g = record {
        src = g.src;
        depth = g.depth;
        forward = g.forward;
        valid = g.valid;
      }
      finish (err m) g = tt
      finish out_of_fuel g = g

  pub end_capture-Good :
      (ms : MatchState) (s : ℕ) (p : List ℕ)
      → length p < n
      → IsValid ms s
      → Good ms s (end_capture again ms s p)
  unfolding end_capture set_len
  end_capture-Good ms s p h v =
      bind-Good ms s (capture_to_close ms ms.level) _ (capture_to_close-Sure ms ms.level)
        λ l (b, begun).
          finish l b begun (again (closed l) s p) (good (closed l) s p h (closed_valid l b))
    where
      closed : ℕ → MatchState
      closed l = set_len ms l (CapLen.len (s - (capture_at ms l).init))

      slot :
          (ms' : MatchState) (l : ℕ) (c : Capture)
          → length ms'.capture ≡ lua_maxcaptures
          → l < lua_maxcaptures
          → capture_at (record ms' { capture = set ms'.capture l c }) l ≡ c
      slot ms' l c e b = get_or-set_self ms'.capture l c _ (omega (arith, e))

      other :
          (ms' : MatchState) (l : ℕ) (c : Capture) (i : ℕ)
          → i ≢ l
          → capture_at (record ms' { capture = set ms'.capture l c }) i ≡ capture_at ms' i
      other ms' l c i ne = get_or-set_ne ms'.capture l i c _ (λ e. ne (sym e))

      inside : (l : ℕ) → l < ms.level → l < lua_maxcaptures
      inside l b = omega (arith, v.level)

      closed_valid : (l : ℕ) → l < ms.level → IsValid (closed l) s
      closed_valid l b = record {
        inside = v.inside;
        slots = length-set ms.capture l _ ∙ v.slots;
        level = v.level;
        starts = λ i k. elim (ℕ_discrete i l) [
          | yes e ↦
              rw
                (
                  e,
                  slot ms l
                      (record {
                        init = (capture_at ms l).init;
                        len = CapLen.len (s - (capture_at ms l).init);
                      })
                      v.slots (inside l b),
                )
                (v.starts l b)
          | no ne ↦ rw (other ms l _ i ne) (v.starts i k)
        ];
        fits = λ i k. elim (ℕ_discrete i l) [
          | yes e ↦
              rw
                (
                  e,
                  slot ms l
                      (record {
                        init = (capture_at ms l).init;
                        len = CapLen.len (s - (capture_at ms l).init);
                      })
                      v.slots (inside l b),
                )
                (omega (arith, v.starts l b, v.inside))
          | no ne ↦ rw (other ms l _ i ne) (v.fits i k)
        ];
      }

      finish :
          (l : ℕ)
          → l < ms.level
          → (capture_at ms l).len ≡ unfinished
          → (r : Result Found) → Good (closed l) s r
          → Good ms s (
              r >>= λ (o, ms'). elim o [
                | none ↦ ok (none, set_len ms' l unfinished)
                | some e ↦ ok (some e, ms')
              ])
      finish l b begun (ok (none, m)) g = record {
        src = g.src;
        depth = g.depth;
        level = g.level;
        slots = length-set m.capture l _ ∙ g.slots ∙ length-set ms.capture l _;
        captures = λ i k. elim (ℕ_discrete i l) [
          | yes e ↦ rw e (
              slot m l _ (g.slots ∙ length-set ms.capture l _ ∙ v.slots) (inside l b)
              ∙ ap (λ c. record { init = c.init; len = unfinished })
                  (g.captures l b ∙ slot ms l _ v.slots (inside l b))
              ∙ ap (λ k. record { init = (capture_at ms l).init; len = k }) (sym begun))
          | no ne ↦ other m l _ i ne ∙ g.captures i k ∙ other ms l _ i ne
        ];
      }
      finish l b begun (ok (some e, m)) g = record {
        src = g.src;
        depth = g.depth;
        forward = g.forward;
        valid = g.valid;
      }
      finish l b begun (err m) g = tt
      finish l b begun out_of_fuel g = g

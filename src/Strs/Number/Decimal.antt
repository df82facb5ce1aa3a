-- ===== src/Strs/Number/Decimal.antt =====
-- The text of an integer, read as a decimal number.
use mathlib.Core.Option as Option
use native.Mathlib.Nat.{pow-suc}
use qyz_client_lua.Base.{
  ◌⊎◌, All, sym, ℕ, ℤ, pos, negsuc, zero, suc, ◌+◌, ◌-◌, ◌*◌, ◌/◌, ◌%◌, ◌^◌, ◌<◌, ◌≤◌, ◌≡◌, refl,
  ap, ◌∙◌, inl, inr, false, some, List, [], ◌∷◌, ◌==◌, if◌then◌else◌, length, arith, Bool-cases,
}
use qyz_client_lua.Strs.Number.{digit_loop, lj_str_bufint}

-- The number that decimal digits stand for, behind digits that stand for `a`.
unfoldable pub decimal : ℕ → List ℕ → ℕ
decimal a [] = a
decimal a (c ∷ s) = decimal (a * 10 + (c - b'0')) s

abbrev pub minus : ℕ → ℤ
minus zero = pos 0
minus (suc n) = negsuc n

-- The integer of a text with an optional sign.
unfoldable pub decimal_int : List ℕ → ℤ
decimal_int [] = pos 0
decimal_int (c ∷ s) = if c == b'-' then minus (decimal 0 s) else pos (decimal 0 (c ∷ s))

abbrev pub IsDigit : ℕ → Type 0
IsDigit c = (b'0' ≤ c) × (c ≤ b'9')

-- The text begins with a digit that is not 0.
abbrev pub StartsWithNonzero : List ℕ → Type 0
StartsWithNonzero [] = ⊥
StartsWithNonzero (c ∷ s) = b'0' < c

-- The one way to write an integer: 0, or digits without a 0 in front, behind a sign or not.
abbrev pub IsNumeral : List ℕ → Type 0
IsNumeral s =
    (s ≡ b'0' ∷ [])
    ⊎ (StartsWithNonzero s × All IsDigit s)
    ⊎ ((t : List ℕ) × (s ≡ b'-' ∷ t) × StartsWithNonzero t × All IsDigit t)

-- The text begins with a digit.
abbrev StartsWithDigit : List ℕ → Type 0
StartsWithDigit [] = ⊥
StartsWithDigit (c ∷ s) = b'0' ≤ c

rounds_left : (rounds u : ℕ) → u < 10 ^ suc rounds → (u / 10 == 0) ≡ false → 0 < rounds
rounds_left zero u h e = absurd (ground arith)
rounds_left (suc rounds) u h e = omega arith

zero_or : (u : ℕ) → u / 10 ≡ 0 → (u ≡ 0) ⊎ (b'0' < b'0' + u % 10)
zero_or zero e = inl refl
zero_or (suc u) e = inr (omega arith)

digit_loop_lem :
    (rounds u : ℕ) (p : List ℕ)
    → u < 10 ^ rounds
    → 0 < rounds
    → All IsDigit p
    → (s : List ℕ) × (digit_loop rounds u p ≡ some s)
      × (decimal 0 s ≡ decimal u p)
      × (length s ≤ rounds + length p)
      × StartsWithDigit s
      × All IsDigit s
      × ((u ≡ 0) ⊎ StartsWithNonzero s)
unfolding digit_loop decimal
digit_loop_lem zero u p h r d = absurd (omega arith)
digit_loop_lem (suc rounds) u p h r d = elim (Bool-cases (u / 10 == 0)) [
  | inl last ↦
      let e : 0 * 10 + (b'0' + u % 10 - b'0') ≡ u = ground arith in
      rw last (
        (b'0' + u % 10) ∷ p,
        refl,
        ap (λ (a : ℕ). decimal a p) e,
        omega arith,
        omega arith,
        ((omega arith, omega arith), d),
        zero_or u (ground arith),
      )
  | inr more ↦
      let e : u / 10 * 10 + (b'0' + u % 10 - b'0') ≡ u = omega arith in
      let (s, run, value, len, start, digits, lead) =
        digit_loop_lem rounds (u / 10) ((b'0' + u % 10) ∷ p) (omega (arith, pow-suc 10 rounds))
          (rounds_left rounds u h more) ((omega arith, omega arith), d) in
      rw more (
        s,
        run,
        value ∙ ap (λ (a : ℕ). decimal a p) e,
        omega arith,
        start,
        digits,
        elim lead [ inl z ↦ absurd (ground arith) | inr l ↦ inr l ],
      )
]

-- A digit is no sign.
decimal_int-digits : (s : List ℕ) → StartsWithDigit s → decimal_int s ≡ pos (decimal 0 s)
unfolding decimal_int
decimal_int-digits [] h = elim h [ ]
decimal_int-digits (c ∷ s) h = let digit : (c == b'-') ≡ false = ground arith in rw digit refl

abbrev pub IsInt32 : ℤ → Type 0
IsInt32 (pos n) = n < 2 ^ 31
IsInt32 (negsuc n) = n < 2 ^ 31

-- The numeral for 0 is the digit alone.
zero_or_nonzero :
    (u : ℕ) (s : List ℕ)
    → digit_loop 10 u [] ≡ some s
    → (u ≡ 0) ⊎ StartsWithNonzero s
    → All IsDigit s
    → IsNumeral s
unfolding digit_loop
zero_or_nonzero u s run (inl e) d = inl (some_same (sym run ∙ ap (λ k. digit_loop 10 k []) e))
  where
    some_same : {s t : List ℕ} → some s ≡ some t → s ≡ t
    some_same e = cc e
zero_or_nonzero u s run (inr l) d = inr (inl (l, d))

-- Every 32-bit integer has a text of at most 11 bytes. It is the decimal form of the integer: digits
-- without a 0 in front, behind a sign if the integer is negative, which stand for the integer.
pub lj_str_bufint-decimal_int :
    (k : ℤ)
    → IsInt32 k
    → (s : List ℕ) × (lj_str_bufint k ≡ some s)
      × IsNumeral s
      × (decimal_int s ≡ k)
      × (length s ≤ 11)
unfolding lj_str_bufint decimal decimal_int
lj_str_bufint-decimal_int (pos n) h =
    let (s, run, value, len, start, digits, lead) =
      digit_loop_lem 10 n [] (omega arith) (omega arith) tt in
    (
      s,
      run,
      zero_or_nonzero n s run lead digits,
      decimal_int-digits s start ∙ ap pos value,
      omega arith,
    )
lj_str_bufint-decimal_int (negsuc n) h =
    let (s, run, value, len, start, digits, lead) =
      digit_loop_lem 10 (suc n) [] (omega arith) (omega arith) tt in
    (
      b'-' ∷ s,
      ap (Option.map (λ p. b'-' ∷ p)) run,
      elim lead [ inl z ↦ absurd (omega arith) | inr l ↦ inr (inr (s, refl, l, digits)) ],
      ap minus value,
      omega arith,
    )

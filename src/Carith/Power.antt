-- ===== src/Carith/Power.antt =====
-- Powers of 64-bit integers.
use native.Mathlib.Nat.{pow-suc, pow-zero, mod-eq_of_lt, mod-mod, mul_assoc, mul_comm}
use qyz_client_lua.Base.{
  ◌⊎◌, ◌-◌, refl, true, ℕ, zero, suc, ◌*◌, ◌/◌, ◌%◌, ◌^◌, ◌<◌, ◌≡◌, sym, ap, ◌∙◌, inl, inr, arith,
  false, ◌==◌, if◌then◌else◌, Bool-cases,
}
use qyz_client_lua.Base.Pow.{pow-one, pow-double, mul-mod_left, mul-mod_right, pow-mod}
use qyz_client_lua.Carith.{
  u64, int64_min, minus_one, magnitude, is_neg, mul64, pow_odd, pow_even, lj_carith_powu64,
  lj_carith_powi64,
}

-- One squaring: the power of the reduced square is that of the square.
square_mod : (x k y : ℕ) → y * (mul64 x x) ^ k % u64 ≡ y * (x * x) ^ k % u64
square_mod x k y =
    sym (mul-mod_right u64 y ((mul64 x x) ^ k))
    ∙ ap (λ (t : ℕ). y * t % u64) (pow-mod u64 (x * x) k)
    ∙ mul-mod_right u64 y ((x * x) ^ k)

-- One round of the second loop, in its two cases; `s` is the reduced square.
even_round :
    (x k y : ℕ) → k % 2 ≡ 0 → y * (mul64 x x * mul64 x x) ^ (k / 2) % u64 ≡ y * (x * x) ^ k % u64
even_round x k y e =
    ap (λ (t : ℕ). y * t % u64)
      (pow-double (mul64 x x) (k / 2) ∙ ap (λ (n : ℕ). (mul64 x x) ^ n) (omega arith))
    ∙ square_mod x k y

odd_round :
    (x k y : ℕ)
    → k % 2 ≡ 1
    → mul64 y (mul64 x x) * (mul64 x x * mul64 x x) ^ (k / 2) % u64 ≡ y * (x * x) ^ k % u64
odd_round x k y e =
    mul-mod_left u64 (y * mul64 x x) ((mul64 x x * mul64 x x) ^ (k / 2))
    ∙ ap (λ (t : ℕ). t % u64) regroup
    ∙ square_mod x k y
  where
    odd : k ≡ suc (2 * (k / 2))
    odd = omega arith

    regroup : y * mul64 x x * (mul64 x x * mul64 x x) ^ (k / 2) ≡ y * (mul64 x x) ^ k
    regroup =
        ap (λ (t : ℕ). y * mul64 x x * t) (pow-double (mul64 x x) (k / 2))
        ∙ mul_assoc y (mul64 x x) ((mul64 x x) ^ (2 * (k / 2)))
        ∙ ap (λ (t : ℕ). y * t)
            (mul_comm (mul64 x x) ((mul64 x x) ^ (2 * (k / 2)))
              ∙ sym (pow-suc (mul64 x x) (2 * (k / 2)))
              ∙ ap (λ (n : ℕ). (mul64 x x) ^ n) (sym odd))

pow_odd_lem :
    (rounds x k y : ℕ) → 0 < k → k < 2 ^ rounds → pow_odd rounds x k y % u64 ≡ y * (x * x) ^ k % u64
unfolding pow_odd
pow_odd_lem zero x k y h p = absurd (omega arith)
pow_odd_lem (suc rounds) x k y h p = elim (Bool-cases (k == 1)) [
  | inl last ↦ rw last (
      let one : 1 ≡ k = ground arith in
      ap (λ (t : ℕ). t % u64 % u64) (ap (λ (t : ℕ). y * t) (sym (pow-one (mul64 x x))))
      ∙ mod-mod (y * (mul64 x x) ^ 1) u64
      ∙ square_mod x 1 y
      ∙ ap (λ (n : ℕ). y * (x * x) ^ n % u64) one)
  | inr more ↦ elim (Bool-cases (k % 2 == 1)) [
    | inl odd ↦
        rw (more, odd)
          (pow_odd_lem rounds (mul64 x x) (k / 2) (mul64 y (mul64 x x)) (ground arith)
              (ground (arith, pow-suc 2 rounds))
            ∙ odd_round x k y (ground arith))
    | inr even ↦
        rw (more, even)
          (pow_odd_lem rounds (mul64 x x) (k / 2) y (ground arith)
              (ground (arith, pow-suc 2 rounds))
            ∙ even_round x k y (ground arith))
  ]
]

pow_odd-lt : (rounds x k y : ℕ) → y < u64 → pow_odd rounds x k y < u64
unfolding pow_odd
pow_odd-lt zero x k y h = h
pow_odd-lt (suc rounds) x k y h =
    ground
      (arith, pow_odd-lt rounds (mul64 x x) (k / 2) (if k % 2 == 1 then mul64 y (mul64 x x) else y))

pow_even_lem :
    (rounds x k : ℕ) → 0 < k → k < 2 ^ rounds → k < u64 → pow_even rounds x k % u64 ≡ x ^ k % u64
unfolding pow_even
pow_even_lem zero x k h p r = absurd (omega arith)
pow_even_lem (suc rounds) x k h p r = elim (Bool-cases (k % 2 == 0)) [
  | inl even ↦ rw even (
      pow_even_lem rounds (mul64 x x) (k / 2) (ground arith) (ground (arith, pow-suc 2 rounds))
        (ground arith)
      ∙ pow-mod u64 (x * x) (k / 2)
      ∙ ap (λ (t : ℕ). t % u64) (pow-double x (k / 2) ∙ ap (λ (n : ℕ). x ^ n) (ground arith)))
  | inr odd ↦ elim (Bool-cases (k / 2 == 0)) [
    | inl last ↦
        rw (odd, last)
          (ap (λ (t : ℕ). t % u64) (sym (pow-one x) ∙ ap (λ (n : ℕ). x ^ n) (ground arith)))
    | inr more ↦
        rw (odd, more)
          (pow_odd_lem 64 x (k / 2) x (ground arith) (ground arith)
            ∙ ap (λ (t : ℕ). t % u64)
                (ap (λ (t : ℕ). x * t) (pow-double x (k / 2))
                  ∙ mul_comm x (x ^ (2 * (k / 2)))
                  ∙ sym (pow-suc x (2 * (k / 2)))
                  ∙ ap (λ (n : ℕ). x ^ n) (ground arith)))
  ]
]

pow_even-lt : (rounds x k : ℕ) → x < u64 → pow_even rounds x k < u64
unfolding pow_even
pow_even-lt zero x k h = h
pow_even-lt (suc rounds) x k h =
    ground (arith, pow_even-lt rounds (mul64 x x) (k / 2), pow_odd-lt 64 x (k / 2) x h)

-- For 64-bit words, `lj_carith_powu64` is the power modulo 2 ^ 64: both loops end within their 64
-- rounds.
pub powu64-pow : (x k : ℕ) → x < u64 → k < u64 → lj_carith_powu64 x k ≡ x ^ k % u64
unfolding lj_carith_powu64
powu64-pow x k hx hk = elim (Bool-cases (k == 0)) [
  | inl z ↦ rw z (ap (λ (t : ℕ). t % u64) (sym (pow-zero x) ∙ ap (λ (n : ℕ). x ^ n) (ground arith)))
  | inr nz ↦
      rw nz (sym (mod-eq_of_lt (pow_even-lt 64 x k hx)) ∙ pow_even_lem 64 x k (ground arith) hk hk)
]

-- The reciprocal of the power with exponent `n`, rounded towards 0: the inverse of a power of 1 or -1,
-- else 0; and 2 ^ 63 - 1 for the base 0.
abbrev pub IsReciprocal : ℕ → ℕ → ℕ → Type 0
IsReciprocal x n r =
    ((x ≡ 0) × (r ≡ int64_min - 1))
    ⊎ ((magnitude x ≡ 1) × (r * x ^ n % u64 ≡ 1) × (r < u64))
    ⊎ ((1 < magnitude x) × (r ≡ 0))

-- The power of a signed base, with a signed exponent.
abbrev pub IsSignedPower : ℕ → ℕ → ℕ → Type 0
IsSignedPower x k r =
    ((is_neg k ≡ false) × (r ≡ x ^ k % u64)) ⊎ ((is_neg k ≡ true) × IsReciprocal x (u64 - k) r)

one_power : (n : ℕ) → 1 ^ n % u64 ≡ 1
one_power zero = ap (λ (t : ℕ). t % u64) (pow-zero 1)
one_power (suc n) = omega (arith, pow-suc 1 n, one_power n)

abbrev sign_of : ℕ → ℕ
sign_of n = if n % 2 == 1 then minus_one else 1

sign_step : (n : ℕ) → sign_of n * minus_one % u64 ≡ sign_of (suc n)
sign_step n = elim (Bool-cases (n % 2 == 1)) [
  | inl odd ↦ let next : (suc n % 2 == 1) ≡ false = ground arith in rw (odd, next) refl
  | inr even ↦ let next : (suc n % 2 == 1) ≡ true = ground arith in rw (even, next) refl
]

minus_one_power : (n : ℕ) → minus_one ^ n % u64 ≡ sign_of n
minus_one_power zero = ap (λ (t : ℕ). t % u64) (pow-zero minus_one)
minus_one_power (suc n) =
    ap (λ (t : ℕ). t % u64) (pow-suc minus_one n)
    ∙ sym (mul-mod_left u64 (minus_one ^ n) minus_one)
    ∙ ap (λ (t : ℕ). t * minus_one % u64) (minus_one_power n)
    ∙ sign_step n

one_times : (t : ℕ) → 1 * t % u64 ≡ t % u64
one_times t = omega arith

sign_square : (n k : ℕ) → n % 2 ≡ k % 2 → sign_of k * sign_of n % u64 ≡ 1
sign_square n k e = rw e (square k)
  where
    square : (k : ℕ) → sign_of k * sign_of k % u64 ≡ 1
    square k = elim (Bool-cases (k % 2 == 1)) [ inl odd ↦ rw odd refl | inr even ↦ rw even refl ]

negative_power :
    (x k : ℕ)
    → x < u64
    → k < u64
    → is_neg k ≡ true
    → IsReciprocal x (u64 - k) (lj_carith_powi64 x k)
unfolding lj_carith_powi64
negative_power x k hx hk n =
    let nz : (k == 0) ≡ false = ground arith in
    elim (Bool-cases (x == 0)) [
      | inl z ↦ let e : x ≡ 0 = ground arith in rw (nz, n, z) (inl (e, refl))
      | inr xz ↦ elim (Bool-cases (x == 1)) [
        | inl one ↦
            let e : x ≡ 1 = ground arith in
            rw (nz, n, xz, one)
              (inr (
                inl (
                  ap magnitude e,
                  ap (λ (t : ℕ). 1 * t ^ (u64 - k) % u64) e
                      ∙ one_times (1 ^ (u64 - k))
                      ∙ one_power (u64 - k),
                  omega arith,
                )))
        | inr other ↦ elim (Bool-cases (x == minus_one)) [
          | inl minus ↦
              let e : x ≡ minus_one = ground arith in
              let parity : (u64 - k) % 2 ≡ k % 2 = ground arith in
              rw (nz, n, xz, other, minus)
                (inr (
                  inl (
                    ap magnitude e,
                    ap (λ (t : ℕ). sign_of k * t ^ (u64 - k) % u64) e
                        ∙ sym (mul-mod_right u64 (sign_of k) (minus_one ^ (u64 - k)))
                        ∙ ap (λ (t : ℕ). sign_of k * t % u64) (minus_one_power (u64 - k))
                        ∙ sign_square (u64 - k) k parity,
                    sign_of-lt k,
                  )))
          | inr large ↦
              rw (nz, n, xz, other, large) (inr (inr (large_magnitude x hx xz other large, refl)))
        ]
      ]
    ]
  where
    sign_of-lt : (k : ℕ) → sign_of k < u64
    sign_of-lt k = elim (Bool-cases (k % 2 == 1)) [
      | inl odd ↦ rw odd (omega arith)
      | inr even ↦ rw even (omega arith)
    ]

    large_magnitude :
        (x : ℕ)
        → x < u64
        → (x == 0) ≡ false
        → (x == 1) ≡ false
        → (x == minus_one) ≡ false
        → 1 < magnitude x
    large_magnitude x l a b c = elim (Bool-cases (is_neg x)) [
      | inl neg ↦ rw neg (ground arith)
      | inr pos ↦ rw pos (ground arith)
    ]

-- For 64-bit words, `lj_carith_powi64` is the power modulo 2 ^ 64 if the exponent is not negative, and
-- else the reciprocal of the power, rounded towards 0, with 2 ^ 63 - 1 for the base 0.
pub powi64-pow : (x k : ℕ) → x < u64 → k < u64 → IsSignedPower x k (lj_carith_powi64 x k)
unfolding lj_carith_powi64
powi64-pow x k hx hk = elim (Bool-cases (is_neg k)) [
  | inl n ↦ inr (n, negative_power x k hx hk n)
  | inr p ↦ inl (
    p,
    elim (Bool-cases (k == 0)) [
      | inl z ↦ rw z (sym (powu64_zero x k (ground arith)))
      | inr nz ↦ rw (nz, p) (powu64-pow x k hx hk)
    ],
  )
]
  where
    powu64_zero : (x k : ℕ) → k ≡ 0 → x ^ k % u64 ≡ 1
    powu64_zero x k e = ap (λ (n : ℕ). x ^ n % u64) e ∙ ap (λ (t : ℕ). t % u64) (pow-zero x)

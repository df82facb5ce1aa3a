-- ===== src/Carith/Division.antt =====
-- Division and remainder of 64-bit integers.
use qyz_client_lua.Base.{
  ◌⊎◌, ◌≤◌, refl, subst, ltb, true, false, some, ◌==◌, ℕ, ◌+◌, ◌-◌, ◌*◌, ◌/◌, ◌%◌, ◌<◌, ◌≡◌, ◌≢◌,
  inl, inr, sym, ap, ◌∙◌, arith, Bool-cases,
}
use qyz_client_lua.Base.Pow.{mul-mod_left}
use native.Mathlib.Nat.{
  div-add-mod, add-mul-mod_self_left, mod-eq_of_lt, mod-add-mod, mod-le, mod-lt, mul-le-mul_right,
  div-le_self,
}
use qyz_client_lua.Carith.{
  u64, int64_min, minus_one, is_neg, negate, magnitude, overflows, c_udiv, c_umod, signed_quotient,
  signed_remainder, c_div, c_mod, lj_carith_divu64, lj_carith_divi64, lj_carith_modu64,
  lj_carith_modi64,
}

-- The answers to a division: both words are the mark for a division by 0, or quotient and remainder.
abbrev pub IsUnsignedDivision : ℕ → ℕ → ℕ → ℕ → Type 0
IsUnsignedDivision a b q r =
    ((b ≡ 0) × (q ≡ int64_min) × (r ≡ int64_min)) ⊎ ((q * b + r ≡ a) × (r < b))

-- Unsigned division and modulo never run into what C leaves undefined: for the divisor 0 they give
-- 2 ^ 63, else the quotient and the remainder below the divisor.
pub divu64-modu64 :
    (a b : ℕ)
    → (q : ℕ) × (r : ℕ) × (lj_carith_divu64 a b ≡ some q)
      × (lj_carith_modu64 a b ≡ some r)
      × IsUnsignedDivision a b q r
unfolding lj_carith_divu64 lj_carith_modu64 c_udiv c_umod
divu64-modu64 a b = elim (Bool-cases (b == 0)) [
  | inl z ↦
      let e : b ≡ 0 = ground arith in
      (int64_min, int64_min, rw z refl, rw z refl, inl (e, refl, refl))
  | inr nz ↦
      let p : 0 < b = ground arith in
      (a / b, a % b, rw nz refl, rw nz refl, inr (omega (arith, div-add-mod a b), mod-lt a p))
]

mod_of : (x a u v : ℕ) → x + u64 * u ≡ a + u64 * v → a < u64 → x % u64 ≡ a
mod_of x a u v e h =
    sym (add-mul-mod_self_left x u64 u)
    ∙ ap (λ (t : ℕ). t % u64) e
    ∙ add-mul-mod_self_left a u64 v
    ∙ mod-eq_of_lt h

reduce_left : (x b y : ℕ) → (x % u64 * b + y) % u64 ≡ (x * b + y) % u64
reduce_left x b y =
    sym (mod-add-mod (x % u64 * b) u64 y)
    ∙ ap (λ (t : ℕ). (t + y) % u64) (mul-mod_left u64 x b)
    ∙ mod-add-mod (x * b) u64 y

reduce_right : (x y : ℕ) → (x + y % u64) % u64 ≡ (x + y) % u64
reduce_right x y = omega arith

-- The four sign cases, with `n` for negated values, `q` and `r` for those of the magnitudes.
module _ (a b q r : ℕ) (ha : a < u64) where
  pos_pos : a ≡ b * q + r → (q * b + r) % u64 ≡ a
  pos_pos e = mod_of (q * b + r) a 0 0 (omega arith) ha

  neg_neg : u64 - a ≡ (u64 - b) * q + r → b < u64 → r < u64 → (q * b + (u64 - r) % u64) % u64 ≡ a
  neg_neg e hb hr =
      reduce_right (q * b) (u64 - r)
      ∙ mod_of (q * b + (u64 - r)) a 0 q (omega (arith, ap (λ (t : ℕ). t * q) whole)) ha
    where
      whole : (u64 - b) + b ≡ u64
      whole = omega arith

  neg_pos :
      u64 - a ≡ b * q + r → q < u64 → r < u64 → ((u64 - q) % u64 * b + (u64 - r) % u64) % u64 ≡ a
  neg_pos e hq hr =
      reduce_right ((u64 - q) % u64 * b) (u64 - r)
      ∙ reduce_left (u64 - q) b (u64 - r)
      ∙ mod_of ((u64 - q) * b + (u64 - r)) a 0 b (omega (arith, ap (λ (t : ℕ). t * b) whole)) ha
    where
      whole : (u64 - q) + q ≡ u64
      whole = omega arith

  pos_neg : a ≡ (u64 - b) * q + r → q < u64 → b < u64 → ((u64 - q) % u64 * b + r) % u64 ≡ a
  pos_neg e hq hb =
      reduce_left (u64 - q) b r
      ∙ mod_of ((u64 - q) * b + r) a q b
          (omega (arith, ap (λ (t : ℕ). t * b) whole_q, ap (λ (t : ℕ). t * q) whole_b)) ha
    where
      whole_q : (u64 - q) + q ≡ u64
      whole_q = omega arith

      whole_b : (u64 - b) + b ≡ u64
      whole_b = omega arith

quotient-remainder :
    (a b : ℕ)
    → b ≢ 0
    → a < u64
    → b < u64
    → (signed_quotient a b * b + signed_remainder a b) % u64 ≡ a
unfolding signed_quotient signed_remainder
quotient-remainder a b h ha hb = elim (Bool-cases (is_neg a)) [
  | inl na ↦ elim (Bool-cases (is_neg b)) [
    | inl nb ↦
        rw (na, nb)
          (neg_neg a b ((u64 - a) / (u64 - b)) ((u64 - a) % (u64 - b)) ha (sym (div-add-mod _ _)) hb
            (omega (arith, mod-le (u64 - a) (u64 - b))))
    | inr pb ↦
        rw (na, pb)
          (neg_pos a b ((u64 - a) / b) ((u64 - a) % b) ha (sym (div-add-mod _ _))
            (ground (arith, div-le_self (u64 - a) b)) (ground (arith, mod-le (u64 - a) b)))
  ]
  | inr pa ↦ elim (Bool-cases (is_neg b)) [
    | inl nb ↦
        rw (pa, nb)
          (pos_neg a b (a / (u64 - b)) (a % (u64 - b)) ha (sym (div-add-mod _ _))
            (omega (arith, div-le_self a (u64 - b))) hb)
    | inr pb ↦ rw (pa, pb) (pos_pos a b (a / b) (a % b) ha (sym (div-add-mod _ _)))
  ]
]

-- A word up to 2 ^ 63 and its negative have it for magnitude.
magnitude-small : (x : ℕ) → x < int64_min → magnitude x ≡ x
magnitude-small x l = let plain : is_neg x ≡ false = ground arith in rw plain refl

magnitude-negate : (x : ℕ) → x ≤ int64_min → magnitude (negate x) ≡ x
magnitude-negate x l = elim (Bool-cases (x == 0)) [
  | inl z ↦ let e : x ≡ 0 = ground arith in rw e refl
  | inr nz ↦
      let w : (u64 - x) % u64 ≡ u64 - x = ground arith in
      let neg : is_neg (u64 - x) ≡ true = ground arith in
      let back : u64 - (u64 - x) ≡ x = omega arith in rw (w, neg, back) refl
]

magnitude-le : (a : ℕ) → a < u64 → magnitude a ≤ int64_min
magnitude-le a l = elim (Bool-cases (is_neg a)) [
  | inl e ↦ rw e (ground arith)
  | inr e ↦ rw e (ground arith)
]

magnitude_pos : (b : ℕ) → b ≢ 0 → b < u64 → 0 < magnitude b
magnitude_pos b h l = elim (Bool-cases (is_neg b)) [
  | inl e ↦ rw e (omega arith)
  | inr e ↦ rw e (omega arith)
]

both_least :
    (a b : ℕ) → a < u64 → b < u64 → overflows a b ≡ false → u64 - a ≡ int64_min → u64 - b ≡ 1 → ⊥
both_least a b la lb o x y =
    let e : a ≡ int64_min = omega arith in
    let f : b ≡ minus_one = omega arith in
    differ (sym (ap (λ z. overflows z b) e ∙ ap (overflows int64_min) f) ∙ o)
  where
    differ : true ≡ false → ⊥
    differ e = cc e

half_div : (x y : ℕ) → x ≤ int64_min → 0 < y → (x ≡ int64_min → y ≡ 1 → ⊥) → x / y < int64_min
half_div x y l p not_least = elim (Bool-cases (ltb 1 y)) [
  | inl e ↦
      let two : 2 ≤ y = ground arith in omega (arith, div-add-mod x y, mul-le-mul_right (x / y) two)
  | inr e ↦
      let one : y ≡ 1 = ground arith in
      let less : x < int64_min = below x l (λ z. not_least z one) in omega (arith, div-le_self x y)
]
  where
    below : (x : ℕ) → x ≤ int64_min → (x ≡ int64_min → ⊥) → x < int64_min
    below x l h = omega arith

-- The quotient does not overflow: 2 ^ 63 as a positive quotient is that of the least integer by -1.
quotient-magnitude :
    (a b : ℕ)
    → b ≢ 0
    → a < u64
    → b < u64
    → overflows a b ≡ false
    → magnitude (signed_quotient a b) ≡ magnitude a / magnitude b
unfolding signed_quotient
quotient-magnitude a b h la lb o =
    let bound : magnitude a / magnitude b ≤ int64_min =
      omega (arith, div-le_self (magnitude a) (magnitude b), magnitude-le a la) in
    elim (Bool-cases (is_neg a)) [
      | inl na ↦ elim (Bool-cases (is_neg b)) [
        | inl nb ↦
            rw (na, nb)
              (magnitude-small ((u64 - a) / (u64 - b)) (
                half_div (u64 - a) (u64 - b) (ground arith) (omega arith) (both_least a b la lb o)))
        | inr pb ↦ rw (na, pb) (magnitude-negate ((u64 - a) / b) (rw (na, pb) at bound))
      ]
      | inr pa ↦ elim (Bool-cases (is_neg b)) [
        | inl nb ↦ rw (pa, nb) (magnitude-negate (a / (u64 - b)) (rw (pa, nb) at bound))
        | inr pb ↦
            let small : a / b < int64_min = ground (arith, div-le_self a b) in
            rw (pa, pb) (magnitude-small (a / b) small)
      ]
    ]

-- The remainder has the sign of the dividend.
remainder_lem :
    (a b : ℕ)
    → b ≢ 0
    → a < u64
    → b < u64
    → (magnitude (signed_remainder a b) ≡ magnitude a % magnitude b)
      × ((signed_remainder a b ≡ 0) ⊎ (is_neg (signed_remainder a b) ≡ is_neg a))
unfolding signed_remainder
remainder_lem a b h la lb =
    let l = magnitude-le a la in
    let small : magnitude a % magnitude b ≤ int64_min =
      omega (arith, mod-le (magnitude a) (magnitude b)) in
    elim (Bool-cases (is_neg a)) [
      | inl na ↦
          let s : (u64 - a) % magnitude b ≤ int64_min = rw na at small in
          rw na (
            magnitude-negate ((u64 - a) % magnitude b) s,
            is_neg-negate ((u64 - a) % magnitude b) s,
          )
      | inr pa ↦
          let s : a % magnitude b < int64_min = ground (arith, mod-le a (magnitude b)) in
          let plain : is_neg (a % magnitude b) ≡ false = ground arith in
          rw pa (magnitude-small (a % magnitude b) s, inr plain)
    ]
  where
    is_neg-negate : (x : ℕ) → x ≤ int64_min → (negate x ≡ 0) ⊎ (is_neg (negate x) ≡ true)
    is_neg-negate x l = elim (Bool-cases (x == 0)) [
      | inl z ↦ let e : x ≡ 0 = ground arith in inl (rw e refl)
      | inr nz ↦
          let w : (u64 - x) % u64 ≡ u64 - x = ground arith in
          let neg : is_neg (u64 - x) ≡ true = ground arith in inr (rw (w, neg) refl)
    ]

-- The answers to a signed division: both words are the mark for a division by 0, or quotient and
-- remainder modulo 2 ^ 64, whose magnitudes are those of the division of the magnitudes; the
-- remainder is 0 or has the sign of the dividend.
abbrev pub IsSignedDivision : ℕ → ℕ → ℕ → ℕ → Type 0
IsSignedDivision a b q r =
    ((b ≡ 0) × (q ≡ int64_min) × (r ≡ int64_min))
    ⊎ (((q * b + r) % u64 ≡ a)
        × (magnitude q ≡ magnitude a / magnitude b)
        × (magnitude r < magnitude b)
        × ((r ≡ 0) ⊎ (is_neg r ≡ is_neg a)))

overflow_IsSignedDivision : (a b : ℕ) → overflows a b ≡ true → IsSignedDivision a b int64_min 0
overflow_IsSignedDivision a b o =
    let e : a ≡ int64_min = ground arith in
    let f : b ≡ minus_one = ground arith in
    subst (λ x. IsSignedDivision x b int64_min 0) (sym e)
      (subst (λ y. IsSignedDivision int64_min y int64_min 0) (sym f)
        (inr (refl, refl, omega arith, inl refl)))

-- Signed division and modulo of words never run into what C leaves undefined: for the divisor 0 they
-- give the word 2 ^ 63; else the quotient, rounded towards 0, and the remainder, with the sign of the
-- dividend; for the least integer by -1, where the quotient wraps around, they give this integer and 0.
pub divi64-modi64 :
    (a b : ℕ)
    → a < u64
    → b < u64
    → (q : ℕ) × (r : ℕ) × (lj_carith_divi64 a b ≡ some q)
      × (lj_carith_modi64 a b ≡ some r)
      × IsSignedDivision a b q r
unfolding lj_carith_divi64 lj_carith_modi64 c_div c_mod
divi64-modi64 a b la lb = elim (Bool-cases (b == 0)) [
  | inl z ↦
      let e : b ≡ 0 = ground arith in
      (int64_min, int64_min, rw z refl, rw z refl, inl (e, refl, refl))
  | inr nz ↦ elim (Bool-cases (overflows a b)) [
    | inl o ↦ (int64_min, 0, rw (nz, o) refl, rw (nz, o) refl, overflow_IsSignedDivision a b o)
    | inr o ↦
        let h : b ≢ 0 = nonzero b nz in
        let (m, sign) = remainder_lem a b h la lb in
        (
          signed_quotient a b,
          signed_remainder a b,
          rw (nz, o) refl,
          rw (nz, o) refl,
          inr (
            quotient-remainder a b h la lb,
            quotient-magnitude a b h la lb o,
            omega (arith, m, mod-lt (magnitude a) (magnitude_pos b h lb)),
            sign,
          ),
        )
  ]
]
  where
    nonzero : (b : ℕ) → (b == 0) ≡ false → b ≢ 0
    nonzero b e = λ q. ground arith

-- ===== src/Strs/Equal.antt =====
-- `str_fastcmp`, against the comparison of all bytes.
use qyz_client_lua.Base.{
  ℕ, zero, suc, ◌+◌, ◌-◌, ◌*◌, ◌%◌, ◌<◌, ◌≤◌, ◌≡◌, refl, sym, ap, ◌∙◌, inl, inr, true, false, ◌&&◌,
  leb, ◌==◌, ==_refl, ◌^◌, arith, Bool-cases,
}
use qyz_client_lua.Strs.{lj_getu32, fastcmp_loop, str_fastcmp, memcmp}
use qyz_client_lua.Strs.Compare.{AreBytes}

pub memcmp-at :
    (a b : ℕ → ℕ) (i rest j : ℕ) → memcmp a b i rest ≡ true → i ≤ j → j < i + rest → a j ≡ b j
unfolding memcmp
memcmp-at a b i zero j h l m = absurd (omega arith)
memcmp-at a b i (suc rest) j h l m = elim (Bool-cases (a i == b i)) [
  | inl same ↦ elim (Bool-cases (i == j)) [
    | inl here ↦ let e : i ≡ j = ground arith in rw (sym e) (ground arith)
    | inr later ↦ memcmp-at a b (i + 1) rest j (rw same at h) (ground arith) (omega arith)
  ]
  | inr other ↦ cc (rw other at h)
]

pub memcmp-of :
    (a b : ℕ → ℕ) (i rest : ℕ)
    → ((j : ℕ) → i ≤ j → j < i + rest → a j ≡ b j)
    → memcmp a b i rest ≡ true
unfolding memcmp
memcmp-of a b i zero h = refl
memcmp-of a b i (suc rest) h =
    rw
      (
        h i (omega arith) (omega arith),
        ==_refl (b i),
        memcmp-of a b (i + 1) rest (λ j l m. h j (omega arith) (omega arith)),
      )
      refl

-- The low bytes of a word.
low : (ℕ → ℕ) → ℕ → ℕ → ℕ
low a i zero = 0
low a i (suc k) = a i + low a (i + 1) k * 256

low-equal :
    (a b : ℕ → ℕ) (i k : ℕ) → AreBytes a → AreBytes b → (low a i k == low b i k) ≡ memcmp a b i k
unfolding low memcmp
low-equal a b i zero h g = refl
low-equal a b i (suc k) h g = elim (Bool-cases (a i == b i)) [
  | inl same ↦ rw (same, sym (low-equal a b (i + 1) k h g)) (ground (arith, h i, g i))
  | inr other ↦ rw other (ground (arith, h i, g i))
]

word-low : (a : ℕ → ℕ) (i : ℕ) → lj_getu32 a i ≡ low a i 4
unfolding lj_getu32 low
word-low a i =
    let e : i + 1 + 1 ≡ i + 2 = omega arith in
    let f : i + 2 + 1 ≡ i + 3 = omega arith in rw (e, f) (omega arith)

low-cut : (a : ℕ → ℕ) (i k : ℕ) → AreBytes a → k < 4 → lj_getu32 a i % 2 ^ (k * 8) ≡ low a i k
unfolding low
low-cut a i zero h l = omega arith
low-cut a i (suc zero) h l =
    rw (word-low a i) (omega (arith, h i, h (i + 1), h (i + 1 + 1), h (i + 1 + 1 + 1)))
low-cut a i (suc (suc zero)) h l =
    rw (word-low a i) (omega (arith, h i, h (i + 1), h (i + 1 + 1), h (i + 1 + 1 + 1)))
low-cut a i (suc (suc (suc zero))) h l =
    rw (word-low a i) (omega (arith, h i, h (i + 1), h (i + 1 + 1), h (i + 1 + 1 + 1)))
low-cut a i (suc (suc (suc (suc k)))) h l = absurd (omega arith)

memcmp-split :
    (a b : ℕ → ℕ) (i k r : ℕ) → memcmp a b i (k + r) ≡ (memcmp a b i k && memcmp a b (i + k) r)
unfolding memcmp
memcmp-split a b i zero r =
    let e : zero + r ≡ r = omega arith in let f : i + 0 ≡ i = omega arith in rw (e, f) refl
memcmp-split a b i (suc k) r =
    let e : suc k + r ≡ suc (k + r) = omega arith in
    let f : i + suc k ≡ i + 1 + k = omega arith in
    rw (e, f)
      (elim (Bool-cases (a i == b i)) [
        | inl same ↦ rw same (memcmp-split a b (i + 1) k r)
        | inr other ↦ rw other refl
      ])

word-equal :
    (a b : ℕ → ℕ) (i : ℕ)
    → AreBytes a
    → AreBytes b
    → (lj_getu32 a i == lj_getu32 b i) ≡ memcmp a b i 4
word-equal a b i h g = rw (word-low a i, word-low b i) (low-equal a b i 4 h g)

-- The last word, of which `k` bytes count.
fastcmp_short :
    (rounds : ℕ) (a b : ℕ → ℕ) (i k : ℕ)
    → AreBytes a
    → AreBytes b
    → k < 4
    → fastcmp_loop (suc rounds) a b i k ≡ memcmp a b i k
unfolding fastcmp_loop
fastcmp_short rounds a b i k h g l =
    let few : leb k 4 ≡ true = ground arith in
    let fewer : leb k 3 ≡ true = ground arith in
    elim (Bool-cases (lj_getu32 a i == lj_getu32 b i)) [
      | inl same ↦
          let e : lj_getu32 a i ≡ lj_getu32 b i = ground arith in
          let f : low a i k ≡ low b i k =
            sym (low-cut a i k h l) ∙ ap (λ (t : ℕ). t % 2 ^ (k * 8)) e ∙ low-cut b i k g l in
          rw (same, few, sym (low-equal a b i k h g), f) (sym (==_refl (low b i k)))
      | inr other ↦ rw (other, fewer, low-cut a i k h l, low-cut b i k g l) (low-equal a b i k h g)
    ]

fastcmp_loop_lem :
    (rounds : ℕ) (a b : ℕ → ℕ) (i rest : ℕ)
    → AreBytes a
    → AreBytes b
    → 0 < rest
    → rest ≤ rounds
    → fastcmp_loop rounds a b i rest ≡ memcmp a b i rest
unfolding fastcmp_loop
fastcmp_loop_lem rounds a b i zero h g p l = absurd (omega arith)
fastcmp_loop_lem zero a b i (suc k) h g p l = absurd (omega arith)
fastcmp_loop_lem (suc rounds) a b i (suc zero) h g p l =
    fastcmp_short rounds a b i 1 h g (omega arith)
fastcmp_loop_lem (suc rounds) a b i (suc (suc zero)) h g p l =
    fastcmp_short rounds a b i 2 h g (omega arith)
fastcmp_loop_lem (suc rounds) a b i (suc (suc (suc zero))) h g p l =
    fastcmp_short rounds a b i 3 h g (omega arith)
fastcmp_loop_lem (suc rounds) a b i (suc (suc (suc (suc zero)))) h g p l =
    rw (word-equal a b i h g)
      (elim (Bool-cases (memcmp a b i 4)) [ inl same ↦ rw same refl | inr other ↦ rw other refl ])
fastcmp_loop_lem (suc rounds) a b i (suc (suc (suc (suc (suc r))))) h g p l =
    let many : leb (suc (suc (suc (suc (suc r))))) 3 ≡ false = ground arith in
    let more : leb (suc (suc (suc (suc (suc r))))) 4 ≡ false = ground arith in
    let back : suc (suc (suc (suc (suc r)))) - 4 ≡ suc r = omega arith in
    let parts : suc (suc (suc (suc (suc r)))) ≡ 4 + suc r = omega arith in
    let whole : memcmp a b i (suc (suc (suc (suc (suc r)))))
        ≡ (memcmp a b i 4 && memcmp a b (i + 4) (suc r)) =
      ap (memcmp a b i) parts ∙ memcmp-split a b i 4 (suc r) in
    rw
      (
        whole,
        word-equal a b i h g,
        many,
        more,
        back,
        fastcmp_loop_lem rounds a b (i + 4) (suc r) h g (omega arith) (omega arith),
      )
      (elim (Bool-cases (memcmp a b i 4)) [ inl same ↦ rw same refl | inr other ↦ rw other refl ])

-- `str_fastcmp` of strings that are not empty holds just when their bytes are equal, whatever stands
-- in memory behind their ends.
pub str_fastcmp-memcmp :
    (a b : ℕ → ℕ) (len : ℕ)
    → AreBytes a
    → AreBytes b
    → 0 < len
    → str_fastcmp a b len ≡ memcmp a b 0 len
unfolding str_fastcmp
str_fastcmp-memcmp a b len h g p = fastcmp_loop_lem len a b 0 len h g p (omega arith)

pub memcmp_refl : (a : ℕ → ℕ) (n : ℕ) → memcmp a a 0 n ≡ true
memcmp_refl a n = memcmp-of a a 0 n (λ j l m. refl)

pub memcmp-sym : (a b : ℕ → ℕ) (n : ℕ) → memcmp a b 0 n ≡ true → memcmp b a 0 n ≡ true
memcmp-sym a b n h = memcmp-of b a 0 n (λ j l m. sym (memcmp-at a b 0 n j h l m))

pub memcmp_trans :
    (a b c : ℕ → ℕ) (n : ℕ) → memcmp a b 0 n ≡ true → memcmp b c 0 n ≡ true → memcmp a c 0 n ≡ true
memcmp_trans a b c n h k =
    memcmp-of a c 0 n (λ j l m. memcmp-at a b 0 n j h l m ∙ memcmp-at b c 0 n j k l m)

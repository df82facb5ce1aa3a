-- ===== src/Strs/Compare.antt =====
-- Word-wise comparison, against the comparison byte by byte.
use native.Mathlib.Nat.{mul-le-mul_right, suc-mul, pow-suc}
use qyz_client_lua.Base.{
  ℕ, ℤ, zero, suc, ◌+◌, ◌-◌, ◌*◌, ◌/◌, ◌<◌, ◌≤◌, ◌≡◌, refl, sym, ap, ◌∙◌, inl, inr, true, false,
  Option, none, some, leb, ltb, ◌==◌, ==_refl, ◌^◌, if◌then◌else◌, arith, Bool-cases,
}
use qyz_client_lua.Dump.Words.{lj_bswap}
use qyz_client_lua.Strs.{lj_getu32, len_diff, sign, cmp_loop, GcStr, lj_str_cmp}

abbrev pub AreBytes : (ℕ → ℕ) → Type 0
AreBytes m = (i : ℕ) → m i < 256

-- The first difference of `rest` bytes decides.
unfoldable pub lex : (ℕ → ℕ) → (ℕ → ℕ) → ℕ → ℕ → Option ℤ
lex a b i zero = none
lex a b i (suc rest) =
    let later = lex a b (i + 1) rest in if a i == b i then later else some (sign (a i) (b i))

-- Lexicographic order, where a proper prefix comes first by the difference of the lengths.
unfoldable pub lexicographic : GcStr → GcStr → ℤ
lexicographic a b = elim (lex a.bytes b.bytes 0 (if ltb b.len a.len then b.len else a.len)) [
  | none ↦ len_diff a.len b.len
  | some c ↦ c
]

-- The first `k` bytes as one number, the first byte in front.
top : (ℕ → ℕ) → ℕ → ℕ → ℕ
top a i zero = 0
top a i (suc k) = a i * 256 ^ k + top a (i + 1) k

-- The outcome of comparing two numbers.
abbrev outcome : ℕ → ℕ → Option ℤ
outcome x y = if x == y then none else some (sign x y)

split_order : (x y t u p : ℕ) → t < p → u < p → x < y → x * p + t < y * p + u
split_order x y t u p h k l = omega (arith, mul-le-mul_right p l, suc-mul x p)

outcome-step :
    (x y t u p : ℕ)
    → t < p
    → u < p
    → outcome (x * p + t) (y * p + u) ≡ (if x == y then outcome t u else some (sign x y))
outcome-step x y t u p h k = elim (Bool-cases (x == y)) [
  | inl same ↦ let e : x ≡ y = ground arith in rw e (ground arith)
  | inr other ↦ ground (arith, split_order x y t u p h k, split_order y x u t p k h)
]

top-lt : (a : ℕ → ℕ) (i k : ℕ) → AreBytes a → top a i k < 256 ^ k
unfolding top
top-lt a i zero h = omega arith
top-lt a i (suc k) h = omega (
  arith,
  top-lt a (i + 1) k h,
  mul-le-mul_right (256 ^ k) (h i),
  suc-mul (a i) (256 ^ k),
  pow-suc 256 k,
)

lex-top :
    (a b : ℕ → ℕ) (i k : ℕ)
    → AreBytes a
    → AreBytes b
    → lex a b i k ≡ outcome (top a i k) (top b i k)
unfolding lex top
lex-top a b i zero h g = refl
lex-top a b i (suc k) h g =
    rw
      (
        lex-top a b (i + 1) k h g,
        outcome-step (a i) (b i) (top a (i + 1) k) (top b (i + 1) k) (256 ^ k)
            (top-lt a (i + 1) k h) (top-lt b (i + 1) k g),
      )
      refl

abbrev after : Option ℤ → Option ℤ → Option ℤ
after none r = r
after (some c) r = some c

lex-split : (a b : ℕ → ℕ) (i k r : ℕ) → lex a b i (k + r) ≡ after (lex a b i k) (lex a b (i + k) r)
unfolding lex
lex-split a b i zero r =
    let e : zero + r ≡ r = omega arith in let f : i + 0 ≡ i = omega arith in rw (e, f) refl
lex-split a b i (suc k) r =
    let e : suc k + r ≡ suc (k + r) = omega arith in
    let f : i + suc k ≡ i + 1 + k = omega arith in
    rw (e, f)
      (elim (Bool-cases (a i == b i)) [
        | inl same ↦ rw same (lex-split a b (i + 1) k r)
        | inr other ↦ rw other refl
      ])

word-top : (a : ℕ → ℕ) (i : ℕ) → AreBytes a → lj_bswap (lj_getu32 a i) ≡ top a i 4
unfolding lj_bswap lj_getu32 top
word-top a i h =
    let e : i + 1 + 1 ≡ i + 2 = omega arith in
    let f : i + 2 + 1 ≡ i + 3 = omega arith in
    rw (e, f) (omega (arith, h i, h (i + 1), h (i + 2), h (i + 3)))

-- The top bytes of a word, which stay when the rest is shifted out.
word-cut :
    (a : ℕ → ℕ) (i k : ℕ) → AreBytes a → 0 < k → k < 4 → top a i 4 / 2 ^ (32 - k * 8) ≡ top a i k
unfolding top
word-cut a i zero h l m = absurd (omega arith)
word-cut a i (suc zero) h l m = omega (arith, h i, h (i + 1), h (i + 1 + 1), h (i + 1 + 1 + 1))
word-cut a i (suc (suc zero)) h l m =
    omega (arith, h i, h (i + 1), h (i + 1 + 1), h (i + 1 + 1 + 1))
word-cut a i (suc (suc (suc zero))) h l m =
    omega (arith, h i, h (i + 1), h (i + 1 + 1), h (i + 1 + 1 + 1))
word-cut a i (suc (suc (suc (suc k)))) h l m = absurd (omega arith)

word-back : (a : ℕ → ℕ) (i : ℕ) → AreBytes a → lj_getu32 a i ≡ lj_bswap (top a i 4)
unfolding lj_bswap lj_getu32 top
word-back a i h =
    let e : i + 1 + 1 ≡ i + 2 = omega arith in
    let f : i + 2 + 1 ≡ i + 3 = omega arith in
    rw (e, f) (omega (arith, h i, h (i + 1), h (i + 2), h (i + 3)))

==_false : (x y : ℕ) → (x ≡ y → ⊥) → (x == y) ≡ false
==_false x y n = elim (Bool-cases (x == y)) [ inl e ↦ absurd (n (ground arith)) | inr e ↦ e ]

-- Words are equal as they stand and swapped.
swap-equal :
    (a b : ℕ → ℕ) (i : ℕ)
    → AreBytes a
    → AreBytes b
    → (lj_getu32 a i == lj_getu32 b i) ≡ (top a i 4 == top b i 4)
swap-equal a b i h g = elim (Bool-cases (top a i 4 == top b i 4)) [
  | inl same ↦
      let e : top a i 4 ≡ top b i 4 = ground arith in
      let f : lj_getu32 a i ≡ lj_getu32 b i =
        word-back a i h ∙ ap lj_bswap e ∙ sym (word-back b i g) in
      rw (same, f) (==_refl (lj_getu32 b i))
  | inr other ↦ rw other (
      ==_false (lj_getu32 a i) (lj_getu32 b i) λ e.
        let f : top a i 4 ≡ top b i 4 = sym (word-top a i h) ∙ ap lj_bswap e ∙ word-top b i g in
        ground arith)
]

cmp_end : (rounds : ℕ) (a b : ℕ → ℕ) (i : ℕ) → cmp_loop rounds a b i 0 ≡ none
unfolding cmp_loop
cmp_end zero a b i = refl
cmp_end (suc rounds) a b i = refl

cmp_short :
    (rounds : ℕ) (a b : ℕ → ℕ) (i k : ℕ)
    → AreBytes a
    → AreBytes b
    → 0 < k
    → k < 4
    → cmp_loop (suc rounds) a b i k ≡ outcome (top a i k) (top b i k)
unfolding cmp_loop
cmp_short rounds a b i k h g l m =
    let some_left : (k == 0) ≡ false = ground arith in
    let few : leb k 3 ≡ true = ground arith in
    let over : k - 4 ≡ 0 = omega arith in
    elim (Bool-cases (top a i 4 == top b i 4)) [
      | inl same ↦
          let e : top a i 4 ≡ top b i 4 = ground arith in
          let f : top a i k ≡ top b i k =
            sym (word-cut a i k h l m)
            ∙ ap (λ (t : ℕ). t / 2 ^ (32 - k * 8)) e
            ∙ word-cut b i k g l m in
          rw
            (
              some_left,
              swap-equal a b i h g,
              same,
              over,
              cmp_end rounds a b (i + 4),
              f,
              ==_refl (top b i k),
            )
            refl
      | inr other ↦
          rw
            (
              some_left,
              swap-equal a b i h g,
              other,
              few,
              word-top a i h,
              word-top b i g,
              word-cut a i k h l m,
              word-cut b i k g l m,
            )
            refl
    ]

lex_end : (a b : ℕ → ℕ) (i : ℕ) → lex a b i 0 ≡ none
unfolding lex
lex_end a b i = refl

lex_word :
    (a b : ℕ → ℕ) (i r : ℕ)
    → AreBytes a
    → AreBytes b
    → lex a b i (suc (suc (suc (suc r))))
      ≡ after (outcome (top a i 4) (top b i 4)) (lex a b (i + 4) r)
lex_word a b i r h g =
    ap (lex a b i) (omega arith)
    ∙ lex-split a b i 4 r
    ∙ ap (λ o. after o (lex a b (i + 4) r)) (lex-top a b i 4 h g)

cmp_loop_lem :
    (rounds : ℕ) (a b : ℕ → ℕ) (i rest : ℕ)
    → AreBytes a
    → AreBytes b
    → rest ≤ rounds
    → cmp_loop rounds a b i rest ≡ lex a b i rest
unfolding cmp_loop
cmp_loop_lem rounds a b i zero h g l = cmp_end rounds a b i ∙ sym (lex_end a b i)
cmp_loop_lem zero a b i (suc k) h g l = absurd (omega arith)
cmp_loop_lem (suc rounds) a b i (suc zero) h g l =
    cmp_short rounds a b i 1 h g (omega arith) (omega arith) ∙ sym (lex-top a b i 1 h g)
cmp_loop_lem (suc rounds) a b i (suc (suc zero)) h g l =
    cmp_short rounds a b i 2 h g (omega arith) (omega arith) ∙ sym (lex-top a b i 2 h g)
cmp_loop_lem (suc rounds) a b i (suc (suc (suc zero))) h g l =
    cmp_short rounds a b i 3 h g (omega arith) (omega arith) ∙ sym (lex-top a b i 3 h g)
cmp_loop_lem (suc rounds) a b i (suc (suc (suc (suc r)))) h g l =
    let back : suc (suc (suc (suc r))) - 4 ≡ r = omega arith in
    let many : leb (suc (suc (suc (suc r)))) 3 ≡ false = ground arith in
    let some_left : (suc (suc (suc (suc r))) == 0) ≡ false = ground arith in
    elim (Bool-cases (top a i 4 == top b i 4)) [
      | inl same ↦
          rw
            (
              lex_word a b i r h g,
              some_left,
              swap-equal a b i h g,
              same,
              back,
              cmp_loop_lem rounds a b (i + 4) r h g (omega arith),
            )
            refl
      | inr other ↦
          rw
            (
              lex_word a b i r h g,
              some_left,
              swap-equal a b i h g,
              other,
              many,
              word-top a i h,
              word-top b i g,
            )
            refl
    ]

-- `lj_str_cmp` orders strings byte by byte, whatever stands in memory behind their ends.
pub lj_str_cmp-lexicographic :
    (a b : GcStr) → AreBytes a.bytes → AreBytes b.bytes → lj_str_cmp a b ≡ lexicographic a b
unfolding lj_str_cmp lexicographic
lj_str_cmp-lexicographic a b h g =
    let n : ℕ = if ltb b.len a.len then b.len else a.len in
    ap (λ (o : Option ℤ). elim o [ none ↦ len_diff a.len b.len | some c ↦ c ])
      (cmp_loop_lem n a.bytes b.bytes 0 n h g (omega arith))

-- ===== src/Strs.antt =====
-- Strings, luajit/lj_str.c. The memory behind a string's start is a function of the offset; what
-- stands behind the end of a string is arbitrary.
pub mod Compare
pub mod Equal
pub mod Intern
pub mod Number
use qyz_client_lua.Base.{
  ℕ, ℤ, pos, negsuc, zero, suc, ◌+◌, ◌-◌, ◌*◌, ◌/◌, ◌%◌, Bool, true, false, ◌&&◌, Option, none,
  some, leb, ltb, ◌==◌, ◌^◌, if◌then◌else◌,
}
use qyz_client_lua.Dump.Words.{lj_bswap}

-- `*(const uint32_t *)(p+i)` on a little-endian host.
unfoldable pub lj_getu32 : (ℕ → ℕ) → ℕ → ℕ
lj_getu32 m i = m i + m (i + 1) * 256 + m (i + 2) * 65536 + m (i + 3) * 16777216

-- `(int32_t)(a - b)` of lengths.
unfoldable pub len_diff : ℕ → ℕ → ℤ
len_diff a b = if ltb a b then negsuc (b - a - 1) else pos (a - b)

abbrev pub sign : ℕ → ℕ → ℤ
sign va vb = if ltb va vb then negsuc 0 else pos 1

-- The loop from `i` on, `rest` bytes ahead of the shorter end. `none`: all of them are equal.
unfoldable pub cmp_loop : ℕ → (ℕ → ℕ) → (ℕ → ℕ) → ℕ → ℕ → Option ℤ
unfolding lj_getu32
cmp_loop zero a b i rest = none
cmp_loop (suc rounds) a b i rest =
    let va = lj_bswap (lj_getu32 a i) in
    let vb = lj_bswap (lj_getu32 b i) in
    let cut : ℕ = 2 ^ (32 - rest * 8) in
    let next = cmp_loop rounds a b (i + 4) (rest - 4) in
    if rest == 0
    then none
    else if lj_getu32 a i == lj_getu32 b i
    then next
    else if leb rest 3
    then (if va / cut == vb / cut then none else some (sign (va / cut) (vb / cut)))
    else some (sign va vb)

-- A string object: its bytes in memory and its length.
pub record GcStr : Type 0 where
  pub bytes : ℕ → ℕ
  pub len : ℕ

unfoldable pub lj_str_cmp : GcStr → GcStr → ℤ
lj_str_cmp a b =
    let n : ℕ = if ltb b.len a.len then b.len else a.len in
    elim (cmp_loop n a.bytes b.bytes 0 n) [ none ↦ len_diff a.len b.len | some c ↦ c ]

-- `lj_getu32(a+i) ^ getu32(b+i)`, which is 0 just for equal words; of unequal ones at the end the
-- shift leaves the bytes ahead of the end.
unfoldable pub fastcmp_loop : ℕ → (ℕ → ℕ) → (ℕ → ℕ) → ℕ → ℕ → Bool
unfolding lj_getu32
fastcmp_loop zero a b i rest = true
fastcmp_loop (suc rounds) a b i rest =
    let next = fastcmp_loop rounds a b (i + 4) (rest - 4) in
    let cut : ℕ = 2 ^ (rest * 8) in
    if lj_getu32 a i == lj_getu32 b i
    then (if leb rest 4 then true else next)
    else if leb rest 3
    then lj_getu32 a i % cut == lj_getu32 b i % cut
    else false

-- `str_fastcmp(a, b, len) == 0`
unfoldable pub str_fastcmp : (ℕ → ℕ) → (ℕ → ℕ) → ℕ → Bool
str_fastcmp a b len = fastcmp_loop len a b 0 len

-- The library's `memcmp(a + i, b + i, n) == 0`.
unfoldable pub memcmp : (ℕ → ℕ) → (ℕ → ℕ) → ℕ → ℕ → Bool
memcmp a b i zero = true
memcmp a b i (suc rest) = a i == b i && memcmp a b (i + 1) rest

-- ===== src/Carith.antt =====
-- 64-bit integer arithmetic for C data: the helpers of luajit/lj_carith.c. An `int64_t` is its bit
-- pattern, a number below 2 ^ 64, which is negative from 2 ^ 63 on; `/` and `%` of C work on the
-- absolute values and give the quotient the product's sign, the remainder the dividend's. They are
-- parts of the C language; where it leaves them undefined, they have no value here.
pub mod Division
pub mod Power
use qyz_client_lua.Base.{
  ℕ, zero, suc, ◌+◌, ◌-◌, ◌*◌, ◌/◌, ◌%◌, ◌^◌, Bool, true, false, Option, none, some, ◌&&◌, ◌||◌,
  leb, ◌==◌, if◌then◌else◌,
}

abbrev pub u64 : ℕ
u64 = 18446744073709551616

abbrev pub int64_min : ℕ
int64_min = 9223372036854775808

abbrev pub minus_one : ℕ
minus_one = 18446744073709551615

abbrev pub is_neg : ℕ → Bool
is_neg a = leb int64_min a

-- The pattern of -a.
abbrev pub negate : ℕ → ℕ
negate a = (u64 - a) % u64

abbrev pub magnitude : ℕ → ℕ
magnitude a = if is_neg a then u64 - a else a

-- Where `/` and `%` of C are undefined: for the divisor 0, and for the least integer by -1.
abbrev pub overflows : ℕ → ℕ → Bool
overflows a b = a == int64_min && b == minus_one

-- The unsigned `/` and `%` of C; `none` is undefined behaviour.
unfoldable pub c_udiv : ℕ → ℕ → Option ℕ
c_udiv a b = if b == 0 then none else some (a / b)

unfoldable pub c_umod : ℕ → ℕ → Option ℕ
c_umod a b = if b == 0 then none else some (a % b)

-- The signed `/` and `%` of C, likewise.
unfoldable pub signed_quotient : ℕ → ℕ → ℕ
signed_quotient a b =
    let q : ℕ = magnitude a / magnitude b in
    if is_neg a then (if is_neg b then q else negate q) else if is_neg b then negate q else q

unfoldable pub signed_remainder : ℕ → ℕ → ℕ
signed_remainder a b = let r : ℕ = magnitude a % magnitude b in if is_neg a then negate r else r

unfoldable pub c_div : ℕ → ℕ → Option ℕ
c_div a b = if b == 0 || overflows a b then none else some (signed_quotient a b)

unfoldable pub c_mod : ℕ → ℕ → Option ℕ
c_mod a b = if b == 0 || overflows a b then none else some (signed_remainder a b)

unfoldable pub lj_carith_divu64 : ℕ → ℕ → Option ℕ
lj_carith_divu64 a b = if b == 0 then some int64_min else c_udiv a b

unfoldable pub lj_carith_divi64 : ℕ → ℕ → Option ℕ
lj_carith_divi64 a b =
    if b == 0 || (a == int64_min && b == minus_one) then some int64_min else c_div a b

unfoldable pub lj_carith_modu64 : ℕ → ℕ → Option ℕ
lj_carith_modu64 a b = if b == 0 then some int64_min else c_umod a b

unfoldable pub lj_carith_modi64 : ℕ → ℕ → Option ℕ
lj_carith_modi64 a b =
    if b == 0
    then some int64_min
    else if a == int64_min && b == minus_one
    then some 0
    else c_mod a b

abbrev pub mul64 : ℕ → ℕ → ℕ
mul64 a b = a * b % u64

-- `for (;;) { x *= x; if (k == 1) break; if (k & 1) y *= x; k >>= 1; } y *= x;`
unfoldable pub pow_odd : ℕ → ℕ → ℕ → ℕ → ℕ
pow_odd zero x k y = y
pow_odd (suc rounds) x k y =
    let x' = mul64 x x in
    let y' = if k % 2 == 1 then mul64 y x' else y in
    let rest = pow_odd rounds x' (k / 2) y' in if k == 1 then mul64 y x' else rest

-- `for (; (k & 1) == 0; k >>= 1) x *= x; y = x; if ((k >>= 1) != 0) …`
unfoldable pub pow_even : ℕ → ℕ → ℕ → ℕ
pow_even zero x k = x
pow_even (suc rounds) x k =
    let rest = pow_even rounds (mul64 x x) (k / 2) in
    let k' : ℕ = k / 2 in if k % 2 == 0 then rest else if k' == 0 then x else pow_odd 64 x k' x

-- A word has 64 bits, so each loop has 64 rounds at most.
unfoldable pub lj_carith_powu64 : ℕ → ℕ → ℕ
lj_carith_powu64 x k = if k == 0 then 1 else pow_even 64 x k

unfoldable pub lj_carith_powi64 : ℕ → ℕ → ℕ
lj_carith_powi64 x k =
    if k == 0
    then 1
    else if is_neg k
    then (if x == 0
        then int64_min - 1
        else if x == 1
        then 1
        else if x == minus_one
        then (if k % 2 == 1 then minus_one else 1)
        else 0)
    else lj_carith_powu64 x k

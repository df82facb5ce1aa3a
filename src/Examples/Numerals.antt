-- ===== src/Examples/Numerals.antt =====
-- `lj_str_bufint` of luajit/lj_str.c on the least integer.
use qyz_client_lua.Base.{ℕ, ℤ, negsuc, ◌≡◌, ◌≤◌, some, List, length, arith}
use qyz_client_lua.Strs.Number.{lj_str_bufint}
use qyz_client_lua.Strs.Number.Decimal.{IsNumeral, decimal_int, lj_str_bufint-decimal_int}

abbrev least : ℤ
least = negsuc 2147483647

lj_str_bufint-decimal_int_example :
    (s : List ℕ) × (lj_str_bufint least ≡ some s)
    × IsNumeral s
    × (decimal_int s ≡ least)
    × (length s ≤ 11)
lj_str_bufint-decimal_int_example = lj_str_bufint-decimal_int least (omega arith)

-- ===== src/Strs/Number.antt =====
-- The text of an integer, `lj_str_bufint` of luajit/lj_str.c. The buffer is filled from its end on; its
-- filled part is a list.
pub mod Decimal
use mathlib.Core.Option as Option
use qyz_client_lua.Base.{
  ℕ, ℤ, pos, negsuc, zero, suc, ◌+◌, ◌/◌, ◌%◌, Option, none, some, List, [], ◌∷◌, ◌==◌,
  if◌then◌else◌,
}

-- The loop, with the digits that stand in the buffer; `none` if the rounds run out.
unfoldable pub digit_loop : ℕ → ℕ → List ℕ → Option (List ℕ)
digit_loop zero u p = none
digit_loop (suc rounds) u p =
    let p' : List ℕ = (b'0' + u % 10) ∷ p in
    let rest = digit_loop rounds (u / 10) p' in if u / 10 == 0 then some p' else rest

unfoldable pub lj_str_bufint : ℤ → Option (List ℕ)
lj_str_bufint (pos k) = digit_loop 10 k []
lj_str_bufint (negsuc k) = Option.map (λ p. b'-' ∷ p) (digit_loop 10 (suc k) [])

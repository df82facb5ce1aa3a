-- ===== src/Dump/Uleb.antt =====
-- The variable-length integers of a dump: `bcwrite_uleb128`, `bcread_uleb128` and
-- `bcread_uleb128_33`. A `uint32_t` is a number below 2 ^ 32; `v & 0x7f` is `v % 128`, `v >> 7` is
-- `v / 128`, and `|` of disjoint bits is `+`.
pub mod Laws
use qyz_client_lua.Base.{
  ℕ, zero, suc, ◌+◌, ◌-◌, ◌*◌, ◌/◌, ◌%◌, ◌^◌, List, [], ◌∷◌, ltb, leb, if◌then◌else◌,
}
use qyz_client_lua.Dump.Result.{Bytes, Read, ok, fault, Result}

-- The loop of `bcwrite_uleb128`, with a bound on its rounds.
unfoldable pub bcwrite_uleb128_loop : ℕ → ℕ → Bytes
bcwrite_uleb128_loop zero v = v ∷ []
bcwrite_uleb128_loop (suc rounds) v =
    let more = (v % 128 + 128) ∷ bcwrite_uleb128_loop rounds (v / 128) in
    if leb 128 v then more else v ∷ []

-- The bytes that `bcwrite_uleb128` adds to the buffer. A word has at most four continued bytes.
unfoldable pub bcwrite_uleb128 : ℕ → Bytes
unfolding bcwrite_uleb128_loop
bcwrite_uleb128 v = bcwrite_uleb128_loop 4 v

-- `do { v |= ((*p & 0x7f) << (sh += 7)); } while (*p++ >= 0x80)`, with `sh` after the addition.
unfoldable pub uleb128_loop : ℕ → ℕ → Read ℕ
uleb128_loop sh v [] = fault
uleb128_loop sh v (b ∷ bs) =
    let v' : ℕ = (v + b % 128 * 2 ^ sh) % 2 ^ 32 in
    let rest = uleb128_loop (sh + 7) v' bs in
    if leb 32 sh then fault else if leb 128 b then rest else ok (v', bs)

unfoldable pub bcread_uleb128 : Read ℕ
unfolding uleb128_loop
bcread_uleb128 [] = fault
bcread_uleb128 (b ∷ bs) = if leb 128 b then uleb128_loop 7 (b % 128) bs else ok (b, bs)

unfoldable pub bcread_uleb128_33 : Read ℕ
unfolding uleb128_loop
bcread_uleb128_33 [] = fault
bcread_uleb128_33 (b ∷ bs) =
    if leb 64 (b / 2) then uleb128_loop 6 (b / 2 % 64) bs else ok (b / 2, bs)

-- ===== src/Dump/Uleb/Laws.antt =====
-- Round trips and sizes of the variable-length integers.
use qyz_client_lua.Base.{ℕ, ◌^◌, ◌<◌, ◌≤◌, ◌≡◌, ◌++◌, ◌∷◌, arith, length, All}
use qyz_client_lua.Dump.Result.{Bytes, ok}
use qyz_client_lua.Dump.Uleb.{bcwrite_uleb128, bcread_uleb128}

-- `bcread_uleb128` reads back every word that `bcwrite_uleb128` wrote, and leaves what follows.
pub uleb_lem :
    (v : ℕ) (rest : Bytes) → v < 2 ^ 32 → bcread_uleb128 (bcwrite_uleb128 v ++ rest) ≡ ok (v, rest)
unfolding bcwrite_uleb128 bcread_uleb128
uleb_lem v rest h = ground arith

pub length-uleb : (v : ℕ) → (1 ≤ length (bcwrite_uleb128 v)) × (length (bcwrite_uleb128 v) ≤ 5)
unfolding bcwrite_uleb128
length-uleb v = ground arith

pub uleb_bytes : (v : ℕ) → v < 2 ^ 32 → All (λ b. b < 256) (bcwrite_uleb128 v)
unfolding bcwrite_uleb128
uleb_bytes v h = ground arith

-- A byte below 128 stands for itself.
pub byte_lem : (b : ℕ) (rest : Bytes) → b < 128 → bcread_uleb128 (b ∷ rest) ≡ ok (b, rest)
unfolding bcread_uleb128
byte_lem b rest h = ground arith

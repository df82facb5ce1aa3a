-- ===== src/Dump/Write/Sizes.antt =====
-- The final size in front of a prototype, `nn = (lj_fls(n)+8)*9 >> 6`, and the ULEB128 form of `n`.
use native.Mathlib.Nat.{pow-suc}
use qyz_client_lua.Base.{
  ℕ, zero, suc, ◌+◌, ◌-◌, ◌*◌, ◌/◌, ◌^◌, ◌<◌, ◌≤◌, ◌≡◌, refl, ap, ◌⊎◌, Bool, [], ◌∷◌, ◌++◌, arith,
  length, drop,
}
use qyz_client_lua.Dump.Result.{Bytes}
use qyz_client_lua.Dump.Uleb.{bcwrite_uleb128}
use qyz_client_lua.Dump.Uleb.Laws.{length-uleb}
use qyz_client_lua.Dump.Proto.{Doubles, Info, Consts}
use qyz_client_lua.Dump.Write.{fls_loop, lj_fls, place, bcwrite_sized, bcwrite_head, bcwrite_body}

fls_loop-ge : (k r n : ℕ) → k ≤ r → 2 ^ k ≤ n → k ≤ fls_loop r n
unfolding fls_loop
fls_loop-ge zero r n h p = omega arith
fls_loop-ge (suc k) zero n h p = absurd (omega arith)
fls_loop-ge (suc k) (suc r) n h p =
    ground (arith, pow-suc 2 k, two_pow_pos k, fls_loop-ge k r (n / 2))
  where
    two_pow_pos : (k : ℕ) → 1 ≤ 2 ^ k
    two_pow_pos zero = omega arith
    two_pow_pos (suc k) = omega (arith, pow-suc 2 k, two_pow_pos k)

fls_loop-lt : (k r n : ℕ) → n < 2 ^ k → 0 < k → fls_loop r n < k
unfolding fls_loop
fls_loop-lt zero r n p h = absurd (omega arith)
fls_loop-lt (suc k) zero n p h = omega arith
fls_loop-lt (suc zero) (suc r) n p h = ground arith
fls_loop-lt (suc (suc k)) (suc r) n p h =
    ground (arith, pow-suc 2 (suc k), fls_loop-lt (suc k) r (n / 2))

-- `lj_fls` at the sizes where a byte is added.
pub fls-step :
    (k n : ℕ) → 0 < k → k ≤ 31 → ((n < 2 ^ k) × (lj_fls n < k)) ⊎ ((2 ^ k ≤ n) × (k ≤ lj_fls n))
unfolding lj_fls
fls-step k n h p = ground (arith, fls_loop-lt k 31 n, fls_loop-ge k 31 n)

pub fls-below : (n : ℕ) → n < 2 ^ 32 → lj_fls n < 32
unfolding lj_fls
fls-below n h = fls_loop-lt 32 31 n h (omega arith)

-- For 0 < n < 2 ^ 32, `(lj_fls(n)+8)*9 >> 6` is the number of bytes that `bcwrite_uleb128` writes
-- for `n`.
pub length-uleb-fls :
    (n : ℕ) → 0 < n → n < 2 ^ 32 → length (bcwrite_uleb128 n) ≡ (lj_fls n + 8) * 9 / 64
unfolding bcwrite_uleb128
length-uleb-fls n p h = ground (
  arith,
  fls-step 7 n (omega arith) (omega arith),
  fls-step 14 n (omega arith) (omega arith),
  fls-step 21 n (omega arith) (omega arith),
  fls-step 28 n (omega arith) (omega arith),
  fls-below n h,
)

place_lem :
    (pos : ℕ) (u pad body : Bytes)
    → pos + length u ≡ length pad
    → drop pos (place pos u (pad ++ body)) ≡ u ++ body
unfolding place
place_lem zero [] [] body e = refl
place_lem zero [] (y ∷ pad) body e = absurd (omega arith)
place_lem zero (x ∷ u) [] body e = absurd (omega arith)
place_lem zero (x ∷ u) (y ∷ pad) body e = ap (◌∷◌ x) (place_lem zero u pad body (omega arith))
place_lem (suc pos) u [] body e = absurd (omega arith)
place_lem (suc pos) [] (y ∷ pad) body e = place_lem pos [] pad body (omega arith)
place_lem (suc pos) (x ∷ u) (y ∷ pad) body e = place_lem pos (x ∷ u) pad body (omega arith)

-- For a body of 1 to 2 ^ 32 - 1 bytes, the writer callback gets the ULEB128 form of its size and
-- then the body, with no gap and nothing overwritten.
pub sized_lem :
    (body : Bytes)
    → 0 < length body
    → length body < 2 ^ 32
    → bcwrite_sized body ≡ bcwrite_uleb128 (length body) ++ body
unfolding bcwrite_sized
sized_lem body p h =
    place_lem (5 - (lj_fls (length body) + 8) * 9 / 64) (bcwrite_uleb128 (length body))
      (0 ∷ 0 ∷ 0 ∷ 0 ∷ 0 ∷ []) body
      (omega (arith, length-uleb (length body), length-uleb-fls (length body) p h))

pub body_pos :
    (fp : Doubles) (be strip : Bool) (startins : ℕ → ℕ) (pt : Info) (ks : Consts)
    → 0 < length (bcwrite_body fp be strip startins pt ks)
unfolding bcwrite_body bcwrite_head
body_pos fp be strip startins pt ks = omega arith

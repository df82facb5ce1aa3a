-- ===== src/TabSize.antt =====
-- The size of the array part that a rehash chooses, `bestasize` of luajit/lj_tab.c. `bins b` is the
-- number of integer keys in the range of the exponent `b`.
pub mod Best
use qyz_client_lua.Base.{
  ℕ, zero, suc, ◌+◌, ◌*◌, ◌%◌, ◌^◌, Bool, ◌&&◌, not, Option, none, some, ltb, ◌==◌, if◌then◌else◌,
}

-- The loop, with the size and the count of the best size so far; `none` if the rounds run out.
unfoldable pub best_loop : ℕ → (ℕ → ℕ) → ℕ → ℕ → ℕ → ℕ → ℕ → Option (ℕ × ℕ)
best_loop zero bins nn b sum sz na = none
best_loop (suc rounds) bins nn b sum sz na =
    let sum' : ℕ = sum + bins b in
    let better = best_loop rounds bins nn (b + 1) sum' (2 * 2 ^ b + 1) sum' in
    let same = best_loop rounds bins nn (b + 1) sum' sz na in
    if ltb (2 ^ b) (2 * nn % 2 ^ 32) && not (sum == nn)
    then (if ltb 0 (bins b) && ltb (2 ^ b) (2 * sum') then better else same)
    else some (sz, na)

-- The size, and the number of keys that go into the array part. A word has 32 bits.
unfoldable pub bestasize : (ℕ → ℕ) → ℕ → Option (ℕ × ℕ)
bestasize bins nn = best_loop 33 bins nn 0 0 0 0

-- ===== src/Dump/Words.antt =====
-- Words in memory, in either byte order, as the dump copies them, and `lj_bswap`.
use qyz_client_lua.Base.{
  ℕ, ◌+◌, ◌*◌, ◌/◌, ◌%◌, ◌<◌, ◌≡◌, refl, Bool, true, false, List, [], ◌∷◌, ◌++◌, map, arith,
  if◌then◌else◌, length, All,
}
use qyz_client_lua.Dump.Result.{Bytes}

-- The memory of a `uint16_t`, and of a `uint32_t`. `be` says that the host is big-endian.
unfoldable pub u16_bytes : Bool → ℕ → Bytes
u16_bytes be w = if be then (w / 256) ∷ (w % 256) ∷ [] else (w % 256) ∷ (w / 256) ∷ []

unfoldable pub u32_bytes : Bool → ℕ → Bytes
u32_bytes be w =
    if be
    then (w / 16777216) ∷ (w / 65536 % 256) ∷ (w / 256 % 256) ∷ (w % 256) ∷ []
    else (w % 256) ∷ (w / 256 % 256) ∷ (w / 65536 % 256) ∷ (w / 16777216) ∷ []

-- What an array of words in memory reads as.
unfoldable pub u16_words : Bool → Bytes → List ℕ
u16_words be (a ∷ b ∷ bs) = (if be then a * 256 + b else a + b * 256) ∷ u16_words be bs
u16_words be _ = []

unfoldable pub u32_words : Bool → Bytes → List ℕ
u32_words be (a ∷ b ∷ c ∷ d ∷ bs) =
    (if be then a * 16777216 + b * 65536 + c * 256 + d else a + b * 256 + c * 65536 + d * 16777216)
    ∷ u32_words be bs
u32_words be _ = []

-- `(uint16_t)((x >> 8) | (x << 8))`
unfoldable pub bswap16 : ℕ → ℕ
bswap16 x = x / 256 + x % 256 * 256

unfoldable pub lj_bswap : ℕ → ℕ
lj_bswap x = x / 16777216 + x / 65536 % 256 * 256 + x / 256 % 256 * 65536 + x % 256 * 16777216

unfoldable pub flat : (ℕ → Bytes) → List ℕ → Bytes
flat f [] = []
flat f (w ∷ ws) = f w ++ flat f ws

-- Swapping when the reader's byte order is not the writer's.
unfoldable pub swap_if : Bool → (ℕ → ℕ) → List ℕ → List ℕ
swap_if swap f ws = if swap then map f ws else ws

unfoldable pub differ : Bool → Bool → Bool
differ true true = false
differ false false = false
differ _ _ = true

pub length-flat16 : (be : Bool) (ws : List ℕ) → length (flat (u16_bytes be) ws) ≡ length ws * 2
unfolding flat u16_bytes
length-flat16 be [] = refl
length-flat16 true (w ∷ ws) = omega (arith, length-flat16 true ws)
length-flat16 false (w ∷ ws) = omega (arith, length-flat16 false ws)

pub length-flat32 : (be : Bool) (ws : List ℕ) → length (flat (u32_bytes be) ws) ≡ length ws * 4
unfolding flat u32_bytes
length-flat32 be [] = refl
length-flat32 true (w ∷ ws) = omega (arith, length-flat32 true ws)
length-flat32 false (w ∷ ws) = omega (arith, length-flat32 false ws)

-- Written on one host and read on another, half-words keep their values.
pub u16_words-flat :
    (be be' : Bool) (ws : List ℕ)
    → All (λ w. w < 65536) ws
    → swap_if (differ be be') bswap16 (u16_words be' (flat (u16_bytes be) ws)) ≡ ws
unfolding flat u16_bytes u16_words swap_if differ bswap16
u16_words-flat true true [] h = refl
u16_words-flat true false [] h = refl
u16_words-flat false true [] h = refl
u16_words-flat false false [] h = refl
u16_words-flat true true (w ∷ ws) h = ground (arith, u16_words-flat true true ws)
u16_words-flat true false (w ∷ ws) h = ground (arith, u16_words-flat true false ws)
u16_words-flat false true (w ∷ ws) h = ground (arith, u16_words-flat false true ws)
u16_words-flat false false (w ∷ ws) h = ground (arith, u16_words-flat false false ws)

-- Words that a host wrote to memory, read on a host of the same or the other byte order, are the
-- same words after `lj_bswap` where the orders differ.
pub u32_words-flat :
    (be be' : Bool) (ws : List ℕ)
    → All (λ w. w < 4294967296) ws
    → swap_if (differ be be') lj_bswap (u32_words be' (flat (u32_bytes be) ws)) ≡ ws
unfolding flat u32_bytes u32_words swap_if differ lj_bswap
u32_words-flat true true [] h = refl
u32_words-flat true false [] h = refl
u32_words-flat false true [] h = refl
u32_words-flat false false [] h = refl
u32_words-flat true true (w ∷ ws) h = ground (arith, u32_words-flat true true ws)
u32_words-flat true false (w ∷ ws) h = ground (arith, u32_words-flat true false ws)
u32_words-flat false true (w ∷ ws) h = ground (arith, u32_words-flat false true ws)
u32_words-flat false false (w ∷ ws) h = ground (arith, u32_words-flat false false ws)

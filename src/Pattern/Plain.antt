-- ===== src/Pattern/Plain.antt =====
-- The plain search of luajit/lib_string.c, `lmemfind`. A position counts from the start of the
-- bytes that are searched.
pub mod Leftmost
use qyz_client_lua.Base.{
  ℕ, zero, suc, ◌+◌, ◌-◌, List, [], ◌∷◌, Option, none, some, ltb, ◌==◌, if◌then◌else◌, drop, length,
}
use qyz_client_lua.Pattern.Match.{same_bytes}

unfoldable pub shift : ℕ → Option ℕ → Option ℕ
shift n none = none
shift n (some i) = some (n + i)

-- `memchr(s, c, n)` of the C library.
unfoldable pub memchr : ℕ → ℕ → List ℕ → Option ℕ
memchr c zero s = none
memchr c (suc n) [] = none
memchr c (suc n) (x ∷ s) = let later = shift 1 (memchr c n s) in if x == c then some 0 else later

-- The loop, with a bound on its rounds. `c` and `s2` are the bytes of the string that is searched
-- for, and `l2` the length of `s2`.
unfoldable pub search_loop : ℕ → ℕ → ℕ → List ℕ → List ℕ → ℕ → Option ℕ
search_loop zero c l2 s2 s1 l1 = none
search_loop (suc rounds) c l2 s2 s1 l1 = if l1 == 0 then none else elim (memchr c l1 s1) [
  | none ↦ none
  | some k ↦
      let rest = shift (k + 1) (search_loop rounds c l2 s2 (drop (k + 1) s1) (l1 - (k + 1))) in
      if same_bytes l2 (drop (k + 1) s1) s2 then some k else rest
]

-- Each round takes a byte from `l1`.
unfoldable pub lmemfind : List ℕ → List ℕ → Option ℕ
lmemfind s1 [] = some 0
lmemfind s1 (c ∷ s2) =
    let l1 : ℕ = length s1 - length s2 in
    if ltb (length s1) (suc (length s2)) then none else search_loop l1 c (length s2) s2 s1 l1

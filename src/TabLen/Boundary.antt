-- ===== src/TabLen/Boundary.antt =====
-- The searches for a boundary of a table.
use qyz_client_lua.Base.{
  length, none, some, Option, not, ◌&&◌, ◌==◌, ℕ, zero, suc, ◌+◌, ◌-◌, ◌*◌, ◌/◌, ◌<◌, ◌≤◌, ◌≡◌, ◌⊎◌,
  inl, inr, refl, ◌∙◌, Bool, true, false, ltb, arith, Bool-cases,
}
use qyz_client_lua.TabLen.{
  Tab, present, array_loop, binary_search, linear_search, double_loop, unbound_search, lj_tab_len,
}

-- Slot `n` is index `n`; index 0 counts as filled.
unfoldable pub IsBoundary : (ℕ → Bool) → ℕ → Type 0
IsBoundary slot n = ((n ≡ 0) ⊎ (slot n ≡ true)) × (slot (n + 1) ≡ false)

array_loop-IsBoundary :
    (slot : ℕ → Bool) (rounds i j : ℕ)
    → 0 < i
    → i < j
    → j - i ≤ rounds
    → (i ≡ 1) ⊎ (slot (i - 1) ≡ true)
    → slot (j - 1) ≡ false
    → IsBoundary slot (array_loop slot rounds i j)
unfolding array_loop IsBoundary
array_loop-IsBoundary slot zero i j p l r f e = absurd (omega arith)
array_loop-IsBoundary slot (suc rounds) i j p l r f e = elim (Bool-cases (ltb 1 (j - i))) [
  | inl more ↦ elim (Bool-cases (slot ((i + j) / 2 - 1))) [
    | inl filled ↦
        rw (more, filled)
          (array_loop-IsBoundary slot rounds ((i + j) / 2) j (omega arith) (ground arith)
            (ground arith) (inr filled) e)
    | inr empty ↦
        rw (more, empty)
          (array_loop-IsBoundary slot rounds i ((i + j) / 2) p (ground arith) (ground arith) f
            empty)
  ]
  | inr done ↦ let back : i - 1 + 1 ≡ j - 1 = ground arith in rw done (first f, rw back e)
]
  where
    first : (i ≡ 1) ⊎ (slot (i - 1) ≡ true) → (i - 1 ≡ 0) ⊎ (slot (i - 1) ≡ true)
    first (inl one) = inl (omega arith)
    first (inr filled) = inr filled

binary_search-IsBoundary :
    (filled : ℕ → Bool) (rounds i j : ℕ)
    → i < j
    → j - i ≤ rounds
    → (i ≡ 0) ⊎ (filled i ≡ true)
    → filled j ≡ false
    → IsBoundary filled (binary_search filled rounds i j)
unfolding binary_search IsBoundary
binary_search-IsBoundary filled zero i j l r f e = absurd (omega arith)
binary_search-IsBoundary filled (suc rounds) i j l r f e = elim (Bool-cases (ltb 1 (j - i))) [
  | inl more ↦ elim (Bool-cases (filled ((i + j) / 2))) [
    | inl hit ↦
        rw (more, hit)
          (binary_search-IsBoundary filled rounds ((i + j) / 2) j (ground arith) (ground arith)
            (inr hit) e)
    | inr miss ↦
        rw (more, miss)
          (binary_search-IsBoundary filled rounds i ((i + j) / 2) (ground arith) (ground arith) f
            miss)
  ]
  | inr done ↦ let next : i + 1 ≡ j = ground arith in rw done (f, rw next e)
]

-- A boundary was found.
abbrev pub Finds : (ℕ → Bool) → Option ℕ → Type 0
Finds filled none = ⊥
Finds filled (some n) = IsBoundary filled n

linear_search-Finds :
    (filled : ℕ → Bool) (limit fuel i : ℕ)
    → ((k : ℕ) → limit ≤ k → filled k ≡ false)
    → 0 < i
    → limit + 2 ≤ i + fuel
    → (i ≡ 1) ⊎ (filled (i - 1) ≡ true)
    → Finds filled (linear_search filled fuel i)
unfolding linear_search IsBoundary
linear_search-Finds filled limit zero i h p b (inl one) = absurd (omega arith)
linear_search-Finds filled limit zero i h p b (inr hit) = cc (h (i - 1) (omega arith))
linear_search-Finds filled limit (suc fuel) i h p b f = elim (Bool-cases (filled i)) [
  | inl hit ↦
      let back : i + 1 - 1 ≡ i = omega arith in
      rw hit (
        linear_search-Finds filled limit fuel (i + 1) h (omega arith) (omega arith)
          (inr (rw back hit)))
  | inr miss ↦ let back : i - 1 + 1 ≡ i = omega arith in rw miss (first f, rw back miss)
]
  where
    first : (i ≡ 1) ⊎ (filled (i - 1) ≡ true) → (i - 1 ≡ 0) ⊎ (filled (i - 1) ≡ true)
    first (inl one) = inl (omega arith)
    first (inr hit) = inr hit

double_loop-Finds :
    (filled : ℕ → Bool) (limit rounds i j : ℕ)
    → ((k : ℕ) → limit ≤ k → filled k ≡ false)
    → i < j
    → j ≤ 2147483646
    → 2147483646 < j + rounds
    → (i ≡ 0) ⊎ (filled i ≡ true)
    → Finds filled (double_loop filled (limit + 1) rounds i j)
unfolding double_loop
double_loop-Finds filled limit zero i j h l b r f = absurd (omega arith)
double_loop-Finds filled limit (suc rounds) i j h l b r f =
    go (filled j) (ltb 2147483645 (j * 2)) refl refl λ hit under.
      double_loop-Finds filled limit rounds j (j * 2) h (omega arith) (ground arith) (omega arith)
        (inr hit)
  where
    go :
        (a c : Bool)
        → filled j ≡ a
        → ltb 2147483645 (j * 2) ≡ c
        → (filled j ≡ true
            → ltb 2147483645 (j * 2) ≡ false
            → Finds filled (double_loop filled (limit + 1) rounds j (j * 2)))
        → Finds filled (elim a [
          | true ↦ elim c [
            | true ↦ linear_search filled (limit + 1) 1
            | false ↦ double_loop filled (limit + 1) rounds j (j * 2)
          ]
          | false ↦ some (binary_search filled (j - i) i j)
        ])
    go true true hit over later =
        linear_search-Finds filled limit (limit + 1) 1 h (omega arith) (omega arith) (inl refl)
    go true false hit under later = later hit under
    go false c miss size later = binary_search-IsBoundary filled (j - i) i j l (omega arith) f miss

-- The slot that `lj_tab_len` starts from.
start_filled : (len : ℕ) (b : Bool) → (ltb 1 len && not b) ≡ false → (len - 1 ≡ 0) ⊎ (b ≡ true)
start_filled len true h = inr refl
start_filled len false h = inl (ground arith)

start_empty : (len : ℕ) (b : Bool) → (ltb 1 len && not b) ≡ true → (1 < len) × (b ≡ false)
start_empty len true h = absurd (ground arith)
start_empty len false h = (ground arith, refl)

present-hash : (t : Tab) (k : ℕ) → length t.array ≤ k → present t k ≡ t.hash k
unfolding present
present-hash t k h = let outside : ltb k (length t.array) ≡ false = ground arith in rw outside refl

-- For a table whose integer keys end below `limit`, with an array part of at most 2 ^ 31 - 3 slots
-- and no keys in an empty hash part, `lj_tab_len` ends and gives a boundary: an index that is 0 or
-- has a value, with no value at the next index.
pub lj_tab_len-Finds :
    (t : Tab) (limit : ℕ)
    → ((k : ℕ) → limit ≤ k → present t k ≡ false)
    → length t.array ≤ 2147483645
    → (t.hmask ≡ 0 → (k : ℕ) → t.hash k ≡ false)
    → Finds (present t) (lj_tab_len (limit + 1) t)
unfolding lj_tab_len unbound_search IsBoundary
lj_tab_len-Finds t limit h b e =
    let len = length t.array in
    elim (Bool-cases (ltb 1 len && not (present t (len - 1)))) [
      | inl search ↦
          let (long, empty) = start_empty len (present t (len - 1)) search in
          rw search (
            array_loop-IsBoundary (present t) len 1 len (omega arith) long (omega arith) (inl refl)
              empty)
      | inr keep ↦
          let filled = start_filled len (present t (len - 1)) keep in
          elim (Bool-cases (t.hmask == 0)) [
            | inl none_hashed ↦
                rw (keep, none_hashed)
                  (
                    filled,
                    present-hash t (len - 1 + 1) (omega arith) ∙ e (ground arith) (len - 1 + 1),
                  )
            | inr hashed ↦
                rw (keep, hashed)
                  (double_loop-Finds (present t) limit 2147483647 (len - 1) (len - 1 + 1) h
                    (omega arith) (omega arith) (omega arith) filled)
          ]
    ]

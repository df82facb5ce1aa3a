-- ===== src/TabLen.antt =====
-- The length of a table, luajit/lj_tab.c: `lj_tab_len` and `unbound_search`. The array part is told by
-- which slots are not nil, and the hash part by which integer keys it has.
pub mod Boundary
use qyz_client_lua.Base.{
  ℕ, zero, suc, ◌+◌, ◌-◌, ◌*◌, ◌/◌, Bool, true, false, not, ◌&&◌, Option, none, some, List, leb,
  ltb, ◌==◌, if◌then◌else◌, get_or, length,
}

pub record Tab : Type 0 where
  pub array : List Bool
  pub hmask : ℕ
  pub hash : ℕ → Bool

-- `(tv = lj_tab_getint(t, k)) && !tvisnil(tv)`
unfoldable pub present : Tab → ℕ → Bool
present t k = if ltb k (length t.array) then get_or t.array k false else t.hash k

-- The loop over the array part, with a bound on its rounds; `present` at `m - 1` is `arrayslot`.
unfoldable pub array_loop : (ℕ → Bool) → ℕ → ℕ → ℕ → ℕ
array_loop slot zero i j = i - 1
array_loop slot (suc rounds) i j =
    let m : ℕ = (i + j) / 2 in
    let up = array_loop slot rounds m j in
    let down = array_loop slot rounds i m in
    if ltb 1 (j - i) then (if slot (m - 1) then up else down) else i - 1

-- `while (j - i > 1) { m = (i+j)/2; if (present) i = m; else j = m; }`
unfoldable pub binary_search : (ℕ → Bool) → ℕ → ℕ → ℕ → ℕ
binary_search filled zero i j = i
binary_search filled (suc rounds) i j =
    let m : ℕ = (i + j) / 2 in
    let up = binary_search filled rounds m j in
    let down = binary_search filled rounds i m in
    if ltb 1 (j - i) then (if filled m then up else down) else i

-- `while (present) i++; return i - 1;`
unfoldable pub linear_search : (ℕ → Bool) → ℕ → ℕ → Option ℕ
linear_search filled zero i = none
linear_search filled (suc fuel) i =
    let next = linear_search filled fuel (i + 1) in if filled i then next else some (i - 1)

-- The doubling loop; its last test is `j > INT_MAX-2`.
unfoldable pub double_loop : (ℕ → Bool) → ℕ → ℕ → ℕ → ℕ → Option ℕ
double_loop filled fuel zero i j = none
double_loop filled fuel (suc rounds) i j = elim (filled j) [
  | true ↦ elim (ltb 2147483645 (j * 2)) [
    | true ↦ linear_search filled fuel 1
    | false ↦ double_loop filled fuel rounds j (j * 2)
  ]
  | false ↦ some (binary_search filled (j - i) i j)
]

-- `j` grows with each round, so there are fewer rounds than INT_MAX.
unfoldable pub unbound_search : (ℕ → Bool) → ℕ → ℕ → Option ℕ
unbound_search filled fuel j = double_loop filled fuel 2147483647 j (j + 1)

unfoldable pub lj_tab_len : ℕ → Tab → Option ℕ
lj_tab_len fuel t =
    let j : ℕ = length t.array in
    if ltb 1 j && not (present t (j - 1))
    then some (array_loop (present t) j 1 j)
    else if t.hmask == 0
    then some (j - 1)
    else unbound_search (present t) fuel (j - 1)

-- ===== src/Tab/Count.antt =====
-- The counting of keys for a rehash, luajit/lj_tab.c: `countint`, `countarray`, `counthash`, and the
-- sizes that `rehashtab` hands to `resizetab`. Counts are not above the number of places and one, which
-- fits into a word.
pub mod Bins
pub mod Keys
pub mod Room
use qyz_client_lua.Base.{
  ℕ, zero, suc, ◌+◌, ◌-◌, ◌*◌, ◌^◌, Bool, true, false, not, ◌&&◌, Option, none, some, ltb, leb,
  ◌==◌, if◌then◌else◌, put,
}
use qyz_client_lua.Dump.Proto.{Num, Doubles}
use qyz_client_lua.Dump.Write.{lj_fls}
use qyz_client_lua.Strs.Intern.{sub_word}
use qyz_client_lua.Tab.{TValue, nil, bool, num, str, gcref, Node, GcTab, tvisnil}
use qyz_client_lua.Tab.Access.{is_int}
use qyz_client_lua.TabSize.{bestasize}

-- LJ_MAX_ABITS and LJ_MAX_ASIZE.
abbrev pub max_abits : ℕ
max_abits = 28

abbrev pub max_asize : ℕ
max_asize = 2 ^ 27 + 1

-- The number of bits for the nodes of `s` keys.
unfoldable pub hsize2hbits : ℕ → ℕ
hsize2hbits s = if s == 0 then 0 else if s == 1 then 1 else 1 + lj_fls (s - 1)

-- The counts of the bins, and how much was counted.
abbrev pub Counted : Type 0
Counted = (ℕ → ℕ) × ℕ

-- `for (n = 0; i <= top; i++) if (!tvisnil(&array[i])) n++;`, for so many slots.
unfoldable pub count_slots : ℕ → (ℕ → TValue) → ℕ → ℕ → ℕ
count_slots zero array i n = n
count_slots (suc slots) array i n =
    count_slots slots array (i + 1) (if tvisnil (array i) then n else n + 1)

-- The loop over the bins, in which `i` is the first slot that was not counted.
unfoldable pub array_bins : ℕ → GcTab → ℕ → ℕ → ℕ → (ℕ → ℕ) → Counted
array_bins zero t b i na bins = (bins, na)
array_bins (suc rounds) t b i na bins =
    let cut = leb t.asize (2 * 2 ^ b) in
    let top = if cut then t.asize - 1 else 2 * 2 ^ b in
    let slots : ℕ = top + 1 - i in
    let n = count_slots slots t.array i 0 in
    let further = array_bins rounds t (b + 1) (i + slots) (na + n) (put bins b (bins b + n)) in
    if cut && ltb top i then (bins, na) else further

unfoldable pub countarray : GcTab → (ℕ → ℕ) → Counted
countarray t bins = if t.asize == 0 then (bins, 0) else array_bins max_abits t 0 0 0 bins

module _ (fp : Doubles) (strhash : ℕ → ℕ) where
  -- The bin of an integer key.
  abbrev pub bin : ℕ → ℕ
  bin k = if ltb 2 k then lj_fls (k - 1) else 0

  unfoldable pub countint : TValue → (ℕ → ℕ) → Counted
  countint (num x) bins =
      let k = fp.num2int x in
      if ltb k max_asize && is_int fp strhash x
      then (put bins (bin k) (bins (bin k) + 1), 1)
      else (bins, 0)
  countint nil bins = (bins, 0)
  countint (bool b) bins = (bins, 0)
  countint (str a) bins = (bins, 0)
  countint (gcref g r) bins = (bins, 0)

  -- The loop over the nodes, which counts integer keys and keys.
  unfoldable pub hash_bins : ℕ → GcTab → ℕ → ℕ → ℕ → (ℕ → ℕ) → Counted × ℕ
  hash_bins zero t i total na bins = ((bins, na), total)
  hash_bins (suc nodes) t i total na bins =
      let c = countint (t.node i).key bins in
      let used = hash_bins nodes t (i + 1) (total + 1) (na + c.1) c.0 in
      let unused = hash_bins nodes t (i + 1) total na bins in
      if not (tvisnil (t.node i).val) then used else unused

  unfoldable pub counthash : GcTab → (ℕ → ℕ) → ℕ → Counted × ℕ
  counthash t bins narray = hash_bins (t.hmask + 1) t 0 0 narray bins

  -- All keys, with `ek` among them: the bins and their sum, and the number of the keys.
  unfoldable pub counted_keys : GcTab → TValue → Counted × ℕ
  counted_keys t ek =
      let a = countarray t (λ b. 0) in
      let h = counthash t a.0 a.1 in
      let e = countint ek h.0.0 in ((e.0, h.0.1 + e.1), 1 + a.1 + h.1)

  -- The sizes of the array part and of the hash part, which is given by its bits.
  abbrev pub sizes : ℕ → Option (ℕ × ℕ) → Option (ℕ × ℕ)
  sizes total none = none
  sizes total (some (asize, na)) = some (asize, hsize2hbits (sub_word total na))

  unfoldable pub rehash_sizes : GcTab → TValue → Option (ℕ × ℕ)
  rehash_sizes t ek = let c = counted_keys t ek in sizes c.1 (bestasize c.0.0 c.0.1)

-- ===== src/Tab/Next.antt =====
-- The traversal of a table, luajit/lj_tab.c: `keyindex` and `lj_tab_next`.
pub mod Scans
pub mod Visits
use qyz_client_lua.Base.{
  ℕ, zero, suc, ◌+◌, ◌-◌, ◌%◌, ◌^◌, Bool, true, false, not, ◌&&◌, ltb, leb, ◌==◌, if◌then◌else◌,
}
use qyz_client_lua.Dump.Proto.{Num, Doubles}
use qyz_client_lua.Strs.Intern.{sub_word}
use qyz_client_lua.Tab.{
  TValue, nil, bool, num, str, gcref, Node, GcTab, tvisnil, find, Walk, found, ended, no_rounds,
}
use qyz_client_lua.Tab.Access.{is_int}

-- The index of a key in the traversal, or the error that there is no such key.
pub data Index : Type 0 where
  index : ℕ → Index
  next_error endless : Index

-- A key that the traversal has not: the counter of a despecialised ITERN loop, or an error.
unfoldable pub missing_index : TValue → Index
missing_index (num x) = if x.hi == 0xfffe7fff then index (sub_word x.lo 1) else next_error
missing_index nil = next_error
missing_index (bool b) = next_error
missing_index (str a) = next_error
missing_index (gcref t r) = next_error

abbrev pub hash_index : GcTab → TValue → Walk → Index
hash_index t key (found i) = index ((t.asize + i) % 2 ^ 32)
hash_index t key ended = missing_index key
hash_index t key no_rounds = endless

-- A step of the traversal: the next key and value, or the end.
pub data Step : Type 0 where
  visit : TValue → TValue → Step
  finished bad_key stuck : Step

-- The loop over the nodes, from the node `i` on.
unfoldable pub next_hash : ℕ → GcTab → ℕ → Step
next_hash zero t i = stuck
next_hash (suc rounds) t i =
    let further = next_hash rounds t (i + 1) in
    let n = t.node i in
    if leb i t.hmask then (if not (tvisnil n.val) then visit n.key n.val else further) else finished

module _ (fp : Doubles) (strhash : ℕ → ℕ) where
  unfoldable pub keyindex : GcTab → TValue → Index
  keyindex t nil = index (2 ^ 32 - 1)
  keyindex t (num x) =
      if ltb (fp.num2int x) t.asize && is_int fp strhash x
      then index (fp.num2int x)
      else hash_index t (num x) (find fp strhash t (num x))
  keyindex t (bool b) = hash_index t (bool b) (find fp strhash t (bool b))
  keyindex t (str a) = hash_index t (str a) (find fp strhash t (str a))
  keyindex t (gcref g r) = hash_index t (gcref g r) (find fp strhash t (gcref g r))

  -- The loop over the array part, from the slot `i` on, and what follows it.
  unfoldable pub next_array : ℕ → GcTab → ℕ → Step
  next_array zero t i = stuck
  next_array (suc rounds) t i =
      let further = next_array rounds t (i + 1) in
      if ltb i t.asize
      then (if not (tvisnil (t.array i)) then visit (num (fp.of_int i)) (t.array i) else further)
      else next_hash (t.hmask + 2) t (i - t.asize)

  -- The two loops, from the index `i` on.
  abbrev pub next_from : GcTab → ℕ → Step
  next_from t i = next_array (t.asize + 1) t i

  abbrev pub next_of_index : GcTab → Index → Step
  next_of_index t (index i) = next_from t ((i + 1) % 2 ^ 32)
  next_of_index t next_error = bad_key
  next_of_index t endless = stuck

  unfoldable pub lj_tab_next : GcTab → TValue → Step
  lj_tab_next t key = next_of_index t (keyindex t key)

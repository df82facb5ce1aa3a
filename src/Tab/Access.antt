-- ===== src/Tab/Access.antt =====
-- The getters and setters of luajit/lj_tab.c and luajit/lj_tab.h.
pub mod Spots
pub mod Equality
pub mod Store
pub mod Refines
use qyz_client_lua.Base.{ℕ, Bool, true, false, not, Option, none, some, ltb, if◌then◌else◌}
use qyz_client_lua.Dump.Proto.{Num, Doubles}
use qyz_client_lua.Tab.{
  TValue, nil, bool, num, str, gcref, GcTab, Walk, found, ended, no_rounds, Place, in_array,
  in_hash, read, Setting, slot, nan_index, nil_index, fault, find, lj_tab_newkey,
}

-- A pointer to a value, or NULL; `no_end` stands for a chain that does not end.
pub data Getting : Type 0 where
  at : Place → Getting
  null no_end : Getting

abbrev pub of_walk : Walk → Getting
of_walk (found i) = at (in_hash i)
of_walk ended = null
of_walk no_rounds = no_end

-- The value at a pointer, and `niltv(L)` for NULL.
abbrev pub value_of : GcTab → Getting → Option TValue
value_of t (at p) = some (read t p)
value_of t null = some nil
value_of t no_end = none

module _ (fp : Doubles) (strhash : ℕ → ℕ) where
  unfoldable pub lj_tab_getinth : GcTab → ℕ → Getting
  lj_tab_getinth t key = of_walk (find fp strhash t (num (fp.of_int key)))

  unfoldable pub lj_tab_getstr : GcTab → ℕ → Getting
  lj_tab_getstr t key = of_walk (find fp strhash t (str key))

  unfoldable pub lj_tab_getint : GcTab → ℕ → Getting
  lj_tab_getint t key = if ltb key t.asize then at (in_array key) else lj_tab_getinth t key

  -- `nk == (lua_Number)lj_num2int(nk)`
  abbrev pub is_int : Num → Bool
  is_int x = fp.num_eq x (fp.of_int (fp.num2int x))

  -- From the label `genlookup` on.
  abbrev pub genlookup : GcTab → TValue → Getting
  genlookup t key = of_walk (find fp strhash t key)

  unfoldable pub lj_tab_get : GcTab → TValue → Option TValue
  lj_tab_get t nil = some nil
  lj_tab_get t (str s) = value_of t (lj_tab_getstr t s)
  lj_tab_get t (num x) =
      if is_int x
      then value_of t (lj_tab_getint t (fp.num2int x))
      else value_of t (genlookup t (num x))
  lj_tab_get t (bool b) = value_of t (genlookup t (bool b))
  lj_tab_get t (gcref g r) = value_of t (genlookup t (gcref g r))

  -- The node that was found, or a new key.
  abbrev pub found_or_new : GcTab → TValue → Walk → Setting
  found_or_new t key (found i) = slot (in_hash i) t
  found_or_new t key ended = lj_tab_newkey fp strhash t key
  found_or_new t key no_rounds = fault

  unfoldable pub lj_tab_setinth : GcTab → ℕ → Setting
  lj_tab_setinth t key =
      found_or_new t (num (fp.of_int key)) (find fp strhash t (num (fp.of_int key)))

  unfoldable pub lj_tab_setstr : GcTab → ℕ → Setting
  lj_tab_setstr t key = found_or_new t (str key) (find fp strhash t (str key))

  unfoldable pub lj_tab_setint : GcTab → ℕ → Setting
  lj_tab_setint t key = if ltb key t.asize then slot (in_array key) t else lj_tab_setinth t key

  -- `t->nomm = 0`
  abbrev pub reset_nomm : GcTab → GcTab
  reset_nomm t = record t { nomm = 0 }

  -- The end of `lj_tab_set`.
  abbrev pub set_generic : GcTab → TValue → Setting
  set_generic t key = found_or_new t key (find fp strhash t key)

  unfoldable pub lj_tab_set : GcTab → TValue → Setting
  lj_tab_set t nil = nil_index
  lj_tab_set t (str s) = lj_tab_setstr (reset_nomm t) s
  lj_tab_set t (num x) =
      if is_int x
      then lj_tab_setint (reset_nomm t) (fp.num2int x)
      else if not (fp.num_eq x x)
      then nan_index
      else set_generic (reset_nomm t) (num x)
  lj_tab_set t (bool b) = set_generic (reset_nomm t) (bool b)
  lj_tab_set t (gcref g r) = set_generic (reset_nomm t) (gcref g r)

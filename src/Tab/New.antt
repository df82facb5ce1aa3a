-- ===== src/Tab/New.antt =====
-- The creation of tables, `lj_tab_new` of luajit/lj_tab.c. What stands in fresh memory is given, and
-- nodes that a table does not have are empty.
pub mod Empty
use qyz_client_lua.Base.{
  ℕ, zero, suc, ◌+◌, ◌-◌, ◌*◌, ◌^◌, Bool, ◌&&◌, Option, none, some, ltb, leb, ◌==◌, if◌then◌else◌,
  put,
}
use qyz_client_lua.Tab.{TValue, nil, Node, GcTab}
use qyz_client_lua.Tab.Count.{max_asize}

-- LJ_MAX_HBITS and LJ_MAX_COLOSIZE.
abbrev pub max_hbits : ℕ
max_hbits = 26

abbrev pub max_colosize : ℕ
max_colosize = 16

-- `nilnode` of the global state.
abbrev pub nilnode : Node
nilnode = record { val = nil; key = nil; next = none }

-- The loop of `clearapart`, over so many slots.
unfoldable pub clear_slots : ℕ → (ℕ → TValue) → ℕ → ℕ → TValue
clear_slots zero array i = array
clear_slots (suc slots) array i = clear_slots slots (put array i nil) (i + 1)

unfoldable pub clearapart : GcTab → GcTab
clearapart t = record t { array = clear_slots t.asize t.array 0 }

-- The loop of `clearhpart`, over so many nodes.
unfoldable pub clear_nodes : ℕ → (ℕ → Node) → ℕ → ℕ → Node
clear_nodes zero node i = node
clear_nodes (suc nodes) node i =
    clear_nodes nodes (put node i (record (node i) { next = none; key = nil; val = nil })) (i + 1)

unfoldable pub clearhpart : GcTab → GcTab
clearhpart t = record t { node = clear_nodes (t.hmask + 1) t.node 0 }

module _ (slots : ℕ → TValue) (memory : ℕ → Node) where
  -- `none` is the error LJ_ERR_TABOV.
  unfoldable pub newhpart : GcTab → ℕ → Option GcTab
  newhpart t hbits =
      let hsize = 2 ^ hbits in
      if ltb max_hbits hbits
      then none
      else some (record t {
        node = λ i. if ltb i hsize then memory i else nilnode;
        freetop = hsize;
        hmask = hsize - 1;
      })

  -- A table with an array part only.
  abbrev pub array_only : ℕ → GcTab
  array_only asize = record {
    asize = asize;
    array = slots;
    node = λ i. nilnode;
    hmask = 0;
    freetop = 0;
    nomm = 255;
  }

  unfoldable pub newtab : ℕ → ℕ → Option GcTab
  newtab asize hbits =
      let t = array_only asize in
      let hashed = if hbits == 0 then some t else newhpart t hbits in
      if ltb 0 asize && leb asize max_colosize
      then hashed
      else if ltb 0 asize && ltb max_asize asize
      then none
      else hashed

  abbrev pub cleared : Option GcTab → Option GcTab
  cleared none = none
  cleared (some t) = let t' = clearapart t in some (if ltb 0 t'.hmask then clearhpart t' else t')

  unfoldable pub lj_tab_new : ℕ → ℕ → Option GcTab
  lj_tab_new asize hbits = cleared (newtab asize hbits)

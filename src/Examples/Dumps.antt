-- ===== src/Examples/Dumps.antt =====
-- Dumps of luajit/lj_bcwrite.c and luajit/lj_bcread.c, and 64-bit arithmetic, on concrete inputs.
use qyz_client_lua.Base.{
  ℕ, ◌+◌, ◌*◌, ◌%◌, ◌/◌, ◌≡◌, refl, true, false, ◌&&◌, [], ◌∷◌, ◌++◌, length, drop, ltb, ◌==◌,
  arith,
}
use qyz_client_lua.Dump.Result.{Bytes, ok}
use qyz_client_lua.Dump.Uleb.{
  bcwrite_uleb128, bcread_uleb128, bcwrite_uleb128_loop, bcread_uleb128_33,
}
use qyz_client_lua.Dump.Uleb.Laws.{uleb_lem}
use qyz_client_lua.Dump.Words.{
  u16_bytes, u32_bytes, u32_words, lj_bswap, flat, swap_if, differ, u32_words-flat,
}
use qyz_client_lua.Dump.Proto.{
  Num, Doubles, TabK, Template, Const, Info, Proto, proto, end, child, const,
}
use qyz_client_lua.Dump.Write.{
  lj_fls, bcwrite_sized, bcwrite_body, bcwrite_head, bcwrite_debug_head, debug_bytes,
  bcwrite_bytecode, clean_bc, bcwrite_kgc, bcwrite_const, bcwrite_ktab, bcwrite_array,
  bcwrite_nodes, bcwrite_ktabk, bcwrite_num, is_int, bcwrite_knum, bcwrite_word33, double_word,
  patch_last, used_array, used_nodes, keep, is_nil, size_consts,
}
use qyz_client_lua.Dump.Write.Sizes.{length-uleb-fls, sized_lem}
use qyz_client_lua.Dump.Write.Emit.{lj_bcwrite}
use qyz_client_lua.Dump.Write.Stop.{lj_bcwrite-stop}
use qyz_client_lua.Dump.Read.{bcread_ktab, no_debug}
use qyz_client_lua.Dump.Read.Protos.{lj_bcread}
use qyz_client_lua.Dump.RoundTrip.Dumpable.{
  IsWord, IsDoubles, IsNum, IsTemplate, IsInfo, IsDumpable, dumpable, no_more, a_child, a_const,
  reread,
}
use qyz_client_lua.Dump.RoundTrip.Values.{word33_plain, word33_read, ktab_lem}
use qyz_client_lua.Dump.RoundTrip.Output.{append_to}
use qyz_client_lua.Dump.RoundTrip.Main.{bcread-bcwrite}

below : (n : ℕ) → ltb n 4294967296 ≡ true → IsWord n
below n h = ground arith

-- Stand-ins for double arithmetic: a double is an integer when its high word is 0.
abbrev doubles : Doubles
doubles = record {
  num2int = λ n. n.lo % 4294967296;
  of_int = λ k. record { lo = k; hi = 0 };
  num_eq = λ a b. a.lo == b.lo && a.hi == b.hi;
}

doubles-IsDoubles : IsDoubles doubles
doubles-IsDoubles = record { num2int_word = λ n. omega arith }

abbrev seven : Num
seven = record { lo = 7; hi = 0 }

abbrev half : Num
half = record { lo = 0; hi = 1071644672 }

seven-IsNum : IsNum doubles seven
seven-IsNum = record { lo = omega arith; hi = omega arith; exact = λ e. refl }

half-IsNum : IsNum doubles half
unfolding is_int
half-IsNum = record { lo = omega arith; hi = omega arith; exact = λ e. cc }

abbrev template : Template
template = record {
  array = TabK.nil ∷ TabK.num seven ∷ TabK.nil ∷ [];
  node = record { key = TabK.str (b'x' ∷ []); val = TabK.num half } ∷ [];
}

template-IsTemplate : IsTemplate doubles template
unfolding used_array used_nodes
template-IsTemplate = record {
  array = (tt, (seven-IsNum, tt));
  node = ((omega arith, half-IsNum), tt);
  narray = omega arith;
  nhash = omega arith;
}

ktab_lem_example :
    bcread_ktab doubles (bcwrite_ktab doubles template ++ 9 ∷ [])
    ≡ ok (record { array = TabK.nil ∷ TabK.num seven ∷ []; node = template.node }, 9 ∷ [])
unfolding used_array used_nodes
ktab_lem_example = ktab_lem doubles doubles-IsDoubles template (9 ∷ []) template-IsTemplate

-- A function without debug info, with the given flags.
abbrev info : ℕ → Info
info flags = record {
  flags = flags;
  numparams = 1;
  framesize = 3;
  trace = 0;
  func_ins = 0;
  bc = 65609 ∷ 131 ∷ [];
  uv = 32769 ∷ [];
  knum = seven ∷ half ∷ [];
  firstline = 0;
  numline = 0;
  has_debug = false;
  debug = no_debug;
}

abbrev tree : Proto
tree = proto (info 1) (const (Const.tab template) (child (proto (info 0) end) end))

leaf-IsInfo : IsInfo doubles false true (λ t. 0) (info 0) end
unfolding bcwrite_body bcwrite_head bcwrite_debug_head debug_bytes bcwrite_bytecode clean_bc flat
    u16_bytes u32_bytes bcwrite_kgc bcwrite_const bcwrite_ktab bcwrite_array bcwrite_nodes
    bcwrite_ktabk bcwrite_num is_int bcwrite_knum bcwrite_word33 double_word patch_last
    bcwrite_uleb128 bcwrite_uleb128_loop used_array used_nodes keep is_nil size_consts
leaf-IsInfo = record {
  bc = (below 65609 refl, (below 131 refl, tt));
  uv = (omega arith, tt);
  knum = (seven-IsNum, (half-IsNum, tt));
  nbc = omega arith;
  sizekn = omega arith;
  sizekgc = omega arith;
  debug = λ e. cc;
  size = below _ refl;
  child_flag = λ e. cc;
}

root-IsInfo :
    IsInfo doubles false true
      (λ t. 0)
      (info 1)
      (const (Const.tab template) (child (proto (info 0) end) end))
unfolding bcwrite_body bcwrite_head bcwrite_debug_head debug_bytes bcwrite_bytecode clean_bc flat
    u16_bytes u32_bytes bcwrite_kgc bcwrite_const bcwrite_ktab bcwrite_array bcwrite_nodes
    bcwrite_ktabk bcwrite_num is_int bcwrite_knum bcwrite_word33 double_word patch_last
    bcwrite_uleb128 bcwrite_uleb128_loop used_array used_nodes keep is_nil size_consts
root-IsInfo = record {
  bc = (below 65609 refl, (below 131 refl, tt));
  uv = (omega arith, tt);
  knum = (seven-IsNum, (half-IsNum, tt));
  nbc = omega arith;
  sizekn = omega arith;
  sizekgc = omega arith;
  debug = λ e. cc;
  size = below _ refl;
  child_flag = λ e. refl;
}

tree-IsDumpable : IsDumpable doubles false true (λ t. 0) tree
tree-IsDumpable =
    dumpable root-IsInfo
      (a_const template-IsTemplate (a_child (dumpable leaf-IsInfo no_more) no_more))

bcread-bcwrite_example :
    lj_bcread doubles true
      (b'd' ∷ [])
      (drop 1 (lj_bcwrite append_to doubles false true (λ t. 0) tree (b'c' ∷ []) []).sink)
    ≡ ok ((reread true (λ t. 0) tree, b'd' ∷ []), [])
bcread-bcwrite_example =
    bcread-bcwrite doubles doubles-IsDoubles false true true (λ t. 0) tree (b'c' ∷ []) (b'd' ∷ [])
      tree-IsDumpable (omega arith)

uleb_lem_example : bcread_uleb128 (bcwrite_uleb128 300 ++ 7 ∷ []) ≡ ok (300, 7 ∷ [])
uleb_lem_example = uleb_lem 300 (7 ∷ []) (omega arith)

length-uleb-fls_example : length (bcwrite_uleb128 16384) ≡ (lj_fls 16384 + 8) * 9 / 64
length-uleb-fls_example = length-uleb-fls 16384 (omega arith) (omega arith)

sized_lem_example : bcwrite_sized (1 ∷ 2 ∷ 3 ∷ []) ≡ bcwrite_uleb128 3 ++ (1 ∷ 2 ∷ 3 ∷ [])
sized_lem_example = sized_lem (1 ∷ 2 ∷ 3 ∷ []) (omega arith) (omega arith)

word33_plain_example : bcwrite_word33 1 4000000000 ≡ bcwrite_uleb128_loop 4 8000000001
word33_plain_example = word33_plain 1 4000000000 (omega arith) (omega arith)

word33_read_example :
    bcread_uleb128_33 (bcwrite_word33 1 4000000000 ++ 5 ∷ []) ≡ ok (4000000000, 5 ∷ [])
word33_read_example = word33_read 1 4000000000 (5 ∷ []) (omega arith) (omega arith)

u32_words-flat_example :
    swap_if
      (differ true false)
      lj_bswap
      (u32_words false (flat (u32_bytes true) (305419896 ∷ 7 ∷ [])))
    ≡ 305419896 ∷ 7 ∷ []
u32_words-flat_example =
    u32_words-flat true false (305419896 ∷ 7 ∷ []) (omega arith, (omega arith, tt))

-- A callback that counts its calls, and fails at each.
abbrev failing : ℕ → Bytes → ℕ × ℕ
failing n piece = (n + 1, 5)

lj_bcwrite-stop_example :
    lj_bcwrite failing doubles false true (λ t. 0) tree (b'c' ∷ []) 0
    ≡ record { sink = 1; status = 5 }
lj_bcwrite-stop_example =
    lj_bcwrite-stop failing doubles false true (λ t. 0) tree (b'c' ∷ []) 0 (omega arith)

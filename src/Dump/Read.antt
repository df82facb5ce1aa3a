-- ===== src/Dump/Read.antt =====
-- The reader, lj_bcread.c, over the whole input. `flags` are those of the dump's header. The stack
-- holds the prototypes that were read and not yet used, the last one first.
pub mod Protos
use qyz_client_lua.Base.{
  ℕ, zero, suc, ◌+◌, ◌-◌, ◌*◌, ◌/◌, ◌%◌, ◌^◌, Bool, true, false, ◌&&◌, not, List, [], ◌∷◌, ◌++◌,
  Option, none, some, ltb, leb, ◌==◌, if◌then◌else◌, length, take, drop,
}
use qyz_client_lua.Dump.Result.{
  Bytes, Result, Read, ok, err, fault, bcbad, bcfmt, pure, and_then, ◌>>=◌, ◌>>◌, throw,
  bcread_byte, bcread_need, bcread_mem,
}
use qyz_client_lua.Dump.Uleb.{bcread_uleb128, bcread_uleb128_33}
use qyz_client_lua.Dump.Words.{u16_words, u32_words, bswap16, lj_bswap, swap_if, differ}
use qyz_client_lua.Dump.Proto.{
  Num, Doubles, TabK, KeyVal, Template, Const, Debug, Info, Proto, Consts, proto, end, child, const,
  bcdump_head2, bcdump_head3, bcdump_version, proto_vararg,
}

-- BCDUMP_F_BE, BCDUMP_F_STRIP and BCDUMP_F_FFI.
abbrev pub flag_be : ℕ → Bool
flag_be flags = flags % 2 == 1

abbrev pub flag_strip : ℕ → Bool
flag_strip flags = flags / 2 % 2 == 1

abbrev pub flag_ffi : ℕ → Bool
flag_ffi flags = flags / 4 % 2 == 1

-- The size of the line numbers of `n` instructions.
unfoldable pub line_size : ℕ → ℕ → ℕ
line_size numline n = if ltb numline 256 then n else if ltb numline 65536 then n * 2 else n * 4

abbrev pub name_byte : ℕ → Option (Bytes × Bytes) → Option (Bytes × Bytes)
name_byte b none = none
name_byte b (some (p, q)) = some (b ∷ p, q)

-- `bcread_varinfo`: past `n` names that end in a zero byte. `none`: they do not end.
unfoldable pub bcread_varinfo : ℕ → Bytes → Option (Bytes × Bytes)
bcread_varinfo zero bs = some ([], bs)
bcread_varinfo (suc n) [] = none
bcread_varinfo (suc n) (b ∷ bs) = name_byte b (bcread_varinfo (if b == 0 then n else suc n) bs)

unfoldable pub line_words : Bool → Bool → ℕ → Bytes → List ℕ
line_words be swap numline bs =
    if ltb numline 256
    then bs
    else if ltb numline 65536
    then swap_if swap bswap16 (u16_words be bs)
    else swap_if swap lj_bswap (u32_words be bs)

unfoldable pub no_debug : Debug
no_debug = record { lineinfo = []; uvinfo = []; varinfo = [] }

-- `remaining` is `ls->n`.
unfoldable pub remaining : Read ℕ
remaining bs = ok (length bs, bs)

-- The pointers into the debug info, unless line numbers or names are read past its end.
abbrev pub debug_of : List ℕ → Bool → Option (Bytes × Bytes) → Read Debug
debug_of lineinfo true names = λ _. fault
debug_of lineinfo false none = λ _. fault
debug_of lineinfo false (some (p, q)) =
    pure (record { lineinfo = lineinfo; uvinfo = p; varinfo = q })

-- `bcread_dbg`, with `sizeli` bytes of line numbers.
unfoldable pub split_debug : Bool → Bool → ℕ → ℕ → ℕ → Bytes → Read Debug
split_debug be swap numline sizeli sizeuv bs =
    debug_of (line_words be swap numline (take sizeli bs)) (ltb (length bs) sizeli)
      (bcread_varinfo sizeuv (drop sizeli bs))

module _ (fp : Doubles) where
  -- `setintV` makes a double of it.
  unfoldable pub bcread_num : Read Num
  bcread_num = do lo ← bcread_uleb128; hi ← bcread_uleb128; pure (record { lo = lo; hi = hi })

  -- A type code above BCDUMP_KTAB_TRUE cannot occur here.
  unfoldable pub ktabk_of : ℕ → Read TabK
  unfolding bcread_num
  ktabk_of tp =
      if leb 5 tp
      then (do s ← bcread_mem (tp - 5); pure (TabK.str s))
      else if tp == 3
      then (do k ← bcread_uleb128; pure (TabK.num (fp.of_int k)))
      else if tp == 4
      then (do n ← bcread_num; pure (TabK.num n))
      else pure (if tp == 0 then TabK.nil else if tp == 1 then TabK.false_k else TabK.true_k)

  unfoldable pub bcread_ktabk : Read TabK
  unfolding ktabk_of
  bcread_ktabk = do tp ← bcread_uleb128; ktabk_of tp

  unfoldable pub bcread_array : ℕ → Read (List TabK)
  bcread_array zero = pure []
  bcread_array (suc n) = do o ← bcread_ktabk; os ← bcread_array n; pure (o ∷ os)

  unfoldable pub bcread_nodes : ℕ → Read (List KeyVal)
  bcread_nodes zero = pure []
  bcread_nodes (suc n) = do
    key ← bcread_ktabk
    val ← bcread_ktabk
    ns ← bcread_nodes n
    pure (record { key = key; val = val } ∷ ns)

  -- The array part, and the pairs in the order in which `lj_tab_set` gets them.
  unfoldable pub bcread_ktab : Read Template
  unfolding bcread_array bcread_nodes
  bcread_ktab = do
    narray ← bcread_uleb128
    nhash ← bcread_uleb128
    os ← bcread_array narray
    ns ← bcread_nodes nhash
    pure (record { array = os; node = ns })

  -- A constant with a type code that is not BCDUMP_KGC_CHILD.
  unfoldable pub const_of : ℕ → Read Const
  unfolding bcread_num
  const_of tp =
      if leb 5 tp
      then (do s ← bcread_mem (tp - 5); pure (Const.str s))
      else if tp == 1
      then (do t ← bcread_ktab; pure (Const.tab t))
      else if tp == 4
      then (do re ← bcread_num; im ← bcread_num; pure (Const.complex re im))
      else (do n ← bcread_num; pure (if tp == 2 then Const.i64 n else Const.u64 n))

  -- A child is taken from the stack; `others` reads the constants that follow.
  unfoldable pub pop_child :
      List Proto → (List Proto → Read (Consts × List Proto)) → Read (Consts × List Proto)
  pop_child [] others = throw bcbad
  pop_child (p ∷ stack) others = do (ks, left) ← others stack; pure (child p ks, left)

  unfoldable pub kgc_of :
      ℕ → List Proto → (List Proto → Read (Consts × List Proto)) → Read (Consts × List Proto)
  unfolding pop_child
  kgc_of tp stack others =
      if tp == 0
      then pop_child stack others
      else (do k ← const_of tp; (ks, left) ← others stack; pure (const k ks, left))

  unfoldable pub bcread_kgc : ℕ → List Proto → Read (Consts × List Proto)
  unfolding kgc_of
  bcread_kgc zero stack = pure (end, stack)
  bcread_kgc (suc n) stack = do tp ← bcread_uleb128; kgc_of tp stack (λ left. bcread_kgc n left)

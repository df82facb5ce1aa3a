-- ===== src/Dump/Write.antt =====
-- The writer, lj_bcwrite.c. Each function gives the bytes that it adds to the buffer;
-- `bcwrite_need`, which makes room before the writes, is left out.
pub mod Sizes
pub mod Emit
pub mod Stop
use qyz_client_lua.Base.{
  ℕ, zero, suc, ◌+◌, ◌-◌, ◌*◌, ◌/◌, ◌%◌, ◌^◌, Bool, true, false, ◌&&◌, ◌||◌, not, List, [], ◌∷◌,
  ◌++◌, map, ltb, leb, ◌==◌, if◌then◌else◌, length, drop,
}
use qyz_client_lua.Dump.Result.{Bytes}
use qyz_client_lua.Dump.Uleb.{bcwrite_uleb128}
use qyz_client_lua.Dump.Words.{u16_bytes, u32_bytes, flat}
use qyz_client_lua.Dump.Proto.{
  Num, Doubles, TabK, KeyVal, Template, Const, Debug, Info, Proto, Consts, proto, end, child, const,
  bcdump_head1, bcdump_head2, bcdump_head3, bcdump_version, proto_child, proto_ffi, proto_iloop,
}

-- `2*(uint32_t)w | (w & 0x80000000u)`
unfoldable pub double_word : ℕ → ℕ
double_word w = if leb (2 ^ 31) w then 2 * w % 2 ^ 31 + 2 ^ 31 else 2 * w

-- `*p = (*p & 7) | ((w>>27) & 0x18)` at the last byte.
unfoldable pub patch_last : ℕ → Bytes → Bytes
patch_last w [] = []
patch_last w (b ∷ []) = (b % 8 + w / 2 ^ 30 % 4 * 8) ∷ []
patch_last w (b ∷ c ∷ bs) = b ∷ patch_last w (c ∷ bs)

-- The 33 bits of `w` and `lsb`, in `bcwrite_knum`.
unfoldable pub bcwrite_word33 : ℕ → ℕ → Bytes
unfolding double_word patch_last bcwrite_uleb128
bcwrite_word33 lsb w =
    let bs = bcwrite_uleb128 (lsb + double_word w) in if leb (2 ^ 31) w then patch_last w bs else bs

-- Whether the array and hash entries count.
unfoldable pub is_nil : TabK → Bool
is_nil TabK.nil = true
is_nil _ = false

unfoldable pub keep : TabK → List TabK → List TabK
unfolding is_nil
keep o (k ∷ ks) = o ∷ k ∷ ks
keep o [] = if is_nil o then [] else o ∷ []

-- The array part up to its last entry that is not nil.
unfoldable pub used_array : List TabK → List TabK
unfolding keep
used_array [] = []
used_array (o ∷ os) = keep o (used_array os)

-- The used nodes of the hash part, from the last to the first.
unfoldable pub used_nodes : List KeyVal → List KeyVal
unfolding is_nil
used_nodes [] = []
used_nodes (n ∷ ns) = if is_nil n.val then used_nodes ns else used_nodes ns ++ n ∷ []

-- An instruction that a JIT compiler patched, as it was; `startins` gives the first instruction of
-- a trace.
unfoldable pub unpatch_ins : (ℕ → ℕ) → ℕ → ℕ
unpatch_ins startins w =
    let op : ℕ = w % 256 in
    let ins = startins (w / 2 ^ 16) in
    if op == 76 || op == 79 || op == 82 || op == 74
    then w / 256 * 256 + (op + 75 - 76)
    else if op == 77 || op == 80 || op == 83
    then w / 256 % 256 * 256 + (op + 75 - 77) + ins / 2 ^ 16 % 2 ^ 16 * 2 ^ 16
    else w

-- `lj_fls`: the index of the highest set bit of a word.
unfoldable pub fls_loop : ℕ → ℕ → ℕ
fls_loop zero x = 0
fls_loop (suc rounds) x = let high = suc (fls_loop rounds (x / 2)) in if ltb x 2 then 0 else high

unfoldable pub lj_fls : ℕ → ℕ
unfolding fls_loop
lj_fls x = fls_loop 31 x

-- Bytes stored over others, from a position on.
unfoldable pub place : ℕ → Bytes → Bytes → Bytes
place pos [] ys = ys
place pos (x ∷ xs) [] = []
place zero (x ∷ xs) (y ∷ ys) = x ∷ place zero xs ys
place (suc pos) (x ∷ xs) (y ∷ ys) = y ∷ place pos (x ∷ xs) ys

-- `n` goes to the end of the five bytes, and the writer gets `nn + n` bytes from there.
unfoldable pub bcwrite_sized : Bytes → Bytes
bcwrite_sized body =
    let n = length body in
    let nn : ℕ = (lj_fls n + 8) * 9 / 64 in
    drop (5 - nn) (place (5 - nn) (bcwrite_uleb128 n) (0 ∷ 0 ∷ 0 ∷ 0 ∷ 0 ∷ body))

-- The bytes of one line number.
unfoldable pub line_bytes : Bool → ℕ → ℕ → Bytes
line_bytes be numline l =
    if ltb numline 256 then l ∷ [] else if ltb numline 65536 then u16_bytes be l else u32_bytes be l

unfoldable pub debug_bytes : Bool → Info → Bytes
unfolding flat line_bytes
debug_bytes be pt =
    if pt.has_debug
    then flat (line_bytes be pt.numline) pt.debug.lineinfo ++ pt.debug.uvinfo ++ pt.debug.varinfo
    else []

module _ (fp : Doubles) where
  -- A number constant that an integer stands for.
  unfoldable pub is_int : Num → Bool
  is_int n = fp.num_eq n (fp.of_int (fp.num2int n))

  unfoldable pub bcwrite_num : Num → Bytes
  bcwrite_num n = bcwrite_uleb128 n.lo ++ bcwrite_uleb128 n.hi

  unfoldable pub bcwrite_ktabk : TabK → Bool → Bytes
  unfolding is_int bcwrite_num
  bcwrite_ktabk (TabK.str s) narrow = bcwrite_uleb128 (5 + length s) ++ s
  bcwrite_ktabk (TabK.num n) narrow =
      if narrow && is_int n then 3 ∷ bcwrite_uleb128 (fp.num2int n) else 4 ∷ bcwrite_num n
  bcwrite_ktabk TabK.nil narrow = 0 ∷ []
  bcwrite_ktabk TabK.false_k narrow = 1 ∷ []
  bcwrite_ktabk TabK.true_k narrow = 2 ∷ []

  unfoldable pub bcwrite_array : List TabK → Bytes
  bcwrite_array [] = []
  bcwrite_array (o ∷ os) = bcwrite_ktabk o true ++ bcwrite_array os

  unfoldable pub bcwrite_nodes : List KeyVal → Bytes
  bcwrite_nodes [] = []
  bcwrite_nodes (n ∷ ns) = bcwrite_ktabk n.key false ++ bcwrite_ktabk n.val true ++ bcwrite_nodes ns

  unfoldable pub bcwrite_ktab : Template → Bytes
  unfolding bcwrite_array bcwrite_nodes
  bcwrite_ktab t =
      let os = used_array t.array in
      let ns = used_nodes t.node in
      bcwrite_uleb128 (length os)
      ++ bcwrite_uleb128 (length ns)
      ++ bcwrite_array os
      ++ bcwrite_nodes ns

  unfoldable pub bcwrite_const : Const → Bytes
  unfolding bcwrite_num
  bcwrite_const (Const.str s) = bcwrite_uleb128 (5 + length s) ++ s
  bcwrite_const (Const.tab t) = bcwrite_uleb128 1 ++ bcwrite_ktab t
  bcwrite_const (Const.i64 n) = bcwrite_uleb128 2 ++ bcwrite_num n
  bcwrite_const (Const.u64 n) = bcwrite_uleb128 3 ++ bcwrite_num n
  bcwrite_const (Const.complex re im) = bcwrite_uleb128 4 ++ bcwrite_num re ++ bcwrite_num im

  unfoldable pub bcwrite_kgc : Consts → Bytes
  bcwrite_kgc end = []
  bcwrite_kgc (child p ks) = bcwrite_uleb128 0 ++ bcwrite_kgc ks
  bcwrite_kgc (const k ks) = bcwrite_const k ++ bcwrite_kgc ks

  unfoldable pub bcwrite_knum : List Num → Bytes
  unfolding is_int
  bcwrite_knum [] = []
  bcwrite_knum (n ∷ ns) =
      (if is_int n
        then bcwrite_word33 0 (fp.num2int n)
        else bcwrite_word33 1 n.lo ++ bcwrite_uleb128 n.hi)
      ++ bcwrite_knum ns

-- `startins` gives the first instruction of a trace; `be`: the host is big-endian.
unfoldable pub clean_bc : (ℕ → ℕ) → Info → List ℕ
unfolding unpatch_ins
clean_bc startins pt =
    if proto_iloop pt.flags || not (pt.trace == 0) then map (unpatch_ins startins) pt.bc else pt.bc

unfoldable pub bcwrite_bytecode : Bool → (ℕ → ℕ) → Info → Bytes
bcwrite_bytecode be startins pt = flat (u32_bytes be) (clean_bc startins pt)

unfoldable pub size_consts : Consts → ℕ
size_consts end = 0
size_consts (child p ks) = suc (size_consts ks)
size_consts (const k ks) = suc (size_consts ks)

-- The size and the lines of the debug info, in the header of a prototype. `strip`: leave it out.
unfoldable pub bcwrite_debug_head : Bool → Bool → Info → Bytes
bcwrite_debug_head be strip pt =
    let sizedbg = length (debug_bytes be pt) in
    if strip
    then []
    else bcwrite_uleb128 sizedbg
      ++ (if sizedbg == 0 then [] else bcwrite_uleb128 pt.firstline ++ bcwrite_uleb128 pt.numline)

unfoldable pub bcwrite_head : Bool → Bool → Info → Consts → Bytes
bcwrite_head be strip pt ks =
    (pt.flags % 8)
    ∷ pt.numparams
    ∷ pt.framesize
    ∷ length pt.uv
    ∷ (bcwrite_uleb128 (size_consts ks)
        ++ bcwrite_uleb128 (length pt.knum)
        ++ bcwrite_uleb128 (length pt.bc)
        ++ bcwrite_debug_head be strip pt)

-- The buffer behind the five bytes that are left for the final size.
unfoldable pub bcwrite_body : Doubles → Bool → Bool → (ℕ → ℕ) → Info → Consts → Bytes
bcwrite_body fp be strip startins pt ks =
    bcwrite_head be strip pt ks
    ++ bcwrite_bytecode be startins pt
    ++ flat (u16_bytes be) pt.uv
    ++ bcwrite_kgc fp ks
    ++ bcwrite_knum fp pt.knum
    ++ (if strip then [] else debug_bytes be pt)

-- ===== src/Dump/Read/Protos.antt =====
-- `bcread_knum`, `bcread_bytecode`, `bcread_uv`, `bcread_proto`, `bcread_header` and `lj_bcread` of
-- lj_bcread.c.
use qyz_client_lua.Base.{
  ℕ, zero, suc, ◌+◌, ◌-◌, ◌*◌, ◌%◌, Bool, not, List, [], ◌∷◌, Option, none, some, leb, ◌==◌,
  if◌then◌else◌, length,
}
use qyz_client_lua.Dump.Result.{
  Bytes, Result, Read, ok, err, fault, bcbad, bcfmt, pure, and_then, ◌>>=◌, ◌>>◌, throw,
  bcread_byte, bcread_need, bcread_mem,
}
use qyz_client_lua.Dump.Uleb.{bcread_uleb128, bcread_uleb128_33}
use qyz_client_lua.Dump.Words.{u16_words, u32_words, bswap16, lj_bswap, swap_if, differ}
use qyz_client_lua.Dump.Proto.{
  Num, Doubles, Debug, Info, Proto, proto, bcdump_head2, bcdump_head3, bcdump_version, proto_vararg,
}
use qyz_client_lua.Dump.Read.{
  flag_be, flag_strip, line_size, split_debug, no_debug, remaining, bcread_kgc,
}

-- `ls->p[0]`
unfoldable pub peek : Read ℕ
peek [] = fault
peek (b ∷ bs) = ok (b, b ∷ bs)

-- BCINS_AD(BC_FUNCV or BC_FUNCF, framesize, 0)
unfoldable pub func_header : ℕ → ℕ → ℕ
func_header flags framesize = (if proto_vararg flags then 88 else 85) + framesize * 256

-- What `bcread_proto` reads ahead of the bytecode.
pub record Head : Type 0 where
  pub flags : ℕ
  pub numparams : ℕ
  pub framesize : ℕ
  pub sizeuv : ℕ
  pub sizekgc : ℕ
  pub sizekn : ℕ
  pub nbc : ℕ
  pub sizedbg : ℕ
  pub firstline : ℕ
  pub numline : ℕ

pub record DebugHead : Type 0 where
  pub sizedbg : ℕ
  pub firstline : ℕ
  pub numline : ℕ

unfoldable pub debug_lines : ℕ → Read DebugHead
debug_lines sizedbg =
    if sizedbg == 0 then pure (record { sizedbg = sizedbg; firstline = 0; numline = 0 }) else (do
      firstline ← bcread_uleb128
      numline ← bcread_uleb128
      pure (record { sizedbg = sizedbg; firstline = firstline; numline = numline }))

unfoldable pub debug_head : ℕ → Read DebugHead
unfolding debug_lines
debug_head flags =
    if flag_strip flags
    then pure (record { sizedbg = 0; firstline = 0; numline = 0 })
    else (do sizedbg ← bcread_uleb128; debug_lines sizedbg)

unfoldable pub read_head : ℕ → Read Head
unfolding debug_head
read_head bcflags = do
  flags ← bcread_byte
  numparams ← bcread_byte
  framesize ← bcread_byte
  sizeuv ← bcread_byte
  sizekgc ← bcread_uleb128
  sizekn ← bcread_uleb128
  nbc ← bcread_uleb128
  d ← debug_head bcflags
  pure (record {
    flags = flags;
    numparams = numparams;
    framesize = framesize;
    sizeuv = sizeuv;
    sizekgc = sizekgc;
    sizekn = sizekn;
    nbc = nbc;
    sizedbg = d.sizedbg;
    firstline = d.firstline;
    numline = d.numline;
  })

module _ (fp : Doubles) where
  unfoldable pub knum_of : ℕ → ℕ → Read Num
  knum_of first lo =
      if first % 2 == 1
      then (do hi ← bcread_uleb128; pure (record { lo = lo; hi = hi }))
      else pure (fp.of_int lo)

  unfoldable pub bcread_knum : ℕ → Read (List Num)
  unfolding knum_of
  bcread_knum zero = pure []
  bcread_knum (suc n) = do
    first ← peek
    lo ← bcread_uleb128_33
    k ← knum_of first lo
    ks ← bcread_knum n
    pure (k ∷ ks)

module _ (be : Bool) where
  unfoldable pub bcread_bytecode : ℕ → ℕ → Read (List ℕ)
  bcread_bytecode bcflags nbc = do
    bs ← bcread_mem (nbc * 4)
    pure (swap_if (differ (flag_be bcflags) be) lj_bswap (u32_words be bs))

  unfoldable pub bcread_uv : ℕ → ℕ → Read (List ℕ)
  bcread_uv bcflags sizeuv = do
    bs ← bcread_mem (sizeuv * 2)
    pure (swap_if (differ (flag_be bcflags) be) bswap16 (u16_words be bs))

  unfoldable pub bcread_dbg : ℕ → Head → Read Debug
  bcread_dbg bcflags h = if h.sizedbg == 0 then pure no_debug else (do
    bs ← bcread_mem h.sizedbg
    split_debug be (differ (flag_be bcflags) be) h.numline (line_size h.numline h.nbc) h.sizeuv bs)

unfoldable pub info_of_head : Head → List ℕ → List ℕ → List Num → Debug → Info
info_of_head h bc uv kn d = record {
  flags = h.flags;
  numparams = h.numparams;
  framesize = h.framesize;
  trace = 0;
  func_ins = func_header h.flags h.framesize;
  bc = bc;
  uv = uv;
  knum = kn;
  firstline = h.firstline;
  numline = h.numline;
  has_debug = not (h.sizedbg == 0);
  debug = d;
}

-- `name` is the chunk argument, which names a stripped dump. With BCDUMP_F_FFI the FFI library
-- is loaded, which has no effect here. `none`: not a dump of this kind.
unfoldable pub header_rest : ℕ → Bytes → Read (Option Bytes)
header_rest bcflags name =
    if leb 8 bcflags
    then pure none
    else if flag_strip bcflags
    then pure (some name)
    else (do len ← bcread_uleb128; bcread_need len; s ← bcread_mem len; pure (some s))

unfoldable pub bcread_header : Bytes → Read (Option (ℕ × Bytes))
unfolding header_rest
bcread_header name = do
  h2 ← bcread_byte
  if not (h2 == bcdump_head2) then pure none else (do
    h3 ← bcread_byte
    if not (h3 == bcdump_head3) then pure none else (do
      v ← bcread_byte
      if not (v == bcdump_version) then pure none else (do
        bcflags ← bcread_uleb128
        r ← header_rest bcflags name
        pure (elim r [ none ↦ none | some chunkname ↦ some (bcflags, chunkname) ]))))

-- One prototype must be left, and no input.
unfoldable pub last_proto : Bytes → List Proto → Read (Proto × Bytes)
last_proto chunkname [] bs = err bcbad
last_proto chunkname (p ∷ []) [] = ok ((p, chunkname), [])
last_proto chunkname (p ∷ []) (b ∷ bs) = err bcbad
last_proto chunkname (p ∷ q ∷ ps) bs = err bcbad

module _ (fp : Doubles) (be : Bool) where
  -- The fields of a prototype of `len` bytes; `startn` bytes were left ahead of it. The new
  -- prototype goes onto the stack.
  unfoldable pub proto_fields : ℕ → ℕ → ℕ → List Proto → Read (List Proto)
  proto_fields bcflags len startn stack = do
    h ← read_head bcflags
    bc ← bcread_bytecode be bcflags h.nbc
    uv ← bcread_uv be bcflags h.sizeuv
    (ks, left) ← bcread_kgc fp h.sizekgc stack
    kn ← bcread_knum fp h.sizekn
    d ← bcread_dbg be bcflags h
    n ← remaining
    if len == startn - n then pure (proto (info_of_head h bc uv kn d) ks ∷ left) else throw bcbad

  unfoldable pub proto_of_length : ℕ → ℕ → List Proto → Read (List Proto)
  unfolding remaining
  proto_of_length bcflags len stack = do
    bcread_need len
    startn ← remaining
    proto_fields bcflags len startn stack

  -- `none` marks the end of the dump; the C code looks for a zero byte first, which reads as 0 too.
  unfoldable pub bcread_proto : ℕ → List Proto → Read (Option (List Proto))
  bcread_proto bcflags stack = do
    len ← bcread_uleb128
    if len == 0
        then pure none
        else (do stack' ← proto_of_length bcflags len stack; pure (some stack'))

  -- The loop of `lj_bcread`, with a bound on its rounds.
  unfoldable pub read_protos : ℕ → ℕ → List Proto → Read (List Proto)
  read_protos zero bcflags stack = λ _. fault
  read_protos (suc rounds) bcflags stack = do
    r ← bcread_proto bcflags stack
    elim r [ none ↦ pure stack | some stack' ↦ read_protos rounds bcflags stack' ]

  -- `bs` is the input behind the first byte, which the caller has looked at. The result is the
  -- root prototype, and the chunk name.
  unfoldable pub lj_bcread : Bytes → Bytes → Result ((Proto × Bytes) × Bytes)
  lj_bcread name bs = and_then (bcread_header name bs) λ r. elim r [
    | none ↦ throw bcfmt
    | some (bcflags, chunkname) ↦
        λ left. and_then (read_protos (suc (length bs)) bcflags [] left) (last_proto chunkname)
  ]

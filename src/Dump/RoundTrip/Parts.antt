-- ===== src/Dump/RoundTrip/Parts.antt =====
-- Reading back the parts of a prototype: its head, instructions, upvalues and debug info.
use qyz_client_lua.Base.{
  ℕ, ◌%◌, ◌<◌, ◌≡◌, refl, sym, ap, ◌∙◌, inl, inr, Bool, true, false, List, [], ◌∷◌, ◌++◌,
  append_assoc, append-nil, All, arith, length, ltb, ◌==◌, if◌then◌else◌, Bool-cases, length-append,
  ge→ltb, take-append, drop-append,
}
use qyz_client_lua.Dump.Result.{Bytes, ok, bcread_byte}
use qyz_client_lua.Dump.Uleb.Laws.{uleb_lem}
use qyz_client_lua.Dump.Words.{
  u16_bytes, u32_bytes, flat, differ, length-flat16, length-flat32, u16_words-flat, u32_words-flat,
}
use qyz_client_lua.Dump.Proto.{Info, Consts}
use qyz_client_lua.Dump.Write.{
  line_bytes, debug_bytes, clean_bc, bcwrite_bytecode, size_consts, bcwrite_debug_head,
  bcwrite_head,
}
use qyz_client_lua.Dump.Write.Emit.{header_flags}
use qyz_client_lua.Dump.Read.{flag_be, flag_strip, line_size, split_debug, line_words, no_debug}
use qyz_client_lua.Dump.Read.Protos.{
  Head, DebugHead, debug_head, read_head, bcread_bytecode, bcread_uv, bcread_dbg,
}
use qyz_client_lua.Dump.RoundTrip.Dumpable.{IsWord, IsDebug, line_limit}
use qyz_client_lua.Dump.RoundTrip.Values.{mem_lem}

-- The flags that the header of a dump tells the reader.
pub header_flags_lem :
    (be strip : Bool) (pt : Info)
    → (flag_be (header_flags be strip pt) ≡ be)
      × (flag_strip (header_flags be strip pt) ≡ strip)
      × (header_flags be strip pt < 8)
unfolding header_flags
header_flags_lem true true pt = ground arith
header_flags_lem true false pt = ground arith
header_flags_lem false true pt = ground arith
header_flags_lem false false pt = ground arith

-- On a host of either byte order, from a host of either byte order.
module _ (be be' : Bool) (flags : ℕ) (same : flag_be flags ≡ be) where
  pub uv_lem :
      (uv : List ℕ) (rest : Bytes)
      → All (λ w. w < 65536) uv
      → bcread_uv be' flags (length uv) (flat (u16_bytes be) uv ++ rest) ≡ ok (uv, rest)
  unfolding bcread_uv
  uv_lem uv rest h = rw (
    ← length-flat16 be uv,
    mem_lem (flat (u16_bytes be) uv) rest,
    same,
    u16_words-flat be be' uv h,
  )

  pub bytecode_lem :
      (startins : ℕ → ℕ) (pt : Info) (n : ℕ) (rest : Bytes)
      → n ≡ length (clean_bc startins pt)
      → All IsWord (clean_bc startins pt)
      → bcread_bytecode be' flags n (bcwrite_bytecode be startins pt ++ rest)
        ≡ ok (clean_bc startins pt, rest)
  unfolding bcread_bytecode bcwrite_bytecode
  bytecode_lem startins pt n rest e h =
      rw
        (
          e,
          ← length-flat32 be (clean_bc startins pt),
          mem_lem (flat (u32_bytes be) (clean_bc startins pt)) rest,
          same,
        )
        (ground (arith, u32_words-flat be be' (clean_bc startins pt) h))

-- The debug info as the reader needs it, by whether it is kept.
unfoldable pub kept_head : Bool → Bool → Info → DebugHead
kept_head be kept pt = record {
  sizedbg = if kept then length (debug_bytes be pt) else 0;
  firstline = if kept then pt.firstline else 0;
  numline = if kept then pt.numline else 0;
}

abbrev pub kept : Bool → Info → Bool
kept strip pt = if strip then false else pt.has_debug

debug_bytes-none : (be : Bool) (pt : Info) → pt.has_debug ≡ false → debug_bytes be pt ≡ []
unfolding debug_bytes
debug_bytes-none be pt e = simp e

debug_bytes-some :
    (be : Bool) (pt : Info)
    → pt.has_debug ≡ true
    → debug_bytes be pt
      ≡ flat (line_bytes be pt.numline) pt.debug.lineinfo ++ (pt.debug.uvinfo ++ pt.debug.varinfo)
unfolding debug_bytes
debug_bytes-some be pt e = simp (e, append_assoc)

pub nonzero : {n : ℕ} → 0 < n → (n == 0) ≡ false
nonzero h = ground arith

pub debug_head_lem :
    (be strip : Bool) (flags : ℕ) (pt : Info) (rest : Bytes)
    → flag_strip flags ≡ strip
    → (pt.has_debug ≡ true → IsDebug be pt)
    → debug_head flags (bcwrite_debug_head be strip pt ++ rest)
      ≡ ok (kept_head be (kept strip pt) pt, rest)
unfolding debug_head bcwrite_debug_head kept_head
debug_head_lem be true flags pt rest e h = rw e
debug_head_lem be false flags pt rest e h = elim (Bool-cases pt.has_debug) [
  | inl yes_debug ↦
      let d = h yes_debug in
      simp (e, nonzero d.nonempty, yes_debug, append_assoc)
        (rw (
          uleb_lem _ _ d.sized,
          nonzero d.nonempty,
          uleb_lem _ _ d.firstline,
          uleb_lem _ rest d.numline,
        ))
  | inr no_debug' ↦
      simp (e, debug_bytes-none be pt no_debug', no_debug', append-nil)
        (rw (uleb_lem 0 rest (omega arith)))
]

-- The head that `bcwrite_proto` writes.
abbrev pub written_head : Bool → Bool → Info → Consts → Head
written_head be strip pt ks =
    let d = kept_head be (kept strip pt) pt in
    record {
      flags = pt.flags % 8;
      numparams = pt.numparams;
      framesize = pt.framesize;
      sizeuv = length pt.uv;
      sizekgc = size_consts ks;
      sizekn = length pt.knum;
      nbc = length pt.bc;
      sizedbg = d.sizedbg;
      firstline = d.firstline;
      numline = d.numline;
    }

pub head_lem :
    (be strip : Bool) (flags : ℕ) (pt : Info) (ks : Consts) (rest : Bytes)
    → flag_strip flags ≡ strip
    → (pt.has_debug ≡ true → IsDebug be pt)
    → IsWord (size_consts ks)
    → IsWord (length pt.knum)
    → IsWord (length pt.bc)
    → read_head flags (bcwrite_head be strip pt ks ++ rest) ≡ ok (written_head be strip pt ks, rest)
unfolding read_head bcwrite_head bcread_byte
head_lem be strip flags pt ks rest e h hk hn hb = simp append_assoc (
    rw (
      uleb_lem _ _ hk,
      uleb_lem _ _ hn,
      uleb_lem _ _ hb,
      debug_head_lem be strip flags pt rest e h,
    ))

lines_length :
    (be : Bool) (numline : ℕ) (ls : List ℕ)
    → length (flat (line_bytes be numline) ls) ≡ line_size numline (length ls)
unfolding flat line_bytes line_size u16_bytes u32_bytes
lines_length be numline [] = ground arith
lines_length be numline (l ∷ ls) = ground (arith, lines_length be numline ls)

flat_one : (ls : List ℕ) → flat (λ l. l ∷ []) ls ≡ ls
unfolding flat
flat_one [] = refl
flat_one (l ∷ ls) = ap (◌∷◌ l) (flat_one ls)

flat-cong : (f g : ℕ → Bytes) (ls : List ℕ) → ((l : ℕ) → f l ≡ g l) → flat f ls ≡ flat g ls
unfolding flat
flat-cong f g [] e = refl
flat-cong f g (l ∷ ls) e = rw (e l, flat-cong f g ls e)

lines_words :
    (be be' : Bool) (numline : ℕ) (ls : List ℕ)
    → All (λ l. l < line_limit numline) ls
    → line_words be' (differ be be') numline (flat (line_bytes be numline) ls) ≡ ls
unfolding line_words line_bytes
lines_words be be' numline ls h = elim (Bool-cases (ltb numline 256)) [
  | inl small ↦
      rw (small, flat-cong (line_bytes be numline) (λ l. l ∷ []) ls (λ l. rw small)) (flat_one ls)
  | inr large ↦ elim (Bool-cases (ltb numline 65536)) [
    | inl half ↦
        rw
          (large, half, flat-cong (line_bytes be numline) (u16_bytes be) ls (λ l. rw (large, half)))
          (u16_words-flat be be' ls (rw (large, half) at h))
    | inr full ↦
        rw
          (large, full, flat-cong (line_bytes be numline) (u32_bytes be) ls (λ l. rw (large, full)))
          (u32_words-flat be be' ls (rw (large, full) at h))
  ]
]

split_debug_lem :
    (be be' : Bool) (pt : Info) (rest : Bytes)
    → pt.has_debug ≡ true
    → IsDebug be pt
    → split_debug be'
        (differ be be')
        pt.numline
        (line_size pt.numline (length pt.bc))
        (length pt.uv)
        (debug_bytes be pt)
        rest
      ≡ ok (pt.debug, rest)
unfolding split_debug
split_debug_lem be be' pt rest on d =
    let n : line_size pt.numline (length pt.bc)
        ≡ length (flat (line_bytes be pt.numline) pt.debug.lineinfo) =
      ap (line_size pt.numline) (sym d.lines)
      ∙ sym (lines_length be pt.numline pt.debug.lineinfo) in
    let lines = flat (line_bytes be pt.numline) pt.debug.lineinfo in
    let info = pt.debug.uvinfo ++ pt.debug.varinfo in
    rw (
      n,
      debug_bytes-some be pt on,
      take-append lines info,
      drop-append lines info,
      d.names,
      lines_words be be' pt.numline pt.debug.lineinfo d.fits,
      ge→ltb (length (lines ++ info)) (length lines) (omega (arith, length-append lines info)),
    )

-- The debug info comes back, or nothing does if there is none.
pub dbg_lem :
    (be be' strip : Bool) (flags : ℕ) (pt : Info) (h : Head) (rest : Bytes)
    → flag_be flags ≡ be
    → (pt.has_debug ≡ true → IsDebug be pt)
    → h.sizedbg ≡ (kept_head be (kept strip pt) pt).sizedbg
    → h.numline ≡ (kept_head be (kept strip pt) pt).numline
    → h.nbc ≡ length pt.bc
    → h.sizeuv ≡ length pt.uv
    → bcread_dbg be' flags h ((if strip then [] else debug_bytes be pt) ++ rest)
      ≡ ok (if kept strip pt then pt.debug else no_debug, rest)
unfolding bcread_dbg kept_head
dbg_lem be be' true flags pt h rest e d es en eb eu = rw es
dbg_lem be be' false flags pt h rest e d es en eb eu = elim (Bool-cases pt.has_debug) [
  | inl some_debug ↦
      let dd = d some_debug in
      let size : h.sizedbg ≡ length (debug_bytes be pt) = simp some_debug at es in
      let lines : h.numline ≡ pt.numline = simp some_debug at en in
      simp (some_debug, size, lines, eb, eu, e)
        (rw (nonzero dd.nonempty, mem_lem (debug_bytes be pt) rest)
          (split_debug_lem be be' pt rest some_debug dd))
  | inr none_debug ↦
      let size : h.sizedbg ≡ 0 = simp none_debug at es in
      simp (none_debug, size, debug_bytes-none be pt none_debug)
]

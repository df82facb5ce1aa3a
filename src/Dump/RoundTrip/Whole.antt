-- ===== src/Dump/RoundTrip/Whole.antt =====
-- Reading back a whole prototype.
use qyz_client_lua.Base.{
  ℕ, ◌+◌, ◌-◌, ◌≡◌, refl, inl, inr, Bool, true, false, List, ◌∷◌, ◌++◌, append_assoc, arith, length,
  ◌==◌, if◌then◌else◌, Bool-cases, length-append, length-map, ge→ltb, some,
}
use qyz_client_lua.Dump.Result.{Bytes, ok, bcread_need}
use qyz_client_lua.Dump.Uleb.{bcread_uleb128}
use qyz_client_lua.Dump.Uleb.Laws.{uleb_lem}
use qyz_client_lua.Dump.Proto.{Doubles, Const, Info, Proto, Consts, proto, end, child, const}
use qyz_client_lua.Dump.Write.{
  bcwrite_num, bcwrite_ktab, bcwrite_const, bcwrite_kgc, size_consts, bcwrite_sized, bcwrite_body,
  clean_bc, unpatch_ins,
}
use qyz_client_lua.Dump.Write.Sizes.{sized_lem, body_pos}
use qyz_client_lua.Dump.Read.{kgc_of, bcread_kgc, remaining, flag_be, flag_strip, no_debug}
use qyz_client_lua.Dump.Read.Protos.{proto_fields, proto_of_length, bcread_proto, info_of_head}
use qyz_client_lua.Dump.RoundTrip.Dumpable.{
  IsDoubles, IsDebug, IsConst, IsInfo, AreDumpable, a_child, a_const, reread_info, reread,
  reread_consts,
}
use qyz_client_lua.Dump.RoundTrip.Values.{const_lem, knum_lem}
use qyz_client_lua.Dump.RoundTrip.Parts.{
  nonzero, kept, kept_head, written_head, head_lem, uv_lem, bytecode_lem, dbg_lem,
}

module _ (fp : Doubles) where
  -- A constant that is no child starts with a type code other than 0.
  const_tp :
      (k : Const) (rest : Bytes)
      → IsConst fp k
      → (tp : ℕ) × (left : Bytes) × (bcread_uleb128 (bcwrite_const fp k ++ rest) ≡ ok (tp, left))
        × ((tp == 0) ≡ false)
  unfolding bcwrite_const
  const_tp (Const.str s) rest h =
      (5 + length s, s ++ rest, rw append_assoc (uleb_lem _ _ h), ground arith)
  const_tp (Const.tab t) rest h =
      (1, bcwrite_ktab fp t ++ rest, rw append_assoc (uleb_lem 1 _ (omega arith)), refl)
  const_tp (Const.i64 n) rest h =
      (2, bcwrite_num fp n ++ rest, rw append_assoc (uleb_lem 2 _ (omega arith)), refl)
  const_tp (Const.u64 n) rest h =
      (3, bcwrite_num fp n ++ rest, rw append_assoc (uleb_lem 3 _ (omega arith)), refl)
  const_tp (Const.complex re im) rest h = (
    4,
    bcwrite_num fp re ++ (bcwrite_num fp im ++ rest),
    simp append_assoc (uleb_lem 4 _ (omega arith)),
    refl,
  )

module _ (fp : Doubles) (d : IsDoubles fp) (be be' strip : Bool) (startins : ℕ → ℕ) where
  -- The children of a prototype, as the stack holds them when it is read.
  abbrev pub stack_of : Consts → List Proto → List Proto
  stack_of end stack = stack
  stack_of (child p ks) stack = reread strip startins p ∷ stack_of ks stack
  stack_of (const k ks) stack = stack_of ks stack

  kgc_lem :
      (ks : Consts) (stack : List Proto) (rest : Bytes)
      → AreDumpable fp be strip startins ks
      → bcread_kgc fp (size_consts ks) (stack_of ks stack) (bcwrite_kgc fp ks ++ rest)
        ≡ ok ((reread_consts strip startins ks, stack), rest)
  unfolding bcread_kgc kgc_of size_consts bcwrite_kgc reread_consts
  kgc_lem end stack rest h = refl
  kgc_lem (child p ks) stack rest (a_child hp hs) =
      rw (append_assoc, uleb_lem 0 _ (omega arith), kgc_lem ks stack rest hs)
  kgc_lem (const k ks) stack rest (a_const hk hs) =
      let (tp, left, e, nonzero) = const_tp fp k (bcwrite_kgc fp ks ++ rest) hk in
      let value = const_lem fp d k (bcwrite_kgc fp ks ++ rest) hk in
      rw (append_assoc, e, nonzero, (rw e at value), kgc_lem ks stack rest hs)

  info_lem :
      (pt : Info) (ks : Consts)
      → (pt.has_debug ≡ true → IsDebug be pt)
      → info_of_head
          (written_head be strip pt ks)
          (clean_bc startins pt)
          pt.uv
          pt.knum
          (if kept strip pt then pt.debug else no_debug)
        ≡ reread_info strip startins pt
  unfolding info_of_head reread_info kept_head
  info_lem pt ks h = elim (Bool-cases strip) [
    | inl stripped ↦ simp stripped
    | inr whole ↦ elim (Bool-cases pt.has_debug) [
      | inl on ↦ simp (whole, on, nonzero (h on).nonempty)
      | inr off ↦ simp (whole, off)
    ]
  ]

  length-clean_bc : (pt : Info) → length pt.bc ≡ length (clean_bc startins pt)
  unfolding clean_bc
  length-clean_bc pt = ground (arith, length-map pt.bc (unpatch_ins startins))

  fields_lem :
      (flags len startn : ℕ) (pt : Info) (ks : Consts) (stack : List Proto) (rest : Bytes)
      → flag_be flags ≡ be
      → flag_strip flags ≡ strip
      → startn ≡ len + length rest
      → IsInfo fp be strip startins pt ks
      → AreDumpable fp be strip startins ks
      → proto_fields fp be' flags len startn
          (stack_of ks stack)
          (bcwrite_body fp be strip startins pt ks ++ rest)
        ≡ ok (reread strip startins (proto pt ks) ∷ stack, rest)
  unfolding proto_fields bcwrite_body reread remaining
  fields_lem flags len startn pt ks stack rest eb es en i hs = simp append_assoc (
      rw (
        head_lem be strip flags pt ks _ es i.debug i.sizekgc i.sizekn i.nbc,
        bytecode_lem be be' flags eb startins pt (length pt.bc) _ (length-clean_bc pt) i.bc,
        uv_lem be be' flags eb pt.uv _ i.uv,
        kgc_lem ks stack _ hs,
        knum_lem fp d pt.knum _ i.knum,
        dbg_lem be be' strip flags pt (written_head be strip pt ks) rest eb i.debug refl refl refl
            refl,
        size,
        info_lem pt ks i.debug,
      ))
    where
      size : (len == startn - length rest) ≡ true
      size = ground arith

  -- A prototype that the writer puts out goes onto the stack, and its children leave the stack.
  pub proto_lem :
      (flags : ℕ) (pt : Info) (ks : Consts) (stack : List Proto) (rest : Bytes)
      → flag_be flags ≡ be
      → flag_strip flags ≡ strip
      → IsInfo fp be strip startins pt ks
      → AreDumpable fp be strip startins ks
      → bcread_proto fp be' flags
          (stack_of ks stack)
          (bcwrite_sized (bcwrite_body fp be strip startins pt ks) ++ rest)
        ≡ ok (some (reread strip startins (proto pt ks) ∷ stack), rest)
  unfolding bcread_proto proto_of_length bcread_need
  proto_lem flags pt ks stack rest eb es i hs =
      let body = bcwrite_body fp be strip startins pt ks in
      rw (
        sized_lem body (body_pos fp be strip startins pt ks) i.size,
        append_assoc,
        uleb_lem (length body) (body ++ rest) i.size,
        nonzero (body_pos fp be strip startins pt ks),
        ge→ltb (length (body ++ rest)) (length body) (omega (arith, length-append body rest)),
        fields_lem flags (length body) (length (body ++ rest)) pt ks stack rest eb es
            (length-append body rest) i hs,
      )

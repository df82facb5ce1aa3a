-- ===== src/Dump/RoundTrip/Main.antt =====
-- The whole dump: `lj_bcread` after `lj_bcwrite`.
use qyz_client_lua.Base.{
  ℕ, zero, suc, ◌+◌, ◌-◌, ◌<◌, ◌≤◌, ◌≡◌, Bool, true, false, List, [], ◌∷◌, ◌++◌, append_assoc,
  arith, length, leb, if◌then◌else◌, length-append, ge→ltb, some, drop,
}
use qyz_client_lua.Dump.Result.{Bytes, ok, bcread_byte, bcread_need}
use qyz_client_lua.Dump.Uleb.{bcwrite_uleb128}
use qyz_client_lua.Dump.Uleb.Laws.{uleb_lem, byte_lem}
use qyz_client_lua.Dump.Proto.{Doubles, Info, Proto}
use qyz_client_lua.Dump.Write.Emit.{
  header_flags, header_bytes, call, call_if_ok, info_of, lj_bcwrite,
}
use qyz_client_lua.Dump.Read.Protos.{
  header_rest, bcread_header, bcread_proto, read_protos, last_proto, lj_bcread,
}
use qyz_client_lua.Dump.RoundTrip.Dumpable.{IsWord, IsDoubles, IsDumpable, reread}
use qyz_client_lua.Dump.RoundTrip.Values.{mem_lem}
use qyz_client_lua.Dump.RoundTrip.Parts.{header_flags_lem}
use qyz_client_lua.Dump.RoundTrip.Output.{
  append_to, context, dump_of, written, count, count-le, read_proto_lem,
}

-- The header comes back: the flags, and the chunk name or its replacement.
header_lem :
    (be strip : Bool) (pt : Info) (name arg rest : Bytes)
    → IsWord (length name)
    → bcread_header arg (drop 1 (header_bytes be strip pt name ++ rest))
      ≡ ok (some (header_flags be strip pt, if strip then arg else name), rest)
unfolding bcread_header header_rest header_bytes bcread_byte bcread_need
header_lem be true pt name arg rest h =
    let (b, s, l) = header_flags_lem be true pt in
    let small : leb 8 (header_flags be true pt) ≡ false = ground arith in
    rw (byte_lem (header_flags be true pt) rest (omega arith), s, small)
header_lem be false pt name arg rest h =
    let (b, s, l) = header_flags_lem be false pt in
    let small : leb 8 (header_flags be false pt) ≡ false = ground arith in
    rw (
      append_assoc,
      byte_lem (header_flags be false pt) _ (omega arith),
      s,
      small,
      uleb_lem (length name) _ h,
      ge→ltb (length (name ++ rest)) (length name) (omega (arith, length-append name rest)),
      mem_lem name rest,
    )

-- The footer ends the loop of `lj_bcread`.
footer_lem :
    (fp : Doubles) (be' : Bool) (n flags : ℕ) (stack : List Proto)
    → 0 < n
    → read_protos fp be' n flags stack (0 ∷ []) ≡ ok (stack, [])
unfolding read_protos bcread_proto
footer_lem fp be' zero flags stack h = absurd (omega arith)
footer_lem fp be' (suc n) flags stack h = rw (byte_lem 0 [] (omega arith))

header_length :
    (be strip : Bool) (pt : Info) (name rest : Bytes)
    → length rest ≤ length (drop 1 (header_bytes be strip pt name ++ rest))
unfolding header_bytes
header_length be true pt name rest = omega arith
header_length be false pt name rest =
    omega (arith, length-append (bcwrite_uleb128 (length name) ++ name) rest)

module _ (fp : Doubles) (d : IsDoubles fp) (be be' strip : Bool) (startins : ℕ → ℕ) where
  output :
      (p : Proto) (name : Bytes)
      → IsDumpable fp be strip startins p
      → lj_bcwrite append_to fp be strip startins p name []
        ≡ context
            (header_bytes be strip (info_of p) name ++ dump_of fp be strip startins p ++ 0 ∷ [])
  unfolding lj_bcwrite call call_if_ok append_to
  output p name h = rw (written fp be strip startins p _ h)

  -- Reading a dump of a prototype that can be dumped gives the prototype as `reread` describes it,
  -- and the chunk name, or the chunk argument if the dump is stripped; no input is left. The writer
  -- and the reader may run on hosts of different byte order.
  pub bcread-bcwrite :
      (p : Proto) (name arg : Bytes)
      → IsDumpable fp be strip startins p
      → IsWord (length name)
      → lj_bcread fp be' arg (drop 1 (lj_bcwrite append_to fp be strip startins p name []).sink)
        ≡ ok ((reread strip startins p, if strip then arg else name), [])
  unfolding lj_bcread last_proto
  bcread-bcwrite p name arg h hn =
      let body = dump_of fp be strip startins p in
      let input = drop 1 (header_bytes be strip (info_of p) name ++ (body ++ 0 ∷ [])) in
      let flags = header_flags be strip (info_of p) in
      let (eb, es, l) = header_flags_lem be strip (info_of p) in
      let few : count fp be strip startins p + 1 ≤ length input = omega (
        arith,
        header_length be strip (info_of p) name (body ++ 0 ∷ []),
        length-append body (0 ∷ []),
        count-le fp be strip startins p h,
      ) in
      rw (
        output p name h,
        append_assoc,
        header_lem be strip (info_of p) name arg (body ++ 0 ∷ []) hn,
        output p name h,
        append_assoc,
        read_proto_lem fp be strip startins d be' flags eb es p (suc (length input)) [] (0 ∷ []) h
            (omega arith),
        footer_lem fp be' (suc (length input) - count fp be strip startins p) flags
            (reread strip startins p ∷ []) (omega arith),
      )

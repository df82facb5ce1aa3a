-- ===== src/Dump/RoundTrip/Output.antt =====
-- What the writer puts out, as one sequence of bytes for the reader.
use qyz_client_lua.Base.{
  ℕ, zero, suc, ◌+◌, ◌-◌, ◌<◌, ◌≤◌, ◌≡◌, refl, ap, inl, inr, Bool, false, List, [], ◌∷◌, ◌++◌,
  append_assoc, append-nil, arith, length, Bool-cases, length-append,
}
use qyz_client_lua.Dump.Result.{Bytes}
use qyz_client_lua.Dump.Uleb.{bcwrite_uleb128}
use qyz_client_lua.Dump.Proto.{Doubles, Info, Proto, Consts, proto, end, child, const, proto_child}
use qyz_client_lua.Dump.Write.{bcwrite_sized, bcwrite_body}
use qyz_client_lua.Dump.Write.Sizes.{sized_lem, body_pos}
use qyz_client_lua.Dump.Write.Emit.{BcWriteCtx, call, call_if_ok, bcwrite_proto, bcwrite_children}
use qyz_client_lua.Dump.Read.{flag_be, flag_strip}
use qyz_client_lua.Dump.Read.Protos.{read_protos}
use qyz_client_lua.Dump.RoundTrip.Dumpable.{
  IsDoubles, IsInfo, IsDumpable, AreDumpable, dumpable, no_more, a_child, a_const, has_child,
  reread,
}
use qyz_client_lua.Dump.RoundTrip.Whole.{stack_of, proto_lem}

-- A writer callback that appends to its state and never fails.
unfoldable pub append_to : Bytes → Bytes → Bytes × ℕ
append_to s piece = (s ++ piece, 0)

abbrev pub context : Bytes → BcWriteCtx Bytes
context s = record { sink = s; status = 0 }

pred_lem : (n : ℕ) → n ≡ suc n - 1
pred_lem n = omega arith

module _ (fp : Doubles) (be strip : Bool) (startins : ℕ → ℕ) where
  unfoldable mutual
    pub dump_of : Proto → Bytes
    dump_of (proto pt ks) =
        dump_children ks ++ bcwrite_sized (bcwrite_body fp be strip startins pt ks)

    pub dump_children : Consts → Bytes
    dump_children end = []
    dump_children (child p ks) = dump_children ks ++ dump_of p
    dump_children (const k ks) = dump_children ks

    -- The number of prototypes in the dump.
    pub count : Proto → ℕ
    count (proto pt ks) = suc (count_children ks)

    pub count_children : Consts → ℕ
    count_children end = 0
    count_children (child p ks) = count_children ks + count p
    count_children (const k ks) = count_children ks

  childless : (ks : Consts) → has_child ks ≡ false → dump_children ks ≡ []
  unfolding dump_children
  childless end h = refl
  childless (child p ks) h = cc
  childless (const k ks) h = childless ks h

  mutual
    unfolding bcwrite_proto bcwrite_children dump_of dump_children call_if_ok call append_to

    pub written :
        (p : Proto) (s : Bytes)
        → IsDumpable fp be strip startins p
        → bcwrite_proto append_to fp be strip startins p (context s) ≡ context (s ++ dump_of p)
    written (proto pt ks) s (dumpable i hs) = elim (Bool-cases (proto_child pt.flags)) [
      | inl flag ↦ rw (flag, written_children ks s hs, append_assoc)
      | inr flag ↦ elim (Bool-cases (has_child ks)) [
        | inl some_child ↦ absurd (cc (i.child_flag some_child))
        | inr no_child ↦ rw (flag, childless ks no_child)
      ]
    ]

    written_children :
        (ks : Consts) (s : Bytes)
        → AreDumpable fp be strip startins ks
        → bcwrite_children append_to fp be strip startins ks (context s)
          ≡ context (s ++ dump_children ks)
    written_children end s no_more = rw append-nil
    written_children (child p ks) s (a_child hp hs) =
        rw (written_children ks s hs, written p (s ++ dump_children ks) hp, append_assoc)
    written_children (const k ks) s (a_const hk hs) = written_children ks s hs

  sized_pos :
      (pt : Info) (ks : Consts)
      → IsInfo fp be strip startins pt ks
      → 0 < length (bcwrite_sized (bcwrite_body fp be strip startins pt ks))
  sized_pos pt ks i =
      let body = bcwrite_body fp be strip startins pt ks in
      let pos = body_pos fp be strip startins pt ks in
      rw (sized_lem body pos i.size)
        (omega (arith, length-append (bcwrite_uleb128 (length body)) body, pos))

  mutual
    unfolding dump_of dump_children count count_children

    pub count-le : (p : Proto) → IsDumpable fp be strip startins p → count p ≤ length (dump_of p)
    count-le (proto pt ks) (dumpable i hs) = omega (
      arith,
      count_children-le ks hs,
      sized_pos pt ks i,
      length-append (dump_children ks) (bcwrite_sized (bcwrite_body fp be strip startins pt ks)),
    )

    count_children-le :
        (ks : Consts)
        → AreDumpable fp be strip startins ks
        → count_children ks ≤ length (dump_children ks)
    count_children-le end no_more = omega arith
    count_children-le (child p ks) (a_child hp hs) = omega (
      arith,
      count_children-le ks hs,
      count-le p hp,
      length-append (dump_children ks) (dump_of p),
    )
    count_children-le (const k ks) (a_const hk hs) = count_children-le ks hs

  module _ (d : IsDoubles fp) (be' : Bool) (flags : ℕ) (eb : flag_be flags ≡ be)
      (es : flag_strip flags ≡ strip) where
    read_one :
        (n : ℕ) (pt : Info) (ks : Consts) (stack : List Proto) (rest : Bytes)
        → 0 < n
        → IsInfo fp be strip startins pt ks
        → AreDumpable fp be strip startins ks
        → read_protos fp be' n flags
            (stack_of fp d be be' strip startins ks stack)
            (bcwrite_sized (bcwrite_body fp be strip startins pt ks) ++ rest)
          ≡ read_protos fp be' (n - 1) flags (reread strip startins (proto pt ks) ∷ stack) rest
    unfolding read_protos
    read_one zero pt ks stack rest h i hs = absurd (omega arith)
    read_one (suc n) pt ks stack rest h i hs =
        rw (proto_lem fp d be be' strip startins flags pt ks stack rest eb es i hs) (
          ap (λ k. read_protos fp be' k flags (reread strip startins (proto pt ks) ∷ stack) rest)
            (pred_lem n))

    mutual
      unfolding dump_of dump_children count count_children

      -- The prototypes of a dump are read one after the other, and the last is left.
      pub read_proto_lem :
          (p : Proto) (n : ℕ) (stack : List Proto) (rest : Bytes)
          → IsDumpable fp be strip startins p
          → count p ≤ n
          → read_protos fp be' n flags stack (dump_of p ++ rest)
            ≡ read_protos fp be' (n - count p) flags (reread strip startins p ∷ stack) rest
      read_proto_lem (proto pt ks) n stack rest (dumpable i hs) h =
          rw
            (
              append_assoc,
              read_children_lem ks n stack
                  (bcwrite_sized (bcwrite_body fp be strip startins pt ks) ++ rest) hs
                  (omega arith),
              read_one (n - count_children ks) pt ks stack rest (omega arith) i hs,
            )
            (ap (λ k. read_protos fp be' k flags (reread strip startins (proto pt ks) ∷ stack) rest)
              (omega arith))

      read_children_lem :
          (ks : Consts) (n : ℕ) (stack : List Proto) (rest : Bytes)
          → AreDumpable fp be strip startins ks
          → count_children ks ≤ n
          → read_protos fp be' n flags stack (dump_children ks ++ rest)
            ≡ read_protos fp be'
                (n - count_children ks)
                flags
                (stack_of fp d be be' strip startins ks stack)
                rest
      read_children_lem end n stack rest no_more h =
          ap (λ k. read_protos fp be' k flags stack rest) (omega arith)
      read_children_lem (child p ks) n stack rest (a_child hp hs) h =
          rw
            (
              append_assoc,
              read_children_lem ks n stack (dump_of p ++ rest) hs (omega arith),
              read_proto_lem p (n - count_children ks)
                  (stack_of fp d be be' strip startins ks stack) rest hp (omega arith),
            )
            (ap
              (λ k.
                read_protos fp be' k flags
                  (reread strip startins p ∷ stack_of fp d be be' strip startins ks stack) rest)
              (omega arith))
      read_children_lem (const k ks) n stack rest (a_const hk hs) h =
          read_children_lem ks n stack rest hs h

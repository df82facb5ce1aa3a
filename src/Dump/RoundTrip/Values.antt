-- ===== src/Dump/RoundTrip/Values.antt =====
-- Reading back the constants of a dump.
use qyz_client_lua.Base.{
  ℕ, ◌+◌, ◌-◌, ◌*◌, ◌%◌, ◌<◌, ◌≡◌, refl, inl, inr, Bool, true, false, ◌&&◌, List, [], ◌∷◌, ◌++◌,
  append_assoc, All, arith, length, leb, if◌then◌else◌, Bool-cases,
}
use qyz_client_lua.Dump.Result.{Bytes, ok, ◌>>=◌, bcread_mem}
use qyz_client_lua.Dump.Uleb.{
  bcwrite_uleb128, bcwrite_uleb128_loop, bcread_uleb128, bcread_uleb128_33,
}
use qyz_client_lua.Dump.Uleb.Laws.{uleb_lem, byte_lem}
use qyz_client_lua.Dump.Proto.{Num, Doubles, TabK, KeyVal, Template, Const}
use qyz_client_lua.Dump.Write.{
  is_int, bcwrite_num, bcwrite_ktabk, bcwrite_array, bcwrite_nodes, bcwrite_ktab, bcwrite_const,
  bcwrite_word33, used_array, used_nodes, bcwrite_knum,
}
use qyz_client_lua.Dump.Read.{
  bcread_num, bcread_ktabk, bcread_array, bcread_nodes, bcread_ktab, const_of,
}
use qyz_client_lua.Dump.Read.Protos.{peek, bcread_knum}
use qyz_client_lua.Dump.RoundTrip.Dumpable.{
  IsWord, IsDoubles, IsNum, IsTabK, IsKeyVal, IsTemplate, IsConst, reread_const,
}

pub mem_lem : (q rest : Bytes) → bcread_mem (length q) (q ++ rest) ≡ ok (q, rest)
unfolding bcread_mem
mem_lem [] rest = refl
mem_lem (b ∷ q) rest = rw (mem_lem q rest)

-- Doubling a word modulo 2 ^ 32 and patching the last byte writes the plain ULEB128 form of the
-- 33-bit number 2 * w + lsb, for every word `w` and bit `lsb`.
pub word33_plain :
    (lsb w : ℕ) → lsb < 2 → IsWord w → bcwrite_word33 lsb w ≡ bcwrite_uleb128_loop 4 (2 * w + lsb)
unfolding bcwrite_word33 bcwrite_uleb128_loop
word33_plain lsb w h k = ground arith

-- `bcread_uleb128_33` reads back a word that was written as 33 bits, with either lowest bit, and
-- leaves what follows.
pub word33_read :
    (lsb w : ℕ) (rest : Bytes)
    → lsb < 2
    → IsWord w
    → bcread_uleb128_33 (bcwrite_word33 lsb w ++ rest) ≡ ok (w, rest)
unfolding bcread_uleb128_33 bcwrite_uleb128_loop
word33_read lsb w rest h k = rw (word33_plain lsb w h k) (ground arith)

-- The first byte of a 33-bit number holds its lowest bit.
peek_lem :
    (lsb w : ℕ) (rest : Bytes)
    → lsb < 2
    → IsWord w
    → (b : ℕ) × (peek (bcwrite_word33 lsb w ++ rest) ≡ ok (b, bcwrite_word33 lsb w ++ rest))
      × (b % 2 ≡ lsb)
unfolding peek bcwrite_uleb128_loop
peek_lem lsb w rest h k = rw (word33_plain lsb w h k) (
  if leb 128 (2 * w + lsb) then (2 * w + lsb) % 128 + 128 else 2 * w + lsb,
  ground arith,
  ground arith,
)

tail_size : (n : ℕ) → 5 + n - 5 ≡ n
tail_size n = omega arith

module _ (fp : Doubles) where
  pub num_lem :
      (n : Num) (rest : Bytes)
      → IsWord n.lo
      → IsWord n.hi
      → bcread_num fp (bcwrite_num fp n ++ rest) ≡ ok (n, rest)
  unfolding bcread_num bcwrite_num
  num_lem n rest h k = rw (append_assoc, uleb_lem n.lo _ h, uleb_lem n.hi _ k)

  module _ (d : IsDoubles fp) where
    pub ktabk_lem :
        (o : TabK) (narrow : Bool) (rest : Bytes)
        → IsTabK fp o
        → bcread_ktabk fp (bcwrite_ktabk fp o narrow ++ rest) ≡ ok (o, rest)
    unfolding bcread_ktabk bcwrite_ktabk
    ktabk_lem TabK.nil narrow rest h = rw (byte_lem 0 rest (omega arith))
    ktabk_lem TabK.false_k narrow rest h = rw (byte_lem 1 rest (omega arith))
    ktabk_lem TabK.true_k narrow rest h = rw (byte_lem 2 rest (omega arith))
    ktabk_lem (TabK.str s) narrow rest h =
        rw (append_assoc, uleb_lem (5 + length s) _ h)
          (ground (arith, mem_lem s rest, tail_size (length s)))
    ktabk_lem (TabK.num n) narrow rest h = elim (Bool-cases (narrow && is_int fp n)) [
      | inl e ↦
          rw (e, byte_lem 3 _ (omega arith), uleb_lem (fp.num2int n) rest (d.num2int_word n))
            (ground (arith, h.exact))
      | inr e ↦ rw (e, byte_lem 4 _ (omega arith), num_lem n rest h.lo h.hi)
    ]

    pub array_lem :
        (os : List TabK) (rest : Bytes)
        → All (IsTabK fp) os
        → bcread_array fp (length os) (bcwrite_array fp os ++ rest) ≡ ok (os, rest)
    unfolding bcread_array bcwrite_array
    array_lem [] rest h = refl
    array_lem (o ∷ os) rest h = rw (append_assoc, ktabk_lem o true _ h.0, array_lem os rest h.1)

    pub nodes_lem :
        (ns : List KeyVal) (rest : Bytes)
        → All (IsKeyVal fp) ns
        → bcread_nodes fp (length ns) (bcwrite_nodes fp ns ++ rest) ≡ ok (ns, rest)
    unfolding bcread_nodes bcwrite_nodes
    nodes_lem [] rest h = refl
    nodes_lem (n ∷ ns) rest h =
        simp append_assoc
          (rw (ktabk_lem n.key false _ h.0.0, ktabk_lem n.val true _ h.0.1, nodes_lem ns rest h.1))

    -- For a template table whose used entries can be dumped, `bcread_ktab` reads back what
    -- `bcwrite_ktab` wrote: the array part up to its last entry that is not nil, and the used nodes.
    pub ktab_lem :
        (t : Template) (rest : Bytes)
        → IsTemplate fp t
        → bcread_ktab fp (bcwrite_ktab fp t ++ rest)
          ≡ ok (record { array = used_array t.array; node = used_nodes t.node }, rest)
    unfolding bcread_ktab bcwrite_ktab
    ktab_lem t rest h = simp append_assoc (
        rw (
          uleb_lem _ _ h.narray,
          uleb_lem _ _ h.nhash,
          array_lem (used_array t.array) _ h.array,
          nodes_lem (used_nodes t.node) rest h.node,
        ))

    pub const_lem :
        (k : Const) (rest : Bytes)
        → IsConst fp k
        → (bcread_uleb128 >>= λ tp. const_of fp tp) (bcwrite_const fp k ++ rest)
          ≡ ok (reread_const k, rest)
    unfolding const_of bcwrite_const reread_const
    const_lem (Const.str s) rest h =
        rw (append_assoc, uleb_lem (5 + length s) _ h)
          (ground (arith, mem_lem s rest, tail_size (length s)))
    const_lem (Const.tab t) rest h =
        rw (append_assoc, uleb_lem 1 _ (omega arith), ktab_lem t rest h)
    const_lem (Const.i64 n) rest h =
        rw (append_assoc, uleb_lem 2 _ (omega arith), num_lem n rest h.0 h.1)
    const_lem (Const.u64 n) rest h =
        rw (append_assoc, uleb_lem 3 _ (omega arith), num_lem n rest h.0 h.1)
    const_lem (Const.complex re im) rest h = simp append_assoc (
        rw (
          uleb_lem 4 _ (omega arith),
          uleb_lem re.lo _ h.0.0,
          uleb_lem re.hi _ h.0.1,
          uleb_lem im.lo _ h.1.0,
          uleb_lem im.hi rest h.1.1,
        ))

    pub knum_lem :
        (ns : List Num) (rest : Bytes)
        → All (IsNum fp) ns
        → bcread_knum fp (length ns) (bcwrite_knum fp ns ++ rest) ≡ ok (ns, rest)
    unfolding bcread_knum bcwrite_knum
    knum_lem [] rest h = refl
    knum_lem (n ∷ ns) rest h = elim (Bool-cases (is_int fp n)) [
      | inl e ↦
          let (b, first, low) =
            peek_lem 0 (fp.num2int n) (bcwrite_knum fp ns ++ rest) (omega arith)
              (d.num2int_word n) in
          rw (
            e,
            append_assoc,
            first,
            word33_read 0 (fp.num2int n) _ (omega arith) (d.num2int_word n),
            low,
            knum_lem ns rest h.1,
            h.0.exact e,
          )
      | inr e ↦
          let (b, first, low) =
            peek_lem 1 n.lo (bcwrite_uleb128 n.hi ++ (bcwrite_knum fp ns ++ rest)) (omega arith)
              h.0.lo in
          rw e (
            simp append_assoc (
              rw (
                first,
                word33_read 1 n.lo _ (omega arith) h.0.lo,
                low,
                uleb_lem n.hi _ h.0.hi,
                knum_lem ns rest h.1,
              )))
    ]

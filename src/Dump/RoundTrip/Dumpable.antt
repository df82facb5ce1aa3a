-- ===== src/Dump/RoundTrip/Dumpable.antt =====
-- Conditions on the prototypes that can be dumped: sizes and words are within 32 bits, and no
-- number constant is -0.
use qyz_client_lua.Base.{
  ℕ, ◌+◌, ◌%◌, ◌<◌, ◌≡◌, Bool, true, false, ◌++◌, some, All, length, if◌then◌else◌, ltb,
}
use qyz_client_lua.Dump.Proto.{
  Num, Doubles, TabK, KeyVal, Template, Const, Info, Proto, Consts, proto, end, child, const,
  proto_child,
}
use qyz_client_lua.Dump.Write.{
  is_int, used_array, used_nodes, clean_bc, debug_bytes, size_consts, bcwrite_body,
}
use qyz_client_lua.Dump.Read.{bcread_varinfo, no_debug}
use qyz_client_lua.Dump.Read.Protos.{func_header}

abbrev pub IsWord : ℕ → Type 0
IsWord w = w < 4294967296

-- What the dump relies on of `lj_num2int`: its result is an `int32_t`.
pub record IsDoubles (fp : Doubles) : Type 0 where
  pub num2int_word : (n : Num) → IsWord (fp.num2int n)

module _ (fp : Doubles) where
  -- A number that compares equal to an integer is the double of that integer: it is not -0.
  pub record IsNum (n : Num) : Type 0 where
    pub lo : IsWord n.lo
    pub hi : IsWord n.hi
    pub exact : is_int fp n ≡ true → fp.of_int (fp.num2int n) ≡ n

  abbrev pub IsTabK : TabK → Type 0
  IsTabK (TabK.num n) = IsNum n
  IsTabK (TabK.str s) = IsWord (5 + length s)
  IsTabK _ = Unit {0}

  abbrev pub IsKeyVal : KeyVal → Type 0
  IsKeyVal n = IsTabK n.key × IsTabK n.val

  pub record IsTemplate (t : Template) : Type 0 where
    pub array : All IsTabK (used_array t.array)
    pub node : All IsKeyVal (used_nodes t.node)
    pub narray : IsWord (length (used_array t.array))
    pub nhash : IsWord (length (used_nodes t.node))

  abbrev pub IsConst : Const → Type 0
  IsConst (Const.str s) = IsWord (5 + length s)
  IsConst (Const.tab t) = IsTemplate t
  IsConst (Const.i64 n) = IsWord n.lo × IsWord n.hi
  IsConst (Const.u64 n) = IsWord n.lo × IsWord n.hi
  IsConst (Const.complex re im) = (IsWord re.lo × IsWord re.hi) × (IsWord im.lo × IsWord im.hi)

-- Line numbers fit into the size that `numline` asks for.
abbrev pub line_limit : ℕ → ℕ
line_limit numline =
    if ltb numline 256 then 256 else if ltb numline 65536 then 65536 else 4294967296

pub record IsDebug (be : Bool) (pt : Info) : Type 0 where
  pub sized : IsWord (length (debug_bytes be pt))
  pub nonempty : 0 < length (debug_bytes be pt)
  pub firstline : IsWord pt.firstline
  pub numline : IsWord pt.numline
  pub lines : length pt.debug.lineinfo ≡ length pt.bc
  pub fits : All (λ l. l < line_limit pt.numline) pt.debug.lineinfo
  pub names :
      bcread_varinfo (length pt.uv) (pt.debug.uvinfo ++ pt.debug.varinfo)
      ≡ some (pt.debug.uvinfo, pt.debug.varinfo)

abbrev pub has_child : Consts → Bool
has_child end = false
has_child (child p ks) = true
has_child (const k ks) = has_child ks

module _ (fp : Doubles) (be strip : Bool) (startins : ℕ → ℕ) where
  pub record IsInfo (pt : Info) (ks : Consts) : Type 0 where
    pub bc : All IsWord (clean_bc startins pt)
    pub uv : All (λ w. w < 65536) pt.uv
    pub knum : All (IsNum fp) pt.knum
    pub nbc : IsWord (length pt.bc)
    pub sizekn : IsWord (length pt.knum)
    pub sizekgc : IsWord (size_consts ks)
    pub debug : pt.has_debug ≡ true → IsDebug be pt
    pub size : IsWord (length (bcwrite_body fp be strip startins pt ks))
    pub child_flag : has_child ks ≡ true → proto_child pt.flags ≡ true

  mutual
    pub data IsDumpable : Proto → Type 0 where
      dumpable :
          {pt : Info} {ks : Consts} → IsInfo pt ks → AreDumpable ks → IsDumpable (proto pt ks)

    pub data AreDumpable : Consts → Type 0 where
      no_more : AreDumpable end
      a_child : {p : Proto} {ks : Consts} → IsDumpable p → AreDumpable ks → AreDumpable (child p ks)
      a_const : {k : Const} {ks : Consts} → IsConst fp k → AreDumpable ks → AreDumpable (const k ks)

-- What is left of a constant: unused array entries and nodes go, and the nodes turn round.
unfoldable pub reread_const : Const → Const
reread_const (Const.tab t) =
    Const.tab (record { array = used_array t.array; node = used_nodes t.node })
reread_const k = k

unfoldable pub reread_info : Bool → (ℕ → ℕ) → Info → Info
unfolding clean_bc no_debug func_header
reread_info strip startins pt =
    let kept : Bool = if strip then false else pt.has_debug in
    record {
      flags = pt.flags % 8;
      numparams = pt.numparams;
      framesize = pt.framesize;
      trace = 0;
      func_ins = func_header (pt.flags % 8) pt.framesize;
      bc = clean_bc startins pt;
      uv = pt.uv;
      knum = pt.knum;
      firstline = if kept then pt.firstline else 0;
      numline = if kept then pt.numline else 0;
      has_debug = kept;
      debug = if kept then pt.debug else no_debug;
    }

-- A prototype as a dump brings it back.
unfoldable mutual
  pub reread : Bool → (ℕ → ℕ) → Proto → Proto
  reread strip startins (proto pt ks) =
      proto (reread_info strip startins pt) (reread_consts strip startins ks)

  pub reread_consts : Bool → (ℕ → ℕ) → Consts → Consts
  reread_consts strip startins end = end
  reread_consts strip startins (child p ks) =
      child (reread strip startins p) (reread_consts strip startins ks)
  reread_consts strip startins (const k ks) =
      const (reread_const k) (reread_consts strip startins ks)

-- ===== src/Dump/Proto.antt =====
-- Function prototypes and their constants, as the dump sees them: GCproto of luajit/lj_obj.h, the
-- type codes of luajit/lj_bcdump.h, and the double arithmetic that the dump relies on.
use qyz_client_lua.Base.{ℕ, ◌/◌, ◌%◌, Bool, List, ◌==◌}
use qyz_client_lua.Dump.Result.{Bytes}

-- A double, as its two words.
pub record Num : Type 0 where
  pub lo : ℕ
  pub hi : ℕ

-- The conversions between doubles and `int32_t` (as a bit pattern), and `==` on doubles. They are
-- the processor's.
pub record Doubles : Type 0 where
  pub num2int : Num → ℕ
  pub of_int : ℕ → Num
  pub num_eq : Num → Num → Bool

-- A constant key or value of a template table (BCDUMP_KTAB_*).
pub data TabK : Type 0 where
  nil false_k true_k : TabK
  num : Num → TabK
  str : Bytes → TabK

pub record KeyVal : Type 0 where
  pub key : TabK
  pub val : TabK

-- A template table: its array part, and the nodes of its hash part.
pub record Template : Type 0 where
  pub array : List TabK
  pub node : List KeyVal

-- A garbage-collected constant that is no prototype (BCDUMP_KGC_*).
pub data Const : Type 0 where
  str : Bytes → Const
  tab : Template → Const
  i64 u64 : Num → Const
  complex : Num → Num → Const

-- `lineinfo`, `uvinfo` and `varinfo`, which stand one behind the other at the end of a prototype.
pub record Debug : Type 0 where
  pub lineinfo : List ℕ
  pub uvinfo : Bytes
  pub varinfo : Bytes

-- The fields of a GCproto but for its collected constants. `bc` lacks the first instruction.
pub record Info : Type 0 where
  pub flags : ℕ
  pub numparams : ℕ
  pub framesize : ℕ
  pub trace : ℕ
  pub func_ins : ℕ
  pub bc : List ℕ
  pub uv : List ℕ
  pub knum : List Num
  pub firstline : ℕ
  pub numline : ℕ
  pub has_debug : Bool
  pub debug : Debug

mutual
  pub data Proto : Type 0 where
    proto : Info → Consts → Proto

  -- The collected constants of a prototype, from index 0.
  pub data Consts : Type 0 where
    end : Consts
    child : Proto → Consts → Consts
    const : Const → Consts → Consts

abbrev pub bcdump_head1 : ℕ
bcdump_head1 = 0x1b

abbrev pub bcdump_head2 : ℕ
bcdump_head2 = 0x4c

abbrev pub bcdump_head3 : ℕ
bcdump_head3 = 0x4a

abbrev pub bcdump_version : ℕ
bcdump_version = 1

-- The bits of `flags`: PROTO_CHILD, PROTO_VARARG, PROTO_FFI and PROTO_ILOOP.
abbrev pub proto_child : ℕ → Bool
proto_child flags = flags % 2 == 1

abbrev pub proto_vararg : ℕ → Bool
proto_vararg flags = flags / 2 % 2 == 1

abbrev pub proto_ffi : ℕ → Bool
proto_ffi flags = flags / 4 % 2 == 1

abbrev pub proto_iloop : ℕ → Bool
proto_iloop flags = flags / 16 % 2 == 1

-- ===== src/Strs/Intern.antt =====
-- The table of interned strings, `lj_str_new` and `lj_str_resize` of luajit/lj_str.c. A chain is a
-- list, its head first; the mark of a dead string is kept by the address of its object. What the
-- allocator returns, an address and the memory found there, comes with the call.
pub mod Hash
pub mod Rehash
pub mod Table
pub mod Insert
pub mod Answer
pub mod Canonical
use Prim.Native.Nat.{bit_and, bit_xor}
use qyz_client_lua.Base.{
  ℕ, zero, suc, ◌+◌, ◌-◌, ◌*◌, ◌/◌, ◌%◌, ◌^◌, Bool, true, false, ◌&&◌, ◌||◌, Option, none, some,
  List, [], ◌∷◌, leb, ltb, ◌==◌, if◌then◌else◌, put,
}
use qyz_client_lua.Strs.{lj_getu32, str_fastcmp, memcmp}

unfoldable pub lj_rol : ℕ → ℕ → ℕ
lj_rol x n = (x * 2 ^ n) % 2 ^ 32 + x / 2 ^ (32 - n)

-- `a - b` of 32-bit words
unfoldable pub sub_word : ℕ → ℕ → ℕ
sub_word a b = (a + (2 ^ 32 - b)) % 2 ^ 32

-- The mixing of the length and the four words read.
unfoldable pub scramble : ℕ → ℕ → ℕ → ℕ → ℕ → ℕ
scramble len first last middle quarter =
    let h0 = bit_xor (bit_xor len last) middle in
    let h1 = sub_word h0 (lj_rol middle 14) in
    let b1 = (middle + quarter) % 2 ^ 32 in
    let a2 = sub_word (bit_xor first h1) (lj_rol h1 11) in
    let b2 = sub_word (bit_xor b1 a2) (lj_rol a2 25) in sub_word (bit_xor h1 b2) (lj_rol b2 16)

-- The hash of a string that is not empty.
unfoldable pub str_hash : (ℕ → ℕ) → ℕ → ℕ
str_hash str len =
    if leb 4 len
    then scramble len (lj_getu32 str 0) (lj_getu32 str (len - 4)) (lj_getu32 str (len / 2 - 2))
        (lj_getu32 str (len / 4 - 1))
    else scramble len (str 0) (str (len - 1)) (str (len / 2)) 0

pub record StrObj : Type 0 where
  pub address : ℕ
  pub bytes : ℕ → ℕ
  pub len : ℕ
  pub hash : ℕ

pub record StrTab : Type 0 where
  pub strhash : ℕ → List StrObj
  pub strmask : ℕ
  pub strnum : ℕ
  -- `gc.state == GCSsweepstring`
  pub sweeping : Bool
  pub dead : ℕ → Bool
  pub strempty : StrObj

-- The arguments `str`, which is `at` an address, and `lenx`, and what `lj_mem_newt` returns.
pub record Request : Type 0 where
  pub at : ℕ
  pub str : ℕ → ℕ
  pub len : ℕ
  pub fresh : ℕ
  pub junk : ℕ → ℕ

abbrev pub lj_max_str : ℕ
lj_max_str = 0x7fffff00

abbrev pub lj_max_strtab : ℕ
lj_max_strtab = 67108864

-- Reinserts the strings of one chain, each at the front of its new chain.
unfoldable pub reinsert : ℕ → List StrObj → (ℕ → List StrObj) → ℕ → List StrObj
reinsert newmask [] newhash = newhash
reinsert newmask (p ∷ next) newhash =
    let h = bit_and p.hash newmask in reinsert newmask next (put newhash h (p ∷ newhash h))

-- The chains below `n` from the last on.
unfoldable pub rehash : ℕ → (ℕ → List StrObj) → ℕ → (ℕ → List StrObj) → ℕ → List StrObj
rehash newmask strhash zero newhash = newhash
rehash newmask strhash (suc i) newhash =
    rehash newmask strhash i (reinsert newmask (strhash i) newhash)

unfoldable pub lj_str_resize : StrTab → ℕ → StrTab
lj_str_resize g newmask = if g.sweeping || leb (lj_max_strtab - 1) newmask then g else record g {
  strhash = rehash newmask g.strhash (g.strmask + 1) (λ i. []);
  strmask = newmask;
}

-- Whether the end of the string is far enough from the end of its page for a comparison by words.
abbrev pub fast_path : Request → Bool
fast_path r = leb (bit_and (r.at + r.len - 1) 4095) 4092

unfoldable pub matches : Request → StrObj → Bool
matches r sx =
    sx.len == r.len
    && (if fast_path r then str_fastcmp r.str sx.bytes r.len else memcmp r.str sx.bytes 0 r.len)

unfoldable pub lookup : Request → List StrObj → Option StrObj
lookup r [] = none
lookup r (o ∷ next) = let later = lookup r next in if matches r o then some o else later

-- `if (isdead(g, o)) flipwhite(o)`
unfoldable pub resurrect : StrTab → StrObj → StrTab
resurrect g o = if g.dead o.address then record g { dead = put g.dead o.address false } else g

unfoldable pub new_object : Request → ℕ → StrObj
new_object r h = record {
  address = r.fresh;
  bytes = λ i. if ltb i r.len then r.str i else if i == r.len then 0 else r.junk i;
  len = r.len;
  hash = h;
}

unfoldable pub add_object : StrTab → StrObj → StrTab
add_object g s =
    let h = bit_and s.hash g.strmask in
    let t : StrTab = record g {
      dead = put g.dead s.address false;
      strhash = put g.strhash h (s ∷ g.strhash h);
      strnum = g.strnum + 1;
    } in
    if ltb g.strmask g.strnum then lj_str_resize t ((g.strmask * 2 + 1) % 2 ^ 32) else t

unfoldable pub intern : StrTab → Request → StrObj × StrTab
intern g r =
    let h = str_hash r.str r.len in
    let s = new_object r h in
    if r.len == 0 then (g.strempty, g) else elim (lookup r (g.strhash (bit_and h g.strmask))) [
      | some sx ↦ (sx, resurrect g sx)
      | none ↦ (s, add_object g s)
    ]

-- `none` stands for the error LJ_ERR_STROV.
unfoldable pub lj_str_new : StrTab → Request → Option (StrObj × StrTab)
lj_str_new g r = if leb lj_max_str r.len then none else some (intern g r)

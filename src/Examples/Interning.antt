-- ===== src/Examples/Interning.antt =====
-- Tests of luajit/lj_str.c.
use qyz_client_lua.Base.{
  ℕ, negsuc, zero, suc, ◌<◌, ◌≡◌, ◌≢◌, refl, ap, inl, inr, true, false, some, [], arith, Among,
}
use qyz_client_lua.Dump.Words.{lj_bswap}
use qyz_client_lua.Strs.{lj_getu32, cmp_loop, GcStr, lj_str_cmp, str_fastcmp, fastcmp_loop, memcmp}
use qyz_client_lua.Strs.Compare.{AreBytes, lj_str_cmp-lexicographic, lexicographic}
use qyz_client_lua.Strs.Equal.{str_fastcmp-memcmp}
use qyz_client_lua.Strs.Intern.{
  StrObj, StrTab, Request, lj_rol, sub_word, scramble, str_hash, matches, lookup, reinsert, rehash,
  lj_str_resize, resurrect, new_object, add_object, intern, lj_str_new,
}
use qyz_client_lua.Strs.Intern.Rehash.{put-Among}
use qyz_client_lua.Strs.Intern.Table.{IsInterned}
use qyz_client_lua.Strs.Intern.Answer.{IsRequest, IsAnswer}
use qyz_client_lua.Strs.Intern.Canonical.{
  same_object, one_object, lj_str_new-IsAnswer, lj_str_new-canonical,
}

-- "abcde" and "abcdz", with other bytes behind them.
abbrev word : ℕ → ℕ → ℕ
word z zero = 97
word z (suc zero) = 98
word z (suc (suc zero)) = 99
word z (suc (suc (suc zero))) = 100
word z (suc (suc (suc (suc zero)))) = z
word z (suc (suc (suc (suc (suc i))))) = 7

word-AreBytes : (z : ℕ) → z < 256 → AreBytes (word z)
word-AreBytes z h zero = omega arith
word-AreBytes z h (suc zero) = omega arith
word-AreBytes z h (suc (suc zero)) = omega arith
word-AreBytes z h (suc (suc (suc zero))) = omega arith
word-AreBytes z h (suc (suc (suc (suc zero)))) = h
word-AreBytes z h (suc (suc (suc (suc (suc i))))) = omega arith

abbrev str_e : GcStr
str_e = record { bytes = word 101; len = 5 }

abbrev str_z : GcStr
str_z = record { bytes = word 122; len = 5 }

lj_str_cmp_test : lj_str_cmp str_e str_z ≡ negsuc 0
unfolding lj_str_cmp cmp_loop lj_getu32 lj_bswap
lj_str_cmp_test = refl

lj_str_cmp-lexicographic_example : lj_str_cmp str_e str_z ≡ lexicographic str_e str_z
lj_str_cmp-lexicographic_example =
    lj_str_cmp-lexicographic str_e str_z (word-AreBytes 101 (omega arith))
      (word-AreBytes 122 (omega arith))

str_fastcmp-memcmp_example : str_fastcmp (word 101) (word 122) 5 ≡ memcmp (word 101) (word 122) 0 5
str_fastcmp-memcmp_example =
    str_fastcmp-memcmp (word 101) (word 122) 5 (word-AreBytes 101 (omega arith))
      (word-AreBytes 122 (omega arith)) (omega arith)

abbrev empty_table : StrTab
empty_table = record {
  strhash = λ i. [];
  strmask = 0;
  strnum = 0;
  sweeping = false;
  dead = λ a. false;
  strempty = record { address = 0; bytes = λ i. 0; len = 0; hash = 0 };
}

empty_table-IsInterned : IsInterned empty_table
empty_table-IsInterned = record {
  placed = λ i o a. elim a [ ];
  hashed = λ i o a. elim a [ ];
  filled = λ i o a. elim a [ ];
  bytewise = λ i o a. elim a [ ];
  single = λ i j o p a b s. elim a [ ];
  apart = λ i j o p a b s. elim a [ ];
  not_empty = λ i o a. elim a [ ];
  empty_len = refl;
}

abbrev ask : ℕ → ℕ → Request
ask z address = record { at = 4095; str = word z; len = 5; fresh = address; junk = λ i. 3 }

empty_table-IsRequest : IsRequest empty_table (ask 101 8)
empty_table-IsRequest = record {
  str_bytes = word-AreBytes 101 (omega arith);
  junk_bytes = λ i. omega arith;
  unused = λ i o a. elim a [ ];
  not_empty = omega arith;
}

lj_str_new-IsAnswer_example :
    (a : StrObj × StrTab) × (lj_str_new empty_table (ask 101 8) ≡ some a)
    × IsAnswer empty_table (ask 101 8) a
lj_str_new-IsAnswer_example =
    lj_str_new-IsAnswer empty_table (ask 101 8) empty_table-IsInterned empty_table-IsRequest
      (omega arith)

-- The new string stands alone in the table.
next_unused :
    (i : ℕ) (o : StrObj) → Among o ((intern empty_table (ask 101 8)).1.strhash i) → o.address ≢ 9
unfolding intern lookup add_object new_object str_hash scramble sub_word lj_getu32 lj_rol
next_unused i o a e =
    let s = new_object (ask 101 8) (str_hash (word 101) 5) in
    elim (put-Among (λ i. []) 0 i s o a) [
      | inl (same, k) ↦ absurd (omega (arith, ap (λ (x : StrObj). x.address) same))
      | inr nothing ↦ elim nothing [ ]
    ]

next-IsRequest : IsRequest (intern empty_table (ask 101 8)).1 (ask 122 9)
unfolding intern lookup add_object
next-IsRequest = record {
  str_bytes = word-AreBytes 122 (omega arith);
  junk_bytes = λ i. omega arith;
  unused = next_unused;
  not_empty = omega arith;
}

lj_str_new-canonical_example : one_object empty_table (ask 101 8) (ask 122 9) ≡ some false
unfolding memcmp
lj_str_new-canonical_example =
    lj_str_new-canonical empty_table (ask 101 8) (ask 122 9) empty_table-IsInterned
      empty_table-IsRequest next-IsRequest (omega arith) (omega arith)

-- The second string makes the table grow, and the first one is found again.
found_again :
    one_object (intern (intern empty_table (ask 101 8)).1 (ask 122 9)).1 (ask 101 10) (ask 101 11)
    ≡ some true
unfolding one_object same_object lj_str_new intern lookup matches add_object resurrect new_object
    lj_str_resize rehash reinsert str_hash scramble sub_word lj_rol lj_getu32 str_fastcmp
    fastcmp_loop memcmp
found_again = refl

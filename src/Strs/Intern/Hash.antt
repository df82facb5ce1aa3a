-- ===== src/Strs/Intern/Hash.antt =====
-- The hash, and the bytes behind the end of the string.
use qyz_client_lua.Base.{
  ℕ, ◌+◌, ◌-◌, ◌/◌, ◌<◌, ◌≤◌, ◌≡◌, refl, inl, inr, true, leb, arith, Bool-cases,
}
use qyz_client_lua.Strs.{lj_getu32, memcmp}
use qyz_client_lua.Strs.Intern.{str_hash}
use qyz_client_lua.Strs.Equal.{memcmp-at}

lj_getu32-same :
    (a b : ℕ → ℕ) (i : ℕ)
    → a i ≡ b i
    → a (i + 1) ≡ b (i + 1)
    → a (i + 2) ≡ b (i + 2)
    → a (i + 3) ≡ b (i + 3)
    → lj_getu32 a i ≡ lj_getu32 b i
unfolding lj_getu32
lj_getu32-same a b i h k l m = omega arith

pub str_hash-same :
    (a b : ℕ → ℕ) (len : ℕ) → 0 < len → memcmp a b 0 len ≡ true → str_hash a len ≡ str_hash b len
unfolding str_hash
str_hash-same a b len p h =
    let at : (j : ℕ) → j < len → a j ≡ b j =
      λ j l. memcmp-at a b 0 len j h (omega arith) (omega arith) in
    elim (Bool-cases (leb 4 len)) [
      | inl long ↦
          let l : 4 ≤ len = ground arith in
          let word : (i : ℕ) → i + 3 < len → lj_getu32 a i ≡ lj_getu32 b i = λ i m.
            lj_getu32-same a b i (at i (omega arith)) (at (i + 1) (omega arith))
              (at (i + 2) (omega arith)) (at (i + 3) m) in
          rw
            (
              long,
              word 0 (omega arith),
              word (len - 4) (omega arith),
              word (len / 2 - 2) (omega arith),
              word (len / 4 - 1) (omega arith),
            )
            refl
      | inr short ↦ rw (short, at 0 p, at (len - 1) (omega arith), at (len / 2) (omega arith)) refl
    ]

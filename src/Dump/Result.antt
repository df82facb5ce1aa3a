-- ===== src/Dump/Result.antt =====
-- The results of the reader of lj_bcread.c, and its state: the bytes that are left. The reader
-- callback is taken to hand out the whole input at once, so `ls->p` and `ls->n` are one list.
use qyz_client_lua.Base.{ℕ, zero, suc, List, [], ◌∷◌, length, ltb, if◌then◌else◌}

pub data ErrMsg : Type 0 where
  bcbad bcfmt : ErrMsg

-- `fault` stands for undefined behaviour of the C code: a read past the input, a shift by 32 or
-- more.
pub data Result {ℓ} (A : Type ℓ) : Type ℓ where
  ok : A → Result A
  err : ErrMsg → Result A
  fault : Result A

abbrev pub Bytes : Type 0
Bytes = List ℕ

abbrev pub Read : Type 0 → Type 0
Read A = Bytes → Result (A × Bytes)

abbrev pub pure : {A : Type 0} → A → Read A
pure a bs = ok (a, bs)

module _ {A B : Type 0} where
  abbrev pub and_then : Result (A × Bytes) → (A → Read B) → Result (B × Bytes)
  and_then (ok (a, bs)) k = k a bs
  and_then (err e) k = err e
  and_then fault k = fault

  infixl 5 ◌>>=◌ ◌>>◌
  abbrev pub ◌>>=◌ : Read A → (A → Read B) → Read B
  m >>= k = λ bs. and_then (m bs) k

  abbrev pub ◌>>◌ : Read A → Read B → Read B
  m >> n = m >>= λ _. n

abbrev pub throw : {A : Type 0} → ErrMsg → Read A
throw e bs = err e

-- `bcread_byte`: `*ls->p++`.
unfoldable pub bcread_byte : Read ℕ
bcread_byte [] = fault
bcread_byte (b ∷ bs) = ok (b, bs)

-- `bcread_need`: the input ends too early.
unfoldable pub bcread_need : ℕ → Read (Unit {0})
bcread_need len bs = if ltb (length bs) len then err bcbad else ok (tt, bs)

-- `bcread_mem` and `bcread_block`: the next `len` bytes.
unfoldable pub bcread_mem : ℕ → Read Bytes
bcread_mem zero bs = ok ([], bs)
bcread_mem (suc len) [] = fault
bcread_mem (suc len) (b ∷ bs) = and_then (bcread_mem len bs) (λ q. pure (b ∷ q))

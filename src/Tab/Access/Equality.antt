-- ===== src/Tab/Access/Equality.antt =====
-- Equality of keys, and of their spots.
use qyz_client_lua.Base.{
  ℕ, ◌≡◌, ◌⊎◌, refl, sym, ap, subst, ◌∙◌, inl, inr, Bool, true, false, ltb, Bool-cases,
}
use qyz_client_lua.Dump.Proto.{Num, Doubles}
use qyz_client_lua.Tab.{TValue, nil, bool, num, str, gcref, tvismzero, lj_obj_equal}
use qyz_client_lua.Tab.Valid.{IsIeee, IsKey, equal-same, equal_self}
use qyz_client_lua.Tab.Access.{is_int}
use qyz_client_lua.Tab.Access.Spots.{Spot, at_slot, at_key}
use qyz_client_lua.Tab.Access.Spots as Spots

module _ (fp : Doubles) (strhash : ℕ → ℕ) where
  abbrev IsIndex : TValue → Type 0
  IsIndex = Spots.IsIndex fp strhash

  abbrev int_spot : ℕ → ℕ → Spot
  int_spot = Spots.int_spot fp strhash

  abbrev spot : ℕ → TValue → Spot
  spot = Spots.spot fp strhash

  spot-int :
      (asize : ℕ) (x : Num)
      → is_int fp strhash x ≡ true
      → spot asize (num x) ≡ int_spot asize (fp.num2int x)
  spot-int asize x e = rw e refl

  -- Equal numbers are at one spot.
  num_spots :
      (asize : ℕ) (x y : Num)
      → IsIeee fp
      → IsIndex (num x)
      → IsIndex (num y)
      → fp.num_eq x y ≡ true
      → spot asize (num x) ≡ spot asize (num y)
  num_spots asize x y ieee h g e =
      let k = ieee.alike x y e in
      let e' = ieee.equal_sym x y e in
      elim (Bool-cases (is_int fp strhash x)) [
        | inl int ↦
            let int' : is_int fp strhash y ≡ true =
              subst (λ n. fp.num_eq y (fp.of_int n) ≡ true) k
                (ieee.equal_trans y x (fp.of_int (fp.num2int x)) e' int) in
            spot-int asize x int ∙ ap (int_spot asize) k ∙ sym (spot-int asize y int')
        | inr general ↦ elim (Bool-cases (is_int fp strhash y)) [
          | inl int' ↦
              let int : is_int fp strhash x ≡ true =
                subst (λ n. fp.num_eq x (fp.of_int n) ≡ true) (sym k)
                  (ieee.equal_trans x y (fp.of_int (fp.num2int y)) e int') in
              cc (int, general)
          | inr general' ↦
              let same : x ≡ y =
                ieee.exact x y e (plain x general (Bool-cases (tvismzero (num x))))
                  (plain y general' (Bool-cases (tvismzero (num y)))) in
              ap (λ z. spot asize (num z)) same
        ]
      ]
    where
      plain :
          (z : Num)
          → is_int fp strhash z ≡ false
          → (tvismzero (num z) ≡ true) ⊎ (tvismzero (num z) ≡ false)
          → tvismzero (num z) ≡ false
      plain z e (inl w) = let i = ieee.zero_int z w in cc (i, e)
      plain z e (inr w) = w

  -- Equal keys are at one spot.
  pub equal_spots :
      (asize : ℕ) (k l : TValue)
      → IsIeee fp
      → Spots.IsIndex fp strhash k
      → Spots.IsIndex fp strhash l
      → lj_obj_equal fp strhash k l ≡ true
      → Spots.spot fp strhash asize k ≡ Spots.spot fp strhash asize l
  unfolding lj_obj_equal
  equal_spots asize nil nil ieee h g e = absurd h
  equal_spots asize nil (bool c) ieee h g e = absurd h
  equal_spots asize nil (str d) ieee h g e = absurd h
  equal_spots asize nil (gcref u q) ieee h g e = absurd h
  equal_spots asize nil (num y) ieee h g e = absurd h
  equal_spots asize (bool b) nil ieee h g e = absurd g
  equal_spots asize (bool b) (bool c) ieee h g e =
      ap (spot asize) (equal-same fp strhash (bool b) (bool c) ieee h g e)
  equal_spots asize (bool b) (str d) ieee h g e =
      ap (spot asize) (equal-same fp strhash (bool b) (str d) ieee h g e)
  equal_spots asize (bool b) (gcref u q) ieee h g e =
      ap (spot asize) (equal-same fp strhash (bool b) (gcref u q) ieee h g e)
  equal_spots asize (bool b) (num y) ieee h g e = cc e
  equal_spots asize (str a) nil ieee h g e = absurd g
  equal_spots asize (str a) (bool c) ieee h g e =
      ap (spot asize) (equal-same fp strhash (str a) (bool c) ieee h g e)
  equal_spots asize (str a) (str d) ieee h g e =
      ap (spot asize) (equal-same fp strhash (str a) (str d) ieee h g e)
  equal_spots asize (str a) (gcref u q) ieee h g e =
      ap (spot asize) (equal-same fp strhash (str a) (gcref u q) ieee h g e)
  equal_spots asize (str a) (num y) ieee h g e = cc e
  equal_spots asize (gcref t r) nil ieee h g e = absurd g
  equal_spots asize (gcref t r) (bool c) ieee h g e =
      ap (spot asize) (equal-same fp strhash (gcref t r) (bool c) ieee h g e)
  equal_spots asize (gcref t r) (str d) ieee h g e =
      ap (spot asize) (equal-same fp strhash (gcref t r) (str d) ieee h g e)
  equal_spots asize (gcref t r) (gcref u q) ieee h g e =
      ap (spot asize) (equal-same fp strhash (gcref t r) (gcref u q) ieee h g e)
  equal_spots asize (gcref t r) (num y) ieee h g e = cc e
  equal_spots asize (num x) nil ieee h g e = absurd g
  equal_spots asize (num x) (bool c) ieee h g e = cc e
  equal_spots asize (num x) (str d) ieee h g e = cc e
  equal_spots asize (num x) (gcref u q) ieee h g e = cc e
  equal_spots asize (num x) (num y) ieee h g e = num_spots asize x y ieee h g e

  int_spots :
      (asize k l : ℕ)
      → IsIeee fp
      → int_spot asize k ≡ int_spot asize l
      → fp.num_eq (fp.of_int k) (fp.of_int l) ≡ true
  int_spots asize k l ieee e = elim (Bool-cases (ltb k asize)) [
    | inl a ↦ elim (Bool-cases (ltb l asize)) [
      | inl b ↦
          let f : at_slot k ≡ at_slot l = rw (a, b) at e in
          let q : k ≡ l = cc f in
          subst (λ n. fp.num_eq (fp.of_int k) (fp.of_int n) ≡ true) q (ieee.int_equal k)
      | inr b ↦
          let f : at_slot k ≡ at_key (num (fp.of_int l)) = rw (a, b) at e in absurd (slot_key f)
    ]
    | inr a ↦ elim (Bool-cases (ltb l asize)) [
      | inl b ↦
          let f : at_key (num (fp.of_int k)) ≡ at_slot l = rw (a, b) at e in
          absurd (slot_key (sym f))
      | inr b ↦
          let f : at_key (num (fp.of_int k)) ≡ at_key (num (fp.of_int l)) = rw (a, b) at e in
          let q : fp.of_int k ≡ fp.of_int l = key_num f in
          subst (λ n. fp.num_eq (fp.of_int k) n ≡ true) q (ieee.int_equal k)
    ]
  ]
    where
      slot_key : {n : ℕ} {k : TValue} → at_slot n ≡ at_key k → ⊥
      slot_key e = cc e

      key_num : {x y : Num} → at_key (num x) ≡ at_key (num y) → x ≡ y
      key_num e = cc e

  -- An integer and another number are at different spots.
  general_spot :
      (asize : ℕ) (x y : Num)
      → IsIeee fp
      → is_int fp strhash y ≡ false
      → int_spot asize (fp.num2int x) ≡ at_key (num y)
      → ⊥
  general_spot asize x y ieee g e = elim (Bool-cases (ltb (fp.num2int x) asize)) [
    | inl a ↦ slot_key (rw a at e)
    | inr a ↦
        let q : fp.of_int (fp.num2int x) ≡ y = key_num (rw a at e) in
        let int : is_int fp strhash y ≡ true =
          subst (λ z. is_int fp strhash z ≡ true) q
            (subst (λ n. fp.num_eq (fp.of_int (fp.num2int x)) (fp.of_int n) ≡ true)
              (sym (ieee.int_back x)) (ieee.int_equal (fp.num2int x))) in
        cc (int, g)
  ]
    where
      slot_key : {n : ℕ} {k : TValue} → at_slot n ≡ at_key k → ⊥
      slot_key e = cc e

      key_num : {x y : Num} → at_key (num x) ≡ at_key (num y) → x ≡ y
      key_num e = cc e

  -- Numbers at one spot are equal.
  spots_num :
      (asize : ℕ) (x y : Num)
      → IsIeee fp
      → IsIndex (num x)
      → spot asize (num x) ≡ spot asize (num y)
      → fp.num_eq x y ≡ true
  spots_num asize x y ieee h e = elim (Bool-cases (is_int fp strhash x)) [
    | inl int ↦ elim (Bool-cases (is_int fp strhash y)) [
      | inl int' ↦
          let f : int_spot asize (fp.num2int x) ≡ int_spot asize (fp.num2int y) =
            sym (spot-int asize x int) ∙ e ∙ spot-int asize y int' in
          ieee.equal_trans x (fp.of_int (fp.num2int x)) y int (
            ieee.equal_trans (fp.of_int (fp.num2int x)) (fp.of_int (fp.num2int y)) y
              (int_spots asize (fp.num2int x) (fp.num2int y) ieee f)
              (ieee.equal_sym y (fp.of_int (fp.num2int y)) int'))
      | inr general ↦ absurd (
          general_spot asize x y ieee general
            (sym (spot-int asize x int) ∙ e ∙ spot-general asize y general))
    ]
    | inr general ↦ elim (Bool-cases (is_int fp strhash y)) [
      | inl int ↦ absurd (
          general_spot asize y x ieee general
            (sym (spot-int asize y int) ∙ sym e ∙ spot-general asize x general))
      | inr general' ↦
          let f : at_key (num x) ≡ at_key (num y) =
            sym (spot-general asize x general) ∙ e ∙ spot-general asize y general' in
          let q : x ≡ y = cc f in subst (λ z. fp.num_eq x z ≡ true) q h
    ]
  ]
    where
      spot-general :
          (asize : ℕ) (z : Num) → is_int fp strhash z ≡ false → spot asize (num z) ≡ at_key (num z)
      spot-general asize z e = rw e refl

  no_num : TValue → Bool
  no_num (num x) = false
  no_num nil = true
  no_num (bool b) = true
  no_num (str a) = true
  no_num (gcref t r) = true

  -- No spot of a number is that of another key.
  num_apart :
      (asize : ℕ) (x : Num) (k : TValue) → no_num k ≡ true → spot asize (num x) ≡ at_key k → ⊥
  unfolding no_num
  num_apart asize x k n e = elim (Bool-cases (is_int fp strhash x)) [
    | inl int ↦ elim (Bool-cases (ltb (fp.num2int x) asize)) [
      | inl a ↦ slot_key (rw (int, a) at e)
      | inr a ↦ num_other (key_same (rw (int, a) at e)) n
    ]
    | inr general ↦ num_other (key_same (rw general at e)) n
  ]
    where
      slot_key : {n : ℕ} {k : TValue} → at_slot n ≡ at_key k → ⊥
      slot_key e = cc e

      key_same : {k l : TValue} → at_key k ≡ at_key l → k ≡ l
      key_same e = cc e

      num_other : {y : Num} {k : TValue} → num y ≡ k → no_num k ≡ true → ⊥
      num_other e n = let q = ap no_num e in cc (q, n)

  same_num : (x y : Num) → fp.num_eq x y ≡ true → lj_obj_equal fp strhash (num x) (num y) ≡ true
  unfolding lj_obj_equal
  same_num x y e = e

  same_key :
      (k l : TValue) → IsKey fp strhash k → at_key k ≡ at_key l → lj_obj_equal fp strhash k l ≡ true
  same_key k l h e =
      let q : k ≡ l = cc e in
      subst (λ x. lj_obj_equal fp strhash k x ≡ true) q (equal_self fp strhash k h)

  -- Keys at one spot are equal.
  pub spots_equal :
      (asize : ℕ) (k l : TValue)
      → IsIeee fp
      → Spots.IsIndex fp strhash k
      → Spots.IsIndex fp strhash l
      → Spots.spot fp strhash asize k ≡ Spots.spot fp strhash asize l
      → lj_obj_equal fp strhash k l ≡ true
  unfolding no_num
  spots_equal asize nil nil ieee h g e = absurd h
  spots_equal asize nil (bool c) ieee h g e = absurd h
  spots_equal asize nil (str d) ieee h g e = absurd h
  spots_equal asize nil (gcref u q) ieee h g e = absurd h
  spots_equal asize nil (num y) ieee h g e = absurd h
  spots_equal asize (bool b) nil ieee h g e = absurd g
  spots_equal asize (bool b) (bool c) ieee h g e = same_key (bool b) (bool c) h e
  spots_equal asize (bool b) (str d) ieee h g e = same_key (bool b) (str d) h e
  spots_equal asize (bool b) (gcref u q) ieee h g e = same_key (bool b) (gcref u q) h e
  spots_equal asize (bool b) (num y) ieee h g e = absurd (num_apart asize y (bool b) refl (sym e))
  spots_equal asize (str a) nil ieee h g e = absurd g
  spots_equal asize (str a) (bool c) ieee h g e = same_key (str a) (bool c) h e
  spots_equal asize (str a) (str d) ieee h g e = same_key (str a) (str d) h e
  spots_equal asize (str a) (gcref u q) ieee h g e = same_key (str a) (gcref u q) h e
  spots_equal asize (str a) (num y) ieee h g e = absurd (num_apart asize y (str a) refl (sym e))
  spots_equal asize (gcref t r) nil ieee h g e = absurd g
  spots_equal asize (gcref t r) (bool c) ieee h g e = same_key (gcref t r) (bool c) h e
  spots_equal asize (gcref t r) (str d) ieee h g e = same_key (gcref t r) (str d) h e
  spots_equal asize (gcref t r) (gcref u q) ieee h g e = same_key (gcref t r) (gcref u q) h e
  spots_equal asize (gcref t r) (num y) ieee h g e =
      absurd (num_apart asize y (gcref t r) refl (sym e))
  spots_equal asize (num x) nil ieee h g e = absurd g
  spots_equal asize (num x) (bool c) ieee h g e = absurd (num_apart asize x (bool c) refl e)
  spots_equal asize (num x) (str d) ieee h g e = absurd (num_apart asize x (str d) refl e)
  spots_equal asize (num x) (gcref u q) ieee h g e = absurd (num_apart asize x (gcref u q) refl e)
  spots_equal asize (num x) (num y) ieee h g e = same_num x y (spots_num asize x y ieee h e)

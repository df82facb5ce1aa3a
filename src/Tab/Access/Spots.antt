-- ===== src/Tab/Access/Spots.antt =====
-- The spot of a key: a slot of the array part, or a key of the hash part.
use qyz_client_lua.Base.{
  ℕ, ◌≡◌, ◌⊎◌, refl, inl, inr, true, false, Option, some, ltb, if◌then◌else◌, Bool-cases,
}
use qyz_client_lua.Dump.Proto.{Doubles}
use qyz_client_lua.Tab.{
  TValue, nil, bool, num, str, gcref, GcTab, tvismzero, in_array, Setting, slot, find,
}
use qyz_client_lua.Tab.Valid.{IsIeee, IsKey}
use qyz_client_lua.Tab.Access.{
  is_int, of_walk, value_of, lj_tab_getinth, lj_tab_getstr, lj_tab_getint, lj_tab_get, found_or_new,
  reset_nomm, lj_tab_setinth, lj_tab_setstr, lj_tab_setint, lj_tab_set,
}

pub data Spot : Type 0 where
  at_slot : ℕ → Spot
  at_key : TValue → Spot

module _ (fp : Doubles) (strhash : ℕ → ℕ) where
  -- A key that a table may have: no nil, no NaN.
  abbrev pub IsIndex : TValue → Type 0
  IsIndex nil = ⊥
  IsIndex (bool b) = Unit
  IsIndex (num x) = fp.num_eq x x ≡ true
  IsIndex (str a) = Unit
  IsIndex (gcref t r) = Unit

  abbrev pub int_spot : ℕ → ℕ → Spot
  int_spot asize k = if ltb k asize then at_slot k else at_key (num (fp.of_int k))

  abbrev pub spot : ℕ → TValue → Spot
  spot asize (num x) = if is_int fp strhash x then int_spot asize (fp.num2int x) else at_key (num x)
  spot asize nil = at_key nil
  spot asize (bool b) = at_key (bool b)
  spot asize (str a) = at_key (str a)
  spot asize (gcref t r) = at_key (gcref t r)

  abbrev pub hash_value : GcTab → TValue → Option TValue
  hash_value t k = value_of t (of_walk (find fp strhash t k))

  abbrev pub get_spot : GcTab → Spot → Option TValue
  get_spot t (at_slot i) = some (t.array i)
  get_spot t (at_key k) = hash_value t k

  abbrev pub set_spot : GcTab → Spot → Setting
  set_spot t (at_slot i) = slot (in_array i) t
  set_spot t (at_key k) = found_or_new fp strhash t k (find fp strhash t k)

  abbrev pub IsSpot : Spot → Type 0
  IsSpot (at_slot i) = Unit {0}
  IsSpot (at_key k) = IsKey fp strhash k

  pub spot-IsSpot : (asize : ℕ) (key : TValue) → IsIeee fp → IsIndex key → IsSpot (spot asize key)
  spot-IsSpot asize nil ieee h = absurd h
  spot-IsSpot asize (bool b) ieee h = tt
  spot-IsSpot asize (str a) ieee h = tt
  spot-IsSpot asize (gcref t r) ieee h = tt
  spot-IsSpot asize (num x) ieee h = elim (Bool-cases (is_int fp strhash x)) [
    | inl int ↦ elim (Bool-cases (ltb (fp.num2int x) asize)) [
      | inl small ↦ rw (int, small) tt
      | inr large ↦ rw (int, large) (ieee.int_equal (fp.num2int x), ieee.int_plain (fp.num2int x))
    ]
    | inr general ↦ rw general (h, no_mzero (Bool-cases (tvismzero (num x))) general)
  ]
    where
      no_mzero :
          (tvismzero (num x) ≡ true) ⊎ (tvismzero (num x) ≡ false)
          → is_int fp strhash x ≡ false
          → tvismzero (num x) ≡ false
      no_mzero (inl zero_there) e = let i = ieee.zero_int x zero_there in cc (i, e)
      no_mzero (inr e) f = e

  pub get-get_spot :
      (t : GcTab) (key : TValue)
      → IsIndex key
      → lj_tab_get fp strhash t key ≡ get_spot t (spot t.asize key)
  unfolding lj_tab_get lj_tab_getstr lj_tab_getint lj_tab_getinth
  get-get_spot t nil h = absurd h
  get-get_spot t (bool b) h = refl
  get-get_spot t (str a) h = refl
  get-get_spot t (gcref g r) h = refl
  get-get_spot t (num x) h = elim (Bool-cases (is_int fp strhash x)) [
    | inl int ↦ elim (Bool-cases (ltb (fp.num2int x) t.asize)) [
      | inl small ↦ rw (int, small) refl
      | inr large ↦ rw (int, large) refl
    ]
    | inr general ↦ rw general refl
  ]

  pub set-set_spot :
      (t : GcTab) (key : TValue)
      → IsIndex key
      → lj_tab_set fp strhash t key ≡ set_spot (reset_nomm fp strhash t) (spot t.asize key)
  unfolding lj_tab_set lj_tab_setstr lj_tab_setint lj_tab_setinth
  set-set_spot t nil h = absurd h
  set-set_spot t (bool b) h = refl
  set-set_spot t (str a) h = refl
  set-set_spot t (gcref g r) h = refl
  set-set_spot t (num x) h = elim (Bool-cases (is_int fp strhash x)) [
    | inl int ↦ elim (Bool-cases (ltb (fp.num2int x) t.asize)) [
      | inl small ↦ rw (int, small) refl
      | inr large ↦ rw (int, large) refl
    ]
    | inr general ↦ rw (general, h) refl
  ]

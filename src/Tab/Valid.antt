-- ===== src/Tab/Valid.antt =====
-- The invariant of the hash part, and what its chains hold.
use qyz_client_lua.Base.{
  ◌^◌, ℕ, suc, ◌<◌, ◌≤◌, ◌≡◌, ◌≢◌, refl, ap, subst, ◌∙◌, true, false, Option, some, ==_refl, arith,
}
use qyz_client_lua.Dump.Proto.{Num, Doubles}
use qyz_client_lua.Strs.Intern.Rehash.{bit_and-le}
use qyz_client_lua.Tab.{
  TValue, nil, bool, num, str, gcref, GcTab, tvisnil, tvismzero, lj_obj_equal, hashkey, find, Walk,
  found, ended, no_rounds, walk,
}
use qyz_client_lua.Tab.Chain.{Reaches, here, step, Answers, walk-Answers}

-- What the table relies on of doubles: `==` is symmetric and transitive, and but for the two zeros it
-- holds of one double only; `int32_t` converts to a double and back, and equal doubles convert alike.
pub record IsIeee (fp : Doubles) : Type 0 where
  pub equal_sym : (x y : Num) → fp.num_eq x y ≡ true → fp.num_eq y x ≡ true
  pub equal_trans :
      (x y z : Num) → fp.num_eq x y ≡ true → fp.num_eq y z ≡ true → fp.num_eq x z ≡ true
  pub exact :
      (x y : Num)
      → fp.num_eq x y ≡ true
      → tvismzero (num x) ≡ false
      → tvismzero (num y) ≡ false
      → x ≡ y
  pub int_equal : (n : ℕ) → fp.num_eq (fp.of_int n) (fp.of_int n) ≡ true
  pub int_plain : (n : ℕ) → tvismzero (num (fp.of_int n)) ≡ false
  pub alike : (x y : Num) → fp.num_eq x y ≡ true → fp.num2int x ≡ fp.num2int y
  pub int_exact : (n : ℕ) → n < 2 ^ 32 → fp.num2int (fp.of_int n) ≡ n
  pub int_back : (x : Num) → fp.num2int (fp.of_int (fp.num2int x)) ≡ fp.num2int x
  pub zero_int :
      (x : Num) → tvismzero (num x) ≡ true → fp.num_eq x (fp.of_int (fp.num2int x)) ≡ true

abbrev pub next_of : GcTab → ℕ → Option ℕ
next_of t i = (t.node i).next

module _ (fp : Doubles) (strhash : ℕ → ℕ) where
  -- A key as it stands in a node: no nil, no NaN, no -0.
  abbrev pub IsKey : TValue → Type 0
  IsKey nil = ⊥
  IsKey (bool b) = Unit
  IsKey (num x) = (fp.num_eq x x ≡ true) × (tvismzero (num x) ≡ false)
  IsKey (str a) = Unit
  IsKey (gcref t r) = Unit

  abbrev pub main : GcTab → TValue → ℕ
  main t key = hashkey fp strhash t.hmask key

  -- The nodes with a key: a node that has a successor or a predecessor is one, chains have no cycles
  -- and do not join, each key can be reached from the start of its chain and stands in one node only,
  -- and where a chain has a key, its start has a key of this chain.
  pub record IsTab (t : GcTab) : Type 0 where
    pub rank : ℕ → ℕ
    pub top : t.freetop ≤ suc t.hmask
    pub no_part : t.hmask ≡ 0 → t.freetop ≡ 0
    pub inside : (i j : ℕ) → next_of t i ≡ some j → j ≤ t.hmask
    pub from_key : (i j : ℕ) → next_of t i ≡ some j → tvisnil (t.node i).key ≡ false
    pub to_key : (i j : ℕ) → next_of t i ≡ some j → tvisnil (t.node j).key ≡ false
    pub falls : (i j : ℕ) → next_of t i ≡ some j → rank j < rank i
    pub apart : (i j k : ℕ) → next_of t i ≡ some k → next_of t j ≡ some k → i ≡ j
    pub proper : (i : ℕ) → i ≤ t.hmask → tvisnil (t.node i).key ≡ false → IsKey (t.node i).key
    pub unset :
        (i : ℕ) → i ≤ t.hmask → tvisnil (t.node i).key ≡ true → tvisnil (t.node i).val ≡ true
    pub reached :
        (i : ℕ)
        → i ≤ t.hmask
        → tvisnil (t.node i).key ≡ false
        → Reaches (next_of t) (main t (t.node i).key) i
    pub single :
        (i j : ℕ)
        → i ≤ t.hmask
        → j ≤ t.hmask
        → tvisnil (t.node i).key ≡ false
        → (t.node i).key ≡ (t.node j).key
        → i ≡ j
    pub started :
        (i : ℕ)
        → i ≤ t.hmask
        → tvisnil (t.node i).key ≡ false
        → tvisnil (t.node (main t (t.node i).key)).key ≡ false
    pub owned :
        (i : ℕ)
        → i ≤ t.hmask
        → tvisnil (t.node i).key ≡ false
        → main t (t.node (main t (t.node i).key)).key ≡ main t (t.node i).key

  pub main-inside : (t : GcTab) (key : TValue) → main t key ≤ t.hmask
  unfolding hashkey
  main-inside t key = bit_and-le _ t.hmask

  -- Equal keys are the same key.
  pub equal-same :
      (k l : TValue) → IsIeee fp → IsKey k → IsKey l → lj_obj_equal fp strhash k l ≡ true → k ≡ l
  unfolding lj_obj_equal
  equal-same nil nil ieee h g e = refl
  equal-same nil (bool c) ieee h g e = cc e
  equal-same nil (num y) ieee h g e = cc e
  equal-same nil (str d) ieee h g e = cc e
  equal-same nil (gcref u q) ieee h g e = cc e
  equal-same (bool b) nil ieee h g e = cc e
  equal-same (bool true) (bool true) ieee h g e = refl
  equal-same (bool true) (bool false) ieee h g e = cc e
  equal-same (bool false) (bool true) ieee h g e = cc e
  equal-same (bool false) (bool false) ieee h g e = refl
  equal-same (bool b) (num y) ieee h g e = cc e
  equal-same (bool b) (str d) ieee h g e = cc e
  equal-same (bool b) (gcref u q) ieee h g e = cc e
  equal-same (num x) nil ieee h g e = cc e
  equal-same (num x) (bool c) ieee h g e = cc e
  equal-same (num x) (num y) ieee h g e = ap num (ieee.exact x y e h.1 g.1)
  equal-same (num x) (str d) ieee h g e = cc e
  equal-same (num x) (gcref u q) ieee h g e = cc e
  equal-same (str a) nil ieee h g e = cc e
  equal-same (str a) (bool c) ieee h g e = cc e
  equal-same (str a) (num y) ieee h g e = cc e
  equal-same (str a) (str d) ieee h g e = let f : a ≡ d = ground arith in ap str f
  equal-same (str a) (gcref u q) ieee h g e = cc e
  equal-same (gcref t r) nil ieee h g e = cc e
  equal-same (gcref t r) (bool c) ieee h g e = cc e
  equal-same (gcref t r) (num y) ieee h g e = cc e
  equal-same (gcref t r) (str d) ieee h g e = cc e
  equal-same (gcref t r) (gcref u q) ieee h g e =
      let f : t ≡ u = ground arith in let f' : r ≡ q = ground arith in rw (f, f') refl

  pub equal_self : (k : TValue) → IsKey k → lj_obj_equal fp strhash k k ≡ true
  unfolding lj_obj_equal
  equal_self nil h = refl
  equal_self (bool true) h = refl
  equal_self (bool false) h = refl
  equal_self (num x) h = h.0
  equal_self (str a) h = ==_refl a
  equal_self (gcref t r) h = rw (==_refl t, ==_refl r) refl

  -- A node on a chain that starts at a node is a node.
  Reaches-inside :
      (t : GcTab) (i j : ℕ) → IsTab t → i ≤ t.hmask → Reaches (next_of t) i j → j ≤ t.hmask
  Reaches-inside t i j h l (here e) = omega arith
  Reaches-inside t i j h l (step k e r) = Reaches-inside t k j h (h.inside i k e) r

  -- The search finds the node with the key, or there is none.
  abbrev pub Finds : GcTab → TValue → Walk → Type 0
  Finds t key (found j) = (j ≤ t.hmask) × ((t.node j).key ≡ key)
  Finds t key ended = (j : ℕ) → j ≤ t.hmask → (t.node j).key ≢ key
  Finds t key no_rounds = ⊥

  no_nil : (k l : TValue) → IsKey k → lj_obj_equal fp strhash l k ≡ true → tvisnil l ≡ false
  unfolding lj_obj_equal
  no_nil nil l h e = absurd h
  no_nil (bool b) nil h e = cc e
  no_nil (num x) nil h e = cc e
  no_nil (str a) nil h e = cc e
  no_nil (gcref t r) nil h e = cc e
  no_nil k (bool b) h e = refl
  no_nil k (num x) h e = refl
  no_nil k (str a) h e = refl
  no_nil k (gcref t r) h e = refl

  pub key_no_nil : (k : TValue) → IsKey k → tvisnil k ≡ false
  key_no_nil nil h = absurd h
  key_no_nil (bool b) h = refl
  key_no_nil (num x) h = refl
  key_no_nil (str a) h = refl
  key_no_nil (gcref t r) h = refl

  pub find-Finds :
      (t : GcTab) (key : TValue)
      → IsIeee fp
      → IsTab t
      → IsKey key
      → Finds t key (find fp strhash t key)
  unfolding find
  find-Finds t key ieee h k =
      translate (walk (suc t.hmask) t.node (λ n. lj_obj_equal fp strhash n.key key) (main t key)) (
        walk-Answers t.node (suc t.hmask) h.rank (λ i j e. omega (arith, h.inside i j e)) h.falls
          (λ n. lj_obj_equal fp strhash n.key key) (main t key) (omega (arith, main-inside t key)))
    where
      translate :
          (w : Walk)
          → Answers t.node (λ n. lj_obj_equal fp strhash n.key key) (main t key) w
          → Finds t key w
      translate (found j) (r, e) =
          let l : j ≤ t.hmask = Reaches-inside t (main t key) j h (main-inside t key) r in
          (l, equal-same (t.node j).key key ieee (h.proper j l (no_nil key (t.node j).key k e)) k e)
      translate ended g = λ j l e.
          let some_key : tvisnil (t.node j).key ≡ false = ap tvisnil e ∙ key_no_nil key k in
          let r = subst (λ x. Reaches (next_of t) (main t x) j) e (h.reached j l some_key) in
          let n = g j r in
          let y : lj_obj_equal fp strhash (t.node j).key key ≡ true =
            ap (λ x. lj_obj_equal fp strhash x key) e ∙ equal_self key k in
          cc (n, y)
      translate no_rounds g = g

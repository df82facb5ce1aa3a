-- ===== src/Tab/Count/Room.antt =====
-- The sizes that a rehash chooses, against the keys that the table has.
use qyz_client_lua.Base.{
  ℕ, zero, suc, ◌+◌, ◌-◌, ◌^◌, ◌<◌, ◌≤◌, ◌≡◌, refl, sym, ap, subst, ◌∙◌, inl, inr, false, ◌&&◌,
  Option, none, some, ltb, leb, ◌==◌, if◌then◌else◌, arith, Bool-cases,
}
use qyz_client_lua.Dump.Proto.{Doubles}
use qyz_client_lua.Dump.Write.{lj_fls}
use qyz_client_lua.Dump.Write.Sizes.{fls-step, fls-below}
use qyz_client_lua.Strs.Intern.{sub_word}
use qyz_client_lua.Tab.{TValue, nil, bool, num, str, gcref, GcTab, tvisnil}
use qyz_client_lua.Tab.Access.{is_int}
use qyz_client_lua.TabSize.Best.{keys_below, IsBest, bestasize-IsBest}
use qyz_client_lua.Tab.Count.{
  max_asize, hsize2hbits, countarray, countint, hash_bins, counthash, counted_keys, sizes,
  rehash_sizes, bin,
}
use qyz_client_lua.Tab.Count.Keys.{reach, int_keys, int_keys-none, counted_keys-int_keys}
use qyz_client_lua.Tab.Count.Bins.{
  live, live-le, AtMost, AtMost-put, array_bins-AtMost, array_bins-live,
}

sub_word_plain : (x y : ℕ) → y ≤ x → x < 2 ^ 32 → sub_word x y ≡ x - y
unfolding sub_word
sub_word_plain x y l m = omega arith

module _ (fp : Doubles) (strhash : ℕ → ℕ) where
  countint-AtMost :
      (key : TValue) (bins : ℕ → ℕ) (na : ℕ)
      → AtMost (bins, na)
      → AtMost ((countint fp strhash key bins).0, na + (countint fp strhash key bins).1)
  unfolding countint
  countint-AtMost nil bins na h n = omega (arith, h n)
  countint-AtMost (bool b) bins na h n = omega (arith, h n)
  countint-AtMost (str a) bins na h n = omega (arith, h n)
  countint-AtMost (gcref g r) bins na h n = omega (arith, h n)
  countint-AtMost (num x) bins na h n =
      elim (Bool-cases (ltb (fp.num2int x) max_asize && is_int fp strhash x)) [
        | inl e ↦ rw e (AtMost-put bins na (bin fp strhash (fp.num2int x)) 1 h n)
        | inr e ↦ rw e (omega (arith, h n))
      ]

  countint-le : (key : TValue) (bins : ℕ → ℕ) → (countint fp strhash key bins).1 ≤ 1
  unfolding countint
  countint-le nil bins = omega arith
  countint-le (bool b) bins = omega arith
  countint-le (str a) bins = omega arith
  countint-le (gcref g r) bins = omega arith
  countint-le (num x) bins =
      elim (Bool-cases (ltb (fp.num2int x) max_asize && is_int fp strhash x)) [
        | inl e ↦ rw e (omega arith)
        | inr e ↦ rw e (omega arith)
      ]

  abbrev node_value : GcTab → ℕ → TValue
  node_value t i = (t.node i).val

  -- The loop over the nodes counts all values; integer keys are among them.
  hash_bins_lem :
      (nodes : ℕ) (t : GcTab) (i total na : ℕ) (bins : ℕ → ℕ)
      → AtMost (bins, na)
      → AtMost (hash_bins fp strhash nodes t i total na bins).0
        × ((hash_bins fp strhash nodes t i total na bins).1 ≡ total + live nodes (node_value t) i)
        × ((hash_bins fp strhash nodes t i total na bins).0.1 ≤ na + live nodes (node_value t) i)
  unfolding hash_bins live
  hash_bins_lem zero t i total na bins h = (h, omega arith, omega arith)
  hash_bins_lem (suc nodes) t i total na bins h = elim (Bool-cases (tvisnil (t.node i).val)) [
    | inl e ↦
        let (a, b, c) = hash_bins_lem nodes t (i + 1) total na bins h in
        rw e (a, omega (arith, b), omega (arith, c))
    | inr e ↦
        let key = (t.node i).key in
        let (a, b, c) =
          hash_bins_lem nodes t (i + 1) (total + 1) (na + (countint fp strhash key bins).1)
            (countint fp strhash key bins).0 (countint-AtMost key bins na h) in
        rw e (a, omega (arith, b), omega (arith, c, countint-le key bins))
  ]

  -- The values of a table.
  abbrev pub live_keys : GcTab → ℕ
  live_keys t = live t.asize t.array 0 + live (t.hmask + 1) (node_value t) 0

  abbrev node_count : GcTab → ℕ
  node_count t = t.hmask + 1

  no_bins : AtMost ((λ b. 0), 0)
  unfolding keys_below
  no_bins zero = omega arith
  no_bins (suc n) = omega (arith, no_bins n)

  countarray_lem :
      (t : GcTab)
      → t.asize ≤ max_asize
      → AtMost (countarray t (λ b. 0)) × ((countarray t (λ b. 0)).1 ≡ live t.asize t.array 0)
  unfolding countarray live
  countarray_lem t l = elim (Bool-cases (t.asize == 0)) [
    | inl e ↦ let q : t.asize ≡ 0 = ground arith in rw q (no_bins, refl)
    | inr e ↦
        let p : 0 < t.asize = ground arith in
        let loop = array_bins-live 28 t 0 0 0 (λ b. 0) refl p l (omega arith) (inr (omega arith)) in
        let all : t.asize - 0 ≡ t.asize = omega arith in
        rw e (
          array_bins-AtMost 28 t 0 0 0 (λ b. 0) no_bins,
          loop ∙ ap (λ k. 0 + live k t.array 0) all ∙ omega arith,
        )
  ]

  counted_keys_lem :
      (t : GcTab) (ek : TValue)
      → t.asize ≤ max_asize
      → AtMost (counted_keys fp strhash t ek).0
        × ((counted_keys fp strhash t ek).1 ≡ live_keys t + 1)
        × ((counted_keys fp strhash t ek).0.1 ≤ live_keys t + 1)
  unfolding counted_keys counthash
  counted_keys_lem t ek l =
      let a = countarray t (λ b. 0) in
      let (p, q) = countarray_lem t l in
      let (u, v, w) = hash_bins_lem (t.hmask + 1) t 0 0 a.1 a.0 p in
      let h = hash_bins fp strhash (t.hmask + 1) t 0 0 a.1 a.0 in
      (
        countint-AtMost ek h.0.0 h.0.1 u,
        omega (arith, q, v),
        omega (arith, q, w, countint-le ek h.0.0),
      )

  -- The nodes of a hash part with so many bits.
  abbrev pub node_room : ℕ → ℕ
  node_room hbits = if hbits == 0 then 0 else 2 ^ hbits

  fls-above : (n : ℕ) → n < 2 ^ 32 → n < 2 ^ (lj_fls n + 1)
  fls-above n l = elim (Bool-cases (leb (lj_fls n + 1) 31)) [
    | inl e ↦
        let small : lj_fls n + 1 ≤ 31 = ground arith in
        elim (fls-step (lj_fls n + 1) n (omega arith) small) [
          | inl (x, y) ↦ x
          | inr (x, y) ↦ absurd (omega arith)
        ]
    | inr e ↦
        let large : 31 < lj_fls n + 1 = ground arith in
        let q : lj_fls n + 1 ≡ 32 = omega (arith, fls-below n l) in subst (λ k. n < 2 ^ k) (sym q) l
  ]

  hsize2hbits-room : (s : ℕ) → s < 2 ^ 32 → s ≤ node_room (hsize2hbits s)
  unfolding hsize2hbits
  hsize2hbits-room s l = elim (Bool-cases (s == 0)) [
    | inl e ↦ let q : s ≡ 0 = ground arith in rw q (omega arith)
    | inr e ↦ elim (Bool-cases (s == 1)) [
      | inl f ↦ let q : s ≡ 1 = ground arith in rw q (omega arith)
      | inr f ↦
          let many : 0 < s = ground arith in
          let some_bits : (1 + lj_fls (s - 1) == 0) ≡ false = ground arith in
          let turn : 1 + lj_fls (s - 1) ≡ lj_fls (s - 1) + 1 = omega arith in
          rw (e, f, some_bits, turn) (omega (arith, fls-above (s - 1) (omega arith)))
    ]
  ]

  -- The integer keys up to the end of the bins below `c`.
  abbrev pub keys_to : GcTab → TValue → ℕ → ℕ
  keys_to t ek c = int_keys fp strhash t ek (reach c)

  -- The size of the array part is the best one for the integer keys of the table and the new key. Each
  -- value, and the new key, has an integer key below this size, or has a node.
  abbrev pub HasRoom : GcTab → TValue → Option (ℕ × ℕ) → Type 0
  HasRoom t ek none = ⊥
  HasRoom t ek (some (asize, hbits)) =
      ((limit : ℕ) → IsBest (keys_to t ek) limit (asize, int_keys fp strhash t ek asize))
      × (live_keys t + 1 ≤ int_keys fp strhash t ek asize + node_room hbits)

  -- The second number of an answer is that of the integer keys below the first.
  IsBest-int_keys :
      (t : GcTab) (ek : TValue) (limit asize na : ℕ)
      → t.asize ≤ max_asize
      → IsBest (keys_to t ek) limit (asize, na)
      → na ≡ int_keys fp strhash t ek asize
  IsBest-int_keys t ek limit asize na l (inl (z, n, early)) =
      n ∙ sym (int_keys-none fp strhash t ek) ∙ ap (int_keys fp strhash t ek) (sym z)
  IsBest-int_keys t ek limit asize na l (inr (b, z, n, used, early)) =
      n ∙ ap (int_keys fp strhash t ek) (sym z)

  IsBest-count :
      (bins : ℕ → ℕ) (sum asize na : ℕ)
      → AtMost (bins, sum)
      → IsBest (keys_below bins) 0 (asize, na)
      → na ≤ sum
  IsBest-count bins sum asize na h (inl (z, n, early)) = omega arith
  IsBest-count bins sum asize na h (inr (b, z, n, used, early)) = omega (arith, h (suc b))

  -- For a table with an array part of at most LJ_MAX_ASIZE slots and fewer than 2 ^ 30 nodes, the sizes
  -- that `rehashtab` asks for are found. The size of the array part is the best one, in the sense of
  -- `bestasize`, for the integer keys below LJ_MAX_ASIZE which the table has and which the new key adds;
  -- the hash part has a node for the new key and each value, but for those whose keys are integers below
  -- this size.
  pub rehash_sizes-HasRoom :
      (t : GcTab) (ek : TValue)
      → t.asize ≤ max_asize
      → t.hmask < 2 ^ 30
      → HasRoom t ek (rehash_sizes fp strhash t ek)
  unfolding rehash_sizes
  rehash_sizes-HasRoom t ek l m =
      let c = counted_keys fp strhash t ek in
      let (atmost, total, counted) = counted_keys_lem t ek l in
      let few : live_keys t + 1 < 2 ^ 31 =
        omega (arith, live-le t.asize t.array 0, live-le (t.hmask + 1) (node_value t) 0) in
      let ((asize, na), found, best) = bestasize-IsBest c.0.0 c.0.1 atmost (omega arith) in
      let fits : na ≤ c.0.1 = IsBest-count c.0.0 c.0.1 asize na atmost (best 0) in
      let left : sub_word c.1 na ≡ c.1 - na = sub_word_plain c.1 na (omega arith) (omega arith) in
      let same : keys_below c.0.0 ≡ keys_to t ek =
        λ i b. counted_keys-int_keys fp strhash t ek b l i in
      let of_keys : (limit : ℕ) → IsBest (keys_to t ek) limit (asize, na) =
        λ limit. subst (λ keys. IsBest keys limit (asize, na)) same (best limit) in
      let count : na ≡ int_keys fp strhash t ek asize =
        IsBest-int_keys t ek 0 asize na l (of_keys 0) in
      let room = hsize2hbits-room (sub_word c.1 na) (omega arith) in
      let enough : live_keys t + 1 ≤ na + node_room (hsize2hbits (sub_word c.1 na)) =
        omega (arith, room) in
      subst (λ o. HasRoom t ek (sizes fp strhash c.1 o)) (sym found)
        (subst
          (λ n.
            ((limit : ℕ) → IsBest (keys_to t ek) limit (asize, n))
            × (live_keys t + 1 ≤ n + node_room (hsize2hbits (sub_word c.1 na))))
          count (of_keys, enough))

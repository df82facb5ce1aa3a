-- ===== src/Tab/Next/Visits.antt =====
-- Traversals as a whole.
use qyz_client_lua.Base.{
  ℕ, zero, suc, ◌+◌, ◌-◌, ◌%◌, ◌^◌, ◌<◌, ◌≤◌, ◌≡◌, ◌⊎◌, refl, sym, ap, subst, ◌∙◌, inl, inr, true,
  false, ◌&&◌, Option, none, some, List, [], ◌∷◌, ltb, arith, Bool-cases,
}
use qyz_client_lua.Dump.Proto.{Num, Doubles}
use qyz_client_lua.Tab.{
  TValue, nil, bool, num, str, gcref, GcTab, tvisnil, find, Walk, found, ended, no_rounds,
}
use qyz_client_lua.Tab.Valid.{IsIeee, IsKey, IsTab, Finds, find-Finds}
use qyz_client_lua.Tab.Access.{is_int}
use qyz_client_lua.Tab.Next.{
  index, hash_index, Step, visit, finished, bad_key, stuck, keyindex, next_from, next_of_index,
  lj_tab_next,
}
use qyz_client_lua.Tab.Next.Scans.{places, key_at, value_at, entries, Scans, next_from-Scans}

module _ (fp : Doubles) (strhash : ℕ → ℕ) where
  -- A key that belongs into the array part is in no node.
  abbrev pub IsSplit : GcTab → Type 0
  IsSplit t =
      (i : ℕ) (x : Num)
      → i ≤ t.hmask
      → (t.node i).key ≡ num x
      → (ltb (fp.num2int x) t.asize && is_int fp strhash x) ≡ false

  abbrev add : TValue → TValue → Option (List (TValue × TValue)) → Option (List (TValue × TValue))
  add k v none = none
  add k v (some l) = some ((k, v) ∷ l)

  -- The loop `for (;;) key = next(t, key)` over all keys.
  abbrev continue :
      (TValue → Option (List (TValue × TValue))) → Step → Option (List (TValue × TValue))
  continue go (visit k v) = add k v (go k)
  continue go finished = some []
  continue go bad_key = none
  continue go stuck = none

  unfoldable pub traverse : ℕ → GcTab → TValue → Option (List (TValue × TValue))
  traverse zero t key = none
  traverse (suc rounds) t key = continue (λ k. traverse rounds t k) (lj_tab_next fp strhash t key)

  abbrev IsWordSized : GcTab → Type 0
  IsWordSized t = places t < 2 ^ 32

  hash_index-found :
      (t : GcTab) (key : TValue) (i : ℕ) (w : Walk)
      → IsTab fp strhash t
      → IsWordSized t
      → i ≤ t.hmask
      → (t.node i).key ≡ key
      → tvisnil key ≡ false
      → Finds fp strhash t key w
      → hash_index t key w ≡ index (t.asize + i)
  hash_index-found t key i (found j) h b l e k (m, q) =
      let same : j ≡ i = h.single j i m l (ap tvisnil q ∙ k) (q ∙ sym e) in
      let small : (t.asize + i) % 2 ^ 32 ≡ t.asize + i = omega arith in
      ap (λ x. index ((t.asize + x) % 2 ^ 32)) same ∙ ap index small
  hash_index-found t key i ended h b l e k absent = absurd (absent i l e)
  hash_index-found t key i no_rounds h b l e k a = absurd a

  -- A key in a node has the index of the node.
  keyindex_node :
      (t : GcTab) (key : TValue) (i : ℕ)
      → IsIeee fp
      → IsTab fp strhash t
      → IsSplit t
      → IsWordSized t
      → i ≤ t.hmask
      → (t.node i).key ≡ key
      → IsKey fp strhash key
      → keyindex fp strhash t key ≡ index (t.asize + i)
  unfolding keyindex
  keyindex_node t nil i ieee h split b l e g = absurd g
  keyindex_node t (bool c) i ieee h split b l e g =
      hash_index-found t (bool c) i (find fp strhash t (bool c)) h b l e refl
        (find-Finds fp strhash t (bool c) ieee h g)
  keyindex_node t (str a) i ieee h split b l e g =
      hash_index-found t (str a) i (find fp strhash t (str a)) h b l e refl
        (find-Finds fp strhash t (str a) ieee h g)
  keyindex_node t (gcref u r) i ieee h split b l e g =
      hash_index-found t (gcref u r) i (find fp strhash t (gcref u r)) h b l e refl
        (find-Finds fp strhash t (gcref u r) ieee h g)
  keyindex_node t (num x) i ieee h split b l e g = rw (split i x l e) (
      hash_index-found t (num x) i (find fp strhash t (num x)) h b l e refl
        (find-Finds fp strhash t (num x) ieee h g))

  keyindex_slot :
      (t : GcTab) (i : ℕ)
      → IsIeee fp
      → IsWordSized t
      → i < t.asize
      → keyindex fp strhash t (num (fp.of_int i)) ≡ index i
  unfolding keyindex
  keyindex_slot t i ieee b l =
      let there : ltb i t.asize ≡ true = ground arith in
      let back : fp.num2int (fp.of_int i) ≡ i = ieee.int_exact i (omega arith) in
      let int : is_int fp strhash (fp.of_int i) ≡ true =
        ap (λ n. fp.num_eq (fp.of_int i) (fp.of_int n)) back ∙ ieee.int_equal i in
      rw (back, there, int) refl

  -- A key that was visited has the index at which it was.
  keyindex-key_at :
      (t : GcTab) (j : ℕ)
      → IsIeee fp
      → IsTab fp strhash t
      → IsSplit t
      → IsWordSized t
      → j < places t
      → tvisnil (value_at fp strhash t j) ≡ false
      → keyindex fp strhash t (key_at fp strhash t j) ≡ index j
  keyindex-key_at t j ieee h split b l live = elim (Bool-cases (ltb j t.asize)) [
    | inl e ↦ let m : j < t.asize = ground arith in rw e (keyindex_slot t j ieee b m)
    | inr e ↦
        let i = j - t.asize in
        let m : t.asize ≤ j = ground arith in
        let inside : i ≤ t.hmask = omega arith in
        let val : tvisnil (t.node i).val ≡ false = rw e at live in
        let q : t.asize + i ≡ j = omega arith in
        rw e (
          keyindex_node t (t.node i).key i ieee h split b inside refl (
            h.proper i inside (used i val (h.unset i inside) (Bool-cases (tvisnil (t.node i).key))))
          ∙ ap index q)
  ]
    where
      used :
          (i : ℕ)
          → tvisnil (t.node i).val ≡ false
          → (tvisnil (t.node i).key ≡ true → tvisnil (t.node i).val ≡ true)
          → (tvisnil (t.node i).key ≡ true) ⊎ (tvisnil (t.node i).key ≡ false)
          → tvisnil (t.node i).key ≡ false
      used i val unset (inl e) = let q = unset e in cc (q, val)
      used i val unset (inr e) = e

  traverse_step :
      (rounds : ℕ) (t : GcTab) (k : TValue) (j : ℕ)
      → keyindex fp strhash t k ≡ index j
      → (j + 1) % 2 ^ 32 ≡ j + 1
      → traverse (suc rounds) t k
        ≡ continue (λ k. traverse rounds t k) (next_from fp strhash t (j + 1))
  unfolding traverse lj_tab_next
  traverse_step rounds t k j here small =
      ap (λ x. continue (λ k. traverse rounds t k) (next_of_index fp strhash t x)) here
      ∙ ap (λ x. continue (λ k. traverse rounds t k) (next_from fp strhash t x)) small

  traverse_rest :
      (rounds n i : ℕ) (t : GcTab) (r : Step)
      → IsIeee fp
      → IsTab fp strhash t
      → IsSplit t
      → IsWordSized t
      → n + i ≡ places t
      → n ≤ rounds
      → Scans fp strhash t n i r
      → continue (λ k. traverse rounds t k) r ≡ some (entries fp strhash n t i)
  unfolding Scans traverse entries lj_tab_next
  traverse_rest rounds n i t finished ieee h split b p l s = ap some (sym s)
  traverse_rest rounds n i t bad_key ieee h split b p l s = absurd s
  traverse_rest rounds n i t stuck ieee h split b p l s = absurd s
  traverse_rest zero n i t (visit k v) ieee h split b p l (j, m, q, r, key, value, live, list) =
      absurd (omega arith)
  traverse_rest (suc rounds) n i t (visit k v) ieee h split b p l
        (j, m, q, r, key, value, live, list) =
      let here : keyindex fp strhash t k ≡ index j =
        ap (keyindex fp strhash t) (sym key)
        ∙ keyindex-key_at t j ieee h split b (omega arith) (ap tvisnil value ∙ live) in
      let small : (j + 1) % 2 ^ 32 ≡ j + 1 = omega arith in
      ap (add k v) (
        traverse_step rounds t k j here small
        ∙ traverse_rest rounds m (j + 1) t (next_from fp strhash t (j + 1)) ieee h split b
            (omega arith) (omega arith) (next_from-Scans fp strhash t m (j + 1) (omega arith)))
      ∙ ap some (sym list)

  -- In a table in order with fewer than 2 ^ 32 places, whose nodes have no keys that belong into the
  -- array part, calls of `lj_tab_next` that start with nil visit each entry that has a value once, in
  -- the order of the places, and then end, after as many calls as there are places, and one, at most.
  pub traverse-entries :
      (t : GcTab)
      → IsIeee fp
      → IsTab fp strhash t
      → IsSplit t
      → places t < 2 ^ 32
      → traverse (places t + 1) t nil ≡ some (entries fp strhash (places t) t 0)
  unfolding traverse lj_tab_next keyindex
  traverse-entries t ieee h split b =
      subst (λ n. traverse n t nil ≡ some (entries fp strhash (places t) t 0)) {x = suc (places t)}
        (omega arith)
        (traverse_rest (places t) (places t) 0 t (next_from fp strhash t 0) ieee h split b
          (omega arith) (omega arith) (next_from-Scans fp strhash t (places t) 0 (omega arith)))

-- ===== src/Tab/Next/Scans.antt =====
-- The loops of `lj_tab_next`, from an index on.
use qyz_client_lua.Base.{
  ℕ, zero, suc, ◌+◌, ◌-◌, ◌<◌, ◌≤◌, ◌≡◌, ◌⊎◌, refl, ap, subst, ◌∙◌, inl, inr, true, false, List, [],
  ◌∷◌, ltb, leb, if◌then◌else◌, arith, Bool-cases,
}
use qyz_client_lua.Dump.Proto.{Doubles}
use qyz_client_lua.Tab.{TValue, num, GcTab, tvisnil}
use qyz_client_lua.Tab.Next.{
  Step, visit, finished, bad_key, stuck, next_hash, next_array, next_from,
}

-- The number of places for values.
abbrev pub places : GcTab → ℕ
places t = t.asize + t.hmask + 1

module _ (fp : Doubles) (strhash : ℕ → ℕ) where
  -- The key and the value at an index: array slots first, then nodes.
  abbrev pub key_at : GcTab → ℕ → TValue
  key_at t i = if ltb i t.asize then num (fp.of_int i) else (t.node (i - t.asize)).key

  abbrev pub value_at : GcTab → ℕ → TValue
  value_at t i = if ltb i t.asize then t.array i else (t.node (i - t.asize)).val

  -- The entries with a value among `n` places from `i` on.
  unfoldable pub entries : ℕ → GcTab → ℕ → List (TValue × TValue)
  entries zero t i = []
  entries (suc n) t i =
      let rest = entries n t (i + 1) in
      if tvisnil (value_at t i) then rest else (key_at t i, value_at t i) ∷ rest

  -- What the loops find from `i` on, with `n` places left.
  unfoldable pub Scans : GcTab → ℕ → ℕ → Step → Type 0
  Scans t n i (visit k v) =
      (j : ℕ) × (m : ℕ) × (j + m + 1 ≡ n + i)
      × (i ≤ j)
      × (key_at t j ≡ k)
      × (value_at t j ≡ v)
      × (tvisnil v ≡ false)
      × (entries n t i ≡ (k, v) ∷ entries m t (j + 1))
  Scans t n i finished = entries n t i ≡ []
  Scans t n i bad_key = ⊥
  Scans t n i stuck = ⊥

  -- A place without a value is passed over.
  Scans-skip :
      (t : GcTab) (n i : ℕ) (r : Step)
      → tvisnil (value_at t i) ≡ true
      → Scans t n (i + 1) r
      → Scans t (suc n) i r
  unfolding Scans entries
  Scans-skip t n i (visit k v) e (j, m, p, l, a, b, c, d) =
      (j, m, omega (arith, p), omega (arith, l), a, b, c, rw e d)
  Scans-skip t n i finished e s = rw e s
  Scans-skip t n i bad_key e s = s
  Scans-skip t n i stuck e s = s

  Scans-stop :
      (t : GcTab) (n i : ℕ)
      → tvisnil (value_at t i) ≡ false
      → Scans t (suc n) i (visit (key_at t i) (value_at t i))
  unfolding Scans entries
  Scans-stop t n i e = (i, n, omega arith, omega arith, refl, refl, e, rw e refl)

  value_at_node : (t : GcTab) (i : ℕ) → value_at t (t.asize + i) ≡ (t.node i).val
  value_at_node t i =
      let past : ltb (t.asize + i) t.asize ≡ false = ground arith in
      let back : t.asize + i - t.asize ≡ i = omega arith in rw (past, back) refl

  key_at_node : (t : GcTab) (i : ℕ) → key_at t (t.asize + i) ≡ (t.node i).key
  key_at_node t i =
      let past : ltb (t.asize + i) t.asize ≡ false = ground arith in
      let back : t.asize + i - t.asize ≡ i = omega arith in rw (past, back) refl

  next_hash-Scans :
      (rounds n : ℕ) (t : GcTab) (i : ℕ)
      → n + i ≡ t.hmask + 1
      → n < rounds
      → Scans t n (t.asize + i) (next_hash rounds t i)
  unfolding next_hash Scans entries
  next_hash-Scans zero n t i p l = absurd (omega arith)
  next_hash-Scans (suc rounds) zero t i p l =
      let past : leb i t.hmask ≡ false = ground arith in rw past refl
  next_hash-Scans (suc rounds) (suc n) t i p l =
      let there : leb i t.hmask ≡ true = ground arith in
      elim (Bool-cases (tvisnil (t.node i).val)) [
        | inl e ↦
            rw (there, e)
              (Scans-skip t n (t.asize + i) (next_hash rounds t (i + 1))
                (ap tvisnil (value_at_node t i) ∙ e)
                (subst (λ x. Scans t n x (next_hash rounds t (i + 1))) (omega arith)
                  (next_hash-Scans rounds n t (i + 1) (omega arith) (omega arith))))
        | inr e ↦
            rw (there, e)
              (subst (λ x. Scans t (suc n) (t.asize + i) (visit x (t.node i).val)) (key_at_node t i)
                (subst (λ x. Scans t (suc n) (t.asize + i) (visit (key_at t (t.asize + i)) x))
                  (value_at_node t i)
                  (Scans-stop t n (t.asize + i) (ap tvisnil (value_at_node t i) ∙ e))))
      ]

  -- `n` of the places from `i` on are slots of the array part, and `m` are left.
  next_array-Scans :
      (rounds n m : ℕ) (t : GcTab) (i : ℕ)
      → m + i ≡ places t
      → ((i ≤ t.asize) × (n + i ≡ t.asize) × (n < rounds)) ⊎ ((t.asize < i) × (0 < rounds))
      → Scans t m i (next_array fp strhash rounds t i)
  unfolding next_array
  next_array-Scans zero n m t i p (inl (l, q, r)) = absurd (omega arith)
  next_array-Scans zero n m t i p (inr (l, r)) = absurd (omega arith)
  next_array-Scans (suc rounds) n m t i p (inr (l, r)) =
      let past : ltb i t.asize ≡ false = ground arith in
      rw past (
        subst (λ x. Scans t m x (next_hash (t.hmask + 2) t (i - t.asize))) (omega arith)
          (next_hash-Scans (t.hmask + 2) m t (i - t.asize) (omega arith) (omega arith)))
  next_array-Scans (suc rounds) zero m t i p (inl (l, q, r)) =
      let past : ltb i t.asize ≡ false = ground arith in
      rw past (
        subst (λ x. Scans t m x (next_hash (t.hmask + 2) t (i - t.asize))) (omega arith)
          (next_hash-Scans (t.hmask + 2) m t (i - t.asize) (omega arith) (omega arith)))
  next_array-Scans (suc rounds) (suc n) zero t i p (inl (l, q, r)) = absurd (omega arith)
  next_array-Scans (suc rounds) (suc n) (suc m) t i p (inl (l, q, r)) =
      let there : ltb i t.asize ≡ true = ground arith in
      let value : value_at t i ≡ t.array i = rw there refl in
      let key : key_at t i ≡ num (fp.of_int i) = rw there refl in
      elim (Bool-cases (tvisnil (t.array i))) [
        | inl e ↦
            rw (there, e)
              (Scans-skip t m i (next_array fp strhash rounds t (i + 1)) (ap tvisnil value ∙ e) (
                next_array-Scans rounds n m t (i + 1) (omega arith)
                  (inl (omega arith, omega arith, omega arith))))
        | inr e ↦
            rw (there, e)
              (subst (λ x. Scans t (suc m) i (visit x (t.array i))) key
                (subst (λ x. Scans t (suc m) i (visit (key_at t i) x)) value
                  (Scans-stop t m i (ap tvisnil value ∙ e))))
      ]

  pub next_from-Scans :
      (t : GcTab) (n i : ℕ) → n + i ≡ places t → Scans t n i (next_from fp strhash t i)
  next_from-Scans t n i p = elim (Bool-cases (leb i t.asize)) [
    | inl e ↦
        let l : i ≤ t.asize = ground arith in
        next_array-Scans (t.asize + 1) (t.asize - i) n t i p (inl (l, omega arith, omega arith))
    | inr e ↦
        let l : t.asize < i = ground arith in
        next_array-Scans (t.asize + 1) 0 n t i p (inr (l, omega arith))
  ]

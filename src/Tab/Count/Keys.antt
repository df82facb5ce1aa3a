-- ===== src/Tab/Count/Keys.antt =====
-- The bins of a rehash, against the integer keys that a table has.
use native.Mathlib.Nat.{pow-suc, pow-le-pow_right}
use qyz_client_lua.Base.{
  ℕ, zero, suc, ◌+◌, ◌-◌, ◌*◌, ◌^◌, ◌<◌, ◌≤◌, ◌≡◌, ◌⊎◌, refl, sym, ap, subst, ◌∙◌, inl, inr, true,
  false, ◌&&◌, ltb, leb, ◌==◌, if◌then◌else◌, arith, Bool-cases, ℕ_discrete, put, put_self,
  put_other,
}
use qyz_client_lua.Dump.Proto.{Doubles}
use qyz_client_lua.Dump.Write.Sizes.{fls-step, fls-below}
use qyz_client_lua.Tab.{TValue, nil, bool, num, str, gcref, GcTab, tvisnil}
use qyz_client_lua.Tab.Access.{is_int}
use qyz_client_lua.TabSize.Best.{keys_below}
use qyz_client_lua.Tab.Count.{
  max_asize, count_slots, array_bins, countarray, countint, hash_bins, counthash, counted_keys, bin,
}
use qyz_client_lua.Tab.Count.Bins.{live, count_slots-live, keys_below-above, two_pow}

-- The slots of an array part up to the end of the bins below `c`: the keys are below this bound.
abbrev pub reach : ℕ → ℕ
reach zero = 0
reach (suc c) = 2 * 2 ^ c + 1

-- The values at slots below a bound, among `n` slots from `i` on.
unfoldable pub live_below : ℕ → ℕ → (ℕ → TValue) → ℕ → ℕ
live_below bound zero values i = 0
live_below bound (suc n) values i =
    (if tvisnil (values i) then 0 else if ltb i bound then 1 else 0)
    + live_below bound n values (i + 1)

live_below-all :
    (bound n : ℕ) (values : ℕ → TValue) (i : ℕ)
    → i + n ≤ bound
    → live_below bound n values i ≡ live n values i
unfolding live_below live
live_below-all bound zero values i l = refl
live_below-all bound (suc n) values i l =
    let there : ltb i bound ≡ true = ground arith in
    rw (there, live_below-all bound n values (i + 1) (omega arith)) refl

live_below-none :
    (bound n : ℕ) (values : ℕ → TValue) (i : ℕ) → bound ≤ i → live_below bound n values i ≡ 0
unfolding live_below
live_below-none bound zero values i l = refl
live_below-none bound (suc n) values i l =
    let past : ltb i bound ≡ false = ground arith in
    elim (Bool-cases (tvisnil (values i))) [
      | inl e ↦ rw (e, live_below-none bound n values (i + 1) (omega arith)) refl
      | inr e ↦ rw (e, past, live_below-none bound n values (i + 1) (omega arith)) refl
    ]

live_below-add :
    (bound m n : ℕ) (values : ℕ → TValue) (i : ℕ)
    → live_below bound (m + n) values i
      ≡ live_below bound m values i + live_below bound n values (i + m)
unfolding live_below
live_below-add bound zero n values i =
    let e : i + 0 ≡ i = omega arith in let f : 0 + n ≡ n = omega arith in rw (e, f) (omega arith)
live_below-add bound (suc m) n values i =
    let e : i + 1 + m ≡ i + suc m = omega arith in
    let q = live_below-add bound m n values (i + 1) in
    let s : suc m + n ≡ suc (m + n) = omega arith in rw (s, q, e) (omega arith)

-- A bin that grows by `c` counts for the bounds behind it.
keys_below-grow :
    (bins : ℕ → ℕ) (b c n : ℕ)
    → b < n
    → keys_below (put bins b (bins b + c)) n ≡ keys_below bins n + c
unfolding keys_below
keys_below-grow bins b c zero l = absurd (omega arith)
keys_below-grow bins b c (suc n) l = elim (ℕ_discrete n b) [
  | yes e ↦
      let here : put bins b (bins b + c) n ≡ bins n + c =
        ap (put bins b (bins b + c)) e
        ∙ put_self bins b (bins b + c)
        ∙ ap (λ x. bins x + c) (sym e) in
      omega (arith, here, keys_below-above bins b (bins b + c) n (omega arith))
  | no e ↦
      omega (arith, put_other bins b n (bins b + c) e, keys_below-grow bins b c n (omega arith))
]

-- The slots of one round are in its bin.
round_lem :
    (bins : ℕ → ℕ) (array : ℕ → TValue) (size i slots b c : ℕ)
    → i + slots ≤ size
    → (i + slots ≤ 2 * 2 ^ b + 1) ⊎ (slots ≡ 0)
    → ((b ≡ 0) ⊎ (2 ^ b < i))
    → keys_below (put bins b (bins b + count_slots slots array i 0)) (suc c)
        + live_below (reach (suc c)) (size - (i + slots)) array (i + slots)
      ≡ keys_below bins (suc c) + live_below (reach (suc c)) (size - i) array i
unfolding live_below live
round_lem bins array size i slots b c l top bottom =
    let split : size - i ≡ slots + (size - (i + slots)) = omega arith in
    let whole : live_below (reach (suc c)) (size - i) array i
        ≡ live_below (reach (suc c)) slots array i
          + live_below (reach (suc c)) (size - (i + slots)) array (i + slots) =
      ap (λ k. live_below (reach (suc c)) k array i) split
      ∙ live_below-add (reach (suc c)) slots (size - (i + slots)) array i in
    elim (Bool-cases (ltb b (suc c))) [
      | inl e ↦
          let m : b ≤ c = ground arith in
          let power = pow-le-pow_right {n = 2} (omega arith) m in
          omega (
            arith,
            whole,
            keys_below-grow bins b (count_slots slots array i 0) (suc c) (omega arith),
            inner top (omega arith),
            count_slots-live slots array i 0,
          )
      | inr e ↦
          let m : suc c ≤ b = ground arith in
          let power = pow-le-pow_right {n = 2} (omega arith) m in
          let start : 2 ^ b < i = elim bottom [ inl z ↦ absurd (omega arith) | inr x ↦ x ] in
          let past : reach (suc c) ≤ i = omega (arith, pow-suc 2 c) in
          omega (
            arith,
            whole,
            keys_below-above bins b (bins b + count_slots slots array i 0) (suc c) m,
            live_below-none (reach (suc c)) slots array i past,
          )
    ]
  where
    nothing : (bound : ℕ) → live_below bound 0 array i ≡ live 0 array i
    nothing bound = refl

    inner :
        (i + slots ≤ 2 * 2 ^ b + 1) ⊎ (slots ≡ 0)
        → 2 * 2 ^ b + 1 ≤ reach (suc c)
        → live_below (reach (suc c)) slots array i ≡ live slots array i
    inner (inl x) m = live_below-all (reach (suc c)) slots array i (omega arith)
    inner (inr z) m = rw z (nothing (reach (suc c)))

array_bins-keys :
    (rounds : ℕ) (t : GcTab) (b i na : ℕ) (bins : ℕ → ℕ) (c : ℕ)
    → rounds + b ≡ 28
    → 0 < t.asize
    → t.asize ≤ max_asize
    → i ≤ t.asize
    → (t.asize ≤ i) ⊎ ((b ≡ 0) ⊎ (2 ^ b < i))
    → keys_below (array_bins rounds t b i na bins).0 (suc c)
      ≡ keys_below bins (suc c) + live_below (reach (suc c)) (t.asize - i) t.array i
unfolding array_bins live_below
array_bins-keys zero t b i na bins c r p l m seen =
    let e : b ≡ 28 = omega arith in
    let none_left : t.asize - i ≡ 0 = elim seen [
      | inl x ↦ omega arith
      | inr (inl x) ↦ absurd (omega arith)
      | inr (inr x) ↦ let y : 2 ^ 28 < i = subst (λ k. 2 ^ k < i) e x in omega arith
    ] in
    rw none_left (omega arith)
array_bins-keys (suc rounds) t b i na bins c r p l m seen =
    elim (Bool-cases (leb t.asize (2 * 2 ^ b))) [
      | inl cut ↦ elim (Bool-cases (ltb (t.asize - 1) i)) [
        | inl stop ↦
            let past : t.asize - 1 < i = ground arith in
            let none_left : t.asize - i ≡ 0 = omega arith in rw (cut, stop, none_left) (omega arith)
        | inr more ↦
            let low : i ≤ t.asize - 1 = ground arith in
            let high : t.asize ≤ 2 * 2 ^ b = ground arith in
            let slots : ℕ = t.asize - 1 + 1 - i in
            rw (cut, more)
              (array_bins-keys rounds t (b + 1) (i + slots) (na + count_slots slots t.array i 0)
                  (put bins b (bins b + count_slots slots t.array i 0)) c (omega arith) p l
                  (omega arith) (inl (omega arith))
                ∙ round_lem bins t.array t.asize i slots b c (omega arith) (inl (omega arith))
                    (not_done t.asize i b (omega arith) seen))
      ]
      | inr whole ↦
          let below : 2 * 2 ^ b < t.asize = ground arith in
          let slots : ℕ = 2 * 2 ^ b + 1 - i in
          let wide : 2 ^ (b + 1) < i + slots = omega (arith, two_pow b) in
          rw whole (
            array_bins-keys rounds t (b + 1) (i + slots) (na + count_slots slots t.array i 0)
              (put bins b (bins b + count_slots slots t.array i 0)) c (omega arith) p l
              (omega arith) (inr (inr wide))
            ∙ round_lem bins t.array t.asize i slots b c (omega arith) (within i b)
                (bottom t.asize i b below seen))
    ]
  where
    within : (i b : ℕ) → (i + (2 * 2 ^ b + 1 - i) ≤ 2 * 2 ^ b + 1) ⊎ (2 * 2 ^ b + 1 - i ≡ 0)
    within i b = elim (Bool-cases (leb i (2 * 2 ^ b + 1))) [
      | inl e ↦ let l : i ≤ 2 * 2 ^ b + 1 = ground arith in inl (omega arith)
      | inr e ↦ let l : 2 * 2 ^ b + 1 < i = ground arith in inr (omega arith)
    ]

    bottom :
        (size i b : ℕ)
        → 2 * 2 ^ b < size
        → (size ≤ i) ⊎ ((b ≡ 0) ⊎ (2 ^ b < i))
        → (b ≡ 0) ⊎ (2 ^ b < i)
    bottom size i b l (inl x) = inr (omega arith)
    bottom size i b l (inr x) = x

    not_done :
        (size i b : ℕ) → i < size → (size ≤ i) ⊎ ((b ≡ 0) ⊎ (2 ^ b < i)) → (b ≡ 0) ⊎ (2 ^ b < i)
    not_done size i b l (inl x) = absurd (omega arith)
    not_done size i b l (inr x) = x

no_keys : (n : ℕ) → keys_below (λ b. 0) n ≡ 0
unfolding keys_below
no_keys zero = refl
no_keys (suc n) = omega (arith, no_keys n)

module _ (fp : Doubles) (strhash : ℕ → ℕ) where
  -- 1 for an integer key below LJ_MAX_ASIZE, which may have a slot, and below the bound.
  abbrev pub int_below : ℕ → TValue → ℕ
  int_below bound (num x) =
      if ltb (fp.num2int x) max_asize && is_int fp strhash x
      then (if ltb (fp.num2int x) bound then 1 else 0)
      else 0
  int_below bound nil = 0
  int_below bound (bool b) = 0
  int_below bound (str a) = 0
  int_below bound (gcref g r) = 0

  -- The integer keys with a value among `n` nodes from `i` on.
  unfoldable pub nodes_below : ℕ → ℕ → GcTab → ℕ → ℕ
  nodes_below bound zero t i = 0
  nodes_below bound (suc n) t i =
      (if tvisnil (t.node i).val then 0 else int_below bound (t.node i).key)
      + nodes_below bound n t (i + 1)

  -- The integer keys of a table and of a new key, as far as they are below a bound.
  abbrev pub int_keys : GcTab → TValue → ℕ → ℕ
  int_keys t ek bound =
      live_below bound t.asize t.array 0 + nodes_below bound (t.hmask + 1) t 0 + int_below bound ek

  int_below-none : (key : TValue) → int_below 0 key ≡ 0
  int_below-none nil = refl
  int_below-none (bool b) = refl
  int_below-none (str a) = refl
  int_below-none (gcref g r) = refl
  int_below-none (num x) =
      let past : ltb (fp.num2int x) 0 ≡ false = ground arith in
      elim (Bool-cases (ltb (fp.num2int x) max_asize && is_int fp strhash x)) [
        | inl e ↦ rw (e, past) refl
        | inr e ↦ rw e refl
      ]

  nodes_below-none : (n : ℕ) (t : GcTab) (i : ℕ) → nodes_below 0 n t i ≡ 0
  unfolding nodes_below
  nodes_below-none zero t i = refl
  nodes_below-none (suc n) t i = elim (Bool-cases (tvisnil (t.node i).val)) [
    | inl e ↦ rw (e, nodes_below-none n t (i + 1)) refl
    | inr e ↦ rw (e, nodes_below-none n t (i + 1), int_below-none (t.node i).key) refl
  ]

  pub int_keys-none : (t : GcTab) (ek : TValue) → int_keys t ek 0 ≡ 0
  int_keys-none t ek = omega (
    arith,
    live_below-none 0 t.asize t.array 0 (omega arith),
    nodes_below-none (t.hmask + 1) t 0,
    int_below-none ek,
  )

  -- The bin of a key is below `suc c` just where the key is in its reach.
  bin-reach :
      (k c : ℕ)
      → k < max_asize
      → ((bin fp strhash k < suc c) × (k < reach (suc c)))
        ⊎ ((suc c ≤ bin fp strhash k) × (reach (suc c) ≤ k))
  bin-reach k c l = elim (Bool-cases (ltb 2 k)) [
    | inr small ↦
        let none_less : 0 ≤ c = omega arith in
        let power : 2 ^ 0 ≤ 2 ^ c = pow-le-pow_right {n = 2} (omega arith) none_less in
        rw small (inl (omega arith, ground arith))
    | inl large ↦
        let more : 2 < k = ground arith in
        elim (Bool-cases (ltb c 31)) [
          | inl e ↦ elim (fls-step (suc c) (k - 1) (omega arith) (ground arith)) [
            | inl (x, y) ↦ rw large (inl (y, omega (arith, pow-suc 2 c)))
            | inr (x, y) ↦ rw large (inr (y, omega (arith, pow-suc 2 c)))
          ]
          | inr e ↦
              let far : 31 ≤ c = ground arith in
              let power : 2 ^ 31 ≤ 2 ^ c = pow-le-pow_right {n = 2} (omega arith) far in
              rw large (inl (omega (arith, fls-below (k - 1) (omega arith)), omega arith))
        ]
  ]

  countint-keys :
      (key : TValue) (bins : ℕ → ℕ) (c : ℕ)
      → keys_below (countint fp strhash key bins).0 (suc c)
        ≡ keys_below bins (suc c) + int_below (reach (suc c)) key
  unfolding countint
  countint-keys nil bins c = omega arith
  countint-keys (bool b) bins c = omega arith
  countint-keys (str a) bins c = omega arith
  countint-keys (gcref g r) bins c = omega arith
  countint-keys (num x) bins c =
      elim (Bool-cases (ltb (fp.num2int x) max_asize && is_int fp strhash x)) [
        | inr e ↦ rw e (omega arith)
        | inl e ↦
            let l : fp.num2int x < max_asize = ground arith in
            elim (bin-reach (fp.num2int x) c l) [
              | inl (y, z) ↦
                  let there : ltb (fp.num2int x) (reach (suc c)) ≡ true = ground arith in
                  rw (e, there) (keys_below-grow bins (bin fp strhash (fp.num2int x)) 1 (suc c) y)
              | inr (y, z) ↦
                  let past : ltb (fp.num2int x) (reach (suc c)) ≡ false = ground arith in
                  rw (e, past)
                    (keys_below-above bins (bin fp strhash (fp.num2int x)) _ (suc c) y
                      ∙ omega arith)
            ]
      ]

  hash_bins-keys :
      (nodes : ℕ) (t : GcTab) (i total na : ℕ) (bins : ℕ → ℕ) (c : ℕ)
      → keys_below (hash_bins fp strhash nodes t i total na bins).0.0 (suc c)
        ≡ keys_below bins (suc c) + nodes_below (reach (suc c)) nodes t i
  unfolding hash_bins nodes_below
  hash_bins-keys zero t i total na bins c = omega arith
  hash_bins-keys (suc nodes) t i total na bins c = elim (Bool-cases (tvisnil (t.node i).val)) [
    | inl e ↦ rw e (hash_bins-keys nodes t (i + 1) total na bins c ∙ omega arith)
    | inr e ↦
        let key = (t.node i).key in
        rw e (
          hash_bins-keys nodes t (i + 1) (total + 1) (na + (countint fp strhash key bins).1)
            (countint fp strhash key bins).0 c
          ∙ omega (arith, countint-keys key bins c))
  ]

  countarray-keys :
      (t : GcTab) (c : ℕ)
      → t.asize ≤ max_asize
      → keys_below (countarray t (λ b. 0)).0 (suc c) ≡ live_below (reach (suc c)) t.asize t.array 0
  unfolding countarray live_below
  countarray-keys t c l = elim (Bool-cases (t.asize == 0)) [
    | inl e ↦ let q : t.asize ≡ 0 = ground arith in rw q (no_keys (suc c))
    | inr e ↦
        let p : 0 < t.asize = ground arith in
        let loop = array_bins-keys 28 t 0 0 0 (λ b. 0) c refl p l (omega arith) (inr (inl refl)) in
        let all : t.asize - 0 ≡ t.asize = omega arith in
        rw e (
          loop
          ∙ ap (λ k. keys_below (λ b. 0) (suc c) + live_below (reach (suc c)) k t.array 0) all
          ∙ omega (arith, no_keys (suc c)))
  ]

  -- The bins below `c` count the integer keys in their reach.
  pub counted_keys-int_keys :
      (t : GcTab) (ek : TValue) (c : ℕ)
      → t.asize ≤ max_asize
      → keys_below (counted_keys fp strhash t ek).0.0 c ≡ int_keys t ek (reach c)
  unfolding counted_keys counthash keys_below
  counted_keys-int_keys t ek zero l = sym (int_keys-none t ek)
  counted_keys-int_keys t ek (suc c) l =
      let a = countarray t (λ b. 0) in
      let h = hash_bins fp strhash (t.hmask + 1) t 0 0 a.1 a.0 in
      countint-keys ek h.0.0 c
      ∙ omega (arith, hash_bins-keys (t.hmask + 1) t 0 0 a.1 a.0 c, countarray-keys t c l)

-- ===== src/Tab/Count/Bins.antt =====
-- The bins that count the keys of an array part.
use native.Mathlib.Nat.{pow-suc}
use qyz_client_lua.Base.{
  ℕ, zero, suc, ◌+◌, ◌-◌, ◌*◌, ◌^◌, ◌<◌, ◌≤◌, ◌≡◌, ◌⊎◌, refl, sym, ap, subst, ◌∙◌, inl, inr, ◌&&◌,
  ltb, leb, if◌then◌else◌, arith, Bool-cases, ℕ_discrete, put, put_self, put_other,
}
use qyz_client_lua.Tab.{TValue, GcTab, tvisnil}
use qyz_client_lua.TabSize.Best.{keys_below}
use qyz_client_lua.Tab.Count.{max_asize, Counted, count_slots, array_bins}

-- The values among `n` from `i` on.
unfoldable pub live : ℕ → (ℕ → TValue) → ℕ → ℕ
live zero values i = 0
live (suc n) values i = (if tvisnil (values i) then 0 else 1) + live n values (i + 1)

pub live-le : (n : ℕ) (values : ℕ → TValue) (i : ℕ) → live n values i ≤ n
unfolding live
live-le zero values i = omega arith
live-le (suc n) values i = elim (Bool-cases (tvisnil (values i))) [
  | inl e ↦ rw e (omega (arith, live-le n values (i + 1)))
  | inr e ↦ rw e (omega (arith, live-le n values (i + 1)))
]

pub live-add :
    (m n : ℕ) (values : ℕ → TValue) (i : ℕ)
    → live (m + n) values i ≡ live m values i + live n values (i + m)
unfolding live
live-add zero n values i =
    let e : i + 0 ≡ i = omega arith in let f : 0 + n ≡ n = omega arith in rw (e, f) (omega arith)
live-add (suc m) n values i =
    let e : i + 1 + m ≡ i + suc m = omega arith in
    let q = live-add m n values (i + 1) in
    let s : suc m + n ≡ suc (m + n) = omega arith in rw (s, q, e) (omega arith)

pub count_slots-live :
    (slots : ℕ) (array : ℕ → TValue) (i n : ℕ)
    → count_slots slots array i n ≡ n + live slots array i
unfolding count_slots live
count_slots-live zero array i n = omega arith
count_slots-live (suc slots) array i n = elim (Bool-cases (tvisnil (array i))) [
  | inl e ↦ rw (e, count_slots-live slots array (i + 1) n) (omega arith)
  | inr e ↦ rw (e, count_slots-live slots array (i + 1) (n + 1)) (omega arith)
]

pub keys_below-above :
    (bins : ℕ → ℕ) (b v n : ℕ) → n ≤ b → keys_below (put bins b v) n ≡ keys_below bins n
unfolding keys_below
keys_below-above bins b v zero l = refl
keys_below-above bins b v (suc n) l =
    rw (put_other bins b n v (λ e. omega arith), keys_below-above bins b v n (omega arith)) refl

-- A bin that grows by `c`.
keys_below-put :
    (bins : ℕ → ℕ) (b c n : ℕ) → keys_below (put bins b (bins b + c)) n ≤ keys_below bins n + c
unfolding keys_below
keys_below-put bins b c zero = omega arith
keys_below-put bins b c (suc n) = elim (ℕ_discrete n b) [
  | yes e ↦
      let here : put bins b (bins b + c) n ≡ bins n + c =
        ap (put bins b (bins b + c)) e
        ∙ put_self bins b (bins b + c)
        ∙ ap (λ x. bins x + c) (sym e) in
      omega (arith, here, keys_below-above bins b (bins b + c) n (omega arith))
  | no e ↦ omega (arith, put_other bins b n (bins b + c) e, keys_below-put bins b c n)
]

-- The bins count no more than `na` keys.
abbrev pub AtMost : Counted → Type 0
AtMost (bins, na) = (n : ℕ) → keys_below bins n ≤ na

pub AtMost-put :
    (bins : ℕ → ℕ) (na b c : ℕ) → AtMost (bins, na) → AtMost (put bins b (bins b + c), na + c)
AtMost-put bins na b c h n = omega (arith, h n, keys_below-put bins b c n)

pub array_bins-AtMost :
    (rounds : ℕ) (t : GcTab) (b i na : ℕ) (bins : ℕ → ℕ)
    → AtMost (bins, na)
    → AtMost (array_bins rounds t b i na bins)
unfolding array_bins
array_bins-AtMost zero t b i na bins h = h
array_bins-AtMost (suc rounds) t b i na bins h =
    let cut = leb t.asize (2 * 2 ^ b) in
    let top = if cut then t.asize - 1 else 2 * 2 ^ b in
    let slots : ℕ = top + 1 - i in
    let n = count_slots slots t.array i 0 in
    elim (Bool-cases (cut && ltb top i)) [
      | inl stop ↦ rw stop h
      | inr more ↦ rw more (
          array_bins-AtMost rounds t (b + 1) (i + slots) (na + n) (put bins b (bins b + n))
            (AtMost-put bins na b n h))
    ]

pub two_pow : (b : ℕ) → 2 ^ (b + 1) ≡ 2 * 2 ^ b
two_pow b = let e : b + 1 ≡ suc b = omega arith in rw e (omega (arith, pow-suc 2 b))

-- Slots that were counted, and the others.
live_rest :
    (array : ℕ → TValue) (size i slots na total : ℕ)
    → i + slots ≤ size
    → total ≡ na + count_slots slots array i 0 + live (size - (i + slots)) array (i + slots)
    → total ≡ na + live (size - i) array i
live_rest array size i slots na total l e =
    let split : size - i ≡ slots + (size - (i + slots)) = omega arith in
    let whole : live (size - i) array i
        ≡ live slots array i + live (size - (i + slots)) array (i + slots) =
      ap (λ k. live k array i) split ∙ live-add slots (size - (i + slots)) array i in
    omega (arith, e, whole, count_slots-live slots array i 0)

-- The loop over the bins counts all values of the array part.
pub array_bins-live :
    (rounds : ℕ) (t : GcTab) (b i na : ℕ) (bins : ℕ → ℕ)
    → rounds + b ≡ 28
    → 0 < t.asize
    → t.asize ≤ max_asize
    → i ≤ t.asize
    → (t.asize ≤ i) ⊎ (2 ^ b ≤ i + 1)
    → (array_bins rounds t b i na bins).1 ≡ na + live (t.asize - i) t.array i
unfolding array_bins live
array_bins-live zero t b i na bins r p l m seen =
    let e : b ≡ 28 = omega arith in
    let none_left : t.asize - i ≡ 0 = elim seen [
      | inl x ↦ omega arith
      | inr x ↦ let y : 2 ^ 28 ≤ i + 1 = subst (λ k. 2 ^ k ≤ i + 1) e x in omega arith
    ] in
    rw none_left (omega arith)
array_bins-live (suc rounds) t b i na bins r p l m seen =
    elim (Bool-cases (leb t.asize (2 * 2 ^ b))) [
      | inl cut ↦ elim (Bool-cases (ltb (t.asize - 1) i)) [
        | inl stop ↦
            let past : t.asize - 1 < i = ground arith in
            let none_left : t.asize - i ≡ 0 = omega arith in rw (cut, stop, none_left) (omega arith)
        | inr more ↦
            let slots : ℕ = t.asize - 1 + 1 - i in
            let same : slots ≡ t.asize - i = omega arith in
            let end : i + slots ≡ t.asize = omega arith in
            rw (cut, more)
              (live_rest t.array t.asize i slots na _ (omega arith) (
                array_bins-live rounds t (b + 1) (i + slots) (na + count_slots slots t.array i 0)
                  (put bins b (bins b + count_slots slots t.array i 0)) (omega arith) p l
                  (omega arith) (inl (omega arith))))
      ]
      | inr whole ↦
          let below : 2 * 2 ^ b < t.asize = ground arith in
          let slots : ℕ = 2 * 2 ^ b + 1 - i in
          let wide : 2 ^ (b + 1) ≤ i + slots + 1 = omega (arith, two_pow b) in
          rw whole (
            live_rest t.array t.asize i slots na _ (omega arith) (
              array_bins-live rounds t (b + 1) (i + slots) (na + count_slots slots t.array i 0)
                (put bins b (bins b + count_slots slots t.array i 0)) (omega arith) p l
                (omega arith) (inr wide)))
    ]

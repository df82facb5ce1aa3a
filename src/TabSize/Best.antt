-- ===== src/TabSize/Best.antt =====
-- The size that `bestasize` chooses, from the numbers of keys up to the end of each bin.
use native.Mathlib.Nat.{pow-le-pow_right}
use qyz_client_lua.Base.{
  ℕ, zero, suc, ◌+◌, ◌-◌, ◌*◌, ◌%◌, ◌^◌, ◌<◌, ◌≤◌, ◌≡◌, ◌⊎◌, refl, subst, inl, inr, true, false,
  ◌&&◌, not, some, ltb, ◌==◌, arith, Bool-cases,
}
use qyz_client_lua.TabSize.{best_loop, bestasize}

-- The keys in the bins below `b`.
unfoldable pub keys_below : (ℕ → ℕ) → ℕ → ℕ
keys_below bins zero = 0
keys_below bins (suc b) = keys_below bins b + bins b

-- `keys c` is the number of keys in the bins below `c`. Of the 2 * 2 ^ c slots up to the end of the bin
-- `c`, which has a key, more than a quarter would be used.
abbrev pub IsQuarterUsed : (ℕ → ℕ) → ℕ → Type 0
IsQuarterUsed keys c = (keys c < keys (suc c)) × (2 * 2 ^ c < 4 * keys (suc c))

-- The answer: no array part, or that of some bin; larger ones are not used so much.
abbrev pub IsBest : (ℕ → ℕ) → ℕ → ℕ × ℕ → Type 0
IsBest keys limit (sz, na) =
    ((sz ≡ 0) × (na ≡ 0) × ((c : ℕ) → c < limit → IsQuarterUsed keys c → ⊥))
    ⊎ ((b : ℕ) × (sz ≡ 2 * 2 ^ b + 1)
        × (na ≡ keys (suc b))
        × IsQuarterUsed keys b
        × ((c : ℕ) → b < c → c < limit → IsQuarterUsed keys c → ⊥))

keys_below_grows : (bins : ℕ → ℕ) (b d : ℕ) → keys_below bins b ≤ keys_below bins (b + d)
unfolding keys_below
keys_below_grows bins b zero = let e : b + 0 ≡ b = omega arith in rw e (omega arith)
keys_below_grows bins b (suc d) =
    let e : b + suc d ≡ suc (b + d) = omega arith in rw e (omega (arith, keys_below_grows bins b d))

keys_below_mono : (bins : ℕ → ℕ) (b c : ℕ) → b ≤ c → keys_below bins b ≤ keys_below bins c
keys_below_mono bins b c h =
    let e : b + (c - b) ≡ c = omega arith in
    subst (λ k. keys_below bins b ≤ keys_below bins k) e (keys_below_grows bins b (c - b))

-- Where the loop stops, nothing later is used so much.
none_later :
    (bins : ℕ → ℕ) (nn b c : ℕ)
    → ((n : ℕ) → keys_below bins n ≤ nn)
    → nn < 2 ^ 31
    → (ltb (2 ^ b) (2 * nn % 2 ^ 32) && not (keys_below bins b == nn)) ≡ false
    → b ≤ c
    → IsQuarterUsed (keys_below bins) c
    → ⊥
unfolding keys_below
none_later bins nn b c h l stop m (some_key, used) = elim (Bool-cases (keys_below bins b == nn)) [
  | inl all ↦
      let e : keys_below bins b ≡ nn = ground arith in
      omega (arith, keys_below_mono bins b c m, h (suc c))
  | inr rest ↦
      let small : ltb (2 ^ b) (2 * nn % 2 ^ 32) ≡ false = ground arith in
      let bound : 2 * nn % 2 ^ 32 ≤ 2 ^ b = ground arith in
      omega (arith, pow-le-pow_right {n = 2} (omega arith) m, h (suc c))
]

-- Bins from `b` on that are not used so much do not matter.
IsBest-extend :
    (bins : ℕ → ℕ) (b limit : ℕ) (r : ℕ × ℕ)
    → IsBest (keys_below bins) b r
    → ((c : ℕ) → b ≤ c → c < limit → IsQuarterUsed (keys_below bins) c → ⊥)
    → IsBest (keys_below bins) limit r
IsBest-extend bins b limit r (inl (z, n, early)) late = inl (
  z,
  n,
  λ c l u. elim (Bool-cases (ltb c b)) [
    | inl before ↦ early c (ground arith) u
    | inr behind ↦ late c (ground arith) l u
  ],
)
IsBest-extend bins b limit r (inr (a, z, n, used, early)) late = inr (
  a,
  z,
  n,
  used,
  λ c m l u. elim (Bool-cases (ltb c b)) [
    | inl before ↦ early c m (ground arith) u
    | inr behind ↦ late c (ground arith) l u
  ],
)

-- The loop goes on for exponents below 32 only.
goes_on : (b x : ℕ) → (ltb (2 ^ b) (x % 2 ^ 32)) ≡ true → b < 32
goes_on b x h = elim (Bool-cases (ltb b 32)) [
  | inl small ↦ ground arith
  | inr large ↦
      let m : 32 ≤ b = ground arith in
      let less : 2 ^ b < x % 2 ^ 32 = ground arith in
      absurd (omega (arith, pow-le-pow_right {n = 2} (omega arith) m))
]

-- The loop from `b` on, where the bins below `b` were looked at.
best_loop-IsBest :
    (rounds : ℕ) (bins : ℕ → ℕ) (nn b sz na : ℕ)
    → ((n : ℕ) → keys_below bins n ≤ nn)
    → nn < 2 ^ 31
    → b + rounds ≡ 33
    → b ≤ 32
    → IsBest (keys_below bins) b (sz, na)
    → (r : ℕ × ℕ) × (best_loop rounds bins nn b (keys_below bins b) sz na ≡ some r)
      × ((limit : ℕ) → IsBest (keys_below bins) limit r)
unfolding best_loop keys_below
best_loop-IsBest zero bins nn b sz na h l e k best = absurd (omega arith)
best_loop-IsBest (suc rounds) bins nn b sz na h l e k best =
    let up : b + 1 ≡ suc b = omega arith in
    elim (Bool-cases (ltb (2 ^ b) (2 * nn % 2 ^ 32) && not (keys_below bins b == nn))) [
      | inr stop ↦ rw stop (
        (sz, na),
        refl,
        λ limit.
            IsBest-extend bins b limit (sz, na) best
              (λ c m n u. none_later bins nn b c h l stop m u),
      )
      | inl more ↦
          let small : b < 32 = goes_on b (2 * nn) (ground arith) in
          elim (Bool-cases (ltb 0 (bins b) && ltb (2 ^ b) (2 * (keys_below bins b + bins b)))) [
            | inl better ↦
                rw (more, better, up)
                  (best_loop-IsBest rounds bins nn (suc b) (2 * 2 ^ b + 1) (keys_below bins (suc b))
                    h l (omega arith) (omega arith)
                    (inr (
                      b,
                      refl,
                      refl,
                      (ground arith, ground arith),
                      λ c m n u. absurd (omega arith),
                    )))
            | inr same ↦
                rw (more, same, up)
                  (best_loop-IsBest rounds bins nn (suc b) sz na h l (omega arith) (omega arith) (
                    IsBest-extend bins b (suc b) (sz, na) best
                      (λ c m n u.
                        let here : c ≡ b = omega arith in
                        not_used bins b same (subst (IsQuarterUsed (keys_below bins)) here u))))
          ]
    ]
  where
    not_used :
        (bins : ℕ → ℕ) (b : ℕ)
        → (ltb 0 (bins b) && ltb (2 ^ b) (2 * (keys_below bins b + bins b))) ≡ false
        → IsQuarterUsed (keys_below bins) b
        → ⊥
    not_used bins b e (x, y) = ground arith

-- For fewer than 2 ^ 31 keys, of which the bins count no more, the loop ends within 33 rounds, with
-- size 0 or with a slot for 0 and each key up to the end of a bin that has a key and up to which more
-- than a quarter of the slots would be used; no bin further on is like that. The second number is that
-- of the keys up to this bin.
pub bestasize-IsBest :
    (bins : ℕ → ℕ) (nn : ℕ)
    → ((n : ℕ) → keys_below bins n ≤ nn)
    → nn < 2 ^ 31
    → (r : ℕ × ℕ) × (bestasize bins nn ≡ some r) × ((limit : ℕ) → IsBest (keys_below bins) limit r)
unfolding bestasize keys_below
bestasize-IsBest bins nn h l =
    best_loop-IsBest 33 bins nn 0 0 0 h l refl (omega arith)
      (inl (refl, refl, λ c m u. absurd (omega arith)))

-- ===== src/Strs/Intern/Rehash.antt =====
-- The resizing of the string table.
use Prim.Native.Nat.{digits, min, bit_and, bit_and-bitwise}
use qyz_client_lua.Base.{
  ℕ, zero, suc, ◌/◌, ◌<◌, ◌≤◌, ◌≡◌, ◌⊎◌, refl, sym, ap, subst, ◌∙◌, inl, inr, List, [], ◌∷◌, arith,
  ℕ_discrete, Among, first, later, Among-cases, put, put_self, put_other,
}
use qyz_client_lua.Strs.Intern.{StrObj, reinsert, rehash}

digits_le : (n a b : ℕ) → digits (λ b. zero) min n a b ≤ b
digits_le zero a b = omega arith
digits_le (suc n) zero b = omega arith
digits_le (suc n) (suc a) b = omega (arith, digits_le n (suc a / 2) (b / 2))

pub bit_and-le : (a b : ℕ) → bit_and a b ≤ b
bit_and-le a b = omega (arith, bit_and-bitwise a b, digits_le a a b)

-- Putting a string at the front of a chain adds it there, and nothing else.
pub put-Among :
    (f : ℕ → List StrObj) (h j : ℕ) (p o : StrObj)
    → Among o (put f h (p ∷ f h) j)
    → ((o ≡ p) × (j ≡ h)) ⊎ Among o (f j)
put-Among f h j p o m = elim (ℕ_discrete j h) [
  | yes here ↦
      let e : put f h (p ∷ f h) j ≡ p ∷ f h =
        ap (put f h (p ∷ f h)) here ∙ put_self f h (p ∷ f h) in
      elim (Among-cases (subst (Among o) e m)) [
        | inl same ↦ inl (same, here)
        | inr old ↦ inr (subst (λ i. Among o (f i)) (sym here) old)
      ]
  | no other ↦ inr (subst (Among o) (put_other f h j (p ∷ f h) other) m)
]

pub put-Among_new : (f : ℕ → List StrObj) (h : ℕ) (p : StrObj) → Among p (put f h (p ∷ f h) h)
put-Among_new f h p = subst (Among p) (sym (put_self f h (p ∷ f h))) (first refl)

pub put-Among_old :
    (f : ℕ → List StrObj) (h j : ℕ) (p o : StrObj) → Among o (f j) → Among o (put f h (p ∷ f h) j)
put-Among_old f h j p o m = elim (ℕ_discrete j h) [
  | yes here ↦
      let e : put f h (p ∷ f h) j ≡ p ∷ f h =
        ap (put f h (p ∷ f h)) here ∙ put_self f h (p ∷ f h) in
      subst (Among o) (sym e) (later (subst (λ i. Among o (f i)) here m))
  | no other ↦ subst (Among o) (sym (put_other f h j (p ∷ f h) other)) m
]

reinsert-Among :
    (m : ℕ) (l : List StrObj) (f : ℕ → List StrObj) (j : ℕ) (o : StrObj)
    → Among o (reinsert m l f j)
    → (Among o l × (j ≡ bit_and o.hash m)) ⊎ Among o (f j)
unfolding reinsert
reinsert-Among m [] f j o h = inr h
reinsert-Among m (p ∷ next) f j o h =
    let k = bit_and p.hash m in
    elim (reinsert-Among m next (put f k (p ∷ f k)) j o h) [
      | inl (in_next, e) ↦ inl (later in_next, e)
      | inr old ↦ elim (put-Among f k j p o old) [
        | inl (same, e) ↦ inl (first same, e ∙ ap (λ (q : StrObj). bit_and q.hash m) (sym same))
        | inr older ↦ inr older
      ]
    ]

reinsert-Among_old :
    (m : ℕ) (l : List StrObj) (f : ℕ → List StrObj) (j : ℕ) (o : StrObj)
    → Among o (f j)
    → Among o (reinsert m l f j)
unfolding reinsert
reinsert-Among_old m [] f j o h = h
reinsert-Among_old m (p ∷ next) f j o h =
    let k = bit_and p.hash m in
    reinsert-Among_old m next (put f k (p ∷ f k)) j o (put-Among_old f k j p o h)

reinsert-Among_new :
    (m : ℕ) (l : List StrObj) (f : ℕ → List StrObj) (o : StrObj)
    → Among o l
    → Among o (reinsert m l f (bit_and o.hash m))
unfolding reinsert
reinsert-Among_new m [] f o h = elim h [ ]
reinsert-Among_new m (p ∷ next) f o h =
    let k = bit_and p.hash m in
    elim (Among-cases h) [
      | inl same ↦ reinsert-Among_old m next (put f k (p ∷ f k)) (bit_and o.hash m) o (
          subst (λ (q : StrObj). Among q (put f k (p ∷ f k) (bit_and q.hash m))) (sym same)
            (put-Among_new f k p))
      | inr in_next ↦ reinsert-Among_new m next (put f k (p ∷ f k)) o in_next
    ]

pub rehash-Among :
    (m : ℕ) (old : ℕ → List StrObj) (n : ℕ) (f : ℕ → List StrObj) (j : ℕ) (o : StrObj)
    → Among o (rehash m old n f j)
    → ((i : ℕ) × Among o (old i) × (j ≡ bit_and o.hash m)) ⊎ Among o (f j)
unfolding rehash
rehash-Among m old zero f j o h = inr h
rehash-Among m old (suc n) f j o h = elim (rehash-Among m old n (reinsert m (old n) f) j o h) [
  | inl found ↦ inl found
  | inr last ↦ elim (reinsert-Among m (old n) f j o last) [
    | inl (here, e) ↦ inl (n, here, e)
    | inr before ↦ inr before
  ]
]

rehash-Among_old :
    (m : ℕ) (old : ℕ → List StrObj) (n : ℕ) (f : ℕ → List StrObj) (j : ℕ) (o : StrObj)
    → Among o (f j)
    → Among o (rehash m old n f j)
unfolding rehash
rehash-Among_old m old zero f j o h = h
rehash-Among_old m old (suc n) f j o h =
    rehash-Among_old m old n (reinsert m (old n) f) j o (reinsert-Among_old m (old n) f j o h)

pub rehash-Among_new :
    (m : ℕ) (old : ℕ → List StrObj) (n : ℕ) (f : ℕ → List StrObj) (i : ℕ) (o : StrObj)
    → i < n
    → Among o (old i)
    → Among o (rehash m old n f (bit_and o.hash m))
unfolding rehash
rehash-Among_new m old zero f i o l h = absurd (omega arith)
rehash-Among_new m old (suc n) f i o l h = elim (ℕ_discrete i n) [
  | yes here ↦
      rehash-Among_old m old n (reinsert m (old n) f) (bit_and o.hash m) o
        (reinsert-Among_new m (old n) f o (subst (λ k. Among o (old k)) here h))
  | no other ↦ rehash-Among_new m old n (reinsert m (old n) f) i o (omega arith) h
]

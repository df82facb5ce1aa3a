-- ===== src/Tab/Chain.antt =====
-- Walks along chains without a cycle.
use qyz_client_lua.Base.{
  ℕ, zero, suc, ◌+◌, ◌<◌, ◌≤◌, ◌≡◌, refl, sym, ap, subst, ◌∙◌, inl, inr, Bool, true, false, Option,
  none, some, ==_refl, if◌then◌else◌, arith, Bool-cases, Option-cases, ℕ_discrete, put, put_other,
}
use qyz_client_lua.Tab.{Node, Walk, found, ended, no_rounds, walk}

-- `j` is `i` or behind `i` in its chain.
pub data Reaches (next : ℕ → Option ℕ) : ℕ → ℕ → Type 0 where
  here : {i j : ℕ} → i ≡ j → Reaches next i j
  step : {i j : ℕ} (k : ℕ) → next i ≡ some k → Reaches next k j → Reaches next i j

pub Reaches-trans :
    (next : ℕ → Option ℕ) (i j k : ℕ) → Reaches next i j → Reaches next j k → Reaches next i k
Reaches-trans next i j k (here e) q = subst (λ x. Reaches next x k) (sym e) q
Reaches-trans next i j k (step l e p) q = step l e (Reaches-trans next l j k p q)

-- The nodes below a bound that were not seen.
unseen : (ℕ → Bool) → ℕ → ℕ
unseen seen zero = 0
unseen seen (suc n) = (if seen n then 0 else 1) + unseen seen n

unseen-le : (seen : ℕ → Bool) (n : ℕ) → unseen seen n ≤ n
unfolding unseen
unseen-le seen zero = omega arith
unseen-le seen (suc n) = elim (Bool-cases (seen n)) [
  | inl e ↦ rw e (omega (arith, unseen-le seen n))
  | inr e ↦ rw e (omega (arith, unseen-le seen n))
]

unseen-put_above : (seen : ℕ → Bool) (i n : ℕ) → n ≤ i → unseen (put seen i true) n ≡ unseen seen n
unfolding unseen
unseen-put_above seen i zero h = refl
unseen-put_above seen i (suc n) h =
    rw (put_other seen i n true (λ e. omega arith), unseen-put_above seen i n (omega arith)) refl

-- Seeing one more leaves one less.
unseen-put :
    (seen : ℕ → Bool) (i n : ℕ)
    → i < n
    → seen i ≡ false
    → unseen seen n ≡ suc (unseen (put seen i true) n)
unfolding unseen
unseen-put seen i zero h e = absurd (omega arith)
unseen-put seen i (suc n) h e = elim (ℕ_discrete n i) [
  | yes same ↦ rw (same, e, ==_refl i, unseen-put_above seen i i (omega arith)) (omega arith)
  | no other ↦
      rw (put_other seen i n true other) (omega (arith, unseen-put seen i n (omega arith) e))
]

-- What a walk finds: the first node that passes the test, or that none in the chain does.
abbrev pub Answers : (ℕ → Node) → (Node → Bool) → ℕ → Walk → Type 0
Answers node test i (found j) = Reaches (λ x. (node x).next) i j × (test (node j) ≡ true)
Answers node test i ended = (j : ℕ) → Reaches (λ x. (node x).next) i j → test (node j) ≡ false
Answers node test i no_rounds = ⊥

module _ (node : ℕ → Node) (size : ℕ) (rank : ℕ → ℕ)
    (inside : (i j : ℕ) → (node i).next ≡ some j → j < size)
    (falls : (i j : ℕ) → (node i).next ≡ some j → rank j < rank i) where
  next_of : ℕ → Option ℕ
  next_of x = (node x).next

  Answers-step :
      (test : Node → Bool) (i k : ℕ) (w : Walk)
      → test (node i) ≡ false
      → (node i).next ≡ some k
      → Answers node test k w
      → Answers node test i w
  Answers-step test i k (found j) f e (r, t) = (step k e r, t)
  Answers-step test i k ended f e h = λ j r. elim r [
    | here same ↦ subst (λ x. test (node x) ≡ false) same f
    | step l e' r' ↦
        h j (subst (λ x. Reaches (λ x. (node x).next) x j) (some_inj l k (sym e' ∙ e)) r')
  ]
    where
      some_inj : (l k : ℕ) → some l ≡ some k → l ≡ k
      some_inj l k e = cc e
  Answers-step test i k no_rounds f e h = h

  not_seen :
      (i : ℕ) (seen : ℕ → Bool) → ((x : ℕ) → seen x ≡ true → rank i < rank x) → seen i ≡ false
  not_seen i seen g = elim (Bool-cases (seen i)) [
    | inl e ↦ absurd (omega (arith, g i e))
    | inr e ↦ e
  ]

  seen_above :
      (i k : ℕ) (seen : ℕ → Bool)
      → rank k < rank i
      → ((x : ℕ) → seen x ≡ true → rank i < rank x)
      → (x : ℕ) → put seen i true x ≡ true
      → rank k < rank x
  seen_above i k seen l g x e = elim (ℕ_discrete x i) [
    | yes same ↦ subst (λ y. rank k < rank y) (sym same) l
    | no other ↦ let f = g x (sym (put_other seen i x true other) ∙ e) in omega arith
  ]

  walk-Answers_from :
      (rounds : ℕ) (test : Node → Bool) (i : ℕ) (seen : ℕ → Bool)
      → i < size
      → ((x : ℕ) → seen x ≡ true → rank i < rank x)
      → unseen seen size ≤ rounds
      → Answers node test i (walk rounds node test i)
  unfolding walk
  walk-Answers_from zero test i seen h g l =
      absurd (omega (arith, unseen-put seen i size h (not_seen i seen g)))
  walk-Answers_from (suc rounds) test i seen h g l = elim (Bool-cases (test (node i))) [
    | inl pass ↦ rw pass (here refl, pass)
    | inr fail ↦ elim (Option-cases ((node i).next)) [
      | inl stop ↦
          rw (fail, stop)
            (λ j r. elim r [
              | here same ↦ subst (λ x. test (node x) ≡ false) same fail
              | step k e r' ↦ absurd (none_some k (sym stop ∙ e))
            ])
      | inr (k, e) ↦
          rw (fail, e)
            (Answers-step test i k (walk rounds node test k) fail e (
              walk-Answers_from rounds test k (put seen i true) (inside i k e)
                (seen_above i k seen (falls i k e) g)
                (omega (arith, unseen-put seen i size h (not_seen i seen g)))))
    ]
  ]
    where
      none_some : (k : ℕ) → none ≡ some k → ⊥
      none_some k e = cc e

  -- As many rounds as there are nodes are enough.
  pub walk-Answers :
      (test : Node → Bool) (i : ℕ) → i < size → Answers node test i (walk size node test i)
  unfolding unseen
  walk-Answers test i h =
      walk-Answers_from size test i (λ x. false) h (λ x e. absurd (false_true e))
        (unseen-le (λ x. false) size)
    where
      false_true : false ≡ true → ⊥
      false_true e = cc e

-- A chain under new names.
pub Reaches-map :
    (next next' : ℕ → Option ℕ) (φ : ℕ → ℕ)
    → ((i k : ℕ) → next i ≡ some k → Reaches next' (φ i) (φ k))
    → (i j : ℕ) → Reaches next i j
    → Reaches next' (φ i) (φ j)
Reaches-map next next' φ edge i j (here e) = here (ap φ e)
Reaches-map next next' φ edge i j (step k e r) =
    Reaches-trans next' (φ i) (φ k) (φ j) (edge i k e) (Reaches-map next next' φ edge k j r)

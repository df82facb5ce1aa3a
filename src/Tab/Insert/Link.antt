-- ===== src/Tab/Insert/Link.antt =====
-- A key goes to a free node behind the start of its chain.
use qyz_client_lua.Base.{
  ℕ, ◌+◌, ◌*◌, ◌<◌, ◌≤◌, ◌≡◌, ◌≢◌, ◌⊎◌, refl, sym, ap, subst, ◌∙◌, inl, inr, true, false, some,
  ◌==◌, ==_refl, if◌then◌else◌, arith, ℕ_discrete, put, put_self, put_other,
}
use qyz_client_lua.Dump.Proto.{Doubles}
use qyz_client_lua.Tab.{TValue, Node, GcTab, tvisnil, link_free}
use qyz_client_lua.Tab.Chain.{Reaches, here, step, Reaches-map, Reaches-trans}
use qyz_client_lua.Tab.Valid.{IsKey, main, next_of, IsTab, key_no_nil}
use qyz_client_lua.Tab.Insert.{IsInserted, Renames-IsInserted}

module _ (fp : Doubles) (strhash : ℕ → ℕ) (t : GcTab) (key : TValue) (h : IsTab fp strhash t)
    (g : IsKey fp strhash key) (absent : (j : ℕ) → j ≤ t.hmask → (t.node j).key ≢ key) (f : ℕ)
    (f_inside : f ≤ t.hmask) (f_free : tvisnil (t.node f).key ≡ true)
    (n_key : tvisnil (t.node (main fp strhash t key)).key ≡ false)
    (n_main : main fp strhash t (t.node (main fp strhash t key)).key ≡ main fp strhash t key) where
  abbrev n : ℕ
  n = main fp strhash t key

  differ : true ≡ false → ⊥
  differ e = cc e

  f-n : f ≢ n
  f-n e = differ (sym f_free ∙ ap (λ x. tvisnil (t.node x).key) e ∙ n_key)

  n-f : n ≢ f
  n-f e = f-n (sym e)

  unfoldable pub node' : ℕ → Node
  node' = put (link_free t n f) f (record (link_free t n f f) { key = key })

  linked_f : link_free t n f f ≡ record (t.node f) { next = (t.node n).next }
  unfolding link_free
  linked_f = put_other (put t.node f _) n f _ f-n ∙ put_self t.node f _

  at_f : node' f ≡ record (t.node f) { next = (t.node n).next; key = key }
  unfolding node'
  at_f = put_self (link_free t n f) f _ ∙ ap (λ (x : Node). record x { key = key }) linked_f

  at_n : node' n ≡ record (t.node n) { next = some f }
  unfolding node' link_free
  at_n =
      put_other (link_free t n f) f n _ n-f
      ∙ put_self (put t.node f _) n _
      ∙ ap (λ (x : Node). record x { next = some f }) (put_other t.node f n _ n-f)

  at_other : (i : ℕ) → i ≢ n → i ≢ f → node' i ≡ t.node i
  unfolding node' link_free
  at_other i a b =
      put_other (link_free t n f) f i _ b
      ∙ put_other (put t.node f _) n i _ a
      ∙ put_other t.node f i _ b

  -- But for the free node, keys and values stay.
  entry_stays :
      (i : ℕ) → i ≢ f → ((node' i).key ≡ (t.node i).key) × ((node' i).val ≡ (t.node i).val)
  entry_stays i b = elim (ℕ_discrete i n) [
    | yes e ↦
        subst (λ x. ((node' x).key ≡ (t.node x).key) × ((node' x).val ≡ (t.node x).val)) (sym e)
          (ap (λ (x : Node). x.key) at_n, ap (λ (x : Node). x.val) at_n)
    | no e ↦ (ap (λ (x : Node). x.key) (at_other i e b), ap (λ (x : Node). x.val) (at_other i e b))
  ]

  no_next : (j : ℕ) → (t.node f).next ≡ some j → ⊥
  no_next j e = differ (sym f_free ∙ h.from_key f j e)

  no_previous : (i : ℕ) → (t.node i).next ≡ some f → ⊥
  no_previous i e = differ (sym f_free ∙ h.to_key i f e)

  -- The links there are now.
  edge :
      (i j : ℕ)
      → (node' i).next ≡ some j
      → ((i ≡ f) × ((t.node n).next ≡ some j))
        ⊎ (((i ≡ n) × (j ≡ f)) ⊎ ((i ≢ f) × (i ≢ n) × ((t.node i).next ≡ some j)))
  edge i j e = elim (ℕ_discrete i f) [
    | yes a ↦ inl (a, sym (ap (λ x. (node' x).next) a ∙ ap (λ (x : Node). x.next) at_f) ∙ e)
    | no a ↦ elim (ℕ_discrete i n) [
      | yes b ↦
          let q : some j ≡ some f =
            sym e ∙ ap (λ x. (node' x).next) b ∙ ap (λ (x : Node). x.next) at_n in
          inr (inl (b, cc q))
      | no b ↦ inr (inr (a, b, sym (ap (λ (x : Node). x.next) (at_other i b a)) ∙ e))
    ]
  ]

  key_of_f : (node' f).key ≡ key
  key_of_f = ap (λ (x : Node). x.key) at_f

  f_key : tvisnil (node' f).key ≡ false
  f_key = ap tvisnil key_of_f ∙ key_no_nil fp strhash key g

  key_stays : (i : ℕ) → tvisnil (t.node i).key ≡ false → tvisnil (node' i).key ≡ false
  key_stays i l = elim (ℕ_discrete i f) [
    | yes e ↦ ap (λ x. tvisnil (node' x).key) e ∙ f_key
    | no e ↦ ap tvisnil (entry_stays i e).0 ∙ l
  ]

  -- The free node ranks below `n` and above what was behind `n`.
  rank' : ℕ → ℕ
  rank' i = if i == f then 2 * h.rank n else 2 * h.rank i + 1

  rank_f : rank' f ≡ 2 * h.rank n
  unfolding rank'
  rank_f = rw (==_refl f) refl

  rank_other : (i : ℕ) → i ≢ f → rank' i ≡ 2 * h.rank i + 1
  unfolding rank'
  rank_other i e = let q : (i == f) ≡ false = ground arith in rw q refl

  target_no_f : (i j : ℕ) → (t.node i).next ≡ some j → j ≢ f
  target_no_f i j e q = no_previous i (e ∙ ap some q)

  falls : (i j : ℕ) → (node' i).next ≡ some j → rank' j < rank' i
  falls i j e = elim (edge i j e) [
    | inl (a, b) ↦
        subst (λ x. rank' j < rank' x) (sym a)
          (omega (arith, rank_f, rank_other j (target_no_f n j b), h.falls n j b))
    | inr (inl (a, b)) ↦
        subst (λ x. rank' j < rank' x) (sym a)
          (subst (λ x. rank' x < rank' n) (sym b) (omega (arith, rank_f, rank_other n n-f)))
    | inr (inr (a, b, c)) ↦
        omega (arith, rank_other i a, rank_other j (target_no_f i j c), h.falls i j c)
  ]

  inside : (i j : ℕ) → (node' i).next ≡ some j → j ≤ t.hmask
  inside i j e = elim (edge i j e) [
    | inl (a, b) ↦ h.inside n j b
    | inr (inl (a, b)) ↦ subst (λ x. x ≤ t.hmask) (sym b) f_inside
    | inr (inr (a, b, c)) ↦ h.inside i j c
  ]

  from_key : (i j : ℕ) → (node' i).next ≡ some j → tvisnil (node' i).key ≡ false
  from_key i j e = elim (edge i j e) [
    | inl (a, b) ↦ ap (λ x. tvisnil (node' x).key) a ∙ f_key
    | inr (inl (a, b)) ↦ ap (λ x. tvisnil (node' x).key) a ∙ key_stays n n_key
    | inr (inr (a, b, c)) ↦ key_stays i (h.from_key i j c)
  ]

  to_key : (i j : ℕ) → (node' i).next ≡ some j → tvisnil (node' j).key ≡ false
  to_key i j e = elim (edge i j e) [
    | inl (a, b) ↦ key_stays j (h.to_key n j b)
    | inr (inl (a, b)) ↦ ap (λ x. tvisnil (node' x).key) b ∙ f_key
    | inr (inr (a, b, c)) ↦ key_stays j (h.to_key i j c)
  ]

  apart : (i j k : ℕ) → (node' i).next ≡ some k → (node' j).next ≡ some k → i ≡ j
  apart i j k e e' = elim (edge i k e) [
    | inl (a, b) ↦ elim (edge j k e') [
      | inl (c, d) ↦ a ∙ sym c
      | inr (inl (c, d)) ↦ absurd (target_no_f n k b d)
      | inr (inr (c, d, x)) ↦ absurd (d (sym (h.apart n j k b x)))
    ]
    | inr (inl (a, b)) ↦ elim (edge j k e') [
      | inl (c, d) ↦ absurd (target_no_f n k d b)
      | inr (inl (c, d)) ↦ a ∙ sym c
      | inr (inr (c, d, x)) ↦ absurd (target_no_f j k x b)
    ]
    | inr (inr (a, b, x)) ↦ elim (edge j k e') [
      | inl (c, d) ↦ absurd (b (sym (h.apart n i k d x)))
      | inr (inl (c, d)) ↦ absurd (target_no_f i k x d)
      | inr (inr (c, d, y)) ↦ h.apart i j k x y
    ]
  ]

  n_to_f : Reaches (λ i. (node' i).next) n f
  n_to_f = step f (ap (λ (x : Node). x.next) at_n) (here refl)

  path : (i k : ℕ) → (t.node i).next ≡ some k → Reaches (λ i. (node' i).next) i k
  path i k e = elim (ℕ_discrete i n) [
    | yes a ↦
        subst (λ x. Reaches (λ i. (node' i).next) x k) (sym a)
          (Reaches-trans (λ i. (node' i).next) n f k n_to_f
            (step k (ap (λ (x : Node). x.next) at_f ∙ sym (ap (λ x. (t.node x).next) a) ∙ e)
              (here refl)))
    | no a ↦
        let b : i ≢ f = λ q. no_next k (sym (ap (λ x. (t.node x).next) q) ∙ e) in
        step k (ap (λ (x : Node). x.next) (at_other i a b) ∙ e) (here refl)
  ]

  pub link-IsInserted :
      f < t.freetop → IsInserted fp strhash t key (record t { node = node'; freetop = f }) f
  link-IsInserted f_top =
      Renames-IsInserted fp strhash t key node' f f (λ i. i) h g absent
        (record {
          rank = rank';
          top = omega (arith, h.top);
          no_part = λ z. absurd (omega (arith, h.no_part z));
          slot_inside = f_inside;
          slot_key = key_of_f;
          slot_nil = ap (λ (x : Node). tvisnil x.val) at_f ∙ h.unset f f_inside f_free;
          inside = inside;
          from_key = from_key;
          to_key = to_key;
          falls = falls;
          apart = apart;
          moves = λ i l e q. (l, (entry_stays i q).0, (entry_stays i q).1);
          comes = λ j l q e. (j, l, sym (ap tvisnil (entry_stays j q).0) ∙ e, refl);
          lives = λ i l e q.
              differ
                (sym (h.unset f f_inside f_free) ∙ ap (λ x. tvisnil (t.node x).val) (sym q) ∙ e);
          unset = λ i l e. elim (ℕ_discrete i f) [
            | yes same ↦ absurd (differ (sym e ∙ ap (λ x. tvisnil (node' x).key) same ∙ f_key))
            | no other ↦
                ap tvisnil (entry_stays i other).1
                ∙ h.unset i l (sym (ap tvisnil (entry_stays i other).0) ∙ e)
          ];
          paths = Reaches-map (next_of t) (λ i. (node' i).next) (λ i. i) path;
          starts = λ i l e q. refl;
          slot_path = n_to_f;
          owner = λ k w. elim w [
            | inl e ↦
                let m : main fp strhash t k ≡ n = ap (main fp strhash t) e in
                (
                  ap (λ x. tvisnil (node' x).key) m ∙ key_stays n n_key,
                  ap (λ x. main fp strhash t (node' x).key) m
                      ∙ ap (main fp strhash t) (entry_stays n n-f).0
                      ∙ n_main
                      ∙ sym m,
                )
            | inr (a, b, c) ↦
                let no_f : main fp strhash t k ≢ f =
                  λ q. differ (sym f_free ∙ ap (λ x. tvisnil (t.node x).key) (sym q) ∙ a) in
                (
                  key_stays (main fp strhash t k) a,
                  ap (main fp strhash t) (entry_stays (main fp strhash t k) no_f).0 ∙ b,
                )
          ];
        })

-- ===== src/Tab/Insert/Move.antt =====
-- A node of another chain moves to a free node, and the key goes to the start of its own chain.
use qyz_client_lua.Base.{
  ℕ, ◌<◌, ◌≤◌, ◌≡◌, ◌≢◌, ◌⊎◌, refl, sym, ap, subst, ◌∙◌, inl, inr, Bool, true, false, not, ◌&&◌,
  none, some, ◌==◌, ==_refl, if◌then◌else◌, arith, ℕ_discrete, Bool-cases, put, put_self, put_other,
}
use qyz_client_lua.Dump.Proto.{Doubles}
use qyz_client_lua.Tab.{
  TValue, nil, bool, num, str, gcref, Node, GcTab, tvisnil, tvisstr, move_node, belongs,
}
use qyz_client_lua.Tab.Chain.{Reaches, here, step, Reaches-map}
use qyz_client_lua.Tab.Valid.{IsKey, main, next_of, IsTab, main-inside, key_no_nil}
use qyz_client_lua.Tab.Insert.{IsInserted, Renames-IsInserted}

module _ (fp : Doubles) (strhash : ℕ → ℕ) (t : GcTab) (key : TValue) (h : IsTab fp strhash t)
    (g : IsKey fp strhash key) (absent : (j : ℕ) → j ≤ t.hmask → (t.node j).key ≢ key) (f : ℕ)
    (f_inside : f ≤ t.hmask) (f_free : tvisnil (t.node f).key ≡ true)
    (n_key : tvisnil (t.node (main fp strhash t key)).key ≡ false)
    (n_main : main fp strhash t (t.node (main fp strhash t key)).key ≢ main fp strhash t key)
    (p : ℕ) (p_next : (t.node p).next ≡ some (main fp strhash t key)) where
  abbrev n : ℕ
  n = main fp strhash t key

  differ : true ≡ false → ⊥
  differ e = cc e

  f-n : f ≢ n
  f-n e = differ (sym f_free ∙ ap (λ x. tvisnil (t.node x).key) e ∙ n_key)

  n-f : n ≢ f
  n-f e = f-n (sym e)

  p-n : p ≢ n
  p-n e = let l = h.falls n n (sym (ap (λ x. (t.node x).next) e) ∙ p_next) in omega arith

  p-f : p ≢ f
  p-f e = differ (sym f_free ∙ ap (λ x. tvisnil (t.node x).key) (sym e) ∙ h.from_key p n p_next)

  -- Before the key is written.
  abbrev pub moved : ℕ → Node
  moved = move_node t n f p

  abbrev relinked : Node
  relinked = record (t.node p) { next = some f }

  abbrev node1 : ℕ → Node
  node1 = put t.node p relinked

  abbrev node2 : ℕ → Node
  node2 = put node1 f (node1 n)

  abbrev emptied : Node
  emptied = record (node2 n) { next = none; val = nil }

  node1_place : node1 n ≡ t.node n
  node1_place = put_other t.node p n relinked (λ e. p-n (sym e))

  moved_place : moved n ≡ record (t.node n) { next = none; val = nil }
  unfolding move_node
  moved_place =
      put_self node2 n emptied
      ∙ ap (λ (x : Node). record x { next = none; val = nil })
          (put_other node1 f n (node1 n) n-f ∙ node1_place)

  moved_f : moved f ≡ t.node n
  unfolding move_node
  moved_f = put_other node2 n f emptied f-n ∙ put_self node1 f (node1 n) ∙ node1_place

  moved_p : moved p ≡ record (t.node p) { next = some f }
  unfolding move_node
  moved_p =
      put_other node2 n p emptied p-n
      ∙ put_other node1 f p (node1 n) p-f
      ∙ put_self t.node p relinked

  moved_other : (i : ℕ) → i ≢ n → i ≢ f → i ≢ p → moved i ≡ t.node i
  unfolding move_node
  moved_other i a b c =
      put_other node2 n i emptied a
      ∙ put_other node1 f i (node1 n) b
      ∙ put_other t.node p i relinked c

  -- The new name of a node.
  φ : ℕ → ℕ
  φ i = if i == n then f else i

  φ_n : φ n ≡ f
  unfolding φ
  φ_n = rw (==_refl n) refl

  φ_other : (i : ℕ) → i ≢ n → φ i ≡ i
  unfolding φ
  φ_other i e = let q : (i == n) ≡ false = ground arith in rw q refl

  φ-n : (i : ℕ) → φ i ≢ n
  φ-n i e = elim (ℕ_discrete i n) [
    | yes q ↦ f-n (sym φ_n ∙ ap φ (sym q) ∙ e)
    | no q ↦ q (sym (φ_other i q) ∙ e)
  ]

  no_next : (j : ℕ) → (t.node f).next ≡ some j → ⊥
  no_next j e = differ (sym f_free ∙ h.from_key f j e)

  no_previous : (i : ℕ) → (t.node i).next ≡ some f → ⊥
  no_previous i e = differ (sym f_free ∙ h.to_key i f e)

  no_loop : (j : ℕ) → (t.node n).next ≡ some j → j ≢ n
  no_loop j e q = let l = h.falls n j e in omega (arith, ap h.rank q)

  -- The links there are now.
  edge :
      (i j : ℕ)
      → (moved i).next ≡ some j
      → ((i ≡ p) × (j ≡ f))
        ⊎ (((i ≡ f) × ((t.node n).next ≡ some j) × (j ≢ n))
            ⊎ ((i ≢ n) × (i ≢ f) × (i ≢ p) × ((t.node i).next ≡ some j) × (j ≢ n)))
  edge i j e = elim (ℕ_discrete i n) [
    | yes a ↦ absurd (
        none_some j
          (sym (ap (λ (x : Node). x.next) moved_place) ∙ sym (ap (λ x. (moved x).next) a) ∙ e))
    | no a ↦ elim (ℕ_discrete i f) [
      | yes b ↦
          let q = sym (ap (λ (x : Node). x.next) moved_f) ∙ sym (ap (λ x. (moved x).next) b) ∙ e in
          inr (inl (b, q, no_loop j q))
      | no b ↦ elim (ℕ_discrete i p) [
        | yes c ↦
            let q : some j ≡ some f =
              sym e ∙ ap (λ x. (moved x).next) c ∙ ap (λ (x : Node). x.next) moved_p in
            inl (c, cc q)
        | no c ↦
            let q = sym (ap (λ (x : Node). x.next) (moved_other i a b c)) ∙ e in
            inr (inr (a, b, c, q, λ w. c (h.apart i p n (q ∙ ap some w) p_next)))
      ]
    ]
  ]
    where
      none_some : (j : ℕ) → none ≡ some j → ⊥
      none_some j e = cc e

  -- Keys and values go with their nodes.
  entry :
      (i : ℕ) → i ≢ f → ((moved (φ i)).key ≡ (t.node i).key) × ((moved (φ i)).val ≡ (t.node i).val)
  entry i b = elim (ℕ_discrete i n) [
    | yes a ↦
        let q : moved (φ i) ≡ t.node i =
          ap (λ x. moved (φ x)) a ∙ ap moved φ_n ∙ moved_f ∙ sym (ap t.node a) in
        (ap (λ (x : Node). x.key) q, ap (λ (x : Node). x.val) q)
    | no a ↦ elim (ℕ_discrete i p) [
      | yes c ↦
          let q : moved (φ i) ≡ record (t.node i) { next = some f } =
            ap moved (φ_other i a)
            ∙ ap moved c
            ∙ moved_p
            ∙ ap (λ x. record (t.node x) { next = some f }) (sym c) in
          (ap (λ (x : Node). x.key) q, ap (λ (x : Node). x.val) q)
      | no c ↦
          let q : moved (φ i) ≡ t.node i = ap moved (φ_other i a) ∙ moved_other i a b c in
          (ap (λ (x : Node). x.key) q, ap (λ (x : Node). x.val) q)
    ]
  ]

  unfoldable pub rank' : ℕ → ℕ
  rank' i = if i == f then h.rank n else h.rank i

  rank_f : rank' f ≡ h.rank n
  unfolding rank'
  rank_f = rw (==_refl f) refl

  rank_other : (i : ℕ) → i ≢ f → rank' i ≡ h.rank i
  unfolding rank'
  rank_other i e = let q : (i == f) ≡ false = ground arith in rw q refl

  target_no_f : (i j : ℕ) → (t.node i).next ≡ some j → j ≢ f
  target_no_f i j e q = no_previous i (e ∙ ap some q)

  pub moved_falls : (i j : ℕ) → (moved i).next ≡ some j → rank' j < rank' i
  moved_falls i j e = elim (edge i j e) [
    | inl (a, b) ↦
        subst (λ x. rank' j < rank' x) (sym a)
          (subst (λ x. rank' x < rank' p) (sym b)
            (omega (arith, rank_f, rank_other p p-f, h.falls p n p_next)))
    | inr (inl (a, b, c)) ↦
        subst (λ x. rank' j < rank' x) (sym a)
          (omega (arith, rank_f, rank_other j (target_no_f n j b), h.falls n j b))
    | inr (inr (a, b, c, d, w)) ↦
        omega (arith, rank_other i b, rank_other j (target_no_f i j d), h.falls i j d)
  ]

  pub moved_inside : (i j : ℕ) → (moved i).next ≡ some j → j ≤ t.hmask
  moved_inside i j e = elim (edge i j e) [
    | inl (a, b) ↦ subst (λ x. x ≤ t.hmask) (sym b) f_inside
    | inr (inl (a, b, c)) ↦ h.inside n j b
    | inr (inr (a, b, c, d, w)) ↦ h.inside i j d
  ]

  -- No node but the slot starts the chain of the key.
  other_main :
      (i : ℕ) → i ≤ t.hmask → tvisnil (t.node i).key ≡ false → main fp strhash t (t.node i).key ≢ n
  other_main i l e q =
      n_main (ap (λ x. main fp strhash t (t.node x).key) (sym q) ∙ h.owned i l e ∙ q)

  foreign :
      (x : Node)
      → (main fp strhash t x.key ≢ n) ⊎ ((tvisnil x.key ≡ true) ⊎ (tvisnil x.val ≡ true))
      → belongs fp strhash t.hmask n x ≡ false
  unfolding belongs
  foreign x (inl e) = elim (Bool-cases (main fp strhash t x.key == n)) [
    | inl same ↦ absurd (e (ground arith))
    | inr other ↦ rw other (both (tvisstr x.key) (tvisnil x.val))
  ]
    where
      both : (a b : Bool) → (a && (not b && false)) ≡ false
      both true true = refl
      both true false = refl
      both false b = refl
  foreign x (inr (inl e)) = no_str x.key e
    where
      no_str :
          (k : TValue)
          → tvisnil k ≡ true
          → (tvisstr k && (not (tvisnil x.val) && main fp strhash t k == n)) ≡ false
      no_str nil e = refl
      no_str (bool b) e = refl
      no_str (num y) e = refl
      no_str (str a) e = absurd (differ (sym e))
      no_str (gcref u q) e = refl
  foreign x (inr (inr e)) = rw e (last (tvisstr x.key))
    where
      last : (a : Bool) → (a && false) ≡ false
      last true = refl
      last false = refl

  -- No node is to be rechained.
  pub moved-foreign : (i : ℕ) → i ≤ t.hmask → belongs fp strhash t.hmask n (moved i) ≡ false
  moved-foreign i l = elim (ℕ_discrete i n) [
    | yes a ↦ foreign (moved i) (
        inr
          (inr (ap (λ x. tvisnil (moved x).val) a ∙ ap (λ (x : Node). tvisnil x.val) moved_place)))
    | no a ↦ elim (ℕ_discrete i f) [
      | yes b ↦ foreign (moved i) (
          inl (λ q.
            n_main (ap (λ (x : Node). main fp strhash t x.key) (sym (ap moved b ∙ moved_f)) ∙ q)))
      | no b ↦
          let same : (moved i).key ≡ (t.node i).key =
            ap (λ x. (moved x).key) (sym (φ_other i a)) ∙ (entry i b).0 in
          elim (Bool-cases (tvisnil (t.node i).key)) [
            | inl e ↦ foreign (moved i) (inr (inl (ap tvisnil same ∙ e)))
            | inr e ↦
                foreign (moved i)
                  (inl (λ q. other_main i l e (ap (main fp strhash t) (sym same) ∙ q)))
          ]
    ]
  ]

  unfoldable pub node' : ℕ → Node
  node' = put moved n (record (moved n) { key = key })

  at_n : node' n ≡ record (t.node n) { next = none; val = nil; key = key }
  unfolding node'
  at_n =
      put_self moved n (record (moved n) { key = key })
      ∙ ap (λ (x : Node). record x { key = key }) moved_place

  at_other : (i : ℕ) → i ≢ n → node' i ≡ moved i
  unfolding node'
  at_other i e = put_other moved n i (record (moved n) { key = key }) e

  next_same : (i : ℕ) → (node' i).next ≡ (moved i).next
  next_same i = elim (ℕ_discrete i n) [
    | yes e ↦
        ap (λ x. (node' x).next) e
        ∙ ap (λ (x : Node). x.next) at_n
        ∙ sym (ap (λ (x : Node). x.next) moved_place)
        ∙ sym (ap (λ x. (moved x).next) e)
    | no e ↦ ap (λ (x : Node). x.next) (at_other i e)
  ]

  edge' :
      (i j : ℕ)
      → (node' i).next ≡ some j
      → ((i ≡ p) × (j ≡ f))
        ⊎ (((i ≡ f) × ((t.node n).next ≡ some j) × (j ≢ n))
            ⊎ ((i ≢ n) × (i ≢ f) × (i ≢ p) × ((t.node i).next ≡ some j) × (j ≢ n)))
  edge' i j e = edge i j (sym (next_same i) ∙ e)

  key_of_n : (node' n).key ≡ key
  key_of_n = ap (λ (x : Node). x.key) at_n

  slot_has_key : tvisnil (node' n).key ≡ false
  slot_has_key = ap tvisnil key_of_n ∙ key_no_nil fp strhash key g

  entry' :
      (i : ℕ) → i ≢ f → ((node' (φ i)).key ≡ (t.node i).key) × ((node' (φ i)).val ≡ (t.node i).val)
  entry' i b =
      let q = at_other (φ i) (φ-n i) in
      (ap (λ (x : Node). x.key) q ∙ (entry i b).0, ap (λ (x : Node). x.val) q ∙ (entry i b).1)

  used_no_f : (i : ℕ) → tvisnil (t.node i).key ≡ false → i ≢ f
  used_no_f i e q = differ (sym f_free ∙ ap (λ x. tvisnil (t.node x).key) (sym q) ∙ e)

  key_stays : (i j : ℕ) → tvisnil (t.node i).key ≡ false → φ i ≡ j → tvisnil (node' j).key ≡ false
  key_stays i j l e =
      ap (λ x. tvisnil (node' x).key) (sym e) ∙ ap tvisnil (entry' i (used_no_f i l)).0 ∙ l

  from_key : (i j : ℕ) → (node' i).next ≡ some j → tvisnil (node' i).key ≡ false
  from_key i j e = elim (edge' i j e) [
    | inl (a, b) ↦ key_stays p i (h.from_key p n p_next) (φ_other p p-n ∙ sym a)
    | inr (inl (a, b, c)) ↦ key_stays n i n_key (φ_n ∙ sym a)
    | inr (inr (a, b, c, d, w)) ↦ key_stays i i (h.from_key i j d) (φ_other i a)
  ]

  to_key : (i j : ℕ) → (node' i).next ≡ some j → tvisnil (node' j).key ≡ false
  to_key i j e = elim (edge' i j e) [
    | inl (a, b) ↦ key_stays n j n_key (φ_n ∙ sym b)
    | inr (inl (a, b, c)) ↦ key_stays j j (h.to_key n j b) (φ_other j c)
    | inr (inr (a, b, c, d, w)) ↦ key_stays j j (h.to_key i j d) (φ_other j w)
  ]

  apart : (i j k : ℕ) → (node' i).next ≡ some k → (node' j).next ≡ some k → i ≡ j
  apart i j k e e' = elim (edge' i k e) [
    | inl (a, b) ↦ elim (edge' j k e') [
      | inl (c, d) ↦ a ∙ sym c
      | inr (inl (c, d, w)) ↦ absurd (target_no_f n k d b)
      | inr (inr (c, d, x, y, w)) ↦ absurd (target_no_f j k y b)
    ]
    | inr (inl (a, b, u)) ↦ elim (edge' j k e') [
      | inl (c, d) ↦ absurd (target_no_f n k b d)
      | inr (inl (c, d, w)) ↦ a ∙ sym c
      | inr (inr (c, d, x, y, w)) ↦ absurd (c (sym (h.apart n j k b y)))
    ]
    | inr (inr (a, b, u, z, v)) ↦ elim (edge' j k e') [
      | inl (c, d) ↦ absurd (target_no_f i k z d)
      | inr (inl (c, d, w)) ↦ absurd (a (h.apart i n k z d))
      | inr (inr (c, d, x, y, w)) ↦ h.apart i j k z y
    ]
  ]

  φ-inside : (i : ℕ) → i ≤ t.hmask → φ i ≤ t.hmask
  φ-inside i l = elim (ℕ_discrete i n) [
    | yes e ↦ subst (λ x. x ≤ t.hmask) (sym (ap φ e ∙ φ_n)) f_inside
    | no e ↦ subst (λ x. x ≤ t.hmask) (sym (φ_other i e)) l
  ]

  comes :
      (j : ℕ)
      → j ≤ t.hmask
      → j ≢ n
      → tvisnil (node' j).key ≡ false
      → (i : ℕ) × (i ≤ t.hmask) × (tvisnil (t.node i).key ≡ false) × (φ i ≡ j)
  comes j l o e = elim (ℕ_discrete j f) [
    | yes a ↦ (n, main-inside fp strhash t key, n_key, φ_n ∙ sym a)
    | no a ↦ (
      j,
      l,
      ap tvisnil (sym (entry' j a).0) ∙ ap (λ x. tvisnil (node' x).key) (φ_other j o) ∙ e,
      φ_other j o,
    )
  ]

  unset : (i : ℕ) → i ≤ t.hmask → tvisnil (node' i).key ≡ true → tvisnil (node' i).val ≡ true
  unset i l e = elim (ℕ_discrete i n) [
    | yes a ↦ absurd (differ (sym e ∙ ap (λ x. tvisnil (node' x).key) a ∙ slot_has_key))
    | no a ↦ elim (ℕ_discrete i f) [
      | yes b ↦ absurd (differ (sym e ∙ key_stays n i n_key (φ_n ∙ sym b)))
      | no b ↦
          let q = φ_other i a in
          ap (λ x. tvisnil (node' x).val) (sym q)
          ∙ ap tvisnil (entry' i b).1
          ∙ h.unset i l (ap tvisnil (sym (entry' i b).0) ∙ ap (λ x. tvisnil (node' x).key) q ∙ e)
    ]
  ]

  path : (i k : ℕ) → (t.node i).next ≡ some k → Reaches (λ i. (node' i).next) (φ i) (φ k)
  path i k e = elim (ℕ_discrete i n) [
    | yes a ↦
        let link : (t.node n).next ≡ some k = sym (ap (λ x. (t.node x).next) a) ∙ e in
        step k
          (ap (λ x. (node' (φ x)).next) a
            ∙ ap (λ x. (node' x).next) φ_n
            ∙ next_same f
            ∙ ap (λ (x : Node). x.next) moved_f
            ∙ link)
          (here (sym (φ_other k (no_loop k link))))
    | no a ↦ elim (ℕ_discrete i p) [
      | yes c ↦
          let k_n : some k ≡ some n = sym e ∙ ap (λ x. (t.node x).next) c ∙ p_next in
          let same : k ≡ n = cc k_n in
          step f
            (ap (λ x. (node' x).next) (φ_other i a)
              ∙ ap (λ x. (node' x).next) c
              ∙ next_same p
              ∙ ap (λ (x : Node). x.next) moved_p)
            (here (sym (ap φ same ∙ φ_n)))
      | no c ↦
          let k_other : k ≢ n = λ q. c (h.apart i p n (e ∙ ap some q) p_next) in
          let i_other : i ≢ f = λ q. no_next k (sym (ap (λ x. (t.node x).next) q) ∙ e) in
          step k
            (ap (λ x. (node' x).next) (φ_other i a)
              ∙ next_same i
              ∙ ap (λ (x : Node). x.next) (moved_other i a i_other c)
              ∙ e)
            (here (sym (φ_other k k_other)))
    ]
  ]

  pub move-IsInserted :
      f < t.freetop → IsInserted fp strhash t key (record t { node = node'; freetop = f }) n
  move-IsInserted f_top = Renames-IsInserted fp strhash t key node' f n φ h g absent (record {
    rank = rank';
    top = omega (arith, h.top);
    no_part = λ z. absurd (omega (arith, h.no_part z));
    slot_inside = main-inside fp strhash t key;
    slot_key = key_of_n;
    slot_nil = ap (λ (x : Node). tvisnil x.val) at_n;
    inside = λ i j e. moved_inside i j (sym (next_same i) ∙ e);
    from_key = from_key;
    to_key = to_key;
    falls = λ i j e. moved_falls i j (sym (next_same i) ∙ e);
    apart = apart;
    moves = λ i l e q. let (a, b) = entry' i (used_no_f i e) in (φ-inside i l, a, b);
    comes = comes;
    lives = λ i l e. φ-n i;
    unset = unset;
    paths = Reaches-map (next_of t) (λ i. (node' i).next) φ path;
    starts = λ i l e q. φ_other (main fp strhash t (t.node i).key) (other_main i l e);
    slot_path = here refl;
    owner = λ k w. elim w [
      | inl e ↦
          let m : main fp strhash t k ≡ n = ap (main fp strhash t) e in
          (
            ap (λ x. tvisnil (node' x).key) m ∙ slot_has_key,
            ap (λ x. main fp strhash t (node' x).key) m ∙ ap (main fp strhash t) key_of_n ∙ sym m,
          )
      | inr (a, b, c) ↦ (
        key_stays (main fp strhash t k) (main fp strhash t k) a c,
        ap (λ x. main fp strhash t (node' x).key) (sym c)
            ∙ ap (main fp strhash t) (entry' (main fp strhash t k) (used_no_f _ a)).0
            ∙ b,
      )
    ];
  })

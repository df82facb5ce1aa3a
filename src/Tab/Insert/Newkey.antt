-- ===== src/Tab/Insert/Newkey.antt =====
-- `lj_tab_newkey` on a table in order and a key that it does not have.
use qyz_client_lua.Base.{
  ℕ, zero, suc, ◌<◌, ◌≤◌, ◌≡◌, ◌≢◌, refl, sym, ap, ◌∙◌, inl, inr, true, false, Option, none, some,
  ◌==◌, ==_refl, arith, ℕ_discrete, Bool-cases, Option-cases, put,
}
use qyz_client_lua.Dump.Proto.{Doubles}
use qyz_client_lua.Tab.{
  TValue, nil, bool, num, str, gcref, Node, GcTab, tvisnil, tvismzero, Walk, found, ended,
  no_rounds, walk, free_loop, Setting, slot, rehash, nan_index, nil_index, fault, in_array, in_hash,
  write_key, move_node, link_free, rechained, precedes, belongs, rechain, collision, lj_tab_newkey,
}
use qyz_client_lua.Tab.Chain.{Reaches, here, step, Answers, walk-Answers}
use qyz_client_lua.Tab.Valid.{IsKey, main, next_of, IsTab, main-inside}
use qyz_client_lua.Tab.Insert.{IsInserted}
use qyz_client_lua.Tab.Insert.Overwrite.{overwrite-IsInserted}
use qyz_client_lua.Tab.Insert.Link as Link
use qyz_client_lua.Tab.Insert.Move as Move

-- The search for a free node.
free_loop-none :
    (node : ℕ → Node) (k : ℕ)
    → free_loop node k ≡ none
    → (i : ℕ) → i < k
    → tvisnil (node i).key ≡ false
unfolding free_loop
free_loop-none node zero e i l = absurd (omega arith)
free_loop-none node (suc k) e i l = elim (Bool-cases (tvisnil (node k).key)) [
  | inl free ↦ cc (rw free at e)
  | inr used ↦ elim (ℕ_discrete i k) [
    | yes same ↦ ap (λ x. tvisnil (node x).key) same ∙ used
    | no other ↦ free_loop-none node k (rw used at e) i (omega arith)
  ]
]

free_loop-some :
    (node : ℕ → Node) (k f : ℕ)
    → free_loop node k ≡ some f
    → (f < k) × (tvisnil (node f).key ≡ true)
unfolding free_loop
free_loop-some node zero f e = cc e
free_loop-some node (suc k) f e = elim (Bool-cases (tvisnil (node k).key)) [
  | inl free ↦
      let q : k ≡ f = cc (rw free at e) in
      (omega arith, ap (λ x. tvisnil (node x).key) (sym q) ∙ free)
  | inr used ↦ let (l, q) = free_loop-some node k f (rw used at e) in (omega arith, q)
]

-- Before the end of a path there is a last link.
last_link :
    (next : ℕ → Option ℕ) (i j : ℕ)
    → Reaches next i j
    → i ≢ j
    → (p : ℕ) × Reaches next i p × (next p ≡ some j)
last_link next i j (here e) n = absurd (n e)
last_link next i j (step k e r) n = elim (ℕ_discrete k j) [
  | yes same ↦ (i, here refl, e ∙ ap some same)
  | no other ↦ let (p, q, l) = last_link next k j r other in (p, step k e q, l)
]

precedes_iff : (n : ℕ) (x : Node) → (precedes n x ≡ true) → x.next ≡ some n
precedes_iff n x h = go x.next h
  where
    go : (o : Option ℕ) → (elim o [ none ↦ false | some k ↦ k == n ]) ≡ true → o ≡ some n
    go none e = cc e
    go (some k) e = let q : k ≡ n = ground arith in ap some q

precedes_of : (n : ℕ) (x : Node) → x.next ≡ some n → precedes n x ≡ true
precedes_of n x e = rw e (==_refl n)

module _ (fp : Doubles) (strhash : ℕ → ℕ) where
  -- Where no node behind `c` belongs to the chain at `n`, the loop changes nothing.
  rechain_idle :
      (rounds hmask n : ℕ) (node : ℕ → Node) (c : ℕ)
      → walk rounds node (belongs fp strhash hmask n) c ≡ ended
      → rechain fp strhash rounds hmask n node c ≡ some node
  unfolding rechain walk
  rechain_idle zero hmask n node c e = cc e
  rechain_idle (suc rounds) hmask n node c e =
      elim (Bool-cases (belongs fp strhash hmask n (node c))) [
        | inl mine ↦ cc (rw mine at e)
        | inr other ↦ elim (Option-cases ((node c).next)) [
          | inl stop ↦ rw stop refl
          | inr (k, q) ↦
              let w : walk rounds node (belongs fp strhash hmask n) k ≡ ended =
                rw (other, q) at e in
              elim (Bool-cases (belongs fp strhash hmask n (node k))) [
                | inl mine ↦ absurd (starts_foreign rounds k mine w)
                | inr foreign ↦ rw (q, foreign) (rechain_idle rounds hmask n node k w)
              ]
        ]
      ]
    where
      starts_foreign :
          (rounds k : ℕ)
          → belongs fp strhash hmask n (node k) ≡ true
          → walk rounds node (belongs fp strhash hmask n) k ≡ ended
          → ⊥
      starts_foreign zero k e w = cc w
      starts_foreign (suc rounds) k e w = cc (rw e at w)

  -- What `lj_tab_newkey` gives: the table with the key, or the call of the rehash, where no node that
  -- it may still take is free.
  abbrev pub Outcome : GcTab → TValue → Setting → Type 0
  Outcome t key (slot (in_hash s) t') = IsInserted fp strhash t key t' s
  Outcome t key (slot (in_array i) t') = ⊥
  Outcome t key rehash = (i : ℕ) → i < t.freetop → tvisnil (t.node i).key ≡ false
  Outcome t key nan_index = ⊥
  Outcome t key nil_index = ⊥
  Outcome t key fault = ⊥

  no_mzero : (key : TValue) → IsKey fp strhash key → tvismzero key ≡ false
  no_mzero nil g = refl
  no_mzero (bool b) g = refl
  no_mzero (num x) g = g.1
  no_mzero (str a) g = refl
  no_mzero (gcref t r) g = refl

  write_key_lem :
      (t : GcTab) (n : ℕ) (key : TValue)
      → IsKey fp strhash key
      → write_key t n key
        ≡ slot (in_hash n) (record t { node = put t.node n (record (t.node n) { key = key }) })
  unfolding write_key
  write_key_lem t n key g = rw (no_mzero key g) refl

  module _ (t : GcTab) (key : TValue) (h : IsTab fp strhash t) (g : IsKey fp strhash key)
      (absent : (j : ℕ) → j ≤ t.hmask → (t.node j).key ≢ key) where
    abbrev n : ℕ
    n = main fp strhash t key

    link_lem :
        (f : ℕ)
        → f < t.freetop
        → f ≤ t.hmask
        → tvisnil (t.node f).key ≡ true
        → tvisnil (t.node n).key ≡ false
        → main fp strhash t (t.node n).key ≡ n
        → Outcome t key (
            write_key
              (record t { freetop = f; node = link_free (record t { freetop = f }) n f })
              f
              key)
    unfolding link_free Link.node'
    link_lem f top l free used same =
        rw
          (write_key_lem (record t { freetop = f; node = link_free (record t { freetop = f }) n f })
            f key g)
          (Link.link-IsInserted fp strhash t key h g absent f l free used same top)

    move_lem :
        (f : ℕ)
        → f < t.freetop
        → f ≤ t.hmask
        → tvisnil (t.node f).key ≡ true
        → tvisnil (t.node n).key ≡ false
        → main fp strhash t (t.node n).key ≢ n
        → (p : ℕ) → (t.node p).next ≡ some n
        → Outcome t key (
            rechained
              (record t { freetop = f })
              n
              key
              (rechain fp strhash
                (suc t.hmask)
                t.hmask
                n
                (move_node (record t { freetop = f }) n f p)
                f))
    unfolding move_node Move.node'
    move_lem f top l free used other p link =
        rw (idle, write_key_lem (record t { freetop = f; node = moved }) n key g)
          (Move.move-IsInserted fp strhash t key h g absent f l free used other p link top)
      where
        moved : ℕ → Node
        moved = move_node t n f p

        answer :
            Answers moved
              (belongs fp strhash t.hmask n)
              f
              (walk (suc t.hmask) moved (belongs fp strhash t.hmask n) f)
        answer =
            walk-Answers moved (suc t.hmask)
              (Move.rank' fp strhash t key h g absent f l free used other p link)
              (λ i j e. omega (
                arith,
                Move.moved_inside fp strhash t key h g absent f l free used other p link i j e,
              ))
              (Move.moved_falls fp strhash t key h g absent f l free used other p link)
              (belongs fp strhash t.hmask n) f (omega arith)

        stays_inside : (i j : ℕ) → i ≤ t.hmask → Reaches (λ x. (moved x).next) i j → j ≤ t.hmask
        stays_inside i j m (here e) = omega arith
        stays_inside i j m (step k e r) =
            stays_inside k j
              (Move.moved_inside fp strhash t key h g absent f l free used other p link i k e) r

        none_found : (w : Walk) → Answers moved (belongs fp strhash t.hmask n) f w → w ≡ ended
        none_found (found j) (r, e) =
            let no =
              Move.moved-foreign fp strhash t key h g absent f l free used other p link j
                (stays_inside f j l r) in
            cc (e, no)
        none_found ended a = refl
        none_found no_rounds a = absurd a

        idle : rechain fp strhash (suc t.hmask) t.hmask n moved f ≡ some moved
        idle = rechain_idle (suc t.hmask) t.hmask n moved f (none_found _ answer)

    -- The walk from the start of the other chain finds the node in front of `n`.
    previous_lem :
        (w : Walk)
        → tvisnil (t.node n).key ≡ false
        → main fp strhash t (t.node n).key ≢ n
        → Answers t.node (precedes n) (main fp strhash t (t.node n).key) w
        → (p : ℕ) × (w ≡ found p) × ((t.node p).next ≡ some n)
    previous_lem (found p) used other (r, e) = (p, refl, precedes_iff n (t.node p) e)
    previous_lem ended used other a =
        let (p, r, e) =
          last_link (next_of t) _ n (h.reached n (main-inside fp strhash t key) used) other in
        let no = a p r in let is = precedes_of n (t.node p) e in cc (no, is)
    previous_lem no_rounds used other a = absurd a

    collision_lem :
        (o : Option ℕ)
        → free_loop t.node t.freetop ≡ o
        → (t.hmask ≢ 0 → tvisnil (t.node n).key ≡ false)
        → Outcome t key (collision fp strhash t n key o)
    collision_lem none e used = free_loop-none t.node t.freetop e
    collision_lem (some f) e used =
        let (top, free) = free_loop-some t.node t.freetop f e in
        let part : t.hmask ≢ 0 = λ z. let q = h.no_part z in omega arith in
        let l : f ≤ t.hmask = omega (arith, h.top) in
        elim (Bool-cases (main fp strhash t (t.node n).key == n)) [
          | inl same ↦ rw same (link_lem f top l free (used part) (ground arith))
          | inr other ↦
              let differs : main fp strhash t (t.node n).key ≢ n = λ q. ground arith in
              let (p, found_p, link) =
                previous_lem
                  (walk (suc t.hmask) t.node (precedes n) (main fp strhash t (t.node n).key))
                  (used part) differs
                  (walk-Answers t.node (suc t.hmask) h.rank (λ i j e. omega (arith, h.inside i j e))
                    h.falls (precedes n) (main fp strhash t (t.node n).key)
                    (omega (arith, main-inside fp strhash t (t.node n).key))) in
              rw (other, found_p) (move_lem f top l free (used part) differs p link)
        ]

    -- On a table in order, a key that it does not have gets a node with no value in it, and all other
    -- entries stay; or the table is rehashed, where no node below the top of the free ones is free.
    pub lj_tab_newkey-Outcome : Outcome t key (lj_tab_newkey fp strhash t key)
    unfolding lj_tab_newkey
    lj_tab_newkey-Outcome = elim (Bool-cases (tvisnil (t.node n).val)) [
      | inl empty ↦ elim (Bool-cases (t.hmask == 0)) [
        | inl none_there ↦
            rw (empty, none_there)
              (collision_lem (free_loop t.node t.freetop) refl
                (λ z. let q : t.hmask ≡ 0 = ground arith in absurd (z q)))
        | inr part ↦
            rw (empty, part, write_key_lem t n key g)
              (overwrite-IsInserted fp strhash t key h g absent empty)
      ]
      | inr full ↦ rw full (
          collision_lem (free_loop t.node t.freetop) refl (λ z.
            elim (Bool-cases (tvisnil (t.node n).key)) [
              | inl unused ↦ let e = h.unset n (main-inside fp strhash t key) unused in cc (e, full)
              | inr used ↦ used
            ]))
    ]

-- ===== src/Tab/Insert/Rechain.antt =====
-- The loop that rechains strings, on any two chains.
use qyz_client_lua.Base.{
  ℕ, zero, suc, ◌<◌, ◌≡◌, ◌≢◌, refl, sym, ap, ◌∙◌, inl, inr, Bool, List, [], ◌∷◌, Option, none,
  some, if◌then◌else◌, All, length, arith, Bool-cases, ℕ_discrete, put, put_self, put_other,
}
use qyz_client_lua.Dump.Proto.{Doubles}
use qyz_client_lua.Tab.{Node, rechain_one, belongs, rechain}

-- The nodes behind `c`, in the order of the chain.
abbrev pub Links : (ℕ → Node) → ℕ → List ℕ → Type 0
Links node c [] = (node c).next ≡ none
Links node c (k ∷ ks) = ((node c).next ≡ some k) × Links node k ks

abbrev pub Apart : ℕ → List ℕ → Type 0
Apart a ks = All (λ k. k ≢ a) ks

abbrev pub Distinct : List ℕ → Type 0
Distinct [] = Unit {0}
Distinct (k ∷ ks) = Apart k ks × Distinct ks

-- The two chains have no node in common, and no node twice.
abbrev pub IsSeparate : ℕ → ℕ → List ℕ → List ℕ → Type 0
IsSeparate c n ks ms =
    (c ≢ n)
    × Apart c ks
    × Apart n ks
    × Apart c ms
    × Apart n ms
    × Distinct ks
    × All (λ k. Apart k ms) ks

-- The nodes that stay, and those that go to the front of the other chain, one after the other.
abbrev pub staying : (ℕ → Bool) → List ℕ → List ℕ
staying mine [] = []
staying mine (k ∷ ks) = if mine k then staying mine ks else k ∷ staying mine ks

abbrev pub gathered : (ℕ → Bool) → List ℕ → List ℕ → List ℕ
gathered mine [] ms = ms
gathered mine (k ∷ ks) ms = if mine k then gathered mine ks (k ∷ ms) else gathered mine ks ms

All-zip :
    {P Q R : ℕ → Type 0} (ks : List ℕ)
    → ((k : ℕ) → P k → Q k → R k)
    → All P ks
    → All Q ks
    → All R ks
All-zip [] f p q = tt
All-zip (k ∷ ks) f p q = (f k p.0 q.0, All-zip ks f p.1 q.1)

-- Links of unchanged nodes, from a node with the same successor.
Links-frame :
    (node node' : ℕ → Node) (a b : ℕ) (ks : List ℕ)
    → (node' b).next ≡ (node a).next
    → All (λ k. (node' k).next ≡ (node k).next) ks
    → Links node a ks
    → Links node' b ks
Links-frame node node' a b [] e same h = e ∙ h
Links-frame node node' a b (k ∷ ks) e same (h, rest) =
    (e ∙ h, Links-frame node node' k k ks same.0 same.1 rest)

-- Keys and values are as they were.
abbrev pub SameEntries : (ℕ → Node) → (ℕ → Node) → Type 0
SameEntries node node' = (i : ℕ) → ((node' i).key ≡ (node i).key) × ((node' i).val ≡ (node i).val)

set_next-SameEntries :
    (node : ℕ → Node) (j : ℕ) (o : Option ℕ)
    → SameEntries node (put node j (record (node j) { next = o }))
set_next-SameEntries node j o i = elim (ℕ_discrete i j) [
  | yes e ↦
      let here = ap (put node j (record (node j) { next = o })) e ∙ put_self node j _ in
      (
        ap (λ (x : Node). x.key) here ∙ ap (λ x. (node x).key) (sym e),
        ap (λ (x : Node). x.val) here ∙ ap (λ x. (node x).val) (sym e),
      )
  | no e ↦
      let there = put_other node j i (record (node j) { next = o }) e in
      (ap (λ (x : Node). x.key) there, ap (λ (x : Node). x.val) there)
]

SameEntries-trans : (a b c : ℕ → Node) → SameEntries a b → SameEntries b c → SameEntries a c
SameEntries-trans a b c f g i = ((g i).0 ∙ (f i).0, (g i).1 ∙ (f i).1)

-- One node moves from behind `c` to behind `n`.
module _ (node : ℕ → Node) (n c k : ℕ) (cn : c ≢ n) (kc : k ≢ c) (kn : k ≢ n) where
  abbrev node1 : ℕ → Node
  node1 = put node c (record (node c) { next = (node k).next })

  abbrev node2 : ℕ → Node
  node2 = put node1 k (record (node1 k) { next = (node1 n).next })

  abbrev node3 : ℕ → Node
  node3 = put node2 n (record (node2 n) { next = some k })

  moved_all : rechain_one node n c k ≡ node3
  unfolding rechain_one
  moved_all = refl

  moved-SameEntries : SameEntries node node3
  moved-SameEntries =
      SameEntries-trans node node2 node3
        (SameEntries-trans node node1 node2 (set_next-SameEntries node c (node k).next)
          (set_next-SameEntries node1 k (node1 n).next))
        (set_next-SameEntries node2 n (some k))

  moved_start : (node3 c).next ≡ (node k).next
  moved_start =
      ap (λ (x : Node). x.next)
        (put_other node2 n c _ cn ∙ put_other node1 k c _ (λ e. kc (sym e)) ∙ put_self node c _)

  moved_node : (node3 k).next ≡ (node n).next
  moved_node =
      ap (λ (x : Node). x.next) (put_other node2 n k _ kn ∙ put_self node1 k _)
      ∙ ap (λ (x : Node). x.next) (put_other node c n _ (λ e. cn (sym e)))

  moved_front : (node3 n).next ≡ some k
  moved_front = ap (λ (x : Node). x.next) (put_self node2 n _)

  moved_other : (i : ℕ) → i ≢ c → i ≢ k → i ≢ n → node3 i ≡ node i
  moved_other i ic ik i_n =
      put_other node2 n i _ i_n ∙ put_other node1 k i _ ik ∙ put_other node c i _ ic

-- What the loop leaves.
pub record IsRechained (mine : ℕ → Bool) (node node' : ℕ → Node) (c n : ℕ) (ks ms : List ℕ)
    : Type 0 where
  pub stay : Links node' c (staying mine ks)
  pub go : Links node' n (gathered mine ks ms)
  pub same : SameEntries node node'
  pub others : (i : ℕ) → i ≢ c → i ≢ n → Apart i ks → node' i ≡ node i

module _ (fp : Doubles) (strhash : ℕ → ℕ) where
  belongs-same :
      (hmask n : ℕ) (x y : Node)
      → y.key ≡ x.key
      → y.val ≡ x.val
      → belongs fp strhash hmask n y ≡ belongs fp strhash hmask n x
  unfolding belongs
  belongs-same hmask n x y e f = rw (e, f) refl

  IsSeparate-moved :
      (c n k : ℕ) (ks ms : List ℕ) → IsSeparate c n (k ∷ ks) ms → IsSeparate c n ks (k ∷ ms)
  IsSeparate-moved c n k ks ms (cn, (kc, ck), (kn, nk), cm, nm, (kk, d), (km, all)) = (
    cn,
    ck,
    nk,
    (kc, cm),
    (kn, nm),
    d,
    All-zip {P = λ j. j ≢ k} {Q = λ j. Apart j ms} {R = λ j. Apart j (k ∷ ms)} ks
        (λ j e a. (λ q. e (sym q), a)) kk all,
  )

  IsSeparate-kept : (c n k : ℕ) (ks ms : List ℕ) → IsSeparate c n (k ∷ ks) ms → IsSeparate k n ks ms
  IsSeparate-kept c n k ks ms (cn, (kc, ck), (kn, nk), cm, nm, (kk, d), (km, all)) =
      (kn, kk, nk, km, nm, d, all)

  -- The loop moves the nodes of the chain behind `c` that belong to the chain of `n`, one after the
  -- other, to the front of the nodes behind `n`, and leaves the others behind `c` in their order, with
  -- all keys and values as they were; it ends within one round more than there are nodes behind `c`.
  pub rechain-IsRechained :
      (rounds hmask n : ℕ) (node : ℕ → Node) (c : ℕ) (ks ms : List ℕ)
      → Links node c ks
      → Links node n ms
      → IsSeparate c n ks ms
      → length ks < rounds
      → (node' : ℕ → Node) × (rechain fp strhash rounds hmask n node c ≡ some node')
        × IsRechained (λ i. belongs fp strhash hmask n (node i)) node node' c n ks ms
  unfolding rechain
  rechain-IsRechained rounds hmask n node c ks ms h g s l =
      loop (λ i. belongs fp strhash hmask n (node i)) hmask n ks rounds node c ms (λ i. refl) h g s
        l
    where
      same_chain :
          (node node' : ℕ → Node) (ks : List ℕ)
          → All (λ k. node' k ≡ node k) ks
          → All (λ k. (node' k).next ≡ (node k).next) ks
      same_chain node node' [] h = tt
      same_chain node node' (k ∷ ks) h =
          (ap (λ (x : Node). x.next) h.0, same_chain node node' ks h.1)

      untouched :
          (node node' : ℕ → Node) (c n k : ℕ) (ks : List ℕ)
          → ((i : ℕ) → i ≢ c → i ≢ k → i ≢ n → node' i ≡ node i)
          → Apart c ks
          → Apart k ks
          → Apart n ks
          → All (λ k. (node' k).next ≡ (node k).next) ks
      untouched node node' c n k [] f a b d = tt
      untouched node node' c n k (j ∷ ks) f a b d =
          (ap (λ (x : Node). x.next) (f j a.0 b.0 d.0), untouched node node' c n k ks f a.1 b.1 d.1)

      loop :
          (mine : ℕ → Bool) (hmask n : ℕ) (ks : List ℕ) (rounds : ℕ) (node : ℕ → Node) (c : ℕ)
          (ms : List ℕ)
          → ((i : ℕ) → belongs fp strhash hmask n (node i) ≡ mine i)
          → Links node c ks
          → Links node n ms
          → IsSeparate c n ks ms
          → length ks < rounds
          → (node' : ℕ → Node) × (rechain fp strhash rounds hmask n node c ≡ some node')
            × IsRechained mine node node' c n ks ms
      loop mine hmask n ks zero node c ms b h g s l = absurd (omega arith)
      loop mine hmask n [] (suc rounds) node c ms b h g s l = (
        node,
        rw h refl,
        record { stay = h; go = g; same = λ i. (refl, refl); others = λ i ic i_n a. refl },
      )
      loop mine hmask n (k ∷ ks) (suc rounds) node c ms b (h, rest) g s l =
          let (cn, (kc, ck), (kn, nk), cm, nm, (kk, d), (km, all)) = s in
          elim (Bool-cases (mine k)) [
            | inl is_mine ↦
                let moved = node3 node n c k cn kc kn in
                let other = moved_other node n c k cn kc kn in
                let entries = moved-SameEntries node n c k cn kc kn in
                let (node', run, r) =
                  loop mine hmask n ks rounds moved c (k ∷ ms)
                    (λ i. belongs-same hmask n (node i) (moved i) (entries i).0 (entries i).1 ∙ b i)
                    (Links-frame node moved k c ks (moved_start node n c k cn kc kn)
                      (untouched node moved c n k ks other ck kk nk) rest)
                    (
                      moved_front node n c k cn kc kn,
                      Links-frame node moved n k ms (moved_node node n c k cn kc kn)
                          (untouched node moved c n k ms other cm km nm) g,
                    )
                    (IsSeparate-moved c n k ks ms s) (omega arith) in
                (
                  node',
                  rw (h, b k, is_mine, moved_all node n c k cn kc kn) run,
                  record {
                    stay = rw is_mine r.stay;
                    go = rw is_mine r.go;
                    same = SameEntries-trans node moved node' entries r.same;
                    others =
                        λ i ic i_n (ik, a). r.others i ic i_n a ∙ other i ic (λ e. ik (sym e)) i_n;
                  },
                )
            | inr not_mine ↦
                let (node', run, r) =
                  loop mine hmask n ks rounds node k ms b rest g (IsSeparate-kept c n k ks ms s)
                    (omega arith) in
                let first : node' c ≡ node c = r.others c (λ e. kc (sym e)) cn ck in
                (
                  node',
                  rw (h, b k, not_mine) run,
                  record {
                    stay = rw not_mine (ap (λ (x : Node). x.next) first ∙ h, r.stay);
                    go = rw not_mine r.go;
                    same = r.same;
                    others = λ i ic i_n (ik, a). r.others i (λ e. ik (sym e)) i_n a;
                  },
                )
          ]

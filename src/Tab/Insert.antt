-- ===== src/Tab/Insert.antt =====
-- What the insertion of a key leaves, and insertions as renamings of nodes.
pub mod Overwrite
pub mod Link
pub mod Move
pub mod Newkey
pub mod Rechain
use qyz_client_lua.Base.{
  ℕ, suc, ◌<◌, ◌≤◌, ◌≡◌, ◌≢◌, ◌⊎◌, refl, sym, ap, subst, ◌∙◌, inl, inr, Bool, true, false, Option,
  none, some, arith, ℕ_discrete, Bool-cases,
}
use qyz_client_lua.Dump.Proto.{Doubles}
use qyz_client_lua.Tab.{TValue, Node, GcTab, tvisnil}
use qyz_client_lua.Tab.Chain.{Reaches}
use qyz_client_lua.Tab.Valid.{IsKey, main, next_of, IsTab, main-inside, key_no_nil}

-- The hash part has the value for the key.
unfoldable pub Has : GcTab → TValue → TValue → Type 0
Has t key val =
    (i : ℕ) × (i ≤ t.hmask)
    × ((t.node i).key ≡ key)
    × ((t.node i).val ≡ val)
    × (tvisnil key ≡ false)
    × (tvisnil val ≡ false)

module _ (fp : Doubles) (strhash : ℕ → ℕ) where
  -- Nothing but the node `s` is new, where the key stands without a value.
  pub record IsInserted (t : GcTab) (key : TValue) (t' : GcTab) (s : ℕ) : Type 0 where
    pub valid : IsTab fp strhash t'
    pub inside : s ≤ t'.hmask
    pub has_key : (t'.node s).key ≡ key
    pub no_value : tvisnil (t'.node s).val ≡ true
    pub keeps : (k v : TValue) → Has t k v → Has t' k v
    pub adds_none : (k v : TValue) → Has t' k v → Has t k v
    pub same_array : (t'.asize ≡ t.asize) × ((i : ℕ) → t'.array i ≡ t.array i)

  module _ (t : GcTab) (key : TValue) (node' : ℕ → Node) (top' s : ℕ) (φ : ℕ → ℕ) where
    abbrev pub after : GcTab
    after = record t { node = node'; freetop = top' }

    -- Each node with a key is found under its new name, or is the slot, which had no live entry.
    pub record Renames : Type 0 where
      pub rank : ℕ → ℕ
      pub top : top' ≤ suc t.hmask
      pub no_part : t.hmask ≡ 0 → top' ≡ 0
      pub slot_inside : s ≤ t.hmask
      pub slot_key : (node' s).key ≡ key
      pub slot_nil : tvisnil (node' s).val ≡ true
      pub inside : (i j : ℕ) → next_of after i ≡ some j → j ≤ t.hmask
      pub from_key : (i j : ℕ) → next_of after i ≡ some j → tvisnil (node' i).key ≡ false
      pub to_key : (i j : ℕ) → next_of after i ≡ some j → tvisnil (node' j).key ≡ false
      pub falls : (i j : ℕ) → next_of after i ≡ some j → rank j < rank i
      pub apart : (i j k : ℕ) → next_of after i ≡ some k → next_of after j ≡ some k → i ≡ j
      pub moves :
          (i : ℕ)
          → i ≤ t.hmask
          → tvisnil (t.node i).key ≡ false
          → φ i ≢ s
          → (φ i ≤ t.hmask)
            × ((node' (φ i)).key ≡ (t.node i).key)
            × ((node' (φ i)).val ≡ (t.node i).val)
      pub comes :
          (j : ℕ)
          → j ≤ t.hmask
          → j ≢ s
          → tvisnil (node' j).key ≡ false
          → (i : ℕ) × (i ≤ t.hmask) × (tvisnil (t.node i).key ≡ false) × (φ i ≡ j)
      pub lives : (i : ℕ) → i ≤ t.hmask → tvisnil (t.node i).val ≡ false → φ i ≢ s
      pub unset :
          (i : ℕ) → i ≤ t.hmask → tvisnil (node' i).key ≡ true → tvisnil (node' i).val ≡ true
      pub paths : (i j : ℕ) → Reaches (next_of t) i j → Reaches (next_of after) (φ i) (φ j)
      pub starts :
          (i : ℕ)
          → i ≤ t.hmask
          → tvisnil (t.node i).key ≡ false
          → φ i ≢ s
          → φ (main fp strhash t (t.node i).key) ≡ main fp strhash t (t.node i).key
      pub slot_path : Reaches (next_of after) (main fp strhash t key) s
      pub owner :
          (k : TValue)
          → (k ≡ key)
            ⊎ ((tvisnil (t.node (main fp strhash t k)).key ≡ false)
                × (main fp strhash t (t.node (main fp strhash t k)).key ≡ main fp strhash t k)
                × (φ (main fp strhash t k) ≡ main fp strhash t k))
          → (tvisnil (node' (main fp strhash t k)).key ≡ false)
            × (main fp strhash t (node' (main fp strhash t k)).key ≡ main fp strhash t k)

    module _ (h : IsTab fp strhash t) (g : IsKey fp strhash key)
        (absent : (j : ℕ) → j ≤ t.hmask → (t.node j).key ≢ key) (r : Renames) where
      -- A node with a key is the slot, or is an old one under its new name.
      origin :
          (j : ℕ)
          → j ≤ t.hmask
          → tvisnil (node' j).key ≡ false
          → (j ≡ s)
            ⊎ ((i : ℕ) × (i ≤ t.hmask)
                × (tvisnil (t.node i).key ≡ false)
                × (φ i ≡ j)
                × (φ i ≢ s)
                × ((node' j).key ≡ (t.node i).key)
                × ((node' j).val ≡ (t.node i).val))
      origin j l e = elim (ℕ_discrete j s) [
        | yes same ↦ inl same
        | no other ↦
            let (i, m, k, p) = r.comes j l other e in
            let q : φ i ≢ s = λ x. other (sym p ∙ x) in
            let (x, y, z) = r.moves i m k q in
            inr (
              i,
              m,
              k,
              p,
              q,
              ap (λ y. (node' y).key) (sym p) ∙ y,
              ap (λ y. (node' y).val) (sym p) ∙ z,
            )
      ]

      -- A property of the new key and of the old keys, at the nodes where they are.
      of_keys :
          (P : ℕ → TValue → Type 0)
          → P s key
          → ((i : ℕ)
              → i ≤ t.hmask
              → tvisnil (t.node i).key ≡ false
              → φ i ≢ s
              → P (φ i) (t.node i).key)
          → (j : ℕ) → j ≤ t.hmask
          → tvisnil (node' j).key ≡ false
          → P j (node' j).key
      of_keys P new old j l e = elim (origin j l e) [
        | inl same ↦ subst (λ x. P x (node' x).key) (sym same) (subst (P s) (sym r.slot_key) new)
        | inr (i, m, k, p, q, y, z) ↦
            subst (P j) (sym y) (subst (λ x. P x (t.node i).key) p (old i m k q))
      ]

      old_owner :
          (i : ℕ)
          → i ≤ t.hmask
          → tvisnil (t.node i).key ≡ false
          → φ i ≢ s
          → (tvisnil (node' (main fp strhash t (t.node i).key)).key ≡ false)
            × (main fp strhash t (node' (main fp strhash t (t.node i).key)).key
                ≡ main fp strhash t (t.node i).key)
      old_owner i l e q =
          r.owner (t.node i).key (inr (h.started i l e, h.owned i l e, r.starts i l e q))

      abbrev Owned : ℕ → TValue → Type 0
      Owned j k =
          (tvisnil (node' (main fp strhash t k)).key ≡ false)
          × (main fp strhash t (node' (main fp strhash t k)).key ≡ main fp strhash t k)

      owned : (j : ℕ) → j ≤ t.hmask → tvisnil (node' j).key ≡ false → Owned j (node' j).key
      owned = of_keys Owned (r.owner key (inl refl)) old_owner

      single :
          (i j : ℕ)
          → i ≤ t.hmask
          → j ≤ t.hmask
          → tvisnil (node' i).key ≡ false
          → (node' i).key ≡ (node' j).key
          → i ≡ j
      single i j l m e same = elim (origin i l e) [
        | inl x ↦ elim (origin j m (ap tvisnil (sym same) ∙ e)) [
          | inl y ↦ x ∙ sym y
          | inr (k, a, b, c, d, y, z) ↦
              absurd (absent k a (sym y ∙ sym same ∙ ap (λ v. (node' v).key) x ∙ r.slot_key))
        ]
        | inr (k, a, b, c, d, y, z) ↦ elim (origin j m (ap tvisnil (sym same) ∙ e)) [
          | inl x ↦ absurd (absent k a (sym y ∙ same ∙ ap (λ v. (node' v).key) x ∙ r.slot_key))
          | inr (k', a', b', c', d', y', z') ↦
              sym c ∙ ap φ (h.single k k' a a' b (sym y ∙ same ∙ y')) ∙ c'
        ]
      ]

      after-IsTab : IsTab fp strhash after
      after-IsTab = record {
        rank = r.rank;
        top = r.top;
        no_part = r.no_part;
        inside = r.inside;
        from_key = r.from_key;
        to_key = r.to_key;
        falls = r.falls;
        apart = r.apart;
        proper = of_keys (λ j k. IsKey fp strhash k) g (λ i l e q. h.proper i l e);
        unset = r.unset;
        reached =
            of_keys (λ j k. Reaches (next_of after) (main fp strhash t k) j) r.slot_path
              (λ i l e q.
                subst (λ x. Reaches (next_of after) x (φ i)) (r.starts i l e q)
                  (r.paths (main fp strhash t (t.node i).key) i (h.reached i l e)));
        single = single;
        started = λ j l e. (owned j l e).0;
        owned = λ j l e. (owned j l e).1;
      }

      pub Renames-IsInserted : IsInserted t key after s
      unfolding Has
      Renames-IsInserted = record {
        valid = after-IsTab;
        inside = r.slot_inside;
        has_key = r.slot_key;
        no_value = r.slot_nil;
        keeps = λ k v (i, l, a, b, c, d).
            let (x, y, z) = r.moves i l (ap tvisnil a ∙ c) (r.lives i l (ap tvisnil b ∙ d)) in
            (φ i, x, y ∙ a, z ∙ b, c, d);
        adds_none = λ k v (j, l, a, b, c, d). elim (origin j l (ap tvisnil a ∙ c)) [
          | inl same ↦
              let e : tvisnil v ≡ true =
                ap tvisnil (sym b ∙ ap (λ x. (node' x).val) same) ∙ r.slot_nil in
              absurd (differ (sym e ∙ d))
          | inr (i, m, e, p, q, y, z) ↦ (i, m, sym y ∙ a, sym z ∙ b, c, d)
        ];
        same_array = (refl, λ i. refl);
      }
        where
          differ : true ≡ false → ⊥
          differ e = cc e

-- ===== src/Tab/Access/Store.antt =====
-- Writing a value to a node that has a key, and what is then found.
use qyz_client_lua.Base.{
  ℕ, ◌≤◌, ◌≡◌, ◌≢◌, ◌⊎◌, refl, sym, ap, subst, ◌∙◌, inl, inr, true, false, some, ℕ_discrete,
  Bool-cases, put_self, put_other,
}
use qyz_client_lua.Dump.Proto.{Doubles}
use qyz_client_lua.Tab.{
  TValue, nil, bool, num, str, gcref, Node, GcTab, tvisnil, Walk, found, ended, no_rounds, in_hash,
  store, find,
}
use qyz_client_lua.Tab.Chain.{Reaches, here, step, Reaches-map}
use qyz_client_lua.Tab.Valid.{IsIeee, IsKey, main, next_of, IsTab, Finds, find-Finds, key_no_nil}
use qyz_client_lua.Tab.Insert.{Has}
use qyz_client_lua.Tab.Access.{of_walk, value_of}
use qyz_client_lua.Tab.Access.Spots.{hash_value}

differ : true ≡ false → ⊥
differ e = cc e

pub tvisnil-nil : (v : TValue) → tvisnil v ≡ true → v ≡ nil
tvisnil-nil nil e = refl
tvisnil-nil (bool b) e = absurd (differ (sym e))
tvisnil-nil (num x) e = absurd (differ (sym e))
tvisnil-nil (str a) e = absurd (differ (sym e))
tvisnil-nil (gcref g r) e = absurd (differ (sym e))

module _ (t : GcTab) (s : ℕ) (v : TValue) where
  abbrev node' : ℕ → Node
  node' = (store t (in_hash s) v).node

  at_s : node' s ≡ record (t.node s) { val = v }
  at_s = put_self t.node s _

  pub store-key : (i : ℕ) → (node' i).key ≡ (t.node i).key
  store-key i = elim (ℕ_discrete i s) [
    | yes e ↦ subst (λ x. (node' x).key ≡ (t.node x).key) (sym e) (ap (λ (x : Node). x.key) at_s)
    | no e ↦ ap (λ (x : Node). x.key) (put_other t.node s i _ e)
  ]

  store-next : (i : ℕ) → (node' i).next ≡ (t.node i).next
  store-next i = elim (ℕ_discrete i s) [
    | yes e ↦ subst (λ x. (node' x).next ≡ (t.node x).next) (sym e) (ap (λ (x : Node). x.next) at_s)
    | no e ↦ ap (λ (x : Node). x.next) (put_other t.node s i _ e)
  ]

  pub store_self : (node' s).val ≡ v
  store_self = ap (λ (x : Node). x.val) at_s

  pub store_other : (i : ℕ) → i ≢ s → (node' i).val ≡ (t.node i).val
  store_other i e = ap (λ (x : Node). x.val) (put_other t.node s i _ e)

module _ (fp : Doubles) (strhash : ℕ → ℕ) where
  pub store-IsTab :
      (t : GcTab) (s : ℕ) (v : TValue)
      → IsTab fp strhash t
      → tvisnil (t.node s).key ≡ false
      → IsTab fp strhash (store t (in_hash s) v)
  store-IsTab t s v h used =
      let key = store-key t s v in
      let next = store-next t s v in
      let old : (i : ℕ)
          → tvisnil ((store t (in_hash s) v).node i).key ≡ false
          → tvisnil (t.node i).key ≡ false =
        λ i e. ap tvisnil (sym (key i)) ∙ e in
      let new : (i : ℕ)
          → tvisnil (t.node i).key ≡ false
          → tvisnil ((store t (in_hash s) v).node i).key ≡ false =
        λ i e. ap tvisnil (key i) ∙ e in
      let start : (i : ℕ)
          → main fp strhash t ((store t (in_hash s) v).node i).key
            ≡ main fp strhash t (t.node i).key =
        λ i. ap (main fp strhash t) (key i) in
      record {
        rank = h.rank;
        top = h.top;
        no_part = h.no_part;
        inside = λ i j e. h.inside i j (sym (next i) ∙ e);
        from_key = λ i j e. new i (h.from_key i j (sym (next i) ∙ e));
        to_key = λ i j e. new j (h.to_key i j (sym (next i) ∙ e));
        falls = λ i j e. h.falls i j (sym (next i) ∙ e);
        apart = λ i j k e e'. h.apart i j k (sym (next i) ∙ e) (sym (next j) ∙ e');
        proper = λ i l e. subst (IsKey fp strhash) (sym (key i)) (h.proper i l (old i e));
        unset = λ i l e. elim (ℕ_discrete i s) [
          | yes same ↦
              absurd
                (differ (sym e ∙ ap tvisnil (key i) ∙ ap (λ x. tvisnil (t.node x).key) same ∙ used))
          | no other ↦
              ap tvisnil (store_other t s v i other) ∙ h.unset i l (ap tvisnil (sym (key i)) ∙ e)
        ];
        reached = λ i l e.
            subst (λ x. Reaches (next_of (store t (in_hash s) v)) x i) (sym (start i))
              (Reaches-map (next_of t) (next_of (store t (in_hash s) v)) (λ x. x)
                (λ x k q. step k (next x ∙ q) (here refl)) (main fp strhash t (t.node i).key) i
                (h.reached i l (old i e)));
        single = λ i j l m e q. h.single i j l m (old i e) (sym (key i) ∙ q ∙ key j);
        started = λ i l e.
            ap (λ x. tvisnil ((store t (in_hash s) v).node x).key) (start i)
            ∙ new (main fp strhash t (t.node i).key) (h.started i l (old i e));
        owned = λ i l e.
            ap (λ x. main fp strhash t ((store t (in_hash s) v).node x).key) (start i)
            ∙ start (main fp strhash t (t.node i).key)
            ∙ h.owned i l (old i e)
            ∙ sym (start i);
      }

  -- A key that stands in a node is found there.
  pub hash_value_at :
      (t : GcTab) (key : TValue) (j : ℕ)
      → IsIeee fp
      → IsTab fp strhash t
      → IsKey fp strhash key
      → j ≤ t.hmask
      → (t.node j).key ≡ key
      → hash_value fp strhash t key ≡ some (t.node j).val
  hash_value_at t key j ieee h g l e =
      go (find fp strhash t key) (find-Finds fp strhash t key ieee h g)
    where
      go : (w : Walk) → Finds fp strhash t key w → value_of t (of_walk w) ≡ some (t.node j).val
      go (found i) (m, q) =
          let same : i ≡ j =
            h.single i j m l (ap tvisnil q ∙ key_no_nil fp strhash key g) (q ∙ sym e) in
          ap (λ x. some (t.node x).val) same
      go ended a = absurd (a j l e)
      go no_rounds a = absurd a

  -- The search gives the value that the hash part has, or nil.
  pub hash_value-Has :
      (t : GcTab) (key : TValue)
      → IsIeee fp
      → IsTab fp strhash t
      → IsKey fp strhash key
      → (v : TValue) × (hash_value fp strhash t key ≡ some v) × ((v ≡ nil) ⊎ Has t key v)
  unfolding Has
  hash_value-Has t key ieee h g = go (find fp strhash t key) (find-Finds fp strhash t key ieee h g)
    where
      go :
          (w : Walk)
          → Finds fp strhash t key w
          → (v : TValue) × (value_of t (of_walk w) ≡ some v) × ((v ≡ nil) ⊎ Has t key v)
      go (found i) (m, q) = (
        (t.node i).val,
        refl,
        elim (Bool-cases (tvisnil (t.node i).val)) [
          | inl e ↦ inl (tvisnil-nil (t.node i).val e)
          | inr e ↦ inr (i, m, q, refl, key_no_nil fp strhash key g, e)
        ],
      )
      go ended a = (nil, refl, inl refl)
      go no_rounds a = absurd a

  pub Has-hash_value :
      (t : GcTab) (key v : TValue)
      → IsIeee fp
      → IsTab fp strhash t
      → IsKey fp strhash key
      → Has t key v
      → hash_value fp strhash t key ≡ some v
  unfolding Has
  Has-hash_value t key v ieee h g (i, l, e, q, k, n) =
      hash_value_at t key i ieee h g l e ∙ ap some q

  -- Where the other entries of two tables are the same, a value written to the key of the one does
  -- not change what is found for other keys.
  pub store-hash_value :
      (t t' : GcTab) (s : ℕ) (key other v : TValue)
      → IsIeee fp
      → IsTab fp strhash t
      → IsTab fp strhash t'
      → IsKey fp strhash key
      → IsKey fp strhash other
      → (t'.node s).key ≡ key
      → key ≢ other
      → ((w : TValue) → Has t other w → Has t' other w)
      → ((w : TValue) → Has t' other w → Has t other w)
      → hash_value fp strhash (store t' (in_hash s) v) other ≡ hash_value fp strhash t other
  unfolding Has
  store-hash_value t t' s key other v ieee h h' g g' e n keeps adds =
      let u = store t' (in_hash s) v in
      let valid : IsTab fp strhash u =
        store-IsTab t' s v h' (ap tvisnil e ∙ key_no_nil fp strhash key g) in
      let apart : (i : ℕ) → (t'.node i).key ≡ other → i ≢ s =
        λ i q same. n (sym e ∙ ap (λ x. (t'.node x).key) (sym same) ∙ q) in
      let (w, found_w, is) = hash_value-Has t other ieee h g' in
      let (x, found_x, is') = hash_value-Has u other ieee valid g' in
      elim is [
        | inr old ↦
            let (i, l, a, b, c, d) = keeps w old in
            hash_value_at u other i ieee valid g' l (store-key t' s v i ∙ a)
            ∙ ap some (store_other t' s v i (apart i a) ∙ b)
            ∙ sym found_w
        | inl nothing ↦ elim is' [
          | inl nothing' ↦ found_x ∙ ap some (nothing' ∙ sym nothing) ∙ sym found_w
          | inr (i, l, a, b, c, d) ↦
              let a' : (t'.node i).key ≡ other = sym (store-key t' s v i) ∙ a in
              let b' : (t'.node i).val ≡ x = sym (store_other t' s v i (apart i a')) ∙ b in
              found_x ∙ sym (Has-hash_value t other x ieee h g' (adds x (i, l, a', b', c, d)))
        ]
      ]

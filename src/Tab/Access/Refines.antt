-- ===== src/Tab/Access/Refines.antt =====
-- Tables as maps from keys to values.
use qyz_client_lua.Base.{
  ℕ, ◌<◌, ◌≤◌, ◌≡◌, ◌≢◌, refl, sym, ap, subst, ◌∙◌, inl, inr, false, some, if◌then◌else◌,
  Bool-cases, put, put_self, put_other,
}
use qyz_client_lua.Dump.Proto.{Doubles}
use qyz_client_lua.Tab.{
  TValue, GcTab, tvisnil, lj_obj_equal, Walk, found, ended, no_rounds, in_array, in_hash, store,
  Setting, slot, rehash, nan_index, nil_index, fault, find, lj_tab_newkey,
}
use qyz_client_lua.Tab.Valid.{IsIeee, IsKey, IsTab, Finds, find-Finds, key_no_nil}
use qyz_client_lua.Tab.Insert.{Has}
use qyz_client_lua.Tab.Insert.Newkey.{Outcome, lj_tab_newkey-Outcome}
use qyz_client_lua.Tab.Access.{reset_nomm, of_walk, value_of, found_or_new, lj_tab_get, lj_tab_set}
use qyz_client_lua.Tab.Access.Spots.{
  Spot, at_slot, at_key, IsIndex, spot, get_spot, set_spot, IsSpot, spot-IsSpot, get-get_spot,
  set-set_spot,
}
use qyz_client_lua.Tab.Access.Equality.{equal_spots, spots_equal}
use qyz_client_lua.Tab.Access.Store.{
  store-IsTab, hash_value_at, store-key, store_self, store-hash_value,
}

module _ (fp : Doubles) (strhash : ℕ → ℕ) where
  -- What a setter for the spot `a` leaves, when the value is written, for a getter of the spot `b`.
  abbrev Written : GcTab → Spot → TValue → Spot → Setting → Type 0
  Written t a v b (slot p t') =
      IsTab fp strhash (store t' p v)
      × ((store t' p v).asize ≡ t.asize)
      × (a ≡ b → get_spot fp strhash (store t' p v) b ≡ some v)
      × (a ≢ b → get_spot fp strhash (store t' p v) b ≡ get_spot fp strhash t b)
  Written t a v b rehash = (i : ℕ) → i < t.freetop → tvisnil (t.node i).key ≡ false
  Written t a v b nan_index = ⊥
  Written t a v b nil_index = ⊥
  Written t a v b fault = ⊥

  -- What a walk finds in tables with the same nodes is the same.
  value_of-array :
      (t : GcTab) (i : ℕ) (v : TValue) (w : Walk)
      → value_of (store t (in_array i) v) (of_walk w) ≡ value_of t (of_walk w)
  value_of-array t i v (found j) = refl
  value_of-array t i v ended = refl
  value_of-array t i v no_rounds = refl

  value_of-reset :
      (t : GcTab) (w : Walk)
      → value_of (reset_nomm fp strhash t) (of_walk w) ≡ value_of t (of_walk w)
  value_of-reset t (found j) = refl
  value_of-reset t ended = refl
  value_of-reset t no_rounds = refl

  find-array :
      (t : GcTab) (i : ℕ) (v k : TValue)
      → find fp strhash (store t (in_array i) v) k ≡ find fp strhash t k
  unfolding find
  find-array t i v k = refl

  find-reset :
      (t : GcTab) (k : TValue) → find fp strhash (reset_nomm fp strhash t) k ≡ find fp strhash t k
  unfolding find
  find-reset t k = refl

  array-IsTab :
      (t : GcTab) (i : ℕ) (v : TValue)
      → IsTab fp strhash t
      → IsTab fp strhash (store t (in_array i) v)
  array-IsTab t i v h = record {
    rank = h.rank;
    top = h.top;
    no_part = h.no_part;
    inside = h.inside;
    from_key = h.from_key;
    to_key = h.to_key;
    falls = h.falls;
    apart = h.apart;
    proper = h.proper;
    unset = h.unset;
    reached = h.reached;
    single = h.single;
    started = h.started;
    owned = h.owned;
  }

  reset-IsTab : (t : GcTab) → IsTab fp strhash t → IsTab fp strhash (reset_nomm fp strhash t)
  reset-IsTab t h = record {
    rank = h.rank;
    top = h.top;
    no_part = h.no_part;
    inside = h.inside;
    from_key = h.from_key;
    to_key = h.to_key;
    falls = h.falls;
    apart = h.apart;
    proper = h.proper;
    unset = h.unset;
    reached = h.reached;
    single = h.single;
    started = h.started;
    owned = h.owned;
  }

  -- A value in the array part.
  array-Written :
      (t : GcTab) (i : ℕ) (v : TValue) (b : Spot)
      → IsTab fp strhash t
      → Written t (at_slot i) v b (slot (in_array i) t)
  array-Written t i v (at_slot j) h = (
    array-IsTab t i v h,
    refl,
    λ e. let q : i ≡ j = cc e in ap some (ap (put t.array i v) (sym q) ∙ put_self t.array i v),
    λ e. ap some (put_other t.array i j v (λ q. e (ap at_slot (sym q)))),
  )
  array-Written t i v (at_key k) h = (
    array-IsTab t i v h,
    refl,
    λ e. cc e,
    λ e.
        ap (λ w. value_of (store t (in_array i) v) (of_walk w)) (find-array t i v k)
        ∙ value_of-array t i v (find fp strhash t k),
  )

  -- A value in a node that has the key.
  node-Written :
      (t t' : GcTab) (s : ℕ) (key v : TValue) (b : Spot)
      → IsIeee fp
      → IsTab fp strhash t
      → IsTab fp strhash t'
      → IsKey fp strhash key
      → IsSpot fp strhash b
      → s ≤ t'.hmask
      → (t'.node s).key ≡ key
      → ((t'.asize ≡ t.asize) × ((i : ℕ) → t'.array i ≡ t.array i))
      → ((k w : TValue) → Has t k w → Has t' k w)
      → ((k w : TValue) → Has t' k w → Has t k w)
      → Written t (at_key key) v b (slot (in_hash s) t')
  node-Written t t' s key v (at_slot j) ieee h h' g g' l e (size, same) keeps adds = (
    store-IsTab fp strhash t' s v h' (ap tvisnil e ∙ key_no_nil fp strhash key g),
    size,
    λ q. cc q,
    λ q. ap some (same j),
  )
  node-Written t t' s key v (at_key k) ieee h h' g g' l e (size, same) keeps adds =
      let valid = store-IsTab fp strhash t' s v h' (ap tvisnil e ∙ key_no_nil fp strhash key g) in
      (
        valid,
        size,
        λ q.
            let key_k : key ≡ k = cc q in
            hash_value_at fp strhash (store t' (in_hash s) v) k s ieee valid g' l
              (store-key t' s v s ∙ e ∙ key_k)
            ∙ ap some (store_self t' s v),
        λ q.
            store-hash_value fp strhash t t' s key k v ieee h h' g g' e (λ x. q (ap at_key x))
              (keeps k) (adds k),
      )

  newkey-Written :
      (t : GcTab) (key v : TValue) (b : Spot) (r : Setting)
      → IsIeee fp
      → IsTab fp strhash t
      → IsKey fp strhash key
      → IsSpot fp strhash b
      → Outcome fp strhash t key r
      → Written t (at_key key) v b r
  newkey-Written t key v b (slot (in_hash s) t') ieee h g g' o =
      node-Written t t' s key v b ieee h o.valid g g' o.inside o.has_key o.same_array o.keeps
        o.adds_none
  newkey-Written t key v b (slot (in_array s) t') ieee h g g' o = absurd o
  newkey-Written t key v b rehash ieee h g g' o = o
  newkey-Written t key v b nan_index ieee h g g' o = absurd o
  newkey-Written t key v b nil_index ieee h g g' o = absurd o
  newkey-Written t key v b fault ieee h g g' o = absurd o

  key-Written :
      (t : GcTab) (key v : TValue) (b : Spot) (w : Walk)
      → IsIeee fp
      → IsTab fp strhash t
      → IsKey fp strhash key
      → IsSpot fp strhash b
      → Finds fp strhash t key w
      → Written t (at_key key) v b (found_or_new fp strhash t key w)
  key-Written t key v b (found s) ieee h g g' (l, e) =
      node-Written t t s key v b ieee h h g g' l e (refl, λ i. refl) (λ k w x. x) (λ k w x. x)
  key-Written t key v b ended ieee h g g' absent =
      newkey-Written t key v b (lj_tab_newkey fp strhash t key) ieee h g g'
        (lj_tab_newkey-Outcome fp strhash t key h g absent)
  key-Written t key v b no_rounds ieee h g g' a = absurd a

  spot-Written :
      (t : GcTab) (a : Spot) (v : TValue) (b : Spot)
      → IsIeee fp
      → IsTab fp strhash t
      → IsSpot fp strhash a
      → IsSpot fp strhash b
      → Written t a v b (set_spot fp strhash t a)
  spot-Written t (at_slot i) v b ieee h g g' = array-Written t i v b h
  spot-Written t (at_key k) v b ieee h g g' =
      key-Written t k v b (find fp strhash t k) ieee h g g' (find-Finds fp strhash t k ieee h g)

  -- What `lj_tab_set` gives: a place, and with the value written there the table is in order, and gets
  -- of the key give the value, and of other keys what they gave; or the call of the rehash.
  abbrev pub Sets : GcTab → TValue → TValue → TValue → Setting → Type 0
  Sets t key v other (slot p t') =
      IsTab fp strhash (store t' p v)
      × (lj_tab_get fp strhash (store t' p v) other
          ≡ (if lj_obj_equal fp strhash key other then some v else lj_tab_get fp strhash t other))
  Sets t key v other rehash = (i : ℕ) → i < t.freetop → tvisnil (t.node i).key ≡ false
  Sets t key v other nan_index = ⊥
  Sets t key v other nil_index = ⊥
  Sets t key v other fault = ⊥

  Written-Sets :
      (t : GcTab) (key v other : TValue) (r : Setting)
      → IsIeee fp
      → IsIndex fp strhash key
      → IsIndex fp strhash other
      → Written
          (reset_nomm fp strhash t)
          (spot fp strhash t.asize key)
          v
          (spot fp strhash t.asize other)
          r
      → Sets t key v other r
  Written-Sets t key v other (slot p t') ieee g g' (valid, size, same, differs) =
      let u = store t' p v in
      let get : lj_tab_get fp strhash u other
          ≡ get_spot fp strhash u (spot fp strhash t.asize other) =
        get-get_spot fp strhash u other g'
        ∙ ap (λ n. get_spot fp strhash u (spot fp strhash n other)) size in
      elim (Bool-cases (lj_obj_equal fp strhash key other)) [
        | inl equal ↦
            rw equal (valid, get ∙ same (equal_spots fp strhash t.asize key other ieee g g' equal))
        | inr unequal ↦ rw unequal (
          valid,
          get
              ∙ differs (λ e.
                let q = spots_equal fp strhash t.asize key other ieee g g' e in cc (q, unequal))
              ∙ reset_get (spot fp strhash t.asize other)
              ∙ sym (get-get_spot fp strhash t other g'),
        )
      ]
    where
      reset_get :
          (b : Spot) → get_spot fp strhash (reset_nomm fp strhash t) b ≡ get_spot fp strhash t b
      reset_get (at_slot i) = refl
      reset_get (at_key k) =
          ap (λ w. value_of (reset_nomm fp strhash t) (of_walk w)) (find-reset t k)
          ∙ value_of-reset t (find fp strhash t k)
  Written-Sets t key v other rehash ieee g g' w = w
  Written-Sets t key v other nan_index ieee g g' w = absurd w
  Written-Sets t key v other nil_index ieee g g' w = absurd w
  Written-Sets t key v other fault ieee g g' w = absurd w

  -- On a table in order and for keys that are neither nil nor NaN, `lj_tab_set` gives a place for the
  -- value, or calls for the rehash, where no node below the top of the free ones is free. With the
  -- value at its place the table is in order, `lj_tab_get` gives it for every key equal to the one set,
  -- and gives for every other key what it gave before.
  pub lj_tab_set-Sets :
      (t : GcTab) (key v other : TValue)
      → IsIeee fp
      → IsTab fp strhash t
      → IsIndex fp strhash key
      → IsIndex fp strhash other
      → Sets t key v other (lj_tab_set fp strhash t key)
  lj_tab_set-Sets t key v other ieee h g g' =
      subst (Sets t key v other) (sym (set-set_spot fp strhash t key g)) (
        Written-Sets t key v other _ ieee g g' (
          spot-Written (reset_nomm fp strhash t) (spot fp strhash t.asize key) v
            (spot fp strhash t.asize other) ieee (reset-IsTab t h)
            (spot-IsSpot fp strhash t.asize key ieee g)
            (spot-IsSpot fp strhash t.asize other ieee g')))

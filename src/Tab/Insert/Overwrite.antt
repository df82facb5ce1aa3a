-- ===== src/Tab/Insert/Overwrite.antt =====
-- A key goes to the start of its chain, where no value stands.
use qyz_client_lua.Base.{
  ℕ, ◌≤◌, ◌≡◌, ◌≢◌, refl, sym, ap, subst, ◌∙◌, inl, inr, true, false, ℕ_discrete, put, put_self,
  put_other,
}
use qyz_client_lua.Dump.Proto.{Doubles}
use qyz_client_lua.Tab.{TValue, Node, GcTab, tvisnil}
use qyz_client_lua.Tab.Chain.{here, step, Reaches-map}
use qyz_client_lua.Tab.Valid.{IsKey, main, next_of, IsTab, main-inside, key_no_nil}
use qyz_client_lua.Tab.Insert.{IsInserted, Renames-IsInserted}

module _ (fp : Doubles) (strhash : ℕ → ℕ) (t : GcTab) (key : TValue) (h : IsTab fp strhash t)
    (g : IsKey fp strhash key) (absent : (j : ℕ) → j ≤ t.hmask → (t.node j).key ≢ key) where
  abbrev n : ℕ
  n = main fp strhash t key

  abbrev node' : ℕ → Node
  node' = put t.node n (record (t.node n) { key = key })

  at_n : node' n ≡ record (t.node n) { key = key }
  at_n = put_self t.node n _

  at_other : (i : ℕ) → i ≢ n → node' i ≡ t.node i
  at_other i e = put_other t.node n i _ e

  next_same : (i : ℕ) → (node' i).next ≡ (t.node i).next
  next_same i = elim (ℕ_discrete i n) [
    | yes e ↦ subst (λ x. (node' x).next ≡ (t.node x).next) (sym e) (ap (λ (x : Node). x.next) at_n)
    | no e ↦ ap (λ (x : Node). x.next) (at_other i e)
  ]

  key_at_n : tvisnil (node' n).key ≡ false
  key_at_n = ap (λ (x : Node). tvisnil x.key) at_n ∙ key_no_nil fp strhash key g

  key_stays : (i : ℕ) → tvisnil (t.node i).key ≡ false → tvisnil (node' i).key ≡ false
  key_stays i l = elim (ℕ_discrete i n) [
    | yes e ↦ subst (λ x. tvisnil (node' x).key ≡ false) (sym e) key_at_n
    | no e ↦ ap (λ (x : Node). tvisnil x.key) (at_other i e) ∙ l
  ]

  pub overwrite-IsInserted :
      tvisnil (t.node n).val ≡ true → IsInserted fp strhash t key (record t { node = node' }) n
  overwrite-IsInserted free =
      Renames-IsInserted fp strhash t key node' t.freetop n (λ i. i) h g absent
        (record {
          rank = h.rank;
          top = h.top;
          no_part = h.no_part;
          slot_inside = main-inside fp strhash t key;
          slot_key = ap (λ (x : Node). x.key) at_n;
          slot_nil = ap (λ (x : Node). tvisnil x.val) at_n ∙ free;
          inside = λ i j e. h.inside i j (sym (next_same i) ∙ e);
          from_key = λ i j e. key_stays i (h.from_key i j (sym (next_same i) ∙ e));
          to_key = λ i j e. key_stays j (h.to_key i j (sym (next_same i) ∙ e));
          falls = λ i j e. h.falls i j (sym (next_same i) ∙ e);
          apart = λ i j k e e'. h.apart i j k (sym (next_same i) ∙ e) (sym (next_same j) ∙ e');
          moves = λ i l e q.
              (l, ap (λ (x : Node). x.key) (at_other i q), ap (λ (x : Node). x.val) (at_other i q));
          comes =
              λ j l q e. (j, l, sym (ap (λ (x : Node). tvisnil x.key) (at_other j q)) ∙ e, refl);
          lives = λ i l e q. differ (sym free ∙ ap (λ x. tvisnil (t.node x).val) (sym q) ∙ e);
          unset = λ i l e. elim (ℕ_discrete i n) [
            | yes same ↦ absurd (differ (sym e ∙ ap (λ x. tvisnil (node' x).key) same ∙ key_at_n))
            | no other ↦
                ap (λ (x : Node). tvisnil x.val) (at_other i other)
                ∙ h.unset i l (sym (ap (λ (x : Node). tvisnil x.key) (at_other i other)) ∙ e)
          ];
          paths =
              Reaches-map (next_of t) (λ i. (node' i).next) (λ i. i)
                (λ i k e. step k (next_same i ∙ e) (here refl));
          starts = λ i l e q. refl;
          slot_path = here refl;
          owner = λ k w. elim (ℕ_discrete (main fp strhash t k) n) [
            | yes same ↦ (
              ap (λ x. tvisnil (node' x).key) same ∙ key_at_n,
              ap (λ x. main fp strhash t (node' x).key) same
                  ∙ ap (λ (x : Node). main fp strhash t x.key) at_n
                  ∙ sym same,
            )
            | no other ↦ elim w [
              | inl e ↦ absurd (other (ap (main fp strhash t) e))
              | inr (a, b, c) ↦ (
                ap (λ (x : Node). tvisnil x.key) (at_other _ other) ∙ a,
                ap (λ (x : Node). main fp strhash t x.key) (at_other _ other) ∙ b,
              )
            ]
          ];
        })
    where
      differ : true ≡ false → ⊥
      differ e = cc e

-- ===== src/Tab/New/Empty.antt =====
-- What a new table holds.
use native.Mathlib.Nat.{pow-le-pow_right}
use qyz_client_lua.Base.{
  ℕ, zero, suc, ◌+◌, ◌-◌, ◌^◌, ◌<◌, ◌≤◌, ◌≡◌, ◌⊎◌, refl, ap, ◌∙◌, inl, inr, true, false, ◌&&◌,
  Option, none, some, ltb, leb, ◌==◌, if◌then◌else◌, arith, Bool-cases, ℕ_discrete, put, put_self,
  put_other,
}
use qyz_client_lua.Dump.Proto.{Doubles}
use qyz_client_lua.Tab.{TValue, nil, bool, num, str, gcref, Node, GcTab, tvisnil}
use qyz_client_lua.Tab.Valid.{IsIeee, IsTab, next_of}
use qyz_client_lua.Tab.Insert.{Has}
use qyz_client_lua.Tab.Access.{is_int, lj_tab_get}
use qyz_client_lua.Tab.Access.Spots.{
  Spot, at_slot, at_key, IsIndex, IsSpot, spot, int_spot, get_spot, get-get_spot, spot-IsSpot,
}
use qyz_client_lua.Tab.Access.Store.{hash_value-Has}
use qyz_client_lua.Tab.Count.{max_asize}
use qyz_client_lua.Tab.New.{
  max_hbits, max_colosize, nilnode, clear_slots, clearapart, clear_nodes, clearhpart, newhpart,
  array_only, newtab, cleared, lj_tab_new,
}

clear_slots-nil :
    (slots : ℕ) (array : ℕ → TValue) (i j : ℕ)
    → ((i ≤ j) × (j < i + slots)) ⊎ (array j ≡ nil)
    → clear_slots slots array i j ≡ nil
unfolding clear_slots
clear_slots-nil zero array i j (inl (l, m)) = absurd (omega arith)
clear_slots-nil zero array i j (inr e) = e
clear_slots-nil (suc slots) array i j h = clear_slots-nil slots (put array i nil) (i + 1) j (go h)
  where
    go :
        ((i ≤ j) × (j < i + suc slots)) ⊎ (array j ≡ nil)
        → ((i + 1 ≤ j) × (j < i + 1 + slots)) ⊎ (put array i nil j ≡ nil)
    go h = elim (ℕ_discrete j i) [
      | yes e ↦ inr (ap (put array i nil) e ∙ put_self array i nil)
      | no e ↦ elim h [
        | inl (l, m) ↦ inl (omega arith, omega arith)
        | inr q ↦ inr (put_other array i j nil e ∙ q)
      ]
    ]

clear_nodes-nilnode :
    (nodes : ℕ) (node : ℕ → Node) (i j : ℕ)
    → ((i ≤ j) × (j < i + nodes)) ⊎ (node j ≡ nilnode)
    → clear_nodes nodes node i j ≡ nilnode
unfolding clear_nodes
clear_nodes-nilnode zero node i j (inl (l, m)) = absurd (omega arith)
clear_nodes-nilnode zero node i j (inr e) = e
clear_nodes-nilnode (suc nodes) node i j h =
    clear_nodes-nilnode nodes (put node i nilnode) (i + 1) j (go h)
  where
    go :
        ((i ≤ j) × (j < i + suc nodes)) ⊎ (node j ≡ nilnode)
        → ((i + 1 ≤ j) × (j < i + 1 + nodes)) ⊎ (put node i nilnode j ≡ nilnode)
    go h = elim (ℕ_discrete j i) [
      | yes e ↦ inr (ap (put node i nilnode) e ∙ put_self node i nilnode)
      | no e ↦ elim h [
        | inl (l, m) ↦ inl (omega arith, omega arith)
        | inr q ↦ inr (put_other node i j nilnode e ∙ q)
      ]
    ]

-- A table without entries: no keys, and nothing in its array part.
pub record IsBlank (t : GcTab) : Type 0 where
  pub no_node : (i : ℕ) → t.node i ≡ nilnode
  pub no_slot : (i : ℕ) → i < t.asize → t.array i ≡ nil
  pub top : t.freetop ≤ suc t.hmask
  pub no_part : t.hmask ≡ 0 → t.freetop ≡ 0

module _ (fp : Doubles) (strhash : ℕ → ℕ) where
  no_next : {j : ℕ} (t : GcTab) (i : ℕ) → IsBlank t → next_of t i ≡ some j → ⊥
  no_next t i h e =
      let q : (t.node i).next ≡ none = ap (λ (n : Node). n.next) (h.no_node i) in cc (q, e)

  no_key : (t : GcTab) (i : ℕ) → IsBlank t → tvisnil (t.node i).key ≡ false → ⊥
  no_key t i h e =
      let q : tvisnil (t.node i).key ≡ true = ap (λ (n : Node). tvisnil n.key) (h.no_node i) in
      cc (q, e)

  blank-IsTab : (t : GcTab) → IsBlank t → IsTab fp strhash t
  blank-IsTab t h = record {
    rank = λ i. 0;
    top = h.top;
    no_part = h.no_part;
    inside = λ i j e. absurd (no_next t i h e);
    from_key = λ i j e. absurd (no_next t i h e);
    to_key = λ i j e. absurd (no_next t i h e);
    falls = λ i j e. absurd (no_next t i h e);
    apart = λ i j k e f. absurd (no_next t i h e);
    proper = λ i l e. absurd (no_key t i h e);
    unset = λ i l e. ap (λ (n : Node). tvisnil n.val) (h.no_node i);
    reached = λ i l e. absurd (no_key t i h e);
    single = λ i j l m e q. absurd (no_key t i h e);
    started = λ i l e. absurd (no_key t i h e);
    owned = λ i l e. absurd (no_key t i h e);
  }

  blank_get :
      (t : GcTab) (key : TValue)
      → IsIeee fp
      → IsBlank t
      → IsIndex fp strhash key
      → lj_tab_get fp strhash t key ≡ some nil
  unfolding Has
  blank_get t key ieee h g =
      get-get_spot fp strhash t key g
      ∙ at_spot (spot fp strhash t.asize key) (spot-IsSpot fp strhash t.asize key ieee g)
          (slot_inside key)
    where
      Inside : Spot → Type 0
      Inside (at_slot i) = i < t.asize
      Inside (at_key k) = Unit

      int_inside : (k : ℕ) → Inside (int_spot fp strhash t.asize k)
      int_inside k = elim (Bool-cases (ltb k t.asize)) [
        | inl e ↦ let l : k < t.asize = ground arith in rw e l
        | inr e ↦ rw e tt
      ]

      slot_inside : (key : TValue) → Inside (spot fp strhash t.asize key)
      slot_inside nil = tt
      slot_inside (bool b) = tt
      slot_inside (str a) = tt
      slot_inside (gcref u r) = tt
      slot_inside (num x) = elim (Bool-cases (is_int fp strhash x)) [
        | inl e ↦ rw e (int_inside (fp.num2int x))
        | inr e ↦ rw e tt
      ]

      at_spot : (s : Spot) → IsSpot fp strhash s → Inside s → get_spot fp strhash t s ≡ some nil
      at_spot (at_slot i) g l = ap some (h.no_slot i l)
      at_spot (at_key k) g l =
          let (v, e, is) = hash_value-Has fp strhash t k ieee (blank-IsTab t h) g in
          elim is [
            | inl q ↦ e ∙ ap some q
            | inr (i, m, q, w, u, z) ↦ absurd (no_key t i h (ap tvisnil q ∙ u))
          ]

  -- What `lj_tab_new` gives: the error for a size that is too large, or a table of sizes that are not,
  -- in which no key has a value.
  abbrev pub IsNewTab : ℕ → ℕ → TValue → Option GcTab → Type 0
  IsNewTab asize hbits key none = (max_asize < asize) ⊎ (max_hbits < hbits)
  IsNewTab asize hbits key (some t) =
      ((asize ≤ max_asize) × (hbits ≤ max_hbits))
      × IsTab fp strhash t
      × (t.asize ≡ asize)
      × (t.hmask ≡ 2 ^ hbits - 1)
      × (lj_tab_get fp strhash t key ≡ some nil)

  -- A table whose nodes may hold anything, before it is cleared.
  cleared-IsNewTab :
      (t : GcTab) (asize hbits : ℕ) (key : TValue)
      → IsIeee fp
      → IsIndex fp strhash key
      → t.asize ≡ asize
      → t.hmask ≡ 2 ^ hbits - 1
      → ((i : ℕ) → t.hmask < i → t.node i ≡ nilnode)
      → (t.hmask ≡ 0 → (t.node 0 ≡ nilnode) × (t.freetop ≡ 0))
      → t.freetop ≤ suc t.hmask
      → (asize ≤ max_asize) × (hbits ≤ max_hbits)
      → IsNewTab asize hbits key (cleared t.array t.node (some t))
  unfolding clearapart clearhpart
  cleared-IsNewTab t asize hbits key ieee g size mask outside small top fits =
      elim (Bool-cases (ltb 0 t.hmask)) [
        | inl e ↦ rw e (
            of_blank (clearhpart (clearapart t)) size mask (record {
              no_node = λ i.
                  clear_nodes-nilnode (t.hmask + 1) t.node 0 i (elim (Bool-cases (leb i t.hmask)) [
                    | inl x ↦ inl (omega arith, ground arith)
                    | inr x ↦ inr (outside i (ground arith))
                  ]);
              no_slot = λ i l. clear_slots-nil t.asize t.array 0 i (inl (omega arith, omega arith));
              top = top;
              no_part = λ q. (small q).1;
            }))
        | inr e ↦
            let q : t.hmask ≡ 0 = ground arith in
            rw e (
              of_blank (clearapart t) size mask (record {
                no_node = λ i. elim (ℕ_discrete i 0) [
                  | yes z ↦ ap t.node z ∙ (small q).0
                  | no z ↦ outside i (omega arith)
                ];
                no_slot =
                    λ i l. clear_slots-nil t.asize t.array 0 i (inl (omega arith, omega arith));
                top = top;
                no_part = λ q. (small q).1;
              }))
      ]
    where
      of_blank :
          (u : GcTab)
          → u.asize ≡ asize
          → u.hmask ≡ 2 ^ hbits - 1
          → IsBlank u
          → IsNewTab asize hbits key (some u)
      of_blank u x y b = (fits, blank-IsTab u b, x, y, blank_get u key ieee b g)

  module _ (slots : ℕ → TValue) (memory : ℕ → Node) where
    hashed-IsNewTab :
        (asize hbits : ℕ) (key : TValue)
        → IsIeee fp
        → IsIndex fp strhash key
        → asize ≤ max_asize
        → IsNewTab asize hbits key (
            cleared slots memory (
              if hbits == 0
              then some (array_only slots memory asize)
              else newhpart slots memory (array_only slots memory asize) hbits))
    unfolding newhpart
    hashed-IsNewTab asize hbits key ieee g fits = elim (Bool-cases (hbits == 0)) [
      | inl e ↦
          let q : hbits ≡ 0 = ground arith in
          rw q (
            cleared-IsNewTab (array_only slots memory asize) asize 0 key ieee g refl refl
              (λ i l. refl) (λ z. (refl, refl)) (omega arith) (fits, omega arith))
      | inr e ↦ elim (Bool-cases (ltb max_hbits hbits)) [
        | inl f ↦ rw (e, f) (inr (ground arith))
        | inr f ↦
            let p : 1 ≤ hbits = ground arith in
            let two : 2 ^ 1 ≤ 2 ^ hbits = pow-le-pow_right {n = 2} (omega arith) p in
            let t : GcTab = record (array_only slots memory asize) {
              node = λ i. if ltb i (2 ^ hbits) then memory i else nilnode;
              freetop = 2 ^ hbits;
              hmask = 2 ^ hbits - 1;
            } in
            rw (e, f)
              (cleared-IsNewTab t asize hbits key ieee g refl refl
                (λ i l. let past : ltb i (2 ^ hbits) ≡ false = ground arith in rw past refl)
                (λ z. absurd (omega arith)) (omega arith) (fits, ground arith))
      ]
    ]

    -- `lj_tab_new` gives an error just where the array part is larger than LJ_MAX_ASIZE or the hash part
    -- has more than LJ_MAX_HBITS bits. Else it gives a table of the sizes that were asked for, which is in
    -- order and in which no key has a value, whatever the fresh memory holds.
    pub lj_tab_new-IsNewTab :
        (asize hbits : ℕ) (key : TValue)
        → IsIeee fp
        → IsIndex fp strhash key
        → IsNewTab asize hbits key (lj_tab_new slots memory asize hbits)
    unfolding lj_tab_new newtab
    lj_tab_new-IsNewTab asize hbits key ieee g =
        elim (Bool-cases (ltb 0 asize && leb asize max_colosize)) [
          | inl e ↦ rw e (hashed-IsNewTab asize hbits key ieee g (ground arith))
          | inr e ↦ elim (Bool-cases (ltb 0 asize && ltb max_asize asize)) [
            | inl f ↦ rw (e, f) (inl (ground arith))
            | inr f ↦ rw (e, f) (hashed-IsNewTab asize hbits key ieee g (ground arith))
          ]
        ]

-- ===== src/Upvalues/Order.antt =====
-- The order of the open upvalues, by slot from the top of the stack down.
use qyz_client_lua.Base.{
  suc, ◌+◌, ◌++◌, Option, none, some, ℕ, ◌<◌, ◌≤◌, ◌≡◌, refl, sym, ap, ◌∙◌, not, ◌&&◌, inl, inr,
  Bool, true, false, List, [], ◌∷◌, leb, ◌==◌, if◌then◌else◌, All, arith, Bool-cases,
}
use qyz_client_lua.Upvalues.{
  Upval, UpvalState, find_open, func_finduv, close_one, close_loop, lj_func_closeuv,
}

-- Slots descend strictly, so no two open upvalues share one.
abbrev pub IsSorted : List Upval → Type 0
IsSorted [] = Unit {0}
IsSorted (p ∷ ps) = All (λ q. q.slot < p.slot) ps × IsSorted ps

All-map :
    {P Q : Upval → Type 0} → (ps : List Upval) → ((p : Upval) → P p → Q p) → All P ps → All Q ps
All-map [] f h = tt
All-map (p ∷ ps) f h = (f p h.0, All-map ps f h.1)

find_open-All :
    (slot bound : ℕ) (new : Upval) (ps : List Upval)
    → new.slot < bound
    → All (λ q. q.slot < bound) ps
    → All (λ q. q.slot < bound) (find_open slot new ps).0
unfolding find_open
find_open-All slot bound new [] n h = (n, tt)
find_open-All slot bound new (p ∷ ps) n h = elim (Bool-cases (leb slot p.slot)) [
  | inl above ↦ elim (Bool-cases (p.slot == slot)) [
    | inl same ↦ rw (above, same) (h.0, h.1)
    | inr other ↦ rw (above, other) (h.0, find_open-All slot bound new ps n h.1)
  ]
  | inr below ↦ rw below (n, h)
]

find_open-IsSorted :
    (slot : ℕ) (new : Upval) (ps : List Upval)
    → new.slot ≡ slot
    → IsSorted ps
    → IsSorted (find_open slot new ps).0
unfolding find_open
find_open-IsSorted slot new [] n h = (tt, tt)
find_open-IsSorted slot new (p ∷ ps) n h = elim (Bool-cases (leb slot p.slot)) [
  | inl above ↦ elim (Bool-cases (p.slot == slot)) [
    | inl same ↦ rw (above, same) h
    | inr other ↦
        rw (above, other)
          (
            find_open-All slot p.slot new ps (ground arith) h.0,
            find_open-IsSorted slot new ps n h.1,
          )
  ]
  | inr below ↦ rw below ((ground arith, All-map ps (λ q l. ground arith) h.0), h)
]

-- The upvalues of slots below a level, in their order.
pub below : ℕ → List Upval → List Upval
below level [] = []
below level (p ∷ ps) = if leb level p.slot then below level ps else p ∷ below level ps

below-All : (level : ℕ) (ps : List Upval) → All (λ p. p.slot < level) ps → below level ps ≡ ps
unfolding below
below-All level [] h = refl
below-All level (p ∷ ps) h =
    let under : leb level p.slot ≡ false = ground (arith, h.0) in
    rw (under, below-All level ps h.1) refl

-- The upvalues of slots above a slot, in their order.
pub above : ℕ → List Upval → List Upval
above slot [] = []
above slot (p ∷ ps) = if leb p.slot slot then above slot ps else p ∷ above slot ps

above-All : (slot : ℕ) (ps : List Upval) → All (λ p. p.slot < suc slot) ps → above slot ps ≡ []
unfolding above
above-All slot [] h = refl
above-All slot (p ∷ ps) h =
    let under : leb p.slot slot ≡ true = ground (arith, h.0) in
    rw (under, above-All slot ps h.1) refl

-- The open upvalue of a slot.
pub upval_at : ℕ → List Upval → Option Upval
upval_at slot [] = none
upval_at slot (p ∷ ps) = if p.slot == slot then some p else upval_at slot ps

upval_at-All : (slot : ℕ) (ps : List Upval) → All (λ p. p.slot < slot) ps → upval_at slot ps ≡ none
unfolding upval_at
upval_at-All slot [] h = refl
upval_at-All slot (p ∷ ps) h =
    let other : (p.slot == slot) ≡ false = ground (arith, h.0) in
    rw (other, upval_at-All slot ps h.1) refl

-- The upvalue that is there, alive again, or the new one.
abbrev pub revived : Upval → Option Upval → Upval
revived new none = new
revived new (some p) = record p { dead = false }

abbrev pub is_missing : Option Upval → Bool
is_missing none = true
is_missing (some p) = false

under-All :
    (bound level : ℕ) (ps : List Upval)
    → bound ≤ level
    → All (λ q. q.slot < bound) ps
    → All (λ q. q.slot < level) ps
under-All bound level ps h a = All-map ps (λ q (l : q.slot < bound). omega arith) a

find_open_lem :
    (slot : ℕ) (new : Upval) (ps : List Upval)
    → IsSorted ps
    → find_open slot new ps ≡ (
      above slot ps ++ revived new (upval_at slot ps) ∷ below slot ps,
      (revived new (upval_at slot ps), is_missing (upval_at slot ps)),
    )
unfolding find_open above below upval_at
find_open_lem slot new [] h = refl
find_open_lem slot new (p ∷ ps) h = elim (Bool-cases (leb slot p.slot)) [
  | inl at_least ↦ elim (Bool-cases (p.slot == slot)) [
    | inl same ↦
        let under : leb p.slot slot ≡ true = ground arith in
        let e : p.slot ≡ slot = ground arith in
        let lower = under-All p.slot slot ps (omega arith) h.0 in
        rw
          (
            at_least,
            same,
            under,
            above-All slot ps (under-All slot (suc slot) ps (omega arith) lower),
            below-All slot ps lower,
          )
          refl
    | inr other ↦
        let over : leb p.slot slot ≡ false = ground arith in
        let rest = find_open_lem slot new ps h.1 in rw (at_least, other, over, rest) refl
  ]
  | inr less ↦
      let under : leb p.slot slot ≡ true = ground arith in
      let other : (p.slot == slot) ≡ false = ground arith in
      let l : p.slot < slot = ground arith in
      let lower = under-All p.slot slot ps (omega arith) h.0 in
      rw
        (
          less,
          under,
          other,
          above-All slot ps (under-All slot (suc slot) ps (omega arith) lower),
          below-All slot ps lower,
          upval_at-All slot ps lower,
        )
        refl
]

module _ {V : Type 0} where
  abbrev pub new_upval : UpvalState V → ℕ → Upval
  new_upval st slot = record { address = st.fresh; slot = slot; dead = false }

  -- On a sorted list, `func_finduv` leaves a sorted list: the upvalues above the slot and those below
  -- it as they were, and between them the one that it gives. This is the upvalue that the slot had,
  -- which is no longer dead, or if it had none, a new one at a fresh address, which is put on the list
  -- of the collector, too; the list of the collector stays as it was otherwise.
  pub func_finduv-IsSorted :
      (st : UpvalState V) (slot : ℕ)
      → IsSorted st.openupval
      → IsSorted (func_finduv st slot).0.openupval
        × ((func_finduv st slot).1 ≡ revived (new_upval st slot) (upval_at slot st.openupval))
        × ((func_finduv st slot).0.openupval
            ≡ above slot st.openupval ++ (func_finduv st slot).1 ∷ below slot st.openupval)
        × ((func_finduv st slot).0.uvhead
            ≡ (if is_missing (upval_at slot st.openupval) then st.fresh ∷ st.uvhead else st.uvhead))
        × ((func_finduv st slot).0.fresh
            ≡ (if is_missing (upval_at slot st.openupval) then st.fresh + 1 else st.fresh))
  unfolding func_finduv
  func_finduv-IsSorted st slot h =
      let e = find_open_lem slot (new_upval st slot) st.openupval h in
      (
        find_open-IsSorted slot (new_upval st slot) st.openupval refl h,
        ap (λ r. r.1.0) e,
        ap (λ r. r.0) e
            ∙ ap (λ u. above slot st.openupval ++ u ∷ below slot st.openupval)
                (sym (ap (λ r. r.1.0) e)),
        ap (λ r. if r.1.1 then st.fresh ∷ st.uvhead else st.uvhead) e,
        ap (λ r. if r.1.1 then st.fresh + 1 else st.fresh) e,
      )

module _ {V : Type 0} (stack : ℕ → V) (level : ℕ) where
  -- The values of the live upvalues from the level on, in front of others.
  pub values : List Upval → List (ℕ × V) → List (ℕ × V)
  values [] vs = vs
  values (p ∷ ps) vs =
      values ps (if leb level p.slot && not p.dead then (p.address, stack p.slot) ∷ vs else vs)

  values-below :
      (ps : List Upval) (vs : List (ℕ × V)) → All (λ p. p.slot < level) ps → values ps vs ≡ vs
  unfolding values
  values-below [] vs h = refl
  values-below (p ∷ ps) vs h =
      let under : leb level p.slot ≡ false = ground (arith, h.0) in
      rw under (values-below ps vs h.1)

  close_loop_lem :
      (ps : List Upval) (st : UpvalState V)
      → IsSorted ps
      → ((close_loop stack level ps st).openupval ≡ below level ps)
        × ((close_loop stack level ps st).closed ≡ values ps st.closed)
  unfolding close_loop close_one below values
  close_loop_lem [] st h = (refl, refl)
  close_loop_lem (p ∷ ps) st h = elim (Bool-cases (leb level p.slot)) [
    | inl above ↦
        let (left, kept) = close_loop_lem ps (close_one stack st p ps) h.1 in
        rw above (left, kept ∙ ap (values ps) (dead_or_live p.dead))
    | inr under ↦
        let under_p : p.slot < level = ground arith in
        let lower = All-map ps (λ q (l : q.slot < p.slot). omega arith) h.0 in
        rw under (rw (below-All level ps lower) refl, sym (values-below ps st.closed lower))
  ]
    where
      dead_or_live :
          (d : Bool)
          → (if d then st.closed else (p.address, stack p.slot) ∷ st.closed)
            ≡ (if true && not d then (p.address, stack p.slot) ∷ st.closed else st.closed)
      dead_or_live true = refl
      dead_or_live false = refl

  -- On a sorted list, `lj_func_closeuv` leaves just the upvalues below the level, in their order; each
  -- one from the level on that is not dead is closed over the value of its slot, and no other.
  pub lj_func_closeuv_lem :
      (st : UpvalState V)
      → IsSorted st.openupval
      → ((lj_func_closeuv stack st level).openupval ≡ below level st.openupval)
        × ((lj_func_closeuv stack st level).closed ≡ values st.openupval st.closed)
  unfolding lj_func_closeuv
  lj_func_closeuv_lem st h = close_loop_lem st.openupval st h

-- ===== src/Upvalues.antt =====
-- Open upvalues, luajit/lj_func.c. `openupval` is the list of a Lua state, and `uvhead` the doubly
-- linked list of the collector, as the upvalues in its order. An upvalue is known by its address.
pub mod Order
use qyz_client_lua.Base.{
  ℕ, zero, suc, ◌+◌, Bool, true, false, not, List, [], ◌∷◌, leb, ◌==◌, if◌then◌else◌,
}

pub record Upval : Type 0 where
  pub address : ℕ
  pub slot : ℕ
  pub dead : Bool

-- `closed` holds the values that closed upvalues keep; `fresh` is the next address.
pub record UpvalState (V : Type 0) : Type 0 where
  pub openupval : List Upval
  pub uvhead : List ℕ
  pub closed : List (ℕ × V)
  pub fresh : ℕ

unfoldable pub unlinkuv : ℕ → List ℕ → List ℕ
unlinkuv a [] = []
unlinkuv a (b ∷ bs) = let rest = b ∷ unlinkuv a bs in if b == a then bs else rest

-- The list with the upvalue for the slot, that upvalue, and whether it is new.
unfoldable pub find_open : ℕ → Upval → List Upval → List Upval × (Upval × Bool)
find_open slot new [] = (new ∷ [], (new, true))
find_open slot new (p ∷ ps) =
    let found : Upval = record p { dead = false } in
    let later = find_open slot new ps in
    if leb slot p.slot
    then (if p.slot == slot then (found ∷ ps, (found, false)) else (p ∷ later.0, later.1))
    else (new ∷ p ∷ ps, (new, true))

module _ {V : Type 0} where
  unfoldable pub func_finduv : UpvalState V → ℕ → UpvalState V × Upval
  unfolding find_open
  func_finduv st slot =
      let new : Upval = record { address = st.fresh; slot = slot; dead = false } in
      let r = find_open slot new st.openupval in
      (
        record st {
          openupval = r.0;
          uvhead = if r.1.1 then st.fresh ∷ st.uvhead else st.uvhead;
          fresh = if r.1.1 then st.fresh + 1 else st.fresh;
        },
        r.1.0,
      )

  -- An upvalue taken off the open list: freed if it is dead, else closed over the value of its slot.
  unfoldable pub close_one : (ℕ → V) → UpvalState V → Upval → List Upval → UpvalState V
  unfolding unlinkuv
  close_one stack st uv rest = record st {
    openupval = rest;
    uvhead = unlinkuv uv.address st.uvhead;
    closed = if uv.dead then st.closed else (uv.address, stack uv.slot) ∷ st.closed;
  }

  -- The loop, along the open list.
  unfoldable pub close_loop : (ℕ → V) → ℕ → List Upval → UpvalState V → UpvalState V
  close_loop stack level [] st = record st { openupval = [] }
  close_loop stack level (uv ∷ uvs) st =
      let next = close_loop stack level uvs (close_one stack st uv uvs) in
      if leb level uv.slot then next else record st { openupval = uv ∷ uvs }

  unfoldable pub lj_func_closeuv : (ℕ → V) → UpvalState V → ℕ → UpvalState V
  lj_func_closeuv stack st level = close_loop stack level st.openupval st

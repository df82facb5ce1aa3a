-- ===== src/Examples/Upvals.antt =====
-- Open upvalues of luajit/lj_func.c on a concrete list.
use qyz_client_lua.Base.{if◌then◌else◌, ◌++◌, ℕ, ◌+◌, ◌≡◌, true, false, [], ◌∷◌, arith}
use qyz_client_lua.Upvalues.{UpvalState, func_finduv, lj_func_closeuv}
use qyz_client_lua.Upvalues.Order.{
  IsSorted, above, upval_at, revived, is_missing, new_upval, below, values, func_finduv-IsSorted,
  lj_func_closeuv_lem,
}

abbrev three : UpvalState ℕ
three = record {
  openupval =
      record { address = 2; slot = 9; dead = false }
      ∷ record { address = 0; slot = 6; dead = true }
      ∷ record { address = 1; slot = 3; dead = false }
      ∷ [];
  uvhead = 2 ∷ 1 ∷ 0 ∷ [];
  closed = [];
  fresh = 3;
}

three-IsSorted : IsSorted three.openupval
three-IsSorted = ((omega arith, (omega arith, tt)), ((omega arith, tt), (tt, tt)))

func_finduv-IsSorted_example :
    IsSorted (func_finduv three 5).0.openupval
    × ((func_finduv three 5).1 ≡ revived (new_upval three 5) (upval_at 5 three.openupval))
    × ((func_finduv three 5).0.openupval
        ≡ above 5 three.openupval ++ (func_finduv three 5).1 ∷ below 5 three.openupval)
    × ((func_finduv three 5).0.uvhead
        ≡ (if is_missing (upval_at 5 three.openupval) then 3 ∷ three.uvhead else three.uvhead))
    × ((func_finduv three 5).0.fresh ≡ (if is_missing (upval_at 5 three.openupval) then 4 else 3))
func_finduv-IsSorted_example = func_finduv-IsSorted three 5 three-IsSorted

lj_func_closeuv_lem_example :
    ((lj_func_closeuv (λ i. i + 100) three 6).openupval ≡ below 6 three.openupval)
    × ((lj_func_closeuv (λ i. i + 100) three 6).closed ≡ values (λ i. i + 100) 6 three.openupval [])
lj_func_closeuv_lem_example = lj_func_closeuv_lem (λ i. i + 100) 6 three three-IsSorted

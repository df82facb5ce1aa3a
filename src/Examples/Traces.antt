-- ===== src/Examples/Traces.antt =====
-- Dead-code elimination of luajit/lj_opt_dce.c on a concrete trace.
use qyz_client_lua.Base.{ℕ, ◌+◌, ◌*◌, ◌≡◌, refl, true, [], ◌∷◌, arith, ◌==◌, if◌then◌else◌}
use qyz_client_lua.Ir.{IrIns, ir_sideeff, lj_ir_mode, irmode, ir_nop}
use qyz_client_lua.Dce.{
  JitState, lj_opt_dce, dce_propagate, dce_loop, dce_round, mark_operands, mark_ref, dce_marksnap,
  mark_entries, reroute,
}
use qyz_client_lua.Dce.Live.{IsOrdered}
use qyz_client_lua.Dce.Safe.{IsSafe, lj_opt_dce-IsSafe}

-- Two loads of stack slots, the product of the first with itself, and the sum of both.
abbrev code : ℕ → IrIns
code r =
    if r == 32769
    then record { op1 = 1; op2 = 0; t = 19; o = 69; prev = 0 }
    else if r == 32770
    then record { op1 = 2; op2 = 0; t = 19; o = 69; prev = 32769 }
    else if r == 32771
    then record { op1 = 32769; op2 = 32769; t = 19; o = 42; prev = 0 }
    else record { op1 = 32769; op2 = 32770; t = 19; o = 40; prev = 0 }

-- The snapshot refers to the product only.
abbrev trace : JitState
trace = record {
  ir = code;
  nins = 32773;
  chain = λ o. if o == 69 then 32770 else if o == 42 then 32771 else if o == 40 then 32772 else 0;
  snap = record { mapofs = 5; nent = 1 } ∷ [];
  snapmap = λ i. 32771 + 65536 * 3;
  opt_dce = true;
  bpropcache = λ i. record { key = i; val = i; mode = 0 };
}

trace-IsOrdered : IsOrdered code 32773
trace-IsOrdered = record { op1 = λ r a b h. ground arith; op2 = λ r a b h. ground arith }

lj_opt_dce-IsSafe_example : IsSafe trace (lj_opt_dce trace)
lj_opt_dce-IsSafe_example = lj_opt_dce-IsSafe trace trace-IsOrdered (omega arith)

-- The sum goes, and with it the second load, which leaves its chain.
trace_after :
    ((lj_opt_dce trace).ir 32772).o ≡ ir_nop
    × (((lj_opt_dce trace).ir 32770).o ≡ ir_nop)
    × (((lj_opt_dce trace).ir 32771).o ≡ 42)
    × ((lj_opt_dce trace).chain 69 ≡ 32769)
unfolding lj_opt_dce dce_propagate dce_loop dce_round mark_operands mark_ref dce_marksnap
    mark_entries reroute ir_sideeff lj_ir_mode irmode
trace_after = (refl, refl, refl, refl)

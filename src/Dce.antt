-- ===== src/Dce.antt =====
-- Dead-code elimination, luajit/lj_opt_dce.c. The IR, the chains and `pchain` are functions of their
-- index; a pointer in `pchain` is a root of `J->chain` or the `prev` field of an instruction.
pub mod Rounds
pub mod Live
pub mod Safe
use qyz_client_lua.Base.{
  ℕ, zero, suc, ◌+◌, ◌-◌, ◌%◌, Bool, true, false, List, [], ◌∷◌, ltb, ◌==◌, if◌then◌else◌, get_or,
  put,
}
use qyz_client_lua.Ir.{
  IrIns, ir_nop, irt_nil, ref_first, irt_ismarked, irt_setmark, irt_clearmark, ir_sideeff,
}

pub data Slot : Type 0 where
  root link : ℕ → Slot

pub record SnapShot : Type 0 where
  pub mapofs : ℕ
  pub nent : ℕ

-- An entry of the cache for the back-propagation of narrowing, which names IR instructions.
pub record BpropEntry : Type 0 where
  pub key : ℕ
  pub val : ℕ
  pub mode : ℕ

pub record JitState : Type 0 where
  pub ir : ℕ → IrIns
  pub nins : ℕ
  pub chain : ℕ → ℕ
  pub snap : List SnapShot
  pub snapmap : ℕ → ℕ
  pub opt_dce : Bool
  pub bpropcache : ℕ → BpropEntry

unfoldable pub mark_ref : (ℕ → IrIns) → ℕ → ℕ → IrIns
mark_ref ir ref =
    if ltb ref ref_first then ir else put ir ref (record (ir ref) { t = irt_setmark (ir ref).t })

-- The entries of one snapshot, from `ofs` on; `snap_ref` takes 16 bits.
unfoldable pub mark_entries : (ℕ → ℕ) → ℕ → ℕ → (ℕ → IrIns) → ℕ → IrIns
mark_entries snapmap ofs zero ir = ir
mark_entries snapmap ofs (suc n) ir =
    mark_entries snapmap (ofs + 1) n (mark_ref ir (snapmap ofs % 65536))

unfoldable pub dce_marksnap : (ℕ → ℕ) → List SnapShot → (ℕ → IrIns) → ℕ → IrIns
dce_marksnap snapmap [] ir = ir
dce_marksnap snapmap (s ∷ ss) ir = dce_marksnap snapmap ss (mark_entries snapmap s.mapofs s.nent ir)

pub record Propagate : Type 0 where
  pub ir : ℕ → IrIns
  pub chain : ℕ → ℕ
  pub pchain : ℕ → Slot

-- `*slot = ref`
unfoldable pub reroute : Propagate → Slot → ℕ → Propagate
reroute s (root o) ref = record s { chain = put s.chain o ref }
reroute s (link q) ref = record s { ir = put s.ir q (record (s.ir q) { prev = ref }) }

abbrev pub nop : IrIns
nop = record { op1 = 0; op2 = 0; t = irt_nil; o = ir_nop; prev = 0 }

unfoldable pub mark_operands : IrIns → (ℕ → IrIns) → ℕ → IrIns
unfolding mark_ref
mark_operands ins ir = mark_ref (mark_ref ir ins.op1) ins.op2

-- One round of the loop.
unfoldable pub dce_round : Propagate → ℕ → Propagate
dce_round s ref =
    let ins = s.ir ref in
    if irt_ismarked ins.t
    then record s {
      ir = mark_operands ins (put s.ir ref (record ins { t = irt_clearmark ins.t }));
      pchain = put s.pchain ins.o (link ref);
    }
    else if ir_sideeff ins
    then record s { ir = mark_operands ins s.ir }
    else (let s' = reroute s (s.pchain ins.o) ins.prev in record s' { ir = put s'.ir ref nop })

-- The loop over `n` instructions from REF_FIRST on, from the last to the first.
unfoldable pub dce_loop : ℕ → Propagate → Propagate
dce_loop zero s = s
dce_loop (suc n) s = dce_loop n (dce_round s (ref_first + n))

unfoldable pub dce_propagate : (ℕ → IrIns) → (ℕ → ℕ) → ℕ → Propagate
dce_propagate ir chain nins =
    dce_loop (nins - ref_first) (record { ir = ir; chain = chain; pchain = λ o. root o })

abbrev pub no_entries : ℕ → BpropEntry
no_entries i = record { key = 0; val = 0; mode = 0 }

unfoldable pub lj_opt_dce : JitState → JitState
lj_opt_dce j =
    let s = dce_propagate (dce_marksnap j.snapmap j.snap j.ir) j.chain j.nins in
    if j.opt_dce then record j { ir = s.ir; chain = s.chain; bpropcache = no_entries } else j

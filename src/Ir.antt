-- ===== src/Ir.antt =====
-- The IR of the trace compiler, luajit/lj_ir.h: instructions, operand modes and side effects. A bit
-- of a type or mode is taken out by division, and `|` of disjoint bits is `+`.
use qyz_client_lua.Base.{
  ℕ, ◌+◌, ◌-◌, ◌*◌, ◌/◌, ◌%◌, Bool, List, [], ◌∷◌, ◌&&◌, leb, ◌==◌, if◌then◌else◌, get_or,
}

-- IRMref, IRMlit, IRMcst and IRMnone.
abbrev pub irm_ref : ℕ
irm_ref = 0

abbrev pub irm_lit : ℕ
irm_lit = 1

abbrev pub irm_cst : ℕ
irm_cst = 2

abbrev pub irm_none : ℕ
irm_none = 3

abbrev pub irm_c : ℕ
irm_c = 0x10

abbrev pub irm_n : ℕ
irm_n = 0x00

abbrev pub irm_r : ℕ
irm_r = 0x00

abbrev pub irm_a : ℕ
irm_a = 0x20

abbrev pub irm_l : ℕ
irm_l = 0x40

abbrev pub irm_s : ℕ
irm_s = 0x60

abbrev pub irm_w : ℕ
irm_w = 0x80

abbrev pub irm_nw : ℕ
irm_nw = 0x80

abbrev pub irm_cw : ℕ
irm_cw = 0x90

abbrev pub irm_aw : ℕ
irm_aw = 0xa0

abbrev pub irm_lw : ℕ
irm_lw = 0xc0

-- IRMODE, whose last step is an exclusive or with IRM_W.
unfoldable pub irmode : ℕ → ℕ → ℕ → ℕ
irmode m m1 m2 = (if leb irm_w m then m - irm_w else m + irm_w) + m1 + m2 * 4

-- One mode for each opcode, in the order of IRDEF.
unfoldable pub lj_ir_mode : List ℕ
unfolding irmode
lj_ir_mode =
    irmode irm_n irm_ref irm_ref
    ∷ irmode irm_n irm_ref irm_ref
    ∷ irmode irm_n irm_ref irm_ref
    ∷ irmode irm_n irm_ref irm_ref
    ∷ irmode irm_n irm_ref irm_ref
    ∷ irmode irm_n irm_ref irm_ref
    ∷ irmode irm_n irm_ref irm_ref
    ∷ irmode irm_n irm_ref irm_ref
    ∷ irmode irm_c irm_ref irm_ref
    ∷ irmode irm_c irm_ref irm_ref
    ∷ irmode irm_n irm_ref irm_ref
    ∷ irmode irm_s irm_ref irm_ref
    ∷ irmode irm_n irm_none irm_none
    ∷ irmode irm_n irm_lit irm_lit
    ∷ irmode irm_n irm_lit irm_none
    ∷ irmode irm_s irm_none irm_none
    ∷ irmode irm_s irm_ref irm_ref
    ∷ irmode irm_s irm_none irm_none
    ∷ irmode irm_s irm_ref irm_none
    ∷ irmode irm_s irm_ref irm_ref
    ∷ irmode irm_s irm_ref irm_lit
    ∷ irmode irm_n irm_none irm_none
    ∷ irmode irm_n irm_cst irm_none
    ∷ irmode irm_n irm_cst irm_none
    ∷ irmode irm_n irm_cst irm_none
    ∷ irmode irm_n irm_cst irm_none
    ∷ irmode irm_n irm_cst irm_none
    ∷ irmode irm_n irm_cst irm_none
    ∷ irmode irm_n irm_cst irm_none
    ∷ irmode irm_n irm_ref irm_lit
    ∷ irmode irm_n irm_ref irm_none
    ∷ irmode irm_n irm_ref irm_none
    ∷ irmode irm_c irm_ref irm_ref
    ∷ irmode irm_c irm_ref irm_ref
    ∷ irmode irm_c irm_ref irm_ref
    ∷ irmode irm_n irm_ref irm_ref
    ∷ irmode irm_n irm_ref irm_ref
    ∷ irmode irm_n irm_ref irm_ref
    ∷ irmode irm_n irm_ref irm_ref
    ∷ irmode irm_n irm_ref irm_ref
    ∷ irmode irm_c irm_ref irm_ref
    ∷ irmode irm_n irm_ref irm_ref
    ∷ irmode irm_c irm_ref irm_ref
    ∷ irmode irm_n irm_ref irm_ref
    ∷ irmode irm_n irm_ref irm_ref
    ∷ irmode irm_n irm_ref irm_ref
    ∷ irmode irm_n irm_ref irm_ref
    ∷ irmode irm_n irm_ref irm_ref
    ∷ irmode irm_n irm_ref irm_ref
    ∷ irmode irm_n irm_ref irm_ref
    ∷ irmode irm_c irm_ref irm_ref
    ∷ irmode irm_c irm_ref irm_ref
    ∷ irmode irm_n irm_ref irm_lit
    ∷ irmode irm_cw irm_ref irm_ref
    ∷ irmode irm_nw irm_ref irm_ref
    ∷ irmode irm_cw irm_ref irm_ref
    ∷ irmode irm_r irm_ref irm_ref
    ∷ irmode irm_r irm_ref irm_ref
    ∷ irmode irm_l irm_ref irm_ref
    ∷ irmode irm_s irm_ref irm_ref
    ∷ irmode irm_lw irm_ref irm_lit
    ∷ irmode irm_lw irm_ref irm_lit
    ∷ irmode irm_r irm_ref irm_lit
    ∷ irmode irm_n irm_ref irm_ref
    ∷ irmode irm_l irm_ref irm_none
    ∷ irmode irm_l irm_ref irm_none
    ∷ irmode irm_l irm_ref irm_none
    ∷ irmode irm_l irm_ref irm_lit
    ∷ irmode irm_l irm_ref irm_lit
    ∷ irmode irm_l irm_lit irm_lit
    ∷ irmode irm_l irm_ref irm_none
    ∷ irmode irm_s irm_ref irm_ref
    ∷ irmode irm_s irm_ref irm_ref
    ∷ irmode irm_s irm_ref irm_ref
    ∷ irmode irm_s irm_ref irm_ref
    ∷ irmode irm_s irm_ref irm_ref
    ∷ irmode irm_n irm_ref irm_ref
    ∷ irmode irm_a irm_ref irm_ref
    ∷ irmode irm_aw irm_lit irm_lit
    ∷ irmode irm_aw irm_ref irm_none
    ∷ irmode irm_aw irm_ref irm_ref
    ∷ irmode irm_nw irm_ref irm_ref
    ∷ irmode irm_s irm_ref irm_none
    ∷ irmode irm_s irm_ref irm_ref
    ∷ irmode irm_s irm_none irm_none
    ∷ irmode irm_nw irm_ref irm_lit
    ∷ irmode irm_n irm_ref irm_ref
    ∷ irmode irm_n irm_ref irm_none
    ∷ irmode irm_n irm_ref irm_none
    ∷ irmode irm_n irm_ref irm_lit
    ∷ irmode irm_l irm_ref irm_lit
    ∷ irmode irm_s irm_ref irm_lit
    ∷ irmode irm_s irm_ref irm_ref
    ∷ irmode irm_n irm_ref irm_ref
    ∷ []

abbrev pub ir_nop : ℕ
ir_nop = 12

abbrev pub irt_nil : ℕ
irt_nil = 0

abbrev pub ref_first : ℕ
ref_first = 0x8001

pub record IrIns : Type 0 where
  pub op1 : ℕ
  pub op2 : ℕ
  pub t : ℕ
  pub o : ℕ
  pub prev : ℕ

abbrev pub irt_isguard : ℕ → Bool
irt_isguard t = t / 128 % 2 == 1

abbrev pub irt_ismarked : ℕ → Bool
irt_ismarked t = t / 32 % 2 == 1

abbrev pub irt_setmark : ℕ → ℕ
irt_setmark t = if irt_ismarked t then t else t + 32

abbrev pub irt_clearmark : ℕ → ℕ
irt_clearmark t = if irt_ismarked t then t - 32 else t

-- `((irt | ~IRT_GUARD) & mode) >= IRM_S`
unfoldable pub ir_sideeff : IrIns → Bool
unfolding lj_ir_mode
ir_sideeff ir =
    let mode : ℕ = get_or lj_ir_mode ir.o 0 in
    leb irm_s (mode % 128 + (if irt_isguard ir.t && leb 128 mode then 128 else 0))

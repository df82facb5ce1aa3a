-- ===== src/Dce/Rounds.antt =====
-- One round of dead-code elimination: what it does to its instruction, and to the others.
use qyz_client_lua.Base.{
  ℕ, ◌-◌, ◌≤◌, ◌≡◌, ◌≢◌, inl, inr, refl, sym, ap, ◌∙◌, true, false, ltb, ==_refl, arith, Bool-cases,
  ℕ_discrete, put, put_self, put_other,
}
use qyz_client_lua.Ir.{
  IrIns, ref_first, irt_ismarked, irt_setmark, irt_clearmark, irt_isguard, ir_sideeff,
}
use qyz_client_lua.Dce.{
  Slot, root, link, mark_ref, Propagate, reroute, nop, mark_operands, dce_round,
}

-- The same instruction, but for the mark and the chain.
pub record Same (a b : IrIns) : Type 0 where
  pub o : a.o ≡ b.o
  pub op1 : a.op1 ≡ b.op1
  pub op2 : a.op2 ≡ b.op2
  pub t : irt_clearmark a.t ≡ irt_clearmark b.t

pub Same-refl : (a : IrIns) → Same a a
Same-refl a = record { o = refl; op1 = refl; op2 = refl; t = refl }

pub Same-trans : {a b c : IrIns} → Same a b → Same b c → Same a c
Same-trans p q = record { o = p.o ∙ q.o; op1 = p.op1 ∙ q.op1; op2 = p.op2 ∙ q.op2; t = p.t ∙ q.t }

clearmark-setmark : (t : ℕ) → irt_clearmark (irt_setmark t) ≡ irt_clearmark t
clearmark-setmark t = ground arith

clearmark-clearmark : (t : ℕ) → irt_clearmark (irt_clearmark t) ≡ irt_clearmark t
clearmark-clearmark t = ground arith

ismarked-setmark : (t : ℕ) → irt_ismarked (irt_setmark t) ≡ true
ismarked-setmark t = ground arith

isguard-clearmark : (t : ℕ) → irt_isguard (irt_clearmark t) ≡ irt_isguard t
isguard-clearmark t = ground arith

pub Same-sideeff : {a b : IrIns} → Same a b → ir_sideeff a ≡ ir_sideeff b
unfolding ir_sideeff
Same-sideeff {a} {b} p =
    let g : irt_isguard a.t ≡ irt_isguard b.t =
      sym (isguard-clearmark a.t) ∙ ap (λ (t : ℕ). irt_isguard t) p.t ∙ isguard-clearmark b.t in
    rw (p.o, g) refl

-- Two states of the IR, of which the second may have more marks and other chains, but for `ref`.
pub record Frame (ref : ℕ) (f g : ℕ → IrIns) : Type 0 where
  pub same : (r : ℕ) → r ≢ ref → Same (f r) (g r)
  pub marks : (r : ℕ) → r ≢ ref → irt_ismarked (f r).t ≡ true → irt_ismarked (g r).t ≡ true

Frame-trans : {ref : ℕ} {f g h : ℕ → IrIns} → Frame ref f g → Frame ref g h → Frame ref f h
Frame-trans p q = record {
  same = λ r n. Same-trans (p.same r n) (q.same r n);
  marks = λ r n m. q.marks r n (p.marks r n m);
}

-- The same at every reference.
pub record Grows (f g : ℕ → IrIns) : Type 0 where
  pub same : (r : ℕ) → Same (f r) (g r)
  pub marks : (r : ℕ) → irt_ismarked (f r).t ≡ true → irt_ismarked (g r).t ≡ true

Grows-Frame : {f g : ℕ → IrIns} (ref : ℕ) → Grows f g → Frame ref f g
Grows-Frame ref h = record { same = λ r n. h.same r; marks = λ r n. h.marks r }

pub Grows-trans : {f g h : ℕ → IrIns} → Grows f g → Grows g h → Grows f h
Grows-trans p q = record {
  same = λ r. Same-trans (p.same r) (q.same r);
  marks = λ r m. q.marks r (p.marks r m);
}

-- Growing at one reference only.
put-Grows :
    (f : ℕ → IrIns) (x : ℕ) (v : IrIns)
    → Same (f x) v
    → (irt_ismarked (f x).t ≡ true → irt_ismarked v.t ≡ true)
    → Grows f (put f x v)
put-Grows f x v e m = record {
  same = λ r. elim (ℕ_discrete r x) [
    | yes here ↦ rw (here, put_self f x v) e
    | no n ↦ rw (put_other f x r v n) (Same-refl (f r))
  ];
  marks = λ r. elim (ℕ_discrete r x) [
    | yes here ↦ rw (here, put_self f x v) m
    | no n ↦ rw (put_other f x r v n) (λ k. k)
  ];
}

pub Grows-refl : (f : ℕ → IrIns) → Grows f f
Grows-refl f = record { same = λ r. Same-refl (f r); marks = λ r m. m }

pub mark_ref-Grows : (f : ℕ → IrIns) (x : ℕ) → Grows f (mark_ref f x)
unfolding mark_ref
mark_ref-Grows f x = elim (Bool-cases (ltb x ref_first)) [
  | inl constant ↦ rw constant (Grows-refl f)
  | inr operand ↦ rw operand (
      put-Grows f x _
        (record { o = refl; op1 = refl; op2 = refl; t = sym (clearmark-setmark (f x).t) })
        (λ m. ismarked-setmark (f x).t))
]

pub mark_ref-marked :
    (f : ℕ → IrIns) (x : ℕ) → ref_first ≤ x → irt_ismarked (mark_ref f x x).t ≡ true
unfolding mark_ref
mark_ref-marked f x h =
    let operand : ltb x ref_first ≡ false = ground arith in
    rw (operand, ==_refl x) (ismarked-setmark (f x).t)

mark_operands-Grows : (ins : IrIns) (f : ℕ → IrIns) → Grows f (mark_operands ins f)
unfolding mark_operands
mark_operands-Grows ins f =
    Grows-trans (mark_ref-Grows f ins.op1) (mark_ref-Grows (mark_ref f ins.op1) ins.op2)

-- A reference is an operand, and the operand is marked.
abbrev pub IsUsed : (f : ℕ → IrIns) → IrIns → Type 0
IsUsed f ins =
    (ref_first ≤ ins.op1 → irt_ismarked (f ins.op1).t ≡ true)
    × (ref_first ≤ ins.op2 → irt_ismarked (f ins.op2).t ≡ true)

mark_operands-IsUsed : (ins : IrIns) (f : ℕ → IrIns) → IsUsed (mark_operands ins f) ins
unfolding mark_operands
mark_operands-IsUsed ins f = (
  λ h. (mark_ref-Grows (mark_ref f ins.op1) ins.op2).marks ins.op1 (mark_ref-marked f ins.op1 h),
  λ h. mark_ref-marked (mark_ref f ins.op1) ins.op2 h,
)

put-Frame : (f : ℕ → IrIns) (ref : ℕ) (v : IrIns) → Frame ref f (put f ref v)
put-Frame f ref v = record {
  same = λ r n. rw (put_other f ref r v n) (Same-refl (f r));
  marks = λ r n m. rw (put_other f ref r v n) m;
}

reroute-Grows : (s : Propagate) (l : Slot) (ref : ℕ) → Grows s.ir (reroute s l ref).ir
unfolding reroute
reroute-Grows s (root o) ref = Grows-refl s.ir
reroute-Grows s (link q) ref =
    put-Grows s.ir q _ (record { o = refl; op1 = refl; op2 = refl; t = refl }) (λ m. m)

-- What a round does to its instruction.
pub data Outcome (s : Propagate) (ref : ℕ) (s' : Propagate) : Type 0 where
  kept : Same (s.ir ref) (s'.ir ref) → IsUsed s'.ir (s.ir ref) → Outcome s ref s'
  removed :
      Same nop (s'.ir ref)
      → irt_ismarked (s.ir ref).t ≡ false
      → ir_sideeff (s.ir ref) ≡ false
      → Outcome s ref s'

pub dce_round-Frame : (s : Propagate) (ref : ℕ) → Frame ref s.ir (dce_round s ref).ir
unfolding dce_round
dce_round-Frame s ref = elim (Bool-cases (irt_ismarked (s.ir ref).t)) [
  | inl marked ↦
      rw marked
        (Frame-trans (put-Frame s.ir ref _) (Grows-Frame ref (mark_operands-Grows (s.ir ref) _)))
  | inr unmarked ↦ elim (Bool-cases (ir_sideeff (s.ir ref))) [
    | inl effect ↦ rw (unmarked, effect) (Grows-Frame ref (mark_operands-Grows (s.ir ref) s.ir))
    | inr pure ↦
        rw (unmarked, pure)
          (Frame-trans (Grows-Frame ref (reroute-Grows s (s.pchain (s.ir ref).o) (s.ir ref).prev))
            (put-Frame (reroute s (s.pchain (s.ir ref).o) (s.ir ref).prev).ir ref nop))
  ]
]

pub dce_round-Outcome : (s : Propagate) (ref : ℕ) → Outcome s ref (dce_round s ref)
unfolding dce_round
dce_round-Outcome s ref = elim (Bool-cases (irt_ismarked (s.ir ref).t)) [
  | inl marked ↦ rw marked (
      kept
        (unmarked_again (record (s.ir ref) { t = (s.ir ref).t - 32 })
          (record { o = refl; op1 = refl; op2 = refl; t = ground arith }))
        (mark_operands-IsUsed (s.ir ref) _))
  | inr unmarked ↦ elim (Bool-cases (ir_sideeff (s.ir ref))) [
    | inl effect ↦
        rw (unmarked, effect)
          (kept ((mark_operands-Grows (s.ir ref) s.ir).same ref)
            (mark_operands-IsUsed (s.ir ref) s.ir))
    | inr pure ↦
        rw (unmarked, pure)
          (removed
            (rw (put_self (reroute s (s.pchain (s.ir ref).o) (s.ir ref).prev).ir ref nop)
              (Same-refl nop))
            unmarked pure)
  ]
]
  where
    unmarked_again :
        (v : IrIns)
        → Same (s.ir ref) v
        → Same (s.ir ref) (mark_operands (s.ir ref) (put s.ir ref v) ref)
    unmarked_again v e =
        let grown = (mark_operands-Grows (s.ir ref) (put s.ir ref v)).same ref in
        Same-trans e (rw (put_self s.ir ref v) at grown)

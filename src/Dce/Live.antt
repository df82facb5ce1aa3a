-- ===== src/Dce/Live.antt =====
-- What dead-code elimination keeps.
use qyz_client_lua.Base.{
  ℕ, zero, suc, ◌+◌, ◌-◌, ◌<◌, ◌≤◌, ◌≡◌, ◌⊎◌, inl, inr, sym, subst, ◌∙◌, true, false, arith,
  Bool-cases, ℕ_discrete,
}
use qyz_client_lua.Ir.{IrIns, ref_first, irt_ismarked, ir_sideeff}
use qyz_client_lua.Dce.{root, Propagate, nop, dce_round, dce_loop, dce_propagate}
use qyz_client_lua.Dce.Rounds.{
  Same, Same-refl, Same-trans, Same-sideeff, Frame, Outcome, kept, removed, dce_round-Frame,
  dce_round-Outcome,
}

-- Operands come before their instruction, as the recorder emits them.
pub record IsOrdered (ir : ℕ → IrIns) (nins : ℕ) : Type 0 where
  pub op1 : (r : ℕ) → ref_first ≤ r → r < nins → ref_first ≤ (ir r).op1 → (ir r).op1 < r
  pub op2 : (r : ℕ) → ref_first ≤ r → r < nins → ref_first ≤ (ir r).op2 → (ir r).op2 < r

-- The instruction at `r` stayed, with its operands.
pub record IsKept (f g : ℕ → IrIns) (r : ℕ) : Type 0 where
  pub here : Same (f r) (g r)
  pub op1 : ref_first ≤ (f r).op1 → Same (f (f r).op1) (g (f r).op1)
  pub op2 : ref_first ≤ (f r).op2 → Same (f (f r).op2) (g (f r).op2)

-- Marked instructions and those with side effects stay, and so do the operands of all that stay; an
-- instruction that does not stay is a NOP.
pub record KeepsLive (f g : ℕ → IrIns) (nins : ℕ) : Type 0 where
  pub marked : (r : ℕ) → ref_first ≤ r → r < nins → irt_ismarked (f r).t ≡ true → IsKept f g r
  pub effect : (r : ℕ) → ref_first ≤ r → r < nins → ir_sideeff (f r) ≡ true → IsKept f g r
  pub rest : (r : ℕ) → ref_first ≤ r → r < nins → IsKept f g r ⊎ Same nop (g r)

module _ (orig : ℕ → IrIns) (nins : ℕ) (ordered : IsOrdered orig nins) where
  -- `r` is wanted, with the rounds done from `b` on.
  record Wanted (b : ℕ) (s : Propagate) (r : ℕ) : Type 0 where
    below : r < b → irt_ismarked (s.ir r).t ≡ true
    above : b ≤ r → Same (orig r) (s.ir r)

  data Done (b : ℕ) (s : Propagate) (r : ℕ) : Type 0 where
    stays :
        Same (orig r) (s.ir r)
        → (ref_first ≤ (orig r).op1 → Wanted b s (orig r).op1)
        → (ref_first ≤ (orig r).op2 → Wanted b s (orig r).op2)
        → Done b s r
    goes :
        Same nop (s.ir r)
        → irt_ismarked (orig r).t ≡ false
        → ir_sideeff (orig r) ≡ false
        → Done b s r

  record Inv (b : ℕ) (s : Propagate) : Type 0 where
    bound : b ≤ nins
    todo : (r : ℕ) → r < b → Same (orig r) (s.ir r)
    todo_marks : (r : ℕ) → r < b → irt_ismarked (orig r).t ≡ true → irt_ismarked (s.ir r).t ≡ true
    done : (r : ℕ) → ref_first ≤ r → b ≤ r → r < nins → Done b s r

  module _ (s : Propagate) (ref : ℕ) where
    advance : {r : ℕ} → Inv (suc ref) s → Wanted (suc ref) s r → Wanted ref (dce_round s ref) r
    advance {r} inv w = record {
      below = λ l. frame.marks r (λ e. omega arith) (w.below (omega arith));
      above = λ l. elim (ℕ_discrete r ref) [
        | yes e ↦ rw e (self e inv (w.below (omega arith)) (dce_round-Outcome s ref))
        | no n ↦ Same-trans (w.above (omega arith)) (frame.same r n)
      ];
    }
      where
        frame : Frame ref s.ir (dce_round s ref).ir
        frame = dce_round-Frame s ref

        self :
            r ≡ ref
            → Inv (suc ref) s
            → irt_ismarked (s.ir r).t ≡ true
            → Outcome s ref (dce_round s ref)
            → Same (orig ref) ((dce_round s ref).ir ref)
        self e inv m (kept h u) = Same-trans (inv.todo ref (omega arith)) h
        self e inv m (removed h u x) = cc (u, m, e)

    round-Done :
        (r : ℕ) → Inv (suc ref) s → Done (suc ref) s r → ref < r → Done ref (dce_round s ref) r
    round-Done r inv (stays h a b) l =
        stays (Same-trans h ((dce_round-Frame s ref).same r (λ e. omega arith)))
          (λ k. advance inv (a k)) (λ k. advance inv (b k))
    round-Done r inv (goes h m e) l =
        goes (Same-trans h ((dce_round-Frame s ref).same r (λ e. omega arith))) m e

    this-Done : Inv (suc ref) s → ref_first ≤ ref → Done ref (dce_round s ref) ref
    this-Done inv h = go (dce_round-Outcome s ref)
      where
        before : Same (orig ref) (s.ir ref)
        before = inv.todo ref (omega arith)

        go : Outcome s ref (dce_round s ref) → Done ref (dce_round s ref) ref
        go (kept same (used1, used2)) =
            stays (Same-trans before same)
              (λ k. record {
                below = λ l.
                    subst (λ (x : ℕ). irt_ismarked ((dce_round s ref).ir x).t ≡ true)
                      (sym before.op1) (used1 (rw before.op1 at k));
                above = λ l. absurd (omega (arith, ordered.op1 ref h (omega (arith, inv.bound)) k));
              })
              (λ k. record {
                below = λ l.
                    subst (λ (x : ℕ). irt_ismarked ((dce_round s ref).ir x).t ≡ true)
                      (sym before.op2) (used2 (rw before.op2 at k));
                above = λ l. absurd (omega (arith, ordered.op2 ref h (omega (arith, inv.bound)) k));
              })
        go (removed gone unmarked pure) =
            goes gone (not_marked (Bool-cases (irt_ismarked (orig ref).t)))
              (Same-sideeff before ∙ pure)
          where
            not_marked :
                (irt_ismarked (orig ref).t ≡ true) ⊎ (irt_ismarked (orig ref).t ≡ false)
                → irt_ismarked (orig ref).t ≡ false
            not_marked (inl m) = cc (unmarked, inv.todo_marks ref (omega arith) m)
            not_marked (inr n) = n

    round-Inv : Inv (suc ref) s → ref_first ≤ ref → Inv ref (dce_round s ref)
    round-Inv inv h = record {
      bound = omega (arith, inv.bound);
      todo = λ r l. Same-trans (inv.todo r (omega arith)) (frame.same r (λ e. omega arith));
      todo_marks = λ r l m. frame.marks r (λ e. omega arith) (inv.todo_marks r (omega arith) m);
      done = λ r k l m. elim (ℕ_discrete r ref) [
        | yes e ↦ rw e (this-Done inv h)
        | no n ↦ round-Done r inv (inv.done r k (omega arith) m) (omega arith)
      ];
    }
      where
        frame : Frame ref s.ir (dce_round s ref).ir
        frame = dce_round-Frame s ref

  loop-Inv : (n : ℕ) (s : Propagate) → Inv (n + ref_first) s → Inv ref_first (dce_loop n s)
  unfolding dce_loop
  loop-Inv zero s inv = subst (λ (b : ℕ). Inv b s) (omega arith) inv
  loop-Inv (suc n) s inv = loop-Inv n (dce_round s (ref_first + n)) (
      subst (λ (b : ℕ). Inv b (dce_round s (ref_first + n))) (omega arith)
        (round-Inv s (ref_first + n) (subst (λ (b : ℕ). Inv b s) (omega arith) inv) (omega arith)))

  start-Inv : (chain : ℕ → ℕ) → Inv nins (record { ir = orig; chain = chain; pchain = λ o. root o })
  start-Inv chain = record {
    bound = omega arith;
    todo = λ r l. Same-refl (orig r);
    todo_marks = λ r l m. m;
    done = λ r h l k. absurd (omega arith);
  }

  Done-IsKept :
      (s : Propagate) (r : ℕ) → Done ref_first s r → IsKept orig s.ir r ⊎ Same nop (s.ir r)
  Done-IsKept s r (stays h a b) =
      inl (record { here = h; op1 = λ k. (a k).above k; op2 = λ k. (b k).above k })
  Done-IsKept s r (goes h m e) = inr h

  Done-marked :
      (s : Propagate) (r : ℕ)
      → Done ref_first s r
      → (irt_ismarked (orig r).t ≡ true) ⊎ (ir_sideeff (orig r) ≡ true)
      → IsKept orig s.ir r
  Done-marked s r (stays h a b) l = record {
    here = h;
    op1 = λ k. (a k).above k;
    op2 = λ k. (b k).above k;
  }
  Done-marked s r (goes h m e) (inl l) = cc
  Done-marked s r (goes h m e) (inr l) = cc

  -- When operands come before their instructions, `dce_propagate` keeps every marked instruction
  -- and every one with side effects, with all operands of what it keeps; the rest are NOPs.
  pub dce_propagate-KeepsLive :
      (chain : ℕ → ℕ) → ref_first ≤ nins → KeepsLive orig (dce_propagate orig chain nins).ir nins
  unfolding dce_propagate
  dce_propagate-KeepsLive chain h = record {
    marked = λ r a b m. Done-marked end r (inv.done r a a b) (inl m);
    effect = λ r a b e. Done-marked end r (inv.done r a a b) (inr e);
    rest = λ r a b. Done-IsKept end r (inv.done r a a b);
  }
    where
      begin : Propagate
      begin = record { ir = orig; chain = chain; pchain = λ o. root o }

      end : Propagate
      end = dce_loop (nins - ref_first) begin

      inv : Inv ref_first end
      inv =
          loop-Inv (nins - ref_first) begin
            (subst (λ (b : ℕ). Inv b begin) (omega arith) (start-Inv chain))

-- ===== src/Dce/Safe.antt =====
-- `lj_opt_dce` as a whole: what snapshots and side effects need.
use qyz_client_lua.Base.{
  ℕ, zero, suc, ◌+◌, ◌<◌, ◌≤◌, ◌%◌, ◌≡◌, ◌⊎◌, inl, inr, sym, subst, ◌∙◌, Bool, true, false, List,
  [], ◌∷◌, All, arith, if◌then◌else◌,
}
use qyz_client_lua.Ir.{IrIns, ref_first, irt_ismarked, ir_sideeff}
use qyz_client_lua.Dce.{
  SnapShot, JitState, no_entries, mark_ref, mark_entries, dce_marksnap, dce_propagate, nop,
  lj_opt_dce,
}
use qyz_client_lua.Dce.Rounds.{
  Same, Same-refl, Same-trans, Same-sideeff, Grows, Grows-refl, Grows-trans, mark_ref-Grows,
  mark_ref-marked,
}
use qyz_client_lua.Dce.Live.{IsOrdered, IsKept, KeepsLive, dce_propagate-KeepsLive}

mark_entries-Grows : (map : ℕ → ℕ) (ofs n : ℕ) (f : ℕ → IrIns) → Grows f (mark_entries map ofs n f)
unfolding mark_entries
mark_entries-Grows map ofs zero f = Grows-refl f
mark_entries-Grows map ofs (suc n) f =
    Grows-trans (mark_ref-Grows f (map ofs % 65536))
      (mark_entries-Grows map (ofs + 1) n (mark_ref f (map ofs % 65536)))

mark_entries-marked :
    (map : ℕ → ℕ) (ofs n : ℕ) (f : ℕ → IrIns) (i : ℕ)
    → i < n
    → ref_first ≤ map (ofs + i) % 65536
    → irt_ismarked (mark_entries map ofs n f (map (ofs + i) % 65536)).t ≡ true
unfolding mark_entries
mark_entries-marked map ofs zero f i l h = absurd (omega arith)
mark_entries-marked map ofs (suc n) f zero l h =
    let here : ofs + 0 ≡ ofs = omega arith in
    rw here (
      (mark_entries-Grows map (ofs + 1) n (mark_ref f (map ofs % 65536))).marks (map ofs % 65536)
        (mark_ref-marked f (map ofs % 65536) (rw here at h)))
mark_entries-marked map ofs (suc n) f (suc i) l h =
    let there : ofs + suc i ≡ ofs + 1 + i = omega arith in
    rw there (
      mark_entries-marked map (ofs + 1) n (mark_ref f (map ofs % 65536)) i (omega arith)
        (rw there at h))

dce_marksnap-Grows :
    (map : ℕ → ℕ) (ss : List SnapShot) (f : ℕ → IrIns) → Grows f (dce_marksnap map ss f)
unfolding dce_marksnap
dce_marksnap-Grows map [] f = Grows-refl f
dce_marksnap-Grows map (s ∷ ss) f =
    Grows-trans (mark_entries-Grows map s.mapofs s.nent f) (dce_marksnap-Grows map ss _)

-- Something holds at each reference of a snapshot to an instruction.
abbrev pub AtEntries : (ℕ → ℕ) → (ℕ → Type 0) → SnapShot → Type 0
AtEntries map P s =
    (i : ℕ) → i < s.nent → ref_first ≤ map (s.mapofs + i) % 65536 → P (map (s.mapofs + i) % 65536)

dce_marksnap-marked :
    (map : ℕ → ℕ) (ss : List SnapShot) (f : ℕ → IrIns)
    → All (AtEntries map (λ r. irt_ismarked (dce_marksnap map ss f r).t ≡ true)) ss
unfolding dce_marksnap
dce_marksnap-marked map [] f = tt
dce_marksnap-marked map (s ∷ ss) f = (
  λ i l h.
      (dce_marksnap-Grows map ss (mark_entries map s.mapofs s.nent f)).marks
        (map (s.mapofs + i) % 65536) (mark_entries-marked map s.mapofs s.nent f i l h),
  dce_marksnap-marked map ss (mark_entries map s.mapofs s.nent f),
)

All-map :
    {P Q : SnapShot → Type 0} (ss : List SnapShot)
    → ((s : SnapShot) → P s → Q s)
    → All P ss
    → All Q ss
All-map [] f h = tt
All-map (s ∷ ss) f h = (f s h.0, All-map ss f h.1)

-- Every instruction that a snapshot refers to stays, every one with side effects too, with their
-- operands; each of the rest stays with its operands or is a NOP.
pub record IsSafe (j k : JitState) : Type 0 where
  pub snap : All (AtEntries j.snapmap (λ r. r < j.nins → IsKept j.ir k.ir r)) j.snap
  pub effect :
      (r : ℕ) → ref_first ≤ r → r < j.nins → ir_sideeff (j.ir r) ≡ true → IsKept j.ir k.ir r
  pub rest : (r : ℕ) → ref_first ≤ r → r < j.nins → IsKept j.ir k.ir r ⊎ Same nop (k.ir r)

IsKept-refl : (f : ℕ → IrIns) (r : ℕ) → IsKept f f r
IsKept-refl f r = record {
  here = Same-refl (f r);
  op1 = λ h. Same-refl (f (f r).op1);
  op2 = λ h. Same-refl (f (f r).op2);
}

-- Marks do not matter to what stays.
IsKept-Grows : {f g h : ℕ → IrIns} {r : ℕ} → Grows f g → IsKept g h r → IsKept f h r
IsKept-Grows {f} {g} {h} {r} w k = record {
  here = Same-trans (w.same r) k.here;
  op1 = λ l.
      Same-trans (w.same (f r).op1)
        (subst (λ (x : ℕ). Same (g x) (h x)) (sym (w.same r).op1) (k.op1 (rw (w.same r).op1 at l)));
  op2 = λ l.
      Same-trans (w.same (f r).op2)
        (subst (λ (x : ℕ). Same (g x) (h x)) (sym (w.same r).op2) (k.op2 (rw (w.same r).op2 at l)));
}

IsOrdered-Grows : {f g : ℕ → IrIns} {n : ℕ} → Grows f g → IsOrdered f n → IsOrdered g n
IsOrdered-Grows {f} {g} w o = record {
  op1 = λ r a b l. rw (sym (w.same r).op1) (o.op1 r a b (rw (sym (w.same r).op1) at l));
  op2 = λ r a b l. rw (sym (w.same r).op2) (o.op2 r a b (rw (sym (w.same r).op2) at l));
}

All-unit : (ss : List SnapShot) → All (λ s. Unit {0}) ss
All-unit [] = tt
All-unit (s ∷ ss) = (tt, All-unit ss)

-- Where operands come before their instructions, the optimised trace has every instruction that a
-- snapshot refers to and every one with side effects, with all operands; what it loses is a NOP.
-- With the optimisation off nothing changes.
pub lj_opt_dce-IsSafe :
    (j : JitState) → IsOrdered j.ir j.nins → ref_first ≤ j.nins → IsSafe j (lj_opt_dce j)
unfolding lj_opt_dce
lj_opt_dce-IsSafe j o h = go j.opt_dce
  where
    marked : ℕ → IrIns
    marked = dce_marksnap j.snapmap j.snap j.ir

    grows : Grows j.ir marked
    grows = dce_marksnap-Grows j.snapmap j.snap j.ir

    live : KeepsLive marked (dce_propagate marked j.chain j.nins).ir j.nins
    live = dce_propagate-KeepsLive marked j.nins (IsOrdered-Grows grows o) j.chain h

    rest_of :
        (r : ℕ)
        → (IsKept marked (dce_propagate marked j.chain j.nins).ir r
            ⊎ Same nop ((dce_propagate marked j.chain j.nins).ir r))
        → IsKept j.ir (dce_propagate marked j.chain j.nins).ir r
          ⊎ Same nop ((dce_propagate marked j.chain j.nins).ir r)
    rest_of r (inl k) = inl (IsKept-Grows grows k)
    rest_of r (inr k) = inr k

    go :
        (b : Bool)
        → IsSafe j (
            if b
            then record j {
              ir = (dce_propagate marked j.chain j.nins).ir;
              chain = (dce_propagate marked j.chain j.nins).chain;
              bpropcache = no_entries;
            }
            else j)
    go true = record {
      snap =
          All-map j.snap
            (λ (s : SnapShot) (m : AtEntries j.snapmap (λ r. irt_ismarked (marked r).t ≡ true) s) i
                l a b.
              IsKept-Grows grows (live.marked (j.snapmap (s.mapofs + i) % 65536) a b (m i l a)))
            (dce_marksnap-marked j.snapmap j.snap j.ir);
      effect =
          λ r a b e. IsKept-Grows grows (live.effect r a b (sym (Same-sideeff (grows.same r)) ∙ e));
      rest = λ r a b. rest_of r (live.rest r a b);
    }
    go false = record {
      snap =
          All-map j.snap
            (λ (s : SnapShot) (u : Unit {0}) i l a b.
              IsKept-refl j.ir (j.snapmap (s.mapofs + i) % 65536))
            (All-unit j.snap);
      effect = λ r a b e. IsKept-refl j.ir r;
      rest = λ r a b. inl (IsKept-refl j.ir r);
    }

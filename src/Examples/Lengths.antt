-- ===== src/Examples/Lengths.antt =====
-- Table lengths of luajit/lj_tab.c on a concrete table.
use qyz_client_lua.Base.{ℕ, ◌≤◌, ◌≡◌, refl, false, true, [], ◌∷◌, some, arith, ltb}
use qyz_client_lua.TabLen.{Tab, present, array_loop, lj_tab_len}
use qyz_client_lua.TabLen.Boundary.{Finds, lj_tab_len-Finds}

-- Slots 0 to 4, of which 1 and 2 have values.
abbrev slots : Tab
slots = record { array = false ∷ true ∷ true ∷ false ∷ false ∷ []; hmask = 0; hash = λ k. false }

slots-end : (k : ℕ) → 5 ≤ k → present slots k ≡ false
unfolding present
slots-end k h = let outside : ltb k 5 ≡ false = ground arith in rw outside refl

lj_tab_len-Finds_example : Finds (present slots) (lj_tab_len 6 slots)
lj_tab_len-Finds_example = lj_tab_len-Finds slots 5 slots-end (omega arith) (λ e k. refl)

length_two : lj_tab_len 6 slots ≡ some 2
unfolding lj_tab_len present array_loop
length_two = refl

-- ===== src/Examples/Sizes.antt =====
-- `bestasize` of luajit/lj_tab.c on concrete inputs.
use qyz_client_lua.Base.{ℕ, zero, suc, ◌≤◌, ◌≡◌, refl, some, arith}
use qyz_client_lua.TabSize.{best_loop, bestasize}
use qyz_client_lua.TabSize.Best.{IsBest, keys_below, bestasize-IsBest}

-- The keys 1, 2, 3, and one far off.
abbrev few : ℕ → ℕ
few zero = 2
few (suc zero) = 1
few (suc (suc zero)) = 0
few (suc (suc (suc zero))) = 0
few (suc (suc (suc (suc zero)))) = 1
few (suc (suc (suc (suc (suc i))))) = 0

few-keys_below : (n : ℕ) → keys_below few n ≤ 4
unfolding keys_below
few-keys_below zero = omega arith
few-keys_below (suc zero) = omega arith
few-keys_below (suc (suc zero)) = omega arith
few-keys_below (suc (suc (suc zero))) = omega arith
few-keys_below (suc (suc (suc (suc zero)))) = omega arith
few-keys_below (suc (suc (suc (suc (suc zero))))) = omega arith
few-keys_below (suc (suc (suc (suc (suc (suc i)))))) =
    omega (arith, few-keys_below (suc (suc (suc (suc (suc i))))))

bestasize-IsBest_example :
    (r : ℕ × ℕ) × (bestasize few 4 ≡ some r) × ((limit : ℕ) → IsBest (keys_below few) limit r)
bestasize-IsBest_example = bestasize-IsBest few 4 few-keys_below (omega arith)

-- Slots 0 to 4, for the keys 1 to 3.
four_slots : bestasize few 4 ≡ some (5, 3)
unfolding bestasize best_loop
four_slots = refl

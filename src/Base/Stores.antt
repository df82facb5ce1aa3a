-- ===== src/Base/Stores.antt =====
-- Memory as a function of the address.
use Prim.Native.Nat.{ℕ}
use mathlib.Core.Path.{◌≡◌, refl}
use mathlib.Core.Logic.{◌≢◌}
use mathlib.Core.Bool.{false}
use native.Mathlib.Omega.{arith}
use qyz_client_lua.Base.Tests.{◌==◌, ==_refl, if◌then◌else◌}

module _ {ℓ} {A : Type ℓ} where
  abbrev pub put : (ℕ → A) → ℕ → A → ℕ → A
  put f p v q = if p == q then v else f q

  pub put_self : (f : ℕ → A) (p : ℕ) (v : A) → put f p v p ≡ v
  put_self f p v = rw (==_refl p) refl

  pub put_other : (f : ℕ → A) (p q : ℕ) (v : A) → q ≢ p → put f p v q ≡ f q
  put_other f p q v n = let other : (p == q) ≡ false = ground arith in rw other refl

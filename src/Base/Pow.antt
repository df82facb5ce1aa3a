-- ===== src/Base/Pow.antt =====
-- Powers, and products modulo a number.
use native.Mathlib.Nat.{
  pow-zero, pow-suc, add-mul-mod_self_left, mod-add-div, mul_comm, zero-add, suc-add, one-mul,
}
use qyz_client_lua.Base.{ℕ, zero, suc, ◌+◌, ◌*◌, ◌/◌, ◌%◌, ◌^◌, ◌≡◌, sym, ap, ◌∙◌, arith}

pub pow-add : (b m n : ℕ) → b ^ (m + n) ≡ b ^ m * b ^ n
pow-add b zero n = rw (zero-add n, pow-zero b, one-mul (b ^ n))
pow-add b (suc m) n =
    rw (suc-add m n, pow-suc b (m + n), pow-suc b m)
      (omega (arith, ap (λ (t : ℕ). t * b) (pow-add b m n)))

pub pow-double : (b k : ℕ) → (b * b) ^ k ≡ b ^ (2 * k)
pow-double b zero = rw (pow-zero (b * b)) (sym (pow-zero b))
pow-double b (suc k) =
    rw (pow-suc (b * b) k, double_suc k, pow-suc b (suc (2 * k)), pow-suc b (2 * k), pow-double b k)
      (omega arith)
  where
    double_suc : (k : ℕ) → 2 * suc k ≡ suc (suc (2 * k))
    double_suc k = omega arith

pub mul-mod_left : (m a b : ℕ) → a % m * b % m ≡ a * b % m
mul-mod_left m a b =
    sym (add-mul-mod_self_left (a % m * b) m (a / m * b))
    ∙ ap (λ (t : ℕ). t % m) (omega (arith, ap (λ (t : ℕ). t * b) (mod-add-div a m)))

pub mul-mod_right : (m a b : ℕ) → a * (b % m) % m ≡ a * b % m
mul-mod_right m a b = rw (mul_comm a (b % m), mul-mod_left m b a, mul_comm b a)

pub pow-mod : (m a k : ℕ) → (a % m) ^ k % m ≡ a ^ k % m
pow-mod m a zero = rw (pow-zero (a % m)) (ap (λ (t : ℕ). t % m) (sym (pow-zero a)))
pow-mod m a (suc k) =
    rw (pow-suc (a % m) k, pow-suc a k, mul-mod_right m ((a % m) ^ k) a)
      (sym (mul-mod_left m ((a % m) ^ k) a)
        ∙ ap (λ (t : ℕ). t * a % m) (pow-mod m a k)
        ∙ mul-mod_left m (a ^ k) a)

pub pow-one : (b : ℕ) → b ^ 1 ≡ b
pow-one b = rw (pow-suc b 0, pow-zero b, one-mul b)

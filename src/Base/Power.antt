-- ===== src/Base/Power.antt =====
-- Powers of two, and quotients by their products.
use Prim.Native.Nat.{ℕ, zero, suc, ◌+◌, ◌-◌, ◌*◌, ◌/◌, ◌%◌, ◌^◌, ◌≤◌, ◌<◌}
use mathlib.Core.Path.{◌≡◌, ap}
use native.Mathlib.Nat.{
  pow-suc, one-le-pow, div-eq_of_lt-le, mod-eq_of_lt, div-add-mod, add-mul-mod_self_right,
}
use native.Mathlib.Decide.{dec_lt}
use native.Mathlib.Omega.{arith}

pub pow_two_suc : (k : ℕ) → 2 ^ suc k ≡ 2 * 2 ^ k
pow_two_suc k = omega (arith, pow-suc 2 k)

pub pow_two_pos : (k : ℕ) → 0 < 2 ^ k
pow_two_pos k = one-le-pow k 2 (omega arith)

pub pow_two_add : (a b : ℕ) → 2 ^ (a + b) ≡ 2 ^ a * 2 ^ b
pow_two_add zero b = rw (ap (λ (n : ℕ). 2 ^ n) (let e : 0 + b ≡ b = omega arith in e)) (omega arith)
pow_two_add (suc a) b =
    let e : suc a + b ≡ suc (a + b) = omega arith in
    rw (e, pow_two_suc (a + b), pow_two_suc a, pow_two_add a b) (omega arith)

pub pow_two_split : (a b c : ℕ) → a + b ≡ c → 2 ^ c ≡ 2 ^ a * 2 ^ b
pow_two_split a b c e = rw (← e) (pow_two_add a b)

-- The two fields of a number `q * m + r`.
pub div_fields : (q m r : ℕ) → r < m → (q * m + r) / m ≡ q
div_fields q m r h = div-eq_of_lt-le {k = q} m (omega arith) (omega arith)

pub mod_fields : (q m r : ℕ) → r < m → (q * m + r) % m ≡ r
mod_fields q m r h =
    let e : q * m + r ≡ r + q * m = omega arith in
    rw (e, add-mul-mod_self_right r q m) (mod-eq_of_lt h)

-- A shift to the left that drops the bits above `2 ^ (a + b)`.
pub mul-mod_mul : (x a b : ℕ) → 0 < a → 0 < b → x * b % (a * b) ≡ x % a * b
mul-mod_mul x a b ha hb =
    let e : x * b ≡ x / a * (a * b) + x % a * b =
      omega (arith, ap (λ (t : ℕ). t * b) (div-add-mod x a)) in
    let h : x % a * b < a * b = grind arith in rw e (mod_fields (x / a) (a * b) (x % a * b) h)

pub pred-mul : (a b : ℕ) → 0 < a → (a - 1) * b + b ≡ a * b
pred-mul zero b h = absurd (omega arith)
pred-mul (suc a) b h = let e : suc a - 1 ≡ a = omega arith in rw e (omega arith)

pub pow_two_mono : (a b : ℕ) → a ≤ b → 2 ^ a ≤ 2 ^ b
pow_two_mono a b h =
    let split : 2 ^ b ≡ 2 ^ (b - a) * 2 ^ a = pow_two_split (b - a) a b (omega arith) in
    let pos : 0 < 2 ^ (b - a) = pow_two_pos (b - a) in grind arith

pub lt_of_pow_two_lt : (a b : ℕ) → 2 ^ a < 2 ^ b → a < b
lt_of_pow_two_lt a b h = elim (dec_lt a b) [
  | yes p ↦ p
  | no p ↦ absurd (omega (arith, pow_two_mono b a (omega arith)))
]

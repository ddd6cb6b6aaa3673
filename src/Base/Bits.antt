-- ===== src/Base/Bits.antt =====
-- `|` of disjoint fields, and `&` with masks of ones, as arithmetic at every width.
-- The native operations mean a recursion on binary digits with fuel; here is its step.
use Prim.Native.Nat.{digits, bitwise, bit_and-bitwise, bit_or-bitwise}
use native.Mathlib.Nat.{le_refl}
use glgrab.Base.{
  ℕ, zero, suc, ◌+◌, ◌-◌, ◌*◌, ◌/◌, ◌%◌, ◌^◌, ◌≤◌, ◌<◌, min, max, bit_and, bit_or, ◌≡◌, refl, ap,
  arith, pow_two_suc, pow_two_pos,
}

module _ (z : ℕ → ℕ) (f : ℕ → ℕ → ℕ) where
  fuel_free : (n m a b : ℕ) → a ≤ n → a ≤ m → digits z f n a b ≡ digits z f m a b
  fuel_free zero zero a b p q = refl
  fuel_free zero (suc m) zero b p q = refl
  fuel_free zero (suc m) (suc a) b p q = absurd (omega arith)
  fuel_free (suc n) zero zero b p q = refl
  fuel_free (suc n) zero (suc a) b p q = absurd (omega arith)
  fuel_free (suc n) (suc m) zero b p q = refl
  fuel_free (suc n) (suc m) (suc a) b p q =
      rw (fuel_free n m (suc a / 2) (b / 2) (omega arith) (omega arith))

  digit_step :
      (a b : ℕ)
      → bitwise z f (suc a) b ≡ bitwise z f (suc a / 2) (b / 2) * 2 + f (suc a % 2) (b % 2)
  digit_step a b =
      omega (arith, fuel_free a (suc a / 2) (suc a / 2) (b / 2) (omega arith) (le_refl _))

pub bit_or_digit : (a b : ℕ) → bit_or a b ≡ bit_or (a / 2) (b / 2) * 2 + max (a % 2) (b % 2)
bit_or_digit zero b = simp bit_or-bitwise (omega arith)
bit_or_digit (suc a) b = simp bit_or-bitwise (digit_step (λ y. y) max a b)

pub bit_and_digit : (a b : ℕ) → bit_and a b ≡ bit_and (a / 2) (b / 2) * 2 + min (a % 2) (b % 2)
bit_and_digit zero b = simp bit_and-bitwise (omega arith)
bit_and_digit (suc a) b = simp bit_and-bitwise (digit_step (λ y. 0) min a b)

pub bit_or-zero_fuel : (n a : ℕ) → a ≤ n → bit_or a 0 ≡ a
bit_or-zero_fuel n zero h = refl
bit_or-zero_fuel zero (suc a) h = absurd (omega arith)
bit_or-zero_fuel (suc n) (suc a) h =
    omega (arith, bit_or_digit (suc a) 0, bit_or-zero_fuel n (suc a / 2) (omega arith))

-- A field of `k` low bits joined to the bits above it is a sum.
pub bit_or_disjoint : (k q r : ℕ) → r < 2 ^ k → bit_or (q * 2 ^ k) r ≡ q * 2 ^ k + r
bit_or_disjoint zero q r h =
    let e : r ≡ 0 = omega arith in
    let one : q * 2 ^ 0 ≡ q = omega arith in
    rw (e, one) (omega (arith, bit_or-zero_fuel q q (le_refl q)))
bit_or_disjoint (suc k) q r h = ground (
  arith,
  pow_two_suc k,
  ap (λ (t : ℕ). q * t) (pow_two_suc k),
  bit_or_digit (q * 2 ^ suc k) r,
  bit_or_disjoint k q (r / 2) (omega (arith, pow_two_suc k)),
)

-- A mask of `n` ones keeps a number below `2 ^ n`.
pub bit_and_ones : (n a : ℕ) → a < 2 ^ n → bit_and a (2 ^ n - 1) ≡ a
bit_and_ones zero a h = let e : a ≡ 0 = omega arith in rw e refl
bit_and_ones (suc n) a h = ground (
  arith,
  pow_two_suc n,
  pow_two_pos n,
  bit_and_digit a (2 ^ suc n - 1),
  bit_and_ones n (a / 2) (omega (arith, pow_two_suc n)),
)

-- A mask of `n` ones over `k` zeros clears the `k` low bits.
pub bit_and_high :
    (n k q r : ℕ)
    → q < 2 ^ n
    → r < 2 ^ k
    → bit_and (q * 2 ^ k + r) ((2 ^ n - 1) * 2 ^ k) ≡ q * 2 ^ k
bit_and_high n zero q r hq hr =
    let e : q * 2 ^ 0 + r ≡ q = omega arith in
    let m : (2 ^ n - 1) * 2 ^ 0 ≡ 2 ^ n - 1 = omega arith in
    rw (e, m) (omega (arith, bit_and_ones n q hq))
bit_and_high n (suc k) q r hq hr = ground (
  arith,
  ap (λ (t : ℕ). q * t) (pow_two_suc k),
  ap (λ (t : ℕ). (2 ^ n - 1) * t) (pow_two_suc k),
  bit_and_digit (q * 2 ^ suc k + r) ((2 ^ n - 1) * 2 ^ suc k),
  bit_and_high n k q (r / 2) hq (omega (arith, pow_two_suc k)),
)

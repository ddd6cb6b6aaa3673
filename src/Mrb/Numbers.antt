-- ===== src/Mrb/Numbers.antt =====
-- `roundup` (mrb_int.h) and `ilog` (mrb_write.c) against what they are for.
use glgrab.Base.{
  ℕ, zero, suc, ◌+◌, ◌-◌, ◌*◌, ◌/◌, ◌%◌, ◌^◌, ◌≤◌, ◌<◌, ◌≡◌, ap, sym, arith, ◌==◌, Bool-cases, inl,
  inr, pow_two_suc, pow_two_pos, pow_two_split, pow_two_mono, lt_of_pow_two_lt, pred-mul, bit_and,
  ◌∙◌,
}
use glgrab.Base.Bits.{bit_and_high}
use glgrab.Mrb.{roundup, ilog_loop, ilog}
use native.Mathlib.Nat.{div-add-mod', mul-mod_left}

mask_fields :
    (x s : ℕ) → s ≤ 64 → x < 2 ^ 64 → bit_and x (2 ^ 64 - 1 - (2 ^ s - 1)) ≡ x / 2 ^ s * 2 ^ s
mask_fields x s hs h =
    let n = 64 - s in
    let P = 2 ^ s in
    let split : 2 ^ 64 ≡ 2 ^ n * P = pow_two_split n s 64 (omega arith) in
    let pos : 0 < P = pow_two_pos s in
    let mask : 2 ^ 64 - 1 - (P - 1) ≡ (2 ^ n - 1) * P =
      omega (arith, pred-mul (2 ^ n) P (pow_two_pos n)) in
    let parts : x ≡ x / P * P + x % P = sym (div-add-mod' x P) in
    let small : x / P < 2 ^ n = grind arith in
    ap (λ (t : ℕ). bit_and t (2 ^ 64 - 1 - (P - 1))) parts
    ∙ ap (λ (t : ℕ). bit_and (x / P * P + x % P) t) mask
    ∙ bit_and_high n s (x / P) (x % P) small (omega arith)

pub roundup_fields :
    (a s : ℕ) → s ≤ 16 → a + (2 ^ s - 1) < 2 ^ 64 → roundup a s ≡ (a + (2 ^ s - 1)) / 2 ^ s * 2 ^ s
unfolding roundup
roundup_fields a s hs h =
    let split : 2 ^ 16 ≡ 2 ^ (16 - s) * 2 ^ s = pow_two_split (16 - s) s 16 (omega arith) in
    let one : 0 < 2 ^ (16 - s) = pow_two_pos (16 - s) in
    let le : 2 ^ s ≤ 2 ^ 16 = grind arith in
    let pos : 0 < 2 ^ s = pow_two_pos s in
    let m : (2 ^ s - 1) % 2 ^ 16 ≡ 2 ^ s - 1 = omega arith in
    let x : (a + (2 ^ s - 1)) % 2 ^ 64 ≡ a + (2 ^ s - 1) = omega arith in
    rw (m, x) (mask_fields (a + (2 ^ s - 1)) s (omega arith) h)

-- For `s` up to 16, and as long as the sum does not wrap, `roundup a s` is the least multiple of
-- `2 ^ s` that is not below `a`.
pub roundup_least :
    (a s : ℕ)
    → s ≤ 16
    → a + (2 ^ s - 1) < 2 ^ 64
    → (roundup a s % 2 ^ s ≡ 0) × (a ≤ roundup a s) × (roundup a s < a + 2 ^ s)
roundup_least a s hs h =
    let e = roundup_fields a s hs h in
    let P = 2 ^ s in
    let x = a + (P - 1) in
    let pos : 0 < P = pow_two_pos s in
    let parts : x / P * P + x % P ≡ x = div-add-mod' x P in
    let low : x % P < P = omega arith in (rw e (mul-mod_left (x / P) P), omega arith, omega arith)

ilog_loop_bounds :
    (fuel a l : ℕ)
    → 0 < a
    → a < 2 ^ fuel
    → l + fuel ≤ 64
    → (k : ℕ) × (ilog_loop fuel a l ≡ l + k) × (k < fuel) × (2 ^ k ≤ a) × (a < 2 ^ suc k)
unfolding ilog_loop
ilog_loop_bounds zero a l ha hf hl = absurd (omega arith)
ilog_loop_bounds (suc fuel) a l ha hf hl = elim (Bool-cases (a / 2 == 0)) [
  | inl e ↦ (0, rw e (omega arith), omega arith, omega arith, ground arith)
  | inr e ↦
      let (k, r, lt, lo, hi) =
        ilog_loop_bounds fuel (a / 2) (l + 1) (ground arith) (omega (arith, pow_two_suc fuel))
          (omega arith) in
      let w : (l + 1) % 2 ^ 16 ≡ l + 1 = omega arith in
      (
        suc k,
        rw (e, w) (omega (arith, r)),
        omega arith,
        omega (arith, pow_two_suc k),
        omega (arith, pow_two_suc (suc k)),
      )
]

-- Of a positive uint64_t, `ilog` is the index of the highest bit that is set: its loop ends within
-- 64 rounds.
pub ilog_bounds :
    (a : ℕ) → 0 < a → a < 2 ^ 64 → (ilog a < 64) × (2 ^ ilog a ≤ a) × (a < 2 ^ suc (ilog a))
unfolding ilog
ilog_bounds a ha h =
    let (k, r, lt, lo, hi) = ilog_loop_bounds 64 a 0 ha h (omega arith) in
    let e : ilog_loop 64 a 0 ≡ k = omega (arith, r) in rw e (lt, lo, hi)

pub ilog-pow : (k : ℕ) → k < 64 → ilog (2 ^ k) ≡ k
ilog-pow k h =
    let a = 2 ^ k in
    let pos : 0 < a = pow_two_pos k in
    let word : 2 ^ suc k ≤ 2 ^ 64 = pow_two_mono (suc k) 64 h in
    let (_, low, high) = ilog_bounds a pos (omega (arith, pow_two_suc k)) in
    let up : k < suc (ilog a) = lt_of_pow_two_lt k (suc (ilog a)) high in
    let down : ilog a < suc k = lt_of_pow_two_lt (ilog a) (suc k) (omega (arith, pow_two_suc k)) in
    omega arith

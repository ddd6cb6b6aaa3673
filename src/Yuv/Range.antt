-- ===== src/Yuv/Range.antt =====
-- What the conversion makes of one square: the studio range, and averages.
use glgrab.Base.{ℕ, ◌+◌, ◌-◌, ◌/◌, ◌^◌, ◌*◌, ◌≤◌, ◌<◌, ◌≡◌, arith}
use glgrab.Yuv.{
  avg, luma, chroma_u, chroma_v, y_bias, c_bias, kry, kgy, kby, kru, kgu, kbu, krv, kgv, kbv,
}

-- The components of one pixel are bytes.
abbrev pub AreBytes : ℕ → ℕ → ℕ → Type 0
AreBytes a b c = (a < 256) × (b < 256) × (c < 256)

-- Of bytes, luma lies from 16 to 235 and both chromas from 16 to 240, the ranges of the studio
-- swing. No sum of the formulas is below 0 or wraps at 2^16, and no cut to a byte changes a value:
-- each result is the exact sum, divided by 2^7 and rounded down.
pub studio_range :
    (a b c : ℕ)
    → AreBytes a b c
    → let y = y_bias + kry * a + kgy * b + kby * c in
      let u = c_bias + kbu * c - (kru * a + kgu * b) in
      let v = c_bias + krv * a - (kgv * b + kbv * c) in
      ((16 ≤ luma a b c) × (luma a b c ≤ 235) × (y < 2 ^ 16) × (luma a b c ≡ y / 2 ^ 7))
      × ((16 ≤ chroma_u a b c)
          × (chroma_u a b c ≤ 240)
          × (kru * a + kgu * b ≤ c_bias + kbu * c)
          × (u < 2 ^ 16)
          × (chroma_u a b c ≡ u / 2 ^ 7))
      × ((16 ≤ chroma_v a b c)
          × (chroma_v a b c ≤ 240)
          × (kgv * b + kbv * c ≤ c_bias + krv * a)
          × (v < 2 ^ 16)
          × (chroma_v a b c ≡ v / 2 ^ 7))
unfolding luma chroma_u chroma_v
studio_range a b c h = omega arith

-- Equal components have the middle chroma, 128, in both planes.
pub grey_chroma : (a : ℕ) → a < 256 → (chroma_u a a a ≡ 128) × (chroma_v a a a ≡ 128)
unfolding chroma_u chroma_v
grey_chroma a h = omega arith

-- Of bytes, luma grows with each component.
pub luma_mono :
    (a b c a' b' c' : ℕ) → AreBytes a' b' c' → a ≤ a' → b ≤ b' → c ≤ c' → luma a b c ≤ luma a' b' c'
unfolding luma
luma_mono a b c a' b' c' h p q r = omega arith

-- `avg` of bytes is their mean but for the rounding: the halves of the pairs are rounded down,
-- and then the half of their sum up.
pub avg_mean :
    (a b c d : ℕ)
    → (a < 256) × (b < 256) × (c < 256) × (d < 256)
    → (4 * avg a b c d ≤ a + b + c + d + 2)
      × (a + b + c + d ≤ 4 * avg a b c d + 2)
      × (avg a b c d < 256)
unfolding avg
avg_mean a b c d h = omega arith

-- ===== src/Yuv/Simd/Rows.antt =====
-- What the loop over one row of blocks leaves in the output.
use native.Mathlib.Decide.{dec_lt}
use glgrab.Base.{ℕ, zero, suc, ◌+◌, ◌-◌, ◌*◌, ◌<◌, ◌≡◌, refl, ◌∙◌, arith, Bool}
use glgrab.Yuv.Block.{OffRow, RowFits}
use glgrab.Yuv.Simd.{Intrinsics, rgba2yuv420p_32x2, vector_row}
use glgrab.Yuv.Simd.Documented.{AreDocumented}
use glgrab.Yuv.Simd.Block.{IsVectorised, AreAligned, block-unchanged, block-IsVectorised}

-- The six bytes can be read in any output that has them, at the same places.
pub IsVectorised-agree :
    {rgba out : ℕ → ℕ} {p0 p1 y0 y1 u v : ℕ} (out' : ℕ → ℕ)
    → (out' y0 ≡ out y0)
      × (out' (y0 + 1) ≡ out (y0 + 1))
      × (out' y1 ≡ out y1)
      × (out' (y1 + 1) ≡ out (y1 + 1))
      × (out' u ≡ out u)
      × (out' v ≡ out v)
    → IsVectorised rgba out p0 p1 y0 y1 u v
    → IsVectorised rgba out' p0 p1 y0 y1 u v
IsVectorised-agree out' e c = record {
  upper_left = e.0 ∙ c.upper_left;
  upper_right = e.1 ∙ c.upper_right;
  lower_left = e.2 ∙ c.lower_left;
  lower_right = e.3 ∙ c.lower_right;
  blue = e.4 ∙ c.blue;
  red = e.5 ∙ c.red;
}

pub IsVectorised-move :
    {rgba out : ℕ → ℕ} (p0 p1 y0 y1 u v p0' p1' y0' y1' u' v' : ℕ)
    → (p0 ≡ p0') × (p1 ≡ p1') × (y0 ≡ y0') × (y1 ≡ y1') × (u ≡ u') × (v ≡ v')
    → IsVectorised rgba out p0 p1 y0 y1 u v
    → IsVectorised rgba out p0' p1' y0' y1' u' v'
IsVectorised-move p0 p1 y0 y1 u v p0' p1' y0' y1' u' v' (a, b, c, d, e, f) h =
    rw (← a, ← b, ← c, ← d, ← e, ← f) h

next_block :
    (p0 p1 y0 y1 u v : ℕ)
    → AreAligned p0 p1 y0 y1 u v
    → AreAligned (p0 + 128) (p1 + 128) (y0 + 32) (y1 + 32) (u + 16) (v + 16)
next_block p0 p1 y0 y1 u v a = record {
  upper_pixels = omega (arith, a.upper_pixels);
  lower_pixels = omega (arith, a.lower_pixels);
  upper = omega (arith, a.upper);
  lower = omega (arith, a.lower);
  blues = omega (arith, a.blues);
  reds = omega (arith, a.reds);
}

module _ (mm : Intrinsics) (doc : AreDocumented mm) (sse4_1 : Bool) (rgba : ℕ → ℕ)
    (bytes : (j : ℕ) → rgba j < 256) where
  pub vector_row-unchanged :
      (n p0 p1 y0 y1 u v : ℕ) (yuv : ℕ → ℕ)
      → AreAligned p0 p1 y0 y1 u v
      → (j : ℕ) → OffRow (n * 16) y0 y1 u v j
      → vector_row mm sse4_1 n rgba p0 p1 y0 y1 u v yuv j ≡ yuv j
  unfolding vector_row
  vector_row-unchanged zero p0 p1 y0 y1 u v yuv a j h = refl
  vector_row-unchanged (suc n) p0 p1 y0 y1 u v yuv a j h =
      vector_row-unchanged n (p0 + 128) (p1 + 128) (y0 + 32) (y1 + 32) (u + 16) (v + 16)
        (rgba2yuv420p_32x2 mm sse4_1 rgba p0 p1 y0 y1 u v yuv) (next_block p0 p1 y0 y1 u v a) j
        (omega arith)
      ∙ block-unchanged mm doc sse4_1 rgba bytes p0 p1 y0 y1 u v yuv a j (omega arith)

  pub vector_row-IsVectorised :
      (n p0 p1 y0 y1 u v : ℕ) (yuv : ℕ → ℕ)
      → AreAligned p0 p1 y0 y1 u v
      → RowFits (n * 16) y0 y1 u v
      → (i : ℕ) → i < n * 16
      → IsVectorised rgba
          (vector_row mm sse4_1 n rgba p0 p1 y0 y1 u v yuv)
          (p0 + i * 8)
          (p1 + i * 8)
          (y0 + i * 2)
          (y1 + i * 2)
          (u + i * 1)
          (v + i * 1)
  unfolding vector_row
  vector_row-IsVectorised zero p0 p1 y0 y1 u v yuv a fits i low = absurd (omega arith)
  vector_row-IsVectorised (suc n) p0 p1 y0 y1 u v yuv a fits i low =
      let mid = rgba2yuv420p_32x2 mm sse4_1 rgba p0 p1 y0 y1 u v yuv in
      let a' = next_block p0 p1 y0 y1 u v a in
      let keep =
        vector_row-unchanged n (p0 + 128) (p1 + 128) (y0 + 32) (y1 + 32) (u + 16) (v + 16) mid a' in
      let k = i - 16 in
      elim (dec_lt i 16) [
        | yes h ↦
            IsVectorised-agree _
              (
                keep (y0 + i * 2) (omega arith),
                keep (y0 + i * 2 + 1) (omega arith),
                keep (y1 + i * 2) (omega arith),
                keep (y1 + i * 2 + 1) (omega arith),
                keep (u + i * 1) (omega arith),
                keep (v + i * 1) (omega arith),
              )
              (block-IsVectorised mm doc sse4_1 rgba bytes p0 p1 y0 y1 u v yuv a (omega arith) i h)
        | no h ↦
            IsVectorised-move (p0 + 128 + k * 8) (p1 + 128 + k * 8) (y0 + 32 + k * 2)
              (y1 + 32 + k * 2) (u + 16 + k * 1) (v + 16 + k * 1) _ _ _ _ _ _ (omega arith)
              (vector_row-IsVectorised n (p0 + 128) (p1 + 128) (y0 + 32) (y1 + 32) (u + 16) (v + 16)
                mid a' (omega arith) k (omega arith))
      ]

-- ===== src/Yuv/Simd/Frame.antt =====
-- What the loops of the vector version leave in the output.
use glgrab.Base.{ℕ, zero, suc, ◌+◌, ◌*◌, ◌%◌, ◌≤◌, ◌<◌, ◌≡◌, refl, ◌∙◌, arith, Bool}
use glgrab.Yuv.Frame.{PlanesFit, OffPlanes}
use glgrab.Yuv.Simd.{Intrinsics, vector_row, vector_rows, vector_rgba2yuv420p}
use glgrab.Yuv.Simd.Documented.{AreDocumented}
use glgrab.Yuv.Simd.Block.{IsVectorised, AreAligned}
use glgrab.Yuv.Simd.Rows.{
  IsVectorised-agree, IsVectorised-move, vector_row-unchanged, vector_row-IsVectorised,
}

module _ (mm : Intrinsics) (doc : AreDocumented mm) (sse4_1 : Bool) (rgba : ℕ → ℕ)
    (bytes : (j : ℕ) → rgba j < 256) where
  -- The planes and the pixels begin at multiples of 16.
  abbrev IsRowAligned : ℕ → ℕ → ℕ → ℕ → Type 0
  IsRowAligned p0 y0 u v = (p0 % 16 ≡ 0) × (y0 % 16 ≡ 0) × (u % 16 ≡ 0) × (v % 16 ≡ 0)

  row_aligned :
      (n p0 y0 u v : ℕ) → IsRowAligned p0 y0 u v → AreAligned p0 (p0 + n * 128) y0 (y0 + n * 32) u v
  row_aligned n p0 y0 u v (a, b, c, d) = record {
    upper_pixels = a;
    lower_pixels = omega arith;
    upper = b;
    lower = omega arith;
    blues = c;
    reds = d;
  }

  vector_rows-unchanged :
      (rows n p0 y0 u v : ℕ) (yuv : ℕ → ℕ)
      → IsRowAligned p0 y0 u v
      → (j : ℕ) → OffPlanes rows (n * 16) y0 u v j
      → vector_rows mm sse4_1 rows n rgba (n * 128) (n * 32) p0 y0 u v yuv j ≡ yuv j
  unfolding vector_rows
  vector_rows-unchanged zero n p0 y0 u v yuv a j h = refl
  vector_rows-unchanged (suc rows) n p0 y0 u v yuv a j h =
      vector_rows-unchanged rows n (p0 + n * 128 + n * 128) (y0 + n * 32 + n * 32) (u + n * 16)
        (v + n * 16) (vector_row mm sse4_1 n rgba p0 (p0 + n * 128) y0 (y0 + n * 32) u v yuv)
        (omega arith) j (omega arith)
      ∙ vector_row-unchanged mm doc sse4_1 rgba bytes n p0 (p0 + n * 128) y0 (y0 + n * 32) u v yuv
          (row_aligned n p0 y0 u v a) j (omega arith)

  -- The square `i` of the row `r`.
  abbrev pub IsVectorSquare : (ℕ → ℕ) → ℕ → ℕ → ℕ → ℕ → ℕ → ℕ → ℕ → Type 0
  IsVectorSquare out n p0 y0 u v r i =
      IsVectorised rgba out (p0 + r * (n * 16) + i * 8) (p0 + r * (n * 16) + n * 8 + i * 8)
        (y0 + r * (n * 4) + i * 2) (y0 + r * (n * 4) + n * 2 + i * 2) (u + r * n + i * 1)
        (v + r * n + i * 1)

  vector_rows-IsVectorSquare :
      (rows n p0 y0 u v : ℕ) (yuv : ℕ → ℕ)
      → IsRowAligned p0 y0 u v
      → PlanesFit rows (n * 16) y0 u v
      → (r i : ℕ) → r < rows
      → i < n * 16
      → IsVectorSquare
          (vector_rows mm sse4_1 rows n rgba (n * 128) (n * 32) p0 y0 u v yuv)
          (n * 16)
          p0
          y0
          u
          v
          r
          i
  unfolding vector_rows
  vector_rows-IsVectorSquare zero n p0 y0 u v yuv a fits r i lr li = absurd (omega arith)
  vector_rows-IsVectorSquare (suc rows) n p0 y0 u v yuv a fits zero i lr li =
      let mid = vector_row mm sse4_1 n rgba p0 (p0 + n * 128) y0 (y0 + n * 32) u v yuv in
      let keep =
        vector_rows-unchanged rows n (p0 + n * 128 + n * 128) (y0 + n * 32 + n * 32) (u + n * 16)
          (v + n * 16) mid (omega arith) in
      IsVectorised-move (p0 + i * 8) (p0 + n * 128 + i * 8) (y0 + i * 2) (y0 + n * 32 + i * 2)
        (u + i * 1) (v + i * 1) _ _ _ _ _ _ (omega arith)
        (IsVectorised-agree _
          (
            keep (y0 + i * 2) (omega arith),
            keep (y0 + i * 2 + 1) (omega arith),
            keep (y0 + n * 32 + i * 2) (omega arith),
            keep (y0 + n * 32 + i * 2 + 1) (omega arith),
            keep (u + i * 1) (omega arith),
            keep (v + i * 1) (omega arith),
          )
          (vector_row-IsVectorised mm doc sse4_1 rgba bytes n p0 (p0 + n * 128) y0 (y0 + n * 32) u v
            yuv (row_aligned n p0 y0 u v a) (omega arith) i li))
  vector_rows-IsVectorSquare (suc rows) n p0 y0 u v yuv a fits (suc r) i lr li =
      let m = n * 16 in
      let p = p0 + n * 128 + n * 128 in
      let y = y0 + n * 32 + n * 32 in
      IsVectorised-move (p + r * (m * 16) + i * 8) (p + r * (m * 16) + m * 8 + i * 8)
        (y + r * (m * 4) + i * 2) (y + r * (m * 4) + m * 2 + i * 2) (u + m + r * m + i * 1)
        (v + m + r * m + i * 1) _ _ _ _ _ _ (omega arith)
        (vector_rows-IsVectorSquare rows n p y (u + m) (v + m)
          (vector_row mm sse4_1 n rgba p0 (p0 + n * 128) y0 (y0 + n * 32) u v yuv) (omega arith)
          (omega arith) r i (omega arith) li)

  whole_vector_frame :
      (width32 height2 : ℕ) (yuv : ℕ → ℕ)
      → let n = width32 * 16 in
        vector_rgba2yuv420p mm sse4_1 rgba width32 height2 yuv
        ≡ vector_rows mm sse4_1 height2 width32 rgba
            (width32 * 128)
            (width32 * 32)
            0
            0
            (n * height2 * 4)
            (n * height2 * 5)
            yuv
  unfolding vector_rgba2yuv420p
  whole_vector_frame width32 height2 yuv =
      let n = width32 * 16 in
      let c : n * height2 * 4 + n * height2 ≡ n * height2 * 5 = omega arith in rw c refl

  planes_aligned :
      (width32 height2 : ℕ)
      → let n = width32 * 16 in IsRowAligned 0 0 (n * height2 * 4) (n * height2 * 5)
  planes_aligned width32 height2 =
      let k = width32 * height2 in
      let e : width32 * 16 * height2 ≡ k * 16 = omega arith in rw e (omega arith)

  pub vector_rgba2yuv420p-IsVectorSquare :
      (width32 height2 : ℕ) (yuv : ℕ → ℕ) (r i : ℕ)
      → r < height2
      → i < width32 * 16
      → let n = width32 * 16 in
        IsVectorSquare
          (vector_rgba2yuv420p mm sse4_1 rgba width32 height2 yuv)
          n
          0
          0
          (n * height2 * 4)
          (n * height2 * 5)
          r
          i
  vector_rgba2yuv420p-IsVectorSquare width32 height2 yuv r i lr li =
      let n = width32 * 16 in
      rw (whole_vector_frame width32 height2 yuv) (
        vector_rows-IsVectorSquare height2 width32 0 0 (n * height2 * 4) (n * height2 * 5) yuv
          (planes_aligned width32 height2) (omega arith) r i lr li)

  pub vector_rgba2yuv420p-unchanged :
      (width32 height2 : ℕ) (yuv : ℕ → ℕ) (j : ℕ)
      → width32 * height2 * 96 ≤ j
      → vector_rgba2yuv420p mm sse4_1 rgba width32 height2 yuv j ≡ yuv j
  vector_rgba2yuv420p-unchanged width32 height2 yuv j h =
      let n = width32 * 16 in
      rw (whole_vector_frame width32 height2 yuv) (
        vector_rows-unchanged height2 width32 0 0 (n * height2 * 4) (n * height2 * 5) yuv
          (planes_aligned width32 height2) j (omega arith))

-- ===== src/Yuv/Block.antt =====
-- What one row of squares leaves in the output, byte by byte.
use glgrab.Base.{ℕ, zero, suc, ◌+◌, ◌*◌, ◌≤◌, ◌<◌, ◌≡◌, ◌⊎◌, refl, ◌∙◌, arith}
use native.Mathlib.Nat.{add-zero}
use glgrab.Yuv.{luma_at, avg_at, chroma_u, chroma_v, rgba2yuv420p_2x2, convert_row}

-- The six bytes of a square: the luma of its pixels at `p0`, `p0 + 4`, `p1` and `p1 + 4`, and the
-- chroma of their averages.
pub record IsConverted (rgba out : ℕ → ℕ) (p0 p1 y0 y1 u v : ℕ) : Type 0 where
  pub upper_left : out y0 ≡ luma_at rgba p0
  pub upper_right : out (y0 + 1) ≡ luma_at rgba (p0 + 4)
  pub lower_left : out y1 ≡ luma_at rgba p1
  pub lower_right : out (y1 + 1) ≡ luma_at rgba (p1 + 4)
  pub blue : out u ≡ chroma_u (avg_at rgba p0 p1 0) (avg_at rgba p0 p1 1) (avg_at rgba p0 p1 2)
  pub red : out v ≡ chroma_v (avg_at rgba p0 p1 0) (avg_at rgba p0 p1 1) (avg_at rgba p0 p1 2)

-- The `n` squares of a row lie apart in the output: first `y0`, then `y1`, `u` and `v`.
abbrev pub RowFits : ℕ → ℕ → ℕ → ℕ → ℕ → Type 0
RowFits n y0 y1 u v = (y0 + n * 2 ≤ y1) × (y1 + n * 2 ≤ u) × (u + n ≤ v)

-- `j` is none of the bytes of the `n` squares.
abbrev pub OffRow : ℕ → ℕ → ℕ → ℕ → ℕ → ℕ → Type 0
OffRow n y0 y1 u v j =
    ((j < y0) ⊎ (y0 + n * 2 ≤ j))
    × ((j < y1) ⊎ (y1 + n * 2 ≤ j))
    × ((j < u) ⊎ (u + n ≤ j))
    × ((j < v) ⊎ (v + n ≤ j))

module _ (rgba : ℕ → ℕ) (p0 p1 y0 y1 u v : ℕ) (yuv : ℕ → ℕ) where
  square-IsConverted :
      RowFits 1 y0 y1 u v
      → IsConverted rgba (rgba2yuv420p_2x2 rgba p0 p1 y0 y1 u v yuv) p0 p1 y0 y1 u v
  unfolding rgba2yuv420p_2x2
  square-IsConverted h = ground arith

  square-unchanged :
      (j : ℕ) → OffRow 1 y0 y1 u v j → rgba2yuv420p_2x2 rgba p0 p1 y0 y1 u v yuv j ≡ yuv j
  unfolding rgba2yuv420p_2x2
  square-unchanged j h = ground arith

-- The six bytes can be read in any output that has them.
pub IsConverted-agree :
    {rgba out : ℕ → ℕ} {p0 p1 y0 y1 u v : ℕ} (out' : ℕ → ℕ)
    → (out' y0 ≡ out y0)
      × (out' (y0 + 1) ≡ out (y0 + 1))
      × (out' y1 ≡ out y1)
      × (out' (y1 + 1) ≡ out (y1 + 1))
      × (out' u ≡ out u)
      × (out' v ≡ out v)
    → IsConverted rgba out p0 p1 y0 y1 u v
    → IsConverted rgba out' p0 p1 y0 y1 u v
IsConverted-agree out' e c = record {
  upper_left = e.0 ∙ c.upper_left;
  upper_right = e.1 ∙ c.upper_right;
  lower_left = e.2 ∙ c.lower_left;
  lower_right = e.3 ∙ c.lower_right;
  blue = e.4 ∙ c.blue;
  red = e.5 ∙ c.red;
}

pub row-unchanged :
    (n : ℕ) (rgba : ℕ → ℕ) (p0 p1 y0 y1 u v : ℕ) (yuv : ℕ → ℕ) (j : ℕ)
    → OffRow n y0 y1 u v j
    → convert_row n rgba p0 p1 y0 y1 u v yuv j ≡ yuv j
unfolding convert_row
row-unchanged zero rgba p0 p1 y0 y1 u v yuv j h = refl
row-unchanged (suc n) rgba p0 p1 y0 y1 u v yuv j h =
    row-unchanged n rgba (p0 + 8) (p1 + 8) (y0 + 2) (y1 + 2) (u + 1) (v + 1)
      (rgba2yuv420p_2x2 rgba p0 p1 y0 y1 u v yuv) j (omega arith)
    ∙ square-unchanged rgba p0 p1 y0 y1 u v yuv j (omega arith)

step_on : (a i k : ℕ) → a + suc i * k ≡ a + k + i * k
step_on a i k = omega arith

-- The square number `i` of a row that fits is converted, whatever comes behind it.
pub row-IsConverted :
    (n : ℕ) (rgba : ℕ → ℕ) (p0 p1 y0 y1 u v : ℕ) (yuv : ℕ → ℕ)
    → RowFits n y0 y1 u v
    → (i : ℕ) → i < n
    → IsConverted rgba
        (convert_row n rgba p0 p1 y0 y1 u v yuv)
        (p0 + i * 8)
        (p1 + i * 8)
        (y0 + i * 2)
        (y1 + i * 2)
        (u + i * 1)
        (v + i * 1)
unfolding convert_row
row-IsConverted zero rgba p0 p1 y0 y1 u v yuv fits i lt = absurd (omega arith)
row-IsConverted (suc n) rgba p0 p1 y0 y1 u v yuv fits zero lt =
    let mid = rgba2yuv420p_2x2 rgba p0 p1 y0 y1 u v yuv in
    let keep = row-unchanged n rgba (p0 + 8) (p1 + 8) (y0 + 2) (y1 + 2) (u + 1) (v + 1) mid in
    rw (add-zero p0, add-zero p1, add-zero y0, add-zero y1, add-zero u, add-zero v)
      (IsConverted-agree _
        (
          keep y0 (omega arith),
          keep (y0 + 1) (omega arith),
          keep y1 (omega arith),
          keep (y1 + 1) (omega arith),
          keep u (omega arith),
          keep v (omega arith),
        )
        (square-IsConverted rgba p0 p1 y0 y1 u v yuv (omega arith)))
row-IsConverted (suc n) rgba p0 p1 y0 y1 u v yuv fits (suc i) lt =
    rw
      (step_on p0 i 8, step_on p1 i 8, step_on y0 i 2, step_on y1 i 2, step_on u i 1, step_on v i 1)
      (row-IsConverted n rgba (p0 + 8) (p1 + 8) (y0 + 2) (y1 + 2) (u + 1) (v + 1)
        (rgba2yuv420p_2x2 rgba p0 p1 y0 y1 u v yuv) (omega arith) i (omega arith))

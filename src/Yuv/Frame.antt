-- ===== src/Yuv/Frame.antt =====
-- What the whole conversion leaves in the output: every byte of the three planes against the
-- pixels that it stands for.
use glgrab.Base.{ℕ, zero, suc, ◌+◌, ◌*◌, ◌≤◌, ◌<◌, ◌≡◌, ◌⊎◌, refl, ◌∙◌, arith}
use glgrab.Yuv.{convert_row, convert_rows, rgba2yuv420p}
use glgrab.Yuv.Block.{IsConverted, IsConverted-agree, row-unchanged, row-IsConverted}

-- The square `i` of the row `r`, in rows of `n` squares.
abbrev pub IsSquare : (ℕ → ℕ) → (ℕ → ℕ) → ℕ → ℕ → ℕ → ℕ → ℕ → ℕ → ℕ → Type 0
IsSquare rgba out n p0 y0 u v r i =
    IsConverted rgba out (p0 + r * (n * 16) + i * 8) (p0 + r * (n * 16) + n * 8 + i * 8)
      (y0 + r * (n * 4) + i * 2) (y0 + r * (n * 4) + n * 2 + i * 2) (u + r * n + i * 1)
      (v + r * n + i * 1)

-- The planes lie apart.
abbrev pub PlanesFit : ℕ → ℕ → ℕ → ℕ → ℕ → Type 0
PlanesFit rows n y0 u v = (y0 + rows * (n * 4) ≤ u) × (u + rows * n ≤ v)

abbrev pub OffPlanes : ℕ → ℕ → ℕ → ℕ → ℕ → ℕ → Type 0
OffPlanes rows n y0 u v j =
    ((j < y0) ⊎ (y0 + rows * (n * 4) ≤ j))
    × ((j < u) ⊎ (u + rows * n ≤ j))
    × ((j < v) ⊎ (v + rows * n ≤ j))

rows-unchanged :
    (rows n : ℕ) (rgba : ℕ → ℕ) (p0 y0 u v : ℕ) (yuv : ℕ → ℕ) (j : ℕ)
    → OffPlanes rows n y0 u v j
    → convert_rows rows n rgba (n * 8) (n * 2) p0 y0 u v yuv j ≡ yuv j
unfolding convert_rows
rows-unchanged zero n rgba p0 y0 u v yuv j h = refl
rows-unchanged (suc rows) n rgba p0 y0 u v yuv j h =
    rows-unchanged rows n rgba (p0 + n * 8 + n * 8) (y0 + n * 2 + n * 2) (u + n) (v + n)
      (convert_row n rgba p0 (p0 + n * 8) y0 (y0 + n * 2) u v yuv) j (omega arith)
    ∙ row-unchanged n rgba p0 (p0 + n * 8) y0 (y0 + n * 2) u v yuv j (omega arith)

first_row : (a k : ℕ) → a + 0 * k ≡ a
first_row a k = omega arith

next_pixels : (a r n : ℕ) → a + suc r * (n * 16) ≡ a + n * 8 + n * 8 + r * (n * 16)
next_pixels a r n = omega arith

next_lumas : (a r n : ℕ) → a + suc r * (n * 4) ≡ a + n * 2 + n * 2 + r * (n * 4)
next_lumas a r n = omega arith

next_chromas : (a r n : ℕ) → a + suc r * n ≡ a + n + r * n
next_chromas a r n = omega arith

rows-IsSquare :
    (rows n : ℕ) (rgba : ℕ → ℕ) (p0 y0 u v : ℕ) (yuv : ℕ → ℕ)
    → PlanesFit rows n y0 u v
    → (r i : ℕ) → r < rows
    → i < n
    → IsSquare rgba (convert_rows rows n rgba (n * 8) (n * 2) p0 y0 u v yuv) n p0 y0 u v r i
unfolding convert_rows
rows-IsSquare zero n rgba p0 y0 u v yuv fits r i lt_r lt_i = absurd (omega arith)
rows-IsSquare (suc rows) n rgba p0 y0 u v yuv fits zero i lt_r lt_i =
    let mid = convert_row n rgba p0 (p0 + n * 8) y0 (y0 + n * 2) u v yuv in
    let keep =
      rows-unchanged rows n rgba (p0 + n * 8 + n * 8) (y0 + n * 2 + n * 2) (u + n) (v + n) mid in
    rw (first_row p0 (n * 16), first_row y0 (n * 4), first_row u n, first_row v n)
      (IsConverted-agree _
        (
          keep (y0 + i * 2) (omega arith),
          keep (y0 + i * 2 + 1) (omega arith),
          keep (y0 + n * 2 + i * 2) (omega arith),
          keep (y0 + n * 2 + i * 2 + 1) (omega arith),
          keep (u + i * 1) (omega arith),
          keep (v + i * 1) (omega arith),
        )
        (row-IsConverted n rgba p0 (p0 + n * 8) y0 (y0 + n * 2) u v yuv (omega arith) i lt_i))
rows-IsSquare (suc rows) n rgba p0 y0 u v yuv fits (suc r) i lt_r lt_i =
    rw (next_pixels p0 r n, next_lumas y0 r n, next_chromas u r n, next_chromas v r n)
      (rows-IsSquare rows n rgba (p0 + n * 8 + n * 8) (y0 + n * 2 + n * 2) (u + n) (v + n)
        (convert_row n rgba p0 (p0 + n * 8) y0 (y0 + n * 2) u v yuv) (omega arith) r i (omega arith)
        lt_i)

whole_frame :
    (rgba yuv : ℕ → ℕ) (width32 height2 : ℕ)
    → let n = width32 * 16 in
      rgba2yuv420p rgba width32 height2 yuv
      ≡ convert_rows height2 n rgba (n * 8) (n * 2) 0 0 (n * height2 * 4) (n * height2 * 5) yuv
unfolding rgba2yuv420p
whole_frame rgba yuv width32 height2 =
    let n = width32 * 16 in
    let a : width32 * 128 ≡ n * 8 = omega arith in
    let b : width32 * 32 ≡ n * 2 = omega arith in
    let c : n * height2 * 4 + n * height2 ≡ n * height2 * 5 = omega arith in rw (a, b, c)

-- The pixels of a frame, `width32 * 32` to a row and `height2 * 2` rows, all come out: every
-- square of four pixels has its four luma bytes in the first plane, at the place of each pixel,
-- and its two chroma bytes in the planes behind it.
pub rgba2yuv420p-IsSquare :
    (rgba yuv : ℕ → ℕ) (width32 height2 r i : ℕ)
    → r < height2
    → i < width32 * 16
    → let n = width32 * 16 in
      IsSquare rgba
        (rgba2yuv420p rgba width32 height2 yuv)
        n
        0
        0
        (n * height2 * 4)
        (n * height2 * 5)
        r
        i
rgba2yuv420p-IsSquare rgba yuv width32 height2 r i lt_r lt_i =
    let n = width32 * 16 in
    rw (whole_frame rgba yuv width32 height2) (
      rows-IsSquare height2 n rgba 0 0 (n * height2 * 4) (n * height2 * 5) yuv (omega arith) r i
        lt_r lt_i)

-- Behind the three planes, which take 96 bytes for each 32 pixels of two rows, nothing is written.
pub rgba2yuv420p-unchanged :
    (rgba yuv : ℕ → ℕ) (width32 height2 j : ℕ)
    → width32 * height2 * 96 ≤ j
    → rgba2yuv420p rgba width32 height2 yuv j ≡ yuv j
rgba2yuv420p-unchanged rgba yuv width32 height2 j h =
    let n = width32 * 16 in
    rw (whole_frame rgba yuv width32 height2)
      (rows-unchanged height2 n rgba 0 0 (n * height2 * 4) (n * height2 * 5) yuv j (omega arith))

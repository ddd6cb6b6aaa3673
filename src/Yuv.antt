-- ===== src/Yuv.antt =====
-- rgba2yuv420p.c, the scalar version: RGBA to planar YUV 4:2:0, after BT.709 in the studio range.
-- The coefficients KB and KR are taken in units of 1 / 10000, so that the constants come out of
-- the same formulas exactly; a negative constant is kept as its magnitude and subtracted. Buffers
-- are functions from an offset to a byte; `restrict` keeps `rgba` and `yuv` apart.
pub mod Range
pub mod Block
pub mod Frame
pub mod Simd
mod Tests
use glgrab.Base.{ℕ, zero, suc, ◌+◌, ◌-◌, ◌*◌, ◌/◌, ◌%◌, ◌^◌, update}

abbrev pub u8 : ℕ → ℕ
u8 n = n % 2 ^ 8

abbrev pub u16 : ℕ → ℕ
u16 n = n % 2 ^ 16

-- BT_709_KB, BT_709_KR and KG
abbrev pub unit : ℕ
unit = 10000

abbrev pub kb : ℕ
kb = 722

abbrev pub kr : ℕ
kr = 2126

abbrev pub kg : ℕ
kg = unit - kb - kr

-- SY and SC
abbrev pub shift : ℕ
shift = 7

-- `K * (1 << S) + 0.5`, cut to an integer, for K = num / den.
abbrev pub fixed : ℕ → ℕ → ℕ
fixed num den = (2 * num * 2 ^ shift + den) / (2 * den)

-- Ybias, KRYi, KGYi, KBYi
abbrev pub y_bias : ℕ
y_bias = 16 * 2 ^ shift + 2 ^ (shift - 1)

abbrev pub kry : ℕ
kry = fixed (220 * kr) (256 * unit)

abbrev pub kgy : ℕ
kgy = fixed (220 * kg) (256 * unit)

abbrev pub kby : ℕ
kby = fixed (220 * kb) (256 * unit)

-- Cbias, -KRUi, -KGUi, KBUi, KRVi, -KGVi, -KBVi
abbrev pub c_bias : ℕ
c_bias = 128 * 2 ^ shift + 2 ^ (shift - 1)

abbrev pub kru : ℕ
kru = fixed (112 * kr) (256 * (unit - kb))

abbrev pub kgu : ℕ
kgu = fixed (112 * kg) (256 * (unit - kb))

abbrev pub kbu : ℕ
kbu = fixed 112 256

abbrev pub krv : ℕ
krv = fixed 112 256

abbrev pub kgv : ℕ
kgv = fixed (112 * kg) (256 * (unit - kr))

abbrev pub kbv : ℕ
kbv = fixed (112 * kb) (256 * (unit - kr))

-- `~(uint16_t)(a0 + a1) >> 1` is negative as an int, and is cut to a byte.
unfoldable pub navg : ℕ → ℕ → ℕ
navg a0 a1 = u8 (2 ^ 16 - 1 - u16 (a0 + a1) / 2)

unfoldable pub avg : ℕ → ℕ → ℕ → ℕ → ℕ
unfolding navg
avg a00 a10 a01 a11 = navg (navg a00 a10) (navg a01 a11)

-- The three formulas that `rgba2yuv420p_2x2` stores. The cast of an int to uint16_t goes round at
-- 2 ^ 16, and the subtracted part is less than that.
unfoldable pub luma : ℕ → ℕ → ℕ → ℕ
luma c0 c1 c2 = u8 (u16 (y_bias + kry * c0 + kgy * c1 + kby * c2) / 2 ^ shift)

unfoldable pub chroma_u : ℕ → ℕ → ℕ → ℕ
chroma_u b g r = u8 (u16 (c_bias + kbu * r + 2 ^ 16 - (kru * b + kgu * g)) / 2 ^ shift)

unfoldable pub chroma_v : ℕ → ℕ → ℕ → ℕ
chroma_v b g r = u8 (u16 (c_bias + krv * b + 2 ^ 16 - (kgv * g + kbv * r)) / 2 ^ shift)

-- The luma of the pixel at `p`.
abbrev pub luma_at : (ℕ → ℕ) → ℕ → ℕ
luma_at rgba p = luma (rgba p) (rgba (p + 1)) (rgba (p + 2))

-- A component averaged over the square of pixels at `p0` and `p1`.
abbrev pub avg_at : (ℕ → ℕ) → ℕ → ℕ → ℕ → ℕ
avg_at rgba p0 p1 c = avg (rgba (p0 + c)) (rgba (p1 + c)) (rgba (p0 + 4 + c)) (rgba (p1 + 4 + c))

unfoldable pub rgba2yuv420p_2x2 : (ℕ → ℕ) → ℕ → ℕ → ℕ → ℕ → ℕ → ℕ → (ℕ → ℕ) → ℕ → ℕ
rgba2yuv420p_2x2 rgba p0 p1 y0 y1 u v yuv =
    let b = avg_at rgba p0 p1 0 in
    let g = avg_at rgba p0 p1 1 in
    let r = avg_at rgba p0 p1 2 in
    let m1 = update yuv y0 (luma_at rgba p0) in
    let m2 = update m1 (y0 + 1) (luma_at rgba (p0 + 4)) in
    let m3 = update m2 y1 (luma_at rgba p1) in
    let m4 = update m3 (y1 + 1) (luma_at rgba (p1 + 4)) in
    let m5 = update m4 u (chroma_u b g r) in update m5 v (chroma_v b g r)

-- The loop over one row of squares, with `n` rounds left.
unfoldable pub convert_row : ℕ → (ℕ → ℕ) → ℕ → ℕ → ℕ → ℕ → ℕ → ℕ → (ℕ → ℕ) → ℕ → ℕ
convert_row zero rgba p0 p1 y0 y1 u v yuv = yuv
convert_row (suc n) rgba p0 p1 y0 y1 u v yuv =
    convert_row n rgba (p0 + 8) (p1 + 8) (y0 + 2) (y1 + 2) (u + 1) (v + 1)
      (rgba2yuv420p_2x2 rgba p0 p1 y0 y1 u v yuv)

-- The loop over the rows, with `rows` rounds left, for rows of `n` squares. Each pointer goes on
-- by what the row loop has added to it: `p1` has come to the end of its row, which is the start
-- of the next `p0`.
unfoldable pub convert_rows : ℕ → ℕ → (ℕ → ℕ) → ℕ → ℕ → ℕ → ℕ → ℕ → ℕ → (ℕ → ℕ) → ℕ → ℕ
convert_rows zero n rgba rgba_stride y_stride p0 y0 u v yuv = yuv
convert_rows (suc rows) n rgba rgba_stride y_stride p0 y0 u v yuv =
    let p1 = p0 + rgba_stride in
    let y1 = y0 + y_stride in
    convert_rows rows n rgba rgba_stride y_stride (p1 + n * 8) (y0 + n * 2 + y_stride) (u + n)
      (v + n) (convert_row n rgba p0 p1 y0 y1 u v yuv)

-- Sums and products of size_t and ptrdiff_t are taken not to wrap.
unfoldable pub rgba2yuv420p : (ℕ → ℕ) → ℕ → ℕ → (ℕ → ℕ) → ℕ → ℕ
rgba2yuv420p rgba width32 height2 yuv =
    let count_2x2 = width32 * 16 * height2 in
    let u = count_2x2 * 4 in
    convert_rows height2 (width32 * 16) rgba (width32 * 128) (width32 * 32) 0 0 u (u + count_2x2)
      yuv

-- ===== src/Yuv/Simd.antt =====
-- rgba2yuv420p.c, the vector version. The compiler's intrinsics for SSSE3 are a parameter; a vector
-- is the function from the number of a byte, below 16, to the byte. A negative number is kept as the
-- byte or the word that stands for it. Buffers begin at a multiple of 16.
pub mod Documented
pub mod Lanes
pub mod Products
pub mod Pixels
pub mod Block
pub mod Rows
pub mod Frame
pub mod Close
mod Tests
use glgrab.Base.{ℕ, zero, suc, ◌+◌, ◌-◌, ◌*◌, ◌^◌, Bool, List, [], ◌∷◌, if◌then◌else◌}
use glgrab.Yuv.{shift, y_bias, kry, kgy, kby, c_bias, kru, kgu, kbu, krv, kgv, kbv}

-- `__m128i`
abbrev pub Vector : Type 0
Vector = ℕ → ℕ

-- The intrinsics, by their names without the prefix `_mm_`. `set_epi8` takes its 16 arguments as a
-- list, the last byte first; the loads take the memory and the offset, and the store returns the
-- memory that it leaves.
pub record Intrinsics : Type 0 where
  pub set_epi8 : List ℕ → Vector
  pub set1_epi8 : ℕ → Vector
  pub set1_epi16 : ℕ → Vector
  pub avg_epu8 : Vector → Vector → Vector
  pub xor_si128 : Vector → Vector → Vector
  pub unpacklo_epi32 : Vector → Vector → Vector
  pub unpackhi_epi32 : Vector → Vector → Vector
  pub unpacklo_epi64 : Vector → Vector → Vector
  pub unpackhi_epi64 : Vector → Vector → Vector
  pub maddubs_epi16 : Vector → Vector → Vector
  pub hadd_epi16 : Vector → Vector → Vector
  pub add_epi16 : Vector → Vector → Vector
  pub srli_epi16 : Vector → ℕ → Vector
  pub packus_epi16 : Vector → Vector → Vector
  pub load_si128 : (ℕ → ℕ) → ℕ → Vector
  pub stream_load_si128 : (ℕ → ℕ) → ℕ → Vector
  pub stream_si128 : (ℕ → ℕ) → ℕ → Vector → ℕ → ℕ

-- The four coefficients of a pixel for each of the four pixels of a vector, last byte first.
abbrev pub coefficients : ℕ → ℕ → ℕ → List ℕ
coefficients r g b = 0 ∷ b ∷ g ∷ r ∷ 0 ∷ b ∷ g ∷ r ∷ 0 ∷ b ∷ g ∷ r ∷ 0 ∷ b ∷ g ∷ r ∷ []

-- `sse4_1` says that __SSE4_1__ is defined.
module _ (mm : Intrinsics) (sse4_1 : Bool) where
  unfoldable pub vector_navg : Vector → Vector → Vector
  vector_navg x y = mm.xor_si128 (mm.avg_epu8 x y) (mm.set1_epi8 255)

  unfoldable pub vector_avg : Vector → Vector → Vector
  vector_avg n0123 n4567 =
      let n0415 = mm.unpacklo_epi32 n0123 n4567 in
      let n2637 = mm.unpackhi_epi32 n0123 n4567 in
      let n0246 = mm.unpacklo_epi32 n0415 n2637 in
      let n1357 = mm.unpackhi_epi32 n0415 n2637 in vector_navg n0246 n1357

  unfoldable pub dot : Vector → Vector → Vector → Vector
  dot p0 p1 k = mm.hadd_epi16 (mm.maddubs_epi16 p0 k) (mm.maddubs_epi16 p1 k)

  unfoldable pub pack : Vector → Vector → Vector → ℕ → Vector
  pack d0 d1 bias s =
      mm.packus_epi16 (mm.srli_epi16 (mm.add_epi16 d0 bias) s)
        (mm.srli_epi16 (mm.add_epi16 d1 bias) s)

  -- `v` is the offset of the first vector.
  unfoldable pub load : (ℕ → ℕ) → ℕ → ℕ → Vector
  load memory v i =
      if sse4_1 then mm.stream_load_si128 memory (v + i * 16) else mm.load_si128 memory (v + i * 16)

  -- The luma of 16 pixels is stored twice, and the chroma of the 8 squares returned.
  unfoldable pub rgba2yuv420p_16x2 : (ℕ → ℕ) → ℕ → ℕ → ℕ → ℕ → (ℕ → ℕ) → Vector × (ℕ → ℕ)
  rgba2yuv420p_16x2 rgba rgba0 rgba1 y0 y1 yuv =
      let y = mm.set_epi8 (coefficients kry kgy kby) in
      let yb = mm.set1_epi16 y_bias in
      let u = mm.set_epi8 (coefficients (256 - kru) (256 - kgu) kbu) in
      let v = mm.set_epi8 (coefficients krv (256 - kgv) (256 - kbv)) in
      let cb = mm.set1_epi16 c_bias in
      let p00 = load rgba rgba0 0 in
      let p01 = load rgba rgba0 1 in
      let d00 = dot p00 p01 y in
      let p10 = load rgba rgba1 0 in
      let p11 = load rgba rgba1 1 in
      let n0 = vector_navg p00 p10 in
      let n1 = vector_navg p01 p11 in
      let d10 = dot p10 p11 y in
      let a01 = vector_avg n0 n1 in
      let p02 = load rgba rgba0 2 in
      let p03 = load rgba rgba0 3 in
      let d02 = dot p02 p03 y in
      let m1 = mm.stream_si128 yuv y0 (pack d00 d02 yb shift) in
      let p12 = load rgba rgba1 2 in
      let p13 = load rgba rgba1 3 in
      let n2 = vector_navg p02 p12 in
      let n3 = vector_navg p03 p13 in
      let d12 = dot p12 p13 y in
      let a23 = vector_avg n2 n3 in
      let m2 = mm.stream_si128 m1 y1 (pack d10 d12 yb shift) in
      (pack (dot a01 a23 u) (dot a01 a23 v) cb shift, m2)

  unfoldable pub rgba2yuv420p_32x2 : (ℕ → ℕ) → ℕ → ℕ → ℕ → ℕ → ℕ → ℕ → (ℕ → ℕ) → ℕ → ℕ
  rgba2yuv420p_32x2 rgba rgba0 rgba1 y0 y1 u v yuv =
      let (uv0, m1) = rgba2yuv420p_16x2 rgba rgba0 rgba1 y0 y1 yuv in
      let (uv1, m2) = rgba2yuv420p_16x2 rgba (rgba0 + 64) (rgba1 + 64) (y0 + 16) (y1 + 16) m1 in
      let m3 = mm.stream_si128 m2 u (mm.unpacklo_epi64 uv0 uv1) in
      mm.stream_si128 m3 v (mm.unpackhi_epi64 uv0 uv1)

  -- The loop over one row of blocks, with `n` rounds left.
  unfoldable pub vector_row : ℕ → (ℕ → ℕ) → ℕ → ℕ → ℕ → ℕ → ℕ → ℕ → (ℕ → ℕ) → ℕ → ℕ
  vector_row zero rgba p0 p1 y0 y1 u v yuv = yuv
  vector_row (suc n) rgba p0 p1 y0 y1 u v yuv =
      vector_row n rgba (p0 + 128) (p1 + 128) (y0 + 32) (y1 + 32) (u + 16) (v + 16)
        (rgba2yuv420p_32x2 rgba p0 p1 y0 y1 u v yuv)

  -- The loop over the rows, with `rows` rounds left, for rows of `n` blocks; each pointer goes on by
  -- what the row loop has added to it.
  unfoldable pub vector_rows : ℕ → ℕ → (ℕ → ℕ) → ℕ → ℕ → ℕ → ℕ → ℕ → ℕ → (ℕ → ℕ) → ℕ → ℕ
  vector_rows zero n rgba rgba_stride y_stride p0 y0 u v yuv = yuv
  vector_rows (suc rows) n rgba rgba_stride y_stride p0 y0 u v yuv =
      let p1 = p0 + rgba_stride in
      let y1 = y0 + y_stride in
      vector_rows rows n rgba rgba_stride y_stride (p1 + n * 128) (y0 + n * 32 + y_stride)
        (u + n * 16) (v + n * 16) (vector_row n rgba p0 p1 y0 y1 u v yuv)

  -- Sums and products of size_t and ptrdiff_t are taken not to wrap. The fence at the end orders
  -- the stores for other processors and stores nothing.
  unfoldable pub vector_rgba2yuv420p : (ℕ → ℕ) → ℕ → ℕ → (ℕ → ℕ) → ℕ → ℕ
  vector_rgba2yuv420p rgba width32 height2 yuv =
      let count_2x2 = width32 * 16 * height2 in
      let u = count_2x2 * 4 in
      vector_rows height2 width32 rgba (width32 * 128) (width32 * 32) 0 0 u (u + count_2x2) yuv

-- ===== src/Yuv/Simd/Block.antt =====
-- What one block of 32 by 2 pixels leaves in the output.
use native.Mathlib.Decide.{dec_lt}
use glgrab.Base.{
  ℕ, ◌+◌, ◌-◌, ◌*◌, ◌%◌, ◌≤◌, ◌<◌, ◌≡◌, ◌⊎◌, refl, ◌∙◌, ap, arith, Bool, ◌&&◌, ltb, leb,
}
use glgrab.Yuv.{luma_at, chroma_u, chroma_v}
use glgrab.Yuv.Block.{OffRow, RowFits}
use glgrab.Yuv.Simd.{Vector, Intrinsics, rgba2yuv420p_16x2, rgba2yuv420p_32x2}
use glgrab.Yuv.Simd.Documented.{stored, AreDocumented}
use glgrab.Yuv.Simd.Pixels.{avg_up_at, lumas, lumas_lem, chromas, chromas_lem}

-- The six bytes of a square, by the vector version.
pub record IsVectorised (rgba out : ℕ → ℕ) (p0 p1 y0 y1 u v : ℕ) : Type 0 where
  pub upper_left : out y0 ≡ luma_at rgba p0
  pub upper_right : out (y0 + 1) ≡ luma_at rgba (p0 + 4)
  pub lower_left : out y1 ≡ luma_at rgba p1
  pub lower_right : out (y1 + 1) ≡ luma_at rgba (p1 + 4)
  pub blue :
      out u ≡ chroma_u (avg_up_at rgba p0 p1 0) (avg_up_at rgba p0 p1 1) (avg_up_at rgba p0 p1 2)
  pub red :
      out v ≡ chroma_v (avg_up_at rgba p0 p1 0) (avg_up_at rgba p0 p1 1) (avg_up_at rgba p0 p1 2)

-- All offsets are multiples of 16.
pub record AreAligned (p0 p1 y0 y1 u v : ℕ) : Type 0 where
  pub upper_pixels : p0 % 16 ≡ 0
  pub lower_pixels : p1 % 16 ≡ 0
  pub upper : y0 % 16 ≡ 0
  pub lower : y1 % 16 ≡ 0
  pub blues : u % 16 ≡ 0
  pub reds : v % 16 ≡ 0

stored_hit : (m : ℕ → ℕ) (a : ℕ) (x : Vector) (i j : ℕ) → i < 16 → j ≡ a + i → stored m a x j ≡ x i
unfolding stored
stored_hit m a x i j low e =
    let inside : (leb a (a + i) && ltb (a + i) (a + 16)) ≡ Bool.true = ground arith in
    let back : a + i - a ≡ i = omega arith in rw (e, inside, back) refl

stored_miss :
    (m : ℕ → ℕ) (a : ℕ) (x : Vector) (j : ℕ) → (j < a) ⊎ (a + 16 ≤ j) → stored m a x j ≡ m j
unfolding stored
stored_miss m a x j off =
    let outside : (leb a j && ltb j (a + 16)) ≡ Bool.false = ground arith in rw outside refl

module _ (mm : Intrinsics) (doc : AreDocumented mm) (sse4_1 : Bool) (rgba : ℕ → ℕ)
    (bytes : (j : ℕ) → rgba j < 256) (p0 p1 y0 y1 u v : ℕ) (yuv : ℕ → ℕ)
    (aligned : AreAligned p0 p1 y0 y1 u v) where
  abbrev block : ℕ → ℕ
  block = rgba2yuv420p_32x2 mm sse4_1 rgba p0 p1 y0 y1 u v yuv

  abbrev near_chroma : Vector
  near_chroma = chromas mm doc sse4_1 rgba bytes p0 p1

  abbrev far_chroma : Vector
  far_chroma = chromas mm doc sse4_1 rgba bytes (p0 + 64) (p1 + 64)

  -- The memory after the stores of luma, one after the other.
  abbrev near_upper : ℕ → ℕ
  near_upper = mm.stream_si128 yuv y0 (lumas mm doc sse4_1 rgba bytes p0)

  abbrev near_lower : ℕ → ℕ
  near_lower = mm.stream_si128 near_upper y1 (lumas mm doc sse4_1 rgba bytes p1)

  abbrev far_upper : ℕ → ℕ
  far_upper = mm.stream_si128 near_lower (y0 + 16) (lumas mm doc sse4_1 rgba bytes (p0 + 64))

  abbrev far_lower : ℕ → ℕ
  far_lower = mm.stream_si128 far_upper (y1 + 16) (lumas mm doc sse4_1 rgba bytes (p1 + 64))

  abbrev all_blues : ℕ → ℕ
  all_blues = mm.stream_si128 far_lower u (mm.unpacklo_epi64 near_chroma far_chroma)

  block_lem : block ≡ mm.stream_si128 all_blues v (mm.unpackhi_epi64 near_chroma far_chroma)
  unfolding rgba2yuv420p_32x2 rgba2yuv420p_16x2
  block_lem = refl

  hit :
      (m : ℕ → ℕ) (a : ℕ) (x : Vector) (i j : ℕ)
      → a % 16 ≡ 0
      → i < 16
      → j ≡ a + i
      → mm.stream_si128 m a x j ≡ x i
  hit m a x i j whole low e = doc.stream_si128_lem m a x j whole ∙ stored_hit m a x i j low e

  miss :
      (m : ℕ → ℕ) (a : ℕ) (x : Vector) (j : ℕ)
      → a % 16 ≡ 0
      → (j < a) ⊎ (a + 16 ≤ j)
      → mm.stream_si128 m a x j ≡ m j
  miss m a x j whole off = doc.stream_si128_lem m a x j whole ∙ stored_miss m a x j off

  -- A byte that is none of the chroma of the block.
  off_chroma : (j : ℕ) → (j < u) ⊎ (u + 16 ≤ j) → (j < v) ⊎ (v + 16 ≤ j) → block j ≡ far_lower j
  off_chroma j off_u off_v =
      ap (λ (m : ℕ → ℕ). m j) block_lem
      ∙ miss all_blues v (mm.unpackhi_epi64 near_chroma far_chroma) j aligned.reds off_v
      ∙ miss far_lower u (mm.unpacklo_epi64 near_chroma far_chroma) j aligned.blues off_u

  pub block-unchanged : (j : ℕ) → OffRow 16 y0 y1 u v j → block j ≡ yuv j
  block-unchanged j (off_y0, off_y1, off_u, off_v) =
      off_chroma j (omega arith) (omega arith)
      ∙ miss far_upper (y1 + 16) _ j (omega (arith, aligned.lower)) (omega (arith, off_y1))
      ∙ miss near_lower (y0 + 16) _ j (omega (arith, aligned.upper)) (omega (arith, off_y0))
      ∙ miss near_upper y1 _ j aligned.lower (omega (arith, off_y1))
      ∙ miss yuv y0 _ j aligned.upper (omega (arith, off_y0))

  module _ (fits : RowFits 16 y0 y1 u v) where
    open aligned use {upper_pixels, lower_pixels, upper, lower, blues, reds}

    upper_at : (i j p : ℕ) → i < 32 → j ≡ y0 + i → p0 + i * 4 ≡ p → block j ≡ luma_at rgba p
    upper_at i j p low at e = elim (dec_lt i 16) [
      | yes h ↦
          off_chroma j (omega arith) (omega arith)
          ∙ miss far_upper (y1 + 16) _ j (omega arith) (omega arith)
          ∙ miss near_lower (y0 + 16) _ j (omega arith) (omega arith)
          ∙ miss near_upper y1 _ j lower (omega arith)
          ∙ hit yuv y0 _ i j upper h at
          ∙ lumas_lem mm doc sse4_1 rgba bytes p0 i p upper_pixels h e
      | no h ↦
          off_chroma j (omega arith) (omega arith)
          ∙ miss far_upper (y1 + 16) _ j (omega arith) (omega arith)
          ∙ hit near_lower (y0 + 16) _ (i - 16) j (omega arith) (omega arith) (omega arith)
          ∙ lumas_lem mm doc sse4_1 rgba bytes (p0 + 64) (i - 16) p (omega arith) (omega arith)
              (omega arith)
    ]

    lower_at : (i j p : ℕ) → i < 32 → j ≡ y1 + i → p1 + i * 4 ≡ p → block j ≡ luma_at rgba p
    lower_at i j p low at e = elim (dec_lt i 16) [
      | yes h ↦
          off_chroma j (omega arith) (omega arith)
          ∙ miss far_upper (y1 + 16) _ j (omega arith) (omega arith)
          ∙ miss near_lower (y0 + 16) _ j (omega arith) (omega arith)
          ∙ hit near_upper y1 _ i j lower h at
          ∙ lumas_lem mm doc sse4_1 rgba bytes p1 i p lower_pixels h e
      | no h ↦
          off_chroma j (omega arith) (omega arith)
          ∙ hit far_upper (y1 + 16) _ (i - 16) j (omega arith) (omega arith) (omega arith)
          ∙ lumas_lem mm doc sse4_1 rgba bytes (p1 + 64) (i - 16) p (omega arith) (omega arith)
              (omega arith)
    ]

    blue_at :
        (i p q : ℕ)
        → i < 16
        → p0 + i * 8 ≡ p
        → p1 + i * 8 ≡ q
        → let at = avg_up_at rgba p q in block (u + i * 1) ≡ chroma_u (at 0) (at 1) (at 2)
    blue_at i p q low e0 e1 =
        let step =
          ap (λ (m : ℕ → ℕ). m (u + i * 1)) block_lem
          ∙ miss all_blues v (mm.unpackhi_epi64 near_chroma far_chroma) (u + i * 1) reds
              (omega arith) in
        elim (dec_lt i 8) [
          | yes h ↦
              step
              ∙ hit far_lower u _ i (u + i * 1) blues low (omega arith)
              ∙ (doc.unpacklo_epi64_lem near_chroma far_chroma i h).0
              ∙ (chromas_lem mm doc sse4_1 rgba bytes p0 p1 i p q upper_pixels lower_pixels h e0
                  e1).0
          | no h ↦
              step
              ∙ hit far_lower u _ (8 + (i - 8)) (u + i * 1) blues (omega arith) (omega arith)
              ∙ (doc.unpacklo_epi64_lem near_chroma far_chroma (i - 8) (omega arith)).1
              ∙ (chromas_lem mm doc sse4_1 rgba bytes (p0 + 64) (p1 + 64) (i - 8) p q (omega arith)
                  (omega arith) (omega arith) (omega arith) (omega arith)).0
        ]

    red_at :
        (i p q : ℕ)
        → i < 16
        → p0 + i * 8 ≡ p
        → p1 + i * 8 ≡ q
        → let at = avg_up_at rgba p q in block (v + i * 1) ≡ chroma_v (at 0) (at 1) (at 2)
    red_at i p q low e0 e1 =
        let step = ap (λ (m : ℕ → ℕ). m (v + i * 1)) block_lem in
        elim (dec_lt i 8) [
          | yes h ↦
              step
              ∙ hit all_blues v _ i (v + i * 1) reds low (omega arith)
              ∙ (doc.unpackhi_epi64_lem near_chroma far_chroma i h).0
              ∙ (chromas_lem mm doc sse4_1 rgba bytes p0 p1 i p q upper_pixels lower_pixels h e0
                  e1).1
          | no h ↦
              step
              ∙ hit all_blues v _ (8 + (i - 8)) (v + i * 1) reds (omega arith) (omega arith)
              ∙ (doc.unpackhi_epi64_lem near_chroma far_chroma (i - 8) (omega arith)).1
              ∙ (chromas_lem mm doc sse4_1 rgba bytes (p0 + 64) (p1 + 64) (i - 8) p q (omega arith)
                  (omega arith) (omega arith) (omega arith) (omega arith)).1
        ]

    -- The square number `i` of the block.
    pub block-IsVectorised :
        (i : ℕ)
        → i < 16
        → IsVectorised rgba block
            (p0 + i * 8)
            (p1 + i * 8)
            (y0 + i * 2)
            (y1 + i * 2)
            (u + i * 1)
            (v + i * 1)
    block-IsVectorised i low = record {
      upper_left = upper_at (i * 2) (y0 + i * 2) (p0 + i * 8) (omega arith) refl (omega arith);
      upper_right =
          upper_at (i * 2 + 1) (y0 + i * 2 + 1) (p0 + i * 8 + 4) (omega arith) (omega arith)
            (omega arith);
      lower_left = lower_at (i * 2) (y1 + i * 2) (p1 + i * 8) (omega arith) refl (omega arith);
      lower_right =
          lower_at (i * 2 + 1) (y1 + i * 2 + 1) (p1 + i * 8 + 4) (omega arith) (omega arith)
            (omega arith);
      blue = blue_at i (p0 + i * 8) (p1 + i * 8) low refl refl;
      red = red_at i (p0 + i * 8) (p1 + i * 8) low refl refl;
    }

-- ===== src/Yuv/Simd/Lanes.antt =====
-- What the helpers of the vector version make of the bytes of pixels.
use glgrab.Base.{
  ℕ, zero, suc, ◌+◌, ◌-◌, ◌*◌, ◌/◌, ◌%◌, ◌<◌, ◌≡◌, refl, ◌∙◌, ap, ap₂, arith, Bool, true, false,
  ◌&&◌, ◌==◌, ==_iff,
}
use Prim.Native.Nat.{bit_xor}
use glgrab.Yuv.Simd.{Vector, Intrinsics, coefficients, vector_navg, vector_avg, load}
use glgrab.Yuv.Simd.Documented.{AreDocumented}

-- A test that is passed below `n` is passed by each number there.
passes_below : ℕ → (ℕ → Bool) → Bool
passes_below zero test = true
passes_below (suc n) test = test n && passes_below n test

passes_below_lem :
    (n : ℕ) (test : ℕ → Bool) (i : ℕ) → passes_below n test ≡ true → i < n → test i ≡ true
unfolding passes_below
passes_below_lem zero test i h low = absurd (omega arith)
passes_below_lem (suc n) test i h low = ground (arith, passes_below_lem n test i)

complement_table : passes_below 256 (λ x. bit_xor x 255 == 255 - x) ≡ true
unfolding passes_below
complement_table = refl

bit_xor-ones : (x : ℕ) → x < 256 → bit_xor x 255 ≡ 255 - x
bit_xor-ones x h =
    (==_iff _ (255 - x)).0
      (passes_below_lem 256 (λ x. bit_xor x 255 == 255 - x) x complement_table h)

-- One average of the vector version, and that of a square of pixels.
unfoldable pub navg_up : ℕ → ℕ → ℕ
navg_up x y = 255 - (x + y + 1) / 2

unfoldable pub avg_up : ℕ → ℕ → ℕ → ℕ → ℕ
unfolding navg_up
avg_up a00 a10 a01 a11 = navg_up (navg_up a00 a10) (navg_up a01 a11)

-- The two vectors have the byte `f i c` of pixel `i` and component `c`.
abbrev pub Shows : Vector → Vector → (ℕ → ℕ → ℕ) → Type 0
Shows p0 p1 f =
    (i c : ℕ) → i < 4 → c < 4 → (p0 (i * 4 + c) ≡ f i c) × (p1 (i * 4 + c) ≡ f (4 + i) c)

-- A coefficient in every pixel.
abbrev pub Repeats : Vector → ℕ → ℕ → ℕ → ℕ → Type 0
Repeats k k0 k1 k2 k3 =
    (i : ℕ)
    → i < 4
    → (k (i * 4 + 0) ≡ k0) × (k (i * 4 + 1) ≡ k1) × (k (i * 4 + 2) ≡ k2) × (k (i * 4 + 3) ≡ k3)

module _ (mm : Intrinsics) (doc : AreDocumented mm) where
  pub vector_navg_lem :
      (sse4_1 : Bool) (x y : Vector) (i : ℕ)
      → i < 16
      → x i < 256
      → y i < 256
      → vector_navg mm sse4_1 x y i ≡ navg_up (x i) (y i)
  unfolding vector_navg navg_up
  vector_navg_lem sse4_1 x y i low a b =
      doc.xor_si128_lem (mm.avg_epu8 x y) (mm.set1_epi8 255) i low
      ∙ ap₂ bit_xor (doc.avg_epu8_lem x y i low a b) (doc.set1_epi8_lem 255 i (omega arith) low)
      ∙ bit_xor-ones ((x i + y i + 1) / 2) (omega arith)

  pub load_lem :
      (sse4_1 : Bool) (memory : ℕ → ℕ) (v k i : ℕ)
      → v % 16 ≡ 0
      → i < 16
      → load mm sse4_1 memory v k i ≡ memory (v + k * 16 + i)
  unfolding load
  load_lem true memory v k i whole low =
      doc.stream_load_si128_lem memory (v + k * 16) i (omega arith) low
  load_lem false memory v k i whole low = doc.load_si128_lem memory (v + k * 16) i (omega arith) low

  pub coefficients-Repeats :
      (r g b : ℕ) → r < 256 → g < 256 → b < 256 → Repeats (mm.set_epi8 (coefficients r g b)) r g b 0
  coefficients-Repeats r g b hr hg hb zero low =
      let at = doc.set_epi8_lem (coefficients r g b) in
      (
        at 0 r (omega arith) hr refl,
        at 1 g (omega arith) hg refl,
        at 2 b (omega arith) hb refl,
        at 3 0 (omega arith) (omega arith) refl,
      )
  coefficients-Repeats r g b hr hg hb (suc zero) low =
      let at = doc.set_epi8_lem (coefficients r g b) in
      (
        at 4 r (omega arith) hr refl,
        at 5 g (omega arith) hg refl,
        at 6 b (omega arith) hb refl,
        at 7 0 (omega arith) (omega arith) refl,
      )
  coefficients-Repeats r g b hr hg hb (suc (suc zero)) low =
      let at = doc.set_epi8_lem (coefficients r g b) in
      (
        at 8 r (omega arith) hr refl,
        at 9 g (omega arith) hg refl,
        at 10 b (omega arith) hb refl,
        at 11 0 (omega arith) (omega arith) refl,
      )
  coefficients-Repeats r g b hr hg hb (suc (suc (suc zero))) low =
      let at = doc.set_epi8_lem (coefficients r g b) in
      (
        at 12 r (omega arith) hr refl,
        at 13 g (omega arith) hg refl,
        at 14 b (omega arith) hb refl,
        at 15 0 (omega arith) (omega arith) refl,
      )
  coefficients-Repeats r g b hr hg hb (suc (suc (suc (suc i)))) low = absurd (omega arith)

  module _ (n0 n1 : Vector) (f : ℕ → ℕ → ℕ) (shows : Shows n0 n1 f) where
    abbrev evens : Vector
    evens = mm.unpacklo_epi32 (mm.unpacklo_epi32 n0 n1) (mm.unpackhi_epi32 n0 n1)

    abbrev odds : Vector
    odds = mm.unpackhi_epi32 (mm.unpacklo_epi32 n0 n1) (mm.unpackhi_epi32 n0 n1)

    -- Pixels at even places come to one vector and those at odd places to another.
    sorted_pixels :
        (i c : ℕ)
        → i < 4
        → c < 4
        → (evens (i * 4 + c) ≡ f (i * 2) c) × (odds (i * 4 + c) ≡ f (i * 2 + 1) c)
    sorted_pixels zero c low lc =
        let at = λ (k : ℕ) (h : k < 4). (shows k c h lc).0 in
        let first : n0 c ≡ f 0 c =
          ap n0 (let e : c ≡ 0 * 4 + c = omega arith in e) ∙ at 0 (omega arith) in
        let e : 0 * 4 + c ≡ c = omega arith in
        rw e (
          (doc.unpacklo_epi32_lem (mm.unpacklo_epi32 n0 n1) (mm.unpackhi_epi32 n0 n1) c lc).0
              ∙ (doc.unpacklo_epi32_lem n0 n1 c lc).0
              ∙ first,
          (doc.unpackhi_epi32_lem (mm.unpacklo_epi32 n0 n1) (mm.unpackhi_epi32 n0 n1) c lc).0
              ∙ (doc.unpacklo_epi32_lem n0 n1 c lc).2
              ∙ at 1 (omega arith),
        )
    sorted_pixels (suc zero) c low lc =
        let at = λ (k : ℕ) (h : k < 4). (shows k c h lc).0 in
        (
          (doc.unpacklo_epi32_lem (mm.unpacklo_epi32 n0 n1) (mm.unpackhi_epi32 n0 n1) c lc).1
              ∙ (doc.unpackhi_epi32_lem n0 n1 c lc).0
              ∙ at 2 (omega arith),
          (doc.unpackhi_epi32_lem (mm.unpacklo_epi32 n0 n1) (mm.unpackhi_epi32 n0 n1) c lc).1
              ∙ (doc.unpackhi_epi32_lem n0 n1 c lc).2
              ∙ at 3 (omega arith),
        )
    sorted_pixels (suc (suc zero)) c low lc =
        let at = λ (k : ℕ) (h : k < 4). (shows k c h lc).1 in
        let first : n1 c ≡ f 4 c =
          ap n1 (let e : c ≡ 0 * 4 + c = omega arith in e) ∙ at 0 (omega arith) in
        (
          (doc.unpacklo_epi32_lem (mm.unpacklo_epi32 n0 n1) (mm.unpackhi_epi32 n0 n1) c lc).2
              ∙ (doc.unpacklo_epi32_lem n0 n1 c lc).1
              ∙ first,
          (doc.unpackhi_epi32_lem (mm.unpacklo_epi32 n0 n1) (mm.unpackhi_epi32 n0 n1) c lc).2
              ∙ (doc.unpacklo_epi32_lem n0 n1 c lc).3
              ∙ at 1 (omega arith),
        )
    sorted_pixels (suc (suc (suc zero))) c low lc =
        let at = λ (k : ℕ) (h : k < 4). (shows k c h lc).1 in
        (
          (doc.unpacklo_epi32_lem (mm.unpacklo_epi32 n0 n1) (mm.unpackhi_epi32 n0 n1) c lc).3
              ∙ (doc.unpackhi_epi32_lem n0 n1 c lc).1
              ∙ at 2 (omega arith),
          (doc.unpackhi_epi32_lem (mm.unpacklo_epi32 n0 n1) (mm.unpackhi_epi32 n0 n1) c lc).3
              ∙ (doc.unpackhi_epi32_lem n0 n1 c lc).3
              ∙ at 3 (omega arith),
        )
    sorted_pixels (suc (suc (suc (suc i)))) c low lc = absurd (omega arith)

  -- The two averages of the pixels at even and at odd places, next to each other.
  pub vector_avg_lem :
      (sse4_1 : Bool) (n0 n1 : Vector) (f : ℕ → ℕ → ℕ)
      → Shows n0 n1 f
      → ((i c : ℕ) → i < 8 → c < 4 → f i c < 256)
      → (i c : ℕ) → i < 4
      → c < 4
      → vector_avg mm sse4_1 n0 n1 (i * 4 + c) ≡ navg_up (f (i * 2) c) (f (i * 2 + 1) c)
  unfolding vector_avg
  vector_avg_lem sse4_1 n0 n1 f shows bytes i c low lc =
      let (e, o) = sorted_pixels n0 n1 f shows i c low lc in
      let be = bytes (i * 2) c (omega arith) lc in
      let bo = bytes (i * 2 + 1) c (omega arith) lc in
      vector_navg_lem sse4_1 _ _ (i * 4 + c) (omega arith) (omega (arith, e, be))
        (omega (arith, o, bo))
      ∙ ap₂ navg_up e o

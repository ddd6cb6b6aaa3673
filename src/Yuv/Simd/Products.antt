-- ===== src/Yuv/Simd/Products.antt =====
-- The products and sums of the vector version: `dot` and `pack`.
use native.Mathlib.Decide.{dec_lt}
use glgrab.Base.{ℕ, ◌+◌, ◌-◌, ◌*◌, ◌/◌, ◌%◌, ◌^◌, ◌<◌, ◌≡◌, refl, ◌∙◌, ap, ap₂, subst, arith, Bool}
use glgrab.Yuv.{
  shift, y_bias, kry, kgy, kby, c_bias, kru, kgu, kbu, krv, kgv, kbv, luma, chroma_u, chroma_v,
}
use glgrab.Yuv.Simd.{Vector, Intrinsics, dot, pack}
use glgrab.Yuv.Simd.Documented.{word, gain, loss, signed_word, saturated, AreDocumented}
use glgrab.Yuv.Simd.Lanes.{Shows, Repeats}

-- A pixel weighed by the coefficients.
abbrev pub weighed : ℕ → ℕ → ℕ → ℕ → ℕ → ℕ → ℕ → ℕ → ℕ
weighed k0 k1 k2 k3 x0 x1 x2 x3 =
    (signed_word (x0 * gain k0 + x1 * gain k1) (x0 * loss k0 + x1 * loss k1)
      + signed_word (x2 * gain k2 + x3 * gain k3) (x2 * loss k2 + x3 * loss k3))
    % 2 ^ 16

-- What a weighed pixel comes to.
abbrev pub packed : ℕ → ℕ → ℕ
packed w bias = saturated ((w + bias) % 2 ^ 16 / 2 ^ shift)

pub packed-luma :
    (a b c d : ℕ)
    → a < 256
    → b < 256
    → c < 256
    → packed (weighed kry kgy kby 0 a b c d) y_bias ≡ luma a b c
unfolding gain loss signed_word saturated luma
packed-luma a b c d ha hb hc = ground arith

pub packed-chroma_u :
    (a b c d : ℕ)
    → a < 256
    → b < 256
    → c < 256
    → packed (weighed (256 - kru) (256 - kgu) kbu 0 a b c d) c_bias ≡ chroma_u a b c
unfolding gain loss signed_word saturated chroma_u
packed-chroma_u a b c d ha hb hc = ground arith

pub packed-chroma_v :
    (a b c d : ℕ)
    → a < 256
    → b < 256
    → c < 256
    → packed (weighed krv (256 - kgv) (256 - kbv) 0 a b c d) c_bias ≡ chroma_v a b c
unfolding gain loss signed_word saturated chroma_v
packed-chroma_v a b c d ha hb hc = ground arith

module _ (mm : Intrinsics) (doc : AreDocumented mm) where
  -- One pair of products, for the bytes and the coefficients at `m0` and `m1`.
  pair_lem :
      (x k : Vector) (j m0 m1 x0 x1 k0 k1 : ℕ)
      → j < 8
      → j * 2 ≡ m0
      → j * 2 + 1 ≡ m1
      → x m0 ≡ x0
      → x m1 ≡ x1
      → k m0 ≡ k0
      → k m1 ≡ k1
      → word (mm.maddubs_epi16 x k) j
        ≡ signed_word (x0 * gain k0 + x1 * gain k1) (x0 * loss k0 + x1 * loss k1)
  pair_lem x k j m0 m1 x0 x1 k0 k1 low e0 e1 a0 a1 b0 b1 =
      doc.maddubs_epi16_lem x k j low ∙ rw (e1, e0, a0, a1, b0, b1) refl

  dot_lem :
      (sse4_1 : Bool) (p0 p1 k : Vector) (f : ℕ → ℕ → ℕ) (k0 k1 k2 k3 : ℕ)
      → Shows p0 p1 f
      → Repeats k k0 k1 k2 k3
      → (i : ℕ) → i < 4
      → (word (dot mm sse4_1 p0 p1 k) i ≡ weighed k0 k1 k2 k3 (f i 0) (f i 1) (f i 2) (f i 3))
        × (word (dot mm sse4_1 p0 p1 k) (4 + i)
            ≡ weighed k0 k1 k2 k3 (f (4 + i) 0) (f (4 + i) 1) (f (4 + i) 2) (f (4 + i) 3))
  unfolding dot
  dot_lem sse4_1 p0 p1 k f k0 k1 k2 k3 shows rep i low =
      let (r0, r1, r2, r3) = rep i low in
      let at = λ (c : ℕ) (h : c < 4). shows i c low h in
      let (first, second) =
        doc.hadd_epi16_lem (mm.maddubs_epi16 p0 k) (mm.maddubs_epi16 p1 k) i low in
      let (s0, t0) = at 0 (omega arith) in
      let (s1, t1) = at 1 (omega arith) in
      let (s2, t2) = at 2 (omega arith) in
      let (s3, t3) = at 3 (omega arith) in
      let low_pair = λ (x : Vector) (x0 x1 : ℕ) (a : x (i * 4 + 0) ≡ x0) (b : x (i * 4 + 1) ≡ x1).
        pair_lem x k (i * 2) (i * 4 + 0) (i * 4 + 1) x0 x1 k0 k1 (omega arith) (omega arith)
          (omega arith) a b r0 r1 in
      let high_pair = λ (x : Vector) (x2 x3 : ℕ) (a : x (i * 4 + 2) ≡ x2) (b : x (i * 4 + 3) ≡ x3).
        pair_lem x k (i * 2 + 1) (i * 4 + 2) (i * 4 + 3) x2 x3 k2 k3 (omega arith) (omega arith)
          (omega arith) a b r2 r3 in
      let sum_up = λ (a b : ℕ). (a + b) % 2 ^ 16 in
      (
        first ∙ ap₂ sum_up (low_pair p0 _ _ s0 s1) (high_pair p0 _ _ s2 s3),
        second ∙ ap₂ sum_up (low_pair p1 _ _ t0 t1) (high_pair p1 _ _ t2 t3),
      )

  pub pack_lem :
      (sse4_1 : Bool) (d0 d1 bias : Vector) (b s : ℕ)
      → s < 16
      → ((i : ℕ) → i < 8 → word bias i ≡ b)
      → (i : ℕ) → i < 8
      → (pack mm sse4_1 d0 d1 bias s i ≡ saturated ((word d0 i + b) % 2 ^ 16 / 2 ^ s))
        × (pack mm sse4_1 d0 d1 bias s (8 + i) ≡ saturated ((word d1 i + b) % 2 ^ 16 / 2 ^ s))
  unfolding pack
  pack_lem sse4_1 d0 d1 bias b s small all i low =
      let one : (d : Vector)
          → word (mm.srli_epi16 (mm.add_epi16 d bias) s) i ≡ (word d i + b) % 2 ^ 16 / 2 ^ s =
        λ d.
          doc.srli_epi16_lem (mm.add_epi16 d bias) s i small low
          ∙ ap (λ (t : ℕ). t / 2 ^ s)
              (doc.add_epi16_lem d bias i low
                ∙ ap (λ (t : ℕ). (word d i + t) % 2 ^ 16) (all i low)) in
      let (first, second) =
        doc.packus_epi16_lem (mm.srli_epi16 (mm.add_epi16 d0 bias) s)
          (mm.srli_epi16 (mm.add_epi16 d1 bias) s) i low in
      (first ∙ ap saturated (one d0), second ∙ ap saturated (one d1))

  -- The words of `dot`, for all eight pixels.
  pub dot_words :
      (sse4_1 : Bool) (p0 p1 k : Vector) (f : ℕ → ℕ → ℕ) (k0 k1 k2 k3 : ℕ)
      → Shows p0 p1 f
      → Repeats k k0 k1 k2 k3
      → (i : ℕ) → i < 8
      → word (dot mm sse4_1 p0 p1 k) i ≡ weighed k0 k1 k2 k3 (f i 0) (f i 1) (f i 2) (f i 3)
  dot_words sse4_1 p0 p1 k f k0 k1 k2 k3 shows rep i low =
      let both = dot_lem sse4_1 p0 p1 k f k0 k1 k2 k3 shows rep in
      let holds : ℕ → Type 0 =
        λ j. word (dot mm sse4_1 p0 p1 k) j ≡ weighed k0 k1 k2 k3 (f j 0) (f j 1) (f j 2) (f j 3) in
      elim (dec_lt i 4) [
        | yes h ↦ (both i h).0
        | no h ↦
            subst holds (let e : 4 + (i - 4) ≡ i = omega arith in e) (both (i - 4) (omega arith)).1
      ]

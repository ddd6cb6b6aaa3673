-- ===== src/Yuv/Simd/Pixels.antt =====
-- The vectors of luma and chroma that `rgba2yuv420p_16x2` makes.
use native.Mathlib.Decide.{dec_lt}
use glgrab.Base.{ℕ, suc, ◌+◌, ◌-◌, ◌*◌, ◌%◌, ◌<◌, ◌≡◌, refl, ◌∙◌, ap, ap₂, subst, arith, Bool}
use glgrab.Yuv.{
  shift, y_bias, kry, kgy, kby, c_bias, kru, kgu, kbu, krv, kgv, kbv, luma_at, chroma_u, chroma_v,
}
use glgrab.Yuv.Simd.{Vector, Intrinsics, coefficients, vector_navg, vector_avg, dot, pack, load}
use glgrab.Yuv.Simd.Documented.{word, AreDocumented}
use glgrab.Yuv.Simd.Lanes.{
  navg_up, avg_up, Shows, vector_navg_lem, load_lem, coefficients-Repeats, vector_avg_lem,
}
use glgrab.Yuv.Simd.Products.{
  dot_words, pack_lem, packed, packed-luma, packed-chroma_u, packed-chroma_v,
}

-- A component averaged over the square of pixels at `p0` and `p1`.
abbrev pub avg_up_at : (ℕ → ℕ) → ℕ → ℕ → ℕ → ℕ
avg_up_at rgba p0 p1 c =
    avg_up (rgba (p0 + c)) (rgba (p1 + c)) (rgba (p0 + 4 + c)) (rgba (p1 + 4 + c))

navg_up-byte : (x y : ℕ) → navg_up x y < 256
unfolding navg_up
navg_up-byte x y = omega arith

pub avg_up-byte : (a b c d : ℕ) → avg_up a b c d < 256
unfolding avg_up
avg_up-byte a b c d = navg_up-byte (navg_up a b) (navg_up c d)

avg_up_at_lem :
    (rgba : ℕ → ℕ) (q0 q1 a0 a1 b0 b1 c : ℕ)
    → a0 ≡ q0 + c
    → a1 ≡ q1 + c
    → b0 ≡ q0 + 4 + c
    → b1 ≡ q1 + 4 + c
    → navg_up (navg_up (rgba a0) (rgba a1)) (navg_up (rgba b0) (rgba b1)) ≡ avg_up_at rgba q0 q1 c
unfolding avg_up
avg_up_at_lem rgba q0 q1 a0 a1 b0 b1 c ea0 ea1 eb0 eb1 =
    ap₂ navg_up (ap₂ navg_up (ap rgba ea0) (ap rgba ea1)) (ap₂ navg_up (ap rgba eb0) (ap rgba eb1))

module _ (mm : Intrinsics) (doc : AreDocumented mm) (sse4_1 : Bool) where
  -- A pair of vectors from memory.
  load-Shows :
      (rgba : ℕ → ℕ) (v k b : ℕ)
      → v % 16 ≡ 0
      → v + k * 16 ≡ b
      → Shows
          (load mm sse4_1 rgba v k)
          (load mm sse4_1 rgba v (suc k))
          (λ i c. rgba (b + i * 4 + c))
  load-Shows rgba v k b whole e i c low lc = (
    load_lem mm doc sse4_1 rgba v k (i * 4 + c) whole (omega arith)
        ∙ ap rgba (let e1 : v + k * 16 + (i * 4 + c) ≡ b + i * 4 + c = omega arith in e1),
    load_lem mm doc sse4_1 rgba v (suc k) (i * 4 + c) whole (omega arith)
        ∙ ap rgba (let e2 : v + suc k * 16 + (i * 4 + c) ≡ b + (4 + i) * 4 + c = omega arith in e2),
  )

  navg-Shows :
      (p0 p1 q0 q1 : Vector) (f g : ℕ → ℕ → ℕ)
      → Shows p0 p1 f
      → Shows q0 q1 g
      → ((i c : ℕ) → f i c < 256)
      → ((i c : ℕ) → g i c < 256)
      → Shows
          (vector_navg mm sse4_1 p0 q0)
          (vector_navg mm sse4_1 p1 q1)
          (λ i c. navg_up (f i c) (g i c))
  navg-Shows p0 p1 q0 q1 f g sp sq bf bg i c low lc =
      let at =
        λ (x y : Vector) (a b : ℕ) (ex : x (i * 4 + c) ≡ a) (ey : y (i * 4 + c) ≡ b) (ha : a < 256)
            (hb : b < 256).
          vector_navg_lem mm doc sse4_1 x y (i * 4 + c) (omega arith) (omega (arith, ex, ha))
            (omega (arith, ey, hb))
          ∙ ap₂ navg_up ex ey in
      let (x0, x1) = sp i c low lc in
      let (y0, y1) = sq i c low lc in
      (at p0 q0 _ _ x0 y0 (bf i c) (bg i c), at p1 q1 _ _ x1 y1 (bf (4 + i) c) (bg (4 + i) c))

  -- The averages of eight squares: the first four from `n0` and `n1`, the others from `n2` and `n3`.
  avg-Shows :
      (n0 n1 n2 n3 : Vector) (f g h : ℕ → ℕ → ℕ)
      → Shows n0 n1 f
      → Shows n2 n3 g
      → ((i c : ℕ) → f i c < 256)
      → ((i c : ℕ) → g i c < 256)
      → ((i c : ℕ) → navg_up (f (i * 2) c) (f (i * 2 + 1) c) ≡ h i c)
      → ((i c : ℕ) → navg_up (g (i * 2) c) (g (i * 2 + 1) c) ≡ h (4 + i) c)
      → Shows (vector_avg mm sse4_1 n0 n1) (vector_avg mm sse4_1 n2 n3) h
  avg-Shows n0 n1 n2 n3 f g h sf sg bf bg ef eg i c low lc = (
    vector_avg_lem mm doc sse4_1 n0 n1 f sf (λ i c _ _. bf i c) i c low lc ∙ ef i c,
    vector_avg_lem mm doc sse4_1 n2 n3 g sg (λ i c _ _. bg i c) i c low lc ∙ eg i c,
  )

  module _ (rgba : ℕ → ℕ) (bytes : (j : ℕ) → rgba j < 256) where
    -- What is stored for the 16 pixels at `v`.
    abbrev pub lumas : ℕ → Vector
    lumas v =
        let k = mm.set_epi8 (coefficients kry kgy kby) in
        pack mm sse4_1 (dot mm sse4_1 (load mm sse4_1 rgba v 0) (load mm sse4_1 rgba v 1) k)
          (dot mm sse4_1 (load mm sse4_1 rgba v 2) (load mm sse4_1 rgba v 3) k)
          (mm.set1_epi16 y_bias) shift

    luma_word :
        (v n b i p : ℕ)
        → v % 16 ≡ 0
        → v + n * 16 ≡ b
        → i < 8
        → b + i * 4 ≡ p
        → let k = mm.set_epi8 (coefficients kry kgy kby) in
          let d = dot mm sse4_1 (load mm sse4_1 rgba v n) (load mm sse4_1 rgba v (suc n)) k in
          packed (word d i) y_bias ≡ luma_at rgba p
    luma_word v n b i p whole eb low ep =
        let k = mm.set_epi8 (coefficients kry kgy kby) in
        let zero_added : p + 0 ≡ p = omega arith in
        ap (λ (w : ℕ). packed w y_bias)
          (dot_words mm doc sse4_1 (load mm sse4_1 rgba v n) (load mm sse4_1 rgba v (suc n)) k
            (λ i c. rgba (b + i * 4 + c)) kry kgy kby 0 (load-Shows rgba v n b whole eb)
            (coefficients-Repeats mm doc kry kgy kby (omega arith) (omega arith) (omega arith)) i
            low)
        ∙ packed-luma _ _ _ _ (bytes _) (bytes _) (bytes _)
        ∙ rw ep (rw zero_added refl)

    pub lumas_lem : (v j p : ℕ) → v % 16 ≡ 0 → j < 16 → v + j * 4 ≡ p → lumas v j ≡ luma_at rgba p
    lumas_lem v j p whole low e =
        let k = mm.set_epi8 (coefficients kry kgy kby) in
        let d =
          λ (n : ℕ). dot mm sse4_1 (load mm sse4_1 rgba v n) (load mm sse4_1 rgba v (suc n)) k in
        let halves =
          pack_lem mm doc sse4_1 (d 0) (d 2) (mm.set1_epi16 y_bias) y_bias shift (omega arith)
            (λ i li. doc.set1_epi16_lem y_bias i (omega arith) li) in
        elim (dec_lt j 8) [
          | yes h ↦ (halves j h).0 ∙ luma_word v 0 v j p whole (omega arith) h e
          | no h ↦
              subst (λ t. lumas v t ≡ luma_at rgba p) (let e1 : 8 + (j - 8) ≡ j = omega arith in e1)
                ((halves (j - 8) (omega arith)).1
                  ∙ luma_word v 2 (v + 32) (j - 8) p whole (omega arith) (omega arith)
                      (omega arith))
        ]

    -- The averages of the squares at `r0` and `r1`, and what is returned for them.
    abbrev pub rows_avg : ℕ → ℕ → ℕ → Vector
    rows_avg r0 r1 n =
        vector_avg mm sse4_1
          (vector_navg mm sse4_1 (load mm sse4_1 rgba r0 n) (load mm sse4_1 rgba r1 n))
          (vector_navg mm sse4_1 (load mm sse4_1 rgba r0 (suc n)) (load mm sse4_1 rgba r1 (suc n)))

    abbrev pub chromas : ℕ → ℕ → Vector
    chromas r0 r1 =
        let u = mm.set_epi8 (coefficients (256 - kru) (256 - kgu) kbu) in
        let v = mm.set_epi8 (coefficients krv (256 - kgv) (256 - kbv)) in
        pack mm sse4_1 (dot mm sse4_1 (rows_avg r0 r1 0) (rows_avg r0 r1 2) u)
          (dot mm sse4_1 (rows_avg r0 r1 0) (rows_avg r0 r1 2) v) (mm.set1_epi16 c_bias) shift

    rows_avg-Shows :
        (r0 r1 : ℕ)
        → r0 % 16 ≡ 0
        → r1 % 16 ≡ 0
        → Shows
            (rows_avg r0 r1 0)
            (rows_avg r0 r1 2)
            (λ i c. avg_up_at rgba (r0 + i * 8) (r1 + i * 8) c)
    unfolding avg_up
    rows_avg-Shows r0 r1 whole0 whole1 =
        let half = λ (n b : ℕ) (e0 : r0 + n * 16 ≡ r0 + b) (e1 : r1 + n * 16 ≡ r1 + b).
          navg-Shows (load mm sse4_1 rgba r0 n) (load mm sse4_1 rgba r0 (suc n))
            (load mm sse4_1 rgba r1 n) (load mm sse4_1 rgba r1 (suc n))
            (λ i c. rgba (r0 + b + i * 4 + c)) (λ i c. rgba (r1 + b + i * 4 + c))
            (load-Shows rgba r0 n (r0 + b) whole0 e0) (load-Shows rgba r1 n (r1 + b) whole1 e1)
            (λ i c. bytes _) (λ i c. bytes _) in
        let f = λ (b i c : ℕ). navg_up (rgba (r0 + b + i * 4 + c)) (rgba (r1 + b + i * 4 + c)) in
        avg-Shows _ _ _ _ (f 0) (f 32) _ (half 0 0 (omega arith) (omega arith))
          (half 2 32 (omega arith) (omega arith)) (λ i c. navg_up-byte _ _)
          (λ i c. navg_up-byte _ _)
          (λ i c.
            avg_up_at_lem rgba (r0 + i * 8) (r1 + i * 8) _ _ _ _ c (omega arith) (omega arith)
              (omega arith) (omega arith))
          (λ i c.
            avg_up_at_lem rgba (r0 + (4 + i) * 8) (r1 + (4 + i) * 8) _ _ _ _ c (omega arith)
              (omega arith) (omega arith) (omega arith))

    -- The chroma of the square number `i`.
    pub chromas_lem :
        (r0 r1 i p0 p1 : ℕ)
        → r0 % 16 ≡ 0
        → r1 % 16 ≡ 0
        → i < 8
        → r0 + i * 8 ≡ p0
        → r1 + i * 8 ≡ p1
        → let at = avg_up_at rgba p0 p1 in
          (chromas r0 r1 i ≡ chroma_u (at 0) (at 1) (at 2))
          × (chromas r0 r1 (8 + i) ≡ chroma_v (at 0) (at 1) (at 2))
    chromas_lem r0 r1 i p0 p1 whole0 whole1 low e0 e1 =
        let u = mm.set_epi8 (coefficients (256 - kru) (256 - kgu) kbu) in
        let v = mm.set_epi8 (coefficients krv (256 - kgv) (256 - kbv)) in
        let a = rows_avg r0 r1 in
        let f = λ (i c : ℕ). avg_up_at rgba (r0 + i * 8) (r1 + i * 8) c in
        let shows = rows_avg-Shows r0 r1 whole0 whole1 in
        let (first, second) =
          pack_lem mm doc sse4_1 (dot mm sse4_1 (a 0) (a 2) u) (dot mm sse4_1 (a 0) (a 2) v)
            (mm.set1_epi16 c_bias) c_bias shift (omega arith)
            (λ i li. doc.set1_epi16_lem c_bias i (omega arith) li) i low in
        let word_u =
          dot_words mm doc sse4_1 (a 0) (a 2) u f (256 - kru) (256 - kgu) kbu 0 shows
            (coefficients-Repeats mm doc (256 - kru) (256 - kgu) kbu (omega arith) (omega arith)
              (omega arith))
            i low in
        let word_v =
          dot_words mm doc sse4_1 (a 0) (a 2) v f krv (256 - kgv) (256 - kbv) 0 shows
            (coefficients-Repeats mm doc krv (256 - kgv) (256 - kbv) (omega arith) (omega arith)
              (omega arith))
            i low in
        (
          first
              ∙ ap (λ (w : ℕ). packed w c_bias) word_u
              ∙ packed-chroma_u _ _ _ _ (avg_up-byte _ _ _ _) (avg_up-byte _ _ _ _)
                  (avg_up-byte _ _ _ _)
              ∙ rw (e0, e1) refl,
          second
              ∙ ap (λ (w : ℕ). packed w c_bias) word_v
              ∙ packed-chroma_v _ _ _ _ (avg_up-byte _ _ _ _) (avg_up-byte _ _ _ _)
                  (avg_up-byte _ _ _ _)
              ∙ rw (e0, e1) refl,
        )

-- ===== src/Yuv/Simd/Tests.antt =====
-- Intrinsics by their documentation, and the vector version run with them.
use glgrab.Base.{
  ℕ, ◌+◌, ◌-◌, ◌*◌, ◌/◌, ◌%◌, ◌^◌, ◌<◌, ◌≡◌, refl, ◌∙◌, arith, true, false, Option, none, some,
  get_elem?, ◌==◌, ltb, if◌then◌else◌,
}
use Prim.Native.Nat.{bit_xor}
use glgrab.Yuv.{
  avg, luma, chroma_u, chroma_v, rgba2yuv420p_2x2, convert_row, convert_rows, rgba2yuv420p,
}
use glgrab.Yuv.Simd.{
  Vector, Intrinsics, vector_navg, vector_avg, dot, pack, load, rgba2yuv420p_16x2,
  rgba2yuv420p_32x2, vector_row, vector_rows, vector_rgba2yuv420p,
}
use glgrab.Yuv.Simd.Documented.{word, gain, loss, signed_word, saturated, stored, AreDocumented}
use glgrab.Yuv.Simd.Close.{AgreesOnSquare, vector_rgba2yuv420p-AgreesOnSquare}

unfoldable of_words : (ℕ → ℕ) → Vector
of_words w i = if i % 2 == 0 then w (i / 2) % 256 else w (i / 2) / 256

word-of_words : (w : ℕ → ℕ) (i : ℕ) → word (of_words w) i ≡ w i
unfolding word of_words
word-of_words w i =
    let even : i * 2 % 2 ≡ 0 = omega arith in
    let odd : (i * 2 + 1) % 2 ≡ 1 = omega arith in
    let half : i * 2 / 2 ≡ i = omega arith in
    let half' : (i * 2 + 1) / 2 ≡ i = omega arith in rw (even, odd, half, half') (omega arith)

byte_of : Option ℕ → ℕ
byte_of none = 0
byte_of (some n) = n

-- Lanes of `n` bytes in turn from `x` and `y`, from their byte `start` on.
unfoldable interleaved : ℕ → ℕ → Vector → Vector → Vector
interleaved n start x y i =
    let k = start + i / (n * 2) * n + i % n in if i / n % 2 == 0 then x k else y k

interleaved_first :
    (n start : ℕ) (x y : Vector) (j p : ℕ)
    → j / n % 2 ≡ 0
    → start + j / (n * 2) * n + j % n ≡ p
    → interleaved n start x y j ≡ x p
unfolding interleaved
interleaved_first n start x y j p h e = rw (h, e) refl

interleaved_second :
    (n start : ℕ) (x y : Vector) (j p : ℕ)
    → j / n % 2 ≡ 1
    → start + j / (n * 2) * n + j % n ≡ p
    → interleaved n start x y j ≡ y p
unfolding interleaved
interleaved_second n start x y j p h e = rw (h, e) refl

abbrev documented : Intrinsics
documented = record {
  set_epi8 = λ l i. byte_of (get_elem? l (15 - i));
  set1_epi8 = λ n i. n;
  set1_epi16 = λ n. of_words (λ i. n);
  avg_epu8 = λ x y i. (x i + y i + 1) / 2;
  xor_si128 = λ x y i. bit_xor (x i) (y i);
  unpacklo_epi32 = interleaved 4 0;
  unpackhi_epi32 = interleaved 4 8;
  unpacklo_epi64 = interleaved 8 0;
  unpackhi_epi64 = interleaved 8 8;
  maddubs_epi16 = λ x k. of_words (λ i.
      signed_word (x (i * 2) * gain (k (i * 2)) + x (i * 2 + 1) * gain (k (i * 2 + 1)))
        (x (i * 2) * loss (k (i * 2)) + x (i * 2 + 1) * loss (k (i * 2 + 1))));
  hadd_epi16 = λ x y. of_words (λ i.
      if ltb i 4
      then (word x (i * 2) + word x (i * 2 + 1)) % 2 ^ 16
      else (word y ((i - 4) * 2) + word y ((i - 4) * 2 + 1)) % 2 ^ 16);
  add_epi16 = λ x y. of_words (λ i. (word x i + word y i) % 2 ^ 16);
  srli_epi16 = λ x s. of_words (λ i. word x i / 2 ^ s);
  packus_epi16 = λ x y i. if ltb i 8 then saturated (word x i) else saturated (word y (i - 8));
  load_si128 = λ memory a i. memory (a + i);
  stream_load_si128 = λ memory a i. memory (a + i);
  stream_si128 = stored;
}

documented-AreDocumented : AreDocumented documented
unfolding byte_of
documented-AreDocumented = record {
  set_epi8_lem = λ l i n low small e. rw e refl;
  set1_epi8_lem = λ n i small low. refl;
  set1_epi16_lem = λ n i small low. word-of_words _ i;
  avg_epu8_lem = λ x y i low a b. refl;
  xor_si128_lem = λ x y i low. refl;
  unpacklo_epi32_lem = λ x y i low. (
    interleaved_first 4 0 x y i i (omega arith) (omega arith),
    interleaved_second 4 0 x y (4 + i) i (omega arith) (omega arith),
    interleaved_first 4 0 x y (8 + i) (4 + i) (omega arith) (omega arith),
    interleaved_second 4 0 x y (12 + i) (4 + i) (omega arith) (omega arith),
  );
  unpackhi_epi32_lem = λ x y i low. (
    interleaved_first 4 8 x y i (8 + i) (omega arith) (omega arith),
    interleaved_second 4 8 x y (4 + i) (8 + i) (omega arith) (omega arith),
    interleaved_first 4 8 x y (8 + i) (12 + i) (omega arith) (omega arith),
    interleaved_second 4 8 x y (12 + i) (12 + i) (omega arith) (omega arith),
  );
  unpacklo_epi64_lem = λ x y i low. (
    interleaved_first 8 0 x y i i (omega arith) (omega arith),
    interleaved_second 8 0 x y (8 + i) i (omega arith) (omega arith),
  );
  unpackhi_epi64_lem = λ x y i low. (
    interleaved_first 8 8 x y i (8 + i) (omega arith) (omega arith),
    interleaved_second 8 8 x y (8 + i) (8 + i) (omega arith) (omega arith),
  );
  maddubs_epi16_lem = λ x k i low. word-of_words _ i;
  hadd_epi16_lem = λ x y i low.
      let below : ltb i 4 ≡ true = ground arith in
      let above : ltb (4 + i) 4 ≡ false = ground arith in
      let back : 4 + i - 4 ≡ i = omega arith in
      (word-of_words _ i ∙ rw below refl, word-of_words _ (4 + i) ∙ rw (above, back) refl);
  add_epi16_lem = λ x y i low. word-of_words _ i;
  srli_epi16_lem = λ x s i small low. word-of_words _ i;
  packus_epi16_lem = λ x y i low.
      let below : ltb i 8 ≡ true = ground arith in
      let above : ltb (8 + i) 8 ≡ false = ground arith in
      let back : 8 + i - 8 ≡ i = omega arith in (rw below refl, rw (above, back) refl);
  load_si128_lem = λ memory a i whole low. refl;
  stream_load_si128_lem = λ memory a i whole low. refl;
  stream_si128_lem = λ memory a x j whole. refl;
}

-- One block of pixels with only their third component, 2 in the upper row and 1 in the lower.
abbrev faint : ℕ → ℕ
faint j = if j % 4 == 2 then if ltb j 128 then 2 else 1 else 0

abbrev zeros : ℕ → ℕ
zeros j = 0

faint_byte : (j : ℕ) → faint j < 256
faint_byte j = ground arith

rounded_up : vector_rgba2yuv420p documented true faint 1 1 zeros 64 ≡ 129
unfolding vector_rgba2yuv420p vector_rows vector_row rgba2yuv420p_32x2 rgba2yuv420p_16x2 vector_avg
    vector_navg dot pack load of_words byte_of interleaved word gain loss signed_word saturated
    stored
rounded_up = refl

rounded_down : rgba2yuv420p faint 1 1 zeros 64 ≡ 128
unfolding rgba2yuv420p convert_rows convert_row rgba2yuv420p_2x2 luma chroma_u chroma_v avg
rounded_down = refl

vector_rgba2yuv420p-AgreesOnSquare_example :
    AgreesOnSquare
      (vector_rgba2yuv420p documented true faint 1 2 zeros)
      (rgba2yuv420p faint 1 2 zeros)
      94
      126
      159
      191
vector_rgba2yuv420p-AgreesOnSquare_example =
    vector_rgba2yuv420p-AgreesOnSquare documented true faint zeros 1 2 1 15 documented-AreDocumented
      faint_byte (omega arith) (omega arith)

-- ===== src/Yuv/Simd/Close.antt =====
-- The vector version of rgba2yuv420p.c next to the scalar one.
use glgrab.Base.{ℕ, ◌+◌, ◌*◌, ◌≤◌, ◌<◌, ◌≡◌, sym, ◌∙◌, arith, Bool}
use glgrab.Yuv.{avg, avg_at, chroma_u, chroma_v, rgba2yuv420p}
use glgrab.Yuv.Block.{IsConverted}
use glgrab.Yuv.Frame.{rgba2yuv420p-IsSquare, rgba2yuv420p-unchanged}
use glgrab.Yuv.Simd.{Intrinsics, vector_rgba2yuv420p}
use glgrab.Yuv.Simd.Documented.{AreDocumented}
use glgrab.Yuv.Simd.Lanes.{avg_up}
use glgrab.Yuv.Simd.Pixels.{avg_up_at, avg_up-byte}
use glgrab.Yuv.Simd.Block.{IsVectorised}
use glgrab.Yuv.Simd.Frame.{vector_rgba2yuv420p-IsVectorSquare, vector_rgba2yuv420p-unchanged}

-- They differ by 1 at most.
abbrev pub IsNear : ℕ → ℕ → Type 0
IsNear a b = (a ≤ b + 1) × (b ≤ a + 1)

-- A square with its lumas at `y0`, `y0 + 1`, `y1` and `y1 + 1` and its chromas at `u` and `v`: the
-- lumas are the same in both outputs, and the chromas near.
pub record AgreesOnSquare (out out' : ℕ → ℕ) (y0 y1 u v : ℕ) : Type 0 where
  pub upper_left : out y0 ≡ out' y0
  pub upper_right : out (y0 + 1) ≡ out' (y0 + 1)
  pub lower_left : out y1 ≡ out' y1
  pub lower_right : out (y1 + 1) ≡ out' (y1 + 1)
  pub blue : IsNear (out u) (out' u)
  pub red : IsNear (out v) (out' v)

avg-IsNear :
    (a b c d : ℕ)
    → a < 256
    → b < 256
    → c < 256
    → d < 256
    → IsNear (avg_up a b c d) (avg a b c d) × (avg a b c d < 256)
unfolding avg_up avg
avg-IsNear a b c d ha hb hc hd = omega arith

chroma_u-IsNear :
    (a b c a' b' c' : ℕ)
    → (a < 256) × (b < 256) × (c < 256)
    → (a' < 256) × (b' < 256) × (c' < 256)
    → IsNear a a' × IsNear b b' × IsNear c c'
    → IsNear (chroma_u a b c) (chroma_u a' b' c')
unfolding chroma_u
chroma_u-IsNear a b c a' b' c' h h' near = omega arith

chroma_v-IsNear :
    (a b c a' b' c' : ℕ)
    → (a < 256) × (b < 256) × (c < 256)
    → (a' < 256) × (b' < 256) × (c' < 256)
    → IsNear a a' × IsNear b b' × IsNear c c'
    → IsNear (chroma_v a b c) (chroma_v a' b' c')
unfolding chroma_v
chroma_v-IsNear a b c a' b' c' h h' near = omega arith

averages-IsNear :
    (rgba : ℕ → ℕ) (p0 p1 : ℕ)
    → ((j : ℕ) → rgba j < 256)
    → (c : ℕ) → IsNear (avg_up_at rgba p0 p1 c) (avg_at rgba p0 p1 c) × (avg_at rgba p0 p1 c < 256)
averages-IsNear rgba p0 p1 bytes c =
    avg-IsNear (rgba (p0 + c)) (rgba (p1 + c)) (rgba (p0 + 4 + c)) (rgba (p1 + 4 + c)) (bytes _)
      (bytes _) (bytes _) (bytes _)

avg_up_at-byte : (rgba : ℕ → ℕ) (p0 p1 c : ℕ) → avg_up_at rgba p0 p1 c < 256
avg_up_at-byte rgba p0 p1 c = avg_up-byte _ _ _ _

IsNear-move : {x y x' y' : ℕ} → x ≡ x' → y ≡ y' → IsNear x' y' → IsNear x y
IsNear-move e e' near = omega (arith, e, e', near)

square-agrees :
    (rgba out out' : ℕ → ℕ) (p0 p1 y0 y1 u v : ℕ)
    → ((j : ℕ) → rgba j < 256)
    → IsVectorised rgba out p0 p1 y0 y1 u v
    → IsConverted rgba out' p0 p1 y0 y1 u v
    → AgreesOnSquare out out' y0 y1 u v
square-agrees rgba out out' p0 p1 y0 y1 u v bytes s s' =
    let near = averages-IsNear rgba p0 p1 bytes in
    let up = avg_up_at-byte rgba p0 p1 in
    record {
      upper_left = s.upper_left ∙ sym s'.upper_left;
      upper_right = s.upper_right ∙ sym s'.upper_right;
      lower_left = s.lower_left ∙ sym s'.lower_left;
      lower_right = s.lower_right ∙ sym s'.lower_right;
      blue = IsNear-move s.blue s'.blue (
          chroma_u-IsNear _ _ _ _ _ _ (up 0, up 1, up 2) ((near 0).1, (near 1).1, (near 2).1)
            ((near 0).0, (near 1).0, (near 2).0));
      red = IsNear-move s.red s'.red (
          chroma_v-IsNear _ _ _ _ _ _ (up 0, up 1, up 2) ((near 0).1, (near 1).1, (near 2).1)
            ((near 0).0, (near 1).0, (near 2).0));
    }

AgreesOnSquare-move :
    {out out' : ℕ → ℕ} (y0 y1 u v y0' y1' u' v' : ℕ)
    → (y0 ≡ y0') × (y1 ≡ y1') × (u ≡ u') × (v ≡ v')
    → AgreesOnSquare out out' y0 y1 u v
    → AgreesOnSquare out out' y0' y1' u' v'
AgreesOnSquare-move y0 y1 u v y0' y1' u' v' (a, b, c, d) h = rw (← a, ← b, ← c, ← d) h

-- With intrinsics that are as documented, with and without SSE4.1, and of bytes: the two versions
-- agree on each square of the frame, with the same four bytes of luma, and chroma bytes that differ
-- by 1 at most.
pub vector_rgba2yuv420p-AgreesOnSquare :
    (mm : Intrinsics) (sse4_1 : Bool) (rgba yuv : ℕ → ℕ) (width32 height2 r i : ℕ)
    → AreDocumented mm
    → ((j : ℕ) → rgba j < 256)
    → r < height2
    → i < width32 * 16
    → let n = width32 * 16 in
      AgreesOnSquare
        (vector_rgba2yuv420p mm sse4_1 rgba width32 height2 yuv)
        (rgba2yuv420p rgba width32 height2 yuv)
        (r * (n * 4) + i * 2)
        (r * (n * 4) + n * 2 + i * 2)
        (n * height2 * 4 + r * n + i)
        (n * height2 * 5 + r * n + i)
vector_rgba2yuv420p-AgreesOnSquare mm sse4_1 rgba yuv width32 height2 r i doc bytes lr li =
    let n = width32 * 16 in
    AgreesOnSquare-move (0 + r * (n * 4) + i * 2) (0 + r * (n * 4) + n * 2 + i * 2)
      (n * height2 * 4 + r * n + i * 1) (n * height2 * 5 + r * n + i * 1) _ _ _ _ (omega arith)
      (square-agrees rgba _ _ _ _ _ _ _ _ bytes
        (vector_rgba2yuv420p-IsVectorSquare mm doc sse4_1 rgba bytes width32 height2 yuv r i lr li)
        (rgba2yuv420p-IsSquare rgba yuv width32 height2 r i lr li))

-- With intrinsics that are as documented, and of bytes: behind the three planes, which take 96 bytes
-- for each 32 pixels of two rows, neither version writes anything.
pub vector_rgba2yuv420p-ends :
    (mm : Intrinsics) (sse4_1 : Bool) (rgba yuv : ℕ → ℕ) (width32 height2 j : ℕ)
    → AreDocumented mm
    → ((k : ℕ) → rgba k < 256)
    → width32 * height2 * 96 ≤ j
    → (vector_rgba2yuv420p mm sse4_1 rgba width32 height2 yuv j ≡ yuv j)
      × (rgba2yuv420p rgba width32 height2 yuv j ≡ yuv j)
vector_rgba2yuv420p-ends mm sse4_1 rgba yuv width32 height2 j doc bytes h = (
  vector_rgba2yuv420p-unchanged mm doc sse4_1 rgba bytes width32 height2 yuv j h,
  rgba2yuv420p-unchanged rgba yuv width32 height2 j h,
)

-- ===== src/Grab/Align.antt =====
-- The padded size of a frame, and the room that it takes in the ring buffer.
use glgrab.Base.{ℕ, ◌+◌, ◌*◌, ◌/◌, ◌%◌, ◌^◌, ◌≤◌, ◌<◌, ◌≡◌, arith}
use glgrab.Mrb.{shr}
use glgrab.Yuv.{rgba2yuv420p}
use glgrab.Yuv.Frame.{rgba2yuv420p-unchanged}
use glgrab.Grab.{u32, TakeEnv, Glgrab, align, frame_size, new_frame, width_align, height_align}

-- Sizes up to 2 ^ 31, whose bytes in YUV can be counted in 32 bits.
abbrev pub IsFrameSize : ℕ → ℕ → Type 0
IsFrameSize width height =
    (width ≤ 2 ^ 31)
    × (height ≤ 2 ^ 31)
    × (align width width_align * align height height_align * 96 < 2 ^ 32)

align_width : (x : ℕ) → x ≤ 2 ^ 31 → align x 5 ≡ (x + 31) / 32
unfolding align
align_width x h = omega arith

align_height : (x : ℕ) → x ≤ 2 ^ 31 → align x 1 ≡ (x + 1) / 2
unfolding align
align_height x h = omega arith

-- Up to 2 ^ 31, the padded width and height of a frame are the least multiples of 32 and of 2 that
-- are not below its width and height.
new_frame-padded :
    (env : TakeEnv) (width height ptr : ℕ) (g : Glgrab)
    → width ≤ 2 ^ 31
    → height ≤ 2 ^ 31
    → let f = new_frame env width height ptr g in
      ((f.padded_width % 32 ≡ 0) × (width ≤ f.padded_width) × (f.padded_width < width + 32))
      × ((f.padded_height % 2 ≡ 0) × (height ≤ f.padded_height) × (f.padded_height < height + 2))
unfolding new_frame
new_frame-padded env width height ptr g hw hh =
    rw (align_width width hw, align_height height hh) (omega arith)

-- The engines convert a frame by `rgba2yuv420p`, of its padded size. As long as the bytes can be
-- counted in 32 bits, they all fit what `glgrab_take_frame` has asked `mrb_reserve` for, behind
-- the 64 bytes of the frame's header: past it nothing is written.
pub frame_size-enough :
    (env : TakeEnv) (width height ptr : ℕ) (g : Glgrab) (rgba yuv : ℕ → ℕ) (j : ℕ)
    → IsFrameSize width height
    → frame_size width height ≤ 64 + j
    → let f = new_frame env width height ptr g in
      rgba2yuv420p rgba (shr f.padded_width width_align) (shr f.padded_height height_align) yuv j
      ≡ yuv j
unfolding new_frame frame_size
frame_size-enough env width height ptr g rgba yuv j (hw, hh, small) h =
    let w32 = align width 5 in
    let h2 = align height 1 in
    let ew : shr (u32 (w32 * 2 ^ 5)) 5 ≡ w32 = omega (arith, align_width width hw) in
    let eh : shr (u32 (h2 * 2 ^ 1)) 1 ≡ h2 = omega (arith, align_height height hh) in
    rw (ew, eh) (rgba2yuv420p-unchanged rgba yuv w32 h2 j (omega arith))

-- ===== src/Yuv/Tests.antt =====
-- The conversion at concrete inputs.
use glgrab.Base.{ℕ, ◌+◌, ◌-◌, ◌/◌, ◌^◌, ◌<◌, ◌*◌, ◌%◌, ◌≤◌, ◌≡◌, refl, arith}
use glgrab.Yuv.{
  y_bias, c_bias, kry, kgy, kby, kru, kgu, kbu, krv, kgv, kbv, avg, luma, chroma_u, chroma_v,
  rgba2yuv420p_2x2, convert_row, convert_rows, rgba2yuv420p,
}
use glgrab.Yuv.Range.{studio_range}
use glgrab.Yuv.Frame.{IsSquare, rgba2yuv420p-IsSquare}

abbrev picture : ℕ → ℕ
picture j = j * 7 % 256

abbrev zeros : ℕ → ℕ
zeros j = 0

primary_colours :
    (luma 255 255 255 ≡ 235)
    × (luma 0 0 0 ≡ 16)
    × (chroma_v 255 0 0 ≡ 240)
    × (chroma_u 0 0 255 ≡ 240)
unfolding luma chroma_u chroma_v
primary_colours = (refl, refl, refl, refl)

-- The last byte that is written, and the next.
one_block : (rgba2yuv420p picture 1 1 zeros 95 ≡ 125) × (rgba2yuv420p picture 1 1 zeros 96 ≡ 0)
unfolding rgba2yuv420p convert_rows convert_row rgba2yuv420p_2x2 luma chroma_u chroma_v avg
one_block = (refl, refl)

studio_range_example :
    let y = y_bias + kry * 1 + kgy * 2 + kby * 250 in
    let u = c_bias + kbu * 250 - (kru * 1 + kgu * 2) in
    let v = c_bias + krv * 1 - (kgv * 2 + kbv * 250) in
    ((16 ≤ luma 1 2 250) × (luma 1 2 250 ≤ 235) × (y < 2 ^ 16) × (luma 1 2 250 ≡ y / 2 ^ 7))
    × ((16 ≤ chroma_u 1 2 250)
        × (chroma_u 1 2 250 ≤ 240)
        × (kru * 1 + kgu * 2 ≤ c_bias + kbu * 250)
        × (u < 2 ^ 16)
        × (chroma_u 1 2 250 ≡ u / 2 ^ 7))
    × ((16 ≤ chroma_v 1 2 250)
        × (chroma_v 1 2 250 ≤ 240)
        × (kgv * 2 + kbv * 250 ≤ c_bias + krv * 1)
        × (v < 2 ^ 16)
        × (chroma_v 1 2 250 ≡ v / 2 ^ 7))
studio_range_example = studio_range 1 2 250 (omega arith)

rgba2yuv420p-IsSquare_example :
    IsSquare picture (rgba2yuv420p picture 1 2 zeros) 16 0 0 128 160 1 15
rgba2yuv420p-IsSquare_example =
    rgba2yuv420p-IsSquare picture zeros 1 2 1 15 (omega arith) (omega arith)

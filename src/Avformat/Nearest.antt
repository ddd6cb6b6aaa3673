-- ===== src/Avformat/Nearest.antt =====
-- Which of two packets in one slot is returned.
use glgrab.Base.{ℕ, ◌+◌, ◌-◌, ◌^◌, ◌≤◌, ◌<◌, ◌≡◌, ◌⊎◌, arith, some}
use glgrab.Avformat.{Ffmpeg, Packet, Priv, close_slot}

-- The distance of two times.
abbrev pub apart : ℕ → ℕ → ℕ
apart a b = (a - b) + (b - a)

-- For a slot at `ts` that is over at `ns`: if the packet that was kept is from a time up to `ts`,
-- the packet whose frame is nearer to `ts` is returned, the later one if both are as near; if the
-- kept packet is from a time after `ts`, too, the later one is returned, though it is not nearer.
pub close_slot_lem :
    (av : Ffmpeg) (p0 p1 : Packet) (ns : ℕ) (g : Priv)
    → av.to_ns p1.pts ≤ ns
    → g.ts0 ≤ ns
    → ns < 2 ^ 63
    → let ts = av.to_ns p1.pts in
      let first = apart g.ts0 ts in
      let second = apart ns ts in
      let g' = close_slot av p0 p1 ns g in
      (g'.last_pts ≡ some p1.pts)
      × (((g.ts0 ≤ ts)
            × (((first < second) × (g'.pkt ≡ some p0)) ⊎ ((second ≤ first) × (g'.pkt ≡ some p1))))
          ⊎ ((ts < g.ts0) × (first ≤ second) × (g'.pkt ≡ some p1)))
unfolding close_slot
close_slot_lem av p0 p1 ns g over order small = ground arith

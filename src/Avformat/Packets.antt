-- ===== src/Avformat/Packets.antt =====
-- Who has the memory of the packets: nothing is lost, and nothing is freed twice.
use glgrab.Base.{
  ℕ, ◌+◌, ◌≡◌, inl, inr, refl, ap, arith, Option, none, some, List, ◌∷◌, count, ltb, ◌==◌,
  if◌then◌else◌, Bool-cases,
}
use glgrab.Avformat.{
  Ffmpeg, Packet, Priv, Outcome, Round, free_packet, close_slot, place_packet, new_packet,
  read_packet,
}
use glgrab.Avformat.Loop.{Core, core, Post, read_packet_rule}

abbrev pub count_packet : ℕ → Option Packet → ℕ
count_packet a none = 0
count_packet a (some p) = if p.buffer == a then 1 else 0

-- How often the buffer `a` is the caller's, is kept for the next call, or has been freed.
abbrev pub places : ℕ → Core → ℕ
places a g = count_packet a g.pkt + count_packet a g.pkt0 + count a g.freed

-- From `g` to `g'`, `a` has come to as many places more as it was made more often.
abbrev pub Balances : ℕ → Core → Core → Type 0
Balances a g g' = places a g' + count a g.made ≡ places a g + count a g'.made

count-free_packet :
    (a : ℕ) (o : Option Packet) (freed : List ℕ)
    → count a (free_packet o freed) ≡ count_packet a o + count a freed
count-free_packet a none freed = omega arith
count-free_packet a (some p) freed = refl

module _ (av : Ffmpeg) (a : ℕ) (g0 : Core) where
  abbrev Balanced : Core → Type 0
  Balanced = Balances a g0

  close_slot-places :
      (p0 p1 : Packet) (ns : ℕ) (g : Priv)
      → let g' = close_slot av p0 p1 ns g in
        (places a (core g')
          ≡ count_packet a g.pkt
            + count_packet a (some p0)
            + count_packet a (some p1)
            + count a g.freed)
        × (count a g'.made ≡ count a g.made)
  unfolding close_slot
  close_slot-places p0 p1 ns g = ground (arith, count-free_packet a g.pkt g.freed)

  place_packet-Balanced :
      (o : Option Packet) (p1 : Packet) (ns : ℕ) (g : Priv)
      → g.pkt0 ≡ o
      → places a (core g) + count_packet a (some p1) + count a g0.made
        ≡ places a g0 + count a g.made
      → Post Balanced (λ _ c. Balanced c) (place_packet av o p1 ns g)
  unfolding place_packet
  place_packet-Balanced none p1 ns g at h =
      let empty = ap (count_packet a) at in
      elim (Bool-cases (av.not_after ns p1.pts)) [
        | inl e ↦ rw (e) (omega (arith, h, empty))
        | inr e ↦ rw (e) (omega (arith, h, count-free_packet a g.pkt g.freed))
      ]
  place_packet-Balanced (some p0) p1 ns g at h =
      let full = ap (count_packet a) at in
      elim (Bool-cases (ltb p0.pts p1.pts)) [
        | inl e ↦ rw (e) (omega (arith, h, full, count-free_packet a g.pkt g.freed))
        | inr e ↦ elim (Bool-cases (av.before p1.pts ns)) [
          | inl f ↦ rw (e, f) (omega (arith, h, full, close_slot-places p0 p1 ns g))
          | inr f ↦ rw (e, f) (omega (arith, h, full))
        ]
      ]

  flush-Balanced :
      (p0 : Packet) (c : Core)
      → c.pkt0 ≡ some p0
      → Balanced c
      → Balanced (record c { freed = free_packet c.pkt c.freed; pkt = some p0; pkt0 = none })
  flush-Balanced p0 c at h =
      omega (arith, h, ap (count_packet a) at, count-free_packet a c.pkt c.freed)

-- Whenever `read_packet` returns, each buffer that it has made in between is the caller's packet,
-- is kept as `pkt0`, or has been freed, one of these and once, and so is each that was there before:
-- none is lost, and none is freed twice.
pub read_packet-places :
    (av : Ffmpeg) (a : ℕ) (rs : List Round) (g : Priv) (o : Outcome) (g' : Priv)
    → read_packet av rs g ≡ some (o, g')
    → places a (core g') + count a g.made ≡ places a (core g) + count a g'.made
unfolding new_packet
read_packet-places av a rs g o g' e =
    read_packet_rule av (Balances a (core g)) (λ _ _ c. Balances a (core g) c) (λ _ o c _ h. h)
      (flush-Balanced av a (core g)) (λ b c h. omega (arith, h))
      (λ r s b g1 _ h.
        place_packet-Balanced av a (core g) g1.pkt0 (new_packet av s r.copy b) r.copy.ns
          (record g1 { made = b ∷ g1.made }) refl (omega (arith, h)))
      rs g o g' refl e

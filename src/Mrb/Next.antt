-- ===== src/Mrb/Next.antt =====
-- Where the next message begins and which number it gets: the arithmetic of `mrb_reserve`.
use glgrab.Base.{
  ℕ, ◌+◌, ◌-◌, ◌*◌, ◌/◌, ◌%◌, ◌^◌, ◌≤◌, ◌<◌, ◌≡◌, ◌≢◌, ap, ◌∙◌, arith, Bool, ◌&&◌, ◌||◌, none, some,
  ltb, leb, ◌==◌, if◌then◌else◌, Bool-cases, inl, inr, ==_of_eq, ==_of_ne, pow_two_pos,
  pow_two_split, mul-mod_mul,
}
use glgrab.Mrb.{Item, Layout, u64, shl64, roundup, mrb_item_unpack, mrb_item_pack}
use glgrab.Mrb.Numbers.{roundup_fields}
use glgrab.Mrb.Pointer.{IsGeometry, seq_mod, word_split, unpack-pack, unpack-whole}
use glgrab.Mrb.Write.{next_off, next_seq}
use glgrab.Mrb.Chain.{wrap, succ_seq, IsPlace, Follows}

-- The bytes that a message of `size` bytes takes: a link of 64, and the message up to the next
-- multiple of 64.
abbrev pub footprint : ℕ → ℕ
footprint size = 64 + (size + 63) / 64 * 64

-- The sizes for which no sum in `mrb_reserve` wraps.
abbrev pub IsRequest : Layout → ℕ → Type 0
IsRequest q size = q.size + size + 128 ≤ 2 ^ 64

-- Whether `len` bytes behind `start` are to be had: they fit the buffer, and what goes on over
-- its end is less than `max_item_size`.
unfoldable pub accepts : Layout → ℕ → ℕ → Bool
accepts q start len =
    leb len q.size && (ltb (start + len) q.size || ltb (start + len - q.size) q.max_item_size)

module _ {q : Layout} (g : IsGeometry q) where
  pub next_off-accepts :
      (tail : Item) (size : ℕ)
      → tail.off < q.size
      → IsRequest q size
      → next_off q tail size ≡ (
          if accepts q tail.off (footprint size)
          then some (wrap q.size (tail.off + footprint size))
          else none)
  unfolding next_off accepts
  next_off-accepts tail size h r =
      let round : roundup size 6 ≡ (size + 63) / 64 * 64 =
        roundup_fields size 6 (omega arith) (omega arith) in
      let inner : u64 (64 + roundup size 6) ≡ footprint size = omega (arith, round) in
      let outer : u64 (tail.off + footprint size) ≡ tail.off + footprint size =
        omega (arith, g.size_small) in
      rw (g.aligned, g.link_size, inner, outer) (ground arith)

  pub seq_mod_bounds : (2 ≤ seq_mod q) × (seq_mod q ≤ 2 ^ 63)
  seq_mod_bounds =
      let M = seq_mod q in
      let B = 2 ^ q.off_bits in
      let m : M ≡ 2 ^ (64 - q.off_bits - 1) * 2 =
        pow_two_split (64 - q.off_bits - 1) 1 (64 - q.off_bits) (omega (arith, g.bits_small)) in
      let b : B ≡ 2 ^ (q.off_bits - 1) * 2 =
        pow_two_split (q.off_bits - 1) 1 q.off_bits (omega (arith, g.bits_pos)) in
      let m_pos : 0 < 2 ^ (64 - q.off_bits - 1) = pow_two_pos (64 - q.off_bits - 1) in
      let b_pos : 0 < 2 ^ (q.off_bits - 1) = pow_two_pos (q.off_bits - 1) in
      let two : 2 ≤ B = omega arith in
      let half : M * 2 ≤ M * B = grind arith in (omega arith, omega (arith, word_split g))

  shifted : (s : ℕ) → shl64 s q.off_bits ≡ s % seq_mod q * 2 ^ q.off_bits
  shifted s =
      ap (λ (t : ℕ). s * 2 ^ q.off_bits % t) (word_split g)
      ∙ mul-mod_mul s (seq_mod q) (2 ^ q.off_bits) (pow_two_pos (64 - q.off_bits))
          (pow_two_pos q.off_bits)

  -- The number that `mrb_reserve` counts up to is not 0, and cut to the bits of a pointer it is the
  -- successor, which skips 0.
  pub next_seq-succ :
      (seq : ℕ)
      → seq < seq_mod q
      → (next_seq q seq % seq_mod q ≡ succ_seq q seq) × (next_seq q seq ≢ 0)
  unfolding next_seq
  next_seq-succ seq h =
      let M = seq_mod q in
      let (two, top) = seq_mod_bounds in
      let plain : u64 (seq + 1) ≡ seq + 1 = omega arith in
      elim (Bool-cases (seq + 1 == M)) [
        | inl e ↦
            let last : seq + 1 ≡ M = ground arith in
            let none_left : (seq + 1) % M ≡ 0 = grind arith in
            let zero_shift : shl64 (seq + 1) q.off_bits ≡ 0 =
              omega (arith, shifted (seq + 1), ap (λ (t : ℕ). t * 2 ^ q.off_bits) none_left) in
            let again : u64 (seq + 1 + 1) ≡ M + 1 = omega arith in
            let one : (M + 1) % M ≡ 1 = grind arith in
            rw (plain, ==_of_eq (shl64 (seq + 1) q.off_bits) 0 zero_shift, again, e)
              (one, omega arith)
        | inr e ↦
            let more : seq + 1 < M = ground arith in
            let same : (seq + 1) % M ≡ seq + 1 = grind arith in
            let shift : shl64 (seq + 1) q.off_bits ≡ (seq + 1) * 2 ^ q.off_bits =
              shifted (seq + 1) ∙ ap (λ (t : ℕ). t * 2 ^ q.off_bits) same in
            let pos : 0 < 2 ^ q.off_bits = pow_two_pos q.off_bits in
            let nonzero : shl64 (seq + 1) q.off_bits ≢ 0 = grind arith in
            rw (plain, ==_of_ne (shl64 (seq + 1) q.off_bits) 0 nonzero, e) (same, omega arith)
      ]

  -- The pointer to the place behind an accepted message of `len` bytes.
  pub pack-Follows :
      (tailp len : ℕ)
      → IsPlace q tailp
      → 64 ≤ len
      → len % 64 ≡ 0
      → len ≤ q.size
      → let tail = mrb_item_unpack q tailp in
        let next : Item = record {
          seq = next_seq q tail.seq;
          off = wrap q.size (tail.off + len);
        } in
        Follows q tailp len (mrb_item_pack q next) × IsPlace q (mrb_item_pack q next)
  pack-Follows tailp len t long whole fits =
      let tail = mrb_item_unpack q tailp in
      let off = wrap q.size (tail.off + len) in
      let next : Item = record { seq = next_seq q tail.seq; off = off } in
      let small : off < q.size = ground (arith, t.inside) in
      let tail_whole = unpack-whole g tailp in
      let aligned : off % 64 ≡ 0 = ground (arith, g.whole) in
      let (seq, place, _) = unpack-pack g next small aligned in
      let (succ, _) = next_seq-succ tail.seq t.below in
      let (two, _) = seq_mod_bounds in
      (
        record { long = long; whole = whole; offset = place; number = seq ∙ succ },
        record {
          numbered = ground (arith, seq, succ);
          below = ground (arith, seq, succ, t.below);
          inside = rw place small;
        },
      )

-- ===== src/Mrb/Pointer.antt =====
-- A `mrb_ptr` holds a sequence number above an offset: what `mrb_item_pack` and
-- `mrb_item_unpack` do to each other.
use glgrab.Base.{
  ℕ, ◌+◌, ◌-◌, ◌*◌, ◌/◌, ◌%◌, ◌^◌, ◌≤◌, ◌<◌, ◌≡◌, refl, ap, ◌∙◌, arith, pow_two_pos, pow_two_split,
  div_fields, mod_fields, mul-mod_mul,
}
use glgrab.Base.Bits.{bit_or_disjoint}
use native.Mathlib.Nat.{div-add-mod'}
use glgrab.Mrb.{Item, Layout, shl64, shr, mrb_item_unpack, mrb_item_pack}

-- What `mrb_create` sets up: messages are aligned to 64 bytes, the words of the links take 64
-- bytes too, and every aligned offset of the buffer fits the low bits of a pointer.
pub record IsGeometry (q : Layout) : Type 0 where
  pub aligned : q.align_bits ≡ 6
  pub link_size : q.data_offset ≡ 64
  pub bits_pos : 0 < q.off_bits
  pub bits_small : q.off_bits ≤ 57
  pub addressable : q.size ≤ 2 ^ q.off_bits * 64
  pub whole : q.size % 64 ≡ 0
  pub size_pos : 0 < q.size
  pub size_small : q.size < 2 ^ 63

-- The number of values that a sequence number can take.
abbrev pub seq_mod : Layout → ℕ
seq_mod q = 2 ^ (64 - q.off_bits)

module _ {q : Layout} (g : IsGeometry q) where
  pub word_split : 2 ^ 64 ≡ seq_mod q * 2 ^ q.off_bits
  word_split = pow_two_split (64 - q.off_bits) q.off_bits 64 (omega (arith, g.bits_small))

  unpack_off :
      (p : ℕ) → shr (shl64 p (64 - q.off_bits)) (64 - q.off_bits - 6) ≡ p % 2 ^ q.off_bits * 64
  unpack_off p =
      let x = p % 2 ^ q.off_bits in
      let T = 2 ^ (64 - q.off_bits - 6) in
      let T_pos : 0 < T = pow_two_pos (64 - q.off_bits - 6) in
      let split : seq_mod q ≡ T * 2 ^ 6 =
        pow_two_split (64 - q.off_bits - 6) 6 (64 - q.off_bits) (omega (arith, g.bits_small)) in
      let word : 2 ^ 64 ≡ 2 ^ q.off_bits * seq_mod q = omega (arith, word_split) in
      let cut : p * seq_mod q % 2 ^ 64 ≡ x * seq_mod q =
        ap (λ (t : ℕ). p * seq_mod q % t) word
        ∙ mul-mod_mul p (2 ^ q.off_bits) (seq_mod q) (pow_two_pos q.off_bits)
            (pow_two_pos (64 - q.off_bits)) in
      let shape : x * seq_mod q ≡ x * 64 * T + 0 = omega (arith, ap (λ (t : ℕ). x * t) split) in
      ap (λ (t : ℕ). t / T) (cut ∙ shape) ∙ div_fields (x * 64) T 0 T_pos

  pub mrb_item_unpack_fields :
      (p : ℕ)
      → ((mrb_item_unpack q p).seq ≡ p / 2 ^ q.off_bits)
        × ((mrb_item_unpack q p).off ≡ p % 2 ^ q.off_bits * 64)
  unfolding mrb_item_unpack
  mrb_item_unpack_fields p = (refl, rw g.aligned (unpack_off p))

  pub unpack-whole : (p : ℕ) → (mrb_item_unpack q p).off % 64 ≡ 0
  unpack-whole p = omega (arith, (mrb_item_unpack_fields p).1)

  pub unpack-seq-lt : (p : ℕ) → p < 2 ^ 64 → (mrb_item_unpack q p).seq < seq_mod q
  unpack-seq-lt p h =
      let B = 2 ^ q.off_bits in
      let parts : p / B * B + p % B ≡ p = div-add-mod' p B in
      let pos : 0 < B = pow_two_pos q.off_bits in
      let lt : p / B < seq_mod q = grind (arith, word_split) in
      omega (arith, (mrb_item_unpack_fields p).0)

  -- A null pointer has the number 0, which no message has.
  pub unpack-zero : (mrb_item_unpack q 0).seq ≡ 0
  unpack-zero = omega (arith, (mrb_item_unpack_fields 0).0, pow_two_pos q.off_bits)

  pack_fields :
      (i : Item)
      → i.off < q.size
      → mrb_item_pack q i ≡ i.seq % seq_mod q * 2 ^ q.off_bits + i.off / 64
  unfolding mrb_item_pack
  pack_fields i h =
      let B = 2 ^ q.off_bits in
      let cut : i.seq * B % 2 ^ 64 ≡ i.seq % seq_mod q * B =
        ap (λ (t : ℕ). i.seq * B % t) word_split
        ∙ mul-mod_mul i.seq (seq_mod q) B (pow_two_pos (64 - q.off_bits))
            (pow_two_pos q.off_bits) in
      rw (g.aligned, cut)
        (bit_or_disjoint q.off_bits (i.seq % seq_mod q) (i.off / 64) (omega (arith, g.addressable)))

  -- What `mrb_item_pack` writes `mrb_item_unpack` reads back: an aligned offset inside the buffer
  -- as it was, and the number cut to its bits. The pointer fits 64 bits.
  pub unpack-pack :
      (i : Item)
      → i.off < q.size
      → i.off % 64 ≡ 0
      → ((mrb_item_unpack q (mrb_item_pack q i)).seq ≡ i.seq % seq_mod q)
        × ((mrb_item_unpack q (mrb_item_pack q i)).off ≡ i.off)
        × (mrb_item_pack q i < 2 ^ 64)
  unpack-pack i h w =
      let B = 2 ^ q.off_bits in
      let s = i.seq % seq_mod q in
      let p = s * B + i.off / 64 in
      let pos : 0 < seq_mod q = pow_two_pos (64 - q.off_bits) in
      let low : i.off / 64 < B = omega (arith, g.addressable) in
      let high : s < seq_mod q = omega arith in
      let fits : s * B + B ≤ seq_mod q * B = grind arith in
      rw (pack_fields i h) (
        (mrb_item_unpack_fields p).0 ∙ div_fields s B (i.off / 64) low,
        (mrb_item_unpack_fields p).1
            ∙ ap (λ (t : ℕ). t * 64) (mod_fields s B (i.off / 64) low)
            ∙ omega arith,
        omega (arith, word_split),
      )

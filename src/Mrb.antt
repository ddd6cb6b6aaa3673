-- ===== src/Mrb.antt =====
-- The ring buffer's data (mrb.h, mrb_int.h) and the helpers on numbers and pointers that the
-- writer and the reader share (mrb_int.h, the top of mrb_write.c). Pointers are numbers, and 0 is
-- NULL.
pub mod Numbers
pub mod Pointer
pub mod Write
pub mod Chain
pub mod Reclaim
pub mod Next
pub mod Reserve
pub mod Commit
pub mod Read
pub mod Numbering
pub mod Drain
pub mod Described
pub mod Opened
pub mod Samples
mod Tests
pub mod Session
pub mod Kept
pub mod Held
pub mod Interleaved
pub mod Released
pub mod Oldest
pub mod Followed
pub mod Create
pub mod Created
use glgrab.Base.{
  ℕ, zero, suc, ◌+◌, ◌-◌, ◌*◌, ◌/◌, ◌%◌, ◌^◌, bit_and, bit_or, ◌==◌, if◌then◌else◌, update,
}

-- `struct mrb_item`
pub record Item : Type 0 where
  pub seq : ℕ
  pub off : ℕ

-- `struct mrb_hdr`, the first page of the file. `head` and `tail` are of type `mrb_ptr`.
pub record Header : Type 0 where
  pub active : ℕ
  pub align_bits : ℕ
  pub off_bits : ℕ
  pub max_item_size : ℕ
  pub head : ℕ
  pub tail : ℕ

-- The members of `struct mrb` that are set once, when the buffer is created or opened.
pub record Layout : Type 0 where
  pub size : ℕ
  pub data_offset : ℕ
  pub align_bits : ℕ
  pub off_bits : ℕ
  pub max_item_size : ℕ

-- `struct mrb`, the private handle of the writer or of a reader.
pub record Mrb : Type 0 where
  pub header : ℕ
  pub base : ℕ
  pub layout : Layout
  pub open layout use *
  pub next : Item

-- What the processes share: the header, and for each offset the `mrb_ptr` that stands at
-- `base + off`.
pub record Shared : Type 0 where
  pub hdr : Header
  pub word : ℕ → ℕ

abbrev pub u64 : ℕ → ℕ
u64 n = n % 2 ^ 64

abbrev pub u16 : ℕ → ℕ
u16 n = n % 2 ^ 16

-- `x << k` and `x >> k` on uint64_t
abbrev pub shl64 : ℕ → ℕ → ℕ
shl64 x k = x * 2 ^ k % 2 ^ 64

abbrev pub shr : ℕ → ℕ → ℕ
shr x k = x / 2 ^ k

unfoldable pub mrb_item_unpack : Layout → ℕ → Item
mrb_item_unpack q p =
    let seq_bits = 64 - q.off_bits in
    record { seq = shr p q.off_bits; off = shr (shl64 p seq_bits) (seq_bits - q.align_bits) }

pub mrb_item_pack : Layout → Item → ℕ
mrb_item_pack q i = bit_or (shl64 i.seq q.off_bits) (shr i.off q.align_bits)

-- `~m` is a negative int, which widens to the uint64_t with all high bits set.
pub roundup : ℕ → ℕ → ℕ
roundup a s = let m = u16 (2 ^ s - 1) in bit_and (u64 (a + m)) (2 ^ 64 - 1 - m)

-- `while (a >>= 1) ++l`
pub ilog_loop : ℕ → ℕ → ℕ → ℕ
ilog_loop zero a l = l
ilog_loop (suc fuel) a l =
    let rest = ilog_loop fuel (a / 2) (u16 (l + 1)) in if a / 2 == 0 then l else rest

-- 64 shifts take every uint64_t to 0.
pub ilog : ℕ → ℕ
unfolding ilog_loop
ilog a = ilog_loop 64 a 0

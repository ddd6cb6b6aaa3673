-- ===== src/Mrb/Write.antt =====
-- The writer, mrb_write.c: `mrb_reserve` and `mrb_commit`. An operation takes the writer's handle
-- and the shared memory, and returns both anew.
use mathlib.Core.Option
use glgrab.Base.{
  ℕ, zero, suc, ◌+◌, ◌-◌, ◌/◌, ◌^◌, Bool, ◌&&◌, ◌||◌, Option, none, some, ltb, leb, ◌==◌,
  if◌then◌else◌, update,
}
use glgrab.Mrb.{Item, Layout, Mrb, Shared, u64, shl64, mrb_item_unpack, mrb_item_pack, roundup}

-- Where the message that follows one at `tail` would begin; `none` where `mrb_reserve` returns
-- NULL. `next.off - q.size` is taken only at `q.size ≤ next.off`.
unfoldable pub next_off : Layout → Item → ℕ → Option ℕ
next_off q tail size =
    let off = u64 (tail.off + u64 (q.data_offset + roundup size q.align_bits)) in
    let over = off - q.size in
    if ltb off q.size
    then some off
    else (if leb q.max_item_size over || ltb tail.off over then none else some over)

-- `if (++next.seq << q->off_bits == 0) ++next.seq`
unfoldable pub next_seq : Layout → ℕ → ℕ
next_seq q seq = let s = u64 (seq + 1) in if shl64 s q.off_bits == 0 then u64 (s + 1) else s

-- The two tests of the loop of `mrb_reserve` that leave the head as it is.
unfoldable pub keeps_head : Item → Item → Item → Bool
keeps_head tail next head =
    (ltb tail.off next.off && (ltb head.off tail.off || leb next.off head.off))
    || (leb next.off head.off && ltb head.off tail.off)

-- `while (headp)`: the pointer to the first message that stays, 0 for none. The outer `none` says
-- that the fuel ran out.
unfoldable pub reclaim : ℕ → Layout → (ℕ → ℕ) → Item → Item → ℕ → Option ℕ
reclaim zero q word tail next headp = if headp == 0 then some 0 else none
reclaim (suc fuel) q word tail next headp =
    let head = mrb_item_unpack q headp in
    let rest = reclaim fuel q word tail next (word head.off) in
    if headp == 0
    then some 0
    else (if head.off == tail.off
        then some 0
        else (if keeps_head tail next head then some headp else rest))

-- A message takes `2 ^ align_bits` bytes at least, so this many rounds are enough.
unfoldable pub reclaim_fuel : Layout → ℕ
reclaim_fuel q = suc (q.size / 2 ^ q.align_bits)

pub record Reserved : Type 0 where
  pub ptr : Option ℕ
  pub handle : Mrb
  pub shared : Shared

-- The two stores behind the loop, and what `mrb_reserve` returns.
unfoldable pub place : Mrb → Shared → Item → Item → ℕ → Reserved
place q s tail next headp = record {
  ptr = some (q.base + tail.off + q.data_offset);
  handle = record q { next = next };
  shared = record {
    hdr = record (s.hdr) { head = headp };
    word = update s.word tail.off (mrb_item_pack q.layout next);
  };
}

unfoldable pub reserve_at : Mrb → Shared → Item → Option ℕ → Option Reserved
reserve_at q s tail none = some (record { ptr = none; handle = q; shared = s })
reserve_at q s tail (some off) =
    let next : Item = record { seq = next_seq q.layout tail.seq; off = off } in
    Option.map (place q s tail next)
      (reclaim (reclaim_fuel q.layout) q.layout s.word tail next s.hdr.head)

unfoldable pub mrb_reserve : Mrb → Shared → ℕ → Option Reserved
mrb_reserve q s size =
    let tail = mrb_item_unpack q.layout s.hdr.tail in
    reserve_at q s tail (next_off q.layout tail size)

-- What the stores come to; the code stores the tail before the head.
unfoldable pub mrb_commit : Mrb → Shared → Mrb × Shared
mrb_commit q s =
    let tail = mrb_item_pack q.layout q.next in
    let committed = record q { next = record (q.next) { seq = 0 } } in
    if q.next.seq == 0
    then (q, s)
    else (if s.hdr.head == 0
        then (committed, record s { hdr = record (s.hdr) { tail = tail; head = s.hdr.tail } })
        else (committed, record s { hdr = record (s.hdr) { tail = tail } }))

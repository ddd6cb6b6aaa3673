-- ===== src/Mrb/Numbering.antt =====
-- Sequence numbers go round and leave 0 out, and `mrb_check` compares them all the same.
use glgrab.Base.{ℕ, zero, suc, ◌+◌, ◌-◌, ◌<◌, ◌≡◌, arith, true, ltb, leb, if◌then◌else◌}
use glgrab.Mrb.{Layout, Mrb, mrb_item_unpack}
use glgrab.Mrb.Pointer.{seq_mod}
use glgrab.Mrb.Chain.{succ_seq}
use glgrab.Mrb.Read.{Loads, mrb_check}

-- The number of the message that comes `n` messages after the one with `seq`.
unfoldable pub seq_after : Layout → ℕ → ℕ → ℕ
seq_after q seq zero = seq
seq_after q seq (suc n) = succ_seq q (seq_after q seq n)

pub seq_after_lem :
    (q : Layout) (seq n : ℕ)
    → 0 < seq
    → seq < seq_mod q
    → n + 1 < seq_mod q
    → seq_after q seq n ≡ (if ltb (seq + n) (seq_mod q) then seq + n else seq + n + 1 - seq_mod q)
unfolding seq_after
seq_after_lem q seq zero pos small few = ground arith
seq_after_lem q seq (suc n) pos small few =
    ground (arith, seq_after_lem q seq n pos small (omega arith))

module _ (q : Mrb) (at : Loads) (head i j : ℕ) where
  -- A message that is still in the buffer passes the check, also when the numbers have gone round
  -- in between: `next` stands `i` messages behind the head, and the tail `j` behind `next`.
  pub mrb_check-live :
      0 < head
      → head < seq_mod q.layout
      → i + j + 1 < seq_mod q.layout
      → (mrb_item_unpack q.layout ((at 0).hdr.head)).seq ≡ head
      → q.next.seq ≡ seq_after q.layout head i
      → (mrb_item_unpack q.layout ((at 1).hdr.tail)).seq ≡ seq_after q.layout head (i + j)
      → mrb_check q at ≡ true
  unfolding mrb_check
  mrb_check-live pos small few h n t = ground (
    arith,
    seq_after_lem q.layout head i pos small (omega arith),
    seq_after_lem q.layout head (i + j) pos small few,
  )

-- A message that was reclaimed, `i` messages before the head: the check refuses it unless the
-- numbers have gone round between it and the head; then the check passes, and should not.
pub mrb_check-stale :
    (q : Mrb) (at : Loads) (i j : ℕ)
    → 0 < q.next.seq
    → q.next.seq < seq_mod q.layout
    → 0 < i
    → i + j + 1 < seq_mod q.layout
    → (mrb_item_unpack q.layout ((at 0).hdr.head)).seq ≡ seq_after q.layout q.next.seq i
    → (mrb_item_unpack q.layout ((at 1).hdr.tail)).seq ≡ seq_after q.layout q.next.seq (i + j)
    → mrb_check q at ≡ leb (seq_mod q.layout) (q.next.seq + i)
unfolding mrb_check
mrb_check-stale q at i j pos small gone few h t = ground (
  arith,
  seq_after_lem q.layout q.next.seq i pos small (omega arith),
  seq_after_lem q.layout q.next.seq (i + j) pos small few,
)

-- ===== src/Mrb/Reclaim.antt =====
-- The loop of `mrb_reserve`: which of the old messages it keeps.
use glgrab.Base.{
  ℕ, zero, suc, ◌+◌, ◌-◌, ◌≤◌, ◌<◌, ◌≡◌, ◌≢◌, refl, ap, arith, some, List, [], ◌∷◌, sum, length,
  leb, ◌==◌, if◌then◌else◌, Bool-cases, inl, inr, ==_of_eq, ==_of_ne,
}
use glgrab.Mrb.{Item, Layout, mrb_item_unpack}
use glgrab.Mrb.Pointer.{IsGeometry}
use glgrab.Mrb.Write.{keeps_head, reclaim}
use glgrab.Mrb.Chain.{wrap, Chain, Heads, link, IsPlace-ne-zero, Chain-offset}

-- The longest list of the newest messages that takes at most `room` bytes.
unfoldable pub newest : ℕ → List ℕ → List ℕ
newest room [] = []
newest room (len ∷ lens) = if leb (len + sum lens) room then len ∷ lens else newest room lens

-- What a buffer of `size` bytes keeps of its messages when `len` bytes are reserved. If it is
-- full to the last byte, nothing is kept.
unfoldable pub retained : ℕ → ℕ → List ℕ → List ℕ
retained size len lens = if sum lens == size then [] else newest (size - len) lens

-- The test on offsets decides whether the reservation leaves the messages alone.
keeps_head_lem :
    (size len total : ℕ) (tail next head : Item)
    → 0 < len
    → len ≤ size
    → 0 < total
    → total < size
    → head.off < size
    → tail.off ≡ wrap size (head.off + total)
    → next.off ≡ wrap size (tail.off + len)
    → keeps_head tail next head ≡ leb total (size - len)
unfolding keeps_head
keeps_head_lem size len total tail next head a b c d e f g = ground arith

-- After a reservation of `len` bytes the loop stops with a head pointer to exactly the retained
-- messages, if it may go round once for each message and once more.
reclaim-newest :
    {q : Layout} (g : IsGeometry q) (word : ℕ → ℕ) (tailp len : ℕ) (next : Item)
    → 0 < len
    → len ≤ q.size
    → next.off ≡ wrap q.size ((mrb_item_unpack q tailp).off + len)
    → (fuel : ℕ) (lens : List ℕ) (p : ℕ) → length lens < fuel
    → sum lens < q.size
    → Chain q word tailp p lens
    → (headp : ℕ) × (reclaim fuel q word (mrb_item_unpack q tailp) next p ≡ some headp)
      × Heads q word tailp headp (newest (q.size - len) lens)
unfolding reclaim newest
reclaim-newest g word tailp len next pos le e zero lens p f h c = absurd (omega arith)
reclaim-newest {q} g word tailp len next pos le e (suc fuel) [] p f h c =
    let tail = mrb_item_unpack q tailp in
    let same : (mrb_item_unpack q p).off ≡ tail.off =
      ap (λ (t : ℕ). (mrb_item_unpack q t).off) c.1 in
    (
      0,
      rw (==_of_ne p 0 (IsPlace-ne-zero g c.0), ==_of_eq (mrb_item_unpack q p).off tail.off same),
      refl,
    )
reclaim-newest {q} g word tailp len next pos le e (suc fuel) (l ∷ lens) p f h c =
    let tail = mrb_item_unpack q tailp in
    let head = mrb_item_unpack q p in
    let back = Chain-offset q word tailp (l ∷ lens) p (omega arith) c in
    let apart : head.off ≢ tail.off = ground (arith, c.0.inside, c.1.long, back) in
    let test : keeps_head tail next head ≡ leb (l + sum lens) (q.size - len) =
      keeps_head_lem q.size len (l + sum lens) tail next head pos le (omega (arith, c.1.long)) h
        c.0.inside back e in
    let nonzero = ==_of_ne p 0 (IsPlace-ne-zero g c.0) in
    let (headp, r, k) =
      reclaim-newest g word tailp len next pos le e fuel lens (link q word p) (omega arith)
        (omega arith) c.2 in
    elim (Bool-cases (leb (l + sum lens) (q.size - len))) [
      | inl stay ↦ (p, rw (nonzero, ==_of_ne head.off tail.off apart, test, stay), rw stay c)
      | inr go ↦ (headp, rw (nonzero, ==_of_ne head.off tail.off apart, test, go) r, rw go k)
    ]

-- From a head pointer, which is 0 if there is no message, and with fuel for each message and one
-- round more, the loop of `mrb_reserve` ends with a head pointer to exactly the messages that are
-- retained: the newest that leave room for `len` bytes, and none if the buffer was full to the
-- last byte.
pub reclaim-retained :
    {q : Layout} (g : IsGeometry q) (word : ℕ → ℕ) (tailp len : ℕ) (next : Item)
    → 0 < len
    → len ≤ q.size
    → next.off ≡ wrap q.size ((mrb_item_unpack q tailp).off + len)
    → (fuel : ℕ) (lens : List ℕ) (p : ℕ) → length lens < fuel
    → sum lens ≤ q.size
    → Heads q word tailp p lens
    → (headp : ℕ) × (reclaim fuel q word (mrb_item_unpack q tailp) next p ≡ some headp)
      × Heads q word tailp headp (retained q.size len lens)
unfolding reclaim retained newest
reclaim-retained g word tailp len next pos le e zero lens p f h c = absurd (omega arith)
reclaim-retained {q} g word tailp len next pos le e (suc fuel) [] p f h c =
    (0, rw (==_of_eq p 0 c), rw (==_of_ne 0 q.size (omega (arith, g.size_pos))) refl)
reclaim-retained {q} g word tailp len next pos le e (suc fuel) (l ∷ lens) p f h c =
    elim (Bool-cases (l + sum lens == q.size)) [
      | inl full ↦
          let tail = mrb_item_unpack q tailp in
          let head = mrb_item_unpack q p in
          let same : head.off ≡ tail.off =
            ground (arith, c.0.inside, Chain-offset q word tailp (l ∷ lens) p h c) in
          (
            0,
            rw (==_of_ne p 0 (IsPlace-ne-zero g c.0), ==_of_eq head.off tail.off same),
            rw full refl,
          )
      | inr part ↦
          let (headp, r, k) =
            reclaim-newest g word tailp len next pos le e (suc fuel) (l ∷ lens) p f (ground arith)
              c in
          (headp, r, rw part k)
    ]

-- ===== src/Mrb/Released.antt =====
-- mrb_release beside the writer: the reader goes on to the next message.
mod Tests
use glgrab.Base.{
  ℕ, zero, suc, ◌+◌, ◌-◌, ◌%◌, ◌≤◌, ◌<◌, ◌≡◌, ◌≢◌, ◌⊎◌, inl, inr, refl, sym, ap, subst, ◌∙◌, arith,
  some, List, [], ◌∷◌, ◌++◌, sum, length, leb, ltb, ◌==◌, if◌then◌else◌, true, false,
}
use glgrab.Mrb.{Item, Layout, Mrb, Shared, mrb_item_unpack}
use glgrab.Mrb.Pointer.{IsGeometry, seq_mod, unpack-whole}
use glgrab.Mrb.Chain.{
  wrap, ahead, tail_off, IsPlace, IsValid, Chain, Chain-IsPlace, Chain-offset, Heads, link,
}
use glgrab.Mrb.Read.{Loads, from_load, mrb_check, mrb_release}
use glgrab.Mrb.Session.{Session, Reach}
use glgrab.Mrb.Kept.{EndsIn, IsAfter}
use glgrab.Mrb.Held.{append_assoc, EndsIn-sum, IsHeld, SameWords, commits}
use glgrab.Mrb.Interleaved.{Seen, Chain-number, mrb_check-SameWords}

-- From a message in the middle of a chain the rest of it can be followed.
Chain-suffix :
    (q : Layout) (word : ℕ → ℕ) (tail : ℕ) (older : List ℕ) (len : ℕ) (newer : List ℕ) (p : ℕ)
    → Chain q word tail p (older ++ len ∷ newer)
    → (p' : ℕ) × Chain q word tail p' (len ∷ newer)
Chain-suffix q word tail [] len newer p c = (p, c)
Chain-suffix q word tail (o ∷ older) len newer p c =
    Chain-suffix q word tail older len newer (link q word p) c.2

Heads-suffix :
    (q : Layout) (word : ℕ → ℕ) (tail : ℕ) (older : List ℕ) (len : ℕ) (newer : List ℕ) (p : ℕ)
    → Heads q word tail p (older ++ len ∷ newer)
    → (p' : ℕ) × Chain q word tail p' (len ∷ newer)
Heads-suffix q word tail [] len newer p c = (p, c)
Heads-suffix q word tail (o ∷ older) len newer p c =
    Chain-suffix q word tail (o ∷ older) len newer p c

-- The item behind a held message: the tail if the message is the newest, and the next message
-- otherwise.
abbrev pub IsNextItem : Layout → Item → Session → ℕ → Type 0
IsNextItem q item' c k =
    ((k ≡ 1) × (item' ≡ mrb_item_unpack q c.shared.hdr.tail))
    ⊎ ((len' : ℕ) × IsHeld q item' len' c (k - 1))

module _ (q : Layout) (item : Item) (len : ℕ) (c : Session) (k : ℕ) (inside : item.off < q.size)
    (h : IsHeld q item len c k) where
  valid : IsValid q c.shared h.lens
  valid = subst (λ t. IsValid t c.shared h.lens) h.after.layout h.after.holds.0

  -- The chain goes through the offset of the message.
  IsHeld-Chain :
      (p : ℕ) × Chain q c.shared.word c.shared.hdr.tail p (len ∷ h.newer)
      × ((mrb_item_unpack q p).off ≡ item.off)
  IsHeld-Chain =
      let (older, e) = h.ends in
      let heads =
        subst (λ l. Heads q c.shared.word c.shared.hdr.tail c.shared.hdr.head l) e valid.holds in
      let (p, rest) =
        Heads-suffix q c.shared.word c.shared.hdr.tail older len h.newer c.shared.hdr.head heads in
      let few = EndsIn-sum h.lens len h.newer h.ends in
      let way =
        Chain-offset q c.shared.word c.shared.hdr.tail (len ∷ h.newer) p
          (omega (arith, few, valid.fits)) rest in
      (p, rest, ground (arith, way, h.place, rest.0.inside, few, valid.fits))

  next_item :
      (newer : List ℕ) (next : ℕ)
      → EndsIn h.lens len newer
      → k ≡ suc (length newer)
      → Chain q c.shared.word c.shared.hdr.tail next newer
      → IsNextItem q (mrb_item_unpack q next) c k
  next_item [] next ends count rest = inl (count, ap (mrb_item_unpack q) rest.1)
  next_item (l ∷ newer) next ends count rest =
      let few = EndsIn-sum h.lens len (l ∷ newer) ends in
      let up =
        Chain-number q c.shared.word c.shared.hdr.tail (l ∷ newer) next rest
          (omega (arith, h.after.number, count)) in
      let (older, e) = ends in
      inr (
        l,
        record {
          lens = h.lens;
          newer = newer;
          after = record {
            layout = h.after.layout;
            holds = h.after.holds;
            number = omega (arith, up, count);
          };
          ends = (older ++ len ∷ [], e ∙ sym (append_assoc older (len ∷ []) (l ∷ newer)));
          place =
              Chain-offset q c.shared.word c.shared.hdr.tail (l ∷ newer) next
                (omega (arith, few, valid.fits)) rest;
          count = omega (arith, count);
        },
      )

  -- The link of the message is its first word, and leads to the next item.
  pub link-IsNextItem :
      IsNextItem q (mrb_item_unpack q (c.shared.word item.off)) c k × (0 < len) × (item.off % 8 ≡ 0)
  link-IsNextItem =
      let (p, rest, same) = IsHeld-Chain in
      let next = next_item h.newer (link q c.shared.word p) h.ends h.count rest.2 in
      (
        subst (λ (o : ℕ). IsNextItem q (mrb_item_unpack q (c.shared.word o)) c k) same next,
        omega (arith, rest.1.long),
        omega (arith, same, unpack-whole valid.geometry p),
      )

  -- The next item is at an offset of the buffer.
  pub link-inside : (mrb_item_unpack q (c.shared.word item.off)).off < q.size
  link-inside =
      let (p, rest, same) = IsHeld-Chain in
      let place =
        Chain-IsPlace q c.shared.word c.shared.hdr.tail h.newer (link q c.shared.word p) rest.2 in
      subst (λ (o : ℕ). (mrb_item_unpack q (c.shared.word o)).off < q.size) same place.inside

mrb_release_passed :
    (q : Mrb) (at : Loads)
    → mrb_check q (from_load 1 at) ≡ true
    → mrb_release q at ≡ record q { next = mrb_item_unpack q.layout ((at 0).word q.next.off) }
unfolding mrb_release
mrb_release_passed q at passes = rw passes refl

-- What mrb_release makes of the link of a message that it had at `c`, if the check passes.
pub mrb_release-link :
    (q : Mrb) (len k : ℕ) (c b d e : Session) (at : Loads)
    → q.next.off < q.size
    → IsHeld q.layout q.next len c k
    → (to_link : Reach c b) (to_head : Reach b d) (to_tail : Reach d e)
    → q.next.seq + (k + commits to_link + commits to_head + commits to_tail) + 1 < seq_mod q.layout
    → Seen b (at 0)
    → Seen d (at 1)
    → Seen e (at 2)
    → mrb_check q (from_load 1 at) ≡ true
    → mrb_release q at ≡ record q { next = mrb_item_unpack q.layout (c.shared.word q.next.off) }
mrb_release-link q len k c b d e at inside held to_link to_head to_tail few link first second
      passes =
    let (next, long, whole) = link-IsNextItem q.layout q.next len c k inside held in
    let words =
      mrb_check-SameWords q len k c b d e (at 0) (from_load 1 at) inside held to_link to_head
        to_tail few link first second passes in
    let start : ahead q.size q.next.off q.next.off < len = ground arith in
    let same : (at 0).word q.next.off ≡ c.shared.word q.next.off =
      words q.next.off inside whole start in
    rw (mrb_release_passed q at passes) (rw same refl)

-- A reader has the writer's layout, and its message `q.next`, at an offset of the buffer, is in the
-- buffer at the time `c`, `k` numbers before the tail. If mrb_release loads its link at any later
-- time, and the check that comes then passes, the reader goes on to the item that was behind the
-- message at `c`: to the next message, which the buffer held then, or, if there was none, to the
-- place of the tail. Each load may find the memory between the stores of an operation, and the
-- condition is that the sequence numbers do not go round in the meantime.
pub mrb_release-IsNextItem :
    (q : Mrb) (len k : ℕ) (c b d e : Session) (at : Loads)
    → q.next.off < q.size
    → IsHeld q.layout q.next len c k
    → (to_link : Reach c b) (to_head : Reach b d) (to_tail : Reach d e)
    → q.next.seq + (k + commits to_link + commits to_head + commits to_tail) + 1 < seq_mod q.layout
    → Seen b (at 0)
    → Seen d (at 1)
    → Seen e (at 2)
    → mrb_check q (from_load 1 at) ≡ true
    → let q' = mrb_release q at in IsNextItem q.layout q'.next c k × (q'.layout ≡ q.layout)
mrb_release-IsNextItem q len k c b d e at inside held to_link to_head to_tail few link first second
      passes =
    rw
      (mrb_release-link q len k c b d e at inside held to_link to_head to_tail few link first second
        passes)
      ((link-IsNextItem q.layout q.next len c k inside held).0, refl)

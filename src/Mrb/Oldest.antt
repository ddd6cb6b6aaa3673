-- ===== src/Mrb/Oldest.antt =====
-- mrb_reveal beside the writer: a reader whose message is gone goes on with the oldest one.
mod Tests
use glgrab.Base.{
  ℕ, suc, ◌+◌, ◌<◌, ◌≡◌, ◌≢◌, refl, sym, ap, subst, ◌∙◌, arith, some, List, [], ◌∷◌, length, true,
  false, ==_of_ne,
}
use glgrab.Mrb.{Mrb, mrb_item_unpack}
use glgrab.Mrb.Chain.{IsValid, Chain-offset}
use glgrab.Mrb.Read.{Loads, Revealed, reveal_start, mrb_check, mrb_reveal}
use glgrab.Mrb.Session.{Session, Holds}
use glgrab.Mrb.Held.{IsHeld}
use glgrab.Mrb.Interleaved.{Chain-number}

-- What mrb_reveal returns where it shows a message.
mrb_reveal_shows :
    (q : Mrb) (at : Loads)
    → let next = mrb_item_unpack q.layout ((at 2).hdr.head) in
      mrb_check q at ≡ false
      → q.next.seq ≢ 0
      → next.seq ≢ 0
      → next.seq ≢ (mrb_item_unpack q.layout ((at 3).hdr.tail)).seq
      → mrb_reveal q at ≡ record {
        handle = record q { next = next };
        found = true;
        ptr = some (q.base + next.off + q.data_offset);
      }
unfolding mrb_reveal reveal_start
mrb_reveal_shows q at fails started numbered other =
    let next = mrb_item_unpack q.layout ((at 2).hdr.head) in
    rw
      (
        fails,
        ==_of_ne q.next.seq 0 started,
        ==_of_ne next.seq 0 numbered,
        ==_of_ne next.seq _ other,
      )
      refl

-- A reader has the writer's layout. The buffer holds messages, `l` bytes the oldest, where
-- mrb_reveal loads the head, and fewer than the number of the tail says, so that the numbers have
-- not gone round among them. If the reader has a message, the check of it fails, and the tail has another number when it is loaded, mrb_reveal shows
-- the oldest message: the handle stands at it, and the pointer is behind its link.
pub mrb_reveal-IsHeld :
    (q : Mrb) (c : Session) (l : ℕ) (lens : List ℕ) (at : Loads)
    → c.handle.layout ≡ q.layout
    → Holds c (l ∷ lens)
    → suc (length lens) < (mrb_item_unpack q.layout c.shared.hdr.tail).seq
    → at 2 ≡ c.shared
    → (mrb_item_unpack q.layout c.shared.hdr.head).seq
      ≢ (mrb_item_unpack q.layout ((at 3).hdr.tail)).seq
    → q.next.seq ≢ 0
    → mrb_check q at ≡ false
    → let v = mrb_reveal q at in
      IsHeld q.layout v.handle.next l c (suc (length lens))
      × (v.found ≡ true)
      × (v.ptr ≡ some (q.base + v.handle.next.off + q.data_offset))
      × (v.handle.next.off < q.size)
      × (v.handle.layout ≡ q.layout)
mrb_reveal-IsHeld q c l lens at layout holds few load other started fails =
    let valid = subst (λ t. IsValid t c.shared (l ∷ lens)) layout holds.0 in
    let up =
      Chain-number q.layout c.shared.word c.shared.hdr.tail (l ∷ lens) c.shared.hdr.head valid.holds
        few in
    let shown =
      mrb_reveal_shows q at fails started (rw load valid.holds.0.numbered) (rw load other) in
    rw shown (
      rw load (
        record {
          lens = l ∷ lens;
          newer = lens;
          after = record { layout = layout; holds = holds; number = sym up };
          ends = ([], refl);
          place =
              Chain-offset q.layout c.shared.word c.shared.hdr.tail (l ∷ lens) c.shared.hdr.head
                valid.fits valid.holds;
          count = refl;
        },
        refl,
        refl,
        valid.holds.0.inside,
        refl,
      ))

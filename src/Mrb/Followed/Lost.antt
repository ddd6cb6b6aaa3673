-- ===== src/Mrb/Followed/Lost.antt =====
-- A reader that looks for the next message while the buffer is empty.
use glgrab.Base.{
  ℕ, ◌+◌, ◌<◌, ◌≡◌, ◌≢◌, inl, inr, refl, ap, subst, ◌∙◌, arith, false, none, ◌==◌, ==_of_eq,
  ==_of_ne, Bool-cases,
}
use glgrab.Mrb.{Item, Mrb, Shared, mrb_item_unpack}
use glgrab.Mrb.Pointer.{seq_mod, unpack-zero}
use glgrab.Mrb.Read.{Loads, mrb_check, reveal_start, mrb_reveal}
use glgrab.Mrb.Session.{Session, Reach}
use glgrab.Mrb.Held.{commits}
use glgrab.Mrb.Followed.{IsAwaited, IsFollowed, awaited, IsFollowed-number, IsFollowed-Reach}

mrb_check_empty :
    (q : Mrb) (s : Shared)
    → (mrb_item_unpack q.layout s.hdr.head).seq ≡ 0
    → mrb_check q (λ i. s) ≡ false
unfolding mrb_check
mrb_check_empty q s h = ground arith

mrb_check_nowhere : (q : Mrb) (at : Loads) → q.next.seq ≡ 0 → mrb_check q at ≡ false
unfolding mrb_check
mrb_check_nowhere q at h = ground arith

-- A reader with a place loses it where the buffer is empty.
mrb_reveal_empty :
    (q : Mrb) (s : Shared)
    → q.next.seq ≢ 0
    → (mrb_item_unpack q.layout s.hdr.head).seq ≡ 0
    → let v = mrb_reveal q (λ i. s) in
      (v.handle.next.seq ≡ 0) × (v.handle.layout ≡ q.layout) × (v.ptr ≡ none)
unfolding mrb_reveal reveal_start
mrb_reveal_empty q s started h =
    rw (mrb_check_empty q s h, ==_of_ne q.next.seq 0 started) (rw (==_of_eq _ 0 h) (h, refl, refl))

-- A reader without a place goes to the tail.
mrb_reveal_nowhere :
    (q : Mrb) (s : Shared)
    → q.next.seq ≡ 0
    → let v = mrb_reveal q (λ i. s) in
      (v.handle.next ≡ mrb_item_unpack q.layout s.hdr.tail) × (v.ptr ≡ none)
unfolding mrb_reveal reveal_start
mrb_reveal_nowhere q s h =
    let n = (mrb_item_unpack q.layout s.hdr.tail).seq in
    rw (mrb_check_nowhere q (λ i. s) h, ==_of_eq q.next.seq 0 h)
      (rw (==_of_eq n n refl)
        (elim (Bool-cases (n == 0)) [ inl e ↦ rw e (refl, refl) | inr e ↦ rw e (refl, refl) ]))

-- A reader has the writer's layout, and waits at the place of the tail for the next message, while
-- the buffer is empty, as it is when a reservation has reclaimed all messages. If it calls
-- mrb_reveal then, and again at any later time, while the writer rests during each of the calls:
-- both show nothing, and the second one leaves the reader at the place of the tail, wherever that
-- is by then. If `k` messages were committed between the two calls, each of them is passed over.
-- The condition is that the sequence numbers do not go round in the meantime.
pub mrb_reveal-passes_over :
    (q : Mrb) (c d : Session)
    → q.next.off < q.size
    → q.next.seq ≢ 0
    → IsAwaited q.layout q.next c
    → c.shared.hdr.head ≡ 0
    → (r : Reach c d) → q.next.seq + commits r < seq_mod q.layout
    → let v = mrb_reveal q (λ i. c.shared) in
      let v' = mrb_reveal v.handle (λ i. d.shared) in
      (v.ptr ≡ none)
      × (v'.ptr ≡ none)
      × (v'.handle.next ≡ mrb_item_unpack q.layout d.shared.hdr.tail)
      × (k : ℕ) × IsFollowed q.layout q.next d k
      × (v'.handle.next.seq ≡ q.next.seq + k)
mrb_reveal-passes_over q c d inside started a is_empty r few =
    let geometry = a.after.holds.0.geometry in
    let zero_head : (mrb_item_unpack q.layout c.shared.hdr.head).seq ≡ 0 =
      rw is_empty
        (subst (λ t. (mrb_item_unpack t 0).seq ≡ 0) a.after.layout (unpack-zero geometry)) in
    let (nowhere, layout, nothing) = mrb_reveal_empty q c.shared started zero_head in
    let v = mrb_reveal q (λ i. c.shared) in
    let (at_tail, nothing') = mrb_reveal_nowhere v.handle d.shared nowhere in
    let now : (mrb_reveal v.handle (λ i. d.shared)).handle.next
        ≡ mrb_item_unpack q.layout d.shared.hdr.tail =
      at_tail ∙ ap (λ t. mrb_item_unpack t d.shared.hdr.tail) layout in
    let (k, ge, le, f) =
      IsFollowed-Reach q.layout q.next inside c d 0 (awaited refl a) r (omega arith) in
    (
      nothing,
      nothing',
      now,
      k,
      f,
      ap (λ (t : Item). t.seq) now ∙ IsFollowed-number q.layout q.next d k f,
    )

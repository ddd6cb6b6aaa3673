-- ===== src/Avformat/Ends.antt =====
-- `read_packet` returns, whatever the rounds make of the frames.
use glgrab.Base.{
  ℕ, suc, ◌+◌, ◌<◌, ◌≡◌, ◌≢◌, refl, sym, ap, ap₂, ◌∙◌, arith, inl, inr, true, Option, none, some,
  List, [], ◌∷◌, length, Bool-cases,
}
use glgrab.Mrb.{Item, Mrb, Shared, mrb_item_unpack}
use glgrab.Mrb.Pointer.{seq_mod}
use glgrab.Mrb.Chain.{succ_seq, link, Chain, IsValid}
use glgrab.Mrb.Read.{Revealed, mrb_reveal, mrb_release}
use glgrab.Mrb.Numbering.{seq_after}
use glgrab.Mrb.Drain.{quiet, Chain-numbers, reveal-more, reveal-none, release-next}
use glgrab.Avformat.{
  Ffmpeg, Packet, Priv, Outcome, Round, Verdict, leave, wait, again, done, setup_stream,
  place_packet, copy_frame, use_stream, stream_or_error, find_stream, flush, use_pointer, released,
  read_round, resume, read_packet,
}

-- All rounds find the same memory of the ring buffer.
abbrev pub AreQuiet : Shared → List Round → Type 0
AreQuiet s [] = Unit
AreQuiet s (r ∷ rs) = (r.reveal ≡ quiet s) × (r.release ≡ quiet s) × AreQuiet s rs

-- The member `poll.ts` is zero: the caller does not want to wait.
abbrev pub DoesNotWait : Priv → Type 0
DoesNotWait g = (g.tv_sec ≡ 0) × (g.tv_nsec ≡ 0)

-- What a round leaves to the next one.
abbrev Stays : Priv → Verdict → Type 0
Stays g (leave o g') = Unit
Stays g (wait g') = ⊥
Stays g (again g') = (g'.rb ≡ g.rb) × (g'.tv_sec ≡ g.tv_sec) × (g'.tv_nsec ≡ g.tv_nsec)
Stays g (done o g') = Unit

use_pointer-Stays :
    (av : Ffmpeg) (r : Round) (p : ℕ) (g : Priv) → Stays g (use_pointer av r (some p) g)
unfolding use_pointer find_stream setup_stream stream_or_error use_stream copy_frame place_packet
use_pointer-Stays av r p g = ground arith

abbrev Returns : Option (Outcome × Priv) → Type 0
Returns t = (o : Outcome) × (g' : Priv) × (t ≡ some (o, g'))

resume-Returns :
    (av : Ffmpeg) (rest : Priv → Option (Outcome × Priv)) (r : Round) (g : Priv) (v : Verdict)
    → Stays g v
    → ((g' : Priv)
        → g'.rb ≡ g.rb
        → g'.tv_sec ≡ g.tv_sec
        → g'.tv_nsec ≡ g.tv_nsec
        → Returns (rest (released av r g')))
    → Returns (resume av rest r v)
unfolding resume
resume-Returns av rest r g (leave o g') h ih = (o, g', refl)
resume-Returns av rest r g (wait g') h ih = absurd h
resume-Returns av rest r g (again g') (rb, sec, nsec) ih = ih g' rb sec nsec
resume-Returns av rest r g (done o g') h ih = (o, released av r g', refl)

module _ (av : Ffmpeg) (rest : Priv → Option (Outcome × Priv)) (r : Round) (g : Priv) where
  flush-Returns : (o : Option Packet) (g' : Priv) → Returns (resume av rest r (flush av o g'))
  unfolding flush resume
  flush-Returns none g' = (_, _, refl)
  flush-Returns (some p0) g' = (_, _, refl)

  -- Where nothing is shown, a caller that does not want to wait gets an answer.
  none-Returns :
      DoesNotWait g
      → (mrb_reveal g.rb r.reveal).ptr ≡ none
      → Returns (resume av rest r (read_round av r g))
  unfolding read_round use_pointer resume
  none-Returns (sec, nsec) e = elim (Bool-cases (mrb_reveal g.rb r.reveal).found) [
    | inl f ↦ rw (f, e) (flush-Returns g.pkt0 (record g { rb = (mrb_reveal g.rb r.reveal).handle }))
    | inr f ↦ rw (f, sec, nsec) (_, _, refl)
  ]

  read_round-some :
      (q : Mrb) (p : ℕ)
      → mrb_reveal g.rb r.reveal ≡ record { handle = q; found = true; ptr = some p }
      → read_round av r g ≡ use_pointer av r (some p) (record g { rb = q })
  unfolding read_round
  read_round-some q p e = rw (e) refl

read_packet_from :
    (av : Ffmpeg) (q : Mrb) (s : Shared) (seq i n : ℕ) (lens : List ℕ) (p : ℕ)
    → 0 < seq
    → seq < seq_mod q.layout
    → n + 1 < seq_mod q.layout
    → i + length lens ≡ n
    → (mrb_item_unpack q.layout s.hdr.head).seq ≡ seq
    → (mrb_item_unpack q.layout s.hdr.tail).seq ≡ seq_after q.layout seq n
    → (mrb_item_unpack q.layout p).seq ≡ seq_after q.layout seq i
    → q.next ≡ mrb_item_unpack q.layout p
    → Chain q.layout s.word s.hdr.tail p lens
    → (rs : List Round) (g : Priv) → length lens < length rs
    → AreQuiet s rs
    → DoesNotWait g
    → g.rb ≡ q
    → Returns (read_packet av rs g)
unfolding read_packet seq_after
read_packet_from av q s seq i n lens p pos small few e head tail here at c [] g f calm now gq =
    absurd (omega arith)
read_packet_from av q s seq i n [] p pos small few e head tail here at c (r ∷ rs) g f calm now gq =
    let last : (mrb_reveal q (quiet s)).ptr ≡ none =
      reveal-none q s seq i 0 pos small (omega arith) head (ap (λ (t : Item). t.seq) at ∙ here)
        (tail ∙ ap (seq_after q.layout seq) (let k : n ≡ i + 0 = omega arith in k)) refl in
    none-Returns av (read_packet av rs) r g now
      (ap (λ (t : Revealed). t.ptr) (ap₂ mrb_reveal gq calm.0) ∙ last)
read_packet_from av q s seq i n (len ∷ lens) p pos small few e head tail here at c (r ∷ rs) g f calm
      now gq =
    let j = suc (length lens) in
    let number = ap (λ (t : Item). t.seq) at ∙ here in
    let tail' = tail ∙ ap (seq_after q.layout seq) (sym e) in
    let more = reveal-more q s seq i j pos small (omega arith) head number tail' (omega arith) in
    let after = release-next q s seq i j pos small (omega arith) head number tail' in
    let q' : Mrb = record q { next = mrb_item_unpack q.layout (s.word q.next.off) } in
    let shown = q.base + q.next.off + q.data_offset in
    let g' : Priv = record g { rb = q } in
    rw (read_round-some av (read_packet av rs) r g q shown (ap₂ mrb_reveal gq calm.0 ∙ more)) (
      resume-Returns av (read_packet av rs) r g' (use_pointer av r (some shown) g')
        (use_pointer-Stays av r shown g')
        (λ g2 rb sec nsec.
          read_packet_from av q' s seq (suc i) n lens (link q.layout s.word p) pos small few
            (omega arith) head tail (c.1.number ∙ ap (succ_seq q.layout) here)
            (ap (λ (o : ℕ). mrb_item_unpack q.layout (s.word o)) (ap (λ (t : Item). t.off) at)) c.2
            rs (released av r g2) (omega arith) calm.2 (sec ∙ now.0, nsec ∙ now.1)
            (ap₂ mrb_release rb calm.1 ∙ after)))

-- While the writer rests, a call that does not wait returns: for a reader that stands at the head
-- of a valid buffer, one round more than there are messages is enough, whatever FFmpeg answers and
-- whatever the frames are, if the numbers of the messages do not go all the way round.
pub read_packet-Returns :
    (av : Ffmpeg) (g : Priv) (s : Shared) (lens : List ℕ) (rs : List Round)
    → IsValid g.rb.layout s lens
    → lens ≢ []
    → length lens + 1 < seq_mod g.rb.layout
    → g.rb.next ≡ mrb_item_unpack g.rb.layout s.hdr.head
    → DoesNotWait g
    → AreQuiet s rs
    → length lens < length rs
    → (o : Outcome) × (g' : Priv) × (read_packet av rs g ≡ some (o, g'))
read_packet-Returns av g s [] rs v some_message few at now calm f = absurd (some_message refl)
read_packet-Returns av g s (len ∷ lens) rs v some_message few at now calm f =
    let q = g.rb in
    let head = mrb_item_unpack q.layout s.hdr.head in
    let c = v.holds in
    let pos : 0 < head.seq = omega (arith, c.0.numbered) in
    let start : head.seq ≡ seq_after q.layout head.seq 0 = unfold seq_after in refl in
    read_packet_from av q s head.seq 0 (suc (length lens)) (len ∷ lens) s.hdr.head pos c.0.below few
      (omega arith) refl
      (Chain-numbers q.layout s.word s.hdr.tail head.seq 0 (suc (length lens)) (len ∷ lens)
        s.hdr.head (omega arith) start c)
      start at c rs g f calm now refl

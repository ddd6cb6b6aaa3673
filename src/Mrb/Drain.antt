-- ===== src/Mrb/Drain.antt =====
-- The loop of a reader that mrb.h shows, while the writer rests: it gets all messages from its
-- place on, in order.
use glgrab.Base.{
  ℕ, zero, suc, ◌+◌, ◌<◌, ◌≡◌, ◌≢◌, refl, ap, ap₂, sym, ◌∙◌, arith, true, none, some, List, [], ◌∷◌,
  length, ==_of_eq, ==_of_ne,
}
use glgrab.Mrb.{Item, Layout, Mrb, Shared, mrb_item_unpack}
use glgrab.Mrb.Pointer.{seq_mod, IsGeometry}
use glgrab.Mrb.Chain.{wrap, succ_seq, link, Chain, IsValid}
use glgrab.Mrb.Read.{Loads, mrb_check, reveal_start, mrb_reveal, Revealed, mrb_release}
use glgrab.Mrb.Numbering.{seq_after, seq_after_lem, mrb_check-live}

-- All loads find the same memory.
abbrev pub quiet : Shared → Loads
quiet s i = s

-- `while (mrb_reveal(&b, &p) && p) { …; mrb_release(&b); }`, and the pointers that it sees.
unfoldable pub drain : ℕ → Mrb → Shared → List ℕ
drain zero q s = []
drain (suc fuel) q s =
    let r = mrb_reveal q (quiet s) in
    let rest = drain fuel (mrb_release r.handle (quiet s)) s in
    elim r.ptr [ none ↦ [] | some p ↦ p ∷ rest ]

-- Where the messages are that begin at `off`.
unfoldable pub pointers : ℕ → ℕ → ℕ → List ℕ → List ℕ
pointers base size off [] = []
pointers base size off (len ∷ lens) =
    (base + off + 64) ∷ pointers base size (wrap size (off + len)) lens

drain-none :
    (fuel : ℕ) (q : Mrb) (s : Shared)
    → (mrb_reveal q (quiet s)).ptr ≡ none
    → drain (suc fuel) q s ≡ []
unfolding drain
drain-none fuel q s e = rw (e, drain)

drain-some :
    (fuel : ℕ) (q : Mrb) (s : Shared) (p : ℕ)
    → mrb_reveal q (quiet s) ≡ record { handle = q; found = true; ptr = some p }
    → drain (suc fuel) q s ≡ p ∷ drain fuel (mrb_release q (quiet s)) s
unfolding drain
drain-some fuel q s p e =
    let see : Revealed → List ℕ =
      λ r. elim r.ptr [ none ↦ [] | some p ↦ p ∷ drain fuel (mrb_release r.handle (quiet s)) s ] in
    ap see e

pub Chain-numbers :
    (q : Layout) (word : ℕ → ℕ) (tail seq i n : ℕ) (lens : List ℕ) (p : ℕ)
    → i + length lens ≡ n
    → (mrb_item_unpack q p).seq ≡ seq_after q seq i
    → Chain q word tail p lens
    → (mrb_item_unpack q tail).seq ≡ seq_after q seq n
unfolding seq_after
Chain-numbers q word tail seq i n [] p e h c =
    ap (λ t. (mrb_item_unpack q t).seq) (sym c.1)
    ∙ h
    ∙ ap (seq_after q seq) (let k : i ≡ n = omega arith in k)
Chain-numbers q word tail seq i n (len ∷ lens) p e h c =
    Chain-numbers q word tail seq (suc i) n lens (link q word p) (omega arith)
      (c.1.number ∙ ap (succ_seq q) h) c.2

-- One message further: `mrb_reveal` shows it and `mrb_release` goes on to the next.
module _ (q : Mrb) (s : Shared) (seq i j : ℕ) (pos : 0 < seq) (small : seq < seq_mod q.layout)
    (few : i + j + 1 < seq_mod q.layout) (head : (mrb_item_unpack q.layout s.hdr.head).seq ≡ seq)
    (here : q.next.seq ≡ seq_after q.layout seq i)
    (tail : (mrb_item_unpack q.layout s.hdr.tail).seq ≡ seq_after q.layout seq (i + j)) where
  number-pos : 0 < q.next.seq
  number-pos = ground (arith, seq_after_lem q.layout seq i pos small (omega arith))

  check-passes : mrb_check q (quiet s) ≡ true
  check-passes = mrb_check-live q (quiet s) seq i j pos small few head here tail

  pub reveal-more :
      0 < j
      → mrb_reveal q (quiet s)
        ≡ record { handle = q; found = true; ptr = some (q.base + q.next.off + q.data_offset) }
  unfolding mrb_reveal reveal_start
  reveal-more more =
      let apart : q.next.seq ≢ (mrb_item_unpack q.layout s.hdr.tail).seq = ground (
        arith,
        seq_after_lem q.layout seq i pos small (omega arith),
        seq_after_lem q.layout seq (i + j) pos small few,
      ) in
      rw (
        check-passes,
        ==_of_ne q.next.seq 0 (omega (arith, number-pos)),
        ==_of_ne q.next.seq (mrb_item_unpack q.layout s.hdr.tail).seq apart,
      )

  pub reveal-none : j ≡ 0 → (mrb_reveal q (quiet s)).ptr ≡ none
  unfolding mrb_reveal reveal_start
  reveal-none last =
      let same : q.next.seq ≡ (mrb_item_unpack q.layout s.hdr.tail).seq =
        here ∙ ap (seq_after q.layout seq) (let k : i ≡ i + j = omega arith in k) ∙ sym tail in
      rw (
        check-passes,
        ==_of_ne q.next.seq 0 (omega (arith, number-pos)),
        ==_of_eq q.next.seq (mrb_item_unpack q.layout s.hdr.tail).seq same,
      )

  pub release-next :
      mrb_release q (quiet s) ≡ record q { next = mrb_item_unpack q.layout (s.word q.next.off) }
  unfolding mrb_release
  release-next = rw check-passes

drain-from :
    (q : Mrb) (s : Shared) (g : IsGeometry q.layout) (seq i n : ℕ) (lens : List ℕ) (p : ℕ)
    → 0 < seq
    → seq < seq_mod q.layout
    → n + 1 < seq_mod q.layout
    → i + length lens ≡ n
    → (mrb_item_unpack q.layout s.hdr.head).seq ≡ seq
    → (mrb_item_unpack q.layout s.hdr.tail).seq ≡ seq_after q.layout seq n
    → (mrb_item_unpack q.layout p).seq ≡ seq_after q.layout seq i
    → q.next ≡ mrb_item_unpack q.layout p
    → Chain q.layout s.word s.hdr.tail p lens
    → (fuel : ℕ) → length lens < fuel
    → drain fuel q s ≡ pointers q.base q.size (mrb_item_unpack q.layout p).off lens
unfolding pointers seq_after
drain-from q s g seq i n lens p pos small few e head tail here at c zero f = absurd (omega arith)
drain-from q s g seq i n [] p pos small few e head tail here at c (suc fuel) f =
    let last : (mrb_reveal q (quiet s)).ptr ≡ none =
      reveal-none q s seq i 0 pos small (omega arith) head (ap (λ (t : Item). t.seq) at ∙ here)
        (tail ∙ ap (seq_after q.layout seq) (let k : n ≡ i + 0 = omega arith in k)) refl in
    drain-none fuel q s last
drain-from q s g seq i n (len ∷ lens) p pos small few e head tail here at c (suc fuel) f =
    let j = suc (length lens) in
    let number = ap (λ (t : Item). t.seq) at ∙ here in
    let tail' = tail ∙ ap (seq_after q.layout seq) (sym e) in
    let more = reveal-more q s seq i j pos small (omega arith) head number tail' (omega arith) in
    let after = release-next q s seq i j pos small (omega arith) head number tail' in
    let q' : Mrb = record q { next = mrb_item_unpack q.layout (s.word q.next.off) } in
    let place = ap (λ (t : Item). t.off) at in
    let rest =
      drain-from q' s g seq (suc i) n lens (link q.layout s.word p) pos small few (omega arith) head
        tail (c.1.number ∙ ap (succ_seq q.layout) here)
        (ap (λ (o : ℕ). mrb_item_unpack q.layout (s.word o)) place) c.2 fuel (omega arith) in
    drain-some fuel q s (q.base + q.next.off + q.data_offset) more
    ∙ rw (after, rest, c.1.offset) (ap₂ ◌∷◌ (omega (arith, g.link_size, place)) refl)

-- A reader that stands at the head of a valid buffer sees exactly the messages that the buffer
-- holds, oldest first, each at the place that the writer was granted for it, and then none, if
-- the writer rests and the numbers of the messages do not go all the way round.
pub drain-pointers :
    (q : Mrb) (s : Shared) (lens : List ℕ) (fuel : ℕ)
    → IsValid q.layout s lens
    → lens ≢ []
    → length lens + 1 < seq_mod q.layout
    → q.next ≡ mrb_item_unpack q.layout s.hdr.head
    → length lens < fuel
    → drain fuel q s ≡ pointers q.base q.size q.next.off lens
drain-pointers q s [] fuel v some_message few at f = absurd (some_message refl)
drain-pointers q s (len ∷ lens) fuel v some_message few at f =
    let head = mrb_item_unpack q.layout s.hdr.head in
    let c = v.holds in
    let pos : 0 < head.seq = omega (arith, c.0.numbered) in
    let start : head.seq ≡ seq_after q.layout head.seq 0 = unfold seq_after in refl in
    drain-from q s v.geometry head.seq 0 (suc (length lens)) (len ∷ lens) s.hdr.head pos c.0.below
      few (omega arith) refl
      (Chain-numbers q.layout s.word s.hdr.tail head.seq 0 (suc (length lens)) (len ∷ lens)
        s.hdr.head (omega arith) start c)
      start at c fuel f
    ∙ ap (λ (o : ℕ). pointers q.base q.size o (len ∷ lens)) (sym (ap (λ (t : Item). t.off) at))

-- ===== src/Mrb/Interleaved.antt =====
-- A reader beside the writer: what it has read of a message, if mrb_check passes afterwards.
mod Tests
use glgrab.Base.{
  ℕ, zero, suc, ◌+◌, ◌-◌, ◌%◌, ◌≤◌, ◌<◌, ◌≡◌, ◌≢◌, ◌⊎◌, inl, inr, refl, sym, ap, subst, ◌∙◌, arith,
  some, List, [], ◌∷◌, ◌++◌, sum, length, sum-append, length-append, leb, ltb, ◌==◌, if◌then◌else◌,
  Bool-cases, true, false,
}
use glgrab.Mrb.{Item, Layout, Mrb, Shared, mrb_item_unpack, mrb_item_pack}
use glgrab.Mrb.Write.{Reserved, mrb_reserve, mrb_commit}
use glgrab.Mrb.Next.{IsRequest}
use glgrab.Mrb.Pointer.{seq_mod, unpack-zero}
use glgrab.Mrb.Chain.{wrap, ahead, tail_off, succ_seq, IsPlace, IsValid, Chain, Heads, link}
use glgrab.Mrb.Reclaim.{retained}
use glgrab.Mrb.Read.{Loads, mrb_check}
use glgrab.Mrb.Session.{
  Session, Step, reserve, commit, Reach, here, next, after_reserve, after_commit,
}
use glgrab.Mrb.Kept.{
  EndsIn, retained-EndsIn, length-retained-le, IsAfter, Effect, stays, grows, step_commits,
  Step-Effect, commit_fields,
}
use glgrab.Mrb.Held.{IsHeld, IsGone, SameWords, commits, IsGone-step, IsGone-Reach, IsHeld-Reach}

-- The numbers go up along a chain that is shorter than the number of its end.
pub Chain-number :
    (q : Layout) (word : ℕ → ℕ) (tail : ℕ) (lens : List ℕ) (p : ℕ)
    → Chain q word tail p lens
    → length lens < (mrb_item_unpack q tail).seq
    → (mrb_item_unpack q p).seq + length lens ≡ (mrb_item_unpack q tail).seq
Chain-number q word tail [] p c few = omega (arith, ap (λ (t : ℕ). (mrb_item_unpack q t).seq) c.1)
Chain-number q word tail (l ∷ lens) p c few =
    let rest = Chain-number q word tail lens (link q word p) c.2 (omega arith) in
    ground (arith, rest, c.1.number)

head_number :
    (item : Item) (c : Session) (k : ℕ) (lens : List ℕ)
    → IsAfter c.handle.layout item c k lens
    → length lens < k
    → ((mrb_item_unpack c.handle.layout c.shared.hdr.head).seq ≡ 0)
      ⊎ ((mrb_item_unpack c.handle.layout c.shared.hdr.head).seq + length lens ≡ item.seq + k)
head_number item c k [] a few = inl (
    ap (λ (t : ℕ). (mrb_item_unpack c.handle.layout t).seq) a.holds.0.holds
    ∙ unpack-zero a.holds.0.geometry)
head_number item c k (l ∷ lens) a few = inr (
    Chain-number c.handle.layout c.shared.word c.shared.hdr.tail (l ∷ lens) c.shared.hdr.head
      a.holds.0.holds (omega (arith, a.number))
    ∙ a.number)

-- The memory as a load may find it, at `c` or within the operation that comes then: between the
-- store of the head and that of the link in mrb_reserve, or behind the store of the tail in
-- mrb_commit.
pub data Seen (c : Session) : Shared → Type 0 where
  at_rest : Seen c c.shared
  head_stored :
      (size : ℕ) (r : Reserved)
      → IsRequest c.handle.layout size
      → mrb_reserve c.handle c.shared size ≡ some r
      → Seen c (record (c.shared) { hdr = r.shared.hdr })
  tail_stored :
      c.handle.next.seq ≢ 0
      → Seen c (record (c.shared) {
        hdr = record (c.shared.hdr) { tail = mrb_item_pack c.handle.layout c.handle.next };
      })

Seen-words : (c : Session) (m : Shared) → Seen c m → m.word ≡ c.shared.word
Seen-words c m at_rest = refl
Seen-words c m (head_stored size r req e) = refl
Seen-words c m (tail_stored started) = refl

module _ (q : Layout) (item : Item) (c : Session) (k : ℕ) (gone : IsGone q item c k) where
  IsGone-after_reserve :
      (size : ℕ) (r : Reserved)
      → item.seq + k < seq_mod q
      → IsRequest c.handle.layout size
      → mrb_reserve c.handle c.shared size ≡ some r
      → IsGone q item (after_reserve c size r) k
  unfolding step_commits
  IsGone-after_reserve size r few req e =
      let c' = after_reserve c size r in
      let (k', ge, le, gone') =
        IsGone-step q item c c' 0 k gone
          (Step-Effect q item c c' k gone.lens (reserve size r req e) (omega arith) gone.after) in
      let same : k' ≡ k = omega arith in subst (λ t. IsGone q item c' t) same gone'

  IsGone-after_commit :
      item.seq + suc k < seq_mod q → (k' : ℕ) × (k ≤ k') × IsGone q item (after_commit c) k'
  unfolding step_commits
  IsGone-after_commit few =
      let (k', ge, le, gone') =
        IsGone-step q item c (after_commit c) 1 k gone
          (Step-Effect q item c (after_commit c) k gone.lens commit (omega arith) gone.after) in
      (k', ge, gone')

  Seen-head :
      (m : Shared)
      → item.seq + k < seq_mod q
      → Seen c m
      → (c' : Session) × IsGone q item c' k × (m.hdr.head ≡ c'.shared.hdr.head)
  Seen-head m few at_rest = (c, gone, refl)
  Seen-head m few (head_stored size r req e) =
      (after_reserve c size r, IsGone-after_reserve size r few req e, refl)
  Seen-head m few (tail_stored started) = (c, gone, refl)

  Seen-tail :
      (m : Shared)
      → item.seq + suc k < seq_mod q
      → Seen c m
      → (c' : Session) × (k' : ℕ) × (k ≤ k')
        × IsGone q item c' k'
        × (m.hdr.tail ≡ c'.shared.hdr.tail)
  Seen-tail m few at_rest = (c, k, omega arith, gone, refl)
  Seen-tail m few (head_stored size r req e) = (
    after_reserve c size r,
    k,
    omega arith,
    IsGone-after_reserve size r (omega arith) req e,
    refl,
  )
  Seen-tail m few (tail_stored started) =
      let (k', ge, gone') = IsGone-after_commit few in
      (after_commit c, k', ge, gone', sym (commit_fields c.handle c.shared started).1)

-- The check refuses a message that is gone, whatever is committed between its two loads.
IsGone-refused :
    (q : Mrb) (d e : Session) (at : Loads) (k k' : ℕ)
    → IsGone q.layout q.next d k
    → IsGone q.layout q.next e k'
    → k ≤ k'
    → (at 0).hdr.head ≡ d.shared.hdr.head
    → (at 1).hdr.tail ≡ e.shared.hdr.tail
    → mrb_check q at ≡ false
unfolding mrb_check
IsGone-refused q d e at k k' gone gone' le first second =
    let head =
      subst
        (λ t.
          IsAfter t q.next d k gone.lens
          → ((mrb_item_unpack t d.shared.hdr.head).seq ≡ 0)
            ⊎ ((mrb_item_unpack t d.shared.hdr.head).seq + length gone.lens ≡ q.next.seq + k))
        gone.after.layout (λ a. head_number q.next d k gone.lens a gone.few) gone.after in
    rw (first, second) (ground (arith, head, gone.few, gone'.after.number))

-- Once the message is gone, no check of it passes.
pub IsGone-Reach-refused :
    (q : Mrb) (k : ℕ) (b d e : Session) (at : Loads)
    → IsGone q.layout q.next b k
    → (to_head : Reach b d) (to_tail : Reach d e)
    → q.next.seq + (k + commits to_head + commits to_tail) + 1 < seq_mod q.layout
    → Seen d (at 0)
    → Seen e (at 1)
    → mrb_check q at ≡ false
IsGone-Reach-refused q k b d e at gone to_head to_tail few first second =
    let (k2, ge2, le2, gone2) = IsGone-Reach q.layout q.next b d k gone to_head (omega arith) in
    let (k3, ge3, le3, gone3) = IsGone-Reach q.layout q.next d e k2 gone2 to_tail (omega arith) in
    let (d', gone_d, head) = Seen-head q.layout q.next d k2 gone2 (at 0) (omega arith) first in
    let (e', k', ge, gone_e, tail) =
      Seen-tail q.layout q.next e k3 gone3 (at 1) (omega arith) second in
    IsGone-refused q d' e' at k2 k' gone_d gone_e (omega arith) head tail

-- A reader has the writer's layout, and its message `q.next`, of `len` bytes with its link and at an
-- offset of the buffer, is in the buffer at the time `c`, `k` numbers before the tail. Whatever the
-- writer does then, up to the times where the reader looks at the message (`look`), where mrb_check
-- loads the head and where it loads the tail: if the check passes, every word of the message that
-- was looked at is what it was at `c`. Each of the three may find the memory between the stores of
-- an operation (Seen). The condition is that the sequence numbers do not go round in the meantime.
pub mrb_check-SameWords :
    (q : Mrb) (len k : ℕ) (c b d e : Session) (look : Shared) (at : Loads)
    → q.next.off < q.size
    → IsHeld q.layout q.next len c k
    → (to_look : Reach c b) (to_head : Reach b d) (to_tail : Reach d e)
    → q.next.seq + (k + commits to_look + commits to_head + commits to_tail) + 1 < seq_mod q.layout
    → Seen b look
    → Seen d (at 0)
    → Seen e (at 1)
    → mrb_check q at ≡ true
    → SameWords q.layout q.next len c.shared.word look.word
mrb_check-SameWords q len k c b d e look at inside held to_look to_head to_tail few seen first
      second passes =
    let (k1, ge1, le1, st) =
      IsHeld-Reach q.layout q.next len inside c b k held to_look (omega arith) in
    elim st [
      | inl (held', words) ↦ rw (Seen-words b look seen) words
      | inr gone ↦
          let refused =
            IsGone-Reach-refused q k1 b d e at gone to_head to_tail (omega arith) first second in
          absurd (let clash : true ≡ false = sym passes ∙ refused in cc)
    ]

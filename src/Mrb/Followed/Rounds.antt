-- ===== src/Mrb/Followed/Rounds.antt =====
-- A reader's rounds of mrb_reveal and mrb_release beside the writer, as long as its checks pass.
use glgrab.Base.{
  ℕ, suc, ◌+◌, ◌-◌, ◌≤◌, ◌<◌, ◌≡◌, ◌≢◌, inl, inr, refl, sym, ap, subst, ◌∙◌, arith, true, false,
  some,
}
use glgrab.Mrb.{Item, Layout, Mrb, mrb_item_unpack}
use glgrab.Mrb.Pointer.{seq_mod}
use glgrab.Mrb.Read.{Loads, from_load, mrb_check, reveal_start, mrb_reveal, mrb_release}
use glgrab.Mrb.Session.{Session, Reach}
use glgrab.Mrb.Held.{IsHeld, commits}
use glgrab.Mrb.Interleaved.{Seen, IsGone-Reach-refused}
use glgrab.Mrb.Held.{IsGone-Reach}
use glgrab.Mrb.Released.{IsNextItem, link-inside, link-IsNextItem, mrb_release-link}
use glgrab.Mrb.Followed.{IsFollowed, awaited, held, gone, IsFollowed-number, IsFollowed-Reach}

-- One round: mrb_reveal shows a message, and mrb_release goes on from it. The writer goes from `c`
-- to `e` meanwhile: at `t` mrb_reveal compares the place with the tail, at `b` mrb_release loads the
-- link, and at `d` and `e` its check loads the head and the tail. The checks of both pass.
pub record Round (q : Mrb) (c : Session) (at : Loads) (e : Session) : Type 0 where
  pub t : Session
  pub b : Session
  pub d : Session
  pub shown : Loads
  pub ptr : ℕ
  pub to_shown : Reach c t
  pub to_link : Reach t b
  pub to_head : Reach b d
  pub to_tail : Reach d e
  pub tail : (shown 3).hdr.tail ≡ t.shared.hdr.tail
  pub stays : mrb_check q shown ≡ true
  pub shows : (mrb_reveal q shown).ptr ≡ some ptr
  pub link : Seen b (at 0)
  pub first : Seen d (at 1)
  pub second : Seen e (at 2)
  pub passes : mrb_check q (from_load 1 at) ≡ true

abbrev pub round_commits : {q : Mrb} {c e : Session} {at : Loads} → Round q c at e → ℕ
round_commits r = commits r.to_shown + commits r.to_link + commits r.to_head + commits r.to_tail

pub data Rounds (q : Mrb) (c : Session) : Mrb → Session → Type 0 where
  start : Rounds q c q c
  round :
      {p : Mrb} {d e : Session} {at : Loads}
      → Rounds q c p d
      → Round p d at e
      → Rounds q c (mrb_release p at) e

abbrev pub rounds : {q : Mrb} {c : Session} {p : Mrb} {d : Session} → Rounds q c p d → ℕ
rounds start = 0
rounds (round rs r) = suc (rounds rs)

abbrev pub all_commits : {q : Mrb} {c : Session} {p : Mrb} {d : Session} → Rounds q c p d → ℕ
all_commits start = 0
all_commits (round rs r) = all_commits rs + round_commits r

-- Where the check passes and a message is shown, its number is not that of the tail.
mrb_reveal-tail :
    (q : Mrb) (at : Loads) (ptr : ℕ)
    → mrb_check q at ≡ true
    → (mrb_reveal q at).ptr ≡ some ptr
    → q.next.seq ≢ (mrb_item_unpack q.layout ((at 3).hdr.tail)).seq
unfolding mrb_reveal reveal_start
mrb_reveal-tail q at ptr passes shows same = ground arith

-- The item behind a held message is followed.
IsNextItem-IsFollowed :
    (q : Layout) (item item' : Item) (len : ℕ) (c : Session) (k : ℕ)
    → IsHeld q item len c k
    → IsNextItem q item' c k
    → IsFollowed q item' c (k - 1)
IsNextItem-IsFollowed q item item' len c k h (inl (one, e)) = awaited (omega arith) (record {
  lens = h.lens;
  after = record { layout = h.after.layout; holds = h.after.holds; number = rw e (omega arith) };
  place = rw e refl;
})
IsNextItem-IsFollowed q item item' len c k h (inr (len', h')) = held len' h'

-- In a round the message that is shown is in the buffer: it is not awaited any more, as its number
-- is not the tail's, and it is not reclaimed, as the check at the end passes.
shown-IsHeld :
    (q : Mrb) (c e : Session) (at : Loads) (k : ℕ) (r : Round q c at e)
    → IsFollowed q.layout q.next r.t k
    → q.next.seq + (k + commits r.to_link + commits r.to_head + commits r.to_tail) + 1
      < seq_mod q.layout
    → (len : ℕ) × IsHeld q.layout q.next len r.t k
shown-IsHeld q c e at k r (held len h) few = (len, h)
shown-IsHeld q c e at k r (awaited zero_left a) few =
    absurd
      (mrb_reveal-tail q r.shown r.ptr r.stays r.shows (rw (r.tail, a.after.number) (omega arith)))
shown-IsHeld q c e at k r (gone g) few =
    let (k', ge, le, g') = IsGone-Reach q.layout q.next r.t r.b k g r.to_link (omega arith) in
    let refused =
      IsGone-Reach-refused q k' r.b r.d e (from_load 1 at) g' r.to_head r.to_tail (omega arith)
        r.first r.second in
    absurd (let passes = r.passes in let clash : true ≡ false = sym passes ∙ refused in cc)

-- What is known of a reader that has gone `n` messages on, while the tail did by `m`.
pub record IsOn (q : Mrb) (k n m : ℕ) (p : Mrb) (e : Session) : Type 0 where
  pub number : p.next.seq ≡ q.next.seq + n
  pub layout : p.layout ≡ q.layout
  pub inside : p.next.off < q.size
  pub behind : ℕ
  pub bound : p.next.seq + behind ≤ q.next.seq + (k + m)
  pub place : IsFollowed q.layout p.next e behind

round-IsOn :
    (q : Mrb) (c e : Session) (at : Loads) (k : ℕ) (r : Round q c at e)
    → q.next.off < q.size
    → IsFollowed q.layout q.next c k
    → q.next.seq + (k + round_commits r) + 1 < seq_mod q.layout
    → IsOn q k 1 (round_commits r) (mrb_release q at) e
round-IsOn q c e at k r inside f few =
    let (kt, ge, le, ft) =
      IsFollowed-Reach q.layout q.next inside c r.t k f r.to_shown (omega arith) in
    let (len, h) = shown-IsHeld q c e at kt r ft (omega arith) in
    let p = mrb_release q at in
    let item = mrb_item_unpack q.layout (r.t.shared.word q.next.off) in
    let now : p ≡ record q { next = item } =
      mrb_release-link q len kt r.t r.b r.d e at inside h r.to_link r.to_head r.to_tail
        (omega arith) r.link r.first r.second r.passes in
    let (next, long, whole) = link-IsNextItem q.layout q.next len r.t kt inside h in
    let low = link-inside q.layout q.next len r.t kt inside h in
    let fi = IsNextItem-IsFollowed q.layout q.next item len r.t kt h next in
    let up = IsFollowed-number q.layout item r.t (kt - 1) fi in
    let count : item.seq ≡ suc q.next.seq = omega (arith, up, h.after.number, h.count) in
    let (k1, ge1, le1, f1) =
      IsFollowed-Reach q.layout item low r.t r.b (kt - 1) fi r.to_link (omega (arith, h.count)) in
    let (k2, ge2, le2, f2) =
      IsFollowed-Reach q.layout item low r.b r.d k1 f1 r.to_head (omega (arith, h.count)) in
    let (k3, ge3, le3, f3) =
      IsFollowed-Reach q.layout item low r.d e k2 f2 r.to_tail (omega (arith, h.count)) in
    rw now (record {
      number = omega arith;
      layout = refl;
      inside = low;
      behind = k3;
      bound = omega (arith, h.count);
      place = f3;
    })

-- A reader has the writer's layout, and stands at the place of the tail, where it waits for the
-- writer's next message, or at a message, or at one that has been reclaimed since, whose number is
-- `k` below the tail's. Beside the writer it then goes through rounds of mrb_reveal, which shows it
-- a message, and mrb_release, whose checks all pass. Each round takes it exactly one number on, so
-- that it leaves out no message that the writer commits and sees none twice; and in the end it
-- again stands at the place of the tail, at a message, or at one that has been reclaimed. The loads
-- of mrb_release may find the memory between the stores of an operation, and the condition is that
-- the sequence numbers do not go round in the meantime.
pub Rounds-IsOn :
    (q : Mrb) (c : Session) (k : ℕ) {p : Mrb} {e : Session}
    → q.next.off < q.size
    → IsFollowed q.layout q.next c k
    → (rs : Rounds q c p e) → q.next.seq + (k + all_commits rs) + 1 < seq_mod q.layout
    → IsOn q k (rounds rs) (all_commits rs) p e
Rounds-IsOn q c k inside f start few = record {
  number = omega arith;
  layout = refl;
  inside = inside;
  behind = k;
  bound = omega arith;
  place = f;
}
Rounds-IsOn q c k {e = e} inside f (round {p} {d} {at} rs r) few =
    let on = Rounds-IsOn q c k inside f rs (omega arith) in
    let same_mod = ap seq_mod on.layout in
    let low = subst (λ (t : Layout). p.next.off < t.size) (sym on.layout) on.inside in
    let place = subst (λ (t : Layout). IsFollowed t p.next d on.behind) (sym on.layout) on.place in
    let more = round-IsOn p d e at on.behind r low place (omega (arith, on.bound, same_mod)) in
    record {
      number = omega (arith, more.number, on.number);
      layout = more.layout ∙ on.layout;
      inside = subst (λ (t : Layout). (mrb_release p at).next.off < t.size) on.layout more.inside;
      behind = more.behind;
      bound = omega (arith, more.bound, on.bound);
      place =
          subst (λ (t : Layout). IsFollowed t (mrb_release p at).next e more.behind) on.layout
            more.place;
    }

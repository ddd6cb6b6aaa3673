-- ===== src/Mrb/Kept.antt =====
-- What the writer's steps leave of one message, for readers that run beside it.
use mathlib.Core.Option
use glgrab.Base.{
  ℕ, suc, ◌+◌, ◌-◌, ◌%◌, ◌≤◌, ◌<◌, ◌≡◌, ◌≢◌, ◌⊎◌, inl, inr, refl, sym, ap, subst, ◌∙◌, arith, some,
  List, [], ◌∷◌, ◌++◌, sum, length, leb, ◌==◌, ==_of_ne, Bool-cases, update_ne, Option, none,
  some_inj,
}
use glgrab.Mrb.{Item, Layout, Mrb, Shared, mrb_item_unpack, mrb_item_pack}
use glgrab.Mrb.Pointer.{seq_mod}
use glgrab.Mrb.Write.{Reserved, place, reserve_at, mrb_reserve, mrb_commit}
use glgrab.Mrb.Chain.{wrap, ahead, tail_off}
use glgrab.Mrb.Reclaim.{newest, retained}
use glgrab.Mrb.Next.{footprint, IsRequest}
use glgrab.Mrb.Session.{
  Session, WritesMessage, Step, reserve, fill, commit, Holds, after_reserve, after_fill,
  after_commit, reserve-Holds, fill-Holds, commit-Holds,
}

-- The messages end in one of `len` bytes and the `newer` ones.
abbrev pub EndsIn : List ℕ → ℕ → List ℕ → Type 0
EndsIn lens len newer = (older : List ℕ) × (lens ≡ older ++ len ∷ newer)

length-newest-le : (room : ℕ) (lens : List ℕ) → length (newest room lens) ≤ length lens
unfolding newest
length-newest-le room [] = omega arith
length-newest-le room (l ∷ lens) = ground (arith, length-newest-le room lens)

pub length-retained-le :
    (size len : ℕ) (lens : List ℕ) → length (retained size len lens) ≤ length lens
unfolding retained
length-retained-le size len lens = ground (arith, length-newest-le (size - len) lens)

newest-EndsIn :
    (room : ℕ) (older : List ℕ) (len : ℕ) (newer : List ℕ)
    → EndsIn (newest room (older ++ len ∷ newer)) len newer
      ⊎ (length (newest room (older ++ len ∷ newer)) ≤ length newer)
unfolding newest
newest-EndsIn room [] len newer = elim (Bool-cases (leb (len + sum newer) room)) [
  | inl e ↦ inl ([], rw e refl)
  | inr e ↦ inr (rw e (length-newest-le room newer))
]
newest-EndsIn room (o ∷ older) len newer =
    elim (Bool-cases (leb (o + sum (older ++ len ∷ newer)) room)) [
      | inl e ↦ inl (o ∷ older, rw e refl)
      | inr e ↦ rw e (newest-EndsIn room older len newer)
    ]

-- A reservation keeps a message with all newer ones, or drops it.
pub retained-EndsIn :
    (size room len : ℕ) (lens newer : List ℕ)
    → EndsIn lens len newer
    → EndsIn (retained size room lens) len newer ⊎ (length (retained size room lens) ≤ length newer)
unfolding retained
retained-EndsIn size room len lens newer (older, e) =
    rw e (elim (Bool-cases (sum (older ++ len ∷ newer) == size)) [
      | inl full ↦ inr (rw full (omega arith))
      | inr part ↦ rw part (newest-EndsIn (size - room) older len newer)
    ])

place-words :
    (q : Mrb) (s : Shared) (tail next : Item) (o : Option ℕ) (r : Reserved) (off : ℕ)
    → Option.map (place q s tail next) o ≡ some r
    → off ≢ tail.off
    → r.shared.word off ≡ s.word off
unfolding place
place-words q s tail next none r off e other = absurd cc
place-words q s tail next (some headp) r off e other =
    ap (λ (t : Reserved). t.shared.word off) (sym (some_inj e))
    ∙ update_ne s.word tail.off off _ (λ same. other (sym same))

reserve_at-words :
    (q : Mrb) (s : Shared) (tail : Item) (o : Option ℕ) (r : Reserved) (off : ℕ)
    → reserve_at q s tail o ≡ some r
    → off ≢ tail.off
    → r.shared.word off ≡ s.word off
unfolding reserve_at
reserve_at-words q s tail none r off e other =
    ap (λ (t : Reserved). t.shared.word off) (sym (some_inj e))
reserve_at-words q s tail (some o) r off e other = place-words q s tail _ _ r off e other

-- A reservation writes no word but the link at the tail.
mrb_reserve-words :
    (q : Mrb) (s : Shared) (size : ℕ) (r : Reserved) (off : ℕ)
    → mrb_reserve q s size ≡ some r
    → off ≢ tail_off q.layout s
    → r.shared.word off ≡ s.word off
unfolding mrb_reserve
mrb_reserve-words q s size r off e other = reserve_at-words q s _ _ r off e other

-- `c` keeps messages of the lengths `lens`, with the layout `q`, and its tail has the number that
-- comes `k` behind `item`; the numbers have not gone round in between.
pub record IsAfter (q : Layout) (item : Item) (c : Session) (k : ℕ) (lens : List ℕ) : Type 0 where
  pub layout : c.handle.layout ≡ q
  pub holds : Holds c lens
  pub number : (mrb_item_unpack q c.shared.hdr.tail).seq ≡ item.seq + k

-- What a step with `n` commits does: messages may be dropped and `room` bytes behind the tail be
-- written, or one message comes behind the others.
pub data Effect (q : Layout) (item : Item) (c d : Session) (n k : ℕ) (lens : List ℕ) : Type 0 where
  stays :
      (lens' : List ℕ) (room : ℕ)
      → ((lens' ≡ lens) ⊎ ((len : ℕ) × (lens' ≡ retained q.size len lens)))
      → IsAfter q item d k lens'
      → tail_off q d.shared ≡ tail_off q c.shared
      → sum lens' + room ≤ q.size
      → ((off : ℕ)
          → off < q.size
          → off % 8 ≡ 0
          → room ≤ ahead q.size (tail_off q c.shared) off
          → d.shared.word off ≡ c.shared.word off)
      → Effect q item c d n k lens
  grows :
      (len : ℕ)
      → n ≡ 1
      → IsAfter q item d (suc k) (lens ++ len ∷ [])
      → tail_off q d.shared ≡ wrap q.size (tail_off q c.shared + len)
      → sum lens + len ≤ q.size
      → d.shared.word ≡ c.shared.word
      → Effect q item c d n k lens

same-Effect :
    (q : Layout) (item : Item) (c d : Session) (n k : ℕ) (lens : List ℕ)
    → IsAfter q item c k lens
    → d ≡ c
    → Effect q item c d n k lens
same-Effect q item c d n k lens a e =
    subst (λ t. Effect q item c t n k lens) (sym e)
      (Effect.stays lens 0 (inl refl) a refl (rw (← a.layout) (omega (arith, a.holds.0.fits)))
        (λ off inside whole far. refl))

pub commit_fields :
    (q : Mrb) (s : Shared)
    → q.next.seq ≢ 0
    → let (q', s') = mrb_commit q s in
      (q'.layout ≡ q.layout) × (s'.hdr.tail ≡ mrb_item_pack q.layout q.next) × (s'.word ≡ s.word)
unfolding mrb_commit
commit_fields q s h = elim (Bool-cases (s.hdr.head == 0)) [
  | inl e ↦ rw (==_of_ne q.next.seq 0 h, e) (refl, refl, refl)
  | inr e ↦ rw (==_of_ne q.next.seq 0 h, e) (refl, refl, refl)
]

module _ (item : Item) (c : Session) (k : ℕ) (lens : List ℕ)
    (a : IsAfter c.handle.layout item c k lens) where
  reserve-Effect :
      (size : ℕ) (r : Reserved)
      → IsRequest c.handle.layout size
      → mrb_reserve c.handle c.shared size ≡ some r
      → Effect c.handle.layout item c (after_reserve c size r) 0 k lens
  reserve-Effect size r req e = elim (reserve-Holds c size r lens a.holds req e) [
    | inl (holds, tail, layout, room) ↦
        Effect.stays (retained c.handle.size (footprint size) lens) (footprint size)
          (inr (footprint size, refl))
          (record { layout = layout; holds = holds; number = rw tail a.number })
          (ap (λ (t : ℕ). (mrb_item_unpack c.handle.layout t).off) tail) room
          (λ off inside whole far.
            mrb_reserve-words c.handle c.shared size r off e (λ same. absurd (ground arith)))
    | inr same ↦ same-Effect c.handle.layout item c (after_reserve c size r) 0 k lens a same
  ]

  fill-Effect :
      (len : ℕ) (word' : ℕ → ℕ)
      → c.granted ≡ some len
      → WritesMessage c.handle.size (tail_off c.handle.layout c.shared) len c.shared.word word'
      → Effect c.handle.layout item c (after_fill c word') 0 k lens
  fill-Effect len word' e w =
      let (holds, room) = fill-Holds c len word' lens a.holds e w in
      Effect.stays lens len (inl refl) (record { layout = refl; holds = holds; number = a.number })
        refl room (λ off inside whole far. w off inside whole (inr far))

  commit-Effect :
      item.seq + suc k < seq_mod c.handle.layout
      → Effect c.handle.layout item c (after_commit c) 1 k lens
  commit-Effect few = elim (commit-Holds c lens a.holds) [
    | inl (len, holds, p, room) ↦
        let (layout, tail, word) = commit_fields c.handle c.shared p.started in
        Effect.grows len refl
          (record {
            layout = layout;
            holds = holds;
            number = rw tail (ground (arith, p.follows.number, a.number));
          })
          (ap (λ (t : ℕ). (mrb_item_unpack c.handle.layout t).off) tail ∙ p.follows.offset) room
          word
    | inr (holds, e) ↦
        Effect.stays lens 0 (inl refl)
          (record { layout = rw e refl; holds = holds; number = rw e a.number }) (rw e refl)
          (omega (arith, a.holds.0.fits)) (λ off inside whole far. rw e refl)
  ]

-- The number of commits in a step.
unfoldable pub step_commits : {c d : Session} → Step c d → ℕ
step_commits (reserve size r req e) = 0
step_commits (fill len word' e w) = 0
step_commits commit = 1

step-Effect :
    (item : Item) (c d : Session) (k : ℕ) (lens : List ℕ) (s : Step c d)
    → item.seq + (k + step_commits s) < seq_mod c.handle.layout
    → IsAfter c.handle.layout item c k lens
    → Effect c.handle.layout item c d (step_commits s) k lens
unfolding step_commits
step-Effect item c d k lens (reserve size r req e) few a =
    reserve-Effect item c k lens a size r req e
step-Effect item c d k lens (fill len word' e w) few a = fill-Effect item c k lens a len word' e w
step-Effect item c d k lens commit few a = commit-Effect item c k lens a (omega (arith, few))

pub Step-Effect :
    (q : Layout) (item : Item) (c d : Session) (k : ℕ) (lens : List ℕ) (s : Step c d)
    → item.seq + (k + step_commits s) < seq_mod q
    → IsAfter q item c k lens
    → Effect q item c d (step_commits s) k lens
Step-Effect q item c d k lens s few a =
    subst
      (λ t.
        item.seq + (k + step_commits s) < seq_mod t
        → IsAfter t item c k lens
        → Effect t item c d (step_commits s) k lens)
      a.layout (step-Effect item c d k lens s) few a

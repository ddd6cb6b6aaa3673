-- ===== src/Mrb/Commit.antt =====
-- `mrb_commit` on a valid buffer.
use glgrab.Base.{
  ℕ, ◌+◌, ◌≤◌, ◌≡◌, refl, arith, List, [], ◌∷◌, ◌++◌, sum, sum-append, ==_of_eq, ==_of_ne,
}
use glgrab.Mrb.{Item, Layout, Mrb, Shared, mrb_item_pack}
use glgrab.Mrb.Write.{mrb_commit}
use glgrab.Mrb.Chain.{Heads, IsValid, IsPlace-ne-zero, Chain-snoc}
use glgrab.Mrb.Reserve.{IsPending}

committed-IsValid :
    {q : Layout} {next : Item} {s : Shared} {lens : List ℕ} {len : ℕ}
    → IsValid q s lens
    → IsPending q next s len
    → sum lens + len ≤ q.size
    → (headp : ℕ) → Heads q s.word (mrb_item_pack q next) headp (lens ++ len ∷ [])
    → IsValid q
        (record s { hdr = record (s.hdr) { tail = mrb_item_pack q next; head = headp } })
        (lens ++ len ∷ [])
committed-IsValid {lens} {len} v p room headp heads = record {
  geometry = v.geometry;
  tail_place = p.placed;
  fits = omega (arith, sum-append lens (len ∷ []));
  holds = heads;
}

pub mrb_commit-idle : (q : Mrb) (s : Shared) → q.next.seq ≡ 0 → mrb_commit q s ≡ (q, s)
unfolding mrb_commit
mrb_commit-idle q s e = rw (==_of_eq q.next.seq 0 e)

-- `mrb_commit` puts the message that was reserved behind the others and keeps the buffer valid and
-- the layout of the handle; nothing is reserved then, and a second call without a new reservation
-- changes nothing.
pub mrb_commit-IsValid :
    (q : Mrb) (s : Shared) (lens : List ℕ) (len : ℕ)
    → IsValid q.layout s lens
    → IsPending q.layout q.next s len
    → sum lens + len ≤ q.size
    → let (q', s') = mrb_commit q s in
      IsValid q.layout s' (lens ++ len ∷ [])
      × (q'.layout ≡ q.layout)
      × (q'.next.seq ≡ 0)
      × (mrb_commit q' s' ≡ (q', s'))
unfolding mrb_commit
mrb_commit-IsValid q s [] len v p room =
    let snoc =
      Chain-snoc q.layout s.word s.hdr.tail (mrb_item_pack q.layout q.next) len p.linked p.follows
        p.placed [] s.hdr.tail (v.tail_place, refl) in
    rw (==_of_ne q.next.seq 0 p.started, ==_of_eq s.hdr.head 0 v.holds)
      (committed-IsValid v p room s.hdr.tail snoc, refl, refl, refl)
mrb_commit-IsValid q s (l ∷ lens) len v p room =
    let snoc =
      Chain-snoc q.layout s.word s.hdr.tail (mrb_item_pack q.layout q.next) len p.linked p.follows
        p.placed (l ∷ lens) s.hdr.head v.holds in
    rw
      (
        ==_of_ne q.next.seq 0 p.started,
        ==_of_ne s.hdr.head 0 (IsPlace-ne-zero v.geometry v.holds.0),
      )
      (committed-IsValid v p room s.hdr.head snoc, refl, refl, refl)

-- ===== src/Mrb/Described.antt =====
-- The header of the buffer says throughout a session what the writer's handle knows.
use mathlib.Core.Option
use glgrab.Base.{ℕ, ◌≡◌, inl, inr, refl, subst, ◌∙◌, Option, none, some, ◌==◌, Bool-cases, some_inj}
use glgrab.Mrb.{Item, Header, Layout, Mrb, Shared}
use glgrab.Mrb.Write.{Reserved, place, reserve_at, mrb_reserve, mrb_commit}
use glgrab.Mrb.Session.{Session, Step, reserve, fill, commit, Reach, here, next}

-- The handle has the layout `made`, and the header says it.
pub record Describes (made : Layout) (h : Header) (l : Layout) : Type 0 where
  pub active : h.active ≡ 1
  pub align_bits : h.align_bits ≡ made.align_bits
  pub off_bits : h.off_bits ≡ made.off_bits
  pub max_item_size : h.max_item_size ≡ made.max_item_size
  pub kept : l ≡ made

module _ (made : Layout) where
  abbrev pub IsDescribed : Session → Type 0
  IsDescribed c = Describes made c.shared.hdr c.handle.layout

  module _ (q : Mrb) (s : Shared) (d : Describes made s.hdr q.layout) where
    place-Describes :
        (tail item : Item) (headp : ℕ)
        → let r = place q s tail item headp in Describes made r.shared.hdr r.handle.layout
    unfolding place
    place-Describes tail item headp = record {
      active = d.active;
      align_bits = d.align_bits;
      off_bits = d.off_bits;
      max_item_size = d.max_item_size;
      kept = d.kept;
    }

    map-Describes :
        (tail item : Item) (o : Option ℕ) (r : Reserved)
        → Option.map (place q s tail item) o ≡ some r
        → Describes made r.shared.hdr r.handle.layout
    map-Describes tail item none r e = absurd (let clash : none ≡ some r = e in cc)
    map-Describes tail item (some headp) r e =
        subst (λ (t : Reserved). Describes made t.shared.hdr t.handle.layout) (some_inj e)
          (place-Describes tail item headp)

    reserve_at-Describes :
        (tail : Item) (o : Option ℕ) (r : Reserved)
        → reserve_at q s tail o ≡ some r
        → Describes made r.shared.hdr r.handle.layout
    unfolding reserve_at
    reserve_at-Describes tail none r e =
        subst (λ (t : Reserved). Describes made t.shared.hdr t.handle.layout) (some_inj e) d
    reserve_at-Describes tail (some off) r e = map-Describes tail _ _ r e

    mrb_commit-Describes : let (q', s') = mrb_commit q s in Describes made s'.hdr q'.layout
    unfolding mrb_commit
    mrb_commit-Describes =
        let same : (h : Header)
            → h.active ≡ s.hdr.active
            → h.align_bits ≡ s.hdr.align_bits
            → h.off_bits ≡ s.hdr.off_bits
            → h.max_item_size ≡ s.hdr.max_item_size
            → Describes made h q.layout =
          λ h a b c m. record {
            active = a ∙ d.active;
            align_bits = b ∙ d.align_bits;
            off_bits = c ∙ d.off_bits;
            max_item_size = m ∙ d.max_item_size;
            kept = d.kept;
          } in
        elim (Bool-cases (q.next.seq == 0)) [
          | inl idle ↦ rw idle d
          | inr pending ↦ elim (Bool-cases (s.hdr.head == 0)) [
            | inl e ↦ rw (pending, e) (same _ refl refl refl refl)
            | inr e ↦ rw (pending, e) (same _ refl refl refl refl)
          ]
        ]

  Step-IsDescribed : {c d : Session} → Step c d → IsDescribed c → IsDescribed d
  unfolding mrb_reserve
  Step-IsDescribed {c} (reserve size r req e) h = reserve_at-Describes c.handle c.shared h _ _ r e
  Step-IsDescribed {c} (fill len word' e w) h = h
  Step-IsDescribed {c} commit h = mrb_commit-Describes c.handle c.shared h

  pub Reach-IsDescribed : {c d : Session} → Reach c d → IsDescribed c → IsDescribed d
  Reach-IsDescribed here h = h
  Reach-IsDescribed (next r s) h = Step-IsDescribed s (Reach-IsDescribed r h)

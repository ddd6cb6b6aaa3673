-- ===== src/Mrb/Reserve.antt =====
-- `mrb_reserve` and `mrb_commit` on a valid buffer.
use glgrab.Base.{
  subst, sym, ==_of_eq, ℕ, ◌+◌, ◌-◌, ◌*◌, ◌≤◌, ◌<◌, ◌≡◌, ◌≢◌, refl, ◌∙◌, ◌⊎◌, inl, inr, arith, true,
  false, none, some, List, [], ◌∷◌, length, sum, Bool-cases, update, update_self, update_ne,
}
use glgrab.Mrb.{Item, Layout, Mrb, Shared, mrb_item_unpack, mrb_item_pack}
use glgrab.Mrb.Pointer.{IsGeometry}
use glgrab.Mrb.Write.{next_seq, reclaim_fuel, Reserved, place, reserve_at, mrb_reserve}
use glgrab.Mrb.Chain.{
  tail_off, wrap, AgreesOutside, link, Chain, Heads, IsPlace, Follows, IsValid, Chain-agree,
}
use glgrab.Mrb.Reclaim.{newest, retained, reclaim-retained}
use glgrab.Mrb.Next.{footprint, IsRequest, accepts, next_off-accepts, next_seq-succ, pack-Follows}

-- A message of `len` bytes is reserved behind the tail, and `next` is the place behind it.
pub record IsPending (q : Layout) (next : Item) (s : Shared) (len : ℕ) : Type 0 where
  pub started : next.seq ≢ 0
  pub linked : link q s.word s.hdr.tail ≡ mrb_item_pack q next
  pub follows : Follows q s.hdr.tail len (mrb_item_pack q next)
  pub placed : IsPlace q (mrb_item_pack q next)

sum-newest-le : (room : ℕ) (lens : List ℕ) → sum (newest room lens) ≤ room
unfolding newest
sum-newest-le room [] = omega arith
sum-newest-le room (l ∷ lens) = ground (arith, sum-newest-le room lens)

-- What stays leaves room for the new message.
pub sum-retained-le :
    (size len : ℕ) (lens : List ℕ) → len ≤ size → sum (retained size len lens) + len ≤ size
unfolding retained
sum-retained-le size len lens h = ground (arith, sum-newest-le (size - len) lens)

length-Chain :
    (q : Layout) (word : ℕ → ℕ) (tail : ℕ) (lens : List ℕ) (p : ℕ)
    → Chain q word tail p lens
    → length lens * 64 ≤ sum lens
length-Chain q word tail [] p c = omega arith
length-Chain q word tail (l ∷ lens) p c =
    omega (arith, c.1.long, length-Chain q word tail lens (link q word p) c.2)

length-Heads :
    (q : Layout) (word : ℕ → ℕ) (tail : ℕ) (lens : List ℕ) (p : ℕ)
    → Heads q word tail p lens
    → length lens * 64 ≤ sum lens
length-Heads q word tail [] p c = omega arith
length-Heads q word tail (l ∷ lens) p c = length-Chain q word tail (l ∷ lens) p c

-- A valid buffer stays valid in a memory that differs only in the `len` bytes behind the tail.
Heads-agree :
    {q : Layout} (g : IsGeometry q) (word word' : ℕ → ℕ) (tail len : ℕ)
    → 0 < len
    → AgreesOutside q.size (mrb_item_unpack q tail).off len word word'
    → (lens : List ℕ) (p : ℕ) → sum lens + len ≤ q.size
    → Heads q word tail p lens
    → Heads q word' tail p lens
Heads-agree g word word' tail len pos same [] p h c = c
Heads-agree {q} g word word' tail len pos same (l ∷ lens) p h c =
    Chain-agree q word tail g word' len pos same (l ∷ lens) p h c

accepts-le : (q : Layout) (start len : ℕ) → accepts q start len ≡ true → len ≤ q.size
unfolding accepts
accepts-le q start len h = ground arith

-- What a reservation that is granted does.
pub record IsGranted (q : Mrb) (s : Shared) (lens : List ℕ) (size : ℕ) (r : Reserved) : Type 0 where
  pub pointer : r.ptr ≡ some (q.base + tail_off q.layout s + 64)
  pub layout_kept : r.handle.layout ≡ q.layout
  pub tail_kept : r.shared.hdr.tail ≡ s.hdr.tail
  pub room : sum (retained q.size (footprint size) lens) + footprint size ≤ q.size
  pub valid : IsValid q.layout r.shared (retained q.size (footprint size) lens)
  pub pending : IsPending q.layout r.handle.next r.shared (footprint size)

fuel-enough :
    (q : Layout) (s : Shared) (lens : List ℕ) → IsValid q s lens → length lens < reclaim_fuel q
unfolding reclaim_fuel
fuel-enough q s lens v =
    rw v.geometry.aligned
      (omega (arith, v.fits, length-Heads q s.word s.hdr.tail lens s.hdr.head v.holds))

module _ {q : Mrb} {s : Shared} {lens : List ℕ} (v : IsValid q.layout s lens) (size : ℕ)
    (req : IsRequest q.layout size) where
  open v use {geometry, tail_place, fits, holds}

  -- What the stores leave behind, once the loop has found the head.
  place-IsGranted :
      footprint size ≤ q.size
      → (headp : ℕ) (next : Item)
      → next ≡ record {
        seq = next_seq q.layout (mrb_item_unpack q.layout s.hdr.tail).seq;
        off = wrap q.size (tail_off q.layout s + footprint size);
      }
      → Heads q.layout s.word s.hdr.tail headp (retained q.size (footprint size) lens)
      → IsGranted q s lens size (place q s (mrb_item_unpack q.layout s.hdr.tail) next headp)
  unfolding place
  place-IsGranted small headp next e heads =
      let len = footprint size in
      let (follows, placed) =
        pack-Follows geometry s.hdr.tail len tail_place (omega arith) (omega arith) small in
      let (_, started) =
        next_seq-succ geometry (mrb_item_unpack q.layout s.hdr.tail).seq tail_place.below in
      let room = sum-retained-le q.size len lens small in
      let ptr = mrb_item_pack q.layout next in
      let same : AgreesOutside q.size (tail_off q.layout s) len s.word
          (update s.word (tail_off q.layout s) ptr) =
        λ off inside whole far. update_ne s.word (tail_off q.layout s) off ptr (ground arith) in
      record {
        pointer = rw geometry.link_size refl;
        layout_kept = refl;
        tail_kept = refl;
        room = room;
        valid = record {
          geometry = geometry;
          tail_place = tail_place;
          fits = omega arith;
          holds =
              Heads-agree geometry s.word (update s.word (tail_off q.layout s) ptr) s.hdr.tail len
                (omega arith) same (retained q.size len lens) headp room heads;
        };
        pending = record {
          started = rw e started;
          linked = update_self s.word (tail_off q.layout s) ptr;
          follows = rw e follows;
          placed = rw e placed;
        };
      }

  pub mrb_reserve-IsGranted :
      accepts q.layout (tail_off q.layout s) (footprint size) ≡ true
      → (r : Reserved) × (mrb_reserve q s size ≡ some r) × IsGranted q s lens size r
  unfolding mrb_reserve reserve_at
  mrb_reserve-IsGranted ok =
      let tail = mrb_item_unpack q.layout s.hdr.tail in
      let len = footprint size in
      let next : Item = record {
        seq = next_seq q.layout tail.seq;
        off = wrap q.size (tail.off + len);
      } in
      let small = accepts-le q.layout (tail_off q.layout s) len ok in
      let (headp, runs, heads) =
        reclaim-retained geometry s.word s.hdr.tail len next (omega arith) small refl
          (reclaim_fuel q.layout) lens s.hdr.head (fuel-enough q.layout s lens v) fits holds in
      (
        place q s tail next headp,
        rw (next_off-accepts geometry tail size tail_place.inside req, ok, runs),
        place-IsGranted small headp next refl heads,
      )

  pub mrb_reserve-refused :
      accepts q.layout (tail_off q.layout s) (footprint size) ≡ false
      → mrb_reserve q s size ≡ some (record { ptr = none; handle = q; shared = s })
  unfolding mrb_reserve reserve_at
  mrb_reserve-refused no_room = rw (
    next_off-accepts geometry (mrb_item_unpack q.layout s.hdr.tail) size tail_place.inside req,
    no_room,
  )

  -- On a valid buffer, for a size that wraps no sum (it and the size of the buffer come to 2^64 -
  -- 128 at most), mrb_reserve ends. It grants the request exactly when its bytes fit the buffer
  -- and go less than max_item_size over its end, and then keeps the retained messages in order,
  -- with the new place behind the tail and room for both; otherwise it returns NULL and changes
  -- nothing.
  pub mrb_reserve_lem :
      (r : Reserved) × (mrb_reserve q s size ≡ some r)
      × ((accepts q.layout (tail_off q.layout s) (footprint size) ≡ true)
            × IsGranted q s lens size r
          ⊎ (accepts q.layout (tail_off q.layout s) (footprint size) ≡ false)
            × (r ≡ record { ptr = none; handle = q; shared = s }))
  mrb_reserve_lem = elim (Bool-cases (accepts q.layout (tail_off q.layout s) (footprint size))) [
    | inl ok ↦ let (r, runs, done) = mrb_reserve-IsGranted ok in (r, runs, inl (ok, done))
    | inr no_room ↦ (_, mrb_reserve-refused no_room, inr (no_room, refl))
  ]

-- If the messages fill the buffer to the last byte, every reservation that is granted drops all
-- of them, also those whose place it does not take.
pub mrb_reserve-full :
    (q : Mrb) {s : Shared} {lens : List ℕ}
    → IsValid q.layout s lens
    → (size : ℕ) → IsRequest q.layout size
    → sum lens ≡ q.size
    → accepts q.layout (tail_off q.layout s) (footprint size) ≡ true
    → (r : Reserved) × (mrb_reserve q s size ≡ some r) × (r.shared.hdr.head ≡ 0) × (r.ptr ≢ none)
unfolding retained
mrb_reserve-full q {s} {lens} v size req all ok =
    let (r, runs, g) = mrb_reserve-IsGranted v size req ok in
    let none_left : retained q.size (footprint size) lens ≡ [] =
      rw (==_of_eq (sum lens) q.size all) refl in
    let valid = subst (λ (l : List ℕ). IsValid q.layout r.shared l) none_left g.valid in
    (r, runs, valid.holds, λ e. let clash = sym g.pointer ∙ e in cc)

-- The client fills in the message, and a valid buffer stays valid.
module _ {q : Layout} {next : Item} {s : Shared} {lens : List ℕ} {len : ℕ} (v : IsValid q s lens)
    (p : IsPending q next s len) (room : sum lens + len ≤ q.size) where
  open v use {geometry, tail_place, holds}

  -- Writing the `len` bytes behind the tail, but not the link in front, harms neither the
  -- messages nor the reservation.
  pub payload-IsValid :
      (word' : ℕ → ℕ)
      → AgreesOutside q.size (tail_off q s) len s.word word'
      → word' (tail_off q s) ≡ s.word (tail_off q s)
      → let s' = record s { word = word' } in IsValid q s' lens × IsPending q next s' len
  payload-IsValid word' same link_kept = (
    record {
      geometry = geometry;
      tail_place = tail_place;
      fits = omega arith;
      holds =
          Heads-agree geometry s.word word' s.hdr.tail len (omega (arith, p.follows.long)) same lens
            s.hdr.head room holds;
    },
    record {
      started = p.started;
      linked = link_kept ∙ p.linked;
      follows = p.follows;
      placed = p.placed;
    },
  )

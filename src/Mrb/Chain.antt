-- ===== src/Mrb/Chain.antt =====
-- The messages that the buffer holds: the chain of links from the head to the tail. A message is
-- known by the bytes that it takes with its link and its padding.
use glgrab.Base.{
  ℕ, ◌+◌, ◌-◌, ◌%◌, ◌≤◌, ◌<◌, ◌≡◌, ◌≢◌, refl, ap, subst, ◌∙◌, arith, List, [], ◌∷◌, ◌++◌, sum, ltb,
  leb, ◌==◌, if◌then◌else◌,
}
use glgrab.Mrb.{Layout, Shared, mrb_item_unpack}
use glgrab.Mrb.Pointer.{IsGeometry, seq_mod, unpack-zero, unpack-whole}

-- An offset past the end goes on at the start.
abbrev pub wrap : ℕ → ℕ → ℕ
wrap size x = if ltb x size then x else x - size

-- The number after `seq`: past the last one comes 1, since 0 is kept for "none".
abbrev pub succ_seq : Layout → ℕ → ℕ
succ_seq q seq = if seq + 1 == seq_mod q then 1 else seq + 1

-- `p` points to a place in the buffer, with a number.
pub record IsPlace (q : Layout) (p : ℕ) : Type 0 where
  pub numbered : (mrb_item_unpack q p).seq ≢ 0
  pub below : (mrb_item_unpack q p).seq < seq_mod q
  pub inside : (mrb_item_unpack q p).off < q.size

-- `p'` points behind a message of `len` bytes at `p`.
pub record Follows (q : Layout) (p len p' : ℕ) : Type 0 where
  pub long : 64 ≤ len
  pub whole : len % 64 ≡ 0
  pub offset : (mrb_item_unpack q p').off ≡ wrap q.size ((mrb_item_unpack q p).off + len)
  pub number : (mrb_item_unpack q p').seq ≡ succ_seq q (mrb_item_unpack q p).seq

-- The word at the place that `p` points to: the pointer to the next message.
abbrev pub link : Layout → (ℕ → ℕ) → ℕ → ℕ
link q word p = word (mrb_item_unpack q p).off

-- From `p` the links lead over messages of these lengths, oldest first, to `tail`.
abbrev pub Chain : Layout → (ℕ → ℕ) → ℕ → ℕ → List ℕ → Type 0
Chain q word tail p [] = IsPlace q p × (p ≡ tail)
Chain q word tail p (len ∷ lens) =
    IsPlace q p × Follows q p len (link q word p) × Chain q word tail (link q word p) lens

-- A head pointer to these messages: 0 if there is none.
abbrev pub Heads : Layout → (ℕ → ℕ) → ℕ → ℕ → List ℕ → Type 0
Heads q word tail headp [] = headp ≡ 0
Heads q word tail headp (len ∷ lens) = Chain q word tail headp (len ∷ lens)

-- The buffer of the handle `q` holds messages of the lengths `lens`, oldest first.
pub record IsValid (q : Layout) (s : Shared) (lens : List ℕ) : Type 0 where
  pub geometry : IsGeometry q
  pub tail_place : IsPlace q s.hdr.tail
  pub fits : sum lens ≤ q.size
  pub holds : Heads q s.word s.hdr.tail s.hdr.head lens

module _ {q : Layout} (g : IsGeometry q) where
  pub IsPlace-ne-zero : {p : ℕ} → IsPlace q p → p ≢ 0
  IsPlace-ne-zero {p} h e = h.numbered (ap (λ (t : ℕ). (mrb_item_unpack q t).seq) e ∙ unpack-zero g)

-- How far `off` lies behind `start`, going round at `size`.
abbrev pub ahead : ℕ → ℕ → ℕ → ℕ
ahead size start off = if leb start off then off - start else off + size - start

-- The memories agree on the aligned words that are not among the `len` bytes from `start` on.
abbrev pub AgreesOutside : ℕ → ℕ → ℕ → (ℕ → ℕ) → (ℕ → ℕ) → Type 0
AgreesOutside size start len word word' =
    (off : ℕ) → off < size → off % 64 ≡ 0 → len ≤ ahead size start off → word' off ≡ word off

module _ (q : Layout) (word : ℕ → ℕ) (tail : ℕ) where
  pub Chain-IsPlace : (lens : List ℕ) (p : ℕ) → Chain q word tail p lens → IsPlace q p
  Chain-IsPlace [] p c = c.0
  Chain-IsPlace (len ∷ lens) p c = c.0

  -- The lengths add up to the way from the first message to the tail.
  pub Chain-offset :
      (lens : List ℕ) (p : ℕ)
      → sum lens ≤ q.size
      → Chain q word tail p lens
      → (mrb_item_unpack q tail).off ≡ wrap q.size ((mrb_item_unpack q p).off + sum lens)
  Chain-offset [] p h c = ground (arith, c.0.inside, ap (λ t. (mrb_item_unpack q t).off) c.1)
  Chain-offset (len ∷ lens) p h c = ground (
    arith,
    c.0.inside,
    c.1.offset,
    Chain-offset lens (link q word p) (omega arith) c.2,
    (Chain-IsPlace lens (link q word p) c.2).inside,
  )

  -- A chain can be read in any memory that has its links: those that are not among the `len`
  -- bytes behind the tail.
  pub Chain-agree :
      (g : IsGeometry q) (word' : ℕ → ℕ) (len : ℕ)
      → 0 < len
      → AgreesOutside q.size (mrb_item_unpack q tail).off len word word'
      → (lens : List ℕ) (p : ℕ) → sum lens + len ≤ q.size
      → Chain q word tail p lens
      → Chain q word' tail p lens
  Chain-agree g word' len pos same [] p h c = c
  Chain-agree g word' len pos same (l ∷ lens) p h c =
      let e : link q word' p ≡ link q word p =
        same (mrb_item_unpack q p).off c.0.inside (unpack-whole g p)
          (ground (arith, c.0.inside, Chain-offset (l ∷ lens) p (omega arith) c, c.1.long)) in
      rw e (c.0, c.1, Chain-agree g word' len pos same lens (link q word p) (omega arith) c.2)

  -- A link from the tail makes the chain longer by one message.
  pub Chain-snoc :
      (next len : ℕ)
      → link q word tail ≡ next
      → Follows q tail len next
      → IsPlace q next
      → (lens : List ℕ) (p : ℕ) → Chain q word tail p lens
      → Chain q word next p (lens ++ len ∷ [])
  Chain-snoc next len e f i [] p c = rw (c.1, e) (subst (λ t. IsPlace q t) c.1 c.0, f, (i, refl))
  Chain-snoc next len e f i (l ∷ lens) p c =
      (c.0, c.1, Chain-snoc next len e f i lens (link q word p) c.2)

abbrev pub tail_off : Layout → Shared → ℕ
tail_off q s = (mrb_item_unpack q s.hdr.tail).off

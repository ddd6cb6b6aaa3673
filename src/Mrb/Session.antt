-- ===== src/Mrb/Session.antt =====
-- A writer's session, as mrb.h describes it: reservations, messages that are filled in, commits,
-- in any order and any number.
use glgrab.Base.{
  ℕ, ◌+◌, ◌%◌, ◌≤◌, ◌<◌, ◌≡◌, ◌⊎◌, inl, inr, refl, sym, subst, ◌∙◌, arith, Option, none, some, List,
  [], ◌∷◌, ◌++◌, sum,
}
use glgrab.Base.{some_inj}
use glgrab.Mrb.Pointer.{unpack-whole}
use glgrab.Mrb.Reclaim.{retained}
use glgrab.Mrb.{Mrb, Shared}
use glgrab.Mrb.Write.{Reserved, mrb_reserve, mrb_commit}
use glgrab.Mrb.Chain.{tail_off, ahead, AgreesOutside, IsValid}
use glgrab.Mrb.Next.{footprint, IsRequest}
use glgrab.Mrb.Reserve.{IsPending, IsGranted, mrb_reserve_lem, payload-IsValid}
use glgrab.Mrb.Commit.{mrb_commit-IsValid, mrb_commit-idle}

-- The handle, the shared memory, and the bytes that the client was last granted.
pub record Session : Type 0 where
  pub handle : Mrb
  pub shared : Shared
  pub granted : Option ℕ

-- The new memory has the old words, of 8 bytes each, but among the bytes of the message itself.
abbrev pub WritesMessage : ℕ → ℕ → ℕ → (ℕ → ℕ) → (ℕ → ℕ) → Type 0
WritesMessage size start len word word' =
    (off : ℕ)
    → off < size
    → off % 8 ≡ 0
    → ((ahead size start off < 64) ⊎ (len ≤ ahead size start off))
    → word' off ≡ word off

-- What `mrb_reserve` has granted: nothing new where it returns NULL.
abbrev pub now_granted : ℕ → Option ℕ → Option ℕ → Option ℕ
now_granted size old none = old
now_granted size old (some p) = some (footprint size)

-- A request is of a size that wraps no sum in `mrb_reserve`.
pub data Step (c : Session) : Session → Type 0 where
  reserve :
      (size : ℕ) (r : Reserved)
      → IsRequest c.handle.layout size
      → mrb_reserve c.handle c.shared size ≡ some r
      → Step c (record {
        handle = r.handle;
        shared = r.shared;
        granted = now_granted size c.granted r.ptr;
      })
  fill :
      (len : ℕ) (word' : ℕ → ℕ)
      → c.granted ≡ some len
      → WritesMessage c.handle.size (tail_off c.handle.layout c.shared) len c.shared.word word'
      → Step c (record c { shared = record (c.shared) { word = word' } })
  commit : Step c (record {
    handle = (mrb_commit c.handle c.shared).0;
    shared = (mrb_commit c.handle c.shared).1;
    granted = none;
  })

pub data Reach (c : Session) : Session → Type 0 where
  here : Reach c c
  next : {d e : Session} → Reach c d → Step d e → Reach c e

-- Either nothing is reserved, or the granted bytes are, and there is room for them.
abbrev pub Promise : Session → List ℕ → Type 0
Promise c lens =
    ((c.handle.next.seq ≡ 0) × (c.granted ≡ none))
    ⊎ ((len : ℕ) × (c.granted ≡ some len)
        × IsPending c.handle.layout c.handle.next c.shared len
        × (sum lens + len ≤ c.handle.size))

-- The buffer holds messages of these lengths, and what is promised to the client holds too.
abbrev pub Holds : Session → List ℕ → Type 0
Holds c lens = IsValid c.handle.layout c.shared lens × Promise c lens

pub record IsSound (c : Session) : Type 0 where
  pub lens : List ℕ
  pub valid : IsValid c.handle.layout c.shared lens
  pub promise : Promise c lens

abbrev pub after_reserve : Session → ℕ → Reserved → Session
after_reserve c size r = record {
  handle = r.handle;
  shared = r.shared;
  granted = now_granted size c.granted r.ptr;
}

abbrev pub after_fill : Session → (ℕ → ℕ) → Session
after_fill c word' = record c { shared = record (c.shared) { word = word' } }

abbrev pub after_commit : Session → Session
after_commit c = record {
  handle = (mrb_commit c.handle c.shared).0;
  shared = (mrb_commit c.handle c.shared).1;
  granted = none;
}

granted-Holds :
    (c : Session) (size : ℕ) (r : Reserved) (lens : List ℕ)
    → IsGranted c.handle c.shared lens size r
    → Holds (after_reserve c size r) (retained c.handle.size (footprint size) lens)
granted-Holds c size r lens g = (
  rw g.layout_kept g.valid,
  inr (footprint size, rw g.pointer refl, rw g.layout_kept g.pending, rw g.layout_kept g.room),
)

-- A reservation is granted and keeps the layout and the tail, or nothing changes.
abbrev pub ReserveHolds : Session → ℕ → List ℕ → Reserved → Type 0
ReserveHolds c size lens r =
    (Holds (after_reserve c size r) (retained c.handle.size (footprint size) lens)
      × (r.shared.hdr.tail ≡ c.shared.hdr.tail)
      × (r.handle.layout ≡ c.handle.layout)
      × (sum (retained c.handle.size (footprint size) lens) + footprint size ≤ c.handle.size))
    ⊎ (after_reserve c size r ≡ c)

pub reserve-Holds :
    (c : Session) (size : ℕ) (r : Reserved) (lens : List ℕ)
    → Holds c lens
    → IsRequest c.handle.layout size
    → mrb_reserve c.handle c.shared size ≡ some r
    → ReserveHolds c size lens r
reserve-Holds c size r lens h req e =
    let (r', runs, done) = mrb_reserve_lem h.0 size req in
    let same : r' ≡ r = some_inj (sym runs ∙ e) in
    subst (λ t. ReserveHolds c size lens t) same
      (elim done [
        | inl (_, g) ↦ inl (granted-Holds c size r' lens g, g.tail_kept, g.layout_kept, g.room)
        | inr (_, g) ↦ inr (rw g refl)
      ])

pub fill-Holds :
    (c : Session) (len : ℕ) (word' : ℕ → ℕ) (lens : List ℕ)
    → Holds c lens
    → c.granted ≡ some len
    → WritesMessage c.handle.size (tail_off c.handle.layout c.shared) len c.shared.word word'
    → Holds (after_fill c word') lens × (sum lens + len ≤ c.handle.size)
fill-Holds c len word' lens h e w = elim h.1 [
  | inl (_, idle) ↦ absurd (let clash : some len ≡ none = sym e ∙ idle in cc)
  | inr (len', e', p, room) ↦
      let same : len' ≡ len = some_inj (sym e' ∙ e) in
      let outside : AgreesOutside c.handle.size (tail_off c.handle.layout c.shared) len'
          c.shared.word word' =
        λ off inside whole far. w off inside (omega (arith, whole)) (inr (rw (← same) far)) in
      let at_start : ahead c.handle.size (tail_off c.handle.layout c.shared)
            (tail_off c.handle.layout c.shared)
          ≡ 0 =
        ground arith in
      let whole = unpack-whole h.0.geometry c.shared.hdr.tail in
      let kept =
        w (tail_off c.handle.layout c.shared) h.0.tail_place.inside (omega (arith, whole))
          (inl (omega (arith, at_start))) in
      let (valid, pending) = payload-IsValid h.0 p room word' outside kept in
      ((valid, inr (len', e', pending, room)), rw (← same) room)
]

-- A commit puts one message behind the others, or nothing but the handle changes.
pub commit-Holds :
    (c : Session) (lens : List ℕ)
    → Holds c lens
    → ((len : ℕ) × Holds (after_commit c) (lens ++ len ∷ [])
        × IsPending c.handle.layout c.handle.next c.shared len
        × (sum lens + len ≤ c.handle.size))
      ⊎ Holds (after_commit c) lens × (mrb_commit c.handle c.shared ≡ (c.handle, c.shared))
commit-Holds c lens h = elim h.1 [
  | inl (idle, _) ↦
      let e = mrb_commit-idle c.handle c.shared idle in inr (rw e (h.0, inl (idle, refl)), e)
  | inr (len, _, p, room) ↦
      let (valid, layout, done, _) = mrb_commit-IsValid c.handle c.shared lens len h.0 p room in
      inl (len, (rw layout valid, inl (done, refl)), p, room)
]

commit-IsSound : (c : Session) → IsSound c → IsSound (after_commit c)
commit-IsSound c h = elim (commit-Holds c h.lens (h.valid, h.promise)) [
  | inl (len, holds, _, _) ↦ record {
    lens = h.lens ++ len ∷ [];
    valid = holds.0;
    promise = holds.1;
  }
  | inr (holds, _) ↦ record { lens = h.lens; valid = holds.0; promise = holds.1 }
]

reserve-IsSound :
    (c : Session) (size : ℕ) (r : Reserved)
    → IsSound c
    → IsRequest c.handle.layout size
    → mrb_reserve c.handle c.shared size ≡ some r
    → IsSound (after_reserve c size r)
reserve-IsSound c size r h req e = elim (reserve-Holds c size r h.lens (h.valid, h.promise) req e) [
  | inl (holds, _, _, _) ↦ record {
    lens = retained c.handle.size (footprint size) h.lens;
    valid = holds.0;
    promise = holds.1;
  }
  | inr same ↦ subst IsSound (sym same) h
]

pub Step-IsSound : {c d : Session} → Step c d → IsSound c → IsSound d
Step-IsSound {c} (reserve size r req e) h = reserve-IsSound c size r h req e
Step-IsSound {c} (fill len word' e w) h =
    let (holds, _) = fill-Holds c len word' h.lens (h.valid, h.promise) e w in
    record { lens = h.lens; valid = holds.0; promise = holds.1 }
Step-IsSound {c} commit h = commit-IsSound c h

-- Whatever the client reserves, fills in and commits, as long as it writes only into the message
-- that it was granted, the buffer stays a valid chain of messages, and a reservation stays good
-- until it is committed or replaced. The condition is that the sizes that it asks for wrap no sum
-- in mrb_reserve: the size and that of the buffer come to 2^64 - 128 at most.
pub Reach-IsSound : {c d : Session} → Reach c d → IsSound c → IsSound d
Reach-IsSound here h = h
Reach-IsSound (next r s) h = Step-IsSound s (Reach-IsSound r h)

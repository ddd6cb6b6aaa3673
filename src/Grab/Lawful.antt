-- ===== src/Grab/Lawful.antt =====
-- The grabber as a client of the ring buffer: what `glgrab_take_frame` does to it is a sequence of
-- the steps that mrb.h allows.
use glgrab.Base.{
  ℕ, ◌≡◌, inl, inr, refl, ap, ◌∙◌, arith, Bool, true, false, Option, none, some, Bool-cases,
  some_inj, ◌==◌,
}
use glgrab.Mrb.{Mrb, Shared}
use glgrab.Mrb.Write.{mrb_commit}
use glgrab.Mrb.Chain.{tail_off}
use glgrab.Mrb.Next.{footprint, IsRequest}
use glgrab.Mrb.Reserve.{mrb_reserve_lem}
use glgrab.Mrb.Session.{
  Session, reserve, fill, commit, Reach, here, next, WritesMessage, now_granted, IsSound,
  Reach-IsSound,
}
use glgrab.Grab.{
  Frame, Glgrab, TakeEnv, ready, in_use, check_error, frame_size, copy_pending, copy_frame, renew,
  new_frame, shoot_frame, fill_reserved, take_locked, glgrab_take_frame, try_lock, compare_exchange,
}

-- The session that a grabber has with its ring buffer, with the bytes that it was last granted.
abbrev pub session : Glgrab → Option ℕ → Session
session g granted = record { handle = g.rb; shared = g.shared; granted = granted }

abbrev pub frame_footprint : Frame → ℕ
frame_footprint f = footprint (frame_size f.width f.height)

-- The frame in the making stands in the message that was granted.
abbrev pub IsBacked : Glgrab → Option ℕ → Type 0
IsBacked g granted = (f : Frame) → g.frame ≡ some f → granted ≡ some (frame_footprint f)

-- A writer of a frame's pixels or header that keeps to the message of the frame.
abbrev pub KeepsToMessage : (Frame → Mrb → Shared → ℕ → ℕ) → Type 0
KeepsToMessage writes =
    (f : Frame) (q : Mrb) (s : Shared)
    → WritesMessage q.size (tail_off q.layout s) (frame_footprint f) s.word (writes f q s)

-- A run from `g` to `g'`, whose steps on the ring buffer are all allowed.
abbrev pub IsLawful : Glgrab → Option ℕ → Glgrab → Type 0
IsLawful g granted g' =
    (granted' : Option ℕ) × Reach (session g granted) (session g' granted') × IsBacked g' granted'

option_clash : {A : Type 0} {a : A} → none ≡ some a → ⊥
option_clash h = cc

mrb_commit-layout : (q : Mrb) (s : Shared) → (mrb_commit q s).0.layout ≡ q.layout
unfolding mrb_commit
mrb_commit-layout q s = ground arith

module _ (env : TakeEnv) (width height : ℕ) (copies : KeepsToMessage env.copied)
    (stores : KeepsToMessage env.stored) where
  -- The copied frame is filled in, and committed unless there was an error.
  copy_pending-Reach :
      (f : Frame) (g : Glgrab) (granted : Option ℕ)
      → granted ≡ some (frame_footprint f)
      → (granted' : Option ℕ) × Reach
          (session g granted)
          (session (copy_pending env width height f g) granted')
        × ((copy_pending env width height f g).rb.layout ≡ g.rb.layout)
  unfolding copy_pending check_error
  copy_pending-Reach f g granted backed =
      let filled : Reach (session g granted) _ =
        next here
          (fill (frame_footprint f) (env.copied f g.rb g.shared) backed (copies f g.rb g.shared)) in
      elim (Bool-cases env.copies) [
        | inr stop ↦ rw (stop) (granted, filled, refl)
        | inl go ↦ elim (Bool-cases (env.read_error == 0)) [
          | inr bad ↦ rw (go, bad) (granted, filled, refl)
          | inl good ↦ rw (go, good) (none, next filled commit, mrb_commit-layout _ _)
        ]
      ]

  copy_frame-Reach :
      (o : Option Frame) (g : Glgrab) (granted : Option ℕ)
      → ((f : Frame) → o ≡ some f → granted ≡ some (frame_footprint f))
      → (granted' : Option ℕ) × Reach
          (session g granted)
          (session (copy_frame env width height o g).1 granted')
        × ((copy_frame env width height o g).1.rb.layout ≡ g.rb.layout)
  unfolding copy_frame
  copy_frame-Reach none g granted backed = (granted, here, refl)
  copy_frame-Reach (some f) g granted backed = copy_pending-Reach f g granted (backed f refl)

  shoot_frame-Reach :
      (ptr : ℕ) (g : Glgrab) (granted : Option ℕ)
      → granted ≡ some (footprint (frame_size width height))
      → IsLawful g granted (shoot_frame env width height ptr g).1
  unfolding shoot_frame check_error new_frame
  shoot_frame-Reach ptr g granted backed = elim (Bool-cases env.shoots) [
    | inr stop ↦ rw (stop) (granted, here, λ f e. absurd (option_clash e))
    | inl go ↦ elim (Bool-cases (env.fill_error == 0)) [
      | inr bad ↦ rw (go, bad) (granted, here, λ f e. absurd (option_clash e))
      | inl good ↦
          let f = new_frame env width height ptr g in
          rw (go, good)
            (
              granted,
              next here (
                  fill (frame_footprint f) (env.stored f g.rb g.shared) backed
                    (stores f g.rb g.shared)),
              λ f' e. backed ∙ ap (λ (t : Frame). some (frame_footprint t)) (some_inj e),
            )
    ]
  ]

  fill_reserved-Reach :
      (resize : Bool) (o : Option ℕ) (g : Glgrab) (granted : Option ℕ)
      → IsLawful g
          (now_granted (frame_size width height) granted o)
          (fill_reserved env width height resize o g).1
  unfolding fill_reserved renew
  fill_reserved-Reach resize none g granted = (granted, here, λ f e. absurd (option_clash e))
  fill_reserved-Reach true (some ptr) g granted =
      shoot_frame-Reach ptr (renew env width height true g) _ refl
  fill_reserved-Reach false (some ptr) g granted = shoot_frame-Reach ptr g _ refl

Reach-trans : {c d e : Session} → Reach c d → Reach d e → Reach c e
Reach-trans r here = r
Reach-trans r (next s t) = next (Reach-trans r s) t

module _ (env : TakeEnv) (width height : ℕ) (copies : KeepsToMessage env.copied)
    (stores : KeepsToMessage env.stored) where
  take_locked-IsLawful :
      (g : Glgrab) (granted : Option ℕ)
      → IsSound (session g granted)
      → IsBacked g granted
      → IsRequest g.rb.layout (frame_size width height)
      → (ok : Bool) × (g' : Glgrab) × (take_locked env width height g ≡ some (ok, g'))
        × IsLawful g granted g'
  unfolding take_locked check_error
  take_locked-IsLawful g granted sound backed req =
      let start = (check_error env.before_error g).1 in
      let (granted1, before, kept) =
        copy_frame-Reach env width height copies stores g.frame start granted backed in
      let (resize, copied) = copy_frame env width height g.frame start in
      let req1 : IsRequest copied.rb.layout (frame_size width height) = rw (kept) req in
      let (r, runs, _) =
        mrb_reserve_lem (Reach-IsSound before sound).valid (frame_size width height) req1 in
      let reserved = record copied { rb = r.handle; shared = r.shared } in
      let (granted2, after, backed2) =
        fill_reserved-Reach env width height copies stores resize r.ptr reserved granted1 in
      let taken = fill_reserved env width height resize r.ptr reserved in
      (
        taken.0,
        taken.1,
        rw (runs) refl,
        (
          granted2,
          Reach-trans (next before (reserve (frame_size width height) r req1 runs)) after,
          backed2,
        ),
      )

  -- From a grabber that is ready, whose ring buffer is sound and whose frame in the making, if it
  -- has one, stands in the message that was granted last, for a frame whose size wraps no sum, and
  -- with engines that write only into the message of their frame, glgrab_take_frame ends. All that
  -- it does to the buffer are steps that mrb.h allows, so that the buffer is sound again; the
  -- frame in the making, if any, again stands in the message that was granted last, and the
  -- grabber is ready.
  pub glgrab_take_frame-IsLawful :
      (g : Glgrab) (granted : Option ℕ)
      → g.state ≡ ready
      → IsSound (session g granted)
      → IsBacked g granted
      → IsRequest g.rb.layout (frame_size width height)
      → (ok : Bool) × (g' : Glgrab) × (glgrab_take_frame env width height g ≡ some (ok, g'))
        × (g'.state ≡ ready)
        × ((granted' : Option ℕ) × Reach (session g granted) (session g' granted')
            × IsSound (session g' granted')
            × IsBacked g' granted')
  unfolding glgrab_take_frame try_lock compare_exchange
  glgrab_take_frame-IsLawful g granted is_ready sound backed req =
      let (ok, g', runs, (granted', steps, backed')) =
        take_locked-IsLawful (record g { state = in_use }) granted sound backed req in
      (
        ok,
        record g' { state = ready },
        rw (is_ready, runs) refl,
        refl,
        (granted', steps, Reach-IsSound steps sound, backed'),
      )

-- ===== src/Mrb/Followed.antt =====
-- A reader that waits at the tail of the buffer for the writer's next message, and goes on from
-- message to message.
pub mod Rounds
pub mod Lost
mod Tests
use glgrab.Base.{
  ℕ, zero, suc, ◌+◌, ◌-◌, ◌%◌, ◌≤◌, ◌<◌, ◌≡◌, ◌≢◌, ◌⊎◌, inl, inr, refl, sym, ap, subst, ◌∙◌, arith,
  List, [], ◌∷◌, ◌++◌,
}
use glgrab.Mrb.{Item, Layout, Mrb, Shared, mrb_item_unpack}
use glgrab.Mrb.Pointer.{seq_mod}
use glgrab.Mrb.Chain.{tail_off}
use glgrab.Mrb.Session.{Session, Reach, here, next}
use glgrab.Mrb.Kept.{IsAfter, Effect, stays, grows, step_commits, Step-Effect}
use glgrab.Mrb.Held.{IsHeld, IsGone, IsGone-step, IsHeld-step, commits}
use glgrab.Mrb.Released.{IsNextItem}

-- `item` is the place of the tail, where the writer's next message will be.
pub record IsAwaited (q : Layout) (item : Item) (c : Session) : Type 0 where
  pub lens : List ℕ
  pub after : IsAfter q item c 0 lens
  pub place : tail_off q c.shared ≡ item.off

-- The next message will be there, or one is, or it has been reclaimed. The tail has the number that
-- comes `k` behind `item`.
pub data IsFollowed (q : Layout) (item : Item) (c : Session) (k : ℕ) : Type 0 where
  awaited : k ≡ 0 → IsAwaited q item c → IsFollowed q item c k
  held : (len : ℕ) → IsHeld q item len c k → IsFollowed q item c k
  gone : IsGone q item c k → IsFollowed q item c k

pub IsFollowed-number :
    (q : Layout) (item : Item) (c : Session) (k : ℕ)
    → IsFollowed q item c k
    → (mrb_item_unpack q c.shared.hdr.tail).seq ≡ item.seq + k
IsFollowed-number q item c k (awaited e a) = rw e a.after.number
IsFollowed-number q item c k (held len h) = h.after.number
IsFollowed-number q item c k (gone g) = g.after.number

abbrev FollowedStep : Layout → Item → Session → ℕ → ℕ → Type 0
FollowedStep q item d n k = (k' : ℕ) × (k ≤ k') × (k' ≤ k + n) × IsFollowed q item d k'

module _ (q : Layout) (item : Item) (inside : item.off < q.size) where
  IsAwaited-step :
      (c d : Session) (n : ℕ) (a : IsAwaited q item c)
      → Effect q item c d n 0 a.lens
      → FollowedStep q item d n 0
  IsAwaited-step c d n a (stays lens' room from b place fits same) = (
    0,
    omega arith,
    omega arith,
    awaited refl (record { lens = lens'; after = b; place = place ∙ a.place }),
  )
  IsAwaited-step c d n a (grows l one b place fits same) = (
    1,
    omega arith,
    omega arith,
    held l (record {
      lens = a.lens ++ l ∷ [];
      newer = [];
      after = b;
      ends = (a.lens, refl);
      place = ground (arith, place, a.place);
      count = refl;
    }),
  )

  IsFollowed-step :
      (c d : Session) (n k : ℕ) (f : IsFollowed q item c k)
      → ((lens : List ℕ) → IsAfter q item c k lens → Effect q item c d n k lens)
      → FollowedStep q item d n k
  IsFollowed-step c d n k (awaited e a) effect =
      let none =
        subst (λ t. (lens : List ℕ) → IsAfter q item c t lens → Effect q item c d n t lens) e
          effect in
      rw e (IsAwaited-step c d n a (none a.lens a.after))
  IsFollowed-step c d n k (held len h) effect =
      let (k', ge, le, st) = IsHeld-step q item len inside c d n k h (effect h.lens h.after) in
      (k', ge, le, elim st [ inl (still, words) ↦ held len still | inr g ↦ gone g ])
  IsFollowed-step c d n k (gone g) effect =
      let (k', ge, le, g') = IsGone-step q item c d n k g (effect g.lens g.after) in
      (k', ge, le, gone g')

  -- Whatever the writer does, the place that the reader stands at is followed.
  pub IsFollowed-Reach :
      (c d : Session) (k : ℕ)
      → IsFollowed q item c k
      → (r : Reach c d) → item.seq + (k + commits r) < seq_mod q
      → FollowedStep q item d (commits r) k
  unfolding commits
  IsFollowed-Reach c d k f here few = (k, omega arith, omega arith, f)
  IsFollowed-Reach c d k f (next {d = e} r s) few =
      let (j, ge, le, g) = IsFollowed-Reach c e k f r (omega arith) in
      let (k', ge', le', g') =
        IsFollowed-step e d (step_commits s) j g
          (λ lens a. Step-Effect q item e d j lens s (omega arith) a) in
      (k', omega arith, omega arith, g')

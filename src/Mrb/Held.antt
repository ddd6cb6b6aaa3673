-- ===== src/Mrb/Held.antt =====
-- One message of the buffer, while the writer goes on: held with the same words, or gone.
use glgrab.Base.{
  ℕ, suc, ◌+◌, ◌%◌, ◌≤◌, ◌<◌, ◌≡◌, ◌⊎◌, inl, inr, refl, ap, subst, ◌∙◌, arith, List, [], ◌∷◌, ◌++◌,
  sum, length, sum-append, length-append,
}
use glgrab.Mrb.{Item, Layout}
use glgrab.Mrb.Pointer.{seq_mod}
use glgrab.Mrb.Chain.{wrap, ahead, tail_off}
use glgrab.Mrb.Session.{Session, Reach, here, next}
use glgrab.Mrb.Kept.{
  EndsIn, retained-EndsIn, length-retained-le, IsAfter, Effect, stays, grows, step_commits,
  Step-Effect,
}

-- The buffer holds the message `item` of `len` bytes, with its link.
pub record IsHeld (q : Layout) (item : Item) (len : ℕ) (c : Session) (k : ℕ) : Type 0 where
  pub lens : List ℕ
  pub newer : List ℕ
  pub after : IsAfter q item c k lens
  pub ends : EndsIn lens len newer
  pub place : tail_off q c.shared ≡ wrap q.size (item.off + (len + sum newer))
  pub count : k ≡ suc (length newer)

-- The buffer holds only messages that came after `item`.
pub record IsGone (q : Layout) (item : Item) (c : Session) (k : ℕ) : Type 0 where
  pub lens : List ℕ
  pub after : IsAfter q item c k lens
  pub few : length lens < k

-- The words of the message are the same.
abbrev pub SameWords : Layout → Item → ℕ → (ℕ → ℕ) → (ℕ → ℕ) → Type 0
SameWords q item len word word' =
    (off : ℕ) → off < q.size → off % 8 ≡ 0 → ahead q.size item.off off < len → word' off ≡ word off

-- The number of commits on the way.
unfoldable pub commits : {c d : Session} → Reach c d → ℕ
commits here = 0
commits (next r s) = commits r + step_commits s

pub append_assoc : (xs ys zs : List ℕ) → (xs ++ ys) ++ zs ≡ xs ++ (ys ++ zs)
append_assoc [] ys zs = refl
append_assoc (x ∷ xs) ys zs = ap (λ l. x ∷ l) (append_assoc xs ys zs)

EndsIn-snoc :
    (lens : List ℕ) (len : ℕ) (newer : List ℕ) (l : ℕ)
    → EndsIn lens len newer
    → EndsIn (lens ++ l ∷ []) len (newer ++ l ∷ [])
EndsIn-snoc lens len newer l (older, e) = (older, rw e (append_assoc older (len ∷ newer) (l ∷ [])))

pub EndsIn-sum :
    (lens : List ℕ) (len : ℕ) (newer : List ℕ) → EndsIn lens len newer → len + sum newer ≤ sum lens
EndsIn-sum lens len newer (older, e) = rw e (omega (arith, sum-append older (len ∷ newer)))

tail_inside :
    (q : Layout) (item : Item) (c : Session) (k : ℕ) (lens : List ℕ)
    → IsAfter q item c k lens
    → tail_off q c.shared < q.size
tail_inside q item c k lens a =
    subst (λ t. tail_off t c.shared < t.size) a.layout (a.holds.0.tail_place.inside)

module _ (q : Layout) (item : Item) where
  pub IsGone-step :
      (c d : Session) (n k : ℕ) (h : IsGone q item c k)
      → Effect q item c d n k h.lens
      → (k' : ℕ) × (k ≤ k') × (k' ≤ k + n) × IsGone q item d k'
  IsGone-step c d n k h (stays lens' room from a place fits same) =
      let shorter : length lens' ≤ length h.lens = elim from [
        | inl e ↦ rw e (omega arith)
        | inr (r, e) ↦ rw e (length-retained-le q.size r h.lens)
      ] in
      (
        k,
        omega arith,
        omega arith,
        record { lens = lens'; after = a; few = omega (arith, h.few, shorter) },
      )
  IsGone-step c d n k h (grows l one a place fits same) = (
    suc k,
    omega arith,
    omega arith,
    record {
      lens = h.lens ++ l ∷ [];
      after = a;
      few = omega (arith, h.few, length-append h.lens (l ∷ []));
    },
  )

  pub IsGone-Reach :
      (c d : Session) (k : ℕ)
      → IsGone q item c k
      → (r : Reach c d) → item.seq + (k + commits r) < seq_mod q
      → (k' : ℕ) × (k ≤ k') × (k' ≤ k + commits r) × IsGone q item d k'
  unfolding commits
  IsGone-Reach c d k h here few = (k, omega arith, omega arith, h)
  IsGone-Reach c d k h (next {d = e} r s) few =
      let (j, ge, le, gone) = IsGone-Reach c e k h r (omega arith) in
      let (k', ge', le', gone') =
        IsGone-step e d (step_commits s) j gone
          (Step-Effect q item e d j gone.lens s (omega arith) gone.after) in
      (k', omega arith, omega arith, gone')

module _ (q : Layout) (item : Item) (len : ℕ) (inside : item.off < q.size) where
  -- A message that stays: no byte behind the tail that may be written is one of its bytes.
  apart :
      (tail room newer_sum off : ℕ)
      → tail ≡ wrap q.size (item.off + (len + newer_sum))
      → len + newer_sum + room ≤ q.size
      → tail < q.size
      → off < q.size
      → ahead q.size item.off off < len
      → room ≤ ahead q.size tail off
  apart tail room newer_sum off e fits low inside_off close = ground arith

  -- What may become of a held message in a step.
  abbrev pub HeldStep : Session → Session → ℕ → ℕ → Type 0
  HeldStep c d n k =
      (k' : ℕ) × (k ≤ k')
      × (k' ≤ k + n)
      × ((IsHeld q item len d k' × SameWords q item len c.shared.word d.shared.word)
          ⊎ IsGone q item d k')

  pub IsHeld-step :
      (c d : Session) (n k : ℕ) (h : IsHeld q item len c k)
      → Effect q item c d n k h.lens
      → HeldStep c d n k
  IsHeld-step c d n k h (stays lens' room from a place fits same) =
      let kept : EndsIn lens' len h.newer ⊎ (length lens' ≤ length h.newer) = elim from [
        | inl e ↦ inl (rw e h.ends)
        | inr (r, e) ↦ rw e (retained-EndsIn q.size r len h.lens h.newer h.ends)
      ] in
      (
        k,
        omega arith,
        omega arith,
        elim kept [
          | inl ends ↦
              let room_left = EndsIn-sum lens' len h.newer ends in
              inl (
                record {
                  lens = lens';
                  newer = h.newer;
                  after = a;
                  ends = ends;
                  place = place ∙ h.place;
                  count = h.count;
                },
                λ off low whole close. same off low whole (
                    apart (tail_off q c.shared) room (sum h.newer) off h.place (omega arith)
                      (tail_inside q item c k h.lens h.after) low close),
              )
          | inr short ↦
              inr (record { lens = lens'; after = a; few = omega (arith, h.count, short) })
        ],
      )
  IsHeld-step c d n k h (grows l one a place fits same) =
      let total = sum-append h.newer (l ∷ []) in
      let room_left = EndsIn-sum h.lens len h.newer h.ends in
      (
        suc k,
        omega arith,
        omega arith,
        inl (
          record {
            lens = h.lens ++ l ∷ [];
            newer = h.newer ++ l ∷ [];
            after = a;
            ends = EndsIn-snoc h.lens len h.newer l h.ends;
            place = ground (arith, place, h.place, total, room_left);
            count = omega (arith, h.count, length-append h.newer (l ∷ []));
          },
          λ off low whole close. rw same refl,
        ),
      )

  -- On the way from `c` to `d` the message is held with the same words, or it goes and stays gone.
  pub IsHeld-Reach :
      (c d : Session) (k : ℕ)
      → IsHeld q item len c k
      → (r : Reach c d) → item.seq + (k + commits r) < seq_mod q
      → (k' : ℕ) × (k ≤ k')
        × (k' ≤ k + commits r)
        × ((IsHeld q item len d k' × SameWords q item len c.shared.word d.shared.word)
            ⊎ IsGone q item d k')
  unfolding commits
  IsHeld-Reach c d k h here few =
      (k, omega arith, omega arith, inl (h, λ off low whole close. refl))
  IsHeld-Reach c d k h (next {d = e} r s) few =
      let (j, ge, le, st) = IsHeld-Reach c e k h r (omega arith) in
      elim st [
        | inl (held, words) ↦
            let (k', ge', le', st') =
              IsHeld-step e d (step_commits s) j held
                (Step-Effect q item e d j held.lens s (omega arith) held.after) in
            (
              k',
              omega arith,
              omega arith,
              elim st' [
                | inl (held', words') ↦ inl (
                  held',
                  λ off low whole close. words' off low whole close ∙ words off low whole close,
                )
                | inr gone ↦ inr gone
              ],
            )
        | inr gone ↦
            let (k', ge', le', gone') =
              IsGone-step q item e d (step_commits s) j gone
                (Step-Effect q item e d j gone.lens s (omega arith) gone.after) in
            (k', omega arith, omega arith, inr gone')
      ]

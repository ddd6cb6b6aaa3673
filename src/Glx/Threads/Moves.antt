-- ===== src/Glx/Threads/Moves.antt =====
-- What a move of one thread leaves to the others.
use glgrab.Base.{
  ℕ, ◌≡◌, ◌≢◌, ◌⊎◌, inl, inr, sym, ap, ◌∙◌, Bool, true, false, Option, none, some, update,
  update_ne,
}
use glgrab.Glx.Threads.{Place, World, go}
use glgrab.Glx.Threads.Exclusive.{critical, IsExclusive-one}
use glgrab.Glx.Threads.Safe.{own, answers, IsSafe, moves, answers-critical}

pub none_some : (n : ℕ) → ◌≢◌ {A = Option ℕ} none (some n)
none_some n e = absurd cc

pub both : (b : Bool) → b ≡ true → b ≢ false
both b h e = absurd cc

-- What a thread says that is not the one that moved, where the new place of that one says nothing.
pub other :
    {A : Type 0} (f : Place → Option A) (place : ℕ → Place) (i j : ℕ) (p : Place) (a : A)
    → f p ≡ none
    → f (update place i p j) ≡ some a
    → (j ≢ i) × (f (place j) ≡ some a)
other f place i j p a nothing h = elim (moves f place i p j) [
  | inl (same, e) ↦ absurd cc
  | inr (ne, e) ↦ (ne, sym e ∙ h)
]

-- A node that the thread has taken, or that another thread has kept.
pub owner :
    (place : ℕ → Place) (i j : ℕ) (p : Place) (m n : ℕ)
    → own p ≡ some m
    → own (update place i p j) ≡ some n
    → ((j ≡ i) × (m ≡ n)) ⊎ (own (place j) ≡ some n)
owner place i j p m n o h = elim (moves own place i p j) [
  | inl (same, e) ↦ inl (same, cc)
  | inr (ne, e) ↦ inr (sym e ∙ h)
]

-- What this thread did not own has its owner still.
pub still :
    (place : ℕ → Place) (i j : ℕ) (p : Place) (n : ℕ)
    → own (place i) ≢ some n
    → own (place j) ≡ some n
    → own (update place i p j) ≡ some n
still place i j p n ne h =
    ap own (update_ne place i j p (λ t. ne (ap (λ k. own (place k)) t ∙ h))) ∙ h

module _ (c : World) (i : ℕ) (s : IsSafe c) where
  -- A node that nobody owns can be taken by one thread.
  pub taken_apart :
      (p : Place) (m j k n : ℕ)
      → own p ≡ some m
      → ((l : ℕ) → own (c.place l) ≢ some m)
      → own (go c i p j) ≡ some n
      → own (go c i p k) ≡ some n
      → j ≡ k
  taken_apart p m j k n o nobody h h' = elim (owner c.place i j p m n o h) [
    | inl (same, e) ↦ elim (owner c.place i k p m n o h') [
      | inl (same', e') ↦ same ∙ sym same'
      | inr e' ↦ absurd (nobody k (e' ∙ ap (λ (t : ℕ). some t) (sym e)))
    ]
    | inr e ↦ elim (owner c.place i k p m n o h') [
      | inl (same', e') ↦ absurd (nobody j (e ∙ ap (λ (t : ℕ). some t) (sym e')))
      | inr e' ↦ s.own_apart j k n e e'
    ]
  ]

  pub left_apart :
      (p : Place) (j k n : ℕ)
      → own p ≡ none
      → own (go c i p j) ≡ some n
      → own (go c i p k) ≡ some n
      → j ≡ k
  left_apart p j k n o h h' =
      s.own_apart j k n (other own c.place i j p n o h).1 (other own c.place i k p n o h').1

  -- The other threads, while this one is behind the lock, are in no place with an answer.
  pub answers-none :
      (p : Place) (j w : ℕ) (n : Option ℕ)
      → critical (c.place i) ≡ true
      → answers p ≡ none
      → answers (go c i p j) ≢ some (w, n)
  answers-none p j w n inside nothing h =
      let (ne, e) = other answers c.place i j p (w, n) nothing h in
      both (critical (c.place j)) (answers-critical (c.place j) w n e)
        (IsExclusive-one c.lock c.place i j s.exclusive inside ne)

  -- Two threads own different nodes.
  pub own_ne :
      (p : Place) (j m n : ℕ)
      → own (c.place i) ≡ some m
      → own p ≡ none
      → own (go c i p j) ≡ some n
      → (m ≢ n) × (own (c.place j) ≡ some n)
  own_ne p j m n o nothing h =
      let (ne, e) = other own c.place i j p n nothing h in
      ((λ t. ne (s.own_apart j i n e (o ∙ ap (λ (k : ℕ). some k) t))), e)

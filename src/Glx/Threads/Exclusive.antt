-- ===== src/Glx/Threads/Exclusive.antt =====
-- The spin lock of glx.c: one thread at a time works on the list.
use glgrab.Base.{
  ℕ, ◌≡◌, ◌≢◌, ◌⊎◌, inl, inr, refl, sym, ap, subst, ◌∙◌, Bool, true, false, Option, none, some,
  ◌==◌, Bool-cases, ==_iff, ==_of_eq, update, update_self, update_ne,
}
use glgrab.Glx.Threads.{
  Place, outside, made, inserting, inserted, forgetting, removing, removed, freeing, swapping,
  finding, found, read, missed, sizing, World, free_place, found_place, Step, create, lock_made,
  insert, unlock_inserted, forget, lock_forgetting, remove, unlock_removed, free, swap,
  lock_swapping, find, load, unlock_read, unlock_missed, size, size_fails,
}

-- Between `lock` and `unlock`.
abbrev pub critical : Place → Bool
critical outside = false
critical (made m x) = false
critical (inserting m x) = true
critical inserted = true
critical (forgetting w) = false
critical (removing w) = true
critical (removed o) = true
critical (freeing m) = false
critical (swapping w) = false
critical (finding w) = true
critical (found w m) = true
critical (read x) = true
critical (missed w) = true
critical (sizing w) = false

-- The lock is free and no thread is behind it, or one thread is.
abbrev pub IsExclusive : Bool → (ℕ → Place) → Type 0
IsExclusive lock place =
    ((lock ≡ false) × ((i : ℕ) → critical (place i) ≡ false))
    ⊎ ((i : ℕ) × (lock ≡ true)
        × (critical (place i) ≡ true)
        × ((j : ℕ) → j ≢ i → critical (place j) ≡ false))

pub equal_or_not : (a b : ℕ) → (a ≡ b) ⊎ (a ≢ b)
equal_or_not a b = elim (Bool-cases (a == b)) [
  | inl e ↦ inl ((==_iff a b).0 e)
  | inr e ↦ inr (λ h. absurd (let c = ==_of_eq a b h in cc))
]

-- What holds of the new place of the thread that moves, and of the old places of the others.
pub update_at :
    (P : Place → Type 0) (place : ℕ → Place) (i : ℕ) (p : Place) (j : ℕ)
    → (j ≡ i → P p)
    → (j ≢ i → P (place j))
    → P (update place i p j)
update_at P place i p j here there = elim (equal_or_not i j) [
  | inl e ↦
      subst (λ t. P (update place i p t)) e (subst P (sym (update_self place i p)) (here (sym e)))
  | inr ne ↦ subst P (sym (update_ne place i j p ne)) (there (λ t. ne (sym t)))
]

-- Only one thread can be behind the lock.
pub IsExclusive-one :
    (lock : Bool) (place : ℕ → Place) (i j : ℕ)
    → IsExclusive lock place
    → critical (place i) ≡ true
    → j ≢ i
    → critical (place j) ≡ false
IsExclusive-one lock place i j (inl (open_lock, all)) inside ne = all j
IsExclusive-one lock place i j (inr (k, taken, busy, others)) inside ne = elim (equal_or_not i k) [
  | inl same ↦ others j (λ e. ne (e ∙ sym same))
  | inr nk ↦ absurd (let clash : true ≡ false = sym inside ∙ others i nk in cc)
]

module _ (lock : Bool) (place : ℕ → Place) (i : ℕ) (p : Place) where
  stays :
      critical p ≡ critical (place i) → IsExclusive lock place → IsExclusive lock (update place i p)
  stays e (inl (open_lock, all)) = inl (
    open_lock,
    λ j. update_at (λ t. critical t ≡ false) place i p j (λ same. e ∙ all i) (λ ne. all j),
  )
  stays e (inr (k, taken, busy, others)) = inr (
    k,
    taken,
    update_at (λ t. critical t ≡ true) place i p k
        (λ same. e ∙ ap (λ t. critical (place t)) (sym same) ∙ busy) (λ ne. busy),
    λ j ne.
        update_at (λ t. critical t ≡ false) place i p j (λ same. e ∙ others i (λ t. ne (same ∙ t)))
          (λ nj. others j ne),
  )

  enters :
      lock ≡ false
      → critical p ≡ true
      → IsExclusive lock place
      → IsExclusive true (update place i p)
  enters open_lock e (inl (_, all)) = inr (
    i,
    refl,
    update_at (λ t. critical t ≡ true) place i p i (λ same. e) (λ ne. absurd (ne refl)),
    λ j ne.
        update_at (λ t. critical t ≡ false) place i p j (λ same. absurd (ne same)) (λ nj. all j),
  )
  enters open_lock e (inr (k, taken, _, _)) =
      absurd (let clash : true ≡ false = sym taken ∙ open_lock in cc)

  leaves :
      critical (place i) ≡ true
      → critical p ≡ false
      → IsExclusive lock place
      → IsExclusive false (update place i p)
  leaves inside e h = inl (
    refl,
    λ j.
        update_at (λ t. critical t ≡ false) place i p j (λ same. e)
          (IsExclusive-one lock place i j h inside),
  )

free_place-critical : (o : Option ℕ) → critical (free_place o) ≡ false
free_place-critical none = refl
free_place-critical (some m) = refl

found_place-critical : (w : ℕ) (o : Option ℕ) → critical (found_place w o) ≡ true
found_place-critical w none = refl
found_place-critical w (some m) = refl

at : (p q : Place) → p ≡ q → critical p ≡ critical q
at p q e = ap critical e

pub Step-IsExclusive :
    {c d : World} → Step c d → IsExclusive c.lock c.place → IsExclusive d.lock d.place
Step-IsExclusive {c} (create i m x e dead) = stays c.lock c.place i _ (sym (at _ _ e))
Step-IsExclusive {c} (lock_made i m x e open_lock) = enters c.lock c.place i _ open_lock refl
Step-IsExclusive {c} (insert i m x e) = stays c.lock c.place i _ (sym (at _ _ e))
Step-IsExclusive {c} (unlock_inserted i e) = leaves c.lock c.place i _ (at _ _ e) refl
Step-IsExclusive {c} (forget i w e) = stays c.lock c.place i _ (sym (at _ _ e))
Step-IsExclusive {c} (lock_forgetting i w e open_lock) = enters c.lock c.place i _ open_lock refl
Step-IsExclusive {c} (remove i w e) = stays c.lock c.place i _ (sym (at _ _ e))
Step-IsExclusive {c} (unlock_removed i o e) =
    leaves c.lock c.place i _ (at _ _ e) (free_place-critical o)
Step-IsExclusive {c} (free i m e) = stays c.lock c.place i _ (sym (at _ _ e))
Step-IsExclusive {c} (swap i w e) = stays c.lock c.place i _ (sym (at _ _ e))
Step-IsExclusive {c} (lock_swapping i w e open_lock) = enters c.lock c.place i _ open_lock refl
Step-IsExclusive {c} (find i w e) =
    stays c.lock c.place i _ (found_place-critical w _ ∙ sym (at _ _ e))
Step-IsExclusive {c} (load i w m e) = stays c.lock c.place i _ (sym (at _ _ e))
Step-IsExclusive {c} (unlock_read i x e) = leaves c.lock c.place i _ (at _ _ e) refl
Step-IsExclusive {c} (unlock_missed i w e) = leaves c.lock c.place i _ (at _ _ e) refl
Step-IsExclusive {c} (size i w m b e dead) = stays c.lock c.place i _ (sym (at _ _ e))
Step-IsExclusive {c} (size_fails i w e) = stays c.lock c.place i _ (sym (at _ _ e))

-- ===== src/Glx/Threads/Safe.antt =====
-- The nodes of glx.c's list under the threads' hooks: none is used after `free`, freed twice, linked
-- twice or lost.
use glgrab.Base.{
  ℕ, ◌≡◌, ◌≢◌, ◌⊎◌, inl, inr, refl, sym, ap, subst, ◌∙◌, Bool, true, false, Option, none, some,
  update, update_self, update_ne,
}
use glgrab.Glx.{Winmap}
use glgrab.Glx.Threads.{
  Place, outside, made, inserting, inserted, forgetting, removing, removed, freeing, swapping,
  finding, found, read, missed, sizing, World, go, find_node,
}
use glgrab.Glx.Threads.Exclusive.{IsExclusive, critical, equal_or_not, update_at}
use glgrab.Glx.Threads.Memory.{has, IsDistinct}

-- The node that only this thread has: not linked yet, or not any more.
abbrev pub own : Place → Option ℕ
own outside = none
own (made m x) = some m
own (inserting m x) = some m
own inserted = none
own (forgetting w) = none
own (removing w) = none
own (removed o) = o
own (freeing m) = some m
own (swapping w) = none
own (finding w) = none
own (found w m) = none
own (read x) = none
own (missed w) = none
own (sizing w) = none

-- A node that is filled in and waits to be linked, with what it is filled with.
abbrev pub fills : Place → Option (ℕ × Winmap)
fills (made m x) = some (m, x)
fills (inserting m x) = some (m, x)
fills p = none

-- What find_x11 of take_frame has been asked and has answered.
abbrev pub answers : Place → Option (ℕ × Option ℕ)
answers (found w m) = some (w, some m)
answers (missed w) = some (w, none)
answers p = none

pub record IsSafe (c : World) : Type 0 where
  pub exclusive : IsExclusive c.lock c.place
  pub distinct : IsDistinct c.list
  pub linked : (m : ℕ) → has m c.list ≡ true → c.alive m ≡ true
  pub own_alive : (i m : ℕ) → own (c.place i) ≡ some m → c.alive m ≡ true
  pub own_out : (i m : ℕ) → own (c.place i) ≡ some m → has m c.list ≡ false
  pub own_apart : (i j m : ℕ) → own (c.place i) ≡ some m → own (c.place j) ≡ some m → i ≡ j
  pub filled : (i m : ℕ) (x : Winmap) → fills (c.place i) ≡ some (m, x) → c.node m ≡ x
  pub answered :
      (i w : ℕ) (o : Option ℕ) → answers (c.place i) ≡ some (w, o) → find_node c.node c.list w ≡ o
  pub kept :
      (m : ℕ) → c.alive m ≡ true → (has m c.list ≡ true) ⊎ ((i : ℕ) × (own (c.place i) ≡ some m))

-- What a function of a thread's place says after the thread `i` has moved.
pub moves :
    {A : Type 0} (f : Place → A) (place : ℕ → Place) (i : ℕ) (p : Place) (j : ℕ)
    → ((j ≡ i) × (f (update place i p j) ≡ f p))
      ⊎ ((j ≢ i) × (f (update place i p j) ≡ f (place j)))
moves f place i p j = elim (equal_or_not i j) [
  | inl e ↦ inl (sym e, subst (λ t. f (update place i p t) ≡ f p) e (ap f (update_self place i p)))
  | inr ne ↦ inr ((λ t. ne (sym t)), ap f (update_ne place i j p ne))
]

same_at :
    {A : Type 0} (f : Place → A) (place : ℕ → Place) (i : ℕ) (p : Place)
    → f p ≡ f (place i)
    → (j : ℕ) → f (update place i p j) ≡ f (place j)
same_at f place i p e j =
    update_at (λ t. f t ≡ f (place j)) place i p j (λ same. e ∙ ap (λ t. f (place t)) (sym same))
      (λ ne. refl)

pub answers-critical :
    (p : Place) (w : ℕ) (o : Option ℕ) → answers p ≡ some (w, o) → critical p ≡ true
answers-critical outside w o h = absurd cc
answers-critical (made n x) w o h = absurd cc
answers-critical (inserting n x) w o h = refl
answers-critical inserted w o h = refl
answers-critical (forgetting v) w o h = absurd cc
answers-critical (removing v) w o h = refl
answers-critical (removed n) w o h = refl
answers-critical (freeing n) w o h = absurd cc
answers-critical (swapping v) w o h = absurd cc
answers-critical (finding v) w o h = refl
answers-critical (found v n) w o h = refl
answers-critical (read x) w o h = refl
answers-critical (missed v) w o h = refl
answers-critical (sizing v) w o h = absurd cc

-- A thread moves and no node does.
pub plain :
    (c : World) (i : ℕ) (p : Place) (taken : Bool)
    → IsSafe c
    → IsExclusive taken (go c i p)
    → own p ≡ own (c.place i)
    → fills p ≡ fills (c.place i)
    → ((w : ℕ) (o : Option ℕ) → answers p ≡ some (w, o) → find_node c.node c.list w ≡ o)
    → IsSafe (record c { lock = taken; place = go c i p })
plain c i p taken s ex o f a =
    let own_at = same_at own c.place i p o in
    let fills_at = same_at fills c.place i p f in
    record {
      exclusive = ex;
      distinct = s.distinct;
      linked = s.linked;
      own_alive = λ j m h. s.own_alive j m (sym (own_at j) ∙ h);
      own_out = λ j m h. s.own_out j m (sym (own_at j) ∙ h);
      own_apart = λ j k m h h'. s.own_apart j k m (sym (own_at j) ∙ h) (sym (own_at k) ∙ h');
      filled = λ j m x h. s.filled j m x (sym (fills_at j) ∙ h);
      answered = λ j w n h. elim (moves answers c.place i p j) [
        | inl (same, e) ↦ a w n (sym e ∙ h)
        | inr (ne, e) ↦ s.answered j w n (sym e ∙ h)
      ];
      kept = λ m h. elim (s.kept m h) [ inl e ↦ inl e | inr (j, e) ↦ inr (j, own_at j ∙ e) ];
    }

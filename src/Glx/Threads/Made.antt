-- ===== src/Glx/Threads/Made.antt =====
-- `malloc` and `free` of a node while other threads are in the hooks.
use glgrab.Base.{
  ℕ, ◌≡◌, ◌≢◌, inl, inr, refl, sym, ap, subst, ◌∙◌, true, false, none, some, some_inj, update,
  update_self, update_ne,
}
use glgrab.Glx.{Winmap}
use glgrab.Glx.Threads.{
  Place, outside, made, inserting, inserted, forgetting, removing, removed, freeing, swapping,
  finding, found, read, missed, sizing, World, go,
}
use glgrab.Glx.Threads.Exclusive.{IsExclusive, equal_or_not}
use glgrab.Glx.Threads.Memory.{has, find_node-update, has-false}
use glgrab.Glx.Threads.Safe.{own, fills, answers, IsSafe, moves}
use glgrab.Glx.Threads.Moves.{none_some, both, other, owner, still, taken_apart, left_apart, own_ne}

fills-own : (p : Place) (m : ℕ) (x : Winmap) → fills p ≡ some (m, x) → own p ≡ some m
fills-own outside m x h = absurd cc
fills-own (made n y) m x h = cc
fills-own (inserting n y) m x h = cc
fills-own inserted m x h = absurd cc
fills-own (forgetting v) m x h = absurd cc
fills-own (removing v) m x h = absurd cc
fills-own (removed o) m x h = absurd cc
fills-own (freeing n) m x h = absurd cc
fills-own (swapping v) m x h = absurd cc
fills-own (finding v) m x h = absurd cc
fills-own (found v n) m x h = absurd cc
fills-own (read y) m x h = absurd cc
fills-own (missed v) m x h = absurd cc
fills-own (sizing v) m x h = absurd cc

module _ (c : World) (i : ℕ) (s : IsSafe c) where
  -- `malloc`, and the entry filled in.
  pub allocate :
      (m : ℕ) (x : Winmap)
      → IsExclusive c.lock (go c i (made m x))
      → own (c.place i) ≡ none
      → c.alive m ≡ false
      → IsSafe (record c {
        node = update c.node m x;
        alive = update c.alive m true;
        place = go c i (made m x);
      })
  allocate m x ex o dead =
      let apart : (n : ℕ) → c.alive n ≡ true → m ≢ n =
        λ n h e. both (c.alive n) h (subst (λ t. c.alive t ≡ false) e dead) in
      let out = has-false m c.list (λ h. apart m (s.linked m h) refl) in
      let grown = λ (n : ℕ) (h : c.alive n ≡ true). update_ne c.alive m n true (apart n h) ∙ h in
      record {
        exclusive = ex;
        distinct = s.distinct;
        linked = λ n h. grown n (s.linked n h);
        own_alive = λ j n h. elim (owner c.place i j (made m x) m n refl h) [
          | inl (same, at) ↦
              subst (λ t. update c.alive m true t ≡ true) at (update_self c.alive m true)
          | inr e ↦ grown n (s.own_alive j n e)
        ];
        own_out = λ j n h. elim (owner c.place i j (made m x) m n refl h) [
          | inl (same, at) ↦ subst (λ t. has t c.list ≡ false) at out
          | inr e ↦ s.own_out j n e
        ];
        own_apart = λ j k n.
            taken_apart c i s (made m x) m j k n refl (λ l e. apart m (s.own_alive l m e) refl);
        filled = λ j n y h. elim (moves fills c.place i (made m x) j) [
          | inl (same, e) ↦
              let at : m ≡ n = cc in
              subst (λ t. update c.node m x t ≡ y) at (update_self c.node m x ∙ cc)
          | inr (ne, e) ↦
              let owned = fills-own (c.place j) n y (sym e ∙ h) in
              update_ne c.node m n x (apart n (s.own_alive j n owned)) ∙ s.filled j n y (sym e ∙ h)
        ];
        answered = λ j w n h.
            find_node-update c.node m x c.list w out
            ∙ s.answered j w n (other answers c.place i j (made m x) (w, n) refl h).1;
        kept = λ n h. elim (equal_or_not m n) [
          | inl at ↦ inr (i, ap own (update_self c.place i _) ∙ ap (λ (t : ℕ). some t) at)
          | inr ne ↦ elim (s.kept n (sym (update_ne c.alive m n true ne) ∙ h)) [
            | inl e ↦ inl e
            | inr (j, e) ↦ inr (j, still c.place i j _ n (λ t. none_some n (sym o ∙ t)) e)
          ]
        ];
      }

  -- `free`
  pub give_back :
      (m : ℕ)
      → IsExclusive c.lock (go c i outside)
      → own (c.place i) ≡ some m
      → IsSafe (record c { alive = update c.alive m false; place = go c i outside })
  give_back m ex o = record {
    exclusive = ex;
    distinct = s.distinct;
    linked = λ n h.
        update_ne c.alive m n false
          (λ t. both (has n c.list) h (subst (λ k. has k c.list ≡ false) t (s.own_out i m o)))
        ∙ s.linked n h;
    own_alive = λ j n h.
        let (ne, e) = own_ne c i s outside j m n o refl h in
        update_ne c.alive m n false ne ∙ s.own_alive j n e;
    own_out = λ j n h. s.own_out j n (own_ne c i s outside j m n o refl h).1;
    own_apart = λ j k n. left_apart c i s outside j k n refl;
    filled = λ j n y h. s.filled j n y (other fills c.place i j outside (n, y) refl h).1;
    answered = λ j w n h. s.answered j w n (other answers c.place i j outside (w, n) refl h).1;
    kept = λ n h. elim (equal_or_not m n) [
      | inl at ↦ absurd (
          both (update c.alive m false n) h
            (subst (λ t. update c.alive m false t ≡ false) at (update_self c.alive m false)))
      | inr ne ↦ elim (s.kept n (sym (update_ne c.alive m n false ne) ∙ h)) [
        | inl e ↦ inl e
        | inr (j, e) ↦ inr (j, still c.place i j outside n (λ t. ne (some_inj (sym o ∙ t))) e)
      ]
    ];
  }

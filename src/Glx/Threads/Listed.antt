-- ===== src/Glx/Threads/Listed.antt =====
-- LIST_INSERT_HEAD and LIST_REMOVE while other threads are in the hooks.
use glgrab.Base.{
  ℕ, ◌≡◌, ◌≢◌, inl, inr, refl, sym, ap, subst, ◌∙◌, true, false, ◌∷◌, Option, none, some, some_inj,
  update_self,
}
use glgrab.Glx.Threads.{
  inserted, removing, removed, World, go, find_node, list_remove, remove_found,
}
use glgrab.Glx.Threads.Exclusive.{IsExclusive, critical, equal_or_not}
use glgrab.Glx.Threads.Memory.{
  has, has-find_node, has-list_remove_le, has-list_remove_self, has-list_remove_not,
  has-list_remove_ne, has_head, has_cons_ne, list_remove-IsDistinct,
}
use glgrab.Glx.Threads.Safe.{own, fills, IsSafe, plain}
use glgrab.Glx.Threads.Moves.{
  none_some, both, other, owner, still, taken_apart, left_apart, answers-none, own_ne,
}

module _ (c : World) (i : ℕ) (s : IsSafe c) where
  -- LIST_INSERT_HEAD
  pub link :
      (m : ℕ)
      → IsExclusive c.lock (go c i inserted)
      → own (c.place i) ≡ some m
      → critical (c.place i) ≡ true
      → IsSafe (record c { list = m ∷ c.list; place = go c i inserted })
  link m ex o inside = record {
    exclusive = ex;
    distinct = (s.own_out i m o, s.distinct);
    linked = λ n h. elim (equal_or_not m n) [
      | inl e ↦ subst (λ t. c.alive t ≡ true) e (s.own_alive i m o)
      | inr ne ↦ s.linked n (has_cons_ne m n c.list ne ∙ h)
    ];
    own_alive = λ j n h. s.own_alive j n (own_ne c i s inserted j m n o refl h).1;
    own_out = λ j n h.
        let (ne, e) = own_ne c i s inserted j m n o refl h in
        sym (has_cons_ne m n c.list ne) ∙ s.own_out j n e;
    own_apart = λ j k n. left_apart c i s inserted j k n refl;
    filled = λ j n y h. s.filled j n y (other fills c.place i j inserted (n, y) refl h).1;
    answered = λ j w n h. absurd (answers-none c i s inserted j w n inside refl h);
    kept = λ n h. elim (equal_or_not m n) [
      | inl at ↦ inl (subst (λ t. has t (m ∷ c.list) ≡ true) at (has_head m c.list))
      | inr ne ↦ elim (s.kept n h) [
        | inl e ↦ inl (sym (has_cons_ne m n c.list ne) ∙ e)
        | inr (j, e) ↦ inr (j, still c.place i j inserted n (λ t. ne (some_inj (sym o ∙ t))) e)
      ]
    ];
  }

  -- find_x11 and LIST_REMOVE
  pub unlink :
      (w : ℕ) (o : Option ℕ)
      → IsExclusive c.lock (go c i (removed o))
      → c.place i ≡ removing w
      → find_node c.node c.list w ≡ o
      → IsSafe (record c { list = remove_found o c.list; place = go c i (removed o) })
  unfolding remove_found
  unlink w none ex at e =
      plain c i (removed none) c.lock s ex (sym (ap own at)) (sym (ap fills at))
        (λ v n h. absurd cc)
  unlink w (some m) ex at e =
      let here : has m c.list ≡ true = has-find_node c.node c.list w m e in
      let nobody : (l : ℕ) → own (c.place l) ≢ some m =
        λ l h. both (has m c.list) here (s.own_out l m h) in
      let p = removed (some m) in
      record {
        exclusive = ex;
        distinct = list_remove-IsDistinct m c.list s.distinct;
        linked = λ n h. s.linked n (has-list_remove_le m n c.list h);
        own_alive = λ j n h. elim (owner c.place i j p m n refl h) [
          | inl (same, to) ↦ subst (λ t. c.alive t ≡ true) to (s.linked m here)
          | inr e' ↦ s.own_alive j n e'
        ];
        own_out = λ j n h. elim (owner c.place i j p m n refl h) [
          | inl (same, to) ↦
              subst (λ t. has t (list_remove m c.list) ≡ false) to
                (has-list_remove_self m c.list s.distinct)
          | inr e' ↦ has-list_remove_not m n c.list (s.own_out j n e')
        ];
        own_apart = λ j k n. taken_apart c i s p m j k n refl nobody;
        filled = λ j n y h. s.filled j n y (other fills c.place i j p (n, y) refl h).1;
        answered = λ j v n h. absurd (answers-none c i s p j v n (ap critical at) refl h);
        kept = λ n h. elim (equal_or_not m n) [
          | inl to ↦ inr (i, ap own (update_self c.place i p) ∙ ap (λ (t : ℕ). some t) to)
          | inr ne ↦ elim (s.kept n h) [
            | inl e' ↦ inl (has-list_remove_ne m n c.list (λ t. ne (sym t)) e')
            | inr (j, e') ↦
                inr (j, still c.place i j p n (λ t. none_some n (sym (ap own at) ∙ t)) e')
          ]
        ];
      }

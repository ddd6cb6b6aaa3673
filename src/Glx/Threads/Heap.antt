-- ===== src/Glx/Threads/Heap.antt =====
-- The heap of glx.c in every run of the threads: no hook touches a node that is free, and none is
-- lost.
use glgrab.Base.{
  ℕ, ◌≡◌, ◌⊎◌, inl, inr, refl, sym, ap, ◌∙◌, Bool, true, false, List, [], ◌∷◌, Option, none, some,
  ◌≢◌, arith,
}
use glgrab.Glx.{Winmap}
use glgrab.Glx.Threads.{
  Place, outside, made, inserting, inserted, forgetting, removing, removed, freeing, swapping,
  finding, found, read, missed, sizing, World, free_place, found_place, go, Step, create, lock_made,
  insert, unlock_inserted, forget, lock_forgetting, remove, unlock_removed, free, swap,
  lock_swapping, find, load, unlock_read, unlock_missed, size, size_fails, find_node, Run, rest,
  step, start,
}
use glgrab.Glx.Threads.Exclusive.{IsExclusive, critical, equal_or_not, Step-IsExclusive}
use glgrab.Glx.Threads.Memory.{has, has-find_node, has_cons_ne}
use glgrab.Glx.Threads.Safe.{own, fills, answers, IsSafe, plain}
use glgrab.Glx.Threads.Made.{allocate, give_back}
use glgrab.Glx.Threads.Listed.{link, unlink}

free_place-own : (o : Option ℕ) → own (free_place o) ≡ o
free_place-own none = refl
free_place-own (some m) = refl

free_place-fills : (o : Option ℕ) → fills (free_place o) ≡ none
free_place-fills none = refl
free_place-fills (some m) = refl

free_place-answers : (o : Option ℕ) → answers (free_place o) ≡ none
free_place-answers none = refl
free_place-answers (some m) = refl

found_place-own : (w : ℕ) (o : Option ℕ) → own (found_place w o) ≡ none
found_place-own w none = refl
found_place-own w (some m) = refl

found_place-fills : (w : ℕ) (o : Option ℕ) → fills (found_place w o) ≡ none
found_place-fills w none = refl
found_place-fills w (some m) = refl

found_place-answers : (w : ℕ) (o : Option ℕ) → answers (found_place w o) ≡ some (w, o)
found_place-answers w none = refl
found_place-answers w (some m) = refl

-- A thread goes to a place that says nothing of a node.
quiet :
    (c : World) (i : ℕ) (p : Place) (taken : Bool)
    → IsSafe c
    → IsExclusive taken (go c i p)
    → own p ≡ own (c.place i)
    → fills p ≡ fills (c.place i)
    → answers p ≡ none
    → IsSafe (record c { lock = taken; place = go c i p })
quiet c i p taken s ex o f a = plain c i p taken s ex o f (λ w m h. absurd cc)

by_step : {c d : World} → Step c d → IsSafe c → IsExclusive d.lock d.place → IsSafe d
by_step {c} (create i m x e dead) s ex = allocate c i s m x ex (ap own e) dead
by_step {c} (lock_made i m x e open_lock) s ex =
    quiet c i _ true s ex (sym (ap own e)) (sym (ap fills e)) refl
by_step {c} (insert i m x e) s ex = link c i s m ex (ap own e) (ap critical e)
by_step {c} (unlock_inserted i e) s ex =
    quiet c i _ false s ex (sym (ap own e)) (sym (ap fills e)) refl
by_step {c} (forget i w e) s ex = quiet c i _ c.lock s ex (sym (ap own e)) (sym (ap fills e)) refl
by_step {c} (lock_forgetting i w e open_lock) s ex =
    quiet c i _ true s ex (sym (ap own e)) (sym (ap fills e)) refl
by_step {c} (remove i w e) s ex = unlink c i s w _ ex e refl
by_step {c} (unlock_removed i o e) s ex =
    quiet c i _ false s ex (free_place-own o ∙ sym (ap own e))
      (free_place-fills o ∙ sym (ap fills e)) (free_place-answers o)
by_step {c} (free i m e) s ex = give_back c i s m ex (ap own e)
by_step {c} (swap i w e) s ex = quiet c i _ c.lock s ex (sym (ap own e)) (sym (ap fills e)) refl
by_step {c} (lock_swapping i w e open_lock) s ex =
    quiet c i _ true s ex (sym (ap own e)) (sym (ap fills e)) refl
by_step {c} (find i w e) s ex =
    let o = find_node c.node c.list w in
    plain c i _ c.lock s ex (found_place-own w o ∙ sym (ap own e))
      (found_place-fills w o ∙ sym (ap fills e))
      (λ v n h.
        let same : some (w, o) ≡ some (v, n) = sym (found_place-answers w o) ∙ h in
        let at : w ≡ v = cc in let it : o ≡ n = cc in ap (find_node c.node c.list) (sym at) ∙ it)
by_step {c} (load i w m e) s ex = quiet c i _ c.lock s ex (sym (ap own e)) (sym (ap fills e)) refl
by_step {c} (unlock_read i x e) s ex =
    quiet c i _ false s ex (sym (ap own e)) (sym (ap fills e)) refl
by_step {c} (unlock_missed i w e) s ex =
    quiet c i _ false s ex (sym (ap own e)) (sym (ap fills e)) refl
by_step {c} (size i w m b e dead) s ex = allocate c i s m _ ex (ap own e) dead
by_step {c} (size_fails i w e) s ex =
    quiet c i _ c.lock s ex (sym (ap own e)) (sym (ap fills e)) refl

Step-IsSafe : {c d : World} → Step c d → IsSafe c → IsSafe d
Step-IsSafe st s = by_step st s (Step-IsExclusive st s.exclusive)

start-IsSafe : (node : ℕ → Winmap) → IsSafe (start node)
start-IsSafe node = record {
  exclusive = inl (refl, λ i. refl);
  distinct = refl;
  linked = λ m h. absurd cc;
  own_alive = λ i m h. absurd cc;
  own_out = λ i m h. refl;
  own_apart = λ i j m h h'. absurd cc;
  filled = λ i m x h. absurd cc;
  answered = λ i w m h. absurd cc;
  kept = λ m h. absurd cc;
}

pub Run-IsSafe : (node : ℕ → Winmap) {c : World} → Run (start node) c → IsSafe c
Run-IsSafe node rest = start-IsSafe node
Run-IsSafe node (step r s) = Step-IsSafe s (Run-IsSafe node r)

-- The nodes that the next step of a thread in this place may read, write or free.
-- LIST_INSERT_HEAD also writes to the node that was first, and the walk of find_x11 reads until it
-- finds one; LIST_REMOVE writes to two neighbours in the list.
abbrev pub touched : List ℕ → Place → List ℕ
touched l (inserting m x) = m ∷ l
touched l (removing w) = l
touched l (freeing m) = m ∷ []
touched l (finding w) = l
touched l (found w m) = m ∷ []
touched l p = []

has_one : (m n : ℕ) → has m (n ∷ []) ≡ true → n ≡ m
has_one m n h = ground arith

IsSafe-touched :
    (c : World) (i m : ℕ) (p : Place)
    → IsSafe c
    → c.place i ≡ p
    → has m (touched c.list p) ≡ true
    → c.alive m ≡ true
IsSafe-touched c i m (inserting n x) s at h = elim (equal_or_not n m) [
  | inl e ↦ s.own_alive i m (ap own at ∙ ap (λ (t : ℕ). some t) e)
  | inr ne ↦ s.linked m (has_cons_ne n m c.list ne ∙ h)
]
IsSafe-touched c i m (removing w) s at h = s.linked m h
IsSafe-touched c i m (freeing n) s at h =
    s.own_alive i m (ap own at ∙ ap (λ (t : ℕ). some t) (has_one m n h))
IsSafe-touched c i m (finding w) s at h = s.linked m h
IsSafe-touched c i m (found w n) s at h = s.linked m (
    has-find_node c.node c.list w m
      (s.answered i w (some n) (ap answers at) ∙ ap (λ (t : ℕ). some t) (has_one m n h)))
IsSafe-touched c i m outside s at h = absurd cc
IsSafe-touched c i m (made n x) s at h = absurd cc
IsSafe-touched c i m inserted s at h = absurd cc
IsSafe-touched c i m (forgetting w) s at h = absurd cc
IsSafe-touched c i m (removed o) s at h = absurd cc
IsSafe-touched c i m (swapping w) s at h = absurd cc
IsSafe-touched c i m (read x) s at h = absurd cc
IsSafe-touched c i m (missed w) s at h = absurd cc
IsSafe-touched c i m (sizing w) s at h = absurd cc

-- Whichever threads call the hooks of glx.c, and in whichever order their accesses come: when a
-- thread comes to link a node, to walk through the list, to take a node out of it, to load the x11
-- of the node that it found or to free a node, each node that it reads, writes or frees is one that
-- `malloc` has given out and that has not been freed since.
pub Run-touched :
    (node : ℕ → Winmap) {c : World} (i m : ℕ)
    → Run (start node) c
    → has m (touched c.list (c.place i)) ≡ true
    → c.alive m ≡ true
Run-touched node {c} i m r h = IsSafe-touched c i m (c.place i) (Run-IsSafe node r) refl h

-- No entry is lost, and none has two owners: a node that is not free is in the list and with no
-- thread, or it is not in the list and exactly one thread has it, which is about to link it, or has
-- taken it out and is about to free it; `j` is any thread.
pub Run-kept :
    (node : ℕ → Winmap) {c : World} (m j : ℕ)
    → Run (start node) c
    → c.alive m ≡ true
    → ((has m c.list ≡ true) × (own (c.place j) ≢ some m))
      ⊎ ((i : ℕ) × (own (c.place i) ≡ some m)
          × (has m c.list ≡ false)
          × ((j ≡ i) ⊎ (own (c.place j) ≢ some m)))
Run-kept node {c} m j r live =
    let s = Run-IsSafe node r in
    elim (s.kept m live) [
      | inl h ↦ inl (h, λ e. absurd (let clash : true ≡ false = sym h ∙ s.own_out j m e in cc))
      | inr (i, e) ↦ inr (
        i,
        e,
        s.own_out i m e,
        elim (equal_or_not j i) [
          | inl same ↦ inl same
          | inr ne ↦ inr (λ e'. ne (s.own_apart j i m e' e))
        ],
      )
    ]

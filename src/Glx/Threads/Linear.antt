-- ===== src/Glx/Threads/Linear.antt =====
-- The threads' hooks of glx.c, seen as the one-step functions of Glx.antt, one after the other.
use mathlib.Core.Option
use glgrab.Base.{
  ℕ, ◌≡◌, refl, sym, ap, ap₂, ◌∙◌, true, false, List, [], ◌∷◌, Option, none, some, map, update,
}
use glgrab.Glx.{Winmap, register_window, find_x11, forget_window}
use glgrab.Glx.Threads.{
  World, Step, create, lock_made, insert, unlock_inserted, forget, lock_forgetting, remove,
  unlock_removed, free, swap, lock_swapping, find, load, unlock_read, unlock_missed, size,
  size_fails, Run, rest, step, start,
}
use glgrab.Glx.Threads.Memory.{has-false}
use glgrab.Glx.Threads.Safe.{answers, fills, IsSafe}
use glgrab.Glx.Threads.Heap.{Run-IsSafe}
use glgrab.Glx.Threads.Entries.{map-update, map-remove_found, find_x11-find_node}

-- What a thread does to the list, or learns from it, while it has the lock.
pub data Operation : Type 0 where
  registers : Winmap → Operation
  forgets : ℕ → Operation
  -- the x11 of the entry for a GLX window, if there is one
  looks : ℕ → Option ℕ → Operation

-- The access that does an operation.
abbrev pub operation : {c d : World} → Step c d → Option Operation
operation (insert i m x e) = some (registers x)
operation (remove i w e) = some (forgets w)
operation {c} (load i w m e) = some (looks w (some (c.node m).x11))
operation (unlock_missed i w e) = some (looks w none)
operation s = none

abbrev pub add_to : Option Operation → List Operation → List Operation
add_to none h = h
add_to (some o) h = o ∷ h

-- The operations of a run, the last one first.
abbrev pub history : {c d : World} → Run c d → List Operation
history rest = []
history (step r s) = add_to (operation s) (history r)

-- The list that one thread alone gets with the functions of Glx.antt.
abbrev pub replay : List Operation → List Winmap
replay [] = []
replay (registers x ∷ h) = register_window true (replay h) x.x11 x.glx
replay (forgets w ∷ h) = forget_window (replay h) w
replay (looks w o ∷ h) = replay h

abbrev pub x11_of : Option Winmap → Option ℕ
x11_of none = none
x11_of (some x) = some x.x11

-- Each look has the answer that find_x11 gives one thread alone.
abbrev pub IsAnswered : List Operation → Type 0
IsAnswered [] = replay [] ≡ []
IsAnswered (registers x ∷ h) = IsAnswered h
IsAnswered (forgets w ∷ h) = IsAnswered h
IsAnswered (looks w o ∷ h) = (o ≡ x11_of (find_x11 (replay h) w)) × IsAnswered h

abbrev pub entries : World → List Winmap
entries c = map c.node c.list

fresh_entries :
    (c : World) (m : ℕ) (x : Winmap)
    → IsSafe c
    → c.alive m ≡ false
    → map (update c.node m x) c.list ≡ entries c
fresh_entries c m x s dead =
    map-update c.node m x c.list (
      has-false m c.list (λ h. absurd (let clash : true ≡ false = sym (s.linked m h) ∙ dead in cc)))

-- The list after a step is the one that the step's operation makes of it.
step-entries :
    {c d : World} (st : Step c d) (h : List Operation)
    → IsSafe c
    → entries c ≡ replay h
    → entries d ≡ replay (add_to (operation st) h)
unfolding register_window
step-entries {c} (create i m x e dead) h s now = fresh_entries c m x s dead ∙ now
step-entries (lock_made i m x e open_lock) h s now = now
step-entries {c} (insert i m x e) h s now =
    ap₂ (λ (y : Winmap) (t : List Winmap). y ∷ t) (s.filled i m x (ap fills e)) now
step-entries (unlock_inserted i e) h s now = now
step-entries (forget i w e) h s now = now
step-entries (lock_forgetting i w e open_lock) h s now = now
step-entries {c} (remove i w e) h s now =
    map-remove_found c.node c.list w ∙ ap (λ t. forget_window t w) now
step-entries (unlock_removed i o e) h s now = now
step-entries (free i m e) h s now = now
step-entries (swap i w e) h s now = now
step-entries (lock_swapping i w e open_lock) h s now = now
step-entries (find i w e) h s now = now
step-entries (load i w m e) h s now = now
step-entries (unlock_read i x e) h s now = now
step-entries (unlock_missed i w e) h s now = now
step-entries {c} (size i w m b e dead) h s now = fresh_entries c m _ s dead ∙ now
step-entries (size_fails i w e) h s now = now

-- What a thread has found while it has the lock is what find_x11 finds in the list as it is.
looked :
    (c : World) (i w : ℕ) (o : Option ℕ) (h : List Operation)
    → IsSafe c
    → entries c ≡ replay h
    → answers (c.place i) ≡ some (w, o)
    → Option.map c.node o ≡ find_x11 (replay h) w
looked c i w o h s now e =
    sym (find_x11-find_node c.node c.list w o (s.answered i w o e)) ∙ ap (λ t. find_x11 t w) now

step-IsAnswered :
    {c d : World} (st : Step c d) (h : List Operation)
    → IsSafe c
    → entries c ≡ replay h
    → IsAnswered h
    → IsAnswered (add_to (operation st) h)
step-IsAnswered (create i m x e dead) h s now a = a
step-IsAnswered (lock_made i m x e open_lock) h s now a = a
step-IsAnswered (insert i m x e) h s now a = a
step-IsAnswered (unlock_inserted i e) h s now a = a
step-IsAnswered (forget i w e) h s now a = a
step-IsAnswered (lock_forgetting i w e open_lock) h s now a = a
step-IsAnswered (remove i w e) h s now a = a
step-IsAnswered (unlock_removed i o e) h s now a = a
step-IsAnswered (free i m e) h s now a = a
step-IsAnswered (swap i w e) h s now a = a
step-IsAnswered (lock_swapping i w e open_lock) h s now a = a
step-IsAnswered (find i w e) h s now a = a
step-IsAnswered {c} (load i w m e) h s now a =
    (ap x11_of (looked c i w (some m) h s now (ap answers e)), a)
step-IsAnswered (unlock_read i x e) h s now a = a
step-IsAnswered {c} (unlock_missed i w e) h s now a =
    (ap x11_of (looked c i w none h s now (ap answers e)), a)
step-IsAnswered (size i w m b e dead) h s now a = a
step-IsAnswered (size_fails i w e) h s now a = a

-- The threads' hooks may overlap in any way: the list is at each point the one that the functions of
-- Glx.antt make, when they are called one after the other in the order in which the threads did
-- LIST_INSERT_HEAD and LIST_REMOVE, and each thread that looked for an entry in take_frame got the
-- answer that find_x11 gives at its place in that order.
pub Run-IsAnswered :
    (node : ℕ → Winmap) {c : World} (r : Run (start node) c)
    → (entries c ≡ replay (history r)) × IsAnswered (history r)
Run-IsAnswered node rest = (refl, refl)
Run-IsAnswered node (step r st) =
    let s = Run-IsSafe node r in
    let (now, a) = Run-IsAnswered node r in
    (step-entries st (history r) s now, step-IsAnswered st (history r) s now a)

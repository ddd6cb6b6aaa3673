-- ===== src/Glx/Threads/Tests.antt =====
-- Two threads on the list of glx.c: one registers a window and forgets it, the other one swaps;
-- and two that swap one drawable for the first time.
use glgrab.Base.{ℕ, ◌≡◌, ◌≢◌, ◌⊎◌, refl, true, false, [], ◌∷◌, map, none, some}
use glgrab.Glx.{Winmap, find_x11, forget_window}
use glgrab.Glx.Threads.{
  World, create, lock_made, insert, unlock_inserted, forget, lock_forgetting, remove, swap,
  lock_swapping, find, load, unlock_read, unlock_missed, size, Run, rest, step, start, find_node,
  remove_found, list_remove,
}
use glgrab.Glx.Threads.Memory.{has}
use glgrab.Glx.Threads.Safe.{own}
use glgrab.Glx.Threads.Heap.{Run-touched, Run-kept}
use glgrab.Glx.Threads.Linear.{
  Run-IsAnswered, IsAnswered, registers, forgets, looks, history, replay, entries,
}

abbrev blank : ℕ → Winmap
blank m = record { x11 = 0; glx = 0 }

abbrev window : Winmap
window = record { x11 = 7; glx = 9 }

-- Thread 1 comes to swap while thread 0 has the lock, and finds the window behind it.
abbrev swapped : (c : World) × Run (start blank) c
unfolding find_node
swapped = (
  _,
  step
      (step
        (step
          (step
            (step
              (step (step rest (create 0 100 window refl refl)) (lock_made 0 100 window refl refl))
              (swap 1 9 refl))
            (insert 0 100 window refl))
          (unlock_inserted 0 refl))
        (lock_swapping 1 9 refl refl))
      (find 1 9 refl),
)

Run-touched_example : swapped.0.alive 100 ≡ true
unfolding swapped
Run-touched_example = Run-touched blank 1 100 swapped.1 refl

-- Thread 0 comes to forget the window meanwhile, and takes it out behind the other one's `unlock`.
abbrev forgotten : (c : World) × Run (start blank) c
unfolding find_node remove_found list_remove swapped
forgotten = (
  _,
  step
      (step
        (step (step (step swapped.1 (load 1 9 100 refl)) (forget 0 9 refl)) (unlock_read 1 7 refl))
        (lock_forgetting 0 9 refl refl))
      (remove 0 9 refl),
)

Run-kept_example :
    ((has 100 forgotten.0.list ≡ true) × (own (forgotten.0.place 1) ≢ some 100))
    ⊎ ((i : ℕ) × (own (forgotten.0.place i) ≡ some 100)
        × (has 100 forgotten.0.list ≡ false)
        × ((1 ≡ i) ⊎ (own (forgotten.0.place 1) ≢ some 100)))
unfolding forgotten
Run-kept_example = Run-kept blank 100 1 forgotten.1 refl

Run-IsAnswered_example :
    (entries forgotten.0 ≡ replay (history forgotten.1)) × IsAnswered (history forgotten.1)
Run-IsAnswered_example = Run-IsAnswered blank forgotten.1

history_example : history forgotten.1 ≡ forgets 9 ∷ looks 9 (some 7) ∷ registers window ∷ []
unfolding forgotten
history_example = refl

-- Two threads swap a drawable that no entry is for: each looks before the other one has registered
-- it, so that it is registered twice, and is found again after one call of forget_window.
abbrev registered_twice : (c : World) × Run (start blank) c
unfolding find_node
registered_twice = (
  _,
  step
      (step
        (step
          (step
            (step
              (step
                (step
                  (step
                    (step
                      (step
                        (step
                          (step
                            (step
                              (step (step (step rest (swap 1 9 refl)) (lock_swapping 1 9 refl refl))
                                (find 1 9 refl))
                              (unlock_missed 1 9 refl))
                            (swap 2 9 refl))
                          (lock_swapping 2 9 refl refl))
                        (find 2 9 refl))
                      (unlock_missed 2 9 refl))
                    (size 1 9 100 true refl refl))
                  (lock_made 1 100 _ refl refl))
                (insert 1 100 _ refl))
              (unlock_inserted 1 refl))
            (size 2 9 200 true refl refl))
          (lock_made 2 200 _ refl refl))
        (insert 2 200 _ refl))
      (unlock_inserted 2 refl),
)

registered_twice_example : map (λ (x : Winmap). x.glx) (entries registered_twice.0) ≡ 9 ∷ 9 ∷ []
unfolding registered_twice
registered_twice_example = refl

still_found : find_x11 (forget_window (entries registered_twice.0) 9) 9 ≢ none
unfolding registered_twice find_x11 forget_window
still_found h = absurd cc

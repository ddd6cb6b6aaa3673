-- ===== src/Glx/Threads/Entries.antt =====
-- The entries of the nodes in the list, under find_x11 and LIST_REMOVE.
use mathlib.Core.Option
use glgrab.Base.{
  ℕ, ◌≡◌, ◌≢◌, inl, inr, refl, sym, ap, ◌∙◌, arith, true, false, List, [], ◌∷◌, Option, none, some,
  some_inj, subst, map, ◌==◌, Bool-cases, update, update_ne,
}
use glgrab.Glx.{Winmap, find_x11, forget_window}
use glgrab.Glx.Threads.{find_node, list_remove, remove_found}
use glgrab.Glx.Threads.Memory.{has}

pub map-update :
    (node : ℕ → Winmap) (m : ℕ) (x : Winmap) (l : List ℕ)
    → has m l ≡ false
    → map (update node m x) l ≡ map node l
map-update node m x [] h = refl
map-update node m x (n ∷ l) h =
    let ne : m ≢ n = λ e. absurd (ground arith) in
    let others = map-update node m x l (ground arith) in rw (update_ne node m n x ne, others) refl

find_node-glx :
    (node : ℕ → Winmap) (l : List ℕ) (w m : ℕ)
    → find_node node l w ≡ some m
    → ((node m).glx == w) ≡ true
unfolding find_node
find_node-glx node [] w m h = absurd cc
find_node-glx node (n ∷ l) w m h = elim (Bool-cases ((node n).glx == w)) [
  | inl e ↦ let at : n ≡ m = some_inj (rw e at h) in subst (λ t. ((node t).glx == w) ≡ true) at e
  | inr e ↦ find_node-glx node l w m (rw e at h)
]

list_remove_tail : (n m : ℕ) (l : List ℕ) → n ≢ m → list_remove m (n ∷ l) ≡ n ∷ list_remove m l
unfolding list_remove
list_remove_tail n m l ne = ground arith

list_remove_first : (n : ℕ) (l : List ℕ) → list_remove n (n ∷ l) ≡ l
unfolding list_remove
list_remove_first n l = ground arith

-- LIST_REMOVE of the node that find_x11 finds.
map-remove_tail :
    (node : ℕ → Winmap) (n : ℕ) (l : List ℕ) (w : ℕ) (o : Option ℕ)
    → find_node node l w ≡ o
    → ((node n).glx == w) ≡ false
    → map node (remove_found o (n ∷ l)) ≡ node n ∷ map node (remove_found o l)
unfolding remove_found
map-remove_tail node n l w none h e = refl
map-remove_tail node n l w (some m) h e = ap (map node) (
    list_remove_tail n m l (λ t. absurd (
      let clash : true ≡ false =
        sym (find_node-glx node l w m h) ∙ ap (λ k. (node k).glx == w) (sym t) ∙ e in
      cc)))

pub map-remove_found :
    (node : ℕ → Winmap) (l : List ℕ) (w : ℕ)
    → map node (remove_found (find_node node l w) l) ≡ forget_window (map node l) w
unfolding find_node remove_found forget_window
map-remove_found node [] w = refl
map-remove_found node (n ∷ l) w = elim (Bool-cases ((node n).glx == w)) [
  | inl e ↦ rw e (ap (map node) (list_remove_first n l))
  | inr e ↦
      let rest = map-remove_found node l w in
      rw e (
        map-remove_tail node n l w (find_node node l w) refl e
        ∙ ap (λ (t : List Winmap). node n ∷ t) rest)
]

pub find_x11-find_node :
    (node : ℕ → Winmap) (l : List ℕ) (w : ℕ) (o : Option ℕ)
    → find_node node l w ≡ o
    → find_x11 (map node l) w ≡ Option.map node o
unfolding find_node find_x11
find_x11-find_node node [] w none h = refl
find_x11-find_node node [] w (some m) h = absurd cc
find_x11-find_node node (n ∷ l) w o h = elim (Bool-cases ((node n).glx == w)) [
  | inl e ↦ rw e (ap (Option.map node) (rw e at h))
  | inr e ↦ rw e (find_x11-find_node node l w o (rw e at h))
]

-- ===== src/Glx/Threads/Memory.antt =====
-- The list of nodes: what find_x11 finds in it, and what LIST_REMOVE leaves.
use glgrab.Base.{
  ℕ, ◌≡◌, ◌≢◌, inl, inr, refl, sym, ◌∙◌, arith, Bool, true, false, ◌||◌, List, [], ◌∷◌, some, ◌==◌,
  Bool-cases, update, update_ne,
}
use glgrab.Glx.{Winmap}
use glgrab.Glx.Threads.{find_node, list_remove}

abbrev pub has : ℕ → List ℕ → Bool
has m [] = false
has m (n ∷ l) = (n == m) || has m l

abbrev pub IsDistinct : List ℕ → Type 0
IsDistinct [] = has 0 [] ≡ false
IsDistinct (m ∷ l) = (has m l ≡ false) × IsDistinct l

pub has_head : (m : ℕ) (l : List ℕ) → has m (m ∷ l) ≡ true
has_head m l = ground arith

pub has-false : (m : ℕ) (l : List ℕ) → has m l ≢ true → has m l ≡ false
has-false m l h = elim (Bool-cases (has m l)) [ inl e ↦ absurd (h e) | inr e ↦ e ]

pub has_cons_ne : (m n : ℕ) (l : List ℕ) → m ≢ n → has n l ≡ has n (m ∷ l)
has_cons_ne m n l ne = ground arith

pub has-find_node :
    (node : ℕ → Winmap) (l : List ℕ) (w m : ℕ) → find_node node l w ≡ some m → has m l ≡ true
unfolding find_node
has-find_node node [] w m h = absurd cc
has-find_node node (n ∷ l) w m h = ground (arith, has-find_node node l w m)

-- A node that is not in the list can be written.
pub find_node-update :
    (node : ℕ → Winmap) (m : ℕ) (x : Winmap) (l : List ℕ) (w : ℕ)
    → has m l ≡ false
    → find_node (update node m x) l w ≡ find_node node l w
unfolding find_node
find_node-update node m x [] w h = refl
find_node-update node m x (n ∷ l) w h =
    let ne : m ≢ n = λ e. absurd (ground arith) in
    let rest = find_node-update node m x l w (ground arith) in
    rw (update_ne node m n x ne, rest) refl

pub has-list_remove_le : (m n : ℕ) (l : List ℕ) → has n (list_remove m l) ≡ true → has n l ≡ true
unfolding list_remove
has-list_remove_le m n [] h = h
has-list_remove_le m n (k ∷ l) h = ground (arith, has-list_remove_le m n l)

pub has-list_remove_self : (m : ℕ) (l : List ℕ) → IsDistinct l → has m (list_remove m l) ≡ false
unfolding list_remove
has-list_remove_self m [] d = refl
has-list_remove_self m (k ∷ l) d = ground (arith, has-list_remove_self m l d.1, d.0)

has_not :
    (m : ℕ) (l l' : List ℕ)
    → (has m l' ≡ true → has m l ≡ true)
    → has m l ≡ false
    → has m l' ≡ false
has_not m l l' f h = elim (Bool-cases (has m l')) [
  | inl e ↦ absurd (let clash = sym (f e) ∙ h in cc)
  | inr e ↦ e
]

pub has-list_remove_not : (m n : ℕ) (l : List ℕ) → has n l ≡ false → has n (list_remove m l) ≡ false
has-list_remove_not m n l h = has_not n l (list_remove m l) (has-list_remove_le m n l) h

pub has-list_remove_ne :
    (m n : ℕ) (l : List ℕ) → n ≢ m → has n l ≡ true → has n (list_remove m l) ≡ true
unfolding list_remove
has-list_remove_ne m n [] ne h = h
has-list_remove_ne m n (k ∷ l) ne h = ground (arith, has-list_remove_ne m n l ne)

pub list_remove-IsDistinct : (m : ℕ) (l : List ℕ) → IsDistinct l → IsDistinct (list_remove m l)
unfolding list_remove
list_remove-IsDistinct m [] d = d
list_remove-IsDistinct m (k ∷ l) (out, d) = elim (Bool-cases (k == m)) [
  | inl e ↦ rw e d
  | inr e ↦
      rw e
        (has_not k l (list_remove m l) (has-list_remove_le m k l) out, list_remove-IsDistinct m l d)
]

-- ===== src/Glx/Threads.antt =====
-- glx.c with threads that call the hooks at the same time: the spin lock, the list of windows as
-- nodes on the heap, and one access after the other. The words `prev` and `next` of a node are kept
-- as its place in the list.
pub mod Exclusive
pub mod Memory
pub mod Safe
pub mod Moves
pub mod Made
pub mod Listed
pub mod Entries
pub mod Heap
pub mod Linear
mod Tests
use glgrab.Base.{
  ℕ, ◌≡◌, ◌≢◌, Bool, true, false, List, [], ◌∷◌, Option, none, some, ◌==◌, if◌then◌else◌, update,
}
use glgrab.Glx.{Winmap}

-- Where a thread is, with its local variables. The work between `lock` and `unlock` on the list is
-- in the places `inserting`, `inserted`, `removing`, `removed`, `finding`, `found`, `read` and
-- `missed`.
pub data Place : Type 0 where
  -- in no function that works on the list
  outside : Place
  -- register_window: `m` is filled in; `lock` comes, LIST_INSERT_HEAD, `unlock`
  made : ℕ → Winmap → Place
  inserting : ℕ → Winmap → Place
  inserted : Place
  -- forget_window: `lock` comes, find_x11 and LIST_REMOVE, `unlock`, `free`
  forgetting : ℕ → Place
  removing : ℕ → Place
  removed : Option ℕ → Place
  freeing : ℕ → Place
  -- take_frame: `lock` comes, find_x11, the load of m->x11, `unlock`
  swapping : ℕ → Place
  finding : ℕ → Place
  found : ℕ → ℕ → Place
  read : ℕ → Place
  missed : ℕ → Place
  -- behind that `unlock` where no entry was found
  sizing : ℕ → Place

-- `list` has the addresses of the nodes, and `alive` says which addresses `malloc` has given out and
-- `free` has not got back.
pub record World : Type 0 where
  pub lock : Bool
  pub list : List ℕ
  pub node : ℕ → Winmap
  pub alive : ℕ → Bool
  pub place : ℕ → Place

-- The walk of find_x11 over the nodes.
unfoldable pub find_node : (ℕ → Winmap) → List ℕ → ℕ → Option ℕ
find_node node [] glxwin = none
find_node node (m ∷ l) glxwin =
    let rest = find_node node l glxwin in if (node m).glx == glxwin then some m else rest

-- LIST_REMOVE, which changes the neighbours of `m`.
unfoldable pub list_remove : ℕ → List ℕ → List ℕ
list_remove m [] = []
list_remove m (n ∷ l) = let rest = list_remove m l in if n == m then l else n ∷ rest

-- `if (m != NULL) LIST_REMOVE(m, list)`
unfoldable pub remove_found : Option ℕ → List ℕ → List ℕ
unfolding list_remove
remove_found none l = l
remove_found (some m) l = list_remove m l

-- `if (m != NULL) free(m)` is where a thread goes behind the `unlock` of forget_window.
abbrev pub free_place : Option ℕ → Place
free_place none = outside
free_place (some m) = freeing m

-- `if (m == NULL)` of take_frame
abbrev pub found_place : ℕ → Option ℕ → Place
found_place w none = missed w
found_place w (some m) = found w m

-- The entry that take_frame makes; an x11 of 0 is None.
abbrev pub sized : Bool → ℕ → Winmap
sized is_window w = record { x11 = if is_window then w else 0; glx = w }

abbrev pub go : World → ℕ → Place → ℕ → Place
go c i p = update c.place i p

-- One step of the thread `i`: an access to the lock, or work on the list behind it. The macros
-- LIST_INSERT_HEAD and LIST_REMOVE and the walk of find_x11 are one step each, and so are `malloc`
-- and the entry filled in, before another thread knows of it. `create` is the call of
-- register_window for glXCreateWindow, for any window, `forget` one of forget_window, `swap` one of
-- take_frame, whose further work has nothing to do with the list. An exchange in `lock` that finds
-- the lock taken changes nothing, and is no step; nor is a `malloc` that returns NULL for
-- glXCreateWindow.
pub data Step (c : World) : World → Type 0 where
  create :
      (i m : ℕ) (x : Winmap)
      → c.place i ≡ outside
      → c.alive m ≡ false
      → Step c (record c {
        node = update c.node m x;
        alive = update c.alive m true;
        place = go c i (made m x);
      })
  lock_made :
      (i m : ℕ) (x : Winmap)
      → c.place i ≡ made m x
      → c.lock ≡ false
      → Step c (record c { lock = true; place = go c i (inserting m x) })
  insert :
      (i m : ℕ) (x : Winmap)
      → c.place i ≡ inserting m x
      → Step c (record c { list = m ∷ c.list; place = go c i inserted })
  unlock_inserted :
      (i : ℕ) → c.place i ≡ inserted → Step c (record c { lock = false; place = go c i outside })
  forget : (i w : ℕ) → c.place i ≡ outside → Step c (record c { place = go c i (forgetting w) })
  lock_forgetting :
      (i w : ℕ)
      → c.place i ≡ forgetting w
      → c.lock ≡ false
      → Step c (record c { lock = true; place = go c i (removing w) })
  remove :
      (i w : ℕ)
      → c.place i ≡ removing w
      → Step c (record c {
        list = remove_found (find_node c.node c.list w) c.list;
        place = go c i (removed (find_node c.node c.list w));
      })
  unlock_removed :
      (i : ℕ) (o : Option ℕ)
      → c.place i ≡ removed o
      → Step c (record c { lock = false; place = go c i (free_place o) })
  free :
      (i m : ℕ)
      → c.place i ≡ freeing m
      → Step c (record c { alive = update c.alive m false; place = go c i outside })
  swap : (i w : ℕ) → c.place i ≡ outside → Step c (record c { place = go c i (swapping w) })
  lock_swapping :
      (i w : ℕ)
      → c.place i ≡ swapping w
      → c.lock ≡ false
      → Step c (record c { lock = true; place = go c i (finding w) })
  find :
      (i w : ℕ)
      → c.place i ≡ finding w
      → Step c (record c { place = go c i (found_place w (find_node c.node c.list w)) })
  load :
      (i w m : ℕ)
      → c.place i ≡ found w m
      → Step c (record c { place = go c i (read (c.node m).x11) })
  unlock_read :
      (i x : ℕ) → c.place i ≡ read x → Step c (record c { lock = false; place = go c i outside })
  unlock_missed :
      (i w : ℕ)
      → c.place i ≡ missed w
      → Step c (record c { lock = false; place = go c i (sizing w) })
  -- get_window_size_safe has answered whether the drawable is a window, and `malloc` the address
  -- `m`, or NULL.
  size :
      (i w m : ℕ) (is_window : Bool)
      → c.place i ≡ sizing w
      → c.alive m ≡ false
      → Step c (record c {
        node = update c.node m (sized is_window w);
        alive = update c.alive m true;
        place = go c i (made m (sized is_window w));
      })
  size_fails : (i w : ℕ) → c.place i ≡ sizing w → Step c (record c { place = go c i outside })

pub data Run (c : World) : World → Type 0 where
  rest : Run c c
  step : {d e : World} → Run c d → Step d e → Run c e

-- `glx` as it is before the first hook.
abbrev pub start : (ℕ → Winmap) → World
start node = record {
  lock = false;
  list = [];
  node = node;
  alive = λ m. false;
  place = λ i. outside;
}

-- ===== src/Glx.antt =====
-- glx.c: the list of the GLX windows and the X windows that they stand for. Each function holds
-- the lock for its whole work on the list, so that it is one step.
pub mod Windows
pub mod Swap
pub mod Run
pub mod Threads
mod Tests
use glgrab.Base.{ℕ, Bool, List, [], ◌∷◌, Option, none, some, ◌==◌, if◌then◌else◌}

-- `struct winmap`
pub record Winmap : Type 0 where
  pub x11 : ℕ
  pub glx : ℕ

-- `malloc_works` says that `malloc` has not returned NULL.
unfoldable pub register_window : Bool → List Winmap → ℕ → ℕ → List Winmap
register_window malloc_works l win glxwin =
    if malloc_works then record { x11 = win; glx = glxwin } ∷ l else l

-- The first entry for the GLX window; `none` is NULL.
unfoldable pub find_x11 : List Winmap → ℕ → Option Winmap
find_x11 [] glxwin = none
find_x11 (m ∷ l) glxwin = let rest = find_x11 l glxwin in if m.glx == glxwin then some m else rest

-- The entry that `find_x11` finds is taken out.
unfoldable pub forget_window : List Winmap → ℕ → List Winmap
forget_window [] glxwin = []
forget_window (m ∷ l) glxwin =
    let rest = forget_window l glxwin in if m.glx == glxwin then l else m ∷ rest

-- `glgrab_glXCreateWindow`: `real` is what the X server's function returns; 0 is None.
unfoldable pub glgrab_glx_create_window : Bool → List Winmap → ℕ → ℕ → List Winmap
glgrab_glx_create_window malloc_works l win real =
    if real == 0 then l else register_window malloc_works l win real

-- `glgrab_glXDestroyWindow`, past the call of `real`
unfoldable pub glgrab_glx_destroy_window : List Winmap → ℕ → List Winmap
glgrab_glx_destroy_window l window = forget_window l window

-- `glgrab_XDestroyWindow`, past the call of `real`: its argument is an X window.
unfoldable pub glgrab_x_destroy_window : List Winmap → ℕ → List Winmap
glgrab_x_destroy_window l window = forget_window l window

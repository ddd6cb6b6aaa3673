-- ===== src/Glx/Windows.antt =====
-- The list of windows as a map from GLX windows to X windows.
use glgrab.Base.{
  ℕ, ◌≡◌, ◌≢◌, inl, inr, refl, sym, ◌∙◌, true, List, [], ◌∷◌, none, some, ◌==◌, Bool-cases, ==_iff,
  ==_of_eq, ==_of_ne,
}
use glgrab.Glx.{
  Winmap, register_window, find_x11, forget_window, glgrab_glx_create_window,
  glgrab_glx_destroy_window, glgrab_x_destroy_window,
}

-- No two entries are for one GLX window.
abbrev pub IsUnique : List Winmap → Type 0
IsUnique [] = find_x11 [] 0 ≡ none
IsUnique (m ∷ l) = (find_x11 l m.glx ≡ none) × IsUnique l

-- A GLX window that was made, and for which there was memory, is found with its X window; what is
-- found for another one is as before.
pub create_window-find_x11 :
    (l : List Winmap) (win glxwin other : ℕ)
    → glxwin ≢ 0
    → other ≢ glxwin
    → let l' = glgrab_glx_create_window true l win glxwin in
      (find_x11 l' glxwin ≡ some (record { x11 = win; glx = glxwin }))
      × (find_x11 l' other ≡ find_x11 l other)
unfolding glgrab_glx_create_window register_window find_x11
create_window-find_x11 l win glxwin other ne apart =
    rw (==_of_ne glxwin 0 ne)
      (rw (==_of_eq glxwin glxwin refl) refl, rw (==_of_ne glxwin other (λ e. apart (sym e))) refl)

-- Forgetting a GLX window leaves what is found for the others, in any list.
forget_window_others :
    (l : List Winmap) (glxwin other : ℕ)
    → other ≢ glxwin
    → find_x11 (forget_window l glxwin) other ≡ find_x11 l other
unfolding find_x11 forget_window
forget_window_others [] glxwin other apart = refl
forget_window_others (m ∷ l) glxwin other apart = elim (Bool-cases (m.glx == glxwin)) [
  | inl e ↦ rw (e, ==_of_ne m.glx other (λ h. apart (sym h ∙ (==_iff m.glx glxwin).0 e))) refl
  | inr e ↦ rw (e, forget_window_others l glxwin other apart) refl
]

forget_window_self :
    (l : List Winmap) (glxwin : ℕ) → IsUnique l → find_x11 (forget_window l glxwin) glxwin ≡ none
unfolding find_x11 forget_window
forget_window_self [] glxwin h = refl
forget_window_self (m ∷ l) glxwin h = elim (Bool-cases (m.glx == glxwin)) [
  | inl e ↦ rw (e, ← (==_iff m.glx glxwin).0 e) h.0
  | inr e ↦ rw (e, e) (forget_window_self l glxwin h.1)
]

-- Where no two entries are for one GLX window, one that `glgrab_glXDestroyWindow` is called for is
-- no longer found, and what is found for another one is as before.
pub destroy_window-find_x11 :
    (l : List Winmap) (glxwin other : ℕ)
    → IsUnique l
    → other ≢ glxwin
    → let l' = glgrab_glx_destroy_window l glxwin in
      (find_x11 l' glxwin ≡ none) × (find_x11 l' other ≡ find_x11 l other)
unfolding glgrab_glx_destroy_window
destroy_window-find_x11 l glxwin other h apart =
    (forget_window_self l glxwin h, forget_window_others l glxwin other apart)

-- glXCreateWindow has made a GLX window for the X window win, and there was memory for the entry.
-- Of the two windows, which have different numbers, glgrab_XDestroyWindow takes the entry out for
-- the GLX one, so that the list is what it was before; for the X window, which XDestroyWindow is
-- called with, the entry stays, and is found as before.
pub x_destroy_window-create_window :
    (l : List Winmap) (win glxwin : ℕ)
    → glxwin ≢ 0
    → win ≢ glxwin
    → let made = glgrab_glx_create_window true l win glxwin in
      (glgrab_x_destroy_window made glxwin ≡ l)
      × (find_x11 (glgrab_x_destroy_window made win) glxwin
          ≡ some (record { x11 = win; glx = glxwin }))
unfolding glgrab_x_destroy_window glgrab_glx_create_window register_window forget_window find_x11
x_destroy_window-create_window l win glxwin ne apart =
    rw (==_of_ne glxwin 0 ne, ==_of_ne glxwin win (λ e. apart (sym e)))
      (rw (==_of_eq glxwin glxwin refl) (refl, refl))

-- ===== src/Glx/Swap.antt =====
-- glx.c, the hooks for glXSwapBuffers and glXDestroyContext.
use mathlib.Core.Option
use glgrab.Base.{ℕ, Bool, false, not, ◌&&◌, List, Option, none, some, ◌==◌, if◌then◌else◌}
use glgrab.Grab.{Glgrab, glgrab_destroy}
use glgrab.Glx.{Winmap, register_window, find_x11}
use glgrab.Context.{HookEnv, claim_and_take, release_context}

-- `struct glxgrab`; its lock is free between the steps.
pub record GlxGrab : Type 0 where
  pub gl : Glgrab
  pub winmap : List Winmap
  pub ctx : ℕ

-- What one swap finds outside: what XGetGeometry stores, and whether the error handler is called.
pub record SwapEnv (S : Type 0) : Type 0 where
  pub hook : HookEnv S
  pub malloc_works : Bool
  pub geometry : ℕ × ℕ
  pub x_error : Bool

module _ {S : Type 0} (env : SwapEnv S) where
  -- The sizes as they are stored, and what is returned.
  unfoldable pub get_window_size_safe : Bool × (ℕ × ℕ)
  get_window_size_safe = (not env.x_error, env.geometry)

  -- The first part of `take_frame`, for what `find_x11` has returned: the size of the window, or
  -- none for an early return, and the list of windows. 0 is None.
  unfoldable pub window_size : Option Winmap → ℕ → List Winmap → Option (ℕ × ℕ) × List Winmap
  unfolding get_window_size_safe
  window_size none drawable l =
      let (ok, size) = get_window_size_safe in
      let window = if ok then drawable else 0 in
      let l' = register_window env.malloc_works l window drawable in
      if window == 0 then (none, l') else (some size, l')
  window_size (some m) drawable l = if m.x11 == 0 then (none, l) else (some env.geometry, l)

  -- The second part. The first component says whether `glgrab_take_frame` was called; the outer
  -- `none` is that of `glgrab_take_frame`.
  unfoldable pub take_sized : ℕ → Option (ℕ × ℕ) → GlxGrab → Option (Bool × GlxGrab)
  take_sized ctx none g = some (false, g)
  take_sized ctx (some size) g =
      Option.map (λ t. (t.0, record g { ctx = t.1; gl = t.2 }))
        (claim_and_take env.hook ctx (some size) g.ctx g.gl)

  unfoldable pub take_frame : ℕ → ℕ → GlxGrab → Option (Bool × GlxGrab)
  take_frame ctx drawable g =
      let (size, l) = window_size (find_x11 g.winmap drawable) drawable g.winmap in
      take_sized ctx size (record g { winmap = l })

  -- `current` is the context, `draw` and `read` are the drawables that GLX has bound.
  unfoldable pub glgrab_glx_swap_buffers : ℕ → ℕ → ℕ → ℕ → GlxGrab → Option (Bool × GlxGrab)
  glgrab_glx_swap_buffers current draw read drawable g =
      if not (current == 0) && draw == drawable && read == drawable
      then take_frame current drawable g
      else some (false, g)

unfoldable pub glgrab_glx_destroy_context : ℕ → GlxGrab → GlxGrab
glgrab_glx_destroy_context ctx g = record g { ctx = release_context ctx g.ctx }

-- At the end of the process.
unfoldable pub destroy : ℕ → GlxGrab → GlxGrab
destroy pagesize g = record g { gl = (glgrab_destroy pagesize g.gl).1 }

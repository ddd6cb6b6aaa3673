-- ===== src/Egl.antt =====
-- egl.c: the hooks for eglSwapBuffers and eglDestroyContext. 0 stands for EGL_NO_CONTEXT.
pub mod Run
mod Tests
use mathlib.Core.Option
use glgrab.Base.{ℕ, Bool, true, false, not, ◌&&◌, Option, none, some, ◌==◌, if◌then◌else◌}
use glgrab.Grab.{Glgrab, glgrab_destroy}
use glgrab.Context.{HookEnv, claim_and_take, release_context}

-- `struct eglgrab`
pub record EglGrab : Type 0 where
  pub gl : Glgrab
  pub ctx : ℕ

-- What one swap finds outside: the two answers of eglQuerySurface, none for EGL_FALSE.
pub record EglEnv (S : Type 0) : Type 0 where
  pub hook : HookEnv S
  pub width : Option ℕ
  pub height : Option ℕ

-- The size of the surface, if both questions are answered.
unfoldable pub surface_size : Option ℕ → Option ℕ → Option (ℕ × ℕ)
surface_size none height = none
surface_size (some width) none = none
surface_size (some width) (some height) = some (width, height)

module _ {S : Type 0} (env : EglEnv S) where
  -- The grabber is claimed before the size is asked for.
  unfoldable pub egl_take_frame : ℕ → EglGrab → Option (Bool × EglGrab)
  egl_take_frame ctx g =
      Option.map (λ t. (t.0, record { gl = t.2; ctx = t.1 }))
        (claim_and_take env.hook ctx (surface_size env.width env.height) g.ctx g.gl)

  -- `is_opengl` says that eglQueryAPI answers EGL_OPENGL_API; `current`, `read` and `draw` are what
  -- EGL has bound.
  unfoldable pub glgrab_egl_swap_buffers : Bool → ℕ → ℕ → ℕ → ℕ → EglGrab → Option (Bool × EglGrab)
  glgrab_egl_swap_buffers is_opengl current read draw surface g =
      if is_opengl && (not (current == 0) && read == surface && draw == surface)
      then egl_take_frame current g
      else some (false, g)

-- `res` says that the real function returned EGL_TRUE.
unfoldable pub glgrab_egl_destroy_context : Bool → ℕ → EglGrab → EglGrab
glgrab_egl_destroy_context res ctx g =
    if res then record g { ctx = release_context ctx g.ctx } else g

-- At the end of the process.
unfoldable pub egl_destroy : ℕ → EglGrab → EglGrab
egl_destroy pagesize g = record g { gl = (glgrab_destroy pagesize g.gl).1 }

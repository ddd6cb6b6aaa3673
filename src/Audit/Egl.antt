-- ===== src/Audit/Egl.antt =====
-- audit-egl.c: the tables for EGL, and the functions that are given out.
use Prim.Native.String.{String}
use glgrab.Base.{List, [], ◌∷◌}
use glgrab.Audit.{
  Func, fake_egl_swap_buffers, fake_egl_destroy_context, fake_egl_get_proc_address, Sub, Hook,
  Variables, Invocation, apply_sub, dispatch,
}
use glgrab.Audit.Glx.{entry}

abbrev pub egl_hooks : List Hook
egl_hooks =
    record { name = "glgrab_eglSwapBuffers"; hook = "glgrab_eglSwapBuffers" }
    ∷ record { name = "glgrab_eglDestroyContext"; hook = "glgrab_eglDestroyContext" }
    ∷ []

abbrev pub egl_subs : List Sub
egl_subs =
    entry "eglGetProcAddress" "real_eglGetProcAddress" fake_egl_get_proc_address
    ∷ entry "eglSwapBuffers" "real_eglSwapBuffers" fake_egl_swap_buffers
    ∷ entry "eglDestroyContext" "real_eglDestroyContext" fake_egl_destroy_context
    ∷ []

unfoldable pub run_egl_swap_buffers : Variables → Invocation
run_egl_swap_buffers vars = dispatch (vars "glgrab_eglSwapBuffers") (vars "real_eglSwapBuffers")

unfoldable pub run_egl_destroy_context : Variables → Invocation
run_egl_destroy_context vars =
    dispatch (vars "glgrab_eglDestroyContext") (vars "real_eglDestroyContext")

-- `call f name` is what the function `f` of EGL answers for `name`.
unfoldable pub run_egl_get_proc_address :
    (Func → String → Func) → Variables → String → Func × Variables
run_egl_get_proc_address call vars procname =
    apply_sub egl_subs vars procname (call (vars "real_eglGetProcAddress") procname)

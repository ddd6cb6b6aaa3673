-- ===== src/Audit/Glx.antt =====
-- audit-glx.c: the tables for GLX, and the functions that are given out.
use Prim.Native.String.{String}
use glgrab.Base.{List, [], ◌∷◌}
use glgrab.Audit.{
  Func, Fake, fake, fake_glx_swap_buffers, fake_glx_destroy_context, fake_glx_create_window,
  fake_glx_destroy_window, fake_x_destroy_window, fake_glx_get_proc_address,
  fake_glx_get_proc_address_arb, Sub, Hook, Variables, Invocation, apply_sub, dispatch,
}

abbrev pub hooks : List Hook
hooks =
    record { name = "glgrab_glXSwapBuffers"; hook = "glgrab_glXSwapBuffers" }
    ∷ record { name = "glgrab_glXDestroyContext"; hook = "glgrab_glXDestroyContext" }
    ∷ record { name = "glgrab_glXCreateWindow"; hook = "glgrab_glXCreateWindow" }
    ∷ record { name = "glgrab_glXDestroyWindow"; hook = "glgrab_glXDestroyWindow" }
    ∷ record { name = "glgrab_XDestroyWindow"; hook = "glgrab_XDestroyWindow" }
    ∷ []

abbrev pub entry : String → String → Fake → Sub
entry name real f = record { name = name; real = real; fake = fake f }

abbrev pub subs : List Sub
subs =
    entry "glXGetProcAddress" "real_glXGetProcAddress" fake_glx_get_proc_address
    ∷ entry "glXGetProcAddressARB" "real_glXGetProcAddressARB" fake_glx_get_proc_address_arb
    ∷ entry "glXSwapBuffers" "real_glXSwapBuffers" fake_glx_swap_buffers
    ∷ entry "glXDestroyContext" "real_glXDestroyContext" fake_glx_destroy_context
    ∷ entry "glXCreateWindow" "real_glXCreateWindow" fake_glx_create_window
    ∷ entry "glXDestroyWindow" "real_glXDestroyWindow" fake_glx_destroy_window
    ∷ entry "XDestroyWindow" "real_XDestroyWindow" fake_x_destroy_window
    ∷ []

unfoldable pub run_swap_buffers : Variables → Invocation
run_swap_buffers vars = dispatch (vars "glgrab_glXSwapBuffers") (vars "real_glXSwapBuffers")

unfoldable pub run_destroy_context : Variables → Invocation
run_destroy_context vars =
    dispatch (vars "glgrab_glXDestroyContext") (vars "real_glXDestroyContext")

unfoldable pub run_create_window : Variables → Invocation
run_create_window vars = dispatch (vars "glgrab_glXCreateWindow") (vars "real_glXCreateWindow")

unfoldable pub run_destroy_window : Variables → Invocation
run_destroy_window vars = dispatch (vars "glgrab_glXDestroyWindow") (vars "real_glXDestroyWindow")

unfoldable pub run_x_destroy_window : Variables → Invocation
run_x_destroy_window vars = dispatch (vars "glgrab_XDestroyWindow") (vars "real_XDestroyWindow")

-- `call f name` is what the function `f` of GLX answers for `name`.
module _ (call : Func → String → Func) (vars : Variables) (procname : String) where
  unfoldable pub run_get_proc_address : Func × Variables
  run_get_proc_address =
      apply_sub subs vars procname (call (vars "real_glXGetProcAddress") procname)

  unfoldable pub run_get_proc_address_arb : Func × Variables
  run_get_proc_address_arb =
      apply_sub subs vars procname (call (vars "real_glXGetProcAddressARB") procname)

-- ===== src/Preload/Tests.antt =====
-- The constructor of glx.c in a process where one hook is missing.
use text.Mathlib.Text.{◌==◌ as str_eq}
use glgrab.Base.{◌≡◌, refl, true, [], ◌∷◌, none, some, if◌then◌else◌}
use glgrab.Audit.{Variables, null, address, la_symbind}
use glgrab.Audit.Bindings.{glx, glx_create_window, reach}
use glgrab.Preload.{Symbols, bind_hook, glx_init, dlsym, failed_to_bind}
use glgrab.Preload.Bound.{learn_all, init-la_symbind}

abbrev nothing : Variables
nothing v = null

abbrev some_hooks : Symbols
some_hooks name = if str_eq name "glgrab_XDestroyWindow" then none else some 7

init-la_symbind_example :
    let vars = learn_all glx some_hooks nothing (glx_init true some_hooks) in
    let (f, vars') = la_symbind glx.hooks glx.subs vars "glXCreateWindow" (address 5) in
    reach f vars' ≡ some (record { called = address 7; before = some (address 5) })
init-la_symbind_example = init-la_symbind nothing glx_create_window some_hooks 7 (address 5) refl

complains :
    bind_hook some_hooks "glgrab_XDestroyWindow"
    ≡ dlsym "glgrab_XDestroyWindow" ∷ failed_to_bind "glgrab_XDestroyWindow" ∷ []
unfolding bind_hook
complains = refl

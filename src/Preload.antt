-- ===== src/Preload.antt =====
-- The constructors of glx.c and egl.c, which look up the hooks in their own process so that the
-- audit library gets to know them.
pub mod Bound
mod Tests
use Prim.Native.String.{String}
use glgrab.Base.{ℕ, Bool, List, [], ◌∷◌, ◌++◌, Option, none, some, if◌then◌else◌}

-- The calls of the dynamic linker, and the messages with what they are about.
pub data PreloadCall : Type 0 where
  dlopen_self : PreloadCall
  dlsym : String → PreloadCall
  failed_to_bind : String → PreloadCall
  failed_to_dlopen : PreloadCall
  dlclose : PreloadCall

-- `symbols` is what dlsym answers; `none` is NULL.
abbrev pub Symbols : Type 0
Symbols = String → Option ℕ

abbrev pub complaint : Option ℕ → String → List PreloadCall
complaint none name = failed_to_bind name ∷ []
complaint (some a) name = []

unfoldable pub bind_hook : Symbols → String → List PreloadCall
bind_hook symbols name = dlsym name ∷ complaint (symbols name) name

abbrev pub bind_hooks : Symbols → List String → List PreloadCall
bind_hooks symbols [] = dlclose ∷ []
bind_hooks symbols (name ∷ names) = bind_hook symbols name ++ bind_hooks symbols names

-- `opens` says that dlopen has not returned NULL.
unfoldable pub glx_init : Bool → Symbols → List PreloadCall
glx_init opens symbols =
    dlopen_self
    ∷ (if opens
        then bind_hooks symbols (
            "glgrab_glXSwapBuffers" ∷ "glgrab_glXDestroyContext" ∷ "glgrab_glXCreateWindow"
            ∷ "glgrab_glXDestroyWindow" ∷ "glgrab_XDestroyWindow" ∷ [])
        else failed_to_dlopen ∷ [])

unfoldable pub egl_init : Bool → Symbols → List PreloadCall
egl_init opens symbols =
    dlopen_self
    ∷ (if opens
        then bind_hooks symbols ("glgrab_eglSwapBuffers" ∷ "glgrab_eglDestroyContext" ∷ [])
        else failed_to_dlopen ∷ [])

-- ===== src/Preload/Bound.antt =====
-- The constructors of glx.c and egl.c under the audit: from then on the hooks are called.
use Prim.Native.String.{String}
use glgrab.Base.{
  inl, inr, sym, ℕ, ◌≡◌, refl, ap, ◌∙◌, Bool, true, List, [], ◌∷◌, ◌++◌, Option, none, some,
}
use glgrab.Audit.{null, Func, address, Variables, la_symbind, apply_sub, dispatch}
use glgrab.Audit.Bindings.{
  Symbol, glx_swap_buffers, glx_destroy_context, glx_create_window, glx_destroy_window,
  x_destroy_window, egl_swap_buffers, egl_destroy_context, symbol_name, hook_name, Library, library,
  reach, la_symbind-reach,
}
use glgrab.Preload.{
  PreloadCall, dlsym, Symbols, complaint, bind_hook, bind_hooks, glx_init, egl_init,
}

-- What comes of a symbol that dlsym finds: the linker, by its documentation, asks la_symbind of the
-- audit library also for a binding by dlsym.
abbrev pub learn : Library → Option ℕ → Variables → String → Variables
learn lib none vars name = vars
learn lib (some a) vars name = (la_symbind lib.hooks lib.subs vars name (address a)).1

abbrev pub learn_all : Library → Symbols → Variables → List PreloadCall → Variables
learn_all lib symbols vars [] = vars
learn_all lib symbols vars (dlsym name ∷ calls) =
    learn_all lib symbols (learn lib (symbols name) vars name) calls
learn_all lib symbols vars (call ∷ calls) = learn_all lib symbols vars calls

-- The constructor of the library that has the hook.
abbrev pub init : Symbol → Bool → Symbols → List PreloadCall
init egl_swap_buffers = egl_init
init egl_destroy_context = egl_init
init s = glx_init

learn_all-complaint :
    (lib : Library) (symbols : Symbols) (vars : Variables) (o : Option ℕ) (name : String)
    (calls : List PreloadCall)
    → learn_all lib symbols vars (complaint o name ++ calls) ≡ learn_all lib symbols vars calls
learn_all-complaint lib symbols vars none name calls = refl
learn_all-complaint lib symbols vars (some a) name calls = refl

learn_names : Library → Symbols → Variables → List String → Variables
learn_names lib symbols vars [] = vars
learn_names lib symbols vars (name ∷ names) =
    learn_names lib symbols (learn lib (symbols name) vars name) names

learn_all-bind_hooks :
    (lib : Library) (symbols : Symbols) (vars : Variables) (names : List String)
    → learn_all lib symbols vars (bind_hooks symbols names) ≡ learn_names lib symbols vars names
unfolding learn_names bind_hook
learn_all-bind_hooks lib symbols vars [] = refl
learn_all-bind_hooks lib symbols vars (name ∷ names) =
    learn_all-complaint lib symbols (learn lib (symbols name) vars name) (symbols name) name
      (bind_hooks symbols names)
    ∙ learn_all-bind_hooks lib symbols (learn lib (symbols name) vars name) names

-- A lookup of another name leaves a variable as it is.
learn_other :
    (lib : Library) (o : Option ℕ) (vars : Variables) (name v : String)
    → ((a : ℕ) → (la_symbind lib.hooks lib.subs vars name (address a)).1 v ≡ vars v)
    → learn lib o vars name v ≡ vars v
learn_other lib none vars name v h = refl
learn_other lib (some a) vars name v h = h a

-- Of each name, la_symbind leaves this variable as it is.
abbrev IsApart : Library → String → List String → Type 0
IsApart lib v [] = Unit
IsApart lib v (name ∷ names) =
    ((vars : Variables) (a : ℕ)
      → (la_symbind lib.hooks lib.subs vars name (address a)).1 v ≡ vars v)
    × IsApart lib v names

learn_names-IsApart :
    (lib : Library) (symbols : Symbols) (v : String) (names : List String) (vars : Variables)
    → IsApart lib v names
    → learn_names lib symbols vars names v ≡ vars v
unfolding learn_names
learn_names-IsApart lib symbols v [] vars h = refl
learn_names-IsApart lib symbols v (name ∷ names) vars h =
    learn_names-IsApart lib symbols v names (learn lib (symbols name) vars name) h.1
    ∙ learn_other lib (symbols name) vars name v (h.0 vars)

-- The variable that a lookup sets keeps its value in the lookups that come then.
learn_names_here :
    (lib : Library) (symbols : Symbols) (v name : String) (names : List String) (vars : Variables)
    (a : ℕ)
    → symbols name ≡ some a
    → ((vars : Variables) → (la_symbind lib.hooks lib.subs vars name (address a)).1 v ≡ address a)
    → IsApart lib v names
    → learn_names lib symbols vars (name ∷ names) v ≡ address a
unfolding learn_names
learn_names_here lib symbols v name names vars a e here apart =
    learn_names-IsApart lib symbols v names (learn lib (symbols name) vars name) apart
    ∙ ap (λ (o : Option ℕ). learn lib o vars name v) e
    ∙ here vars

-- So does it in a constructor, whatever is looked up before.
bind_hooks-learn_all :
    (lib : Library) (symbols : Symbols) (before : List String) (name : String) (names : List String)
    (vars : Variables) (a : ℕ)
    → symbols name ≡ some a
    → ((vars : Variables)
        → (la_symbind lib.hooks lib.subs vars name (address a)).1 name ≡ address a)
    → IsApart lib name names
    → learn_all lib symbols vars (bind_hooks symbols (before ++ name ∷ names)) name ≡ address a
unfolding bind_hook
bind_hooks-learn_all lib symbols [] name names vars a e here apart =
    ap (λ (t : Variables). t name) (learn_all-bind_hooks lib symbols vars (name ∷ names))
    ∙ learn_names_here lib symbols name name names vars a e here apart
bind_hooks-learn_all lib symbols (b ∷ before) name names vars a e here apart =
    ap (λ (t : Variables). t name)
      (learn_all-complaint lib symbols (learn lib (symbols b) vars b) (symbols b) b
        (bind_hooks symbols (before ++ name ∷ names)))
    ∙ bind_hooks-learn_all lib symbols before name names (learn lib (symbols b) vars b) a e here
        apart

-- Each hook's variable gets the address that dlsym has found.
init-learn_all :
    (vars : Variables) (s : Symbol) (symbols : Symbols) (a : ℕ)
    → symbols (hook_name s) ≡ some a
    → learn_all (library s) symbols vars (init s true symbols) (hook_name s) ≡ address a
unfolding glx_init egl_init la_symbind apply_sub
init-learn_all vars glx_swap_buffers symbols a h =
    bind_hooks-learn_all (library glx_swap_buffers) symbols [] "glgrab_glXSwapBuffers"
      ("glgrab_glXDestroyContext" ∷ "glgrab_glXCreateWindow" ∷ "glgrab_glXDestroyWindow"
        ∷ "glgrab_XDestroyWindow" ∷ [])
      vars a h (λ w. refl) (λ w b. refl, (λ w b. refl, (λ w b. refl, (λ w b. refl, tt))))
init-learn_all vars glx_destroy_context symbols a h =
    bind_hooks-learn_all (library glx_destroy_context) symbols ("glgrab_glXSwapBuffers" ∷ [])
      "glgrab_glXDestroyContext"
      ("glgrab_glXCreateWindow" ∷ "glgrab_glXDestroyWindow" ∷ "glgrab_XDestroyWindow" ∷ []) vars a h
      (λ w. refl) (λ w b. refl, (λ w b. refl, (λ w b. refl, tt)))
init-learn_all vars glx_create_window symbols a h =
    bind_hooks-learn_all (library glx_create_window) symbols
      ("glgrab_glXSwapBuffers" ∷ "glgrab_glXDestroyContext" ∷ []) "glgrab_glXCreateWindow"
      ("glgrab_glXDestroyWindow" ∷ "glgrab_XDestroyWindow" ∷ []) vars a h (λ w. refl)
      (λ w b. refl, (λ w b. refl, tt))
init-learn_all vars glx_destroy_window symbols a h =
    bind_hooks-learn_all (library glx_destroy_window) symbols
      ("glgrab_glXSwapBuffers" ∷ "glgrab_glXDestroyContext" ∷ "glgrab_glXCreateWindow" ∷ [])
      "glgrab_glXDestroyWindow" ("glgrab_XDestroyWindow" ∷ []) vars a h (λ w. refl)
      (λ w b. refl, tt)
init-learn_all vars x_destroy_window symbols a h =
    bind_hooks-learn_all (library x_destroy_window) symbols
      ("glgrab_glXSwapBuffers" ∷ "glgrab_glXDestroyContext" ∷ "glgrab_glXCreateWindow"
        ∷ "glgrab_glXDestroyWindow" ∷ [])
      "glgrab_XDestroyWindow" [] vars a h (λ w. refl) tt
init-learn_all vars egl_swap_buffers symbols a h =
    bind_hooks-learn_all (library egl_swap_buffers) symbols [] "glgrab_eglSwapBuffers"
      ("glgrab_eglDestroyContext" ∷ []) vars a h (λ w. refl) (λ w b. refl, tt)
init-learn_all vars egl_destroy_context symbols a h =
    bind_hooks-learn_all (library egl_destroy_context) symbols ("glgrab_eglSwapBuffers" ∷ [])
      "glgrab_eglDestroyContext" [] vars a h (λ w. refl) tt

-- Where the constructor of glx.c or egl.c runs under the audit, and dlsym finds a hook, at the
-- address `a`, whichever of the other hooks it finds: from then on a program that the linker binds
-- the hook's symbol for, to the function `real`, calls the hook, with `real` before its own
-- arguments.
pub init-la_symbind :
    (vars : Variables) (s : Symbol) (symbols : Symbols) (a : ℕ) (real : Func)
    → symbols (hook_name s) ≡ some a
    → let vars' = learn_all (library s) symbols vars (init s true symbols) in
      let (f, vars'') = la_symbind (library s).hooks (library s).subs vars' (symbol_name s) real in
      reach f vars'' ≡ some (record { called = address a; before = some real })
unfolding dispatch
init-la_symbind vars s symbols a real h =
    let vars' = learn_all (library s) symbols vars (init s true symbols) in
    let set : vars' (hook_name s) ≡ address a = init-learn_all vars s symbols a h in
    elim (la_symbind-reach vars' s real (λ f n. real) refl).0 [
      | inl (no_hook, _) ↦ absurd (let clash : address a ≡ null = sym set ∙ no_hook in cc)
      | inr (hook, reached) ↦ rw (← set) reached
    ]

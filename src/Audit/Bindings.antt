-- ===== src/Audit/Bindings.antt =====
-- What a program gets for a symbol, and what happens when it calls it.
use Prim.Native.String.{String}
use text.Mathlib.Text.{◌==◌ as str_eq}
use glgrab.Base.{◌≡◌, ◌≢◌, ◌⊎◌, inl, inr, ap, ◌∙◌, refl, false, Option, none, some, List, [], ◌∷◌}
use glgrab.Audit.{
  Func, null, address, fake, fake_glx_swap_buffers, fake_glx_destroy_context,
  fake_glx_create_window, fake_glx_destroy_window, fake_x_destroy_window, fake_egl_swap_buffers,
  fake_egl_destroy_context, Sub, Hook, Variables, Invocation, apply_sub, la_symbind, dispatch,
}
use glgrab.Audit.Glx
use glgrab.Audit.Glx.{
  run_swap_buffers, run_destroy_context, run_create_window, run_destroy_window,
  run_x_destroy_window, run_get_proc_address,
}
use glgrab.Audit.Egl.{
  egl_hooks, egl_subs, run_egl_swap_buffers, run_egl_destroy_context, run_egl_get_proc_address,
}

-- What a program reaches by a function that was bound: itself, or what the fake calls. The fakes
-- for glXGetProcAddress are not followed.
abbrev pub reach : Func → Variables → Option Invocation
reach (fake fake_glx_swap_buffers) vars = some (run_swap_buffers vars)
reach (fake fake_glx_destroy_context) vars = some (run_destroy_context vars)
reach (fake fake_glx_create_window) vars = some (run_create_window vars)
reach (fake fake_glx_destroy_window) vars = some (run_destroy_window vars)
reach (fake fake_x_destroy_window) vars = some (run_x_destroy_window vars)
reach (fake fake_egl_swap_buffers) vars = some (run_egl_swap_buffers vars)
reach (fake fake_egl_destroy_context) vars = some (run_egl_destroy_context vars)
reach _ vars = none

-- The symbols that have a hook.
pub data Symbol : Type 0 where
  glx_swap_buffers : Symbol
  glx_destroy_context : Symbol
  glx_create_window : Symbol
  glx_destroy_window : Symbol
  x_destroy_window : Symbol
  egl_swap_buffers : Symbol
  egl_destroy_context : Symbol

abbrev pub symbol_name : Symbol → String
symbol_name glx_swap_buffers = "glXSwapBuffers"
symbol_name glx_destroy_context = "glXDestroyContext"
symbol_name glx_create_window = "glXCreateWindow"
symbol_name glx_destroy_window = "glXDestroyWindow"
symbol_name x_destroy_window = "XDestroyWindow"
symbol_name egl_swap_buffers = "eglSwapBuffers"
symbol_name egl_destroy_context = "eglDestroyContext"

abbrev pub hook_name : Symbol → String
hook_name glx_swap_buffers = "glgrab_glXSwapBuffers"
hook_name glx_destroy_context = "glgrab_glXDestroyContext"
hook_name glx_create_window = "glgrab_glXCreateWindow"
hook_name glx_destroy_window = "glgrab_glXDestroyWindow"
hook_name x_destroy_window = "glgrab_XDestroyWindow"
hook_name egl_swap_buffers = "glgrab_eglSwapBuffers"
hook_name egl_destroy_context = "glgrab_eglDestroyContext"

-- The two audit libraries: the tables, the function that programs ask for symbols, and the fake
-- that they ask in its place.
pub record Library : Type 0 where
  pub hooks : List Hook
  pub subs : List Sub
  pub asked : String
  pub ask : (Func → String → Func) → Variables → String → Func × Variables

abbrev pub glx : Library
glx = record {
  hooks = Glx.hooks;
  subs = Glx.subs;
  asked = "real_glXGetProcAddress";
  ask = run_get_proc_address;
}

abbrev pub egl : Library
egl = record {
  hooks = egl_hooks;
  subs = egl_subs;
  asked = "real_eglGetProcAddress";
  ask = run_egl_get_proc_address;
}

abbrev pub library : Symbol → Library
library egl_swap_buffers = egl
library egl_destroy_context = egl
library _ = glx

dispatch-cases :
    (hook real : Func)
    → ((hook ≡ null) × (dispatch hook real ≡ record { called = real; before = none }))
      ⊎ ((hook ≢ null) × (dispatch hook real ≡ record { called = hook; before = some real }))
unfolding dispatch
dispatch-cases null real = inl (refl, refl)
dispatch-cases (address a) real = inr ((λ e. cc), refl)
dispatch-cases (fake f) real = inr ((λ e. cc), refl)

-- What is reached through `dispatch`, and that asking answers the same.
dispatch-reach :
    (vars : Variables) (s : Symbol) (real : Func) (call : Func → String → Func)
    → call (vars (library s).asked) (symbol_name s) ≡ real
    → let (f, vars') = la_symbind (library s).hooks (library s).subs vars (symbol_name s) real in
      (reach f vars' ≡ some (dispatch (vars (hook_name s)) real))
      × ((library s).ask call vars (symbol_name s) ≡ (f, vars'))
unfolding la_symbind apply_sub run_swap_buffers run_destroy_context run_create_window
    run_destroy_window run_x_destroy_window run_get_proc_address run_egl_swap_buffers
    run_egl_destroy_context run_egl_get_proc_address
dispatch-reach vars glx_swap_buffers real call e = (refl, rw (e) refl)
dispatch-reach vars glx_destroy_context real call e = (refl, rw (e) refl)
dispatch-reach vars glx_create_window real call e = (refl, rw (e) refl)
dispatch-reach vars glx_destroy_window real call e = (refl, rw (e) refl)
dispatch-reach vars x_destroy_window real call e = (refl, rw (e) refl)
dispatch-reach vars egl_swap_buffers real call e = (refl, rw (e) refl)
dispatch-reach vars egl_destroy_context real call e = (refl, rw (e) refl)

-- A program that the linker binds one of these symbols for, to the function real, calls the hook
-- with real before its own arguments if the variable of the hook is not NULL, and real alone, as
-- if it were not audited, if it is. It is the same for a program that asks glXGetProcAddress or
-- eglGetProcAddress for the symbol, where these answer real.
pub la_symbind-reach :
    (vars : Variables) (s : Symbol) (real : Func) (call : Func → String → Func)
    → call (vars (library s).asked) (symbol_name s) ≡ real
    → let (f, vars') = la_symbind (library s).hooks (library s).subs vars (symbol_name s) real in
      (((vars (hook_name s) ≡ null)
          × (reach f vars' ≡ some (record { called = real; before = none })))
        ⊎ ((vars (hook_name s) ≢ null)
            × (reach f vars' ≡ some (record { called = vars (hook_name s); before = some real }))))
      × ((library s).ask call vars (symbol_name s) ≡ (f, vars'))
la_symbind-reach vars s real call e =
    let (reached, asked) = dispatch-reach vars s real call e in
    (
      elim (dispatch-cases (vars (hook_name s)) real) [
        | inl (no_hook, d) ↦ inl (no_hook, reached ∙ ap (λ (t : Invocation). some t) d)
        | inr (hook, d) ↦ inr (hook, reached ∙ ap (λ (t : Invocation). some t) d)
      ],
      asked,
    )

-- No entry of the tables has this name.
abbrev pub IsUnlisted : List Hook → List Sub → String → Type 0
IsUnlisted [] [] name = Unit
IsUnlisted [] (p ∷ subs) name = (str_eq name p.name ≡ false) × IsUnlisted [] subs name
IsUnlisted (p ∷ hooks) subs name = (str_eq name p.name ≡ false) × IsUnlisted hooks subs name

-- A symbol that no table has is bound as it would be without the audit, and no variable changes.
pub la_symbind_unlisted :
    (hooks : List Hook) (subs : List Sub) (vars : Variables) (name : String) (value : Func)
    → IsUnlisted hooks subs name
    → la_symbind hooks subs vars name value ≡ (value, vars)
unfolding la_symbind apply_sub
la_symbind_unlisted [] [] vars name value h = refl
la_symbind_unlisted [] (p ∷ subs) vars name value h =
    rw (h.0) (la_symbind_unlisted [] subs vars name value h.1)
la_symbind_unlisted (p ∷ hooks) subs vars name value h =
    rw (h.0) (la_symbind_unlisted hooks subs vars name value h.1)

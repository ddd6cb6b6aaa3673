-- ===== src/Audit.antt =====
-- audit.c and audit.h: the library that the dynamic linker asks at each binding of a symbol. It
-- gives out its own function for the symbols of a table, and keeps the real one in a variable.
pub mod Glx
pub mod Egl
pub mod Bindings
pub mod Objopen
mod Tests
use Prim.Native.String.{String}
use text.Mathlib.Text.{◌==◌ as str_eq}
use glgrab.Base.{ℕ, Bool, true, false, Option, none, some, List, [], ◌∷◌, if◌then◌else◌}

-- The functions `fake_…` of audit-glx.c and audit-egl.c.
pub data Fake : Type 0 where
  fake_glx_swap_buffers : Fake
  fake_glx_destroy_context : Fake
  fake_glx_create_window : Fake
  fake_glx_destroy_window : Fake
  fake_x_destroy_window : Fake
  fake_glx_get_proc_address : Fake
  fake_glx_get_proc_address_arb : Fake
  fake_egl_swap_buffers : Fake
  fake_egl_destroy_context : Fake
  fake_egl_get_proc_address : Fake

-- `func_p`: NULL, a function of another library, by its address, or one of these.
pub data Func : Type 0 where
  null : Func
  address : ℕ → Func
  fake : Fake → Func

-- The static variables that hold functions, by their names. NULL is what they start with.
abbrev pub Variables : Type 0
Variables = String → Func

abbrev pub set_variable : Variables → String → Func → Variables
set_variable vars name f v = if str_eq name v then f else vars v

-- `struct sub` and `struct hook`; `real` and `hook` name the variable that is pointed to.
pub record Sub : Type 0 where
  pub name : String
  pub real : String
  pub fake : Func

pub record Hook : Type 0 where
  pub name : String
  pub hook : String

-- The loop over `subs`, up to the entry without a name.
unfoldable pub apply_sub : List Sub → Variables → String → Func → Func × Variables
apply_sub [] vars name real = (real, vars)
apply_sub (p ∷ subs) vars name real =
    let rest = apply_sub subs vars name real in
    if str_eq name p.name then (p.fake, set_variable vars p.real real) else rest

-- The loop over `hooks`, and then `apply_sub`. `value` is sym->st_value.
unfoldable pub la_symbind : List Hook → List Sub → Variables → String → Func → Func × Variables
la_symbind [] subs vars symname value = apply_sub subs vars symname value
la_symbind (p ∷ hooks) subs vars symname value =
    let rest = la_symbind hooks subs vars symname value in
    if str_eq symname p.name then (value, set_variable vars p.hook value) else rest

-- Which function a fake calls with its own arguments, and the function that it puts before them.
pub record Invocation : Type 0 where
  pub called : Func
  pub before : Option Func

-- `if (glgrab_f) glgrab_f(real_f, …) else real_f(…)`
unfoldable pub dispatch : Func → Func → Invocation
dispatch null real = record { called = real; before = none }
dispatch hook real = record { called = hook; before = some real }

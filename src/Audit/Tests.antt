-- ===== src/Audit/Tests.antt =====
-- The audit at concrete bindings.
use Prim.Native.String.{String}
use glgrab.Base.{◌≡◌, ◌≢◌, ◌⊎◌, refl, none, some}
use glgrab.Audit.{Func, null, address, Variables, la_symbind, dispatch, set_variable}
use glgrab.Audit.Bindings.{reach, glx, glx_create_window, la_symbind-reach}

abbrev no_functions : Variables
no_functions v = null

abbrev hooked : Variables
hooked = set_variable no_functions "glgrab_glXCreateWindow" (address 7)

abbrev lookup_five : Func → String → Func
lookup_five f name = address 5

la_symbind-reach_example :
    let (f, vars') = la_symbind glx.hooks glx.subs hooked "glXCreateWindow" (address 5) in
    (((address 7 ≡ null) × (reach f vars' ≡ some (record { called = address 5; before = none })))
      ⊎ ((address 7 ≢ null)
          × (reach f vars' ≡ some (record { called = address 7; before = some (address 5) }))))
    × (glx.ask lookup_five hooked "glXCreateWindow" ≡ (f, vars'))
la_symbind-reach_example = la_symbind-reach hooked glx_create_window (address 5) lookup_five refl

calls_hook :
    dispatch (address 7) (address 5) ≡ record { called = address 7; before = some (address 5) }
unfolding dispatch
calls_hook = refl

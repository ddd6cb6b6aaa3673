-- ===== src/Cuda/Resources.antt =====
-- What the CUDA engine holds after its functions.
use glgrab.Base.{
  ℕ, ◌≡◌, ◌⊎◌, inl, inr, refl, Bool, true, false, ◌&&◌, List, [], ◌∷◌, Option, none, some, ◌==◌,
  ==_of_eq, if◌then◌else◌,
}
use glgrab.Cuda.{
  CudaMembers, CudaCall, stream_create, graphics_gl_register_image, host_alloc, free_host,
  graphics_unregister_resource, stream_destroy, graphics_map_resources, graphics_unmap_resources,
  Given, Answered, cuda_init, cuda_cleanup, cuda_shoot,
}

pub record Held : Type 0 where
  pub stream : Option ℕ
  pub resource : Option ℕ
  pub host : Option ℕ
  pub mapped : Option ℕ

abbrev pub nothing_held : Held
nothing_held = record { stream = none; resource = none; host = none; mapped = none }

-- What is still held when `x` is given back.
abbrev pub given_back : ℕ → Option ℕ → Option ℕ
given_back x none = none
given_back x (some y) = if y == x then none else some y

-- What a call that succeeds does, by the runtime's documentation.
pub call_effect : CudaCall → Held → Held
call_effect (stream_create s) h = record h { stream = some s }
call_effect (graphics_gl_register_image r tex) h = record h { resource = some r }
call_effect (host_alloc p size) h = record h { host = some p }
call_effect (free_host p) h = record h { host = given_back p h.host }
call_effect (graphics_unregister_resource r) h = record h { resource = given_back r h.resource }
call_effect (stream_destroy s) h = record h { stream = given_back s h.stream }
call_effect (graphics_map_resources r s) h = record h { mapped = some r }
call_effect (graphics_unmap_resources r s) h = record h { mapped = given_back r h.mapped }
call_effect _ h = h

pub held_after : List Answered → Held → Held
held_after [] h = h
held_after ((call, ok) ∷ calls) h = held_after calls (if ok then call_effect call h else h)

abbrev given : Bool → ℕ → Given
given ok value = record { ok = ok; value = value }

-- Where `cuda_init` succeeds, a cleanup whose calls succeed gives back exactly what it has got, and
-- leaves no pointer to it. Where it fails, it has not got the host memory, and keeps the stream and
-- the resource if it has got them.
pub cuda_init-held_after :
    (creates registers allocs : Bool) (s r p tex size : ℕ) (g : CudaMembers)
    → let (ok, g', calls) =
        cuda_init (given creates s) (given registers r) (given allocs p) tex size g in
      let got = held_after calls nothing_held in
      let (g'', calls') = cuda_cleanup true true true g' in
      ((ok ≡ true)
        × (held_after calls' got ≡ nothing_held)
        × (g'' ≡ record { stream = 0; resource = 0; p_host = 0 }))
      ⊎ ((ok ≡ false)
          × (got ≡ record {
            stream = if creates then some s else none;
            resource = if creates && registers then some r else none;
            host = none;
            mapped = none;
          }))
unfolding cuda_init cuda_cleanup held_after call_effect
cuda_init-held_after true true true s r p tex size g =
    inl (refl, rw (==_of_eq s s refl, ==_of_eq r r refl, ==_of_eq p p refl) refl, refl)
cuda_init-held_after true true false s r p tex size g = inr (refl, refl)
cuda_init-held_after true false a s r p tex size g = inr (refl, refl)
cuda_init-held_after false b a s r p tex size g = inr (refl, refl)

-- Where `cuda_shoot` returns true, the resource is mapped no more; where it returns false, it is
-- still mapped if it was mapped at all.
pub cuda_shoot-held_after :
    (maps has_array has_pointer copies unmaps : Bool) (a p : ℕ) (g : CudaMembers)
    (width height pitch : ℕ)
    → let (ok, calls) =
        cuda_shoot maps
          (given has_array a)
          (given has_pointer p)
          copies
          unmaps
          g
          width
          height
          pitch in
      let still = (held_after calls nothing_held).mapped in
      ((ok ≡ true) × (still ≡ none))
      ⊎ ((ok ≡ false) × (still ≡ (if maps then some g.resource else none)))
unfolding cuda_shoot held_after call_effect
cuda_shoot-held_after false e f i u a p g w h pitch = inr (refl, refl)
cuda_shoot-held_after true false f i u a p g w h pitch = inr (refl, refl)
cuda_shoot-held_after true true false i u a p g w h pitch = inr (refl, refl)
cuda_shoot-held_after true true true false u a p g w h pitch = inr (refl, refl)
cuda_shoot-held_after true true true true false a p g w h pitch = inr (refl, refl)
cuda_shoot-held_after true true true true true a p g w h pitch =
    inl (refl, rw (==_of_eq g.resource g.resource refl) refl)

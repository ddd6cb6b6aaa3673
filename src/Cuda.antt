-- ===== src/Cuda.antt =====
-- cuda.c: the CUDA engine. What each call of the CUDA runtime answers is an argument, true for
-- cudaSuccess; the messages on failures are left out.
pub mod Resources
mod Tests
use glgrab.Base.{ℕ, ◌*◌, ◌&&◌, Bool, true, false, List, [], ◌∷◌, ◌++◌, map, if◌then◌else◌}
use glgrab.Mrb.{u64, shr}
use glgrab.Yuv.{rgba2yuv420p}
use glgrab.Grab.{Frame, width_align, height_align}

-- The member `cuda` of `struct glgrab`. 0 is NULL.
pub record CudaMembers : Type 0 where
  pub stream : ℕ
  pub resource : ℕ
  pub p_host : ℕ

-- The calls, by their names without the prefix `cuda`, with what they take. What a call stores
-- through its first argument stands there in place of it; the flags, the zero offsets and the label
-- of a call are left out.
pub data CudaCall : Type 0 where
  stream_create : ℕ → CudaCall
  graphics_gl_register_image : ℕ → ℕ → CudaCall
  host_alloc : ℕ → ℕ → CudaCall
  free_host : ℕ → CudaCall
  graphics_unregister_resource : ℕ → CudaCall
  stream_destroy : ℕ → CudaCall
  graphics_map_resources : ℕ → ℕ → CudaCall
  graphics_sub_resource_get_mapped_array : ℕ → ℕ → CudaCall
  host_get_device_pointer : ℕ → ℕ → CudaCall
  memcpy_2d_from_array_async : ℕ → ℕ → ℕ → ℕ → ℕ → ℕ → CudaCall
  graphics_unmap_resources : ℕ → ℕ → CudaCall

abbrev pub Answered : Type 0
Answered = CudaCall × Bool

-- The answer to a call, and what is stored through its first argument then.
pub record Given : Type 0 where
  pub ok : Bool
  pub value : ℕ

-- Calls each of which is made if those before it have succeeded: whether all have, and the calls
-- that were made, with their answers.
unfoldable pub while_success : List Answered → Bool × List Answered
while_success [] = (true, [])
while_success ((call, ok) ∷ calls) =
    let (success, made) = while_success calls in
    if ok then (success, (call, ok) ∷ made) else (false, (call, ok) ∷ [])

unfoldable pub cuda_init :
    Given → Given → Given → ℕ → ℕ → CudaMembers → Bool × CudaMembers × List Answered
unfolding while_success
cuda_init created registered allocated tex size g =
    let (success, made) = while_success (
      (stream_create created.value, created.ok)
      ∷ (graphics_gl_register_image registered.value tex, registered.ok)
      ∷ (host_alloc allocated.value size, allocated.ok)
      ∷ []) in
    (
      success,
      record {
        stream = created.value;
        resource = if created.ok then registered.value else g.resource;
        p_host = if created.ok && registered.ok then allocated.value else g.p_host;
      },
      made,
    )

-- No answer is looked at.
unfoldable pub cuda_cleanup : Bool → Bool → Bool → CudaMembers → CudaMembers × List Answered
cuda_cleanup frees unregisters destroys g = (
  record { stream = 0; resource = 0; p_host = 0 },
  (free_host g.p_host, frees)
      ∷ (graphics_unregister_resource g.resource, unregisters)
      ∷ (stream_destroy g.stream, destroys)
      ∷ [],
)

-- The copy is from the array to the device's pointer, with the pitch and the size in bytes.
unfoldable pub cuda_shoot :
    Bool → Given → Given → Bool → Bool → CudaMembers → ℕ → ℕ → ℕ → Bool × List Answered
unfolding while_success
cuda_shoot maps array p_dev copies unmaps g width height pitch = while_success (
    (graphics_map_resources g.resource g.stream, maps)
    ∷ (graphics_sub_resource_get_mapped_array array.value g.resource, array.ok)
    ∷ (host_get_device_pointer p_dev.value g.p_host, p_dev.ok)
    ∷ (
      memcpy_2d_from_array_async p_dev.value (u64 (pitch * 4)) array.value (u64 (width * 4)) height
          g.stream,
      copies,
    )
    ∷ (graphics_unmap_resources g.resource g.stream, unmaps)
    ∷ [])

-- `host` is the memory at `p_host`, and `yuv` that of the frame's pixels.
unfoldable pub cuda_copy : Bool → Frame → (ℕ → ℕ) → (ℕ → ℕ) → Bool × (ℕ → ℕ)
cuda_copy synchronizes f host yuv =
    if synchronizes
    then (
      true,
      rgba2yuv420p host (shr f.padded_width width_align) (shr f.padded_height height_align) yuv,
    )
    else (false, yuv)

-- ===== src/Cuda/Tests.antt =====
-- The CUDA engine at concrete answers.
use glgrab.Base.{◌≡◌, ◌⊎◌, true, false, none, some}
use glgrab.Cuda.{CudaMembers, cuda_init, cuda_cleanup, cuda_shoot}
use glgrab.Cuda.Resources.{nothing_held, held_after, cuda_init-held_after, cuda_shoot-held_after}

abbrev members : CudaMembers
members = record { stream = 5; resource = 6; p_host = 7 }

cuda_init-held_after_example :
    let (ok, g', calls) =
      cuda_init
        (record { ok = true; value = 5 })
        (record { ok = true; value = 6 })
        (record { ok = false; value = 0 })
        3
        4096
        members in
    let got = held_after calls nothing_held in
    let (g'', calls') = cuda_cleanup true true true g' in
    ((ok ≡ true)
      × (held_after calls' got ≡ nothing_held)
      × (g'' ≡ record { stream = 0; resource = 0; p_host = 0 }))
    ⊎ ((ok ≡ false)
        × (got ≡ record { stream = some 5; resource = some 6; host = none; mapped = none }))
cuda_init-held_after_example = cuda_init-held_after true true false 5 6 0 3 4096 members

cuda_shoot-held_after_example :
    let (ok, calls) =
      cuda_shoot true
        (record { ok = true; value = 8 })
        (record { ok = true; value = 9 })
        false
        true
        members
        640
        480
        640 in
    let still = (held_after calls nothing_held).mapped in
    ((ok ≡ true) × (still ≡ none)) ⊎ ((ok ≡ false) × (still ≡ some 6))
cuda_shoot-held_after_example =
    cuda_shoot-held_after true true true false true 8 9 members 640 480 640

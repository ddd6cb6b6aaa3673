-- ===== src/Grab/Tests.antt =====
-- The grabber at concrete inputs.
use glgrab.Base.{
  ℕ, ◌+◌, ◌≡◌, ◌≢◌, ◌⊎◌, inl, refl, arith, Bool, false, Option, none, some, [], ◌∷◌, ◌≤◌, ◌<◌,
  update, update_ne,
}
use glgrab.Mrb.{shr, mrb_item_unpack}
use glgrab.Mrb.Chain.{tail_off, IsValid}
use glgrab.Mrb.Create.{mrb_create, create_mapped, munmap}
use glgrab.Mrb.Created.{IsPage}
use glgrab.Mrb.Session.{Reach, IsSound}
use glgrab.Yuv.{rgba2yuv420p}
use glgrab.Grab.{
  Glgrab, virgin, initializing, ready, in_use, failed, einval, try_lock, compare_exchange,
  frame_size, align, new_frame, glgrab_init, init_locked, glgrab_destroy, glgrab_take_frame,
  width_align, height_align,
}
use glgrab.Grab.Samples.{
  layout_512, no_messages, zeroed, grabber, create_env, write_first, take_env, old_frame,
}
use glgrab.Grab.Align.{frame_size-enough}
use glgrab.Grab.Lifecycle.{glgrab_init_lem, glgrab_init-IsSound, glgrab_destroy-frame}
use glgrab.Grab.Exclusive.{World, Place, Step, Run, IsOwned, Run-IsOwned}
use glgrab.Grab.Lawful.{session, IsBacked, KeepsToMessage, glgrab_take_frame-IsLawful}

no_messages-IsValid : IsValid layout_512 no_messages []
unfolding mrb_item_unpack
no_messages-IsValid = omega arith

four_k : IsPage 4096 12
four_k = omega arith

write_first-keeps : KeepsToMessage write_first
unfolding frame_size
write_first-keeps f q s off inside whole apart =
    update_ne s.word (tail_off q.layout s + 64) off f.width (λ e. ground arith)

grabber-IsSound : IsSound (session grabber none)
grabber-IsSound = record { lens = []; valid = no_messages-IsValid; promise = inl (refl, refl) }

glgrab_take_frame-IsLawful_example :
    (ok : Bool) × (g' : Glgrab) × (glgrab_take_frame take_env 2 2 grabber ≡ some (ok, g'))
    × (g'.state ≡ ready)
    × ((granted' : Option ℕ) × Reach (session grabber none) (session g' granted')
        × IsSound (session g' granted')
        × IsBacked g' granted')
unfolding frame_size align
glgrab_take_frame-IsLawful_example =
    glgrab_take_frame-IsLawful take_env 2 2 write_first-keeps write_first-keeps grabber none refl
      grabber-IsSound (λ f e. cc) (omega arith)

frame_size-enough_example :
    let f = new_frame take_env 33 3 0 grabber in
    rgba2yuv420p
      (λ j. 255)
      (shr f.padded_width width_align)
      (shr f.padded_height height_align)
      (λ j. 0)
      384
    ≡ 0
unfolding frame_size align
frame_size-enough_example =
    frame_size-enough take_env 33 3 0 grabber (λ j. 255) (λ j. 0) 384 (omega arith) (omega arith)

glgrab_init_lem_example :
    let (rc, g', calls) = glgrab_init create_env 9 (record zeroed { state = failed }) 5000 100 in
    let g = record zeroed { state = failed } in
    ((g.state ≡ virgin)
      × (rc ≡ (mrb_create create_env g.rb 5000 100).rc)
      × (((rc ≡ 0) × (g'.state ≡ ready) × (g'.start_time ≡ 9)) ⊎ ((rc ≢ 0) × (g'.state ≡ failed))))
    ⊎ ((g.state ≢ virgin)
        × (g' ≡ g)
        × (calls ≡ [])
        × (((g.state ≡ failed) × (rc ≡ einval)) ⊎ ((g.state ≢ failed) × (rc ≡ 0))))
glgrab_init_lem_example = glgrab_init_lem create_env 9 (record zeroed { state = failed }) 5000 100

init-rc : (glgrab_init create_env 9 zeroed 5000 100).0 ≡ 0
unfolding glgrab_init init_locked compare_exchange mrb_create create_mapped
init-rc = ground arith

glgrab_init-IsSound_example :
    let g' = (glgrab_init create_env 9 zeroed 5000 100).1 in
    (g'.state ≡ ready)
    × IsValid g'.rb.layout g'.shared []
    × IsSound (session g' none)
    × IsBacked g' none
glgrab_init-IsSound_example =
    glgrab_init-IsSound create_env 9 zeroed 5000 100 12 refl refl refl four_k (omega arith)
      (omega arith) (omega arith) init-rc

abbrev with_frame : Glgrab
with_frame = record grabber { frame = some old_frame }

again-rc : (glgrab_init create_env 9 (glgrab_destroy 4096 with_frame).1 5000 100).0 ≡ 0
unfolding glgrab_destroy try_lock glgrab_init init_locked compare_exchange mrb_create create_mapped
again-rc = ground arith

glgrab_destroy-frame_example :
    let (_, gone, calls) = glgrab_destroy 4096 with_frame in
    let (_, again, _) = glgrab_init create_env 9 gone 5000 100 in
    ((a : ℕ) × (n : ℕ) × (calls ≡ munmap a n ∷ []) × (a ≤ 8256) × (8256 < a + n))
    × (again.state ≡ ready)
    × (again.frame ≡ some old_frame)
glgrab_destroy-frame_example =
    glgrab_destroy-frame 4096 create_env 9 with_frame 5000 100 old_frame refl refl (omega arith)
      (omega arith) (omega arith) (omega arith) again-rc

abbrev at_start : World
at_start = record { state = virgin; place = λ i. Place.outside }

abbrev in_first : ℕ → Place
in_first = update (λ i. Place.outside) 1 Place.creating

abbrev after_first : World
after_first = record { state = ready; place = update in_first 1 Place.outside }

-- Thread 1 makes the buffer, then thread 2 takes the lock.
two_threads :
    Run at_start (record { state = in_use; place = update after_first.place 2 Place.working })
unfolding compare_exchange try_lock
two_threads =
    Run.step
      (Run.step (Run.step Run.rest (Step.create 1 initializing refl refl))
        (Step.created 1 false refl))
      (Step.lock 2 in_use refl refl)

Run-IsOwned_example :
    IsOwned (record { state = in_use; place = update after_first.place 2 Place.working })
Run-IsOwned_example = Run-IsOwned two_threads (inl (refl, λ i. refl))

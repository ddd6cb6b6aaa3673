-- ===== src/Egl/Tests.antt =====
-- The hooks of EGL at a concrete run.
use glgrab.Base.{ℕ, ◌≡◌, refl, arith, true, false, some}
use glgrab.Grab.Samples.{grabber, old_frame}
use glgrab.Context.{claim, claim_and_take, release_context}
use glgrab.Context.Samples.{hook_env}
use glgrab.Egl.{
  EglEnv, surface_size, egl_take_frame, glgrab_egl_swap_buffers, glgrab_egl_destroy_context,
}
use glgrab.Egl.Run.{EglWorld, EglRun, EglStep, EglOwns, egl_frame_own}

-- Context 5 owns the grabber and has shot a frame.
abbrev shot_in_5 : EglWorld
shot_in_5 = record {
  g = record { gl = record grabber { frame = some old_frame }; ctx = 5 };
  shot = 5;
}

abbrev egl_env : EglEnv ℕ
egl_env = record { hook = hook_env; width = some 2; height = some 2 }

shot_in_5-EglOwns : EglOwns shot_in_5
shot_in_5-EglOwns = record { idle = (λ e. cc, λ e. cc); own = λ f r h ne. refl }

-- Context 9 swaps and is turned away, and ends.
turned_away : EglRun ℕ shot_in_5 shot_in_5
unfolding glgrab_egl_swap_buffers egl_take_frame surface_size claim_and_take claim
    glgrab_egl_destroy_context release_context
turned_away =
    EglRun.step
      (EglRun.step EglRun.rest (EglStep.swap egl_env 3 true 9 1 1 1 false shot_in_5.g refl refl))
      (EglStep.destroy_context true 9)

egl_frame_own_example : shot_in_5.shot ≡ 5
unfolding claim
egl_frame_own_example =
    egl_frame_own turned_away shot_in_5-EglOwns hook_env 3 5 5 (shot_in_5.g.gl) old_frame refl
      (omega arith) refl refl refl

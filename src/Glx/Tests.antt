-- ===== src/Glx/Tests.antt =====
-- The list of windows and the hooks of GLX at concrete inputs.
use glgrab.Base.{ℕ, ◌≡◌, refl, arith, true, false, List, [], ◌∷◌, some}
use glgrab.Grab.Samples.{grabber, old_frame}
use glgrab.Context.{claim, claim_and_take, release_context}
use glgrab.Context.Samples.{hook_env}
use glgrab.Glx.Swap.{
  SwapEnv, window_size, take_sized, take_frame, glgrab_glx_swap_buffers, glgrab_glx_destroy_context,
}
use glgrab.Glx.Run.{World, Run, Step, Owns, glx_frame_own}
use glgrab.Glx.{Winmap, find_x11, glgrab_glx_create_window, glgrab_x_destroy_window}
use glgrab.Glx.Windows.{x_destroy_window-create_window}

abbrev two_windows : List Winmap
two_windows = record { x11 = 10; glx = 20 } ∷ record { x11 = 11; glx = 21 } ∷ []

x_destroy_window-create_window_example :
    let made = glgrab_glx_create_window true two_windows 12 22 in
    (glgrab_x_destroy_window made 22 ≡ two_windows)
    × (find_x11 (glgrab_x_destroy_window made 12) 22 ≡ some (record { x11 = 12; glx = 22 }))
x_destroy_window-create_window_example =
    x_destroy_window-create_window two_windows 12 22 (omega arith) (omega arith)

-- Context 5 owns the grabber and has shot a frame.
abbrev shot_in_5 : World
shot_in_5 = record {
  g = record { gl = record grabber { frame = some old_frame }; winmap = two_windows; ctx = 5 };
  shot = 5;
}

abbrev swap_env : SwapEnv ℕ
swap_env = record { hook = hook_env; malloc_works = true; geometry = (2, 2); x_error = false }

shot_in_5-Owns : Owns shot_in_5
shot_in_5-Owns = record { idle = (λ e. cc, λ e. cc); own = λ f r h ne. refl }

-- Context 9 swaps the window 20 and is turned away, and ends.
turned_away : Run ℕ shot_in_5 shot_in_5
unfolding glgrab_glx_swap_buffers take_frame window_size find_x11 take_sized claim_and_take claim
    glgrab_glx_destroy_context release_context
turned_away =
    Run.step (Run.step Run.rest (Step.swap swap_env 3 9 20 20 20 false shot_in_5.g refl refl))
      (Step.destroy_context 9)

glx_frame_own_example : shot_in_5.shot ≡ 5
unfolding claim
glx_frame_own_example =
    glx_frame_own turned_away shot_in_5-Owns hook_env 3 5 5 (shot_in_5.g.gl) old_frame refl
      (omega arith) refl refl refl

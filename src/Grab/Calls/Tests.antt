-- ===== src/Grab/Calls/Tests.antt =====
-- The calls of OpenGL at concrete inputs: a pixel buffer 31, a texture 21 and a framebuffer 11 of
-- the grabber, and an application that draws to framebuffer 1 and reads from 0.
use glgrab.Base.{ℕ, refl, arith, true, false, some, ◌==◌, if◌then◌else◌}
use glgrab.Grab.{Glgrab, readpixels, align}
use glgrab.Grab.Samples.{grabber, old_frame}
use glgrab.Grab.Calls.{
  GlAnswers, trim, readpixels_copy, readpixels_cleanup, readpixels_init, readpixels_shoot,
  get_draw_buffers, copy_calls, cleanup_calls, delete_old_texture, new_engine_calls, renew_calls,
  shoot_calls, engine_pbo, blit_calls, restore_calls, shoot_frame_calls, is_resized,
  glgrab_take_frame_calls,
}
use glgrab.Grab.Calls.Effects.{GlState, call_effect, after, IsAnswered, AreAnswered}
use glgrab.Grab.Calls.Restored.{IsRestored}
use glgrab.Grab.Calls.Taken.{glgrab_take_frame_calls-IsRestored}

abbrev two_buffers : ℕ → ℕ
two_buffers i = if i == 0 then 36064 else 0

abbrev state : GlState
state = record {
  debug_function = 100;
  debug_param = 3;
  debug_output = false;
  pack_buffer = 30;
  row_length = 0;
  texture = 20;
  max_draw_buffers = 2;
  draw_framebuffer = 1;
  read_framebuffer = 0;
  draw_buffers_of = λ f i. two_buffers i;
  read_buffer_of = λ f. 1028;
}

abbrev gl_answers : GlAnswers
gl_answers = record {
  debug_callback = 200;
  debug_function = 100;
  debug_param = 3;
  debug_output = false;
  copy_pack_buffer = 30;
  copy_maps = true;
  max_draw_buffers = 2;
  draw_buffers = two_buffers;
  read_buffer = 1028;
  read_framebuffer = 0;
  draw_framebuffer = 1;
  new_texture = 22;
  texture = 20;
  cuda_works = false;
  new_pack_buffer = 32;
  init_pack_buffer = 30;
  shoot_pack_buffer = 30;
  shoot_row_length = 0;
}

abbrev shooting : Glgrab
shooting = record grabber { fbo = 11; tex = 21; engine = some readpixels; frame = some old_frame }

are_answered : AreAnswered (glgrab_take_frame_calls gl_answers 31 1029 4 4 true shooting) state
unfolding glgrab_take_frame_calls AreAnswered IsAnswered call_effect copy_calls readpixels_copy
    shoot_frame_calls get_draw_buffers renew_calls cleanup_calls readpixels_cleanup
    delete_old_texture new_engine_calls readpixels_init blit_calls engine_pbo shoot_calls
    readpixels_shoot restore_calls trim is_resized align
are_answered = ground arith

glgrab_take_frame_calls-IsRestored_example :
    IsRestored 11 1029 true state
      (after (glgrab_take_frame_calls gl_answers 31 1029 4 4 true shooting) state)
glgrab_take_frame_calls-IsRestored_example =
    glgrab_take_frame_calls-IsRestored gl_answers 31 1029 4 4 true shooting state
      (record {
        framebuffer = omega arith;
        pack_buffer = λ _. omega arith;
        texture = λ _. omega arith;
      })
      refl are_answered

-- ===== src/Grab/Calls.antt =====
-- glgrab.c: the calls of OpenGL that change or ask for its state, in their order. Each answer is an
-- argument, and stands in the call. The calls of glGetError, which changes none of it, are left out.
pub mod Effects
pub mod Parts
pub mod Restored
pub mod Shot
pub mod Taken
mod Tests
use glgrab.Base.{
  ℕ, zero, suc, ◌*◌, ◌^◌, Bool, true, false, not, ◌||◌, Option, none, some, List, [], ◌∷◌, ◌++◌,
  ◌==◌, if◌then◌else◌,
}
use glgrab.Grab.{Engine, readpixels, cuda, Frame, Glgrab, u32, align, width_align, height_align}

pub data GlCall : Type 0 where
  get_debug_callback : ℕ → ℕ → GlCall
  is_enabled_debug_output : Bool → GlCall
  get_pack_buffer : ℕ → GlCall
  get_pack_row_length : ℕ → GlCall
  get_max_draw_buffers : ℕ → GlCall
  get_draw_buffer : ℕ → ℕ → GlCall
  get_read_buffer : ℕ → GlCall
  get_read_framebuffer : ℕ → GlCall
  get_draw_framebuffer : ℕ → GlCall
  get_texture : ℕ → GlCall
  debug_message_callback : ℕ → ℕ → GlCall
  set_debug_output : Bool → GlCall
  bind_pack_buffer : ℕ → GlCall
  pack_row_length : ℕ → GlCall
  read_pixels : ℕ → ℕ → GlCall
  map_buffer_range : ℕ → Bool → GlCall
  unmap_buffer : GlCall
  gen_buffers : ℕ → GlCall
  buffer_data : ℕ → GlCall
  delete_buffers : ℕ → GlCall
  gen_textures : ℕ → GlCall
  bind_texture : ℕ → GlCall
  tex_storage : ℕ → ℕ → GlCall
  framebuffer_texture : ℕ → GlCall
  delete_textures : ℕ → GlCall
  bind_draw_framebuffer : ℕ → GlCall
  bind_read_framebuffer : ℕ → GlCall
  draw_buffer : ℕ → GlCall
  draw_buffers : ℕ → (ℕ → ℕ) → GlCall
  read_buffer : ℕ → GlCall
  blit_framebuffer : ℕ → ℕ → GlCall

-- What OpenGL answers in one run of `glgrab_take_frame`, and `debug_callback`, the address of that
-- function. `copy_`, `init_` and `shoot_` are about readpixels_copy, readpixels_init and
-- readpixels_shoot, and `draw_buffers i` is the answer for the draw buffer `i`.
pub record GlAnswers : Type 0 where
  pub debug_callback : ℕ
  pub debug_function : ℕ
  pub debug_param : ℕ
  pub debug_output : Bool
  pub copy_pack_buffer : ℕ
  pub copy_maps : Bool
  pub max_draw_buffers : ℕ
  pub draw_buffers : ℕ → ℕ
  pub read_buffer : ℕ
  pub read_framebuffer : ℕ
  pub draw_framebuffer : ℕ
  pub new_texture : ℕ
  pub texture : ℕ
  pub cuda_works : Bool
  pub new_pack_buffer : ℕ
  pub init_pack_buffer : ℕ
  pub shoot_pack_buffer : ℕ
  pub shoot_row_length : ℕ

-- GL_COLOR_ATTACHMENT0
abbrev pub color_attachment : ℕ
color_attachment = 36064

unfoldable pub readpixels_shoot : ℕ → ℕ → ℕ → ℕ → ℕ → ℕ → List GlCall
readpixels_shoot pbo width height pitch pixel_pack_buffer row_length =
    get_pack_buffer pixel_pack_buffer
    ∷ bind_pack_buffer pbo
    ∷ get_pack_row_length row_length
    ∷ pack_row_length pitch
    ∷ read_pixels width height
    ∷ pack_row_length row_length
    ∷ bind_pack_buffer pixel_pack_buffer
    ∷ []

-- `maps` says that glMapBufferRange has not returned NULL.
unfoldable pub readpixels_copy : ℕ → ℕ → ℕ → Bool → List GlCall
readpixels_copy pbo size pixel_pack_buffer maps =
    get_pack_buffer pixel_pack_buffer
    ∷ bind_pack_buffer pbo
    ∷ map_buffer_range size maps
    ∷ (if maps then unmap_buffer ∷ bind_pack_buffer pixel_pack_buffer ∷ [] else [])

unfoldable pub readpixels_cleanup : ℕ → List GlCall
readpixels_cleanup pbo = delete_buffers pbo ∷ []

unfoldable pub readpixels_init : ℕ → ℕ → ℕ → List GlCall
readpixels_init size pixel_pack_buffer new =
    get_pack_buffer pixel_pack_buffer
    ∷ gen_buffers new
    ∷ bind_pack_buffer new
    ∷ buffer_data size
    ∷ bind_pack_buffer pixel_pack_buffer
    ∷ []

-- The loop over the draw buffers, from number `i` on.
unfoldable pub get_draw_buffers : ℕ → ℕ → (ℕ → ℕ) → List GlCall
get_draw_buffers zero i buffers = []
get_draw_buffers (suc rounds) i buffers =
    get_draw_buffer i (buffers i) ∷ get_draw_buffers rounds (suc i) buffers

-- `while (draw_buffers_n > 0 && …)`: the number without those behind that are GL_NONE, which is 0.
unfoldable pub trim : ℕ → (ℕ → ℕ) → ℕ
trim zero buffers = 0
trim (suc n) buffers = let rest = trim n buffers in if buffers n == 0 then rest else suc n

-- `g->engine_copy(g)`, for the last frame, where `pbo` is that of `g` if its engine has one. CUDA
-- does not change the state of OpenGL.
unfoldable pub copy_calls : GlAnswers → ℕ → Option Engine → Option Frame → List GlCall
copy_calls a pbo engine none = []
copy_calls a pbo none (some f) = []
copy_calls a pbo (some cuda) (some f) = []
copy_calls a pbo (some readpixels) (some f) =
    readpixels_copy pbo (u32 (f.padded_width * f.padded_height * 4)) a.copy_pack_buffer a.copy_maps

unfoldable pub cleanup_calls : ℕ → Option Engine → List GlCall
cleanup_calls pbo (some readpixels) = readpixels_cleanup pbo
cleanup_calls pbo _ = []

-- `if (g->tex)`
unfoldable pub delete_old_texture : ℕ → List GlCall
delete_old_texture tex = if tex == 0 then [] else delete_textures tex ∷ []

-- The pixel buffer of the engine after `if (resize)`; none for CUDA.
unfoldable pub engine_pbo : GlAnswers → ℕ → Bool → Option Engine → Option ℕ
engine_pbo a pbo true engine = if a.cuda_works then none else some a.new_pack_buffer
engine_pbo a pbo false (some readpixels) = some pbo
engine_pbo a pbo false _ = none

unfoldable pub restore_calls : GlAnswers → List GlCall
restore_calls a =
    let n = trim a.max_draw_buffers a.draw_buffers in
    bind_read_framebuffer a.read_framebuffer
    ∷ bind_draw_framebuffer a.draw_framebuffer
    ∷ (if n == 1 then draw_buffer (a.draw_buffers 0) else draw_buffers n a.draw_buffers)
    ∷ read_buffer a.read_buffer
    ∷ []

module _ (a : GlAnswers) (pbo buffer width height padded_width padded_height : ℕ) where
  -- A texture of the new size, and an engine for it.
  unfoldable pub new_engine_calls : List GlCall
  new_engine_calls =
      gen_textures a.new_texture
      ∷ get_texture a.texture
      ∷ bind_texture a.new_texture
      ∷ tex_storage width height
      ∷ bind_texture a.texture
      ∷ framebuffer_texture a.new_texture
      ∷ (if a.cuda_works
          then []
          else readpixels_init (u32 (padded_width * padded_height * 4)) a.init_pack_buffer
              a.new_pack_buffer)

  -- `if (resize)`
  unfoldable pub renew_calls : Bool → Option Engine → ℕ → List GlCall
  renew_calls resize engine tex =
      if resize then cleanup_calls pbo engine ++ delete_old_texture tex ++ new_engine_calls else []

  -- `g->engine_shoot(…)`, for the engine after `if (resize)`.
  unfoldable pub shoot_calls : Option ℕ → List GlCall
  shoot_calls none = []
  shoot_calls (some now_pbo) =
      readpixels_shoot now_pbo width height padded_width a.shoot_pack_buffer a.shoot_row_length

  -- The frame is blitted and shot.
  unfoldable pub blit_calls : ℕ → Option ℕ → List GlCall
  blit_calls fbo now_pbo =
      draw_buffers 1 (λ _. color_attachment)
      ∷ bind_read_framebuffer a.draw_framebuffer
      ∷ read_buffer buffer
      ∷ blit_framebuffer width height
      ∷ bind_read_framebuffer fbo
      ∷ read_buffer color_attachment
      ∷ shoot_calls now_pbo

  -- The branch of `if (g->frame != NULL)` behind `mrb_reserve`.
  unfoldable pub shoot_frame_calls : Bool → Glgrab → List GlCall
  shoot_frame_calls resize g =
      (get_max_draw_buffers a.max_draw_buffers
        ∷ get_draw_buffers a.max_draw_buffers 0 a.draw_buffers)
      ++ (get_read_buffer a.read_buffer
          ∷ get_read_framebuffer a.read_framebuffer
          ∷ get_draw_framebuffer a.draw_framebuffer
          ∷ bind_draw_framebuffer g.fbo
          ∷ renew_calls resize g.engine g.tex)
      ++ blit_calls g.fbo (engine_pbo a pbo resize g.engine)
      ++ restore_calls a

-- `resize`, for the last frame.
unfoldable pub is_resized : Option Frame → ℕ → ℕ → Bool
is_resized none width height = true
is_resized (some f) width height = not (f.width == width) || not (f.height == height)

-- All of `glgrab_take_frame`; `reserved` says that mrb_reserve has not returned NULL.
unfoldable pub glgrab_take_frame_calls : GlAnswers → ℕ → ℕ → ℕ → ℕ → Bool → Glgrab → List GlCall
unfolding align
glgrab_take_frame_calls a pbo buffer width height reserved g =
    let padded_width = u32 (align width width_align * 2 ^ width_align) in
    let padded_height = u32 (align height height_align * 2 ^ height_align) in
    (get_debug_callback a.debug_function a.debug_param
      ∷ debug_message_callback a.debug_callback 0
      ∷ is_enabled_debug_output a.debug_output
      ∷ set_debug_output true
      ∷ copy_calls a pbo g.engine g.frame)
    ++ (if reserved
        then shoot_frame_calls a pbo buffer width height padded_width padded_height
            (is_resized g.frame width height) g
        else [])
    ++ (debug_message_callback a.debug_function a.debug_param
        ∷ (if a.debug_output then [] else set_debug_output false ∷ []))

-- ===== src/Grab/Calls/Effects.antt =====
-- What the calls of OpenGL do to its state, by the reference pages.
use glgrab.Base.{ℕ, ◌≡◌, Bool, List, [], ◌∷◌, ◌++◌, ltb, ◌==◌, if◌then◌else◌, refl}
use glgrab.Grab.Calls.{
  GlCall, get_debug_callback, is_enabled_debug_output, get_pack_buffer, get_pack_row_length,
  get_max_draw_buffers, get_draw_buffer, get_read_buffer, get_read_framebuffer,
  get_draw_framebuffer, get_texture, debug_message_callback, set_debug_output, bind_pack_buffer,
  pack_row_length, delete_buffers, bind_texture, delete_textures, bind_draw_framebuffer,
  bind_read_framebuffer, draw_buffer, draw_buffers, read_buffer,
}

-- The state that the calls touch. The draw buffers and the read buffer belong to a framebuffer; the
-- draw buffers are those below `max_draw_buffers`.
pub record GlState : Type 0 where
  pub debug_function : ℕ
  pub debug_param : ℕ
  pub debug_output : Bool
  pub pack_buffer : ℕ
  pub row_length : ℕ
  pub texture : ℕ
  pub max_draw_buffers : ℕ
  pub draw_framebuffer : ℕ
  pub read_framebuffer : ℕ
  pub draw_buffers_of : ℕ → ℕ → ℕ
  pub read_buffer_of : ℕ → ℕ

-- Where an object that is bound is deleted, 0 is bound. The draw buffers behind those that are given
-- become GL_NONE.
unfoldable pub call_effect : GlCall → GlState → GlState
call_effect (debug_message_callback f p) s = record s { debug_function = f; debug_param = p }
call_effect (set_debug_output b) s = record s { debug_output = b }
call_effect (bind_pack_buffer n) s = record s { pack_buffer = n }
call_effect (pack_row_length n) s = record s { row_length = n }
call_effect (delete_buffers n) s = record s {
  pack_buffer = if s.pack_buffer == n then 0 else s.pack_buffer;
}
call_effect (bind_texture n) s = record s { texture = n }
call_effect (delete_textures n) s = record s { texture = if s.texture == n then 0 else s.texture }
call_effect (bind_draw_framebuffer n) s = record s { draw_framebuffer = n }
call_effect (bind_read_framebuffer n) s = record s { read_framebuffer = n }
call_effect (draw_buffer b) s = record s {
  draw_buffers_of =
      λ f i. if f == s.draw_framebuffer then (if i == 0 then b else 0) else s.draw_buffers_of f i;
}
call_effect (draw_buffers n b) s = record s {
  draw_buffers_of = λ f i.
      if f == s.draw_framebuffer then (if ltb i n then b i else 0) else s.draw_buffers_of f i;
}
call_effect (read_buffer b) s = record s {
  read_buffer_of = λ f. if f == s.read_framebuffer then b else s.read_buffer_of f;
}
call_effect _ s = s

unfoldable pub after : List GlCall → GlState → GlState
after [] s = s
after (c ∷ cs) s = after cs (call_effect c s)

-- A call that asks for something answers what the state has.
unfoldable pub IsAnswered : GlCall → GlState → Type 0
IsAnswered (get_debug_callback f p) s = (f ≡ s.debug_function) × (p ≡ s.debug_param)
IsAnswered (is_enabled_debug_output b) s = b ≡ s.debug_output
IsAnswered (get_pack_buffer n) s = n ≡ s.pack_buffer
IsAnswered (get_pack_row_length n) s = n ≡ s.row_length
IsAnswered (get_max_draw_buffers n) s = n ≡ s.max_draw_buffers
IsAnswered (get_draw_buffer i b) s = b ≡ s.draw_buffers_of s.draw_framebuffer i
IsAnswered (get_read_buffer b) s = b ≡ s.read_buffer_of s.read_framebuffer
IsAnswered (get_read_framebuffer n) s = n ≡ s.read_framebuffer
IsAnswered (get_draw_framebuffer n) s = n ≡ s.draw_framebuffer
IsAnswered (get_texture n) s = n ≡ s.texture
IsAnswered _ s = Unit

unfoldable pub AreAnswered : List GlCall → GlState → Type 0
AreAnswered [] s = Unit
AreAnswered (c ∷ cs) s = IsAnswered c s × AreAnswered cs (call_effect c s)

pub after-++ : (a b : List GlCall) (s : GlState) → after (a ++ b) s ≡ after b (after a s)
unfolding after
after-++ [] b s = refl
after-++ (c ∷ a) b s = after-++ a b (call_effect c s)

pub AreAnswered-++ :
    (a b : List GlCall) (s : GlState)
    → AreAnswered (a ++ b) s
    → AreAnswered a s × AreAnswered b (after a s)
unfolding AreAnswered after
AreAnswered-++ [] b s h = (tt, h)
AreAnswered-++ (c ∷ a) b s (h, hs) =
    let (x, y) = AreAnswered-++ a b (call_effect c s) hs in ((h, x), y)

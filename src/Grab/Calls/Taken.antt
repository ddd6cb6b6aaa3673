-- ===== src/Grab/Calls/Taken.antt =====
-- `glgrab_take_frame` and the state of OpenGL, as a whole.
use glgrab.Base.{
  ℕ, ◌*◌, ◌^◌, ◌≡◌, inl, inr, refl, sym, ap, subst, ◌∙◌, Bool, true, false, List, [], ◌∷◌, ◌++◌,
  if◌then◌else◌, Bool-cases,
}
use glgrab.Grab.{Glgrab, u32, align, width_align, height_align}
use glgrab.Grab.Calls.{
  GlCall, GlAnswers, get_debug_callback, debug_message_callback, is_enabled_debug_output,
  set_debug_output, copy_calls, shoot_frame_calls, is_resized, glgrab_take_frame_calls,
}
use glgrab.Grab.Calls.Effects.{
  GlState, call_effect, after, IsAnswered, AreAnswered, after-++, AreAnswered-++,
}
use glgrab.Grab.Calls.Parts.{copy_calls-Leaves}
use glgrab.Grab.Calls.Restored.{IsRestored}
use glgrab.Grab.Calls.Shot.{IsApart, shoot_frame_calls-IsRestored}

unchanged-IsRestored : (fbo buffer : ℕ) (s : GlState) → IsRestored fbo buffer false s s
unchanged-IsRestored fbo buffer s = record {
  debug_function = refl;
  debug_param = refl;
  debug_output = refl;
  pack_buffer = refl;
  row_length = refl;
  texture = refl;
  draw_framebuffer = refl;
  read_framebuffer = refl;
  draw_buffers = λ f i _ _. refl;
  read_buffers = λ f _ _. refl;
  overwritten = λ e _. absurd (let clash : false ≡ true = e in cc);
}

middle-IsRestored :
    (a : GlAnswers) (pbo buffer width height pw ph : ℕ) (resize : Bool) (g : Glgrab) (s : GlState)
    → IsApart pbo g s
    → (reserved : Bool)
    → let shoots = shoot_frame_calls a pbo buffer width height pw ph resize g in
      let middle = if reserved then shoots else [] in
      AreAnswered middle s → IsRestored g.fbo buffer reserved s (after middle s)
unfolding after
middle-IsRestored a pbo buffer width height pw ph resize g s apart true h =
    shoot_frame_calls-IsRestored a pbo buffer width height pw ph resize g s apart h
middle-IsRestored a pbo buffer width height pw ph resize g s apart false h =
    unchanged-IsRestored g.fbo buffer s

module _ (a : GlAnswers) (s : GlState) where
  -- With the debug callback of the grabber.
  abbrev debugging : GlState
  debugging = record s { debug_function = a.debug_callback; debug_param = 0; debug_output = true }

  abbrev opening : ℕ → Glgrab → List GlCall
  opening pbo g =
      get_debug_callback a.debug_function a.debug_param
      ∷ debug_message_callback a.debug_callback 0
      ∷ is_enabled_debug_output a.debug_output
      ∷ set_debug_output true
      ∷ copy_calls a pbo g.engine g.frame

  opening_lem :
      (pbo : ℕ) (g : Glgrab)
      → a.copy_maps ≡ true
      → AreAnswered (opening pbo g) s
      → (after (opening pbo g) s ≡ debugging)
        × (a.debug_function ≡ s.debug_function)
        × (a.debug_param ≡ s.debug_param)
        × (a.debug_output ≡ s.debug_output)
  unfolding AreAnswered after IsAnswered call_effect
  opening_lem pbo g maps ((f, p), (_, (o, (_, h)))) =
      (copy_calls-Leaves a pbo g.engine g.frame debugging maps h, f, p, o)

  abbrev closing : List GlCall
  closing =
      debug_message_callback a.debug_function a.debug_param
      ∷ (if a.debug_output then [] else set_debug_output false ∷ [])

  closing-IsRestored :
      (fbo buffer : ℕ) (used : Bool) (s1 : GlState)
      → a.debug_function ≡ s.debug_function
      → a.debug_param ≡ s.debug_param
      → a.debug_output ≡ s.debug_output
      → IsRestored fbo buffer used debugging s1
      → IsRestored fbo buffer used s (after closing s1)
  unfolding after call_effect
  closing-IsRestored fbo buffer used s1 f p o r =
      let back : (b : Bool)
          → b ≡ s.debug_output
          → IsRestored fbo buffer used s (record s1 {
            debug_function = a.debug_function;
            debug_param = a.debug_param;
            debug_output = b;
          }) =
        λ b e. record {
          debug_function = f;
          debug_param = p;
          debug_output = e;
          pack_buffer = r.pack_buffer;
          row_length = r.row_length;
          texture = r.texture;
          draw_framebuffer = r.draw_framebuffer;
          read_framebuffer = r.read_framebuffer;
          draw_buffers = r.draw_buffers;
          read_buffers = r.read_buffers;
          overwritten = r.overwritten;
        } in
      elim (Bool-cases a.debug_output) [
        | inl e ↦ rw (e) (back s1.debug_output (r.debug_output ∙ sym e ∙ o))
        | inr e ↦ rw (e) (back false (sym e ∙ o))
      ]

-- If no object of the grabber is bound and the pixel buffer of the last frame can be mapped, the
-- application finds its state of OpenGL as it was after glgrab_take_frame: the debug callback and
-- whether it is enabled, the pixel buffer and the row length, the texture, both framebuffers, and of
-- every framebuffer but the grabber's own the draw buffers and the read buffer. There is one
-- exception: where a frame is shot while the framebuffer that is drawn to is not the one that is
-- read from, its read buffer is left as the one that the frame came from.
pub glgrab_take_frame_calls-IsRestored :
    (a : GlAnswers) (pbo buffer width height : ℕ) (reserved : Bool) (g : Glgrab) (s : GlState)
    → IsApart pbo g s
    → a.copy_maps ≡ true
    → AreAnswered (glgrab_take_frame_calls a pbo buffer width height reserved g) s
    → IsRestored g.fbo buffer reserved s
        (after (glgrab_take_frame_calls a pbo buffer width height reserved g) s)
unfolding glgrab_take_frame_calls
glgrab_take_frame_calls-IsRestored a pbo buffer width height reserved g s apart maps h =
    let pw = u32 (align width width_align * 2 ^ width_align) in
    let ph = u32 (align height height_align * 2 ^ height_align) in
    let resize = is_resized g.frame width height in
    let shoots = shoot_frame_calls a pbo buffer width height pw ph resize g in
    let middle = if reserved then shoots else [] in
    let start = opening a s pbo g in
    let close = closing a s in
    let (h2, _) = AreAnswered-++ (start ++ middle) close s h in
    let (h1, hm) = AreAnswered-++ start middle s h2 in
    let (started, f, p, o) = opening_lem a s pbo g maps h1 in
    let apart' : IsApart pbo g (debugging a s) = record {
      framebuffer = apart.framebuffer;
      pack_buffer = apart.pack_buffer;
      texture = apart.texture;
    } in
    let done : IsRestored g.fbo buffer reserved (debugging a s) (after middle (debugging a s)) =
      middle-IsRestored a pbo buffer width height pw ph resize g (debugging a s) apart' reserved
        (subst (λ t. AreAnswered middle t) started hm) in
    let all =
      after-++ (start ++ middle) close s
      ∙ ap (after close) (after-++ start middle s ∙ ap (after middle) started) in
    subst (λ t. IsRestored g.fbo buffer reserved s t) (sym all)
      (closing-IsRestored a s g.fbo buffer reserved (after middle (debugging a s)) f p o done)

-- ===== src/Grab/Calls/Shot.antt =====
-- The branch of `glgrab_take_frame` behind mrb_reserve, and the state of OpenGL.
use glgrab.Base.{ℕ, ◌<◌, ◌≡◌, ◌≢◌, sym, ap, subst, ◌∙◌, arith, Bool, true, some, List, ◌∷◌, ◌++◌}
use glgrab.Grab.{readpixels, Glgrab}
use glgrab.Grab.Calls.{
  GlCall, GlAnswers, get_draw_buffers, get_max_draw_buffers, get_read_buffer, get_read_framebuffer,
  get_draw_framebuffer, bind_draw_framebuffer, renew_calls, blit_calls, restore_calls, engine_pbo,
  shoot_frame_calls,
}
use glgrab.Grab.Calls.Effects.{
  GlState, call_effect, after, IsAnswered, AreAnswered, after-++, AreAnswered-++,
}
use glgrab.Grab.Calls.Parts.{renew_calls-Leaves, get_draw_buffers-Leaves}
use glgrab.Grab.Calls.Restored.{IsRestored, blit_calls_lem, restore_calls_lem, restored-IsRestored}

-- The objects that the grabber has are not bound.
pub record IsApart (pbo : ℕ) (g : Glgrab) (s : GlState) : Type 0 where
  pub framebuffer : s.draw_framebuffer ≢ g.fbo
  pub pack_buffer : g.engine ≡ some readpixels → s.pack_buffer ≢ pbo
  pub texture : g.tex ≢ 0 → s.texture ≢ g.tex

module _ (a : GlAnswers) (pbo buffer width height pw ph : ℕ) (resize : Bool) (g : Glgrab) where
  -- The four parts of `shoot_frame_calls`.
  abbrev sizes : List GlCall
  sizes =
      get_max_draw_buffers a.max_draw_buffers ∷ get_draw_buffers a.max_draw_buffers 0 a.draw_buffers

  abbrev bindings : List GlCall
  bindings =
      get_read_buffer a.read_buffer
      ∷ get_read_framebuffer a.read_framebuffer
      ∷ get_draw_framebuffer a.draw_framebuffer
      ∷ bind_draw_framebuffer g.fbo
      ∷ renew_calls a pbo buffer width height pw ph resize g.engine g.tex

  abbrev blits : List GlCall
  blits = blit_calls a pbo buffer width height pw ph g.fbo (engine_pbo a pbo resize g.engine)

  bindings_lem :
      (s : GlState)
      → IsApart pbo g s
      → AreAnswered bindings s
      → (after bindings s ≡ record s { draw_framebuffer = g.fbo })
        × (a.read_buffer ≡ s.read_buffer_of s.read_framebuffer)
        × (a.read_framebuffer ≡ s.read_framebuffer)
        × (a.draw_framebuffer ≡ s.draw_framebuffer)
  unfolding AreAnswered after IsAnswered call_effect
  bindings_lem s apart (rb, (rf, (df, (_, h)))) = (
    renew_calls-Leaves a pbo buffer width height pw ph resize g.engine g.tex
        (record s { draw_framebuffer = g.fbo }) apart.pack_buffer apart.texture h,
    rb,
    rf,
    df,
  )

  sizes_lem :
      (s : GlState)
      → AreAnswered sizes s
      → (after sizes s ≡ s)
        × (a.max_draw_buffers ≡ s.max_draw_buffers)
        × ((j : ℕ)
            → j < a.max_draw_buffers
            → a.draw_buffers j ≡ s.draw_buffers_of s.draw_framebuffer j)
  unfolding AreAnswered after IsAnswered call_effect
  sizes_lem s (max, h) =
      let (same, all) = get_draw_buffers-Leaves a.max_draw_buffers 0 a.draw_buffers s h in
      (same, max, λ j low. all j (omega arith) (omega (arith, low)))

  pub shoot_frame_calls-IsRestored :
      (s : GlState)
      → IsApart pbo g s
      → AreAnswered (shoot_frame_calls a pbo buffer width height pw ph resize g) s
      → IsRestored g.fbo buffer true s
          (after (shoot_frame_calls a pbo buffer width height pw ph resize g) s)
  unfolding shoot_frame_calls
  shoot_frame_calls-IsRestored s apart h =
      let (h3, h4) = AreAnswered-++ ((sizes ++ bindings) ++ blits) (restore_calls a) s h in
      let (h2, hb) = AreAnswered-++ (sizes ++ bindings) blits s h3 in
      let (h1, hi) = AreAnswered-++ sizes bindings s h2 in
      let (same, max, buffers) = sizes_lem s h1 in
      let (now, rb, rf, df) = bindings_lem s apart (subst (λ t. AreAnswered bindings t) same hi) in
      let bound : after (sizes ++ bindings) s ≡ record s { draw_framebuffer = g.fbo } =
        after-++ sizes bindings s ∙ ap (after bindings) same ∙ now in
      let shot =
        blit_calls_lem a pbo buffer width height pw ph g.fbo s (engine_pbo a pbo resize g.engine)
          (subst (λ t. AreAnswered blits t) bound hb) in
      let all =
        after-++ ((sizes ++ bindings) ++ blits) (restore_calls a) s
        ∙ ap (after (restore_calls a))
            (after-++ (sizes ++ bindings) blits s ∙ ap (after blits) bound ∙ shot)
        ∙ restore_calls_lem a pbo buffer width height pw ph g.fbo s in
      subst (λ t. IsRestored g.fbo buffer true s t) (sym all)
        (restored-IsRestored a pbo buffer width height pw ph g.fbo s max buffers rb rf df
          apart.framebuffer)

-- ===== src/Grab/Calls/Restored.antt =====
-- What the application finds of the state of OpenGL after a frame was taken.
use glgrab.Base.{
  ℕ, ◌<◌, ◌≡◌, ◌≢◌, ◌⊎◌, inl, inr, refl, sym, ap, ◌∙◌, arith, Bool, true, Option, ltb, ◌==◌,
  if◌then◌else◌, Bool-cases, ==_of_ne, ==_of_eq, ==_iff, ne_of_==,
}
use glgrab.Grab.Calls.{GlAnswers, color_attachment, trim, blit_calls, restore_calls}
use glgrab.Grab.Calls.Effects.{GlState, call_effect, after, IsAnswered, AreAnswered}
use glgrab.Grab.Calls.Parts.{shoot_calls-Leaves, trim_lem}

-- From `s` to `s'` only the read buffer of one framebuffer has changed, if at all: that of the
-- framebuffer that is drawn to, if it is not the one that is read from; `used` says that it has.
pub record IsRestored (fbo buffer : ℕ) (used : Bool) (s s' : GlState) : Type 0 where
  pub debug_function : s'.debug_function ≡ s.debug_function
  pub debug_param : s'.debug_param ≡ s.debug_param
  pub debug_output : s'.debug_output ≡ s.debug_output
  pub pack_buffer : s'.pack_buffer ≡ s.pack_buffer
  pub row_length : s'.row_length ≡ s.row_length
  pub texture : s'.texture ≡ s.texture
  pub draw_framebuffer : s'.draw_framebuffer ≡ s.draw_framebuffer
  pub read_framebuffer : s'.read_framebuffer ≡ s.read_framebuffer
  pub draw_buffers :
      (f i : ℕ) → f ≢ fbo → i < s.max_draw_buffers → s'.draw_buffers_of f i ≡ s.draw_buffers_of f i
  pub read_buffers :
      (f : ℕ)
      → f ≢ fbo
      → (f ≢ s.draw_framebuffer) ⊎ (f ≡ s.read_framebuffer)
      → s'.read_buffer_of f ≡ s.read_buffer_of f
  pub overwritten :
      used ≡ true
      → s.draw_framebuffer ≢ s.read_framebuffer
      → s'.read_buffer_of s.draw_framebuffer ≡ buffer

-- What is set for the draw buffers.
abbrev set_back : ℕ → (ℕ → ℕ) → ℕ → ℕ
set_back n b i = if n == 1 then (if i == 0 then b 0 else 0) else (if ltb i n then b i else 0)

set_back_lem : (max : ℕ) (b : ℕ → ℕ) (i : ℕ) → i < max → set_back (trim max b) b i ≡ b i
set_back_lem max b i low =
    let none_behind = trim_lem max b i low in
    elim (Bool-cases (trim max b == 1)) [
      | inl e ↦ elim (Bool-cases (i == 0)) [
        | inl f ↦ rw (e, f) (ap b (sym ((==_iff i 0).0 f)))
        | inr f ↦ rw (e, f) (sym (none_behind (ground arith)))
      ]
      | inr e ↦ elim (Bool-cases (ltb i (trim max b))) [
        | inl f ↦ rw (e, f) refl
        | inr f ↦ rw (e, f) (sym (none_behind (ground arith)))
      ]
    ]

module _ (a : GlAnswers) (pbo buffer width height pw ph : ℕ) (fbo : ℕ) (s : GlState) where
  -- Between the shot and what is restored.
  abbrev pub blitted : GlState
  blitted = record s {
    draw_framebuffer = fbo;
    read_framebuffer = fbo;
    draw_buffers_of = λ f i.
        if f == fbo then (if ltb i 1 then color_attachment else 0) else s.draw_buffers_of f i;
    read_buffer_of = λ f.
        if f == fbo
        then color_attachment
        else (if f == a.draw_framebuffer then buffer else s.read_buffer_of f);
  }

  pub blit_calls_lem :
      (now_pbo : Option ℕ)
      → let calls = blit_calls a pbo buffer width height pw ph fbo now_pbo in
        AreAnswered calls (record s { draw_framebuffer = fbo })
        → after calls (record s { draw_framebuffer = fbo }) ≡ blitted
  unfolding blit_calls AreAnswered after call_effect IsAnswered
  blit_calls_lem now_pbo (_, (_, (_, (_, (_, (_, h)))))) =
      shoot_calls-Leaves a pbo buffer width height pw ph now_pbo blitted h

  -- The state that the calls behind the shot set.
  abbrev pub restored : GlState
  restored = record blitted {
    draw_framebuffer = a.draw_framebuffer;
    read_framebuffer = a.read_framebuffer;
    draw_buffers_of = λ f i.
        if f == a.draw_framebuffer
        then set_back (trim a.max_draw_buffers a.draw_buffers) a.draw_buffers i
        else blitted.draw_buffers_of f i;
    read_buffer_of =
        λ f. if f == a.read_framebuffer then a.read_buffer else blitted.read_buffer_of f;
  }

  pub restore_calls_lem : after (restore_calls a) blitted ≡ restored
  unfolding restore_calls after call_effect
  restore_calls_lem = elim (Bool-cases (trim a.max_draw_buffers a.draw_buffers == 1)) [
    | inl e ↦ rw (e) refl
    | inr e ↦ rw (e) refl
  ]

  module _ (max : a.max_draw_buffers ≡ s.max_draw_buffers)
      (buffers : (j : ℕ)
        → j < a.max_draw_buffers
        → a.draw_buffers j ≡ s.draw_buffers_of s.draw_framebuffer j)
      (rb : a.read_buffer ≡ s.read_buffer_of s.read_framebuffer)
      (rf : a.read_framebuffer ≡ s.read_framebuffer) (df : a.draw_framebuffer ≡ s.draw_framebuffer)
      (other : s.draw_framebuffer ≢ fbo) where
    draw_buffers_restored :
        (f i : ℕ)
        → f ≢ fbo
        → i < s.max_draw_buffers
        → restored.draw_buffers_of f i ≡ s.draw_buffers_of f i
    draw_buffers_restored f i ne low = elim (Bool-cases (f == a.draw_framebuffer)) [
      | inl e ↦
          let same : f ≡ s.draw_framebuffer = (==_iff f a.draw_framebuffer).0 e ∙ df in
          rw (e) (
            set_back_lem a.max_draw_buffers a.draw_buffers i (omega (arith, max, low))
            ∙ buffers i (omega (arith, max, low))
            ∙ ap (λ (t : ℕ). s.draw_buffers_of t i) (sym same))
      | inr e ↦ rw (e, ==_of_ne f fbo ne) refl
    ]

    read_buffers_restored :
        (f : ℕ)
        → f ≢ fbo
        → (f ≢ s.draw_framebuffer) ⊎ (f ≡ s.read_framebuffer)
        → restored.read_buffer_of f ≡ s.read_buffer_of f
    read_buffers_restored f ne which = elim (Bool-cases (f == a.read_framebuffer)) [
      | inl e ↦
          let same : f ≡ s.read_framebuffer = (==_iff f a.read_framebuffer).0 e ∙ rf in
          rw (e) (rb ∙ ap s.read_buffer_of (sym same))
      | inr e ↦
          let not_drawn : f ≢ a.draw_framebuffer = λ h. elim which [
            | inl x ↦ x (h ∙ df)
            | inr x ↦ ne_of_== f a.read_framebuffer e (x ∙ sym rf)
          ] in
          rw (e, ==_of_ne f fbo ne, ==_of_ne f a.draw_framebuffer not_drawn) refl
    ]

    pub restored-IsRestored : IsRestored fbo buffer true s restored
    restored-IsRestored = record {
      debug_function = refl;
      debug_param = refl;
      debug_output = refl;
      pack_buffer = refl;
      row_length = refl;
      texture = refl;
      draw_framebuffer = df;
      read_framebuffer = rf;
      draw_buffers = draw_buffers_restored;
      read_buffers = read_buffers_restored;
      overwritten = λ _ ne.
          let d = s.draw_framebuffer in
          rw
            (
              ==_of_ne d a.read_framebuffer (λ h. ne (h ∙ rf)),
              ==_of_ne d fbo other,
              ==_of_eq d a.draw_framebuffer (sym df),
            )
            refl;
    }

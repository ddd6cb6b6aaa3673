-- ===== src/Grab/Calls/Parts.antt =====
-- The parts of `glgrab_take_frame` that leave the state of OpenGL as they found it.
use glgrab.Base.{
  ℕ, zero, suc, ◌+◌, ◌*◌, ◌≤◌, ◌<◌, ◌≡◌, ◌≢◌, inl, inr, refl, sym, ap, subst, ◌∙◌, arith, Bool,
  true, false, Option, none, some, List, [], ◌++◌, ◌==◌, if◌then◌else◌, Bool-cases, ==_of_ne,
  ==_iff, ne_of_==,
}
use glgrab.Grab.{Engine, readpixels, cuda, Frame, u32}
use glgrab.Grab.Calls.{
  GlCall, GlAnswers, readpixels_shoot, readpixels_copy, readpixels_cleanup, readpixels_init,
  get_draw_buffers, trim, copy_calls, cleanup_calls, new_engine_calls, renew_calls, shoot_calls,
  delete_old_texture,
}
use glgrab.Grab.Calls.Effects.{
  GlState, call_effect, after, IsAnswered, AreAnswered, after-++, AreAnswered-++,
}

-- The calls leave the state as it is, if they are answered from it.
abbrev pub Leaves : List GlCall → GlState → Type 0
Leaves cs s = AreAnswered cs s → after cs s ≡ s

readpixels_shoot-Leaves :
    (pbo width height pitch pack row : ℕ) (s : GlState)
    → Leaves (readpixels_shoot pbo width height pitch pack row) s
unfolding readpixels_shoot AreAnswered after IsAnswered call_effect
readpixels_shoot-Leaves pbo width height pitch pack row s (e, (_, (f, _))) = rw (e, f) refl

readpixels_copy-Leaves :
    (pbo size pack : ℕ) (s : GlState) → Leaves (readpixels_copy pbo size pack true) s
unfolding readpixels_copy AreAnswered after IsAnswered call_effect
readpixels_copy-Leaves pbo size pack s (e, _) = rw (e) refl

readpixels_init-Leaves :
    (size pack new : ℕ) (s : GlState) → Leaves (readpixels_init size pack new) s
unfolding readpixels_init AreAnswered after IsAnswered call_effect
readpixels_init-Leaves size pack new s (e, _) = rw (e) refl

pub shoot_calls-Leaves :
    (a : GlAnswers) (pbo buffer width height pw ph : ℕ) (now_pbo : Option ℕ) (s : GlState)
    → Leaves (shoot_calls a pbo buffer width height pw ph now_pbo) s
unfolding shoot_calls after
shoot_calls-Leaves a pbo buffer width height pw ph none s h = refl
shoot_calls-Leaves a pbo buffer width height pw ph (some p) s h =
    readpixels_shoot-Leaves p width height pw a.shoot_pack_buffer a.shoot_row_length s h

pub copy_calls-Leaves :
    (a : GlAnswers) (pbo : ℕ) (engine : Option Engine) (frame : Option Frame) (s : GlState)
    → a.copy_maps ≡ true
    → Leaves (copy_calls a pbo engine frame) s
unfolding copy_calls after
copy_calls-Leaves a pbo engine none s maps h = refl
copy_calls-Leaves a pbo none (some f) s maps h = refl
copy_calls-Leaves a pbo (some cuda) (some f) s maps h = refl
copy_calls-Leaves a pbo (some readpixels) (some f) s maps h =
    let calls = readpixels_copy pbo _ a.copy_pack_buffer in
    subst (λ b. Leaves (calls b) s) (sym maps) (readpixels_copy-Leaves pbo _ _ s) h

cleanup_calls-Leaves :
    (pbo : ℕ) (engine : Option Engine) (s : GlState)
    → (engine ≡ some readpixels → s.pack_buffer ≢ pbo)
    → after (cleanup_calls pbo engine) s ≡ s
unfolding cleanup_calls readpixels_cleanup after call_effect
cleanup_calls-Leaves pbo none s ne = refl
cleanup_calls-Leaves pbo (some cuda) s ne = refl
cleanup_calls-Leaves pbo (some readpixels) s ne = rw (==_of_ne s.pack_buffer pbo (ne refl)) refl

delete_old_texture-Leaves :
    (tex : ℕ) (s : GlState) → (tex ≢ 0 → s.texture ≢ tex) → after (delete_old_texture tex) s ≡ s
unfolding delete_old_texture after call_effect
delete_old_texture-Leaves tex s ne = elim (Bool-cases (tex == 0)) [
  | inl e ↦ rw (e) refl
  | inr e ↦ rw (e, ==_of_ne s.texture tex (ne (ne_of_== tex 0 e))) refl
]

new_engine_calls-Leaves :
    (a : GlAnswers) (pbo buffer width height pw ph : ℕ) (s : GlState)
    → Leaves (new_engine_calls a pbo buffer width height pw ph) s
unfolding new_engine_calls after AreAnswered call_effect IsAnswered
new_engine_calls-Leaves a pbo buffer width height pw ph s (_, (e, (_, (_, (_, (_, h)))))) =
    let init = readpixels_init (u32 (pw * ph * 4)) a.init_pack_buffer a.new_pack_buffer in
    let back : record s { texture = a.texture } ≡ s = rw (e) refl in
    let bound : GlState = record s { texture = a.texture } in
    let rest : Leaves (if a.cuda_works then [] else init) bound =
      elim a.cuda_works as (λ b. Leaves (if b then [] else init) bound) [
        | true ↦ λ _. refl
        | false ↦ readpixels_init-Leaves _ _ _ bound
      ] in
    rest h ∙ back

++-Leaves : (a b : List GlCall) (s : GlState) → Leaves a s → Leaves b s → Leaves (a ++ b) s
++-Leaves a b s la lb h =
    let (x, y) = AreAnswered-++ a b s h in
    let same = la x in after-++ a b s ∙ ap (after b) same ∙ lb (subst (λ t. AreAnswered b t) same y)

pub renew_calls-Leaves :
    (a : GlAnswers) (pbo buffer width height pw ph : ℕ) (resize : Bool) (engine : Option Engine)
    (tex : ℕ) (s : GlState)
    → (engine ≡ some readpixels → s.pack_buffer ≢ pbo)
    → (tex ≢ 0 → s.texture ≢ tex)
    → Leaves (renew_calls a pbo buffer width height pw ph resize engine tex) s
unfolding renew_calls after
renew_calls-Leaves a pbo buffer width height pw ph false engine tex s pack texture h = refl
renew_calls-Leaves a pbo buffer width height pw ph true engine tex s pack texture h =
    let new = new_engine_calls a pbo buffer width height pw ph in
    ++-Leaves (cleanup_calls pbo engine ++ delete_old_texture tex) new s
      (++-Leaves (cleanup_calls pbo engine) (delete_old_texture tex) s
        (λ _. cleanup_calls-Leaves pbo engine s pack)
        (λ _. delete_old_texture-Leaves tex s texture))
      (new_engine_calls-Leaves a pbo buffer width height pw ph s) h

-- The loop over the draw buffers.
pub get_draw_buffers-Leaves :
    (rounds i : ℕ) (buffers : ℕ → ℕ) (s : GlState)
    → AreAnswered (get_draw_buffers rounds i buffers) s
    → (after (get_draw_buffers rounds i buffers) s ≡ s)
      × ((j : ℕ) → i ≤ j → j < i + rounds → buffers j ≡ s.draw_buffers_of s.draw_framebuffer j)
unfolding get_draw_buffers after AreAnswered IsAnswered call_effect
get_draw_buffers-Leaves zero i buffers s h = (refl, λ j low high. absurd (omega arith))
get_draw_buffers-Leaves (suc rounds) i buffers s (here, later) =
    let (same, all) = get_draw_buffers-Leaves rounds (suc i) buffers s later in
    (
      same,
      λ j low high. elim (Bool-cases (j == i)) [
        | inl e ↦
            subst (λ k. buffers k ≡ s.draw_buffers_of s.draw_framebuffer k) (sym ((==_iff j i).0 e))
              here
        | inr e ↦ all j (ground arith) (omega arith)
      ],
    )

-- Behind the number that `trim` gives there are none.
pub trim_lem : (n : ℕ) (buffers : ℕ → ℕ) (i : ℕ) → i < n → trim n buffers ≤ i → buffers i ≡ 0
unfolding trim
trim_lem zero buffers i low high = absurd (omega arith)
trim_lem (suc n) buffers i low high = elim (Bool-cases (buffers n == 0)) [
  | inl e ↦ elim (Bool-cases (i == n)) [
    | inl f ↦ ap buffers ((==_iff i n).0 f) ∙ (==_iff (buffers n) 0).0 e
    | inr f ↦ trim_lem n buffers i (ground arith) (
        let k =
          subst (λ t. t ≤ i)
            (let q : trim (suc n) buffers ≡ trim n buffers = rw (e, trim) refl in q) high in
        k)
  ]
  | inr e ↦ absurd (
      let k : suc n ≤ i =
        subst (λ t. t ≤ i) (let q : trim (suc n) buffers ≡ suc n = rw (e, trim) refl in q) high in
      omega (arith, k, low))
]

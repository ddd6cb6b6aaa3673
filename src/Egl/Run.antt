-- ===== src/Egl/Run.antt =====
-- The hooks of EGL in any order: no context copies the frame of another.
use mathlib.Core.Option
use glgrab.Base.{
  ℕ, ◌≡◌, ◌≢◌, inl, inr, refl, subst, Bool, true, false, not, ◌&&◌, Option, none, some, ◌==◌,
  if◌then◌else◌, Bool-cases,
}
use glgrab.Grab.{Frame, Glgrab, ready}
use glgrab.Egl.{
  EglGrab, EglEnv, surface_size, egl_take_frame, glgrab_egl_swap_buffers,
  glgrab_egl_destroy_context, egl_destroy,
}
use glgrab.Context.{HookEnv, claim, claim_and_take}
use glgrab.Context.Own.{
  IsOwn, claim_and_take-IsOwn, claim_own, release_context-IsOwn, glgrab_destroy-IsOwn,
}

-- `shot` is the context of the last call of `glgrab_take_frame`.
pub record EglWorld : Type 0 where
  pub g : EglGrab
  pub shot : ℕ

-- A hook's work, with GLGRAB_MRB set.
pub data EglStep (S : Type 0) (w : EglWorld) : EglWorld → Type 0 where
  swap :
      (env : EglEnv S) (path : S) (is_opengl : Bool) (current read draw surface : ℕ) (called : Bool)
      (g' : EglGrab)
      → env.hook.vars.glgrab_mrb ≡ some path
      → glgrab_egl_swap_buffers env is_opengl current read draw surface w.g ≡ some (called, g')
      → EglStep S w (record { g = g'; shot = if called then current else w.shot })
  destroy_context :
      (res : Bool) (ctx : ℕ)
      → EglStep S w (record { g = glgrab_egl_destroy_context res ctx w.g; shot = w.shot })
  end_of_process :
      (pagesize : ℕ) → EglStep S w (record { g = egl_destroy pagesize w.g; shot = w.shot })

pub data EglRun (S : Type 0) (w : EglWorld) : EglWorld → Type 0 where
  rest : EglRun S w w
  step : {v u : EglWorld} → EglRun S w v → EglStep S v u → EglRun S w u

abbrev pub EglOwns : EglWorld → Type 0
EglOwns w = IsOwn w.g.ctx w.shot w.g.gl

module _ {S : Type 0} (env : EglEnv S) (path : S) (e : env.hook.vars.glgrab_mrb ≡ some path)
    (ctx shot : ℕ) where
  abbrev OwnsAfter : Option (Bool × EglGrab) → Type 0
  OwnsAfter none = Unit
  OwnsAfter (some (called, g')) = IsOwn g'.ctx (if called then ctx else shot) g'.gl

  claimed-OwnsAfter :
      (g : EglGrab) (size : Option (ℕ × ℕ)) (t : Option (Bool × ℕ × Glgrab))
      → IsOwn g.ctx shot g.gl
      → claim_and_take env.hook ctx size g.ctx g.gl ≡ t
      → OwnsAfter (Option.map (λ t. (t.0, record { gl = t.2; ctx = t.1 })) t)
  claimed-OwnsAfter g size none own runs = tt
  claimed-OwnsAfter g size (some (called, owner', gl')) own runs =
      claim_and_take-IsOwn env.hook path e ctx g.ctx shot g.gl own size called owner' gl' runs

  swap-OwnsAfter :
      (is_opengl : Bool) (read draw surface : ℕ) (g : EglGrab)
      → IsOwn g.ctx shot g.gl
      → OwnsAfter (glgrab_egl_swap_buffers env is_opengl ctx read draw surface g)
  unfolding glgrab_egl_swap_buffers egl_take_frame
  swap-OwnsAfter is_opengl read draw surface g own =
      elim (Bool-cases (is_opengl && (not (ctx == 0) && read == surface && draw == surface))) [
        | inl here ↦ rw (here) (claimed-OwnsAfter g (surface_size env.width env.height) _ own refl)
        | inr away ↦ rw (away) own
      ]

destroy-IsOwn :
    (res : Bool) (ctx shot : ℕ) (g : EglGrab)
    → IsOwn g.ctx shot g.gl
    → let g' = glgrab_egl_destroy_context res ctx g in IsOwn g'.ctx shot g'.gl
unfolding glgrab_egl_destroy_context
destroy-IsOwn true ctx shot g own = release_context-IsOwn ctx g.ctx shot g.gl own
destroy-IsOwn false ctx shot g own = own

Step-Owns : {S : Type 0} {v w : EglWorld} → EglStep S v w → EglOwns v → EglOwns w
Step-Owns {v = v} (swap env path is_opengl current read draw surface called g' e runs) own =
    subst (λ t. OwnsAfter env path e current v.shot t) runs
      (swap-OwnsAfter env path e current v.shot is_opengl read draw surface v.g own)
Step-Owns {v = v} (destroy_context res ctx) own = destroy-IsOwn res ctx v.shot v.g own
Step-Owns {v = v} (end_of_process pagesize) own =
    unfold egl_destroy in glgrab_destroy-IsOwn pagesize v.g.ctx v.shot v.g.gl own

Run-Owns : {S : Type 0} {v w : EglWorld} → EglRun S v w → EglOwns v → EglOwns w
Run-Owns rest own = own
Run-Owns (step r s) own = Step-Owns s (Run-Owns r own)

-- As long as GLGRAB_MRB stays set and no call overlaps another: whichever contexts swap and end,
-- in any order, a frame in the making that is found once the grabber has been claimed was shot in
-- the context that it now is to be copied in.
pub egl_frame_own :
    {S : Type 0} {v w : EglWorld} (runs : EglRun S v w) (own : EglOwns v) (env : HookEnv S)
    (path : S) (ctx owner' : ℕ) (g' : Glgrab) (f : Frame)
    → env.vars.glgrab_mrb ≡ some path
    → ctx ≢ 0
    → claim env ctx w.g.ctx w.g.gl ≡ (true, owner', g')
    → g'.state ≡ ready
    → g'.frame ≡ some f
    → w.shot ≡ ctx
egl_frame_own {w = w} runs own env path ctx owner' g' f e some_ctx claims is_ready has_frame =
    claim_own env path e ctx w.g.ctx w.shot w.g.gl (Run-Owns runs own) owner' g' f claims some_ctx
      is_ready has_frame

-- ===== src/Glx/Run.antt =====
-- The hooks of GLX in any order: no context copies the frame of another.
use mathlib.Core.Option
use glgrab.Base.{
  ℕ, ◌≡◌, ◌≢◌, inl, inr, refl, subst, Bool, true, not, ◌&&◌, List, Option, none, some, ◌==◌,
  if◌then◌else◌, Bool-cases,
}
use glgrab.Grab.{Frame, Glgrab, ready}
use glgrab.Glx.{Winmap}
use glgrab.Glx.Swap.{
  GlxGrab, SwapEnv, take_sized, take_frame, glgrab_glx_swap_buffers, glgrab_glx_destroy_context,
  destroy,
}
use glgrab.Context.{HookEnv, claim, claim_and_take}
use glgrab.Context.Own.{
  IsOwn, claim_and_take-IsOwn, claim_own, release_context-IsOwn, glgrab_destroy-IsOwn,
}

-- `shot` is the context of the last call of `glgrab_take_frame`.
pub record World : Type 0 where
  pub g : GlxGrab
  pub shot : ℕ

-- A hook's work, with GLGRAB_MRB set; `windows` stands for the hooks that change the list of
-- windows.
pub data Step (S : Type 0) (w : World) : World → Type 0 where
  swap :
      (env : SwapEnv S) (path : S) (current draw read drawable : ℕ) (called : Bool) (g' : GlxGrab)
      → env.hook.vars.glgrab_mrb ≡ some path
      → glgrab_glx_swap_buffers env current draw read drawable w.g ≡ some (called, g')
      → Step S w (record { g = g'; shot = if called then current else w.shot })
  destroy_context :
      (ctx : ℕ) → Step S w (record { g = glgrab_glx_destroy_context ctx w.g; shot = w.shot })
  windows : (l : List Winmap) → Step S w (record { g = record (w.g) { winmap = l }; shot = w.shot })
  end_of_process : (pagesize : ℕ) → Step S w (record { g = destroy pagesize w.g; shot = w.shot })

pub data Run (S : Type 0) (w : World) : World → Type 0 where
  rest : Run S w w
  step : {v u : World} → Run S w v → Step S v u → Run S w u

abbrev pub Owns : World → Type 0
Owns w = IsOwn w.g.ctx w.shot w.g.gl

module _ {S : Type 0} (env : SwapEnv S) (path : S) (e : env.hook.vars.glgrab_mrb ≡ some path)
    (ctx shot : ℕ) where
  abbrev OwnsAfter : Option (Bool × GlxGrab) → Type 0
  OwnsAfter none = Unit
  OwnsAfter (some (called, g')) = IsOwn g'.ctx (if called then ctx else shot) g'.gl

  claimed-OwnsAfter :
      (g : GlxGrab) (size : Option (ℕ × ℕ)) (t : Option (Bool × ℕ × Glgrab))
      → IsOwn g.ctx shot g.gl
      → claim_and_take env.hook ctx size g.ctx g.gl ≡ t
      → OwnsAfter (Option.map (λ t. (t.0, record g { ctx = t.1; gl = t.2 })) t)
  claimed-OwnsAfter g size none own runs = tt
  claimed-OwnsAfter g size (some (called, owner', gl')) own runs =
      claim_and_take-IsOwn env.hook path e ctx g.ctx shot g.gl own size called owner' gl' runs

  take_sized-OwnsAfter :
      (size : Option (ℕ × ℕ)) (g : GlxGrab)
      → IsOwn g.ctx shot g.gl
      → OwnsAfter (take_sized env ctx size g)
  unfolding take_sized
  take_sized-OwnsAfter none g own = own
  take_sized-OwnsAfter (some size) g own = claimed-OwnsAfter g (some size) _ own refl

  swap-OwnsAfter :
      (draw read drawable : ℕ) (g : GlxGrab)
      → IsOwn g.ctx shot g.gl
      → OwnsAfter (glgrab_glx_swap_buffers env ctx draw read drawable g)
  unfolding glgrab_glx_swap_buffers take_frame
  swap-OwnsAfter draw read drawable g own =
      elim (Bool-cases (not (ctx == 0) && draw == drawable && read == drawable)) [
        | inl here ↦ rw (here) (take_sized-OwnsAfter _ _ own)
        | inr away ↦ rw (away) own
      ]

Step-Owns : {S : Type 0} {v w : World} → Step S v w → Owns v → Owns w
Step-Owns {v = v} (swap env path current draw read drawable called g' e runs) own =
    subst (λ t. OwnsAfter env path e current v.shot t) runs
      (swap-OwnsAfter env path e current v.shot draw read drawable v.g own)
Step-Owns {v = v} (destroy_context ctx) own =
    unfold glgrab_glx_destroy_context in release_context-IsOwn ctx v.g.ctx v.shot v.g.gl own
Step-Owns (windows l) own = own
Step-Owns {v = v} (end_of_process pagesize) own =
    unfold destroy in glgrab_destroy-IsOwn pagesize v.g.ctx v.shot v.g.gl own

Run-Owns : {S : Type 0} {v w : World} → Run S v w → Owns v → Owns w
Run-Owns rest own = own
Run-Owns (step r s) own = Step-Owns s (Run-Owns r own)

-- As long as GLGRAB_MRB stays set and no call overlaps another: whichever contexts swap and end,
-- in any order, a frame in the making that `take_frame` finds once it has claimed the grabber was
-- shot in the context that it now is to be copied in.
pub glx_frame_own :
    {S : Type 0} {v w : World} (runs : Run S v w) (own : Owns v) (env : HookEnv S) (path : S)
    (ctx owner' : ℕ) (g' : Glgrab) (f : Frame)
    → env.vars.glgrab_mrb ≡ some path
    → ctx ≢ 0
    → claim env ctx w.g.ctx w.g.gl ≡ (true, owner', g')
    → g'.state ≡ ready
    → g'.frame ≡ some f
    → w.shot ≡ ctx
glx_frame_own {w = w} runs own env path ctx owner' g' f e some_ctx claims is_ready has_frame =
    claim_own env path e ctx w.g.ctx w.shot w.g.gl (Run-Owns runs own) owner' g' f claims some_ctx
      is_ready has_frame

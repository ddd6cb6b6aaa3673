-- ===== src/Context.antt =====
-- The context that is grabbed from: what glx.c and egl.c do alike at a swap of buffers. Contexts
-- are numbers, and 0 stands for NULL and for EGL_NO_CONTEXT.
pub mod Rest
pub mod Own
pub mod Samples
use mathlib.Core.Option
use glgrab.Base.{ℕ, Bool, true, false, not, Option, none, some, ◌==◌, if◌then◌else◌}
use glgrab.Mrb.Create.{CreateEnv}
use glgrab.Grab.{
  Glgrab, TakeEnv, Strtoll, Environment, glgrab_init_from_env, glgrab_reset, glgrab_take_frame,
}

-- What the functions of glgrab.c find outside: the environment, the kernel, the clock, OpenGL.
pub record HookEnv (S : Type 0) : Type 0 where
  pub strtoll : S → Strtoll
  pub vars : Environment S
  pub create : CreateEnv
  pub time : ℕ
  pub fbo : ℕ
  pub take : TakeEnv

module _ {S : Type 0} (env : HookEnv S) (ctx : ℕ) where
  -- `owner` is `g->ctx`. The first context becomes the owner, and the grabber is set up for it;
  -- any other than the owner is turned away. The result says whether to go on.
  unfoldable pub claim : ℕ → Glgrab → Bool × ℕ × Glgrab
  claim owner g =
      let (rc, g1, calls) = glgrab_init_from_env env.strtoll env.vars env.create env.time g in
      let (ok, g2) = glgrab_reset env.fbo g1 in
      if owner == 0
      then (if not (rc == 0) then (false, ctx, g1) else (ok, ctx, g2))
      else (owner == ctx, owner, g)

  -- With the size of the window, if it is known, the frame is taken; the first component says
  -- whether `glgrab_take_frame` was called.
  unfoldable pub claim_and_take : Option (ℕ × ℕ) → ℕ → Glgrab → Option (Bool × ℕ × Glgrab)
  claim_and_take none owner g = let (ok, owner', g') = claim owner g in some (false, owner', g')
  claim_and_take (some (width, height)) owner g =
      let (ok, owner', g') = claim owner g in
      if not ok
      then some (false, owner', g')
      else Option.map (λ t. (true, owner', t.1)) (glgrab_take_frame env.take width height g')

-- The compare and exchange of the hooks for the end of a context.
unfoldable pub release_context : ℕ → ℕ → ℕ
release_context ctx owner = if owner == ctx then 0 else owner

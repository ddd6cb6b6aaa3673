-- ===== src/Context/Rest.antt =====
-- What the functions of glgrab.c do to a grabber that no call is in progress on.
use mathlib.Core.Option
use glgrab.Base.{
  ℕ, ◌≡◌, ◌≢◌, ◌⊎◌, inl, inr, refl, sym, ◌∙◌, ap, arith, Bool, true, false, Option, none, some,
  ◌==◌, Bool-cases, ==_iff, ==_of_ne, ne_of_==, some_inj,
}
use glgrab.Mrb.Create.{CreateEnv}
use glgrab.Grab.{
  State, virgin, initializing, ready, in_use, failed, Glgrab, Init, Strtoll, TakeEnv, Environment,
  try_lock, compare_exchange, glgrab_init, glgrab_init_from_env, glgrab_reset, glgrab_take_frame,
  take_locked,
}
use glgrab.Grab.Lifecycle.{glgrab_init_lem}
use glgrab.Context.{HookEnv, claim}

-- No call is in progress.
abbrev pub IsIdle : State → Type 0
IsIdle s = (s ≢ initializing) × (s ≢ in_use)

glgrab_reset-ready :
    (fbo : ℕ) (g : Glgrab)
    → g.state ≡ ready
    → glgrab_reset fbo g
      ≡ (true, record g { fbo = fbo; tex = 0; engine = none; frame = none; state = ready })
unfolding glgrab_reset try_lock compare_exchange
glgrab_reset-ready fbo g e = rw (e) refl

only_ready : (s : State) → IsIdle s → s ≢ virgin → s ≢ failed → s ≡ ready
only_ready virgin idle a b = absurd (a refl)
only_ready initializing idle a b = absurd (idle.0 refl)
only_ready ready idle a b = refl
only_ready in_use idle a b = absurd (idle.1 refl)
only_ready failed idle a b = absurd (b refl)

-- What `glgrab_init` leaves of a grabber at rest.
abbrev Started : Init → Type 0
Started (rc, g', calls) = ((rc ≡ 0) × (g'.state ≡ ready)) ⊎ ((rc ≢ 0) × (g'.state ≡ failed))

glgrab_init-Started :
    (env : CreateEnv) (time : ℕ) (g : Glgrab) (bufsize max : ℕ)
    → IsIdle g.state
    → Started (glgrab_init env time g bufsize max)
glgrab_init-Started env time g bufsize max idle = elim (glgrab_init_lem env time g bufsize max) [
  | inl (_, _, inl (rc, now_ready, _)) ↦ inl (rc, now_ready)
  | inl (_, _, inr (rc, now_failed)) ↦ inr (rc, now_failed)
  | inr (_, same, _, inl (was_failed, rc)) ↦
      inr (omega (arith, rc), ap (λ (t : Glgrab). t.state) same ∙ was_failed)
  | inr (not_virgin, same, _, inr (not_failed, rc)) ↦
      inl (rc, ap (λ (t : Glgrab). t.state) same ∙ only_ready g.state idle not_virgin not_failed)
]

init_from_env-Started :
    {S : Type 0} (strtoll : S → Strtoll) (vars : Environment S) (path : S) (env : CreateEnv)
    (time : ℕ) (g : Glgrab)
    → vars.glgrab_mrb ≡ some path
    → IsIdle g.state
    → Started (glgrab_init_from_env strtoll vars env time g)
unfolding glgrab_init_from_env
init_from_env-Started strtoll vars path env time g e idle =
    rw (e) (glgrab_init-Started env time g _ _ idle)

pub ready-IsIdle : IsIdle ready
ready-IsIdle = (λ e. cc, λ e. cc)

pub failed-IsIdle : IsIdle failed
failed-IsIdle = (λ e. cc, λ e. cc)

-- What `claim` comes to for a grabber at rest.
abbrev pub Claimed : ℕ → ℕ → Glgrab → Bool × ℕ × Glgrab → Type 0
Claimed ctx owner g (ok, owner', g') =
    ((owner ≡ 0)
      × (owner' ≡ ctx)
      × (((ok ≡ true) × (g'.state ≡ ready) × (g'.frame ≡ none))
          ⊎ ((ok ≡ false) × (g'.state ≡ failed))))
    ⊎ ((owner ≢ 0)
        × (owner' ≡ owner)
        × (g' ≡ g)
        × (((ok ≡ true) × (owner ≡ ctx)) ⊎ ((ok ≡ false) × (owner ≢ ctx))))

module _ {S : Type 0} (env : HookEnv S) (path : S) (e : env.vars.glgrab_mrb ≡ some path)
    (ctx : ℕ) where
  pub claim-Claimed :
      (owner : ℕ) (g : Glgrab) → IsIdle g.state → Claimed ctx owner g (claim env ctx owner g)
  unfolding claim
  claim-Claimed owner g idle =
      let g1 = (glgrab_init_from_env env.strtoll env.vars env.create env.time g).1 in
      elim (Bool-cases (owner == 0)) [
        | inl first ↦
            elim (init_from_env-Started env.strtoll env.vars path env.create env.time g e idle) [
              | inl (rc, now_ready) ↦
                  rw (first, rc, glgrab_reset-ready env.fbo g1 now_ready)
                    (inl ((==_iff owner 0).0 first, refl, inl (refl, refl, refl)))
              | inr (rc, now_failed) ↦
                  rw
                    (
                      first,
                      ==_of_ne (glgrab_init_from_env env.strtoll env.vars env.create env.time g).0 0
                          rc,
                    )
                    (inl ((==_iff owner 0).0 first, refl, inr (refl, now_failed)))
            ]
        | inr later ↦ elim (Bool-cases (owner == ctx)) [
          | inl same ↦
              rw (later, same)
                (inr (ne_of_== owner 0 later, refl, refl, inl (refl, (==_iff owner ctx).0 same)))
          | inr other ↦
              rw (later, other)
                (inr (ne_of_== owner 0 later, refl, refl, inr (refl, ne_of_== owner ctx other)))
        ]
      ]

unlock_ready :
    (o : Option (Bool × Glgrab)) (ok : Bool) (g' : Glgrab)
    → Option.map {B = Bool × Glgrab} (λ t. (t.0, record (t.1) { state = ready })) o ≡ some (ok, g')
    → g'.state ≡ ready
unlock_ready none ok g' e = absurd (let clash : none ≡ some (ok, g') = e in cc)
unlock_ready (some t) ok g' e = sym (ap (λ (t : Bool × Glgrab). t.1.state) (some_inj e))

module _ (env : TakeEnv) (width height : ℕ) (g : Glgrab) where
  take_frame-ready :
      g.state ≡ ready
      → glgrab_take_frame env width height g
        ≡ Option.map {B = Bool × Glgrab}
            (λ t. (t.0, record (t.1) { state = ready }))
            (take_locked env width height (record g { state = in_use }))
  unfolding glgrab_take_frame try_lock compare_exchange
  take_frame-ready e = rw (e) refl

  take_frame-failed : g.state ≡ failed → glgrab_take_frame env width height g ≡ some (false, g)
  unfolding glgrab_take_frame try_lock compare_exchange
  take_frame-failed e = rw (e) refl

  take_frame-virgin : g.state ≡ virgin → glgrab_take_frame env width height g ≡ some (false, g)
  unfolding glgrab_take_frame try_lock compare_exchange
  take_frame-virgin e = rw (e) refl

  -- `glgrab_take_frame` leaves a grabber at rest as it is, or ready if it was ready.
  pub take_frame-state :
      (s : State) (ok : Bool) (g' : Glgrab)
      → g.state ≡ s
      → IsIdle g.state
      → glgrab_take_frame env width height g ≡ some (ok, g')
      → ((g.state ≡ ready) × (g'.state ≡ ready)) ⊎ ((g.state ≢ ready) × (g' ≡ g))
  take_frame-state ready ok g' at idle e =
      inl (at, unlock_ready _ ok g' (sym (take_frame-ready at) ∙ e))
  take_frame-state failed ok g' at idle e = inr (
    λ r. let c : failed ≡ ready = sym at ∙ r in cc,
    ap (λ (t : Bool × Glgrab). t.1) (some_inj (sym e ∙ take_frame-failed at)),
  )
  take_frame-state virgin ok g' at idle e = inr (
    λ r. let c : virgin ≡ ready = sym at ∙ r in cc,
    ap (λ (t : Bool × Glgrab). t.1) (some_inj (sym e ∙ take_frame-virgin at)),
  )
  take_frame-state initializing ok g' at idle e = absurd (idle.0 at)
  take_frame-state in_use ok g' at idle e = absurd (idle.1 at)

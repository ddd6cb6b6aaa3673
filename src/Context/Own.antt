-- ===== src/Context/Own.antt =====
-- A frame in the making belongs to the context that it was shot in.
use mathlib.Core.Option
use glgrab.Base.{
  ℕ, ◌≡◌, ◌≢◌, inl, inr, refl, sym, ◌∙◌, ap, subst, Bool, true, Option, none, some, ◌==◌,
  if◌then◌else◌, Bool-cases,
}
use glgrab.Grab.{
  virgin, ready, failed, Frame, Glgrab, TakeEnv, try_lock, compare_exchange, glgrab_destroy,
  glgrab_take_frame,
}
use glgrab.Context.{HookEnv, claim, claim_and_take, release_context}
use glgrab.Context.Rest.{IsIdle, ready-IsIdle, failed-IsIdle, claim-Claimed, take_frame-state}

-- `shot` is the context of the last call of `glgrab_take_frame`. A frame that is in the making,
-- while a context owns the grabber, was shot in that context.
pub record IsOwn (owner shot : ℕ) (g : Glgrab) : Type 0 where
  pub idle : IsIdle g.state
  pub own : (f : Frame) → g.state ≡ ready → g.frame ≡ some f → owner ≢ 0 → shot ≡ owner

-- A call of `glgrab_take_frame` in the context that owns the grabber.
take_frame-IsOwn :
    (env : TakeEnv) (width height ctx owner : ℕ) (g : Glgrab) (ok : Bool) (g' : Glgrab)
    → owner ≡ ctx
    → IsIdle g.state
    → glgrab_take_frame env width height g ≡ some (ok, g')
    → IsOwn owner ctx g'
take_frame-IsOwn env width height ctx owner g ok g' mine idle e =
    elim (take_frame-state env width height g g.state ok g' refl idle e) [
      | inl (_, now) ↦ record {
        idle = subst (λ t. IsIdle t) (sym now) ready-IsIdle;
        own = λ f _ _ _. sym mine;
      }
      | inr (_, same) ↦ record {
        idle = subst (λ (t : Glgrab). IsIdle t.state) (sym same) idle;
        own = λ f _ _ _. sym mine;
      }
    ]

module _ {S : Type 0} (env : HookEnv S) (path : S) (e : env.vars.glgrab_mrb ≡ some path)
    (ctx owner shot : ℕ) (g : Glgrab) (own : IsOwn owner shot g) where
  abbrev result : Bool × ℕ × Glgrab
  result = claim env ctx owner g

  -- `claim` leaves a frame only if it was shot in the context that owns the grabber.
  claim-IsOwn : IsOwn result.1 shot result.2
  claim-IsOwn = elim (claim-Claimed env path e ctx owner g own.idle) [
    | inl (_, _, inl (_, now, empty)) ↦ record {
      idle = subst (λ t. IsIdle t) (sym now) ready-IsIdle;
      own = λ f _ h _. absurd (let clash : none ≡ some f = sym empty ∙ h in cc);
    }
    | inl (_, _, inr (_, now)) ↦ record {
      idle = subst (λ t. IsIdle t) (sym now) failed-IsIdle;
      own = λ f h _ _. absurd (let clash : failed ≡ ready = sym now ∙ h in cc);
    }
    | inr (_, kept, same, _) ↦
        subst (λ o. IsOwn o shot result.2) (sym kept)
          (subst (λ t. IsOwn owner shot t) (sym same) own)
  ]

  claim_mine : result.0 ≡ true → result.1 ≡ ctx
  claim_mine ok = elim (claim-Claimed env path e ctx owner g own.idle) [
    | inl (_, now, _) ↦ now
    | inr (_, kept, _, inl (_, mine)) ↦ kept ∙ mine
    | inr (_, _, _, inr (not_ok, _)) ↦ absurd (let clash = sym not_ok ∙ ok in cc)
  ]

  abbrev OwnAfter : Option (Bool × ℕ × Glgrab) → Type 0
  OwnAfter none = Unit
  OwnAfter (some (called, owner', g')) = IsOwn owner' (if called then ctx else shot) g'

  taken-OwnAfter :
      (width height : ℕ) (t : Option (Bool × Glgrab))
      → result.0 ≡ true
      → glgrab_take_frame env.take width height result.2 ≡ t
      → OwnAfter (Option.map (λ t. (true, result.1, t.1)) t)
  taken-OwnAfter width height none ok at = tt
  taken-OwnAfter width height (some (b, g')) ok at =
      take_frame-IsOwn env.take width height ctx result.1 result.2 b g' (claim_mine ok)
        claim-IsOwn.idle at

  claim_and_take-OwnAfter : (size : Option (ℕ × ℕ)) → OwnAfter (claim_and_take env ctx size owner g)
  unfolding claim_and_take
  claim_and_take-OwnAfter none = claim-IsOwn
  claim_and_take-OwnAfter (some (width, height)) = elim (Bool-cases result.0) [
    | inl ok ↦ rw (ok) (taken-OwnAfter width height _ ok refl)
    | inr not_ok ↦ rw (not_ok) claim-IsOwn
  ]

  -- Past a swap of buffers.
  pub claim_and_take-IsOwn :
      (size : Option (ℕ × ℕ)) (called : Bool) (owner' : ℕ) (g' : Glgrab)
      → claim_and_take env ctx size owner g ≡ some (called, owner', g')
      → IsOwn owner' (if called then ctx else shot) g'
  claim_and_take-IsOwn size called owner' g' runs =
      subst (λ t. OwnAfter t) runs (claim_and_take-OwnAfter size)

  -- A frame that is left past `claim` was shot in the context that goes on.
  pub claim_own :
      (owner' : ℕ) (g' : Glgrab) (f : Frame)
      → claim env ctx owner g ≡ (true, owner', g')
      → ctx ≢ 0
      → g'.state ≡ ready
      → g'.frame ≡ some f
      → shot ≡ ctx
  claim_own owner' g' f c some_ctx is_ready has_frame =
      let ok = ap (λ (t : Bool × ℕ × Glgrab). t.0) c in
      let same = ap (λ (t : Bool × ℕ × Glgrab). t.2) c in
      let mine = claim_mine ok in
      let r = ap (λ (t : Glgrab). t.state) same ∙ is_ready in
      let h = ap (λ (t : Glgrab). t.frame) same ∙ has_frame in
      claim-IsOwn.own f r h (λ z. some_ctx (sym mine ∙ z)) ∙ mine

-- Past the end of a context.
pub release_context-IsOwn :
    (ctx owner shot : ℕ) (g : Glgrab)
    → IsOwn owner shot g
    → IsOwn (release_context ctx owner) shot g
unfolding release_context
release_context-IsOwn ctx owner shot g own = elim (Bool-cases (owner == ctx)) [
  | inl e ↦ rw (e) (record { idle = own.idle; own = λ f r h ne. absurd (ne refl) })
  | inr e ↦ rw (e) own
]

virgin-IsIdle : IsIdle virgin
virgin-IsIdle = (λ e. cc, λ e. cc)

-- Past `glgrab_destroy`, which makes a ready grabber virgin and leaves any other as it is.
pub glgrab_destroy-IsOwn :
    (pagesize owner shot : ℕ) (g : Glgrab)
    → IsOwn owner shot g
    → IsOwn owner shot (glgrab_destroy pagesize g).1
unfolding glgrab_destroy try_lock compare_exchange
glgrab_destroy-IsOwn pagesize owner shot g own = elim (Bool-cases (try_lock g.state).0) [
  | inl e ↦
      rw (e) (record {
        idle = virgin-IsIdle;
        own = λ f r h ne. absurd (let c : virgin ≡ ready = r in cc);
      })
  | inr e ↦ rw (e) own
]

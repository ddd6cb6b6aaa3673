-- ===== src/Grab/Lifecycle.antt =====
-- The life of a grabber: `glgrab_init`, `glgrab_destroy`, `glgrab_reset`.
use glgrab.Base.{
  ℕ, ◌+◌, ◌-◌, ◌∷◌, ◌≤◌, arith, ==_of_ne, ◌^◌, ◌<◌, ◌≡◌, ◌≢◌, ◌⊎◌, inl, inr, refl, sym, ◌∙◌, ap,
  none, some, [], ◌==◌, ==_of_eq, ==_iff, Bool-cases,
}
use glgrab.Mrb.{Item}
use glgrab.Mrb.Create.{CreateEnv, mrb_create, mrb_shutdown, munmap}
use glgrab.Mrb.Created.{IsPage, mrb_create-IsValid}
use glgrab.Mrb.Session.{IsSound}
use glgrab.Mrb.Chain.{IsValid}
use glgrab.Grab.{
  State, virgin, initializing, ready, in_use, failed, Frame, Glgrab, Init, glgrab_init, init_locked,
  glgrab_destroy, compare_exchange, try_lock, einval,
}
use glgrab.Grab.Lawful.{session, IsBacked}

init-virgin :
    (env : CreateEnv) (time : ℕ) (g : Glgrab) (bufsize max : ℕ)
    → g.state ≡ virgin
    → glgrab_init env time g bufsize max
      ≡ init_locked env time (record g { state = initializing }) bufsize max
unfolding glgrab_init compare_exchange
init-virgin env time g bufsize max e = rw (e) refl

-- What `glgrab_init` comes to, by the state that it finds.
abbrev InitResult : CreateEnv → ℕ → Glgrab → Init → ℕ → ℕ → Type 0
InitResult env time g (rc, g', calls) bufsize max =
    ((g.state ≡ virgin)
      × (rc ≡ (mrb_create env g.rb bufsize max).rc)
      × (((rc ≡ 0) × (g'.state ≡ ready) × (g'.start_time ≡ time))
          ⊎ ((rc ≢ 0) × (g'.state ≡ failed))))
    ⊎ ((g.state ≢ virgin)
        × (g' ≡ g)
        × (calls ≡ [])
        × (((g.state ≡ failed) × (rc ≡ einval)) ⊎ ((g.state ≢ failed) × (rc ≡ 0))))

locked_result :
    (env : CreateEnv) (time : ℕ) (g : Glgrab) (bufsize max : ℕ)
    → g.state ≡ virgin
    → InitResult env time g
        (init_locked env time (record g { state = initializing }) bufsize max)
        bufsize
        max
unfolding init_locked
locked_result env time g bufsize max e =
    let rc = (mrb_create env g.rb bufsize max).rc in
    elim (Bool-cases (rc == 0)) [
      | inl good ↦ rw (good) (inl (e, sym ((==_iff rc 0).0 good), inl (refl, refl, refl)))
      | inr bad ↦ rw (bad) (inl (e, refl, inr (λ z. absurd (let c = ==_of_eq rc 0 z in cc), refl)))
    ]

by_state :
    (env : CreateEnv) (time : ℕ) (g : Glgrab) (bufsize max : ℕ) (s : State)
    → g.state ≡ s
    → InitResult env time g (glgrab_init env time g bufsize max) bufsize max
unfolding glgrab_init compare_exchange
by_state env time g bufsize max virgin e =
    rw (init-virgin env time g bufsize max e) (locked_result env time g bufsize max e)
by_state env time g bufsize max failed e = rw (e) (inr (λ x. cc, refl, refl, inl (refl, refl)))
by_state env time g bufsize max initializing e =
    rw (e) (inr (λ x. cc, refl, refl, inr (λ x. cc, refl)))
by_state env time g bufsize max ready e = rw (e) (inr (λ x. cc, refl, refl, inr (λ x. cc, refl)))
by_state env time g bufsize max in_use e = rw (e) (inr (λ x. cc, refl, refl, inr (λ x. cc, refl)))

-- From a grabber that has not been used, `glgrab_init` returns what `mrb_create` returns, and
-- leaves the grabber ready where that is 0, and failed otherwise. After a failure every call
-- returns EINVAL, and in every other state it returns 0; both change nothing.
pub glgrab_init_lem :
    (env : CreateEnv) (time : ℕ) (g : Glgrab) (bufsize max : ℕ)
    → let (rc, g', calls) = glgrab_init env time g bufsize max in
      ((g.state ≡ virgin)
        × (rc ≡ (mrb_create env g.rb bufsize max).rc)
        × (((rc ≡ 0) × (g'.state ≡ ready) × (g'.start_time ≡ time))
            ⊎ ((rc ≢ 0) × (g'.state ≡ failed))))
      ⊎ ((g.state ≢ virgin)
          × (g' ≡ g)
          × (calls ≡ [])
          × (((g.state ≡ failed) × (rc ≡ einval)) ⊎ ((g.state ≢ failed) × (rc ≡ 0))))
glgrab_init_lem env time g bufsize max = by_state env time g bufsize max g.state refl

-- A grabber that has not been used, without a frame or a reservation, and that glgrab_init has
-- made ready, with pages of 128 bytes to 64 KiB and a size of 1 or more that comes with a page to
-- less than 2^63, has a ring buffer that holds no messages, and is valid and sound for a client
-- that has reserved nothing.
pub glgrab_init-IsSound :
    (env : CreateEnv) (time : ℕ) (g : Glgrab) (bufsize max k : ℕ)
    → g.state ≡ virgin
    → g.rb.next.seq ≡ 0
    → g.frame ≡ none
    → IsPage env.pagesize k
    → 0 < bufsize
    → bufsize + env.pagesize < 2 ^ 63
    → env.errno ≢ 0
    → (glgrab_init env time g bufsize max).0 ≡ 0
    → let g' = (glgrab_init env time g bufsize max).1 in
      (g'.state ≡ ready)
      × IsValid g'.rb.layout g'.shared []
      × IsSound (session g' none)
      × IsBacked g' none
unfolding init_locked
glgrab_init-IsSound env time g bufsize max k is_virgin idle empty page pos small errno ok =
    let rc : (mrb_create env g.rb bufsize max).rc ≡ 0 =
      elim (glgrab_init_lem env time g bufsize max) [
        | inl (_, same, _) ↦ sym same ∙ ok
        | inr (ne, _, _, _) ↦ absurd (ne is_virgin)
      ] in
    let (valid, _, _, _, kept) =
      mrb_create-IsValid env g.rb bufsize max k page pos small errno rc in
    rw (init-virgin env time g bufsize max is_virgin, ==_of_eq _ 0 rc)
      (
        refl,
        valid,
        record {
          lens = [];
          valid = valid;
          promise = inl (ap (λ (t : Item). t.seq) kept ∙ idle, refl);
        },
        λ f e. absurd (let c : none ≡ some f = sym empty ∙ e in cc),
      )

init_locked-again :
    (env : CreateEnv) (time : ℕ) (g : Glgrab) (bufsize max : ℕ)
    → (init_locked env time g bufsize max).0 ≡ 0
    → let g' = (init_locked env time g bufsize max).1 in (g'.state ≡ ready) × (g'.frame ≡ g.frame)
unfolding init_locked
init_locked-again env time g bufsize max ok =
    elim (Bool-cases ((mrb_create env g.rb bufsize max).rc == 0)) [
      | inl good ↦ rw (good) (refl, refl)
      | inr bad ↦ absurd (ground arith)
    ]

destroyed :
    (pagesize : ℕ) (g : Glgrab)
    → g.state ≡ ready
    → g.rb.base ≢ 0
    → let (_, gone, calls) = glgrab_destroy pagesize g in
      (gone.state ≡ virgin)
      × (gone.frame ≡ g.frame)
      × (calls ≡ munmap (g.rb.base - pagesize) (pagesize + g.rb.size + g.rb.max_item_size) ∷ [])
unfolding glgrab_destroy try_lock compare_exchange mrb_shutdown
destroyed pagesize g e mapped = rw (e, ==_of_ne g.rb.base 0 mapped) (refl, refl, refl)

-- A ready grabber has a frame in the making, in the mapping of its ring buffer. glgrab_destroy
-- unmaps the memory that the frame stands in, but does not forget it: after another glgrab_init
-- that succeeds the grabber is ready, and its frame is still the old one.
pub glgrab_destroy-frame :
    (pagesize : ℕ) (env : CreateEnv) (time : ℕ) (g : Glgrab) (bufsize max : ℕ) (f : Frame)
    → g.state ≡ ready
    → g.frame ≡ some f
    → g.rb.base ≢ 0
    → pagesize ≤ g.rb.base
    → g.rb.base ≤ f.ptr
    → f.ptr < g.rb.base + g.rb.size + g.rb.max_item_size
    → (glgrab_init env time (glgrab_destroy pagesize g).1 bufsize max).0 ≡ 0
    → let (_, gone, calls) = glgrab_destroy pagesize g in
      let (_, again, _) = glgrab_init env time gone bufsize max in
      ((a : ℕ) × (n : ℕ) × (calls ≡ munmap a n ∷ []) × (a ≤ f.ptr) × (f.ptr < a + n))
      × (again.state ≡ ready)
      × (again.frame ≡ some f)
glgrab_destroy-frame pagesize env time g bufsize max f is_ready frame mapped page low high ok =
    let (now_virgin, kept, calls) = destroyed pagesize g is_ready mapped in
    let gone = (glgrab_destroy pagesize g).1 in
    let same = init-virgin env time gone bufsize max now_virgin in
    let (now_ready, as_before) =
      init_locked-again env time (record gone { state = initializing }) bufsize max
        (ap (λ (r : Init). r.0) (sym same) ∙ ok) in
    (
      (
        g.rb.base - pagesize,
        pagesize + g.rb.size + g.rb.max_item_size,
        calls,
        omega arith,
        omega arith,
      ),
      ap (λ (r : Init). r.1.state) same ∙ now_ready,
      ap (λ (r : Init). r.1.frame) same ∙ as_before ∙ kept ∙ frame,
    )

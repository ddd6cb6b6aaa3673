-- ===== src/Grab/Exclusive.antt =====
-- The state word as a lock: threads that call the functions of glgrab.c at the same time, one
-- atomic access after the other.
use glgrab.Base.{
  ℕ, ◌≡◌, ◌≢◌, ◌⊎◌, inl, inr, refl, sym, ap, ◌∙◌, Bool, true, false, Option, none, some, ◌==◌,
  if◌then◌else◌, Bool-cases, ==_iff, ==_of_eq, subst, update, update_self, update_ne,
}
use glgrab.Grab.{State, virgin, initializing, ready, in_use, failed, compare_exchange, try_lock}

-- Where a thread is: in no function, in `glgrab_init` past its exchange, or past `try_lock`.
pub data Place : Type 0 where
  outside : Place
  creating : Place
  working : Place

pub record World : Type 0 where
  pub state : State
  pub place : ℕ → Place

-- An exchange that fails changes nothing, and is no step. `created` is the release of
-- `glgrab_init`, `unlocked` that of `glgrab_reset` and `glgrab_take_frame`, and `destroyed` that
-- of `glgrab_destroy`.
pub data Step (c : World) : World → Type 0 where
  create :
      (i : ℕ) (s : State)
      → c.place i ≡ outside
      → compare_exchange virgin initializing c.state ≡ (true, s)
      → Step c (record { state = s; place = update c.place i creating })
  created :
      (i : ℕ) (err : Bool)
      → c.place i ≡ creating
      → Step c (record { state = if err then failed else ready; place = update c.place i outside })
  lock :
      (i : ℕ) (s : State)
      → c.place i ≡ outside
      → try_lock c.state ≡ (true, s)
      → Step c (record { state = s; place = update c.place i working })
  unlocked :
      (i : ℕ)
      → c.place i ≡ working
      → Step c (record { state = ready; place = update c.place i outside })
  destroyed :
      (i : ℕ)
      → c.place i ≡ working
      → Step c (record { state = virgin; place = update c.place i outside })

pub data Run (c : World) : World → Type 0 where
  rest : Run c c
  step : {d e : World} → Run c d → Step d e → Run c e

-- Where the thread that owns the grabber is, by the state word; `none` if nobody does.
abbrev pub owner_place : State → Option Place
owner_place virgin = none
owner_place initializing = some creating
owner_place ready = none
owner_place in_use = some working
owner_place failed = none

-- Either nobody owns the grabber and every thread is outside, or one thread does, it is where the
-- state says, and all others are outside.
abbrev pub IsOwned : World → Type 0
IsOwned c =
    ((owner_place c.state ≡ none) × ((i : ℕ) → c.place i ≡ outside))
    ⊎ ((i : ℕ) × (owner_place c.state ≡ some (c.place i)) × ((j : ℕ) → j ≢ i → c.place j ≡ outside))

create-states :
    (s s' : State)
    → compare_exchange virgin initializing s ≡ (true, s')
    → (owner_place s ≡ none) × (s' ≡ initializing)
unfolding compare_exchange
create-states virgin s' e = (refl, sym (ap (λ (t : Bool × State). t.1) e))
create-states initializing s' e = absurd (let c = ap (λ (t : Bool × State). t.0) e in cc)
create-states ready s' e = absurd (let c = ap (λ (t : Bool × State). t.0) e in cc)
create-states in_use s' e = absurd (let c = ap (λ (t : Bool × State). t.0) e in cc)
create-states failed s' e = absurd (let c = ap (λ (t : Bool × State). t.0) e in cc)

lock-states : (s s' : State) → try_lock s ≡ (true, s') → (owner_place s ≡ none) × (s' ≡ in_use)
unfolding try_lock compare_exchange
lock-states ready s' e = (refl, sym (ap (λ (t : Bool × State). t.1) e))
lock-states initializing s' e = absurd (let c = ap (λ (t : Bool × State). t.0) e in cc)
lock-states virgin s' e = absurd (let c = ap (λ (t : Bool × State). t.0) e in cc)
lock-states in_use s' e = absurd (let c = ap (λ (t : Bool × State). t.0) e in cc)
lock-states failed s' e = absurd (let c = ap (λ (t : Bool × State). t.0) e in cc)

equal_or_not : (a b : ℕ) → (a ≡ b) ⊎ (a ≢ b)
equal_or_not a b = elim (Bool-cases (a == b)) [
  | inl e ↦ inl ((==_iff a b).0 e)
  | inr e ↦ inr (λ h. absurd (let c = ==_of_eq a b h in cc))
]

-- Taking the grabber when nobody owns it.
enter-IsOwned :
    (c : World) (i : ℕ) (s : State) (p : Place)
    → IsOwned c
    → owner_place c.state ≡ none
    → owner_place s ≡ some p
    → IsOwned (record { state = s; place = update c.place i p })
enter-IsOwned c i s p (inl (free, all)) is_free is_p = inr (
  i,
  is_p ∙ ap (λ (t : Place). some t) (sym (update_self c.place i p)),
  λ j ne. update_ne c.place i j p (λ e. ne (sym e)) ∙ all j,
)
enter-IsOwned c i s p (inr (k, owned, others)) is_free is_p =
    absurd (let e = sym is_free ∙ owned in cc)

-- Giving it back.
leave-IsOwned :
    (c : World) (i : ℕ) (s : State)
    → IsOwned c
    → c.place i ≢ outside
    → owner_place s ≡ none
    → IsOwned (record { state = s; place = update c.place i outside })
leave-IsOwned c i s (inl (free, all)) busy is_free = absurd (busy (all i))
leave-IsOwned c i s (inr (k, owned, others)) busy is_free = elim (equal_or_not i k) [
  | inr ne ↦ absurd (busy (others i ne))
  | inl same ↦ inl (
    is_free,
    λ j. elim (equal_or_not i j) [
      | inl e ↦ subst (λ t. update c.place i outside t ≡ outside) e (update_self c.place i outside)
      | inr ne ↦ update_ne c.place i j outside ne ∙ others j (λ t. ne (same ∙ sym t))
    ],
  )
]

is_owner : (p q : Place) → p ≡ q → q ≢ outside → p ≢ outside
is_owner p q e ne h = ne (sym e ∙ h)

creating-inside : creating ≢ outside
creating-inside h = cc

working-inside : working ≢ outside
working-inside h = cc

after_create : (err : Bool) → owner_place (if err then failed else ready) ≡ none
after_create true = refl
after_create false = refl

Step-IsOwned : {c d : World} → Step c d → IsOwned c → IsOwned d
Step-IsOwned {c} (create i s out e) h =
    let (free, now) = create-states c.state s e in
    enter-IsOwned c i s creating h free (ap owner_place now)
Step-IsOwned {c} (created i err at) h =
    leave-IsOwned c i _ h (is_owner _ _ at creating-inside) (after_create err)
Step-IsOwned {c} (lock i s out e) h =
    let (free, now) = lock-states c.state s e in
    enter-IsOwned c i s working h free (ap owner_place now)
Step-IsOwned {c} (unlocked i at) h = leave-IsOwned c i ready h (is_owner _ _ at working-inside) refl
Step-IsOwned {c} (destroyed i at) h =
    leave-IsOwned c i virgin h (is_owner _ _ at working-inside) refl

-- Whichever threads call the grabber's functions, in whichever order their atomic accesses come, at
-- most one of them is inside: the one that the state word speaks of, if it is `initializing` or
-- `using`, and none otherwise.
pub Run-IsOwned : {c d : World} → Run c d → IsOwned c → IsOwned d
Run-IsOwned rest h = h
Run-IsOwned (step r s) h = Step-IsOwned s (Run-IsOwned r h)

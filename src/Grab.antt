-- ===== src/Grab.antt =====
-- glgrab.c: the life cycle of the grabber and the path of a frame into the ring buffer. What
-- OpenGL, the engines and the clock answer is an argument; the calls that save and restore the
-- state of OpenGL are left out.
pub mod Align
pub mod Lifecycle
pub mod Exclusive
pub mod Lawful
pub mod Calls
pub mod Samples
mod Tests
use mathlib.Core.Option
use glgrab.Base.{
  ℕ, zero, suc, ◌+◌, ◌-◌, ◌*◌, ◌/◌, ◌%◌, ◌^◌, Bool, true, false, not, ◌&&◌, ◌||◌, Option, none,
  some, List, [], ◌==◌, if◌then◌else◌,
}
use glgrab.Mrb.{Mrb, Shared, shr}
use glgrab.Mrb.Write.{Reserved, mrb_reserve, mrb_commit}
use glgrab.Mrb.Create.{CreateEnv, Call, mrb_create, mrb_shutdown}

abbrev pub u32 : ℕ → ℕ
u32 n = n % 2 ^ 32

-- `enum state`; `in_use` is `using`, a word of this language.
pub data State : Type 0 where
  virgin : State
  initializing : State
  ready : State
  in_use : State
  failed : State

abbrev pub state_number : State → ℕ
state_number virgin = 0
state_number initializing = 1
state_number ready = 2
state_number in_use = 3
state_number failed = 4

abbrev pub is_state : State → State → Bool
is_state a b = state_number a == state_number b

-- The three engine pointers of `struct glgrab` are set together; `none` is NULL.
pub data Engine : Type 0 where
  readpixels : Engine
  cuda : Engine

-- `struct glgrab_frame` without the pixels, and where it stands.
pub record Frame : Type 0 where
  pub ptr : ℕ
  pub ns : ℕ
  pub height : ℕ
  pub width : ℕ
  pub padded_height : ℕ
  pub padded_width : ℕ

-- `struct glgrab`, with the memory of its ring buffer. `frame` is `none` for NULL; the engines'
-- own members are left out.
pub record Glgrab : Type 0 where
  pub rb : Mrb
  pub shared : Shared
  pub start_time : ℕ
  pub frame : Option Frame
  pub fbo : ℕ
  pub tex : ℕ
  pub engine : Option Engine
  pub state : State
  pub last_error : ℕ

-- `__atomic_compare_exchange_n` on the state: whether it was as expected, and what it is then.
unfoldable pub compare_exchange : State → State → State → Bool × State
compare_exchange expected desired s = if is_state s expected then (true, desired) else (false, s)

unfoldable pub try_lock : State → Bool × State
unfolding compare_exchange
try_lock s = compare_exchange ready in_use s

-- EINVAL of Linux.
abbrev pub einval : ℕ
einval = 22

abbrev pub Init : Type 0
Init = ℕ × Glgrab × List Call

-- `glgrab_init` once the state is `initializing`. `time` is what `now` returns.
unfoldable pub init_locked : CreateEnv → ℕ → Glgrab → ℕ → ℕ → Init
init_locked env time g bufsize max_frame_size =
    let c = mrb_create env g.rb bufsize max_frame_size in
    let made = record g { rb = c.handle; shared = c.shared } in
    if c.rc == 0
    then (0, record made { start_time = time; state = ready }, c.calls)
    else (c.rc, record made { state = failed }, c.calls)

unfoldable pub glgrab_init : CreateEnv → ℕ → Glgrab → ℕ → ℕ → Init
unfolding compare_exchange
glgrab_init env time g bufsize max_frame_size =
    let (swapped, state) = compare_exchange virgin initializing g.state in
    if swapped
    then init_locked env time (record g { state = state }) bufsize max_frame_size
    else (if is_state state failed then einval else 0, g, [])

-- What `strtoll`, which is not part of the repository, answers: `errno`, whether `end` points at
-- the end of the string, and the number, by its sign and its size.
pub record Strtoll : Type 0 where
  pub errno : ℕ
  pub at_end : Bool
  pub negative : Bool
  pub magnitude : ℕ

-- `none` is a string that is not there.
unfoldable pub str2int : {S : Type 0} → (S → Strtoll) → Option S → ℕ → ℕ
str2int strtoll none def = def
str2int strtoll (some s) def =
    let x = strtoll s in if x.errno == 0 && x.at_end && not x.negative then x.magnitude else def

pub record Environment (S : Type 0) : Type 0 where
  pub glgrab_mrb : Option S
  pub glgrab_bufsize : Option S
  pub glgrab_maxframe : Option S

-- `DEFAULT_MRB_SIZE`
abbrev pub default_mrb_size : ℕ
default_mrb_size = 256 * 2 ^ 20

unfoldable pub glgrab_init_from_env :
    {S : Type 0} → (S → Strtoll) → Environment S → CreateEnv → ℕ → Glgrab → Init
glgrab_init_from_env strtoll vars env time g = elim vars.glgrab_mrb [
  | none ↦ (einval, g, [])
  | some path ↦
      let bufsize = str2int strtoll vars.glgrab_bufsize default_mrb_size in
      glgrab_init env time g bufsize (str2int strtoll vars.glgrab_maxframe bufsize)
]

-- What mrb_shutdown returns is not looked at, so it does not matter what `munmap` answers.
unfoldable pub glgrab_destroy : ℕ → Glgrab → Bool × Glgrab × List Call
unfolding try_lock
glgrab_destroy pagesize g =
    let (locked, state) = try_lock g.state in
    if not locked
    then (false, g, [])
    else (let (rc, rb, shared, calls) = mrb_shutdown pagesize 0 g.rb g.shared in
        (true, record g { rb = rb; shared = shared; state = virgin }, calls))

-- `fbo` is the name that `glGenFramebuffers` gives.
unfoldable pub glgrab_reset : ℕ → Glgrab → Bool × Glgrab
unfolding try_lock
glgrab_reset fbo g =
    let (locked, state) = try_lock g.state in
    if not locked
    then (false, g)
    else (true, record g { fbo = fbo; tex = 0; engine = none; frame = none; state = ready })

-- `mask` is `~(-1 << shift)`.
unfoldable pub align : ℕ → ℕ → ℕ
align x shift = let mask = 2 ^ shift - 1 in shr (u32 (x + mask)) shift

abbrev pub width_align : ℕ
width_align = 5

abbrev pub height_align : ℕ
height_align = 1

-- The size that `glgrab_take_frame` asks `mrb_reserve` for; sizeof(struct glgrab_frame) is 64, and
-- the product is one of uint32_t.
unfoldable pub frame_size : ℕ → ℕ → ℕ
unfolding align
frame_size width height = 64 + u32 (align width width_align * align height height_align * 96)

-- Only a new error is kept, and reported.
unfoldable pub check_error : ℕ → Glgrab → Bool × Glgrab
check_error error g = (
  not (error == 0),
  record g { last_error = if error == 0 || error == g.last_error then g.last_error else error },
)

-- What OpenGL, the engine and the clock answer in one run of `glgrab_take_frame`: the three errors
-- are what `glGetError` returns at each check. `copied` is the memory once the engine has copied
-- the pixels of a frame, and `stored` once its header has been written.
pub record TakeEnv : Type 0 where
  pub before_error : ℕ
  pub copies : Bool
  pub read_error : ℕ
  pub new_tex : ℕ
  pub cuda_works : Bool
  pub shoots : Bool
  pub fill_error : ℕ
  pub time : ℕ
  pub copied : Frame → Mrb → Shared → ℕ → ℕ
  pub stored : Frame → Mrb → Shared → ℕ → ℕ

module _ (env : TakeEnv) (width height : ℕ) where
  -- The last frame is copied out of the engine and committed.
  unfoldable pub copy_pending : Frame → Glgrab → Glgrab
  copy_pending f g =
      let filled = record g { shared = record (g.shared) { word = env.copied f g.rb g.shared } } in
      let (error, checked) = check_error env.read_error filled in
      let (rb, shared) = mrb_commit filled.rb filled.shared in
      if not env.copies
      then filled
      else (if error then checked else record checked { rb = rb; shared = shared })

  -- `if (g->frame != NULL)`, for the frame and the rest; the first component is `resize`.
  unfoldable pub copy_frame : Option Frame → Glgrab → Bool × Glgrab
  copy_frame none g = (true, g)
  copy_frame (some f) g = (not (f.width == width) || not (f.height == height), copy_pending f g)

  -- `if (resize)`: another texture, and an engine for the new size.
  unfoldable pub renew : Bool → Glgrab → Glgrab
  renew resize g =
      if resize
      then record g {
        tex = env.new_tex;
        engine = some (if env.cuda_works then cuda else readpixels);
      }
      else g

  unfoldable pub new_frame : ℕ → Glgrab → Frame
  unfolding align
  new_frame ptr g = record {
    ptr = ptr;
    ns = (env.time + 2 ^ 64 - g.start_time) % 2 ^ 64;
    height = height;
    width = width;
    padded_height = u32 (align height height_align * 2 ^ height_align);
    padded_width = u32 (align width width_align * 2 ^ width_align);
  }

  -- The branch of `if (g->frame != NULL)` behind `mrb_reserve`.
  unfoldable pub shoot_frame : ℕ → Glgrab → Bool × Glgrab
  unfolding new_frame
  shoot_frame ptr g =
      let f = new_frame ptr g in
      let (error, checked) = check_error env.fill_error g in
      if not env.shoots
      then (false, record g { frame = none })
      else (if error then (false, record checked { frame = none }) else (
        true,
        record checked {
          frame = some f;
          shared = record (checked.shared) { word = env.stored f checked.rb checked.shared };
        },
      ))

  -- The second `if (g->frame != NULL)`, for what `mrb_reserve` has returned.
  unfoldable pub fill_reserved : Bool → Option ℕ → Glgrab → Bool × Glgrab
  fill_reserved resize none g = (false, record g { frame = none })
  fill_reserved resize (some ptr) g = shoot_frame ptr (renew resize g)

  -- What `glgrab_take_frame` does once it has the lock. The outer `none` is that of `mrb_reserve`.
  unfoldable pub take_locked : Glgrab → Option (Bool × Glgrab)
  take_locked g =
      let (resize, copied) = copy_frame g.frame (check_error env.before_error g).1 in
      Option.map
        (λ (r : Reserved).
          fill_reserved resize r.ptr (record copied { rb = r.handle; shared = r.shared }))
        (mrb_reserve copied.rb copied.shared (frame_size width height))

  unfoldable pub glgrab_take_frame : Glgrab → Option (Bool × Glgrab)
  unfolding try_lock
  glgrab_take_frame g =
      let (locked, state) = try_lock g.state in
      if not locked
      then some (false, g)
      else Option.map (λ t. (t.0, record (t.1) { state = ready }))
          (take_locked (record g { state = state }))

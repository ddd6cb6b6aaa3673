-- ===== src/Context/Samples.antt =====
-- What the hooks find outside, with GLGRAB_MRB set, for the tests.
use glgrab.Base.{ℕ, true, none, some}
use glgrab.Grab.{Strtoll}
use glgrab.Grab.Samples.{create_env, take_env}
use glgrab.Context.{HookEnv}

abbrev no_number : ℕ → Strtoll
no_number s = record { errno = 0; at_end = true; negative = true; magnitude = 1 }

-- The strings are numbers, and GLGRAB_MRB is 3.
abbrev pub hook_env : HookEnv ℕ
hook_env = record {
  strtoll = no_number;
  vars = record { glgrab_mrb = some 3; glgrab_bufsize = none; glgrab_maxframe = none };
  create = create_env;
  time = 9;
  fbo = 4;
  take = take_env;
}

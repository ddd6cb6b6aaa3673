-- ===== src/Grab/Samples.antt =====
-- A grabber with a ring buffer of 512 bytes, without messages, for the tests.
use glgrab.Base.{ℕ, ◌+◌, true, false, none, update}
use glgrab.Mrb.{Layout, Mrb, Shared}
use glgrab.Mrb.Chain.{tail_off}
use glgrab.Mrb.Create.{CreateEnv, null_handle, null_item, zero_file}
use glgrab.Grab.{Frame, Glgrab, TakeEnv, virgin, ready}

abbrev pub layout_512 : Layout
layout_512 = record {
  size = 512;
  data_offset = 64;
  align_bits = 6;
  off_bits = 3;
  max_item_size = 256;
}

abbrev pub no_messages : Shared
no_messages = record {
  hdr = record {
    active = 1;
    align_bits = 6;
    off_bits = 3;
    max_item_size = 256;
    head = 0;
    tail = 8;
  };
  word = λ off. 0;
}

abbrev pub zeroed : Glgrab
zeroed = record {
  rb = null_handle;
  shared = zero_file;
  start_time = 0;
  frame = none;
  fbo = 0;
  tex = 0;
  engine = none;
  state = virgin;
  last_error = 0;
}

abbrev pub grabber : Glgrab
grabber = record zeroed {
  rb = record { header = 4096; base = 8192; layout = layout_512; next = null_item };
  shared = no_messages;
  state = ready;
}

abbrev pub create_env : CreateEnv
create_env = record {
  pagesize = 4096;
  opens = true;
  truncates = true;
  maps = true;
  maps_again = true;
  closes = true;
  addr = 65536;
  errno = 5;
}

abbrev pub write_first : Frame → Mrb → Shared → ℕ → ℕ
write_first f q s = update s.word (tail_off q.layout s + 64) f.width

abbrev pub take_env : TakeEnv
take_env = record {
  before_error = 0;
  copies = true;
  read_error = 0;
  new_tex = 7;
  cuda_works = false;
  shoots = true;
  fill_error = 0;
  time = 1000;
  copied = write_first;
  stored = write_first;
}

abbrev pub old_frame : Frame
old_frame = record {
  ptr = 8256;
  ns = 1;
  height = 2;
  width = 2;
  padded_height = 2;
  padded_width = 32;
}

-- ===== src/Mrb/Opened/Tests.antt =====
-- A reader that opens a buffer at concrete inputs.
use glgrab.Base.{◌≡◌, refl, sym, arith, true, false, none}
use glgrab.Mrb.{Mrb, mrb_item_unpack, roundup, ilog_loop, ilog}
use glgrab.Mrb.Write.{mrb_commit}
use glgrab.Mrb.Create.{
  CreateEnv, map_calls, create_layout, create_header, create_mapped, mrb_create, null_handle,
}
use glgrab.Mrb.Read.{OpenEnv, mrb_reveal, mrb_open}
use glgrab.Mrb.Session.{Session, Step, Reach}
use glgrab.Mrb.Drain.{quiet}
use glgrab.Mrb.Opened.{file_size, started, mrb_open-mrb_create}

abbrev create_env : CreateEnv
create_env = record {
  pagesize = 4096;
  opens = true;
  truncates = true;
  maps = true;
  maps_again = true;
  closes = true;
  addr = 65536;
  errno = 5;
}

-- What happens to stand in the handle.
abbrev handle : Mrb
handle = record null_handle { next = record { seq = 2; off = 192 } }

abbrev created : Session
created = started create_env handle 5000 100

abbrev committed : Session
committed = record {
  handle = (mrb_commit created.handle created.shared).0;
  shared = (mrb_commit created.handle created.shared).1;
  granted = none;
}

abbrev reader_env : OpenEnv
reader_env = record {
  pagesize = 4096;
  opens = true;
  stats = true;
  st_size = 12288;
  reads = true;
  header = created.shared.hdr;
  maps = true;
  maps_again = true;
  closes = true;
  addr = 131072;
  mapped = created.shared.hdr;
  errno = 5;
}

create-rc : (mrb_create create_env handle 5000 100).rc ≡ 0
unfolding mrb_create create_mapped
create-rc = ground arith

file-size : file_size (mrb_create create_env handle 5000 100).calls 0 ≡ 12288
unfolding mrb_create create_mapped map_calls file_size roundup ilog ilog_loop
file-size = refl

open-rc : (mrb_open reader_env null_handle).rc ≡ 0
unfolding mrb_open mrb_create create_mapped create_header create_layout mrb_commit roundup ilog
    ilog_loop
open-rc = refl

mrb_open-mrb_create_example :
    let r = (mrb_open reader_env null_handle).handle in
    (r.layout ≡ committed.handle.layout)
    × (mrb_reveal r (quiet committed.shared) ≡ record {
      handle = record r { next = mrb_item_unpack r.layout committed.shared.hdr.tail };
      found = false;
      ptr = none;
    })
mrb_open-mrb_create_example =
    mrb_open-mrb_create create_env handle 5000 100 12 (omega arith) (omega arith) (omega arith)
      (omega arith) create-rc created created committed Reach.here Reach.here
      (Reach.next Reach.here Step.commit) reader_env null_handle refl (sym file-size) refl refl
      (omega arith) open-rc

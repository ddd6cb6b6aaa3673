-- ===== src/Mrb/Create.antt =====
-- `mrb_create` and `mrb_shutdown` of mrb_write.c. The system calls are the kernel's: what each of
-- them answers is an argument, and the calls that are made are part of the result.
use glgrab.Base.{ℕ, ◌+◌, ◌-◌, ◌^◌, Bool, not, ◌&&◌, List, [], ◌∷◌, ◌++◌, ◌==◌, if◌then◌else◌}
use glgrab.Mrb.{Item, Header, Layout, Mrb, Shared, u64, mrb_item_pack, roundup, ilog}

-- What the kernel answers in one run of `mrb_create`. `addr` is where the first `mmap` puts the
-- file, and `errno` is what `errno` holds when the function returns it.
pub record CreateEnv : Type 0 where
  pub pagesize : ℕ
  pub opens : Bool
  pub truncates : Bool
  pub maps : Bool
  pub maps_again : Bool
  pub closes : Bool
  pub addr : ℕ
  pub errno : ℕ

pub data Call : Type 0 where
  open_file : Call
  ftruncate : ℕ → Call
  mmap : ℕ → Call
  mmap_fixed : ℕ → ℕ → ℕ → Call
  close_fd : Call
  munmap : ℕ → ℕ → Call
  unlink : Call

pub record Created : Type 0 where
  pub rc : ℕ
  pub handle : Mrb
  pub shared : Shared
  pub calls : List Call

-- The file after `ftruncate`: all zeros.
abbrev pub zero_header : Header
zero_header = record {
  active = 0;
  align_bits = 0;
  off_bits = 0;
  max_item_size = 0;
  head = 0;
  tail = 0;
}

abbrev pub zero_file : Shared
zero_file = record { hdr = zero_header; word = λ _. 0 }

-- `#define ALIGN 64`
abbrev pub align : ℕ
align = 64

-- What the handle gets to know of the buffer; both sizes are rounded up already. `size - 1` wraps
-- at 0.
unfoldable pub create_layout : ℕ → ℕ → Layout
create_layout size max_item_size =
    let align_bits = ilog align in
    record {
      size = size;
      data_offset = roundup 8 align_bits;
      align_bits = align_bits;
      off_bits = ilog (u64 (size + (2 ^ 64 - 1))) + 1 - align_bits;
      max_item_size = max_item_size;
    }

-- The header as it is written into the mapped file.
unfoldable pub create_header : Layout → Header
create_header l = record {
  active = 1;
  align_bits = l.align_bits;
  off_bits = l.off_bits;
  max_item_size = l.max_item_size;
  head = 0;
  tail = mrb_item_pack l (record { seq = 1; off = 0 });
}

-- The calls up to the second `mmap`, which puts the start of the data behind their end once more.
unfoldable pub map_calls : CreateEnv → ℕ → ℕ → ℕ → List Call
map_calls env filesize max_item_size mapsize =
    open_file
    ∷ ftruncate filesize
    ∷ mmap mapsize
    ∷ (if max_item_size == 0
        then []
        else mmap_fixed (env.addr + filesize) max_item_size env.pagesize ∷ [])

module _ (env : CreateEnv) (q : Mrb) where
  -- A failed return: `calls` have been made, and the handle is as it was.
  abbrev pub create_failed : List Call → Created
  create_failed calls = record { rc = env.errno; handle = q; shared = zero_file; calls = calls }

  -- `q->next` is left alone.
  unfoldable pub create_mapped : ℕ → ℕ → List Call → Created
  create_mapped size max_item_size calls =
      let l = create_layout size max_item_size in
      record {
        rc = 0;
        handle = record q { header = env.addr; base = env.addr + env.pagesize; layout = l };
        shared = record { hdr = create_header l; word = λ _. 0 };
        calls = calls;
      }

  unfoldable pub mrb_create : ℕ → ℕ → Created
  mrb_create size0 max0 =
      let size = roundup size0 (ilog env.pagesize) in
      let max_item_size = roundup max0 (ilog env.pagesize) in
      let filesize = u64 (size + env.pagesize) in
      let mapsize = u64 (filesize + max_item_size) in
      let maps = map_calls env filesize max_item_size mapsize in
      let err_close = close_fd ∷ unlink ∷ [] in
      let err_munmap = munmap env.addr mapsize ∷ err_close in
      if not env.opens
      then create_failed (open_file ∷ [])
      else (if not env.truncates
          then create_failed (open_file ∷ ftruncate filesize ∷ err_close)
          else (if not env.maps
              then create_failed (open_file ∷ ftruncate filesize ∷ mmap mapsize ∷ err_close)
              else (if not (max_item_size == 0) && not env.maps_again
                  then create_failed (maps ++ err_munmap)
                  else (if not env.closes
                      then create_failed (maps ++ close_fd ∷ err_munmap)
                      else create_mapped size max_item_size (maps ++ close_fd ∷ [])))))

-- `mrb_shutdown`: the handle is cleared, and readers see that the buffer is no longer active.
abbrev pub null_item : Item
null_item = record { seq = 0; off = 0 }

abbrev pub null_handle : Mrb
null_handle = record {
  header = 0;
  base = 0;
  layout = record { size = 0; data_offset = 0; align_bits = 0; off_bits = 0; max_item_size = 0 };
  next = null_item;
}

-- `munmap_errno` is what `errno` is after `munmap`, 0 if that succeeds; the first part of the result
-- is the return code.
unfoldable pub mrb_shutdown : ℕ → ℕ → Mrb → Shared → ℕ × Mrb × Shared × List Call
mrb_shutdown pagesize munmap_errno q s = if q.base == 0 then (0, q, s, []) else (
  munmap_errno,
  null_handle,
  record s { hdr = record (s.hdr) { active = 0 } },
  munmap (q.base - pagesize) (pagesize + q.size + q.max_item_size) ∷ [],
)

-- ===== src/Mrb/Read.antt =====
-- The reader, mrb_read.c. The writer goes on while a reader works, so an operation takes the
-- shared memory as each of its loads finds it: `at i` is what the load number `i` reads from.
use glgrab.Base.{
  ℕ, ◌+◌, ◌-◌, Bool, true, false, not, ◌&&◌, ◌||◌, ◌^◌, List, [], ◌∷◌, ◌++◌, Option, none, some,
  ltb, leb, ◌==◌, if◌then◌else◌,
}
use glgrab.Mrb.{Item, Header, Mrb, Shared, u64, mrb_item_unpack, roundup}
use glgrab.Mrb.Create.{null_handle, Call, open_file, mmap, mmap_fixed, close_fd, munmap}

abbrev pub Loads : Type 0
Loads = ℕ → Shared

-- The loads from number `k` on.
abbrev pub from_load : ℕ → Loads → Loads
from_load k at i = at (k + i)

unfoldable pub mrb_check : Mrb → Loads → Bool
mrb_check q at =
    let head = mrb_item_unpack q.layout ((at 0).hdr.head) in
    let tail = mrb_item_unpack q.layout ((at 1).hdr.tail) in
    if q.next.seq == 0
    then false
    else (if head.seq == 0
        then false
        else (if leb head.seq q.next.seq
            then true
            else leb q.next.seq tail.seq && ltb tail.seq head.seq))

-- What `mrb_reveal` returns, and what it stores through `p`: `none` is NULL.
pub record Revealed : Type 0 where
  pub handle : Mrb
  pub found : Bool
  pub ptr : Option ℕ

-- `q->next` after the first `if` of `mrb_reveal`.
unfoldable pub reveal_start : Mrb → Loads → Item
reveal_start q at =
    let s = at 2 in
    if mrb_check q at
    then q.next
    else mrb_item_unpack q.layout (if q.next.seq == 0 then s.hdr.tail else s.hdr.head)

unfoldable pub mrb_reveal : Mrb → Loads → Revealed
mrb_reveal q at =
    let next = reveal_start q at in
    let handle = record q { next = next } in
    let tail = mrb_item_unpack q.layout ((at 3).hdr.tail) in
    if next.seq == 0
    then record { handle = handle; found = (at 4).hdr.active == 0; ptr = none }
    else (if next.seq == tail.seq
        then record { handle = handle; found = (at 4).hdr.active == 0; ptr = none }
        else record {
          handle = handle;
          found = true;
          ptr = some (q.base + next.off + q.data_offset);
        })

unfoldable pub mrb_release : Mrb → Loads → Mrb
mrb_release q at =
    let next = mrb_item_unpack q.layout ((at 0).word q.next.off) in
    if mrb_check q (from_load 1 at)
    then record q { next = next }
    else record q { next = mrb_item_unpack q.layout ((at 3).hdr.head) }

-- What the kernel answers in one run of `mrb_open`: `header` is what `pread` found, and `mapped`
-- what stands in the mapping. `reads` says that `pread` returned the whole header.
pub record OpenEnv : Type 0 where
  pub pagesize : ℕ
  pub opens : Bool
  pub stats : Bool
  pub st_size : ℕ
  pub reads : Bool
  pub header : Header
  pub maps : Bool
  pub maps_again : Bool
  pub closes : Bool
  pub addr : ℕ
  pub mapped : Header
  pub errno : ℕ

pub record Opened : Type 0 where
  pub rc : ℕ
  pub handle : Mrb
  pub calls : List Call

-- EAGAIN of Linux.
abbrev pub eagain : ℕ
eagain = 11

unfoldable pub open_mapped : OpenEnv → Mrb
open_mapped env = record null_handle {
  header = env.addr;
  base = env.addr + env.pagesize;
  layout = record {
    size = u64 (env.st_size + (2 ^ 64 - env.pagesize));
    data_offset = roundup 8 env.mapped.align_bits;
    align_bits = env.mapped.align_bits;
    off_bits = env.mapped.off_bits;
    max_item_size = env.header.max_item_size;
  };
}

-- The calls up to the second `mmap`; `fstat` and `pread` hold nothing and are left out.
unfoldable pub open_calls : OpenEnv → List Call
open_calls env =
    open_file
    ∷ mmap (u64 (env.st_size + env.header.max_item_size))
    ∷ (if env.header.max_item_size == 0
        then []
        else mmap_fixed (env.addr + env.st_size) env.header.max_item_size env.pagesize ∷ [])

unfoldable pub mrb_open : OpenEnv → Mrb → Opened
mrb_open env q =
    let mapsize = u64 (env.st_size + env.header.max_item_size) in
    let err_munmap = munmap env.addr mapsize ∷ close_fd ∷ [] in
    if not env.opens
    then record { rc = env.errno; handle = q; calls = open_file ∷ [] }
    else (if not env.stats || not env.reads
        then record { rc = env.errno; handle = q; calls = open_file ∷ close_fd ∷ [] }
        else (if env.header.active == 0
            then record { rc = eagain; handle = q; calls = open_file ∷ close_fd ∷ [] }
            else (if not env.maps
                then record {
                  rc = env.errno;
                  handle = q;
                  calls = open_file ∷ mmap mapsize ∷ close_fd ∷ [];
                }
                else (if not (env.header.max_item_size == 0) && not env.maps_again
                    then record { rc = env.errno; handle = q; calls = open_calls env ++ err_munmap }
                    else (if not env.closes
                        then record {
                          rc = env.errno;
                          handle = q;
                          calls = open_calls env ++ close_fd ∷ err_munmap;
                        }
                        else record {
                          rc = 0;
                          handle = open_mapped env;
                          calls = open_calls env ++ close_fd ∷ [];
                        })))))

-- `munmap_errno` is what `errno` is after `munmap`, 0 if that succeeds; the first part of the result
-- is the return code.
unfoldable pub mrb_close : ℕ → ℕ → Mrb → ℕ × Mrb × List Call
mrb_close pagesize munmap_errno q = if q.base == 0 then (0, q, []) else (
  munmap_errno,
  null_handle,
  munmap (q.base - pagesize) (pagesize + q.size + q.max_item_size) ∷ [],
)

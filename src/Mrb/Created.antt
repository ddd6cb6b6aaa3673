-- ===== src/Mrb/Created.antt =====
-- A buffer that `mrb_create` has made is valid and empty, and a call that fails leaves nothing.
use glgrab.Base.{
  ℕ, suc, ◌+◌, ◌-◌, ◌*◌, ◌/◌, ◌%◌, ◌^◌, ◌≤◌, ◌<◌, ◌≡◌, ◌≢◌, ◌⊎◌, refl, ap, arith, Bool, true, false,
  List, [], ◌∷◌, ◌++◌, if◌then◌else◌, lt_of_pow_two_lt, pow_two_mono, pow_two_split,
}
use native.Mathlib.Nat.{mod-eq_of_lt, div-add-mod'}
use glgrab.Mrb.{Layout, Mrb, u64, mrb_item_pack, roundup, ilog}
use glgrab.Mrb.Numbers.{roundup_least, ilog_bounds, ilog-pow, roundup_fields}
use glgrab.Mrb.Pointer.{IsGeometry, seq_mod, unpack-pack}
use glgrab.Mrb.Next.{seq_mod_bounds}
use glgrab.Mrb.Chain.{IsPlace, IsValid}
use glgrab.Mrb.Create.{
  CreateEnv, Call, create_layout, create_header, create_mapped, mrb_create, map_calls, open_file,
  ftruncate, mmap, mmap_fixed, close_fd, munmap, unlink,
}

-- A page size from 128 bytes to 64 KiB, as a power of two.
pub record IsPage (pagesize k : ℕ) : Type 0 where
  pub power : pagesize ≡ 2 ^ k
  pub large : 7 ≤ k
  pub small : k ≤ 16

create_layout-IsGeometry :
    (size max : ℕ)
    → 128 ≤ size
    → size % 64 ≡ 0
    → size < 2 ^ 63
    → IsGeometry (create_layout size max)
unfolding create_layout
create_layout-IsGeometry size max large whole small =
    let a = size - 1 in
    let six : ilog 64 ≡ 6 = ilog-pow 6 (omega arith) in
    let less : u64 (size + (2 ^ 64 - 1)) ≡ a = omega arith in
    let (_, low, high) = ilog_bounds a (omega arith) (omega arith) in
    let l = ilog a in
    let at_least : 6 ≤ l =
      let h : 6 < suc l = lt_of_pow_two_lt 6 (suc l) (omega arith) in omega arith in
    let at_most : l ≤ 62 = let h : l < 63 = lt_of_pow_two_lt l 63 (omega arith) in omega arith in
    let split : 2 ^ suc l ≡ 2 ^ (l + 1 - 6) * 2 ^ 6 =
      pow_two_split (l + 1 - 6) 6 (suc l) (omega arith) in
    let sixty_four : roundup 8 6 ≡ 64 = roundup_fields 8 6 (omega arith) (omega arith) in
    record {
      aligned = six;
      link_size = rw six sixty_four;
      bits_pos = rw (six, less) (omega arith);
      bits_small = rw (six, less) (omega arith);
      addressable = rw (six, less) (omega arith);
      whole = whole;
      size_pos = omega arith;
      size_small = small;
    }

tail-IsPlace :
    {l : Layout} → IsGeometry l → IsPlace l (mrb_item_pack l (record { seq = 1; off = 0 }))
tail-IsPlace {l} g =
    let (seq, off, _) = unpack-pack g (record { seq = 1; off = 0 }) g.size_pos (omega arith) in
    let (two, _) = seq_mod_bounds g in
    let one : 1 % seq_mod l ≡ 1 = mod-eq_of_lt two in
    record { numbered = omega (arith, seq); below = omega (arith, seq); inside = rw off g.size_pos }

-- `roundup` takes a size that is not 0 to at least a page.
pub page_size :
    (pagesize k size : ℕ)
    → IsPage pagesize k
    → 0 < size
    → size + pagesize < 2 ^ 63
    → let rounded = roundup size (ilog pagesize) in
      (128 ≤ rounded) × (rounded % 64 ≡ 0) × (size ≤ rounded) × (rounded < size + pagesize)
page_size pagesize k size page pos small =
    let P = 2 ^ k in
    let r = roundup size k in
    let sixteen : P ≤ 2 ^ 16 = pow_two_mono k 16 page.small in
    let seven : 2 ^ 7 ≤ P = pow_two_mono 7 k page.large in
    let (whole, above, close) = roundup_least size k page.small (omega (arith, page.power)) in
    let times : r / P * P + r % P ≡ r = div-add-mod' r P in
    let split : P ≡ 2 ^ (k - 6) * 64 = pow_two_split (k - 6) 6 k (omega (arith, page.large)) in
    let n = r / P * 2 ^ (k - 6) in
    let by_64 : r ≡ n * 64 = omega (arith, ap (λ (t : ℕ). r / P * t) split) in
    let some_page : 1 ≤ r / P = grind arith in
    let page_le : P ≤ r / P * P = grind arith in
    rw (page.power, ilog-pow k (omega (arith, page.small)))
      (omega arith, omega (arith, by_64), above, close)

-- A return of 0 comes from the end of the function.
pub mrb_create-mapped :
    (env : CreateEnv) (q : Mrb) (size max : ℕ)
    → env.errno ≢ 0
    → (mrb_create env q size max).rc ≡ 0
    → let rounded = roundup size (ilog env.pagesize) in
      let max_item_size = roundup max (ilog env.pagesize) in
      let filesize = u64 (rounded + env.pagesize) in
      mrb_create env q size max
      ≡ create_mapped env q rounded max_item_size
          (map_calls env filesize max_item_size (u64 (filesize + max_item_size)) ++ close_fd ∷ [])
unfolding mrb_create
mrb_create-mapped env q size max errno ok = ground arith

-- Where mrb_create returns 0, with pages of 128 bytes to 64 KiB and a size of 1 or more that comes
-- with a page to less than 2^63: the buffer that it has made is valid and holds no messages, is at
-- least as large as was asked for and less than a page larger, and is marked active; the member
-- next of the handle is left as it was.
pub mrb_create-IsValid :
    (env : CreateEnv) (q : Mrb) (size max k : ℕ)
    → IsPage env.pagesize k
    → 0 < size
    → size + env.pagesize < 2 ^ 63
    → env.errno ≢ 0
    → (mrb_create env q size max).rc ≡ 0
    → let c = mrb_create env q size max in
      IsValid c.handle.layout c.shared []
      × (size ≤ c.handle.size)
      × (c.handle.size < size + env.pagesize)
      × (c.shared.hdr.active ≡ 1)
      × (c.handle.next ≡ q.next)
unfolding create_mapped create_layout create_header
mrb_create-IsValid env q size max k page pos small errno ok =
    let (large, whole, above, close) = page_size env.pagesize k size page pos small in
    let limit : roundup size (ilog env.pagesize) < 2 ^ 63 = omega arith in
    let g =
      create_layout-IsGeometry (roundup size (ilog env.pagesize)) (roundup max (ilog env.pagesize))
        large whole limit in
    rw (mrb_create-mapped env q size max errno ok) (
      record { geometry = g; tail_place = tail-IsPlace g; fits = omega arith; holds = refl },
      above,
      close,
      refl,
      refl,
    )

-- What a run of `mrb_create` holds: the descriptor, the file, and the bytes that are mapped.
pub record Resources : Type 0 where
  pub fd : Bool
  pub file : Bool
  pub mapped : ℕ

-- What a call does to them, by its manual page: `close` gives the descriptor back also where it
-- reports an error, and a fixed mapping lies inside the first one.
pub call_effect : CreateEnv → Call → Resources → Resources
call_effect env open_file r = record r { fd = env.opens; file = env.opens }
call_effect env (ftruncate n) r = r
call_effect env (mmap n) r = record r { mapped = if env.maps then n else r.mapped }
call_effect env (mmap_fixed a n off) r = r
call_effect env close_fd r = record r { fd = false }
call_effect env (munmap a n) r = record r { mapped = r.mapped - n }
call_effect env unlink r = record r { file = false }

pub leftovers : CreateEnv → List Call → Resources → Resources
leftovers env [] r = r
leftovers env (c ∷ cs) r = leftovers env cs (call_effect env c r)

abbrev pub nothing : Resources
nothing = record { fd = false; file = false; mapped = 0 }

-- Whichever call fails, `mrb_create` leaves no descriptor, no file and no mapping behind, and the
-- handle as it was; and where it succeeds it has closed the descriptor and kept file and mapping.
pub mrb_create-leftovers :
    (env : CreateEnv) (q : Mrb) (size max : ℕ)
    → env.errno ≢ 0
    → let c = mrb_create env q size max in
      let left = leftovers env c.calls nothing in
      ((c.rc ≢ 0) × (c.handle ≡ q) × (left ≡ nothing))
      ⊎ ((c.rc ≡ 0)
          × (left.fd ≡ false)
          × (left.file ≡ true)
          × (left.mapped
              ≡ u64 (
                  u64 (roundup size (ilog env.pagesize) + env.pagesize)
                  + roundup max (ilog env.pagesize))))
unfolding mrb_create map_calls create_mapped leftovers call_effect
mrb_create-leftovers env q size max errno = ground arith

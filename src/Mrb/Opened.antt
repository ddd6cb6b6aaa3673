-- ===== src/Mrb/Opened.antt =====
-- What a reader that opens the buffer of a writer gets.
mod Tests
use mathlib.Core.Option
use glgrab.Base.{
  ℕ, ◌+◌, ◌-◌, ◌^◌, ◌%◌, ◌<◌, ◌≡◌, ◌≢◌, ◌⊎◌, inl, inr, refl, sym, ap, ap₂, subst, ◌∙◌, arith, Bool,
  true, false, not, ◌&&◌, ◌||◌, Option, none, some, List, [], ◌∷◌, ◌++◌, ◌==◌, if◌then◌else◌,
  Bool-cases, some_inj, ==_of_eq,
}
use glgrab.Mrb.{Item, Header, Layout, Mrb, Shared, u64, mrb_item_unpack, roundup, ilog}
use glgrab.Mrb.Write.{
  Reserved, place, reserve_at, mrb_reserve, mrb_commit, reclaim, reclaim_fuel, next_off, next_seq,
}
use glgrab.Mrb.Create.{
  CreateEnv, Call, open_file, ftruncate, mmap, mmap_fixed, close_fd, munmap, unlink, create_layout,
  create_header, create_mapped, map_calls, mrb_create,
}
use glgrab.Mrb.Created.{IsPage, page_size, mrb_create-mapped}
use glgrab.Mrb.Read.{Revealed, OpenEnv, mrb_check, reveal_start, mrb_reveal, open_mapped, mrb_open}
use glgrab.Mrb.Session.{Session, Step, reserve, fill, commit, Reach, here, next}
use glgrab.Mrb.Drain.{quiet}
use glgrab.Mrb.Described.{Describes, IsDescribed, Reach-IsDescribed}

-- The size of the file after these calls.
unfoldable pub file_size : List Call → ℕ → ℕ
file_size [] n = n
file_size (ftruncate m ∷ cs) n = file_size cs m
file_size (_ ∷ cs) n = file_size cs n

-- A reader that a handle was opened for.
mrb_open-mapped :
    (env : OpenEnv) (q : Mrb)
    → env.errno ≢ 0
    → (mrb_open env q).rc ≡ 0
    → (mrb_open env q).handle ≡ open_mapped env
unfolding mrb_open
mrb_open-mapped env q errno ok = ground arith

-- A handle without a place goes to the tail, where nothing is yet.
mrb_reveal-tail :
    (q : Mrb) (s : Shared)
    → q.next.seq ≡ 0
    → s.hdr.active ≡ 1
    → mrb_reveal q (quiet s) ≡ record {
      handle = record q { next = mrb_item_unpack q.layout s.hdr.tail };
      found = false;
      ptr = none;
    }
unfolding mrb_reveal reveal_start mrb_check
mrb_reveal-tail q s e active =
    let tail = mrb_item_unpack q.layout s.hdr.tail in
    elim (Bool-cases (tail.seq == 0)) [
      | inl z ↦ rw (e, active, z) refl
      | inr z ↦ rw (e, active, z, ==_of_eq tail.seq tail.seq refl) refl
    ]

abbrev pub started : CreateEnv → Mrb → ℕ → ℕ → Session
started env q size max =
    let c = mrb_create env q size max in
    record { handle = c.handle; shared = c.shared; granted = none }

abbrev made : CreateEnv → ℕ → ℕ → Layout
made env size max =
    create_layout (roundup size (ilog env.pagesize)) (roundup max (ilog env.pagesize))

module _ (env : CreateEnv) (q : Mrb) (size max : ℕ) (errno : env.errno ≢ 0)
    (ok : (mrb_create env q size max).rc ≡ 0) where
  started-IsDescribed : IsDescribed (made env size max) (started env q size max)
  unfolding create_mapped create_header
  started-IsDescribed = rw (mrb_create-mapped env q size max errno ok) (record {
    active = refl;
    align_bits = refl;
    off_bits = refl;
    max_item_size = refl;
    kept = refl;
  })

  started-file_size :
      file_size (mrb_create env q size max).calls 0
      ≡ u64 (roundup size (ilog env.pagesize) + env.pagesize)
  unfolding create_mapped map_calls file_size
  started-file_size =
      rw (mrb_create-mapped env q size max errno ok)
        (elim (Bool-cases (roundup max (ilog env.pagesize) == 0)) [
          | inl e ↦ rw (e) refl
          | inr e ↦ rw (e) refl
        ])

-- Whenever in a writer's session a reader opens the buffer that mrb_create has made, with pages of
-- 128 bytes to 64 KiB and a size from 1 up to what a file can have: where mrb_open returns 0, its
-- handle has the layout that the writer's has, whether the header is read before or after what the
-- writer does in between, and what it does afterwards. If the writer rests during the first call
-- of mrb_reveal, at any later time, that call shows nothing and stands at the tail as it then is,
-- where the next message will be, so that messages from before are not seen. The writer's requests
-- are of sizes that wrap no sum in mrb_reserve.
pub mrb_open-mrb_create :
    (env : CreateEnv) (q : Mrb) (size max k : ℕ)
    → IsPage env.pagesize k
    → 0 < size
    → size + env.pagesize < 2 ^ 63
    → env.errno ≢ 0
    → (mrb_create env q size max).rc ≡ 0
    → (read opened shown : Session) → Reach (started env q size max) read
    → Reach read opened
    → Reach opened shown
    → (reader : OpenEnv) (q' : Mrb) → reader.pagesize ≡ env.pagesize
    → reader.st_size ≡ file_size (mrb_create env q size max).calls 0
    → reader.header ≡ read.shared.hdr
    → reader.mapped ≡ opened.shared.hdr
    → reader.errno ≢ 0
    → (mrb_open reader q').rc ≡ 0
    → let r = (mrb_open reader q').handle in
      (r.layout ≡ shown.handle.layout)
      × (mrb_reveal r (quiet shown.shared) ≡ record {
        handle = record r { next = mrb_item_unpack r.layout shown.shared.hdr.tail };
        found = false;
        ptr = none;
      })
unfolding open_mapped create_layout
mrb_open-mrb_create env q size max k page pos small errno ok read opened shown before between later
      reader q' pagesize st_size header mapped rerrno rok =
    let d =
      Reach-IsDescribed (made env size max) before (started-IsDescribed env q size max errno ok) in
    let e = Reach-IsDescribed (made env size max) between d in
    let l = Reach-IsDescribed (made env size max) later e in
    let size_back : u64 (reader.st_size + (2 ^ 64 - reader.pagesize))
        ≡ roundup size (ilog env.pagesize) =
      let (_, _, _, close) = page_size env.pagesize k size page pos small in
      omega (arith, pagesize, st_size ∙ started-file_size env q size max errno ok, close) in
    rw (mrb_open-mapped reader q' rerrno rok) (
      rw
          (
            size_back,
            ap (λ (h : Header). h.align_bits) mapped ∙ e.align_bits,
            ap (λ (h : Header). h.off_bits) mapped ∙ e.off_bits,
            ap (λ (h : Header). h.max_item_size) header ∙ d.max_item_size,
          )
          (sym l.kept),
      mrb_reveal-tail (open_mapped reader) shown.shared refl l.active,
    )

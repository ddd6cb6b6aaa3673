-- ===== src/Mrb/Tests.antt =====
-- The ring buffer at concrete inputs.
use glgrab.Base.{
  ℕ, ◌+◌, ◌≤◌, ◌<◌, ◌≡◌, ◌≢◌, ◌⊎◌, refl, arith, true, false, none, some, [], ◌∷◌, leb, update,
}
use glgrab.Mrb.{Mrb, Shared, u64, mrb_item_unpack, mrb_item_pack, roundup, ilog}
use glgrab.Mrb.Pointer.{seq_mod}
use glgrab.Mrb.Write.{Reserved, reclaim, mrb_reserve, mrb_commit}
use glgrab.Mrb.Chain.{AgreesOutside, tail_off, Heads, IsValid}
use glgrab.Mrb.Reclaim.{retained, newest, reclaim-retained}
use glgrab.Mrb.Next.{accepts}
use glgrab.Mrb.Reserve.{IsPending, IsGranted, mrb_reserve_lem}
use glgrab.Mrb.Commit.{mrb_commit-IsValid}
use glgrab.Mrb.Create.{CreateEnv, mrb_create, create_mapped, null_handle, null_item}
use glgrab.Mrb.Created.{IsPage, mrb_create-IsValid, leftovers, nothing, mrb_create-leftovers}
use glgrab.Mrb.Read.{mrb_check}
use glgrab.Mrb.Numbering.{seq_after, mrb_check-stale}
use glgrab.Mrb.Drain.{quiet, drain, pointers, drain-pointers}
use glgrab.Mrb.Reserve.{mrb_reserve-full}
use glgrab.Mrb.Session.{IsSound, Reach-IsSound}
use glgrab.Mrb.Samples.{
  layout_512, writer, words, two_messages, lengths, layout_512-IsGeometry, two_messages-IsValid,
  reserved, next_place, session-IsSound, session_after, session_steps,
}

reclaim-retained_example :
    (headp : ℕ) × (reclaim 9 layout_512 words
        (mrb_item_unpack layout_512 29)
        (record { seq = 4; off = 128 })
        8
      ≡ some headp)
    × Heads layout_512 words 29 headp (192 ∷ [])
unfolding mrb_item_unpack retained newest
reclaim-retained_example =
    reclaim-retained layout_512-IsGeometry words 29 320 (record { seq = 4; off = 128 })
      (omega arith) (omega arith) refl 9 lengths 8 (omega arith) (omega arith)
      two_messages-IsValid.holds

mrb_reserve_lem_example :
    (r : Reserved) × (mrb_reserve writer two_messages 250 ≡ some r)
    × ((accepts layout_512 (tail_off layout_512 two_messages) 320 ≡ true)
          × IsGranted writer two_messages lengths 250 r
        ⊎ (accepts layout_512 (tail_off layout_512 two_messages) 320 ≡ false)
          × (r ≡ record { ptr = none; handle = writer; shared = two_messages }))
mrb_reserve_lem_example = mrb_reserve_lem two_messages-IsValid 250 (omega arith)

reserved-IsValid : IsValid layout_512 reserved (192 ∷ [])
unfolding mrb_item_unpack
reserved-IsValid = omega arith

reserved-IsPending : IsPending layout_512 next_place reserved 320
unfolding mrb_item_unpack mrb_item_pack
reserved-IsPending = omega arith

mrb_commit-IsValid_example :
    let (q', s') = mrb_commit (record writer { next = next_place }) reserved in
    IsValid layout_512 s' (192 ∷ 320 ∷ [])
    × (q'.layout ≡ layout_512)
    × (q'.next.seq ≡ 0)
    × (mrb_commit q' s' ≡ (q', s'))
mrb_commit-IsValid_example =
    mrb_commit-IsValid (record writer { next = next_place }) reserved (192 ∷ []) 320
      reserved-IsValid reserved-IsPending (omega arith)

-- The client writes the first word of its message.
filled_words :
    AgreesOutside 512 (tail_off layout_512 reserved) 320 reserved.word (update reserved.word 384 7)
unfolding mrb_item_unpack
filled_words off inside whole far = ground arith

abbrev good_env : CreateEnv
good_env = record {
  pagesize = 4096;
  opens = true;
  truncates = true;
  maps = true;
  maps_again = true;
  closes = true;
  addr = 65536;
  errno = 5;
}

four_k : IsPage 4096 12
four_k = omega arith

mrb_create-rc : (mrb_create good_env null_handle 5000 100).rc ≡ 0
unfolding mrb_create create_mapped
mrb_create-rc = ground arith

mrb_create-IsValid_example :
    let c = mrb_create good_env null_handle 5000 100 in
    IsValid c.handle.layout c.shared []
    × (5000 ≤ c.handle.size)
    × (c.handle.size < 9096)
    × (c.shared.hdr.active ≡ 1)
    × (c.handle.next ≡ null_item)
mrb_create-IsValid_example =
    mrb_create-IsValid good_env null_handle 5000 100 12 four_k (omega arith) (omega arith)
      (omega arith) mrb_create-rc

Reach-IsSound_example : IsSound session_after
Reach-IsSound_example = Reach-IsSound session_steps session-IsSound

mrb_create-leftovers_example :
    let env = record good_env { closes = false } in
    let c = mrb_create env null_handle 5000 100 in
    let left = leftovers env c.calls nothing in
    ((c.rc ≢ 0) × (c.handle ≡ null_handle) × (left ≡ nothing))
    ⊎ ((c.rc ≡ 0)
        × (left.fd ≡ false)
        × (left.file ≡ true)
        × (left.mapped ≡ u64 (u64 (roundup 5000 (ilog 4096) + 4096) + roundup 100 (ilog 4096))))
mrb_create-leftovers_example =
    mrb_create-leftovers (record good_env { closes = false }) null_handle 5000 100 (omega arith)

abbrev reader : Mrb
reader = record writer { next = record { seq = 1; off = 0 } }

-- The head is one message on, and its number is higher: the check refuses the old message.
mrb_check-stale_example :
    mrb_check reader (quiet reserved) ≡ leb (seq_mod layout_512) (reader.next.seq + 1)
unfolding mrb_item_unpack seq_after
mrb_check-stale_example =
    mrb_check-stale reader (quiet reserved) 1 1 (omega arith) (omega arith) (omega arith)
      (omega arith) refl refl

drain-pointers_example : drain 3 reader two_messages ≡ pointers 8192 512 0 lengths
unfolding mrb_item_unpack
drain-pointers_example =
    drain-pointers reader two_messages lengths 3 two_messages-IsValid (λ e. cc) (omega arith) refl
      (omega arith)

pointers_of_two : pointers 8192 512 0 lengths ≡ 8256 ∷ 8384 ∷ []
unfolding pointers
pointers_of_two = refl

-- A full buffer: 192 bytes more, from 320 to the end.
abbrev full : Shared
full = record { hdr = record (two_messages.hdr) { tail = 32 }; word = update words 320 32 }

full-IsValid : IsValid layout_512 full (128 ∷ 192 ∷ 192 ∷ [])
unfolding mrb_item_unpack
full-IsValid = omega arith

mrb_reserve-full_example :
    (r : Reserved) × (mrb_reserve writer full 10 ≡ some r)
    × (r.shared.hdr.head ≡ 0)
    × (r.ptr ≢ none)
unfolding mrb_item_unpack accepts
mrb_reserve-full_example = mrb_reserve-full writer full-IsValid 10 (omega arith) refl refl

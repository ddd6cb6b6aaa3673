-- ===== src/Audit/Objopen/Tests.antt =====
-- `la_objopen` on small objects.
use glgrab.Base.{ℕ, ◌+◌, ◌*◌, ◌≤◌, ◌<◌, ◌≡◌, ◌⊎◌, update, refl, true, none, some, arith}
use glgrab.Audit.Objopen.{
  Dyn, LinkMap, la_version, la_objopen, apply_elf_hack, scan_dynamic, add_pltrelsz, find_slot,
  store_pltrelsz, with_flags,
}
use glgrab.Audit.Objopen.Scan.{EndsAt, LacksPltrelsz}
use glgrab.Audit.Objopen.Added.{IsIndexed, IsAdded, la_objopen-IsAdded}

-- An object with its table at 1000: DT_NEEDED and DT_STRTAB, the end and one spare entry.
abbrev small_table : ℕ → Dyn
small_table =
    update (update (λ i. record { d_tag = 0; d_val = 0 }) 0 record { d_tag = 1; d_val = 7 }) 1
      record { d_tag = 5; d_val = 9 }

-- Three other words are before those for the tags; DT_NEEDED and DT_STRTAB have theirs.
abbrev small_slots : ℕ → ℕ
small_slots = update (update (update (λ k. 0) 0 1000) 5 1000) 9 1016

abbrev small_object : LinkMap
small_object = record { slots = small_slots; dynamic = small_table }

small_object-EndsAt : EndsAt small_table 2
small_object-EndsAt = (λ i low. ground arith, refl)

small_object-LacksPltrelsz : LacksPltrelsz small_table 2
small_object-LacksPltrelsz i low = ground arith

small_object-before_first :
    (k : ℕ) → 1 ≤ k → k < 4 + 1 → (small_slots k < 1000) ⊎ (1000 + 3 * 16 < small_slots k)
small_object-before_first k more low = ground arith

small_object-IsIndexed : IsIndexed 8 small_object 2 4
small_object-IsIndexed = record {
  behind = omega arith;
  before_first = small_object-before_first;
  first_lowest = omega arith;
  first_highest = omega arith;
  enough = omega arith;
}

la_objopen-IsAdded_example :
    (map' : LinkMap) × (la_objopen true 8 small_object ≡ some (3, map'))
    × IsAdded small_object map' 2 4
    × (la_objopen true 8 map' ≡ some (3, map'))
la_objopen-IsAdded_example =
    la_objopen-IsAdded 8 small_object 2 4 small_object-EndsAt small_object-LacksPltrelsz
      (omega arith) small_object-IsIndexed (omega arith)

-- An object whose table begins with DT_SONAME, before DT_STRTAB: the word for DT_PLTRELSZ would be
-- the sixth, but the program goes to one before l_ld.
abbrev unsorted_table : ℕ → Dyn
unsorted_table =
    update (update (λ i. record { d_tag = 0; d_val = 0 }) 0 record { d_tag = 14; d_val = 7 }) 1
      record { d_tag = 5; d_val = 9 }

abbrev unsorted_slots : ℕ → ℕ
unsorted_slots = update (update (update (λ k. 0) 0 1000) 9 1016) 18 1000

goes_before : la_objopen true 30 record { slots = unsorted_slots; dynamic = unsorted_table } ≡ none
unfolding la_objopen apply_elf_hack scan_dynamic add_pltrelsz find_slot store_pltrelsz with_flags
goes_before = refl

version_one : la_version 2 ≡ 1
unfolding la_version
version_one = refl

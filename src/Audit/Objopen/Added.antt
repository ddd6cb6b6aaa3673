-- ===== src/Audit/Objopen/Added.antt =====
-- What an object has after `la_objopen`.
use native.Mathlib.Decide.{dec_lt}
use glgrab.Base.{
  update_self, update_ne, ℕ, suc, ◌+◌, ◌-◌, ◌≤◌, ◌<◌, ◌≡◌, ◌≢◌, ◌⊎◌, refl, sym, true, false, some,
  ltb, update, arith,
}
use glgrab.Audit.Objopen.{
  dt_null, dt_pltrelsz, bind_flags, Dyn, LinkMap, dyn_at, store_pltrelsz, add_pltrelsz, with_flags,
  apply_elf_hack, la_objopen,
}
use glgrab.Audit.Objopen.Scan.{
  EndsAt, LacksPltrelsz, scan_dynamic-lacks, la_objopen-has, find_slot_lem,
}

-- The words for the entries by their tags begin at `info`, which is how the linker of glibc keeps
-- them. The word for the tag of the first entry of the table points into the table or to the spare
-- entry behind its end, and none before it does, as is so where no other entry has a lower tag. An
-- object may come from the linker without this.
pub record IsIndexed (fuel : ℕ) (map : LinkMap) (n info : ℕ) : Type 0 where
  pub behind : 1 ≤ info
  pub before_first :
      (k : ℕ)
      → 1 ≤ k
      → k < info + (map.dynamic 0).d_tag
      → (map.slots k < map.slots 0) ⊎ (dyn_at map.slots (suc n) < map.slots k)
  pub first_lowest : map.slots 0 ≤ map.slots (info + (map.dynamic 0).d_tag)
  pub first_highest : map.slots (info + (map.dynamic 0).d_tag) ≤ dyn_at map.slots (suc n)
  pub enough : info + (map.dynamic 0).d_tag ≤ fuel

-- The end of the table has become an entry DT_PLTRELSZ of 0, its word points to it, and the table
-- ends one entry later; all else is as it was.
pub record IsAdded (map map' : LinkMap) (n info : ℕ) : Type 0 where
  pub added_tag : (map'.dynamic n).d_tag ≡ dt_pltrelsz
  pub added_val : (map'.dynamic n).d_val ≡ 0
  pub ends : EndsAt map'.dynamic (suc n)
  pub other_entries : (i : ℕ) → i ≢ n → i ≢ suc n → map'.dynamic i ≡ map.dynamic i
  pub indexed : map'.slots (info + dt_pltrelsz) ≡ dyn_at map.slots n
  pub other_slots : (k : ℕ) → k ≢ info + dt_pltrelsz → map'.slots k ≡ map.slots k

-- What `add_pltrelsz` makes of the entries.
abbrev added_entries : LinkMap → ℕ → ℕ → Dyn
added_entries map n =
    update
      (update map.dynamic (suc n) record { d_tag = dt_null; d_val = (map.dynamic (suc n)).d_val }) n
      record { d_tag = dt_pltrelsz; d_val = 0 }

added_map : LinkMap → ℕ → ℕ → LinkMap
added_map map n info = record {
  slots = update map.slots (info + dt_pltrelsz) (dyn_at map.slots n);
  dynamic = added_entries map n;
}

added_map-IsAdded :
    (map : LinkMap) (n info : ℕ) → EndsAt map.dynamic n → IsAdded map (added_map map n info) n info
unfolding added_map
added_map-IsAdded map n info ends = record {
  added_tag = ground arith;
  added_val = ground arith;
  ends = (
    λ i low. elim (dec_lt i n) [
      | yes h ↦ let on = ends.0 i h in ground arith
      | no h ↦ ground arith
    ],
    ground arith,
  );
  other_entries = λ i a b. ground arith;
  indexed = update_self map.slots _ _;
  other_slots = λ k other. update_ne map.slots _ k _ (λ e. other (sym e));
}

add_pltrelsz_lem :
    (fuel : ℕ) (map : LinkMap) (n info : ℕ)
    → 1 ≤ n
    → IsIndexed fuel map n info
    → add_pltrelsz fuel map n ≡ some (added_map map n info)
unfolding add_pltrelsz store_pltrelsz added_map
add_pltrelsz_lem fuel map n info more h =
    let first : (added_entries map n 0).d_tag ≡ (map.dynamic 0).d_tag = ground arith in
    let found =
      find_slot_lem fuel map.slots (map.slots 0) (dyn_at map.slots (suc n))
        (info + (map.dynamic 0).d_tag) 1 h.before_first (h.first_lowest, h.first_highest)
        (omega (arith, h.behind)) (omega (arith, h.enough)) in
    let tag = (map.dynamic 0).d_tag in
    let inside : ltb (info + tag + dt_pltrelsz) tag ≡ false = ground arith in
    let back : info + tag + dt_pltrelsz - tag ≡ info + dt_pltrelsz = omega arith in
    rw (found, first, inside, back) refl

-- With GLGRAB_APPLY_ELF_HACK, an object whose table has entries but none DT_PLTRELSZ has one after
-- la_objopen, with the value 0, in the place where the table ended: the word for that tag points
-- to it, the table ends one entry later, and nothing else is changed. To open the object once more
-- then changes nothing. The condition is that behind l_ld the link map has a word for each tag, in
-- the order of the tags, that the word for the tag of the table's first entry points into the
-- table, to the spare entry behind its end at most, and that no word before that one does; the
-- code relies on it and does not test it. The loops end, with fuel for one entry more than the
-- table has, and for the words up to that one.
pub la_objopen-IsAdded :
    (fuel : ℕ) (map : LinkMap) (n info : ℕ)
    → EndsAt map.dynamic n
    → LacksPltrelsz map.dynamic n
    → 1 ≤ n
    → IsIndexed fuel map n info
    → suc n < fuel
    → (map' : LinkMap) × (la_objopen true fuel map ≡ some (bind_flags, map'))
      × IsAdded map map' n info
      × (la_objopen true fuel map' ≡ some (bind_flags, map'))
unfolding la_objopen apply_elf_hack with_flags
la_objopen-IsAdded fuel map n info ends lacks more h enough =
    let s = added_map-IsAdded map n info ends in
    (
      added_map map n info,
      rw (scan_dynamic-lacks fuel map.dynamic n 0 ends lacks (omega arith) (omega arith))
          (rw (add_pltrelsz_lem fuel map n info more h) refl),
      s,
      la_objopen-has fuel (added_map map n info) (suc n) n s.ends s.added_tag (omega arith)
          (omega arith),
    )

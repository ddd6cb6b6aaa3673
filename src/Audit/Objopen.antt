-- ===== src/Audit/Objopen.antt =====
-- audit.c, `la_version` and `la_objopen`, for a 64-bit machine. What the linker knows of an object
-- is the memory behind `l_ld` in its link map, in words, and the dynamic section, in entries. Tags
-- are taken as not negative. The loops have fuel: an end of the table or a pointer into it must come
-- within it.
pub mod Scan
pub mod Added
mod Tests
use glgrab.Base.{
  ℕ, zero, suc, ◌+◌, ◌-◌, ◌*◌, Bool, ◌||◌, Option, none, some, ltb, ◌==◌, if◌then◌else◌, update,
}

unfoldable pub la_version : ℕ → ℕ
la_version version = 1

-- DT_NULL, DT_PLTRELSZ and LA_FLG_BINDTO | LA_FLG_BINDFROM
abbrev pub dt_null : ℕ
dt_null = 0

abbrev pub dt_pltrelsz : ℕ
dt_pltrelsz = 2

abbrev pub bind_flags : ℕ
bind_flags = 3

-- `ElfW(Dyn)`, of 16 bytes.
pub record Dyn : Type 0 where
  pub d_tag : ℕ
  pub d_val : ℕ

-- `slots k` is the word at &l_ld + k, and `slots 0` is l_ld.
pub record LinkMap : Type 0 where
  pub slots : ℕ → ℕ
  pub dynamic : ℕ → Dyn

-- The address of the entry `i`.
abbrev pub dyn_at : (ℕ → ℕ) → ℕ → ℕ
dyn_at slots i = slots 0 + i * 16

-- The loop to the end of the table, from `last` on: the end, and `pltrelsz`.
unfoldable pub scan_dynamic : ℕ → (ℕ → Dyn) → ℕ → Option ℕ → Option (ℕ × Option ℕ)
scan_dynamic zero dynamic last pltrelsz = none
scan_dynamic (suc fuel) dynamic last pltrelsz =
    let tag = (dynamic last).d_tag in
    let rest =
      scan_dynamic fuel dynamic (suc last) (if tag == dt_pltrelsz then some last else pltrelsz) in
    if tag == dt_null then some (last, pltrelsz) else rest

-- The loop that passes by the words outside of the table, from `p` on.
unfoldable pub find_slot : ℕ → (ℕ → ℕ) → ℕ → ℕ → ℕ → Option ℕ
find_slot zero slots first last p = none
find_slot (suc fuel) slots first last p =
    let rest = find_slot fuel slots first last (suc p) in
    if ltb (slots p) first || ltb last (slots p) then rest else some p

-- `p[DT_PLTRELSZ - l_ld->d_tag] = pltrelsz`, which must not come before l_ld.
unfoldable pub store_pltrelsz : (ℕ → ℕ) → (ℕ → Dyn) → ℕ → Option ℕ → Option LinkMap
store_pltrelsz slots dynamic pltrelsz none = none
store_pltrelsz slots dynamic pltrelsz (some p) =
    let tag = (dynamic 0).d_tag in
    if ltb (p + dt_pltrelsz) tag
    then none
    else some record {
      slots = update slots (p + dt_pltrelsz - tag) (dyn_at slots pltrelsz);
      dynamic = dynamic;
    }

-- The body of `if (pltrelsz == NULL)`, with the end of the table at `pltrelsz`.
unfoldable pub add_pltrelsz : ℕ → LinkMap → ℕ → Option LinkMap
add_pltrelsz fuel map pltrelsz =
    let last = suc pltrelsz in
    let behind : Dyn = record { d_tag = dt_null; d_val = (map.dynamic last).d_val } in
    let ended = update map.dynamic last behind in
    let added : Dyn = record { d_tag = dt_pltrelsz; d_val = 0 } in
    let dynamic = update ended pltrelsz added in
    let p = find_slot fuel map.slots (map.slots 0) (dyn_at map.slots last) 1 in
    store_pltrelsz map.slots dynamic pltrelsz p

unfoldable pub with_flags : Option LinkMap → Option (ℕ × LinkMap)
with_flags none = none
with_flags (some map) = some (bind_flags, map)

unfoldable pub apply_elf_hack : ℕ → LinkMap → Option (ℕ × Option ℕ) → Option LinkMap
apply_elf_hack fuel map none = none
apply_elf_hack fuel map (some (last, none)) = add_pltrelsz fuel map last
apply_elf_hack fuel map (some (last, some pltrelsz)) = some map

-- `elf_hack` says that GLGRAB_APPLY_ELF_HACK is defined. The result is the flags and what the
-- memory holds after them.
unfoldable pub la_objopen : Bool → ℕ → LinkMap → Option (ℕ × LinkMap)
la_objopen elf_hack fuel map =
    with_flags (
      if elf_hack then apply_elf_hack fuel map (scan_dynamic fuel map.dynamic 0 none) else some map)

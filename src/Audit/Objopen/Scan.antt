-- ===== src/Audit/Objopen/Scan.antt =====
-- What the loops of `la_objopen` find.
use native.Mathlib.Decide.{dec_lt}
use glgrab.Base.{
  inl, inr, Bool-cases, ==_of_ne, ==_of_eq, ne_of_==, ℕ, zero, suc, ◌+◌, ◌≤◌, ◌<◌, ◌≡◌, ◌≢◌, ◌⊎◌,
  refl, ◌∙◌, ap, true, false, ◌||◌, Option, none, some, ltb, ◌==◌, if◌then◌else◌, arith,
}
use glgrab.Audit.Objopen.{
  dt_null, dt_pltrelsz, bind_flags, Dyn, LinkMap, scan_dynamic, find_slot, with_flags,
  apply_elf_hack, la_objopen,
}

-- The table of an object ends at the entry `n`.
abbrev pub EndsAt : (ℕ → Dyn) → ℕ → Type 0
EndsAt dynamic n = ((i : ℕ) → i < n → (dynamic i).d_tag ≢ dt_null) × ((dynamic n).d_tag ≡ dt_null)

-- It has no entry DT_PLTRELSZ.
abbrev pub LacksPltrelsz : (ℕ → Dyn) → ℕ → Type 0
LacksPltrelsz dynamic n = (i : ℕ) → i < n → (dynamic i).d_tag ≢ dt_pltrelsz

scan_dynamic_step :
    (fuel : ℕ) (dynamic : ℕ → Dyn) (a : ℕ) (p : Option ℕ)
    → (dynamic a).d_tag ≢ dt_null
    → scan_dynamic (suc fuel) dynamic a p
      ≡ scan_dynamic fuel dynamic (suc a) (if (dynamic a).d_tag == dt_pltrelsz then some a else p)
unfolding scan_dynamic
scan_dynamic_step fuel dynamic a p on = rw (==_of_ne _ dt_null on) refl

scan_dynamic_stop :
    (fuel : ℕ) (dynamic : ℕ → Dyn) (a : ℕ) (p : Option ℕ)
    → (dynamic a).d_tag ≡ dt_null
    → scan_dynamic (suc fuel) dynamic a p ≡ some (a, p)
unfolding scan_dynamic
scan_dynamic_stop fuel dynamic a p stop = rw (==_of_eq _ dt_null stop) refl

pub scan_dynamic-lacks :
    (fuel : ℕ) (dynamic : ℕ → Dyn) (n a : ℕ)
    → EndsAt dynamic n
    → LacksPltrelsz dynamic n
    → a ≤ n
    → n < a + fuel
    → scan_dynamic fuel dynamic a none ≡ some (n, none)
scan_dynamic-lacks zero dynamic n a ends lacks from enough = absurd (omega arith)
scan_dynamic-lacks (suc fuel) dynamic n a ends lacks from enough = elim (dec_lt a n) [
  | yes h ↦
      scan_dynamic_step fuel dynamic a none (ends.0 a h)
      ∙ rw (==_of_ne _ dt_pltrelsz (lacks a h))
          (scan_dynamic-lacks fuel dynamic n (suc a) ends lacks (omega arith) (omega arith))
  | no h ↦ let e : a ≡ n = omega arith in rw e (scan_dynamic_stop fuel dynamic n none ends.1)
]

-- Once an entry is found, one is found at the end.
scan_dynamic-keeps :
    (fuel : ℕ) (dynamic : ℕ → Dyn) (n a j : ℕ)
    → EndsAt dynamic n
    → a ≤ n
    → n < a + fuel
    → (k : ℕ) × (scan_dynamic fuel dynamic a (some j) ≡ some (n, some k))
scan_dynamic-keeps zero dynamic n a j ends from enough = absurd (omega arith)
scan_dynamic-keeps (suc fuel) dynamic n a j ends from enough = elim (dec_lt a n) [
  | yes h ↦
      let again =
        λ (i : ℕ). scan_dynamic-keeps fuel dynamic n (suc a) i ends (omega arith) (omega arith) in
      elim (Bool-cases ((dynamic a).d_tag == dt_pltrelsz)) [
        | inl e ↦
            let (k, found) = again a in
            (k, scan_dynamic_step fuel dynamic a (some j) (ends.0 a h) ∙ rw e found)
        | inr e ↦
            let (k, found) = again j in
            (k, scan_dynamic_step fuel dynamic a (some j) (ends.0 a h) ∙ rw e found)
      ]
  | no h ↦
      let e : a ≡ n = omega arith in (j, rw e (scan_dynamic_stop fuel dynamic n (some j) ends.1))
]

pub scan_dynamic-finds :
    (fuel : ℕ) (dynamic : ℕ → Dyn) (n a i : ℕ)
    → EndsAt dynamic n
    → (dynamic i).d_tag ≡ dt_pltrelsz
    → a ≤ i
    → i < n
    → n < a + fuel
    → (k : ℕ) × (scan_dynamic fuel dynamic a none ≡ some (n, some k))
scan_dynamic-finds zero dynamic n a i ends it from low enough = absurd (omega arith)
scan_dynamic-finds (suc fuel) dynamic n a i ends it from low enough =
    let step = scan_dynamic_step fuel dynamic a none (ends.0 a (omega arith)) in
    elim (Bool-cases ((dynamic a).d_tag == dt_pltrelsz)) [
      | inl e ↦
          let (k, found) =
            scan_dynamic-keeps fuel dynamic n (suc a) a ends (omega arith) (omega arith) in
          (k, step ∙ rw e found)
      | inr e ↦
          let other : a ≢ i =
            λ same. ne_of_== _ _ e (ap (λ (m : ℕ). (dynamic m).d_tag) same ∙ it) in
          let (k, found) =
            scan_dynamic-finds fuel dynamic n (suc a) i ends it (omega arith) low (omega arith) in
          (k, step ∙ rw e found)
    ]

-- With an entry DT_PLTRELSZ nothing is changed.
pub la_objopen-has :
    (fuel : ℕ) (map : LinkMap) (n i : ℕ)
    → EndsAt map.dynamic n
    → (map.dynamic i).d_tag ≡ dt_pltrelsz
    → i < n
    → n < fuel
    → la_objopen true fuel map ≡ some (bind_flags, map)
unfolding la_objopen apply_elf_hack with_flags
la_objopen-has fuel map n i ends it low enough =
    let (k, found) =
      scan_dynamic-finds fuel map.dynamic n 0 i ends it (omega arith) low (omega arith) in
    rw found refl

-- Of the words from `a` on, `at` is the first that points into the table.
pub find_slot_lem :
    (fuel : ℕ) (slots : ℕ → ℕ) (first last at a : ℕ)
    → ((k : ℕ) → a ≤ k → k < at → (slots k < first) ⊎ (last < slots k))
    → (first ≤ slots at) × (slots at ≤ last)
    → a ≤ at
    → at < a + fuel
    → find_slot fuel slots first last a ≡ some at
unfolding find_slot
find_slot_lem zero slots first last at a out into from enough = absurd (omega arith)
find_slot_lem (suc fuel) slots first last at a out into from enough = elim (dec_lt a at) [
  | yes h ↦
      let test : (ltb (slots a) first || ltb last (slots a)) ≡ true =
        let off = out a (omega arith) h in ground arith in
      rw test (
        find_slot_lem fuel slots first last at (suc a) (λ k hk. out k (omega arith)) into
          (omega arith) (omega arith))
  | no h ↦
      let e : a ≡ at = omega arith in
      let test : (ltb (slots at) first || ltb last (slots at)) ≡ false = ground arith in
      rw e (rw test refl)
]

-- ===== src/Avformat/Order.antt =====
-- The timestamps of the packets that `read_packet` returns.
use glgrab.Base.{
  ℕ, ◌+◌, ◌-◌, ◌^◌, subst, ◌≤◌, ◌<◌, ◌≡◌, ◌≢◌, ◌∷◌, ◌⊎◌, inl, inr, refl, sym, arith, Bool, true,
  false, Option, none, some, List, ltb, Bool-cases,
}
use glgrab.Mrb.{u64}
use glgrab.Avformat.{
  Ffmpeg, Packet, Priv, Outcome, success, try_again, end_of_file, failed, Round, Verdict,
  close_slot, place_packet, new_packet, is_old, read_packet,
}
use glgrab.Avformat.Loop.{Core, core, Post, at_end, read_packet_rule}

-- `last` is -1 or comes before `pts`.
abbrev pub IsAfter : Option ℕ → ℕ → Type 0
IsAfter none pts = Unit
IsAfter (some last) pts = last < pts

-- The packet that is kept, if any, comes after `last`.
abbrev pub Keeps : Option ℕ → Option Packet → Type 0
Keeps last none = Unit
Keeps last (some p) = IsAfter last p.pts

-- How a packet `p` that is returned stands to `last_pts` before and after the call. `null` says that
-- mrb_reveal has stored NULL: then it is the packet that is left, and `last_pts` stays as it is.
-- Otherwise `last_pts` goes up, and not beyond the packet.
abbrev pub Advances : Bool → Option ℕ → Core → Packet → Type 0
Advances null last g' p =
    IsAfter last p.pts
    × (((null ≡ true) × (g'.last_pts ≡ last) × (g'.pkt0 ≡ none))
        ⊎ ((null ≡ false) × (l : ℕ) × (g'.last_pts ≡ some l) × IsAfter last l × (l ≤ p.pts)))

-- While the loop runs.
abbrev pub Going : Option ℕ → Option Packet → Core → Type 0
Going last pkt g = Keeps last g.pkt0 × (g.last_pts ≡ last) × (g.pkt ≡ pkt)

-- What a return leaves: a packet that is later, or `last_pts` and the caller's packet untouched.
abbrev pub Returned : Option ℕ → Option Packet → Bool → Outcome → Core → Type 0
Returned last pkt null success g' =
    Keeps g'.last_pts g'.pkt0 × ((p : Packet) × (g'.pkt ≡ some p) × Advances null last g' p)
Returned last pkt null _ g' = Going last pkt g'

stop-Returned :
    (last : Option ℕ) (pkt : Option Packet) (null : Bool) (o : Outcome) (c : Core)
    → o ≢ success
    → Going last pkt c
    → Returned last pkt null o c
stop-Returned last pkt null success c ne h = absurd (ne refl)
stop-Returned last pkt null try_again c ne h = h
stop-Returned last pkt null end_of_file c ne h = h
stop-Returned last pkt null (failed err) c ne h = h

is_old-IsAfter : (pts : ℕ) (last : Option ℕ) → is_old pts last ≡ false → IsAfter last pts
is_old-IsAfter pts none h = tt
is_old-IsAfter pts (some l) h = ground arith

module _ (av : Ffmpeg) (last : Option ℕ) (pkt : Option Packet) where
  abbrev Goes : Verdict → Type 0
  Goes = Post (Going last pkt) (Returned last pkt false)

  place_packet-Goes :
      (o : Option Packet) (p1 : Packet) (ns : ℕ) (g : Priv)
      → g.pkt0 ≡ o
      → g.last_pts ≡ last
      → g.pkt ≡ pkt
      → Keeps last o
      → IsAfter last p1.pts
      → Goes (place_packet av o p1 ns g)
  unfolding place_packet close_slot
  place_packet-Goes none p1 ns g at l k h after = elim (Bool-cases (av.not_after ns p1.pts)) [
    | inl e ↦ rw (e) (after, l, k)
    | inr e ↦
        let kept = subst (λ t. Keeps (some p1.pts) t) (sym at) tt in
        rw (e) (kept, (p1, refl, (after, inr (refl, p1.pts, refl, after, omega arith))))
  ]
  place_packet-Goes (some p0) p1 ns g at l k h after = elim (Bool-cases (ltb p0.pts p1.pts)) [
    | inl e ↦
        let later : p0.pts < p1.pts = ground arith in
        rw (e) (later, (p0, refl, (h, inr (refl, p0.pts, refl, h, omega arith))))
    | inr e ↦ elim (Bool-cases (av.before p1.pts ns)) [
      | inr f ↦ rw (e, f) (after, l, k)
      | inl f ↦
          let not_later : p1.pts ≤ p0.pts = ground arith in
          let ts = av.to_ns p1.pts in
          elim (Bool-cases (ltb (u64 (ts + 2 ^ 64 - g.ts0)) (u64 (ns + 2 ^ 64 - ts)))) [
            | inl near ↦
                rw (e, f, near) (tt, (p0, refl, (h, inr (refl, p1.pts, refl, after, not_later))))
            | inr far ↦
                rw (e, f, far)
                  (tt, (p1, refl, (after, inr (refl, p1.pts, refl, after, omega arith))))
          ]
    ]
  ]

-- If the packet that is kept comes after last_pts, it does so after read_packet too, and a packet
-- that is returned comes after the old last_pts. If mrb_reveal has stored a pointer to a message
-- in the round of the return, the new last_pts is greater than the old one and not beyond that
-- packet; if it has stored NULL, for the end of the stream, no packet is kept any more, and
-- last_pts stays as it is. A call that returns no packet leaves last_pts and the caller's packet
-- as they are.
pub read_packet-Returned :
    (av : Ffmpeg) (rs : List Round) (g : Priv) (o : Outcome) (g' : Priv)
    → Keeps g.last_pts g.pkt0
    → read_packet av rs g ≡ some (o, g')
    → Returned g.last_pts g.pkt (at_end av rs g) o (core g')
unfolding new_packet
read_packet-Returned av rs g o g' kept e =
    read_packet_rule av (Going g.last_pts g.pkt) (Returned g.last_pts g.pkt)
      (stop-Returned g.last_pts g.pkt)
      (λ p0 c at h.
        (tt, (p0, refl, (subst (λ t. Keeps g.last_pts t) at h.0, inl (refl, h.1, refl)))))
      (λ b c h. h)
      (λ r s b g1 young h.
        place_packet-Goes av g.last_pts g.pkt g1.pkt0 (new_packet av s r.copy b) r.copy.ns
          (record g1 { made = b ∷ g1.made }) refl h.1 h.2 h.0
          (subst (λ t. IsAfter t (av.to_pts r.copy.ns)) h.1 (is_old-IsAfter _ _ young)))
      rs g o g' (kept, refl, refl) e

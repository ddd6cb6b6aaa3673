-- ===== src/Mrb/Oldest/Tests.antt =====
-- A reader whose message, the first, made room for the third.
use glgrab.Base.{◌≡◌, refl, arith, inl, true, false, some, [], ◌∷◌, ◌+◌, ◌<◌}
use glgrab.Mrb.{Mrb, mrb_item_unpack, mrb_item_pack}
use glgrab.Mrb.Write.{mrb_commit}
use glgrab.Mrb.Read.{mrb_check, mrb_reveal}
use glgrab.Mrb.Session.{Holds}
use glgrab.Mrb.Held.{IsHeld}
use glgrab.Mrb.Oldest.{mrb_reveal-IsHeld}
use glgrab.Mrb.Samples.{layout_512, writer, session_after}

abbrev overtaken : Mrb
overtaken = record writer { next = record { seq = 1; off = 0 } }

session_after-Holds : Holds session_after (192 ∷ 320 ∷ [])
unfolding mrb_commit mrb_item_unpack mrb_item_pack
session_after-Holds = (omega arith, inl (refl, refl))

overtaken_fails : mrb_check overtaken (λ i. session_after.shared) ≡ false
unfolding mrb_check mrb_commit mrb_item_unpack mrb_item_pack
overtaken_fails = refl

mrb_reveal-IsHeld_example :
    let v = mrb_reveal overtaken (λ i. session_after.shared) in
    IsHeld layout_512 v.handle.next 192 session_after 2
    × (v.found ≡ true)
    × (v.ptr ≡ some (8192 + v.handle.next.off + 64))
    × (v.handle.next.off < 512)
    × (v.handle.layout ≡ layout_512)
unfolding mrb_commit mrb_item_unpack mrb_item_pack
mrb_reveal-IsHeld_example =
    mrb_reveal-IsHeld overtaken session_after 192 (320 ∷ []) (λ i. session_after.shared) refl
      session_after-Holds (omega arith) refl (omega arith) (omega arith) overtaken_fails

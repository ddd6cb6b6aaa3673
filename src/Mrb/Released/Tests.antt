-- ===== src/Mrb/Released/Tests.antt =====
-- A reader that goes on from the second message while the third one is committed.
use glgrab.Base.{◌≡◌, arith}
use glgrab.Mrb.Read.{mrb_release}
use glgrab.Mrb.Kept.{step_commits}
use glgrab.Mrb.Held.{commits}
use glgrab.Mrb.Session.{Reach}
use glgrab.Mrb.Interleaved.{Seen}
use glgrab.Mrb.Released.{IsNextItem, mrb_release-IsNextItem}
use glgrab.Mrb.Samples.{
  layout_512, session, session_after, session_steps, watcher, second_message-IsHeld,
  second_message_checked,
}

mrb_release-IsNextItem_example :
    let q' = mrb_release watcher (λ i. session_after.shared) in
    IsNextItem layout_512 q'.next session 1 × (q'.layout ≡ layout_512)
unfolding commits step_commits
mrb_release-IsNextItem_example =
    mrb_release-IsNextItem watcher 192 1 session session_after session_after session_after
      (λ i. session_after.shared) (omega arith) second_message-IsHeld session_steps Reach.here
      Reach.here (omega arith) Seen.at_rest Seen.at_rest Seen.at_rest second_message_checked

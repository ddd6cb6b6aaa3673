-- ===== src/Mrb/Interleaved/Tests.antt =====
-- A reader that has found the second message while the third one is committed.
use glgrab.Base.{arith}
use glgrab.Mrb.Kept.{step_commits}
use glgrab.Mrb.Held.{SameWords, commits}
use glgrab.Mrb.Interleaved.{Seen, mrb_check-SameWords}
use glgrab.Mrb.Session.{Reach}
use glgrab.Mrb.Samples.{
  layout_512, words, session, session_after, session_steps, second_message, watcher,
  second_message-IsHeld, second_message_checked,
}

mrb_check-SameWords_example :
    SameWords layout_512 second_message 192 words session_after.shared.word
unfolding commits step_commits
mrb_check-SameWords_example =
    mrb_check-SameWords watcher 192 1 session session_after session_after session_after
      session_after.shared (λ i. session_after.shared) (omega arith) second_message-IsHeld
      session_steps Reach.here Reach.here (omega arith) Seen.at_rest Seen.at_rest Seen.at_rest
      second_message_checked

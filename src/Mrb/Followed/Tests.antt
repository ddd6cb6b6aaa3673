-- ===== src/Mrb/Followed/Tests.antt =====
-- A reader that waits at the tail of the sample buffer: it goes on to the third message, or passes it
-- over if it looks while a long message has the whole buffer.
use glgrab.Base.{ℕ, ◌≡◌, ◌+◌, inl, inr, refl, arith, none, some, [], update}
use glgrab.Mrb.{Mrb, Shared, mrb_item_unpack, mrb_item_pack, roundup}
use glgrab.Mrb.Write.{
  reclaim, keeps_head, next_seq, next_off, place, reserve_at, reclaim_fuel, mrb_reserve, mrb_commit,
}
use glgrab.Mrb.Read.{mrb_check, reveal_start, mrb_reveal, mrb_release}
use glgrab.Mrb.Session.{Session, Step, Reach}
use glgrab.Mrb.Kept.{step_commits}
use glgrab.Mrb.Held.{commits}
use glgrab.Mrb.Interleaved.{Seen}
use glgrab.Mrb.Chain.{IsValid}
use glgrab.Mrb.Reserve.{IsPending}
use glgrab.Mrb.Followed.{IsAwaited, IsFollowed, awaited}
use glgrab.Mrb.Followed.Rounds.{Round, start, round, all_commits, IsOn, Rounds-IsOn}
use glgrab.Mrb.Followed.Lost.{mrb_reveal-passes_over}
use glgrab.Mrb.Samples.{
  layout_512, writer, words, two_messages, lengths, two_messages-IsValid, session, session_after,
  session_steps,
}

abbrev waiter : Mrb
waiter = record writer { next = record { seq = 3; off = 320 } }

waiter-IsAwaited : IsAwaited layout_512 waiter.next session
unfolding mrb_item_unpack
waiter-IsAwaited = record {
  lens = lengths;
  after = record { layout = refl; holds = (two_messages-IsValid, inl (refl, refl)); number = refl };
  place = refl;
}

-- The third message is committed, and then the reader looks and goes on.
abbrev third_round : Round waiter session (λ i. session_after.shared) session_after
unfolding mrb_check mrb_reveal reveal_start mrb_commit mrb_item_unpack mrb_item_pack
third_round = record {
  t = session_after;
  b = session_after;
  d = session_after;
  shown = λ i. session_after.shared;
  ptr = 8576;
  to_shown = session_steps;
  to_link = Reach.here;
  to_head = Reach.here;
  to_tail = Reach.here;
  tail = refl;
  stays = refl;
  shows = refl;
  link = Seen.at_rest;
  first = Seen.at_rest;
  second = Seen.at_rest;
  passes = refl;
}

Rounds-IsOn_example :
    IsOn waiter 0 1
      (all_commits (round start third_round))
      (mrb_release waiter (λ i. session_after.shared))
      session_after
unfolding third_round commits step_commits
Rounds-IsOn_example =
    Rounds-IsOn waiter session 0 (omega arith) (awaited refl waiter-IsAwaited)
      (round start third_round) (omega arith)

-- A message of 320 bytes is reserved, for which both of the others go.
abbrev emptied : Shared
emptied = record { hdr = record (two_messages.hdr) { head = 0 }; word = update words 320 35 }

reserve_320 :
    mrb_reserve writer two_messages 320
    ≡ some (record {
      ptr = some 8576;
      handle = record writer { next = record { seq = 4; off = 192 } };
      shared = emptied;
    })
unfolding mrb_reserve reserve_at place reclaim_fuel reclaim keeps_head next_seq next_off roundup
    mrb_item_unpack mrb_item_pack
reserve_320 = refl

abbrev while_empty : Session
while_empty = record {
  handle = record writer { next = record { seq = 4; off = 192 } };
  shared = emptied;
  granted = some 384;
}

abbrev later : Session
later = record {
  handle = (mrb_commit while_empty.handle emptied).0;
  shared = (mrb_commit while_empty.handle emptied).1;
  granted = none;
}

emptied-IsValid : IsValid layout_512 emptied []
unfolding mrb_item_unpack
emptied-IsValid = omega arith

emptied-IsPending : IsPending layout_512 while_empty.handle.next emptied 384
unfolding mrb_item_unpack mrb_item_pack
emptied-IsPending = omega arith

emptied-IsAwaited : IsAwaited layout_512 waiter.next while_empty
unfolding mrb_item_unpack
emptied-IsAwaited = record {
  lens = [];
  after = record {
    layout = refl;
    holds = (emptied-IsValid, inr (384, refl, emptied-IsPending, omega arith));
    number = refl;
  };
  place = refl;
}

mrb_reveal-passes_over_example :
    let v = mrb_reveal waiter (λ i. emptied) in
    let v' = mrb_reveal v.handle (λ i. later.shared) in
    (v.ptr ≡ none)
    × (v'.ptr ≡ none)
    × (v'.handle.next ≡ mrb_item_unpack layout_512 later.shared.hdr.tail)
    × (k : ℕ) × IsFollowed layout_512 waiter.next later k
    × (v'.handle.next.seq ≡ 3 + k)
unfolding commits step_commits
mrb_reveal-passes_over_example =
    mrb_reveal-passes_over waiter while_empty later (omega arith) (omega arith) emptied-IsAwaited
      refl (Reach.next Reach.here Step.commit) (omega arith)

-- ===== src/Mrb/Samples.antt =====
-- A buffer of 512 bytes with two messages, 128 and 192 bytes long with their links, at offsets 0 and
-- 128, and a writer that commits a third one.
use glgrab.Base.{
  ℕ, ◌≡◌, inl, refl, arith, true, none, some, List, [], ◌∷◌, ◌==◌, if◌then◌else◌, update,
}
use glgrab.Mrb.{Item, Layout, Mrb, Shared, mrb_item_unpack, mrb_item_pack, roundup}
use glgrab.Mrb.Pointer.{IsGeometry}
use glgrab.Mrb.Write.{
  reclaim, keeps_head, next_seq, next_off, place, reserve_at, reclaim_fuel, mrb_reserve, mrb_commit,
}
use glgrab.Mrb.Chain.{IsValid}
use glgrab.Mrb.Create.{null_item}
use glgrab.Mrb.Read.{mrb_check}
use glgrab.Mrb.Held.{IsHeld}
use glgrab.Mrb.Session.{Session, Step, Reach, IsSound}

abbrev pub layout_512 : Layout
layout_512 = record {
  size = 512;
  data_offset = 64;
  align_bits = 6;
  off_bits = 3;
  max_item_size = 256;
}

abbrev pub writer : Mrb
writer = record { header = 4096; base = 8192; layout = layout_512; next = null_item }

abbrev pub words : ℕ → ℕ
words off = if off == 0 then 18 else (if off == 128 then 29 else 0)

abbrev pub two_messages : Shared
two_messages = record {
  hdr = record {
    active = 1;
    align_bits = 6;
    off_bits = 3;
    max_item_size = 256;
    head = 8;
    tail = 29;
  };
  word = words;
}

abbrev pub lengths : List ℕ
lengths = 128 ∷ 192 ∷ []

pub layout_512-IsGeometry : IsGeometry layout_512
layout_512-IsGeometry = omega arith

pub two_messages-IsValid : IsValid layout_512 two_messages lengths
unfolding mrb_item_unpack
two_messages-IsValid = omega arith

-- The third message goes on over the end; the first one makes room for it.
pub reserve_250 :
    mrb_reserve writer two_messages 250
    ≡ some (record {
      ptr = some 8576;
      handle = record writer { next = record { seq = 4; off = 128 } };
      shared = record { hdr = record (two_messages.hdr) { head = 18 }; word = update words 320 34 };
    })
unfolding mrb_reserve reserve_at place reclaim_fuel reclaim keeps_head next_seq next_off roundup
    mrb_item_unpack mrb_item_pack
reserve_250 = refl

-- With the third message reserved, and only the second one kept.
abbrev pub reserved : Shared
reserved = record { hdr = record (two_messages.hdr) { head = 18 }; word = update words 320 34 }

abbrev pub next_place : Item
next_place = record { seq = 4; off = 128 }

abbrev pub session : Session
session = record { handle = writer; shared = two_messages; granted = none }

pub session-IsSound : IsSound session
session-IsSound = record {
  lens = lengths;
  valid = two_messages-IsValid;
  promise = inl (refl, refl);
}

abbrev pub session_after : Session
session_after = record {
  handle = (mrb_commit (record writer { next = next_place }) reserved).0;
  shared = (mrb_commit (record writer { next = next_place }) reserved).1;
  granted = none;
}

abbrev pub session_steps : Reach session session_after
session_steps =
    Reach.next (Reach.next Reach.here (Step.reserve 250 _ (omega arith) reserve_250)) Step.commit

-- A reader that has found the second message.
abbrev pub second_message : Item
second_message = record { seq = 2; off = 128 }

abbrev pub watcher : Mrb
watcher = record writer { next = second_message }

pub second_message-IsHeld : IsHeld layout_512 second_message 192 session 1
unfolding mrb_item_unpack
second_message-IsHeld = record {
  lens = lengths;
  newer = [];
  after = record { layout = refl; holds = (two_messages-IsValid, inl (refl, refl)); number = refl };
  ends = (128 ∷ [], refl);
  place = refl;
  count = refl;
}

pub second_message_checked : mrb_check watcher (λ i. session_after.shared) ≡ true
unfolding mrb_check mrb_commit mrb_item_unpack mrb_item_pack
second_message_checked = refl

-- ===== src/Avformat/Tests.antt =====
-- The input format at concrete inputs: a time base of 10 nanoseconds, and a ring buffer of 512
-- bytes with two messages, at offsets 0 and 128.
use glgrab.Base.{
  ℕ, ◌+◌, ◌*◌, ◌/◌, ◌≤◌, ◌<◌, ◌≡◌, ◌⊎◌, refl, arith, true, none, some, [], ◌∷◌, count, ltb, leb,
  ◌==◌, if◌then◌else◌,
}
use glgrab.Mrb.{Mrb, Shared, mrb_item_unpack}
use glgrab.Mrb.Chain.{IsValid}
use glgrab.Mrb.Read.{mrb_check, reveal_start, mrb_reveal, mrb_release}
use glgrab.Mrb.Drain.{quiet}
use glgrab.Grab.{Frame}
use glgrab.Avformat.{
  video_codec, Ffmpeg, Packet, Priv, Outcome, success, allocated, Round, done, setup_stream,
  close_slot, place_packet, new_packet, copy_frame, use_stream, stream_or_error, find_stream,
  use_pointer, read_round, resume, read_packet,
}
use glgrab.Avformat.Loop.{core, at_end}
use glgrab.Avformat.Packets.{places, read_packet-places}
use glgrab.Avformat.Order.{Returned, read_packet-Returned}
use glgrab.Avformat.Nearest.{apart, close_slot_lem}
use glgrab.Avformat.Ends.{read_packet-Returns}

abbrev ffmpeg : Ffmpeg
ffmpeg = record {
  to_pts = λ ns. (ns + 5) / 10;
  to_ns = λ pts. pts * 10;
  not_after = λ ns pts. leb ns (pts * 10);
  before = λ pts ns. ltb (pts * 10) ns;
  ffalign = λ n a. (n + 1) / 2 * 2;
  inv_q = λ (num, den). (den, num);
  picture_size = λ w h. w * h * 3 / 2;
}

abbrev memory : Shared
memory = record {
  hdr = record {
    active = 1;
    align_bits = 6;
    off_bits = 3;
    max_item_size = 256;
    head = 8;
    tail = 29;
  };
  word = λ off. if off == 0 then 18 else (if off == 128 then 29 else 0);
}

abbrev reader : Mrb
reader = record {
  header = 4096;
  base = 8192;
  layout = record {
    size = 512;
    data_offset = 64;
    align_bits = 6;
    off_bits = 3;
    max_item_size = 256;
  };
  next = record { seq = 1; off = 0 };
}

memory-IsValid : IsValid reader.layout memory (128 ∷ 192 ∷ [])
unfolding mrb_item_unpack
memory-IsValid = omega arith

abbrev frame_at : ℕ → Frame
frame_at ns = record {
  ptr = 0;
  ns = ns;
  height = 2;
  width = 3;
  padded_height = 2;
  padded_width = 32;
}

abbrev round : ℕ → ℕ → Round
round ns buffer = record {
  reveal = quiet memory;
  copy = frame_at ns;
  first_check = quiet memory;
  new_stream = some 0;
  new_packet = λ size. allocated buffer;
  second_check = quiet memory;
  release = quiet memory;
}

abbrev start : Priv
start = record {
  rb = reader;
  stream = none;
  framerate = (30, 1);
  width = 0;
  height = 0;
  tv_sec = 0;
  tv_nsec = 0;
  last_pts = none;
  pkt0 = none;
  ts0 = 0;
  pkt = none;
  made = [];
  freed = [];
}

abbrev packet : ℕ → ℕ → ℕ → Packet
packet buffer ns pts = record {
  buffer = buffer;
  picture = record { frame = frame_at ns; width = 3; height = 2; zeroed = true };
  pts = pts;
  dts = pts;
  stream_index = 0;
  key = true;
}

-- The frame at 8 stands for 10, and is returned when one for 20 has come.
abbrev after_two : Priv
after_two = record start {
  rb = record reader { next = record { seq = 3; off = 320 } };
  stream = some (record {
    index = 0;
    r_frame_rate = (30, 1);
    time_base = (1, 30);
    codec = video_codec ffmpeg (30, 1);
    width = 4;
    height = 2;
  });
  width = 3;
  height = 2;
  last_pts = some 1;
  pkt0 = some (packet 101 22 2);
  ts0 = 22;
  pkt = some (packet 100 8 1);
  made = 101 ∷ 100 ∷ [];
}

two_rounds : read_packet ffmpeg (round 8 100 ∷ round 22 101 ∷ []) start ≡ some (success, after_two)
unfolding read_packet resume read_round use_pointer find_stream stream_or_error setup_stream
    use_stream copy_frame new_packet place_packet mrb_check mrb_reveal reveal_start mrb_release
    mrb_item_unpack
two_rounds = refl

-- Of the frames at 22 and 24, both after the time 20 that they stand for, the later is returned.
late_pair :
    place_packet ffmpeg (some (packet 101 22 2)) (packet 102 24 2) 24 after_two
    ≡ done success (record after_two {
      last_pts = some 2;
      pkt0 = none;
      pkt = some (packet 102 24 2);
      freed = 101 ∷ 100 ∷ [];
    })
unfolding place_packet close_slot
late_pair = refl

read_packet-places_example :
    places 100 (core after_two) + 0 ≡ places 100 (core start) + count 100 (101 ∷ 100 ∷ [])
read_packet-places_example =
    read_packet-places ffmpeg 100 (round 8 100 ∷ round 22 101 ∷ []) start success after_two
      two_rounds

read_packet-Returned_example :
    Returned none none
      (at_end ffmpeg (round 8 100 ∷ round 22 101 ∷ []) start)
      success
      (core after_two)
read_packet-Returned_example =
    read_packet-Returned ffmpeg (round 8 100 ∷ round 22 101 ∷ []) start success after_two tt
      two_rounds

close_slot_lem_example :
    let g' = close_slot ffmpeg (packet 101 22 2) (packet 102 24 2) 24 after_two in
    (g'.last_pts ≡ some 2)
    × (((22 ≤ 20)
          × (((apart 22 20 < apart 24 20) × (g'.pkt ≡ some (packet 101 22 2)))
              ⊎ ((apart 24 20 ≤ apart 22 20) × (g'.pkt ≡ some (packet 102 24 2)))))
        ⊎ ((20 < 22) × (apart 22 20 ≤ apart 24 20) × (g'.pkt ≡ some (packet 102 24 2))))
close_slot_lem_example =
    close_slot_lem ffmpeg (packet 101 22 2) (packet 102 24 2) 24 after_two (omega arith)
      (omega arith) (omega arith)

read_packet-Returns_example :
    (o : Outcome) × (g' : Priv) × (read_packet ffmpeg
        (round 8 100 ∷ round 9 101 ∷ round 9 102 ∷ [])
        start
      ≡ some (o, g'))
unfolding mrb_item_unpack
read_packet-Returns_example =
    read_packet-Returns ffmpeg start memory (128 ∷ 192 ∷ [])
      (round 8 100 ∷ round 9 101 ∷ round 9 102 ∷ []) memory-IsValid (λ e. cc) (omega arith) refl
      (refl, refl) (refl, refl, (refl, refl, (refl, refl, tt))) (omega arith)

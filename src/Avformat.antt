-- ===== src/Avformat.antt =====
-- avformat.c: the input format that takes the frames out of the ring buffer for FFmpeg. What is
-- FFmpeg's (the arithmetic of timestamps, the making of streams and packets) is an argument. A
-- timestamp is a natural number, since that of a frame is never negative; `last_pts` is `none` for
-- -1, and `pkt0` for a packet without a timestamp, which is how the source marks an empty one.
pub mod Data
pub mod Loop
pub mod Packets
pub mod Order
pub mod Nearest
pub mod Ends
mod Tests
pub use Data.*
use glgrab.Base.{
  ℕ, zero, suc, ◌+◌, ◌-◌, ◌*◌, ◌/◌, ◌%◌, ◌^◌, min, Bool, true, false, not, ◌&&◌, ◌||◌, Option, none,
  some, List, [], ◌∷◌, ltb, leb, ◌==◌, if◌then◌else◌,
}
use glgrab.Mrb.{Mrb, u64}
use glgrab.Mrb.Read.{
  Loads, Revealed, OpenEnv, mrb_check, mrb_reveal, mrb_release, mrb_open, mrb_close,
}
use glgrab.Grab.{Frame}

-- av_free_packet
abbrev pub free_packet : Option Packet → List ℕ → List ℕ
free_packet none freed = freed
free_packet (some p) freed = p.buffer ∷ freed

-- ENOMEM of Linux.
abbrev pub enomem : ℕ
enomem = 12

-- `pts <= g->last_pts`
abbrev pub is_old : ℕ → Option ℕ → Bool
is_old pts none = false
is_old pts (some last) = leb pts last

module _ (av : Ffmpeg) where
  -- What `setup_stream` sets up but for the size.
  unfoldable pub video_codec : Rational → Codec
  video_codec framerate = record {
    time_base = av.inv_q framerate;
    codec_type = type_video;
    codec_id = codec_id_rawvideo;
    pix_fmt = pix_fmt_yuv420p;
    color_primaries = col_pri_bt709;
    color_trc = col_trc_bt709;
    colorspace = col_spc_bt709;
    color_range = col_range_mpeg;
    chroma_sample_location = chroma_loc_center;
  }

  -- `index` is that of the stream which avformat_new_stream makes, none for NULL.
  unfoldable pub setup_stream : Option ℕ → Priv → ℕ × Priv
  setup_stream none g = (enomem, record g { stream = none })
  setup_stream (some index) g = (
    0,
    record g {
      stream = some (record {
        index = index;
        r_frame_rate = g.framerate;
        time_base = av.inv_q g.framerate;
        codec = video_codec g.framerate;
        width = av.ffalign g.width 2;
        height = av.ffalign g.height 2;
      });
    },
  )

  -- The slot of `p1` is over: of the two packets in it, the one that is nearer is returned.
  unfoldable pub close_slot : Packet → Packet → ℕ → Priv → Priv
  close_slot p0 p1 ns g =
      let ts = av.to_ns p1.pts in
      let freed = free_packet g.pkt g.freed in
      let closed = record g { last_pts = some p1.pts; pkt0 = none } in
      if ltb (u64 (ts + 2 ^ 64 - g.ts0)) (u64 (ns + 2 ^ 64 - ts))
      then record closed { pkt = some p0; freed = p1.buffer ∷ freed }
      else record closed { pkt = some p1; freed = p0.buffer ∷ freed }

  -- The chain of tests on `pkt0`, with the new packet `p1` of the frame at `ns`.
  unfoldable pub place_packet : Option Packet → Packet → ℕ → Priv → Verdict
  place_packet none p1 ns g =
      if av.not_after ns p1.pts
      then again (record g { pkt0 = some p1; ts0 = ns })
      else done success
          (record g { freed = free_packet g.pkt g.freed; pkt = some p1; last_pts = some p1.pts })
  place_packet (some p0) p1 ns g =
      if ltb p0.pts p1.pts
      then done success (record g {
        freed = free_packet g.pkt g.freed;
        pkt = some p0;
        last_pts = some p0.pts;
        pkt0 = some p1;
        ts0 = ns;
      })
      else (if av.before p1.pts ns
          then done success (close_slot p0 p1 ns g)
          else again (record g { freed = p0.buffer ∷ g.freed; pkt0 = some p1; ts0 = ns }))

  unfoldable pub new_packet : Stream → Frame → ℕ → Packet
  new_packet s copy buffer = record {
    buffer = buffer;
    picture = record {
      frame = copy;
      width = min s.width copy.width;
      height = min s.height copy.height;
      zeroed = ltb copy.width s.width || ltb copy.height s.height;
    };
    pts = av.to_pts copy.ns;
    dts = av.to_pts copy.ns;
    stream_index = s.index;
    key = true;
  }

  -- From `av_new_packet` on.
  unfoldable pub copy_frame : Round → Stream → Alloc → Priv → Verdict
  copy_frame r s (refused err) g = done (failed err) g
  copy_frame r s (allocated buffer) g =
      let filled = record g { made = buffer ∷ g.made } in
      if not (mrb_check g.rb r.second_check)
      then again (record filled { freed = buffer ∷ g.freed })
      else place_packet g.pkt0 (new_packet s r.copy buffer) r.copy.ns filled

  -- From `AVStream *s` on.
  unfoldable pub use_stream : Round → Stream → Priv → Verdict
  use_stream r s g =
      if is_old (av.to_pts r.copy.ns) g.last_pts
      then again g
      else copy_frame r s (r.new_packet (av.picture_size s.width s.height)) g

  -- What `setup_stream` has returned, and `g->stream` after it, which is there if it returned 0.
  unfoldable pub stream_or_error : Round → ℕ → Option Stream → Priv → Verdict
  stream_or_error r err none g = done (failed err) g
  stream_or_error r err (some s) g = if err == 0 then use_stream r s g else done (failed err) g

  -- `if (!g->stream)`
  unfoldable pub find_stream : Round → Option Stream → Priv → Verdict
  unfolding setup_stream
  find_stream r (some s) g = use_stream r s g
  find_stream r none g =
      let sized = record g { width = r.copy.width; height = r.copy.height } in
      let (err, g') = setup_stream r.new_stream sized in stream_or_error r err g'.stream g'

  -- `if (!p)`: the packet that is left is returned before the end.
  unfoldable pub flush : Option Packet → Priv → Verdict
  flush none g = leave end_of_file g
  flush (some p0) g =
      leave success (record g { freed = free_packet g.pkt g.freed; pkt = some p0; pkt0 = none })

  -- What is done with the pointer that mrb_reveal has stored.
  unfoldable pub use_pointer : Round → Option ℕ → Priv → Verdict
  use_pointer r none g = flush g.pkt0 g
  use_pointer r (some p) g =
      if not (mrb_check g.rb r.first_check) then again g else find_stream r g.stream g

  -- One round, from mrb_reveal to mrb_release.
  unfoldable pub read_round : Round → Priv → Verdict
  read_round r g =
      let v = mrb_reveal g.rb r.reveal in
      let g' = record g { rb = v.handle } in
      if not v.found
      then (if g.tv_sec == 0 && g.tv_nsec == 0 then leave try_again g' else wait g')
      else use_pointer r v.ptr g'

  abbrev pub released : Round → Priv → Priv
  released r g = record g { rb = mrb_release g.rb r.release }

  -- How the loop goes on after a round, with `rest` for the rounds that are left.
  unfoldable pub resume :
      (Priv → Option (Outcome × Priv)) → Round → Verdict → Option (Outcome × Priv)
  resume rest r (leave o g) = some (o, g)
  resume rest r (wait g) = rest g
  resume rest r (again g) = rest (released r g)
  resume rest r (done o g) = some (o, released r g)

  -- `none` says that the loop is still running after these rounds.
  unfoldable pub read_packet : List Round → Priv → Option (Outcome × Priv)
  read_packet [] g = none
  read_packet (r ∷ rs) g = resume (read_packet rs) r (read_round r g)

-- The option `poll`, here in nanoseconds, as a timespec.
unfoldable pub poll_time : ℕ → ℕ × ℕ
poll_time poll =
    let sec = poll / 10 ^ 9 in
    if ltb 0 poll then (sec, min (poll - sec * 10 ^ 9) 999999999) else (0, 0)

-- What read_header sets in the context of the format: whether AVFMTCTX_NOHEADER, and the duration,
-- `none` for -1.
pub record FormatContext : Type 0 where
  pub no_header : Bool
  pub duration : Option ℕ

-- `new_stream` is what avformat_new_stream answers, and `flagged` whether the context has the flag
-- AVFMTCTX_NOHEADER before.
unfoldable pub read_header :
    Ffmpeg → Option ℕ → OpenEnv → ℕ → Bool → Priv → ℕ × Priv × FormatContext
unfolding poll_time setup_stream
read_header av new_stream env poll flagged g =
    let (sec, nsec) = poll_time poll in
    let start = record g { tv_sec = sec; tv_nsec = nsec; last_pts = none; pkt0 = none } in
    let sized = ltb 0 g.width && ltb 0 g.height in
    let (rc, g') = if sized then setup_stream av new_stream start else (0, start) in
    let context : FormatContext = record {
      no_header = if sized then flagged else true;
      duration = none;
    } in
    let o = mrb_open env g'.rb in
    if not (rc == 0) then (rc, g', context) else (o.rc, record g' { rb = o.handle }, context)

-- The first part of the result is the argument of AVERROR.
unfoldable pub read_close : ℕ → ℕ → Priv → ℕ × Priv
read_close pagesize munmap_errno g =
    let (rc, rb, calls) = mrb_close pagesize munmap_errno g.rb in
    (rc, record g { freed = free_packet g.pkt0 g.freed; rb = rb })

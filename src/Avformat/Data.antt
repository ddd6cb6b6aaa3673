-- ===== src/Avformat/Data.antt =====
-- The data of avformat.c, and what it asks of FFmpeg.
use glgrab.Base.{ℕ, Bool, Option, List}
use glgrab.Mrb.{Mrb}
use glgrab.Mrb.Read.{Loads}
use glgrab.Grab.{Frame}

-- `AVRational`, the numerator and the denominator.
abbrev pub Rational : Type 0
Rational = ℕ × ℕ

-- What the format asks of FFmpeg. `to_pts` and `to_ns` are av_rescale_q_rnd from nanoseconds to the
-- time base of the stream and back; `not_after` says that av_compare_ts(ns, pts) <= 0, and `before`
-- that av_compare_ts(pts, ns) < 0.
pub record Ffmpeg : Type 0 where
  pub to_pts : ℕ → ℕ
  pub to_ns : ℕ → ℕ
  pub not_after : ℕ → ℕ → Bool
  pub before : ℕ → ℕ → Bool
  pub ffalign : ℕ → ℕ → ℕ
  pub inv_q : Rational → Rational
  pub picture_size : ℕ → ℕ → ℕ

-- FFmpeg's constants, without the prefix `AV_` or `AVMEDIA_`.
pub data Constant : Type 0 where
  type_video : Constant
  codec_id_rawvideo : Constant
  pix_fmt_yuv420p : Constant
  col_pri_bt709 : Constant
  col_trc_bt709 : Constant
  col_spc_bt709 : Constant
  col_range_mpeg : Constant
  chroma_loc_center : Constant

-- The members of `AVCodecContext` that do not depend on the frames.
pub record Codec : Type 0 where
  pub time_base : Rational
  pub codec_type : Constant
  pub codec_id : Constant
  pub pix_fmt : Constant
  pub color_primaries : Constant
  pub color_trc : Constant
  pub colorspace : Constant
  pub color_range : Constant
  pub chroma_sample_location : Constant

-- The stream, with its codec's size.
pub record Stream : Type 0 where
  pub index : ℕ
  pub r_frame_rate : Rational
  pub time_base : Rational
  pub codec : Codec
  pub width : ℕ
  pub height : ℕ

-- What av_picture_copy has put into a packet: the frame it comes from, the size that is copied,
-- and whether the packet was filled with zeros before.
pub record Picture : Type 0 where
  pub frame : Frame
  pub width : ℕ
  pub height : ℕ
  pub zeroed : Bool

-- `AVPacket`; `buffer` names the memory that av_new_packet has got for it.
pub record Packet : Type 0 where
  pub buffer : ℕ
  pub picture : Picture
  pub pts : ℕ
  pub dts : ℕ
  pub stream_index : ℕ
  pub key : Bool

-- `struct glgrab_priv`, and three more: the caller's packet `*pkt`, the buffers that were made, and
-- those that were freed.
pub record Priv : Type 0 where
  pub rb : Mrb
  pub stream : Option Stream
  pub framerate : Rational
  pub width : ℕ
  pub height : ℕ
  pub tv_sec : ℕ
  pub tv_nsec : ℕ
  pub last_pts : Option ℕ
  pub pkt0 : Option Packet
  pub ts0 : ℕ
  pub pkt : Option Packet
  pub made : List ℕ
  pub freed : List ℕ

-- What a callback returns: 0, AVERROR(EAGAIN), AVERROR_EOF or AVERROR of another number.
pub data Outcome : Type 0 where
  success : Outcome
  try_again : Outcome
  end_of_file : Outcome
  failed : ℕ → Outcome

-- What av_new_packet answers: a buffer, or an error.
pub data Alloc : Type 0 where
  allocated : ℕ → Alloc
  refused : ℕ → Alloc

-- What one round of the loop of `read_packet` finds: the memory at each call of the ring buffer,
-- the header of the frame that is shown, and FFmpeg's answers.
pub record Round : Type 0 where
  pub reveal : Loads
  pub copy : Frame
  pub first_check : Loads
  pub new_stream : Option ℕ
  pub new_packet : ℕ → Alloc
  pub second_check : Loads
  pub release : Loads

-- How a round ends: by a return, by a look again after a sleep, by `continue`, or with `retry`
-- false. Behind the last two comes mrb_release.
pub data Verdict : Type 0 where
  leave : Outcome → Priv → Verdict
  wait : Priv → Verdict
  again : Priv → Verdict
  done : Outcome → Priv → Verdict

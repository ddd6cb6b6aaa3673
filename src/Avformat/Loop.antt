-- ===== src/Avformat/Loop.antt =====
-- The loop of `read_packet`, by what its rounds keep.
use glgrab.Base.{
  ℕ, ◌≡◌, ◌≢◌, refl, subst, inl, inr, Bool, true, false, ◌&&◌, Option, none, some, List, [], ◌∷◌,
  ◌==◌, Bool-cases,
}
use glgrab.Mrb.Read.{mrb_reveal, mrb_check}
use glgrab.Avformat.{
  video_codec, Ffmpeg, Packet, Stream, Priv, Outcome, success, try_again, end_of_file, failed,
  Alloc, allocated, refused, Round, Verdict, leave, wait, again, done, free_packet, setup_stream,
  place_packet, new_packet, copy_frame, is_old, use_stream, stream_or_error, find_stream, flush,
  use_pointer, released, read_round, resume, read_packet,
}

-- The members that have to do with packets.
pub record Core : Type 0 where
  pub last_pts : Option ℕ
  pub pkt0 : Option Packet
  pub ts0 : ℕ
  pub pkt : Option Packet
  pub made : List ℕ
  pub freed : List ℕ

abbrev pub core : Priv → Core
core g = record {
  last_pts = g.last_pts;
  pkt0 = g.pkt0;
  ts0 = g.ts0;
  pkt = g.pkt;
  made = g.made;
  freed = g.freed;
}

-- A round that ends in this verdict leaves `P` to the next round, or `Q` at the return.
abbrev pub Post : (Core → Type 0) → (Outcome → Core → Type 0) → Verdict → Type 0
Post P Q (leave o g) = Q o (core g)
Post P Q (wait g) = P (core g)
Post P Q (again g) = P (core g)
Post P Q (done o g) = Q o (core g)

-- What holds of a result, if there is one.
abbrev Ensures : (Outcome → Core → Type 0) → Option (Outcome × Priv) → Type 0
Ensures Q none = Unit
Ensures Q (some (o, g)) = Q o (core g)

-- Whether the call returns in a round where mrb_reveal has stored NULL; `null` is that of this
-- round, and `rest` what comes of the rounds that are left.
abbrev null_pointer : Option ℕ → Bool
null_pointer none = true
null_pointer (some p) = false

unfoldable null_at_return : Ffmpeg → (Priv → Bool) → Round → Verdict → Bool → Bool
null_at_return av rest r (leave o g) null = null
null_at_return av rest r (wait g) null = rest g
null_at_return av rest r (again g) null = rest (released av r g)
null_at_return av rest r (done o g) null = null

unfoldable pub at_end : Ffmpeg → List Round → Priv → Bool
unfolding null_at_return
at_end av [] g = false
at_end av (r ∷ rs) g =
    null_at_return av (at_end av rs) r (read_round av r g)
      (null_pointer (mrb_reveal g.rb r.reveal).ptr)

-- `stops` is about a return without a packet, `ends` about the packet that is left at the end,
-- `drops` about a packet that the second check refuses, and `places` about one that passes.
module _ (av : Ffmpeg) (P : Core → Type 0) (Q : Bool → Outcome → Core → Type 0)
    (stops : (null : Bool) (o : Outcome) (c : Core) → o ≢ success → P c → Q null o c)
    (ends : (p0 : Packet) (c : Core)
      → c.pkt0 ≡ some p0
      → P c
      → Q true success (record c { freed = free_packet c.pkt c.freed; pkt = some p0; pkt0 = none }))
    (drops : (b : ℕ) (c : Core) → P c → P (record c { made = b ∷ c.made; freed = b ∷ c.freed }))
    (places : (r : Round) (s : Stream) (b : ℕ) (g : Priv)
      → is_old (av.to_pts r.copy.ns) g.last_pts ≡ false
      → P (core g)
      → Post P (Q false) (
          place_packet av g.pkt0
            (new_packet av s r.copy b)
            r.copy.ns
            (record g { made = b ∷ g.made }))) where
  copy_frame-Post :
      (r : Round) (s : Stream) (o : Alloc) (g : Priv)
      → is_old (av.to_pts r.copy.ns) g.last_pts ≡ false
      → P (core g)
      → Post P (Q false) (copy_frame av r s o g)
  unfolding copy_frame
  copy_frame-Post r s (refused err) g young h = stops false (failed err) (core g) (λ e. cc) h
  copy_frame-Post r s (allocated b) g young h = elim (Bool-cases (mrb_check g.rb r.second_check)) [
    | inl e ↦ rw (e) (places r s b g young h)
    | inr e ↦ rw (e) (drops b (core g) h)
  ]

  use_stream-Post :
      (r : Round) (s : Stream) (g : Priv) → P (core g) → Post P (Q false) (use_stream av r s g)
  unfolding use_stream
  use_stream-Post r s g h = elim (Bool-cases (is_old (av.to_pts r.copy.ns) g.last_pts)) [
    | inl e ↦ rw (e) h
    | inr e ↦ rw (e) (copy_frame-Post r s (r.new_packet (av.picture_size s.width s.height)) g e h)
  ]

  stream_or_error-Post :
      (r : Round) (o : Option ℕ) (g : Priv)
      → P (core g)
      → let (err, g') = setup_stream av o g in
        Post P (Q false) (stream_or_error av r err g'.stream g')
  unfolding setup_stream stream_or_error
  stream_or_error-Post r none g h = stops false (failed _) (core g) (λ e. cc) h
  stream_or_error-Post r (some index) g h =
      let s : Stream = record {
        index = index;
        r_frame_rate = g.framerate;
        time_base = av.inv_q g.framerate;
        codec = video_codec av g.framerate;
        width = av.ffalign g.width 2;
        height = av.ffalign g.height 2;
      } in
      use_stream-Post r s (record g { stream = some s }) h

  find_stream-Post :
      (r : Round) (o : Option Stream) (g : Priv)
      → P (core g)
      → Post P (Q false) (find_stream av r o g)
  unfolding find_stream
  find_stream-Post r (some s) g h = use_stream-Post r s g h
  find_stream-Post r none g h =
      stream_or_error-Post r r.new_stream
        (record g { width = r.copy.width; height = r.copy.height }) h

  flush-Post :
      (o : Option Packet) (g : Priv) → g.pkt0 ≡ o → P (core g) → Post P (Q true) (flush av o g)
  unfolding flush
  flush-Post none g at h = stops true end_of_file (core g) (λ e. cc) h
  flush-Post (some p0) g at h = ends p0 (core g) at h

  use_pointer-Post :
      (r : Round) (o : Option ℕ) (g : Priv)
      → P (core g)
      → Post P (Q (null_pointer o)) (use_pointer av r o g)
  unfolding use_pointer
  use_pointer-Post r none g h = flush-Post g.pkt0 g refl h
  use_pointer-Post r (some p) g h = elim (Bool-cases (mrb_check g.rb r.first_check)) [
    | inl e ↦ rw (e) (find_stream-Post r g.stream g h)
    | inr e ↦ rw (e) h
  ]

  read_round-Post :
      (r : Round) (g : Priv)
      → P (core g)
      → Post P (Q (null_pointer (mrb_reveal g.rb r.reveal).ptr)) (read_round av r g)
  unfolding read_round
  read_round-Post r g h = elim (Bool-cases (mrb_reveal g.rb r.reveal).found) [
    | inl e ↦
        let v = mrb_reveal g.rb r.reveal in
        rw (e) (use_pointer-Post r v.ptr (record g { rb = v.handle }) h)
    | inr e ↦ elim (Bool-cases (g.tv_sec == 0 && g.tv_nsec == 0)) [
      | inl f ↦ rw (e, f) (stops _ try_again (core g) (λ e. cc) h)
      | inr f ↦ rw (e, f) h
    ]
  ]

  resume-Ensures :
      (rest : Priv → Option (Outcome × Priv)) (ends_null : Priv → Bool) (r : Round) (v : Verdict)
      (null : Bool)
      → ((g : Priv) → P (core g) → Ensures (Q (ends_null g)) (rest g))
      → Post P (Q null) v
      → Ensures (Q (null_at_return av ends_null r v null)) (resume av rest r v)
  unfolding resume null_at_return
  resume-Ensures rest ends_null r (leave o g) null ih h = h
  resume-Ensures rest ends_null r (wait g) null ih h = ih g h
  resume-Ensures rest ends_null r (again g) null ih h = ih (released av r g) h
  resume-Ensures rest ends_null r (done o g) null ih h = h

  loop-Ensures :
      (rs : List Round) (g : Priv) → P (core g) → Ensures (Q (at_end av rs g)) (read_packet av rs g)
  unfolding read_packet at_end
  loop-Ensures [] g h = tt
  loop-Ensures (r ∷ rs) g h =
      resume-Ensures (read_packet av rs) (at_end av rs) r (read_round av r g) _ (loop-Ensures rs)
        (read_round-Post r g h)

  -- The rule of the loop.
  pub read_packet_rule :
      (rs : List Round) (g : Priv) (o : Outcome) (g' : Priv)
      → P (core g)
      → read_packet av rs g ≡ some (o, g')
      → Q (at_end av rs g) o (core g')
  read_packet_rule rs g o g' h e =
      subst (λ t. Ensures (Q (at_end av rs g)) t) e (loop-Ensures rs g h)

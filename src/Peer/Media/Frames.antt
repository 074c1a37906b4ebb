-- ===== src/Peer/Media/Frames.antt =====
-- The frames of a track and the packets that carry them, by what pion's packetizer documents.
use web_rtcsfu.Base.{
  ℕ, ◌+◌, ◌^◌, ◌<◌, ◌≡◌, ◌≢◌, refl, sym, ap, ap₂, ◌∙◌, false, Option, some, List, [], ◌∷◌, ◌++◌,
  map, drop, length, All, arith, append_assoc,
}
use mathlib.Core.List.{flatten, map-append}
use web_rtcsfu.Base.Bytes.{Bytes, u32}
use web_rtcsfu.Peer.Packet.{PointCloudPayloader, AudioPayloader, payload_video, payload_audio}
use web_rtcsfu.Peer.Packet.Payload.{
  Carries, payload_video-fragments, payload_audio-fragments, video_fragments, audio_fragments,
  video_fragments-Carries, audio_fragments-Carries,
}
use web_rtcsfu.Peer.Proxy.Types.{ProxyConnection}
use web_rtcsfu.Peer.Proxy.Consumers.{ready, next_tile}
use web_rtcsfu.Peer.Transcoder.{remote, TranscoderRemote, encode_frame}
use web_rtcsfu.Peer.Media.{
  RtpLibrary, TrackLocalRtp, write_packets, write_data, write_audio_frame, write_video_frame,
  Written, written, write_encoded, write_frames,
}

-- `Packetize` gives a frame to the payloader and makes one packet of each fragment; the payloader is
-- kept, and it is the one that `NewPacketizer` got.
pub record PacketizerLaw {S : Type 0} (lib : RtpLibrary S)
    (pay : S → Bytes → Option (S × List Bytes)) : Type 0 where
  pub payloader_of : lib.Packetizer → S
  pub made : (mtu : ℕ) (s : S) (rate : ℕ) → payloader_of (lib.new_packetizer mtu s rate) ≡ s
  pub packetized :
      (p : lib.Packetizer) (frame : Bytes) (samples : ℕ) (s' : S) (fragments : List Bytes)
      → frame ≢ []
      → pay (payloader_of p) frame ≡ some (s', fragments)
      → (p' : lib.Packetizer) × (packets : List lib.Packet) × (lib.packetize p frame samples
          ≡ some (p', packets))
        × (payloader_of p' ≡ s')
        × (map lib.payload packets ≡ fragments)

-- A frame that fits the code's 32-bit fields; an empty one is left to the packetizer.
abbrev pub IsFrame : Bytes → Type 0
IsFrame frame = (frame ≢ []) × (length frame < 2 ^ 32)

module _ (client : ℕ) (lib : RtpLibrary PointCloudPayloader)
    (law : PacketizerLaw lib (payload_video client)) where
  -- The frame at hand has left in packets whose payloads are the payloader's fragments, and the
  -- next frame has the next number.
  pub write_video_frame-fragments :
      (t : TranscoderRemote) (tile quality : ℕ) (pc pc' : ProxyConnection)
      (track : TrackLocalRtp lib) (network : lib.Network) (p : lib.Packetizer) (frame : Bytes)
      → track.packetizer ≡ some p
      → next_tile pc (record { tile_nr = tile; quality = quality }) ≡ some (ready pc' frame)
      → frame ≢ []
      → length frame < 2 ^ 32
      → (p' : lib.Packetizer) × (packets : List lib.Packet) × (write_video_frame lib false
            (remote t)
            tile
            quality
            pc
            track
            network
          ≡ some (
              written
                (record track { packetizer = some p' })
                (write_packets lib packets network)
                pc'))
        × (map lib.payload packets ≡ video_fragments client (law.payloader_of p) frame)
        × (law.payloader_of p' ≡ record (law.payloader_of p) {
          frame_counter = u32 ((law.payloader_of p).frame_counter + 1);
        })
  unfolding write_video_frame encode_frame write_encoded write_data
  write_video_frame-fragments t tile quality pc pc' track network p frame bound polled some_bytes
        fits =
      let s = law.payloader_of p in
      let (p', packets, sent, kept, same) =
        law.packetized p frame track.clock_rate _ (video_fragments client s frame) some_bytes
          (payload_video-fragments client s frame fits) in
      (p', packets, rw (bound, polled, sent) refl, same, kept)

  -- The frame at hand has left in packets that carry it, and the next one has the next number.
  abbrev pub SentTile :
      lib.Packetizer
      → Bytes
      → ProxyConnection
      → TrackLocalRtp lib
      → lib.Network
      → Option (Written lib)
      → Type 0
  SentTile p frame pc track network result =
      (p' : lib.Packetizer) × (packets : List lib.Packet) × (result
        ≡ some (
            written (record track { packetizer = some p' }) (write_packets lib packets network) pc))
      × Carries 28 frame (map lib.payload packets)
      × (law.payloader_of p' ≡ record (law.payloader_of p) {
        frame_counter = u32 ((law.payloader_of p).frame_counter + 1);
      })

  -- Let the packetizer make one packet of each fragment of its payloader. Take a bound track, no
  -- debugging, the remote transcoder, and a frame of at least one and fewer than 2^32 bytes that
  -- `NextTile` hands over for the tile and quality. Then `WriteVideoFrame` writes packets in order
  -- that carry the frame: behind their 28-byte headers they join to it, and each has between one
  -- byte of it and 1144; and the payloader's frame counter is one higher, modulo 2^32.
  pub write_video_frame-SentTile :
      (t : TranscoderRemote) (tile quality : ℕ) (pc pc' : ProxyConnection)
      (track : TrackLocalRtp lib) (network : lib.Network) (p : lib.Packetizer) (frame : Bytes)
      → track.packetizer ≡ some p
      → next_tile pc (record { tile_nr = tile; quality = quality }) ≡ some (ready pc' frame)
      → frame ≢ []
      → length frame < 2 ^ 32
      → SentTile p frame pc' track network
          (write_video_frame lib false (remote t) tile quality pc track network)
  write_video_frame-SentTile t tile quality pc pc' track network p frame bound polled some_bytes
        fits =
      let (p', packets, sent, same, kept) =
        write_video_frame-fragments t tile quality pc pc' track network p frame bound polled
          some_bytes fits in
      (p', packets, sent, rw same (video_fragments-Carries client (law.payloader_of p) frame), kept)

flatten-append : (xs ys : List Bytes) → flatten (xs ++ ys) ≡ flatten xs ++ flatten ys
unfolding flatten
flatten-append [] ys = refl
flatten-append (x ∷ xs) ys =
    ap (λ t. x ++ t) (flatten-append xs ys) ∙ sym (append_assoc x (flatten xs) (flatten ys))

flatten-cons : (x : Bytes) (xs : List Bytes) → flatten (x ∷ xs) ≡ x ++ flatten xs
unfolding flatten
flatten-cons x xs = refl

module _ (client : ℕ) (lib : RtpLibrary AudioPayloader)
    (law : PacketizerLaw lib (payload_audio client)) where
  write_packets-append :
      (ps qs : List lib.Packet) (network : lib.Network)
      → write_packets lib (ps ++ qs) network ≡ write_packets lib qs (write_packets lib ps network)
  unfolding write_packets
  write_packets-append [] qs network = refl
  write_packets-append (p ∷ ps) qs network = write_packets-append ps qs (lib.write_rtp network p)

  abbrev count_of : lib.Packetizer → ℕ
  count_of p = (law.payloader_of p).frame_counter

  -- Some packets of a track hold these bytes in order, and the frames were counted modulo 2^32.
  abbrev pub SentAudio :
      lib.Packetizer
      → List Bytes
      → TrackLocalRtp lib
      → lib.Network
      → Option (TrackLocalRtp lib × lib.Network)
      → Type 0
  SentAudio p frames track network result =
      (p' : lib.Packetizer) × (packets : List lib.Packet) × (result
        ≡ some (record track { packetizer = some p' }, write_packets lib packets network))
      × (flatten (map (drop 20) (map lib.payload packets)) ≡ flatten frames)
      × (count_of p' ≡ u32 (count_of p + length frames))

  write_one :
      (frame : Bytes) (track : TrackLocalRtp lib) (network : lib.Network) (p : lib.Packetizer)
      → track.packetizer ≡ some p
      → IsFrame frame
      → (p' : lib.Packetizer) × (packets : List lib.Packet) × (write_audio_frame lib
            (some frame)
            track
            network
          ≡ some (record track { packetizer = some p' }, write_packets lib packets network))
        × (flatten (map (drop 20) (map lib.payload packets)) ≡ frame)
        × (count_of p' ≡ u32 (count_of p + 1))
  unfolding write_audio_frame write_data
  write_one frame track network p bound h =
      let s = law.payloader_of p in
      let (p', packets, sent, kept, same) =
        law.packetized p frame track.clock_rate _ (audio_fragments client s frame) h.0
          (payload_audio-fragments client s frame h.1) in
      (
        p',
        packets,
        rw (bound, sent) refl,
        rw same (audio_fragments-Carries client s frame).0,
        ap (λ x. x.frame_counter) kept,
      )

  -- Let the packetizer make one packet of each fragment of its payloader. For a bound audio track
  -- whose frame counter is below 2^32 and frames of at least one and fewer than 2^32 bytes, the
  -- loop over the frames ends without a panic. Behind their 20-byte headers the packets that it
  -- writes join to the frames in order, and the frame counter has advanced by their number, modulo
  -- 2^32.
  pub write_frames-SentAudio :
      (frames : List Bytes) (track : TrackLocalRtp lib) (network : lib.Network) (p : lib.Packetizer)
      → track.packetizer ≡ some p
      → count_of p < 2 ^ 32
      → All IsFrame frames
      → SentAudio p frames track network (write_frames lib frames track network)
  unfolding write_frames write_packets
  write_frames-SentAudio [] track network p bound small h =
      (p, [], ap (λ o. some (record track { packetizer = o }, network)) bound, refl, omega arith)
  write_frames-SentAudio (frame ∷ frames) track network p bound small (h, hs) =
      let (p1, ps, sent, body, counted) = write_one frame track network p bound h in
      let track1 : TrackLocalRtp lib = record track { packetizer = some p1 } in
      let (p2, qs, later, bodies2, counted2) =
        write_frames-SentAudio frames track1 (write_packets lib ps network) p1 refl (omega arith)
          hs in
      (
        p2,
        ps ++ qs,
        rw (sent, later, write_packets-append ps qs network) refl,
        rw
            (
              map-append lib.payload ps qs,
              map-append (drop 20) (map lib.payload ps) (map lib.payload qs),
              flatten-cons,
            )
            (flatten-append (map (drop 20) (map lib.payload ps))
                (map (drop 20) (map lib.payload qs))
              ∙ ap₂ ◌++◌ body bodies2),
        omega arith,
      )

-- ===== src/Peer/Media.antt =====
-- peer/main.go: the two kinds of outgoing tracks, `TrackLocalCloudRTP` and `TrackLocalAudioRTP`. They
-- differ in the payloader that `Bind` gives to the packetizer, so the payloader's type is a parameter.
pub mod Frames
mod Examples
pub mod Plain
use web_rtcsfu.Base.{
  ℕ, zero, suc, Bool, true, false, Option, none, some, List, [], ◌∷◌, ◌>>=◌, replicate,
  if◌then◌else◌,
}
use web_rtcsfu.Base.Bytes.{Bytes}
use web_rtcsfu.Peer.Packet.{
  PointCloudPayloader, AudioPayloader, new_point_cloud_payloader, new_audio_payloader,
}
use web_rtcsfu.Peer.Proxy.Types.{ProxyConnection}
use web_rtcsfu.Peer.Transcoder.{Transcoder, Encoded, encoded, blocked, encode_frame}

abbrev pub rtp_packetizer_mtu : ℕ
rtp_packetizer_mtu = 1200

-- The calls of pion/rtp and pion/webrtc, for payloaders of type `S`. `Network` is the state behind the
-- tracks that are written to; the error of `WriteRTP` is only logged.
pub record RtpLibrary (S : Type 0) : Type 1 where
  pub Packetizer : Type 0
  pub Packet : Type 0
  pub Network : Type 0
  pub new_packetizer : ℕ → S → ℕ → Packetizer
  pub packetize : Packetizer → Bytes → ℕ → Option (Packetizer × List Packet)
  pub payload : Packet → Bytes
  pub bind : Network → Option (ℕ × Network)
  pub write_rtp : Network → Packet → Network

module _ {S : Type 0} (lib : RtpLibrary S) where
  open lib use {Packetizer, Packet, Network, new_packetizer, packetize, bind, write_rtp}

  -- `TrackLocalCloudRTP` and `TrackLocalAudioRTP`; `payloader` is made of the tile and the quality.
  pub record TrackLocalRtp : Type 0 where
    pub packetizer : Option Packetizer
    pub clock_rate : ℕ
    pub payloader : S

  pub new_track_local : S → TrackLocalRtp
  new_track_local payloader = record { packetizer = none; clock_rate = 0; payloader = payloader }

  -- Behind the bound codec: a packetizer is made once.
  with_packetizer : ℕ → TrackLocalRtp → TrackLocalRtp
  with_packetizer clock_rate track = elim track.packetizer [
    | some p ↦ track
    | none ↦ record track {
      packetizer = some (new_packetizer rtp_packetizer_mtu track.payloader clock_rate);
      clock_rate = clock_rate;
    }
  ]

  -- `Bind`: an error of the track leaves all as it is.
  pub bind_track : Network → TrackLocalRtp → TrackLocalRtp × Network
  unfolding with_packetizer
  bind_track network track = elim (bind network) [
    | none ↦ (track, network)
    | some bound ↦ (with_packetizer (bound.0) track, bound.1)
  ]

  -- `for _, p := range packets`
  pub write_packets : List Packet → Network → Network
  write_packets [] network = network
  write_packets (p ∷ ps) network = write_packets ps (write_rtp network p)

  -- The frame through the packetizer. `none` is a panic of the payloader.
  write_data : Packetizer → Bytes → TrackLocalRtp → Network → Option (TrackLocalRtp × Network)
  write_data p frame track network = do
    (p', packets) ← packetize p frame track.clock_rate
    some (record track { packetizer = some p' }, write_packets packets network)

  -- `WriteAudioFrame`; a nil frame is `none`.
  pub write_audio_frame : Option Bytes → TrackLocalRtp → Network → Option (TrackLocalRtp × Network)
  write_audio_frame none track network = some (track, network)
  write_audio_frame (some frame) track network = elim track.packetizer [
    | none ↦ some (track, network)
    | some p ↦ write_data p frame track network
  ]

  -- What a call of `WriteVideoFrame` comes to.
  pub data Written : Type 0 where
    written : TrackLocalRtp → Network → ProxyConnection → Written
    waiting : Written

  -- A nil frame sends nothing, and a call that waits for the DLL has sent nothing yet.
  write_encoded : Packetizer → TrackLocalRtp → Network → Encoded → Option Written
  write_encoded p track network blocked = some waiting
  write_encoded p track network (encoded pc none) = some (written track network pc)
  write_encoded p track network (encoded pc (some frame)) =
      write_data p frame track network >>= λ sent. some (written sent.0 sent.1 pc)

  -- `WriteVideoFrame`, with the 5000 bytes that it sends when debugging.
  pub write_video_frame :
      Bool → Transcoder → ℕ → ℕ → ProxyConnection → TrackLocalRtp → Network → Option Written
  unfolding write_encoded
  write_video_frame enable_debug t tile quality pc track network = elim track.packetizer [
    | none ↦ some (written track network pc)
    | some p ↦
        (if enable_debug
          then some (encoded pc (some (replicate 5000 0)))
          else encode_frame t pc tile quality)
        >>= λ frame. write_encoded p track network frame
  ]

  -- The frames of a track, one after another.
  pub write_frames : List Bytes → TrackLocalRtp → Network → Option (TrackLocalRtp × Network)
  write_frames [] track network = some (track, network)
  write_frames (frame ∷ frames) track network =
      write_audio_frame (some frame) track network >>= λ sent. write_frames frames sent.0 sent.1

-- The payloaders of the two kinds.
pub new_track_local_cloud_rtp : (lib : RtpLibrary PointCloudPayloader) → ℕ → ℕ → TrackLocalRtp lib
new_track_local_cloud_rtp lib tile_nr quality =
    new_track_local lib (new_point_cloud_payloader tile_nr quality)

pub new_track_local_audio_rtp : (lib : RtpLibrary AudioPayloader) → TrackLocalRtp lib
new_track_local_audio_rtp lib = new_track_local lib new_audio_payloader

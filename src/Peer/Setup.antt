-- ===== src/Peer/Setup.antt =====
-- peer/main.go, `main`: the engine and the peer connection of a client, with its tracks. `none` is a
-- panic.
pub mod Senders
use web_rtcsfu.Base.{ℕ, ◌*◌, Bool, Option, none, some, List, [], ◌∷◌, ◌>>=◌}
use web_rtcsfu.Base.Bytes.{Bytes, codes}
use web_rtcsfu.Base.Text.{ℤ, pos, format_uint}
use web_rtcsfu.Engine.{
  RtcpFeedback, CodecCapability, audio, video, Settings, Engine, video_feedback, nack, stun_server,
}
use web_rtcsfu.Peer.Client.{has_prefix}
use web_rtcsfu.Peer.Start.{rounds}
use web_rtcsfu.Peer.Tracks.{TrackArguments, audio_track_id, video_tracks}

-- `VirtualWallFilter`, on the text of an address.
pub virtual_wall_filter : Bytes → Bool
virtual_wall_filter addr = has_prefix addr (codes "10.8.")

abbrev pub settings : Settings
settings = record {
  sctp_max_receive_buffer_size = 16 * 1024 * 1024;
  ip_prefix = some (codes "10.8.");
  udp_ports = none;
}

abbrev pub codec_capability : CodecCapability
codec_capability = record {
  mime_type = codes "video/pcm";
  clock_rate = 90000;
  channels = 0;
  sdp_fmtp_line = [];
  feedback = video_feedback;
}

abbrev pub audio_codec_capability : CodecCapability
audio_codec_capability = record {
  mime_type = codes "audio/pcm";
  clock_rate = 90000;
  channels = 0;
  sdp_fmtp_line = [];
  feedback = [];
}

module _ (engine : Engine) where
  open engine use {
    Setup, Connection, empty, transport_cc, transport_cc_uri, register_default_codecs,
    register_codec, register_feedback, register_header_extension, configure_twcc_sender,
    add_twcc_generator, new_peer_connection, add_track,
  }

  -- From the empty MediaEngine to the interceptor that sends every 10 ms.
  pub set_up : Option Setup
  set_up = do
    m ← register_default_codecs empty
    m ← register_codec codec_capability 5 video m
    m ← register_codec audio_codec_capability 6 audio m
    let m' = register_feedback nack video m
    m ← configure_twcc_sender m'
    let m' = register_feedback (record { kind = transport_cc; parameter = [] }) video m
    m ← register_header_extension transport_cc_uri video m'
    add_twcc_generator 10 m

  -- `NewTrackLocalCloudRTP` and `AddTrack`, for each tile and quality.
  add_tracks : List TrackArguments → Connection → Option Connection
  add_tracks [] c = some c
  add_tracks (a ∷ rest) c =
      add_track (record codec_capability { feedback = [] }) a.id a.stream_id c >>= λ added.
      add_tracks rest added

  unfoldable pub connect : ℤ → ℤ → ℤ → Option Connection
  unfolding set_up add_tracks
  connect client_id n_tiles n_qualities = do
    m ← set_up
    c ← new_peer_connection settings (stun_server ∷ []) m
    c ← add_track audio_codec_capability (audio_track_id client_id) (format_uint 99) c
    add_tracks (video_tracks client_id (rounds n_tiles) (rounds n_qualities)) c

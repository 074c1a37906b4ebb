-- ===== src/Engine.antt =====
-- The calls of github.com/pion/webrtc and its interceptors with which both programs set their peer
-- connections up. `Setup` is a MediaEngine with an interceptor.Registry.
use web_rtcsfu.Base.{ℕ, Option, List, [], ◌∷◌}
use web_rtcsfu.Base.Bytes.{Bytes, codes}

pub record RtcpFeedback : Type 0 where
  pub kind : Bytes
  pub parameter : Bytes

pub record CodecCapability : Type 0 where
  pub mime_type : Bytes
  pub clock_rate : ℕ
  pub channels : ℕ
  pub sdp_fmtp_line : Bytes
  pub feedback : List RtcpFeedback

pub data CodecKind : Type 0 where
  audio : CodecKind
  video : CodecKind

-- What the programs set of a SettingEngine: the prefix of the addresses that an IP filter lets
-- through, and the range of UDP ports.
pub record Settings : Type 0 where
  pub sctp_max_receive_buffer_size : ℕ
  pub ip_prefix : Option Bytes
  pub udp_ports : Option (ℕ × ℕ)

-- A call that returns an error is `none`.
pub record Engine : Type 1 where
  pub Setup : Type 0
  pub Connection : Type 0
  pub empty : Setup
  pub transport_cc : Bytes
  pub transport_cc_uri : Bytes
  pub register_default_codecs : Setup → Option Setup
  pub register_codec : CodecCapability → ℕ → CodecKind → Setup → Option Setup
  pub register_feedback : RtcpFeedback → CodecKind → Setup → Setup
  pub register_header_extension : Bytes → CodecKind → Setup → Option Setup
  pub configure_twcc_sender : Setup → Option Setup
  pub register_default_interceptors : Setup → Option Setup
  pub add_twcc_generator : ℕ → Setup → Option Setup
  pub add_track_merger : Setup → Setup
  pub new_peer_connection : Settings → List Bytes → Setup → Option Connection
  pub add_transceiver : CodecKind → Connection → Option Connection
  pub add_track : CodecCapability → Bytes → Bytes → Connection → Option Connection

-- The feedback that both programs ask for, and the codecs that both register.
abbrev pub video_feedback : List RtcpFeedback
video_feedback =
    record { kind = codes "goog-remb"; parameter = [] }
    ∷ record { kind = codes "ccm"; parameter = codes "fir" }
    ∷ record { kind = codes "nack"; parameter = [] }
    ∷ record { kind = codes "nack"; parameter = codes "pli" }
    ∷ []

abbrev pub nack : RtcpFeedback
nack = record { kind = codes "nack"; parameter = [] }

abbrev pub stun_server : Bytes
stun_server = codes "stun:stun.l.google.com:19302"

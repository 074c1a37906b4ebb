-- ===== src/Sfu/Setup.antt =====
-- sfu/main.go: the range of UDP ports that `main` sets, and the engine and the peer connection that the
-- websocket handler makes for a client, up to its transceivers.
pub mod Transceivers
pub mod Ports
mod Examples
use web_rtcsfu.Base.{
  ℕ, zero, suc, ◌+◌, ◌-◌, ◌*◌, ◌%◌, ◌^◌, Bool, Option, none, some, List, [], ◌∷◌, ◌>>=◌, ltb,
  length, ◌==◌, nat_eq, if◌then◌else◌, get_elem?,
}
use web_rtcsfu.Base.Bytes.{Bytes, codes}
use web_rtcsfu.Base.Text.{ℤ, split, atoi, to_bits, from_bits}
use web_rtcsfu.Engine.{
  RtcpFeedback, CodecCapability, CodecKind, audio, video, Settings, Engine, video_feedback, nack,
  stun_server,
}
use web_rtcsfu.Peer.Client.{has_prefix}
use web_rtcsfu.Sfu.Signal.{rounds}
use web_rtcsfu.Sfu.Socket.{Query}

-- `VirtualWallFilter`, on the text of an address. It is not used.
pub virtual_wall_filter : Bytes → Bool
virtual_wall_filter addr = has_prefix addr (codes "193.190")

-- `uint16(i)`
pub u16 : ℤ → ℕ
unfolding to_bits
u16 i = to_bits i % 2 ^ 16

-- The flag `-p`: two numbers with a colon in between, or nothing is set.
read_ports : List Bytes → Option (ℕ × ℕ)
unfolding u16
read_ports (low ∷ (high ∷ [])) = do
  min_port ← atoi low
  max_port ← atoi high
  some (u16 min_port, u16 max_port)
read_ports _ = none

pub settings : Bytes → Settings
unfolding read_ports
settings port_range = record {
  sctp_max_receive_buffer_size = 16 * 1024 * 1024;
  ip_prefix = none;
  udp_ports = read_ports (split port_range b':');
}

abbrev pub video_codec_capability : CodecCapability
video_codec_capability = record {
  mime_type = codes "video/pcm";
  clock_rate = 90000;
  channels = 0;
  sdp_fmtp_line = [];
  feedback = video_feedback;
}

abbrev pub audio_codec_capability : CodecCapability
audio_codec_capability = record {
  mime_type = codes "audio/pcm";
  clock_rate = 90000;
  channels = 0;
  sdp_fmtp_line = [];
  feedback = [];
}

-- The product of two ints.
pub mul_int : ℤ → ℤ → ℤ
unfolding from_bits to_bits
mul_int a b = from_bits (to_bits a * to_bits b % 2 ^ 64)

module _ (engine : Engine) where
  open engine use {
    Setup, Connection, empty, transport_cc, transport_cc_uri, register_default_codecs,
    register_codec, register_feedback, register_header_extension, configure_twcc_sender,
    register_default_interceptors, add_track_merger, new_peer_connection, add_transceiver,
  }

  pub set_up : Option Setup
  set_up = do
    m ← register_default_codecs empty
    m ← register_codec video_codec_capability 5 video m
    m ← register_codec audio_codec_capability 6 audio m
    let m' = register_feedback nack video m
    let m'' = register_feedback (record { kind = transport_cc; parameter = [] }) video m'
    m ← register_header_extension transport_cc_uri video m''
    let m' = add_track_merger m
    m ← configure_twcc_sender m'
    register_default_interceptors m

  -- How the set-up ends: with a panic, with an early return, or with the connection.
  pub data Prepared : Type 0 where
    panics : Prepared
    returns : Prepared
    prepared : Connection → Prepared

  -- `for i := 0; i < numberOfTiles*numberOfQualities; i++`
  pub add_transceivers : ℕ → Connection → Option Connection
  add_transceivers zero c = some c
  add_transceivers (suc left) c = add_transceiver video c >>= λ added. add_transceivers left added

  -- The transceivers of a client; an error returns from the handler.
  pub receive_only : Query → Connection → Option Connection
  receive_only q c = do
    c ← add_transceiver audio c
    add_transceivers (rounds (mul_int q.number_of_tiles q.number_of_qualities)) c

  returned : Option Connection → Prepared
  returned none = returns
  returned (some c) = prepared c

  -- The servers of `webrtcConfig`.
  ice_servers : Bool → List Bytes
  ice_servers use_stun = if use_stun then stun_server ∷ [] else []

  pub prepare : Settings → Bool → Query → Prepared
  unfolding returned ice_servers
  prepare setting_engine use_stun q =
      elim (set_up >>= λ m. new_peer_connection setting_engine (ice_servers use_stun) m) [
        | none ↦ panics
        | some c ↦ returned (receive_only q c)
      ]

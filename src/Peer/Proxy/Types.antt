-- ===== src/Peer/Proxy/Types.antt =====
-- The data of peer/proxy_connection.go.
use web_rtcsfu.Base.{ℕ, List, Bool, true, ◌&&◌, ◌≡◌, ◌↔◌, Eq, arith, nat_beq}
use web_rtcsfu.Base.Bytes.{Bytes}
use web_rtcsfu.Base.Map.{Map}

abbrev pub ready_packet_type : ℕ
ready_packet_type = 0

abbrev pub tile_packet_type : ℕ
tile_packet_type = 1

abbrev pub audio_packet_type : ℕ
audio_packet_type = 2

abbrev pub control_packet_type : ℕ
control_packet_type = 3

-- Every field is a uint32.
pub record VideoPacketHeader : Type 0 where
  pub client_nr : ℕ
  pub frame_nr : ℕ
  pub frame_len : ℕ
  pub frame_offset : ℕ
  pub packet_len : ℕ
  pub tile_nr : ℕ
  pub quality : ℕ

pub record AudioPacketHeader : Type 0 where
  pub client_nr : ℕ
  pub frame_nr : ℕ
  pub frame_len : ℕ
  pub frame_offset : ℕ
  pub packet_len : ℕ

pub record VideoKey : Type 0 where
  pub tile_nr : ℕ
  pub quality : ℕ

abbrev pub video_key : VideoPacketHeader → VideoKey
video_key p = record { tile_nr = p.tile_nr; quality = p.quality }

abbrev pub key_beq : VideoKey → VideoKey → Bool
key_beq a b = nat_beq a.tile_nr b.tile_nr && nat_beq a.quality b.quality

pub key_beq_iff : (a b : VideoKey) → (key_beq a b ≡ true) ↔ (a ≡ b)
key_beq_iff a b = ground arith

instance abbrev pub key_eq : Eq VideoKey
key_eq = record { beq = key_beq; beq_iff = key_beq_iff }

pub record RemoteTile : Type 0 where
  pub frame_nr : ℕ  -- uint32
  pub current_len : ℕ  -- uint32
  pub file_len : ℕ  -- uint32
  pub file_data : Bytes

-- The sockets and mutexes are left out. `cond_video` has the keys whose condition variable
-- `StartListening` made; `ws_handler` says whether the handler has been set.
pub record ProxyConnection : Type 0 where
  pub incomplete_tiles : Map VideoKey (Map ℕ RemoteTile)
  pub complete_tiles : Map VideoKey (List RemoteTile)
  pub incomplete_audio_frames : Map ℕ RemoteTile
  pub complete_audio_frames : List RemoteTile
  pub cond_video : Map VideoKey (Unit {0})
  pub cond_audio : Bool
  pub ws_handler : Bool

-- What a datagram sets off outside: a broadcast, or a quality decision sent on to the SFU.
pub data Effect : Type 0 where
  wake_video : VideoKey → Effect
  wake_audio : Effect
  forward : Bytes → Effect

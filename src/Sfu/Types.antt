-- ===== src/Sfu/Types.antt =====
-- The data of sfu/main.go, and the interface of the WebRTC library (github.com/pion/webrtc).
use web_rtcsfu.Base.{ℕ, Bool, Option, List, Eq, ◌≡◌, ◌↔◌, true, ◌++◌, ◌∷◌, arith}
use web_rtcsfu.Base.Bytes.{Bytes, codes}
use web_rtcsfu.Base.Map.{Map}
use web_rtcsfu.Base.Text.{ℤ, pos, negsuc, ℤ_beq, format_int}

pub ℤ_beq_iff : (a b : ℤ) → (ℤ_beq a b ≡ true) ↔ (a ≡ b)
ℤ_beq_iff (pos a) (pos b) = ground arith
ℤ_beq_iff (pos a) (negsuc b) = ground arith
ℤ_beq_iff (negsuc a) (pos b) = ground arith
ℤ_beq_iff (negsuc a) (negsuc b) = ground arith

instance abbrev pub ℤ_eq : Eq ℤ
ℤ_eq = record { beq = ℤ_beq; beq_iff = ℤ_beq_iff }

-- `*webrtc.TrackLocalStaticRTP`: `handle` tells two tracks of one ID apart.
pub record TrackLocal : Type 0 where
  pub handle : ℕ
  pub id : Bytes
  pub stream_id : Bytes

-- `peerConnectionState`. `connection` and the senders are handles of the library; the ID names the
-- websocket as well.
pub record Peer : Type 0 where
  pub connection : ℕ
  pub id : ℕ
  pub track_rtp_senders : Map Bytes ℕ
  pub quality_decisions : Map Bytes ℤ
  pub pending_candidates : List Bytes
  pub client_id : ℤ
  pub number_of_tiles : ℤ

-- The global maps and the list of peers.
pub record Sfu : Type 0 where
  pub track_locals : Map Bytes TrackLocal
  pub track_qualities : Map Bytes (Map ℤ TrackLocal)
  pub peer_connections : List Peer

-- The calls of the library, over the state `Rtc` of its objects. A call that returns an error is
-- `none`, or `false`; a nil track is `none`.
pub record Library : Type 1 where
  pub Rtc : Type 0
  pub is_closed : Rtc → ℕ → Bool
  pub get_senders : Rtc → ℕ → List ℕ
  pub sender_track : Rtc → ℕ → Option TrackLocal
  pub get_receivers : Rtc → ℕ → List (Option Bytes)
  pub add_track : Rtc → ℕ → Option TrackLocal → Option (ℕ × Rtc)
  pub remove_track : Rtc → ℕ → ℕ → Bool × Rtc
  pub replace_track : Rtc → ℕ → Option TrackLocal → Rtc
  pub create_offer : Rtc → ℕ → Option (Bytes × Rtc)
  pub set_local_description : Rtc → ℕ → Bytes → Bool × Rtc
  pub marshal : Bytes → Option Bytes
  pub unmarshal : Bytes → Option Bytes
  pub new_track : Rtc → Bytes → Bytes → Option (TrackLocal × Rtc)
  pub has_remote_description : Rtc → ℕ → Bool
  pub set_remote_description : Rtc → ℕ → Bytes → Option Rtc
  pub add_candidate : Rtc → ℕ → Bytes → Option Rtc

-- The IDs that clients and the unit give to tracks.
unfoldable pub audio_id : ℤ → Bytes
audio_id client_id = codes "audio_" ++ format_int client_id

unfoldable pub video_id : ℤ → ℤ → Bytes
video_id client_id tile_id = codes "video_" ++ format_int client_id ++ b'_' ∷ format_int tile_id

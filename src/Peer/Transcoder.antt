-- ===== src/Peer/Transcoder.antt =====
-- peer/transcoder.go: where a video track gets its frames from. The connection that `EncodeFrame` reads
-- is the global one, so it is an argument here.
use web_rtcsfu.Base.{ℕ, Bool, true, Option, none, some, ◌>>=◌}
use web_rtcsfu.Base.Bytes.{Bytes}
use web_rtcsfu.Peer.Proxy.Types.{ProxyConnection}
use web_rtcsfu.Peer.Proxy.Consumers.{Poll, ready, waits, next_tile}

pub record TranscoderRemote : Type 0 where
  pub frame_counter : ℕ  -- uint32
  pub is_ready : Bool

pub new_transcoder_remote : TranscoderRemote
new_transcoder_remote = record { frame_counter = 0; is_ready = true }

pub record TranscoderDummy : Type 0 where
  pub frame_counter : ℕ  -- uint32
  pub is_ready : Bool

pub new_transcoder_dummy : TranscoderDummy
new_transcoder_dummy = record { frame_counter = 0; is_ready = true }

-- The interface `Transcoder`, by the types that implement it.
pub data Transcoder : Type 0 where
  remote : TranscoderRemote → Transcoder
  dummy : TranscoderDummy → Transcoder

pub update_bitrate : ℕ → Transcoder → Transcoder
update_bitrate bitrate t = t

pub update_projection : Transcoder → Transcoder
update_projection t = t

-- A frame, or nil; or the call waits for the DLL.
pub data Encoded : Type 0 where
  encoded : ProxyConnection → Option Bytes → Encoded
  blocked : Encoded

abbrev pub encoded_poll : Poll → Encoded
encoded_poll (ready pc bytes) = encoded pc (some bytes)
encoded_poll waits = blocked

-- `EncodeFrame`; `none` is a panic in `NextTile`.
unfoldable pub encode_frame : Transcoder → ProxyConnection → ℕ → ℕ → Option Encoded
encode_frame (remote t) pc tile quality =
    next_tile pc (record { tile_nr = tile; quality = quality }) >>= λ poll. some (encoded_poll poll)
encode_frame (dummy t) pc tile quality = some (encoded pc none)

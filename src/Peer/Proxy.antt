-- ===== src/Peer/Proxy.antt =====
-- peer/proxy_connection.go: the datagrams that the DLL sends, the frames that they make up, and
-- the two calls that wait for a frame. A datagram is handled under the mutex of its kind, so it is
-- one step. `none` is a panic of the receiving goroutine.
pub mod Types
pub mod Reassembly
pub mod Store
pub mod Delivery
pub mod Send
pub mod Consumers
pub mod AnyOrder
pub mod Audio
pub mod Waiting
pub mod Interleaved
pub mod Address
pub mod Connecting
mod Examples
use web_rtcsfu.Base.{
  ℕ, ◌+◌, Option, none, some, ◌>>=◌, List, [], ◌∷◌, ◌++◌, drop, replicate, if◌then◌else◌, Bool,
  false, true, suc, zero, ◌==◌, nat_eq,
}
use web_rtcsfu.Base.Bytes.{Bytes, u32, copy, slice, uint32}
use web_rtcsfu.Base.Map.{Map, lookup, insert, remove}
use web_rtcsfu.Peer.Packet.{
  type_header_size, video_header_size, audio_header_size, udp_buffer_length,
}
use Types.{
  VideoKey, key_eq, video_key, VideoPacketHeader, AudioPacketHeader, RemoteTile, ProxyConnection,
  Effect, wake_video, wake_audio, forward, tile_packet_type, audio_packet_type, control_packet_type,
}

-- `NewProxyConnection`
unfoldable pub new_proxy_connection : ProxyConnection
new_proxy_connection = record {
  incomplete_tiles = [];
  complete_tiles = [];
  incomplete_audio_frames = [];
  complete_audio_frames = [];
  cond_video = [];
  cond_audio = false;
  ws_handler = false;
}

-- The loops of `StartListening` that make a condition variable for each tile and quality.
unfoldable pub register_qualities : ℕ → ℕ → ℕ → Map VideoKey (Unit {0}) → Map VideoKey (Unit {0})
register_qualities tile zero q conds = conds
register_qualities tile (suc left) q conds =
    register_qualities tile left (q + 1)
      (insert (record { tile_nr = u32 tile; quality = u32 q }) tt conds)

unfoldable pub register_tiles : ℕ → ℕ → ℕ → Map VideoKey (Unit {0}) → Map VideoKey (Unit {0})
unfolding register_qualities
register_tiles n_qualities zero t conds = conds
register_tiles n_qualities (suc left) t conds =
    register_tiles n_qualities left (t + 1) (register_qualities t n_qualities 0 conds)

unfoldable pub start_listening : ProxyConnection → ℕ → ℕ → ProxyConnection
unfolding register_tiles
start_listening pc n_tiles n_qualities = record pc {
  cond_video = register_tiles n_qualities n_tiles 0 pc.cond_video;
  cond_audio = true;
}

-- `binary.Read` of the two header structs.
pub read_video_header : Bytes → Option VideoPacketHeader
read_video_header s = do
  client_nr ← uint32 s
  frame_nr ← uint32 (drop 4 s)
  frame_len ← uint32 (drop 8 s)
  frame_offset ← uint32 (drop 12 s)
  packet_len ← uint32 (drop 16 s)
  tile_nr ← uint32 (drop 20 s)
  quality ← uint32 (drop 24 s)
  some (record {
    client_nr = client_nr;
    frame_nr = frame_nr;
    frame_len = frame_len;
    frame_offset = frame_offset;
    packet_len = packet_len;
    tile_nr = tile_nr;
    quality = quality;
  })

pub read_audio_header : Bytes → Option AudioPacketHeader
read_audio_header s = do
  client_nr ← uint32 s
  frame_nr ← uint32 (drop 4 s)
  frame_len ← uint32 (drop 8 s)
  frame_offset ← uint32 (drop 12 s)
  packet_len ← uint32 (drop 16 s)
  some (record {
    client_nr = client_nr;
    frame_nr = frame_nr;
    frame_len = frame_len;
    frame_offset = frame_offset;
    packet_len = packet_len;
  })

-- The entry of a frame whose first packet has arrived: `make([]byte, p.FrameLen)`.
pub new_tile : ℕ → ℕ → RemoteTile
new_tile frame_nr frame_len = record {
  frame_nr = frame_nr;
  current_len = 0;
  file_len = frame_len;
  file_data = replicate frame_len 0;
}

-- `m[k]` where a missing key has been filled in before.
abbrev pub found_or {ℓ} : {A : Type ℓ} → Option A → A → A
found_or none a = a
found_or (some b) a = b

-- Both slice expressions of the `copy`, and the new length; `behind` is where the data starts.
pub absorb : ℕ → RemoteTile → ℕ → ℕ → Bytes → Option RemoteTile
absorb behind value frame_offset packet_len buffer = do
  room ← slice frame_offset (u32 (frame_offset + packet_len)) value.file_data
  part ← slice behind (u32 (behind + packet_len)) buffer
  some (record value {
    current_len = u32 (value.current_len + packet_len);
    file_data = copy frame_offset part value.file_data;
  })

-- `s[0] = value` of a slice that is there, and of a fresh one of length 1.
abbrev pub set_first : Option (List RemoteTile) → RemoteTile → Option (List RemoteTile)
set_first none value = some (value ∷ [])
set_first (some []) value = none
set_first (some (r ∷ rs)) value = some (value ∷ rs)

-- A frame is complete: keep it as the newest of its key, forget its entry, and wake who waits. A
-- key with no condition variable is a nil pointer.
pub finish_tile :
    ProxyConnection
    → VideoKey
    → ℕ
    → Map ℕ RemoteTile
    → RemoteTile
    → Option (ProxyConnection × List Effect)
finish_tile pc key frame_nr frames value = do
  slot ← set_first (lookup key pc.complete_tiles) value
  cond ← lookup key pc.cond_video
  some (
    record pc {
      incomplete_tiles = insert key (remove frame_nr frames) pc.incomplete_tiles;
      complete_tiles = insert key slot pc.complete_tiles;
    },
    wake_video key ∷ [],
  )

-- The branch for a tile packet.
pub store_tile :
    ProxyConnection → VideoPacketHeader → Bytes → Option (ProxyConnection × List Effect)
store_tile pc p buffer = do
  let key = video_key p
  let frames = found_or (lookup key pc.incomplete_tiles) []
  let value = found_or (lookup p.frame_nr frames) (new_tile p.frame_nr p.frame_len)
  value' ← absorb (type_header_size + video_header_size) value p.frame_offset p.packet_len buffer
  let frames' = insert p.frame_nr value' frames
  let pc' = record pc { incomplete_tiles = insert key frames' pc.incomplete_tiles }
  if value'.current_len == value'.file_len
      then finish_tile pc' key p.frame_nr frames' value'
      else some (pc', [])

-- The branch for an audio packet. `complete_audio_frames` has one element at most.
pub finish_audio : ProxyConnection → ℕ → RemoteTile → Option (ProxyConnection × List Effect)
finish_audio pc frame_nr value =
    let pc' = record pc {
      incomplete_audio_frames = remove frame_nr pc.incomplete_audio_frames;
      complete_audio_frames = elim pc.complete_audio_frames [
        | [] ↦ value ∷ []
        | r ∷ rs ↦ value ∷ rs
      ];
    } in
    if pc.cond_audio then some (pc', wake_audio ∷ []) else none

pub store_audio :
    ProxyConnection → AudioPacketHeader → Bytes → Option (ProxyConnection × List Effect)
store_audio pc p buffer = do
  let value =
      found_or (lookup p.frame_nr pc.incomplete_audio_frames) (new_tile p.frame_nr p.frame_len)
  value' ← absorb (type_header_size + audio_header_size) value p.frame_offset p.packet_len buffer
  let pc' = record pc {
    incomplete_audio_frames = insert p.frame_nr value' pc.incomplete_audio_frames;
  }
  if value'.current_len == value'.file_len
      then finish_audio pc' p.frame_nr value'
      else some (pc', [])

-- One round of `StartListening`: the datagram is read into a fresh buffer of zeros.
unfoldable pub receive : ProxyConnection → Bytes → Option (ProxyConnection × List Effect)
receive pc datagram = do
  let buffer = copy 0 datagram (replicate udp_buffer_length 0)
  ptype ← uint32 buffer
  if ptype == tile_packet_type
      then (read_video_header (drop type_header_size buffer) >>= λ p. store_tile pc p buffer)
      else if ptype == audio_packet_type
      then (read_audio_header (drop type_header_size buffer) >>= λ p. store_audio pc p buffer)
      else if ptype == control_packet_type
      then some (pc, (if pc.ws_handler then forward (drop type_header_size buffer) ∷ [] else []))
      else some (pc, [])

-- The loop of `StartListening` over the datagrams that arrive, with all that they set off.
unfoldable pub receive_all : ProxyConnection → List Bytes → Option (ProxyConnection × List Effect)
receive_all pc [] = some (pc, [])
receive_all pc (d ∷ ds) =
    receive pc d >>= λ now. receive_all now.0 ds >>= λ later. some (later.0, now.1 ++ later.1)

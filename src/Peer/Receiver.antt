-- ===== src/Peer/Receiver.antt =====
-- peer/main.go: the loop that reads the packets of an incoming track (`OnTrack`). It passes each on to
-- the DLL if it is asked to, and counts the bytes of each frame. `none` is a panic; a read is the bytes
-- of a packet.
pub mod Buffer
pub mod Counting
pub mod Whole
mod Examples
use web_rtcsfu.Base.{
  ℕ, ◌+◌, ◌%◌, Bool, true, false, ◌&&◌, Option, none, some, List, [], ◌∷◌, ◌++◌, ◌>>=◌, ◌==◌,
  nat_eq, drop, replicate, if◌then◌else◌,
}
use web_rtcsfu.Base.Bytes.{Bytes, u32, copy, slice, uint32}
use web_rtcsfu.Base.Map.{Map, lookup, insert}
use web_rtcsfu.Peer.Packet.{
  buffer_length, web_rtc_header_size, video_header_size, web_rtc_payload_size, audio_header_size,
}
use web_rtcsfu.Peer.Proxy.Send.{send_tile_packet, send_audio_packet}

-- Every number is a uint32.
pub record FramePacketHeader : Type 0 where
  pub client_nr : ℕ
  pub frame_nr : ℕ
  pub frame_len : ℕ
  pub seq_offset : ℕ
  pub seq_len : ℕ

pub record VideoFramePacket : Type 0 where
  pub header : FramePacketHeader
  pub tile_nr : ℕ
  pub quality : ℕ
  pub content : Bytes

pub record AudioFramePacket : Type 0 where
  pub header : FramePacketHeader
  pub content : Bytes

-- `binary.Read` of the structs; `none` is its error on a slice that is too short.
pub read_header : Bytes → Option FramePacketHeader
read_header s = do
  client_nr ← uint32 s
  frame_nr ← uint32 (drop 4 s)
  frame_len ← uint32 (drop 8 s)
  seq_offset ← uint32 (drop 12 s)
  seq_len ← uint32 (drop 16 s)
  some (record {
    client_nr = client_nr;
    frame_nr = frame_nr;
    frame_len = frame_len;
    seq_offset = seq_offset;
    seq_len = seq_len;
  })

pub read_video_packet : Bytes → Option VideoFramePacket
read_video_packet s = do
  header ← read_header s
  tile_nr ← uint32 (drop 20 s)
  quality ← uint32 (drop 24 s)
  content ← slice video_header_size web_rtc_payload_size s
  some (record { header = header; tile_nr = tile_nr; quality = quality; content = content })

pub read_audio_packet : Bytes → Option AudioFramePacket
read_audio_packet s = do
  header ← read_header s
  content ← slice audio_header_size web_rtc_payload_size s
  some (record { header = header; content = content })

pub data Kind : Type 0 where
  video : Kind
  audio : Kind

-- The buffer that every packet is read into, and the bytes counted for each frame number.
pub record Receiver : Type 0 where
  pub buf : Bytes
  pub frames : Map ℕ ℕ  -- uint32 to uint32

unfoldable pub new_receiver : Receiver
new_receiver = record { buf = replicate buffer_length 0; frames = [] }

-- A datagram to the DLL, or the report of a frame that is complete, by its number and level.
pub data Event : Type 0 where
  passed_on : Bytes → Event
  received : ℕ → ℕ → Event

-- `frames[p.FrameNr]`, where a missing key reads as 0.
abbrev pub or_zero : Option ℕ → ℕ
or_zero none = 0
or_zero (some n) = n

unfoldable pub counted : Receiver → ℕ → ℕ
counted r frame_nr = or_zero (lookup frame_nr r.frames)

-- `frames[p.FrameNr] += p.SeqLen` and the tests behind it. A video frame whose number is a multiple of
-- 100 is set back to 0; an audio frame is not.
pub count_frame : Kind → FramePacketHeader → Receiver → Receiver × List Event
count_frame kind p r =
    let n = u32 (counted r p.frame_nr + p.seq_len) in
    let r' = record r { frames = insert p.frame_nr n r.frames } in
    if n == p.frame_len
    then if p.frame_nr % 100 == 0
      then (
        elim kind [ video ↦ record r' { frames = insert p.frame_nr 0 r'.frames } | audio ↦ r' ],
        received p.frame_nr 1 ∷ [],
      )
      else (r', received p.frame_nr 2 ∷ [])
    else (r', [])

-- What goes to the DLL.
pub pass_on : Bool → Kind → Bytes → Option (List Event)
pass_on false kind buf = some []
pass_on true video buf = send_tile_packet buf web_rtc_header_size >>= λ d. some (passed_on d ∷ [])
pass_on true audio buf = send_audio_packet buf web_rtc_header_size >>= λ d. some (passed_on d ∷ [])

-- The header of the packet in the buffer.
pub packet_header : Kind → Bytes → Option FramePacketHeader
packet_header video s = read_video_packet s >>= λ p. some p.header
packet_header audio s = read_audio_packet s >>= λ p. some p.header

-- One round of the loop.
pub receive_packet : Bool → Kind → Bytes → Receiver → Option (Receiver × List Event)
receive_packet use_proxy_output kind packet r = do
  let buf = copy 0 packet r.buf
  sent ← pass_on use_proxy_output kind buf
  header ← packet_header kind (drop web_rtc_header_size buf)
  let now = count_frame kind header (record r { buf = buf })
  some (now.0, sent ++ now.1)

-- The loop over the packets until the track ends.
pub receive_packets : Bool → Kind → List Bytes → Receiver → Option (Receiver × List Event)
receive_packets use_proxy_output kind [] r = some (r, [])
receive_packets use_proxy_output kind (packet ∷ packets) r =
    receive_packet use_proxy_output kind packet r >>= λ now.
    receive_packets use_proxy_output kind packets now.0 >>= λ later.
    some (later.0, now.1 ++ later.1)

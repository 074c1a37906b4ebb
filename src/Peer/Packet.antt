-- ===== src/Peer/Packet.antt =====
-- peer/packet.go: the constants, the packet structs, and the two payloaders that cut a frame into
-- fragments. `clientID` is the argument `client`; the argument `mtu` is ignored by the code.
pub mod Fragments
pub mod Layout
pub mod Payload
mod Examples
use web_rtcsfu.Base.{
  ℕ, ◌+◌, ◌-◌, ◌<◌, ◌≤◌, Option, some, ◌>>=◌, List, [], ◌∷◌, ◌++◌, arith, length, replicate, ltb,
  if◌then◌else◌, dec_lt, dite, lt_wf,
}
use web_rtcsfu.Base.Bytes.{Bytes, u32, copy, slice, put_uint32}
use mathlib.Core.WellFounded.{Acc}

abbrev pub type_header_size : ℕ
type_header_size = 4

abbrev pub web_rtc_header_size : ℕ
web_rtc_header_size = 20

abbrev pub web_rtc_payload_size : ℕ
web_rtc_payload_size = 1172

abbrev pub buffer_length : ℕ
buffer_length = 1220

abbrev pub udp_buffer_length : ℕ
udp_buffer_length = 1500

abbrev pub peer_ready_length : ℕ
peer_ready_length = 100

abbrev pub buffer_proxy_length : ℕ
buffer_proxy_length = 1300

abbrev pub video_header_size : ℕ
video_header_size = 28

abbrev pub video_payload_size : ℕ
video_payload_size = web_rtc_payload_size - video_header_size

abbrev pub audio_header_size : ℕ
audio_header_size = 20

abbrev pub audio_payload_size : ℕ
audio_payload_size = web_rtc_payload_size - audio_header_size

pub record PointCloudPayloader : Type 0 where
  pub frame_counter : ℕ  -- uint32
  pub tile : ℕ  -- uint32
  pub quality : ℕ  -- uint32

pub record AudioPayloader : Type 0 where
  pub frame_counter : ℕ  -- uint32

pub new_point_cloud_payloader : ℕ → ℕ → PointCloudPayloader
new_point_cloud_payloader tile quality = record {
  frame_counter = 0;
  tile = tile;
  quality = quality;
}

pub new_audio_payloader : AudioPayloader
new_audio_payloader = record { frame_counter = 0 }

-- `currentFragmentSize`, and why the loop ends: it is positive while something remains.
pub fragment_size : ℕ → ℕ → ℕ
fragment_size payload_size remaining =
    if ltb remaining payload_size then remaining else payload_size

pub remaining_shrinks :
    (payload_size remaining : ℕ)
    → 0 < payload_size
    → 0 < remaining
    → remaining - fragment_size payload_size remaining < remaining
unfolding fragment_size
remaining_shrinks payload_size remaining h k = ground arith

-- The loop of both `Payload` methods, which differ in the sizes and in the header that they write:
-- `write_header offset size buf` is `buf` after the calls of `PutUint32`.
module _ (header_size payload_size : ℕ) (positive : 0 < payload_size)
    (write_header : ℕ → ℕ → Bytes → Bytes) (payload : Bytes) where
  -- One round: the buffer that is appended to `payloads`.
  pub fragment : ℕ → ℕ → Option Bytes
  fragment offset size = do
    chunk ← slice offset (u32 (offset + size)) payload
    let buf = replicate (u32 (size + header_size)) 0
    some (copy header_size chunk (write_header offset size buf))

  -- `for payloadRemaining > 0`
  pub fragment_loop : (remaining : ℕ) → Acc ◌<◌ remaining → ℕ → List Bytes → Option (List Bytes)
  unfolding fragment
  fragment_loop remaining (Acc.intro _ smaller) offset payloads =
      dite (dec_lt 0 remaining)
        (λ more.
          let size = fragment_size payload_size remaining in
          fragment offset size >>= λ buf.
          fragment_loop (remaining - size) (smaller _ (remaining_shrinks _ _ positive more))
            (u32 (offset + size)) (payloads ++ buf ∷ []))
        (λ _. some payloads)

  pub fragments : Option (List Bytes)
  unfolding fragment_loop lt_wf
  fragments = let len = u32 (length payload) in fragment_loop len (lt_wf.apply len) 0 []

-- The seven fields of a video fragment, and the five of an audio fragment.
pub video_header : ℕ → PointCloudPayloader → ℕ → ℕ → ℕ → Bytes → Bytes
video_header client p payload_len offset size buf =
    let b0 = put_uint32 0 (u32 client) buf in
    let b1 = put_uint32 4 p.frame_counter b0 in
    let b2 = put_uint32 8 payload_len b1 in
    let b3 = put_uint32 12 offset b2 in
    let b4 = put_uint32 16 size b3 in let b5 = put_uint32 20 p.tile b4 in put_uint32 24 p.quality b5

pub audio_header : ℕ → AudioPayloader → ℕ → ℕ → ℕ → Bytes → Bytes
audio_header client p payload_len offset size buf =
    let b0 = put_uint32 0 (u32 client) buf in
    let b1 = put_uint32 4 p.frame_counter b0 in
    let b2 = put_uint32 8 payload_len b1 in
    let b3 = put_uint32 12 offset b2 in put_uint32 16 size b3

-- `Payload`: the fragments, and the payloader with its counter advanced.
pub payload_video : ℕ → PointCloudPayloader → Bytes → Option (PointCloudPayloader × List Bytes)
payload_video client p payload =
    fragments video_header_size video_payload_size (omega arith)
      (video_header client p (u32 (length payload))) payload
    >>= λ payloads. some (record p { frame_counter = u32 (p.frame_counter + 1) }, payloads)

pub payload_audio : ℕ → AudioPayloader → Bytes → Option (AudioPayloader × List Bytes)
payload_audio client p payload =
    fragments audio_header_size audio_payload_size (omega arith)
      (audio_header client p (u32 (length payload))) payload
    >>= λ payloads. some (record p { frame_counter = u32 (p.frame_counter + 1) }, payloads)

-- ===== src/Peer/Packet/Payload.antt =====
-- The two `Payload` methods: their fragments, and that the fragments hold the payload.
use web_rtcsfu.Base.{
  ℕ, zero, suc, ◌+◌, ◌-◌, ◌*◌, ◌/◌, ◌^◌, ◌≤◌, ◌<◌, ◌≡◌, refl, sym, ap, ap₂, some, List, [], ◌∷◌,
  ◌++◌, ◌∙◌, arith, length, map, take, drop, length-append, length-take, length-drop, drop-append,
  take-append-drop, drop-drop, drop_all, All,
}
use web_rtcsfu.Base.Bytes.{Bytes, u32, fits_u32}
use web_rtcsfu.Peer.Packet.{
  PointCloudPayloader, AudioPayloader, payload_video, payload_audio, video_header, audio_header,
}
use web_rtcsfu.Peer.Packet.Layout.{
  fragment_bytes, video_fields, audio_fields, video_header-fields, audio_header-fields,
}
use web_rtcsfu.Peer.Packet.Fragments.{offsets, fragments-offsets}
use mathlib.Core.List.{flatten}

-- How many fragments of `size` bytes hold `len` bytes.
abbrev pub fragment_count : ℕ → ℕ → ℕ
fragment_count size len = (len + size - 1) / size

-- What `Payload` is meant to return: one fragment for each multiple of 1144 below the length.
abbrev pub video_fragments : ℕ → PointCloudPayloader → Bytes → List Bytes
video_fragments client p payload =
    map (fragment_bytes 1144 payload (video_fields client p (length payload)))
      (offsets 1144 (fragment_count 1144 (length payload)) 0)

abbrev pub audio_fragments : ℕ → AudioPayloader → Bytes → List Bytes
audio_fragments client p payload =
    map (fragment_bytes 1152 payload (audio_fields client p (length payload)))
      (offsets 1152 (fragment_count 1152 (length payload)) 0)

-- For a frame below 2^32 bytes, the loop of `PointCloudPayloader.Payload` ends without a panic.
-- Its fragments are one for each multiple of 1144 below the frame's length, in order: the seven
-- header fields in little endian, then that part of the frame. The frame counter advances by one,
-- modulo 2^32.
pub payload_video-fragments :
    (client : ℕ) (p : PointCloudPayloader) (payload : Bytes)
    → length payload < 2 ^ 32
    → payload_video client p payload
      ≡ some
          (record p { frame_counter = u32 (p.frame_counter + 1) }, video_fragments client p payload)
unfolding payload_video
payload_video-fragments client p payload fits = rw (
  fits_u32 (length payload) fits,
  fragments-offsets 28 1144 _ (video_header client p (length payload)) payload
      (video_fields client p (length payload)) (video_header-fields client p (length payload))
      (λ o s. refl) fits (omega arith) (fragment_count 1144 (length payload)) (omega arith)
      (omega arith),
)

-- For a frame below 2^32 bytes, the loop of `AudioPayloader.Payload` ends without a panic. Its
-- fragments are one for each multiple of 1152 below the frame's length, in order: the five header
-- fields in little endian, then that part of the frame. The frame counter advances by one, modulo
-- 2^32.
pub payload_audio-fragments :
    (client : ℕ) (p : AudioPayloader) (payload : Bytes)
    → length payload < 2 ^ 32
    → payload_audio client p payload
      ≡ some
          (record p { frame_counter = u32 (p.frame_counter + 1) }, audio_fragments client p payload)
unfolding payload_audio
payload_audio-fragments client p payload fits = rw (
  fits_u32 (length payload) fits,
  fragments-offsets 20 1152 _ (audio_header client p (length payload)) payload
      (audio_fields client p (length payload)) (audio_header-fields client p (length payload))
      (λ o s. refl) fits (omega arith) (fragment_count 1152 (length payload)) (omega arith)
      (omega arith),
)

-- The parts of a list at offsets that reach its end make up the list.
flatten-take-drop :
    (size k offset : ℕ) (xs : Bytes)
    → length xs ≤ offset + k * size
    → flatten (map (λ o. take size (drop o xs)) (offsets size k offset)) ≡ drop offset xs
unfolding flatten
flatten-take-drop size zero offset xs h = sym (drop_all offset xs (omega arith))
flatten-take-drop size (suc k) offset xs h =
    ap (λ t. take size (drop offset xs) ++ t)
      (flatten-take-drop size k (offset + size) xs (omega arith) ∙ sym (drop-drop size offset xs))
    ∙ take-append-drop size (drop offset xs)

-- A header of `n` bytes in front of each fragment is what `drop n` takes off.
bodies :
    (payload_size header_size : ℕ) (payload : Bytes) (fields : ℕ → ℕ → Bytes)
    → ((offset size : ℕ) → length (fields offset size) ≡ header_size)
    → (os : List ℕ)
    → map (drop header_size) (map (fragment_bytes payload_size payload fields) os)
      ≡ map (λ o. take payload_size (drop o payload)) os
bodies payload_size header_size payload fields e [] = refl
bodies payload_size header_size payload fields e (o ∷ os) =
    let chunk = take payload_size (drop o payload) in
    let front = fields o (length chunk) in
    ap₂ ◌∷◌ (rw (← e o (length chunk)) (drop-append front chunk))
      (bodies payload_size header_size payload fields e os)

-- A fragment has a header, at least one byte behind it, and at most one packet's payload.
abbrev pub IsPacketSized : ℕ → Bytes → Type 0
IsPacketSized header_size fragment = (header_size < length fragment) × (length fragment ≤ 1172)

module _ (payload_size header_size : ℕ) (payload : Bytes) (fields : ℕ → ℕ → Bytes)
    (length-fields : (offset size : ℕ) → length (fields offset size) ≡ header_size)
    (together : header_size + payload_size ≡ 1172) (positive : 0 < payload_size) where
  fragment_bytes-IsPacketSized :
      (offset : ℕ)
      → offset < length payload
      → IsPacketSized header_size (fragment_bytes payload_size payload fields offset)
  fragment_bytes-IsPacketSized offset inside =
      let chunk = take payload_size (drop offset payload) in
      let total = length-append (fields offset (length chunk)) chunk in
      let front = length-fields offset (length chunk) in
      let cut = length-take payload_size (drop offset payload) in
      let rest = length-drop offset payload in
      (omega (arith, total, front, cut, rest), omega (arith, total, front, cut, rest))

  All-IsPacketSized :
      (k offset : ℕ)
      → offset + k * payload_size < length payload + payload_size
      → All
          (IsPacketSized header_size)
          (map (fragment_bytes payload_size payload fields) (offsets payload_size k offset))
  All-IsPacketSized zero offset h = tt
  All-IsPacketSized (suc k) offset h = (
    fragment_bytes-IsPacketSized offset (omega arith),
    All-IsPacketSized k (offset + payload_size) (omega arith),
  )

-- What a receiver can count on: the calls succeed, the bytes behind the headers are the payload in
-- order, and each fragment fits a packet.
abbrev pub Carries : ℕ → Bytes → List Bytes → Type 0
Carries header_size payload fragments =
    (flatten (map (drop header_size) fragments) ≡ payload)
    × All (IsPacketSized header_size) fragments

pub video_fragments-Carries :
    (client : ℕ) (p : PointCloudPayloader) (payload : Bytes)
    → Carries 28 payload (video_fragments client p payload)
video_fragments-Carries client p payload =
    let fields = video_fields client p (length payload) in
    let k = fragment_count 1144 (length payload) in
    (
      ap flatten (bodies 1144 28 payload fields (λ o s. refl) (offsets 1144 k 0))
          ∙ flatten-take-drop 1144 k 0 payload (omega arith),
      All-IsPacketSized 1144 28 payload fields (λ o s. refl) refl (omega arith) k 0 (omega arith),
    )

-- For a frame below 2^32 bytes, `PointCloudPayloader.Payload` returns fragments that give the
-- frame when their 28-byte headers are dropped and the rest is joined. Each fragment holds at
-- least one byte of the frame and is at most 1172 bytes long.
pub payload_video-Carries :
    (client : ℕ) (p : PointCloudPayloader) (payload : Bytes)
    → length payload < 2 ^ 32
    → (p' : PointCloudPayloader) × (fragments : List Bytes) × (payload_video client p payload
        ≡ some (p', fragments))
      × Carries 28 payload fragments
payload_video-Carries client p payload fits =
    (_, _, payload_video-fragments client p payload fits, video_fragments-Carries client p payload)

pub audio_fragments-Carries :
    (client : ℕ) (p : AudioPayloader) (payload : Bytes)
    → Carries 20 payload (audio_fragments client p payload)
audio_fragments-Carries client p payload =
    let fields = audio_fields client p (length payload) in
    let k = fragment_count 1152 (length payload) in
    (
      ap flatten (bodies 1152 20 payload fields (λ o s. refl) (offsets 1152 k 0))
          ∙ flatten-take-drop 1152 k 0 payload (omega arith),
      All-IsPacketSized 1152 20 payload fields (λ o s. refl) refl (omega arith) k 0 (omega arith),
    )

-- For a frame below 2^32 bytes, `AudioPayloader.Payload` returns fragments that give the frame
-- when their 20-byte headers are dropped and the rest is joined. Each fragment holds at least one
-- byte of the frame and is at most 1172 bytes long.
pub payload_audio-Carries :
    (client : ℕ) (p : AudioPayloader) (payload : Bytes)
    → length payload < 2 ^ 32
    → (p' : AudioPayloader) × (fragments : List Bytes) × (payload_audio client p payload
        ≡ some (p', fragments))
      × Carries 20 payload fragments
payload_audio-Carries client p payload fits =
    (_, _, payload_audio-fragments client p payload fits, audio_fragments-Carries client p payload)

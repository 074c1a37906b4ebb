-- ===== src/Peer/Packet/Layout.antt =====
-- The bytes of one fragment: its header fields, and the part of the payload behind them.
use web_rtcsfu.Base.{
  ℕ, ◌+◌, ◌^◌, ◌≤◌, ◌<◌, ◌≡◌, refl, sym, ap, some, ◌++◌, ◌∙◌, ◌≡⟨◌⟩◌, ◌∎, arith, length, take, drop,
  replicate, length-take, length-drop, length-replicate, replicate-add,
}
use web_rtcsfu.Base.Bytes.{Bytes, u32, copy, le_bytes, copy-append, copy_exact, fits_u32, slice-u32}
use web_rtcsfu.Peer.Packet.{
  PointCloudPayloader, AudioPayloader, video_header, audio_header, fragment,
}

abbrev pub video_fields : ℕ → PointCloudPayloader → ℕ → ℕ → ℕ → Bytes
video_fields client p payload_len offset size =
    le_bytes (u32 client)
    ++ le_bytes p.frame_counter
    ++ le_bytes payload_len
    ++ le_bytes offset
    ++ le_bytes size
    ++ le_bytes p.tile
    ++ le_bytes p.quality

abbrev pub audio_fields : ℕ → AudioPayloader → ℕ → ℕ → ℕ → Bytes
audio_fields client p payload_len offset size =
    le_bytes (u32 client)
    ++ le_bytes p.frame_counter
    ++ le_bytes payload_len
    ++ le_bytes offset
    ++ le_bytes size

pub video_header-fields :
    (client : ℕ) (p : PointCloudPayloader) (payload_len offset size : ℕ) (rest : Bytes)
    → video_header client p payload_len offset size (replicate 28 0 ++ rest)
      ≡ video_fields client p payload_len offset size ++ rest
unfolding video_header
video_header-fields client p payload_len offset size rest = refl

pub audio_header-fields :
    (client : ℕ) (p : AudioPayloader) (payload_len offset size : ℕ) (rest : Bytes)
    → audio_header client p payload_len offset size (replicate 20 0 ++ rest)
      ≡ audio_fields client p payload_len offset size ++ rest
unfolding audio_header
audio_header-fields client p payload_len offset size rest = refl

-- A fragment: the header fields, then the bytes of the payload from `offset` on.
abbrev pub fragment_bytes : ℕ → Bytes → (ℕ → ℕ → Bytes) → ℕ → Bytes
fragment_bytes payload_size payload fields offset =
    let chunk = take payload_size (drop offset payload) in fields offset (length chunk) ++ chunk

-- The buffer of one round holds the header fields and then a part of the payload.
module _ (header_size payload_size : ℕ) (positive : 0 < payload_size)
    (write_header : ℕ → ℕ → Bytes → Bytes) (payload : Bytes) (fields : ℕ → ℕ → Bytes)
    (writes : (offset size : ℕ) (rest : Bytes)
      → write_header offset size (replicate header_size 0 ++ rest) ≡ fields offset size ++ rest)
    (length-fields : (offset size : ℕ) → length (fields offset size) ≡ header_size) where
  filled :
      (offset size : ℕ) (chunk : Bytes)
      → length chunk ≡ size
      → copy header_size chunk (write_header offset size (replicate (size + header_size) 0))
        ≡ fields offset size ++ chunk
  filled offset size chunk e =
      copy header_size chunk (write_header offset size (replicate (size + header_size) 0))
      ≡⟨ ap (λ (t : Bytes). copy header_size chunk (write_header offset size t)) zeros ⟩
        copy header_size chunk
          (write_header offset size (replicate header_size 0 ++ replicate size 0))
      ≡⟨ ap (copy header_size chunk) (writes offset size (replicate size 0)) ⟩
        copy header_size chunk (fields offset size ++ replicate size 0)
      ≡⟨ ap (λ (n : ℕ). copy n chunk (fields offset size ++ replicate size 0))
          (sym (length-fields offset size)) ⟩
        copy (length (fields offset size)) chunk (fields offset size ++ replicate size 0)
      ≡⟨ copy-append (fields offset size) chunk (replicate size 0) ⟩
        fields offset size ++ copy 0 chunk (replicate size 0)
      ≡⟨ ap (λ t. fields offset size ++ t)
          (copy_exact chunk (replicate size 0) (omega (arith, length-replicate {A = ℕ} size 0))) ⟩
        fields offset size ++ chunk ∎
    where
      zeros : replicate {A = ℕ} (size + header_size) 0 ≡ replicate header_size 0 ++ replicate size 0
      zeros = ap (λ (n : ℕ). replicate n 0) (omega arith) ∙ replicate-add header_size size 0

  pub fragment-eq_some :
      (offset size : ℕ)
      → offset + size ≤ length payload
      → length payload < 2 ^ 32
      → size + header_size < 2 ^ 32
      → fragment header_size payload_size positive write_header payload offset size
        ≡ some (fields offset size ++ take size (drop offset payload))
  unfolding fragment
  fragment-eq_some offset size inside fits small =
      rw (fits_u32 (size + header_size) small, slice-u32 offset size payload inside fits)
        (ap some (filled offset size _ chunk_length))
    where
      chunk_length : length (take size (drop offset payload)) ≡ size
      chunk_length =
          omega (arith, length-take size (drop offset payload), length-drop offset payload)

-- ===== src/Peer/Receiver/Buffer.antt =====
-- What the receiving loop finds in its buffer behind the RTP header, and what it passes on.
use web_rtcsfu.Base.{
  ℕ, ◌^◌, ◌≤◌, ◌<◌, ◌≡◌, refl, ap, ◌∙◌, Bool, true, false, some, List, [], ◌∷◌, ◌++◌, nat_eq, drop,
  length, length-append, length-take, length-drop, arith, append_assoc, drop-append,
}
use web_rtcsfu.Base.Bytes.{copy-front, Bytes, u32, copy, uint32-le_bytes, slice-eq_some}
use web_rtcsfu.Peer.Packet.{PointCloudPayloader, buffer_length}
use web_rtcsfu.Peer.Packet.Layout.{video_fields}
use web_rtcsfu.Peer.Proxy.Send.{framed, send_tile_packet-framed}
use web_rtcsfu.Peer.Proxy.Send.Relay.{fragment_at, chunk}
use web_rtcsfu.Peer.Receiver.{
  FramePacketHeader, video, Event, passed_on, received, read_header, read_video_packet,
  packet_header, pass_on,
}

-- The frames that were reported as complete.
abbrev pub reports : List Event → List ℕ
reports [] = []
reports (passed_on d ∷ es) = reports es
reports (received n level ∷ es) = n ∷ reports es

pub reports-append : (xs ys : List Event) → reports (xs ++ ys) ≡ reports xs ++ reports ys
reports-append [] ys = refl
reports-append (passed_on d ∷ xs) ys = reports-append xs ys
reports-append (received n level ∷ xs) ys = ap (λ t. n ∷ t) (reports-append xs ys)

-- Passing a packet on reports nothing.
pub passes :
    (use_proxy_output : Bool) (buf : Bytes)
    → 20 ≤ length buf
    → (sent : List Event) × (reports sent ≡ []) × (pass_on use_proxy_output video buf ≡ some sent)
unfolding pass_on
passes false buf long = ([], refl, refl)
passes true buf long =
    (passed_on (framed 1 (drop 20 buf)) ∷ [], refl, rw (send_tile_packet-framed buf 20 long) refl)

module _ (client : ℕ) (p : PointCloudPayloader) (payload : Bytes) where
  -- What the payloader's numbers must be: 32-bit fields, and a frame that has a length.
  pub record IsNumbered : Type 0 where
    pub frame_counter : p.frame_counter < 2 ^ 32
    pub tile : p.tile < 2 ^ 32
    pub quality : p.quality < 2 ^ 32
    pub fits : length payload < 2 ^ 32

  abbrev pub header_of : ℕ → FramePacketHeader
  header_of offset = record {
    client_nr = u32 client;
    frame_nr = p.frame_counter;
    frame_len = length payload;
    seq_offset = offset;
    seq_len = length (chunk client p payload offset);
  }

  pub read_fields :
      (offset : ℕ) (rest : Bytes)
      → IsNumbered
      → offset < length payload
      → 1144 ≤ length rest
      → packet_header video (
          video_fields client p (length payload) offset (length (chunk client p payload offset))
          ++ rest)
        ≡ some (header_of offset)
  unfolding packet_header read_video_packet read_header
  read_fields offset rest h inside room =
      let n = length (chunk client p payload offset) in
      rw
        (slice-eq_some 28 1172 (video_fields client p (length payload) offset n ++ rest)
          (omega arith) (omega arith))
        (λ i. some (record {
          client_nr = uint32-le_bytes (u32 client) (omega arith) i;
          frame_nr = uint32-le_bytes p.frame_counter h.frame_counter i;
          frame_len = uint32-le_bytes (length payload) h.fits i;
          seq_offset = uint32-le_bytes offset (omega (arith, h.fits)) i;
          seq_len =
              uint32-le_bytes n
                (omega (
                  arith,
                  h.fits,
                  length-take 1144 (drop offset payload),
                  length-drop offset payload,
                ))
                i;
        }))

  -- The packet of the fragment at an offset, behind an RTP header.
  abbrev pub packet_at : Bytes → ℕ → Bytes
  packet_at rtp offset = rtp ++ fragment_at client p payload offset

  length-fragment : (offset : ℕ) → length (fragment_at client p payload offset) ≤ 1172
  length-fragment offset = omega (arith, length-take 1144 (drop offset payload))

  -- What the buffer holds behind the RTP header.
  pub behind_header :
      (rtp buf : Bytes) (offset : ℕ)
      → length rtp ≡ 20
      → length buf ≡ buffer_length
      → (stale : Bytes) × (drop 20 (copy 0 (packet_at rtp offset) buf)
          ≡ fragment_at client p payload offset ++ stale)
        × (1144 ≤ length (chunk client p payload offset ++ stale))
  behind_header rtp buf offset e full =
      let packet = packet_at rtp offset in
      let stale = drop (length packet) buf in
      let size = length-append rtp (fragment_at client p payload offset) in
      let small = length-fragment offset in
      (
        stale,
        ap (drop 20) (
              copy-front packet buf (omega (arith, size, small))
              ∙ append_assoc rtp (fragment_at client p payload offset) stale)
            ∙ (rw (← e) (drop-append rtp (fragment_at client p payload offset ++ stale))),
        omega (
          arith,
          size,
          length-drop (length packet) buf,
          length-append (chunk client p payload offset) stale,
        ),
      )

-- ===== src/Peer/Proxy/Send/Relay.antt =====
-- A fragment of a tile that arrives from another peer, on its way to the DLL.
use web_rtcsfu.Base.{
  ℕ, ◌-◌, ◌^◌, ◌<◌, ◌≡◌, refl, ap, ◌∙◌, some, ◌++◌, arith, length, take, drop, replicate, take_all,
  length-append, length-take, drop-append, take-append, append_assoc,
}
use web_rtcsfu.Base.Bytes.{Bytes, u32, uint32}
use web_rtcsfu.Peer.Packet.{PointCloudPayloader, buffer_length}
use web_rtcsfu.Peer.Packet.Layout.{fragment_bytes, video_fields}
use web_rtcsfu.Peer.Proxy.{read_video_header}
use web_rtcsfu.Peer.Proxy.Types.{VideoPacketHeader}
use web_rtcsfu.Peer.Proxy.Delivery.{IsU32Header, read_video_header-fields}
use web_rtcsfu.Peer.Proxy.Send.{send_tile_packet, send_packet-framed, framed}

module _ (client : ℕ) (p : PointCloudPayloader) (payload : Bytes) (offset : ℕ) where
  abbrev pub chunk : Bytes
  chunk = take 1144 (drop offset payload)

  -- The fragment at `offset`, and the header that it is meant to have.
  abbrev pub fragment_at : Bytes
  fragment_at = fragment_bytes 1144 payload (video_fields client p (length payload)) offset

  abbrev pub header_at : VideoPacketHeader
  header_at = record {
    client_nr = u32 client;
    frame_nr = p.frame_counter;
    frame_len = length payload;
    frame_offset = offset;
    packet_len = length chunk;
    tile_nr = p.tile;
    quality = p.quality;
  }

  -- The RTP header, the fragment, and what the buffer of the track still holds from before.
  sent :
      (rtp stale : Bytes)
      → length rtp ≡ 20
      → send_tile_packet (rtp ++ (fragment_at ++ stale)) 20 ≡ some (framed 1 (fragment_at ++ stale))
  unfolding send_tile_packet
  sent rtp stale e =
      send_packet-framed (rtp ++ (fragment_at ++ stale)) 20 1
        (omega (arith, e, length-append rtp (fragment_at ++ stale)))
      ∙ ap (λ t. some (framed 1 t)) body
    where
      body : drop 20 (rtp ++ (fragment_at ++ stale)) ≡ fragment_at ++ stale
      body = rw (← e) (drop-append rtp (fragment_at ++ stale))

  -- Let a track's buffer of 1220 bytes hold an RTP header of 20 bytes, the fragment of a frame
  -- below 2^32 bytes at an offset inside of it, and old bytes behind, and let the payloader's
  -- fields be below 2^32. Then `SendTilePacket` from byte 20 on writes a datagram of type 1 in
  -- which the header is the fragment's (client modulo 2^32, frame, length, offset, size, tile and
  -- quality) and the fragment's data follows it.
  pub send_tile_packet-relayed :
      (rtp stale : Bytes)
      → length rtp ≡ 20
      → length (rtp ++ (fragment_at ++ stale)) ≡ buffer_length
      → length payload < 2 ^ 32
      → offset < length payload
      → p.frame_counter < 2 ^ 32
      → p.tile < 2 ^ 32
      → p.quality < 2 ^ 32
      → (d : Bytes) × (send_tile_packet (rtp ++ (fragment_at ++ stale)) 20 ≡ some d)
        × (uint32 d ≡ some 1)
        × (read_video_header (drop 4 d) ≡ some header_at)
        × (take (length chunk) (drop 32 d) ≡ chunk)
  send_tile_packet-relayed rtp stale e h fits inside fc ft fq =
      let cut = length-take 1144 (drop offset payload) in
      let header : IsU32Header header_at = omega (arith, cut) in
      let behind =
        take 1268 (chunk ++ stale) ++ replicate (1296 - length (fragment_at ++ stale)) 0 in
      (
        framed 1 (fragment_at ++ stale),
        sent rtp stale e,
        refl,
        read_video_header-fields header_at behind header,
        front,
      )
    where
      front :
          take
            (length chunk)
            (take 1268 (chunk ++ stale) ++ replicate (1296 - length (fragment_at ++ stale)) 0)
          ≡ chunk
      front =
          let zeros : Bytes = replicate (1296 - length (fragment_at ++ stale)) 0 in
          ap (λ t. take (length chunk) (t ++ zeros))
            (take_all 1268 (chunk ++ stale) (
              omega
                (arith, h, e, length-append rtp (fragment_at ++ stale), length-append chunk stale)))
          ∙ ap (take (length chunk)) (append_assoc chunk stale zeros)
          ∙ take-append chunk (stale ++ zeros)

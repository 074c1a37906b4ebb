-- ===== src/Peer/Proxy/Delivery.antt =====
-- A whole frame of a tile through `StartListening`, from its datagrams to the consumer.
use web_rtcsfu.Base.{
  ℕ, ◌+◌, ◌^◌, ◌≤◌, ◌<◌, ◌≡◌, sym, ap, some, List, ◌∷◌, ◌++◌, ◌∙◌, arith, length, take, drop,
  replicate, replicate-add, length-replicate, ◌>>=◌,
}
use web_rtcsfu.Base.Bytes.{Bytes, le_bytes, copy, length-copy, take-copy, uint32-le_bytes}
use web_rtcsfu.Peer.Proxy.{receive, store_tile, read_video_header, absorb}
use web_rtcsfu.Peer.Proxy.Types.{VideoKey, key_eq, VideoPacketHeader, RemoteTile, ProxyConnection}
use web_rtcsfu.Peer.Proxy.Reassembly.{Part, total, cut, IsInside, Holds, absorb-Holds, length-cut}
use web_rtcsfu.Peer.Proxy.Store.{entry}

-- A datagram: the packet type, the seven header fields, and the data.
abbrev pub tile_datagram : VideoPacketHeader → Bytes → Bytes
tile_datagram p part =
    le_bytes 1
    ++ le_bytes p.client_nr
    ++ le_bytes p.frame_nr
    ++ le_bytes p.frame_len
    ++ le_bytes p.frame_offset
    ++ le_bytes p.packet_len
    ++ le_bytes p.tile_nr
    ++ le_bytes p.quality
    ++ part

pub record IsU32Header (p : VideoPacketHeader) : Type 0 where
  pub client_nr : p.client_nr < 2 ^ 32
  pub frame_nr : p.frame_nr < 2 ^ 32
  pub frame_len : p.frame_len < 2 ^ 32
  pub frame_offset : p.frame_offset < 2 ^ 32
  pub packet_len : p.packet_len < 2 ^ 32
  pub tile_nr : p.tile_nr < 2 ^ 32
  pub quality : p.quality < 2 ^ 32

pub read_video_header-fields :
    (p : VideoPacketHeader) (part : Bytes)
    → IsU32Header p
    → read_video_header (drop 4 (tile_datagram p part)) ≡ some p
unfolding read_video_header
read_video_header-fields p part h = λ i. some (record {
  client_nr = uint32-le_bytes p.client_nr h.client_nr i;
  frame_nr = uint32-le_bytes p.frame_nr h.frame_nr i;
  frame_len = uint32-le_bytes p.frame_len h.frame_len i;
  frame_offset = uint32-le_bytes p.frame_offset h.frame_offset i;
  packet_len = uint32-le_bytes p.packet_len h.packet_len i;
  tile_nr = uint32-le_bytes p.tile_nr h.tile_nr i;
  quality = uint32-le_bytes p.quality h.quality i;
})

-- The buffer behind a datagram: `room` zeros that the datagram's data overwrites.
copy-tile_datagram :
    (p : VideoPacketHeader) (part : Bytes) (room : ℕ)
    → copy 0 (tile_datagram p part) (replicate (32 + room) 0)
      ≡ tile_datagram p (copy 0 part (replicate room 0))
copy-tile_datagram p part room = ap (copy 0 (tile_datagram p part)) (replicate-add 32 room 0)

-- A tile's datagram reaches `store_tile` with its header and its data.
receive-tile_datagram :
    (pc : ProxyConnection) (p : VideoPacketHeader) (part : Bytes)
    → IsU32Header p
    → receive pc (tile_datagram p part)
      ≡ store_tile pc p (tile_datagram p (copy 0 part (replicate 1468 0)))
unfolding receive
receive-tile_datagram pc p part h =
    ap (λ o. o >>= λ q. store_tile pc q (tile_datagram p (copy 0 part (replicate 1468 0))))
      (read_video_header-fields p (copy 0 part (replicate 1468 0)) h)

-- A frame of one tile, and the header that goes with a part of it.
pub record Frame : Type 0 where
  pub client_nr : ℕ
  pub frame_nr : ℕ
  pub tile_nr : ℕ
  pub quality : ℕ
  pub bytes : Bytes

module _ (frame : Frame) where
  abbrev pub key_of : VideoKey
  key_of = record { tile_nr = frame.tile_nr; quality = frame.quality }

  abbrev pub header_of : Part → VideoPacketHeader
  header_of part = record {
    client_nr = frame.client_nr;
    frame_nr = frame.frame_nr;
    frame_len = length frame.bytes;
    frame_offset = part.offset;
    packet_len = part.len;
    tile_nr = frame.tile_nr;
    quality = frame.quality;
  }

  abbrev pub datagram_of : Part → Bytes
  datagram_of part = tile_datagram (header_of part) (cut frame.bytes part)

  -- A part that fits a datagram and lies inside of the frame.
  abbrev pub Fits : Part → Type 0
  Fits part = IsInside frame.bytes part × (part.len ≤ 1468)

  abbrev pub IsSendable : Type 0
  IsSendable =
      (length frame.bytes < 2 ^ 32)
      × (frame.client_nr < 2 ^ 32)
      × (frame.frame_nr < 2 ^ 32)
      × (frame.tile_nr < 2 ^ 32)
      × (frame.quality < 2 ^ 32)

  header-IsU32Header : (part : Part) → IsSendable → Fits part → IsU32Header (header_of part)
  header-IsU32Header part s f = omega arith

  abbrev pub buffer_of : Part → Bytes
  buffer_of part = tile_datagram (header_of part) (copy 0 (cut frame.bytes part) (replicate 1468 0))

  pub receive-datagram :
      (pc : ProxyConnection) (part : Part)
      → IsSendable
      → Fits part
      → receive pc (datagram_of part) ≡ store_tile pc (header_of part) (buffer_of part)
  receive-datagram pc part s f =
      receive-tile_datagram pc (header_of part) (cut frame.bytes part) (header-IsU32Header part s f)

  pub round :
      (pc : ProxyConnection) (done : List Part) (part : Part)
      → IsSendable
      → Fits part
      → Holds frame.bytes done (entry pc key_of frame.frame_nr (length frame.bytes))
      → total done + part.len ≤ length frame.bytes
      → (r : RemoteTile) × (absorb 32
            (entry pc key_of frame.frame_nr (length frame.bytes))
            part.offset
            part.len
            (buffer_of part)
          ≡ some r)
        × Holds frame.bytes (part ∷ done) r
  round pc done part s f h fits =
      absorb-Holds 32 frame.bytes (buffer_of part) done part
        (entry pc key_of frame.frame_nr (length frame.bytes)) h f.0 s.0 fits room
        (omega (arith, sized)) same
    where
      sized : length (copy 0 (cut frame.bytes part) (replicate 1468 0)) ≡ 1468
      sized =
          length-copy 0 (cut frame.bytes part) (replicate 1468 0) ∙ length-replicate {A = ℕ} 1468 0

      room : 32 + part.len ≤ length (buffer_of part)
      room = omega (arith, sized)

      same : take part.len (drop 32 (buffer_of part)) ≡ cut frame.bytes part
      same =
          ap (λ (n : ℕ). take n (copy 0 (cut frame.bytes part) (replicate 1468 0)))
            (sym (length-cut frame.bytes part f.0))
          ∙ take-copy (cut frame.bytes part) (replicate 1468 0)
              (omega (arith, length-cut frame.bytes part f.0, length-replicate {A = ℕ} 1468 0))

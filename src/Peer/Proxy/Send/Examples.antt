-- ===== src/Peer/Proxy/Send/Examples.antt =====
-- Datagrams to the DLL, and the theorems at one fragment.
use web_rtcsfu.Base.{◌≡◌, refl, some, [], ◌∷◌, ◌++◌, arith, length, take, drop, replicate}
use web_rtcsfu.Base.Bytes.{Bytes, uint32}
use web_rtcsfu.Peer.Packet.{PointCloudPayloader}
use web_rtcsfu.Peer.Proxy.{read_video_header}
use web_rtcsfu.Peer.Proxy.Send.{send_packet, send_tile_packet, send_peer_ready_packet}
use web_rtcsfu.Peer.Proxy.Send.Relay.{fragment_at, header_at, chunk, send_tile_packet-relayed}

ready : send_peer_ready_packet ≡ some (replicate 1300 0)
unfolding send_peer_ready_packet send_packet
ready = refl

abbrev greeting : Bytes
greeting = 9 ∷ 8 ∷ 7 ∷ []

abbrev tile_two : PointCloudPayloader
tile_two = record { frame_counter = 6; tile = 2; quality = 0 }

abbrev rtp_header : Bytes
rtp_header = replicate 20 128

abbrev stale : Bytes
stale = replicate 1169 77

send_tile_packet-relayed_example :
    (d : Bytes) × (send_tile_packet (rtp_header ++ (fragment_at 1 tile_two greeting 0 ++ stale)) 20
      ≡ some d)
    × (uint32 d ≡ some 1)
    × (read_video_header (drop 4 d) ≡ some (header_at 1 tile_two greeting 0))
    × (take (length (chunk 1 tile_two greeting 0)) (drop 32 d) ≡ chunk 1 tile_two greeting 0)
send_tile_packet-relayed_example =
    send_tile_packet-relayed 1 tile_two greeting 0 rtp_header stale refl refl (omega arith)
      (omega arith) (omega arith) (omega arith) (omega arith)

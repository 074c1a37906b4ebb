-- ===== src/Peer/EndToEnd.antt =====
-- A frame of a tile from the DLL of one client to another client: the datagrams that the proxy
-- connection takes, the RTP packets that the track sends, and the loop that receives them there.
mod Examples
use web_rtcsfu.Base.{
  ℕ, ◌+◌, ◌^◌, ◌≤◌, ◌<◌, ◌≡◌, ◌≢◌, ap, ◌∙◌, sym, true, false, Bool, none, some, List, [], ◌∷◌, map,
  length, arith, All, length-map, nat_eq,
}
use web_rtcsfu.Base.Bytes.{Bytes, u32}
use web_rtcsfu.Base.Map.{lookup}
use web_rtcsfu.Peer.Packet.{PointCloudPayloader, payload_video}
use web_rtcsfu.Peer.Packet.Payload.{video_fragments, payload_video-fragments}
use web_rtcsfu.Peer.Proxy.{receive_all}
use web_rtcsfu.Peer.Proxy.Types.{VideoKey, key_eq, ProxyConnection, wake_video}
use web_rtcsfu.Peer.Proxy.Reassembly.{Part, total, covers}
use web_rtcsfu.Peer.Proxy.Store.{frames_of}
use web_rtcsfu.Peer.Proxy.Delivery.{Frame, key_of, datagram_of, Fits, IsSendable}
use web_rtcsfu.Peer.Proxy.AnyOrder.{IsListening, receive_all-Delivered}
use web_rtcsfu.Peer.Transcoder.{TranscoderRemote, remote}
use web_rtcsfu.Peer.Media.{RtpLibrary, TrackLocalRtp, write_packets, write_video_frame, written}
use web_rtcsfu.Peer.Media.Frames.{PacketizerLaw, write_video_frame-fragments}
use web_rtcsfu.Peer.Receiver.{video, Receiver, Event, receive_packets}
use web_rtcsfu.Peer.Receiver.Buffer.{reports, IsNumbered}
use web_rtcsfu.Peer.Receiver.Counting.{IsRtpHeader}
use web_rtcsfu.Peer.Receiver.Whole.{with_headers, IsReady, receive_packets-reported}

module _ (client : ℕ) (lib : RtpLibrary PointCloudPayloader)
    (law : PacketizerLaw lib (payload_video client)) (frame : Frame) (p : lib.Packetizer) where
  fragments-Reported :
      (packets : List lib.Packet) (use_proxy_output : Bool) (rtps : List Bytes) (r : Receiver)
      → 0 < length frame.bytes
      → IsNumbered client (law.payloader_of p) frame.bytes
      → length rtps ≡ length (video_fragments client (law.payloader_of p) frame.bytes)
      → All IsRtpHeader rtps
      → IsReady client (law.payloader_of p) frame.bytes r
      → map lib.payload packets ≡ video_fragments client (law.payloader_of p) frame.bytes
      → (r' : Receiver) × (events : List Event) × (receive_packets use_proxy_output video
            (with_headers rtps (map lib.payload packets))
            r
          ≡ some (r', events))
        × (reports events ≡ (law.payloader_of p).frame_counter ∷ [])
  fragments-Reported packets use_proxy_output rtps r long numbered count headers ready same =
      let s = law.payloader_of p in
      let next_one : PointCloudPayloader = record s { frame_counter = u32 (s.frame_counter + 1) } in
      receive_packets-reported client s frame.bytes use_proxy_output rtps r next_one
        (map lib.payload packets)
        (payload_video-fragments client s frame.bytes numbered.fits
          ∙ ap (λ fs. some (next_one, fs)) (sym same))
        long numbered (count ∙ ap length (sym same)) headers ready

  -- The track sends the frame that is at hand in packets that another client reports, and it
  -- reports nothing else.
  abbrev pub Forwarded :
      ProxyConnection
      → TrackLocalRtp lib
      → lib.Network
      → TranscoderRemote
      → Bool
      → List Bytes
      → Receiver
      → Type 0
  Forwarded pc track network t use_proxy_output rtps r =
      (pc' : ProxyConnection) × (p' : lib.Packetizer) × (packets : List lib.Packet)
      × (write_video_frame lib false (remote t) frame.tile_nr frame.quality pc track network
          ≡ some (
              written (record track { packetizer = some p' }) (write_packets lib packets network)
                pc'))
      × (r' : Receiver) × (events : List Event) × (receive_packets use_proxy_output video
            (with_headers rtps (map lib.payload packets)) r
          ≡ some (r', events))
      × (reports events ≡ (law.payloader_of p).frame_counter ∷ [])

  -- Let the packetizer make one packet of each fragment of its payloader. Take a frame below 2^32
  -- bytes, and datagrams that carry non-empty parts of it, at most 1468 bytes each, that cover it
  -- and have its length together, in any order. Let its key have a condition variable, no empty
  -- slot and no entry for this frame number; let the track be bound, and let the payloader's
  -- numbers be below 2^32. Then the receiver takes the datagrams without a panic and wakes the
  -- consumer exactly once, at the end; `WriteVideoFrame` with the remote transcoder and without
  -- debugging then gets the packets onto the network, in order; and another client's loop for
  -- video tracks, with a buffer of 1220 bytes and a count of 0 for the frame number, reads their
  -- payloads in order, each behind an RTP header of 20 bytes, without a panic, and reports exactly
  -- one complete frame: the payloader's number.
  pub receive_all-Forwarded :
      (t : TranscoderRemote) (pc : ProxyConnection) (part : Part) (parts : List Part)
      (track : TrackLocalRtp lib) (network : lib.Network) (use_proxy_output : Bool)
      (rtps : List Bytes) (r : Receiver)
      → IsSendable frame
      → All (Fits frame) (part ∷ parts)
      → IsListening frame pc
      → lookup frame.frame_nr (frames_of pc (key_of frame)) ≡ none
      → total (part ∷ parts) ≡ length frame.bytes
      → ((i : ℕ) → i < length frame.bytes → covers (part ∷ parts) i ≡ true)
      → track.packetizer ≡ some p
      → IsNumbered client (law.payloader_of p) frame.bytes
      → length rtps ≡ length (video_fragments client (law.payloader_of p) frame.bytes)
      → All IsRtpHeader rtps
      → IsReady client (law.payloader_of p) frame.bytes r
      → (now : ProxyConnection) × (receive_all pc (map (datagram_of frame) (part ∷ parts))
          ≡ some (now, wake_video (key_of frame) ∷ []))
        × Forwarded now track network t use_proxy_output rtps r
  receive_all-Forwarded t pc part parts track network use_proxy_output rtps r s fits listening fresh
        whole cover bound numbered count headers ready =
      let long : 0 < length frame.bytes = omega (arith, fits.0.0.0) in
      let (now, pc', received, polled, _, _) =
        receive_all-Delivered frame pc part parts s fits listening fresh whole cover in
      let (p', packets, sent, same, _) =
        write_video_frame-fragments client lib law t frame.tile_nr frame.quality now pc' track
          network p frame.bytes bound polled (λ e. absurd (omega (arith, long, ap length e)))
          numbered.fits in
      let (r', events, got, one) =
        fragments-Reported packets use_proxy_output rtps r long numbered count headers ready same in
      (now, received, (pc', p', packets, sent, r', events, got, one))

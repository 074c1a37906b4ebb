-- ===== src/Peer/EndToEnd/Examples.antt =====
-- A frame of five bytes in two datagrams, the second part first, on its way to another client.
use web_rtcsfu.Base.{◌≡◌, refl, true, some, List, [], ◌∷◌, replicate, nat_eq, arith, map}
use web_rtcsfu.Base.Bytes.{Bytes}
use web_rtcsfu.Base.Map.{lookup, insert}
use web_rtcsfu.Peer.Packet.{PointCloudPayloader, payload_video}
use web_rtcsfu.Peer.Proxy.{receive_all, new_proxy_connection, start_listening}
use web_rtcsfu.Peer.Proxy.Types.{ProxyConnection, wake_video}
use web_rtcsfu.Peer.Proxy.Reassembly.{Part}
use web_rtcsfu.Peer.Proxy.Delivery.{Frame, key_of, datagram_of}
use web_rtcsfu.Peer.Transcoder.{new_transcoder_remote}
use web_rtcsfu.Peer.Media.{TrackLocalRtp}
use web_rtcsfu.Peer.Media.Plain.{plain, plain_law}
use web_rtcsfu.Peer.Receiver.{new_receiver, counted}
use web_rtcsfu.Peer.Receiver.Whole.{IsReady}
use web_rtcsfu.Peer.EndToEnd.{Forwarded, receive_all-Forwarded}

abbrev small_frame : Frame
small_frame = record {
  client_nr = 9;
  frame_nr = 4;
  tile_nr = 0;
  quality = 0;
  bytes = 10 ∷ 20 ∷ 30 ∷ 40 ∷ 50 ∷ [];
}

abbrev back : Part
back = record { offset = 3; len = 2 }

abbrev front : Part
front = record { offset = 0; len = 3 }

abbrev listening : ProxyConnection
unfolding new_proxy_connection start_listening
listening = start_listening new_proxy_connection 1 1

abbrev source : PointCloudPayloader
source = record { frame_counter = 6; tile = 0; quality = 0 }

abbrev track : TrackLocalRtp (plain (payload_video 9))
track = record { packetizer = some source; clock_rate = 90000; payloader = source }

abbrev rtps : List Bytes
rtps = replicate 20 128 ∷ []

ready : IsReady 9 source small_frame.bytes new_receiver
unfolding new_receiver counted web_rtcsfu.Base.Map.lookup
ready = record { full = refl; fresh = refl }

receive_all-Forwarded_example :
    (now : ProxyConnection) × (receive_all listening
        (map (datagram_of small_frame) (back ∷ front ∷ []))
      ≡ some (now, wake_video (key_of small_frame) ∷ []))
    × Forwarded 9
        (plain (payload_video 9))
        (plain_law (payload_video 9))
        small_frame
        source
        now
        track
        []
        new_transcoder_remote
        true
        rtps
        new_receiver
unfolding new_proxy_connection start_listening lookup insert
receive_all-Forwarded_example =
    receive_all-Forwarded 9 (plain (payload_video 9)) (plain_law (payload_video 9)) small_frame
      source new_transcoder_remote listening back (front ∷ []) track [] true rtps new_receiver
      (omega arith) (omega arith) (record { cond = refl; slot = λ e. cc }) refl (omega arith)
      (λ i h. ground arith) refl
      (record {
        frame_counter = omega arith;
        tile = omega arith;
        quality = omega arith;
        fits = omega arith;
      })
      refl (refl, _) ready

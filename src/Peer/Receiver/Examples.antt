-- ===== src/Peer/Receiver/Examples.antt =====
-- A short frame through the receiving loop.
use web_rtcsfu.Base.{ℕ, ◌≡◌, refl, true, some, List, [], ◌∷◌, replicate, arith}
use web_rtcsfu.Base.Bytes.{Bytes}
use web_rtcsfu.Peer.Packet.{PointCloudPayloader}
use web_rtcsfu.Peer.Packet.Payload.{video_fragments, payload_video-fragments}
use web_rtcsfu.Peer.Receiver.{video, Receiver, Event, new_receiver, counted, receive_packets}
use web_rtcsfu.Peer.Receiver.Buffer.{reports, IsNumbered}
use web_rtcsfu.Peer.Receiver.Whole.{with_headers, IsReady, receive_packets-reported}

abbrev payloader : PointCloudPayloader
payloader = record { frame_counter = 7; tile = 2; quality = 1 }

abbrev frame : Bytes
frame = 10 ∷ 20 ∷ 30 ∷ []

abbrev headers : List Bytes
headers = replicate 20 128 ∷ []

numbered : IsNumbered 5 payloader frame
numbered = record {
  frame_counter = omega arith;
  tile = omega arith;
  quality = omega arith;
  fits = omega arith;
}

ready : IsReady 5 payloader frame new_receiver
unfolding new_receiver counted web_rtcsfu.Base.Map.lookup
ready = record { full = refl; fresh = refl }

-- A frame of three bytes comes in one packet and is reported.
receive_packets-reported_example :
    (r' : Receiver) × (events : List Event) × (receive_packets true video
        (with_headers headers (video_fragments 5 payloader frame))
        new_receiver
      ≡ some (r', events))
    × (reports events ≡ 7 ∷ [])
receive_packets-reported_example =
    receive_packets-reported 5 payloader frame true headers new_receiver _
      (video_fragments 5 payloader frame) (payload_video-fragments 5 payloader frame (omega arith))
      (omega arith) numbered refl (refl, _) ready

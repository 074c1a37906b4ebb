-- ===== src/Peer/Proxy/Interleaved/Examples.antt =====
-- A test: between the two datagrams of a frame stand one of the next frame of the tile and one of
-- audio.
use web_rtcsfu.Base.{◌≡◌, refl, some, none, [], ◌∷◌, ◌++◌, nat_eq, arith, List}
use web_rtcsfu.Base.Bytes.{Bytes}
use web_rtcsfu.Base.Map.{lookup, insert, remove}
use web_rtcsfu.Peer.Proxy.{
  receive, receive_all, new_proxy_connection, start_listening, read_video_header, read_audio_header,
  store_tile, store_audio, finish_tile, finish_audio, absorb, new_tile,
}
use web_rtcsfu.Peer.Proxy.Types.{
  VideoKey, key_eq, ProxyConnection, Effect, wake_video, VideoPacketHeader,
}
use web_rtcsfu.Peer.Proxy.Reassembly.{Part}
use web_rtcsfu.Peer.Proxy.Delivery.{Frame, datagram_of}
use web_rtcsfu.Peer.Proxy.Audio.Delivery.{AudioFrame, audio_datagram_of}
use web_rtcsfu.Peer.Proxy.Store.{frames_of}
use web_rtcsfu.Peer.Proxy.Consumers.{next_tile, ready}
use web_rtcsfu.Peer.Proxy.Interleaved.{Interleaved, over, mine, foreign, receive_all-Interleaved}
use web_rtcsfu.Peer.Proxy.Interleaved.Foreign.{IsForeign}

abbrev first_key : VideoKey
first_key = record { tile_nr = 0; quality = 0 }

abbrev small_frame : Frame
small_frame = record {
  client_nr = 9;
  frame_nr = 4;
  tile_nr = 0;
  quality = 0;
  bytes = 10 ∷ 20 ∷ 30 ∷ 40 ∷ 50 ∷ [];
}

abbrev next_frame : Frame
next_frame = record small_frame { frame_nr = 5; bytes = 60 ∷ 70 ∷ [] }

abbrev tone : AudioFrame
tone = record { client_nr = 9; frame_nr = 4; bytes = 80 ∷ [] }

abbrev back : Part
back = record { offset = 3; len = 2 }

abbrev front : Part
front = record { offset = 0; len = 3 }

abbrev single : Part
single = record { offset = 0; len = 1 }

abbrev listening : ProxyConnection
unfolding new_proxy_connection start_listening
listening = start_listening new_proxy_connection 1 1

abbrev before_front : List Bytes
before_front =
    datagram_of next_frame single
    ∷ (datagram_of small_frame back ∷ (audio_datagram_of tone single ∷ []))

next-IsForeign : IsForeign small_frame (datagram_of next_frame single)
unfolding read_video_header
next-IsForeign p kind header same here =
    let q : VideoPacketHeader = record {
      client_nr = 9;
      frame_nr = 5;
      frame_len = 2;
      frame_offset = 0;
      packet_len = 1;
      tile_nr = 0;
      quality = 0;
    } in
    let known : some q ≡ some p = header in
    let read : q ≡ p = cc known in
    let five : 5 ≡ p.frame_nr = (λ i. (read i).frame_nr) in absurd (omega arith)

tone-IsForeign : IsForeign small_frame (audio_datagram_of tone single)
tone-IsForeign p kind header same here = absurd (cc kind)

inter : Interleaved small_frame (back ∷ []) before_front
inter =
    foreign (datagram_of next_frame single) (back ∷ [])
      (datagram_of small_frame back ∷ (audio_datagram_of tone single ∷ [])) next-IsForeign
      (mine back [] (audio_datagram_of tone single ∷ []) (omega arith)
        (foreign (audio_datagram_of tone single) [] [] tone-IsForeign over))

abbrev outcome : ProxyConnection × List Effect
unfolding receive_all receive read_video_header read_audio_header store_tile store_audio finish_tile
    finish_audio absorb new_tile new_proxy_connection start_listening lookup insert remove
outcome = elim (receive_all listening (before_front ++ datagram_of small_frame front ∷ [])) [
  | some out ↦ out
  | none ↦ (listening, [])
]

receive_all-Interleaved_example :
    (before : List Effect) × (pc' : ProxyConnection) × (outcome.1
      ≡ before ++ wake_video first_key ∷ [])
    × (next_tile outcome.0 first_key ≡ some (ready pc' small_frame.bytes))
    × (lookup 4 (frames_of pc' first_key) ≡ none)
    × (lookup first_key pc'.complete_tiles ≡ none)
unfolding receive_all receive read_video_header read_audio_header store_tile store_audio finish_tile
    finish_audio absorb new_tile new_proxy_connection start_listening lookup insert remove
receive_all-Interleaved_example =
    receive_all-Interleaved small_frame listening (back ∷ []) before_front front outcome
      (omega arith) inter (omega arith) (record { cond = refl; slot = λ e. cc }) refl (omega arith)
      (λ i h. ground arith) refl

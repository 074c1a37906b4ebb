-- ===== src/Peer/Proxy/Examples.antt =====
-- Tests of the receiving side on concrete datagrams.
use web_rtcsfu.Base.{
  ℕ, ◌≡◌, refl, some, [], ◌∷◌, ◌++◌, Option, none, List, map, nat_eq, arith, ◌>>=◌,
}
use web_rtcsfu.Base.Bytes.{Bytes, le_bytes}
use web_rtcsfu.Base.Map.{lookup, insert, remove}
use web_rtcsfu.Peer.Proxy.{
  receive, receive_all, read_video_header, store_tile, absorb, new_tile, finish_tile,
  new_proxy_connection, start_listening,
}
use web_rtcsfu.Peer.Proxy.Types.{VideoKey, key_eq, ProxyConnection, Effect, wake_video, RemoteTile}
use web_rtcsfu.Peer.Proxy.Reassembly.{Part}
use web_rtcsfu.Peer.Proxy.Delivery.{Frame, datagram_of}
use web_rtcsfu.Peer.Proxy.Store.{frames_of}
use web_rtcsfu.Peer.Proxy.Consumers.{next_tile, ready}
use web_rtcsfu.Peer.Proxy.AnyOrder.{receive_all-Delivered}
use mathlib.Core.Option

abbrev tile_datagram : ℕ → ℕ → ℕ → Bytes → Bytes
tile_datagram frame_len offset len part =
    le_bytes 1
    ++ le_bytes 9
    ++ le_bytes 4
    ++ le_bytes frame_len
    ++ le_bytes offset
    ++ le_bytes len
    ++ le_bytes 0
    ++ le_bytes 0
    ++ part

abbrev first_key : VideoKey
first_key = record { tile_nr = 0; quality = 0 }

abbrev after_two : Option (ProxyConnection × List Effect)
after_two = do
  (pc, none_yet) ←
      receive (start_listening new_proxy_connection 1 1) (tile_datagram 5 3 2 (40 ∷ 50 ∷ []))
  receive pc (tile_datagram 5 0 3 (10 ∷ 20 ∷ 30 ∷ []))

abbrev tile_and_effects : ProxyConnection × List Effect → Option (List RemoteTile) × List Effect
tile_and_effects (pc, effects) = (lookup first_key pc.complete_tiles, effects)

abbrev whole_tile : RemoteTile
whole_tile = record {
  frame_nr = 4;
  current_len = 5;
  file_len = 5;
  file_data = 10 ∷ 20 ∷ 30 ∷ 40 ∷ 50 ∷ [];
}

-- Two packets, the second part first, complete a frame of five bytes.
two_packets :
    Option.map tile_and_effects after_two ≡ some (some (whole_tile ∷ []), wake_video first_key ∷ [])
unfolding receive read_video_header store_tile absorb new_tile finish_tile new_proxy_connection
    start_listening lookup insert remove
two_packets = refl

abbrev small_frame : Frame
small_frame = record {
  client_nr = 9;
  frame_nr = 4;
  tile_nr = 0;
  quality = 0;
  bytes = 10 ∷ 20 ∷ 30 ∷ 40 ∷ 50 ∷ [];
}

abbrev back : Part
back = record { offset = 3; len = 2 }

abbrev front : Part
front = record { offset = 0; len = 3 }

abbrev listening : ProxyConnection
unfolding new_proxy_connection start_listening
listening = start_listening new_proxy_connection 1 1

receive_all-Delivered_example :
    (pc' : ProxyConnection) × (pc'' : ProxyConnection) × (receive_all listening
        (map (datagram_of small_frame) (back ∷ front ∷ []))
      ≡ some (pc', wake_video first_key ∷ []))
    × (next_tile pc' first_key ≡ some (ready pc'' small_frame.bytes))
    × (lookup 4 (frames_of pc'' first_key) ≡ none)
    × (lookup first_key pc''.complete_tiles ≡ none)
unfolding new_proxy_connection start_listening lookup insert
receive_all-Delivered_example =
    receive_all-Delivered small_frame listening back (front ∷ []) (omega arith) (omega arith)
      (record { cond = refl; slot = λ e. cc }) refl (omega arith) (λ i h. ground arith)

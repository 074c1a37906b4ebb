-- ===== src/Peer/Proxy/Audio/Examples.antt =====
-- A test of the reassembly of audio: two datagrams, the second part first.
use web_rtcsfu.Base.{◌≡◌, refl, some, none, [], ◌∷◌, nat_eq, arith, map}
use web_rtcsfu.Base.Map.{lookup, insert}
use web_rtcsfu.Peer.Proxy.{receive_all, new_proxy_connection, start_listening}
use web_rtcsfu.Peer.Proxy.Types.{ProxyConnection, wake_audio}
use web_rtcsfu.Peer.Proxy.Reassembly.{Part}
use web_rtcsfu.Peer.Proxy.Consumers.{next_audio_frame, ready}
use web_rtcsfu.Peer.Proxy.Audio.Delivery.{AudioFrame, audio_datagram_of, receive_all-Played}

abbrev tone : AudioFrame
tone = record { client_nr = 9; frame_nr = 4; bytes = 10 ∷ 20 ∷ 30 ∷ 40 ∷ 50 ∷ [] }

abbrev back : Part
back = record { offset = 3; len = 2 }

abbrev front : Part
front = record { offset = 0; len = 3 }

abbrev listening : ProxyConnection
unfolding new_proxy_connection start_listening
listening = start_listening new_proxy_connection 1 1

receive_all-Played_example :
    (pc' : ProxyConnection) × (pc'' : ProxyConnection) × (receive_all listening
        (map (audio_datagram_of tone) (back ∷ front ∷ []))
      ≡ some (pc', wake_audio ∷ []))
    × (next_audio_frame pc' ≡ some (ready pc'' tone.bytes))
    × (lookup 4 pc''.incomplete_audio_frames ≡ none)
    × (pc''.complete_audio_frames ≡ [])
unfolding new_proxy_connection start_listening lookup insert
receive_all-Played_example =
    receive_all-Played tone listening back (front ∷ []) (omega arith) (omega arith) refl refl
      (omega arith) (λ i h. ground arith)

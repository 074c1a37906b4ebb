-- ===== src/Peer/Proxy/Waiting/Examples.antt =====
-- A goroutine that waits for a tile, is woken by the datagram that completes it, and takes it.
use web_rtcsfu.Base.{◌≡◌, refl, false, some, [], ◌∷◌, ◌++◌, nat_eq}
use web_rtcsfu.Base.Bytes.{Bytes, le_bytes}
use web_rtcsfu.Base.Map.{lookup, insert, remove}
use web_rtcsfu.Peer.Proxy.{
  receive, read_video_header, store_tile, absorb, new_tile, finish_tile, new_proxy_connection,
  start_listening,
}
use web_rtcsfu.Peer.Proxy.Types.{VideoKey, key_eq, ProxyConnection, wake_video}
use web_rtcsfu.Peer.Proxy.Consumers.{waits, next_tile, take_tile}
use web_rtcsfu.Peer.Proxy.Consumers.Taking.{has_tile}
use web_rtcsfu.Peer.Proxy.Waiting.{
  Consumer, outside, waiting, woken, place, wake, blocks, arrives, takes, Reach, start, next,
}
use web_rtcsfu.Peer.Proxy.Waiting.Found.{Reach-found, Reach-missed}
use web_rtcsfu.Peer.Proxy.Waiting.Effects.{completed}
use web_rtcsfu.Peer.Proxy.Waiting.Mailbox.{
  Mails, arrived, delivered, mailbox, events, history, Reach-Mails,
}

abbrev corner : VideoKey
corner = record { tile_nr = 0; quality = 0 }

abbrev idle_connection : ProxyConnection
unfolding new_proxy_connection start_listening
idle_connection = start_listening new_proxy_connection 1 1

-- Frame 4 in one packet of three bytes.
abbrev one_packet : Bytes
one_packet =
    le_bytes 1
    ++ le_bytes 9
    ++ le_bytes 4
    ++ le_bytes 3
    ++ le_bytes 0
    ++ le_bytes 3
    ++ le_bytes 0
    ++ le_bytes 0
    ++ 10 ∷ 20 ∷ 30 ∷ []

abbrev with_frame : ProxyConnection
with_frame = record idle_connection {
  incomplete_tiles = (corner, []) ∷ [];
  complete_tiles =
      (
        corner,
        record { frame_nr = 4; current_len = 3; file_len = 3; file_data = 10 ∷ 20 ∷ 30 ∷ [] } ∷ [],
      )
      ∷ [];
}

abbrev emptied_again : ProxyConnection
emptied_again = record with_frame { complete_tiles = [] }

abbrev all_outside : VideoKey → Consumer
all_outside key = outside

abbrev one_waits : VideoKey → Consumer
one_waits = place corner waiting all_outside

abbrev one_woken : VideoKey → Consumer
one_woken = wake (wake_video corner ∷ []) one_waits

it_waits : next_tile idle_connection corner ≡ some waits
unfolding next_tile lookup insert new_proxy_connection start_listening
it_waits = refl

it_arrives : receive idle_connection one_packet ≡ some (with_frame, wake_video corner ∷ [])
unfolding receive read_video_header store_tile absorb new_tile finish_tile new_proxy_connection
    start_listening lookup insert remove
it_arrives = refl

it_is_taken : take_tile with_frame corner ≡ some (emptied_again, 10 ∷ 20 ∷ 30 ∷ [])
unfolding take_tile lookup remove
it_is_taken = refl

wakes_up : one_woken corner ≡ woken
unfolding wake place
wakes_up = refl

goes_to_sleep : one_waits corner ≡ waiting
unfolding place
goes_to_sleep = refl

asleep : Reach idle_connection idle_connection one_waits
asleep =
    next idle_connection all_outside idle_connection one_waits start
      (blocks idle_connection all_outside corner refl it_waits)

awake : Reach idle_connection with_frame one_woken
awake =
    next idle_connection one_waits with_frame one_woken asleep
      (arrives idle_connection with_frame one_waits one_packet (wake_video corner ∷ []) it_arrives)

abbrev taken_run : Reach idle_connection emptied_again (place corner outside one_woken)
taken_run =
    next with_frame one_woken emptied_again (place corner outside one_woken) awake
      (takes with_frame emptied_again one_woken corner (10 ∷ 20 ∷ 30 ∷ []) wakes_up it_is_taken)

Reach-found_example : (now : ProxyConnection × Bytes) × (take_tile with_frame corner ≡ some now)
Reach-found_example = Reach-found idle_connection with_frame one_woken corner awake wakes_up

Reach-missed_example : has_tile (lookup corner idle_connection.complete_tiles) ≡ false
Reach-missed_example =
    Reach-missed idle_connection idle_connection one_waits corner asleep goes_to_sleep

Reach-Mails_example : Mails (mailbox idle_connection) (history taken_run) (mailbox emptied_again)
Reach-Mails_example =
    Reach-Mails idle_connection emptied_again (place corner outside one_woken) taken_run

-- The frame arrives, and it is all that is delivered.
taken_history :
    history taken_run
    ≡ arrived corner (10 ∷ 20 ∷ 30 ∷ []) ∷ delivered corner (10 ∷ 20 ∷ 30 ∷ []) ∷ []
unfolding history events completed read_video_header new_tile awake asleep new_proxy_connection
    start_listening lookup insert
taken_history = refl

-- ===== src/Sfu/System/Examples.antt =====
-- Tests of the unit with two clients: client 2 publishes a tile, and client 3 has gone again.
use web_rtcsfu.Base.{
  ℕ, ◌≡◌, refl, some, none, [], ◌∷◌, bytes_eq, nat_eq, arith, List, ltb, ◌≤◌, if◌then◌else◌,
}
use web_rtcsfu.Base.Bytes.{codes}
use web_rtcsfu.Base.Map.{lookup, insert}
use web_rtcsfu.Base.Text.{pos, format_uint, format_int, split, atoi}
use web_rtcsfu.Base.{dec_lt}
use web_rtcsfu.Sfu.Types.{TrackLocal, Peer, Sfu, ℤ_eq, audio_id, video_id}
use web_rtcsfu.Sfu.Tracks.{add_track_local, add_quality_track}
use web_rtcsfu.Sfu.Signal.{Sync, attempts}
use web_rtcsfu.Sfu.Signal.Settles.{Settled}
use web_rtcsfu.Sfu.Socket.{Query, register_qualities, register_tiles, register_client}
use web_rtcsfu.Sfu.Socket.Register.{NamingLaw}
use web_rtcsfu.Sfu.OnTrack.Keeping.{Sound}
use web_rtcsfu.Sfu.System.{
  no_clients, State, take_number, Goroutine, arrives, starting, with_left, joins, starts, works,
  Reach, start, next,
}
use web_rtcsfu.Sfu.OnTrack.{RemoteName, audio_name, video_name, read_name}
use web_rtcsfu.Sfu.OnTrack.Regions.{
  put_local, resync, update_audio, start_regions, local_track, run_region,
}
use web_rtcsfu.Sfu.Signal.Ids.{id_count}
use web_rtcsfu.Sfu.System.Ids.{Reach-single}
use web_rtcsfu.Sfu.System.Invariants.{Reach-Sound, Reach-Settled}
use web_rtcsfu.Sfu.Fake.{FakeRtc}
use web_rtcsfu.Sfu.Fake.Departed.{departed, departed-IsHealthy}

abbrev quiet : ℕ → FakeRtc
quiet n = record { next = n; senders = λ c. []; forwarded = λ x. none; received = λ c. [] }

abbrev publisher : Query
publisher = record { number_of_tiles = pos 1; number_of_qualities = pos 1; client_id = pos 2 }

abbrev watcher : Query
watcher = record { number_of_tiles = pos 0; number_of_qualities = pos 1; client_id = pos 3 }

abbrev peer_entry : ℕ → Query → Peer
peer_entry n q = record {
  connection = n;
  id = n;
  track_rtp_senders = [];
  quality_decisions = [];
  pending_candidates = [];
  client_id = q.client_id;
  number_of_tiles = q.number_of_tiles;
}

abbrev sound : TrackLocal
sound = record { handle = 0; id = codes "audio_2"; stream_id = codes "99" }

abbrev tile : TrackLocal
tile = record { handle = 1; id = codes "video_2_0"; stream_id = codes "0" }

abbrev more_sound : TrackLocal
more_sound = record { handle = 2; id = codes "audio_3"; stream_id = codes "99" }

abbrev one_client : Sfu
one_client = record {
  track_locals = (codes "audio_2", sound) ∷ (codes "video_2_0", tile) ∷ [];
  track_qualities = (codes "video_2_0", (pos 0, tile) ∷ []) ∷ [];
  peer_connections = peer_entry 1 publisher ∷ [];
}

abbrev two_clients : Sfu
two_clients = record one_client {
  track_locals =
      (codes "audio_2", sound) ∷ (codes "video_2_0", tile) ∷ (codes "audio_3", more_sound) ∷ [];
  peer_connections = peer_entry 1 publisher ∷ peer_entry 3 watcher ∷ [];
}

departed-NamingLaw : NamingLaw departed
departed-NamingLaw = record { named = λ rtc id stream_id t rtc' e. cc }

first_joins :
    register_client departed no_clients (quiet 0) 1 1 publisher ≡ some (one_client, quiet 2)
unfolding register_client no_clients register_tiles register_qualities add_track_local
    add_quality_track audio_id video_id format_uint format_int insert lookup dec_lt
first_joins = refl

second_joins :
    register_client departed one_client (quiet 2) 3 3 watcher ≡ some (two_clients, quiet 3)
unfolding register_client register_tiles register_qualities add_track_local add_quality_track
    audio_id video_id format_uint format_int insert lookup dec_lt
second_joins = refl

-- The unit with two callbacks that run, or none, after four handlers have taken a number.
abbrev state : Sfu → FakeRtc → List Goroutine → List ℕ → State departed
state s rtc callbacks registering = record {
  sfu = s;
  rtc = rtc;
  callbacks = callbacks;
  pc_id = 4;
  registering = registering;
}

abbrev nobody : ℕ → List ℕ → State departed
nobody pc_id registering = record {
  sfu = no_clients;
  rtc = quiet 0;
  callbacks = [];
  pc_id = pc_id;
  registering = registering;
}

four_numbers : Reach departed (nobody 4 (3 ∷ 2 ∷ 1 ∷ 0 ∷ []))
unfolding take_number
four_numbers =
    next (nobody 3 (2 ∷ 1 ∷ 0 ∷ [])) (nobody 4 (3 ∷ 2 ∷ 1 ∷ 0 ∷ []))
      (next (nobody 2 (1 ∷ 0 ∷ [])) (nobody 3 (2 ∷ 1 ∷ 0 ∷ []))
        (next (nobody 1 (0 ∷ [])) (nobody 2 (1 ∷ 0 ∷ []))
          (next (nobody 0 []) (nobody 1 (0 ∷ [])) (start (quiet 0)) (arrives (nobody 0 [])))
          (arrives (nobody 1 (0 ∷ []))))
        (arrives (nobody 2 (1 ∷ 0 ∷ []))))
      (arrives (nobody 3 (2 ∷ 1 ∷ 0 ∷ [])))

abbrev both : State departed
both = state two_clients (quiet 3) [] (2 ∷ 0 ∷ [])

both-Reach : Reach departed both
both-Reach =
    let one = state one_client (quiet 2) [] (3 ∷ 2 ∷ 0 ∷ []) in
    next one both
      (next (nobody 4 (3 ∷ 2 ∷ 1 ∷ 0 ∷ [])) one four_numbers (
        joins (nobody 4 (3 ∷ 2 ∷ 1 ∷ 0 ∷ [])) 1 1 (3 ∷ 2 ∷ []) (0 ∷ []) publisher
          (one_client, quiet 2) refl first_joins))
      (joins one 3 3 [] (2 ∷ 0 ∷ []) watcher (two_clients, quiet 3) refl second_joins)

-- The second track of client 2's audio, and of its tile.
abbrev newer_sound : TrackLocal
newer_sound = record { handle = 3; id = codes "audio_2"; stream_id = codes "5" }

abbrev newer_tile : TrackLocal
newer_tile = record { handle = 4; id = codes "video_2_0"; stream_id = codes "0" }

abbrev tile_name : RemoteName
tile_name = video_name (pos 2) (pos 0) (pos 0)

-- Both callbacks have started, and the audio has taken its first region: the tile is not yet there.
abbrev audio_first : State departed
audio_first = record both {
  sfu = record two_clients {
    track_locals =
        (codes "audio_2", newer_sound)
        ∷ (codes "video_2_0", tile)
        ∷ (codes "audio_3", more_sound)
        ∷ [];
  };
  rtc = quiet 5;
  callbacks =
      starting tile_name newer_tile (start_regions tile_name newer_tile)
      ∷ starting audio_name newer_sound (resync ∷ update_audio newer_sound ∷ [])
      ∷ [];
}

tile_read : read_name (codes "video_2_0_0") ≡ some tile_name
unfolding read_name split atoi
tile_read = refl

sound_read : read_name (codes "audio_2") ≡ some audio_name
unfolding read_name split
sound_read = refl

tile_made :
    local_track departed tile_name (quiet 4) (codes "video_2_0_0") (codes "0")
    ≡ some (newer_tile, quiet 5)
unfolding local_track video_id format_int format_uint dec_lt
tile_made = refl

sound_made :
    local_track departed audio_name (quiet 3) (codes "audio_2") (codes "5")
    ≡ some (newer_sound, quiet 4)
unfolding local_track
sound_made = refl

audio_first-Reach : Reach departed audio_first
unfolding start_regions with_left run_region add_track_local insert
audio_first-Reach =
    let a : State departed = record both {
      rtc = quiet 4;
      callbacks = starting audio_name newer_sound (start_regions audio_name newer_sound) ∷ [];
    } in
    let b : State departed = record both {
      rtc = quiet 5;
      callbacks =
          starting tile_name newer_tile (start_regions tile_name newer_tile)
          ∷ starting audio_name newer_sound (start_regions audio_name newer_sound)
          ∷ [];
    } in
    next b audio_first
      (next a b
        (next both a both-Reach (
          starts both (codes "audio_2") (codes "5") audio_name (newer_sound, quiet 4) sound_read
            sound_made))
        (starts a (codes "video_2_0_0") (codes "0") tile_name (newer_tile, quiet 5) tile_read
          tile_made))
      (works b (starting audio_name newer_sound (start_regions audio_name newer_sound))
        (put_local newer_sound) (resync ∷ update_audio newer_sound ∷ [])
        (starting tile_name newer_tile (start_regions tile_name newer_tile) ∷ []) []
        (audio_first.sfu, quiet 5) refl refl refl)

Reach-Sound_example : Sound audio_first.sfu
Reach-Sound_example = Reach-Sound departed departed-NamingLaw audio_first audio_first-Reach

-- Client 3 is dropped by the first call, and client 2 gets its offer from the second.
Reach-Settled_example :
    (r : Sync departed) × (attempts departed 2 audio_first.sfu audio_first.rtc ≡ some r)
    × Settled departed audio_first.rtc audio_first.sfu.peer_connections r
Reach-Settled_example =
    Reach-Settled departed departed-NamingLaw departed-IsHealthy audio_first 2 audio_first-Reach
      (λ c. tt) (omega arith)

Reach-single_example :
    id_count 3 audio_first.sfu.peer_connections ≤ (if ltb 3 audio_first.pc_id then 1 else 0)
Reach-single_example = Reach-single departed departed-NamingLaw audio_first audio_first-Reach 3

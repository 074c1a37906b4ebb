-- ===== src/Sfu/Tracks/Examples.antt =====
-- The theorems on tracks and qualities at two clients, one of which watches the other's tile.
use web_rtcsfu.Base.{◌≡◌, some, bytes_eq, nat_eq, if◌then◌else◌}
use web_rtcsfu.Base.Text.{pos}
use web_rtcsfu.Sfu.Types.{ℤ_eq}
use web_rtcsfu.Sfu.Tracks.{update_client_track_state_quality}
use web_rtcsfu.Sfu.Tracks.Updates.{serves_at, update-serves_at}
use web_rtcsfu.Sfu.Fake.{fake, fake_law, high, room, media}

update-serves_at_example :
    fake.sender_track
      (update_client_track_state_quality fake high (pos 0) room.peer_connections media)
      5
    ≡ (if serves_at high.id (pos 0) 5 room.peer_connections
        then some high
        else fake.sender_track media 5)
update-serves_at_example = update-serves_at fake fake_law high (pos 0) room.peer_connections media 5

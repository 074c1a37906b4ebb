-- ===== src/Peer/Tracks/Examples.antt =====
-- A client with three tiles of two qualities.
use web_rtcsfu.Base.{◌≡◌, some, [], arith, ◌+◌, ◌*◌}
use web_rtcsfu.Base.Text.{pos, format_int}
use web_rtcsfu.Peer.Tracks.{video_tracks, put_tracks, track_of, video_track_id}
use web_rtcsfu.Peer.Tracks.Found.{video_tracks-found}

video_tracks-found_example :
    track_of (put_tracks (video_tracks (pos 7) 3 2) []) 2 1
    ≡ some (record {
      id = video_track_id (pos 7) 2 1;
      stream_id = format_int (pos (1 * 3 + 2));
      tile_nr = 2;
      quality = 1;
    })
video_tracks-found_example =
    video_tracks-found (pos 7) 3 2 2 1 (omega arith) (omega arith) (omega arith) (omega arith)
      (omega arith)

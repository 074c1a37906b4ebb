-- ===== src/Peer/Tracks.antt =====
-- peer/main.go: the IDs of the tracks that a client makes, one for its audio and one for each tile and
-- quality, and the map in which the goroutines that send find them.
pub mod Found
mod Examples
use web_rtcsfu.Base.{ℕ, zero, suc, ◌+◌, ◌*◌, Option, List, [], ◌∷◌, ◌++◌}
use web_rtcsfu.Base.Bytes.{Bytes, codes, u32}
use web_rtcsfu.Base.Map.{Map, lookup, insert}
use web_rtcsfu.Base.Text.{ℤ, pos, format_uint, format_int, wrap_int}
use web_rtcsfu.Peer.Proxy.Types.{VideoKey, key_eq}

unfoldable pub audio_track_id : ℤ → Bytes
audio_track_id client_id = codes "audio_" ++ format_int client_id

unfoldable pub video_track_id : ℤ → ℕ → ℕ → Bytes
video_track_id client_id t q =
    codes "video_" ++ format_int client_id ++ b'_' ∷ (format_uint t ++ b'_' ∷ format_uint q)

-- The arguments of `NewTrackLocalCloudRTP` for one tile and quality.
pub record TrackArguments : Type 0 where
  pub id : Bytes
  pub stream_id : Bytes
  pub tile_nr : ℕ  -- uint32
  pub quality : ℕ  -- uint32

pub track_arguments : ℤ → ℕ → ℕ → ℕ → TrackArguments
track_arguments client_id n_tiles t q = record {
  id = video_track_id client_id t q;
  stream_id = format_int (wrap_int (pos (q * n_tiles + t)));
  tile_nr = u32 t;
  quality = u32 q;
}

-- `for q := 0; q < *nQualities; q++`
tile_tracks : ℤ → ℕ → ℕ → ℕ → ℕ → List TrackArguments
tile_tracks client_id n_tiles t q zero = []
tile_tracks client_id n_tiles t q (suc left) =
    track_arguments client_id n_tiles t q ∷ tile_tracks client_id n_tiles t (q + 1) left

-- `for t := 0; t < *nTiles; t++`
tracks_from : ℤ → ℕ → ℕ → ℕ → ℕ → List TrackArguments
tracks_from client_id n_tiles n_qualities t zero = []
tracks_from client_id n_tiles n_qualities t (suc left) =
    tile_tracks client_id n_tiles t 0 n_qualities
    ++ tracks_from client_id n_tiles n_qualities (t + 1) left

unfoldable pub video_tracks : ℤ → ℕ → ℕ → List TrackArguments
unfolding tracks_from tile_tracks
video_tracks client_id n_tiles n_qualities = tracks_from client_id n_tiles n_qualities 0 n_tiles

-- `videoTracks[VideoKey{uint32(t), uint32(q)}] = videoTrack`, for one track after another.
pub put_tracks : List TrackArguments → Map VideoKey TrackArguments → Map VideoKey TrackArguments
put_tracks [] tracks = tracks
put_tracks (a ∷ rest) tracks =
    put_tracks rest (insert (record { tile_nr = a.tile_nr; quality = a.quality }) a tracks)

-- The track of the goroutine for a tile and a quality; a missing one is a nil pointer.
pub track_of : Map VideoKey TrackArguments → ℕ → ℕ → Option TrackArguments
track_of tracks t q = lookup (record { tile_nr = u32 t; quality = u32 q }) tracks

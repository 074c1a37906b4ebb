-- ===== src/Sfu/OnTrack/Regions.antt =====
-- sfu/main.go: the callback for a track as the regions that it runs under the locks, one after another.
-- Between two of them other goroutines run theirs. `none` is a panic.
pub mod Callback
pub mod Announced
pub mod Ready
use web_rtcsfu.Base.{Option, some, List, [], ◌∷◌, ◌++◌, ◌>>=◌, ◌==◌, if◌then◌else◌}
use web_rtcsfu.Base.Bytes.{Bytes}
use web_rtcsfu.Base.Text.{ℤ, pos, format_int}
use web_rtcsfu.Sfu.Types.{TrackLocal, Sfu, Library, ℤ_eq, video_id}
use web_rtcsfu.Sfu.Tracks.{
  add_track_local, remove_track_local, add_quality_track, update_client_track_state,
  update_client_track_state_quality,
}
use web_rtcsfu.Sfu.Signal.{signal_peer_connections}
use web_rtcsfu.Sfu.OnTrack.{RemoteName, audio_name, video_name}

-- What is done without giving a lock up: `addQualityTrack`; the map writes of `addTrack` and
-- `removeTrack`, up to the unlock in their deferred functions; `signalPeerConnections`, which those
-- functions call then; `updateClientTrackState` and `updateClientTrackStateQuality`.
pub data Region : Type 0 where
  put_quality : TrackLocal → ℤ → Bytes → Region
  put_local : TrackLocal → Region
  drop_local : TrackLocal → Region
  resync : Region
  update_audio : TrackLocal → Region
  update_video : TrackLocal → ℤ → Region

-- `if quality == 0 { addTrack(&pcState, trackLocal, true) }`
unfoldable pub first_regions : TrackLocal → ℤ → List Region
first_regions t quality = if quality == pos 0 then put_local t ∷ resync ∷ [] else []

-- The callback up to its loop over the packets, from the new local track on.
unfoldable pub start_regions : RemoteName → TrackLocal → List Region
unfolding first_regions
start_regions audio_name t = put_local t ∷ resync ∷ update_audio t ∷ []
start_regions (video_name client_id tile_id quality) t =
    put_quality t quality (video_id client_id tile_id)
    ∷ (first_regions t quality ++ update_video t quality ∷ [])

-- What is deferred to the end of the callback: `removeTrack`, for an audio track.
pub end_regions : RemoteName → TrackLocal → List Region
end_regions audio_name t = drop_local t ∷ resync ∷ []
end_regions (video_name client_id tile_id quality) t = []

module _ (lib : Library) where
  open lib use {Rtc, new_track}

  -- The new local track.
  unfoldable pub local_track : RemoteName → Rtc → Bytes → Bytes → Option (TrackLocal × Rtc)
  local_track audio_name rtc id stream_id = new_track rtc id stream_id
  local_track (video_name client_id tile_id quality) rtc id stream_id =
      new_track rtc (video_id client_id tile_id) (format_int tile_id)

  unfoldable pub run_region : Region → Sfu → Rtc → Option (Sfu × Rtc)
  run_region (put_quality t quality new_id) s rtc = some (add_quality_track s t quality new_id, rtc)
  run_region (put_local t) s rtc = some (add_track_local s t, rtc)
  run_region (drop_local t) s rtc = some (remove_track_local s t, rtc)
  run_region resync s rtc = signal_peer_connections lib s rtc >>= λ sync.
      some (record s { peer_connections = sync.peers }, sync.rtc)
  run_region (update_audio t) s rtc =
      some (s, update_client_track_state lib t s.peer_connections rtc)
  run_region (update_video t quality) s rtc =
      some (s, update_client_track_state_quality lib t quality s.peer_connections rtc)

  -- Regions with nothing of other goroutines in between.
  pub run_regions : List Region → Sfu → Rtc → Option (Sfu × Rtc)
  run_regions [] s rtc = some (s, rtc)
  run_regions (region ∷ rest) s rtc =
      run_region region s rtc >>= λ now. run_regions rest now.0 now.1

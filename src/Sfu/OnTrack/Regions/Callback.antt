-- ===== src/Sfu/OnTrack/Regions/Callback.antt =====
-- The callback is the run of its regions.
use web_rtcsfu.Base.{◌≡◌, refl, Option, none, some, ◌>>=◌, ◌==◌, Bool-cases, Option-cases, inl, inr}
use web_rtcsfu.Base.Bytes.{Bytes}
use web_rtcsfu.Base.Text.{pos, format_int}
use web_rtcsfu.Sfu.Types.{TrackLocal, Sfu, Library, ℤ_eq, video_id}
use web_rtcsfu.Sfu.Tracks.{add_track_local, remove_track_local, add_quality_track}
use web_rtcsfu.Sfu.Signal.{signal_peer_connections}
use web_rtcsfu.Sfu.OnTrack.{
  RemoteName, audio_name, video_name, read_name, Started, on_track, start_named, start_audio,
  start_video, add_first_quality, add_track_and_signal, remove_track_and_signal,
}
use web_rtcsfu.Sfu.OnTrack.Regions.{
  start_regions, end_regions, first_regions, local_track, run_region, run_regions,
}

module _ (lib : Library) where
  -- What is left of a callback's result: the maps, the peers, and the library's state.
  abbrev pub outcome : Option (Started lib) → Option (Sfu × lib.Rtc)
  outcome none = none
  outcome (some r) = some (r.sfu, r.rtc)

  abbrev pub callback_regions : Sfu → lib.Rtc → Bytes → Bytes → Option (Sfu × lib.Rtc)
  callback_regions s rtc id stream_id = do
    name ← read_name id
    made ← local_track lib name rtc id stream_id
    run_regions lib (start_regions name (made.0)) s (made.1)

  by_name :
      (name : RemoteName) (s : Sfu) (rtc : lib.Rtc) (id stream_id : Bytes)
      → outcome (start_named lib s rtc id stream_id name) ≡ (
          local_track lib name rtc id stream_id >>= λ made.
          run_regions lib (start_regions name (made.0)) s (made.1))
  unfolding start_named start_audio start_video add_first_quality add_track_and_signal local_track
      start_regions first_regions run_regions run_region
  by_name audio_name s rtc id stream_id = elim (Option-cases (lib.new_track rtc id stream_id)) [
    | inl failed ↦ rw (failed, ◌>>=◌) refl
    | inr (made, fresh) ↦
        elim (Option-cases (signal_peer_connections lib (add_track_local s (made.0)) (made.1))) [
          | inl failed ↦ rw (fresh, failed, ◌>>=◌) refl
          | inr (sync, run) ↦ rw (fresh, run, ◌>>=◌) refl
        ]
  ]
  by_name (video_name client_id tile_id quality) s rtc id stream_id =
      elim (Option-cases (lib.new_track rtc (video_id client_id tile_id) (format_int tile_id))) [
        | inl failed ↦ rw (failed, ◌>>=◌) refl
        | inr (made, fresh) ↦
            let s' = add_quality_track s (made.0) quality (video_id client_id tile_id) in
            elim (Bool-cases (quality == pos 0)) [
              | inl first ↦
                  elim (Option-cases
                    (signal_peer_connections lib (add_track_local s' (made.0)) (made.1))) [
                      | inl failed ↦ rw (fresh, first, failed, ◌>>=◌) refl
                      | inr (sync, run) ↦ rw (fresh, first, run, ◌>>=◌) refl
                    ]
              | inr other ↦ rw (fresh, other, ◌>>=◌) refl
            ]
      ]

  -- The callback for a track gets as far as its loop over the packets, with some maps, peers and
  -- library state, exactly if its ID can be read, the new track is made, and the regions that the
  -- callback runs under the locks, one after another with nothing of other goroutines in between,
  -- end in the same maps, peers and library state; it panics exactly if one of these does.
  pub on_track-regions :
      (s : Sfu) (rtc : lib.Rtc) (id stream_id : Bytes)
      → outcome (on_track lib s rtc id stream_id) ≡ callback_regions s rtc id stream_id
  unfolding on_track
  on_track-regions s rtc id stream_id = elim (Option-cases (read_name id)) [
    | inl failed ↦ rw (failed, ◌>>=◌) refl
    | inr (name, read) ↦ rw (read, ◌>>=◌) (by_name name s rtc id stream_id)
  ]

  -- `removeTrack` is the run of what is deferred.
  pub remove_track_and_signal-regions :
      (s : Sfu) (rtc : lib.Rtc) (t : TrackLocal)
      → (remove_track_and_signal lib s rtc t >>= λ r. some (r.0, r.1))
        ≡ run_regions lib (end_regions audio_name t) s rtc
  unfolding remove_track_and_signal end_regions run_regions run_region
  remove_track_and_signal-regions s rtc t =
      elim (Option-cases (signal_peer_connections lib (remove_track_local s t) rtc)) [
        | inl failed ↦ rw (failed, ◌>>=◌) refl
        | inr (sync, run) ↦ rw (run, ◌>>=◌) refl
      ]

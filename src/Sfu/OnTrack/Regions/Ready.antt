-- ===== src/Sfu/OnTrack/Regions/Ready.antt =====
-- What a goroutine relies on between its regions, and that the regions of others keep it.
use web_rtcsfu.Base.{
  ◌≡◌, ◌≢◌, ap, ◌∙◌, true, false, none, some, List, [], ◌∷◌, ◌==◌, bytes_eq, Bool-cases, inl, inr,
  >>=-eq_some, arith, beq_refl,
}
use web_rtcsfu.Base.Bytes.{Bytes}
use web_rtcsfu.Base.Text.{ℤ, pos, format_int}
use web_rtcsfu.Sfu.Types.{TrackLocal, Sfu, Library, ℤ_eq, video_id}
use web_rtcsfu.Sfu.Tracks.{
  add_track_local, remove_track_local, add_quality_track, is_audio, track_quality,
  update_client_track_state, update_client_track_state_quality,
}
use web_rtcsfu.Sfu.Tracks.Growing.{track_quality-add, add_quality_track-Grows}
use web_rtcsfu.Sfu.Tracks.Publishing.{
  add_track_local-IsPublished, remove_track_local-IsPublished, add_quality_track-IsPublished,
}
use web_rtcsfu.Sfu.Signal.{signal_peer_connections}
use web_rtcsfu.Sfu.Signal.Turns.{signal-NoLoopback}
use web_rtcsfu.Sfu.Socket.Register.{NamingLaw}
use web_rtcsfu.Sfu.OnTrack.{RemoteName, audio_name, video_name, read_name}
use web_rtcsfu.Sfu.OnTrack.Keeping.{Sound, is_audio-audio_name}
use web_rtcsfu.Sfu.OnTrack.Regions.{
  Region, put_quality, put_local, drop_local, resync, update_audio, update_video, start_regions,
  end_regions, first_regions, local_track, run_region,
}

-- No quality of a tile is lost.
abbrev pub Keeps : Sfu → Sfu → Type 0
Keeps s s' = (id : Bytes) (q : ℤ) → track_quality s id q ≢ none → track_quality s' id q ≢ none

-- A track that is not an audio track has its first quality by the time it is listed.
abbrev pub Ready : Sfu → List Region → Type 0
Ready s [] = Unit {0}
Ready s (put_quality t quality new_id ∷ rest) = Ready (add_quality_track s t quality new_id) rest
Ready s (put_local t ∷ rest) =
    (is_audio t.id ≡ some false → track_quality s t.id (pos 0) ≢ none) × Ready s rest
Ready s (drop_local t ∷ rest) = Ready s rest
Ready s (resync ∷ rest) = Ready s rest
Ready s (update_audio t ∷ rest) = Ready s rest
Ready s (update_video t quality ∷ rest) = Ready s rest

add_quality_track-Keeps :
    (s s' : Sfu) (t : TrackLocal) (quality : ℤ) (new_id : Bytes)
    → Keeps s s'
    → Keeps (add_quality_track s t quality new_id) (add_quality_track s' t quality new_id)
add_quality_track-Keeps s s' t quality new_id h id q =
    rw (track_quality-add s t quality q new_id id, track_quality-add s' t quality q new_id id)
      (let kept = h id q in ground arith)

pub Ready-Keeps :
    (s s' : Sfu) (regions : List Region) → Keeps s s' → Ready s regions → Ready s' regions
Ready-Keeps s s' [] h ready = tt
Ready-Keeps s s' (put_quality t quality new_id ∷ rest) h ready =
    Ready-Keeps (add_quality_track s t quality new_id) (add_quality_track s' t quality new_id) rest
      (add_quality_track-Keeps s s' t quality new_id h) ready
Ready-Keeps s s' (put_local t ∷ rest) h (now, ready) =
    (λ video. h t.id (pos 0) (now video), Ready-Keeps s s' rest h ready)
Ready-Keeps s s' (drop_local t ∷ rest) h ready = Ready-Keeps s s' rest h ready
Ready-Keeps s s' (resync ∷ rest) h ready = Ready-Keeps s s' rest h ready
Ready-Keeps s s' (update_audio t ∷ rest) h ready = Ready-Keeps s s' rest h ready
Ready-Keeps s s' (update_video t quality ∷ rest) h ready = Ready-Keeps s s' rest h ready

-- A goroutine starts ready, whatever the maps hold.
pub start_regions-Ready :
    (lib : Library) (naming : NamingLaw lib) (name : RemoteName) (s : Sfu) (rtc : lib.Rtc)
    (id stream_id : Bytes) (made : TrackLocal × lib.Rtc)
    → read_name id ≡ some name
    → local_track lib name rtc id stream_id ≡ some made
    → Ready s (start_regions name (made.0))
unfolding start_regions first_regions local_track
start_regions-Ready lib naming audio_name s rtc id stream_id made read fresh =
    let audio : is_audio made.0.id ≡ some true =
      ap is_audio (naming.named rtc id stream_id (made.0) (made.1) fresh)
      ∙ is_audio-audio_name id read in
    (λ video. absurd (cc (video, audio)), tt)
start_regions-Ready lib naming (video_name client_id tile_id quality) s rtc id stream_id made read
      fresh =
    let new_id = video_id client_id tile_id in
    let named : made.0.id ≡ new_id =
      naming.named rtc new_id (format_int tile_id) (made.0) (made.1) fresh in
    elim (Bool-cases (quality == pos 0)) [
      | inl first ↦ rw first (
        λ video.
            rw
              (
                track_quality-add s (made.0) quality (pos 0) new_id made.0.id,
                named,
                beq_refl new_id,
                first,
              )
              (λ e. cc e),
        tt,
      )
      | inr other ↦ rw other tt
    ]

pub end_regions-Ready :
    (name : RemoteName) (t : TrackLocal) (s : Sfu) → Ready s (end_regions name t)
unfolding end_regions
end_regions-Ready audio_name t s = tt
end_regions-Ready (video_name client_id tile_id quality) t s = tt

-- What one region does to what is known of the unit.
pub record Progress (s s' : Sfu) (rest : List Region) : Type 0 where
  pub sound : Sound s'
  pub keeps : Keeps s s'
  pub ready : Ready s' rest

module _ (lib : Library) where
  resync-Progress :
      (s : Sfu) (rtc : lib.Rtc) (rest : List Region) (now : Sfu × lib.Rtc)
      → run_region lib resync s rtc ≡ some now
      → Sound s
      → Ready s rest
      → Progress s now.0 rest
  unfolding run_region
  resync-Progress s rtc rest now e h ready =
      let (sync, run, last) = >>=-eq_some (signal_peer_connections lib s rtc) _ now e in
      let here : (record s { peer_connections = sync.peers }, sync.rtc) ≡ now = cc last in
      rw (← here) (record {
        sound = record {
          published = h.published;
          no_loopback = signal-NoLoopback lib s rtc sync h.no_loopback run;
        };
        keeps = λ id q k. k;
        ready = Ready-Keeps s (record s { peer_connections = sync.peers }) rest (λ id q k. k) ready;
      })

  pub run_region-Progress :
      (region : Region) (rest : List Region) (s : Sfu) (rtc : lib.Rtc) (now : Sfu × lib.Rtc)
      → run_region lib region s rtc ≡ some now
      → Sound s
      → Ready s (region ∷ rest)
      → Progress s now.0 rest
  unfolding run_region
  run_region-Progress (put_quality t quality new_id) rest s rtc now e h ready =
      let s' = add_quality_track s t quality new_id in
      let here : (s', rtc) ≡ now = cc e in
      rw (← here) (record {
        sound = record {
          published = add_quality_track-IsPublished s t quality new_id h.published;
          no_loopback = (unfold add_quality_track in h.no_loopback);
        };
        keeps = (add_quality_track-Grows s t quality new_id).qualities;
        ready = ready;
      })
  run_region-Progress (put_local t) rest s rtc now e h (first, ready) =
      let s' = add_track_local s t in
      let here : (s', rtc) ≡ now = cc e in
      let keeps : Keeps s s' = (λ id q k. unfold add_track_local in k) in
      rw (← here) (record {
        sound = record {
          published = add_track_local-IsPublished s t first h.published;
          no_loopback = (unfold add_track_local in h.no_loopback);
        };
        keeps = keeps;
        ready = Ready-Keeps s s' rest keeps ready;
      })
  run_region-Progress (drop_local t) rest s rtc now e h ready =
      let s' = remove_track_local s t in
      let here : (s', rtc) ≡ now = cc e in
      let keeps : Keeps s s' = (λ id q k. unfold remove_track_local in k) in
      rw (← here) (record {
        sound = record {
          published = remove_track_local-IsPublished s t h.published;
          no_loopback = (unfold remove_track_local in h.no_loopback);
        };
        keeps = keeps;
        ready = Ready-Keeps s s' rest keeps ready;
      })
  run_region-Progress resync rest s rtc now e h ready = resync-Progress s rtc rest now e h ready
  run_region-Progress (update_audio t) rest s rtc now e h ready =
      let here : (s, update_client_track_state lib t s.peer_connections rtc) ≡ now = cc e in
      rw (← here) (record { sound = h; keeps = λ id q k. k; ready = ready })
  run_region-Progress (update_video t quality) rest s rtc now e h ready =
      let here : (s, update_client_track_state_quality lib t quality s.peer_connections rtc) ≡ now =
        cc e in
      rw (← here) (record { sound = h; keeps = λ id q k. k; ready = ready })

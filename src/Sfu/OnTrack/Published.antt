-- ===== src/Sfu/OnTrack/Published.antt =====
-- What is published, and who forwards it, once the callback for a video track has run.
use web_rtcsfu.Base.{
  ℕ, ◌^◌, ◌<◌, ◌≡◌, refl, ap, ◌∙◌, subst, false, some, List, [], ◌==◌, bytes_eq, if◌then◌else◌,
  Bool-cases, inl, inr, ◌⊎◌, >>=-eq_some,
}
use web_rtcsfu.Base.Bytes.{Bytes}
use web_rtcsfu.Base.Map.{lookup, insert}
use web_rtcsfu.Base.Text.{ℤ, pos, format_int}
use web_rtcsfu.Base.Text.Numbers.{IsInt}
use web_rtcsfu.Sfu.Types.{TrackLocal, Sfu, Library, ℤ_eq, video_id}
use web_rtcsfu.Sfu.Tracks.{
  track_quality, inner, add_track_local, add_quality_track, update_client_track_state_quality,
}
use web_rtcsfu.Sfu.Tracks.Growing.{track_quality-add}
use web_rtcsfu.Sfu.Tracks.Quality.{ReplaceLaw}
use web_rtcsfu.Sfu.Tracks.Updates.{serves_at, update-serves_at}
use web_rtcsfu.Sfu.Signal.{signal_peer_connections}
use web_rtcsfu.Sfu.Socket.Register.{NamingLaw}
use web_rtcsfu.Sfu.OnTrack.{
  Started, on_track, start_named, start_video, add_first_quality, add_track_and_signal,
}
use web_rtcsfu.Sfu.OnTrack.Names.{read_name-video_track_id}
use web_rtcsfu.Peer.Tracks.{video_track_id}

module _ (lib : Library) (naming : NamingLaw lib) (law : ReplaceLaw lib) where
  -- The maps after the first part of the callback: an entry for the first quality, and no other change.
  abbrev Stored : Sfu → TrackLocal → ℤ → Sfu → Type 0
  Stored s t quality s' =
      (s'.track_qualities ≡ s.track_qualities)
      × (s'.track_locals
          ≡ (if quality == pos 0 then insert t.id t s.track_locals else s.track_locals))

  add_first_quality-Stored :
      (s : Sfu) (rtc : lib.Rtc) (t : TrackLocal) (quality : ℤ)
      (r : Sfu × lib.Rtc × List (ℕ × Bytes))
      → add_first_quality lib s rtc t quality ≡ some r
      → Stored s t quality r.0
  unfolding add_first_quality add_track_and_signal add_track_local
  add_first_quality-Stored s rtc t quality r e = elim (Bool-cases (quality == pos 0)) [
    | inr other ↦
        let same : some (s, rtc, []) ≡ some r = rw other at e in
        let here : (s, rtc, []) ≡ r = cc in rw (← here) (refl, rw other refl)
    | inl first ↦
        let (sync, run, last) =
          >>=-eq_some (signal_peer_connections lib (add_track_local s t) rtc) _ r (rw first at e) in
        let here : (
          record (add_track_local s t) { peer_connections = sync.peers },
          sync.rtc,
          sync.offers,
        )
            ≡ r =
          cc last in
        rw (← here) (refl, rw first refl)
  ]

  -- What the callback for a video track of this quality leaves behind.
  abbrev pub Announced : Sfu → ℤ → ℤ → ℤ → Started lib → Type 0
  Announced s client_id tile_id quality r =
      let id = video_id client_id tile_id in
      (r.track.id ≡ id)
      × ((other : Bytes) (q : ℤ)
          → track_quality r.sfu other q ≡ (
              if id == other
              then (if quality == q then some r.track else track_quality s other q)
              else track_quality s other q))
      × (r.sfu.track_locals
          ≡ (if quality == pos 0 then insert id r.track s.track_locals else s.track_locals))
      × ((x : ℕ)
          → lib.sender_track r.rtc x ≡ some r.track
            ⊎ (serves_at id quality x r.sfu.peer_connections ≡ false))

  announced :
      (s : Sfu) (client_id tile_id quality : ℤ) (t : TrackLocal) (s' : Sfu) (rtc' : lib.Rtc)
      (offers : List (ℕ × Bytes))
      → t.id ≡ video_id client_id tile_id
      → Stored (add_quality_track s t quality (video_id client_id tile_id)) t quality s'
      → Announced s client_id tile_id quality (record {
        sfu = s';
        rtc = update_client_track_state_quality lib t quality s'.peer_connections rtc';
        offers = offers;
        track = t;
      })
  announced s client_id tile_id quality t s' rtc' offers name (kept, stored) =
      let id = video_id client_id tile_id in
      (
        name,
        λ other q.
            ap (λ m. lookup q (inner (lookup other m))) kept
            ∙ track_quality-add s t quality q id other,
        rw (← name) (stored ∙ (unfold add_quality_track in refl)),
        λ x. elim (Bool-cases (serves_at id quality x s'.peer_connections)) [
          | inr none_such ↦ inr none_such
          | inl served ↦ inl (
              update-serves_at lib law t quality s'.peer_connections rtc' x
              ∙ (rw (name, served) refl))
        ],
      )

  start_video-Announced :
      (s : Sfu) (rtc : lib.Rtc) (client_id tile_id quality : ℤ) (r : Started lib)
      → start_video lib s rtc client_id tile_id quality ≡ some r
      → Announced s client_id tile_id quality r
  unfolding start_video
  start_video-Announced s rtc client_id tile_id quality r e =
      let id = video_id client_id tile_id in
      let (made, fresh, e0) = >>=-eq_some (lib.new_track rtc id (format_int tile_id)) _ r e in
      let (now, run, e1) =
        >>=-eq_some
          (add_first_quality lib (add_quality_track s (made.0) quality id) (made.1) (made.0)
            quality)
          _ r e0 in
      let here : record {
        sfu = now.0;
        rtc = update_client_track_state_quality lib (made.0) quality now.0.peer_connections (now.1);
        offers = now.2;
        track = made.0;
      }
          ≡ r =
        cc e1 in
      subst (λ x. Announced s client_id tile_id quality x) here
        (announced s client_id tile_id quality (made.0) (now.0) (now.1) (now.2)
          (naming.named rtc id (format_int tile_id) (made.0) (made.1) fresh)
          (add_first_quality-Stored (add_quality_track s (made.0) quality id) (made.1) (made.0)
            quality now run))

  -- Let a new track have the ID that it is asked for, and let `ReplaceTrack` set the track of its
  -- sender only. If the callback gets through for a track with the ID that a client gives to tile
  -- t at quality q (the client's number an int, t and q below 2^63), then its new track has the ID
  -- of the tile without the quality; it is the tile's track at this quality, and every other entry
  -- of `trackQualities` is as before; `trackLocals` has it if q is 0 and is unchanged otherwise;
  -- and each sender that some peer has for this ID with this quality decided forwards it.
  pub on_track-Announced :
      (s : Sfu) (rtc : lib.Rtc) (client_id : ℤ) (t q : ℕ) (stream_id : Bytes) (r : Started lib)
      → IsInt client_id
      → t < 2 ^ 63
      → q < 2 ^ 63
      → on_track lib s rtc (video_track_id client_id t q) stream_id ≡ some r
      → Announced s client_id (pos t) (pos q) r
  unfolding on_track start_named
  on_track-Announced s rtc client_id t q stream_id r int small low e =
      start_video-Announced s rtc client_id (pos t) (pos q) r
        (rw (read_name-video_track_id client_id t q int small low) at e)

-- ===== src/Sfu/OnTrack/Names.antt =====
-- The IDs that a client gives to its tracks, as the unit reads them.
use web_rtcsfu.Base.{ℕ, ◌^◌, ◌<◌, ◌≡◌, refl, ap, ◌∙◌, some, [], ◌∷◌, arith, bytes_eq}
use web_rtcsfu.Base.Bytes.{codes}
use web_rtcsfu.Base.Text.{ℤ, pos, split, format_uint, format_int}
use web_rtcsfu.Base.Text.Laws.{Lacks, split-append, split-Lacks}
use web_rtcsfu.Base.Text.Numbers.{IsInt, atoi-format_int, format_int-Lacks}
use web_rtcsfu.Peer.Tracks.{audio_track_id, video_track_id}
use web_rtcsfu.Sfu.Types.{video_id, audio_id}
use web_rtcsfu.Sfu.Signal.{received_id}
use web_rtcsfu.Sfu.OnTrack.{audio_name, video_name, read_name, read_video_name}

no_mark : (z : ℤ) → Lacks b'_' (format_int z)
no_mark z = format_int-Lacks z b'_' (λ d. omega arith) (omega arith)

-- The parts of a video track's ID.
split-video_track_id :
    (client_id : ℤ) (t q : ℕ)
    → split (video_track_id client_id t q) b'_'
      ≡ codes "video" ∷ format_int client_id ∷ format_int (pos t) ∷ format_int (pos q) ∷ []
unfolding video_track_id format_int
split-video_track_id client_id t q =
    split-append b'_' (codes "video") _ (omega arith)
    ∙ ap (λ ps. codes "video" ∷ ps)
        (split-append b'_' (format_int client_id) _ (no_mark client_id)
          ∙ ap (λ ps. format_int client_id ∷ ps)
              (split-append b'_' (format_uint t) _ (no_mark (pos t))
                ∙ ap (λ ps. format_uint t ∷ ps)
                    (split-Lacks b'_' (format_uint q) (no_mark (pos q)))))

module _ (client_id : ℤ) (t q : ℕ) (int : IsInt client_id) (small : t < 2 ^ 63)
    (low : q < 2 ^ 63) where
  pub read_name-video_track_id :
      read_name (video_track_id client_id t q) ≡ some (video_name client_id (pos t) (pos q))
  unfolding read_name read_video_name
  read_name-video_track_id = rw (
    split-video_track_id client_id t q,
    atoi-format_int client_id int,
    atoi-format_int (pos t) small,
    atoi-format_int (pos q) low,
  )

  received_id-video_track_id :
      received_id (video_track_id client_id t q) ≡ some (video_id client_id (pos t))
  unfolding received_id
  received_id-video_track_id = rw (
    split-video_track_id client_id t q,
    atoi-format_int client_id int,
    atoi-format_int (pos t) small,
  )

  -- For a client number that is an int, and a tile and a quality below 2^63: from the ID that the
  -- client gives to its video track, the unit's callback reads the client, the tile and the
  -- quality, and `signalPeerConnections` reads the ID that the unit publishes the tile under.
  pub video_track_id-understood :
      (read_name (video_track_id client_id t q) ≡ some (video_name client_id (pos t) (pos q)))
      × (received_id (video_track_id client_id t q) ≡ some (video_id client_id (pos t)))
  video_track_id-understood = (read_name-video_track_id, received_id-video_track_id)

-- An audio track keeps its ID, and is known as audio.
audio_parts :
    (client_id : ℤ)
    → split (audio_track_id client_id) b'_' ≡ codes "audio" ∷ format_int client_id ∷ []
unfolding audio_track_id
audio_parts client_id =
    split-append b'_' (codes "audio") _ (omega arith)
    ∙ ap (λ ps. codes "audio" ∷ ps) (split-Lacks b'_' (format_int client_id) (no_mark client_id))

-- For any client number, the unit's callback takes the ID that the client gives to its audio track
-- for audio, and `signalPeerConnections` reads the ID that the unit itself uses for this client's
-- audio.
pub audio_track_id-understood :
    (client_id : ℤ)
    → (read_name (audio_track_id client_id) ≡ some audio_name)
      × (received_id (audio_track_id client_id) ≡ some (audio_id client_id))
unfolding read_name received_id
audio_track_id-understood client_id = (
  rw (audio_parts client_id),
  rw (audio_parts client_id) (unfold audio_track_id audio_id in refl),
)

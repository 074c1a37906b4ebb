-- ===== src/Sfu/OnTrack/Keeping.antt =====
-- What is known of the unit's state between any two steps, and which IDs are an audio track's.
use web_rtcsfu.Base.{
  ◌≡◌, refl, true, some, ◌==◌, bytes_eq, Bool-cases, inl, inr, >>=-eq_some, get_elem?, All,
}
use web_rtcsfu.Base.Bytes.{Bytes, codes}
use web_rtcsfu.Base.Text.{split, atoi}
use web_rtcsfu.Sfu.Types.{Sfu, ℤ_eq}
use web_rtcsfu.Sfu.Tracks.{is_audio}
use web_rtcsfu.Sfu.Tracks.Publishing.{IsPublished}
use web_rtcsfu.Sfu.Signal.Turns.{NoLoopback}
use web_rtcsfu.Sfu.OnTrack.{audio_name, read_name, read_video_name}

-- What every handler keeps.
pub record Sound (s : Sfu) : Type 0 where
  pub published : IsPublished s
  pub no_loopback : All NoLoopback s.peer_connections

pub is_audio-audio_name : (id : Bytes) → read_name id ≡ some audio_name → is_audio id ≡ some true
unfolding read_name read_video_name is_audio
is_audio-audio_name id e =
    let (kind, first, e1) = >>=-eq_some (get_elem? (split id b'_') 0) _ audio_name e in
    elim (Bool-cases (kind == codes "audio")) [
      | inl audio ↦ rw (first, audio) refl
      | inr video ↦
          let other : read_video_name (split id b'_') ≡ some audio_name = rw video at e1 in
          let (client, _, r1) = >>=-eq_some (get_elem? (split id b'_') 1) _ audio_name other in
          let (client_id, _, r2) = >>=-eq_some (atoi client) _ audio_name r1 in
          let (tile, _, r3) = >>=-eq_some (get_elem? (split id b'_') 2) _ audio_name r2 in
          let (tile_id, _, r4) = >>=-eq_some (atoi tile) _ audio_name r3 in
          let (level, _, r5) = >>=-eq_some (get_elem? (split id b'_') 3) _ audio_name r4 in
          let (quality, _, r6) = >>=-eq_some (atoi level) _ audio_name r5 in absurd (cc r6)
    ]

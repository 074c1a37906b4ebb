-- ===== src/Sfu/Tracks/Publishing.antt =====
-- `trackLocals` names a video only if `trackQualities` has it at quality 0.
use web_rtcsfu.Base.{
  ◌≡◌, ◌≢◌, refl, subst, true, false, none, some, ◌==◌, bytes_eq, Bool-cases, inl, inr, arith,
  beq_refl,
}
use web_rtcsfu.Base.Bytes.{Bytes, codes}
use web_rtcsfu.Base.Map.{lookup, lookup-insert, lookup-remove}
use web_rtcsfu.Base.Text.{ℤ, pos, format_int}
use web_rtcsfu.Base.Text.Laws.{split-append}
use web_rtcsfu.Sfu.Types.{TrackLocal, Sfu, ℤ_eq, audio_id}
use web_rtcsfu.Sfu.Tracks.{
  is_audio, track_quality, add_track_local, remove_track_local, add_quality_track,
}
use web_rtcsfu.Sfu.Tracks.Growing.{add_quality_track-Grows, track_quality-add}

abbrev pub IsPublished : Sfu → Type 0
IsPublished s =
    (id : Bytes)
    → lookup id s.track_locals ≢ none
    → is_audio id ≡ some false
    → track_quality s id (pos 0) ≢ none

pub is_audio-audio_id : (client_id : ℤ) → is_audio (audio_id client_id) ≡ some true
unfolding is_audio audio_id
is_audio-audio_id client_id =
    rw (split-append b'_' (codes "audio") (format_int client_id) (omega arith)) refl

pub add_track_local-IsPublished :
    (s : Sfu) (t : TrackLocal)
    → (is_audio t.id ≡ some false → track_quality s t.id (pos 0) ≢ none)
    → IsPublished s
    → IsPublished (add_track_local s t)
unfolding add_track_local
add_track_local-IsPublished s t new h id here video = elim (Bool-cases (t.id == id)) [
  | inl same ↦
      let e : t.id ≡ id = (bytes_eq.beq_iff t.id id).0 same in
      subst (λ x. is_audio x ≡ some false → track_quality s x (pos 0) ≢ none) e new video
  | inr other ↦ h id (rw (lookup-insert t.id id t s.track_locals, other) at here) video
]

pub remove_track_local-IsPublished :
    (s : Sfu) (t : TrackLocal) → IsPublished s → IsPublished (remove_track_local s t)
unfolding remove_track_local
remove_track_local-IsPublished s t h id here video =
    h id (λ e. here (rw (lookup-remove t.id id s.track_locals, e) (ground arith))) video

pub add_quality_track-IsPublished :
    (s : Sfu) (t : TrackLocal) (quality : ℤ) (new_id : Bytes)
    → IsPublished s
    → IsPublished (add_quality_track s t quality new_id)
add_quality_track-IsPublished s t quality new_id h id here video =
    (add_quality_track-Grows s t quality new_id).qualities id (pos 0)
      (h id (unfold add_quality_track in here) video)

-- A tile's first quality with its entry in `trackLocals`.
pub add_first-IsPublished :
    (s : Sfu) (t : TrackLocal) (quality : ℤ) (new_id : Bytes)
    → t.id ≡ new_id
    → quality ≡ pos 0
    → IsPublished s
    → IsPublished (add_track_local (add_quality_track s t quality new_id) t)
add_first-IsPublished s t quality new_id name first h =
    add_track_local-IsPublished (add_quality_track s t quality new_id) t
      (λ video.
        rw (track_quality-add s t quality (pos 0) new_id t.id, name, first, beq_refl new_id)
          (λ e. cc e))
      (add_quality_track-IsPublished s t quality new_id h)

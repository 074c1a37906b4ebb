-- ===== src/Sfu/Tracks.antt =====
-- sfu/main.go: publishing tracks, and choosing what a peer's sender forwards. Each function runs
-- under the locks that it takes, so it is one step. `none` is a panic.
pub mod Adding
pub mod Growing
pub mod Quality
pub mod Updates
pub mod Publishing
mod Examples
use web_rtcsfu.Base.{
  ℕ, Bool, Option, none, some, List, [], ◌∷◌, ◌++◌, ◌>>=◌, ◌==◌, bytes_eq, if◌then◌else◌, get_elem?,
}
use web_rtcsfu.Base.Bytes.{Bytes, codes}
use web_rtcsfu.Base.Map.{Map, lookup, insert, remove}
use web_rtcsfu.Base.Text.{ℤ, pos, negsuc, split}
use web_rtcsfu.Sfu.Types.{TrackLocal, Peer, Sfu, Library, ℤ_eq}

-- The map writes of `addTrack` and `removeTrack`; each is followed by `signalPeerConnections`.
unfoldable pub add_track_local : Sfu → TrackLocal → Sfu
add_track_local s t = record s { track_locals = insert t.id t s.track_locals }

unfoldable pub remove_track_local : Sfu → TrackLocal → Sfu
remove_track_local s t = record s { track_locals = remove t.id s.track_locals }

-- `m[k]` of a map of maps: a missing key is a nil map, which reads as empty.
abbrev pub inner : Option (Map ℤ TrackLocal) → Map ℤ TrackLocal
inner none = []
inner (some m) = m

-- `trackQualities[trackID][quality]`
abbrev pub track_quality : Sfu → Bytes → ℤ → Option TrackLocal
track_quality s track_id quality = lookup quality (inner (lookup track_id s.track_qualities))

unfoldable pub add_quality_track : Sfu → TrackLocal → ℤ → Bytes → Sfu
add_quality_track s t quality new_id = record s {
  track_qualities =
      insert new_id (insert quality t (inner (lookup new_id s.track_qualities))) s.track_qualities;
}

-- Is this the ID of an audio track?
unfoldable pub is_audio : Bytes → Option Bool
is_audio track_id = get_elem? (split track_id b'_') 0 >>= λ v. some (v == codes "audio")

module _ (lib : Library) where
  open lib use {Rtc, add_track, replace_track}

  unfoldable pub add_audio : Sfu → Rtc → Peer → Bytes → Option (Peer × Rtc)
  add_audio s rtc p track_id = do
    (sender, rtc') ← add_track rtc p.connection (lookup track_id s.track_locals)
    some (record p { track_rtp_senders = insert track_id sender p.track_rtp_senders }, rtc')

  unfoldable pub add_video : Sfu → Rtc → Peer → Bytes → Option (Peer × Rtc)
  add_video s rtc p track_id = do
    (sender, rtc') ← add_track rtc p.connection (track_quality s track_id (pos 0))
    some (
      record p {
        track_rtp_senders = insert track_id sender p.track_rtp_senders;
        quality_decisions = insert track_id (pos 0) p.quality_decisions;
      },
      rtc',
    )

  unfoldable pub add_new_track_for_peer : Sfu → Rtc → Peer → Bytes → Option (Peer × Rtc)
  add_new_track_for_peer s rtc p track_id = is_audio track_id >>= λ audio.
      if audio then add_audio s rtc p track_id else add_video s rtc p track_id

  -- The sender's new track and the decision that is kept, for an ID with a sender.
  unfoldable pub choose : Sfu → Rtc → ℕ → Bytes → ℤ → ℤ → Rtc × ℤ
  choose s rtc sender track_id old (negsuc q) = (replace_track rtc sender none, negsuc q)
  choose s rtc sender track_id old (pos q) = elim (track_quality s track_id (pos q)) [
    | some t ↦ (replace_track rtc sender (some t), pos q)
    | none ↦ (rtc, old)
  ]

  -- For an ID with a decision: the new state of the library, and the decision that is stored.
  unfoldable pub decide : Sfu → Rtc → Peer → Bytes → ℤ → ℤ → Rtc × ℤ
  unfolding choose
  decide s rtc p track_id old quality = elim (lookup track_id p.track_rtp_senders) [
    | some sender ↦ choose s rtc sender track_id old quality
    | none ↦ (rtc, quality)
  ]

  unfoldable pub set_track_quality : Sfu → Rtc → Peer → Bytes → ℤ → Peer × Rtc
  unfolding decide
  set_track_quality s rtc p track_id quality = elim (lookup track_id p.quality_decisions) [
    | none ↦ (p, rtc)
    | some old ↦
        let new = decide s rtc p track_id old quality in
        if old == quality
        then (p, rtc)
        else (record p { quality_decisions = insert track_id new.1 p.quality_decisions }, new.0)
  ]

  -- A track has started: every peer that is sent its ID gets the new track.
  pub update_client_track_state : TrackLocal → List Peer → Rtc → Rtc
  update_client_track_state t [] rtc = rtc
  update_client_track_state t (p ∷ ps) rtc =
      update_client_track_state t ps (elim (lookup t.id p.track_rtp_senders) [
        | some sender ↦ replace_track rtc sender (some t)
        | none ↦ rtc
      ])

  replace_at : TrackLocal → ℤ → Option ℕ → Option ℤ → Rtc → Rtc
  replace_at t quality (some sender) (some q) rtc =
      if q == quality then replace_track rtc sender (some t) else rtc
  replace_at t quality _ _ rtc = rtc

  pub update_client_track_state_quality : TrackLocal → ℤ → List Peer → Rtc → Rtc
  update_client_track_state_quality t quality [] rtc = rtc
  update_client_track_state_quality t quality (p ∷ ps) rtc =
      update_client_track_state_quality t quality ps (
        replace_at t quality (lookup t.id p.track_rtp_senders) (lookup t.id p.quality_decisions)
          rtc)

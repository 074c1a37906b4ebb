-- ===== src/Sfu/Tracks/Adding.antt =====
-- What `addNewTrackForPeer` changes in a peer.
use web_rtcsfu.Base.{
  ℕ, ◌≡◌, Bool, true, false, Option, none, some, ◌>>=◌, Option-cases, inl, inr, arith, bytes_eq,
  if◌then◌else◌,
}
use web_rtcsfu.Base.Bytes.{Bytes}
use web_rtcsfu.Base.Map.{Map, lookup, insert}
use web_rtcsfu.Base.Text.{ℤ, pos}
use web_rtcsfu.Sfu.Types.{Peer, Sfu, Library}
use web_rtcsfu.Sfu.Tracks.{add_new_track_for_peer, is_audio, add_audio, add_video, track_quality}

module _ (lib : Library) (s : Sfu) (rtc : lib.Rtc) (p q : Peer) (rtc' : lib.Rtc)
    (track_id : Bytes) where
  -- One sender and the decisions: nothing else of the peer is touched.
  abbrev pub Inserted : Type 0
  Inserted =
      (sender : ℕ) × (decisions : Map Bytes ℤ) × (record p {
        track_rtp_senders = insert track_id sender p.track_rtp_senders;
        quality_decisions = decisions;
      }
        ≡ q)

  add_audio_shape : add_audio lib s rtc p track_id ≡ some (q, rtc') → Inserted
  unfolding add_audio
  add_audio_shape e =
      elim (Option-cases (lib.add_track rtc p.connection (lookup track_id s.track_locals))) [
        | inl failed ↦ absurd (cc (rw failed at e))
        | inr ((sender, next), added) ↦ (sender, p.quality_decisions, ground arith)
      ]

  add_video_shape : add_video lib s rtc p track_id ≡ some (q, rtc') → Inserted
  unfolding add_video
  add_video_shape e =
      elim (Option-cases (lib.add_track rtc p.connection (track_quality s track_id (pos 0)))) [
        | inl failed ↦ absurd (cc (rw failed at e))
        | inr ((sender, next), added) ↦
            (sender, insert track_id (pos 0) p.quality_decisions, ground arith)
      ]

  by_kind :
      (kind : Option Bool)
      → (kind >>= λ audio.
          if audio then add_audio lib s rtc p track_id else add_video lib s rtc p track_id)
        ≡ some (q, rtc')
      → Inserted
  by_kind none e = cc
  by_kind (some true) e = add_audio_shape e
  by_kind (some false) e = add_video_shape e

  pub add_new_shape : add_new_track_for_peer lib s rtc p track_id ≡ some (q, rtc') → Inserted
  unfolding add_new_track_for_peer
  add_new_shape = by_kind (is_audio track_id)

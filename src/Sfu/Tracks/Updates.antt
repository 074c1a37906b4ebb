-- ===== src/Sfu/Tracks/Updates.antt =====
-- A track has started: which senders of all peers forward it afterwards.
use web_rtcsfu.Base.{
  ℕ, ◌≡◌, refl, Bool, true, false, ◌&&◌, ◌||◌, Option, none, some, List, [], ◌∷◌, ◌==◌, nat_eq,
  bytes_eq, if◌then◌else◌, Option-cases, inl, inr, arith, ◌∙◌, ap,
}
use web_rtcsfu.Base.Bytes.{Bytes}
use web_rtcsfu.Base.Map.{lookup}
use web_rtcsfu.Base.Text.{ℤ}
use web_rtcsfu.Sfu.Types.{TrackLocal, Peer, Library, ℤ_eq}
use web_rtcsfu.Sfu.Tracks.{update_client_track_state, update_client_track_state_quality, replace_at}
use web_rtcsfu.Sfu.Tracks.Quality.{ReplaceLaw}

abbrev pub is_sender : Option ℕ → ℕ → Bool
is_sender none x = false
is_sender (some sender) x = sender == x

abbrev pub is_decision : Option ℤ → ℤ → Bool
is_decision none q = false
is_decision (some d) q = d == q

-- Is `x` the sender of some peer for this ID, and for the quality where one is asked for?
abbrev pub serves : Bytes → ℕ → List Peer → Bool
serves id x [] = false
serves id x (p ∷ ps) = is_sender (lookup id p.track_rtp_senders) x || serves id x ps

abbrev pub serves_at : Bytes → ℤ → ℕ → List Peer → Bool
serves_at id quality x [] = false
serves_at id quality x (p ∷ ps) =
    (is_sender (lookup id p.track_rtp_senders) x
      && is_decision (lookup id p.quality_decisions) quality)
    || serves_at id quality x ps

module _ (lib : Library) (law : ReplaceLaw lib) (t : TrackLocal) where
  -- If `ReplaceTrack` sets the track of its sender only, then after `updateClientTrackState` a
  -- sender forwards the new track exactly where it is some peer's sender for the track's ID; every
  -- other sender forwards what it did before.
  pub update-serves :
      (ps : List Peer) (rtc : lib.Rtc) (x : ℕ)
      → lib.sender_track (update_client_track_state lib t ps rtc) x
        ≡ (if serves t.id x ps then some t else lib.sender_track rtc x)
  unfolding update_client_track_state
  update-serves [] rtc x = refl
  update-serves (p ∷ ps) rtc x = elim (Option-cases (lookup t.id p.track_rtp_senders)) [
    | inl missing ↦ rw (missing, update_client_track_state) (update-serves ps rtc x)
    | inr (sender, e) ↦
        rw (e, update_client_track_state)
          (update-serves ps (lib.replace_track rtc sender (some t)) x
            ∙ ground (arith, law.replaced rtc sender (some t) x))
  ]

  replace_at_lem :
      (quality : ℤ) (sender : Option ℕ) (decision : Option ℤ) (rtc : lib.Rtc) (x : ℕ)
      → lib.sender_track (replace_at lib t quality sender decision rtc) x ≡ (
          if is_sender sender x && is_decision decision quality
          then some t
          else lib.sender_track rtc x)
  unfolding replace_at
  replace_at_lem quality none none rtc x = refl
  replace_at_lem quality none (some d) rtc x = refl
  replace_at_lem quality (some sender) none rtc x = ground arith
  replace_at_lem quality (some sender) (some d) rtc x =
      ground (arith, law.replaced rtc sender (some t) x)

  merge :
      (a b : Bool) (new old : Option TrackLocal)
      → (if b then new else if a then new else old) ≡ (if a || b then new else old)
  merge true true new old = refl
  merge true false new old = refl
  merge false true new old = refl
  merge false false new old = refl

  -- If `ReplaceTrack` sets the track of its sender only, then after
  -- `updateClientTrackStateQuality` a sender forwards the new track exactly where some peer has
  -- that sender and that quality's decision for the track's ID; every other sender forwards what
  -- it did before.
  pub update-serves_at :
      (quality : ℤ) (ps : List Peer) (rtc : lib.Rtc) (x : ℕ)
      → lib.sender_track (update_client_track_state_quality lib t quality ps rtc) x
        ≡ (if serves_at t.id quality x ps then some t else lib.sender_track rtc x)
  unfolding update_client_track_state_quality
  update-serves_at quality [] rtc x = refl
  update-serves_at quality (p ∷ ps) rtc x =
      let sender = lookup t.id p.track_rtp_senders in
      let decision = lookup t.id p.quality_decisions in
      update-serves_at quality ps (replace_at lib t quality sender decision rtc) x
      ∙ ap (λ o. if serves_at t.id quality x ps then some t else o)
          (replace_at_lem quality sender decision rtc x)
      ∙ merge (is_sender sender x && is_decision decision quality) (serves_at t.id quality x ps)
          (some t) (lib.sender_track rtc x)

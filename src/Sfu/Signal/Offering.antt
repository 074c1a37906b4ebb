-- ===== src/Sfu/Signal/Offering.antt =====
-- A peer's turn with a library whose calls go through: it ends with an offer.
use web_rtcsfu.Base.{
  ℕ, ◌≡◌, ◌≢◌, refl, ap, ◌∙◌, Bool, true, false, none, some, List, [], ◌∷◌, bytes_eq, All,
  Bool-cases, Option-cases, inl, inr,
}
use web_rtcsfu.Base.Bytes.{Bytes}
use web_rtcsfu.Base.Map.{Map, lookup, insert, remove}
use web_rtcsfu.Base.Text.{pos}
use web_rtcsfu.Sfu.Types.{TrackLocal, Peer, Sfu, Library}
use web_rtcsfu.Sfu.Tracks.{add_new_track_for_peer, add_audio, add_video, is_audio, track_quality}
use web_rtcsfu.Sfu.Tracks.Publishing.{IsPublished}
use web_rtcsfu.Sfu.Signal.{
  contains, own_ids, sync_senders, add_missing, make_offer, sync_tracks, sync_peer, offered,
  offer_text,
}
use web_rtcsfu.Sfu.Signal.Healthy.{
  received_ids-some, is_audio-some, Same, Same-refl, Same-trans, IsHealthy, IsReadable,
  Same-IsReadable,
}

module _ (lib : Library) (healthy : IsHealthy lib) where
  senders_pass :
      (locals : Map Bytes TrackLocal) (p : Peer) (rtc : lib.Rtc) (senders : List ℕ)
      (ids : List Bytes)
      → lib.is_closed rtc p.connection ≡ false
      → let now = sync_senders lib locals p rtc senders ids in
        (now.0 ≡ true) × (now.1.connection ≡ p.connection) × Same lib rtc now.2
  unfolding sync_senders
  senders_pass locals p rtc [] ids live = (refl, refl, Same-refl lib rtc)
  senders_pass locals p rtc (sender ∷ senders) ids live =
      elim (Option-cases (lib.sender_track rtc sender)) [
        | inl e ↦ rw (e, sync_senders) (senders_pass locals p rtc senders ids live)
        | inr (t, e) ↦ elim (Option-cases (lookup t.id locals)) [
          | inr (l, here) ↦
              rw (e, here, sync_senders) (senders_pass locals p rtc senders (t.id ∷ ids) live)
          | inl gone ↦
              let p' : Peer = record p { track_rtp_senders = remove t.id p.track_rtp_senders } in
              let (ok, same) = healthy.removes rtc p.connection sender live in
              let rtc' = (lib.remove_track rtc p.connection sender).1 in
              let (all, kept, later) =
                senders_pass locals p' rtc' senders (t.id ∷ ids)
                  (same.closed p.connection ∙ live) in
              rw (e, gone, ok, sync_senders) (all, kept, Same-trans lib _ _ _ same later)
        ]
      ]

  -- One track that is missing.
  abbrev Adds : Sfu → lib.Rtc → Peer → Bytes → Type 0
  Adds s rtc p track_id =
      (q : Peer) × (rtc' : lib.Rtc) × (add_new_track_for_peer lib s rtc p track_id ≡ some (q, rtc'))
      × (q.connection ≡ p.connection)
      × Same lib rtc rtc'

  Adds-kind :
      (s : Sfu) (rtc : lib.Rtc) (p : Peer) (track_id : Bytes) (audio : Bool)
      → IsPublished s
      → lookup track_id s.track_locals ≢ none
      → lib.is_closed rtc p.connection ≡ false
      → is_audio track_id ≡ some audio
      → Adds s rtc p track_id
  unfolding add_new_track_for_peer add_audio add_video
  Adds-kind s rtc p track_id true published here live kind =
      elim (Option-cases (lookup track_id s.track_locals)) [
        | inl missing ↦ absurd (here missing)
        | inr (t, found) ↦
            let (sender, rtc', added, same) = healthy.adds rtc p.connection t live in
            let q : Peer = record p {
              track_rtp_senders = insert track_id sender p.track_rtp_senders;
            } in
            (q, rtc', rw (kind, found, added) refl, refl, same)
      ]
  Adds-kind s rtc p track_id false published here live kind =
      elim (Option-cases (track_quality s track_id (pos 0))) [
        | inl missing ↦ absurd (published track_id here kind missing)
        | inr (t, found) ↦
            let (sender, rtc', added, same) = healthy.adds rtc p.connection t live in
            let q : Peer = record p {
              track_rtp_senders = insert track_id sender p.track_rtp_senders;
              quality_decisions = insert track_id (pos 0) p.quality_decisions;
            } in
            (q, rtc', rw (kind, found, added) refl, refl, same)
      ]

  Adds-one :
      (s : Sfu) (rtc : lib.Rtc) (p : Peer) (track_id : Bytes)
      → IsPublished s
      → lookup track_id s.track_locals ≢ none
      → lib.is_closed rtc p.connection ≡ false
      → Adds s rtc p track_id
  Adds-one s rtc p track_id published here live =
      let (audio, kind) = is_audio-some track_id in
      Adds-kind s rtc p track_id audio published here live kind

  adds_missing :
      (s : Sfu) (p : Peer) (rtc : lib.Rtc) (locals : Map Bytes TrackLocal) (ids : List Bytes)
      → IsPublished s
      → All (λ entry. lookup entry.0 s.track_locals ≢ none) locals
      → lib.is_closed rtc p.connection ≡ false
      → (q : Peer) × (rtc' : lib.Rtc) × (add_missing lib s p rtc locals ids ≡ some (q, rtc'))
        × (q.connection ≡ p.connection)
        × Same lib rtc rtc'
  unfolding add_missing
  adds_missing s p rtc [] ids published h live = (p, rtc, refl, refl, Same-refl lib rtc)
  adds_missing s p rtc ((track_id, t) ∷ locals) ids published (h, hs) live =
      elim (Bool-cases (contains track_id ids)) [
        | inl sent ↦
            let (q, rtc', e, kept, same) = adds_missing s p rtc locals ids published hs live in
            (q, rtc', rw (sent, add_missing) e, kept, same)
        | inr fresh ↦
            let (mid, rtc1, added, kept1, same1) = Adds-one s rtc p track_id published h live in
            let still = ap (lib.is_closed rtc1) kept1 ∙ same1.closed p.connection ∙ live in
            let (q, rtc', e, kept, same) = adds_missing s mid rtc1 locals ids published hs still in
            (
              q,
              rtc',
              rw (fresh, added, add_missing) e,
              kept ∙ kept1,
              Same-trans lib _ _ _ same1 same,
            )
      ]

  makes_offer :
      (p : Peer) (rtc : lib.Rtc)
      → lib.is_closed rtc p.connection ≡ false
      → (rtc' : lib.Rtc) × (text : Bytes) × (make_offer lib p rtc ≡ offered p rtc' text)
        × Same lib rtc rtc'
  unfolding make_offer
  makes_offer p rtc live =
      let (offer, rtc1, made, same1) = healthy.offers rtc p.connection live in
      let (set, same2) =
        healthy.describes rtc1 p.connection offer (same1.closed p.connection ∙ live) in
      let (payload, marshalled) = healthy.marshals offer in
      (
        (lib.set_local_description rtc1 p.connection offer).1,
        offer_text payload,
        rw (made, set, marshalled, make_offer) refl,
        Same-trans lib _ _ _ same1 same2,
      )

  -- A whole turn.
  pub turn_offers :
      (s : Sfu) (p : Peer) (rtc : lib.Rtc)
      → IsPublished s
      → All (λ entry. lookup entry.0 s.track_locals ≢ none) s.track_locals
      → IsReadable lib rtc
      → lib.is_closed rtc p.connection ≡ false
      → (q : Peer) × (rtc' : lib.Rtc) × (text : Bytes) × (sync_peer lib s p rtc
          ≡ some (offered q rtc' text))
        × Same lib rtc rtc'
  unfolding sync_peer sync_tracks
  turn_offers s p rtc published keys readable live =
      let (all, kept, same) =
        senders_pass s.track_locals p rtc (lib.get_senders rtc p.connection) [] live in
      let now = sync_senders lib s.track_locals p rtc (lib.get_senders rtc p.connection) [] in
      let p1 : Peer = now.1 in
      let rtc1 : lib.Rtc = now.2 in
      let (ids, read) =
        received_ids-some (lib.get_receivers rtc1 p1.connection) (now.3)
          (Same-IsReadable lib rtc rtc1 same readable p1.connection) in
      let live1 = ap (lib.is_closed rtc1) kept ∙ same.closed p.connection ∙ live in
      let (q, rtc2, added, kept2, same2) =
        adds_missing s p1 rtc1 s.track_locals (own_ids p1 ids) published keys live1 in
      let (rtc3, text, made, same3) =
        makes_offer q rtc2 (ap (lib.is_closed rtc2) kept2 ∙ same2.closed p1.connection ∙ live1) in
      (
        q,
        rtc3,
        text,
        rw (all, read, added, made) refl,
        Same-trans lib _ _ _ same (Same-trans lib _ _ _ same2 same3),
      )

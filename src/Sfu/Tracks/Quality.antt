-- ===== src/Sfu/Tracks/Quality.antt =====
-- Which track each sender forwards: `setTrackQuality` and the updates that follow a new track.
use web_rtcsfu.Base.{
  ℕ, ◌≡◌, refl, ◌≢◌, ap, ◌∙◌, true, false, Option, none, some, ◌==◌, nat_eq, bytes_eq,
  if◌then◌else◌, Bool-cases, Option-cases, inl, inr, beq_refl, beq_ne,
}
use web_rtcsfu.Base.Bytes.{Bytes}
use web_rtcsfu.Base.Map.{lookup, insert, lookup-insert}
use web_rtcsfu.Base.Text.{ℤ, pos, negsuc}
use web_rtcsfu.Sfu.Types.{TrackLocal, Peer, Sfu, Library, ℤ_eq}
use web_rtcsfu.Sfu.Tracks.{track_quality, set_track_quality, decide, choose}

-- `ReplaceTrack` sets what the sender's `Track` returns, and touches no other sender.
pub record ReplaceLaw (lib : Library) : Type 0 where
  pub replaced :
      (rtc : lib.Rtc) (sender : ℕ) (t : Option TrackLocal) (x : ℕ)
      → lib.sender_track (lib.replace_track rtc sender t) x
        ≡ (if sender == x then t else lib.sender_track rtc x)

-- The track of a decision: none for a negative quality.
abbrev pub wanted : Sfu → Bytes → ℤ → Option TrackLocal
wanted s track_id (pos q) = track_quality s track_id (pos q)
wanted s track_id (negsuc q) = none

some_injective : {a b : ℤ} → some a ≡ some b → a ≡ b
some_injective e = cc

module _ (lib : Library) (law : ReplaceLaw lib) where
  -- Every sender with a decision forwards the track that was decided on.
  abbrev pub Forwards : Sfu → lib.Rtc → Peer → Type 0
  Forwards s rtc p =
      (id : Bytes) (sender : ℕ) (q : ℤ)
      → lookup id p.track_rtp_senders ≡ some sender
      → lookup id p.quality_decisions ≡ some q
      → lib.sender_track rtc sender ≡ wanted s id q

  -- No sender of a peer serves two IDs.
  abbrev pub DistinctSenders : Peer → Type 0
  DistinctSenders p =
      (id other : Bytes) (sender : ℕ)
      → lookup id p.track_rtp_senders ≡ some sender
      → lookup other p.track_rtp_senders ≡ some sender
      → id ≡ other

  choose_lem :
      (s : Sfu) (rtc : lib.Rtc) (sender : ℕ) (track_id : Bytes) (old quality : ℤ)
      → lib.sender_track rtc sender ≡ wanted s track_id old
      → lib.sender_track (choose lib s rtc sender track_id old quality).0 sender
        ≡ wanted s track_id (choose lib s rtc sender track_id old quality).1
  unfolding choose
  choose_lem s rtc sender track_id old (negsuc q) h =
      rw (law.replaced rtc sender none sender, beq_refl sender)
  choose_lem s rtc sender track_id old (pos q) h =
      elim (Option-cases (track_quality s track_id (pos q))) [
        | inl missing ↦ rw (missing, choose) h
        | inr (t, found) ↦
            rw (found, choose)
              (rw (law.replaced rtc sender (some t) sender, beq_refl sender, found))
      ]

  choose_other :
      (s : Sfu) (rtc : lib.Rtc) (sender x : ℕ) (track_id : Bytes) (old quality : ℤ)
      → sender ≢ x
      → lib.sender_track (choose lib s rtc sender track_id old quality).0 x ≡ lib.sender_track rtc x
  unfolding choose
  choose_other s rtc sender x track_id old (negsuc q) h =
      rw (law.replaced rtc sender none x, beq_ne sender x h)
  choose_other s rtc sender x track_id old (pos q) h =
      elim (Option-cases (track_quality s track_id (pos q))) [
        | inl missing ↦ rw (missing, choose)
        | inr (t, found) ↦
            rw (found, choose) (rw (law.replaced rtc sender (some t) x, beq_ne sender x h))
      ]

  module _ (s : Sfu) (rtc : lib.Rtc) (p : Peer) (track_id : Bytes) (quality : ℤ) where
    set_unknown :
        lookup track_id p.quality_decisions ≡ none
        → set_track_quality lib s rtc p track_id quality ≡ (p, rtc)
    unfolding set_track_quality
    set_unknown e = rw (e, set_track_quality)

    set_same :
        (old : ℤ)
        → lookup track_id p.quality_decisions ≡ some old
        → (old == quality) ≡ true
        → set_track_quality lib s rtc p track_id quality ≡ (p, rtc)
    unfolding set_track_quality
    set_same old e same = rw (e, same, set_track_quality)

    -- The peer after a decision.
    abbrev decided : ℤ → Peer
    decided old = record p {
      quality_decisions =
          insert track_id (decide lib s rtc p track_id old quality).1 p.quality_decisions;
    }

    set_changed :
        (old : ℤ)
        → lookup track_id p.quality_decisions ≡ some old
        → (old == quality) ≡ false
        → set_track_quality lib s rtc p track_id quality
          ≡ (decided old, (decide lib s rtc p track_id old quality).0)
    unfolding set_track_quality
    set_changed old e other = rw (e, other, set_track_quality)

    decide_own :
        (old : ℤ) (sender : ℕ)
        → lookup track_id p.track_rtp_senders ≡ some sender
        → lib.sender_track rtc sender ≡ wanted s track_id old
        → lib.sender_track (decide lib s rtc p track_id old quality).0 sender
          ≡ wanted s track_id (decide lib s rtc p track_id old quality).1
    unfolding decide
    decide_own old sender e h = rw (e, decide) (choose_lem s rtc sender track_id old quality h)

    decide_other :
        (old : ℤ) (x : ℕ)
        → lookup track_id p.track_rtp_senders ≢ some x
        → lib.sender_track (decide lib s rtc p track_id old quality).0 x ≡ lib.sender_track rtc x
    unfolding decide
    decide_other old x h = elim (Option-cases (lookup track_id p.track_rtp_senders)) [
      | inl missing ↦ rw (missing, decide)
      | inr (sender, e) ↦
          rw (e, decide)
            (choose_other s rtc sender x track_id old quality (λ same. h (e ∙ ap some same)))
    ]

    decided-Forwards :
        (old : ℤ)
        → lookup track_id p.quality_decisions ≡ some old
        → DistinctSenders p
        → Forwards s rtc p
        → Forwards s (decide lib s rtc p track_id old quality).0 (decided old)
    decided-Forwards old e distinct h id sender q hs hq = elim (Bool-cases (track_id == id)) [
      | inl same ↦
          let here : track_id ≡ id = (bytes_eq.beq_iff track_id id).0 same in
          let mine : lookup track_id p.track_rtp_senders ≡ some sender = rw here hs in
          let kept : some (decide lib s rtc p track_id old quality).1 ≡ some q =
            (rw (lookup-insert track_id id _ p.quality_decisions, same) at hq) in
          rw (← here, ← (some_injective kept))
            (decide_own old sender mine (h track_id sender old mine e))
      | inr other ↦
          let before : lookup id p.quality_decisions ≡ some q =
            (rw (lookup-insert track_id id _ p.quality_decisions, other) at hq) in
          decide_other old sender (λ mine.
            cc (other, (bytes_eq.beq_iff track_id id).1 (distinct track_id id sender mine hs)))
          ∙ h id sender q hs before
    ]

    -- Let `ReplaceTrack` set the track of its sender only, and let no sender of the peer serve two
    -- IDs. If every sender with a decision forwards the track of that decision (none for a
    -- negative quality), this still holds after `setTrackQuality`, for every ID and quality that a
    -- client sends: unknown IDs, equal qualities and qualities that were never published included.
    pub set_track_quality-Forwards :
        DistinctSenders p
        → Forwards s rtc p
        → Forwards s
            (set_track_quality lib s rtc p track_id quality).1
            (set_track_quality lib s rtc p track_id quality).0
    set_track_quality-Forwards distinct h =
        elim (Option-cases (lookup track_id p.quality_decisions)) [
          | inl unknown ↦ rw (set_unknown unknown) h
          | inr (old, e) ↦ elim (Bool-cases (old == quality)) [
            | inl same ↦ rw (set_same old e same) h
            | inr other ↦ rw (set_changed old e other) (decided-Forwards old e distinct h)
          ]
        ]

    -- The senders of a peer stay as they are.
    pub set_track_quality-senders :
        (set_track_quality lib s rtc p track_id quality).0.track_rtp_senders ≡ p.track_rtp_senders
    set_track_quality-senders = elim (Option-cases (lookup track_id p.quality_decisions)) [
      | inl unknown ↦ rw (set_unknown unknown) refl
      | inr (old, e) ↦ elim (Bool-cases (old == quality)) [
        | inl same ↦ rw (set_same old e same) refl
        | inr other ↦ rw (set_changed old e other) refl
      ]
    ]

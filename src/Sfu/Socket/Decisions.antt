-- ===== src/Sfu/Socket/Decisions.antt =====
-- What a client's messages do to the qualities that it is sent.
use web_rtcsfu.Base.{ℕ, ◌+◌, List, [], ◌∷◌, ◌++◌, Option-cases, inl, inr, bytes_eq, nat_eq}
use web_rtcsfu.Base.Bytes.{Bytes, codes}
use web_rtcsfu.Base.Text.{ℤ, split, atoi, format_uint}
use web_rtcsfu.Sfu.Types.{Peer, Sfu, Library, ℤ_eq}
use web_rtcsfu.Sfu.Tracks.{set_track_quality}
use web_rtcsfu.Sfu.Tracks.Quality.{
  ReplaceLaw, Forwards, DistinctSenders, set_track_quality-Forwards, set_track_quality-senders,
}
use web_rtcsfu.Sfu.Socket.{decide_tiles, decide_client, decide_clients, quality_decisions}

module _ (lib : Library) (law : ReplaceLaw lib) (s : Sfu) where
  -- What the handling of a decision starts from and ends in.
  abbrev Kept : Peer × lib.Rtc → Type 0
  Kept now = DistinctSenders lib law now.0 × Forwards lib law s now.1 now.0

  set_track_quality-Kept :
      (p : Peer) (rtc : lib.Rtc) (track_id : Bytes) (quality : ℤ)
      → Kept (p, rtc)
      → Kept (set_track_quality lib s rtc p track_id quality)
  set_track_quality-Kept p rtc track_id quality (distinct, h) = (
    rw (set_track_quality-senders lib law s rtc p track_id quality) distinct,
    set_track_quality-Forwards lib law s rtc p track_id quality distinct h,
  )

  decide_tiles-Kept :
      (client : Bytes) (tile : ℕ) (texts : List Bytes) (p : Peer) (rtc : lib.Rtc)
      → Kept (p, rtc)
      → Kept (decide_tiles lib s client tile texts p rtc)
  unfolding decide_tiles
  decide_tiles-Kept client tile [] p rtc h = h
  decide_tiles-Kept client tile (text ∷ texts) p rtc h = elim (Option-cases (atoi text)) [
    | inl skipped ↦ rw (skipped, decide_tiles) (decide_tiles-Kept client (tile + 1) texts p rtc h)
    | inr (quality, read) ↦
        let track_id = codes "video_" ++ client ++ b'_' ∷ format_uint tile in
        let now = set_track_quality lib s rtc p track_id quality in
        rw (read, decide_tiles)
          (decide_tiles-Kept client (tile + 1) texts now.0 now.1
            (set_track_quality-Kept p rtc track_id quality h))
  ]

  decide_client-Kept :
      (texts : List Bytes) (p : Peer) (rtc : lib.Rtc)
      → Kept (p, rtc)
      → Kept (decide_client lib s texts p rtc)
  unfolding decide_client
  decide_client-Kept [] p rtc h = h
  decide_client-Kept (client ∷ texts) p rtc h = decide_tiles-Kept client 0 texts p rtc h

  decide_clients-Kept :
      (entries : List Bytes) (p : Peer) (rtc : lib.Rtc)
      → Kept (p, rtc)
      → Kept (decide_clients lib s entries p rtc)
  unfolding decide_clients
  decide_clients-Kept [] p rtc h = h
  decide_clients-Kept (entry ∷ entries) p rtc h =
      let now = decide_client lib s (split entry b',') p rtc in
      decide_clients-Kept entries now.0 now.1 (decide_client-Kept (split entry b',') p rtc h)

  -- Let `ReplaceTrack` set the track of its sender only, and let no sender of the peer serve two
  -- IDs. If every sender with a decision forwards the track of that decision (none for a negative
  -- quality), this still holds after the handler has worked through a message of quality
  -- decisions, whatever its text.
  pub quality_decisions-Forwards :
      (message : Bytes) (p : Peer) (rtc : lib.Rtc)
      → DistinctSenders lib law p
      → Forwards lib law s rtc p
      → Forwards lib law s
          (quality_decisions lib s message p rtc).1
          (quality_decisions lib s message p rtc).0
  unfolding quality_decisions
  quality_decisions-Forwards message p rtc distinct h =
      (decide_clients-Kept (split message b';') p rtc (distinct, h)).1

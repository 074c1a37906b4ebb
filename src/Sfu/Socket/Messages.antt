-- ===== src/Sfu/Socket/Messages.antt =====
-- No message of a client changes which senders it has.
use web_rtcsfu.Base.{
  ℕ, ◌+◌, ◌≡◌, refl, ◌∙◌, some, List, [], ◌∷◌, ◌++◌, ◌==◌, nat_eq, bytes_eq, Bool-cases,
  Option-cases, inl, inr, >>=-eq_some, get_elem?,
}
use web_rtcsfu.Base.Bytes.{Bytes, codes}
use web_rtcsfu.Base.Map.{lookup}
use web_rtcsfu.Base.Text.{ℤ, split, atoi, parse_uint, format_uint}
use web_rtcsfu.Sfu.Types.{Peer, Sfu, Library, ℤ_eq}
use web_rtcsfu.Sfu.Tracks.{set_track_quality}
use web_rtcsfu.Sfu.Socket.{
  decide_tiles, decide_client, decide_clients, quality_decisions, add_candidates, answer, candidate,
  handle_message,
}

-- The same client with the same senders.
pub record SameSenders (p q : Peer) : Type 0 where
  pub id : q.id ≡ p.id
  pub senders : q.track_rtp_senders ≡ p.track_rtp_senders
  pub client : q.client_id ≡ p.client_id
  pub tiles : q.number_of_tiles ≡ p.number_of_tiles

SameSenders-refl : (p : Peer) → SameSenders p p
SameSenders-refl p = record { id = refl; senders = refl; client = refl; tiles = refl }

SameSenders-trans : (p q r : Peer) → SameSenders p q → SameSenders q r → SameSenders p r
SameSenders-trans p q r x y = record {
  id = y.id ∙ x.id;
  senders = y.senders ∙ x.senders;
  client = y.client ∙ x.client;
  tiles = y.tiles ∙ x.tiles;
}

module _ (lib : Library) (s : Sfu) where
  pub set_track_quality-SameSenders :
      (rtc : lib.Rtc) (p : Peer) (track_id : Bytes) (quality : ℤ)
      → SameSenders p (set_track_quality lib s rtc p track_id quality).0
  unfolding set_track_quality
  set_track_quality-SameSenders rtc p track_id quality =
      elim (Option-cases (lookup track_id p.quality_decisions)) [
        | inl none_yet ↦ rw (none_yet, set_track_quality) (SameSenders-refl p)
        | inr (old, decided) ↦ elim (Bool-cases (old == quality)) [
          | inl same ↦ rw (decided, same, set_track_quality) (SameSenders-refl p)
          | inr other ↦
              rw (decided, other, set_track_quality)
                (record { id = refl; senders = refl; client = refl; tiles = refl })
        ]
      ]

  decide_tiles-SameSenders :
      (client : Bytes) (tile : ℕ) (texts : List Bytes) (p : Peer) (rtc : lib.Rtc)
      → SameSenders p (decide_tiles lib s client tile texts p rtc).0
  unfolding decide_tiles
  decide_tiles-SameSenders client tile [] p rtc = SameSenders-refl p
  decide_tiles-SameSenders client tile (text ∷ texts) p rtc = elim (Option-cases (atoi text)) [
    | inl skipped ↦
        rw (skipped, decide_tiles) (decide_tiles-SameSenders client (tile + 1) texts p rtc)
    | inr (quality, read) ↦
        let track_id = codes "video_" ++ client ++ b'_' ∷ format_uint tile in
        let now = set_track_quality lib s rtc p track_id quality in
        rw (read, decide_tiles)
          (SameSenders-trans p now.0 _ (set_track_quality-SameSenders rtc p track_id quality)
            (decide_tiles-SameSenders client (tile + 1) texts now.0 now.1))
  ]

  decide_client-SameSenders :
      (texts : List Bytes) (p : Peer) (rtc : lib.Rtc)
      → SameSenders p (decide_client lib s texts p rtc).0
  unfolding decide_client
  decide_client-SameSenders [] p rtc = SameSenders-refl p
  decide_client-SameSenders (client ∷ texts) p rtc = decide_tiles-SameSenders client 0 texts p rtc

  decide_clients-SameSenders :
      (entries : List Bytes) (p : Peer) (rtc : lib.Rtc)
      → SameSenders p (decide_clients lib s entries p rtc).0
  unfolding decide_clients
  decide_clients-SameSenders [] p rtc = SameSenders-refl p
  decide_clients-SameSenders (entry ∷ entries) p rtc =
      let now = decide_client lib s (split entry b',') p rtc in
      SameSenders-trans p now.0 _ (decide_client-SameSenders (split entry b',') p rtc)
        (decide_clients-SameSenders entries now.0 now.1)

  answer-SameSenders :
      (message : Bytes) (p : Peer) (rtc : lib.Rtc) (now : Peer × lib.Rtc)
      → answer lib message p rtc ≡ some now
      → SameSenders p now.0
  unfolding answer
  answer-SameSenders message p rtc now e =
      let (description, read, e1) = >>=-eq_some (lib.unmarshal message) _ now e in
      let (rtc1, set, e2) =
        >>=-eq_some (lib.set_remote_description rtc p.connection description) _ now e1 in
      let (rtc2, added, e3) =
        >>=-eq_some (add_candidates lib p.connection p.pending_candidates rtc1) _ now e2 in
      let last : (p, rtc2) ≡ now = cc e3 in rw (← last) (SameSenders-refl p)

  candidate-SameSenders :
      (message : Bytes) (p : Peer) (rtc : lib.Rtc) (now : Peer × lib.Rtc)
      → candidate lib message p rtc ≡ some now
      → SameSenders p now.0
  unfolding candidate
  candidate-SameSenders message p rtc now e =
      elim (Bool-cases (lib.has_remote_description rtc p.connection)) [
        | inl described ↦
            let (rtc1, added, e1) =
              >>=-eq_some (lib.add_candidate rtc p.connection message) _ now (rw described at e) in
            let last : (p, rtc1) ≡ now = cc e1 in rw (← last) (SameSenders-refl p)
        | inr early ↦
            let kept : some
                  (record p { pending_candidates = p.pending_candidates ++ message ∷ [] }, rtc)
                ≡ some now =
              rw early at e in
            let last : (record p { pending_candidates = p.pending_candidates ++ message ∷ [] }, rtc)
                ≡ now =
              cc kept in
            rw (← last) (record { id = refl; senders = refl; client = refl; tiles = refl })
      ]

  pub handle_message-SameSenders :
      (raw : Bytes) (p : Peer) (rtc : lib.Rtc) (now : Peer × lib.Rtc)
      → handle_message lib s raw p rtc ≡ some now
      → SameSenders p now.0
  unfolding handle_message quality_decisions
  handle_message-SameSenders raw p rtc now e =
      let (kind, first, e1) = >>=-eq_some (get_elem? (split raw b'@') 1) _ now e in
      let (message, second, e2) = >>=-eq_some (get_elem? (split raw b'@') 2) _ now e1 in
      elim (Bool-cases (parse_uint kind == 3)) [
        | inl is_answer ↦ answer-SameSenders message p rtc now (rw is_answer at e2)
        | inr no_answer ↦ elim (Bool-cases (parse_uint kind == 4)) [
          | inl is_candidate ↦
              candidate-SameSenders message p rtc now (rw (no_answer, is_candidate) at e2)
          | inr no_candidate ↦ elim (Bool-cases (parse_uint kind == 7)) [
            | inl is_decision ↦
                let decided : some (decide_clients lib s (split message b';') p rtc) ≡ some now =
                  rw (no_answer, no_candidate, is_decision) at e2 in
                let last : decide_clients lib s (split message b';') p rtc ≡ now = cc decided in
                rw (← last) (decide_clients-SameSenders (split message b';') p rtc)
            | inr unknown ↦
                let kept : some (p, rtc) ≡ some now = rw (no_answer, no_candidate, unknown) at e2 in
                let last : (p, rtc) ≡ now = cc kept in rw (← last) (SameSenders-refl p)
          ]
        ]
      ]

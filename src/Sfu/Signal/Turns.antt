-- ===== src/Sfu/Signal/Turns.antt =====
-- The loop of `attemptSync` over the peers: which offers go out, and what stays true of the peers.
use web_rtcsfu.Base.{
  ℕ, ◌≡◌, refl, sym, ap, ◌∙◌, true, false, Option, none, some, List, [], ◌∷◌, ◌++◌, map, bytes_eq,
  Bool-cases, Option-cases, inl, inr, All, All-append, ◌↔◌, append_assoc, append-nil,
}
use mathlib.Core.List.{map-append}
use web_rtcsfu.Base.Bytes.{Bytes}
use web_rtcsfu.Base.Map.{lookup}
use web_rtcsfu.Sfu.Types.{Peer, Sfu, Library}
use web_rtcsfu.Sfu.Signal.{
  Turn, after_turn, again, offered, sync_peer, Sync, sync_peers, signal_peer_connections,
}
use web_rtcsfu.Sfu.Signal.Follows.{Follows}
use web_rtcsfu.Sfu.Signal.Loopback.{IsOwn, IsOwn-same, peer_of, sync_peer-Follows}

abbrev pub NoLoopback : Peer → Type 0
NoLoopback p = (id : Bytes) → IsOwn p id → lookup id p.track_rtp_senders ≡ none

module _ (lib : Library) where
  Follows-NoLoopback : (p q : Peer) → Follows (IsOwn p) p q → NoLoopback p → NoLoopback q
  Follows-NoLoopback p q f h id own =
      let mine = IsOwn-same q p id (sym f.same_client) (sym f.same_tiles) own in
      f.absent id mine (h id mine)

  abbrev pub sync_rest :
      Sfu → List Peer → List Peer → lib.Rtc → List (ℕ × Bytes) → Option (Sync lib)
  sync_rest s ps done rtc sent = sync_peers lib s done ps rtc sent

  -- One peer's turn in the loop of `attemptSync`, with the result that follows from it.
  pub turn_step :
      (s : Sfu) (before : List Peer) (p : Peer) (ps : List Peer) (rtc : lib.Rtc)
      (sent : List (ℕ × Bytes)) (r : Sync lib)
      → lib.is_closed rtc p.connection ≡ false
      → sync_peers lib s before (p ∷ ps) rtc sent ≡ some r
      → (turn : Turn lib) × (sync_peer lib s p rtc ≡ some turn)
        × (after_turn lib before p ps (sync_rest s ps) sent turn ≡ some r)
  unfolding sync_peers
  turn_step s before p ps rtc sent r live e = elim (Option-cases (sync_peer lib s p rtc)) [
    | inl failed ↦ absurd (cc (rw (live, failed, sync_peers) at e))
    | inr (turn, taken) ↦ (turn, taken, rw (live, taken, sync_peers) at e)
  ]

  pub closed_step :
      (s : Sfu) (before : List Peer) (p : Peer) (ps : List Peer) (rtc : lib.Rtc)
      (sent : List (ℕ × Bytes)) (r : Sync lib)
      → lib.is_closed rtc p.connection ≡ true
      → sync_peers lib s before (p ∷ ps) rtc sent ≡ some r
      → record { try_again = true; peers = before ++ ps; rtc = rtc; offers = sent } ≡ r
  unfolding sync_peers
  closed_step s before p ps rtc sent r closed e =
      let stopped : some
            (record { try_again = true; peers = before ++ ps; rtc = rtc; offers = sent })
          ≡ some r =
        rw (closed, sync_peers) at e in
      cc

  sync_peers-NoLoopback :
      (s : Sfu) (before ps : List Peer) (rtc : lib.Rtc) (sent : List (ℕ × Bytes)) (r : Sync lib)
      → All NoLoopback before
      → All NoLoopback ps
      → sync_peers lib s before ps rtc sent ≡ some r
      → All NoLoopback r.peers
  sync_peers-NoLoopback s before [] rtc sent r hb hp e =
      let last : record { try_again = false; peers = before; rtc = rtc; offers = sent } ≡ r =
        (unfold sync_peers in cc) in
      rw (← last) hb
  sync_peers-NoLoopback s before (p ∷ ps) rtc sent r hb (h, hp) e =
      elim (Bool-cases (lib.is_closed rtc p.connection)) [
        | inl closed ↦
            rw (← closed_step s before p ps rtc sent r closed e)
              (All-append NoLoopback before ps hb hp)
        | inr live ↦
            let (turn, taken, rest) = turn_step s before p ps rtc sent r live e in
            after turn
              (Follows-NoLoopback p (peer_of lib turn) (sync_peer-Follows lib s p rtc turn taken) h)
              (λ before' rtc' sent' h' e'. sync_peers-NoLoopback s before' ps rtc' sent' r h' hp e')
              rest
      ]
    where
      after :
          (turn : Turn lib)
          → NoLoopback (peer_of lib turn)
          → ((before' : List Peer) (rtc' : lib.Rtc) (sent' : List (ℕ × Bytes))
              → All NoLoopback before'
              → sync_rest s ps before' rtc' sent' ≡ some r
              → All NoLoopback r.peers)
          → after_turn lib before p ps (sync_rest s ps) sent turn ≡ some r
          → All NoLoopback r.peers
      after (again q rtc') k ih rest =
          let last : record {
            try_again = true;
            peers = before ++ q ∷ ps;
            rtc = rtc';
            offers = sent;
          }
              ≡ r =
            (unfold after_turn in cc) in
          rw (← last) (All-append NoLoopback before (q ∷ ps) hb (k, hp))
      after (offered q rtc' text) k ih rest =
          ih (before ++ q ∷ []) rtc' (sent ++ (p.id, text) ∷ [])
            (All-append NoLoopback before (q ∷ []) hb (k, tt)) (unfold after_turn in rest)

  -- If no peer has a sender for a track of its own (its audio ID, or the video ID of one of its
  -- tiles), then no peer has one after a call of `signalPeerConnections` that ends without a
  -- panic, whatever the WebRTC library answers.
  pub signal-NoLoopback :
      (s : Sfu) (rtc : lib.Rtc) (r : Sync lib)
      → All NoLoopback s.peer_connections
      → signal_peer_connections lib s rtc ≡ some r
      → All NoLoopback r.peers
  unfolding signal_peer_connections
  signal-NoLoopback s rtc r h e = sync_peers-NoLoopback s [] s.peer_connections rtc [] r tt h e

  abbrev pub receivers : List (ℕ × Bytes) → List ℕ
  receivers = map (λ o. o.0)

  abbrev pub peer_ids : List Peer → List ℕ
  peer_ids = map (λ p. p.id)

  -- The peers `ps` that had an offer on top of `sent`, and those that are left for another attempt.
  abbrev pub Serves : List Peer → List (ℕ × Bytes) → Sync lib → Type 0
  Serves ps sent r =
      (served : List ℕ) × (left : List ℕ) × (peer_ids ps ≡ served ++ left)
      × (receivers r.offers ≡ receivers sent ++ served)
      × ((r.try_again ≡ false) ↔ (left ≡ []))

  sync_peers-Serves :
      (s : Sfu) (before ps : List Peer) (rtc : lib.Rtc) (sent : List (ℕ × Bytes)) (r : Sync lib)
      → sync_peers lib s before ps rtc sent ≡ some r
      → Serves ps sent r
  sync_peers-Serves s before [] rtc sent r e =
      let last : record { try_again = false; peers = before; rtc = rtc; offers = sent } ≡ r =
        (unfold sync_peers in cc) in
      rw (← last) ([], [], refl, sym (append-nil (receivers sent)), (λ h. refl, λ h. refl))
  sync_peers-Serves s before (p ∷ ps) rtc sent r e =
      elim (Bool-cases (lib.is_closed rtc p.connection)) [
        | inl closed ↦
            rw (← closed_step s before p ps rtc sent r closed e) (stopped (before ++ ps) rtc)
        | inr live ↦
            let (turn, taken, rest) = turn_step s before p ps rtc sent r live e in
            after turn (λ before' rtc' sent' e'. sync_peers-Serves s before' ps rtc' sent' r e')
              rest
      ]
    where
      stopped :
          (peers : List Peer) (rtc' : lib.Rtc)
          → Serves
              (p ∷ ps)
              sent
              (record { try_again = true; peers = peers; rtc = rtc'; offers = sent })
      stopped peers rtc' =
          ([], peer_ids (p ∷ ps), refl, sym (append-nil (receivers sent)), (λ h. cc, λ h. cc))

      after :
          (turn : Turn lib)
          → ((before' : List Peer) (rtc' : lib.Rtc) (sent' : List (ℕ × Bytes))
              → sync_rest s ps before' rtc' sent' ≡ some r
              → Serves ps sent' r)
          → after_turn lib before p ps (sync_rest s ps) sent turn ≡ some r
          → Serves (p ∷ ps) sent r
      after (again q rtc') ih rest =
          let last : record {
            try_again = true;
            peers = before ++ q ∷ ps;
            rtc = rtc';
            offers = sent;
          }
              ≡ r =
            (unfold after_turn in cc) in
          rw (← last) (stopped (before ++ q ∷ ps) rtc')
      after (offered q rtc' text) ih rest =
          let (served, left, split, got, done) =
            ih (before ++ q ∷ []) rtc' (sent ++ (p.id, text) ∷ []) (unfold after_turn in rest) in
          (
            p.id ∷ served,
            left,
            ap (λ t. p.id ∷ t) split,
            got
                ∙ ap (λ t. t ++ served) (map-append (λ o. o.0) sent ((p.id, text) ∷ []))
                ∙ append_assoc (receivers sent) (p.id ∷ []) served,
            done,
          )

  -- When a call of `signalPeerConnections` ends without a panic, the peers split into a first
  -- part, each of which was sent one offer, in the order of the list, and a rest that was sent
  -- none; no other offer went out, and the call asks for another attempt exactly if that rest is
  -- not empty.
  pub signal-Serves :
      (s : Sfu) (rtc : lib.Rtc) (r : Sync lib)
      → signal_peer_connections lib s rtc ≡ some r
      → Serves s.peer_connections [] r
  unfolding signal_peer_connections
  signal-Serves s rtc r e = sync_peers-Serves s [] s.peer_connections rtc [] r e

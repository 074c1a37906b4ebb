-- ===== src/Sfu/Signal/Ids.antt =====
-- A renegotiation names no new connection: every ID is in the list at most as often as before.
use web_rtcsfu.Base.{
  ℕ, ◌+◌, ◌≤◌, ◌≡◌, ap, true, false, some, List, [], ◌∷◌, ◌++◌, nat_beq, if◌then◌else◌, arith,
  Bool-cases, inl, inr,
}
use web_rtcsfu.Base.Bytes.{Bytes}
use web_rtcsfu.Sfu.Types.{Peer, Sfu, Library}
use web_rtcsfu.Sfu.Signal.{
  Turn, after_turn, again, offered, Sync, sync_peers, signal_peer_connections,
}
use web_rtcsfu.Sfu.Signal.Loopback.{peer_of, sync_peer-Follows}
use web_rtcsfu.Sfu.Signal.Turns.{sync_rest, turn_step, closed_step}

-- How often an ID is in the list of peers.
abbrev pub id_count : ℕ → List Peer → ℕ
id_count n [] = 0
id_count n (p ∷ ps) = (if nat_beq p.id n then 1 else 0) + id_count n ps

pub id_count-append :
    (n : ℕ) (ps qs : List Peer) → id_count n (ps ++ qs) ≡ id_count n ps + id_count n qs
id_count-append n [] qs = omega arith
id_count-append n (p ∷ ps) qs = omega (arith, id_count-append n ps qs)

-- A peer in the place of another with its ID.
pub id_count-replaced :
    (n : ℕ) (before after : List Peer) (p q : Peer)
    → q.id ≡ p.id
    → id_count n (before ++ q ∷ after) ≡ id_count n (before ++ p ∷ after)
id_count-replaced n [] after p q same = rw same
id_count-replaced n (b ∷ before) after p q same =
    omega (arith, id_count-replaced n before after p q same)

module _ (lib : Library) (n : ℕ) where
  sync_peers-id_count :
      (s : Sfu) (before ps : List Peer) (rtc : lib.Rtc) (sent : List (ℕ × Bytes)) (r : Sync lib)
      → sync_peers lib s before ps rtc sent ≡ some r
      → id_count n r.peers ≤ id_count n (before ++ ps)
  sync_peers-id_count s before [] rtc sent r e =
      let last : record { try_again = false; peers = before; rtc = rtc; offers = sent } ≡ r =
        (unfold sync_peers in cc) in
      rw (← last) (omega (arith, id_count-append n before []))
  sync_peers-id_count s before (p ∷ ps) rtc sent r e =
      elim (Bool-cases (lib.is_closed rtc p.connection)) [
        | inl closed ↦
            rw (← closed_step lib s before p ps rtc sent r closed e)
              (omega (arith, id_count-append n before ps, id_count-append n before (p ∷ ps)))
        | inr live ↦
            let (turn, taken, rest) = turn_step lib s before p ps rtc sent r live e in
            after turn (sync_peer-Follows lib s p rtc turn taken).same_id
              (λ before' rtc' sent' e'. sync_peers-id_count s before' ps rtc' sent' r e') rest
      ]
    where
      after :
          (turn : Turn lib)
          → (peer_of lib turn).id ≡ p.id
          → ((before' : List Peer) (rtc' : lib.Rtc) (sent' : List (ℕ × Bytes))
              → sync_rest lib s ps before' rtc' sent' ≡ some r
              → id_count n r.peers ≤ id_count n (before' ++ ps))
          → after_turn lib before p ps (sync_rest lib s ps) sent turn ≡ some r
          → id_count n r.peers ≤ id_count n (before ++ p ∷ ps)
      after (again q rtc') same ih rest =
          let last : record {
            try_again = true;
            peers = before ++ q ∷ ps;
            rtc = rtc';
            offers = sent;
          }
              ≡ r =
            (unfold after_turn in cc) in
          rw (← last) (omega (arith, id_count-replaced n before ps p q same))
      after (offered q rtc' text) same ih rest = omega (
        arith,
        ih (before ++ q ∷ []) rtc' (sent ++ (p.id, text) ∷ []) (unfold after_turn in rest),
        id_count-append n (before ++ q ∷ []) ps,
        id_count-append n before (q ∷ []),
        id_count-append n before (p ∷ ps),
        ap {B = ℕ} (λ (i : ℕ). if nat_beq i n then 1 else 0) same,
      )

  pub signal-id_count :
      (s : Sfu) (rtc : lib.Rtc) (r : Sync lib)
      → signal_peer_connections lib s rtc ≡ some r
      → id_count n r.peers ≤ id_count n s.peer_connections
  unfolding signal_peer_connections
  signal-id_count s rtc r e = sync_peers-id_count s [] s.peer_connections rtc [] r e

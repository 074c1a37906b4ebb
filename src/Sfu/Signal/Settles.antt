-- ===== src/Sfu/Signal/Settles.antt =====
-- `signalPeerConnections` starts itself again until every connection that is left has its offer.
use web_rtcsfu.Base.{
  ℕ, zero, suc, ◌<◌, ◌≡◌, refl, sym, ap, ◌∙◌, true, false, some, List, [], ◌∷◌, ◌++◌, ◌>>=◌,
  bytes_eq, Bool-cases, inl, inr, ◌⊎◌, arith, append_assoc, append-nil,
}
use mathlib.Core.List.{map-append}
use web_rtcsfu.Base.Bytes.{Bytes}
use web_rtcsfu.Base.Map.{lookup_keys}
use web_rtcsfu.Sfu.Types.{Peer, Sfu, Library}
use web_rtcsfu.Sfu.Tracks.Publishing.{IsPublished}
use web_rtcsfu.Sfu.Signal.{offered, Sync, sync_peers, after_turn, signal_peer_connections, attempts}
use web_rtcsfu.Sfu.Signal.Loopback.{sync_peer-Follows}
use web_rtcsfu.Sfu.Signal.Turns.{peer_ids, receivers}
use web_rtcsfu.Sfu.Signal.Healthy.{
  Same, Same-refl, Same-trans, IsHealthy, IsReadable, Same-IsReadable,
}
use web_rtcsfu.Sfu.Signal.Offering.{turn_offers}
use web_rtcsfu.Sfu.Signal.Closing.{
  closed_count, live_ids, Alike-Same, Alike-turn, dropped, all_live,
}

module _ (lib : Library) where
  -- An attempt either serves all, or drops one closed connection and asks for another attempt.
  record Served (rtc : lib.Rtc) (before ps : List Peer) (sent : List (ℕ × Bytes)) (r : Sync lib)
      : Type 0 where
    open_all : closed_count lib rtc ps ≡ 0
    last : r.try_again ≡ false
    peers : peer_ids lib r.peers ≡ peer_ids lib before ++ peer_ids lib ps
    offers : receivers lib r.offers ≡ receivers lib sent ++ peer_ids lib ps

  record Dropped (rtc : lib.Rtc) (all : List Peer) (r : Sync lib) : Type 0 where
    another : r.try_again ≡ true
    count : closed_count lib rtc all ≡ suc (closed_count lib rtc r.peers)
    live : live_ids lib rtc all ≡ live_ids lib rtc r.peers

  abbrev Attempt : lib.Rtc → List Peer → List Peer → List (ℕ × Bytes) → Sync lib → Type 0
  Attempt rtc before ps sent r =
      Same lib rtc r.rtc × (Served rtc before ps sent r ⊎ Dropped rtc (before ++ ps) r)

  -- A turn that ends with an offer, in front of the other turns.
  turn_Attempt :
      (rtc rtc' : lib.Rtc) (before : List Peer) (p q : Peer) (ps : List Peer)
      (sent : List (ℕ × Bytes)) (text : Bytes) (r : Sync lib)
      → lib.is_closed rtc p.connection ≡ false
      → q.connection ≡ p.connection
      → q.id ≡ p.id
      → Same lib rtc rtc'
      → Attempt rtc' (before ++ q ∷ []) ps (sent ++ (p.id, text) ∷ []) r
      → Attempt rtc before (p ∷ ps) sent r
  turn_Attempt rtc rtc' before p q ps sent text r here e i same (same', inl served) = (
    Same-trans lib rtc rtc' r.rtc same same',
    inl (record {
      open_all = rw here (sym (Alike-Same lib rtc rtc' ps same).count ∙ served.open_all);
      last = served.last;
      peers =
          served.peers
          ∙ ap (λ t. t ++ peer_ids lib ps) (map-append (λ x. x.id) before (q ∷ []))
          ∙ append_assoc (peer_ids lib before) (q.id ∷ []) (peer_ids lib ps)
          ∙ ap (λ n. peer_ids lib before ++ n ∷ peer_ids lib ps) i;
      offers =
          served.offers
          ∙ ap (λ t. t ++ peer_ids lib ps) (map-append (λ o. o.0) sent ((p.id, text) ∷ []))
          ∙ append_assoc (receivers lib sent) (p.id ∷ []) (peer_ids lib ps);
    }),
  )
  turn_Attempt rtc rtc' before p q ps sent text r here e i same (same', inr fewer) =
      let turned = Alike-turn lib rtc before p q ps e i in
      let later = Alike-Same lib rtc rtc' ((before ++ q ∷ []) ++ ps) same in
      let left = Alike-Same lib rtc rtc' r.peers same in
      (
        Same-trans lib rtc rtc' r.rtc same same',
        inr (record {
          another = fewer.another;
          count = sym turned.count ∙ sym later.count ∙ fewer.count ∙ ap suc left.count;
          live = sym turned.live ∙ sym later.live ∙ fewer.live ∙ left.live;
        }),
      )

  module _ (healthy : IsHealthy lib) (s : Sfu) (published : IsPublished s) where
    sync_peers-Attempt :
        (before ps : List Peer) (rtc : lib.Rtc) (sent : List (ℕ × Bytes))
        → IsReadable lib rtc
        → (r : Sync lib) × (sync_peers lib s before ps rtc sent ≡ some r)
          × Attempt rtc before ps sent r
    unfolding sync_peers after_turn
    sync_peers-Attempt before [] rtc sent readable = (
      record { try_again = false; peers = before; rtc = rtc; offers = sent },
      refl,
      (
        Same-refl lib rtc,
        inl (record {
          open_all = refl;
          last = refl;
          peers = sym (append-nil (peer_ids lib before));
          offers = sym (append-nil (receivers lib sent));
        }),
      ),
    )
    sync_peers-Attempt before (p ∷ ps) rtc sent readable =
        elim (Bool-cases (lib.is_closed rtc p.connection)) [
          | inl gone ↦
              let (count, live) = dropped lib rtc before p ps gone in
              (
                record { try_again = true; peers = before ++ ps; rtc = rtc; offers = sent },
                rw (gone, sync_peers) refl,
                (Same-refl lib rtc, inr (record { another = refl; count = count; live = live })),
              )
          | inr here ↦
              let (q, rtc', text, turn, same) =
                turn_offers lib healthy s p rtc published (lookup_keys s.track_locals) readable
                  here in
              let f = sync_peer-Follows lib s p rtc (offered q rtc' text) turn in
              let (r, e, end) =
                sync_peers-Attempt (before ++ q ∷ []) ps rtc' (sent ++ (p.id, text) ∷ [])
                  (Same-IsReadable lib rtc rtc' same readable) in
              (
                r,
                rw (here, turn, sync_peers) e,
                turn_Attempt rtc rtc' before p q ps sent text r here f.same_connection f.same_id
                    same end,
              )
        ]

  -- What is left when no other call is due: the peers whose connections were not closed, each with one
  -- offer from the last attempt.
  pub record Settled (rtc : lib.Rtc) (ps : List Peer) (r : Sync lib) : Type 0 where
    pub last : r.try_again ≡ false
    pub peers : peer_ids lib r.peers ≡ live_ids lib rtc ps
    pub offers : receivers lib r.offers ≡ live_ids lib rtc ps

  module _ (healthy : IsHealthy lib) where
    -- On fuel that is more than the number of closed connections, the calls come to an end.
    pub attempts-Settled :
        (n : ℕ) (s : Sfu) (rtc : lib.Rtc)
        → IsPublished s
        → IsReadable lib rtc
        → closed_count lib rtc s.peer_connections < n
        → (r : Sync lib) × (attempts lib n s rtc ≡ some r) × Settled rtc s.peer_connections r
    unfolding attempts signal_peer_connections
    attempts-Settled zero s rtc published readable small = absurd (omega arith)
    attempts-Settled (suc n) s rtc published readable small =
        let (r, e, (same, end)) =
          sync_peers-Attempt healthy s published [] s.peer_connections rtc [] readable in
        elim end [
          | inl served ↦
              let alive = all_live lib rtc s.peer_connections served.open_all in
              (
                r,
                rw (e, served.last, ◌>>=◌) refl,
                record {
                  last = served.last;
                  peers = served.peers ∙ sym alive;
                  offers = served.offers ∙ sym alive;
                },
              )
          | inr fewer ↦
              let s' : Sfu = record s { peer_connections = r.peers } in
              let left = Alike-Same lib rtc r.rtc r.peers same in
              let (r', e', done) =
                attempts-Settled n s' r.rtc published (Same-IsReadable lib rtc r.rtc same readable)
                  (omega (arith, left.count, fewer.count)) in
              let live = left.live ∙ sym fewer.live in
              (
                r',
                rw (e, fewer.another, ◌>>=◌) e',
                record { last = done.last; peers = done.peers ∙ live; offers = done.offers ∙ live },
              )
        ]

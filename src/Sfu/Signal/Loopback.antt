-- ===== src/Sfu/Signal/Loopback.antt =====
-- No peer is ever given a sender for a track of its own, and every turn that ends with an offer has
-- given the peer a sender for every other track.
use web_rtcsfu.Base.{
  ℕ, zero, suc, ◌+◌, ◌≤◌, ◌<◌, ◌≡◌, sym, ap, true, some, List, [], ◌∷◌, bytes_eq, Bool-cases,
  Option-cases, inl, inr, ◌⊎◌, arith, beq_refl, dec_lt, ◌∙◌,
}
use web_rtcsfu.Base.Bytes.{Bytes}
use web_rtcsfu.Base.Text.{ℤ, pos}
use web_rtcsfu.Sfu.Types.{Peer, Sfu, Library, audio_id, video_id}
use web_rtcsfu.Sfu.Signal.{
  contains, own_ids, own_videos, rounds, received_ids, sync_senders, add_missing, make_offer,
  sync_tracks, Turn, again, offered, sync_peer,
}
use web_rtcsfu.Sfu.Signal.Follows.{Follows, Follows-trans, Follows-weaken}
use web_rtcsfu.Sfu.Signal.Missing.{sync_senders-Follows, add_missing-Completes, Completes}

-- The IDs of the tracks that a peer publishes itself.
abbrev pub IsOwn : Peer → Bytes → Type 0
IsOwn p id =
    (id ≡ audio_id p.client_id)
    ⊎ ((j : ℕ) × (j < rounds p.number_of_tiles) × (id ≡ video_id p.client_id (pos j)))

own_videos-keeps :
    (id : Bytes) (client_id : ℤ) (j left : ℕ) (ids : List Bytes)
    → contains id ids ≡ true
    → contains id (own_videos client_id j left ids) ≡ true
unfolding own_videos
own_videos-keeps id client_id j zero ids h = h
own_videos-keeps id client_id j (suc left) ids h =
    own_videos-keeps id client_id (j + 1) left (video_id client_id (pos j) ∷ ids) (ground arith)

own_videos-has :
    (client_id : ℤ) (i j left : ℕ) (ids : List Bytes)
    → j ≤ i
    → i < j + left
    → contains (video_id client_id (pos i)) (own_videos client_id j left ids) ≡ true
unfolding own_videos
own_videos-has client_id i j zero ids lo hi = absurd (omega arith)
own_videos-has client_id i j (suc left) ids lo hi = elim (dec_lt j i) [
  | yes later ↦
      own_videos-has client_id i (j + 1) left (video_id client_id (pos j) ∷ ids) (omega arith)
        (omega arith)
  | no now ↦
      let same : j ≡ i = omega arith in
      own_videos-keeps (video_id client_id (pos i)) client_id (j + 1) left
        (video_id client_id (pos j) ∷ ids)
        (rw
          (ap (λ (n : ℕ). video_id client_id (pos n)) same, beq_refl (video_id client_id (pos i))))
]

own_ids-IsOwn :
    (p : Peer) (id : Bytes) (ids : List Bytes) → IsOwn p id → contains id (own_ids p ids) ≡ true
unfolding own_ids
own_ids-IsOwn p id ids (inl e) =
    own_videos-keeps id p.client_id 0 (rounds p.number_of_tiles) (audio_id p.client_id ∷ ids)
      (rw (e, beq_refl (audio_id p.client_id)))
own_ids-IsOwn p id ids (inr (j, h, e)) = rw e (
    own_videos-has p.client_id j 0 (rounds p.number_of_tiles) (audio_id p.client_id ∷ ids)
      (omega arith) (omega arith))

pub IsOwn-same :
    (p q : Peer) (id : Bytes)
    → q.client_id ≡ p.client_id
    → q.number_of_tiles ≡ p.number_of_tiles
    → IsOwn p id
    → IsOwn q id
IsOwn-same p q id c n (inl e) = inl (e ∙ ap audio_id (sym c))
IsOwn-same p q id c n (inr (j, h, e)) = inr (j, rw n h, e ∙ ap (λ z. video_id z (pos j)) (sym c))

module _ (lib : Library) where
  abbrev pub peer_of : Turn lib → Peer
  peer_of (again p rtc) = p
  peer_of (offered p rtc text) = p

  peer_of-make_offer : (p : Peer) (rtc : lib.Rtc) → peer_of (make_offer lib p rtc) ≡ p
  unfolding make_offer
  peer_of-make_offer p rtc = elim (Option-cases (lib.create_offer rtc p.connection)) [
    | inl failed ↦ rw (failed, make_offer)
    | inr ((offer, rtc'), made) ↦
        let described = lib.set_local_description rtc' p.connection offer in
        elim (Bool-cases described.0) [
          | inl ok ↦ elim (Option-cases (lib.marshal offer)) [
            | inl failed ↦ rw (made, ok, failed, make_offer)
            | inr (payload, text) ↦ rw (made, ok, text, make_offer)
          ]
          | inr failed ↦ rw (made, failed, make_offer)
        ]
  ]

  -- If a peer's turn that reaches its receivers ends without a panic, then the received IDs could
  -- be read, and with the peer's own IDs they make the set of IDs to leave out. Each ID of
  -- `trackLocals` outside that set has a sender afterwards, every other ID has exactly the entry
  -- in the peer's senders that it had before, no ID lost its entry, and the peer is otherwise the
  -- same up to its decisions. The sender of an ID of `trackLocals` outside the set may be another
  -- one than before.
  pub sync_tracks-Completes :
      (s : Sfu) (p : Peer) (rtc : lib.Rtc) (ids : List Bytes) (turn : Turn lib)
      → sync_tracks lib s p rtc ids ≡ some turn
      → (received : List Bytes) × (received_ids (lib.get_receivers rtc p.connection) ids
          ≡ some received)
        × Completes s.track_locals (own_ids p received) p (peer_of turn)
  unfolding sync_tracks
  sync_tracks-Completes s p rtc ids turn e =
      elim (Option-cases (received_ids (lib.get_receivers rtc p.connection) ids)) [
        | inl failed ↦ absurd (cc (rw (failed, sync_tracks) at e))
        | inr (received, read) ↦
            elim (Option-cases (add_missing lib s p rtc s.track_locals (own_ids p received))) [
              | inl failed ↦ absurd (cc (rw (read, failed, sync_tracks) at e))
              | inr ((q, rtc'), added) ↦
                  let last : some (make_offer lib q rtc') ≡ some turn =
                    rw (read, added, sync_tracks) at e in
                  let here : make_offer lib q rtc' ≡ turn = cc in
                  (
                    received,
                    read,
                    rw (← here, peer_of-make_offer q rtc')
                        (add_missing-Completes lib s p rtc s.track_locals (own_ids p received) q
                          rtc' added),
                  )
            ]
      ]

  pub sync_peer-Follows :
      (s : Sfu) (p : Peer) (rtc : lib.Rtc) (turn : Turn lib)
      → sync_peer lib s p rtc ≡ some turn
      → Follows (IsOwn p) p (peer_of turn)
  unfolding sync_peer
  sync_peer-Follows s p rtc turn e =
      let out = sync_senders lib s.track_locals p rtc (lib.get_senders rtc p.connection) [] in
      let f = sync_senders-Follows lib s.track_locals p rtc (lib.get_senders rtc p.connection) [] in
      let g = Follows-weaken _ (IsOwn p) p out.1 (λ id k. tt) f in
      elim (Bool-cases out.0) [
        | inl complete ↦
            let (received, read, done) =
              sync_tracks-Completes s out.1 out.2 out.3 turn (rw complete at e) in
            Follows-trans (IsOwn p) p out.1 (peer_of turn) g (
              Follows-weaken _ (IsOwn p) out.1 (peer_of turn)
                (λ id k.
                  own_ids-IsOwn out.1 id received
                    (IsOwn-same p out.1 id g.same_client g.same_tiles k))
                done.0)
        | inr failed ↦
            let stopped : some (again out.1 out.2) ≡ some turn = rw failed at e in
            let here : again out.1 out.2 ≡ turn = cc in rw (← here) g
      ]

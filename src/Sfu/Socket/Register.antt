-- ===== src/Sfu/Socket/Register.antt =====
-- What the handler registers for a new client before its first renegotiation.
use web_rtcsfu.Base.{
  ℕ, zero, suc, ◌+◌, ◌<◌, ◌≤◌, ◌≡◌, ◌≢◌, refl, ap, none, some, [], ◌∷◌, ◌++◌, Option-cases,
  Bool-cases, inl, inr, ◌==◌, bytes_eq, nat_eq, if◌then◌else◌, arith, dec_lt, beq_refl,
}
use web_rtcsfu.Base.Bytes.{Bytes, codes}
use web_rtcsfu.Base.Map.{lookup}
use web_rtcsfu.Base.Text.{ℤ, pos, format_uint}
use web_rtcsfu.Sfu.Types.{TrackLocal, Peer, Sfu, Library, ℤ_eq, audio_id, video_id}
use web_rtcsfu.Sfu.Tracks.{add_track_local, add_quality_track, track_quality}
use web_rtcsfu.Sfu.Tracks.Growing.{
  Grows, Grows-refl, Grows-trans, add_track_local-Grows, add_track_local-has,
  add_quality_track-Grows, track_quality-add,
}
use web_rtcsfu.Sfu.Signal.{rounds}
use web_rtcsfu.Sfu.Socket.{register_qualities, register_tiles, register_client}

-- `NewTrackLocalStaticRTP` gives a track the ID that it is asked for.
pub record NamingLaw (lib : Library) : Type 0 where
  pub named :
      (rtc : lib.Rtc) (id stream_id : Bytes) (t : TrackLocal) (rtc' : lib.Rtc)
      → lib.new_track rtc id stream_id ≡ some (t, rtc')
      → t.id ≡ id

module _ (lib : Library) (law : NamingLaw lib) (client_id : ℤ) where
  -- The maps after one round of the inner loop.
  abbrev pub after_round : ℕ → ℕ → Sfu → TrackLocal → Sfu
  after_round i j s t =
      let s' = add_quality_track s t (pos j) (video_id client_id (pos i)) in
      if j == 0 then add_track_local s' t else s'

  after_round-Grows : (i j : ℕ) (s : Sfu) (t : TrackLocal) → Grows s (after_round i j s t)
  after_round-Grows i j s t =
      let s' = add_quality_track s t (pos j) (video_id client_id (pos i)) in
      let first = add_quality_track-Grows s t (pos j) (video_id client_id (pos i)) in
      elim (Bool-cases (j == 0)) [
        | inl e ↦ rw e (Grows-trans s s' (add_track_local s' t) first (add_track_local-Grows s' t))
        | inr e ↦ rw e first
      ]

  after_round-quality :
      (i j : ℕ) (s : Sfu) (t : TrackLocal)
      → track_quality (after_round i j s t) (video_id client_id (pos i)) (pos j) ≢ none
  after_round-quality i j s t =
      let id = video_id client_id (pos i) in
      let s' = add_quality_track s t (pos j) id in
      let here : track_quality s' id (pos j) ≢ none =
        rw (track_quality-add s t (pos j) (pos j) id id, beq_refl id, beq_refl (pos j)) (λ h. cc) in
      elim (Bool-cases (j == 0)) [
        | inl e ↦ rw e ((add_track_local-Grows s' t).qualities id (pos j) here)
        | inr e ↦ rw e here
      ]

  after_round-local :
      (i : ℕ) (s : Sfu) (t : TrackLocal)
      → t.id ≡ video_id client_id (pos i)
      → lookup (video_id client_id (pos i)) (after_round i 0 s t).track_locals ≢ none
  after_round-local i s t e =
      add_track_local-has (add_quality_track s t (pos 0) (video_id client_id (pos i))) t
        (video_id client_id (pos i)) e

  -- The tile `i` at the qualities from `j` on is there.
  abbrev pub Qualities : ℕ → ℕ → ℕ → Sfu → Type 0
  Qualities i j stop s =
      (k : ℕ) → j ≤ k → k < stop → track_quality s (video_id client_id (pos i)) (pos k) ≢ none

  pub register_qualities-step :
      (i j left : ℕ) (s : Sfu) (rtc : lib.Rtc) (s' : Sfu) (rtc' : lib.Rtc)
      → register_qualities lib client_id i j (suc left) s rtc ≡ some (s', rtc')
      → (t : TrackLocal) × (mid : lib.Rtc) × (t.id ≡ video_id client_id (pos i))
        × (register_qualities lib client_id i (j + 1) left (after_round i j s t) mid
            ≡ some (s', rtc'))
  unfolding register_qualities
  register_qualities-step i j left s rtc s' rtc' e =
      elim (Option-cases (lib.new_track rtc (video_id client_id (pos i)) (format_uint i))) [
        | inl failed ↦ absurd (cc (rw (failed, register_qualities) at e))
        | inr ((t, mid), made) ↦
            (t, mid, law.named rtc _ _ t mid made, rw (made, register_qualities) at e)
      ]

  register_qualities-Grows :
      (i j left : ℕ) (s : Sfu) (rtc : lib.Rtc) (s' : Sfu) (rtc' : lib.Rtc)
      → register_qualities lib client_id i j left s rtc ≡ some (s', rtc')
      → Grows s s' × Qualities i j (j + left) s'
  register_qualities-Grows i j zero s rtc s' rtc' e =
      let same : s ≡ s' = (unfold register_qualities in cc) in
      rw (← same) (Grows-refl s, λ k lo hi. absurd (omega arith))
  register_qualities-Grows i j (suc left) s rtc s' rtc' e =
      let (t, mid, name, rest) = register_qualities-step i j left s rtc s' rtc' e in
      let now = after_round i j s t in
      let (grows, later) = register_qualities-Grows i (j + 1) left now mid s' rtc' rest in
      (
        Grows-trans s now s' (after_round-Grows i j s t) grows,
        λ k lo hi. elim (dec_lt j k) [
          | yes more ↦ later k (omega arith) (omega arith)
          | no less ↦
              let here : j ≡ k = omega arith in
              rw (← here)
                (grows.qualities (video_id client_id (pos i)) (pos j) (after_round-quality i j s t))
        ],
      )

  register_qualities-local :
      (i left : ℕ) (s : Sfu) (rtc : lib.Rtc) (s' : Sfu) (rtc' : lib.Rtc)
      → 0 < left
      → register_qualities lib client_id i 0 left s rtc ≡ some (s', rtc')
      → lookup (video_id client_id (pos i)) s'.track_locals ≢ none
  register_qualities-local i zero s rtc s' rtc' h e = absurd (omega arith)
  register_qualities-local i (suc left) s rtc s' rtc' h e =
      let (t, mid, name, rest) = register_qualities-step i 0 left s rtc s' rtc' e in
      (register_qualities-Grows i 1 left (after_round i 0 s t) mid s' rtc' rest).0.locals
        (video_id client_id (pos i)) (after_round-local i s t name)

  -- The tiles from `i` on are there, at every quality and as tracks that peers are given.
  abbrev pub Tiles : ℕ → ℕ → ℕ → Sfu → Type 0
  Tiles m i stop s =
      (k : ℕ)
      → i ≤ k
      → k < stop
      → Qualities k 0 m s × (0 < m → lookup (video_id client_id (pos k)) s.track_locals ≢ none)

  -- The client's audio and all its tiles are there, nothing was lost, and the list of peers has one
  -- more.
  abbrev pub Published : ℕ → ℕ → Sfu → Sfu → Type 0
  Published n m s s' =
      ((id : Bytes) → lookup id s.track_locals ≢ none → lookup id s'.track_locals ≢ none)
      × (lookup (audio_id client_id) s'.track_locals ≢ none)
      × Tiles m 0 n s'
      × ((p : Peer) × (s'.peer_connections ≡ s.peer_connections ++ p ∷ [])
          × (p.client_id ≡ client_id)
          × (p.track_rtp_senders ≡ [])
          × (p.quality_decisions ≡ []))

  -- The entry of the new client.
  abbrev newcomer : ℕ → ℕ → ℤ → Peer
  newcomer connection id n = record {
    connection = connection;
    id = id;
    track_rtp_senders = [];
    quality_decisions = [];
    pending_candidates = [];
    client_id = client_id;
    number_of_tiles = n;
  }

  pub register_tiles-Tiles :
      (m i left : ℕ) (s : Sfu) (rtc : lib.Rtc) (s' : Sfu) (rtc' : lib.Rtc)
      → register_tiles lib client_id m i left s rtc ≡ some (s', rtc')
      → Grows s s' × Tiles m i (i + left) s'
  unfolding register_tiles
  register_tiles-Tiles m i zero s rtc s' rtc' e =
      let same : s ≡ s' = cc in rw (← same) (Grows-refl s, λ k lo hi. absurd (omega arith))
  register_tiles-Tiles m i (suc left) s rtc s' rtc' e =
      elim (Option-cases (register_qualities lib client_id i 0 m s rtc)) [
        | inl failed ↦ absurd (cc (rw (failed, register_tiles) at e))
        | inr ((now, mid), done) ↦
            let first = register_qualities-Grows i 0 m s rtc now mid done in
            let rest =
              register_tiles-Tiles m (i + 1) left now mid s' rtc'
                (rw (done, register_tiles) at e) in
            (
              Grows-trans s now s' first.0 rest.0,
              λ k lo hi. elim (dec_lt i k) [
                | yes more ↦ rest.1 k (omega arith) (omega arith)
                | no less ↦
                    let here : i ≡ k = omega arith in
                    rw (← here) (
                      λ q low high. rest.0.qualities _ (pos q) (first.1 q low (omega arith)),
                      λ positive.
                          rest.0.locals _
                            (register_qualities-local i m s rtc now mid positive done),
                    )
              ],
            )
      ]

  -- Let a new track have the ID that it is asked for. If the registration of a client ends without
  -- a panic, then no ID of `trackLocals` was lost, the client's audio ID is there, each of its
  -- tiles has a track at each of its qualities and, if there is a quality at all, an ID in
  -- `trackLocals`, and the list of peers has one more entry at its end: the client's, without
  -- senders and decisions.
  pub register_client-Published :
      (s : Sfu) (rtc : lib.Rtc) (connection id : ℕ) (n m : ℤ) (s' : Sfu) (rtc' : lib.Rtc)
      → register_client lib s rtc connection id
          (record { number_of_tiles = n; number_of_qualities = m; client_id = client_id })
        ≡ some (s', rtc')
      → Published (rounds n) (rounds m) s s'
  unfolding register_client
  register_client-Published s rtc connection id n m s' rtc' e =
      elim (Option-cases (lib.new_track rtc (audio_id client_id) (codes "99"))) [
        | inl failed ↦ absurd (cc (rw (failed, register_client) at e))
        | inr ((t, mid), made) ↦
            let start = add_track_local s t in
            elim (Option-cases (register_tiles lib client_id (rounds m) 0 (rounds n) start mid)) [
              | inl failed ↦ absurd (cc (rw (made, failed, register_client) at e))
              | inr ((now, last), done) ↦
                  let p = newcomer connection id n in
                  let end : some
                        (record now { peer_connections = now.peer_connections ++ p ∷ [] }, last)
                      ≡ some (s', rtc') =
                    rw (made, done, register_client) at e in
                  let same : record now { peer_connections = now.peer_connections ++ p ∷ [] } ≡ s' =
                    cc end in
                  let name = law.named rtc _ _ t mid made in
                  let (grows, tiles) =
                    register_tiles-Tiles (rounds m) 0 (rounds n) start mid now last done in
                  let all = Grows-trans s start now (add_track_local-Grows s t) grows in
                  rw (← same) (
                    all.locals,
                    grows.locals (audio_id client_id)
                        (add_track_local-has s t (audio_id client_id) name),
                    λ k lo hi. tiles k lo (omega arith),
                    (p, ap (λ ps. ps ++ p ∷ []) all.peers, refl, refl, refl),
                  )
            ]
      ]

-- ===== src/Sfu/Socket/Entering.antt =====
-- The registration of a client publishes no video without its first quality.
use web_rtcsfu.Base.{
  ℕ, zero, suc, ◌+◌, ◌≡◌, refl, sym, ap, true, some, ◌==◌, nat_eq, bytes_eq, [], ◌∷◌, ◌++◌, ◌∙◌,
  Bool-cases, ◌≢◌, none, inl, inr, >>=-eq_some,
}
use web_rtcsfu.Base.Bytes.{Bytes, codes}
use web_rtcsfu.Base.Text.{ℤ, pos}
use web_rtcsfu.Sfu.Types.{TrackLocal, Peer, Sfu, Library, ℤ_eq, audio_id, video_id}
use web_rtcsfu.Sfu.Tracks.{add_track_local, is_audio, track_quality}
use web_rtcsfu.Sfu.Tracks.Publishing.{
  IsPublished, is_audio-audio_id, add_track_local-IsPublished, add_quality_track-IsPublished,
  add_first-IsPublished,
}
use web_rtcsfu.Sfu.Signal.{rounds}
use web_rtcsfu.Sfu.Socket.{Query, register_qualities, register_tiles, register_client}
use web_rtcsfu.Sfu.Socket.Register.{
  NamingLaw, after_round, register_qualities-step, register_tiles-Tiles,
}
use web_rtcsfu.Sfu.Tracks.Growing.{Grows, Grows-trans, add_track_local-Grows}

module _ (lib : Library) (law : NamingLaw lib) where
  after_round-IsPublished :
      (client_id : ℤ) (i j : ℕ) (s : Sfu) (t : TrackLocal)
      → t.id ≡ video_id client_id (pos i)
      → IsPublished s
      → IsPublished (after_round lib law client_id i j s t)
  after_round-IsPublished client_id i j s t name h =
      let id = video_id client_id (pos i) in
      elim (Bool-cases (j == 0)) [
        | inl first ↦
            rw first
              (add_first-IsPublished s t (pos j) id name (ap pos ((nat_eq.beq_iff j 0).0 first)) h)
        | inr other ↦ rw other (add_quality_track-IsPublished s t (pos j) id h)
      ]

  register_qualities-IsPublished :
      (client_id : ℤ) (i j left : ℕ) (s : Sfu) (rtc : lib.Rtc) (s' : Sfu) (rtc' : lib.Rtc)
      → register_qualities lib client_id i j left s rtc ≡ some (s', rtc')
      → IsPublished s
      → IsPublished s'
  register_qualities-IsPublished client_id i j zero s rtc s' rtc' e h =
      let same : s ≡ s' = (unfold register_qualities in cc) in rw (← same) h
  register_qualities-IsPublished client_id i j (suc left) s rtc s' rtc' e h =
      let (t, mid, name, rest) =
        register_qualities-step lib law client_id i j left s rtc s' rtc' e in
      register_qualities-IsPublished client_id i (j + 1) left
        (after_round lib law client_id i j s t) mid s' rtc' rest
        (after_round-IsPublished client_id i j s t name h)

  register_tiles-IsPublished :
      (client_id : ℤ) (m i left : ℕ) (s : Sfu) (rtc : lib.Rtc) (s' : Sfu) (rtc' : lib.Rtc)
      → register_tiles lib client_id m i left s rtc ≡ some (s', rtc')
      → IsPublished s
      → IsPublished s'
  unfolding register_tiles
  register_tiles-IsPublished client_id m i zero s rtc s' rtc' e h =
      let same : s ≡ s' = cc in rw (← same) h
  register_tiles-IsPublished client_id m i (suc left) s rtc s' rtc' e h =
      let (now, done, rest) =
        >>=-eq_some (register_qualities lib client_id i 0 m s rtc) _ (s', rtc') e in
      register_tiles-IsPublished client_id m (i + 1) left now.0 now.1 s' rtc' rest
        (register_qualities-IsPublished client_id i 0 m s rtc now.0 now.1 done h)

  pub register_client-IsPublished :
      (s : Sfu) (rtc : lib.Rtc) (connection id : ℕ) (q : Query) (s' : Sfu) (rtc' : lib.Rtc)
      → register_client lib s rtc connection id q ≡ some (s', rtc')
      → IsPublished s
      → IsPublished s'
  unfolding register_client
  register_client-IsPublished s rtc connection id q s' rtc' e h =
      let (made, fresh, e1) =
        >>=-eq_some (lib.new_track rtc (audio_id q.client_id) (codes "99")) _ (s', rtc') e in
      let t : TrackLocal = made.0 in
      let (now, done, e2) =
        >>=-eq_some
          (register_tiles lib q.client_id (rounds q.number_of_qualities) 0
            (rounds q.number_of_tiles) (add_track_local s t) (made.1))
          _ (s', rtc') e1 in
      let audio : is_audio t.id ≡ some true =
        ap is_audio (law.named rtc _ _ t (made.1) fresh) ∙ is_audio-audio_id q.client_id in
      let start = add_track_local-IsPublished s t (λ video. absurd (cc video)) h in
      let p : Peer = record {
        connection = connection;
        id = id;
        track_rtp_senders = [];
        quality_decisions = [];
        pending_candidates = [];
        client_id = q.client_id;
        number_of_tiles = q.number_of_tiles;
      } in
      let last : record (now.0) { peer_connections = now.0.peer_connections ++ p ∷ [] } ≡ s' =
        cc e2 in
      let all : IsPublished (now.0) =
        register_tiles-IsPublished q.client_id (rounds q.number_of_qualities) 0
          (rounds q.number_of_tiles) (add_track_local s t) (made.1) (now.0) (now.1) done start in
      rw (← last) all

  -- The registration of a client makes the maps grow, and puts one entry, with its number, behind
  -- the others.
  register_client-Grows :
      (s : Sfu) (rtc : lib.Rtc) (connection id : ℕ) (q : Query) (s' : Sfu) (rtc' : lib.Rtc)
      → register_client lib s rtc connection id q ≡ some (s', rtc')
      → (now : Sfu) × (p : Peer) × Grows s now
        × (p.id ≡ id)
        × (record now { peer_connections = now.peer_connections ++ p ∷ [] } ≡ s')
  unfolding register_client
  register_client-Grows s rtc connection id q s' rtc' e =
      let (made, fresh, e1) =
        >>=-eq_some (lib.new_track rtc (audio_id q.client_id) (codes "99")) _ (s', rtc') e in
      let start = add_track_local s (made.0) in
      let (now, done, e2) =
        >>=-eq_some
          (register_tiles lib q.client_id (rounds q.number_of_qualities) 0
            (rounds q.number_of_tiles) start (made.1))
          _ (s', rtc') e1 in
      let p : Peer = record {
        connection = connection;
        id = id;
        track_rtp_senders = [];
        quality_decisions = [];
        pending_candidates = [];
        client_id = q.client_id;
        number_of_tiles = q.number_of_tiles;
      } in
      let (grows, _) =
        register_tiles-Tiles lib law q.client_id (rounds q.number_of_qualities) 0
          (rounds q.number_of_tiles) start (made.1) (now.0) (now.1) done in
      (now.0, p, Grows-trans s start (now.0) (add_track_local-Grows s (made.0)) grows, refl, cc e2)

  pub register_client-qualities :
      (s : Sfu) (rtc : lib.Rtc) (connection id : ℕ) (q : Query) (s' : Sfu) (rtc' : lib.Rtc)
      → register_client lib s rtc connection id q ≡ some (s', rtc')
      → (track_id : Bytes) (quality : ℤ) → track_quality s track_id quality ≢ none
      → track_quality s' track_id quality ≢ none
  register_client-qualities s rtc connection id q s' rtc' e track_id quality h =
      let (now, p, grows, _, last) = register_client-Grows s rtc connection id q s' rtc' e in
      rw (← last) (grows.qualities track_id quality h)

  pub register_client-entry :
      (s : Sfu) (rtc : lib.Rtc) (connection id : ℕ) (q : Query) (s' : Sfu) (rtc' : lib.Rtc)
      → register_client lib s rtc connection id q ≡ some (s', rtc')
      → (p : Peer) × (p.id ≡ id) × (s.peer_connections ++ p ∷ [] ≡ s'.peer_connections)
  register_client-entry s rtc connection id q s' rtc' e =
      let (now, p, grows, name, last) = register_client-Grows s rtc connection id q s' rtc' e in
      (
        p,
        name,
        ap (λ ps. ps ++ p ∷ []) (sym grows.peers) ∙ ap (λ (x : Sfu). x.peer_connections) last,
      )

-- ===== src/Peer/Proxy/Interleaved/Foreign.antt =====
-- A datagram that is not of a frame leaves the frame's entry as it is.
use web_rtcsfu.Base.{
  ℕ, ◌≡◌, ◌≢◌, refl, ap, ◌∙◌, some, List, [], ◌∷◌, ◌==◌, nat_eq, Bool-cases, inl, inr, ◌⊎◌,
  >>=-eq_some, replicate, drop, ◌+◌, beq_ne, length, false,
}
use web_rtcsfu.Base.Bytes.{Bytes, copy, uint32}
use web_rtcsfu.Base.Map.{Map, lookup, insert, remove, lookup-insert, lookup-remove}
use web_rtcsfu.Peer.Packet.{
  type_header_size, video_header_size, audio_header_size, udp_buffer_length,
}
use web_rtcsfu.Peer.Proxy.{
  receive, store_tile, store_audio, finish_tile, finish_audio, set_first, read_video_header,
  read_audio_header, found_or, new_tile, absorb,
}
use web_rtcsfu.Peer.Proxy.Types.{
  VideoKey, key_eq, video_key, VideoPacketHeader, AudioPacketHeader, RemoteTile, ProxyConnection,
  Effect, tile_packet_type, audio_packet_type, control_packet_type, wake_video,
}
use web_rtcsfu.Peer.Proxy.Store.{frames_of}
use web_rtcsfu.Peer.Proxy.Store
use web_rtcsfu.Peer.Proxy.Waiting.Effects.{receive-Puts}
use web_rtcsfu.Peer.Proxy.Delivery.{Frame, key_of}
use web_rtcsfu.Peer.Proxy.AnyOrder.{IsListening}

-- The buffer that a datagram is read into.
abbrev pub buffered : Bytes → Bytes
buffered d = copy 0 d (replicate udp_buffer_length 0)

-- Nothing of the tiles that are not complete, and of the condition variables, has changed.
abbrev SameTiles : ProxyConnection → ProxyConnection → Type 0
SameTiles pc now = (now.incomplete_tiles ≡ pc.incomplete_tiles) × (now.cond_video ≡ pc.cond_video)

store_audio-SameTiles :
    (pc : ProxyConnection) (p : AudioPacketHeader) (buffer : Bytes)
    (now : ProxyConnection × List Effect)
    → store_audio pc p buffer ≡ some now
    → SameTiles pc now.0
unfolding store_audio finish_audio
store_audio-SameTiles pc p buffer now e =
    let value =
      found_or (lookup p.frame_nr pc.incomplete_audio_frames) (new_tile p.frame_nr p.frame_len) in
    let (r, absorbed, e1) =
      >>=-eq_some
        (absorb (type_header_size + audio_header_size) value p.frame_offset p.packet_len buffer) _
        now e in
    elim (Bool-cases (r.current_len == r.file_len)) [
      | inl complete ↦ elim (Bool-cases pc.cond_audio) [
        | inl set ↦ let woke = rw (complete, set) at e1 in (cc woke, cc woke)
        | inr unset ↦ let failed = rw (complete, unset) at e1 in absurd (cc failed)
      ]
      | inr partial ↦ let kept = rw partial at e1 in (cc kept, cc kept)
    ]

-- A datagram is a tile's, with its header, or it does not touch the tiles that are not complete.
receive-by_kind :
    (pc : ProxyConnection) (d : Bytes) (now : ProxyConnection × List Effect)
    → receive pc d ≡ some now
    → ((p : VideoPacketHeader) × (uint32 (buffered d) ≡ some tile_packet_type)
        × (read_video_header (drop type_header_size (buffered d)) ≡ some p)
        × (store_tile pc p (buffered d) ≡ some now))
      ⊎ SameTiles pc now.0
unfolding receive
receive-by_kind pc d now e =
    let buffer = buffered d in
    let (ptype, read, e1) = >>=-eq_some (uint32 buffer) _ now e in
    elim (Bool-cases (ptype == tile_packet_type)) [
      | inl tile ↦
          let (p, header, e2) =
            >>=-eq_some (read_video_header (drop type_header_size buffer)) _ now (rw tile at e1) in
          inl (p, read ∙ ap some ((nat_eq.beq_iff ptype tile_packet_type).0 tile), header, e2)
      | inr no_tile ↦ elim (Bool-cases (ptype == audio_packet_type)) [
        | inl sound ↦
            let (p, header, e2) =
              >>=-eq_some (read_audio_header (drop type_header_size buffer)) _ now
                (rw (no_tile, sound) at e1) in
            inr (store_audio-SameTiles pc p buffer now e2)
        | inr no_sound ↦ elim (Bool-cases (ptype == control_packet_type)) [
          | inl control ↦ let kept = rw (no_tile, no_sound, control) at e1 in inr (cc kept, cc kept)
          | inr unknown ↦ let kept = rw (no_tile, no_sound, unknown) at e1 in inr (cc kept, cc kept)
        ]
      ]
    ]

module _ (frame : Frame) where
  abbrev key : VideoKey
  key = key_of frame

  -- It is no tile's datagram, or one of another key or of another frame number.
  abbrev pub IsForeign : Bytes → Type 0
  IsForeign d =
      (p : VideoPacketHeader)
      → uint32 (buffered d) ≡ some tile_packet_type
      → read_video_header (drop type_header_size (buffered d)) ≡ some p
      → video_key p ≡ key
      → p.frame_nr ≢ frame.frame_nr

  -- Frames of one key put into the map, with the frame's entry as it was where the key is its own.
  insert-frames :
      (pc : ProxyConnection) (tiles : Map VideoKey (Map ℕ RemoteTile)) (other : VideoKey)
      (frames : Map ℕ RemoteTile)
      → (other ≡ key → lookup frame.frame_nr frames ≡ lookup frame.frame_nr (frames_of pc key))
      → ((other == key) ≡ false → lookup key tiles ≡ lookup key pc.incomplete_tiles)
      → lookup frame.frame_nr (found_or (lookup key (insert other frames tiles)) [])
        ≡ lookup frame.frame_nr (frames_of pc key)
  insert-frames pc tiles other frames own apart = elim (Bool-cases (other == key)) [
    | inl same ↦
        rw (lookup-insert other key frames tiles, same) (own ((key_eq.beq_iff other key).0 same))
    | inr differ ↦ rw (lookup-insert other key frames tiles, differ, apart differ) refl
  ]

  store_tile-entry :
      (pc : ProxyConnection) (p : VideoPacketHeader) (buffer : Bytes)
      (now : ProxyConnection × List Effect)
      → store_tile pc p buffer ≡ some now
      → (video_key p ≡ key → p.frame_nr ≢ frame.frame_nr)
      → (lookup frame.frame_nr (frames_of now.0 key) ≡ lookup frame.frame_nr (frames_of pc key))
        × (now.0.cond_video ≡ pc.cond_video)
  unfolding store_tile finish_tile
  store_tile-entry pc p buffer now e other =
      let k = video_key p in
      let frames = frames_of pc k in
      let value = found_or (lookup p.frame_nr frames) (new_tile p.frame_nr p.frame_len) in
      let (r, absorbed, e1) =
        >>=-eq_some
          (absorb (type_header_size + video_header_size) value p.frame_offset p.packet_len buffer) _
          now e in
      let frames' = insert p.frame_nr r frames in
      let tiles = insert k frames' pc.incomplete_tiles in
      let put : k ≡ key → lookup frame.frame_nr frames' ≡ lookup frame.frame_nr (frames_of pc key) =
        (λ same.
          lookup-insert p.frame_nr frame.frame_nr r frames
          ∙ rw (beq_ne p.frame_nr frame.frame_nr (other same))
              (ap (λ x. lookup frame.frame_nr (frames_of pc x)) same)) in
      let stored = insert-frames pc pc.incomplete_tiles k frames' put (λ differ. refl) in
      elim (Bool-cases (r.current_len == r.file_len)) [
        | inl complete ↦
            let e2 = rw complete at e1 in
            let (slot, filled, e3) =
              >>=-eq_some (set_first (lookup k pc.complete_tiles) r) _ now e2 in
            let (cond, found, e4) = >>=-eq_some (lookup k pc.cond_video) _ now e3 in
            let removed =
              insert-frames pc tiles k (remove p.frame_nr frames')
                (λ same.
                  lookup-remove p.frame_nr frame.frame_nr frames'
                  ∙ rw (beq_ne p.frame_nr frame.frame_nr (other same)) (put same))
                (λ differ. rw (lookup-insert k key frames' pc.incomplete_tiles, differ) refl) in
            let last : (
              record pc {
                incomplete_tiles = insert k (remove p.frame_nr frames') tiles;
                complete_tiles = insert k slot pc.complete_tiles;
              },
              wake_video k ∷ [],
            )
                ≡ now =
              cc e4 in
            rw (← last) (removed, refl)
        | inr partial ↦
            let kept = rw partial at e1 in
            let last : (record pc { incomplete_tiles = tiles }, []) ≡ now = cc kept in
            rw (← last) (stored, refl)
      ]

  -- The frame's entry, its condition variable and its slot after a datagram.
  pub record Undisturbed (pc now : ProxyConnection) : Type 0 where
    pub entry :
        Store.entry now key frame.frame_nr (length frame.bytes)
        ≡ Store.entry pc key frame.frame_nr (length frame.bytes)
    pub listening : IsListening frame now

  slot_kept :
      (pc : ProxyConnection) (d : Bytes) (now : ProxyConnection × List Effect)
      → receive pc d ≡ some now
      → lookup key pc.complete_tiles ≢ some []
      → lookup key now.0.complete_tiles ≢ some []
  slot_kept pc d now e h = elim (receive-Puts pc d now e) [
    | inl quiet ↦ rw quiet.0 h
    | inr put ↦
        let (k, r, older, there, woken, frame) = put in
        elim (Bool-cases (k == key)) [
          | inl same ↦
              rw (there, lookup-insert k key (r ∷ older) pc.complete_tiles, same) (λ x. cc x)
          | inr other ↦ rw (there, lookup-insert k key (r ∷ older) pc.complete_tiles, other) h
        ]
  ]

  pub receive-Undisturbed :
      (pc : ProxyConnection) (d : Bytes) (now : ProxyConnection × List Effect)
      → IsForeign d
      → receive pc d ≡ some now
      → IsListening frame pc
      → Undisturbed pc now.0
  receive-Undisturbed pc d now other e l = elim (receive-by_kind pc d now e) [
    | inl tile ↦
        let (p, kind, header, run) = tile in
        let (kept, cond) = store_tile-entry pc p (buffered d) now run (other p kind header) in
        record {
          entry = rw kept refl;
          listening = record { cond = rw cond l.cond; slot = slot_kept pc d now e l.slot };
        }
    | inr same ↦ record {
      entry = rw same.0 refl;
      listening = record { cond = rw same.1 l.cond; slot = slot_kept pc d now e l.slot };
    }
  ]

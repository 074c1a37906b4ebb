-- ===== src/Peer/Proxy/Waiting/Effects.antt =====
-- What a datagram does to the complete tiles, and whom it wakes.
use web_rtcsfu.Base.{
  ℕ, ◌≡◌, refl, sym, ap, Option, none, some, List, [], ◌∷◌, Bool, true, false, ◌==◌, nat_eq,
  if◌then◌else◌, Bool-cases, inl, inr, ◌⊎◌, >>=-eq_some, ◌>>=◌, replicate, drop, ◌+◌,
}
use web_rtcsfu.Base.Bytes.{Bytes, copy, uint32, slice, u32}
use web_rtcsfu.Base.Map.{Map, lookup, insert, remove}
use web_rtcsfu.Peer.Packet.{
  type_header_size, video_header_size, audio_header_size, udp_buffer_length,
}
use web_rtcsfu.Peer.Proxy.{
  receive, store_tile, store_audio, finish_tile, finish_audio, set_first, read_video_header,
  read_audio_header, found_or, new_tile, absorb,
}
use web_rtcsfu.Peer.Proxy.Types.{
  VideoKey, key_eq, video_key, VideoPacketHeader, AudioPacketHeader, RemoteTile, ProxyConnection,
  Effect, wake_video, wake_audio, forward, tile_packet_type, audio_packet_type, control_packet_type,
}

-- Nothing about video is set off.
abbrev pub IsQuiet : List Effect → Type 0
IsQuiet [] = Unit {0}
IsQuiet (wake_video key ∷ es) = ⊥
IsQuiet (wake_audio ∷ es) = IsQuiet es
IsQuiet (forward message ∷ es) = IsQuiet es

-- What a tile packet completes: its part of the frame is copied to its place in the bytes that are
-- there, or in as many zeros as the frame has bytes, and the lengths of the parts make up the frame's.
abbrev completed_tile : ProxyConnection → VideoPacketHeader → Bytes → Option (VideoKey × Bytes)
completed_tile pc p buffer = do
  let frames = found_or (lookup (video_key p) pc.incomplete_tiles) []
  let before = found_or (lookup p.frame_nr frames) (new_tile p.frame_nr p.frame_len)
  part ← slice 32 (u32 (32 + p.packet_len)) buffer
  if u32 (before.current_len + p.packet_len) == before.file_len
      then some (video_key p, copy p.frame_offset part before.file_data)
      else none

-- The key and the bytes of the frame that a datagram completes.
unfoldable pub completed : ProxyConnection → Bytes → Option (VideoKey × Bytes)
completed pc datagram = do
  let buffer = copy 0 datagram (replicate udp_buffer_length 0)
  ptype ← uint32 buffer
  if ptype == tile_packet_type
      then (read_video_header (drop type_header_size buffer) >>= λ p. completed_tile pc p buffer)
      else none

-- Either no frame is put and nobody woken, or the frame `whole` is put and its goroutine is woken.
abbrev pub Puts :
    Option (VideoKey × Bytes) → ProxyConnection → ProxyConnection × List Effect → Type 0
Puts whole pc now =
    ((now.0.complete_tiles ≡ pc.complete_tiles) × IsQuiet now.1 × (whole ≡ none))
    ⊎ ((key : VideoKey) × (r : RemoteTile) × (older : List RemoteTile) × (now.0.complete_tiles
          ≡ insert key (r ∷ older) pc.complete_tiles)
        × (now.1 ≡ wake_video key ∷ [])
        × (whole ≡ some (key, r.file_data)))

set_first-some :
    (slot : Option (List RemoteTile)) (r : RemoteTile) (rs : List RemoteTile)
    → set_first slot r ≡ some rs
    → (older : List RemoteTile) × (r ∷ older ≡ rs)
set_first-some none r rs e = ([], cc e)
set_first-some (some []) r rs e = absurd (cc e)
set_first-some (some (old ∷ older)) r rs e = (older, cc e)

finish_tile-Puts :
    (pc : ProxyConnection) (key : VideoKey) (frame_nr : ℕ) (frames : Map ℕ RemoteTile)
    (r : RemoteTile) (now : ProxyConnection × List Effect)
    → finish_tile pc key frame_nr frames r ≡ some now
    → Puts (some (key, r.file_data)) pc now
unfolding finish_tile
finish_tile-Puts pc key frame_nr frames r now e =
    let (slot, filled, e1) = >>=-eq_some (set_first (lookup key pc.complete_tiles) r) _ now e in
    let (cond, found, e2) = >>=-eq_some (lookup key pc.cond_video) _ now e1 in
    let (older, same) = set_first-some (lookup key pc.complete_tiles) r slot filled in
    let last : (
      record pc {
        incomplete_tiles = insert key (remove frame_nr frames) pc.incomplete_tiles;
        complete_tiles = insert key slot pc.complete_tiles;
      },
      wake_video key ∷ [],
    )
        ≡ now =
      cc e2 in
    rw (← last)
      (inr (key, r, older, ap (λ x. insert key x pc.complete_tiles) (sym same), refl, refl))

absorb-eq_some :
    (behind : ℕ) (value : RemoteTile) (offset n : ℕ) (buffer : Bytes) (r : RemoteTile)
    → absorb behind value offset n buffer ≡ some r
    → (part : Bytes) × (slice behind (u32 (behind + n)) buffer ≡ some part)
      × (record value {
        current_len = u32 (value.current_len + n);
        file_data = copy offset part value.file_data;
      }
          ≡ r)
unfolding absorb
absorb-eq_some behind value offset n buffer r e =
    let (room, inside, e1) = >>=-eq_some (slice offset (u32 (offset + n)) value.file_data) _ r e in
    let (part, cut, e2) = >>=-eq_some (slice behind (u32 (behind + n)) buffer) _ r e1 in
    (part, cut, cc e2)

store_tile-Puts :
    (pc : ProxyConnection) (p : VideoPacketHeader) (buffer : Bytes)
    (now : ProxyConnection × List Effect)
    → store_tile pc p buffer ≡ some now
    → Puts (completed_tile pc p buffer) pc now
unfolding store_tile
store_tile-Puts pc p buffer now e =
    let key = video_key p in
    let frames = found_or (lookup key pc.incomplete_tiles) [] in
    let value = found_or (lookup p.frame_nr frames) (new_tile p.frame_nr p.frame_len) in
    let (r, absorbed, e1) =
      >>=-eq_some
        (absorb (type_header_size + video_header_size) value p.frame_offset p.packet_len buffer) _
        now e in
    let (part, cut, same) =
      absorb-eq_some (type_header_size + video_header_size) value p.frame_offset p.packet_len buffer
        r absorbed in
    let outcome : completed_tile pc p buffer
        ≡ (if r.current_len == r.file_len then some (key, r.file_data) else none) =
      rw (cut, ◌>>=◌)
        (ap
          (λ (x : RemoteTile).
            if x.current_len == x.file_len then some (key, x.file_data) else none)
          same) in
    let frames' = insert p.frame_nr r frames in
    let pc' : ProxyConnection = record pc {
      incomplete_tiles = insert key frames' pc.incomplete_tiles;
    } in
    elim (Bool-cases (r.current_len == r.file_len)) [
      | inl complete ↦
          rw (outcome, complete)
            (finish_tile-Puts pc' key p.frame_nr frames' r now (rw complete at e1))
      | inr partial ↦
          let kept : some (pc', []) ≡ some now = rw partial at e1 in
          let last : (pc', []) ≡ now = cc kept in
          rw (outcome, partial, ← last) (inl (refl, tt, refl))
    ]

finish_audio-Puts :
    (pc : ProxyConnection) (frame_nr : ℕ) (r : RemoteTile) (now : ProxyConnection × List Effect)
    → finish_audio pc frame_nr r ≡ some now
    → (now.0.complete_tiles ≡ pc.complete_tiles) × (now.1 ≡ wake_audio ∷ [])
unfolding finish_audio
finish_audio-Puts pc frame_nr r now e = elim (Bool-cases pc.cond_audio) [
  | inl set ↦ let woke = rw set at e in (cc woke, cc woke)
  | inr unset ↦ let failed = rw unset at e in absurd (cc failed)
]

store_audio-Puts :
    (pc : ProxyConnection) (p : AudioPacketHeader) (buffer : Bytes)
    (now : ProxyConnection × List Effect)
    → store_audio pc p buffer ≡ some now
    → Puts none pc now
unfolding store_audio
store_audio-Puts pc p buffer now e =
    let value =
      found_or (lookup p.frame_nr pc.incomplete_audio_frames) (new_tile p.frame_nr p.frame_len) in
    let (r, absorbed, e1) =
      >>=-eq_some
        (absorb (type_header_size + audio_header_size) value p.frame_offset p.packet_len buffer) _
        now e in
    let pc' : ProxyConnection = record pc {
      incomplete_audio_frames = insert p.frame_nr r pc.incomplete_audio_frames;
    } in
    elim (Bool-cases (r.current_len == r.file_len)) [
      | inl complete ↦
          let (same, woke) = finish_audio-Puts pc' p.frame_nr r now (rw complete at e1) in
          inl (same, rw woke tt, refl)
      | inr partial ↦
          let kept : some (pc', []) ≡ some now = rw partial at e1 in
          let last : (pc', []) ≡ now = cc kept in rw (← last) (inl (refl, tt, refl))
    ]

IsQuiet-forward :
    (set : Bool) (message : Bytes) → IsQuiet (if set then forward message ∷ [] else [])
IsQuiet-forward true message = tt
IsQuiet-forward false message = tt

pub receive-Puts :
    (pc : ProxyConnection) (datagram : Bytes) (now : ProxyConnection × List Effect)
    → receive pc datagram ≡ some now
    → Puts (completed pc datagram) pc now
unfolding receive completed
receive-Puts pc datagram now e =
    let buffer = copy 0 datagram (replicate udp_buffer_length 0) in
    let (ptype, read, e1) = >>=-eq_some (uint32 buffer) _ now e in
    elim (Bool-cases (ptype == tile_packet_type)) [
      | inl tile ↦
          let (p, header, e2) =
            >>=-eq_some (read_video_header (drop type_header_size buffer)) _ now (rw tile at e1) in
          rw (read, tile, header, ◌>>=◌) (store_tile-Puts pc p buffer now e2)
      | inr no_tile ↦ elim (Bool-cases (ptype == audio_packet_type)) [
        | inl sound ↦
            let (p, header, e2) =
              >>=-eq_some (read_audio_header (drop type_header_size buffer)) _ now
                (rw (no_tile, sound) at e1) in
            rw (read, no_tile, ◌>>=◌) (store_audio-Puts pc p buffer now e2)
        | inr no_sound ↦ elim (Bool-cases (ptype == control_packet_type)) [
          | inl control ↦
              let sent =
                if pc.ws_handler then forward (drop type_header_size buffer) ∷ [] else [] in
              let kept : some (pc, sent) ≡ some now = rw (no_tile, no_sound, control) at e1 in
              let last : (pc, sent) ≡ now = cc kept in
              rw (read, no_tile, ◌>>=◌, ← last)
                (inl (refl, IsQuiet-forward pc.ws_handler (drop type_header_size buffer), refl))
          | inr unknown ↦
              let kept : some (pc, []) ≡ some now = rw (no_tile, no_sound, unknown) at e1 in
              let last : (pc, []) ≡ now = cc kept in
              rw (read, no_tile, ◌>>=◌, ← last) (inl (refl, tt, refl))
        ]
      ]
    ]

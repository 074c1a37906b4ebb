-- ===== src/Peer/Proxy/Store.antt =====
-- The branch for a tile packet: what it does to the maps.
use web_rtcsfu.Base.{
  ℕ, ◌≡◌, ◌≢◌, some, none, Option, List, [], ◌∷◌, ◌==◌, nat_eq, true, beq_ne, beq_refl,
}
use web_rtcsfu.Base.Bytes.{Bytes}
use web_rtcsfu.Base.Map.{Map, lookup, insert, remove, lookup-insert, lookup-remove}
use web_rtcsfu.Peer.Proxy.{absorb, new_tile, found_or, set_first, store_tile, finish_tile}
use web_rtcsfu.Peer.Proxy.Types.{
  VideoKey, key_eq, video_key, VideoPacketHeader, RemoteTile, ProxyConnection, wake_video,
}

abbrev pub frames_of : ProxyConnection → VideoKey → Map ℕ RemoteTile
frames_of pc key = found_or (lookup key pc.incomplete_tiles) []

-- The entry that a packet of this frame meets.
abbrev pub entry : ProxyConnection → VideoKey → ℕ → ℕ → RemoteTile
entry pc key frame_nr frame_len =
    found_or (lookup frame_nr (frames_of pc key)) (new_tile frame_nr frame_len)

-- The connection with the entry of one frame replaced.
abbrev pub with_entry : ProxyConnection → VideoKey → ℕ → RemoteTile → ProxyConnection
with_entry pc key frame_nr r = record pc {
  incomplete_tiles = insert key (insert frame_nr r (frames_of pc key)) pc.incomplete_tiles;
}

-- The connection after a frame of `key` is complete.
abbrev pub with_tile :
    ProxyConnection → VideoKey → ℕ → RemoteTile → List RemoteTile → ProxyConnection
with_tile pc key frame_nr r older = record pc {
  incomplete_tiles =
      insert key (remove frame_nr (insert frame_nr r (frames_of pc key)))
        (insert key (insert frame_nr r (frames_of pc key)) pc.incomplete_tiles);
  complete_tiles = insert key (r ∷ older) pc.complete_tiles;
}

pub entry-with_entry :
    (pc : ProxyConnection) (key : VideoKey) (frame_nr frame_len : ℕ) (r : RemoteTile)
    → entry (with_entry pc key frame_nr r) key frame_nr frame_len ≡ r
entry-with_entry pc key frame_nr frame_len r = simp (lookup-insert, beq_refl)

pub lookup-with_tile :
    (pc : ProxyConnection) (key : VideoKey) (frame_nr : ℕ) (r : RemoteTile)
    (older : List RemoteTile)
    → (lookup key (with_tile pc key frame_nr r older).complete_tiles ≡ some (r ∷ older))
      × (lookup frame_nr (frames_of (with_tile pc key frame_nr r older) key) ≡ none)
lookup-with_tile pc key frame_nr r older =
    (simp (lookup-insert, beq_refl), simp (lookup-insert, lookup-remove, beq_refl))

module _ (pc : ProxyConnection) (p : VideoPacketHeader) (buffer : Bytes) {r : RemoteTile}
    (absorbed : absorb 32
        (entry pc (video_key p) p.frame_nr p.frame_len)
        p.frame_offset
        p.packet_len
        buffer
      ≡ some r) where
  pub store_tile-partial :
      r.current_len ≢ r.file_len
      → store_tile pc p buffer ≡ some (with_entry pc (video_key p) p.frame_nr r, [])
  unfolding store_tile
  store_tile-partial h = rw (absorbed, beq_ne r.current_len r.file_len h)

  pub store_tile-last :
      (slot : Option (List RemoteTile)) (older : List RemoteTile)
      → r.current_len ≡ r.file_len
      → lookup (video_key p) pc.complete_tiles ≡ slot
      → set_first slot r ≡ some (r ∷ older)
      → lookup (video_key p) pc.cond_video ≡ some tt
      → store_tile pc p buffer
        ≡ some (with_tile pc (video_key p) p.frame_nr r older, wake_video (video_key p) ∷ [])
  unfolding store_tile finish_tile
  store_tile-last slot older e at first cond =
      let same : (r.current_len == r.file_len) ≡ true = (nat_eq.beq_iff _ _).1 e in
      rw (absorbed, same, at, first, cond)

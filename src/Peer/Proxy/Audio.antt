-- ===== src/Peer/Proxy/Audio.antt =====
-- Audio datagrams as `StartListening` takes them: their header, and what they do to the entries.
pub mod Delivery
mod Examples
use web_rtcsfu.Base.{
  ℕ, ◌+◌, ◌^◌, ◌≤◌, ◌<◌, ◌≡◌, ◌≢◌, refl, sym, ap, some, none, List, [], ◌∷◌, ◌++◌, ◌∙◌, arith,
  length, take, drop, replicate, replicate-add, length-replicate, ◌>>=◌, ◌==◌, nat_eq, true, beq_ne,
  beq_refl, All, map, ◌||◌, if◌then◌else◌,
}
use web_rtcsfu.Base.Bytes.{Bytes, le_bytes, copy, length-copy, take-copy, uint32-le_bytes}
use web_rtcsfu.Base.Map.{lookup, insert, remove, lookup-insert, lookup-remove}
use web_rtcsfu.Peer.Proxy.{
  receive, receive_all, store_audio, finish_audio, read_audio_header, absorb, found_or, new_tile,
}
use web_rtcsfu.Peer.Proxy.Types.{AudioPacketHeader, RemoteTile, ProxyConnection, wake_audio}
use web_rtcsfu.Peer.Proxy.Reassembly.{
  Part, total, covers, cut, IsInside, Holds, absorb-Holds, length-cut, new_tile-Holds, Holds-whole,
}
use web_rtcsfu.Peer.Proxy.AnyOrder.{receive_all-cons}
use web_rtcsfu.Peer.Proxy.Consumers.{
  ready, next_audio_frame, poll_audio, take_audio, take_first_audio,
}

-- A datagram: the packet type, the five header fields, and the data.
abbrev pub audio_datagram : AudioPacketHeader → Bytes → Bytes
audio_datagram p part =
    le_bytes 2
    ++ le_bytes p.client_nr
    ++ le_bytes p.frame_nr
    ++ le_bytes p.frame_len
    ++ le_bytes p.frame_offset
    ++ le_bytes p.packet_len
    ++ part

record IsU32Header (p : AudioPacketHeader) : Type 0 where
  pub client_nr : p.client_nr < 2 ^ 32
  pub frame_nr : p.frame_nr < 2 ^ 32
  pub frame_len : p.frame_len < 2 ^ 32
  pub frame_offset : p.frame_offset < 2 ^ 32
  pub packet_len : p.packet_len < 2 ^ 32

read_audio_header-fields :
    (p : AudioPacketHeader) (part : Bytes)
    → IsU32Header p
    → read_audio_header (drop 4 (audio_datagram p part)) ≡ some p
unfolding read_audio_header
read_audio_header-fields p part h = λ i. some (record {
  client_nr = uint32-le_bytes p.client_nr h.client_nr i;
  frame_nr = uint32-le_bytes p.frame_nr h.frame_nr i;
  frame_len = uint32-le_bytes p.frame_len h.frame_len i;
  frame_offset = uint32-le_bytes p.frame_offset h.frame_offset i;
  packet_len = uint32-le_bytes p.packet_len h.packet_len i;
})

-- An audio datagram reaches `store_audio` with its header and its data.
receive-audio_datagram :
    (pc : ProxyConnection) (p : AudioPacketHeader) (part : Bytes)
    → IsU32Header p
    → receive pc (audio_datagram p part)
      ≡ store_audio pc p (audio_datagram p (copy 0 part (replicate 1476 0)))
unfolding receive
receive-audio_datagram pc p part h =
    ap (λ o. o >>= λ q. store_audio pc q (audio_datagram p (copy 0 part (replicate 1476 0))))
      (read_audio_header-fields p (copy 0 part (replicate 1476 0)) h)

-- The entry that a packet of this frame meets.
abbrev entry : ProxyConnection → ℕ → ℕ → RemoteTile
entry pc frame_nr frame_len =
    found_or (lookup frame_nr pc.incomplete_audio_frames) (new_tile frame_nr frame_len)

abbrev with_entry : ProxyConnection → ℕ → RemoteTile → ProxyConnection
with_entry pc frame_nr r = record pc {
  incomplete_audio_frames = insert frame_nr r pc.incomplete_audio_frames;
}

-- The newest frame in the place of the one that is there.
abbrev newest_first : List RemoteTile → RemoteTile → List RemoteTile
newest_first [] r = r ∷ []
newest_first (old ∷ older) r = r ∷ older

abbrev with_frame : ProxyConnection → ℕ → RemoteTile → ProxyConnection
with_frame pc frame_nr r = record pc {
  incomplete_audio_frames = remove frame_nr (insert frame_nr r pc.incomplete_audio_frames);
  complete_audio_frames = newest_first pc.complete_audio_frames r;
}

module _ (pc : ProxyConnection) (p : AudioPacketHeader) (buffer : Bytes) {r : RemoteTile}
    (absorbed : absorb 24 (entry pc p.frame_nr p.frame_len) p.frame_offset p.packet_len buffer
      ≡ some r) where
  store_audio-partial :
      r.current_len ≢ r.file_len → store_audio pc p buffer ≡ some (with_entry pc p.frame_nr r, [])
  unfolding store_audio
  store_audio-partial h = rw (absorbed, beq_ne r.current_len r.file_len h)

  store_audio-last :
      r.current_len ≡ r.file_len
      → pc.cond_audio ≡ true
      → store_audio pc p buffer ≡ some (with_frame pc p.frame_nr r, wake_audio ∷ [])
  unfolding store_audio
  store_audio-last e cond =
      let same : (r.current_len == r.file_len) ≡ true = (nat_eq.beq_iff _ _).1 e in
      rw (absorbed, same) (by_slot pc.complete_audio_frames refl)
    where
      by_slot :
          (slot : List RemoteTile)
          → slot ≡ pc.complete_audio_frames
          → finish_audio (with_entry pc p.frame_nr r) p.frame_nr r
            ≡ some (with_frame pc p.frame_nr r, wake_audio ∷ [])
      by_slot [] at = unfold finish_audio in rw (← at, cond) refl
      by_slot (old ∷ older) at = unfold finish_audio in rw (← at, cond) refl

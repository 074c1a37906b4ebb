-- ===== src/Peer/Proxy/Audio/Delivery.antt =====
-- The datagrams of one audio frame, in any order, hand the frame to the one who plays it.
use web_rtcsfu.Base.{
  ℕ, ◌+◌, ◌^◌, ◌≤◌, ◌<◌, ◌≡◌, refl, sym, ap, some, none, List, [], ◌∷◌, ◌∙◌, arith, length, take,
  drop, replicate, length-replicate, nat_eq, true, beq_refl, All, map, ◌||◌,
}
use web_rtcsfu.Base.Bytes.{Bytes, copy, length-copy, take-copy}
use web_rtcsfu.Base.Map.{lookup, lookup-insert, lookup-remove}
use web_rtcsfu.Peer.Proxy.{receive, receive_all, absorb}
use web_rtcsfu.Peer.Proxy.Types.{AudioPacketHeader, RemoteTile, ProxyConnection, wake_audio}
use web_rtcsfu.Peer.Proxy.Reassembly.{
  Part, total, covers, cut, IsInside, Holds, absorb-Holds, length-cut, new_tile-Holds, Holds-whole,
}
use web_rtcsfu.Peer.Proxy.AnyOrder.{receive_all-cons}
use web_rtcsfu.Peer.Proxy.Consumers.{
  ready, next_audio_frame, poll_audio, take_audio, take_first_audio,
}
use web_rtcsfu.Peer.Proxy.Audio.{
  audio_datagram, IsU32Header, receive-audio_datagram, entry, with_entry, newest_first, with_frame,
  store_audio-partial, store_audio-last,
}

-- A frame of audio, and the header that goes with a part of it.
pub record AudioFrame : Type 0 where
  pub client_nr : ℕ
  pub frame_nr : ℕ
  pub bytes : Bytes

module _ (frame : AudioFrame) where
  abbrev header_of : Part → AudioPacketHeader
  header_of part = record {
    client_nr = frame.client_nr;
    frame_nr = frame.frame_nr;
    frame_len = length frame.bytes;
    frame_offset = part.offset;
    packet_len = part.len;
  }

  abbrev pub audio_datagram_of : Part → Bytes
  audio_datagram_of part = audio_datagram (header_of part) (cut frame.bytes part)

  -- A part that fits a datagram and lies inside of the frame.
  abbrev pub Fits : Part → Type 0
  Fits part = IsInside frame.bytes part × (part.len ≤ 1476)

  abbrev pub IsSendable : Type 0
  IsSendable =
      (length frame.bytes < 2 ^ 32) × (frame.client_nr < 2 ^ 32) × (frame.frame_nr < 2 ^ 32)

  header-IsU32Header : (part : Part) → IsSendable → Fits part → IsU32Header (header_of part)
  header-IsU32Header part s f = omega arith

  abbrev buffer_of : Part → Bytes
  buffer_of part =
      audio_datagram (header_of part) (copy 0 (cut frame.bytes part) (replicate 1476 0))

  abbrev mine : ProxyConnection → RemoteTile
  mine pc = entry pc frame.frame_nr (length frame.bytes)

  round :
      (pc : ProxyConnection) (done : List Part) (part : Part)
      → IsSendable
      → Fits part
      → Holds frame.bytes done (mine pc)
      → total done + part.len ≤ length frame.bytes
      → (r : RemoteTile) × (absorb 24 (mine pc) part.offset part.len (buffer_of part) ≡ some r)
        × Holds frame.bytes (part ∷ done) r
  round pc done part s f h fits =
      absorb-Holds 24 frame.bytes (buffer_of part) done part (mine pc) h f.0 s.0 fits
        (omega (arith, sized)) (omega (arith, sized)) same
    where
      sized : length (copy 0 (cut frame.bytes part) (replicate 1476 0)) ≡ 1476
      sized =
          length-copy 0 (cut frame.bytes part) (replicate 1476 0) ∙ length-replicate {A = ℕ} 1476 0

      same : take part.len (drop 24 (buffer_of part)) ≡ cut frame.bytes part
      same =
          ap (λ (n : ℕ). take n (copy 0 (cut frame.bytes part) (replicate 1476 0)))
            (sym (length-cut frame.bytes part f.0))
          ∙ take-copy (cut frame.bytes part) (replicate 1476 0)
              (omega (arith, length-cut frame.bytes part f.0, length-replicate {A = ℕ} 1476 0))

  -- The frame is the newest, and its entry is gone.
  abbrev Delivered : ProxyConnection → Type 0
  Delivered pc =
      (r : RemoteTile) × (older : List RemoteTile) × (pc.complete_audio_frames ≡ r ∷ older)
      × (r.file_data ≡ frame.bytes)
      × (lookup frame.frame_nr pc.incomplete_audio_frames ≡ none)

  newest_first_lem :
      (slot : List RemoteTile) (r : RemoteTile)
      → (older : List RemoteTile) × (newest_first slot r ≡ r ∷ older)
  newest_first_lem [] r = ([], refl)
  newest_first_lem (old ∷ older) r = (older, refl)

  last_part :
      (pc : ProxyConnection) (done : List Part) (part : Part)
      → IsSendable
      → Fits part
      → pc.cond_audio ≡ true
      → Holds frame.bytes done (mine pc)
      → total done + part.len ≡ length frame.bytes
      → ((i : ℕ) → i < length frame.bytes → covers (part ∷ done) i ≡ true)
      → (pc' : ProxyConnection) × (receive pc (audio_datagram_of part)
          ≡ some (pc', wake_audio ∷ []))
        × Delivered pc'
  last_part pc done part s f l h e cover =
      let (r, absorbed, held) = round pc done part s f h (omega arith) in
      let (older, newest) = newest_first_lem pc.complete_audio_frames r in
      (
        with_frame pc frame.frame_nr r,
        receive-audio_datagram pc (header_of part) (cut frame.bytes part)
              (header-IsU32Header part s f)
            ∙ store_audio-last pc (header_of part) (buffer_of part) absorbed
                (omega (arith, held.counted, held.file_len)) l,
        (
          r,
          older,
          newest,
          Holds-whole frame.bytes (part ∷ done) r held cover,
          simp (lookup-insert, lookup-remove, beq_refl),
        ),
      )

  parts_left :
      (pc : ProxyConnection) (done : List Part) (part : Part) (parts : List Part)
      → IsSendable
      → All Fits (part ∷ parts)
      → pc.cond_audio ≡ true
      → Holds frame.bytes done (mine pc)
      → total done + total (part ∷ parts) ≡ length frame.bytes
      → ((i : ℕ) → i < length frame.bytes → (covers (part ∷ parts) i || covers done i) ≡ true)
      → (pc' : ProxyConnection) × (receive_all pc (map audio_datagram_of (part ∷ parts))
          ≡ some (pc', wake_audio ∷ []))
        × Delivered pc'
  parts_left pc done part [] s f l h e cover =
      let (pc', received, delivered) =
        last_part pc done part s f.0 l h (omega arith) (λ i lt. ground (arith, cover i lt)) in
      (pc', unfold receive_all in rw received, delivered)
  parts_left pc done part (next ∷ parts) s f l h e cover =
      let (r, absorbed, held) = round pc done part s f.0 h (omega arith) in
      let pc' = with_entry pc frame.frame_nr r in
      let here : mine pc' ≡ r = simp (lookup-insert, beq_refl) in
      let later =
        parts_left pc' (part ∷ done) next parts s f.1 l (rw here held) (omega arith)
          (λ i lt. ground (arith, cover i lt)) in
      (
        later.0,
        receive_all-cons pc pc' (audio_datagram_of part) (map audio_datagram_of (next ∷ parts)) (
              receive-audio_datagram pc (header_of part) (cut frame.bytes part)
                (header-IsU32Header part s f.0)
              ∙ store_audio-partial pc (header_of part) (buffer_of part) absorbed
                  (omega (arith, held.counted, held.file_len)))
            ∙ later.1,
        later.2,
      )

  next_audio_frame-newest :
      (pc : ProxyConnection) (r : RemoteTile) (older : List RemoteTile)
      → pc.complete_audio_frames ≡ r ∷ older
      → next_audio_frame pc ≡ some (ready (record pc { complete_audio_frames = [] }) r.file_data)
  unfolding next_audio_frame poll_audio take_audio take_first_audio
  next_audio_frame-newest pc r older e = rw e refl

  -- Take an audio frame below 2^32 bytes, and datagrams that carry non-empty parts of it, at most
  -- 1476 bytes each, that cover it and have its length together, in any order. If the condition
  -- variable for audio is there, and this frame number has no entry, the receiver takes them all
  -- without a panic, wakes the consumer exactly once, at the end, and `NextAudioFrame` then
  -- returns the frame, byte for byte; neither the entry nor a complete frame is left behind.
  pub receive_all-Played :
      (pc : ProxyConnection) (part : Part) (parts : List Part)
      → IsSendable
      → All Fits (part ∷ parts)
      → pc.cond_audio ≡ true
      → lookup frame.frame_nr pc.incomplete_audio_frames ≡ none
      → total (part ∷ parts) ≡ length frame.bytes
      → ((i : ℕ) → i < length frame.bytes → covers (part ∷ parts) i ≡ true)
      → (pc' : ProxyConnection) × (pc'' : ProxyConnection) × (receive_all pc
            (map audio_datagram_of (part ∷ parts))
          ≡ some (pc', wake_audio ∷ []))
        × (next_audio_frame pc' ≡ some (ready pc'' frame.bytes))
        × (lookup frame.frame_nr pc''.incomplete_audio_frames ≡ none)
        × (pc''.complete_audio_frames ≡ [])
  receive_all-Played pc part parts s f l fresh e cover =
      let none_yet : Holds frame.bytes [] (mine pc) =
        rw fresh (new_tile-Holds frame.frame_nr frame.bytes) in
      let (pc', received, delivered) =
        parts_left pc [] part parts s f l none_yet (omega arith)
          (λ i lt. ground (arith, cover i lt)) in
      let (r, older, newest, whole, gone) = delivered in
      let taken : ProxyConnection = record pc' { complete_audio_frames = [] } in
      (
        pc',
        taken,
        received,
        next_audio_frame-newest pc' r older newest ∙ ap (λ b. some (ready taken b)) whole,
        gone,
        refl,
      )

-- ===== src/Peer/Proxy/AnyOrder.antt =====
-- The datagrams of one frame of a tile, in any order, hand the frame to the consumer.
use web_rtcsfu.Base.{
  ℕ, ◌+◌, ◌<◌, ◌≡◌, ◌≢◌, refl, ap, some, none, Option, List, [], ◌∷◌, ◌∙◌, arith, map, length,
  nat_eq, ◌>>=◌, All, true, ◌||◌, beq_refl,
}
use web_rtcsfu.Base.Bytes.{Bytes}
use web_rtcsfu.Base.Map.{lookup, remove, lookup-remove}
use web_rtcsfu.Peer.Proxy.{receive, receive_all, set_first}
use web_rtcsfu.Peer.Proxy.Types.{VideoKey, key_eq, RemoteTile, ProxyConnection, Effect, wake_video}
use web_rtcsfu.Peer.Proxy.Reassembly.{Part, total, covers, Holds, new_tile-Holds, Holds-whole}
use web_rtcsfu.Peer.Proxy.Store.{
  frames_of, entry, with_entry, with_tile, entry-with_entry, lookup-with_tile, store_tile-partial,
  store_tile-last,
}
use web_rtcsfu.Peer.Proxy.Consumers.{ready, next_tile, next_tile-newest}
use web_rtcsfu.Peer.Proxy.Delivery.{
  Frame, key_of, header_of, datagram_of, Fits, IsSendable, receive-datagram, round,
}

set_first_slot :
    (slot : Option (List RemoteTile))
    → slot ≢ some []
    → (older : List RemoteTile) × ((r : RemoteTile) → set_first slot r ≡ some (r ∷ older))
set_first_slot none h = ([], λ r. refl)
set_first_slot (some []) h = absurd (h refl)
set_first_slot (some (r ∷ rs)) h = (rs, λ q. refl)

pub receive_all-cons :
    (pc pc' : ProxyConnection) (d : Bytes) (ds : List Bytes)
    → receive pc d ≡ some (pc', [])
    → receive_all pc (d ∷ ds) ≡ receive_all pc' ds
unfolding receive_all
receive_all-cons pc pc' d ds e = rw e (unit (receive_all pc' ds))
  where
    unit :
        (o : Option (ProxyConnection × List Effect)) → (o >>= λ later. some (later.0, later.1)) ≡ o
    unit none = refl
    unit (some x) = refl

module _ (frame : Frame) where
  abbrev key : VideoKey
  key = key_of frame

  abbrev datagram : Part → Bytes
  datagram = datagram_of frame

  abbrev Sendable : Type 0
  Sendable = IsSendable frame

  abbrev FitsAll : List Part → Type 0
  FitsAll = All (Fits frame)

  -- What the connection must offer: a condition variable for the key, and no empty slice.
  pub record IsListening (pc : ProxyConnection) : Type 0 where
    pub cond : lookup key pc.cond_video ≡ some tt
    pub slot : lookup key pc.complete_tiles ≢ some []

  -- The frame is the newest of its key, and its entry is gone.
  abbrev pub Delivered : ProxyConnection → Type 0
  Delivered pc =
      (r : RemoteTile) × (older : List RemoteTile) × (lookup key pc.complete_tiles
        ≡ some (r ∷ older))
      × (r.file_data ≡ frame.bytes)
      × (lookup frame.frame_nr (frames_of pc key) ≡ none)

  pub last_part :
      (pc : ProxyConnection) (done : List Part) (part : Part)
      → Sendable
      → Fits frame part
      → IsListening pc
      → Holds frame.bytes done (entry pc key frame.frame_nr (length frame.bytes))
      → total done + part.len ≡ length frame.bytes
      → ((i : ℕ) → i < length frame.bytes → covers (part ∷ done) i ≡ true)
      → (pc' : ProxyConnection) × (receive pc (datagram part) ≡ some (pc', wake_video key ∷ []))
        × Delivered pc'
  last_part pc done part s f l h e cover =
      let (r, absorbed, held) = round frame pc done part s f h (omega arith) in
      let (older, first) = set_first_slot (lookup key pc.complete_tiles) l.slot in
      let (newest, gone) = lookup-with_tile pc key frame.frame_nr r older in
      (
        with_tile pc key frame.frame_nr r older,
        receive-datagram frame pc part s f
            ∙ store_tile-last pc (header_of frame part) _ absorbed _ older
                (omega (arith, held.counted, held.file_len)) refl (first r) l.cond,
        (r, older, newest, Holds-whole frame.bytes (part ∷ done) r held cover, gone),
      )

  -- The parts that are still to come, over what has arrived.
  parts_left :
      (pc : ProxyConnection) (done : List Part) (part : Part) (parts : List Part)
      → Sendable
      → FitsAll (part ∷ parts)
      → IsListening pc
      → Holds frame.bytes done (entry pc key frame.frame_nr (length frame.bytes))
      → total done + total (part ∷ parts) ≡ length frame.bytes
      → ((i : ℕ) → i < length frame.bytes → (covers (part ∷ parts) i || covers done i) ≡ true)
      → (pc' : ProxyConnection) × (receive_all pc (map datagram (part ∷ parts))
          ≡ some (pc', wake_video key ∷ []))
        × Delivered pc'
  parts_left pc done part [] s f l h e cover =
      let (pc', received, delivered) =
        last_part pc done part s f.0 l h (omega arith) (λ i lt. ground (arith, cover i lt)) in
      (pc', unfold receive_all in rw received, delivered)
  parts_left pc done part (next ∷ parts) s f l h e cover =
      let (r, absorbed, held) = round frame pc done part s f.0 h (omega arith) in
      let pc' = with_entry pc key frame.frame_nr r in
      let later =
        parts_left pc' (part ∷ done) next parts s f.1 (record { cond = l.cond; slot = l.slot })
          (rw (entry-with_entry pc key frame.frame_nr (length frame.bytes) r) held) (omega arith)
          (λ i lt. ground (arith, cover i lt)) in
      (
        later.0,
        receive_all-cons pc pc' (datagram part) (map datagram (next ∷ parts)) (
              receive-datagram frame pc part s f.0
              ∙ store_tile-partial pc (header_of frame part) _ absorbed
                  (omega (arith, held.counted, held.file_len)))
            ∙ later.1,
        later.2,
      )

  -- Take a frame below 2^32 bytes, and datagrams that carry non-empty parts of it, at most 1468
  -- bytes each, that cover it and have its length together, in any order. If the key has a
  -- condition variable, an empty slot is not stored for it, and it has no entry for this frame
  -- number, the receiver takes them all without a panic, wakes the consumer exactly once, at the
  -- end, and `NextTile` then returns the frame, byte for byte; neither the entry nor the slot of
  -- the key is left behind.
  pub receive_all-Delivered :
      (pc : ProxyConnection) (part : Part) (parts : List Part)
      → Sendable
      → FitsAll (part ∷ parts)
      → IsListening pc
      → lookup frame.frame_nr (frames_of pc key) ≡ none
      → total (part ∷ parts) ≡ length frame.bytes
      → ((i : ℕ) → i < length frame.bytes → covers (part ∷ parts) i ≡ true)
      → (pc' : ProxyConnection) × (pc'' : ProxyConnection) × (receive_all pc
            (map datagram (part ∷ parts))
          ≡ some (pc', wake_video key ∷ []))
        × (next_tile pc' key ≡ some (ready pc'' frame.bytes))
        × (lookup frame.frame_nr (frames_of pc'' key) ≡ none)
        × (lookup key pc''.complete_tiles ≡ none)
  receive_all-Delivered pc part parts s f l fresh e cover =
      let none_yet : Holds frame.bytes [] (entry pc key frame.frame_nr (length frame.bytes)) =
        rw fresh (new_tile-Holds frame.frame_nr frame.bytes) in
      let (pc', received, delivered) =
        parts_left pc [] part parts s f l none_yet (omega arith)
          (λ i lt. ground (arith, cover i lt)) in
      let (r, older, newest, whole, gone) = delivered in
      let taken : ProxyConnection = record pc' { complete_tiles = remove key pc'.complete_tiles } in
      (
        pc',
        taken,
        received,
        next_tile-newest pc' key r older newest ∙ ap (λ b. some (ready taken b)) whole,
        gone,
        simp (lookup-remove, beq_refl),
      )

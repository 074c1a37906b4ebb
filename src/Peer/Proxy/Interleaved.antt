-- ===== src/Peer/Proxy/Interleaved.antt =====
-- The datagrams of one frame between those of other frames, of audio, and of control.
pub mod Foreign
mod Examples
use web_rtcsfu.Base.{
  ℕ, ◌+◌, ◌<◌, ◌≡◌, refl, sym, ap, some, none, List, [], ◌∷◌, ◌++◌, ◌∙◌, arith, length, ◌||◌, true,
  nat_eq, >>=-eq_some, append_assoc, append-nil, beq_refl,
}
use web_rtcsfu.Base.Bytes.{Bytes}
use web_rtcsfu.Base.Map.{lookup, remove, lookup-remove}
use web_rtcsfu.Peer.Proxy.{receive, receive_all}
use web_rtcsfu.Peer.Proxy.Types.{key_eq, ProxyConnection, Effect, wake_video}
use web_rtcsfu.Peer.Proxy.Reassembly.{Part, total, covers, Holds, new_tile-Holds}
use web_rtcsfu.Peer.Proxy.Store.{frames_of, entry, with_entry, entry-with_entry, store_tile-partial}
use web_rtcsfu.Peer.Proxy.Consumers.{ready, next_tile, next_tile-newest}
use web_rtcsfu.Peer.Proxy.Delivery.{
  Frame, key_of, header_of, datagram_of, Fits, IsSendable, receive-datagram, round,
}
use web_rtcsfu.Peer.Proxy.AnyOrder.{IsListening, Delivered, last_part}
use Foreign.{IsForeign, Undisturbed, receive-Undisturbed}

receive_all-split :
    (pc : ProxyConnection) (d : Bytes) (ds : List Bytes) (out : ProxyConnection × List Effect)
    → receive_all pc (d ∷ ds) ≡ some out
    → (now : ProxyConnection × List Effect) × (later : ProxyConnection × List Effect) × (receive pc
          d
        ≡ some now)
      × (receive_all now.0 ds ≡ some later)
      × ((later.0, now.1 ++ later.1) ≡ out)
unfolding receive_all
receive_all-split pc d ds out e =
    let (now, first, e1) = >>=-eq_some (receive pc d) _ out e in
    let (later, rest, e2) = >>=-eq_some (receive_all now.0 ds) _ out e1 in
    (now, later, first, rest, cc e2)

module _ (frame : Frame) where
  -- Datagrams in which those of the parts, in this order, stand between others.
  pub data Interleaved : List Part → List Bytes → Type 0 where
    over : Interleaved [] []
    mine :
        (part : Part) (parts : List Part) (ds : List Bytes)
        → Fits frame part
        → Interleaved parts ds
        → Interleaved (part ∷ parts) (datagram_of frame part ∷ ds)
    foreign :
        (d : Bytes) (parts : List Part) (ds : List Bytes)
        → IsForeign frame d
        → Interleaved parts ds
        → Interleaved parts (d ∷ ds)

  abbrev Held : ProxyConnection → List Part → Type 0
  Held pc done =
      Holds frame.bytes done (entry pc (key_of frame) frame.frame_nr (length frame.bytes))

  -- The run ends with the frame at hand and its consumer woken.
  abbrev Arrived : ProxyConnection × List Effect → Type 0
  Arrived out =
      (before : List Effect) × (out.1 ≡ before ++ wake_video (key_of frame) ∷ [])
      × Delivered frame out.0

  Arrived-later :
      (now later out : ProxyConnection × List Effect)
      → (later.0, now.1 ++ later.1) ≡ out
      → Arrived later
      → Arrived out
  Arrived-later now later out e (before, woken, there) = rw (← e) (
    now.1 ++ before,
    ap (λ es. now.1 ++ es) woken ∙ sym (append_assoc now.1 before (wake_video (key_of frame) ∷ [])),
    there,
  )

  parts_between :
      (pc : ProxyConnection) (done parts : List Part) (ds : List Bytes) (part : Part)
      (out : ProxyConnection × List Effect)
      → IsSendable frame
      → Interleaved parts ds
      → Fits frame part
      → IsListening frame pc
      → Held pc done
      → total done + total parts + part.len ≡ length frame.bytes
      → ((i : ℕ) → i < length frame.bytes → (covers (part ∷ parts) i || covers done i) ≡ true)
      → receive_all pc (ds ++ datagram_of frame part ∷ []) ≡ some out
      → Arrived out
  parts_between pc done _ _ part out s over f l h e cover run =
      let (now, later, first, rest, last) =
        receive_all-split pc (datagram_of frame part) [] out run in
      let (pc', received, delivered) =
        last_part frame pc done part s f l h (omega arith) (λ i lt. ground (arith, cover i lt)) in
      let same : (pc', wake_video (key_of frame) ∷ []) ≡ now = cc (received, first) in
      let end : (now.0, []) ≡ later = (unfold receive_all in cc rest) in
      let all : (pc', wake_video (key_of frame) ∷ []) ≡ out =
        ap (λ n. (n.0, n.1)) same ∙ cc (last, end, append-nil now.1) in
      rw (← all) ([], refl, delivered)
  parts_between pc done _ _ part out s (mine next parts ds g rest) f l h e cover run =
      let (now, later, first, left, last) =
        receive_all-split pc (datagram_of frame next) (ds ++ datagram_of frame part ∷ []) out run in
      let (r, absorbed, holds) = round frame pc done next s g h (omega arith) in
      let pc' = with_entry pc (key_of frame) frame.frame_nr r in
      let stored : receive pc (datagram_of frame next) ≡ some (pc', []) =
        receive-datagram frame pc next s g
        ∙ store_tile-partial pc (header_of frame next) _ absorbed
            (omega (arith, holds.counted, holds.file_len)) in
      let here : pc' ≡ now.0 = cc (stored, first) in
      Arrived-later now later out last (
        parts_between pc' (next ∷ done) parts ds part later s rest f
          (record { cond = l.cond; slot = l.slot })
          (rw (entry-with_entry pc (key_of frame) frame.frame_nr (length frame.bytes) r) holds)
          (omega arith) (λ i lt. ground (arith, cover i lt)) (rw here left))
  parts_between pc done _ _ part out s (foreign d parts ds other rest) f l h e cover run =
      let (now, later, first, left, last) =
        receive_all-split pc d (ds ++ datagram_of frame part ∷ []) out run in
      let kept = receive-Undisturbed frame pc d now other first l in
      Arrived-later now later out last (
        parts_between now.0 done parts ds part later s rest f kept.listening (rw kept.entry h) e
          cover left)

  -- Take a frame below 2^32 bytes, and datagrams that carry non-empty parts of it, at most 1468
  -- bytes each, that cover it and have its length together, in any order, with any other datagrams
  -- before the last of them: of audio, of control, of unknown types, and of tiles with another key
  -- or another frame number. Let the key have a condition variable, no empty slot stored, and no
  -- entry for this frame number. If the receiver takes them all without a panic, then it wakes the
  -- consumer with the last one, and `NextTile` then returns the frame, byte for byte; neither the
  -- entry nor the slot of the key is left behind.
  pub receive_all-Interleaved :
      (pc : ProxyConnection) (parts : List Part) (ds : List Bytes) (part : Part)
      (out : ProxyConnection × List Effect)
      → IsSendable frame
      → Interleaved parts ds
      → Fits frame part
      → IsListening frame pc
      → lookup frame.frame_nr (frames_of pc (key_of frame)) ≡ none
      → total parts + part.len ≡ length frame.bytes
      → ((i : ℕ) → i < length frame.bytes → covers (part ∷ parts) i ≡ true)
      → receive_all pc (ds ++ datagram_of frame part ∷ []) ≡ some out
      → (before : List Effect) × (pc' : ProxyConnection) × (out.1
          ≡ before ++ wake_video (key_of frame) ∷ [])
        × (next_tile out.0 (key_of frame) ≡ some (ready pc' frame.bytes))
        × (lookup frame.frame_nr (frames_of pc' (key_of frame)) ≡ none)
        × (lookup (key_of frame) pc'.complete_tiles ≡ none)
  receive_all-Interleaved pc parts ds part out s inter f l fresh e cover run =
      let none_yet : Held pc [] = rw fresh (new_tile-Holds frame.frame_nr frame.bytes) in
      let (before, woken, (r, older, newest, whole, gone)) =
        parts_between pc [] parts ds part out s inter f l none_yet (omega arith)
          (λ i lt. ground (arith, cover i lt)) run in
      let taken : ProxyConnection = record (out.0) {
        complete_tiles = remove (key_of frame) out.0.complete_tiles;
      } in
      (
        before,
        taken,
        woken,
        next_tile-newest (out.0) (key_of frame) r older newest
            ∙ ap (λ b. some (ready taken b)) whole,
        gone,
        simp (lookup-remove, beq_refl),
      )

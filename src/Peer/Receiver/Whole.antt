-- ===== src/Peer/Receiver/Whole.antt =====
-- A frame that one client's payloader cuts up, through another client's receiving loop.
use web_rtcsfu.Base.{
  ℕ, zero, suc, ◌+◌, ◌<◌, ◌≡◌, refl, sym, ap, ◌∙◌, Bool, some, List, [], ◌∷◌, ◌++◌, map, length,
  All, arith, length-map,
}
use web_rtcsfu.Base.Bytes.{Bytes}
use web_rtcsfu.Peer.Packet.{PointCloudPayloader, payload_video, buffer_length}
use web_rtcsfu.Peer.Packet.Layout.{fragment_bytes, video_fields}
use web_rtcsfu.Peer.Packet.Fragments.{offsets}
use web_rtcsfu.Peer.Packet.Payload.{fragment_count, video_fragments, payload_video-fragments}
use web_rtcsfu.Peer.Receiver.{video, Receiver, Event, counted, receive_packets}
use web_rtcsfu.Peer.Receiver.Buffer.{reports, IsNumbered}
use web_rtcsfu.Peer.Receiver.Counting.{IsRtpHeader, packets_from, packets_from-reported}

-- RTP headers in front of fragments, in order.
abbrev pub with_headers : List Bytes → List Bytes → List Bytes
with_headers [] fragments = []
with_headers (rtp ∷ rtps) [] = []
with_headers (rtp ∷ rtps) (f ∷ fs) = (rtp ++ f) ∷ with_headers rtps fs

length-offsets : (size k offset : ℕ) → length (offsets size k offset) ≡ k
length-offsets size zero offset = refl
length-offsets size (suc k) offset = ap suc (length-offsets size k (offset + size))

module _ (client : ℕ) (p : PointCloudPayloader) (payload : Bytes) where
  with_headers-offsets :
      (rtps : List Bytes) (offset : ℕ)
      → with_headers rtps (
          map
            (fragment_bytes 1144 payload (video_fields client p (length payload)))
            (offsets 1144 (length rtps) offset))
        ≡ packets_from client p payload rtps offset
  with_headers-offsets [] offset = refl
  with_headers-offsets (rtp ∷ rtps) offset =
      ap (λ t. packet ∷ t) (with_headers-offsets rtps (offset + 1144))
    where
      packet : Bytes
      packet = rtp ++ fragment_bytes 1144 payload (video_fields client p (length payload)) offset

  -- A receiver that has not counted anything for this frame.
  pub record IsReady (r : Receiver) : Type 0 where
    pub full : length r.buf ≡ buffer_length
    pub fresh : counted r p.frame_counter ≡ 0

  reported :
      (use_proxy_output : Bool) (rtps : List Bytes) (r : Receiver)
      → 0 < length payload
      → IsNumbered client p payload
      → length rtps ≡ fragment_count 1144 (length payload)
      → All IsRtpHeader rtps
      → IsReady r
      → (r' : Receiver) × (events : List Event) × (receive_packets use_proxy_output video
            (packets_from client p payload rtps 0)
            r
          ≡ some (r', events))
        × (reports events ≡ p.frame_counter ∷ [])
  reported use_proxy_output [] r long h count headers ready = absurd (omega arith)
  reported use_proxy_output (rtp ∷ rtps) r long h count headers ready =
      packets_from-reported client p payload use_proxy_output rtp rtps 0 r h headers ready.full
        ready.fresh (omega arith) (omega arith)

  -- Take a frame of at least one and fewer than 2^32 bytes that a payloader whose numbers are
  -- below 2^32 cuts into fragments. Put an RTP header of 20 bytes in front of each and give the
  -- packets, in order, to the receiving loop for video of another client whose buffer has 1220
  -- bytes and whose count for this frame number is 0. Then the loop gets through without a panic,
  -- whether it passes the packets on to the DLL or not, and it reports exactly one complete frame:
  -- this one.
  pub receive_packets-reported :
      (use_proxy_output : Bool) (rtps : List Bytes) (r : Receiver) (p' : PointCloudPayloader)
      (fragments : List Bytes)
      → payload_video client p payload ≡ some (p', fragments)
      → 0 < length payload
      → IsNumbered client p payload
      → length rtps ≡ length fragments
      → All IsRtpHeader rtps
      → IsReady r
      → (r' : Receiver) × (events : List Event) × (receive_packets use_proxy_output video
            (with_headers rtps fragments)
            r
          ≡ some (r', events))
        × (reports events ≡ p.frame_counter ∷ [])
  receive_packets-reported use_proxy_output rtps r p' fragments cut long h same headers ready =
      let made : some (p', fragments) ≡ some (_, video_fragments client p payload) =
        sym cut ∙ payload_video-fragments client p payload h.fits in
      let parts : fragments ≡ video_fragments client p payload = cc made in
      let cut_at =
        λ (o : ℕ). fragment_bytes 1144 payload (video_fields client p (length payload)) o in
      let k = fragment_count 1144 (length payload) in
      let count : length rtps ≡ k =
        same ∙ ap length parts ∙ length-map cut_at (offsets 1144 k 0) ∙ length-offsets 1144 k 0 in
      let packets : with_headers rtps fragments ≡ packets_from client p payload rtps 0 =
        ap (with_headers rtps) (parts ∙ ap (λ (n : ℕ). map cut_at (offsets 1144 n 0)) (sym count))
        ∙ with_headers-offsets rtps 0 in
      rw packets (reported use_proxy_output rtps r long h count headers ready)

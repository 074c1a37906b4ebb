-- ===== src/Peer/Receiver/Counting.antt =====
-- The fragments of one tile frame through the receiving loop, one after another.
use web_rtcsfu.Base.{
  ℕ, suc, ◌+◌, ◌-◌, ◌*◌, ◌%◌, ◌^◌, ◌≤◌, ◌<◌, ◌≡◌, refl, ap, ◌∙◌, Bool, true, false, some, List, [],
  ◌∷◌, ◌++◌, ◌>>=◌, ◌==◌, nat_eq, drop, length, length-take, length-drop, All, arith, append-nil,
  Bool-cases, inl, inr, beq_ne,
}
use web_rtcsfu.Base.Bytes.{Bytes, u32, copy, length-copy}
use web_rtcsfu.Base.Map.{Map, insert, lookup-insert_self}
use web_rtcsfu.Peer.Packet.{PointCloudPayloader, buffer_length}
use web_rtcsfu.Peer.Proxy.Send.Relay.{chunk}
use web_rtcsfu.Peer.Receiver.Buffer.{
  reports, reports-append, passes, IsNumbered, header_of, packet_at, read_fields, behind_header,
}
use web_rtcsfu.Peer.Receiver.{
  FramePacketHeader, video, Receiver, Event, counted, count_frame, receive_packet, receive_packets,
  packet_header,
}

counted-insert :
    (buf : Bytes) (frames : Map ℕ ℕ) (k n : ℕ)
    → counted (record { buf = buf; frames = insert k n frames }) k ≡ n
unfolding counted
counted-insert buf frames k n = rw (lookup-insert_self k n frames) refl

-- A frame that is not complete yet, and one that is.
count_frame_partial :
    (h : FramePacketHeader) (r : Receiver)
    → counted r h.frame_nr + h.seq_len < h.frame_len
    → h.frame_len < 2 ^ 32
    → ((count_frame video h r).1 ≡ [])
      × ((count_frame video h r).0.buf ≡ r.buf)
      × (counted (count_frame video h r).0 h.frame_nr ≡ counted r h.frame_nr + h.seq_len)
unfolding count_frame
count_frame_partial h r part fits =
    let n = u32 (counted r h.frame_nr + h.seq_len) in
    let same : n ≡ counted r h.frame_nr + h.seq_len = omega arith in
    let open_still : (n == h.frame_len) ≡ false = beq_ne n h.frame_len (λ e. omega arith) in
    rw open_still (refl, refl, counted-insert r.buf r.frames h.frame_nr n ∙ same)

count_frame_complete :
    (h : FramePacketHeader) (r : Receiver)
    → counted r h.frame_nr + h.seq_len ≡ h.frame_len
    → h.frame_len < 2 ^ 32
    → reports (count_frame video h r).1 ≡ h.frame_nr ∷ []
unfolding count_frame
count_frame_complete h r whole fits =
    let n = u32 (counted r h.frame_nr + h.seq_len) in
    let done : (n == h.frame_len) ≡ true = (nat_eq.beq_iff n h.frame_len).1 (omega arith) in
    elim (Bool-cases (h.frame_nr % 100 == 0)) [
      | inl hundred ↦ rw (done, hundred) refl
      | inr other ↦ rw (done, other) refl
    ]

receive_packets-cons :
    (use_proxy_output : Bool) (packet : Bytes) (packets : List Bytes) (r r1 r' : Receiver)
    (es fs : List Event)
    → receive_packet use_proxy_output video packet r ≡ some (r1, es)
    → receive_packets use_proxy_output video packets r1 ≡ some (r', fs)
    → receive_packets use_proxy_output video (packet ∷ packets) r ≡ some (r', es ++ fs)
unfolding receive_packets
receive_packets-cons use_proxy_output packet packets r r1 r' es fs one rest =
    rw one (ap (λ o. o >>= λ later. some (later.0, es ++ later.1)) rest)

abbrev pub IsRtpHeader : Bytes → Type 0
IsRtpHeader rtp = length rtp ≡ 20

module _ (client : ℕ) (p : PointCloudPayloader) (payload : Bytes) where
  -- One round: nothing but the count reports a frame.
  receive_packet-counted :
      (use_proxy_output : Bool) (rtp : Bytes) (offset : ℕ) (r : Receiver)
      → IsNumbered client p payload
      → offset < length payload
      → length rtp ≡ 20
      → length r.buf ≡ buffer_length
      → (sent : List Event) × (reports sent ≡ [])
        × (let now =
              count_frame video
                (header_of client p payload offset)
                (record r { buf = copy 0 (packet_at client p payload rtp offset) r.buf }) in
            receive_packet use_proxy_output video (packet_at client p payload rtp offset) r
            ≡ some (now.0, sent ++ now.1))
  unfolding receive_packet
  receive_packet-counted use_proxy_output rtp offset r h inside e full =
      let (stale, body, room) = behind_header client p payload rtp r.buf offset e full in
      let buf = copy 0 (packet_at client p payload rtp offset) r.buf in
      let header : packet_header video (drop 20 buf) ≡ some (header_of client p payload offset) =
        rw body (
          read_fields client p payload offset (chunk client p payload offset ++ stale) h inside
            room) in
      let long : 20 ≤ length buf =
        omega (arith, length-copy 0 (packet_at client p payload rtp offset) r.buf, full) in
      let (sent, quiet, passed) = passes use_proxy_output buf long in
      (sent, quiet, rw (passed, header) refl)

  -- The packets of the fragments from an offset on, one RTP header for each.
  abbrev pub packets_from : List Bytes → ℕ → List Bytes
  packets_from [] offset = []
  packets_from (rtp ∷ rtps) offset =
      packet_at client p payload rtp offset ∷ packets_from rtps (offset + 1144)

  pub packets_from-reported :
      (use_proxy_output : Bool) (rtp : Bytes) (rtps : List Bytes) (offset : ℕ) (r : Receiver)
      → IsNumbered client p payload
      → All IsRtpHeader (rtp ∷ rtps)
      → length r.buf ≡ buffer_length
      → counted r p.frame_counter ≡ offset
      → offset + length rtps * 1144 < length payload
      → length payload ≤ offset + suc (length rtps) * 1144
      → (r' : Receiver) × (events : List Event) × (receive_packets use_proxy_output video
            (packets_from (rtp ∷ rtps) offset)
            r
          ≡ some (r', events))
        × (reports events ≡ p.frame_counter ∷ [])
  packets_from-reported use_proxy_output rtp [] offset r h (e, es) full count lo hi =
      let (sent, quiet, one) =
        receive_packet-counted use_proxy_output rtp offset r h (omega arith) e full in
      let r1 : Receiver = record r { buf = copy 0 (packet_at client p payload rtp offset) r.buf } in
      let now = count_frame video (header_of client p payload offset) r1 in
      let size : length (chunk client p payload offset) ≡ length payload - offset =
        omega (arith, length-take 1144 (drop offset payload), length-drop offset payload) in
      let before : counted r1 p.frame_counter ≡ offset = (unfold counted in count) in
      let whole =
        count_frame_complete (header_of client p payload offset) r1 (omega arith) h.fits in
      (
        now.0,
        (sent ++ now.1) ++ [],
        (unfold receive_packets in rw one refl),
        rw (append-nil (sent ++ now.1), reports-append sent (now.1), quiet) whole,
      )
  packets_from-reported use_proxy_output rtp (next ∷ rtps) offset r h (e, es) full count lo hi =
      let (sent, quiet, one) =
        receive_packet-counted use_proxy_output rtp offset r h (omega arith) e full in
      let r1 : Receiver = record r { buf = copy 0 (packet_at client p payload rtp offset) r.buf } in
      let now = count_frame video (header_of client p payload offset) r1 in
      let size : length (chunk client p payload offset) ≡ 1144 =
        omega (arith, length-take 1144 (drop offset payload), length-drop offset payload) in
      let before : counted r1 p.frame_counter ≡ offset = (unfold counted in count) in
      let (none_yet, same, after) =
        count_frame_partial (header_of client p payload offset) r1 (omega arith) h.fits in
      let (r', events, rest, reported) =
        packets_from-reported use_proxy_output next rtps (offset + 1144) (now.0) h es
          (omega (
            arith,
            ap length same,
            length-copy 0 (packet_at client p payload rtp offset) r.buf,
            full,
          ))
          (omega arith) (omega arith) (omega arith) in
      (
        r',
        (sent ++ now.1) ++ events,
        receive_packets-cons use_proxy_output (packet_at client p payload rtp offset) _ r (now.0) r'
            (sent ++ now.1) events one rest,
        rw (reports-append (sent ++ now.1) events, reports-append sent (now.1), quiet, none_yet)
            reported,
      )

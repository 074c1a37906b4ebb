-- ===== src/Sfu/Protocol/Padding.antt =====
-- A quality decision on its way from the DLL to the unit. The DLL's datagram is read into a buffer of
-- 1500 bytes, and all of the buffer behind the type is sent on, with the zeros behind the text.
use web_rtcsfu.Base.{
  ℕ, zero, suc, ◌-◌, ◌<◌, ◌≤◌, ◌≡◌, refl, ap, ◌∙◌, true, some, [], ◌∷◌, ◌++◌, nat_eq, arith, length,
  length-replicate, replicate, drop, append_assoc,
}
use web_rtcsfu.Base.Bytes.{Bytes, copy, copy-front, le_bytes}
use web_rtcsfu.Base.Text.Laws.{Lacks, split-append, split-Lacks}
use web_rtcsfu.Base.Text.Numbers.{atoi-zero}
use web_rtcsfu.Peer.Proxy.{receive}
use web_rtcsfu.Peer.Proxy.Types.{ProxyConnection, forward}
use web_rtcsfu.Peer.Signaling.{WebsocketPacket, send_message}
use web_rtcsfu.Sfu.Types.{Peer, Sfu, Library}
use web_rtcsfu.Sfu.Socket.{
  quality_decisions, decide_tiles, decide_client, decide_clients, handle_message,
}
use web_rtcsfu.Sfu.Protocol.Understood.{handle_message-send_message}

-- What is sent on of a text.
abbrev pub padded : Bytes → Bytes
padded text = text ++ replicate (1496 - length text) 0

drop-zeros : (n m : ℕ) → drop {A = ℕ} n (replicate m 0) ≡ replicate (m - n) 0
drop-zeros zero m = ap (λ k. replicate k 0) {x = m} {y = m - zero} (omega arith)
drop-zeros (suc n) zero = ap (λ k. replicate k 0) {x = 0} {y = zero - suc n} (omega arith)
drop-zeros (suc n) (suc m) =
    drop-zeros n m ∙ ap (λ k. replicate k 0) {x = m - n} {y = suc m - suc n} (omega arith)

receive-control :
    (pc : ProxyConnection) (text : Bytes)
    → pc.ws_handler ≡ true
    → length text ≤ 1496
    → receive pc (le_bytes 3 ++ text) ≡ some (pc, forward (padded text) ∷ [])
unfolding receive
receive-control pc text set small =
    let zeros : drop {A = ℕ} (length text) (replicate 1496 0) ≡ replicate (1496 - length text) 0 =
      drop-zeros (length text) 1496 in
    let room : length text ≤ length (replicate {A = ℕ} 1496 0) =
      omega (arith, length-replicate {A = ℕ} 1496 0, small) in
    let read : copy 0 text (replicate 1496 0) ≡ padded text =
      copy-front text (replicate 1496 0) room ∙ ap (λ t. text ++ t) zeros in
    rw (read, set) refl

Lacks-append : (sep : ℕ) (s t : Bytes) → Lacks sep s → Lacks sep t → Lacks sep (s ++ t)
Lacks-append sep [] t hs ht = ht
Lacks-append sep (c ∷ s) t (h, hs) ht = (h, Lacks-append sep s t hs ht)

Lacks-zeros : (sep : ℕ) (n : ℕ) → 0 < sep → Lacks sep (replicate n 0)
Lacks-zeros sep zero h = tt
Lacks-zeros sep (suc n) h = (λ e. omega arith, Lacks-zeros sep n h)

-- A decision for one tile that a zero follows.
quality_decisions-zero :
    (lib : Library) (s : Sfu) (client last zs : Bytes) (p : Peer) (rtc : lib.Rtc)
    → Lacks b';' (client ++ b',' ∷ (last ++ 0 ∷ zs))
    → Lacks b',' client
    → Lacks b',' (last ++ 0 ∷ zs)
    → quality_decisions lib s (client ++ b',' ∷ (last ++ 0 ∷ zs)) p rtc ≡ (p, rtc)
unfolding quality_decisions decide_clients decide_client decide_tiles
quality_decisions-zero lib s client last zs p rtc one_entry one_client one_tile =
    rw
      (
        split-Lacks b';' (client ++ b',' ∷ (last ++ 0 ∷ zs)) one_entry,
        split-append b',' client (last ++ 0 ∷ zs) one_client,
        split-Lacks b',' (last ++ 0 ∷ zs) one_tile,
        atoi-zero last zs,
        decide_tiles,
      )
      refl

-- Nothing in it but what may stand between two separators.
abbrev pub IsPlain : Bytes → Type 0
IsPlain s = Lacks b'@' s × Lacks b';' s × Lacks b',' s

-- The message that the client's connection sends for a text of the DLL.
abbrev pub decision_packet : Bytes → WebsocketPacket
decision_packet text = record { client_id = 0; message_type = 7; message = padded text }

-- Zeros behind a text that leaves room for one.
padded-zero :
    (text : Bytes)
    → length text < 1496
    → (zs : Bytes) × (padded text ≡ text ++ 0 ∷ zs) × ((sep : ℕ) → 0 < sep → Lacks sep (0 ∷ zs))
padded-zero text small =
    let n = 1495 - length text in
    (
      replicate n 0,
      ap (λ k. text ++ replicate k 0) {x = 1496 - length text} {y = suc n} (omega arith),
      λ sep h. Lacks-zeros sep (suc n) h,
    )

-- Let the connection to the DLL have its websocket handler, and take a control packet whose text
-- is a client and one quality, with a comma in between, neither of the two with an `@`, a `;` or a
-- `,`, and shorter than 1496 bytes. The receiving goroutine sends on the text with zeros behind it
-- up to 1496 bytes, and the unit that handles this message of type 7 changes nothing: the decision
-- is lost, whatever the quality is.
pub handle_message-lost :
    (lib : Library) (s : Sfu) (pc : ProxyConnection) (client last : Bytes) (p : Peer)
    (rtc : lib.Rtc)
    → pc.ws_handler ≡ true
    → IsPlain client
    → IsPlain last
    → length (client ++ b',' ∷ last) < 1496
    → (receive pc (le_bytes 3 ++ client ++ b',' ∷ last)
        ≡ some (pc, forward (padded (client ++ b',' ∷ last)) ∷ []))
      × (handle_message lib s (send_message (decision_packet (client ++ b',' ∷ last))) p rtc
          ≡ some (p, rtc))
handle_message-lost lib s pc client last p rtc set plain_client plain_last small =
    let text = client ++ b',' ∷ last in
    let (zs, e, zeros) = padded-zero text small in
    let shape : padded text ≡ client ++ b',' ∷ (last ++ 0 ∷ zs) =
      e ∙ append_assoc client (b',' ∷ last) (0 ∷ zs) in
    let lacks =
      λ (sep : ℕ) (h : 0 < sep) (c : Lacks sep client) (l : Lacks sep last) (n : ¬ (b',' ≡ sep)).
        Lacks-append sep client (b',' ∷ (last ++ 0 ∷ zs)) c
          (n, Lacks-append sep last (0 ∷ zs) l (zeros sep h)) in
    let no_at : Lacks b'@' (padded text) =
      rw shape (lacks b'@' (omega arith) plain_client.0 plain_last.0 (omega arith)) in
    (
      receive-control pc text set (omega arith),
      handle_message-send_message lib s (decision_packet text) p rtc (omega arith) no_at
          ∙ ap (λ m. some (quality_decisions lib s m p rtc)) shape
          ∙ ap some (
              quality_decisions-zero lib s client last zs p rtc
                (lacks b';' (omega arith) plain_client.1 plain_last.1 (omega arith)) plain_client.2
                (Lacks-append b',' last (0 ∷ zs) plain_last.2 (zeros b',' (omega arith)))),
    )

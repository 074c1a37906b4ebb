-- ===== src/Peer/Signaling/RoundTrip.antt =====
-- What the other side reads of a message that was sent.
use web_rtcsfu.Base.{ℕ, ◌≤◌, ◌<◌, ◌≡◌, some, none, [], ◌∷◌, arith, length, ◌∙◌, ap, ◌↔◌, List}
use web_rtcsfu.Base.Bytes.{Bytes}
use web_rtcsfu.Base.Text.{format_uint, split, max_u64}
use web_rtcsfu.Base.Text.Laws.{
  Lacks, until, until-Lacks, split-until, split-append, format_uint-IsDigit, Lacks-digits,
  parse_uint-format_uint, count, length-split,
}
use web_rtcsfu.Peer.Signaling.{WebsocketPacket, send_message, read_parts, read_message}

pub at_sign : (n : ℕ) → Lacks b'@' (format_uint n)
at_sign n = Lacks-digits b'@' (format_uint n) (λ d. omega arith) (format_uint-IsDigit n)

-- If the two numbers of a packet fit 64 bits, the text that `SendMessage` writes is read back with
-- the same numbers, and with the message up to its first `@`.
pub read_message-send_message :
    (p : WebsocketPacket)
    → p.client_id ≤ max_u64
    → p.message_type ≤ max_u64
    → read_message (send_message p) ≡ some (record p { message = until b'@' p.message })
unfolding read_message send_message
read_message-send_message p hc ht =
    let (ps, rest) = split-until b'@' p.message in
    rw (
      split-append b'@' (format_uint p.client_id) _ (at_sign p.client_id),
      split-append b'@' (format_uint p.message_type) _ (at_sign p.message_type),
      rest,
      parse_uint-format_uint p.client_id hc,
      parse_uint-format_uint p.message_type ht,
    )

-- If the two numbers of a packet fit 64 bits and its message has no `@`, the text that
-- `SendMessage` writes is read back as the same packet.
pub read_message-intact :
    (p : WebsocketPacket)
    → p.client_id ≤ max_u64
    → p.message_type ≤ max_u64
    → Lacks b'@' p.message
    → read_message (send_message p) ≡ some p
read_message-intact p hc ht h =
    read_message-send_message p hc ht
    ∙ ap (λ m. some (record p { message = m })) (until-Lacks b'@' p.message h)

read_parts-eq_none : (v : List Bytes) → (read_parts v ≡ none) ↔ (length v < 3)
unfolding read_parts
read_parts-eq_none [] = ground arith
read_parts-eq_none (a ∷ []) = ground arith
read_parts-eq_none (a ∷ b ∷ []) = ground arith
read_parts-eq_none (a ∷ b ∷ c ∷ rest) = ground arith

-- The reading of a message panics exactly if its text has fewer than two `@`.
pub read_message-eq_none : (text : Bytes) → (read_message text ≡ none) ↔ (count b'@' text < 2)
unfolding read_message
read_message-eq_none text =
    let (to, back) = read_parts-eq_none (split text b'@') in
    (
      λ e. omega (arith, to e, length-split b'@' text),
      λ h. back (omega (arith, length-split b'@' text)),
    )

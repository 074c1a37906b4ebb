-- ===== src/Sfu/Protocol/Understood.antt =====
-- Each program reads what the other sends.
use web_rtcsfu.Base.{
  ℕ, ◌≤◌, ◌≡◌, refl, ap, ◌∙◌, some, [], ◌∷◌, ◌==◌, nat_eq, if◌then◌else◌, arith, All, Bool-cases,
  inl, inr,
}
use web_rtcsfu.Base.Bytes.{Bytes}
use web_rtcsfu.Base.Text.{format_uint, split, max_u64}
use web_rtcsfu.Base.Text.Laws.{Lacks, split-append, split-Lacks, parse_uint-format_uint}
use web_rtcsfu.Peer.Client.{contains_text}
use web_rtcsfu.Peer.Signaling.{WebsocketPacket, send_message, read_message}
use web_rtcsfu.Peer.Signaling.RoundTrip.{at_sign, read_message-intact}
use web_rtcsfu.Sfu.Types.{Peer, Sfu, Library}
use web_rtcsfu.Sfu.Signal.{offer_text}
use web_rtcsfu.Sfu.Socket.{answer, candidate, quality_decisions, handle_message}
use web_rtcsfu.Sfu.Protocol.{candidate_text, on_ice_candidate}

-- A packet of the unit, as a client reads it.
abbrev pub from_unit : ℕ → Bytes → WebsocketPacket
from_unit message_type payload = record {
  client_id = 0;
  message_type = message_type;
  message = payload;
}

-- The texts are each read as this packet.
abbrev pub IsRead : WebsocketPacket → Bytes → Type 0
IsRead p text = read_message text ≡ some p

offer_text-IsRead :
    (payload : Bytes) → Lacks b'@' payload → IsRead (from_unit 2 payload) (offer_text payload)
unfolding offer_text send_message
offer_text-IsRead payload h =
    read_message-intact (from_unit 2 payload) (omega arith) (omega arith) h

on_ice_candidate-IsRead :
    (restrict_address address payload : Bytes)
    → Lacks b'@' payload
    → All
        (IsRead (from_unit 4 payload))
        (on_ice_candidate restrict_address (some (address, payload)))
unfolding on_ice_candidate candidate_text send_message
on_ice_candidate-IsRead restrict_address address payload h =
    elim (Bool-cases (contains_text address restrict_address)) [
      | inl considered ↦
          rw considered
            (read_message-intact (from_unit 4 payload) (omega arith) (omega arith) h, tt)
      | inr other ↦ rw other tt
    ]

-- For a payload without `@`, a client reads the text of the unit's offer as a packet of type 2
-- with this payload from sender 0, and each text that `OnICECandidate` sends for a candidate with
-- this payload as one of type 4.
pub unit_texts-IsRead :
    (restrict_address address payload : Bytes)
    → Lacks b'@' payload
    → IsRead (from_unit 2 payload) (offer_text payload)
      × All
          (IsRead (from_unit 4 payload))
          (on_ice_candidate restrict_address (some (address, payload)))
unit_texts-IsRead restrict_address address payload h =
    (offer_text-IsRead payload h, on_ice_candidate-IsRead restrict_address address payload h)

-- The parts of a message that a client sends.
split-send_message :
    (m : WebsocketPacket)
    → Lacks b'@' m.message
    → split (send_message m) b'@'
      ≡ format_uint m.client_id ∷ format_uint m.message_type ∷ m.message ∷ []
unfolding send_message
split-send_message m h =
    split-append b'@' (format_uint m.client_id) _ (at_sign m.client_id)
    ∙ ap (λ ps. format_uint m.client_id ∷ ps)
        (split-append b'@' (format_uint m.message_type) _ (at_sign m.message_type)
          ∙ ap (λ ps. format_uint m.message_type ∷ ps) (split-Lacks b'@' m.message h))

-- For a packet of a client whose message has no `@` and whose type fits 64 bits, the unit's
-- handling of the text that `SendMessage` writes is that of an answer with this message for type
-- 3, of a candidate for type 4, and of quality decisions for type 7; for any other type it changes
-- nothing.
pub handle_message-send_message :
    (lib : Library) (s : Sfu) (m : WebsocketPacket) (p : Peer) (rtc : lib.Rtc)
    → m.message_type ≤ max_u64
    → Lacks b'@' m.message
    → handle_message lib s (send_message m) p rtc ≡ (
        if m.message_type == 3
        then answer lib m.message p rtc
        else if m.message_type == 4
        then candidate lib m.message p rtc
        else if m.message_type == 7
        then some (quality_decisions lib s m.message p rtc)
        else some (p, rtc))
unfolding handle_message
handle_message-send_message lib s m p rtc small h =
    rw (split-send_message m h, parse_uint-format_uint m.message_type small) refl

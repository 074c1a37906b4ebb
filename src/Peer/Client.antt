-- ===== src/Peer/Client.antt =====
-- peer/main.go: what the client does with a message of the SFU (`handleMessageCallback`), and with an
-- ICE candidate of its own (`OnICECandidate`). `none` is a panic; the packets are those that
-- `SendMessage` gets.
pub mod Waiting
pub mod Pending
mod Examples
use web_rtcsfu.Base.{
  ℕ, zero, suc, ◌+◌, ◌-◌, ◌*◌, ltb, Bool, true, false, not, ◌&&◌, ◌||◌, Option, none, some, List,
  [], ◌∷◌, ◌++◌, ◌>>=◌, ◌==◌, nat_eq, nat_beq, if◌then◌else◌,
}
use web_rtcsfu.Base.Bytes.{Bytes, codes}
use web_rtcsfu.Base.Text.{ℤ, pos, negsuc, format_int, wrap_int}
use web_rtcsfu.Peer.Signaling.{WebsocketPacket}

-- `strings.HasPrefix` and `strings.Contains`.
pub has_prefix : Bytes → Bytes → Bool
has_prefix s [] = true
has_prefix [] (c ∷ prefix) = false
has_prefix (b ∷ s) (c ∷ prefix) = nat_beq b c && has_prefix s prefix

pub contains_text : Bytes → Bytes → Bool
unfolding has_prefix
contains_text [] part = has_prefix [] part
contains_text (b ∷ s) part = has_prefix (b ∷ s) part || contains_text s part

abbrev pub idle : ℕ
idle = 0

abbrev pub hello : ℕ
hello = 1

abbrev pub offer : ℕ
offer = 2

abbrev pub answer : ℕ
answer = 3

-- The calls of the WebRTC library on the one peer connection; `none` is an error. `Candidate` is what
-- the library tells of a candidate of this client.
pub record Connection : Type 1 where
  pub Rtc : Type 0
  pub Candidate : Type 0
  pub address : Candidate → Bytes
  pub to_json : Candidate → Bytes
  pub create_offer : Rtc → Option (Bytes × Rtc)
  pub create_answer : Rtc → Option (Bytes × Rtc)
  pub set_local_description : Rtc → Bytes → Option Rtc
  pub set_remote_description : Rtc → Bytes → Option Rtc
  pub has_remote_description : Rtc → Bool
  pub add_candidate : Rtc → Bytes → Option Rtc
  pub marshal : Bytes → Option Bytes
  pub unmarshal : Bytes → Option Bytes

-- The flags `sfu` and `c`.
pub record Settings : Type 0 where
  pub sfu_address : Bytes
  pub client_id : ℤ

-- `11 + 2**clientID`
abbrev pub subnetwork_id : ℤ → ℤ
subnetwork_id (pos n) = wrap_int (pos (11 + 2 * n))
subnetwork_id (negsuc n) = wrap_int (if ltb 9 (2 * n) then negsuc (2 * n - 10) else pos (9 - 2 * n))

-- Is a candidate of the SFU considered?
pub is_considered : Settings → Bytes → Bool
unfolding has_prefix contains_text
is_considered settings candidate =
    not (has_prefix settings.sfu_address (codes "193.190"))
    || contains_text candidate (codes " 192.168." ++ format_int (subnetwork_id settings.client_id))
    || contains_text candidate (codes " 193.190")

-- A packet of this client.
abbrev pub packet : ℕ → Bytes → WebsocketPacket
packet message_type message = record {
  client_id = 1;
  message_type = message_type;
  message = message;
}

module _ (lib : Connection) where
  open lib use {
    Rtc, Candidate, address, to_json, create_offer, create_answer, set_local_description,
    set_remote_description, has_remote_description, add_candidate, marshal, unmarshal,
  }

  pub record Client : Type 0 where
    pub state : ℕ
    pub pending_candidates : List Candidate
    pub pending_candidates_string : List Bytes
    pub rtc : Rtc

  handle_hello : Client → Option (Client × List WebsocketPacket)
  handle_hello c = do
    (description, r0) ← create_offer c.rtc
    r1 ← set_local_description r0 description
    payload ← marshal description
    some (record c { state = hello; rtc = r1 }, packet 2 payload ∷ [])

  handle_offer : Bytes → Client → Option (Client × List WebsocketPacket)
  handle_offer message c = do
    description ← unmarshal message
    r0 ← set_remote_description c.rtc description
    (reply, r1) ← create_answer r0
    r2 ← set_local_description r1 reply
    payload ← marshal reply
    some (record c { state = offer; rtc = r2 }, packet 3 payload ∷ [])

  candidate_packets : List Candidate → List WebsocketPacket
  candidate_packets [] = []
  candidate_packets (c ∷ cs) = packet 4 (to_json c) ∷ candidate_packets cs

  add_candidates : List Bytes → Rtc → Option Rtc
  add_candidates [] rtc = some rtc
  add_candidates (text ∷ texts) rtc = add_candidate rtc text >>= λ rtc'. add_candidates texts rtc'

  -- Neither list is emptied.
  handle_answer : Bytes → Client → Option (Client × List WebsocketPacket)
  handle_answer message c = do
    description ← unmarshal message
    r0 ← set_remote_description c.rtc description
    r1 ← add_candidates c.pending_candidates_string r0
    some (record c { state = answer; rtc = r1 }, candidate_packets c.pending_candidates)

  handle_candidate : Settings → Bytes → Client → Option (Client × List WebsocketPacket)
  handle_candidate settings candidate c =
      if is_considered settings candidate
      then (if has_remote_description c.rtc
          then (add_candidate c.rtc candidate >>= λ rtc'. some (record c { rtc = rtc' }, []))
          else some (
            record c { pending_candidates_string = c.pending_candidates_string ++ candidate ∷ [] },
            [],
          ))
      else some (c, [])

  pub handle_message : Settings → WebsocketPacket → Client → Option (Client × List WebsocketPacket)
  handle_message settings p c =
      if p.message_type == 1
      then handle_hello c
      else if p.message_type == 2
      then handle_offer p.message c
      else if p.message_type == 3
      then handle_answer p.message c
      else if p.message_type == 4
      then handle_candidate settings p.message c
      else some (c, [])

  -- The callback on the messages that arrive one after another, with all that is sent.
  pub handle_messages :
      Settings → List WebsocketPacket → Client → Option (Client × List WebsocketPacket)
  handle_messages settings [] c = some (c, [])
  handle_messages settings (p ∷ ps) c = handle_message settings p c >>= λ now.
      handle_messages settings ps now.0 >>= λ later. some (later.0, now.1 ++ later.1)

  -- `OnICECandidate`; the nil candidate is `none`.
  pub on_ice_candidate : Settings → Option Candidate → Client → Client × List WebsocketPacket
  unfolding has_prefix
  on_ice_candidate settings none client = (client, [])
  on_ice_candidate settings (some c) client =
      if not (has_prefix settings.sfu_address (codes "193.190"))
        || has_prefix (address c) (codes "10.8.")
      then (if has_remote_description client.rtc
          then (client, packet 4 (to_json c) ∷ [])
          else (record client { pending_candidates = client.pending_candidates ++ c ∷ [] }, []))
      else (client, [])

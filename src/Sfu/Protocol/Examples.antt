-- ===== src/Sfu/Protocol/Examples.antt =====
-- The theorems on messages between the programs at small texts.
use web_rtcsfu.Base.{◌≡◌, refl, true, some, [], ◌∷◌, ◌++◌, ◌==◌, nat_eq, if◌then◌else◌, arith, All}
use web_rtcsfu.Base.Bytes.{Bytes, codes, le_bytes}
use web_rtcsfu.Peer.Proxy.{receive}
use web_rtcsfu.Peer.Proxy.Types.{ProxyConnection, forward}
use web_rtcsfu.Peer.Signaling.{WebsocketPacket, send_message}
use web_rtcsfu.Sfu.Signal.{offer_text}
use web_rtcsfu.Sfu.Socket.{answer, candidate, quality_decisions, handle_message}
use web_rtcsfu.Sfu.Protocol.{on_ice_candidate}
use web_rtcsfu.Sfu.Protocol.Understood.{
  from_unit, IsRead, unit_texts-IsRead, handle_message-send_message,
}
use web_rtcsfu.Sfu.Protocol.Padding.{padded, decision_packet, handle_message-lost}
use web_rtcsfu.Sfu.Fake.{fake, room, viewer, media}

abbrev note : Bytes
note = codes "candidate:1"

unit_texts-IsRead_example :
    IsRead (from_unit 2 note) (offer_text note)
    × All
        (IsRead (from_unit 4 note))
        (on_ice_candidate (codes "10.") (some (codes "10.0.0.1", note)))
unit_texts-IsRead_example = unit_texts-IsRead (codes "10.") (codes "10.0.0.1") note (omega arith)

abbrev switch : WebsocketPacket
switch = record { client_id = 1; message_type = 7; message = codes "2,1" }

handle_message-send_message_example :
    handle_message fake room (send_message switch) viewer media ≡ (
      if switch.message_type == 3
      then answer fake switch.message viewer media
      else if switch.message_type == 4
      then candidate fake switch.message viewer media
      else if switch.message_type == 7
      then some (quality_decisions fake room switch.message viewer media)
      else some (viewer, media))
handle_message-send_message_example =
    handle_message-send_message fake room switch viewer media (omega arith) (omega arith)

abbrev with_handler : ProxyConnection
with_handler = record {
  incomplete_tiles = [];
  complete_tiles = [];
  incomplete_audio_frames = [];
  complete_audio_frames = [];
  cond_video = [];
  cond_audio = true;
  ws_handler = true;
}

-- `2,1`, which is to give the viewer the tile of client 2 at quality 1, changes nothing.
handle_message-lost_example :
    (receive with_handler (le_bytes 3 ++ codes "2" ++ b',' ∷ codes "1")
      ≡ some (with_handler, forward (padded (codes "2" ++ b',' ∷ codes "1")) ∷ []))
    × (handle_message fake room
          (send_message (decision_packet (codes "2" ++ b',' ∷ codes "1")))
          viewer
          media
        ≡ some (viewer, media))
handle_message-lost_example =
    handle_message-lost fake room with_handler (codes "2") (codes "1") viewer media refl
      (omega arith) (omega arith) (omega arith)

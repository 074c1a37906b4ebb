-- ===== src/Peer/Signaling/Examples.antt =====
-- Tests of the message format, and the theorems at one message.
use web_rtcsfu.Base.{
  ◌≡◌, refl, some, none, arith, ◌↔◌, ◌<◌, Option, List, [], ◌∷◌, ◌++◌, ◌==◌, nat_eq, if◌then◌else◌,
}
use web_rtcsfu.Base.Bytes.{Bytes, codes}
use web_rtcsfu.Base.Text.{format_uint, format_int, parse_uint, split, pos, negsuc}
use web_rtcsfu.Base.{dec_lt}
use web_rtcsfu.Peer.Signaling.{WebsocketPacket, send_message, read_message, raw_query, listen}
use web_rtcsfu.Peer.Signaling.Listening.{texts, deliver, listen-send_message}
use web_rtcsfu.Peer.Signaling.RoundTrip.{read_message-send_message, read_message-eq_none}
use web_rtcsfu.Base.Text.Laws.{count}

abbrev candidate : WebsocketPacket
candidate = record { client_id = 1; message_type = 4; message = codes "candidate:1 1 udp" }

abbrev address : WebsocketPacket
address = record { client_id = 1; message_type = 4; message = codes "user@host" }

candidate_text : send_message candidate ≡ codes "1@4@candidate:1 1 udp"
unfolding send_message format_uint dec_lt
candidate_text = refl

query_text : raw_query (pos 4) (pos 3) (negsuc 1) ≡ codes "ntiles=4&nqualities=3&clientid=-2"
unfolding raw_query format_int dec_lt
query_text = refl

bad_numbers :
    read_message (codes "x@18446744073709551616@m")
    ≡ some (record { client_id = 0; message_type = 18446744073709551615; message = codes "m" })
unfolding read_message split parse_uint
bad_numbers = refl

too_short : read_message (codes "3@7") ≡ none
unfolding read_message split
too_short = refl

read_message-send_message_example :
    read_message (send_message address) ≡ some (record address { message = codes "user" })
read_message-send_message_example = read_message-send_message address (omega arith) (omega arith)

read_message-eq_none_example : (read_message (codes "3@7") ≡ none) ↔ (count b'@' (codes "3@7") < 2)
read_message-eq_none_example = read_message-eq_none (codes "3@7")

-- A callback that keeps the messages and panics on type 9.
abbrev keep : WebsocketPacket → List Bytes → Option (List Bytes)
keep p kept = if p.message_type == 9 then none else some (kept ++ p.message ∷ [])

listen-send_message_example :
    listen keep (texts keep (candidate ∷ candidate ∷ []) ++ none ∷ []) []
    ≡ deliver keep (candidate ∷ candidate ∷ []) []
listen-send_message_example =
    listen-send_message keep (candidate ∷ candidate ∷ []) [] [] (omega arith)

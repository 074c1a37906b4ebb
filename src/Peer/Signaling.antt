-- ===== src/Peer/Signaling.antt =====
-- peer/signaling.go: the text of a message to the SFU, and the reading of one from it. The dialling
-- of the socket and its write lock are left out.
pub mod RoundTrip
pub mod Listening
mod Examples
use web_rtcsfu.Base.{ℕ, Option, none, some, ◌>>=◌, List, [], ◌∷◌, ◌++◌, get_elem?}
use web_rtcsfu.Base.Bytes.{Bytes, codes}
use web_rtcsfu.Base.Text.{format_uint, parse_uint, split, ℤ, format_int}

pub record WebsocketPacket : Type 0 where
  pub client_id : ℕ  -- uint64
  pub message_type : ℕ  -- uint64
  pub message : Bytes

-- The query of the URL that `NewWSHandler` dials.
pub raw_query : ℤ → ℤ → ℤ → Bytes
raw_query n_tiles n_qualities client_id =
    codes "ntiles="
    ++ format_int n_tiles
    ++ codes "&nqualities="
    ++ format_int n_qualities
    ++ codes "&clientid="
    ++ format_int client_id

-- `SendMessage`: `fmt.Sprintf("%d@%d@%s", …)`
unfoldable pub send_message : WebsocketPacket → Bytes
send_message p = format_uint p.client_id ++ b'@' ∷ (format_uint p.message_type ++ b'@' ∷ p.message)

-- The packet made of the parts of a text; `none` is the panic of an index out of range.
read_parts : List Bytes → Option WebsocketPacket
read_parts v = do
  client_id ← get_elem? v 0
  message_type ← get_elem? v 1
  message ← get_elem? v 2
  some (record {
    client_id = parse_uint client_id;
    message_type = parse_uint message_type;
    message = message;
  })

-- One round of `StartListening`: the packet that the callback gets.
unfoldable pub read_message : Bytes → Option WebsocketPacket
unfolding read_parts
read_message text = read_parts (split text b'@')

-- `StartListening`, over the reads of the socket: a text, or `none` for an error, which ends the loop.
-- The callback works on the state `S`, and `none` is a panic.
module _ {S : Type 0} (callback : WebsocketPacket → S → Option S) where
  pub listen : List (Option Bytes) → S → Option S
  listen [] s = some s
  listen (none ∷ reads) s = some s
  listen (some text ∷ reads) s = read_message text >>= λ p. callback p s >>= λ s'. listen reads s'

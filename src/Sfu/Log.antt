-- ===== src/Sfu/Log.antt =====
-- sfu/log.go: the lines that the unit prints.
use web_rtcsfu.Base.{ℕ, ◌==◌, nat_eq, ◌++◌, ◌∷◌, [], Option, some, none, if◌then◌else◌}
use web_rtcsfu.Base.Bytes.{Bytes, codes}
use web_rtcsfu.Base.Text.{ℤ, ℤ_leb, format_int}

pub record Logger : Type 0 where
  pub level : ℤ

pub new_logger : ℤ → Logger
new_logger level = record { level = level }

-- The lines of `Log` and `LogClient`, for a level that is printed, and of `ErrorClient`.
pub log : Logger → Bytes → Bytes → ℤ → Option Bytes
log l function message level =
    if ℤ_leb level l.level
    then some (codes "WebRTCSFU: " ++ function ++ codes ": " ++ message ++ 10 ∷ [])
    else none

pub log_client : Logger → ℤ → Bytes → Bytes → ℤ → Option Bytes
log_client l client function message level =
    if ℤ_leb level l.level
    then some (
        codes "WebRTCSFU [Client #"
        ++ format_int client
        ++ codes "]: "
        ++ function
        ++ codes ": "
        ++ message
        ++ 10 ∷ [])
    else none

pub error_client : Logger → ℤ → Bytes → Bytes → Bytes
error_client l client function message =
    codes "WebRTCSFU [Client #"
    ++ format_int client
    ++ codes "]: ERROR in "
    ++ function
    ++ codes ": "
    ++ message
    ++ 10 ∷ []

-- `websocketMessageTypeToString` of sfu/main.go, for these lines.
pub websocket_message_type_to_string : ℕ → Bytes
websocket_message_type_to_string message_type =
    if message_type == 3
    then codes "Answer with Remote Description"
    else if message_type == 4
    then codes "New ICE Candidate"
    else if message_type == 7
    then codes "Quality decisions"
    else codes "Unknown Message Type"

-- ===== src/Peer/Log.antt =====
-- peer/log.go: the lines that the client prints.
use web_rtcsfu.Base.{◌++◌, ◌∷◌, [], Option, some, none, if◌then◌else◌}
use web_rtcsfu.Base.Bytes.{Bytes, codes}
use web_rtcsfu.Base.Text.{ℤ, ℤ_leb}

pub record Logger : Type 0 where
  pub level : ℤ

pub new_logger : ℤ → Logger
new_logger level = record { level = level }

-- The line of `Log`, for a level that is printed, and of `Error`.
pub log : Logger → Bytes → Bytes → ℤ → Option Bytes
log l function message level =
    if ℤ_leb level l.level
    then some (codes "WebRTCClient: " ++ function ++ codes ": " ++ message ++ 10 ∷ [])
    else none

pub error : Logger → Bytes → Bytes → Bytes
error l function message =
    codes "WebRTCClient: " ++ function ++ codes ": ERROR: " ++ message ++ 10 ∷ []

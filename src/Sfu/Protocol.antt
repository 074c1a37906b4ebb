-- ===== src/Sfu/Protocol.antt =====
-- sfu/main.go, `OnICECandidate`: the unit's own candidates. With its offers (Sfu.Signal), these are the
-- texts that the unit sends to a client.
pub mod Understood
pub mod Padding
mod Examples
use web_rtcsfu.Base.{Option, none, some, List, [], ◌∷◌, ◌++◌, if◌then◌else◌}
use web_rtcsfu.Base.Bytes.{Bytes}
use web_rtcsfu.Base.Text.{format_uint}
use web_rtcsfu.Peer.Client.{contains_text}

-- The text of a candidate: `fmt.Sprintf("%d@%d@%s", 0, 4, string(payload))`
pub candidate_text : Bytes → Bytes
candidate_text payload = format_uint 0 ++ b'@' ∷ (format_uint 4 ++ b'@' ∷ payload)

-- The texts that go out for a candidate with an address; the last call of the library has none. A write
-- that fails is a panic, and is left out with the socket.
pub on_ice_candidate : Bytes → Option (Bytes × Bytes) → List Bytes
on_ice_candidate restrict_address none = []
on_ice_candidate restrict_address (some (address, candidate)) =
    if contains_text address restrict_address then candidate_text candidate ∷ [] else []

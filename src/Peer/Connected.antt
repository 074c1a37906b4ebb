-- ===== src/Peer/Connected.antt =====
-- peer/main.go, `OnConnectionStateChange`: the addresses that a new connection uses, by the library's
-- report. sfu/main.go has the same loop.
pub mod Nominated
mod Examples
use web_rtcsfu.Base.{Bool, Option, none, some, List, [], ◌∷◌, ◌&&◌, ◌>>=◌, bytes_eq, if◌then◌else◌}
use web_rtcsfu.Base.Bytes.{Bytes}
use web_rtcsfu.Base.Map.{Map, lookup, insert}

-- `webrtc.ICECandidateStats`, with its ID and its IP; `webrtc.ICECandidatePairStats`, nominated and
-- succeeded or not, with the IDs of its candidates; and the other kinds.
pub data Stats : Type 0 where
  candidate : Bytes → Bytes → Stats
  pair : Bool → Bool → Bytes → Bytes → Stats
  other : Stats

pub record Selected : Type 0 where
  pub candidate_details : Map Bytes Bytes
  pub local_candidate_id : Option Bytes
  pub remote_candidate_id : Option Bytes

pub select_one : Stats → Selected → Selected
select_one (candidate id ip) sel = record sel {
  candidate_details = insert id ip sel.candidate_details;
}
select_one (pair nominated succeeded local_id remote_id) sel =
    if nominated && succeeded
    then record sel { local_candidate_id = some local_id; remote_candidate_id = some remote_id }
    else sel
select_one other sel = sel

-- `for _, stats := range statsReport`
pub select_all : List Stats → Selected → Selected
select_all [] sel = sel
select_all (x ∷ xs) sel = select_all xs (select_one x sel)

-- The two addresses; a nil pointer is a panic.
pub addresses : Selected → Option (Bytes × Bytes)
addresses sel = do
  local_id ← sel.local_candidate_id
  local_ip ← lookup local_id sel.candidate_details
  remote_id ← sel.remote_candidate_id
  remote_ip ← lookup remote_id sel.candidate_details
  some (local_ip, remote_ip)

pub on_connected : List Stats → Option (Bytes × Bytes)
on_connected report = addresses (
    select_all report
      (record { candidate_details = []; local_candidate_id = none; remote_candidate_id = none }))

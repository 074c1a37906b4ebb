-- ===== src/Sfu/OnTrack.antt =====
-- sfu/main.go: the callback for a track of a client that starts (`OnTrack`): what it publishes, whom it
-- updates, and the loop that passes the track's packets on. The callback is one run here; `Regions`
-- has it as the locked regions that other goroutines run between. `none` is a panic.
pub mod Names
pub mod Published
pub mod Keeping
pub mod Regions
mod Examples
use web_rtcsfu.Base.{
  ℕ, Bool, true, false, Option, none, some, List, [], ◌∷◌, ◌++◌, ◌>>=◌, ◌==◌, bytes_eq,
  if◌then◌else◌, get_elem?,
}
use web_rtcsfu.Base.Bytes.{Bytes, codes}
use web_rtcsfu.Base.Text.{ℤ, pos, negsuc, split, atoi, format_int}
use web_rtcsfu.Sfu.Types.{TrackLocal, Peer, Sfu, Library, ℤ_eq, video_id}
use web_rtcsfu.Sfu.Tracks.{
  add_track_local, remove_track_local, add_quality_track, update_client_track_state,
  update_client_track_state_quality,
}
use web_rtcsfu.Sfu.Signal.{Sync, signal_peer_connections}

-- What the ID of a remote track says.
pub data RemoteName : Type 0 where
  audio_name : RemoteName
  video_name : ℤ → ℤ → ℤ → RemoteName

unfoldable pub read_video_name : List Bytes → Option RemoteName
read_video_name v = do
  client ← get_elem? v 1
  client_id ← atoi client
  tile ← get_elem? v 2
  tile_id ← atoi tile
  level ← get_elem? v 3
  quality ← atoi level
  some (video_name client_id tile_id quality)

unfoldable pub read_name : Bytes → Option RemoteName
unfolding read_video_name
read_name id = do
  let v = split id b'_'
  kind ← get_elem? v 0
  if kind == codes "audio" then some audio_name else read_video_name v

module _ (lib : Library) where
  open lib use {Rtc, new_track}

  -- The maps, the state of the library, the offers that went out, and the new track.
  pub record Started : Type 0 where
    pub sfu : Sfu
    pub rtc : Rtc
    pub offers : List (ℕ × Bytes)
    pub track : TrackLocal

  -- `addTrack` with `callSignal`: the map, then `signalPeerConnections`.
  pub add_track_and_signal : Sfu → Rtc → TrackLocal → Option (Sfu × Rtc × List (ℕ × Bytes))
  add_track_and_signal s rtc t = do
    let s' = add_track_local s t
    sync ← signal_peer_connections lib s' rtc
    some (record s' { peer_connections = sync.peers }, sync.rtc, sync.offers)

  -- `removeTrack`, which is deferred for an audio track.
  pub remove_track_and_signal : Sfu → Rtc → TrackLocal → Option (Sfu × Rtc × List (ℕ × Bytes))
  remove_track_and_signal s rtc t = do
    let s' = remove_track_local s t
    sync ← signal_peer_connections lib s' rtc
    some (record s' { peer_connections = sync.peers }, sync.rtc, sync.offers)

  start_audio : Sfu → Rtc → Bytes → Bytes → Option Started
  start_audio s rtc id stream_id = do
    (t, rtc') ← new_track rtc id stream_id
    (s', rtc'', offers) ← add_track_and_signal s rtc' t
    some (record {
      sfu = s';
      rtc = update_client_track_state lib t s'.peer_connections rtc'';
      offers = offers;
      track = t;
    })

  -- `if quality == 0 { addTrack(&pcState, trackLocal, true) }`
  add_first_quality : Sfu → Rtc → TrackLocal → ℤ → Option (Sfu × Rtc × List (ℕ × Bytes))
  add_first_quality s rtc t quality =
      if quality == pos 0 then add_track_and_signal s rtc t else some (s, rtc, [])

  start_video : Sfu → Rtc → ℤ → ℤ → ℤ → Option Started
  start_video s rtc client_id tile_id quality = do
    let new_id = video_id client_id tile_id
    (t, rtc') ← new_track rtc new_id (format_int tile_id)
    (s', rtc'', offers) ← add_first_quality (add_quality_track s t quality new_id) rtc' t quality
    some (record {
      sfu = s';
      rtc = update_client_track_state_quality lib t quality s'.peer_connections rtc'';
      offers = offers;
      track = t;
    })

  -- By what the ID says.
  start_named : Sfu → Rtc → Bytes → Bytes → RemoteName → Option Started
  start_named s rtc id stream_id audio_name = start_audio s rtc id stream_id
  start_named s rtc id stream_id (video_name client_id tile_id quality) =
      start_video s rtc client_id tile_id quality

  pub on_track : Sfu → Rtc → Bytes → Bytes → Option Started
  on_track s rtc id stream_id = read_name id >>= λ name. start_named s rtc id stream_id name

-- The loop over the track's packets, up to the first error. `write` is `trackLocal.Write` on the state
-- `W` behind it, with whether it went well; a read is the packet's bytes, or `none` for an error.
module _ {W : Type 0} (write : Bytes → W → Bool × W) where
  pub relay : List (Option Bytes) → W → W
  relay [] w = w
  relay (none ∷ reads) w = w
  relay (some packet ∷ reads) w =
      let written = write packet w in
      let rest = relay reads written.1 in if written.0 then rest else written.1

-- ===== src/Peer/Setup/Senders.antt =====
-- How many tracks a client sends.
use web_rtcsfu.Base.{ℕ, ◌+◌, ◌*◌, ◌≡◌, some, List, [], ◌∷◌, >>=-eq_some, arith, length, ap}
use web_rtcsfu.Base.Bytes.{Bytes}
use web_rtcsfu.Base.Text.{ℤ, pos, format_uint}
use web_rtcsfu.Engine.{CodecCapability, Settings, Engine, stun_server}
use web_rtcsfu.Peer.Tracks.{TrackArguments, audio_track_id, video_tracks}
use web_rtcsfu.Peer.Tracks.Found.{length-video_tracks}
use web_rtcsfu.Peer.Setup.{
  settings, codec_capability, audio_codec_capability, set_up, add_tracks, connect,
}

-- A connection has no sender at first, and one more for each track that is added.
pub record SendingLaw (engine : Engine) : Type 0 where
  pub senders : engine.Connection → ℕ
  pub fresh :
      (s : Settings) (servers : List Bytes) (m : engine.Setup) (c : engine.Connection)
      → engine.new_peer_connection s servers m ≡ some c
      → senders c ≡ 0
  pub added :
      (codec : CodecCapability) (id stream_id : Bytes) (c c' : engine.Connection)
      → engine.add_track codec id stream_id c ≡ some c'
      → senders c' ≡ senders c + 1

module _ (engine : Engine) (law : SendingLaw engine) where
  add_tracks-senders :
      (tracks : List TrackArguments) (c c' : engine.Connection)
      → add_tracks engine tracks c ≡ some c'
      → law.senders c' ≡ law.senders c + length tracks
  unfolding add_tracks
  add_tracks-senders [] c c' e = let same : c ≡ c' = cc e in omega (arith, ap law.senders same)
  add_tracks-senders (a ∷ rest) c c' e =
      let (next, added, later) =
        >>=-eq_some
          (engine.add_track (record codec_capability { feedback = [] }) a.id a.stream_id c) _ c'
          e in
      omega (
        arith,
        law.added (record codec_capability { feedback = [] }) a.id a.stream_id c next added,
        add_tracks-senders rest next c' later,
      )

  pub connect-senders :
      (client_id : ℤ) (n m : ℕ) (c : engine.Connection)
      → connect engine client_id (pos n) (pos m) ≡ some c
      → law.senders c ≡ n * m + 1
  unfolding connect
  connect-senders client_id n m c e =
      let (setup, up, e1) = >>=-eq_some (set_up engine) _ c e in
      let (c0, created, e2) =
        >>=-eq_some (engine.new_peer_connection settings (stun_server ∷ []) setup) _ c e1 in
      let (c1, heard, e3) =
        >>=-eq_some
          (engine.add_track audio_codec_capability (audio_track_id client_id) (format_uint 99) c0) _
          c e2 in
      omega (
        arith,
        law.fresh settings (stun_server ∷ []) setup c0 created,
        law.added audio_codec_capability (audio_track_id client_id) (format_uint 99) c0 c1 heard,
        add_tracks-senders (video_tracks client_id n m) c1 c e3,
        length-video_tracks client_id n m,
      )

-- ===== src/Peer/Media/Examples.antt =====
-- Frames on a track whose packets are their payload.
use web_rtcsfu.Base.{◌≡◌, refl, true, false, some, [], ◌∷◌, arith, nat_eq}
use web_rtcsfu.Base.Bytes.{Bytes}
use web_rtcsfu.Base.Map.{lookup, remove}
use web_rtcsfu.Peer.Packet.{PointCloudPayloader, AudioPayloader, payload_video, payload_audio}
use web_rtcsfu.Peer.Proxy.{new_proxy_connection}
use web_rtcsfu.Peer.Proxy.Types.{VideoKey, key_eq, RemoteTile, ProxyConnection}
use web_rtcsfu.Peer.Proxy.Consumers.{ready, next_tile, next_tile-newest}
use web_rtcsfu.Peer.Transcoder.{
  remote, dummy, new_transcoder_remote, new_transcoder_dummy, encode_frame,
}
use web_rtcsfu.Peer.Media.Plain.{plain, plain_law}
use web_rtcsfu.Peer.Media.{
  TrackLocalRtp, new_track_local, new_track_local_cloud_rtp, write_audio_frame, write_video_frame,
  write_frames, written, write_encoded,
}
use web_rtcsfu.Peer.Media.Frames.{
  SentTile, SentAudio, write_video_frame-SentTile, write_frames-SentAudio,
}

abbrev tile_source : PointCloudPayloader
tile_source = record { frame_counter = 6; tile = 0; quality = 1 }

abbrev tile_track : TrackLocalRtp (plain (payload_video 1))
tile_track = record { packetizer = some tile_source; clock_rate = 90000; payloader = tile_source }

-- A track that is not bound yet sends nothing; binding it makes its packetizer.
unbound :
    write_audio_frame
      (plain (payload_video 1))
      (some (1 ∷ []))
      (new_track_local_cloud_rtp (plain (payload_video 1)) 0 1)
      []
    ≡ some (new_track_local_cloud_rtp (plain (payload_video 1)) 0 1, [])
unfolding write_audio_frame new_track_local_cloud_rtp new_track_local
unbound = refl

no_frame :
    write_video_frame
      (plain (payload_video 1))
      false
      (dummy new_transcoder_dummy)
      0
      1
      new_proxy_connection
      tile_track
      []
    ≡ some (written tile_track [] new_proxy_connection)
unfolding write_video_frame encode_frame write_encoded
no_frame = refl

abbrev key : VideoKey
key = record { tile_nr = 0; quality = 1 }

abbrev frame : Bytes
frame = 5 ∷ 6 ∷ 7 ∷ []

abbrev whole : RemoteTile
whole = record { frame_nr = 0; current_len = 3; file_len = 3; file_data = frame }

abbrev full : ProxyConnection
full = record {
  incomplete_tiles = [];
  complete_tiles = (key, whole ∷ []) ∷ [];
  incomplete_audio_frames = [];
  complete_audio_frames = [];
  cond_video = (key, tt) ∷ [];
  cond_audio = true;
  ws_handler = true;
}

abbrev emptied : ProxyConnection
emptied = record full { complete_tiles = remove key full.complete_tiles }

polled : next_tile full key ≡ some (ready emptied frame)
unfolding lookup
polled = next_tile-newest full key whole [] refl

write_video_frame-SentTile_example :
    SentTile 1
      (plain (payload_video 1))
      (plain_law (payload_video 1))
      tile_source
      frame
      emptied
      tile_track
      []
      (write_video_frame
        (plain (payload_video 1))
        false
        (remote new_transcoder_remote)
        0
        1
        full
        tile_track
        [])
write_video_frame-SentTile_example =
    write_video_frame-SentTile 1 (plain (payload_video 1)) (plain_law (payload_video 1))
      new_transcoder_remote 0 1 full emptied tile_track [] tile_source frame refl polled (λ e. cc)
      (omega arith)

abbrev sound_source : AudioPayloader
sound_source = record { frame_counter = 4294967295 }

abbrev sound_track : TrackLocalRtp (plain (payload_audio 1))
sound_track = record {
  packetizer = some sound_source;
  clock_rate = 90000;
  payloader = sound_source;
}

write_frames-SentAudio_example :
    SentAudio 1
      (plain (payload_audio 1))
      (plain_law (payload_audio 1))
      sound_source
      (frame ∷ (9 ∷ []) ∷ [])
      sound_track
      []
      (write_frames (plain (payload_audio 1)) (frame ∷ (9 ∷ []) ∷ []) sound_track [])
write_frames-SentAudio_example =
    write_frames-SentAudio 1 (plain (payload_audio 1)) (plain_law (payload_audio 1))
      (frame ∷ (9 ∷ []) ∷ []) sound_track [] sound_source refl (omega arith)
      (((λ e. cc), omega arith), (((λ e. cc), omega arith), tt))
